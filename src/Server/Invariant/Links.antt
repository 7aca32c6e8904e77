-- ===== src/Server/Invariant/Links.antt =====
-- How the links between executors and clients survive a change of one remote.
use spraycc.Base.{
  ℕ, ◌≡◌, true, Option, none, some, List, arith, ◌==◌, get_elem?, set, get_elem?-set, Bool-cases,
  inl, inr,
}
use spraycc.Server.State.{Remote, ConnectionType, pending, client, exec, dead}
use spraycc.Server.Invariant.{Serves, Link, LinkAt, Links, may_be_client}

-- A remote that is no executor has no link to keep.
pub Link-client :
    (rs : List Remote) (i : ℕ) (t : ConnectionType) (p : Option ℕ)
    → may_be_client t ≡ true
    → Link rs i t p
Link-client rs i pending p h = tt
Link-client rs i client p h = tt
Link-client rs i exec p h = cc
Link-client rs i dead p h = tt

pub Link-Serves :
    (rs : List Remote) (i : ℕ) (t : ConnectionType) (p : Option ℕ) (c : ℕ)
    → p ≡ some c
    → Serves (get_elem? rs c) i
    → Link rs i t p
Link-Serves rs i exec (some j) c e h = ground arith
Link-Serves rs i exec none c e h = tt
Link-Serves rs i pending p c e h = tt
Link-Serves rs i client p c e h = tt
Link-Serves rs i dead p c e h = tt

Link-mono :
    (rs rs' : List Remote) (i : ℕ) (t : ConnectionType) (p : Option ℕ)
    → ((j : ℕ) → Serves (get_elem? rs j) i → Serves (get_elem? rs' j) i)
    → Link rs i t p
    → Link rs' i t p
Link-mono rs rs' i exec (some j) k h = k j h
Link-mono rs rs' i exec none k h = tt
Link-mono rs rs' i pending p k h = tt
Link-mono rs rs' i client p k h = tt
Link-mono rs rs' i dead p k h = tt

pub LinkAt-mono :
    (rs rs' : List Remote) (i : ℕ) (o : Option Remote)
    → ((j : ℕ) → Serves (get_elem? rs j) i → Serves (get_elem? rs' j) i)
    → LinkAt rs i o
    → LinkAt rs' i o
LinkAt-mono rs rs' i none k h = tt
LinkAt-mono rs rs' i (some r) k h = Link-mono rs rs' i r.conn_type r.paired_id k h

-- One remote changes. It must go on to serve whom it served, and its own link must hold.
module _ (rs : List Remote) (i : ℕ) (r' r : Remote) (at_i : get_elem? rs i ≡ some r)
    (links : Links rs) (serves_still : (j : ℕ) → Serves (some r) j → Serves (some r') j) where
  set-Serves : (k j : ℕ) → Serves (get_elem? rs j) k → Serves (get_elem? (set rs i r') j) k
  set-Serves k j h = rw (get_elem?-set rs i j r' r at_i) (ground (arith, at_i, serves_still k))

  pub set-Links : Link (set rs i r') i r'.conn_type r'.paired_id → Links (set rs i r')
  set-Links own j = elim (Bool-cases (i == j)) [
    | inl same ↦
        let e : i ≡ j = ground arith in rw (get_elem?-set rs i j r' r at_i, same) (rw (← e) own)
    | inr other ↦
        rw (get_elem?-set rs i j r' r at_i, other)
          (LinkAt-mono rs (set rs i r') j (get_elem? rs j) (set-Serves j) (links j))
  ]
