-- ===== src/Server/Invariant/Changes.antt =====
-- One remote changes, and the queues and counters with it.
use spraycc.Base.{
  ℕ, ◌+◌, ◌≤◌, ◌<◌, ◌≡◌, ◌≢◌, true, some, List, arith, ◌==◌, length, total, count, get_elem?, set,
  get_elem?-set, total-set, length-set, Bool-cases, inl, inr,
}
use spraycc.Server.State.{Item, Env, Remote}
use spraycc.Server.Invariant.{
  queued, SlotAt, Slots, Serves, Link, runs, busy, Books, Closed, IsClosed, is_dead,
}
use spraycc.Server.Invariant.Links.{set-Links}

module _ {rs : List Remote} {es : List (Item × ℕ)} {xs : List ℕ} {run fin sub : ℕ}
    (books : Books rs es xs run fin sub) (i : ℕ) (r' r : Remote) (at_i : get_elem? rs i ≡ some r)
    (es' : List (Item × ℕ)) (xs' : List ℕ) (run' fin' sub' : ℕ)
    (serves_still : (j : ℕ) → Serves (some r) j → Serves (some r') j)
    (own_link : Link (set rs i r') i r'.conn_type r'.paired_id)
    (own_slot : SlotAt (some r') (queued i es') (count i xs'))
    (other_slots : (j : ℕ) → i ≢ j → (queued j es' ≡ queued j es) × (count j xs' ≡ count j xs))
    (executors : run' + runs r ≡ run + runs r')
    (tasks : (b : ℕ) → b + busy r ≡ total busy rs + busy r' → fin' + length es' + b ≤ sub') where
  set-Slots : Slots (set rs i r') es' xs'
  set-Slots j = elim (Bool-cases (i == j)) [
    | inl same ↦
        let e : i ≡ j = ground arith in
        rw (get_elem?-set rs i j r' r at_i, same) (rw (← e) own_slot)
    | inr other ↦
        rw (get_elem?-set rs i j r' r at_i, other) (ground (arith, books.slots j, other_slots j))
  ]

  pub set-Books : Books (set rs i r') es' xs' run' fin' sub'
  set-Books = record {
    slots = set-Slots;
    links = set-Links rs i r' r at_i books.links serves_still own_link;
    small = omega (arith, length-set rs i r', books.small);
    executors = omega (arith, executors, books.executors, total-set runs rs i r' r at_i);
    tasks = tasks (total busy (set rs i r')) (total-set busy rs i r' r at_i);
  }

module _ (env : Env) (rs : List Remote) (xs : List ℕ) (closed : Closed env rs xs) (i : ℕ)
    (r' r : Remote) (at_i : get_elem? rs i ≡ some r) (xs' : List ℕ)
    (others : (j : ℕ) → i ≢ j → count j xs' ≡ count j xs)
    (own : is_dead r'.conn_type ≡ true → 0 < count i xs' → IsClosed env i) where
  pub set-Closed : Closed env (set rs i r') xs'
  set-Closed j v at_j gone inside = elim (Bool-cases (i == j)) [
    | inl same ↦
        let e : i ≡ j = ground arith in
        rw (← e) (own (ground (arith, get_elem?-set rs i j r' r at_i, at_j, gone)) (rw e inside))
    | inr other ↦
        closed j v (ground (arith, get_elem?-set rs i j r' r at_i)) gone (ground (arith, others j))
  ]
