-- ===== src/Server/Relay/Freed.antt =====
-- src/server.rs: a client whose task has ended, and the executor that ran it, which serves others.
use spraycc.Base.{
  ℕ, ◌+◌, ◌^◌, ◌<◌, ◌≡◌, ◌≢◌, refl, sym, ◌∙◌, Bool, true, false, not, ◌&&◌, Option, none, some,
  List, [], ◌∷◌, all, count, get_elem?, get_elem?-set, get_elem?-append, get_elem?-lt, set, ltb,
  ◌==◌, Bool-cases, inl, inr, arith,
}
use spraycc.Server.Queue.{PriorityQueue}
use spraycc.Server.State.{Item, Env, ServerState, Remote}
use spraycc.Server.Dispatch.{as_u32}
use spraycc.Server.Handlers.{add_remote}
use spraycc.Server.Loop.{Event, accepted, accept_failed, received, watchdog, handle_event}
use spraycc.Server.Invariant.{Books, IsValid, SlotAt, Serves, queued, entries}
use spraycc.Server.Safety.Events.{Allowed}
use spraycc.Server.Safety.Paired.{client_of, found_client}
use spraycc.Server.Relay.Then.{Then}
use spraycc.Server.Relay.Frame.{Frame}
use spraycc.Server.Relay.Isolated.{is_from, paired_quiet}
use spraycc.Server.Relay.Frame.Events

-- A remote other than `c`, whose id fits 32 bits.
abbrev pub small_other : ℕ → ℕ → Bool
small_other c k = ltb k (2 ^ 32) && not (k == c)

not_c : (c k : ℕ) → small_other c k ≡ true → as_u32 k ≢ c
not_c c k can = ground arith

-- The client as it was, and the executor not paired with it.
abbrev pub Freed : ℕ → ℕ → Remote → List Remote → Type 0
Freed c e rc rs =
    (get_elem? rs c ≡ some rc) × ((x : Remote) × (get_elem? rs e ≡ some x) × (x.paired_id ≢ some c))

set-Freed :
    (c e : ℕ) (rc : Remote) (rs : List Remote) (i : ℕ) (r r' : Remote)
    → small_other c i ≡ true
    → get_elem? rs i ≡ some r
    → (r.paired_id ≢ some c → r'.paired_id ≢ some c)
    → Freed c e rc rs
    → Freed c e rc (set rs i r')
set-Freed c e rc rs i r r' can at_i keeps (at_c, (x, at_e, free)) = (
  get_elem?-set rs i c r' r at_i ∙ ground (arith, can, at_c),
  elim (Bool-cases (i == e)) [
    | inl here ↦
        let same : r ≡ x = ground (arith, here, at_i, at_e) in
        (r', get_elem?-set rs i e r' r at_i ∙ rw here refl, keeps (rw (sym same) at free))
    | inr there ↦ (x, get_elem?-set rs i e r' r at_i ∙ rw there at_e, free)
  ],
)

pub Freed-Frame : (c e : ℕ) (rc : Remote) → Frame (small_other c) (small_other c) (Freed c e rc)
Freed-Frame c e rc = record {
  paired = λ rs i r k can can_k at_i h.
      set-Freed c e rc rs i r (record r { paired_id = some (as_u32 k) }) can at_i
        (λ free same. not_c c k can_k (ground (arith, same))) h;
  worked = λ rs i r r' can at_i pairs h.
      set-Freed c e rc rs i r r' can at_i
        (λ free. elim pairs [
          | inl kept ↦ ground (arith, kept, free)
          | inr (inl ends) ↦ ground (arith, ends)
          | inr (inr (k, can_k, starts)) ↦ λ same. not_c c k can_k (ground (arith, same, starts))
        ])
        h;
}

-- What is in a queue is the id of a remote.
in_use : (o : Option Remote) (q d : ℕ) → SlotAt o q d → 0 < q + d → (r : Remote) × (o ≡ some r)
in_use none q d h some_is = absurd (ground (arith, h, some_is))
in_use (some r) q d h some_is = (r, refl)

all-of_count :
    (p : ℕ → Bool) (xs : List ℕ) → ((i : ℕ) → 0 < count i xs → p i ≡ true) → all p xs ≡ true
all-of_count p [] h = refl
all-of_count p (x ∷ xs) h =
    ground (arith, h x (ground arith), all-of_count p xs (λ i inside. h i (ground (arith, inside))))

all-of_queued :
    (p : ℕ → Bool) (es : List (Item × ℕ))
    → ((i : ℕ) → 0 < queued i es → p i ≡ true)
    → all (λ e. p e.0.0) es ≡ true
all-of_queued p [] h = refl
all-of_queued p (e ∷ es) h =
    ground
      (arith, h e.0.0 (ground arith), all-of_queued p es (λ i inside. h i (ground (arith, inside))))

module _ (rs : List Remote) (es : List (Item × ℕ)) (xs : List ℕ) (run fin sub : ℕ)
    (books : Books rs es xs run fin sub) (c : ℕ) (q_none : queued c es ≡ 0)
    (d_none : count c xs ≡ 0) where
  queued_small : (i : ℕ) → 0 < queued i es + count i xs → small_other c i ≡ true
  queued_small i inside =
      let (r, at_i) = in_use (get_elem? rs i) _ _ (books.slots i) inside in
      ground (arith, get_elem?-lt rs i r at_i, books.small, q_none, d_none, inside)

  pub waiting_small : all (λ e. small_other c e.0.0) es ≡ true
  waiting_small =
      all-of_queued (small_other c) es (λ i inside. queued_small i (ground (arith, inside)))

  pub idle_small : all (small_other c) xs ≡ true
  idle_small = all-of_count (small_other c) xs (λ i inside. queued_small i (ground (arith, inside)))

module _ (Q : PriorityQueue Item) (c e : ℕ) (rc : Remote) (paired : rc.paired_id ≡ some e) where
  freed-May :
      (s : ServerState Q) (event : Event)
      → IsValid Q s
      → Allowed Q s event
      → Freed c e rc s.remotes
      → is_from c event ≡ false
      → Events.May Q (small_other c) (small_other c) (Freed c e rc) (Freed-Frame c e rc) s event
  unfolding add_remote
  freed-May s accepted books allowed (at_c, (x, at_e, free)) quiet = (
    get_elem?-append s.remotes _ c ∙ ground (arith, at_c, get_elem?-lt s.remotes c rc at_c),
    (
      x,
      get_elem?-append s.remotes _ e ∙ ground (arith, at_e, get_elem?-lt s.remotes e x at_e),
      free,
    ),
  )
  freed-May s accept_failed books never h quiet = absurd never
  freed-May s watchdog books allowed h quiet = tt
  freed-May s (received i msg) books (r, at_i, allowed) (at_c, (x, at_e, free)) quiet =
      let can : small_other c i ≡ true =
        ground (arith, quiet, get_elem?-lt s.remotes i r at_i, books.small) in
      (
        r,
        at_i,
        allowed,
        can,
        can,
        λ o is runs_task.
            let serves : Serves (get_elem? s.remotes o) i =
              client_of s.remotes i o r (rw at_i at (books.links i)) is runs_task in
            let (other, at_o, kind) = found_client (get_elem? s.remotes o) i serves in
            elim (Bool-cases (o == c)) [
              | inr apart ↦ ground (arith, apart, get_elem?-lt s.remotes o other at_o, books.small)
              | inl same ↦
                  let o_c : get_elem? s.remotes o ≡ some rc = ground (arith, same, at_c) in
                  let here : Serves (some rc) i = rw o_c at serves in
                  let i_e : r ≡ x = ground (arith, here.0, paired, at_i, at_e) in
                  absurd (free (ground (arith, i_e, runs_task, same)))
            ],
      )

  -- An event that the client has no part in.
  pub event-Freed :
      (env : Env) (event : Event) (s : ServerState Q)
      → IsValid Q s
      → Allowed Q s event
      → Freed c e rc s.remotes
      → is_from c event ≡ false
      → Then (λ t. Freed c e rc t.remotes) (handle_event Q env event s)
  event-Freed env event s books allowed h quiet =
      let slot : SlotAt (some rc) (queued c (entries Q s)) (count c s.exec_queue) =
        rw h.0 at (books.slots c) in
      let (q, d) = paired_quiet rc.conn_type rc.paired_id e _ _ paired slot in
      Events.handle_event-Kept Q (small_other c) (small_other c) (Freed c e rc) (Freed-Frame c e rc)
        env event s (freed-May s event books allowed h quiet)
        (
          h,
          (
            idle_small s.remotes (entries Q s) s.exec_queue _ _ _ books c q d,
            waiting_small s.remotes (entries Q s) s.exec_queue _ _ _ books c q d,
          ),
        )
