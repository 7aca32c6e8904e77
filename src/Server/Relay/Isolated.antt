-- ===== src/Server/Relay/Isolated.antt =====
-- src/server.rs: an executor and its client are out of reach of the other connections.
use spraycc.Base.{
  ℕ, ◌≡◌, ◌∙◌, Bool, true, false, Option, none, some, List, get_elem?, get_elem?-set,
  get_elem?-append, get_elem?-lt, set, ◌==◌, Bool-cases, inl, inr, arith,
}
use spraycc.Server.Queue.{PriorityQueue}
use spraycc.Server.State.{
  Item, Env, ServerState, Remote, ConnectionType, pending, client, exec, dead,
}
use spraycc.Server.Dispatch.{as_u32}
use spraycc.Server.Handlers.{add_remote}
use spraycc.Server.Loop.{Event, accepted, accept_failed, received, watchdog, handle_event}
use spraycc.Server.Invariant.{IsValid, Slot, Serves}
use spraycc.Server.Safety.Events.{Allowed}
use spraycc.Server.Safety.Paired.{client_of}
use spraycc.Server.Relay.Then.{Then}
use spraycc.Server.Relay.Frame.{Frame}
use spraycc.Server.Relay.Channels.{other_than, all-other_than, all-not_queued}
use spraycc.Server.Relay.Frame.Events

-- The event is a message of remote `i`.
abbrev pub is_from : ℕ → Event → Bool
is_from i (received x msg) = x == i
is_from i _ = false

-- A paired remote has no place in the queues.
pub paired_quiet :
    (t : ConnectionType) (o : Option ℕ) (p q d : ℕ) → o ≡ some p → Slot t o q d → (q ≡ 0) × (d ≡ 0)
paired_quiet t none p q d e h = cc
paired_quiet pending (some j) p q d e h = absurd h
paired_quiet client (some j) p q d e h = h
paired_quiet exec (some j) p q d e h = h
paired_quiet dead (some j) p q d e h = h

abbrev SameAt : ℕ → Remote → List Remote → Type 0
SameAt i r rs = get_elem? rs i ≡ some r

SameAt-Frame : (i : ℕ) (r : Remote) → Frame (other_than i) (other_than i) (SameAt i r)
SameAt-Frame i r =
    let others : (rs : List Remote) (j : ℕ) (x x' : Remote)
        → other_than i j ≡ true
        → get_elem? rs j ≡ some x
        → SameAt i r rs
        → SameAt i r (set rs j x') =
      λ rs j x x' can at_j h. get_elem?-set rs j i x' x at_j ∙ ground (arith, can, h) in
    record {
      paired = λ rs j x k can can_k at_j h.
          others rs j x (record x { paired_id = some (as_u32 k) }) can at_j h;
      worked = λ rs j x x' can at_j pairs h. others rs j x x' can at_j h;
    }

module _ (Q : PriorityQueue Item) (i p : ℕ) (r : Remote) (paired : r.paired_id ≡ some p) where
  -- What the event may change is neither of the pair.
  apart-May :
      (s : ServerState Q) (event : Event)
      → IsValid Q s
      → Allowed Q s event
      → get_elem? s.remotes i ≡ some r
      → is_from i event ≡ false
      → is_from p event ≡ false
      → Events.May Q (other_than i) (other_than i) (SameAt i r) (SameAt-Frame i r) s event
  unfolding add_remote
  apart-May s accepted books allowed at_i a b =
      get_elem?-append s.remotes _ i ∙ ground (arith, at_i, get_elem?-lt s.remotes i r at_i)
  apart-May s accept_failed books never at_i a b = absurd never
  apart-May s watchdog books allowed at_i a b = tt
  apart-May s (received x msg) books (rx, at_x, allowed) at_i a b = (
    rx,
    at_x,
    allowed,
    ground (arith, a),
    ground (arith, a),
    λ o is runs_task. elim (Bool-cases (o == i)) [
      | inr other ↦ ground (arith, other)
      | inl same ↦
          let serves : Serves (get_elem? s.remotes o) x =
            client_of s.remotes x o rx (rw at_x at (books.links x)) is runs_task in
          let at_o : get_elem? s.remotes o ≡ some r = ground (arith, same, at_i) in
          let here : Serves (some r) x = rw at_o at serves in
          absurd (ground (arith, here.0, paired, b))
    ],
  )

  -- An event of neither of two paired remotes.
  pub event-SameAt :
      (env : Env) (s : ServerState Q) (event : Event)
      → IsValid Q s
      → Allowed Q s event
      → get_elem? s.remotes i ≡ some r
      → is_from i event ≡ false
      → is_from p event ≡ false
      → Then (λ t. get_elem? t.remotes i ≡ some r) (handle_event Q env event s)
  event-SameAt env s event books allowed at_i a b =
      let quiet = paired_quiet r.conn_type r.paired_id p _ _ paired (rw at_i at (books.slots i)) in
      Events.handle_event-Kept Q (other_than i) (other_than i) (SameAt i r) (SameAt-Frame i r) env
        event s (apart-May s event books allowed at_i a b)
        (
          at_i,
          (
            all-other_than i s.exec_queue quiet.1,
            all-not_queued i (PriorityQueue.entries Q s.task_queue) quiet.0,
          ),
        )
