-- ===== src/Server/Relay/Trace.antt =====
-- src/server.rs: a run of the server in which the messages of one executor stand between any others.
use spraycc.Base.{
  ℕ, ◌≡◌, refl, ap, sym, ◌∙◌, Bool, true, false, ◌&&◌, not, some, List, [], ◌∷◌, ok, get_elem?,
  get_elem?-set, ◌==◌, if◌then◌else◌, Bool-cases, inl, inr, arith,
}
use spraycc.Ipc.{Message}
use spraycc.Ipc.Message.{task_output}
use spraycc.Ipc.Outputs.{is_output}
use spraycc.Server.Queue.{PriorityQueue}
use spraycc.Server.State.{Item, Env, ServerState, Remote, is_client}
use spraycc.Server.Loop.{
  Event, accepted, accept_failed, received, watchdog, handle_event, activity_occurred,
}
use spraycc.Server.Invariant.{Closed, IsValid}
use spraycc.Server.Safety.Ensures.{Ensures-ok}
use spraycc.Server.Safety.Events.{Allowed, handle_event-IsValid}
use spraycc.Server.Relay.{sent_after, forwarded}
use spraycc.Server.Relay.Then.{Then, Then-ok}
use spraycc.Server.Relay.Isolated.{is_from, event-SameAt}

-- The events of a run that the protocol allows, each handled without a failure.
pub data Trace (Q : PriorityQueue Item)
    : ServerState Q → List (Env × Event) → ServerState Q → Type 0 where
  done : {s : ServerState Q} → Trace Q s [] s
  step :
      {s u t : ServerState Q} {events : List (Env × Event)}
      → (env : Env) (event : Event) → Closed env s.remotes s.exec_queue
      → Allowed Q s event
      → handle_event Q env event s ≡ ok u
      → Trace Q u events t
      → Trace Q s ((env, event) ∷ events) t

pub next_IsValid :
    (Q : PriorityQueue Item) (env : Env) (event : Event) (s u : ServerState Q)
    → IsValid Q s
    → Closed env s.remotes s.exec_queue
    → Allowed Q s event
    → handle_event Q env event s ≡ ok u
    → IsValid Q u
next_IsValid Q env event s u books closed allowed returned =
    Ensures-ok (IsValid Q) (handle_event Q env event s)
      (handle_event-IsValid Q env s event (books, closed) allowed) returned

-- The messages of remote `e`, in the order in which they are handled.
abbrev pub said_by : ℕ → List (Env × Event) → List Message
said_by e [] = []
said_by e ((env, received x msg) ∷ events) =
    if x == e then msg ∷ said_by e events else said_by e events
said_by e ((env, event) ∷ events) = said_by e events

-- The executor `e` sends only outputs, and the client `c` nothing.
abbrev pub only_outputs : ℕ → ℕ → ℕ → List (Env × Event) → Bool
only_outputs n e c [] = true
only_outputs n e c ((env, received x msg) ∷ events) =
    not (x == c) && (if x == e then is_output n msg else true) && only_outputs n e c events
only_outputs n e c ((env, event) ∷ events) = only_outputs n e c events

-- The client's channel takes every message.
abbrev pub Takes : ℕ → List (Env × Event) → Type 0
Takes c [] = Unit
Takes c ((env, event) ∷ rest) = ((n : ℕ) → env.accepts c n ≡ true) × Takes c rest

module _ (Q : PriorityQueue Item) (e c : ℕ) where
  -- The executor as it was, and the client with what it was sent since.
  abbrev Served : Remote → Remote → List Message → ServerState Q → Type 0
  Served re rc chan s =
      (get_elem? s.remotes e ≡ some re)
      × (get_elem? s.remotes c ≡ some (record rc { send_chan = chan }))

  module _ (apart : (c == e) ≡ false) (re : Remote) (runs_task : re.paired_id ≡ some c)
      (n : ℕ) where
    output_step :
        (env : Env) (msg : Message) (s : ServerState Q) (rc : Remote)
        → is_output n msg ≡ true
        → ((k : ℕ) → env.accepts c k ≡ true)
        → is_client rc.conn_type ≡ true
        → Served re rc rc.send_chan s
        → Then (Served re rc (msg ∷ rc.send_chan)) (handle_event Q env (received e msg) s)
    unfolding handle_event activity_occurred
    output_step env (task_output output_type content) s rc out accepts is (at_e, at_c) =
        let (s', handled, remotes, queue) =
          forwarded Q e c env output_type content s re rc at_e runs_task at_c is accepts in
        let rc' : Remote = record rc {
          send_chan = task_output output_type content ∷ rc.send_chan;
        } in
        rw handled (
          ap (λ rs. get_elem? rs e) remotes
              ∙ get_elem?-set s.remotes c e rc' rc at_c
              ∙ rw apart at_e,
          ap (λ rs. get_elem? rs c) remotes
              ∙ get_elem?-set s.remotes c c rc' rc at_c
              ∙ ground arith,
        )
    output_step env _ s rc out accepts is h = cc

    other_step :
        (env : Env) (event : Event) (s : ServerState Q) (rc : Remote)
        → IsValid Q s
        → Allowed Q s event
        → rc.paired_id ≡ some e
        → is_from e event ≡ false
        → is_from c event ≡ false
        → Served re rc rc.send_chan s
        → (u : ServerState Q) → handle_event Q env event s ≡ ok u
        → Served re rc rc.send_chan u
    other_step env event s rc books allowed paired a b (at_e, at_c) u returned = (
      Then-ok _ _ returned (event-SameAt Q e c re runs_task env s event books allowed at_e a b),
      Then-ok _ _ returned (event-SameAt Q c e rc paired env s event books allowed at_c b a),
    )

    -- Between any other events, the outputs of the executor reach its client, in their order.
    pub Trace-Served :
        {s t : ServerState Q} {events : List (Env × Event)}
        → Trace Q s events t
        → (rc : Remote) → IsValid Q s
        → rc.paired_id ≡ some e
        → is_client rc.conn_type ≡ true
        → only_outputs n e c events ≡ true
        → Takes c events
        → Served re rc rc.send_chan s
        → IsValid Q t × Served re rc (sent_after rc.send_chan (said_by e events)) t
    Trace-Served done rc books paired is outs takes h = (books, h)
    Trace-Served (step {s = s} {u = u} env accepted closed allowed returned rest) rc books paired is
          outs takes h =
        Trace-Served rest rc (next_IsValid Q env accepted s u books closed allowed returned) paired
          is outs takes.1 (other_step env accepted s rc books allowed paired refl refl h u returned)
    Trace-Served (step env accept_failed closed never returned rest) rc books paired is outs takes
          h =
        absurd never
    Trace-Served (step {s = s} {u = u} env watchdog closed allowed returned rest) rc books paired is
          outs takes h =
        Trace-Served rest rc (next_IsValid Q env watchdog s u books closed allowed returned) paired
          is outs takes.1 (other_step env watchdog s rc books allowed paired refl refl h u returned)
    Trace-Served (step {s = s} {u = u} env (received x msg) closed allowed returned rest) rc books
          paired is outs takes h =
        let valid = next_IsValid Q env (received x msg) s u books closed allowed returned in
        elim (Bool-cases (x == e)) [
          | inr other ↦ rw other (
              Trace-Served rest rc valid paired is (ground (arith, outs)) takes.1 (
                other_step env (received x msg) s rc books allowed paired other
                  (ground (arith, outs)) h u returned))
          | inl same ↦
              let at_e : x ≡ e = ground (arith, same) in
              let from_e : handle_event Q env (received e msg) s ≡ ok u =
                ap (λ y. handle_event Q env (received y msg) s) (sym at_e) ∙ returned in
              rw same (
                Trace-Served rest (record rc { send_chan = msg ∷ rc.send_chan }) valid paired is
                  (ground (arith, outs)) takes.1
                  (Then-ok _ _ from_e
                    (output_step env msg s rc (ground (arith, outs, same)) takes.0 is h)))
        ]
