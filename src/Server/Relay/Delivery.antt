-- ===== src/Server/Relay/Delivery.antt =====
-- src/server.rs: what a client gets for its task, whatever else the server does meanwhile.
use spraycc.Base.{
  ℕ, ◌≡◌, sym, ap, ◌∙◌, true, false, some, List, [], ◌∷◌, ◌++◌, append_assoc, append-nil, ok,
  get_elem?, ◌==◌, Bool-cases, inl, inr, arith,
}
use spraycc.Ipc.{Message}
use spraycc.Server.Queue.{PriorityQueue}
use spraycc.Server.State.{Item, Env, ServerState, Remote, exec, is_client}
use spraycc.Server.Loop.{Event, received, handle_event}
use spraycc.Server.Invariant.{IsValid, Serves}
use spraycc.Server.Safety.Events.{Allowed}
use spraycc.Server.Safety.Paired.{client_of}
use spraycc.Server.Safety.Reach.{Reach, IsNew, Reach-IsValid}
use spraycc.Server.Relay.{sent_after}
use spraycc.Server.Relay.Then.{Then-ok}
use spraycc.Server.Relay.Closing.{is_closing}
use spraycc.Server.Relay.Isolated.{is_from, event-SameAt}
use spraycc.Server.Relay.Trace.{
  Trace, done, step, said_by, only_outputs, Takes, Trace-Served, next_IsValid,
}
use spraycc.Server.Relay.Ended.{silent, end-Freed, Trace-Freed}

-- A channel in the order in which it was sent.
abbrev pub in_order : List Message → List Message
in_order [] = []
in_order (msg ∷ chan) = in_order chan ++ msg ∷ []

in_order-sent_after :
    (chan msgs : List Message) → in_order (sent_after chan msgs) ≡ (in_order chan ++ msgs)
in_order-sent_after chan [] = sym (append-nil (in_order chan))
in_order-sent_after chan (msg ∷ msgs) =
    in_order-sent_after (msg ∷ chan) msgs ∙ append_assoc (in_order chan) (msg ∷ []) msgs

Trace-append :
    (Q : PriorityQueue Item) (xs ys : List (Env × Event)) {s t : ServerState Q}
    → Trace Q s (xs ++ ys) t
    → (u : ServerState Q) × Trace Q s xs u × Trace Q u ys t
Trace-append Q [] ys {s} trace = (s, done, trace)
Trace-append Q (x ∷ xs) ys (step env event closed allowed returned rest) =
    let (u, first, second) = Trace-append Q xs ys rest in
    (u, step env event closed allowed returned first, second)

Trace-first :
    (Q : PriorityQueue Item) {s t : ServerState Q} {env : Env} {event : Event}
    {events : List (Env × Event)}
    → Trace Q s ((env, event) ∷ events) t
    → (u : ServerState Q) × (handle_event Q env event s ≡ ok u)
      × (IsValid Q s → IsValid Q u)
      × Trace Q u events t
Trace-first Q {s} (step {u = u} env event closed allowed returned rest) =
    (u, returned, λ books. next_IsValid Q env event s u books closed allowed returned, rest)

-- An executor and the client whose task it runs, in a valid state.
module _ (Q : PriorityQueue Item) (s : ServerState Q) (books : IsValid Q s) (e c : ℕ)
    (re rc : Remote) (at_e : get_elem? s.remotes e ≡ some re) (is_exec : re.conn_type ≡ exec)
    (runs_task : re.paired_id ≡ some c) (at_c : get_elem? s.remotes c ≡ some rc) where
  client_paired : rc.paired_id ≡ some e
  client_paired =
      let serves : Serves (get_elem? s.remotes c) e =
        client_of s.remotes e c re (rw at_e at (books.links e)) is_exec runs_task in
      let here : Serves (some rc) e = rw at_c at serves in here.0

  pair_apart : is_client rc.conn_type ≡ true → (c == e) ≡ false
  pair_apart is = elim (Bool-cases (c == e)) [
    | inr apart ↦ apart
    | inl same ↦ absurd (ground (arith, same, at_e, at_c, is))
  ]

module _ (Q : PriorityQueue Item) (s₀ : ServerState Q) (fresh : IsNew Q s₀) {s : ServerState Q}
    (reached : Reach Q s₀ s) (e c : ℕ) (re rc : Remote) (at_e : get_elem? s.remotes e ≡ some re)
    (runs : re.conn_type ≡ exec) (runs_task : re.paired_id ≡ some c)
    (at_c : get_elem? s.remotes c ≡ some rc) where
  -- In a state that the server reaches, an event that the protocol allows and that is a message
  -- neither of an executor that runs a task nor of its client changes neither of the two: it sends
  -- them nothing, and they stay connected and paired as they are.
  pub Reach-isolated :
      (env : Env) (event : Event) (t : ServerState Q)
      → Allowed Q s event
      → is_from e event ≡ false
      → is_from c event ≡ false
      → handle_event Q env event s ≡ ok t
      → (get_elem? t.remotes e ≡ some re) × (get_elem? t.remotes c ≡ some rc)
  Reach-isolated env event t allowed a b returned =
      let books = Reach-IsValid Q s₀ fresh reached in
      let paired = client_paired Q s books e c re rc at_e runs runs_task at_c in
      (
        Then-ok _ _ returned (event-SameAt Q e c re runs_task env s event books allowed at_e a b),
        Then-ok _ _ returned (event-SameAt Q c e rc paired env s event books allowed at_c b a),
      )

  -- From a state that the server reaches, in which an executor runs the task of a connected client,
  -- over any events that the protocol allows, that the server handles without a failure and in which
  -- the executors that dropped while idle accept no message: where the executor sends outputs and then
  -- the message that ends the task, the client sends nothing and its channel takes every message up to
  -- that one, the client is sent just these messages, in their order, and nothing after them,
  -- whatever other connections, and afterwards the executor, do in between.
  pub Reach-delivered :
      (n : ℕ) (before after : List (Env × Event)) (env : Env) (final : Message) (t : ServerState Q)
      → is_client rc.conn_type ≡ true
      → only_outputs n e c before ≡ true
      → Takes c before
      → ((k : ℕ) → env.accepts c k ≡ true)
      → is_closing final ≡ true
      → silent c after ≡ true
      → Trace Q s (before ++ (env, received e final) ∷ after) t
      → (chan : List Message) × (get_elem? t.remotes c ≡ some (record rc { send_chan = chan }))
        × (in_order chan ≡ (in_order rc.send_chan ++ said_by e before ++ final ∷ []))
  Reach-delivered n before after env final t is outs takes accepts closes quiet trace =
      let books = Reach-IsValid Q s₀ fresh reached in
      let paired = client_paired Q s books e c re rc at_e runs runs_task at_c in
      let apart = pair_apart Q s books e c re rc at_e runs runs_task at_c is in
      let (u, first, second) = Trace-append Q before ((env, received e final) ∷ after) trace in
      let (valid, served) =
        Trace-Served Q e c apart re runs_task n first rc books paired is outs takes (at_e, at_c) in
      let (v, ended, keeps, last) = Trace-first Q second in
      let chan = sent_after rc.send_chan (said_by e before) in
      let freed = Then-ok _ _ ended (
        end-Freed Q e c apart env re (record rc { send_chan = chan }) runs_task paired is accepts
          final u closes valid served.0 served.1) in
      (
        final ∷ chan,
        (Trace-Freed Q e c (record rc { send_chan = final ∷ chan }) paired last (keeps valid) quiet
            freed).0,
        ap (λ l. l ++ final ∷ []) (in_order-sent_after rc.send_chan (said_by e before)),
      )
