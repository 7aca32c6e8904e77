-- ===== src/Server/Safety/Running.antt =====
-- src/server.rs: the loop of `run`, from a new state.
use spraycc.Base.{
  ◌≡◌, refl, false, List, [], ◌∷◌, Result, ok, err, Bool-cases, inl, inr, total, ◌⊎◌,
}
use spraycc.Server.Queue.{PriorityQueue}
use spraycc.Server.State.{Item, Env, Fault, ServerState, panics}
use spraycc.Server.Loop.{
  Event, accept_failed, handle_event, ok_to_shutdown, shutdown, Exit, running, stopped, failed, run,
}
use spraycc.Server.Invariant.{Closed, IsValid, entries, runs}
use spraycc.Server.Safety.Events.{Allowed}
use spraycc.Server.Safety.Reach.{Reach, here, next, IsNew, Reach-IsValid, Reach-no_panic}
use spraycc.Server.Safety.Guarantees.{Reach-shutdown}

Result-cases :
    {A : Type 0} (m : Result Fault A) → ((a : A) × (m ≡ ok a)) ⊎ ((fault : Fault) × (m ≡ err fault))
Result-cases (ok a) = inl (a, refl)
Result-cases (err fault) = inr (fault, refl)

module _ (Q : PriorityQueue Item) where
  -- The events that the loop gets to are allowed, or a connection that cannot be accepted, and the executors that dropped while idle accept no
  -- message.
  abbrev pub AllowedAll : List (Env × Event) → ServerState Q → Type 0
  AllowedAll [] s = Unit
  AllowedAll ((env, event) ∷ events) s =
      Closed env s.remotes s.exec_queue
      × ((event ≡ accept_failed) ⊎ Allowed Q s event)
      × ((t : ServerState Q)
          → handle_event Q env event s ≡ ok t
          → ok_to_shutdown Q env t ≡ false
          → AllowedAll events t)

  -- What is said of the end of the loop.
  abbrev pub EndsWell : Exit Q → Type 0
  EndsWell (running t) = IsValid Q t
  EndsWell (stopped t saved) =
      IsValid Q t × (entries Q t ≡ []) × (total runs t.remotes ≡ 0) × (saved ≡ shutdown Q t)
  EndsWell (failed fault) = (panics fault ≡ false) ⊎ (fault ≡ Fault.accept_failed)

  module _ (s₀ : ServerState Q) (fresh : IsNew Q s₀) where
    run_from :
        (events : List (Env × Event)) (s : ServerState Q)
        → Reach Q s₀ s
        → AllowedAll events s
        → EndsWell (run Q events s)
    unfolding run
    run_from [] s reached u = Reach-IsValid Q s₀ fresh reached
    run_from ((env, event) ∷ events) s reached (closed, inl broken, more) =
        rw (broken, run) (unfold handle_event in inr refl)
    run_from ((env, event) ∷ events) s reached (closed, inr allowed, more) =
        elim (Result-cases (handle_event Q env event s)) [
          | inr (fault, e) ↦
              rw (e, run) (inl (Reach-no_panic Q s₀ fresh reached env event closed allowed e))
          | inl (t, e) ↦
              let after : Reach Q s₀ t = next reached env event closed allowed e in
              elim (Bool-cases (ok_to_shutdown Q env t)) [
                | inl idle ↦
                    let (no_tasks, no_execs) = Reach-shutdown Q s₀ fresh after env idle in
                    rw (e, idle, run) (Reach-IsValid Q s₀ fresh after, no_tasks, no_execs, refl)
                | inr busy ↦ rw (e, busy, run) (run_from events t after (more t e busy))
              ]
        ]

    -- Over any events that the protocol allows, among them connections that cannot be accepted, and in
    -- which the executors that dropped while idle accept no message, the loop that a new server runs
    -- stops by itself only when no task waits and no executor is connected, and then hands on what
    -- `shutdown` makes of its state; while it goes on its state is valid; and a failure that ends it is
    -- the panic on a connection that cannot be accepted, or no panic: one of a channel, or of the loop
    -- that starts executors.
    pub run-Reach :
        (events : List (Env × Event)) → AllowedAll events s₀ → EndsWell (run Q events s₀)
    run-Reach events allowed = run_from events s₀ here allowed
