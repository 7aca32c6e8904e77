-- ===== src/Server/Tests/Running.antt =====
-- src/server.rs: a server to which a connection is made that never says anything.
use spraycc.Base.{ℕ, inr, ◌≡◌, refl, arith, none, List, [], ◌∷◌}
use spraycc.Server.State.{Env, Fault, Remote}
use spraycc.Server.Loop.{
  Event, accepted, accept_failed, watchdog, handle_event, Exit, stopped, failed, run,
}
use spraycc.Server.Invariant.{Closed}
use spraycc.Server.Relay.Then.{Then-ok}
use spraycc.Server.Safety.Running.{AllowedAll, EndsWell, run-Reach}
use spraycc.Server.Tests.{start-IsNew, later, Closed-none}
use spraycc.Server.Tests.Queue.{queue}
use spraycc.Server.Tests.Scenario.{good, start}

abbrev events : List (Env × Event)
events = (good, accepted) ∷ (later, watchdog) ∷ []

Closed-empty : (env : Env) (rs : List Remote) (xs : List ℕ) → xs ≡ [] → Closed env rs xs
Closed-empty env rs xs e = rw e (Closed-none env rs)

allowed : AllowedAll queue events start
unfolding handle_event
allowed = (
  Closed-none good start.remotes,
  inr (omega arith),
  λ t returned going. (
    Closed-empty later t.remotes t.exec_queue
        (Then-ok (λ u. u.exec_queue ≡ []) (handle_event queue good accepted start) returned refl),
    inr tt,
    λ t' returned' going'. tt,
  ),
)

abbrev Stops : Exit queue → Type 0
Stops (stopped t saved) = saved ≡ none
Stops _ = ⊥

ends : Stops (run queue events start)
unfolding run spraycc.History.is_empty
ends = refl

-- A connection that cannot be accepted ends the server.
cannot_accept :
    run queue ((good, accepted) ∷ (good, accept_failed) ∷ []) start ≡ failed Fault.accept_failed
unfolding run
cannot_accept = refl

run-Reach_example : EndsWell queue (run queue events start)
run-Reach_example = run-Reach queue start start-IsNew events allowed
