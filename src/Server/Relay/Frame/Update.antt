-- ===== src/Server/Relay/Frame/Update.antt =====
-- src/server.rs: `update` under a frame rule.
use spraycc.Base.{ℕ, Bool, List}
use spraycc.Server.Queue.{PriorityQueue}
use spraycc.Server.State.{Item, Env, ServerState, Remote}
use spraycc.Server.Start.{start_execs}
use spraycc.Server.Start.Same.{Same, start_execs-Same}
use spraycc.Server.Relay.Then.{Then-mono, Then, Then->>=}
use spraycc.Server.Dispatch.{check_queues, update}
use spraycc.Server.Relay.Frame.{Frame}
use spraycc.Server.Relay.Frame

module _ (Q : PriorityQueue Item) (can_pair can_run : ℕ → Bool) (R : List Remote → Type 0)
    (frame : Frame can_pair can_run R) where
  abbrev Framed : ServerState Q → Type 0
  Framed = Frame.Framed Q can_pair can_run R frame

  abbrev Kept : ServerState Q → Type 0
  Kept = Frame.Kept Q can_pair can_run R frame

  start_execs-Framed :
      (env : Env) (s : ServerState Q) → Framed s → Then Framed (start_execs Q env s)
  start_execs-Framed env s h =
      Then-mono (Same Q s) Framed (start_execs Q env s) (start_execs-Same Q env s)
        (λ t (rs, q, xs). rw (rs, q, xs) h)

  -- What holds of the remotes is kept by `update`.
  pub update-Kept : (env : Env) (s : ServerState Q) → Framed s → Then Kept (update Q env s)
  unfolding update
  update-Kept env s h =
      Then->>= Framed Kept (start_execs Q env s) (check_queues Q env) (start_execs-Framed env s h)
        (Frame.check_queues-Kept Q can_pair can_run R frame env)
