-- ===== src/Server/Safety/Reach.antt =====
-- The states that the server reaches from its start, over events that the protocol allows.
use spraycc.Base.{ℕ, String, ◌≡◌, refl, Bool, false, Option, some, [], arith, ok, err}
use spraycc.Ipc.{CallMe}
use spraycc.Config.{ExecConfig}
use spraycc.History.{History}
use spraycc.Server.Queue.{PriorityQueue}
use spraycc.Server.State.{Item, Env, Fault, ServerState, panics}
use spraycc.Server.Loop.{new, Event, handle_event}
use spraycc.Server.Invariant.{Closed, IsValid}
use spraycc.Server.Safety.Ensures.{Ensures-ok, Ensures-err}
use spraycc.Server.Safety.Events.{Allowed, handle_event-IsValid}

-- In each event the channels of executors that dropped while idle are closed.
pub data Reach (Q : PriorityQueue Item) (s₀ : ServerState Q) : ServerState Q → Type 0 where
  here : Reach Q s₀ s₀
  next :
      {s t : ServerState Q}
      → Reach Q s₀ s
      → (env : Env) (event : Event) → Closed env s.remotes s.exec_queue
      → Allowed Q s event
      → handle_event Q env event s ≡ ok t
      → Reach Q s₀ t

-- A state as `ServerState::new` makes it.
pub record IsNew (Q : PriorityQueue Item) (s : ServerState Q) : Type 0 where
  pub no_remotes : s.remotes ≡ []
  pub no_tasks : PriorityQueue.entries Q s.task_queue ≡ []
  pub no_execs : s.exec_queue ≡ []
  pub none_running : s.running_exec_count ≡ 0
  pub none_finished : s.finish_count ≡ 0

module _ (Q : PriorityQueue Item) where
  new-IsNew :
      (show : ℕ → String) (loaded : ExecConfig) (prior : History) (now : ℕ) (port : CallMe)
      (user_private_key : ℕ) (max_cpus : Option ℕ) (alt_start_cmd both_queues : Bool)
      {s : ServerState Q}
      → new Q show loaded prior now port user_private_key max_cpus alt_start_cmd both_queues
        ≡ some s
      → IsNew Q s
  unfolding new
  new-IsNew show loaded prior now port key max_cpus alt both e =
      ground (arith, PriorityQueue.entries-new Q)

  IsNew-IsValid : (s : ServerState Q) → IsNew Q s → IsValid Q s
  IsNew-IsValid s fresh =
      rw (fresh.no_remotes, fresh.no_tasks, fresh.no_execs, fresh.none_running, fresh.none_finished)
        (record {
          slots = λ i. (refl, refl);
          links = λ i. tt;
          small = omega arith;
          executors = refl;
          tasks = omega arith;
        })

  module _ (s₀ : ServerState Q) (fresh : IsNew Q s₀) where
    -- From a new state, over events that the protocol allows and in which the executors that dropped
    -- while idle accept no message, every state that the server reaches is valid: each client that
    -- is not paired waits with one task, each executor that is not paired is idle, an executor that
    -- runs a task is paired with a client that is paired with it, and the counters agree with that.
    pub Reach-IsValid : {s : ServerState Q} → Reach Q s₀ s → IsValid Q s
    Reach-IsValid here = IsNew-IsValid s₀ fresh
    Reach-IsValid (next {s = u} r env event closed allowed e) =
        Ensures-ok (IsValid Q) (handle_event Q env event u)
          (handle_event-IsValid Q env u event (Reach-IsValid r, closed) allowed) e

    -- From a state reached in this way, where an event of this kind makes the server fail, the
    -- failure is no panic: an index is in range, a subtraction does not go below zero, an assertion
    -- holds, and a remote that is to be paired is.
    pub Reach-no_panic :
        {s : ServerState Q} {fault : Fault}
        → Reach Q s₀ s
        → (env : Env) (event : Event) → Closed env s.remotes s.exec_queue
        → Allowed Q s event
        → handle_event Q env event s ≡ err fault
        → panics fault ≡ false
    Reach-no_panic {s} r env event closed allowed e =
        Ensures-err (IsValid Q) (handle_event Q env event s)
          (handle_event-IsValid Q env s event (Reach-IsValid r, closed) allowed) e
