-- ===== src/Server/Tests/Start.antt =====
-- src/server.rs: starting executors for one task, and the theorems about it.
use spraycc.Base.{◌≤◌, ◌≡◌, refl, ◌⊎◌, false, [], ◌∷◌, ok, err, arith}
use spraycc.Server.Queue.{PriorityQueue}
use spraycc.Server.State.{Env, Fault, ServerState}
use spraycc.Server.Start.{start_execs, spawn_execs}
use spraycc.Server.Start.Bounds.{Started, keep_each, wanted, started, start_execs_bounds}
use spraycc.Server.Start.Ends.{start_execs_ends, start_execs_spins}
use spraycc.Server.Tests.Queue.{queue}
use spraycc.Server.Tests.Scenario.{good, start, details}

-- One task waits, and no executor is pending.
abbrev waiting : ServerState queue
waiting = record start {
  task_queue = PriorityQueue.push queue start.task_queue (0, details "a.c") 1;
}

abbrev one_pending : ServerState queue
unfolding start_execs
one_pending = elim (start_execs queue good waiting) [ ok t ↦ t | err fault ↦ waiting ]

abbrev failing : Env
failing = record good { spawns = λ second. false ∷ false ∷ false ∷ [] }

one_is_started : one_pending.pending_exec_count ≡ 1
unfolding start_execs spawn_execs
one_is_started = refl

start_execs_bounds_example :
    Started queue good (keep_each queue good waiting) waiting one_pending
    × ((wanted queue good one_pending ≤ started queue good one_pending)
        ⊎ (keep_each queue good waiting ≤ one_pending.pending_exec_count))
unfolding start_execs spawn_execs
start_execs_bounds_example = start_execs_bounds queue good waiting one_pending refl refl

start_execs_ends_example : (t : ServerState queue) × (start_execs queue good waiting ≡ ok t)
start_execs_ends_example = start_execs_ends queue good waiting (omega arith) (omega arith)

start_execs_spins_example : start_execs queue failing waiting ≡ err Fault.still_spawning
start_execs_spins_example = start_execs_spins queue failing waiting 3 refl refl refl refl
