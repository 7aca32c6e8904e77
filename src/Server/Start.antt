-- ===== src/Server/Start.antt =====
-- src/server.rs: starting executors.
pub mod Bounds
pub mod Ends
pub mod Same
use spraycc.Base.{
  ℕ, ◌+◌, ◌-◌, ◌/◌, String, Bool, true, false, ◌&&◌, Option, none, some, List, [], ◌∷◌, Result, ok,
  or_fail, ◌>>=◌, ltb, max, if◌then◌else◌,
}
use spraycc.Server.Queue.{PriorityQueue}
use spraycc.Server.State.{Item, Env, Fault, ServerState}

-- The test of the loop in `start_execs_in_queue`.
abbrev pub may_spawn : ℕ → ℕ → ℕ → ℕ → ℕ → ℕ → Bool
may_spawn running other queued max_count keep_pending pending =
    ltb (running + pending + other) queued
    && ltb (running + pending + other) max_count
    && ltb pending keep_pending

-- The loop, over the outcomes of its attempts to start a process: the number that is pending after
-- it and the commands that were started. `none`: more attempts are made than there are outcomes.
unfoldable pub spawn_execs :
    (ℕ → Bool) → String → List Bool → ℕ → List String → Option (ℕ × List String)
spawn_execs more cmd [] pending spawned = if more pending then none else some (pending, spawned)
spawn_execs more cmd (true ∷ os) pending spawned =
    let rest = spawn_execs more cmd os (pending + 1) (cmd ∷ spawned) in
    if more pending then rest else some (pending, spawned)
spawn_execs more cmd (false ∷ os) pending spawned =
    let rest = spawn_execs more cmd os pending spawned in
    if more pending then rest else some (pending, spawned)

module _ (Q : PriorityQueue Item) where
  start_primary : Env → ℕ → ServerState Q → Result Fault (ServerState Q)
  start_primary env keep_pending s = do
    let more =
        may_spawn s.running_exec_count s.second_pending_exec_count
          (PriorityQueue.len Q s.task_queue) s.user_config.max_count keep_pending
    (p, cmds) ←
        or_fail (spawn_execs more s.start_cmd (env.spawns false) s.pending_exec_count s.spawned)
          Fault.still_spawning
    ok (record s { pending_exec_count = p; spawned = cmds })

  start_secondary : Env → ℕ → ServerState Q → Result Fault (ServerState Q)
  start_secondary env keep_pending s = do
    cmd ← or_fail s.second_start_cmd Fault.unwrap_none
    let more =
        may_spawn s.running_exec_count s.pending_exec_count (PriorityQueue.len Q s.task_queue)
          s.user_config.max_count keep_pending
    (p, cmds) ←
        or_fail (spawn_execs more cmd (env.spawns true) s.second_pending_exec_count s.spawned)
          Fault.still_spawning
    ok (record s { second_pending_exec_count = p; spawned = cmds })

  unfoldable pub start_execs_in_queue :
      Env → Bool → ℕ → ServerState Q → Result Fault (ServerState Q)
  unfolding start_primary start_secondary
  start_execs_in_queue env false keep_pending s = start_primary env keep_pending s
  start_execs_in_queue env true keep_pending s = start_secondary env keep_pending s

  -- `max(initial_count, running) - running`, and at least `keep_pending`.
  abbrev pub to_keep : ServerState Q → ℕ
  to_keep s =
      let init_needed =
        max s.user_config.initial_count s.running_exec_count - s.running_exec_count in
      max s.user_config.keep_pending init_needed

  unfoldable pub start_execs : Env → ServerState Q → Result Fault (ServerState Q)
  unfolding start_execs_in_queue
  start_execs env s =
      if PriorityQueue.is_empty Q s.task_queue then ok s else elim s.second_start_cmd [
        | some cmd ↦ do
          let half_pending = (to_keep s + 1) / 2
          s' ← start_execs_in_queue env false half_pending s
          start_execs_in_queue env true half_pending s'
        | none ↦ start_execs_in_queue env false (to_keep s) s
      ]
