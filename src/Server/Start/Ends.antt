-- ===== src/Server/Start/Ends.antt =====
-- Whether starting executors comes to an end.
use spraycc.Base.{
  ℕ, String, ◌+◌, ◌/◌, ◌≤◌, ◌≡◌, true, false, none, some, List, arith, ok, err, Bool-cases, inl,
  inr, Option-cases,
}
use spraycc.Server.Queue.{PriorityQueue}
use spraycc.Server.State.{Item, Env, Fault, ServerState}
use spraycc.Server.Start.{spawn_execs, may_spawn, start_execs_in_queue, start_execs, to_keep}
use spraycc.Server.Start.Bounds.{
  replicate, successes, spawn_ends, spawn_spins, keep_each, start_execs_one, start_execs_two,
}

module _ (Q : PriorityQueue Item) (env : Env) where
  primary_ends :
      (keep : ℕ) (s : ServerState Q)
      → keep ≤ s.pending_exec_count + successes (env.spawns false)
      → (p : ℕ) × (cmds : List String) × (start_execs_in_queue Q env false keep s
          ≡ ok (record s { pending_exec_count = p; spawned = cmds }))
  unfolding start_execs_in_queue
  primary_ends keep s enough =
      let more =
        may_spawn s.running_exec_count s.second_pending_exec_count
          (PriorityQueue.len Q s.task_queue) s.user_config.max_count keep in
      elim (Option-cases
        (spawn_execs more s.start_cmd (env.spawns false) s.pending_exec_count s.spawned)) [
          | inl e ↦ absurd (
              spawn_ends more s.start_cmd keep (env.spawns false) s.pending_exec_count s.spawned
                (λ q h. ground arith) enough e)
          | inr (r, e) ↦ (r.0, r.1, rw e)
        ]

  secondary_ends :
      (keep : ℕ) (s : ServerState Q) (cmd : String)
      → s.second_start_cmd ≡ some cmd
      → keep ≤ s.second_pending_exec_count + successes (env.spawns true)
      → (t : ServerState Q) × (start_execs_in_queue Q env true keep s ≡ ok t)
  unfolding start_execs_in_queue
  secondary_ends keep s cmd given enough =
      let more =
        may_spawn s.running_exec_count s.pending_exec_count (PriorityQueue.len Q s.task_queue)
          s.user_config.max_count keep in
      elim (Option-cases
        (spawn_execs more cmd (env.spawns true) s.second_pending_exec_count s.spawned)) [
          | inl e ↦ absurd (
              spawn_ends more cmd keep (env.spawns true) s.second_pending_exec_count s.spawned
                (λ q h. ground arith) enough e)
          | inr (r, e) ↦ (record s { second_pending_exec_count = r.0; spawned = r.1 }, ground arith)
        ]

  -- `start_execs` returns if in each queue the executors that are pending and the successes among the
  -- attempts to come are at least the number that the queue is to keep pending.
  pub start_execs_ends :
      (s : ServerState Q)
      → keep_each Q env s ≤ s.pending_exec_count + successes (env.spawns false)
      → keep_each Q env s ≤ s.second_pending_exec_count + successes (env.spawns true)
      → (t : ServerState Q) × (start_execs Q env s ≡ ok t)
  start_execs_ends s first second = elim (Bool-cases (PriorityQueue.is_empty Q s.task_queue)) [
    | inl empty ↦ (s, unfold start_execs in rw empty)
    | inr waiting ↦ elim (Option-cases s.second_start_cmd) [
      | inl one ↦
          let (p, cmds, e) = primary_ends (to_keep Q s) s (ground arith) in
          (
            record s { pending_exec_count = p; spawned = cmds },
            rw (start_execs_one Q env s waiting one) e,
          )
      | inr (cmd, two) ↦
          let half : ℕ = (to_keep Q s + 1) / 2 in
          let (p, cmds, e) = primary_ends half s (ground arith) in
          let u : ServerState Q = record s { pending_exec_count = p; spawned = cmds } in
          let (t, e') = secondary_ends half u cmd two (ground arith) in
          (t, rw (start_execs_two Q env s cmd waiting two, e) e')
    ]
  ]

  primary_spins :
      (keep : ℕ) (s : ServerState Q) (n : ℕ)
      → env.spawns false ≡ replicate n false
      → may_spawn s.running_exec_count s.second_pending_exec_count
          (PriorityQueue.len Q s.task_queue)
          s.user_config.max_count
          keep
          s.pending_exec_count
        ≡ true
      → start_execs_in_queue Q env false keep s ≡ err Fault.still_spawning
  unfolding start_execs_in_queue
  primary_spins keep s n all_fail wants =
      let more =
        may_spawn s.running_exec_count s.second_pending_exec_count
          (PriorityQueue.len Q s.task_queue) s.user_config.max_count keep in
      rw (all_fail, spawn_spins more s.start_cmd n s.pending_exec_count s.spawned wants)

  -- Where tasks wait, there is one queue, one more executor is wanted and every attempt to start one
  -- fails, `start_execs` does not end: however many attempts there are, it goes on after the last.
  pub start_execs_spins :
      (s : ServerState Q) (n : ℕ)
      → PriorityQueue.is_empty Q s.task_queue ≡ false
      → s.second_start_cmd ≡ none
      → env.spawns false ≡ replicate n false
      → may_spawn s.running_exec_count s.second_pending_exec_count
          (PriorityQueue.len Q s.task_queue)
          s.user_config.max_count
          (to_keep Q s)
          s.pending_exec_count
        ≡ true
      → start_execs Q env s ≡ err Fault.still_spawning
  start_execs_spins s n waiting one all_fail wants =
      rw (start_execs_one Q env s waiting one) (primary_spins (to_keep Q s) s n all_fail wants)
