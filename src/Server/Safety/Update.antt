-- ===== src/Server/Safety/Update.antt =====
-- Starting executors, and `update`, keep the books and do not panic.
use spraycc.Base.{
  ℕ, String, ◌+◌, ◌/◌, ◌≡◌, refl, true, false, some, ◌∙◌, Bool-cases, inl, inr, Option-cases,
}
use spraycc.Server.Queue.{PriorityQueue}
use spraycc.Server.State.{Item, Env, ServerState}
use spraycc.Server.Start.{start_execs, start_execs_in_queue, to_keep, spawn_execs, may_spawn}
use spraycc.Server.Dispatch.{update}
use spraycc.Server.Invariant.{IsSound}
use spraycc.Server.Safety.Ensures.{Ensures, Ensures->>=, Ensures-mono}
use spraycc.Server.Safety.Dispatch.{Drained}
use spraycc.Server.Safety.Release.{check_queues-IsSound}

module _ (Q : PriorityQueue Item) (env : Env) where
  in_primary-IsSound :
      (keep : ℕ) (s : ServerState Q)
      → IsSound Q env s
      → Ensures
          (λ t. IsSound Q env t × (t.second_start_cmd ≡ s.second_start_cmd))
          (start_execs_in_queue Q env false keep s)
  unfolding start_execs_in_queue
  in_primary-IsSound keep s sound =
      let more =
        may_spawn s.running_exec_count s.second_pending_exec_count
          (PriorityQueue.len Q s.task_queue) s.user_config.max_count keep in
      elim (Option-cases
        (spawn_execs more s.start_cmd (env.spawns false) s.pending_exec_count s.spawned)) [
          | inl e ↦ rw e refl
          | inr (r, e) ↦ rw e (sound, refl)
        ]

  in_secondary-IsSound :
      (keep : ℕ) (s : ServerState Q) (cmd : String)
      → s.second_start_cmd ≡ some cmd
      → IsSound Q env s
      → Ensures (IsSound Q env) (start_execs_in_queue Q env true keep s)
  unfolding start_execs_in_queue
  in_secondary-IsSound keep s cmd given sound =
      let more =
        may_spawn s.running_exec_count s.pending_exec_count (PriorityQueue.len Q s.task_queue)
          s.user_config.max_count keep in
      elim (Option-cases
        (spawn_execs more cmd (env.spawns true) s.second_pending_exec_count s.spawned)) [
          | inl e ↦ rw (given, e) refl
          | inr (r, e) ↦ rw (given, e) sound
        ]

  start_execs-IsSound :
      (s : ServerState Q) → IsSound Q env s → Ensures (IsSound Q env) (start_execs Q env s)
  unfolding start_execs
  start_execs-IsSound s sound = elim (Bool-cases (PriorityQueue.is_empty Q s.task_queue)) [
    | inl empty ↦ rw empty sound
    | inr waiting ↦ elim (Option-cases s.second_start_cmd) [
      | inl e ↦
          rw (waiting, e, start_execs)
            (Ensures-mono _ _ (start_execs_in_queue Q env false (to_keep Q s) s)
              (in_primary-IsSound (to_keep Q s) s sound) (λ t h. h.0))
      | inr (cmd, e) ↦
          rw (waiting, e, start_execs)
            (Ensures->>= _ _ (start_execs_in_queue Q env false ((to_keep Q s + 1) / 2) s) _
              (in_primary-IsSound ((to_keep Q s + 1) / 2) s sound)
              (λ t h. in_secondary-IsSound ((to_keep Q s + 1) / 2) t cmd (h.1 ∙ e) h.0))
    ]
  ]

  -- Wherever `update` returns, no task waits while an executor is idle.
  pub update-IsSound :
      (s : ServerState Q)
      → IsSound Q env s
      → Ensures (λ t. IsSound Q env t × Drained Q env t) (update Q env s)
  unfolding update
  update-IsSound s sound =
      Ensures->>= _ _ (start_execs Q env s) _ (start_execs-IsSound s sound)
        (check_queues-IsSound Q env)
