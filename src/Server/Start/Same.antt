-- ===== src/Server/Start/Same.antt =====
-- src/server.rs: `start_execs` touches neither the remotes nor the two queues.
use spraycc.Base.{
  ℕ, ◌+◌, ◌/◌, ◌≡◌, refl, ◌∙◌, Bool, true, false, Option-cases, Bool-cases, inl, inr,
}
use spraycc.Server.Queue.{PriorityQueue}
use spraycc.Server.State.{Item, Env, ServerState}
use spraycc.Server.Start.{start_execs, start_execs_in_queue, to_keep, spawn_execs, may_spawn}
use spraycc.Server.Relay.Then.{Then, Then->>=, Then-mono}

module _ (Q : PriorityQueue Item) where
  abbrev pub Same : ServerState Q → ServerState Q → Type 0
  Same s t = (t.remotes ≡ s.remotes) × (t.task_queue ≡ s.task_queue) × (t.exec_queue ≡ s.exec_queue)

  in_queue-Same :
      (env : Env) (second : Bool) (keep : ℕ) (s : ServerState Q)
      → Then (Same s) (start_execs_in_queue Q env second keep s)
  unfolding start_execs_in_queue
  in_queue-Same env false keep s =
      let more =
        may_spawn s.running_exec_count s.second_pending_exec_count
          (PriorityQueue.len Q s.task_queue) s.user_config.max_count keep in
      elim (Option-cases
        (spawn_execs more s.start_cmd (env.spawns false) s.pending_exec_count s.spawned)) [
          | inl e ↦ rw e tt
          | inr (r, e) ↦ rw e (refl, refl, refl)
        ]
  in_queue-Same env true keep s = elim (Option-cases s.second_start_cmd) [
    | inl e ↦ rw e tt
    | inr (cmd, given) ↦
        let more =
          may_spawn s.running_exec_count s.pending_exec_count (PriorityQueue.len Q s.task_queue)
            s.user_config.max_count keep in
        elim (Option-cases
          (spawn_execs more cmd (env.spawns true) s.second_pending_exec_count s.spawned)) [
            | inl e ↦ rw (given, e) tt
            | inr (r, e) ↦ rw (given, e) (refl, refl, refl)
          ]
  ]

  pub start_execs-Same : (env : Env) (s : ServerState Q) → Then (Same s) (start_execs Q env s)
  unfolding start_execs
  start_execs-Same env s = elim (Bool-cases (PriorityQueue.is_empty Q s.task_queue)) [
    | inl empty ↦ rw empty (refl, refl, refl)
    | inr waiting ↦ elim (Option-cases s.second_start_cmd) [
      | inl e ↦ rw (waiting, e, start_execs) (in_queue-Same env false (to_keep Q s) s)
      | inr (cmd, e) ↦
          let half = (to_keep Q s + 1) / 2 in
          rw (waiting, e, start_execs)
            (Then->>= (Same s) (Same s) (start_execs_in_queue Q env false half s)
              (start_execs_in_queue Q env true half) (in_queue-Same env false half s)
              (λ t (rs, q, xs).
                Then-mono (Same t) (Same s) (start_execs_in_queue Q env true half t)
                  (in_queue-Same env true half t)
                  (λ u (rs', q', xs'). (rs' ∙ rs, q' ∙ q, xs' ∙ xs))))
    ]
  ]
