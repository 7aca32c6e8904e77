-- ===== src/Server/Start/Bounds.antt =====
-- How many executors are started, and when the loop that starts them ends.
use spraycc.Base.{
  ℕ, String, suc, zero, ◌+◌, ◌-◌, ◌/◌, ◌≤◌, ◌<◌, ◌≡◌, ◌≢◌, max, min, Bool, true, false, none, some,
  List, [], ◌∷◌, arith, ok, ◌>>=◌, >>=-eq-ok, inl, inr, Option-cases, ◌⊎◌, or_fail, sym, ◌∙◌,
}
use spraycc.Server.Queue.{PriorityQueue}
use spraycc.Server.State.{Item, Env, Fault, ServerState}
use spraycc.Server.Start.{spawn_execs, may_spawn, start_execs_in_queue, start_execs, to_keep}

abbrev pub replicate {ℓ} : {A : Type ℓ} → ℕ → A → List A
replicate zero a = []
replicate (suc n) a = a ∷ replicate n a

-- How many attempts succeed.
abbrev pub successes : List Bool → ℕ
successes [] = 0
successes (true ∷ os) = suc (successes os)
successes (false ∷ os) = successes os

module _ (more : ℕ → Bool) (cmd : String) where
  -- The loop ends by its test, and starts no executor at or past the limit.
  pub spawn_bounds :
      (n : ℕ) (os : List Bool) (p : ℕ) (cmds : List String) (r : ℕ × List String)
      → ((q : ℕ) → more q ≡ true → q < n)
      → spawn_execs more cmd os p cmds ≡ some r
      → (p ≤ r.0) × (more r.0 ≡ false) × (r.0 ≤ max p n)
  unfolding spawn_execs
  spawn_bounds n [] p cmds r limit e = ground arith
  spawn_bounds n (true ∷ os) p cmds r limit e =
      ground (arith, limit p, spawn_bounds n os (p + 1) (cmd ∷ cmds) r limit)
  spawn_bounds n (false ∷ os) p cmds r limit e =
      ground (arith, limit p, spawn_bounds n os p cmds r limit)

  -- With enough successes among its attempts the loop ends.
  pub spawn_ends :
      (n : ℕ) (os : List Bool) (p : ℕ) (cmds : List String)
      → ((q : ℕ) → more q ≡ true → q < n)
      → n ≤ p + successes os
      → spawn_execs more cmd os p cmds ≢ none
  unfolding spawn_execs
  spawn_ends n [] p cmds limit enough = ground (arith, limit p)
  spawn_ends n (true ∷ os) p cmds limit enough =
      ground (arith, limit p, spawn_ends n os (p + 1) (cmd ∷ cmds) limit)
  spawn_ends n (false ∷ os) p cmds limit enough =
      ground (arith, limit p, spawn_ends n os p cmds limit)

  -- While every attempt fails, the loop goes on, whatever their number.
  pub spawn_spins :
      (n : ℕ) (p : ℕ) (cmds : List String)
      → more p ≡ true
      → spawn_execs more cmd (replicate n false) p cmds ≡ none
  unfolding spawn_execs
  spawn_spins zero p cmds e = rw e
  spawn_spins (suc n) p cmds e = rw e (spawn_spins n p cmds e)

module _ (Q : PriorityQueue Item) (env : Env) where
  -- Executors that run or are pending.
  abbrev pub started : ServerState Q → ℕ
  started s = s.running_exec_count + s.pending_exec_count + s.second_pending_exec_count

  -- What the server wants at most: one executor for each task, up to the limit.
  abbrev pub wanted : ServerState Q → ℕ
  wanted s = min s.user_config.max_count (PriorityQueue.len Q s.task_queue)

  -- What starting executors changes, and how far it goes.
  pub record Started (keep : ℕ) (s t : ServerState Q) : Type 0 where
    pub same_running : t.running_exec_count ≡ s.running_exec_count
    pub same_wanted : wanted t ≡ wanted s
    pub primary_grows : s.pending_exec_count ≤ t.pending_exec_count
    pub secondary_grows : s.second_pending_exec_count ≤ t.second_pending_exec_count
    pub primary_kept : t.pending_exec_count ≤ max s.pending_exec_count keep
    pub secondary_kept : t.second_pending_exec_count ≤ max s.second_pending_exec_count keep
    pub in_total : started t ≤ max (started s) (wanted s)

  in_primary-Started :
      (keep : ℕ) (s t : ServerState Q)
      → start_execs_in_queue Q env false keep s ≡ ok t
      → Started keep s t
        × (t.second_start_cmd ≡ s.second_start_cmd)
        × ((wanted t ≤ started t) ⊎ (keep ≤ t.pending_exec_count))
  unfolding start_execs_in_queue
  in_primary-Started keep s t e =
      let more =
        may_spawn s.running_exec_count s.second_pending_exec_count
          (PriorityQueue.len Q s.task_queue) s.user_config.max_count keep in
      let n : ℕ = min keep (wanted s - (s.running_exec_count + s.second_pending_exec_count)) in
      let ((p, cmds), found, e') =
        >>=-eq-ok
          (or_fail (spawn_execs more s.start_cmd (env.spawns false) s.pending_exec_count s.spawned)
            Fault.still_spawning)
          _ e in
      ground (
        arith,
        spawn_bounds more s.start_cmd n (env.spawns false) s.pending_exec_count s.spawned (p, cmds)
            (λ q h. ground arith),
      )

  in_secondary-Started :
      (keep : ℕ) (s t : ServerState Q)
      → start_execs_in_queue Q env true keep s ≡ ok t
      → Started keep s t × ((wanted t ≤ started t) ⊎ (keep ≤ t.second_pending_exec_count))
  unfolding start_execs_in_queue
  in_secondary-Started keep s t e =
      let more =
        may_spawn s.running_exec_count s.pending_exec_count (PriorityQueue.len Q s.task_queue)
          s.user_config.max_count keep in
      let n : ℕ = min keep (wanted s - (s.running_exec_count + s.pending_exec_count)) in
      let (cmd, given, e₁) = >>=-eq-ok (or_fail s.second_start_cmd Fault.unwrap_none) _ e in
      let ((p, cmds), found, e₂) =
        >>=-eq-ok
          (or_fail (spawn_execs more cmd (env.spawns true) s.second_pending_exec_count s.spawned)
            Fault.still_spawning)
          _ e₁ in
      ground (
        arith,
        spawn_bounds more cmd n (env.spawns true) s.second_pending_exec_count s.spawned (p, cmds)
            (λ q h. ground arith),
      )

  -- The number that each queue is to keep pending.
  abbrev pub keep_each : ServerState Q → ℕ
  keep_each s = elim s.second_start_cmd [ none ↦ to_keep Q s | some cmd ↦ (to_keep Q s + 1) / 2 ]

  Started-trans :
      (keep : ℕ) (s t u : ServerState Q) → Started keep s t → Started keep t u → Started keep s u
  Started-trans keep s t u a b = ground arith

  start_both-Started :
      (keep : ℕ) (s t u : ServerState Q)
      → start_execs_in_queue Q env false keep s ≡ ok t
      → start_execs_in_queue Q env true keep t ≡ ok u
      → Started keep s u
        × ((wanted u ≤ started u)
            ⊎ ((keep ≤ u.pending_exec_count) × (keep ≤ u.second_pending_exec_count)))
  start_both-Started keep s t u e e' =
      let (a, _, c) = in_primary-Started keep s t e in
      let (b, d) = in_secondary-Started keep t u e' in (Started-trans keep s t u a b, ground arith)

  pub start_execs_one :
      (s : ServerState Q)
      → PriorityQueue.is_empty Q s.task_queue ≡ false
      → s.second_start_cmd ≡ none
      → start_execs Q env s ≡ start_execs_in_queue Q env false (to_keep Q s) s
  unfolding start_execs
  start_execs_one s waiting one = ground (arith, waiting, one)

  pub start_execs_two :
      (s : ServerState Q) (cmd : String)
      → PriorityQueue.is_empty Q s.task_queue ≡ false
      → s.second_start_cmd ≡ some cmd
      → start_execs Q env s ≡ (
          start_execs_in_queue Q env false ((to_keep Q s + 1) / 2) s
          >>= start_execs_in_queue Q env true ((to_keep Q s + 1) / 2))
  unfolding start_execs
  start_execs_two s cmd waiting two = ground (arith, waiting, two)

  -- Where tasks wait and `start_execs` returns, it leaves the running executors as they are, has not
  -- taken the executors beyond what there was or the tasks that wait and the maximum, nor the pending
  -- ones of a queue beyond what there was or the number to keep; and it stops short of the tasks that
  -- wait and the maximum only with that number pending in the first queue.
  pub start_execs_bounds :
      (s t : ServerState Q)
      → start_execs Q env s ≡ ok t
      → PriorityQueue.is_empty Q s.task_queue ≡ false
      → Started (keep_each s) s t × ((wanted t ≤ started t) ⊎ (keep_each s ≤ t.pending_exec_count))
  start_execs_bounds s t e waiting = elim (Option-cases s.second_start_cmd) [
    | inl one ↦
        let (a, _, c) =
          in_primary-Started (to_keep Q s) s t (sym (start_execs_one s waiting one) ∙ e) in
        let keep : keep_each s ≡ to_keep Q s = ground (arith, one) in rw keep (a, c)
    | inr (cmd, two) ↦
        let half : ℕ = (to_keep Q s + 1) / 2 in
        let (u, e₁, e₂) =
          >>=-eq-ok (start_execs_in_queue Q env false half s) (start_execs_in_queue Q env true half)
            (sym (start_execs_two s cmd waiting two) ∙ e) in
        let (a, c) = start_both-Started half s u t e₁ e₂ in
        let keep : keep_each s ≡ half = ground (arith, two) in rw keep (a, ground arith)
  ]
