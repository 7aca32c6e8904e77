-- ===== src/Server/Safety/Submit.antt =====
-- A client that submits its task joins the task queue.
use spraycc.Base.{
  ℕ, String, ◌+◌, ◌≡◌, refl, some, List, ◌∷◌, arith, ◌==◌, count, get_elem?, set, if◌then◌else◌,
  inl, inr, total-perm, length-perm, Permᴰ,
}
use spraycc.Ipc.{TaskDetails, get_target_id}
use spraycc.Server.Queue.{PriorityQueue}
use spraycc.Server.State.{Item, Env, ServerState, Remote, pending, client}
use spraycc.Server.Dispatch.{update}
use spraycc.Server.Handlers.{remote_is_client, priority_of}
use spraycc.Server.Invariant.{Books, SlotAt, IsSound, queued}
use spraycc.Server.Invariant.Changes.{set-Books, set-Closed}
use spraycc.Server.Safety.Ensures.{Ensures}
use spraycc.Server.Safety.Dispatch.{Drained}
use spraycc.Server.Safety.Update.{update-IsSound}

abbrev waits_for : ℕ → Item × ℕ → ℕ
waits_for j e = if j == e.0.0 then 1 else 0

-- A push by a client that does not wait adds one entry.
pushed :
    (Q : PriorityQueue Item) (q : PriorityQueue.Queue Q) (x : ℕ) (details : TaskDetails) (p : ℕ)
    → queued x (PriorityQueue.entries Q q) ≡ 0
    → Permᴰ
        (PriorityQueue.entries Q (PriorityQueue.push Q q (x, details) p))
        (((x, details), p) ∷ PriorityQueue.entries Q q)
pushed Q q x details p no_task = elim (PriorityQueue.push_lem Q q (x, details) p) [
  | inl perm ↦ perm
  | inr (old, rest, before, after) ↦
      absurd (ground (arith, no_task, total-perm (waits_for x) before))
]

submitted-Books :
    (rs : List Remote) (es es' : List (Item × ℕ)) (xs : List ℕ) (run fin sub : ℕ) (x : ℕ)
    (r : Remote) (e : Item × ℕ)
    → Books rs es xs run fin sub
    → get_elem? rs x ≡ some r
    → r.conn_type ≡ pending
    → SlotAt (some r) (queued x es) (count x xs)
    → e.0.0 ≡ x
    → Permᴰ es' (e ∷ es)
    → Books (set rs x (record r { conn_type = client })) es' xs run fin (sub + 1)
submitted-Books rs es es' xs run fin sub x r e books at_x new slot of_x perm =
    set-Books books x (record r { conn_type = client }) r at_x es' xs run fin (sub + 1)
      (λ j h. ground arith) tt (ground (arith, total-perm (waits_for x) perm))
      (λ j ne. ground (arith, total-perm (waits_for j) perm)) (ground arith)
      (λ b h. ground (arith, books.tasks, length-perm perm))

module _ (Q : PriorityQueue Item) (env : Env) where
  abbrev submitted : ServerState Q → ℕ → Remote → TaskDetails → String → ServerState Q
  submitted s x r details target = record s {
    remotes = set s.remotes x (record r { conn_type = client });
    task_queue = PriorityQueue.push Q s.task_queue (x, details) (priority_of Q s details target);
    last_submit_time = some env.submitted_at;
  }

  remote_is_client_lem :
      (s : ServerState Q) (x : ℕ) (r : Remote) (details : TaskDetails) (target : String)
      → get_elem? s.remotes x ≡ some r
      → get_target_id details ≡ some target
      → remote_is_client Q env x details s ≡ update Q env (submitted s x r details target)
  unfolding remote_is_client
  remote_is_client_lem s x r details target at_x has_target = rw (has_target, at_x)

  -- A connection that was pending submits a task whose output files are named in its arguments.
  pub remote_is_client-IsSound :
      (s : ServerState Q) (x : ℕ) (r : Remote) (details : TaskDetails) (target : String)
      → IsSound Q env s
      → get_elem? s.remotes x ≡ some r
      → r.conn_type ≡ pending
      → get_target_id details ≡ some target
      → Ensures
          (λ t. IsSound Q env t × Drained Q env t)
          (remote_is_client Q env x details (record s { submit_count = s.submit_count + 1 }))
  remote_is_client-IsSound s x r details target sound at_x new has_target =
      let s₁ : ServerState Q = record s { submit_count = s.submit_count + 1 } in
      let slot : SlotAt (some r) (queued x (PriorityQueue.entries Q s.task_queue))
          (count x s.exec_queue) =
        rw at_x at (sound.0.slots x) in
      let p = priority_of Q s₁ details target in
      rw (remote_is_client_lem s₁ x r details target at_x has_target) (
        update-IsSound Q env (submitted s₁ x r details target) (
          submitted-Books s.remotes _ _ s.exec_queue s.running_exec_count s.finish_count
              s.submit_count x r ((x, details), p) sound.0 at_x new slot refl
              (pushed Q s.task_queue x details p (ground arith)),
          set-Closed env s.remotes s.exec_queue sound.1 x (record r { conn_type = client }) r at_x
              s.exec_queue (λ j ne. refl) (λ gone inside. cc),
        ))
