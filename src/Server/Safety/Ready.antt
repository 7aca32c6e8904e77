-- ===== src/Server/Safety/Ready.antt =====
-- An executor that connects, or that has finished its task, joins the queue.
use spraycc.Base.{
  ℕ, ◌+◌, ◌≡◌, ◌≢◌, refl, Bool, false, none, some, List, [], ◌∷◌, ◌++◌, arith, ltb, ◌==◌, count,
  get_elem?, set, if◌then◌else◌, get_elem?-set, set-set, Bool-cases, inl, inr, total-append, ◌⊎◌,
  not, ◌&&◌,
}
use spraycc.Server.Queue.{PriorityQueue}
use spraycc.Server.State.{Item, Env, ServerState, Remote, exec, pending}
use spraycc.Server.Dispatch.{update}
use spraycc.Server.Handlers.{exec_is_ready, remote_is_exec, count_started}
use spraycc.Server.Invariant.{Books, Closed, SlotAt, IsSound, is_dead, queued}
use spraycc.Server.Invariant.Changes.{set-Books, set-Closed}
use spraycc.Server.Safety.Ensures.{Ensures}
use spraycc.Server.Safety.Dispatch.{Drained}
use spraycc.Server.Safety.Update.{update-IsSound}

count-append :
    (j x : ℕ) (xs : List ℕ) → count j (xs ++ x ∷ []) ≡ count j xs + (if j == x then 1 else 0)
count-append j x xs = omega (arith, total-append (λ k. if j == k then 1 else 0) xs (x ∷ []))

-- A remote that is made an idle executor.
abbrev pub idle_exec : Remote → Remote
idle_exec r = record r { conn_type = exec; paired_id = none }

-- It was pending, or an executor with a task.
abbrev pub CanBeReady : Remote → ℕ → ℕ → Type 0
CanBeReady r q d = (is_dead r.conn_type ≡ false) × (q ≡ 0) × (d ≡ 0)

module _ (env : Env) where
  pub ready-Books :
      (rs : List Remote) (es : List (Item × ℕ)) (xs : List ℕ) (run fin sub : ℕ) (x : ℕ) (r : Remote)
      (run' fin' : ℕ)
      → Books rs es xs run fin sub
      → Closed env rs xs
      → get_elem? rs x ≡ some r
      → ((r.conn_type ≡ pending) × (run' ≡ run + 1) × (fin' ≡ fin))
        ⊎ ((r.conn_type ≡ exec) × (r.paired_id ≢ none) × (run' ≡ run) × (fin' ≡ fin + 1))
      → SlotAt (some r) (queued x es) (count x xs)
      → Books (set rs x (idle_exec r)) es (xs ++ x ∷ []) run' fin' sub
        × Closed env (set rs x (idle_exec r)) (xs ++ x ∷ [])
  ready-Books rs es xs run fin sub x r run' fin' books closed at_x kind slot = (
    set-Books books x (idle_exec r) r at_x es (xs ++ x ∷ []) run' fin' sub (λ j h. ground arith) tt
        (ground (arith, count-append x x xs)) (λ j ne. ground (arith, count-append j x xs))
        (ground arith) (λ b h. ground (arith, books.tasks)),
    set-Closed env rs xs closed x (idle_exec r) r at_x (xs ++ x ∷ [])
        (λ j ne. ground (arith, count-append j x xs)) (λ gone inside. cc),
  )

module _ (Q : PriorityQueue Item) (env : Env) where
  abbrev Good : ServerState Q → Type 0
  Good t = IsSound Q env t × Drained Q env t

  pub exec_is_ready_lem :
      (s : ServerState Q) (x : ℕ) (r : Remote)
      → get_elem? s.remotes x ≡ some r
      → exec_is_ready Q env x s
        ≡ update Q env (record s {
          exec_queue = s.exec_queue ++ x ∷ [];
          remotes = set s.remotes x (record r { paired_id = none });
        })
  unfolding exec_is_ready
  exec_is_ready_lem s x r at_x = rw at_x

  -- An executor that runs a task has finished it.
  pub finished-IsSound :
      (s : ServerState Q) (x : ℕ) (r : Remote) (fin : ℕ)
      → IsSound Q env s
      → get_elem? s.remotes x ≡ some r
      → r.conn_type ≡ exec
      → r.paired_id ≢ none
      → fin ≡ s.finish_count + 1
      → Ensures Good (exec_is_ready Q env x (record s { finish_count = fin }))
  finished-IsSound s x r fin sound at_x is runs_task e =
      let books =
        ready-Books env s.remotes (PriorityQueue.entries Q s.task_queue) s.exec_queue
          s.running_exec_count s.finish_count s.submit_count x r s.running_exec_count fin sound.0
          sound.1 at_x (inr (is, runs_task, refl, e)) (rw at_x at (sound.0.slots x)) in
      let same : idle_exec r ≡ record r { paired_id = none } = ground arith in
      rw (exec_is_ready_lem (record s { finish_count = fin }) x r at_x)
        (update-IsSound Q env _ (rw (← same) books))

  count_started_cases :
      (P : ServerState Q → Type 0) (second : Bool) (s : ServerState Q)
      → ((p q : ℕ) → P (record s { pending_exec_count = p; second_pending_exec_count = q }))
      → P (count_started Q second s)
  unfolding count_started
  count_started_cases P second s h = elim (Bool-cases (not second && ltb 0 s.pending_exec_count)) [
    | inl a ↦ rw a (h _ _)
    | inr b ↦ elim (Bool-cases (second && ltb 0 s.second_pending_exec_count)) [
      | inl c ↦ rw (b, c) (h _ _)
      | inr d ↦ rw (b, d) (h _ _)
    ]
  ]

  abbrev connected : ServerState Q → ℕ → Remote → ServerState Q
  connected s x r = record s {
    remotes = set s.remotes x (record r { conn_type = exec });
    running_exec_count = s.running_exec_count + 1;
  }

  connected-IsSound :
      (s : ServerState Q) (x : ℕ) (r : Remote) (p q : ℕ)
      → IsSound Q env s
      → get_elem? s.remotes x ≡ some r
      → r.conn_type ≡ pending
      → Ensures Good (
          exec_is_ready Q env x
            (record (connected s x r) { pending_exec_count = p; second_pending_exec_count = q }))
  connected-IsSound s x r p q sound at_x new =
      let r' : Remote = record r { conn_type = exec } in
      let s' : ServerState Q = record (connected s x r) {
        pending_exec_count = p;
        second_pending_exec_count = q;
      } in
      let books =
        ready-Books env s.remotes (PriorityQueue.entries Q s.task_queue) s.exec_queue
          s.running_exec_count s.finish_count s.submit_count x r (s.running_exec_count + 1)
          s.finish_count sound.0 sound.1 at_x (inl (new, refl, refl))
          (rw at_x at (sound.0.slots x)) in
      rw (exec_is_ready_lem s' x r' (ground (arith, get_elem?-set s.remotes x x r' r at_x)))
        (update-IsSound Q env _ (rw (set-set s.remotes x r' (idle_exec r)) books))

  -- A connection that was pending turns out to be an executor.
  pub remote_is_exec-IsSound :
      (s : ServerState Q) (x : ℕ) (r : Remote) (second : Bool)
      → IsSound Q env s
      → get_elem? s.remotes x ≡ some r
      → r.conn_type ≡ pending
      → Ensures Good (remote_is_exec Q env x second s)
  unfolding remote_is_exec
  remote_is_exec-IsSound s x r second sound at_x new = rw at_x (
      count_started_cases (λ t. Ensures Good (exec_is_ready Q env x t)) second (connected s x r)
        (λ p q. connected-IsSound s x r p q sound at_x new))
