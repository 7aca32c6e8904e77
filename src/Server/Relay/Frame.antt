-- ===== src/Server/Relay/Frame.antt =====
-- src/server.rs: a frame rule for `update`. What holds of the remotes is kept if it is kept when a remote
-- of the executor queue changes, and when a client that waits is paired.
pub mod Update
pub mod Handlers
pub mod Events
use spraycc.Base.{
  ℕ, ◌+◌, ◌/◌, ◌≡◌, refl, ap, ◌∙◌, Bool, true, false, ◌&&◌, some, List, [], ◌∷◌, Result, ok, ◌>>=◌,
  ◌>>◌, require, all, get_elem?, set, ◌==◌, if◌then◌else◌, arith, Option, none, ◌⊎◌, Option-cases,
  Bool-cases, List-cases, inl, inr, not,
}
use spraycc.Ipc.{TaskDetails, Message}
use spraycc.Server.Queue.{PriorityQueue, is_nil}
use spraycc.Server.State.{
  Item, Env, Fault, ServerState, Remote, ConnectionType, dead, checked_sub, is_none,
}
use spraycc.Server.Start.{start_execs, start_execs_in_queue, to_keep, spawn_execs, may_spawn}
use spraycc.Server.Relay.Then.{Then, Then->>=, Then-require, anything}
use spraycc.Server.Dispatch.{
  remote_at, put_remote, send, set_type, assign, assign_tasks, release, release_execs, check_queues,
  ok_to_release, update, as_u32,
}

-- How `update` and the handlers change whom a remote is paired with.
abbrev pub Pairs : (ℕ → Bool) → Option ℕ → Option ℕ → Type 0
Pairs can_pair p p' =
    (p' ≡ p) ⊎ (p' ≡ none) ⊎ ((k : ℕ) × (can_pair k ≡ true) × (p' ≡ some (as_u32 k)))

-- The changes that keep `R`: of the remotes that may be paired, and of those that may run tasks.
pub record Frame (can_pair can_run : ℕ → Bool) (R : List Remote → Type 0) : Type 0 where
  pub paired :
      (rs : List Remote) (i : ℕ) (r : Remote) (k : ℕ)
      → can_pair i ≡ true
      → can_run k ≡ true
      → get_elem? rs i ≡ some r
      → R rs
      → R (set rs i (record r { paired_id = some (as_u32 k) }))
  pub worked :
      (rs : List Remote) (i : ℕ) (r r' : Remote)
      → can_run i ≡ true
      → get_elem? rs i ≡ some r
      → Pairs can_pair r.paired_id r'.paired_id
      → R rs
      → R (set rs i r')

pub remote_at-Then :
    (Q : PriorityQueue Item) (s : ServerState Q) (i : ℕ)
    → Then (λ r. get_elem? s.remotes i ≡ some r) (remote_at Q s i)
remote_at-Then Q s i = elim (Option-cases (get_elem? s.remotes i)) [
  | inl e ↦ rw e tt
  | inr (r, e) ↦ rw e refl
]

module _ (Q : PriorityQueue Item) (can_pair can_run : ℕ → Bool) (R : List Remote → Type 0)
    (frame : Frame can_pair can_run R) where
  abbrev Waiting : List (Item × ℕ) → Type 0
  Waiting es = all (λ e. can_pair e.0.0) es ≡ true

  -- `R` holds, and `P` of the two queues.
  abbrev pub KeptAs : (PriorityQueue.Queue Q → List ℕ → Type 0) → ServerState Q → Type 0
  KeptAs P s = R s.remotes × P s.task_queue s.exec_queue

  abbrev KeptWith : List (Item × ℕ) → ServerState Q → Type 0
  KeptWith es = KeptAs (λ q xs. PriorityQueue.entries Q q ≡ es)

  abbrev pub Kept : ServerState Q → Type 0
  Kept s = R s.remotes

  -- `R` holds, and the executors that are idle may run a task.
  abbrev KeptIdle : ServerState Q → Type 0
  KeptIdle = KeptAs (λ q xs. all can_run xs ≡ true)

  -- Moreover the clients that wait may be paired.
  abbrev pub Framed : ServerState Q → Type 0
  Framed = KeptAs (λ q xs. (all can_run xs ≡ true) × Waiting (PriorityQueue.entries Q q))

  pub send-KeptAs :
      (P : PriorityQueue.Queue Q → List ℕ → Type 0) (env : Env) (i : ℕ) (msg : Message)
      (s : ServerState Q)
      → can_run i ≡ true
      → KeptAs P s
      → Then (KeptAs P) (send Q env i msg s)
  unfolding send
  send-KeptAs P env i msg s can (h, q) =
      Then->>= _ (KeptAs P) (remote_at Q s i) _ (remote_at-Then Q s i) (λ r at_i.
        Then-require (KeptAs P) _ _ (ok _) (
          frame.worked s.remotes i r (record r { send_chan = msg ∷ r.send_chan }) can at_i
              (inl refl) h,
          q,
        ))

  pub set_type-KeptAs :
      (P : PriorityQueue.Queue Q → List ℕ → Type 0) (i : ℕ) (t : ConnectionType) (s : ServerState Q)
      → can_run i ≡ true
      → KeptAs P s
      → Then (KeptAs P) (set_type Q i t s)
  unfolding set_type
  set_type-KeptAs P i t s can (h, q) =
      Then->>= (λ r. get_elem? s.remotes i ≡ some r) (KeptAs P) (remote_at Q s i)
        (λ r. ok (put_remote Q i (record r { conn_type = t }) s)) (remote_at-Then Q s i)
        (λ r at_i.
          (frame.worked s.remotes i r (record r { conn_type = t }) can at_i (inl refl) h, q))

  -- The executor's half of `assign`.
  pair_exec : Env → ℕ → TaskDetails → ℕ → ServerState Q → Result Fault (ServerState Q)
  pair_exec env client_id details exec_id s = do
    x ← remote_at Q s exec_id
    require (is_none x.paired_id) Fault.exec_paired
    send Q env exec_id (Message.task 0 0 details)
        (put_remote Q exec_id (record x { paired_id = some (as_u32 client_id) }) s)

  pair_exec-Kept :
      (env : Env) (client_id : ℕ) (details : TaskDetails) (exec_id : ℕ) (s : ServerState Q)
      (es : List (Item × ℕ))
      → can_pair client_id ≡ true
      → can_run exec_id ≡ true
      → KeptWith es s
      → Then (KeptWith es) (pair_exec env client_id details exec_id s)
  unfolding pair_exec
  pair_exec-Kept env client_id details exec_id s es can_c can (h, q) =
      let paired : Remote → ServerState Q =
        λ x. put_remote Q exec_id (record x { paired_id = some (as_u32 client_id) }) s in
      let told : Remote → Result Fault (ServerState Q) =
        λ x. send Q env exec_id (Message.task 0 0 details) (paired x) in
      Then->>= (λ x. get_elem? s.remotes exec_id ≡ some x) (KeptWith es) (remote_at Q s exec_id)
        (λ x. require (is_none x.paired_id) Fault.exec_paired >> told x)
        (remote_at-Then Q s exec_id)
        (λ x at_exec. Then-require (KeptWith es) (is_none x.paired_id) Fault.exec_paired (told x) (
          send-KeptAs (λ q xs. PriorityQueue.entries Q q ≡ es) env exec_id
            (Message.task 0 0 details) (paired x) can
            (
              frame.worked s.remotes exec_id x (record x { paired_id = some (as_u32 client_id) })
                  can at_exec (inr (inr (client_id, can_c, refl))) h,
              q,
            )))

  assign-Kept :
      (env : Env) (client_id : ℕ) (details : TaskDetails) (exec_id : ℕ) (s : ServerState Q)
      (es : List (Item × ℕ))
      → can_pair client_id ≡ true
      → can_run exec_id ≡ true
      → KeptWith es s
      → Then (KeptWith es) (assign Q env client_id details exec_id s)
  unfolding assign pair_exec
  assign-Kept env client_id details exec_id s es can_c can (h, q) =
      let paired : Remote → ServerState Q =
        λ r. put_remote Q client_id (record r { paired_id = some (as_u32 exec_id) }) s in
      let then_exec : Remote → Result Fault (ServerState Q) =
        λ r. pair_exec env client_id details exec_id (paired r) in
      let from_client : Result Fault (ServerState Q) = remote_at Q s client_id >>= λ r.
      require (is_none r.paired_id) Fault.client_paired >> then_exec r in
      Then-require (KeptWith es) (not (client_id == exec_id)) Fault.same_ids from_client (
        Then->>= (λ r. get_elem? s.remotes client_id ≡ some r) (KeptWith es)
          (remote_at Q s client_id)
          (λ r. require (is_none r.paired_id) Fault.client_paired >> then_exec r)
          (remote_at-Then Q s client_id)
          (λ r at_client.
            Then-require (KeptWith es) (is_none r.paired_id) Fault.client_paired (then_exec r) (
              pair_exec-Kept env client_id details exec_id (paired r) es can_c can
                (frame.paired s.remotes client_id r exec_id can_c can at_client h, q))))

  assign_tasks-Kept :
      (env : Env) (execs : List ℕ) (s : ServerState Q) (es : List (Item × ℕ))
      → Waiting es
      → all can_run execs ≡ true
      → KeptWith es s
      → Then KeptIdle (assign_tasks Q env execs s)
  unfolding assign_tasks
  assign_tasks-Kept env [] s es waiting idle (h, e) = (h, refl)
  assign_tasks-Kept env (x ∷ xs) s [] waiting idle (h, e) =
      rw (PriorityQueue.is_empty_lem Q s.task_queue ∙ ap is_nil e, assign_tasks) (h, idle)
  assign_tasks-Kept env (x ∷ xs) s (entry ∷ es) waiting idle (h, e) =
      let (q', popped, rest) = PriorityQueue.pop_some Q s.task_queue entry es e in
      let s' : ServerState Q = record s { task_queue = q'; exec_queue = xs } in
      rw (PriorityQueue.is_empty_lem Q s.task_queue ∙ ap is_nil e, popped, assign_tasks)
        (Then->>= (KeptWith es) KeptIdle (assign Q env entry.0.0 entry.0.1 x s')
          (assign_tasks Q env xs)
          (assign-Kept env entry.0.0 entry.0.1 x s' es (ground (arith, waiting))
            (ground (arith, idle)) (h, rest))
          (λ t k. assign_tasks-Kept env xs t es (ground (arith, waiting)) (ground (arith, idle)) k))

  release-Kept :
      (env : Env) (exec_id : ℕ) (s : ServerState Q)
      → can_run exec_id ≡ true
      → Kept s
      → Then Kept (release Q env exec_id s)
  unfolding release checked_sub
  release-Kept env exec_id s can h =
      let finish : ServerState Q → Result Fault (ServerState Q) = λ s₂.
        checked_sub s₂.running_exec_count 1 >>= λ running.
        ok (record s₂ { running_exec_count = running }) in
      let dismiss : ServerState Q → Result Fault (ServerState Q) =
        λ s₁. send Q env exec_id Message.piss_off s₁ >>= finish in
      let any_queues : PriorityQueue.Queue Q → List ℕ → Type 0 = λ q xs. Unit in
      Then->>= (KeptAs any_queues) Kept (set_type Q exec_id dead s) dismiss
        (set_type-KeptAs any_queues exec_id dead s can (h, tt))
        (λ s₁ h₁.
          Then->>= (KeptAs any_queues) Kept (send Q env exec_id Message.piss_off s₁) finish
            (send-KeptAs any_queues env exec_id Message.piss_off s₁ can h₁)
            (λ s₂ h₂.
              Then->>= (λ n. Unit) Kept (checked_sub s₂.running_exec_count 1)
                (λ running. ok (record s₂ { running_exec_count = running }))
                (anything (checked_sub s₂.running_exec_count 1)) (λ n u. h₂.0)))

  release_execs-Kept :
      (env : Env) (execs : List ℕ) (s : ServerState Q)
      → all can_run execs ≡ true
      → Kept s
      → Then Kept (release_execs Q env execs s)
  unfolding release_execs
  release_execs-Kept env [] s idle h = h
  release_execs-Kept env (exec_id ∷ execs) s idle h =
      let popped = record s { exec_queue = execs } in
      Then->>= Kept Kept (release Q env exec_id popped) (release_execs Q env execs)
        (release-Kept env exec_id popped (ground (arith, idle)) h)
        (λ s' h'. release_execs-Kept env execs s' (ground (arith, idle)) h')

  pub check_queues-Kept :
      (env : Env) (s : ServerState Q) → Framed s → Then Kept (check_queues Q env s)
  unfolding check_queues
  check_queues-Kept env s (h, (idle, waiting)) =
      Then->>= KeptIdle Kept (assign_tasks Q env s.exec_queue s)
        (λ s'. if ok_to_release Q env s' then release_execs Q env s'.exec_queue s' else ok s')
        (assign_tasks-Kept env s.exec_queue s (PriorityQueue.entries Q s.task_queue) waiting idle
          (h, refl))
        (λ s' h'. elim (Bool-cases (ok_to_release Q env s')) [
          | inl go ↦ rw go (release_execs-Kept env s'.exec_queue s' h'.1 h'.0)
          | inr stay ↦ rw stay h'.0
        ])
