-- ===== src/Server/Schedule/Next.antt =====
-- src/server.rs: an executor that ends its task goes on to the next one.
use spraycc.Base.{
  ℕ, ◌+◌, ◌≡◌, ◌≢◌, refl, sym, ◌∙◌, true, none, some, List, [], ◌∷◌, ◌++◌, Result, ok, inl, inr,
  get_elem?, set, Bool-cases, Option-cases, if◌then◌else◌, arith,
}
use spraycc.Ipc.{Message}
use spraycc.Ipc.Message.{task_done, task_failed}
use spraycc.Server.Queue.{PriorityQueue}
use spraycc.Server.State.{Item, Env, Fault, ServerState, Remote, exec, is_client}
use spraycc.Server.Dispatch.{remote_at}
use spraycc.Server.Handlers.{
  send_to_paired_remote, exec_is_ready, finish_task, record_elapsed, is_success, handle_msg,
}
use spraycc.Server.Loop.{received, handle_event, activity_occurred}
use spraycc.Server.Invariant.{Closed, IsSound, entries}
use spraycc.Server.Safety.Ensures.{Ensures}
use spraycc.Server.Safety.Ready.{ready-Books, exec_is_ready_lem, idle_exec}
use spraycc.Server.Safety.Paired.{StillAt, forward-IsSound}
use spraycc.Server.Safety.Reach.{Reach, IsNew, Reach-IsValid}
use spraycc.Server.Relay.Then.{Then, Then->>=, Then-ok}
use spraycc.Server.Relay.Frame.{remote_at-Then}
use spraycc.Server.Relay.Closing.{is_closing}
use spraycc.Server.Schedule.{Given, Handed, left_over}
use spraycc.Server.Schedule.Update.{update_lem}

-- Both postconditions of code that may fail.
both :
    {A : Type 0} (P R : A → Type 0) (m : Result Fault A)
    → Ensures P m
    → Then R m
    → Then (λ a. P a × R a) m
both P R (ok a) h k = (h, k)
both P R (Result.err fault) h k = tt

abbrev no_one : List ℕ
no_one = []

left_over-nil : (es : List (Item × ℕ)) → left_over es no_one ≡ es
left_over-nil [] = refl
left_over-nil (e ∷ es) = refl

of_ok : {A : Type 0} (P : A → Type 0) (m : Result Fault A) → ((a : A) → m ≡ ok a → P a) → Then P m
of_ok P (ok a) h = h a refl
of_ok P (Result.err fault) h = tt

module _ (Q : PriorityQueue Item) (env : Env) (x k : ℕ) (r : Remote) (is : r.conn_type ≡ exec)
    (runs_task : r.paired_id ≡ some k) (y : Item × ℕ) (es : List (Item × ℕ)) where
  -- A task waits, and no executor is idle.
  abbrev Waits : ServerState Q → Type 0
  Waits s = (entries Q s ≡ y ∷ es) × (s.exec_queue ≡ [])

  -- Executor `x` has got the first task that waited.
  abbrev GoesOn : ServerState Q → Type 0
  GoesOn t = Given Q t y.0.0 y.0.1 x × (entries Q t ≡ es)

  forward-Waits :
      (msg : Message) (s : ServerState Q)
      → Waits s
      → Then Waits (send_to_paired_remote Q env x msg s)
  unfolding send_to_paired_remote
  forward-Waits msg s h =
      Then->>= (λ u. get_elem? s.remotes x ≡ some u) Waits (remote_at Q s x) _
        (remote_at-Then Q s x)
        (λ u at_x. elim (Option-cases u.paired_id) [
          | inl e ↦ rw e tt
          | inr (o, e) ↦ rw e (
              Then->>= (λ other. get_elem? s.remotes o ≡ some other) Waits (remote_at Q s o) _
                (remote_at-Then Q s o)
                (λ other at_o. elim (Bool-cases (is_client other.conn_type)) [
                  | inl there ↦ rw there h
                  | inr gone ↦ rw gone h
                ]))
        ])

  ready-GoesOn :
      (s : ServerState Q) (fin : ℕ)
      → IsSound Q env s
      → get_elem? s.remotes x ≡ some r
      → fin ≡ s.finish_count + 1
      → Waits s
      → Then GoesOn (exec_is_ready Q env x (record s { finish_count = fin }))
  ready-GoesOn s fin sound at_x counted (waiting, no_execs) =
      of_ok GoesOn (exec_is_ready Q env x (record s { finish_count = fin })) (λ t returned.
        let paired : r.paired_id ≢ none = λ e. ground (arith, e, runs_task) in
        let (books, closed) =
          ready-Books env s.remotes (entries Q s) s.exec_queue s.running_exec_count s.finish_count
            s.submit_count x r s.running_exec_count fin sound.0 sound.1 at_x
            (inr (is, paired, refl, counted)) (rw at_x at (sound.0.slots x)) in
        let same : idle_exec r ≡ record r { paired_id = none } = ground arith in
        let ready : ServerState Q = record s {
          finish_count = fin;
          exec_queue = s.exec_queue ++ x ∷ [];
          remotes = set s.remotes x (record r { paired_id = none });
        } in
        let updated =
          update_lem Q env ready t (rw (← same) books)
            (sym (exec_is_ready_lem Q env (record s { finish_count = fin }) x r at_x) ∙ returned) in
        let handed : Handed Q t (y ∷ es) (x ∷ []) = rw (waiting, no_execs) at updated.0 in
        let left : entries Q t ≡ left_over es no_one = rw (waiting, no_execs) at updated.1 in
        (handed.0, left ∙ left_over-nil es))

  finish_task-GoesOn :
      (msg : Message) (s : ServerState Q)
      → IsSound Q env s
      → get_elem? s.remotes x ≡ some r
      → Waits s
      → Then GoesOn (finish_task Q env x msg s)
  unfolding finish_task
  finish_task-GoesOn msg s sound at_x waits =
      Then->>= (λ u. StillAt Q env x r s u × Waits u) GoesOn (send_to_paired_remote Q env x msg s) _
        (both (StillAt Q env x r s) Waits (send_to_paired_remote Q env x msg s)
          (forward-IsSound Q env s x k r msg sound at_x is runs_task) (forward-Waits msg s waits))
        (λ u ((sound', at_x', same), waits').
          ready-GoesOn u (u.finish_count + 1) sound' at_x' refl waits')

  closing-GoesOn :
      (msg : Message) (s : ServerState Q)
      → is_closing msg ≡ true
      → IsSound Q env s
      → get_elem? s.remotes x ≡ some r
      → Waits s
      → Then GoesOn (handle_msg Q env x msg s)
  unfolding handle_msg record_elapsed
  closing-GoesOn (task_failed error_message) s closes sound at_x waits =
      finish_task-GoesOn (task_failed error_message) s sound at_x waits
  closing-GoesOn (task_done exit_code target_id run_time send_time) s closes sound at_x waits =
      let msg = task_done exit_code target_id run_time send_time in
      Then->>= GoesOn GoesOn
        (finish_task Q env x msg
          (if is_success exit_code then record_elapsed Q env target_id run_time s else s))
        _
        (elim (Bool-cases (is_success exit_code)) [
          | inl good ↦
              rw good (
                finish_task-GoesOn msg (record_elapsed Q env target_id run_time s) sound at_x waits)
          | inr bad ↦ rw bad (finish_task-GoesOn msg s sound at_x waits)
        ])
        (λ t h. h)
  closing-GoesOn _ s closes sound at_x waits = cc

-- In a state that the server reaches, where tasks wait and no executor is idle, when the server handles the
-- message by which an executor ends its task, and the executors that dropped while idle accept no
-- message, that executor has been sent the first task of those that waited, is paired with its client,
-- and the others still wait in their order.
pub Reach-Given :
    (Q : PriorityQueue Item) (s₀ : ServerState Q) (fresh : IsNew Q s₀) {s : ServerState Q}
    → Reach Q s₀ s
    → (env : Env) (x k : ℕ) (r : Remote) (msg : Message) (y : Item × ℕ) (es : List (Item × ℕ))
      (t : ServerState Q)
    → Closed env s.remotes s.exec_queue
    → get_elem? s.remotes x ≡ some r
    → r.conn_type ≡ exec
    → r.paired_id ≡ some k
    → is_closing msg ≡ true
    → entries Q s ≡ y ∷ es
    → s.exec_queue ≡ []
    → handle_event Q env (received x msg) s ≡ ok t
    → Given Q t y.0.0 y.0.1 x × (entries Q t ≡ es)
unfolding handle_event activity_occurred
Reach-Given Q s₀ fresh {s} reached env x k r msg y es t closed at_x is runs_task closes waiting
      no_execs returned =
    Then-ok (GoesOn Q env x k r is runs_task y es) (handle_event Q env (received x msg) s) returned
      (Then->>= (GoesOn Q env x k r is runs_task y es) (GoesOn Q env x k r is runs_task y es)
        (handle_msg Q env x msg s) _
        (closing-GoesOn Q env x k r is runs_task y es msg s closes
          (Reach-IsValid Q s₀ fresh reached, closed) at_x (waiting, no_execs))
        (λ u h. h))
