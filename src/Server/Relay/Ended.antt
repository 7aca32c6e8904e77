-- ===== src/Server/Relay/Ended.antt =====
-- src/server.rs: the end of a task, and the events after it.
use spraycc.Base.{
  ℕ, ◌+◌, ◌≡◌, ◌∙◌, Bool, true, false, not, ◌&&◌, none, some, List, [], ◌∷◌, ◌++◌, Bool-cases, inl,
  inr, all, all-append, count, get_elem?, get_elem?-set, get_elem?-lt, ◌==◌, if◌then◌else◌, arith,
}
use spraycc.Ipc.{Message}
use spraycc.Ipc.Message.{task_done, task_failed}
use spraycc.Server.Queue.{PriorityQueue}
use spraycc.Server.State.{Item, Env, ServerState, Remote, is_client}
use spraycc.Server.Dispatch.{put_remote}
use spraycc.Server.Handlers.{exec_is_ready, finish_task, record_elapsed, is_success, handle_msg}
use spraycc.Server.Loop.{Event, received, handle_event, activity_occurred}
use spraycc.Server.Invariant.{IsValid, SlotAt, queued, entries}
use spraycc.Server.Relay.Then.{Then, Then->>=, Then-ok}
use spraycc.Server.Relay.Frame.Update
use spraycc.Server.Relay.Isolated.{is_from, paired_quiet}
use spraycc.Server.Relay.Closing.{is_closing, paired_sent}
use spraycc.Server.Relay.Freed.{
  small_other, Freed, Freed-Frame, idle_small, waiting_small, event-Freed,
}
use spraycc.Server.Relay.Trace.{Trace, done, step, next_IsValid}

module _ (Q : PriorityQueue Item) (e c : ℕ) (apart : (c == e) ≡ false) (env : Env) (re rc : Remote)
    (runs_task : re.paired_id ≡ some c) (paired : rc.paired_id ≡ some e)
    (is : is_client rc.conn_type ≡ true) (accepts : (n : ℕ) → env.accepts c n ≡ true) where
  -- The queues of a state name only remotes other than the client.
  abbrev Others : ServerState Q → Type 0
  Others s =
      (all (small_other c) s.exec_queue ≡ true)
      × (all (λ x. small_other c x.0.0) (entries Q s) ≡ true)
      × (small_other c e ≡ true)

  exec_is_ready-Freed :
      (s : ServerState Q) (rc' : Remote)
      → Others s
      → get_elem? s.remotes e ≡ some re
      → get_elem? s.remotes c ≡ some rc'
      → Then (λ t. Freed c e rc' t.remotes) (exec_is_ready Q env e s)
  unfolding exec_is_ready
  exec_is_ready-Freed s rc' (idle, waiting, can) at_e at_c =
      let idle_now : Remote = record re { paired_id = none } in
      let ready : ServerState Q = record s {
        exec_queue = s.exec_queue ++ e ∷ [];
        remotes = (put_remote Q e idle_now s).remotes;
      } in
      rw at_e (
        Update.update-Kept Q (small_other c) (small_other c) (Freed c e rc') (Freed-Frame c e rc')
          env ready
          (
            (
              get_elem?-set s.remotes e c idle_now re at_e ∙ ground (arith, apart, at_c),
              (idle_now, get_elem?-set s.remotes e e idle_now re at_e ∙ ground arith, λ h. cc),
            ),
            (all-append (small_other c) s.exec_queue (e ∷ []) ∙ ground (arith, idle, can), waiting),
          ))

  finish_task-Freed :
      (msg : Message) (s : ServerState Q)
      → Others s
      → get_elem? s.remotes e ≡ some re
      → get_elem? s.remotes c ≡ some rc
      → Then
          (λ t. Freed c e (record rc { send_chan = msg ∷ rc.send_chan }) t.remotes)
          (finish_task Q env e msg s)
  unfolding finish_task
  finish_task-Freed msg s others at_e at_c =
      let rc' : Remote = record rc { send_chan = msg ∷ rc.send_chan } in
      let s' : ServerState Q = put_remote Q c rc' s in
      rw (paired_sent Q e c env re rc runs_task is apart accepts msg s at_e at_c) (
        exec_is_ready-Freed (record s' { finish_count = s.finish_count + 1 }) rc' others
          (get_elem?-set s.remotes c e rc' rc at_c ∙ ground (arith, apart, at_e))
          (get_elem?-set s.remotes c c rc' rc at_c ∙ ground arith))

  closing-Freed :
      (msg : Message) (s : ServerState Q)
      → is_closing msg ≡ true
      → Others s
      → get_elem? s.remotes e ≡ some re
      → get_elem? s.remotes c ≡ some rc
      → Then
          (λ t. Freed c e (record rc { send_chan = msg ∷ rc.send_chan }) t.remotes)
          (handle_msg Q env e msg s)
  unfolding handle_msg record_elapsed
  closing-Freed (task_failed error_message) s closes others at_e at_c =
      finish_task-Freed (task_failed error_message) s others at_e at_c
  closing-Freed (task_done exit_code target_id run_time send_time) s closes others at_e at_c =
      let msg = task_done exit_code target_id run_time send_time in
      let rc' : Remote = record rc { send_chan = msg ∷ rc.send_chan } in
      let freed : ServerState Q → Type 0 = λ t. Freed c e rc' t.remotes in
      Then->>= freed freed
        (finish_task Q env e msg
          (if is_success exit_code then record_elapsed Q env target_id run_time s else s))
        _
        (elim (Bool-cases (is_success exit_code)) [
          | inl good ↦
              rw good
                (finish_task-Freed msg (record_elapsed Q env target_id run_time s) others at_e at_c)
          | inr bad ↦ rw bad (finish_task-Freed msg s others at_e at_c)
        ])
        (λ t k. k)
  closing-Freed _ s closes others at_e at_c = cc

  -- After the message that ends the task, the client has it, and the executor is not paired with it.
  pub end-Freed :
      (msg : Message) (s : ServerState Q)
      → is_closing msg ≡ true
      → IsValid Q s
      → get_elem? s.remotes e ≡ some re
      → get_elem? s.remotes c ≡ some rc
      → Then
          (λ t. Freed c e (record rc { send_chan = msg ∷ rc.send_chan }) t.remotes)
          (handle_event Q env (received e msg) s)
  unfolding handle_event activity_occurred
  end-Freed msg s closes books at_e at_c =
      let slot : SlotAt (some rc) (queued c (entries Q s)) (count c s.exec_queue) =
        rw at_c at (books.slots c) in
      let (q, d) = paired_quiet rc.conn_type rc.paired_id e _ _ paired slot in
      let freed : ServerState Q → Type 0 =
        λ t. Freed c e (record rc { send_chan = msg ∷ rc.send_chan }) t.remotes in
      Then->>= freed freed (handle_msg Q env e msg s) _
        (closing-Freed msg s closes
          (
            idle_small s.remotes (entries Q s) s.exec_queue _ _ _ books c q d,
            waiting_small s.remotes (entries Q s) s.exec_queue _ _ _ books c q d,
            ground (arith, get_elem?-lt s.remotes e re at_e, books.small, apart),
          )
          at_e at_c)
        (λ t k. k)

-- The client `c` sends nothing.
abbrev pub silent : ℕ → List (Env × Event) → Bool
silent c [] = true
silent c ((env, event) ∷ events) = not (is_from c event) && silent c events

-- Whatever the executor and the others then do, the client gets nothing more.
pub Trace-Freed :
    (Q : PriorityQueue Item) (e c : ℕ) (rc : Remote) {s t : ServerState Q}
    {events : List (Env × Event)}
    → rc.paired_id ≡ some e
    → Trace Q s events t
    → IsValid Q s
    → silent c events ≡ true
    → Freed c e rc s.remotes
    → Freed c e rc t.remotes
Trace-Freed Q e c rc paired done books quiet h = h
Trace-Freed Q e c rc paired (step {s = s} {u = u} env event closed allowed returned rest) books
      quiet h =
    Trace-Freed Q e c rc paired rest (next_IsValid Q env event s u books closed allowed returned)
      (ground (arith, quiet))
      (Then-ok _ _ returned
        (event-Freed Q c e rc paired env event s books allowed h (ground (arith, quiet))))
