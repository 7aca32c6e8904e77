-- ===== src/Server/Safety/Events.antt =====
-- Every event keeps the books and does not panic, if the peers keep to the protocol.
use spraycc.Base.{
  ℕ, String, ◌-◌, ◌%◌, not, ◌^◌, ◌<◌, ◌≡◌, false, some, arith, Result, ltb, ◌==◌, length, get_elem?,
  Bool-cases, inl, inr,
}
use spraycc.Ipc.{Message, get_target_id}
use spraycc.Ipc.Message.{
  your_obedient_servant, task, task_output, task_failed, task_done, cancel_task, piss_off, dropped,
}
use spraycc.Server.Queue.{PriorityQueue}
use spraycc.Server.State.{Item, Env, Fault, ServerState, Remote, pending, exec}
use spraycc.Server.Dispatch.{update}
use spraycc.Server.Handlers.{
  handle_msg, send_to_paired_remote, finish_task, is_success, record_elapsed,
}
use spraycc.Server.Loop.{
  Event, accepted, accept_failed, received, watchdog, handle_event, report_status,
}
use spraycc.Server.Invariant.{IsSound, IsValid}
use spraycc.Server.Safety.Ensures.{Ensures, Ensures->>=, Ensures-mono}
use spraycc.Server.Safety.Dispatch.{Drained}
use spraycc.Server.Safety.Update.{update-IsSound}
use spraycc.Server.Safety.Ready.{remote_is_exec-IsSound}
use spraycc.Server.Safety.Submit.{remote_is_client-IsSound}
use spraycc.Server.Safety.Paired.{StillAt, forward-IsSound, finish_task-IsSound}
use spraycc.Server.Safety.Dropped.{handle_dropped-IsValid}
use spraycc.Server.Safety.Connect.{add_remote-IsValid}

-- What the protocol lets a remote send.
abbrev pub AllowedFrom : Message → Remote → Type 0
AllowedFrom (your_obedient_servant access_code user_code) r = r.conn_type ≡ pending
AllowedFrom (task access_code user_code details) r =
    (r.conn_type ≡ pending) × ((target : String) × (get_target_id details ≡ some target))
AllowedFrom (task_output output_type content) r =
    (r.conn_type ≡ exec) × ((c : ℕ) × (r.paired_id ≡ some c))
AllowedFrom (task_done exit_code target_id run_time send_time) r =
    (r.conn_type ≡ exec) × ((c : ℕ) × (r.paired_id ≡ some c))
AllowedFrom (task_failed error_message) r =
    (r.conn_type ≡ exec) × ((c : ℕ) × (r.paired_id ≡ some c))
AllowedFrom cancel_task r = ⊥
AllowedFrom piss_off r = ⊥
AllowedFrom dropped r = Unit

module _ (Q : PriorityQueue Item) where
  -- Events that a run can meet. The ids of connections fit 32 bits, and to accept a connection does
  -- not fail.
  abbrev pub Allowed : ServerState Q → Event → Type 0
  Allowed s accepted = length s.remotes < 2 ^ 32
  Allowed s accept_failed = ⊥
  Allowed s watchdog = Unit
  Allowed s (received id msg) = (r : Remote) × (get_elem? s.remotes id ≡ some r) × AllowedFrom msg r

module _ (Q : PriorityQueue Item) (env : Env) where
  IsValid-of_good :
      (m : Result Fault (ServerState Q))
      → Ensures (λ t. IsSound Q env t × Drained Q env t) m
      → Ensures (IsValid Q) m
  IsValid-of_good m h =
      Ensures-mono (λ t. IsSound Q env t × Drained Q env t) (IsValid Q) m h (λ t k. k.0.0)

  handle_msg-IsValid :
      (s : ServerState Q) (id : ℕ) (msg : Message) (r : Remote)
      → IsSound Q env s
      → get_elem? s.remotes id ≡ some r
      → AllowedFrom msg r
      → Ensures (IsValid Q) (handle_msg Q env id msg s)
  unfolding handle_msg
  handle_msg-IsValid s id (your_obedient_servant access_code user_code) r sound at_id new =
      IsValid-of_good _
        (remote_is_exec-IsSound Q env s id r (not (access_code % 2 == 0)) sound at_id new)
  handle_msg-IsValid s id (task access_code user_code details) r sound at_id (new, (target, e)) =
      IsValid-of_good _ (remote_is_client-IsSound Q env s id r details target sound at_id new e)
  handle_msg-IsValid s id (task_output output_type content) r sound at_id (is, (c, e)) =
      let s' : ServerState Q = record s {
        total_bytes = env.add_bytes s.total_bytes (length content);
        bytes_this_period = env.add_bytes s.bytes_this_period (length content);
      } in
      let msg : Message = task_output output_type content in
      Ensures-mono (StillAt Q env id r s') (IsValid Q) (send_to_paired_remote Q env id msg s')
        (forward-IsSound Q env s' id c r msg sound at_id is e) (λ t h. h.0.0)
  handle_msg-IsValid s id (task_done exit_code target_id run_time send_time) r sound at_id
        (is, (c, e)) =
      let msg : Message = task_done exit_code target_id run_time send_time in
      let s₁ = record_elapsed Q env target_id run_time s in
      elim (Bool-cases (is_success exit_code)) [
        | inl good ↦ rw good (
            Ensures->>= _ (IsValid Q) (finish_task Q env id msg s₁) _
              (finish_task-IsSound Q env s₁ id c r msg sound at_id is e) (λ t h. h.0.0))
        | inr bad ↦ rw bad (
            Ensures->>= _ (IsValid Q) (finish_task Q env id msg s) _
              (finish_task-IsSound Q env s id c r msg sound at_id is e) (λ t h. h.0.0))
      ]
  handle_msg-IsValid s id (task_failed error_message) r sound at_id (is, (c, e)) =
      IsValid-of_good _
        (finish_task-IsSound Q env s id c r (task_failed error_message) sound at_id is e)
  handle_msg-IsValid s id cancel_task r sound at_id h = absurd h
  handle_msg-IsValid s id piss_off r sound at_id h = absurd h
  handle_msg-IsValid s id dropped r sound at_id h = handle_dropped-IsValid Q env s id r sound at_id

  status-IsValid :
      (s : ServerState Q) → IsValid Q s → Ensures (λ o. IsValid Q s) (report_status Q 5 s)
  unfolding report_status
  status-IsValid s books =
      let a : ltb s.submit_count s.finish_count ≡ false = ground (arith, books.tasks) in
      let b : ltb (s.submit_count - s.finish_count) (PriorityQueue.len Q s.task_queue) ≡ false =
        ground (arith, books.tasks, PriorityQueue.len_lem Q s.task_queue) in
      rw (a, b) books

  -- From a valid state in which the executors that dropped while idle accept no message, an event
  -- that the protocol allows gives a valid state, or ends the server by a failure that is no panic.
  pub handle_event-IsValid :
      (s : ServerState Q) (event : Event)
      → IsSound Q env s
      → Allowed Q s event
      → Ensures (IsValid Q) (handle_event Q env event s)
  unfolding handle_event
  handle_event-IsValid s accepted sound room = add_remote-IsValid Q s room sound.0
  handle_event-IsValid s accept_failed sound never = absurd never
  handle_event-IsValid s watchdog sound h =
      Ensures->>= _ (IsValid Q) (update Q env s) _ (update-IsSound Q env s sound) (λ t k.
        Ensures->>= _ (IsValid Q) (report_status Q 5 t) _ (status-IsValid t k.0.0) (λ o b. b))
  handle_event-IsValid s (received id msg) sound (r, at_id, allowed) =
      Ensures->>= _ (IsValid Q) (handle_msg Q env id msg s) _
        (handle_msg-IsValid s id msg r sound at_id allowed) (λ t h. h)
