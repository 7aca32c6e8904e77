-- ===== src/Server/Relay/Frame/Events.antt =====
-- src/server.rs: the events under a frame rule.
use spraycc.Base.{
  ℕ, ◌+◌, ◌%◌, ◌≡◌, Bool, true, not, some, List, get_elem?, length, ◌==◌, Bool-cases, inl, inr,
  if◌then◌else◌,
}
use spraycc.Ipc.{Message}
use spraycc.Ipc.Message.{
  your_obedient_servant, task, task_output, task_failed, task_done, cancel_task, piss_off, dropped,
}
use spraycc.Server.Queue.{PriorityQueue}
use spraycc.Server.State.{Item, Env, ServerState, Remote, exec}
use spraycc.Server.Relay.Then.{Then, Then->>=, Then-mono, anything}
use spraycc.Server.Dispatch.{update}
use spraycc.Server.Handlers.{
  add_remote, finish_task, handle_dropped, send_to_paired_remote, is_success, record_elapsed,
  handle_msg,
}
use spraycc.Server.Loop.{
  Event, accepted, accept_failed, received, watchdog, handle_event, report_status,
}
use spraycc.Server.Safety.Events.{AllowedFrom}
use spraycc.Server.Relay.Frame.{Frame}
use spraycc.Server.Relay.Frame
use spraycc.Server.Relay.Frame.Update
use spraycc.Server.Relay.Frame.Handlers

module _ (Q : PriorityQueue Item) (can_pair can_run : ℕ → Bool) (R : List Remote → Type 0)
    (frame : Frame can_pair can_run R) where
  abbrev Framed : ServerState Q → Type 0
  Framed = Frame.Framed Q can_pair can_run R frame

  abbrev Kept : ServerState Q → Type 0
  Kept = Frame.Kept Q can_pair can_run R frame

  -- A message of a remote that may change, with the remote that it is forwarded to.
  handle_msg-Kept :
      (env : Env) (x : ℕ) (msg : Message) (s : ServerState Q) (r : Remote)
      → get_elem? s.remotes x ≡ some r
      → AllowedFrom msg r
      → can_run x ≡ true
      → can_pair x ≡ true
      → ((o : ℕ) → r.conn_type ≡ exec → r.paired_id ≡ some o → can_run o ≡ true)
      → Framed s
      → Then Kept (handle_msg Q env x msg s)
  unfolding handle_msg
  handle_msg-Kept env x (your_obedient_servant access_code user_code) s r at_x new can can_c mate
        h =
      Handlers.remote_is_exec-Kept Q can_pair can_run R frame env x (not (access_code % 2 == 0)) s
        can h
  handle_msg-Kept env x (task access_code user_code details) s r at_x new can can_c mate h =
      Handlers.remote_is_client-Kept Q can_pair can_run R frame env x details
        (record s { submit_count = s.submit_count + 1 }) can can_c h
  handle_msg-Kept env x (task_output output_type content) s r at_x (is, paired) can can_c mate h =
      let s' : ServerState Q = record s {
        total_bytes = env.add_bytes s.total_bytes (length content);
        bytes_this_period = env.add_bytes s.bytes_this_period (length content);
      } in
      let msg : Message = task_output output_type content in
      Then-mono Framed Kept (send_to_paired_remote Q env x msg s')
        (Handlers.forward-Framed Q can_pair can_run R frame env x msg s' r at_x (λ o. mate o is) h)
        (λ t k. k.0)
  handle_msg-Kept env x (task_done exit_code target_id run_time send_time) s r at_x (is, paired) can
        can_c mate h =
      let msg = task_done exit_code target_id run_time send_time in
      let s₁ = if is_success exit_code then record_elapsed Q env target_id run_time s else s in
      Then->>= Kept Kept (finish_task Q env x msg s₁) _
        (elim (Bool-cases (is_success exit_code)) [
          | inl good ↦ rw good (
              Handlers.finish_task-Kept Q can_pair can_run R frame env x msg
                (record_elapsed Q env target_id run_time s) r at_x can (λ o. mate o is) h)
          | inr bad ↦ rw bad (
              Handlers.finish_task-Kept Q can_pair can_run R frame env x msg s r at_x can
                (λ o. mate o is) h)
        ])
        (λ t k. k)
  handle_msg-Kept env x (task_failed error_message) s r at_x (is, paired) can can_c mate h =
      Handlers.finish_task-Kept Q can_pair can_run R frame env x (task_failed error_message) s r
        at_x can (λ o. mate o is) h
  handle_msg-Kept env x cancel_task s r at_x never can can_c mate h = tt
  handle_msg-Kept env x piss_off s r at_x never can can_c mate h = tt
  handle_msg-Kept env x dropped s r at_x any can can_c mate h =
      Then-mono Framed Kept (handle_dropped Q env x s)
        (Handlers.handle_dropped-Kept Q can_pair can_run R frame env x s r at_x can mate h)
        (λ t k. k.0)

  -- What the event needs: a new remote changes nothing, and the sender and its mate may change.
  abbrev pub May : ServerState Q → Event → Type 0
  May s accepted = R (add_remote Q s).remotes
  May s accept_failed = Unit
  May s watchdog = Unit
  May s (received x msg) =
      (r : Remote) × (get_elem? s.remotes x ≡ some r)
      × AllowedFrom msg r
      × (can_run x ≡ true)
      × (can_pair x ≡ true)
      × ((o : ℕ) → r.conn_type ≡ exec → r.paired_id ≡ some o → can_run o ≡ true)

  pub handle_event-Kept :
      (env : Env) (event : Event) (s : ServerState Q)
      → May s event
      → Framed s
      → Then Kept (handle_event Q env event s)
  unfolding handle_event
  handle_event-Kept env accepted s more h = more
  handle_event-Kept env accept_failed s u h = tt
  handle_event-Kept env watchdog s u h =
      Then->>= Kept Kept (update Q env s) _ (Update.update-Kept Q can_pair can_run R frame env s h)
        (λ t k. Then->>= (λ n. Unit) Kept (report_status Q 5 t) _ (anything _) (λ n u. k))
  handle_event-Kept env (received x msg) s (r, at_x, allowed, can, can_c, mate) h =
      Then->>= Kept Kept (handle_msg Q env x msg s) _
        (handle_msg-Kept env x msg s r at_x allowed can can_c mate h) (λ t k. k)
