-- ===== src/Server/Relay/Frame/Handlers.antt =====
-- src/server.rs: the handlers of messages under a frame rule.
use spraycc.Base.{
  ℕ, ◌+◌, ◌≡◌, refl, ◌∙◌, Bool, true, false, not, ◌&&◌, none, some, List, [], ◌∷◌, ◌++◌, ok, all,
  all-append, all-perm, get_elem?, set, length, ltb, Option-cases, Bool-cases, inl, inr,
  if◌then◌else◌, arith,
}
use spraycc.Ipc.{TaskDetails, Message, get_target_id}
use spraycc.Ipc.Message.{task_failed}
use spraycc.Server.Queue.{PriorityQueue}
use spraycc.Server.State.{
  Item, Env, ServerState, Remote, client, exec, dead, checked_sub, is_client, is_exec,
}
use spraycc.Server.Relay.Then.{Then, Then->>=, anything}
use spraycc.Server.Dispatch.{remote_at, put_remote, set_type, update}
use spraycc.Server.Handlers.{
  send_to_paired_remote, notify_client, handle_dropped, exec_is_ready, priority_of,
  remote_is_client, count_started, remote_is_exec, finish_task,
}
use spraycc.Server.Relay.Frame.{Frame, remote_at-Then}
use spraycc.Server.Relay.Frame
use spraycc.Server.Relay.Frame.Update

module _ (Q : PriorityQueue Item) (can_pair can_run : ℕ → Bool) (R : List Remote → Type 0)
    (frame : Frame can_pair can_run R) where
  abbrev Framed : ServerState Q → Type 0
  Framed = Frame.Framed Q can_pair can_run R frame

  abbrev Kept : ServerState Q → Type 0
  Kept = Frame.Kept Q can_pair can_run R frame

  pub exec_is_ready-Kept :
      (env : Env) (x : ℕ) (s : ServerState Q)
      → can_run x ≡ true
      → Framed s
      → Then Kept (exec_is_ready Q env x s)
  unfolding exec_is_ready
  exec_is_ready-Kept env x s can (h, (idle, waiting)) =
      let ready : Remote → ServerState Q = λ r. record s {
        exec_queue = s.exec_queue ++ x ∷ [];
        remotes = (put_remote Q x (record r { paired_id = none }) s).remotes;
      } in
      Then->>= (λ r. get_elem? s.remotes x ≡ some r) Kept (remote_at Q s x)
        (λ r. update Q env (ready r)) (remote_at-Then Q s x)
        (λ r at_x. Update.update-Kept Q can_pair can_run R frame env (ready r) (
          frame.worked s.remotes x r (record r { paired_id = none }) can at_x (inr (inl refl)) h,
          (all-append can_run s.exec_queue (x ∷ []) ∙ ground (arith, idle, can), waiting),
        ))

  count_started-Framed :
      (second_queue : Bool) (s : ServerState Q) → Framed s → Framed (count_started Q second_queue s)
  unfolding count_started
  count_started-Framed second_queue s h =
      elim (Bool-cases (not second_queue && ltb 0 s.pending_exec_count)) [
        | inl first ↦ rw first h
        | inr not_first ↦ elim (Bool-cases (second_queue && ltb 0 s.second_pending_exec_count)) [
          | inl second ↦ rw (not_first, second) h
          | inr not_second ↦ rw (not_first, not_second) h
        ]
      ]

  pub remote_is_exec-Kept :
      (env : Env) (x : ℕ) (second_queue : Bool) (s : ServerState Q)
      → can_run x ≡ true
      → Framed s
      → Then Kept (remote_is_exec Q env x second_queue s)
  unfolding remote_is_exec
  remote_is_exec-Kept env x second_queue s can h =
      Then->>= Framed Kept (set_type Q x exec s) _
        (Frame.set_type-KeptAs Q can_pair can_run R frame _ x exec s can h)
        (λ t k. exec_is_ready-Kept env x _ can (
          count_started-Framed second_queue
            (record t { running_exec_count = t.running_exec_count + 1 }) k))

  push-Waiting :
      (q : PriorityQueue.Queue Q) (x : ℕ) (details : TaskDetails) (p : ℕ)
      → can_pair x ≡ true
      → all (λ e. can_pair e.0.0) (PriorityQueue.entries Q q) ≡ true
      → all (λ e. can_pair e.0.0) (PriorityQueue.entries Q (PriorityQueue.push Q q (x, details) p))
        ≡ true
  push-Waiting q x details p can waiting = elim (PriorityQueue.push_lem Q q (x, details) p) [
    | inl perm ↦ all-perm (λ e. can_pair e.0.0) perm ∙ ground (arith, can, waiting)
    | inr (old, rest, before, after) ↦
        all-perm (λ e. can_pair e.0.0) after
        ∙ ground (arith, can, waiting, all-perm (λ e. can_pair e.0.0) before)
  ]

  pub remote_is_client-Kept :
      (env : Env) (x : ℕ) (details : TaskDetails) (s : ServerState Q)
      → can_run x ≡ true
      → can_pair x ≡ true
      → Framed s
      → Then Kept (remote_is_client Q env x details s)
  unfolding remote_is_client
  remote_is_client-Kept env x details s can can_c h = elim (Option-cases (get_target_id details)) [
    | inl e ↦ rw e tt
    | inr (target, e) ↦ rw e (
        Then->>= Framed Kept (set_type Q x client s) _
          (Frame.set_type-KeptAs Q can_pair can_run R frame _ x client s can h)
          (λ t k. Update.update-Kept Q can_pair can_run R frame env _ (
            k.0,
            (
              k.1.0,
              push-Waiting t.task_queue x details (priority_of Q s details target) can_c k.1.1,
            ),
          )))
  ]

  forwarded-R :
      (o : ℕ) (msg : Message) (accepts : Bool) (rs : List Remote) (other : Remote)
      → can_run o ≡ true
      → get_elem? rs o ≡ some other
      → R rs
      → R (
          set rs o (
            if accepts
            then record other { send_chan = msg ∷ other.send_chan }
            else record other { conn_type = dead }))
  forwarded-R o msg true rs other can at_o h =
      frame.worked rs o other (record other { send_chan = msg ∷ other.send_chan }) can at_o
        (inl refl) h
  forwarded-R o msg false rs other can at_o h =
      frame.worked rs o other (record other { conn_type = dead }) can at_o (inl refl) h

  -- What is forwarded changes the remote that the sender is paired with.
  pub forward-Framed :
      (env : Env) (x : ℕ) (msg : Message) (s : ServerState Q) (r : Remote)
      → get_elem? s.remotes x ≡ some r
      → ((o : ℕ) → r.paired_id ≡ some o → can_run o ≡ true)
      → Framed s
      → Then Framed (send_to_paired_remote Q env x msg s)
  unfolding send_to_paired_remote
  forward-Framed env x msg s r at_x mate h = elim (Option-cases r.paired_id) [
    | inl e ↦ rw (at_x, e) tt
    | inr (o, e) ↦
        rw (at_x, e)
          (Then->>= (λ other. get_elem? s.remotes o ≡ some other) Framed (remote_at Q s o) _
            (remote_at-Then Q s o)
            (λ other at_o. elim (Bool-cases (is_client other.conn_type)) [
              | inr gone ↦ rw gone h
              | inl there ↦ rw there (
                forwarded-R o msg (env.accepts o (length other.send_chan)) s.remotes other
                    (mate o e) at_o h.0,
                h.1,
              )
            ]))
  ]

  pub finish_task-Kept :
      (env : Env) (x : ℕ) (msg : Message) (s : ServerState Q) (r : Remote)
      → get_elem? s.remotes x ≡ some r
      → can_run x ≡ true
      → ((o : ℕ) → r.paired_id ≡ some o → can_run o ≡ true)
      → Framed s
      → Then Kept (finish_task Q env x msg s)
  unfolding finish_task
  finish_task-Kept env x msg s r at_x can mate h =
      Then->>= Framed Kept (send_to_paired_remote Q env x msg s) _
        (forward-Framed env x msg s r at_x mate h)
        (λ t k. exec_is_ready-Kept env x (record t { finish_count = t.finish_count + 1 }) can k)

  notify_client-Kept :
      (env : Env) (s : ServerState Q) (r : Remote)
      → ((o : ℕ) → r.conn_type ≡ exec → r.paired_id ≡ some o → can_run o ≡ true)
      → Framed s
      → Then Framed (notify_client Q env r s)
  unfolding notify_client
  notify_client-Kept env s r mate h = elim (Bool-cases (is_exec r.conn_type)) [
    | inr other ↦ rw other h
    | inl is ↦ elim (Option-cases r.paired_id) [
      | inl e ↦ rw (is, e) h
      | inr (o, e) ↦
          rw (is, e)
            (Frame.send-KeptAs Q can_pair can_run R frame _ env o
              (task_failed "exec dropped connection") s (mate o (ground (arith, is)) e) h)
    ]
  ]

  pub handle_dropped-Kept :
      (env : Env) (x : ℕ) (s : ServerState Q) (r : Remote)
      → get_elem? s.remotes x ≡ some r
      → can_run x ≡ true
      → ((o : ℕ) → r.conn_type ≡ exec → r.paired_id ≡ some o → can_run o ≡ true)
      → Framed s
      → Then Framed (handle_dropped Q env x s)
  unfolding handle_dropped
  handle_dropped-Kept env x s r at_x can mate h = rw at_x (
      Then->>= Framed Framed (notify_client Q env r s) _ (notify_client-Kept env s r mate h) (λ t k.
        Then->>= (λ n. Unit) Framed
          (if is_exec r.conn_type
            then checked_sub t.running_exec_count 1
            else ok t.running_exec_count)
          _ (anything _)
          (λ n u.
            Frame.set_type-KeptAs Q can_pair can_run R frame _ x dead
              (record t { running_exec_count = n }) can k)))
