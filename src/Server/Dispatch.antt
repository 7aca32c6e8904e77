-- ===== src/Server/Dispatch.antt =====
-- src/server.rs: pairing tasks with idle executors, and releasing executors.
use spraycc.Base.{
  ℕ, ◌-◌, ◌/◌, ◌%◌, ◌^◌, Bool, true, false, not, none, some, List, [], ◌∷◌, Result, ok, err,
  or_fail, require, ◌>>=◌, ◌>>◌, ltb, ◌==◌, length, get_elem?, set, if◌then◌else◌,
}
use spraycc.Ipc.{TaskDetails, Message}
use spraycc.Server.Queue.{PriorityQueue}
use spraycc.Server.State.{
  Item, Env, Fault, ServerState, Remote, ConnectionType, dead, checked_sub, is_none,
}
use spraycc.Server.Start.{start_execs}

-- `i as u32`
abbrev pub as_u32 : ℕ → ℕ
as_u32 i = i % 2 ^ 32

-- A duration's whole seconds, from nanoseconds.
abbrev pub as_secs : ℕ → ℕ
as_secs d = d / 1_000_000_000

module _ (Q : PriorityQueue Item) where
  -- `self.remotes[i]`
  abbrev pub remote_at : ServerState Q → ℕ → Result Fault Remote
  remote_at s i = or_fail (get_elem? s.remotes i) Fault.out_of_range

  abbrev pub put_remote : ℕ → Remote → ServerState Q → ServerState Q
  put_remote i r s = record s { remotes = set s.remotes i r }

  -- `self.remotes[i].send_chan.send(…).await?`
  unfoldable pub send : Env → ℕ → Message → ServerState Q → Result Fault (ServerState Q)
  send env i msg s = do
    r ← remote_at s i
    require (env.accepts i (length r.send_chan)) (Fault.send_failed i)
    ok (put_remote i (record r { send_chan = msg ∷ r.send_chan }) s)

  -- `self.remotes[i].conn_type = t`
  unfoldable pub set_type : ℕ → ConnectionType → ServerState Q → Result Fault (ServerState Q)
  set_type i t s = do r ← remote_at s i; ok (put_remote i (record r { conn_type = t }) s)

  -- One round of the first loop of `check_queues`, after the two pops.
  unfoldable pub assign : Env → ℕ → TaskDetails → ℕ → ServerState Q → Result Fault (ServerState Q)
  unfolding send
  assign env client_id details exec_id s = do
    require (not (client_id == exec_id)) Fault.same_ids
    client ← remote_at s client_id
    require (is_none client.paired_id) Fault.client_paired
    let s₁ = put_remote client_id (record client { paired_id = some (as_u32 exec_id) }) s
    exec ← remote_at s₁ exec_id
    require (is_none exec.paired_id) Fault.exec_paired
    let s₂ = put_remote exec_id (record exec { paired_id = some (as_u32 client_id) }) s₁
    send env exec_id (Message.task 0 0 details) s₂

  -- The first loop: it ends when one of the queues is empty. The list is the queue of executors.
  unfoldable pub assign_tasks : Env → List ℕ → ServerState Q → Result Fault (ServerState Q)
  unfolding assign
  assign_tasks env [] s = ok (record s { exec_queue = [] })
  assign_tasks env (exec_id ∷ execs) s = elim (PriorityQueue.is_empty Q s.task_queue) [
    | true ↦ ok (record s { exec_queue = exec_id ∷ execs })
    | false ↦ elim (PriorityQueue.pop Q s.task_queue) [
      | none ↦ err Fault.unwrap_none
      | some (((client_id, details), prior), queue) ↦ do
        s' ←
            assign env client_id details exec_id
              (record s { task_queue = queue; exec_queue = execs })
        assign_tasks env execs s'
    ]
  ]

  -- One round of the second loop, after the pop.
  unfoldable pub release : Env → ℕ → ServerState Q → Result Fault (ServerState Q)
  unfolding set_type send checked_sub
  release env exec_id s = do
    s₁ ← set_type exec_id dead s
    s₂ ← send env exec_id Message.piss_off s₁
    running ← checked_sub s₂.running_exec_count 1
    ok (record s₂ { running_exec_count = running })

  unfoldable pub release_execs : Env → List ℕ → ServerState Q → Result Fault (ServerState Q)
  unfolding release
  release_execs env [] s = ok (record s { exec_queue = [] })
  release_execs env (exec_id ∷ execs) s = do
    s' ← release env exec_id (record s { exec_queue = execs })
    release_execs env execs s'

  unfoldable pub ok_to_release : Env → ServerState Q → Bool
  ok_to_release env s = elim s.last_submit_time [
    | none ↦ false
    | some last_task_time ↦
        ltb s.user_config.release_delay (as_secs (env.checked_at - last_task_time))
  ]

  unfoldable pub check_queues : Env → ServerState Q → Result Fault (ServerState Q)
  unfolding assign_tasks release_execs ok_to_release
  check_queues env s = do
    s' ← assign_tasks env s.exec_queue s
    if ok_to_release env s' then release_execs env s'.exec_queue s' else ok s'

  unfoldable pub update : Env → ServerState Q → Result Fault (ServerState Q)
  unfolding start_execs check_queues
  update env s = do s' ← start_execs Q env s; check_queues env s'
