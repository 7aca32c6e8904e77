-- ===== src/Server/Handlers.antt =====
-- src/server.rs: the methods that handle an event on a connection, and `handle_msg`.
use mathlib.Core.Option
use spraycc.Base.{
  ℕ, ℤ, is_zero, ◌+◌, ◌-◌, ◌*◌, ◌%◌, max, String, Bool, false, ◌&&◌, not, Option, none, some, [],
  ◌∷◌, ◌++◌, Result, ok, err, or_fail, ◌>>=◌, ltb, ◌==◌, length, if◌then◌else◌,
}
use spraycc.Ipc.{TaskDetails, Message, get_target_id}
use spraycc.Ipc.Message.{
  your_obedient_servant, task, task_output, task_failed, task_done, cancel_task, piss_off, dropped,
}
use spraycc.History
use spraycc.Server.Queue.{PriorityQueue}
use spraycc.Server.State.{
  Item, Env, Fault, ServerState, Remote, pending, client, exec, dead, checked_sub, is_client,
  is_exec,
}
use spraycc.Server.Dispatch.{remote_at, put_remote, send, set_type, update}

abbrev pub from_secs : ℕ → ℕ
from_secs n = n * 1_000_000_000

abbrev pub is_success : Option ℤ → Bool
is_success none = false
is_success (some code) = is_zero code

module _ (Q : PriorityQueue Item) where
  unfoldable pub add_remote : ServerState Q → ServerState Q
  add_remote s = record s {
    remotes = s.remotes ++ record { conn_type = pending; send_chan = []; paired_id = none } ∷ [];
  }

  unfoldable pub record_elapsed : Env → String → ℕ → ServerState Q → ServerState Q
  record_elapsed env target_id elapsed s = record s {
    in_the_making = History.update s.in_the_making target_id elapsed env.recorded_at;
  }

  -- A client that cannot be reached is marked dead.
  unfoldable pub send_to_paired_remote :
      Env → ℕ → Message → ServerState Q → Result Fault (ServerState Q)
  send_to_paired_remote env conn_id msg s = do
    r ← remote_at Q s conn_id
    other_id ← or_fail r.paired_id Fault.not_paired
    other ← remote_at Q s other_id
    if is_client other.conn_type
        then ok (
            put_remote Q other_id
              (if env.accepts other_id (length other.send_chan)
                then record other { send_chan = msg ∷ other.send_chan }
                else record other { conn_type = dead })
              s)
        else ok s

  -- Tells the client of a dropped executor.
  unfoldable pub notify_client : Env → Remote → ServerState Q → Result Fault (ServerState Q)
  unfolding send
  notify_client env r s =
      if is_exec r.conn_type
      then elim r.paired_id [
        | none ↦ ok s
        | some other_id ↦ send Q env other_id (task_failed "exec dropped connection") s
      ]
      else ok s

  unfoldable pub handle_dropped : Env → ℕ → ServerState Q → Result Fault (ServerState Q)
  unfolding notify_client set_type checked_sub
  handle_dropped env conn_id s = do
    r ← remote_at Q s conn_id
    s₁ ← notify_client env r s
    running ←
        if is_exec r.conn_type
        then checked_sub s₁.running_exec_count 1
        else ok s₁.running_exec_count
    set_type Q conn_id dead (record s₁ { running_exec_count = running })

  unfoldable pub exec_is_ready : Env → ℕ → ServerState Q → Result Fault (ServerState Q)
  unfolding update
  exec_is_ready env conn_id s = do
    r ← remote_at Q s conn_id
    update Q env (record s {
      exec_queue = s.exec_queue ++ conn_id ∷ [];
      remotes = (put_remote Q conn_id (record r { paired_id = none }) s).remotes;
    })

  -- 300 seconds for a priority task, on top of the time that the task took before, or a second.
  unfoldable pub priority_of : ServerState Q → TaskDetails → String → ℕ
  priority_of s details target_id =
      Option.get_or (History.get s.prior_history target_id) (from_secs 1)
      + from_secs (if details.priority_task then 300 else 0)

  unfoldable pub remote_is_client :
      Env → ℕ → TaskDetails → ServerState Q → Result Fault (ServerState Q)
  unfolding priority_of set_type update get_target_id
  remote_is_client env conn_id details s = do
    target_id ← or_fail (get_target_id details) Fault.no_target
    s₁ ← set_type Q conn_id client s
    update Q env (record s₁ {
      task_queue =
          PriorityQueue.push Q s₁.task_queue (conn_id, details) (priority_of s details target_id);
      last_submit_time = some env.submitted_at;
    })

  -- One pending executor less, of the queue that it came from.
  unfoldable pub count_started : Bool → ServerState Q → ServerState Q
  count_started second_queue s =
      if not second_queue && ltb 0 s.pending_exec_count
      then record s { pending_exec_count = s.pending_exec_count - 1 }
      else if second_queue && ltb 0 s.second_pending_exec_count
      then record s { second_pending_exec_count = s.second_pending_exec_count - 1 }
      else s

  unfoldable pub remote_is_exec : Env → ℕ → Bool → ServerState Q → Result Fault (ServerState Q)
  unfolding set_type count_started exec_is_ready
  remote_is_exec env conn_id second_queue s = do
    s₁ ← set_type Q conn_id exec s
    exec_is_ready env conn_id
        (count_started second_queue (record s₁ { running_exec_count = s₁.running_exec_count + 1 }))

  -- Forwards the end of a task, and takes the executor back.
  unfoldable pub finish_task : Env → ℕ → Message → ServerState Q → Result Fault (ServerState Q)
  unfolding send_to_paired_remote exec_is_ready
  finish_task env conn_id msg s = do
    s' ← send_to_paired_remote env conn_id msg s
    exec_is_ready env conn_id (record s' { finish_count = s'.finish_count + 1 })

  unfoldable pub handle_msg : Env → ℕ → Message → ServerState Q → Result Fault (ServerState Q)
  unfolding remote_is_exec remote_is_client send_to_paired_remote record_elapsed finish_task
      handle_dropped
  handle_msg env conn_id (your_obedient_servant access_code user_code) s =
      remote_is_exec env conn_id (not (access_code % 2 == 0)) s
  handle_msg env conn_id (task access_code user_code details) s =
      remote_is_client env conn_id details (record s { submit_count = s.submit_count + 1 })
  handle_msg env conn_id (task_output output_type content) s =
      send_to_paired_remote env conn_id (task_output output_type content) (record s {
        total_bytes = env.add_bytes s.total_bytes (length content);
        bytes_this_period = env.add_bytes s.bytes_this_period (length content);
      })
  handle_msg env conn_id (task_done exit_code target_id run_time send_time) s = do
    let s₁ = if is_success exit_code then record_elapsed env target_id run_time s else s
    s₂ ← finish_task env conn_id (task_done exit_code target_id run_time send_time) s₁
    ok (record s₂ {
      total_run_time = s₂.total_run_time + run_time;
      total_send_time = s₂.total_send_time + send_time;
      peak_send_time = max s₂.peak_send_time send_time;
    })
  handle_msg env conn_id (task_failed error_message) s =
      finish_task env conn_id (task_failed error_message) s
  handle_msg env conn_id cancel_task s = err Fault.cancel_unimplemented
  handle_msg env conn_id dropped s = handle_dropped env conn_id s
  handle_msg env conn_id piss_off s = err Fault.piss_off_received
