-- ===== src/Server/State.antt =====
-- src/server.rs: the state of the server, and what its handlers take from outside.
use spraycc.Base.{
  ℕ, ◌-◌, String, Bool, true, false, Option, none, some, List, Result, ok, err, if◌then◌else◌, ltb,
}
use spraycc.Ipc.{TaskDetails, Message}
use spraycc.Config.{ExecConfig}
use spraycc.History.{History}
use spraycc.Server.Queue.{PriorityQueue}

pub data ConnectionType : Type 0 where
  pending client exec dead : ConnectionType

-- The channel of a remote is the list of the messages that it was sent, newest first.
pub record Remote : Type 0 where
  pub conn_type : ConnectionType
  pub send_chan : List Message
  pub paired_id : Option ℕ

abbrev pub is_client : ConnectionType → Bool
is_client client = true
is_client _ = false

abbrev pub is_exec : ConnectionType → Bool
is_exec exec = true
is_exec _ = false

abbrev pub is_none : Option ℕ → Bool
is_none none = true
is_none (some i) = false

-- How a handler ends other than by returning: an error that `?` hands on, a panic, or a loop that
-- is still running when the outcomes of its calls are used up.
pub data Fault : Type 0 where
  send_failed : ℕ → Fault
  out_of_range not_paired same_ids client_paired exec_paired : Fault
  underflow unwrap_none no_target cancel_unimplemented piss_off_received : Fault
  still_spawning accept_failed : Fault

-- Whether a fault is a panic.
abbrev pub panics : Fault → Bool
panics (Fault.send_failed i) = false
panics Fault.still_spawning = false
panics _ = true

-- A client's id and its task.
abbrev pub Item : Type 0
Item = ℕ × TaskDetails

-- What one event takes from outside: the readings of the clock, each made at most once in an
-- event; whether remote `i` accepts its next message when it has been sent `n` so far; the outcomes
-- of starting processes, for each queue; and the addition of the crate ubyte.
pub record Env : Type 0 where
  pub recorded_at : ℕ
  pub submitted_at : ℕ
  pub checked_at : ℕ
  pub active_at : ℕ
  pub idle_at : ℕ
  pub accepts : ℕ → ℕ → Bool
  pub spawns : Bool → List Bool
  pub add_bytes : ℕ → ℕ → ℕ

pub record ServerState (Q : PriorityQueue Item) : Type 0 where
  pub remotes : List Remote
  pub task_queue : PriorityQueue.Queue Q
  pub exec_queue : List ℕ
  pub submit_count : ℕ
  pub finish_count : ℕ
  pub pending_exec_count : ℕ
  pub second_pending_exec_count : ℕ
  pub running_exec_count : ℕ
  pub last_submit_time : Option ℕ
  pub last_activity_time : ℕ
  pub user_config : ExecConfig
  pub user_private_key : ℕ
  pub start_cmd : String
  pub second_start_cmd : Option String
  pub prior_history : History
  pub in_the_making : History
  pub total_bytes : ℕ
  pub bytes_this_period : ℕ
  pub total_run_time : ℕ
  pub total_send_time : ℕ
  pub peak_send_time : ℕ
  pub spawned : List String

-- `a - b` on usize, which panics below zero.
unfoldable pub checked_sub : ℕ → ℕ → Result Fault ℕ
checked_sub a b = if ltb a b then err Fault.underflow else ok (a - b)
