-- ===== src/Server/Loop.antt =====
-- src/server.rs: `ServerState::new`, and the loop of `run`. A run is a list of events, each with
-- what it takes from outside.
use spraycc.Base.{
  ℕ, ◌+◌, ◌-◌, ◌/◌, ◌%◌, String, ◌<>◌, Bool, true, false, ◌&&◌, ◌||◌, Option, none, some, List, [],
  ◌∷◌, Result, ok, err, ◌>>=◌, ltb, ◌==◌, if◌then◌else◌,
}
use spraycc.Ipc.{CallMe, Message}
use spraycc.Config.{ExecConfig}
use spraycc.History
use spraycc.History.{History}
use spraycc.Server.Queue.{PriorityQueue}
use spraycc.Server.State.{Item, Env, Fault, ServerState, checked_sub}
use spraycc.Server.Dispatch.{as_secs, update}
use spraycc.Server.Handlers.{add_remote, handle_msg}

-- `(rand::random::<u64>() >> 1) & !1u64`
unfoldable pub draw_access_code : ℕ → ℕ
draw_access_code random = random / 2 - random / 2 % 2

-- `config.max_count = c` if `--cpus` is given.
unfoldable pub override_max : Option ℕ → ExecConfig → ExecConfig
override_max none config = config
override_max (some c) config = record config { max_count = c }

-- `format!("{} exec --callme={} --code={}", cmd, addr, code)`; `show` prints the code.
unfoldable pub exec_command : (ℕ → String) → String → String → ℕ → String
exec_command show cmd addr code = cmd <> " exec --callme=" <> addr <> " --code=" <> show code

unfoldable pub primary_command : Bool → ExecConfig → String
primary_command alt_start_cmd config = elim config.alt_start_cmd [
  | none ↦ config.start_cmd
  | some alt ↦ if alt_start_cmd then alt else config.start_cmd
]

unfoldable pub second_command : (ℕ → String) → CallMe → Bool → ExecConfig → Option String
unfolding exec_command
second_command show port both_queues config =
    if both_queues
    then elim config.alt_start_cmd [
      | none ↦ none
      | some cmd ↦ some (exec_command show cmd port.addr (port.access_code + 1))
    ]
    else none

-- `accept_failed` is an error of `listener.accept()`, on which `expect` panics.
pub data Event : Type 0 where
  accepted accept_failed watchdog : Event
  received : ℕ → Message → Event

-- The numbers that `report_status` prints, if it prints.
abbrev pub Status : Type 0
Status = record { finished : ℕ; submitted : ℕ; running : ℕ; executors : ℕ; rate : ℕ }

module _ (Q : PriorityQueue Item) where
  -- `none` is the failed assertion on the access code. `config` and `prior` are what
  -- `load_config_file` and `load_current_history` return.
  unfoldable pub new :
      (ℕ → String)
      → ExecConfig
      → History
      → ℕ
      → CallMe
      → ℕ
      → Option ℕ
      → Bool
      → Bool
      → Option (ServerState Q)
  unfolding override_max exec_command primary_command second_command
  new show loaded prior now port user_private_key max_cpus alt_start_cmd both_queues =
      let config = override_max max_cpus loaded in
      if port.access_code % 2 == 0
      then some (record {
        remotes = [];
        task_queue = PriorityQueue.new Q;
        exec_queue = [];
        submit_count = 0;
        finish_count = 0;
        pending_exec_count = 0;
        second_pending_exec_count = 0;
        running_exec_count = 0;
        last_submit_time = none;
        last_activity_time = now;
        user_config = config;
        user_private_key = user_private_key;
        start_cmd =
            exec_command show (primary_command alt_start_cmd config) port.addr port.access_code;
        second_start_cmd = second_command show port both_queues config;
        prior_history = prior;
        in_the_making = History.default;
        total_bytes = 0;
        bytes_this_period = 0;
        total_run_time = 0;
        total_send_time = 0;
        peak_send_time = 0;
        spawned = [];
      })
      else none

  unfoldable pub activity_occurred : Env → ServerState Q → ServerState Q
  activity_occurred env s = record s { last_activity_time = env.active_at }

  unfoldable pub ok_to_shutdown : Env → ServerState Q → Bool
  ok_to_shutdown env s =
      PriorityQueue.is_empty Q s.task_queue
      && s.running_exec_count == 0
      && ltb s.user_config.idle_shutdown_after (as_secs (env.idle_at - s.last_activity_time))

  -- What `shutdown` hands to `write_history_file`.
  unfoldable pub shutdown : ServerState Q → Option History
  shutdown s = if History.is_empty s.in_the_making then none else some s.in_the_making

  unfoldable pub report_status : ℕ → ServerState Q → Result Fault (Option Status)
  unfolding checked_sub
  report_status reporting_period s = do
    unfinished ← checked_sub s.submit_count s.finish_count
    running ← checked_sub unfinished (PriorityQueue.len Q s.task_queue)
    ok (
        if ltb 0 running || ltb 0 s.running_exec_count || ltb 0 s.bytes_this_period
        then some (record {
          finished = s.finish_count;
          submitted = s.submit_count;
          running = running;
          executors = s.running_exec_count;
          rate = s.bytes_this_period / reporting_period;
        })
        else none)

  unfoldable pub handle_event : Env → Event → ServerState Q → Result Fault (ServerState Q)
  unfolding add_remote handle_msg activity_occurred update report_status
  handle_event env accepted s = ok (add_remote Q s)
  handle_event env accept_failed s = err Fault.accept_failed
  handle_event env (received id msg) s = do
    s' ← handle_msg Q env id msg s
    ok (activity_occurred env s')
  handle_event env watchdog s = do
    s' ← update Q env s
    status ← report_status 5 s'
    ok (record s' { bytes_this_period = 0 })

  pub data Exit : Type 0 where
    running : ServerState Q → Exit
    stopped : ServerState Q → Option History → Exit
    failed : Fault → Exit

  -- The loop of `run` over a list of events; `running` when the list ends before the loop does.
  unfoldable pub run : List (Env × Event) → ServerState Q → Exit
  unfolding handle_event ok_to_shutdown shutdown
  run [] s = running s
  run ((env, event) ∷ events) s = elim (handle_event env event s) [
    | err fault ↦ failed fault
    | ok s' ↦ elim (ok_to_shutdown env s') [
      | true ↦ stopped s' (shutdown s')
      | false ↦ run events s'
    ]
  ]
