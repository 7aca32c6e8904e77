-- ===== src/Server/Tests/Scenario.antt =====
-- src/server.rs: the states of a server that runs two tasks on two executors.
use spraycc.Base.{ℕ, true, false, none, [], ◌∷◌, String, Bool, Result, ok, err, ◌≡◌, refl}
use spraycc.Ipc.{TaskDetails, Message}
use spraycc.Config
use spraycc.History
use spraycc.Server.Queue.{PriorityQueue}
use spraycc.Server.State.{Env, Fault, ServerState}
use spraycc.Server.Loop.{Event, accepted, received, handle_event}
use spraycc.Server.Tests.Queue.{queue}

abbrev pub details : String → TaskDetails
details name = record {
  working_dir = "/src";
  cmd = "/usr/bin/gcc";
  args = "gcc" ∷ "-c" ∷ name ∷ [];
  output_args = 2 ∷ [];
  env = [];
  priority_task = false;
}

-- Every message is accepted and every process starts.
abbrev pub good : Env
good = record {
  recorded_at = 10;
  submitted_at = 20;
  checked_at = 30;
  active_at = 40;
  idle_at = 50;
  accepts = λ i n. true;
  spawns = λ second. true ∷ true ∷ true ∷ true ∷ true ∷ [];
  add_bytes = λ a b. b;
}

abbrev pub start : ServerState queue
start = record {
  remotes = [];
  task_queue = PriorityQueue.new queue;
  exec_queue = [];
  submit_count = 0;
  finish_count = 0;
  pending_exec_count = 0;
  second_pending_exec_count = 0;
  running_exec_count = 0;
  last_submit_time = none;
  last_activity_time = 0;
  user_config = Config.default;
  user_private_key = 7;
  start_cmd = "spraycc exec --callme=host:1 --code=42";
  second_start_cmd = none;
  prior_history = History.default;
  in_the_making = History.default;
  total_bytes = 0;
  bytes_this_period = 0;
  total_run_time = 0;
  total_send_time = 0;
  peak_send_time = 0;
  spawned = [];
}

abbrev is_ok : Result Fault (ServerState queue) → Bool
is_ok (ok t) = true
is_ok (err fault) = false

abbrev state_of : ServerState queue → Result Fault (ServerState queue) → ServerState queue
state_of s (ok t) = t
state_of s (err fault) = s

is_ok-state_of :
    (s : ServerState queue) (m : Result Fault (ServerState queue))
    → is_ok m ≡ true
    → m ≡ ok (state_of s m)
is_ok-state_of s (ok t) h = refl
is_ok-state_of s (err fault) h = cc

-- The state after an event that succeeds.
unfoldable pub after : Env → Event → ServerState queue → ServerState queue
unfolding handle_event
after env event s = state_of s (handle_event queue env event s)

pub after_lem :
    (env : Env) (event : Event) (s : ServerState queue)
    → is_ok (handle_event queue env event s) ≡ true
    → handle_event queue env event s ≡ ok (after env event s)
unfolding after
after_lem env event s h = is_ok-state_of s (handle_event queue env event s) h

abbrev pub submits : ℕ → String → Event
submits id name = received id (Message.task 42 7 (details name))

abbrev pub serves : ℕ → Event
serves id = received id (Message.your_obedient_servant 42 7)

-- Two clients submit a task each, and two executors come for them.
abbrev pub state1 : ServerState queue
state1 = after good accepted start

abbrev pub state2 : ServerState queue
state2 = after good (submits 0 "a.c") state1

abbrev pub state3 : ServerState queue
state3 = after good accepted state2

abbrev pub state4 : ServerState queue
state4 = after good (submits 1 "b.c") state3

abbrev pub state5 : ServerState queue
state5 = after good accepted state4

abbrev pub state6 : ServerState queue
state6 = after good (serves 2) state5

abbrev pub state7 : ServerState queue
state7 = after good accepted state6

abbrev pub state8 : ServerState queue
state8 = after good (serves 3) state7
