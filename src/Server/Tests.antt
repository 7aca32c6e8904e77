-- ===== src/Server/Tests.antt =====
-- src/server.rs: a server that runs two tasks on two executors, and the theorems at its states.
pub mod Queue
pub mod Scenario
mod Start
mod Gate
mod Delivery
mod Schedule
mod Running
use spraycc.Base.{
  ℕ, ◌≡◌, ◌≢◌, refl, ◌<◌, Bool, true, false, Option, none, some, List, [], ◌∷◌, String, ok, err,
  arith, count, get_elem?, total, ◌⊎◌,
}
use mathlib.Core.Option
use spraycc.Ipc.{TaskDetails, Message}
use spraycc.Ipc
use spraycc.Config
use spraycc.Base.Maps
use spraycc.Server.Start.{spawn_execs}
use spraycc.History
use spraycc.Server.Queue.{PriorityQueue}
use spraycc.Server.State.{Item, Env, Fault, ServerState, Remote, client, exec, panics}
use spraycc.Server.Loop.{new, Event, accepted, received, watchdog, handle_event, ok_to_shutdown}
use spraycc.Server.Dispatch.{update}
use spraycc.Server.Invariant.{Closed, IsValid, queued, runs}
use spraycc.Server.Safety.Events.{Allowed, handle_event-IsValid}
use spraycc.Server.Safety.Reach.{Reach, here, next, IsNew, Reach-IsValid, Reach-no_panic}
use spraycc.Server.Tests.Queue.{queue}
use spraycc.Server.State.{is_exec}
use spraycc.Server.Safety.Ensures.{Ensures}
use spraycc.Server.Safety.Guarantees.{Reach-work_conserving, Reach-distinct_clients, Reach-shutdown}
use spraycc.Server.Tests.Scenario.{
  good, start, after, submits, serves, state1, state2, state3, state4, state5, state6, state7,
  state8,
}

new_makes_start :
    new queue
      (λ code. "42")
      Config.default
      History.default
      0
      (record { addr = "host:1"; access_code = 42 })
      7
      none
      false
      false
    ≡ some start
unfolding new
new_makes_start = refl

abbrev pub start-IsNew : IsNew queue start
start-IsNew = record {
  no_remotes = refl;
  no_tasks = refl;
  no_execs = refl;
  none_running = refl;
  none_finished = refl;
}

pub Closed-none : (env : Env) (rs : List Remote) → Closed env rs []
Closed-none env rs = λ i r at_i gone held. ground arith

each_has_a_task :
    (Option.map (λ (r : Remote). r.paired_id) (get_elem? state8.remotes 2) ≡ some (some 1))
    × (Option.map (λ (r : Remote). r.paired_id) (get_elem? state8.remotes 3) ≡ some (some 0))
unfolding after spawn_execs History.get Maps.lookup Ipc.get_target_id handle_event
each_has_a_task = (refl, refl)

path1 : Reach queue start state1
unfolding after spawn_execs History.get Maps.lookup Ipc.get_target_id handle_event
path1 = next here good accepted (Closed-none good start.remotes) (omega arith) refl

path2 : Reach queue start state2
unfolding after spawn_execs History.get Maps.lookup Ipc.get_target_id handle_event
path2 =
    next path1 good (submits 0 "a.c") (Closed-none good state1.remotes)
      (_, refl, (refl, ("a.c", refl))) refl

pub path3 : Reach queue start state3
unfolding after spawn_execs History.get Maps.lookup Ipc.get_target_id handle_event
path3 = next path2 good accepted (Closed-none good state2.remotes) (omega arith) refl

path4 : Reach queue start state4
unfolding after spawn_execs History.get Maps.lookup Ipc.get_target_id handle_event
path4 =
    next path3 good (submits 1 "b.c") (Closed-none good state3.remotes)
      (_, refl, (refl, ("b.c", refl))) refl

path5 : Reach queue start state5
unfolding after spawn_execs History.get Maps.lookup Ipc.get_target_id handle_event
path5 = next path4 good accepted (Closed-none good state4.remotes) (omega arith) refl

pub path6 : Reach queue start state6
unfolding after spawn_execs History.get Maps.lookup Ipc.get_target_id handle_event
path6 = next path5 good (serves 2) (Closed-none good state5.remotes) (_, refl, refl) refl

path7 : Reach queue start state7
unfolding after spawn_execs History.get Maps.lookup Ipc.get_target_id handle_event
path7 = next path6 good accepted (Closed-none good state6.remotes) (omega arith) refl

path8 : Reach queue start state8
unfolding after spawn_execs History.get Maps.lookup Ipc.get_target_id handle_event
path8 = next path7 good (serves 3) (Closed-none good state7.remotes) (_, refl, refl) refl

-- Long after the last event, and with every channel closed.
abbrev pub later : Env
later = record good { idle_at = 100_000_000_000 }

abbrev silent : Env
silent = record good { accepts = λ i n. false }

Reach-IsValid_example : IsValid queue state8
Reach-IsValid_example = Reach-IsValid queue start start-IsNew path8

Reach-no_panic_example : panics (Fault.send_failed 2) ≡ false
unfolding after spawn_execs History.get Maps.lookup Ipc.get_target_id handle_event
Reach-no_panic_example =
    Reach-no_panic queue start start-IsNew path5 silent (serves 2)
      (Closed-none silent state5.remotes) (_, refl, refl) refl

Reach-work_conserving_example :
    (PriorityQueue.entries queue (state4.task_queue) ≡ []) ⊎ (state4.exec_queue ≡ [])
unfolding after spawn_execs History.get Maps.lookup Ipc.get_target_id handle_event update
Reach-work_conserving_example =
    Reach-work_conserving queue start start-IsNew path4 good (Closed-none good state4.remotes) refl

abbrev first_client : ℕ
first_client = 0

abbrev second_client : ℕ
second_client = 1

Reach-distinct_clients_example : second_client ≢ first_client
unfolding after spawn_execs History.get Maps.lookup Ipc.get_target_id handle_event
Reach-distinct_clients_example =
    Reach-distinct_clients queue start start-IsNew path8 2 3 second_client first_client _ _ refl
      refl refl refl refl refl (omega arith)

Reach-shutdown_example :
    (PriorityQueue.entries queue state1.task_queue ≡ []) × (total runs state1.remotes ≡ 0)
unfolding after spawn_execs History.get Maps.lookup Ipc.get_target_id handle_event ok_to_shutdown
Reach-shutdown_example = Reach-shutdown queue start start-IsNew path1 later refl

handle_event-IsValid_example : Ensures (IsValid queue) (handle_event queue good (serves 3) state7)
unfolding after spawn_execs History.get Maps.lookup Ipc.get_target_id handle_event
handle_event-IsValid_example =
    handle_event-IsValid queue good state7 (serves 3)
      (Reach-IsValid queue start start-IsNew path7, Closed-none good state7.remotes) (_, refl, refl)
