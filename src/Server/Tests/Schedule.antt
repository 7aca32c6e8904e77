-- ===== src/Server/Tests/Schedule.antt =====
-- src/server.rs: two tasks of different priorities that wait, and one executor that is idle.
use spraycc.Ipc.{Message}
use spraycc.Server.Start.{spawn_execs}
use spraycc.Server.Schedule.Release.{AllReleased, check_queues_lem}
use spraycc.Base.{
  zero, suc, false, arith, ◌⊎◌, count, ℕ, ◌+◌, ◌≡◌, refl, true, none, some, List, [], ◌∷◌,
  get_elem?, length, ok,
}
use spraycc.Server.Queue.{PriorityQueue}
use spraycc.Server.State.{Env, ServerState, Remote, client, exec, dead}
use spraycc.Server.Dispatch.{update, assign_tasks, check_queues, ok_to_release}
use spraycc.Server.Invariant.{Slots, Links, IsValid, entries}
use spraycc.Server.Schedule.Update.{Updated, update_lem}
use spraycc.Server.Tests.Queue.{queue}
use spraycc.Server.Tests.Scenario.{details, good, start}

abbrev idle : List ℕ
idle = 2 ∷ []

abbrev asks : Remote
asks = record { conn_type = client; send_chan = []; paired_id = none }

abbrev serves : Remote
serves = record { conn_type = exec; send_chan = []; paired_id = none }

abbrev two_wait : ServerState queue
two_wait = record start {
  remotes = asks ∷ asks ∷ serves ∷ [];
  task_queue =
      PriorityQueue.push queue
        (PriorityQueue.push queue (PriorityQueue.new queue) (0, details "a.c") 10)
        (1, details "b.c") 30;
  exec_queue = idle;
  running_exec_count = 1;
  submit_count = 2;
}

abbrev one_waits : ServerState queue
one_waits = record two_wait {
  pending_exec_count = 1;
  spawned = start.start_cmd ∷ [];
  remotes =
      asks
      ∷ record { conn_type = client; send_chan = []; paired_id = some 2 }
      ∷ record {
        conn_type = exec;
        send_chan = Message.task 0 0 (details "b.c") ∷ [];
        paired_id = some 1;
      }
      ∷ [];
  task_queue = (((0, details "a.c"), 10) ∷ [], refl);
  exec_queue = [];
}

two_wait-Slots : Slots two_wait.remotes (entries queue two_wait) idle
two_wait-Slots zero = (refl, refl)
two_wait-Slots (suc zero) = (refl, refl)
two_wait-Slots (suc (suc zero)) = (refl, refl)
two_wait-Slots (suc (suc (suc i))) = (ground arith, ground arith)

two_wait-Links : Links two_wait.remotes
two_wait-Links zero = tt
two_wait-Links (suc zero) = tt
two_wait-Links (suc (suc zero)) = tt
two_wait-Links (suc (suc (suc i))) = tt

two_wait-IsValid : IsValid queue two_wait
two_wait-IsValid = record {
  slots = two_wait-Slots;
  links = two_wait-Links;
  small = omega arith;
  executors = refl;
  tasks = omega arith;
}

update_lem_example : Updated queue two_wait.remotes (entries queue two_wait) idle one_waits
unfolding update spawn_execs
update_lem_example = update_lem queue good two_wait one_waits two_wait-IsValid refl

-- Long after the last task.
abbrev later : Env
later = record good { checked_at = 1_000_000_000_000 }

abbrev unused : ServerState queue
unused = record start {
  remotes = asks ∷ asks ∷ serves ∷ [];
  exec_queue = idle;
  running_exec_count = 1;
  last_submit_time = some 0;
}

abbrev let_go : ServerState queue
let_go = record unused {
  remotes =
      asks
      ∷ asks
      ∷ record { conn_type = dead; send_chan = Message.piss_off ∷ []; paired_id = none }
      ∷ [];
  exec_queue = [];
  running_exec_count = 0;
}

check_queues_lem_example :
    (u : ServerState queue) × (assign_tasks queue later idle unused ≡ ok u)
    × (((ok_to_release queue later u ≡ true)
          × AllReleased queue let_go u.exec_queue
          × (let_go.exec_queue ≡ [])
          × (0 + length u.exec_queue ≡ u.running_exec_count)
          × (let_go.task_queue ≡ u.task_queue)
          × ((j : ℕ)
              → count j u.exec_queue ≡ 0
              → get_elem? let_go.remotes j ≡ get_elem? u.remotes j))
        ⊎ ((ok_to_release queue later u ≡ false) × (let_go ≡ u)))
unfolding check_queues
check_queues_lem_example = check_queues_lem queue later unused let_go refl
