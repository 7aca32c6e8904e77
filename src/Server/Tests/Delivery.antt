-- ===== src/Server/Tests/Delivery.antt =====
-- src/server.rs: an executor that runs a task and goes on to the next, while others come and go.
use spraycc.Base.{ℕ, ◌≡◌, refl, arith, some, List, [], ◌∷◌, ◌++◌, get_elem?}
use mathlib.Core.Option
use spraycc.Base.Maps
use spraycc.Ipc
use spraycc.Ipc.{Message, OutputType}
use spraycc.History
use spraycc.Server.Start.{spawn_execs}
use spraycc.Server.State.{Item, Env, ServerState, Remote, client, exec}
use spraycc.Server.Loop.{Event, accepted, received, handle_event}
use spraycc.Server.Schedule.{Given}
use spraycc.Server.Schedule.Next.{Reach-Given}
use spraycc.Server.Invariant.{entries}
use spraycc.Server.Relay.Trace.{Trace, done, step, said_by}
use spraycc.Server.Relay.Delivery.{in_order, Reach-isolated, Reach-delivered}
use spraycc.Server.Tests.Queue.{queue}
use spraycc.Server.Tests.Scenario.{details, good, start, after, after_lem, state6}
use spraycc.Server.Tests.{start-IsNew, path6, Closed-none}

-- Executor 2 runs the task of client 1, and client 0 waits.
abbrev worker : Remote
worker = record {
  conn_type = exec;
  send_chan = Message.task 0 0 (details "b.c") ∷ [];
  paired_id = some 1;
}

abbrev served : Remote
served = record { conn_type = client; send_chan = []; paired_id = some 2 }

abbrev prints : ℕ → ℕ → Event
prints e byte = received e (Message.task_output OutputType.stdout (byte ∷ []))

abbrev final : Message
final = Message.task_failed "killed"

abbrev state7 : ServerState queue
state7 = after good (prints 2 1) state6

abbrev state8 : ServerState queue
state8 = after good accepted state7

abbrev state9 : ServerState queue
state9 = after good (prints 2 2) state8

abbrev state10 : ServerState queue
state10 = after good (received 2 final) state9

abbrev state11 : ServerState queue
state11 = after good (prints 2 9) state10

abbrev before : List (Env × Event)
before = (good, prints 2 1) ∷ (good, accepted) ∷ (good, prints 2 2) ∷ []

abbrev afterwards : List (Env × Event)
afterwards = (good, prints 2 9) ∷ []

-- The executor goes on to the task that waited.
goes_on : Option.map (λ (r : Remote). r.paired_id) (get_elem? state11.remotes 2) ≡ some (some 0)
unfolding after spawn_execs History.get Maps.lookup Ipc.get_target_id handle_event
goes_on = refl

abbrev serving : Remote
serving = record {
  conn_type = exec;
  send_chan = Message.task 0 0 (details "a.c") ∷ Message.task 0 0 (details "b.c") ∷ [];
  paired_id = some 0;
}

trace10 : Trace queue state10 ((good, prints 2 9) ∷ []) state11
unfolding after spawn_execs History.get Maps.lookup Ipc.get_target_id handle_event
trace10 =
    step {s = state10} {u = state11} good (prints 2 9) (Closed-none good state10.remotes)
      (serving, refl, (refl, (0, refl))) (after_lem good (prints 2 9) state10 refl) done

trace9 : Trace queue state9 ((good, received 2 final) ∷ (good, prints 2 9) ∷ []) state11
unfolding after spawn_execs History.get Maps.lookup Ipc.get_target_id handle_event
trace9 =
    step {s = state9} {u = state10} good (received 2 final) (Closed-none good state9.remotes)
      (worker, refl, (refl, (1, refl))) (after_lem good (received 2 final) state9 refl) trace10

trace8 :
    Trace queue state8
      ((good, prints 2 2) ∷ (good, received 2 final) ∷ (good, prints 2 9) ∷ [])
      state11
unfolding after spawn_execs History.get Maps.lookup Ipc.get_target_id handle_event
trace8 =
    step {s = state8} {u = state9} good (prints 2 2) (Closed-none good state8.remotes)
      (worker, refl, (refl, (1, refl))) (after_lem good (prints 2 2) state8 refl) trace9

trace7 :
    Trace queue state7
      ((good, accepted) ∷ (good, prints 2 2) ∷ (good, received 2 final) ∷ (good, prints 2 9) ∷ [])
      state11
unfolding after spawn_execs History.get Maps.lookup Ipc.get_target_id handle_event
trace7 =
    step {s = state7} {u = state8} good (accepted) (Closed-none good state7.remotes) (omega arith)
      (after_lem good (accepted) state7 refl) trace8

trace6 :
    Trace queue state6
      ((good, prints 2 1)
        ∷ (good, accepted)
        ∷ (good, prints 2 2)
        ∷ (good, received 2 final)
        ∷ (good, prints 2 9)
        ∷ [])
      state11
unfolding after spawn_execs History.get Maps.lookup Ipc.get_target_id handle_event
trace6 =
    step {s = state6} {u = state7} good (prints 2 1) (Closed-none good state6.remotes)
      (worker, refl, (refl, (1, refl))) (after_lem good (prints 2 1) state6 refl) trace7

Reach-delivered_example :
    (chan : List Message) × (get_elem? state11.remotes 1
      ≡ some (record served { send_chan = chan }))
    × (in_order chan ≡ (in_order [] ++ said_by 2 before ++ final ∷ []))
unfolding after spawn_execs History.get Maps.lookup Ipc.get_target_id handle_event
Reach-delivered_example =
    Reach-delivered queue start start-IsNew path6 2 1 worker served refl refl refl refl 1 before
      afterwards good final state11 refl refl (λ n. refl, (λ n. refl, (λ n. refl, tt))) (λ n. refl)
      refl refl trace6

abbrev waiter : Event
waiter = received 0 Message.dropped

abbrev left : ServerState queue
left = after good waiter state6

Reach-isolated_example :
    (get_elem? left.remotes 2 ≡ some worker) × (get_elem? left.remotes 1 ≡ some served)
unfolding after spawn_execs History.get Maps.lookup Ipc.get_target_id handle_event
Reach-isolated_example =
    Reach-isolated queue start start-IsNew path6 2 1 worker served refl refl refl refl good waiter
      left (_, refl, tt) refl refl refl

abbrev waiting : Item × ℕ
waiting = ((0, details "a.c"), 1_000_000_000)

abbrev ended : ServerState queue
ended = after good (received 2 final) state6

Reach-Given_example : Given queue ended 0 (details "a.c") 2 × (entries queue ended ≡ [])
unfolding after spawn_execs History.get Maps.lookup Ipc.get_target_id handle_event
Reach-Given_example =
    Reach-Given queue start start-IsNew path6 good 2 1 worker final waiting [] ended
      (Closed-none good state6.remotes) refl refl refl refl refl refl
      (after_lem good (received 2 final) state6 refl)
