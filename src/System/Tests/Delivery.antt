-- ===== src/System/Tests/Delivery.antt =====
-- src/client.rs, src/server.rs and src/exec.rs together: the command as client 1 of a server.
use spraycc.Base.{
  pos, some, none, List, [], ◌∷◌, ◌++◌, ◌≡◌, refl, sym, ap, ◌∙◌, arith, get_elem?, Option,
}
use spraycc.Base.Maps
use spraycc.History
use spraycc.Ipc
use spraycc.Ipc.{TaskDetails, Message, OutputType, get_target_id}
use spraycc.Server.Safety.Reach.{Reach, next}
use spraycc.Exec.{handle_new_task}
use spraycc.Exec.Sample.{details, world, socket}
use spraycc.Server.Start.{spawn_execs}
use spraycc.Server.State.{Env, ServerState, Remote, client as a_client, exec}
use spraycc.Server.Loop.{Event, accepted, received, handle_event}
use spraycc.Server.Relay.Trace.{Trace, done, step, said_by}
use spraycc.Server.Tests.{start-IsNew, path3, Closed-none}
use spraycc.Server.Tests.Queue.{queue}
use spraycc.Server.Tests.Scenario
use spraycc.Server.Tests.Scenario.{good, start, after, after_lem, serves, state3}
use spraycc.Server.Relay.Delivery.{in_order}
use spraycc.System.Delivery.{Carried, Connected}
use spraycc.System.Tests.{callme, client, replies, sent_of, handled}

-- Client 1 submits its task, and executor 2 comes for it.
abbrev asks : Event
asks = received 1 (Message.task 42 7 details)

abbrev state4 : ServerState queue
state4 = after good asks state3

abbrev state5 : ServerState queue
state5 = after good accepted state4

abbrev state6 : ServerState queue
state6 = after good (serves 2) state5

path6 : Reach queue start state6
unfolding after spawn_execs History.get Maps.lookup Ipc.get_target_id handle_event
path6 =
    next
      (next
        (next path3 good asks (Closed-none good state3.remotes) (_, refl, (refl, ("a/x", refl)))
          refl)
        good accepted (Closed-none good state4.remotes) (omega arith) refl)
      good (serves 2) (Closed-none good state5.remotes) (_, refl, refl) refl

abbrev worker : Remote
worker = record { conn_type = exec; send_chan = Message.task 0 0 details ∷ []; paired_id = some 1 }

abbrev serving : Remote
serving = record {
  conn_type = exec;
  send_chan = Message.task 0 0 (Scenario.details "a.c") ∷ Message.task 0 0 details ∷ [];
  paired_id = some 0;
}

abbrev waiting : Remote
waiting = record { conn_type = a_client; send_chan = []; paired_id = some 2 }

abbrev says : Message → Event
says msg = received 2 msg

abbrev final : Message
final = Message.task_done (some (pos 3)) "a/x" 20 5

abbrev state7 : ServerState queue
state7 = after good (says (Message.task_output OutputType.stdout (1 ∷ 10 ∷ []))) state6

abbrev state8 : ServerState queue
state8 = after good (accepted) state7

abbrev state9 : ServerState queue
state9 = after good (says (Message.task_output OutputType.stderr (2 ∷ 10 ∷ []))) state8

abbrev state10 : ServerState queue
state10 = after good (says (Message.task_output OutputType.stderr (10 ∷ []))) state9

abbrev state11 : ServerState queue
state11 = after good (says (Message.task_output (OutputType.file 0) (4 ∷ 5 ∷ []))) state10

abbrev state12 : ServerState queue
state12 = after good (says final) state11

abbrev state13 : ServerState queue
state13 = after good (says (Message.task_output OutputType.stdout (9 ∷ []))) state12

abbrev before : List (Env × Event)
before =
    (good, says (Message.task_output OutputType.stdout (1 ∷ 10 ∷ [])))
    ∷ (good, accepted)
    ∷ (good, says (Message.task_output OutputType.stderr (2 ∷ 10 ∷ [])))
    ∷ (good, says (Message.task_output OutputType.stderr (10 ∷ [])))
    ∷ (good, says (Message.task_output (OutputType.file 0) (4 ∷ 5 ∷ [])))
    ∷ []

abbrev afterwards : List (Env × Event)
afterwards = (good, says (Message.task_output OutputType.stdout (9 ∷ []))) ∷ []

trace12 :
    Trace queue state12 ((good, says (Message.task_output OutputType.stdout (9 ∷ []))) ∷ []) state13
unfolding after spawn_execs History.get Maps.lookup Ipc.get_target_id handle_event
trace12 =
    step {s = state12} {u = state13} good (says (Message.task_output OutputType.stdout (9 ∷ [])))
      (Closed-none good state12.remotes) (serving, refl, (refl, (0, refl)))
      (after_lem good (says (Message.task_output OutputType.stdout (9 ∷ []))) state12 refl) done

trace11 :
    Trace queue state11
      ((good, says final) ∷ (good, says (Message.task_output OutputType.stdout (9 ∷ []))) ∷ [])
      state13
unfolding after spawn_execs History.get Maps.lookup Ipc.get_target_id handle_event
trace11 =
    step {s = state11} {u = state12} good (says final) (Closed-none good state11.remotes)
      (worker, refl, (refl, (1, refl))) (after_lem good (says final) state11 refl) trace12

trace10 :
    Trace queue state10
      ((good, says (Message.task_output (OutputType.file 0) (4 ∷ 5 ∷ [])))
        ∷ (good, says final)
        ∷ (good, says (Message.task_output OutputType.stdout (9 ∷ [])))
        ∷ [])
      state13
unfolding after spawn_execs History.get Maps.lookup Ipc.get_target_id handle_event
trace10 =
    step {s = state10} {u = state11} good
      (says (Message.task_output (OutputType.file 0) (4 ∷ 5 ∷ [])))
      (Closed-none good state10.remotes) (worker, refl, (refl, (1, refl)))
      (after_lem good (says (Message.task_output (OutputType.file 0) (4 ∷ 5 ∷ []))) state10 refl)
      trace11

trace9 :
    Trace queue state9
      ((good, says (Message.task_output OutputType.stderr (10 ∷ [])))
        ∷ (good, says (Message.task_output (OutputType.file 0) (4 ∷ 5 ∷ [])))
        ∷ (good, says final)
        ∷ (good, says (Message.task_output OutputType.stdout (9 ∷ [])))
        ∷ [])
      state13
unfolding after spawn_execs History.get Maps.lookup Ipc.get_target_id handle_event
trace9 =
    step {s = state9} {u = state10} good (says (Message.task_output OutputType.stderr (10 ∷ [])))
      (Closed-none good state9.remotes) (worker, refl, (refl, (1, refl)))
      (after_lem good (says (Message.task_output OutputType.stderr (10 ∷ []))) state9 refl) trace10

trace8 :
    Trace queue state8
      ((good, says (Message.task_output OutputType.stderr (2 ∷ 10 ∷ [])))
        ∷ (good, says (Message.task_output OutputType.stderr (10 ∷ [])))
        ∷ (good, says (Message.task_output (OutputType.file 0) (4 ∷ 5 ∷ [])))
        ∷ (good, says final)
        ∷ (good, says (Message.task_output OutputType.stdout (9 ∷ [])))
        ∷ [])
      state13
unfolding after spawn_execs History.get Maps.lookup Ipc.get_target_id handle_event
trace8 =
    step {s = state8} {u = state9} good (says (Message.task_output OutputType.stderr (2 ∷ 10 ∷ [])))
      (Closed-none good state8.remotes) (worker, refl, (refl, (1, refl)))
      (after_lem good (says (Message.task_output OutputType.stderr (2 ∷ 10 ∷ []))) state8 refl)
      trace9

trace7 :
    Trace queue state7
      ((good, accepted)
        ∷ (good, says (Message.task_output OutputType.stderr (2 ∷ 10 ∷ [])))
        ∷ (good, says (Message.task_output OutputType.stderr (10 ∷ [])))
        ∷ (good, says (Message.task_output (OutputType.file 0) (4 ∷ 5 ∷ [])))
        ∷ (good, says final)
        ∷ (good, says (Message.task_output OutputType.stdout (9 ∷ [])))
        ∷ [])
      state13
unfolding after spawn_execs History.get Maps.lookup Ipc.get_target_id handle_event
trace7 =
    step {s = state7} {u = state8} good (accepted) (Closed-none good state7.remotes) (omega arith)
      (after_lem good (accepted) state7 refl) trace8

trace6 :
    Trace queue state6
      ((good, says (Message.task_output OutputType.stdout (1 ∷ 10 ∷ [])))
        ∷ (good, accepted)
        ∷ (good, says (Message.task_output OutputType.stderr (2 ∷ 10 ∷ [])))
        ∷ (good, says (Message.task_output OutputType.stderr (10 ∷ [])))
        ∷ (good, says (Message.task_output (OutputType.file 0) (4 ∷ 5 ∷ [])))
        ∷ (good, says final)
        ∷ (good, says (Message.task_output OutputType.stdout (9 ∷ [])))
        ∷ [])
      state13
unfolding after spawn_execs History.get Maps.lookup Ipc.get_target_id handle_event
trace6 =
    step {s = state6} {u = state7} good (says (Message.task_output OutputType.stdout (1 ∷ 10 ∷ [])))
      (Closed-none good state6.remotes) (worker, refl, (refl, (1, refl)))
      (after_lem good (says (Message.task_output OutputType.stdout (1 ∷ 10 ∷ []))) state6 refl)
      trace7

carried : Carried queue 2 1 state6 state13 before afterwards good final
unfolding after spawn_execs History.get Maps.lookup Ipc.get_target_id handle_event
carried = record {
  start = start;
  fresh = start-IsNew;
  reached = path6;
  executor = worker;
  client = waiting;
  at_e = refl;
  runs = refl;
  runs_task = refl;
  at_k = refl;
  connected = refl;
  nothing_sent = refl;
  trace = trace6;
  quiet_before = refl;
  quiet_after = refl;
  takes_before = (λ n. refl, (λ n. refl, (λ n. refl, (λ n. refl, (λ n. refl, tt)))));
  takes_final = λ n. refl;
}

abbrev chan_of : Option Remote → List Message
chan_of none = []
chan_of (some r) = r.send_chan

at_end : in_order (chan_of (get_elem? state13.remotes 1)) ≡ replies
unfolding after spawn_execs History.get Maps.lookup Ipc.get_target_id handle_event
at_end = refl

abbrev task_of : List Message → TaskDetails
task_of (Message.task access_code user_code task ∷ msgs) = task
task_of _ = details

connected :
    Connected queue 1 state13 worker
      (said_by 2 before ++ final ∷ [])
      client
      callme
      7
      world
      details
      socket
connected = record {
  taken = refl;
  ended = refl;
  earlier = [];
  task_sent = refl;
  from_executor = λ given others msgs sent h.
      let same : details ≡ given = ap task_of sent in
      sym handled ∙ ap (λ task. sent_of (handle_new_task world task socket)) same ∙ ap sent_of h;
  to_client = λ r at_k. sym at_end ∙ ap (λ o. in_order (chan_of o)) at_k;
}
