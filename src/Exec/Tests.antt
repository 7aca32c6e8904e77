-- ===== src/Exec/Tests.antt =====
-- src/exec.rs: the theorems on a small task.
use spraycc.Base.{pos, String, true, some, List, [], ◌∷◌, ◌++◌, ◌≡◌, refl, arith, ok, length}
use spraycc.Ipc.{CallMe, Message, OutputType, get_target_id}
use spraycc.Client.CommandLine.{file_name}
use spraycc.Exec.{Socket, handle_new_task, run}
use spraycc.Exec.Sending.{add}
use spraycc.Exec.Tasks.{Faithful, done_message, handle_new_task_lem}
use spraycc.Exec.Protocol.{Replies, tasks_of, run-Replies}
use spraycc.Exec.Returns.{run_returns}
use spraycc.Exec.Sample.{
  details, child, world, socket, incoming, socket-Takes, details-Starts, child-Readable,
  incoming-Serviceable,
}

abbrev callme : CallMe
callme = record { addr = "host:1"; access_code = 42 }

handle_new_task_lem_example :
    (target : String) × (outs : List Message) × (get_target_id details ≡ some target)
    × (handle_new_task world details socket
        ≡ ok (add socket (outs ++ done_message world (some (pos 3)) target ∷ [])))
    × (length details-Starts.paths ≡ 1)
    × Faithful child details-Starts.paths outs
handle_new_task_lem_example =
    handle_new_task_lem world details child (some (pos 3)) socket socket-Takes details-Starts refl
      child-Readable (omega arith)

run_returns_example : (s : Socket) × (run callme 7 incoming (λ n. true) ≡ ok s)
run_returns_example = run_returns callme 7 incoming (λ n. true) (λ n. refl) incoming-Serviceable

abbrev replies : List Message
replies =
    Message.task_output OutputType.stdout (1 ∷ 10 ∷ [])
    ∷ Message.task_output OutputType.stderr (2 ∷ 10 ∷ [])
    ∷ Message.task_output OutputType.stderr (10 ∷ [])
    ∷ Message.task_output (OutputType.file 0) (4 ∷ 5 ∷ [])
    ∷ Message.task_done (some (pos 3)) "a/x" 20 5
    ∷ []

abbrev served : Socket
served = record { sent = Message.your_obedient_servant 42 7 ∷ replies; takes = λ n. true }

run_of_one : run callme 7 incoming (λ n. true) ≡ ok served
unfolding run get_target_id spraycc.Task.Start.start file_name
run_of_one = refl

run-Replies_example :
    (msgs : List Message) × (served.sent ≡ Message.your_obedient_servant 42 7 ∷ msgs)
    × Replies (tasks_of incoming) msgs
run-Replies_example = run-Replies callme 7 incoming (λ n. true) served run_of_one
