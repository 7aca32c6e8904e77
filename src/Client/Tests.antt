-- ===== src/Client/Tests.antt =====
-- src/client.rs: a command of gcc, and the output of its task.
mod Run
use spraycc.Base.{
  pos, ◌≡◌, refl, String, true, false, not, some, none, List, [], ◌∷◌, ◌++◌, arith, ok,
}
use spraycc.Ipc.{TaskDetails, OutputType, Message}
use spraycc.Ipc.{get_target_id}
use spraycc.Client.Output.{LazyFile}
use spraycc.Client.CommandLine.Targets.{interpret_command_line_lem}
use spraycc.Client.CommandLine.{interpret_command_line, handle_gnu, is_dependency, tail}
use spraycc.Client.CommandLine.Laws.{any, has, goes_remote, is_output, handle_gnu_lem}
use spraycc.Client.Output.{Host, Receiver, file_name, make_output_files, run_remote}
use spraycc.Ipc.Outputs.{stdout_of, stderr_of}
use spraycc.Client.Output.Laws.{run_remote_lem, run_remote_files}
use spraycc.Ipc.Outputs.{file_after}
use spraycc.Base.Maps

abbrev args : List String
args = "g++" ∷ "test.cpp" ∷ "-c" ∷ "-o" ∷ "test.o" ∷ []

handle_gnu_lem_example :
    ((handle_gnu args).keep_local ≡ not (any goes_remote (tail args)))
    × ((handle_gnu args).priority_task ≡ any is_dependency (tail args))
    × (has 4 (handle_gnu args).output_idxs ≡ is_output args 4)
handle_gnu_lem_example = handle_gnu_lem args 4 (omega arith)

test_cmdline_handling : (handle_gnu args).output_idxs ≡ 4 ∷ []
unfolding handle_gnu
test_cmdline_handling = refl

abbrev task : TaskDetails
task = record {
  working_dir = "/src";
  cmd = "/usr/bin/g++";
  args = args;
  output_args = 4 ∷ [];
  env = [];
  priority_task = false;
}

abbrev host : Host
host = record { files = []; out = 1 ∷ []; errors = [] }

abbrev outputs : List Message
outputs =
    Message.task_output OutputType.stdout (2 ∷ 3 ∷ [])
    ∷ Message.task_output (OutputType.file 0) (4 ∷ [])
    ∷ Message.task_output OutputType.stderr (5 ∷ [])
    ∷ Message.task_output OutputType.stdout (6 ∷ [])
    ∷ []

run_remote_lem_example :
    (r : Receiver) × (run_remote
        (λ name. true)
        task
        true
        (outputs ++ Message.task_done (some (pos 3)) "test.o" 5 6 ∷ [])
        true
        host
      ≡ ok (pos 3, r))
    × (r.host.out ≡ (host.out ++ stdout_of outputs))
    × (r.host.errors ≡ (host.errors ++ stderr_of outputs))
unfolding make_output_files
run_remote_lem_example =
    run_remote_lem (λ name. true) task (file_name "test.o" ∷ []) outputs (some (pos 3)) "test.o" 5 6
      host refl refl refl

interpret_command_line_lem_example :
    ((target : String) × (get_target_id task ≡ some target))
    × ((files : List LazyFile) × (make_output_files task.args task.output_args ≡ some files))
unfolding interpret_command_line handle_gnu
interpret_command_line_lem_example =
    interpret_command_line_lem (λ name. some "/usr/bin/g++") (("USER", "me") ∷ []) (some "/src")
      args (false, task) (omega arith) refl

run_remote_files_example :
    (r : Receiver) × (run_remote
        (λ name. true)
        task
        true
        (outputs ++ Message.task_done (some (pos 3)) "test.o" 5 6 ∷ [])
        true
        host
      ≡ ok (pos 3, r))
    × (Maps.lookup "test.o" r.host.files
        ≡ Maps.or_else (file_after 0 outputs none) (Maps.lookup "test.o" host.files))
unfolding make_output_files
run_remote_files_example =
    run_remote_files (λ name. true) task ("test.o" ∷ []) outputs (pos 3) "test.o" 5 6 host 0
      "test.o" refl refl refl refl refl
