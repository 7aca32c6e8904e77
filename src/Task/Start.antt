-- ===== src/Task/Start.antt =====
-- src/task.rs: `Task::start`. The host of an executor is what the code asks of it: which paths exist,
-- the directory that the crate tempfile makes, and what a process does once it is started.
use spraycc.Base.{
  ℕ, ℤ, String, ◌<>◌, Bool, Option, List, [], ◌∷◌, Result, ok, err, or_fail, require, ◌>>=◌, ◌>>◌,
}
use spraycc.Ipc.Framing.{Read}
use spraycc.Task.{TaskError, no_directory, index_out_of_range, out_of_fuel, redirect_outputs}

-- What one call of `next_line` gives: a line without its end, or an error. The end of the stream is
-- the end of the list.
pub data Line : Type 0 where
  line : List ℕ → Line
  unreadable : Line

-- A process: the lines that it writes, what `wait` returns (`none` is an error), and the reads of
-- each file that it leaves (`none` is a file that does not open).
pub record Child : Type 0 where
  pub stdout : List Line
  pub stderr : List Line
  pub wait : Option (Option ℤ)
  pub opened : String → Option (List Read)

pub record ExecHost : Type 0 where
  pub exists : String → Bool
  pub hostname : String
  pub show : ℕ → String
  pub tempdir : Option String
  pub temp_error : String
  pub spawn : String → String → List String → List (String × String) → Option Child

-- `failed` is the error that `start` returns; the others are panics.
pub data StartFault : Type 0 where
  failed : String → StartFault
  spawn_failed bad_index search_ran_on : StartFault

-- `e` is the text of the error of the crate tempfile.
unfoldable pub fault_of : String → TaskError → StartFault
fault_of e no_directory =
    failed ("Fatal error: unable to create temporary working directory: " <> e)
fault_of e index_out_of_range = bad_index
fault_of e out_of_fuel = search_ran_on

unfoldable pub redirected :
    String
    → Result TaskError (List String × List String)
    → Result StartFault (List String × List String)
unfolding fault_of
redirected e (ok r) = ok r
redirected e (err fault) = err (fault_of e fault)

-- `start_task`: `args[1..]` panics on no arguments.
unfoldable pub start_task :
    ExecHost → String → String → List String → List (String × String) → Result StartFault Child
start_task host dir cmd [] env = err bad_index
start_task host dir cmd (name ∷ args) env = or_fail (host.spawn dir cmd args env) spawn_failed

-- The process, and the paths that it writes in place of the output files.
unfoldable pub start :
    ExecHost
    → String
    → String
    → List String
    → List ℕ
    → List (String × String)
    → Result StartFault (Child × List String)
unfolding redirected redirect_outputs start_task
start host cwd cmd args output_args env = do
  require (host.exists cwd)
      (failed ("Execution directory " <> (cwd <> (" does not exist on host " <> host.hostname))))
  require (host.exists cmd)
      (failed ("Command " <> (cmd <> (" does not exist on host " <> host.hostname))))
  (args', output_files) ←
      redirected host.temp_error (redirect_outputs host.show host.tempdir args output_args)
  child ← start_task host cwd cmd args' env
  ok (child, output_files)
