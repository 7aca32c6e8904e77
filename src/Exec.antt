-- ===== src/Exec.antt =====
-- src/exec.rs: the executor. Its connection is the messages that it has sent, oldest first, and which
-- of them the socket takes, by their number.
pub mod Sending
pub mod Pumping
pub mod Files
pub mod Tasks
pub mod Emitting
pub mod Protocol
pub mod Returns
pub mod Sample
mod Tests
use spraycc.Base.{
  ℕ, ◌+◌, ◌-◌, ℤ, String, Bool, true, false, ◌&&◌, ◌||◌, not, Option, none, some, List, [], ◌∷◌,
  ◌++◌, Result, ok, err, or_fail, require, ◌>>=◌, ◌>>◌, length, if◌then◌else◌,
}
use spraycc.Ipc.{CallMe, OutputType, TaskDetails, Message, get_target_id}
use spraycc.Ipc.Framing.{Read, bytes, failure}
use spraycc.Task.Start.{
  Line, line, unreadable, Child, ExecHost, StartFault, failed, spawn_failed, bad_index,
  search_ran_on, start,
}

pub record Socket : Type 0 where
  pub sent : List Message
  pub takes : ℕ → Bool

-- An error that `?` hands on, a panic, or a loop that goes on when its schedule is used up.
pub data ExecFault : Type 0 where
  write_failed read_failed wait_failed : ExecFault
  no_target task_panicked cancel_unimplemented unexpected_message : ExecFault
  still_running : ExecFault

unfoldable pub write : Message → Socket → Result ExecFault Socket
write msg s = do
  require (s.takes (length s.sent)) write_failed
  ok (record s { sent = s.sent ++ msg ∷ [] })

-- The variables of the loop in `run_task`.
pub record Pump : Type 0 where
  pub stdout_done : Bool
  pub stderr_done : Bool
  pub stdout : List Line
  pub stderr : List Line
  pub socket : Socket

-- One result of `stdout_reader.next_line()`; `line.push('\n')`.
unfoldable pub on_stdout : List Line → Pump → Result ExecFault Pump
unfolding write
on_stdout [] p = ok (record p { stdout_done = true })
on_stdout (line bs ∷ rest) p = do
  s ← write (Message.task_output OutputType.stdout (bs ++ 10 ∷ [])) p.socket
  ok (record p { stdout = rest; socket = s })
on_stdout (unreadable ∷ rest) p = ok (record p { stdout_done = true; stdout = rest })

unfoldable pub on_stderr : List Line → Pump → Result ExecFault Pump
unfolding write
on_stderr [] p = ok (record p { stderr_done = true })
on_stderr (line bs ∷ rest) p = do
  s ← write (Message.task_output OutputType.stderr (bs ++ 10 ∷ [])) p.socket
  ok (record p { stderr = rest; socket = s })
on_stderr (unreadable ∷ rest) p = ok (record p { stderr_done = true; stderr = rest })

-- `select!` takes a branch that is ready, and never one whose precondition fails. The schedule says
-- which of the two it prefers.
unfoldable pub select : Bool → Pump → Result ExecFault Pump
unfolding on_stdout on_stderr
select first p =
    if (first && not p.stdout_done) || p.stderr_done
    then on_stdout p.stdout p
    else on_stderr p.stderr p

-- `while !stdout_done || !stderr_done`
unfoldable pub pump : List Bool → Pump → Result ExecFault Socket
unfolding select
pump [] p = if p.stdout_done && p.stderr_done then ok p.socket else err still_running
pump (first ∷ schedule) p = elim (p.stdout_done && p.stderr_done) [
  | true ↦ ok p.socket
  | false ↦ do p' ← select first p; pump schedule p'
]

-- The loop of `send_output_file` over the reads of the file.
unfoldable pub send_reads : OutputType → List Read → Socket → Result ExecFault Socket
unfolding write
send_reads output_type [] s = ok s
send_reads output_type (bytes [] ∷ reads) s = ok s
send_reads output_type (bytes (b ∷ bs) ∷ reads) s = do
  s' ← write (Message.task_output output_type (b ∷ bs)) s
  send_reads output_type reads s'
send_reads output_type (failure ∷ reads) s = err read_failed

unfoldable pub send_output_file : OutputType → Option (List Read) → Socket → Result ExecFault Socket
unfolding send_reads
send_output_file output_type none s = ok s
send_output_file output_type (some reads) s = send_reads output_type reads s

-- `for (idx, generated_file) in task.output_files.iter().enumerate()`, from `idx` on.
unfoldable pub send_files :
    (String → Option (List Read)) → ℕ → List String → Socket → Result ExecFault Socket
unfolding send_output_file
send_files opened idx [] s = ok s
send_files opened idx (path ∷ paths) s = do
  s' ← send_output_file (OutputType.file idx) (opened path) s
  send_files opened (idx + 1) paths s'

-- The readings of the clock: when the task starts, when it is done and when its files are sent.
pub record Times : Type 0 where
  pub start_time : ℕ
  pub task_finish : ℕ
  pub send_finish : ℕ

-- What a task takes from outside.
pub record World : Type 0 where
  pub host : ExecHost
  pub schedule : List Bool
  pub times : Times

unfoldable pub run_task : World → Child → List String → String → Socket → Result ExecFault Socket
unfolding pump send_files write
run_task w child output_files target_id s = do
  s₁ ← pump w.schedule (record {
    stdout_done = false;
    stderr_done = false;
    stdout = child.stdout;
    stderr = child.stderr;
    socket = s;
  })
  status ← or_fail child.wait wait_failed
  s₂ ← send_files child.opened 0 output_files s₁
  write
      (Message.task_done status target_id (w.times.task_finish - w.times.start_time)
        (w.times.send_finish - w.times.task_finish))
      s₂

-- `match Task::start(…)`
unfoldable pub after_start :
    World → String → Result StartFault (Child × List String) → Socket → Result ExecFault Socket
unfolding run_task write
after_start w target_id (ok (child, output_files)) s = run_task w child output_files target_id s
after_start w target_id (err (failed error_message)) s = write (Message.task_failed error_message) s
after_start w target_id (err _) s = err task_panicked

unfoldable pub handle_new_task : World → TaskDetails → Socket → Result ExecFault Socket
unfolding after_start start
handle_new_task w details s = do
  target_id ← or_fail (get_target_id details) no_target
  after_start w target_id
      (start w.host details.working_dir details.cmd details.args details.output_args details.env) s

-- What a read of the connection gives.
pub data Incoming : Type 0 where
  message : World → Message → Incoming
  closed read_error : Incoming

-- The loop of `run`, over the reads to come.
unfoldable pub serve : List Incoming → Socket → Result ExecFault Socket
unfolding handle_new_task
serve [] s = err still_running
serve (message w (Message.task access_code user_code details) ∷ rest) s = do
  s' ← handle_new_task w details s
  serve rest s'
serve (message w Message.cancel_task ∷ rest) s = err cancel_unimplemented
serve (message w Message.piss_off ∷ rest) s = ok s
serve (message w _ ∷ rest) s = err unexpected_message
serve (closed ∷ rest) s = ok s
serve (read_error ∷ rest) s = err read_failed

-- `run`, on a connection that stands.
unfoldable pub run : CallMe → ℕ → List Incoming → (ℕ → Bool) → Result ExecFault Socket
unfolding serve write
run callme user_private_key incoming takes = do
  s ←
      write (Message.your_obedient_servant callme.access_code user_private_key)
        (record { sent = []; takes = takes })
  serve incoming s
