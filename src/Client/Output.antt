-- ===== src/Client/Output.antt =====
-- src/client.rs: the output of a task as the client receives it, from the messages of the server to
-- the files, the streams and the exit status. A write to a file or a stream succeeds here, except
-- that a file may not be there to be created.
pub mod Files
pub mod Writing
pub mod Receiving
pub mod Laws
use spraycc.Base.{
  ℕ, ℤ, negsuc, String, Bool, true, false, Option, none, some, List, [], ◌∷◌, ◌++◌, Result, ok, err,
  or_fail, ◌>>=◌, ◌>>◌, require, map, get_elem?, set, if◌then◌else◌,
}
use mathlib.Core.Option
use spraycc.Base.Maps
use spraycc.Base.Maps.{Map}
use spraycc.Ipc.{OutputType, TaskDetails, Message}

-- `LazyFile`: an open file stands for its name.
pub data LazyFile : Type 0 where
  file_name file : String → LazyFile
  none_left : LazyFile

-- How the client ends without a status: an error of the file system or the socket, or a panic.
pub data ClientFault : Type 0 where
  cannot_create connection_failed : ClientFault
  shutdown_file no_output_file index_out_of_range unhandled_message no_status : ClientFault

-- What the client's host holds: its files and the two streams, as the bytes written to them.
pub record Host : Type 0 where
  pub files : Map (List ℕ)
  pub out : List ℕ
  pub errors : List ℕ

-- The content of a file that is to be written to; none stands for nothing written.
abbrev pub content_of : Map (List ℕ) → String → List ℕ
content_of files name = elim (Maps.lookup name files) [ none ↦ [] | some bytes ↦ bytes ]

-- The output files and the host.
pub record Receiver : Type 0 where
  pub output_files : List LazyFile
  pub host : Host

module _ (creatable : String → Bool) where
  -- `as_file`: the file's name and the host, in which a file just opened is empty.
  unfoldable pub as_file : LazyFile → Host → Result ClientFault (String × Host)
  as_file (file_name name) host =
      if creatable name
      then ok (name, record host { files = Maps.insert name [] host.files })
      else err cannot_create
  as_file (file name) host = ok (name, host)
  as_file none_left host = err shutdown_file

  -- `output_files[idx].as_file().await?.write_all(&content).await?`
  unfoldable pub write_file : ℕ → List ℕ → Receiver → Result ClientFault Receiver
  unfolding as_file
  write_file idx content r = do
    lazy ← or_fail (get_elem? r.output_files idx) no_output_file
    (name, host) ← as_file lazy r.host
    ok (record {
      output_files = set r.output_files idx (file name);
      host = record host {
        files = Maps.insert name (content_of host.files name ++ content) host.files;
      };
    })

  unfoldable pub write_output : OutputType → List ℕ → Receiver → Result ClientFault Receiver
  unfolding write_file
  write_output OutputType.stdout content r =
      ok (record r { host = record r.host { out = r.host.out ++ content } })
  write_output OutputType.stderr content r =
      ok (record r { host = record r.host { errors = r.host.errors ++ content } })
  write_output (OutputType.file idx) content r = write_file idx content r

  -- The status, if the task is finished, and the receiver after the message.
  unfoldable pub handle_msg : Message → Receiver → Result ClientFault (Option ℤ × Receiver)
  unfolding write_output
  handle_msg (Message.task_output output_type content) r = do
    r' ← write_output output_type content r
    ok (none, r')
  handle_msg (Message.task_failed error_message) r = ok (some (negsuc 0), r)
  handle_msg (Message.task_done exit_code target run_time send_time) r = ok (exit_code, r)
  handle_msg _ r = err unhandled_message

  -- `while status.is_none()`, over what the connection gives: its messages, and then its end or
  -- an error. A status ends it at once, and what follows is not read.
  unfoldable pub wait_for_status :
      List Message → Bool → Receiver → Result ClientFault (Option ℤ × Receiver)
  unfolding handle_msg
  wait_for_status [] true r = ok (none, r)
  wait_for_status [] false r = err connection_failed
  wait_for_status (msg ∷ msgs) ends r = do
    (status, r') ← handle_msg msg r
    elim status [ none ↦ wait_for_status msgs ends r' | some code ↦ ok (some code, r') ]

-- `args[*idx as usize]` for each index; `none` is the panic of an index out of range.
unfoldable pub make_output_files : List String → List ℕ → Option (List LazyFile)
make_output_files args [] = some []
make_output_files args (i ∷ is) = elim (get_elem? args i) [
  | none ↦ none
  | some name ↦ Option.map (λ files. file_name name ∷ files) (make_output_files args is)
]

unfoldable pub shutdown : LazyFile → LazyFile
shutdown (file name) = none_left
shutdown lazy = lazy

-- The end of `run`: the files are shut down and the status is taken, which panics on none.
unfoldable pub finish_run : Option ℤ × Receiver → Result ClientFault (ℤ × Receiver)
unfolding shutdown
finish_run (none, r) = err no_status
finish_run (some code, r) = ok (code, record r { output_files = map shutdown r.output_files })

-- `run` for a task that is sent to the server. `sent` is whether the server took the message with
-- the task, and `msgs` and `ends` are what the connection gives.
unfoldable pub run_remote :
    (String → Bool)
    → TaskDetails
    → Bool
    → List Message
    → Bool
    → Host
    → Result ClientFault (ℤ × Receiver)
unfolding make_output_files wait_for_status finish_run
run_remote creatable task sent msgs ends host = do
  files ← or_fail (make_output_files task.args task.output_args) index_out_of_range
  require sent connection_failed
  waited ← wait_for_status creatable msgs ends (record { output_files = files; host = host })
  finish_run waited
