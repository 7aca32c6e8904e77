-- ===== src/Client/Run.antt =====
-- src/client.rs: `run`, from the command line to the exit code, and `run_local_task`.
pub mod Laws
use spraycc.Base.{
  ℕ, ℤ, negsuc, String, Bool, true, false, Option, none, some, List, [], ◌∷◌, Result, ok, err,
  or_fail, ◌>>=◌, if◌then◌else◌,
}
use spraycc.Base.Maps.{Map}
use spraycc.Ipc.{CallMe, TaskDetails, Message}
use spraycc.Config.Files.{Disk}
use spraycc.Config.Contact.{Toml, read_server_contact_info_from}
use spraycc.Config.PrivateKey.{load_user_private_key}
use spraycc.Client.CommandLine.{interpret_command_line, CommandError}
use spraycc.Client.Connect.{connect_w_retry, Attempts, connected, unable, still_trying}
use spraycc.Client.Output
use spraycc.Client.Output.{ClientFault, Host, Receiver, run_remote}

-- The host of a client: the crates `which`, `toml` and `home`, the process that a command becomes (`none`
-- is a spawn that fails, `some none` a wait that fails), the files that can be created, the contact
-- files, and the server: which attempts to connect reach it, and for the message that the client
-- sends whether it is taken and what comes back.
pub record ClientHost : Type 0 where
  pub which : String → Option String
  pub vars : List (String × String)
  pub cwd : Option String
  pub dirs : List String
  pub home_dir : Option String
  pub disk : Disk
  pub contact : Toml CallMe
  pub private_key : Toml ℕ
  pub spawn : String → List String → String → Option (Option (Option ℤ))
  pub creatable : String → Bool
  pub reaches : String → ℕ → Bool
  pub takes : Message → Bool
  pub replies : Message → List Message
  pub ends : Message → Bool

-- The panics of `run`, and what ends the talk with the server.
pub data RunFault : Type 0 where
  uninterpreted : CommandError → RunFault
  no_key no_command spawn_failed bad_slice no_server_configuration : RunFault
  talk : ClientFault → RunFault

abbrev pub from_command {ℓ} : {A : Type ℓ} → Result CommandError A → Result RunFault A
from_command (ok a) = ok a
from_command (err e) = err (uninterpreted e)

-- `task.args[1..]`
abbrev pub after_first : List String → Result RunFault (List String)
after_first [] = err bad_slice
after_first (arg ∷ args) = ok args

-- `Ok(status.status.code())`, and `Ok(None)` where the wait fails.
abbrev pub status_of : Option (Option ℤ) → Option ℤ
status_of none = none
status_of (some status) = status

unfoldable pub run_local_task : ClientHost → TaskDetails → Result RunFault (Option ℤ)
run_local_task c task = do
  cmd_path ← or_fail (c.which task.cmd) no_command
  args ← after_first task.args
  waited ← or_fail (c.spawn cmd_path args task.working_dir) spawn_failed
  ok (status_of waited)

abbrev pub from_talk : Result ClientFault (ℤ × Receiver) → Result RunFault (ℤ × Host)
from_talk (ok (code, r)) = ok (code, r.host)
from_talk (err e) = err (talk e)

-- The message with the task.
abbrev pub request : CallMe → ℕ → TaskDetails → Message
request callme user_private_key task = Message.task callme.access_code user_private_key task

-- The task goes to the server once it is reached; a server out of reach gives -1.
unfoldable pub run_connected :
    ClientHost → CallMe → ℕ → TaskDetails → Host → Attempts → Result RunFault (ℤ × Host)
unfolding run_remote
run_connected c callme key task host (connected n) =
    let msg = request callme key task in
    from_talk (run_remote c.creatable task (c.takes msg) (c.replies msg) (c.ends msg) host)
run_connected c callme key task host unable = ok (negsuc 0, host)
run_connected c callme key task host still_trying = err (talk ClientFault.connection_failed)

unfoldable pub run_on_server :
    ClientHost → ℕ → TaskDetails → Host → Option CallMe → Result RunFault (ℤ × Host)
unfolding run_connected connect_w_retry
run_on_server c key task host none = err no_server_configuration
run_on_server c key task host (some callme) =
    run_connected c callme key task host (connect_w_retry (c.reaches callme.addr))

unfoldable pub run_here : ClientHost → TaskDetails → Host → Result RunFault (ℤ × Host)
unfolding run_local_task
run_here c task host = do
  status ← run_local_task c task
  code ← or_fail status (talk ClientFault.no_status)
  ok (code, host)

-- `host` is what the process has written so far.
unfoldable pub run : ClientHost → List String → Host → Result RunFault (ℤ × Host)
unfolding interpret_command_line load_user_private_key run_here run_on_server
    read_server_contact_info_from
run c args host = do
  (run_local, task) ← from_command (interpret_command_line c.which c.vars c.cwd args)
  key ← or_fail (load_user_private_key c.private_key false c.home_dir 0 c.disk).1 no_key
  if run_local
      then run_here c task host
      else run_on_server c key task host (read_server_contact_info_from c.contact c.disk c.dirs)
