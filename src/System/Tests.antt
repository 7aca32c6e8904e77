-- ===== src/System/Tests.antt =====
-- src/client.rs, src/config.rs and src/exec.rs together: a command that is given below the directory of
-- the server.
mod Delivery
mod Admission
use spraycc.Base.{
  pos, String, true, false, Bool, ◌&&◌, some, none, List, [], ◌∷◌, ◌++◌, Result, ◌≡◌, refl, sym, ap,
  ◌∙◌, ok, err, length, ◌==◌,
}
use spraycc.Base.Maps
use spraycc.Ipc.{CallMe, Message, OutputType, get_target_id}
use spraycc.Config.Files.{Disk}
use spraycc.Config.Contact.{Toml, write_server_contact_info}
use spraycc.Config.PrivateKey.{load_user_private_key}
use spraycc.Exec.{Socket, ExecFault, handle_new_task}
use spraycc.Exec.Pumping.{text}
use spraycc.Exec.Files.{content_at, extended}
use spraycc.Exec.Sample.{
  details, child, world, socket, socket-Takes, details-Starts, child-Readable,
}
use spraycc.Client.CommandLine.{interpret_command_line, file_name}
use spraycc.Client.Output.{Host, make_output_files}
use spraycc.Client.Run.{ClientHost, run}
use spraycc.System.Run.{Relayed, run-handle_new_task}

abbrev callme : CallMe
callme = record { addr = "host:1"; access_code = 42 }

abbrev before : Disk
before = record {
  files = ("/home/me/.spraycc.private", 8 ∷ []) ∷ [];
  opens = λ path. true;
  reads = λ path. true;
  creates = λ path. true;
  writes = λ path. true;
}

abbrev contact : Toml CallMe
contact = record { to_string = λ c. some (1 ∷ []); from_str = λ bytes. some callme }

abbrev replies : List Message
replies =
    Message.task_output OutputType.stdout (1 ∷ 10 ∷ [])
    ∷ Message.task_output OutputType.stderr (2 ∷ 10 ∷ [])
    ∷ Message.task_output OutputType.stderr (10 ∷ [])
    ∷ Message.task_output (OutputType.file 0) (4 ∷ 5 ∷ [])
    ∷ Message.task_done (some (pos 3)) "a/x" 20 5
    ∷ []

-- The server takes a task with its access code and the user's key.
abbrev for_server : Message → Bool
for_server (Message.task access_code user_code task) = access_code == 42 && user_code == 7
for_server _ = false

abbrev client : ClientHost
client = record {
  which = λ name. some "/usr/bin/gcc";
  vars = [];
  cwd = some "/src";
  dirs = "lib" ∷ "src" ∷ [];
  home_dir = some "/home/me";
  disk = (write_server_contact_info contact ("src" ∷ []) callme before).0;
  contact = contact;
  private_key = record { to_string = λ key. none; from_str = λ bytes. some 7 };
  spawn = λ cmd args dir. none;
  creatable = λ name. true;
  reaches = λ addr n. n == 2;
  takes = for_server;
  replies = λ msg. replies;
  ends = λ msg. true;
}

abbrev host : Host
host = record { files = []; out = 9 ∷ []; errors = [] }

abbrev sent_of : Result ExecFault Socket → List Message
sent_of (ok s) = s.sent
sent_of (err e) = []

handled : sent_of (handle_new_task world details socket) ≡ replies
unfolding handle_new_task get_target_id spraycc.Task.Start.start file_name
handled = refl

pub has_key :
    (load_user_private_key client.private_key false client.home_dir 0 client.disk).1 ≡ some 7
unfolding load_user_private_key Maps.lookup Maps.insert
    spraycc.Config.Contact.write_server_contact_info
has_key = refl
