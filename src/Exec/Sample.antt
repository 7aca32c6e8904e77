-- ===== src/Exec/Sample.antt =====
-- src/exec.rs: a task, and a host that runs it.
use spraycc.Base.{
  pos, true, false, Option, some, none, List, [], ◌∷◌, refl, sym, ap, ◌∙◌, ◌≡◌, arith, String,
  str_eq, get_elem?, if◌then◌else◌, Result, ok, err,
}
use spraycc.Ipc.{TaskDetails, Message}
use spraycc.Ipc.Framing.{bytes}
use spraycc.Task.Start.{line, Child, ExecHost}
use spraycc.Task.Strokes.{show, show-Apart}
use spraycc.Task.{TaskError, redirect_outputs}
use spraycc.Task.Redirect.{Rewritten}
use spraycc.Client.CommandLine.{file_name}
use spraycc.Exec.{Socket, World, Incoming, message, closed}
use spraycc.Exec.Sending.{Takes}
use spraycc.Exec.Tasks.{Starts, Readable, after_name}
use spraycc.Exec.Returns.{Runs, Serviceable}

abbrev pub details : TaskDetails
details = record {
  working_dir = "/src";
  cmd = "/usr/bin/gcc";
  args = "gcc" ∷ "-c" ∷ "-o" ∷ "a/x" ∷ [];
  output_args = 3 ∷ [];
  env = [];
  priority_task = false;
}

abbrev pub child : Child
child = record {
  stdout = line (1 ∷ []) ∷ [];
  stderr = line (2 ∷ []) ∷ line [] ∷ [];
  wait = some (some (pos 3));
  opened = λ path. if str_eq path "/tmp/d/x" then some (bytes (4 ∷ 5 ∷ []) ∷ []) else none;
}

-- The process of `details` starts only if it is told to write to the temporary file.
abbrev started_with : Option String → Option Child
started_with none = none
started_with (some arg) = if str_eq arg "/tmp/d/x" then some child else none

abbrev pub host : ExecHost
host = record {
  exists = λ path. true;
  hostname = "node1";
  show = show;
  tempdir = some "/tmp/d";
  temp_error = "";
  spawn = λ cwd cmd args env. started_with (get_elem? args 2);
}

abbrev pub world : World
world = record {
  host = host;
  schedule = true ∷ false ∷ true ∷ false ∷ true ∷ [];
  times = record { start_time = 10; task_finish = 30; send_finish = 35 };
}

abbrev pub socket : Socket
socket = record { sent = []; takes = λ n. true }

abbrev pub incoming : List Incoming
incoming = message world (Message.task 42 7 details) ∷ closed ∷ []

pub socket-Takes : Takes socket
socket-Takes n = refl

abbrev paths_of : Result TaskError (List String × List String) → List String
paths_of (ok (args, paths)) = paths
paths_of (err e) = []

redirected :
    redirect_outputs show (some "/tmp/d") details.args details.output_args
    ≡ ok ("gcc" ∷ "-c" ∷ "-o" ∷ "/tmp/d/x" ∷ [], "/tmp/d/x" ∷ [])
unfolding redirect_outputs file_name
redirected = refl

spawned :
    (new_args : List String)
    → Rewritten details.args details.output_args ("/tmp/d/x" ∷ []) new_args
    → host.spawn details.working_dir details.cmd (after_name new_args) details.env ≡ some child
spawned [] written = absurd (omega (arith, written.0))
spawned (name ∷ args) written =
    let at_2 : get_elem? args 2 ≡ some "/tmp/d/x" = written.1 3 in ap started_with at_2

pub details-Starts : Starts host details child
details-Starts = record {
  in_directory = refl;
  has_command = refl;
  dir = "/tmp/d";
  makes_dir = refl;
  prints_apart = show-Apart;
  named = omega arith;
  paths = "/tmp/d/x" ∷ [];
  makes_paths = λ new_args made h. sym (ap paths_of h) ∙ ap paths_of redirected;
  spawns = spawned;
  in_range = refl;
}

pub child-Readable : Readable child
child-Readable path = ground arith

pub details-Runs : Runs world details
details-Runs = record {
  child = child;
  status = some (pos 3);
  starts = details-Starts;
  exits = refl;
  readable = child-Readable;
  enough = omega arith;
}

pub incoming-Serviceable : Serviceable incoming
incoming-Serviceable = Serviceable.one_more world 42 7 details details-Runs (Serviceable.hung_up [])
