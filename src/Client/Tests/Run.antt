-- ===== src/Client/Tests/Run.antt =====
-- src/client.rs: a client whose third attempt reaches the server.
use spraycc.Base.{ℕ, pos, ◌<◌, ◌==◌, ◌⊎◌, String, Bool, true, false, none, some, List, [], ◌∷◌, ◌≡◌}
use spraycc.Ipc.{CallMe, TaskDetails, Message}
use spraycc.Config.Files.{Disk}
use spraycc.Client.Connect.{connect_w_retry, connected, unable, none_before, connect_w_retry_lem}
use spraycc.Client.Output.{Host}
use spraycc.Client.Run.{ClientHost}

abbrev third : ℕ → Bool
third n = n == 2

connect_w_retry_lem_example :
    ((n : ℕ) × (n < 6)
      × (third n ≡ true)
      × (none_before third n ≡ true)
      × (connect_w_retry third ≡ connected n))
    ⊎ ((none_before third 6 ≡ true) × (connect_w_retry third ≡ unable))
connect_w_retry_lem_example = connect_w_retry_lem third

abbrev callme : CallMe
callme = record { addr = "host:1"; access_code = 42 }

abbrev disk : Disk
disk = record {
  files = ("/src/.spraycc-server", 42 ∷ []) ∷ [];
  opens = λ path. true;
  reads = λ path. true;
  creates = λ path. false;
  writes = λ path. false;
}

abbrev client : ClientHost
client = record {
  which = λ name. some "/usr/bin/gcc";
  vars = [];
  cwd = some "/src";
  dirs = "src" ∷ [];
  home_dir = none;
  disk = disk;
  contact = record { to_string = λ c. none; from_str = λ text. some callme };
  private_key = record { to_string = λ key. none; from_str = λ text. none };
  spawn = λ cmd args dir. none;
  creatable = λ name. true;
  reaches = λ addr n. third n;
  takes = λ msg. true;
  replies = λ msg. Message.task_done (some (pos 0)) "t" 1 2 ∷ [];
  ends = λ msg. true;
}

abbrev args : List String
args = "gcc" ∷ "-c" ∷ "a.c" ∷ []

abbrev task : TaskDetails
task = record {
  working_dir = "/src";
  cmd = "/usr/bin/gcc";
  args = args;
  output_args = [];
  env = [];
  priority_task = false;
}

abbrev host : Host
host = record { files = []; out = []; errors = [] }
