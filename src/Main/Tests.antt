-- ===== src/Main/Tests.antt =====
-- src/main.rs: a client that fails, a server with both start commands and a first `init`.
use spraycc.Base.{ℕ, pos, Bool, true, false, ◌&&◌, Option, none, some, List, [], ◌∷◌, ok, ◌≡◌, ◌⊎◌}
use spraycc.Config.Files.{Disk}
use spraycc.Config.Contact.{Toml}
use spraycc.Config.Limits.{Limits}
use spraycc.Main.{Process, Program, panic, main, server, finish}
use spraycc.Main.Laws.{Invalid, Given, main-server_lem}

abbrev parsed_key : List ℕ → Option ℕ
parsed_key (key ∷ []) = some key
parsed_key _ = none

abbrev key_toml : Toml ℕ
key_toml = record { to_string = λ key. some (key ∷ []); from_str = parsed_key }

abbrev disk : Disk
disk = record {
  files = [];
  opens = λ path. true;
  reads = λ path. true;
  creates = λ path. true;
  writes = λ path. true;
}

abbrev limits : Limits
limits = record { soft_limit = 1024; hard_limit = 3000 }

abbrev proc : Process
proc = record { disk = disk; limits = some limits }

-- A client that always fails.
abbrev program : Program
program = record {
  parse_cpus = λ text. some 3;
  parse_code = λ text. some 7;
  parse_addr = λ text. some text;
  as_bytes = λ text. [];
  private_key = key_toml;
  home_dir = some "/home/me";
  random = 9;
  accepts_limit = λ n. true;
  run_server = λ cpus alt both verbose proc. (proc, some (ok tt));
  run_exec = λ callme proc. (proc, some (ok tt));
  run_client = λ args proc. (proc, some (ok (pos 2)));
}

main-server_lem_example :
    (Invalid program.parse_cpus (some "3")
      × (main program (server (some "3") true true false) proc ≡ (proc, panic)))
    ⊎ ((max_cpus : Option ℕ) × (alt' : Bool) × (main program
            (server (some "3") true true false)
            proc
          ≡ finish (program.run_server max_cpus alt' true false proc))
        × Given program.parse_cpus (some "3") max_cpus
        × (alt' ≡ false)
        × (alt' && true ≡ false))
main-server_lem_example = main-server_lem program (some "3") true true false proc
