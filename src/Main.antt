-- ===== src/Main.antt =====
-- src/main.rs: the command line of spraycc and its exit code. What clap makes of the arguments is
-- the data type `Matches`. The servers, executors and clients that `main` starts are parameters here.
pub mod Laws
mod Tests
use Prim.Native.String.{count}
use spraycc.Base.{
  ℕ, ℤ, pos, negsuc, String, ◌<>◌, Bool, true, false, ◌&&◌, not, Option, none, some, List, [], ◌∷◌,
  Result, ok, err, or_fail, require, ◌>>=◌, ◌>>◌, ltb, if◌then◌else◌, IoError,
}
use spraycc.Ipc.{CallMe}
use spraycc.Config.Files.{Disk, write_text}
use spraycc.Config.Contact.{Toml}
use spraycc.Config.PrivateKey.{load_user_private_key}
use spraycc.Config.Limits.{Limits, setup_process_file_limit}

-- The subcommand and its arguments.
pub data Matches : Type 0 where
  server : Option String → Bool → Bool → Bool → Matches
  exec : Option String → Option String → Matches
  run : Option (List String) → Matches
  fakecc : Option (List String) → Bool → Matches
  last init : Matches

-- What the program changes: the files, and its limits on open files.
pub record Process : Type 0 where
  pub disk : Disk
  pub limits : Option Limits

-- How the program ends.
pub data Ending : Type 0 where
  exit : ℤ → Ending
  panic : Ending

-- The result of a part of the program; `none` is a panic.
abbrev pub Returned : Type 0 → Type 0
Returned A = Option (Result (Unit {0}) A)

-- `str::parse` and `as_bytes`, the crates, and the parts that `main` starts. The server takes the
-- number of CPUs, the flags for the two start commands and the one for more output.
pub record Program : Type 0 where
  pub parse_cpus : String → Option ℕ
  pub parse_code : String → Option ℕ
  pub parse_addr : String → Option String
  pub as_bytes : String → List ℕ
  pub private_key : Toml ℕ
  pub home_dir : Option String
  pub random : ℕ
  pub accepts_limit : ℕ → Bool
  pub run_server : Option ℕ → Bool → Bool → Bool → Process → Process × Returned (Unit {0})
  pub run_exec : CallMe → Process → Process × Returned (Unit {0})
  pub run_client : List String → Process → Process × Returned ℤ

-- The end of `main`.
abbrev pub finish : Process × Returned (Unit {0}) → Process × Ending
finish (proc, none) = (proc, panic)
finish (proc, some (ok u)) = (proc, exit (pos 0))
finish (proc, some (err e)) = (proc, exit (pos 1))

-- `none` is the panic on an invalid `--cpus`.
unfoldable pub cpus_of : (String → Option ℕ) → Option String → Option (Option ℕ)
cpus_of parse none = some none
cpus_of parse (some text) = elim (parse text) [
  | none ↦ none
  | some v ↦ if ltb 0 v then some (some v) else none
]

-- `both_queues` wins over `alt_start_cmd`.
unfoldable pub start_server : Program → Option ℕ → Bool → Bool → Bool → Process → Process × Ending
start_server p max_cpus alt both verbose proc =
    finish (p.run_server max_cpus (alt && not both) both verbose proc)

-- The exit code of a command that was run for the user.
abbrev pub finish_client : Process × Returned ℤ → Process × Ending
finish_client (proc, none) = (proc, panic)
finish_client (proc, some (err e)) = (proc, exit (pos 1))
finish_client (proc, some (ok (pos code))) = (proc, exit (pos code))
finish_client (proc, some (ok (negsuc n))) = (proc, exit (negsuc 0))

-- The files of `fakecc`; `none` is the panic of `unwrap`.
unfoldable pub write_all : (String → List ℕ) → List String → Disk → Disk × Bool
unfolding write_text
write_all as_bytes [] disk = (disk, true)
write_all as_bytes (output ∷ outputs) disk =
    let (disk', wrote) = write_text output (as_bytes output) disk in
    let rest = write_all as_bytes outputs disk' in
    elim wrote [ ok u ↦ rest | err e ↦ (disk', false) ]

abbrev pub finish_fakecc : Bool → Process → Disk × Bool → Process × Ending
finish_fakecc fail proc (disk, false) = (record proc { disk = disk }, panic)
finish_fakecc fail proc (disk, true) =
    if fail
    then (record proc { disk = disk }, panic)
    else (record proc { disk = disk }, exit (pos 0))

-- The key is made if it is not there; its value is not used. Then the limits are set up.
abbrev pub finish_init : Program → Process → Disk × Option ℕ → Process × Ending
finish_init p proc (disk, none) = (record proc { disk = disk }, panic)
finish_init p proc (disk, some key) = (
  record { disk = disk; limits = (setup_process_file_limit true p.accepts_limit proc.limits).0 },
  exit (pos 0),
)

unfoldable pub initialize_environment : Program → Process → Process × Ending
unfolding load_user_private_key setup_process_file_limit
initialize_environment p proc =
    finish_init p proc (load_user_private_key p.private_key true p.home_dir p.random proc.disk)

-- The code is read before the address.
unfoldable pub start_exec : Program → String → String → Process → Process × Ending
start_exec p addr_text code_text proc = elim (p.parse_code code_text) [
  | none ↦ (proc, panic)
  | some code ↦ elim (p.parse_addr addr_text) [
    | none ↦ (proc, panic)
    | some addr ↦ finish (p.run_exec (record { addr = addr; access_code = code }) proc)
  ]
]

-- `unreachable!()` is a panic, and so is a missing argument.
unfoldable pub main : Program → Matches → Process → Process × Ending
unfolding cpus_of start_server start_exec write_all initialize_environment
main p (server cpus alt both verbose) proc = elim (cpus_of p.parse_cpus cpus) [
  | none ↦ (proc, panic)
  | some max_cpus ↦ start_server p max_cpus alt both verbose proc
]
main p (exec (some addr) (some code)) proc = start_exec p addr code proc
main p (exec _ _) proc = (proc, panic)
main p (run (some args)) proc = finish_client (p.run_client args proc)
main p (run none) proc = (proc, panic)
main p (fakecc (some outputs) fail) proc =
    finish_fakecc fail proc (write_all p.as_bytes outputs proc.disk)
main p (fakecc none fail) proc = (proc, panic)
main p init proc = initialize_environment p proc
main p last proc = (proc, panic)
