-- ===== src/Client/CommandLine.antt =====
-- src/client.rs: which commands go to the server, and which of their arguments name output files.
pub mod Laws
pub mod Targets
use Prim.Native.Char.{code}
use spraycc.Base.{
  ℕ, suc, ◌+◌, ◌-◌, ◌%◌, ◌^◌, String, ◌<>◌, str_eq, Bool, true, false, ◌&&◌, ◌||◌, not, Option,
  none, some, List, [], ◌∷◌, ◌++◌, Result, ok, err, or_fail, ◌>>=◌, ltb, ◌==◌, length,
  if◌then◌else◌,
}
use spraycc.Ipc.{TaskDetails}

abbrev pub is_compile : String → Bool
is_compile arg = str_eq arg "-c" || str_eq arg "-s" || str_eq arg "-e" || str_eq arg "-MD"

abbrev pub names_output : String → Bool
names_output arg = str_eq arg "-o" || str_eq arg "-MF"

abbrev pub is_dependency : String → Bool
is_dependency arg = str_eq arg "-M" || str_eq arg "-MM"

-- `keep_local`, `priority_task` and `output_idxs`.
pub record Gnu : Type 0 where
  pub keep_local : Bool
  pub priority_task : Bool
  pub output_idxs : List ℕ

-- `(idx + 1) as u16`
abbrev pub next_u16 : ℕ → ℕ
next_u16 idx = (idx + 1) % 2 ^ 16

-- The body of the loop; `len` is `args.len()`.
unfoldable pub gnu_step : ℕ → ℕ → String → Gnu → Gnu
gnu_step len idx arg g =
    if is_compile arg
    then record g { keep_local = false }
    else if ltb idx (len - 1) && names_output arg
    then record g { output_idxs = g.output_idxs ++ next_u16 idx ∷ [] }
    else if is_dependency arg
    then record g { keep_local = false; priority_task = true }
    else g

unfoldable pub gnu_scan : ℕ → ℕ → List String → Gnu → Gnu
unfolding gnu_step
gnu_scan len idx [] g = g
gnu_scan len idx (arg ∷ args) g = gnu_scan len (idx + 1) args (gnu_step len idx arg g)

abbrev pub tail : List String → List String
tail [] = []
tail (x ∷ xs) = xs

unfoldable pub handle_gnu : List String → Gnu
unfolding gnu_scan
handle_gnu args =
    gnu_scan (length args) 1 (tail args)
      (record { keep_local = true; priority_task = false; output_idxs = [] })

-- The last name of a path so far, behind one more component: `Path` passes over an empty component and
-- `.`, and `..` is no name.
abbrev behind : String → String → String
behind name component =
    if str_eq component "" || str_eq component "."
    then name
    else if str_eq component ".."
    then ""
    else component

last_component : String → String → String → String
last_component String.[] name component = behind name component
last_component (String.◌∷◌ c s) name component =
    let slash = code c == 47 in
    last_component s (if slash then behind name component else name)
      (if slash then "" else component <> String.◌∷◌ c String.[])

-- `Path::file_name`; "" stands for a path without one.
unfoldable pub file_name : String → String
unfolding last_component
file_name path = last_component path "" ""

unfoldable pub is_gnu : String → Bool
is_gnu cmd_name = str_eq cmd_name "gcc" || str_eq cmd_name "g++" || str_eq cmd_name "clang"

abbrev pub remote_by_default : Gnu
remote_by_default = record { keep_local = false; priority_task = false; output_idxs = [] }

unfoldable pub excluded : String → Bool
excluded name = str_eq name "PWD" || str_eq name "USERNAME" || str_eq name "USER"

unfoldable pub kept_vars : List (String × String) → List (String × String)
unfolding excluded
kept_vars [] = []
kept_vars ((name, value) ∷ vars) =
    if excluded name then kept_vars vars else (name, value) ∷ kept_vars vars

pub data CommandError : Type 0 where
  no_arguments command_not_found no_directory : CommandError

-- `which` finds a command's path (the crate of that name); `vars` and `cwd` are the environment
-- and the working directory of the process. `no_arguments` is the panic of `args[0]`.
module _ (which : String → Option String) (vars : List (String × String))
    (cwd : Option String) where
  unfoldable pub interpret_for : List String → String → Result CommandError (Bool × TaskDetails)
  unfolding handle_gnu file_name is_gnu kept_vars
  interpret_for args cmd = do
    let g = if is_gnu (file_name cmd) then handle_gnu args else remote_by_default
    dir ← or_fail cwd no_directory
    ok (
      g.keep_local,
      record {
        working_dir = dir;
        cmd = cmd;
        args = args;
        output_args = g.output_idxs;
        env = kept_vars vars;
        priority_task = g.priority_task;
      },
    )

  unfoldable pub interpret_command_line : List String → Result CommandError (Bool × TaskDetails)
  unfolding interpret_for
  interpret_command_line [] = err no_arguments
  interpret_command_line (name ∷ args) = do
    cmd ← or_fail (which name) command_not_found
    interpret_for (name ∷ args) cmd
