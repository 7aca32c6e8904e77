-- ===== src/Client/Checks.antt =====
-- src/client.rs: the test of the command line, as a function into Bool, and that it passes wherever g++ is
-- found and there is a working directory.
use spraycc.Base.{
  ◌≡◌, refl, String, Bool, true, false, ◌&&◌, not, Option, none, some, List, [], ◌∷◌, Result, ok,
  err, str_eq, get_elem?,
}
use spraycc.Ipc.{TaskDetails}
use spraycc.Client.CommandLine.{CommandError, interpret_command_line, handle_gnu, file_name}

abbrev is_first : String → Option String → Bool
is_first name none = false
is_first name (some arg) = str_eq arg name

abbrev checks : Result CommandError (Bool × TaskDetails) → Bool
checks (err e) = false
checks (ok (local, task)) = not local && is_first "g++" (get_elem? task.args 0)

unfoldable pub test_cmdline_handling :
    (String → Option String) → List (String × String) → Option String → Bool
unfolding interpret_command_line
test_cmdline_handling which vars cwd =
    checks
      (interpret_command_line which vars cwd ("g++" ∷ "test.cpp" ∷ "-c" ∷ "-o" ∷ "test.o" ∷ []))

test_cmdline_handling_lem :
    (which : String → Option String) (vars : List (String × String)) (dir : String)
    → which "g++" ≡ some "/usr/bin/g++"
    → test_cmdline_handling which vars (some dir) ≡ true
unfolding test_cmdline_handling interpret_command_line handle_gnu file_name
test_cmdline_handling_lem which vars dir found = rw found refl
