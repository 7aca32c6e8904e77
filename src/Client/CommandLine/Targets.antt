-- ===== src/Client/CommandLine/Targets.antt =====
-- src/client.rs: the task that a command line makes has a target, and its output files have names.
use spraycc.Base.{
  ℕ, ◌≤◌, ◌^◌, ◌≡◌, refl, sym, ap, ◌∙◌, String, Bool, true, false, Option, some, List, [], ◌∷◌,
  Result, ok, err, or_fail, >>=-eq-ok, length, all, ltb, arith, if◌then◌else◌,
}
use spraycc.Ipc.{TaskDetails, get_target_id}
use spraycc.Ipc.Targets.{get_elem?-lt_length, get_target_id_lem}
use spraycc.Client.CommandLine.{
  handle_gnu, is_gnu, file_name, remote_by_default, CommandError, no_directory, command_not_found,
  interpret_for, interpret_command_line,
}
use spraycc.Client.CommandLine.Laws.{has, handle_gnu_outputs}
use spraycc.Client.Output.{LazyFile, file_name as lazy_name, make_output_files}

all-has : (p : ℕ → Bool) (xs : List ℕ) → ((j : ℕ) → has j xs ≡ true → p j ≡ true) → all p xs ≡ true
all-has p [] h = refl
all-has p (x ∷ xs) h =
    ground (arith, h x (ground arith), all-has p xs (λ j e. h j (ground (arith, e))))

handle_gnu_in_range :
    (args : List String)
    → length args ≤ 2 ^ 16
    → all (λ i. ltb i (length args)) (handle_gnu args).output_idxs ≡ true
handle_gnu_in_range args small =
    all-has (λ i. ltb i (length args)) (handle_gnu args).output_idxs
      (λ j e. ground (arith, handle_gnu_outputs args small j, e))

make_output_files_lem :
    (args : List String) (is : List ℕ)
    → all (λ i. ltb i (length args)) is ≡ true
    → (files : List LazyFile) × (make_output_files args is ≡ some files)
unfolding make_output_files
make_output_files_lem args [] h = ([], refl)
make_output_files_lem args (i ∷ is) h =
    let (x, at) = get_elem?-lt_length args i (ground (arith, h)) in
    let (files, found) = make_output_files_lem args is (ground (arith, h)) in
    (lazy_name x ∷ files, rw (at, found, make_output_files))

-- The output indices are indices of arguments.
abbrev pub InRange : TaskDetails → Type 0
InRange task = all (λ i. ltb i (length task.args)) task.output_args ≡ true

abbrev checks : TaskDetails → Bool
checks task = all (λ i. ltb i (length task.args)) task.output_args

chosen_in_range :
    (gnu : Bool) (args : List String)
    → length args ≤ 2 ^ 16
    → all
        (λ i. ltb i (length args))
        (if gnu then handle_gnu args else remote_by_default).output_idxs
      ≡ true
chosen_in_range true args small = handle_gnu_in_range args small
chosen_in_range false args small = refl

module _ (which : String → Option String) (vars : List (String × String))
    (cwd : Option String) where
  interpret_for-InRange :
      (args : List String) (cmd : String) (r : Bool × TaskDetails)
      → length args ≤ 2 ^ 16
      → interpret_for which vars cwd args cmd ≡ ok r
      → InRange r.1
  unfolding interpret_for
  interpret_for-InRange args cmd r small e =
      let (dir, found, e') = >>=-eq-ok (or_fail cwd no_directory) _ e in
      ap
        (λ (m : Result CommandError (Bool × TaskDetails)). elim m [
          | ok t ↦ checks t.1
          | err fault ↦ false
        ])
        (sym e')
      ∙ chosen_in_range (is_gnu (file_name cmd)) args small

  interpret-InRange :
      (args : List String) (r : Bool × TaskDetails)
      → length args ≤ 2 ^ 16
      → interpret_command_line which vars cwd args ≡ ok r
      → InRange r.1
  unfolding interpret_command_line
  interpret-InRange [] r small e = cc
  interpret-InRange (name ∷ args) r small e =
      let (cmd, found, e') = >>=-eq-ok (or_fail (which name) command_not_found) _ e in
      interpret_for-InRange (name ∷ args) cmd r small e'

  -- A command line of at most 2^16 arguments that is understood makes a task with a target, and
  -- every output file of the task has a name: neither `get_target_id` nor `make_output_files`
  -- panics on it.
  pub interpret_command_line_lem :
      (args : List String) (r : Bool × TaskDetails)
      → length args ≤ 2 ^ 16
      → interpret_command_line which vars cwd args ≡ ok r
      → ((target : String) × (get_target_id r.1 ≡ some target))
        × ((files : List LazyFile) × (make_output_files r.1.args r.1.output_args ≡ some files))
  interpret_command_line_lem args r small e =
      let range = interpret-InRange args r small e in
      (get_target_id_lem r.1 range, make_output_files_lem r.1.args r.1.output_args range)
