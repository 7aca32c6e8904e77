-- ===== src/Task.antt =====
-- src/task.rs: the unique names of the files that a task writes, in a temporary directory `dir`.
-- `show` prints a number. A name that is taken stands in a list.
pub mod Names
pub mod Redirect
pub mod Start
pub mod Strokes
mod Checks
mod Tests
use spraycc.Base.{
  ℕ, zero, suc, ◌+◌, String, ◌<>◌, str_eq, Bool, false, ◌||◌, Option, none, some, List, [], ◌∷◌,
  length, if◌then◌else◌, get_elem?, set, Result, ok, err, or_fail, ◌>>=◌,
}
use spraycc.Client.CommandLine.{file_name}

-- `taken_names.contains(&name)`
unfoldable pub contains : List String → String → Bool
contains [] name = false
contains (taken ∷ names) name = str_eq taken name || contains names name

-- "unknown" stands for a path without a file name.
unfoldable pub base_name : String → String
base_name path = if str_eq (file_name path) "" then "unknown" else file_name path

pub data TaskError : Type 0 where
  no_directory index_out_of_range out_of_fuel : TaskError

module _ (show : ℕ → String) where
  -- The name with a number behind it.
  abbrev pub numbered : String → ℕ → String
  numbered base idx = base <> ("." <> show idx)

  -- `while taken_names.contains(&unique_name)`; `none` when the fuel is used up.
  unfoldable pub unique_name : ℕ → List String → String → String → ℕ → Option String
  unfolding contains
  unique_name zero taken base name idx = none
  unique_name (suc fuel) taken base name idx =
      let rest = unique_name fuel taken base (numbered base idx) (idx + 1) in
      if contains taken name then rest else some name

  -- The path of the file, and the names that are taken after it. Two rounds more than there are
  -- names that are taken are enough.
  unfoldable pub generate_unique_file :
      String → List String → String → Option (String × List String)
  unfolding base_name unique_name
  generate_unique_file dir taken output_name =
      elim (unique_name (suc (suc (length taken))) taken (base_name output_name)
        (base_name output_name) 1) [
          | none ↦ none
          | some name ↦ some (dir <> ("/" <> name), name ∷ taken)
        ]

  -- The loop over the indices: the arguments after it, and the paths.
  unfoldable pub redirect :
      String → List String → List String → List ℕ → Result TaskError (List String × List String)
  unfolding generate_unique_file
  redirect dir taken args [] = ok (args, [])
  redirect dir taken args (i ∷ is) = do
    name ← or_fail (get_elem? args i) index_out_of_range
    (path, taken') ← or_fail (generate_unique_file dir taken name) out_of_fuel
    (args', paths) ← redirect dir taken' (set args i path) is
    ok (args', path ∷ paths)

  -- `tempdir` is what the crate tempfile makes, if it can.
  unfoldable pub redirect_outputs :
      Option String → List String → List ℕ → Result TaskError (List String × List String)
  unfolding redirect
  redirect_outputs tempdir args [] = ok (args, [])
  redirect_outputs tempdir args (i ∷ is) = do
    dir ← or_fail tempdir no_directory
    redirect dir [] args (i ∷ is)
