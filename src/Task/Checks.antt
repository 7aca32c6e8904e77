-- ===== src/Task/Checks.antt =====
-- src/task.rs: the test of unique names, as a function into Bool, with a way to print numbers.
use spraycc.Base.{ℕ, ◌≡◌, refl, String, Bool, true, false, ◌&&◌, not, none, some, [], str_eq}
use spraycc.Client.CommandLine.{file_name}
use spraycc.Task.Strokes.{show}
use spraycc.Task.{generate_unique_file, contains}

abbrev differ : String → String → Bool
differ a b = not (str_eq a b)

-- In the directory /tmp/d.
unfoldable pub task_unique_paths : (ℕ → String) → Bool
unfolding generate_unique_file
task_unique_paths show =
    let pipe_dir : String = "/tmp/d" in
    elim (generate_unique_file show pipe_dir [] "notunique") [
      | none ↦ false
      | some (path, taken_names) ↦
          elim (generate_unique_file show pipe_dir taken_names "notunique") [
            | none ↦ false
            | some (path2, taken_names2) ↦
                elim (generate_unique_file show pipe_dir taken_names2 "unique") [
                  | none ↦ false
                  | some (path3, taken_names3) ↦ differ path path2 && differ path path3
                ]
          ]
    ]

passes : task_unique_paths show ≡ true
unfolding task_unique_paths generate_unique_file contains file_name
passes = refl
