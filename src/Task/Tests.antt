-- ===== src/Task/Tests.antt =====
-- src/task.rs: a second output file of one name.
use spraycc.Base.{List, length, map, ok, ◌≡◌, refl, String, ◌<>◌, false, some, [], ◌∷◌}
use spraycc.Client.CommandLine.{file_name}
use spraycc.Task.Redirect.{Fresh, Rewritten, path_in, redirect_outputs_lem}
use spraycc.Task.{redirect_outputs, base_name, contains, generate_unique_file}
use spraycc.Task.Strokes.{show, show-Apart}
use spraycc.Task.Names.{generate_unique_file_lem}

generate_unique_file_lem_example :
    (name : String) × (generate_unique_file show "/tmp/d" ("x" ∷ []) "out/x"
      ≡ some ("/tmp/d" <> ("/" <> name), name ∷ "x" ∷ []))
    × (contains ("x" ∷ []) name ≡ false)
generate_unique_file_lem_example =
    generate_unique_file_lem show "/tmp/d" ("x" ∷ []) "out/x" show-Apart

second_x :
    generate_unique_file show "/tmp/d" ("x" ∷ []) "out/x" ≡ some ("/tmp/d/x.|", "x.|" ∷ "x" ∷ [])
unfolding generate_unique_file file_name
second_x = refl

-- What `Path::file_name` says of paths that end otherwise than in a name.
base_names :
    map base_name ("a" ∷ "b/a/" ∷ "a/." ∷ "a/.." ∷ "" ∷ "/" ∷ "../a" ∷ [])
    ≡ ("a" ∷ "a" ∷ "a" ∷ "unknown" ∷ "unknown" ∷ "unknown" ∷ "a" ∷ [])
unfolding base_name file_name
base_names = refl

abbrev args : List String
args = "gcc" ∷ "-o" ∷ "a/x" ∷ "-MF" ∷ "b/x" ∷ []

redirect_outputs_lem_example :
    (new_args names : List String) × (redirect_outputs show (some "/tmp/d") args (2 ∷ 4 ∷ [])
      ≡ ok (new_args, map (path_in "/tmp/d") names))
    × Rewritten args (2 ∷ 4 ∷ []) (map (path_in "/tmp/d") names) new_args
    × (length names ≡ 2)
    × Fresh [] names
redirect_outputs_lem_example = redirect_outputs_lem show "/tmp/d" args (2 ∷ 4 ∷ []) show-Apart refl

two_outputs :
    redirect_outputs show (some "/tmp/d") args (2 ∷ 4 ∷ [])
    ≡ ok ("gcc" ∷ "-o" ∷ "/tmp/d/x" ∷ "-MF" ∷ "/tmp/d/x.|" ∷ [], "/tmp/d/x" ∷ "/tmp/d/x.|" ∷ [])
unfolding redirect_outputs file_name
two_outputs = refl
