-- ===== src/Task/Redirect.antt =====
-- src/task.rs: the output files of a task have names of their own.
use spraycc.Base.{
  ℕ, ◌≡◌, refl, ap, ◌∙◌, String, ◌<>◌, true, false, some, List, [], ◌∷◌, map, set, length,
  length-set, all, ltb, ◌==◌, if◌then◌else◌, Option, get_elem?, get_elem?-set, arith, ok,
}
use spraycc.Ipc.Targets.{get_elem?-lt_length}
use spraycc.Task.{contains, redirect, redirect_outputs}
use spraycc.Task.Names.{Apart, generate_unique_file_lem}

-- No name is among those that are taken, nor among the names before it.
abbrev pub Fresh : List String → List String → Type 0
Fresh taken [] = Unit
Fresh taken (name ∷ names) = (contains taken name ≡ false) × Fresh (name ∷ taken) names

-- What stands at place `j` of the arguments once the paths are written: the path for the last index
-- that is `j`, and without one what stood there.
abbrev pub argument_at : ℕ → Option String → List ℕ → List String → Option String
argument_at j old [] paths = old
argument_at j old (i ∷ is) [] = old
argument_at j old (i ∷ is) (path ∷ paths) =
    argument_at j (if i == j then some path else old) is paths

-- The new arguments are the old ones with the paths at the indices.
abbrev pub Rewritten : List String → List ℕ → List String → List String → Type 0
Rewritten args is paths new_args =
    (length new_args ≡ length args)
    × ((j : ℕ) → get_elem? new_args j ≡ argument_at j (get_elem? args j) is paths)

abbrev pub path_in : String → String → String
path_in dir name = dir <> ("/" <> name)

module _ (show : ℕ → String) (dir : String) where
  -- A run of the loop that succeeds, with fresh names and as many arguments as before.
  record Redirected (taken args : List String) (is : List ℕ) : Type 0 where
    names : List String
    new_args : List String
    runs : redirect show dir taken args is ≡ ok (new_args, map (path_in dir) names)
    fresh : Fresh taken names
    one_each : length names ≡ length is
    written : Rewritten args is (map (path_in dir) names) new_args

  redirect_lem :
      (taken args : List String) (is : List ℕ)
      → Apart show
      → all (λ i. ltb i (length args)) is ≡ true
      → Redirected taken args is
  unfolding redirect
  redirect_lem taken args [] apart h = record {
    names = [];
    new_args = args;
    runs = refl;
    fresh = tt;
    one_each = refl;
    written = (refl, λ j. refl);
  }
  redirect_lem taken args (i ∷ is) apart h =
      let (old, at) = get_elem?-lt_length args i (ground (arith, h)) in
      let (name, found, free) = generate_unique_file_lem show dir taken old apart in
      let kept : length (set args i (path_in dir name)) ≡ length args =
        length-set args i (path_in dir name) in
      let rest =
        redirect_lem (name ∷ taken) (set args i (path_in dir name)) is apart
          (rw kept (ground (arith, h))) in
      record {
        names = name ∷ rest.names;
        new_args = rest.new_args;
        runs = rw (at, found, rest.runs, redirect);
        fresh = (free, rest.fresh);
        one_each = omega (arith, rest.one_each);
        written = (
          rest.written.0 ∙ kept,
          λ j.
              rest.written.1 j
              ∙ ap (λ o. argument_at j o is (map (path_in dir) rest.names))
                  (get_elem?-set args i j (path_in dir name) old at),
        );
      }

-- Where different numbers print differently, the temporary directory is made and every index is in
-- range, `redirect_outputs` returns one path in the directory for each index, whose names are pairwise
-- different, and the arguments with these paths written at the indices: as many as before, each the
-- path for the last index that is its place, and the one that stood there where no index is.
pub redirect_outputs_lem :
    (show : ℕ → String) (dir : String) (args : List String) (is : List ℕ)
    → Apart show
    → all (λ i. ltb i (length args)) is ≡ true
    → (new_args names : List String) × (redirect_outputs show (some dir) args is
        ≡ ok (new_args, map (path_in dir) names))
      × Rewritten args is (map (path_in dir) names) new_args
      × (length names ≡ length is)
      × Fresh [] names
unfolding redirect_outputs redirect
redirect_outputs_lem show dir args [] apart h = (args, [], refl, (refl, λ j. refl), refl, tt)
redirect_outputs_lem show dir args (i ∷ is) apart h =
    let r = redirect_lem show dir [] args (i ∷ is) apart h in
    (r.new_args, r.names, r.runs, r.written, r.one_each, r.fresh)
