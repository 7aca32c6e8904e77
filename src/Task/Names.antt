-- ===== src/Task/Names.antt =====
-- src/task.rs: the search for a name that is not taken ends, with one.
use spraycc.Base.{
  ℕ, zero, suc, ◌+◌, ◌≤◌, ◌<◌, ◌≡◌, ◌≢◌, refl, String, ◌<>◌, str_eq, eq_iff, true, false, some,
  List, [], ◌∷◌, length, arith, Bool-cases, inl, inr, if◌then◌else◌,
}
use text.Mathlib.TextLemmas.{append_cancel_left}
use spraycc.Task.{contains, base_name, numbered, unique_name, generate_unique_file}

-- A list without one name.
remove : String → List String → List String
remove name [] = []
remove name (x ∷ xs) = if str_eq x name then remove name xs else x ∷ remove name xs

length-remove_le : (name : String) (xs : List String) → length (remove name xs) ≤ length xs
unfolding remove
length-remove_le name [] = omega arith
length-remove_le name (x ∷ xs) = ground (arith, length-remove_le name xs)

length-remove :
    (name : String) (xs : List String)
    → contains xs name ≡ true
    → length (remove name xs) < length xs
unfolding remove contains
length-remove name [] h = ground arith
length-remove name (x ∷ xs) h = ground (arith, length-remove name xs, length-remove_le name xs)

contains-remove :
    (name other : String) (xs : List String)
    → name ≢ other
    → contains xs other ≡ true
    → contains (remove name xs) other ≡ true
unfolding remove contains
contains-remove name other [] ne h = ground arith
contains-remove name other (x ∷ xs) ne h =
    ground (arith, eq_iff x name, eq_iff x other, contains-remove name other xs ne)

-- Different numbers print differently.
abbrev pub Apart : (ℕ → String) → Type 0
Apart show = (i j : ℕ) → show i ≡ show j → i ≡ j

module _ (show : ℕ → String) (base : String) where
  numbered-Apart : Apart show → (i j : ℕ) → numbered show base i ≡ numbered show base j → i ≡ j
  numbered-Apart apart i j e =
      apart i j (append_cancel_left "." (show i) (show j) (append_cancel_left base _ _ e))

  -- `left` holds what is taken of the names to come.
  search_ends :
      (taken left : List String) (fuel idx : ℕ)
      → Apart show
      → length left < fuel
      → ((j : ℕ)
          → idx ≤ j
          → contains taken (numbered show base j) ≡ true
          → contains left (numbered show base j) ≡ true)
      → (name : String) × (unique_name show fuel taken base (numbered show base idx) (idx + 1)
          ≡ some name)
        × (contains taken name ≡ false)
  unfolding unique_name
  search_ends taken left zero idx apart small held = ground arith
  search_ends taken left (suc fuel) idx apart small held =
      elim (Bool-cases (contains taken (numbered show base idx))) [
        | inr free ↦ (numbered show base idx, rw free refl, free)
        | inl full ↦
            let (name, found, free) =
              search_ends taken (remove (numbered show base idx) left) fuel (idx + 1) apart
                (omega (
                  arith,
                  small,
                  length-remove (numbered show base idx) left (held idx (omega arith) full),
                ))
                (λ j later e.
                  contains-remove (numbered show base idx) (numbered show base j) left
                    (λ same. ground (arith, numbered-Apart apart idx j same, later))
                    (held j (omega (arith, later)) e)) in
            (name, rw full found, free)
      ]

  first_or_search :
      (taken : List String)
      → Apart show
      → (name : String) × (unique_name show (suc (suc (length taken))) taken base base 1
          ≡ some name)
        × (contains taken name ≡ false)
  unfolding unique_name
  first_or_search taken apart = elim (Bool-cases (contains taken base)) [
    | inr free ↦ (base, rw free refl, free)
    | inl full ↦
        let (name, found, free) =
          search_ends taken taken (suc (length taken)) 1 apart (omega arith) (λ j later e. e) in
        (name, rw full found, free)
  ]

-- Where different numbers print differently, `generate_unique_file` returns: the path in the directory
-- of a name that was not taken, and that name as taken beside the others.
pub generate_unique_file_lem :
    (show : ℕ → String) (dir : String) (taken : List String) (output_name : String)
    → Apart show
    → (name : String) × (generate_unique_file show dir taken output_name
        ≡ some (dir <> ("/" <> name), name ∷ taken))
      × (contains taken name ≡ false)
unfolding generate_unique_file
generate_unique_file_lem show dir taken output_name apart =
    let (name, found, free) = first_or_search show (base_name output_name) taken apart in
    (name, rw (found, generate_unique_file), free)
