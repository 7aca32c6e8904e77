-- ===== src/Client/CommandLine/Laws.antt =====
-- What `handle_gnu` finds, and that the task it describes has a target.
use spraycc.Base.{
  ℕ, suc, ◌+◌, ◌-◌, ◌^◌, ◌≤◌, ◌<◌, ◌≡◌, refl, ◌∙◌, sym, ap, String, str_eq, eq_iff, Bool, true,
  false, ◌&&◌, ◌||◌, not, none, some, List, [], ◌∷◌, ◌++◌, arith, ltb, ◌==◌, length, get_elem?,
  if◌then◌else◌,
}
use spraycc.Client.CommandLine.{
  Gnu, is_compile, names_output, is_dependency, next_u16, gnu_step, gnu_scan, tail, handle_gnu,
}

abbrev pub any : (String → Bool) → List String → Bool
any p [] = false
any p (x ∷ xs) = p x || any p xs

abbrev pub has : ℕ → List ℕ → Bool
has i [] = false
has i (j ∷ js) = i == j || has i js

abbrev pub goes_remote : String → Bool
goes_remote arg = is_compile arg || is_dependency arg

both : (arg x y : String) → str_eq x y ≡ false → (str_eq arg x && str_eq arg y) ≡ false
both arg x y h = ground (arith, eq_iff arg x, eq_iff arg y, eq_iff x y)

compile_dependency : (arg : String) → (is_compile arg && is_dependency arg) ≡ false
compile_dependency arg = ground (
  arith,
  both arg "-c" "-M" refl,
  both arg "-c" "-MM" refl,
  both arg "-s" "-M" refl,
  both arg "-s" "-MM" refl,
  both arg "-e" "-M" refl,
  both arg "-e" "-MM" refl,
  both arg "-MD" "-M" refl,
  both arg "-MD" "-MM" refl,
)

output_dependency : (arg : String) → (names_output arg && is_dependency arg) ≡ false
output_dependency arg = ground (
  arith,
  both arg "-o" "-M" refl,
  both arg "-o" "-MM" refl,
  both arg "-MF" "-M" refl,
  both arg "-MF" "-MM" refl,
)

compile_output : (arg : String) → (is_compile arg && names_output arg) ≡ false
compile_output arg = ground (
  arith,
  both arg "-c" "-o" refl,
  both arg "-c" "-MF" refl,
  both arg "-s" "-o" refl,
  both arg "-s" "-MF" refl,
  both arg "-e" "-o" refl,
  both arg "-e" "-MF" refl,
  both arg "-MD" "-o" refl,
  both arg "-MD" "-MF" refl,
)

scan_flags :
    (len idx : ℕ) (args : List String) (g : Gnu)
    → ((gnu_scan len idx args g).keep_local ≡ (g.keep_local && not (any goes_remote args)))
      × ((gnu_scan len idx args g).priority_task ≡ (g.priority_task || any is_dependency args))
unfolding gnu_scan
scan_flags len idx [] g = ground arith
scan_flags len idx (arg ∷ args) g = ground (
  arith,
  scan_flags len (idx + 1) args (gnu_step len idx arg g),
  compile_dependency arg,
  output_dependency arg,
  compile_output arg,
)

-- Whether the argument at an index is a flag that names an output file.
abbrev pub flag_at : List String → ℕ → Bool
flag_at args i = elim (get_elem? args i) [ none ↦ false | some arg ↦ names_output arg ]

or_assoc : (a b c : Bool) → ((a || b) || c) ≡ (a || (b || c))
or_assoc true b c = refl
or_assoc false b c = refl

has-append : (j y : ℕ) (xs : List ℕ) → has j (xs ++ y ∷ []) ≡ (has j xs || j == y)
has-append j y [] = ground arith
has-append j y (x ∷ xs) = ground (arith, has-append j y xs)

-- What the scan from `idx` on adds to the indices.
marked : ℕ → ℕ → List String → ℕ → Bool
marked len idx [] j = false
marked len idx (arg ∷ args) j =
    (j == idx + 1 && (ltb idx (len - 1) && names_output arg)) || marked len (idx + 1) args j

indices_with :
    (c n d : Bool) (len idx : ℕ) (g : Gnu) (j : ℕ)
    → (c && n) ≡ false
    → idx < len
    → len ≤ 2 ^ 16
    → has j
        (if c
          then record g { keep_local = false }
          else if ltb idx (len - 1) && n
          then record g { output_idxs = g.output_idxs ++ next_u16 idx ∷ [] }
          else if d
          then record g { keep_local = false; priority_task = true }
          else g).output_idxs
      ≡ (has j g.output_idxs || (j == idx + 1 && (ltb idx (len - 1) && n)))
indices_with c n d len idx g j apart within small =
    ground (arith, has-append j (next_u16 idx) g.output_idxs)

scan_marks :
    (len idx : ℕ) (args : List String) (g : Gnu) (j : ℕ)
    → idx + length args ≡ len
    → len ≤ 2 ^ 16
    → has j (gnu_scan len idx args g).output_idxs ≡ (has j g.output_idxs || marked len idx args j)
unfolding gnu_scan marked gnu_step
scan_marks len idx [] g j h small = ground arith
scan_marks len idx (arg ∷ args) g j h small =
    scan_marks len (idx + 1) args (gnu_step len idx arg g) j (omega (arith, h)) small
    ∙ ap (λ b. b || marked len (idx + 1) args j)
        (indices_with (is_compile arg) (names_output arg) (is_dependency arg) len idx g j
          (compile_output arg) (omega (arith, h)) small)
    ∙ or_assoc (has j g.output_idxs) _ (marked len (idx + 1) args j)

flag_at_head :
    (arg : String) (args : List String) (i : ℕ) → i ≡ 0 → flag_at (arg ∷ args) i ≡ names_output arg
flag_at_head arg args i h = rw h refl

flag_at_next :
    (arg : String) (args : List String) (i j : ℕ)
    → i ≡ suc j
    → flag_at (arg ∷ args) i ≡ flag_at args j
flag_at_next arg args i j h = rw h refl

place :
    (len idx j : ℕ) (n here later rest : Bool)
    → idx < len
    → (j ≡ idx + 1 → here ≡ n)
    → (idx + 1 < j → here ≡ later)
    → rest ≡ (ltb (idx + 1) j && (ltb j len && later))
    → ((j == idx + 1 && (ltb idx (len - 1) && n)) || rest) ≡ (ltb idx j && (ltb j len && here))
place len idx j n here later rest within first next h = ground arith

marked_flag :
    (len idx : ℕ) (args : List String) (j : ℕ)
    → idx + length args ≡ len
    → marked len idx args j ≡ (ltb idx j && (ltb j len && flag_at args (j - 1 - idx)))
unfolding marked
marked_flag len idx [] j h = ground arith
marked_flag len idx (arg ∷ args) j h =
    place len idx j (names_output arg) (flag_at (arg ∷ args) (j - 1 - idx))
      (flag_at args (j - 1 - (idx + 1))) (marked len (idx + 1) args j) (omega (arith, h))
      (λ e. flag_at_head arg args (j - 1 - idx) (omega (arith, e)))
      (λ l. flag_at_next arg args (j - 1 - idx) (j - 1 - (idx + 1)) (omega (arith, l)))
      (marked_flag len (idx + 1) args j (omega (arith, h)))

-- Whether `handle_gnu` is to list index `j`: the argument before it is `-o` or `-MF`, and neither
-- is the command's name.
abbrev pub is_output : List String → ℕ → Bool
is_output args j = ltb 1 j && (ltb j (length args) && flag_at args (j - 1))

replace_flag :
    (j len : ℕ) (here there : Bool)
    → (1 < j → there ≡ here)
    → (ltb 1 j && (ltb j len && there)) ≡ (ltb 1 j && (ltb j len && here))
replace_flag j len here there h = ground arith

pub handle_gnu_outputs :
    (args : List String)
    → length args ≤ 2 ^ 16
    → (j : ℕ) → has j (handle_gnu args).output_idxs ≡ is_output args j
unfolding handle_gnu gnu_scan
handle_gnu_outputs [] small j = ground arith
handle_gnu_outputs (name ∷ args) small j =
    let len = length (name ∷ args) in
    scan_marks len 1 args (record { keep_local = true; priority_task = false; output_idxs = [] }) j
      (omega arith) small
    ∙ marked_flag len 1 args j (omega arith)
    ∙ replace_flag j len (flag_at (name ∷ args) (j - 1)) (flag_at args (j - 1 - 1))
        (λ l. sym (flag_at_next name args (j - 1) (j - 1 - 1) (omega (arith, l))))

-- `handle_gnu` keeps a command local exactly when no argument behind the name is one of `-c`,
-- `-s`, `-e`, `-MD`, `-M` and `-MM`; gives it priority exactly when one of them is `-M` or
-- `-MM`; and lists an index as an output exactly if the argument there stands behind an argument
-- `-o` or `-MF` which is not the name. There are at most 2^16 arguments.
pub handle_gnu_lem :
    (args : List String) (j : ℕ)
    → length args ≤ 2 ^ 16
    → ((handle_gnu args).keep_local ≡ not (any goes_remote (tail args)))
      × ((handle_gnu args).priority_task ≡ any is_dependency (tail args))
      × (has j (handle_gnu args).output_idxs ≡ is_output args j)
unfolding handle_gnu
handle_gnu_lem args j small =
    let start : Gnu = record { keep_local = true; priority_task = false; output_idxs = [] } in
    let flags = scan_flags (length args) 1 (tail args) start in
    (flags.0, flags.1, handle_gnu_outputs args small j)
