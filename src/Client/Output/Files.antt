-- ===== src/Client/Output/Files.antt =====
-- src/client.rs: which file each output index stands for, and what the file holds.
use spraycc.Base.{
  ℕ, zero, suc, String, Bool, true, false, ◌&&◌, not, ◌||◌, Option, none, some, List, [], ◌∷◌, ◌++◌,
  ◌≡◌, ◌≢◌, refl, ap, ◌∙◌, get_elem?, set, get_elem?-set, str_eq, eq_iff, arith, ◌==◌, inl, inr,
  Bool-cases,
}
use spraycc.Base.Maps
use spraycc.Base.Maps.{Map}
use spraycc.Ipc.{OutputType, Message}
use spraycc.Ipc.Outputs.{or_nil, file_step}
use spraycc.Client.Output.{LazyFile, file_name, file, content_of, Receiver}

abbrev pub among : String → List String → Bool
among name [] = false
among name (x ∷ xs) = str_eq x name || among name xs

-- No name stands twice.
abbrev pub distinct : List String → Bool
distinct [] = true
distinct (x ∷ xs) = not (among x xs) && distinct xs

among_lem :
    (name : String) (xs : List String) (i : ℕ) → get_elem? xs i ≡ some name → among name xs ≡ true
among_lem name [] i h = cc
among_lem name (x ∷ xs) zero h = ground (arith, eq_iff x name)
among_lem name (x ∷ xs) (suc i) h = ground (arith, among_lem name xs i h)

pub distinct_lem :
    (xs : List String) (i j : ℕ) (name : String)
    → distinct xs ≡ true
    → get_elem? xs i ≡ some name
    → get_elem? xs j ≡ some name
    → i ≡ j
distinct_lem [] i j name d h k = cc
distinct_lem (x ∷ xs) zero zero name d h k = refl
distinct_lem (x ∷ xs) zero (suc j) name d h k = ground (arith, among_lem name xs j k)
distinct_lem (x ∷ xs) (suc i) zero name d h k = ground (arith, among_lem name xs i h)
distinct_lem (x ∷ xs) (suc i) (suc j) name d h k =
    ap suc (distinct_lem xs i j name (ground arith) h k)

-- The file of one name: not opened, with what the host had under the name, or open, with what was
-- written.
abbrev pub HeldAt :
    Map (List ℕ) → Map (List ℕ) → Option LazyFile → String → Option (List ℕ) → Type 0
HeldAt old now lazy name none =
    (lazy ≡ some (file_name name)) × (Maps.lookup name now ≡ Maps.lookup name old)
HeldAt old now lazy name (some bytes) =
    (lazy ≡ some (file name)) × (Maps.lookup name now ≡ some bytes)

abbrev pub Held : List String → Map (List ℕ) → Receiver → (ℕ → Option (List ℕ)) → Type 0
Held names old r c =
    (i : ℕ) (name : String)
    → get_elem? names i ≡ some name
    → HeldAt old r.host.files (get_elem? r.output_files i) name (c i)

-- A write to another file under another name leaves this one.
HeldAt-other :
    (old now now' : Map (List ℕ)) (lazy lazy' : Option LazyFile) (name : String)
    (c : Option (List ℕ))
    → lazy' ≡ lazy
    → Maps.lookup name now' ≡ Maps.lookup name now
    → HeldAt old now lazy name c
    → HeldAt old now' lazy' name c
HeldAt-other old now now' lazy lazy' name none e f (a, b) = (e ∙ a, f ∙ b)
HeldAt-other old now now' lazy lazy' name (some bytes) e f (a, b) = (e ∙ a, f ∙ b)

abbrev pub after : ℕ → String → List ℕ → Map (List ℕ) → Receiver → Receiver
after idx name content files r = record {
  output_files = set r.output_files idx (file name);
  host = record r.host { files = Maps.insert name (content_of files name ++ content) files };
}

-- A write to the file at `idx`, whose name is `name` and whose content before is `before`.
module _ (names : List String) (old : Map (List ℕ)) (c : ℕ → Option (List ℕ)) (idx : ℕ)
    (name : String) (content : List ℕ) (files : Map (List ℕ)) (r : Receiver) (lazy : LazyFile)
    (d : distinct names ≡ true) (named : get_elem? names idx ≡ some name)
    (before : get_elem? r.output_files idx ≡ some lazy)
    (same : content_of files name ≡ or_nil (c idx))
    (others : (other : String)
      → other ≢ name
      → Maps.lookup other files ≡ Maps.lookup other r.host.files)
    (held : Held names old r c) where
  at_idx :
      (i : ℕ) (n : String)
      → idx ≡ i
      → name ≡ n
      → HeldAt old
          (after idx name content files r).host.files
          (get_elem? (after idx name content files r).output_files i)
          n
          (some (or_nil (c i) ++ content))
  at_idx i n e f = (
    ground (arith, get_elem?-set r.output_files idx i (file name) lazy before),
    Maps.lookup-insert name n (content_of files name ++ content) files
        ∙ ground (arith, eq_iff name n, same, ap c e),
  )

  elsewhere :
      (i : ℕ) (n : String)
      → (idx == i) ≡ false
      → get_elem? names i ≡ some n
      → HeldAt old
          (after idx name content files r).host.files
          (get_elem? (after idx name content files r).output_files i)
          n
          (c i)
  elsewhere i n ne at_i =
      let apart : n ≢ name = λ e. ground (arith, distinct_lem names idx i name d named, at_i, e) in
      HeldAt-other old r.host.files _ (get_elem? r.output_files i) _ n (c i)
        (ground (arith, get_elem?-set r.output_files idx i (file name) lazy before))
        (Maps.lookup-insert name n (content_of files name ++ content) files
          ∙ ground (arith, eq_iff name n, apart, others n apart))
        (held i n at_i)

  pub Held-after :
      Held names old
        (after idx name content files r)
        (λ i. file_step i (Message.task_output (OutputType.file idx) content) (c i))
  Held-after i n at_i = elim (Bool-cases (idx == i)) [
    | inl here ↦ rw here (at_idx i n (ground arith) (ground (arith, at_i, named)))
    | inr there ↦ rw there (elsewhere i n there at_i)
  ]
