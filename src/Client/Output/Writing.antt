-- ===== src/Client/Output/Writing.antt =====
-- src/client.rs: what a write to an output file does to the other files.
use spraycc.Base.{
  ℕ, String, true, Option, none, some, List, [], ◌∷◌, ◌≡◌, refl, sym, ap, ◌∙◌, get_elem?, length,
  arith, eq_iff, get_elem?-lt,
}
use spraycc.Base.Maps
use spraycc.Base.Maps.{Map}
use spraycc.Ipc.{OutputType, Message}
use spraycc.Ipc.Outputs.{or_nil, file_after}
use spraycc.Ipc.Targets.{get_elem?-lt_length}
use spraycc.Client.Output.{file_name, file, content_of, Receiver}
use spraycc.Client.Output.Files.{distinct, HeldAt, Held, after, Held-after}

-- What a receiver that got `msgs` holds for each file beyond an earlier one.
abbrev pub KeepsFiles : Receiver → Receiver → List Message → Type 0
KeepsFiles r r' msgs =
    (names : List String) (old : Map (List ℕ)) (c : ℕ → Option (List ℕ))
    → distinct names ≡ true
    → length names ≡ length r.output_files
    → Held names old r c
    → Held names old r' (λ i. file_after i msgs (c i))

content_of_lem :
    (files : Map (List ℕ)) (name : String) (o : Option (List ℕ))
    → Maps.lookup name files ≡ o
    → content_of files name ≡ or_nil o
content_of_lem files name none h = rw (h, content_of)
content_of_lem files name (some bytes) h = rw (h, content_of)

-- The file at `idx` before its first output, and after it.
held_new :
    (old now : Map (List ℕ)) (name n : String) (c : Option (List ℕ))
    → HeldAt old now (some (file_name name)) n c
    → (name ≡ n) × (c ≡ none)
held_new old now name n none (e, f) = (cc, refl)
held_new old now name n (some bytes) (e, f) = (cc, cc)

held_open :
    (old now : Map (List ℕ)) (name n : String) (c : Option (List ℕ))
    → HeldAt old now (some (file name)) n c
    → (name ≡ n) × (content_of now n ≡ or_nil c)
held_open old now name n none (e, f) = (cc, cc)
held_open old now name n (some bytes) (e, f) = (cc, content_of_lem now n (some bytes) f)

pub keeps_new :
    (idx : ℕ) (content : List ℕ) (r : Receiver) (name : String)
    → get_elem? r.output_files idx ≡ some (file_name name)
    → KeepsFiles r
        (after idx name content (Maps.insert name [] r.host.files) r)
        (Message.task_output (OutputType.file idx) content ∷ [])
keeps_new idx content r name at names old c d len held =
    let (n, named) =
      get_elem?-lt_length names idx
        (ground (arith, len, get_elem?-lt r.output_files idx (file_name name) at)) in
    let (e, f) = held_new old r.host.files name n (c idx) (rw at at (held idx n named)) in
    Held-after names old c idx name content (Maps.insert name [] r.host.files) r (file_name name) d
      (named ∙ ap (λ m. some m) (sym e)) at
      (content_of_lem (Maps.insert name [] r.host.files) name (some [])
          (ground (arith, Maps.lookup-insert name name [] r.host.files, eq_iff name name))
        ∙ sym (ap or_nil f))
      (λ other ne.
        ground (arith, Maps.lookup-insert name other [] r.host.files, eq_iff name other, ne))
      held

pub keeps_open :
    (idx : ℕ) (content : List ℕ) (r : Receiver) (name : String)
    → get_elem? r.output_files idx ≡ some (file name)
    → KeepsFiles r
        (after idx name content r.host.files r)
        (Message.task_output (OutputType.file idx) content ∷ [])
keeps_open idx content r name at names old c d len held =
    let (n, named) =
      get_elem?-lt_length names idx
        (ground (arith, len, get_elem?-lt r.output_files idx (file name) at)) in
    let (e, f) = held_open old r.host.files name n (c idx) (rw at at (held idx n named)) in
    Held-after names old c idx name content r.host.files r (file name) d
      (named ∙ ap (λ m. some m) (sym e)) at (ap (content_of r.host.files) e ∙ f) (λ other ne. refl)
      held
