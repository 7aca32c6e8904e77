-- ===== src/Exec/Files.antt =====
-- src/exec.rs: the messages that carry the files of a task.
use spraycc.Base.{
  ℕ, ◌+◌, ◌≤◌, ◌<◌, String, Bool, true, false, Option, none, some, List, [], ◌∷◌, ◌++◌, ◌≡◌, refl,
  sym, ap, ◌∙◌, ok, length, all, append_assoc, append-nil, arith, if◌then◌else◌, ◌==◌,
}
use spraycc.Ipc.{OutputType, Message}
use spraycc.Ipc.Framing.{Read, bytes, failure}
use spraycc.Ipc.Outputs.{
  is_output, stdout_of, stderr_of, stdout_of-append, stderr_of-append, or_nil, file_step,
  file_after, file_after-append, all-append,
}
use spraycc.Exec.{Socket, send_reads, send_output_file, send_files}
use spraycc.Exec.Sending.{Takes, add, add-nil, add-add, write_lem}

-- The content of a file up to its end, and whether no read fails before it.
abbrev pub content : List Read → List ℕ
content [] = []
content (bytes [] ∷ reads) = []
content (bytes (b ∷ bs) ∷ reads) = (b ∷ bs) ++ content reads
content (failure ∷ reads) = []

abbrev pub readable : List Read → Bool
readable [] = true
readable (bytes [] ∷ reads) = true
readable (bytes (b ∷ bs) ∷ reads) = readable reads
readable (failure ∷ reads) = false

abbrev pub content_opened : Option (List Read) → List ℕ
content_opened none = []
content_opened (some reads) = content reads

abbrev pub readable_opened : Option (List Read) → Bool
readable_opened none = true
readable_opened (some reads) = readable reads

-- A file with more content; without any it stays as it is, and stays away.
abbrev pub extended : Option (List ℕ) → List ℕ → Option (List ℕ)
extended c [] = c
extended c (b ∷ bs) = some (or_nil c ++ b ∷ bs)

extended-append :
    (c : Option (List ℕ)) (xs ys : List ℕ) → extended (extended c xs) ys ≡ extended c (xs ++ ys)
extended-append c [] ys = refl
extended-append c (x ∷ xs) [] = ap (λ l. some (or_nil c ++ l)) (sym (append-nil (x ∷ xs)))
extended-append c (x ∷ xs) (y ∷ ys) = ap (λ l. some l) (append_assoc (or_nil c) (x ∷ xs) (y ∷ ys))

-- What the file with index `i` gets, of the paths from `idx` on.
abbrev pub content_at : (String → Option (List Read)) → ℕ → List String → ℕ → List ℕ
content_at opened idx [] i = []
content_at opened idx (path ∷ paths) i =
    if idx == i then content_opened (opened path) else content_at opened (idx + 1) paths i

content_at_before :
    (opened : String → Option (List Read)) (idx : ℕ) (paths : List String) (i : ℕ)
    → i < idx
    → content_at opened idx paths i ≡ []
content_at_before opened idx [] i h = refl
content_at_before opened idx (path ∷ paths) i h =
    ground (arith, content_at_before opened (idx + 1) paths i)

-- Messages that are for files below `n` only, and give each the content that `f` says.
pub record Carries (n : ℕ) (msgs : List Message) (f : ℕ → List ℕ) : Type 0 where
  pub no_stdout : stdout_of msgs ≡ []
  pub no_stderr : stderr_of msgs ≡ []
  pub only_outputs : all (is_output n) msgs ≡ true
  pub each : (i : ℕ) (c : Option (List ℕ)) → file_after i msgs c ≡ extended c (f i)

abbrev one_file : ℕ → List ℕ → ℕ → List ℕ
one_file idx bs i = if idx == i then bs else []

one_file_nil : (idx i : ℕ) → one_file idx [] i ≡ []
one_file_nil idx i = ground arith

Carries-nil : (n : ℕ) (f : ℕ → List ℕ) → ((i : ℕ) → f i ≡ []) → Carries n [] f
Carries-nil n f h = record {
  no_stdout = refl;
  no_stderr = refl;
  only_outputs = refl;
  each = λ i c. ap (extended c) (sym (h i));
}

grow :
    (hit : Bool) (c : Option (List ℕ)) (b : ℕ) (bs rest : List ℕ)
    → extended (if hit then some (or_nil c ++ b ∷ bs) else c) (if hit then rest else [])
      ≡ extended c (if hit then (b ∷ bs) ++ rest else [])
grow true c b bs rest = extended-append c (b ∷ bs) rest
grow false c b bs rest = refl

send_reads_lem :
    (n idx : ℕ) (reads : List Read) (s : Socket)
    → Takes s
    → readable reads ≡ true
    → idx < n
    → (msgs : List Message) × (send_reads (OutputType.file idx) reads s ≡ ok (add s msgs))
      × Carries n msgs (one_file idx (content reads))
unfolding send_reads
send_reads_lem n idx [] s t h lt =
    ([], ap (λ s'. ok s') (sym (add-nil s)), Carries-nil n (one_file idx []) (one_file_nil idx))
send_reads_lem n idx (bytes [] ∷ reads) s t h lt =
    ([], ap (λ s'. ok s') (sym (add-nil s)), Carries-nil n (one_file idx []) (one_file_nil idx))
send_reads_lem n idx (bytes (b ∷ bs) ∷ reads) s t h lt =
    let msg : Message = Message.task_output (OutputType.file idx) (b ∷ bs) in
    let (msgs, sent, rest) = send_reads_lem n idx reads (add s (msg ∷ [])) t h lt in
    (
      msg ∷ msgs,
      rw (write_lem msg s t) (sent ∙ ap (λ s'. ok s') (add-add s (msg ∷ []) msgs)),
      record {
        no_stdout = rest.no_stdout;
        no_stderr = rest.no_stderr;
        only_outputs = ground (arith, rest.only_outputs);
        each = λ i c. rest.each i (file_step i msg c) ∙ grow (idx == i) c b bs (content reads);
      },
    )
send_reads_lem n idx (failure ∷ reads) s t h lt = cc

send_output_file_lem :
    (n idx : ℕ) (opened : Option (List Read)) (s : Socket)
    → Takes s
    → readable_opened opened ≡ true
    → idx < n
    → (msgs : List Message) × (send_output_file (OutputType.file idx) opened s ≡ ok (add s msgs))
      × Carries n msgs (one_file idx (content_opened opened))
unfolding send_output_file
send_output_file_lem n idx none s t h lt =
    ([], ap (λ s'. ok s') (sym (add-nil s)), Carries-nil n (one_file idx []) (one_file_nil idx))
send_output_file_lem n idx (some reads) s t h lt = send_reads_lem n idx reads s t h lt

-- Two parts that carry different files.
join :
    (hit : Bool) (c : Option (List ℕ)) (xs ys : List ℕ)
    → (hit ≡ true → ys ≡ [])
    → extended (extended c (if hit then xs else [])) ys ≡ extended c (if hit then xs else ys)
join true c xs ys h = ap (extended (extended c xs)) (h refl)
join false c xs ys h = refl

Carries-append :
    (n idx : ℕ) (xs ys : List Message) (opened : String → Option (List Read)) (path : String)
    (paths : List String)
    → Carries n xs (one_file idx (content_opened (opened path)))
    → Carries n ys (content_at opened (idx + 1) paths)
    → Carries n (xs ++ ys) (content_at opened idx (path ∷ paths))
Carries-append n idx xs ys opened path paths one more = record {
  no_stdout = stdout_of-append xs ys ∙ rw (one.no_stdout, more.no_stdout) refl;
  no_stderr = stderr_of-append xs ys ∙ rw (one.no_stderr, more.no_stderr) refl;
  only_outputs = all-append (is_output n) xs ys one.only_outputs more.only_outputs;
  each = λ i c.
      file_after-append i xs ys c
      ∙ ap (file_after i ys) (one.each i c)
      ∙ more.each i _
      ∙ join (idx == i) c (content_opened (opened path)) (content_at opened (idx + 1) paths i)
          (λ here. content_at_before opened (idx + 1) paths i (ground arith));
}

pub send_files_lem :
    (n : ℕ) (opened : String → Option (List Read)) (idx : ℕ) (paths : List String) (s : Socket)
    → Takes s
    → all (λ path. readable_opened (opened path)) paths ≡ true
    → idx + length paths ≤ n
    → (msgs : List Message) × (send_files opened idx paths s ≡ ok (add s msgs))
      × Carries n msgs (content_at opened idx paths)
unfolding send_files
send_files_lem n opened idx [] s t h le =
    ([], ap (λ s'. ok s') (sym (add-nil s)), Carries-nil n (content_at opened idx []) (λ i. refl))
send_files_lem n opened idx (path ∷ paths) s t h le =
    let (xs, sent, one) =
      send_output_file_lem n idx (opened path) s t (ground (arith, h)) (omega (arith, le)) in
    let (ys, rest, more) =
      send_files_lem n opened (idx + 1) paths (add s xs) t (ground (arith, h))
        (omega (arith, le)) in
    (
      xs ++ ys,
      rw sent (rest ∙ ap (λ s'. ok s') (add-add s xs ys)),
      Carries-append n idx xs ys opened path paths one more,
    )
