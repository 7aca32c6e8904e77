-- ===== src/Ipc/Outputs.antt =====
-- src/ipc.rs: what `TaskOutput` messages say of the streams and the files of a task.
use spraycc.Base.{
  ℕ, Bool, true, false, Option, none, some, List, [], ◌∷◌, ◌++◌, ◌≡◌, refl, ap, ◌∙◌, sym, ltb, ◌==◌,
  all, append_assoc, if◌then◌else◌, arith,
}
use spraycc.Ipc.{Message}
use spraycc.Ipc.OutputType.{stdout, stderr, file}
use spraycc.Ipc.Message.{task_output}

-- Output, for a stream or for one of `n` files.
abbrev pub is_output : ℕ → Message → Bool
is_output n (task_output (file idx) content) = ltb idx n
is_output n (task_output _ content) = true
is_output n _ = false

-- What of a list of messages is for the standard output, and what for the standard error.
abbrev pub stdout_of : List Message → List ℕ
stdout_of [] = []
stdout_of (task_output stdout content ∷ msgs) = content ++ stdout_of msgs
stdout_of (msg ∷ msgs) = stdout_of msgs

abbrev pub stderr_of : List Message → List ℕ
stderr_of [] = []
stderr_of (task_output stderr content ∷ msgs) = content ++ stderr_of msgs
stderr_of (msg ∷ msgs) = stderr_of msgs

abbrev pub or_nil : Option (List ℕ) → List ℕ
or_nil none = []
or_nil (some bytes) = bytes

-- The file at an index after a message: none before the first output for it.
abbrev pub file_step : ℕ → Message → Option (List ℕ) → Option (List ℕ)
file_step i (task_output (file idx) content) before =
    if idx == i then some (or_nil before ++ content) else before
file_step i msg before = before

abbrev pub file_after : ℕ → List Message → Option (List ℕ) → Option (List ℕ)
file_after i [] before = before
file_after i (msg ∷ msgs) before = file_after i msgs (file_step i msg before)

pub file_after-append :
    (i : ℕ) (xs ys : List Message) (before : Option (List ℕ))
    → file_after i (xs ++ ys) before ≡ file_after i ys (file_after i xs before)
file_after-append i [] ys before = refl
file_after-append i (x ∷ xs) ys before = file_after-append i xs ys (file_step i x before)

pub stdout_of-append :
    (xs ys : List Message) → stdout_of (xs ++ ys) ≡ (stdout_of xs ++ stdout_of ys)
stdout_of-append [] ys = refl
stdout_of-append (task_output stdout content ∷ xs) ys =
    ap (λ l. content ++ l) (stdout_of-append xs ys) ∙ sym (append_assoc content _ _)
stdout_of-append (_ ∷ xs) ys = stdout_of-append xs ys

pub stderr_of-append :
    (xs ys : List Message) → stderr_of (xs ++ ys) ≡ (stderr_of xs ++ stderr_of ys)
stderr_of-append [] ys = refl
stderr_of-append (task_output stderr content ∷ xs) ys =
    ap (λ l. content ++ l) (stderr_of-append xs ys) ∙ sym (append_assoc content _ _)
stderr_of-append (_ ∷ xs) ys = stderr_of-append xs ys

pub all-append :
    (p : Message → Bool) (xs ys : List Message)
    → all p xs ≡ true
    → all p ys ≡ true
    → all p (xs ++ ys) ≡ true
all-append p [] ys h k = k
all-append p (x ∷ xs) ys h k = ground (arith, all-append p xs ys)
