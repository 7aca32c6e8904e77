-- ===== src/Exec/Pumping.antt =====
-- src/exec.rs: the loop of `run_task` that forwards the two streams, in whatever order they come.
use spraycc.Base.{
  ℕ, suc, ◌+◌, ◌≤◌, ◌<◌, Bool, true, false, ◌&&◌, ◌||◌, not, List, [], ◌∷◌, ◌++◌, ◌≡◌, refl, sym,
  ap, ◌∙◌, Result, ok, length, all, append-nil, arith, Bool-cases, inl, inr,
}
use spraycc.Ipc.{OutputType, Message}
use spraycc.Ipc.Outputs.{
  is_output, stdout_of, stderr_of, stdout_of-append, stderr_of-append, all-append,
}
use spraycc.Task.Start.{Line, line, unreadable}
use spraycc.Exec.{Pump, ExecFault, on_stdout, on_stderr, select, pump}
use spraycc.Exec.Sending.{Takes, add, add-nil, add-add, write_lem}

-- The lines up to the first that cannot be read, each with its end.
abbrev pub text : List Line → List ℕ
text [] = []
text (line bs ∷ lines) = (bs ++ 10 ∷ []) ++ text lines
text (unreadable ∷ lines) = []

-- What is still to come of a stream, and how many rounds it takes at most.
abbrev pub left : Bool → List Line → List ℕ
left true lines = []
left false lines = text lines

abbrev pub rounds : Bool → List Line → ℕ
rounds true lines = 0
rounds false lines = suc (length lines)

abbrev needed : Pump → ℕ
needed p = rounds p.stdout_done p.stdout + rounds p.stderr_done p.stderr

-- A part of the loop that sent `msgs`.
record Pumped (p p' : Pump) (msgs : List Message) : Type 0 where
  sends : p'.socket ≡ add p.socket msgs
  shrinks : needed p' < needed p
  to_stdout : (stdout_of msgs ++ left p'.stdout_done p'.stdout) ≡ left p.stdout_done p.stdout
  to_stderr : (stderr_of msgs ++ left p'.stderr_done p'.stderr) ≡ left p.stderr_done p.stderr
  only_streams : all (is_output 0) msgs ≡ true

abbrev Moved : Result ExecFault Pump → Pump → Type 0
Moved r p = (p' : Pump) × (msgs : List Message) × (r ≡ ok p') × Pumped p p' msgs

left_open :
    (done : Bool) (now lines : List Line) → done ≡ false → now ≡ lines → left done now ≡ text lines
left_open true now lines d e = cc
left_open false now lines d e = ap text e

left_line :
    (content : List ℕ) (done : Bool) (now lines : List Line) (bs : List ℕ)
    → content ≡ (bs ++ 10 ∷ [])
    → done ≡ false
    → now ≡ line bs ∷ lines
    → ((content ++ []) ++ left done lines) ≡ left done now
left_line content done now lines bs same d e =
    ap (λ l. l ++ left done lines) (append-nil content ∙ same)
    ∙ ap (λ l. (bs ++ 10 ∷ []) ++ l) (left_open done lines lines d refl)
    ∙ sym (left_open done now (line bs ∷ lines) d e)

on_stdout_lem :
    (lines : List Line) (p : Pump)
    → Takes p.socket
    → p.stdout_done ≡ false
    → p.stdout ≡ lines
    → Moved (on_stdout lines p) p
unfolding on_stdout
on_stdout_lem [] p t still e = (
  record p { stdout_done = true },
  [],
  refl,
  record {
    sends = sym (add-nil p.socket);
    shrinks = ground arith;
    to_stdout = sym (left_open p.stdout_done p.stdout [] still e);
    to_stderr = refl;
    only_streams = refl;
  },
)
on_stdout_lem (line bs ∷ lines) p t still e =
    let content : List ℕ = bs ++ 10 ∷ [] in
    let msg : Message = Message.task_output OutputType.stdout content in
    (
      record p { stdout = lines; socket = add p.socket (msg ∷ []) },
      msg ∷ [],
      rw (write_lem msg p.socket t) refl,
      record {
        sends = refl;
        shrinks = ground arith;
        to_stdout = left_line content p.stdout_done p.stdout lines bs refl still e;
        to_stderr = refl;
        only_streams = refl;
      },
    )
on_stdout_lem (unreadable ∷ lines) p t still e = (
  record p { stdout_done = true; stdout = lines },
  [],
  refl,
  record {
    sends = sym (add-nil p.socket);
    shrinks = ground arith;
    to_stdout = sym (left_open p.stdout_done p.stdout (unreadable ∷ lines) still e);
    to_stderr = refl;
    only_streams = refl;
  },
)

on_stderr_lem :
    (lines : List Line) (p : Pump)
    → Takes p.socket
    → p.stderr_done ≡ false
    → p.stderr ≡ lines
    → Moved (on_stderr lines p) p
unfolding on_stderr
on_stderr_lem [] p t still e = (
  record p { stderr_done = true },
  [],
  refl,
  record {
    sends = sym (add-nil p.socket);
    shrinks = ground arith;
    to_stderr = sym (left_open p.stderr_done p.stderr [] still e);
    to_stdout = refl;
    only_streams = refl;
  },
)
on_stderr_lem (line bs ∷ lines) p t still e =
    let content : List ℕ = bs ++ 10 ∷ [] in
    let msg : Message = Message.task_output OutputType.stderr content in
    (
      record p { stderr = lines; socket = add p.socket (msg ∷ []) },
      msg ∷ [],
      rw (write_lem msg p.socket t) refl,
      record {
        sends = refl;
        shrinks = ground arith;
        to_stderr = left_line content p.stderr_done p.stderr lines bs refl still e;
        to_stdout = refl;
        only_streams = refl;
      },
    )
on_stderr_lem (unreadable ∷ lines) p t still e = (
  record p { stderr_done = true; stderr = lines },
  [],
  refl,
  record {
    sends = sym (add-nil p.socket);
    shrinks = ground arith;
    to_stderr = sym (left_open p.stderr_done p.stderr (unreadable ∷ lines) still e);
    to_stdout = refl;
    only_streams = refl;
  },
)

left_done : (done : Bool) (lines : List Line) → done ≡ true → [] ≡ left done lines
left_done true lines h = refl
left_done false lines h = cc

no_rounds : (a b : Bool) (xs ys : List Line) → rounds a xs + rounds b ys ≤ 0 → (a && b) ≡ true
no_rounds true true xs ys h = refl
no_rounds true false xs ys h = absurd (omega arith)
no_rounds false b xs ys h = absurd (omega arith)

select_lem :
    (first : Bool) (p : Pump)
    → Takes p.socket
    → (p.stdout_done && p.stderr_done) ≡ false
    → Moved (select first p) p
unfolding select
select_lem first p t more = elim (Bool-cases ((first && not p.stdout_done) || p.stderr_done)) [
  | inl out ↦ rw out (on_stdout_lem p.stdout p t (ground arith) refl)
  | inr errors ↦ rw errors (on_stderr_lem p.stderr p t (ground arith) refl)
]

-- The whole loop.
pub record Forwarded (p : Pump) (msgs : List Message) : Type 0 where
  pub to_stdout : stdout_of msgs ≡ left p.stdout_done p.stdout
  pub to_stderr : stderr_of msgs ≡ left p.stderr_done p.stderr
  pub only_streams : all (is_output 0) msgs ≡ true

Forwarded-nil : (p : Pump) → (p.stdout_done && p.stderr_done) ≡ true → Forwarded p []
Forwarded-nil p h = record {
  to_stdout = left_done p.stdout_done p.stdout (ground arith);
  to_stderr = left_done p.stderr_done p.stderr (ground arith);
  only_streams = refl;
}

Forwarded-append :
    (p p' : Pump) (xs ys : List Message) → Pumped p p' xs → Forwarded p' ys → Forwarded p (xs ++ ys)
Forwarded-append p p' xs ys one more = record {
  to_stdout = stdout_of-append xs ys ∙ ap (λ l. stdout_of xs ++ l) more.to_stdout ∙ one.to_stdout;
  to_stderr = stderr_of-append xs ys ∙ ap (λ l. stderr_of xs ++ l) more.to_stderr ∙ one.to_stderr;
  only_streams = all-append (is_output 0) xs ys one.only_streams more.only_streams;
}

pub pump_lem :
    (schedule : List Bool) (p : Pump)
    → Takes p.socket
    → rounds p.stdout_done p.stdout + rounds p.stderr_done p.stderr ≤ length schedule
    → (msgs : List Message) × (pump schedule p ≡ ok (add p.socket msgs)) × Forwarded p msgs
unfolding pump
pump_lem [] p t enough =
    let over : (p.stdout_done && p.stderr_done) ≡ true =
      no_rounds p.stdout_done p.stderr_done p.stdout p.stderr enough in
    ([], rw over (ap (λ s. ok s) (sym (add-nil p.socket))), Forwarded-nil p over)
pump_lem (first ∷ schedule) p t enough = elim (Bool-cases (p.stdout_done && p.stderr_done)) [
  | inl over ↦ ([], rw (over, pump) (ap (λ s. ok s) (sym (add-nil p.socket))), Forwarded-nil p over)
  | inr more ↦
      let (p', xs, moved, one) = select_lem first p t more in
      let (ys, rest, all_sent) =
        pump_lem schedule p' (λ n. rw one.sends (t n)) (omega (arith, one.shrinks, enough)) in
      (
        xs ++ ys,
        rw (more, moved, pump)
            (rest ∙ ap (λ s. ok (add s ys)) one.sends ∙ ap (λ s. ok s) (add-add p.socket xs ys)),
        Forwarded-append p p' xs ys one all_sent,
      )
]
