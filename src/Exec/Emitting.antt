-- ===== src/Exec/Emitting.antt =====
-- src/exec.rs: which messages the parts of a task send, where they do not fail.
use spraycc.Base.{
  ℕ, ◌+◌, String, Bool, true, false, ◌&&◌, ◌||◌, not, Option, none, some, List, [], ◌∷◌, ◌++◌, ◌≡◌,
  refl, sym, ap, ◌∙◌, Result, ok, err, ◌>>=◌, length, all, Bool-cases, inl, inr,
}
use spraycc.Ipc.{OutputType, Message}
use spraycc.Ipc.Message.{task_output}
use spraycc.Ipc.Framing.{Read, bytes, failure}
use spraycc.Ipc.Outputs.{all-append}
use spraycc.Task.Start.{Line, line, unreadable}
use spraycc.Exec.{
  Socket, ExecFault, Pump, write, on_stdout, on_stderr, select, pump, send_reads, send_output_file,
  send_files,
}
use spraycc.Exec.Sending.{add, add-nil, add-add}

abbrev pub is_task_output : Message → Bool
is_task_output (task_output output_type content) = true
is_task_output _ = false

-- A step that fails, or sends messages of a kind.
abbrev pub Emits : (List Message → Type 0) → Socket → Result ExecFault Socket → Type 0
Emits P s (ok s') = (msgs : List Message) × (s' ≡ add s msgs) × P msgs
Emits P s (err e) = Unit

abbrev pub Outs : List Message → Type 0
Outs msgs = all is_task_output msgs ≡ true

pub write-Emits : (msg : Message) (s : Socket) → Emits (λ msgs. msgs ≡ msg ∷ []) s (write msg s)
unfolding write
write-Emits msg s = elim (Bool-cases (s.takes (length s.sent))) [
  | inl takes ↦ rw takes (msg ∷ [], refl, refl)
  | inr broken ↦ rw broken tt
]

pub Emits-from :
    (P Q R : List Message → Type 0) (s s' : Socket) (xs : List Message)
    (r : Result ExecFault Socket)
    → ((xs ys : List Message) → P xs → Q ys → R (xs ++ ys))
    → s' ≡ add s xs
    → P xs
    → Emits Q s' r
    → Emits R s r
Emits-from P Q R s s' xs (err e) join at px more = tt
Emits-from P Q R s s' xs (ok t) join at px (ys, e, qy) =
    (xs ++ ys, e ∙ ap (λ s. add s ys) at ∙ add-add s xs ys, join xs ys px qy)

pub Emits->>= :
    (P Q R : List Message → Type 0) (s : Socket) (m : Result ExecFault Socket)
    (f : Socket → Result ExecFault Socket)
    → ((xs ys : List Message) → P xs → Q ys → R (xs ++ ys))
    → Emits P s m
    → ((s' : Socket) → Emits Q s' (f s'))
    → Emits R s (m >>= f)
Emits->>= P Q R s (err e) f join one more = tt
Emits->>= P Q R s (ok s') f join (xs, e, px) more =
    Emits-from P Q R s s' xs (f s') join e px (more s')

pub Emits-mono :
    (P R : List Message → Type 0) (s : Socket) (m : Result ExecFault Socket)
    → ((xs : List Message) → P xs → R xs)
    → Emits P s m
    → Emits R s m
Emits-mono P R s (err e) weaken one = tt
Emits-mono P R s (ok s') weaken (xs, e, px) = (xs, e, weaken xs px)

pub Outs-append : (xs ys : List Message) → Outs xs → Outs ys → Outs (xs ++ ys)
Outs-append xs ys = all-append is_task_output xs ys

write-Outs :
    (output_type : OutputType) (content : List ℕ) (s : Socket)
    → Emits Outs s (write (task_output output_type content) s)
write-Outs output_type content s =
    Emits-mono _ Outs s (write (task_output output_type content) s) (λ xs e. rw e refl)
      (write-Emits (task_output output_type content) s)

-- The same for the loop over the streams, whose state has more than the socket.
abbrev PumpEmits : Pump → Result ExecFault Pump → Type 0
PumpEmits p (ok p') = (msgs : List Message) × (p'.socket ≡ add p.socket msgs) × Outs msgs
PumpEmits p (err e) = Unit

line_out :
    (p : Pump) (m : Result ExecFault Socket) (f : Socket → Pump)
    → ((s : Socket) → (f s).socket ≡ s)
    → Emits Outs p.socket m
    → PumpEmits p (m >>= λ s. ok (f s))
line_out p (err e) f at one = tt
line_out p (ok s) f at (xs, e, outs) = (xs, at s ∙ e, outs)

on_stdout-PumpEmits : (lines : List Line) (p : Pump) → PumpEmits p (on_stdout lines p)
unfolding on_stdout
on_stdout-PumpEmits [] p = ([], sym (add-nil p.socket), refl)
on_stdout-PumpEmits (line bs ∷ rest) p =
    line_out p _ _ (λ s. refl) (write-Outs OutputType.stdout (bs ++ 10 ∷ []) p.socket)
on_stdout-PumpEmits (unreadable ∷ rest) p = ([], sym (add-nil p.socket), refl)

on_stderr-PumpEmits : (lines : List Line) (p : Pump) → PumpEmits p (on_stderr lines p)
unfolding on_stderr
on_stderr-PumpEmits [] p = ([], sym (add-nil p.socket), refl)
on_stderr-PumpEmits (line bs ∷ rest) p =
    line_out p _ _ (λ s. refl) (write-Outs OutputType.stderr (bs ++ 10 ∷ []) p.socket)
on_stderr-PumpEmits (unreadable ∷ rest) p = ([], sym (add-nil p.socket), refl)

select-PumpEmits : (first : Bool) (p : Pump) → PumpEmits p (select first p)
unfolding select
select-PumpEmits first p = elim (Bool-cases ((first && not p.stdout_done) || p.stderr_done)) [
  | inl out ↦ rw out (on_stdout-PumpEmits p.stdout p)
  | inr errors ↦ rw errors (on_stderr-PumpEmits p.stderr p)
]

pump_on :
    (p : Pump) (m : Result ExecFault Pump) (f : Pump → Result ExecFault Socket)
    → PumpEmits p m
    → ((p' : Pump) → Emits Outs p'.socket (f p'))
    → Emits Outs p.socket (m >>= f)
pump_on p (err e) f one more = tt
pump_on p (ok p') f (xs, e, outs) more =
    Emits-from Outs Outs Outs p.socket p'.socket xs (f p') Outs-append e outs (more p')

pub pump-Emits : (schedule : List Bool) (p : Pump) → Emits Outs p.socket (pump schedule p)
unfolding pump
pump-Emits [] p = elim (Bool-cases (p.stdout_done && p.stderr_done)) [
  | inl over ↦ rw over ([], sym (add-nil p.socket), refl)
  | inr more ↦ rw more tt
]
pump-Emits (first ∷ schedule) p = elim (Bool-cases (p.stdout_done && p.stderr_done)) [
  | inl over ↦ rw (over, pump) ([], sym (add-nil p.socket), refl)
  | inr more ↦
      rw (more, pump)
        (pump_on p (select first p) (pump schedule) (select-PumpEmits first p)
          (pump-Emits schedule))
]

send_reads-Emits :
    (output_type : OutputType) (reads : List Read) (s : Socket)
    → Emits Outs s (send_reads output_type reads s)
unfolding send_reads
send_reads-Emits output_type [] s = ([], sym (add-nil s), refl)
send_reads-Emits output_type (bytes [] ∷ reads) s = ([], sym (add-nil s), refl)
send_reads-Emits output_type (bytes (b ∷ bs) ∷ reads) s =
    Emits->>= Outs Outs Outs s _ _ Outs-append (write-Outs output_type (b ∷ bs) s)
      (send_reads-Emits output_type reads)
send_reads-Emits output_type (failure ∷ reads) s = tt

send_output_file-Emits :
    (output_type : OutputType) (opened : Option (List Read)) (s : Socket)
    → Emits Outs s (send_output_file output_type opened s)
unfolding send_output_file
send_output_file-Emits output_type none s = ([], sym (add-nil s), refl)
send_output_file-Emits output_type (some reads) s = send_reads-Emits output_type reads s

pub send_files-Emits :
    (opened : String → Option (List Read)) (idx : ℕ) (paths : List String) (s : Socket)
    → Emits Outs s (send_files opened idx paths s)
unfolding send_files
send_files-Emits opened idx [] s = ([], sym (add-nil s), refl)
send_files-Emits opened idx (path ∷ paths) s =
    Emits->>= Outs Outs Outs s _ _ Outs-append
      (send_output_file-Emits (OutputType.file idx) (opened path) s)
      (send_files-Emits opened (idx + 1) paths)
