-- ===== src/System.antt =====
-- src/exec.rs and src/client.rs together: the messages that an executor sends for a task, as the client
-- that waits for them receives them.
pub mod Run
pub mod Delivery
pub mod Admission
mod Tests
use spraycc.Base.{
  ℕ, zero, suc, ◌+◌, ◌-◌, ◌≤◌, ℤ, String, Bool, true, Option, none, some, List, [], ◌∷◌, ◌++◌, ◌≡◌,
  refl, sym, ap, ◌∙◌, Result, ok, err, length, length-map, map, all, get_elem?, arith, Option-cases,
  inl, inr,
}
use mathlib.Core.Option
use spraycc.Base.Maps
use spraycc.Ipc.{TaskDetails, Message}
use spraycc.Ipc.Outputs.{is_output, stdout_of, stderr_of, file_after}
use spraycc.Task.Start.{Child}
use spraycc.Exec.{Socket, World, handle_new_task}
use spraycc.Exec.Sending.{Takes, add}
use spraycc.Exec.Pumping.{text}
use spraycc.Exec.Files.{content_at, extended}
use spraycc.Exec.Tasks.{Starts, Readable, Faithful, done_message, handle_new_task_lem}
use spraycc.Client.Output.{LazyFile, file_name, Host, Receiver, make_output_files, run_remote}
use spraycc.Client.Output.Files.{distinct}
use spraycc.Client.Output.Receiving.{ready}
use spraycc.Client.Output.Laws.{run_remote_lem, run_remote_files}

length-make_output_files :
    (args : List String) (is : List ℕ) (files : List LazyFile)
    → make_output_files args is ≡ some files
    → length files ≡ length is
unfolding make_output_files
length-make_output_files args [] files h = ground arith
length-make_output_files args (i ∷ is) files h = elim (Option-cases (make_output_files args is)) [
  | inl e ↦ ground (arith, e)
  | inr (rest, e) ↦ ground (arith, e, length-make_output_files args is rest e)
]

abbrev receiver_of : {E : Type 0} → Receiver → Result E (ℤ × Receiver) → Receiver
receiver_of other (ok (code, r)) = r
receiver_of other (err e) = other

same_end :
    {r r' : Receiver} {code : ℤ} {E : Type 0}
    → Path (Result E (ℤ × Receiver)) (ok (code, r)) (ok (code, r'))
    → r ≡ r'
same_end {r} {r'} {code} {E} e = ap (receiver_of r) e

same_run :
    {r r' : Receiver} {c : Option (List ℕ)}
    → r ≡ r'
    → (name : String) → Maps.lookup name r'.host.files ≡ c
    → Maps.lookup name r.host.files ≡ c
same_run e name h = ap (λ r. Maps.lookup name r.host.files) e ∙ h

-- The client and the executor of one task.
module _ (w : World) (details : TaskDetails) (child : Child) (code : ℤ) (s : Socket)
    (takes : Takes s) (starts : Starts w.host details child) (exits : child.wait ≡ some (some code))
    (readable : Readable child)
    (enough : suc (length child.stdout) + suc (length child.stderr) ≤ length w.schedule)
    (creatable : String → Bool) (names : List String) (host : Host)
    (made : make_output_files details.args details.output_args ≡ some (map file_name names))
    (can : all (ready creatable) (map file_name names) ≡ true) (apart : distinct names ≡ true) where
  -- Where the task starts, its process exits, its files can be read, the socket takes every message
  -- and the schedule is long enough, and where the client can create the output files and they have
  -- different names: when the client that asked for the task receives what the executor sends, it
  -- ends with the exit code of the process, its standard output and standard error have got the lines
  -- that the process wrote up to the first that cannot be read, and each output file holds what the
  -- process left in the temporary file that it was given in its place, or, where that is empty, what
  -- it held before.
  pub handle_new_task-run_remote :
      (i : ℕ) (name : String) (at_i : get_elem? names i ≡ some name)
      → (msgs : List Message) × (r : Receiver) × (handle_new_task w details s ≡ ok (add s msgs))
        × (length starts.paths ≡ length names)
        × (run_remote creatable details true msgs true host ≡ ok (code, r))
        × (r.host.out ≡ (host.out ++ text child.stdout))
        × (r.host.errors ≡ (host.errors ++ text child.stderr))
        × (Maps.lookup name r.host.files
            ≡ Maps.or_else
                (extended none (content_at child.opened 0 starts.paths i))
                (Maps.lookup name host.files))
  handle_new_task-run_remote i name at_i =
      let (target, outs, has_target, sent, each, faithful) =
        handle_new_task_lem w details child (some code) s takes starts exits readable enough in
      let run_time = w.times.task_finish - w.times.start_time in
      let send_time = w.times.send_finish - w.times.task_finish in
      let sizes : length starts.paths ≡ length (map file_name names) =
        each ∙ sym (length-make_output_files details.args details.output_args _ made) in
      let only : all (is_output (length (map file_name names))) outs ≡ true =
        ap (λ n. all (is_output n) outs) (sym sizes) ∙ faithful.only_outputs in
      let (r, done, out, errors) =
        run_remote_lem creatable details (map file_name names) outs (some code) target run_time
          send_time host made can only in
      let (r', done', held) =
        run_remote_files creatable details names outs code target run_time send_time host i name
          made can only apart at_i in
      (
        outs ++ done_message w (some code) target ∷ [],
        r,
        sent,
        sizes ∙ length-map file_name names,
        done,
        out ∙ ap (λ l. host.out ++ l) faithful.to_stdout,
        errors ∙ ap (λ l. host.errors ++ l) faithful.to_stderr,
        same_run (same_end (sym done ∙ done')) name
            (held ∙ ap (λ c. Maps.or_else c (Maps.lookup name host.files)) (faithful.to_files i)),
      )
