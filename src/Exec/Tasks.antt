-- ===== src/Exec/Tasks.antt =====
-- src/exec.rs: a task that starts, from the message with the task to the messages with its results.
use spraycc.Base.{
  ℕ, suc, ◌+◌, ◌-◌, ◌≤◌, ◌<◌, ℤ, String, true, false, Option, none, some, List, [], ◌∷◌, ◌++◌, ◌≡◌,
  refl, sym, ap, ◌∙◌, ok, length, length-map, map, all, append-nil, arith, ltb,
}
use spraycc.Ipc.{OutputType, TaskDetails, Message, get_target_id}
use spraycc.Ipc.Targets.{get_target_id_lem}
use spraycc.Ipc.Outputs.{
  is_output, stdout_of, stderr_of, stdout_of-append, stderr_of-append, file_step, file_after,
  file_after-append, all-append,
}
use spraycc.Task.{redirect_outputs}
use spraycc.Task.Names.{Apart}
use spraycc.Task.Redirect.{Rewritten, argument_at, path_in, redirect_outputs_lem}
use spraycc.Task.Start.{Child, ExecHost, redirected, start_task, start}
use spraycc.Exec.{Socket, World, run_task, after_start, handle_new_task}
use spraycc.Exec.Sending.{Takes, add, add-add, write_lem}
use spraycc.Exec.Pumping.{text, pump_lem}
use spraycc.Exec.Files.{content_at, readable_opened, extended, send_files_lem}

is_output_more : (n : ℕ) (msg : Message) → is_output 0 msg ≡ true → is_output n msg ≡ true
is_output_more n (Message.task_output OutputType.stdout content) h = refl
is_output_more n (Message.task_output OutputType.stderr content) h = refl
is_output_more n (Message.task_output (OutputType.file idx) content) h = ground arith
is_output_more n _ h = cc

all_more :
    (n : ℕ) (msgs : List Message) → all (is_output 0) msgs ≡ true → all (is_output n) msgs ≡ true
all_more n [] h = refl
all_more n (msg ∷ msgs) h = ground (arith, is_output_more n msg, all_more n msgs)

no_file :
    (i : ℕ) (msg : Message) (c : Option (List ℕ)) → is_output 0 msg ≡ true → file_step i msg c ≡ c
no_file i (Message.task_output OutputType.stdout content) c h = refl
no_file i (Message.task_output OutputType.stderr content) c h = refl
no_file i (Message.task_output (OutputType.file idx) content) c h = ground arith
no_file i _ c h = refl

no_files :
    (i : ℕ) (msgs : List Message) (c : Option (List ℕ))
    → all (is_output 0) msgs ≡ true
    → file_after i msgs c ≡ c
no_files i [] c h = refl
no_files i (msg ∷ msgs) c h =
    ap (file_after i msgs) (no_file i msg c (ground arith)) ∙ no_files i msgs c (ground arith)

-- Output messages that carry what a process wrote: its lines to the streams, and the content of the
-- files at `paths`.
pub record Faithful (child : Child) (paths : List String) (outs : List Message) : Type 0 where
  pub to_stdout : stdout_of outs ≡ text child.stdout
  pub to_stderr : stderr_of outs ≡ text child.stderr
  pub only_outputs : all (is_output (length paths)) outs ≡ true
  pub to_files :
      (i : ℕ) → file_after i outs none ≡ extended none (content_at child.opened 0 paths i)

abbrev pub Readable : Child → Type 0
Readable child = (path : String) → readable_opened (child.opened path) ≡ true

all_readable :
    (child : Child) (paths : List String)
    → Readable child
    → all (λ path. readable_opened (child.opened path)) paths ≡ true
all_readable child [] h = refl
all_readable child (path ∷ paths) h = ground (arith, h path, all_readable child paths h)

abbrev pub done_message : World → Option ℤ → String → Message
done_message w status target =
    Message.task_done status target (w.times.task_finish - w.times.start_time)
      (w.times.send_finish - w.times.task_finish)

run_task_lem :
    (w : World) (child : Child) (paths : List String) (target : String) (status : Option ℤ)
    (s : Socket)
    → Takes s
    → child.wait ≡ some status
    → Readable child
    → suc (length child.stdout) + suc (length child.stderr) ≤ length w.schedule
    → (outs : List Message) × (run_task w child paths target s
        ≡ ok (add s (outs ++ done_message w status target ∷ [])))
      × Faithful child paths outs
unfolding run_task all_readable
run_task_lem w child paths target status s t exits good enough =
    let (xs, sent, lines) =
      pump_lem w.schedule
        (record {
          stdout_done = false;
          stderr_done = false;
          stdout = child.stdout;
          stderr = child.stderr;
          socket = s;
        })
        t enough in
    let (ys, rest, carried) =
      send_files_lem (length paths) child.opened 0 paths (add s xs) t
        (all_readable child paths good) (omega arith) in
    let done = done_message w status target in
    (
      xs ++ ys,
      rw (sent, exits, rest)
          (write_lem done (add (add s xs) ys) t
            ∙ ap (λ s'. ok (add s' (done ∷ []))) (add-add s xs ys)
            ∙ ap (λ s'. ok s') (add-add s (xs ++ ys) (done ∷ []))),
      record {
        to_stdout =
            stdout_of-append xs ys
            ∙ ap (λ l. stdout_of xs ++ l) carried.no_stdout
            ∙ append-nil (stdout_of xs)
            ∙ lines.to_stdout;
        to_stderr =
            stderr_of-append xs ys
            ∙ ap (λ l. stderr_of xs ++ l) carried.no_stderr
            ∙ append-nil (stderr_of xs)
            ∙ lines.to_stderr;
        only_outputs =
            all-append (is_output (length paths)) xs ys
              (all_more (length paths) xs lines.only_streams) carried.only_outputs;
        to_files = λ i.
            file_after-append i xs ys none
            ∙ ap (file_after i ys) (no_files i xs none lines.only_streams)
            ∙ carried.each i none;
      },
    )

abbrev pub after_name : List String → List String
after_name [] = []
after_name (name ∷ args) = args

-- A host on which a task starts, as `child`: this is what the process becomes whose arguments are those
-- of the task with `paths` in place of its output files, and `paths` are those that
-- `redirect_outputs` makes.
pub record Starts (host : ExecHost) (details : TaskDetails) (child : Child) : Type 0 where
  pub in_directory : host.exists details.working_dir ≡ true
  pub has_command : host.exists details.cmd ≡ true
  pub dir : String
  pub makes_dir : host.tempdir ≡ some dir
  pub prints_apart : Apart host.show
  pub paths : List String
  pub makes_paths :
      (new_args made : List String)
      → redirect_outputs host.show (some dir) details.args details.output_args ≡ ok (new_args, made)
      → made ≡ paths
  pub spawns :
      (new_args : List String)
      → Rewritten details.args details.output_args paths new_args
      → host.spawn details.working_dir details.cmd (after_name new_args) details.env ≡ some child
  pub named : 0 < length details.args
  pub in_range : all (λ i. ltb i (length details.args)) details.output_args ≡ true

start_task_lem :
    (host : ExecHost) (details : TaskDetails) (child : Child) (args : List String)
    → (starts : Starts host details child)
    → Rewritten details.args details.output_args starts.paths args
    → start_task host details.working_dir details.cmd args details.env ≡ ok child
unfolding start_task
start_task_lem host details child [] starts written =
    absurd (omega (arith, starts.named, written.0))
start_task_lem host details child (name ∷ args) starts written =
    rw (starts.spawns (name ∷ args) written) refl

start_step :
    (host : ExecHost) (details : TaskDetails) (child : Child) (args paths : List String)
    → host.exists details.working_dir ≡ true
    → host.exists details.cmd ≡ true
    → redirect_outputs host.show host.tempdir details.args details.output_args ≡ ok (args, paths)
    → start_task host details.working_dir details.cmd args details.env ≡ ok child
    → start host details.working_dir details.cmd details.args details.output_args details.env
      ≡ ok (child, paths)
unfolding start
start_step host details child args paths a b c d = rw (a, b, c, redirected, d)

start_lem :
    (host : ExecHost) (details : TaskDetails) (child : Child)
    → (starts : Starts host details child)
    → (start host details.working_dir details.cmd details.args details.output_args details.env
        ≡ ok (child, starts.paths))
      × (length starts.paths ≡ length details.output_args)
start_lem host details child starts =
    let (new_args, names, made, written, each, fresh) =
      redirect_outputs_lem host.show starts.dir details.args details.output_args starts.prints_apart
        starts.in_range in
    let same = starts.makes_paths new_args (map (path_in starts.dir) names) made in
    (
      start_step host details child new_args starts.paths starts.in_directory starts.has_command
          (ap (λ d. redirect_outputs host.show d details.args details.output_args) starts.makes_dir
            ∙ made
            ∙ ap (λ paths. ok (new_args, paths)) same)
          (start_task_lem host details child new_args starts
            (written.0, λ j. written.1 j ∙ ap (argument_at j _ details.output_args) same)),
      sym (ap length same) ∙ length-map (path_in starts.dir) names ∙ each,
    )

-- Where a task starts, its process ends, the files that it leaves can be read, the socket takes every
-- message and the schedule is as long as the lines of both streams and two, `handle_new_task` sends
-- output messages and one `TaskDone`. The process is started with the path of a temporary file in
-- place of each output file. The output messages give the standard output and the standard error the
-- lines that the process wrote there up to the first that cannot be read, as one that is not UTF-8,
-- each ended by a line feed, in their order and whatever the schedule; and each file the content that
-- the process left at its path, and nothing where that is empty. The `TaskDone` has the exit code and
-- the target's id.
pub handle_new_task_lem :
    (w : World) (details : TaskDetails) (child : Child) (status : Option ℤ) (s : Socket)
    → Takes s
    → (starts : Starts w.host details child) → child.wait ≡ some status
    → Readable child
    → suc (length child.stdout) + suc (length child.stderr) ≤ length w.schedule
    → (target : String) × (outs : List Message) × (get_target_id details ≡ some target)
      × (handle_new_task w details s ≡ ok (add s (outs ++ done_message w status target ∷ [])))
      × (length starts.paths ≡ length details.output_args)
      × Faithful child starts.paths outs
unfolding handle_new_task after_start
handle_new_task_lem w details child status s t starts exits readable enough =
    let (target, has_target) = get_target_id_lem details starts.in_range in
    let (started, each) = start_lem w.host details child starts in
    let (outs, sent, faithful) =
      run_task_lem w child starts.paths target status s t exits readable enough in
    (target, outs, has_target, rw (has_target, started) sent, each, faithful)
