-- ===== src/Client/Output/Laws.antt =====
-- src/client.rs: what the client has written when it stops waiting for messages.
use spraycc.Base.Maps
use spraycc.Base.Maps.{Map}
use spraycc.Base.{
  ℕ, sym, length-map, get_elem?-map, get_elem?, ℤ, String, Bool, true, Option, none, some, List, [],
  ◌∷◌, ◌++◌, Result, ok, err, ◌≡◌, refl, map, length, all,
}
use spraycc.Ipc.{TaskDetails, Message}
use spraycc.Client.Output.{
  LazyFile, file_name, ClientFault, no_status, Host, Receiver, handle_msg, wait_for_status,
  make_output_files, shutdown, finish_run, run_remote,
}
use spraycc.Ipc.Outputs.{is_output, stdout_of, stderr_of, file_after}
use spraycc.Client.Output.Files.{distinct, HeldAt}
use spraycc.Client.Output.Receiving.{ready, outputs_received}

-- How `run` ends on the exit code of the `TaskDone` behind the output.
abbrev pub Ended : Option ℤ → Result ClientFault (ℤ × Receiver) → Host → List Message → Type 0
Ended none res host outs = res ≡ err no_status
Ended (some code) res host outs =
    (r : Receiver) × (res ≡ ok (code, r))
    × (r.host.out ≡ (host.out ++ stdout_of outs))
    × (r.host.errors ≡ (host.errors ++ stderr_of outs))

-- Where the server took the task, the files that it names can be created and then come outputs of
-- the task, a `TaskDone` and the end of the connection: if the task exited, `run` returns its exit
-- code, and has written the outputs for each stream to it, in their order; if a signal ended the
-- task, `run` panics for want of a status.
pub run_remote_lem :
    (creatable : String → Bool) (task : TaskDetails) (files : List LazyFile) (outs : List Message)
    (exit_code : Option ℤ) (target : String) (run_time send_time : ℕ) (host : Host)
    → make_output_files task.args task.output_args ≡ some files
    → all (ready creatable) files ≡ true
    → all (is_output (length files)) outs ≡ true
    → Ended exit_code
        (run_remote creatable task true
          (outs ++ Message.task_done exit_code target run_time send_time ∷ [])
          true
          host)
        host
        outs
unfolding run_remote wait_for_status handle_msg finish_run
run_remote_lem creatable task files outs none target run_time send_time host made h o =
    let done = Message.task_done none target run_time send_time in
    let start : Receiver = record { output_files = files; host = host } in
    let (r, waited, new) = outputs_received creatable outs (done ∷ []) true start h o in
    rw (made, waited) refl
run_remote_lem creatable task files outs (some code) target run_time send_time host made h o =
    let done = Message.task_done (some code) target run_time send_time in
    let start : Receiver = record { output_files = files; host = host } in
    let (r, waited, new) = outputs_received creatable outs (done ∷ []) true start h o in
    (
      record r { output_files = map shutdown r.output_files },
      rw (made, waited) refl,
      new.more_out,
      new.more_errors,
    )

holds :
    (old now : Map (List ℕ)) (lazy : Option LazyFile) (name : String) (c : Option (List ℕ))
    → HeldAt old now lazy name c
    → Maps.lookup name now ≡ Maps.or_else c (Maps.lookup name old)
holds old now lazy name none (e, f) = f
holds old now lazy name (some bytes) (e, f) = f

-- Where the server took the task, the files that it names can be created and their names are
-- pairwise different, and then come outputs of the task, a `TaskDone` with an exit code and the end
-- of the connection, `run` returns that code, and the file of each index holds the outputs for that
-- index behind one another, in their order; a file that no output is for is what it was before.
pub run_remote_files :
    (creatable : String → Bool) (task : TaskDetails) (names : List String) (outs : List Message)
    (code : ℤ) (target : String) (run_time send_time : ℕ) (host : Host) (i : ℕ) (name : String)
    → make_output_files task.args task.output_args ≡ some (map file_name names)
    → all (ready creatable) (map file_name names) ≡ true
    → all (is_output (length (map file_name names))) outs ≡ true
    → distinct names ≡ true
    → get_elem? names i ≡ some name
    → (r : Receiver) × (run_remote creatable task true
          (outs ++ Message.task_done (some code) target run_time send_time ∷ [])
          true
          host
        ≡ ok (code, r))
      × (Maps.lookup name r.host.files
          ≡ Maps.or_else (file_after i outs none) (Maps.lookup name host.files))
unfolding run_remote wait_for_status handle_msg finish_run
run_remote_files creatable task names outs code target run_time send_time host i name made h o d
      at =
    let done = Message.task_done (some code) target run_time send_time in
    let begin : Receiver = record { output_files = map file_name names; host = host } in
    let (r, waited, new) = outputs_received creatable outs (done ∷ []) true begin h o in
    let held =
      new.more_files names host.files (λ i. none) d (sym (length-map file_name names))
        (λ j n at_j. (get_elem?-map file_name names j n at_j, refl)) in
    (
      record r { output_files = map shutdown r.output_files },
      rw (made, waited) refl,
      holds host.files r.host.files (get_elem? r.output_files i) name (file_after i outs none)
          (held i name at),
    )
