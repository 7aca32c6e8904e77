-- ===== src/Exec/Protocol.antt =====
-- src/exec.rs: what the server may expect of an executor, as a language of messages, and that every
-- run of the executor keeps to it.
use spraycc.Base.{
  ℕ, ◌-◌, ℤ, String, Bool, true, Option, none, some, List, [], ◌∷◌, ◌++◌, ◌≡◌, refl, sym, ap, ◌∙◌,
  Result, ok, err, or_fail, ◌>>=◌, all, append_assoc, arith, Bool-cases, inl, inr, Option-cases,
}
use spraycc.Ipc.{CallMe, TaskDetails, Message, get_target_id}
use spraycc.Ipc.Message.{
  your_obedient_servant, task, task_output, task_failed, task_done, cancel_task, piss_off, dropped,
}
use spraycc.Task.Start.{Child, StartFault, failed, spawn_failed, bad_index, search_ran_on}
use spraycc.Exec.{
  Socket, ExecFault, World, Incoming, message, closed, read_error, write, wait_failed, send_files,
  run_task, after_start, handle_new_task, serve, run,
}
use spraycc.Exec.Sending.{add-nil}
use spraycc.Exec.Emitting.{
  is_task_output, Emits, Outs, Emits->>=, Emits-mono, Outs-append, write-Emits, pump-Emits,
  send_files-Emits,
}

-- How the answer to a task ends: with its target, or with an error.
abbrev pub Closes : TaskDetails → Message → Type 0
Closes t (task_done exit_code target_id run_time send_time) = get_target_id t ≡ some target_id
Closes t (task_failed error_message) = Unit
Closes t _ = ⊥

-- The answers to tasks, one behind the other: output messages, and one message that closes.
pub data Replies : List TaskDetails → List Message → Type 0 where
  no_more : Replies [] []
  answer :
      {t : TaskDetails} {ts : List TaskDetails} {msgs : List Message}
      → (outs rest : List Message) (last : Message) → all is_task_output outs ≡ true
      → Closes t last
      → Replies ts rest
      → msgs ≡ (outs ++ last ∷ rest)
      → Replies (t ∷ ts) msgs

-- The tasks up to the end of a run.
abbrev pub tasks_of : List Incoming → List TaskDetails
tasks_of [] = []
tasks_of (message w (task access_code user_code details) ∷ rest) = details ∷ tasks_of rest
tasks_of (_ ∷ rest) = []

-- Output messages and one that closes.
abbrev Answers : TaskDetails → List Message → Type 0
Answers t msgs =
    (outs : List Message) × (last : Message) × (msgs ≡ (outs ++ last ∷ []))
    × Outs outs
    × Closes t last

close_with :
    (t : TaskDetails) (xs ys : List Message) (last : Message)
    → Closes t last
    → Outs xs
    → ys ≡ last ∷ []
    → Answers t (xs ++ ys)
close_with t xs ys last closes outs e = (xs, last, ap (λ l. xs ++ l) e, outs, closes)

join-Answers :
    (t : TaskDetails) (xs ys : List Message) → Outs xs → Answers t ys → Answers t (xs ++ ys)
join-Answers t xs ys o (outs, last, e, outs_only, closes) = (
  xs ++ outs,
  last,
  ap (λ l. xs ++ l) e ∙ sym (append_assoc xs outs (last ∷ [])),
  Outs-append xs outs o outs_only,
  closes,
)

alone :
    (t : TaskDetails) (last : Message)
    → Closes t last
    → (msgs : List Message) → msgs ≡ last ∷ []
    → Answers t msgs
alone t last closes msgs e = ([], last, e, refl, closes)

write-Answers :
    (t : TaskDetails) (last : Message) (s : Socket)
    → Closes t last
    → Emits (Answers t) s (write last s)
write-Answers t last s closes =
    Emits-mono _ (Answers t) s (write last s) (alone t last closes) (write-Emits last s)

-- After the streams: the exit status, the files and the message that closes.
finish-Answers :
    (w : World) (child : Child) (waited : Option (Option ℤ)) (paths : List String) (target : String)
    (t : TaskDetails) (s : Socket)
    → get_target_id t ≡ some target
    → Emits (Answers t) s (do
      status ← or_fail waited wait_failed
      s' ← send_files child.opened 0 paths s
      write
          (task_done status target
            (w.times.task_finish - w.times.start_time)
            (w.times.send_finish - w.times.task_finish))
          s')
finish-Answers w child none paths target t s has_target = tt
finish-Answers w child (some status) paths target t s has_target =
    Emits->>= Outs (Answers t) (Answers t) s _ _ (join-Answers t)
      (send_files-Emits child.opened 0 paths s)
      (λ s'. write-Answers t (task_done status target _ _) s' has_target)

run_task-Answers :
    (w : World) (child : Child) (paths : List String) (target : String) (t : TaskDetails)
    (s : Socket)
    → get_target_id t ≡ some target
    → Emits (Answers t) s (run_task w child paths target s)
unfolding run_task
run_task-Answers w child paths target t s has_target =
    Emits->>= Outs (Answers t) (Answers t) s _ _ (join-Answers t) (pump-Emits w.schedule _)
      (λ s'. finish-Answers w child child.wait paths target t s' has_target)

after_start-Answers :
    (w : World) (target : String) (started : Result StartFault (Child × List String))
    (t : TaskDetails) (s : Socket)
    → get_target_id t ≡ some target
    → Emits (Answers t) s (after_start w target started s)
unfolding after_start
after_start-Answers w target (ok (child, paths)) t s h = run_task-Answers w child paths target t s h
after_start-Answers w target (err (failed e)) t s h = write-Answers t (task_failed e) s tt
after_start-Answers w target (err spawn_failed) t s h = tt
after_start-Answers w target (err bad_index) t s h = tt
after_start-Answers w target (err search_ran_on) t s h = tt

handle_new_task-Answers :
    (w : World) (t : TaskDetails) (s : Socket) → Emits (Answers t) s (handle_new_task w t s)
unfolding handle_new_task
handle_new_task-Answers w t s = elim (Option-cases (get_target_id t)) [
  | inl missing ↦ rw missing tt
  | inr (target, has_target) ↦ rw has_target (after_start-Answers w target _ t s has_target)
]

reply :
    (t : TaskDetails) (ts : List TaskDetails) (xs ys : List Message)
    → Answers t xs
    → Replies ts ys
    → Replies (t ∷ ts) (xs ++ ys)
reply t ts xs ys (outs, last, e, outs_only, closes) more =
    answer outs ys last outs_only closes more
      (ap (λ l. l ++ ys) e ∙ append_assoc outs (last ∷ []) ys)

serve-Replies :
    (incoming : List Incoming) (s : Socket)
    → Emits (Replies (tasks_of incoming)) s (serve incoming s)
unfolding serve
serve-Replies [] s = tt
serve-Replies (message w (task access_code user_code details) ∷ rest) s =
    Emits->>= (Answers details) (Replies (tasks_of rest)) _ s _ _ (reply details (tasks_of rest))
      (handle_new_task-Answers w details s) (serve-Replies rest)
serve-Replies (message w cancel_task ∷ rest) s = tt
serve-Replies (message w piss_off ∷ rest) s = ([], sym (add-nil s), no_more)
serve-Replies (message w (your_obedient_servant a u) ∷ rest) s = tt
serve-Replies (message w (task_output o c) ∷ rest) s = tt
serve-Replies (message w (task_failed e) ∷ rest) s = tt
serve-Replies (message w (task_done c t r x) ∷ rest) s = tt
serve-Replies (message w dropped ∷ rest) s = tt
serve-Replies (closed ∷ rest) s = ([], sym (add-nil s), no_more)
serve-Replies (read_error ∷ rest) s = tt

err-ne-ok : {fault : ExecFault} {s : Socket} → err fault ≡ ok s → ⊥
err-ne-ok e = cc

sent_by :
    (P : List Message → Type 0) (s s' : Socket) (r : Result ExecFault Socket)
    → Emits P s r
    → r ≡ ok s'
    → (msgs : List Message) × (s'.sent ≡ (s.sent ++ msgs)) × P msgs
sent_by P s s' (err e) one h = cc
sent_by P s s' (ok t) (msgs, e, p) h = (msgs, ground (arith, h, e), p)

-- An executor that comes to an end of its run has sent its access code and the user's key, and then
-- for each task that it was sent, in their order, output messages and one message that closes: the
-- `TaskDone` of that task's target, or a `TaskFailed`.
pub run-Replies :
    (callme : CallMe) (user_private_key : ℕ) (incoming : List Incoming) (takes : ℕ → Bool)
    (s : Socket)
    → run callme user_private_key incoming takes ≡ ok s
    → (msgs : List Message) × (s.sent
        ≡ your_obedient_servant callme.access_code user_private_key ∷ msgs)
      × Replies (tasks_of incoming) msgs
unfolding run write
run-Replies callme key incoming takes s e = elim (Bool-cases (takes 0)) [
  | inl first ↦
      let hello : Socket = record {
        sent = your_obedient_servant callme.access_code key ∷ [];
        takes = takes;
      } in
      sent_by (Replies (tasks_of incoming)) hello s (serve incoming hello)
        (serve-Replies incoming hello) (rw first at e)
  | inr broken ↦ absurd (err-ne-ok (rw broken at e))
]
