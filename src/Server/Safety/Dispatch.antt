-- ===== src/Server/Safety/Dispatch.antt =====
-- Pairing and releasing keep the books, and do not panic.
use spraycc.Base.{
  ℕ, ◌^◌, ◌≤◌, ◌≡◌, refl, none, some, List, [], ◌∷◌, arith, ok, err, length, get_elem?, set,
  if◌then◌else◌, get_elem?-set, get_elem?-lt, ap, ◌∙◌, List-cases, ◌⊎◌, Bool-cases, inl, inr,
  Bool-cases, set-set, ◌≢◌,
}
use spraycc.Ipc.{TaskDetails, Message}
use spraycc.Server.Queue.{PriorityQueue, is_nil}
use spraycc.Server.State.{Item, Env, Fault, ServerState, Remote}
use spraycc.Server.Dispatch.{as_u32, assign, assign_tasks}
use spraycc.Server.Invariant.{Books, Closed, IsSound}
use spraycc.Server.Invariant.Slots.{queued-IsWaiting, IsIdle-IsIdle}
use spraycc.Server.Invariant.Pairing.{heads_differ, paired-Books, paired-Closed}
use spraycc.Server.Safety.Ensures.{Ensures, Ensures->>=}

module _ (Q : PriorityQueue Item) (env : Env) where
  -- The state after a pairing.
  abbrev assigned : ServerState Q → ℕ → TaskDetails → ℕ → Remote → Remote → ServerState Q
  assigned s c details x client exec = record s {
    remotes = set (set s.remotes c (record client { paired_id = some (as_u32 x) })) x (record exec {
      paired_id = some (as_u32 c);
      send_chan = Message.task 0 0 details ∷ exec.send_chan;
    });
  }

  assign_lem :
      (s : ServerState Q) (c : ℕ) (details : TaskDetails) (x : ℕ) (client exec : Remote)
      → c ≢ x
      → get_elem? s.remotes c ≡ some client
      → get_elem? s.remotes x ≡ some exec
      → client.paired_id ≡ none
      → exec.paired_id ≡ none
      → assign Q env c details x s ≡ (
          if env.accepts x (length exec.send_chan)
          then ok (assigned s c details x client exec)
          else err (Fault.send_failed x))
  unfolding assign
  assign_lem s c details x client exec ne at_c at_x free idle =
      let client' : Remote = record client { paired_id = some (as_u32 x) } in
      let exec' : Remote = record exec { paired_id = some (as_u32 c) } in
      let rs : List Remote = set s.remotes c client' in
      ground (
        arith,
        get_elem?-set s.remotes c x client' client at_c,
        get_elem?-set rs x x exec' exec,
        set-set rs x exec' (record exec' { send_chan = Message.task 0 0 details ∷ exec.send_chan }),
      )

  u32-small :
      (rs : List Remote) (i : ℕ) (r : Remote)
      → length rs ≤ 2 ^ 32
      → get_elem? rs i ≡ some r
      → some (as_u32 i) ≡ some i
  u32-small rs i r small at_i = ground (arith, get_elem?-lt rs i r at_i)

  assign-IsSound :
      (s : ServerState Q) (c : ℕ) (details : TaskDetails) (p x : ℕ) (xs : List ℕ)
      → Books s.remotes
          (((c, details), p) ∷ PriorityQueue.entries Q s.task_queue)
          (x ∷ xs)
          s.running_exec_count
          s.finish_count
          s.submit_count
      → Closed env s.remotes (x ∷ xs)
      → s.exec_queue ≡ xs
      → Ensures (λ t. IsSound Q env t × (t.exec_queue ≡ xs)) (assign Q env c details x s)
  assign-IsSound s c details p x xs books closed e =
      let es = PriorityQueue.entries Q s.task_queue in
      let entry : Item × ℕ = ((c, details), p) in
      let (client, at_c, waits) =
        queued-IsWaiting s.remotes (entry ∷ es) (x ∷ xs) books.slots c (ground arith) in
      let (exec, at_x, idle) =
        IsIdle-IsIdle s.remotes (entry ∷ es) (x ∷ xs) books.slots x (ground arith) in
      let ne = heads_differ s.remotes es xs entry x books.slots in
      let client' : Remote = record client { paired_id = some (as_u32 x) } in
      let exec' : Remote = record exec {
        paired_id = some (as_u32 c);
        send_chan = Message.task 0 0 details ∷ exec.send_chan;
      } in
      let x_small = u32-small s.remotes x exec books.small at_x in
      let c_small = u32-small s.remotes c client books.small at_c in
      rw (assign_lem s c details x client exec ne at_c at_x waits.0 idle)
        (elim (Bool-cases (env.accepts x (length exec.send_chan))) [
          | inl sent ↦ rw sent (
              rw e (
                (
                  paired-Books s.remotes es xs entry x books.slots client exec client' exec' at_c
                      at_x waits idle refl x_small refl c_small _ _ _ books,
                  paired-Closed s.remotes es xs entry x books.slots client exec client' exec' at_c
                      at_x waits idle refl x_small refl c_small env closed,
                ),
                refl,
              ))
          | inr unsent ↦ rw unsent refl
        ])

  -- Afterwards no task waits, or no executor does.
  abbrev pub Drained : ServerState Q → Type 0
  Drained s = (PriorityQueue.entries Q s.task_queue ≡ []) ⊎ (s.exec_queue ≡ [])

  -- The books, with the queues written out.
  pub sound_queues :
      (s : ServerState Q) (es : List (Item × ℕ)) (xs : List ℕ)
      → PriorityQueue.entries Q s.task_queue ≡ es
      → s.exec_queue ≡ xs
      → IsSound Q env s
      → Books s.remotes es xs s.running_exec_count s.finish_count s.submit_count
        × Closed env s.remotes xs
  sound_queues s es xs e e' sound = rw (← e, ← e') sound

  pub assign_tasks-IsSound :
      (xs : List ℕ) (s : ServerState Q)
      → s.exec_queue ≡ xs
      → IsSound Q env s
      → Ensures (λ t. IsSound Q env t × Drained t) (assign_tasks Q env xs s)
  unfolding assign_tasks
  assign_tasks-IsSound [] s e sound = (sound_queues s _ [] refl e sound, inr refl)
  assign_tasks-IsSound (x ∷ xs) s e sound =
      elim (List-cases (PriorityQueue.entries Q s.task_queue)) [
        | inl none_left ↦
            rw (PriorityQueue.is_empty_lem Q s.task_queue ∙ ap is_nil none_left, assign_tasks)
              (sound_queues s _ (x ∷ xs) refl e sound, inl none_left)
        | inr (entry, es, some_left) ↦
            let (q', popped, rest) = PriorityQueue.pop_some Q s.task_queue entry es some_left in
            let s' : ServerState Q = record s { task_queue = q'; exec_queue = xs } in
            let books = sound_queues s (entry ∷ es) (x ∷ xs) some_left e sound in
            rw
              (
                PriorityQueue.is_empty_lem Q s.task_queue ∙ ap is_nil some_left,
                popped,
                assign_tasks,
              )
              (Ensures->>= _ _ (assign Q env entry.0.0 entry.0.1 x s') _
                (assign-IsSound s' entry.0.0 entry.0.1 entry.1 x xs (rw rest books.0) books.1 refl)
                (λ t h. assign_tasks-IsSound xs t h.1 h.0))
      ]
