-- ===== src/Server/Safety/Release.antt =====
-- Releasing idle executors keeps the books.
use spraycc.Base.{
  ℕ, ◌-◌, ◌<◌, ◌≡◌, refl, true, false, Option, none, some, List, [], ◌∷◌, arith, ok, err, length,
  count, le-total, get_elem?, set, get_elem?-set, set-set, Bool-cases, inl, inr,
}
use spraycc.Ipc.{Message}
use spraycc.Server.Queue.{PriorityQueue}
use spraycc.Server.State.{Item, Env, Fault, ServerState, Remote, ConnectionType, dead, is_exec}
use spraycc.Server.Dispatch.{release, release_execs, check_queues, assign_tasks, ok_to_release}
use spraycc.Server.Invariant.{Books, Closed, SlotAt, Slot, IsSound, runs, busy, is_dead, queued}
use spraycc.Server.Invariant.Slots.{IsIdle, IsIdle-IsIdle}
use spraycc.Server.Invariant.Changes.{set-Books, set-Closed}
use spraycc.Server.Safety.Ensures.{Ensures, Ensures->>=, Ensures-mono}
use spraycc.Server.Safety.Dispatch.{sound_queues, Drained, assign_tasks-IsSound}

module _ (Q : PriorityQueue Item) (env : Env) where
  abbrev dismissed : Remote → Remote
  dismissed r = record r { conn_type = dead; send_chan = Message.piss_off ∷ r.send_chan }

  release_refused :
      (s : ServerState Q) (x : ℕ) (r : Remote)
      → get_elem? s.remotes x ≡ some r
      → env.accepts x (length r.send_chan) ≡ false
      → release Q env x s ≡ err (Fault.send_failed x)
  unfolding release
  release_refused s x r at_x refused =
      let r' : Remote = record r { conn_type = dead } in
      ground (arith, get_elem?-set s.remotes x x r' r at_x)

  release_sent :
      (s : ServerState Q) (x : ℕ) (r : Remote)
      → get_elem? s.remotes x ≡ some r
      → env.accepts x (length r.send_chan) ≡ true
      → 0 < s.running_exec_count
      → release Q env x s
        ≡ ok (record s {
          remotes = set s.remotes x (dismissed r);
          running_exec_count = s.running_exec_count - 1;
        })
  unfolding release
  release_sent s x r at_x sent pos =
      let r' : Remote = record r { conn_type = dead } in
      ground (arith, get_elem?-set s.remotes x x r' r at_x, set-set s.remotes x r' (dismissed r))

  -- A remote at the head of the executor queue that is not dead is an idle executor.
  idle-exec :
      (t : ConnectionType) (p : Option ℕ) (q d : ℕ)
      → Slot t p q d
      → 0 < d
      → is_dead t ≡ false
      → (is_exec t ≡ true) × (p ≡ none) × (q ≡ 0) × (d ≡ 1)
  idle-exec t p q d slot pos alive = ground arith

  -- An executor at the head of the queue that takes its dismissal.
  dismissed-IsSound :
      (s : ServerState Q) (x : ℕ) (xs : List ℕ) (r : Remote) (es : List (Item × ℕ))
      → (run fin sub : ℕ) → Books s.remotes es (x ∷ xs) run fin sub
      → Closed env s.remotes (x ∷ xs)
      → get_elem? s.remotes x ≡ some r
      → (is_exec r.conn_type ≡ true) × (r.paired_id ≡ none) × (queued x es ≡ 0) × (count x xs ≡ 0)
      → Books (set s.remotes x (dismissed r)) es xs (run - 1) fin sub
        × Closed env (set s.remotes x (dismissed r)) xs
        × (0 < run)
  dismissed-IsSound s x xs r es run fin sub books closed at_x (is, free, no_task, once) =
      let some_run : runs r ≡ 1 = ground arith in
      let not_busy : busy r ≡ 0 = ground arith in
      let pos : 0 < run = omega (arith, books.executors, le-total runs s.remotes x r at_x) in
      (
        set-Books books x (dismissed r) r at_x es xs (run - 1) fin sub (λ j h. ground arith) tt
            (ground arith) (λ j ne. ground arith) (ground arith)
            (λ b h. omega (arith, books.tasks)),
        set-Closed env s.remotes (x ∷ xs) closed x (dismissed r) r at_x xs (λ j ne. ground arith)
            (λ gone inside. absurd (omega arith)),
        pos,
      )

  release-IsSound_at :
      (s : ServerState Q) (x : ℕ) (xs : List ℕ) (r : Remote)
      → Books s.remotes
          (PriorityQueue.entries Q s.task_queue)
          (x ∷ xs)
          s.running_exec_count
          s.finish_count
          s.submit_count
      → Closed env s.remotes (x ∷ xs)
      → s.exec_queue ≡ xs
      → get_elem? s.remotes x ≡ some r
      → IsIdle r
      → SlotAt (some r) (queued x (PriorityQueue.entries Q s.task_queue)) (count x (x ∷ xs))
      → Ensures (λ t. IsSound Q env t × (t.exec_queue ≡ xs)) (release Q env x s)
  release-IsSound_at s x xs r books closed e at_x idle slot =
      elim (Bool-cases (env.accepts x (length r.send_chan))) [
        | inr refused ↦ rw (release_refused s x r at_x refused) refl
        | inl sent ↦
            let alive : is_dead r.conn_type ≡ false = ground (
              arith,
              closed x r at_x,
              λ (d : is_dead r.conn_type ≡ true).
                  closed x r at_x d (ground arith) (length r.send_chan),
            ) in
            let kept =
              dismissed-IsSound s x xs r (PriorityQueue.entries Q s.task_queue) s.running_exec_count
                s.finish_count s.submit_count books closed at_x (ground arith) in
            rw (release_sent s x r at_x sent kept.2) (rw e ((kept.0, kept.1), refl))
      ]

  release-IsSound :
      (s : ServerState Q) (x : ℕ) (xs : List ℕ)
      → Books s.remotes
          (PriorityQueue.entries Q s.task_queue)
          (x ∷ xs)
          s.running_exec_count
          s.finish_count
          s.submit_count
      → Closed env s.remotes (x ∷ xs)
      → s.exec_queue ≡ xs
      → Ensures (λ t. IsSound Q env t × (t.exec_queue ≡ xs)) (release Q env x s)
  release-IsSound s x xs books closed e =
      let found =
        IsIdle-IsIdle s.remotes (PriorityQueue.entries Q s.task_queue) (x ∷ xs) books.slots x
          (ground arith) in
      release-IsSound_at s x xs found.0 books closed e found.1 found.2
        (rw found.1 at (books.slots x))

  release_execs-IsSound :
      (xs : List ℕ) (s : ServerState Q)
      → s.exec_queue ≡ xs
      → IsSound Q env s
      → Ensures (λ t. IsSound Q env t × (t.exec_queue ≡ [])) (release_execs Q env xs s)
  unfolding release_execs
  release_execs-IsSound [] s e sound = (sound_queues Q env s _ [] refl e sound, refl)
  release_execs-IsSound (x ∷ xs) s e sound =
      let books = sound_queues Q env s _ (x ∷ xs) refl e sound in
      let s' : ServerState Q = record s { exec_queue = xs } in
      Ensures->>= _ _ (release Q env x s') (release_execs Q env xs)
        (release-IsSound s' x xs books.0 books.1 refl) (λ t h. release_execs-IsSound xs t h.1 h.0)

  -- After `check_queues` no task waits while an executor is idle.
  pub check_queues-IsSound :
      (s : ServerState Q)
      → IsSound Q env s
      → Ensures (λ t. IsSound Q env t × Drained Q env t) (check_queues Q env s)
  unfolding check_queues
  check_queues-IsSound s sound =
      Ensures->>= _ _ (assign_tasks Q env s.exec_queue s) _
        (assign_tasks-IsSound Q env s.exec_queue s refl sound)
        (λ t h. elim (Bool-cases (ok_to_release Q env t)) [
          | inl idle ↦ rw idle (
              Ensures-mono _ _ (release_execs Q env t.exec_queue t)
                (release_execs-IsSound t.exec_queue t refl h.0) (λ u k. (k.0, inr k.1)))
          | inr active ↦ rw active h
        ])
