-- ===== src/Server/Safety/Dropped.antt =====
-- A connection drops.
use spraycc.Base.{
  ℕ, ◌-◌, ◌≤◌, ◌≡◌, refl, true, false, none, some, List, ◌∷◌, arith, ok, ltb, length, count,
  le-total, get_elem?, set, get_elem?-set, Bool-cases, inl, inr, Option-cases,
}
use spraycc.Ipc.{Message}
use spraycc.Server.Queue.{PriorityQueue}
use spraycc.Server.State.{Item, Env, ServerState, Remote, exec, dead, is_exec}
use spraycc.Server.Dispatch.{send}
use spraycc.Server.Handlers.{handle_dropped, notify_client}
use spraycc.Server.Invariant.{Books, SlotAt, IsSound, IsValid, runs, queued, may_be_client}
use spraycc.Server.Invariant.Changes.{set-Books}
use spraycc.Server.Safety.Ensures.{Ensures, Ensures->>=, Ensures-mono}
use spraycc.Server.Safety.Paired.{StillAt, sent-Books, client_of, found_client}

dropped-Books :
    (rs : List Remote) (es : List (Item × ℕ)) (xs : List ℕ) (run fin sub : ℕ) (x : ℕ) (r : Remote)
    → Books rs es xs run fin sub
    → get_elem? rs x ≡ some r
    → SlotAt (some r) (queued x es) (count x xs)
    → Books (set rs x (record r { conn_type = dead })) es xs (run - runs r) fin sub
dropped-Books rs es xs run fin sub x r books at_x slot =
    set-Books books x (record r { conn_type = dead }) r at_x es xs (run - runs r) fin sub
      (λ j h. (h.0, refl)) tt (ground arith) (λ j ne. (refl, refl))
      (omega (arith, le-total runs rs x r at_x, books.executors))
      (λ b h. omega (arith, books.tasks))

module _ (Q : PriorityQueue Item) (env : Env) where
  tell-IsSound :
      (s : ServerState Q) (x c : ℕ) (r other : Remote) (msg : Message)
      → IsSound Q env s
      → get_elem? s.remotes x ≡ some r
      → r.conn_type ≡ exec
      → get_elem? s.remotes c ≡ some other
      → may_be_client other.conn_type ≡ true
      → Ensures (StillAt Q env x r s) (send Q env c msg s)
  unfolding send
  tell-IsSound s x c r other msg sound at_x is at_c kind =
      let es = PriorityQueue.entries Q s.task_queue in
      let slot : SlotAt (some other) (queued c es) (count c s.exec_queue) =
        rw at_c at (sound.0.slots c) in
      let sent : Remote = record other { send_chan = msg ∷ other.send_chan } in
      rw at_c (elim (Bool-cases (env.accepts c (length other.send_chan))) [
        | inr refused ↦ rw refused refl
        | inl accepted ↦ rw accepted (
          sent-Books env s.remotes es s.exec_queue _ _ _ sound.0 sound.1 c other at_c slot
              (msg ∷ other.send_chan) kind,
          ground (arith, get_elem?-set s.remotes c x sent other at_c),
          refl,
        )
      ])

  notify_exec :
      (s : ServerState Q) (c : ℕ) (r : Remote)
      → is_exec r.conn_type ≡ true
      → r.paired_id ≡ some c
      → notify_client Q env r s ≡ send Q env c (Message.task_failed "exec dropped connection") s
  unfolding notify_client
  notify_exec s c r is runs_task = rw (is, runs_task)

  notify_idle :
      (s : ServerState Q) (r : Remote)
      → is_exec r.conn_type ≡ true
      → r.paired_id ≡ none
      → notify_client Q env r s ≡ ok s
  unfolding notify_client
  notify_idle s r is idle = rw (is, idle)

  notify_other :
      (s : ServerState Q) (r : Remote)
      → is_exec r.conn_type ≡ false
      → notify_client Q env r s ≡ ok s
  unfolding notify_client
  notify_other s r is_not = rw is_not

  notify-IsSound :
      (s : ServerState Q) (x : ℕ) (r : Remote)
      → IsSound Q env s
      → get_elem? s.remotes x ≡ some r
      → Ensures (StillAt Q env x r s) (notify_client Q env r s)
  notify-IsSound s x r sound at_x = elim (Bool-cases (is_exec r.conn_type)) [
    | inr other ↦ rw (notify_other s r other) (sound, at_x, refl)
    | inl is ↦ elim (Option-cases r.paired_id) [
      | inl idle ↦ rw (notify_idle s r is idle) (sound, at_x, refl)
      | inr (c, runs_task) ↦
          let found =
            found_client (get_elem? s.remotes c) x
              (client_of s.remotes x c r (rw at_x at (sound.0.links x)) (ground arith) runs_task) in
          rw (notify_exec s c r is runs_task)
            (tell-IsSound s x c r found.0 _ sound at_x (ground arith) found.1 found.2)
    ]
  ]

  abbrev gone : ServerState Q → ℕ → Remote → ServerState Q
  gone s x r = record s {
    running_exec_count = s.running_exec_count - runs r;
    remotes = set s.remotes x (record r { conn_type = dead });
  }

  dropped_lem :
      (s : ServerState Q) (x : ℕ) (r : Remote)
      → get_elem? s.remotes x ≡ some r
      → ((t : ServerState Q)
          → StillAt Q env x r s t
          → (get_elem? t.remotes x ≡ some r) × (runs r ≤ t.running_exec_count))
      → Ensures (StillAt Q env x r s) (notify_client Q env r s)
      → Ensures
          (λ u. (t : ServerState Q) × StillAt Q env x r s t × (u ≡ gone t x r))
          (handle_dropped Q env x s)
  unfolding handle_dropped
  dropped_lem s x r at_x bounds told = rw at_x (
      Ensures->>= (StillAt Q env x r s) _ (notify_client Q env r s) _ told (λ t h.
        elim (Bool-cases (is_exec r.conn_type)) [
          | inl is ↦
              let small : ltb t.running_exec_count 1 ≡ false = ground (arith, bounds t h) in
              rw (is, small, (bounds t h).0) (t, h, ground arith)
          | inr other ↦ rw (other, (bounds t h).0) (t, h, ground arith)
        ]))

  -- Whatever connection drops, the counters are right afterwards.
  pub handle_dropped-IsValid :
      (s : ServerState Q) (x : ℕ) (r : Remote)
      → IsSound Q env s
      → get_elem? s.remotes x ≡ some r
      → Ensures (IsValid Q) (handle_dropped Q env x s)
  handle_dropped-IsValid s x r sound at_x =
      Ensures-mono _ _ (handle_dropped Q env x s)
        (dropped_lem s x r at_x
          (λ t h. (h.1, omega (arith, le-total runs t.remotes x r h.1, h.0.0.executors)))
          (notify-IsSound s x r sound at_x))
        (λ u h. rw h.2 (
          dropped-Books h.0.remotes _ h.0.exec_queue _ _ _ x r h.1.0.0 h.1.1
            (rw h.1.1 at (h.1.0.0.slots x))))
