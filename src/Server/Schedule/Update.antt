-- ===== src/Server/Schedule/Update.antt =====
-- src/server.rs: the whole of `update`.
use spraycc.Base.{
  ℕ, ◌+◌, ◌≤◌, ◌<◌, ◌≡◌, sym, ap, ◌∙◌, Option, none, some, List, [], ◌∷◌, ok, ◌⊎◌, inl, inr, count,
  get_elem?, length, arith, >>=-eq-ok,
}
use spraycc.Server.Queue.{PriorityQueue}
use spraycc.Server.State.{
  Item, Env, ServerState, Remote, ConnectionType, pending, client, exec, dead,
}
use spraycc.Server.Dispatch.{check_queues, update}
use spraycc.Server.Start.{start_execs}
use spraycc.Server.Start.Same.{start_execs-Same}
use spraycc.Server.Invariant.{Slot, SlotAt, Slots, IsValid, entries, queued}
use spraycc.Server.Relay.Then.{Then-ok}
use spraycc.Server.Relay.Isolated.{paired_quiet}
use spraycc.Server.Schedule.{Handed, left_over, assign_tasks_lem}
use spraycc.Server.Schedule.Release.{AllReleased, check_queues_lem}

count-left_over :
    {B : Type 0} (j : ℕ) (xs : List ℕ) (ys : List B) → count j (left_over xs ys) ≤ count j xs
count-left_over j [] ys = omega arith
count-left_over j (x ∷ xs) [] = omega arith
count-left_over j (x ∷ xs) (y ∷ ys) = ground (arith, count-left_over j xs ys)

-- An id stands once in the queue of executors.
Slot-once : (t : ConnectionType) (o : Option ℕ) (q d : ℕ) → Slot t o q d → q + d ≤ 1
Slot-once pending none q d h = omega (arith, h.0, h.1)
Slot-once pending (some j) q d h = absurd h
Slot-once client none q d h = omega (arith, h.0, h.1)
Slot-once client (some j) q d h = omega (arith, h.0, h.1)
Slot-once exec none q d h = omega (arith, h.0, h.1)
Slot-once exec (some j) q d h = omega (arith, h.0, h.1)
Slot-once dead none q d h = h
Slot-once dead (some j) q d h = omega (arith, h.0, h.1)

SlotAt-once : (o : Option Remote) (q d : ℕ) → SlotAt o q d → q + d ≤ 1
SlotAt-once none q d h = omega (arith, h.0, h.1)
SlotAt-once (some r) q d h = Slot-once r.conn_type r.paired_id q d h

module _ (Q : PriorityQueue Item) where
  -- What was handed out is not taken back.
  Handed-others :
      (u t : ServerState Q) (es : List (Item × ℕ)) (xs : List ℕ)
      → ((j : ℕ) → queued j es + count j xs ≤ 1)
      → ((j : ℕ) → count j (left_over xs es) ≡ 0 → get_elem? t.remotes j ≡ get_elem? u.remotes j)
      → Handed Q u es xs
      → Handed Q t es xs
  Handed-others u t [] xs once others h = tt
  Handed-others u t (e ∷ es) [] once others h = tt
  Handed-others u t (e ∷ es) (x ∷ xs) once others
        (((rc, at_c, of_c), (rx, chan, at_x, of_x, sent)), rest) =
      let none_c : count e.0.0 (left_over xs es) ≡ 0 =
        ground (arith, once e.0.0, count-left_over e.0.0 xs es) in
      let none_x : count x (left_over xs es) ≡ 0 =
        ground (arith, once x, count-left_over x xs es) in
      (
        ((rc, others e.0.0 none_c ∙ at_c, of_c), (rx, chan, others x none_x ∙ at_x, of_x, sent)),
        Handed-others u t es xs (λ j. ground (arith, once j)) others rest,
      )

  -- What `update` makes of the remotes and the two queues.
  abbrev pub Updated : List Remote → List (Item × ℕ) → List ℕ → ServerState Q → Type 0
  Updated rs es xs t =
      Handed Q t es xs
      × (entries Q t ≡ left_over es xs)
      × ((t.exec_queue ≡ left_over xs es)
          ⊎ ((t.exec_queue ≡ []) × AllReleased Q t (left_over xs es)))
      × ((i j : ℕ) (e f : Item × ℕ)
          → get_elem? es i ≡ some e
          → i < length xs
          → get_elem? (entries Q t) j ≡ some f
          → f.1 ≤ e.1)
      × ((j : ℕ) (r : Remote) (p : ℕ)
          → get_elem? rs j ≡ some r
          → r.paired_id ≡ some p
          → get_elem? t.remotes j ≡ some r)

  check_queues-Updated :
      (env : Env) (s t : ServerState Q)
      → Slots s.remotes (entries Q s) s.exec_queue
      → check_queues Q env s ≡ ok t
      → Updated s.remotes (entries Q s) s.exec_queue t
  check_queues-Updated env s t slots returned =
      let (u, paired, ends) = check_queues_lem Q env s t returned in
      let (handed, left, idle, first, keeps) = assign_tasks_lem Q env s u paired in
      let once : (j : ℕ) → queued j (entries Q s) + count j s.exec_queue ≤ 1 =
        λ j. SlotAt-once (get_elem? s.remotes j) _ _ (slots j) in
      elim ends [
        | inr (stays, same) ↦ rw same (handed, left, inl idle, first, keeps)
        | inl (go, gone, empty, less, queue, others) ↦
            let others' : (j : ℕ)
                → count j (left_over s.exec_queue (entries Q s)) ≡ 0
                → get_elem? t.remotes j ≡ get_elem? u.remotes j =
              λ j none_is. others j (ap (count j) idle ∙ none_is) in
            let same_entries : entries Q t ≡ entries Q u = ap (PriorityQueue.entries Q) queue in
            (
              Handed-others u t (entries Q s) s.exec_queue once others' handed,
              same_entries ∙ left,
              inr (empty, rw idle at gone),
              λ i j e f at_i early at_j.
                  first i j e f at_i early (ap (λ l. get_elem? l j) (sym same_entries) ∙ at_j),
              λ j r p at_j of_j.
                  let slot : SlotAt (some r) (queued j (entries Q s)) (count j s.exec_queue) =
                    rw at_j at (slots j) in
                  let quiet = paired_quiet r.conn_type r.paired_id p _ _ of_j slot in
                  let none_is : count j (left_over s.exec_queue (entries Q s)) ≡ 0 =
                    omega (arith, count-left_over j s.exec_queue (entries Q s), quiet.1) in
                  others' j none_is ∙ keeps j r p at_j of_j,
            )
      ]

-- When `update` returns, from a valid state, the waiting tasks of the highest priorities have been handed
-- out, each to the executor that stands at its place in the queue of idle executors: the client and the
-- executor are paired with each other, and the task is the last message that the executor was sent. The
-- tasks left are those behind them, in their order, and none of them has a higher priority than one that
-- was handed out. The executors left are those behind them, and either all of them are still idle, or all
-- of them have been told to go and are marked as gone. A remote that was paired before is as it was.
pub update_lem :
    (Q : PriorityQueue Item) (env : Env) (s t : ServerState Q)
    → IsValid Q s
    → update Q env s ≡ ok t
    → Updated Q s.remotes (entries Q s) s.exec_queue t
unfolding update
update_lem Q env s t books returned =
    let (u, started, checked) = >>=-eq-ok (start_execs Q env s) (check_queues Q env) returned in
    let (rs, q, xs) = Then-ok _ _ started (start_execs-Same Q env s) in
    let es : entries Q u ≡ entries Q s = ap (PriorityQueue.entries Q) q in
    let slots : Slots u.remotes (entries Q u) u.exec_queue = rw (rs, es, xs) books.slots in
    let updated : Updated Q u.remotes (entries Q u) u.exec_queue t =
      check_queues-Updated Q env u t slots checked in
    rw (rs, es, xs) at updated
