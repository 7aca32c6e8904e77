-- ===== src/Server/Schedule.antt =====
-- src/server.rs: which executor gets which task in `check_queues`.
pub mod Release
pub mod Update
pub mod Next
use spraycc.Base.{
  ℕ, zero, suc, ◌+◌, ◌%◌, ◌^◌, ◌≤◌, ◌<◌, ◌≡◌, refl, sym, ap, ◌∙◌, Bool, true, false, not, Option,
  none, some, List, [], ◌∷◌, Result, ok, err, ◌>>=◌, ◌>>◌, require, get_elem?, get_elem?-set,
  length, ◌==◌, if◌then◌else◌, arith, Bool-cases, inl, inr,
}
use spraycc.Ipc.{TaskDetails, Message}
use spraycc.Server.Queue.{PriorityQueue, is_nil}
use spraycc.Server.State.{Item, Env, Fault, ServerState, Remote, is_none}
use spraycc.Server.Dispatch.{remote_at, put_remote, send, assign, assign_tasks, as_u32}
use spraycc.Server.Invariant.{entries}
use spraycc.Server.Relay.Then.{Then, Then->>=, Then-guard, Then-mono, Then-ok}
use spraycc.Server.Relay.Frame.{remote_at-Then}

-- What is left of a list when another takes an element each.
abbrev pub left_over : {A : Type 0} {B : Type 0} → List A → List B → List A
left_over [] ys = []
left_over (x ∷ xs) [] = x ∷ xs
left_over (x ∷ xs) (y ∷ ys) = left_over xs ys

get_elem?-left_over :
    {A : Type 0} {B : Type 0} (xs : List A) (ys : List B) (j : ℕ) (v : A)
    → get_elem? (left_over xs ys) j ≡ some v
    → get_elem? xs (length ys + j) ≡ some v
get_elem?-left_over [] ys j v h = cc
get_elem?-left_over (x ∷ xs) [] j v h =
    let same : 0 + j ≡ j = omega arith in ap (get_elem? (x ∷ xs)) same ∙ h
get_elem?-left_over (x ∷ xs) (y ∷ ys) j v h =
    let next : suc (length ys) + j ≡ suc (length ys + j) = omega arith in
    ap (get_elem? (x ∷ xs)) next ∙ get_elem?-left_over xs ys j v h

module _ (Q : PriorityQueue Item) where
  -- Executor `x` has been sent the task of `client`, and the two are paired.
  abbrev pub Given : ServerState Q → ℕ → TaskDetails → ℕ → Type 0
  Given t client details x =
      ((r : Remote) × (get_elem? t.remotes client ≡ some r) × (r.paired_id ≡ some (as_u32 x)))
      × ((r : Remote) × (chan : List Message) × (get_elem? t.remotes x ≡ some r)
          × (r.paired_id ≡ some (as_u32 client))
          × (r.send_chan ≡ Message.task 0 0 details ∷ chan))

  -- The tasks and the executors of the two queues, in their order, pair by pair.
  abbrev pub Handed : ServerState Q → List (Item × ℕ) → List ℕ → Type 0
  Handed t [] xs = Unit
  Handed t (e ∷ es) [] = Unit
  Handed t (e ∷ es) (x ∷ xs) = Given t e.0.0 e.0.1 x × Handed t es xs

  -- Remotes that are paired stay as they are.
  abbrev Keeps : ServerState Q → ServerState Q → Type 0
  Keeps s t =
      (j : ℕ) (r : Remote) (p : ℕ)
      → get_elem? s.remotes j ≡ some r
      → r.paired_id ≡ some p
      → get_elem? t.remotes j ≡ some r

  abbrev Assigned : ServerState Q → ℕ → TaskDetails → ℕ → ServerState Q → Type 0
  Assigned s client details x t =
      Given t client details x × (t.task_queue ≡ s.task_queue) × Keeps s t

  module _ (env : Env) (c : ℕ) (details : TaskDetails) (x : ℕ) (s : ServerState Q)
      (apart : not (c == x) ≡ true) (rc rx : Remote) (at_c : get_elem? s.remotes c ≡ some rc)
      (free_c : is_none rc.paired_id ≡ true) (at_x : get_elem? s.remotes x ≡ some rx)
      (free_x : is_none rx.paired_id ≡ true) where
    abbrev with_client : ServerState Q
    with_client = put_remote Q c (record rc { paired_id = some (as_u32 x) }) s

    abbrev with_both : ServerState Q
    with_both = put_remote Q x (record rx { paired_id = some (as_u32 c) }) with_client

    at_x₁ : get_elem? with_client.remotes x ≡ some rx
    at_x₁ =
        get_elem?-set s.remotes c x (record rc { paired_id = some (as_u32 x) }) rc at_c
        ∙ ground (arith, apart, at_x)

    both_at :
        (j : ℕ)
        → get_elem? with_both.remotes j ≡ (
            if x == j
            then some (record rx { paired_id = some (as_u32 c) })
            else if c == j
            then some (record rc { paired_id = some (as_u32 x) })
            else get_elem? s.remotes j)
    both_at j =
        get_elem?-set with_client.remotes x j (record rx { paired_id = some (as_u32 c) }) rx at_x₁
        ∙ ap (λ o. if x == j then some (record rx { paired_id = some (as_u32 c) }) else o)
            (get_elem?-set s.remotes c j (record rc { paired_id = some (as_u32 x) }) rc at_c)

    send-Assigned :
        Then (Assigned s c details x) (send Q env x (Message.task 0 0 details) with_both)
    unfolding send
    send-Assigned =
        Then->>= (λ r. get_elem? with_both.remotes x ≡ some r) (Assigned s c details x)
          (remote_at Q with_both x) _ (remote_at-Then Q with_both x)
          (λ r at_r. Then-guard (Assigned s c details x) _ _ (ok _) (λ accepts.
            let sent : Remote = record r { send_chan = Message.task 0 0 details ∷ r.send_chan } in
            let now : (j : ℕ)
                → get_elem? (put_remote Q x sent with_both).remotes j
                  ≡ (if x == j then some sent else get_elem? with_both.remotes j) =
              λ j. get_elem?-set with_both.remotes x j sent r at_r in
            (
              (
                (
                  record rc { paired_id = some (as_u32 x) },
                  now c ∙ ground (arith, apart, both_at c),
                  refl,
                ),
                (sent, r.send_chan, now x ∙ ground arith, ground (arith, both_at x, at_r), refl),
              ),
              refl,
              λ j y p at_y paired.
                  now j ∙ ground (arith, both_at j, at_y, paired, at_c, free_c, at_x, free_x),
            )))

  -- One round of the loop.
  assign-Assigned :
      (env : Env) (c : ℕ) (details : TaskDetails) (x : ℕ) (s : ServerState Q)
      → Then (Assigned s c details x) (assign Q env c details x s)
  unfolding assign
  assign-Assigned env c details x s =
      let P = Assigned s c details x in
      Then-guard P _ _ _ (λ apart.
        Then->>= (λ r. get_elem? s.remotes c ≡ some r) P (remote_at Q s c) _ (remote_at-Then Q s c)
          (λ rc at_c. Then-guard P _ _ _ (λ free_c.
            let s₁ : ServerState Q = put_remote Q c (record rc { paired_id = some (as_u32 x) }) s in
            Then->>= (λ r. get_elem? s₁.remotes x ≡ some r) P (remote_at Q s₁ x) _
              (remote_at-Then Q s₁ x)
              (λ rx at_x. Then-guard P _ _ _ (λ free_x.
                send-Assigned env c details x s apart rc rx at_c free_c
                  (ground (
                    arith,
                    apart,
                    at_x,
                    get_elem?-set s.remotes c x (record rc { paired_id = some (as_u32 x) }) rc at_c,
                  ))
                  free_x)))))

  Given-Keeps :
      (t u : ServerState Q) (c : ℕ) (details : TaskDetails) (x : ℕ)
      → Keeps t u
      → Given t c details x
      → Given u c details x
  Given-Keeps t u c details x keeps ((rc, at_c, of_c), (rx, chan, at_x, of_x, sent)) = (
    (rc, keeps c rc (as_u32 x) at_c of_c, of_c),
    (rx, chan, keeps x rx (as_u32 c) at_x of_x, of_x, sent),
  )

  -- What the loop does to the queues and to the remotes.
  abbrev Scheduled : ServerState Q → List (Item × ℕ) → List ℕ → ServerState Q → Type 0
  Scheduled s es execs t =
      Handed t es execs
      × (entries Q t ≡ left_over es execs)
      × (t.exec_queue ≡ left_over execs es)
      × Keeps s t

  assign_tasks-Scheduled :
      (env : Env) (execs : List ℕ) (s : ServerState Q) (es : List (Item × ℕ))
      → entries Q s ≡ es
      → Then (Scheduled s es execs) (assign_tasks Q env execs s)
  unfolding assign_tasks
  assign_tasks-Scheduled env [] s [] e = (tt, e, refl, λ j r p at_j paired. at_j)
  assign_tasks-Scheduled env [] s (y ∷ es) e = (tt, e, refl, λ j r p at_j paired. at_j)
  assign_tasks-Scheduled env (x ∷ xs) s [] e =
      rw (PriorityQueue.is_empty_lem Q s.task_queue ∙ ap is_nil e, assign_tasks)
        (tt, e, refl, λ j r p at_j paired. at_j)
  assign_tasks-Scheduled env (x ∷ xs) s (y ∷ es) e =
      let (q', popped, rest) = PriorityQueue.pop_some Q s.task_queue y es e in
      let s' : ServerState Q = record s { task_queue = q'; exec_queue = xs } in
      rw (PriorityQueue.is_empty_lem Q s.task_queue ∙ ap is_nil e, popped, assign_tasks)
        (Then->>= (Assigned s' y.0.0 y.0.1 x) (Scheduled s (y ∷ es) (x ∷ xs))
          (assign Q env y.0.0 y.0.1 x s') (assign_tasks Q env xs)
          (assign-Assigned env y.0.0 y.0.1 x s')
          (λ u (given, queue, keeps).
            Then-mono (Scheduled u es xs) (Scheduled s (y ∷ es) (x ∷ xs)) (assign_tasks Q env xs u)
              (assign_tasks-Scheduled env xs u es (ap (PriorityQueue.entries Q) queue ∙ rest))
              (λ t (handed, left, idle, more). (
                (Given-Keeps u t y.0.0 y.0.1 x more given, handed),
                left,
                idle,
                λ j r p at_j paired. more j r p (keeps j r p at_j paired) paired,
              ))))

  -- The queue of tasks goes by priority.
  falling :
      (q : PriorityQueue.Queue Q) (es : List (Item × ℕ))
      → PriorityQueue.entries Q q ≡ es
      → (i j : ℕ) (e f : Item × ℕ) → get_elem? es i ≡ some e
      → get_elem? es j ≡ some f
      → i ≤ j
      → f.1 ≤ e.1
  falling q [] same i j e f at_i at_j le = cc
  falling q (y ∷ es) same zero zero e f at_i at_j le = ground (arith, at_i, at_j)
  falling q (y ∷ []) same zero (suc j) e f at_i at_j le = cc
  falling q (y ∷ z ∷ es) same zero (suc j) e f at_i at_j le =
      let (q', popped, rest) = PriorityQueue.pop_some Q q y (z ∷ es) same in
      ground (
        arith,
        at_i,
        PriorityQueue.highest_first Q q y z es same,
        falling q' (z ∷ es) rest zero j z f refl at_j (omega arith),
      )
  falling q (y ∷ es) same (suc i) zero e f at_i at_j le = absurd (omega (arith, le))
  falling q (y ∷ es) same (suc i) (suc j) e f at_i at_j le =
      let (q', popped, rest) = PriorityQueue.pop_some Q q y es same in
      falling q' es rest i j e f at_i at_j (omega (arith, le))

  -- When the loop that pairs tasks with executors returns, the tasks of the highest priorities have
  -- been handed out, each to the executor that stands at its place in the queue of idle executors: the
  -- client and the executor are paired with each other, and the task is the last message that the
  -- executor was sent. The tasks and the executors that are left are those behind them, in their
  -- order, no task that is left has a higher priority than one that was handed out, and a remote that
  -- was paired before is as it was.
  pub assign_tasks_lem :
      (env : Env) (s t : ServerState Q)
      → assign_tasks Q env s.exec_queue s ≡ ok t
      → Handed t (entries Q s) s.exec_queue
        × (entries Q t ≡ left_over (entries Q s) s.exec_queue)
        × (t.exec_queue ≡ left_over s.exec_queue (entries Q s))
        × ((i j : ℕ) (e f : Item × ℕ)
            → get_elem? (entries Q s) i ≡ some e
            → i < length s.exec_queue
            → get_elem? (entries Q t) j ≡ some f
            → f.1 ≤ e.1)
        × ((j : ℕ) (r : Remote) (p : ℕ)
            → get_elem? s.remotes j ≡ some r
            → r.paired_id ≡ some p
            → get_elem? t.remotes j ≡ some r)
  assign_tasks_lem env s t returned =
      let (handed, left, idle, keeps) =
        Then-ok _ _ returned (assign_tasks-Scheduled env s.exec_queue s (entries Q s) refl) in
      (
        handed,
        left,
        idle,
        λ i j e f at_i early at_j.
            falling s.task_queue (entries Q s) refl i (length s.exec_queue + j) e f at_i
              (get_elem?-left_over (entries Q s) s.exec_queue j f
                (ap (λ l. get_elem? l j) (sym left) ∙ at_j))
              (omega (arith, early)),
        keeps,
      )
