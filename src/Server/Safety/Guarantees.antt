-- ===== src/Server/Safety/Guarantees.antt =====
-- What the books say to clients and executors, in every state that the server reaches.
use spraycc.Base.{
  ℕ, ◌≡◌, ◌≢◌, true, none, some, [], arith, ok, ◌∙◌, total, count, get_elem?, inl, inr, ◌⊎◌, sym,
  ap, List-cases,
}
use spraycc.Server.Queue.{PriorityQueue, is_nil}
use spraycc.Server.State.{Item, Env, ServerState, Remote, exec, client}
use spraycc.Server.Dispatch.{update}
use spraycc.Server.Loop.{ok_to_shutdown}
use spraycc.Server.Invariant.{Closed, IsSound, queued, runs, SlotAt}
use spraycc.Server.Safety.Ensures.{Ensures-ok}
use spraycc.Server.Safety.Dispatch.{Drained}
use spraycc.Server.Safety.Update.{update-IsSound}
use mathlib.Core.Bool.{false≢true}
use spraycc.Server.Safety.Reach.{Reach, IsNew, Reach-IsValid}
use spraycc.Server.Safety.Paired.{client_of}

shutdown_empty :
    (Q : PriorityQueue Item) (q : PriorityQueue.Queue Q)
    → PriorityQueue.is_empty Q q ≡ true
    → PriorityQueue.entries Q q ≡ []
shutdown_empty Q q e = elim (List-cases (PriorityQueue.entries Q q)) [
  | inl nil ↦ nil
  | inr (x, xs, more) ↦
      absurd (false≢true (sym (PriorityQueue.is_empty_lem Q q ∙ ap is_nil more) ∙ e))
]

module _ (Q : PriorityQueue Item) (s₀ : ServerState Q) (fresh : IsNew Q s₀) where
  -- In a state that the server reaches, two executors that are paired are paired with different
  -- clients.
  pub Reach-distinct_clients :
      {s : ServerState Q}
      → Reach Q s₀ s
      → (i j c d : ℕ) (x y : Remote) → get_elem? s.remotes i ≡ some x
      → get_elem? s.remotes j ≡ some y
      → x.conn_type ≡ exec
      → y.conn_type ≡ exec
      → x.paired_id ≡ some c
      → y.paired_id ≡ some d
      → i ≢ j
      → c ≢ d
  Reach-distinct_clients {s} r i j c d x y at_i at_j xe ye xc yd ne same =
      let links = (Reach-IsValid Q s₀ fresh r).links in
      ground (
        arith,
        client_of s.remotes i c x (rw at_i at (links i)) xe xc,
        client_of s.remotes j d y (rw at_j at (links j)) ye yd,
      )

  -- In a state that the server reaches, a connected client is not paired and waits with one task, or
  -- is paired and waits with none.
  pub Reach-client_waits_once :
      {s : ServerState Q}
      → Reach Q s₀ s
      → (i : ℕ) (x : Remote) → get_elem? s.remotes i ≡ some x
      → x.conn_type ≡ client
      → ((x.paired_id ≡ none) × (queued i (PriorityQueue.entries Q s.task_queue) ≡ 1))
        ⊎ ((x.paired_id ≢ none) × (queued i (PriorityQueue.entries Q s.task_queue) ≡ 0))
  Reach-client_waits_once {s} r i x at_i is =
      let slot : SlotAt (some x) (queued i (PriorityQueue.entries Q s.task_queue))
          (count i s.exec_queue) =
        rw at_i at ((Reach-IsValid Q s₀ fresh r).slots i) in
      ground arith

  -- After `update` returns, from a state that the server reaches and with the channels of executors
  -- that dropped while idle closed, no task waits or no executor is idle.
  pub Reach-work_conserving :
      {s t : ServerState Q}
      → Reach Q s₀ s
      → (env : Env) → Closed env s.remotes s.exec_queue
      → update Q env s ≡ ok t
      → (PriorityQueue.entries Q t.task_queue ≡ []) ⊎ (t.exec_queue ≡ [])
  Reach-work_conserving {s} r env closed e =
      (Ensures-ok (λ t. IsSound Q env t × Drained Q env t) (update Q env s)
        (update-IsSound Q env s (Reach-IsValid Q s₀ fresh r, closed)) e).1

  -- In a state that the server reaches, where `ok_to_shutdown` holds, no task waits and no
  -- executor is connected.
  pub Reach-shutdown :
      {s : ServerState Q}
      → Reach Q s₀ s
      → (env : Env) → ok_to_shutdown Q env s ≡ true
      → (PriorityQueue.entries Q s.task_queue ≡ []) × (total runs s.remotes ≡ 0)
  unfolding ok_to_shutdown
  Reach-shutdown {s} r env e = (
    shutdown_empty Q s.task_queue (ground arith),
    ground (arith, (Reach-IsValid Q s₀ fresh r).executors),
  )
