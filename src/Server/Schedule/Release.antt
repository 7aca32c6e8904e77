-- ===== src/Server/Schedule/Release.antt =====
-- src/server.rs: which executors `check_queues` lets go.
use spraycc.Base.{
  ℕ, ◌+◌, ◌≡◌, refl, ap, ◌∙◌, true, false, some, List, [], ◌∷◌, Result, ok, count, get_elem?,
  get_elem?-set, length, ltb, ◌==◌, if◌then◌else◌, arith, Bool-cases, inl, inr, ◌⊎◌, >>=-eq-ok,
}
use spraycc.Ipc.{Message}
use spraycc.Server.Queue.{PriorityQueue}
use spraycc.Server.State.{Item, Env, Fault, ServerState, Remote, dead, checked_sub}
use spraycc.Server.Dispatch.{
  remote_at, put_remote, send, set_type, assign_tasks, release, release_execs, ok_to_release,
  check_queues,
}
use spraycc.Server.Relay.Then.{Then, Then->>=, Then-guard, Then-mono, Then-ok}
use spraycc.Server.Relay.Frame.{remote_at-Then}

module _ (Q : PriorityQueue Item) where
  -- Remote `x` has been told to go, and is marked as gone.
  abbrev pub Released : ServerState Q → ℕ → Type 0
  Released t x =
      (r : Remote) × (chan : List Message) × (get_elem? t.remotes x ≡ some r)
      × (r.conn_type ≡ dead)
      × (r.send_chan ≡ Message.piss_off ∷ chan)

  abbrev pub AllReleased : ServerState Q → List ℕ → Type 0
  AllReleased t [] = Unit
  AllReleased t (x ∷ xs) = Released t x × AllReleased t xs

  -- One executor is let go.
  abbrev Lets : ServerState Q → ℕ → ServerState Q → Type 0
  Lets s x t =
      Released t x
      × ((j : ℕ) → (x == j) ≡ false → get_elem? t.remotes j ≡ get_elem? s.remotes j)
      × (t.task_queue ≡ s.task_queue)
      × (t.running_exec_count + 1 ≡ s.running_exec_count)

  checked_sub-Then : (n : ℕ) → Then (λ m. m + 1 ≡ n) (checked_sub n 1)
  unfolding checked_sub
  checked_sub-Then n = elim (Bool-cases (ltb n 1)) [
    | inl below ↦ rw below tt
    | inr enough ↦ rw enough (ground (arith, enough))
  ]

  -- What `set_type` and `send` write.
  Put : ℕ → (Remote → Remote) → ServerState Q → ServerState Q → Type 0
  Put x change s t =
      (r : Remote) × (get_elem? s.remotes x ≡ some r) × (t ≡ put_remote Q x (change r) s)

  set_type-Put :
      (x : ℕ) (s : ServerState Q)
      → Then (Put x (λ r. record r { conn_type = dead }) s) (set_type Q x dead s)
  unfolding set_type Put
  set_type-Put x s =
      Then->>= (λ r. get_elem? s.remotes x ≡ some r) (Put x (λ r. record r { conn_type = dead }) s)
        (remote_at Q s x) _ (remote_at-Then Q s x) (λ r at_x. (r, at_x, refl))

  send-Put :
      (env : Env) (x : ℕ) (msg : Message) (s : ServerState Q)
      → Then (Put x (λ r. record r { send_chan = msg ∷ r.send_chan }) s) (send Q env x msg s)
  unfolding send Put
  send-Put env x msg s =
      let P = Put x (λ r. record r { send_chan = msg ∷ r.send_chan }) s in
      Then->>= (λ r. get_elem? s.remotes x ≡ some r) P (remote_at Q s x) _ (remote_at-Then Q s x)
        (λ r at_x.
          Then-guard P _ _ (ok (put_remote Q x (record r { send_chan = msg ∷ r.send_chan }) s))
            (λ accepts. (r, at_x, refl)))

  -- After both writes and the count.
  let_go :
      (x n : ℕ) (s s₁ s₂ : ServerState Q)
      → Put x (λ r. record r { conn_type = dead }) s s₁
      → Put x (λ r. record r { send_chan = Message.piss_off ∷ r.send_chan }) s₁ s₂
      → n + 1 ≡ s₂.running_exec_count
      → Lets s x (record s₂ { running_exec_count = n })
  unfolding Put
  let_go x n s s₁ s₂ (r, at_x, first) (r₁, at_x₁, second) less =
      let gone : Remote = record r { conn_type = dead } in
      let told : Remote = record r₁ { send_chan = Message.piss_off ∷ r₁.send_chan } in
      let now₁ : (j : ℕ)
          → get_elem? s₁.remotes j ≡ (if x == j then some gone else get_elem? s.remotes j) =
        λ j. ap (λ u. get_elem? u.remotes j) first ∙ get_elem?-set s.remotes x j gone r at_x in
      let now₂ : (j : ℕ)
          → get_elem? s₂.remotes j ≡ (if x == j then some told else get_elem? s₁.remotes j) =
        λ j. ap (λ u. get_elem? u.remotes j) second ∙ get_elem?-set s₁.remotes x j told r₁ at_x₁ in
      (
        (told, r₁.send_chan, now₂ x ∙ ground arith, ground (arith, now₁ x, at_x₁), refl),
        λ j other. now₂ j ∙ ground (arith, now₁ j, other),
        ap (λ u. u.task_queue) second ∙ ap (λ u. u.task_queue) first,
        less ∙ ap (λ u. u.running_exec_count) second ∙ ap (λ u. u.running_exec_count) first,
      )

  release-Lets : (env : Env) (x : ℕ) (s : ServerState Q) → Then (Lets s x) (release Q env x s)
  unfolding release
  release-Lets env x s =
      Then->>= (Put x (λ r. record r { conn_type = dead }) s) (Lets s x) (set_type Q x dead s) _
        (set_type-Put x s)
        (λ s₁ first.
          Then->>= (Put x (λ r. record r { send_chan = Message.piss_off ∷ r.send_chan }) s₁)
            (Lets s x) (send Q env x Message.piss_off s₁) _ (send-Put env x Message.piss_off s₁)
            (λ s₂ second.
              Then->>= (λ n. n + 1 ≡ s₂.running_exec_count) (Lets s x)
                (checked_sub s₂.running_exec_count 1) _ (checked_sub-Then s₂.running_exec_count)
                (λ n less. let_go x n s s₁ s₂ first second less)))

  Released-Lets : (s t : ServerState Q) (x y : ℕ) → Lets s y t → Released s x → Released t x
  Released-Lets s t x y (now, others, queue, less) (r, chan, at_x, gone, told) =
      elim (Bool-cases (y == x)) [
        | inl same ↦
            let (r', chan', at_y, gone', told') = now in
            (r', chan', ground (arith, same, at_y), gone', told')
        | inr other ↦ (r, chan, others x other ∙ at_x, gone, told)
      ]

  -- All executors of a list are let go.
  abbrev LetsAll : ServerState Q → List ℕ → ServerState Q → Type 0
  LetsAll s xs t =
      ((y : ℕ) → Released s y → Released t y)
      × AllReleased t xs
      × ((j : ℕ) → count j xs ≡ 0 → get_elem? t.remotes j ≡ get_elem? s.remotes j)
      × (t.task_queue ≡ s.task_queue)
      × (t.exec_queue ≡ [])
      × (t.running_exec_count + length xs ≡ s.running_exec_count)

  release_execs-LetsAll :
      (env : Env) (xs : List ℕ) (s : ServerState Q) → Then (LetsAll s xs) (release_execs Q env xs s)
  unfolding release_execs
  release_execs-LetsAll env [] s = (λ y h. h, tt, λ j none_is. refl, refl, refl, omega arith)
  release_execs-LetsAll env (x ∷ xs) s =
      let popped : ServerState Q = record s { exec_queue = xs } in
      Then->>= (Lets popped x) (LetsAll s (x ∷ xs)) (release Q env x popped)
        (release_execs Q env xs) (release-Lets env x popped)
        (λ u lets.
          Then-mono (LetsAll u xs) (LetsAll s (x ∷ xs)) (release_execs Q env xs u)
            (release_execs-LetsAll env xs u)
            (λ t (stays, all_gone, others, queue, empty, less). (
              λ y h. stays y (Released-Lets popped u y x lets h),
              (stays x lets.0, all_gone),
              λ j none_is. others j (ground (arith, none_is)) ∙ lets.1 j (ground (arith, none_is)),
              queue ∙ lets.2,
              empty,
              omega (arith, less, lets.3),
            )))

  -- When `check_queues` returns, it has first paired tasks with executors. If the last task was then
  -- submitted longer ago than the delay of the configuration, in whole seconds, all executors that are
  -- still idle have been told to go, are marked as gone and no longer counted as running, the queue of
  -- executors is empty, and the other remotes and the task queue are as the pairing left them;
  -- otherwise, and if no task was ever submitted, nothing else has changed.
  pub check_queues_lem :
      (env : Env) (s t : ServerState Q)
      → check_queues Q env s ≡ ok t
      → (u : ServerState Q) × (assign_tasks Q env s.exec_queue s ≡ ok u)
        × (((ok_to_release Q env u ≡ true)
              × AllReleased t u.exec_queue
              × (t.exec_queue ≡ [])
              × (t.running_exec_count + length u.exec_queue ≡ u.running_exec_count)
              × (t.task_queue ≡ u.task_queue)
              × ((j : ℕ)
                  → count j u.exec_queue ≡ 0
                  → get_elem? t.remotes j ≡ get_elem? u.remotes j))
            ⊎ ((ok_to_release Q env u ≡ false) × (t ≡ u)))
  unfolding check_queues
  check_queues_lem env s t returned =
      let (u, paired, rest) = >>=-eq-ok (assign_tasks Q env s.exec_queue s) _ returned in
      (
        u,
        paired,
        elim (Bool-cases (ok_to_release Q env u)) [
          | inl go ↦
              let released : release_execs Q env u.exec_queue u ≡ ok t = rw go at rest in
              let (stays, gone, others, queue, empty, less) =
                Then-ok _ _ released (release_execs-LetsAll env u.exec_queue u) in
              inl (go, gone, empty, less, queue, others)
          | inr stay ↦
              let same : Path (Result Fault (ServerState Q)) (ok u) (ok t) = rw stay at rest in
              inr (stay, Then-ok (λ v. v ≡ u) (ok u) same refl)
        ],
      )
