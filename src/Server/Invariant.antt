-- ===== src/Server/Invariant.antt =====
-- The books of the server: how the remotes, the two queues and the counters fit together.
pub mod Slots
pub mod Links
pub mod Pairing
pub mod Changes
use spraycc.Base.{
  ℕ, ◌+◌, ◌^◌, ◌≤◌, ◌<◌, ◌≡◌, Bool, true, false, ◌&&◌, not, Option, none, some, List, ◌==◌, length,
  total, count, get_elem?, if◌then◌else◌,
}
use spraycc.Server.Queue.{PriorityQueue}
use spraycc.Server.State.{
  Item, Env, ServerState, Remote, ConnectionType, pending, client, exec, dead, is_exec, is_none,
}

-- How often client `i` waits with a task.
abbrev pub queued : ℕ → List (Item × ℕ) → ℕ
queued i = total (λ e. if i == e.0.0 then 1 else 0)

-- What a remote's type and pairing say of its places `q` in the task queue and `d` in the executor
-- queue. A client that is not paired waits with one task, an executor that is not paired is idle.
abbrev pub Slot : ConnectionType → Option ℕ → ℕ → ℕ → Type 0
Slot pending none q d = (q ≡ 0) × (d ≡ 0)
Slot pending (some j) q d = ⊥
Slot client none q d = (q ≡ 1) × (d ≡ 0)
Slot client (some j) q d = (q ≡ 0) × (d ≡ 0)
Slot exec none q d = (q ≡ 0) × (d ≡ 1)
Slot exec (some j) q d = (q ≡ 0) × (d ≡ 0)
Slot dead none q d = q + d ≤ 1
Slot dead (some j) q d = (q ≡ 0) × (d ≡ 0)

abbrev pub SlotAt : Option Remote → ℕ → ℕ → Type 0
SlotAt none q d = (q ≡ 0) × (d ≡ 0)
SlotAt (some r) q d = Slot r.conn_type r.paired_id q d

abbrev pub Slots : List Remote → List (Item × ℕ) → List ℕ → Type 0
Slots rs es xs = (i : ℕ) → SlotAt (get_elem? rs i) (queued i es) (count i xs)

-- Whether a remote has submitted a task, on a connection that may be gone by now.
abbrev pub may_be_client : ConnectionType → Bool
may_be_client client = true
may_be_client dead = true
may_be_client _ = false

abbrev pub Serves : Option Remote → ℕ → Type 0
Serves none i = ⊥
Serves (some r) i = (r.paired_id ≡ some i) × (may_be_client r.conn_type ≡ true)

-- An executor that runs a task is paired with a client that is paired with it.
abbrev pub Link : List Remote → ℕ → ConnectionType → Option ℕ → Type 0
Link rs i exec (some c) = Serves (get_elem? rs c) i
Link rs i _ _ = Unit

abbrev pub LinkAt : List Remote → ℕ → Option Remote → Type 0
LinkAt rs i none = Unit
LinkAt rs i (some r) = Link rs i r.conn_type r.paired_id

abbrev pub Links : List Remote → Type 0
Links rs = (i : ℕ) → LinkAt rs i (get_elem? rs i)

abbrev pub one_if : Bool → ℕ
one_if b = if b then 1 else 0

abbrev pub runs : Remote → ℕ
runs r = one_if (is_exec r.conn_type)

abbrev pub busy : Remote → ℕ
busy r = one_if (is_exec r.conn_type && not (is_none r.paired_id))

pub record Books (rs : List Remote) (es : List (Item × ℕ)) (xs : List ℕ)
    (running finished submitted : ℕ) : Type 0 where
  pub slots : Slots rs es xs
  pub links : Links rs
  pub small : length rs ≤ 2 ^ 32
  pub executors : running ≡ total runs rs
  pub tasks : finished + length es + total busy rs ≤ submitted

abbrev pub is_dead : ConnectionType → Bool
is_dead dead = true
is_dead _ = false

-- The remote accepts no message in this event.
abbrev pub IsClosed : Env → ℕ → Type 0
IsClosed env i = (n : ℕ) → env.accepts i n ≡ false

-- An executor that dropped while it was idle is unreachable.
abbrev pub Closed : Env → List Remote → List ℕ → Type 0
Closed env rs xs =
    (i : ℕ) (r : Remote)
    → get_elem? rs i ≡ some r
    → is_dead r.conn_type ≡ true
    → 0 < count i xs
    → IsClosed env i

module _ (Q : PriorityQueue Item) where
  abbrev pub entries : ServerState Q → List (Item × ℕ)
  entries s = PriorityQueue.entries Q s.task_queue

  abbrev pub IsValid : ServerState Q → Type 0
  IsValid s =
      Books s.remotes (entries s) s.exec_queue s.running_exec_count s.finish_count s.submit_count

  abbrev pub IsSound : Env → ServerState Q → Type 0
  IsSound env s = IsValid s × Closed env s.remotes s.exec_queue
