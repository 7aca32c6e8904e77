-- ===== src/Server/Relay/Channels.antt =====
-- src/server.rs: what a client has been sent is untouched while the server pairs and releases others.
use spraycc.Base.{
  ℕ, ◌≡◌, refl, ◌∙◌, Bool, true, not, some, List, [], ◌∷◌, all, count, get_elem?, set,
  get_elem?-set, ◌==◌, arith, Bool-cases, inl, inr,
}
use spraycc.Ipc.{Message}
use spraycc.Server.Queue.{PriorityQueue}
use spraycc.Server.State.{Item, Env, ServerState, Remote}
use spraycc.Server.Dispatch.{as_u32, put_remote, update}
use spraycc.Server.Invariant.{queued}
use spraycc.Server.Relay.Then.{Then}
use spraycc.Server.Relay.Frame.{Frame}
use spraycc.Server.Relay.Frame.Update.{update-Kept}

abbrev pub any_id : ℕ → Bool
any_id i = true

abbrev pub other_than : ℕ → ℕ → Bool
other_than c i = not (i == c)

pub all-any_id : (es : List (Item × ℕ)) → all (λ e. any_id e.0.0) es ≡ true
all-any_id [] = refl
all-any_id (e ∷ es) = all-any_id es

-- A remote with no place in the queue is none of those in it.
pub all-other_than : (c : ℕ) (xs : List ℕ) → count c xs ≡ 0 → all (other_than c) xs ≡ true
all-other_than c [] none_is = refl
all-other_than c (x ∷ xs) none_is =
    ground (arith, all-other_than c xs (ground (arith, none_is)), none_is)

pub all-not_queued :
    (c : ℕ) (es : List (Item × ℕ)) → queued c es ≡ 0 → all (λ e. other_than c e.0.0) es ≡ true
all-not_queued c [] none_is = refl
all-not_queued c (e ∷ es) none_is =
    ground (arith, all-not_queued c es (ground (arith, none_is)), none_is)

-- The remote `c` has been sent `chan`.
abbrev HoldsAt : ℕ → List Message → List Remote → Type 0
HoldsAt c chan rs = (r : Remote) × (get_elem? rs c ≡ some r) × (r.send_chan ≡ chan)

set-HoldsAt :
    (c : ℕ) (chan : List Message) (rs : List Remote) (i : ℕ) (r r' : Remote)
    → get_elem? rs i ≡ some r
    → ((i == c) ≡ true → r'.send_chan ≡ r.send_chan)
    → HoldsAt c chan rs
    → HoldsAt c chan (set rs i r')
set-HoldsAt c chan rs i r r' at_i same (now, at_c, sent) = elim (Bool-cases (i == c)) [
  | inl here ↦ (
    r',
    get_elem?-set rs i c r' r at_i ∙ rw here refl,
    ground (arith, same here, at_i, at_c, sent, here),
  )
  | inr there ↦ (now, get_elem?-set rs i c r' r at_i ∙ rw there at_c, sent)
]

HoldsAt-Frame : (c : ℕ) (chan : List Message) → Frame any_id (other_than c) (HoldsAt c chan)
HoldsAt-Frame c chan = record {
  paired = λ rs i r k can can_k at_i h.
      set-HoldsAt c chan rs i r (record r { paired_id = some (as_u32 k) }) at_i (λ same. refl) h;
  worked = λ rs i r r' can at_i pairs h.
      set-HoldsAt c chan rs i r r' at_i (λ same. absurd (ground (arith, same, can))) h;
}

module _ (Q : PriorityQueue Item) (c : ℕ) (chan : List Message) where
  abbrev pub Holds : ServerState Q → Type 0
  Holds s = HoldsAt c chan s.remotes

  -- Moreover it waits for no task.
  abbrev pub Apart : ServerState Q → Type 0
  Apart s = Holds s × (count c s.exec_queue ≡ 0)

  pub put_remote-Holds :
      (s : ServerState Q) (i : ℕ) (r r' : Remote)
      → get_elem? s.remotes i ≡ some r
      → ((i == c) ≡ true → r'.send_chan ≡ r.send_chan)
      → Holds s
      → Holds (put_remote Q i r' s)
  put_remote-Holds s i r r' at_i same h = set-HoldsAt c chan s.remotes i r r' at_i same h

  -- What a client that is in no queue of executors has been sent is the same after `update`.
  pub update-Holds : (env : Env) (s : ServerState Q) → Apart s → Then Holds (update Q env s)
  update-Holds env s (h, none_is) =
      update-Kept Q any_id (other_than c) (HoldsAt c chan) (HoldsAt-Frame c chan) env s (
        h,
        (all-other_than c s.exec_queue none_is, all-any_id (PriorityQueue.entries Q s.task_queue)),
      )
