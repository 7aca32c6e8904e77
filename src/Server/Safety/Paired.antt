-- ===== src/Server/Safety/Paired.antt =====
-- What an executor sends goes to the client whose task it runs; a dropped connection.
use spraycc.Base.{
  ℕ, ◌≡◌, refl, true, Option, none, some, List, ◌∷◌, arith, ok, length, count, get_elem?, set,
  if◌then◌else◌, get_elem?-set, Bool-cases, inl, inr,
}
use spraycc.Ipc.{Message}
use spraycc.Server.Queue.{PriorityQueue}
use spraycc.Server.State.{Item, Env, ServerState, Remote, exec, dead, is_client, client}
use spraycc.Server.Dispatch.{put_remote}
use spraycc.Server.Handlers.{send_to_paired_remote, finish_task}
use spraycc.Server.Invariant.{Books, Closed, SlotAt, Serves, Link, IsSound, queued, may_be_client}
use spraycc.Server.Invariant.Changes.{set-Books, set-Closed}
use spraycc.Server.Safety.Ensures.{Ensures, Ensures->>=}
use spraycc.Server.Safety.Dispatch.{Drained}
use spraycc.Server.Safety.Ready.{finished-IsSound}

-- A remote is sent a message, or a client is found to be gone.
module _ (env : Env) (rs : List Remote) (es : List (Item × ℕ)) (xs : List ℕ) (run fin sub : ℕ)
    (books : Books rs es xs run fin sub) (closed : Closed env rs xs) (i : ℕ) (r : Remote)
    (at_i : get_elem? rs i ≡ some r) (slot : SlotAt (some r) (queued i es) (count i xs)) where
  pub sent-Books :
      (chan : List Message)
      → may_be_client r.conn_type ≡ true
      → Books (set rs i (record r { send_chan = chan })) es xs run fin sub
        × Closed env (set rs i (record r { send_chan = chan })) xs
  sent-Books chan kind = (
    set-Books books i (record r { send_chan = chan }) r at_i es xs run fin sub (λ j h. h)
        (ground arith) slot (λ j ne. (refl, refl)) (ground arith)
        (λ b h. omega (arith, books.tasks)),
    set-Closed env rs xs closed i (record r { send_chan = chan }) r at_i xs (λ j ne. refl)
        (closed i r at_i),
  )

  pub lost-Books :
      r.conn_type ≡ client
      → Books (set rs i (record r { conn_type = dead })) es xs run fin sub
        × Closed env (set rs i (record r { conn_type = dead })) xs
  lost-Books kind = (
    set-Books books i (record r { conn_type = dead }) r at_i es xs run fin sub (λ j h. ground arith)
        tt (ground arith) (λ j ne. (refl, refl)) (ground arith)
        (λ b h. ground (arith, books.tasks)),
    set-Closed env rs xs closed i (record r { conn_type = dead }) r at_i xs (λ j ne. refl)
        (λ gone inside. absurd (ground arith)),
  )

-- The client of an executor that runs a task.
pub client_of :
    (rs : List Remote) (x c : ℕ) (r : Remote)
    → Link rs x r.conn_type r.paired_id
    → r.conn_type ≡ exec
    → r.paired_id ≡ some c
    → Serves (get_elem? rs c) x
client_of rs x c r link is runs_task = rw (is, runs_task) at link

pub found_client :
    (o : Option Remote) (x : ℕ)
    → Serves o x
    → (r : Remote) × (o ≡ some r) × (may_be_client r.conn_type ≡ true)
found_client none x h = absurd h
found_client (some r) x h = (r, refl, h.1)

module _ (Q : PriorityQueue Item) (env : Env) where
  -- Sound, with remote `x` as it was.
  abbrev pub StillAt : ℕ → Remote → ServerState Q → ServerState Q → Type 0
  StillAt x r s t =
      IsSound Q env t × (get_elem? t.remotes x ≡ some r) × (t.finish_count ≡ s.finish_count)

  forward_lem :
      (s : ServerState Q) (x c : ℕ) (r other : Remote) (msg : Message)
      → get_elem? s.remotes x ≡ some r
      → r.paired_id ≡ some c
      → get_elem? s.remotes c ≡ some other
      → send_to_paired_remote Q env x msg s ≡ (
          if is_client other.conn_type
          then ok (
              put_remote Q c
                (if env.accepts c (length other.send_chan)
                  then record other { send_chan = msg ∷ other.send_chan }
                  else record other { conn_type = dead })
                s)
          else ok s)
  unfolding send_to_paired_remote
  forward_lem s x c r other msg at_x runs_task at_c = rw (at_x, runs_task, at_c)

  forward-IsSound_at :
      (s : ServerState Q) (x c : ℕ) (r other : Remote) (msg : Message)
      → IsSound Q env s
      → get_elem? s.remotes x ≡ some r
      → r.conn_type ≡ exec
      → r.paired_id ≡ some c
      → get_elem? s.remotes c ≡ some other
      → may_be_client other.conn_type ≡ true
      → Ensures (StillAt x r s) (send_to_paired_remote Q env x msg s)
  forward-IsSound_at s x c r other msg sound at_x is runs_task at_c kind =
      let es = PriorityQueue.entries Q s.task_queue in
      let slot : SlotAt (some other) (queued c es) (count c s.exec_queue) =
        rw at_c at (sound.0.slots c) in
      let sent : Remote = record other { send_chan = msg ∷ other.send_chan } in
      let lost : Remote = record other { conn_type = dead } in
      rw (forward_lem s x c r other msg at_x runs_task at_c)
        (elim (Bool-cases (is_client other.conn_type)) [
          | inr gone ↦ rw gone (sound, at_x, refl)
          | inl there ↦ elim (Bool-cases (env.accepts c (length other.send_chan))) [
            | inl ok_to_send ↦
                rw (there, ok_to_send)
                  (
                    sent-Books env s.remotes es s.exec_queue _ _ _ sound.0 sound.1 c other at_c slot
                        (msg ∷ other.send_chan) kind,
                    ground (arith, get_elem?-set s.remotes c x sent other at_c),
                    refl,
                  )
            | inr failed ↦
                rw (there, failed)
                  (
                    lost-Books env s.remotes es s.exec_queue _ _ _ sound.0 sound.1 c other at_c slot
                        (ground arith),
                    ground (arith, get_elem?-set s.remotes c x lost other at_c),
                    refl,
                  )
          ]
        ])

  -- A message of an executor that runs a task is forwarded, or its client is marked dead.
  pub forward-IsSound :
      (s : ServerState Q) (x c : ℕ) (r : Remote) (msg : Message)
      → IsSound Q env s
      → get_elem? s.remotes x ≡ some r
      → r.conn_type ≡ exec
      → r.paired_id ≡ some c
      → Ensures (StillAt x r s) (send_to_paired_remote Q env x msg s)
  forward-IsSound s x c r msg sound at_x is runs_task =
      let found =
        found_client (get_elem? s.remotes c) x
          (client_of s.remotes x c r (rw at_x at (sound.0.links x)) is runs_task) in
      forward-IsSound_at s x c r found.0 msg sound at_x is runs_task found.1 found.2

  pub finish_task-IsSound :
      (s : ServerState Q) (x c : ℕ) (r : Remote) (msg : Message)
      → IsSound Q env s
      → get_elem? s.remotes x ≡ some r
      → r.conn_type ≡ exec
      → r.paired_id ≡ some c
      → Ensures (λ t. IsSound Q env t × Drained Q env t) (finish_task Q env x msg s)
  unfolding finish_task
  finish_task-IsSound s x c r msg sound at_x is runs_task =
      Ensures->>= (StillAt x r s) _ (send_to_paired_remote Q env x msg s) _
        (forward-IsSound s x c r msg sound at_x is runs_task)
        (λ t h. finished-IsSound Q env t x r _ h.0 h.1 is (ground arith) refl)
