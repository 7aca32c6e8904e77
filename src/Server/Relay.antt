-- ===== src/Server/Relay.antt =====
-- src/server.rs: the outputs of a task on their way from the executor to the client.
pub mod Then
pub mod Frame
pub mod Channels
pub mod Closing
pub mod Isolated
pub mod Trace
pub mod Freed
pub mod Ended
pub mod Delivery
use spraycc.Base.{
  ℕ, ◌≡◌, refl, ◌∙◌, true, false, some, List, [], ◌∷◌, Result, ok, ◌>>=◌, all, get_elem?, set,
  get_elem?-set, length, arith, ◌==◌, if◌then◌else◌,
}
use spraycc.Ipc.{OutputType, Message}
use spraycc.Ipc.Message.{task_output}
use spraycc.Ipc.Outputs.{is_output}
use spraycc.Server.Queue.{PriorityQueue}
use spraycc.Server.State.{Item, Env, Fault, ServerState, Remote, is_client}
use spraycc.Server.Dispatch.{put_remote}
use spraycc.Server.Handlers.{send_to_paired_remote, handle_msg}

-- A channel, newest first, after more messages.
abbrev pub sent_after : List Message → List Message → List Message
sent_after chan [] = chan
sent_after chan (msg ∷ msgs) = sent_after (msg ∷ chan) msgs

-- The client's channel takes every message.
abbrev pub Accepts : ℕ → List (Env × Message) → Type 0
Accepts c [] = Unit
Accepts c ((env, msg) ∷ rest) = ((n : ℕ) → env.accepts c n ≡ true) × Accepts c rest

abbrev pub messages : List (Env × Message) → List Message
messages [] = []
messages ((env, msg) ∷ rest) = msg ∷ messages rest

module _ (Q : PriorityQueue Item) (e c : ℕ) where
  -- Messages from one executor, one after the other.
  unfoldable pub relay : List (Env × Message) → ServerState Q → Result Fault (ServerState Q)
  relay [] s = ok s
  relay ((env, msg) ∷ rest) s = do s' ← handle_msg Q env e msg s; relay rest s'

  -- What one output changes: the client's channel.
  pub forwarded :
      (env : Env) (output_type : OutputType) (content : List ℕ) (s : ServerState Q) (re rc : Remote)
      → get_elem? s.remotes e ≡ some re
      → re.paired_id ≡ some c
      → get_elem? s.remotes c ≡ some rc
      → is_client rc.conn_type ≡ true
      → ((n : ℕ) → env.accepts c n ≡ true)
      → (s' : ServerState Q) × (handle_msg Q env e (task_output output_type content) s ≡ ok s')
        × (s'.remotes
            ≡ set s.remotes c
                (record rc { send_chan = task_output output_type content ∷ rc.send_chan }))
        × (s'.exec_queue ≡ s.exec_queue)
  unfolding handle_msg send_to_paired_remote
  forwarded env output_type content s re rc at_e paired at_c is accepts = (
    put_remote Q c (record rc { send_chan = task_output output_type content ∷ rc.send_chan })
        (record s {
          total_bytes = env.add_bytes s.total_bytes (length content);
          bytes_this_period = env.add_bytes s.bytes_this_period (length content);
        }),
    rw (at_e, paired, at_c, is, accepts (length rc.send_chan)) refl,
    refl,
    refl,
  )

  -- The outputs that an executor sends, one after the other, stand in the channel of the client that
  -- it works for, in their order, when that channel takes every message; no other remote changes, and neither does
  -- the queue of executors.
  pub relay_lem :
      (n : ℕ) (events : List (Env × Message)) (s : ServerState Q) (re rc : Remote)
      → get_elem? s.remotes e ≡ some re
      → re.paired_id ≡ some c
      → get_elem? s.remotes c ≡ some rc
      → is_client rc.conn_type ≡ true
      → (c == e) ≡ false
      → all (is_output n) (messages events) ≡ true
      → Accepts c events
      → (s' : ServerState Q) × (relay events s ≡ ok s')
        × ((j : ℕ)
            → get_elem? s'.remotes j ≡ (
                if c == j
                then some (record rc { send_chan = sent_after rc.send_chan (messages events) })
                else get_elem? s.remotes j))
        × (s'.exec_queue ≡ s.exec_queue)
  unfolding relay
  relay_lem n [] s re rc at_e paired at_c is apart outs accepts =
      (s, refl, λ j. ground (arith, at_c), refl)
  relay_lem n ((env, task_output output_type content) ∷ events) s re rc at_e paired at_c is apart
        outs (accepts, more) =
      let (s₁, done, remotes, queue) =
        forwarded env output_type content s re rc at_e paired at_c is accepts in
      let rc' : Remote = record rc { send_chan = task_output output_type content ∷ rc.send_chan } in
      let now : (j : ℕ)
          → get_elem? s₁.remotes j ≡ (if c == j then some rc' else get_elem? s.remotes j) =
        λ j. rw remotes (get_elem?-set s.remotes c j rc' rc at_c) in
      let (s₂, rest, each, queue') =
        relay_lem n events s₁ re rc' (now e ∙ rw apart at_e) paired (now c ∙ ground arith) is apart
          (ground arith) more in
      (s₂, rw (relay, done) rest, λ j. each j ∙ ground (arith, now j), queue' ∙ queue)
  relay_lem n ((env, _) ∷ events) s re rc at_e paired at_c is apart outs (accepts, more) = cc
