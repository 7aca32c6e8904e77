-- ===== src/Server/Relay/Closing.antt =====
-- src/server.rs: the message that ends a task follows its outputs to the client.
use spraycc.Base.{
  ℕ, String, ◌+◌, ◌≡◌, refl, sym, ap, ◌∙◌, Bool, true, false, none, some, List, [], ◌∷◌, ◌++◌,
  Result, ok, err, ◌>>=◌, all, count, total-append, get_elem?, get_elem?-set, length, ◌==◌,
  if◌then◌else◌, arith, max,
}
use spraycc.Ipc.{Message}
use spraycc.Ipc.Message.{task_done, task_failed}
use spraycc.Ipc.Outputs.{is_output}
use spraycc.Server.Queue.{PriorityQueue}
use spraycc.Server.State.{Item, Env, Fault, ServerState, Remote, is_client}
use spraycc.Server.Dispatch.{remote_at, put_remote, update}
use spraycc.Server.Handlers.{
  send_to_paired_remote, exec_is_ready, finish_task, record_elapsed, is_success, handle_msg,
}
use spraycc.Server.Relay.{relay, sent_after, messages, Accepts, relay_lem}
use spraycc.Server.Relay.Then.{Then, Then->>=, Then-ok}
use spraycc.Server.Relay.Frame.{remote_at-Then}
use spraycc.Server.Relay.Channels.{Holds, Apart, put_remote-Holds, update-Holds}

abbrev pub is_closing : Message → Bool
is_closing (task_done exit_code target_id run_time send_time) = true
is_closing (task_failed error_message) = true
is_closing _ = false

module _ (Q : PriorityQueue Item) (e c : ℕ) (chan : List Message) (apart : (c == e) ≡ false) where
  exec_is_ready-Holds :
      (env : Env) (s : ServerState Q)
      → Apart Q c chan s
      → Then (Holds Q c chan) (exec_is_ready Q env e s)
  unfolding exec_is_ready
  exec_is_ready-Holds env s (h, none_is) =
      let ready : Remote → ServerState Q = λ r. record s {
        exec_queue = s.exec_queue ++ e ∷ [];
        remotes = (put_remote Q e (record r { paired_id = none }) s).remotes;
      } in
      Then->>= (λ r. get_elem? s.remotes e ≡ some r) (Holds Q c chan) (remote_at Q s e)
        (λ r. update Q env (ready r)) (remote_at-Then Q s e)
        (λ r at_e. update-Holds Q c chan env (ready r) (
          put_remote-Holds Q c chan s e r (record r { paired_id = none }) at_e (λ same. refl) h,
          total-append _ s.exec_queue (e ∷ []) ∙ ground (arith, none_is, apart),
        ))

-- The message that ends the task goes to the client `c` of the executor `e`.
module _ (Q : PriorityQueue Item) (e c : ℕ) (env : Env) (re rc : Remote)
    (paired : re.paired_id ≡ some c) (is : is_client rc.conn_type ≡ true) (apart : (c == e) ≡ false)
    (accepts : (n : ℕ) → env.accepts c n ≡ true) where
  pub paired_sent :
      (msg : Message) (s : ServerState Q)
      → get_elem? s.remotes e ≡ some re
      → get_elem? s.remotes c ≡ some rc
      → send_to_paired_remote Q env e msg s
        ≡ ok (put_remote Q c (record rc { send_chan = msg ∷ rc.send_chan }) s)
  unfolding send_to_paired_remote
  paired_sent msg s at_e at_c = rw (at_e, paired, at_c, is, accepts (length rc.send_chan)) refl

  finish_task-Holds :
      (msg : Message) (s : ServerState Q)
      → get_elem? s.remotes e ≡ some re
      → get_elem? s.remotes c ≡ some rc
      → count c s.exec_queue ≡ 0
      → Then (Holds Q c (msg ∷ rc.send_chan)) (finish_task Q env e msg s)
  unfolding finish_task
  finish_task-Holds msg s at_e at_c none_is =
      let rc' : Remote = record rc { send_chan = msg ∷ rc.send_chan } in
      let s' : ServerState Q = put_remote Q c rc' s in
      let chan = msg ∷ rc.send_chan in
      Then->>= (λ t. t ≡ s') (Holds Q c chan) (send_to_paired_remote Q env e msg s)
        (λ t. exec_is_ready Q env e (record t { finish_count = t.finish_count + 1 }))
        (rw (paired_sent msg s at_e at_c) refl)
        (λ t same.
          exec_is_ready-Holds Q e c chan apart env (record t { finish_count = t.finish_count + 1 })
            (
              (
                rc',
                ap (λ u. get_elem? u.remotes c) same
                    ∙ get_elem?-set s.remotes c c rc' rc at_c
                    ∙ ground arith,
                refl,
              ),
              ap (λ u. count c u.exec_queue) same ∙ none_is,
            ))

  pub same_remotes :
      (b : Bool) (target_id : String) (run_time : ℕ) (s : ServerState Q)
      → ((if b then record_elapsed Q env target_id run_time s else s).remotes ≡ s.remotes)
        × ((if b then record_elapsed Q env target_id run_time s else s).exec_queue ≡ s.exec_queue)
  unfolding record_elapsed
  same_remotes true target_id run_time s = (refl, refl)
  same_remotes false target_id run_time s = (refl, refl)

  closing-Holds :
      (msg : Message) (s : ServerState Q)
      → is_closing msg ≡ true
      → get_elem? s.remotes e ≡ some re
      → get_elem? s.remotes c ≡ some rc
      → count c s.exec_queue ≡ 0
      → Then (Holds Q c (msg ∷ rc.send_chan)) (handle_msg Q env e msg s)
  unfolding handle_msg
  closing-Holds (task_failed error_message) s closes at_e at_c none_is =
      finish_task-Holds (task_failed error_message) s at_e at_c none_is
  closing-Holds (task_done exit_code target_id run_time send_time) s closes at_e at_c none_is =
      let msg = task_done exit_code target_id run_time send_time in
      let counted : ServerState Q → Result Fault (ServerState Q) = λ s₂. ok (record s₂ {
        total_run_time = s₂.total_run_time + run_time;
        total_send_time = s₂.total_send_time + send_time;
        peak_send_time = max s₂.peak_send_time send_time;
      }) in
      let s₁ = if is_success exit_code then record_elapsed Q env target_id run_time s else s in
      let same = same_remotes (is_success exit_code) target_id run_time s in
      Then->>= (Holds Q c (msg ∷ rc.send_chan)) (Holds Q c (msg ∷ rc.send_chan))
        (finish_task Q env e msg s₁) counted
        (finish_task-Holds msg s₁ (rw same.0 at_e) (rw same.0 at_c) (rw same.1 none_is)) (λ s₂ h. h)
  closing-Holds _ s closes at_e at_c none_is = cc

bind_assoc :
    {A : Type 0} {B : Type 0} {C : Type 0} (m : Result Fault A) (f : A → Result Fault C)
    (g : A → Result Fault B) (h : B → Result Fault C)
    → ((a : A) → f a ≡ (g a >>= h))
    → (m >>= f) ≡ ((m >>= g) >>= h)
bind_assoc (ok a) f g h each = each a
bind_assoc (err fault) f g h each = refl

relay-append :
    (Q : PriorityQueue Item) (e c : ℕ) (xs ys : List (Env × Message)) (s : ServerState Q)
    → relay Q e c (xs ++ ys) s ≡ (relay Q e c xs s >>= relay Q e c ys)
unfolding relay
relay-append Q e c [] ys s = refl
relay-append Q e c ((env, msg) ∷ xs) ys s =
    bind_assoc (handle_msg Q env e msg s) (relay Q e c (xs ++ ys)) (relay Q e c xs) (relay Q e c ys)
      (relay-append Q e c xs ys)

last_one :
    (Q : PriorityQueue Item) (e c : ℕ) (env : Env) (msg : Message) (s : ServerState Q)
    (P : ServerState Q → Type 0)
    → Then P (handle_msg Q env e msg s)
    → Then P (relay Q e c ((env, msg) ∷ []) s)
unfolding relay
last_one Q e c env msg s P h = Then->>= P P (handle_msg Q env e msg s) (λ t. ok t) h (λ t k. k)

-- When an executor sends outputs and then the message that ends its task, and the server handles them
-- all, one after the other, the channel of the client that it works for ends with the outputs, in
-- their order, and that message behind them, if the channel takes every message and the client is
-- not in the queue of idle executors: whatever else the server then hands out, the client is sent
-- nothing more.
pub relay_task :
    (Q : PriorityQueue Item) (e c n : ℕ) (events : List (Env × Message)) (env : Env)
    (final : Message) (s s' : ServerState Q) (re rc : Remote)
    → get_elem? s.remotes e ≡ some re
    → re.paired_id ≡ some c
    → get_elem? s.remotes c ≡ some rc
    → is_client rc.conn_type ≡ true
    → (c == e) ≡ false
    → count c s.exec_queue ≡ 0
    → all (is_output n) (messages events) ≡ true
    → is_closing final ≡ true
    → Accepts c events
    → ((k : ℕ) → env.accepts c k ≡ true)
    → relay Q e c (events ++ (env, final) ∷ []) s ≡ ok s'
    → (r : Remote) × (get_elem? s'.remotes c ≡ some r)
      × (r.send_chan ≡ final ∷ sent_after rc.send_chan (messages events))
relay_task Q e c n events env final s s' re rc at_e paired at_c is apart none_is outs closes accepts
      takes returned =
    let (s₁, relayed, each, queue) =
      relay_lem Q e c n events s re rc at_e paired at_c is apart outs accepts in
    let chan = sent_after rc.send_chan (messages events) in
    let rest : relay Q e c ((env, final) ∷ []) s₁ ≡ ok s' =
      ap (λ m. m >>= relay Q e c ((env, final) ∷ [])) (sym relayed)
      ∙ sym (relay-append Q e c events ((env, final) ∷ []) s)
      ∙ returned in
    Then-ok (Holds Q c (final ∷ chan)) (relay Q e c ((env, final) ∷ []) s₁) rest (
      last_one Q e c env final s₁ (Holds Q c (final ∷ chan)) (
        closing-Holds Q e c env re (record rc { send_chan = chan }) paired is apart takes final s₁
          closes (each e ∙ rw apart at_e) (each c ∙ ground arith)
          (ap (λ q. count c q) queue ∙ none_is)))
