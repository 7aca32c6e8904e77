-- ===== src/System/Delivery.antt =====
-- src/client.rs, src/server.rs and src/exec.rs together: a command whose task goes over the server, while
-- the server serves others.
use spraycc.Base.{ℕ, true, some, List, [], ◌∷◌, ◌++◌, ◌≡◌, ok, get_elem?}
use spraycc.Base.Maps
use spraycc.Ipc.{CallMe, TaskDetails, Message}
use spraycc.Exec.{Socket, World, handle_new_task}
use spraycc.Exec.Sending.{Takes, add}
use spraycc.Server.Queue.{PriorityQueue}
use spraycc.Server.State.{Item, Env, ServerState, Remote, exec, is_client}
use spraycc.Server.Loop.{Event, received}
use spraycc.Server.Safety.Reach.{Reach, IsNew}
use spraycc.Server.Relay.Trace.{Trace}
use spraycc.Server.Relay.Trace
use spraycc.Server.Relay.Ended.{silent}
use spraycc.Server.Relay.Delivery.{in_order}
use spraycc.Client.Run.{ClientHost}

-- A run of the server from a state in which executor `e` has the task of client `k`, which has been sent
-- nothing. The client says nothing more, and the message that ends the task comes from the executor.
pub record Carried (Q : PriorityQueue Item) (e k : ℕ) (s t : ServerState Q)
    (before after : List (Env × Event)) (env : Env) (final : Message) : Type 0 where
  pub start : ServerState Q
  pub fresh : IsNew Q start
  pub reached : Reach Q start s
  pub executor : Remote
  pub client : Remote
  pub at_e : get_elem? s.remotes e ≡ some executor
  pub runs : executor.conn_type ≡ exec
  pub runs_task : executor.paired_id ≡ some k
  pub at_k : get_elem? s.remotes k ≡ some client
  pub connected : is_client client.conn_type ≡ true
  pub nothing_sent : client.send_chan ≡ []
  pub trace : Trace Q s (before ++ (env, received e final) ∷ after) t
  pub quiet_before : silent k before ≡ true
  pub quiet_after : silent k after ≡ true
  pub takes_before : spraycc.Server.Relay.Trace.Takes k before
  pub takes_final : (n : ℕ) → env.accepts k n ≡ true

-- The server has sent executor `executor` the task of its client `k` last; it gets what the executor says
-- to that message, in the order in which it was sent; and the command `c`, which has sent its task
-- with the access code and the key, gets what the server, at the end in state `t`, has sent to `k`.
pub record Connected (Q : PriorityQueue Item) (k : ℕ) (t : ServerState Q) (executor : Remote)
    (said : List Message) (c : ClientHost) (callme : CallMe) (key : ℕ) (w : World)
    (details : TaskDetails) (s : Socket) : Type 0 where
  pub taken : c.takes (Message.task callme.access_code key details) ≡ true
  pub ended : c.ends (Message.task callme.access_code key details) ≡ true
  pub earlier : List Message
  pub task_sent : executor.send_chan ≡ (Message.task 0 0 details ∷ earlier)
  pub from_executor :
      (given : TaskDetails) (others msgs : List Message)
      → executor.send_chan ≡ (Message.task 0 0 given ∷ others)
      → handle_new_task w given s ≡ ok (add s msgs)
      → said ≡ msgs
  pub to_client :
      (r : Remote)
      → get_elem? t.remotes k ≡ some r
      → c.replies (Message.task callme.access_code key details) ≡ in_order r.send_chan
