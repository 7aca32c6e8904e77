-- ===== src/Exec/Returns.antt =====
-- src/exec.rs: the executor comes to an end of its run.
use spraycc.Base.{
  ℕ, suc, ◌+◌, ◌≤◌, ℤ, Bool, true, Option, some, List, [], ◌∷◌, ◌++◌, ◌≡◌, refl, ok, length,
}
use spraycc.Ipc.{CallMe, TaskDetails, Message}
use spraycc.Task.Start.{Child}
use spraycc.Exec.{Socket, World, Incoming, message, closed, serve, run}
use spraycc.Exec.Sending.{Takes, add, write_lem}
use spraycc.Exec.Tasks.{Starts, Readable, done_message, handle_new_task_lem}

-- A task that starts and ends.
pub record Runs (w : World) (details : TaskDetails) : Type 0 where
  pub child : Child
  pub status : Option ℤ
  pub starts : Starts w.host details child
  pub exits : child.wait ≡ some status
  pub readable : Readable child
  pub enough : suc (length child.stdout) + suc (length child.stderr) ≤ length w.schedule

-- Tasks that run, up to the message to go or the end of the connection.
pub data Serviceable : List Incoming → Type 0 where
  told_to_go : (w : World) (rest : List Incoming) → Serviceable (message w Message.piss_off ∷ rest)
  hung_up : (rest : List Incoming) → Serviceable (closed ∷ rest)
  one_more :
      {rest : List Incoming}
      → (w : World) (access_code user_code : ℕ) (details : TaskDetails) → Runs w details
      → Serviceable rest
      → Serviceable (message w (Message.task access_code user_code details) ∷ rest)

serve_returns :
    {incoming : List Incoming}
    → Serviceable incoming
    → (s : Socket) → Takes s
    → (s' : Socket) × (serve incoming s ≡ ok s')
unfolding serve
serve_returns (told_to_go w rest) s t = (s, refl)
serve_returns (hung_up rest) s t = (s, refl)
serve_returns (one_more w access_code user_code details good more) s t =
    let (target, outs, has_target, handled, each, faithful) =
      handle_new_task_lem w details good.child good.status s t good.starts good.exits good.readable
        good.enough in
    let (s', served) =
      serve_returns more (add s (outs ++ done_message w good.status target ∷ [])) t in
    (s', rw handled served)

-- An executor returns from its run if the socket takes every message, the server sends tasks that
-- start and end, whose files can be read and whose schedules are long enough, and then tells the
-- executor to go or hangs up.
pub run_returns :
    (callme : CallMe) (user_private_key : ℕ) (incoming : List Incoming) (takes : ℕ → Bool)
    → ((n : ℕ) → takes n ≡ true)
    → Serviceable incoming
    → (s : Socket) × (run callme user_private_key incoming takes ≡ ok s)
unfolding run
run_returns callme key incoming takes all_taken good =
    let hello = Message.your_obedient_servant callme.access_code key in
    let begin : Socket = record { sent = []; takes = takes } in
    let (s, served) = serve_returns good (add begin (hello ∷ [])) all_taken in
    (s, rw (write_lem hello begin all_taken) served)
