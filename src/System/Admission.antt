-- ===== src/System/Admission.antt =====
-- src/client.rs and src/server.rs together: what a client says to the server, at the gate of the
-- connection that the server has with it.
use spraycc.Base.{
  ℕ, String, Bool, true, false, some, List, Result, ok, err, ◌≡◌, refl, ◌⊎◌, inl, inr, arith,
}
use spraycc.Ipc.{CallMe, TaskDetails, Message}
use spraycc.Config.Contact.{read_server_contact_info_from}
use spraycc.Config.PrivateKey.{load_user_private_key}
use spraycc.Server.Gate.{refused}
use spraycc.Client.CommandLine.{CommandError, interpret_command_line}
use spraycc.Client.Connect.{Attempts, connected, unable, still_trying, connect_w_retry}
use spraycc.Client.Output.{Host}
use spraycc.Client.Run.{ClientHost, run, run_here, run_on_server, run_connected}

-- The same client before another server.
abbrev pub before :
    (Message → Bool) → (Message → List Message) → (Message → Bool) → ClientHost → ClientHost
before takes replies ends c = record c { takes = takes; replies = replies; ends = ends }

interpreted_cases :
    (m : Result CommandError (Bool × TaskDetails))
    → ((e : CommandError) × (m ≡ err e))
      ⊎ ((task : TaskDetails) × ((m ≡ ok (true, task)) ⊎ (m ≡ ok (false, task))))
interpreted_cases (err e) = inl (e, refl)
interpreted_cases (ok (true, task)) = inr (task, inl refl)
interpreted_cases (ok (false, task)) = inr (task, inr refl)

request_admitted :
    (code key : ℕ) (task : TaskDetails) → refused code key (Message.task code key task) ≡ false
unfolding refused
request_admitted code key task = ground arith

module _ (c : ClientHost) (callme : CallMe) (key : ℕ) (takes : Message → Bool)
    (replies : Message → List Message) (ends : Message → Bool)
    (found : read_server_contact_info_from c.contact c.disk c.dirs ≡ some callme)
    (has_key : (load_user_private_key c.private_key false c.home_dir 0 c.disk).1 ≡ some key)
    (same : (msg : Message)
      → refused callme.access_code key msg ≡ false
      → (c.takes msg ≡ takes msg) × (c.replies msg ≡ replies msg) × (c.ends msg ≡ ends msg)) where
  same_talk :
      (task : TaskDetails) (host : Host) (a : Attempts)
      → run_connected c callme key task host a
        ≡ run_connected (before takes replies ends c) callme key task host a
  unfolding run_connected
  same_talk task host (connected n) =
      let msg : Message = Message.task callme.access_code key task in
      let (taken, replied, ended) = same msg (request_admitted callme.access_code key task) in
      rw (taken, replied, ended) refl
  same_talk task host unable = refl
  same_talk task host still_trying = refl

  -- What a command does and returns depends on the server only by how it takes, answers and ends
  -- messages that its gate does not refuse: for the access code of the contact file that the client
  -- finds and the key that it loads, two servers that agree on these messages, and that the same
  -- attempts to connect reach, make the command do the same, whether it runs locally, fails or goes to
  -- the server.
  pub run-refused :
      (args : List String) (host : Host)
      → run c args host ≡ run (before takes replies ends c) args host
  unfolding run run_on_server run_here
  run-refused args host =
      elim (interpreted_cases (interpret_command_line c.which c.vars c.cwd args)) [
        | inl (e, wrong) ↦ rw wrong refl
        | inr (task, inl local) ↦ rw (local, has_key) refl
        | inr (task, inr remote) ↦
            rw (remote, has_key, found)
              (same_talk task host (connect_w_retry (c.reaches callme.addr)))
      ]
