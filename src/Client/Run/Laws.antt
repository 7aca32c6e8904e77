-- ===== src/Client/Run/Laws.antt =====
-- src/client.rs: where a command runs, and what the client returns for it.
use spraycc.Base.{
  ℕ, ℤ, negsuc, String, Bool, true, false, some, List, Result, ok, ◌==◌, sym, zero, suc, ◌≡◌, refl,
  ap, ◌∙◌, inl, inr, if◌then◌else◌, Bool-cases, arith, ◌<◌,
}
use spraycc.Ipc.{CallMe, TaskDetails, Message}
use spraycc.Config.Contact.{read_server_contact_info_from}
use spraycc.Config.PrivateKey.{load_user_private_key}
use spraycc.Client.CommandLine.{interpret_command_line}
use spraycc.Client.Connect.{none_before, connect_w_retry_lem}
use spraycc.Client.Output.{Host, run_remote}
use spraycc.Client.Run.{ClientHost, RunFault, run, run_on_server, run_connected, from_talk}

-- What the server's replies to the task, sent with the access code and the key, make of the client.
abbrev pub talked : ClientHost → CallMe → ℕ → TaskDetails → Host → Result RunFault (ℤ × Host)
talked c callme key task host =
    let msg = Message.task callme.access_code key task in
    from_talk (run_remote c.creatable task (c.takes msg) (c.replies msg) (c.ends msg) host)

none_before_lem :
    (reaches : ℕ → Bool) (m n : ℕ) → n < m → reaches n ≡ true → none_before reaches m ≡ false
none_before_lem reaches zero n early reached = absurd (omega arith)
none_before_lem reaches (suc m) n early reached = elim (Bool-cases (n == m)) [
  | inl last ↦ let e : n ≡ m = ground (arith, last) in rw (ap reaches (sym e) ∙ reached) refl
  | inr earlier ↦ rw (none_before_lem reaches m n (ground (arith, earlier)) reached) (ground arith)
]

reached_in : (reaches : ℕ → Bool) (n : ℕ) → n < 6 → reaches n ≡ true → none_before reaches 6 ≡ false
reached_in reaches n early reached = none_before_lem reaches 6 n early reached

connected_lem :
    (c : ClientHost) (callme : CallMe) (key : ℕ) (task : TaskDetails) (host : Host)
    → run_on_server c key task host (some callme) ≡ (
        if none_before (c.reaches callme.addr) 6
        then ok (negsuc 0, host)
        else talked c callme key task host)
unfolding run_on_server run_connected
connected_lem c callme key task host = elim (connect_w_retry_lem (c.reaches callme.addr)) [
  | inl (n, early, reached, before, found) ↦
      rw (found, reached_in (c.reaches callme.addr) n early reached) refl
  | inr (missed, found) ↦ rw (found, missed) refl
]

-- A command that goes to the server, of which a contact file is found: when none of six attempts
-- reaches it, `run` returns -1 and has written nothing; otherwise it sends the task with the access
-- code of the contact file and the user's key, and what it writes and returns is what the replies
-- make of it.
pub run_lem :
    (c : ClientHost) (args : List String) (task : TaskDetails) (callme : CallMe) (host : Host)
    (goes : interpret_command_line c.which c.vars c.cwd args ≡ ok (false, task))
    (found : read_server_contact_info_from c.contact c.disk c.dirs ≡ some callme) (key : ℕ)
    (has_key : (load_user_private_key c.private_key false c.home_dir 0 c.disk).1 ≡ some key)
    → run c args host ≡ (
        if none_before (c.reaches callme.addr) 6
        then ok (negsuc 0, host)
        else talked c callme key task host)
unfolding run
run_lem c args task callme host goes found key has_key =
    rw (goes, has_key, found) (connected_lem c callme key task host)
