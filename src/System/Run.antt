-- ===== src/System/Run.antt =====
-- src/client.rs, src/config.rs and src/exec.rs together: a client that finds the server by its contact file
-- and gets the messages of the executor that ran its task.
use spraycc.Base.{
  ℕ, suc, ◌+◌, ◌≤◌, ℤ, String, true, false, none, some, List, ◌++◌, ◌≡◌, ap, ◌∙◌, ok, length, map,
  all, get_elem?,
}
use spraycc.Base.Maps
use spraycc.Ipc.{CallMe, TaskDetails, Message}
use spraycc.Config.Files.{Disk, content_of}
use spraycc.Config.Files.Laws.{Usable}
use spraycc.Config.PrivateKey.{load_user_private_key}
use spraycc.Config.Contact.{contact_path, write_server_contact_info, read_server_contact_info_from}
use spraycc.Config.Contact.Laws.{
  NoneBetween, write_server_contact_info-read_server_contact_info_from,
}
use spraycc.Task.Start.{Child}
use spraycc.Exec.{Socket, World, handle_new_task}
use spraycc.Exec.Sending.{Takes, add}
use spraycc.Exec.Pumping.{text}
use spraycc.Exec.Files.{content_at, extended}
use spraycc.Exec.Tasks.{Starts, Readable}
use spraycc.Client.CommandLine.{interpret_command_line}
use spraycc.Client.Connect.{none_before}
use spraycc.Client.Output.{file_name, Host, Receiver, make_output_files, run_remote}
use spraycc.Client.Output.Files.{distinct}
use spraycc.Client.Output.Receiving.{ready}
use spraycc.Client.Run.{ClientHost, run, from_talk}
use spraycc.Client.Run.Laws.{talked, run_lem}
use spraycc.System.{handle_new_task-run_remote}

-- A client below the directory of a server that has written its contact file, which no older file
-- spoils; the client reaches the server.
pub record Served (c : ClientHost) (callme : CallMe) : Type 0 where
  pub cwd : List String
  pub below : List String
  pub in_dirs : c.dirs ≡ (below ++ cwd)
  pub before : Disk
  pub on_disk : c.disk ≡ (write_server_contact_info c.contact cwd callme before).0
  pub contact_text : List ℕ
  pub usable : Usable before (contact_path cwd)
  pub printed : c.contact.to_string callme ≡ some contact_text
  pub parsed : c.contact.from_str contact_text ≡ some callme
  pub fits : length (content_of before (contact_path cwd)) ≤ length contact_text
  pub clear : NoneBetween c.contact below cwd before
  pub reached : none_before (c.reaches callme.addr) 6 ≡ false

-- What the client gets back for its task, sent with the access code of the contact file and the key of
-- the user, is what the executor sends for it.
pub record Relayed (c : ClientHost) (callme : CallMe) (key : ℕ) (w : World) (details : TaskDetails)
    (s : Socket) : Type 0 where
  pub taken : c.takes (Message.task callme.access_code key details) ≡ true
  pub ended : c.ends (Message.task callme.access_code key details) ≡ true
  pub same :
      (msgs : List Message)
      → handle_new_task w details s ≡ ok (add s msgs)
      → c.replies (Message.task callme.access_code key details) ≡ msgs

contact_found :
    (c : ClientHost) (callme : CallMe) (served : Served c callme)
    → read_server_contact_info_from c.contact c.disk c.dirs ≡ some callme
contact_found c callme served =
    rw (served.on_disk, served.in_dirs)
      (write_server_contact_info-read_server_contact_info_from c.contact served.below served.cwd
        callme served.contact_text served.before served.usable served.printed served.parsed
        served.fits served.clear).1

talked_lem :
    (c : ClientHost) (callme : CallMe) (key : ℕ) (w : World) (details : TaskDetails) (s : Socket)
    (host : Host) (code : ℤ) (r : Receiver) (msgs : List Message)
    (relayed : Relayed c callme key w details s)
    → handle_new_task w details s ≡ ok (add s msgs)
    → run_remote c.creatable details true msgs true host ≡ ok (code, r)
    → talked c callme key details host ≡ ok (code, r.host)
talked_lem c callme key w details s host code r msgs relayed handled done =
    rw (relayed.taken, relayed.ended, relayed.same msgs handled) (ap from_talk done)

module _ (c : ClientHost) (callme : CallMe) (args : List String) (details : TaskDetails)
    (served : Served c callme)
    (goes : interpret_command_line c.which c.vars c.cwd args ≡ ok (false, details)) (w : World)
    (child : Child) (code : ℤ) (s : Socket) (takes : Takes s) (starts : Starts w.host details child)
    (exits : child.wait ≡ some (some code)) (readable : Readable child)
    (enough : suc (length child.stdout) + suc (length child.stderr) ≤ length w.schedule)
    (names : List String) (host : Host)
    (made : make_output_files details.args details.output_args ≡ some (map file_name names))
    (can : all (ready c.creatable) (map file_name names) ≡ true) (apart : distinct names ≡ true)
    (key : ℕ)
    (has_key : (load_user_private_key c.private_key false c.home_dir 0 c.disk).1 ≡ some key)
    (relayed : Relayed c callme key w details s) where
  -- A command for the server, given below the directory of a server that has written its contact file
  -- and that one of six attempts reaches: where the task starts on an executor whose messages come
  -- back to the client, its process exits and its files can be read, and where the client can create
  -- its output files and they have different names, the client returns the exit code of the process,
  -- has written the lines of the process, up to the first that cannot be read, to its standard output
  -- and standard error, and each output file holds what the process left in the temporary file that it
  -- was given in its place, or, where that is empty, what it held before.
  pub run-handle_new_task :
      (i : ℕ) (name : String) (at_i : get_elem? names i ≡ some name)
      → (after : Host) × (run c args host ≡ ok (code, after))
        × (length starts.paths ≡ length names)
        × (after.out ≡ (host.out ++ text child.stdout))
        × (after.errors ≡ (host.errors ++ text child.stderr))
        × (Maps.lookup name after.files
            ≡ Maps.or_else
                (extended none (content_at child.opened 0 starts.paths i))
                (Maps.lookup name host.files))
  run-handle_new_task i name at_i =
      let (msgs, r, handled, sizes, done, out, errors, held) =
        handle_new_task-run_remote w details child code s takes starts exits readable enough
          c.creatable names host made can apart i name at_i in
      (
        r.host,
        run_lem c args details callme host goes (contact_found c callme served) key has_key
            ∙ rw served.reached
                (talked_lem c callme key w details s host code r msgs relayed handled done),
        sizes,
        out,
        errors,
        held,
      )
