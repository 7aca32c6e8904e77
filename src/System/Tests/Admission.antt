-- ===== src/System/Tests/Admission.antt =====
-- src/client.rs and src/server.rs together: a command before a server that says nothing to messages
-- which its gate refuses.
use spraycc.Base.{Bool, not, List, [], some, if◌then◌else◌, ◌≡◌, refl}
use spraycc.Base.Maps
use spraycc.Ipc.{Message}
use spraycc.Config.Contact.{read_server_contact_info_from, write_server_contact_info}
use spraycc.Server.Gate.{refused}
use spraycc.Client.Run.{run}
use spraycc.Exec.Sample.{details}
use spraycc.System.Admission.{before, run-refused}
use spraycc.System.Tests.{callme, client, host, replies, for_server, has_key}

abbrev answers : Message → List Message
answers msg = if refused 42 7 msg then [] else replies

abbrev stays : Message → Bool
stays msg = not (refused 42 7 msg)

found : read_server_contact_info_from client.contact client.disk client.dirs ≡ some callme
unfolding read_server_contact_info_from Maps.lookup Maps.insert write_server_contact_info
found = refl

run-refused_example :
    run client details.args host ≡ run (before for_server answers stays client) details.args host
run-refused_example =
    run-refused client callme 7 for_server answers stays found has_key
      (λ msg h. (refl, rw h refl, rw h refl)) details.args host
