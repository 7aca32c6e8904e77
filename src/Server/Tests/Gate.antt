-- ===== src/Server/Tests/Gate.antt =====
-- src/server.rs: connections of an executor and of strangers, and the theorems about them.
use spraycc.Base.{◌≡◌, refl, true, false, some, List, [], ◌∷◌}
use spraycc.Ipc.Message.{your_obedient_servant, dropped, piss_off}
use spraycc.Server.Gate.{
  refused, Round, read, closed, undecodable, outbound, Traffic, handle_connection,
}
use spraycc.Server.Gate.Laws.{
  handle_connection_guards, failed_write_is_silent, All, EndsTold, reads,
}

-- An executor is let in, is told to go and goes; a stranger is not let in.
abbrev rounds : List Round
rounds =
    read (your_obedient_servant 43 7) true
    ∷ outbound piss_off true
    ∷ read (your_obedient_servant 40 7) true
    ∷ closed
    ∷ []

abbrev traffic : Traffic
traffic = record {
  to_server = your_obedient_servant 43 7 ∷ dropped ∷ dropped ∷ [];
  to_socket = piss_off ∷ [];
  error = false;
  panicked = false;
}

-- Bytes that cannot be decoded leave the server without a word.
undecodable_is_silent :
    handle_connection 42 7 (read (your_obedient_servant 42 7) true ∷ undecodable ∷ [])
    ≡ some (record {
      to_server = your_obedient_servant 42 7 ∷ [];
      to_socket = [];
      error = false;
      panicked = true;
    })
unfolding handle_connection
undecodable_is_silent = refl

handle_connection_guards_example :
    All (λ m. refused 42 7 m ≡ false) traffic.to_server × EndsTold rounds traffic
unfolding handle_connection
handle_connection_guards_example = handle_connection_guards 42 7 rounds traffic refl

failed_write_is_silent_example :
    handle_connection 42 7 (reads (your_obedient_servant 42 7 ∷ []) (outbound piss_off false ∷ []))
    ≡ some (record {
      to_server = (your_obedient_servant 42 7) ∷ [];
      to_socket = [];
      error = true;
      panicked = false;
    })
unfolding refused
failed_write_is_silent_example =
    failed_write_is_silent 42 7 (your_obedient_servant 42 7 ∷ []) piss_off [] (refl, tt)
