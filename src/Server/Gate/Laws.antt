-- ===== src/Server/Gate/Laws.antt =====
-- Who gets past `handle_connection`, and what it tells the server at the end.
use mathlib.Core.Option
use spraycc.Base.{
  ℕ, ◌+◌, ◌%◌, ◌≡◌, refl, true, false, Bool, ◌||◌, not, Bool-cases, Option, none, some, List, [],
  ◌∷◌, ◌==◌, if◌then◌else◌, arith, ◌⊎◌, inl, inr, ◌<◌, ◌^◌, ◌↔◌,
}
use spraycc.Ipc.{Message}
use spraycc.Ipc.Message.{your_obedient_servant, dropped}
use spraycc.Server.Loop.{draw_access_code}
use spraycc.Server.Gate.{
  refused, handle_connection, Round, Traffic, read, closed, read_error, undecodable, outbound,
  outbound_closed, to_server_first, to_socket_first,
}

-- From a random number of 64 bits, the access code that the server draws is even and fits 63 bits.
pub draw_access_code_lem :
    (random : ℕ)
    → random < 2 ^ 64
    → (draw_access_code random % 2 ≡ 0) × (draw_access_code random < 2 ^ 63)
unfolding draw_access_code
draw_access_code_lem random h = omega arith

-- With an even access code, an executor is let in exactly if it has the user's key and that code, or
-- the code plus one. The low bit then says which queue it is from.
pub executor_admitted :
    (code key access_code user_code : ℕ)
    → code % 2 ≡ 0
    → (refused code key (your_obedient_servant access_code user_code) ≡ false)
      ↔ (((access_code ≡ code) ⊎ (access_code ≡ code + 1)) × (user_code ≡ key))
unfolding refused
executor_admitted code key access_code user_code even = ground arith

-- Of the executors that are let in, those with the odd code count as from the second queue.
pub executor_queue :
    (code key access_code user_code : ℕ)
    → code % 2 ≡ 0
    → refused code key (your_obedient_servant access_code user_code) ≡ false
    → (not (access_code % 2 == 0) ≡ true) ↔ (access_code ≡ code + 1)
unfolding refused
executor_queue code key access_code user_code even admitted = ground arith

abbrev pub last : List Message → Option Message
last [] = none
last (m ∷ []) = some m
last (m ∷ n ∷ ms) = last (n ∷ ms)

abbrev pub All : (Message → Type 0) → List Message → Type 0
All P [] = Unit
All P (m ∷ ms) = P m × All P ms

-- The messages that are read and taken by the server, before other rounds.
abbrev pub reads : List Message → List Round → List Round
reads [] rounds = rounds
reads (m ∷ ms) rounds = read m true ∷ reads ms rounds

-- A round that the task of the connection does not get over.
abbrev pub fails : Round → Bool
fails (read msg taken) = not taken
fails undecodable = true
fails (outbound msg taken) = not taken
fails _ = false

abbrev pub any_fails : List Round → Bool
any_fails [] = false
any_fails (r ∷ rounds) = fails r || any_fails rounds

-- The task failed, and on one of its rounds, or `Dropped` is the last that it sent to the server.
abbrev pub EndsTold : List Round → Traffic → Type 0
EndsTold rounds t =
    (((t.error || t.panicked) ≡ true) × (any_fails rounds ≡ true))
    ⊎ (last t.to_server ≡ some dropped)

module _ (code key : ℕ) where
  passed-refused :
      (msg : Message) → refused code key (if refused code key msg then dropped else msg) ≡ false
  passed-refused msg = elim (Bool-cases (refused code key msg)) [
    | inl bad ↦ rw bad (unfold refused in refl)
    | inr good ↦ rw good good
  ]

  -- What goes to the server: no message that is refused, and `Dropped` last unless the task failed on
  -- one of its rounds.
  abbrev Guarded : List Round → Option Traffic → Type 0
  Guarded rounds none = Unit
  Guarded rounds (some t) = All (λ m. refused code key m ≡ false) t.to_server × EndsTold rounds t

  last-cons :
      (m : Message) (ms : List Message) → last ms ≡ some dropped → last (m ∷ ms) ≡ some dropped
  last-cons m [] h = cc
  last-cons m (n ∷ ms) h = h

  Guarded-server :
      (m : Message) (r : Round) (rounds : List Round) (o : Option Traffic)
      → refused code key m ≡ false
      → Guarded rounds o
      → Guarded (r ∷ rounds) (Option.map (to_server_first m) o)
  Guarded-server m r rounds none good g = tt
  Guarded-server m r rounds (some t) good (passed, inl (lost, failed)) =
      ((good, passed), inl (lost, ground (arith, failed)))
  Guarded-server m r rounds (some t) good (passed, inr final) =
      ((good, passed), inr (last-cons m t.to_server final))

  Guarded-socket :
      (m : Message) (r : Round) (rounds : List Round) (o : Option Traffic)
      → Guarded rounds o
      → Guarded (r ∷ rounds) (Option.map (to_socket_first m) o)
  Guarded-socket m r rounds none g = tt
  Guarded-socket m r rounds (some t) (passed, inl (lost, failed)) =
      (passed, inl (lost, ground (arith, failed)))
  Guarded-socket m r rounds (some t) (passed, inr final) = (passed, inr final)

  handle_connection-Guarded :
      (rounds : List Round) → Guarded rounds (handle_connection code key rounds)
  unfolding handle_connection
  handle_connection-Guarded [] = tt
  handle_connection-Guarded (read msg true ∷ rounds) =
      Guarded-server _ (read msg true) rounds (handle_connection code key rounds)
        (passed-refused msg) (handle_connection-Guarded rounds)
  handle_connection-Guarded (read msg false ∷ rounds) = (tt, inl (refl, refl))
  handle_connection-Guarded (closed ∷ rounds) = ((refl, tt), inr refl)
  handle_connection-Guarded (read_error ∷ rounds) = ((refl, tt), inr refl)
  handle_connection-Guarded (undecodable ∷ rounds) = (tt, inl (refl, refl))
  handle_connection-Guarded (outbound msg true ∷ rounds) =
      Guarded-socket msg (outbound msg true) rounds (handle_connection code key rounds)
        (handle_connection-Guarded rounds)
  handle_connection-Guarded (outbound msg false ∷ rounds) = (tt, inl (refl, refl))
  handle_connection-Guarded (outbound_closed ∷ rounds) = ((refl, tt), inr refl)

  -- Where a connection ends, no message that is to be refused has reached the server; and the last
  -- message that reached the server is `Dropped`, or the task of the connection ended by an error or
  -- a panic, and then a channel or the socket did not take a message, or bytes came that cannot be
  -- decoded.
  pub handle_connection_guards :
      (rounds : List Round) (t : Traffic)
      → handle_connection code key rounds ≡ some t
      → All (λ m. refused code key m ≡ false) t.to_server × EndsTold rounds t
  handle_connection_guards rounds t e = rw e at (handle_connection-Guarded rounds)

  -- A connection that has read messages which are not refused, and whose socket then does not take a
  -- message of the server, ends by an error with only those messages sent to the server.
  pub failed_write_is_silent :
      (ms : List Message) (msg : Message) (rounds : List Round)
      → All (λ m. refused code key m ≡ false) ms
      → handle_connection code key (reads ms (outbound msg false ∷ rounds))
        ≡ some (record { to_server = ms; to_socket = []; error = true; panicked = false })
  unfolding handle_connection
  failed_write_is_silent [] msg rounds h = refl
  failed_write_is_silent (m ∷ ms) msg rounds (good, h) =
      rw (good, failed_write_is_silent ms msg rounds h)
