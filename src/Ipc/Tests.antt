-- ===== src/Ipc/Tests.antt =====
-- src/ipc.rs: three messages through a connection that delivers them in pieces.
use spraycc.Base.{ℕ, zero, suc, ◌≡◌, refl, Option, none, some, List, [], ◌∷◌, arith, length}
use spraycc.Ipc.{Message, OutputType}
use spraycc.Ipc.Framing.{Codec, Connection, bytes, closed, write_message}
use spraycc.Ipc.Framing.RoundTrip.{read_all, AllSendable, read_all-write_all}

abbrev take : ℕ → List ℕ → List ℕ
take zero bs = []
take (suc n) [] = []
take (suc n) (b ∷ bs) = b ∷ take n bs

-- A codec for output and for the messages without data.
abbrev serialize : Message → List ℕ
serialize (Message.task_output OutputType.stdout content) = 1 ∷ length content ∷ content
serialize Message.dropped = 2 ∷ []
serialize _ = 3 ∷ []

abbrev deserialize : List ℕ → Option Message
deserialize (suc zero ∷ n ∷ bs) = some (Message.task_output OutputType.stdout (take n bs))
deserialize (suc (suc zero) ∷ bs) = some Message.dropped
deserialize (suc (suc (suc zero)) ∷ bs) = some Message.piss_off
deserialize _ = none

abbrev codec : Codec
codec = record { serialize = serialize; deserialize = deserialize }

abbrev sent : List Message
sent =
    Message.task_output OutputType.stdout (104 ∷ 105 ∷ []) ∷ Message.piss_off ∷ Message.dropped ∷ []

abbrev connection : Connection
connection = record {
  buf = 0 ∷ 0 ∷ [];
  stream =
      bytes (0 ∷ 4 ∷ 1 ∷ [])
      ∷ bytes (2 ∷ 104 ∷ 105 ∷ 0 ∷ 0 ∷ 0 ∷ 1 ∷ 3 ∷ 0 ∷ [])
      ∷ bytes (0 ∷ 0 ∷ 1 ∷ 2 ∷ [])
      ∷ [];
}

sent-AllSendable : AllSendable codec sent
sent-AllSendable =
    (omega arith, λ rest. refl, (omega arith, λ rest. refl, (omega arith, λ rest. refl, tt)))

read_all-write_all_example : read_all codec 4 connection ≡ (sent, closed)
unfolding write_message
read_all-write_all_example = read_all-write_all codec sent connection sent-AllSendable tt refl
