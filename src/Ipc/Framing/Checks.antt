-- ===== src/Ipc/Framing/Checks.antt =====
-- src/ipc.rs: the test that sends messages over a connection, as a function into Bool, and that it passes
-- however the socket cuts up what was written.
use spraycc.Base.{ℕ, zero, suc, ◌+◌, ◌*◌, ◌≡◌, refl, Bool, true, some, List, [], ◌∷◌, pos, ◌==◌}
use spraycc.Ipc.{Message, OutputType}
use spraycc.Ipc.Framing.{Codec, Read, Connection, message, read_message, new}
use spraycc.Ipc.Framing.RoundTrip.{AllBytes, flatten, AllSendable, write_all, read-write}

abbrev vec_of_size : ℕ → List ℕ
vec_of_size zero = []
vec_of_size (suc sz) = 0 ∷ vec_of_size sz

-- The large message of the test, with the size as a parameter.
abbrev test_messages : ℕ → List Message
test_messages size =
    Message.your_obedient_servant 123 666
    ∷ Message.task_done (some (pos 0)) "" (2 * 1_000_000_000) (15 * 1_000_000)
    ∷ Message.task_output (OutputType.file 1) (vec_of_size size)
    ∷ Message.piss_off
    ∷ []

module _ (codec : Codec) where
  -- The loop of the receiver; it ends at `PissOff`, or when no message comes. At the end of the stream
  -- `next_message` reads on for good, which is counted as none here.
  unfoldable msgs_recvd : ℕ → Connection → ℕ
  unfolding read_message
  msgs_recvd zero conn = 0
  msgs_recvd (suc rounds) conn = elim (read_message codec conn) [
    | message Message.piss_off c ↦ 1
    | message msg c ↦ 1 + msgs_recvd rounds c
    | _ ↦ 0
  ]

  unfoldable pub test_msgs : List Read → Bool
  unfolding msgs_recvd new
  test_msgs stream = msgs_recvd 4 (new stream) == 4

  test_msgs_lem :
      (size : ℕ) (stream : List Read)
      → AllSendable codec (test_messages size)
      → AllBytes stream
      → flatten stream ≡ write_all codec (test_messages size)
      → test_msgs stream ≡ true
  unfolding test_msgs msgs_recvd new
  test_msgs_lem size stream
        (small₁, decodes₁, (small₂, decodes₂, (small₃, decodes₃, (small₄, decodes₄, u)))) all e =
      let (c₁, read₁, ahead₁, all₁) = read-write codec _ _ (new stream) decodes₁ small₁ all e in
      let (c₂, read₂, ahead₂, all₂) = read-write codec _ _ c₁ decodes₂ small₂ all₁ ahead₁ in
      let (c₃, read₃, ahead₃, all₃) = read-write codec _ _ c₂ decodes₃ small₃ all₂ ahead₂ in
      let (c₄, read₄, ahead₄, all₄) = read-write codec _ _ c₃ decodes₄ small₄ all₃ ahead₃ in
      rw (read₁, read₂, read₃, read₄) refl
