-- ===== src/Ipc/Framing.antt =====
-- src/ipc.rs: `Connection`, which sends each message behind its length. The crate bincode is a
-- parameter, and the socket a list of what its reads return.
pub mod Bytes
pub mod RoundTrip
mod Checks
use spraycc.Base.{
  ℕ, zero, suc, ◌+◌, ◌-◌, ◌*◌, ◌/◌, ◌%◌, ◌^◌, Bool, true, false, Option, none, some, List, [], ◌∷◌,
  ◌++◌, ltb, leb, length, if◌then◌else◌,
}
use spraycc.Ipc.{Message}

-- What bincode does.
pub record Codec : Type 0 where
  pub serialize : Message → List ℕ
  pub deserialize : List ℕ → Option Message

-- One read of the socket: the bytes it adds to the buffer, none of them at the end, or an error.
pub data Read : Type 0 where
  bytes : List ℕ → Read
  failure : Read

-- The buffer, and the reads to come.
pub record Connection : Type 0 where
  pub buf : List ℕ
  pub stream : List Read

-- `Connection::new`
unfoldable pub new : List Read → Connection
new stream = record { buf = []; stream = stream }

-- `BigEndian::write_u32`
unfoldable pub write_u32 : ℕ → List ℕ
write_u32 n = (n / 2 ^ 24 % 256) ∷ (n / 2 ^ 16 % 256) ∷ (n / 2 ^ 8 % 256) ∷ (n % 256) ∷ []

-- `get_i32() as usize`: a negative length becomes a huge one.
unfoldable pub as_usize : ℕ → ℕ → ℕ → ℕ → ℕ
as_usize a b c d =
    let n = a * 2 ^ 24 + b * 2 ^ 16 + c * 2 ^ 8 + d in
    if ltb n (2 ^ 31) then n else n + 2 ^ 64 - 2 ^ 32

-- The buffer is full enough, the stream is at its end, or a read failed.
pub data Filled : Type 0 where
  filled : Connection → Filled
  at_end : List ℕ → Filled
  broken : Filled

-- `while self.buf.len() < size { if self.stream.read_buf(…).await? == 0 { … } }`
unfoldable pub fill : ℕ → List ℕ → List Read → Filled
fill size buf [] =
    if leb size (length buf) then filled (record { buf = buf; stream = [] }) else at_end buf
fill size buf (bytes [] ∷ stream) =
    if leb size (length buf)
    then filled (record { buf = buf; stream = bytes [] ∷ stream })
    else at_end buf
fill size buf (bytes (b ∷ bs) ∷ stream) =
    let more = fill size (buf ++ b ∷ bs) stream in
    if leb size (length buf)
    then filled (record { buf = buf; stream = bytes (b ∷ bs) ∷ stream })
    else more
fill size buf (failure ∷ stream) =
    if leb size (length buf)
    then filled (record { buf = buf; stream = failure ∷ stream })
    else broken

-- A message, the end of the stream, an error, or the panic on what bincode cannot decode.
pub data Received : Type 0 where
  message : Message → Connection → Received
  closed reset io_error undecodable : Received

abbrev pub drop : ℕ → List ℕ → List ℕ
drop zero bs = bs
drop (suc n) [] = []
drop (suc n) (b ∷ bs) = drop n bs

module _ (codec : Codec) where
  decode : ℕ → Connection → Received
  decode size c = elim (Codec.deserialize codec c.buf) [
    | none ↦ undecodable
    | some msg ↦ message msg (record c { buf = drop size c.buf })
  ]

  read_body : ℕ → List ℕ → List Read → Received
  unfolding fill decode
  read_body size buf stream = elim (fill size buf stream) [
    | filled c ↦ decode size c
    | at_end rest ↦ reset
    | broken ↦ io_error
  ]

  -- After the header: `filled` has four bytes at least.
  read_sized : List ℕ → List Read → Received
  unfolding read_body as_usize
  read_sized (a ∷ b ∷ c ∷ d ∷ buf) stream = read_body (as_usize a b c d) buf stream
  read_sized _ stream = reset

  at_end_of : List ℕ → Received
  at_end_of [] = closed
  at_end_of (b ∷ bs) = reset

  unfoldable pub read_message : Connection → Received
  unfolding fill read_sized at_end_of
  read_message conn = elim (fill 4 conn.buf conn.stream) [
    | filled c ↦ read_sized c.buf c.stream
    | at_end rest ↦ at_end_of rest
    | broken ↦ io_error
  ]

  unfoldable pub write_message : Message → List ℕ
  unfolding write_u32
  write_message msg =
      let content = Codec.serialize codec msg in write_u32 (length content % 2 ^ 32) ++ content
