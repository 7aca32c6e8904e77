-- ===== src/Ipc/Framing/RoundTrip.antt =====
-- What one side writes, the other side reads, however the socket cuts it up.
use mathlib.Core.List.{append_assoc, append-nil}
use spraycc.Base.{
  ℕ, zero, suc, ◌/◌, ◌%◌, ◌^◌, ◌≤◌, ◌<◌, ◌≡◌, refl, ◌∙◌, ap, some, List, [], ◌∷◌, ◌++◌, arith, leb,
  length, length-append, Bool-cases, inl, inr,
}
use spraycc.Ipc.{Message}
use spraycc.Ipc.Framing.{
  Codec, Read, bytes, failure, Connection, write_u32, as_usize, filled, fill, drop, Received,
  message, closed, reset, io_error, undecodable, decode, read_body, read_message, write_message,
}
use spraycc.Ipc.Framing.Bytes.{append_split, drop-append, header_lem}

-- Reads that bring bytes, until the end of the stream.
abbrev pub AllBytes : List Read → Type 0
AllBytes [] = Unit
AllBytes (bytes [] ∷ stream) = ⊥
AllBytes (bytes (b ∷ bs) ∷ stream) = AllBytes stream
AllBytes (failure ∷ stream) = ⊥

abbrev pub flatten : List Read → List ℕ
flatten [] = []
flatten (bytes bs ∷ stream) = bs ++ flatten stream
flatten (failure ∷ stream) = flatten stream

-- All that is still to be read.
abbrev pub ahead : Connection → List ℕ
ahead c = c.buf ++ flatten c.stream

-- Enough bytes ahead fill the buffer, and none is lost.
fill_enough :
    (size : ℕ) (stream : List Read) (buf : List ℕ)
    → AllBytes stream
    → size ≤ length (buf ++ flatten stream)
    → (c : Connection) × (fill size buf stream ≡ filled c)
      × (size ≤ length c.buf)
      × (ahead c ≡ buf ++ flatten stream)
      × AllBytes c.stream
unfolding fill
fill_enough size [] buf all h =
    let h' : size ≤ length buf = rw (← append-nil buf) h in
    (record { buf = buf; stream = [] }, ground arith, h', refl, tt)
fill_enough size (bytes [] ∷ stream) buf all h = absurd all
fill_enough size (failure ∷ stream) buf all h = absurd all
fill_enough size (bytes (b ∷ bs) ∷ stream) buf all h = elim (Bool-cases (leb size (length buf))) [
  | inl enough ↦
      (record { buf = buf; stream = bytes (b ∷ bs) ∷ stream }, rw enough, ground arith, refl, all)
  | inr less ↦
      let same : (buf ++ b ∷ bs) ++ flatten stream ≡ buf ++ ((b ∷ bs) ++ flatten stream) =
        append_assoc buf (b ∷ bs) (flatten stream) in
      let (c, e, long, a, rest) = fill_enough size stream (buf ++ b ∷ bs) all (rw same h) in
      (c, rw (less, e), long, a ∙ same, rest)
]

-- What bincode documents of a message: it is read back from what is written of it, whatever bytes
-- stand behind.
abbrev pub Decodes : Codec → Message → Type 0
Decodes codec msg =
    (rest : List ℕ) → Codec.deserialize codec (Codec.serialize codec msg ++ rest) ≡ some msg

module _ (codec : Codec) where
  decode_lem :
      (msg : Message) (mid : List ℕ) (c : Connection)
      → Decodes codec msg
      → c.buf ≡ Codec.serialize codec msg ++ mid
      → decode codec (length (Codec.serialize codec msg)) c ≡ message msg (record c { buf = mid })
  unfolding decode
  decode_lem msg mid c decodes e =
      rw (e, decodes mid, decode)
        (ap (λ b. message msg (record c { buf = b }))
          (ap (drop (length (Codec.serialize codec msg))) e
            ∙ drop-append (Codec.serialize codec msg) mid))

  read_body_filled :
      (size : ℕ) (buf : List ℕ) (stream : List Read) (c : Connection)
      → fill size buf stream ≡ filled c
      → read_body codec size buf stream ≡ decode codec size c
  unfolding read_body
  read_body_filled size buf stream c e = rw (e, read_body)

  -- The body, once the header is read.
  read_body_lem :
      (msg : Message) (buf rest : List ℕ) (stream : List Read)
      → Decodes codec msg
      → AllBytes stream
      → buf ++ flatten stream ≡ Codec.serialize codec msg ++ rest
      → (c : Connection) × (read_body codec (length (Codec.serialize codec msg)) buf stream
          ≡ message msg c)
        × (ahead c ≡ rest)
        × AllBytes c.stream
  read_body_lem msg buf rest stream decodes all e =
      let content = Codec.serialize codec msg in
      let size : length content ≤ length (buf ++ flatten stream) =
        rw e (omega (arith, length-append content rest)) in
      let (c, got, long, same, more) = fill_enough (length content) stream buf all size in
      let (mid, cut, left) = append_split c.buf (flatten c.stream) content rest (same ∙ e) long in
      (
        record { buf = mid; stream = c.stream },
        read_body_filled (length content) buf stream c got ∙ decode_lem msg mid c decodes cut,
        left,
        more,
      )

  read_message_filled :
      (conn : Connection) (a b c d : ℕ) (buf : List ℕ) (stream : List Read)
      → fill 4 conn.buf conn.stream ≡ filled (record { buf = a ∷ b ∷ c ∷ d ∷ buf; stream = stream })
      → read_message codec conn ≡ read_body codec (as_usize a b c d) buf stream
  unfolding read_message
  read_message_filled conn a b c d buf stream e = rw (e, read_message)

  -- The header of a short message, in front of what follows.
  written :
      (msg : Message)
      → length (Codec.serialize codec msg) < 2 ^ 31
      → (a b c d : ℕ) × (write_message codec msg ≡ a ∷ b ∷ c ∷ d ∷ Codec.serialize codec msg)
        × (as_usize a b c d ≡ length (Codec.serialize codec msg))
  unfolding write_message write_u32
  written msg small =
      let n : ℕ = length (Codec.serialize codec msg) % 2 ^ 32 in
      (
        n / 2 ^ 24 % 256,
        n / 2 ^ 16 % 256,
        n / 2 ^ 8 % 256,
        n % 256,
        refl,
        header_lem n (omega arith) ∙ omega arith,
      )

  four :
      (buf ys zs : List ℕ) (a b c d : ℕ)
      → 4 ≤ length buf
      → buf ++ ys ≡ a ∷ b ∷ c ∷ d ∷ zs
      → (tail : List ℕ) × (buf ≡ a ∷ b ∷ c ∷ d ∷ tail) × (tail ++ ys ≡ zs)
  four buf ys zs a b c d h e = append_split buf ys (a ∷ b ∷ c ∷ d ∷ []) zs e h

  -- A message that was written, whatever follows it, is read, and what follows is still ahead.
  pub read-write :
      (msg : Message) (rest : List ℕ) (conn : Connection)
      → Decodes codec msg
      → length (Codec.serialize codec msg) < 2 ^ 31
      → AllBytes conn.stream
      → ahead conn ≡ write_message codec msg ++ rest
      → (c : Connection) × (read_message codec conn ≡ message msg c)
        × (ahead c ≡ rest)
        × AllBytes c.stream
  read-write msg rest conn decodes small all e =
      let (a, b, c, d, w, size) = written msg small in
      let e' : ahead conn ≡ a ∷ b ∷ c ∷ d ∷ (Codec.serialize codec msg ++ rest) =
        e ∙ ap (λ h. h ++ rest) w in
      let (f, got, long, same, more) =
        fill_enough 4 conn.stream conn.buf all (rw e' (omega arith)) in
      let (buf, cut, left) =
        four f.buf (flatten f.stream) (Codec.serialize codec msg ++ rest) a b c d long
          (same ∙ e') in
      let (end, body, after, still) = read_body_lem msg buf rest f.stream decodes more left in
      let at : fill 4 conn.buf conn.stream
          ≡ filled (record { buf = a ∷ b ∷ c ∷ d ∷ buf; stream = f.stream }) =
        got ∙ ap (λ xs. filled (record { buf = xs; stream = f.stream })) cut in
      (
        end,
        read_message_filled conn a b c d buf f.stream at
            ∙ ap (λ n. read_body codec n buf f.stream) size
            ∙ body,
        after,
        still,
      )

  -- All messages up to the end of the stream, with the way it ends; `rounds` bounds their number.
  abbrev pub read_all : ℕ → Connection → List Message × Received
  read_all zero conn = ([], reset)
  read_all (suc rounds) conn = elim (read_message codec conn) [
    | message msg c ↦ (msg ∷ (read_all rounds c).0, (read_all rounds c).1)
    | closed ↦ ([], closed)
    | reset ↦ ([], reset)
    | io_error ↦ ([], io_error)
    | undecodable ↦ ([], undecodable)
  ]

  abbrev pub write_all : List Message → List ℕ
  write_all [] = []
  write_all (msg ∷ msgs) = write_message codec msg ++ write_all msgs

  abbrev pub AllSendable : List Message → Type 0
  AllSendable [] = Unit
  AllSendable (msg ∷ msgs) =
      (length (Codec.serialize codec msg) < 2 ^ 31) × Decodes codec msg × AllSendable msgs

  nothing_ahead :
      (conn : Connection) (stream : List Read) (buf : List ℕ)
      → conn.stream ≡ stream
      → conn.buf ≡ buf
      → AllBytes stream
      → buf ++ flatten stream ≡ []
      → read_message codec conn ≡ closed
  unfolding read_message
  nothing_ahead conn [] [] s b all e = rw (b, s)
  nothing_ahead conn (bytes [] ∷ stream) buf s b all e = absurd all
  nothing_ahead conn (bytes (x ∷ xs) ∷ stream) [] s b all e = cc
  nothing_ahead conn (failure ∷ stream) buf s b all e = absurd all
  nothing_ahead conn stream (x ∷ xs) s b all e = cc

  -- Messages of less than 2^31 bytes, each read back by bincode from what it writes, that are written one behind the other are read as they were
  -- written, and then the end of the stream, in whatever pieces the bytes arrive.
  pub read_all-write_all :
      (msgs : List Message) (conn : Connection)
      → AllSendable msgs
      → AllBytes conn.stream
      → ahead conn ≡ write_all msgs
      → read_all (suc (length msgs)) conn ≡ (msgs, closed)
  read_all-write_all [] conn short all e =
      rw (nothing_ahead conn conn.stream conn.buf refl refl all e, read_all)
  read_all-write_all (msg ∷ msgs) conn (small, decodes, short) all e =
      let (c, got, left, more) = read-write msg (write_all msgs) conn decodes small all e in
      rw (got, read_all) (rw (read_all-write_all msgs c short more left))
