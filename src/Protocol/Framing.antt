-- ===== src/Protocol/Framing.antt =====
-- protocol/framing.py: frames of an 8-byte header and a body, and the decoder that takes the bytes of a
-- stream in any pieces. The decoding of a body is an argument.
pub mod Rounds
pub mod Loop
pub mod Chunks
pub mod RoundTrip
use advanced_distributed_sys.Base.{
  ℕ, zero, suc, ◌+◌, ◌*◌, ◌/◌, ◌%◌, ◌^◌, ◌<◌, ◌≤◌, ◌≡◌, Bool, true, false, not, ◌&&◌, ◌||◌, List,
  [], ◌∷◌, ◌++◌, Option, none, some, Result, ok, raise, invalid_magic, unsupported_version,
  invalid_message_type, invalid_frame_length, frame_too_large, struct_error, incomplete_read_error,
  Error, ltb, ◌==◌, if◌then◌else◌, ◌>>=◌, ◌>>◌, raise_if, length,
}
use advanced_distributed_sys.Protocol.Message.{Bytes, Message, MessageType, type_code, type_of_code}
use advanced_distributed_sys.Protocol.Envelope.{Wire, EnvelopeFields, is_empty, encode_envelope}

-- `MAGIC = b"DS"`
abbrev pub magic_0 : ℕ
magic_0 = 68

abbrev pub magic_1 : ℕ
magic_1 = 83

abbrev pub protocol_version : ℕ
protocol_version = 1

abbrev pub header_size : ℕ
header_size = 8

-- the unpacked header, the two bytes of the magic apart
pub record Header : Type 0 where
  pub magic : ℕ × ℕ
  pub version : ℕ
  pub raw_type : ℕ
  pub body_length : ℕ

-- `HEADER_STRUCT.pack` of "!2sBBI": the length in four bytes, the highest first
unfoldable pub pack : Header → Bytes
pack h =
    h.magic.0
    ∷ h.magic.1
    ∷ h.version
    ∷ h.raw_type
    ∷ h.body_length / 2 ^ 24
    ∷ h.body_length / 2 ^ 16 % 2 ^ 8
    ∷ h.body_length / 2 ^ 8 % 2 ^ 8
    ∷ h.body_length % 2 ^ 8
    ∷ []

-- `HEADER_STRUCT.unpack`, which raises unless it has exactly the header's bytes
unfoldable pub unpack : Bytes → Result Header
unpack (m ∷ n ∷ v ∷ t ∷ a ∷ b ∷ c ∷ d ∷ []) = ok (record {
  magic = (m, n);
  version = v;
  raw_type = t;
  body_length = a * 2 ^ 24 + b * 2 ^ 16 + c * 2 ^ 8 + d;
})
unpack _ = raise struct_error

abbrev pub known_type : Option MessageType → Result MessageType
known_type none = raise invalid_message_type
known_type (some t) = ok t

unfoldable pub validate_header : ℕ → Header → Result MessageType
validate_header max_frame_size h = do
  raise_if (not ((h.magic.0 == magic_0) && (h.magic.1 == magic_1))) invalid_magic
  raise_if (not (h.version == protocol_version)) unsupported_version
  t ← known_type (type_of_code h.raw_type)
  raise_if (h.body_length == 0) invalid_frame_length
  raise_if (ltb max_frame_size h.body_length) frame_too_large
  ok t

abbrev pub frame_header : Message → Bytes → Header
frame_header m body = record {
  magic = (magic_0, magic_1);
  version = protocol_version;
  raw_type = type_code m.msg_type;
  body_length = length body;
}

unfoldable pub encode_frame : ℕ → Wire EnvelopeFields → Message → Result Bytes
unfolding encode_envelope pack
encode_frame max_frame_size wire m = do
  body ← encode_envelope wire m
  raise_if (is_empty body) invalid_frame_length
  raise_if (ltb max_frame_size (length body)) frame_too_large
  raise_if (not (ltb (length body) (2 ^ 32))) struct_error
  ok (pack (frame_header m body) ++ body)

-- The first `n` bytes and those behind them, `none` if there are fewer.
unfoldable pub split_exact : ℕ → Bytes → Option (Bytes × Bytes)
split_exact zero bs = some ([], bs)
split_exact (suc n) [] = none
split_exact (suc n) (b ∷ bs) = elim (split_exact n bs) [
  | none ↦ none
  | some (front, rest) ↦ some (b ∷ front, rest)
]

-- `readexactly`, on the bytes that the stream has until it ends
unfoldable pub read_exactly : ℕ → Bytes → Result (Bytes × Bytes)
unfolding split_exact
read_exactly n stream = elim (split_exact n stream) [
  | none ↦ raise incomplete_read_error
  | some x ↦ ok x
]

-- What one round of the loop finds at the front of the buffer: not a whole frame, a header that
-- raises, or a type and a body with the buffer behind them.
pub data Front : Type 0 where
  partial : Front
  invalid : Error → Front
  framed : MessageType → Bytes → Bytes → Front

-- a frame behind a valid header
unfoldable pub body_front : MessageType → ℕ → Bytes → Front
unfolding split_exact
body_front t n after_header = elim (split_exact n after_header) [
  | none ↦ partial
  | some (body, rest) ↦ framed t body rest
]

unfoldable pub valid_front : Result MessageType → ℕ → Bytes → Front
unfolding body_front
valid_front (raise e) n after_header = invalid e
valid_front (ok t) n after_header = body_front t n after_header

unfoldable pub header_front : ℕ → Result Header → Bytes → Front
unfolding validate_header valid_front
header_front max_frame_size (raise e) after_header = invalid e
header_front max_frame_size (ok h) after_header =
    valid_front (validate_header max_frame_size h) h.body_length after_header

unfoldable pub front : ℕ → Bytes → Front
unfolding split_exact unpack header_front
front max_frame_size buffer = elim (split_exact header_size buffer) [
  | none ↦ partial
  | some (header, after_header) ↦ header_front max_frame_size (unpack header) after_header
]

-- The messages found before the loop ends, or the exception that it ends by; with the buffer that
-- it leaves.
abbrev pub Outcome : Type 0
Outcome = Bytes × Result (List Message)

-- a message in front of those that the later rounds find
unfoldable pub prepend : Message → Outcome → Outcome
prepend m (buffer, ok ms) = (buffer, ok (m ∷ ms))
prepend m (buffer, raise e) = (buffer, raise e)

-- `messages.append(decode_envelope(...))`, whose frame has left the buffer already
unfoldable pub decoded : Result Message → Bytes → Option Outcome → Option Outcome
unfolding prepend
decoded (raise e) rest later = some (rest, raise e)
decoded (ok m) rest none = none
decoded (ok m) rest (some outcome) = some (prepend m outcome)

module _ (max_frame_size : ℕ) (decode : MessageType → Bytes → Result Message) where
  -- the message and the bytes that stay in the stream
  unfoldable pub read_message : Bytes → Result (Message × Bytes)
  unfolding read_exactly unpack validate_header
  read_message stream = do
    (header, after_header) ← read_exactly header_size stream
    h ← unpack header
    t ← validate_header max_frame_size h
    (body, rest) ← read_exactly h.body_length after_header
    m ← decode t body
    ok (m, rest)

  -- one round, with what the later ones make of a buffer
  unfoldable pub one_round : Front → Bytes → (Bytes → Option Outcome) → Option Outcome
  unfolding decoded
  one_round partial buffer later = some (buffer, ok [])
  one_round (invalid e) buffer later = some (buffer, raise e)
  one_round (framed t body rest) buffer later = decoded (decode t body) rest (later rest)

  -- the rounds of the loop, `none` where they are not enough for it to end
  unfoldable pub feed_loop : ℕ → Bytes → Option Outcome
  unfolding front one_round
  feed_loop zero buffer = none
  feed_loop (suc rounds) buffer =
      one_round (front max_frame_size buffer) buffer (λ rest. feed_loop rounds rest)

  -- Each round takes nine bytes at least, so a round for each byte and one more are enough.
  unfoldable pub feed : Bytes → Bytes → Option Outcome
  unfolding feed_loop
  feed buffer received = feed_loop (suc (length (buffer ++ received))) (buffer ++ received)
