-- ===== src/Tests/Frames.antt =====
-- Two frames on a stream at concrete inputs, with a protobuf that knows one envelope.
use advanced_distributed_sys.Base.{
  ℕ, ◌+◌, ◌<◌, ◌≡◌, refl, Bool, ◌&&◌, List, [], ◌∷◌, ◌++◌, some, ok, raise, Error, decode_error,
  length, ◌==◌, if◌then◌else◌, arith, ==_iff,
}
use advanced_distributed_sys.Order.{same, list_ord, nat_ord}
use advanced_distributed_sys.Sorted.Laws.{same-eq}
use advanced_distributed_sys.Protocol.Message.{Bytes, Message, request}
use advanced_distributed_sys.Protocol.Envelope.{
  Wire, EnvelopeFields, Parses, decode_envelope, encode_envelope, envelope_fields,
}
use advanced_distributed_sys.Protocol.Framing.{
  Outcome, feed, feed_loop, encode_frame, read_message, header_size, pack, unpack, validate_header,
  front, split_exact, header_front, valid_front, one_round,
}
use advanced_distributed_sys.Protocol.Message.{type_code}
use advanced_distributed_sys.Protocol.Framing.Chunks.{
  answer, concat, feed_all, feed_ends, feed_bound, answer-feed_all,
}
use advanced_distributed_sys.Protocol.Framing.RoundTrip.{
  encode_stream, feed_all-encode_stream, read_message-encode_frame,
}

abbrev hello : EnvelopeFields
hello = record {
  sender_id = 97 ∷ [];
  correlation_id = 49 ∷ [];
  timestamp_ms = 5;
  ttl = 8;
  payload = 1 ∷ 2 ∷ [];
  traceparent = [];
  tracestate = [];
}

abbrev is_hello : EnvelopeFields → Bool
is_hello f =
    same f.sender_id hello.sender_id
    && same f.correlation_id hello.correlation_id
    && (f.timestamp_ms == hello.timestamp_ms)
    && (f.ttl == hello.ttl)
    && same f.payload hello.payload
    && same f.traceparent hello.traceparent
    && same f.tracestate hello.tracestate

abbrev wire : Wire EnvelopeFields
wire = record {
  serialize = λ f. if is_hello f then ok (7 ∷ 9 ∷ []) else raise decode_error;
  parse = λ b. some hello;
}

wire-Parses : Parses wire
wire-Parses f b h = ground (
  arith,
  same-eq f.sender_id hello.sender_id,
  same-eq f.correlation_id hello.correlation_id,
  same-eq f.payload hello.payload,
  same-eq f.traceparent hello.traceparent,
  same-eq f.tracestate hello.tracestate,
  ==_iff f.timestamp_ms 5,
  ==_iff f.ttl 8,
)

abbrev greeting : Message
greeting = record {
  msg_type = request;
  sender_id = 97 ∷ [];
  correlation_id = 49 ∷ [];
  timestamp_ms = 5;
  ttl = 8;
  payload = 1 ∷ 2 ∷ [];
  traceparent = [];
  tracestate = [];
}

abbrev frame : Bytes
frame = 68 ∷ 83 ∷ 1 ∷ 1 ∷ 0 ∷ 0 ∷ 0 ∷ 2 ∷ 7 ∷ 9 ∷ []

-- two frames in three pieces, one of which ends in a header and one in a body
abbrev pieces : List Bytes
pieces =
    (68 ∷ 83 ∷ 1 ∷ [])
    ∷ (1 ∷ 0 ∷ 0 ∷ 0 ∷ 2 ∷ 7 ∷ 9 ∷ 68 ∷ 83 ∷ 1 ∷ 1 ∷ 0 ∷ 0 ∷ 0 ∷ 2 ∷ 7 ∷ [])
    ∷ (9 ∷ [])
    ∷ []

frame_written : encode_frame 16 wire greeting ≡ ok frame
unfolding encode_frame encode_envelope envelope_fields pack type_code list_ord nat_ord
frame_written = refl

bad_magic :
    answer (feed 16 (decode_envelope wire) [] (69 ∷ 83 ∷ 1 ∷ 1 ∷ 0 ∷ 0 ∷ 0 ∷ 2 ∷ []))
    ≡ some (raise Error.invalid_magic)
unfolding feed feed_loop front split_exact unpack validate_header header_front valid_front one_round
bad_magic = refl

feed_all-encode_stream_example :
    answer (feed_all 16 (decode_envelope wire) [] pieces) ≡ some (ok ([], greeting ∷ greeting ∷ []))
unfolding encode_stream encode_frame encode_envelope envelope_fields pack type_code list_ord nat_ord
feed_all-encode_stream_example =
    feed_all-encode_stream 16 wire wire-Parses (greeting ∷ greeting ∷ []) pieces
      (record { sent = refl; correlated = refl }, (record { sent = refl; correlated = refl }, tt))
      refl

read_message-encode_frame_example :
    read_message 16 (decode_envelope wire) (frame ++ (1 ∷ [])) ≡ ok (greeting, 1 ∷ [])
read_message-encode_frame_example =
    read_message-encode_frame 16 wire wire-Parses greeting frame (1 ∷ [])
      (record { sent = refl; correlated = refl }) frame_written

answer-feed_all_example :
    answer (feed_all 16 (decode_envelope wire) [] pieces)
    ≡ answer (feed 16 (decode_envelope wire) [] (concat pieces))
unfolding front split_exact
answer-feed_all_example = answer-feed_all 16 (decode_envelope wire) pieces [] refl

feed_ends_example :
    (o : Outcome) × (feed 16 (decode_envelope wire) (68 ∷ []) (83 ∷ 1 ∷ []) ≡ some o)
    × (feed_loop 16 (decode_envelope wire) 4 ((68 ∷ []) ++ (83 ∷ 1 ∷ [])) ≡ some o)
feed_ends_example = feed_ends 16 (decode_envelope wire) (68 ∷ []) (83 ∷ 1 ∷ []) 4 (omega arith)

feed_bound_example : length {A = ℕ} (68 ∷ 83 ∷ 1 ∷ []) < header_size + 16
unfolding feed feed_loop front split_exact one_round
feed_bound_example =
    feed_bound 16 (decode_envelope wire) (68 ∷ []) (83 ∷ 1 ∷ []) (68 ∷ 83 ∷ 1 ∷ []) [] refl
