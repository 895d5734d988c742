-- ===== src/Protocol/Envelope.antt =====
-- protocol/codec.py: envelopes and task requests. Protobuf and `json` are not this program's: what
-- they make of a message record and of a value are the parameters of the definitions here.
use advanced_distributed_sys.Base.{
  ℕ, ◌≡◌, refl, Bool, true, false, List, [], ◌∷◌, Option, none, some, Result, ok, raise,
  decode_error, if◌then◌else◌, ◌>>=◌, ◌>>◌, raise_if,
}
use advanced_distributed_sys.Order.{Str}
use advanced_distributed_sys.Protocol.Message.{Bytes, Message, MessageType}

-- the fields of the generated class, which this module fills and reads
pub record EnvelopeFields : Type 0 where
  pub sender_id : Str
  pub correlation_id : Str
  pub timestamp_ms : ℕ
  pub ttl : ℕ
  pub payload : Bytes
  pub traceparent : Str
  pub tracestate : Str

-- `SerializeToString` after the constructor, which raises on a field out of range, and
-- `ParseFromString`, `none` where it raises
pub record Wire (F : Type 0) : Type 0 where
  pub serialize : F → Result Bytes
  pub parse : Bytes → Option F

-- what is documented of both
abbrev pub Parses : {F : Type 0} → Wire F → Type 0
Parses {F} w = (fields : F) (b : Bytes) → w.serialize fields ≡ ok b → w.parse b ≡ some fields

abbrev pub is_empty : {A : Type 0} → List A → Bool
is_empty [] = true
is_empty (x ∷ xs) = false

-- the keywords of the constructor in `encode_envelope`
unfoldable pub envelope_fields : Message → EnvelopeFields
envelope_fields m = record {
  sender_id = m.sender_id;
  correlation_id = m.correlation_id;
  timestamp_ms = m.timestamp_ms;
  ttl = m.ttl;
  payload = m.payload;
  traceparent = m.traceparent;
  tracestate = m.tracestate;
}

unfoldable pub encode_envelope : Wire EnvelopeFields → Message → Result Bytes
unfolding envelope_fields
encode_envelope wire m = wire.serialize (envelope_fields m)

-- the guards and the message of `decode_envelope`
unfoldable pub message_of : MessageType → EnvelopeFields → Result Message
message_of t f = do
  raise_if (is_empty f.sender_id) decode_error
  raise_if (is_empty f.correlation_id) decode_error
  ok (record {
    msg_type = t;
    sender_id = f.sender_id;
    correlation_id = f.correlation_id;
    timestamp_ms = f.timestamp_ms;
    ttl = f.ttl;
    payload = f.payload;
    traceparent = f.traceparent;
    tracestate = f.tracestate;
  })

abbrev pub parsed : {F : Type 0} → Option F → Result F
parsed none = raise decode_error
parsed (some f) = ok f

unfoldable pub decode_envelope : Wire EnvelopeFields → MessageType → Bytes → Result Message
unfolding message_of
decode_envelope wire t body = parsed (wire.parse body) >>= message_of t

-- a message that `decode_envelope` accepts
pub record Addressed (m : Message) : Type 0 where
  pub sent : is_empty m.sender_id ≡ false
  pub correlated : is_empty m.correlation_id ≡ false

-- the envelope of an addressed message decodes to the message
pub decode_envelope-encode_envelope :
    (wire : Wire EnvelopeFields) (m : Message) (b : Bytes)
    → Parses wire
    → Addressed m
    → encode_envelope wire m ≡ ok b
    → decode_envelope wire m.msg_type b ≡ ok m
unfolding decode_envelope encode_envelope message_of envelope_fields
decode_envelope-encode_envelope wire m b p a h =
    rw (p (envelope_fields m) b h, a.sent, a.correlated) refl

pub record TaskRequestFields : Type 0 where
  pub task_name : Str
  pub payload_json : Bytes
  pub routing_key : Str

-- the fields of the response, with those of the error in it
pub record TaskResponseFields : Type 0 where
  pub success : Bool
  pub result_json : Bytes
  pub error_code : ℕ
  pub error_message : Str
  pub processing_time_us : ℕ

-- `json.dumps(...).encode("utf-8")` and `json.loads(data.decode("utf-8"))` on any values, `none` where
-- they raise; `null` is the value of Python's `None`
pub record Json (V : Type 0) : Type 0 where
  pub null : V
  pub dumps : V → Option Bytes
  pub loads : Bytes → Option V

-- What `dumps` makes is not empty and reads back as the value.
abbrev pub Reads : {V : Type 0} → Json V → Type 0
Reads {V} j = (v : V) (b : Bytes) → j.dumps v ≡ some b → (is_empty b ≡ false) × (j.loads b ≡ some v)

module _ {V : Type 0} (json : Json V) where
  unfoldable pub json_dump : V → Result Bytes
  json_dump v = parsed (json.dumps v)

  unfoldable pub json_load : Bytes → Result V
  json_load [] = ok json.null
  json_load (b ∷ bs) = parsed (json.loads (b ∷ bs))

  unfoldable pub encode_task_request : Wire TaskRequestFields → Str → V → Str → Result Bytes
  unfolding json_dump
  encode_task_request wire task_name payload routing_key = do
    raise_if (is_empty task_name) decode_error
    payload_json ← json_dump payload
    wire.serialize
        (record { task_name = task_name; payload_json = payload_json; routing_key = routing_key })

  -- the task's name, its payload and its routing key
  unfoldable pub decode_task_request : Wire TaskRequestFields → Bytes → Result (Str × V × Str)
  unfolding json_load
  decode_task_request wire body = do
    request ← parsed (wire.parse body)
    raise_if (is_empty request.task_name) decode_error
    payload ← json_load request.payload_json
    ok (request.task_name, payload, request.routing_key)

  -- `_json_dump(result) if success else b""`
  unfoldable pub result_json : Bool → V → Result Bytes
  unfolding json_dump
  result_json success result = if success then json_dump result else ok []

  -- the error is filled in for a failure only
  unfoldable pub encode_task_response :
      Wire TaskResponseFields → Bool → V → ℕ → Str → ℕ → Result Bytes
  unfolding result_json
  encode_task_response wire success result error_code error_message processing_time_us = do
    text ← result_json success result
    wire.serialize (record {
      success = success;
      result_json = text;
      error_code = if success then 0 else error_code;
      error_message = if success then [] else error_message;
      processing_time_us = processing_time_us;
    })

  pub record TaskResponseData : Type 0 where
    pub success : Bool
    pub result : V
    pub error_code : ℕ
    pub error_message : Str
    pub processing_time_us : ℕ

  unfoldable pub decode_task_response : Wire TaskResponseFields → Bytes → Result TaskResponseData
  unfolding json_load
  decode_task_response wire body = do
    response ← parsed (wire.parse body)
    result ← if response.success then json_load response.result_json else ok json.null
    ok (record {
      success = response.success;
      result = result;
      error_code = response.error_code;
      error_message = response.error_message;
      processing_time_us = response.processing_time_us;
    })
