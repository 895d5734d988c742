-- ===== src/Protocol/Message.antt =====
-- protocol/message.py: the messages. The clock and `uuid4` are arguments of what reads them.
use advanced_distributed_sys.Base.{
  ℕ, ◌≡◌, List, [], ◌∷◌, Option, none, some, arith, ◌==◌, if◌then◌else◌,
}
use advanced_distributed_sys.Order.{Str}

-- the bytes of a `bytes`
abbrev pub Bytes : Type 0
Bytes = List ℕ

pub data MessageType : Type 0 where
  request response error heartbeat join_request join_response ping ack ping_req : MessageType
  gossip forwarded_request crdt_mutate_request crdt_read_request crdt_replicate : MessageType
  crdt_fetch crdt_digest crdt_digest_response crdt_response : MessageType

-- `int(msg_type)`
unfoldable pub type_code : MessageType → ℕ
type_code request = 1
type_code response = 2
type_code error = 3
type_code heartbeat = 4
type_code join_request = 5
type_code join_response = 6
type_code ping = 7
type_code ack = 8
type_code ping_req = 9
type_code gossip = 10
type_code forwarded_request = 11
type_code crdt_mutate_request = 12
type_code crdt_read_request = 13
type_code crdt_replicate = 14
type_code crdt_fetch = 15
type_code crdt_digest = 16
type_code crdt_digest_response = 17
type_code crdt_response = 18

abbrev pub members : List MessageType
members =
    request ∷ response ∷ error ∷ heartbeat ∷ join_request ∷ join_response ∷ ping ∷ ack ∷ ping_req
    ∷ gossip ∷ forwarded_request ∷ crdt_mutate_request ∷ crdt_read_request ∷ crdt_replicate
    ∷ crdt_fetch ∷ crdt_digest ∷ crdt_digest_response ∷ crdt_response ∷ []

-- the member with a value
unfoldable pub member_of : ℕ → List MessageType → Option MessageType
unfolding type_code
member_of n [] = none
member_of n (t ∷ ts) = let rest = member_of n ts in if type_code t == n then some t else rest

-- `MessageType(raw_type)`, `none` where it raises
unfoldable pub type_of_code : ℕ → Option MessageType
unfolding member_of
type_of_code n = member_of n members

pub type_of_code-type_code : (t : MessageType) → type_of_code (type_code t) ≡ some t
unfolding type_of_code type_code member_of
type_of_code-type_code t = ground arith

pub record Message : Type 0 where
  pub msg_type : MessageType
  pub sender_id : Str
  pub correlation_id : Str
  pub timestamp_ms : ℕ
  pub ttl : ℕ
  pub payload : Bytes
  pub traceparent : Str
  pub tracestate : Str

-- `correlation_id or str(uuid.uuid4())`
unfoldable pub correlation_or : Option Str → Str → Str
correlation_or none fresh = fresh
correlation_or (some []) fresh = fresh
correlation_or (some (c ∷ cs)) fresh = c ∷ cs

unfoldable pub new_request :
    (now_ms : ℕ) (fresh : Str) (sender_id : Str) (payload : Bytes) (correlation_id : Option Str)
    (ttl : ℕ) (msg_type : MessageType) (traceparent tracestate : Str)
    → Message
unfolding correlation_or
new_request now_ms fresh sender_id payload correlation_id ttl msg_type traceparent tracestate =
    record {
      msg_type = msg_type;
      sender_id = sender_id;
      correlation_id = correlation_or correlation_id fresh;
      timestamp_ms = now_ms;
      ttl = ttl;
      payload = payload;
      traceparent = traceparent;
      tracestate = tracestate;
    }

unfoldable pub new_response :
    (now_ms : ℕ) (sender_id correlation_id : Str) (payload : Bytes) (msg_type : MessageType)
    (ttl : ℕ) (traceparent tracestate : Str)
    → Message
new_response now_ms sender_id correlation_id payload msg_type ttl traceparent tracestate = record {
  msg_type = msg_type;
  sender_id = sender_id;
  correlation_id = correlation_id;
  timestamp_ms = now_ms;
  ttl = ttl;
  payload = payload;
  traceparent = traceparent;
  tracestate = tracestate;
}
