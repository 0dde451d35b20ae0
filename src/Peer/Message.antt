-- ===== src/Peer/Message.antt =====
-- src/demagnetize/peer/messages.py: `Message`, its subclasses, and their form on the wire.
pub mod RoundTrip
pub mod Parsed
pub mod Raises
use demagnetize.Prelude.{
  ℕ, ◌+◌, ◌*◌, ◌≡◌, refl, Bool, true, false, List, [], ◌∷◌, ◌++◌, Bytes, length, take, drop, leb,
  ◌==◌, if◌then◌else◌,
}
use demagnetize.Prelude.Int.{ℤ, pos}
use demagnetize.Prelude.BigEndian.{from_bytes}
use demagnetize.Errors.{
  Error, Result, ok, err, ◌>>=◌, ◌>>◌, guard, value_error, index_error, struct_error,
}
use demagnetize.Struct.{to_bytes, pack_uint32, byte}

-- One constructor for each class with a `TYPE`, its fields in their order. The numbers are those that
-- the program reads from unsigned bytes; `msg_id` also comes from a peer's dict, and may be negative.
pub data Message : Type 0 where
  choke unchoke interested not_interested have_all have_none : Message
  have : ℕ → Message
  bitfield : Bytes → Message
  request : ℕ → ℕ → ℕ → Message
  piece : ℕ → ℕ → Bytes → Message
  cancel : ℕ → ℕ → ℕ → Message
  port : ℕ → Message
  reject : ℕ → ℕ → ℕ → Message
  allowed_fast : ℕ → Message
  suggest : ℕ → Message
  extended : ℤ → Bytes → Message

-- TYPE
unfoldable pub type_of : Message → ℕ
type_of choke = 0
type_of unchoke = 1
type_of interested = 2
type_of not_interested = 3
type_of have_all = 0x0E
type_of have_none = 0x0F
type_of (have _) = 4
type_of (bitfield _) = 5
type_of (request _ _ _) = 6
type_of (piece _ _ _) = 7
type_of (cancel _ _ _) = 8
type_of (port _) = 9
type_of (reject _ _ _) = 0x10
type_of (allowed_fast _) = 0x11
type_of (suggest _) = 0x0D
type_of (extended _ _) = 20

-- `isinstance(msg, EmptyMessage)`
unfoldable pub is_empty_message : Message → Bool
is_empty_message choke = true
is_empty_message unchoke = true
is_empty_message interested = true
is_empty_message not_interested = true
is_empty_message have_all = true
is_empty_message have_none = true
is_empty_message _ = false

-- struct.pack("!II", a, b)
unfoldable pub pack2 : ℕ → ℕ → Result Bytes
pack2 a b = do x ← pack_uint32 a; y ← pack_uint32 b; ok (x ++ y)

-- struct.pack("!III", a, b, c)
unfoldable pub pack3 : ℕ → ℕ → ℕ → Result Bytes
pack3 a b c = do x ← pack_uint32 a; y ← pack_uint32 b; z ← pack_uint32 c; ok (x ++ (y ++ z))

-- to_payload
unfoldable pub to_payload : Message → Result Bytes
to_payload (have index) = to_bytes 4 index
to_payload (bitfield payload) = ok payload
to_payload (request index begin len) = pack3 index begin len
to_payload (piece index begin block) = do head ← pack2 index begin; ok (head ++ block)
to_payload (cancel index begin len) = pack3 index begin len
to_payload (port p) = to_bytes 2 p
to_payload (reject index begin len) = pack3 index begin len
to_payload (allowed_fast index) = to_bytes 4 index
to_payload (suggest index) = to_bytes 4 index
to_payload (extended msg_id payload) = do id ← byte msg_id; ok (id ++ payload)
to_payload _ = ok []

-- __bytes__
unfoldable pub message_bytes : Message → Result Bytes
message_bytes m = do
  payload ← to_payload m
  len ← to_bytes 4 (1 + length payload)
  ok (len ++ type_of m ∷ payload)

-- The number at an offset of a payload: a field of `struct.unpack`.
abbrev pub uint32_at : ℕ → Bytes → ℕ
uint32_at offset payload = from_bytes (take 4 (drop offset payload))

-- from_payload of the classes whose payload has a fixed length
unfoldable pub of_length : ℕ → Bytes → Message → Result Message
of_length n payload m = if length payload == n then ok m else err value_error

abbrev Parser : Type 0
Parser = Bytes → Result Message

-- A class with one index for its payload.
index_from_payload : (ℕ → Message) → Parser
index_from_payload klass payload = of_length 4 payload (klass (from_bytes payload))

-- A class with an index, an offset and a length for its payload.
block_from_payload : (ℕ → ℕ → ℕ → Message) → Parser
block_from_payload klass payload =
    of_length 12 payload (klass (uint32_at 0 payload) (uint32_at 4 payload) (uint32_at 8 payload))

unfoldable pub have_from_payload : Parser
unfolding index_from_payload
have_from_payload payload = index_from_payload have payload

unfoldable pub allowed_fast_from_payload : Parser
unfolding index_from_payload
allowed_fast_from_payload payload = index_from_payload allowed_fast payload

unfoldable pub suggest_from_payload : Parser
unfolding index_from_payload
suggest_from_payload payload = index_from_payload suggest payload

unfoldable pub request_from_payload : Parser
unfolding block_from_payload
request_from_payload payload = block_from_payload request payload

unfoldable pub cancel_from_payload : Parser
unfolding block_from_payload
cancel_from_payload payload = block_from_payload cancel payload

unfoldable pub reject_from_payload : Parser
unfolding block_from_payload
reject_from_payload payload = block_from_payload reject payload

unfoldable pub port_from_payload : Parser
port_from_payload payload = of_length 2 payload (port (from_bytes payload))

unfoldable pub piece_from_payload : Parser
piece_from_payload payload =
    if leb 8 (length payload)
    then ok (piece (uint32_at 0 payload) (uint32_at 4 payload) (drop 8 payload))
    else err value_error

unfoldable pub extended_from_payload : Parser
extended_from_payload [] = err value_error
extended_from_payload (b ∷ payload) = ok (extended (pos b) payload)

-- The classes in the order in which `Message.parse` comes to them: the direct subclasses with a `TYPE`,
-- then those of `EmptyMessage`.
unfoldable pub klasses : List (ℕ × (Bytes → Result Message))
unfolding have_from_payload allowed_fast_from_payload suggest_from_payload request_from_payload
    cancel_from_payload reject_from_payload
klasses =
    (4, have_from_payload)
    ∷ (5, λ payload. ok (bitfield payload))
    ∷ (6, request_from_payload)
    ∷ (7, piece_from_payload)
    ∷ (8, cancel_from_payload)
    ∷ (9, port_from_payload)
    ∷ (0x10, reject_from_payload)
    ∷ (0x11, allowed_fast_from_payload)
    ∷ (0x0D, suggest_from_payload)
    ∷ (20, extended_from_payload)
    ∷ (0, λ _. ok choke)
    ∷ (1, λ _. ok unchoke)
    ∷ (2, λ _. ok interested)
    ∷ (3, λ _. ok not_interested)
    ∷ (0x0E, λ _. ok have_all)
    ∷ (0x0F, λ _. ok have_none)
    ∷ []

-- The loop of `parse`.
unfoldable pub from_klass : List (ℕ × (Bytes → Result Message)) → ℕ → Bytes → Result Message
from_klass [] mtype payload = err value_error
from_klass ((code, from_payload) ∷ rest) mtype payload =
    if code == mtype then from_payload payload else from_klass rest mtype payload

-- `mtype = blob[4]; payload = blob[5:]`, dispatched
unfoldable pub parse_body : Bytes → Result Message
parse_body [] = err index_error
parse_body (mtype ∷ payload) = from_klass klasses mtype payload

-- Message.parse
unfoldable pub parse : Bytes → Result Message
parse blob = parse_body (drop 4 blob)
