-- ===== src/Peer/Extended.antt =====
-- src/demagnetize/peer/messages.py: `ExtendedHandshake` and `Bep9Message`, and the `get_typed_value`
-- of src/demagnetize/util.py.
use demagnetize.Prelude.{
  ℕ, Bool, true, false, Option, none, some, ◌++◌, Bytes, codes, is_empty, not, if◌then◌else◌,
}
use demagnetize.Prelude.Int.{ℤ, pos, eq_ℤ}
use demagnetize.Prelude.Dict.{lookup}
use demagnetize.Errors.{
  Result, ok, err, ◌>>=◌, ◌>>◌, guard, unbencode_error, value_error, key_error, attribute_error,
}
use demagnetize.Bencode.Value.{Value, Fields, bytes, int, dict, end, field, get, set}
use demagnetize.Bencode.Encode.{bencode}
use demagnetize.Bencode.Decode.{unbencode, partial_unbencode}
use demagnetize.Peer.Extensions.{metadata, eq_extension, Bep10Registry, from_m, to_m}
use demagnetize.Peer.Message.{Message, extended}

-- `except UnbencodeError as e: raise ValueError(…)`
unfoldable pub catch_unbencode {ℓ} : {A : Type ℓ} → Result A → Result A
catch_unbencode (err (unbencode_error m)) = err value_error
catch_unbencode r = r

-- `if not isinstance(data, dict): raise ValueError(…)`
unfoldable pub as_dict : Value → Result Fields
as_dict (dict d) = ok d
as_dict _ = err value_error

abbrev pub int_of : Option Value → Option ℤ
int_of (some (int i)) = some i
int_of _ = none

abbrev pub bytes_of : Option Value → Option Bytes
bytes_of (some (bytes b)) = some b
bytes_of _ = none

-- get_typed_value(data, key, int)
unfoldable pub get_int : Fields → Bytes → Option ℤ
get_int d key = int_of (get d key)

-- get_typed_value(data, key, bytes)
unfoldable pub get_bytes : Fields → Bytes → Option Bytes
get_bytes d key = bytes_of (get d key)

abbrev pub is_dict : Option Value → Bool
is_dict (some (dict d)) = true
is_dict _ = false

pub record ExtendedHandshake : Type 0 where
  pub contents : Fields

-- `if client is not None: data[b"v"] = …`, and so for an integer.
set_bytes : Bytes → Option Bytes → Fields → Fields
set_bytes key none d = d
set_bytes key (some b) d = set d key (bytes b)

set_int : Bytes → Option ℤ → Fields → Fields
set_int key none d = d
set_int key (some n) d = set d key (int n)

-- ExtendedHandshake.make; `client` is encoded already.
unfoldable pub make : Bep10Registry → Option Bytes → Option ℤ → ExtendedHandshake
unfolding set_bytes set_int
make extensions client metadata_size = record {
  contents =
      set_int (codes "metadata_size") metadata_size
        (set_bytes (codes "v") client (field (codes "m") (dict (to_m extensions)) end));
}

-- ExtendedHandshake.from_extended_payload
unfoldable pub parse_handshake : ℕ → Bytes → Result ExtendedHandshake
parse_handshake depth payload = do
  v ← catch_unbencode (unbencode depth payload)
  d ← as_dict v
  guard (is_dict (get d (codes "m"))) value_error
  ok (record { contents = d })

-- ExtendedHandshake.to_extended_payload, to_extended
unfoldable pub handshake_to_extended : ExtendedHandshake → Message
handshake_to_extended h = extended (pos 0) (bencode (dict h.contents))

unfoldable pub registry_of : Option Value → Result Bep10Registry
registry_of (some (dict m)) = from_m m
registry_of (some _) = err attribute_error
registry_of none = err key_error

-- ExtendedHandshake.extensions
unfoldable pub extensions : ExtendedHandshake → Result Bep10Registry
extensions h = registry_of (get h.contents (codes "m"))

-- ExtendedHandshake.metadata_size
unfoldable pub metadata_size : ExtendedHandshake → Option ℤ
unfolding get_int
metadata_size h = get_int h.contents (codes "metadata_size")

pub record Bep9Message : Type 0 where
  pub msg_type : ℤ
  pub piece : ℤ
  pub total_size : Option ℤ
  pub payload : Bytes

-- `if not isinstance(value := data.get(key), int): raise ValueError(…)`
unfoldable pub require_int : Option Value → Result ℤ
require_int (some (int i)) = ok i
require_int _ = err value_error

-- The same for a key that may be missing.
unfoldable pub optional_int : Option Value → Result (Option ℤ)
optional_int none = ok none
optional_int (some (int i)) = ok (some i)
optional_int (some _) = err value_error

-- The members of `BEP9MsgType`.
abbrev pub msg_request : ℤ
msg_request = pos 0

abbrev pub msg_data : ℤ
msg_data = pos 1

abbrev pub msg_reject : ℤ
msg_reject = pos 2

-- A data message has bytes behind its dict, a request or a rejection has none; of other types
-- nothing is asked.
unfoldable pub is_trailing_valid : ℤ → Bytes → Bool
is_trailing_valid msg_type trailing =
    if eq_ℤ msg_type msg_data
    then not (is_empty trailing)
    else if eq_ℤ msg_type msg_request
    then is_empty trailing
    else if eq_ℤ msg_type msg_reject
    then is_empty trailing
    else true

-- Bep9Message.from_extended_payload
unfoldable pub parse_bep9 : ℕ → Bytes → Result Bep9Message
parse_bep9 depth payload = do
  (v, trailing) ← catch_unbencode (partial_unbencode depth payload)
  d ← as_dict v
  msg_type ← require_int (get d (codes "msg_type"))
  piece ← require_int (get d (codes "piece"))
  total_size ← optional_int (get d (codes "total_size"))
  guard (is_trailing_valid msg_type trailing) value_error
  ok (record { msg_type = msg_type; piece = piece; total_size = total_size; payload = trailing })

-- The dict of a `Bep9Message`.
unfoldable pub bep9_fields : Bep9Message → Fields
unfolding set_int
bep9_fields m =
    set_int (codes "total_size") m.total_size
      (field (codes "msg_type") (int m.msg_type) (field (codes "piece") (int m.piece) end))

-- Bep9Message.to_extended_payload
unfoldable pub bep9_payload : Bep9Message → Bytes
bep9_payload m = bencode (dict (bep9_fields m)) ++ m.payload

unfoldable pub code_of : Option ℤ → Result ℤ
code_of none = err key_error
code_of (some code) = ok code

-- ExtendedMessage.to_extended
unfoldable pub bep9_to_extended : Bep9Message → Bep10Registry → Result Message
unfolding code_of
bep9_to_extended m r = do
  msg_id ← code_of (lookup eq_extension metadata r.to_code)
  ok (extended msg_id (bep9_payload m))
