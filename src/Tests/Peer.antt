-- ===== src/Tests/Peer.antt =====
-- src/demagnetize/peer/ at concrete inputs, as in test/test_peer.py.
use demagnetize.Prelude.{ℕ, ◌++◌, ◌+◌, ◌≡◌, refl, arith, [], ◌∷◌, codes, Bytes, some, take, length}
use demagnetize.Prelude.Int.{pos}
use demagnetize.Prelude.Order.{lt_bytes, eq_bytes}
use demagnetize.Prelude.Dict.{lookup, insert}
use demagnetize.Prelude.BigEndian.{big_endian, from_bytes}
use demagnetize.Prelude.Decimal.{decimal}
use demagnetize.Errors.{ok, err, value_error}
use demagnetize.Struct.{encode_uint}
use demagnetize.Prelude.Bits.{set_bit, test_bit, bits_below, elem}
use demagnetize.Peer.Handshake.{Handshake, handshake_parse, handshake_bytes, info_hash_from_bytes}
use demagnetize.Peer.Handshake.RoundTrip.{handshake_parse-handshake_bytes}
use demagnetize.Bencode.Value.{Fields, int, end, field, set}
use demagnetize.Bencode.Encode.{bencode, bencode_bytes, print_int, join, sort_keys}
use demagnetize.Peer.Extensions.{
  metadata, pex, Bep10Registry, from_name, register, register_item, register_items, from_m,
}
use demagnetize.Peer.Extensions.Registry.{IsInverse, from_m-IsInverse}
use demagnetize.Peer.Message.{
  request, type_of, to_payload, message_bytes, parse, parse_body, from_klass, klasses, of_length,
  is_empty_message, pack3,
}
use demagnetize.Peer.Message.RoundTrip.{parse-message_bytes}
use demagnetize.Peer.Message.Parsed.{message_bytes-parse}
use demagnetize.Peer.Message.Raises.{parse-eq-err}
use demagnetize.Peer.Extended.{Bep9Message, bep9_payload, bep9_fields, is_trailing_valid, msg_data}
use demagnetize.Peer.Wire.{bep9, encode_message, decode_message}
use demagnetize.Peer.Wire.RoundTrip.{decode_message-encode_message}
use demagnetize.Peer.Wire.Raises.{decode_message-eq-err, encode_message-IsNoByte}

-- struct.pack("!IBIII", 13, 6, 1, 65536, 16384)
abbrev request_frame : Bytes
request_frame = 0 ∷ 0 ∷ 0 ∷ 13 ∷ 6 ∷ 0 ∷ 0 ∷ 0 ∷ 1 ∷ 0 ∷ 1 ∷ 0 ∷ 0 ∷ 0 ∷ 0 ∷ 64 ∷ 0 ∷ []

request_runs :
    (message_bytes (request 1 65536 16384) ≡ ok request_frame)
    × (parse request_frame ≡ ok (request 1 65536 16384))
unfolding message_bytes to_payload type_of pack3 encode_uint big_endian parse parse_body from_klass
    klasses of_length from_bytes
request_runs = (refl, refl)

parse-message_bytes_example :
    (blob : Bytes) × (message_bytes (request 1 65536 16384) ≡ ok blob)
    × (from_bytes (take 4 blob) + 4 ≡ length blob)
    × (parse blob ≡ ok (request 1 65536 16384))
parse-message_bytes_example =
    parse-message_bytes (request 1 65536 16384) (omega arith, omega arith, omega arith)

message_bytes-parse_example : message_bytes (request 1 65536 16384) ≡ ok request_frame
unfolding parse parse_body from_klass klasses of_length from_bytes is_empty_message
message_bytes-parse_example =
    message_bytes-parse request_frame (request 1 65536 16384) (omega arith) (omega arith) refl refl
      refl

parse-eq-err_runs : value_error ≡ value_error
unfolding parse parse_body from_klass klasses
parse-eq-err_runs = parse-eq-err (0 ∷ 0 ∷ 0 ∷ 1 ∷ 99 ∷ []) value_error (omega arith) refl

-- {b"ut_metadata": 3, b"ut_pex": 1}
abbrev m_dict : Fields
m_dict = field (codes "ut_metadata") (int (pos 3)) (field (codes "ut_pex") (int (pos 1)) end)

abbrev remote : Bep10Registry
remote = record {
  from_code = (pos 3, metadata) ∷ (pos 1, pex) ∷ [];
  to_code = (metadata, pos 3) ∷ (pex, pos 1) ∷ [];
}

from_m_runs : from_m m_dict ≡ ok remote
unfolding from_m register_items register_item register from_name insert eq_bytes
from_m_runs = refl

from_m-IsInverse_example : IsInverse remote
from_m-IsInverse_example = from_m-IsInverse m_dict remote from_m_runs

-- A piece of the info, as a peer sends it.
abbrev data_piece : Bep9Message
data_piece = record {
  msg_type = msg_data;
  piece = pos 0;
  total_size = some (pos 4);
  payload = codes "d1:a";
}

decode_message-encode_message_example :
    (blob : Bytes) × (encode_message (bep9 data_piece) remote ≡ ok blob)
    × (decode_message 2 blob remote ≡ ok (bep9 data_piece))
unfolding lookup is_trailing_valid bep9_payload bep9_fields bencode bencode_bytes print_int join
    sort_keys lt_bytes decimal set eq_bytes
decode_message-encode_message_example =
    decode_message-encode_message data_piece remote 3 2 refl refl (omega arith) (omega arith) refl
      (omega arith) (omega arith)

decode_message-eq-err_example : value_error ≡ value_error
unfolding decode_message parse parse_body from_klass klasses
decode_message-eq-err_example =
    decode_message-eq-err 9 (0 ∷ 0 ∷ 0 ∷ 1 ∷ 99 ∷ []) remote value_error (omega arith) refl

-- A registry as {b"ut_metadata": 300} gives it.
abbrev odd : Bep10Registry
odd = record { from_code = (pos 300, metadata) ∷ []; to_code = (metadata, pos 300) ∷ [] }

encode_message-IsNoByte_example : encode_message (bep9 data_piece) odd ≡ err value_error
unfolding lookup
encode_message-IsNoByte_example =
    encode_message-IsNoByte data_piece odd (pos 300) refl (omega arith)

-- The handshake of a peer that has the extensions 20, 2 and 0.
abbrev hello : Handshake
hello = record {
  extensions = 20 ∷ 2 ∷ 0 ∷ [];
  info_hash = codes "aaaaabbbbbcccccddddd";
  peer_id = codes "-TR3000-vfu1svh0ewb6";
}

abbrev hello_frame : Bytes
hello_frame =
    19 ∷ codes "BitTorrent protocol"
    ++ (0 ∷ 0 ∷ 0 ∷ 0 ∷ 0 ∷ 16 ∷ 0 ∷ 5 ∷ codes "aaaaabbbbbcccccddddd-TR3000-vfu1svh0ewb6")

hello_runs : (handshake_bytes hello ≡ ok hello_frame) × (handshake_parse hello_frame ≡ ok hello)
unfolding handshake_bytes handshake_parse info_hash_from_bytes set_bit test_bit bits_below
    encode_uint big_endian from_bytes eq_bytes
hello_runs = (refl, refl)

handshake_parse-handshake_bytes_example :
    (blob : Bytes) × (handshake_bytes hello ≡ ok blob)
    × (length blob ≡ 68)
    × (h' : Handshake) × (handshake_parse blob ≡ ok h')
    × (h'.info_hash ≡ hello.info_hash)
    × (h'.peer_id ≡ hello.peer_id)
    × ((i : ℕ) → elem i h'.extensions ≡ elem i hello.extensions)
handshake_parse-handshake_bytes_example =
    handshake_parse-handshake_bytes hello (omega arith, (omega arith, (omega arith, tt))) refl refl
