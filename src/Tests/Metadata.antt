-- ===== src/Tests/Metadata.antt =====
-- src/demagnetize/peer/core.py at concrete inputs: a peer that sends one piece.
use demagnetize.Prelude.{arith, ◌++◌, ◌≡◌, ◌≢◌, refl, [], ◌∷◌, codes, Bytes, length}
use demagnetize.Prelude.Int.{pos}
use demagnetize.Errors.{Yields, ok, err, peer_error, out_of_fuel}
use demagnetize.Bencode.Value.{Fields, int, dict, end, field, IsCanonical, nesting}
use demagnetize.Bencode.Encode.{bencode}
use demagnetize.Peer.Extensions.{metadata, empty, Bep10Registry}
use demagnetize.Peer.Connection.{PeerConnection}
use demagnetize.Peer.Connection.Receive.{Received, IsPeerError, receive-Yields}
use demagnetize.Util.InfoPiecer.{InfoPiecer, IsFed, new-IsFed, add_piece-IsFed, length-contents}
use demagnetize.Peer.Metadata.Frames.{IsFrame, data_message}
use demagnetize.Peer.Metadata.Serves.{IsServed, get_metadata_info-IsServed}
use demagnetize.Peer.Message.{unchoke}
use demagnetize.Peer.Wire.{plain, extended_handshake, bep9}
use demagnetize.Peer.Extended.{ExtendedHandshake}
use demagnetize.Peer.Metadata.{as_data, as_handshake, request_info, get_metadata_info}
use demagnetize.Peer.Metadata.Sound.{
  get_metadata_info-eq-ok, request_info-eq-ok, get_metadata_info-eq-err,
}
use demagnetize.Struct.{encode_uint, byte}
use demagnetize.Util.InfoPiecer.{sizes_of, piece_qty, add_piece}
use demagnetize.Peer.Message.{
  message_bytes, to_payload, type_of, parse, parse_body, from_klass, klasses, extended_from_payload,
  is_empty_message,
}
use demagnetize.Peer.Connection.{
  receive, receive_loop, receive_payload, catch_value_error, read, send, send_frame,
}
use demagnetize.Peer.Extended.{
  parse_handshake, catch_unbencode, as_dict, parse_bep9, require_int, optional_int,
  is_trailing_valid, get_int, extensions, registry_of, metadata_size, bep9_to_extended, code_of,
  bep9_payload, bep9_fields,
}
use demagnetize.Peer.Wire.{
  decode_message, decompose_message, decompose, parse_extension, encode_message, to_message,
}
use demagnetize.Peer.Extensions.{
  from_m, register_items, register_item, register, from_name, contains,
}
use demagnetize.Peer.Metadata.{
  get_metadata_info, request_info, validate, info_dict, catch_bad_info, fetch_pieces, await_piece,
  answer, accept_piece, add_or_fail, require, await_handshake, pass_over, is_ignored,
  is_ignored_class,
}
use demagnetize.Prelude.Dict.{lookup, insert}
use demagnetize.Prelude.Decimal.{decimal, read_decimal}
use demagnetize.Prelude.Order.{lt_bytes, eq_bytes}
use demagnetize.Prelude.BigEndian.{from_bytes, big_endian}
use demagnetize.Bencode.Decode.{
  partial_unbencode, unbencode, catch_recursion, decode_next, decode_as, read_string, list_loop,
  dict_loop, as_key, read_int, parse_int, is_invalid, read_digits, read_bytes, peek_is, getchar,
}
use demagnetize.Bencode.Value.{set, get}
use demagnetize.Bencode.Encode.{bencode, bencode_bytes, print_int, join, sort_keys}
use demagnetize.Util.InfoPiecer

-- {b"a": 1}
abbrev info : Fields
info = field (codes "a") (int (pos 1)) end

-- An extended handshake, a data message and a request, behind their lengths.
abbrev handshake_frame : Bytes
handshake_frame = 0 ∷ 0 ∷ 0 ∷ 45 ∷ 20 ∷ 0 ∷ codes "d1:md11:ut_metadatai3ee13:metadata_sizei8ee"

abbrev data_frame : Bytes
data_frame = 0 ∷ 0 ∷ 0 ∷ 51 ∷ 20 ∷ 42 ∷ codes "d8:msg_typei1e5:piecei0e10:total_sizei8eed1:ai1ee"

abbrev request_frame : Bytes
request_frame = 0 ∷ 0 ∷ 0 ∷ 27 ∷ 20 ∷ 3 ∷ codes "d8:msg_typei0e5:piecei0ee"

abbrev remote : Bep10Registry
remote = record { from_code = (pos 3, metadata) ∷ []; to_code = (metadata, pos 3) ∷ [] }

-- With the identity for the digest function, the hash is the encoding itself.
abbrev digest : Bytes → Bytes
digest b = b

abbrev conn : PeerConnection
conn = record {
  info_hash = codes "d1:ai1ee";
  extensions = [];
  remote_bep10_registry = empty;
  incoming = handshake_frame ++ data_frame;
  outgoing = [];
  accepts = 5;
}

abbrev after : PeerConnection
after = record {
  info_hash = codes "d1:ai1ee";
  extensions = [];
  remote_bep10_registry = remote;
  incoming = [];
  outgoing = request_frame ∷ [];
  accepts = 4;
}

-- The connection once the handshake is read, and one that was made for another hash.
abbrev shaken : PeerConnection
shaken = record conn { remote_bep10_registry = remote; incoming = data_frame }

abbrev other : PeerConnection
other = record conn { info_hash = codes "d1:ai2ee" }

get_metadata_info_runs :
    (get_metadata_info digest 5 conn ≡ ok (info, after))
    × (request_info digest 5 (pos 8) shaken ≡ ok (info, after))
    × (get_metadata_info digest 5 other ≡ err peer_error)
unfolding get_metadata_info request_info validate info_dict catch_bad_info fetch_pieces await_piece
    answer accept_piece add_or_fail require await_handshake pass_over is_ignored is_ignored_class
    receive receive_loop receive_payload catch_value_error read send send_frame InfoPiecer.new
    sizes_of piece_qty add_piece from_bytes big_endian encode_uint byte decode_message
    decompose_message decompose parse_extension parse_handshake catch_unbencode as_dict parse_bep9
    require_int optional_int is_trailing_valid get_int extensions registry_of metadata_size from_m
    register_items register_item register from_name contains lookup insert encode_message to_message
    bep9_to_extended code_of bep9_payload bep9_fields message_bytes to_payload type_of parse
    parse_body from_klass klasses extended_from_payload is_empty_message bencode bencode_bytes
    print_int join sort_keys decimal lt_bytes partial_unbencode unbencode catch_recursion
    decode_next decode_as read_string list_loop dict_loop as_key read_int parse_int is_invalid
    read_digits read_bytes peek_is getchar read_decimal set get eq_bytes as_data as_handshake
get_metadata_info_runs = (refl, refl, refl)

get_metadata_info-eq-ok_example :
    (digest (bencode (dict info)) ≡ codes "d1:ai1ee") × IsCanonical (dict info)
get_metadata_info-eq-ok_example =
    get_metadata_info-eq-ok digest 5 conn after info (get_metadata_info_runs.0)

request_info-eq-ok_example :
    (length (bencode (dict info)) ≡ 8) × (digest (bencode (dict info)) ≡ codes "d1:ai1ee")
request_info-eq-ok_example =
    request_info-eq-ok digest 5 8 shaken after info (get_metadata_info_runs.1)

get_metadata_info-eq-err_runs : peer_error ≢ out_of_fuel
get_metadata_info-eq-err_runs =
    get_metadata_info-eq-err digest 5 other peer_error (get_metadata_info_runs.2)

receive-Yields_example : Yields (Received conn) IsPeerError (receive 5 conn)
receive-Yields_example = receive-Yields 5 conn

-- Eight bytes in one piece.
abbrev fed : InfoPiecer
fed = record {
  total_size = pos 8;
  contents = codes "d1:ai1ee";
  sizes = 8 ∷ [];
  index = 1;
  hashed = codes "d1:ai1ee";
}

add_piece-IsFed_example : IsFed fed
unfolding InfoPiecer.new add_piece sizes_of
add_piece-IsFed_example =
    add_piece-IsFed (InfoPiecer.new (pos 8)) fed (codes "d1:ai1ee") (new-IsFed (pos 8)) refl

length-contents_runs : length fed.contents ≡ 8
length-contents_runs = length-contents fed 8 add_piece-IsFed_example refl refl

-- A peer that says something before its handshake, and between it and the piece.
abbrev unchoke_frame : Bytes
unchoke_frame = 0 ∷ 0 ∷ 0 ∷ 1 ∷ 1 ∷ []

abbrev talkative : PeerConnection
talkative = record conn {
  incoming =
      unchoke_frame ++ (handshake_frame ++ (unchoke_frame ++ (handshake_frame ++ data_frame)));
}

abbrev handshake : ExtendedHandshake
handshake = record {
  contents =
      field (codes "m") (dict (field (codes "ut_metadata") (int (pos 3)) end))
        (field (codes "metadata_size") (int (pos 8)) end);
}

unchoke_frame-IsFrame : IsFrame 5 unchoke_frame (plain unchoke)
unfolding is_ignored is_ignored_class sizes_of from_bytes big_endian encode_uint byte decode_message
    decompose_message decompose parse_extension parse_handshake catch_unbencode as_dict parse_bep9
    require_int optional_int is_trailing_valid get_int extensions registry_of metadata_size from_m
    register_items register_item register from_name contains lookup insert bep9_payload bep9_fields
    message_bytes to_payload type_of parse parse_body from_klass klasses extended_from_payload
    is_empty_message bencode bencode_bytes print_int join sort_keys decimal lt_bytes
    partial_unbencode unbencode catch_recursion decode_next decode_as read_string list_loop
    dict_loop as_key read_int parse_int is_invalid read_digits read_bytes peek_is getchar
    read_decimal set get eq_bytes
unchoke_frame-IsFrame = record {
  announced = refl;
  some_length = omega arith;
  not_large = omega arith;
  decoded = refl;
}

handshake_frame-IsFrame : IsFrame 5 handshake_frame (extended_handshake handshake)
unfolding is_ignored is_ignored_class sizes_of from_bytes big_endian encode_uint byte decode_message
    decompose_message decompose parse_extension parse_handshake catch_unbencode as_dict parse_bep9
    require_int optional_int is_trailing_valid get_int extensions registry_of metadata_size from_m
    register_items register_item register from_name contains lookup insert bep9_payload bep9_fields
    message_bytes to_payload type_of parse parse_body from_klass klasses extended_from_payload
    is_empty_message bencode bencode_bytes print_int join sort_keys decimal lt_bytes
    partial_unbencode unbencode catch_recursion decode_next decode_as read_string list_loop
    dict_loop as_key read_int parse_int is_invalid read_digits read_bytes peek_is getchar
    read_decimal set get eq_bytes
handshake_frame-IsFrame = record {
  announced = refl;
  some_length = omega arith;
  not_large = omega arith;
  decoded = refl;
}

data_frame-IsFrame : IsFrame 5 data_frame (bep9 (data_message 8 0 (codes "d1:ai1ee")))
unfolding is_ignored is_ignored_class sizes_of from_bytes big_endian encode_uint byte decode_message
    decompose_message decompose parse_extension parse_handshake catch_unbencode as_dict parse_bep9
    require_int optional_int is_trailing_valid get_int extensions registry_of metadata_size from_m
    register_items register_item register from_name contains lookup insert bep9_payload bep9_fields
    message_bytes to_payload type_of parse parse_body from_klass klasses extended_from_payload
    is_empty_message bencode bencode_bytes print_int join sort_keys decimal lt_bytes
    partial_unbencode unbencode catch_recursion decode_next decode_as read_string list_loop
    dict_loop as_key read_int parse_int is_invalid read_digits read_bytes peek_is getchar
    read_decimal set get eq_bytes
data_frame-IsFrame = record {
  announced = refl;
  some_length = omega arith;
  not_large = omega arith;
  decoded = refl;
}

talkative-IsServed : IsServed 5 info talkative
unfolding is_ignored is_ignored_class sizes_of from_bytes big_endian encode_uint byte decode_message
    decompose_message decompose parse_extension parse_handshake catch_unbencode as_dict parse_bep9
    require_int optional_int is_trailing_valid get_int extensions registry_of metadata_size from_m
    register_items register_item register from_name contains lookup insert bep9_payload bep9_fields
    message_bytes to_payload type_of parse parse_body from_klass klasses extended_from_payload
    is_empty_message bencode bencode_bytes print_int join sort_keys decimal lt_bytes
    partial_unbencode unbencode catch_recursion decode_next decode_as read_string list_loop
    dict_loop as_key read_int parse_int is_invalid read_digits read_bytes peek_is getchar
    read_decimal set get eq_bytes
talkative-IsServed = record {
  early = (unchoke_frame, plain unchoke) ∷ [];
  frame = handshake_frame;
  handshake = handshake;
  stream = unchoke_frame ++ (handshake_frame ++ data_frame);
  registry = remote;
  code = 3;
  chats = (unchoke_frame-IsFrame, refl, tt);
  is_frame = handshake_frame-IsFrame;
  incoming = refl;
  registered = refl;
  known = refl;
  byte_code = omega arith;
  size = refl;
  serves = (
    (unchoke_frame, plain unchoke) ∷ (handshake_frame, extended_handshake handshake) ∷ [],
    data_frame,
    codes "d1:ai1ee",
    [],
    [],
    refl,
    refl,
    refl,
    (unchoke_frame-IsFrame, refl, (handshake_frame-IsFrame, refl, tt)),
    data_frame-IsFrame,
    refl,
  );
}

get_metadata_info-IsServed_example :
    (c' : PeerConnection) × (get_metadata_info digest 5 talkative ≡ ok (info, c'))
unfolding bencode bencode_bytes print_int join sort_keys decimal sizes_of IsCanonical nesting
get_metadata_info-IsServed_example =
    get_metadata_info-IsServed digest 5 info talkative ((refl, tt), (tt, tt)) (omega arith) refl
      talkative-IsServed (omega arith) (omega arith)
