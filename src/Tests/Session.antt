-- ===== src/Tests/Session.antt =====
-- src/demagnetize/session.py at concrete inputs: a tracker sends an address twice, and the peer there sends
-- its one piece of the info.
use demagnetize.Prelude.{
  ◌≡◌, ◌≤◌, ◌<◌, refl, subst, arith, none, false, List, [], ◌∷◌, ◌++◌, Bytes, codes, take,
  replicate,
}
use demagnetize.Prelude.Int.{pos}
use demagnetize.Prelude.Bits.{set_bit, test_bit, bits_below}
use demagnetize.Errors.{Result, ok}
use demagnetize.Bencode.Value.{Fields, int, end, field}
use demagnetize.Peer.Address.{Peer, PeerAddress, address}
use demagnetize.Peer.Contact.{Socket, connect, get_info, IsInfoOf}
use demagnetize.Peer.Connection.{PeerConnection}
use demagnetize.Peer.Connection.Handshake.{handshake, accept, send_have_none}
use demagnetize.Peer.Handshake.{handshake_bytes, handshake_parse, info_hash_from_bytes}
use demagnetize.Peer.Extended.{make, handshake_to_extended}
use demagnetize.Peer.Extensions.{metadata, empty, Bep10Registry, to_m}
use demagnetize.Peer.Metadata.{as_data, as_handshake}
use demagnetize.Session.{
  TorrentSession, Phase, going, received_info, opened, Step, sends, starts, gets, receives, Reaches,
  here, next, open_trackers, open_session, peers_per_magnet_limit, end_task,
}
use demagnetize.Session.Invariant.{count, Reaches-limited}
use demagnetize.Session.Fates.{Fate, Reaches-Fate}
use demagnetize.Session.Progress.{weight, Step-weight}
use demagnetize.Session.Download.{open_session-IsInfoOf}
use demagnetize.Struct.{encode_uint, byte}
use demagnetize.Util.InfoPiecer.{sizes_of, piece_qty, add_piece}
use demagnetize.Peer.Message.{
  message_bytes, to_payload, type_of, parse, parse_body, from_klass, klasses, extended_from_payload,
  is_empty_message,
}
use demagnetize.Peer.Connection.{
  receive, receive_loop, receive_payload, catch_value_error, read, send, send_frame,
}
use demagnetize.Peer.Extended.{
  parse_handshake, catch_unbencode, as_dict, parse_bep9, require_int, optional_int,
  is_trailing_valid, get_int, extensions, registry_of, metadata_size, bep9_to_extended, code_of,
  bep9_payload, bep9_fields,
}
use demagnetize.Peer.Wire.{
  decode_message, decompose_message, decompose, parse_extension, encode_message, to_message,
}
use demagnetize.Peer.Extensions.{
  from_m, register_items, register_item, register, from_name, contains,
}
use demagnetize.Peer.Metadata.{
  get_metadata_info, request_info, validate, info_dict, catch_bad_info, fetch_pieces, await_piece,
  answer, accept_piece, add_or_fail, require, await_handshake, pass_over, is_ignored,
  is_ignored_class,
}
use demagnetize.Prelude.Dict.{lookup, insert}
use demagnetize.Prelude.Decimal.{decimal, read_decimal}
use demagnetize.Prelude.Order.{lt_bytes, eq_bytes}
use demagnetize.Prelude.BigEndian.{from_bytes, big_endian}
use demagnetize.Bencode.Decode.{
  partial_unbencode, unbencode, catch_recursion, decode_next, decode_as, read_string, list_loop,
  dict_loop, as_key, read_int, parse_int, is_invalid, read_digits, read_bytes, peek_is, getchar,
}
use demagnetize.Bencode.Value.{set, get}
use demagnetize.Bencode.Encode.{bencode, bencode_bytes, print_int, join, sort_keys}
use demagnetize.Util.InfoPiecer

-- {b"a": 1}
abbrev pub info : Fields
info = field (codes "a") (int (pos 1)) end

-- An extended handshake, a data message and a request, behind their lengths.
abbrev handshake_frame : Bytes
handshake_frame = 0 ∷ 0 ∷ 0 ∷ 45 ∷ 20 ∷ 0 ∷ codes "d1:md11:ut_metadatai3ee13:metadata_sizei8ee"

abbrev data_frame : Bytes
data_frame = 0 ∷ 0 ∷ 0 ∷ 51 ∷ 20 ∷ 42 ∷ codes "d8:msg_typei1e5:piecei0e10:total_sizei8eed1:ai1ee"

abbrev request_frame : Bytes
request_frame = 0 ∷ 0 ∷ 0 ∷ 27 ∷ 20 ∷ 3 ∷ codes "d8:msg_typei0e5:piecei0ee"

abbrev remote : Bep10Registry
remote = record { from_code = (pos 3, metadata) ∷ []; to_code = (metadata, pos 3) ∷ [] }

-- A digest of 20 bytes that keeps the first 20 of what it digests.
abbrev pub short_digest : Bytes → Bytes
short_digest b = take 20 (b ++ replicate 20 0)

abbrev pub hash : Bytes
hash = codes "d1:ai1ee" ++ replicate 12 0

abbrev pub app_id : Bytes
app_id = codes "-DM-0030-xxxxxxxxxxx"

abbrev pub socket : Socket
socket = record {
  incoming =
      19 ∷ codes "BitTorrent protocol"
      ++ (0
          ∷ 0
          ∷ 0
          ∷ 0
          ∷ 0
          ∷ 16
          ∷ 0
          ∷ 0
          ∷ (hash ++ (codes "-TR3000-vfu1svh0ewb6" ++ (handshake_frame ++ data_frame))));
  accepts = 9;
}

abbrev connected_peer : PeerConnection
connected_peer = record {
  info_hash = hash;
  extensions = 20 ∷ [];
  remote_bep10_registry = empty;
  incoming = handshake_frame ++ data_frame;
  outgoing =
      (19 ∷ codes "BitTorrent protocol" ++ (0 ∷ 0 ∷ 0 ∷ 0 ∷ 0 ∷ 16 ∷ 0 ∷ 4 ∷ (hash ++ app_id)))
      ∷ (0 ∷ 0 ∷ 0 ∷ 35 ∷ 20 ∷ 0 ∷ codes "d1:md11:ut_metadatai42ee1:v3:abce")
      ∷ [];
  accepts = 7;
}

connect_runs : connect app_id (codes "abc") hash (ok socket) ≡ ok connected_peer
unfolding connect handshake accept send_have_none handshake_bytes handshake_parse
    info_hash_from_bytes set_bit test_bit bits_below encode_uint big_endian from_bytes eq_bytes send
    send_frame read catch_value_error encode_message to_message handshake_to_extended make to_m
    message_bytes to_payload type_of byte set bencode bencode_bytes print_int join sort_keys
    lt_bytes decimal
connect_runs = refl

abbrev served_peer : PeerConnection
served_peer = record connected_peer {
  remote_bep10_registry = remote;
  incoming = [];
  outgoing = connected_peer.outgoing ++ request_frame ∷ [];
  accepts = 6;
}

metadata_runs : get_metadata_info short_digest 5 connected_peer ≡ ok (info, served_peer)
unfolding get_metadata_info request_info validate info_dict catch_bad_info fetch_pieces await_piece
    answer accept_piece add_or_fail require await_handshake pass_over is_ignored is_ignored_class
    receive receive_loop receive_payload catch_value_error read send send_frame InfoPiecer.new
    sizes_of piece_qty add_piece from_bytes big_endian encode_uint byte decode_message
    decompose_message decompose parse_extension parse_handshake catch_unbencode as_dict parse_bep9
    require_int optional_int is_trailing_valid get_int extensions registry_of metadata_size from_m
    register_items register_item register from_name contains lookup insert encode_message to_message
    bep9_to_extended code_of bep9_payload bep9_fields message_bytes to_payload type_of parse
    parse_body from_klass klasses extended_from_payload is_empty_message bencode bencode_bytes
    print_int join sort_keys decimal lt_bytes partial_unbencode unbencode catch_recursion
    decode_next decode_as read_string list_loop dict_loop as_key read_int parse_int is_invalid
    read_digits read_bytes peek_is getchar read_decimal set get eq_bytes as_data as_handshake
metadata_runs = refl

abbrev pub contact : Peer → Result Fields
contact p = get_info short_digest 5 app_id (codes "abc") hash (ok socket)

abbrev pub a_peer : Peer
a_peer = record { host = codes "10.0.0.1"; port = pos 6881; id = none }

pub contact_runs : contact a_peer ≡ ok info
unfolding get_info
contact_runs = cc (connect_runs, metadata_runs)

-- A tracker's URL is any text; its task sends the peer twice.
abbrev tracker_of : Bytes → Result Bytes
tracker_of url = ok url

abbrev peers_of : Bytes → Result (Unit {0}) × List Peer
peers_of tracker = (ok tt, a_peer ∷ a_peer ∷ [])

abbrev tasks : List (Result (Unit {0}) × List Peer)
tasks = peers_of (codes "t") ∷ []

-- The session when the address was seen twice and its peer contacted once.
abbrev contacting : TorrentSession Fields
contacting = record {
  trackers = (ok tt, []) ∷ [];
  peers_seen = address a_peer ∷ [];
  waiting = [];
  running = a_peer ∷ [];
  offering = [];
  info_fetched = false;
}

contacting_reached : Reaches contact (opened tasks) (a_peer ∷ []) (going contacting)
unfolding eq_bytes
contacting_reached =
    next
      (next (next here (sends [] [] (ok tt) a_peer (a_peer ∷ []) refl))
        (sends [] [] (ok tt) a_peer [] refl))
      (starts [] [] a_peer refl (omega arith))

info_reached : Reaches contact (opened tasks) (a_peer ∷ []) (received_info info)
info_reached =
    let got : Reaches contact (opened tasks) (a_peer ∷ [])
        (end_task (ok info) (record contacting { running = [] })) =
      subst
        (λ r.
          Reaches contact (opened tasks) (a_peer ∷ [])
            (end_task r (record contacting { running = [] })))
        contact_runs (next contacting_reached (gets [] [] a_peer refl)) in
    next got (receives info [] refl)

Reaches-limited_example :
    (1 ≤ peers_per_magnet_limit) × ((a : PeerAddress) → count a (a_peer ∷ []) ≤ 1)
Reaches-limited_example = Reaches-limited contact tasks (a_peer ∷ []) contacting contacting_reached

Reaches-Fate_example : Fate contact tasks (a_peer ∷ []) (received_info info)
Reaches-Fate_example = Reaches-Fate contact tasks (a_peer ∷ []) (received_info info) info_reached

Step-weight_example :
    ((more : List Peer) × (phase : Phase Fields) × Step contact contacting more phase)
    × ((more : List Peer) (s' : TorrentSession Fields)
        → Step contact contacting more (going s')
        → weight s' < weight contacting)
Step-weight_example = Step-weight contact contacting

open_session-IsInfoOf_example : IsInfoOf short_digest hash info
unfolding open_session open_trackers
open_session-IsInfoOf_example =
    open_session-IsInfoOf tracker_of peers_of (codes "t" ∷ []) short_digest 5 app_id (codes "abc")
      hash (λ p. ok socket) (opened tasks) (a_peer ∷ []) (received_info info) info refl info_reached
      refl
