-- ===== src/Peer/Display.antt =====
-- How src/demagnetize/peer/ shows what it logs: `__str__` of the messages and of peers, and the properties
-- that it looks at. A text is the bytes that encode it.
pub mod Pieces
use demagnetize.Prelude.{
  ℕ, zero, suc, ◌+◌, ◌-◌, Bool, true, false, ◌||◌, Option, none, some, List, [], ◌∷◌, ◌++◌, map,
  Bytes, codes, length, is_empty, leb, ltb, ◌==◌, if◌then◌else◌,
}
use demagnetize.Prelude.Int.{ℤ, pos, eq_ℤ}
use demagnetize.Prelude.Bits.{test_bit, elem}
use demagnetize.Prelude.Decimal.{decimal}
use demagnetize.Bencode.Value.{Value, Fields, dict, keys, get}
use demagnetize.Bencode.Encode.{print_int}
use demagnetize.Errors.{Result, ok, err, key_error, assertion_error}
use demagnetize.Peer.Address.{Peer}
use demagnetize.Peer.Extensions.{
  azureus_messaging, location_aware, bep10_extensions, dht, xbt_pex, fast, nat_traversal, hybrid_v2,
}
use demagnetize.Peer.Message.{
  Message, choke, unchoke, interested, not_interested, have_all, have_none, have, bitfield, request,
  piece, cancel, port, reject, allowed_fast, suggest, extended,
}
use demagnetize.Peer.Extended.{ExtendedHandshake, Bep9Message, msg_request, msg_data, msg_reject}
use demagnetize.Trackers.Address.{join_with}
use demagnetize.Trackers.Http.{get_string}

-- The loop over the first bits of a byte.
abbrev pub count_bits : ℕ → ℕ → ℕ
count_bits b zero = 0
count_bits b (suc i) = count_bits b i + (if test_bit b i then 1 else 0)

-- Bitfield.have_amount
unfoldable pub have_amount : Bytes → ℕ
have_amount [] = 0
have_amount (b ∷ payload) = count_bits b 8 + have_amount payload

-- "{prefix}{index}, offset {begin}, length {length}"
abbrev pub block_text : Bytes → ℕ → ℕ → ℕ → Bytes
block_text prefix index begin len =
    prefix
    ++ decimal index
    ++ codes ", offset "
    ++ decimal begin
    ++ codes ", length "
    ++ decimal len

-- __str__ of each class
unfoldable pub message_text : Message → Bytes
message_text choke = codes "choke"
message_text unchoke = codes "unchoke"
message_text interested = codes "interested"
message_text not_interested = codes "not interested"
message_text have_all = codes "have all"
message_text have_none = codes "have none"
message_text (have index) = codes "have piece " ++ decimal index
message_text (bitfield payload) = codes "have " ++ decimal (have_amount payload) ++ codes " pieces"
message_text (request index begin len) = block_text (codes "request piece ") index begin len
message_text (piece index begin block) = block_text (codes "piece ") index begin (length block)
message_text (cancel index begin len) =
    block_text (codes "cancel request for piece ") index begin len
message_text (port p) = codes "DHT port " ++ decimal p
message_text (reject index begin len) =
    block_text (codes "reject request for piece ") index begin len
message_text (allowed_fast index) = codes "allow fast download of piece " ++ decimal index
message_text (suggest index) = codes "suggest piece " ++ decimal index
message_text (extended msg_id payload) = codes "extended message, ID " ++ print_int msg_id

-- Extension(ext).name, or str(ext) for a bit that is no member.
abbrev pub extension_name : ℕ → Bytes
extension_name ext =
    if ext == azureus_messaging
    then codes "AZUREUS_MESSAGING"
    else if ext == location_aware
    then codes "LOCATION_AWARE"
    else if ext == bep10_extensions
    then codes "BEP10_EXTENSIONS"
    else if ext == dht
    then codes "DHT"
    else if ext == xbt_pex
    then codes "XBT_PEX"
    else if ext == fast
    then codes "FAST"
    else if ext == nat_traversal
    then codes "NAT_TRAVERSAL"
    else if ext == hybrid_v2
    then codes "HYBRID_V2"
    else decimal ext

abbrev pub insert_bit : ℕ → List ℕ → List ℕ
insert_bit i [] = i ∷ []
insert_bit i (j ∷ js) = let rest = insert_bit i js in if leb i j then i ∷ j ∷ js else j ∷ rest

-- sorted(extensions)
abbrev pub sort_bits : List ℕ → List ℕ
sort_bits [] = []
sort_bits (i ∷ is) = insert_bit i (sort_bits is)

-- Handshake.extension_names
unfoldable pub extension_names : List ℕ → List Bytes
extension_names exts = map extension_name (sort_bits exts)

-- ", ".join(names) or "<none>"
abbrev pub names_text : List Bytes → Bytes
names_text names =
    let text = join_with (codes ", ") names in if is_empty text then codes "<none>" else text

-- `replaced` is bytes.decode("utf-8", "replace").
module _ (replaced : Bytes → Bytes) where
  -- ExtendedHandshake.extension_names
  unfoldable pub bep10_names : Option Value → List Bytes
  bep10_names (some (dict m)) = map replaced (keys m)
  bep10_names _ = []

  -- ExtendedHandshake.client
  abbrev pub client : ExtendedHandshake → Option Bytes
  client h = get_string replaced h.contents (codes "v")

  abbrev pub client_text : Option Bytes → Bytes
  client_text none = []
  client_text (some name) = codes "; client: " ++ name

  -- ExtendedHandshake.__str__, of a handshake that has its "m" dict
  unfoldable pub handshake_text : ExtendedHandshake → Bytes
  handshake_text h =
      codes "BEP 10 extended handshake; extensions: "
      ++ names_text (bep10_names (get h.contents (codes "m")))
      ++ client_text (client h)

-- BEP9MsgType(msg_type).name, or the number of a type that is no member
abbrev pub msg_type_name : ℤ → Bytes
msg_type_name t =
    if eq_ℤ t msg_request
    then codes "REQUEST"
    else if eq_ℤ t msg_data
    then codes "DATA"
    else if eq_ℤ t msg_reject
    then codes "REJECT"
    else codes "msg_type " ++ print_int t

-- Bep9Message.__str__
unfoldable pub bep9_text : Bep9Message → Bytes
bep9_text m =
    codes "ut_metadata message ("
    ++ msg_type_name m.msg_type
    ++ codes " piece "
    ++ print_int m.piece
    ++ codes ")"

-- Peer.__str__
unfoldable pub peer_text : Peer → Bytes
peer_text p =
    let addr =
      if elem b':' p.host
      then codes "[" ++ p.host ++ codes "]:" ++ print_int p.port
      else p.host ++ codes ":" ++ print_int p.port in
    codes "<Peer " ++ addr ++ codes ">"
