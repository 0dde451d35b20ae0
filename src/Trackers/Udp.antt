-- ===== src/Trackers/Udp.antt =====
-- src/demagnetize/trackers/udp.py: the packets of the UDP tracker protocol (BEP 15, BEP 41).
pub mod Responses
pub mod Requests
pub mod Session
use demagnetize.Prelude.{
  ℕ, zero, suc, ◌+◌, ◌-◌, ◌≤◌, ◌<◌, ◌≡◌, refl, Bool, not, Option, none, some, List, [], ◌∷◌, ◌++◌,
  Bytes, arith, length, take, drop, replicate, leb, is_empty, if◌then◌else◌,
}
use demagnetize.Prelude.Int.{ℤ, pos, eq_ℤ}
use demagnetize.Errors.{
  Error, Result, ok, err, ◌>>=◌, ◌>>◌, guard, value_error, struct_error, tracker_failure,
}
use demagnetize.Struct.{encode_uint, to_bytes}
use demagnetize.Struct.Layout.{before}
use demagnetize.Struct.Signed.{pack_int, unpack_int}
use demagnetize.Peer.Address.{Peer}
use demagnetize.Trackers.Base.{AnnounceEvent, udp_value, unpack_peers, unpack_peers6}

-- PROTOCOL_ID
abbrev pub protocol_id : ℤ
protocol_id = pos 0x41727101980

-- NUMWANT
abbrev pub numwant : ℤ
numwant = pos 50

-- struct.pack("!qii", …), the head of every request, by its fields
unfoldable pub request_fields : ℤ → ℤ → ℤ → Result (List Bytes)
request_fields id action transaction_id = do
  a ← pack_int 8 id
  b ← pack_int 4 action
  c ← pack_int 4 transaction_id
  ok (a ∷ b ∷ c ∷ [])

-- build_connection_request
unfoldable pub build_connection_request : ℤ → Result Bytes
build_connection_request transaction_id = do
  fields ← request_fields protocol_id (pos 0) transaction_id
  ok (before fields [])

-- A number at an offset of a packet: a field of `struct.unpack_from`.
abbrev pub int_at : ℕ → ℕ → Bytes → ℤ
int_at offset w packet = unpack_int (take w (drop offset packet))

-- `struct.unpack_from` raises on a packet that is shorter than the format.
abbrev pub of_size : ℕ → Bytes → Result (Unit {0})
of_size n packet = guard (leb n (length packet)) struct_error

-- raise_error_response
unfoldable pub raise_error_response : Bytes → Result (Unit {0})
raise_error_response resp = do
  of_size 8 resp
  guard (not (eq_ℤ (int_at 0 4 resp) (pos 3))) tracker_failure

-- parse_connection_response
unfoldable pub parse_connection_response : ℤ → Bytes → Result ℤ
parse_connection_response transaction_id resp = do
  raise_error_response resp
  of_size 16 resp
  guard (eq_ℤ (int_at 4 4 resp) transaction_id) value_error
  guard (eq_ℤ (int_at 0 4 resp) (pos 0)) value_error
  ok (int_at 8 8 resp)

-- What an announcement says.
pub record AnnounceRequest : Type 0 where
  pub transaction_id : ℤ
  pub connection_id : ℤ
  pub info_hash : Bytes
  pub peer_id : Bytes
  pub peer_port : ℕ
  pub key : ℕ
  pub event : AnnounceEvent
  pub downloaded : ℤ
  pub uploaded : ℤ
  pub left : ℤ
  pub urldata : Bytes

-- The loop of BEP 41 over what is left of the URL's data, with fuel.
unfoldable pub url_options : ℕ → Bytes → Bytes
url_options zero ud = []
url_options (suc fuel) ud =
    let rest = url_options fuel (drop 255 ud) in
    if is_empty ud then [] else 2 ∷ length (take 255 ud) ∷ take 255 ud ++ rest

-- The part of an announcement that has a fixed size, by its fields.
unfoldable pub announce_fields : AnnounceRequest → Result (List Bytes)
announce_fields r = do
  head ← request_fields r.connection_id (pos 1) r.transaction_id
  down ← pack_int 8 r.downloaded
  left ← pack_int 8 r.left
  up ← pack_int 8 r.uploaded
  event ← pack_int 4 (udp_value r.event)
  key ← to_bytes 4 r.key
  want ← pack_int 4 numwant
  port ← encode_uint struct_error 2 r.peer_port
  ok (
      head
      ++ r.info_hash
        ∷ take 20 (r.peer_id ++ replicate 20 0)
        ∷ down
        ∷ left
        ∷ up
        ∷ event
        ∷ replicate 4 0
        ∷ key
        ∷ want
        ∷ port
        ∷ [])

-- build_announce_request; a round of the loop takes a byte at least.
unfoldable pub build_announce_request : AnnounceRequest → Result Bytes
build_announce_request r = do
  fields ← announce_fields r
  ok (before fields (url_options (length r.urldata) r.urldata))

pub record UdpAnnounceResponse : Type 0 where
  pub interval : ℤ
  pub leechers : ℤ
  pub seeders : ℤ
  pub peers : List Peer

-- parse_announce_response
unfoldable pub parse_announce_response : ℤ → Bytes → Bool → Result UdpAnnounceResponse
parse_announce_response transaction_id resp is_ipv6 = do
  raise_error_response resp
  of_size 20 resp
  guard (eq_ℤ (int_at 4 4 resp) transaction_id) value_error
  guard (eq_ℤ (int_at 0 4 resp) (pos 1)) value_error
  peers ← (if is_ipv6 then unpack_peers6 (drop 20 resp) else unpack_peers (drop 20 resp))
  ok (record {
    interval = int_at 8 4 resp;
    leechers = int_at 12 4 resp;
    seeders = int_at 16 4 resp;
    peers = peers;
  })
