-- ===== src/Peer/Metadata.antt =====
-- src/demagnetize/peer/core.py: `get_metadata_info`.
pub mod Pieces
pub mod Sound
pub mod Frames
pub mod Chats
pub mod Serves
use demagnetize.Prelude.{
  ℕ, zero, suc, ◌+◌, ◌≡◌, refl, Bool, true, false, not, Option, none, some, List, [], ◌∷◌, ◌++◌,
  Bytes, length, if◌then◌else◌,
}
use demagnetize.Prelude.Int.{ℤ, pos, eq_ℤ}
use demagnetize.Prelude.Order.{eq_bytes}
use demagnetize.Errors.{
  Error, Result, ok, err, ◌>>=◌, ◌>>◌, guard, unbencode_error, value_error, peer_error, out_of_fuel,
}
use demagnetize.Util.InfoPiecer
use demagnetize.Util.InfoPiecer.{InfoPiecer, add_piece, piece_qty}
use demagnetize.Bencode.Value.{Value, Fields, bytes, int, list, dict}
use demagnetize.Bencode.Decode.{unbencode}
use demagnetize.Peer.Extensions.{metadata, Bep10Registry, contains}
use demagnetize.Peer.Message.{
  Message, is_empty_message, have, bitfield, piece, allowed_fast, suggest,
}
use demagnetize.Peer.Extended.{
  ExtendedHandshake, extensions, metadata_size, Bep9Message, msg_request, msg_data, msg_reject,
}
use demagnetize.Peer.Wire.{AnyMessage, plain, extended_handshake, bep9}
use demagnetize.Peer.Connection.{PeerConnection, send, receive}

-- The message classes of IGNORED_MESSAGES but `EmptyMessage`.
unfoldable pub is_ignored_class : Message → Bool
is_ignored_class (have _) = true
is_ignored_class (bitfield _) = true
is_ignored_class (piece _ _ _) = true
is_ignored_class (allowed_fast _) = true
is_ignored_class (suggest _) = true
is_ignored_class m = is_empty_message m

-- isinstance(msg, IGNORED_MESSAGES)
unfoldable pub is_ignored : AnyMessage → Bool
is_ignored (plain m) = is_ignored_class m
is_ignored (extended_handshake h) = true
is_ignored (bep9 m) = false

unfoldable pub as_handshake : AnyMessage → Option ExtendedHandshake
as_handshake (extended_handshake h) = some h
as_handshake _ = none

-- The loop that waits for the extended handshake: what it does with a message that is none.
unfoldable pub pass_over : AnyMessage → Result (Unit {0})
pass_over msg = guard (is_ignored msg) peer_error

-- A value that is there, or a `PeerError`.
unfoldable pub require {ℓ} : {A : Type ℓ} → Option A → Result A
require none = err peer_error
require (some a) = ok a

unfoldable pub await_handshake :
    ℕ → ℕ → PeerConnection → Result (ExtendedHandshake × PeerConnection)
await_handshake depth zero c = err out_of_fuel
await_handshake depth (suc fuel) c = do
  (msg, c') ← receive depth c
  let again = do pass_over msg; await_handshake depth fuel c'
  elim (as_handshake msg) [ some h ↦ ok (h, c') | none ↦ again ]

-- BEP9Message(msg_type=…, piece=i)
abbrev pub short_message : ℤ → ℤ → AnyMessage
short_message msg_type i =
    bep9 (record { msg_type = msg_type; piece = i; total_size = none; payload = [] })

-- `msg.total_size is not None and msg.total_size != info_piecer.total_size`, negated
abbrev pub agrees : Option ℤ → ℤ → Bool
agrees none total_size = true
agrees (some n) total_size = eq_ℤ n total_size

-- `except ValueError as e: conn.error(…)` around `add_piece`
unfoldable pub add_or_fail : InfoPiecer → Bytes → Result InfoPiecer
add_or_fail p blob = elim (add_piece p blob) [ ok p' ↦ ok p' | err _ ↦ err peer_error ]

-- A data message for piece `i`.
unfoldable pub accept_piece : ℕ → Bep9Message → InfoPiecer → Result InfoPiecer
accept_piece i m p = do
  guard (eq_ℤ m.piece (pos i)) peer_error
  guard (agrees m.total_size p.total_size) peer_error
  add_or_fail p m.payload

-- What the loop does with a message that is no data: the connection goes on, or an error is raised.
unfoldable pub answer : AnyMessage → PeerConnection → Result PeerConnection
answer (bep9 m) c =
    if eq_ℤ m.msg_type msg_reject
    then err peer_error
    else if eq_ℤ m.msg_type msg_request
    then send (short_message msg_reject m.piece) c
    else ok c
answer msg c = do guard (is_ignored msg) peer_error; ok c

unfoldable pub as_data : AnyMessage → Option Bep9Message
as_data (bep9 m) = if eq_ℤ m.msg_type msg_data then some m else none
as_data _ = none

-- The loop that waits for piece `i`.
unfoldable pub await_piece :
    ℕ → ℕ → ℕ → InfoPiecer → PeerConnection → Result (InfoPiecer × PeerConnection)
await_piece depth zero i p c = err out_of_fuel
await_piece depth (suc fuel) i p c = do
  (msg, c') ← receive depth c
  let again = do c'' ← answer msg c'; await_piece depth fuel i p c''
  elim (as_data msg) [ some m ↦ (do p' ← accept_piece i m p; ok (p', c')) | none ↦ again ]

-- `for i in range(…)`, from `i` on with `n` pieces left.
unfoldable pub fetch_pieces :
    ℕ → ℕ → ℕ → InfoPiecer → PeerConnection → Result (InfoPiecer × PeerConnection)
fetch_pieces depth zero i p c = ok (p, c)
fetch_pieces depth (suc n) i p c = do
  c' ← send (short_message msg_request (pos i)) c
  (p', c'') ← await_piece depth (suc (length c'.incoming)) i p c'
  fetch_pieces depth n (i + 1) p' c''

-- `except UnbencodeError as e: conn.error(…)`; any other error goes on up.
unfoldable pub catch_bad_info {ℓ} : {A : Type ℓ} → Result A → Result A
catch_bad_info (err (unbencode_error m)) = err peer_error
catch_bad_info r = r

-- `if not isinstance(info, dict): conn.error(…)`
unfoldable pub info_dict : Value → Result Fields
info_dict (dict d) = ok d
info_dict _ = err peer_error

module _ (sha1 : Bytes → Bytes) where
  -- The digest is compared and the data decoded.
  unfoldable pub validate : ℕ → InfoPiecer → PeerConnection → Result Fields
  validate depth p c = do
    guard (eq_bytes c.info_hash (sha1 p.hashed)) peer_error
    v ← catch_bad_info (unbencode depth p.contents)
    info_dict v

  -- `get_metadata_info` from `InfoPiecer(…)` on.
  unfoldable pub request_info : ℕ → ℤ → PeerConnection → Result (Fields × PeerConnection)
  unfolding validate
  request_info depth size c = do
    let info_piecer = InfoPiecer.new size
    (p, c') ← fetch_pieces depth (piece_qty info_piecer) 0 info_piecer c
    info ← validate depth p c'
    ok (info, c')

  -- get_metadata_info
  unfoldable pub get_metadata_info : ℕ → PeerConnection → Result (Fields × PeerConnection)
  unfolding request_info
  get_metadata_info depth c = do
    (handshake, c') ← await_handshake depth (suc (length c.incoming)) c
    registry ← extensions handshake
    let conn = record c' { remote_bep10_registry = registry }
    guard (contains registry metadata) peer_error
    size ← require (metadata_size handshake)
    request_info depth size conn
