-- ===== src/Peer/Contact/Raised.antt =====
-- The exceptions of `Peer.get_info` of src/demagnetize/peer/core.py.
use demagnetize.Prelude.{
  ℕ, ◌^◌, ◌≡◌, refl, true, none, some, Bytes, length, take, drop, ltb, leb, ◌==◌,
}
use demagnetize.Prelude.Int.{pos}
use demagnetize.Prelude.Order.{eq_bytes}
use demagnetize.Prelude.Bits.{elem, set_bits}
use demagnetize.Errors.{
  Error, Result, ok, err, unbencode_error, value_error, peer_error, overflow_error, os_error,
  timeout_error, Yields, returns, raises, Yields->>=, Yields-if, Yields-guard, Yields-widen,
}
use demagnetize.Struct.{encode_uint}
use demagnetize.Peer.Extensions.{bep10_extensions, fast}
use demagnetize.Peer.Message.{message_bytes, to_payload}
use demagnetize.Peer.Extended.{make, ExtendedHandshake, handshake_to_extended}
use demagnetize.Peer.Handshake.{Handshake, handshake_parse, handshake_bytes, info_hash_from_bytes}
use demagnetize.Peer.Wire.{extended_handshake, encode_message, to_message}
use demagnetize.Peer.Connection.{
  PeerConnection, send_frame, send, read, catch_value_error, local_bep10_registry,
}
use demagnetize.Peer.Connection.Handshake.{
  handshake, accept, send_have_none, common, supported_extensions,
}
use demagnetize.Peer.Metadata.Pieces.{IsRaised, extended-Yields}
use demagnetize.Peer.Metadata.Sound.{get_metadata_info-Yields}
use demagnetize.Peer.Contact.{Socket, is_os_error, catch_os_error, connect, get_info}

abbrev pub Raises {ℓ} : {A : Type ℓ} → Result A → Type ℓ
Raises r = Yields (λ _. Unit {0}) IsRaised r

send_frame-Raises : (frame : Bytes) (c : PeerConnection) → Raises (send_frame frame c)
unfolding send_frame
send_frame-Raises frame c = Yields-if (c.accepts == 0) (λ _. raises refl) λ _. returns tt

send_handshake-Raises :
    (h : ExtendedHandshake) (c : PeerConnection) → Raises (send (extended_handshake h) c)
unfolding send encode_message to_message handshake_to_extended
send_handshake-Raises h c =
    Yields->>= (extended-Yields (pos 0) _) λ frame _. send_frame-Raises frame c

send_have_none-Raises : (c : PeerConnection) → Raises (send_have_none c)
unfolding send_have_none send encode_message to_message message_bytes to_payload encode_uint
send_have_none-Raises c =
    Yields-if (elem fast c.extensions) (λ _. send_frame-Raises _ c) λ _. returns tt

read-Raises : (n : ℕ) (c : PeerConnection) → Raises (read n c)
unfolding read
read-Raises n c = Yields-if (leb n (length c.incoming)) (λ _. returns tt) λ _. raises refl

catch_value_error-Raises {ℓ} : {A : Type ℓ} (r : Result A) → Raises r → Raises (catch_value_error r)
unfolding catch_value_error
catch_value_error-Raises (ok a) y = returns tt
catch_value_error-Raises (err (unbencode_error m)) y = raises refl
catch_value_error-Raises (err value_error) y = raises refl
catch_value_error-Raises (err e) y = y

encode_uint-Raises : (e : Error) (w n : ℕ) → IsRaised e → Raises (encode_uint e w n)
unfolding encode_uint
encode_uint-Raises e w n h = Yields-if (ltb n (256 ^ w)) (λ _. returns tt) λ _. raises h

handshake_bytes-Raises : (h : Handshake) → Raises (handshake_bytes h)
unfolding handshake_bytes
handshake_bytes-Raises h =
    Yields->>= (encode_uint-Raises overflow_error 8 (set_bits 0 h.extensions) refl)
      λ exts _. returns tt

handshake_parse-Raises : (blob : Bytes) → Raises (handshake_parse blob)
unfolding handshake_parse info_hash_from_bytes
handshake_parse-Raises blob = Yields-guard (length blob == 68) value_error refl λ _.
    Yields-guard (eq_bytes (take 20 blob) _) value_error refl λ _.
      Yields->>= {P = λ _. Unit {0}}
        (Yields-guard (length (take 20 (drop 28 blob)) == 20) value_error refl λ _. returns tt)
        λ hash _. returns tt

accept-Raises : (client : Bytes) (hs : Handshake) (c : PeerConnection) → Raises (accept client hs c)
unfolding accept
accept-Raises client hs c =
    let conn = record c { extensions = common supported_extensions hs.extensions } in
    Yields-guard (eq_bytes hs.info_hash c.info_hash) peer_error refl λ _.
      Yields-guard (elem bep10_extensions conn.extensions) peer_error refl λ _.
        Yields->>= (send_handshake-Raises (make local_bep10_registry (some client) none) conn)
          λ c' _. send_have_none-Raises c'

handshake-Raises :
    (peer_id client : Bytes) (c : PeerConnection) → Raises (handshake peer_id client c)
unfolding handshake
handshake-Raises peer_id client c = Yields->>= (handshake_bytes-Raises _) λ frame _.
    Yields->>= (send_frame-Raises frame c) λ c' _. Yields->>= (read-Raises _ c') λ (r, c'') _.
      Yields->>= (catch_value_error-Raises (handshake_parse r) (handshake_parse-Raises r))
        λ hs _. accept-Raises client hs c''

catch_os_error-Raises {ℓ} : {A : Type ℓ} {r : Result A} → Raises r → Raises (catch_os_error r)
catch_os_error-Raises (returns h) = returns tt
catch_os_error-Raises (raises {e} h) = Yields-if (is_os_error e) (λ _. raises refl) λ _. raises h

is_os_error-IsRaised : (e : Error) → is_os_error e ≡ true → IsRaised e
is_os_error-IsRaised os_error h = refl
is_os_error-IsRaised timeout_error h = refl
is_os_error-IsRaised e h = cc

-- If opening the socket raises nothing but OSErrors and TimeoutErrors, get_info ends, whatever the peer
-- sends, with an info or an exception of the program.
pub get_info-Raises :
    (sha1 : Bytes → Bytes) (depth : ℕ) (peer_id client info_hash : Bytes) (opened : Result Socket)
    → Yields (λ _. Unit {0}) (λ e. is_os_error e ≡ true) opened
    → Raises (get_info sha1 depth peer_id client info_hash opened)
unfolding get_info connect
get_info-Raises sha1 depth peer_id client info_hash opened h = catch_os_error-Raises (
    Yields->>=
      (Yields->>= (Yields-widen IsRaised is_os_error-IsRaised h)
        λ s _. handshake-Raises peer_id client _)
      λ c _. Yields->>= (get_metadata_info-Yields sha1 depth c) λ (info, c') _. returns tt)
