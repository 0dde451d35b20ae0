-- ===== src/Peer/Metadata/Frames.antt =====
-- What `get_metadata_info` of src/demagnetize/peer/core.py receives first, and the request that it sends.
use demagnetize.Prelude.{
  ℕ, ◌+◌, ◌-◌, ◌^◌, ◌≤◌, ◌<◌, ◌≡◌, refl, sym, ap, ◌∙◌, false, none, some, [], ◌∷◌, ◌++◌, Bytes,
  codes, arith, length, take, drop, take-append, drop-append, le→leb, length-take, length-drop,
  take-append-drop, ◌==◌, length-append_bytes, append_assoc, append-nil,
}
use demagnetize.Prelude.Int.{pos}
use demagnetize.Prelude.Order.{lt_bytes}
use demagnetize.Prelude.BigEndian.{from_bytes}
use demagnetize.Prelude.Decimal.{decimal, length-decimal}
use demagnetize.Prelude.Dict.{lookup}
use demagnetize.Errors.{ok}
use demagnetize.Bencode.Value.{set}
use demagnetize.Bencode.Encode.{bencode, bencode_bytes, print_int, join, sort_keys}
use demagnetize.Peer.Extensions.{metadata, eq_extension}
use demagnetize.Peer.Message.{extended}
use demagnetize.Peer.Message.RoundTrip.{parse-message_bytes}
use demagnetize.Peer.Extended.{
  Bep9Message, msg_request, msg_data, bep9_fields, bep9_payload, bep9_to_extended, code_of,
}
use demagnetize.Peer.Wire.{AnyMessage, bep9, to_message, encode_message, decode_message}
use demagnetize.Peer.Connection.{
  PeerConnection, send_frame, send, read, catch_value_error, receive_payload, receive_loop, receive,
  local_bep10_registry, max_peer_msg_len,
}

-- Bytes that a peer sends for a message: its length, which is neither 0 nor too large, and what
-- decodes to it.
pub record IsFrame (depth : ℕ) (frame : Bytes) (msg : AnyMessage) : Type 0 where
  pub announced : from_bytes (take 4 frame) + 4 ≡ length frame
  pub some_length : 4 < length frame
  pub not_large : length frame ≤ max_peer_msg_len + 4
  pub decoded : decode_message depth frame local_bep10_registry ≡ ok msg

read-front :
    (n : ℕ) (a b : Bytes) (c : PeerConnection)
    → c.incoming ≡ a ++ b
    → length a ≡ n
    → read n c ≡ ok (a, record c { incoming = b })
unfolding read
read-front n a b c e len = rw (
  e,
  le→leb n (length (a ++ b)) (omega (arith, length-append_bytes a b)),
  take-append n a b len,
  drop-append n a b len,
)

-- A frame at the front of the stream is received.
pub receive-frame :
    (depth : ℕ) (frame rest : Bytes) (msg : AnyMessage) (c : PeerConnection)
    → IsFrame depth frame msg
    → c.incoming ≡ frame ++ rest
    → receive depth c ≡ ok (msg, record c { incoming = rest })
unfolding receive receive_loop receive_payload catch_value_error
receive-frame depth frame rest msg c is e =
    let whole : take 4 frame ++ drop 4 frame ≡ frame = take-append-drop 4 frame in
    let e' : c.incoming ≡ take 4 frame ++ (drop 4 frame ++ rest) =
      e ∙ (ap (λ f. f ++ rest) (sym whole) ∙ append_assoc (take 4 frame) (drop 4 frame) rest) in
    let is_some : (from_bytes (take 4 frame) == 0) ≡ false =
      ground (arith, is.announced, is.some_length) in
    rw (
      read-front 4 (take 4 frame) (drop 4 frame ++ rest) c e' (omega (arith, length-take 4 frame)),
      le→leb (from_bytes (take 4 frame)) max_peer_msg_len
          (omega (arith, is.announced, is.not_large)),
      is_some,
      read-front (from_bytes (take 4 frame)) (drop 4 frame) rest
          (record c { incoming = drop 4 frame ++ rest }) refl
          (omega (arith, length-drop 4 frame, is.announced)),
      whole,
      is.decoded,
    )

-- The data message for piece `i` of an info of `size` bytes.
abbrev pub data_message : ℕ → ℕ → Bytes → Bep9Message
data_message size i chunk = record {
  msg_type = msg_data;
  piece = pos i;
  total_size = some (pos size);
  payload = chunk;
}

abbrev pub request_message : ℕ → Bep9Message
request_message i = record {
  msg_type = msg_request;
  piece = pos i;
  total_size = none;
  payload = [];
}

request_message-layout :
    (i : ℕ)
    → bep9_payload (request_message i)
      ≡ codes "d8:msg_typei0e5:piecei" ++ (decimal i ++ b'e' ∷ b'e' ∷ [])
unfolding bep9_payload bep9_fields set bencode bencode_bytes print_int join sort_keys lt_bytes
    decimal
request_message-layout i =
    ap (λ t. codes "d8:msg_typei0e5:piecei" ++ t)
      (append-nil _
        ∙ (ap (λ t. t ++ b'e' ∷ []) (append-nil (decimal i ++ b'e' ∷ []))
            ∙ append_assoc (decimal i) (b'e' ∷ []) (b'e' ∷ [])))

length-request_message :
    (i : ℕ) → length (bep9_payload (request_message i)) ≡ 24 + length (decimal i)
length-request_message i =
    rw (request_message-layout i)
      (omega (arith, length-append_bytes (decimal i) (b'e' ∷ b'e' ∷ [])))

-- A request is sent: what the peer sends, the torrent and the peer's codes stay as they were.
pub record IsSent (c c' : PeerConnection) : Type 0 where
  pub same_incoming : c'.incoming ≡ c.incoming
  pub same_hash : c'.info_hash ≡ c.info_hash
  pub same_registry : c'.remote_bep10_registry ≡ c.remote_bep10_registry
  pub left : c'.accepts + 1 ≡ c.accepts

pub send-request_message :
    (i code : ℕ) (c : PeerConnection)
    → lookup eq_extension metadata c.remote_bep10_registry.to_code ≡ some (pos code)
    → code < 256
    → i < 2 ^ 31
    → 0 < c.accepts
    → (c' : PeerConnection) × (send (bep9 (request_message i)) c ≡ ok c') × IsSent c c'
unfolding send send_frame encode_message to_message bep9_to_extended code_of
send-request_message i code c to byte small more =
    let (blob, written, _, _) =
      parse-message_bytes (extended (pos code) (bep9_payload (request_message i)))
        (byte, omega (arith, length-request_message i, length-decimal i)) in
    let open_still : (c.accepts == 0) ≡ false = ground arith in
    (
      record c { outgoing = c.outgoing ++ blob ∷ []; accepts = c.accepts - 1 },
      rw (to, written, open_still),
      record { same_incoming = refl; same_hash = refl; same_registry = refl; left = omega arith },
    )
