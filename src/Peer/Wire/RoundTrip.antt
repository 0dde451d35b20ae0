-- ===== src/Peer/Wire/RoundTrip.antt =====
-- `decode_message` of src/demagnetize/peer/messages.py on the BEP 9 messages that `encode_message` wrote.
use demagnetize.Prelude.{
  ℕ, ◌+◌, ◌^◌, ◌≤◌, ◌<◌, ◌≡◌, refl, true, Option, none, some, arith, Bytes, codes, length,
}
use demagnetize.Prelude.Int.{ℤ, pos, eq_ℤ}
use demagnetize.Prelude.Order.{lt_bytes, eq_bytes}
use demagnetize.Prelude.Dict.{lookup}
use demagnetize.Errors.{ok}
use demagnetize.Bencode.Value.{int, dict, get, set, nesting, IsCanonical}
use demagnetize.Bencode.RoundTrip.{partial_unbencode-bencode}
use demagnetize.Peer.Extensions.{metadata, eq_extension, Bep10Registry}
use demagnetize.Peer.Message.{extended}
use demagnetize.Peer.Message.RoundTrip.{parse-message_bytes}
use demagnetize.Peer.Extended.{
  Bep9Message, parse_bep9, bep9_fields, bep9_payload, bep9_to_extended, catch_unbencode, as_dict,
  require_int, optional_int, is_trailing_valid,
}
use demagnetize.Peer.Wire.{
  bep9, parse_extension, decompose, decompose_message, decode_message, to_message, encode_message,
}

bep9_fields-IsCanonical :
    (m : Bep9Message) (s : Option ℤ)
    → m.total_size ≡ s
    → IsCanonical (dict (bep9_fields m)) × (nesting (dict (bep9_fields m)) ≤ 2)
unfolding bep9_fields IsCanonical nesting set eq_bytes lt_bytes
bep9_fields-IsCanonical m none e = rw e (((refl, (refl, tt)), (tt, (tt, tt))), omega arith)
bep9_fields-IsCanonical m (some n) e =
    rw e (((refl, (refl, (refl, tt))), (tt, (tt, (tt, tt)))), omega arith)

bep9_fields-get :
    (m : Bep9Message) (s : Option ℤ)
    → m.total_size ≡ s
    → (get (bep9_fields m) (codes "msg_type") ≡ some (int m.msg_type))
      × (get (bep9_fields m) (codes "piece") ≡ some (int m.piece))
      × (optional_int (get (bep9_fields m) (codes "total_size")) ≡ ok m.total_size)
unfolding bep9_fields get set eq_bytes optional_int
bep9_fields-get m none e = rw e (refl, refl, refl)
bep9_fields-get m (some n) e = rw e (refl, refl, refl)

-- A `Bep9Message` is read back from its payload, the bytes behind its dict included.
pub parse_bep9-bep9_payload :
    (m : Bep9Message) (depth : ℕ)
    → 2 ≤ depth
    → is_trailing_valid m.msg_type m.payload ≡ true
    → parse_bep9 depth (bep9_payload m) ≡ ok m
unfolding parse_bep9 bep9_payload catch_unbencode as_dict require_int
parse_bep9-bep9_payload m depth h valid =
    let (canonical, shallow) = bep9_fields-IsCanonical m m.total_size refl in
    let (t, p, s) = bep9_fields-get m m.total_size refl in
    rw (
      partial_unbencode-bencode (dict (bep9_fields m)) depth m.payload canonical (omega arith),
      t,
      p,
      s,
      valid,
    )

decompose-extension :
    (depth code : ℕ) (r : Bep10Registry) (payload : Bytes)
    → 0 < code
    → decompose depth r (pos code) payload
      ≡ parse_extension depth (lookup eq_ℤ (pos code) r.from_code) payload
unfolding decompose
decompose-extension depth code r payload h = ground arith

-- A `Bep9Message` that obeys the rule on trailing bytes, sent under the code that the registry has for
-- its extension, is put on the wire and decoded to itself, if the code is a byte other than 0, the
-- registry knows the extension by it, the message fits behind a length of four bytes, and the
-- interpreter takes two nested calls.
pub decode_message-encode_message :
    (m : Bep9Message) (r : Bep10Registry) (code depth : ℕ)
    → lookup eq_extension metadata r.to_code ≡ some (pos code)
    → lookup eq_ℤ (pos code) r.from_code ≡ some metadata
    → 0 < code
    → code < 256
    → is_trailing_valid m.msg_type m.payload ≡ true
    → 2 + length (bep9_payload m) < 256 ^ 4
    → 2 ≤ depth
    → (blob : Bytes) × (encode_message (bep9 m) r ≡ ok blob)
      × (decode_message depth blob r ≡ ok (bep9 m))
unfolding encode_message to_message bep9_to_extended decode_message decompose_message
    parse_extension
decode_message-encode_message m r code depth to from positive byte valid fits deep =
    let (blob, written, _, read) =
      parse-message_bytes (extended (pos code) (bep9_payload m)) (byte, fits) in
    (
      blob,
      rw (to, written),
      rw (
        read,
        decompose-extension depth code r (bep9_payload m) positive,
        from,
        parse_bep9-bep9_payload m depth deep valid,
      ),
    )
