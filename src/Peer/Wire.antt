-- ===== src/Peer/Wire.antt =====
-- src/demagnetize/peer/messages.py: `Extended.decompose`, `decode_message` and `encode_message`.
pub mod RoundTrip
pub mod Raises
use demagnetize.Prelude.{
  ℕ, ◌≡◌, refl, Bool, true, false, Option, none, some, List, [], ◌∷◌, Bytes, if◌then◌else◌,
}
use demagnetize.Prelude.Int.{ℤ, pos, eq_ℤ}
use demagnetize.Prelude.Dict.{lookup}
use demagnetize.Errors.{Error, Result, ok, err, ◌>>=◌, value_error}
use demagnetize.Peer.Extensions.{Bep10Extension, metadata, pex, Bep10Registry}
use demagnetize.Peer.Message.{Message, extended, message_bytes, parse}
use demagnetize.Peer.Extended.{
  ExtendedHandshake, parse_handshake, handshake_to_extended, Bep9Message, parse_bep9,
  bep9_to_extended,
}

pub data AnyMessage : Type 0 where
  plain : Message → AnyMessage
  extended_handshake : ExtendedHandshake → AnyMessage
  bep9 : Bep9Message → AnyMessage

-- The class for an extension: `Bep9Message` is the only one.
unfoldable pub parse_extension : ℕ → Option Bep10Extension → Bytes → Result AnyMessage
parse_extension depth (some metadata) payload = do m ← parse_bep9 depth payload; ok (bep9 m)
parse_extension depth (some pex) payload = err value_error
parse_extension depth none payload = err value_error

-- Extended.decompose
unfoldable pub decompose : ℕ → Bep10Registry → ℤ → Bytes → Result AnyMessage
decompose depth r msg_id payload =
    if eq_ℤ msg_id (pos 0)
    then (do h ← parse_handshake depth payload; ok (extended_handshake h))
    else parse_extension depth (lookup eq_ℤ msg_id r.from_code) payload

unfoldable pub decompose_message : ℕ → Bep10Registry → Message → Result AnyMessage
decompose_message depth r (extended msg_id payload) = decompose depth r msg_id payload
decompose_message depth r m = ok (plain m)

-- decode_message
unfoldable pub decode_message : ℕ → Bytes → Bep10Registry → Result AnyMessage
decode_message depth blob r = do msg ← parse blob; decompose_message depth r msg

unfoldable pub to_message : AnyMessage → Bep10Registry → Result Message
to_message (plain m) r = ok m
to_message (extended_handshake h) r = ok (handshake_to_extended h)
to_message (bep9 m) r = bep9_to_extended m r

-- encode_message
unfoldable pub encode_message : AnyMessage → Bep10Registry → Result Bytes
encode_message msg r = do m ← to_message msg r; message_bytes m
