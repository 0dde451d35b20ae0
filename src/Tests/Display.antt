-- ===== src/Tests/Display.antt =====
-- What is logged of messages and peers, at concrete inputs.
use demagnetize.Prelude.{◌≡◌, refl, none, [], ◌∷◌, codes}
use demagnetize.Prelude.Int.{pos}
use demagnetize.Prelude.Bits.{test_bit}
use demagnetize.Prelude.Decimal.{decimal}
use demagnetize.Bencode.Value.{get}
use demagnetize.Bencode.Encode.{print_int}
use demagnetize.Prelude.Order.{eq_bytes}
use demagnetize.Bencode.Value.{bytes, int, dict, end, field}
use demagnetize.Peer.Message.{have_all, bitfield, request, piece}
use demagnetize.Peer.Extended.{ExtendedHandshake, get_bytes}
use demagnetize.Peer.Display.{
  have_amount, message_text, extension_names, handshake_text, bep10_names, bep9_text, peer_text,
}

message_text_runs :
    (message_text have_all ≡ codes "have all")
    × (message_text (bitfield (0x81 ∷ 0xF0 ∷ [])) ≡ codes "have 6 pieces")
    × (message_text (request 3 0 16384) ≡ codes "request piece 3, offset 0, length 16384")
    × (message_text (piece 3 0 (codes "abc")) ≡ codes "piece 3, offset 0, length 3")
unfolding message_text have_amount test_bit decimal
message_text_runs = (refl, refl, refl, refl)

extension_names_runs :
    extension_names (20 ∷ 2 ∷ 9 ∷ []) ≡ codes "FAST" ∷ codes "9" ∷ codes "BEP10_EXTENSIONS" ∷ []
unfolding extension_names decimal
extension_names_runs = refl

abbrev a_handshake : ExtendedHandshake
a_handshake = record {
  contents =
      field (codes "m")
        (dict
          (field (codes "ut_metadata") (int (pos 3)) (field (codes "ut_pex") (int (pos 1)) end)))
        (field (codes "v") (bytes (codes "abc")) end);
}

handshake_text_runs :
    (handshake_text (λ b. b) a_handshake
      ≡ codes "BEP 10 extended handshake; extensions: ut_metadata, ut_pex; client: abc")
    × (handshake_text (λ b. b) (record { contents = field (codes "m") (dict end) end })
        ≡ codes "BEP 10 extended handshake; extensions: <none>")
unfolding handshake_text bep10_names get get_bytes eq_bytes
handshake_text_runs = (refl, refl)

peer_text_runs :
    (peer_text (record { host = codes "10.0.0.1"; port = pos 6881; id = none })
      ≡ codes "<Peer 10.0.0.1:6881>")
    × (peer_text (record { host = codes "::1"; port = pos 80; id = none })
        ≡ codes "<Peer [::1]:80>")
    × (bep9_text (record { msg_type = pos 1; piece = pos 0; total_size = none; payload = [] })
        ≡ codes "ut_metadata message (DATA piece 0)")
unfolding peer_text bep9_text print_int decimal
peer_text_runs = (refl, refl, refl)
