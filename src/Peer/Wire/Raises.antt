-- ===== src/Peer/Wire/Raises.antt =====
-- The exceptions of `decode_message` and `encode_message` of src/demagnetize/peer/messages.py.
use demagnetize.Prelude.{ℕ, ◌≤◌, ◌≡◌, refl, true, Option, none, some, Bytes, codes, length, arith}
use demagnetize.Prelude.Int.{ℤ, pos, negsuc, eq_ℤ}
use demagnetize.Prelude.Dict.{lookup}
use demagnetize.Errors.{
  Error, Result, ok, err, unbencode_error, value_error, is_value_error, Yields, returns, raises,
  Yields-if, Yields->>=, Yields-guard, Yields-err,
}
use demagnetize.Bencode.Value.{Value, int, dict, get}
use demagnetize.Bencode.Decode.{unbencode, partial_unbencode}
use demagnetize.Bencode.Sound.{partial_unbencode-Yields, unbencode-eq-err}
use demagnetize.Struct.{byte}
use demagnetize.Peer.Extensions.{Bep10Extension, metadata, pex, eq_extension, Bep10Registry}
use demagnetize.Peer.Message.{Message, extended, parse, to_payload, message_bytes}
use demagnetize.Peer.Message.Raises.{parse-eq-err}
use demagnetize.Peer.Extended.{
  Bep9Message, parse_handshake, parse_bep9, bep9_to_extended, catch_unbencode, as_dict, is_dict,
  require_int, optional_int, is_trailing_valid,
}
use demagnetize.Peer.Wire.{
  bep9, parse_extension, decompose, decompose_message, decode_message, to_message, encode_message,
}

-- A run that returns, or raises a `ValueError` proper.
abbrev RaisesOnly {ℓ} : {A : Type ℓ} → Result A → Type ℓ
RaisesOnly r = Yields (λ _. Unit {0}) (λ e. e ≡ value_error) r

from_err {ℓ} :
    {A : Type ℓ} (r : Result A) → ((e : Error) → r ≡ err e → e ≡ value_error) → RaisesOnly r
from_err (ok a) h = returns tt
from_err (err e) h = raises (h e refl)

catch_unbencode-RaisesOnly {ℓ} :
    {A : Type ℓ} (r : Result A)
    → ((e : Error) → r ≡ err e → is_value_error e ≡ true)
    → RaisesOnly (catch_unbencode r)
unfolding catch_unbencode
catch_unbencode-RaisesOnly (ok a) h = returns tt
catch_unbencode-RaisesOnly (err (unbencode_error m)) h = raises refl
catch_unbencode-RaisesOnly (err value_error) h = raises refl
catch_unbencode-RaisesOnly (err e) h = cc (h _ refl)

as_dict-RaisesOnly : (v : Value) → RaisesOnly (as_dict v)
unfolding as_dict
as_dict-RaisesOnly (dict d) = returns tt
as_dict-RaisesOnly _ = raises refl

require_int-RaisesOnly : (v : Option Value) → RaisesOnly (require_int v)
unfolding require_int
require_int-RaisesOnly (some (int i)) = returns tt
require_int-RaisesOnly _ = raises refl

optional_int-RaisesOnly : (v : Option Value) → RaisesOnly (optional_int v)
unfolding optional_int
optional_int-RaisesOnly none = returns tt
optional_int-RaisesOnly (some (int i)) = returns tt
optional_int-RaisesOnly (some _) = raises refl

parse_handshake-RaisesOnly :
    (depth : ℕ) (payload : Bytes) → RaisesOnly (parse_handshake depth payload)
unfolding parse_handshake
parse_handshake-RaisesOnly depth payload =
    Yields->>=
      (catch_unbencode-RaisesOnly (unbencode depth payload) (unbencode-eq-err depth payload))
      λ v _.
        Yields->>= (as_dict-RaisesOnly v)
          λ d _. Yields-guard (is_dict (get d (codes "m"))) value_error refl λ _. returns tt

parse_bep9-RaisesOnly : (depth : ℕ) (payload : Bytes) → RaisesOnly (parse_bep9 depth payload)
unfolding parse_bep9
parse_bep9-RaisesOnly depth payload =
    Yields->>=
      (catch_unbencode-RaisesOnly (partial_unbencode depth payload)
        λ e. Yields-err (partial_unbencode-Yields depth payload))
      λ (v, trailing) _. Yields->>= (as_dict-RaisesOnly v) λ d _.
        Yields->>= (require_int-RaisesOnly (get d (codes "msg_type"))) λ t _.
          Yields->>= (require_int-RaisesOnly (get d (codes "piece"))) λ p _.
            Yields->>= (optional_int-RaisesOnly (get d (codes "total_size")))
              λ s _. Yields-guard (is_trailing_valid t trailing) value_error refl λ _. returns tt

parse_extension-RaisesOnly :
    (depth : ℕ) (ext : Option Bep10Extension) (payload : Bytes)
    → RaisesOnly (parse_extension depth ext payload)
unfolding parse_extension
parse_extension-RaisesOnly depth (some metadata) payload =
    Yields->>= (parse_bep9-RaisesOnly depth payload) λ m _. returns tt
parse_extension-RaisesOnly depth (some pex) payload = raises refl
parse_extension-RaisesOnly depth none payload = raises refl

decompose-RaisesOnly :
    (depth : ℕ) (r : Bep10Registry) (m : Message) → RaisesOnly (decompose_message depth r m)
unfolding decompose_message decompose
decompose-RaisesOnly depth r (extended msg_id payload) =
    Yields-if (eq_ℤ msg_id (pos 0))
      (λ _. Yields->>= (parse_handshake-RaisesOnly depth payload) λ h _. returns tt)
      λ _. parse_extension-RaisesOnly depth (lookup eq_ℤ msg_id r.from_code) payload
decompose-RaisesOnly depth r _ = returns tt

-- On a frame of five bytes or more `decode_message` raises nothing but a `ValueError`, which
-- `PeerConnection.receive` catches.
pub decode_message-eq-err :
    (depth : ℕ) (blob : Bytes) (r : Bep10Registry) (e : Error)
    → 5 ≤ length blob
    → decode_message depth blob r ≡ err e
    → e ≡ value_error
unfolding decode_message
decode_message-eq-err depth blob r e long = Yields-err (
    Yields->>= (from_err (parse blob) (λ e. parse-eq-err blob e long))
      λ m _. decompose-RaisesOnly depth r m)

abbrev pub IsNoByte : ℤ → Type 0
IsNoByte (pos n) = 256 ≤ n
IsNoByte (negsuc n) = Unit

byte-IsNoByte : (code : ℤ) → IsNoByte code → byte code ≡ err value_error
unfolding byte
byte-IsNoByte (pos n) h = ground arith
byte-IsNoByte (negsuc n) h = refl

-- A `Bep9Message` cannot be encoded for a registry whose code for its extension is no byte: a
-- `ValueError` is raised.
pub encode_message-IsNoByte :
    (m : Bep9Message) (r : Bep10Registry) (code : ℤ)
    → lookup eq_extension metadata r.to_code ≡ some code
    → IsNoByte code
    → encode_message (bep9 m) r ≡ err value_error
unfolding encode_message to_message bep9_to_extended message_bytes to_payload
encode_message-IsNoByte m r code to h = rw (to, byte-IsNoByte code h)
