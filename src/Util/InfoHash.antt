-- ===== src/Util/InfoHash.antt =====
-- `InfoHash` of src/demagnetize/util.py. A text is the list of its characters' code points.
use demagnetize.Prelude.{
  ℕ, zero, suc, ◌+◌, ◌-◌, ◌*◌, ◌/◌, ◌%◌, ◌^◌, ◌<◌, ◌≡◌, refl, Bool, true, false, ◌&&◌, ◌||◌, Option,
  some, List, [], ◌∷◌, ◌++◌, Bytes, IsBytes, length, take, drop, arith, leb, ◌==◌, if◌then◌else◌,
}
use demagnetize.Prelude.BigEndian.{big_endian}
use demagnetize.Prelude.Hex.{
  hex_digit, hex_value, hex, length-hex, hex_value-hex_digit, hex_digit_range,
}
use demagnetize.Errors.{Result, ok, err, ◌>>=◌, ◌>>◌, guard, value_error}
use demagnetize.Peer.Handshake.{info_hash_from_bytes}

pub record InfoHash : Type 0 where
  pub as_str : List ℕ
  pub as_bytes : Bytes

-- The white space that bytes.fromhex passes over.
abbrev pub is_ascii_space : ℕ → Bool
is_ascii_space c = c == 32 || leb 9 c && leb c 13

abbrev pub hex_pair : Option ℕ → Option ℕ → Result Bytes → Result Bytes
hex_pair (some high) (some low) rest = rest >>= λ bs. ok ((high * 16 + low) ∷ bs)
hex_pair _ _ rest = err value_error

-- bytes.fromhex: pairs of digits, with white space between the pairs.
unfoldable pub fromhex : List ℕ → Result Bytes
fromhex [] = ok []
fromhex (c ∷ []) = if is_ascii_space c then ok [] else err value_error
fromhex (c ∷ d ∷ cs) = elim (is_ascii_space c) [
  | true ↦ fromhex (d ∷ cs)
  | false ↦ hex_pair (hex_value c) (hex_value d) (fromhex cs)
]

-- A digit to the base 32.
abbrev pub b32_value : ℕ → Result ℕ
b32_value c =
    if leb b'A' c && leb c b'Z'
    then ok (c - b'A')
    else if leb b'2' c && leb c b'7'
    then ok (c - b'2' + 26)
    else err value_error

abbrev pub b32_quantum : ℕ → List ℕ → Result ℕ
b32_quantum acc [] = ok acc
b32_quantum acc (c ∷ cs) = b32_value c >>= λ d. b32_quantum (acc * 32 + d) cs

-- The loop of base64.b32decode, over so many quanta: the bytes, and the number in the last quantum.
unfoldable pub b32_quanta : ℕ → Bytes → ℕ → List ℕ → Result (Bytes × ℕ)
b32_quanta zero decoded acc s = ok (decoded, acc)
b32_quanta (suc n) decoded acc s = do
  quantum ← b32_quantum 0 (take 8 s)
  b32_quanta n (decoded ++ big_endian 5 quantum) quantum (drop 8 s)

-- How many "=" a text ends with.
abbrev pub padding : List ℕ → ℕ
padding [] = 0
padding (c ∷ cs) =
    let rest = padding cs in if rest == length cs && c == b'=' then suc rest else rest

-- base64.b32decode
unfoldable pub b32decode : List ℕ → Result Bytes
b32decode s = do
  guard (length s % 8 == 0) value_error
  let pad = padding s
  let digits = take (length s - pad) s
  (decoded, acc) ← b32_quanta ((length digits + 7) / 8) [] 0 digits
  guard (pad == 0 || pad == 1 || pad == 3 || pad == 4 || pad == 6) value_error
  (if pad == 0
      then ok decoded
      else ok (
          take (length decoded - 5) decoded
          ++ take ((43 - 5 * pad) / 8) (big_endian 5 (acc * 32 ^ pad))))

-- InfoHash.from_string
unfoldable pub from_string : List ℕ → Result InfoHash
from_string s = do
  b ← if length s == 40 then fromhex s else if length s == 32 then b32decode s else err value_error
  ok (record { as_str = s; as_bytes = b })

-- InfoHash.from_bytes
abbrev pub from_hash_bytes : Bytes → Result InfoHash
from_hash_bytes b = info_hash_from_bytes b >>= λ b. ok (record { as_str = hex b; as_bytes = b })

-- as_hex
abbrev pub as_hex : InfoHash → List ℕ
as_hex h = hex h.as_bytes

hex_digit_no_space : (d : ℕ) → d < 16 → is_ascii_space (hex_digit d) ≡ false
hex_digit_no_space d h = ground (arith, hex_digit_range d h)

fromhex_pair :
    (c d : ℕ) (cs : List ℕ)
    → is_ascii_space c ≡ false
    → fromhex (c ∷ d ∷ cs) ≡ hex_pair (hex_value c) (hex_value d) (fromhex cs)
unfolding fromhex
fromhex_pair c d cs h = rw (fromhex, h) refl

fromhex-hex : (b : Bytes) → IsBytes b → fromhex (hex b) ≡ ok b
unfolding fromhex hex
fromhex-hex [] h = refl
fromhex-hex (b ∷ bs) (h, hs) =
    let high : hex_value (hex_digit (b / 16)) ≡ some (b / 16) =
      hex_value-hex_digit (b / 16) (omega arith) in
    let low : hex_value (hex_digit (b % 16)) ≡ some (b % 16) =
      hex_value-hex_digit (b % 16) (omega arith) in
    let whole : (b / 16) * 16 + b % 16 ≡ b = omega arith in
    cc (
      fromhex_pair (hex_digit (b / 16)) (hex_digit (b % 16)) (hex bs)
          (hex_digit_no_space (b / 16) (omega arith)),
      high,
      low,
      fromhex-hex bs hs,
      whole,
    )

-- The 20 bytes of a hash are read back from their hexadecimal form, and have that form.
pub from_string-hex :
    (b : Bytes)
    → IsBytes b
    → length b ≡ 20
    → (from_string (hex b) ≡ from_hash_bytes b)
      × (from_string (hex b) ≡ ok (record { as_str = hex b; as_bytes = b }))
unfolding from_string info_hash_from_bytes
from_string-hex b h n =
    let long : length (hex b) ≡ 40 = omega (arith, length-hex b, n) in
    (rw (long, n, fromhex-hex b h) refl, rw (long, fromhex-hex b h) refl)
