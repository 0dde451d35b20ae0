-- ===== src/Util/Identity.antt =====
-- What the app calls itself by: `Key` and `make_peer_id` of src/demagnetize/util.py.
use demagnetize.Prelude.{
  ℕ, suc, ◌-◌, ◌/◌, ◌%◌, ◌<◌, ◌^◌, ◌≡◌, refl, ap, Bool, true, ◌||◌, ◌&&◌, List, [], ◌∷◌, ◌++◌,
  append_assoc, All, Bytes, codes, length, take, drop, ltb, leb, arith, if◌then◌else◌,
}
use demagnetize.Prelude.Hex.{hex_digit, hex_padded, hex_digits, hex}
use demagnetize.Prelude.BigEndian.{big_endian}
use demagnetize.Errors.{Result, ok, overflow_error}
use demagnetize.Struct.{to_bytes, encode_uint_lem}
use demagnetize.Util.Random.{randrange, choices, length-choices, choices-All}

-- Key.generate
abbrev pub generate_key : ℕ → ℕ
generate_key r = randrange (2 ^ 32) r

-- Key.__bytes__
abbrev pub key_bytes : ℕ → Result Bytes
key_bytes value = to_bytes 4 value

-- Key.__str__: what has more than eight digits is shown with all of them.
abbrev pub key_text : ℕ → Bytes
key_text value = hex_digits (value / 2 ^ 32) (value / 2 ^ 32) ++ hex_padded 8 value

-- PEER_ID_PREFIX
abbrev pub peer_id_prefix : Bytes
peer_id_prefix = codes "-DM-0030-"

-- ascii_letters + digits
abbrev pub letters_digits : Bytes
letters_digits = codes "abcdefghijklmnopqrstuvwxyzABCDEFGHIJKLMNOPQRSTUVWXYZ0123456789"

-- make_peer_id
unfoldable pub make_peer_id : (ℕ → ℕ) → Bytes
make_peer_id draw =
    let s = take 20 peer_id_prefix in
    if ltb (length s) 20 then s ++ choices letters_digits draw (20 - length s) else s

abbrev pub is_alphanumeric : ℕ → Bool
is_alphanumeric c = leb b'a' c && leb c b'z' || leb b'A' c && leb c b'Z' || leb b'0' c && leb c b'9'

-- A peer ID: the client's prefix and then letters and digits, 20 bytes in all.
pub record IsPeerId (b : Bytes) : Type 0 where
  pub prefix : take 9 b ≡ peer_id_prefix
  pub size : length b ≡ 20
  pub rest : All (λ c. is_alphanumeric c ≡ true) (drop 9 b)

abbrev all : (ℕ → Bool) → List ℕ → Bool
all p [] = true
all p (x ∷ xs) = p x && all p xs

and_parts : (a b : Bool) → (a && b) ≡ true → (a ≡ true) × (b ≡ true)
and_parts a b h = (ground (arith, h), ground (arith, h))

all_true : (p : ℕ → Bool) (xs : List ℕ) → all p xs ≡ true → All (λ c. p c ≡ true) xs
all_true p [] h = tt
all_true p (x ∷ xs) h =
    let (here, there) = and_parts (p x) (all p xs) h in (here, all_true p xs there)

pub make_peer_id-IsPeerId : (draw : ℕ → ℕ) → IsPeerId (make_peer_id draw)
unfolding make_peer_id
make_peer_id-IsPeerId draw = record {
  prefix = refl;
  size = omega (arith, length-choices letters_digits draw 11);
  rest =
      choices-All (λ c. is_alphanumeric c ≡ true) letters_digits draw 11
        (all_true is_alphanumeric letters_digits refl) (omega arith);
}

hex-append : (xs ys : Bytes) → hex (xs ++ ys) ≡ hex xs ++ hex ys
unfolding hex
hex-append [] ys = refl
hex-append (x ∷ xs) ys = ap (λ zs. hex_digit (x / 16) ∷ hex_digit (x % 16) ∷ zs) (hex-append xs ys)

-- Two digits more are those of a byte more.
hex_padded-byte :
    (v w n : ℕ)
    → hex_padded v (n / 256) ≡ hex (big_endian w (n / 256))
    → hex_padded (suc (suc v)) n ≡ hex (big_endian (suc w) n)
unfolding hex big_endian
hex_padded-byte v w n h =
    let far : n / 16 / 16 ≡ n / 256 = omega arith in
    let high : n % 256 / 16 ≡ n / 16 % 16 = omega arith in
    let low : n % 256 % 16 ≡ n % 16 = omega arith in
    cc (
      far,
      high,
      low,
      h,
      append_assoc (hex_padded v (n / 256)) (hex_digit (n / 16 % 16) ∷ [])
          (hex_digit (n % 16) ∷ []),
      hex-append (big_endian w (n / 256)) (n % 256 ∷ []),
    )

-- A key below 2 ^ 32 has four bytes, and its text, which HTTP trackers are told, is their hexadecimal
-- form, which UDP trackers are told.
pub key_text-key_bytes :
    (value : ℕ) → value < 2 ^ 32 → (b : Bytes) × (key_bytes value ≡ ok b) × (key_text value ≡ hex b)
unfolding hex big_endian
key_text-key_bytes value h =
    let none_above : value / 2 ^ 32 ≡ 0 = omega (arith, h) in
    let fourth = hex_padded-byte 0 0 (value / 256 / 256 / 256) refl in
    let third = hex_padded-byte 2 1 (value / 256 / 256) fourth in
    let second = hex_padded-byte 4 2 (value / 256) third in
    (
      big_endian 4 value,
      encode_uint_lem overflow_error 4 value (omega (arith, h)),
      rw none_above (hex_padded-byte 6 3 value second),
    )
