-- ===== src/Struct.antt =====
-- What the program uses of `int.to_bytes`, `bytes([n])` and the module `struct`, for unsigned numbers.
pub mod Signed
pub mod Records
pub mod Layout
use demagnetize.Prelude.{
  ◌<◌, ℕ, ◌^◌, ◌≡◌, [], ◌∷◌, Bytes, IsBytes, ltb, lt→ltb, ltb→lt, if◌then◌else◌, length, Bool-cases,
  inl, inr,
}
use demagnetize.Prelude.Int.{ℤ, pos, negsuc}
use demagnetize.Prelude.BigEndian.{
  big_endian, length-big_endian, from_bytes, from_bytes-big_endian, big_endian-from_bytes,
  from_bytes-lt,
}
use demagnetize.Errors.{Error, Result, ok, err, overflow_error, struct_error, value_error}

-- The `w` bytes of `n`, or the error of a number that does not fit.
unfoldable pub encode_uint : Error → ℕ → ℕ → Result Bytes
encode_uint e w n = if ltb n (256 ^ w) then ok (big_endian w n) else err e

-- n.to_bytes(w, "big")
abbrev pub to_bytes : ℕ → ℕ → Result Bytes
to_bytes w n = encode_uint overflow_error w n

-- struct.pack("!I", n)
abbrev pub pack_uint32 : ℕ → Result Bytes
pack_uint32 n = encode_uint struct_error 4 n

-- bytes([n])
unfoldable pub byte : ℤ → Result Bytes
byte (pos n) = if ltb n 256 then ok (n ∷ []) else err value_error
byte (negsuc n) = err value_error

-- What was encoded is read back.
pub encode_uint-ok :
    (e : Error) (w n : ℕ) {b : Bytes}
    → encode_uint e w n ≡ ok b
    → (from_bytes b ≡ n) × (length b ≡ w)
unfolding encode_uint
encode_uint-ok e w n {b} h = elim (Bool-cases (ltb n (256 ^ w))) [
  | inl fits ↦
      let b' : big_endian w n ≡ b = (let h' = rw fits at h in cc) in
      (
        rw (← b') (from_bytes-big_endian w n (ltb→lt n (256 ^ w) fits)),
        rw (← b') (length-big_endian w n),
      )
  | inr large ↦ (let h' = rw large at h in cc)
]

-- Bytes that were read are encoded again.
pub encode_uint-from_bytes :
    (e : Error) (w : ℕ) (b : Bytes)
    → length b ≡ w
    → IsBytes b
    → encode_uint e w (from_bytes b) ≡ ok b
unfolding encode_uint
encode_uint-from_bytes e w b h k =
    rw (
      lt→ltb (from_bytes b) (256 ^ w) (rw (← h) (from_bytes-lt b k)),
      big_endian-from_bytes w b h k,
    )

-- A number that fits is encoded.
pub encode_uint_lem : (e : Error) (w n : ℕ) → n < 256 ^ w → encode_uint e w n ≡ ok (big_endian w n)
unfolding encode_uint
encode_uint_lem e w n h = rw (lt→ltb n (256 ^ w) h)
