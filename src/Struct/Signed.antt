-- ===== src/Struct/Signed.antt =====
-- struct.pack and struct.unpack of signed numbers ("!i", "!q"): two's complement in `w` bytes.
use demagnetize.Prelude.{
  ℕ, suc, ◌-◌, ◌/◌, ◌^◌, ◌<◌, ◌≡◌, Bytes, arith, length, ltb, lt→ltb, ltb→lt, false, Bool-cases,
  inl, inr, IsBytes, if◌then◌else◌,
}
use demagnetize.Prelude.Int.{ℤ, pos, negsuc}
use demagnetize.Prelude.BigEndian.{
  big_endian, length-big_endian, from_bytes, from_bytes-big_endian, from_bytes-lt,
}
use demagnetize.Errors.{Result, ok, err, struct_error}

-- The bytes of -(n + 1) are those of 256 ^ w - (n + 1).
unfoldable pub pack_int : ℕ → ℤ → Result Bytes
pack_int w (pos n) = if ltb n (256 ^ w / 2) then ok (big_endian w n) else err struct_error
pack_int w (negsuc n) =
    if ltb n (256 ^ w / 2) then ok (big_endian w (256 ^ w - suc n)) else err struct_error

-- The number that `w` bytes stand for.
unfoldable pub signed : ℕ → ℕ → ℤ
signed w n = if ltb n (256 ^ w / 2) then pos n else negsuc (256 ^ w - suc n)

unfoldable pub unpack_int : Bytes → ℤ
unpack_int b = signed (length b) (from_bytes b)

-- The range of a signed number of `w` bytes.
abbrev pub IsInt : ℕ → ℤ → Type 0
IsInt w (pos n) = n < 256 ^ w / 2
IsInt w (negsuc n) = n < 256 ^ w / 2

pub pack_int-IsInt :
    (w : ℕ) (z : ℤ)
    → IsInt (suc w) z
    → (b : Bytes) × (pack_int (suc w) z ≡ ok b) × (length b ≡ suc w) × (unpack_int b ≡ z)
unfolding pack_int unpack_int signed
pack_int-IsInt w (pos n) h =
    let fits : n < 256 ^ suc w = omega arith in
    (
      big_endian (suc w) n,
      rw (lt→ltb n (256 ^ suc w / 2) h),
      length-big_endian (suc w) n,
      rw (
        length-big_endian (suc w) n,
        from_bytes-big_endian (suc w) n fits,
        lt→ltb n (256 ^ suc w / 2) h,
      ),
    )
pack_int-IsInt w (negsuc n) h =
    let m = 256 ^ suc w - suc n in
    let large : ltb m (256 ^ suc w / 2) ≡ false = ground arith in
    let back : 256 ^ suc w - suc m ≡ n = omega arith in
    (
      big_endian (suc w) m,
      rw (lt→ltb n (256 ^ suc w / 2) h),
      length-big_endian (suc w) m,
      rw (length-big_endian (suc w) m, from_bytes-big_endian (suc w) m (omega arith), large, back),
    )

signed-IsInt : (w n : ℕ) → n < 256 ^ suc w → IsInt (suc w) (signed (suc w) n)
unfolding signed
signed-IsInt w n h = elim (Bool-cases (ltb n (256 ^ suc w / 2))) [
  | inl small ↦ rw small (ltb→lt n (256 ^ suc w / 2) small)
  | inr large ↦ rw large (ground (arith, large, h))
]

-- Bytes stand for a number that fits so many.
pub unpack_int-IsInt :
    (w : ℕ) (b : Bytes) → length b ≡ suc w → IsBytes b → IsInt (suc w) (unpack_int b)
unfolding unpack_int
unpack_int-IsInt w b n h = rw n (signed-IsInt w (from_bytes b) (rw (← n) (from_bytes-lt b h)))
