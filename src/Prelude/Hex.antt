-- ===== src/Prelude/Hex.antt =====
-- Digits to the base 16.
use Prim.Native.Nat.{ℕ, zero, suc, ◌+◌, ◌-◌, ◌*◌, ◌/◌, ◌%◌, ◌≤◌, ◌<◌}
use mathlib.Core.Path.{◌≡◌, refl}
use mathlib.Core.Bool.{◌&&◌}
use mathlib.Core.Option.{Option, none, some}
use mathlib.Core.List.{[], ◌∷◌, ◌++◌}
use native.Mathlib.Omega.{arith}
use demagnetize.Prelude.Tests.{ltb, leb, ◌==◌, if◌then◌else◌}
use demagnetize.Prelude.Lists.{Bytes, length}

abbrev pub hex_digit : ℕ → ℕ
hex_digit d = if ltb d 10 then b'0' + d else b'a' + (d - 10)

-- The lower digits of a number to the base 16, as many as are asked for.
abbrev pub hex_padded : ℕ → ℕ → Bytes
hex_padded zero n = []
hex_padded (suc w) n = hex_padded w (n / 16) ++ hex_digit (n % 16) ∷ []

-- All digits of a number to the base 16, none of 0; the number itself is fuel enough.
abbrev pub hex_digits : ℕ → ℕ → Bytes
hex_digits zero n = []
hex_digits (suc fuel) n =
    let rest = hex_digits fuel (n / 16) in if n == 0 then [] else rest ++ hex_digit (n % 16) ∷ []

-- What a digit stands for, in either case.
abbrev pub hex_value : ℕ → Option ℕ
hex_value c =
    if leb b'0' c && leb c b'9'
    then some (c - b'0')
    else if leb b'a' c && leb c b'f'
    then some (c - b'a' + 10)
    else if leb b'A' c && leb c b'F'
    then some (c - b'A' + 10)
    else none

-- bytes.hex
unfoldable pub hex : Bytes → Bytes
hex [] = []
hex (b ∷ bs) = hex_digit (b / 16) ∷ hex_digit (b % 16) ∷ hex bs

pub length-hex : (b : Bytes) → length (hex b) ≡ 2 * length b
unfolding hex
length-hex [] = omega arith
length-hex (b ∷ bs) = omega (arith, length-hex bs)

pub hex_value-hex_digit : (d : ℕ) → d < 16 → hex_value (hex_digit d) ≡ some d
hex_value-hex_digit d h = ground arith

-- More fuel than the number changes nothing.
hex_digits_fuel : (fuel n : ℕ) → n ≤ fuel → hex_digits (suc fuel) n ≡ hex_digits fuel n
hex_digits_fuel zero n h = ground (arith, h)
hex_digits_fuel (suc fuel) n h = rw (hex_digits_fuel fuel (n / 16) (omega (arith, h))) refl

-- A digit is no white space.
pub hex_digit_range : (d : ℕ) → d < 16 → b'0' < hex_digit d + 1
hex_digit_range d h = ground arith
