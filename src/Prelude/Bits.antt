-- ===== src/Prelude/Bits.antt =====
-- The bits of a natural number: `n & (1 << i)` as a test, and `n | 1 << i`.
use Prim.Native.Nat.{ℕ, zero, suc, ◌+◌, ◌*◌, ◌/◌, ◌%◌, ◌^◌, ◌<◌}
use mathlib.Core.Path.{◌≡◌, refl}
use mathlib.Core.Bool.{Bool, false, ◌||◌}
use mathlib.Core.List.{List, [], ◌∷◌}
use native.Mathlib.Omega.{arith}
use native.Mathlib.Nat.{pow-succ'}
use demagnetize.Prelude.Tests.{ltb, ◌==◌, if◌then◌else◌}
use demagnetize.Prelude.Lists.{All}

unfoldable pub test_bit : ℕ → ℕ → Bool
test_bit n zero = n % 2 == 1
test_bit n (suc i) = test_bit (n / 2) i

unfoldable pub set_bit : ℕ → ℕ → ℕ
set_bit n zero = if n % 2 == 1 then n else n + 1
set_bit n (suc i) = n % 2 + 2 * set_bit (n / 2) i

-- reduce(or_, [1 << i for i in bits], n)
abbrev pub set_bits : ℕ → List ℕ → ℕ
set_bits n [] = n
set_bits n (i ∷ is) = set_bits (set_bit n i) is

abbrev pub elem : ℕ → List ℕ → Bool
elem i [] = false
elem i (j ∷ js) = j == i || elem i js

pub test_bit-set_bit : (n i j : ℕ) → test_bit (set_bit n j) i ≡ j == i || test_bit n i
unfolding test_bit set_bit
test_bit-set_bit n zero zero = ground arith
test_bit-set_bit n zero (suc j) = ground arith
test_bit-set_bit n (suc i) zero =
    let half : (if n % 2 == 1 then n else n + 1) / 2 ≡ n / 2 = ground arith in
    let differ : (0 == suc i) ≡ false = ground arith in cc (half, differ)
test_bit-set_bit n (suc i) (suc j) =
    let half : (n % 2 + 2 * set_bit (n / 2) j) / 2 ≡ set_bit (n / 2) j = omega arith in
    let same : (suc j == suc i) ≡ (j == i) = ground arith in
    cc (half, same, test_bit-set_bit (n / 2) i j)

pub set_bit-lt : (w n j : ℕ) → n < 2 ^ w → j < w → set_bit n j < 2 ^ w
unfolding set_bit
set_bit-lt zero n j h k = absurd (omega arith)
set_bit-lt (suc w) n zero h k = ground (arith, pow-succ' 2 w)
set_bit-lt (suc w) n (suc j) h k =
    let double = pow-succ' 2 w in
    omega (arith, set_bit-lt w (n / 2) j (omega (arith, double)) (omega arith))

pub set_bits-lt : (w n : ℕ) (is : List ℕ) → n < 2 ^ w → All (λ i. i < w) is → set_bits n is < 2 ^ w
set_bits-lt w n [] h k = h
set_bits-lt w n (i ∷ is) h (below, all) =
    set_bits-lt w (set_bit n i) is (set_bit-lt w n i h below) all

-- The bits that are set are those that were and those that are listed.
pub test_bit-set_bits :
    (n i : ℕ) (is : List ℕ) → test_bit (set_bits n is) i ≡ elem i is || test_bit n i
test_bit-set_bits n i [] = refl
test_bit-set_bits n i (j ∷ is) =
    ground (arith, test_bit-set_bits (set_bit n j) i is, test_bit-set_bit n i j)

pub test_bit_zero : (i : ℕ) → test_bit 0 i ≡ false
unfolding test_bit
test_bit_zero zero = refl
test_bit_zero (suc i) = test_bit_zero i

-- {i for i in range(n) if bits & (1 << i)}; a set, so that the order is of no account
unfoldable pub bits_below : ℕ → ℕ → List ℕ
bits_below zero bits = []
bits_below (suc n) bits = let rest = bits_below n bits in if test_bit bits n then n ∷ rest else rest

pub elem-bits_below :
    (n bits i : ℕ) → elem i (bits_below n bits) ≡ (if ltb i n then test_bit bits i else false)
unfolding bits_below
elem-bits_below zero bits i = ground arith
elem-bits_below (suc n) bits i = ground (arith, elem-bits_below n bits i)
