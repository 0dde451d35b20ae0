-- ===== src/Prelude/Decimal.antt =====
-- `%d` and `int(s, 10)` on natural numbers: decimal digits, printed and read.
use Prim.Native.Nat.{ℕ, zero, suc, ◌+◌, ◌-◌, ◌*◌, ◌/◌, ◌%◌, ◌≤◌, ◌<◌}
use mathlib.Core.Logic.{◌≢◌}
use mathlib.Core.Path.{◌≡◌, refl, sym}
use mathlib.Core.Logic.{◌≢◌, inl, inr}
use mathlib.Core.Bool.{Bool, true, ◌&&◌}
use mathlib.Core.List.{[], ◌∷◌, ◌++◌, append_assoc, append-nil}
use native.Mathlib.Omega.{arith}
use native.Mathlib.Decide.{dec_lt}
use demagnetize.Prelude.Tests.{ltb, leb, if◌then◌else◌, Bool-cases}
use demagnetize.Prelude.Lists.{Bytes, All, All-append, length, length-append}

-- `d.isdigit()` of a one-byte string
abbrev pub is_digit : ℕ → Bool
is_digit c = leb b'0' c && leb c b'9'

-- The digits from the right, with fuel.
decimal_digits : ℕ → ℕ → Bytes
decimal_digits zero n = []
decimal_digits (suc f) n =
    let rest = decimal_digits f (n / 10) in
    if ltb n 10 then (b'0' + n) ∷ [] else rest ++ (b'0' + n % 10) ∷ []

-- `b"%d" % n`; a number has at most n + 1 digits.
unfoldable pub decimal : ℕ → Bytes
unfolding decimal_digits
decimal n = decimal_digits (suc n) n

-- The number that digits spell behind `n`: `int(s, 10)` is `read_decimal 0 s`.
unfoldable pub read_decimal : ℕ → Bytes → ℕ
read_decimal n [] = n
read_decimal n (c ∷ s) = read_decimal (n * 10 + (c - b'0')) s

decimal_digits-fuel : (f g n : ℕ) → n < f → n < g → decimal_digits f n ≡ decimal_digits g n
unfolding decimal_digits
decimal_digits-fuel zero g n h k = elim h [ ]
decimal_digits-fuel (suc f) zero n h k = elim k [ ]
decimal_digits-fuel (suc f) (suc g) n h k = elim (Bool-cases (ltb n 10)) [
  | inl small ↦ rw small
  | inr big ↦ rw (big, decimal_digits-fuel f g (n / 10) (ground arith) (ground arith))
]

-- Fewer than ten: one digit.
pub decimal_small : (n : ℕ) → n < 10 → decimal n ≡ (b'0' + n) ∷ []
unfolding decimal
decimal_small n h = ground arith

-- The last digit behind the digits before it.
pub decimal_step : (n : ℕ) → 10 ≤ n → decimal n ≡ decimal (n / 10) ++ (b'0' + n % 10) ∷ []
unfolding decimal
decimal_step n h =
    ground (arith, decimal_digits-fuel n (suc (n / 10)) (n / 10) (omega arith) (omega arith))

-- What stands behind a number's digits adds digits to it.
pub decimal-read_decimal :
    (s : Bytes) (n : ℕ)
    → All (λ c. is_digit c ≡ true) s
    → 0 < n
    → decimal (read_decimal n s) ≡ decimal n ++ s
unfolding read_decimal
decimal-read_decimal [] n h k = sym (append-nil _)
decimal-read_decimal (c ∷ s) n (d, h) k =
    let m : ℕ = n * 10 + (c - b'0') in
    let last : b'0' + m % 10 ≡ c = ground arith in
    let init : m / 10 ≡ n = ground arith in
    rw (decimal-read_decimal s m h (omega arith), decimal_step m (omega arith), last, init)
      (append_assoc (decimal n) (c ∷ []) s)

-- Digits with no leading zero are the print of the number that they spell.
pub decimal-read :
    (c : ℕ) (s : Bytes)
    → is_digit c ≡ true
    → All (λ d. is_digit d ≡ true) s
    → (c ≡ b'0' → s ≡ [])
    → decimal (read_decimal 0 (c ∷ s)) ≡ c ∷ s
unfolding read_decimal
decimal-read c [] d h k =
    let whole : b'0' + (0 + (c - b'0')) ≡ c = ground arith in
    rw (decimal_small (0 + (c - b'0')) (ground arith), whole)
decimal-read c (e ∷ s) d h k =
    let m : ℕ = 0 * 10 + (c - b'0') in
    let nonzero : c ≢ b'0' = λ z. cc (k z) in
    let whole : b'0' + m ≡ c = ground arith in
    rw (decimal-read_decimal (e ∷ s) m h (ground arith), decimal_small m (ground arith), whole)

read_decimal-snoc :
    (s : Bytes) (c n : ℕ) → read_decimal n (s ++ c ∷ []) ≡ read_decimal n s * 10 + (c - b'0')
unfolding read_decimal
read_decimal-snoc [] c n = refl
read_decimal-snoc (d ∷ s) c n = read_decimal-snoc s c (n * 10 + (d - b'0'))

-- A property of all prints, from one-digit numbers up.
decimal_induction {ℓ} :
    (P : ℕ → Type ℓ)
    → ((n : ℕ) → n < 10 → P n)
    → ((n : ℕ) → 10 ≤ n → P (n / 10) → P n)
    → (f n : ℕ) → n < f
    → P n
decimal_induction P small big zero n h = elim h [ ]
decimal_induction P small big (suc f) n h = elim (dec_lt n 10) [
  | yes p ↦ small n p
  | no p ↦ big n (omega arith) (decimal_induction P small big f (n / 10) (omega arith))
]

read_decimal_one : (n : ℕ) → read_decimal 0 ((b'0' + n) ∷ []) ≡ n
unfolding read_decimal
read_decimal_one n = omega arith

-- Reading a print gives the number.
pub read_decimal-decimal : (n : ℕ) → read_decimal 0 (decimal n) ≡ n
read_decimal-decimal n =
    decimal_induction (λ m. read_decimal 0 (decimal m) ≡ m)
      (λ m h. rw (decimal_small m h) (read_decimal_one m))
      (λ m h ih. rw (decimal_step m h, read_decimal-snoc, ih) (omega arith)) (suc n) n (omega arith)

-- A print is digits.
pub decimal-IsDigits : (n : ℕ) → All (λ c. is_digit c ≡ true) (decimal n)
decimal-IsDigits n =
    decimal_induction (λ m. All (λ c. is_digit c ≡ true) (decimal m))
      (λ m h. rw (decimal_small m h) (ground arith))
      (λ m h ih. rw (decimal_step m h) (All-append _ (decimal (m / 10)) _ ih (ground arith)))
      (suc n) n (omega arith)

-- The first digit of a print, and that it is no zero if others follow or the number is positive.
pub decimal_head :
    (n : ℕ) → (c : ℕ) × (s : Bytes) × (decimal n ≡ c ∷ s) × (c ≡ b'0' → n ≡ 0) × (c ≡ b'0' → s ≡ [])
decimal_head n =
    decimal_induction
      (λ m. (c : ℕ) × (s : Bytes) × (decimal m ≡ c ∷ s) × (c ≡ b'0' → m ≡ 0) × (c ≡ b'0' → s ≡ []))
      (λ m h. (b'0' + m, [], decimal_small m h, λ e. omega arith, λ _. refl))
      (λ m h (c, s, e, p, q). (
        c,
        s ++ (b'0' + m % 10) ∷ [],
        rw (decimal_step m h, e),
        λ z. absurd (let t : m / 10 ≡ 0 = p z in omega arith),
        λ z. absurd (let t : m / 10 ≡ 0 = p z in omega arith),
      ))
      (suc n) n (omega arith)

length-decimal_digits : (f n : ℕ) → length (decimal_digits f n) ≤ f
unfolding decimal_digits
length-decimal_digits zero n = omega arith
length-decimal_digits (suc f) n = ground (
  arith,
  length-append (decimal_digits f (n / 10)) ((b'0' + n % 10) ∷ []),
  length-decimal_digits f (n / 10),
)

-- A rough bound, enough to see that a number fits where there is much room.
pub length-decimal : (n : ℕ) → length (decimal n) ≤ suc n
unfolding decimal
length-decimal n = length-decimal_digits (suc n) n
