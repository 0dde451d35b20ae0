-- ===== src/Prelude/BigEndian.antt =====
-- `n.to_bytes(w, "big")` and `int.from_bytes(b, "big")` on natural numbers.
use Prim.Native.Nat.{ℕ, zero, suc, ◌+◌, ◌*◌, ◌/◌, ◌%◌, ◌^◌, ◌<◌}
use mathlib.Core.Path.{◌≡◌, refl, sym}
use mathlib.Core.List.{[], ◌∷◌, ◌++◌, append_assoc, append-nil}
use native.Mathlib.Omega.{arith}
use native.Mathlib.Nat.{pow-suc}
use demagnetize.Prelude.Lists.{Bytes, IsBytes, All-append, length, length-append_bytes}

-- The low `w` bytes of `n`, the highest first.
unfoldable pub big_endian : ℕ → ℕ → Bytes
big_endian zero n = []
big_endian (suc w) n = big_endian w (n / 256) ++ (n % 256) ∷ []

read_from : ℕ → Bytes → ℕ
read_from n [] = n
read_from n (b ∷ s) = read_from (n * 256 + b) s

unfoldable pub from_bytes : Bytes → ℕ
unfolding read_from
from_bytes s = read_from 0 s

pub length-big_endian : (w n : ℕ) → length (big_endian w n) ≡ w
unfolding big_endian
length-big_endian zero n = refl
length-big_endian (suc w) n = omega (
  arith,
  length-append_bytes (big_endian w (n / 256)) ((n % 256) ∷ []),
  length-big_endian w (n / 256),
)

pub big_endian-IsBytes : (w n : ℕ) → IsBytes (big_endian w n)
unfolding big_endian
big_endian-IsBytes zero n = tt
big_endian-IsBytes (suc w) n =
    All-append _ (big_endian w (n / 256)) _ (big_endian-IsBytes w (n / 256)) (omega arith)

read_from-snoc : (s : Bytes) (b n : ℕ) → read_from n (s ++ b ∷ []) ≡ read_from n s * 256 + b
unfolding read_from
read_from-snoc [] b n = refl
read_from-snoc (c ∷ s) b n = read_from-snoc s b (n * 256 + c)

-- Reading the bytes of a number that fits gives the number.
pub from_bytes-big_endian : (w n : ℕ) → n < 256 ^ w → from_bytes (big_endian w n) ≡ n
unfolding from_bytes big_endian
from_bytes-big_endian zero n h = omega arith
from_bytes-big_endian (suc w) n h =
    let fits : n / 256 < 256 ^ w = omega (arith, pow-suc 256 w) in
    let high : read_from 0 (big_endian w (n / 256)) ≡ n / 256 =
      from_bytes-big_endian w (n / 256) fits in
    rw (read_from-snoc, high) (omega arith)

big_endian-suc : (w n b : ℕ) → b < 256 → big_endian (suc w) (n * 256 + b) ≡ big_endian w n ++ b ∷ []
unfolding big_endian
big_endian-suc w n b h =
    let high : (n * 256 + b) / 256 ≡ n = omega arith in
    let low : (n * 256 + b) % 256 ≡ b = omega arith in rw (high, low)

big_endian-read_from :
    (s : Bytes) (w k n : ℕ)
    → k ≡ length s + w
    → IsBytes s
    → big_endian k (read_from n s) ≡ big_endian w n ++ s
unfolding read_from
big_endian-read_from [] w k n e h =
    let e' : k ≡ w = omega arith in rw e' (sym (append-nil (big_endian w n)))
big_endian-read_from (b ∷ s) w k n e (p, h) =
    rw (big_endian-read_from s (suc w) k (n * 256 + b) (omega arith) h, big_endian-suc w n b p)
      (append_assoc (big_endian w n) (b ∷ []) s)

-- The bytes of the number that some bytes spell are those bytes.
pub big_endian-from_bytes :
    (w : ℕ) (s : Bytes) → length s ≡ w → IsBytes s → big_endian w (from_bytes s) ≡ s
unfolding from_bytes big_endian
big_endian-from_bytes w s e h = big_endian-read_from s 0 w 0 (omega arith) h

read_from-lt : (s : Bytes) (n b : ℕ) → IsBytes s → n < b → read_from n s < b * 256 ^ length s
unfolding read_from
read_from-lt [] n b h k = omega arith
read_from-lt (c ∷ s) n b (p, h) k =
    let ih : read_from (n * 256 + c) s < b * 256 * 256 ^ length s =
      read_from-lt s (n * 256 + c) (b * 256) h (omega arith) in
    let e : 256 ^ suc (length s) ≡ 256 ^ length s * 256 = pow-suc 256 (length s) in
    rw e (omega arith)

-- A number read from bytes fits as many bytes.
pub from_bytes-lt : (s : Bytes) → IsBytes s → from_bytes s < 256 ^ length s
unfolding from_bytes
from_bytes-lt s h = omega (arith, read_from-lt s 0 1 h (omega arith))
