-- ===== src/Prelude/Order.antt =====
-- Byte strings compared as Python compares `bytes`: lexicographically.
use mathlib.Core.Path.{◌≡◌, refl}
use mathlib.Core.Logic.{◌↔◌}
use mathlib.Core.Bool.{Bool, true, false, ◌&&◌, not}
use mathlib.Core.List.{[], ◌∷◌}
use native.Mathlib.Omega.{arith}
use demagnetize.Prelude.Tests.{ltb, ◌==◌, if◌then◌else◌}
use demagnetize.Prelude.Lists.{Bytes}

-- a < b
unfoldable pub lt_bytes : Bytes → Bytes → Bool
lt_bytes [] [] = false
lt_bytes [] (y ∷ ys) = true
lt_bytes (x ∷ xs) [] = false
lt_bytes (x ∷ xs) (y ∷ ys) = if x == y then lt_bytes xs ys else ltb x y

-- a == b
unfoldable pub eq_bytes : Bytes → Bytes → Bool
eq_bytes [] [] = true
eq_bytes [] (y ∷ ys) = false
eq_bytes (x ∷ xs) [] = false
eq_bytes (x ∷ xs) (y ∷ ys) = x == y && eq_bytes xs ys

pub eq_bytes→eq : (a b : Bytes) → eq_bytes a b ≡ true → a ≡ b
unfolding eq_bytes
eq_bytes→eq [] [] h = refl
eq_bytes→eq [] (y ∷ ys) h = cc
eq_bytes→eq (x ∷ xs) [] h = cc
eq_bytes→eq (x ∷ xs) (y ∷ ys) h = ground (arith, eq_bytes→eq xs ys)

pub eq_bytes_self : (a : Bytes) → eq_bytes a a ≡ true
unfolding eq_bytes
eq_bytes_self [] = refl
eq_bytes_self (x ∷ xs) = ground (arith, eq_bytes_self xs)

pub eq_bytes_iff : (a b : Bytes) → (eq_bytes a b ≡ true) ↔ (a ≡ b)
eq_bytes_iff a b = (eq_bytes→eq a b, λ e. rw e (eq_bytes_self b))

pub lt_bytes_irrefl : (a : Bytes) → lt_bytes a a ≡ false
unfolding lt_bytes
lt_bytes_irrefl [] = refl
lt_bytes_irrefl (x ∷ xs) = ground (arith, lt_bytes_irrefl xs)

pub lt_bytes_trans :
    (a b c : Bytes) → lt_bytes a b ≡ true → lt_bytes b c ≡ true → lt_bytes a c ≡ true
unfolding lt_bytes
lt_bytes_trans [] [] c h k = k
lt_bytes_trans [] (y ∷ ys) [] h k = k
lt_bytes_trans [] (y ∷ ys) (z ∷ zs) h k = refl
lt_bytes_trans (x ∷ xs) [] c h k = cc
lt_bytes_trans (x ∷ xs) (y ∷ ys) [] h k = k
lt_bytes_trans (x ∷ xs) (y ∷ ys) (z ∷ zs) h k = ground (arith, lt_bytes_trans xs ys zs)

-- Trichotomy: two strings that are not below one another are equal.
pub lt_bytes_total : (a b : Bytes) → lt_bytes a b ≡ false → lt_bytes b a ≡ false → a ≡ b
unfolding lt_bytes
lt_bytes_total [] [] h k = refl
lt_bytes_total [] (y ∷ ys) h k = cc
lt_bytes_total (x ∷ xs) [] h k = cc
lt_bytes_total (x ∷ xs) (y ∷ ys) h k = ground (arith, lt_bytes_total xs ys)

pub lt_bytes_asymm : (a b : Bytes) → lt_bytes a b ≡ true → lt_bytes b a ≡ false
unfolding lt_bytes
lt_bytes_asymm [] [] h = cc
lt_bytes_asymm [] (y ∷ ys) h = refl
lt_bytes_asymm (x ∷ xs) [] h = cc
lt_bytes_asymm (x ∷ xs) (y ∷ ys) h = ground (arith, lt_bytes_asymm xs ys)

-- a <= b
abbrev pub le_bytes : Bytes → Bytes → Bool
le_bytes a b = not (lt_bytes b a)
