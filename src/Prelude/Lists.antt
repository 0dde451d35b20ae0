-- ===== src/Prelude/Lists.antt =====
-- Byte strings, and lists measured and cut by native numbers under the library's names.
use Prim.Native.Nat.{ℕ, zero, suc, ◌+◌, ◌-◌, ◌≤◌, ◌<◌, min}
use Prim.Native.Char.{code}
use Prim.Native.String.{String}
use mathlib.Core.Path.{◌≡◌, refl, ap}
use mathlib.Core.Bool.{Bool, true, false}
use mathlib.Core.List.{List, [], ◌∷◌, ◌++◌}
use native.Mathlib.Omega.{arith}

-- Python's `bytes`: its elements, each below 256 where a theorem needs that.
abbrev pub Bytes : Type 0
Bytes = List ℕ

-- The bytes of an ASCII text.
abbrev pub codes : String → Bytes
codes String.[] = []
codes (String.◌∷◌ c s) = code c ∷ codes s

module _ {ℓ} {A : Type ℓ} where
  abbrev pub length : List A → ℕ
  length [] = 0
  length (x ∷ xs) = suc (length xs)

  abbrev pub take : ℕ → List A → List A
  take zero xs = []
  take (suc n) [] = []
  take (suc n) (x ∷ xs) = x ∷ take n xs

  abbrev pub drop : ℕ → List A → List A
  drop zero xs = xs
  drop (suc n) [] = []
  drop (suc n) (x ∷ xs) = drop n xs

  abbrev pub replicate : ℕ → A → List A
  replicate zero a = []
  replicate (suc n) a = a ∷ replicate n a

  abbrev pub is_empty : List A → Bool
  is_empty [] = true
  is_empty (x ∷ xs) = false

  abbrev pub All {κ} : (A → Type κ) → List A → Type κ
  All P [] = Unit
  All P (x ∷ xs) = P x × All P xs

-- Every element is a byte.
abbrev pub IsBytes : Bytes → Type 0
IsBytes xs = All (λ b. b < 256) xs

module _ {ℓ} {A : Type ℓ} where
  pub length-append : (xs ys : List A) → length (xs ++ ys) ≡ length xs + length ys
  length-append [] ys = omega arith
  length-append (x ∷ xs) ys = omega (arith, length-append xs ys)

  pub take-append-drop : (n : ℕ) (xs : List A) → take n xs ++ drop n xs ≡ xs
  take-append-drop zero xs = refl
  take-append-drop (suc n) [] = refl
  take-append-drop (suc n) (x ∷ xs) = rw (take-append-drop n xs)

  pub length-take : (n : ℕ) (xs : List A) → length (take n xs) ≡ min n (length xs)
  length-take zero xs = omega arith
  length-take (suc n) [] = omega arith
  length-take (suc n) (x ∷ xs) = omega (arith, length-take n xs)

  pub length-drop : (n : ℕ) (xs : List A) → length (drop n xs) ≡ length xs - n
  length-drop zero xs = omega arith
  length-drop (suc n) [] = omega arith
  length-drop (suc n) (x ∷ xs) = omega (arith, length-drop n xs)

  pub length-replicate : (n : ℕ) (a : A) → length (replicate n a) ≡ n
  length-replicate zero a = refl
  length-replicate (suc n) a = ap suc (length-replicate n a)

  pub take-append : (n : ℕ) (xs ys : List A) → length xs ≡ n → take n (xs ++ ys) ≡ xs
  take-append zero [] ys h = refl
  take-append zero (x ∷ xs) ys h = absurd (omega arith)
  take-append (suc n) [] ys h = absurd (omega arith)
  take-append (suc n) (x ∷ xs) ys h = rw (take-append n xs ys (omega arith))

  pub drop-append : (n : ℕ) (xs ys : List A) → length xs ≡ n → drop n (xs ++ ys) ≡ ys
  drop-append zero [] ys h = refl
  drop-append zero (x ∷ xs) ys h = absurd (omega arith)
  drop-append (suc n) [] ys h = absurd (omega arith)
  drop-append (suc n) (x ∷ xs) ys h = drop-append n xs ys (omega arith)

  pub take_all : (n : ℕ) (xs : List A) → length xs ≤ n → take n xs ≡ xs
  take_all zero [] h = refl
  take_all zero (x ∷ xs) h = absurd (omega arith)
  take_all (suc n) [] h = refl
  take_all (suc n) (x ∷ xs) h = rw (take_all n xs (omega arith))

  pub All-append {κ} : (P : A → Type κ) (xs ys : List A) → All P xs → All P ys → All P (xs ++ ys)
  All-append P [] ys h k = k
  All-append P (x ∷ xs) ys (p, h) k = (p, All-append P xs ys h k)

-- The length of a byte string that `omega` takes apart.
pub length-append_bytes : (xs ys : Bytes) → length (xs ++ ys) ≡ length xs + length ys
length-append_bytes = length-append

pub ruleset lengths = (arith, length-append_bytes)

module _ {ℓ κ} {A : Type ℓ} (P : A → Type κ) where
  pub All-take : (n : ℕ) (xs : List A) → All P xs → All P (take n xs)
  All-take zero xs h = tt
  All-take (suc n) [] h = tt
  All-take (suc n) (x ∷ xs) (p, h) = (p, All-take n xs h)

  pub All-drop : (n : ℕ) (xs : List A) → All P xs → All P (drop n xs)
  All-drop zero xs h = h
  All-drop (suc n) [] h = tt
  All-drop (suc n) (x ∷ xs) (p, h) = All-drop n xs h

module _ {ℓ} {A : Type ℓ} where
  take-nil : (n : ℕ) → ◌≡◌ {A = List A} (take n []) []
  take-nil zero = refl
  take-nil (suc n) = refl

  drop-nil : (n : ℕ) → ◌≡◌ {A = List A} (drop n []) []
  drop-nil zero = refl
  drop-nil (suc n) = refl

  -- A slice, and what follows it.
  pub take-append-drop_at :
      (i n k : ℕ) (xs : List A) → k ≡ i + n → take n (drop i xs) ++ drop k xs ≡ drop i xs
  take-append-drop_at zero n k xs e = let e' : k ≡ n = omega arith in rw e' (take-append-drop n xs)
  take-append-drop_at (suc i) n k [] e = rw (take-nil n, drop-nil k)
  take-append-drop_at (suc i) n k (x ∷ xs) e =
      let e' : k ≡ suc (i + n) = omega arith in rw e' (take-append-drop_at i n (i + n) xs refl)
