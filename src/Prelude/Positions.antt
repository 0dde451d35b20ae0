-- ===== src/Prelude/Positions.antt =====
-- Lists with an item in the middle: what a task leaves that is taken from among others.
use Prim.Native.Nat.{◌+◌}
use mathlib.Core.Path.{◌≡◌, refl, subst}
use mathlib.Core.Logic.{◌⊎◌, inl, inr}
use mathlib.Core.List.{List, [], ◌∷◌, ◌++◌, append-nil}
use native.Mathlib.Omega.{arith}
use demagnetize.Prelude.Lists.{length}

pub length-insert {ℓ} :
    {A : Type ℓ} (xs : List A) (y : A) (ys : List A) → length (xs ++ y ∷ ys) ≡ 1 + length (xs ++ ys)
length-insert [] y ys = omega arith
length-insert (x ∷ xs) y ys = omega (arith, length-insert xs y ys)

pub length-add {ℓ} : {A : Type ℓ} (xs : List A) (y : A) → length (xs ++ y ∷ []) ≡ 1 + length xs
length-add [] y = omega arith
length-add (x ∷ xs) y = omega (arith, length-add xs y)

module _ {A : Type 0} where
  abbrev pub Among : A → List A → Type 0
  Among a [] = ⊥
  Among a (b ∷ bs) = (a ≡ b) ⊎ Among a bs

  pub Among-insert :
      (a : A) (xs : List A) (y : A) (ys : List A)
      → Among a (xs ++ y ∷ ys)
      → (a ≡ y) ⊎ Among a (xs ++ ys)
  Among-insert a [] y ys m = m
  Among-insert a (x ∷ xs) y ys (inl e) = inr (inl e)
  Among-insert a (x ∷ xs) y ys (inr m) = elim (Among-insert a xs y ys m) [
    | inl e ↦ inl e
    | inr k ↦ inr (inr k)
  ]

  pub Among-within :
      (a : A) (xs : List A) (y : A) (ys : List A) → Among a (xs ++ ys) → Among a (xs ++ y ∷ ys)
  Among-within a [] y ys m = inr m
  Among-within a (x ∷ xs) y ys (inl e) = inl e
  Among-within a (x ∷ xs) y ys (inr m) = inr (Among-within a xs y ys m)

  pub Among-at : (xs : List A) (y : A) (ys : List A) → Among y (xs ++ y ∷ ys)
  Among-at [] y ys = inl refl
  Among-at (x ∷ xs) y ys = inr (Among-at xs y ys)

  pub Among-add : (a : A) (xs : List A) (y : A) → Among a (xs ++ y ∷ []) → (a ≡ y) ⊎ Among a xs
  Among-add a xs y m = subst (λ zs. (a ≡ y) ⊎ Among a zs) (append-nil xs) (Among-insert a xs y [] m)
