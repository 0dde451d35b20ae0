-- ===== src/Prelude/Dict.antt =====
-- Python's `dict` as an association list in the order of insertion, over a Boolean test of equality.
use mathlib.Core.Path.{◌≡◌, refl}
use mathlib.Core.Logic.{◌↔◌}
use mathlib.Core.Bool.{Bool, true, false}
use mathlib.Core.Option.{Option, none, some}
use mathlib.Core.List.{List, [], ◌∷◌}
use native.Mathlib.Omega.{arith}
use demagnetize.Prelude.Tests.{if◌then◌else◌}

module _ {ℓ κ} {K : Type ℓ} {V : Type κ} (eq : K → K → Bool) where
  -- d.get(k)
  unfoldable pub lookup : K → List (K × V) → Option V
  lookup k [] = none
  lookup k ((j, v) ∷ d) = if eq j k then some v else lookup k d

  -- k in d
  abbrev pub has_key : K → List (K × V) → Bool
  has_key k [] = false
  has_key k ((j, v) ∷ d) = if eq j k then true else has_key k d

  -- d[k] = v: an old key keeps its place, a new one goes to the end.
  unfoldable pub insert : K → V → List (K × V) → List (K × V)
  insert k v [] = (k, v) ∷ []
  insert k v ((j, w) ∷ d) = if eq j k then (j, v) ∷ d else (j, w) ∷ insert k v d

module _ {ℓ κ} {K : Type ℓ} {V : Type κ} (eq : K → K → Bool)
    (eq_iff : (a b : K) → (eq a b ≡ true) ↔ (a ≡ b)) where
  pub lookup-insert :
      (k j : K) (v : V) (d : List (K × V))
      → lookup eq j (insert eq k v d) ≡ (if eq k j then some v else lookup eq j d)
  unfolding lookup insert
  lookup-insert k j v [] = refl
  lookup-insert k j v ((i, w) ∷ d) =
      ground (arith, eq_iff k j, eq_iff i k, eq_iff i j, lookup-insert k j v d)

  pub lookup-none : (k : K) (d : List (K × V)) → has_key eq k d ≡ false → lookup eq k d ≡ none
  unfolding lookup
  lookup-none k [] h = refl
  lookup-none k ((j, v) ∷ d) h = ground (arith, lookup-none k d)
