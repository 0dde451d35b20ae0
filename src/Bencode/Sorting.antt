-- ===== src/Bencode/Sorting.antt =====
-- The sorting by keys that `bencode` of src/demagnetize/bencode.py does.
use demagnetize.Prelude.{
  ◌⊎◌, inl, inr, All, Bool-cases, ◌≡◌, refl, true, false, Option, none, some, List, [], ◌∷◌, Bytes,
}
use demagnetize.Prelude.Order.{eq_bytes, eq_bytes_iff, lt_bytes_total, lt_bytes, lt_bytes_asymm}
use demagnetize.Bencode.Value.{is_after, Ascends}
use demagnetize.Bencode.Encode.{insert_key, sort_keys}

-- The keys differ, as those of a Python dict do.
abbrev pub Differ : List Bytes → Type 0
Differ [] = Unit
Differ (k ∷ ks) = All (λ j. eq_bytes k j ≡ false) ks × Differ ks

module _ {ℓ} {A : Type ℓ} where
  abbrev pub firsts : List (Bytes × A) → List Bytes
  firsts [] = []
  firsts ((k, a) ∷ ps) = k ∷ firsts ps

  insert_key-Ascends :
      (k : Bytes) (a : A) (ps : List (Bytes × A))
      → Ascends (some k) (firsts ps)
      → insert_key k a ps ≡ (k, a) ∷ ps
  unfolding insert_key
  insert_key-Ascends k a [] h = refl
  insert_key-Ascends k a ((j, b) ∷ ps) (h, _) = rw (lt_bytes_asymm k j h)

  -- Sorting leaves what is in order.
  pub sort_keys-Ascends :
      (prev : Option Bytes) (ps : List (Bytes × A)) → Ascends prev (firsts ps) → sort_keys ps ≡ ps
  unfolding sort_keys
  sort_keys-Ascends prev [] h = refl
  sort_keys-Ascends prev ((k, a) ∷ ps) (_, h) =
      rw (sort_keys-Ascends (some k) ps h) (insert_key-Ascends k a ps h)

  All-insert_key :
      (P : Bytes → Type 0) (k : Bytes) (a : A) (ps : List (Bytes × A))
      → P k
      → All P (firsts ps)
      → All P (firsts (insert_key k a ps))
  unfolding insert_key
  All-insert_key P k a [] p h = (p, tt)
  All-insert_key P k a ((j, b) ∷ ps) p (q, h) = elim (Bool-cases (lt_bytes j k)) [
    | inl below ↦ rw below (q, All-insert_key P k a ps p h)
    | inr above ↦ rw above (p, (q, h))
  ]

  Ascends-insert_key :
      (prev : Option Bytes) (k : Bytes) (a : A) (ps : List (Bytes × A))
      → is_after prev k ≡ true
      → All (λ j. eq_bytes k j ≡ false) (firsts ps)
      → Ascends prev (firsts ps)
      → Ascends prev (firsts (insert_key k a ps))
  unfolding insert_key
  Ascends-insert_key prev k a [] after h asc = (after, tt)
  Ascends-insert_key prev k a ((j, b) ∷ ps) after (differ, h) (after', asc) =
      elim (Bool-cases (lt_bytes j k)) [
        | inl below ↦ rw below (after', Ascends-insert_key (some j) k a ps below h asc)
        | inr above ↦ rw above (after, (order above (Bool-cases (lt_bytes k j)), asc))
      ]
    where
      order :
          lt_bytes j k ≡ false
          → (lt_bytes k j ≡ true) ⊎ (lt_bytes k j ≡ false)
          → lt_bytes k j ≡ true
      order above (inl below) = below
      order above (inr equal) =
          let same : eq_bytes k j ≡ true = (eq_bytes_iff k j).1 (lt_bytes_total k j equal above) in
          cc

  pub All-sort_keys :
      (P : Bytes → Type 0) (ps : List (Bytes × A))
      → All P (firsts ps)
      → All P (firsts (sort_keys ps))
  unfolding sort_keys
  All-sort_keys P [] h = tt
  All-sort_keys P ((k, a) ∷ ps) (p, h) =
      All-insert_key P k a (sort_keys ps) p (All-sort_keys P ps h)

  -- Sorting puts keys that differ in order.
  pub Ascends-sort_keys :
      (ps : List (Bytes × A)) → Differ (firsts ps) → Ascends none (firsts (sort_keys ps))
  unfolding sort_keys
  Ascends-sort_keys [] h = tt
  Ascends-sort_keys ((k, a) ∷ ps) (new, h) =
      Ascends-insert_key none k a (sort_keys ps) refl (All-sort_keys _ ps new)
        (Ascends-sort_keys ps h)
