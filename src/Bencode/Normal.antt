-- ===== src/Bencode/Normal.antt =====
-- The values of src/demagnetize/bencode.py whose dicts hold their items in any order, and their canonical
-- form.
use Prim.Native.Nat.{max}
use demagnetize.Prelude.{
  ℕ, suc, ◌≤◌, ◌≡◌, refl, ap, ◌∙◌, none, List, [], ◌∷◌, arith, Bytes, Bool-cases, inl, inr,
}
use demagnetize.Prelude.Order.{lt_bytes}
use demagnetize.Errors.{ok}
use demagnetize.Bencode.Value.{
  Value, Items, Fields, bytes, int, list, dict, nil, cons, end, field, keys, Ascends, nesting,
  nesting_items, nesting_fields, IsCanonical, AreCanonical, HasCanonical,
}
use demagnetize.Bencode.Encode.{insert_key, sort_keys, bencode, bencode_items, encode_fields}
use demagnetize.Bencode.Decode.{unbencode}
use demagnetize.Bencode.Sorting.{firsts, Differ, Ascends-sort_keys}
use demagnetize.Bencode.Layout.{sort_keys-encode_fields}
use demagnetize.Bencode.RoundTrip.{unbencode-bencode}

unfoldable mutual
  pub IsDict : Value → Type 0
  IsDict (bytes b) = Unit
  IsDict (int i) = Unit
  IsDict (list xs) = AreDicts xs
  IsDict (dict d) = Differ (keys d) × HasDicts d

  pub AreDicts : Items → Type 0
  AreDicts nil = Unit
  AreDicts (cons x xs) = IsDict x × AreDicts xs

  pub HasDicts : Fields → Type 0
  HasDicts end = Unit
  HasDicts (field k v d) = IsDict v × HasDicts d

abbrev pub from_pairs : List (Bytes × Value) → Fields
from_pairs [] = end
from_pairs ((k, v) ∷ ps) = field k v (from_pairs ps)

-- The same value with the items of each dict in the order of their keys.
unfoldable mutual
  pub normalize : Value → Value
  normalize (bytes b) = bytes b
  normalize (int i) = int i
  normalize (list xs) = list (normalize_items xs)
  normalize (dict d) = dict (from_pairs (sort_keys (normalize_fields d)))

  pub normalize_items : Items → Items
  normalize_items nil = nil
  normalize_items (cons x xs) = cons (normalize x) (normalize_items xs)

  pub normalize_fields : Fields → List (Bytes × Value)
  normalize_fields end = []
  normalize_fields (field k v d) = (k, normalize v) ∷ normalize_fields d

pub firsts-normalize_fields : (d : Fields) → firsts (normalize_fields d) ≡ keys d
unfolding normalize
firsts-normalize_fields end = refl
firsts-normalize_fields (field k v d) = ap (λ ks. k ∷ ks) (firsts-normalize_fields d)

keys-from_pairs : (ps : List (Bytes × Value)) → keys (from_pairs ps) ≡ firsts ps
keys-from_pairs [] = refl
keys-from_pairs ((k, v) ∷ ps) = ap (λ ks. k ∷ ks) (keys-from_pairs ps)

-- Encoding the items and sorting them by their keys commute.
encode-insert_key :
    (k : Bytes) (v : Value) (ps : List (Bytes × Value))
    → encode_fields (from_pairs (insert_key k v ps))
      ≡ insert_key k (bencode v) (encode_fields (from_pairs ps))
unfolding insert_key bencode
encode-insert_key k v [] = refl
encode-insert_key k v ((j, w) ∷ ps) = elim (Bool-cases (lt_bytes j k)) [
  | inl below ↦ rw below (ap (λ ps. (j, bencode w) ∷ ps) (encode-insert_key k v ps))
  | inr above ↦ rw above
]

encode-sort_keys :
    (ps : List (Bytes × Value))
    → encode_fields (from_pairs (sort_keys ps)) ≡ sort_keys (encode_fields (from_pairs ps))
unfolding sort_keys bencode
encode-sort_keys [] = refl
encode-sort_keys ((k, v) ∷ ps) =
    encode-insert_key k v (sort_keys ps) ∙ ap (insert_key k (bencode v)) (encode-sort_keys ps)

nesting-insert_key :
    (k : Bytes) (v : Value) (ps : List (Bytes × Value))
    → nesting_fields (from_pairs (insert_key k v ps))
      ≡ max (nesting v) (nesting_fields (from_pairs ps))
unfolding insert_key nesting
nesting-insert_key k v [] = refl
nesting-insert_key k v ((j, w) ∷ ps) = elim (Bool-cases (lt_bytes j k)) [
  | inl below ↦ rw below (omega (arith, nesting-insert_key k v ps))
  | inr above ↦ rw above
]

nesting-sort_keys :
    (ps : List (Bytes × Value))
    → nesting_fields (from_pairs (sort_keys ps)) ≡ nesting_fields (from_pairs ps)
unfolding sort_keys nesting
nesting-sort_keys [] = refl
nesting-sort_keys ((k, v) ∷ ps) =
    nesting-insert_key k v (sort_keys ps) ∙ ap (max (nesting v)) (nesting-sort_keys ps)

HasCanonical-insert_key :
    (k : Bytes) (v : Value) (ps : List (Bytes × Value))
    → IsCanonical v
    → HasCanonical (from_pairs ps)
    → HasCanonical (from_pairs (insert_key k v ps))
unfolding insert_key IsCanonical
HasCanonical-insert_key k v [] c h = (c, tt)
HasCanonical-insert_key k v ((j, w) ∷ ps) c (c', h) = elim (Bool-cases (lt_bytes j k)) [
  | inl below ↦ rw below (c', HasCanonical-insert_key k v ps c h)
  | inr above ↦ rw above (c, (c', h))
]

HasCanonical-sort_keys :
    (ps : List (Bytes × Value))
    → HasCanonical (from_pairs ps)
    → HasCanonical (from_pairs (sort_keys ps))
unfolding sort_keys IsCanonical
HasCanonical-sort_keys [] h = tt
HasCanonical-sort_keys ((k, v) ∷ ps) (c, h) =
    HasCanonical-insert_key k v (sort_keys ps) c (HasCanonical-sort_keys ps h)

normalize_fields-Ascends :
    (d : Fields)
    → Differ (keys d)
    → Ascends none (keys (from_pairs (sort_keys (normalize_fields d))))
normalize_fields-Ascends d h =
    rw (keys-from_pairs (sort_keys (normalize_fields d)))
      (Ascends-sort_keys (normalize_fields d) (rw (firsts-normalize_fields d) h))

mutual
  unfolding normalize bencode nesting IsDict IsCanonical

  normalize-IsCanonical : (v : Value) → IsDict v → IsCanonical (normalize v)
  normalize-IsCanonical (bytes b) h = tt
  normalize-IsCanonical (int i) h = tt
  normalize-IsCanonical (list xs) h = normalize_items-AreCanonical xs h
  normalize-IsCanonical (dict d) (differ, h) = (
    normalize_fields-Ascends d differ,
    HasCanonical-sort_keys (normalize_fields d) (normalize_fields-HasCanonical d h),
  )

  normalize_items-AreCanonical : (xs : Items) → AreDicts xs → AreCanonical (normalize_items xs)
  normalize_items-AreCanonical nil h = tt
  normalize_items-AreCanonical (cons x xs) (h, hs) =
      (normalize-IsCanonical x h, normalize_items-AreCanonical xs hs)

  normalize_fields-HasCanonical :
      (d : Fields) → HasDicts d → HasCanonical (from_pairs (normalize_fields d))
  normalize_fields-HasCanonical end h = tt
  normalize_fields-HasCanonical (field k v d) (h, hs) =
      (normalize-IsCanonical v h, normalize_fields-HasCanonical d hs)

mutual
  unfolding normalize bencode IsDict

  bencode-normalize : (v : Value) → IsDict v → bencode (normalize v) ≡ bencode v
  bencode-normalize (bytes b) h = refl
  bencode-normalize (int i) h = refl
  bencode-normalize (list xs) h = rw (bencode_items-normalize_items xs h)
  bencode-normalize (dict d) (differ, h) = rw (
    sort_keys-encode_fields _ (normalize_fields-Ascends d differ),
    encode-sort_keys,
    encode_fields-normalize_fields d h,
  )

  bencode_items-normalize_items :
      (xs : Items) → AreDicts xs → bencode_items (normalize_items xs) ≡ bencode_items xs
  bencode_items-normalize_items nil h = refl
  bencode_items-normalize_items (cons x xs) (h, hs) =
      rw (bencode-normalize x h, bencode_items-normalize_items xs hs)

  encode_fields-normalize_fields :
      (d : Fields) → HasDicts d → encode_fields (from_pairs (normalize_fields d)) ≡ encode_fields d
  encode_fields-normalize_fields end h = refl
  encode_fields-normalize_fields (field k v d) (h, hs) =
      rw (bencode-normalize v h, encode_fields-normalize_fields d hs)

mutual
  unfolding normalize nesting

  nesting-normalize : (v : Value) → nesting (normalize v) ≡ nesting v
  nesting-normalize (bytes b) = refl
  nesting-normalize (int i) = refl
  nesting-normalize (list xs) = ap suc (nesting_items-normalize_items xs)
  nesting-normalize (dict d) =
      ap suc (nesting-sort_keys (normalize_fields d) ∙ nesting_fields-normalize_fields d)

  nesting_items-normalize_items :
      (xs : Items) → nesting_items (normalize_items xs) ≡ nesting_items xs
  nesting_items-normalize_items nil = refl
  nesting_items-normalize_items (cons x xs) =
      rw (nesting-normalize x, nesting_items-normalize_items xs)

  nesting_fields-normalize_fields :
      (d : Fields) → nesting_fields (from_pairs (normalize_fields d)) ≡ nesting_fields d
  nesting_fields-normalize_fields end = refl
  nesting_fields-normalize_fields (field k v d) =
      rw (nesting-normalize v, nesting_fields-normalize_fields d)

-- The encoding of a value whose dicts have no key twice, nested no deeper than the interpreter takes,
-- is decoded to its canonical form: the order in which the items of a dict were inserted does not show
-- in its encoding.
pub unbencode-bencode-normalize :
    (v : Value) (depth : ℕ)
    → IsDict v
    → nesting v ≤ depth
    → unbencode depth (bencode v) ≡ ok (normalize v)
unbencode-bencode-normalize v depth h n = rw (← bencode-normalize v h) (
    unbencode-bencode (normalize v) depth (normalize-IsCanonical v h)
      (omega (arith, nesting-normalize v)))
