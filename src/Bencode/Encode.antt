-- ===== src/Bencode/Encode.antt =====
-- `bencode`.
use demagnetize.Prelude.{suc, ◌≡◌, refl, List, [], ◌∷◌, ◌++◌, Bytes, codes, length, if◌then◌else◌}
use demagnetize.Prelude.Int.{ℤ, pos, negsuc}
use demagnetize.Prelude.Order.{lt_bytes}
use demagnetize.Prelude.Decimal.{decimal}
use demagnetize.Bencode.Value.{Value, Items, Fields, bytes, int, list, dict, nil, cons, end, field}

-- A dict's items as pairs, to sort them by key.
module _ {ℓ} {A : Type ℓ} where
  unfoldable pub insert_key : Bytes → A → List (Bytes × A) → List (Bytes × A)
  insert_key k a [] = (k, a) ∷ []
  insert_key k a ((j, b) ∷ ps) =
      if lt_bytes j k then (j, b) ∷ insert_key k a ps else (k, a) ∷ (j, b) ∷ ps

  -- `sorted(obj.keys())`
  unfoldable pub sort_keys : List (Bytes × A) → List (Bytes × A)
  unfolding insert_key
  sort_keys [] = []
  sort_keys ((k, a) ∷ ps) = insert_key k a (sort_keys ps)

-- b"%d" % i
unfoldable pub print_int : ℤ → Bytes
print_int (pos n) = decimal n
print_int (negsuc n) = b'-' ∷ decimal (suc n)

-- b"%d:%b" % (len(b), b)
unfoldable pub bencode_bytes : Bytes → Bytes
bencode_bytes b = decimal (length b) ++ b':' ∷ b

-- The keys and their encoded values, one after the other.
unfoldable pub join : List (Bytes × Bytes) → Bytes
join [] = []
join ((k, e) ∷ ps) = bencode_bytes k ++ (e ++ join ps)

unfoldable mutual
  pub bencode : Value → Bytes
  bencode (bytes b) = bencode_bytes b
  bencode (int i) = b'i' ∷ (print_int i ++ b'e' ∷ [])
  bencode (list xs) = b'l' ∷ (bencode_items xs ++ b'e' ∷ [])
  bencode (dict d) = b'd' ∷ (join (sort_keys (encode_fields d)) ++ b'e' ∷ [])

  pub bencode_items : Items → Bytes
  bencode_items nil = []
  bencode_items (cons x xs) = bencode x ++ bencode_items xs

  -- Each key with its encoded value.
  pub encode_fields : Fields → List (Bytes × Bytes)
  encode_fields end = []
  encode_fields (field k v d) = (k, bencode v) ∷ encode_fields d

bencode_runs :
    bencode (
      dict (
        field
          (codes "b")
          (int (negsuc 4))
          (field (codes "a") (list (cons (bytes (codes "xyz")) nil)) end)))
    ≡ codes "d1:al3:xyze1:bi-5ee"
unfolding bencode bencode_bytes print_int join sort_keys lt_bytes decimal
bencode_runs = refl
