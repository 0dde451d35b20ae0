-- ===== src/Bencode/Lookup.antt =====
-- dict.get on a value of src/demagnetize/bencode.py and on its canonical form.
use demagnetize.Prelude.{
  ◌≡◌, refl, ap, ◌∙◌, false, Option, none, some, List, [], ◌∷◌, arith, Bytes, All, if◌then◌else◌,
  Bool-cases, inl, inr,
}
use demagnetize.Prelude.Order.{lt_bytes, eq_bytes, eq_bytes_iff}
use demagnetize.Bencode.Value.{Value, Fields, end, field, get, keys}
use demagnetize.Bencode.Encode.{insert_key, sort_keys}
use demagnetize.Bencode.Sorting.{firsts, Differ, All-sort_keys}
use demagnetize.Bencode.Normal.{normalize, normalize_fields, from_pairs, firsts-normalize_fields}

get-insert_key :
    (k j : Bytes) (v : Value) (ps : List (Bytes × Value))
    → All (λ i. eq_bytes k i ≡ false) (firsts ps)
    → get (from_pairs (insert_key k v ps)) j
      ≡ (if eq_bytes k j then some v else get (from_pairs ps) j)
unfolding get insert_key
get-insert_key k j v [] h = refl
get-insert_key k j v ((i, w) ∷ ps) (new, h) = elim (Bool-cases (lt_bytes i k)) [
  | inl below ↦ rw below (
      ground
        (arith, get-insert_key k j v ps h, eq_bytes_iff k j, eq_bytes_iff i j, eq_bytes_iff k i))
  | inr above ↦ rw above
]

get-sort_keys :
    (j : Bytes) (ps : List (Bytes × Value))
    → Differ (firsts ps)
    → get (from_pairs (sort_keys ps)) j ≡ get (from_pairs ps) j
unfolding get sort_keys
get-sort_keys j [] h = refl
get-sort_keys j ((k, v) ∷ ps) (new, h) =
    get-insert_key k j v (sort_keys ps) (All-sort_keys _ ps new)
    ∙ ap (λ r. if eq_bytes k j then some v else r) (get-sort_keys j ps h)

abbrev pub map_value : Option Value → Option Value
map_value none = none
map_value (some v) = some (normalize v)

get-normalize_fields :
    (j : Bytes) (d : Fields) → get (from_pairs (normalize_fields d)) j ≡ map_value (get d j)
unfolding get normalize
get-normalize_fields j end = refl
get-normalize_fields j (field k v d) = ground (arith, get-normalize_fields j d)

-- Looking a key up in a dict's canonical form gives the canonical form of what the dict has there, if
-- the dict has no key twice.
pub get-normalize :
    (j : Bytes) (d : Fields)
    → Differ (keys d)
    → get (from_pairs (sort_keys (normalize_fields d))) j ≡ map_value (get d j)
get-normalize j d h =
    get-sort_keys j (normalize_fields d) (rw (firsts-normalize_fields d) h)
    ∙ get-normalize_fields j d
