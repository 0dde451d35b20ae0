-- ===== src/Bencode/Layout.antt =====
-- The encodings that `bencode` of src/demagnetize/bencode.py writes, part by part.
use demagnetize.Prelude.{
  ◌+◌, ◌≤◌, ◌≡◌, refl, ap, none, List, [], ◌∷◌, ◌++◌, append_assoc, arith, Bytes, length,
  length-append_bytes,
}
use demagnetize.Prelude.Decimal.{decimal}
use demagnetize.Bencode.Value.{
  Value, Fields, bytes, int, list, dict, end, field, keys, Ascends, nesting,
}
use demagnetize.Bencode.Encode.{bencode_bytes, join, sort_keys, bencode, encode_fields}
use demagnetize.Bencode.Sorting.{firsts, sort_keys-Ascends}

pub length-bencode_pos : (v : Value) → 1 ≤ length (bencode v)
unfolding bencode bencode_bytes
length-bencode_pos (bytes b) = omega (arith, length-append_bytes (decimal (length b)) (b':' ∷ b))
length-bencode_pos (int i) = omega arith
length-bencode_pos (list xs) = omega arith
length-bencode_pos (dict d) = omega arith

pub nesting_pos : (v : Value) → 1 ≤ nesting v
unfolding nesting
nesting_pos (bytes b) = omega arith
nesting_pos (int i) = omega arith
nesting_pos (list xs) = omega arith
nesting_pos (dict d) = omega arith

pub firsts-encode_fields : (d : Fields) → firsts (encode_fields d) ≡ keys d
unfolding bencode
firsts-encode_fields end = refl
firsts-encode_fields (field k v d) = ap (λ ks. k ∷ ks) (firsts-encode_fields d)

-- The items of a canonical dict are encoded in their order.
pub sort_keys-encode_fields :
    (d : Fields) → Ascends none (keys d) → sort_keys (encode_fields d) ≡ encode_fields d
sort_keys-encode_fields d h =
    sort_keys-Ascends none (encode_fields d) (rw (firsts-encode_fields d) h)

pub join-cons :
    (k e rest : Bytes) (ps : List (Bytes × Bytes))
    → join ((k, e) ∷ ps) ++ rest ≡ bencode_bytes k ++ (e ++ (join ps ++ rest))
unfolding join
join-cons k e rest ps =
    rw (append_assoc (bencode_bytes k) (e ++ join ps) rest, append_assoc e (join ps) rest)

pub join-nil : (rest : Bytes) → join [] ++ rest ≡ rest
unfolding join
join-nil rest = refl

pub length-join :
    (k e : Bytes) (ps : List (Bytes × Bytes)) → length (join ps) + 1 ≤ length (join ((k, e) ∷ ps))
unfolding join bencode_bytes
length-join k e ps = omega (
  arith,
  length-append_bytes (decimal (length k)) (b':' ∷ k),
  length-append_bytes (decimal (length k) ++ b':' ∷ k) (e ++ join ps),
  length-append_bytes e (join ps),
)
