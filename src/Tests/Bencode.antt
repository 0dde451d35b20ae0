-- ===== src/Tests/Bencode.antt =====
-- src/demagnetize/bencode.py at concrete inputs, as in test/test_bencode.py.
use demagnetize.Prelude.{◌++◌, ◌≡◌, ◌↔◌, ◌≤◌, refl, true, arith, ◌∷◌, codes}
use demagnetize.Prelude.Int.{negsuc}
use demagnetize.Prelude.Order.{lt_bytes, eq_bytes}
use demagnetize.Prelude.Decimal.{decimal, read_decimal}
use demagnetize.Errors.{
  ok, err, Yields, value_error, unbencode_error, is_value_error, non_digit, unsorted_keys,
  trailing_bytes, too_nested, short_input,
}
use demagnetize.Bencode.Value.{
  Fields, bytes, int, list, dict, nil, cons, end, field, get, set, nesting, IsCanonical,
}
use demagnetize.Bencode.Encode.{bencode, bencode_bytes, print_int, join, sort_keys}
use demagnetize.Bencode.Decode.{
  getchar, peek_is, read_bytes, read_digits, is_invalid, parse_int, read_int, as_key, list_loop,
  dict_loop, read_string, decode_as, decode_next, catch_recursion, partial_unbencode, unbencode,
}
use demagnetize.Bencode.RoundTrip.{partial_unbencode-bencode}
use demagnetize.Bencode.Sound.{
  Decoded, partial_unbencode-Yields, unbencode-eq-ok_iff, unbencode-eq-err,
  partial_unbencode-lone_minus,
}
use demagnetize.Bencode.Normal.{
  IsDict, normalize, unbencode-bencode-normalize, from_pairs, normalize_fields,
}
use demagnetize.Bencode.Lookup.{map_value, get-normalize}

-- {b"b": -5, b"a": [b"xyz"]}, its items not in order
abbrev sample_items : Fields
sample_items =
    field (codes "b") (int (negsuc 4))
      (field (codes "a") (list (cons (bytes (codes "xyz")) nil)) end)

abbrev sorted_items : Fields
sorted_items =
    field (codes "a") (list (cons (bytes (codes "xyz")) nil))
      (field (codes "b") (int (negsuc 4)) end)

bencode_sample : bencode (dict sample_items) ≡ codes "d1:al3:xyze1:bi-5ee"
unfolding bencode bencode_bytes print_int join sort_keys lt_bytes decimal
bencode_sample = refl

unbencode_runs :
    (unbencode 3 (codes "d1:al3:xyze1:bi-5ee") ≡ ok (dict sorted_items))
    × (unbencode 2 (codes "d1:al3:xyze1:bi-5ee") ≡ err (unbencode_error too_nested))
    × (unbencode 3 (codes "d1:bi1e1:ai2ee") ≡ err (unbencode_error unsorted_keys))
    × (unbencode 3 (codes "i5ex") ≡ err (unbencode_error trailing_bytes))
    × (unbencode 3 (codes "5:abc") ≡ err (unbencode_error short_input))
    × (unbencode 3 (codes "i1-e") ≡ err (unbencode_error non_digit))
unfolding unbencode partial_unbencode catch_recursion decode_next decode_as read_string list_loop
    dict_loop as_key read_int parse_int is_invalid read_digits read_bytes peek_is getchar
    read_decimal set eq_bytes lt_bytes
unbencode_runs = (refl, refl, refl, refl, refl, refl)

unbencode-eq-ok_iff_example :
    (unbencode 3 (codes "d1:al3:xyze1:bi-5ee") ≡ ok (dict sorted_items)) ↔ (
      (codes "d1:al3:xyze1:bi-5ee" ≡ bencode (dict sorted_items))
      × IsCanonical (dict sorted_items)
      × (nesting (dict sorted_items) ≤ 3))
unbencode-eq-ok_iff_example =
    unbencode-eq-ok_iff 3 (codes "d1:al3:xyze1:bi-5ee") (dict sorted_items)

unbencode-bencode-normalize_example :
    unbencode 3 (bencode (dict sample_items)) ≡ ok (normalize (dict sample_items))
unfolding IsDict nesting eq_bytes
unbencode-bencode-normalize_example =
    unbencode-bencode-normalize (dict sample_items) 3 (((refl, tt), (tt, tt)), (tt, ((tt, tt), tt)))
      (omega arith)

partial_unbencode-bencode_runs :
    partial_unbencode 3 (bencode (dict sorted_items) ++ codes "rest")
    ≡ ok (dict sorted_items, codes "rest")
unfolding IsCanonical nesting lt_bytes
partial_unbencode-bencode_runs =
    partial_unbencode-bencode (dict sorted_items) 3 (codes "rest")
      ((refl, (refl, tt)), ((tt, tt), (tt, tt))) (omega arith)

partial_unbencode-Yields_example :
    Yields
      (Decoded 9 (codes "i5eli"))
      (λ e. is_value_error e ≡ true)
      (partial_unbencode 9 (codes "i5eli"))
partial_unbencode-Yields_example = partial_unbencode-Yields 9 (codes "i5eli")

unbencode-eq-err_runs : is_value_error (unbencode_error trailing_bytes) ≡ true
unfolding unbencode partial_unbencode catch_recursion decode_next decode_as read_int parse_int
    is_invalid read_digits getchar
unbencode-eq-err_runs = unbencode-eq-err 3 (codes "i5ex") (unbencode_error trailing_bytes) refl

partial_unbencode-lone_minus_runs :
    partial_unbencode 1 (b'i' ∷ b'-' ∷ b'e' ∷ codes "7") ≡ err value_error
partial_unbencode-lone_minus_runs = partial_unbencode-lone_minus 0 (codes "7")

get-normalize_runs :
    get (from_pairs (sort_keys (normalize_fields sample_items))) (codes "b")
    ≡ map_value (get sample_items (codes "b"))
unfolding eq_bytes
get-normalize_runs = get-normalize (codes "b") sample_items ((refl, tt), (tt, tt))
