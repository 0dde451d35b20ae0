-- ===== src/Bencode/RoundTrip.antt =====
-- `unbencode` of src/demagnetize/bencode.py on what `bencode` wrote.
use demagnetize.Prelude.{
  ℕ, ◌<◌, ◌≤◌, ◌≡◌, Option, none, some, [], ◌∷◌, ◌++◌, append_assoc, append-nil, arith, Bytes,
  length, length-append_bytes,
}
use demagnetize.Errors.{ok}
use demagnetize.Bencode.Value.{
  Value, Items, Fields, bytes, int, list, dict, nil, cons, end, field, keys, append_fields,
  append_items, Ascends, nesting, nesting_items, nesting_fields, IsCanonical, AreCanonical,
  HasCanonical,
}
use demagnetize.Bencode.Encode.{print_int, join, bencode, bencode_items, encode_fields}
use demagnetize.Bencode.Decode.{
  list_loop, dict_loop, decode_next, catch_recursion, partial_unbencode, unbencode,
}
use demagnetize.Bencode.Keys.{
  UpTo, set-UpTo, UpTo-append_fields, append_fields_assoc, append_items_assoc, append_items-nil,
  append_fields-end,
}
use demagnetize.Bencode.Layout.{
  length-bencode_pos, nesting_pos, sort_keys-encode_fields, join-cons, join-nil, length-join,
}
use demagnetize.Bencode.Steps.{
  peek_is-bencode, decode_next-bytes, list_loop-step, list_loop-end, dict_loop-step, dict_loop-end,
  decode_next-int, decode_next-list, decode_next-dict,
}

mutual
  unfolding bencode nesting IsCanonical

  decode_next-Reads :
      (v : Value) (depth : ℕ) (rest : Bytes)
      → IsCanonical v
      → nesting v ≤ depth
      → decode_next depth (bencode v ++ rest) ≡ ok (v, rest)
  decode_next-Reads (bytes b) depth rest c h = decode_next-bytes depth b rest h
  decode_next-Reads (int i) depth rest c h =
      rw (append_assoc (print_int i) (b'e' ∷ []) rest) (decode_next-int depth i rest h)
  decode_next-Reads (list xs) depth rest c h =
      rw (append_assoc (bencode_items xs) (b'e' ∷ []) rest) (
        decode_next-list depth xs _ rest (omega arith) λ d e.
          list_loop-Reads xs d _ nil rest c (omega arith)
            (omega (arith, length-append_bytes (bencode_items xs) (b'e' ∷ rest))))
  decode_next-Reads (dict d) depth rest (asc, c) h =
      rw (sort_keys-encode_fields d asc, append_assoc (join (encode_fields d)) (b'e' ∷ []) rest)
        (decode_next-dict depth d _ rest (omega arith) λ n e.
          dict_loop-Reads d n _ none end rest c asc tt (omega arith)
            (omega (arith, length-append_bytes (join (encode_fields d)) (b'e' ∷ rest))))

  list_loop-Reads :
      (xs : Items) (depth fuel : ℕ) (acc : Items) (rest : Bytes)
      → AreCanonical xs
      → nesting_items xs ≤ depth
      → length (bencode_items xs) < fuel
      → list_loop (decode_next depth) fuel acc (bencode_items xs ++ b'e' ∷ rest)
        ≡ ok (append_items acc xs, rest)
  list_loop-Reads nil depth fuel acc rest c h f =
      rw (append_items-nil acc) (list_loop-end (decode_next depth) fuel acc rest f)
  list_loop-Reads (cons x xs) depth fuel acc rest (c, cs) h f =
      rw (append_assoc (bencode x) (bencode_items xs) (b'e' ∷ rest)) (
        list_loop-step (decode_next depth) fuel acc _ _ x (omega arith) (peek_is-bencode x _)
          (decode_next-Reads x depth _ c (omega arith))
          λ f' e. rw (← append_items_assoc acc (cons x nil) xs) (
            list_loop-Reads xs depth f' (append_items acc (cons x nil)) rest cs (omega arith) (
              omega
                (arith, length-append_bytes (bencode x) (bencode_items xs), length-bencode_pos x))))

  dict_loop-Reads :
      (d : Fields) (depth fuel : ℕ) (prev : Option Bytes) (acc : Fields) (rest : Bytes)
      → HasCanonical d
      → Ascends prev (keys d)
      → UpTo prev acc
      → nesting_fields d ≤ depth
      → length (join (encode_fields d)) < fuel
      → dict_loop (decode_next depth) fuel prev acc (join (encode_fields d) ++ b'e' ∷ rest)
        ≡ ok (append_fields acc d, rest)
  dict_loop-Reads end depth fuel prev acc rest c asc u h f =
      rw (append_fields-end acc, join-nil)
        (dict_loop-end (decode_next depth) fuel prev acc rest (omega arith))
  dict_loop-Reads (field k v d) depth fuel prev acc rest (c, cs) (after, asc) u h f =
      rw (join-cons k (bencode v) (b'e' ∷ rest) (encode_fields d)) (
        dict_loop-step (decode_next depth) fuel prev acc _ _ _ k v (omega arith)
          (peek_is-bencode (bytes k) _) (decode_next-bytes depth k _ (omega (arith, nesting_pos v)))
          after (decode_next-Reads v depth _ c (omega arith))
          λ f' e.
            rw (set-UpTo prev k v acc after u, ← append_fields_assoc acc (field k v end) d)
              (dict_loop-Reads d depth f' (some k) _ rest cs asc
                (UpTo-append_fields prev k v acc after u) (omega arith)
                (omega (arith, length-join k (bencode v) (encode_fields d)))))

-- The encoding of a canonical value is decoded to it, whatever follows, if its nesting is within the
-- interpreter's.
pub decode_next-bencode :
    (v : Value) (depth : ℕ) (rest : Bytes)
    → IsCanonical v
    → nesting v ≤ depth
    → decode_next depth (bencode v ++ rest) ≡ ok (v, rest)
decode_next-bencode = decode_next-Reads

-- `partial_unbencode` reads a canonical value's encoding off the front of any input, and returns what
-- follows it, if the value is nested no deeper than the interpreter takes.
pub partial_unbencode-bencode :
    (v : Value) (depth : ℕ) (rest : Bytes)
    → IsCanonical v
    → nesting v ≤ depth
    → partial_unbencode depth (bencode v ++ rest) ≡ ok (v, rest)
unfolding partial_unbencode catch_recursion
partial_unbencode-bencode v depth rest c h = rw (decode_next-bencode v depth rest c h)

-- Decoding the encoding of a canonical value gives that value.
pub unbencode-bencode :
    (v : Value) (depth : ℕ) → IsCanonical v → nesting v ≤ depth → unbencode depth (bencode v) ≡ ok v
unfolding unbencode
unbencode-bencode v depth c h =
    let whole : partial_unbencode depth (bencode v) ≡ ok (v, []) =
      rw (append-nil (bencode v)) at (partial_unbencode-bencode v depth [] c h) in
    rw whole
