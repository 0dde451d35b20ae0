-- ===== src/Bencode/Sound.antt =====
-- `unbencode` and `partial_unbencode` of src/demagnetize/bencode.py on any input.
use mathlib.Core.Path.{ap₂}
use demagnetize.Prelude.{
  ==_iff, ℕ, zero, suc, ◌<◌, ◌≤◌, ◌≡◌, ◌↔◌, refl, sym, ap, ◌∙◌, true, Option, none, some, [], ◌∷◌,
  ◌++◌, append_assoc, append-nil, arith, Bytes, length, length-append_bytes, leb, leb→le,
  take-append-drop, length-take, is_empty, ◌==◌,
}
use demagnetize.Prelude.Int.{ℤ, pos, negsuc, pos_part}
use demagnetize.Prelude.Decimal.{is_digit, decimal}
use demagnetize.Errors.{
  Error, Result, ok, err, unbencode_error, recursion_error, value_error, is_decode_error,
  is_value_error, Yields, returns, raises, Yields-ok, Yields-err, Yields-if, Yields->>=, Yields-map,
  Yields-guard,
}
use demagnetize.Bencode.Value.{
  Value, Items, Fields, bytes, nil, cons, end, field, keys, append_fields, append_items, is_after,
  Ascends, nesting, nesting_items, nesting_fields, IsCanonical, AreCanonical, HasCanonical,
}
use demagnetize.Bencode.Encode.{
  print_int, bencode_bytes, join, bencode, bencode_items, encode_fields,
}
use demagnetize.Bencode.Decode.{
  Parser, getchar, read_digits, is_invalid, parse_int, peek_is, read_bytes, read_int, as_key,
  list_loop, dict_loop, read_string, decode_as, decode_next, catch_recursion, partial_unbencode,
  unbencode,
}
use demagnetize.Bencode.Number.{read_int-Yields}
use demagnetize.Bencode.Keys.{
  UpTo, set-UpTo, UpTo-append_fields, append_fields_assoc, append_items_assoc, append_items-nil,
  append_fields-end,
}
use demagnetize.Bencode.Layout.{sort_keys-encode_fields, join-cons, join-nil, length-bencode_pos}
use demagnetize.Bencode.RoundTrip.{unbencode-bencode}

abbrev pub IsRaised : Error → Type 0
IsRaised e = is_decode_error e ≡ true

-- The input is the encoding of the canonical value read, with the rest behind it.
abbrev pub Decoded : ℕ → Bytes → Value × Bytes → Type 0
Decoded depth s (v, rest) = (s ≡ bencode v ++ rest) × IsCanonical v × (nesting v ≤ depth)

peek_is→eq :
    (c : ℕ) (s : Bytes)
    → peek_is c s ≡ true
    → (rest : Bytes) × (s ≡ c ∷ rest) × (getchar s ≡ ok (c, rest))
unfolding peek_is getchar
peek_is→eq c [] h = cc
peek_is→eq c (b ∷ s) h = (s, ground arith, ground arith)

getchar-Yields : (s : Bytes) → Yields (λ (c, rest). s ≡ c ∷ rest) IsRaised (getchar s)
unfolding getchar
getchar-Yields [] = raises refl
getchar-Yields (c ∷ s) = returns refl

as_key-Yields : (v : Value) → Yields (λ k. v ≡ bytes k) IsRaised (as_key v)
unfolding as_key
as_key-Yields (bytes b) = returns refl
as_key-Yields _ = raises refl

read_bytes-Yields :
    (n : ℕ) (s : Bytes)
    → Yields (λ (b, rest). (s ≡ b ++ rest) × (length b ≡ n)) IsRaised (read_bytes n s)
unfolding read_bytes
read_bytes-Yields n s =
    Yields-if (leb n (length s))
      (λ h.
        returns (sym (take-append-drop n s), omega (arith, length-take n s, leb→le n (length s) h)))
      λ _. raises refl

-- An integer that starts with a digit is not negative.
print_int-digit :
    (i : ℤ) (c : ℕ) (s t : Bytes)
    → is_digit c ≡ true
    → c ∷ s ≡ print_int i ++ t
    → print_int i ≡ decimal (pos_part i)
unfolding print_int
print_int-digit (pos n) c s t h e = refl
print_int-digit (negsuc n) c s t h e = ground arith

read_string-Yields :
    (depth c : ℕ) (s : Bytes)
    → is_digit c ≡ true
    → Yields (Decoded (suc depth) (c ∷ s)) IsRaised (read_string (c ∷ s))
unfolding read_string bencode bencode_bytes IsCanonical nesting
read_string-Yields depth c s h = Yields->>= (read_int-Yields b':' (c ∷ s)) λ (i, s') e.
    Yields->>= (read_bytes-Yields (pos_part i) s') λ (b, rest) (e', len). returns (
      e
          ∙ rw (print_int-digit i c s _ h e, ← len, e')
              (sym (append_assoc (decimal (length b)) (b':' ∷ b) rest)),
      tt,
      omega arith,
    )

module _ (depth : ℕ) (decode : Parser Value)
    (sound : (s : Bytes) → Yields (Decoded depth s) IsRaised (decode s)) where
  list_loop-Yields :
      (fuel : ℕ) (acc : Items) (s : Bytes)
      → length s < fuel
      → Yields
          (λ (ys, rest).
            (xs : Items) × (ys ≡ append_items acc xs)
            × (s ≡ bencode_items xs ++ b'e' ∷ rest)
            × AreCanonical xs
            × (nesting_items xs ≤ depth))
          IsRaised
          (list_loop decode fuel acc s)
  unfolding list_loop bencode IsCanonical nesting
  list_loop-Yields zero acc s h = absurd (omega arith)
  list_loop-Yields (suc fuel) acc s h =
      Yields-if (peek_is b'e' s)
        (λ stop.
          let (rest, e, e') = peek_is→eq b'e' s stop in
          rw e' (returns (nil, sym (append_items-nil acc), e, tt, omega arith)))
        λ _. Yields->>= (sound s) λ (v, s') (e, c, n).
          Yields-map
            (list_loop-Yields fuel (append_items acc (cons v nil)) s' (
              omega (arith, ap length e, length-append_bytes (bencode v) s', length-bencode_pos v)))
            λ (ys, rest) (xs, e', e'', cs, ns). (
              cons v xs,
              e' ∙ append_items_assoc acc (cons v nil) xs,
              rw (e, e'') (sym (append_assoc (bencode v) (bencode_items xs) (b'e' ∷ rest))),
              (c, cs),
              omega arith,
            )

  dict_loop-Yields :
      (fuel : ℕ) (prev : Option Bytes) (acc : Fields) (s : Bytes)
      → UpTo prev acc
      → length s < fuel
      → Yields
          (λ (d', rest).
            (d : Fields) × (d' ≡ append_fields acc d)
            × (s ≡ join (encode_fields d) ++ b'e' ∷ rest)
            × Ascends prev (keys d)
            × HasCanonical d
            × (nesting_fields d ≤ depth))
          IsRaised
          (dict_loop decode fuel prev acc s)
  unfolding dict_loop bencode IsCanonical nesting
  dict_loop-Yields zero prev acc s u h = absurd (omega arith)
  dict_loop-Yields (suc fuel) prev acc s u h =
      Yields-if (peek_is b'e' s)
        (λ stop.
          let (rest, e, e') = peek_is→eq b'e' s stop in
          rw e'
            (returns (end, sym (append_fields-end acc), e ∙ sym (join-nil _), tt, tt, omega arith)))
        λ _. Yields->>= (sound s) λ (kv, s') (e, _, _). Yields->>= (as_key-Yields kv) λ k ek.
          Yields-guard (is_after prev k) _ refl λ after.
            Yields->>= (sound s') λ (v, s'') (e', c, n).
              let shape : s ≡ bencode_bytes k ++ (bencode v ++ s'') =
                e ∙ (ap (λ x. bencode x ++ s') ek ∙ ap (λ t. bencode_bytes k ++ t) e') in
              let pos_key : 1 ≤ length (bencode_bytes k) = length-bencode_pos (bytes k) in
              let shorter : length s'' < fuel = omega (
                arith,
                ap length shape,
                length-append_bytes (bencode_bytes k) (bencode v ++ s''),
                length-append_bytes (bencode v) s'',
              ) in
              rw (set-UpTo prev k v acc after u) (
                Yields-map
                  (dict_loop-Yields fuel (some k) _ s'' (UpTo-append_fields prev k v acc after u)
                    shorter)
                  λ (d', rest) (d, e₁, e₂, asc, cs, ns). (
                    field k v d,
                    e₁ ∙ append_fields_assoc acc (field k v end) d,
                    shape
                        ∙ (ap (λ t. bencode_bytes k ++ (bencode v ++ t)) e₂
                            ∙ sym (join-cons k (bencode v) (b'e' ∷ rest) (encode_fields d))),
                    (after, asc),
                    (c, cs),
                    omega arith,
                  ))

  decode_as-Yields :
      (c : ℕ) (s : Bytes) → Yields (Decoded (suc depth) (c ∷ s)) IsRaised (decode_as decode c s)
  unfolding decode_as bencode IsCanonical nesting
  decode_as-Yields c s =
      Yields-if (c == b'd')
        (λ h.
          Yields->>= (dict_loop-Yields (suc (length s)) none end s tt (omega arith))
            λ (d', rest) (d, e, e', asc, cs, ns). returns (
              rw (e, sort_keys-encode_fields d asc)
                (
                  ap₂ ◌∷◌ ((==_iff c b'd').0 h)
                      (e' ∙ sym (append_assoc (join (encode_fields d)) (b'e' ∷ []) rest)),
                  (asc, cs),
                  omega arith,
                )))
        λ _.
          Yields-if (c == b'l')
            (λ h.
              Yields->>= (list_loop-Yields (suc (length s)) nil s (omega arith))
                λ (ys, rest) (xs, e, e', cs, ns). returns (
                  rw e (
                    ap₂ ◌∷◌ ((==_iff c b'l').0 h)
                        (e' ∙ sym (append_assoc (bencode_items xs) (b'e' ∷ []) rest)),
                    cs,
                    omega arith,
                  )))
            λ _.
              Yields-if (c == b'i')
                (λ h. Yields->>= (read_int-Yields b'e' s) λ (i, rest) e. returns (
                  ap₂ ◌∷◌ ((==_iff c b'i').0 h)
                      (e ∙ sym (append_assoc (print_int i) (b'e' ∷ []) rest)),
                  tt,
                  omega arith,
                ))
                λ _. Yields-if (is_digit c) (λ h. read_string-Yields depth c s h) λ _. raises refl

-- `decode_next` reads the encoding of a canonical value off the input, whose nesting is within the
-- interpreter's, or raises an `UnbencodeError`, a `ValueError` or a `RecursionError`. It ends on every
-- input: the fuel of its loops is never used up.
pub decode_next-Yields :
    (depth : ℕ) (s : Bytes) → Yields (Decoded depth s) IsRaised (decode_next depth s)
unfolding decode_next
decode_next-Yields zero s = raises refl
decode_next-Yields (suc depth) s =
    Yields->>= (getchar-Yields s)
      λ (c, s') e. rw e (decode_as-Yields depth (decode_next depth) (decode_next-Yields depth) c s')

is_empty→eq : (s : Bytes) → is_empty s ≡ true → s ≡ []
is_empty→eq [] h = refl
is_empty→eq (b ∷ s) h = cc

catch_recursion-Yields {ℓ} :
    {A : Type ℓ} {P : A → Type 0} {r : Result A}
    → Yields P IsRaised r
    → Yields P (λ e. is_value_error e ≡ true) (catch_recursion r)
unfolding catch_recursion
catch_recursion-Yields (returns h) = returns h
catch_recursion-Yields (raises {e = unbencode_error m} h) = raises refl
catch_recursion-Yields (raises {e = recursion_error} h) = raises refl
catch_recursion-Yields (raises {e = value_error} h) = raises refl
catch_recursion-Yields (raises h) = cc

-- On every input `partial_unbencode` either splits it into the encoding of a canonical value, which it
-- returns, and the trailing bytes, or raises a `ValueError` (of which `UnbencodeError` is a subclass).
pub partial_unbencode-Yields :
    (depth : ℕ) (blob : Bytes)
    → Yields (Decoded depth blob) (λ e. is_value_error e ≡ true) (partial_unbencode depth blob)
unfolding partial_unbencode
partial_unbencode-Yields depth blob = catch_recursion-Yields (decode_next-Yields depth blob)

pub unbencode-Yields :
    (depth : ℕ) (blob : Bytes)
    → Yields
        (λ v. (blob ≡ bencode v) × IsCanonical v × (nesting v ≤ depth))
        (λ e. is_value_error e ≡ true)
        (unbencode depth blob)
unfolding unbencode
unbencode-Yields depth blob =
    Yields->>= (partial_unbencode-Yields depth blob) λ (v, trailing) (e, c, n).
      Yields-guard (is_empty trailing) _ refl λ none_left.
        returns (e ∙ rw (is_empty→eq trailing none_left) (append-nil (bencode v)), c, n)

-- `unbencode` accepts exactly the encodings of canonical values whose nesting is within the
-- interpreter's, and returns the value encoded.
pub unbencode-eq-ok_iff :
    (depth : ℕ) (blob : Bytes) (v : Value)
    → (unbencode depth blob ≡ ok v) ↔ ((blob ≡ bencode v) × IsCanonical v × (nesting v ≤ depth))
unbencode-eq-ok_iff depth blob v =
    (Yields-ok (unbencode-Yields depth blob), λ (e, c, n). rw e (unbencode-bencode v depth c n))

-- Whatever the input, `unbencode` raises nothing but a `ValueError`; the recursion limit, too, shows as
-- an `UnbencodeError`.
pub unbencode-eq-err :
    (depth : ℕ) (blob : Bytes) (e : Error) → unbencode depth blob ≡ err e → is_value_error e ≡ true
unbencode-eq-err depth blob e = Yields-err (unbencode-Yields depth blob)

-- An integer that is a minus sign alone raises a `ValueError` which is no `UnbencodeError`.
pub partial_unbencode-lone_minus :
    (depth : ℕ) (rest : Bytes)
    → partial_unbencode (suc depth) (b'i' ∷ b'-' ∷ b'e' ∷ rest) ≡ err value_error
unfolding partial_unbencode catch_recursion decode_next decode_as getchar read_int read_digits
    is_invalid parse_int
partial_unbencode-lone_minus depth rest = refl
