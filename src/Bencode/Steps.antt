-- ===== src/Bencode/Steps.antt =====
-- The branches of `decode_next` of src/demagnetize/bencode.py and the rounds of its loops.
use demagnetize.Prelude.{
  All, ℕ, zero, suc, ◌≤◌, ◌≡◌, refl, ◌∙◌, true, false, Option, none, some, [], ◌∷◌, ◌++◌,
  append_assoc, arith, Bytes, length, length-append_bytes, leb, le→leb, take-append, drop-append,
}
use demagnetize.Prelude.Int.{ℤ, pos}
use demagnetize.Prelude.Decimal.{is_digit, decimal, decimal-IsDigits, decimal_head}
use demagnetize.Errors.{Result, ok}
use demagnetize.Bencode.Value.{
  Value, Items, Fields, bytes, int, list, dict, nil, cons, end, set, append_items, is_after,
}
use demagnetize.Bencode.Encode.{print_int, bencode_bytes, bencode}
use demagnetize.Bencode.Decode.{
  Parser, getchar, peek_is, read_bytes, read_int, as_key, list_loop, dict_loop, read_string,
  decode_as, decode_next,
}
use demagnetize.Bencode.Number.{read_int-print_int}

-- A length prefix starts with a digit.
pub decimal_first : (n : ℕ) → (c : ℕ) × (s : Bytes) × (decimal n ≡ c ∷ s) × (is_digit c ≡ true)
decimal_first n = go (decimal_head n) (decimal-IsDigits n)
  where
    go :
        (c : ℕ) × (s : Bytes) × (decimal n ≡ c ∷ s) × (c ≡ b'0' → n ≡ 0) × (c ≡ b'0' → s ≡ [])
        → All (λ c. is_digit c ≡ true) (decimal n)
        → (c : ℕ) × (s : Bytes) × (decimal n ≡ c ∷ s) × (is_digit c ≡ true)
    go (c, s, e, _, _) h =
        let h' : All (λ c. is_digit c ≡ true) (c ∷ s) = rw e at h in (c, s, e, h'.0)

-- The first byte of an encoding, which is never that which ends a list or a dict.
pub peek_is-bencode : (v : Value) (rest : Bytes) → peek_is b'e' (bencode v ++ rest) ≡ false
unfolding peek_is bencode bencode_bytes
peek_is-bencode (bytes b) rest = let (c, s, e, h) = decimal_first (length b) in rw e (ground arith)
peek_is-bencode (int i) rest = refl
peek_is-bencode (list xs) rest = refl
peek_is-bencode (dict d) rest = refl

pub read_bytes-append : (b rest : Bytes) → read_bytes (length b) (b ++ rest) ≡ ok (b, rest)
unfolding read_bytes
read_bytes-append b rest =
    let fits : leb (length b) (length (b ++ rest)) ≡ true =
      le→leb _ _ (omega (arith, length-append_bytes b rest)) in
    rw (fits, take-append (length b) b rest refl, drop-append (length b) b rest refl)

-- A byte string is read off the front of any input.
pub read_string-bencode_bytes :
    (b rest : Bytes) → read_string (bencode_bytes b ++ rest) ≡ ok (bytes b, rest)
unfolding read_string bencode_bytes
read_string-bencode_bytes b rest =
    let prefix : read_int b':' (decimal (length b) ++ b':' ∷ (b ++ rest))
        ≡ ok (pos (length b), b ++ rest) =
      unfold print_int in read_int-print_int b':' (pos (length b)) (b ++ rest) refl (omega arith) in
    rw (append_assoc (decimal (length b)) (b':' ∷ b) rest, prefix, read_bytes-append b rest)

pub decode_next-digit :
    (depth c : ℕ) (s : Bytes)
    → is_digit c ≡ true
    → decode_next (suc depth) (c ∷ s) ≡ read_string (c ∷ s)
unfolding decode_next decode_as getchar
decode_next-digit depth c s h = ground arith

pub decode_next-bytes :
    (depth : ℕ) (b rest : Bytes)
    → 1 ≤ depth
    → decode_next depth (bencode_bytes b ++ rest) ≡ ok (bytes b, rest)
decode_next-bytes zero b rest h = absurd (omega arith)
decode_next-bytes (suc depth) b rest h =
    go (decimal_first (length b)) ∙ read_string-bencode_bytes b rest
  where
    go :
        (c : ℕ) × (s : Bytes) × (decimal (length b) ≡ c ∷ s) × (is_digit c ≡ true)
        → decode_next (suc depth) (bencode_bytes b ++ rest) ≡ read_string (bencode_bytes b ++ rest)
    go (c, s, e, digit) = unfold bencode_bytes in rw e (decode_next-digit depth c _ digit)

-- One round of each loop, with fuel that is not used up.
pub list_loop-step :
    (decode : Parser Value) (fuel : ℕ) (acc : Items) (s s' : Bytes) (v : Value)
    {r : Result (Items × Bytes)}
    → 1 ≤ fuel
    → peek_is b'e' s ≡ false
    → decode s ≡ ok (v, s')
    → ((f : ℕ) → fuel ≡ suc f → list_loop decode f (append_items acc (cons v nil)) s' ≡ r)
    → list_loop decode fuel acc s ≡ r
unfolding list_loop
list_loop-step decode zero acc s s' v f h e k = absurd (omega arith)
list_loop-step decode (suc fuel) acc s s' v f h e k = rw (h, e) (k fuel refl)

pub list_loop-end :
    (decode : Parser Value) (fuel : ℕ) (acc : Items) (rest : Bytes)
    → 1 ≤ fuel
    → list_loop decode fuel acc (b'e' ∷ rest) ≡ ok (acc, rest)
unfolding list_loop peek_is getchar
list_loop-end decode zero acc rest f = absurd (omega arith)
list_loop-end decode (suc fuel) acc rest f = refl

pub dict_loop-step :
    (decode : Parser Value) (fuel : ℕ) (prev : Option Bytes) (acc : Fields) (s s' s'' : Bytes)
    (k : Bytes) (v : Value) {r : Result (Fields × Bytes)}
    → 1 ≤ fuel
    → peek_is b'e' s ≡ false
    → decode s ≡ ok (bytes k, s')
    → is_after prev k ≡ true
    → decode s' ≡ ok (v, s'')
    → ((f : ℕ) → fuel ≡ suc f → dict_loop decode f (some k) (set acc k v) s'' ≡ r)
    → dict_loop decode fuel prev acc s ≡ r
unfolding dict_loop as_key
dict_loop-step decode zero prev acc s s' s'' k v f h e after e' n = absurd (omega arith)
dict_loop-step decode (suc fuel) prev acc s s' s'' k v f h e after e' n =
    rw (h, e, after, e') (n fuel refl)

pub dict_loop-end :
    (decode : Parser Value) (fuel : ℕ) (prev : Option Bytes) (acc : Fields) (rest : Bytes)
    → 1 ≤ fuel
    → dict_loop decode fuel prev acc (b'e' ∷ rest) ≡ ok (acc, rest)
unfolding dict_loop peek_is getchar
dict_loop-end decode zero prev acc rest f = absurd (omega arith)
dict_loop-end decode (suc fuel) prev acc rest f = refl

-- The three other branches of `decode_next`.
pub decode_next-int :
    (depth : ℕ) (i : ℤ) (rest : Bytes)
    → 1 ≤ depth
    → decode_next depth (b'i' ∷ (print_int i ++ b'e' ∷ rest)) ≡ ok (int i, rest)
unfolding decode_next decode_as getchar
decode_next-int zero i rest h = absurd (omega arith)
decode_next-int (suc depth) i rest h = rw (read_int-print_int b'e' i rest refl (omega arith))

pub decode_next-list :
    (depth : ℕ) (xs : Items) (s rest : Bytes)
    → 1 ≤ depth
    → ((d : ℕ) → depth ≡ suc d → list_loop (decode_next d) (suc (length s)) nil s ≡ ok (xs, rest))
    → decode_next depth (b'l' ∷ s) ≡ ok (list xs, rest)
unfolding decode_next decode_as getchar
decode_next-list zero xs s rest h k = absurd (omega arith)
decode_next-list (suc depth) xs s rest h k = rw (k depth refl)

pub decode_next-dict :
    (depth : ℕ) (d : Fields) (s rest : Bytes)
    → 1 ≤ depth
    → ((n : ℕ)
        → depth ≡ suc n
        → dict_loop (decode_next n) (suc (length s)) none end s ≡ ok (d, rest))
    → decode_next depth (b'd' ∷ s) ≡ ok (dict d, rest)
unfolding decode_next decode_as getchar
decode_next-dict zero d s rest h k = absurd (omega arith)
decode_next-dict (suc depth) d s rest h k = rw (k depth refl)
