-- ===== src/Bencode/Number.antt =====
-- `read_int` of src/demagnetize/bencode.py and the integers that `b"%d"` prints.
use demagnetize.Prelude.{
  ◌∙◌, ℕ, zero, suc, ◌<◌, ◌≡◌, refl, sym, ap, ◌≢◌, ◌⊎◌, true, false, ◌&&◌, ◌||◌, [], ◌∷◌, ◌++◌,
  append_assoc, append-nil, arith, Bytes, All, ◌==◌, if◌then◌else◌,
}
use demagnetize.Prelude.Int.{ℤ, pos, negsuc, neg}
use demagnetize.Prelude.Decimal.{
  is_digit, decimal, read_decimal, decimal-read, read_decimal-decimal, decimal-IsDigits,
  decimal_head,
}
use demagnetize.Errors.{
  is_decode_error, Yields-map, Error, ok, Yields, returns, raises, Yields-if, Yields->>=,
  Yields-guard,
}
use demagnetize.Bencode.Encode.{print_int}
use demagnetize.Bencode.Decode.{read_digits, is_invalid, parse_int, read_int}

abbrev pub AreDigits : Bytes → Type 0
AreDigits s = All (λ c. is_digit c ≡ true) s

-- Digits are read up to the byte that ends them.
read_digits-append :
    (stop : ℕ) (acc s rest : Bytes)
    → is_digit stop ≡ false
    → AreDigits s
    → read_digits stop acc (s ++ stop ∷ rest) ≡ ok (acc ++ s, rest)
unfolding read_digits
read_digits-append stop acc [] rest h k = ground (arith, append-nil acc)
read_digits-append stop acc (d ∷ s) rest h (p, k) =
    ground (arith, read_digits-append stop (acc ++ d ∷ []) s rest h k, append_assoc acc (d ∷ []) s)

-- A print is a number that `read_int` accepts, with a minus sign if it is positive.
is_invalid-decimal :
    (n : ℕ)
    → (is_invalid (decimal n) ≡ false)
      × (0 < n → is_invalid (b'-' ∷ decimal n) ≡ false)
      × (parse_int (decimal n) ≡ ok (pos n))
      × (parse_int (b'-' ∷ decimal n) ≡ ok (neg n))
unfolding is_invalid parse_int read_decimal
is_invalid-decimal n = go (decimal n) (decimal_head n) (decimal-IsDigits n) (read_decimal-decimal n)
  where
    go :
        (t : Bytes)
        → (c : ℕ) × (s : Bytes) × (t ≡ c ∷ s) × (c ≡ b'0' → n ≡ 0) × (c ≡ b'0' → s ≡ [])
        → AreDigits t
        → read_decimal 0 t ≡ n
        → (is_invalid t ≡ false)
          × (0 < n → is_invalid (b'-' ∷ t) ≡ false)
          × (parse_int t ≡ ok (pos n))
          × (parse_int (b'-' ∷ t) ≡ ok (neg n))
    go [] (c, s, e, p, q) h r = cc
    go (d ∷ []) (c, s, e, p, q) (hd, ht) r =
        (ground arith, λ m. ground arith, ground arith, ground arith)
    go (d ∷ d' ∷ t) (c, s, e, p, q) (hd, ht) r =
        (ground arith, λ m. ground arith, ground arith, ground arith)

-- A printed integer is read back.
pub read_int-print_int :
    (stop : ℕ) (i : ℤ) (rest : Bytes)
    → is_digit stop ≡ false
    → stop ≢ b'-'
    → read_int stop (print_int i ++ stop ∷ rest) ≡ ok (i, rest)
unfolding print_int read_int read_digits
read_int-print_int stop (pos n) rest h k =
    let (valid, _, parsed, _) = is_invalid-decimal n in
    rw (read_digits-append stop [] (decimal n) rest h (decimal-IsDigits n), valid, parsed)
read_int-print_int stop (negsuc n) rest h k =
    let (_, valid, _, parsed) = is_invalid-decimal (suc n) in
    let digits : AreDigits (decimal (suc n)) = decimal-IsDigits (suc n) in
    let read : read_digits stop [] (b'-' ∷ (decimal (suc n) ++ stop ∷ rest))
        ≡ ok (b'-' ∷ decimal (suc n), rest) =
      ground (arith, read_digits-append stop (b'-' ∷ []) (decimal (suc n)) rest h digits) in
    rw (read, valid (omega arith), parsed) (ground arith)

-- What `read_int` raises.
abbrev IsRaised : Error → Type 0
IsRaised e = is_decode_error e ≡ true

-- Behind the first byte only digits are read.
read_digits_after-Yields :
    (stop c : ℕ) (acc s : Bytes)
    → Yields
        (λ (num, rest). (t : Bytes) × (num ≡ (c ∷ acc) ++ t) × (s ≡ t ++ stop ∷ rest) × AreDigits t)
        IsRaised
        (read_digits stop (c ∷ acc) s)
unfolding read_digits
read_digits_after-Yields stop c acc [] = raises refl
read_digits_after-Yields stop c acc (d ∷ s) =
    Yields-if (d == stop)
      (λ e. returns ([], ap (λ t. c ∷ t) (sym (append-nil acc)), ground arith, tt))
      λ _.
        Yields-if (is_digit d || d == b'-' && false)
          (λ h.
            Yields-map (read_digits_after-Yields stop c (acc ++ d ∷ []) s)
              λ (num, rest) (t, e, e', ds). (
                d ∷ t,
                e ∙ ap (λ u. c ∷ u) (append_assoc acc (d ∷ []) t),
                ap (λ u. d ∷ u) e',
                (ground arith, ds),
              ))
          λ _. raises refl

-- Digits, the first of which may be a minus sign instead.
abbrev IsSigned : Bytes → Type 0
IsSigned [] = Unit
IsSigned (c ∷ t) = ((is_digit c ≡ true) ⊎ (c ≡ b'-')) × AreDigits t

read_digits-Yields :
    (stop : ℕ) (s : Bytes)
    → Yields
        (λ (num, rest). (s ≡ num ++ stop ∷ rest) × IsSigned num)
        IsRaised
        (read_digits stop [] s)
unfolding read_digits
read_digits-Yields stop [] = raises refl
read_digits-Yields stop (d ∷ s) =
    Yields-if (d == stop) (λ e. returns (ground arith, tt))
      λ _.
        Yields-if (is_digit d || d == b'-' && true)
          (λ h.
            Yields-map (read_digits_after-Yields stop d [] s)
              λ (num, rest) (t, e, e', ds). rw (e, e') (refl, (ground arith, ds)))
          λ _. raises refl

print_int-neg : (n : ℕ) → n ≢ 0 → print_int (neg n) ≡ b'-' ∷ decimal n
unfolding print_int
print_int-neg zero h = absurd (h refl)
print_int-neg (suc n) h = ground arith

head_of_zero : (d : ℕ) (t : Bytes) → decimal 0 ≡ d ∷ t → d ≡ b'0'
unfolding decimal
head_of_zero d t h = ground arith

parse_int-Yields :
    (num : Bytes)
    → IsSigned num
    → is_invalid num ≡ false
    → Yields (λ i. num ≡ print_int i) IsRaised (parse_int num)
unfolding is_invalid parse_int print_int
parse_int-Yields [] h v = cc
parse_int-Yields (c ∷ []) (h, ds) v =
    Yields-if (c == b'-') (λ _. raises refl)
      λ e. returns (sym (decimal-read c [] (ground arith) tt (λ _. refl)))
parse_int-Yields (c ∷ d ∷ t) (h, ds) v =
    let zeros : (c ≡ b'0' → ⊥) × (c ≡ b'-' → d ≡ b'0' → ⊥) =
      (λ z. ground arith, λ z z'. ground arith) in
    Yields-if (c == b'-')
      (λ e.
        let canonical : decimal (read_decimal 0 (d ∷ t)) ≡ d ∷ t =
          decimal-read d t ds.0 ds.1 (λ z. absurd (zeros.1 (ground arith) z)) in
        let positive : read_decimal 0 (d ∷ t) ≢ 0 =
          λ z. zeros.1 (ground arith) (head_of_zero d t (rw z at canonical)) in
        returns (rw (print_int-neg _ positive, canonical) (ground arith)))
      λ e. returns (sym (decimal-read c (d ∷ t) (ground arith) ds (λ z. absurd (zeros.0 z))))

-- What `read_int` accepts is a printed integer with `stop` behind it.
pub read_int-Yields :
    (stop : ℕ) (s : Bytes)
    → Yields (λ (i, rest). s ≡ print_int i ++ stop ∷ rest) IsRaised (read_int stop s)
unfolding read_int
read_int-Yields stop s = Yields->>= (read_digits-Yields stop s) λ (num, rest) (e, signed).
    Yields-guard (if is_invalid num then false else true) _ refl λ valid.
      Yields->>= (parse_int-Yields num signed (ground arith)) λ i e'. returns (rw e (rw e'))
