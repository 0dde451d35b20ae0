-- ===== src/Bencode/Decode.antt =====
-- `Unbencoder`, `partial_unbencode` and `unbencode`.
-- The state of an `Unbencoder` is what it has not read: `buff[index:]`. A method takes it and returns
-- it with its result.
use demagnetize.Prelude.{
  ℕ, zero, suc, Bool, true, false, ◌&&◌, ◌||◌, Option, none, some, [], ◌∷◌, ◌++◌, Bytes, length,
  take, drop, is_empty, leb, ◌==◌, if◌then◌else◌,
}
use demagnetize.Prelude.Int.{ℤ, pos, neg, pos_part}
use demagnetize.Prelude.Decimal.{is_digit, read_decimal}
use demagnetize.Errors.{
  Result, ok, err, ◌>>=◌, ◌>>◌, guard, unbencode_error, value_error, recursion_error, out_of_fuel,
  short_input, non_digit, invalid_integer, invalid_byte, non_bytes_key, unsorted_keys,
  trailing_bytes, too_nested,
}
use demagnetize.Bencode.Value.{
  Value, Items, Fields, bytes, int, list, dict, nil, cons, end, set, append_items, is_after,
}

abbrev pub Parser {ℓ} : Type ℓ → Type ℓ
Parser A = Bytes → Result (A × Bytes)

-- getchar
unfoldable pub getchar : Parser ℕ
getchar [] = err (unbencode_error short_input)
getchar (b ∷ rest) = ok (b, rest)

-- `self.peek() == c`; at the end of the input `peek` returns b"".
unfoldable pub peek_is : ℕ → Bytes → Bool
peek_is c [] = false
peek_is c (b ∷ rest) = b == c

-- read_bytes
unfoldable pub read_bytes : ℕ → Parser Bytes
read_bytes n rest =
    if leb n (length rest) then ok (take n rest, drop n rest) else err (unbencode_error short_input)

-- The loop of `read_int`: the digits up to the byte `stop`.
unfoldable pub read_digits : ℕ → Bytes → Parser Bytes
read_digits stop digits [] = err (unbencode_error short_input)
read_digits stop digits (d ∷ rest) =
    if d == stop
    then ok (digits, rest)
    else if is_digit d || d == b'-' && is_empty digits
    then read_digits stop (digits ++ d ∷ []) rest
    else err (unbencode_error non_digit)

-- `not num or (num[0] == "0" and len(digits) > 1) or num[0:2] == "-0"`
unfoldable pub is_invalid : Bytes → Bool
is_invalid [] = true
is_invalid (c ∷ []) = false
is_invalid (c ∷ d ∷ ds) = c == b'0' || c == b'-' && d == b'0'

-- `int(num, 10)` of digits that may have a sign; a sign alone is a `ValueError`.
unfoldable pub parse_int : Bytes → Result ℤ
parse_int [] = err value_error
parse_int (c ∷ ds) =
    if c == b'-'
    then (if is_empty ds then err value_error else ok (neg (read_decimal 0 ds)))
    else ok (pos (read_decimal 0 (c ∷ ds)))

-- read_int
unfoldable pub read_int : ℕ → Parser ℤ
read_int stop s = do
  (num, rest) ← read_digits stop [] s
  guard (if is_invalid num then false else true) (unbencode_error invalid_integer)
  i ← parse_int num
  ok (i, rest)

-- `isinstance(key, bytes)`
unfoldable pub as_key : Value → Result Bytes
as_key (bytes b) = ok b
as_key _ = err (unbencode_error non_bytes_key)

-- The loop over a list's items; `decode` is the call of `decode_next`, with fuel for the rounds.
unfoldable pub list_loop : Parser Value → ℕ → Items → Parser Items
list_loop decode zero blist s = err out_of_fuel
list_loop decode (suc fuel) blist s =
    let more = do (v, s') ← decode s; list_loop decode fuel (append_items blist (cons v nil)) s'
    in if peek_is b'e' s then (do (_, s') ← getchar s; ok (blist, s')) else more

-- The loop over a dict's items.
unfoldable pub dict_loop : Parser Value → ℕ → Option Bytes → Fields → Parser Fields
dict_loop decode zero prev bdict s = err out_of_fuel
dict_loop decode (suc fuel) prev bdict s =
    let more = do
      (k, s') ← decode s
      key ← as_key k
      guard (is_after prev key) (unbencode_error unsorted_keys)
      (v, s'') ← decode s'
      dict_loop decode fuel (some key) (set bdict key v) s''
    in if peek_is b'e' s then (do (_, s') ← getchar s; ok (bdict, s')) else more

-- What follows a digit: `self.index -= 1` puts the digit back, and the number is no less than 0.
unfoldable pub read_string : Parser Value
read_string s = do
  (n, s') ← read_int b':' s
  (b, s'') ← read_bytes (pos_part n) s'
  ok (bytes b, s'')

-- `decode_next`, dispatched on the byte read.
unfoldable pub decode_as : Parser Value → ℕ → Parser Value
decode_as decode c s =
    if c == b'd'
    then (do (d, s') ← dict_loop decode (suc (length s)) none end s; ok (dict d, s'))
    else if c == b'l'
    then (do (xs, s') ← list_loop decode (suc (length s)) nil s; ok (list xs, s'))
    else if c == b'i'
    then (do (i, s') ← read_int b'e' s; ok (int i, s'))
    else if is_digit c
    then read_string (c ∷ s)
    else err (unbencode_error invalid_byte)

-- `decode_next` where the interpreter's stack takes `depth` nested calls of it.
unfoldable pub decode_next : ℕ → Parser Value
decode_next zero s = err recursion_error
decode_next (suc depth) s = do (c, s') ← getchar s; decode_as (decode_next depth) c s'

-- `except RecursionError`
unfoldable pub catch_recursion {ℓ} : {A : Type ℓ} → Result A → Result A
catch_recursion (err recursion_error) = err (unbencode_error too_nested)
catch_recursion r = r

-- partial_unbencode
unfoldable pub partial_unbencode : ℕ → Bytes → Result (Value × Bytes)
partial_unbencode depth blob = catch_recursion (decode_next depth blob)

-- unbencode
unfoldable pub unbencode : ℕ → Bytes → Result Value
unbencode depth blob = do
  (v, trailing) ← partial_unbencode depth blob
  guard (is_empty trailing) (unbencode_error trailing_bytes)
  ok v
