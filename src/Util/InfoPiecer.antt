-- ===== src/Util/InfoPiecer.antt =====
-- `InfoPiecer` of src/demagnetize/util.py.
use demagnetize.Prelude.{
  take_all, ℕ, zero, suc, ◌+◌, ◌-◌, ◌*◌, ◌/◌, ◌%◌, ◌≤◌, ◌<◌, ◌≡◌, refl, sym, ap, ◌∙◌, List, [], ◌∷◌,
  ◌++◌, Bytes, arith, length, length-append_bytes, take, replicate, leb, ◌==◌, if◌then◌else◌,
}
use demagnetize.Prelude.Int.{ℤ, pos, negsuc}
use demagnetize.Errors.{Result, ok, err, value_error}

-- INFO_CHUNK_SIZE
abbrev pub chunk_size : ℕ
chunk_size = 16384

-- `hashed` is what `digest` was fed: `update` appends to it.
pub record InfoPiecer : Type 0 where
  pub total_size : ℤ
  pub contents : Bytes
  pub sizes : List ℕ
  pub index : ℕ
  pub hashed : Bytes

-- The quotient of `divmod(total_size, INFO_CHUNK_SIZE)` as a count of list items, which is none if
-- it is negative, and the residue, which never is.
abbrev pub quantity : ℤ → ℕ
quantity (pos n) = n / chunk_size
quantity (negsuc n) = 0

abbrev pub residue : ℤ → ℕ
residue (pos n) = n % chunk_size
residue (negsuc n) = chunk_size - 1 - n % chunk_size

unfoldable pub sizes_of : ℤ → List ℕ
sizes_of total_size =
    replicate (quantity total_size) chunk_size
    ++ (if residue total_size == 0 then [] else residue total_size ∷ [])

-- InfoPiecer(total_size)
unfoldable pub new : ℤ → InfoPiecer
new total_size = record {
  total_size = total_size;
  contents = [];
  sizes = sizes_of total_size;
  index = 0;
  hashed = [];
}

unfoldable pub piece_qty : InfoPiecer → ℕ
piece_qty p = length p.sizes

-- `self.sizes[i]` for an index in range
abbrev pub get_or : List ℕ → ℕ → ℕ → ℕ
get_or [] i d = d
get_or (x ∷ xs) zero d = x
get_or (x ∷ xs) (suc i) d = get_or xs i d

-- add_piece
unfoldable pub add_piece : InfoPiecer → Bytes → Result InfoPiecer
add_piece p blob =
    if leb (length p.sizes) p.index
    then err value_error
    else if length blob == get_or p.sizes p.index 0
    then ok
        (record p { contents = p.contents ++ blob; hashed = p.hashed ++ blob; index = p.index + 1 })
    else err value_error

abbrev pub sum : List ℕ → ℕ
sum [] = 0
sum (x ∷ xs) = x + sum xs

-- The pieces so far fill their sizes, and all of them were hashed.
pub record IsFed (p : InfoPiecer) : Type 0 where
  pub planned : p.sizes ≡ sizes_of p.total_size
  pub within : p.index ≤ length p.sizes
  pub filled : length p.contents ≡ sum (take p.index p.sizes)
  pub fed : p.hashed ≡ p.contents

pub new-IsFed : (total_size : ℤ) → IsFed (new total_size)
unfolding new
new-IsFed total_size = record { planned = refl; within = omega arith; filled = refl; fed = refl }

sum-take_next :
    (i : ℕ) (xs : List ℕ) → i < length xs → sum (take (suc i) xs) ≡ sum (take i xs) + get_or xs i 0
sum-take_next i [] h = elim h [ ]
sum-take_next zero (x ∷ xs) h = omega arith
sum-take_next (suc i) (x ∷ xs) h = omega (arith, sum-take_next i xs (omega arith))

-- What `add_piece` requires and does when it raises nothing.
pub add_piece-ok :
    (p p' : InfoPiecer) (blob : Bytes)
    → add_piece p blob ≡ ok p'
    → (p.index < length p.sizes)
      × (length blob ≡ get_or p.sizes p.index 0)
      × (p'.index ≡ p.index + 1)
      × (p'.sizes ≡ p.sizes)
      × (p'.total_size ≡ p.total_size)
      × (p'.contents ≡ p.contents ++ blob)
      × (p'.hashed ≡ p.hashed ++ blob)
unfolding add_piece
add_piece-ok p p' blob h = ground arith

-- An `add_piece` that raises nothing keeps the pieces in step with the sizes and with the digest.
pub add_piece-IsFed :
    (p p' : InfoPiecer) (blob : Bytes) → IsFed p → add_piece p blob ≡ ok p' → IsFed p'
add_piece-IsFed p p' blob fed h =
    let (below, len, i, s, t, c, d) = add_piece-ok p p' blob h in
    let i' : p'.index ≡ suc p.index = omega arith in
    record {
      planned = s ∙ fed.planned ∙ ap sizes_of (sym t);
      within = omega (arith, ap length s);
      filled =
          rw (c, i', s)
            (omega (
              arith,
              length-append_bytes p.contents blob,
              sum-take_next p.index p.sizes below,
              fed.filled,
            ));
      fed = d ∙ (ap (λ x. x ++ blob) fed.fed ∙ sym c);
    }

sum-append : (xs ys : List ℕ) → sum (xs ++ ys) ≡ sum xs + sum ys
sum-append [] ys = omega arith
sum-append (x ∷ xs) ys = omega (arith, sum-append xs ys)

sum-replicate : (n x : ℕ) → sum (replicate n x) ≡ n * x
sum-replicate zero x = omega arith
sum-replicate (suc n) x = omega (arith, sum-replicate n x)

-- The sizes of the pieces add up to the size of the whole, if that is not negative.
pub sum-sizes_of : (n : ℕ) → sum (sizes_of (pos n)) ≡ n
unfolding sizes_of
sum-sizes_of n = ground (
  arith,
  sum-append (replicate (n / chunk_size) chunk_size) [],
  sum-append (replicate (n / chunk_size) chunk_size) ((n % chunk_size) ∷ []),
  sum-replicate (n / chunk_size) chunk_size,
)

-- When a piece is in for each of the sizes, the pieces have together as many bytes as `total_size`
-- says, if they were added as `IsFed` says and `total_size` is not negative.
pub length-contents :
    (p : InfoPiecer) (n : ℕ)
    → IsFed p
    → p.index ≡ length p.sizes
    → p.total_size ≡ pos n
    → length p.contents ≡ n
length-contents p n fed done total =
    fed.filled
    ∙ (rw (done, take_all (length p.sizes) p.sizes (omega arith), fed.planned, total)
        (sum-sizes_of n))
