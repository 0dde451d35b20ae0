-- ===== src/Peer/Display/Pieces.antt =====
-- `Bitfield.have_amount` of src/demagnetize/peer/messages.py.
use demagnetize.Prelude.{
  ℕ, zero, suc, ◌+◌, ◌-◌, ◌*◌, ◌≡◌, refl, Bool, false, [], ◌∷◌, Bytes, length, ltb, arith,
  if◌then◌else◌,
}
use demagnetize.Prelude.Bits.{test_bit}
use demagnetize.Peer.Display.{count_bits, have_amount}

-- The bits of a bitfield are those of its bytes, the highest of each first (BEP 3).
abbrev pub has_piece : Bytes → ℕ → Bool
has_piece [] i = false
has_piece (b ∷ payload) i =
    let rest = has_piece payload (i - 8) in if ltb i 8 then test_bit b (7 - i) else rest

-- How many of the first numbers meet a test.
abbrev pub count_below : (ℕ → Bool) → ℕ → ℕ
count_below p zero = 0
count_below p (suc n) = count_below p n + (if p n then 1 else 0)

count_below-same :
    (p q : ℕ → Bool) (n : ℕ) → ((i : ℕ) → p i ≡ q i) → count_below p n ≡ count_below q n
count_below-same p q zero h = refl
count_below-same p q (suc n) h = cc (count_below-same p q n h, h n)

count_below-add :
    (p : ℕ → Bool) (n m : ℕ)
    → count_below p (n + m) ≡ count_below p n + count_below (λ i. p (n + i)) m
count_below-add p n zero = let same : n + 0 ≡ n = omega arith in rw same (omega arith)
count_below-add p n (suc m) =
    let next : n + suc m ≡ suc (n + m) = omega arith in
    rw next (omega (arith, count_below-add p n m))

has_piece-rest :
    (b : ℕ) (payload : Bytes) (i : ℕ) → has_piece (b ∷ payload) (8 + i) ≡ has_piece payload i
has_piece-rest b payload i =
    let far : ltb (8 + i) 8 ≡ false = ground arith in
    let back : 8 + i - 8 ≡ i = omega arith in rw (far, back) refl

-- The number that have_amount gives is that of the pieces which the bitfield says the peer has, among as
-- many as it has bits.
pub have_amount_lem :
    (payload : Bytes) → have_amount payload ≡ count_below (has_piece payload) (8 * length payload)
unfolding have_amount
have_amount_lem [] = refl
have_amount_lem (b ∷ payload) =
    let bits : 8 * suc (length payload) ≡ 8 + 8 * length payload = omega arith in
    let rest =
      count_below-same (λ i. has_piece (b ∷ payload) (8 + i)) (has_piece payload)
        (8 * length payload) (has_piece-rest b payload) in
    let split = count_below-add (has_piece (b ∷ payload)) 8 (8 * length payload) in
    let here : count_below (has_piece (b ∷ payload)) 8 ≡ count_bits b 8 = omega arith in
    rw bits (omega (arith, split, rest, here, have_amount_lem payload))
