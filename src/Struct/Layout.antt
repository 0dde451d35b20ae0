-- ===== src/Struct/Layout.antt =====
-- Bytes put together from parts, and a field read back at its offset.
use demagnetize.Prelude.{
  ℕ, ◌+◌, ◌≡◌, refl, sym, ap, ◌∙◌, List, [], ◌∷◌, ◌++◌, Bytes, arith, length, length-append_bytes,
  take, drop, take-append, drop-append, append_assoc,
}

-- The parts, one behind the other, and `rest` behind them.
abbrev pub before : List Bytes → Bytes → Bytes
before [] rest = rest
before (p ∷ ps) rest = p ++ before ps rest

abbrev pub size : List Bytes → ℕ
size [] = 0
size (p ∷ ps) = length p + size ps

pub length-before :
    (ps : List Bytes) (rest : Bytes) → length (before ps rest) ≡ size ps + length rest
length-before [] rest = omega arith
length-before (p ∷ ps) rest =
    omega (arith, length-append_bytes p (before ps rest), length-before ps rest)

before-append : (ps : List Bytes) (a rest : Bytes) → before ps a ++ rest ≡ before ps (a ++ rest)
before-append [] a rest = refl
before-append (p ∷ ps) a rest =
    append_assoc p (before ps a) rest ∙ ap (λ b. p ++ b) (before-append ps a rest)

pub drop-before :
    (n : ℕ) (ps : List Bytes) (rest : Bytes) → size ps ≡ n → drop n (before ps rest) ≡ rest
drop-before n ps rest e =
    ap (λ b. drop n b) (sym (before-append ps [] rest))
    ∙ drop-append n (before ps []) rest (omega (arith, length-before ps []))

-- The part behind the others.
pub field_at :
    (n w : ℕ) (ps : List Bytes) (part rest : Bytes)
    → size ps ≡ n
    → length part ≡ w
    → take w (drop n (before ps (part ++ rest))) ≡ part
field_at n w ps part rest e f =
    ap (λ b. take w b) (drop-before n ps (part ++ rest) e) ∙ take-append w part rest f
