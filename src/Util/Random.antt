-- ===== src/Util/Random.antt =====
-- What the program uses of `random`: a number or characters from a range, of random numbers.
use demagnetize.Prelude.{
  ℕ, zero, suc, ◌+◌, ◌-◌, ◌<◌, ◌%◌, ◌≡◌, refl, ap, [], ◌∷◌, All, Bytes, length, ltb, arith,
  if◌then◌else◌,
}
use demagnetize.Prelude.Int.{ℤ, pos, negsuc}

-- random.randrange(n)
abbrev pub randrange : ℕ → ℕ → ℕ
randrange n r = r % n

-- random.randint(a, b), of natural numbers
abbrev pub randint : ℕ → ℕ → ℕ → ℕ
randint a b r = a + r % (b - a + 1)

-- random.randint(-n, n - 1)
abbrev pub randint_about : ℕ → ℕ → ℤ
randint_about n r = let m = r % (n + n) in if ltb m n then negsuc (n - suc m) else pos (m - n)

-- population[i]
abbrev pub character : Bytes → ℕ → ℕ
character [] i = 0
character (c ∷ cs) zero = c
character (c ∷ cs) (suc i) = character cs i

-- random.choices(population, k=k)
abbrev pub choices : Bytes → (ℕ → ℕ) → ℕ → Bytes
choices population draw zero = []
choices population draw (suc k) =
    character population (draw 0 % length population) ∷ choices population (λ i. draw (suc i)) k

pub length-choices :
    (population : Bytes) (draw : ℕ → ℕ) (k : ℕ) → length (choices population draw k) ≡ k
length-choices population draw zero = refl
length-choices population draw (suc k) = ap suc (length-choices population (λ i. draw (suc i)) k)

module _ (P : ℕ → Type 0) where
  character-All :
      (population : Bytes) (i : ℕ)
      → All P population
      → i < length population
      → P (character population i)
  character-All [] i h l = absurd (omega arith)
  character-All (c ∷ cs) zero (h, hs) l = h
  character-All (c ∷ cs) (suc i) (h, hs) l = character-All cs i hs (omega arith)

  -- What is chosen is in the population.
  pub choices-All :
      (population : Bytes) (draw : ℕ → ℕ) (k : ℕ)
      → All P population
      → 0 < length population
      → All P (choices population draw k)
  choices-All population draw zero h some_there = tt
  choices-All population draw (suc k) h some_there = (
    character-All population (draw 0 % length population) h (omega arith),
    choices-All population (λ i. draw (suc i)) k h some_there,
  )
