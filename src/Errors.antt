-- ===== src/Errors.antt =====
-- src/demagnetize/errors.py and the exceptions of Python that the modelled code raises.
-- Messages are kept where the model tells them apart (`Reason`); elsewhere the class is kept.
use demagnetize.Prelude.{◌≡◌, refl, subst, ◌⊎◌, inl, inr, Bool, true, false, if◌then◌else◌}

-- The messages of `UnbencodeError`.
pub data Reason : Type 0 where
  short_input non_digit invalid_integer invalid_byte : Reason
  non_bytes_key unsorted_keys trailing_bytes too_nested : Reason

-- `exception_group` is what leaves a task group of anyio, by the exception that has ended its tasks.
-- `out_of_fuel` has no counterpart in the program.
pub data Error : Type 0 where
  unbencode_error : Reason → Error
  exception_group : Error → Error
  value_error overflow_error struct_error index_error key_error attribute_error recursion_error
        assertion_error peer_error tracker_error tracker_failure timeout_error
        connection_timeout_error os_error demagnetize_error bad_parameter out_of_fuel :
      Error

-- `except ValueError`: `UnbencodeError` is a subclass of `ValueError`.
abbrev pub is_value_error : Error → Bool
is_value_error (unbencode_error _) = true
is_value_error value_error = true
is_value_error _ = false

-- What the decoder raises: `UnbencodeError`, the `ValueError` of `int`, or `RecursionError`.
abbrev pub is_decode_error : Error → Bool
is_decode_error (unbencode_error _) = true
is_decode_error value_error = true
is_decode_error recursion_error = true
is_decode_error _ = false

-- An error of the program: the fuel of the model's loops is none.
abbrev pub is_raised : Error → Bool
is_raised out_of_fuel = false
is_raised _ = true

-- `except UnbencodeError`
abbrev pub is_unbencode_error : Error → Bool
is_unbencode_error (unbencode_error _) = true
is_unbencode_error _ = false

-- A run of code that may raise.
pub data Result {ℓ} (A : Type ℓ) : Type ℓ where
  err : Error → Result A
  ok : A → Result A

-- `async with create_task_group()`, by what its tasks or its body come to.
abbrev pub in_group {ℓ} : {A : Type ℓ} → Result A → Result A
in_group (ok a) = ok a
in_group (err e) = err (exception_group e)

-- `if not test: raise e`
abbrev pub guard : Bool → Error → Result (Unit {0})
guard false e = err e
guard true _ = ok tt

infixl 5 ◌>>=◌
abbrev pub ◌>>=◌ {ℓ ℓ'} : {A : Type ℓ} {B : Type ℓ'} → Result A → (A → Result B) → Result B
err e >>= next = err e
ok x >>= next = next x

infixl 5 ◌>>◌
abbrev pub ◌>>◌ {ℓ} : {B : Type ℓ} → Result (Unit {0}) → Result B → Result B
first >> next = first >>= λ _. next

-- A chain that returned has a first step that returned.
pub >>=-eq-ok {ℓ ℓ'} :
    {A : Type ℓ} {B : Type ℓ'} (first : Result A) (next : A → Result B) {y : B}
    → (first >>= next) ≡ ok y
    → (x : A) × (first ≡ ok x) × (next x ≡ ok y)
>>=-eq-ok (err e) next p = cc
>>=-eq-ok (ok x) next p = (x, refl, p)

pub Result-cases {ℓ} :
    {A : Type ℓ} (r : Result A) → ((a : A) × (r ≡ ok a)) ⊎ ((e : Error) × (r ≡ err e))
Result-cases (ok a) = inl (a, refl)
Result-cases (err e) = inr (e, refl)

-- What a run may do: return a value of which `P` holds, or raise an error of which `E` holds.
pub data Yields {ℓ κ} {A : Type ℓ} (P : A → Type κ) (E : Error → Type 0)
    : Result A → Type (ℓ ⊔ κ) where
  returns : {a : A} → P a → Yields P E (ok a)
  raises : {e : Error} → E e → Yields P E (err e)

module _ {ℓ κ} {A : Type ℓ} {P : A → Type κ} {E : Error → Type 0} where
  pub Yields-ok : {r : Result A} {a : A} → Yields P E r → r ≡ ok a → P a
  Yields-ok (returns h) q = subst P (cc) h
  Yields-ok (raises h) q = cc

  pub Yields-err : {r : Result A} {e : Error} → Yields P E r → r ≡ err e → E e
  Yields-err (returns h) q = cc
  Yields-err (raises h) q = subst E (cc) h

  -- The branch taken has its test for a hypothesis.
  pub Yields-if :
      (b : Bool) {x y : Result A}
      → (b ≡ true → Yields P E x)
      → (b ≡ false → Yields P E y)
      → Yields P E (if b then x else y)
  Yields-if true x y = x refl
  Yields-if false x y = y refl

  pub Yields->>= {ℓ' κ'} :
      {B : Type ℓ'} {Q : B → Type κ'} {r : Result A} {f : A → Result B}
      → Yields P E r
      → ((a : A) → P a → Yields Q E (f a))
      → Yields Q E (r >>= f)
  Yields->>= (returns {a} h) k = k a h
  Yields->>= (raises h) k = raises h

module _ {ℓ κ κ'} {A : Type ℓ} {P : A → Type κ} {Q : A → Type κ'} {E : Error → Type 0} where
  pub Yields-map : {r : Result A} → Yields P E r → ((a : A) → P a → Q a) → Yields Q E r
  Yields-map (returns {a} h) k = returns (k a h)
  Yields-map (raises h) k = raises h

-- An error of one kind is an error of a wider kind.
pub Yields-widen {ℓ κ} :
    {A : Type ℓ} {P : A → Type κ} {E : Error → Type 0} (F : Error → Type 0) {r : Result A}
    → ((e : Error) → E e → F e)
    → Yields P E r
    → Yields P F r
Yields-widen F k (returns h) = returns h
Yields-widen F k (raises {e} h) = raises (k e h)

-- A guard passes on its test.
pub Yields-guard {ℓ κ} :
    {B : Type ℓ} {Q : B → Type κ} {E : Error → Type 0} (b : Bool) (e : Error) {r : Result B}
    → E e
    → (b ≡ true → Yields Q E r)
    → Yields Q E (guard b e >> r)
Yields-guard true e h k = k refl
Yields-guard false e h k = raises h

-- A run's value, with the run that it is of.
pub itself {ℓ κ} :
    {A : Type ℓ} {P : A → Type κ} {E : Error → Type 0} {r : Result A}
    → Yields P E r
    → Yields (λ a. P a × (r ≡ ok a)) E r
itself (returns h) = returns (h, refl)
itself (raises h) = raises h
