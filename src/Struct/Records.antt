-- ===== src/Struct/Records.antt =====
-- struct.iter_unpack: the records of one size that some bytes are made up of.
use demagnetize.Prelude.{
  ℕ, zero, suc, ◌+◌, ◌*◌, ◌/◌, ◌%◌, ◌≡◌, refl, sym, ap, ◌∙◌, true, List, [], ◌∷◌, ◌++◌, Bytes, All,
  arith, length, length-append_bytes, take, drop, take-append, drop-append, if◌then◌else◌, ◌==◌,
  ==_iff, ◌↔◌, length-take, length-drop, take-append-drop,
}
use native.Mathlib.Nat.{mul-mod_left, mul-div_cancel, suc-mul, mod-eq-sub-div-mul, div-mul-le_self}
use demagnetize.Errors.{
  Error, Result, ok, err, struct_error, Yields, returns, raises, Yields-if, Yields-ok, Yields-err,
}

abbrev pub records : ℕ → ℕ → Bytes → List Bytes
records size zero blob = []
records size (suc n) blob = take size blob ∷ records size n (drop size blob)

-- The sizes that the program uses are not 0.
unfoldable pub iter_unpack : ℕ → Bytes → Result (List Bytes)
iter_unpack size blob =
    if length blob % size == 0
    then ok (records size (length blob / size) blob)
    else err struct_error

abbrev pub concat : List Bytes → Bytes
concat [] = []
concat (r ∷ rs) = r ++ concat rs

pub length-concat :
    (size : ℕ) (rs : List Bytes)
    → All (λ r. length r ≡ size) rs
    → length (concat rs) ≡ length rs * size
length-concat size [] all = omega arith
length-concat size (r ∷ rs) (e, all) =
    omega (arith, length-append_bytes r (concat rs), length-concat size rs all)

records-concat :
    (size : ℕ) (rs : List Bytes)
    → All (λ r. length r ≡ size) rs
    → records size (length rs) (concat rs) ≡ rs
records-concat size [] all = refl
records-concat size (r ∷ rs) (e, all) =
    rw (
      take-append size r (concat rs) e,
      drop-append size r (concat rs) e,
      records-concat size rs all,
    )

-- Records of the size, one behind the other, are taken apart again.
pub iter_unpack-concat :
    (size : ℕ) (rs : List Bytes)
    → All (λ r. length r ≡ suc size) rs
    → iter_unpack (suc size) (concat rs) ≡ ok rs
unfolding iter_unpack
iter_unpack-concat size rs all =
    let len = length-concat (suc size) rs all in
    let whole : (length (concat rs) % suc size == 0) ≡ true =
      (==_iff _ _).1 (ap (λ n. n % suc size) len ∙ mul-mod_left (length rs) (suc size)) in
    let count : length (concat rs) / suc size ≡ length rs =
      ap (λ n. n / suc size) len ∙ mul-div_cancel (length rs) (omega arith) in
    rw (whole, count, records-concat (suc size) rs all)

records-All :
    (size n : ℕ) (blob : Bytes)
    → length blob ≡ n * size
    → All (λ r. length r ≡ size) (records size n blob) × (concat (records size n blob) ≡ blob)
records-All size zero [] e = (tt, refl)
records-All size zero (b ∷ blob) e = absurd (omega arith)
records-All size (suc n) blob e =
    let step : suc n * size ≡ n * size + size = suc-mul n size in
    let rest : length (drop size blob) ≡ n * size = omega (arith, length-drop size blob) in
    let (all, whole) = records-All size n (drop size blob) rest in
    ((omega (arith, length-take size blob), all), rw whole (take-append-drop size blob))

pub iter_unpack-Yields :
    (size : ℕ) (blob : Bytes)
    → Yields
        (λ rs. (blob ≡ concat rs) × All (λ r. length r ≡ suc size) rs)
        (λ e. e ≡ struct_error)
        (iter_unpack (suc size) blob)
unfolding iter_unpack
iter_unpack-Yields size blob =
    Yields-if (length blob % suc size == 0)
      (λ h.
        let even : length blob % suc size ≡ 0 = (==_iff _ _).0 h in
        let (all, whole) = records-All (suc size) (length blob / suc size) blob (
          omega (
            arith,
            mod-eq-sub-div-mul (length blob) (suc size),
            div-mul-le_self (length blob) (suc size),
          )) in
        returns (sym whole, all))
      λ _. raises refl

-- What `iter_unpack` takes apart are records of the size, and they make up the whole.
pub iter_unpack-eq-ok_iff :
    (size : ℕ) (blob : Bytes) (rs : List Bytes)
    → (iter_unpack (suc size) blob ≡ ok rs)
      ↔ ((blob ≡ concat rs) × All (λ r. length r ≡ suc size) rs)
iter_unpack-eq-ok_iff size blob rs =
    (Yields-ok (iter_unpack-Yields size blob), λ (e, all). rw e (iter_unpack-concat size rs all))

pub iter_unpack-eq-err :
    (size : ℕ) (blob : Bytes) (e : Error) → iter_unpack (suc size) blob ≡ err e → e ≡ struct_error
iter_unpack-eq-err size blob e = Yields-err (iter_unpack-Yields size blob)
