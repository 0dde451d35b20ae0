-- ===== src/Peer/Extensions/Registry.antt =====
-- The two dicts of `BEP10Registry` of src/demagnetize/peer/extensions.py.
use demagnetize.Prelude.{
  sym, subst, ap, ◌≡◌, ◌↔◌, refl, inl, inr, true, false, Option, some, List, [], arith, Bool-cases,
}
use demagnetize.Prelude.Int.{ℤ, eq_ℤ, eq_ℤ_iff}
use demagnetize.Prelude.Dict.{lookup, has_key, insert, lookup-insert, lookup-none}
use demagnetize.Errors.{Result, ok, err, >>=-eq-ok}
use demagnetize.Bencode.Value.{Value, Fields, int, end, field}
use demagnetize.Peer.Extensions.{
  Bep10Extension, metadata, pex, eq_extension, from_name, Bep10Registry, empty, register,
  register_item, register_items, from_m,
}

pub eq_extension_iff : (a b : Bep10Extension) → (eq_extension a b ≡ true) ↔ (a ≡ b)
eq_extension_iff metadata metadata = (λ _. refl, λ _. refl)
eq_extension_iff metadata pex = (λ h. cc, λ h. cc)
eq_extension_iff pex metadata = (λ h. cc, λ h. cc)
eq_extension_iff pex pex = (λ _. refl, λ _. refl)

-- An extension has a code exactly when the code has the extension.
pub record IsInverse (r : Bep10Registry) : Type 0 where
  pub there :
      (ext : Bep10Extension) (code : ℤ)
      → lookup eq_extension ext r.to_code ≡ some code
      → lookup eq_ℤ code r.from_code ≡ some ext
  pub back :
      (ext : Bep10Extension) (code : ℤ)
      → lookup eq_ℤ code r.from_code ≡ some ext
      → lookup eq_extension ext r.to_code ≡ some code

abbrev from_code_of : Result Bep10Registry → List (ℤ × Bep10Extension)
from_code_of (ok r) = r.from_code
from_code_of (err e) = []

abbrev to_code_of : Result Bep10Registry → List (Bep10Extension × ℤ)
to_code_of (ok r) = r.to_code
to_code_of (err e) = []

empty-IsInverse : IsInverse empty
unfolding lookup
empty-IsInverse = record { there = λ ext code h. cc; back = λ ext code h. cc }

-- What `register` requires and does when it raises nothing.
register-ok :
    (r r' : Bep10Registry) (ext : Bep10Extension) (code : ℤ)
    → register r ext code ≡ ok r'
    → (has_key eq_ℤ code r.from_code ≡ false)
      × (has_key eq_extension ext r.to_code ≡ false)
      × (r'.from_code ≡ insert eq_ℤ code ext r.from_code)
      × (r'.to_code ≡ insert eq_extension ext code r.to_code)
unfolding register
register-ok r r' ext code h = elim (Bool-cases (has_key eq_ℤ code r.from_code)) [
  | inl taken ↦ (let h' = rw taken at h in cc)
  | inr free ↦ elim (Bool-cases (has_key eq_extension ext r.to_code)) [
    | inl taken ↦ (let h' = rw (free, taken) at h in cc)
    | inr new ↦
        (let h' = rw (free, new) at h in
          (free, new, ap from_code_of (sym h'), ap to_code_of (sym h')))
  ]
]

-- `register` keeps the two dicts inverse to one another.
pub register-IsInverse :
    (r r' : Bep10Registry) (ext : Bep10Extension) (code : ℤ)
    → IsInverse r
    → register r ext code ≡ ok r'
    → IsInverse r'
register-IsInverse r r' ext code inv h =
    let (free, new, from, to) = register-ok r r' ext code h in
    record {
      there = λ ext' code' e. ground (
        arith,
        rw to at e,
        ap (lookup eq_ℤ code') from,
        lookup-insert eq_extension eq_extension_iff ext ext' code r.to_code,
        lookup-insert eq_ℤ eq_ℤ_iff code code' ext r.from_code,
        eq_extension_iff ext ext',
        eq_ℤ_iff code code',
        inv.there ext' code',
        lookup-none eq_ℤ eq_ℤ_iff code r.from_code free,
      );
      back = λ ext' code' e. ground (
        arith,
        rw from at e,
        ap (lookup eq_extension ext') to,
        lookup-insert eq_extension eq_extension_iff ext ext' code r.to_code,
        lookup-insert eq_ℤ eq_ℤ_iff code code' ext r.from_code,
        eq_extension_iff ext ext',
        eq_ℤ_iff code code',
        inv.back ext' code',
        lookup-none eq_extension eq_extension_iff ext r.to_code new,
      );
    }

register_item-IsInverse :
    (r r' : Bep10Registry) (bext : Option Bep10Extension) (v : Value)
    → IsInverse r
    → register_item r bext v ≡ ok r'
    → IsInverse r'
unfolding register_item
register_item-IsInverse r r' (some bext) (int code) inv h = register-IsInverse r r' bext code inv h
register_item-IsInverse r r' _ _ inv h = subst IsInverse (cc) inv

register_items-IsInverse :
    (r r' : Bep10Registry) (m : Fields) → IsInverse r → register_items r m ≡ ok r' → IsInverse r'
unfolding register_items
register_items-IsInverse r r' end inv h = subst IsInverse (cc) inv
register_items-IsInverse r r' (field k v m) inv h =
    let (r₁, e, e') = >>=-eq-ok (register_item r (from_name k) v) _ h in
    register_items-IsInverse r₁ r' m (register_item-IsInverse r r₁ (from_name k) v inv e) e'

-- In the registry that `from_m` makes of a peer's "m" dict, whatever the dict holds, an extension has
-- a code exactly when the code has the extension.
pub from_m-IsInverse : (m : Fields) (r : Bep10Registry) → from_m m ≡ ok r → IsInverse r
unfolding from_m
from_m-IsInverse m r h = register_items-IsInverse empty r m empty-IsInverse h
