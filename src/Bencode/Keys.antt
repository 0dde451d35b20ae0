-- ===== src/Bencode/Keys.antt =====
-- The keys of the dict that `decode_dict` of src/demagnetize/bencode.py builds.
use demagnetize.Prelude.{
  ◌≡◌, refl, ap, Bool, true, false, Option, none, some, Bytes, Bool-cases, inl, inr,
}
use demagnetize.Prelude.Order.{lt_bytes, eq_bytes, eq_bytes→eq, lt_bytes_trans, lt_bytes_irrefl}
use demagnetize.Bencode.Value.{
  Value, Items, Fields, nil, cons, end, field, set, append_fields, append_items, is_after,
}

-- No key of the dict is above `prev`.
abbrev pub UpTo : Option Bytes → Fields → Type 0
UpTo prev end = Unit
UpTo none (field k v d) = ⊥
UpTo (some p) (field k v d) = (lt_bytes p k ≡ false) × UpTo (some p) d

pub set-UpTo :
    (prev : Option Bytes) (k : Bytes) (v : Value) (d : Fields)
    → is_after prev k ≡ true
    → UpTo prev d
    → set d k v ≡ append_fields d (field k v end)
unfolding set
set-UpTo prev k v end h u = refl
set-UpTo none k v (field j w d) h u = elim u [ ]
set-UpTo (some p) k v (field j w d) h (above, u) = elim (Bool-cases (eq_bytes j k)) [
  | inl same ↦ let e : lt_bytes p j ≡ true = rw (eq_bytes→eq j k same) h in cc
  | inr other ↦ rw (other, set-UpTo (some p) k v d h u)
]

pub UpTo-append_fields :
    (prev : Option Bytes) (k : Bytes) (v : Value) (d : Fields)
    → is_after prev k ≡ true
    → UpTo prev d
    → UpTo (some k) (append_fields d (field k v end))
UpTo-append_fields prev k v end h u = (lt_bytes_irrefl k, tt)
UpTo-append_fields none k v (field j w d) h u = elim u [ ]
UpTo-append_fields (some p) k v (field j w d) h (above, u) =
    (below (lt_bytes k j) refl, UpTo-append_fields (some p) k v d h u)
  where
    below : (b : Bool) → lt_bytes k j ≡ b → lt_bytes k j ≡ false
    below true e = cc (lt_bytes_trans p k j h e)
    below false e = e

pub append_fields_assoc :
    (a b c : Fields) → append_fields (append_fields a b) c ≡ append_fields a (append_fields b c)
append_fields_assoc end b c = refl
append_fields_assoc (field k v a) b c = ap (field k v) (append_fields_assoc a b c)

pub append_items_assoc :
    (a b c : Items) → append_items (append_items a b) c ≡ append_items a (append_items b c)
append_items_assoc nil b c = refl
append_items_assoc (cons x a) b c = ap (cons x) (append_items_assoc a b c)

pub append_items-nil : (a : Items) → append_items a nil ≡ a
append_items-nil nil = refl
append_items-nil (cons x a) = ap (cons x) (append_items-nil a)

pub append_fields-end : (a : Fields) → append_fields a end ≡ a
append_fields-end end = refl
append_fields-end (field k v a) = ap (field k v) (append_fields-end a)
