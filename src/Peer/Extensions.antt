-- ===== src/Peer/Extensions.antt =====
-- src/demagnetize/peer/extensions.py: the extension bits, and the registry of BEP 10 message codes.
pub mod Registry
use demagnetize.Prelude.{
  ℕ, zero, suc, ◌+◌, ◌-◌, ◌*◌, ◌^◌, ◌≡◌, refl, Bool, true, false, Option, none, some, List, [], ◌∷◌,
  Bytes, codes, ◌==◌, if◌then◌else◌,
}
use demagnetize.Prelude.Int.{ℤ, pos, eq_ℤ}
use demagnetize.Prelude.Order.{eq_bytes}
use demagnetize.Prelude.Dict.{lookup, has_key, insert}
use demagnetize.Errors.{Error, Result, ok, err, value_error, ◌>>=◌, ◌>>◌, guard}
use demagnetize.Bencode.Value.{Value, Fields, bytes, int, list, dict, end, field, set}

-- `for i in range(8)`, from `i` on with `n` rounds left.
extbit_from : ℕ → ℕ → ℕ → ℕ → Result ℕ
extbit_from zero i bytenum mask = err value_error
extbit_from (suc n) i bytenum mask =
    let rest = extbit_from n (i + 1) bytenum mask in
    if 2 ^ i == mask then ok (i + 8 * (7 - bytenum)) else rest

-- extbit; the program calls it with `bytenum` at most 7
unfoldable pub extbit : ℕ → ℕ → Result ℕ
unfolding extbit_from
extbit bytenum mask = extbit_from 8 0 bytenum mask

-- The members of `Extension`.
abbrev pub azureus_messaging : ℕ
azureus_messaging = 63

abbrev pub location_aware : ℕ
location_aware = 43

abbrev pub bep10_extensions : ℕ
bep10_extensions = 20

abbrev pub dht : ℕ
dht = 0

abbrev pub xbt_pex : ℕ
xbt_pex = 1

abbrev pub fast : ℕ
fast = 2

abbrev pub nat_traversal : ℕ
nat_traversal = 3

abbrev pub hybrid_v2 : ℕ
hybrid_v2 = 4

extension_values :
    (extbit 0 0x80 ≡ ok azureus_messaging)
    × (extbit 2 0x08 ≡ ok location_aware)
    × (extbit 5 0x10 ≡ ok bep10_extensions)
    × (extbit 7 0x01 ≡ ok dht)
    × (extbit 7 0x02 ≡ ok xbt_pex)
    × (extbit 7 0x04 ≡ ok fast)
    × (extbit 7 0x08 ≡ ok nat_traversal)
    × (extbit 7 0x10 ≡ ok hybrid_v2)
unfolding extbit
extension_values = (refl, refl, refl, refl, refl, refl, refl, refl)

pub data Bep10Extension : Type 0 where
  metadata pex : Bep10Extension

abbrev pub eq_extension : Bep10Extension → Bep10Extension → Bool
eq_extension metadata metadata = true
eq_extension pex pex = true
eq_extension _ _ = false

-- The value of a member, encoded.
abbrev pub name : Bep10Extension → Bytes
name metadata = codes "ut_metadata"
name pex = codes "ut_pex"

-- `Bep10Extension(k.decode("utf-8", "replace"))`: only its own bytes decode to an ASCII name.
unfoldable pub from_name : Bytes → Option Bep10Extension
from_name k =
    if eq_bytes k (name metadata)
    then some metadata
    else if eq_bytes k (name pex)
    then some pex
    else none

pub record Bep10Registry : Type 0 where
  pub from_code : List (ℤ × Bep10Extension)
  pub to_code : List (Bep10Extension × ℤ)

abbrev pub empty : Bep10Registry
empty = record { from_code = []; to_code = [] }

-- __contains__
unfoldable pub contains : Bep10Registry → Bep10Extension → Bool
contains r ext = has_key eq_extension ext r.to_code

-- register
unfoldable pub register : Bep10Registry → Bep10Extension → ℤ → Result Bep10Registry
register r ext code =
    if has_key eq_ℤ code r.from_code
    then err value_error
    else if has_key eq_extension ext r.to_code
    then err value_error
    else ok (record {
      from_code = insert eq_ℤ code ext r.from_code;
      to_code = insert eq_extension ext code r.to_code;
    })

unfoldable pub register_all : Bep10Registry → List (Bep10Extension × ℤ) → Result Bep10Registry
register_all r [] = ok r
register_all r ((ext, code) ∷ d) = do r' ← register r ext code; register_all r' d

-- from_dict
unfoldable pub from_dict : List (Bep10Extension × ℤ) → Result Bep10Registry
unfolding register_all
from_dict d = register_all empty d

-- One round of the loop of `from_m`: other names and values that are no `int` are passed over.
unfoldable pub register_item : Bep10Registry → Option Bep10Extension → Value → Result Bep10Registry
register_item r (some bext) (int code) = register r bext code
register_item r _ _ = ok r

unfoldable pub register_items : Bep10Registry → Fields → Result Bep10Registry
register_items r end = ok r
register_items r (field k v m) = do r' ← register_item r (from_name k) v; register_items r' m

-- from_m
unfoldable pub from_m : Fields → Result Bep10Registry
unfolding register_items
from_m m = register_items empty m

unfoldable pub set_codes : Fields → List (Bep10Extension × ℤ) → Fields
set_codes d [] = d
set_codes d ((ext, code) ∷ rest) = set_codes (set d (name ext) (int code)) rest

-- to_m
unfoldable pub to_m : Bep10Registry → Fields
unfolding set_codes
to_m r = set_codes end r.to_code
