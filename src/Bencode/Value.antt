-- ===== src/Bencode/Value.antt =====
-- The values that bencode.py encodes and decodes: bytes, int, list and dict with keys of bytes.
-- A dict is its items in the order of insertion.
use demagnetize.Prelude.{
  ℕ, suc, ◌≡◌, Bool, true, Option, none, some, List, [], ◌∷◌, Bytes, if◌then◌else◌,
}
use demagnetize.Prelude.Int.{ℤ}
use demagnetize.Prelude.Order.{lt_bytes, eq_bytes}
use Prim.Native.Nat.{max}

mutual
  pub data Value : Type 0 where
    bytes : Bytes → Value
    int : ℤ → Value
    list : Items → Value
    dict : Fields → Value

  pub data Items : Type 0 where
    nil : Items
    cons : Value → Items → Items

  pub data Fields : Type 0 where
    end : Fields
    field : Bytes → Value → Fields → Fields

-- d.get(key)
unfoldable pub get : Fields → Bytes → Option Value
get end key = none
get (field k v d) key = if eq_bytes k key then some v else get d key

-- d[key] = v: an old key keeps its place, a new one goes to the end.
unfoldable pub set : Fields → Bytes → Value → Fields
set end key v = field key v end
set (field k w d) key v = if eq_bytes k key then field k v d else field k w (set d key v)

abbrev pub keys : Fields → List Bytes
keys end = []
keys (field k v d) = k ∷ keys d

abbrev pub append_fields : Fields → Fields → Fields
append_fields end d = d
append_fields (field k v c) d = field k v (append_fields c d)

abbrev pub append_items : Items → Items → Items
append_items nil ys = ys
append_items (cons x xs) ys = cons x (append_items xs ys)

-- `prev_key is None or prev_key < key`
abbrev pub is_after : Option Bytes → Bytes → Bool
is_after none key = true
is_after (some p) key = lt_bytes p key

-- Each key is above the one before it, the first above `prev`.
abbrev pub Ascends : Option Bytes → List Bytes → Type 0
Ascends prev [] = Unit
Ascends prev (k ∷ ks) = (is_after prev k ≡ true) × Ascends (some k) ks

-- How many calls of the decoder a value nests.
unfoldable mutual
  pub nesting : Value → ℕ
  nesting (bytes b) = 1
  nesting (int i) = 1
  nesting (list xs) = suc (nesting_items xs)
  nesting (dict d) = suc (nesting_fields d)

  pub nesting_items : Items → ℕ
  nesting_items nil = 0
  nesting_items (cons x xs) = max (nesting x) (nesting_items xs)

  pub nesting_fields : Fields → ℕ
  nesting_fields end = 0
  nesting_fields (field k v d) = max (nesting v) (nesting_fields d)

-- Every dict in the value holds its items in the order of its keys, which differ.
unfoldable mutual
  pub IsCanonical : Value → Type 0
  IsCanonical (bytes b) = Unit
  IsCanonical (int i) = Unit
  IsCanonical (list xs) = AreCanonical xs
  IsCanonical (dict d) = Ascends none (keys d) × HasCanonical d

  pub AreCanonical : Items → Type 0
  AreCanonical nil = Unit
  AreCanonical (cons x xs) = IsCanonical x × AreCanonical xs

  pub HasCanonical : Fields → Type 0
  HasCanonical end = Unit
  HasCanonical (field k v d) = IsCanonical v × HasCanonical d
