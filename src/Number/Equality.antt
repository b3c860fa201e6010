-- ===== src/Number/Equality.antt =====
-- src/basilisp/lang/equality.py: when two values are equal, and the keys that stand for values in the
-- hash maps. `==` of Python on numbers compares the exact fractions; on other values it is a
-- parameter, as is the hash.
use baisilisp.Base.{ℕ, suc, ◌*◌, Bool, true, false, ◌&&◌, Option, none, some, ◌==◌, if◌then◌else◌}
use baisilisp.Base.Int.{pos_part, neg_part}
use baisilisp.Number.{
  Real, infinite, finite, Value, integer, ratio, decimal, floating, character, other, Result, ok,
  raise, not_numeric,
}

pub data Family : Type 0 where
  integers ratios decimals floats : Family

unfoldable pub same_family : Family → Family → Bool
same_family integers integers = true
same_family ratios ratios = true
same_family decimals decimals = true
same_family floats floats = true
same_family _ _ = false

unfoldable pub same_families : Option Family → Option Family → Bool
same_families none none = true
same_families (some f) (some g) = same_family f g
same_families _ _ = false

abbrev pub same_sign : Bool → Bool → Bool
same_sign true b = b
same_sign false true = false
same_sign false false = true

unfoldable pub eq_real : Real → Real → Bool
eq_real (infinite a) (infinite b) = same_sign a b
eq_real (finite n d) (finite m e) =
    pos_part n * suc e == pos_part m * suc d && neg_part n * suc e == neg_part m * suc d
eq_real _ _ = false

module _ {V : Type 0} where
  abbrev pub exact : Value V → Option Real
  exact (integer n) = some (finite n 0)
  exact (ratio n d) = some (finite n d)
  exact (decimal x) = some x
  exact (floating x) = some x
  exact (character c) = none
  exact (other v) = none

  unfoldable pub numeric_family : Value V → Option Family
  numeric_family (integer n) = some integers
  numeric_family (ratio n d) = some (if d == 0 then integers else ratios)
  numeric_family (decimal x) = some decimals
  numeric_family (floating x) = some floats
  numeric_family (character c) = none
  numeric_family (other v) = none

-- An entry of a hash map: a value, or an `EquivalenceKey` around one.
pub data Stored (V : Type 0) : Type 0 where
  plain : Value V → Stored V
  wrapped : Family → Value V → Stored V

module _ {V : Type 0} (host_eq : Value V → Value V → Bool) where
  -- `left == right`
  unfoldable pub eq_values : Value V → Value V → Bool
  eq_values left right = elim (exact left) [
    | none ↦ host_eq left right
    | some x ↦ elim (exact right) [ none ↦ host_eq left right | some y ↦ eq_real x y ]
  ]

  unfoldable pub numeric_equiv : Value V → Value V → Bool
  numeric_equiv left right =
      if same_families (numeric_family left) (numeric_family right)
      then eq_values left right
      else false

  unfoldable pub numeric_compare : Value V → Value V → Result Bool
  numeric_compare left right = elim (numeric_family left) [
    | none ↦ raise not_numeric
    | some f ↦ elim (numeric_family right) [
      | none ↦ raise not_numeric
      | some g ↦ ok (eq_values left right)
    ]
  ]

  unfoldable pub key : Value V → Stored V
  key value = elim (numeric_family value) [ none ↦ plain value | some f ↦ wrapped f value ]

  unfoldable pub unkey : Stored V → Value V
  unkey (plain v) = v
  unkey (wrapped f v) = v

  -- `==` of stored keys
  unfoldable pub eq_stored : Stored V → Stored V → Bool
  eq_stored (plain v) (plain w) = eq_values v w
  eq_stored (wrapped f v) (wrapped g w) = same_family f g && numeric_equiv v w
  eq_stored (plain v) (wrapped g w) = false
  eq_stored (wrapped f v) (plain w) = false

  -- `__hash__`, by the host's hashes of a value and of a pair with a family
  unfoldable pub hash_stored : (Value V → ℕ) → (Family → ℕ → ℕ) → Stored V → ℕ
  hash_stored hash hash_pair (plain v) = hash v
  hash_stored hash hash_pair (wrapped f v) = hash_pair f (hash v)
