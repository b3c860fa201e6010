-- ===== src/Tests/Numbers.antt =====
-- Conversions to bytes, and equality of 3, 3.0 and 6/2.
use baisilisp.Base.{◌≡◌, refl, ℕ, ◌^◌, Bool, true, false, none, ◌==◌, arith}
use baisilisp.Base.Int.{ℤ, pos, negsuc}
use baisilisp.Number.{
  Value, integer, ratio, floating, character, other, finite, ok, truncated, numeric,
  truncated_numeric, truncated_real, int_of, mod_ℤ, checked_integer, unchecked_integer, is_in_range,
  is_within,
}
use baisilisp.Number.Wrap.{InWidth}
use baisilisp.Number.Coerce.{unchecked_integer-wraps, checked_integer-unchecked}
use baisilisp.Number.Equality.{
  eq_values, eq_real, numeric_family, same_families, same_family, numeric_equiv,
}
use baisilisp.Number.Relation.{numeric_equiv_relation}

-- 300.5 as a byte
abbrev too_large : Value ℕ
too_large = floating (finite (pos 601) 1)

unchecked_integer-wraps_example :
    (z : ℤ) × (unchecked_integer too_large 8 false none ≡ ok z)
    × InWidth 8 z
    × (mod_ℤ z (2 ^ 8) ≡ mod_ℤ (pos 300) (2 ^ 8))
unfolding truncated numeric truncated_numeric truncated_real int_of
unchecked_integer-wraps_example =
    unchecked_integer-wraps too_large 8 false (pos 300) (omega arith) refl

-- -7/2
abbrev a_ratio : Value ℕ
a_ratio = ratio (negsuc 6) 1

checked_integer-unchecked_example :
    InWidth 8 (negsuc 2) × (unchecked_integer a_ratio 8 true none ≡ ok (negsuc 2))
unfolding checked_integer numeric truncated_numeric int_of is_in_range is_within
checked_integer-unchecked_example =
    checked_integer-unchecked a_ratio 8 true (negsuc 2) (omega arith) refl

unfoldable host_eq : Value ℕ → Value ℕ → Bool
host_eq (character c) (character d) = c == d
host_eq (other v) (other w) = v == w
host_eq _ _ = false

host_eq_sym : (v w : Value ℕ) → host_eq v w ≡ true → host_eq w v ≡ true
unfolding host_eq
host_eq_sym v w e = ground (arith, e)

host_eq_trans : (u v w : Value ℕ) → host_eq u v ≡ true → host_eq v w ≡ true → host_eq u w ≡ true
unfolding host_eq
host_eq_trans u v w e e' = ground (arith, e, e')

-- They are equal to Python, but not to the program.
of_two_types : numeric_equiv host_eq (integer (pos 3)) (floating (finite (pos 3) 0)) ≡ false
unfolding numeric_equiv numeric_family same_families same_family
of_two_types = refl

-- The equality of the host meets the conditions under which that of the program is symmetric and
-- transitive.
related :
    (numeric_equiv host_eq (ratio (pos 3) 0) (integer (pos 3)) ≡ true)
    × (numeric_equiv host_eq (ratio (pos 3) 0) (integer (pos 3)) ≡ true
        → numeric_equiv host_eq (integer (pos 3)) (integer (pos 3)) ≡ true)
unfolding numeric_equiv numeric_family same_families same_family eq_values eq_real
related =
    numeric_equiv_relation host_eq host_eq_sym host_eq_trans (integer (pos 3)) (ratio (pos 3) 0)
      (integer (pos 3)) refl
