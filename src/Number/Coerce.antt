-- ===== src/Number/Coerce.antt =====
-- The conversions to machine integers of src/basilisp/lang/numeric_coerce.py.
use native.Mathlib.Nat.{div-le_of_le-mul, mul_comm}
use mathlib.Core.Path.{subst}
use baisilisp.Base.{
  ◌≡◌, refl, ap, ℕ, suc, ◌-◌, ◌*◌, ◌/◌, ◌^◌, ◌≤◌, Bool, true, Bool-cases, Option, none, some, arith,
  ◌⊎◌, inl, inr,
}
use baisilisp.Base.Int.{ℤ, pos, negsuc}
use baisilisp.Number.{
  Real, nan, infinite, finite, Value, integer, ratio, decimal, floating, character, other, Result,
  ok, raise, Error, int_of, numeric, truncated_real, truncated_numeric, truncated, mod_ℤ, signed,
  is_within, is_real_within, is_in_range, checked_integer, unchecked_integer,
}
use baisilisp.Number.Wrap.{InWidth, half-pos, signed-InWidth, signed_id, mod_ℤ-signed}

div_bound : (a b d : ℕ) → a ≤ b * suc d → a / suc d ≤ b
div_bound a b d e = div-le_of_le-mul (suc d) (ground (arith, e, mul_comm b (suc d)))

within-InWidth : (bits : ℕ) (n : ℤ) (d : ℕ) → is_within bits n d ≡ true → InWidth bits (int_of n d)
unfolding is_within int_of
within-InWidth bits (pos n) d e =
    let q = div_bound n (2 ^ (bits - 1) - 1) d (ground (arith, e)) in
    record { above = omega arith; below = omega (arith, q, half-pos bits) }
within-InWidth bits (negsuc n) d e =
    let q = div_bound (suc n) (2 ^ (bits - 1)) d (ground (arith, e)) in
    record { above = ground (arith, q); below = ground (arith, half-pos bits) }

whole-InWidth : (bits : ℕ) (n : ℤ) → is_within bits n 0 ≡ true → InWidth bits n
unfolding is_within
whole-InWidth bits n e = record {
  above = ground (arith, e);
  below = ground (arith, e, half-pos bits);
}

ok_inj : {A : Type 0} {a b : A} → ok a ≡ ok b → a ≡ b
ok_inj e = cc

numeric_cases : {A : Type 0} (r : Result A) → ((a : A) × (r ≡ ok a)) ⊎ ((e : Error) × (r ≡ raise e))
numeric_cases (ok a) = inl (a, refl)
numeric_cases (raise e) = inr (e, refl)

real-InWidth :
    (bits : ℕ) (inf : Option ℕ) (x : Real) (z : ℤ)
    → 1 ≤ bits
    → is_real_within bits x ≡ true
    → truncated_real none x ≡ ok z
    → InWidth bits z × (truncated_real inf x ≡ ok z)
unfolding is_real_within truncated_real
real-InWidth bits inf nan z one e t = (
  subst (InWidth bits) (ok_inj t)
      (record { above = omega arith; below = omega (arith, half-pos bits) }),
  t,
)
real-InWidth bits inf (infinite above) z one e t = ground (arith, e)
real-InWidth bits inf (finite n d) z one e t =
    (subst (InWidth bits) (ok_inj t) (within-InWidth bits n d e), t)

module _ {V : Type 0} where
  range-InWidth :
      (bits : ℕ) (inf : Option ℕ) (v : Value V) (z : ℤ)
      → 1 ≤ bits
      → is_in_range bits v ≡ true
      → truncated_numeric none v ≡ ok z
      → InWidth bits z × (truncated_numeric inf v ≡ ok z)
  unfolding is_in_range truncated_numeric
  range-InWidth bits inf (integer n) z one e t =
      (subst (InWidth bits) (ok_inj t) (whole-InWidth bits n e), t)
  range-InWidth bits inf (ratio n d) z one e t =
      (subst (InWidth bits) (ok_inj t) (within-InWidth bits n d e), t)
  range-InWidth bits inf (decimal x) z one e t = real-InWidth bits inf x z one e t
  range-InWidth bits inf (floating x) z one e t = real-InWidth bits inf x z one e t
  range-InWidth bits inf (character c) z one e t = ground (arith, e)
  range-InWidth bits inf (other v) z one e t = ground (arith, e)

  -- `unchecked_integer` of a value that has an integer part gives an integer of the signed type that
  -- agrees with that part modulo 2 to the number of bits. The type has at least one bit.
  pub unchecked_integer-wraps :
      (v : Value V) (bits : ℕ) (allow : Bool) (t : ℤ)
      → 1 ≤ bits
      → truncated allow (some bits) v ≡ ok t
      → (z : ℤ) × (unchecked_integer v bits allow none ≡ ok z)
        × InWidth bits z
        × (mod_ℤ z (2 ^ bits) ≡ mod_ℤ t (2 ^ bits))
  unfolding unchecked_integer
  unchecked_integer-wraps v bits allow t one e = (
    signed t bits,
    rw (e, unchecked_integer) refl,
    signed-InWidth t bits one,
    mod_ℤ-signed t bits one,
  )

  -- What `checked_integer` accepts is in the signed type, and `unchecked_integer` gives the same
  -- integer for it. The type has at least one bit.
  pub checked_integer-unchecked :
      (v : Value V) (bits : ℕ) (allow : Bool) (z : ℤ)
      → 1 ≤ bits
      → checked_integer v bits allow ≡ ok z
      → InWidth bits z × (unchecked_integer v bits allow none ≡ ok z)
  unfolding unchecked_integer checked_integer truncated
  checked_integer-unchecked v bits allow z one e = elim (numeric_cases (numeric allow v)) [
    | inr (err, n) ↦ ground (arith, e, n)
    | inl (x, n) ↦ elim (Bool-cases (is_in_range bits x)) [
      | inr outside ↦ ground (arith, e, n, outside)
      | inl yes_in ↦
          let (w, same) =
            range-InWidth bits (some bits) x z one yes_in (ground (arith, e, n, yes_in)) in
          (w, rw (n, same, unchecked_integer, truncated) (ap ok (signed_id z bits one w)))
    ]
  ]
