-- ===== src/Number/Relation.antt =====
-- The equality of src/basilisp/lang/equality.py is symmetric and transitive.
use native.Mathlib.Nat.{mul_right_comm, mul-div_cancel}
use baisilisp.Base.{
  ◌≡◌, refl, sym, ap, ◌∙◌, ℕ, suc, ◌*◌, ◌/◌, Bool, true, Bool-cases, Option, none, some, arith, ◌⊎◌,
  inl, inr,
}
use baisilisp.Base.Int.{pos_part, neg_part}
use baisilisp.Number.{Real, finite, Value, integer, ratio, decimal, floating, character, other}
use baisilisp.Number.Equality.{
  Family, same_family, same_families, eq_real, exact, numeric_family, eq_values, numeric_equiv,
}

cross : (a b c x y z : ℕ) → a * suc y ≡ b * suc x → b * suc z ≡ c * suc y → a * suc z ≡ c * suc x
cross a b c x y z e e' =
    let scaled : a * suc z * suc y ≡ c * suc x * suc y =
      mul_right_comm a (suc z) (suc y)
      ∙ ap (λ n. n * suc z) e
      ∙ mul_right_comm b (suc x) (suc z)
      ∙ ap (λ n. n * suc x) e'
      ∙ mul_right_comm c (suc y) (suc x) in
    sym (mul-div_cancel (a * suc z) (omega arith))
    ∙ ap (λ n. n / suc y) scaled
    ∙ mul-div_cancel (c * suc x) (omega arith)

eq_real_sym : (x y : Real) → eq_real x y ≡ true → eq_real y x ≡ true
unfolding eq_real
eq_real_sym x y e = ground (arith, e)

eq_real_trans : (x y z : Real) → eq_real x y ≡ true → eq_real y z ≡ true → eq_real x z ≡ true
unfolding eq_real
eq_real_trans (finite n d) (finite m c) (finite k b) e e' =
    let above =
      cross (pos_part n) (pos_part m) (pos_part k) d c b (ground (arith, e)) (ground (arith, e')) in
    let below =
      cross (neg_part n) (neg_part m) (neg_part k) d c b (ground (arith, e)) (ground (arith, e')) in
    ground (arith, above, below)
eq_real_trans x y z e e' = ground (arith, e, e')

same_families-eq : (o p : Option Family) → same_families o p ≡ true → o ≡ p
unfolding same_families same_family
same_families-eq o p e = ground (arith, e)

same_families_refl : (o : Option Family) → same_families o o ≡ true
unfolding same_families same_family
same_families_refl o = ground arith

module _ {V : Type 0} (host_eq : Value V → Value V → Bool) where
  equiv-both :
      (v w : Value V)
      → numeric_equiv host_eq v w ≡ true
      → (numeric_family v ≡ numeric_family w) × (eq_values host_eq v w ≡ true)
  unfolding numeric_equiv
  equiv-both v w e = elim (Bool-cases (same_families (numeric_family v) (numeric_family w))) [
    | inl same ↦ (same_families-eq _ _ same, ground (arith, e, same))
    | inr differ ↦ ground (arith, e, differ)
  ]

  both-equiv :
      (v w : Value V)
      → numeric_family v ≡ numeric_family w
      → eq_values host_eq v w ≡ true
      → numeric_equiv host_eq v w ≡ true
  unfolding numeric_equiv
  both-equiv v w same e = rw (same, same_families_refl (numeric_family w), e, numeric_equiv) refl

  -- A numeric value has an exact value and a family, another value has neither.
  value_kind :
      (v : Value V)
      → ((x : Real) × (f : Family) × (exact v ≡ some x) × (numeric_family v ≡ some f))
        ⊎ ((exact v ≡ none) × (numeric_family v ≡ none))
  unfolding numeric_family
  value_kind (integer n) = inl (_, _, refl, refl)
  value_kind (ratio n d) = inl (_, _, refl, refl)
  value_kind (decimal x) = inl (_, _, refl, refl)
  value_kind (floating x) = inl (_, _, refl, refl)
  value_kind (character c) = inr (refl, refl)
  value_kind (other v) = inr (refl, refl)

  eq_values-exact :
      (v w : Value V) (x y : Real)
      → exact v ≡ some x
      → exact w ≡ some y
      → eq_values host_eq v w ≡ eq_real x y
  unfolding eq_values
  eq_values-exact v w x y e e' = rw (e, e', eq_values) refl

  eq_values_host : (v w : Value V) → exact v ≡ none → eq_values host_eq v w ≡ host_eq v w
  unfolding eq_values
  eq_values_host v w e = rw (e, eq_values) refl

  -- What equality means on both kinds of values.
  Equal : Value V → Value V → Type 0
  Equal v w =
      ((x : Real) × (y : Real) × (exact v ≡ some x) × (exact w ≡ some y) × (eq_real x y ≡ true))
      ⊎ ((exact v ≡ none) × (exact w ≡ none) × (host_eq v w ≡ true))

  equiv-Equal :
      (v w : Value V)
      → numeric_equiv host_eq v w ≡ true
      → (numeric_family v ≡ numeric_family w) × Equal v w
  unfolding Equal
  equiv-Equal v w e =
      let (same, eq) = equiv-both v w e in
      (
        same,
        elim (value_kind v) [
          | inl (x, f, ev, fv) ↦ elim (value_kind w) [
            | inl (y, g, ew, fw) ↦ inl (x, y, ev, ew, sym (eq_values-exact v w x y ev ew) ∙ eq)
            | inr (ew, fw) ↦ ground (arith, same, fv, fw)
          ]
          | inr (ev, fv) ↦ elim (value_kind w) [
            | inl (y, g, ew, fw) ↦ ground (arith, same, fv, fw)
            | inr (ew, fw) ↦ inr (ev, ew, sym (eq_values_host v w ev) ∙ eq)
          ]
        ],
      )

  Equal-equiv :
      (v w : Value V)
      → numeric_family v ≡ numeric_family w
      → Equal v w
      → numeric_equiv host_eq v w ≡ true
  unfolding Equal
  Equal-equiv v w same (inl (x, y, ev, ew, eq)) =
      both-equiv v w same (eq_values-exact v w x y ev ew ∙ eq)
  Equal-equiv v w same (inr (ev, ew, eq)) = both-equiv v w same (eq_values_host v w ev ∙ eq)

  -- The equality of values is symmetric and transitive, with the values of several types that count
  -- as numbers. The conditions are that the host's equality of other values is.
  pub numeric_equiv_relation :
      ((v w : Value V) → host_eq v w ≡ true → host_eq w v ≡ true)
      → ((u v w : Value V) → host_eq u v ≡ true → host_eq v w ≡ true → host_eq u w ≡ true)
      → (u v w : Value V) → numeric_equiv host_eq u v ≡ true
      → (numeric_equiv host_eq v u ≡ true)
        × (numeric_equiv host_eq v w ≡ true → numeric_equiv host_eq u w ≡ true)
  unfolding Equal
  numeric_equiv_relation host_sym host_trans u v w e =
      let (same, eq) = equiv-Equal u v e in
      (
        Equal-equiv v u (sym same) (elim eq [
          | inl (x, y, eu, ev, r) ↦ inl (y, x, ev, eu, eq_real_sym x y r)
          | inr (eu, ev, r) ↦ inr (ev, eu, host_sym u v r)
        ]),
        λ e'.
            let (same', eq') = equiv-Equal v w e' in
            Equal-equiv u w (same ∙ same') (elim eq [
              | inl (x, y, eu, ev, r) ↦ elim eq' [
                | inl (y', z, ev', ew, r') ↦
                    inl (x, z, eu, ew, eq_real_trans x y z r (ground (arith, ev, ev', r')))
                | inr (ev', ew, r') ↦ ground (arith, ev, ev')
              ]
              | inr (eu, ev, r) ↦ elim eq' [
                | inl (y', z, ev', ew, r') ↦ ground (arith, ev, ev')
                | inr (ev', ew, r') ↦ inr (eu, ew, host_trans u v w r r')
              ]
            ]),
      )
