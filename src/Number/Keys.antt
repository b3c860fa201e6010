-- ===== src/Number/Keys.antt =====
-- The storage keys of src/basilisp/lang/equality.py against its equality.
use baisilisp.Base.{
  ◌≡◌, refl, sym, ◌∙◌, ℕ, Bool, true, false, ◌&&◌, Option-cases, Option, none, some, arith, inl,
  inr,
}
use baisilisp.Number.{Value}
use baisilisp.Number.Equality.{
  Family, same_family, same_families, numeric_family, plain, wrapped, eq_values, numeric_equiv, key,
  unkey, eq_stored, hash_stored,
}

same_family-eq : (f g : Family) → same_family f g ≡ true → f ≡ g
unfolding same_family
same_family-eq f g e = ground (arith, e)

module _ {V : Type 0} (host_eq : Value V → Value V → Bool) where
  key_plain : (v : Value V) → numeric_family v ≡ none → key host_eq v ≡ plain v
  unfolding key
  key_plain v e = rw (e, key) refl

  key_wrapped : (v : Value V) (f : Family) → numeric_family v ≡ some f → key host_eq v ≡ wrapped f v
  unfolding key
  key_wrapped v f e = rw (e, key) refl

  equiv_lem :
      (v w : Value V) (o p : Option Family)
      → numeric_family v ≡ o
      → numeric_family w ≡ p
      → numeric_equiv host_eq v w ≡ (same_families o p && eq_values host_eq v w)
  unfolding numeric_equiv
  equiv_lem v w o p e e' = rw (e, e', numeric_equiv) ground arith

  no_equiv :
      (v w : Value V) (o p : Option Family)
      → numeric_family v ≡ o
      → numeric_family w ≡ p
      → same_families o p ≡ false
      → numeric_equiv host_eq v w ≡ true
      → ⊥
  no_equiv v w o p e e' differ equal = ground (arith, equiv_lem v w o p e e', differ, equal)

  pub key-eq :
      (v w : Value V)
      → (eq_stored host_eq (key host_eq v) (key host_eq w) ≡ numeric_equiv host_eq v w)
        × (unkey host_eq (key host_eq v) ≡ v)
  unfolding eq_stored unkey same_families
  key-eq v w = elim (Option-cases (numeric_family v)) [
    | inl e ↦ elim (Option-cases (numeric_family w)) [
      | inl e' ↦ rw (key_plain v e, key_plain w e', equiv_lem v w none none e e') (refl, refl)
      | inr (g, e') ↦
          rw (key_plain v e, key_wrapped w g e', equiv_lem v w none (some g) e e') (refl, refl)
    ]
    | inr (f, e) ↦ elim (Option-cases (numeric_family w)) [
      | inl e' ↦
          rw (key_wrapped v f e, key_plain w e', equiv_lem v w (some f) none e e') (refl, refl)
      | inr (g, e') ↦
          rw (key_wrapped v f e, key_wrapped w g e')
            (ground (arith, equiv_lem v w (some f) (some g) e e'), refl)
    ]
  ]

  -- Equal keys have equal hashes, if values that the host takes to be equal have.
  pub hash_stored-key :
      (hash : Value V → ℕ) (hash_pair : Family → ℕ → ℕ)
      → ((v w : Value V) → eq_values host_eq v w ≡ true → hash v ≡ hash w)
      → (v w : Value V) → eq_stored host_eq (key host_eq v) (key host_eq w) ≡ true
      → hash_stored host_eq hash hash_pair (key host_eq v)
        ≡ hash_stored host_eq hash hash_pair (key host_eq w)
  unfolding hash_stored same_families
  hash_stored-key hash hash_pair agree v w same =
      let equal : numeric_equiv host_eq v w ≡ true = sym (key-eq v w).0 ∙ same in
      elim (Option-cases (numeric_family v)) [
        | inl e ↦ elim (Option-cases (numeric_family w)) [
          | inl e' ↦
              rw (key_plain v e, key_plain w e')
                (agree v w (sym (equiv_lem v w none none e e') ∙ equal))
          | inr (g, e') ↦ absurd (no_equiv v w none (some g) e e' refl equal)
        ]
        | inr (f, e) ↦ elim (Option-cases (numeric_family w)) [
          | inl e' ↦ absurd (no_equiv v w (some f) none e e' refl equal)
          | inr (g, e') ↦
              let both = equiv_lem v w (some f) (some g) e e' in
              let fg : f ≡ g = same_family-eq f g (ground (arith, equal, both)) in
              let hh : hash v ≡ hash w = agree v w (ground (arith, equal, both)) in
              rw (key_wrapped v f e, key_wrapped w g e', fg, hh) refl
        ]
      ]
