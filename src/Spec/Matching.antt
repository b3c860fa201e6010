-- ===== src/Spec/Matching.antt =====
-- Lemmas on the generators of matches of src/basilisp/lang/spec.py.
use mathlib.Core.Path.{subst}
use baisilisp.Base.{
  ℕ, zero, suc, ◌≡◌, refl, Bool, true, false, Option, none, some, List, [], ◌∷◌, ◌++◌, length, All,
  arith, ◌⊎◌, inl, inr, if◌then◌else◌, ◌==◌, Option-cases, Bool-cases, List-cases,
}
use baisilisp.Spec.{option, Error, Answer, valid, invalid, raise, ◌>>=◌}
use baisilisp.Spec.Conform.{Matches, first, whole_from, each, repeat_loop}

pub Answer-cases :
    {A : Type 0} (a : Answer A)
    → ((x : A) × (a ≡ valid x)) ⊎ ((a ≡ invalid) ⊎ ((e : Error) × (a ≡ raise e)))
Answer-cases (valid x) = inl (x, refl)
Answer-cases invalid = inr (inl refl)
Answer-cases (raise e) = inr (inr (e, refl))

-- What a valid answer shows of the parts of the code that gave it.
pub valid-of-bind :
    {A B : Type 0} (m : Answer A) (f : A → Answer B) {b : B}
    → (m >>= f) ≡ valid b
    → (a : A) × (f a ≡ valid b) × (m ≡ valid a)
valid-of-bind (valid a) f h = (a, h, refl)
valid-of-bind invalid f h = cc
valid-of-bind (raise e) f h = cc

pub valid-of-option :
    {A B : Type 0} (o : Option A) (f : A → Answer B) {b : B}
    → option invalid f o ≡ valid b
    → (a : A) × (f a ≡ valid b) × (o ≡ some a)
valid-of-option none f h = cc
valid-of-option (some a) f h = (a, h, refl)

pub valid-of-if :
    {A : Type 0} (test : Bool) (m : Answer A) {a : A}
    → (if test then m else invalid) ≡ valid a
    → m ≡ valid a
valid-of-if true m h = h
valid-of-if false m h = cc

pub valid-injective : {A : Type 0} {a b : A} → valid a ≡ valid b → a ≡ b
valid-injective h = cc

module _ {V : Type 0} (P : V × List V → Type 0) where
  pub All-first : (ms : Matches V) (m : V × List V) → All P ms.yields → first ms ≡ valid m → P m
  unfolding first
  All-first ms m all h = elim (List-cases ms.yields) [
    | inl e ↦ elim (Option-cases ms.ending) [
      | inl f ↦ absurd (ground (arith, e, f))
      | inr (x, f) ↦ absurd (ground (arith, e, f))
    ]
    | inr (x, rest, e) ↦ let here : P x = (rw e at all).0 in subst P (ground (arith, e)) here
  ]

  pub All-whole :
      (ms : List (V × List V)) (e : Option Error) (c : V)
      → All P ms
      → whole_from ms e ≡ valid c
      → P (c, [])
  unfolding whole_from
  All-whole [] none c all h = cc
  All-whole [] (some x) c all h = cc
  All-whole ((c', []) ∷ ms) e c all h = let same : c' ≡ c = cc in subst (λ x. P (x, [])) same all.0
  All-whole ((c', x ∷ rest) ∷ ms) e c all h = All-whole ms e c all.1 h

  pub All-append : (ms ns : List (V × List V)) → All P ms → All P ns → All P (ms ++ ns)
  All-append [] ns a b = b
  All-append (m ∷ ms) ns a b = (a.0, All-append ms ns a.1 b)

pub All-imp :
    {A : Type 0} {P Q : A → Type 0} (xs : List A) → ((x : A) → P x → Q x) → All P xs → All Q xs
All-imp [] f all = tt
All-imp (x ∷ xs) f all = (f x all.0, All-imp xs f all.1)

module _ {V : Type 0} (P Q : V × List V → Type 0) where
  pub All-each :
      (ms : List (V × List V)) (e : Option Error) (f : V → List V → Matches V)
      → ((c : V) (rest : List V) → P (c, rest) → All Q (f c rest).yields)
      → All P ms
      → All Q (each ms e f).yields
  unfolding each
  All-each [] e f step all = tt
  All-each ((c, rest) ∷ ms) e f step all = elim (Option-cases (f c rest).ending) [
    | inr (x, stop) ↦ rw (stop, each) (step c rest all.0)
    | inl go ↦
        rw (go, each)
          (All-append Q (f c rest).yields (each ms e f).yields (step c rest all.0)
            (All-each ms e f step all.1))
  ]

-- Each step of a repeated spec is a match from where the one before it ended.
abbrev pub Chain :
    {V : Type 0} → (List V → V × List V → Type 0) → List V → List (V × List V) → Type 0
Chain P xs [] = Unit
Chain P xs (m ∷ steps) = P xs m × Chain P m.1 steps

module _ {V : Type 0} (P : List V → V × List V → Type 0) (match : List V → Matches V) where
  pub repeat_loop-Chain :
      (fuel : ℕ) (xs : List V) (steps : List (V × List V))
      → ((ys : List V) → All (P ys) (match ys).yields)
      → repeat_loop fuel match xs ≡ valid steps
      → Chain P xs steps
  unfolding repeat_loop
  repeat_loop-Chain zero xs steps all h = cc
  repeat_loop-Chain (suc fuel) xs steps all h = elim (Answer-cases (first (match xs))) [
    | inr (inl e) ↦ let same : [] ≡ steps = ground (arith, e) in subst (Chain P xs) same tt
    | inr (inr (x, e)) ↦ absurd (ground (arith, e))
    | inl (m, e) ↦ elim (Bool-cases (length m.1 == length xs)) [
      | inl stuck ↦ absurd (ground (arith, e, stuck))
      | inr moved ↦ elim (Answer-cases (repeat_loop fuel match m.1)) [
        | inr (inl f) ↦ absurd (ground (arith, e, moved, f))
        | inr (inr (x, f)) ↦ absurd (ground (arith, e, moved, f))
        | inl (more, f) ↦
            let same : m ∷ more ≡ steps = ground (arith, e, moved, f) in
            subst (Chain P xs) same
              (All-first (P xs) (match xs) m (all xs) e, repeat_loop-Chain fuel m.1 more all f)
      ]
    ]
  ]
