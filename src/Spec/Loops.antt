-- ===== src/Spec/Loops.antt =====
-- The loops of src/basilisp/lang/spec.py over matches and entries: none runs out of the fuel that it is
-- given.
use baisilisp.Base.{
  ℕ, zero, suc, ◌≤◌, ◌<◌, Bool, true, false, Option, none, some, List, [], ◌∷◌, length, All, arith,
  inl, inr, if◌then◌else◌, ◌==◌, Option-cases, Bool-cases, List-cases,
}
use baisilisp.Spec.{
  Error, repeated_nothing, no_fuel, Answer, valid, invalid, raise, ◌>>=◌, option, answer,
}
use baisilisp.Spec.Conform.{
  Matches, first, whole_from, each, repeat_loop, check_each, check_entries,
}
use baisilisp.Spec.Matching.{Answer-cases, All-imp, All-append}

-- Anything but the exception of a loop that ran out of fuel.
abbrev pub Ends : {A : Type 0} → Answer A → Type 0
Ends (valid a) = Unit
Ends invalid = Unit
Ends (raise repeated_nothing) = Unit
Ends (raise no_fuel) = ⊥

abbrev pub EndsWith : Option Error → Type 0
EndsWith none = Unit
EndsWith (some repeated_nothing) = Unit
EndsWith (some no_fuel) = ⊥

pub Ends-bind :
    {A B : Type 0} (m : Answer A) (f : A → Answer B)
    → Ends m
    → ((a : A) → Ends (f a))
    → Ends (m >>= f)
Ends-bind (valid a) f e g = g a
Ends-bind invalid f e g = tt
Ends-bind (raise repeated_nothing) f e g = tt
Ends-bind (raise no_fuel) f e g = e

pub Ends-option :
    {A B : Type 0} (o : Option A) (f : A → Answer B)
    → ((a : A) → Ends (f a))
    → Ends (option invalid f o)
Ends-option none f g = tt
Ends-option (some a) f g = g a

pub Ends-if :
    {A : Type 0} (test : Bool) (m : Answer A) → Ends m → Ends (if test then m else invalid)
Ends-if true m e = e
Ends-if false m e = tt

pub EndsWith-raise : (e : Error) → Ends {A = Unit {0}} (raise e) → EndsWith (some e)
EndsWith-raise repeated_nothing h = tt
EndsWith-raise no_fuel h = h

module _ {V : Type 0} where
  -- The matches at `xs` leave no more values than there are, and the generator ends.
  abbrev pub Within : List V → Matches V → Type 0
  Within xs ms = All (λ (m : V × List V). length m.1 ≤ length xs) ms.yields × EndsWith ms.ending

  pub Ends-whole : (ms : List (V × List V)) (e : Option Error) → EndsWith e → Ends (whole_from ms e)
  unfolding whole_from
  Ends-whole [] none h = tt
  Ends-whole [] (some repeated_nothing) h = tt
  Ends-whole [] (some no_fuel) h = h
  Ends-whole ((c, []) ∷ ms) e h = tt
  Ends-whole ((c, x ∷ rest) ∷ ms) e h = Ends-whole ms e h

  -- What the first match is, if there is one.
  abbrev pub FirstWithin : List V → Answer (V × List V) → Type 0
  FirstWithin xs (valid m) = length m.1 ≤ length xs
  FirstWithin xs invalid = Unit
  FirstWithin xs (raise e) = EndsWith (some e)

  pub first-Within : (xs : List V) (ms : Matches V) → Within xs ms → FirstWithin xs (first ms)
  unfolding first
  first-Within xs ms (fit, end) = elim (List-cases ms.yields) [
    | inr (m, rest, e) ↦ rw (e, first) (rw e at fit).0
    | inl e ↦ elim (Option-cases ms.ending) [
      | inl f ↦ rw (e, f, first) tt
      | inr (x, f) ↦ rw (e, f, first) (rw f at end)
    ]
  ]

  pub Within-each :
      (xs : List V) (ms : List (V × List V)) (e : Option Error) (f : V → List V → Matches V)
      → ((c : V) (rest : List V) → length rest ≤ length xs → Within xs (f c rest))
      → All (λ (m : V × List V). length m.1 ≤ length xs) ms
      → EndsWith e
      → Within xs (each ms e f)
  unfolding each
  Within-each xs [] e f step fit end = (tt, end)
  Within-each xs ((c, rest) ∷ ms) e f step fit end = elim (Option-cases (f c rest).ending) [
    | inr (x, stop) ↦ rw (stop, each) (step c rest fit.0)
    | inl go ↦
        let (later, end') = Within-each xs ms e f step fit.1 end in
        rw (go, each)
          (
            All-append (λ (m : V × List V). length m.1 ≤ length xs) (f c rest).yields
                (each ms e f).yields (step c rest fit.0).0 later,
            end',
          )
  ]

  -- The steps of a repeated spec leave fewer and fewer values.
  abbrev pub Shrinks : List V → Answer (List (V × List V)) → Type 0
  Shrinks xs (valid steps) = All (λ (m : V × List V). length m.1 ≤ length xs) steps
  Shrinks xs invalid = Unit
  Shrinks xs (raise e) = EndsWith (some e)

  pub Shrinks-more :
      (xs : List V) (m : V × List V) (a : Answer (List (V × List V)))
      → length m.1 ≤ length xs
      → Shrinks m.1 a
      → Shrinks xs (a >>= λ steps. valid (m ∷ steps))
  Shrinks-more xs m (valid steps) le fit =
      (le, All-imp steps (λ n (h : length n.1 ≤ length m.1). omega arith) fit)
  Shrinks-more xs m invalid le fit = tt
  Shrinks-more xs m (raise e) le fit = fit

  pub repeat_loop-Shrinks :
      (fuel : ℕ) (match : List V → Matches V) (xs : List V)
      → ((ys : List V) → Within ys (match ys))
      → length xs < fuel
      → Shrinks xs (repeat_loop fuel match xs)
  unfolding repeat_loop
  repeat_loop-Shrinks zero match xs all lt = absurd (omega arith)
  repeat_loop-Shrinks (suc fuel) match xs all lt =
      let fit = first-Within xs (match xs) (all xs) in
      elim (Answer-cases (first (match xs))) [
        | inr (inl e) ↦ rw (e, repeat_loop) tt
        | inr (inr (x, e)) ↦ rw (e, repeat_loop) (rw e at fit)
        | inl (m, e) ↦
            let le : length m.1 ≤ length xs = rw e at fit in
            elim (Bool-cases (length m.1 == length xs)) [
              | inl stuck ↦ rw (e, repeat_loop) (rw stuck tt)
              | inr moved ↦
                  rw (e, repeat_loop)
                    (rw moved (
                      Shrinks-more xs m (repeat_loop fuel match m.1) le
                        (repeat_loop-Shrinks fuel match m.1 all (ground arith))))
            ]
      ]

  pub check_each-Ends :
      {A : Type 0} (f : A → Answer V) (xs : List A)
      → ((x : A) → Ends (f x))
      → Ends (check_each f xs)
  unfolding check_each
  check_each-Ends f [] all = tt
  check_each-Ends f (x ∷ xs) all = Ends-bind (f x) _ (all x) (λ c. check_each-Ends f xs all)

  pub check_entries-Ends :
      (f g : V → Answer V) (es : List (V × V))
      → ((x : V) → Ends (f x))
      → ((x : V) → Ends (g x))
      → Ends (check_entries f g es)
  unfolding check_entries
  check_entries-Ends f g [] all all' = tt
  check_entries-Ends f g ((k, v) ∷ es) all all' =
      Ends-bind (f k) _ (all k)
        (λ c. Ends-bind (g v) _ (all' v) (λ d. check_entries-Ends f g es all all'))

  pub Ends-answer :
      {A : Type 0} (a : Answer A) (f : A → Answer V) (b : Answer V)
      → Ends a
      → ((x : A) → Ends (f x))
      → Ends b
      → Ends (answer f b raise a)
  Ends-answer (valid x) f b e g k = g x
  Ends-answer invalid f b e g k = k
  Ends-answer (raise repeated_nothing) f b e g k = tt
  Ends-answer (raise no_fuel) f b e g k = e

  -- The matches that the first one of a child gives.
  pub Within-first :
      (xs : List V) (a : Answer (V × List V)) (f : V × List V → Matches V) (b : Matches V)
      → FirstWithin xs a
      → ((m : V × List V) → length m.1 ≤ length xs → Within xs (f m))
      → Within xs b
      → Within xs (answer f b (λ e. record { yields = []; ending = some e }) a)
  Within-first xs (valid m) f b e g k = g m e
  Within-first xs invalid f b e g k = k
  Within-first xs (raise x) f b e g k = (tt, e)

  pub Within-answer :
      (xs : List V) (a : Answer V) (f : V → Matches V)
      → Ends a
      → ((c : V) → Within xs (f c))
      → Within xs (
          answer f
            (record { yields = []; ending = none })
            (λ e. record { yields = []; ending = some e })
            a)
  Within-answer xs (valid c) f e g = g c
  Within-answer xs invalid f e g = (tt, tt)
  Within-answer xs (raise repeated_nothing) f e g = (tt, tt)
  Within-answer xs (raise no_fuel) f e g = (tt, e)
