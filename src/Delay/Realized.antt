-- ===== src/Delay/Realized.antt =====
-- A realized delay of src/basilisp/lang/delay.py keeps its value.
use mathlib.Core.Path.{subst}
use baisilisp.Base.{
  ◌≡◌, sym, ap, ◌∙◌, ℕ, zero, suc, Option, some, arith, inl, inr, true, Bool, Bool-cases,
}
use baisilisp.Agent.Order.{Result-cases}
use baisilisp.Agent.{Result, ok, validate_state}
use baisilisp.Atom.{Atom, Others, Swapped, swap, exchange, notify_watches}
use baisilisp.Atom.Swap.{swap-atomic}
use baisilisp.Delay.{make_delay, compute, deref_delay}

module _ {V : Type 0} (eq : Option V → Option V → Bool) where
  -- What other threads do with a delay leaves a computed value as it is.
  pub record AreDerefs (others : Others (Option V)) : Type 0 where
    pub before_kept : (i : ℕ) (v : V) → others.before i (some v) ≡ some v
    pub between_kept : (i : ℕ) (v : V) → others.between i (some v) ≡ some v

  -- A delay that has its value.
  abbrev pub realized : V → Atom (Option V)
  realized v = record make_delay { state = some v }

  deref_realized :
      (fuel : ℕ) (others : Others (Option V)) (f : Result V) (v : V)
      → AreDerefs others
      → eq (some v) (some v) ≡ true
      → deref_delay eq (suc fuel) others f (realized v)
        ≡ some (record { result = ok (some v); found = some v; atom = realized v })
  unfolding deref_delay swap compute exchange validate_state notify_watches
  deref_realized fuel others f v kept self =
      let seen = kept.before_kept 0 v in
      let found = kept.between_kept 0 v in ground (arith, seen, found, self)

  -- The atom of a delay never has a validator or watches.
  swap_bare :
      (fuel i : ℕ) (others : Others (Option V)) (f : Option V → Result (Option V)) (s : Option V)
      (out : Swapped (Option V))
      → swap eq fuel i others f (record make_delay { state = s }) ≡ some out
      → out.atom ≡ record make_delay { state = out.atom.state }
  unfolding swap exchange validate_state notify_watches
  swap_bare zero i others f s out e = cc
  swap_bare (suc fuel) i others f s out e =
      let seen = others.before i s in
      let found = others.between i seen in
      elim (Result-cases (f seen)) [
        | inr (x, fails) ↦ ground (arith, fails)
        | inl (w, gives) ↦ elim (Bool-cases (eq found seen)) [
          | inl p ↦ ground (arith, gives, p)
          | inr p ↦ ground (arith, gives, p, swap_bare fuel (suc i) others f found out)
        ]
      ]

  -- Once a `deref` of a delay has returned a value, every later one returns that value, whatever the
  -- function would give then and whatever other threads that only dereference the delay do, and leaves the
  -- delay as it is; one turn is enough for it. This holds for a value that is `==` to itself: with a NaN the
  -- comparison in the loop never succeeds.
  pub deref_same :
      (fuel fuel' : ℕ) (others others' : Others (Option V)) (f f' : Result V) (s : Option V) (v : V)
      (out : Swapped (Option V))
      → AreDerefs others'
      → eq (some v) (some v) ≡ true
      → deref_delay eq fuel others f (record make_delay { state = s }) ≡ some out
      → out.result ≡ ok (some v)
      → deref_delay eq (suc fuel') others' f' out.atom
        ≡ some (record { result = ok (some v); found = some v; atom = out.atom })
  unfolding deref_delay
  deref_same fuel fuel' others others' f f' s v out kept self first gave =
      let bare = swap_bare fuel 0 others (compute f) s out first in
      let state =
        (swap-atomic eq others (compute f) (record make_delay { state = s }) fuel out (some v) first
          gave).3 in
      let same : out.atom ≡ realized v = bare ∙ ap (λ o. record make_delay { state = o }) state in
      subst
        (λ a.
          deref_delay eq (suc fuel') others' f' a
          ≡ some (record { result = ok (some v); found = some v; atom = a }))
        (sym same) (deref_realized fuel' others' f' v kept self)
