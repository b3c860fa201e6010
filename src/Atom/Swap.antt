-- ===== src/Atom/Swap.antt =====
-- `swap` of src/basilisp/lang/atom.py is atomic, and ends once nobody interferes.
use baisilisp.Base.{ℕ, zero, suc, ◌≡◌, Bool, true, Bool-cases, some, arith, inl, inr}
use baisilisp.Agent.{Result, ok, validate_state}
use baisilisp.Agent.Order.{Result-cases}
use baisilisp.Atom.{Atom, Others, Swapped, exchange, swap, notify_watches}

module _ {V : Type 0} (eq : V → V → Bool) (others : Others V) (f : V → Result V) where
  swap_from :
      (fuel i : ℕ) (a : Atom V) (out : Swapped V) (v : V)
      → swap eq fuel i others f a ≡ some out
      → out.result ≡ ok v
      → (s : V) × (f s ≡ ok v) × (eq out.found s ≡ true) × (out.atom.state ≡ v)
  unfolding swap exchange notify_watches
  swap_from zero i a out v h ended = cc
  swap_from (suc fuel) i a out v h ended =
      let seen = others.before i a.state in
      let found = others.between i seen in
      elim (Result-cases (f seen)) [
        | inr (e, fails) ↦ absurd (ground (arith, fails))
        | inl (w, gives) ↦ elim (Result-cases (validate_state a.validator w)) [
          | inr (e, bad) ↦ absurd (ground (arith, gives, bad))
          | inl (x, good) ↦ elim (Bool-cases (eq found seen)) [
            | inl p ↦ (
              seen,
              ground (arith, gives, good, p),
              ground (arith, gives, good, p),
              ground (arith, gives, good, p),
            )
            | inr p ↦
                swap_from fuel (suc i) (record a { state = found }) out v
                  (ground (arith, gives, good, p)) ended
          ]
        ]
      ]

module _ {V : Type 0} (eq : V → V → Bool) (others : Others V) (f : V → Result V) (a : Atom V) where
  -- However the other threads change the state in between: a swap that returns a value has computed it from
  -- a state that is `==` to the one that it replaced, and the value stands in the atom when it ends. So
  -- the only change of another thread that can be lost is one to a state that is `==` to the old one.
  pub swap-atomic :
      (fuel : ℕ) (out : Swapped V) (v : V)
      → swap eq fuel 0 others f a ≡ some out
      → out.result ≡ ok v
      → (s : V) × (f s ≡ ok v) × (eq out.found s ≡ true) × (out.atom.state ≡ v)
  swap-atomic fuel out v = swap_from eq others f fuel 0 a out v
