-- ===== src/Delay.antt =====
-- `Delay` of src/basilisp/lang/delay.py, over the atoms of src/basilisp/lang/atom.py. The state is
-- `none` until it is computed; its function is an argument, with the value that a call of it has,
-- and `eq` is Python's `==` on states, which compares their fields.
pub mod Realized
use baisilisp.Base.{ℕ, Bool, Option, none, some, is_some}
use baisilisp.Agent.{Result, ok, raise}
use baisilisp.Atom.{Atom, Others, Swapped, swap}

module _ {V : Type 0} where
  -- `Delay.__init__`: an atom without a validator or watches
  abbrev pub make_delay : Atom (Option V)
  make_delay = record { state = none; validator = none; watches = λ old new. none }

  -- `__deref`, the function that `deref` swaps with
  unfoldable pub compute : Result V → Option V → Result (Option V)
  compute f (some v) = ok (some v)
  compute (ok v) none = ok (some v)
  compute (raise e) none = raise e

  unfoldable pub deref_delay :
      (Option V → Option V → Bool)
      → ℕ
      → Others (Option V)
      → Result V
      → Atom (Option V)
      → Option (Swapped (Option V))
  deref_delay eq fuel others f a = swap eq fuel 0 others (compute f) a

  unfoldable pub is_realized : Atom (Option V) → Bool
  is_realized a = is_some a.state
