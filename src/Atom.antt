-- ===== src/Atom.antt =====
-- `Atom` of src/basilisp/lang/atom.py, with the errors and the validation that it shares with
-- agents. Other threads change the state between the steps of an operation; the validator and the
-- watches stay. `eq` is Python's `==` on the values: values of two types may be equal, and a value need
-- not be equal to itself. `!=` is its negation.
pub mod Swap
use baisilisp.Base.{ℕ, zero, suc, Bool, true, false, Option, none, some, if◌then◌else◌}
use baisilisp.Agent.{Error, Result, ok, raise, validate_state}

pub record Atom (V : Type 0) : Type 0 where
  pub state : V
  pub validator : Option (V → Option Bool)
  pub watches : V → V → Option Error

-- What the other threads make of the state before a loop reads it in its turn `i`, and between that
-- read and the comparison.
pub record Others (V : Type 0) : Type 0 where
  pub before : ℕ → V → V
  pub between : ℕ → V → V

-- What `swap` returns or raises, the state that its last step found, and the atom after.
pub record Swapped (V : Type 0) : Type 0 where
  pub result : Result V
  pub found : V
  pub atom : Atom V

module _ {V : Type 0} where
  -- `Atom.__init__`
  unfoldable pub make_atom : V → Option (V → Option Bool) → Result (Atom V)
  make_atom state validator = elim (validate_state validator state) [
    | raise e ↦ raise e
    | ok _ ↦ ok (record { state = state; validator = validator; watches = λ old new. none })
  ]

  -- `add_watch` and `remove_watch`, over all watches together
  unfoldable pub set_watches : (V → V → Option Error) → Atom V → Atom V
  set_watches watches a = record a { watches = watches }

  -- the value, unless a watch raises
  unfoldable pub notify_watches : {A : Type 0} → Atom V → V → V → A → Result A
  notify_watches a old new x = elim (a.watches old new) [ none ↦ ok x | some e ↦ raise e ]

module _ {V : Type 0} (eq : V → V → Bool) where
  -- `_compare_and_set`
  unfoldable pub exchange : V → V → Atom V → Bool × Atom V
  exchange old new a = if eq a.state old then (true, record a { state = new }) else (false, a)

  unfoldable pub compare_and_set : V → V → Atom V → Result Bool × Atom V
  compare_and_set old new a = elim (validate_state a.validator new) [
    | raise e ↦ (raise e, a)
    | ok _ ↦
        let (done, a') = exchange old new a in
        elim done [ false ↦ (ok false, a') | true ↦ (notify_watches a' old new true, a') ]
  ]

  -- the loop of `swap` on fuel, at its turn `i`; `none` is a loop that has not ended yet
  unfoldable pub swap : ℕ → ℕ → Others V → (V → Result V) → Atom V → Option (Swapped V)
  swap zero i others f a = none
  swap (suc fuel) i others f a =
      let seen = others.before i a.state in
      elim (f seen) [
        | raise e ↦
            some (record { result = raise e; found = seen; atom = record a { state = seen } })
        | ok v ↦ elim (validate_state a.validator v) [
          | raise e ↦
              some (record { result = raise e; found = seen; atom = record a { state = seen } })
          | ok _ ↦
              let found = others.between i seen in
              let (done, a') = exchange seen v (record a { state = found }) in
              elim done [
                | true ↦
                    some (record { result = notify_watches a' seen v v; found = found; atom = a' })
                | false ↦ swap fuel (suc i) others f a'
              ]
        ]
      ]

  -- the loop of `reset`, which has the steps of `swap` for a function that ignores the state
  unfoldable pub reset : ℕ → Others V → V → Atom V → Option (Swapped V)
  reset fuel others v a = swap fuel 0 others (λ old. ok v) a
