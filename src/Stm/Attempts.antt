-- ===== src/Stm/Attempts.antt =====
-- `run_transaction` of src/basilisp/lang/stm.py: the loop over the attempts, the watches and the
-- actions after the commit.
use baisilisp.Base.{
  ℕ, zero, suc, ◌+◌, Bool, false, Option, none, some, List, [], ◌∷◌, ◌++◌, leb, if◌then◌else◌,
}
use baisilisp.Base.Int.{ℤ, pos, pos_part, ltb_ℤ}
use baisilisp.Stm.Ref.{
  Store, Error, Result, ok, raise, attempts_type, attempts_value, nested_max_attempts,
  awaitable_result, conflict_limit, no_transaction, io_in_transaction, ◌>>◌,
}
use baisilisp.Stm.Transaction.{Transaction}
use baisilisp.Stm.Commit.{Change, commit}

-- The argument `max_attempts`.
pub data MaxAttempts : Type 0 where
  unlimited : MaxAttempts
  not_int : MaxAttempts
  at_most : ℤ → MaxAttempts

-- `_validate_max_attempts`
unfoldable pub validate_max_attempts : MaxAttempts → Result (Unit {0})
validate_max_attempts unlimited = ok tt
validate_max_attempts not_int = raise attempts_type
validate_max_attempts (at_most n) = if ltb_ℤ n (pos 1) then raise attempts_value else ok tt

-- What a thunk returns: a value, or something that can be awaited.
pub data Returned (R : Type 0) : Type 0 where
  value : R → Returned R
  awaitable : Returned R

-- `_evaluate_transaction_body`, applied to what the thunk did
unfoldable pub evaluate_body : {R : Type 0} → Result (Returned R) → Result R
evaluate_body (raise e) = raise e
evaluate_body (ok (value r)) = ok r
evaluate_body (ok awaitable) = raise awaitable_result

-- `attempts >= max_attempts`, when there is a limit
unfoldable pub is_exhausted : MaxAttempts → ℕ → Bool
is_exhausted (at_most n) attempts = leb (pos_part n) attempts
is_exhausted _ attempts = false

-- What the run shows to the rest of the program, in order.
pub data Event (V : Type 0) : Type 0 where
  notified : Change V → Event V
  ran : ℕ → Event V

module _ {V : Type 0} where
  -- The loop over `changes`: a watch that raises ends it.
  unfoldable pub notify :
      (Change V → Result (Unit {0})) → List (Change V) → Result (Unit {0}) × List (Event V)
  notify watch [] = (ok tt, [])
  notify watch (c ∷ cs) =
      let rest = notify watch cs in
      elim (watch c) [ raise e ↦ (raise e, notified c ∷ []) | ok _ ↦ (rest.0, notified c ∷ rest.1) ]

  -- The loop over the actions of the `finally` clause.
  unfoldable pub run_actions : (ℕ → Result (Unit {0})) → List ℕ → Result (Unit {0}) × List (Event V)
  run_actions act [] = (ok tt, [])
  run_actions act (a ∷ as') =
      let rest = run_actions act as' in
      elim (act a) [ raise e ↦ (raise e, ran a ∷ []) | ok _ ↦ (rest.0, ran a ∷ rest.1) ]

-- The functions of the program that a run calls. `thunk` is the body in attempt `n`, together with
-- what the other threads do meanwhile: it takes the store at the attempt's start and gives what the
-- thunk did, the transaction that it staged, and the store at the commit.
pub record Program (V R : Type 0) : Type 0 where
  pub thunk : ℕ → Store V → Result (Returned R) × Transaction V × Store V
  pub watch : Change V → Result (Unit {0})
  pub act : ℕ → Result (Unit {0})

-- How a run ends: its result, the store, the events, and the attempts that it took.
pub record Run (V R : Type 0) : Type 0 where
  pub result : Result R
  pub store : Store V
  pub events : List (Event V)
  pub attempts : ℕ

module _ {V R : Type 0} where
  -- a run that an exception ends
  abbrev pub raised : Error → Store V → ℕ → Run V R
  raised e st n = record { result = raise e; store = st; events = []; attempts = n }

  -- An exception of an action replaces one of a watch, as `finally` does.
  unfoldable pub finish : Program V R → R → List (Change V) → List ℕ → Result R × List (Event V)
  finish p r changes actions =
      let told = notify p.watch changes in
      let acted = run_actions p.act actions in ((do acted.0; told.0; ok r), told.1 ++ acted.1)

  -- One turn of the `while`: `none` is `continue`.
  unfoldable pub attempt : Program V R → MaxAttempts → ℕ → Store V → Option (Run V R) × Store V
  attempt p max n st =
      let (outcome, t, st') = p.thunk n st in
      elim (evaluate_body outcome) [
        | raise e ↦ (some (raised e st' n), st')
        | ok r ↦
            let (committed, st'', t') = commit st' t in
            elim committed [
              | raise e ↦ (some (raised e st'' n), st'')
              | ok none ↦
                  if is_exhausted max n
                  then (some (raised conflict_limit st'' n), st'')
                  else (none, st'')
              | ok (some changes) ↦
                  let (result, events) = finish p r changes t'.actions in
                  (
                    some (record { result = result; store = st''; events = events; attempts = n }),
                    st'',
                  )
            ]
      ]

  -- The `while` loop on fuel; `none` is a run that has not ended yet.
  unfoldable pub loop : ℕ → Program V R → MaxAttempts → ℕ → Store V → Option (Run V R)
  loop zero p max attempts st = none
  loop (suc fuel) p max attempts st =
      let (ended, st') = attempt p max (attempts + 1) st in
      elim ended [ some r ↦ some r | none ↦ loop fuel p max (attempts + 1) st' ]

  -- `run_transaction`. Inside a transaction, whose number of attempts the outer one sets, the body
  -- is evaluated in place: `nested` holds what it did.
  unfoldable pub run_transaction :
      ℕ → Option (Result (Returned R)) → Program V R → MaxAttempts → Store V → Option (Run V R)
  run_transaction fuel nested p max st = elim (validate_max_attempts max) [
    | raise e ↦ some (raised e st 0)
    | ok _ ↦ elim nested [
      | some outcome ↦ elim max [
        | unlimited ↦
            some (record { result = evaluate_body outcome; store = st; events = []; attempts = 0 })
        | _ ↦ some (raised nested_max_attempts st 0)
      ]
      | none ↦ loop fuel p max 0 st
    ]
  ]

-- `_require_transaction` and `io_bang`, over whether a transaction is active
unfoldable pub require_transaction : {A : Type 0} → Option A → Result A
require_transaction none = raise no_transaction
require_transaction (some t) = ok t

unfoldable pub io_bang : {A : Type 0} → Option A → Result (Unit {0})
io_bang none = ok tt
io_bang (some t) = raise io_in_transaction
