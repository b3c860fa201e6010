-- ===== src/Tests/Transactions.antt =====
-- Two Refs of numbers: the Ref 0 holds 5, and other threads change the Ref 1 all the time.
use baisilisp.Base.{
  ℕ, zero, suc, ◌+◌, ◌≡◌, refl, true, none, some, List, [], ◌∷◌, ◌≤◌, arith, ℕ_discrete, ite, ◌⊎◌,
  dec_le, dec_lt,
}
use baisilisp.Base.Int.{pos}
use baisilisp.Base.Dict.{get, put}
use baisilisp.Stm.Ref.{Ref, Store, ok, raise, validate, record_history, Error}
use baisilisp.Stm.Transaction.{Transaction, begin, alter, read, read_committed, write}
use baisilisp.Stm.Commit.{
  Change, commit, is_pure_commute, is_protected, conflicts_from, write_changes, commute_changes,
  validate_changes, publish, publish_one,
}
use baisilisp.Stm.Attempts.{
  raised, Program, Run, value, evaluate_body, at_most, unlimited, run_transaction, finish, loop,
  attempt, validate_max_attempts, is_exhausted, notify, run_actions, notified,
}
use baisilisp.Stm.Body.{Body, alters, ret, run_body, Evolves}
use baisilisp.Stm.Effect.{IsWellFormed}
use baisilisp.Stm.Serial.{isolation}
use baisilisp.Stm.Safety.{commit-intended, Intends, LeavesAlone, commit-refuses_iff, IsCurrent}
use baisilisp.Stm.Retry.{
  Refused, RaisedAt, CommittedAt, run_transaction-within_limit, run_transaction-commits_once,
}

program : Unit {0}
unfolding begin alter read read_committed write get put commit is_pure_commute is_protected
    conflicts_from write_changes commute_changes validate_changes publish publish_one record_history
    validate run_body ℕ_discrete evaluate_body run_transaction finish loop attempt
    validate_max_attempts is_exhausted notify run_actions dec_le dec_lt
program = tt

abbrev five : Ref ℕ
five = record {
  state = 5;
  version = 2;
  history = [];
  min_history = pos 1;
  max_history = pos 10;
  validator = none;
}

-- What call number `i` finds.
abbrev busy : ℕ → Store ℕ
busy i r = ite (ℕ_discrete r 1) (record five { state = i; version = i }) five

busy-Evolves : (i : ℕ) → Evolves (busy i) (busy (suc i))
busy-Evolves i = record { grows = λ r. ground arith; holds = λ r h. ground arith }

-- `(alter zero inc)`
abbrev increment : Body ℕ ℕ
increment = alters 0 (λ v. ok (suc v)) ret

abbrev staged : Transaction ℕ
staged = record {
  reads = (0, (5, 2)) ∷ [];
  writes = (0, 6) ∷ [];
  commutes = [];
  commuted_values = [];
  ensures = [];
  actions = [];
  conflicts = [];
}

abbrev changes : List (Change ℕ)
changes = record { ref = 0; old = 5; new = 6 } ∷ []

abbrev later : Store ℕ
later = (commit (busy 1) staged).1

increment-staged : run_body busy 0 increment begin ≡ (ok 6, staged, 1)
unfolding program
increment-staged = refl

staged-commit : commit (busy 1) staged ≡ (ok (some changes), later, staged)
unfolding program
staged-commit = refl

staged-protected : (r : ℕ) → is_protected staged r ≡ true
unfolding is_protected is_pure_commute get
staged-protected r = refl

staged-IsWellFormed : IsWellFormed staged
unfolding get
staged-IsWellFormed = record { writes_once = (refl, tt); commutes_once = tt }

isolation_example : run_body (λ _. busy 1) 0 increment begin ≡ (ok 6, staged, 1)
isolation_example =
    isolation busy busy-Evolves increment (ok 6) staged 1 changes later staged increment-staged
      staged-commit staged-protected

commit-intended_example :
    ((v : ℕ) × Intends (busy 1) staged 0 v
      × ((later 0).state ≡ v)
      × ((later 0).version ≡ (busy 1 0).version + 1))
    ⊎ (LeavesAlone (busy 1) staged 0 × (later 0 ≡ busy 1 0))
commit-intended_example =
    commit-intended (busy 1) staged changes later staged staged-IsWellFormed staged-commit 0

-- The transaction that read the Ref 0 before its version 2.
abbrev old : Transaction ℕ
old = record staged { reads = (0, (4, 1)) ∷ [] }

commit-refuses_iff_example :
    (((commit (busy 1) old).0 ≡ ok none) → ¬ IsCurrent (busy 1) old old.reads)
    × ((¬ IsCurrent (busy 1) old old.reads) → (commit (busy 1) old).0 ≡ ok none)
commit-refuses_iff_example = commit-refuses_iff (busy 1) old

-- A thunk whose first attempt reads a version that another thread then replaces.
abbrev retried : Program ℕ ℕ
retried = record {
  thunk = λ n st. elim n [
    | zero ↦ (ok (value 6), old, busy 1)
    | suc m ↦ elim m [ zero ↦ (ok (value 6), old, busy 1) | suc _ ↦ (ok (value 6), staged, busy 1) ]
  ];
  watch = λ c. ok tt;
  act = λ a. ok tt;
}

run_transaction-within_limit_example :
    (r : Run ℕ ℕ) × (run_transaction 3 none retried (at_most (pos 2)) (busy 0) ≡ some r)
    × (r.attempts ≤ 2)
run_transaction-within_limit_example =
    run_transaction-within_limit retried 2 3 (busy 0) (omega arith) (omega arith)

abbrev second : Run ℕ ℕ
second = record {
  result = ok 6;
  store = later;
  events = notified (record { ref = 0; old = 5; new = 6 }) ∷ [];
  attempts = 2;
}

second-ran : run_transaction 3 none retried unlimited (busy 0) ≡ some second
unfolding program
second-ran = refl

run_transaction-commits_once_example :
    ((x : Error) × (validate_max_attempts unlimited ≡ raise x) × (second ≡ raised x (busy 0) 0))
    ⊎ ((n : ℕ) × (st' : Store ℕ) × Refused retried 0 (busy 0) n st'
        × (second.attempts ≡ n + 1)
        × (RaisedAt retried (n + 1) st' second ⊎ CommittedAt retried (n + 1) st' second))
run_transaction-commits_once_example =
    run_transaction-commits_once retried unlimited 3 (busy 0) second second-ran
