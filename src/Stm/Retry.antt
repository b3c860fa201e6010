-- ===== src/Stm/Retry.antt =====
-- `run_transaction` of src/basilisp/lang/stm.py: the bound on its attempts, and what a run shows.
use mathlib.Core.Path.{subst}
use baisilisp.Base.{
  ℕ, zero, suc, ◌+◌, ◌≤◌, ◌<◌, ◌≡◌, ◌≢◌, refl, sym, false, none, some, List, arith, Option-cases,
  Bool-cases, ◌⊎◌, inl, inr, ◌∷◌, [], ◌++◌, map,
}
use baisilisp.Base.Int.{pos}
use baisilisp.Stm.Ref.{Store, Result, ok, raise, Result-cases, Error, conflict_limit}
use baisilisp.Stm.Transaction.{Transaction}
use baisilisp.Stm.Commit.{Change, commit}
use baisilisp.Stm.Attempts.{
  MaxAttempts, at_most, evaluate_body, is_exhausted, notified, ran, notify, run_actions, Program,
  Run, finish, attempt, loop, run_transaction, validate_max_attempts, raised,
}

-- Attempts that another one follows: from the attempt after `k`, in the store `st`, each body returned a value
-- and its commit was refused, up to the attempt `n`; the last commit left the store `st'`.
pub data Refused {V R : Type 0} (p : Program V R) : ℕ → Store V → ℕ → Store V → Type 0 where
  no_more : {k : ℕ} {st : Store V} → Refused p k st k st
  refused :
      {k n : ℕ} {st st' st'' : Store V} (v : R) (t' : Transaction V)
      → evaluate_body (p.thunk (k + 1) st).0 ≡ ok v
      → commit (p.thunk (k + 1) st).2 (p.thunk (k + 1) st).1 ≡ (ok none, st', t')
      → Refused p (k + 1) st' n st''
      → Refused p k st n st''

module _ {V R : Type 0} (p : Program V R) where
  -- The attempt `n` ends the run with an exception, without any event; its body raised, or its commit did
  -- not publish.
  abbrev pub RaisedAt : ℕ → Store V → Run V R → Type 0
  RaisedAt n st r =
      (r.events ≡ [])
      × ((e : Error) × (r.result ≡ raise e))
      × (((e : Error) × (evaluate_body (p.thunk n st).0 ≡ raise e) × (r.store ≡ (p.thunk n st).2))
          ⊎ (((cs : List (Change V)) → (commit (p.thunk n st).2 (p.thunk n st).1).0 ≢ ok (some cs))
              × (r.store ≡ (commit (p.thunk n st).2 (p.thunk n st).1).1)))

  -- The attempt `n` ends the run with its commit.
  abbrev pub CommittedAt : ℕ → Store V → Run V R → Type 0
  CommittedAt n st r =
      (v : R) × (changes : List (Change V)) × (t' : Transaction V) × (evaluate_body (p.thunk n st).0
        ≡ ok v)
      × (commit (p.thunk n st).2 (p.thunk n st).1 ≡ (ok (some changes), r.store, t'))
      × (r.result ≡ (finish p v changes t'.actions).0)
      × (r.events ≡ (finish p v changes t'.actions).1)

module _ {V R : Type 0} (p : Program V R) (max : MaxAttempts) where
  -- How the attempt number `n` ends the run.
  abbrev pub Ends : ℕ → Store V → Run V R → Type 0
  Ends n st r = (r.attempts ≡ n) × (RaisedAt p n st r ⊎ CommittedAt p n st r)

  -- An attempt that another one follows.
  abbrev GoesOn : ℕ → Store V → Type 0
  GoesOn n st =
      ((attempt p max n st).0 ≡ none)
      × (is_exhausted max n ≡ false)
      × ((v : R) × (t' : Transaction V) × (evaluate_body (p.thunk n st).0 ≡ ok v)
          × (commit (p.thunk n st).2 (p.thunk n st).1 ≡ (ok none, (attempt p max n st).1, t')))

  attempt_cases :
      (n : ℕ) (st : Store V)
      → GoesOn n st ⊎ ((r : Run V R) × ((attempt p max n st).0 ≡ some r) × Ends n st r)
  unfolding attempt
  attempt_cases n st = elim (Result-cases (evaluate_body (p.thunk n st).0)) [
    | inr (x, e) ↦ inr (
      raised x (p.thunk n st).2 n,
      rw (e, attempt),
      (refl, inl (refl, (x, refl), inl (x, e, refl))),
    )
    | inl (v, e) ↦
        let committed = commit (p.thunk n st).2 (p.thunk n st).1 in
        elim (Result-cases committed.0) [
          | inr (x, f) ↦ inr (
            raised x committed.1 n,
            rw (e, f, attempt),
            (refl, inl (refl, (x, refl), inr ((λ cs h. ground (arith, f, h)), refl))),
          )
          | inl (c, f) ↦ elim (Option-cases c) [
            | inr (changes, g) ↦ inr (
              record {
                result = (finish p v changes committed.2.actions).0;
                store = committed.1;
                events = (finish p v changes committed.2.actions).1;
                attempts = n;
              },
              rw (e, f, g, attempt),
              (refl, inr (v, changes, committed.2, e, ground (arith, f, g), refl, refl)),
            )
            | inl g ↦ elim (Bool-cases (is_exhausted max n)) [
              | inr more ↦ inl (
                rw (e, f, g, more, attempt),
                more,
                (v, committed.2, e, rw (e, f, g, more, attempt) (ground (arith, f, g))),
              )
              | inl last ↦ inr (
                raised conflict_limit committed.1 n,
                rw (e, f, g, last, attempt),
                (
                  refl,
                  inl (refl, (conflict_limit, refl), inr ((λ cs h. ground (arith, f, g, h)), refl)),
                ),
              )
            ]
          ]
        ]
  ]

  -- A run that ends does so in one of its attempts, after refusals.
  loop-Ends :
      (fuel k : ℕ) (st : Store V) (r : Run V R)
      → loop fuel p max k st ≡ some r
      → (n : ℕ) × (st' : Store V) × Refused p k st n st' × Ends (n + 1) st' r
  unfolding loop
  loop-Ends zero k st r h = cc
  loop-Ends (suc fuel) k st r h = elim (attempt_cases (k + 1) st) [
    | inl (more, _, (v, t', e, c)) ↦
        let (n, st', chain, ends) =
          loop-Ends fuel (k + 1) (attempt p max (k + 1) st).1 r (ground (arith, more)) in
        (n, st', refused v t' e c chain, ends)
    | inr (r', ended, e) ↦
        let same : r' ≡ r = ground (arith, ended) in
        (k, st, no_more, subst (Ends (k + 1) st) same e)
  ]

  loop_total :
      (limit fuel k : ℕ) (st : Store V)
      → max ≡ at_most (pos limit)
      → k < limit
      → limit ≤ k + fuel
      → (r : Run V R) × (loop fuel p max k st ≡ some r) × (r.attempts ≤ limit)
  unfolding loop is_exhausted
  loop_total limit zero k st e lt le = absurd (omega arith)
  loop_total limit (suc fuel) k st e lt le = elim (attempt_cases (k + 1) st) [
    | inl (more, left, _) ↦
        let room : k + 1 < limit = ground (arith, e, left) in
        let (r, found, few) =
          loop_total limit fuel (k + 1) (attempt p max (k + 1) st).1 e room (omega arith) in
        (r, rw (more, loop) found, few)
    | inr (r, ended, ends) ↦ (r, rw (ended, loop), omega (arith, ends.0))
  ]

module _ {V R : Type 0} (p : Program V R) where
  -- With `max_attempts` a positive limit, a run outside of any transaction ends, and within that
  -- many attempts; so `limit` is fuel enough.
  pub run_transaction-within_limit :
      (limit fuel : ℕ) (st : Store V)
      → 0 < limit
      → limit ≤ fuel
      → (r : Run V R) × (run_transaction fuel none p (at_most (pos limit)) st ≡ some r)
        × (r.attempts ≤ limit)
  unfolding run_transaction validate_max_attempts
  run_transaction-within_limit limit fuel st h le =
      let (r, found, few) =
        loop_total p (at_most (pos limit)) limit fuel 0 st refl h (omega arith) in
      (r, ground (arith, found), few)

  -- Whatever the limit on the attempts, a run that ends outside of any transaction publishes at most once. A
  -- limit that is not valid raises at once. Else the commits of all attempts before the last one were
  -- refused, each in the store that the one before left. In the last attempt, either the run raises
  -- without any event, since the body raised or the commit did not publish; or the commit published,
  -- its store is the store of the run, and the result and the events are those of the watches and
  -- the actions after that commit.
  pub run_transaction-commits_once :
      (max : MaxAttempts) (fuel : ℕ) (st : Store V) (r : Run V R)
      → run_transaction fuel none p max st ≡ some r
      → ((x : Error) × (validate_max_attempts max ≡ raise x) × (r ≡ raised x st 0))
        ⊎ ((n : ℕ) × (st' : Store V) × Refused p 0 st n st'
            × (r.attempts ≡ n + 1)
            × (RaisedAt p (n + 1) st' r ⊎ CommittedAt p (n + 1) st' r))
  unfolding run_transaction
  run_transaction-commits_once max fuel st r h = elim (Result-cases (validate_max_attempts max)) [
    | inr (x, e) ↦ let same : raised x st 0 ≡ r = ground (arith, e) in inl (x, e, sym same)
    | inl (_, e) ↦
        let (n, st', chain, ends) = loop-Ends p max fuel 0 st r (ground (arith, e)) in
        inr (n, st', chain, ends.0, ends.1)
  ]

-- A function of the program that does not raise.
abbrev pub NeverRaises : {A : Type 0} → (A → Result (Unit {0})) → Type 0
NeverRaises {A} f = (a : A) → f a ≡ ok tt

module _ {V R : Type 0} (p : Program V R) where
  notify_all :
      (changes : List (Change V))
      → NeverRaises p.watch
      → notify p.watch changes ≡ (ok tt, map notified changes)
  unfolding notify
  notify_all [] h = refl
  notify_all (c ∷ cs) h = rw (h c, notify, notify_all cs h)

  run_all :
      (actions : List ℕ)
      → NeverRaises p.act
      → run_actions {V = V} p.act actions ≡ (ok tt, map ran actions)
  unfolding run_actions
  run_all [] h = refl
  run_all (a ∷ rest) h = rw (h a, run_actions, run_all rest h)

  -- If no watch and no action raises, then after a commit each change is told once, in order,
  -- before each action runs once, in order, and the result of the thunk is returned.
  pub finish_lem :
      (v : R) (changes : List (Change V)) (actions : List ℕ)
      → NeverRaises p.watch
      → NeverRaises p.act
      → finish p v changes actions ≡ (ok v, map notified changes ++ map ran actions)
  unfolding finish
  finish_lem v changes actions w a = rw (notify_all changes w, run_all actions a)
