-- ===== src/Stm/Body.antt =====
-- The body of a transaction, as the calls that it makes of src/basilisp/lang/stm.py, and its run
-- while other threads commit: `env i` is the store that the call number `i` finds.
use baisilisp.Base.{ℕ, suc, ◌≡◌, ◌≤◌}
use baisilisp.Stm.Ref.{Store, Result}
use baisilisp.Stm.Transaction.{Transaction, read, alter, ref_set, commute, ensure, after_commit}

-- After each call the body goes on with what it returned or raised, so it may catch exceptions.
pub data Body (V R : Type 0) : Type 0 where
  ret : Result R → Body V R
  derefs : ℕ → (V → Body V R) → Body V R
  alters : ℕ → (V → Result V) → (Result V → Body V R) → Body V R
  ref_sets : ℕ → V → (Result V → Body V R) → Body V R
  commutes : ℕ → (V → Result V) → (Result V → Body V R) → Body V R
  ensures : ℕ → (V → Body V R) → Body V R
  after_commits : ℕ → Body V R → Body V R

module _ {V R : Type 0} where
  -- The result, the staged transaction, and the number of calls made by then.
  unfoldable pub run_body :
      (ℕ → Store V) → ℕ → Body V R → Transaction V → Result R × Transaction V × ℕ
  run_body env i (ret result) t = (result, t, i)
  run_body env i (derefs r k) t = let (v, t') = read (env i) r t in run_body env (suc i) (k v) t'
  run_body env i (alters r f k) t =
      let (v, t') = alter (env i) r f t in run_body env (suc i) (k v) t'
  run_body env i (ref_sets r v k) t =
      let (w, t') = ref_set (env i) r v t in run_body env (suc i) (k w) t'
  run_body env i (commutes r f k) t =
      let (v, t') = commute (env i) r f t in run_body env (suc i) (k v) t'
  run_body env i (ensures r k) t = let (v, t') = ensure (env i) r t in run_body env (suc i) (k v) t'
  run_body env i (after_commits a k) t = run_body env (suc i) k (after_commit a t)

-- What the commits of other threads do to a store: a version never falls, and a Ref whose version
-- is the same has the same value.
pub record Evolves {V : Type 0} (st st' : Store V) : Type 0 where
  pub grows : (r : ℕ) → (st r).version ≤ (st' r).version
  pub holds : (r : ℕ) → (st r).version ≡ (st' r).version → (st r).state ≡ (st' r).state
