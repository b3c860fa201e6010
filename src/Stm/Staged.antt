-- ===== src/Stm/Staged.antt =====
-- Every transaction that a body of src/basilisp/lang/stm.py stages is well formed.
use baisilisp.Base.{ℕ, suc}
use baisilisp.Stm.Ref.{Store}
use baisilisp.Stm.Transaction.{
  Transaction, begin, read, after_commit, alter, ref_set, commute, ensure,
}
use baisilisp.Stm.Body.{
  Body, ret, derefs, alters, ref_sets, commutes, ensures, after_commits, run_body,
}
use baisilisp.Stm.Effect.{IsWellFormed}
use baisilisp.Stm.WellFormed.{
  begin-IsWellFormed, read-IsWellFormed, alter-IsWellFormed, ref_set-IsWellFormed,
  commute-IsWellFormed, ensure-IsWellFormed,
}

after_commit-IsWellFormed :
    {V : Type 0} (a : ℕ) (t : Transaction V) → IsWellFormed t → IsWellFormed (after_commit a t)
unfolding after_commit
after_commit-IsWellFormed a t w = record {
  writes_once = w.writes_once;
  commutes_once = w.commutes_once;
}

module _ {V R : Type 0} (env : ℕ → Store V) where
  run-IsWellFormed :
      (i : ℕ) (b : Body V R) (t : Transaction V)
      → IsWellFormed t
      → IsWellFormed (run_body env i b t).1
  unfolding run_body
  run-IsWellFormed i (ret result) t w = w
  run-IsWellFormed i (derefs r k) t w =
      run-IsWellFormed (suc i) (k (read (env i) r t).0) _ (read-IsWellFormed (env i) r t w)
  run-IsWellFormed i (alters r f k) t w =
      run-IsWellFormed (suc i) (k (alter (env i) r f t).0) _ (alter-IsWellFormed (env i) r f t w)
  run-IsWellFormed i (ref_sets r v k) t w =
      run-IsWellFormed (suc i) (k (ref_set (env i) r v t).0) _
        (ref_set-IsWellFormed (env i) r v t w)
  run-IsWellFormed i (commutes r f k) t w =
      run-IsWellFormed (suc i) (k (commute (env i) r f t).0) _
        (commute-IsWellFormed (env i) r f t w)
  run-IsWellFormed i (ensures r k) t w =
      run-IsWellFormed (suc i) (k (ensure (env i) r t).0) _ (ensure-IsWellFormed (env i) r t w)
  run-IsWellFormed i (after_commits a k) t w =
      run-IsWellFormed (suc i) k _ (after_commit-IsWellFormed a t w)

  -- Whatever calls a body makes, and whatever the other threads do between them, the transaction
  -- that it stages is well formed: no Ref stands twice in its writes or in its commutes.
  pub run_body-IsWellFormed : (b : Body V R) → IsWellFormed (run_body env 0 b begin).1
  run_body-IsWellFormed b = run-IsWellFormed 0 b begin begin-IsWellFormed
