-- ===== src/Stm/Serial.antt =====
-- Isolation: a transaction whose reads are still current at its commit has done what it would have
-- done alone, at the commit's moment.
use mathlib.Core.Path.{subst, subst⁻¹}
use baisilisp.Base.{ℕ, suc, ◌≡◌, refl, true, some, List, inl, inr, []}
use baisilisp.Base.Dict.{get}
use baisilisp.Stm.Ref.{Store, Result, ok}
use baisilisp.Stm.Transaction.{
  Transaction, begin, read, alter, ref_set, commute, ensure, after_commit,
}
use baisilisp.Stm.Commit.{Change, is_protected, conflicts_from, commit}
use baisilisp.Stm.Effect.{commit-Outcome}
use baisilisp.Stm.Body.{
  Body, run_body, Evolves, ret, derefs, alters, ref_sets, commutes, ensures, after_commits,
}
use baisilisp.Stm.Reads.{
  Agrees, Follows, Extends, read-eq_of_Agrees, alter-eq_of_Agrees, ref_set-eq_of_Agrees,
  commute-eq_of_Agrees, ensure-eq_of_Agrees, read-Reads, alter-Reads, ref_set-Reads, commute-Reads,
  ensure-Reads, onward, current,
}

module _ {V R : Type 0} (env : ℕ → Store V) where
  run-Extends :
      (i : ℕ) (b : Body V R) (t : Transaction V) → Extends t.reads (run_body env i b t).1.reads
  unfolding run_body after_commit
  run-Extends i (ret x) t r seen e = e
  run-Extends i (derefs q k) t r seen e =
      let out = read (env i) q t in
      run-Extends (suc i) (k out.0) out.1 r seen ((read-Reads (env i) q t).0 r seen e)
  run-Extends i (alters q f k) t r seen e =
      let out = alter (env i) q f t in
      run-Extends (suc i) (k out.0) out.1 r seen ((alter-Reads (env i) q f t).0 r seen e)
  run-Extends i (ref_sets q v k) t r seen e =
      let out = ref_set (env i) q v t in
      run-Extends (suc i) (k out.0) out.1 r seen ((ref_set-Reads (env i) q v t).0 r seen e)
  run-Extends i (commutes q f k) t r seen e =
      let out = commute (env i) q f t in
      run-Extends (suc i) (k out.0) out.1 r seen ((commute-Reads (env i) q f t).0 r seen e)
  run-Extends i (ensures q k) t r seen e =
      let out = ensure (env i) q t in
      run-Extends (suc i) (k out.0) out.1 r seen ((ensure-Reads (env i) q t).0 r seen e)
  run-Extends i (after_commits a k) t r seen e = run-Extends (suc i) k (after_commit a t) r seen e

  module _ (evolves : (i : ℕ) → Evolves (env i) (env (suc i))) where
    run-Follows :
        (i : ℕ) (b : Body V R) (t : Transaction V)
        → Follows (env i) t.reads
        → Follows (env (run_body env i b t).2) (run_body env i b t).1.reads
    unfolding run_body after_commit
    run-Follows i (ret x) t h = h
    run-Follows i (derefs q k) t h =
        let out = read (env i) q t in
        run-Follows (suc i) (k out.0) out.1
          (onward (evolves i) out.1.reads ((read-Reads (env i) q t).1 h))
    run-Follows i (alters q f k) t h =
        let out = alter (env i) q f t in
        run-Follows (suc i) (k out.0) out.1
          (onward (evolves i) out.1.reads ((alter-Reads (env i) q f t).1 h))
    run-Follows i (ref_sets q v k) t h =
        let out = ref_set (env i) q v t in
        run-Follows (suc i) (k out.0) out.1
          (onward (evolves i) out.1.reads ((ref_set-Reads (env i) q v t).1 h))
    run-Follows i (commutes q f k) t h =
        let out = commute (env i) q f t in
        run-Follows (suc i) (k out.0) out.1
          (onward (evolves i) out.1.reads ((commute-Reads (env i) q f t).1 h))
    run-Follows i (ensures q k) t h =
        let out = ensure (env i) q t in
        run-Follows (suc i) (k out.0) out.1
          (onward (evolves i) out.1.reads ((ensure-Reads (env i) q t).1 h))
    run-Follows i (after_commits a k) t h =
        run-Follows (suc i) k (after_commit a t) (onward (evolves i) t.reads h)

  -- Run again at one store that agrees with every read, the body takes the same course.
  rerun :
      (now : Store V) (i : ℕ) (b : Body V R) (t : Transaction V)
      → Agrees now (run_body env i b t).1.reads
      → run_body (λ _. now) i b t ≡ run_body env i b t
  unfolding run_body after_commit
  rerun now i (ret x) t h = refl
  rerun now i (derefs q k) t h =
      let out = read (env i) q t in
      rw
        (read-eq_of_Agrees (env i) now q t
          (λ r s e. h r s (run-Extends (suc i) (k out.0) out.1 r s e)))
        (rerun now (suc i) (k out.0) out.1 h)
  rerun now i (alters q f k) t h =
      let out = alter (env i) q f t in
      rw
        (alter-eq_of_Agrees (env i) now q f t
          (λ r s e. h r s (run-Extends (suc i) (k out.0) out.1 r s e)))
        (rerun now (suc i) (k out.0) out.1 h)
  rerun now i (ref_sets q v k) t h =
      let out = ref_set (env i) q v t in
      rw
        (ref_set-eq_of_Agrees (env i) now q v t
          (λ r s e. h r s (run-Extends (suc i) (k out.0) out.1 r s e)))
        (rerun now (suc i) (k out.0) out.1 h)
  rerun now i (commutes q f k) t h =
      let out = commute (env i) q f t in
      rw
        (commute-eq_of_Agrees (env i) now q f t
          (λ r s e. h r s (run-Extends (suc i) (k out.0) out.1 r s e)))
        (rerun now (suc i) (k out.0) out.1 h)
  rerun now i (ensures q k) t h =
      let out = ensure (env i) q t in
      rw
        (ensure-eq_of_Agrees (env i) now q t
          (λ r s e. h r s (run-Extends (suc i) (k out.0) out.1 r s e)))
        (rerun now (suc i) (k out.0) out.1 h)
  rerun now i (after_commits a k) t h = rerun now (suc i) k (after_commit a t) h

  -- Let other threads commit between the calls of a body, in any order that only raises versions
  -- and that changes no value without raising its version. If the commit at the end succeeds, and
  -- it checked every Ref that was read (none was only commuted), then the body run alone on the
  -- store of the commit returns the same result and stages the same transaction.
  pub isolation :
      (evolves : (i : ℕ) → Evolves (env i) (env (suc i))) (b : Body V R) (result : Result R)
      (t : Transaction V) (n : ℕ) (changes : List (Change V)) (st' : Store V) (t' : Transaction V)
      → run_body env 0 b begin ≡ (result, t, n)
      → commit (env n) t ≡ (ok (some changes), st', t')
      → ((r : ℕ) → is_protected t r ≡ true)
      → run_body (λ _. env n) 0 b begin ≡ (result, t, n)
  unfolding begin
  isolation evolves b result t n changes st' t' ran done guarded =
      subst (λ out. run_body (λ _. env n) 0 b begin ≡ out) ran (rerun (env n) 0 b begin agrees)
    where
      clean : conflicts_from (env n) t t.reads ≡ []
      clean = elim (commit-Outcome (env n) t) [
        | inl (c, cs, _, e) ↦ cc
        | inr (inl (x, c, e)) ↦ c
        | inr (inr (cs, c, _, _, e)) ↦ c
      ]

      follows : Follows (env n) t.reads
      follows =
          subst (λ (out : Result R × Transaction V × ℕ). Follows (env out.2) out.1.reads) ran
            (run-Follows evolves 0 b begin (λ r seen e. unfold get in cc))

      agrees : Agrees (env n) (run_body env 0 b begin).1.reads
      agrees =
          subst⁻¹ (λ (out : Result R × Transaction V × ℕ). Agrees (env n) out.1.reads) ran
            (λ r seen e.
              let v = current (env n) t t.reads r seen clean e (guarded r) in
              ((follows r seen e).1 v, v))
