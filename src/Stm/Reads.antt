-- ===== src/Stm/Reads.antt =====
-- The reads that the operations of src/basilisp/lang/stm.py remember: each only adds to them, and
-- at a store that agrees with them each operation gives the same again.
use mathlib.Core.Path.{subst}
use baisilisp.Base.{
  ℕ, ◌≤◌, ◌≡◌, refl, true, false, none, some, arith, ℕ_discrete, Bool-cases, Option-cases, inl, inr,
  ◌∷◌, [],
}
use baisilisp.Base.Dict.{Dict, get, put, get-put}
use baisilisp.Stm.Ref.{Store, Result, Result-cases}
use baisilisp.Stm.Transaction.{
  Transaction, read_committed, read, write, alter, ref_set, stage_commute, commute, ensure, has,
}
use baisilisp.Stm.Commit.{is_protected, conflicts_from}
use baisilisp.Stm.WellFormed.{alter_cases, ref_set_cases}
use baisilisp.Stm.Body.{Evolves}

module _ {V : Type 0} where
  -- Each remembered read is what the store holds.
  abbrev pub Agrees : Store V → Dict ℕ (V × ℕ) → Type 0
  Agrees st reads =
      (r : ℕ) (seen : V × ℕ)
      → get ℕ_discrete r reads ≡ some seen
      → ((st r).state ≡ seen.0) × ((st r).version ≡ seen.1)

  -- Each remembered read is older, or what the store holds.
  abbrev pub Follows : Store V → Dict ℕ (V × ℕ) → Type 0
  Follows st reads =
      (r : ℕ) (seen : V × ℕ)
      → get ℕ_discrete r reads ≡ some seen
      → (seen.1 ≤ (st r).version) × ((st r).version ≡ seen.1 → (st r).state ≡ seen.0)

  abbrev pub Extends : Dict ℕ (V × ℕ) → Dict ℕ (V × ℕ) → Type 0
  Extends reads reads' =
      (r : ℕ) (seen : V × ℕ)
      → get ℕ_discrete r reads ≡ some seen
      → get ℕ_discrete r reads' ≡ some seen

  pub read_cases :
      (P : V × Transaction V → Type 0) (st : Store V) (r : ℕ) (t : Transaction V)
      → ((v : V) → P (v, t))
      → (get ℕ_discrete r t.reads ≡ none
          → P (
            (st r).state,
            record t { reads = put ℕ_discrete r ((st r).state, (st r).version) t.reads },
          ))
      → P (read st r t)
  unfolding read read_committed
  read_cases P st r t old new = elim (Option-cases (get ℕ_discrete r t.writes)) [
    | inr (v, e) ↦ rw (e, read) (old v)
    | inl e ↦ elim (Option-cases (get ℕ_discrete r t.commuted_values)) [
      | inr (v, f) ↦ rw (e, f, read) (old v)
      | inl f ↦ elim (Option-cases (get ℕ_discrete r t.reads)) [
        | inr (v, g) ↦ rw (e, f, g, read, read_committed) (old v.0)
        | inl g ↦ rw (e, f, g, read, read_committed) (new g)
      ]
    ]
  ]

  read-Extends : (st : Store V) (r : ℕ) (t : Transaction V) → Extends t.reads (read st r t).1.reads
  read-Extends st r t =
      read_cases (λ out. Extends t.reads out.1.reads) st r t (λ _ _ _ e. e)
        (λ fresh q seen e.
          ground (arith, get-put ℕ_discrete r q ((st r).state, (st r).version) t.reads))

  read-Follows :
      (st : Store V) (r : ℕ) (t : Transaction V)
      → Follows st t.reads
      → Follows st (read st r t).1.reads
  read-Follows st r t h =
      read_cases (λ out. Follows st out.1.reads) st r t (λ _. h)
        (λ fresh q seen e.
          ground (arith, get-put ℕ_discrete r q ((st r).state, (st r).version) t.reads, h q seen))

  -- A read at another store that agrees with what it remembers gives the same.
  pub read-eq_of_Agrees :
      (st now : Store V) (r : ℕ) (t : Transaction V)
      → Agrees now (read st r t).1.reads
      → read now r t ≡ read st r t
  unfolding read read_committed
  read-eq_of_Agrees st now r t h = ground (
    arith,
    h r ((st r).state, (st r).version),
    get-put ℕ_discrete r r ((st r).state, (st r).version) t.reads,
  )

  reads-write : (r : ℕ) (v : V) (t : Transaction V) → (write r v t).reads ≡ t.reads
  unfolding write
  reads-write r v t = refl

  reads-stage_commute :
      (r : ℕ) (f : V → Result V) (v : V) (t : Transaction V)
      → (stage_commute r f v t).reads ≡ t.reads
  unfolding stage_commute write
  reads-stage_commute r f v t = ground arith

  reads-alter :
      (st : Store V) (r : ℕ) (f : V → Result V) (t : Transaction V)
      → has r t.commutes ≡ false
      → (alter st r f t).1.reads ≡ (read st r t).1.reads
  unfolding alter write
  reads-alter st r f t e = ground arith

  reads-ref_set :
      (st : Store V) (r : ℕ) (v : V) (t : Transaction V)
      → has r t.commutes ≡ false
      → (ref_set st r v t).1.reads ≡ (read st r t).1.reads
  unfolding ref_set write
  reads-ref_set st r v t e = ground arith

  reads-commute :
      (st : Store V) (r : ℕ) (f : V → Result V) (t : Transaction V)
      → (commute st r f t).1.reads ≡ (read st r t).1.reads
  unfolding commute
  reads-commute st r f t = elim (Result-cases (f (read st r t).0)) [
    | inl (v, g) ↦ rw (g, commute) (reads-stage_commute r f v (read st r t).1)
    | inr (x, g) ↦ rw (g, commute)
  ]

  -- The same for the other operations.
  pub alter-eq_of_Agrees :
      (st now : Store V) (r : ℕ) (f : V → Result V) (t : Transaction V)
      → Agrees now (alter st r f t).1.reads
      → alter now r f t ≡ alter st r f t
  unfolding alter
  alter-eq_of_Agrees st now r f t h = elim (Bool-cases (has r t.commutes)) [
    | inl e ↦ rw (e, alter)
    | inr e ↦
        let same : read now r t ≡ read st r t =
          read-eq_of_Agrees st now r t (subst (Agrees now) (reads-alter st r f t e) h) in
        ground (arith, same)
  ]

  pub ref_set-eq_of_Agrees :
      (st now : Store V) (r : ℕ) (v : V) (t : Transaction V)
      → Agrees now (ref_set st r v t).1.reads
      → ref_set now r v t ≡ ref_set st r v t
  unfolding ref_set
  ref_set-eq_of_Agrees st now r v t h = elim (Bool-cases (has r t.commutes)) [
    | inl e ↦ rw (e, ref_set)
    | inr e ↦
        let same : read now r t ≡ read st r t =
          read-eq_of_Agrees st now r t (subst (Agrees now) (reads-ref_set st r v t e) h) in
        ground (arith, same)
  ]

  pub commute-eq_of_Agrees :
      (st now : Store V) (r : ℕ) (f : V → Result V) (t : Transaction V)
      → Agrees now (commute st r f t).1.reads
      → commute now r f t ≡ commute st r f t
  unfolding commute
  commute-eq_of_Agrees st now r f t h =
      let same : read now r t ≡ read st r t =
        read-eq_of_Agrees st now r t (subst (Agrees now) (reads-commute st r f t) h) in
      ground (arith, same)

  pub ensure-eq_of_Agrees :
      (st now : Store V) (r : ℕ) (t : Transaction V)
      → Agrees now (ensure st r t).1.reads
      → ensure now r t ≡ ensure st r t
  unfolding ensure
  ensure-eq_of_Agrees st now r t h =
      let same : read now r t ≡ read st r t = read-eq_of_Agrees st now r t h in ground (arith, same)

  -- A later store is still followed.
  pub onward :
      {st st' : Store V}
      → Evolves st st'
      → (reads : Dict ℕ (V × ℕ)) → Follows st reads
      → Follows st' reads
  onward ev reads h r seen e = ground (arith, ev.grows r, ev.holds r, h r seen e)

  -- The reads of the operations, all three facts at once.
  abbrev pub Reads : Store V → Dict ℕ (V × ℕ) → Dict ℕ (V × ℕ) → Type 0
  Reads st reads reads' = Extends reads reads' × (Follows st reads → Follows st reads')

  pub read-Reads :
      (st : Store V) (r : ℕ) (t : Transaction V) → Reads st t.reads (read st r t).1.reads
  read-Reads st r t = (read-Extends st r t, read-Follows st r t)

  pub alter-Reads :
      (st : Store V) (r : ℕ) (f : V → Result V) (t : Transaction V)
      → Reads st t.reads (alter st r f t).1.reads
  alter-Reads st r f t =
      alter_cases (λ u. Reads st t.reads u.reads) st r t f ((λ _ _ e. e), (λ h. h))
        (read-Reads st r t) (λ v. rw reads-write (read-Reads st r t))

  pub ref_set-Reads :
      (st : Store V) (r : ℕ) (v : V) (t : Transaction V)
      → Reads st t.reads (ref_set st r v t).1.reads
  ref_set-Reads st r v t =
      ref_set_cases (λ u. Reads st t.reads u.reads) st r t v ((λ _ _ e. e), (λ h. h))
        (rw reads-write (read-Reads st r t))

  pub commute-Reads :
      (st : Store V) (r : ℕ) (f : V → Result V) (t : Transaction V)
      → Reads st t.reads (commute st r f t).1.reads
  commute-Reads st r f t = rw reads-commute (read-Reads st r t)

  pub ensure-Reads :
      (st : Store V) (r : ℕ) (t : Transaction V) → Reads st t.reads (ensure st r t).1.reads
  unfolding ensure
  ensure-Reads st r t = read-Reads st r t

  -- What no conflict means for a read that the commit checks.
  pub current :
      (st : Store V) (t : Transaction V) (reads : Dict ℕ (V × ℕ)) (r : ℕ) (seen : V × ℕ)
      → conflicts_from st t reads ≡ []
      → get ℕ_discrete r reads ≡ some seen
      → is_protected t r ≡ true
      → (st r).version ≡ seen.1
  unfolding conflicts_from get
  current st t [] r seen c e p = cc
  current st t ((q, s) ∷ reads) r seen c e p = ground (arith, current st t reads r seen)
