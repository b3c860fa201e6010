-- ===== src/Stm/WellFormed.antt =====
-- The operations of `_Transaction` keep its dicts well formed, and never forget a read.
use baisilisp.Base.{ℕ, ◌≡◌, List, arith, ℕ_discrete, Bool-cases, Option-cases, inl, inr}
use baisilisp.Base.Dict.{Dict, get, Distinct, put-Distinct}
use baisilisp.Stm.Ref.{Store, Result, Result-cases}
use baisilisp.Stm.Transaction.{
  Transaction, begin, read_committed, read, write, alter, ref_set, add_commute, stage_commute,
  commute, ensure, has,
}
use baisilisp.Stm.Effect.{IsWellFormed}

module _ {V : Type 0} where
  pub begin-IsWellFormed : IsWellFormed (begin {V = V})
  unfolding begin
  begin-IsWellFormed = record { writes_once = tt; commutes_once = tt }

  -- A read changes the reads alone.
  pub read_keeps :
      (st : Store V) (r : ℕ) (t : Transaction V)
      → ((read st r t).1.writes ≡ t.writes)
        × ((read st r t).1.commutes ≡ t.commutes)
        × ((read st r t).1.commuted_values ≡ t.commuted_values)
        × ((read st r t).1.ensures ≡ t.ensures)
  unfolding read read_committed
  read_keeps st r t = ground arith

  pub write-IsWellFormed :
      (r : ℕ) (v : V) (t : Transaction V) → IsWellFormed t → IsWellFormed (write r v t)
  unfolding write
  write-IsWellFormed r v t w = record {
    writes_once = put-Distinct ℕ_discrete r v t.writes w.writes_once;
    commutes_once = w.commutes_once;
  }

  pub read-IsWellFormed :
      (st : Store V) (r : ℕ) (t : Transaction V) → IsWellFormed t → IsWellFormed (read st r t).1
  read-IsWellFormed st r t w = record {
    writes_once = rw (read_keeps st r t).0 w.writes_once;
    commutes_once = rw (read_keeps st r t).1 w.commutes_once;
  }

  -- Every transaction that an operation can leave, by the branch that it takes.
  module _ (P : Transaction V → Type 0) (st : Store V) (r : ℕ) (t : Transaction V) where
    pub alter_cases :
        (f : V → Result V)
        → P t
        → P (read st r t).1
        → ((v : V) → P (write r v (read st r t).1))
        → P (alter st r f t).1
    unfolding alter
    alter_cases f old seen wrote = elim (Bool-cases (has r t.commutes)) [
      | inl e ↦ rw (e, alter) old
      | inr e ↦ elim (Result-cases (f (read st r t).0)) [
        | inl (v, g) ↦ rw (e, g, alter) (wrote v)
        | inr (x, g) ↦ rw (e, g, alter) seen
      ]
    ]

    pub ref_set_cases : (v : V) → P t → P (write r v (read st r t).1) → P (ref_set st r v t).1
    unfolding ref_set
    ref_set_cases v old wrote = elim (Bool-cases (has r t.commutes)) [
      | inl e ↦ rw (e, ref_set) old
      | inr e ↦ rw (e, ref_set) wrote
    ]

    pub commute_cases :
        (f : V → Result V)
        → P (read st r t).1
        → ((v : V) → P (stage_commute r f v (read st r t).1))
        → P (commute st r f t).1
    unfolding commute
    commute_cases f seen staged = elim (Result-cases (f (read st r t).0)) [
      | inl (v, g) ↦ rw (g, commute) (staged v)
      | inr (x, g) ↦ rw (g, commute) seen
    ]

  add_commute-Distinct :
      (r : ℕ) (f : V → Result V) (d : Dict ℕ (List (V → Result V)))
      → Distinct ℕ_discrete d
      → Distinct ℕ_discrete (add_commute r f d)
  unfolding add_commute
  add_commute-Distinct r f d h = elim (Option-cases (get ℕ_discrete r d)) [
    | inl e ↦ rw (e, add_commute) (put-Distinct ℕ_discrete r _ d h)
    | inr (fs, e) ↦ rw (e, add_commute) (put-Distinct ℕ_discrete r _ d h)
  ]

  pub stage_commute-IsWellFormed :
      (r : ℕ) (f : V → Result V) (v : V) (t : Transaction V)
      → IsWellFormed t
      → IsWellFormed (stage_commute r f v t)
  unfolding stage_commute
  stage_commute-IsWellFormed r f v t w = elim (Bool-cases (has r t.writes)) [
    | inl e ↦ rw (e, stage_commute) (write-IsWellFormed r v _ staged)
    | inr e ↦
        rw (e, stage_commute)
          (record { writes_once = w.writes_once; commutes_once = staged.commutes_once })
  ]
    where
      staged : IsWellFormed (record t { commutes = add_commute r f t.commutes })
      staged = record {
        writes_once = w.writes_once;
        commutes_once = add_commute-Distinct r f t.commutes w.commutes_once;
      }

  -- No operation puts a Ref twice into a dict.
  pub alter-IsWellFormed :
      (st : Store V) (r : ℕ) (f : V → Result V) (t : Transaction V)
      → IsWellFormed t
      → IsWellFormed (alter st r f t).1
  alter-IsWellFormed st r f t w =
      alter_cases IsWellFormed st r t f w (read-IsWellFormed st r t w)
        (λ v. write-IsWellFormed r v _ (read-IsWellFormed st r t w))

  pub ref_set-IsWellFormed :
      (st : Store V) (r : ℕ) (v : V) (t : Transaction V)
      → IsWellFormed t
      → IsWellFormed (ref_set st r v t).1
  ref_set-IsWellFormed st r v t w =
      ref_set_cases IsWellFormed st r t v w (write-IsWellFormed r v _ (read-IsWellFormed st r t w))

  pub commute-IsWellFormed :
      (st : Store V) (r : ℕ) (f : V → Result V) (t : Transaction V)
      → IsWellFormed t
      → IsWellFormed (commute st r f t).1
  commute-IsWellFormed st r f t w =
      commute_cases IsWellFormed st r t f (read-IsWellFormed st r t w)
        (λ v. stage_commute-IsWellFormed r f v _ (read-IsWellFormed st r t w))

  pub ensure-IsWellFormed :
      (st : Store V) (r : ℕ) (t : Transaction V) → IsWellFormed t → IsWellFormed (ensure st r t).1
  unfolding ensure
  ensure-IsWellFormed st r t w =
      let w' = read-IsWellFormed st r t w in
      record { writes_once = w'.writes_once; commutes_once = w'.commutes_once }
