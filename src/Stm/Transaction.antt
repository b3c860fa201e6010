-- ===== src/Stm/Transaction.antt =====
-- `_Transaction` of src/basilisp/lang/stm.py: the operations that a transaction stages. Each takes
-- the store that other threads may have changed since, and changes the transaction alone.
-- A function that the program hands over may raise, so it returns a `Result`; the arguments that
-- the source keeps beside it belong to it.
use baisilisp.Base.{
  ℕ, Bool, false, none, some, List, [], ◌∷◌, ◌++◌, is_some, if◌then◌else◌, ℕ_discrete, ◌==◌, ◌||◌,
}
use baisilisp.Base.Dict.{Dict, get, put}
use baisilisp.Stm.Ref.{Store, Result, ok, raise, alter_after_commute, ref_set_after_commute}

-- The dicts of the source, over the numbers of the Refs. A set is the list of its members, and an
-- action for after the commit is a number.
pub record Transaction (V : Type 0) : Type 0 where
  pub reads : Dict ℕ (V × ℕ)
  pub writes : Dict ℕ V
  pub commutes : Dict ℕ (List (V → Result V))
  pub commuted_values : Dict ℕ V
  pub ensures : List ℕ
  pub actions : List ℕ
  pub conflicts : List (ℕ × ℕ × ℕ)

abbrev pub contains : ℕ → List ℕ → Bool
contains r [] = false
contains r (x ∷ xs) = x == r || contains r xs

abbrev pub insert : ℕ → List ℕ → List ℕ
insert r xs = if contains r xs then xs else xs ++ r ∷ []

-- `r in d`
abbrev pub has : {A : Type 0} → ℕ → Dict ℕ A → Bool
has r d = is_some (get ℕ_discrete r d)

module _ {V : Type 0} where
  unfoldable pub begin : Transaction V
  begin = record {
    reads = [];
    writes = [];
    commutes = [];
    commuted_values = [];
    ensures = [];
    actions = [];
    conflicts = [];
  }

  -- the tail of `read`: the remembered read, or the committed value, which is remembered
  unfoldable pub read_committed : Store V → ℕ → Transaction V → V × Transaction V
  read_committed st r t = elim (get ℕ_discrete r t.reads) [
    | some seen ↦ (seen.0, t)
    | none ↦
        ((st r).state, record t { reads = put ℕ_discrete r ((st r).state, (st r).version) t.reads })
  ]

  unfoldable pub read : Store V → ℕ → Transaction V → V × Transaction V
  read st r t = elim (get ℕ_discrete r t.writes) [
    | some v ↦ (v, t)
    | none ↦ elim (get ℕ_discrete r t.commuted_values) [
      | some v ↦ (v, t)
      | none ↦ read_committed st r t
    ]
  ]

  -- The staged write of `alter` and `ref_set`.
  unfoldable pub write : ℕ → V → Transaction V → Transaction V
  write r v t = record t { writes = put ℕ_discrete r v t.writes }

  -- A failing function still leaves the read behind, so the transaction comes beside the result.
  unfoldable pub alter : Store V → ℕ → (V → Result V) → Transaction V → Result V × Transaction V
  alter st r f t =
      if has r t.commutes
      then (raise alter_after_commute, t)
      else let (seen, t') = read st r t in
        elim (f seen) [ raise e ↦ (raise e, t') | ok v ↦ (ok v, write r v t') ]

  unfoldable pub ref_set : Store V → ℕ → V → Transaction V → Result V × Transaction V
  ref_set st r v t =
      if has r t.commutes
      then (raise ref_set_after_commute, t)
      else (ok v, write r v (read st r t).1)

  -- `self._commutes.setdefault(ref, []).append((f, args))`
  unfoldable pub add_commute :
      ℕ → (V → Result V) → Dict ℕ (List (V → Result V)) → Dict ℕ (List (V → Result V))
  add_commute r f d = elim (get ℕ_discrete r d) [
    | none ↦ put ℕ_discrete r (f ∷ []) d
    | some fs ↦ put ℕ_discrete r (fs ++ f ∷ []) d
  ]

  -- what `commute` does once `f` has returned `v`
  unfoldable pub stage_commute : ℕ → (V → Result V) → V → Transaction V → Transaction V
  stage_commute r f v t =
      let t' = record t { commutes = add_commute r f t.commutes } in
      if has r t.writes
      then write r v t'
      else record t' { commuted_values = put ℕ_discrete r v t.commuted_values }

  -- The value that `commute` starts from is the one that `read` gives.
  unfoldable pub commute : Store V → ℕ → (V → Result V) → Transaction V → Result V × Transaction V
  commute st r f t =
      let (seen, t') = read st r t in
      elim (f seen) [ raise e ↦ (raise e, t') | ok v ↦ (ok v, stage_commute r f v t') ]

  unfoldable pub ensure : Store V → ℕ → Transaction V → V × Transaction V
  ensure st r t = let (v, t') = read st r t in (v, record t' { ensures = insert r t'.ensures })

  unfoldable pub after_commit : ℕ → Transaction V → Transaction V
  after_commit a t = record t { actions = t.actions ++ a ∷ [] }
