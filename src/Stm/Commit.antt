-- ===== src/Stm/Commit.antt =====
-- `_Transaction.commit` of src/basilisp/lang/stm.py. The source holds the lock of every Ref that it
-- touches, so a commit is one step of the store. `set(...)` is iterated in the order of the dict
-- that it is made from.
use baisilisp.Base.{
  update, ℕ, ◌+◌, Bool, not, ◌&&◌, ◌||◌, Option, none, some, List, [], ◌∷◌, ◌++◌, ◌==◌,
  if◌then◌else◌,
}
use baisilisp.Base.Dict.{Dict}
use baisilisp.Stm.Ref.{Ref, Store, Result, ok, raise, validate, record_history, ◌>>=◌, ◌>>◌}
use baisilisp.Stm.Transaction.{Transaction, contains, has}

-- (ref, old value, new value)
pub record Change (V : Type 0) : Type 0 where
  pub ref : ℕ
  pub old : V
  pub new : V

module _ {V : Type 0} where
  -- `ref in pure_commutes`
  unfoldable pub is_pure_commute : Transaction V → ℕ → Bool
  is_pure_commute t r = has r t.commutes && not (has r t.writes)

  -- the condition on a read that the commit checks for a new version
  unfoldable pub is_protected : Transaction V → ℕ → Bool
  unfolding is_pure_commute
  is_protected t r = not (is_pure_commute t r) || contains r t.ensures

  unfoldable pub conflicts_from : Store V → Transaction V → Dict ℕ (V × ℕ) → List (ℕ × ℕ × ℕ)
  conflicts_from st t [] = []
  conflicts_from st t ((r, seen) ∷ reads) =
      let rest = conflicts_from st t reads in
      if is_protected t r && not ((st r).version == seen.1)
      then (r, seen.1, (st r).version) ∷ rest
      else rest

  unfoldable pub write_changes : Store V → Dict ℕ V → List (Change V)
  write_changes st [] = []
  write_changes st ((r, v) ∷ writes) =
      record { ref = r; old = (st r).state; new = v } ∷ write_changes st writes

  -- `for f, args in self._commutes[ref]: value = f(value, *args)`
  unfoldable pub replay : List (V → Result V) → V → Result V
  replay [] v = ok v
  replay (f ∷ fs) v = do w ← f v; replay fs w

  -- the loop over `pure_commutes`
  unfoldable pub commute_changes :
      Store V → Transaction V → Dict ℕ (List (V → Result V)) → Result (List (Change V))
  commute_changes st t [] = ok []
  commute_changes st t ((r, fs) ∷ commutes) =
      let rest = commute_changes st t commutes in
      if has r t.writes then rest else (do
        v ← replay fs (st r).state
        changes ← rest
        ok (record { ref = r; old = (st r).state; new = v } ∷ changes))

  unfoldable pub validate_changes : Store V → List (Change V) → Result (Unit {0})
  validate_changes st [] = ok tt
  validate_changes st (c ∷ cs) = do validate (st c.ref).validator c.new; validate_changes st cs

  -- the body of the last loop
  unfoldable pub publish_one : Ref V → V → Ref V
  publish_one r v =
      let r' = record_history r.state r in record r' { state = v; version = r'.version + 1 }

  unfoldable pub publish : List (Change V) → Store V → Store V
  publish [] st = st
  publish (c ∷ cs) st = publish cs (update st c.ref (publish_one (st c.ref) c.new))

  -- What a commit does to the world: it refuses with the conflicts that it remembers, raises, or
  -- publishes its changes.
  unfoldable pub commit :
      Store V → Transaction V → Result (Option (List (Change V))) × Store V × Transaction V
  commit st t = elim (conflicts_from st t t.reads) [
    | c ∷ cs ↦ (ok none, st, record t { conflicts = c ∷ cs })
    | [] ↦ elim (commute_changes st t t.commutes) [
      | raise e ↦ (raise e, st, t)
      | ok commuted ↦
          let changes = write_changes st t.writes ++ commuted in
          elim (validate_changes st changes) [
            | raise e ↦ (raise e, st, t)
            | ok _ ↦ (ok (some changes), publish changes st, t)
          ]
    ]
  ]
