-- ===== src/Stm/Effect.antt =====
-- What `commit` of src/basilisp/lang/stm.py leaves in the store.
use baisilisp.Base.{
  update, ℕ, ◌≡◌, refl, true, false, Option, none, some, List, [], ◌∷◌, ◌++◌, arith, if◌then◌else◌,
  ℕ_discrete, ◌∙◌, List-cases, ◌≢◌, Bool-cases, ite, ◌⊎◌, inl, inr, Option-cases,
}
use mathlib.Core.Path.{subst}
use baisilisp.Base.Dict.{Dict, get, Distinct}
use baisilisp.Stm.Ref.{
  Store, Result, ok, raise, ◌>>=◌, >>=-eq-ok, Result-cases, ok-injective, Error,
}
use baisilisp.Stm.Transaction.{Transaction, has}
use baisilisp.Stm.Commit.{
  Change, write_changes, replay, commute_changes, validate_changes, publish_one, publish, commit,
  conflicts_from,
}

module _ {V : Type 0} where
  -- The new value that a list of changes has for a Ref.
  unfoldable pub change_of : ℕ → List (Change V) → Option V
  change_of r [] = none
  change_of r (c ∷ cs) = ite (ℕ_discrete c.ref r) (some c.new) (change_of r cs)

  -- No Ref is changed twice.
  abbrev pub Single : List (Change V) → Type 0
  Single [] = Unit
  Single (c ∷ cs) = (change_of c.ref cs ≡ none) × Single cs

  publish_unchanged :
      (cs : List (Change V)) (st : Store V) (r : ℕ) → change_of r cs ≡ none → publish cs st r ≡ st r
  unfolding publish change_of
  publish_unchanged [] st r h = refl
  publish_unchanged (c ∷ cs) st r h =
      ground (arith, publish_unchanged cs (update st c.ref (publish_one (st c.ref) c.new)) r)

  publish_changed :
      (cs : List (Change V)) (st : Store V) (r : ℕ) (v : V)
      → Single cs
      → change_of r cs ≡ some v
      → publish cs st r ≡ publish_one (st r) v
  unfolding publish change_of
  publish_changed [] st r v s h = cc
  publish_changed (c ∷ cs) st r v s h = ground (
    arith,
    publish_unchanged cs (update st c.ref (publish_one (st c.ref) c.new)) r,
    publish_changed cs (update st c.ref (publish_one (st c.ref) c.new)) r v,
  )

  publish_at :
      (cs : List (Change V)) (st : Store V) (r : ℕ)
      → Single cs
      → publish cs st r ≡ elim (change_of r cs) [ none ↦ st r | some v ↦ publish_one (st r) v ]
  publish_at cs st r s = elim (Option-cases (change_of r cs)) [
    | inl e ↦ rw e (publish_unchanged cs st r e)
    | inr (v, e) ↦ rw e (publish_changed cs st r v s e)
  ]

  change_of-write_changes :
      (st : Store V) (writes : Dict ℕ V) (r : ℕ)
      → change_of r (write_changes st writes) ≡ get ℕ_discrete r writes
  unfolding change_of write_changes get
  change_of-write_changes st [] r = refl
  change_of-write_changes st ((q, v) ∷ writes) r =
      ground (arith, change_of-write_changes st writes r)

  change_of-append :
      (r : ℕ) (cs ds : List (Change V))
      → change_of r (cs ++ ds) ≡ elim (change_of r cs) [ none ↦ change_of r ds | some v ↦ some v ]
  unfolding change_of
  change_of-append r [] ds = refl
  change_of-append r (c ∷ cs) ds = ground (arith, change_of-append r cs ds)

  -- The value that a transaction means to give a Ref, if any: what it wrote, or its staged
  -- functions, applied in order to the value that the store holds now.
  unfoldable pub intended : Store V → Transaction V → ℕ → Result (Option V)
  intended st t r = elim (get ℕ_discrete r t.writes) [
    | some v ↦ ok (some v)
    | none ↦ elim (get ℕ_discrete r t.commutes) [
      | none ↦ ok none
      | some fs ↦ do v ← replay fs (st r).state; ok (some v)
    ]
  ]

  abbrev replayed : Store V → Dict ℕ (List (V → Result V)) → ℕ → Result (Option V)
  replayed st commutes r = elim (get ℕ_discrete r commutes) [
    | none ↦ ok none
    | some fs ↦ do v ← replay fs (st r).state; ok (some v)
  ]

  module _ (st : Store V) (t : Transaction V) where
    -- One turn of the loop over the staged functions.
    abbrev Turn : ℕ → List (V → Result V) → Dict ℕ (List (V → Result V)) → List (Change V) → Type 0
    Turn q fs commutes cs =
        ((has q t.writes ≡ true) × (commute_changes st t commutes ≡ ok cs))
        ⊎ ((v : V) × (rest : List (Change V)) × (has q t.writes ≡ false)
            × (replay fs (st q).state ≡ ok v)
            × (commute_changes st t commutes ≡ ok rest)
            × (cs ≡ record { ref = q; old = (st q).state; new = v } ∷ rest))

    turn :
        (q : ℕ) (fs : List (V → Result V)) (commutes : Dict ℕ (List (V → Result V)))
        (cs : List (Change V))
        → commute_changes st t ((q, fs) ∷ commutes) ≡ ok cs
        → Turn q fs commutes cs
    unfolding commute_changes
    turn q fs commutes cs h = elim (Bool-cases (has q t.writes)) [
      | inl e ↦ inl (e, ground arith)
      | inr e ↦
          let (v, done, more) = >>=-eq-ok (replay fs (st q).state) _ (rw e at h) in
          let (rest, found, last) = >>=-eq-ok (commute_changes st t commutes) _ more in
          inr (v, rest, e, done, found, cc)
    ]

    change_of-commute_changes :
        (commutes : Dict ℕ (List (V → Result V))) (cs : List (Change V)) (r : ℕ)
        → commute_changes st t commutes ≡ ok cs
        → (if has r t.writes then ok none else replayed st commutes r) ≡ ok (change_of r cs)
    unfolding commute_changes change_of get
    change_of-commute_changes [] cs r h = ground arith
    change_of-commute_changes ((q, fs) ∷ commutes) cs r h = elim (turn q fs commutes cs h) [
      | inl (w, more) ↦ ground (arith, change_of-commute_changes commutes cs r more)
      | inr (v, rest, w, done, more, e) ↦
          rw e (ground (arith, change_of-commute_changes commutes rest r more, done))
    ]

    Single-commute_changes :
        (commutes : Dict ℕ (List (V → Result V))) (cs : List (Change V))
        → Distinct ℕ_discrete commutes
        → commute_changes st t commutes ≡ ok cs
        → Single cs
    unfolding commute_changes
    Single-commute_changes [] cs d h = subst Single (ok-injective h) tt
    Single-commute_changes ((q, fs) ∷ commutes) cs d h = elim (turn q fs commutes cs h) [
      | inl (w, more) ↦ Single-commute_changes commutes cs d.1 more
      | inr (v, rest, w, done, more, e) ↦ rw e (
        ground (arith, change_of-commute_changes commutes rest q more, d.0),
        Single-commute_changes commutes rest d.1 more,
      )
    ]

  Single-write_changes :
      (st : Store V) (writes : Dict ℕ V)
      → Distinct ℕ_discrete writes
      → Single (write_changes st writes)
  unfolding write_changes
  Single-write_changes st [] d = tt
  Single-write_changes st ((r, v) ∷ writes) d =
      (change_of-write_changes st writes r ∙ d.0, Single-write_changes st writes d.1)

  -- Two lists of changes that share no Ref.
  Single-append :
      (cs ds : List (Change V))
      → Single cs
      → Single ds
      → ((r : ℕ) → change_of r cs ≢ none → change_of r ds ≡ none)
      → Single (cs ++ ds)
  unfolding change_of
  Single-append [] ds sc sd apart = sd
  Single-append (c ∷ cs) ds sc sd apart = (
    ground (arith, change_of-append c.ref cs ds, apart c.ref, sc.0),
    Single-append cs ds sc.1 sd (λ r h. apart r (ground arith)),
  )

-- The dicts of a transaction hold each Ref once.
pub record IsWellFormed {V : Type 0} (t : Transaction V) : Type 0 where
  pub writes_once : Distinct ℕ_discrete t.writes
  pub commutes_once : Distinct ℕ_discrete t.commutes

module _ {V : Type 0} (st : Store V) (t : Transaction V) where
  -- The two lists that `commit` publishes, and what they hold for each Ref.
  abbrev Planned : List (Change V) → Type 0
  Planned commuted = commute_changes st t t.commutes ≡ ok commuted

  changes_intended :
      (commuted : List (Change V)) (r : ℕ)
      → Planned commuted
      → intended st t r ≡ ok (change_of r (write_changes st t.writes ++ commuted))
  unfolding intended
  changes_intended commuted r h = rw (change_of-append r (write_changes st t.writes) commuted) (
      ground (
        arith,
        change_of-write_changes st t.writes r,
        change_of-commute_changes st t t.commutes commuted r h,
      ))

  Single-changes :
      (commuted : List (Change V))
      → IsWellFormed t
      → Planned commuted
      → Single (write_changes st t.writes ++ commuted)
  Single-changes commuted w h =
      Single-append (write_changes st t.writes) commuted
        (Single-write_changes st t.writes w.writes_once)
        (Single-commute_changes st t t.commutes commuted w.commutes_once h)
        (λ r wrote. ground (
          arith,
          change_of-write_changes st t.writes r,
          change_of-commute_changes st t t.commutes commuted r h,
        ))

  -- The ways in which a commit ends.
  abbrev pub Outcome : Result (Option (List (Change V))) × Store V × Transaction V → Type 0
  Outcome out =
      ((c : ℕ × ℕ × ℕ) × (cs : List (ℕ × ℕ × ℕ)) × (conflicts_from st t t.reads ≡ c ∷ cs)
        × (out ≡ (ok none, st, record t { conflicts = c ∷ cs })))
      ⊎ (((e : Error) × (conflicts_from st t t.reads ≡ []) × (out ≡ (raise e, st, t)))
          ⊎ ((commuted : List (Change V)) × (conflicts_from st t t.reads ≡ [])
              × (commute_changes st t t.commutes ≡ ok commuted)
              × (validate_changes st (write_changes st t.writes ++ commuted) ≡ ok tt)
              × (out ≡ (
                ok (some (write_changes st t.writes ++ commuted)),
                publish (write_changes st t.writes ++ commuted) st,
                t,
              ))))

  pub commit-Outcome : Outcome (commit st t)
  unfolding commit
  commit-Outcome = elim (List-cases (conflicts_from st t t.reads)) [
    | inr (c, cs, e) ↦ inl (c, cs, e, ground arith)
    | inl e ↦ elim (Result-cases (commute_changes st t t.commutes)) [
      | inr (x, f) ↦ inr (inl (x, e, ground arith))
      | inl (commuted, f) ↦
          elim (Result-cases (validate_changes st (write_changes st t.writes ++ commuted))) [
            | inr (x, g) ↦ inr (inl (x, e, ground arith))
            | inl (_, g) ↦ inr (inr (commuted, e, f, g, ground arith))
          ]
    ]
  ]

  -- The Ref `r` before and after a commit that publishes, through the list of the changes.
  pub commit_ref :
      (cs : List (Change V)) (st' : Store V) (t' : Transaction V)
      → IsWellFormed t
      → commit st t ≡ (ok (some cs), st', t')
      → (r : ℕ)
      → (intended st t r ≡ ok (change_of r cs))
        × (st' r ≡ elim (change_of r cs) [ none ↦ st r | some v ↦ publish_one (st r) v ])
        × (validate_changes st cs ≡ ok tt)
  commit_ref cs st' t' w h r = elim commit-Outcome [
    | inl (c, conflicts, _, e) ↦ cc
    | inr (inl (x, _, e)) ↦ cc
    | inr (inr (commuted, _, planned, valid, e)) ↦
        let all : List (Change V) = write_changes st t.writes ++ commuted in
        let same : publish all st ≡ st' = cc in
        let listed : all ≡ cs = cc in
        rw (← same, ← listed)
          (
            changes_intended commuted r planned,
            publish_at all st r (Single-changes commuted w planned),
            valid,
          )
  ]
