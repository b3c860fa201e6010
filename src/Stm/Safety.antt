-- ===== src/Stm/Safety.antt =====
-- What a commit of src/basilisp/lang/stm.py guarantees: what it publishes, when it refuses, and
-- what it leaves alone.
use mathlib.Core.Path.{subst}
use baisilisp.Base.{
  ℕ_discrete, Bool-cases, update, ℕ, ◌+◌, ◌≤◌, ◌≡◌, refl, ap, ◌∙◌, true, none, some, List, arith,
  ◌≢◌, ◌↔◌, Option-cases, ◌⊎◌, inl, inr, ◌∷◌, [], ◌++◌, length, All, length-append,
}
use baisilisp.Base.Dict.{Dict, get}
use baisilisp.Base.Int.{pos_part}
use baisilisp.Stm.Ref.{Ref, Store, ok, validate, Result, record_history, ok-injective, >>=-eq-ok}
use baisilisp.Stm.Transaction.{Transaction, contains}
use baisilisp.Stm.Commit.{
  Change, replay, is_pure_commute, is_protected, conflicts_from, publish_one, publish, commit,
  write_changes,
}
use baisilisp.Stm.Effect.{intended, IsWellFormed, commit_ref, commit-Outcome, change_of}
use baisilisp.Stm.Body.{Evolves}

-- The validator of the Ref accepts the value that it holds.
abbrev pub Accepted : {V : Type 0} → Ref V → Type 0
Accepted r = validate r.validator r.state ≡ ok tt

module _ {V : Type 0} where
  -- Each function is applied to what the one before it gave.
  pub data Applied : List (V → Result V) → V → V → Type 0 where
    no_functions : {v : V} → Applied [] v v
    applied :
        {f : V → Result V} {fs : List (V → Result V)} {v u w : V}
        → f v ≡ ok u
        → Applied fs u w
        → Applied (f ∷ fs) v w

  replay-Applied : (fs : List (V → Result V)) (v w : V) → replay fs v ≡ ok w → Applied fs v w
  unfolding replay
  replay-Applied [] v w e = subst (Applied [] v) (ok-injective e) no_functions
  replay-Applied (f ∷ fs) v w e =
      let (u, first, rest) = >>=-eq-ok (f v) _ e in applied first (replay-Applied fs u w rest)

module _ {V : Type 0} (st : Store V) (t : Transaction V) where
  -- The value that a transaction means to give a Ref: what it wrote, or the end of its staged functions,
  -- from the value that the store holds.
  abbrev pub Intends : ℕ → V → Type 0
  Intends r v =
      (get ℕ_discrete r t.writes ≡ some v)
      ⊎ ((fs : List (V → Result V)) × (get ℕ_discrete r t.writes ≡ none)
          × (get ℕ_discrete r t.commutes ≡ some fs)
          × Applied fs (st r).state v)

  -- It means to give the Ref no value.
  abbrev pub LeavesAlone : ℕ → Type 0
  LeavesAlone r = (get ℕ_discrete r t.writes ≡ none) × (get ℕ_discrete r t.commutes ≡ none)

  intended-Intends : (r : ℕ) (v : V) → intended st t r ≡ ok (some v) → Intends r v
  unfolding intended
  intended-Intends r v e = elim (Option-cases (get ℕ_discrete r t.writes)) [
    | inr (w, a) ↦ inl (ground (arith, a, e))
    | inl a ↦ elim (Option-cases (get ℕ_discrete r t.commutes)) [
      | inl b ↦ absurd (ground (arith, a, b, e))
      | inr (fs, b) ↦
          let (w, found, last) = >>=-eq-ok (replay fs (st r).state) _ (rw (a, intended, b) at e) in
          let same : w ≡ v = ground (arith, last) in
          inr (
            fs,
            a,
            b,
            subst (Applied fs (st r).state) same (replay-Applied fs (st r).state w found),
          )
    ]
  ]

  intended-LeavesAlone : (r : ℕ) → intended st t r ≡ ok none → LeavesAlone r
  unfolding intended
  intended-LeavesAlone r e = elim (Option-cases (get ℕ_discrete r t.writes)) [
    | inr (w, a) ↦ absurd (ground (arith, a, e))
    | inl a ↦ elim (Option-cases (get ℕ_discrete r t.commutes)) [
      | inl b ↦ (a, b)
      | inr (fs, b) ↦
          let (w, found, last) = >>=-eq-ok (replay fs (st r).state) _ (rw (a, intended, b) at e) in
          absurd (ground (arith, last))
    ]
  ]

  -- A commit of a well-formed transaction that succeeds gives each Ref the value that the
  -- transaction intends for it (what it wrote, or what its staged functions give one after the other, from
  -- the value in the store at the commit) and one version more; a Ref that it neither wrote nor staged a
  -- function for keeps all its fields.
  pub commit-intended :
      (cs : List (Change V)) (st' : Store V) (t' : Transaction V)
      → IsWellFormed t
      → commit st t ≡ (ok (some cs), st', t')
      → (r : ℕ)
      → ((v : V) × Intends r v × ((st' r).state ≡ v) × ((st' r).version ≡ (st r).version + 1))
        ⊎ (LeavesAlone r × (st' r ≡ st r))
  unfolding publish_one record_history
  commit-intended cs st' t' w h r =
      let (planned, at, _) = commit_ref st t cs st' t' w h r in
      elim (Option-cases (change_of r cs)) [
        | inl e ↦ inr (intended-LeavesAlone r (planned ∙ ap ok e), ground arith)
        | inr (v, e) ↦ inl (v, intended-Intends r v (planned ∙ ap ok e), ground arith, ground arith)
      ]

  -- A commit of a well-formed transaction that succeeds either leaves the history of a Ref as it
  -- is, or adds the value that the Ref held before at its end; it does the latter only below the
  -- configured minimum, and it never changes the two controls.
  pub commit-history :
      (cs : List (Change V)) (st' : Store V) (t' : Transaction V)
      → IsWellFormed t
      → commit st t ≡ (ok (some cs), st', t')
      → (r : ℕ)
      → (((st' r).history ≡ (st r).history)
          ⊎ (((st' r).history ≡ (st r).history ++ (st r).state ∷ [])
              × (length (st' r).history ≤ pos_part (st r).min_history)))
        × ((st' r).min_history ≡ (st r).min_history)
        × ((st' r).max_history ≡ (st r).max_history)
  unfolding publish_one record_history
  commit-history cs st' t' w h r =
      let (_, at, _) = commit_ref st t cs st' t' w h r in
      ground (arith, length-append {0} (st r).history ((st r).state ∷ []))

  -- A commit that raises or refuses publishes nothing: the store is the old one.
  pub commit_unpublished :
      ((cs : List (Change V)) → (commit st t).0 ≢ ok (some cs)) → (commit st t).1 ≡ st
  commit_unpublished h = elim (commit-Outcome st t) [
    | inl (c, cs, _, e) ↦ rw e
    | inr (inl (x, _, e)) ↦ rw e
    | inr (inr (commuted, _, _, _, e)) ↦ absurd (h _ (ap (λ out. out.0) e))
  ]

  -- A read has to hold until the commit, unless all that the transaction did to the Ref was to commute it;
  -- a Ref that was ensured has to hold in any case.
  abbrev pub MustHold : ℕ → Type 0
  MustHold r =
      (get ℕ_discrete r t.commutes ≡ none)
      ⊎ (((v : V) × (get ℕ_discrete r t.writes ≡ some v)) ⊎ (contains r t.ensures ≡ true))

  -- Every read that has to hold has the version that was read.
  abbrev pub IsCurrent : Dict ℕ (V × ℕ) → Type 0
  IsCurrent = All (λ (e : ℕ × (V × ℕ)). MustHold e.0 → (st e.0).version ≡ e.1.1)

  protected_iff : (r : ℕ) → (is_protected t r ≡ true) ↔ MustHold r
  unfolding is_protected is_pure_commute
  protected_iff r = elim (Option-cases (get ℕ_discrete r t.commutes)) [
    | inl c ↦ ((λ _. inl c), λ _. ground (arith, c))
    | inr (fs, c) ↦ elim (Option-cases (get ℕ_discrete r t.writes)) [
      | inr (v, w) ↦ ((λ _. inr (inl (v, w))), λ _. ground (arith, c, w))
      | inl w ↦ elim (Bool-cases (contains r t.ensures)) [
        | inl e ↦ ((λ _. inr (inr e)), λ _. ground (arith, c, w, e))
        | inr e ↦ (
          (λ h. absurd (ground (arith, c, w, e, h))),
          λ h. elim h [
            | inl a ↦ absurd (ground (arith, a, c))
            | inr (inl (v, a)) ↦ absurd (ground (arith, a, w))
            | inr (inr a) ↦ absurd (ground (arith, a, e))
          ],
        )
      ]
    ]
  ]

  no_conflict_iff : (reads : Dict ℕ (V × ℕ)) → (conflicts_from st t reads ≡ []) ↔ IsCurrent reads
  unfolding conflicts_from
  no_conflict_iff [] = ((λ _. tt), λ _. refl)
  no_conflict_iff ((r, seen) ∷ reads) =
      let ih = no_conflict_iff reads in
      (
        (λ h. (
          (λ must. let p = (protected_iff r).1 must in ground (arith, p, h)),
          ih.0 (ground (arith, h)),
        )),
        λ h. elim (Bool-cases (is_protected t r)) [
          | inl p ↦ let same = h.0 ((protected_iff r).0 p) in ground (arith, p, ih.1 h.1, same)
          | inr p ↦ ground (arith, p, ih.1 h.1)
        ],
      )

  -- A commit refuses exactly when some read that has to hold is no longer current: the read of a Ref that
  -- was not commuted, or was written, or was ensured.
  pub commit-refuses_iff : ((commit st t).0 ≡ ok none) ↔ (¬ IsCurrent t.reads)
  commit-refuses_iff = elim (commit-Outcome st t) [
    | inl (c, cs, f, e) ↦ (
      (λ _ current. ground (arith, (no_conflict_iff t.reads).1 current)),
      λ _. ap (λ out. out.0) e,
    )
    | inr (inl (x, f, e)) ↦ ((λ h. cc), λ h. absurd (h ((no_conflict_iff t.reads).0 f)))
    | inr (inr (commuted, f, _, _, e)) ↦
        ((λ h. cc), λ h. absurd (h ((no_conflict_iff t.reads).0 f)))
  ]

Evolves-refl : {V : Type 0} (st : Store V) → Evolves st st
Evolves-refl st = record { grows = λ r. omega arith; holds = λ r h. refl }

publish-Evolves : {V : Type 0} (cs : List (Change V)) (st : Store V) → Evolves st (publish cs st)
unfolding publish publish_one record_history
publish-Evolves [] st = Evolves-refl st
publish-Evolves (c ∷ cs) st =
    let next = update st c.ref (publish_one (st c.ref) c.new) in
    let ih = publish-Evolves cs next in
    record {
      grows = λ r. ground (arith, ih.grows r);
      holds = λ r h. ground (arith, ih.grows r, ih.holds r);
    }

-- However a commit ends, no version falls, and a Ref whose version is the same has the same value:
-- so every other transaction is an environment of the kind that `isolation` asks for.
pub commit-Evolves : {V : Type 0} (st : Store V) (t : Transaction V) → Evolves st (commit st t).1
commit-Evolves st t = elim (commit-Outcome st t) [
  | inl (c, cs, _, e) ↦ rw e (Evolves-refl st)
  | inr (inl (x, _, e)) ↦ rw e (Evolves-refl st)
  | inr (inr (commuted, _, _, _, e)) ↦
      rw e (publish-Evolves (write_changes st t.writes ++ commuted) st)
]
