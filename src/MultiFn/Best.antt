-- ===== src/MultiFn/Best.antt =====
-- The method that `_find_and_cache_method` of src/basilisp/lang/multifn.py prefers over the others.
use baisilisp.Base.{
  ◌≡◌, refl, true, false, Option, none, some, [], ◌∷◌, arith, ◌⊎◌, inl, inr, Among, All-Among, All,
  Bool-cases,
}
use mathlib.Core.Path.{subst}
use baisilisp.Cache.Map.{MapOps}
use baisilisp.Base.Dict.{Dict}
use baisilisp.MultiFn.{
  Result, ok, raise, Error, Hierarchy, MultiFunction, pick, consider, confirm, is_better, precedes,
}

best_cases {ℓ} :
    {A : Type ℓ} (r : Result A) → ((a : A) × (r ≡ ok a)) ⊎ ((e : Error) × (r ≡ raise e))
best_cases (ok a) = inl (a, refl)
best_cases (raise e) = inr (e, refl)

module _ {K V H : Type 0} (m : MapOps K V) (dec : Discrete K) (dec_h : Discrete H)
    (tree : Hierarchy K H) (h : H) (f : MultiFunction m dec dec_h tree) (key : K) where
  -- The method `best` of a search that has gone past the key `k`: `k` does not match when there is
  -- none, and when it matches, the key of `best` precedes it.
  abbrev pub Beats : Option (K × V) → K → Type 0
  Beats none k = tree.isa h key k ≡ false
  Beats (some b) k = tree.isa h key k ≡ true → precedes m dec dec_h tree h f b.0 k ≡ true

  -- `best` is one of `found` and matches.
  abbrev pub Applies : Dict K V → Option (K × V) → Type 0
  Applies found none = Unit
  Applies found (some b) = Among b found × (tree.isa h key b.0 ≡ true)

  abbrev Moves : Dict K V → Option (K × V) → Option (K × V) → Type 0
  Moves found best best' =
      ((j : K) → Beats best j → Beats best' j) × (Applies found best → Applies found best')

  abbrev Keeps : Dict K V → K → Option (K × V) → Option (K × V) → Type 0
  Keeps found k best best' = Beats best' k × Moves found best best'

module _ {K V H : Type 0} (m : MapOps K V) (dec : Discrete K) (dec_h : Discrete H)
    (tree : Hierarchy K H) (h : H) (f : MultiFunction m dec dec_h tree) (key : K)
    (named : (k : K) → tree.is_nil k ≡ false)
    (chain : (i j k : K)
      → precedes m dec dec_h tree h f i j ≡ true
      → precedes m dec dec_h tree h f j k ≡ true
      → precedes m dec dec_h tree h f i k ≡ true) where
  confirm-Keeps :
      (found : Dict K V) (k : K) (best : Option (K × V)) (b : K × V) (best' : Option (K × V))
      → confirm m dec dec_h tree h f k b ≡ ok best'
      → (precedes m dec dec_h tree h f b.0 k ≡ true
          → Keeps m dec dec_h tree h f key found k best (some b))
      → Keeps m dec dec_h tree h f key found k best best'
  unfolding confirm
  confirm-Keeps found k best b best' e keeps =
      elim (Bool-cases (precedes m dec dec_h tree h f b.0 k)) [
        | inl p ↦
            subst (Keeps m dec dec_h tree h f key found k best) {x = some b} (ground (arith, e, p))
              (keeps p)
        | inr n ↦ ground (arith, e, n)
      ]

  consider-Keeps :
      (found : Dict K V) (k : K) (v : V) (best best' : Option (K × V))
      → Among (k, v) found
      → consider m dec dec_h tree h f key k v best ≡ ok best'
      → Keeps m dec dec_h tree h f key found k best best'
  unfolding consider is_better
  consider-Keeps found k v none best' a e = elim (Bool-cases (tree.isa h key k)) [
    | inl p ↦
        confirm-Keeps found k none (k, v) best' (ground (arith, e, p))
          (λ q. (λ _. q, (λ j no. ground arith, λ _. (a, p))))
    | inr n ↦
        subst (Keeps m dec dec_h tree h f key found k none) {x = none} (ground (arith, e, n))
          (n, (λ j x. x, λ x. x))
  ]
  consider-Keeps found k v (some b) best' a e = elim (Bool-cases (tree.isa h key k)) [
    | inl p ↦ elim (Bool-cases (precedes m dec dec_h tree h f k b.0)) [
      | inl q ↦
          confirm-Keeps found k (some b) (k, v) best' (ground (arith, e, p, q))
            (λ r. (λ _. r, (λ j beats x. chain k b.0 j q (beats x), λ _. (a, p))))
      | inr q ↦
          confirm-Keeps found k (some b) b best' (ground (arith, e, p, q, named b.0))
            (λ r. (λ _. r, (λ j x. x, λ x. x)))
    ]
    | inr n ↦
        subst (Keeps m dec dec_h tree h f key found k (some b)) {x = some b} (ground (arith, e, n))
          (λ x. ground arith, (λ j x. x, λ x. x))
  ]

  pick_some :
      (k : K) (v : V) (ms : Dict K V) (best best' : Option (K × V))
      → pick m dec dec_h tree h f key ((k, v) ∷ ms) best ≡ ok best'
      → (next : Option (K × V)) × (consider m dec dec_h tree h f key k v best ≡ ok next)
        × (pick m dec dec_h tree h f key ms next ≡ ok best')
  unfolding pick
  pick_some k v ms best best' e = elim (best_cases (consider m dec dec_h tree h f key k v best)) [
    | inl (next, found) ↦ (next, found, ground (arith, e, found))
    | inr (err, found) ↦ ground (arith, e, found)
  ]

  pick-Keeps :
      (found ms : Dict K V) (best best' : Option (K × V))
      → All (λ kv. Among kv found) ms
      → pick m dec dec_h tree h f key ms best ≡ ok best'
      → All (λ kv. Beats m dec dec_h tree h f key best' kv.0) ms
        × Moves m dec dec_h tree h f key found best best'
  unfolding pick
  pick-Keeps found [] best best' a e =
      subst (λ x. Unit × Moves m dec dec_h tree h f key found best x) {x = best} (ground (arith, e))
        (tt, (λ j x. x, λ x. x))
  pick-Keeps found ((k, v) ∷ ms) best best' a e =
      let (next, step, e') = pick_some k v ms best best' e in
      let kept = consider-Keeps found k v best next a.0 step in
      let rest = pick-Keeps found ms next best' a.1 e' in
      ((rest.1.0 k kept.0, rest.0), (λ j x. rest.1.0 j (kept.1.0 j x), λ x. rest.1.1 (kept.1.1 x)))

  -- When the search of `_find_and_cache_method` ends without an error, then either no method
  -- matches the dispatch value, or the best one is a method of the function that matches, and its key
  -- precedes the key of every method that matches. The conditions are that no key is nil and that
  -- `_precedes` is transitive.
  pub search_best :
      (best : Option (K × V))
      → pick m dec dec_h tree h f key (m.items f.methods) none ≡ ok best
      → All (λ kv. Beats m dec dec_h tree h f key best kv.0) (m.items f.methods)
        × Applies m dec dec_h tree h f key (m.items f.methods) best
  search_best best e =
      let kept =
        pick-Keeps (m.items f.methods) (m.items f.methods) none best (All-Among (m.items f.methods))
          e in
      (kept.0, kept.1.1 tt)
