-- ===== src/MultiFn/Coherence.antt =====
-- The cache of `MultiFunction` in src/basilisp/lang/multifn.py against a search that has no cache.
use baisilisp.Base.{
  ◌≡◌, refl, sym, ap, ◌∙◌, Option, none, some, List, [], ◌∷◌, arith, ◌⊎◌, inl, inr, Option-cases,
  if_pos, if_neg, Bool-cases,
}
use mathlib.Core.Path.{subst}
use baisilisp.Cache.Map.{MapOps, MapLaws}
use baisilisp.Base.Dict.{Dict}
use baisilisp.MultiFn.{
  Result, ok, raise, Error, Hierarchy, MultiFunction, reset_cache, search, find_and_cache_method,
  get_cached, get_method, add_method, prefer_method, remove_method, remove_all_methods, make_multi,
  pick, consider, confirm, is_better, precedes, has_preference,
}

-- The calls of a multimethod by which its state changes, each with the hierarchy at that time.
pub data Call (K V H : Type 0) : Type 0 where
  gets : H → K → Call K V H
  adds : H → K → V → Call K V H
  prefers : H → K → K → Call K V H
  removes : H → K → Call K V H
  removes_all : H → Call K V H

module _ {K V H : Type 0} (m : MapOps K V) (dec : Discrete K) (dec_h : Discrete H)
    (tree : Hierarchy K H) (laws : MapLaws dec m) where
  open m use {val_at, Map, assoc}

  abbrev Multi : Type 0
  Multi = MultiFunction m dec dec_h tree

  -- The method for a dispatch value, without a cache: the one of that very value, or the one that the
  -- search over all methods finds.
  unfoldable pub uncached : H → Multi → K → Result (Option V)
  uncached h f key = elim (val_at f.methods key) [
    | some v ↦ ok (some v)
    | none ↦ search m dec dec_h tree h f key
  ]

  -- Every entry of the cache is what `uncached` gives in the hierarchy of the cache, and every method
  -- has its entry.
  abbrev pub Coherent : Multi → Type 0
  Coherent f =
      (key : K)
      → ((val_at f.cache key ≡ none) × (val_at f.methods key ≡ none))
        ⊎ ((v : V) × (val_at f.cache key ≡ some v)
            × (uncached f.cached_hierarchy f key ≡ ok (some v)))

  reset-Coherent : (h : H) (f : Multi) → Coherent (reset_cache m dec dec_h tree h f)
  unfolding reset_cache uncached
  reset-Coherent h f key = elim (Option-cases (val_at f.methods key)) [
    | inl e ↦ inl (e, e)
    | inr (v, e) ↦ inr (v, e, ground (arith, e))
  ]

  -- The search does not read the cache.
  consider_uncached :
      (h h' : H) (f : Multi) (c : Map) (key k : K) (v : V) (best : Option (K × V))
      → consider m dec dec_h tree h (record f { cache = c; cached_hierarchy = h' }) key k v best
        ≡ consider m dec dec_h tree h f key k v best
  unfolding consider confirm is_better precedes has_preference
  consider_uncached h h' f c key k v none = refl
  consider_uncached h h' f c key k v (some best) = refl

  best_cases :
      (r : Result (Option (K × V)))
      → ((b : Option (K × V)) × (r ≡ ok b)) ⊎ ((e : Error) × (r ≡ raise e))
  best_cases (ok b) = inl (b, refl)
  best_cases (raise e) = inr (e, refl)

  pick_uncached :
      (h h' : H) (f : Multi) (c : Map) (key : K) (ms : Dict K V) (best : Option (K × V))
      → pick m dec dec_h tree h (record f { cache = c; cached_hierarchy = h' }) key ms best
        ≡ pick m dec dec_h tree h f key ms best
  unfolding pick
  pick_uncached h h' f c key [] best = refl
  pick_uncached h h' f c key ((k, v) ∷ ms) best =
      rw (consider_uncached h h' f c key k v best, pick)
        elim (best_cases (consider m dec dec_h tree h f key k v best)) [
          | inl (b, e) ↦ rw (e, pick) (pick_uncached h h' f c key ms b)
          | inr (err, e) ↦ rw (e, pick) refl
        ]

  search_uncached :
      (h h' : H) (f : Multi) (c : Map) (key : K)
      → search m dec dec_h tree h (record f { cache = c; cached_hierarchy = h' }) key
        ≡ search m dec dec_h tree h f key
  unfolding search
  search_uncached h h' f c key = ground (arith, pick_uncached h h' f c key (m.items f.methods) none)

  uncached_lem :
      (h h' : H) (f : Multi) (c : Map) (key : K)
      → uncached h (record f { cache = c; cached_hierarchy = h' }) key ≡ uncached h f key
  unfolding uncached
  uncached_lem h h' f c key = ground (arith, search_uncached h h' f c key)

  cached-Coherent :
      (f : Multi) (key : K) (v : V)
      → Coherent f
      → uncached f.cached_hierarchy f key ≡ ok (some v)
      → Coherent (record f { cache = assoc f.cache key v })
  cached-Coherent f key v c found j = elim (dec key j) [
    | yes e ↦ inr (
      v,
      laws.val_at-assoc f.cache key j v ∙ if_pos (dec key j) e _ _,
      uncached_lem f.cached_hierarchy f.cached_hierarchy f (assoc f.cache key v) j
          ∙ ap (uncached f.cached_hierarchy f) (sym e)
          ∙ found,
    )
    | no n ↦ elim (c j) [
      | inl (e, e') ↦ inl (laws.val_at-assoc f.cache key j v ∙ if_neg (dec key j) n _ _ ∙ e, e')
      | inr (w, e, e') ↦ inr (
        w,
        laws.val_at-assoc f.cache key j v ∙ if_neg (dec key j) n _ _ ∙ e,
        uncached_lem f.cached_hierarchy f.cached_hierarchy f (assoc f.cache key v) j ∙ e',
      )
    ]
  ]

  found_cases :
      (r : Result (Option V))
      → (r ≡ ok none) ⊎ ((v : V) × (r ≡ ok (some v))) ⊎ ((e : Error) × (r ≡ raise e))
  found_cases (raise e) = inr (inr (e, refl))
  found_cases (ok none) = inl refl
  found_cases (ok (some v)) = inr (inl (v, refl))

  uncached_missing :
      (h : H) (f : Multi) (key : K)
      → val_at f.methods key ≡ none
      → uncached h f key ≡ search m dec dec_h tree h f key
  unfolding uncached
  uncached_missing h f key e = rw (e, uncached) refl

  find-Coherent :
      (f : Multi) (key : K)
      → Coherent f
      → val_at f.methods key ≡ none
      → ((find_and_cache_method m dec dec_h tree f.cached_hierarchy f key).0
          ≡ uncached f.cached_hierarchy f key)
        × Coherent (find_and_cache_method m dec dec_h tree f.cached_hierarchy f key).1
  unfolding find_and_cache_method
  find-Coherent f key c missing =
      let same = uncached_missing f.cached_hierarchy f key missing in
      elim (found_cases (search m dec dec_h tree f.cached_hierarchy f key)) [
        | inl e ↦ rw (same, e, find_and_cache_method) (refl, c)
        | inr (inr (err, e)) ↦ rw (same, e, find_and_cache_method) (refl, c)
        | inr (inl (v, e)) ↦
            rw (same, e, find_and_cache_method) (refl, cached-Coherent f key v c (same ∙ e))
      ]

  -- The call on a cache of the hierarchy.
  get_cached-Coherent :
      (f : Multi) (key : K)
      → Coherent f
      → ((get_cached m dec dec_h tree f.cached_hierarchy f key).0
          ≡ uncached f.cached_hierarchy f key)
        × Coherent (get_cached m dec dec_h tree f.cached_hierarchy f key).1
  unfolding get_cached
  get_cached-Coherent f key c = elim (c key) [
    | inr (v, e, found) ↦ rw (e, get_cached) (sym found, c)
    | inl (e, e') ↦ rw (e, get_cached) (find-Coherent f key c e')
  ]

  get_method-Coherent :
      (h : H) (f : Multi) (key : K)
      → Coherent f
      → ((get_method m dec dec_h tree h f key).0 ≡ uncached h f key)
        × Coherent (get_method m dec dec_h tree h f key).1
  unfolding get_method reset_cache
  get_method-Coherent h f key c = elim (dec_h f.cached_hierarchy h) [
    | yes e ↦
        rw (if_pos (dec_h f.cached_hierarchy h) e, get_method)
          (subst
            (λ x.
              ((get_cached m dec dec_h tree x f key).0 ≡ uncached x f key)
              × Coherent (get_cached m dec dec_h tree x f key).1)
            e (get_cached-Coherent f key c))
    | no n ↦
        let kept =
          get_cached-Coherent (reset_cache m dec dec_h tree h f) key (reset-Coherent h f) in
        rw (if_neg (dec_h f.cached_hierarchy h) n, get_method)
          (kept.0 ∙ uncached_lem h h f f.methods key, kept.1)
  ]

  prefer_method-Coherent :
      (h : H) (f : Multi) (preferred other : K)
      → Coherent f
      → Coherent (prefer_method m dec dec_h tree h f preferred other).1
  unfolding prefer_method
  prefer_method-Coherent h f preferred other c =
      elim (Bool-cases (has_preference m dec dec_h tree f other preferred)) [
        | inl e ↦ rw (e, prefer_method) c
        | inr e ↦ rw (e, prefer_method) (reset-Coherent h _)
      ]

  remove_method-Coherent :
      (h : H) (f : Multi) (key : K) → Coherent (remove_method m dec dec_h tree h f key).1
  unfolding remove_method
  remove_method-Coherent h f key = elim (Option-cases (val_at f.methods key)) [
    | inl e ↦ rw (e, remove_method) (reset-Coherent h f)
    | inr (v, e) ↦ rw (e, remove_method) (reset-Coherent h _)
  ]

  unfoldable pub step : Call K V H → Multi → Multi
  step (gets h key) f = (get_method m dec dec_h tree h f key).1
  step (adds h key method) f = add_method m dec dec_h tree h f key method
  step (prefers h preferred other) f = (prefer_method m dec dec_h tree h f preferred other).1
  step (removes h key) f = (remove_method m dec dec_h tree h f key).1
  step (removes_all h) f = remove_all_methods m dec dec_h tree h f

  step-Coherent : (call : Call K V H) (f : Multi) → Coherent f → Coherent (step call f)
  unfolding step add_method remove_all_methods
  step-Coherent (gets h key) f c = (get_method-Coherent h f key c).1
  step-Coherent (adds h key method) f c = reset-Coherent h _
  step-Coherent (prefers h preferred other) f c = prefer_method-Coherent h f preferred other c
  step-Coherent (removes h key) f c = remove_method-Coherent h f key
  step-Coherent (removes_all h) f c = reset-Coherent h _

  unfoldable pub run : List (Call K V H) → Multi → Multi
  run [] f = f
  run (call ∷ calls) f = run calls (step call f)

  run-Coherent : (calls : List (Call K V H)) (f : Multi) → Coherent f → Coherent (run calls f)
  unfolding run
  run-Coherent [] f c = c
  run-Coherent (call ∷ calls) f c = run-Coherent calls (step call f) (step-Coherent call f c)

  -- After any sequence of calls on a new multimethod, each under the hierarchy of its time,
  -- `get_method` gives under any hierarchy the method of that very value, or else what the search
  -- over all methods finds, with the error of an ambiguous choice: entries of the cache that changes
  -- of the methods, preferences or hierarchy have made old are never seen. A condition is that the
  -- persistent maps keep their laws.
  pub get_method-run :
      (default : K) (h₀ : H) (calls : List (Call K V H)) (h : H) (key : K)
      → (get_method m dec dec_h tree h (run calls (make_multi m dec dec_h tree default h₀)) key).0
        ≡ uncached h (run calls (make_multi m dec dec_h tree default h₀)) key
  unfolding make_multi
  get_method-run default h₀ calls h key =
      let f = run calls (make_multi m dec dec_h tree default h₀) in
      (get_method-Coherent h f key
        (run-Coherent calls _ (λ j. inl (laws.val_at-empty j, laws.val_at-empty j)))).0
