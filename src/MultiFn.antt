-- ===== src/MultiFn.antt =====
-- `MultiFunction` of src/basilisp/lang/multifn.py. The hierarchy is a reference that others change,
-- so each operation is given the value that it holds now. `isa` is `isa?` of basilisp.core, and
-- `is_nil` says which dispatch value is `None`. The maps are those of Cache/Map.
pub mod Coherence
pub mod Best
use baisilisp.Base.{Bool, true, false, ◌||◌, Option, none, some, List, [], ◌∷◌, ite, if◌then◌else◌}
use baisilisp.Base.Dict.{Dict, get, put}
use baisilisp.Cache.Map.{MapOps}

pub data Error : Type 0 where
  ambiguous not_implemented conflicting_preference : Error

pub data Result {ℓ} (A : Type ℓ) : Type ℓ where
  ok : A → Result A
  raise : Error → Result A

-- What the dispatch needs of the program's values: keys `K`, hierarchies `H`.
pub record Hierarchy (K H : Type 0) : Type 0 where
  pub isa : H → K → K → Bool
  pub is_nil : K → Bool

module _ {K V H : Type 0} (m : MapOps K V) (dec : Discrete K) (dec_h : Discrete H)
    (tree : Hierarchy K H) where
  open m use {Map, val_at, assoc, dissoc, items}

  pub record MultiFunction : Type 0 where
    pub default : K
    pub methods : Map
    pub cache : Map
    pub prefers : Dict K (List K)
    pub cached_hierarchy : H

  unfoldable pub make_multi : K → H → MultiFunction
  make_multi default h = record {
    default = default;
    methods = m.empty;
    cache = m.empty;
    prefers = [];
    cached_hierarchy = h;
  }

  unfoldable pub reset_cache : H → MultiFunction → MultiFunction
  reset_cache h f = record f { cache = f.methods; cached_hierarchy = h }

  unfoldable pub contains : K → List K → Bool
  contains k [] = false
  contains k (j ∷ ks) = ite (dec j k) true (contains k ks)

  unfoldable pub has_preference : MultiFunction → K → K → Bool
  has_preference f preferred other = elim (get dec preferred f.prefers) [
    | none ↦ false
    | some others ↦ contains other others
  ]

  unfoldable pub precedes : H → MultiFunction → K → K → Bool
  precedes h f tag parent = has_preference f tag parent || tree.isa h tag parent

  -- whether the method of `k` takes the place of the best one so far
  unfoldable pub is_better : H → MultiFunction → K → Option (K × V) → Bool
  is_better h f k none = true
  is_better h f k (some best) = tree.is_nil best.0 || precedes h f k best.0

  -- `if not self._precedes(best_key, method_key): raise ...`
  unfoldable pub confirm : H → MultiFunction → K → K × V → Result (Option (K × V))
  confirm h f k best = if precedes h f best.0 k then ok (some best) else raise ambiguous

  -- the body of the loop of `_find_and_cache_method` for the method `v` of `k`
  unfoldable pub consider : H → MultiFunction → K → K → V → Option (K × V) → Result (Option (K × V))
  consider h f key k v none = if tree.isa h key k then confirm h f k (k, v) else ok none
  consider h f key k v (some best) =
      if tree.isa h key k
      then confirm h f k (if is_better h f k (some best) then (k, v) else best)
      else ok (some best)

  unfoldable pub pick : H → MultiFunction → K → Dict K V → Option (K × V) → Result (Option (K × V))
  pick h f key [] best = ok best
  pick h f key ((k, v) ∷ methods) best = elim (consider h f key k v best) [
    | raise e ↦ raise e
    | ok best' ↦ pick h f key methods best'
  ]

  -- the method that `_find_and_cache_method` finds
  unfoldable pub search : H → MultiFunction → K → Result (Option V)
  search h f key = elim (pick h f key (items f.methods) none) [
    | raise e ↦ raise e
    | ok best ↦ elim best [ some b ↦ ok (some b.1) | none ↦ ok (val_at f.methods f.default) ]
  ]

  unfoldable pub find_and_cache_method : H → MultiFunction → K → Result (Option V) × MultiFunction
  find_and_cache_method h f key = elim (search h f key) [
    | raise e ↦ (raise e, f)
    | ok none ↦ (ok none, f)
    | ok (some v) ↦ (ok (some v), record f { cache = assoc f.cache key v })
  ]

  -- `get_method` on a cache that is of the hierarchy
  unfoldable pub get_cached : H → MultiFunction → K → Result (Option V) × MultiFunction
  get_cached h f key = elim (val_at f.cache key) [
    | some v ↦ (ok (some v), f)
    | none ↦ find_and_cache_method h f key
  ]

  unfoldable pub get_method : H → MultiFunction → K → Result (Option V) × MultiFunction
  get_method h f key = get_cached h (ite (dec_h f.cached_hierarchy h) f (reset_cache h f)) key

  -- `__call__` up to the call of the method, for the value `key` of the dispatch function
  unfoldable pub dispatch_method : H → MultiFunction → K → Result V × MultiFunction
  dispatch_method h f key =
      let (found, f') = get_method h f key in
      elim found [
        | raise e ↦ (raise e, f')
        | ok none ↦ (raise not_implemented, f')
        | ok (some v) ↦ (ok v, f')
      ]

  unfoldable pub add_method : H → MultiFunction → K → V → MultiFunction
  add_method h f key method = reset_cache h (record f { methods = assoc f.methods key method })

  unfoldable pub prefer_method : H → MultiFunction → K → K → Result (Unit {0}) × MultiFunction
  prefer_method h f preferred other =
      let existing = elim (get dec preferred f.prefers) as (λ _. List K) [
        | none ↦ []
        | some ks ↦ ks
      ] in
      let extended = if contains other existing then existing else other ∷ existing in
      if has_preference f other preferred
      then (raise conflicting_preference, f)
      else (ok tt, reset_cache h (record f { prefers = put dec preferred extended f.prefers }))

  unfoldable pub remove_method : H → MultiFunction → K → Option V × MultiFunction
  remove_method h f key = elim (val_at f.methods key) [
    | none ↦ (none, reset_cache h f)
    | some v ↦ (some v, reset_cache h (record f { methods = dissoc f.methods key }))
  ]

  unfoldable pub remove_all_methods : H → MultiFunction → MultiFunction
  remove_all_methods h f = reset_cache h (record f { methods = m.empty; prefers = [] })
