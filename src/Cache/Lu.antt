-- ===== src/Cache/Lu.antt =====
-- `LUCache` of src/basilisp/core_cache.py, and the operations on an atom that holds a cache, with
-- this policy in it.
use baisilisp.Base.{ℕ, ◌+◌, Option, none, some, [], is_some, length, leb, if◌then◌else◌}
use baisilisp.Base.Dict.{Dict, get, put, pop}
use baisilisp.Cache.Map.{MapOps}
use baisilisp.Cache.Fifo.{Result, ok, raise, threshold_not_positive, key_error, ◌>>=◌}
use baisilisp.Cache.Lru.{oldest, zeros}

module _ {K V : Type 0} (m : MapOps K V) (dec : Discrete K) where
  open m use {Map, val_at, assoc, dissoc, items}

  pub record Lu : Type 0 where
    pub base : Map
    pub lu : Dict K ℕ
    pub limit : ℕ

  unfoldable pub make_lu : Map → Dict K ℕ → ℕ → Result Lu
  make_lu base lu limit =
      if leb limit 0
      then raise threshold_not_positive
      else ok (record { base = base; lu = lu; limit = limit })

  -- `lu[item] = lu[item] + 1` raises on a key that was never counted.
  unfoldable pub lu_hit : Lu → K → Result Lu
  lu_hit c item = elim (get dec item c.lu) [
    | none ↦ raise key_error
    | some n ↦ ok (record c { lu = put dec item (n + 1) c.lu })
  ]

  unfoldable pub lu_victim : Lu → K → K
  lu_victim c item =
      if is_some (get dec item c.lu) then item else elim (oldest c.lu) [ some k ↦ k | none ↦ item ]

  -- `lu.get(item, 0)`
  unfoldable pub uses : K → Dict K ℕ → ℕ
  uses item lu = elim (get dec item lu) [ none ↦ 0 | some n ↦ n ]

  unfoldable pub lu_miss : Lu → K → V → Lu
  lu_miss c item result =
      let full = leb c.limit (length c.lu) in
      let base = if full then dissoc c.base (lu_victim c item) else c.base in
      let lu = if full then pop dec (lu_victim c item) c.lu else c.lu in
      record c { base = assoc base item result; lu = put dec item (uses item lu + 1) lu }

  unfoldable pub lu_evict : Lu → K → Lu
  lu_evict c item =
      if is_some (val_at c.base item)
      then record c { base = dissoc c.base item; lu = pop dec item c.lu }
      else c

  unfoldable pub lu_seed : Lu → Map → Lu
  lu_seed c base = record c { base = base; lu = zeros (items base) }

  unfoldable pub lu_cache_factory : Map → ℕ → Result Lu
  lu_cache_factory base threshold = do c ← make_lu m.empty [] threshold; ok (lu_seed c base)

  -- `wrapped_lookup_or_miss` and `wrapped_through`, which hold the lock of the atom throughout:
  -- `value item` is `wrap_fn(value_fn, item)`, and an exception leaves the cache as it was.
  unfoldable pub lookup_or_miss : (K → Result V) → K → Lu → Result (Option V) × Lu
  lookup_or_miss value item c =
      if is_some (val_at c.base item) then (ok (val_at c.base item), c) else elim (value item) [
        | raise e ↦ (raise e, c)
        | ok v ↦ (ok (val_at (lu_miss c item v).base item), lu_miss c item v)
      ]

  unfoldable pub through : (K → Result V) → K → Lu → Result Lu × Lu
  through value item c =
      let updated : Result Lu =
        (if is_some (val_at c.base item)
          then lu_hit c item
          else (do v ← value item; ok (lu_miss c item v))) in
      elim updated [ raise e ↦ (raise e, c) | ok c' ↦ (ok c', c') ]
