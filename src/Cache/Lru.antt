-- ===== src/Cache/Lru.antt =====
-- `LRUCache` of src/basilisp/core_cache.py. `eq` is the equality of the dict of ticks, Python's `==`; the
-- map `m` finds its keys by an equality of its own. They differ where two equal numbers of different types
-- (1, 1.0 and True) are keys.
pub mod Bounds
pub mod Policy
use baisilisp.Base.{
  ℕ, zero, suc, ◌+◌, Bool, true, false, Option, none, some, List, [], ◌∷◌, is_some, length, leb,
  ltb, if◌then◌else◌,
}
use baisilisp.Base.Dict.{Dict, get_by, put_by, pop_by, keys}
use baisilisp.Cache.Map.{MapOps}
use baisilisp.Cache.Fifo.{Result, ok, raise, threshold_not_positive, ◌>>=◌}

-- `min(table, key=table.__getitem__)`: the first key among those with the least number.
unfoldable pub oldest_from : {K : Type 0} → K → ℕ → Dict K ℕ → K
oldest_from k n [] = k
oldest_from k n ((j, i) ∷ d) = oldest_from (if ltb i n then j else k) (if ltb i n then i else n) d

-- `none` is the `ValueError` of an empty table.
unfoldable pub oldest : {K : Type 0} → Dict K ℕ → Option K
oldest [] = none
oldest ((k, n) ∷ d) = some (oldest_from k n d)

-- `{key: 0 for key in base}`
unfoldable pub zeros : {K V : Type 0} → Dict K V → Dict K ℕ
zeros [] = []
zeros ((k, v) ∷ d) = (k, 0) ∷ zeros d

module _ {K V : Type 0} (m : MapOps K V) (eq : K → K → Bool) where
  open m use {Map, val_at, assoc, dissoc, items}

  pub record Lru : Type 0 where
    pub base : Map
    pub lru : Dict K ℕ
    pub tick : ℕ
    pub limit : ℕ

  unfoldable pub make_lru : Map → Dict K ℕ → ℕ → ℕ → Result Lru
  make_lru base lru tick limit =
      if leb limit 0
      then raise threshold_not_positive
      else ok (record { base = base; lru = lru; tick = tick; limit = limit })

  unfoldable pub lru_hit : Lru → K → Lru
  lru_hit c item =
      let tick = c.tick + 1 in
      record c {
        lru = if is_some (val_at c.base item) then put_by eq item tick c.lru else c.lru;
        tick = tick;
      }

  -- the key that a miss drops from a full cache
  unfoldable pub victim : Lru → K → K
  victim c item =
      if is_some (get_by eq item c.lru)
      then item
      else elim (oldest c.lru) [ some k ↦ k | none ↦ item ]

  unfoldable pub lru_miss : Lru → K → V → Lru
  lru_miss c item result =
      let tick = c.tick + 1 in
      let full = leb c.limit (length c.lru) in
      let base = if full then dissoc c.base (victim c item) else c.base in
      let lru = if full then pop_by eq (victim c item) c.lru else c.lru in
      record c { base = assoc base item result; lru = put_by eq item tick lru; tick = tick }

  unfoldable pub lru_evict : Lru → K → Lru
  lru_evict c item =
      if is_some (val_at c.base item)
      then record c { base = dissoc c.base item; lru = pop_by eq item c.lru; tick = c.tick + 1 }
      else c

  unfoldable pub lru_seed : Lru → Map → Lru
  lru_seed c base = record c { base = base; lru = zeros (items base); tick = 0 }

  unfoldable pub lru_cache_factory : Map → ℕ → Result Lru
  lru_cache_factory base threshold = do c ← make_lru m.empty [] 0 threshold; ok (lru_seed c base)
