-- ===== src/Cache/Fifo.antt =====
-- `PersistentCache`, `FnCache` and `FIFOCache` of src/basilisp/core_cache.py.
pub mod Bounds
use baisilisp.Base.{
  ℕ, zero, suc, ◌-◌, Bool, true, false, Option, none, some, List, [], ◌∷◌, ◌++◌, is_some, length,
  leb, replicate, drop, keep, ite, if◌then◌else◌, map,
}
use baisilisp.Base.Dict.{Dict, keys}
use baisilisp.Cache.Map.{MapOps}

pub data Error : Type 0 where
  threshold_not_positive negative_ttl key_error empty_min odd_arguments soft_cache not_an_atom
        not_a_cache :
      Error
  user : ℕ → Error

pub data Result {ℓ} (A : Type ℓ) : Type ℓ where
  ok : A → Result A
  raise : Error → Result A

infixl 5 ◌>>=◌
abbrev pub ◌>>=◌ {ℓ κ} : {A : Type ℓ} {B : Type κ} → Result A → (A → Result B) → Result B
ok a >>= f = f a
raise e >>= f = raise e

-- An entry of the queue: `_FREE`, or a key.
pub data Slot (K : Type 0) : Type 0 where
  free : Slot K
  taken : K → Slot K

module _ {K V : Type 0} (m : MapOps K V) where
  open m use {Map, val_at, raw_get, assoc, dissoc, items, from_coll}

  -- `PersistentCache`, which is also `BasicCache`: the map itself. `none` as the default is the
  -- missing argument.
  unfoldable pub cache_lookup : Map → K → Option V → Option V
  cache_lookup c item not_found = elim (val_at c item) [ some v ↦ some v | none ↦ not_found ]

  unfoldable pub cache_has : Map → K → Bool
  cache_has c item = is_some (val_at c item)

  unfoldable pub basic_miss : Map → K → V → Map
  basic_miss c item result = assoc c item result

  unfoldable pub basic_evict : Map → K → Map
  basic_evict c item = dissoc c item

  -- `FnCache.cache_lookup`, which looks the item up as it is
  unfoldable pub fn_lookup : (V → V) → Map → K → Option V → Option V
  fn_lookup f c item not_found = elim (raw_get c item) [ none ↦ not_found | some v ↦ some (f v) ]

  pub record Fifo : Type 0 where
    pub base : Map
    pub q : List (Slot K)
    pub limit : ℕ

  -- `FIFOCache.__init__`
  unfoldable pub make_fifo : Map → List (Slot K) → ℕ → Result Fifo
  make_fifo base q limit =
      if leb limit 0
      then raise threshold_not_positive
      else ok (record { base = base; q = q; limit = limit })

  -- `self._q or (_FREE,) * self._limit`
  unfoldable pub queue_of : Fifo → List (Slot K)
  queue_of c = elim c.q [ [] ↦ replicate c.limit free | s ∷ rest ↦ s ∷ rest ]

  unfoldable pub dissoc_slot : Map → Slot K → Map
  dissoc_slot base free = base
  dissoc_slot base (taken k) = dissoc base k

  -- what `cache_miss` does with the head of the queue and the rest
  unfoldable pub admit : Fifo → K → V → Slot K → List (Slot K) → Fifo
  unfolding dissoc_slot
  admit c item result head rest =
      let base = if leb c.limit (length (items c.base)) then dissoc_slot c.base head else c.base in
      record c { base = assoc base item result; q = rest ++ taken item ∷ [] }

  -- `FIFOCache.cache_miss`; the limit is positive, so the queue has a head
  unfoldable pub fifo_miss : Fifo → K → V → Fifo
  fifo_miss c item result = elim (queue_of c) [
    | [] ↦ c
    | head ∷ rest ↦ admit c item result head rest
  ]

  module _ (dec : Discrete K) where
    -- `entry != item`
    unfoldable pub is_other : K → Slot K → Bool
    is_other item free = true
    is_other item (taken k) = ite (dec k item) false true

    unfoldable pub fifo_evict : Fifo → K → Fifo
    unfolding is_other
    fifo_evict c item =
        if is_some (val_at c.base item)
        then record c { base = dissoc c.base item; q = free ∷ keep (is_other item) c.q }
        else c

  unfoldable pub fifo_seed : Fifo → Map → Fifo
  fifo_seed c base =
      let entries = items base in
      let keeping = drop (length entries - c.limit) entries in
      record c {
        base = from_coll keeping;
        q = replicate (c.limit - length keeping) free ++ map taken (keys keeping);
      }

  -- `fifo_cache_factory`
  unfoldable pub fifo_cache_factory : Map → ℕ → Result Fifo
  fifo_cache_factory base threshold = do c ← make_fifo m.empty [] threshold; ok (fifo_seed c base)
