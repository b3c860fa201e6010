-- ===== src/Cache/Mapping.antt =====
-- The methods that make a `PersistentCache` of src/basilisp/core_cache.py look like a map. They call
-- the operations of the cache's policy.
use baisilisp.Base.{
  ◌≡◌, Bool, Option, none, some, List, [], ◌∷◌, ◌≤◌, if◌then◌else◌, arith, length, true, ◌↔◌,
}
use baisilisp.Cache.Map.{MapOps, MapLaws}
use mathlib.Core.Path.{subst}
use baisilisp.Cache.Fifo.{cache_has, cache_lookup}
use baisilisp.Cache.Lru.{Lru, lru_miss, lru_evict}
use baisilisp.Cache.Lru.Bounds.{IsSynced, lru_miss-IsSynced, lru_evict-IsSynced}

-- What a policy defines, for caches `C`.
pub record Policy (C K V : Type 0) : Type 0 where
  pub has : C → K → Bool
  pub lookup : C → K → Option V → Option V
  pub miss : C → K → V → C
  pub evict : C → K → C

module _ {C K V : Type 0} (policy : Policy C K V) where
  -- `__getitem__`; `none` is the `KeyError`, and a default of `none` is `None`.
  unfoldable pub get_item : C → K → Option (Option V)
  get_item c item = if policy.has c item then some (policy.lookup c item none) else none

  unfoldable pub entry : C → K → Option (K × Option V)
  entry c key = if policy.has c key then some (key, policy.lookup c key none) else none

  unfoldable pub assoc_pairs : C → List (K × V) → C
  assoc_pairs c [] = c
  assoc_pairs c ((k, v) ∷ kvs) = assoc_pairs (policy.miss c k v) kvs

  -- `assoc`, of pairs and maybe a last key without a value; `none` is the `ValueError`.
  unfoldable pub assoc_args : C → List (K × V) → Option K → Option C
  assoc_args c kvs (some k) = none
  assoc_args c kvs none = some (assoc_pairs c kvs)

  unfoldable pub dissoc_args : C → List K → C
  dissoc_args c [] = c
  dissoc_args c (k ∷ ks) = dissoc_args (policy.evict c k) ks

module _ {K V : Type 0} (m : MapOps K V) (eq : K → K → Bool) where
  -- The operations of `LRUCache`, whose look-ups are those of every cache.
  abbrev pub lru_policy : Policy (Lru m eq) K V
  lru_policy = record {
    has = λ c item. cache_has m c.base item;
    lookup = λ c item not_found. cache_lookup m c.base item not_found;
    miss = lru_miss m eq;
    evict = lru_evict m eq;
  }

module _ {K V : Type 0} (m : MapOps K V) (eq : K → K → Bool) (dec : Discrete K)
    (laws : MapLaws dec m) (agrees : (j k : K) → eq j k ≡ true ↔ j ≡ k) where
  assoc_pairs-IsSynced :
      (kvs : List (K × V)) (c : Lru m eq)
      → IsSynced m eq dec laws agrees c
      → IsSynced m eq dec laws agrees (assoc_pairs (lru_policy m eq) c kvs)
  unfolding assoc_pairs
  assoc_pairs-IsSynced [] c s = s
  assoc_pairs-IsSynced ((k, v) ∷ kvs) c s =
      assoc_pairs-IsSynced kvs (lru_miss m eq c k v)
        (lru_miss-IsSynced m eq dec laws agrees c k v s)

  dissoc_args-IsSynced :
      (ks : List K) (c : Lru m eq)
      → IsSynced m eq dec laws agrees c
      → IsSynced m eq dec laws agrees (dissoc_args (lru_policy m eq) c ks)
  unfolding dissoc_args
  dissoc_args-IsSynced [] c s = s
  dissoc_args-IsSynced (k ∷ ks) c s =
      dissoc_args-IsSynced ks (lru_evict m eq c k) (lru_evict-IsSynced m eq dec laws agrees c k s)

  -- If the map and the ticks of an LRU cache are in step and within the limit: after it is given any
  -- pairs by `assoc` and loses any keys by `dissoc`, the map has no more keys than the limit.
  pub lru_updates-bounded :
      (c out : Lru m eq) (kvs : List (K × V)) (ks : List K)
      → IsSynced m eq dec laws agrees c
      → assoc_args (lru_policy m eq) c kvs none ≡ some out
      → length (m.items (dissoc_args (lru_policy m eq) out ks).base)
        ≤ (dissoc_args (lru_policy m eq) out ks).limit
  unfolding assoc_args
  lru_updates-bounded c out kvs ks s h =
      let same : assoc_pairs (lru_policy m eq) c kvs ≡ out = cc in
      let kept =
        dissoc_args-IsSynced ks out
          (subst (IsSynced m eq dec laws agrees) same (assoc_pairs-IsSynced kvs c s)) in
      omega (arith, kept.same_size, kept.within)
