-- ===== src/Cache/Map.antt =====
-- The persistent maps under the caches of src/basilisp/core_cache.py, as an interface: what
-- src/basilisp/lang/map.py offers of the hash array mapped trie of the package `immutables`.
use baisilisp.Base.{suc, ◌≡◌, Bool, Option, none, some, is_some, length, ite, if◌then◌else◌}
use baisilisp.Base.Dict.{Dict}

-- `Key` are the values of the program up to their equality. A number is stored under a wrapper, so
-- `is_wrapped` says for which keys `equivalence_key` gives something other than the key itself.
pub record MapOps (K V : Type 0) : Type 1 where
  pub Map : Type 0
  pub is_wrapped : K → Bool
  pub empty : Map
  -- `_inner.get(equivalence_key(k))`, as in `val_at` and `contains`
  pub val_at : Map → K → Option V
  -- `_inner.get(k)`, without the wrapper
  pub raw_get : Map → K → Option V
  pub assoc : Map → K → V → Map
  pub dissoc : Map → K → Map
  -- `items()`, in the order of the trie
  pub items : Map → Dict K V
  pub from_coll : Dict K V → Map

-- What is documented of them.
pub record MapLaws {K V : Type 0} (dec : Discrete K) (m : MapOps K V) : Type 0 where
  pub val_at-empty : (k : K) → m.val_at m.empty k ≡ none
  pub val_at-assoc :
      (a : m.Map) (k j : K) (v : V)
      → m.val_at (m.assoc a k v) j ≡ ite (dec k j) (some v) (m.val_at a j)
  pub val_at-dissoc :
      (a : m.Map) (k j : K) → m.val_at (m.dissoc a k) j ≡ ite (dec k j) none (m.val_at a j)
  pub raw_get_lem :
      (a : m.Map) (k : K) → m.raw_get a k ≡ (if m.is_wrapped k then none else m.val_at a k)
  pub length-assoc :
      (a : m.Map) (k : K) (v : V)
      → length (m.items (m.assoc a k v))
        ≡ (if is_some (m.val_at a k) then length (m.items a) else suc (length (m.items a)))
  pub length-dissoc :
      (a : m.Map) (k : K)
      → (if is_some (m.val_at a k)
          then suc (length (m.items (m.dissoc a k)))
          else length (m.items (m.dissoc a k)))
        ≡ length (m.items a)
