-- ===== src/Cache/Ttl/Expiry.antt =====
-- How long `TTLCacheQ` of src/basilisp/core_cache.py finds what a miss stored, and the numbers that
-- it never finds.
use baisilisp.Base.{ℕ, ◌+◌, ◌≡◌, false, Option, some, ltb, if◌then◌else◌, arith}
use baisilisp.Base.Dict.{get-put_self}
use baisilisp.Cache.Map.{MapOps, MapLaws}
use baisilisp.Cache.Ttl.{Ttl, ttl_lookup, ttl_miss, dissoc_all, prune, without}

module _ {K V : Type 0} (m : MapOps K V) (dec : Discrete K) (laws : MapLaws dec m) where
  stored : (a : m.Map) (k : K) (v : V) → m.val_at (m.assoc a k v) k ≡ some v
  stored a k v = ground (arith, laws.val_at-assoc a k k v)

  -- A key that is stored without a wrapper is found from the miss that stores it, at `now`, until
  -- the time to live is over, and then no longer, whatever was in the cache before.
  pub ttl-expiry :
      (c : Ttl m dec) (item : K) (result : V) (not_found : Option V) (now later : ℕ)
      → m.is_wrapped item ≡ false
      → ttl_lookup m dec (ttl_miss m dec c item result now) item not_found later
        ≡ (if ltb later (now + c.ttl_ms) then some result else not_found)
  unfolding ttl_lookup ttl_miss
  ttl-expiry c item result not_found now later plain =
      let base = dissoc_all m dec c.base (prune m dec c.ttl c.ttl_ms now c.q).0 in
      let ttl = without m dec c.ttl (prune m dec c.ttl c.ttl_ms now c.q).0 in
      ground (
        arith,
        plain,
        get-put_self dec item (c.gen, now) ttl,
        laws.raw_get_lem (m.assoc base item result) item,
        stored base item result,
      )
