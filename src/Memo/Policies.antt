-- ===== src/Memo/Policies.antt =====
-- The caches of src/basilisp/core_cache.py that src/basilisp/core_memoize.py memoizes over: a basic
-- cache (`memo`) and one that drops what was used least recently (`lru`).
use baisilisp.Base.{
  ◌≡◌, ◌+◌, if_pos, if_neg, refl, sym, ap, ◌∙◌, ◌⊎◌, inl, inr, Bool, true, false, none, some,
  is_some, ite, Option-cases, leb, if◌then◌else◌, length,
}
use baisilisp.Base.Dict.{Dict, pop_by}
use baisilisp.Cache.Map.{MapOps, MapLaws}
use baisilisp.Cache.Fifo.{cache_has, cache_lookup, basic_miss, basic_evict}
use baisilisp.Cache.Lru.{Lru, lru_hit, lru_miss, lru_evict, lru_seed, victim}
use baisilisp.Memo.{Delay, CacheOps}
use baisilisp.Memo.Right.{IsItem, CacheLaws, some_value, not_some}

module _ {K V : Type 0} (m : MapOps K (Delay V)) (dec : Discrete K) where
  -- the cache of `memo`
  abbrev pub basic_ops : CacheOps m.Map K V
  basic_ops = record {
    has = cache_has m;
    lookup = λ c k. cache_lookup m c k none;
    hit = λ c k. c;
    miss = basic_miss m;
    evict = basic_evict m;
    seed = λ c base. m.from_coll base;
  }

  -- the cache of `lru`, over a dict of ticks with the equality `eq`
  abbrev pub lru_ops : (eq : K → K → Bool) → CacheOps (Lru m eq) K V
  lru_ops eq = record {
    has = λ c k. cache_has m c.base k;
    lookup = λ c k. cache_lookup m c.base k none;
    hit = lru_hit m eq;
    miss = lru_miss m eq;
    evict = lru_evict m eq;
    seed = λ c base. lru_seed m eq c (m.from_coll base);
  }

  module _ (laws : MapLaws dec m)
      (from_law : (base : Dict K (Delay V)) (k : K) (d : Delay V)
        → m.val_at (m.from_coll base) k ≡ some d
        → IsItem k d base) where
    lookup_val : (a : m.Map) (k : K) → cache_lookup m a k none ≡ m.val_at a k
    unfolding cache_lookup
    lookup_val a k = elim (Option-cases (m.val_at a k)) [
      | inl e ↦ rw (e, cache_lookup) refl
      | inr (d, e) ↦ rw (e, cache_lookup) refl
    ]

    has-lookup_val : (a : m.Map) (k : K) → cache_has m a k ≡ is_some (cache_lookup m a k none)
    unfolding cache_has
    has-lookup_val a k = sym (ap is_some (lookup_val a k))

    assoc_found : (a : m.Map) (k : K) (d : Delay V) → cache_lookup m (m.assoc a k d) k none ≡ some d
    assoc_found a k d =
        lookup_val (m.assoc a k d) k ∙ laws.val_at-assoc a k k d ∙ if_pos (dec k k) refl _ _

    assoc_other :
        (a : m.Map) (k j : K) (d e : Delay V)
        → cache_lookup m (m.assoc a k d) j none ≡ some e
        → ((j ≡ k) × (e ≡ d)) ⊎ (cache_lookup m a j none ≡ some e)
    assoc_other a k j d e h =
        let q : ite (dec k j) (some d) (m.val_at a j) ≡ some e =
          sym (laws.val_at-assoc a k j d) ∙ sym (lookup_val (m.assoc a k d) j) ∙ h in
        let l = lookup_val a j in
        elim (dec k j) [
          | yes p ↦ inl (sym p, some_value e d (sym (sym (if_pos (dec k j) p _ _) ∙ q)))
          | no p ↦ inr (l ∙ sym (if_neg (dec k j) p _ _) ∙ q)
        ]

    dissoc_kept :
        (a : m.Map) (k j : K) (e : Delay V)
        → cache_lookup m (m.dissoc a k) j none ≡ some e
        → cache_lookup m a j none ≡ some e
    dissoc_kept a k j e h =
        let q : ite (dec k j) none (m.val_at a j) ≡ some e =
          sym (laws.val_at-dissoc a k j) ∙ sym (lookup_val (m.dissoc a k) j) ∙ h in
        let l = lookup_val a j in
        elim (dec k j) [
          | yes p ↦ absurd (not_some e (sym (if_pos (dec k j) p _ _) ∙ q))
          | no p ↦ l ∙ sym (if_neg (dec k j) p _ _) ∙ q
        ]

    pub basic_ops-CacheLaws : CacheLaws basic_ops
    unfolding basic_miss basic_evict
    basic_ops-CacheLaws = record {
      has-lookup = has-lookup_val;
      lookup-hit = λ c k j. refl;
      miss_found = assoc_found;
      lookup-miss = assoc_other;
      lookup-evict = dissoc_kept;
      lookup-seed = λ c base j e h. from_law base j e (sym (lookup_val (m.from_coll base) j) ∙ h);
    }

    -- the map of a cache from which a miss may drop a key
    dropped_kept :
        (full : Bool) (a : m.Map) (k j : K) (e : Delay V)
        → cache_lookup m (if full then m.dissoc a k else a) j none ≡ some e
        → cache_lookup m a j none ≡ some e
    dropped_kept true a k j e h = dissoc_kept a k j e h
    dropped_kept false a k j e h = h

    evict_kept :
        (eq : K → K → Bool) (present : Bool) (c : Lru m eq) (k j : K) (e : Delay V)
        → cache_lookup m
            (if present
              then record c { base = m.dissoc c.base k; lru = pop_by eq k c.lru; tick = c.tick + 1 }
              else c).base
            j
            none
          ≡ some e
        → cache_lookup m c.base j none ≡ some e
    evict_kept eq true c k j e h = dissoc_kept c.base k j e h
    evict_kept eq false c k j e h = h

    pub lru_ops-CacheLaws : (eq : K → K → Bool) → CacheLaws (lru_ops eq)
    unfolding lru_hit lru_miss lru_evict lru_seed
    lru_ops-CacheLaws eq = record {
      has-lookup = λ c. has-lookup_val c.base;
      lookup-hit = λ c k j. refl;
      miss_found = λ c k d.
          assoc_found
            (if leb c.limit (length c.lru) then m.dissoc c.base (victim m eq c k) else c.base) k d;
      lookup-miss = λ c k j d e h.
          let full = leb c.limit (length c.lru) in
          let old = victim m eq c k in
          elim (assoc_other (if full then m.dissoc c.base old else c.base) k j d e h) [
            | inl same ↦ inl same
            | inr there ↦ inr (dropped_kept full c.base old j e there)
          ];
      lookup-evict = λ c k j e h. evict_kept eq (is_some (m.val_at c.base k)) c k j e h;
      lookup-seed = λ c base j e h. from_law base j e (sym (lookup_val (m.from_coll base) j) ∙ h);
    }
