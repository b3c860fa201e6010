-- ===== src/Cache/Lru/Bounds.antt =====
-- `LRUCache` of src/basilisp/core_cache.py: the map and the table of ticks hold the same keys, and
-- never more than the limit.
use mathlib.Core.Path.{subst}
use baisilisp.Base.{
  Option-cases, ◌⊎◌, ℕ, ◌+◌, ◌≤◌, ◌<◌, ◌≡◌, sym, ◌∙◌, true, some, [], ◌∷◌, is_some, length, leb,
  arith, Bool-cases, Bool, ◌↔◌, inl, inr,
}
use baisilisp.Base.Dict.{
  Dict, get, get_by-get, put, pop, put_by, put_by-put, pop_by, pop_by-pop, Distinct, put-Distinct,
  get-put, get-pop,
}
use baisilisp.Base.Counted.{length-put, length-pop, pop-Distinct}
use baisilisp.Cache.Map.{MapOps, MapLaws}
use baisilisp.Cache.Lru.{Lru, lru_hit, lru_miss, lru_evict, victim, oldest, oldest_from}

module _ {K : Type 0} (dec : Discrete K) where
  oldest_from_known :
      (k : K) (n : ℕ) (d : Dict K ℕ) → is_some (get dec (oldest_from k n d) ((k, n) ∷ d)) ≡ true
  unfolding oldest_from get
  oldest_from_known k n [] = ground arith
  oldest_from_known k n ((j, i) ∷ d) =
      ground (arith, oldest_from_known j i d, oldest_from_known k n d)

  -- The key that `min` picks is in the table.
  pub oldest_known : (d : Dict K ℕ) (k : K) → oldest d ≡ some k → is_some (get dec k d) ≡ true
  unfolding oldest
  oldest_known [] k h = cc
  oldest_known ((j, i) ∷ d) k h =
      let same : oldest_from j i d ≡ k = ground arith in
      subst (λ x. is_some (get dec x ((j, i) ∷ d)) ≡ true) same (oldest_from_known j i d)

module _ {K V : Type 0} (m : MapOps K V) (eq : K → K → Bool) (dec : Discrete K)
    (laws : MapLaws dec m) (agrees : (j k : K) → eq j k ≡ true ↔ j ≡ k) where
  open m use {val_at, items}

  pub record IsSynced (c : Lru m eq) : Type 0 where
    pub same_keys : (k : K) → is_some (val_at c.base k) ≡ is_some (get dec k c.lru)
    pub once : Distinct dec c.lru
    pub same_size : length (items c.base) ≡ length c.lru
    pub within : length c.lru ≤ c.limit
    pub positive : 0 < c.limit

  -- What `d[k] = v` and `d.pop(k)` do to the dict of ticks.
  put_ticks : (k : K) (n : ℕ) (d : Dict K ℕ) → put_by eq k n d ≡ put dec k n d
  put_ticks = put_by-put eq dec agrees

  pop_ticks : (k : K) (d : Dict K ℕ) → pop_by eq k d ≡ pop dec k d
  pop_ticks = pop_by-pop eq dec agrees

  -- If the map and the ticks are in step and within the limit, a hit keeps them so.
  pub lru_hit-IsSynced : (c : Lru m eq) (item : K) → IsSynced c → IsSynced (lru_hit m eq c item)
  unfolding lru_hit
  lru_hit-IsSynced c item s = elim (Bool-cases (is_some (val_at c.base item))) [
    | inr e ↦
        rw (e, lru_hit)
          (record {
            same_keys = s.same_keys;
            once = s.once;
            same_size = s.same_size;
            within = s.within;
            positive = s.positive;
          })
    | inl e ↦
        let here : is_some (get dec item c.lru) ≡ true = sym (s.same_keys item) ∙ e in
        rw (e, lru_hit)
          (record {
            same_keys = λ k.
                s.same_keys k
                ∙ rw (put_ticks item (c.tick + 1) c.lru)
                    (ground (arith, get-put dec item k (c.tick + 1) c.lru, here));
            once =
                rw (put_ticks item (c.tick + 1) c.lru)
                  (put-Distinct dec item (c.tick + 1) c.lru s.once);
            same_size =
                s.same_size
                ∙ rw (put_ticks item (c.tick + 1) c.lru)
                    (ground (arith, length-put dec item (c.tick + 1) c.lru, here));
            within =
                rw (put_ticks item (c.tick + 1) c.lru)
                  (ground (arith, length-put dec item (c.tick + 1) c.lru, here, s.within));
            positive = s.positive;
          })
  ]

  -- A cache whose table has room for the item, or holds it.
  record HasRoom (c : Lru m eq) (item : K) : Type 0 where
    synced : IsSynced c
    room : (is_some (get dec item c.lru) ≡ true) ⊎ (length c.lru < c.limit)

  admit-IsSynced :
      (c : Lru m eq) (item : K) (result : V) (tick : ℕ)
      → HasRoom c item
      → IsSynced (record c {
        base = m.assoc c.base item result;
        lru = put_by eq item tick c.lru;
        tick = tick;
      })
  admit-IsSynced c item result tick r =
      let s = r.synced in
      record {
        same_keys = λ k. ground (
          arith,
          put_ticks item tick c.lru,
          laws.val_at-assoc c.base item k result,
          get-put dec item k tick c.lru,
          s.same_keys k,
        );
        once = rw (put_ticks item tick c.lru) (put-Distinct dec item tick c.lru s.once);
        same_size = ground (
          arith,
          put_ticks item tick c.lru,
          laws.length-assoc c.base item result,
          length-put dec item tick c.lru,
          s.same_keys item,
          s.same_size,
        );
        within =
            ground
              (arith, put_ticks item tick c.lru, length-put dec item tick c.lru, r.room, s.within);
        positive = s.positive;
      }

  -- Dropping a known key makes room.
  drop-HasRoom :
      (c : Lru m eq) (k item : K)
      → IsSynced c
      → is_some (get dec k c.lru) ≡ true
      → HasRoom (record c { base = m.dissoc c.base k; lru = pop_by eq k c.lru }) item
  drop-HasRoom c k item s known = record {
    synced = record {
      same_keys = λ j. ground (
        arith,
        pop_ticks k c.lru,
        laws.val_at-dissoc c.base k j,
        get-pop dec k j c.lru,
        s.same_keys j,
      );
      once = rw (pop_ticks k c.lru) (pop-Distinct dec k c.lru s.once);
      same_size = ground (
        arith,
        laws.length-dissoc c.base k,
        pop_ticks k c.lru,
        length-pop dec k c.lru s.once,
        s.same_keys k,
        s.same_size,
        known,
      );
      within = ground (arith, pop_ticks k c.lru, length-pop dec k c.lru s.once, s.within, known);
      positive = s.positive;
    };
    room = inr (ground (arith, pop_ticks k c.lru, length-pop dec k c.lru s.once, s.within, known));
  }

  -- The victim of a full cache is one of its keys.
  pub victim_known :
      (c : Lru m eq) (item : K)
      → IsSynced c
      → leb c.limit (length c.lru) ≡ true
      → is_some (get dec (victim m eq c item) c.lru) ≡ true
  unfolding victim oldest
  victim_known c item s full = elim (Bool-cases (is_some (get dec item c.lru))) [
    | inl e ↦ rw (get_by-get eq dec agrees item c.lru, e, victim) e
    | inr e ↦ elim (Option-cases (oldest c.lru)) [
      | inl f ↦ ground (arith, s.positive, f)
      | inr (k, f) ↦
          rw (get_by-get eq dec agrees item c.lru, e, f, victim) (oldest_known dec c.lru k f)
    ]
  ]

  -- If the map and the ticks are in step and within the limit, a miss keeps them so.
  pub lru_miss-IsSynced :
      (c : Lru m eq) (item : K) (result : V) → IsSynced c → IsSynced (lru_miss m eq c item result)
  unfolding lru_miss
  lru_miss-IsSynced c item result s = elim (Bool-cases (leb c.limit (length c.lru))) [
    | inl full ↦
        rw (full, lru_miss)
          (admit-IsSynced _ item result (c.tick + 1)
            (drop-HasRoom c (victim m eq c item) item s (victim_known c item s full)))
    | inr room ↦
        rw (room, lru_miss)
          (admit-IsSynced c item result (c.tick + 1)
            (record { synced = s; room = inr (ground (arith, room)) }))
  ]

  -- If the map and the ticks are in step and within the limit, an evict keeps them so.
  pub lru_evict-IsSynced : (c : Lru m eq) (item : K) → IsSynced c → IsSynced (lru_evict m eq c item)
  unfolding lru_evict
  lru_evict-IsSynced c item s = elim (Bool-cases (is_some (val_at c.base item))) [
    | inr e ↦ rw (e, lru_evict) s
    | inl e ↦
        let dropped = (drop-HasRoom c item item s (sym (s.same_keys item) ∙ e)).synced in
        rw (e, lru_evict)
          (record {
            same_keys = dropped.same_keys;
            once = dropped.once;
            same_size = dropped.same_size;
            within = dropped.within;
            positive = s.positive;
          })
  ]
