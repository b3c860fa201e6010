-- ===== src/Cache/Lirs.antt =====
-- `LIRSCache` of src/basilisp/core_cache.py. The ticks of a seeded cache start below zero, so both
-- histories hold integers here. Keys of a fresh history are numbers too: `of_tick` is the value
-- that stands for such a number.
use baisilisp.Base.{ℕ, zero, suc, ◌+◌, ◌||◌, not, [], ◌∷◌, is_some, length, leb, ltb, if◌then◌else◌}
use baisilisp.Base.Int.{ℤ, pos, negsuc, ltb_ℤ}
use baisilisp.Base.Dict.{Dict, get, put, pop}
use baisilisp.Cache.Map.{MapOps}
use baisilisp.Cache.Fifo.{Result, ok, raise, threshold_not_positive, empty_min, ◌>>=◌}

unfoldable pub first_from : {K : Type 0} → K → ℤ → Dict K ℤ → K
first_from k n [] = k
first_from k n ((j, i) ∷ d) = first_from (if ltb_ℤ i n then j else k) (if ltb_ℤ i n then i else n) d

-- `_oldest`
unfoldable pub first : {K : Type 0} → Dict K ℤ → Result K
unfolding first_from
first [] = raise empty_min
first ((k, n) ∷ d) = ok (first_from k n d)

module _ {K V : Type 0} (m : MapOps K V) (dec : Discrete K) (of_tick : ℤ → K) where
  open m use {Map, val_at, assoc, dissoc, items}

  pub record Lirs : Type 0 where
    pub base : Map
    pub lru_s : Dict K ℤ
    pub lru_q : Dict K ℤ
    pub tick : ℕ
    pub limit_s : ℕ
    pub limit_q : ℕ

  unfoldable pub make_lirs : Map → Dict K ℤ → Dict K ℤ → ℕ → ℕ → ℕ → Result Lirs
  make_lirs base s q tick limit_s limit_q =
      if leb limit_s 0 || leb limit_q 0
      then raise threshold_not_positive
      else ok (record {
        base = base;
        lru_s = s;
        lru_q = q;
        tick = tick;
        limit_s = limit_s;
        limit_q = limit_q;
      })

  -- `_prune`: every turn takes a key out, so the length of the history is fuel enough.
  unfoldable pub prune_s : ℕ → Dict K ℤ → Dict K ℤ → Map → Dict K ℤ
  prune_s zero s q base = s
  prune_s (suc fuel) s q base = elim (first s) [
    | raise e ↦ s
    | ok k ↦
        let rest = prune_s fuel (pop dec k s) q base in
        if is_some (get dec k q) || not (is_some (val_at base k)) then rest else s
  ]

  unfoldable pub prune : Dict K ℤ → Dict K ℤ → Map → Dict K ℤ
  unfolding prune_s
  prune s q base = prune_s (length s) s q base

  -- the last branch of `cache_hit`, for an item that the S history holds: cases 2.2 and 2.1
  unfoldable pub hit_in_s : Lirs → K → ℤ → K → Dict K ℤ × Dict K ℤ
  hit_in_s c item tick oldest_s =
      if is_some (get dec item c.lru_q)
      then (let q = put dec oldest_s tick (pop dec item c.lru_q) in
          let s = put dec item tick (pop dec oldest_s c.lru_s) in (prune s q c.base, q))
      else (prune (put dec item tick c.lru_s) c.lru_q c.base, c.lru_q)

  unfoldable pub lirs_hit : Lirs → K → Result Lirs
  lirs_hit c item =
      let tick = c.tick + 1 in
      if is_some (get dec item c.lru_s)
      then (do
        oldest_s ← first c.lru_s
        let histories = hit_in_s c item (pos tick) oldest_s
        ok (record c { lru_s = histories.0; lru_q = histories.1; tick = tick }))
      else ok (record c {
        lru_s = put dec item (pos tick) c.lru_s;
        lru_q = put dec item (pos tick) c.lru_q;
        tick = tick;
      })

  -- case 1.1: the cache has room
  unfoldable pub miss_with_room : Lirs → K → V → ℕ → Result Lirs
  miss_with_room c item result tick = do
    oldest_s ← first c.lru_s
    ok (record c {
      base = assoc c.base item result;
      lru_s = put dec item (pos tick) (pop dec oldest_s c.lru_s);
      tick = tick;
    })

  -- cases 1.3 and 1.2, once the oldest entry of the Q history is dropped
  unfoldable pub miss_full : Lirs → K → ℕ → Map → Dict K ℤ → Result Lirs
  miss_full c item tick base q =
      if is_some (get dec item c.lru_s)
      then (do
        last_s ← first c.lru_s
        let s = put dec item (pos tick) (pop dec last_s c.lru_s)
        ok (record c {
          base = base;
          lru_s = prune s q base;
          lru_q = put dec last_s (pos tick) q;
          tick = tick;
        }))
      else ok (record c {
        base = base;
        lru_s = put dec item (pos tick) c.lru_s;
        lru_q = put dec item (pos tick) q;
        tick = tick;
      })

  unfoldable pub lirs_miss : Lirs → K → V → Result Lirs
  lirs_miss c item result =
      let tick = c.tick + 1 in
      if ltb (length (items c.base)) c.limit_s then miss_with_room c item result tick else (do
        oldest_q ← first c.lru_q
        miss_full c item tick (assoc (dissoc c.base oldest_q) item result)
            (pop dec oldest_q c.lru_q))

  unfoldable pub lirs_evict : Lirs → K → Lirs
  lirs_evict c item =
      if is_some (val_at c.base item)
      then record c {
        base = dissoc c.base item;
        lru_s = pop dec item c.lru_s;
        lru_q = pop dec item c.lru_q;
      }
      else c

  -- `{key: key for key in range(-n, 0)}`
  unfoldable pub countdown : ℕ → Dict K ℤ
  countdown zero = []
  countdown (suc n) = (of_tick (negsuc n), negsuc n) ∷ countdown n

  unfoldable pub lirs_seed : Lirs → Map → Lirs
  unfolding countdown
  lirs_seed c base = record c {
    base = base;
    lru_s = countdown c.limit_s;
    lru_q = countdown c.limit_q;
    tick = 0;
  }

  unfoldable pub lirs_cache_factory : Map → ℕ → ℕ → Result Lirs
  lirs_cache_factory base limit_s limit_q = do
    c ← make_lirs m.empty [] [] 0 limit_s limit_q
    ok (lirs_seed c base)
