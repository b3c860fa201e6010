-- ===== src/Cache/Ttl.antt =====
-- `TTLCacheQ` of src/basilisp/core_cache.py. The clock gives milliseconds, and each operation takes
-- the time that it reads; `now - created < ttl_ms` is written without the difference.
pub mod Expiry
use baisilisp.Base.{
  ℕ, zero, suc, ◌+◌, Bool, true, false, ◌&&◌, Option, none, some, List, [], ◌∷◌, ◌++◌, is_some,
  length, leb, ltb, ◌==◌, if◌then◌else◌, ite,
}
use baisilisp.Base.Int.{ℤ, pos, negsuc}
use baisilisp.Base.Dict.{Dict, get, put, pop, keys}
use baisilisp.Cache.Map.{MapOps}
use baisilisp.Cache.Fifo.{Result, ok, raise, negative_ttl, ◌>>=◌}

-- (key, generation, created)
pub record Stamp (K : Type 0) : Type 0 where
  pub key : K
  pub generation : ℕ
  pub created : ℕ

module _ {K V : Type 0} (m : MapOps K V) (dec : Discrete K) where
  open m use {Map, val_at, raw_get, assoc, dissoc, items}

  pub record Ttl : Type 0 where
    pub base : Map
    pub ttl : Dict K (ℕ × ℕ)
    pub q : List (Stamp K)
    pub gen : ℕ
    pub ttl_ms : ℕ

  unfoldable pub make_ttl : Map → Dict K (ℕ × ℕ) → List (Stamp K) → ℕ → ℤ → Result Ttl
  make_ttl base ttl q gen (negsuc n) = raise negative_ttl
  make_ttl base ttl q gen (pos ttl_ms) =
      ok (record { base = base; ttl = ttl; q = q; gen = gen; ttl_ms = ttl_ms })

  -- `clock() - created < ttl_ms`, where a missing key was created at `-ttl_ms`
  unfoldable pub is_fresh : Ttl → K → ℕ → Bool
  is_fresh c item now = elim (get dec item c.ttl) [
    | none ↦ ltb (now + c.ttl_ms) c.ttl_ms
    | some stamp ↦ ltb now (stamp.1 + c.ttl_ms)
  ]

  -- `cache_has`, which looks the item up as it is
  unfoldable pub ttl_has : Ttl → K → ℕ → Bool
  unfolding is_fresh
  ttl_has c item now = is_some (raw_get c.base item) && is_fresh c item now

  unfoldable pub ttl_lookup : Ttl → K → Option V → ℕ → Option V
  unfolding ttl_has
  ttl_lookup c item not_found now = if ttl_has c item now then val_at c.base item else not_found

  -- `_prune`: the keys that are dropped, and the queue that stays
  unfoldable pub prune : Dict K (ℕ × ℕ) → ℕ → ℕ → List (Stamp K) → List K × List (Stamp K)
  prune ttl ttl_ms now [] = ([], [])
  prune ttl ttl_ms now (s ∷ q) =
      let rest = prune ttl ttl_ms now q in
      if ltb (s.created + ttl_ms) now
      then (
        (elim (get dec s.key ttl) [
          | none ↦ rest.0
          | some stamp ↦ if stamp.0 == s.generation then s.key ∷ rest.0 else rest.0
        ]),
        rest.1,
      )
      else ([], s ∷ q)

  -- `self.cache.dissoc(*stale)`
  unfoldable pub dissoc_all : Map → List K → Map
  dissoc_all base [] = base
  dissoc_all base (k ∷ ks) = dissoc_all (dissoc base k) ks

  -- `{key: value for key, value in self._ttl.items() if key not in stale}`
  unfoldable pub without : Dict K (ℕ × ℕ) → List K → Dict K (ℕ × ℕ)
  without ttl [] = ttl
  without ttl (k ∷ ks) = without (pop dec k ttl) ks

  unfoldable pub ttl_miss : Ttl → K → V → ℕ → Ttl
  ttl_miss c item result now =
      let (stale, queue) = prune c.ttl c.ttl_ms now c.q in
      record c {
        base = assoc (dissoc_all c.base stale) item result;
        ttl = put dec item (c.gen, now) (without c.ttl stale);
        q = queue ++ record { key = item; generation = c.gen; created = now } ∷ [];
        gen = c.gen + 1;
      }

  unfoldable pub ttl_evict : Ttl → K → Ttl
  ttl_evict c item = record c { base = dissoc c.base item; ttl = pop dec item c.ttl }

  -- `{key: (self._gen, now) for key in base}` and the tuples that are queued
  unfoldable pub stamps : ℕ → ℕ → List K → Dict K (ℕ × ℕ)
  stamps gen now [] = []
  stamps gen now (k ∷ ks) = (k, (gen, now)) ∷ stamps gen now ks

  unfoldable pub stamp_queue : ℕ → ℕ → List K → List (Stamp K)
  stamp_queue gen now [] = []
  stamp_queue gen now (k ∷ ks) =
      record { key = k; generation = gen; created = now } ∷ stamp_queue gen now ks

  unfoldable pub ttl_seed : Ttl → Map → ℕ → Ttl
  ttl_seed c base now = record c {
    base = base;
    ttl = stamps c.gen now (keys (items base));
    q = c.q ++ stamp_queue c.gen now (keys (items base));
    gen = c.gen + 1;
  }

  unfoldable pub ttl_cache_factory : Map → ℤ → ℕ → Result Ttl
  ttl_cache_factory base ttl now = do c ← make_ttl m.empty [] [] 0 ttl; ok (ttl_seed c base now)
