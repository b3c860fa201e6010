-- ===== src/Memo.antt =====
-- src/basilisp/core_memoize.py: memoization over the caches of core_cache.py. `X` are the arguments,
-- `K` the keys, `V` the values and `C` the caches.
pub mod Right
pub mod Once
pub mod Policies
use baisilisp.Base.{
  ℕ, zero, suc, map, Bool, true, false, Option, none, some, List, [], ◌∷◌, update, if◌then◌else◌,
}
use baisilisp.Base.Dict.{Dict}
use baisilisp.Cache.Fifo.{Result, ok, raise, key_error}

-- `_ValueDelay`, or a `RetryingDelay` by its number.
pub data Delay (V : Type 0) : Type 0 where
  value_delay : V → Delay V
  retrying : ℕ → Delay V

-- The fields of a `RetryingDelay`: the arguments that its function stands for, and `_value` once it is
-- available.
pub record DelayState (X V : Type 0) : Type 0 where
  pub args : List X
  pub value : Option V

-- What a memoized function uses of a cache.
pub record CacheOps (C K V : Type 0) : Type 0 where
  pub has : C → K → Bool
  pub lookup : C → K → Option (Delay V)
  pub hit : C → K → C
  pub miss : C → K → Delay V → C
  pub evict : C → K → C
  pub seed : C → Dict K (Delay V) → C

-- A memoized function: the cache in its atom, the delays that were made, and the calls of the function, the
-- last one first.
pub record Memo (C X V : Type 0) : Type 0 where
  pub cache : C
  pub cells : ℕ → Option (DelayState X V)
  pub next : ℕ
  pub log : List (List X)

-- What a key function returns: `None` or `False`, a tuple, or another value.
pub data KeyValue (X K : Type 0) : Type 0 where
  absent : KeyValue X K
  tuple : List X → KeyValue X K
  single : K → KeyValue X K

-- `_cache_key`, with `vec.vector`
unfoldable pub cache_key : {X K : Type 0} → (List X → K) → KeyValue X K → K
cache_key vector absent = vector []
cache_key vector (tuple xs) = vector xs
cache_key vector (single k) = k

-- A value of a seed: one that is a delay already, or any other.
pub data Seeded (V : Type 0) : Type 0 where
  plain : V → Seeded V
  derefable : Delay V → Seeded V

unfoldable pub seed_delay : {V : Type 0} → Seeded V → Delay V
seed_delay (plain v) = value_delay v
seed_delay (derefable d) = d

unfoldable pub derefable_seed : {K V : Type 0} → Dict K (Seeded V) → Dict K (Delay V)
derefable_seed [] = []
derefable_seed ((k, v) ∷ base) = (k, seed_delay v) ∷ derefable_seed base

module _ {C X K V : Type 0} (ops : CacheOps C K V) (key_of : List X → K)
    (f : List (List X) → List X → Result V) where
  -- `_memoized`
  unfoldable pub memoizer : C → Dict K (Seeded V) → Memo C X V
  memoizer c seed = record {
    cache = ops.seed c (derefable_seed seed);
    cells = λ i. none;
    next = 0;
    log = [];
  }

  unfoldable pub settle : Memo C X V → ℕ → DelayState X V → Result V → Result V × Memo C X V
  settle s i cell (ok v) =
      (ok v, record s { cells = update s.cells i (some (record cell { value = some v })) })
  settle s i cell (raise e) = (raise e, s)

  -- `RetryingDelay.deref` under its lock; the function is given the calls made before
  unfoldable pub deref_cell : Memo C X V → ℕ → DelayState X V → Result V × Memo C X V
  deref_cell s i cell = elim cell.value [
    | some v ↦ (ok v, s)
    | none ↦ settle (record s { log = cell.args ∷ s.log }) i cell (f s.log cell.args)
  ]

  unfoldable pub deref : Memo C X V → Delay V → Result V × Memo C X V
  deref s (value_delay v) = (ok v, s)
  deref s (retrying i) = elim (s.cells i) [
    | none ↦ (raise key_error, s)
    | some cell ↦ deref_cell s i cell
  ]

  unfoldable pub add_delay : Memo C X V → K → List X → Memo C X V
  add_delay s key args = record s {
    cache = ops.miss s.cache key (retrying s.next);
    cells = update s.cells s.next (some (record { args = args; value = none }));
    next = suc s.next;
  }

  -- The part of `MemoizedFunction.__call__` under the lock: the cache after it.
  unfoldable pub access : Memo C X V → List X → Memo C X V
  access s args =
      if ops.has s.cache (key_of args)
      then record s { cache = ops.hit s.cache (key_of args) }
      else add_delay s (key_of args) args

  unfoldable pub find : Memo C X V → List X → Option (Delay V)
  find s args = ops.lookup (access s args).cache (key_of args)

  -- `MemoizedFunction.__call__`, which calls itself if the value is gone; a turn for each unit of fuel
  unfoldable pub call_memoized : ℕ → Memo C X V → List X → Option (Result V × Memo C X V)
  call_memoized zero s args = none
  call_memoized (suc fuel) s args = elim (find s args) [
    | some d ↦ some (deref (access s args) d)
    | none ↦ call_memoized fuel (access s args) args
  ]

  -- `memo_clear`, without and with arguments
  unfoldable pub memo_clear : Option K → Memo C X V → Memo C X V
  memo_clear none s = record s { cache = ops.seed s.cache [] }
  memo_clear (some key) s = record s { cache = ops.evict s.cache key }

  unfoldable pub memo_reset : Dict K (Seeded V) → Memo C X V → Memo C X V
  memo_reset base s = record s { cache = ops.seed s.cache (derefable_seed base) }

  -- `memo_swap` with a function and results
  unfoldable pub memo_swap : (C → K → List (Delay V) → C) → K → List V → Memo C X V → Memo C X V
  memo_swap swap_fn key results s = record s {
    cache = swap_fn s.cache key (map value_delay results);
  }

  abbrev pub add_entry :
      K → Result V → Memo C X V → Result (Dict K V) × Memo C X V → Result (Dict K V) × Memo C X V
  add_entry k (raise e) s rest = (raise e, s)
  add_entry k (ok v) s (raise e, s') = (raise e, s')
  add_entry k (ok v) s (ok found, s') = (ok ((k, v) ∷ found), s')

  unfoldable pub snapshot_from : Memo C X V → Dict K (Delay V) → Result (Dict K V) × Memo C X V
  snapshot_from s [] = (ok [], s)
  snapshot_from s ((k, d) ∷ items) =
      let out = deref s d in add_entry k out.0 out.1 (snapshot_from out.1 items)

  -- `snapshot`, given the items of the map behind the cache
  unfoldable pub snapshot : (C → Dict K (Delay V)) → Memo C X V → Result (Dict K V) × Memo C X V
  snapshot items_of s = snapshot_from s (items_of s.cache)

  -- What threads do with a memoized function. A call is two steps, `calls` and the `derefs` of what it
  -- found.
  pub data Event : Type 0 where
    calls : List X → Event
    derefs : Delay V → Event
    clears : Option K → Event
    resets : Dict K (Seeded V) → Event
    takes_snapshot : (C → Dict K (Delay V)) → Event

  unfoldable pub step : Memo C X V → Event → Memo C X V
  step s (calls args) = access s args
  step s (derefs d) = (deref s d).1
  step s (clears key) = memo_clear key s
  step s (resets base) = memo_reset base s
  step s (takes_snapshot items_of) = (snapshot items_of s).1

  unfoldable pub run : Memo C X V → List Event → Memo C X V
  run s [] = s
  run s (e ∷ es) = run (step s e) es
