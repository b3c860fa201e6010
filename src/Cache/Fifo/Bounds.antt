-- ===== src/Cache/Fifo/Bounds.antt =====
-- `FIFOCache` of src/basilisp/core_cache.py: when it keeps to its limit, and when not.
use baisilisp.Base.{
  ℕ, zero, suc, ◌+◌, ◌≤◌, ◌<◌, ◌≡◌, refl, sym, ap, ◌∙◌, Bool, true, false, none, List, [], ◌∷◌,
  ◌++◌, map, is_some, length, leb, replicate, if◌then◌else◌, arith, ite, length-append,
}
use mathlib.Core.List.{append_assoc, map-append}
use baisilisp.Cache.Map.{MapOps, MapLaws}
use baisilisp.Cache.Fifo.{free, taken, Fifo, queue_of, dissoc_slot, admit, fifo_miss}

module _ {K : Type 0} (dec : Discrete K) where
  unfoldable pub holds : K → List K → Bool
  holds k [] = false
  holds k (j ∷ ks) = ite (dec j k) true (holds k ks)

  abbrev pub AllNew : List K → Type 0
  AllNew [] = Unit
  AllNew (k ∷ ks) = (holds k ks ≡ false) × AllNew ks

  pub drop_key : K → List K → List K
  drop_key k [] = []
  drop_key k (j ∷ ks) = let rest = drop_key k ks in ite (dec j k) rest (j ∷ rest)

  holds-append :
      (k j : K) (ks : List K)
      → holds k (ks ++ j ∷ []) ≡ (if holds k ks then true else ite (dec j k) true false)
  unfolding holds
  holds-append k j [] = ground arith
  holds-append k j (i ∷ ks) = ground (arith, holds-append k j ks)

  AllNew-append : (j : K) (ks : List K) → AllNew ks → holds j ks ≡ false → AllNew (ks ++ j ∷ [])
  unfolding holds
  AllNew-append j [] h e = (refl, tt)
  AllNew-append j (k ∷ ks) h e =
      (ground (arith, holds-append k j ks, h.0), AllNew-append j ks h.1 (ground arith))

module _ {K V : Type 0} (m : MapOps K V) (dec : Discrete K) (laws : MapLaws dec m) where
  open m use {val_at, items}

  -- The free slots stand before the keys, which are those of the map, each once.
  pub record IsQueued (c : Fifo m) : Type 0 where
    pub frees : ℕ
    pub held : List K
    pub layout : c.q ≡ replicate frees free ++ map taken held
    pub filled : frees + length held ≡ c.limit
    pub same_size : length (items c.base) ≡ length held
    pub same_keys : (k : K) → is_some (val_at c.base k) ≡ holds dec k held
    pub once : AllNew dec held
    pub positive : 0 < c.limit

  -- So such a cache keeps to its limit.
  pub size-le-limit : (c : Fifo m) → IsQueued c → length (items c.base) ≤ c.limit
  size-le-limit c q = omega (arith, q.same_size, q.filled)

  -- The queue after a miss, and the map, once a slot is taken off and its key dropped.
  module _ (c : Fifo m) (item : K) (result : V) (base : m.Map) (frees : ℕ) (held : List K) where
    record HasSlot : Type 0 where
      absent : val_at base item ≡ none
      filled : suc (frees + length held) ≡ c.limit
      same_size : length (items base) ≡ length held
      same_keys : (k : K) → is_some (val_at base k) ≡ holds dec k held
      once : AllNew dec held

    take_slot :
        HasSlot
        → IsQueued (record c {
          base = m.assoc base item result;
          q = (replicate frees free ++ map taken held) ++ taken item ∷ [];
        })
    take_slot s = record {
      frees = frees;
      held = held ++ item ∷ [];
      layout =
          append_assoc (replicate frees free) (map taken held) (taken item ∷ [])
          ∙ ap (◌++◌ (replicate frees free)) (sym (map-append taken held (item ∷ [])));
      filled = omega (arith, length-append {0} held (item ∷ []), s.filled);
      same_size = ground (
        arith,
        laws.length-assoc base item result,
        s.absent,
        s.same_size,
        length-append {0} held (item ∷ []),
      );
      same_keys = λ k. ground (
        arith,
        laws.val_at-assoc base item k result,
        holds-append dec k item held,
        s.same_keys k,
      );
      once = AllNew-append dec item held s.once (ground (arith, s.same_keys item, s.absent));
      positive = omega (arith, s.filled);
    }

  fifo_miss_layout :
      (c : Fifo m) (item : K) (result : V)
      → val_at c.base item ≡ none
      → (frees : ℕ) (held : List K) → c.q ≡ replicate frees free ++ map taken held
      → frees + length held ≡ c.limit
      → length (items c.base) ≡ length held
      → ((k : K) → is_some (val_at c.base k) ≡ holds dec k held)
      → AllNew dec held
      → 0 < c.limit
      → IsQueued (fifo_miss m c item result)
  unfolding fifo_miss queue_of admit dissoc_slot holds
  fifo_miss_layout c item result fresh zero [] layout filled size keys once pos =
      absurd (omega arith)
  fifo_miss_layout c item result fresh zero (k ∷ held) layout filled size keys once pos =
      let full : leb c.limit (length (items c.base)) ≡ true = ground arith in
      rw (layout, queue_of, full, admit)
        (take_slot c item result (m.dissoc c.base k) 0 held (record {
          absent = ground (arith, laws.val_at-dissoc c.base k item, fresh);
          filled = omega arith;
          same_size = ground (arith, laws.length-dissoc c.base k, keys k, size);
          same_keys = λ j. ground (arith, laws.val_at-dissoc c.base k j, keys j, once.0);
          once = once.1;
        }))
  fifo_miss_layout c item result fresh (suc n) held layout filled size keys once pos =
      let room : leb c.limit (length (items c.base)) ≡ false = ground arith in
      rw (layout, queue_of, room, admit)
        (take_slot c item result c.base n held (record {
          absent = fresh;
          filled = omega arith;
          same_size = size;
          same_keys = keys;
          once = once;
        }))

  -- If the queue has its free slots first and then the keys of the map, each once: a miss for an item
  -- that the cache does not hold keeps it so, and leaves at most as many keys as the limit.
  pub fifo_miss-IsQueued :
      (c : Fifo m) (item : K) (result : V)
      → IsQueued c
      → val_at c.base item ≡ none
      → IsQueued (fifo_miss m c item result)
        × (length (items (fifo_miss m c item result).base) ≤ (fifo_miss m c item result).limit)
  fifo_miss-IsQueued c item result s fresh =
      let kept : IsQueued (fifo_miss m c item result) =
        fifo_miss_layout c item result fresh s.frees s.held s.layout s.filled s.same_size
          s.same_keys s.once s.positive in
      (kept, size-le-limit (fifo_miss m c item result) kept)
