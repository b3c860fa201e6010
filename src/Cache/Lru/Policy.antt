-- ===== src/Cache/Lru/Policy.antt =====
-- What `LRUCache` of src/basilisp/core_cache.py drops: the key with the least tick.
use mathlib.Core.Path.{subst}
use baisilisp.Base.{
  if_pos, if_neg, ℕ, ◌≤◌, ◌≡◌, refl, ap, none, some, [], ◌∷◌, length, ltb, if◌then◌else◌, arith,
  Bool-cases, Bool, true, ◌↔◌, Option-cases, inl, inr, ite,
}
use baisilisp.Base.Dict.{Dict, get, get_by-get, Distinct}
use baisilisp.Cache.Map.{MapOps, MapLaws}
use baisilisp.Cache.Lru.{Lru, lru_miss, victim, oldest, oldest_from}
use baisilisp.Cache.Lru.Bounds.{IsSynced}

least_from : {K : Type 0} → ℕ → Dict K ℕ → ℕ
least_from n [] = n
least_from n ((j, i) ∷ d) = least_from (if ltb i n then i else n) d

module _ {K : Type 0} (dec : Discrete K) where
  least_from-le : (n : ℕ) (d : Dict K ℕ) → least_from n d ≤ n
  unfolding least_from
  least_from-le n [] = omega arith
  least_from-le n ((j, i) ∷ d) = ground (arith, least_from-le i d, least_from-le n d)

  least_from-le_get :
      (n : ℕ) (d : Dict K ℕ) (j : K) (i : ℕ) → get dec j d ≡ some i → least_from n d ≤ i
  unfolding least_from get
  least_from-le_get n [] j i h = cc
  least_from-le_get n ((k, x) ∷ d) j i h = ground (
    arith,
    least_from-le x d,
    least_from-le n d,
    least_from-le_get x d j i,
    least_from-le_get n d j i,
  )

  least_from-le_cons :
      (j : K) (i : ℕ) (d : Dict K ℕ) (q : K) (x : ℕ)
      → get dec q ((j, i) ∷ d) ≡ some x
      → least_from i d ≤ x
  unfolding get
  least_from-le_cons j i d q x h = ground (arith, least_from-le i d, least_from-le_get i d q x)

  length-eq_zero_of_no_oldest : (d : Dict K ℕ) → oldest d ≡ none → length d ≡ 0
  unfolding oldest
  length-eq_zero_of_no_oldest [] h = refl
  length-eq_zero_of_no_oldest (e ∷ d) h = cc

  -- An entry with another key in front, or in second place, hides nothing.
  get_behind :
      (k r : K) (n x : ℕ) (d : Dict K ℕ)
      → get dec k d ≡ none
      → get dec r d ≡ some x
      → get dec r ((k, n) ∷ d) ≡ some x
  unfolding get
  get_behind k r n x d h e = elim (dec k r) [
    | yes p ↦ absurd (ground (arith, ap (λ y. get dec y d) p, h, e))
    | no p ↦ rw (if_neg (dec k r) p) e
  ]

  get_around :
      (k j r : K) (n i x : ℕ) (d : Dict K ℕ)
      → get dec j d ≡ none
      → get dec r ((k, n) ∷ d) ≡ some x
      → get dec r ((k, n) ∷ (j, i) ∷ d) ≡ some x
  unfolding get
  get_around k j r n i x d h e = elim (dec k r) [
    | yes p ↦ rw (if_pos (dec k r) p) (ground arith)
    | no p ↦ rw (if_neg (dec k r) p) (get_behind j r i x d h (ground arith))
  ]

  absent_behind :
      (k j : K) (i : ℕ) (d : Dict K ℕ) → get dec k ((j, i) ∷ d) ≡ none → get dec k d ≡ none
  unfolding get
  absent_behind k j i d h = ground arith

  get-oldest_from :
      (k : K) (n : ℕ) (d : Dict K ℕ)
      → Distinct dec ((k, n) ∷ d)
      → get dec (oldest_from k n d) ((k, n) ∷ d) ≡ some (least_from n d)
  unfolding least_from oldest_from
  get-oldest_from k n [] h = unfold get in ground arith
  get-oldest_from k n ((j, i) ∷ d) h = elim (Bool-cases (ltb i n)) [
    | inl less ↦ rw less (
        get_behind k (oldest_from j i d) n (least_from i d) ((j, i) ∷ d) h.0
          (get-oldest_from j i d h.1))
    | inr more ↦ rw more (
        get_around k j (oldest_from k n d) n i (least_from n d) d h.1.0
          (get-oldest_from k n d (absent_behind k j i d h.0, h.1.1)))
  ]

  -- `oldest` finds a key of the table with the least tick.
  pub oldest_least :
      (d : Dict K ℕ) (k : K)
      → Distinct dec d
      → oldest d ≡ some k
      → (n : ℕ) × (get dec k d ≡ some n) × ((j : K) (i : ℕ) → get dec j d ≡ some i → n ≤ i)
  unfolding oldest
  oldest_least [] k h e = cc
  oldest_least ((j, i) ∷ d) k h e =
      let same : oldest_from j i d ≡ k = ground arith in
      (
        least_from i d,
        subst (λ x. get dec x ((j, i) ∷ d) ≡ some (least_from i d)) same (get-oldest_from j i d h),
        λ q x found. least_from-le_cons j i d q x found,
      )

module _ {K V : Type 0} (m : MapOps K V) (eq : K → K → Bool) (dec : Discrete K)
    (laws : MapLaws dec m) (agrees : (j k : K) → eq j k ≡ true ↔ j ≡ k) where
  open m use {val_at}

  -- If the equality of the dict of ticks is that of the map, and the two hold the same keys: a miss on a
  -- full cache for an item that it does not hold drops one key, and none was used longer ago; it stores
  -- the item, and no other key changes.
  pub lru_miss-drops_oldest :
      (c : Lru m eq) (item : K) (result : V)
      → IsSynced m eq dec laws agrees c
      → val_at c.base item ≡ none
      → c.limit ≤ length c.lru
      → (k : K) × (n : ℕ) × (get dec k c.lru ≡ some n)
        × ((j : K) (i : ℕ) → get dec j c.lru ≡ some i → n ≤ i)
        × ((j : K)
            → val_at (lru_miss m eq c item result).base j
              ≡ ite (dec item j) (some result) (ite (dec k j) none (val_at c.base j)))
  unfolding lru_miss victim
  lru_miss-drops_oldest c item result s fresh full = elim (Option-cases (oldest c.lru)) [
    | inl e ↦ absurd (omega (arith, length-eq_zero_of_no_oldest dec c.lru e, s.positive))
    | inr (k, e) ↦
        let (n, found, least) = oldest_least dec c.lru k s.once e in
        (
          k,
          n,
          found,
          least,
          λ j. ground (
            arith,
            e,
            s.same_keys item,
            get_by-get eq dec agrees item c.lru,
            laws.val_at-assoc (m.dissoc c.base k) item j result,
            laws.val_at-dissoc c.base k j,
          ),
        )
  ]
