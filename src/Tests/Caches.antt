-- ===== src/Tests/Caches.antt =====
-- Caches of up to three keys.
use baisilisp.Base.{
  List, ℕ, ◌≡◌, refl, true, false, none, some, [], ◌∷◌, ◌≤◌, length, ite, arith, ℕ_discrete, dec_lt,
  dec_le, if◌then◌else◌, ltb, ◌+◌, Bool, ◌↔◌, ◌==◌,
}
use baisilisp.Base.Dict.{get, put, pop, get_by, put_by, pop_by}
use baisilisp.Cache.Fifo.{Fifo, free, taken}
use baisilisp.Cache.Lru.{Lru, lru_miss, victim}
use baisilisp.Cache.Lru.Bounds.{IsSynced}
use baisilisp.Cache.Lru.Policy.{lru_miss-drops_oldest}
use baisilisp.Cache.Ttl.{Ttl, ttl_lookup, ttl_miss}
use baisilisp.Cache.Ttl.Expiry.{ttl-expiry}
use baisilisp.Tests.Maps.{dicts, dicts-MapLaws, Dicts}

abbrev two_keys : Dicts
two_keys = dicts.assoc (dicts.assoc dicts.empty 1 10) 2 20

same_numbers : (j k : ℕ) → (j == k) ≡ true ↔ j ≡ k
same_numbers j k = ((λ h. ground (arith, h)), λ h. ground (arith, h))

abbrev recent : Lru dicts ◌==◌
recent = record { base = two_keys; lru = (1, 5) ∷ (2, 3) ∷ []; tick = 5; limit = 2 }

recent-IsSynced : IsSynced dicts ◌==◌ ℕ_discrete dicts-MapLaws same_numbers recent
unfolding get put ℕ_discrete
recent-IsSynced = record {
  same_keys = λ k. ground arith;
  once = (refl, (refl, tt));
  same_size = refl;
  within = omega arith;
  positive = omega arith;
}

recent-misses : dicts.val_at recent.base 3 ≡ none
unfolding get put ℕ_discrete
recent-misses = refl

recent-full : recent.limit ≤ length recent.lru
recent-full = omega arith

lru_miss-drops_oldest_example :
    (k : ℕ) × (n : ℕ) × (get ℕ_discrete k recent.lru ≡ some n)
    × ((j : ℕ) (i : ℕ) → get ℕ_discrete j recent.lru ≡ some i → n ≤ i)
    × ((j : ℕ)
        → dicts.val_at (lru_miss dicts ◌==◌ recent 3 30).base j
          ≡ ite (ℕ_discrete 3 j) (some 30) (ite (ℕ_discrete k j) none (dicts.val_at recent.base j)))
lru_miss-drops_oldest_example =
    lru_miss-drops_oldest dicts ◌==◌ ℕ_discrete dicts-MapLaws same_numbers recent 3 30
      recent-IsSynced recent-misses recent-full

-- Python's `==` on the keys 1 and 2 when they stand for 1 and 1.0
abbrev python_eq : ℕ → ℕ → Bool
python_eq j k = true

abbrev one_kept : Lru dicts python_eq
one_kept = record { base = dicts.assoc dicts.empty 1 10; lru = (1, 5) ∷ []; tick = 5; limit = 1 }

-- The map keeps both keys, so the cache is above its limit.
lru_grows : dicts.items (lru_miss dicts python_eq one_kept 2 20).base ≡ (1, 10) ∷ (2, 20) ∷ []
unfolding lru_miss victim get_by pop_by put_by get put pop ℕ_discrete
lru_grows = refl

abbrev queue : Fifo dicts
queue = record { base = two_keys; q = free ∷ taken 1 ∷ taken 2 ∷ []; limit = 3 }

abbrev timed : Ttl dicts ℕ_discrete
timed = record {
  base = two_keys;
  ttl = (1, (0, 0)) ∷ (2, (1, 4)) ∷ [];
  q = [];
  gen = 2;
  ttl_ms = 10;
}

unwrapped : dicts.is_wrapped 3 ≡ false
unfolding dec_lt dec_le
unwrapped = refl

ttl-expiry_example :
    ttl_lookup dicts ℕ_discrete (ttl_miss dicts ℕ_discrete timed 3 30 5) 3 none 12
    ≡ (if ltb 12 (5 + timed.ttl_ms) then some 30 else none)
ttl-expiry_example = ttl-expiry dicts ℕ_discrete dicts-MapLaws timed 3 30 none 5 12 unwrapped

abbrev pairs : List (ℕ × ℕ)
pairs = (3, 30) ∷ (4, 40) ∷ []
