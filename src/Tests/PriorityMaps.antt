-- ===== src/Tests/PriorityMaps.antt =====
-- Priority maps over dicts. The keys below 100 stand for numbers, and are stored as 100 more.
use baisilisp.Base.{
  ◌≡◌, refl, ℕ, ◌+◌, ◌-◌, leb, ltb, Option, none, some, [], ◌∷◌, Among, ℕ_discrete, if◌then◌else◌,
  arith, ◌⊎◌,
}
use baisilisp.Base.Dict.{Dict, get, put}
use baisilisp.Tests.Maps.{Dicts, dicts, fill_dicts}
use baisilisp.PriorityMap.{
  HostMap, PriorityMap, Comparison, holds, make, dissoc, val_at, is_before, compare, priority, peek,
  sorted_items, sort, insert,
}
use baisilisp.PriorityMap.Least.{Before, Leads, peek-Leads}

abbrev host : HostMap ℕ ℕ
host = record {
  Map = Dicts;
  empty = dicts.empty;
  get = dicts.val_at;
  set = dicts.assoc;
  delete = dicts.dissoc;
  items = dicts.items;
  of_items = fill_dicts;
}

abbrev wrap : ℕ → ℕ
wrap k = if leb 100 k then k else k + 100

by_value : ℕ → ℕ → Comparison
by_value a b = holds (ltb a b)

abbrev entries : Dict ℕ ℕ
entries = (7, 30) ∷ (8, 10) ∷ (9, 20) ∷ []

-- The key was there.
abbrev seven : Option ℕ
seven = val_at host wrap (make host wrap (fill_dicts entries) by_value none) 7

seven_found : seven ≡ some 30
unfolding val_at make fill_dicts get put ℕ_discrete
seven_found = refl

-- The greatest value comes first.
abbrev queue : PriorityMap host wrap
queue = record { inner = fill_dicts entries; comparator = by_value; keyfn = some (λ v. 50 - v) }

one_way : (x y : ℕ × ℕ) → Before host wrap queue x y → ¬ (Before host wrap queue y x)
unfolding by_value
one_way x y b c = absurd (ground (arith, b, c))

chain :
    (x y z : ℕ × ℕ)
    → ¬ (Before host wrap queue y x)
    → ¬ (Before host wrap queue z y)
    → ¬ (Before host wrap queue z x)
unfolding by_value
chain x y z b c d = ground (arith, b, c, d)

peek-Leads_example :
    ((peek host wrap queue ≡ none) × (host.items queue.inner ≡ []))
    ⊎ ((e : ℕ × ℕ) × (peek host wrap queue ≡ some e)
        × Among e (host.items queue.inner)
        × Leads host wrap queue e (host.items queue.inner))
peek-Leads_example = peek-Leads host wrap queue one_way chain

queue-peek : peek host wrap queue ≡ some (7, 30)
unfolding peek sorted_items sort insert is_before compare priority by_value fill_dicts get put
    ℕ_discrete
queue-peek = refl
