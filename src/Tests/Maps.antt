-- ===== src/Tests/Maps.antt =====
-- Maps under the caches of src/basilisp/core_cache.py, as dicts in which no key stands twice. The
-- keys from 100 on stand for the numbers of the program, which are wrapped.
use baisilisp.Base.{ℕ, refl, none, [], ◌∷◌, leb, if◌then◌else◌, ℕ_discrete}
use baisilisp.Base.Dict.{Dict, get, put, pop, get-put, get-pop, Distinct, put-Distinct}
use baisilisp.Base.Counted.{length-put, length-pop, pop-Distinct}
use baisilisp.Cache.Map.{MapOps, MapLaws}

abbrev pub DictsOf : Type 0 → Type 0
DictsOf V = (d : Dict ℕ V) × Distinct ℕ_discrete d

unfoldable pub fill_dicts : {V : Type 0} → Dict ℕ V → DictsOf V
fill_dicts [] = ([], tt)
fill_dicts ((k, v) ∷ d) =
    let rest = fill_dicts d in
    (put ℕ_discrete k v rest.0, put-Distinct ℕ_discrete k v rest.0 rest.1)

abbrev pub dicts_of : (V : Type 0) → MapOps ℕ V
dicts_of V = record {
  Map = DictsOf V;
  is_wrapped = λ k. leb 100 k;
  empty = ([], tt);
  val_at = λ a k. get ℕ_discrete k a.0;
  raw_get = λ a k. if leb 100 k then none else get ℕ_discrete k a.0;
  assoc = λ a k v. (put ℕ_discrete k v a.0, put-Distinct ℕ_discrete k v a.0 a.1);
  dissoc = λ a k. (pop ℕ_discrete k a.0, pop-Distinct ℕ_discrete k a.0 a.1);
  items = λ a. a.0;
  from_coll = fill_dicts;
}

pub dicts_of-MapLaws : (V : Type 0) → MapLaws ℕ_discrete (dicts_of V)
unfolding get
dicts_of-MapLaws V = record {
  val_at-empty = λ k. refl;
  val_at-assoc = λ a k j v. get-put ℕ_discrete k j v a.0;
  val_at-dissoc = λ a k j. get-pop ℕ_discrete k j a.0;
  raw_get_lem = λ a k. refl;
  length-assoc = λ a k v. length-put ℕ_discrete k v a.0;
  length-dissoc = λ a k. length-pop ℕ_discrete k a.0 a.1;
}

abbrev pub Dicts : Type 0
Dicts = DictsOf ℕ

abbrev pub dicts : MapOps ℕ ℕ
dicts = dicts_of ℕ

pub dicts-MapLaws : MapLaws ℕ_discrete dicts
dicts-MapLaws = dicts_of-MapLaws ℕ
