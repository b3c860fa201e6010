-- ===== src/PriorityMap.antt =====
-- `PersistentPriorityMap` of src/basilisp/lang/priority_map.py. The maps of the package `immutables`
-- are the interface `HostMap`; `wrap` is `equivalence_key`, which gives a key to store for a key of
-- the program and leaves a key to store as it is.
pub mod Least
pub mod Wrapped
use baisilisp.Base.{
  Bool, true, false, ◌||◌, Option, none, some, List, [], ◌∷◌, ◌++◌, keep, if◌then◌else◌,
}
use baisilisp.Base.Int.{ℤ, pos, negsuc, ltb_ℤ}
use baisilisp.Base.Dict.{Dict}

pub record HostMap (K V : Type 0) : Type 1 where
  pub Map : Type 0
  pub empty : Map
  pub get : Map → K → Option V
  pub set : Map → K → V → Map
  -- `del`, and nothing where that raises `KeyError`
  pub delete : Map → K → Map
  pub items : Map → Dict K V
  pub of_items : Dict K V → Map

-- What a comparator of the program returns.
pub data Comparison : Type 0 where
  holds : Bool → Comparison
  number : ℤ → Comparison

-- What a function of a reduction returns.
pub data Step (A : Type 0) : Type 0 where
  more reduced : A → Step A

module _ {K V : Type 0} (m : HostMap K V) (wrap : K → K) where
  open m use {Map, get, set, delete, items, of_items}

  pub record PriorityMap : Type 0 where
    pub inner : Map
    pub comparator : V → V → Comparison
    pub keyfn : Option (V → V)

  abbrev pub wrap_keys : Dict K V → Dict K V
  wrap_keys [] = []
  wrap_keys ((k, v) ∷ d) = (wrap k, v) ∷ wrap_keys d

  -- `__init__`, whose first part is that of `PersistentMap`
  unfoldable pub make : Map → (V → V → Comparison) → Option (V → V) → PriorityMap
  make inner comparator keyfn = record {
    inner = of_items (wrap_keys (items inner));
    comparator = comparator;
    keyfn = keyfn;
  }

  -- `lmap._comparator_fn`
  unfoldable pub compare : PriorityMap → V → V → ℤ
  compare p left right = elim (p.comparator left right) [
    | number n ↦ n
    | holds true ↦ negsuc 0
    | holds false ↦ elim (p.comparator right left) [
      | number n ↦ if ltb_ℤ n (pos 0) || ltb_ℤ (pos 0) n then pos 1 else pos 0
      | holds b ↦ if b then pos 1 else pos 0
    ]
  ]

  unfoldable pub priority : PriorityMap → V → V
  priority p v = elim (p.keyfn) [ none ↦ v | some f ↦ f v ]

  unfoldable pub is_before : PriorityMap → K × V → K × V → Bool
  is_before p left right = ltb_ℤ (compare p (priority p left.1) (priority p right.1)) (pos 0)

  -- `sorted`, which is stable
  unfoldable pub insert : PriorityMap → K × V → List (K × V) → List (K × V)
  insert p e [] = e ∷ []
  insert p e (x ∷ xs) = let rest = insert p e xs in if is_before p x e then x ∷ rest else e ∷ x ∷ xs

  unfoldable pub sort : PriorityMap → List (K × V) → List (K × V)
  sort p [] = []
  sort p (e ∷ es) = insert p e (sort p es)

  unfoldable pub sorted_items : PriorityMap → List (K × V)
  sorted_items p = sort p (items p.inner)

  unfoldable pub renew : PriorityMap → Map → PriorityMap
  renew p inner = make inner p.comparator p.keyfn

  unfoldable pub set_all : Dict K V → Map → Map
  set_all [] inner = inner
  set_all ((k, v) ∷ d) inner = set_all d (set inner k v)

  unfoldable pub delete_all : List K → Map → Map
  delete_all [] inner = inner
  delete_all (k ∷ ks) inner = delete_all ks (delete inner k)

  unfoldable pub assoc : PriorityMap → Dict K V → PriorityMap
  assoc p kvs = renew p (set_all kvs p.inner)

  unfoldable pub dissoc : PriorityMap → List K → PriorityMap
  dissoc p ks = renew p (delete_all ks p.inner)

  -- `val_at` of `PersistentMap`
  unfoldable pub val_at : PriorityMap → K → Option V
  val_at p k = get p.inner (wrap k)

  unfoldable pub peek : PriorityMap → Option (K × V)
  peek p = elim (sorted_items p) [ [] ↦ none | e ∷ es ↦ some e ]

  -- `none` is `IndexError`
  unfoldable pub pop : PriorityMap → Option PriorityMap
  pop p = elim (peek p) [ none ↦ none | some e ↦ some (dissoc p (e.0 ∷ [])) ]

  unfoldable pub reduce_from : {A : Type 0} → (A → K → V → Step A) → A → List (K × V) → A
  reduce_from f init [] = init
  reduce_from f init ((k, v) ∷ es) = elim (f init k v) [
    | reduced a ↦ a
    | more a ↦ reduce_from f a es
  ]

  unfoldable pub reduce_kv : {A : Type 0} → PriorityMap → (A → K → V → Step A) → A → A
  reduce_kv p f init = reduce_from f init (sorted_items p)

  unfoldable pub empty : PriorityMap → PriorityMap
  empty p = renew p m.empty

  -- `none` is `nil`
  unfoldable pub entry_seq : List (K × V) → Option (List (K × V))
  entry_seq [] = none
  entry_seq (e ∷ es) = some (e ∷ es)

  unfoldable pub seq : PriorityMap → Option (List (K × V))
  seq p = elim (items p.inner) [ [] ↦ none | _ ∷ _ ↦ some (sorted_items p) ]

  abbrev reversed : List (K × V) → List (K × V)
  reversed [] = []
  reversed (e ∷ es) = reversed es ++ e ∷ []

  unfoldable pub rseq : PriorityMap → Option (List (K × V))
  rseq p = elim (items p.inner) [ [] ↦ none | _ ∷ _ ↦ some (reversed (sorted_items p)) ]

  -- whether the comparison of an entry with the key meets the test, which is one with 0
  unfoldable pub meets : PriorityMap → (ℤ → Bool) → V → K × V → Bool
  meets p test key e = test (compare p (priority p e.1) key)

  unfoldable pub bound : PriorityMap → (ℤ → Bool) → V → Bool → List (K × V)
  bound p test key reverse =
      keep (meets p test key) (if reverse then reversed (sorted_items p) else sorted_items p)

  -- `subseq` and `rsubseq`, the latter with `reverse`
  unfoldable pub subseq :
      PriorityMap → Bool → (ℤ → Bool) → V → Option ((ℤ → Bool) × V) → Option (List (K × V))
  subseq p reverse start_test start_key end =
      let entries = bound p start_test start_key reverse in
      elim end [
        | none ↦ entry_seq entries
        | some test_key ↦ entry_seq (keep (meets p test_key.0 test_key.1) entries)
      ]

  -- `priority_map_keyfn_by`, with the defaults for the other constructors
  unfoldable pub priority_map : (V → V → Comparison) → Option (V → V) → Dict K V → PriorityMap
  priority_map comparator keyfn keyvals = assoc (make m.empty comparator keyfn) keyvals
