-- ===== src/Spec.antt =====
-- src/basilisp/lang/spec.py: specs as data, and the values that they are about. `V` is the type of
-- the host's values, of which the code uses what `Host` holds; a keyword is known by a number.
pub mod Conform
pub mod Unform
pub mod Laws
pub mod Matching
pub mod RoundTrip
pub mod Loops
pub mod Ends
use baisilisp.Base.{
  ℕ, Bool, true, false, not, ◌&&◌, Option, none, some, List, [], ◌∷◌, length, ltb, ◌==◌,
  if◌then◌else◌,
}
use baisilisp.Base.Dict.{Dict}

pub record Host (V : Type 0) : Type 0 where
  pub nil : V
  pub is_nil : V → Bool
  pub is_callable : V → Bool
  -- the items of a value for which `_sequence` holds, and those for which `_regex_sequence` does
  pub items : V → Option (List V)
  pub iter : V → Option (List V)
  -- `vec.v(*items)`
  pub vec : List V → V
  -- the items of a value for which `_mapping` holds; the rest of `_merge_maps`
  pub entries : V → Option (List (V × V))
  pub merge : List V → V
  pub tag : ℕ → V
  pub tag_of : V → Option ℕ
  -- `lmap.map` of a dict from keywords; `value.get(keyword)`
  pub map : Dict ℕ V → V
  pub val_at : V → ℕ → Option V
  -- `len(set(items)) == len(items)`
  pub all_different : List V → Bool

pub data Error : Type 0 where
  repeated_nothing no_fuel : Error

-- A conformed value, `INVALID`, or an exception.
pub data Answer (A : Type 0) : Type 0 where
  valid : A → Answer A
  invalid : Answer A
  raise : Error → Answer A

infixl 5 ◌>>=◌
abbrev pub ◌>>=◌ : {A B : Type 0} → Answer A → (A → Answer B) → Answer B
valid a >>= f = f a
invalid >>= f = invalid
raise e >>= f = raise e

-- The branch that an answer selects, and the one that an option does.
abbrev pub answer : {A B : Type 0} → (A → B) → B → (Error → B) → Answer A → B
answer f b g (valid a) = f a
answer f b g invalid = b
answer f b g (raise e) = g e

abbrev pub option : {A B : Type 0} → B → (A → B) → Option A → B
option b f none = b
option b f (some a) = f a

-- The options of `_CollOf`.
pub record Collection (V : Type 0) : Type 0 where
  pub kind : Option (V → Bool)
  pub count : Option ℕ
  pub min_count : Option ℕ
  pub max_count : Option ℕ
  pub distinct : Bool

-- `pred` is a callable, a type or a set; a callable that raises gives `none`. A conformer gives
-- `none` where it raises or returns `INVALID`. `wrapped` is `_WithGen` or `_PredicateSpec`. A keyword
-- is `named` with the spec that the registry holds for it, or `unregistered`. The methods of a
-- `_MultiSpec` are numbered, and its dispatch gives `none` where the selection raises.
mutual
  pub data Spec (V : Type 0) : Type 0 where
    pred : (V → Option Bool) → Spec V
    fspec : Spec V
    wrapped : Spec V → Spec V
    conformer : (V → Option V) → Option (V → Option V) → Spec V
    nonconforming : Spec V → Spec V
    merge_specs : Specs V → Spec V
    and_specs : Specs V → Spec V
    or_specs : Branches V → Spec V
    nilable : Spec V → Spec V
    coll_of : Collection V → Spec V → Spec V
    map_of : Spec V → Spec V → Spec V
    keys : Branches V → Branches V → Spec V
    tuple : Specs V → Spec V
    multi : (V → Option ℕ) → (ℕ → Spec V) → Spec V
    named : Spec V → Spec V
    unregistered : Spec V
    regex : Regex V → Spec V

  pub data Specs (V : Type 0) : Type 0 where
    no_specs : Specs V
    spec_and : Spec V → Specs V → Specs V

  -- The tagged specs of `_Or`, and the keys of `_Keys`.
  pub data Branches (V : Type 0) : Type 0 where
    no_branches : Branches V
    branch : ℕ → Spec V → Branches V → Branches V

  -- A subclass of `_Regex`; `one` is any other spec, for one value.
  pub data Regex (V : Type 0) : Type 0 where
    one : Spec V → Regex V
    cat : Parts V → Regex V
    alt : Parts V → Regex V
    repeat : Regex V → ℕ → Regex V
    maybe : Regex V → Regex V
    amp : Regex V → Specs V → Regex V
    keys_star : Branches V → Branches V → Regex V

  pub data Parts (V : Type 0) : Type 0 where
    no_parts : Parts V
    part : ℕ → Regex V → Parts V → Parts V
