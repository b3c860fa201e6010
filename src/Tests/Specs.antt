-- ===== src/Tests/Specs.antt =====
-- Specs over small values: nil, numbers, keywords, vectors, and maps from keywords.
use baisilisp.Base.{
  ℕ, ◌≡◌, ◌≢◌, refl, ap, Bool, true, false, Option, none, some, List, [], ◌∷◌, ℕ_discrete,
}
use baisilisp.Base.Dict.{Dict, get, put}
use baisilisp.Spec.{
  Host, valid, raise, no_fuel, Spec, pred, or_specs, regex, no_branches, branch, one, cat, repeat,
  no_parts, part,
}
use baisilisp.Spec.Conform.{conform, first, whole_from, each, repeat_loop, counted, repeated}
use baisilisp.Spec.Unform.{unform}
use baisilisp.Spec.Laws.{Laws, Reversible}
use baisilisp.Spec.RoundTrip.{unform-conform}
use baisilisp.Spec.Ends.{conform_ends}

mutual
  data Value : Type 0 where
    null : Value
    num : ℕ → Value
    word : ℕ → Value
    vector : Values → Value
    table : Fields → Value

  data Values : Type 0 where
    nothing : Values
    item : Value → Values → Values

  data Fields : Type 0 where
    end : Fields
    field : ℕ → Value → Fields → Fields

abbrev to_list : Values → List Value
to_list nothing = []
to_list (item v vs) = v ∷ to_list vs

abbrev of_list : List Value → Values
of_list [] = nothing
of_list (v ∷ vs) = item v (of_list vs)

abbrev to_dict : Fields → Dict ℕ Value
to_dict end = []
to_dict (field k v fs) = (k, v) ∷ to_dict fs

abbrev of_dict : Dict ℕ Value → Fields
of_dict [] = end
of_dict ((k, v) ∷ d) = field k v (of_dict d)

abbrev tag_pairs : Dict ℕ Value → List (Value × Value)
tag_pairs [] = []
tag_pairs ((k, v) ∷ d) = (word k, v) ∷ tag_pairs d

to_list-of_list : (vs : List Value) → to_list (of_list vs) ≡ vs
to_list-of_list [] = refl
to_list-of_list (v ∷ vs) = ap (◌∷◌ v) (to_list-of_list vs)

of_list-to_list : (vs : Values) → of_list (to_list vs) ≡ vs
of_list-to_list nothing = refl
of_list-to_list (item v vs) = ap (item v) (of_list-to_list vs)

to_dict-of_dict : (d : Dict ℕ Value) → to_dict (of_dict d) ≡ d
to_dict-of_dict [] = refl
to_dict-of_dict ((k, v) ∷ d) = ap (◌∷◌ (k, v)) (to_dict-of_dict d)

abbrev items_of : Value → Option (List Value)
items_of (vector vs) = some (to_list vs)
items_of _ = none

abbrev entries_of : Value → Option (List (Value × Value))
entries_of (table fs) = some (tag_pairs (to_dict fs))
entries_of _ = none

abbrev field_of : Value → ℕ → Option Value
field_of (table fs) k = get ℕ_discrete k (to_dict fs)
field_of _ k = none

abbrev word_of : Value → Option ℕ
word_of (word n) = some n
word_of _ = none

abbrev is_null : Value → Bool
is_null null = true
is_null _ = false

abbrev values : Host Value
values = record {
  nil = null;
  is_nil = is_null;
  is_callable = λ v. false;
  items = items_of;
  iter = items_of;
  vec = λ vs. vector (of_list vs);
  entries = entries_of;
  merge = λ vs. null;
  tag = word;
  tag_of = word_of;
  map = λ d. table (of_dict d);
  val_at = field_of;
  all_different = λ vs. true;
}

vector_of_items : (v : Value) (xs : List Value) → items_of v ≡ some xs → vector (of_list xs) ≡ v
vector_of_items (vector vs) xs e =
    let same : to_list vs ≡ xs = cc in rw (← same) (ap vector (of_list-to_list vs))
vector_of_items null xs e = cc
vector_of_items (num n) xs e = cc
vector_of_items (word n) xs e = cc
vector_of_items (table fs) xs e = cc

values-Laws : Laws values
values-Laws = record {
  items-vec = λ xs. ap some (to_list-of_list xs);
  vec-iter = vector_of_items;
  tag_of-tag = λ n. refl;
  is_nil-nil = refl;
  entries-map = λ d. refl;
  val_at-map = λ d t. ap (get ℕ_discrete t) (to_dict-of_dict d);
}

abbrev is_num : Value → Option Bool
is_num (num n) = some true
is_num _ = some false

abbrev is_word : Value → Option Bool
is_word (word n) = some true
is_word _ = some false

-- `(s/or :num number? :word keyword?)`, with the keywords 0 and 1
abbrev either : Spec Value
either = or_specs (branch 0 (pred is_num) (branch 1 (pred is_word) no_branches))

-- `(s/cat :first number? :rest (s/+ either))`
abbrev line : Spec Value
line = regex (cat (part 2 (one (pred is_num)) (part 3 (repeat (one either) 1) no_parts)))

abbrev input : Value
input = vector (item (num 7) (item (word 5) (item (num 8) nothing)))

abbrev pair_of : ℕ → Value → Value
pair_of n v = vector (item (word n) (item v nothing))

abbrev output : Value
output = table (
    field 2 (num 7)
      (field 3 (vector (item (pair_of 1 (word 5)) (item (pair_of 0 (num 8)) nothing))) end))

input-conforms : conform values line input ≡ valid output
unfolding conform first whole_from each repeat_loop counted repeated put ℕ_discrete
input-conforms = refl

line-Reversible : Reversible values line
unfolding Reversible
line-Reversible = (refl, tt, (refl, (refl, tt, (refl, tt, tt)), tt))

unform-conform_example : unform values line output ≡ some input
unform-conform_example =
    unform-conform values values-Laws line input output line-Reversible input-conforms

conform_ends_example : conform values line input ≢ raise no_fuel
conform_ends_example = conform_ends values line input
