-- ===== src/Hash/Values.antt =====
-- `clojure_hash` of src/basilisp/lang/hashing.py, over the kinds of values that it tells apart.
use Prim.Native.Nat.{bit_xor}
use baisilisp.Base.{
  ℕ, zero, ◌+◌, ◌*◌, ◌/◌, ◌^◌, Bool, true, false, List, [], ◌∷◌, ◌==◌, if◌then◌else◌,
}
use baisilisp.Base.Int.{ℤ, pos, ◌+ℤ◌}
use baisilisp.Hash.{
  int32, xor_ℤ, times, negate, big_integer_hash, integer_hash, java_string_hash, string_hash,
  hash_unencoded_chars, golden_ratio_32, hash_combine, hash_ordered, hash_unordered,
}

-- A float: one equal to zero, not a number, or another by its 64 bits.
pub data Double : Type 0 where
  zero_double nan_double : Double
  bits_double : ℕ → Double

-- A decimal: one equal to zero, one that is not finite by its text, or another by its sign, its digits with
-- the last one first, and its exponent.
pub data Decimal : Type 0 where
  zero_decimal : Decimal
  not_finite : List ℕ → Decimal
  finite : Bool → List ℕ → ℤ → Decimal

-- The values by the branches of `clojure_hash`. The `ratio` of a numerator and a denominator; `named`
-- says whether it is a keyword, and has the name and the namespace, `[]` without one; a record and any
-- other value have Python's hash.
mutual
  pub data Value : Type 0 where
    nil : Value
    boolean : Bool → Value
    integer : ℤ → Value
    ratio : ℤ → ℕ → Value
    decimal : Decimal → Value
    double : Double → Value
    character : ℕ → Value
    string : List ℕ → Value
    named : Bool → List ℕ → List ℕ → Value
    record_of : ℤ → Value
    map_entry : Value → Value → Value
    mapping : EntryList → Value
    set_of sequential : ValueList → Value
    other_value : ℤ → Value

  pub data ValueList : Type 0 where
    no_values : ValueList
    value_and : Value → ValueList → ValueList

  pub data EntryList : Type 0 where
    no_entries : EntryList
    entry_and : Value → Value → EntryList → EntryList

unfoldable pub double_hash : Double → ℤ
double_hash zero_double = pos 0
double_hash nan_double = int32 (pos (bit_xor 9221120237041090560 (9221120237041090560 / 2 ^ 32)))
double_hash (bits_double bits) = int32 (pos (bit_xor bits (bits / 2 ^ 32)))

-- the digits without zeros at the end, and the exponent
unfoldable pub strip_zeros : List ℕ → ℤ → List ℕ × ℤ
strip_zeros (zero ∷ digit ∷ digits) exponent = strip_zeros (digit ∷ digits) (exponent +ℤ pos 1)
strip_zeros digits exponent = (digits, exponent)

unfoldable pub unscaled : List ℕ → ℕ
unscaled [] = 0
unscaled (digit ∷ digits) = unscaled digits * 10 + digit

abbrev pub with_sign : Bool → ℤ → ℤ
with_sign true z = negate z
with_sign false z = z

unfoldable pub decimal_hash : Decimal → ℤ
decimal_hash zero_decimal = pos 0
decimal_hash (not_finite text) = string_hash text
decimal_hash (finite sign digits exponent) =
    let stripped = strip_zeros digits exponent in
    int32 (
      times 31 (big_integer_hash (with_sign sign (pos (unscaled stripped.0)))) +ℤ negate stripped.1)

unfoldable pub ratio_hash : ℤ → ℕ → ℤ
ratio_hash numerator denominator =
    int32 (xor_ℤ (big_integer_hash numerator) (big_integer_hash (pos denominator)))

unfoldable pub named_hash : Bool → List ℕ → List ℕ → ℤ
named_hash is_keyword name ns =
    let symbol_hash = hash_combine (hash_unencoded_chars name) (java_string_hash ns) in
    if is_keyword then int32 (symbol_hash +ℤ golden_ratio_32) else symbol_hash

unfoldable mutual
  pub clojure_hash : Value → ℤ
  clojure_hash nil = pos 0
  clojure_hash (boolean b) = pos (if b then 1231 else 1237)
  clojure_hash (integer n) = integer_hash n
  clojure_hash (ratio n d) = if d == 1 then integer_hash n else ratio_hash n d
  clojure_hash (decimal d) = decimal_hash d
  clojure_hash (double d) = double_hash d
  clojure_hash (character unit) = pos unit
  clojure_hash (string units) = string_hash units
  clojure_hash (named is_keyword name ns) = named_hash is_keyword name ns
  clojure_hash (record_of h) = int32 h
  clojure_hash (map_entry k v) = hash_ordered (clojure_hash k ∷ clojure_hash v ∷ [])
  clojure_hash (mapping es) = hash_unordered (entry_hashes es)
  clojure_hash (set_of vs) = hash_unordered (hashes vs)
  clojure_hash (sequential vs) = hash_ordered (hashes vs)
  clojure_hash (other_value h) = int32 h

  pub hashes : ValueList → List ℤ
  hashes no_values = []
  hashes (value_and v vs) = clojure_hash v ∷ hashes vs

  pub entry_hashes : EntryList → List ℤ
  entry_hashes no_entries = []
  entry_hashes (entry_and k v es) =
      hash_ordered (clojure_hash k ∷ clojure_hash v ∷ []) ∷ entry_hashes es
