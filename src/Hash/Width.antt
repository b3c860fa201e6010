-- ===== src/Hash/Width.antt =====
-- The hashes of src/basilisp/lang/hashing.py are JVM ints.
use baisilisp.Base.{ℕ, zero, suc, ◌<◌, Bool, true, false, List, arith, ◌==◌, if◌then◌else◌}
use baisilisp.Base.Int.{ℤ, pos, negsuc}
use baisilisp.Number.Wrap.{InWidth, signed-InWidth}
use baisilisp.Hash.{
  int32, fmix, hash_long, big_integer_hash, integer_hash, hash_int, hash_combine,
  mix_collection_hash, hash_ordered, hash_unordered, string_hash,
}
use baisilisp.Hash.Values.{
  Double, zero_double, nan_double, bits_double, Decimal, zero_decimal, not_finite, finite, Value,
  nil, boolean, integer, ratio, decimal, double, character, string, named, record_of, map_entry,
  mapping, set_of, sequential, other_value, double_hash, decimal_hash, ratio_hash, named_hash,
  clojure_hash,
}

int32-InWidth : (z : ℤ) → InWidth 32 (int32 z)
unfolding int32
int32-InWidth z = signed-InWidth z 32 (omega arith)

small-InWidth : (n : ℕ) → n < 2147483648 → InWidth 32 (pos n)
small-InWidth n e = record { above = omega arith; below = omega (arith, e) }

fmix-InWidth : (h count : ℕ) → InWidth 32 (fmix h count)
unfolding fmix
fmix-InWidth h count = int32-InWidth _

if-InWidth : (b : Bool) (y z : ℤ) → InWidth 32 y → InWidth 32 z → InWidth 32 (if b then y else z)
if-InWidth true y z p q = p
if-InWidth false y z p q = q

zero-InWidth : InWidth 32 (pos 0)
zero-InWidth = small-InWidth 0 (omega arith)

big_integer_hash-InWidth : (z : ℤ) → InWidth 32 (big_integer_hash z)
unfolding big_integer_hash
big_integer_hash-InWidth (pos zero) = zero-InWidth
big_integer_hash-InWidth (pos (suc n)) = int32-InWidth _
big_integer_hash-InWidth (negsuc n) = int32-InWidth _

integer_hash-InWidth : (z : ℤ) → InWidth 32 (integer_hash z)
unfolding integer_hash hash_long
integer_hash-InWidth z =
    if-InWidth _ _ _ (if-InWidth _ _ _ zero-InWidth (fmix-InWidth _ _)) (big_integer_hash-InWidth z)

string_hash-InWidth : (units : List ℕ) → InWidth 32 (string_hash units)
unfolding string_hash hash_int
string_hash-InWidth units = if-InWidth _ _ _ zero-InWidth (fmix-InWidth _ _)

double_hash-InWidth : (d : Double) → InWidth 32 (double_hash d)
unfolding double_hash
double_hash-InWidth zero_double = zero-InWidth
double_hash-InWidth nan_double = int32-InWidth _
double_hash-InWidth (bits_double bits) = int32-InWidth _

decimal_hash-InWidth : (d : Decimal) → InWidth 32 (decimal_hash d)
unfolding decimal_hash
decimal_hash-InWidth zero_decimal = zero-InWidth
decimal_hash-InWidth (not_finite text) = string_hash-InWidth text
decimal_hash-InWidth (finite sign digits exponent) = int32-InWidth _

named_hash-InWidth :
    (is_keyword : Bool) (name ns : List ℕ) → InWidth 32 (named_hash is_keyword name ns)
unfolding named_hash hash_combine
named_hash-InWidth is_keyword name ns =
    if-InWidth is_keyword _ _ (int32-InWidth _) (int32-InWidth _)

-- A character is a UTF-16 unit.
abbrev pub IsUnit : Value → Type 0
IsUnit (character unit) = unit < 65536
IsUnit v = Unit

-- The hash of every value is a signed integer of 32 bits, if a character is one UTF-16 unit.
pub clojure_hash-InWidth : (v : Value) → IsUnit v → InWidth 32 (clojure_hash v)
unfolding clojure_hash ratio_hash hash_ordered hash_unordered mix_collection_hash
clojure_hash-InWidth nil u = zero-InWidth
clojure_hash-InWidth (boolean true) u = small-InWidth 1231 (omega arith)
clojure_hash-InWidth (boolean false) u = small-InWidth 1237 (omega arith)
clojure_hash-InWidth (integer n) u = integer_hash-InWidth n
clojure_hash-InWidth (ratio n d) u =
    if-InWidth (d == 1) _ _ (integer_hash-InWidth n) (int32-InWidth _)
clojure_hash-InWidth (decimal d) u = decimal_hash-InWidth d
clojure_hash-InWidth (double d) u = double_hash-InWidth d
clojure_hash-InWidth (character unit) u = small-InWidth unit (omega (arith, u))
clojure_hash-InWidth (string units) u = string_hash-InWidth units
clojure_hash-InWidth (named is_keyword name ns) u = named_hash-InWidth is_keyword name ns
clojure_hash-InWidth (record_of h) u = int32-InWidth h
clojure_hash-InWidth (map_entry k v) u = fmix-InWidth _ _
clojure_hash-InWidth (mapping es) u = fmix-InWidth _ _
clojure_hash-InWidth (set_of vs) u = fmix-InWidth _ _
clojure_hash-InWidth (sequential vs) u = fmix-InWidth _ _
clojure_hash-InWidth (other_value h) u = int32-InWidth h
