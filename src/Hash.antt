-- ===== src/Hash.antt =====
-- The 32-bit arithmetic of src/basilisp/lang/hashing.py, on Python's integers.
pub mod Values
pub mod Unordered
pub mod Width
pub mod Words
use Prim.Native.Nat.{bit_or, bit_xor}
use baisilisp.Base.{
  ℕ, zero, suc, ◌+◌, ◌-◌, ◌*◌, ◌/◌, ◌%◌, ◌^◌, ◌&&◌, leb, Bool, List, [], ◌∷◌, ◌++◌, length, ltb,
  ◌==◌, if◌then◌else◌,
}
use baisilisp.Base.Int.{ℤ, pos, negsuc, pos_part, neg_part, sub_ℕ, ◌+ℤ◌}
use baisilisp.Number.{mod_ℤ, signed}

-- `value & _MASK_32`, with the sign of a JVM `int`
unfoldable pub int32 : ℤ → ℤ
int32 value = signed value 32

unfoldable pub uint32 : ℤ → ℕ
uint32 value = mod_ℤ value (2 ^ 32)

unfoldable pub uint32_ℕ : ℕ → ℕ
uint32_ℕ value = value % 2 ^ 32

-- `k * z` for a `k` that is not negative
unfoldable pub times : ℕ → ℤ → ℤ
times k (pos n) = pos (k * n)
times k (negsuc n) = sub_ℕ 0 (k * suc n)

-- `^` of integers: `-(n + 1)` is the complement of `n`
unfoldable pub xor_ℤ : ℤ → ℤ → ℤ
xor_ℤ (pos a) (pos b) = pos (bit_xor a b)
xor_ℤ (pos a) (negsuc b) = negsuc (bit_xor a b)
xor_ℤ (negsuc a) (pos b) = negsuc (bit_xor a b)
xor_ℤ (negsuc a) (negsuc b) = pos (bit_xor a b)

unfoldable pub shift_right_ℤ : ℤ → ℕ → ℤ
shift_right_ℤ (pos n) k = pos (n / 2 ^ k)
shift_right_ℤ (negsuc n) k = negsuc (n / 2 ^ k)

unfoldable pub rotate_left_32 : ℕ → ℕ → ℕ
rotate_left_32 value amount =
    let value = uint32_ℕ value in uint32_ℕ (bit_or (value * 2 ^ amount) (value / 2 ^ (32 - amount)))

unfoldable pub mix_k1 : ℤ → ℕ
mix_k1 value =
    let value = uint32 (times 3432918353 value) in uint32_ℕ (rotate_left_32 value 15 * 461845907)

unfoldable pub mix_h1 : ℕ → ℕ → ℕ
mix_h1 hash_basis value =
    let hash_basis = bit_xor (uint32_ℕ hash_basis) (uint32_ℕ value) in
    uint32_ℕ (rotate_left_32 hash_basis 13 * 5 + 3864292196)

unfoldable pub fmix : ℕ → ℕ → ℤ
fmix hash_basis count =
    let h = bit_xor (uint32_ℕ hash_basis) (uint32_ℕ count) in
    let h = bit_xor h (h / 2 ^ 16) in
    let h = uint32_ℕ (h * 2246822507) in
    let h = bit_xor h (h / 2 ^ 13) in
    let h = uint32_ℕ (h * 3266489909) in int32 (pos (bit_xor h (h / 2 ^ 16)))

unfoldable pub hash_long : ℤ → ℤ
hash_long value =
    if neg_part value + pos_part value == 0
    then pos 0
    else let unsigned_value = mod_ℤ value (2 ^ 64) in
      let h = mix_h1 0 (mix_k1 (pos (uint32_ℕ unsigned_value))) in
      fmix (mix_h1 h (mix_k1 (pos (unsigned_value / 2 ^ 32)))) 8

-- The words of a magnitude, the lowest first; a unit of fuel for each turn of the loop.
unfoldable pub words_of : ℕ → ℕ → List ℕ
words_of zero magnitude = []
words_of (suc fuel) magnitude =
    let rest = words_of fuel (magnitude / 2 ^ 32) in
    if magnitude == 0 then [] else magnitude % 2 ^ 32 ∷ rest

-- the loop over the words in reverse
unfoldable pub hash_words : List ℕ → ℤ
hash_words [] = pos 0
hash_words (word ∷ words) = int32 (times 31 (hash_words words) +ℤ pos word)

unfoldable pub negate : ℤ → ℤ
negate z = sub_ℕ (neg_part z) (pos_part z)

-- A magnitude has no more words than its value.
unfoldable pub big_integer_hash : ℤ → ℤ
big_integer_hash (pos zero) = pos 0
big_integer_hash (pos (suc n)) = int32 (hash_words (words_of (suc n) (suc n)))
big_integer_hash (negsuc n) = int32 (negate (hash_words (words_of (suc n) (suc n))))

unfoldable pub integer_hash : ℤ → ℤ
integer_hash value =
    if ltb (pos_part value) (2 ^ 63) && leb (neg_part value) (2 ^ 63)
    then hash_long value
    else big_integer_hash value

unfoldable pub hash_int : ℤ → ℤ
hash_int value =
    if neg_part value + pos_part value == 0 then pos 0 else fmix (mix_h1 0 (mix_k1 value)) 4

-- Strings are lists of UTF-16 units.
unfoldable pub java_string_from : ℤ → List ℕ → ℤ
java_string_from h [] = h
java_string_from h (unit ∷ units) = java_string_from (int32 (times 31 h +ℤ pos unit)) units

unfoldable pub java_string_hash : List ℕ → ℤ
java_string_hash units = java_string_from (pos 0) units

unfoldable pub string_hash : List ℕ → ℤ
string_hash units = hash_int (java_string_hash units)

-- The loop over pairs of units, and the unit that may be left.
unfoldable pub unencoded_from : ℕ → List ℕ → ℕ
unencoded_from h [] = h
unencoded_from h (unit ∷ []) = bit_xor h (mix_k1 (pos unit))
unencoded_from h (low ∷ high ∷ units) =
    unencoded_from (mix_h1 h (mix_k1 (pos (bit_or low (high * 2 ^ 16))))) units

unfoldable pub hash_unencoded_chars : List ℕ → ℤ
hash_unencoded_chars units = fmix (unencoded_from 0 units) (2 * length units)

-- `_GOLDEN_RATIO_32`
abbrev pub golden_ratio_32 : ℤ
golden_ratio_32 = negsuc 1640531526

unfoldable pub hash_combine : ℤ → ℤ → ℤ
hash_combine left right =
    int32 (xor_ℤ left (right +ℤ golden_ratio_32 +ℤ times 64 left +ℤ shift_right_ℤ left 2))

unfoldable pub mix_collection_hash : ℤ → ℕ → ℤ
mix_collection_hash hash_basis count = fmix (mix_h1 0 (mix_k1 hash_basis)) count

-- The loops of `hash_ordered` and `hash_unordered`, over the hashes of the values.
unfoldable pub ordered_from : ℤ → List ℤ → ℤ
ordered_from h [] = h
ordered_from h (x ∷ xs) = ordered_from (int32 (times 31 h +ℤ x)) xs

unfoldable pub unordered_from : ℤ → List ℤ → ℤ
unordered_from h [] = h
unordered_from h (x ∷ xs) = unordered_from (int32 (h +ℤ x)) xs

unfoldable pub hash_ordered : List ℤ → ℤ
hash_ordered xs = mix_collection_hash (ordered_from (pos 1) xs) (length xs)

unfoldable pub hash_unordered : List ℤ → ℤ
hash_unordered xs = mix_collection_hash (unordered_from (pos 0) xs) (length xs)
