-- ===== src/Tests/Hashes.antt =====
-- Hashes that src/basilisp/lang/hashing.py gives, next to those of Clojure.
use mathlib.Core.List.{Permᴰ}
use baisilisp.Base.{◌≡◌, refl, [], ◌∷◌, arith}
use baisilisp.Base.Int.{pos, ◌+ℤ◌}
use baisilisp.Number.Wrap.{InWidth}
use baisilisp.Number.{signed, mod_ℤ}
use baisilisp.Hash.{
  integer_hash, hash_long, fmix, int32, uint32_ℕ, mix_h1, rotate_left_32, mix_k1, uint32, times,
  hash_ordered, mix_collection_hash, ordered_from, string_hash, hash_int, java_string_hash,
  java_string_from,
}
use baisilisp.Hash.Values.{
  ValueList, EntryList, integer, string, character, sequential, set_of, mapping, no_values,
  value_and, no_entries, entry_and, hashes, entry_hashes, clojure_hash,
}
use baisilisp.Hash.Unordered.{clojure_hash-unordered}
use baisilisp.Hash.Width.{clojure_hash-InWidth}

abbrev one_two : ValueList
one_two = value_and (integer (pos 1)) (value_and (integer (pos 2)) no_values)

abbrev two_one : ValueList
two_one = value_and (integer (pos 2)) (value_and (integer (pos 1)) no_values)

abbrev entries : EntryList
entries = entry_and (integer (pos 1)) (string (97 ∷ [])) no_entries

-- `(hash 1)`, `(hash [1 2])` and `(hash "a")`
known_hashes :
    (clojure_hash (integer (pos 1)) ≡ pos 1392991556)
    × (clojure_hash (
          sequential (
            value_and
              (integer (pos 1))
              (value_and (integer (pos 2)) (value_and (integer (pos 3)) no_values))))
        ≡ pos 736442005)
    × (clojure_hash (string (97 ∷ [])) ≡ pos 1455541201)
unfolding clojure_hash integer_hash hash_long fmix int32 uint32_ℕ mix_h1 rotate_left_32 mix_k1
    uint32 times hash_ordered mix_collection_hash ordered_from string_hash hash_int java_string_hash
    java_string_from signed mod_ℤ ◌+ℤ◌
known_hashes = (refl, refl, refl)

swapped : Permᴰ (hashes one_two) (hashes two_one)
unfolding hashes
swapped = Permᴰ.swap refl refl

same : Permᴰ (entry_hashes entries) (entry_hashes entries)
unfolding entry_hashes
same = Permᴰ.cons refl Permᴰ.nil

clojure_hash-unordered_example :
    (clojure_hash (set_of one_two) ≡ clojure_hash (set_of two_one))
    × (clojure_hash (mapping entries) ≡ clojure_hash (mapping entries))
clojure_hash-unordered_example = clojure_hash-unordered one_two two_one entries entries swapped same

clojure_hash-InWidth_example : InWidth 32 (clojure_hash (character 65535))
clojure_hash-InWidth_example = clojure_hash-InWidth (character 65535) (omega arith)
