-- ===== src/Tests/Importers.antt =====
-- A module that src/basilisp/importer.py caches; the code objects are bytes, and `marshal` puts a length
-- before the name of an artifact.
use baisilisp.Base.{
  ◌%◌, ◌^◌, ◌↔◌, ◌≡◌, refl, ap, ℕ, zero, suc, true, false, Option, none, List, [], ◌∷◌, ◌++◌,
  length, take, drop, arith,
}
use baisilisp.Importer.{
  ok, raise, import_error, Payload, codes, artifact, other_payload, invalid, basilisp_bytecode,
  get_basilisp_bytecode, basilisp_aot_bytecode, get_basilisp_aot_bytecode, load_module, exec_module,
}
use baisilisp.Importer.Cached.{
  basilisp_bytecode_read, basilisp_aot_bytecode_read, load_module-cached,
}

abbrev dumps : Payload ℕ → List ℕ
dumps (codes code) = 0 ∷ code
dumps (artifact name code) = 1 ∷ length name ∷ name ++ code
dumps other_payload = 2 ∷ []
dumps invalid = []

abbrev loads : List ℕ → Payload ℕ
loads (zero ∷ code) = codes code
loads (suc zero ∷ n ∷ rest) = artifact (take n rest) (drop n rest)
loads (suc (suc n) ∷ rest) = other_payload
loads _ = invalid

take-append : (xs ys : List ℕ) → take (length xs) (xs ++ ys) ≡ xs
take-append [] ys = refl
take-append (x ∷ xs) ys = ap (λ zs. x ∷ zs) (take-append xs ys)

drop-append : (xs ys : List ℕ) → drop (length xs) (xs ++ ys) ≡ ys
drop-append [] ys = refl
drop-append (x ∷ xs) ys = drop-append xs ys

loads-dumps : (p : Payload ℕ) → loads (dumps p) ≡ p
loads-dumps (codes code) = refl
loads-dumps (artifact name code) = rw (take-append name code, drop-append name code) refl
loads-dumps other_payload = refl
loads-dumps invalid = refl

abbrev code : List ℕ
code = 1 ∷ 2 ∷ []

abbrev five : ℕ
five = 5

-- The time is five more than 2 ^ 32.
basilisp_bytecode_read_example :
    (get_basilisp_bytecode dumps loads five five
        (basilisp_bytecode dumps loads 4294967301 five code)
      ≡ ok code)
    ↔ ((4294967301 % 2 ^ 32 ≡ five) × (five % 2 ^ 32 ≡ five) × (code ≡ code))
basilisp_bytecode_read_example =
    basilisp_bytecode_read dumps loads loads-dumps 4294967301 five five five code code

artifact_apart :
    (get_basilisp_aot_bytecode dumps loads (basilisp_aot_bytecode dumps loads (8 ∷ []) (1 ∷ []))
      ≡ ok (8 ∷ [], 1 ∷ []))
    × (get_basilisp_bytecode dumps loads 5 7 (basilisp_aot_bytecode dumps loads (8 ∷ []) (1 ∷ []))
        ≡ raise import_error)
    × (get_basilisp_aot_bytecode dumps loads (basilisp_bytecode dumps loads 5 7 (1 ∷ []))
        ≡ raise import_error)
artifact_apart = basilisp_aot_bytecode_read dumps loads loads-dumps (8 ∷ []) 5 7 (1 ∷ [])

abbrev written : Option (List ℕ)
written = (exec_module dumps loads false (ok code) 5 7 none).1

load_module-cached_example :
    load_module dumps loads false true (λ code. none) (raise import_error) 5 7 written
    ≡ (ok code, written)
load_module-cached_example =
    load_module-cached dumps loads loads-dumps true (λ code. none) code (raise import_error) 5 7 5 7
      none (omega arith) (omega arith) refl
