-- ===== src/Importer.antt =====
-- The cached bytecode of src/basilisp/importer.py. Files are lists of bytes; `Code` are Python's code
-- objects, and the package `marshal` is a pair of parameters.
pub mod Cached
use baisilisp.Base.{
  ℕ, ◌+◌, ◌*◌, ◌/◌, ◌%◌, ◌^◌, Bool, true, false, not, ◌&&◌, Option, none, some, List, [], ◌∷◌, ◌++◌,
  ◌==◌, length, take, drop, if◌then◌else◌,
}

-- The exceptions that loading a module tells apart.
pub data Error : Type 0 where
  import_error eof_error os_error : Error
  other_error : ℕ → Error

pub data Result (A : Type 0) : Type 0 where
  ok : A → Result A
  raise : Error → Result A

-- What `marshal` gives back: a list of code objects, a name with such a list, another object, or
-- an exception.
pub data Payload (Code : Type 0) : Type 0 where
  codes : List Code → Payload Code
  artifact : List ℕ → List Code → Payload Code
  other_payload invalid : Payload Code

-- `MAGIC_NUMBER` and `_AOT_MAGIC_NUMBER`
abbrev pub magic_number : List ℕ
magic_number = 125 ∷ 4 ∷ 13 ∷ 10 ∷ []

abbrev pub aot_magic_number : List ℕ
aot_magic_number = 126 ∷ 4 ∷ 13 ∷ 10 ∷ []

abbrev pub same_bytes : List ℕ → List ℕ → Bool
same_bytes [] [] = true
same_bytes (a ∷ xs) (b ∷ bs) = a == b && same_bytes xs bs
same_bytes _ _ = false

unfoldable pub r_long : List ℕ → ℕ
r_long [] = 0
r_long (b ∷ bs) = b + 256 * r_long bs

-- the four bytes of a number below `2 ^ 32`
abbrev pub four_bytes : ℕ → List ℕ
four_bytes x = x % 256 ∷ x / 256 % 256 ∷ x / 65536 % 256 ∷ x / 16777216 % 256 ∷ []

unfoldable pub w_long : ℕ → List ℕ
w_long x = four_bytes (x % 2 ^ 32)

module _ {Code : Type 0} (dumps : Payload Code → List ℕ) (loads : List ℕ → Payload Code) where
  -- `_basilisp_bytecode`
  unfoldable pub basilisp_bytecode : ℕ → ℕ → List Code → List ℕ
  basilisp_bytecode mtime source_size code =
      magic_number ++ w_long mtime ++ w_long source_size ++ dumps (codes code)

  abbrev pub only_codes : Payload Code → Result (List Code)
  only_codes (codes code) = ok code
  only_codes _ = raise import_error

  -- `_get_basilisp_bytecode`
  unfoldable pub get_basilisp_bytecode : ℕ → ℕ → List ℕ → Result (List Code)
  get_basilisp_bytecode mtime source_size cache_data =
      let raw_timestamp = take 4 (drop 4 cache_data) in
      let raw_size = take 4 (drop 8 cache_data) in
      if not (same_bytes (take 4 cache_data) magic_number)
      then raise import_error
      else if not (length raw_timestamp == 4)
      then raise eof_error
      else if not (r_long raw_timestamp == mtime)
      then raise import_error
      else if not (length raw_size == 4)
      then raise eof_error
      else if not (r_long raw_size == source_size)
      then raise import_error
      else only_codes (loads (drop 12 cache_data))

  unfoldable pub basilisp_aot_bytecode : List ℕ → List Code → List ℕ
  basilisp_aot_bytecode source_filename code =
      aot_magic_number ++ dumps (artifact source_filename code)

  abbrev pub only_artifact : Payload Code → Result (List ℕ × List Code)
  only_artifact (artifact name code) = ok (name, code)
  only_artifact _ = raise import_error

  unfoldable pub get_basilisp_aot_bytecode : List ℕ → Result (List ℕ × List Code)
  get_basilisp_aot_bytecode cache_data =
      if not (same_bytes (take 4 cache_data) aot_magic_number)
      then raise import_error
      else only_artifact (loads (drop 4 cache_data))

  -- Running the code objects of a module ends with an exception, or without.
  abbrev pub executed : Option Error → List Code → Result (List Code)
  executed none code = ok code
  executed (some e) code = raise e

  abbrev pub run_code : (List Code → Option Error) → Result (List Code) → Result (List Code)
  run_code execute (ok code) = executed (execute code) code
  run_code execute (raise e) = raise e

  -- `_exec_cached_module`; a file that is not there is an `OSError`
  unfoldable pub exec_cached_module :
      (List Code → Option Error) → ℕ → ℕ → Option (List ℕ) → Result (List Code)
  exec_cached_module execute mtime size none = raise os_error
  exec_cached_module execute mtime size (some bytes) =
      run_code execute (get_basilisp_bytecode mtime size bytes)

  -- `_exec_module`, given what the compiler makes of the source while it runs it, with the cache file
  -- after it
  unfoldable pub exec_module :
      Bool → Result (List Code) → ℕ → ℕ → Option (List ℕ) → Result (List Code) × Option (List ℕ)
  exec_module dont_write (raise e) mtime size cache = (raise e, cache)
  exec_module dont_write (ok code) mtime size cache =
      (ok code, if dont_write then cache else some (basilisp_bytecode mtime size code))

  -- the `except` clause of `exec_module` of the importer
  abbrev pub or_compile :
      Result (List Code)
      → Option (List ℕ)
      → Result (List Code) × Option (List ℕ)
      → Result (List Code) × Option (List ℕ)
  or_compile (ok code) cache compiled = (ok code, cache)
  or_compile (raise (other_error n)) cache compiled = (raise (other_error n), cache)
  or_compile (raise e) cache compiled = compiled

  -- `exec_module` of the importer, for a module without an artifact
  unfoldable pub load_module :
      Bool
      → Bool
      → (List Code → Option Error)
      → Result (List Code)
      → ℕ
      → ℕ
      → Option (List ℕ)
      → Result (List Code) × Option (List ℕ)
  load_module no_cache dont_write execute compiled mtime size cache =
      if no_cache
      then exec_module dont_write compiled mtime size cache
      else or_compile (exec_cached_module execute mtime size cache) cache
          (exec_module dont_write compiled mtime size cache)
