-- ===== src/Importer/Cached.antt =====
-- Bytecode that src/basilisp/importer.py wrote and reads again.
use native.Mathlib.Nat.{mod-eq_of_lt}
use baisilisp.Base.{
  ◌&&◌, ℕ_discrete, ◌≡◌, refl, sym, ap, ◌∙◌, ◌↔◌, inl, inr, ℕ, ◌%◌, ◌^◌, ◌<◌, Bool, false, not,
  Option, none, List, ◌==◌, arith, Bool-cases, if◌then◌else◌,
}
use baisilisp.Importer.{
  Error, import_error, Result, ok, raise, Payload, codes, artifact, r_long, w_long, four_bytes,
  basilisp_bytecode, get_basilisp_bytecode, basilisp_aot_bytecode, get_basilisp_aot_bytecode,
  exec_cached_module, exec_module, load_module,
}

r_long-four_bytes : (x : ℕ) → r_long (four_bytes (x % 2 ^ 32)) ≡ x % 2 ^ 32
unfolding r_long
r_long-four_bytes x = omega arith

-- What the comparisons of the header give.
abbrev checked : {A : Type 0} → ℕ → ℕ → ℕ → ℕ → A → Result A
checked a b a' b' code =
    if not (a == a')
    then raise import_error
    else if not (b == b')
    then raise import_error
    else ok code

module _ {A : Type 0} where
  ok_value : (code found : A) → ok code ≡ ok found → found ≡ code
  ok_value code found e = cc

  raise_ok : (found : A) → raise import_error ≡ ok found → ⊥
  raise_ok found e = cc

  checked_same : (a b a' b' : ℕ) (code : A) → a ≡ a' → b ≡ b' → checked a b a' b' code ≡ ok code
  checked_same a b a' b' code e f = ground (arith, e, f)

  checked_other :
      (a b a' b' : ℕ) (code : A)
      → ((a ≡ a') × (b ≡ b') → ⊥)
      → checked a b a' b' code ≡ raise import_error
  checked_other a b a' b' code e = ground (arith, e)

  checked_ok :
      (a b a' b' : ℕ) (code found : A)
      → checked a b a' b' code ≡ ok found
      → (a ≡ a') × (b ≡ b') × (found ≡ code)
  checked_ok a b a' b' code found e = elim (ℕ_discrete a a') [
    | no p ↦ absurd (raise_ok found (sym (checked_other a b a' b' code (λ both. p both.0)) ∙ e))
    | yes p ↦ elim (ℕ_discrete b b') [
      | no q ↦ absurd (raise_ok found (sym (checked_other a b a' b' code (λ both. q both.1)) ∙ e))
      | yes q ↦ (p, q, ok_value code found (sym (checked_same a b a' b' code p q) ∙ e))
    ]
  ]

module _ {Code : Type 0} (dumps : Payload Code → List ℕ) (loads : List ℕ → Payload Code)
    (loads-dumps : (p : Payload Code) → loads (dumps p) ≡ p) where
  -- What is read from a file that was written.
  read_back :
      (m s m' s' : ℕ) (code : List Code)
      → get_basilisp_bytecode dumps loads m' s' (basilisp_bytecode dumps loads m s code)
        ≡ checked (m % 2 ^ 32) (s % 2 ^ 32) m' s' code
  unfolding get_basilisp_bytecode basilisp_bytecode w_long
  read_back m s m' s' code =
      rw (r_long-four_bytes m, r_long-four_bytes s, loads-dumps (codes code)) refl

  -- A cache file that was written for a time and a size gives code back if and only if the source has
  -- that time and that size cut to 32 bits, and then it is the code that was written: the time and the size of the
  -- source itself are not cut.
  pub basilisp_bytecode_read :
      (m s m' s' : ℕ) (code found : List Code)
      → (get_basilisp_bytecode dumps loads m' s' (basilisp_bytecode dumps loads m s code)
          ≡ ok found)
        ↔ ((m % 2 ^ 32 ≡ m') × (s % 2 ^ 32 ≡ s') × (found ≡ code))
  basilisp_bytecode_read m s m' s' code found = (
    λ e. checked_ok (m % 2 ^ 32) (s % 2 ^ 32) m' s' code found (sym (read_back m s m' s' code) ∙ e),
    λ e.
        read_back m s m' s' code
        ∙ checked_same (m % 2 ^ 32) (s % 2 ^ 32) m' s' code e.0 e.1
        ∙ ap ok (sym e.2),
  )

  -- Artifacts are read back as they were written, and neither format is taken for the other.
  pub basilisp_aot_bytecode_read :
      (name : List ℕ) (m s : ℕ) (code : List Code)
      → (get_basilisp_aot_bytecode dumps loads (basilisp_aot_bytecode dumps loads name code)
          ≡ ok (name, code))
        × (get_basilisp_bytecode dumps loads m s (basilisp_aot_bytecode dumps loads name code)
            ≡ raise import_error)
        × (get_basilisp_aot_bytecode dumps loads (basilisp_bytecode dumps loads m s code)
            ≡ raise import_error)
  unfolding get_basilisp_bytecode basilisp_bytecode get_basilisp_aot_bytecode basilisp_aot_bytecode
      w_long
  basilisp_aot_bytecode_read name m s code =
      (rw (loads-dumps (artifact name code)) refl, refl, refl)

  -- A module that was compiled and cached for a time and a size below 2 ^ 32 is not compiled again while it
  -- has them: then loading it runs the code that was collected, whatever the compiler would make of the
  -- source now, and keeps the cache. If the time or the size differ, the result and the cache are those of
  -- a compilation. This holds if the code runs without an exception.
  pub load_module-cached :
      (dont_write : Bool) (execute : List Code → Option Error) (code : List Code)
      (compiled : Result (List Code)) (m s m' s' : ℕ) (cache : Option (List ℕ))
      → m < 2 ^ 32
      → s < 2 ^ 32
      → execute code ≡ none
      → load_module dumps loads false dont_write execute compiled m' s'
          (exec_module dumps loads false (ok code) m s cache).1
        ≡ (if m == m' && s == s'
            then (ok code, (exec_module dumps loads false (ok code) m s cache).1)
            else exec_module dumps loads dont_write compiled m' s'
                (exec_module dumps loads false (ok code) m s cache).1)
  unfolding load_module exec_module exec_cached_module
  load_module-cached dont_write execute code compiled m s m' s' cache em es run =
      elim (Bool-cases (m == m' && s == s')) [
        | inl e ↦
            let same_m : m ≡ m' = ground (arith, e) in
            let same_s : s ≡ s' = ground (arith, e) in
            let hit =
              read_back m s m' s' code
              ∙ checked_same (m % 2 ^ 32) (s % 2 ^ 32) m' s' code (mod-eq_of_lt em ∙ same_m)
                  (mod-eq_of_lt es ∙ same_s) in
            rw (e, hit, run) refl
        | inr e ↦
            let miss =
              read_back m s m' s' code
              ∙ checked_other (m % 2 ^ 32) (s % 2 ^ 32) m' s' code (λ both.
                let same_m : m ≡ m' = sym (mod-eq_of_lt em) ∙ both.0 in
                let same_s : s ≡ s' = sym (mod-eq_of_lt es) ∙ both.1 in
                ground (arith, e, same_m, same_s)) in
            rw (e, miss) refl
      ]
