-- ===== src/Hash/Words.antt =====
-- The words of a magnitude in src/basilisp/lang/hashing.py.
use native.Mathlib.Nat.{mod-add-div'}
use baisilisp.Base.{
  ◌≡◌, ap, ◌∙◌, ℕ, zero, suc, ◌+◌, ◌*◌, ◌/◌, ◌%◌, ◌≤◌, List, [], ◌∷◌, arith, ◌==◌, Bool-cases, inl,
  inr,
}
use baisilisp.Hash.{words_of}

-- The number that words make, the lowest first.
abbrev pub value_of : List ℕ → ℕ
value_of [] = 0
value_of (word ∷ words) = word + value_of words * 4294967296

-- As much fuel as the magnitude is enough for all its words.
pub value_of-words_of : (fuel n : ℕ) → n ≤ fuel → value_of (words_of fuel n) ≡ n
unfolding words_of
value_of-words_of zero n e = omega (arith, e)
value_of-words_of (suc fuel) n e = elim (Bool-cases (n == 0)) [
  | inl z ↦ rw (z, words_of) ground (arith, z)
  | inr z ↦
      let smaller : n / 4294967296 ≤ fuel = ground (arith, e, z) in
      rw (z, words_of)
        (ap (λ k. n % 4294967296 + k * 4294967296) (value_of-words_of fuel (n / 4294967296) smaller)
          ∙ mod-add-div' n 4294967296)
]
