-- ===== src/Number/Wrap.antt =====
-- The wrap-around of `_signed` in src/basilisp/lang/numeric_coerce.py.
use native.Mathlib.Nat.{mod-lt, mod-eq_of_lt, two-pow-succ, one-le-pow}
use baisilisp.Base.{
  ◌≡◌, sym, ap, ◌∙◌, ℕ, zero, suc, ◌+◌, ◌-◌, ◌%◌, ◌^◌, ◌≤◌, ◌<◌, false, leb, Bool-cases, inl, inr,
  arith,
}
use baisilisp.Base.Int.{ℤ, pos, negsuc, pos_part, neg_part, sub_ℕ}
use baisilisp.Number.{mod_ℤ, signed}

-- The integers of a signed type of that many bits.
pub record InWidth (bits : ℕ) (z : ℤ) : Type 0 where
  pub above : neg_part z ≤ 2 ^ (bits - 1)
  pub below : pos_part z < 2 ^ (bits - 1)

pub half_width : (bits : ℕ) → 1 ≤ bits → 2 ^ bits ≡ 2 ^ (bits - 1) + 2 ^ (bits - 1)
half_width zero e = ground (arith, e)
half_width (suc k) e =
    let same : suc k - 1 ≡ k = omega arith in two-pow-succ k ∙ ap (λ n. 2 ^ n + 2 ^ n) (sym same)

pub half-pos : (bits : ℕ) → 1 ≤ 2 ^ (bits - 1)
half-pos bits = one-le-pow (bits - 1) 2 (omega arith)

mod_ℤ-lt : (z : ℤ) (m : ℕ) → 1 ≤ m → mod_ℤ z m < m
unfolding mod_ℤ
mod_ℤ-lt (pos n) m e = mod-lt n e
mod_ℤ-lt (negsuc n) m e = omega (arith, e)

pub signed-InWidth : (z : ℤ) (bits : ℕ) → 1 ≤ bits → InWidth bits (signed z bits)
unfolding signed
signed-InWidth z bits e =
    let m = mod_ℤ-lt z (2 ^ bits) (ground (arith, half_width bits e, half-pos bits)) in
    let w = half_width bits e in
    record { above = ground (arith, m, w); below = ground (arith, m, w, half-pos bits) }

-- A value of the type is kept.
pub signed_id : (z : ℤ) (bits : ℕ) → 1 ≤ bits → InWidth bits z → signed z bits ≡ z
unfolding signed mod_ℤ
signed_id (pos n) bits e w =
    let h = half_width bits e in
    let small : n % 2 ^ bits ≡ n = mod-eq_of_lt (ground (arith, h, w.below)) in
    rw small ground (arith, h, w.below)
signed_id (negsuc n) bits e w =
    let h = half_width bits e in
    let small : n % 2 ^ bits ≡ n = mod-eq_of_lt (ground (arith, h, w.above, half-pos bits)) in
    rw small ground (arith, h, w.above, half-pos bits)

mod_ℤ-sub_ℕ : (v m : ℕ) → v < m → mod_ℤ (sub_ℕ v m) m ≡ v
unfolding mod_ℤ
mod_ℤ-sub_ℕ v m e =
    let less : leb m v ≡ false = ground (arith, e) in
    let small : (m - v - 1) % m ≡ m - v - 1 = mod-eq_of_lt (ground (arith, e)) in
    rw (less, small) omega (arith, e)

-- The wrap keeps the value modulo 2 ^ bits.
pub mod_ℤ-signed :
    (z : ℤ) (bits : ℕ) → 1 ≤ bits → mod_ℤ (signed z bits) (2 ^ bits) ≡ mod_ℤ z (2 ^ bits)
unfolding signed mod_ℤ
mod_ℤ-signed z bits e =
    let m = mod_ℤ-lt z (2 ^ bits) (ground (arith, half_width bits e, half-pos bits)) in
    let w = half_width bits e in
    elim (Bool-cases (leb (2 ^ (bits - 1)) (mod_ℤ z (2 ^ bits)))) [
      | inl big ↦ rw big (mod_ℤ-sub_ℕ (mod_ℤ z (2 ^ bits)) (2 ^ bits) m)
      | inr small ↦ rw small (mod-eq_of_lt m)
    ]
