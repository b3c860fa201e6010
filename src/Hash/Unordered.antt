-- ===== src/Hash/Unordered.antt =====
-- `hash_unordered` of src/basilisp/lang/hashing.py does not depend on the order.
use mathlib.Core.List.{Permᴰ}
use baisilisp.Base.{◌≡◌, refl, sym, ap, ◌∙◌, ℕ, suc, ◌+◌, ◌%◌, ◌^◌, ◌<◌, List, length, arith}
use baisilisp.Base.Int.{ℤ, pos, negsuc, pos_part, neg_part, ◌+ℤ◌, +ℤ_parts, eq_of_parts}
use baisilisp.Number.{mod_ℤ, signed}
use baisilisp.Number.Wrap.{mod_ℤ-signed}
use baisilisp.Hash.Values.{
  ValueList, EntryList, set_of, mapping, hashes, entry_hashes, clojure_hash,
}
use baisilisp.Hash.{int32, unordered_from, hash_unordered}

int32_mod : (y z : ℤ) → mod_ℤ y (2 ^ 32) ≡ mod_ℤ z (2 ^ 32) → int32 y ≡ int32 z
unfolding int32 signed
int32_mod y z e = rw e refl

-- What the remainder of an integer is.
mod_parts : (z : ℤ) → (mod_ℤ z 4294967296 + neg_part z) % 4294967296 ≡ pos_part z % 4294967296
unfolding mod_ℤ
mod_parts (pos n) = omega arith
mod_parts (negsuc n) = omega arith

mod_below : (z : ℤ) → mod_ℤ z 4294967296 < 4294967296
unfolding mod_ℤ
mod_below (pos n) = omega arith
mod_below (negsuc n) = omega arith

mod_unique :
    (z : ℤ) (r : ℕ)
    → r < 4294967296
    → (r + neg_part z) % 4294967296 ≡ pos_part z % 4294967296
    → mod_ℤ z 4294967296 ≡ r
mod_unique z r b e = omega (arith, b, e, mod_parts z, mod_below z)

mod_add :
    (a b x : ℤ)
    → mod_ℤ a 4294967296 ≡ mod_ℤ b 4294967296
    → mod_ℤ (a +ℤ x) 4294967296 ≡ mod_ℤ (b +ℤ x) 4294967296
mod_add a b x e =
    mod_unique (a +ℤ x) (mod_ℤ (b +ℤ x) 4294967296) (mod_below (b +ℤ x))
      (omega (arith, e, mod_parts a, mod_parts b, mod_parts (b +ℤ x), +ℤ_parts a x, +ℤ_parts b x))

int32_add : (a x : ℤ) → int32 (int32 a +ℤ x) ≡ int32 (a +ℤ x)
unfolding int32
int32_add a x =
    int32_mod (int32 a +ℤ x) (a +ℤ x) (mod_add (int32 a) a x (mod_ℤ-signed a 32 (omega arith)))

swap_add : (a x y : ℤ) → (a +ℤ x) +ℤ y ≡ (a +ℤ y) +ℤ x
swap_add a x y =
    eq_of_parts (a +ℤ x +ℤ y) (a +ℤ y +ℤ x)
      (omega (arith, +ℤ_parts (a +ℤ x) y, +ℤ_parts a x, +ℤ_parts (a +ℤ y) x, +ℤ_parts a y))

step_swap : (h x y : ℤ) → int32 (int32 (h +ℤ x) +ℤ y) ≡ int32 (int32 (h +ℤ y) +ℤ x)
step_swap h x y = int32_add (h +ℤ x) y ∙ ap int32 (swap_add h x y) ∙ sym (int32_add (h +ℤ y) x)

unordered_from-Permᴰ :
    {xs ys : List ℤ} → Permᴰ xs ys → (h : ℤ) → unordered_from h xs ≡ unordered_from h ys
unfolding unordered_from
unordered_from-Permᴰ Permᴰ.nil h = refl
unordered_from-Permᴰ (Permᴰ.cons {a = x} {l₂ = ys} e p) h =
    unordered_from-Permᴰ p (int32 (h +ℤ x)) ∙ ap (λ z. unordered_from (int32 (h +ℤ z)) ys) e
unordered_from-Permᴰ (Permᴰ.swap {a = x} {b = y} {l = xs} e e') h =
    ap (λ k. unordered_from k xs) (step_swap h x y) ∙ rw (e, e') refl
unordered_from-Permᴰ (Permᴰ.trans p q) h = unordered_from-Permᴰ p h ∙ unordered_from-Permᴰ q h

length-Permᴰ : {xs ys : List ℤ} → Permᴰ xs ys → length xs ≡ length ys
length-Permᴰ Permᴰ.nil = refl
length-Permᴰ (Permᴰ.cons e p) = ap suc (length-Permᴰ p)
length-Permᴰ (Permᴰ.swap e e') = refl
length-Permᴰ (Permᴰ.trans p q) = length-Permᴰ p ∙ length-Permᴰ q

pub hash_unordered-Permᴰ : {xs ys : List ℤ} → Permᴰ xs ys → hash_unordered xs ≡ hash_unordered ys
unfolding hash_unordered
hash_unordered-Permᴰ p = rw (unordered_from-Permᴰ p (pos 0), length-Permᴰ p) refl

-- Two sets whose members have the same hashes, each as often, have the same hash, in whatever order their
-- members come; and so have two mappings whose entries have the same hashes.
pub clojure_hash-unordered :
    (vs ws : ValueList) (es fs : EntryList)
    → Permᴰ (hashes vs) (hashes ws)
    → Permᴰ (entry_hashes es) (entry_hashes fs)
    → (clojure_hash (set_of vs) ≡ clojure_hash (set_of ws))
      × (clojure_hash (mapping es) ≡ clojure_hash (mapping fs))
unfolding clojure_hash
clojure_hash-unordered vs ws es fs p q = (hash_unordered-Permᴰ p, hash_unordered-Permᴰ q)
