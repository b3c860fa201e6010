-- ===== src/Base/Dict.antt =====
-- Python's `dict`, as the list of its items in insertion order. A new key goes to the end, a write
-- to a present key keeps its place, and no key stands twice in a dict that these operations built.
use mathlib.Core.Path.{◌≡◌, refl, sym, ◌∙◌}
use mathlib.Core.Logic.{◌≢◌, ite, if_pos, if_neg}
use mathlib.Core.List.{List, [], ◌∷◌}
use mathlib.Core.Option.{Option, none, some}
use mathlib.Core.Bool.{Bool, true, false}
use mathlib.Core.Logic.{◌↔◌, inl, inr}
use baisilisp.Base.Tests.{if◌then◌else◌, Bool-cases}
use native.Mathlib.Omega.{arith}

abbrev pub Dict {ℓ} : Type ℓ → Type ℓ → Type ℓ
Dict K V = List (K × V)

abbrev pub keys {ℓ} : {K V : Type ℓ} → Dict K V → List K
keys [] = []
keys ((k, v) ∷ d) = k ∷ keys d

module _ {ℓ} {K V : Type ℓ} (dec : Discrete K) where
  -- d.get(k)
  unfoldable pub get : K → Dict K V → Option V
  get k [] = none
  get k ((j, v) ∷ d) = ite (dec j k) (some v) (get k d)

  -- d[k] = v
  unfoldable pub put : K → V → Dict K V → Dict K V
  put k v [] = (k, v) ∷ []
  put k v ((j, w) ∷ d) = ite (dec j k) ((j, v) ∷ d) ((j, w) ∷ put k v d)

  -- d.pop(k, None)
  unfoldable pub pop : K → Dict K V → Dict K V
  pop k [] = []
  pop k ((j, w) ∷ d) = let rest = pop k d in ite (dec j k) rest ((j, w) ∷ rest)

  pub get-put :
      (k j : K) (v : V) (d : Dict K V) → get j (put k v d) ≡ ite (dec k j) (some v) (get j d)
  unfolding get put
  get-put k j v [] = refl
  get-put k j v ((i, w) ∷ d) = ground (arith, get-put k j v d)

  pub get-put_self : (k : K) (v : V) (d : Dict K V) → get k (put k v d) ≡ some v
  get-put_self k v d = rw (get-put k k v d) (if_pos (dec k k) refl _ _)

  pub get-put_ne : (k j : K) (v : V) (d : Dict K V) → k ≢ j → get j (put k v d) ≡ get j d
  get-put_ne k j v d h = rw (get-put k j v d) (if_neg (dec k j) h _ _)

  pub get-pop : (k j : K) (d : Dict K V) → get j (pop k d) ≡ ite (dec k j) none (get j d)
  unfolding get pop
  get-pop k j [] = ground arith
  get-pop k j ((i, w) ∷ d) = ground (arith, get-pop k j d)

  -- No key stands twice.
  abbrev pub Distinct : Dict K V → Type ℓ
  Distinct [] = Unit
  Distinct ((k, v) ∷ d) = (get k d ≡ none) × Distinct d

  pub put-Distinct : (k : K) (v : V) (d : Dict K V) → Distinct d → Distinct (put k v d)
  unfolding get put
  put-Distinct k v [] h = (refl, tt)
  put-Distinct k v ((j, w) ∷ d) h = elim (dec j k) [
    | yes p ↦ rw (if_pos (dec j k) p) h
    | no p ↦
        rw (if_neg (dec j k) p) (get-put_ne k j v d (λ q. p (sym q)) ∙ h.0, put-Distinct k v d h.1)
  ]

module _ {K : Type 0} (eq : K → K → Bool) (dec : Discrete K)
    (agrees : (j k : K) → eq j k ≡ true ↔ j ≡ k) where
  agrees-ite : (j k : K) → eq j k ≡ ite (dec j k) true false
  agrees-ite j k = elim (dec j k) [
    | yes e ↦ (agrees j k).1 e ∙ sym (if_pos (dec j k) e _ _)
    | no n ↦ elim (Bool-cases (eq j k)) [
      | inl e ↦ absurd (n ((agrees j k).0 e))
      | inr e ↦ e ∙ sym (if_neg (dec j k) n _ _)
    ]
  ]

-- The same operations by a Boolean equality, which need not be that of the keys.
module _ {K V : Type 0} (eq : K → K → Bool) where
  unfoldable pub get_by : K → Dict K V → Option V
  get_by k [] = none
  get_by k ((j, v) ∷ d) = if eq j k then some v else get_by k d

  unfoldable pub put_by : K → V → Dict K V → Dict K V
  put_by k v [] = (k, v) ∷ []
  put_by k v ((j, w) ∷ d) = let rest = put_by k v d in if eq j k then (j, v) ∷ d else (j, w) ∷ rest

  unfoldable pub pop_by : K → Dict K V → Dict K V
  pop_by k [] = []
  pop_by k ((j, w) ∷ d) = let rest = pop_by k d in if eq j k then rest else (j, w) ∷ rest

  module _ (dec : Discrete K) (agrees : (j k : K) → eq j k ≡ true ↔ j ≡ k) where
    pub get_by-get : (k : K) (d : Dict K V) → get_by k d ≡ get dec k d
    unfolding get_by get
    get_by-get k [] = refl
    get_by-get k ((j, v) ∷ d) = ground (arith, agrees-ite eq dec agrees j k, get_by-get k d)

    pub put_by-put : (k : K) (v : V) (d : Dict K V) → put_by k v d ≡ put dec k v d
    unfolding put_by put
    put_by-put k v [] = refl
    put_by-put k v ((j, w) ∷ d) = ground (arith, agrees-ite eq dec agrees j k, put_by-put k v d)

    pub pop_by-pop : (k : K) (d : Dict K V) → pop_by k d ≡ pop dec k d
    unfolding pop_by pop
    pop_by-pop k [] = refl
    pop_by-pop k ((j, w) ∷ d) = ground (arith, agrees-ite eq dec agrees j k, pop_by-pop k d)
