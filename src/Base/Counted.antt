-- ===== src/Base/Counted.antt =====
-- How many keys a dict holds after a write or a removal.
use mathlib.Core.Path.{◌≡◌, refl, sym, ap, ◌∙◌}
use mathlib.Core.Logic.{if_pos, if_neg}
use mathlib.Core.List.{[], ◌∷◌}
use mathlib.Core.Option.{none}
use native.Mathlib.Omega.{arith}
use Prim.Native.Nat.{suc}
use baisilisp.Base.Lists.{length}
use baisilisp.Base.Tests.{is_some, if◌then◌else◌}
use baisilisp.Base.Dict.{Dict, get, put, pop, Distinct, get-pop}

module _ {ℓ} {K V : Type ℓ} (dec : Discrete K) where
  pub length-put :
      (k : K) (v : V) (d : Dict K V)
      → length (put dec k v d) ≡ (if is_some (get dec k d) then length d else suc (length d))
  unfolding put get
  length-put k v [] = refl
  length-put k v ((j, w) ∷ d) = ground (arith, length-put k v d)

  pub pop_absent : (k : K) (d : Dict K V) → get dec k d ≡ none → pop dec k d ≡ d
  unfolding pop get
  pop_absent k [] h = refl
  pop_absent k ((j, w) ∷ d) h = ground (arith, pop_absent k d)

  pub length-pop :
      (k : K) (d : Dict K V)
      → Distinct dec d
      → (if is_some (get dec k d) then suc (length (pop dec k d)) else length (pop dec k d))
        ≡ length d
  unfolding pop get
  length-pop k [] h = refl
  length-pop k ((j, w) ∷ d) h = elim (dec j k) [
    | yes p ↦ ground (arith, h.0, pop_absent k d, sym p, ap (λ x. get dec x d) p)
    | no p ↦ ground (arith, length-pop k d h.1)
  ]

  pub pop-Distinct : (k : K) (d : Dict K V) → Distinct dec d → Distinct dec (pop dec k d)
  unfolding pop
  pop-Distinct k [] h = tt
  pop-Distinct k ((j, w) ∷ d) h = elim (dec j k) [
    | yes p ↦ rw (if_pos (dec j k) p) (pop-Distinct k d h.1)
    | no p ↦ rw (if_neg (dec j k) p) (get-pop dec k j d ∙ ground (arith, h.0), pop-Distinct k d h.1)
  ]
