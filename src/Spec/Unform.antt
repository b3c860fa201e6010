-- ===== src/Spec/Unform.antt =====
-- `unform` and `_unform_regex` of src/basilisp/lang/spec.py. `none` is an exception.
use baisilisp.Base.{
  ℕ, Bool, true, false, ◌&&◌, Option, none, some, List, [], ◌∷◌, ◌++◌, ◌==◌, is_some, if◌then◌else◌,
}
use baisilisp.Spec.{
  Host, Spec, pred, fspec, wrapped, conformer, nonconforming, merge_specs, and_specs, or_specs,
  nilable, coll_of, map_of, keys, tuple, multi, named, unregistered, regex, Specs, no_specs,
  spec_and, Branches, no_branches, branch, option, Regex, one, cat, alt, repeat, maybe, amp,
  keys_star, Parts, no_parts, part,
}

infixl 5 ◌>>=◌
abbrev pub ◌>>=◌ : {A B : Type 0} → Option A → (A → Option B) → Option B
some a >>= f = f a
none >>= f = none

module _ {V : Type 0} where
  -- the loop over the conformed values of a repeated spec
  unfoldable pub unform_each : (V → Option (List V)) → List V → Option (List V)
  unform_each f [] = some []
  unform_each f (x ∷ xs) = do a ← f x; b ← unform_each f xs; some (a ++ b)

  abbrev pub flatten : List (V × V) → List V
  flatten [] = []
  flatten ((k, x) ∷ es) = k ∷ x ∷ flatten es

module _ {V : Type 0} (h : Host V) where
  unfoldable pub all_maps : List V → Bool
  all_maps [] = true
  all_maps (x ∷ xs) = is_some (h.entries x) && all_maps xs

  -- The tag and the value of a sequence of two; the tag is compared with keywords.
  unfoldable pub tagged : V → Option (V × V)
  tagged v = elim (h.items v) [
    | none ↦ none
    | some xs ↦ elim xs [
      | [] ↦ none
      | t ∷ ys ↦ elim ys [ [] ↦ none | c ∷ zs ↦ elim zs [ [] ↦ some (t, c) | _ ∷ _ ↦ none ] ]
    ]
  ]

  unfoldable pub has_tag : ℕ → V → Bool
  has_tag n t = elim (h.tag_of t) [ none ↦ false | some m ↦ m == n ]

unfoldable mutual
  pub unform : {V : Type 0} → Host V → Spec V → V → Option V
  unform h (pred p) v = some v
  unform h fspec v = some v
  unform h (wrapped s) v = unform h s v
  unform h (conformer f u) v = option (some v) (λ g. g v) u
  unform h (nonconforming s) v = some v
  unform h (merge_specs ss) v =
      unform_specs h ss v >>= λ vs. if all_maps h vs then some (h.merge vs) else none
  unform h (and_specs ss) v = unform_and h ss v
  unform h (or_specs bs) v = option (some v) (λ tc. unform_or h bs tc.0 tc.1 v) (tagged h v)
  unform h (nilable s) v = some v
  unform h (coll_of o s) v = some v
  unform h (map_of k s) v = some v
  unform h (keys required optional) v = some v
  unform h (tuple ss) v = some v
  unform h (multi dispatch methods) v = some v
  unform h (named s) v = unform h s v
  unform h unregistered v = some v
  unform h (regex r) v = unform_regex h r v >>= λ xs. some (h.vec xs)

  -- what the specs of a `_Merge` give, the last one first
  pub unform_specs : {V : Type 0} → Host V → Specs V → V → Option (List V)
  unform_specs h no_specs v = some []
  unform_specs h (spec_and s ss) v = do
    later ← unform_specs h ss v
    x ← unform h s v
    some (later ++ x ∷ [])

  pub unform_and : {V : Type 0} → Host V → Specs V → V → Option V
  unform_and h no_specs v = some v
  unform_and h (spec_and s ss) v = unform_and h ss v >>= λ u. unform h s u

  -- the loop over the branches of an `_Or`
  pub unform_or : {V : Type 0} → Host V → Branches V → V → V → V → Option V
  unform_or h no_branches t c v = some v
  unform_or h (branch n s bs) t c v =
      let here = unform h s c in
      let rest = unform_or h bs t c v in if has_tag h n t then here else rest

  pub unform_regex : {V : Type 0} → Host V → Regex V → V → Option (List V)
  unform_regex h (one s) v = unform h s v >>= λ x. some (x ∷ [])
  unform_regex h (cat ps) v = option (some (v ∷ [])) (λ _. unform_cat h ps v) (h.entries v)
  unform_regex h (alt ps) v =
      option (some (v ∷ [])) (λ tc. unform_alt h ps tc.0 tc.1 v) (tagged h v)
  unform_regex h (repeat r minimum) v =
      option (some (v ∷ [])) (λ xs. unform_each (unform_regex h r) xs) (h.items v)
  unform_regex h (maybe r) v =
      let inner = unform_regex h r v in if h.is_nil v then some [] else inner
  unform_regex h (amp r ss) v = unform_regex h r v
  unform_regex h (keys_star required optional) v =
      option (some (v ∷ [])) (λ es. some (flatten es)) (h.entries v)

  pub unform_cat : {V : Type 0} → Host V → Parts V → V → Option (List V)
  unform_cat h no_parts v = some []
  unform_cat h (part t r ps) v =
      h.val_at v t >>= λ x. unform_regex h r x >>= λ a. unform_cat h ps v >>= λ b. some (a ++ b)

  pub unform_alt : {V : Type 0} → Host V → Parts V → V → V → V → Option (List V)
  unform_alt h no_parts t c v = some (v ∷ [])
  unform_alt h (part n r ps) t c v =
      let here = unform_regex h r c in
      let rest = unform_alt h ps t c v in if has_tag h n t then here else rest
