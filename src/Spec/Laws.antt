-- ===== src/Spec/Laws.antt =====
-- What the host's values do under src/basilisp/lang/spec.py, and the specs whose conformed values
-- can be turned back.
use baisilisp.Base.{ℕ, ◌≡◌, Bool, true, false, ◌||◌, some, List, ◌==◌, is_some, ℕ_discrete}
use baisilisp.Base.Dict.{Dict, get}
use baisilisp.Spec.{
  Host, valid, option, Spec, pred, fspec, wrapped, conformer, nonconforming, merge_specs, and_specs,
  or_specs, nilable, coll_of, map_of, keys, tuple, multi, named, unregistered, regex, Specs,
  no_specs, spec_and, Branches, no_branches, branch, Regex, one, cat, alt, repeat, maybe, amp,
  keys_star, Parts, no_parts, part,
}
use baisilisp.Spec.Conform.{conform, conform_and, first, match_all}

-- The values are taken up to the equality of the program, under which a list is the vector of its
-- items; sets and other iterables are not among the values for which the laws are stated.
pub record Laws {V : Type 0} (h : Host V) : Type 0 where
  pub items-vec : (xs : List V) → h.items (h.vec xs) ≡ some xs
  pub vec-iter : (v : V) (xs : List V) → h.iter v ≡ some xs → h.vec xs ≡ v
  pub tag_of-tag : (n : ℕ) → h.tag_of (h.tag n) ≡ some n
  pub is_nil-nil : h.is_nil h.nil ≡ true
  pub entries-map : (d : Dict ℕ V) → is_some (h.entries (h.map d)) ≡ true
  pub val_at-map : (d : Dict ℕ V) (t : ℕ) → h.val_at (h.map d) t ≡ get ℕ_discrete t d

module _ {V : Type 0} where
  abbrev pub has_branch : ℕ → Branches V → Bool
  has_branch n no_branches = false
  has_branch n (branch t s bs) = t == n || has_branch n bs

  abbrev pub has_part : ℕ → Parts V → Bool
  has_part n no_parts = false
  has_part n (part t r ps) = t == n || has_part n ps

-- No tag stands twice; a conformer has an inverse; a nilable spec, a multi-spec and the predicates
-- of an `&` only accept values and do not change them; what a `?` matches is not `nil`; there is no
-- merge and no `keys*`.
unfoldable mutual
  pub Reversible : {V : Type 0} → Host V → Spec V → Type 0
  Reversible h (pred p) = Unit
  Reversible h fspec = Unit
  Reversible h (wrapped s) = Reversible h s
  Reversible {V} h (conformer f u) =
      (v c : V) → f v ≡ some c → option (some c) (λ g. g c) u ≡ some v
  Reversible h (nonconforming s) = Unit
  Reversible h (merge_specs ss) = ⊥
  Reversible h (and_specs ss) = ReversibleSpecs h ss
  Reversible h (or_specs bs) = ReversibleBranches h bs
  Reversible {V} h (nilable s) = (v c : V) → conform h s v ≡ valid c → c ≡ v
  Reversible h (coll_of o s) = Unit
  Reversible h (map_of k s) = Unit
  Reversible h (keys required optional) = Unit
  Reversible h (tuple ss) = Unit
  Reversible {V} h (multi dispatch methods) =
      (i : ℕ) (v c : V) → conform h (methods i) v ≡ valid c → c ≡ v
  Reversible h (named s) = Reversible h s
  Reversible h unregistered = Unit
  Reversible h (regex r) = ReversibleRegex h r

  pub ReversibleSpecs : {V : Type 0} → Host V → Specs V → Type 0
  ReversibleSpecs h no_specs = Unit
  ReversibleSpecs h (spec_and s ss) = Reversible h s × ReversibleSpecs h ss

  pub ReversibleBranches : {V : Type 0} → Host V → Branches V → Type 0
  ReversibleBranches h no_branches = Unit
  ReversibleBranches h (branch t s bs) =
      (has_branch t bs ≡ false) × Reversible h s × ReversibleBranches h bs

  pub ReversibleRegex : {V : Type 0} → Host V → Regex V → Type 0
  ReversibleRegex h (one s) = Reversible h s
  ReversibleRegex h (cat ps) = ReversibleParts h ps
  ReversibleRegex h (alt ps) = ReversibleParts h ps
  ReversibleRegex h (repeat r minimum) = ReversibleRegex h r
  ReversibleRegex {V} h (maybe r) =
      ReversibleRegex h r
      × ((xs rest : List V) (c : V)
          → first (match_all h r xs) ≡ valid (c, rest)
          → h.is_nil c ≡ false)
  ReversibleRegex {V} h (amp r ss) =
      ReversibleRegex h r × ((v c : V) → conform_and h ss v ≡ valid c → c ≡ v)
  ReversibleRegex h (keys_star required optional) = ⊥

  pub ReversibleParts : {V : Type 0} → Host V → Parts V → Type 0
  ReversibleParts h no_parts = Unit
  ReversibleParts h (part t r ps) =
      (has_part t ps ≡ false) × ReversibleRegex h r × ReversibleParts h ps
