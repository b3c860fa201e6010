-- ===== src/Spec/RoundTrip.antt =====
-- `unform` of src/basilisp/lang/spec.py undoes `conform`.
use mathlib.Core.List.{append_assoc, append-nil}
use baisilisp.Base.{
  ℕ, suc, ◌≡◌, refl, sym, ap, ◌∙◌, Bool, true, false, Option, some, List, [], ◌∷◌, ◌++◌, length,
  All, arith, inl, inr, if◌then◌else◌, ◌==◌, Option-cases, Bool-cases, ℕ_discrete, leb,
}
use baisilisp.Base.Dict.{Dict, get, put, get-put}
use baisilisp.Spec.{
  Host, Answer, valid, invalid, raise, ◌>>=◌, Spec, pred, fspec, wrapped, conformer, nonconforming,
  merge_specs, and_specs, or_specs, nilable, coll_of, map_of, keys, tuple, multi, named,
  unregistered, regex, Specs, no_specs, spec_and, Branches, no_branches, branch, Regex, one, cat,
  alt, repeat, maybe, amp, keys_star, Parts, no_parts, part,
}
use baisilisp.Spec.Conform.{
  first, repeat_loop, counted, repeated, check_each, check_entries, check_keys, fits, conform,
  conform_and, conform_or, conform_zip, has_all, specs_length, match_all, match_cat, match_alt,
}
use baisilisp.Spec.Unform.{
  unform, unform_and, unform_or, unform_regex, unform_cat, unform_alt, unform_each, tagged, has_tag,
}
use baisilisp.Spec.Laws.{
  Laws, Reversible, ReversibleSpecs, ReversibleBranches, ReversibleRegex, ReversibleParts,
  has_branch, has_part,
}
use baisilisp.Spec.Matching.{
  Answer-cases, valid-of-bind, valid-of-option, valid-of-if, valid-injective, All-imp, All-first,
  All-whole, All-append, All-each, Chain, repeat_loop-Chain,
}

module _ {V : Type 0} (h : Host V) (laws : Laws h) where
  -- The match `m` of a regex spec at `xs` gives back the values that it took.
  abbrev Back : Regex V → List V → V × List V → Type 0
  Back r xs m = (pre : List V) × (unform_regex h r m.0 ≡ some pre) × (pre ++ m.1 ≡ xs)

  tagged-vec : (t : ℕ) (c : V) → tagged h (h.vec (h.tag t ∷ c ∷ [])) ≡ some (h.tag t, c)
  unfolding tagged
  tagged-vec t c = rw (laws.items-vec (h.tag t ∷ c ∷ []), tagged)

  has_tag-tag : (n t : ℕ) → has_tag h n (h.tag t) ≡ (t == n)
  unfolding has_tag
  has_tag-tag n t = rw (laws.tag_of-tag t, has_tag)

  unform_each-append :
      (f : V → Option (List V)) (xs : List V) (c : V) (p q : List V)
      → unform_each f xs ≡ some p
      → f c ≡ some q
      → unform_each f (xs ++ c ∷ []) ≡ some (p ++ q)
  unfolding unform_each
  unform_each-append f [] c p q e d = ground (arith, append-nil q)
  unform_each-append f (x ∷ xs) c p q e d = elim (Option-cases (f x)) [
    | inl n ↦ absurd (ground (arith, n))
    | inr (a, n) ↦ elim (Option-cases (unform_each f xs)) [
      | inl k ↦ absurd (ground (arith, n, k))
      | inr (b, k) ↦
          let same : a ++ b ≡ p = ground (arith, n, k) in
          ground (
            arith,
            n,
            k,
            unform_each-append f xs c b q k d,
            append_assoc a b q,
            ap (λ ys. ys ++ q) same,
          )
    ]
  ]

  -- The match of a repeated spec after the steps that conformed `done`, if there are enough.
  here-Back :
      (r : Regex V) (enough : Bool) (done xs whole p : List V)
      → unform_each (unform_regex h r) done ≡ some p
      → p ++ xs ≡ whole
      → All (Back (repeat r 0) whole) (if enough then (h.vec done, xs) ∷ [] else [])
  unfolding unform_regex
  here-Back r false done xs whole p e split = tt
  here-Back r true done xs whole p e split =
      ((p, rw (laws.items-vec done, unform_regex) e, split), tt)

  counted-Back :
      (r : Regex V) (minimum count : ℕ) (done xs whole p : List V) (steps : List (V × List V))
      → unform_each (unform_regex h r) done ≡ some p
      → p ++ xs ≡ whole
      → Chain (Back r) xs steps
      → All (Back (repeat r 0) whole) (counted h minimum count done xs steps)
  unfolding counted
  counted-Back r minimum count done xs whole p [] e split chain =
      here-Back r (leb minimum count) done xs whole p e split
  counted-Back r minimum count done xs whole p ((c, rest) ∷ steps) e split
        ((q, back, joined), chain) =
      All-append (Back (repeat r 0) whole)
        (counted h minimum (suc count) (done ++ c ∷ []) rest steps) _
        (counted-Back r minimum (suc count) (done ++ c ∷ []) rest whole (p ++ q) steps
          (unform_each-append (unform_regex h r) done c p q e back)
          (append_assoc p q rest ∙ ap (λ ys. p ++ ys) joined ∙ split) chain)
        (here-Back r (leb minimum count) done xs whole p e split)

  -- A match of a `_Cat` after the parts that gave `done`.
  abbrev BackCat : Parts V → List V → Dict ℕ V → V × List V → Type 0
  BackCat ps xs done m =
      (d : Dict ℕ V) × (pre : List V) × (m.0 ≡ h.map d)
      × ((t : ℕ) → has_part t ps ≡ false → get ℕ_discrete t d ≡ get ℕ_discrete t done)
      × (unform_cat h ps (h.map d) ≡ some pre)
      × (pre ++ m.1 ≡ xs)

  cat-Back : (ps : Parts V) (xs : List V) (m : V × List V) → BackCat ps xs [] m → Back (cat ps) xs m
  unfolding unform_regex
  cat-Back ps xs m (d, pre, e, _, back, split) = (
    pre,
    rw e (elim (Option-cases (h.entries (h.map d))) [
      | inl n ↦ absurd (ground (arith, n, laws.entries-map d))
      | inr (es, n) ↦ rw (n, unform_regex) back
    ]),
    split,
  )

  part-Back :
      (t : ℕ) (r : Regex V) (ps : Parts V) (xs rest : List V) (done : Dict ℕ V) (c : V)
      → has_part t ps ≡ false
      → Back r xs (c, rest)
      → (m : V × List V) → BackCat ps rest (put ℕ_discrete t c done) m
      → BackCat (part t r ps) xs done m
  unfolding unform_cat
  part-Back t r ps xs rest done c fresh (a, back, joined) m (d, b, e, keeps, later, split) =
      (d, a ++ b, e, others, both, append_assoc a b m.1 ∙ ap (λ ys. a ++ ys) split ∙ joined)
    where
      others :
          (n : ℕ) → has_part n (part t r ps) ≡ false → get ℕ_discrete n d ≡ get ℕ_discrete n done
      others n new = ground (arith, keeps n, new, get-put ℕ_discrete t n c done)

      found : h.val_at (h.map d) t ≡ some c
      found = ground (arith, laws.val_at-map d t, keeps t, fresh, get-put ℕ_discrete t t c done)

      both : unform_cat h (part t r ps) (h.map d) ≡ some (a ++ b)
      both = rw (found, unform_cat, back, later)

  -- The value itself is what a check gives.
  whole_value :
      {A : Type 0} (v c : V) (a : Answer A) → (a >>= λ _. valid v) ≡ valid c → some c ≡ some v
  whole_value v c a e =
      let (_, same, _) = valid-of-bind a (λ _. valid v) e in ap some (sym (valid-injective same))

  differs : (f : ℕ → Bool) (n t : ℕ) → f n ≡ true → f t ≡ false → (n == t) ≡ false
  differs f n t a b = elim (Bool-cases (n == t)) [
    | inl e ↦ let same : n ≡ t = ground (arith, e) in absurd (ground (arith, ap f same))
    | inr e ↦ e
  ]

  -- Which branch gave the conformed value, and that the same branch turns it back.
  abbrev OrBack : Branches V → V → V → Type 0
  OrBack bs v c =
      (n : ℕ) × (x : V) × (c ≡ h.vec (h.tag n ∷ x ∷ []))
      × (has_branch n bs ≡ true)
      × ((w : V) → unform_or h bs (h.tag n) x w ≡ some v)

  abbrev AltBack : Parts V → List V → V × List V → Type 0
  AltBack ps xs m =
      (n : ℕ) × (x : V) × (pre : List V) × (m.0 ≡ h.vec (h.tag n ∷ x ∷ []))
      × (has_part n ps ≡ true)
      × ((w : V) → unform_alt h ps (h.tag n) x w ≡ some pre)
      × (pre ++ m.1 ≡ xs)

  branch-hit :
      (t : ℕ) (s : Spec V) (bs : Branches V) (v x w : V)
      → unform h s x ≡ some v
      → unform_or h (branch t s bs) (h.tag t) x w ≡ some v
  unfolding unform_or
  branch-hit t s bs v x w e =
      let hit : has_tag h t (h.tag t) ≡ true = has_tag-tag t t ∙ ground arith in rw hit e

  branch-miss :
      (t n : ℕ) (s : Spec V) (bs : Branches V) (v x w : V)
      → has_branch t bs ≡ false
      → has_branch n bs ≡ true
      → unform_or h bs (h.tag n) x w ≡ some v
      → unform_or h (branch t s bs) (h.tag n) x w ≡ some v
  unfolding unform_or
  branch-miss t n s bs v x w new old e =
      let miss : has_tag h t (h.tag n) ≡ false =
        has_tag-tag t n ∙ differs (λ k. has_branch k bs) n t old new in
      rw miss e

  part-hit :
      (t : ℕ) (r : Regex V) (ps : Parts V) (pre : List V) (x w : V)
      → unform_regex h r x ≡ some pre
      → unform_alt h (part t r ps) (h.tag t) x w ≡ some pre
  unfolding unform_alt
  part-hit t r ps pre x w e =
      let hit : has_tag h t (h.tag t) ≡ true = has_tag-tag t t ∙ ground arith in rw hit e

  part-miss :
      (t n : ℕ) (r : Regex V) (ps : Parts V) (pre : List V) (x w : V)
      → has_part t ps ≡ false
      → has_part n ps ≡ true
      → unform_alt h ps (h.tag n) x w ≡ some pre
      → unform_alt h (part t r ps) (h.tag n) x w ≡ some pre
  unfolding unform_alt
  part-miss t n r ps pre x w new old e =
      let miss : has_tag h t (h.tag n) ≡ false =
        has_tag-tag t n ∙ differs (λ k. has_part k ps) n t old new in
      rw miss e

  or-found : (bs : Branches V) (v c : V) → OrBack bs v c → unform h (or_specs bs) c ≡ some v
  unfolding unform
  or-found bs v c (n, x, e, _, back) = rw (e, tagged-vec n x) (back (h.vec (h.tag n ∷ x ∷ [])))

  alt-found : (ps : Parts V) (xs : List V) (m : V × List V) → AltBack ps xs m → Back (alt ps) xs m
  unfolding unform_regex
  alt-found ps xs m (n, x, pre, e, _, back, split) =
      (pre, rw (e, tagged-vec n x) (back (h.vec (h.tag n ∷ x ∷ []))), split)

  mutual
    unfolding conform unform check_keys repeated Reversible unform_each

    conform-back :
        (s : Spec V) (v c : V) → Reversible h s → conform h s v ≡ valid c → unform h s c ≡ some v
    conform-back (pred p) v c ok e =
        let (b, d, _) = valid-of-option (p v) (λ b. if b then valid v else invalid) e in
        ap some (sym (valid-injective (valid-of-if b (valid v) d)))
    conform-back fspec v c ok e =
        ap some (sym (valid-injective (valid-of-if (h.is_callable v) (valid v) e)))
    conform-back (wrapped s) v c ok e = conform-back s v c ok e
    conform-back (conformer f u) v c ok e =
        let (x, d, found) = valid-of-option (f v) valid e in
        ok v c (found ∙ ap some (valid-injective d))
    conform-back (nonconforming s) v c ok e = whole_value v c (conform h s v) e
    conform-back (merge_specs ss) v c ok e = absurd ok
    conform-back (and_specs ss) v c ok e = and-back ss v c ok e
    conform-back (or_specs bs) v c ok e = or-found bs v c (or-back bs v c ok e)
    conform-back (nilable s) v c ok e = elim (Bool-cases (h.is_nil v)) [
      | inl n ↦ ap some (sym (valid-injective (rw n at e)))
      | inr n ↦ ap some (ok v c (rw n at e))
    ]
    conform-back (coll_of o s) v c ok e =
        let (xs, d, _) = valid-of-option (h.items v) _ e in
        whole_value v c (check_each (conform h s) xs) (valid-of-if (fits h o v xs) _ d)
    conform-back (map_of k s) v c ok e =
        let (es, d, _) = valid-of-option (h.entries v) _ e in
        whole_value v c (check_entries (conform h k) (conform h s) es) d
    conform-back (keys required optional) v c ok e =
        let (es, d, _) = valid-of-option (h.entries v) _ e in
        whole_value v c _ (valid-of-if (has_all h required v) _ d)
    conform-back (tuple ss) v c ok e =
        let (xs, d, _) = valid-of-option (h.items v) _ e in
        whole_value v c (conform_zip h ss xs) (valid-of-if (length xs == specs_length h ss) _ d)
    conform-back (multi dispatch methods) v c ok e =
        let (i, d, _) = valid-of-option (dispatch v) (λ i. conform h (methods i) v) e in
        ap some (ok i v c d)
    conform-back (named s) v c ok e = conform-back s v c ok e
    conform-back unregistered v c ok e = cc
    conform-back (regex r) v c ok e =
        let (xs, d, found) = valid-of-option (h.iter v) _ e in
        let (pre, back, split) =
          All-whole (Back r xs) (match_all h r xs).yields (match_all h r xs).ending c
            (match-Back r xs ok) d in
        rw back (ap some (ap h.vec (sym (append-nil pre) ∙ split) ∙ laws.vec-iter v xs found))

    and-back :
        (ss : Specs V) (v c : V)
        → ReversibleSpecs h ss
        → conform_and h ss v ≡ valid c
        → unform_and h ss c ≡ some v
    and-back no_specs v c ok e = ap some (sym (valid-injective e))
    and-back (spec_and s ss) v c ok e =
        let (x, d, found) = valid-of-bind (conform h s v) (λ x. conform_and h ss x) e in
        rw (and-back ss x c ok.1 d) (conform-back s v x ok.0 found)

    or-back :
        (bs : Branches V) (v c : V)
        → ReversibleBranches h bs
        → conform_or h bs v ≡ valid c
        → OrBack bs v c
    or-back no_branches v c ok e = cc
    or-back (branch t s bs) v c ok e = elim (Answer-cases (conform h s v)) [
      | inl (x, f) ↦ (
        t,
        x,
        sym (valid-injective (rw f at e)),
        ground arith,
        λ w. branch-hit t s bs v x w (conform-back s v x ok.1 f),
      )
      | inr (inl f) ↦
          let (n, x, same, old, back) = or-back bs v c ok.2 (rw f at e) in
          (n, x, same, ground (arith, old), λ w. branch-miss t n s bs v x w ok.0 old (back w))
      | inr (inr (x, f)) ↦ let none_valid : raise x ≡ valid c = rw f at e in cc
    ]

    match-Back :
        (r : Regex V) (xs : List V)
        → ReversibleRegex h r
        → All (Back r xs) (match_all h r xs).yields
    match-Back (one s) [] ok = tt
    match-Back (one s) (x ∷ xs) ok = elim (Answer-cases (conform h s x)) [
      | inl (c, f) ↦ rw f ((x ∷ [], rw (conform-back s x c ok f), refl), tt)
      | inr (inl f) ↦ rw f tt
      | inr (inr (y, f)) ↦ rw f tt
    ]
    match-Back (cat ps) xs ok =
        All-imp (match_cat h ps xs []).yields (cat-Back ps xs) (cat-match ps xs [] ok)
    match-Back (alt ps) xs ok =
        All-imp (match_alt h ps xs).yields (alt-found ps xs) (alt-match ps xs ok)
    match-Back (repeat r minimum) xs ok =
        elim (Answer-cases (repeat_loop (suc (length xs)) (match_all h r) xs)) [
          | inl (steps, f) ↦ rw f (
              counted-Back r minimum 0 [] xs xs [] steps refl refl (
                repeat_loop-Chain (Back r) (match_all h r) (suc (length xs)) xs steps
                  (λ ys. match-Back r ys ok) f))
          | inr (inl f) ↦ rw f tt
          | inr (inr (y, f)) ↦ rw f tt
        ]
    match-Back (maybe r) xs ok = elim (Answer-cases (first (match_all h r xs))) [
      | inl (m, f) ↦
          let (pre, back, split) =
            All-first (Back r xs) (match_all h r xs) m (match-Back r xs ok.0) f in
          rw f ((pre, rw (ok.1 xs m.1 m.0 f) back, split), tt)
      | inr (inl f) ↦ rw f (([], rw laws.is_nil-nil, refl), tt)
      | inr (inr (y, f)) ↦ rw f tt
    ]
    match-Back (amp r ss) xs ok = elim (Answer-cases (first (match_all h r xs))) [
      | inr (inl f) ↦ rw f tt
      | inr (inr (y, f)) ↦ rw f tt
      | inl (m, f) ↦
          let (pre, back, split) =
            All-first (Back r xs) (match_all h r xs) m (match-Back r xs ok.0) f in
          elim (Answer-cases (conform_and h ss m.0)) [
            | inl (c, g) ↦ rw (f, g) ((pre, rw (ok.1 m.0 c g) back, split), tt)
            | inr (inl g) ↦ rw (f, g) tt
            | inr (inr (y, g)) ↦ rw (f, g) tt
          ]
    ]
    match-Back (keys_star required optional) xs ok = absurd ok

    cat-match :
        (ps : Parts V) (xs : List V) (done : Dict ℕ V)
        → ReversibleParts h ps
        → All (BackCat ps xs done) (match_cat h ps xs done).yields
    cat-match no_parts xs done ok = ((done, [], refl, (λ t new. refl), refl, refl), tt)
    cat-match (part t r ps) xs done ok =
        All-each (Back r xs) (BackCat (part t r ps) xs done) (match_all h r xs).yields
          (match_all h r xs).ending (λ c rest. match_cat h ps rest (put ℕ_discrete t c done))
          (λ c rest back.
            All-imp (match_cat h ps rest (put ℕ_discrete t c done)).yields
              (part-Back t r ps xs rest done c ok.0 back)
              (cat-match ps rest (put ℕ_discrete t c done) ok.2))
          (match-Back r xs ok.1)

    alt-match :
        (ps : Parts V) (xs : List V)
        → ReversibleParts h ps
        → All (AltBack ps xs) (match_alt h ps xs).yields
    alt-match no_parts xs ok = tt
    alt-match (part t r ps) xs ok = elim (Answer-cases (first (match_all h r xs))) [
      | inl (m, f) ↦
          let (pre, back, split) =
            All-first (Back r xs) (match_all h r xs) m (match-Back r xs ok.1) f in
          rw f ((t, m.0, pre, refl, ground arith, (λ w. part-hit t r ps pre m.0 w back), split), tt)
      | inr (inl f) ↦ rw f (
          All-imp (match_alt h ps xs).yields
            (λ m later.
              let (n, x, pre, same, old, back, split) = later in
              (
                n,
                x,
                pre,
                same,
                ground (arith, old),
                (λ w. part-miss t n r ps pre x w ok.0 old (back w)),
                split,
              ))
            (alt-match ps xs ok.2))
      | inr (inr (y, f)) ↦ rw f tt
    ]

  -- Take a host whose values are told apart up to the program's equality, and where each value that a
  -- regex can run over is the vector of its items: lists and vectors are, sets and other iterables are
  -- left out. For a reversible spec, `unform` of what `conform` gives for a value is then that value.
  -- Reversible are all specs but those with a merge or a `keys*`, where no tag stands twice, a conformer
  -- has an inverse, a nilable spec, a multi-spec and the predicates of an `&` give each value that they
  -- accept as it is, and what a `?` conforms is not nil.
  pub unform-conform :
      (s : Spec V) (v c : V) → Reversible h s → conform h s v ≡ valid c → unform h s c ≡ some v
  unform-conform s v c ok e = conform-back s v c ok e
