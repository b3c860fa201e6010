-- ===== src/Spec/Ends.antt =====
-- `conform` of src/basilisp/lang/spec.py ends: the fuel that the model gives its loops is enough.
use mathlib.Core.Path.{subst}
use baisilisp.Base.{
  ℕ, suc, ◌≢◌, ◌≤◌, List, [], ◌∷◌, ◌++◌, length, All, arith, inl, inr, ◌==◌, Option-cases,
  Bool-cases, ℕ_discrete, leb,
}
use baisilisp.Base.Dict.{Dict, put}
use baisilisp.Spec.{
  Host, Error, repeated_nothing, no_fuel, Answer, valid, raise, ◌>>=◌, Spec, pred, fspec, wrapped,
  conformer, nonconforming, merge_specs, and_specs, or_specs, nilable, coll_of, map_of, keys, tuple,
  multi, named, unregistered, regex, Specs, no_specs, spec_and, Branches, no_branches, branch,
  Regex, one, cat, alt, repeat, maybe, amp, keys_star, Parts, no_parts, part,
}
use baisilisp.Spec.Conform.{
  Matches, first, repeat_loop, counted, repeated, check_each, check_entries, check_keys, fits,
  conform, conform_and, conform_or, conform_fields, conform_zip, match_all, match_cat, match_alt,
  match_keys_star, yield_map, conform_merge, has_all, specs_length,
}
use baisilisp.Spec.Matching.{Answer-cases, All-imp, All-append}
use baisilisp.Spec.Loops.{
  Ends, Ends-bind, Ends-option, Ends-if, EndsWith-raise, Within, Ends-whole, first-Within,
  Within-each, repeat_loop-Shrinks, check_each-Ends, check_entries-Ends, Ends-answer, Within-first,
  Within-answer,
}

module _ {V : Type 0} (h : Host V) where
  counted_fit :
      (bound minimum count : ℕ) (done xs : List V) (steps : List (V × List V))
      → length xs ≤ bound
      → All (λ (m : V × List V). length m.1 ≤ bound) steps
      → All (λ (m : V × List V). length m.1 ≤ bound) (counted h minimum count done xs steps)
  unfolding counted
  counted_fit bound minimum count done xs [] le fit = elim (Bool-cases (leb minimum count)) [
    | inl e ↦ rw e (le, tt)
    | inr e ↦ rw e tt
  ]
  counted_fit bound minimum count done xs ((c, rest) ∷ steps) le fit =
      All-append (λ (m : V × List V). length m.1 ≤ bound)
        (counted h minimum (suc count) (done ++ c ∷ []) rest steps) _
        (counted_fit bound minimum (suc count) (done ++ c ∷ []) rest steps fit.0 fit.1)
        (elim (Bool-cases (leb minimum count)) [ inl e ↦ rw e (le, tt) | inr e ↦ rw e tt ])

  yield_map-Within :
      (conforms : V → Answer V) (bound xs : List V) (done : Dict ℕ V) (more : Matches V)
      → ((v : V) → Ends (conforms v))
      → length xs ≤ length bound
      → Within bound more
      → Within bound (yield_map h conforms xs done more)
  unfolding yield_map
  yield_map-Within conforms bound xs done more all le fit =
      let end = all (h.map done) in
      elim (Answer-cases (conforms (h.map done))) [
        | inl (c, e) ↦ rw (e, yield_map) ((le, fit.0), fit.1)
        | inr (inl e) ↦ rw (e, yield_map) fit
        | inr (inr (x, e)) ↦ rw (e, yield_map) (tt, EndsWith-raise x (raised x (rw e at end)))
      ]
    where
      raised : (x : Error) → Ends {A = V} (raise x) → Ends {A = Unit {0}} (raise x)
      raised repeated_nothing k = tt
      raised no_fuel k = k

  match_keys_star-Within :
      (conforms : V → Answer V) (bound xs : List V) (done : Dict ℕ V)
      → ((v : V) → Ends (conforms v))
      → length xs ≤ length bound
      → Within bound (match_keys_star h conforms xs done)
  unfolding match_keys_star
  match_keys_star-Within conforms bound [] done all le =
      yield_map-Within conforms bound [] done _ all le (tt, tt)
  match_keys_star-Within conforms bound (k ∷ []) done all le =
      yield_map-Within conforms bound (k ∷ []) done _ all le (tt, tt)
  match_keys_star-Within conforms bound (k ∷ x ∷ xs) done all le =
      yield_map-Within conforms bound (k ∷ x ∷ xs) done _ all le (elim (Option-cases (h.tag_of k)) [
        | inl e ↦ rw e (tt, tt)
        | inr (t, e) ↦
            rw e
              (match_keys_star-Within conforms bound xs (put ℕ_discrete t x done) all (omega arith))
      ])

  mutual
    unfolding conform check_keys repeated

    conform-Ends : (s : Spec V) (v : V) → Ends (conform h s v)
    conform-Ends (pred p) v = Ends-option (p v) _ (λ b. Ends-if b (valid v) tt)
    conform-Ends fspec v = Ends-if (h.is_callable v) (valid v) tt
    conform-Ends (wrapped s) v = conform-Ends s v
    conform-Ends (conformer f u) v = Ends-option (f v) valid (λ c. tt)
    conform-Ends (nonconforming s) v = Ends-bind (conform h s v) _ (conform-Ends s v) (λ c. tt)
    conform-Ends (merge_specs ss) v = merge-Ends ss v []
    conform-Ends (and_specs ss) v = and-Ends ss v
    conform-Ends (or_specs bs) v = or-Ends bs v
    conform-Ends (nilable s) v = elim (Bool-cases (h.is_nil v)) [
      | inl e ↦ rw e tt
      | inr e ↦ rw e (conform-Ends s v)
    ]
    conform-Ends (coll_of o s) v = Ends-option (h.items v) _ (λ xs. Ends-if (fits h o v xs) _ (
        Ends-bind (check_each (conform h s) xs) _
          (check_each-Ends (conform h s) xs (conform-Ends s)) (λ u. tt)))
    conform-Ends (map_of k s) v = Ends-option (h.entries v) _ (λ es.
        Ends-bind (check_entries (conform h k) (conform h s) es) _
          (check_entries-Ends (conform h k) (conform h s) es (conform-Ends k) (conform-Ends s))
          (λ u. tt))
    conform-Ends (keys required optional) v = Ends-option (h.entries v) _ (λ es.
        Ends-if (has_all h required v) _ (
          Ends-bind (conform_fields h required v >>= λ u. conform_fields h optional v) _
            (Ends-bind (conform_fields h required v) _ (fields-Ends required v)
              (λ u. fields-Ends optional v))
            (λ u. tt)))
    conform-Ends (tuple ss) v = Ends-option (h.items v) _ (λ xs.
        Ends-if (length xs == specs_length h ss) _
          (Ends-bind (conform_zip h ss xs) _ (zip-Ends ss xs) (λ u. tt)))
    conform-Ends (multi dispatch methods) v =
        Ends-option (dispatch v) _ (λ i. conform-Ends (methods i) v)
    conform-Ends (named s) v = conform-Ends s v
    conform-Ends unregistered v = tt
    conform-Ends (regex r) v =
        Ends-option (h.iter v) _ (λ xs.
          Ends-whole (match_all h r xs).yields (match_all h r xs).ending (match-Within r xs).1)

    merge-Ends : (ss : Specs V) (v : V) (done : List V) → Ends (conform_merge h ss v done)
    merge-Ends no_specs v done = tt
    merge-Ends (spec_and s ss) v done =
        Ends-bind (conform h s v) _ (conform-Ends s v)
          (λ c. Ends-option (h.entries c) _ (λ es. merge-Ends ss v (done ++ c ∷ [])))

    and-Ends : (ss : Specs V) (v : V) → Ends (conform_and h ss v)
    and-Ends no_specs v = tt
    and-Ends (spec_and s ss) v = Ends-bind (conform h s v) _ (conform-Ends s v) (λ c. and-Ends ss c)

    zip-Ends : (ss : Specs V) (xs : List V) → Ends (conform_zip h ss xs)
    zip-Ends no_specs xs = tt
    zip-Ends (spec_and s ss) [] = tt
    zip-Ends (spec_and s ss) (x ∷ xs) =
        Ends-bind (conform h s x) _ (conform-Ends s x) (λ u. zip-Ends ss xs)

    or-Ends : (bs : Branches V) (v : V) → Ends (conform_or h bs v)
    or-Ends no_branches v = tt
    or-Ends (branch t s bs) v =
        Ends-answer (conform h s v) _ (conform_or h bs v) (conform-Ends s v) (λ c. tt)
          (or-Ends bs v)

    fields-Ends : (bs : Branches V) (v : V) → Ends (conform_fields h bs v)
    fields-Ends no_branches v = tt
    fields-Ends (branch t s bs) v = elim (Option-cases (h.val_at v t)) [
      | inl e ↦ rw e (fields-Ends bs v)
      | inr (x, e) ↦ rw e (Ends-bind (conform h s x) _ (conform-Ends s x) (λ u. fields-Ends bs v))
    ]

    match-Within : (r : Regex V) (xs : List V) → Within xs (match_all h r xs)
    match-Within (one s) [] = (tt, tt)
    match-Within (one s) (x ∷ xs) =
        Within-answer (x ∷ xs) (conform h s x) _ (conform-Ends s x) (λ c. ((omega arith, tt), tt))
    match-Within (cat ps) xs = cat-Within ps xs xs [] (omega arith)
    match-Within (alt ps) xs = alt-Within ps xs
    match-Within (repeat r minimum) xs =
        let fit =
          repeat_loop-Shrinks (suc (length xs)) (match_all h r) xs (match-Within r) (omega arith) in
        elim (Answer-cases (repeat_loop (suc (length xs)) (match_all h r) xs)) [
          | inl (steps, e) ↦
              rw e (counted_fit (length xs) minimum 0 [] xs steps (omega arith) (rw e at fit), tt)
          | inr (inl e) ↦ rw e (tt, tt)
          | inr (inr (x, e)) ↦ rw e (tt, rw e at fit)
        ]
    match-Within (maybe r) xs =
        Within-first xs (first (match_all h r xs)) _ _
          (first-Within xs (match_all h r xs) (match-Within r xs)) (λ m le. ((le, tt), tt))
          ((omega arith, tt), tt)
    match-Within (amp r ss) xs =
        Within-first xs (first (match_all h r xs)) _ _
          (first-Within xs (match_all h r xs) (match-Within r xs))
          (λ m le.
            Within-answer xs (conform_and h ss m.0) _ (and-Ends ss m.0) (λ c. ((le, tt), tt)))
          (tt, tt)
    match-Within (keys_star required optional) xs =
        match_keys_star-Within _ xs xs []
          (λ v. Ends-option (h.entries v) _ (λ es. Ends-if (has_all h required v) _ (
            Ends-bind (conform_fields h required v >>= λ u. conform_fields h optional v) _
              (Ends-bind (conform_fields h required v) _ (fields-Ends required v)
                (λ u. fields-Ends optional v))
              (λ u. tt))))
          (omega arith)

    cat-Within :
        (ps : Parts V) (bound xs : List V) (done : Dict ℕ V)
        → length xs ≤ length bound
        → Within bound (match_cat h ps xs done)
    cat-Within no_parts bound xs done le = ((le, tt), tt)
    cat-Within (part t r ps) bound xs done le =
        let (fit, end) = match-Within r xs in
        Within-each bound (match_all h r xs).yields (match_all h r xs).ending _
          (λ c rest le'. cat-Within ps bound rest (put ℕ_discrete t c done) le')
          (All-imp (match_all h r xs).yields (λ m (k : length m.1 ≤ length xs). omega arith) fit)
          end

    alt-Within : (ps : Parts V) (xs : List V) → Within xs (match_alt h ps xs)
    alt-Within no_parts xs = (tt, tt)
    alt-Within (part t r ps) xs =
        Within-first xs (first (match_all h r xs)) _ (match_alt h ps xs)
          (first-Within xs (match_all h r xs) (match-Within r xs)) (λ m le. ((le, tt), tt))
          (alt-Within ps xs)

  -- For every spec in which no keyword leads back to itself and every value, the loops of `conform` over
  -- the matches of repeated specs end, with or without a result: none of them is ever short of its fuel,
  -- which is one turn for each value that is left and one more.
  pub conform_ends : (s : Spec V) (v : V) → conform h s v ≢ raise no_fuel
  conform_ends s v e = subst Ends e (conform-Ends s v)
