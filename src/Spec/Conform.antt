-- ===== src/Spec/Conform.antt =====
-- `_conform` and the matching of regex specs of src/basilisp/lang/spec.py, for `conform` and `valid`,
-- which collect no problems. A position in the values is the list of the values from it on.
use baisilisp.Base.{
  ℕ, zero, suc, Bool, true, not, ◌&&◌, ◌||◌, Option, none, some, List, [], ◌∷◌, ◌++◌, length, leb,
  ◌==◌, if◌then◌else◌, ℕ_discrete, is_some,
}
use baisilisp.Base.Dict.{Dict, put}
use baisilisp.Spec.{
  Host, Error, repeated_nothing, no_fuel, Answer, valid, invalid, raise, ◌>>=◌, Collection, Spec,
  pred, fspec, wrapped, conformer, nonconforming, merge_specs, and_specs, or_specs, nilable,
  coll_of, map_of, keys, tuple, multi, named, unregistered, regex, Specs, no_specs, spec_and,
  Branches, no_branches, branch, answer, option, Regex, one, cat, alt, repeat, maybe, amp,
  keys_star, Parts, no_parts, part,
}

-- What a generator of matches yields, and the exception that ends it, if one does. A match is what
-- was conformed with the values that are left.
pub record Matches (V : Type 0) : Type 0 where
  pub yields : List (V × List V)
  pub ending : Option Error

module _ {V : Type 0} where
  abbrev pub no_match : Matches V
  no_match = record { yields = []; ending = none }

  abbrev pub one_match : V → List V → Matches V
  one_match c rest = record { yields = (c, rest) ∷ []; ending = none }

  abbrev pub failed : Error → Matches V
  failed e = record { yields = []; ending = some e }

  -- `_match_regex`: the first match.
  unfoldable pub first : Matches V → Answer (V × List V)
  first ms = elim ms.yields [ m ∷ _ ↦ valid m | [] ↦ option invalid raise (ms.ending) ]

  -- the loop of `_conform_regex`, which takes the first match that leaves nothing
  unfoldable pub whole_from : List (V × List V) → Option Error → Answer V
  whole_from [] none = invalid
  whole_from [] (some e) = raise e
  whole_from ((c, []) ∷ ms) e = valid c
  whole_from ((c, x ∷ rest) ∷ ms) e = whole_from ms e

  -- `for match in matches: yield from f(match)`
  unfoldable pub each : List (V × List V) → Option Error → (V → List V → Matches V) → Matches V
  each [] e f = record { yields = []; ending = e }
  each ((c, rest) ∷ ms) e f =
      let now = f c rest in
      let more = each ms e f in
      elim now.ending [
        | some x ↦ now
        | none ↦ record { yields = now.yields ++ more.yields; ending = more.ending }
      ]

  -- the `while` loop of a repeated spec: each conformed value with the position after it
  unfoldable pub repeat_loop : ℕ → (List V → Matches V) → List V → Answer (List (V × List V))
  repeat_loop zero match xs = raise no_fuel
  repeat_loop (suc fuel) match xs = elim (first (match xs)) [
    | raise e ↦ raise e
    | invalid ↦ valid []
    | valid m ↦
        if length m.1 == length xs
        then raise repeated_nothing
        else (repeat_loop fuel match m.1 >>= λ steps. valid (m ∷ steps))
  ]

  unfoldable pub check_each : {A : Type 0} → (A → Answer V) → List A → Answer (Unit {0})
  check_each f [] = valid tt
  check_each f (x ∷ xs) = let rest = check_each f xs in f x >>= λ _. rest

  unfoldable pub check_entries : (V → Answer V) → (V → Answer V) → List (V × V) → Answer (Unit {0})
  check_entries f g [] = valid tt
  check_entries f g ((k, v) ∷ es) =
      let rest = check_entries f g es in f k >>= λ _. g v >>= λ _. rest

module _ {V : Type 0} (h : Host V) where
  -- The matches of a repeated spec, from all of its steps down to the minimum. `done` holds what was
  -- conformed in the `count` steps before the position `xs`.
  unfoldable pub counted : ℕ → ℕ → List V → List V → List (V × List V) → List (V × List V)
  counted minimum count done xs [] = if leb minimum count then (h.vec done, xs) ∷ [] else []
  counted minimum count done xs ((c, rest) ∷ steps) =
      counted minimum (suc count) (done ++ c ∷ []) rest steps
      ++ (if leb minimum count then (h.vec done, xs) ∷ [] else [])

  -- the match of a `_Repeat`
  unfoldable pub repeated : ℕ → (List V → Matches V) → List V → Matches V
  repeated minimum match xs =
      answer (λ steps. record { yields = counted minimum 0 [] xs steps; ending = none }) no_match
        failed (repeat_loop (suc (length xs)) match xs)

  -- the conditions of `_conform_coll_of`
  unfoldable pub fits : Collection V → V → List V → Bool
  fits o v xs =
      option (true) (λ k. k v) (o.kind)
      && option (true) (λ n. length xs == n) (o.count)
      && option (true) (λ n. leb n (length xs)) (o.min_count)
      && option (true) (λ n. leb (length xs) n) (o.max_count)
      && (not o.distinct || h.all_different xs)

  -- no required key is missing
  unfoldable pub has_all : Branches V → V → Bool
  has_all no_branches v = true
  has_all (branch t s bs) v = is_some (h.val_at v t) && has_all bs v

  -- `_conform_keys`, given the loop over the keys that are there
  unfoldable pub check_keys : Branches V → V → Answer (Unit {0}) → Answer V
  check_keys required v fields =
      option invalid (λ _. if has_all required v then (fields >>= λ _. valid v) else invalid)
        (h.entries v)

  abbrev pub specs_length : Specs V → ℕ
  specs_length no_specs = 0
  specs_length (spec_and s ss) = suc (specs_length ss)

  -- The value itself, where its parts conform.
  abbrev pub whole_value : V → Answer (Unit {0}) → Answer V
  whole_value v a = a >>= λ _. valid v

module _ {V : Type 0} (h : Host V) where
  -- The match of the map of `done`, if it conforms, and then those of `more`.
  unfoldable pub yield_map : (V → Answer V) → List V → Dict ℕ V → Matches V → Matches V
  yield_map conforms xs done more =
      answer (λ c. record { yields = (c, xs) ∷ more.yields; ending = more.ending }) (more) failed
        (conforms (h.map done))

  -- `_match_keys_star`: after each even number of values, if the keys so far are keywords and the map
  -- of the pairs conforms. `conforms` is `_conform_keys` with the map's spec.
  unfoldable pub match_keys_star : (V → Answer V) → List V → Dict ℕ V → Matches V
  match_keys_star conforms [] done = yield_map conforms [] done no_match
  match_keys_star conforms (k ∷ []) done = yield_map conforms (k ∷ []) done no_match
  match_keys_star conforms (k ∷ x ∷ xs) done =
      let more : Matches V =
        option no_match (λ t. match_keys_star conforms xs (put ℕ_discrete t x done)) (h.tag_of k) in
      yield_map conforms (k ∷ x ∷ xs) done more

unfoldable mutual
  pub conform : {V : Type 0} → Host V → Spec V → V → Answer V
  conform h (pred p) v = option invalid (λ b. if b then valid v else invalid) (p v)
  conform h fspec v = if h.is_callable v then valid v else invalid
  conform h (wrapped s) v = conform h s v
  conform h (conformer f u) v = option invalid valid (f v)
  conform h (nonconforming s) v = conform h s v >>= λ _. valid v
  conform h (merge_specs ss) v = conform_merge h ss v []
  conform h (and_specs ss) v = conform_and h ss v
  conform h (or_specs bs) v = conform_or h bs v
  conform h (nilable s) v = let inner = conform h s v in if h.is_nil v then valid v else inner
  conform h (coll_of o s) v =
      option invalid
        (λ xs. if fits h o v xs then whole_value h v (check_each (conform h s) xs) else invalid)
        (h.items v)
  conform h (map_of k s) v =
      option invalid (λ es. whole_value h v (check_entries (conform h k) (conform h s) es))
        (h.entries v)
  conform h (keys required optional) v =
      check_keys h required v (conform_fields h required v >>= λ _. conform_fields h optional v)
  conform h (tuple ss) v =
      option invalid
        (λ xs.
          if length xs == specs_length h ss then whole_value h v (conform_zip h ss xs) else invalid)
        (h.items v)
  conform h (multi dispatch methods) v = option invalid (λ i. conform h (methods i) v) (dispatch v)
  conform h (named s) v = conform h s v
  conform h unregistered v = invalid
  conform h (regex r) v =
      option invalid (λ xs. whole_from (match_all h r xs).yields (match_all h r xs).ending)
        (h.iter v)

  -- the loop over the specs of a `_Merge`, `done` being what they gave so far
  pub conform_merge : {V : Type 0} → Host V → Specs V → V → List V → Answer V
  conform_merge h no_specs v done = valid (h.merge done)
  conform_merge h (spec_and s ss) v done = conform h s v >>= λ c.
      option invalid (λ _. conform_merge h ss v (done ++ c ∷ [])) (h.entries c)

  -- the loops over the specs of an `_And` and the predicates of an `_Amp`
  pub conform_and : {V : Type 0} → Host V → Specs V → V → Answer V
  conform_and h no_specs v = valid v
  conform_and h (spec_and s ss) v = conform h s v >>= λ c. conform_and h ss c

  pub conform_or : {V : Type 0} → Host V → Branches V → V → Answer V
  conform_or h no_branches v = invalid
  conform_or h (branch t s bs) v =
      let rest = conform_or h bs v in
      answer (λ c. valid (h.vec (h.tag t ∷ c ∷ []))) rest raise (conform h s v)

  pub conform_fields : {V : Type 0} → Host V → Branches V → V → Answer (Unit {0})
  conform_fields h no_branches v = valid tt
  conform_fields h (branch t s bs) v =
      let rest = conform_fields h bs v in
      option rest (λ x. conform h s x >>= λ _. rest) (h.val_at v t)

  pub conform_zip : {V : Type 0} → Host V → Specs V → List V → Answer (Unit {0})
  conform_zip h no_specs xs = valid tt
  conform_zip h (spec_and s ss) [] = valid tt
  conform_zip h (spec_and s ss) (x ∷ xs) = conform h s x >>= λ _. conform_zip h ss xs

  -- `_match_regex_all`
  pub match_all : {V : Type 0} → Host V → Regex V → List V → Matches V
  match_all h (one s) [] = no_match
  match_all h (one s) (x ∷ xs) = answer (λ c. one_match c xs) no_match failed (conform h s x)
  match_all h (cat ps) xs = match_cat h ps xs []
  match_all h (alt ps) xs = match_alt h ps xs
  match_all h (repeat r minimum) xs = repeated h minimum (match_all h r) xs
  match_all h (maybe r) xs =
      answer (λ m. one_match m.0 m.1) (one_match h.nil xs) failed (first (match_all h r xs))
  match_all h (amp r ss) xs =
      answer (λ m. answer (λ c. one_match c m.1) no_match failed (conform_and h ss m.0)) no_match
        failed (first (match_all h r xs))
  match_all h (keys_star required optional) xs =
      match_keys_star h
        (λ v.
          check_keys h required v
            (conform_fields h required v >>= λ _. conform_fields h optional v))
        xs []

  -- `_match_cat`, whose `step` has collected `done`
  pub match_cat : {V : Type 0} → Host V → Parts V → List V → Dict ℕ V → Matches V
  match_cat h no_parts xs done = one_match (h.map done) xs
  match_cat h (part t r ps) xs done =
      each (match_all h r xs).yields (match_all h r xs).ending
        (λ c rest. match_cat h ps rest (put ℕ_discrete t c done))

  pub match_alt : {V : Type 0} → Host V → Parts V → List V → Matches V
  match_alt h no_parts xs = no_match
  match_alt h (part t r ps) xs =
      let rest = match_alt h ps xs in
      answer (λ m. one_match (h.vec (h.tag t ∷ m.0 ∷ [])) m.1) rest failed
        (first (match_all h r xs))
