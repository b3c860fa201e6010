-- ===== src/PriorityMap/Least.antt =====
-- The first entry of a priority map of src/basilisp/lang/priority_map.py.
use baisilisp.Base.{
  ℕ, arith, ◌≡◌, refl, sym, true, false, Bool-cases, Option-cases, ◌↔◌, List-cases, none, some,
  List, [], ◌∷◌, All, Among, All-Among, ◌⊎◌, inl, inr,
}
use mathlib.Core.Path.{subst}
use baisilisp.Base.Int.{pos, negsuc, ltb_ℤ}
use baisilisp.PriorityMap.{
  HostMap, PriorityMap, Comparison, holds, number, compare, priority, is_before, insert, sort,
  sorted_items, peek,
}

module _ {K V : Type 0} (m : HostMap K V) (wrap : K → K) (p : PriorityMap m wrap) where
  abbrev AllAfter : K × V → List (K × V) → Type 0
  AllAfter e es = All (λ x. is_before m wrap p x e ≡ false) es

  abbrev Sorted : List (K × V) → Type 0
  Sorted [] = Unit
  Sorted (e ∷ es) = AllAfter e es × Sorted es

  All-insert :
      (P : K × V → Type 0) (e : K × V) (es : List (K × V))
      → P e
      → All P es
      → All P (insert m wrap p e es)
  unfolding insert
  All-insert P e [] h a = (h, tt)
  All-insert P e (x ∷ xs) h a = elim (Bool-cases (is_before m wrap p x e)) [
    | inl b ↦ rw (b, insert) (a.0, All-insert P e xs h a.1)
    | inr b ↦ rw (b, insert) (h, a)
  ]

  insert-All :
      (P : K × V → Type 0) (e : K × V) (es : List (K × V))
      → All P (insert m wrap p e es)
      → P e × All P es
  unfolding insert
  insert-All P e [] a = a
  insert-All P e (x ∷ xs) a = elim (Bool-cases (is_before m wrap p x e)) [
    | inl b ↦
        let later : insert m wrap p e (x ∷ xs) ≡ x ∷ insert m wrap p e xs = rw (b, insert) refl in
        let (h, rest) = subst (All P) later a in
        let (here, others) = insert-All P e xs rest in (here, (h, others))
    | inr b ↦
        let first : insert m wrap p e (x ∷ xs) ≡ e ∷ x ∷ xs = rw (b, insert) refl in
        subst (All P) first a
  ]

  sort-All : (P : K × V → Type 0) (es : List (K × V)) → All P (sort m wrap p es) → All P es
  unfolding sort
  sort-All P [] a = tt
  sort-All P (e ∷ es) a =
      let (h, rest) = insert-All P e (sort m wrap p es) a in (h, sort-All P es rest)

  All-sort : (P : K × V → Type 0) (es : List (K × V)) → All P es → All P (sort m wrap p es)
  unfolding sort
  All-sort P [] a = tt
  All-sort P (e ∷ es) a = All-insert P e (sort m wrap p es) a.0 (All-sort P es a.1)

module _ {K V : Type 0} (m : HostMap K V) (wrap : K → K) (p : PriorityMap m wrap)
    (one_way : (x y : K × V) → is_before m wrap p x y ≡ true → is_before m wrap p y x ≡ false)
    (chain : (x y z : K × V)
      → is_before m wrap p y x ≡ false
      → is_before m wrap p z y ≡ false
      → is_before m wrap p z x ≡ false) where
  AllAfter-chain :
      (e x : K × V) (xs : List (K × V))
      → is_before m wrap p x e ≡ false
      → AllAfter m wrap p x xs
      → AllAfter m wrap p e xs
  AllAfter-chain e x [] b a = tt
  AllAfter-chain e x (y ∷ ys) b a = (chain e x y b a.0, AllAfter-chain e x ys b a.1)

  insert-Sorted :
      (e : K × V) (es : List (K × V)) → Sorted m wrap p es → Sorted m wrap p (insert m wrap p e es)
  unfolding insert
  insert-Sorted e [] s = (tt, tt)
  insert-Sorted e (x ∷ xs) s = elim (Bool-cases (is_before m wrap p x e)) [
    | inl b ↦
        rw (b, insert)
          (
            All-insert m wrap p (λ y. is_before m wrap p y x ≡ false) e xs (one_way x e b) s.0,
            insert-Sorted e xs s.1,
          )
    | inr b ↦ rw (b, insert) ((b, AllAfter-chain e x xs b s.0), s)
  ]

  sort-Sorted : (es : List (K × V)) → Sorted m wrap p (sort m wrap p es)
  unfolding sort
  sort-Sorted [] = tt
  sort-Sorted (e ∷ es) = insert-Sorted e (sort m wrap p es) (sort-Sorted es)

  sort_nil : (es : List (K × V)) → sort m wrap p es ≡ [] → es ≡ []
  sort_nil [] e = refl
  sort_nil (x ∷ xs) e =
      absurd ((sort-All m wrap p (λ _. ⊥) (x ∷ xs) (subst (All (λ _. ⊥)) (sym e) tt)).0)

  leads_itself : (e : K × V) → is_before m wrap p e e ≡ false
  leads_itself e = elim (Bool-cases (is_before m wrap p e e)) [ inl b ↦ one_way e e b | inr b ↦ b ]

  peek_first :
      ((peek m wrap p ≡ none) × (m.items p.inner ≡ []))
      ⊎ ((e : K × V) × (peek m wrap p ≡ some e)
          × Among e (m.items p.inner)
          × AllAfter m wrap p e (m.items p.inner))
  unfolding peek sorted_items
  peek_first = elim (List-cases (sort m wrap p (m.items p.inner))) [
    | inl e ↦ inl (rw (e, peek, sorted_items) refl, sort_nil (m.items p.inner) e)
    | inr (x, xs, e) ↦
        let s : Sorted m wrap p (x ∷ xs) =
          subst (Sorted m wrap p) e (sort-Sorted (m.items p.inner)) in
        let found : All (λ y. Among y (m.items p.inner)) (x ∷ xs) =
          subst (All (λ y. Among y (m.items p.inner))) e (
            All-sort m wrap p (λ y. Among y (m.items p.inner)) (m.items p.inner)
              (All-Among (m.items p.inner))) in
        let least : All (λ y. is_before m wrap p y x ≡ false) (x ∷ xs) = (leads_itself x, s.0) in
        inr (
          x,
          rw (e, peek, sorted_items) refl,
          found.0,
          sort-All m wrap p (λ y. is_before m wrap p y x ≡ false) (m.items p.inner)
              (subst (All (λ y. is_before m wrap p y x ≡ false)) (sym e) least),
        )
  ]

-- What a comparator says of two priorities, if it says that the left one comes first.
abbrev Says : Comparison → Type 0
Says (holds b) = b ≡ true
Says (number n) = (k : ℕ) × (n ≡ negsuc k)

data Cases (c : Comparison) : Type 0 where
  says_yes : c ≡ holds true → Cases c
  says_no : c ≡ holds false → Cases c
  negative : (k : ℕ) → c ≡ number (negsuc k) → Cases c
  others : (k : ℕ) → c ≡ number (pos k) → Cases c

cases : (c : Comparison) → Cases c
cases (holds true) = says_yes refl
cases (holds false) = says_no refl
cases (number (negsuc k)) = negative k refl
cases (number (pos k)) = others k refl

module _ {K V : Type 0} (m : HostMap K V) (wrap : K → K) (p : PriorityMap m wrap) where
  -- The comparator puts the priority of `x` before that of `y`. The priority of an entry is its value,
  -- or what the key function of the map makes of it.
  abbrev pub Before : K × V → K × V → Type 0
  Before x y = elim (p.keyfn) [
    | none ↦ Says (p.comparator x.1 y.1)
    | some f ↦ Says (p.comparator (f x.1) (f y.1))
  ]

  -- No entry of the list comes before `e`.
  abbrev pub Leads : K × V → List (K × V) → Type 0
  Leads e es = All (λ x. ¬ (Before x e)) es

  compare-Says : (l r : V) → ltb_ℤ (compare m wrap p l r) (pos 0) ≡ true → Says (p.comparator l r)
  unfolding compare
  compare-Says l r h = elim (cases (p.comparator l r)) [
    | says_yes e ↦ rw e refl
    | says_no e ↦ elim (cases (p.comparator r l)) [
      | says_yes f ↦ absurd (ground (arith, e, f, h))
      | says_no f ↦ absurd (ground (arith, e, f, h))
      | negative k f ↦ absurd (ground (arith, e, f, h))
      | others k f ↦ absurd (ground (arith, e, f, h))
    ]
    | negative k e ↦ rw e (k, refl)
    | others k e ↦ absurd (ground (arith, e, h))
  ]

  Says-compare : (l r : V) → Says (p.comparator l r) → ltb_ℤ (compare m wrap p l r) (pos 0) ≡ true
  unfolding compare
  Says-compare l r h = elim (cases (p.comparator l r)) [
    | says_yes e ↦ ground (arith, e)
    | says_no e ↦ absurd (ground (arith, subst Says e h))
    | negative k e ↦ ground (arith, e)
    | others k e ↦ let (j, f) = subst Says e h in absurd (ground (arith, f))
  ]

  Before-iff : (x y : K × V) → is_before m wrap p x y ≡ true ↔ Before x y
  unfolding is_before priority compare
  Before-iff x y = elim (Option-cases (p.keyfn)) [
    | inl e ↦ rw e (compare-Says x.1 y.1, Says-compare x.1 y.1)
    | inr (f, e) ↦ rw e (compare-Says (f x.1) (f y.1), Says-compare (f x.1) (f y.1))
  ]

  not-Before : (x y : K × V) → ¬ (Before x y) → is_before m wrap p x y ≡ false
  not-Before x y n = elim (Bool-cases (is_before m wrap p x y)) [
    | inl b ↦ absurd (n ((Before-iff x y).0 b))
    | inr b ↦ b
  ]

  is_not-Before : (x y : K × V) → is_before m wrap p x y ≡ false → ¬ (Before x y)
  is_not-Before x y b h = absurd (ground (arith, b, (Before-iff x y).1 h))

  after_all : (e : K × V) (es : List (K × V)) → AllAfter m wrap p e es → Leads e es
  after_all e [] a = tt
  after_all e (x ∷ xs) a = (is_not-Before x e a.0, after_all e xs a.1)

  -- `peek` gives `None` only for an empty map; else it gives an entry of the map before which no other
  -- comes, by the comparator on the priorities that the key function gives. The conditions are those of
  -- an order: of two entries at most one comes before the other, and not coming before is transitive.
  pub peek-Leads :
      ((x y : K × V) → Before x y → ¬ (Before y x))
      → ((x y z : K × V) → ¬ (Before y x) → ¬ (Before z y) → ¬ (Before z x))
      → ((peek m wrap p ≡ none) × (m.items p.inner ≡ []))
        ⊎ ((e : K × V) × (peek m wrap p ≡ some e)
            × Among e (m.items p.inner)
            × Leads e (m.items p.inner))
  peek-Leads one_way chain =
      let found =
        peek_first m wrap p (λ x y b. not-Before y x (one_way x y ((Before-iff x y).0 b)))
          (λ x y z b c. not-Before z x (chain x y z (is_not-Before y x b) (is_not-Before z y c))) in
      elim found [
        | inl none_left ↦ inl none_left
        | inr (e, first, among, a) ↦ inr (e, first, among, after_all e (m.items p.inner) a)
      ]
