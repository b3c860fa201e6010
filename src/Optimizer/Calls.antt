-- ===== src/Optimizer/Calls.antt =====
-- Calls of the module `operator` against the operators that src/basilisp/lang/compiler/optimizer.py puts
-- in their place.
use std.Path.{fun_ext}
use mathlib.Core.Path.{subst}
use baisilisp.Base.{
  ◌≡◌, refl, sym, ap, ◌∙◌, ℕ, Bool, true, false, Option, none, some, List, [], ◌∷◌, arith, ◌==◌,
  Bool-cases, inl, inr,
}
use baisilisp.Optimizer.{
  Attr, contains, getitem, BinOp, UnaryOp, CompareOp, in_op, Expr, constant, name, attribute, call,
  bin_op, unary_op, compare_expr, subscript, delete, other_expr, Exprs, no_exprs, expr_and,
}
use baisilisp.Optimizer.Rewrite.{
  Known, binary_known, unary_known, compare_known, identity_known, contains_known, getitem_known,
  unknown, known, rewrite_known, optimize_operator_call, needs_eq_operator, identity,
}
use baisilisp.Optimizer.Meaning.{
  Outcome, value, raised, broken, Eff, pure, after, ◌>>=◌, Python, unary, read_name, eval, eval_all,
}

-- What the optimizer looks at in an argument.
pub data ArgKind : Type 0 where
  a_constant : Bool → ArgKind
  a_name : ℕ → ArgKind
  another : ArgKind

abbrev pub kind : {V : Type 0} → Expr V → ArgKind
kind (constant singleton v) = a_constant singleton
kind (name n) = a_name n
kind _ = another

abbrev pub of_name : ArgKind → Attr → Option (ℕ × Attr)
of_name (a_name n) a = some (n, a)
of_name _ a = none

-- The name and the attribute of an expression `n.f`.
abbrev pub head : {V : Type 0} → Expr V → Option (ℕ × Attr)
head (attribute e a) = of_name (kind e) a
head _ = none

abbrev pub kinds : {V : Type 0} → Exprs V → List ArgKind
kinds no_exprs = []
kinds (expr_and e es) = kind e ∷ kinds es

-- What Python documents of the module `operator`, whose name in compiled code is `alias`: its functions
-- do what the operators do. `always` says of which names a lookup cannot fail.
pub record OperatorLaws {V S : Type 0} (h : Python V S) (alias : ℕ) (always : ℕ → Bool)
    : Type 0 where
  pub operator : V
  pub fn : Attr → V
  pub found : (st : S) → h.lookup st alias ≡ some operator
  pub get_fn : (a : Attr) → h.get_attr operator a ≡ pure (fn a)
  pub binary_law :
      (a : Attr) (op : BinOp)
      → known a ≡ binary_known op
      → (x y : V) → h.apply (fn a) (x ∷ y ∷ []) ≡ h.binary op x y
  pub unary_law :
      (a : Attr) (op : UnaryOp)
      → known a ≡ unary_known op
      → (x : V) → h.apply (fn a) (x ∷ []) ≡ unary h op x
  pub compare_law :
      (a : Attr) (op : CompareOp)
      → known a ≡ compare_known op
      → (x y : V) → h.apply (fn a) (x ∷ y ∷ []) ≡ h.comparison op x y
  pub identity_law :
      (a : Attr) (op eq : CompareOp)
      → known a ≡ identity_known op eq
      → (x y : V) → h.apply (fn a) (x ∷ y ∷ []) ≡ h.comparison op x y
  pub contains_law : (x y : V) → h.apply (fn contains) (x ∷ y ∷ []) ≡ h.comparison in_op y x
  pub getitem_law : (x y : V) → h.apply (fn getitem) (x ∷ y ∷ []) ≡ h.item_of x y
  pub bound : (st : S) (n : ℕ) → always n ≡ true → (v : V) × (h.lookup st n ≡ some v)

abbrev pub NotPlain : ArgKind → Type 0
NotPlain (a_constant singleton) = singleton ≡ true
NotPlain _ = Unit

abbrev pub IsStill : (ℕ → Bool) → ArgKind → Type 0
IsStill always (a_constant singleton) = Unit
IsStill always (a_name n) = always n ≡ true
IsStill always another = ⊥

abbrev pub Guarded : Bool → Type 0 → Type 0
Guarded true P = P
Guarded false P = Unit

-- The arguments with which a call of a known operator may be rewritten.
abbrev pub Fits : (ℕ → Bool) → Known → List ArgKind → Type 0
Fits always (binary_known op) (a ∷ b ∷ []) = Unit
Fits always (unary_known op) (a ∷ []) = Unit
Fits always (compare_known op) (a ∷ b ∷ []) = Unit
Fits always (identity_known op eq) (a ∷ b ∷ []) = NotPlain a × NotPlain b
Fits always contains_known (a ∷ b ∷ []) = IsStill always a × IsStill always b
Fits always getitem_known (a ∷ b ∷ []) = Unit
Fits always unknown ks = Unit
Fits always _ _ = ⊥

module _ {V S : Type 0} where
  after-after :
      {A B C : Type 0} (f : A → Eff V S B) (g : B → Eff V S C) (r : Outcome V A × S)
      → after g (after f r) ≡ after (λ x. f x >>= g) r
  after-after f g (value a, st) = refl
  after-after f g (raised e, st) = refl
  after-after f g (broken, st) = refl

  pub >>=-assoc :
      {A B C : Type 0} (m : Eff V S A) (f : A → Eff V S B) (g : B → Eff V S C)
      → ((m >>= f) >>= g) ≡ (m >>= λ x. f x >>= g)
  >>=-assoc m f g = fun_ext (λ st. after-after f g (m st))

module _ {V S : Type 0} (h : Python V S) (alias : ℕ) (always : ℕ → Bool)
    (laws : OperatorLaws h alias always) where
  eval_one :
      {A : Type 0} (a : Expr V) (g : List V → Eff V S A)
      → (eval_all h (expr_and a no_exprs) >>= g) ≡ (eval h a >>= λ x. g (x ∷ []))
  unfolding eval_all
  eval_one a g = >>=-assoc (eval h a) (λ x. pure (x ∷ [])) g

  eval_two :
      {A : Type 0} (a b : Expr V) (g : List V → Eff V S A)
      → (eval_all h (expr_and a (expr_and b no_exprs)) >>= g)
        ≡ (eval h a >>= λ x. eval h b >>= λ y. g (x ∷ y ∷ []))
  unfolding eval_all
  eval_two a b g =
      >>=-assoc (eval h a) (λ x. eval_all h (expr_and b no_exprs) >>= λ vs. pure (x ∷ vs)) g
      ∙ ap (λ k. eval h a >>= k)
          (fun_ext (λ x.
            >>=-assoc (eval_all h (expr_and b no_exprs)) (λ vs. pure (x ∷ vs)) g
            ∙ eval_one b (λ vs. g (x ∷ vs))))

  -- The value of an argument that is still.
  still_value :
      (e : Expr V) → IsStill always (kind e) → (st : S) → (v : V) × (eval h e st ≡ (value v, st))
  unfolding eval read_name
  still_value (constant singleton v) s st = (v, refl)
  still_value (name n) s st = let (v, e) = laws.bound st n s in (v, rw (e, read_name) refl)
  still_value (attribute e a) s st = absurd s
  still_value (call f args) s st = absurd s
  still_value (bin_op a op b) s st = absurd s
  still_value (unary_op op a) s st = absurd s
  still_value (compare_expr a op b) s st = absurd s
  still_value (subscript a b) s st = absurd s
  still_value (delete a b) s st = absurd s
  still_value (other_expr k es) s st = absurd s

  swap_still :
      {A : Type 0} (a b : Expr V) (g : V → V → Eff V S A)
      → IsStill always (kind a)
      → IsStill always (kind b)
      → (eval h a >>= λ x. eval h b >>= λ y. g x y) ≡ (eval h b >>= λ y. eval h a >>= λ x. g x y)
  swap_still a b g sa sb = fun_ext (λ st.
      let (x, ea) = still_value a sa st in
      let (y, eb) = still_value b sb st in rw (ea, eb, ea) refl)

  plain_kind : (e : Expr V) → NotPlain (kind e) → needs_eq_operator e ≡ false
  unfolding needs_eq_operator
  plain_kind (constant singleton v) p = rw p refl
  plain_kind (name n) p = refl
  plain_kind (attribute e a) p = refl
  plain_kind (call f args) p = refl
  plain_kind (bin_op a op b) p = refl
  plain_kind (unary_op op a) p = refl
  plain_kind (compare_expr a op b) p = refl
  plain_kind (subscript a b) p = refl
  plain_kind (delete a b) p = refl
  plain_kind (other_expr k es) p = refl

  called :
      (f : Expr V) (a : Attr) (args : Exprs V)
      → eval h f ≡ pure (laws.fn a)
      → eval h (call f args) ≡ (eval_all h args >>= λ vs. h.apply (laws.fn a) vs)
  unfolding eval
  called f a args e = rw e refl

  called_two :
      (f : Expr V) (a : Attr) (x y : Expr V)
      → eval h f ≡ pure (laws.fn a)
      → eval h (call f (expr_and x (expr_and y no_exprs)))
        ≡ (eval h x >>= λ u. eval h y >>= λ v. h.apply (laws.fn a) (u ∷ v ∷ []))
  called_two f a x y e =
      called f a (expr_and x (expr_and y no_exprs)) e ∙ eval_two x y (h.apply (laws.fn a))

  called_as :
      (f : Expr V) (a : Attr) (x y : Expr V) (g : V → V → Eff V S V)
      → eval h f ≡ pure (laws.fn a)
      → ((u v : V) → h.apply (laws.fn a) (u ∷ v ∷ []) ≡ g u v)
      → (eval h x >>= λ u. eval h y >>= λ v. g u v)
        ≡ eval h (call f (expr_and x (expr_and y no_exprs)))
  called_as f a x y g e law = sym (
      called_two f a x y e
      ∙ ap (λ (k : V → V → Eff V S V). eval h x >>= λ u. eval h y >>= k u)
          (fun_ext (λ u. fun_ext (λ v. law u v))))

  contains_of :
      (a : Attr)
      → known a ≡ contains_known
      → (u v : V) → h.apply (laws.fn a) (u ∷ v ∷ []) ≡ h.comparison in_op v u
  unfolding known
  contains_of a k u v = let e : a ≡ contains = ground (arith, k) in rw e (laws.contains_law u v)

  getitem_of :
      (a : Attr)
      → known a ≡ getitem_known
      → (u v : V) → h.apply (laws.fn a) (u ∷ v ∷ []) ≡ h.item_of u v
  unfolding known
  getitem_of a k u v = let e : a ≡ getitem = ground (arith, k) in rw e (laws.getitem_law u v)

  -- An expression that stands for a call and means the same.
  abbrev pub Rewrites : Option (Expr V) → Expr V → Type 0
  Rewrites o e =
      (e' : Expr V) × (o ≡ some e')
      × (eval h e' ≡ eval h e)
      × (kind e' ≡ another)
      × (head e' ≡ none)

  -- A call of the function of an operator does what the operator does.
  rewrite_known-Rewrites :
      (k : Known) (a : Attr) (f : Expr V) (args : Exprs V)
      → known a ≡ k
      → eval h f ≡ pure (laws.fn a)
      → Fits always k (kinds args)
      → Rewrites (rewrite_known k f args) (call f args)
  unfolding rewrite_known eval identity
  rewrite_known-Rewrites (binary_known op) a f (expr_and x (expr_and y no_exprs)) ka e fit =
      (bin_op x op y, refl, called_as f a x y (h.binary op) e (laws.binary_law a op ka), refl, refl)
  rewrite_known-Rewrites (unary_known op) a f (expr_and x no_exprs) ka e fit = (
    unary_op op x,
    refl,
    sym (
        called f a (expr_and x no_exprs) e
        ∙ eval_one x (h.apply (laws.fn a))
        ∙ ap (λ (k : V → Eff V S V). eval h x >>= k) (fun_ext (λ u. laws.unary_law a op ka u))),
    refl,
    refl,
  )
  rewrite_known-Rewrites (compare_known op) a f (expr_and x (expr_and y no_exprs)) ka e fit = (
    compare_expr x op y,
    refl,
    called_as f a x y (h.comparison op) e (laws.compare_law a op ka),
    refl,
    refl,
  )
  rewrite_known-Rewrites (identity_known op eq) a f (expr_and x (expr_and y no_exprs)) ka e fit = (
    compare_expr x op y,
    rw (identity, plain_kind x fit.0, plain_kind y fit.1) refl,
    called_as f a x y (h.comparison op) e (laws.identity_law a op eq ka),
    refl,
    refl,
  )
  rewrite_known-Rewrites contains_known a f (expr_and x (expr_and y no_exprs)) ka e fit = (
    compare_expr y in_op x,
    refl,
    swap_still y x (λ v u. h.comparison in_op v u) fit.1 fit.0
        ∙ called_as f a x y (λ u v. h.comparison in_op v u) e (contains_of a ka),
    refl,
    refl,
  )
  rewrite_known-Rewrites getitem_known a f (expr_and x (expr_and y no_exprs)) ka e fit =
      (subscript x y, refl, called_as f a x y h.item_of e (getitem_of a ka), refl, refl)
  rewrite_known-Rewrites unknown a f args ka e fit = (call f args, refl, refl, refl, refl)
  rewrite_known-Rewrites k a f args ka e fit = absurd fit

  abbrev pub FitsCall : Option (ℕ × Attr) → List ArgKind → Type 0
  FitsCall none ks = Unit
  FitsCall (some (n, a)) ks = Guarded (n == alias) (Fits always (known a) ks)

  read_found : (n : ℕ) (v : V) (st : S) → h.lookup st n ≡ some v → read_name h n st ≡ (value v, st)
  unfolding read_name
  read_found n v st e = rw (e, read_name) refl

  operator_value : (n : ℕ) (a : Attr) → n ≡ alias → eval h (attribute (name n) a) ≡ pure (laws.fn a)
  unfolding eval
  operator_value n a e =
      fun_ext (λ st. rw (e, read_found alias laws.operator st (laws.found st), laws.get_fn a) refl)

  optimize_attribute :
      (n : ℕ) (a : Attr) (args : Exprs V)
      → FitsCall (some (n, a)) (kinds args)
      → Rewrites
          (optimize_operator_call alias (attribute (name n) a) args)
          (call (attribute (name n) a) args)
  unfolding optimize_operator_call
  optimize_attribute n a args fit = elim (Bool-cases (n == alias)) [
    | inl e ↦
        let same : n ≡ alias = ground (arith, e) in
        let fits : Fits always (known a) (kinds args) =
          subst (λ b. Guarded b (Fits always (known a) (kinds args))) e fit in
        rw (e, optimize_operator_call)
          (rewrite_known-Rewrites (known a) a (attribute (name n) a) args refl
            (operator_value n a same) fits)
    | inr e ↦
        rw (e, optimize_operator_call) (call (attribute (name n) a) args, refl, refl, refl, refl)
  ]

  pub optimize_operator_call-Rewrites :
      (f : Expr V) (args : Exprs V)
      → FitsCall (head f) (kinds args)
      → Rewrites (optimize_operator_call alias f args) (call f args)
  unfolding optimize_operator_call
  optimize_operator_call-Rewrites (attribute (name n) a) args fit = optimize_attribute n a args fit
  optimize_operator_call-Rewrites f args fit = (call f args, refl, refl, refl, refl)
