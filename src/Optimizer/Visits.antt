-- ===== src/Optimizer/Visits.antt =====
-- `visit` of an expression by src/basilisp/lang/compiler/optimizer.py keeps what it means.
use baisilisp.Base.{◌≡◌, refl, sym, ap, ◌∙◌, ℕ, Bool, none, some}
use baisilisp.Optimizer.{
  Attr, Expr, constant, name, attribute, call, bin_op, unary_op, compare_expr, subscript, delete,
  other_expr, Exprs, no_exprs, expr_and,
}
use baisilisp.Optimizer.Rewrite.{visit_expr, visit_exprs, ◌>>=◌}
use baisilisp.Optimizer.Meaning.{Python, eval, eval_all}
use baisilisp.Optimizer.Calls.{
  another, kind, kinds, of_name, head, OperatorLaws, FitsCall, optimize_operator_call-Rewrites,
}

module _ {V S : Type 0} (h : Python V S) (alias : ℕ) (always : ℕ → Bool)
    (laws : OperatorLaws h alias always) where
  -- Every call of a known operator has the arguments with which it may be rewritten.
  abbrev mutual
    pub IsFine : Expr V → Type 0
    IsFine (constant singleton v) = Unit
    IsFine (name n) = Unit
    IsFine (attribute e a) = IsFine e
    IsFine (call f args) =
        IsFine f × AllFine args × FitsCall h alias always laws (head f) (kinds args)
    IsFine (bin_op a op b) = IsFine a × IsFine b
    IsFine (unary_op op a) = IsFine a
    IsFine (compare_expr a op b) = IsFine a × IsFine b
    IsFine (subscript a b) = IsFine a × IsFine b
    IsFine (delete a b) = IsFine a × IsFine b
    IsFine (other_expr k es) = AllFine es

    pub AllFine : Exprs V → Type 0
    AllFine no_exprs = Unit
    AllFine (expr_and e es) = IsFine e × AllFine es

  abbrev pub Visited : Expr V → Type 0
  Visited e =
      (e' : Expr V) × (visit_expr alias e ≡ some e')
      × (eval h e' ≡ eval h e)
      × (kind e' ≡ kind e)
      × (head e' ≡ head e)

  abbrev pub AllVisited : Exprs V → Type 0
  AllVisited es =
      (es' : Exprs V) × (visit_exprs alias es ≡ some es')
      × (eval_all h es' ≡ eval_all h es)
      × (kinds es' ≡ kinds es)

  visit_attribute : (e : Expr V) (a : Attr) → Visited e → Visited (attribute e a)
  unfolding visit_expr eval
  visit_attribute e a (e', v, m, k, hd) =
      (attribute e' a, rw v refl, rw m refl, refl, ap (λ c. of_name c a) k)

  visit_call :
      (f : Expr V) (args : Exprs V)
      → Visited f
      → AllVisited args
      → FitsCall h alias always laws (head f) (kinds args)
      → Visited (call f args)
  unfolding visit_expr eval
  visit_call f args (f', vf, mf, kf, hf) (args', va, ma, ka) fit =
      let (e', found, means, k, hd) =
        optimize_operator_call-Rewrites h alias always laws f' args' (rw (hf, ka) fit) in
      (e', rw (vf, va) found, means ∙ rw (mf, ma) refl, k, hd)

  visit_pair :
      (make : Expr V → Expr V → Expr V) (a b : Expr V)
      → ((x y : Expr V)
          → visit_expr alias (make x y)
            ≡ (visit_expr alias x >>= λ x'. visit_expr alias y >>= λ y'. some (make x' y')))
      → ((x y x' y' : Expr V)
          → eval h x' ≡ eval h x
          → eval h y' ≡ eval h y
          → eval h (make x' y') ≡ eval h (make x y))
      → ((x y : Expr V) → (kind (make x y) ≡ another) × (head (make x y) ≡ none))
      → Visited a
      → Visited b
      → Visited (make a b)
  visit_pair make a b step means plain (a', va, ma, ka, ha) (b', vb, mb, kb, hb) = (
    make a' b',
    step a b ∙ rw (va, vb) refl,
    means a b a' b' ma mb,
    (plain a' b').0 ∙ sym (plain a b).0,
    (plain a' b').1 ∙ sym (plain a b).1,
  )

  mutual
    unfolding visit_expr visit_exprs eval eval_all

    pub visit_expr-Visited : (e : Expr V) → IsFine e → Visited e
    visit_expr-Visited (constant singleton v) fine = (constant singleton v, refl, refl, refl, refl)
    visit_expr-Visited (name n) fine = (name n, refl, refl, refl, refl)
    visit_expr-Visited (attribute e a) fine = visit_attribute e a (visit_expr-Visited e fine)
    visit_expr-Visited (call f args) fine =
        visit_call f args (visit_expr-Visited f fine.0) (visit_exprs-AllVisited args fine.1) fine.2
    visit_expr-Visited (bin_op a op b) fine =
        visit_pair (λ x y. bin_op x op y) a b (λ x y. refl) (λ x y x' y' p q. rw (p, q) refl)
          (λ x y. (refl, refl)) (visit_expr-Visited a fine.0) (visit_expr-Visited b fine.1)
    visit_expr-Visited (unary_op op a) fine =
        let (a', va, ma, ka, ha) = visit_expr-Visited a fine in
        (unary_op op a', rw va refl, rw ma refl, refl, refl)
    visit_expr-Visited (compare_expr a op b) fine =
        visit_pair (λ x y. compare_expr x op y) a b (λ x y. refl) (λ x y x' y' p q. rw (p, q) refl)
          (λ x y. (refl, refl)) (visit_expr-Visited a fine.0) (visit_expr-Visited b fine.1)
    visit_expr-Visited (subscript a b) fine =
        visit_pair subscript a b (λ x y. refl) (λ x y x' y' p q. rw (p, q) refl)
          (λ x y. (refl, refl)) (visit_expr-Visited a fine.0) (visit_expr-Visited b fine.1)
    visit_expr-Visited (delete a b) fine =
        visit_pair delete a b (λ x y. refl) (λ x y x' y' p q. refl) (λ x y. (refl, refl))
          (visit_expr-Visited a fine.0) (visit_expr-Visited b fine.1)
    visit_expr-Visited (other_expr k es) fine =
        let (es', v, m, ks) = visit_exprs-AllVisited es fine in
        (other_expr k es', rw v refl, rw m refl, refl, refl)

    pub visit_exprs-AllVisited : (es : Exprs V) → AllFine es → AllVisited es
    visit_exprs-AllVisited no_exprs fine = (no_exprs, refl, refl, refl)
    visit_exprs-AllVisited (expr_and e es) fine =
        let (e', v, m, k, hd) = visit_expr-Visited e fine.0 in
        let (es', vs, ms, ks) = visit_exprs-AllVisited es fine.1 in
        (expr_and e' es', rw (v, vs) refl, rw (m, ms) refl, rw (k, ks) refl)
