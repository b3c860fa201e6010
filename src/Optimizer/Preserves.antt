-- ===== src/Optimizer/Preserves.antt =====
-- `visit` of statements by src/basilisp/lang/compiler/optimizer.py keeps what they do.
use std.Path.{fun_ext}
use baisilisp.Base.{
  ◌≡◌, refl, sym, ap, ◌∙◌, ℕ, Bool, true, false, ◌||◌, Option, none, some, List, [], ◌⊎◌, inl, inr,
  arith,
}
use baisilisp.Optimizer.{
  Expr, constant, name, Stmt, expr_stmt, break_stmt, continue_stmt, raise_stmt, return_stmt,
  global_stmt, if_stmt, while_stmt, try_stmt, function_def, other_stmt, Stmts, no_stmts, stmt_and,
  Handlers, no_handlers, handler,
}
use baisilisp.Optimizer.Rewrite.{
  filter_dead_code, visit_expr_stmt, make_if, put_before, visit_stmt, visit_stmts, visit_handlers,
}
use baisilisp.Optimizer.Meaning.{
  pure, branch, Python, exec, exec_all, exec_body, own_body, has_handlers, exec_handlers,
}
use baisilisp.Optimizer.Calls.{OperatorLaws}
use baisilisp.Optimizer.Visits.{IsFine, AllFine, visit_expr-Visited, visit_exprs-AllVisited}
use baisilisp.Optimizer.Flow.{
  exec_all-filter_dead_code, exec_left, exec_all-put_before, IsQuiet, visit_expr_stmt-exec, IsLeft,
  exec_body-exec_all, own_body-exec_all, make_if-exec, filter_dead_code-IsLeft,
}

-- What is surely not left out.
abbrev mutual
  pub stays : {V : Type 0} → Stmt V → Bool
  stays (expr_stmt (constant singleton v)) = false
  stays (expr_stmt (name n)) = false
  stays (global_stmt ns) = false
  stays (if_stmt t b o) = left b || left o
  stays s = true

  pub left : {V : Type 0} → Stmts V → Bool
  left no_stmts = false
  left (stmt_and s ss) = stays s || left ss

abbrev pub IsKept : {V : Type 0} → Option (Stmt V) → Type 0
IsKept none = ⊥
IsKept (some s) = Unit

pub left-IsLeft : {V : Type 0} (b : Stmts V) → left b ≡ true → IsLeft b
left-IsLeft no_stmts e = absurd (ground (arith, e))
left-IsLeft (stmt_and s ss) e = tt

module _ {V S : Type 0} (h : Python V S) (alias : ℕ) (always : ℕ → Bool)
    (laws : OperatorLaws h alias always) where
  -- Calls of operators have fitting arguments, a statement that is a name alone names something, an `if`
  -- has a branch of which something is left, and nothing is declared `global`.
  abbrev mutual
    pub FineStmt : Stmt V → Type 0
    FineStmt (expr_stmt e) = IsQuiet always e
    FineStmt break_stmt = Unit
    FineStmt continue_stmt = Unit
    FineStmt (raise_stmt e) = IsFine h alias always laws e
    FineStmt (return_stmt e) = IsFine h alias always laws e
    FineStmt (global_stmt ns) = ⊥
    FineStmt (if_stmt t b o) =
        IsFine h alias always laws t
        × FineStmts b
        × FineStmts o
        × IsLeft b
        × ((left b || left o) ≡ true)
    FineStmt (while_stmt t b o) =
        IsFine h alias always laws t × FineStmts b × FineStmts o × (left b ≡ true)
    FineStmt (try_stmt b hs o f) =
        FineStmts b
        × FineHandlers hs
        × FineStmts o
        × FineStmts f
        × (left b ≡ true)
        × ((has_handlers hs || left f) ≡ true)
    FineStmt (function_def n ds b) = AllFine h alias always laws ds × FineStmts b × (left b ≡ true)
    FineStmt (other_stmt k es b) =
        AllFine h alias always laws es × FineStmts b × (IsLeft b → left b ≡ true)

    pub FineStmts : Stmts V → Type 0
    FineStmts no_stmts = Unit
    FineStmts (stmt_and s ss) = FineStmt s × FineStmts ss

    pub FineHandlers : Handlers V → Type 0
    FineHandlers no_handlers = Unit
    FineHandlers (handler t n b hs) =
        IsFine h alias always laws t × FineStmts b × FineHandlers hs × (left b ≡ true)

  module _ (of_bool : (b : Bool) → h.truth (h.of_bool b) ≡ pure b) (fuel : ℕ) where
    abbrev pub VisitedStmt : List ℕ → Stmt V → Type 0
    VisitedStmt c s =
        (o : Option (Stmt V)) × (c' : List ℕ) × (visit_stmt alias c s ≡ some (o, c'))
        × (exec_left h fuel o ≡ exec h fuel s)
        × (stays s ≡ true → IsKept o)

    abbrev pub VisitedStmts : List ℕ → Stmts V → Type 0
    VisitedStmts c ss =
        (ss' : Stmts V) × (c' : List ℕ) × (visit_stmts alias c ss ≡ some (ss', c'))
        × (exec_all h fuel ss' ≡ exec_all h fuel ss)
        × (left ss ≡ true → IsLeft ss')

    abbrev pub VisitedHandlers : List ℕ → Handlers V → Type 0
    VisitedHandlers c hs =
        (hs' : Handlers V) × (c' : List ℕ) × (visit_handlers alias c hs ≡ some (hs', c'))
        × (exec_handlers h fuel hs' ≡ exec_handlers h fuel hs)
        × (has_handlers hs' ≡ has_handlers hs)

    filtered :
        (b b' : Stmts V)
        → exec_all h fuel b' ≡ exec_all h fuel b
        → exec_all h fuel (filter_dead_code b') ≡ exec_all h fuel b
    filtered b b' e = exec_all-filter_dead_code h fuel b' ∙ e

    -- a body of which something is left
    filtered_body :
        (c : List ℕ) (b : Stmts V) (vb : VisitedStmts c b)
        → left b ≡ true
        → exec_body h fuel (filter_dead_code vb.0) ≡ exec_body h fuel b
    filtered_body c b (b', cb, vb, mb, lb) l =
        exec_body-exec_all h fuel (filter_dead_code b') (filter_dead_code-IsLeft h fuel b' (lb l))
        ∙ filtered b b' mb
        ∙ sym (exec_body-exec_all h fuel b (left-IsLeft b l))

    other_body :
        (c : List ℕ) (b : Stmts V) (vb : VisitedStmts c b)
        → (IsLeft b → left b ≡ true)
        → own_body h fuel vb.0 ≡ own_body h fuel b
    unfolding visit_stmts own_body
    other_body c no_stmts (b', cb, vb, mb, lb) l =
        let same : no_stmts ≡ b' =
          ap (λ (o : Option (Stmts V × List ℕ)). elim o [ none ↦ no_stmts | some p ↦ p.0 ]) vb in
        rw (sym same) refl
    other_body c (stmt_and s ss) (b', cb, vb, mb, lb) l =
        own_body-exec_all h fuel b' (lb (l tt))
        ∙ ap some mb
        ∙ sym (own_body-exec_all h fuel (stmt_and s ss) tt)

    -- the `finally` clause
    final_body :
        (c : List ℕ) (f : Stmts V) (vf : VisitedStmts c f) (has : Bool)
        → (has || left f) ≡ true
        → branch
            (exec_all h fuel (filter_dead_code vf.0))
            (exec_body h fuel (filter_dead_code vf.0))
            has
          ≡ branch (exec_all h fuel f) (exec_body h fuel f) has
    final_body c f vf true e = filtered f vf.0 vf.3
    final_body c f vf false e = filtered_body c f vf e

    visit_expr_stmt-IsKept : (e : Expr V) → stays (expr_stmt e) ≡ true → IsKept (visit_expr_stmt e)
    unfolding visit_expr_stmt
    visit_expr_stmt-IsKept (constant singleton v) s = absurd (ground (arith, s))
    visit_expr_stmt-IsKept (name n) s = absurd (ground (arith, s))
    visit_expr_stmt-IsKept e s = tt

    visit_quiet : (c : List ℕ) (e : Expr V) → IsQuiet always e → VisitedStmt c (expr_stmt e)
    unfolding visit_stmt
    visit_quiet c e q = (
      visit_expr_stmt e,
      c,
      refl,
      visit_expr_stmt-exec h fuel always e laws.bound q,
      visit_expr_stmt-IsKept e,
    )

    either : (x y : Bool) → (x || y) ≡ true → (x ≡ true) ⊎ (y ≡ true)
    either true y e = inl refl
    either false y e = inr e

    some_left :
        (b o b' o' : Stmts V)
        → (left b || left o) ≡ true
        → (left b ≡ true → IsLeft b')
        → (left o ≡ true → IsLeft o')
        → IsLeft (filter_dead_code b') ⊎ IsLeft (filter_dead_code o')
    some_left b o b' o' kept lb lo = elim (either (left b) (left o) kept) [
      | inl e ↦ inl (filter_dead_code-IsLeft h fuel b' (lb e))
      | inr e ↦ inr (filter_dead_code-IsLeft h fuel o' (lo e))
    ]

    make_if-IsKept : (t : Expr V) (b o : Stmts V) → IsLeft b ⊎ IsLeft o → IsKept (make_if t b o)
    unfolding make_if
    make_if-IsKept t no_stmts no_stmts (inl l) = absurd l
    make_if-IsKept t no_stmts no_stmts (inr l) = absurd l
    make_if-IsKept t no_stmts (stmt_and s ss) l = tt
    make_if-IsKept t (stmt_and s ss) o l = tt

    visit_if :
        (c : List ℕ) (t : Expr V) (b o : Stmts V)
        → IsFine h alias always laws t
        → VisitedStmts c b
        → ((c : List ℕ) → VisitedStmts c o)
        → IsLeft b
        → (left b || left o) ≡ true
        → VisitedStmt c (if_stmt t b o)
    unfolding visit_stmt exec
    visit_if c t b o fine (b', cb, vb, mb, lb) vo has kept =
        let (t', vt, mt, kt, ht) = visit_expr-Visited h alias always laws t fine in
        let (o', co, vis_o, mo, lo) = vo cb in
        let l = some_left b o b' o' kept lb lo in
        (
          make_if t' (filter_dead_code b') (filter_dead_code o'),
          co,
          rw (vt, vb, vis_o) refl,
          make_if-exec h fuel of_bool t' (filter_dead_code b') (filter_dead_code o') l
              ∙ rw (mt, filtered b b' mb, filtered o o' mo, exec_body-exec_all h fuel b has) refl,
          λ e. make_if-IsKept t' (filter_dead_code b') (filter_dead_code o') l,
        )

    visit_while :
        (c : List ℕ) (t : Expr V) (b o : Stmts V)
        → IsFine h alias always laws t
        → VisitedStmts c b
        → ((c : List ℕ) → VisitedStmts c o)
        → left b ≡ true
        → VisitedStmt c (while_stmt t b o)
    unfolding visit_stmt exec
    visit_while c t b o fine (b', cb, vb, mb, lb) vo l =
        let (t', vt, mt, kt, ht) = visit_expr-Visited h alias always laws t fine in
        let (o', co, vis_o, mo, lo) = vo cb in
        (
          some (while_stmt t' (filter_dead_code b') (filter_dead_code o')),
          co,
          rw (vt, vb, vis_o) refl,
          rw (mt, filtered_body c b (b', cb, vb, mb, lb) l, filtered o o' mo) refl,
          λ e. tt,
        )

    visit_try :
        (c : List ℕ) (b : Stmts V) (hs : Handlers V) (o f : Stmts V)
        → VisitedStmts c b
        → ((c : List ℕ) → VisitedHandlers c hs)
        → ((c : List ℕ) → VisitedStmts c o)
        → ((c : List ℕ) → VisitedStmts c f)
        → left b ≡ true
        → (has_handlers hs || left f) ≡ true
        → VisitedStmt c (try_stmt b hs o f)
    unfolding visit_stmt exec
    visit_try c b hs o f (b', cb, vb, mb, lb) vh vo vf l lf =
        let (hs', ch, vis_h, mh, has) = vh cb in
        let (o', co, vis_o, mo, lo) = vo ch in
        let (f', cf, vis_f, mf, kf) = vf co in
        (
          some (try_stmt (filter_dead_code b') hs' (filter_dead_code o') (filter_dead_code f')),
          cf,
          rw (vb, vis_h, vis_o, vis_f) refl,
          rw
              (
                mh,
                has,
                filtered_body c b (b', cb, vb, mb, lb) l,
                filtered o o' mo,
                final_body co f (f', cf, vis_f, mf, kf) (has_handlers hs) lf,
              )
              refl,
          λ e. tt,
        )

    kept_before :
        (o : Option (Stmt V)) (ss : Stmts V) (x y : Bool)
        → (x ≡ true → IsKept o)
        → (y ≡ true → IsLeft ss)
        → (x || y) ≡ true
        → IsLeft (put_before o ss)
    kept_before (some s) ss x y k l e = tt
    kept_before none ss true y k l e = absurd (k refl)
    kept_before none ss false y k l e = l e

    visit_before :
        (c : List ℕ) (s : Stmt V) (ss : Stmts V)
        → VisitedStmt c s
        → ((c : List ℕ) → VisitedStmts c ss)
        → VisitedStmts c (stmt_and s ss)
    unfolding visit_stmts exec_all
    visit_before c s ss (o, cs, vs, ms, ks) vss =
        let (ss', css, v, m, l) = vss cs in
        (
          put_before o ss',
          css,
          rw (vs, v) refl,
          exec_all-put_before h fuel o ss' ∙ rw (ms, m) refl,
          kept_before o ss' (stays s) (left ss) ks l,
        )

    visit_handler :
        (c : List ℕ) (t : Expr V) (n : ℕ) (b : Stmts V) (hs : Handlers V)
        → IsFine h alias always laws t
        → VisitedStmts c b
        → ((c : List ℕ) → VisitedHandlers c hs)
        → left b ≡ true
        → VisitedHandlers c (handler t n b hs)
    unfolding visit_handlers exec_handlers
    visit_handler c t n b hs fine (b', cb, vb, mb, lb) vh l =
        let (t', vt, mt, kt, ht) = visit_expr-Visited h alias always laws t fine in
        let (hs', ch, vis_h, mh, has) = vh cb in
        (
          handler t' n (filter_dead_code b') hs',
          ch,
          rw (vt, vb, vis_h) refl,
          fun_ext (λ e. rw (mt, filtered_body c b (b', cb, vb, mb, lb) l, mh) refl),
          refl,
        )

    mutual
      unfolding visit_stmt visit_stmts visit_handlers exec exec_all exec_handlers

      pub visit_stmt-VisitedStmt : (c : List ℕ) (s : Stmt V) → FineStmt s → VisitedStmt c s
      visit_stmt-VisitedStmt c (expr_stmt e) fine = visit_quiet c e fine
      visit_stmt-VisitedStmt c break_stmt fine = (some break_stmt, c, refl, refl, λ e. tt)
      visit_stmt-VisitedStmt c continue_stmt fine = (some continue_stmt, c, refl, refl, λ e. tt)
      visit_stmt-VisitedStmt c (raise_stmt e) fine =
          let (e', v, m, k, hd) = visit_expr-Visited h alias always laws e fine in
          (some (raise_stmt e'), c, rw v refl, rw m refl, λ e. tt)
      visit_stmt-VisitedStmt c (return_stmt e) fine =
          let (e', v, m, k, hd) = visit_expr-Visited h alias always laws e fine in
          (some (return_stmt e'), c, rw v refl, rw m refl, λ e. tt)
      visit_stmt-VisitedStmt c (global_stmt ns) fine = absurd fine
      visit_stmt-VisitedStmt c (if_stmt t b o) fine =
          visit_if c t b o fine.0 (visit_stmts-VisitedStmts c b fine.1)
            (λ c'. visit_stmts-VisitedStmts c' o fine.2) fine.3 fine.4
      visit_stmt-VisitedStmt c (while_stmt t b o) fine =
          visit_while c t b o fine.0 (visit_stmts-VisitedStmts c b fine.1)
            (λ c'. visit_stmts-VisitedStmts c' o fine.2) fine.3
      visit_stmt-VisitedStmt c (try_stmt b hs o f) fine =
          visit_try c b hs o f (visit_stmts-VisitedStmts c b fine.0)
            (λ c'. visit_handlers-VisitedHandlers c' hs fine.1)
            (λ c'. visit_stmts-VisitedStmts c' o fine.2)
            (λ c'. visit_stmts-VisitedStmts c' f fine.3) fine.4 fine.5
      visit_stmt-VisitedStmt c (function_def n ds b) fine =
          let (ds', vd, md, kd) = visit_exprs-AllVisited h alias always laws ds fine.0 in
          let (b', cb, vb, mb, lb) = visit_stmts-VisitedStmts [] b fine.1 in
          (
            some (function_def n ds' (filter_dead_code b')),
            c,
            rw (vb, vd) refl,
            rw (md, filtered_body [] b (b', cb, vb, mb, lb) fine.2) refl,
            λ e. tt,
          )
      visit_stmt-VisitedStmt c (other_stmt kind es b) fine =
          let (es', vd, md, kd) = visit_exprs-AllVisited h alias always laws es fine.0 in
          let (b', cb, vb, mb, lb) = visit_stmts-VisitedStmts c b fine.1 in
          (
            some (other_stmt kind es' b'),
            cb,
            rw (vd, vb) refl,
            rw (md, other_body c b (b', cb, vb, mb, lb) fine.2) refl,
            λ e. tt,
          )

      pub visit_stmts-VisitedStmts : (c : List ℕ) (ss : Stmts V) → FineStmts ss → VisitedStmts c ss
      visit_stmts-VisitedStmts c no_stmts fine =
          (no_stmts, c, refl, refl, λ (e : false ≡ true). absurd (ground (arith, e)))
      visit_stmts-VisitedStmts c (stmt_and s ss) fine =
          visit_before c s ss (visit_stmt-VisitedStmt c s fine.0)
            (λ c'. visit_stmts-VisitedStmts c' ss fine.1)

      pub visit_handlers-VisitedHandlers :
          (c : List ℕ) (hs : Handlers V) → FineHandlers hs → VisitedHandlers c hs
      visit_handlers-VisitedHandlers c no_handlers fine = (no_handlers, c, refl, refl, refl)
      visit_handlers-VisitedHandlers c (handler t n b hs) fine =
          visit_handler c t n b hs fine.0 (visit_stmts-VisitedStmts c b fine.1)
            (λ c'. visit_handlers-VisitedHandlers c' hs fine.2) fine.3
