-- ===== src/Optimizer/Flow.antt =====
-- Dead code, dropped statements and swapped branches of src/basilisp/lang/compiler/optimizer.py.
use std.Path.{fun_ext}
use baisilisp.Base.{
  ◌≡◌, refl, sym, ap, ◌∙◌, ℕ, Bool, true, false, not, Option, none, some, ◌⊎◌, inl, inr,
}
use baisilisp.Optimizer.{
  Expr, constant, name, unary_op, UnaryOp, not_op, Stmt, expr_stmt, break_stmt, continue_stmt,
  raise_stmt, return_stmt, Stmts, no_stmts, stmt_and,
}
use baisilisp.Optimizer.Rewrite.{filter_dead_code, visit_expr_stmt, make_if, put_before}
use baisilisp.Optimizer.Meaning.{
  Outcome, value, raised, broken, Eff, pure, after, ◌>>=◌, Flow, normal, returns, raises, Exec,
  Python, eval, read_name, unary, run_with, with_value, go_on, then_run, branch, test, exec,
  exec_all, exec_body, own_body,
}

-- A statement that is only a name can be left out if the name is bound.
abbrev pub IsQuiet : {V : Type 0} → (ℕ → Bool) → Expr V → Type 0
IsQuiet always (name n) = always n ≡ true
IsQuiet always e = Unit

-- Some statement is left.
abbrev pub IsLeft : {V : Type 0} → Stmts V → Type 0
IsLeft no_stmts = ⊥
IsLeft (stmt_and s ss) = Unit

module _ {V S : Type 0} where
  ends_raise :
      {A : Type 0} (k : Exec V S) (f : A → Flow V)
      → ((a : A) (st : S) → go_on k (f a, st) ≡ (f a, st))
      → (r : Outcome V A × S)
      → run_with (λ a st. (f a, st)) r ≡ go_on k (run_with (λ a st. (f a, st)) r)
  ends_raise k f e (value a, st) = sym (e a st)
  ends_raise k f e (raised x, st) = refl
  ends_raise k f e (broken, st) = refl

  run_with-after :
      {A B : Type 0} (f : A → Eff V S B) (k : B → Exec V S) (r : Outcome V A × S)
      → run_with k (after f r) ≡ run_with (λ a. with_value (f a) k) r
  run_with-after f k (value a, st) = refl
  run_with-after f k (raised x, st) = refl
  run_with-after f k (broken, st) = refl

  pub with_value->>= :
      {A B : Type 0} (m : Eff V S A) (f : A → Eff V S B) (k : B → Exec V S)
      → with_value (m >>= f) k ≡ with_value m (λ a. with_value (f a) k)
  with_value->>= m f k = fun_ext (λ st. run_with-after f k (m st))

module _ {V S : Type 0} (h : Python V S) (fuel : ℕ) where
  stops :
      {A : Type 0} (m : Eff V S A) (f : A → Flow V) (k k' : Exec V S)
      → ((k : Exec V S) (a : A) (st : S) → go_on k (f a, st) ≡ (f a, st))
      → then_run (with_value m (λ a st. (f a, st))) k
        ≡ then_run (with_value m (λ a st. (f a, st))) k'
  stops m f k k' e =
      fun_ext (λ st. sym (ends_raise k f (e k) (m st)) ∙ ends_raise k' f (e k') (m st))

  -- What `_filter_dead_code` leaves does the same.
  pub exec_all-filter_dead_code :
      (ss : Stmts V) → exec_all h fuel (filter_dead_code ss) ≡ exec_all h fuel ss
  unfolding filter_dead_code exec
  exec_all-filter_dead_code no_stmts = refl
  exec_all-filter_dead_code (stmt_and break_stmt ss) = refl
  exec_all-filter_dead_code (stmt_and continue_stmt ss) = refl
  exec_all-filter_dead_code (stmt_and (raise_stmt e) ss) =
      stops (eval h e) raises (exec_all h fuel no_stmts) (exec_all h fuel ss) (λ k a st. refl)
  exec_all-filter_dead_code (stmt_and (return_stmt e) ss) =
      stops (eval h e) returns (exec_all h fuel no_stmts) (exec_all h fuel ss) (λ k a st. refl)
  exec_all-filter_dead_code (stmt_and s ss) =
      ap (then_run (exec h fuel s)) (exec_all-filter_dead_code ss)

  -- What takes the place of a statement.
  abbrev pub exec_left : Option (Stmt V) → Exec V S
  exec_left none = λ st. (normal, st)
  exec_left (some s) = exec h fuel s

  pub exec_all-put_before :
      (o : Option (Stmt V)) (ss : Stmts V)
      → exec_all h fuel (put_before o ss) ≡ then_run (exec_left o) (exec_all h fuel ss)
  unfolding exec_all
  exec_all-put_before none ss = refl
  exec_all-put_before (some s) ss = refl

  pub visit_expr_stmt-exec :
      (always : ℕ → Bool) (e : Expr V)
      → ((st : S) (n : ℕ) → always n ≡ true → (v : V) × (h.lookup st n ≡ some v))
      → IsQuiet always e
      → exec_left (visit_expr_stmt e) ≡ exec h fuel (expr_stmt e)
  unfolding visit_expr_stmt exec eval read_name
  visit_expr_stmt-exec always (constant singleton v) bound q = refl
  visit_expr_stmt-exec always (name n) bound q =
      fun_ext (λ st. let (v, e) = bound st n q in rw (e, read_name) refl)
  visit_expr_stmt-exec always e bound q = refl

  not_bool :
      ((b : Bool) → h.truth (h.of_bool b) ≡ pure b)
      → (b o : Exec V S) (r : Outcome V Bool × S)
      → run_with (branch b o) (after h.truth (after (λ c. pure (h.of_bool (not c))) r))
        ≡ run_with (branch o b) r
  not_bool of_bool b o (value true, st) = rw (of_bool false) refl
  not_bool of_bool b o (value false, st) = rw (of_bool true) refl
  not_bool of_bool b o (raised e, st) = refl
  not_bool of_bool b o (broken, st) = refl

  not_value :
      ((b : Bool) → h.truth (h.of_bool b) ≡ pure b)
      → (b o : Exec V S) (r : Outcome V V × S)
      → run_with (branch b o) (after h.truth (after (unary h UnaryOp.not_op) r))
        ≡ run_with (branch o b) (after h.truth r)
  unfolding unary
  not_value of_bool b o (value v, st) = not_bool of_bool b o (h.truth v st)
  not_value of_bool b o (raised e, st) = refl
  not_value of_bool b o (broken, st) = refl

  truth_not :
      ((b : Bool) → h.truth (h.of_bool b) ≡ pure b)
      → (t : Expr V) (b o : Exec V S)
      → with_value (test h fuel (unary_op not_op t)) (branch b o)
        ≡ with_value (test h fuel t) (branch o b)
  unfolding eval
  truth_not of_bool t b o = fun_ext (λ st. not_value of_bool b o (eval h t st))

  pub exec_body-exec_all : (b : Stmts V) → IsLeft b → exec_body h fuel b ≡ exec_all h fuel b
  unfolding exec_body exec_all
  exec_body-exec_all no_stmts l = absurd l
  exec_body-exec_all (stmt_and s ss) l = refl

  pub own_body-exec_all : (b : Stmts V) → IsLeft b → own_body h fuel b ≡ some (exec_all h fuel b)
  unfolding own_body exec_all
  own_body-exec_all no_stmts l = absurd l
  own_body-exec_all (stmt_and s ss) l = refl

  -- `visit_If` keeps what the branches do, if one of them has something left in it.
  pub make_if-exec :
      ((b : Bool) → h.truth (h.of_bool b) ≡ pure b)
      → (t : Expr V) (b o : Stmts V) → IsLeft b ⊎ IsLeft o
      → exec_left (make_if t b o)
        ≡ with_value (test h fuel t) (branch (exec_all h fuel b) (exec_all h fuel o))
  unfolding make_if exec exec_all exec_body
  make_if-exec of_bool t no_stmts no_stmts (inl l) = absurd l
  make_if-exec of_bool t no_stmts no_stmts (inr l) = absurd l
  make_if-exec of_bool t no_stmts (stmt_and s ss) l =
      truth_not of_bool t (exec_all h fuel (stmt_and s ss)) (λ st. (normal, st))
  make_if-exec of_bool t (stmt_and s ss) o l = refl

  pub filter_dead_code-IsLeft : (ss : Stmts V) → IsLeft ss → IsLeft (filter_dead_code ss)
  unfolding filter_dead_code
  filter_dead_code-IsLeft no_stmts l = l
  filter_dead_code-IsLeft (stmt_and break_stmt ss) l = tt
  filter_dead_code-IsLeft (stmt_and s ss) l = tt
