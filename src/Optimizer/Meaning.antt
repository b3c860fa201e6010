-- ===== src/Optimizer/Meaning.antt =====
-- What the syntax trees of src/basilisp/lang/compiler/optimizer.py do when Python runs them, over a host
-- that says what the values, the names and the operators do. `S` is the state of the program.
use baisilisp.Base.{ℕ, zero, suc, Bool, true, false, not, Option, none, some, List, [], ◌∷◌}
use baisilisp.Optimizer.{
  Attr, BinOp, UnaryOp, CompareOp, Expr, constant, name, attribute, call, bin_op, unary_op,
  compare_expr, subscript, delete, other_expr, Exprs, no_exprs, expr_and, Stmt, expr_stmt,
  break_stmt, continue_stmt, raise_stmt, return_stmt, global_stmt, if_stmt, while_stmt, try_stmt,
  function_def, other_stmt, Stmts, no_stmts, stmt_and, Handlers, no_handlers, handler,
}

pub data Outcome (V A : Type 0) : Type 0 where
  value : A → Outcome V A
  raised : V → Outcome V A
  -- an expression that Python does not compile
  broken : Outcome V A

abbrev pub Eff : Type 0 → Type 0 → Type 0 → Type 0
Eff V S A = S → Outcome V A × S

module _ {V S : Type 0} where
  abbrev pub pure : {A : Type 0} → A → Eff V S A
  pure a st = (value a, st)

  abbrev pub after : {A B : Type 0} → (A → Eff V S B) → Outcome V A × S → Outcome V B × S
  after k (value a, st) = k a st
  after k (raised e, st) = (raised e, st)
  after k (broken, st) = (broken, st)

  infixl 5 ◌>>=◌
  abbrev pub ◌>>=◌ : {A B : Type 0} → Eff V S A → (A → Eff V S B) → Eff V S B
  (m >>= k) st = after k (m st)

-- How a statement ends; `endless` is a loop that ran out of fuel.
pub data Flow (V : Type 0) : Type 0 where
  normal breaks continues broken_code endless : Flow V
  returns raises : V → Flow V

abbrev pub Exec : Type 0 → Type 0 → Type 0
Exec V S = S → Flow V × S

pub record Python (V S : Type 0) : Type 0 where
  pub lookup : S → ℕ → Option V
  pub name_error : ℕ → V
  pub get_attr : V → Attr → Eff V S V
  pub apply : V → List V → Eff V S V
  pub binary : BinOp → V → V → Eff V S V
  -- `not` is by truth, so only the other operator is the host's
  pub invert : V → Eff V S V
  pub truth : V → Eff V S Bool
  pub of_bool : Bool → V
  pub comparison : CompareOp → V → V → Eff V S V
  pub item_of : V → V → Eff V S V
  pub other : ℕ → List V → Eff V S V
  -- whether an `except` clause with that value as its type takes an exception
  pub matches : V → V → Eff V S Bool
  -- the body of an `except` clause, with its name bound to the exception
  pub with_bound : ℕ → V → Exec V S → Exec V S
  -- a function of that name with those decorators and that body
  pub define : ℕ → List V → Exec V S → Exec V S
  -- a statement of another kind, with its body if it has one
  pub other_run : ℕ → List V → Option (Exec V S) → Exec V S

module _ {V S : Type 0} (h : Python V S) where
  unfoldable pub unary : UnaryOp → V → Eff V S V
  unary UnaryOp.not_op a = h.truth a >>= λ b. pure (h.of_bool (not b))
  unary UnaryOp.invert_op a = h.invert a

  unfoldable pub read_name : ℕ → Eff V S V
  read_name n st = elim (h.lookup st n) [
    | none ↦ (raised (h.name_error n), st)
    | some v ↦ (value v, st)
  ]

  unfoldable mutual
    pub eval : Expr V → Eff V S V
    eval (constant singleton v) = pure v
    eval (name n) = read_name n
    eval (attribute e a) = eval e >>= λ v. h.get_attr v a
    eval (call f args) = eval f >>= λ g. eval_all args >>= λ vs. h.apply g vs
    eval (bin_op a op b) = eval a >>= λ x. eval b >>= λ y. h.binary op x y
    eval (unary_op op a) = eval a >>= λ x. unary op x
    eval (compare_expr a op b) = eval a >>= λ x. eval b >>= λ y. h.comparison op x y
    eval (subscript a b) = eval a >>= λ x. eval b >>= λ y. h.item_of x y
    eval (delete a b) = λ st. (broken, st)
    eval (other_expr kind es) = eval_all es >>= λ vs. h.other kind vs

    pub eval_all : Exprs V → Eff V S (List V)
    eval_all no_exprs = pure []
    eval_all (expr_and e es) = eval e >>= λ v. eval_all es >>= λ vs. pure (v ∷ vs)

module _ {V S : Type 0} where
  -- A run with the value of an expression.
  abbrev pub run_with : {A : Type 0} → (A → Exec V S) → Outcome V A × S → Flow V × S
  run_with k (value a, st) = k a st
  run_with k (raised e, st) = (raises e, st)
  run_with k (broken, st) = (broken_code, st)

  abbrev pub with_value : {A : Type 0} → Eff V S A → (A → Exec V S) → Exec V S
  with_value m k st = run_with k (m st)

  -- The next run, if the first one falls through.
  abbrev pub go_on : Exec V S → Flow V × S → Flow V × S
  go_on k (normal, st) = k st
  go_on k (flow, st) = (flow, st)

  abbrev pub then_run : Exec V S → Exec V S → Exec V S
  then_run m k st = go_on k (m st)

  abbrev pub branch : Exec V S → Exec V S → Bool → Exec V S
  branch b o true = b
  branch b o false = o

  -- after a round of a loop
  abbrev pub next_round : Exec V S → Flow V × S → Flow V × S
  next_round again (normal, st) = again st
  next_round again (continues, st) = again st
  next_round again (breaks, st) = (normal, st)
  next_round again (flow, st) = (flow, st)

  abbrev pub round : Exec V S → Exec V S → Exec V S
  round body again st = next_round again (body st)

  unfoldable pub run_loop : ℕ → Eff V S Bool → Exec V S → Exec V S → Exec V S
  run_loop zero test body orelse = λ st. (endless, st)
  run_loop (suc fuel) test body orelse =
      with_value test (branch (round body (run_loop fuel test body orelse)) orelse)

  -- `finally`: what it ends with counts, unless it falls through
  abbrev pub run_finally : Exec V S → Flow V × S → Flow V × S
  run_finally final (endless, st) = (endless, st)
  run_finally final (flow, st) = go_on (λ st'. (flow, st')) (final st)

  -- A `try` by its parts: the handlers are given the exception.
  abbrev pub handle : (V → Exec V S) → Exec V S → Flow V × S → Flow V × S
  handle handlers orelse (raises e, st) = handlers e st
  handle handlers orelse (normal, st) = orelse st
  handle handlers orelse (flow, st) = (flow, st)

  abbrev pub try_run : Exec V S → (V → Exec V S) → Exec V S → Exec V S → Exec V S
  try_run body handlers orelse final st = run_finally final (handle handlers orelse (body st))

abbrev pub has_handlers : {V : Type 0} → Handlers V → Bool
has_handlers no_handlers = false
has_handlers (handler t n b hs) = true

module _ {V S : Type 0} (h : Python V S) (fuel : ℕ) where
  abbrev pub test : Expr V → Eff V S Bool
  test e = eval h e >>= h.truth

  unfoldable mutual
    pub exec : Stmt V → Exec V S
    exec (expr_stmt e) = with_value (eval h e) (λ v st. (normal, st))
    exec break_stmt = λ st. (breaks, st)
    exec continue_stmt = λ st. (continues, st)
    exec (raise_stmt e) = with_value (eval h e) (λ v st. (raises v, st))
    exec (return_stmt e) = with_value (eval h e) (λ v st. (returns v, st))
    exec (global_stmt ns) = λ st. (normal, st)
    exec (if_stmt t b o) = with_value (test t) (branch (exec_body b) (exec_all o))
    exec (while_stmt t b o) = run_loop fuel (test t) (exec_body b) (exec_all o)
    exec (try_stmt b hs o f) =
        try_run (exec_body b) (exec_handlers hs) (exec_all o)
          (branch (exec_all f) (exec_body f) (has_handlers hs))
    exec (function_def n ds b) = with_value (eval_all h ds) (λ vs. h.define n vs (exec_body b))
    exec (other_stmt kind es b) =
        with_value (eval_all h es) (λ vs. h.other_run kind vs (own_body b))

    pub exec_all : Stmts V → Exec V S
    exec_all no_stmts = λ st. (normal, st)
    exec_all (stmt_and s ss) = then_run (exec s) (exec_all ss)

    -- A body has a statement, or Python does not compile it.
    pub exec_body : Stmts V → Exec V S
    exec_body no_stmts = λ st. (broken_code, st)
    exec_body (stmt_and s ss) = then_run (exec s) (exec_all ss)

    pub own_body : Stmts V → Option (Exec V S)
    own_body no_stmts = none
    own_body (stmt_and s ss) = some (then_run (exec s) (exec_all ss))

    -- The first clause that takes the exception runs with it; if there is none, it is raised on.
    pub exec_handlers : Handlers V → V → Exec V S
    exec_handlers no_handlers e = λ st. (raises e, st)
    exec_handlers (handler t n b hs) e =
        with_value (eval h t >>= λ c. h.matches c e)
          (branch (h.with_bound n e (exec_body b)) (exec_handlers hs e))
