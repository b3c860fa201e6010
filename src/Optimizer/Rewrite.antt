-- ===== src/Optimizer/Rewrite.antt =====
-- `PythonASTOptimizer` of src/basilisp/lang/compiler/optimizer.py. `none` is an exception, which a
-- call of a known operator with another number of arguments raises.
use baisilisp.Base.{
  ℕ, Bool, false, not, ◌||◌, Option, none, some, List, [], ◌∷◌, ◌++◌, ◌==◌, if◌then◌else◌,
}
use baisilisp.Optimizer.{
  Attr, add, and_, floordiv, lshift, modulo, mul, matmul, or_, pow, rshift, sub, truediv, xor, not_,
  inv, invert, lt, le, eq, ne, gt, ge, is_, is_not, contains, delitem, getitem, other_attr, BinOp,
  add_op, bit_and_op, floor_div_op, lshift_op, mod_op, mult_op, mat_mult_op, bit_or_op, pow_op,
  rshift_op, sub_op, div_op, bit_xor_op, UnaryOp, not_op, invert_op, CompareOp, lt_op, lte_op,
  eq_op, not_eq_op, gt_op, gte_op, is_op, is_not_op, in_op, Expr, constant, name, attribute, call,
  bin_op, unary_op, compare_expr, subscript, delete, other_expr, Exprs, no_exprs, expr_and, Stmt,
  expr_stmt, break_stmt, continue_stmt, raise_stmt, return_stmt, global_stmt, if_stmt, while_stmt,
  try_stmt, function_def, other_stmt, Stmts, no_stmts, stmt_and, Handlers, no_handlers, handler,
}

infixl 5 ◌>>=◌
abbrev pub ◌>>=◌ : {A B : Type 0} → Option A → (A → Option B) → Option B
none >>= f = none
some a >>= f = f a

-- `_filter_dead_code`
unfoldable pub filter_dead_code : {V : Type 0} → Stmts V → Stmts V
filter_dead_code no_stmts = no_stmts
filter_dead_code (stmt_and break_stmt ss) = stmt_and break_stmt no_stmts
filter_dead_code (stmt_and continue_stmt ss) = stmt_and continue_stmt no_stmts
filter_dead_code (stmt_and (raise_stmt e) ss) = stmt_and (raise_stmt e) no_stmts
filter_dead_code (stmt_and (return_stmt e) ss) = stmt_and (return_stmt e) no_stmts
filter_dead_code (stmt_and s ss) = stmt_and s (filter_dead_code ss)

unfoldable pub needs_eq_operator : {V : Type 0} → Expr V → Bool
needs_eq_operator (constant singleton v) = not singleton
needs_eq_operator e = false

-- The class of the operator that an attribute stands for, by the kind of the operator.
pub data Known : Type 0 where
  binary_known : BinOp → Known
  unary_known : UnaryOp → Known
  compare_known : CompareOp → Known
  identity_known : CompareOp → CompareOp → Known
  contains_known delitem_known getitem_known unknown : Known

unfoldable pub known : Attr → Known
known add = binary_known add_op
known and_ = binary_known bit_and_op
known floordiv = binary_known floor_div_op
known lshift = binary_known lshift_op
known modulo = binary_known mod_op
known mul = binary_known mult_op
known matmul = binary_known mat_mult_op
known or_ = binary_known bit_or_op
known pow = binary_known pow_op
known rshift = binary_known rshift_op
known sub = binary_known sub_op
known truediv = binary_known div_op
known xor = binary_known bit_xor_op
known not_ = unary_known not_op
known inv = unary_known invert_op
known invert = unary_known invert_op
known lt = compare_known lt_op
known le = compare_known lte_op
known eq = compare_known eq_op
known ne = compare_known not_eq_op
known gt = compare_known gt_op
known ge = compare_known gte_op
known is_ = identity_known is_op eq_op
known is_not = identity_known is_not_op not_eq_op
known contains = contains_known
known delitem = delitem_known
known getitem = getitem_known
known (other_attr n) = unknown

module _ {V : Type 0} where
  -- `arg1, arg2 = node.args`
  abbrev pub two_args : {A : Type 0} → Exprs V → (Expr V → Expr V → A) → Option A
  two_args (expr_and a (expr_and b no_exprs)) f = some (f a b)
  two_args _ f = none

  -- The unary branch looks only at the first argument, and asserts that there is no other.
  abbrev pub one_arg : {A : Type 0} → Exprs V → (Expr V → A) → Option A
  one_arg (expr_and a no_exprs) f = some (f a)
  one_arg _ f = none

  unfoldable pub identity : CompareOp → CompareOp → Expr V → Expr V → Expr V
  identity is_oper eq_oper a b =
      compare_expr a (if needs_eq_operator a || needs_eq_operator b then eq_oper else is_oper) b

  -- `_optimize_operator_call_attr` for an attribute of the module `operator`
  unfoldable pub rewrite_known : Known → Expr V → Exprs V → Option (Expr V)
  rewrite_known (binary_known op) f args = two_args args (λ a b. bin_op a op b)
  rewrite_known (unary_known op) f args = one_arg args (λ a. unary_op op a)
  rewrite_known (compare_known op) f args = two_args args (λ a b. compare_expr a op b)
  rewrite_known (identity_known is_oper eq_oper) f args = two_args args (identity is_oper eq_oper)
  rewrite_known contains_known f args = two_args args (λ a b. compare_expr b in_op a)
  rewrite_known delitem_known f args = two_args args delete
  rewrite_known getitem_known f args = two_args args subscript
  rewrite_known unknown f args = some (call f args)

  -- `_optimize_operator_call`; `alias` is the name of the module `operator` in compiled code
  unfoldable pub optimize_operator_call : ℕ → Expr V → Exprs V → Option (Expr V)
  optimize_operator_call alias (attribute (name n) a) args =
      let known_call = rewrite_known (known a) (attribute (name n) a) args in
      if n == alias then known_call else some (call (attribute (name n) a) args)
  optimize_operator_call alias f args = some (call f args)

unfoldable mutual
  -- `visit` of an expression: `visit_Call`, or `generic_visit`
  pub visit_expr : {V : Type 0} → ℕ → Expr V → Option (Expr V)
  visit_expr alias (constant singleton v) = some (constant singleton v)
  visit_expr alias (name n) = some (name n)
  visit_expr alias (attribute e a) = visit_expr alias e >>= λ e'. some (attribute e' a)
  visit_expr alias (call f args) = visit_expr alias f >>= λ f'.
      visit_exprs alias args >>= λ args'. optimize_operator_call alias f' args'
  visit_expr alias (bin_op a op b) =
      visit_expr alias a >>= λ a'. visit_expr alias b >>= λ b'. some (bin_op a' op b')
  visit_expr alias (unary_op op a) = visit_expr alias a >>= λ a'. some (unary_op op a')
  visit_expr alias (compare_expr a op b) =
      visit_expr alias a >>= λ a'. visit_expr alias b >>= λ b'. some (compare_expr a' op b')
  visit_expr alias (subscript a b) =
      visit_expr alias a >>= λ a'. visit_expr alias b >>= λ b'. some (subscript a' b')
  visit_expr alias (delete a b) =
      visit_expr alias a >>= λ a'. visit_expr alias b >>= λ b'. some (delete a' b')
  visit_expr alias (other_expr kind es) = visit_exprs alias es >>= λ es'. some (other_expr kind es')

  pub visit_exprs : {V : Type 0} → ℕ → Exprs V → Option (Exprs V)
  visit_exprs alias no_exprs = some no_exprs
  visit_exprs alias (expr_and e es) =
      visit_expr alias e >>= λ e'. visit_exprs alias es >>= λ es'. some (expr_and e' es')

unfoldable pub mem : ℕ → List ℕ → Bool
mem n [] = false
mem n (m ∷ ms) = m == n || mem n ms

-- `set(names) - context`
unfoldable pub new_names : List ℕ → List ℕ → List ℕ
new_names context [] = []
new_names context (n ∷ ns) =
    let rest = new_names (n ∷ context) ns in
    let others = new_names context ns in if mem n context then others else n ∷ rest

module _ {V : Type 0} where
  -- `visit_Expr`, which does not go into the expression
  unfoldable pub visit_expr_stmt : Expr V → Option (Stmt V)
  visit_expr_stmt (constant singleton v) = none
  visit_expr_stmt (name n) = none
  visit_expr_stmt e = some (expr_stmt e)

  abbrev pub declare : List ℕ → List ℕ → Option (Stmt V) × List ℕ
  declare context [] = (none, context)
  declare context (n ∷ ns) = (some (global_stmt (n ∷ ns)), (n ∷ ns) ++ context)

  -- `visit_Global`, with the global context after it
  unfoldable pub visit_global : List ℕ → List ℕ → Option (Stmt V) × List ℕ
  visit_global context ns = declare context (new_names context ns)

  -- the end of `visit_If`
  unfoldable pub make_if : Expr V → Stmts V → Stmts V → Option (Stmt V)
  make_if test no_stmts no_stmts = none
  make_if test no_stmts (stmt_and s ss) =
      some (if_stmt (unary_op not_op test) (stmt_and s ss) no_stmts)
  make_if test (stmt_and s ss) orelse = some (if_stmt test (stmt_and s ss) orelse)

  -- a statement that is left out, or not, before others
  abbrev pub put_before : Option (Stmt V) → Stmts V → Stmts V
  put_before none ss = ss
  put_before (some s) ss = stmt_and s ss

unfoldable mutual
  -- `visit` of a statement in a global context: what takes its place, and the context after it
  pub visit_stmt : {V : Type 0} → ℕ → List ℕ → Stmt V → Option (Option (Stmt V) × List ℕ)
  visit_stmt alias c (expr_stmt e) = some (visit_expr_stmt e, c)
  visit_stmt alias c break_stmt = some (some break_stmt, c)
  visit_stmt alias c continue_stmt = some (some continue_stmt, c)
  visit_stmt alias c (raise_stmt e) = visit_expr alias e >>= λ e'. some (some (raise_stmt e'), c)
  visit_stmt alias c (return_stmt e) = visit_expr alias e >>= λ e'. some (some (return_stmt e'), c)
  visit_stmt alias c (global_stmt ns) = some (visit_global c ns)
  visit_stmt alias c (if_stmt t b o) = visit_expr alias t >>= λ t'. visit_stmts alias c b >>= λ b'.
      visit_stmts alias b'.1 o >>= λ o'.
      some (make_if t' (filter_dead_code b'.0) (filter_dead_code o'.0), o'.1)
  visit_stmt alias c (while_stmt t b o) = visit_expr alias t >>= λ t'.
      visit_stmts alias c b >>= λ b'. visit_stmts alias b'.1 o >>= λ o'.
      some (some (while_stmt t' (filter_dead_code b'.0) (filter_dead_code o'.0)), o'.1)
  visit_stmt alias c (try_stmt b hs o f) = visit_stmts alias c b >>= λ b'.
      visit_handlers alias b'.1 hs >>= λ hs'. visit_stmts alias hs'.1 o >>= λ o'.
      visit_stmts alias o'.1 f >>= λ f'. some (
        some (
            try_stmt (filter_dead_code b'.0) hs'.0 (filter_dead_code o'.0) (filter_dead_code f'.0)),
        f'.1,
      )
  visit_stmt alias c (function_def n ds b) = visit_stmts alias [] b >>= λ b'.
      visit_exprs alias ds >>= λ ds'. some (some (function_def n ds' (filter_dead_code b'.0)), c)
  visit_stmt alias c (other_stmt kind es b) = visit_exprs alias es >>= λ es'.
      visit_stmts alias c b >>= λ b'. some (some (other_stmt kind es' b'.0), b'.1)

  pub visit_stmts : {V : Type 0} → ℕ → List ℕ → Stmts V → Option (Stmts V × List ℕ)
  visit_stmts alias c no_stmts = some (no_stmts, c)
  visit_stmts alias c (stmt_and s ss) = visit_stmt alias c s >>= λ s'.
      visit_stmts alias s'.1 ss >>= λ ss'. some (put_before s'.0 ss'.0, ss'.1)

  -- `visit_ExceptHandler` for each clause
  pub visit_handlers : {V : Type 0} → ℕ → List ℕ → Handlers V → Option (Handlers V × List ℕ)
  visit_handlers alias c no_handlers = some (no_handlers, c)
  visit_handlers alias c (handler t n b hs) = visit_expr alias t >>= λ t'.
      visit_stmts alias c b >>= λ b'. visit_handlers alias b'.1 hs >>= λ hs'.
      some (handler t' n (filter_dead_code b'.0) hs'.0, hs'.1)
