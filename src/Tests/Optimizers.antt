-- ===== src/Tests/Optimizers.antt =====
-- A loop that src/basilisp/lang/compiler/optimizer.py takes apart.
use baisilisp.Base.{◌≡◌, refl, ℕ, false, some, [], ◌∷◌}
use baisilisp.Optimizer.{
  Attr, UnaryOp, add_op, lt_op, Expr, constant, name, attribute, call, bin_op, unary_op,
  compare_expr, no_exprs, expr_and, Stmt, expr_stmt, continue_stmt, return_stmt, global_stmt,
  if_stmt, while_stmt, other_stmt, Stmts, no_stmts, stmt_and,
}
use baisilisp.Optimizer.Rewrite.{
  known, visit_stmts, visit_stmt, visit_expr, visit_exprs, optimize_operator_call, rewrite_known,
  filter_dead_code, make_if, visit_expr_stmt, visit_global, new_names, mem,
}
use baisilisp.Optimizer.Meaning.{
  returns, unary, read_name, eval, eval_all, exec, exec_all, exec_body, own_body, run_loop,
}
use baisilisp.Tests.Hosted
use baisilisp.Tests.Hosted.{Val, num}

-- `operator.f(a, b)`
abbrev operator_call : Attr → Expr Val → Expr Val → Expr Val
operator_call a x y = call (attribute (name 0) a) (expr_and x (expr_and y no_exprs))

abbrev variable : Expr Val
variable = name 1

abbrev number : ℕ → Expr Val
number n = constant false (num n)

abbrev assigned : Expr Val → Stmt Val
assigned e = other_stmt 0 (expr_and e no_exprs) no_stmts

abbrev body : Stmts Val
body =
    stmt_and
      (if_stmt (operator_call Attr.lt variable (number 0)) (stmt_and (expr_stmt variable) no_stmts)
        (stmt_and (assigned (operator_call Attr.add variable (number 1)))
          (stmt_and continue_stmt (stmt_and (return_stmt (number 9)) no_stmts))))
      no_stmts

abbrev program : Stmts Val
program = stmt_and (expr_stmt variable) (
    stmt_and (while_stmt (operator_call Attr.lt variable (number 3)) body no_stmts)
      (stmt_and (return_stmt (operator_call Attr.add variable (number 10))) no_stmts))

abbrev shorter : Stmts Val
shorter =
    stmt_and
      (while_stmt (compare_expr variable lt_op (number 3))
        (stmt_and
          (if_stmt (unary_op UnaryOp.not_op (compare_expr variable lt_op (number 0)))
            (stmt_and (assigned (bin_op variable add_op (number 1)))
              (stmt_and continue_stmt no_stmts))
            no_stmts)
          no_stmts)
        no_stmts)
      (stmt_and (return_stmt (bin_op variable add_op (number 10))) no_stmts)

program-shorter : visit_stmts 0 (1 ∷ []) program ≡ some (shorter, 1 ∷ [])
unfolding visit_stmts visit_stmt visit_expr visit_exprs optimize_operator_call rewrite_known known
    filter_dead_code make_if visit_expr_stmt visit_global new_names mem
program-shorter = refl

shorter-exec : exec_all Hosted.host 5 shorter 0 ≡ (returns (num 13), 3)
unfolding exec_all exec exec_body own_body eval eval_all unary read_name run_loop
shorter-exec = refl

abbrev returned_first : Stmts Val
returned_first =
    stmt_and
      (if_stmt variable (stmt_and (return_stmt variable) (stmt_and (global_stmt (1 ∷ [])) no_stmts))
        no_stmts)
      (stmt_and (global_stmt (1 ∷ [])) (stmt_and (assigned variable) no_stmts))

-- The declaration in the dead code is the only one that is not redundant.
declaration_lost :
    visit_stmts 0 [] returned_first
    ≡ some (
      stmt_and
          (if_stmt variable (stmt_and (return_stmt variable) no_stmts) no_stmts)
          (stmt_and (assigned variable) no_stmts),
      1 ∷ [],
    )
unfolding visit_stmts visit_stmt visit_expr visit_exprs optimize_operator_call rewrite_known known
    filter_dead_code make_if visit_expr_stmt visit_global new_names mem
declaration_lost = refl
