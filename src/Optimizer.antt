-- ===== src/Optimizer.antt =====
-- The Python syntax trees that src/basilisp/lang/compiler/optimizer.py takes apart. `V` is the type of
-- Python's values; names are numbers.
pub mod Rewrite
pub mod Meaning
pub mod Calls
pub mod Visits
pub mod Flow
pub mod Preserves
use baisilisp.Base.{ℕ, Bool, List}

-- An attribute's name: those of the module `operator` that the optimizer knows, and any other.
pub data Attr : Type 0 where
  add and_ floordiv lshift modulo mul matmul or_ pow rshift sub truediv xor : Attr
  not_ inv invert lt le eq ne gt ge is_ is_not contains delitem getitem : Attr
  other_attr : ℕ → Attr

pub data BinOp : Type 0 where
  add_op bit_and_op floor_div_op lshift_op mod_op mult_op mat_mult_op bit_or_op pow_op : BinOp
  rshift_op sub_op div_op bit_xor_op : BinOp

pub data UnaryOp : Type 0 where
  not_op invert_op : UnaryOp

pub data CompareOp : Type 0 where
  lt_op lte_op eq_op not_eq_op gt_op gte_op is_op is_not_op in_op : CompareOp

-- `constant true v` is one of `True`, `False`, `None` and `...`. `delete` is `ast.Delete` in the place
-- of an expression, which Python does not compile. Any other kind of expression is `other_expr` with a
-- number for the kind and its parts.
mutual
  pub data Expr (V : Type 0) : Type 0 where
    constant : Bool → V → Expr V
    name : ℕ → Expr V
    attribute : Expr V → Attr → Expr V
    call : Expr V → Exprs V → Expr V
    bin_op : Expr V → BinOp → Expr V → Expr V
    unary_op : UnaryOp → Expr V → Expr V
    compare_expr : Expr V → CompareOp → Expr V → Expr V
    subscript : Expr V → Expr V → Expr V
    delete : Expr V → Expr V → Expr V
    other_expr : ℕ → Exprs V → Expr V

  pub data Exprs (V : Type 0) : Type 0 where
    no_exprs : Exprs V
    expr_and : Expr V → Exprs V → Exprs V

-- `other_stmt` is a statement of another kind, with its expressions and its body. A function's
-- expressions are its decorators.
mutual
  pub data Stmt (V : Type 0) : Type 0 where
    expr_stmt : Expr V → Stmt V
    break_stmt continue_stmt : Stmt V
    raise_stmt return_stmt : Expr V → Stmt V
    global_stmt : List ℕ → Stmt V
    if_stmt : Expr V → Stmts V → Stmts V → Stmt V
    while_stmt : Expr V → Stmts V → Stmts V → Stmt V
    try_stmt : Stmts V → Handlers V → Stmts V → Stmts V → Stmt V
    function_def : ℕ → Exprs V → Stmts V → Stmt V
    other_stmt : ℕ → Exprs V → Stmts V → Stmt V

  pub data Stmts (V : Type 0) : Type 0 where
    no_stmts : Stmts V
    stmt_and : Stmt V → Stmts V → Stmts V

  -- An `except` clause with its type, its name and its body.
  pub data Handlers (V : Type 0) : Type 0 where
    no_handlers : Handlers V
    handler : Expr V → ℕ → Stmts V → Handlers V → Handlers V
