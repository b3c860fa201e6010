-- ===== src/Tests/Hosted.antt =====
-- A host for src/basilisp/lang/compiler/optimizer.py: numbers, one variable, and the module `operator`.
use baisilisp.Base.{
  ◌+◌, ◌≡◌, refl, ℕ, zero, suc, Bool, true, false, Option, none, some, List, [], ◌∷◌, ltb, arith,
}
use baisilisp.Optimizer.{Attr, BinOp, UnaryOp, CompareOp, add_op, lt_op}
use baisilisp.Optimizer.Rewrite.{
  Known, binary_known, unary_known, compare_known, identity_known, contains_known, known,
}
use baisilisp.Optimizer.Meaning.{raised, Eff, pure, normal, Exec, Python, unary}
use baisilisp.Optimizer.Calls.{OperatorLaws}

-- Numbers, the module `operator` and its functions.
pub data Val : Type 0 where
  num : ℕ → Val
  the_module : Val
  function : Attr → Val

abbrev pub fail : {A : Type 0} → Eff Val ℕ A
fail st = (raised (num 0), st)

abbrev pub lookup : ℕ → ℕ → Option Val
lookup st zero = some the_module
lookup st (suc zero) = some (num st)
lookup st (suc (suc n)) = none

abbrev pub always : ℕ → Bool
always zero = true
always (suc zero) = true
always (suc (suc n)) = false

abbrev pub get_attr : Val → Attr → Eff Val ℕ Val
get_attr the_module a = pure (function a)
get_attr v a = fail

abbrev pub of_bool : Bool → Val
of_bool true = num 1
of_bool false = num 0

abbrev pub truth : Val → Eff Val ℕ Bool
truth (num zero) = pure false
truth v = pure true

abbrev pub binary : BinOp → Val → Val → Eff Val ℕ Val
binary add_op (num x) (num y) = pure (num (x + y))
binary op v w = fail

abbrev pub comparison : CompareOp → Val → Val → Eff Val ℕ Val
comparison lt_op (num x) (num y) = pure (of_bool (ltb x y))
comparison op v w = fail

abbrev pub not_val : Val → Eff Val ℕ Val
not_val (num zero) = pure (num 1)
not_val v = pure (num 0)

abbrev pub call_known : Known → List Val → Eff Val ℕ Val
call_known (binary_known op) (x ∷ y ∷ []) = binary op x y
call_known (unary_known UnaryOp.not_op) (x ∷ []) = not_val x
call_known (compare_known op) (x ∷ y ∷ []) = comparison op x y
call_known (identity_known op eq) (x ∷ y ∷ []) = comparison op x y
call_known contains_known (x ∷ y ∷ []) = comparison CompareOp.in_op y x
call_known k args = fail

abbrev pub apply : Val → List Val → Eff Val ℕ Val
apply (function a) args = call_known (known a) args
apply v args = fail

-- Every other statement assigns to the variable.
abbrev pub assign : ℕ → List Val → Option (Exec Val ℕ) → Exec Val ℕ
assign kind (num x ∷ []) body st = (normal, x)
assign kind vs body st = (normal, st)

abbrev pub host : Python Val ℕ
host = record {
  lookup = lookup;
  name_error = λ n. num n;
  get_attr = get_attr;
  apply = apply;
  binary = binary;
  invert = λ v. fail;
  truth = truth;
  of_bool = of_bool;
  comparison = comparison;
  item_of = λ v w. fail;
  other = λ k vs. fail;
  matches = λ c e. pure true;
  with_bound = λ n e run. run;
  define = λ n vs run st. (normal, st);
  other_run = assign;
}

not_law : (x : Val) → not_val x ≡ unary host UnaryOp.not_op x
unfolding unary
not_law (num zero) = refl
not_law (num (suc n)) = refl
not_law the_module = refl
not_law (function a) = refl

unary_law :
    (a : Attr) (op : UnaryOp)
    → known a ≡ unary_known op
    → (x : Val) → apply (function a) (x ∷ []) ≡ unary host op x
unfolding unary
unary_law a UnaryOp.not_op k x = rw k (not_law x)
unary_law a UnaryOp.invert_op k x = rw k refl

bound : (st n : ℕ) → always n ≡ true → (v : Val) × (lookup st n ≡ some v)
bound st zero e = (the_module, refl)
bound st (suc zero) e = (num st, refl)
bound st (suc (suc n)) e = absurd (ground (arith, e))

pub laws : OperatorLaws host 0 always
unfolding known
laws = record {
  operator = the_module;
  fn = function;
  found = λ st. refl;
  get_fn = λ a. refl;
  binary_law = λ a op k x y. rw k refl;
  unary_law = unary_law;
  compare_law = λ a op k x y. rw k refl;
  identity_law = λ a op eq k x y. rw k refl;
  contains_law = λ x y. refl;
  getitem_law = λ x y. refl;
  bound = bound;
}

pub truth_of_bool : (b : Bool) → truth (of_bool b) ≡ pure b
truth_of_bool true = refl
truth_of_bool false = refl
