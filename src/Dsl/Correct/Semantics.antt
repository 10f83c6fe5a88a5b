-- ===== src/Dsl/Correct/Semantics.antt =====
-- What an expression of BraneScript denotes, without byte code and stack: literals of integers,
-- booleans and unit, names, and the operators of these. Reals, strings, objects and calls have
-- no denotation here, nor have the operations that panic.
use brane.Prelude.{Bool, true, false, not, ◌&&◌, ◌||◌, Option, none, some, String, if◌then◌else◌}
use brane.Prelude.Options.{◌>>=◌}
use brane.Prelude.Int.{ℤ, pos, negsuc, ◌+ℤ◌, ◌-ℤ◌, ◌*ℤ◌, quot_ℤ, wrap, eqb_ℤ, ltb_ℤ}
use brane.Dsl.Ast.{Lit, BinOp, UnOp, Expr}

pub data Datum : Type 0 where
  int : ℤ → Datum
  bool : Bool → Datum
  unit : Datum

abbrev pub eq_bool : Bool → Bool → Bool
eq_bool true b = b
eq_bool false b = not b

-- Data of two kinds are different.
abbrev pub eq_datum : Datum → Datum → Bool
eq_datum (int a) (int b) = eqb_ℤ a b
eq_datum (bool a) (bool b) = eq_bool a b
eq_datum unit unit = true
eq_datum _ _ = false

-- Division by zero, and of the least integer by -1, has no result.
abbrev pub div_int : ℤ → ℤ → Option Datum
div_int a b =
    if eqb_ℤ b (pos 0)
    then none
    else if eqb_ℤ a (negsuc 9223372036854775807) && eqb_ℤ b (negsuc 0)
    then none
    else some (int (quot_ℤ a b))

abbrev pub on_ints : (ℤ → ℤ → Option Datum) → Datum → Datum → Option Datum
on_ints f (int a) (int b) = f a b
on_ints f _ _ = none

abbrev pub on_bools : (Bool → Bool → Bool) → Datum → Datum → Option Datum
on_bools f (bool a) (bool b) = some (bool (f a b))
on_bools f _ _ = none

-- as the operators are documented: `a < b` holds where a is less than b
unfoldable pub eval_binary : BinOp → Datum → Datum → Option Datum
eval_binary BinOp.add = on_ints (λ a b. some (int (wrap (a +ℤ b))))
eval_binary BinOp.sub = on_ints (λ a b. some (int (wrap (a -ℤ b))))
eval_binary BinOp.mul = on_ints (λ a b. some (int (wrap (a *ℤ b))))
eval_binary BinOp.div = on_ints div_int
eval_binary BinOp.dot = λ a b. none
eval_binary BinOp.and = on_bools (λ a b. a && b)
eval_binary BinOp.or = on_bools (λ a b. a || b)
eval_binary BinOp.eq = λ a b. some (bool (eq_datum a b))
eval_binary BinOp.ne = λ a b. some (bool (not (eq_datum a b)))
eval_binary BinOp.lt = on_ints (λ a b. some (bool (ltb_ℤ a b)))
eval_binary BinOp.gt = on_ints (λ a b. some (bool (ltb_ℤ b a)))
eval_binary BinOp.le = on_ints (λ a b. some (bool (not (ltb_ℤ b a))))
eval_binary BinOp.ge = on_ints (λ a b. some (bool (not (ltb_ℤ a b))))

unfoldable pub eval_unary : UnOp → Datum → Option Datum
eval_unary UnOp.neg (int a) = some (int (wrap (pos 0 -ℤ a)))
eval_unary UnOp.not' (bool b) = some (bool (not b))
eval_unary _ _ = none

unfoldable pub eval_literal : Lit → Option Datum
eval_literal (Lit.boolean b) = some (bool b)
eval_literal (Lit.integer i) = some (int i)
eval_literal Lit.unit = some unit
eval_literal _ = none

-- `env` is what the names stand for.
unfoldable pub eval : (String → Option Datum) → Expr → Option Datum
unfolding eval_binary eval_unary eval_literal
eval env (Expr.literal l) = eval_literal l
eval env (Expr.ident i) = env i
eval env (Expr.unary o e) = do a ← eval env e; eval_unary o a
eval env (Expr.binary o l r) = do a ← eval env l; b ← eval env r; eval_binary o a b
eval env _ = none
