-- ===== src/Dsl/Correct/Kinds.antt =====
-- The data that an expression denotes before and after its comparisons are exchanged.
use brane.Prelude.{◌≡◌, refl, Bool, Option, none, some, String}
use brane.Prelude.Options.{◌>>=◌}
use brane.Prelude.Int.{ℤ}
use brane.Dsl.Ast.{BinOp, UnOp, Expr}
use brane.Dsl.Correct.Semantics.{
  Datum, div_int, on_ints, on_bools, eval, eval_binary, eval_unary, eval_literal,
}
use brane.Dsl.Correct.Exchange.{exchange, exchanged}

-- the same integer, or two booleans, or unit
pub data Kin : Datum → Datum → Type 0 where
  int : {z : ℤ} → Kin (Datum.int z) (Datum.int z)
  bool : {b c : Bool} → Kin (Datum.bool b) (Datum.bool c)
  unit : Kin Datum.unit Datum.unit

pub data KinOption : Option Datum → Option Datum → Type 0 where
  neither : KinOption none none
  both : {a b : Datum} → Kin a b → KinOption (some a) (some b)

Kin-refl : (a : Datum) → Kin a a
Kin-refl (Datum.int z) = int
Kin-refl (Datum.bool b) = bool
Kin-refl Datum.unit = unit

pub KinOption-refl : (a : Option Datum) → KinOption a a
KinOption-refl none = neither
KinOption-refl (some a) = both (Kin-refl a)

on_ints-Kin :
    (f g : ℤ → ℤ → Option Datum) {a a' b b' : Datum}
    → ((y z : ℤ) → KinOption (f y z) (g y z))
    → Kin a a'
    → Kin b b'
    → KinOption (on_ints f a b) (on_ints g a' b')
on_ints-Kin f g h (int {z = y}) (int {z = z}) = h y z
on_ints-Kin f g h int bool = neither
on_ints-Kin f g h int unit = neither
on_ints-Kin f g h bool q = neither
on_ints-Kin f g h unit q = neither

on_bools-Kin :
    (f : Bool → Bool → Bool) {a a' b b' : Datum}
    → Kin a a'
    → Kin b b'
    → KinOption (on_bools f a b) (on_bools f a' b')
on_bools-Kin f bool bool = both bool
on_bools-Kin f bool int = neither
on_bools-Kin f bool unit = neither
on_bools-Kin f int q = neither
on_bools-Kin f unit q = neither

eval_binary-Kin :
    (o : BinOp) {a a' b b' : Datum}
    → Kin a a'
    → Kin b b'
    → KinOption (eval_binary o a b) (eval_binary (exchange o) a' b')
unfolding eval_binary exchange
eval_binary-Kin BinOp.add p q = on_ints-Kin _ _ (λ y z. both int) p q
eval_binary-Kin BinOp.sub p q = on_ints-Kin _ _ (λ y z. both int) p q
eval_binary-Kin BinOp.mul p q = on_ints-Kin _ _ (λ y z. both int) p q
eval_binary-Kin BinOp.div p q = on_ints-Kin _ _ (λ y z. KinOption-refl (div_int y z)) p q
eval_binary-Kin BinOp.dot p q = neither
eval_binary-Kin BinOp.and p q = on_bools-Kin _ p q
eval_binary-Kin BinOp.or p q = on_bools-Kin _ p q
eval_binary-Kin BinOp.eq p q = both bool
eval_binary-Kin BinOp.ne p q = both bool
eval_binary-Kin BinOp.lt p q = on_ints-Kin _ _ (λ y z. both bool) p q
eval_binary-Kin BinOp.gt p q = on_ints-Kin _ _ (λ y z. both bool) p q
eval_binary-Kin BinOp.le p q = on_ints-Kin _ _ (λ y z. both bool) p q
eval_binary-Kin BinOp.ge p q = on_ints-Kin _ _ (λ y z. both bool) p q

eval_unary-Kin : (o : UnOp) {a a' : Datum} → Kin a a' → KinOption (eval_unary o a) (eval_unary o a')
unfolding eval_unary
eval_unary-Kin UnOp.neg int = both int
eval_unary-Kin UnOp.neg bool = neither
eval_unary-Kin UnOp.neg unit = neither
eval_unary-Kin UnOp.not' int = neither
eval_unary-Kin UnOp.not' bool = both bool
eval_unary-Kin UnOp.not' unit = neither
eval_unary-Kin UnOp.idx p = neither
eval_unary-Kin UnOp.prio p = neither

bind-Kin :
    {p q : Option Datum} (f g : Datum → Option Datum)
    → ((a b : Datum) → Kin a b → KinOption (f a) (g b))
    → KinOption p q
    → KinOption (p >>= f) (q >>= g)
bind-Kin f g h neither = neither
bind-Kin f g h (both {a = a} {b = b} k) = h a b k

pub eval-Kin :
    (env env' : String → Option Datum)
    → ((x : String) → KinOption (env x) (env' x))
    → (e : Expr) → KinOption (eval env e) (eval env' (exchanged e))
unfolding eval exchanged
eval-Kin env env' h (Expr.literal l) = KinOption-refl (eval_literal l)
eval-Kin env env' h (Expr.ident i) = h i
eval-Kin env env' h (Expr.unary o e) =
    bind-Kin _ _ (λ a b k. eval_unary-Kin o k) (eval-Kin env env' h e)
eval-Kin env env' h (Expr.binary o l r) =
    bind-Kin _ _ (λ a b k. bind-Kin _ _ (λ y z k'. eval_binary-Kin o k k') (eval-Kin env env' h r))
      (eval-Kin env env' h l)
eval-Kin env env' h (Expr.array _) = neither
eval-Kin env env' h (Expr.call _ _) = neither
eval-Kin env env' h (Expr.index _ _) = neither
eval-Kin env env' h (Expr.instance' _ _) = neither
eval-Kin env env' h (Expr.pattern' _) = neither

defined :
    {p q : Option Datum} {d : Datum} → KinOption p q → p ≡ some d → (d' : Datum) × (q ≡ some d')
defined neither h = cc
defined (both {b = b} k) h = (b, refl)

-- Where an expression denotes something, the exchanged one does.
pub eval-exchanged :
    (env : String → Option Datum) (e : Expr) (d : Datum)
    → eval env e ≡ some d
    → (d' : Datum) × (eval env (exchanged e) ≡ some d')
eval-exchanged env e d h = defined (eval-Kin env env (λ x. KinOption-refl (env x)) e) h
