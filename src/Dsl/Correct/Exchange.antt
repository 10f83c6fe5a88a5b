-- ===== src/Dsl/Correct/Exchange.antt =====
-- `op_less` and `op_greater` of brane-bvm/src/vm.rs compare their operands in the wrong order: the
-- exchange of `<` and `>`, and of `<=` and `>=`, in an expression.
use brane.Prelude.{◌≡◌, refl}
use brane.Dsl.Ast.{BinOp, Expr}

unfoldable pub exchange : BinOp → BinOp
exchange BinOp.lt = BinOp.gt
exchange BinOp.gt = BinOp.lt
exchange BinOp.le = BinOp.ge
exchange BinOp.ge = BinOp.le
exchange BinOp.add = BinOp.add
exchange BinOp.sub = BinOp.sub
exchange BinOp.mul = BinOp.mul
exchange BinOp.div = BinOp.div
exchange BinOp.dot = BinOp.dot
exchange BinOp.and = BinOp.and
exchange BinOp.or = BinOp.or
exchange BinOp.eq = BinOp.eq
exchange BinOp.ne = BinOp.ne

-- in the parts of an expression that denote something
unfoldable pub exchanged : Expr → Expr
unfolding exchange
exchanged (Expr.unary o e) = Expr.unary o (exchanged e)
exchanged (Expr.binary o l r) = Expr.binary (exchange o) (exchanged l) (exchanged r)
exchanged e = e

unfoldable pub IsUnorderedOp : BinOp → Type 0
IsUnorderedOp BinOp.lt = ⊥
IsUnorderedOp BinOp.gt = ⊥
IsUnorderedOp BinOp.le = ⊥
IsUnorderedOp BinOp.ge = ⊥
IsUnorderedOp _ = Unit

-- None of `<`, `>`, `<=` and `>=` is an operator of the expression.
unfoldable pub IsUnordered : Expr → Type 0
unfolding IsUnorderedOp
IsUnordered (Expr.unary o e) = IsUnordered e
IsUnordered (Expr.binary o l r) = IsUnorderedOp o × IsUnordered l × IsUnordered r
IsUnordered _ = Unit

exchange-unordered : (o : BinOp) → IsUnorderedOp o → exchange o ≡ o
unfolding exchange IsUnorderedOp
exchange-unordered BinOp.lt h = elim h [ ]
exchange-unordered BinOp.gt h = elim h [ ]
exchange-unordered BinOp.le h = elim h [ ]
exchange-unordered BinOp.ge h = elim h [ ]
exchange-unordered BinOp.add h = refl
exchange-unordered BinOp.sub h = refl
exchange-unordered BinOp.mul h = refl
exchange-unordered BinOp.div h = refl
exchange-unordered BinOp.dot h = refl
exchange-unordered BinOp.and h = refl
exchange-unordered BinOp.or h = refl
exchange-unordered BinOp.eq h = refl
exchange-unordered BinOp.ne h = refl

pub exchanged-unordered : (e : Expr) → IsUnordered e → exchanged e ≡ e
unfolding exchanged IsUnordered
exchanged-unordered (Expr.unary o e) h = rw (exchanged-unordered e h) refl
exchanged-unordered (Expr.binary o l r) (h, k, k') =
    rw (exchange-unordered o h, exchanged-unordered l k, exchanged-unordered r k') refl
exchanged-unordered (Expr.array _) h = refl
exchanged-unordered (Expr.call _ _) h = refl
exchanged-unordered (Expr.ident _) h = refl
exchanged-unordered (Expr.index _ _) h = refl
exchanged-unordered (Expr.instance' _ _) h = refl
exchanged-unordered (Expr.literal _) h = refl
exchanged-unordered (Expr.pattern' _) h = refl
