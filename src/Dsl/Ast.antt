-- ===== src/Dsl/Ast.antt =====
-- brane-dsl/src/parser/ast.rs
use brane.Prelude.{ℕ, Bool, Option, String, List}
use brane.Prelude.Int.{ℤ}

-- `Ident` wraps a `String`.
abbrev pub Ident : Type 0
Ident = String

-- `real` holds the bits of the `f64`.
pub data Lit : Type 0 where
  boolean : Bool → Lit
  integer : ℤ → Lit
  real : ℕ → Lit
  string : String → Lit
  unit : Lit

pub data BinOp : Type 0 where
  add sub mul div dot and or eq lt le ne ge gt : BinOp

pub data UnOp : Type 0 where
  idx not' neg prio : UnOp

-- An import has also a version, which the compiler does not read.
mutual
  pub data Expr : Type 0 where
    array : Exprs → Expr
    binary : BinOp → Expr → Expr → Expr
    call : Ident → Exprs → Expr
    ident : Ident → Expr
    index : Expr → Expr → Expr
    instance' : Ident → Stmts → Expr
    literal : Lit → Expr
    pattern' : Exprs → Expr
    unary : UnOp → Expr → Expr

  -- `Vec<Expr>`
  pub data Exprs : Type 0 where
    nil : Exprs
    cons : Expr → Exprs → Exprs

  pub data Stmt : Type 0 where
    assign : Ident → Expr → Stmt
    block : Stmts → Stmt
    declare_class : Ident → List (Ident × Ident) → Methods → Stmt
    declare_func : Ident → List Ident → Stmts → Stmt
    expr : Expr → Stmt
    for : Stmt → Expr → Stmt → Stmts → Stmt
    -- without and with an alternative
    if_then : Expr → Stmts → Stmt
    if_else : Expr → Stmts → Stmts → Stmt
    import : Ident → Stmt
    let_assign : Ident → Expr → Stmt
    on : Expr → Stmts → Stmt
    parallel : Option Ident → Stmts → Stmt
    property : Ident → Ident → Stmt
    return_unit : Stmt
    return : Expr → Stmt
    while : Expr → Stmts → Stmt

  -- `Block`, that is, `Vec<Stmt>`
  pub data Stmts : Type 0 where
    end : Stmts
    stmt : Stmt → Stmts → Stmts

  -- `HashMap<Ident, Stmt>`
  pub data Methods : Type 0 where
    no_methods : Methods
    method : Ident → Stmt → Methods → Methods

abbrev pub count : Exprs → ℕ
count nil = 0
count (cons _ es) = ℕ.suc (count es)

abbrev pub count_stmts : Stmts → ℕ
count_stmts end = 0
count_stmts (stmt _ ss) = ℕ.suc (count_stmts ss)

-- `binding_power` of `BinOp` and of `UnOp`
unfoldable pub binding_power : BinOp → ℕ × ℕ
binding_power BinOp.and = (1, 2)
binding_power BinOp.or = (1, 2)
binding_power BinOp.eq = (3, 4)
binding_power BinOp.ne = (3, 4)
binding_power BinOp.lt = (5, 6)
binding_power BinOp.gt = (5, 6)
binding_power BinOp.le = (5, 6)
binding_power BinOp.ge = (5, 6)
binding_power BinOp.add = (7, 8)
binding_power BinOp.sub = (7, 8)
binding_power BinOp.mul = (9, 10)
binding_power BinOp.div = (9, 10)
binding_power BinOp.dot = (13, 14)
