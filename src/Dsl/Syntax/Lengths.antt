-- ===== src/Dsl/Syntax/Lengths.antt =====
-- What the grammar of Dsl/Syntax/Grammar takes from its tokens: at least one for an expression.
use brane.Prelude.{ℕ, ◌≤◌, ◌<◌, Option, String, List, length, arith}
use brane.Dsl.Ast.{Expr, Stmt}
use brane.Dsl.Syntax.Token.{Token}
use brane.Dsl.Syntax.Grammar.{
  Reads, Items, More, Fields, MoreFields, Closes, Below, left_power, literal, ident, call,
  instance', array, array_trailing, parens, not', neg, index, binary, no_items, items, end, next,
  no_fields, fields, end_fields, next_field, paren, bracket, trailing,
}

pub Below-Closes : {r : List Token} → Closes r → Below 0 r
unfolding Below left_power
Below-Closes paren = tt
Below-Closes bracket = tt
Below-Closes trailing = tt

module _ {f : String → Option ℕ} where
  mutual
    Reads-shorter : {b : ℕ} {e : Expr} {i r : List Token} → Reads f b e i r → length r < length i
    Reads-shorter (literal h) = omega arith
    Reads-shorter (ident h) = omega arith
    Reads-shorter (call h) = let k = Items-shorter h in omega arith
    Reads-shorter (instance' h) = let k = Fields-shorter h in omega arith
    Reads-shorter (array h) = let k = Items-shorter h in omega arith
    Reads-shorter (array_trailing h) = let k = Items-shorter h in omega arith
    Reads-shorter (parens h) = let k = Reads-shorter h in omega arith
    Reads-shorter (not' h w) = let k = Reads-shorter h in omega arith
    Reads-shorter (neg h w) = let k = Reads-shorter h in omega arith
    Reads-shorter (index w h k) =
        let h' = Reads-shorter h in let k' = Reads-shorter k in omega arith
    Reads-shorter (binary w h k v) =
        let h' = Reads-shorter h in let k' = Reads-shorter k in omega arith

    Items-shorter : {es : List Expr} {i r : List Token} → Items f es i r → length r ≤ length i
    Items-shorter (no_items h) = omega arith
    Items-shorter (items h m) = let k = Reads-shorter h in let k' = More-shorter m in omega arith

    More-shorter : {es : List Expr} {i r : List Token} → More f es i r → length r ≤ length i
    More-shorter (end h) = omega arith
    More-shorter (next h m) = let k = Reads-shorter h in let k' = More-shorter m in omega arith

    Fields-shorter : {ps : List Stmt} {i r : List Token} → Fields f ps i r → length r ≤ length i
    Fields-shorter no_fields = omega arith
    Fields-shorter (fields h m) =
        let k = Reads-shorter h in let k' = MoreFields-shorter m in omega arith

    MoreFields-shorter :
        {ps : List Stmt} {i r : List Token} → MoreFields f ps i r → length r ≤ length i
    MoreFields-shorter end_fields = omega arith
    MoreFields-shorter (next_field h m) =
        let k = Reads-shorter h in let k' = MoreFields-shorter m in omega arith

  pub Reads-length : {b : ℕ} {e : Expr} {i r : List Token} → Reads f b e i r → length r < length i
  unfolding Reads-shorter
  Reads-length h = Reads-shorter h

  pub Items-length : {es : List Expr} {i r : List Token} → Items f es i r → length r ≤ length i
  unfolding Items-shorter
  Items-length h = Items-shorter h

  pub More-length : {es : List Expr} {i r : List Token} → More f es i r → length r ≤ length i
  unfolding More-shorter
  More-length h = More-shorter h

  pub Fields-length : {ps : List Stmt} {i r : List Token} → Fields f ps i r → length r ≤ length i
  unfolding Fields-shorter
  Fields-length h = Fields-shorter h

  -- An item of a list is followed by the end of the list, or by a comma.
  pub Below-More : {es : List Expr} {i r : List Token} → More f es i r → Below 0 i
  unfolding Below left_power
  Below-More (end h) = Below-Closes h
  Below-More (next h m) = tt

  pub Below-MoreFields : {ps : List Stmt} {i r : List Token} → MoreFields f ps i r → Below 0 i
  unfolding Below left_power
  Below-MoreFields end_fields = tt
  Below-MoreFields (next_field h m) = tt
