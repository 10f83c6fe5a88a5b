-- ===== src/Dsl/Syntax/ProgramLengths.antt =====
-- What the grammar of Dsl/Syntax/Program takes from its tokens: at least one for a statement.
use brane.Prelude.{ℕ, ◌<◌, Bool, Option, String, List, length, arith}
use brane.Dsl.Ast.{Ident, Stmt}
use brane.Dsl.Syntax.Token.{Token}
use brane.Dsl.Syntax.Lengths.{Reads-length}
use brane.Dsl.Syntax.Program
use brane.Dsl.Syntax.Program.{
  ReadsStmt, Branch, Block, Func, Members, Branches, MoreBranches, Names, MoreNames,
}

MoreNames-length : {xs : List Ident} {i r : List Token} → MoreNames xs i r → length r < length i
MoreNames-length Program.end_names = omega arith
MoreNames-length (Program.next_name h) = let k = MoreNames-length h in omega arith

pub Names-length : {xs : List Ident} {i r : List Token} → Names xs i r → length r < length i
Names-length Program.no_names = omega arith
Names-length (Program.names h) = let k = MoreNames-length h in omega arith

module _ {f64_from_str : String → Option ℕ} {is_version : String → Bool} where
  mutual
    ReadsStmt-shorter :
        {s : Stmt} {i r : List Token}
        → ReadsStmt f64_from_str is_version s i r
        → length r < length i
    ReadsStmt-shorter (Program.branch h) = Branch-shorter h
    ReadsStmt-shorter (Program.func h) = Func-shorter h
    ReadsStmt-shorter (Program.let_assign h) = let k = Reads-length h in omega arith
    ReadsStmt-shorter (Program.assign h) = let k = Reads-length h in omega arith
    ReadsStmt-shorter (Program.expr h) = let k = Reads-length h in omega arith
    ReadsStmt-shorter (Program.parallel h) = let k = Branches-shorter h in omega arith
    ReadsStmt-shorter (Program.let_parallel h) = let k = Branches-shorter h in omega arith
    ReadsStmt-shorter (Program.class h e) = let k = Members-shorter h in omega arith
    ReadsStmt-shorter (Program.if_then h b w) =
        let k = Reads-length h in let k' = Block-shorter b in omega arith
    ReadsStmt-shorter (Program.if_else h b c) =
        let k = Reads-length h in
        let k' = Block-shorter b in let k'' = Block-shorter c in omega arith
    ReadsStmt-shorter Program.import = omega arith
    ReadsStmt-shorter (Program.import_version h) = omega arith
    ReadsStmt-shorter (Program.for h h' h'' b) =
        let k = Reads-length h in
        let k' = Reads-length h' in
        let k'' = Reads-length h'' in let l = Block-shorter b in omega arith
    ReadsStmt-shorter (Program.while h b) =
        let k = Reads-length h in let k' = Block-shorter b in omega arith
    ReadsStmt-shorter Program.return_unit = omega arith
    ReadsStmt-shorter (Program.return h) = let k = Reads-length h in omega arith

    Branch-shorter :
        {s : Stmt} {i r : List Token} → Branch f64_from_str is_version s i r → length r < length i
    Branch-shorter (Program.on h b) =
        let k = Reads-length h in let k' = Block-shorter b in omega arith
    Branch-shorter (Program.block b) = let k' = Block-shorter b in omega arith

    Block-shorter :
        {ss : List Stmt} {i r : List Token}
        → Block f64_from_str is_version ss i r
        → length r < length i
    Block-shorter Program.end = omega arith
    Block-shorter (Program.next h b) =
        let k = ReadsStmt-shorter h in let k' = Block-shorter b in omega arith

    Func-shorter :
        {s : Stmt} {i r : List Token} → Func f64_from_str is_version s i r → length r < length i
    Func-shorter (Program.function h b) =
        let k = Names-length h in let k' = Block-shorter b in omega arith

    Members-shorter :
        {ss : List Stmt} {i r : List Token}
        → Members f64_from_str is_version ss i r
        → length r < length i
    Members-shorter Program.no_members = omega arith
    Members-shorter (Program.property b) = let k' = Members-shorter b in omega arith
    Members-shorter (Program.method h b) =
        let k = Func-shorter h in let k' = Members-shorter b in omega arith

    Branches-shorter :
        {ss : List Stmt} {i r : List Token}
        → Branches f64_from_str is_version ss i r
        → length r < length i
    Branches-shorter Program.no_branches = omega arith
    Branches-shorter (Program.branches h b) =
        let k = Branch-shorter h in let k' = MoreBranches-shorter b in omega arith

    MoreBranches-shorter :
        {ss : List Stmt} {i r : List Token}
        → MoreBranches f64_from_str is_version ss i r
        → length r < length i
    MoreBranches-shorter Program.end_branches = omega arith
    MoreBranches-shorter (Program.next_branch h b) =
        let k = Branch-shorter h in let k' = MoreBranches-shorter b in omega arith

  pub ReadsStmt-length :
      {s : Stmt} {i r : List Token} → ReadsStmt f64_from_str is_version s i r → length r < length i
  unfolding ReadsStmt-shorter
  ReadsStmt-length h = ReadsStmt-shorter h

  pub Branch-length :
      {s : Stmt} {i r : List Token} → Branch f64_from_str is_version s i r → length r < length i
  unfolding Branch-shorter
  Branch-length h = Branch-shorter h

  pub Block-length :
      {ss : List Stmt} {i r : List Token}
      → Block f64_from_str is_version ss i r
      → length r < length i
  unfolding Block-shorter
  Block-length h = Block-shorter h

  pub Func-length :
      {s : Stmt} {i r : List Token} → Func f64_from_str is_version s i r → length r < length i
  unfolding Func-shorter
  Func-length h = Func-shorter h
