-- ===== src/Dsl/Syntax/Scripts.antt =====
-- `parse_stmt` and `parse_ast` read what the grammar of Dsl/Syntax/Program describes.
use brane.Prelude.{
  ℕ, zero, suc, ◌<◌, ◌≡◌, refl, ◌∙◌, Bool, Option, none, some, String, List, [], ◌∷◌, length, arith,
}
use brane.Dsl.Ast.{Stmt}
use brane.Dsl.Syntax.Token.{Token, discriminant}
use brane.Dsl.Syntax.Parsed.{done, tag_token}
use brane.Dsl.Syntax.Nom.{Nom, NomLaws}
use brane.Dsl.Syntax.Expression.{comma_list}
use brane.Dsl.Syntax.Statement.{return_of, block_or_on, parse_stmt, parse_ast}
use brane.Dsl.Syntax.Grammar.{Below, left_power}
use brane.Dsl.Syntax.Lengths.{Reads-length}
use brane.Dsl.Syntax.Lists.{to_opt, more_next, more_end_bracket}
use brane.Dsl.Syntax.Program
use brane.Dsl.Syntax.Program.{
  ReadsStmt, Branch, Block, Func, Members, Branches, MoreBranches, Names, MoreNames, Script,
}
use brane.Dsl.Syntax.ProgramLengths.{Names-length, ReadsStmt-length, Branch-length, Block-length}
use brane.Dsl.Syntax.Alternatives
use brane.Dsl.Syntax.Alternatives.{alt-all}
use brane.Dsl.Syntax.Starts.{Reads-Start}
use brane.Dsl.Syntax.Constructs
use brane.Dsl.Syntax.Dispatch
use brane.Dsl.Syntax.Parts.{
  Start-NonEmpty, Runs, stmt, takes, reads, brace_error, semicolon_error, Takes-let, Names-run,
  no_branch, member, no_member,
}

module _ (nom : Nom) (f64_from_str : String → Option ℕ) (is_version : String → Bool)
    (laws : NomLaws nom) where
  mutual
    unfolding Below left_power discriminant return_of

    Stmt-run :
        {s : Stmt} {i r : List Token}
        → ReadsStmt f64_from_str is_version s i r
        → Runs nom f64_from_str is_version laws (stmt nom f64_from_str is_version laws) s i r
    Stmt-run (Program.branch (Program.on {e = e} {ss = ss} {i = i} {j = j} {r = r} h b)) =
        let m = Reads-length h in
        takes nom f64_from_str is_version laws _ _ r tt (λ f le.
          Dispatch.Takes-on nom f64_from_str is_version laws
            (stmt nom f64_from_str is_version laws f) _ _ r
            (Constructs.on_stmt-done nom f64_from_str is_version laws
              (stmt nom f64_from_str is_version laws f) e ss i j r
              (reads nom f64_from_str is_version laws h tt) (Block-run b f (omega arith))))
    Stmt-run (Program.branch (Program.block {ss = ss} {i = i} {r = r} b)) =
        takes nom f64_from_str is_version laws _ _ r tt (λ f le.
          Dispatch.Takes-block nom f64_from_str is_version laws
            (stmt nom f64_from_str is_version laws f) _ _ r
            (Constructs.block_stmt-done nom f64_from_str is_version laws
              (stmt nom f64_from_str is_version laws f) ss i r (Block-run b f (omega arith))))
    Stmt-run
          (Program.func
            (Program.function {x = x} {xs = xs} {ss = ss} {i = i} {j = j} {r = r} h b)) =
        let m = Names-length h in
        takes nom f64_from_str is_version laws _ _ r tt (λ f le.
          Dispatch.Takes-func nom f64_from_str is_version laws
            (stmt nom f64_from_str is_version laws f) _ _ r
            (Constructs.declare_func_stmt-done nom f64_from_str is_version laws
              (stmt nom f64_from_str is_version laws f) x xs ss i j r
              (Names-run nom f64_from_str is_version laws h) (Block-run b f (omega arith))))
    Stmt-run (Program.let_assign {r = r} h) =
        takes nom f64_from_str is_version laws _ _ r tt (λ f le.
          Takes-let nom f64_from_str is_version laws (stmt nom f64_from_str is_version laws f) h)
    Stmt-run (Program.assign {x = x} {e = e} {i = i} {r = r} h) =
        takes nom f64_from_str is_version laws _ _ r tt (λ f le.
          Dispatch.Takes-assign nom f64_from_str is_version laws
            (stmt nom f64_from_str is_version laws f) _ (Token.ident x) _ r refl
            (Constructs.assign_stmt-done nom f64_from_str is_version laws x e i r
              (reads nom f64_from_str is_version laws h tt)))
    Stmt-run (Program.expr {e = e} {i = i} {r = r} h) =
        takes nom f64_from_str is_version laws _ i r (Start-NonEmpty (Reads-Start h)) (λ f le.
          Dispatch.Takes-expr nom f64_from_str is_version laws
            (stmt nom f64_from_str is_version laws f) e _ i r _ h refl
            (Constructs.expr_stmt-done nom f64_from_str is_version laws e i r
              (reads nom f64_from_str is_version laws h tt)))
    Stmt-run (Program.parallel {ss = ss} {i = i} {r = r} h) =
        takes nom f64_from_str is_version laws _ _ r tt (λ f le.
          Dispatch.Takes-parallel nom f64_from_str is_version laws
            (stmt nom f64_from_str is_version laws f) _ _ r
            (Constructs.parallel_stmt-done nom f64_from_str is_version laws
              (stmt nom f64_from_str is_version laws f) ss i r (Branches-run h f (omega arith))))
    Stmt-run (Program.let_parallel {x = x} {ss = ss} {i = i} {r = r} h) =
        takes nom f64_from_str is_version laws _ _ r tt (λ f le.
          Dispatch.Takes-let_parallel nom f64_from_str is_version laws
            (stmt nom f64_from_str is_version laws f) _ _ r
            (Constructs.parallel_stmt-let nom f64_from_str is_version laws
              (stmt nom f64_from_str is_version laws f) x ss i r (Branches-run h f (omega arith))))
    Stmt-run (Program.class {x = x} {body = body} {ps = ps} {ms = ms} {i = i} {r = r} h e) =
        takes nom f64_from_str is_version laws _ _ r tt (λ f le.
          Dispatch.Takes-class nom f64_from_str is_version laws
            (stmt nom f64_from_str is_version laws f) _ _ r
            (Constructs.declare_class_stmt-done nom f64_from_str is_version laws
              (stmt nom f64_from_str is_version laws f) x body ps ms i r
              (Members-run h f (omega arith)) e))
    Stmt-run (Program.if_then {e = e} {ss = ss} {i = i} {j = j} {r = r} h b w) =
        let m = Reads-length h in
        takes nom f64_from_str is_version laws _ _ r tt (λ f le.
          Dispatch.Takes-if nom f64_from_str is_version laws
            (stmt nom f64_from_str is_version laws f) _ _ r
            (Constructs.if_stmt-then nom f64_from_str is_version laws
              (stmt nom f64_from_str is_version laws f) e ss i j r
              (reads nom f64_from_str is_version laws h tt) (Block-run b f (omega arith)) w))
    Stmt-run (Program.if_else {e = e} {ss = ss} {ts = ts} {i = i} {j = j} {k = k} {r = r} h b c) =
        let m = Reads-length h in
        let m' = Block-length b in
        takes nom f64_from_str is_version laws _ _ r tt (λ f le.
          Dispatch.Takes-if nom f64_from_str is_version laws
            (stmt nom f64_from_str is_version laws f) _ _ r
            (Constructs.if_stmt-else nom f64_from_str is_version laws
              (stmt nom f64_from_str is_version laws f) e ss ts i j k r
              (reads nom f64_from_str is_version laws h tt) (Block-run b f (omega arith))
              (Block-run c f (omega arith))))
    Stmt-run (Program.import {x = x} {r = r}) =
        takes nom f64_from_str is_version laws _ _ r tt (λ f le.
          Dispatch.Takes-import nom f64_from_str is_version laws
            (stmt nom f64_from_str is_version laws f) _ _ r
            (Constructs.import_stmt-done nom f64_from_str is_version laws x r))
    Stmt-run (Program.import_version {x = x} {s = s} {r = r} h) =
        takes nom f64_from_str is_version laws _ _ r tt (λ f le.
          Dispatch.Takes-import nom f64_from_str is_version laws
            (stmt nom f64_from_str is_version laws f) _ _ r
            (Constructs.import_stmt-version nom f64_from_str is_version laws x s r h))
    Stmt-run
          (Program.for {x = x} {y = y} {a = a} {e = e} {n = n} {ss = ss} {i = i} {j = j} {k = k}
            {l = l} {r = r} h h' h'' b) =
        let m = Reads-length h in
        let m' = Reads-length h' in
        let m'' = Reads-length h'' in
        takes nom f64_from_str is_version laws _ _ r tt (λ f le.
          Dispatch.Takes-for nom f64_from_str is_version laws
            (stmt nom f64_from_str is_version laws f) _ _ r
            (Constructs.for_stmt-done nom f64_from_str is_version laws
              (stmt nom f64_from_str is_version laws f) x y a e n ss i j k l r
              (reads nom f64_from_str is_version laws h tt)
              (reads nom f64_from_str is_version laws h' tt)
              (reads nom f64_from_str is_version laws h'' tt) (Block-run b f (omega arith))))
    Stmt-run (Program.while {e = e} {ss = ss} {i = i} {j = j} {r = r} h b) =
        let m = Reads-length h in
        takes nom f64_from_str is_version laws _ _ r tt (λ f le.
          Dispatch.Takes-while nom f64_from_str is_version laws
            (stmt nom f64_from_str is_version laws f) _ _ r
            (Constructs.while_stmt-done nom f64_from_str is_version laws
              (stmt nom f64_from_str is_version laws f) e ss i j r
              (reads nom f64_from_str is_version laws h tt) (Block-run b f (omega arith))))
    Stmt-run (Program.return_unit {r = r}) =
        takes nom f64_from_str is_version laws _ _ r tt (λ f le.
          Dispatch.Takes-return nom f64_from_str is_version laws
            (stmt nom f64_from_str is_version laws f) _ _ r
            (Constructs.return_stmt-done nom f64_from_str is_version laws none _ r
              (laws.opt-error (semicolon_error nom f64_from_str is_version laws r))))
    Stmt-run (Program.return {e = e} {i = i} {r = r} h) =
        takes nom f64_from_str is_version laws _ _ r tt (λ f le.
          Dispatch.Takes-return nom f64_from_str is_version laws
            (stmt nom f64_from_str is_version laws f) _ _ r
            (Constructs.return_stmt-done nom f64_from_str is_version laws (some e) i r
              (laws.opt-done (reads nom f64_from_str is_version laws h tt))))

    Block-run :
        {ss : List Stmt} {i r : List Token}
        → Block f64_from_str is_version ss i r
        → Runs nom f64_from_str is_version laws
            (λ f. nom.many0 (stmt nom f64_from_str is_version laws f))
            ss
            i
            (Token.right_brace ∷ r)
    Block-run Program.end zero l = absurd (omega arith)
    Block-run (Program.end {r = r}) (suc f) l =
        laws.many0-error (brace_error nom f64_from_str is_version laws f r)
    Block-run (Program.next h b) f l =
        let m = ReadsStmt-length h in
        laws.many0-done (Stmt-run h f l) m (Block-run b f (omega arith))

    Branch-run :
        {s : Stmt} {i r : List Token}
        → Branch f64_from_str is_version s i r
        → Runs nom f64_from_str is_version laws
            (λ f. block_or_on nom f64_from_str is_version (stmt nom f64_from_str is_version laws f))
            s
            i
            r
    Branch-run (Program.on {e = e} {ss = ss} {i = i} {j = j} {r = r} h b) f le =
        let m = Reads-length h in
        laws.alt-done (
          Constructs.on_stmt-done nom f64_from_str is_version laws
            (stmt nom f64_from_str is_version laws f) e ss i j r
            (reads nom f64_from_str is_version laws h tt) (Block-run b f (omega arith)))
    Branch-run (Program.block {ss = ss} {i = i} {r = r} b) f le =
        laws.alt-error (
          Alternatives.on_stmt-error nom f64_from_str is_version laws
            (stmt nom f64_from_str is_version laws f) Token.left_brace i refl)
        ∙ laws.alt-done (
            Constructs.block_stmt-done nom f64_from_str is_version laws
              (stmt nom f64_from_str is_version laws f) ss i r (Block-run b f (omega arith)))

    Branches-run :
        {ss : List Stmt} {i r : List Token}
        → Branches f64_from_str is_version ss i r
        → Runs nom f64_from_str is_version laws
            (λ f. nom.opt (
              comma_list nom f64_from_str (
                block_or_on nom f64_from_str is_version (stmt nom f64_from_str is_version laws f))))
            (to_opt ss)
            i
            (Token.right_bracket ∷ r)
    Branches-run (Program.no_branches {r = r}) f le = laws.opt-error (
        laws.pair-error
          (no_branch nom f64_from_str is_version laws (stmt nom f64_from_str is_version laws f) r))
    Branches-run (Program.branches h b) f le =
        let m = Branch-length h in
        laws.opt-done (laws.pair-done (Branch-run h f le) (MoreBranches-run b f (omega arith)))

    MoreBranches-run :
        {ss : List Stmt} {i r : List Token}
        → MoreBranches f64_from_str is_version ss i r
        → Runs nom f64_from_str is_version laws
            (λ f. nom.many0 (
              nom.preceded (tag_token Token.comma) (
                block_or_on nom f64_from_str is_version (stmt nom f64_from_str is_version laws f))))
            ss
            i
            (Token.right_bracket ∷ r)
    MoreBranches-run (Program.end_branches {r = r}) f le =
        more_end_bracket nom f64_from_str laws
          (block_or_on nom f64_from_str is_version (stmt nom f64_from_str is_version laws f)) r
    MoreBranches-run (Program.next_branch {s = s} {ss = ss} {i = i} {j = j} {r = r} h b) f le =
        let m = Branch-length h in
        more_next nom f64_from_str laws
          (block_or_on nom f64_from_str is_version (stmt nom f64_from_str is_version laws f)) s ss i
          j (Token.right_bracket ∷ r) (Branch-run h f (omega arith)) m
          (MoreBranches-run b f (omega arith))

    Members-run :
        {ss : List Stmt} {i r : List Token}
        → Members f64_from_str is_version ss i r
        → Runs nom f64_from_str is_version laws
            (λ f.
              nom.many0
                (member nom f64_from_str is_version laws (stmt nom f64_from_str is_version laws f)))
            ss
            i
            (Token.right_brace ∷ r)
    Members-run (Program.no_members {r = r}) f le =
        laws.many0-error
          (no_member nom f64_from_str is_version laws (stmt nom f64_from_str is_version laws f) r)
    Members-run (Program.property {x = x} {c = c} {i = i} b) f le =
        laws.many0-done
          (laws.alt-done (
            Constructs.declare_property_stmt-done nom f64_from_str is_version laws
              (stmt nom f64_from_str is_version laws f) x c i))
          (omega arith) (Members-run b f (omega arith))
    Members-run
          (Program.method
            (Program.function {x = x} {xs = xs} {ss = ss} {i = i} {j = j} {r = r} h b)
            c)
          f le =
        let m = Names-length h in
        let m' = Block-length b in
        laws.many0-done
          (laws.alt-error (
              Alternatives.declare_property_stmt-error nom f64_from_str is_version laws
                (stmt nom f64_from_str is_version laws f) Token.function _ refl)
            ∙ laws.alt-done (
                Constructs.declare_func_stmt-done nom f64_from_str is_version laws
                  (stmt nom f64_from_str is_version laws f) x xs ss i j r
                  (Names-run nom f64_from_str is_version laws h) (Block-run b f (omega arith))))
          (omega arith) (Members-run c f (omega arith))

  Script-run :
      (f : ℕ) {ss : List Stmt} {i : List Token}
      → Script f64_from_str is_version ss i
      → length i < suc f
      → nom.many0 (stmt nom f64_from_str is_version laws (suc f)) i ≡ done [] ss
  unfolding parse_stmt Stmt-run
  Script-run f Program.empty l = laws.many0-error refl
  Script-run f (Program.then' h b) l =
      let m = ReadsStmt-length h in
      laws.many0-done (Stmt-run h (suc f) l) m (Script-run f b (omega arith))

  -- The parser reads the whole language of the grammar: where the tokens `i` are those of the script
  -- `ss`, `parse_ast` ends, gives `ss`, and leaves no token.
  pub Script-parse_ast :
      {ss : List Stmt} {i : List Token}
      → Script f64_from_str is_version ss i
      → parse_ast nom f64_from_str is_version i ≡ done [] ss
  unfolding parse_ast
  Script-parse_ast {ss} {i} d = laws.all_consuming-done (Script-run (length i) d (omega arith))
