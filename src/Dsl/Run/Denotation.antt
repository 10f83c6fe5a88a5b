-- ===== src/Dsl/Run/Denotation.antt =====
-- What a script without blocks denotes: `let`, assignments and expressions outside every scope; and
-- the exchange of `<` and `>`, and of `<=` and `>=`, in a script.
use brane.Prelude.{
  ◌≡◌, refl, Bool-cases, inl, inr, Option, none, some, String, str_eq, if◌then◌else◌,
}
use brane.Prelude.Options.{◌>>=◌}
use brane.Dsl.Ast.{Stmt, Stmts}
use brane.Dsl.Correct.Semantics.{Datum, eval}
use brane.Dsl.Correct.Exchange.{exchanged, exchanged-unordered, IsUnordered}
use brane.Dsl.Correct.Kinds.{Kin, KinOption, KinOption-refl, eval-Kin}

-- what the names stand for
abbrev pub Env : Type 0
Env = String → Option Datum

abbrev pub bind : String → Datum → Env → Env
bind k d env name = if str_eq k name then some d else env name

-- Only a name that stands for something is assigned to. The other statements have no denotation
-- here.
unfoldable pub exec : Env → Stmt → Option Env
exec env (Stmt.let_assign x e) = do d ← eval env e; some (bind x d env)
exec env (Stmt.assign x e) = do d ← eval env e; _ ← env x; some (bind x d env)
exec env (Stmt.expr e) = do _ ← eval env e; some env
exec env _ = none

unfoldable pub exec_all : Env → Stmts → Option Env
unfolding exec
exec_all env Stmts.end = some env
exec_all env (Stmts.stmt s ss) = do env' ← exec env s; exec_all env' ss

unfoldable pub exchanged_stmt : Stmt → Stmt
exchanged_stmt (Stmt.let_assign x e) = Stmt.let_assign x (exchanged e)
exchanged_stmt (Stmt.assign x e) = Stmt.assign x (exchanged e)
exchanged_stmt (Stmt.expr e) = Stmt.expr (exchanged e)
exchanged_stmt st = st

unfoldable pub exchanged_stmts : Stmts → Stmts
exchanged_stmts Stmts.end = Stmts.end
exchanged_stmts (Stmts.stmt st ss) = Stmts.stmt (exchanged_stmt st) (exchanged_stmts ss)

-- None of `<`, `>`, `<=` and `>=` is in the expressions of the script.
unfoldable pub IsUnorderedStmt : Stmt → Type 0
IsUnorderedStmt (Stmt.let_assign x e) = IsUnordered e
IsUnorderedStmt (Stmt.assign x e) = IsUnordered e
IsUnorderedStmt (Stmt.expr e) = IsUnordered e
IsUnorderedStmt _ = Unit

unfoldable pub IsUnorderedScript : Stmts → Type 0
IsUnorderedScript Stmts.end = Unit
IsUnorderedScript (Stmts.stmt st ss) = IsUnorderedStmt st × IsUnorderedScript ss

exchanged_stmt-unordered : (st : Stmt) → IsUnorderedStmt st → exchanged_stmt st ≡ st
unfolding exchanged_stmt IsUnorderedStmt
exchanged_stmt-unordered (Stmt.let_assign x e) h = rw (exchanged-unordered e h) refl
exchanged_stmt-unordered (Stmt.assign x e) h = rw (exchanged-unordered e h) refl
exchanged_stmt-unordered (Stmt.expr e) h = rw (exchanged-unordered e h) refl
exchanged_stmt-unordered _ h = refl

pub exchanged_stmts-unordered : (ss : Stmts) → IsUnorderedScript ss → exchanged_stmts ss ≡ ss
unfolding exchanged_stmts IsUnorderedScript
exchanged_stmts-unordered Stmts.end h = refl
exchanged_stmts-unordered (Stmts.stmt st ss) (h, k) =
    rw (exchanged_stmt-unordered st h, exchanged_stmts-unordered ss k) refl

-- the same names, for data of the same kinds
abbrev KinEnv : Env → Env → Type 0
KinEnv env env' = (x : String) → KinOption (env x) (env' x)

data KinEnvOption : Option Env → Option Env → Type 0 where
  neither : KinEnvOption none none
  both : {env env' : Env} → KinEnv env env' → KinEnvOption (some env) (some env')

KinEnv-bind :
    {env env' : Env} (x : String) {d d' : Datum}
    → KinEnv env env'
    → Kin d d'
    → KinEnv (bind x d env) (bind x d' env')
KinEnv-bind x h k y = elim (Bool-cases (str_eq x y)) [
  | inl same ↦ rw same (KinOption.both k)
  | inr other ↦ rw other (h y)
]

bind-KinEnv :
    {p q : Option Datum} (f g : Datum → Option Env)
    → ((a b : Datum) → Kin a b → KinEnvOption (f a) (g b))
    → KinOption p q
    → KinEnvOption (p >>= f) (q >>= g)
bind-KinEnv f g h KinOption.neither = KinEnvOption.neither
bind-KinEnv f g h (KinOption.both {a = a} {b = b} k) = h a b k

exec-Kin :
    {env env' : Env} (st : Stmt)
    → KinEnv env env'
    → KinEnvOption (exec env st) (exec env' (exchanged_stmt st))
unfolding exec exchanged_stmt
exec-Kin {env} {env'} (Stmt.let_assign x e) h =
    bind-KinEnv _ _ (λ a b k. KinEnvOption.both (KinEnv-bind x h k)) (eval-Kin env env' h e)
exec-Kin {env} {env'} (Stmt.assign x e) h =
    bind-KinEnv _ _
      (λ a b k. bind-KinEnv _ _ (λ y z k'. KinEnvOption.both (KinEnv-bind x h k)) (h x))
      (eval-Kin env env' h e)
exec-Kin {env} {env'} (Stmt.expr e) h =
    bind-KinEnv _ _ (λ a b k. KinEnvOption.both h) (eval-Kin env env' h e)
exec-Kin _ h = KinEnvOption.neither

then-KinEnv :
    {p q : Option Env} (f g : Env → Option Env)
    → ((a b : Env) → KinEnv a b → KinEnvOption (f a) (g b))
    → KinEnvOption p q
    → KinEnvOption (p >>= f) (q >>= g)
then-KinEnv f g h KinEnvOption.neither = KinEnvOption.neither
then-KinEnv f g h (KinEnvOption.both {env = a} {env' = b} k) = h a b k

exec_all-Kin :
    {env env' : Env} (ss : Stmts)
    → KinEnv env env'
    → KinEnvOption (exec_all env ss) (exec_all env' (exchanged_stmts ss))
unfolding exec_all exchanged_stmts
exec_all-Kin Stmts.end h = KinEnvOption.both h
exec_all-Kin (Stmts.stmt st ss) h = then-KinEnv _ _ (λ a b k. exec_all-Kin ss k) (exec-Kin st h)

defined :
    {p q : Option Env} {env : Env}
    → KinEnvOption p q
    → p ≡ some env
    → (env' : Env) × (q ≡ some env')
defined KinEnvOption.neither h = cc
defined (KinEnvOption.both {env' = env'} k) h = (env', refl)

-- Where a script denotes an environment, it does with its comparisons exchanged.
pub exec_all-exchanged :
    (env env' : Env) (ss : Stmts)
    → exec_all env ss ≡ some env'
    → (env₂ : Env) × (exec_all env (exchanged_stmts ss) ≡ some env₂)
exec_all-exchanged env env' ss h = defined (exec_all-Kin ss (λ x. KinOption-refl (env x))) h
