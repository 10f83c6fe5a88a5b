-- ===== src/Dsl/Syntax/Classes.antt =====
-- The tables of properties and methods that `declare_class_stmt` of brane-dsl/src/parser/bscript.rs
-- makes of the body of a class.
use brane.Prelude.{
  ◌≡◌, refl, sym, ap, ◌∙◌, true, Bool-cases, inl, inr, Option, none, some, some_inj, List, [], ◌∷◌,
  str_eq, str_eq_iff, if◌then◌else◌,
}
use brane.Dsl.Ast.{Ident, Stmt, Methods, no_methods, method}
use brane.Dsl.Syntax.Statement.{insert_property, insert_method, class_members}

-- what the tables have for a name
unfoldable pub find_property : Ident → List (Ident × Ident) → Option Ident
find_property x [] = none
find_property x ((key, value) ∷ rest) = if str_eq x key then some value else find_property x rest

unfoldable pub find_method : Ident → Methods → Option Stmt
find_method x no_methods = none
find_method x (method key value rest) = if str_eq x key then some value else find_method x rest

-- The last declaration of a name in the body counts.
unfoldable pub last_property : Ident → Option Ident → List Stmt → Option Ident
last_property x found [] = found
last_property x found (Stmt.property ident class ∷ body) =
    last_property x (if str_eq x ident then some class else found) body
last_property x found (_ ∷ body) = last_property x found body

unfoldable pub last_method : Ident → Option Stmt → List Stmt → Option Stmt
last_method x found [] = found
last_method x found (Stmt.declare_func ident params block ∷ body) =
    last_method x (if str_eq x ident then some (Stmt.declare_func ident params block) else found)
      body
last_method x found (_ ∷ body) = last_method x found body

find-insert_property :
    (x y : Ident) (v : Ident) (m : List (Ident × Ident))
    → find_property x (insert_property y v m) ≡ (if str_eq x y then some v else find_property x m)
unfolding find_property insert_property
find-insert_property x y v [] = refl
find-insert_property x y v ((k, w) ∷ m) = elim (Bool-cases (str_eq y k)) [
  | inl same ↦
      let e : y ≡ k = (str_eq_iff y k).0 same in
      rw (same, ← e) (elim (Bool-cases (str_eq x y)) [ inl p ↦ rw p refl | inr p ↦ rw p refl ])
  | inr other ↦
      rw (other, find-insert_property x y v m)
        (elim (Bool-cases (str_eq x k)) [
          | inl at_k ↦ elim (Bool-cases (str_eq x y)) [
            | inl at_y ↦
                let e : y ≡ k = sym ((str_eq_iff x y).0 at_y) ∙ (str_eq_iff x k).0 at_k in
                let q : str_eq y k ≡ true = (str_eq_iff y k).1 e in cc
            | inr p ↦ rw (at_k, p) refl
          ]
          | inr p ↦ elim (Bool-cases (str_eq x y)) [
            | inl q ↦ rw (p, q) refl
            | inr q ↦ rw (p, q) refl
          ]
        ])
]

find-insert_method :
    (x y : Ident) (v : Stmt) (m : Methods)
    → find_method x (insert_method y v m) ≡ (if str_eq x y then some v else find_method x m)
unfolding find_method insert_method
find-insert_method x y v no_methods = refl
find-insert_method x y v (method k w m) = elim (Bool-cases (str_eq y k)) [
  | inl same ↦
      let e : y ≡ k = (str_eq_iff y k).0 same in
      rw (same, ← e) (elim (Bool-cases (str_eq x y)) [ inl p ↦ rw p refl | inr p ↦ rw p refl ])
  | inr other ↦
      rw (other, find-insert_method x y v m)
        (elim (Bool-cases (str_eq x k)) [
          | inl at_k ↦ elim (Bool-cases (str_eq x y)) [
            | inl at_y ↦
                let e : y ≡ k = sym ((str_eq_iff x y).0 at_y) ∙ (str_eq_iff x k).0 at_k in
                let q : str_eq y k ≡ true = (str_eq_iff y k).1 e in cc
            | inr p ↦ rw (at_k, p) refl
          ]
          | inr p ↦ elim (Bool-cases (str_eq x y)) [
            | inl q ↦ rw (p, q) refl
            | inr q ↦ rw (p, q) refl
          ]
        ])
]

tables :
    (x : Ident) (body : List Stmt) (ps : List (Ident × Ident)) (ms : Methods)
    (ps' : List (Ident × Ident)) (ms' : Methods)
    → class_members body ps ms ≡ some (ps', ms')
    → (find_property x ps' ≡ last_property x (find_property x ps) body)
      × (find_method x ms' ≡ last_method x (find_method x ms) body)
unfolding class_members last_property last_method
tables x [] ps ms ps' ms' h = (
  ap (λ t. find_property x (t.0)) (sym (some_inj h)),
  ap (λ t. find_method x (t.1)) (sym (some_inj h)),
)
tables x (Stmt.property y c ∷ body) ps ms ps' ms' h =
    rw (← find-insert_property x y c ps) (tables x body (insert_property y c ps) ms ps' ms' h)
tables x (Stmt.declare_func y xs block ∷ body) ps ms ps' ms' h =
    rw (← find-insert_method x y (Stmt.declare_func y xs block) ms)
      (tables x body ps (insert_method y (Stmt.declare_func y xs block) ms) ps' ms' h)
tables x (Stmt.assign _ _ ∷ body) ps ms ps' ms' h = cc
tables x (Stmt.block _ ∷ body) ps ms ps' ms' h = cc
tables x (Stmt.declare_class _ _ _ ∷ body) ps ms ps' ms' h = cc
tables x (Stmt.expr _ ∷ body) ps ms ps' ms' h = cc
tables x (Stmt.for _ _ _ _ ∷ body) ps ms ps' ms' h = cc
tables x (Stmt.if_then _ _ ∷ body) ps ms ps' ms' h = cc
tables x (Stmt.if_else _ _ _ ∷ body) ps ms ps' ms' h = cc
tables x (Stmt.import _ ∷ body) ps ms ps' ms' h = cc
tables x (Stmt.let_assign _ _ ∷ body) ps ms ps' ms' h = cc
tables x (Stmt.on _ _ ∷ body) ps ms ps' ms' h = cc
tables x (Stmt.parallel _ _ ∷ body) ps ms ps' ms' h = cc
tables x (Stmt.return_unit ∷ body) ps ms ps' ms' h = cc
tables x (Stmt.return _ ∷ body) ps ms ps' ms' h = cc
tables x (Stmt.while _ _ ∷ body) ps ms ps' ms' h = cc

-- In the class that the body of a declaration makes, a name `x` has the class of its last property
-- and the function of its last method in the body, and nothing if it has none there.
pub class_members-last :
    (x : Ident) (body : List Stmt) (ps : List (Ident × Ident)) (ms : Methods)
    → class_members body [] no_methods ≡ some (ps, ms)
    → (find_property x ps ≡ last_property x none body)
      × (find_method x ms ≡ last_method x none body)
unfolding find_property find_method
class_members-last x body ps ms h = tables x body [] no_methods ps ms h
