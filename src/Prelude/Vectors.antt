-- ===== src/Prelude/Vectors.antt =====
-- A `Vec` is a list whose end is the end of the `Vec`: `push`, `pop`, `swap_remove` and `truncate`.
use Prim.Native.Nat.{ℕ, ◌≤◌}
use mathlib.Core.Path.{◌≡◌, refl, ap}
use mathlib.Core.Logic.{◌⊎◌, inl, inr}
use mathlib.Core.List.{List, [], ◌∷◌, ◌++◌}
use mathlib.Core.Option.{Option, none, some}
use native.Mathlib.Omega.{arith}
use brane.Prelude.Lists.{length, set, length-append, length-set}

module _ {ℓ} {A : Type ℓ} where
  -- `pop`: the rest and the last element
  unfoldable pub split_last : List A → Option (List A × A)
  split_last [] = none
  split_last (x ∷ xs) = elim (split_last xs) [
    | none ↦ some ([], x)
    | some (ys, l) ↦ some (x ∷ ys, l)
  ]

  -- `swap_remove`, for an index in bounds
  unfoldable pub swap_remove : List A → ℕ → List A
  swap_remove xs i = elim (split_last xs) [ none ↦ [] | some (ys, l) ↦ set ys i l ]

  pub split_last-append : (xs : List A) (x : A) → split_last (xs ++ x ∷ []) ≡ some (xs, x)
  unfolding split_last
  split_last-append [] x = refl
  split_last-append (y ∷ xs) x = rw (split_last-append xs x)

  -- a list is empty or has a last element
  pub last-cases : (xs : List A) → (xs ≡ []) ⊎ ((ys : List A) × (l : A) × (xs ≡ ys ++ l ∷ []))
  last-cases [] = inl refl
  last-cases (x ∷ xs) = elim (last-cases xs) [
    | inl e ↦ inr ([], x, rw e)
    | inr (ys, l, e) ↦ inr (x ∷ ys, l, ap (◌∷◌ x) e)
  ]

module _ {ℓ} {A : Type ℓ} where
  -- `swap_remove` of an element that is not the last: the last takes its place
  pub swap_remove-append : (xs : List A) (i : ℕ) (x : A) → swap_remove (xs ++ x ∷ []) i ≡ set xs i x
  unfolding swap_remove
  swap_remove-append xs i x = rw (split_last-append xs x, swap_remove)

  pub length-swap_remove-le : (xs : List A) (i : ℕ) → length (swap_remove xs i) ≤ length xs
  length-swap_remove-le xs i = elim (last-cases xs) [
    | inl e ↦ rw e (unfold swap_remove split_last in omega arith)
    | inr (ys, l, e) ↦ rw e (
        rw (swap_remove-append ys i l)
          (omega (arith, length-set ys i l, length-append ys (l ∷ []))))
  ]
