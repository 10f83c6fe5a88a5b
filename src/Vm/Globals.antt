-- ===== src/Vm/Globals.antt =====
-- The map of the globals: what is found after a global was set.
use brane.Prelude.{
  ◌≡◌, refl, sym, ◌∙◌, Bool-cases, inl, inr, true, some, String, [], ◌∷◌, str_eq, str_eq_iff,
  if◌then◌else◌,
}
use brane.Vm.Slot.{Slot}
use brane.Vm.State.{Globals, find, put}

-- Setting a global changes what is found under its name, and under no other.
pub find-put :
    (k name : String) (s : Slot) (m : Globals)
    → find name (put k s m) ≡ (if str_eq k name then some s else find name m)
unfolding find put
find-put k name s [] = refl
find-put k name s ((j, t) ∷ m) = elim (Bool-cases (str_eq j k)) [
  | inl same ↦
      let e : j ≡ k = (str_eq_iff j k).0 same in
      rw (same, e) (elim (Bool-cases (str_eq k name)) [ inl p ↦ rw p refl | inr p ↦ rw p refl ])
  | inr other ↦
      rw (other, find-put k name s m)
        (elim (Bool-cases (str_eq j name)) [
          | inl at_j ↦ elim (Bool-cases (str_eq k name)) [
            | inl at_k ↦
                let e : j ≡ k = (str_eq_iff j name).0 at_j ∙ sym ((str_eq_iff k name).0 at_k) in
                let q : str_eq j k ≡ true = (str_eq_iff j k).1 e in cc
            | inr p ↦ rw (at_j, p) refl
          ]
          | inr p ↦ rw p refl
        ])
]
