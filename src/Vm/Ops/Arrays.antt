-- ===== src/Vm/Ops/Arrays.antt =====
-- Which arrays `Array::new` of brane-bvm/src/objects.rs makes.
use brane.Prelude.{
  ◌≡◌, refl, ap, ◌∙◌, ◌↔◌, Bool-cases, Option-cases, inl, inr, some, String, List, [], ◌∷◌, Outcome,
  ok, err, panic, str_eq, str_eq_iff,
}
use brane.Vm.Slot.{Slot, Object, array, from_list}
use brane.Prelude.Exec.{continue, pure}
use brane.Vm.Convert.{value_type}
use brane.Vm.State.{Vm, VmError}
use brane.Vm.Ops.Objects.{element_type, new_array}

-- every element has the type of unit
abbrev pub AllUnit : List Slot → Type 0
AllUnit [] = Unit
AllUnit (s ∷ ss) = (value_type s ≡ some "unit") × AllUnit ss

element_type-unit :
    (elements rest : List Slot) (t : String) (vm vm' : Vm)
    → element_type elements "unit" rest vm ≡ (ok t, vm')
    → AllUnit rest
unfolding element_type
element_type-unit elements [] t vm vm' h = tt
element_type-unit elements (s ∷ ss) t vm vm' h = elim (Option-cases (value_type s)) [
  | inl none' ↦ let h' = rw (element_type, none') at h in cc
  | inr (u, e) ↦ elim (Bool-cases (str_eq u "unit")) [
    | inl same ↦ (
      e ∙ ap some ((str_eq_iff u "unit").0 same),
      element_type-unit elements ss t vm vm' (rw (element_type, e, same) at h),
    )
    | inr other ↦ let h' = rw (element_type, e, other) at h in cc
  ]
]

element_type-AllUnit :
    (elements rest : List Slot) (vm : Vm)
    → AllUnit rest
    → element_type elements "unit" rest vm ≡ (ok "unit", vm)
unfolding element_type
element_type-AllUnit elements [] vm h = refl
element_type-AllUnit elements (s ∷ ss) vm (e, h) =
    rw (element_type, e) (element_type-AllUnit elements ss vm h)

element_type-made :
    (elements : List Slot) (vm : Vm) (o : Object) (r : Outcome VmError String × Vm) (vm' : Vm)
    → element_type elements "unit" elements vm ≡ r
    → continue r (λ t. pure (array t (from_list elements))) ≡ (ok o, vm')
    → AllUnit elements
element_type-made elements vm o (ok t, v) vm' p h = element_type-unit elements elements t vm v p
element_type-made elements vm o (err e, v) vm' p h = cc
element_type-made elements vm o (panic, v) vm' p h = cc

-- `Array::new` makes an array of elements that all have the type of unit, and of no others.
pub new_array-AllUnit :
    (elements : List Slot) (vm : Vm)
    → AllUnit elements ↔ ((o : Object) × (vm' : Vm) × (new_array elements vm ≡ (ok o, vm')))
unfolding new_array
new_array-AllUnit elements vm = (
  λ h. (
    array "unit" (from_list elements),
    vm,
    rw (element_type-AllUnit elements elements vm h) refl,
  ),
  λ (o, vm', e).
      element_type-made elements vm o (element_type elements "unit" elements vm) vm' refl e,
)
