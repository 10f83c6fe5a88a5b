-- ===== src/Vm/Imports.antt =====
-- What an import leaves among the globals.
use brane.Prelude.{
  ℕ, ◌≡◌, refl, ap, subst, ◌∙◌, Bool-cases, inl, inr, true, Option, Option-cases, none, some,
  String, List, [], ◌∷◌, In, here, there, str_eq, str_eq_iff, ok,
}
use brane.Packages.{PackageInfo, PackageType, Function}
use brane.Vm.Slot.{Slot, Handle, Object, handle, object, function_ext, class, end}
use brane.Vm.State.{
  Vm, VmError, Globals, find, put, heap_alloc, duplicate_function_import, duplicate_type_import,
}
use brane.Vm.Globals.{find-put}
use brane.Vm.Ops.Variables.{contains}
use brane.Vm.Calls.Import.{
  insert_new, type_text, import_function, import_functions, import_types, import_package,
}
use brane.Vm.Effects.{continue-ok, alloc_object-ok, heap_alloc-ok}

-- no global is lost or changed
abbrev pub Keeps : Globals → Globals → Type 0
Keeps g g' = (name : String) (x : Slot) → find name g ≡ some x → find name g' ≡ some x

find-put_same : (name : String) (s : Slot) (g : Globals) → find name (put name s g) ≡ some s
find-put_same name s g =
    let same : str_eq name name ≡ true = (str_eq_iff name name).1 refl in
    find-put name name s g ∙ rw same refl

put-Keeps : (name : String) (s : Slot) (g : Globals) → find name g ≡ none → Keeps g (put name s g)
put-Keeps name s g free k x found = elim (Bool-cases (str_eq name k)) [
  | inl same ↦
      let e : name ≡ k = (str_eq_iff name k).0 same in
      let q : find k g ≡ none = subst (λ j. find j g ≡ none) e free in cc
  | inr other ↦ find-put name k s g ∙ rw other found
]

-- A global that was inserted is there, was not there before, and no other was changed.
insert_new-ok :
    (e : VmError) (name : String) (h : Handle) (vm vm' : Vm)
    → insert_new e name h vm ≡ (ok tt, vm')
    → (find name vm.globals ≡ none)
      × (find name vm'.globals ≡ some (object h))
      × Keeps vm.globals vm'.globals
insert_new-ok e name h vm vm' p = elim (Option-cases (find name vm.globals)) [
  | inr (x, found) ↦ let q = rw (insert_new, contains, found) at p in cc
  | inl free ↦
      let q = rw (insert_new, contains, free) at p in
      let is : put name (object h) vm.globals ≡ vm'.globals = ap (λ r. r.1.globals) q in
      (
        free,
        subst (λ g. find name g ≡ some (object h)) is (find-put_same name (object h) vm.globals),
        subst (λ g. Keeps vm.globals g) is (put-Keeps name (object h) vm.globals free),
      )
]

-- an object that was put on the heap and inserted under a name
imported :
    (what : String) (o : Object) (e : VmError) (name : String) (u v w : Vm) (h : Handle)
    → heap_alloc what [] o u ≡ (ok h, v)
    → insert_new e name h v ≡ (ok tt, w)
    → (find name u.globals ≡ none)
      × ((a : ℕ) × (find name w.globals ≡ some (object (handle a o))))
      × Keeps u.globals w.globals
imported what o e name u v w h p q =
    let ((a, is), only) = alloc_object-ok [] o u v h (heap_alloc-ok what [] o u v h p) in
    let globals : v.globals ≡ u.globals = ap (λ x. x.globals) only in
    let (free, found, keeps) = insert_new-ok e name h v w q in
    (
      subst (λ g. find name g ≡ none) globals free,
      (a, found ∙ ap (λ k. some (object k)) is),
      subst (λ g. Keeps g w.globals) globals keeps,
    )

-- the object of an external function of a package
abbrev pub external_of : String → PackageInfo → String → String → Function → Object
external_of p_name info digest f_name f = function_ext (record {
  name = f_name;
  detached = info.detached;
  digest = digest;
  package_name = p_name;
  kind = info.kind;
  version = info.version;
  parameters = f.parameters;
})

-- each function is a global that was not there before, and stands for the external function
abbrev pub FunctionsImported :
    String → PackageInfo → List (String × Function) → Globals → Globals → Type 0
FunctionsImported p_name info functions g g' =
    (f_name : String) (f : Function)
    → In {A = String × Function} (f_name, f) functions
    → (find f_name g ≡ none)
      × (digest : String) × (info.digest ≡ some digest)
      × (a : ℕ) × (find f_name g'
          ≡ some (object (handle a (external_of p_name info digest f_name f))))

find-lost : (name : String) (g g' : Globals) → Keeps g g' → find name g' ≡ none → find name g ≡ none
find-lost name g g' keeps free = elim (Option-cases (find name g)) [
  | inl e ↦ e
  | inr (x, found) ↦ let q = keeps name x found in cc
]

FunctionsImported-cons :
    (p_name digest f_name : String) (info : PackageInfo) (f : Function)
    (functions : List (String × Function)) (g g₁ g₂ : Globals) (a : ℕ)
    → info.digest ≡ some digest
    → find f_name g ≡ none
    → find f_name g₁ ≡ some (object (handle a (external_of p_name info digest f_name f)))
    → Keeps g g₁
    → Keeps g₁ g₂
    → FunctionsImported p_name info functions g₁ g₂
    → FunctionsImported p_name info ((f_name, f) ∷ functions) g g₂
FunctionsImported-cons p_name digest f_name info f functions g g₁ g₂ a d free found k k' rest n m
      here =
    (free, digest, d, a, k' f_name _ found)
FunctionsImported-cons p_name digest f_name info f functions g g₁ g₂ a d free found k k' rest n m
      (there i) =
    let (free', digest', d', a', found') = rest n m i in
    (find-lost n g g₁ k free', digest', d', a', found')

import_function-ok :
    (p_name : String) (info : PackageInfo) (f_name : String) (f : Function) (r : Option String)
    (u w : Vm)
    → import_function p_name info f_name f r u ≡ (ok tt, w)
    → (find f_name u.globals ≡ none)
      × ((digest : String) × (r ≡ some digest)
          × (a : ℕ) × (find f_name w.globals
              ≡ some (object (handle a (external_of p_name info digest f_name f)))))
      × Keeps u.globals w.globals
import_function-ok p_name info f_name f none u w e = cc
import_function-ok p_name info f_name f (some digest) u w e =
    let what : String = "an external function call" in
    let o = external_of p_name info digest f_name f in
    let (h, v, made, rest) = continue-ok (heap_alloc what [] o u) _ tt w e in
    let (free, (a, found), keeps) =
      imported what o (duplicate_function_import p_name f_name) f_name u v w h made rest in
    (free, (digest, refl, a, found), keeps)

import_functions-ok :
    (p_name : String) (info : PackageInfo) (functions : List (String × Function)) (vm vm' : Vm)
    → import_functions p_name info functions vm ≡ (ok tt, vm')
    → FunctionsImported p_name info functions vm.globals vm'.globals × Keeps vm.globals vm'.globals
unfolding import_functions
import_functions-ok p_name info [] vm vm' e = (
  λ n m i. elim i [ ],
  subst (λ w. Keeps vm.globals w.globals) (ap (λ r. r.1) e) (λ k x found. found),
)
import_functions-ok p_name info ((f_name, f) ∷ functions) vm vm' e =
    let (_, u, one, rest) =
      continue-ok (import_function p_name info f_name f info.digest vm) _ tt vm' e in
    let (free, (digest, d, a, found), keeps) =
      import_function-ok p_name info f_name f info.digest vm u one in
    let (others, keeps') = import_functions-ok p_name info functions u vm' rest in
    (
      FunctionsImported-cons p_name digest f_name info f functions vm.globals u.globals vm'.globals
          a d free found keeps keeps' others,
      λ k x h. keeps' k x (keeps k x h),
    )

import_types-ok :
    (p_name : String) (types : List (String × PackageType)) (vm vm' : Vm)
    → import_types p_name types vm ≡ (ok tt, vm')
    → Keeps vm.globals vm'.globals
unfolding import_types
import_types-ok p_name [] vm vm' e =
    subst (λ w. Keeps vm.globals w.globals) (ap (λ r. r.1) e) (λ k x found. found)
import_types-ok p_name ((t_name, t) ∷ types) vm vm' e =
    let what = type_text t_name in
    let (h, u, made, e') = continue-ok (heap_alloc what [] (class t_name end) vm) _ tt vm' e in
    let (_, v, put_in, rest) =
      continue-ok (insert_new (duplicate_type_import p_name t_name) t_name h u) _ tt vm' e' in
    let (_, _, keeps) =
      imported what (class t_name end) (duplicate_type_import p_name t_name) t_name vm u v h made
        put_in in
    let keeps' = import_types-ok p_name types v vm' rest in
    λ k x found. keeps' k x (keeps k x found)

-- Where the functions and then the types of a package are imported without an error, each function
-- has become a global that was not there before and stands for the external function of that name,
-- with the package's digest, kind and version; and every global that was there is as it was.
pub import_package-ok :
    (p_name : String) (info : PackageInfo) (vm vm' : Vm)
    → import_package p_name info vm ≡ (ok tt, vm')
    → FunctionsImported p_name info info.functions vm.globals vm'.globals
      × Keeps vm.globals vm'.globals
unfolding import_package
import_package-ok p_name info vm vm' e =
    let (_, u, functions, types) =
      continue-ok (import_functions p_name info info.functions vm) _ tt vm' e in
    let (imports, keeps) = import_functions-ok p_name info info.functions vm u functions in
    let keeps' = import_types-ok p_name info.types u vm' types in
    (
      λ n f i.
          let (free, digest, d, a, found) = imports n f i in (free, digest, d, a, keeps' n _ found),
      λ k x h. keeps' k x (keeps k x h),
    )
