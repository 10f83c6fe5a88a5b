-- ===== src/Vm/Calls/Import.antt =====
-- `op_import` of brane-bvm/src/vm.rs. The package index is a field of the machine that no
-- instruction changes; it is a parameter here. What the debug messages answer is only logged.
use Prim.Native.String.{◌++◌ as cat}
use brane.Prelude.{Option, none, some, String, List, [], ◌∷◌, ok, err, if◌then◌else◌}
use brane.Prelude.Exec.{pure, raise, ◌>>=◌, ◌>>◌}
use brane.Packages
use brane.Packages.{PackageInfo, PackageIndex, Function, PackageType}
use brane.Vm.Slot.{Slot, Handle, handle, object, string, function_ext, class, end, object_data_type}
use brane.Vm.Convert.{value_type}
use brane.Vm.State.{
  VmError, Op, put, frame_const, heap_alloc, raise_with, illegal_import_error,
  undefined_import_error, package_without_digest, duplicate_function_import, duplicate_type_import,
}
use brane.Vm.Ops.Variables.{contains}

-- the string that a constant names a package with
abbrev pub package_name_of : Slot → Op String
package_name_of (object (handle _ (string p_name))) = pure p_name
package_name_of (object (handle _ o)) = raise_with (object_data_type o) illegal_import_error
package_name_of s = raise_with (value_type s) illegal_import_error

-- a global that must not be there yet
abbrev pub insert_new : VmError → String → Handle → Op (Unit {0})
insert_new e name h vm =
    if contains name vm
    then (err e, vm)
    else (ok tt, record vm { globals = put name (object h) vm.globals })

-- a function of a package, with the package's digest
abbrev pub import_function :
    String → PackageInfo → String → Function → Option String → Op (Unit {0})
import_function p_name info f_name f none = raise (package_without_digest p_name f_name)
import_function p_name info f_name f (some digest) = do
  h ← heap_alloc "an external function call" [] (
      function_ext (record {
        name = f_name;
        detached = info.detached;
        digest = digest;
        package_name = p_name;
        kind = info.kind;
        version = info.version;
        parameters = f.parameters;
      }))
  insert_new (duplicate_function_import p_name f_name) f_name h

unfoldable pub import_functions : String → PackageInfo → List (String × Function) → Op (Unit {0})
import_functions p_name info [] = pure tt
import_functions p_name info ((f_name, f) ∷ functions) = do
  import_function p_name info f_name f info.digest
  import_functions p_name info functions

abbrev pub type_text : String → String
type_text t_name = cat "Class '" (cat t_name "'")

unfoldable pub import_types : String → List (String × PackageType) → Op (Unit {0})
import_types p_name [] = pure tt
import_types p_name ((t_name, _) ∷ types) = do
  h ← heap_alloc (type_text t_name) [] (class t_name end)
  insert_new (duplicate_type_import p_name t_name) t_name h
  import_types p_name types

-- the functions and then the types of a package
unfoldable pub import_package : String → PackageInfo → Op (Unit {0})
unfolding import_functions import_types
import_package p_name info = do
  import_functions p_name info info.functions
  import_types p_name info.types

unfoldable pub op_import : PackageIndex → Op (Unit {0})
unfolding Packages.get import_package
op_import index = do
  constant ← frame_const "a package identifier"
  p_name ← package_name_of constant
  elim (Packages.get index p_name none) [
    | none ↦ raise (undefined_import_error p_name)
    | some info ↦ import_package p_name info
  ]
