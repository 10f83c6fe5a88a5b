-- ===== src/Vm/Tests.antt =====
-- The theorems of the machine and of its byte code at concrete stacks and machines.
use brane.Packages.{PackageInfo, end}
use brane.Value.{ecu}
use brane.Heap.{alloc, settle, collect, strong_count, refs_of, pending_refs, reclaim}
use brane.Vm.State.{alloc_object, heap_alloc, held, find, put}
use brane.Vm.Slot.{object_refs}
use brane.Vm.Calls.Import.{import_package}
use brane.Vm.Imports.{Keeps, FunctionsImported, import_package-ok}
use brane.Prelude.{◌≡◌, ◌↔◌, refl, true, false, none, some, [], ◌∷◌, ok, err, arith}
use brane.Prelude.Int.{pos, negsuc}
use brane.Vm.Slot.{Object, integer, handle, string, true', unit}
use brane.Vm.Stack
use brane.Vm.Stack.{Stack, not_using_const_opts}
use brane.Vm.Stack.Laws.{
  pop-push_integer, pop_integer-push_integer, pop_boolean-push_boolean, copy_pop-push,
}
use brane.Vm.Frames.{CallFrame}
use brane.Vm.State.{Vm}
use brane.Vm.Ops.Control.{op_return}
use brane.Vm.Ops.Objects.{new_array}
use brane.Vm.Ops.Returns.{op_return-caller}
use brane.Vm.Ops.Arrays.{AllUnit, new_array-AllUnit}

abbrev two_slots : Stack
two_slots = record { inner = true' ∷ integer (pos 7) ∷ []; use_const = true }

abbrev plain_stack : Stack
plain_stack = record { inner = true' ∷ []; use_const = false }

pop-push_integer_example :
    Stack.pop (Stack.push_integer (negsuc 1) two_slots) ≡ (ok (integer (negsuc 1)), two_slots)
pop-push_integer_example = pop-push_integer (negsuc 1) two_slots

pop_integer-push_integer_example :
    Stack.pop_integer (Stack.push_integer (pos 5) plain_stack)
    ≡ (err (not_using_const_opts (integer (pos 5))), plain_stack)
pop_integer-push_integer_example = pop_integer-push_integer (pos 5) plain_stack

pop_boolean-push_boolean_example :
    Stack.pop_boolean (Stack.push_boolean true two_slots) ≡ (ok true, two_slots)
pop_boolean-push_boolean_example = pop_boolean-push_boolean true two_slots

copy_pop-push_example :
    Stack.copy_pop 1 (Stack.push unit two_slots)
    ≡ (ok tt, record { inner = true' ∷ unit ∷ []; use_const = true })
copy_pop-push_example = copy_pop-push unit two_slots 1 (omega arith)

abbrev caller : CallFrame
caller = record { function = handle 0 (string ""); ip = 4; stack_offset = 0 }

abbrev frame : CallFrame
frame = record { function = handle 1 (string ""); ip = 9; stack_offset = 1 }

abbrev machine : Vm
machine = record {
  frames = [];
  globals = [];
  heap = record { cells = []; max_size = 8; next = 2 };
  locations = [];
  options = record { clear_after_main = false; global_return_halts = false };
  stack = two_slots;
}

op_return-caller_example :
    op_return (record machine {
      frames = frame ∷ caller ∷ [];
      stack = record {
        inner = true' ∷ unit ∷ integer (pos 3) ∷ integer (pos 4) ∷ [];
        use_const = true;
      };
    })
    ≡ (
      ok tt,
      record machine {
        frames = caller ∷ [];
        stack = record { inner = true' ∷ integer (pos 4) ∷ []; use_const = true };
      },
    )
op_return-caller_example =
    op_return-caller machine frame caller [] (true' ∷ []) (unit ∷ integer (pos 3) ∷ [])
      (integer (pos 4)) true refl

new_array-AllUnit_example :
    AllUnit (integer (pos 3) ∷ [])
    ↔ ((o : Object) × (vm' : Vm) × (new_array (integer (pos 3) ∷ []) machine ≡ (ok o, vm')))
new_array-AllUnit_example = new_array-AllUnit (integer (pos 3) ∷ []) machine

-- a package with a function and a type
abbrev hello : PackageInfo
hello = record {
  digest = some "sha256:0";
  name = "hello";
  version = record { major = 1; minor = 0; patch = 0 };
  kind = ecu;
  owners = [];
  description = "";
  detached = false;
  functions = ("greet", record { parameters = []; pattern' = none; return_type = "string" }) ∷ [];
  types = ("Greeting", record { name = "Greeting"; properties = end }) ∷ [];
}

abbrev imported : Vm
imported = (import_package "hello" hello machine).1

hello-imported : import_package "hello" hello machine ≡ (ok tt, imported)
unfolding import_package alloc_object heap_alloc held alloc settle collect strong_count refs_of
    pending_refs reclaim object_refs find put
hello-imported = refl

import_package-ok_example :
    FunctionsImported "hello" hello hello.functions machine.globals imported.globals
    × Keeps machine.globals imported.globals
import_package-ok_example = import_package-ok "hello" hello machine imported hello-imported
