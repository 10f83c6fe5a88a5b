-- ===== src/Dsl/Run/Start.antt =====
-- The start of a function by `main` of brane-bvm/src/vm.rs on a machine at rest.
use brane.Prelude.{
  ℕ, ◌≡◌, refl, sym, ap, subst, ◌∙◌, true, String, List, [], ◌∷◌, Outcome, ok, err, panic,
}
use brane.Prelude.Exec.{continue, lift, ◌>>◌}
use brane.Value.{spec_function}
use brane.Bytecode.Chunk.{ChunkMut}
use brane.Vm.Slot.{Slot, Slots, Handle, handle, object, function, to_list}
use brane.Vm.Stack
use brane.Vm.Frames
use brane.Vm.State.{Vm, with_stack, Op, wrap_err, heap_alloc, client_tx_error, heap_freeze_error}
use brane.Vm.Calls.Freeze.{freeze_function}
use brane.Vm.Calls.Call.{call, push_frame}
use brane.Vm.Calls.Main.{Outside, start}
use brane.Dsl.Correct.Chunks.{Loaded}
use brane.Dsl.Correct.Machine.{Frame, at}
use brane.Vm.Effects.{continue-ok, OnlyHeap-trans, alloc_object-ok, wrap_err-ok, heap_alloc-ok}
use brane.Dsl.Run.Frozen.{freeze_function-Loaded}

-- a machine with no frame and nothing on its stack
abbrev pub idle : Vm → Vm
idle vm = record vm { frames = []; stack = record { inner = []; use_const = true } }

-- the frame of a function that is alone on the stack
abbrev main_frame : ℕ → String → List ℕ → Slots → Vm → Frame
main_frame a name code ss vm = record {
  address = a;
  name = name;
  arity = 0;
  code = code;
  constants = ss;
  stack_offset = 1;
  callers = [];
  vm = vm;
}

-- what the start does with a handle of the function
abbrev push_and_call : Outside → Handle → Op (Unit {0})
push_and_call o h = with_stack (Stack.push_object h) >> call o.executor 0

-- the frame is pushed where telling the client went well
told-ok :
    (f : Handle) (r : Outcome String (Unit {0})) (vm vm' : Vm)
    → continue (wrap_err client_tx_error (lift r) vm) (λ _. push_frame f 0) ≡ (ok tt, vm')
    → vm' ≡ (push_frame f 0 vm).1
unfolding Frames.new
told-ok f (ok _) vm vm' e = sym (ap (λ p. p.1) e)
told-ok f (err x) vm vm' e = cc
told-ok f panic vm vm' e = cc

call-main :
    (o : Outside) (a : ℕ) (name : String) (code : List ℕ) (ss : Slots) (vm vm' : Vm)
    → push_and_call o (handle a (function name 0 code ss)) (idle vm) ≡ (ok tt, vm')
    → vm' ≡ at (main_frame a name code ss vm) 0 (object (handle a (function name 0 code ss)) ∷ [])
unfolding call Stack.push_object Frames.new
call-main o a name code ss vm vm' e =
    told-ok (handle a (function name 0 code ss)) o.executor.debug _ vm' e

-- After a start the machine stands at the beginning of the function, frozen, which lies alone on
-- the stack; and the machine is as it was but for its heap.
pub record Started (c : ChunkMut) (vm vm' : Vm) : Type 0 where
  pub frame : Frame
  pub function_slot : Slot
  pub is_at : vm' ≡ at frame 0 (function_slot ∷ [])
  pub code : frame.code ≡ c.code
  pub loaded : Loaded frame.code (to_list frame.constants) c
  pub callers : frame.callers ≡ []
  pub offset : frame.stack_offset ≡ 1
  pub globals : frame.vm.globals ≡ vm.globals
  pub options : frame.vm.options ≡ vm.options

pub start-Started :
    (o : Outside) (name : String) (c : ChunkMut) (vm vm' : Vm)
    → start o (spec_function 0 name c.code c.constants) (idle vm) ≡ (ok tt, vm')
    → Started c vm vm'
unfolding start
start-Started o name c vm vm' e =
    let f = spec_function 0 name c.code c.constants in
    let (ff, t, e₁, e') =
      continue-ok
        (wrap_err (heap_freeze_error "the main function") (freeze_function [] f) (idle vm)) _ tt vm'
        e in
    let frozen =
      wrap_err-ok (heap_freeze_error "the main function") (freeze_function [] f (idle vm)) ff t
        e₁ in
    let (ss, is, loaded, only) = freeze_function-Loaded [] 0 name c (idle vm) t ff frozen in
    let (h, u, e₂, e'') = continue-ok (heap_alloc "the main function" [] ff t) _ tt vm' e' in
    let ((a, at_a), only') =
      alloc_object-ok [] ff t u h (heap_alloc-ok "the main function" [] ff t u h e₂) in
    let same : h ≡ handle a (function name 0 c.code ss) = at_a ∙ ap (handle a) is in
    let rest : u ≡ idle (record vm { heap = u.heap }) = OnlyHeap-trans (idle vm) t u only only' in
    let called : push_and_call o (handle a (function name 0 c.code ss))
          (idle (record vm { heap = u.heap }))
        ≡ (ok tt, vm') =
      subst (λ k. push_and_call o k (idle (record vm { heap = u.heap })) ≡ (ok tt, vm')) same
        (subst (λ w. push_and_call o h w ≡ (ok tt, vm')) rest e'') in
    record {
      frame = main_frame a name c.code ss (record vm { heap = u.heap });
      function_slot = object (handle a (function name 0 c.code ss));
      is_at = call-main o a name c.code ss (record vm { heap = u.heap }) vm' called;
      code = refl;
      loaded = loaded;
      callers = refl;
      offset = refl;
      globals = refl;
      options = refl;
    }
