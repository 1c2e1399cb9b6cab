-- ===== src/Vm/Regular.antt =====
-- svm/vm.c, `vmCall`: the loop without the debugger, whose guards and whose test of native methods
-- are compiled for SCODE_DEBUG only; and how a run is started and resumed.
pub mod Laws
use sedona_vm_debug.Base.{
  ℕ, zero, suc, ◌+◌, Bool, true, ◌==◌, [], ◌∷◌, Option, none, some, if◌then◌else◌,
}
use sedona_vm_debug.Memory.{Outcome, done, undefined, ◌>>=◌}
use sedona_vm_debug.Vm.Word.{update, load_u8, load_u16, with_ival}
use sedona_vm_debug.Vm.Opcode.{Opcode, decode}
use sedona_vm_debug.Vm.Machine.{Vm, Step, running, returned}
use sedona_vm_debug.Vm.Exec.Arith.{Fpu}
use sedona_vm_debug.Vm.Exec.Calls.{Natives}
use sedona_vm_debug.Vm.Exec.Misc.{err_unknown_opcode}
use sedona_vm_debug.Vm.Loop.{exec, guarded}
use sedona_vm_debug.Vm.Init.{vm_init, vm_call}

-- The table of native methods as a build without SCODE_DEBUG calls them, without a test.
abbrev pub unchecked : Natives → Natives
unchecked natives = record natives { is_valid = λ kit method. true }

-- The switch, whose cases are those of `vmCallDebug`.
unfoldable pub exec_regular : Bool → Natives → Fpu → Opcode → Vm → Outcome Step
exec_regular scode_debug natives fpu op vm =
    exec (if scode_debug then natives else unchecked natives) fpu op vm

-- The guards before it.
unfoldable pub guarded_regular : Bool → Natives → Fpu → ℕ → Opcode → Vm → Outcome Step
guarded_regular scode_debug natives fpu max_stack op vm =
    if scode_debug
    then guarded natives fpu max_stack op vm
    else exec_regular scode_debug natives fpu op vm

-- A byte past the opcodes: the guards read past their table; without them the default case ends
-- the loop.
abbrev pub regular_byte : Bool → Natives → Fpu → ℕ → Option Opcode → Vm → Outcome Step
regular_byte scode_debug natives fpu max_stack none vm =
    if scode_debug then undefined else done (returned err_unknown_opcode vm)
regular_byte scode_debug natives fpu max_stack (some op) vm =
    guarded_regular scode_debug natives fpu max_stack op vm

unfoldable pub step_regular : Bool → Natives → Fpu → ℕ → Vm → Outcome Step
step_regular scode_debug natives fpu max_stack vm =
    regular_byte scode_debug natives fpu max_stack (decode (load_u8 vm.memory vm.cp)) vm

unfoldable pub run_regular : Bool → Natives → Fpu → ℕ → ℕ → Step → Outcome Step
run_regular scode_debug natives fpu max_stack zero s = done s
run_regular scode_debug natives fpu max_stack (suc n) (running vm) =
    step_regular scode_debug natives fpu max_stack vm
    >>= run_regular scode_debug natives fpu max_stack n
run_regular scode_debug natives fpu max_stack (suc n) (returned v vm) = done (returned v vm)

-- `vmEntry` up to the loop: `stack` is the cell at the base of the stack, `args` and `args_len` the
-- arguments of the process, and `arg` what the second cell of the array holds.
unfoldable pub vm_entry : ℕ → ℕ → ℕ → ℕ → ℕ → Vm → Step
vm_entry stack args args_len arg method_offset vm =
    let main_bix = load_u16 vm.memory (vm.cb + method_offset) in
    vm_call main_bix (args ∷ with_ival arg args_len ∷ []) (record vm {
      sp = stack;
      stack = update vm.stack stack (with_ival (vm.stack stack) 0xffffffff);
    })

abbrev pub enter_inited : (Vm → Step) → Step → Step
enter_inited entry (running vm) = running vm
enter_inited entry (returned result vm) = if result == 0 then entry vm else returned result vm

unfoldable pub vm_run : (ℕ → Option ℕ) → ℕ → ℕ → ℕ → ℕ → ℕ → Vm → Step
vm_run malloc code_size stack args args_len arg vm =
    enter_inited (vm_entry stack args args_len arg 16) (vm_init malloc code_size vm)

unfoldable pub vm_resume_method : ℕ → ℕ → ℕ → ℕ → Vm → Step
vm_resume_method stack args args_len arg vm = vm_entry stack args args_len arg 24 vm
