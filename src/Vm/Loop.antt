-- ===== src/Vm/Loop.antt =====
-- svm/vm.c, `vmCallDebug`: one round of its loop, and the rounds of a run. The debugger's queue of
-- events (Jdwp.Events), which a round serves before the instruction, is not part of a round here.
pub mod Laws
use sedona_vm_debug.Base.{
  ℕ, zero, suc, ◌-◌, Bool, false, Option, none, some, ◌==◌, leb, if◌then◌else◌,
}
use sedona_vm_debug.Memory.{Outcome, done, undefined, ◌>>=◌}
use sedona_vm_debug.Vm.Word.{load_u8}
use sedona_vm_debug.Vm.Opcode.{Opcode, decode, pointer_offset}
use sedona_vm_debug.Vm.Machine.{Vm, Step, running, returned}
use sedona_vm_debug.Vm.Exec.Values.{exec_literals, exec_params, exec_locals, exec_stack}
use sedona_vm_debug.Vm.Exec.Arith.{Fpu, exec_int, exec_long, exec_float, exec_double, exec_casts}
use sedona_vm_debug.Vm.Exec.Jumps.{exec_near, exec_far, exec_int_near, exec_int_far, exec_switch}
use sedona_vm_debug.Vm.Exec.Storage.{
  exec_fields8, exec_fields16, exec_fields32, exec_fields64, exec_refs, exec_consts, exec_inline,
}
use sedona_vm_debug.Vm.Exec.Calls.{Natives, exec_calls, exec_returns}
use sedona_vm_debug.Vm.Exec.Misc.{exec_misc, err_unknown_opcode}

-- The first group that has the opcode.
infixr 4 ◌or_else◌
abbrev pub ◌or_else◌ : Option (Outcome Step) → Option (Outcome Step) → Option (Outcome Step)
none or_else q = q
some s or_else q = some s

abbrev pub default_case : Vm → Option (Outcome Step) → Outcome Step
default_case vm none = done (returned err_unknown_opcode vm)
default_case vm (some s) = s

-- The switch.
unfoldable pub exec : Natives → Fpu → Opcode → Vm → Outcome Step
exec natives fpu op vm = default_case vm (
    exec_literals op vm
    or_else exec_params op vm
    or_else exec_locals op vm
    or_else exec_int op vm
    or_else exec_long op vm
    or_else exec_float fpu op vm
    or_else exec_double fpu op vm
    or_else exec_casts fpu op vm
    or_else exec_stack op vm
    or_else exec_near op vm
    or_else exec_far op vm
    or_else exec_int_near op vm
    or_else exec_int_far op vm
    or_else exec_inline op vm
    or_else exec_fields8 op vm
    or_else exec_fields16 op vm
    or_else exec_fields32 op vm
    or_else exec_fields64 op vm
    or_else exec_refs op vm
    or_else exec_consts op vm
    or_else exec_calls natives op vm
    or_else exec_returns op vm
    or_else exec_misc op vm
    or_else exec_switch op vm)

abbrev pub err_null_pointer : ℕ
err_null_pointer = 100

abbrev pub err_stack_overflow : ℕ
err_stack_overflow = 101

-- `((sp-offset)->aval) == NULL`, for an opcode that takes a pointer.
abbrev pub is_null_at : Option ℕ → Vm → Bool
is_null_at none vm = false
is_null_at (some offset) vm = vm.stack (vm.sp - offset) == 0

unfoldable pub guarded : Natives → Fpu → ℕ → Opcode → Vm → Outcome Step
guarded natives fpu max_stack op vm =
    if is_null_at (pointer_offset op) vm
    then done (returned err_null_pointer vm)
    else if leb max_stack vm.sp
    then done (returned err_stack_overflow vm)
    else exec natives fpu op vm

-- A byte past the opcodes reads past the end of `OpcodePointerOffsets`.
abbrev pub guarded_byte : Natives → Fpu → ℕ → Option Opcode → Vm → Outcome Step
guarded_byte natives fpu max_stack none vm = undefined
guarded_byte natives fpu max_stack (some op) vm = guarded natives fpu max_stack op vm

unfoldable pub step : Natives → Fpu → ℕ → Vm → Outcome Step
step natives fpu max_stack vm =
    guarded_byte natives fpu max_stack (decode (load_u8 vm.memory vm.cp)) vm

-- The loop, for a number of rounds: `running` when they are used up.
unfoldable pub run : Natives → Fpu → ℕ → ℕ → Step → Outcome Step
run natives fpu max_stack zero s = done s
run natives fpu max_stack (suc n) (running vm) =
    step natives fpu max_stack vm >>= run natives fpu max_stack n
run natives fpu max_stack (suc n) (returned v vm) = done (returned v vm)
