-- ===== src/Vm/Loop/Laws.antt =====
-- svm/vm.c: what the guards of the loop keep from an instruction.
use sedona_vm_debug.Base.{ℕ, ◌<◌, ◌≡◌, true, false, arith, leb, Bool-cases, inl, inr}
use sedona_vm_debug.Memory.{Outcome, done}
use sedona_vm_debug.Vm.Opcode.{Opcode, pointer_offset}
use sedona_vm_debug.Vm.Machine.{Vm, Step, returned}
use sedona_vm_debug.Vm.Exec.Arith.{Fpu}
use sedona_vm_debug.Vm.Exec.Calls.{Natives}
use sedona_vm_debug.Vm.Loop.{exec, guarded, is_null_at, err_null_pointer, err_stack_overflow}

-- What the guards make of an instruction: an error with the machine as it was, or the instruction,
-- with a pointer that is not null and a stack below its limit.
pub data Guards (natives : Natives) (fpu : Fpu) (max_stack : ℕ) (op : Opcode) (vm : Vm)
    : Outcome Step → Type 0 where
  null_pointer :
      is_null_at (pointer_offset op) vm ≡ true
      → Guards natives fpu max_stack op vm (done (returned err_null_pointer vm))
  stack_overflow :
      leb max_stack vm.sp ≡ true
      → Guards natives fpu max_stack op vm (done (returned err_stack_overflow vm))
  executed :
      is_null_at (pointer_offset op) vm ≡ false
      → vm.sp < max_stack
      → Guards natives fpu max_stack op vm (exec natives fpu op vm)

-- The guards before an instruction either let it run, with the pointer that the opcode takes not
-- null and the stack below its limit, or end the call with the error of a null pointer or of a full
-- stack, the machine unchanged.
pub guarded-Guards :
    (natives : Natives) (fpu : Fpu) (max_stack : ℕ) (op : Opcode) (vm : Vm)
    → Guards natives fpu max_stack op vm (guarded natives fpu max_stack op vm)
unfolding guarded
guarded-Guards natives fpu max_stack op vm = elim (Bool-cases (is_null_at (pointer_offset op) vm)) [
  | inl null ↦ rw null (null_pointer null)
  | inr there ↦ elim (Bool-cases (leb max_stack vm.sp)) [
    | inl full ↦ rw (there, full) (stack_overflow full)
    | inr room ↦ rw (there, room) (executed there (ground arith))
  ]
]
