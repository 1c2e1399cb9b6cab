-- ===== src/Vm/Exec/Jumps.antt =====
-- svm/vm.c, `vmCallDebug`: jumps, loops over arrays, and the switch.
pub mod Laws
use sedona_vm_debug.Base.{
  ℕ, ◌+◌, ◌-◌, ◌*◌, ◌^◌, ◌%◌, Bool, not, ◌||◌, Option, none, some, ◌==◌, leb, if◌then◌else◌,
}
use sedona_vm_debug.Memory.{Outcome, done}
use sedona_vm_debug.Vm.Word.{
  update, ival, with_ival, extend, signed_lt, signed_le, load_u16, to_u64, is_negative,
}
use sedona_vm_debug.Vm.Opcode.{Opcode}
use sedona_vm_debug.Vm.Machine.{Vm, Step, running, u1_arg, u2_arg, skip, push_ival, push_cell}

-- `cp += *(int8_t*)(cp+1)` and `cp += *(int16_t*)(cp+1)`.
abbrev pub near : Vm → Vm
near vm = skip (extend 8 (u1_arg vm)) vm

abbrev pub far : Vm → Vm
far vm = skip (extend 16 (u2_arg vm)) vm

-- A jump that is taken or passed over, and the cells that it pops in either case.
abbrev pub branch : ℕ → Bool → Vm → Vm → Vm
branch n taken there here = let vm = if taken then there else here in record vm { sp = vm.sp - n }

abbrev pub near_if : ℕ → Bool → Vm → Outcome Step
near_if n taken vm = done (running (branch n taken (near vm) (skip 2 vm)))

abbrev pub far_if : ℕ → Bool → Vm → Outcome Step
far_if n taken vm = done (running (branch n taken (far vm) (skip 3 vm)))

-- The counter on the top goes up by one, as an `int`.
abbrev pub counted : Vm → Vm
counted vm = record vm {
  stack = update vm.stack vm.sp (with_ival (vm.stack vm.sp) (ival (vm.stack vm.sp) + 1));
}

-- Past the length under the counter the loop ends; otherwise array and counter are pushed.
abbrev pub each : (Vm → Vm) → (Vm → Vm) → Vm → Outcome Step
each there here vm =
    let vm = counted vm in
    done (
      running (
        if signed_le 32 (ival (vm.stack (vm.sp - 1))) (ival (vm.stack vm.sp))
        then there vm
        else (let pushed = push_cell (vm.stack (vm.sp - 2)) vm in
            here (push_ival (ival (pushed.stack (pushed.sp - 1))) pushed))))

-- The operands of a comparing jump.
abbrev pub left : Vm → ℕ
left vm = ival (vm.stack (vm.sp - 1))

abbrev pub right : Vm → ℕ
right vm = ival (vm.stack vm.sp)

unfoldable pub exec_near : Opcode → Vm → Option (Outcome Step)
exec_near Opcode.jump vm = some (done (running (near vm)))
exec_near Opcode.jump_zero vm = some (near_if 1 (right vm == 0) vm)
exec_near Opcode.jump_non_zero vm = some (near_if 1 (not (right vm == 0)) vm)
exec_near Opcode.foreach vm = some (each near (skip 2) vm)
exec_near _ vm = none

unfoldable pub exec_far : Opcode → Vm → Option (Outcome Step)
exec_far Opcode.jump_far vm = some (done (running (far vm)))
exec_far Opcode.jump_far_zero vm = some (far_if 1 (right vm == 0) vm)
exec_far Opcode.jump_far_non_zero vm = some (far_if 1 (not (right vm == 0)) vm)
exec_far Opcode.foreach_far vm = some (each far (skip 3) vm)
exec_far _ vm = none

unfoldable pub exec_int_near : Opcode → Vm → Option (Outcome Step)
exec_int_near Opcode.jump_int_eq vm = some (near_if 2 (left vm == right vm) vm)
exec_int_near Opcode.jump_int_not_eq vm = some (near_if 2 (not (left vm == right vm)) vm)
exec_int_near Opcode.jump_int_gt vm = some (near_if 2 (signed_lt 32 (right vm) (left vm)) vm)
exec_int_near Opcode.jump_int_gt_eq vm = some (near_if 2 (signed_le 32 (right vm) (left vm)) vm)
exec_int_near Opcode.jump_int_lt vm = some (near_if 2 (signed_lt 32 (left vm) (right vm)) vm)
exec_int_near Opcode.jump_int_lt_eq vm = some (near_if 2 (signed_le 32 (left vm) (right vm)) vm)
exec_int_near _ vm = none

unfoldable pub exec_int_far : Opcode → Vm → Option (Outcome Step)
exec_int_far Opcode.jump_far_int_eq vm = some (far_if 2 (left vm == right vm) vm)
exec_int_far Opcode.jump_far_int_not_eq vm = some (far_if 2 (not (left vm == right vm)) vm)
exec_int_far Opcode.jump_far_int_gt vm = some (far_if 2 (signed_lt 32 (right vm) (left vm)) vm)
exec_int_far Opcode.jump_far_int_gt_eq vm = some (far_if 2 (signed_le 32 (right vm) (left vm)) vm)
exec_int_far Opcode.jump_far_int_lt vm = some (far_if 2 (signed_lt 32 (left vm) (right vm)) vm)
exec_int_far Opcode.jump_far_int_lt_eq vm = some (far_if 2 (signed_le 32 (left vm) (right vm)) vm)
exec_int_far _ vm = none

-- A value outside of the jump table passes over it.
unfoldable pub exec_switch : Opcode → Vm → Option (Outcome Step)
exec_switch Opcode.switch vm =
    let num = u2_arg vm in
    let cond = right vm in
    let outside = signed_le 32 num cond || is_negative 32 cond in
    let there = skip (3 + num * 2) vm in
    let here = skip (extend 16 (load_u16 vm.memory (vm.cp + 3 + cond * 2))) vm in
    some (done (running (branch 1 outside there here)))
exec_switch _ vm = none
