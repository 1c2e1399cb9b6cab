-- ===== src/Vm/Exec/Values.antt =====
-- svm/vm.c, `vmCallDebug`: literals, parameters, locals and stack manipulation.
pub mod Laws
use sedona_vm_debug.Base.{ℕ, ◌+◌, ◌-◌, ◌^◌, Option, none, some}
use sedona_vm_debug.Memory.{Outcome}
use sedona_vm_debug.Vm.Word.{update, load_u32, load_u64}
use sedona_vm_debug.Vm.Opcode.{Opcode}
use sedona_vm_debug.Vm.Machine.{
  Vm, Step, block2addr, u1_arg, u2_arg, push_ival, push_cell, push_wide, next,
}

abbrev pub null_float : ℕ
null_float = 0x7fc00000

abbrev pub null_double : ℕ
null_double = 0x7ff8000000000000

-- The patterns of 1.0f and 1.0.
abbrev pub one_float : ℕ
one_float = 0x3f800000

abbrev pub one_double : ℕ
one_double = 0x3ff0000000000000

-- The address of the block that the argument numbers.
abbrev pub block_arg : Vm → ℕ
block_arg vm = block2addr vm.cb (u2_arg vm)

unfoldable pub exec_literals : Opcode → Vm → Option (Outcome Step)
exec_literals Opcode.nop vm = some (next 1 vm)
exec_literals Opcode.load_im1 vm = some (next 1 (push_ival (2 ^ 32 - 1) vm))
exec_literals Opcode.load_null vm = some (next 1 (push_ival 0 vm))
exec_literals Opcode.load_i0 vm = some (next 1 (push_ival 0 vm))
exec_literals Opcode.load_i1 vm = some (next 1 (push_ival 1 vm))
exec_literals Opcode.load_null_bool vm = some (next 1 (push_ival 2 vm))
exec_literals Opcode.load_i2 vm = some (next 1 (push_ival 2 vm))
exec_literals Opcode.load_i3 vm = some (next 1 (push_ival 3 vm))
exec_literals Opcode.load_i4 vm = some (next 1 (push_ival 4 vm))
exec_literals Opcode.load_i5 vm = some (next 1 (push_ival 5 vm))
exec_literals Opcode.load_int_u1 vm = some (next 2 (push_ival (u1_arg vm) vm))
exec_literals Opcode.load_int_u2 vm = some (next 3 (push_ival (u2_arg vm) vm))
exec_literals Opcode.load_l0 vm = some (next 1 (push_wide 0 vm))
exec_literals Opcode.load_l1 vm = some (next 1 (push_wide 1 vm))
exec_literals Opcode.load_f0 vm = some (next 1 (push_ival 0 vm))
exec_literals Opcode.load_f1 vm = some (next 1 (push_ival one_float vm))
exec_literals Opcode.load_null_float vm = some (next 1 (push_ival null_float vm))
exec_literals Opcode.load_null_double vm = some (next 1 (push_wide null_double vm))
exec_literals Opcode.load_d0 vm = some (next 1 (push_wide 0 vm))
exec_literals Opcode.load_d1 vm = some (next 1 (push_wide one_double vm))
exec_literals Opcode.load_int vm = some (next 3 (push_ival (load_u32 vm.memory (block_arg vm)) vm))
exec_literals Opcode.load_float vm =
    some (next 3 (push_ival (load_u32 vm.memory (block_arg vm)) vm))
exec_literals Opcode.load_long vm = some (next 3 (push_wide (load_u64 vm.memory (block_arg vm)) vm))
exec_literals Opcode.load_double vm =
    some (next 3 (push_wide (load_u64 vm.memory (block_arg vm)) vm))
exec_literals Opcode.load_str vm = some (next 3 (push_cell (block_arg vm) vm))
exec_literals Opcode.load_buf vm = some (next 3 (push_cell (block_arg vm) vm))
exec_literals Opcode.load_type vm = some (next 3 (push_cell (block_arg vm) vm))
exec_literals Opcode.load_slot vm = some (next 3 (push_cell (block_arg vm) vm))
exec_literals _ vm = none

-- `*cell = *sp--`, and for a wide value.
abbrev pub store_cell : ℕ → Vm → Vm
store_cell index vm = record vm { sp = vm.sp - 1; stack = update vm.stack index (vm.stack vm.sp) }

abbrev pub store_wide : ℕ → Vm → Vm
store_wide index vm = record vm {
  sp = vm.sp - 2;
  stack = update vm.stack index (vm.stack (vm.sp - 1));
}

unfoldable pub exec_params : Opcode → Vm → Option (Outcome Step)
exec_params Opcode.load_param0 vm = some (next 1 (push_cell (vm.stack vm.pp) vm))
exec_params Opcode.load_param1 vm = some (next 1 (push_cell (vm.stack (vm.pp + 1)) vm))
exec_params Opcode.load_param2 vm = some (next 1 (push_cell (vm.stack (vm.pp + 2)) vm))
exec_params Opcode.load_param3 vm = some (next 1 (push_cell (vm.stack (vm.pp + 3)) vm))
exec_params Opcode.load_param vm = some (next 2 (push_cell (vm.stack (vm.pp + u1_arg vm)) vm))
exec_params Opcode.load_param_wide vm = some (next 2 (push_wide (vm.stack (vm.pp + u1_arg vm)) vm))
exec_params Opcode.store_param vm = some (next 2 (store_cell (vm.pp + u1_arg vm) vm))
exec_params Opcode.store_param_wide vm = some (next 2 (store_wide (vm.pp + u1_arg vm) vm))
exec_params _ vm = none

unfoldable pub exec_locals : Opcode → Vm → Option (Outcome Step)
exec_locals Opcode.load_local0 vm = some (next 1 (push_cell (vm.stack vm.lp) vm))
exec_locals Opcode.load_local1 vm = some (next 1 (push_cell (vm.stack (vm.lp + 1)) vm))
exec_locals Opcode.load_local2 vm = some (next 1 (push_cell (vm.stack (vm.lp + 2)) vm))
exec_locals Opcode.load_local3 vm = some (next 1 (push_cell (vm.stack (vm.lp + 3)) vm))
exec_locals Opcode.load_local4 vm = some (next 1 (push_cell (vm.stack (vm.lp + 4)) vm))
exec_locals Opcode.load_local5 vm = some (next 1 (push_cell (vm.stack (vm.lp + 5)) vm))
exec_locals Opcode.load_local6 vm = some (next 1 (push_cell (vm.stack (vm.lp + 6)) vm))
exec_locals Opcode.load_local7 vm = some (next 1 (push_cell (vm.stack (vm.lp + 7)) vm))
exec_locals Opcode.load_local vm = some (next 2 (push_cell (vm.stack (vm.lp + u1_arg vm)) vm))
exec_locals Opcode.load_local_wide vm = some (next 2 (push_wide (vm.stack (vm.lp + u1_arg vm)) vm))
exec_locals Opcode.store_local0 vm = some (next 1 (store_cell vm.lp vm))
exec_locals Opcode.store_local1 vm = some (next 1 (store_cell (vm.lp + 1) vm))
exec_locals Opcode.store_local2 vm = some (next 1 (store_cell (vm.lp + 2) vm))
exec_locals Opcode.store_local3 vm = some (next 1 (store_cell (vm.lp + 3) vm))
exec_locals Opcode.store_local4 vm = some (next 1 (store_cell (vm.lp + 4) vm))
exec_locals Opcode.store_local5 vm = some (next 1 (store_cell (vm.lp + 5) vm))
exec_locals Opcode.store_local6 vm = some (next 1 (store_cell (vm.lp + 6) vm))
exec_locals Opcode.store_local7 vm = some (next 1 (store_cell (vm.lp + 7) vm))
exec_locals Opcode.store_local vm = some (next 2 (store_cell (vm.lp + u1_arg vm) vm))
exec_locals Opcode.store_local_wide vm = some (next 2 (store_wide (vm.lp + u1_arg vm) vm))
exec_locals _ vm = none

-- `++sp` by `n`, then `sp[-to] = sp[-from]`.
abbrev grow : ℕ → Vm → Vm
grow n vm = record vm { sp = vm.sp + n }

abbrev copy : ℕ → ℕ → Vm → Vm
copy to from vm = record vm { stack = update vm.stack (vm.sp - to) (vm.stack (vm.sp - from)) }

unfoldable pub exec_stack : Opcode → Vm → Option (Outcome Step)
exec_stack Opcode.dup vm = some (next 1 (copy 0 1 (grow 1 vm)))
exec_stack Opcode.dup2 vm = some (next 1 (copy 1 3 (copy 0 2 (grow 2 vm))))
exec_stack Opcode.dup_down2 vm = some (next 1 (copy 2 0 (copy 1 2 (copy 0 1 (grow 1 vm)))))
exec_stack Opcode.dup_down3 vm =
    some (next 1 (copy 3 0 (copy 2 3 (copy 1 2 (copy 0 1 (grow 1 vm))))))
exec_stack Opcode.dup2_down2 vm =
    some (next 1 (copy 4 1 (copy 3 0 (copy 2 4 (copy 1 3 (copy 0 2 (grow 2 vm)))))))
exec_stack Opcode.dup2_down3 vm =
    some (next 1 (copy 5 1 (copy 4 0 (copy 3 5 (copy 2 4 (copy 1 3 (copy 0 2 (grow 2 vm))))))))
exec_stack Opcode.pop vm = some (next 1 (record vm { sp = vm.sp - 1 }))
exec_stack Opcode.pop2 vm = some (next 1 (record vm { sp = vm.sp - 2 }))
exec_stack Opcode.pop3 vm = some (next 1 (record vm { sp = vm.sp - 3 }))
exec_stack _ vm = none
