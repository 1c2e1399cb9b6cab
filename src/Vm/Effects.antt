-- ===== src/Vm/Effects.antt =====
-- svm/scode.h: what the instructions without a jump or a call take from the stack and leave there.
pub mod Cases
pub mod Faults
pub mod Laws
use sedona_vm_debug.Base.{ℕ, ◌+◌, ◌-◌, List, [], ◌∷◌, Option, none, some, leb, if◌then◌else◌}
use sedona_vm_debug.Memory.{Outcome, done, ◌>>=◌}
use sedona_vm_debug.Vm.Opcode.{Opcode}
use sedona_vm_debug.Vm.Machine.{Vm, Step, running, returned}
use sedona_vm_debug.Vm.Exec.Arith.{Fpu}
use sedona_vm_debug.Vm.Exec.Calls.{Natives}
use sedona_vm_debug.Vm.Loop.{exec}

-- The cells that are popped, and those that are pushed.
unfoldable pub effect : Opcode → Option (ℕ × ℕ)
effect Opcode.nop = some (0, 0)
effect Opcode.load_im1 = some (0, 1)
effect Opcode.load_null = some (0, 1)
effect Opcode.load_i0 = some (0, 1)
effect Opcode.load_i1 = some (0, 1)
effect Opcode.load_null_bool = some (0, 1)
effect Opcode.load_i2 = some (0, 1)
effect Opcode.load_i3 = some (0, 1)
effect Opcode.load_i4 = some (0, 1)
effect Opcode.load_i5 = some (0, 1)
effect Opcode.load_int_u1 = some (0, 1)
effect Opcode.load_int_u2 = some (0, 1)
effect Opcode.load_l0 = some (0, 2)
effect Opcode.load_l1 = some (0, 2)
effect Opcode.load_f0 = some (0, 1)
effect Opcode.load_f1 = some (0, 1)
effect Opcode.load_null_float = some (0, 1)
effect Opcode.load_null_double = some (0, 2)
effect Opcode.load_d0 = some (0, 2)
effect Opcode.load_d1 = some (0, 2)
effect Opcode.load_int = some (0, 1)
effect Opcode.load_float = some (0, 1)
effect Opcode.load_long = some (0, 2)
effect Opcode.load_double = some (0, 2)
effect Opcode.load_str = some (0, 1)
effect Opcode.load_buf = some (0, 1)
effect Opcode.load_type = some (0, 1)
effect Opcode.load_slot = some (0, 1)
effect Opcode.load_param0 = some (0, 1)
effect Opcode.load_param1 = some (0, 1)
effect Opcode.load_param2 = some (0, 1)
effect Opcode.load_param3 = some (0, 1)
effect Opcode.load_param = some (0, 1)
effect Opcode.load_param_wide = some (0, 2)
effect Opcode.store_param = some (1, 0)
effect Opcode.store_param_wide = some (2, 0)
effect Opcode.load_local0 = some (0, 1)
effect Opcode.load_local1 = some (0, 1)
effect Opcode.load_local2 = some (0, 1)
effect Opcode.load_local3 = some (0, 1)
effect Opcode.load_local4 = some (0, 1)
effect Opcode.load_local5 = some (0, 1)
effect Opcode.load_local6 = some (0, 1)
effect Opcode.load_local7 = some (0, 1)
effect Opcode.load_local = some (0, 1)
effect Opcode.load_local_wide = some (0, 2)
effect Opcode.store_local0 = some (1, 0)
effect Opcode.store_local1 = some (1, 0)
effect Opcode.store_local2 = some (1, 0)
effect Opcode.store_local3 = some (1, 0)
effect Opcode.store_local4 = some (1, 0)
effect Opcode.store_local5 = some (1, 0)
effect Opcode.store_local6 = some (1, 0)
effect Opcode.store_local7 = some (1, 0)
effect Opcode.store_local = some (1, 0)
effect Opcode.store_local_wide = some (2, 0)
effect Opcode.dup = some (1, 2)
effect Opcode.dup2 = some (2, 4)
effect Opcode.dup_down2 = some (2, 3)
effect Opcode.dup_down3 = some (3, 4)
effect Opcode.dup2_down2 = some (3, 5)
effect Opcode.dup2_down3 = some (4, 6)
effect Opcode.pop = some (1, 0)
effect Opcode.pop2 = some (2, 0)
effect Opcode.pop3 = some (3, 0)
effect Opcode.int_eq = some (2, 1)
effect Opcode.int_not_eq = some (2, 1)
effect Opcode.int_gt = some (2, 1)
effect Opcode.int_gt_eq = some (2, 1)
effect Opcode.int_lt = some (2, 1)
effect Opcode.int_lt_eq = some (2, 1)
effect Opcode.int_mul = some (2, 1)
effect Opcode.int_div = some (2, 1)
effect Opcode.int_mod = some (2, 1)
effect Opcode.int_add = some (2, 1)
effect Opcode.int_sub = some (2, 1)
effect Opcode.int_or = some (2, 1)
effect Opcode.int_xor = some (2, 1)
effect Opcode.int_and = some (2, 1)
effect Opcode.int_not = some (1, 1)
effect Opcode.int_neg = some (1, 1)
effect Opcode.int_shift_l = some (2, 1)
effect Opcode.int_shift_r = some (2, 1)
effect Opcode.int_inc = some (1, 1)
effect Opcode.int_dec = some (1, 1)
effect Opcode.long_eq = some (4, 1)
effect Opcode.long_not_eq = some (4, 1)
effect Opcode.long_gt = some (4, 1)
effect Opcode.long_gt_eq = some (4, 1)
effect Opcode.long_lt = some (4, 1)
effect Opcode.long_lt_eq = some (4, 1)
effect Opcode.long_mul = some (4, 2)
effect Opcode.long_div = some (4, 2)
effect Opcode.long_mod = some (4, 2)
effect Opcode.long_add = some (4, 2)
effect Opcode.long_sub = some (4, 2)
effect Opcode.long_or = some (4, 2)
effect Opcode.long_xor = some (4, 2)
effect Opcode.long_and = some (4, 2)
effect Opcode.long_not = some (2, 2)
effect Opcode.long_neg = some (2, 2)
effect Opcode.long_shift_l = some (3, 2)
effect Opcode.long_shift_r = some (3, 2)
effect Opcode.float_eq = some (2, 1)
effect Opcode.float_not_eq = some (2, 1)
effect Opcode.float_gt = some (2, 1)
effect Opcode.float_gt_eq = some (2, 1)
effect Opcode.float_lt = some (2, 1)
effect Opcode.float_lt_eq = some (2, 1)
effect Opcode.float_mul = some (2, 1)
effect Opcode.float_div = some (2, 1)
effect Opcode.float_add = some (2, 1)
effect Opcode.float_sub = some (2, 1)
effect Opcode.float_neg = some (1, 1)
effect Opcode.double_eq = some (4, 1)
effect Opcode.double_not_eq = some (4, 1)
effect Opcode.double_gt = some (4, 1)
effect Opcode.double_gt_eq = some (4, 1)
effect Opcode.double_lt = some (4, 1)
effect Opcode.double_lt_eq = some (4, 1)
effect Opcode.double_mul = some (4, 2)
effect Opcode.double_div = some (4, 2)
effect Opcode.double_add = some (4, 2)
effect Opcode.double_sub = some (4, 2)
effect Opcode.double_neg = some (2, 2)
effect Opcode.obj_eq = some (2, 1)
effect Opcode.obj_not_eq = some (2, 1)
effect Opcode.eq_zero = some (1, 1)
effect Opcode.not_eq_zero = some (1, 1)
effect Opcode.long_to_int = some (2, 1)
effect Opcode.float_to_int = some (1, 1)
effect Opcode.double_to_int = some (2, 1)
effect Opcode.int_to_long = some (1, 2)
effect Opcode.float_to_long = some (1, 2)
effect Opcode.double_to_long = some (2, 2)
effect Opcode.int_to_float = some (1, 1)
effect Opcode.long_to_float = some (2, 1)
effect Opcode.double_to_float = some (2, 1)
effect Opcode.int_to_double = some (1, 2)
effect Opcode.long_to_double = some (2, 2)
effect Opcode.float_to_double = some (1, 2)
effect Opcode.load8_bit_field_u1 = some (1, 1)
effect Opcode.load8_bit_field_u2 = some (1, 1)
effect Opcode.load8_bit_field_u4 = some (1, 1)
effect Opcode.load8_bit_array = some (2, 1)
effect Opcode.add8_bit_array = some (2, 1)
effect Opcode.store8_bit_field_u1 = some (2, 0)
effect Opcode.store8_bit_field_u2 = some (2, 0)
effect Opcode.store8_bit_field_u4 = some (2, 0)
effect Opcode.store8_bit_array = some (3, 0)
effect Opcode.load16_bit_field_u1 = some (1, 1)
effect Opcode.load16_bit_field_u2 = some (1, 1)
effect Opcode.load16_bit_field_u4 = some (1, 1)
effect Opcode.load16_bit_array = some (2, 1)
effect Opcode.add16_bit_array = some (2, 1)
effect Opcode.store16_bit_field_u1 = some (2, 0)
effect Opcode.store16_bit_field_u2 = some (2, 0)
effect Opcode.store16_bit_field_u4 = some (2, 0)
effect Opcode.store16_bit_array = some (3, 0)
effect Opcode.load32_bit_field_u1 = some (1, 1)
effect Opcode.load32_bit_field_u2 = some (1, 1)
effect Opcode.load32_bit_field_u4 = some (1, 1)
effect Opcode.load32_bit_array = some (2, 1)
effect Opcode.add32_bit_array = some (2, 1)
effect Opcode.store32_bit_field_u1 = some (2, 0)
effect Opcode.store32_bit_field_u2 = some (2, 0)
effect Opcode.store32_bit_field_u4 = some (2, 0)
effect Opcode.store32_bit_array = some (3, 0)
effect Opcode.load64_bit_field_u1 = some (1, 2)
effect Opcode.load64_bit_field_u2 = some (1, 2)
effect Opcode.load64_bit_field_u4 = some (1, 2)
effect Opcode.load64_bit_array = some (2, 2)
effect Opcode.add64_bit_array = some (2, 1)
effect Opcode.store64_bit_field_u1 = some (3, 0)
effect Opcode.store64_bit_field_u2 = some (3, 0)
effect Opcode.store64_bit_field_u4 = some (3, 0)
effect Opcode.store64_bit_array = some (4, 0)
effect Opcode.load_ref_field_u1 = some (1, 1)
effect Opcode.load_ref_field_u2 = some (1, 1)
effect Opcode.load_ref_field_u4 = some (1, 1)
effect Opcode.load_ref_array = some (2, 1)
effect Opcode.add_ref_array = some (2, 1)
effect Opcode.store_ref_field_u1 = some (2, 0)
effect Opcode.store_ref_field_u2 = some (2, 0)
effect Opcode.store_ref_field_u4 = some (2, 0)
effect Opcode.store_ref_array = some (3, 0)
effect Opcode.load_const_field_u1 = some (1, 1)
effect Opcode.load_const_field_u2 = some (1, 1)
effect Opcode.load_const_array = some (2, 1)
effect Opcode.load_const_static = some (0, 1)
effect Opcode.load_data_addr = some (0, 1)
effect Opcode.load_inline_field_u1 = some (1, 1)
effect Opcode.load_inline_field_u2 = some (1, 1)
effect Opcode.load_inline_field_u4 = some (1, 1)
effect Opcode.load_param0_inline_field_u1 = some (0, 1)
effect Opcode.load_param0_inline_field_u2 = some (0, 1)
effect Opcode.load_param0_inline_field_u4 = some (0, 1)
effect Opcode.load_data_inline_field_u1 = some (0, 1)
effect Opcode.load_data_inline_field_u2 = some (0, 1)
effect Opcode.load_data_inline_field_u4 = some (0, 1)
effect Opcode.init_array = some (3, 0)
effect Opcode.init_virt = some (1, 0)
effect Opcode.init_comp = some (1, 0)
effect Opcode.assert = some (1, 0)
effect Opcode.meta_slot = some (0, 0)
effect _ = none

-- The height of the stack after instructions, if each has an effect and finds as many cells as it
-- pops among those that are counted.
abbrev pub height_after : Option (ℕ × ℕ) → ℕ → Option ℕ
height_after none d = none
height_after (some (pops, pushes)) d = if leb pops d then some (d - pops + pushes) else none

abbrev pub then_height : Option ℕ → (ℕ → Option ℕ) → Option ℕ
then_height none f = none
then_height (some d) f = f d

unfoldable pub height : List Opcode → ℕ → Option ℕ
height [] d = some d
height (op ∷ ops) d = then_height (height_after (effect op) d) (height ops)

-- The instructions one after the other.
abbrev pub on_running : (Vm → Outcome Step) → Step → Outcome Step
on_running f (running vm) = f vm
on_running f (returned v vm) = done (returned v vm)

unfoldable pub exec_all : Natives → Fpu → List Opcode → Vm → Outcome Step
exec_all natives fpu [] vm = done (running vm)
exec_all natives fpu (op ∷ ops) vm =
    exec natives fpu op vm >>= on_running (exec_all natives fpu ops)
