-- ===== src/Vm/Exec/Arith.antt =====
-- svm/vm.c, `vmCallDebug`: arithmetic, comparison and casts. A sum, difference, product or negation
-- of signed values wraps, where C leaves an overflow undefined. Floats and doubles are kept by their
-- patterns; what the C operators do on them is the parameter `fpu`.
use sedona_vm_debug.Base.{
  ℕ, ◌+◌, ◌-◌, ◌*◌, ◌%◌, ◌^◌, Bool, true, false, not, ◌&&◌, Option, none, some, ◌==◌, if◌then◌else◌,
  bit_and, bit_or, bit_xor,
}
use sedona_vm_debug.Memory.{Outcome}
use sedona_vm_debug.Vm.Word.{
  update, ival, with_ival, extend, signed_lt, signed_le, negate, of_bool, signed_div, signed_mod,
  shift_left, shift_right,
}
use sedona_vm_debug.Vm.Opcode.{Opcode}
use sedona_vm_debug.Vm.Machine.{
  Vm, Step, binary, int_binary, int_compare, wide_compare, wide_binary, int_unary, wide_unary, next,
  when_defined,
}

-- The operators of one floating type on bit patterns.
pub record FloatOps : Type 0 where
  pub is_nan : ℕ → Bool
  pub eq : ℕ → ℕ → Bool
  pub lt : ℕ → ℕ → Bool
  pub le : ℕ → ℕ → Bool
  pub mul : ℕ → ℕ → ℕ
  pub div : ℕ → ℕ → ℕ
  pub add : ℕ → ℕ → ℕ
  pub sub : ℕ → ℕ → ℕ
  pub neg : ℕ → ℕ
  pub to_int : ℕ → ℕ
  pub to_long : ℕ → ℕ
  pub of_int : ℕ → ℕ
  pub of_long : ℕ → ℕ

pub record Fpu : Type 0 where
  pub single : FloatOps
  pub double : FloatOps
  pub narrow : ℕ → ℕ
  pub promote : ℕ → ℕ

unfoldable pub exec_int : Opcode → Vm → Option (Outcome Step)
exec_int Opcode.int_eq vm = some (next 1 (int_compare ◌==◌ vm))
exec_int Opcode.int_not_eq vm = some (next 1 (int_compare (λ a b. not (a == b)) vm))
exec_int Opcode.int_gt vm = some (next 1 (int_compare (λ a b. signed_lt 32 b a) vm))
exec_int Opcode.int_gt_eq vm = some (next 1 (int_compare (λ a b. signed_le 32 b a) vm))
exec_int Opcode.int_lt vm = some (next 1 (int_compare (signed_lt 32) vm))
exec_int Opcode.int_lt_eq vm = some (next 1 (int_compare (signed_le 32) vm))
exec_int Opcode.int_mul vm = some (next 1 (int_binary (λ a b. a * b) vm))
exec_int Opcode.int_div vm = some (
    when_defined (signed_div 32 (ival (vm.stack (vm.sp - 1))) (ival (vm.stack vm.sp)))
      (λ v. int_binary (λ a b. v) vm))
exec_int Opcode.int_mod vm = some (
    when_defined (signed_mod 32 (ival (vm.stack (vm.sp - 1))) (ival (vm.stack vm.sp)))
      (λ v. int_binary (λ a b. v) vm))
exec_int Opcode.int_add vm = some (next 1 (int_binary (λ a b. a + b) vm))
exec_int Opcode.int_sub vm = some (next 1 (int_binary (λ a b. a + 2 ^ 32 - b) vm))
exec_int Opcode.int_or vm = some (next 1 (int_binary bit_or vm))
exec_int Opcode.int_xor vm = some (next 1 (int_binary bit_xor vm))
exec_int Opcode.int_and vm = some (next 1 (int_binary bit_and vm))
exec_int Opcode.int_not vm = some (next 1 (int_unary (λ a. 2 ^ 32 - 1 - a) vm))
exec_int Opcode.int_neg vm = some (next 1 (int_unary (negate 32) vm))
exec_int Opcode.int_shift_l vm = some (
    when_defined (shift_left 32 (ival (vm.stack (vm.sp - 1))) (ival (vm.stack vm.sp)))
      (λ v. int_binary (λ a b. v) vm))
exec_int Opcode.int_shift_r vm = some (
    when_defined (shift_right 32 (ival (vm.stack (vm.sp - 1))) (ival (vm.stack vm.sp)))
      (λ v. int_binary (λ a b. v) vm))
exec_int Opcode.int_inc vm = some (next 1 (int_unary (λ a. a + 1) vm))
exec_int Opcode.int_dec vm = some (next 1 (int_unary (λ a. a + 2 ^ 32 - 1) vm))
exec_int _ vm = none

-- The result of a shift by the `ival` on the top, in the wide value under it.
abbrev wide_shift : (ℕ → ℕ → Option ℕ) → Vm → Outcome Step
wide_shift f vm =
    when_defined (f (vm.stack (vm.sp - 2)) (ival (vm.stack vm.sp)))
      (λ v. record vm { sp = vm.sp - 1; stack = update vm.stack (vm.sp - 2) v })

unfoldable pub exec_long : Opcode → Vm → Option (Outcome Step)
exec_long Opcode.long_eq vm = some (next 1 (wide_compare ◌==◌ vm))
exec_long Opcode.long_not_eq vm = some (next 1 (wide_compare (λ a b. not (a == b)) vm))
exec_long Opcode.long_gt vm = some (next 1 (wide_compare (λ a b. signed_lt 64 b a) vm))
exec_long Opcode.long_gt_eq vm = some (next 1 (wide_compare (λ a b. signed_le 64 b a) vm))
exec_long Opcode.long_lt vm = some (next 1 (wide_compare (signed_lt 64) vm))
exec_long Opcode.long_lt_eq vm = some (next 1 (wide_compare (signed_le 64) vm))
exec_long Opcode.long_mul vm = some (next 1 (wide_binary (λ a b. a * b % 2 ^ 64) vm))
exec_long Opcode.long_div vm = some (
    when_defined (signed_div 64 (vm.stack (vm.sp - 3)) (vm.stack (vm.sp - 1)))
      (λ v. wide_binary (λ a b. v) vm))
exec_long Opcode.long_mod vm = some (
    when_defined (signed_mod 64 (vm.stack (vm.sp - 3)) (vm.stack (vm.sp - 1)))
      (λ v. wide_binary (λ a b. v) vm))
exec_long Opcode.long_add vm = some (next 1 (wide_binary (λ a b. (a + b) % 2 ^ 64) vm))
exec_long Opcode.long_sub vm = some (next 1 (wide_binary (λ a b. (a + 2 ^ 64 - b) % 2 ^ 64) vm))
exec_long Opcode.long_or vm = some (next 1 (wide_binary bit_or vm))
exec_long Opcode.long_xor vm = some (next 1 (wide_binary bit_xor vm))
exec_long Opcode.long_and vm = some (next 1 (wide_binary bit_and vm))
exec_long Opcode.long_not vm = some (next 1 (wide_unary (λ a. 2 ^ 64 - 1 - a) vm))
exec_long Opcode.long_neg vm = some (next 1 (wide_unary (negate 64) vm))
exec_long Opcode.long_shift_l vm = some (wide_shift (shift_left 64) vm)
exec_long Opcode.long_shift_r vm = some (wide_shift (shift_right 64) vm)
exec_long _ vm = none

-- Two NaNs are equal in Sedona.
abbrev nan_eq : FloatOps → ℕ → ℕ → Bool
nan_eq ops a b = if ops.is_nan a && ops.is_nan b then true else ops.eq a b

abbrev nan_not_eq : FloatOps → ℕ → ℕ → Bool
nan_not_eq ops a b = if ops.is_nan a && ops.is_nan b then false else not (ops.eq a b)

unfoldable pub exec_float : Fpu → Opcode → Vm → Option (Outcome Step)
exec_float fpu Opcode.float_eq vm = some (next 1 (int_compare (nan_eq fpu.single) vm))
exec_float fpu Opcode.float_not_eq vm = some (next 1 (int_compare (nan_not_eq fpu.single) vm))
exec_float fpu Opcode.float_gt vm = some (next 1 (int_compare (λ a b. fpu.single.lt b a) vm))
exec_float fpu Opcode.float_gt_eq vm = some (next 1 (int_compare (λ a b. fpu.single.le b a) vm))
exec_float fpu Opcode.float_lt vm = some (next 1 (int_compare fpu.single.lt vm))
exec_float fpu Opcode.float_lt_eq vm = some (next 1 (int_compare fpu.single.le vm))
exec_float fpu Opcode.float_mul vm = some (next 1 (int_binary fpu.single.mul vm))
exec_float fpu Opcode.float_div vm = some (next 1 (int_binary fpu.single.div vm))
exec_float fpu Opcode.float_add vm = some (next 1 (int_binary fpu.single.add vm))
exec_float fpu Opcode.float_sub vm = some (next 1 (int_binary fpu.single.sub vm))
exec_float fpu Opcode.float_neg vm = some (next 1 (int_unary fpu.single.neg vm))
exec_float fpu _ vm = none

unfoldable pub exec_double : Fpu → Opcode → Vm → Option (Outcome Step)
exec_double fpu Opcode.double_eq vm = some (next 1 (wide_compare (nan_eq fpu.double) vm))
exec_double fpu Opcode.double_not_eq vm = some (next 1 (wide_compare (nan_not_eq fpu.double) vm))
exec_double fpu Opcode.double_gt vm = some (next 1 (wide_compare (λ a b. fpu.double.lt b a) vm))
exec_double fpu Opcode.double_gt_eq vm = some (next 1 (wide_compare (λ a b. fpu.double.le b a) vm))
exec_double fpu Opcode.double_lt vm = some (next 1 (wide_compare fpu.double.lt vm))
exec_double fpu Opcode.double_lt_eq vm = some (next 1 (wide_compare fpu.double.le vm))
exec_double fpu Opcode.double_mul vm = some (next 1 (wide_binary fpu.double.mul vm))
exec_double fpu Opcode.double_div vm = some (next 1 (wide_binary fpu.double.div vm))
exec_double fpu Opcode.double_add vm = some (next 1 (wide_binary fpu.double.add vm))
exec_double fpu Opcode.double_sub vm = some (next 1 (wide_binary fpu.double.sub vm))
exec_double fpu Opcode.double_neg vm = some (next 1 (wide_unary fpu.double.neg vm))
exec_double fpu _ vm = none

-- `--sp; sp->ival = f(*(int64_t*)sp)`, and `*(int64_t*)sp = f(sp->ival); ++sp`.
abbrev narrowing : (ℕ → ℕ) → Vm → Vm
narrowing f vm = record vm {
  sp = vm.sp - 1;
  stack = update vm.stack (vm.sp - 1) (with_ival (vm.stack (vm.sp - 1)) (f (vm.stack (vm.sp - 1))));
}

abbrev widening : (ℕ → ℕ) → Vm → Vm
widening f vm = record vm {
  sp = vm.sp + 1;
  stack = update vm.stack vm.sp (f (ival (vm.stack vm.sp)));
}

unfoldable pub exec_casts : Fpu → Opcode → Vm → Option (Outcome Step)
exec_casts fpu Opcode.obj_eq vm = some (next 1 (binary (λ a b. with_ival a (of_bool (a == b))) vm))
exec_casts fpu Opcode.obj_not_eq vm =
    some (next 1 (binary (λ a b. with_ival a (of_bool (not (a == b)))) vm))
exec_casts fpu Opcode.eq_zero vm = some (next 1 (int_unary (λ a. of_bool (a == 0)) vm))
exec_casts fpu Opcode.not_eq_zero vm = some (next 1 (int_unary (λ a. of_bool (not (a == 0))) vm))
exec_casts fpu Opcode.long_to_int vm = some (next 1 (narrowing (λ a. a) vm))
exec_casts fpu Opcode.float_to_int vm = some (next 1 (int_unary fpu.single.to_int vm))
exec_casts fpu Opcode.double_to_int vm = some (next 1 (narrowing fpu.double.to_int vm))
exec_casts fpu Opcode.int_to_long vm = some (next 1 (widening (extend 32) vm))
exec_casts fpu Opcode.float_to_long vm = some (next 1 (widening fpu.single.to_long vm))
exec_casts fpu Opcode.double_to_long vm = some (next 1 (wide_unary fpu.double.to_long vm))
exec_casts fpu Opcode.int_to_float vm = some (next 1 (int_unary fpu.single.of_int vm))
exec_casts fpu Opcode.long_to_float vm = some (next 1 (narrowing fpu.single.of_long vm))
exec_casts fpu Opcode.double_to_float vm = some (next 1 (narrowing fpu.narrow vm))
exec_casts fpu Opcode.int_to_double vm = some (next 1 (widening fpu.double.of_int vm))
exec_casts fpu Opcode.long_to_double vm = some (next 1 (wide_unary fpu.double.of_long vm))
exec_casts fpu Opcode.float_to_double vm = some (next 1 (widening fpu.promote vm))
exec_casts fpu _ vm = none
