-- ===== src/Vm/Exec/Jumps/Laws.antt =====
-- svm/vm.c: the jumps that compare are the comparisons followed by the jumps that test.
use sedona_vm_debug.Base.{sym, ap, ◌∙◌}
use sedona_vm_debug.Vm.Word.{signed_lt, signed_le}
use sedona_vm_debug.Vm.Exec.Jumps.{left}
use sedona_vm_debug.Base.{ℕ, ◌-◌, ◌≡◌, refl, Bool, true, false, not, ◌==◌, arith, ==-self, some}
use sedona_vm_debug.Vm.Word.{ival, with_ival, of_bool}
use sedona_vm_debug.Vm.Opcode.{Opcode}
use sedona_vm_debug.Vm.Machine.{Vm, next, int_compare}
use sedona_vm_debug.Vm.Exec.Arith.{exec_int}
use sedona_vm_debug.Vm.Exec.Jumps.{exec_int_near, exec_int_far, near_if, far_if, right}

-- A comparison of ints, and the near and the far jump that make the same comparison.
pub data Compares : Opcode → Opcode → Opcode → Type 0 where
  eq : Compares Opcode.int_eq Opcode.jump_int_eq Opcode.jump_far_int_eq
  not_eq : Compares Opcode.int_not_eq Opcode.jump_int_not_eq Opcode.jump_far_int_not_eq
  gt : Compares Opcode.int_gt Opcode.jump_int_gt Opcode.jump_far_int_gt
  gt_eq : Compares Opcode.int_gt_eq Opcode.jump_int_gt_eq Opcode.jump_far_int_gt_eq
  lt : Compares Opcode.int_lt Opcode.jump_int_lt Opcode.jump_far_int_lt
  lt_eq : Compares Opcode.int_lt_eq Opcode.jump_int_lt_eq Opcode.jump_far_int_lt_eq

-- Both jumps are decided by the cell that the comparison leaves on the top of the stack.
pub data Decides (vm : Vm) (compare near_jump far_jump : Opcode) : Type 0 where
  decides :
      (compared : Vm)
      → exec_int compare vm ≡ some (next 1 compared)
      → compared.sp ≡ vm.sp - 1
      → exec_int_near near_jump vm ≡ some (near_if 2 (not (right compared == 0)) vm)
      → exec_int_far far_jump vm ≡ some (far_if 2 (not (right compared == 0)) vm)
      → Decides vm compare near_jump far_jump

truth : (cell : ℕ) (b : Bool) → not (ival (with_ival cell (of_bool b)) == 0) ≡ b
truth cell true = ground arith
truth cell false = ground arith

tested : (f : ℕ → ℕ → Bool) (vm : Vm) → f (left vm) (right vm) ≡ not (right (int_compare f vm) == 0)
tested f vm = rw (==-self (vm.sp - 1)) (sym (truth (vm.stack (vm.sp - 1)) (f (left vm) (right vm))))

decided :
    (f : ℕ → ℕ → Bool) (vm : Vm) {compare near_jump far_jump : Opcode}
    → exec_int compare vm ≡ some (next 1 (int_compare f vm))
    → exec_int_near near_jump vm ≡ some (near_if 2 (f (left vm) (right vm)) vm)
    → exec_int_far far_jump vm ≡ some (far_if 2 (f (left vm) (right vm)) vm)
    → Decides vm compare near_jump far_jump
decided f vm c n g =
    decides (int_compare f vm) c refl (n ∙ ap (λ b. some (near_if 2 b vm)) (tested f vm))
      (g ∙ ap (λ b. some (far_if 2 b vm)) (tested f vm))

-- A comparing jump on ints, near or far, is taken when the comparison of its two operands leaves a
-- cell that is not zero, which `jump_non_zero` would test; it pops both operands whether it is
-- taken or not. This holds of all six comparisons.
pub exec_int_near-exec_int :
    (compare near_jump far_jump : Opcode) (vm : Vm)
    → Compares compare near_jump far_jump
    → Decides vm compare near_jump far_jump
unfolding exec_int exec_int_near exec_int_far
exec_int_near-exec_int compare near_jump far_jump vm eq = decided ◌==◌ vm refl refl refl
exec_int_near-exec_int compare near_jump far_jump vm not_eq =
    decided (λ a b. not (a == b)) vm refl refl refl
exec_int_near-exec_int compare near_jump far_jump vm gt =
    decided (λ a b. signed_lt 32 b a) vm refl refl refl
exec_int_near-exec_int compare near_jump far_jump vm gt_eq =
    decided (λ a b. signed_le 32 b a) vm refl refl refl
exec_int_near-exec_int compare near_jump far_jump vm lt = decided (signed_lt 32) vm refl refl refl
exec_int_near-exec_int compare near_jump far_jump vm lt_eq =
    decided (signed_le 32) vm refl refl refl
