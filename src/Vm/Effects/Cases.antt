-- ===== src/Vm/Effects/Cases.antt =====
-- svm/vm.c: each instruction keeps to its effect on the stack.
use sedona_vm_debug.Base.{ℕ, ◌+◌, ◌≤◌, ◌≡◌, refl, arith, Option, none, some}
use sedona_vm_debug.Memory.{Outcome, done, undefined}
use sedona_vm_debug.Vm.Opcode.{Opcode}
use sedona_vm_debug.Vm.Machine.{Vm, Step, running, skip, next, when_defined}
use sedona_vm_debug.Vm.Word.{ival}
use sedona_vm_debug.Base.{Bool, true, false, ◌==◌, if◌then◌else◌}
use sedona_vm_debug.Vm.Exec.Values.{exec_literals, exec_params, exec_locals, exec_stack}
use sedona_vm_debug.Vm.Exec.Arith.{exec_int, exec_long, exec_float, exec_double, exec_casts, Fpu}
use sedona_vm_debug.Vm.Exec.Jumps.{exec_near, exec_far, exec_int_near, exec_int_far, exec_switch}
use sedona_vm_debug.Vm.Exec.Storage.{
  exec_fields8, exec_fields16, exec_fields32, exec_fields64, exec_refs, exec_consts, exec_inline,
}
use sedona_vm_debug.Vm.Exec.Calls.{exec_calls, exec_returns, Natives}
use sedona_vm_debug.Vm.Exec.Misc.{exec_misc}
use sedona_vm_debug.Vm.Loop.{exec}
use sedona_vm_debug.Vm.Effects.{effect}
use sedona_vm_debug.Vm.Effects.Faults.{
  faults, signed_div-none, signed_mod-none, shift_left-none, shift_right-none,
}

abbrev pub Fits : Option (ℕ × ℕ) → Vm → Type 0
Fits none vm = Unit
Fits (some (pops, pushes)) vm = pops ≤ vm.sp

-- The stack's height after the effect, and the registers of the frame as they were.
pub record Moves (pops pushes : ℕ) (vm after : Vm) : Type 0 where
  pub height : after.sp + pops ≡ vm.sp + pushes
  pub same_fp : after.fp ≡ vm.fp
  pub same_pp : after.pp ≡ vm.pp
  pub same_lp : after.lp ≡ vm.lp

-- The run keeps to the effect, or it is undefined and `F` holds.
pub data Runs (F : Type 0) : Option (ℕ × ℕ) → Vm → Outcome Step → Type 0 where
  unknown : {vm : Vm} {r : Outcome Step} → Runs F none vm r
  moves :
      {pops pushes : ℕ} {vm after : Vm}
      → Moves pops pushes vm after
      → Runs F (some (pops, pushes)) vm (done (running after))
  stuck : {pops pushes : ℕ} {vm : Vm} → F → Runs F (some (pops, pushes)) vm undefined

-- A partial operation of C.
defined-Runs :
    {F : Type 0} {pops pushes : ℕ} {vm : Vm} (v : Option ℕ) (f : ℕ → Vm)
    → (v ≡ none → F)
    → ((n : ℕ) → Moves pops pushes vm (skip 1 (f n)))
    → Runs F (some (pops, pushes)) vm (when_defined v f)
defined-Runs none f fault k = stuck (fault refl)
defined-Runs (some n) f fault k = moves (k n)

asserted-Runs :
    {F : Type 0} (b : Bool) (vm v w : Vm)
    → Moves 1 0 vm (skip 3 v)
    → Moves 1 0 vm (skip 3 w)
    → Runs F (some (1, 0)) vm (next 3 (if b then v else w))
asserted-Runs true vm v w m n = moves m
asserted-Runs false vm v w m n = moves n

pub exec-Runs :
    (natives : Natives) (fpu : Fpu) (op : Opcode) (vm : Vm)
    → Fits (effect op) vm
    → Runs (faults op vm ≡ true) (effect op) vm (exec natives fpu op vm)
unfolding effect faults exec exec_literals exec_params exec_locals exec_stack exec_int exec_long
    exec_float exec_double exec_casts exec_near exec_far exec_int_near exec_int_far exec_inline
    exec_fields8 exec_fields16 exec_fields32 exec_fields64 exec_refs exec_consts exec_calls
    exec_returns exec_misc exec_switch
exec-Runs natives fpu Opcode.load_define vm h = unknown
exec-Runs natives fpu Opcode.jump vm h = unknown
exec-Runs natives fpu Opcode.jump_non_zero vm h = unknown
exec-Runs natives fpu Opcode.jump_zero vm h = unknown
exec-Runs natives fpu Opcode.foreach vm h = unknown
exec-Runs natives fpu Opcode.jump_far vm h = unknown
exec-Runs natives fpu Opcode.jump_far_non_zero vm h = unknown
exec-Runs natives fpu Opcode.jump_far_zero vm h = unknown
exec-Runs natives fpu Opcode.foreach_far vm h = unknown
exec-Runs natives fpu Opcode.jump_int_eq vm h = unknown
exec-Runs natives fpu Opcode.jump_int_not_eq vm h = unknown
exec-Runs natives fpu Opcode.jump_int_gt vm h = unknown
exec-Runs natives fpu Opcode.jump_int_gt_eq vm h = unknown
exec-Runs natives fpu Opcode.jump_int_lt vm h = unknown
exec-Runs natives fpu Opcode.jump_int_lt_eq vm h = unknown
exec-Runs natives fpu Opcode.jump_far_int_eq vm h = unknown
exec-Runs natives fpu Opcode.jump_far_int_not_eq vm h = unknown
exec-Runs natives fpu Opcode.jump_far_int_gt vm h = unknown
exec-Runs natives fpu Opcode.jump_far_int_gt_eq vm h = unknown
exec-Runs natives fpu Opcode.jump_far_int_lt vm h = unknown
exec-Runs natives fpu Opcode.jump_far_int_lt_eq vm h = unknown
exec-Runs natives fpu Opcode.call vm h = unknown
exec-Runs natives fpu Opcode.call_virtual vm h = unknown
exec-Runs natives fpu Opcode.call_native vm h = unknown
exec-Runs natives fpu Opcode.call_native_wide vm h = unknown
exec-Runs natives fpu Opcode.call_native_void vm h = unknown
exec-Runs natives fpu Opcode.return_void vm h = unknown
exec-Runs natives fpu Opcode.return_pop vm h = unknown
exec-Runs natives fpu Opcode.return_pop_wide vm h = unknown
exec-Runs natives fpu Opcode.load_param0_call vm h = unknown
exec-Runs natives fpu Opcode.size_of vm h = unknown
exec-Runs natives fpu Opcode.switch vm h = unknown
exec-Runs natives fpu Opcode.cast vm h = unknown
exec-Runs natives fpu Opcode.load_array_literal vm h = unknown
exec-Runs natives fpu Opcode.load_slot_id vm h = unknown
exec-Runs natives fpu Opcode.int_div vm h =
    defined-Runs _ _ (signed_div-none 32 _ _)
      (λ n. record { height = omega arith; same_fp = refl; same_pp = refl; same_lp = refl })
exec-Runs natives fpu Opcode.int_mod vm h =
    defined-Runs _ _ (signed_mod-none 32 _ _)
      (λ n. record { height = omega arith; same_fp = refl; same_pp = refl; same_lp = refl })
exec-Runs natives fpu Opcode.int_shift_l vm h =
    defined-Runs _ _ (shift_left-none 32 _ _)
      (λ n. record { height = omega arith; same_fp = refl; same_pp = refl; same_lp = refl })
exec-Runs natives fpu Opcode.int_shift_r vm h =
    defined-Runs _ _ (shift_right-none 32 _ _)
      (λ n. record { height = omega arith; same_fp = refl; same_pp = refl; same_lp = refl })
exec-Runs natives fpu Opcode.long_div vm h =
    defined-Runs _ _ (signed_div-none 64 _ _)
      (λ n. record { height = omega arith; same_fp = refl; same_pp = refl; same_lp = refl })
exec-Runs natives fpu Opcode.long_mod vm h =
    defined-Runs _ _ (signed_mod-none 64 _ _)
      (λ n. record { height = omega arith; same_fp = refl; same_pp = refl; same_lp = refl })
exec-Runs natives fpu Opcode.long_shift_l vm h =
    defined-Runs _ _ (shift_left-none 64 _ _)
      (λ n. record { height = omega arith; same_fp = refl; same_pp = refl; same_lp = refl })
exec-Runs natives fpu Opcode.long_shift_r vm h =
    defined-Runs _ _ (shift_right-none 64 _ _)
      (λ n. record { height = omega arith; same_fp = refl; same_pp = refl; same_lp = refl })
exec-Runs natives fpu Opcode.assert vm h =
    asserted-Runs (ival (vm.stack vm.sp) == 0) vm _ _
      (record { height = omega arith; same_fp = refl; same_pp = refl; same_lp = refl })
      (record { height = omega arith; same_fp = refl; same_pp = refl; same_lp = refl })
exec-Runs natives fpu _ vm h =
    moves (record { height = omega arith; same_fp = refl; same_pp = refl; same_lp = refl })
