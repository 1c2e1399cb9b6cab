-- ===== src/Vm/Effects/Faults.antt =====
-- svm/vm.c: the operands for which C leaves `/`, `%`, `<<` and `>>` undefined.
use sedona_vm_debug.Base.{
  ℕ, ◌-◌, ◌^◌, ◌≡◌, arith, Bool, true, false, ◌&&◌, ◌||◌, ◌==◌, leb, List, ◌∷◌, none,
}
use sedona_vm_debug.Memory.{done}
use sedona_vm_debug.Vm.Opcode.{Opcode}
use sedona_vm_debug.Vm.Word.{ival, signed_div, signed_mod, shift_left, shift_right}
use sedona_vm_debug.Vm.Machine.{Vm, running}
use sedona_vm_debug.Vm.Exec.Arith.{Fpu}
use sedona_vm_debug.Vm.Exec.Calls.{Natives}
use sedona_vm_debug.Vm.Loop.{exec}

-- A divisor of zero, or the least value by -1.
abbrev pub no_quotient : ℕ → ℕ → ℕ → Bool
no_quotient bits a b = (b == 0) || ((a == 2 ^ (bits - 1)) && (b == 2 ^ bits - 1))

-- A shift by the width or more.
unfoldable pub faults : Opcode → Vm → Bool
faults Opcode.int_div vm = no_quotient 32 (ival (vm.stack (vm.sp - 1))) (ival (vm.stack vm.sp))
faults Opcode.int_mod vm = no_quotient 32 (ival (vm.stack (vm.sp - 1))) (ival (vm.stack vm.sp))
faults Opcode.int_shift_l vm = leb 32 (ival (vm.stack vm.sp))
faults Opcode.int_shift_r vm = leb 32 (ival (vm.stack vm.sp))
faults Opcode.long_div vm = no_quotient 64 (vm.stack (vm.sp - 3)) (vm.stack (vm.sp - 1))
faults Opcode.long_mod vm = no_quotient 64 (vm.stack (vm.sp - 3)) (vm.stack (vm.sp - 1))
faults Opcode.long_shift_l vm = leb 64 (ival (vm.stack vm.sp))
faults Opcode.long_shift_r vm = leb 64 (ival (vm.stack vm.sp))
faults _ vm = false

-- Some instruction of a row faults, after those before it have run.
pub data Faults (natives : Natives) (fpu : Fpu) : List Opcode → Vm → Type 0 where
  here :
      {op : Opcode} {ops : List Opcode} {vm : Vm}
      → faults op vm ≡ true
      → Faults natives fpu (op ∷ ops) vm
  later :
      {op : Opcode} {ops : List Opcode} {vm after : Vm}
      → exec natives fpu op vm ≡ done (running after)
      → Faults natives fpu ops after
      → Faults natives fpu (op ∷ ops) vm

pub signed_div-none : (bits a b : ℕ) → signed_div bits a b ≡ none → no_quotient bits a b ≡ true
unfolding signed_div
signed_div-none bits a b h = ground arith

pub signed_mod-none : (bits a b : ℕ) → signed_mod bits a b ≡ none → no_quotient bits a b ≡ true
unfolding signed_mod
signed_mod-none bits a b h = ground arith

pub shift_left-none : (bits a k : ℕ) → shift_left bits a k ≡ none → leb bits k ≡ true
unfolding shift_left
shift_left-none bits a k h = ground arith

pub shift_right-none : (bits a k : ℕ) → shift_right bits a k ≡ none → leb bits k ≡ true
unfolding shift_right
shift_right-none bits a k h = ground arith
