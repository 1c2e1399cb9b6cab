-- ===== src/Vm/Exec/Values/Laws.antt =====
-- svm/vm.c: the null literal in a cell of 64 bits.
use sedona_vm_debug.Base.{◌+◌, ◌^◌, ◌<◌, ◌≡◌, ◌↔◌, refl, arith, some, ==-self}
use sedona_vm_debug.Vm.Opcode.{Opcode}
use sedona_vm_debug.Vm.Machine.{Vm, next}
use sedona_vm_debug.Vm.Exec.Values.{exec_literals}

-- In a build with pointers of 64 bits the null literal pushes a cell, but the cell is a null
-- pointer exactly if the high half of what stood there was zero: the instruction writes the low
-- half only.
pub exec_literals-load_null :
    (vm : Vm)
    → (after : Vm) × (exec_literals Opcode.load_null vm ≡ some (next 1 after))
      × (after.sp ≡ vm.sp + 1)
      × ((after.stack after.sp ≡ 0) ↔ (vm.stack (vm.sp + 1) < 2 ^ 32))
unfolding exec_literals
exec_literals-load_null vm =
    (_, refl, refl, rw (==-self (vm.sp + 1)) ((λ h. omega arith), (λ h. omega arith)))
