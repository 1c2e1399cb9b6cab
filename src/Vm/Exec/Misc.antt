-- ===== src/Vm/Exec/Misc.antt =====
-- svm/vm.c: `initArray`, and of `vmCallDebug` the cases for objects, assertions and slots.
pub mod Laws
use sedona_vm_debug.Base.{
  ℕ, zero, suc, ◌+◌, ◌-◌, ◌*◌, ◌^◌, ◌%◌, Option, none, some, ◌==◌, if◌then◌else◌,
}
use sedona_vm_debug.Memory.{Outcome, done}
use sedona_vm_debug.Vm.Word.{
  Memory, update, ival, extend, signed_lt, is_negative, to_u64, store_u16, store_u64,
}
use sedona_vm_debug.Vm.Opcode.{Opcode}
use sedona_vm_debug.Vm.Machine.{Vm, Step, returned, u2_arg, next}

-- The loop of `initArray` over the first `i` references. `size*i` is a product of two `int`s,
-- which wraps here where it overflows.
unfoldable pub init_array_loop : Memory → ℕ → ℕ → ℕ → ℕ → Memory
init_array_loop m refs objs size zero = m
init_array_loop m refs objs size (suc i) =
    store_u64 (init_array_loop m refs objs size i) (refs + 8 * i)
      (to_u64 (objs + extend 32 (size * i % 2 ^ 32)))

-- A negative length writes nothing.
unfoldable pub init_array : Memory → ℕ → ℕ → ℕ → Memory
init_array m base length size =
    if is_negative 32 length then m else init_array_loop m base (base + 8 * length) size length

abbrev pub err_unknown_opcode : ℕ
err_unknown_opcode = 11

-- The callback of a failed assertion is not part of the machine.
unfoldable pub exec_misc : Opcode → Vm → Option (Outcome Step)
exec_misc Opcode.init_array vm =
    let sp = vm.sp in
    some (
      next 1 (record vm {
        sp = sp - 3;
        memory =
            init_array vm.memory (vm.stack (sp - 2)) (ival (vm.stack (sp - 1)))
              (ival (vm.stack sp));
      }))
exec_misc Opcode.init_virt vm = some (
    next 3
      (record vm { sp = vm.sp - 1; memory = store_u16 vm.memory (vm.stack vm.sp) (u2_arg vm) }))
exec_misc Opcode.init_comp vm = some (
    next 3
      (record vm { sp = vm.sp - 1; memory = store_u16 vm.memory (vm.stack vm.sp + 2) (u2_arg vm) }))
exec_misc Opcode.assert vm =
    let popped = record vm { sp = vm.sp - 1 } in
    some (
      next 3 (
        if ival (vm.stack vm.sp) == 0
        then record popped { assert_failures = (vm.assert_failures + 1) % 2 ^ 32 }
        else record popped { assert_successes = (vm.assert_successes + 1) % 2 ^ 32 }))
exec_misc Opcode.meta_slot vm = some (next 3 vm)
exec_misc _ vm = none
