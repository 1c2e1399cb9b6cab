-- ===== src/Vm/Exec/Storage.antt =====
-- svm/vm.c, `vmCallDebug`: fields and arrays of objects, and inline and constant objects.
use sedona_vm_debug.Base.{ℕ, ◌+◌, ◌-◌, ◌*◌, Option, none, some, ◌==◌, if◌then◌else◌}
use sedona_vm_debug.Memory.{Outcome}
use sedona_vm_debug.Vm.Word.{
  Memory, update, ival, with_ival, extend, to_u64, load_u8, load_u16, load_u32, load_u64, store_u8,
  store_u16, store_u32, store_u64,
}
use sedona_vm_debug.Vm.Opcode.{Opcode}
use sedona_vm_debug.Vm.Machine.{Vm, Step, block2addr, u1_arg, u2_arg, u4_arg, push_cell, next}

-- The address of an element of an array; the index is a signed `int`.
abbrev pub element : ℕ → ℕ → ℕ → ℕ
element size array index = to_u64 (array + extend 32 (ival index) * size)

-- A field of the object on the top, loaded over it: as an `int`, as an address, as a wide value.
abbrev pub load_field : (Memory → ℕ → ℕ) → ℕ → Vm → Vm
load_field load offset vm = record vm {
  stack =
      update vm.stack vm.sp (with_ival (vm.stack vm.sp) (load vm.memory (vm.stack vm.sp + offset)));
}

abbrev pub load_ref : ℕ → Vm → Vm
load_ref offset vm = record vm {
  stack = update vm.stack vm.sp (load_u64 vm.memory (vm.stack vm.sp + offset));
}

abbrev pub load_field_wide : ℕ → Vm → Vm
load_field_wide offset vm = record vm {
  sp = vm.sp + 1;
  stack = update vm.stack vm.sp (load_u64 vm.memory (vm.stack vm.sp + offset));
}

-- The array and the index give way to the element, or to its address.
abbrev pub load_element : (Memory → ℕ → ℕ) → ℕ → Vm → Vm
load_element load size vm =
    let array = vm.stack (vm.sp - 1) in
    record vm {
      sp = vm.sp - 1;
      stack =
          update vm.stack (vm.sp - 1)
            (with_ival array (load vm.memory (element size array (vm.stack vm.sp))));
    }

abbrev pub load_element_ref : Vm → Vm
load_element_ref vm = record vm {
  sp = vm.sp - 1;
  stack =
      update vm.stack (vm.sp - 1)
        (load_u64 vm.memory (element 8 (vm.stack (vm.sp - 1)) (vm.stack vm.sp)));
}

abbrev pub load_element_wide : Vm → Vm
load_element_wide vm = record vm {
  stack =
      update vm.stack (vm.sp - 1)
        (load_u64 vm.memory (element 8 (vm.stack (vm.sp - 1)) (vm.stack vm.sp)));
}

abbrev pub add_element : ℕ → Vm → Vm
add_element size vm = record vm {
  sp = vm.sp - 1;
  stack = update vm.stack (vm.sp - 1) (element size (vm.stack (vm.sp - 1)) (vm.stack vm.sp));
}

-- The top cell is stored in a field of the object below it, or in an element of the array.
abbrev pub store_field : (Memory → ℕ → ℕ → Memory) → ℕ → Vm → Vm
store_field store offset vm = record vm {
  sp = vm.sp - 2;
  memory = store vm.memory (vm.stack (vm.sp - 1) + offset) (vm.stack vm.sp);
}

abbrev pub store_field_wide : ℕ → Vm → Vm
store_field_wide offset vm = record vm {
  sp = vm.sp - 3;
  memory = store_u64 vm.memory (vm.stack (vm.sp - 2) + offset) (vm.stack (vm.sp - 1));
}

abbrev pub store_element : (Memory → ℕ → ℕ → Memory) → ℕ → Vm → Vm
store_element store size vm = record vm {
  sp = vm.sp - 3;
  memory =
      store vm.memory (element size (vm.stack (vm.sp - 2)) (vm.stack (vm.sp - 1))) (vm.stack vm.sp);
}

abbrev pub store_element_wide : Vm → Vm
store_element_wide vm = record vm {
  sp = vm.sp - 4;
  memory =
      store_u64 vm.memory (element 8 (vm.stack (vm.sp - 3)) (vm.stack (vm.sp - 2)))
        (vm.stack (vm.sp - 1));
}

-- A block index in the code, where zero is the null pointer.
abbrev pub const_addr : ℕ → ℕ → ℕ
const_addr cb u2 = if u2 == 0 then 0 else to_u64 (block2addr cb u2)

abbrev pub load_const : ℕ → Vm → Vm
load_const offset vm = record vm {
  stack = update vm.stack vm.sp (const_addr vm.cb (load_u16 vm.memory (vm.stack vm.sp + offset)));
}

abbrev pub load_inline : ℕ → Vm → Vm
load_inline offset vm = record vm {
  stack = update vm.stack vm.sp (to_u64 (vm.stack vm.sp + offset));
}

unfoldable pub exec_fields8 : Opcode → Vm → Option (Outcome Step)
exec_fields8 Opcode.load8_bit_field_u1 vm = some (next 2 (load_field load_u8 (u1_arg vm) vm))
exec_fields8 Opcode.load8_bit_field_u2 vm = some (next 3 (load_field load_u8 (u2_arg vm) vm))
exec_fields8 Opcode.load8_bit_field_u4 vm = some (next 5 (load_field load_u8 (u4_arg vm) vm))
exec_fields8 Opcode.load8_bit_array vm = some (next 1 (load_element load_u8 1 vm))
exec_fields8 Opcode.add8_bit_array vm = some (next 1 (add_element 1 vm))
exec_fields8 Opcode.store8_bit_field_u1 vm = some (next 2 (store_field store_u8 (u1_arg vm) vm))
exec_fields8 Opcode.store8_bit_field_u2 vm = some (next 3 (store_field store_u8 (u2_arg vm) vm))
exec_fields8 Opcode.store8_bit_field_u4 vm = some (next 5 (store_field store_u8 (u4_arg vm) vm))
exec_fields8 Opcode.store8_bit_array vm = some (next 1 (store_element store_u8 1 vm))
exec_fields8 _ vm = none

unfoldable pub exec_fields16 : Opcode → Vm → Option (Outcome Step)
exec_fields16 Opcode.load16_bit_field_u1 vm = some (next 2 (load_field load_u16 (u1_arg vm) vm))
exec_fields16 Opcode.load16_bit_field_u2 vm = some (next 3 (load_field load_u16 (u2_arg vm) vm))
exec_fields16 Opcode.load16_bit_field_u4 vm = some (next 5 (load_field load_u16 (u4_arg vm) vm))
exec_fields16 Opcode.load16_bit_array vm = some (next 1 (load_element load_u16 2 vm))
exec_fields16 Opcode.add16_bit_array vm = some (next 1 (add_element 2 vm))
exec_fields16 Opcode.store16_bit_field_u1 vm = some (next 2 (store_field store_u16 (u1_arg vm) vm))
exec_fields16 Opcode.store16_bit_field_u2 vm = some (next 3 (store_field store_u16 (u2_arg vm) vm))
exec_fields16 Opcode.store16_bit_field_u4 vm = some (next 5 (store_field store_u16 (u4_arg vm) vm))
exec_fields16 Opcode.store16_bit_array vm = some (next 1 (store_element store_u16 2 vm))
exec_fields16 _ vm = none

unfoldable pub exec_fields32 : Opcode → Vm → Option (Outcome Step)
exec_fields32 Opcode.load32_bit_field_u1 vm = some (next 2 (load_field load_u32 (u1_arg vm) vm))
exec_fields32 Opcode.load32_bit_field_u2 vm = some (next 3 (load_field load_u32 (u2_arg vm) vm))
exec_fields32 Opcode.load32_bit_field_u4 vm = some (next 5 (load_field load_u32 (u4_arg vm) vm))
exec_fields32 Opcode.load32_bit_array vm = some (next 1 (load_element load_u32 4 vm))
exec_fields32 Opcode.add32_bit_array vm = some (next 1 (add_element 4 vm))
exec_fields32 Opcode.store32_bit_field_u1 vm = some (next 2 (store_field store_u32 (u1_arg vm) vm))
exec_fields32 Opcode.store32_bit_field_u2 vm = some (next 3 (store_field store_u32 (u2_arg vm) vm))
exec_fields32 Opcode.store32_bit_field_u4 vm = some (next 5 (store_field store_u32 (u4_arg vm) vm))
exec_fields32 Opcode.store32_bit_array vm = some (next 1 (store_element store_u32 4 vm))
exec_fields32 _ vm = none

unfoldable pub exec_fields64 : Opcode → Vm → Option (Outcome Step)
exec_fields64 Opcode.load64_bit_field_u1 vm = some (next 2 (load_field_wide (u1_arg vm) vm))
exec_fields64 Opcode.load64_bit_field_u2 vm = some (next 3 (load_field_wide (u2_arg vm) vm))
exec_fields64 Opcode.load64_bit_field_u4 vm = some (next 5 (load_field_wide (u4_arg vm) vm))
exec_fields64 Opcode.load64_bit_array vm = some (next 1 (load_element_wide vm))
exec_fields64 Opcode.add64_bit_array vm = some (next 1 (add_element 8 vm))
exec_fields64 Opcode.store64_bit_field_u1 vm = some (next 2 (store_field_wide (u1_arg vm) vm))
exec_fields64 Opcode.store64_bit_field_u2 vm = some (next 3 (store_field_wide (u2_arg vm) vm))
exec_fields64 Opcode.store64_bit_field_u4 vm = some (next 5 (store_field_wide (u4_arg vm) vm))
exec_fields64 Opcode.store64_bit_array vm = some (next 1 (store_element_wide vm))
exec_fields64 _ vm = none

unfoldable pub exec_refs : Opcode → Vm → Option (Outcome Step)
exec_refs Opcode.load_ref_field_u1 vm = some (next 2 (load_ref (u1_arg vm) vm))
exec_refs Opcode.load_ref_field_u2 vm = some (next 3 (load_ref (u2_arg vm) vm))
exec_refs Opcode.load_ref_field_u4 vm = some (next 5 (load_ref (u4_arg vm) vm))
exec_refs Opcode.load_ref_array vm = some (next 1 (load_element_ref vm))
exec_refs Opcode.add_ref_array vm = some (next 1 (add_element 8 vm))
exec_refs Opcode.store_ref_field_u1 vm = some (next 2 (store_field store_u64 (u1_arg vm) vm))
exec_refs Opcode.store_ref_field_u2 vm = some (next 3 (store_field store_u64 (u2_arg vm) vm))
exec_refs Opcode.store_ref_field_u4 vm = some (next 5 (store_field store_u64 (u4_arg vm) vm))
exec_refs Opcode.store_ref_array vm = some (next 1 (store_element store_u64 8 vm))
exec_refs _ vm = none

unfoldable pub exec_consts : Opcode → Vm → Option (Outcome Step)
exec_consts Opcode.load_const_field_u1 vm = some (next 2 (load_const (u1_arg vm) vm))
exec_consts Opcode.load_const_field_u2 vm = some (next 3 (load_const (u2_arg vm) vm))
exec_consts Opcode.load_const_array vm =
    let at = element 2 (vm.stack (vm.sp - 1)) (vm.stack vm.sp) in
    let vm = record vm {
      sp = vm.sp - 1;
      stack = update vm.stack (vm.sp - 1) (const_addr vm.cb (load_u16 vm.memory at));
    } in
    some (next 1 vm)
exec_consts Opcode.load_const_static vm =
    some (next 3 (push_cell (const_addr vm.cb (u2_arg vm)) vm))
exec_consts _ vm = none

unfoldable pub exec_inline : Opcode → Vm → Option (Outcome Step)
exec_inline Opcode.load_data_addr vm = some (next 1 (push_cell vm.db vm))
exec_inline Opcode.load_inline_field_u1 vm = some (next 2 (load_inline (u1_arg vm) vm))
exec_inline Opcode.load_inline_field_u2 vm = some (next 3 (load_inline (u2_arg vm) vm))
exec_inline Opcode.load_inline_field_u4 vm = some (next 5 (load_inline (u4_arg vm) vm))
exec_inline Opcode.load_param0_inline_field_u1 vm =
    some (next 2 (push_cell (to_u64 (vm.stack vm.pp + u1_arg vm)) vm))
exec_inline Opcode.load_param0_inline_field_u2 vm =
    some (next 3 (push_cell (to_u64 (vm.stack vm.pp + u2_arg vm)) vm))
exec_inline Opcode.load_param0_inline_field_u4 vm =
    some (next 5 (push_cell (to_u64 (vm.stack vm.pp + u4_arg vm)) vm))
exec_inline Opcode.load_data_inline_field_u1 vm =
    some (next 2 (push_cell (to_u64 (vm.db + u1_arg vm)) vm))
exec_inline Opcode.load_data_inline_field_u2 vm =
    some (next 3 (push_cell (to_u64 (vm.db + u2_arg vm)) vm))
exec_inline Opcode.load_data_inline_field_u4 vm =
    some (next 5 (push_cell (to_u64 (vm.db + u4_arg vm)) vm))
exec_inline _ vm = none
