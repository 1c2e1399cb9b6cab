-- ===== src/Vm/Exec/Calls.antt =====
-- svm/vm.c, `vmCallDebug`: calls of methods and of native methods, and the returns.
pub mod Laws
use sedona_vm_debug.Base.{ℕ, ◌+◌, ◌-◌, ◌*◌, ◌^◌, Bool, Option, none, some, ◌==◌, if◌then◌else◌}
use sedona_vm_debug.Memory.{Outcome, done}
use sedona_vm_debug.Vm.Word.{Memory, update, ival, to_u64, load_u8, load_u16}
use sedona_vm_debug.Vm.Opcode.{Opcode}
use sedona_vm_debug.Vm.Machine.{
  Vm, Step, running, returned, block2addr, cell_addr, cell_index, u2_arg, push_cell, skip,
}

-- The label `call`: the return address is on the top, and `addr` is the method. The two bytes at a
-- method's address are the numbers of its parameters and of its locals.
unfoldable pub enter : ℕ → Vm → Vm
enter addr vm =
    let num_params = load_u8 vm.memory addr in
    let num_locals = load_u8 vm.memory (addr + 1) in
    let fp = vm.sp in
    record vm {
      sp = vm.sp + 2 + num_locals;
      cp = to_u64 (addr + 2);
      fp = fp;
      pp = fp - num_params;
      lp = fp + 3;
      num_params = num_params;
      num_locals = num_locals;
      stack = update (update vm.stack (vm.sp + 1) (cell_addr vm.fp)) (vm.sp + 2) addr;
    }

unfoldable pub call_static : Vm → Vm
call_static vm = enter (to_u64 (block2addr vm.cb (u2_arg vm))) (push_cell (to_u64 (vm.cp + 3)) vm)

-- The first field of an object is the block of its virtual table.
unfoldable pub call_virtual : Vm → Vm
call_virtual vm =
    let num_params = load_u8 vm.memory (vm.cp + 3) in
    let this = vm.stack (vm.sp + 1 - num_params) in
    let table = block2addr vm.cb (load_u16 vm.memory this) in
    let method = load_u16 vm.memory (table + 2 * u2_arg vm) in
    enter (to_u64 (block2addr vm.cb method)) (push_cell (to_u64 (vm.cp + 4)) vm)

-- The registers once a frame is unwound: those of the caller's frame and its method.
unfoldable pub restore : ℕ → ℕ → Vm → Vm
restore sp cp vm =
    let fp = cell_index (vm.stack (vm.fp + 1)) in
    let addr = vm.stack (fp + 2) in
    let num_params = load_u8 vm.memory addr in
    record vm {
      sp = sp;
      cp = cp;
      fp = fp;
      pp = fp - num_params;
      lp = fp + 3;
      num_params = num_params;
      num_locals = load_u8 vm.memory (addr + 1);
    }

-- The three returns. A return address of zero ends `vmCallDebug`. The check of the stack's balance
-- only prints.
unfoldable pub return_pop : Vm → Step
return_pop vm =
    let cell = vm.stack vm.sp in
    let sp = vm.fp - vm.num_params in
    let cp = vm.stack vm.fp in
    if cp == 0
    then returned (ival cell) (record vm { sp = sp; cp = 0 })
    else (let back = restore sp cp vm in
        running (record back { stack = update back.stack sp cell }))

unfoldable pub return_pop_wide : Vm → Step
return_pop_wide vm =
    let value = vm.stack (vm.sp - 1) in
    let sp = vm.fp - vm.num_params in
    let cp = vm.stack vm.fp in
    if cp == 0
    then returned 0 (record vm { sp = sp; cp = 0 })
    else (let back = restore sp cp vm in
        running (record back { sp = sp + 1; stack = update back.stack sp value }))

unfoldable pub return_void : Vm → Step
return_void vm =
    let sp = vm.fp - vm.num_params - 1 in
    let cp = vm.stack vm.fp in
    if cp == 0
    then returned (ival (vm.stack sp)) (record vm { sp = sp; cp = 0 })
    else running (restore sp cp vm)

unfoldable pub exec_returns : Opcode → Vm → Option (Outcome Step)
exec_returns Opcode.return_pop vm = some (done (return_pop vm))
exec_returns Opcode.return_pop_wide vm = some (done (return_pop_wide vm))
exec_returns Opcode.return_void vm = some (done (return_void vm))
exec_returns _ vm = none

-- The table of native methods, which other files fill, by kit and method. A method takes the number
-- of the cell of its first parameter and the machine; here it gives a value back and changes the
-- memory, and leaves the stack.
pub record Natives : Type 0 where
  pub is_valid : ℕ → ℕ → Bool
  pub native : ℕ → ℕ → ℕ → Vm → ℕ
  pub effect : ℕ → ℕ → ℕ → Vm → Memory

abbrev pub err_missing_native : ℕ
err_missing_native = 12

-- What a native method gives back, and the machine after it, its parameters still on the stack.
abbrev pub native_result : Natives → Vm → ℕ
native_result n vm =
    let u2 = load_u8 vm.memory (vm.cp + 3) in
    n.native (load_u8 vm.memory (vm.cp + 1)) (load_u8 vm.memory (vm.cp + 2)) (vm.sp + 1 - u2) vm

abbrev pub native_memory : Natives → Vm → Memory
native_memory n vm =
    let u2 = load_u8 vm.memory (vm.cp + 3) in
    n.effect (load_u8 vm.memory (vm.cp + 1)) (load_u8 vm.memory (vm.cp + 2)) (vm.sp + 1 - u2) vm

-- Only the two calls that take a result test that the method is there. `height` is the stack
-- above the first parameter afterwards.
unfoldable pub native_call : Natives → ℕ → Vm → Step
native_call n height vm =
    let u2 = load_u8 vm.memory (vm.cp + 3) in
    let base = vm.sp + 1 - u2 in
    if n.is_valid (load_u8 vm.memory (vm.cp + 1)) (load_u8 vm.memory (vm.cp + 2))
    then (running (
        skip 4 (record vm {
          sp = base + height;
          stack = update vm.stack base (native_result n vm);
          memory = native_memory n vm;
        })))
    else returned err_missing_native vm

unfoldable pub native_call_void : Natives → Vm → Step
native_call_void n vm =
    let u2 = load_u8 vm.memory (vm.cp + 3) in
    running (skip 4 (record vm { sp = vm.sp - u2; memory = native_memory n vm }))

unfoldable pub exec_calls : Natives → Opcode → Vm → Option (Outcome Step)
exec_calls n Opcode.load_param0_call vm =
    some (done (running (call_static (push_cell (vm.stack vm.pp) vm))))
exec_calls n Opcode.call vm = some (done (running (call_static vm)))
exec_calls n Opcode.call_virtual vm = some (done (running (call_virtual vm)))
exec_calls n Opcode.call_native vm = some (done (native_call n 0 vm))
exec_calls n Opcode.call_native_wide vm = some (done (native_call n 1 vm))
exec_calls n Opcode.call_native_void vm = some (done (native_call_void n vm))
exec_calls n _ vm = none
