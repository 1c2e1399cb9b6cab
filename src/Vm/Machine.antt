-- ===== src/Vm/Machine.antt =====
-- svm/vm.c: the registers of `vmCall`, its stack and memory, and what the cases of its switch share.
use sedona_vm_debug.Base.{ℕ, ◌+◌, ◌-◌, ◌*◌, ◌/◌, Bool, Option, none, some}
use sedona_vm_debug.Memory.{Outcome, done, undefined}
use sedona_vm_debug.Vm.Word.{Memory, to_u64, update, ival, with_ival, of_bool}
use sedona_vm_debug.Vm.Word.{load_u8, load_u16, load_u32}

-- `sp`, `fp`, `pp` and `lp` point to cells: they are the numbers of the cells, and an address that
-- is saved in a cell is eight times that. No code pops below the base of the stack, and the stack
-- is reached by these registers alone.
pub record Vm : Type 0 where
  pub sp : ℕ
  pub cp : ℕ
  pub fp : ℕ
  pub pp : ℕ
  pub lp : ℕ
  pub num_params : ℕ
  pub num_locals : ℕ
  pub stack : ℕ → ℕ
  pub memory : Memory
  pub cb : ℕ
  pub db : ℕ
  pub assert_successes : ℕ
  pub assert_failures : ℕ

-- What one instruction does: go on, or return from `vmCall` with a value.
pub data Step : Type 0 where
  running : Vm → Step
  returned : ℕ → Vm → Step

-- `block2addr` with blocks of four bytes.
abbrev pub block2addr : ℕ → ℕ → ℕ
block2addr cb block = cb + block * 4

-- An address as it is kept in a cell.
abbrev pub cell_addr : ℕ → ℕ
cell_addr index = 8 * index

abbrev pub cell_index : ℕ → ℕ
cell_index addr = addr / 8

abbrev pub u1_arg : Vm → ℕ
u1_arg vm = load_u8 vm.memory (vm.cp + 1)

abbrev pub u2_arg : Vm → ℕ
u2_arg vm = load_u16 vm.memory (vm.cp + 1)

abbrev pub u4_arg : Vm → ℕ
u4_arg vm = load_u32 vm.memory (vm.cp + 1)

abbrev pub skip : ℕ → Vm → Vm
skip n vm = record vm { cp = to_u64 (vm.cp + n) }

-- `(++sp)->ival = v` and `*(++sp) = cell`.
abbrev pub push_ival : ℕ → Vm → Vm
push_ival v vm = record vm {
  sp = vm.sp + 1;
  stack = update vm.stack (vm.sp + 1) (with_ival (vm.stack (vm.sp + 1)) v);
}

abbrev pub push_cell : ℕ → Vm → Vm
push_cell v vm = record vm { sp = vm.sp + 1; stack = update vm.stack (vm.sp + 1) v }

-- A long or double takes two cells and is kept in the lower one.
abbrev pub push_wide : ℕ → Vm → Vm
push_wide v vm = record vm { sp = vm.sp + 2; stack = update vm.stack (vm.sp + 1) v }

-- The result of an operation on the two top cells, in the lower of them.
abbrev pub binary : (ℕ → ℕ → ℕ) → Vm → Vm
binary f vm = record vm {
  sp = vm.sp - 1;
  stack = update vm.stack (vm.sp - 1) (f (vm.stack (vm.sp - 1)) (vm.stack vm.sp));
}

abbrev pub int_binary : (ℕ → ℕ → ℕ) → Vm → Vm
int_binary f = binary (λ a b. with_ival a (f (ival a) (ival b)))

abbrev pub int_compare : (ℕ → ℕ → Bool) → Vm → Vm
int_compare f = int_binary (λ a b. of_bool (f a b))

-- The same on two wide values, with a 32-bit and with a wide result.
abbrev pub wide_compare : (ℕ → ℕ → Bool) → Vm → Vm
wide_compare f vm = record vm {
  sp = vm.sp - 3;
  stack = update vm.stack (vm.sp - 3) (
      with_ival (vm.stack (vm.sp - 3)) (of_bool (f (vm.stack (vm.sp - 3)) (vm.stack (vm.sp - 1)))));
}

abbrev pub wide_binary : (ℕ → ℕ → ℕ) → Vm → Vm
wide_binary f vm = record vm {
  sp = vm.sp - 2;
  stack = update vm.stack (vm.sp - 3) (f (vm.stack (vm.sp - 3)) (vm.stack (vm.sp - 1)));
}

-- An operation on the top cell, and on the top wide value.
abbrev pub unary : (ℕ → ℕ) → Vm → Vm
unary f vm = record vm { stack = update vm.stack vm.sp (f (vm.stack vm.sp)) }

abbrev pub int_unary : (ℕ → ℕ) → Vm → Vm
int_unary f = unary (λ a. with_ival a (f (ival a)))

abbrev pub wide_unary : (ℕ → ℕ) → Vm → Vm
wide_unary f vm = record vm { stack = update vm.stack (vm.sp - 1) (f (vm.stack (vm.sp - 1))) }

-- The next instruction, `n` bytes on.
abbrev pub next : ℕ → Vm → Outcome Step
next n vm = done (running (skip n vm))

-- A partial operation of C on the operands; where it is not defined, neither is the instruction.
abbrev pub when_defined : Option ℕ → (ℕ → Vm) → Outcome Step
when_defined none f = undefined
when_defined (some v) f = next 1 (f v)
