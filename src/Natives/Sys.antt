-- ===== src/Natives/Sys.antt =====
-- natives/sys_Sys.c, sys_Test.c, sys_Type.c and sys_Str.c: bytes, bits and tests.
use sedona_vm_debug.Base.{
  ℕ, zero, suc, ◌+◌, ◌%◌, [], ◌∷◌, Option, none, some, ◌==◌, ltb, leb, if◌then◌else◌, bit_and,
  bit_or,
}
use sedona_vm_debug.Vm.Word.{
  Memory, to_u64, update, ival, with_ival, extend, is_negative, load_u8, load_u16, store_u8,
}
use sedona_vm_debug.Vm.Machine.{Vm, Step, block2addr}
use sedona_vm_debug.Vm.Fields.{get_short}
use sedona_vm_debug.Vm.Init.{clear, vm_call}
use sedona_vm_debug.Natives.Component.{zero_cell, one_cell}

-- `(size_t)params[i].ival`, with the sign of the `int` extended.
abbrev pub size_param : Vm → ℕ → ℕ
size_param vm i = extend 32 (ival (vm.stack i))

abbrev pub address_at : Vm → ℕ → ℕ → ℕ
address_at vm base off = to_u64 (vm.stack base + size_param vm off)

abbrev pub malloc_result : ℕ → Option ℕ → Vm → ℕ × Memory
malloc_result num none vm = (0, vm.memory)
malloc_result num (some mem) vm = (mem, clear vm.memory mem num)

-- `malloc` gives an address or `none` for NULL, from the number of bytes.
unfoldable pub sys_malloc : (ℕ → Option ℕ) → Vm → ℕ → ℕ × Memory
sys_malloc malloc vm params =
    malloc_result (size_param vm params) (malloc (size_param vm params)) vm

-- `memmove(dst, src, n)`, from the memory as it is before.
unfoldable pub memmove : Memory → ℕ → ℕ → ℕ → Memory
memmove m dst src zero = m
memmove m dst src (suc n) = update (memmove m dst src n) (to_u64 (dst + n)) (load_u8 m (src + n))

unfoldable pub sys_copy : Vm → ℕ → ℕ × Memory
sys_copy vm params =
    let num = ival (vm.stack (params + 4)) in
    (
      zero_cell,
      if is_negative 32 num
          then vm.memory
          else memmove vm.memory (address_at vm (params + 2) (params + 3))
              (address_at vm params (params + 1)) num,
    )

abbrev pub neg_one_cell : ℕ
neg_one_cell = 0xFFFFFFFF

-- The loop over the bytes that are left.
unfoldable pub compare_loop : Memory → ℕ → ℕ → ℕ → ℕ
compare_loop m a b zero = zero_cell
compare_loop m a b (suc n) =
    let rest = compare_loop m (a + 1) (b + 1) n in
    let ai = load_u8 m a in
    let bi = load_u8 m b in if ai == bi then rest else if ltb ai bi then neg_one_cell else one_cell

unfoldable pub sys_compare_bytes : Vm → ℕ → ℕ
sys_compare_bytes vm params =
    let len = ival (vm.stack (params + 4)) in
    if is_negative 32 len
    then zero_cell
    else compare_loop vm.memory (address_at vm params (params + 1))
        (address_at vm (params + 2) (params + 3)) len

-- `memset(dst, val, n)`.
unfoldable pub memset : Memory → ℕ → ℕ → ℕ → Memory
memset m dst val zero = m
memset m dst val (suc n) = store_u8 (memset m dst val n) (dst + n) val

unfoldable pub sys_set_bytes : Vm → ℕ → ℕ × Memory
sys_set_bytes vm params = (
  zero_cell,
  memset vm.memory (address_at vm (params + 1) (params + 2)) (ival (vm.stack params) % 256)
      (size_param vm (params + 3)),
)

-- `bytes[i] op= mask` for the bytes below `len`, from the last back, and from the first on.
unfoldable pub mask_back : (ℕ → ℕ → ℕ) → ℕ → Memory → ℕ → ℕ → Memory
mask_back op mask m bytes zero = m
mask_back op mask m bytes (suc n) =
    mask_back op mask (store_u8 m (bytes + n) (op (load_u8 m (bytes + n)) mask)) bytes n

unfoldable pub mask_on : (ℕ → ℕ → ℕ) → ℕ → Memory → ℕ → ℕ → Memory
mask_on op mask m bytes zero = m
mask_on op mask m bytes (suc n) =
    let before = mask_on op mask m bytes n in
    store_u8 before (bytes + n) (op (load_u8 before (bytes + n)) mask)

-- The cases of the switch fall through from the last byte to the first; the loop of its default
-- compares an `int`, which overflows where there are more bytes than an `int` counts.
abbrev pub mask_bytes : (ℕ → ℕ → ℕ) → Vm → ℕ → ℕ × Memory
mask_bytes op vm params =
    let mask = ival (vm.stack params) % 256 in
    let bytes = address_at vm (params + 1) (params + 2) in
    let len = size_param vm (params + 3) in
    (
      zero_cell,
      if leb len 8
          then mask_back op mask vm.memory bytes len
          else mask_on op mask vm.memory bytes len,
    )

unfoldable pub sys_and_bytes : Vm → ℕ → ℕ × Memory
sys_and_bytes = mask_bytes bit_and

unfoldable pub sys_or_bytes : Vm → ℕ → ℕ × Memory
sys_or_bytes = mask_bytes bit_or

unfoldable pub sys_scode_addr : Vm → ℕ
sys_scode_addr vm = vm.cb

-- `floatToBits`, `bitsToFloat` and their wide versions: the cell is given back as it is.
unfoldable pub sys_float_to_bits : Vm → ℕ → ℕ
sys_float_to_bits vm params = vm.stack params

unfoldable pub sys_double_to_bits : Vm → ℕ → ℕ
sys_double_to_bits vm params = vm.stack params

unfoldable pub sys_bits_to_float : Vm → ℕ → ℕ
sys_bits_to_float vm params = vm.stack params

unfoldable pub sys_bits_to_double : Vm → ℕ → ℕ
sys_bits_to_double vm params = vm.stack params

-- The loop over the tests from `tests` on, each a slot and a method; `call` is `vm->call` without
-- arguments, by the machine after it.
unfoldable pub do_tests : (ℕ → Vm → Vm) → ℕ → ℕ → Vm → Vm
do_tests call tests zero vm = vm
do_tests call tests (suc n) vm =
    do_tests call (tests + 4) n (call (load_u16 vm.memory (tests + 2)) vm)

-- The table of tests begins with their number.
unfoldable pub do_main : (ℕ → Vm → Vm) → ℕ → Vm → ℕ × Vm
do_main call ret vm =
    let tests_bix = load_u16 vm.memory (to_u64 (vm.cb + 18)) in
    let tests = to_u64 (block2addr vm.cb tests_bix) in
    let num_tests = load_u16 vm.memory tests in
    if tests_bix == 0
    then (neg_one_cell, vm)
    else if num_tests == 0
    then (neg_one_cell, vm)
    else (let after = do_tests call (to_u64 (tests + 2)) num_tests vm in
        (with_ival ret after.assert_failures, after))

-- `Type.malloc`: the object with its bytes cleared, and the call of its initializer as far as its
-- first frame; none where there is no memory.
abbrev pub type_malloc_result : ℕ → ℕ → Option ℕ → Vm → ℕ × Option Step
type_malloc_result size init none vm = (zero_cell, none)
type_malloc_result size init (some mem) vm =
    (mem, some (vm_call init (mem ∷ []) (record vm { memory = clear vm.memory mem size })))

unfoldable pub type_malloc : (ℕ → Option ℕ) → Vm → ℕ → ℕ × Option Step
type_malloc malloc vm params =
    let size = get_short vm.memory (vm.stack params) 8 in
    type_malloc_result size (get_short vm.memory (vm.stack params) 10) (malloc size) vm

-- The offset is unsigned.
unfoldable pub str_from_bytes : Vm → ℕ → ℕ
str_from_bytes vm params = to_u64 (vm.stack params + ival (vm.stack (params + 1)))
