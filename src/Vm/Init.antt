-- ===== src/Vm/Init.antt =====
-- svm/vm.c: `vmInit`, which checks the header of a code image, and how a call of a method begins.
pub mod Laws
use sedona_vm_debug.Base.{
  ℕ, zero, suc, ◌+◌, ◌-◌, ◌*◌, ◌^◌, Bool, not, ◌||◌, List, [], ◌∷◌, Option, none, some, ◌==◌,
  if◌then◌else◌, length,
}
use sedona_vm_debug.Vm.Word.{Memory, update, to_u64, load_u8, load_u32}
use sedona_vm_debug.Vm.Machine.{Vm, Step, running, returned, block2addr, push_cell}

-- errorcodes.h.
abbrev pub err_malloc_static_data : ℕ
err_malloc_static_data = 3

abbrev pub err_bad_image_magic : ℕ
err_bad_image_magic = 6

abbrev pub err_bad_image_version : ℕ
err_bad_image_version = 7

abbrev pub err_bad_image_block_size : ℕ
err_bad_image_block_size = 8

abbrev pub err_bad_image_ref_size : ℕ
err_bad_image_ref_size = 9

abbrev pub err_bad_image_code_size : ℕ
err_bad_image_code_size = 10

abbrev pub err_invalid_method_params : ℕ
err_invalid_method_params = 102

abbrev pub vm_magic : ℕ
vm_magic = 0x5ED0BA07

-- `memset(dst, 0, n)`.
unfoldable pub clear : Memory → ℕ → ℕ → Memory
clear m dst zero = m
clear m dst (suc n) = update (clear m dst n) (to_u64 (dst + n)) 0

-- The end of `vmInit`, with the address that `malloc` gave, or `none` for NULL.
abbrev pub init_data : ℕ → Option ℕ → Vm → Step
init_data u4 none vm = returned err_malloc_static_data (record vm { db = 0 })
init_data u4 (some db) vm = returned 0 (record vm {
  db = db;
  memory = clear vm.memory db u4;
  assert_successes = 0;
  assert_failures = 0;
})

-- `vmInit` gives back an error, or zero when all is well.
unfoldable pub vm_init : (ℕ → Option ℕ) → ℕ → Vm → Step
vm_init malloc code_size vm =
    if not (load_u32 vm.memory vm.cb == vm_magic)
    then returned err_bad_image_magic vm
    else if not (load_u8 vm.memory (vm.cb + 4) == 1) || not (load_u8 vm.memory (vm.cb + 5) == 5)
    then returned err_bad_image_version vm
    else if not (load_u8 vm.memory (vm.cb + 6) == 4)
    then returned err_bad_image_block_size vm
    else if not (load_u8 vm.memory (vm.cb + 7) == 8)
    then returned err_bad_image_ref_size vm
    else if not (load_u32 vm.memory (vm.cb + 8) == code_size)
    then returned err_bad_image_code_size vm
    else (let u4 = load_u32 vm.memory (vm.cb + 12) in init_data u4 (malloc u4) vm)

-- `*(++sp) = args[u2]`, for each.
unfoldable pub push_args : List ℕ → Vm → Vm
push_args [] vm = vm
push_args (arg ∷ args) vm = push_args args (push_cell arg vm)

-- `vmCallDebug` up to its loop: the first frame has a return address and a frame pointer of zero.
unfoldable pub vm_call : ℕ → List ℕ → Vm → Step
vm_call methodid args vm =
    let cp = to_u64 (block2addr vm.cb methodid) in
    let num_params = load_u8 vm.memory cp in
    let num_locals = load_u8 vm.memory (cp + 1) in
    if not (num_params == length args)
    then returned err_invalid_method_params vm
    else (let vm = push_cell cp (push_cell 0 (push_cell 0 (push_args args vm))) in
        let fp = vm.sp - 2 in
        running (record vm {
          sp = vm.sp + num_locals;
          cp = to_u64 (cp + 2);
          fp = fp;
          pp = fp - num_params;
          lp = fp + 3;
          num_params = num_params;
          num_locals = num_locals;
        }))
