-- ===== src/Vm/Fields/Laws.antt =====
-- svm/vm.c: the setters, the getters and the instructions on fields agree with one another.
use sedona_vm_debug.Base.{if◌then◌else◌, ◌==◌}
use sedona_vm_debug.Vm.Word.{load_u16}
use sedona_vm_debug.Vm.Fields.{field_addr}
use sedona_vm_debug.Base.{ℕ, ◌+◌, ◌*◌, ◌%◌, ◌^◌, ◌<◌, ◌≡◌, arith, ap, ◌∙◌, some, lt→ltb}
use sedona_vm_debug.Vm.Word.{Memory, to_u64, extend, update}
use sedona_vm_debug.Vm.Word.Laws.{
  load_u8-store_u8, load_u16-store_u16, load_u32-store_u32, load_u64-store_u64,
}
use sedona_vm_debug.Vm.Opcode.{Opcode}
use sedona_vm_debug.Vm.Machine.{Vm, u2_arg, next}
use sedona_vm_debug.Vm.Fields.{
  get_const, get_byte, get_short, get_int, get_float, get_wide, get_ref, set_byte_field, set_short,
  set_int, set_float, set_wide, set_ref,
}
use sedona_vm_debug.Vm.Exec.Storage.{exec_consts}

-- Each getter gives back what its setter stored at the same offset, cut to the width of the field:
-- bytes, shorts, ints, floats, wide values and references.
pub getters-setters :
    (m : Memory) (self offset v : ℕ)
    → (get_byte (set_byte_field m self offset v) self offset ≡ v % 2 ^ 8)
      × (get_short (set_short m self offset v) self offset ≡ v % 2 ^ 16)
      × (get_int (set_int m self offset v) self offset ≡ v % 2 ^ 32)
      × (get_float (set_float m self offset v) self offset ≡ v % 2 ^ 32)
      × (get_wide (set_wide m self offset v) self offset ≡ v % 2 ^ 64)
      × (get_ref (set_ref m self offset v) self offset ≡ v % 2 ^ 64)
unfolding get_byte get_short get_int get_float get_wide get_ref set_byte_field set_short set_int
    set_float set_wide set_ref
getters-setters m self offset v =
    let at = to_u64 (self + extend 32 offset) in
    (
      load_u8-store_u8 m at v,
      load_u16-store_u16 m at v,
      load_u32-store_u32 m at v,
      load_u32-store_u32 m at v,
      load_u64-store_u64 m at v,
      load_u64-store_u64 m at v,
    )

wrapped : (a i : ℕ) → to_u64 (to_u64 a + i) ≡ to_u64 (a + i)
wrapped a i = omega arith

load_u16-to_u64 : (m : Memory) (a : ℕ) → load_u16 m (to_u64 a) ≡ load_u16 m a
load_u16-to_u64 m a =
    ap (λ i. m i % 256 + 256 * (m (to_u64 (to_u64 a + 1)) % 256)) (omega arith)
    ∙ ap (λ i. m (to_u64 a) % 256 + 256 * (m i % 256)) (wrapped a 1)

load_u16-field_addr :
    (m : Memory) (self offset : ℕ)
    → offset < 2 ^ 31
    → load_u16 m (field_addr self offset) ≡ load_u16 m (self + offset)
load_u16-field_addr m self offset h =
    rw (lt→ltb offset (2 ^ 31) h) (load_u16-to_u64 m (self + offset))

u2_arg-bound : (vm : Vm) → u2_arg vm < 2 ^ 31
u2_arg-bound vm = omega arith

-- The block that a field of constant objects holds, at the offset of the instruction.
abbrev pub field_block : Vm → ℕ
field_block vm = load_u16 vm.memory (vm.stack vm.sp + u2_arg vm)

-- The instruction that loads a constant object from a field puts the null pointer on the stack for
-- a zero field, and else what `getConst` gives for the field.
pub exec_consts-get_const :
    (vm : Vm)
    → exec_consts Opcode.load_const_field_u2 vm
      ≡ some (
          next 3 (record vm {
            stack = update vm.stack vm.sp (
                if field_block vm == 0
                then 0
                else get_const vm.memory vm.cb (vm.stack vm.sp) (u2_arg vm));
          }))
unfolding exec_consts get_const
exec_consts-get_const vm =
    rw (load_u16-field_addr vm.memory (vm.stack vm.sp) (u2_arg vm) (u2_arg-bound vm))

-- For a field that holds zero `getConst` gives the base of the code, not the null pointer.
pub get_const-null :
    (m : Memory) (cb self offset : ℕ)
    → get_short m self offset ≡ 0
    → get_const m cb self offset ≡ to_u64 cb
unfolding get_const get_short
get_const-null m cb self offset h = rw h (omega arith)
