-- ===== src/Vm/Fields.antt =====
-- svm/vm.c, `getConst` to `setRef`: the fields of an object, by which native methods reach them.
pub mod Laws
use sedona_vm_debug.Base.{ℕ, ◌+◌, ◌==◌, if◌then◌else◌}
use sedona_vm_debug.Vm.Word.{
  Memory, to_u64, extend, load_u8, load_u16, load_u32, load_u64, store_u8, store_u16, store_u32,
  store_u64,
}
use sedona_vm_debug.Vm.Machine.{block2addr}

-- The offset is a signed `int`.
abbrev pub field_addr : ℕ → ℕ → ℕ
field_addr self offset = to_u64 (self + extend 32 offset)

unfoldable pub get_const : Memory → ℕ → ℕ → ℕ → ℕ
get_const m cb self offset = to_u64 (block2addr cb (load_u16 m (field_addr self offset)))

unfoldable pub get_byte : Memory → ℕ → ℕ → ℕ
get_byte m self offset = load_u8 m (field_addr self offset)

unfoldable pub get_short : Memory → ℕ → ℕ → ℕ
get_short m self offset = load_u16 m (field_addr self offset)

-- An `int32_t`, and a `float` by its pattern.
unfoldable pub get_int : Memory → ℕ → ℕ → ℕ
get_int m self offset = load_u32 m (field_addr self offset)

unfoldable pub get_float : Memory → ℕ → ℕ → ℕ
get_float m self offset = load_u32 m (field_addr self offset)

-- An `int64_t`, and a pointer.
unfoldable pub get_wide : Memory → ℕ → ℕ → ℕ
get_wide m self offset = load_u64 m (field_addr self offset)

unfoldable pub get_ref : Memory → ℕ → ℕ → ℕ
get_ref m self offset = load_u64 m (field_addr self offset)

unfoldable pub get_inline : ℕ → ℕ → ℕ
get_inline self offset = field_addr self offset

unfoldable pub set_byte_field : Memory → ℕ → ℕ → ℕ → Memory
set_byte_field m self offset val = store_u8 m (field_addr self offset) val

unfoldable pub set_short : Memory → ℕ → ℕ → ℕ → Memory
set_short m self offset val = store_u16 m (field_addr self offset) val

unfoldable pub set_int : Memory → ℕ → ℕ → ℕ → Memory
set_int m self offset val = store_u32 m (field_addr self offset) val

unfoldable pub set_float : Memory → ℕ → ℕ → ℕ → Memory
set_float m self offset val = store_u32 m (field_addr self offset) val

unfoldable pub set_wide : Memory → ℕ → ℕ → ℕ → Memory
set_wide m self offset val = store_u64 m (field_addr self offset) val

unfoldable pub set_ref : Memory → ℕ → ℕ → ℕ → Memory
set_ref m self offset val = store_u64 m (field_addr self offset) val
