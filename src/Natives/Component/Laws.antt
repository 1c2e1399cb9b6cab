-- ===== src/Natives/Component/Laws.antt =====
-- natives/sys_Component.c: what the setters and getters of slots do together.
use sedona_vm_debug.Base.{
  ℕ, ◌+◌, ◌%◌, ◌^◌, ◌<◌, ◌≡◌, refl, sym, ◌∙◌, ap, arith, ◌==◌, ==→eq, Bool-cases, inl, inr,
}
use sedona_vm_debug.Vm.Word.{Memory, ival, with_ival, to_u64}
use sedona_vm_debug.Vm.Machine.{Vm}
use sedona_vm_debug.Vm.Fields.{get_float}
use sedona_vm_debug.Vm.Fields.{
  get_byte, get_short, get_int, get_wide, set_byte_field, set_short, set_int, set_float, set_wide,
}
use sedona_vm_debug.Vm.Fields.Laws.{getters-setters}
use sedona_vm_debug.Natives.Component.{
  bool_type_id, byte_type_id, short_type_id, int_type_id, long_type_id, float_type_id,
  double_type_id, self_of, type_of, offset_of, set_changed, get_bool, get_int_slot, get_long,
  get_float_slot, get_double, do_set_bool, do_set_int, do_set_long, do_set_float, do_set_double,
}

-- The machine after a setter.
abbrev pub stored : Vm → ℕ × Memory → Vm
stored vm r = record vm { memory = r.1 }

-- The setter wrote neither to the slot nor to its type.
pub record LeavesSlot (vm : Vm) (params : ℕ) (r : ℕ × Memory) : Type 0 where
  pub same_type : type_of (stored vm r) params ≡ type_of vm params
  pub same_offset : offset_of (stored vm r) params ≡ offset_of vm params

-- Whether there was something to store, `get` reads the value afterwards, cut to `w` numbers.
set_changed-read :
    (get : Memory → ℕ) (w old val : ℕ) (m written : Memory)
    → get m ≡ old
    → old < w
    → old % w ≡ old
    → get written ≡ val % w
    → get ((set_changed old val m written).1) ≡ val % w
set_changed-read get w old val m written before small kept after = elim (Bool-cases (old == val)) [
  | inl same ↦ rw same (before ∙ sym kept ∙ ap (λ v. v % w) (==→eq old val same))
  | inr changed ↦ rw changed after
]

-- What the field of a slot holds after its setter.
module _ (vm : Vm) (params : ℕ) where
  bool_field :
      type_of vm params ≡ bool_type_id
      → get_byte ((do_set_bool vm params).1) (self_of vm params) (offset_of vm params)
        ≡ vm.stack (params + 2) % 2 ^ 8
  unfolding do_set_bool get_byte
  bool_field is =
      let self = self_of vm params in
      let offset = offset_of vm params in
      let val = ival (vm.stack (params + 2)) % 256 in
      let read =
        set_changed-read (λ m. get_byte m self offset) (2 ^ 8) (get_byte vm.memory self offset) val
          vm.memory (set_byte_field vm.memory self offset val) refl (omega arith) (omega arith)
          ((getters-setters vm.memory self offset val).0) in
      let cut : val % 2 ^ 8 ≡ vm.stack (params + 2) % 2 ^ 8 = omega arith in rw is (read ∙ cut)

  byte_field :
      type_of vm params ≡ byte_type_id
      → get_byte ((do_set_int vm params).1) (self_of vm params) (offset_of vm params)
        ≡ vm.stack (params + 2) % 2 ^ 8
  unfolding do_set_int get_byte
  byte_field is =
      let self = self_of vm params in
      let offset = offset_of vm params in
      let val = ival (vm.stack (params + 2)) in
      let read =
        set_changed-read (λ m. get_byte m self offset) (2 ^ 8) (get_byte vm.memory self offset) val
          vm.memory (set_byte_field vm.memory self offset val) refl (omega arith) (omega arith)
          ((getters-setters vm.memory self offset val).0) in
      let cut : val % 2 ^ 8 ≡ vm.stack (params + 2) % 2 ^ 8 = omega arith in rw is (read ∙ cut)

  short_field :
      type_of vm params ≡ short_type_id
      → get_short ((do_set_int vm params).1) (self_of vm params) (offset_of vm params)
        ≡ vm.stack (params + 2) % 2 ^ 16
  unfolding do_set_int get_short
  short_field is =
      let self = self_of vm params in
      let offset = offset_of vm params in
      let val = ival (vm.stack (params + 2)) in
      let read =
        set_changed-read (λ m. get_short m self offset) (2 ^ 16) (get_short vm.memory self offset)
          val vm.memory (set_short vm.memory self offset val) refl (omega arith) (omega arith)
          ((getters-setters vm.memory self offset val).1) in
      let cut : val % 2 ^ 16 ≡ vm.stack (params + 2) % 2 ^ 16 = omega arith in rw is (read ∙ cut)

  int_field :
      type_of vm params ≡ int_type_id
      → get_int ((do_set_int vm params).1) (self_of vm params) (offset_of vm params)
        ≡ vm.stack (params + 2) % 2 ^ 32
  unfolding do_set_int get_int
  int_field is =
      let self = self_of vm params in
      let offset = offset_of vm params in
      let val = ival (vm.stack (params + 2)) in
      let read =
        set_changed-read (λ m. get_int m self offset) (2 ^ 32) (get_int vm.memory self offset) val
          vm.memory (set_int vm.memory self offset val) refl (omega arith) (omega arith)
          ((getters-setters vm.memory self offset val).2) in
      let cut : val % 2 ^ 32 ≡ vm.stack (params + 2) % 2 ^ 32 = omega arith in rw is (read ∙ cut)

  float_field :
      type_of vm params ≡ float_type_id
      → get_int ((do_set_float vm params).1) (self_of vm params) (offset_of vm params)
        ≡ vm.stack (params + 2) % 2 ^ 32
  unfolding do_set_float get_int get_float
  float_field is =
      let self = self_of vm params in
      let offset = offset_of vm params in
      let val = ival (vm.stack (params + 2)) in
      let read =
        set_changed-read (λ m. get_int m self offset) (2 ^ 32) (get_int vm.memory self offset) val
          vm.memory (set_float vm.memory self offset val) refl (omega arith) (omega arith)
          ((getters-setters vm.memory self offset val).3) in
      let cut : val % 2 ^ 32 ≡ vm.stack (params + 2) % 2 ^ 32 = omega arith in rw is (read ∙ cut)

  long_field :
      type_of vm params ≡ long_type_id
      → get_wide ((do_set_long vm params).1) (self_of vm params) (offset_of vm params)
        ≡ vm.stack (params + 2) % 2 ^ 64
  unfolding do_set_long get_wide
  long_field is =
      let self = self_of vm params in
      let offset = offset_of vm params in
      let val = to_u64 (vm.stack (params + 2)) in
      let read =
        set_changed-read (λ m. get_wide m self offset) (2 ^ 64) (get_wide vm.memory self offset) val
          vm.memory (set_wide vm.memory self offset val) refl (omega arith) (omega arith)
          ((getters-setters vm.memory self offset val).4) in
      let cut : val % 2 ^ 64 ≡ vm.stack (params + 2) % 2 ^ 64 = omega arith in rw is (read ∙ cut)

  double_field :
      type_of vm params ≡ double_type_id
      → get_wide ((do_set_double vm params).1) (self_of vm params) (offset_of vm params)
        ≡ vm.stack (params + 2) % 2 ^ 64
  unfolding do_set_double get_wide
  double_field is =
      let self = self_of vm params in
      let offset = offset_of vm params in
      let val = to_u64 (vm.stack (params + 2)) in
      let read =
        set_changed-read (λ m. get_wide m self offset) (2 ^ 64) (get_wide vm.memory self offset) val
          vm.memory (set_wide vm.memory self offset val) refl (omega arith) (omega arith)
          ((getters-setters vm.memory self offset val).4) in
      let cut : val % 2 ^ 64 ≡ vm.stack (params + 2) % 2 ^ 64 = omega arith in rw is (read ∙ cut)

-- What its getter gives.
module _ (vm : Vm) (params ret : ℕ) where
  bool_slot :
      type_of vm params ≡ bool_type_id
      → LeavesSlot vm params (do_set_bool vm params)
      → get_bool ret (stored vm (do_set_bool vm params)) params
        ≡ with_ival ret (vm.stack (params + 2) % 2 ^ 8)
  unfolding get_bool
  bool_slot is leaves =
      rw (leaves.same_type, is, leaves.same_offset) (ap (with_ival ret) (bool_field vm params is))

  byte_slot :
      type_of vm params ≡ byte_type_id
      → LeavesSlot vm params (do_set_int vm params)
      → get_int_slot ret (stored vm (do_set_int vm params)) params
        ≡ with_ival ret (vm.stack (params + 2) % 2 ^ 8)
  unfolding get_int_slot
  byte_slot is leaves =
      rw (leaves.same_type, is, leaves.same_offset) (ap (with_ival ret) (byte_field vm params is))

  short_slot :
      type_of vm params ≡ short_type_id
      → LeavesSlot vm params (do_set_int vm params)
      → get_int_slot ret (stored vm (do_set_int vm params)) params
        ≡ with_ival ret (vm.stack (params + 2) % 2 ^ 16)
  unfolding get_int_slot
  short_slot is leaves =
      rw (leaves.same_type, is, leaves.same_offset) (ap (with_ival ret) (short_field vm params is))

  int_slot :
      type_of vm params ≡ int_type_id
      → LeavesSlot vm params (do_set_int vm params)
      → get_int_slot ret (stored vm (do_set_int vm params)) params
        ≡ with_ival ret (vm.stack (params + 2) % 2 ^ 32)
  unfolding get_int_slot
  int_slot is leaves =
      rw (leaves.same_type, is, leaves.same_offset) (ap (with_ival ret) (int_field vm params is))

  float_slot :
      type_of vm params ≡ float_type_id
      → LeavesSlot vm params (do_set_float vm params)
      → get_float_slot ret (stored vm (do_set_float vm params)) params
        ≡ with_ival ret (vm.stack (params + 2) % 2 ^ 32)
  unfolding get_float_slot
  float_slot is leaves =
      rw (leaves.same_type, is, leaves.same_offset) (ap (with_ival ret) (float_field vm params is))

  long_slot :
      type_of vm params ≡ long_type_id
      → LeavesSlot vm params (do_set_long vm params)
      → get_long (stored vm (do_set_long vm params)) params ≡ vm.stack (params + 2) % 2 ^ 64
  unfolding get_long
  long_slot is leaves = rw (leaves.same_type, is, leaves.same_offset) (long_field vm params is)

  double_slot :
      type_of vm params ≡ double_type_id
      → LeavesSlot vm params (do_set_double vm params)
      → get_double (stored vm (do_set_double vm params)) params ≡ vm.stack (params + 2) % 2 ^ 64
  unfolding get_double
  double_slot is leaves = rw (leaves.same_type, is, leaves.same_offset) (double_field vm params is)

-- The kinds of slots: the type, its setter and getter, and the value that they agree on, where `ret`
-- is what the cell of the result held before and `v` the cell of the parameter.
pub data Slot : ℕ → (Vm → ℕ → ℕ × Memory) → (ℕ → Vm → ℕ → ℕ) → (ℕ → ℕ → ℕ) → Type 0 where
  bool : Slot bool_type_id do_set_bool get_bool (λ ret v. with_ival ret (v % 2 ^ 8))
  byte : Slot byte_type_id do_set_int get_int_slot (λ ret v. with_ival ret (v % 2 ^ 8))
  short : Slot short_type_id do_set_int get_int_slot (λ ret v. with_ival ret (v % 2 ^ 16))
  int : Slot int_type_id do_set_int get_int_slot (λ ret v. with_ival ret (v % 2 ^ 32))
  float : Slot float_type_id do_set_float get_float_slot (λ ret v. with_ival ret (v % 2 ^ 32))
  long : Slot long_type_id do_set_long (λ ret. get_long) (λ ret v. v % 2 ^ 64)
  double : Slot double_type_id do_set_double (λ ret. get_double) (λ ret v. v % 2 ^ 64)

-- After the setter of a slot its getter gives the value of the setter's parameter, cut to the
-- slot's width: for bool, byte, short, int, float, long and double slots, whether or not the value
-- was there before. The slot has the type in question, and the field does not overlap the slot and
-- its type.
pub setters-Slot :
    (type : ℕ) (set : Vm → ℕ → ℕ × Memory) (get : ℕ → Vm → ℕ → ℕ) (value : ℕ → ℕ → ℕ) (vm : Vm)
    (params ret : ℕ)
    → Slot type set get value
    → type_of vm params ≡ type
    → LeavesSlot vm params (set vm params)
    → get ret (stored vm (set vm params)) params ≡ value ret (vm.stack (params + 2))
setters-Slot type set get value vm params ret bool is leaves = bool_slot vm params ret is leaves
setters-Slot type set get value vm params ret byte is leaves = byte_slot vm params ret is leaves
setters-Slot type set get value vm params ret short is leaves = short_slot vm params ret is leaves
setters-Slot type set get value vm params ret int is leaves = int_slot vm params ret is leaves
setters-Slot type set get value vm params ret float is leaves = float_slot vm params ret is leaves
setters-Slot type set get value vm params ret long is leaves = long_slot vm params ret is leaves
setters-Slot type set get value vm params ret double is leaves = double_slot vm params ret is leaves
