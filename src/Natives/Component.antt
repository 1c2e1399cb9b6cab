-- ===== src/Natives/Component.antt =====
-- natives/sys_Component.c: the native methods that read, write and invoke the slots of components.
-- `params` is the number of the cell of the first parameter. A method gives its cell and, where it
-- writes, the memory; `ret` is what the local of that name holds before it is set.
pub mod Laws
use sedona_vm_debug.Base.{ℕ, ◌+◌, ◌*◌, ◌%◌, List, [], ◌∷◌, Option, none, some, ◌==◌, if◌then◌else◌}
use sedona_vm_debug.Vm.Word.{Memory, to_u64, ival, with_ival, load_u16}
use sedona_vm_debug.Vm.Machine.{Vm, Step, block2addr}
use sedona_vm_debug.Vm.Fields.{
  get_const, get_byte, get_short, get_int, get_wide, get_inline, set_byte_field, set_short, set_int,
  set_float, set_wide,
}
use sedona_vm_debug.Vm.Init.{vm_call}

-- `zeroCell`, which `nullCell` and `falseCell` are too, and `oneCell`, which is `trueCell`.
abbrev pub zero_cell : ℕ
zero_cell = 0

abbrev pub one_cell : ℕ
one_cell = 1

abbrev pub void_type_id : ℕ
void_type_id = 0

abbrev pub bool_type_id : ℕ
bool_type_id = 1

abbrev pub byte_type_id : ℕ
byte_type_id = 2

abbrev pub short_type_id : ℕ
short_type_id = 3

abbrev pub int_type_id : ℕ
int_type_id = 4

abbrev pub long_type_id : ℕ
long_type_id = 5

abbrev pub float_type_id : ℕ
float_type_id = 6

abbrev pub double_type_id : ℕ
double_type_id = 7

abbrev pub buf_type_id : ℕ
buf_type_id = 8

-- `getSlotType` and `getTypeId`, and `getSlotHandle`.
unfoldable pub type_id : Vm → ℕ → ℕ
type_id vm slot = get_byte vm.memory (get_const vm.memory vm.cb slot 4) 0

unfoldable pub slot_handle : Vm → ℕ → ℕ
slot_handle vm slot = get_short vm.memory slot 6

-- The parameters `self` and `slot` of every method, and what `typeId` and `offset` are set to.
abbrev pub self_of : Vm → ℕ → ℕ
self_of vm params = vm.stack params

abbrev pub type_of : Vm → ℕ → ℕ
type_of vm params = type_id vm (vm.stack (params + 1))

abbrev pub offset_of : Vm → ℕ → ℕ
offset_of vm params = slot_handle vm (vm.stack (params + 1))

-- The names of the slot are printed in a debug build, and memory is only read for it.
abbrev pub access_error : ℕ
access_error = zero_cell

unfoldable pub get_bool : ℕ → Vm → ℕ → ℕ
get_bool ret vm params =
    if type_of vm params == bool_type_id
    then with_ival ret (get_byte vm.memory (self_of vm params) (offset_of vm params))
    else access_error

unfoldable pub get_int_slot : ℕ → Vm → ℕ → ℕ
get_int_slot ret vm params =
    let self = self_of vm params in
    let offset = offset_of vm params in
    if type_of vm params == byte_type_id
    then with_ival ret (get_byte vm.memory self offset)
    else if type_of vm params == short_type_id
    then with_ival ret (get_short vm.memory self offset)
    else if type_of vm params == int_type_id
    then with_ival ret (get_int vm.memory self offset)
    else access_error

unfoldable pub get_long : Vm → ℕ → ℕ
get_long vm params =
    if type_of vm params == long_type_id
    then get_wide vm.memory (self_of vm params) (offset_of vm params)
    else 0

unfoldable pub get_float_slot : ℕ → Vm → ℕ → ℕ
get_float_slot ret vm params =
    if type_of vm params == float_type_id
    then with_ival ret (get_int vm.memory (self_of vm params) (offset_of vm params))
    else access_error

unfoldable pub get_double : Vm → ℕ → ℕ
get_double vm params =
    if type_of vm params == double_type_id
    then get_wide vm.memory (self_of vm params) (offset_of vm params)
    else 0

unfoldable pub get_buf : Vm → ℕ → ℕ
get_buf vm params =
    if type_of vm params == buf_type_id
    then get_inline (self_of vm params) (offset_of vm params)
    else access_error

-- The end of a setter: nothing is written where the slot holds the value already.
abbrev pub set_changed : ℕ → ℕ → Memory → Memory → ℕ × Memory
set_changed old val m written = if old == val then (zero_cell, m) else (one_cell, written)

unfoldable pub do_set_bool : Vm → ℕ → ℕ × Memory
do_set_bool vm params =
    let m = vm.memory in
    let self = self_of vm params in
    let offset = offset_of vm params in
    let val = ival (vm.stack (params + 2)) % 256 in
    if type_of vm params == bool_type_id
    then set_changed (get_byte m self offset) val m (set_byte_field m self offset val)
    else (access_error, m)

-- The three kinds compare what is there, a byte or a short without its sign, with the whole `int`.
unfoldable pub do_set_int : Vm → ℕ → ℕ × Memory
do_set_int vm params =
    let m = vm.memory in
    let self = self_of vm params in
    let offset = offset_of vm params in
    let val = ival (vm.stack (params + 2)) in
    if type_of vm params == byte_type_id
    then set_changed (get_byte m self offset) val m (set_byte_field m self offset val)
    else if type_of vm params == short_type_id
    then set_changed (get_short m self offset) val m (set_short m self offset val)
    else if type_of vm params == int_type_id
    then set_changed (get_int m self offset) val m (set_int m self offset val)
    else (access_error, m)

unfoldable pub do_set_long : Vm → ℕ → ℕ × Memory
do_set_long vm params =
    let m = vm.memory in
    let self = self_of vm params in
    let offset = offset_of vm params in
    let val = to_u64 (vm.stack (params + 2)) in
    if type_of vm params == long_type_id
    then set_changed (get_wide m self offset) val m (set_wide m self offset val)
    else (access_error, m)

unfoldable pub do_set_float : Vm → ℕ → ℕ × Memory
do_set_float vm params =
    let m = vm.memory in
    let self = self_of vm params in
    let offset = offset_of vm params in
    let val = ival (vm.stack (params + 2)) in
    if type_of vm params == float_type_id
    then set_changed (get_int m self offset) val m (set_float m self offset val)
    else (access_error, m)

unfoldable pub do_set_double : Vm → ℕ → ℕ × Memory
do_set_double vm params =
    let m = vm.memory in
    let self = self_of vm params in
    let offset = offset_of vm params in
    let val = to_u64 (vm.stack (params + 2)) in
    if type_of vm params == double_type_id
    then set_changed (get_wide m self offset) val m (set_wide m self offset val)
    else (access_error, m)

-- The entry in the virtual table of the object.
unfoldable pub get_action_method : Memory → ℕ → ℕ → ℕ → ℕ
get_action_method m cb self vidx =
    load_u16 m (to_u64 (block2addr cb (load_u16 m (to_u64 self)) + 2 * vidx))

-- The nested call of the action, as far as its first frame; every invocation gives back the null
-- cell after it, and without a call where the type is not the expected one.
abbrev pub invoke : ℕ → List ℕ → Vm → ℕ → Option Step
invoke expected args vm params =
    if type_of vm params == expected
    then some (
        vm_call (get_action_method vm.memory vm.cb (self_of vm params) (offset_of vm params)) args
          vm)
    else none

unfoldable pub invoke_void : Vm → ℕ → Option Step
invoke_void vm params = invoke void_type_id (self_of vm params ∷ []) vm params

-- `arg` is what `args[1]` holds before it is set.
unfoldable pub invoke_bool : ℕ → Vm → ℕ → Option Step
invoke_bool arg vm params =
    invoke bool_type_id
      (self_of vm params ∷ with_ival arg (ival (vm.stack (params + 2)) % 256) ∷ []) vm params

unfoldable pub invoke_int : ℕ → Vm → ℕ → Option Step
invoke_int arg vm params =
    invoke int_type_id (self_of vm params ∷ with_ival arg (ival (vm.stack (params + 2))) ∷ []) vm
      params

-- A wide argument takes two cells; `arg` is what the second of them holds.
unfoldable pub invoke_long : ℕ → Vm → ℕ → Option Step
invoke_long arg vm params =
    invoke long_type_id (self_of vm params ∷ vm.stack (params + 2) ∷ arg ∷ []) vm params

unfoldable pub invoke_float : ℕ → Vm → ℕ → Option Step
invoke_float arg vm params =
    invoke float_type_id (self_of vm params ∷ with_ival arg (ival (vm.stack (params + 2))) ∷ []) vm
      params

unfoldable pub invoke_double : ℕ → Vm → ℕ → Option Step
invoke_double arg vm params =
    invoke double_type_id (self_of vm params ∷ vm.stack (params + 2) ∷ arg ∷ []) vm params

unfoldable pub invoke_buf : Vm → ℕ → Option Step
invoke_buf vm params = invoke buf_type_id (self_of vm params ∷ vm.stack (params + 2) ∷ []) vm params
