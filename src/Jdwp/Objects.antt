-- ===== src/Jdwp/Objects.antt =====
-- jdwp/objectHandler.c: the variables that the debugger knows.
use sedona_vm_debug.Base.{
  ℕ, ◌+◌, ◌-◌, ◌^◌, Bool, true, List, [], ◌∷◌, Option, none, some, ◌==◌, ltb, if◌then◌else◌,
  bit_and,
}
use sedona_vm_debug.Memory.{Outcome, done, undefined, ◌>>=◌, to_size}

pub record Variable : Type 0 where
  pub v_id : ℕ
  pub v_type : ℕ
  pub v_size : ℕ

-- `vList` from its head. The block of the list is fresh, so the chain ends in NULL only when
-- `terminated` says so, which a removal of the head and `dispose` see to.
pub record Variables : Type 0 where
  pub list : List Variable
  pub terminated : Bool
  pub size : ℕ

-- What a loop finds at the end of a chain.
abbrev pub at_end {ℓ} : {A : Type ℓ} → Bool → A → Outcome A
at_end terminated a = if terminated then done a else undefined

unfoldable pub dispose : Variables → Variables
dispose vs = record vs { list = []; terminated = true; size = 0 }

unfoldable pub add_variable : Variable → Variables → Variables
add_variable v vs = record vs { list = v ∷ vs.list; size = to_size (vs.size + 1) }

unfoldable pub get_variable_loop : Bool → ℕ → List Variable → Outcome (Option Variable)
get_variable_loop terminated id [] = at_end terminated none
get_variable_loop terminated id (v ∷ cur) =
    let rest = get_variable_loop terminated id cur in if v.v_id == id then done (some v) else rest

unfoldable pub get_variable_byoid : Variables → ℕ → Outcome (Option Variable)
get_variable_byoid vs id = get_variable_loop vs.terminated id vs.list

-- The loop of a removal behind `cur`: the chain that `cur` then points to, and how many went.
unfoldable pub remove_variable_loop : Bool → ℕ → List Variable → Outcome (List Variable × ℕ)
remove_variable_loop terminated id [] = at_end terminated ([], 0)
remove_variable_loop terminated id (next ∷ cur) =
    let rest = remove_variable_loop terminated id cur in
    if next.v_id == id then done (cur, 1) else (do (cur, gone) ← rest; done (next ∷ cur, gone))

-- To remove the head is to empty the list.
unfoldable pub remove_variable_byoid : ℕ → Variables → Outcome Variables
remove_variable_byoid id vs = elim vs.list [
  | [] ↦ undefined
  | v ∷ cur ↦ if v.v_id == id then done (dispose vs) else (do
    (cur, gone) ← remove_variable_loop vs.terminated id cur
    done (record vs { list = v ∷ cur; size = to_size (vs.size + 2 ^ 64 - gone) }))
]

-- The numbers of the types of svm/sedona.h, and the bits of an array and of an object.
abbrev pub buf_type_id : ℕ
buf_type_id = 8

abbrev pub array_type_id_offset : ℕ
array_type_id_offset = 32

abbrev pub object_type_id_offset : ℕ
object_type_id_offset = 64

-- `VoidTypeId` is zero, so no type is below it.
unfoldable pub is_primitive : Variable → Bool
is_primitive v = ltb v.v_type buf_type_id

unfoldable pub get_primitive_type : Variable → ℕ
get_primitive_type v = bit_and v.v_type 0xf

unfoldable pub get_non_primitive_type : Variable → ℕ
get_non_primitive_type v = bit_and v.v_type 0xf0

unfoldable pub is_array : Variable → Bool
is_array v = bit_and v.v_type array_type_id_offset == array_type_id_offset

unfoldable pub is_object : Variable → Bool
is_object v = bit_and v.v_type object_type_id_offset == object_type_id_offset
