-- ===== src/Jdwp/Types.antt =====
-- jdwp/refTypHandler.c: the reference types that the debugger knows, and their packets.
pub mod Packets
pub mod Laws
use sedona_vm_debug.Base.{
  ℕ, zero, suc, ◌+◌, ◌*◌, ◌-◌, Bool, true, false, ◌&&◌, List, [], ◌∷◌, ◌++◌, length, take, Option,
  none, some, ◌==◌, ltb, leb, if◌then◌else◌, to_u16, to_u32,
}
use sedona_vm_debug.Memory.{◌>>=◌, Outcome, done, exits, undefined, to_size}

pub record LineTable : Type 0 where
  pub line_code_index : ℕ
  pub line_number : ℕ

-- C strings are without their terminators.
pub record Method : Type 0 where
  pub mid : ℕ
  pub method_name : List ℕ
  pub method_jni_signature : List ℕ
  pub mod_bits : ℕ
  pub lines : ℕ
  pub startline : ℕ
  pub endline : ℕ
  pub line_table : List LineTable

pub record Field : Type 0 where
  pub fid : ℕ
  pub field_name : List ℕ
  pub field_jni_signature : List ℕ
  pub mod_bits : ℕ

-- An array of pointers with its `max_` and `num_` counters, which are `u2`.
pub record Slots {ℓ} (A : Type ℓ) : Type ℓ where
  pub max : ℕ
  pub num : ℕ
  pub items : List A

abbrev pub no_slots {ℓ} : {A : Type ℓ} → Slots A
no_slots = record { max = 0; num = 0; items = [] }

-- Pointers to other types are kept by the types' identifiers, since only these are read.
pub record RefTypeId : Type 0 where
  pub ref_clazzid : ℕ
  pub type_tag : ℕ
  pub clazzname : List ℕ
  pub signature : List ℕ
  pub mod_bits : ℕ
  pub status : ℕ
  pub super_clazz : Option ℕ
  pub interfaces : Slots ℕ
  pub fields : Slots Field
  pub methods : Slots Method

-- `refList` from its head, `_OID` and `startRef`.
pub record Types : Type 0 where
  pub list : List RefTypeId
  pub size : ℕ
  pub oid : ℕ
  pub start_ref : Option ℕ

-- What `add_field`, `add_method` and `add_interface` share: the array grows when it is full, where
-- `granted` says whether `realloc` gives so many bytes; a store past the end is undefined.
unfoldable pub add_slot {ℓ} : {A : Type ℓ} → (ℕ → Bool) → A → Slots A → Outcome (Slots A)
add_slot granted a s =
    let new_max = to_u16 ((1 + s.max) * 2) in
    let store : ℕ → Outcome (Slots _) = λ max.
      if ltb s.num max
      then done (record { max = max; num = to_u16 (s.num + 1); items = s.items ++ (a ∷ []) })
      else undefined in
    if leb s.max s.num
    then (if granted (8 * new_max) then store new_max else exits)
    else store s.max

unfoldable pub add_field : (ℕ → Bool) → RefTypeId → Field → Outcome RefTypeId
add_field granted t f = do fields ← add_slot granted f t.fields; done (record t { fields = fields })

unfoldable pub add_method : (ℕ → Bool) → RefTypeId → Method → Outcome RefTypeId
add_method granted t m = do
  methods ← add_slot granted m t.methods
  done (record t { methods = methods })

unfoldable pub add_interface : (ℕ → Bool) → RefTypeId → ℕ → Outcome RefTypeId
add_interface granted t i = do
  interfaces ← add_slot granted i t.interfaces
  done (record t { interfaces = interfaces })

unfoldable pub set_super_class : RefTypeId → ℕ → RefTypeId
set_super_class t super = record t { super_clazz = some super }

-- `strcmp` is zero.
abbrev pub same_str : List ℕ → List ℕ → Bool
same_str [] [] = true
same_str (x ∷ xs) (y ∷ ys) = x == y && same_str xs ys
same_str _ _ = false

-- The loops that search the list, with `lsize` rounds left; past the end of the list is undefined.
unfoldable pub find_ref : (RefTypeId → Bool) → ℕ → List RefTypeId → Outcome (Option RefTypeId)
find_ref test zero cur = done none
find_ref test (suc lsize) [] = undefined
find_ref test (suc lsize) (t ∷ cur) =
    let rest = find_ref test lsize cur in if test t then done (some t) else rest

unfoldable pub findref_byrid : Types → ℕ → Outcome (Option RefTypeId)
findref_byrid types rid = find_ref (λ t. t.ref_clazzid == rid) types.size types.list

unfoldable pub findref_byclassname : Types → List ℕ → Outcome (Option RefTypeId)
findref_byclassname types name = find_ref (λ t. same_str t.clazzname name) types.size types.list

-- The character of the type's signature at which the inner loop of `findref_Bysign` stops.
abbrev pub compare_sign : List ℕ → List ℕ → ℕ
compare_sign [] sign = 0
compare_sign (t ∷ ts) [] = t
compare_sign (t ∷ ts) (s ∷ ss) = if t == s then compare_sign ts ss else t

-- The test compares `tchar` with itself.
unfoldable pub findref_bysign : Types → List ℕ → Outcome (Option RefTypeId)
findref_bysign types sign =
    find_ref (λ t. compare_sign t.signature sign == compare_sign t.signature sign) types.size
      types.list

-- `L`, a copy of all but the last character, and `;`: the loop ends at `len - 2`, which is the
-- length of the name, and starts at one.
unfoldable pub mk_class_sign : List ℕ → List ℕ
mk_class_sign name = 76 ∷ (take (length name + 2 - 2 - 1) name ++ (59 ∷ []))

abbrev pub status_ready : ℕ
status_ready = 7

-- A new type at the head, with the tag that the three functions set.
unfoldable pub add_ref : ℕ → List ℕ → Option ℕ → Types → RefTypeId × Types
add_ref tag name super types =
    let t : RefTypeId = record {
      ref_clazzid = types.oid;
      type_tag = tag;
      clazzname = name;
      signature = mk_class_sign name;
      mod_bits = 0;
      status = status_ready;
      super_clazz = super;
      interfaces = no_slots;
      fields = no_slots;
      methods = no_slots;
    } in
    (
      t,
      record types {
        list = t ∷ types.list;
        size = to_size (types.size + 1);
        oid = to_u32 (types.oid + 1);
      },
    )

abbrev pub typetag_class : ℕ
typetag_class = 1

abbrev pub typetag_interface : ℕ
typetag_interface = 2

abbrev pub typetag_array : ℕ
typetag_array = 3

unfoldable pub add_class_ref : List ℕ → Option ℕ → Types → RefTypeId × Types
add_class_ref = add_ref typetag_class

unfoldable pub add_interface_ref : List ℕ → Option ℕ → Types → RefTypeId × Types
add_interface_ref = add_ref typetag_interface

unfoldable pub add_array_ref : List ℕ → Option ℕ → Types → RefTypeId × Types
add_array_ref = add_ref typetag_array

unfoldable pub add_ref_type_id : RefTypeId → Types → Types
add_ref_type_id t types = record types {
  list = record t { ref_clazzid = types.oid } ∷ types.list;
  size = to_size (types.size + 1);
  oid = to_u32 (types.oid + 1);
}

-- The type of the inner classes, `name$*`.
unfoldable pub add_inner_classes_stared_of : RefTypeId → Types → Outcome Types
add_inner_classes_stared_of t types =
    let stared = t.clazzname ++ (36 ∷ 42 ∷ []) in
    if t.type_tag == typetag_array
    then done (add_array_ref stared t.super_clazz types).1
    else if t.type_tag == typetag_class
    then done (add_class_ref stared t.super_clazz types).1
    else if t.type_tag == typetag_interface
    then done (add_interface_ref stared t.super_clazz types).1
    else exits

unfoldable pub get_start_ref : Types → Option ℕ
get_start_ref types = types.start_ref

unfoldable pub set_start_class_ref : ℕ → Types → Types
set_start_class_ref ref types = record types { start_ref = some ref }

unfoldable pub all_classes_refs_count : Types → ℕ
all_classes_refs_count types = types.size

-- The loop of `get_method`, with `mcount - start` rounds left.
unfoldable pub get_method_loop : ℕ → List Method → ℕ → Outcome (Option Method)
get_method_loop zero ms mid = done none
get_method_loop (suc left) [] mid = undefined
get_method_loop (suc left) (m ∷ ms) mid =
    let rest = get_method_loop left ms mid in if m.mid == mid then done (some m) else rest

abbrev pub non_null {ℓ} : {A : Type ℓ} → Option A → Outcome A
non_null none = undefined
non_null (some a) = done a

unfoldable pub get_method : Types → ℕ → ℕ → Outcome (Option Method)
get_method types rtid mid = do
  found ← findref_byrid types rtid
  t ← non_null found
  get_method_loop t.methods.num t.methods.items mid

-- `init_refTypeHandler`; the chain beyond the head is never followed past `size`.
unfoldable pub init_types : Types
init_types = record { list = []; size = 0; oid = 1; start_ref = none }
