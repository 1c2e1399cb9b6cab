-- ===== src/Jdwp/Bases.antt =====
-- jdwp/initializer.c: the types that the debugger begins with, from the file of the bases and the main
-- class. Storage is always granted, but for the slots of a type.
pub mod Laws
use sedona_vm_debug.Base.{
  ℕ, zero, suc, ◌+◌, Bool, List, [], ◌∷◌, Option, none, some, get_elem?, if◌then◌else◌, to_u16,
  to_u32,
}
use sedona_vm_debug.Memory.{◌>>=◌, Outcome, done, undefined, defined, Allocator}
use sedona_vm_debug.Jdwp.Types.{
  Types, RefTypeId, Method, same_str, add_field, add_method, add_interface, add_ref_type_id,
  add_class_ref, add_inner_classes_stared_of, findref_byclassname, set_start_class_ref,
  typetag_class, typetag_interface, status_ready, no_slots,
}
use sedona_vm_debug.Jdwp.Files.{Files, cast_to_int, mku2, split, read_file_lines}

-- "Class", "java.lang.Object", "jbases.meta" and "TestClass".
abbrev pub jbase_type_class : List ℕ
jbase_type_class = 67 ∷ 108 ∷ 97 ∷ 115 ∷ 115 ∷ []

abbrev pub java_base_root_class : List ℕ
java_base_root_class =
    106 ∷ 97 ∷ 118 ∷ 97 ∷ 46 ∷ 108 ∷ 97 ∷ 110 ∷ 103 ∷ 46 ∷ 79 ∷ 98 ∷ 106 ∷ 101 ∷ 99 ∷ 116 ∷ []

abbrev pub java_base_classes_meta : List ℕ
java_base_classes_meta = 106 ∷ 98 ∷ 97 ∷ 115 ∷ 101 ∷ 115 ∷ 46 ∷ 109 ∷ 101 ∷ 116 ∷ 97 ∷ []

abbrev pub main_class_name : List ℕ
main_class_name = 84 ∷ 101 ∷ 115 ∷ 116 ∷ 67 ∷ 108 ∷ 97 ∷ 115 ∷ 115 ∷ []

-- ',' and ':'.
abbrev pub comma : ℕ
comma = 44

abbrev pub java_base_parse_dil : ℕ
java_base_parse_dil = 58

-- What fresh blocks hold: whether the pointers to slots read as NULL, for nothing stores them before
-- `realloc` takes them, and the members of a type or a method that are not stored.
pub record Fresh : Type 0 where
  pub zeroed : Bool
  pub blank_type : RefTypeId
  pub blank_method : Method

-- `split(items[offset], ':')[1]`. Behind the last item there is a null pointer, which `split` reads,
-- and the same is an item without a delimiter, also where its value would only be stored.
unfoldable pub value_at : List (List ℕ) → ℕ → Outcome (List ℕ)
value_at items offset = do
  item ← defined (get_elem? items offset)
  av ← split item java_base_parse_dil
  defined (get_elem? av 1)

unfoldable pub number_at : List (List ℕ) → ℕ → Outcome ℕ
number_at items offset = do str ← value_at items offset; done (cast_to_int str)

-- `realloc` of a pointer that no one stored.
unfoldable pub growing {ℓ} : {A : Type ℓ} → Fresh → Outcome A → Outcome A
growing fresh add = if fresh.zeroed then add else undefined

abbrev pub add_found : (ℕ → Bool) → Fresh → RefTypeId → Option RefTypeId → Outcome RefTypeId
add_found granted fresh t none = done t
add_found granted fresh t (some i) = growing fresh (add_interface granted t i.ref_clazzid)

abbrev pub found_id : Option RefTypeId → Option ℕ
found_id none = none
found_id (some t) = some t.ref_clazzid

module _ (granted : ℕ → Bool) (fresh : Fresh) (items : List (List ℕ)) where
  -- The loops over the interfaces, the fields and the methods, with `num - start` rounds left.
  unfoldable pub interfaces_loop : Types → ℕ → ℕ → RefTypeId → Outcome (ℕ × RefTypeId)
  interfaces_loop types zero offset t = done (offset, t)
  interfaces_loop types (suc left) offset t = do
    name ← value_at items offset
    found ← findref_byclassname types name
    t ← add_found granted fresh t found
    interfaces_loop types left (offset + 1) t

  unfoldable pub fields_loop : ℕ → ℕ → ℕ → RefTypeId → Outcome (ℕ × RefTypeId)
  fields_loop zero start offset t = done (offset, t)
  fields_loop (suc left) start offset t = do
    name ← value_at items offset
    mods ← number_at items (offset + 1)
    sign ← value_at items (offset + 2)
    t ← growing fresh (
        add_field granted t (record {
          fid = to_u16 start;
          field_name = name;
          field_jni_signature = mku2 sign;
          mod_bits = to_u32 mods;
        }))
    fields_loop left (start + 1) (offset + 3) t

  unfoldable pub methods_loop : ℕ → ℕ → ℕ → RefTypeId → Outcome (ℕ × RefTypeId)
  methods_loop zero start offset t = done (offset, t)
  methods_loop (suc left) start offset t = do
    name ← value_at items offset
    mods ← number_at items (offset + 1)
    sign ← value_at items (offset + 2)
    t ← growing fresh (
        add_method granted t (record fresh.blank_method {
          mid = to_u16 start;
          method_name = name;
          method_jni_signature = mku2 sign;
          mod_bits = to_u32 mods;
        }))
    methods_loop left (start + 1) (offset + 3) t

  -- The root class is not looked for.
  unfoldable pub super_of : Types → List ℕ → RefTypeId → Outcome (Option ℕ)
  super_of types super t =
      if same_str super java_base_root_class
      then done t.super_clazz
      else (do found ← findref_byclassname types super; done (found_id found))

  -- The tag, the superclass of a class, and where the interfaces begin.
  unfoldable pub kind_of : Types → Bool → RefTypeId → Outcome (ℕ × RefTypeId)
  kind_of types is_class t =
      if is_class
      then (do
        super ← value_at items 3
        super_clazz ← super_of types super t
        done (4, record t { type_tag = typetag_class; super_clazz = super_clazz }))
      else done (3, record t { type_tag = typetag_interface })

  -- The counted parts of an entry, from `offset` on.
  unfoldable pub parts : Types → ℕ → RefTypeId → Outcome RefTypeId
  parts types offset t = do
    num ← number_at items offset
    (offset, t) ← interfaces_loop types num (offset + 1) t
    num ← number_at items offset
    (offset, t) ← fields_loop num 0 (offset + 1) t
    num ← number_at items offset
    (offset, t) ← methods_loop num 0 (offset + 1) t
    done t

-- `progress_jbase_line`, which never fails otherwise. An array type is never found, since the test
-- compares a pointer with a character.
unfoldable pub progress_jbase_line : (ℕ → Bool) → Fresh → List ℕ → Types → Outcome Types
progress_jbase_line granted fresh entry types = do
  items ← split entry comma
  kind ← defined (get_elem? items 0)
  name ← value_at items 1
  mods ← number_at items 2
  (offset, t) ←
      kind_of granted fresh items types (same_str kind jbase_type_class) (record fresh.blank_type {
        status = status_ready;
        interfaces = no_slots;
        fields = no_slots;
        methods = no_slots;
        clazzname = name;
        mod_bits = to_u32 mods;
      })
  t ← parts granted fresh items types offset t
  done (add_ref_type_id t types)

unfoldable pub load_lines : (ℕ → Bool) → Fresh → List (List ℕ) → Types → Outcome Types
load_lines granted fresh [] types = done types
load_lines granted fresh (entry ∷ metas) types = do
  types ← progress_jbase_line granted fresh entry types
  load_lines granted fresh metas types

unfoldable pub load_jbases : Allocator → Files → (ℕ → Bool) → Fresh → Types → Outcome Types
load_jbases mem files granted fresh types = do
  metas ← read_file_lines mem files java_base_classes_meta
  load_lines granted fresh metas types

-- "<init>", "()V", "main" and "([Ljava/lang/String;)V".
abbrev pub constructor_method : Method
constructor_method = record {
  mid = 1;
  method_name = 60 ∷ 105 ∷ 110 ∷ 105 ∷ 116 ∷ 62 ∷ [];
  method_jni_signature = mku2 (40 ∷ 41 ∷ 86 ∷ []);
  mod_bits = 0x1001;
  lines = 1;
  startline = 1;
  endline = 2;
  line_table = record { line_code_index = 0; line_number = 1 } ∷ [];
}

abbrev pub main_method : Method
main_method = record {
  mid = 1;
  method_name = 109 ∷ 97 ∷ 105 ∷ 110 ∷ [];
  method_jni_signature = mku2 (
      40 ∷ 91 ∷ 76 ∷ 106 ∷ 97 ∷ 118 ∷ 97 ∷ 47 ∷ 108 ∷ 97 ∷ 110 ∷ 103 ∷ 47 ∷ 83 ∷ 116 ∷ 114 ∷ 105
      ∷ 110 ∷ 103 ∷ 59 ∷ 41 ∷ 86 ∷ []);
  mod_bits = 9;
  lines = 1;
  startline = 3;
  endline = 4;
  line_table = record { line_code_index = 2; line_number = 3 } ∷ [];
}

-- `main_class`, which stores the array of two methods and its count, but not the capacity.
unfoldable pub main_class : Types → Outcome (RefTypeId × Types)
main_class types = do
  let (t, added) = add_class_ref main_class_name none types
  let t = record t {
    methods = record { max = 0; num = 2; items = constructor_method ∷ main_method ∷ [] };
    status = status_ready;
  }
  types ← add_inner_classes_stared_of t (record added { list = t ∷ types.list })
  done (t, types)

-- What `init__VM_DEBUG_MODE` makes of the types.
unfoldable pub init_debug_types : Allocator → Files → (ℕ → Bool) → Fresh → Types → Outcome Types
init_debug_types mem files granted fresh types = do
  types ← load_jbases mem files granted fresh types
  (t, types) ← main_class types
  done (set_start_class_ref t.ref_clazzid types)
