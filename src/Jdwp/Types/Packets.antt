-- ===== src/Jdwp/Types/Packets.antt =====
-- jdwp/refTypHandler.c: fields, methods and types as packets. The list of packets that a function
-- starts is never read past its size, so its head begins empty.
use sedona_vm_debug.Base.{ℕ, zero, suc, ◌+◌, ◌*◌, List, [], ◌∷◌, length}
use sedona_vm_debug.Memory.{Outcome, done, undefined, ◌>>=◌, to_size, Allocator}
use sedona_vm_debug.Packet.Buffer.{Packet, new_raw_packet, write_u1, write_u4}
use sedona_vm_debug.Packet.Ids.{
  write_str, write_objectid, write_methodid, write_fieldid, byte_size, int_size, char_size,
  method_id_size, field_id_size, objectid_size,
}
use sedona_vm_debug.Packet.Utf.{write_utf, utf_size}
use sedona_vm_debug.Packet.Chain.{PacketList, add_packet}
use sedona_vm_debug.Jdwp.Types.{Types, RefTypeId, Field, Method}

abbrev pub string_size : List ℕ → ℕ
string_size str = to_size (length str * char_size + int_size)

abbrev pub empty_list : PacketList
empty_list = record { head = []; size = 0 }

module _ (mem : Allocator) where
  unfoldable pub field_bytes : Field → Outcome Packet
  field_bytes f = do
    let p = new_raw_packet mem (
        to_size
          (field_id_size + int_size + string_size f.field_name + utf_size f.field_jni_signature))
    p ← write_fieldid mem p f.fid
    p ← write_str mem p f.field_name
    p ← write_utf mem p f.field_jni_signature
    write_u4 mem p f.mod_bits

  unfoldable pub field_with_generic_bytes : Field → Outcome Packet
  field_with_generic_bytes f = do
    let p = new_raw_packet mem (
        to_size (
          field_id_size
          + int_size
          + string_size f.field_name
          + utf_size f.field_jni_signature
          + int_size))
    p ← write_fieldid mem p f.fid
    p ← write_str mem p f.field_name
    p ← write_utf mem p f.field_jni_signature
    p ← write_u4 mem p 0
    write_u4 mem p f.mod_bits

  unfoldable pub method_bytes : Method → Outcome Packet
  method_bytes m = do
    let p = new_raw_packet mem (
        to_size
          (method_id_size + int_size + string_size m.method_name + utf_size m.method_jni_signature))
    p ← write_methodid mem p m.mid
    p ← write_str mem p m.method_name
    p ← write_utf mem p m.method_jni_signature
    write_u4 mem p m.mod_bits

  unfoldable pub method_with_generic_bytes : Method → Outcome Packet
  method_with_generic_bytes m = do
    let p = new_raw_packet mem (
        to_size (
          method_id_size
          + int_size
          + string_size m.method_name
          + utf_size m.method_jni_signature
          + int_size))
    p ← write_methodid mem p m.mid
    p ← write_str mem p m.method_name
    p ← write_utf mem p m.method_jni_signature
    p ← write_u4 mem p 0
    write_u4 mem p m.mod_bits

  -- The loops over an array, with `num - start` rounds left.
  unfoldable pub slots_to_list {ℓ} :
      {A : Type ℓ} → (A → Outcome Packet) → ℕ → List A → PacketList → Outcome PacketList
  slots_to_list bytes zero items plist = done plist
  slots_to_list bytes (suc left) [] plist = undefined
  slots_to_list bytes (suc left) (a ∷ items) plist = do
    p ← bytes a
    plist ← add_packet mem p plist
    slots_to_list bytes left items plist

  unfoldable pub fields_to_packet_list : RefTypeId → Outcome PacketList
  fields_to_packet_list t = slots_to_list field_bytes t.fields.num t.fields.items empty_list

  unfoldable pub fields_with_generic_to_packet_list : RefTypeId → Outcome PacketList
  fields_with_generic_to_packet_list t =
      slots_to_list field_with_generic_bytes t.fields.num t.fields.items empty_list

  unfoldable pub methods_to_packet_list : RefTypeId → Outcome PacketList
  methods_to_packet_list t = slots_to_list method_bytes t.methods.num t.methods.items empty_list

  unfoldable pub methods_with_generic_to_packet_list : RefTypeId → Outcome PacketList
  methods_with_generic_to_packet_list t =
      slots_to_list method_with_generic_bytes t.methods.num t.methods.items empty_list

  -- One class of the list of all classes; the size leaves the status out.
  unfoldable pub class_ref_bytes : RefTypeId → Outcome Packet
  class_ref_bytes t = do
    let p =
        new_raw_packet mem (to_size (byte_size + int_size + objectid_size + utf_size t.signature))
    p ← write_u1 mem p t.type_tag
    p ← write_objectid mem p t.ref_clazzid
    p ← write_utf mem p t.signature
    write_u4 mem p t.status

  unfoldable pub class_ref_with_generic_bytes : RefTypeId → Outcome Packet
  class_ref_with_generic_bytes t = do
    let p =
        new_raw_packet mem
          (to_size (byte_size + int_size + objectid_size + utf_size t.signature + int_size))
    p ← write_u1 mem p t.type_tag
    p ← write_objectid mem p t.ref_clazzid
    p ← write_utf mem p t.signature
    p ← write_u4 mem p 0
    write_u4 mem p t.status

  unfoldable pub all_classes_refs_to_packet_list : Types → Outcome PacketList
  all_classes_refs_to_packet_list types =
      slots_to_list class_ref_bytes types.size types.list empty_list

  unfoldable pub all_classes_refs_with_generics_to_packet_list : Types → Outcome PacketList
  all_classes_refs_with_generics_to_packet_list types =
      slots_to_list class_ref_with_generic_bytes types.size types.list empty_list
