-- ===== src/Jdwp/Command/Reference.antt =====
-- jdwp/mainHandler.c: the command set ReferenceType.
use sedona_vm_debug.Base.{
  to_u32, ℕ, zero, suc, ◌+◌, ◌*◌, List, [], ◌∷◌, length, Option, ◌==◌, leb, if◌then◌else◌,
}
use sedona_vm_debug.Memory.{◌>>=◌, Outcome, done, undefined, to_size, Allocator, block}
use sedona_vm_debug.Packet.Buffer.{Packet, write_u4}
use sedona_vm_debug.Packet.Ids.{write_objectid, int_size, field_id_size, objectid_size}
use sedona_vm_debug.Packet.Utf.{write_utf, utf_size}
use sedona_vm_debug.Packet.Header.{read_command}
use sedona_vm_debug.Packet.Chain.{PacketList, get_byte_size, write_list}
use sedona_vm_debug.Jdwp.Types.{RefTypeId, findref_byrid, non_null}
use sedona_vm_debug.Jdwp.Types.Packets.{
  fields_to_packet_list, fields_with_generic_to_packet_list, methods_to_packet_list,
  methods_with_generic_to_packet_list,
}
use sedona_vm_debug.Jdwp.Session.{
  Session, readu4, readfieldid, readobjectid, jdwp_send, jdwp_send_error, jdwp_send_not_implemented,
  new_reply,
}
use sedona_vm_debug.Jdwp.Command.Shared.{Handler, switch, or_error, send_u4, send_list}

abbrev pub invalid_object : ℕ
invalid_object = 20

abbrev pub invalid_class : ℕ
invalid_class = 21

-- The type that a command names.
abbrev pub named_type : Session → Outcome (Option RefTypeId × Session)
named_type s = do (rtid, s) ← readobjectid s; found ← findref_byrid s.types rtid; done (found, s)

unfoldable pub on_send_cs_rt_signature : Handler
on_send_cs_rt_signature env s = do
  (found, s) ← named_type s
  t ← non_null found
  p ← new_reply env s (utf_size t.signature)
  p ← write_utf env.mem p t.signature
  jdwp_send p s

unfoldable pub on_send_cs_rt_modifiers : Handler
on_send_cs_rt_modifiers env s = do
  (found, s) ← named_type s
  or_error invalid_object found s λ t. send_u4 t.mod_bits env s

unfoldable pub on_send_cs_rt_fields : Handler
on_send_cs_rt_fields env s = do
  (found, s) ← named_type s
  or_error invalid_object found s λ t.
      if t.fields.num == 0
      then send_u4 0 env s
      else (do plist ← fields_to_packet_list env.mem t; send_list t.fields.num plist env s)

unfoldable pub on_send_cs_rt_methods : Handler
on_send_cs_rt_methods env s = do
  (found, s) ← named_type s
  or_error invalid_class found s λ t.
      if t.methods.num == 0
      then send_u4 0 env s
      else (do plist ← methods_to_packet_list env.mem t; send_list t.methods.num plist env s)

-- The loop that reads the fields, with `fields - start` rounds left.
unfoldable pub read_field_ids : ℕ → Session → Outcome Session
read_field_ids zero s = done s
read_field_ids (suc left) s = do (fid, s) ← readfieldid s; read_field_ids left s

-- The identifiers are stored in a block that nothing reads, and no reply is sent. Its size is a `u4`;
-- a block too small for them, or NULL, is undefined at a store.
unfoldable pub on_send_cs_rt_values : Handler
on_send_cs_rt_values env s = do
  (rtid, s) ← readobjectid s
  (fields, s) ← readu4 s
  let room = length (block (env.mem.malloc (to_u32 (field_id_size * fields))))
  s ← (if leb (field_id_size * fields) room then read_field_ids fields s else undefined)
  found ← findref_byrid s.types rtid
  done s

-- The loop over the interfaces, which are kept by their identifiers.
unfoldable pub write_interfaces : Allocator → ℕ → List ℕ → Packet → Outcome Packet
write_interfaces mem zero is p = done p
write_interfaces mem (suc left) [] p = undefined
write_interfaces mem (suc left) (i ∷ is) p = do
  p ← write_objectid mem p i
  write_interfaces mem left is p

unfoldable pub on_send_cs_rt_interfaces : Handler
on_send_cs_rt_interfaces env s = do
  (found, s) ← named_type s
  or_error invalid_object found s λ t. if t.interfaces.num == 0 then send_u4 0 env s else (do
    p ← new_reply env s (objectid_size * t.interfaces.num + int_size)
    p ← write_u4 env.mem p t.interfaces.num
    p ← write_interfaces env.mem t.interfaces.num t.interfaces.items p
    jdwp_send p s)

-- A reply of one identifier.
abbrev pub send_objectid : ℕ → Handler
send_objectid id env s = do
  p ← new_reply env s objectid_size
  p ← write_objectid env.mem p id
  jdwp_send p s

unfoldable pub on_send_cs_rt_class_object : Handler
on_send_cs_rt_class_object env s = do
  (found, s) ← named_type s
  or_error invalid_object found s λ t. send_objectid t.ref_clazzid env s

unfoldable pub on_send_cs_rt_signature_with_generic : Handler
on_send_cs_rt_signature_with_generic env s = do
  (found, s) ← named_type s
  t ← non_null found
  p ← new_reply env s (to_size (utf_size t.signature + int_size))
  p ← write_utf env.mem p t.signature
  p ← write_u4 env.mem p 0
  jdwp_send p s

-- A list without its count.
abbrev pub send_bare_list : PacketList → Handler
send_bare_list plist env s = do
  bytes ← get_byte_size plist
  p ← new_reply env s bytes
  p ← write_list env.mem p plist
  jdwp_send p s

unfoldable pub on_send_cs_rt_fields_with_generic : Handler
on_send_cs_rt_fields_with_generic env s = do
  (found, s) ← named_type s
  t ← non_null found
  plist ← fields_with_generic_to_packet_list env.mem t
  send_bare_list plist env s

unfoldable pub on_send_cs_rt_methods_with_generic : Handler
on_send_cs_rt_methods_with_generic env s = do
  (found, s) ← named_type s
  t ← non_null found
  plist ← methods_with_generic_to_packet_list env.mem t
  send_bare_list plist env s

unfoldable pub on_send_cs_rt_nested_types : Handler
on_send_cs_rt_nested_types env s = jdwp_send_error invalid_class s

unfoldable pub on_send_cs_rt_class_file_version : Handler
on_send_cs_rt_class_file_version env s = do
  p ← new_reply env s (int_size * 2)
  p ← write_u4 env.mem p 1
  p ← write_u4 env.mem p 1
  jdwp_send p s

-- ClassLoader, SourceDebugExtension, Instances, ConstantPool, and any other.
unfoldable pub on_send_cs_rt_unknown_command : Handler
on_send_cs_rt_unknown_command env s = jdwp_send_not_implemented s

unfoldable pub on_cs_reference_type : Handler
on_cs_reference_type env s = do
  command ← read_command s.command
  switch command
      ((1, on_send_cs_rt_signature)
        ∷ (3, on_send_cs_rt_modifiers)
        ∷ (4, on_send_cs_rt_fields)
        ∷ (5, on_send_cs_rt_methods)
        ∷ (6, on_send_cs_rt_values)
        ∷ (8, on_send_cs_rt_nested_types)
        ∷ (10, on_send_cs_rt_interfaces)
        ∷ (11, on_send_cs_rt_class_object)
        ∷ (13, on_send_cs_rt_signature_with_generic)
        ∷ (14, on_send_cs_rt_fields_with_generic)
        ∷ (15, on_send_cs_rt_methods_with_generic)
        ∷ (17, on_send_cs_rt_class_file_version)
        ∷ [])
      on_send_cs_rt_unknown_command env s
