-- ===== src/Jdwp/Command/Methods.antt =====
-- jdwp/mainHandler.c: the command sets ClassType, Method and ObjectReference.
use sedona_vm_debug.Base.{
  ℕ, zero, suc, ◌+◌, ◌*◌, ◌||◌, List, [], ◌∷◌, Option, none, some, ◌==◌, if◌then◌else◌, to_u32,
}
use sedona_vm_debug.Memory.{◌>>=◌, Outcome, done, undefined, Allocator}
use sedona_vm_debug.Packet.Buffer.{Packet, write_u1, write_u4, write_u8}
use sedona_vm_debug.Packet.Ids.{
  write_objectid, write_tag, byte_size, int_size, tag_size, objectid_size,
}
use sedona_vm_debug.Packet.Header.{read_command}
use sedona_vm_debug.Jdwp.Types.{LineTable, findref_byrid, get_method, non_null, typetag_class}
use sedona_vm_debug.Jdwp.Session.{
  readmethodid, readobjectid, jdwp_send, jdwp_send_not_implemented, new_reply,
}
use sedona_vm_debug.Jdwp.Command.Shared.{Handler, or_error}
use sedona_vm_debug.Jdwp.Command.Reference.{invalid_object, named_type, send_objectid}

abbrev pub id_or_zero : Option ℕ → ℕ
id_or_zero none = 0
id_or_zero (some id) = id

unfoldable pub on_send_cs_ct_super_class : Handler
on_send_cs_ct_super_class env s = do
  (found, s) ← named_type s
  or_error invalid_object found s λ t. send_objectid (id_or_zero t.super_clazz) env s

-- The other commands of the set are not implemented.
unfoldable pub on_cs_class_type : Handler
on_cs_class_type env s = do
  command ← read_command s.command
  if command == 1 then on_send_cs_ct_super_class env s else jdwp_send_not_implemented s

-- The loop over the lines, with `lines - start` rounds left.
unfoldable pub write_lines : Allocator → ℕ → List LineTable → Packet → Outcome Packet
write_lines mem zero ls p = done p
write_lines mem (suc left) [] p = undefined
write_lines mem (suc left) (l ∷ ls) p = do
  p ← write_u8 mem p l.line_code_index
  p ← write_u4 mem p l.line_number
  write_lines mem left ls p

unfoldable pub on_send_cs_m_line_table : Handler
on_send_cs_m_line_table env s = do
  (rtid, s) ← readobjectid s
  (mid, s) ← readmethodid s
  found ← get_method s.types rtid mid
  m ← non_null found
  p ← new_reply env s (to_u32 (8 * 2 + int_size + (8 + int_size) * m.lines))
  p ← write_u8 env.mem p m.startline
  p ← write_u8 env.mem p m.endline
  p ← write_u4 env.mem p m.lines
  p ← write_lines env.mem m.lines m.line_table p
  jdwp_send p s

-- A reply of one byte, zero.
abbrev pub send_false : Handler
send_false env s = do p ← new_reply env s byte_size; p ← write_u1 env.mem p 0; jdwp_send p s

unfoldable pub on_send_cs_m_is_obsolete : Handler
on_send_cs_m_is_obsolete env s = send_false env s

unfoldable pub on_cs_method : Handler
on_cs_method env s = do
  command ← read_command s.command
  if command == 1
      then on_send_cs_m_line_table env s
      else if command == 4
      then on_send_cs_m_is_obsolete env s
      else jdwp_send_not_implemented s

unfoldable pub on_send_cs_or_reference_type : Handler
on_send_cs_or_reference_type env s = do
  (rtid, s) ← readobjectid s
  found ← findref_byrid s.types rtid
  or_error invalid_object found s λ t. do
    p ← new_reply env s (tag_size + objectid_size)
    p ← write_tag env.mem p typetag_class
    p ← write_objectid env.mem p rtid
    jdwp_send p s

unfoldable pub on_send_cs_or_is_collected : Handler
on_send_cs_or_is_collected env s = do (objid, s) ← readobjectid s; send_false env s

-- The two commands on collection send nothing.
unfoldable pub on_cs_object_reference : Handler
on_cs_object_reference env s = do
  command ← read_command s.command
  if command == 1
      then on_send_cs_or_reference_type env s
      else if command == 7 || command == 8
      then done s
      else if command == 9
      then on_send_cs_or_is_collected env s
      else jdwp_send_not_implemented s
