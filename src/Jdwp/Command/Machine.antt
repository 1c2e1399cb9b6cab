-- ===== src/Jdwp/Command/Machine.antt =====
-- jdwp/mainHandler.c: the command set VirtualMachine.
use sedona_vm_debug.Base.{
  ℕ, ◌+◌, ◌*◌, true, false, List, [], ◌∷◌, ◌++◌, none, some, ◌==◌, if◌then◌else◌,
}
use sedona_vm_debug.Memory.{◌>>=◌, Outcome, done, exits, Allocator}
use sedona_vm_debug.Packet.Buffer.{Packet, write_u1, write_u4}
use sedona_vm_debug.Packet.Ids.{
  write_str, write_threadid, write_threadgroupid, write_objectid, write_tag, byte_size, int_size,
  thread_id_size, thread_group_id_size, frame_id_size, field_id_size, method_id_size, objectid_size,
}
use sedona_vm_debug.Packet.Header.{read_command}
use sedona_vm_debug.Jdwp.Types.{findref_bysign, typetag_class}
use sedona_vm_debug.Jdwp.Types.Packets.{
  string_size, all_classes_refs_to_packet_list, all_classes_refs_with_generics_to_packet_list,
}
use sedona_vm_debug.Jdwp.Objects.{dispose}
use sedona_vm_debug.Jdwp.Events.{hold_events_if}
use sedona_vm_debug.Jdwp.Session.{
  app_tid, readstr, jdwp_send, jdwp_send_not_implemented, new_reply, vm_suspend, vm_resume,
}
use sedona_vm_debug.Jdwp.Command.Shared.{Handler, switch, send_u4, send_list}

-- The texts and numbers of the version.
abbrev pub vm_version_description : List ℕ
vm_version_description =
    83 ∷ 101 ∷ 100 ∷ 111 ∷ 110 ∷ 97 ∷ 32 ∷ 86 ∷ 77 ∷ 95 ∷ 68 ∷ 69 ∷ 66 ∷ 85 ∷ 71 ∷ 95 ∷ 77 ∷ 79 ∷ 68
    ∷ 69 ∷ 32 ∷ 118 ∷ 49 ∷ 46 ∷ 50 ∷ 56 ∷ 100 ∷ []

abbrev pub vm_version_vm_version : List ℕ
vm_version_vm_version = 49 ∷ 46 ∷ 50 ∷ 56 ∷ []

abbrev pub vm_version_vm_name : List ℕ
vm_version_vm_name = 83 ∷ 101 ∷ 100 ∷ 111 ∷ 110 ∷ 97 ∷ 86 ∷ 77 ∷ []

abbrev pub vm_version_jdwp_major : ℕ
vm_version_jdwp_major = 1

abbrev pub vm_version_jdwp_minor : ℕ
vm_version_jdwp_minor = 1

unfoldable pub on_send_cs_vm_version : Handler
on_send_cs_vm_version env s = do
  p ← new_reply env s (
      string_size vm_version_description
      + int_size * 2
      + string_size vm_version_vm_version
      + string_size vm_version_vm_name)
  p ← write_str env.mem p vm_version_description
  p ← write_u4 env.mem p vm_version_jdwp_major
  p ← write_u4 env.mem p vm_version_jdwp_minor
  p ← write_str env.mem p vm_version_vm_version
  p ← write_str env.mem p vm_version_vm_name
  jdwp_send p s

-- The bytes that `readstr` gave, taken for 16-bit characters.
abbrev pub as_u2 : List ℕ → List ℕ
as_u2 [] = []
as_u2 (b₀ ∷ []) = b₀ ∷ []
as_u2 (b₀ ∷ b₁ ∷ str) = (b₀ + 256 * b₁) ∷ as_u2 str

unfoldable pub on_send_cs_vm_classes_by_signature : Handler
on_send_cs_vm_classes_by_signature env s = do
  (signstr, s) ← readstr env.mem s
  found ← findref_bysign s.types (as_u2 signstr)
  elim found [
    | none ↦ send_u4 0 env s
    | some t ↦ (do
      p ← new_reply env s (int_size + byte_size + objectid_size + int_size)
      p ← write_u4 env.mem p 1
      p ← write_tag env.mem p typetag_class
      p ← write_objectid env.mem p t.ref_clazzid
      p ← write_u4 env.mem p t.status
      jdwp_send p s)
  ]

unfoldable pub on_send_cs_vm_all_classes : Handler
on_send_cs_vm_all_classes env s = do
  clazzes ← all_classes_refs_to_packet_list env.mem s.types
  send_list clazzes.size clazzes env s

abbrev pub thread_count : ℕ
thread_count = 4

-- The count is four whether the fourth thread is known or not.
unfoldable pub on_send_cs_vm_all_threads : Handler
on_send_cs_vm_all_threads env s = do
  p ← new_reply env s (int_size + thread_id_size * thread_count)
  p ← write_u4 env.mem p thread_count
  p ← write_threadid env.mem p env.pid
  p ← write_threadid env.mem p s.jdwp_tid
  p ← write_threadid env.mem p app_tid
  p ← (if s.jni_tid == 0 then done p else write_threadid env.mem p s.jni_tid)
  jdwp_send p s

abbrev pub thread_group_main_tgid : ℕ
thread_group_main_tgid = 1

abbrev pub thread_group_sub_tgid : ℕ
thread_group_sub_tgid = 2

abbrev pub thread_group_count : ℕ
thread_group_count = 2

unfoldable pub on_send_cs_vm_top_level_thread_groups : Handler
on_send_cs_vm_top_level_thread_groups env s = do
  p ← new_reply env s (int_size + thread_group_id_size * thread_group_count)
  p ← write_u4 env.mem p thread_group_count
  p ← write_threadgroupid env.mem p thread_group_main_tgid
  p ← write_threadgroupid env.mem p thread_group_sub_tgid
  jdwp_send p s

-- `error_exit` ends the process.
unfoldable pub on_send_cs_vm_dispose : Handler
on_send_cs_vm_dispose env s = exits

unfoldable pub on_send_cs_vm_id_sizes : Handler
on_send_cs_vm_id_sizes env s = do
  p ← new_reply env s (int_size * 5)
  p ← write_u4 env.mem p field_id_size
  p ← write_u4 env.mem p method_id_size
  p ← write_u4 env.mem p objectid_size
  p ← write_u4 env.mem p objectid_size
  p ← write_u4 env.mem p frame_id_size
  jdwp_send p s

unfoldable pub on_send_cs_vm_suspend : Handler
on_send_cs_vm_suspend env s = do let s = vm_suspend s; p ← new_reply env s 0; jdwp_send p s

unfoldable pub on_send_cs_vm_resume : Handler
on_send_cs_vm_resume env s = do p ← new_reply env s 0; s ← jdwp_send p s; done (vm_resume s)

-- After the reply `exit(0)` ends the process.
unfoldable pub on_send_cs_vm_exit : Handler
on_send_cs_vm_exit env s = do s ← send_u4 0 env s; exits

-- A sequence of one-byte values.
unfoldable pub write_all_u1 : Allocator → List ℕ → Packet → Outcome Packet
write_all_u1 mem [] p = done p
write_all_u1 mem (v ∷ vs) p = do p ← write_u1 mem p v; write_all_u1 mem vs p

-- Of the first seven capabilities only the fourth is there.
abbrev pub old_capabilities : List ℕ
old_capabilities = 0 ∷ 0 ∷ 0 ∷ 1 ∷ 0 ∷ 0 ∷ 0 ∷ []

unfoldable pub on_send_cs_vm_capabilities : Handler
on_send_cs_vm_capabilities env s = do
  p ← new_reply env s 7
  p ← write_all_u1 env.mem old_capabilities p
  jdwp_send p s

-- Fourteen more, and eleven that are reserved.
abbrev pub new_capabilities : List ℕ
new_capabilities =
    0 ∷ 0 ∷ 0 ∷ 0 ∷ 0 ∷ 0 ∷ 0 ∷ 0 ∷ 0 ∷ 0 ∷ 0 ∷ 0 ∷ 0 ∷ 0 ∷ 0 ∷ 0 ∷ 0 ∷ 0 ∷ 0 ∷ 0 ∷ 0 ∷ 0 ∷ 0 ∷ 0
    ∷ 0 ∷ []

unfoldable pub on_send_cs_vm_capabilities_new : Handler
on_send_cs_vm_capabilities_new env s = do
  p ← new_reply env s 32
  p ← write_all_u1 env.mem (old_capabilities ++ new_capabilities) p
  jdwp_send p s

unfoldable pub on_send_cs_vm_dispose_objects : Handler
on_send_cs_vm_dispose_objects env s = done (record s { variables = dispose s.variables })

unfoldable pub on_send_cs_vm_hold_events : Handler
on_send_cs_vm_hold_events env s = done (record s { events = hold_events_if true s.events })

unfoldable pub on_send_cs_vm_release_events : Handler
on_send_cs_vm_release_events env s = done (record s { events = hold_events_if false s.events })

unfoldable pub on_send_cs_vm_all_classes_with_generic : Handler
on_send_cs_vm_all_classes_with_generic env s = do
  clazzes ← all_classes_refs_with_generics_to_packet_list env.mem s.types
  send_list clazzes.size clazzes env s

-- CreateString, ClassPaths, RedefineClasses, SetDefaultStratum, InstanceCounts, and any other.
unfoldable pub on_send_cs_vm_unknown_command : Handler
on_send_cs_vm_unknown_command env s = jdwp_send_not_implemented s

unfoldable pub on_cs_virtual_machine : Handler
on_cs_virtual_machine env s = do
  command ← read_command s.command
  switch command
      ((1, on_send_cs_vm_version)
        ∷ (2, on_send_cs_vm_classes_by_signature)
        ∷ (3, on_send_cs_vm_all_classes)
        ∷ (4, on_send_cs_vm_all_threads)
        ∷ (5, on_send_cs_vm_top_level_thread_groups)
        ∷ (6, on_send_cs_vm_dispose)
        ∷ (7, on_send_cs_vm_id_sizes)
        ∷ (8, on_send_cs_vm_suspend)
        ∷ (9, on_send_cs_vm_resume)
        ∷ (10, on_send_cs_vm_exit)
        ∷ (12, on_send_cs_vm_capabilities)
        ∷ (14, on_send_cs_vm_dispose_objects)
        ∷ (15, on_send_cs_vm_hold_events)
        ∷ (16, on_send_cs_vm_release_events)
        ∷ (17, on_send_cs_vm_capabilities_new)
        ∷ (20, on_send_cs_vm_all_classes_with_generic)
        ∷ [])
      on_send_cs_vm_unknown_command env s
