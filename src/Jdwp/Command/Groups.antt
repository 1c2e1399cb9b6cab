-- ===== src/Jdwp/Command/Groups.antt =====
-- jdwp/mainHandler.c: the command set ThreadGroupReference.
use sedona_vm_debug.Base.{ℕ, ◌+◌, ◌*◌, not, ◌&&◌, List, [], ◌∷◌, ◌==◌, if◌then◌else◌}
use sedona_vm_debug.Memory.{◌>>=◌, Outcome, Allocator}
use sedona_vm_debug.Packet.Buffer.{Packet, write_u4}
use sedona_vm_debug.Packet.Ids.{
  write_threadid, write_threadgroupid, int_size, thread_id_size, thread_group_id_size,
}
use sedona_vm_debug.Packet.Header.{read_command}
use sedona_vm_debug.Jdwp.Session.{
  app_tid, readthreadgroupid, jdwp_send, jdwp_send_error, jdwp_send_not_implemented, new_reply,
}
use sedona_vm_debug.Jdwp.Command.Shared.{Handler, switch}
use sedona_vm_debug.Jdwp.Command.Machine.{thread_group_main_tgid, thread_group_sub_tgid}
use sedona_vm_debug.Jdwp.Command.Threads.{send_str}

abbrev pub invalid_thread_group : ℕ
invalid_thread_group = 11

abbrev pub main_threadgroup_name : List ℕ
main_threadgroup_name =
    77 ∷ 97 ∷ 105 ∷ 110 ∷ 95 ∷ 84 ∷ 104 ∷ 114 ∷ 101 ∷ 97 ∷ 100 ∷ 71 ∷ 114 ∷ 111 ∷ 117 ∷ 112 ∷ []

abbrev pub sub_threadgroup_name : List ℕ
sub_threadgroup_name =
    83 ∷ 117 ∷ 98 ∷ 95 ∷ 84 ∷ 104 ∷ 114 ∷ 101 ∷ 97 ∷ 100 ∷ 71 ∷ 114 ∷ 111 ∷ 117 ∷ 112 ∷ []

unfoldable pub on_send_cs_tgr_name : Handler
on_send_cs_tgr_name env s = do
  (tgid, s) ← readthreadgroupid s
  if tgid == thread_group_main_tgid
      then send_str main_threadgroup_name env s
      else if tgid == thread_group_sub_tgid
      then send_str sub_threadgroup_name env s
      else jdwp_send_error invalid_thread_group s

unfoldable pub on_send_cs_tgr_parent : Handler
on_send_cs_tgr_parent env s = do
  (tgid, s) ← readthreadgroupid s
  if not (tgid == thread_group_main_tgid) && not (tgid == thread_group_sub_tgid)
      then jdwp_send_error invalid_thread_group s
      else (do
        p ← new_reply env s thread_group_id_size
        p ← write_threadgroupid env.mem p 0
        jdwp_send p s)

-- A thread, and the number of groups below it.
abbrev pub write_child : Allocator → ℕ → Packet → Outcome Packet
write_child mem tid p = do p ← write_threadid mem p tid; write_u4 mem p 0

unfoldable pub on_send_cs_tgr_children : Handler
on_send_cs_tgr_children env s = do
  (tgid, s) ← readthreadgroupid s
  if tgid == thread_group_main_tgid
      then (do
        p ← new_reply env s (int_size + (thread_id_size + int_size) * 2)
        p ← write_u4 env.mem p 2
        p ← write_child env.mem env.pid p
        p ← write_child env.mem s.jdwp_tid p
        jdwp_send p s)
      else if tgid == thread_group_sub_tgid
      then (do
        p ← new_reply env s (int_size + (thread_id_size + int_size) * 1)
        p ← write_u4 env.mem p 1
        p ← write_child env.mem app_tid p
        jdwp_send p s)
      else jdwp_send_error invalid_thread_group s

unfoldable pub on_cs_thread_group_reference : Handler
on_cs_thread_group_reference env s = do
  command ← read_command s.command
  switch command
      ((1, on_send_cs_tgr_name) ∷ (2, on_send_cs_tgr_parent) ∷ (3, on_send_cs_tgr_children) ∷ [])
      (λ env s. jdwp_send_not_implemented s) env s
