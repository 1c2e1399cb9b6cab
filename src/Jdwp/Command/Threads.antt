-- ===== src/Jdwp/Command/Threads.antt =====
-- jdwp/mainHandler.c: the command set ThreadReference.
use sedona_vm_debug.Base.{
  ℕ, zero, suc, ◌+◌, ◌-◌, ◌*◌, ◌^◌, not, ◌&&◌, ◌||◌, List, [], ◌∷◌, drop, ◌==◌, ltb, leb,
  if◌then◌else◌, to_u32,
}
use sedona_vm_debug.Memory.{◌>>=◌, Outcome, done, exits, undefined, to_size, Allocator}
use sedona_vm_debug.Packet.Buffer.{Packet, write_u4}
use sedona_vm_debug.Packet.Ids.{
  write_str, write_threadgroupid, write_frameid, write_location, int_size, thread_group_id_size,
  frame_id_size,
}
use sedona_vm_debug.Packet.Header.{read_command}
use sedona_vm_debug.Vm.Frames.{FrameContainer, get_frames, is_vm_suspended}
use sedona_vm_debug.Jdwp.Types.Packets.{string_size}
use sedona_vm_debug.Jdwp.Dispatch.{dispatch_thread_start}
use sedona_vm_debug.Jdwp.Dispatch.Packets.{location_size}
use sedona_vm_debug.Jdwp.Session.{
  Session, app_tid, readu1, readu2, readu4, readu8, readtag, readthreadid, readstr, jdwp_send,
  jdwp_send_error, jdwp_send_not_implemented, new_reply, vm_suspend, vm_resume,
}
use sedona_vm_debug.Jdwp.Command.Shared.{Handler, switch, send_u4}
use sedona_vm_debug.Jdwp.Command.Machine.{thread_group_main_tgid, thread_group_sub_tgid}
use sedona_vm_debug.Jdwp.Command.Reference.{invalid_object}

abbrev pub invalid_thread : ℕ
invalid_thread = 10

abbrev pub thread_not_suspended : ℕ
thread_not_suspended = 13

abbrev pub type_mismatch : ℕ
type_mismatch = 34

abbrev pub running_status : ℕ
running_status = 1

abbrev pub sleeping_status : ℕ
sleeping_status = 2

abbrev pub suspend_status_suspended : ℕ
suspend_status_suspended = 1

abbrev pub main_thread_name : List ℕ
main_thread_name = 83 ∷ 86 ∷ 77 ∷ 95 ∷ 80 ∷ 114 ∷ 111 ∷ 99 ∷ 101 ∷ 115 ∷ 115 ∷ []

abbrev pub jdwp_thread_name : List ℕ
jdwp_thread_name = 74 ∷ 68 ∷ 87 ∷ 80 ∷ 95 ∷ 84 ∷ 104 ∷ 114 ∷ 101 ∷ 97 ∷ 100 ∷ []

abbrev pub main_application_name : List ℕ
main_application_name = 65 ∷ 80 ∷ 80 ∷ 95 ∷ 84 ∷ 104 ∷ 114 ∷ 101 ∷ 97 ∷ 100 ∷ []

abbrev pub jni_thread_name : List ℕ
jni_thread_name = 74 ∷ 78 ∷ 73 ∷ 95 ∷ 84 ∷ 104 ∷ 114 ∷ 101 ∷ 97 ∷ 100 ∷ []

-- A reply of one string.
abbrev pub send_str : List ℕ → Handler
send_str str env s = do
  p ← new_reply env s (string_size str)
  p ← write_str env.mem p str
  jdwp_send p s

unfoldable pub on_send_cs_tr_name : Handler
on_send_cs_tr_name env s = do
  (tid, s) ← readthreadid s
  if env.pid == tid
      then send_str main_thread_name env s
      else if s.jdwp_tid == tid
      then send_str jdwp_thread_name env s
      else if app_tid == tid
      then send_str main_application_name env s
      else if s.jni_tid == tid
      then send_str jni_thread_name env s
      else jdwp_send_error invalid_thread s

unfoldable pub on_send_cs_tr_suspend : Handler
on_send_cs_tr_suspend env s = do
  (tid, s) ← readthreadid s
  if app_tid == tid
      then (do p ← new_reply env s 0; s ← jdwp_send p s; done (vm_suspend s))
      else jdwp_send_error invalid_thread s

unfoldable pub on_send_cs_tr_resume : Handler
on_send_cs_tr_resume env s = do
  (tid, s) ← readthreadid s
  if app_tid == tid
      then (do
        s ← (if leb s.suspend_count 1 then dispatch_thread_start env s else done s)
        let s = vm_resume s
        p ← new_reply env s 0
        jdwp_send p s)
      else jdwp_send_error invalid_thread s

-- Two numbers: the status and the suspend status.
abbrev pub send_status : ℕ → ℕ → Packet → Handler
send_status status suspend_status p env s = do
  p ← write_u4 env.mem p status
  p ← write_u4 env.mem p suspend_status
  jdwp_send p s

-- The application's thread is suspended first, so it is never running here unless the counter wraps.
unfoldable pub on_send_cs_tr_status : Handler
on_send_cs_tr_status env s = do
  (tid, s) ← readthreadid s
  if not (tid == app_tid)
        && not (tid == env.pid)
        && not (tid == s.jni_tid)
        && not (tid == s.jdwp_tid)
      then jdwp_send_error invalid_object s
      else (do
        p ← new_reply env s (int_size * 2)
        if tid == app_tid
            then (let s = vm_suspend s in
                if is_vm_suspended s.suspend_count
                then send_status sleeping_status suspend_status_suspended p env s
                else send_status running_status 0 p env s)
            else send_status running_status 0 p env s)

unfoldable pub on_send_cs_tr_thread_group : Handler
on_send_cs_tr_thread_group env s = do
  (tid, s) ← readthreadid s
  p ← new_reply env s thread_group_id_size
  if tid == app_tid
      then (do p ← write_threadgroupid env.mem p thread_group_sub_tgid; jdwp_send p s)
      else (do
        p ← write_threadgroupid env.mem p thread_group_main_tgid
        let known = tid == s.jdwp_tid || tid == env.pid
        jdwp_send p (if known then s else record s { jni_tid = tid }))

-- The loop of `startFrame` up to `length`; a place without a frame is undefined.
unfoldable pub write_frames : Allocator → ℕ → List FrameContainer → Packet → Outcome Packet
write_frames mem zero frames p = done p
write_frames mem (suc left) [] p = undefined
write_frames mem (suc left) (f ∷ frames) p = do
  p ← write_frameid mem p f.frame_id
  p ← write_location mem p f.frame_location
  write_frames mem left frames p

-- `length` is a signed number in the test, and unsigned where the loop compares it.
unfoldable pub on_send_cs_tr_frames : Handler
on_send_cs_tr_frames env s = do
  (tid, s) ← readthreadid s
  (start_frame, s) ← readu4 s
  (asked, s) ← readu4 s
  let length =
      if ltb asked (2 ^ 31) then asked else to_u32 (get_frames s.frames + 2 ^ 32 - start_frame)
  let signed = if ltb length (2 ^ 31) then length else length + (2 ^ 64 - 2 ^ 32)
  p ← new_reply env s (to_size (int_size + signed * (frame_id_size + location_size)))
  p ← write_u4 env.mem p length
  p ← write_frames env.mem (length - start_frame) (drop start_frame s.frames.frames) p
  jdwp_send p s

unfoldable pub on_send_cs_tr_frame_count : Handler
on_send_cs_tr_frame_count env s = do
  (tid, s) ← readthreadid s
  if app_tid == tid then send_u4 (get_frames s.frames) env s else jdwp_send_error invalid_thread s

-- `VMController->exit` ends the process.
unfoldable pub on_send_cs_tr_stop : Handler
on_send_cs_tr_stop env s = exits

unfoldable pub on_send_cs_tr_suspend_count : Handler
on_send_cs_tr_suspend_count env s = do
  (tid, s) ← readthreadid s
  let count = if (tid == app_tid) && is_vm_suspended s.suspend_count then s.suspend_count else 0
  send_u4 count env s

-- A value that is read and dropped, since `force_earlyExitMethod` does nothing.
abbrev pub drop_value {ℓ} : {A : Type ℓ} → Outcome (A × Session) → Outcome Session
drop_value read = do (v, s) ← read; done s

-- The switch over the tag of the value.
unfoldable pub force_value : ℕ → Handler
force_value tag env s =
    if tag == 91 || tag == 76 || tag == 86 || tag == 99
    then done s
    else if tag == 66 || tag == 90
    then drop_value (readu1 s)
    else if tag == 67 || tag == 83
    then drop_value (readu2 s)
    else if tag == 70 || tag == 73
    then drop_value (readu4 s)
    else if tag == 68 || tag == 74
    then drop_value (readu8 s)
    else if tag == 115
    then drop_value (readstr env.mem s)
    else if tag == 116 || tag == 103 || tag == 108
    then jdwp_send_error type_mismatch s
    else jdwp_send_error invalid_object s

unfoldable pub on_send_cs_tr_force_early_return : Handler
on_send_cs_tr_force_early_return env s =
    if not (is_vm_suspended s.suspend_count) then jdwp_send_error thread_not_suspended s else (do
      (tid, s) ← readthreadid s
      if not (app_tid == tid)
          then jdwp_send_error invalid_thread s
          else (do (tag, s) ← readtag s; s ← force_value tag env s; done (vm_resume s)))

unfoldable pub on_cs_thread_reference : Handler
on_cs_thread_reference env s = do
  command ← read_command s.command
  switch command
      ((1, on_send_cs_tr_name)
        ∷ (2, on_send_cs_tr_suspend)
        ∷ (3, on_send_cs_tr_resume)
        ∷ (4, on_send_cs_tr_status)
        ∷ (5, on_send_cs_tr_thread_group)
        ∷ (6, on_send_cs_tr_frames)
        ∷ (7, on_send_cs_tr_frame_count)
        ∷ (10, on_send_cs_tr_stop)
        ∷ (11, on_send_cs_tr_stop)
        ∷ (12, on_send_cs_tr_suspend_count)
        ∷ (14, on_send_cs_tr_force_early_return)
        ∷ [])
      (λ env s. jdwp_send_not_implemented s) env s
