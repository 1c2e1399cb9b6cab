-- ===== src/Jdwp/Command/Replies.antt =====
-- jdwp/mainHandler.c: what the client is told of the application's thread.
use sedona_vm_debug.Base.{if◌then◌else◌, ℕ, ◌≡◌, arith, List, some, length, big_endian4}
use sedona_vm_debug.Memory.{done}
use sedona_vm_debug.Packet.Buffer.{Packet, write_u4}
use sedona_vm_debug.Packet.Ids.{read_threadid, write_threadgroupid}
use sedona_vm_debug.Packet.Header.{read_id}
use sedona_vm_debug.Packet.Append.{write_u4-Appends}
use sedona_vm_debug.Vm.Frames.{get_frames, is_vm_suspended}
use sedona_vm_debug.Jdwp.Session.{Env, Session, readthreadid, app_tid}
use sedona_vm_debug.Jdwp.Session.Replies.{Replies, new_reply-Replies}
use sedona_vm_debug.Jdwp.Command.Shared.{send_u4}
use sedona_vm_debug.Jdwp.Command.Machine.{thread_group_sub_tgid}
use sedona_vm_debug.Jdwp.Command.Threads.{
  on_send_cs_tr_frame_count, on_send_cs_tr_suspend_count, on_send_cs_tr_thread_group,
}

send_u4-Replies :
    (env : Env) (s : Session) (id v : ℕ) (b : List ℕ)
    → read_id s.command ≡ done id
    → env.mem.malloc 15 ≡ some b
    → Replies env.mem id (big_endian4 v) s (send_u4 v env s)
unfolding send_u4
send_u4-Replies env s id v b here got =
    new_reply-Replies env s id 4 (big_endian4 v) b (λ p. write_u4 env.mem p v) here (omega arith)
      got (λ p valid. write_u4-Appends env.mem p v valid)

count_all : (c : ℕ) → (if is_vm_suspended c then c else 0) ≡ c
unfolding is_vm_suspended
count_all c = ground arith

-- The questions for the suspend count, the frames and the group of the application's thread are
-- answered by one reply each, with the counter, the number of frames and the sub group in four
-- bytes, and nothing else of the session changes but the command's reader; or the process exits
-- since `realloc` gave NULL for a block of at most 45 bytes. The identifier of that thread stands
-- in the command, and `malloc` grants a packet of 15 bytes.
pub on_send_cs_tr-Replies :
    (env : Env) (s : Session) (id : ℕ) (p : Packet) (b : List ℕ)
    → read_threadid s.command ≡ done (app_tid, p)
    → read_id p ≡ done id
    → env.mem.malloc 15 ≡ some b
    → Replies env.mem id
        (big_endian4 s.suspend_count)
        (record s { command = p })
        (on_send_cs_tr_suspend_count env s)
      × Replies env.mem id
          (big_endian4 (length s.frames.frames))
          (record s { command = p })
          (on_send_cs_tr_frame_count env s)
      × Replies env.mem id
          (big_endian4 thread_group_sub_tgid)
          (record s { command = p })
          (on_send_cs_tr_thread_group env s)
unfolding on_send_cs_tr_suspend_count on_send_cs_tr_frame_count on_send_cs_tr_thread_group
    readthreadid get_frames write_threadgroupid
on_send_cs_tr-Replies env s id p b read here got =
    let s₁ : Session = record s { command = p } in
    (
      rw (read, count_all s.suspend_count) (send_u4-Replies env s₁ id s.suspend_count b here got),
      rw read (send_u4-Replies env s₁ id (length s.frames.frames) b here got),
      rw read (
          new_reply-Replies env s₁ id 4 (big_endian4 thread_group_sub_tgid) b
            (λ q. write_threadgroupid env.mem q thread_group_sub_tgid) here (omega arith) got
            (λ q valid. write_u4-Appends env.mem q thread_group_sub_tgid valid)),
    )
