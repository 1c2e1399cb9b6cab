-- ===== src/Jdwp/Session.antt =====
-- jdwp/mainHandler.c: what the debugger's thread keeps, reading the command and sending packets.
pub mod Laws
pub mod Replies
use sedona_vm_debug.Base.{ℕ, ◌+◌, Bool, List, [], ◌∷◌, ◌++◌, length, take, leb, if◌then◌else◌}
use sedona_vm_debug.Memory.{◌>>=◌, Outcome, done, undefined, Allocator}
use sedona_vm_debug.Packet.Buffer.{Packet, read_u1, read_u2, read_u4, read_u8}
use sedona_vm_debug.Packet.Ids.{
  Location, read_objectid, read_methodid, read_fieldid, read_threadid, read_threadgroupid, read_tag,
  read_location, read_str,
}
use sedona_vm_debug.Packet.Header.{
  read_id, write_id, write_length, write_errorcode, new_reply_packet, min_packet_size,
}
use sedona_vm_debug.Vm.Frames.{Frames, on_vm_suspend, on_vm_resume}
use sedona_vm_debug.Jdwp.Types.{Types}
use sedona_vm_debug.Jdwp.Objects.{Variables}
use sedona_vm_debug.Jdwp.Events.{Events, EventRequest, ModKind}

-- What the code is given: the allocator, the process's id, whether its mutex calls succeed, what a
-- fresh request holds, and what the bytes of a modifier read as where another member was stored.
pub record Env : Type 0 where
  pub mem : Allocator
  pub pid : ℕ
  pub locked : Bool
  pub unlocked : Bool
  pub blank : EventRequest
  pub stale_location : ModKind → Location
  pub stale_word : ModKind → ℕ

-- `sent` is what went over the socket, packet by packet.
pub record Session : Type 0 where
  pub command : Packet
  pub packet_error : Packet
  pub types : Types
  pub variables : Variables
  pub events : Events
  pub suspend_count : ℕ
  pub frames : Frames
  pub jdwp_tid : ℕ
  pub jni_tid : ℕ
  pub packet_id_unique : ℕ
  pub init_jdwp : Bool
  pub sent : List (List ℕ)

abbrev pub app_tid : ℕ
app_tid = 1

-- A reader on the command's packet.
abbrev pub reading {ℓ} :
    {A : Type ℓ} → (Packet → Outcome (A × Packet)) → Session → Outcome (A × Session)
reading read s = do (a, p) ← read s.command; done (a, record s { command = p })

unfoldable pub readu1 : Session → Outcome (ℕ × Session)
readu1 = reading read_u1

unfoldable pub readu2 : Session → Outcome (ℕ × Session)
readu2 = reading read_u2

unfoldable pub readu4 : Session → Outcome (ℕ × Session)
readu4 = reading read_u4

unfoldable pub readu8 : Session → Outcome (ℕ × Session)
readu8 = reading read_u8

unfoldable pub readtag : Session → Outcome (ℕ × Session)
readtag = reading read_tag

unfoldable pub readmethodid : Session → Outcome (ℕ × Session)
readmethodid = reading read_methodid

unfoldable pub readfieldid : Session → Outcome (ℕ × Session)
readfieldid = reading read_fieldid

unfoldable pub readobjectid : Session → Outcome (ℕ × Session)
readobjectid = reading read_objectid

unfoldable pub readthreadid : Session → Outcome (ℕ × Session)
readthreadid = reading read_threadid

unfoldable pub readthreadgroupid : Session → Outcome (ℕ × Session)
readthreadgroupid = reading read_threadgroupid

unfoldable pub readlocation : Session → Outcome (Location × Session)
readlocation = reading read_location

unfoldable pub readstr : Allocator → Session → Outcome (List ℕ × Session)
readstr mem = reading (read_str mem)

-- `send(_CLIENTSOCKET, data, count, 0)` reads `count` bytes.
unfoldable pub send : List ℕ → ℕ → Session → Outcome Session
send data_bytes count s =
    if leb count (length data_bytes)
    then done (record s { sent = s.sent ++ (take count data_bytes ∷ []) })
    else undefined

unfoldable pub jdwp_send : Packet → Session → Outcome Session
jdwp_send packet s = do
  packet ← write_length packet packet.offset
  send packet.contents packet.offset s

unfoldable pub new_reply : Env → Session → ℕ → Outcome Packet
new_reply env s bytes = do id ← read_id s.command; new_reply_packet env.mem id bytes

-- One packet serves every error; its length is not stored.
unfoldable pub jdwp_send_error : ℕ → Session → Outcome Session
jdwp_send_error errorcode s = do
  p ← write_errorcode s.packet_error errorcode
  id ← read_id s.command
  p ← write_id p id
  send p.contents min_packet_size (record s { packet_error = p })

abbrev pub not_implemented : ℕ
not_implemented = 99

unfoldable pub jdwp_send_not_implemented : Session → Outcome Session
jdwp_send_not_implemented s = jdwp_send_error not_implemented s

unfoldable pub vm_suspend : Session → Session
vm_suspend s = record s { suspend_count = on_vm_suspend s.suspend_count }

unfoldable pub vm_resume : Session → Session
vm_resume s = record s { suspend_count = on_vm_resume s.suspend_count }
