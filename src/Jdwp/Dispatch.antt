-- ===== src/Jdwp/Dispatch.antt =====
-- jdwp/eventDispatcher.c: sending events by suspend policy.
pub mod Packets
pub mod Laws
use sedona_vm_debug.Base.{
  ℕ, zero, suc, ◌+◌, Bool, true, false, ◌&&◌, List, [], ◌∷◌, none, some, ◌==◌, ltb, if◌then◌else◌,
}
use sedona_vm_debug.Memory.{◌>>=◌, Outcome, done, undefined, to_size, Allocator}
use sedona_vm_debug.Packet.Buffer.{Packet, write_u1, write_u4}
use sedona_vm_debug.Packet.Ids.{byte_size, int_size}
use sedona_vm_debug.Packet.Header.{new_command_packet}
use sedona_vm_debug.Packet.Chain.{PacketList, add_packet, get_byte_size, write_list, write_packet}
use sedona_vm_debug.Vm.Frames.{is_vm_suspended}
use sedona_vm_debug.Jdwp.Types.Packets.{empty_list}
use sedona_vm_debug.Jdwp.Events.{
  EventRequest, vm_start_init, sp_none, sp_event_thread, sp_all, is_pending,
}
use sedona_vm_debug.Jdwp.Session.{Env, Session, jdwp_send, vm_suspend}
use sedona_vm_debug.Jdwp.Dispatch.Packets.{internal_dispatch}

-- A request that was reported.
abbrev pub reported : EventRequest → EventRequest
reported e = record e { triggered = false; isremoved = true }

abbrev pub is_due : ℕ → EventRequest → Bool
is_due pol e = is_pending e && (e.suspend_policy == pol)

-- The packet goes to the list unless it is empty.
abbrev pub add_unless_empty : Allocator → Packet → PacketList → Outcome PacketList
add_unless_empty mem p plist = if ltb 0 p.offset then add_packet mem p plist else done plist

-- The loop of `get_by_suspendPolicy`, by what `internalDispatch` makes of a request.
unfoldable pub policy_loop :
    Allocator
    → (EventRequest → Outcome Packet)
    → ℕ
    → ℕ
    → List EventRequest
    → PacketList
    → Outcome (List EventRequest × PacketList)
policy_loop mem packet_of pol zero cur plist = done (cur, plist)
policy_loop mem packet_of pol (suc left) [] plist = undefined
policy_loop mem packet_of pol (suc left) (e ∷ cur) plist =
    let skipped = (do
      (cur, plist) ← policy_loop mem packet_of pol left cur plist
      done (e ∷ cur, plist)) in
    let taken = (do
      p ← packet_of e
      plist ← add_unless_empty mem p plist
      (cur, plist) ← policy_loop mem packet_of pol left cur plist
      done (reported e ∷ cur, plist)) in
    if is_due pol e then taken else skipped

unfoldable pub get_by_suspend_policy : Env → Session → ℕ → Outcome (PacketList × Session)
get_by_suspend_policy env s pol = do
  let packet_of = internal_dispatch env s.types (is_vm_suspended s.suspend_count)
  (queue, plist) ← policy_loop env.mem packet_of pol s.events.size s.events.queue empty_list
  done (plist, record s { events = record s.events { queue = queue } })

abbrev pub composite_extra : ℕ
composite_extra = byte_size + int_size

abbrev pub composite_command : ℕ
composite_command = 100

abbrev pub event_command_set : ℕ
event_command_set = 64

unfoldable pub internal_dispatch_set : Env → PacketList → ℕ → Session → Outcome Session
internal_dispatch_set env plist suspol s = if plist.size == 0 then done s else (do
  bytes ← get_byte_size plist
  (cmd, unique) ←
      new_command_packet env.mem env.locked env.unlocked s.packet_id_unique
        (to_size (composite_extra + bytes)) composite_command event_command_set
  cmd ← write_u1 env.mem cmd suspol
  cmd ← write_u4 env.mem cmd plist.size
  cmd ← write_list env.mem cmd plist
  jdwp_send cmd (record s { packet_id_unique = unique }))

-- The requests are taken from the list under its lock, then sent.
unfoldable pub dispatch_all : Env → Session → Outcome Session
dispatch_all env s = do
  (of_none, s) ← get_by_suspend_policy env s sp_none
  (of_thread, s) ← get_by_suspend_policy env s sp_event_thread
  (of_all, s) ← get_by_suspend_policy env s sp_all
  s ← internal_dispatch_set env of_none sp_none s
  s ← internal_dispatch_set env of_thread sp_event_thread s
  internal_dispatch_set env of_all sp_all s

-- The request is no longer triggered, also in the list, where identifiers are distinct.
abbrev pub untrigger : ℕ → List EventRequest → List EventRequest
untrigger id [] = []
untrigger id (e ∷ queue) =
    (if e.request_id == id then record e { triggered = false } else e) ∷ untrigger id queue

unfoldable pub dispatch_event : Env → EventRequest → Session → Outcome Session
dispatch_event env e s = do
  let s = if e.suspend_policy == sp_none then s else vm_suspend s
  let s = record s { events = record s.events { queue = untrigger e.request_id s.events.queue } }
  p ← internal_dispatch env s.types (is_vm_suspended s.suspend_count) e
  (cmd, unique) ←
      new_command_packet env.mem env.locked env.unlocked s.packet_id_unique
        (to_size (p.offset + composite_extra)) composite_command event_command_set
  cmd ← write_u1 env.mem cmd e.suspend_policy
  cmd ← write_u4 env.mem cmd 1
  cmd ← write_packet env.mem cmd p
  jdwp_send cmd (record s { packet_id_unique = unique })

unfoldable pub dispatch_thread_start : Env → Session → Outcome Session
dispatch_thread_start env s = elim s.events.er_thread_start [
  | none ↦ done s
  | some e ↦ dispatch_event env e s
]

unfoldable pub dispatch_vm_init : Env → Session → Outcome Session
dispatch_vm_init env s =
    dispatch_event env
      (record env.blank {
        event_kind = vm_start_init;
        mod_count = 0;
        suspend_policy = sp_none;
        triggered = true;
        isremoved = false;
        request_id = 0;
      })
      s
