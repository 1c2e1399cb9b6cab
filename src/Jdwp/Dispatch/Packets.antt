-- ===== src/Jdwp/Dispatch/Packets.antt =====
-- jdwp/eventDispatcher.c: events as packets.
use sedona_vm_debug.Base.{
  ℕ, zero, suc, ◌+◌, Bool, ◌||◌, List, [], get_elem?, none, some, ◌==◌, if◌then◌else◌,
}
use sedona_vm_debug.Memory.{◌>>=◌, Outcome, done, undefined, defined, to_size, block}
use sedona_vm_debug.Packet.Buffer.{Packet, write_u1, write_u4}
use sedona_vm_debug.Packet.Ids.{
  Location, write_threadid, write_objectid, write_location, write_tag, byte_size, int_size,
  thread_id_size, tag_size, class_id_size, method_id_size, objectid_size,
}
use sedona_vm_debug.Packet.Utf.{write_utf, utf_size}
use sedona_vm_debug.Jdwp.Types.{Types, findref_byrid, findref_byclassname, non_null, typetag_class}
use sedona_vm_debug.Jdwp.Events.{
  ModKind, location_only, thread_only, class_only, class_match, EventRequest, single_step,
  breakpoint, exception, thread_start, thread_death_end, class_prepare, class_unload, method_entry,
  method_exit, vm_start_init, vm_death,
}
use sedona_vm_debug.Jdwp.Session.{Env, app_tid}

abbrev pub location_size : ℕ
location_size = tag_size + class_id_size + method_id_size + 8

-- The members of a modifier. A pattern that was not stored is no pointer to a string; the others
-- are whatever the bytes hold.
abbrev pub loc_of : Env → ModKind → Location
loc_of env (location_only loc) = loc
loc_of env m = env.stale_location m

abbrev pub pattern_of : ModKind → Outcome (List ℕ)
pattern_of (class_match pattern) = done pattern
pattern_of m = undefined

-- `threadId` and `refTypeId`, which stand at the same place.
abbrev pub word_of : Env → ModKind → ℕ
word_of env (thread_only tid) = tid
word_of env (class_only rtid) = rtid
word_of env m = env.stale_word m

module _ (env : Env) where
  -- `p->data = malloc(size); p->length = size`; the offset stays.
  unfoldable pub renew : ℕ → Packet → Packet
  renew size p = record p { contents = block (env.mem.malloc size); length = size }

  -- The kind and the identifier of the request.
  unfoldable pub event_head : EventRequest → ℕ → Packet → Outcome Packet
  event_head e size p = do
    p ← write_u1 env.mem (renew size p) e.event_kind
    write_u4 env.mem p e.request_id

  unfoldable pub event_at_thread : EventRequest → ℕ → ℕ → Packet → Outcome Packet
  event_at_thread e tid size p = do p ← event_head e size p; write_threadid env.mem p tid

  unfoldable pub event_at_location : EventRequest → ℕ → Packet → Outcome Packet
  event_at_location e i p = do
    m ← defined (get_elem? e.mods i)
    p ← event_at_thread e app_tid (byte_size + int_size + thread_id_size + location_size) p
    write_location env.mem p (loc_of env m)

  unfoldable pub event_exception : EventRequest → Packet → Outcome Packet
  event_exception e p = do
    let size = int_size + thread_id_size + location_size + (objectid_size + tag_size) + byte_size
    m ← defined (get_elem? e.mods 0)
    p ← write_u4 env.mem (renew size p) e.request_id
    p ← write_threadid env.mem p app_tid
    write_location env.mem p (loc_of env m)

  unfoldable pub event_class_prepare : Types → EventRequest → ℕ → Packet → Outcome Packet
  event_class_prepare types e i p = do
    m ← defined (get_elem? e.mods i)
    pattern ← pattern_of m
    found ← findref_byclassname types pattern
    elim found [
      | none ↦ done p
      | some t ↦ (do
        let mlen = to_size (
            byte_size
            + int_size
            + thread_id_size
            + tag_size
            + objectid_size
            + utf_size t.signature
            + int_size)
        p ← event_at_thread e app_tid mlen p
        p ← write_tag env.mem p typetag_class
        p ← write_objectid env.mem p t.ref_clazzid
        p ← write_utf env.mem p t.signature
        write_u4 env.mem p t.status)
    ]

  unfoldable pub event_class_unload : Types → EventRequest → ℕ → Packet → Outcome Packet
  event_class_unload types e i p = if e.mod_count == 0 then done p else (do
    m ← defined (get_elem? e.mods i)
    found ← findref_byrid types (word_of env m)
    t ← non_null found
    p ← event_head e (to_size (byte_size + int_size + utf_size t.signature)) p
    write_utf env.mem p t.signature)

  unfoldable pub event_thread_end : EventRequest → ℕ → Packet → Outcome Packet
  event_thread_end e i p = do
    m ← defined (get_elem? e.mods i)
    event_at_thread e (word_of env m) (byte_size + int_size + thread_id_size) p

  -- The switch of `internalDispatch`; the kinds that are left out only print.
  unfoldable pub dispatch_round : Types → Bool → EventRequest → ℕ → Packet → Outcome Packet
  dispatch_round types suspended e i p =
      let kind = e.event_kind in
      if kind == vm_death
      then (if suspended then event_head e (byte_size + int_size) p else done p)
      else if kind == vm_start_init
      then event_at_thread e env.pid (byte_size + int_size + thread_id_size) p
      else if kind == thread_death_end
      then (if suspended then event_thread_end e i p else done p)
      else if (kind == single_step || kind == breakpoint)
          || (kind == method_entry || kind == method_exit)
      then event_at_location e i p
      else if kind == exception
      then event_exception e p
      else if kind == thread_start
      then event_at_thread e app_tid (byte_size + int_size + thread_id_size) p
      else if kind == class_prepare
      then event_class_prepare types e i p
      else if kind == class_unload
      then event_class_unload types e i p
      else done p

  unfoldable pub dispatch_loop : ℕ → Types → Bool → EventRequest → ℕ → Packet → Outcome Packet
  dispatch_loop zero types suspended e i p = done p
  dispatch_loop (suc left) types suspended e i p = do
    p ← dispatch_round types suspended e i p
    dispatch_loop left types suspended e (i + 1) p

  -- One round for each modifier, and one where there is none. The data and the length of a packet
  -- that no round stores are never read.
  unfoldable pub internal_dispatch : Types → Bool → EventRequest → Outcome Packet
  internal_dispatch types suspended e =
      dispatch_loop (if e.mod_count == 0 then 1 else e.mod_count) types suspended e 0
        (record { contents = []; offset = 0; length = 0 })
