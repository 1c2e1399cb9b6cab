-- ===== src/Jdwp/Events.antt =====
-- jdwp/eventDispatcher.c: the list of event requests. Storage for requests is always granted, and
-- the list's mutex is always obtained.
pub mod Laws
use sedona_vm_debug.Base.{
  ℕ, zero, suc, ◌+◌, ◌-◌, ◌^◌, Bool, true, false, not, ◌&&◌, List, [], ◌∷◌, Option, none, some,
  ◌==◌, if◌then◌else◌, to_u32,
}
use sedona_vm_debug.Memory.{◌>>=◌, Outcome, done, undefined, out_of_fuel, to_size}
use sedona_vm_debug.Packet.Ids.{Location}
use sedona_vm_debug.Jdwp.Objects.{at_end}

-- The union of the modifiers, by the member that was stored last.
pub data ModKind : Type 0 where
  unset : ModKind
  count conditional thread_only class_only instance_only : ℕ → ModKind
  class_match class_exclude source_name_match : List ℕ → ModKind
  location_only : Location → ModKind
  exception_only : ℕ → ℕ → ℕ → ModKind
  field_only : ℕ → ℕ → ModKind
  step : ℕ → ℕ → ℕ → ModKind

-- `mods` has one place.
pub record EventRequest : Type 0 where
  pub request_id : ℕ
  pub event_kind : ℕ
  pub suspend_policy : ℕ
  pub triggered : Bool
  pub isremoved : Bool
  pub mod_count : ℕ
  pub mods : List ModKind

-- misc/MEventkind.h and misc/MConstants.h.
abbrev pub single_step : ℕ
single_step = 1

abbrev pub breakpoint : ℕ
breakpoint = 2

abbrev pub frame_pop : ℕ
frame_pop = 3

abbrev pub exception : ℕ
exception = 4

abbrev pub thread_start : ℕ
thread_start = 6

abbrev pub thread_death_end : ℕ
thread_death_end = 7

abbrev pub class_prepare : ℕ
class_prepare = 8

abbrev pub class_unload : ℕ
class_unload = 9

abbrev pub method_entry : ℕ
method_entry = 40

abbrev pub method_exit : ℕ
method_exit = 41

abbrev pub vm_start_init : ℕ
vm_start_init = 90

abbrev pub vm_death : ℕ
vm_death = 99

abbrev pub sp_none : ℕ
sp_none = 0

abbrev pub sp_event_thread : ℕ
sp_event_thread = 1

abbrev pub sp_all : ℕ
sp_all = 2

-- `eList` from its head, where `terminated` says whether its chain ends in NULL; `_erTHREAD_START`,
-- whose fields other than `triggered` are not stored to again; `HOLD_EVENTS` and the counter.
pub record Events : Type 0 where
  pub queue : List EventRequest
  pub terminated : Bool
  pub size : ℕ
  pub er_thread_start : Option EventRequest
  pub hold_events : Bool
  pub eventrequestid_count : ℕ

-- The end of the fresh list's chain is whatever its block holds.
unfoldable pub init_events : Bool → Events
init_events terminated = record {
  queue = [];
  terminated = terminated;
  size = 0;
  er_thread_start = none;
  hold_events = false;
  eventrequestid_count = 1;
}

-- `blank` is what the fresh block holds.
unfoldable pub new_event_request : EventRequest → Events → EventRequest × Events
new_event_request blank s = (
  record blank { request_id = s.eventrequestid_count; isremoved = false; triggered = true },
  record s { eventrequestid_count = to_u32 (s.eventrequestid_count + 1) },
)

unfoldable pub add_event_request : EventRequest → Events → Events
add_event_request e s = record s {
  queue = e ∷ s.queue;
  size = to_size (s.size + 1);
  er_thread_start = if e.event_kind == thread_start then some e else s.er_thread_start;
}

unfoldable pub get_event_request_loop : Bool → ℕ → List EventRequest → Outcome (Option EventRequest)
get_event_request_loop terminated id [] = at_end terminated none
get_event_request_loop terminated id (e ∷ cur) =
    let rest = get_event_request_loop terminated id cur in
    if e.request_id == id then done (some e) else rest

unfoldable pub get_event_request_byrequestid : Events → ℕ → Outcome (Option EventRequest)
get_event_request_byrequestid s id = get_event_request_loop s.terminated id s.queue

abbrev pub is_pending : EventRequest → Bool
is_pending e = not e.isremoved && e.triggered

-- The loop of `check_forEvents`: whether it suspends the machine.
unfoldable pub check_loop : ℕ → List EventRequest → Outcome Bool
check_loop zero cur = done false
check_loop (suc left) [] = undefined
check_loop (suc left) (e ∷ cur) =
    let rest = check_loop left cur in if is_pending e then done true else rest

unfoldable pub check_for_events : Events → Outcome Bool
check_for_events s = check_loop s.size s.queue

-- The loop of `internal_remove` from `cur` on, with what follows it: what is left behind `cur`, and
-- how many went. It tests the identifier of the next request and the kind of the current one.
unfoldable pub unlink :
    Bool → ℕ → ℕ → EventRequest → List EventRequest → Outcome (List EventRequest × ℕ)
unlink terminated kind id cur [] = at_end terminated ([], 0)
unlink terminated kind id cur (next ∷ rest) =
    let later = unlink terminated kind id next rest in
    if (next.request_id == id) && (cur.event_kind == kind)
    then done (rest, 1)
    else (do (left, gone) ← later; done (next ∷ left, gone))

-- The list without any request.
abbrev pub emptied : Events → Events
emptied s = record s { queue = []; terminated = true; size = 0 }

unfoldable pub internal_remove_from : ℕ → ℕ → List EventRequest → Events → Outcome Events
internal_remove_from kind id [] s = undefined
internal_remove_from kind id (head ∷ rest) s =
    if (head.request_id == id) && (head.event_kind == kind) then done (emptied s) else (do
      (left, gone) ← unlink s.terminated kind id head rest
      done (record s { queue = head ∷ left; size = to_size (s.size + 2 ^ 64 - gone) }))

unfoldable pub internal_remove : ℕ → ℕ → Events → Outcome Events
internal_remove kind id s = internal_remove_from kind id s.queue s

-- `remove_EventRequest_byKind_RequestID`.
unfoldable pub remove_event_request : ℕ → ℕ → Events → Outcome Events
remove_event_request kind id s = internal_remove kind id s

-- The first request of a kind.
unfoldable pub first_of_kind : Bool → ℕ → List EventRequest → Outcome (Option EventRequest)
first_of_kind terminated ekind [] = at_end terminated none
first_of_kind terminated ekind (e ∷ cur) =
    let rest = first_of_kind terminated ekind cur in
    if e.event_kind == ekind then done (some e) else rest

-- `removeAll_EventRequests_byKind`, which calls itself after each removal, for a number of calls.
unfoldable pub remove_all : ℕ → ℕ → Events → Outcome Events
remove_all zero ekind s = out_of_fuel
remove_all (suc calls) ekind s = do
  found ← first_of_kind s.terminated ekind s.queue
  elim found [
    | none ↦ done s
    | some e ↦ (do s ← internal_remove e.event_kind e.request_id s; remove_all calls ekind s)
  ]

unfoldable pub hold_events_if : Bool → Events → Events
hold_events_if hold s = record s { hold_events = hold }

unfoldable pub can_dispatch_all : Events → Bool
can_dispatch_all s = not s.hold_events
