-- ===== src/Tests/Debugger.antt =====
-- The theorems on the debugger and on native methods at concrete inputs.
use sedona_vm_debug.Base.{
  ℕ, suc, ◌-◌, ◌%◌, ◌^◌, ◌≡◌, refl, inr, arith, true, false, List, [], ◌∷◌, ◌++◌, length, take,
  drop, inr, none, some,
}
use sedona_vm_debug.Memory.{done, undefined}
use sedona_vm_debug.Packet.Buffer.{Packet, read_u4_buff}
use sedona_vm_debug.Packet.Buffer.{write_u1, write_u4, ensure_packet_cap, put}
use sedona_vm_debug.Packet.Ids.{write_threadid}
use sedona_vm_debug.Packet.Header.{
  read_id, read_commandset, is_packet_reply, is_packet_command, read_flags,
}
use sedona_vm_debug.Jdwp.Types.{Slots, add_slot, init_types}
use sedona_vm_debug.Jdwp.Types.Laws.{IsSlots, Added, add_slot-Added}
use sedona_vm_debug.Jdwp.Events.{EventRequest, Events, remove_all}
use sedona_vm_debug.Jdwp.Events.Laws.{
  IsQueue, Removal, remove_all-Removal, distinct_nil, distinct_cons,
}
use sedona_vm_debug.Vm.Frames.{init_frames, is_vm_suspended}
use sedona_vm_debug.Jdwp.Session.{Env, Session, jdwp_send}
use sedona_vm_debug.Jdwp.Session.Laws.{jdwp_send-read_u4_buff, error_reply}
use sedona_vm_debug.Jdwp.Dispatch.Packets.{
  internal_dispatch, dispatch_loop, dispatch_round, event_at_thread, event_head, renew,
}
use sedona_vm_debug.Jdwp.Dispatch.Laws.{IsReady, Rounds, get_by_suspend_policy-Rounds}
use sedona_vm_debug.Jdwp.Command.{on_packet, on_receive}
use sedona_vm_debug.Jdwp.Command.Laws.{on_packet-unknown, on_receive-undefined}
use sedona_vm_debug.Vm.Word.{update, with_ival}
use sedona_vm_debug.Vm.Machine.{Vm}
use sedona_vm_debug.Vm.Fields.{get_const, get_byte, get_short, get_int, set_int}
use sedona_vm_debug.Natives.Component.{
  int_type_id, type_id, slot_handle, type_of, get_int_slot, do_set_int,
}
use sedona_vm_debug.Natives.Component.Laws.{LeavesSlot, stored, int, setters-Slot}
use sedona_vm_debug.Natives.Sockets.{
  Net, Sockets, tcp_socket_connect, tcp_server_socket_bind, tcp_server_socket_accept,
}
use sedona_vm_debug.Natives.Sockets.Laws.{Opens, sockets-Opens}
use sedona_vm_debug.Tests.{allocator, zeros}

abbrev pub request : ℕ → ℕ → EventRequest
request id kind = record {
  request_id = id;
  event_kind = kind;
  suspend_policy = 1;
  triggered = true;
  isremoved = false;
  mod_count = 0;
  mods = [];
}

-- A start of a thread and a breakpoint behind it.
abbrev pub events : Events
events = record {
  queue = request 7 6 ∷ request 8 2 ∷ [];
  terminated = true;
  size = 2;
  er_thread_start = none;
  hold_events = false;
  eventrequestid_count = 9;
}

events-IsQueue : IsQueue events
events-IsQueue = record {
  ends = refl;
  size_limit = omega arith;
  distinct = distinct_cons (refl, tt) (distinct_cons tt distinct_nil);
}

remove_all-Removal_example : Removal 2 events (remove_all (suc (suc 1)) 2 events)
remove_all-Removal_example = remove_all-Removal 2 1 events events-IsQueue

abbrev pub env : Env
env = record {
  mem = allocator;
  pid = 40;
  locked = true;
  unlocked = true;
  blank = request 0 0;
  stale_location = λ m. record { tag = 0; class_id = 0; method_id = 0; index = 0 };
  stale_word = λ m. 0;
}

-- A command of the set 64, which is no command set, with the identifier 5.
abbrev pub command : Packet
command = record {
  contents = 0 ∷ 0 ∷ 0 ∷ 11 ∷ 0 ∷ 0 ∷ 0 ∷ 5 ∷ 0 ∷ 64 ∷ 1 ∷ [];
  offset = 11;
  length = 11;
}

abbrev pub session : Events → Session
session queue = record {
  command = command;
  packet_error = record { contents = zeros 11; offset = 11; length = 11 };
  types = init_types;
  variables = record { list = []; terminated = true; size = 0 };
  events = queue;
  suspend_count = 0;
  frames = init_frames;
  jdwp_tid = 2;
  jni_tid = 0;
  packet_id_unique = 1;
  init_jdwp = true;
  sent = [];
}

jdwp_send-read_u4_buff_example :
    (bytes : List ℕ) × (jdwp_send command (session events)
      ≡ done (record (session events) { sent = [] ++ (bytes ∷ []) }))
    × (length bytes ≡ 11)
    × (read_u4_buff bytes ≡ done (11 % 2 ^ 32))
    × (drop 4 bytes ≡ take (11 - 4) (drop 4 command.contents))
jdwp_send-read_u4_buff_example =
    jdwp_send-read_u4_buff command (session events) (omega arith) (omega arith)

pub from_client : is_packet_reply command ≡ done false
unfolding is_packet_reply is_packet_command read_flags
from_client = refl

pub in_set : read_commandset command ≡ done 64
unfolding read_commandset
in_set = refl

pub with_id : read_id command ≡ done 5
unfolding read_id read_u4_buff
with_id = refl

on_packet-unknown_example :
    on_packet 4 env (session events)
    ≡ done (record (session events) {
      packet_error = record {
        contents = error_reply (0 ∷ 0 ∷ 0 ∷ 0 ∷ []) 5 0 99 ++ [];
        offset = 11;
        length = 11;
      };
      sent = [] ++ (error_reply (0 ∷ 0 ∷ 0 ∷ 0 ∷ []) 5 0 99 ∷ []);
    })
on_packet-unknown_example =
    on_packet-unknown 4 env (session events) 64 5 0 0 0 0 0 0 0 0 0 0 0 [] refl from_client in_set
      with_id (omega arith)

-- The header of a packet of twelve bytes.
twelve : read_u4_buff (0 ∷ 0 ∷ 0 ∷ 12 ∷ 0 ∷ 0 ∷ 0 ∷ 1 ∷ 0 ∷ 1 ∷ 1 ∷ []) ≡ done 12
unfolding read_u4_buff
twelve = refl

on_receive-undefined_example :
    on_receive
      (suc 0)
      4
      env
      ((0 ∷ 0 ∷ 0 ∷ 12 ∷ 0 ∷ 0 ∷ 0 ∷ 1 ∷ 0 ∷ 1 ∷ 1 ∷ []) ∷ (9 ∷ []) ∷ [])
      (session events)
    ≡ undefined
on_receive-undefined_example =
    on_receive-undefined 0 4 env (zeros 11) (0 ∷ 0 ∷ 12 ∷ 0 ∷ 0 ∷ 0 ∷ 1 ∷ 0 ∷ 1 ∷ 1 ∷ []) [] 0 9 12
      [] (session events) refl refl twelve (omega arith)

abbrev pub started : Events
started = record events { queue = request 7 6 ∷ []; size = 1 }

pub reported_start :
    internal_dispatch env init_types false (request 7 6)
    ≡ done (record {
      contents = 6 ∷ 0 ∷ 0 ∷ 0 ∷ 7 ∷ 0 ∷ 0 ∷ 0 ∷ 1 ∷ zeros 13;
      offset = 9;
      length = 22;
    })
unfolding internal_dispatch dispatch_loop dispatch_round event_at_thread event_head renew write_u1
    write_u4 write_threadid ensure_packet_cap put
reported_start = refl

pub started-IsReady : IsReady 0 env (session started)
unfolding init_types is_vm_suspended
started-IsReady = record {
  grants = omega arith;
  size_right = refl;
  reportable = (λ pending. (_, reported_start), tt);
  remaining = (inr (omega arith, omega arith), tt);
}

get_by_suspend_policy-Rounds_example : Rounds env (session started)
get_by_suspend_policy-Rounds_example =
    get_by_suspend_policy-Rounds env (session started) started-IsReady

-- An array with room for one more.
abbrev slots : Slots ℕ
slots = record { max = 2; num = 1; items = 50 ∷ [] }

slots-IsSlots : IsSlots slots
slots-IsSlots = record {
  rounds = 1;
  capacity = refl;
  capacity_limit = omega arith;
  fits = omega arith;
  all_items = refl;
}

add_slot-Added_example : Added 51 slots (add_slot (λ bytes. true) 51 slots)
add_slot-Added_example = add_slot-Added 51 slots slots-IsSlots

-- A slot of an int at the address 1000, whose type is at 64, of the object at 5000; the value is 77.
abbrev with_slot : Vm
with_slot = record {
  sp = 3;
  cp = 100;
  fp = 0;
  pp = 0;
  lp = 0;
  num_params = 0;
  num_locals = 0;
  stack = update (update (update (λ i. 0) 1 5000) 2 1000) 3 77;
  memory = update (λ a. 0) 64 4;
  cb = 64;
  db = 4096;
  assert_successes = 0;
  assert_failures = 0;
}

is_int : type_of with_slot 1 ≡ int_type_id
unfolding type_id get_const get_byte
is_int = refl

slot_stays : LeavesSlot with_slot 1 (do_set_int with_slot 1)
unfolding do_set_int type_id slot_handle get_const get_byte get_short get_int set_int
slot_stays = record { same_type = refl; same_offset = refl }

setters-Slot_example :
    get_int_slot 0 (stored with_slot (do_set_int with_slot 1)) 1 ≡ with_ival 0 (77 % 2 ^ 32)
setters-Slot_example =
    setters-Slot int_type_id do_set_int get_int_slot (λ ret v. with_ival ret (v % 2 ^ 32)) with_slot
      1 0 int is_int slot_stays

-- `listen` fails, and the rest succeeds.
abbrev deaf : Net
deaf = record {
  socket = some 5;
  reuses = true;
  binds = true;
  listens = false;
  unblocks = true;
  connects = false;
  would_block = true;
  accepts = some 6;
  pending = false;
  excepted = false;
  select_fails = false;
  socket_error = false;
}

abbrev closed_sockets : Sockets
closed_sockets = record { memory = λ a. 1; calls = [] }

sockets-Opens_example :
    Opens 64 closed_sockets (tcp_socket_connect deaf 64 closed_sockets)
    × Opens 64 closed_sockets (tcp_server_socket_bind deaf 64 closed_sockets)
    × Opens 64 closed_sockets (tcp_server_socket_accept deaf 64 closed_sockets)
sockets-Opens_example = sockets-Opens deaf 64 closed_sockets
