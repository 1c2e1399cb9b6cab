-- ===== src/Jdwp/Command.antt =====
-- jdwp/mainHandler.c: the dispatch of commands, and the loop that receives them.
pub mod Shared
pub mod Machine
pub mod Reference
pub mod Methods
pub mod Threads
pub mod Groups
pub mod Requests
pub mod Laws
pub mod Replies
use sedona_vm_debug.Base.{
  ℕ, zero, suc, ◌+◌, ◌-◌, ◌^◌, true, List, [], ◌∷◌, ◌++◌, length, take, drop, ◌==◌, ltb, leb,
  if◌then◌else◌, to_u32,
}
use sedona_vm_debug.Memory.{◌>>=◌, Outcome, done, exits, undefined, block}
use sedona_vm_debug.Packet.Header.{read_command, read_commandset}
use sedona_vm_debug.Jdwp.Objects.{get_variable_byoid, is_array}
use sedona_vm_debug.Jdwp.Session.{
  Env, Session, readu4, readobjectid, jdwp_send_error, jdwp_send_not_implemented,
}
use sedona_vm_debug.Jdwp.Command.Shared.{Handler, switch, or_error, send_u4}
use sedona_vm_debug.Packet.Buffer.{read_u4_buff}
use sedona_vm_debug.Packet.Header.{
  is_packet_reply, min_packet_size, new_packet_from_header, new_packet_from_header_payload,
}
use sedona_vm_debug.Memory.{out_of_fuel}
use sedona_vm_debug.Jdwp.Command.Machine.{on_cs_virtual_machine}
use sedona_vm_debug.Jdwp.Command.Reference.{invalid_object, on_cs_reference_type}
use sedona_vm_debug.Jdwp.Command.Methods.{on_cs_class_type, on_cs_method, on_cs_object_reference}
use sedona_vm_debug.Jdwp.Command.Threads.{on_cs_thread_reference}
use sedona_vm_debug.Jdwp.Command.Groups.{on_cs_thread_group_reference}
use sedona_vm_debug.Jdwp.Command.Requests.{on_cs_event_request}

abbrev pub invalid_class_loader : ℕ
invalid_class_loader = 507

abbrev pub invalid_array : ℕ
invalid_array = 508

abbrev pub schema_change_not_implemented : ℕ
schema_change_not_implemented = 64

unfoldable pub on_send_cs_ar_length : Handler
on_send_cs_ar_length env s = do
  (id, s) ← readobjectid s
  found ← get_variable_byoid s.variables id
  or_error invalid_object found s
      λ v. if is_array v then send_u4 v.v_size env s else jdwp_send_error invalid_object s

unfoldable pub on_send_cs_ar_get_values : Handler
on_send_cs_ar_get_values env s = do
  (id, s) ← readobjectid s
  (first, s) ← readu4 s
  (places, s) ← readu4 s
  found ← get_variable_byoid s.variables id
  or_error invalid_array found s
      λ v. if is_array v then jdwp_send_not_implemented s else jdwp_send_error invalid_array s

-- SetValues and unknown commands are not answered.
unfoldable pub on_cs_array_reference : Handler
on_cs_array_reference env s = do
  command ← read_command s.command
  if command == 1
      then on_send_cs_ar_length env s
      else if command == 2
      then on_send_cs_ar_get_values env s
      else done s

unfoldable pub on_cs_class_loader_reference : Handler
on_cs_class_loader_reference env s = do
  command ← read_command s.command
  if command == 1 then jdwp_send_error invalid_class_loader s else jdwp_send_not_implemented s

-- ArrayType, InterfaceType, Field and StringReference, where no command is implemented. The first
-- and the last read the command and do the same for every one.
unfoldable pub on_cs_unimplemented : Handler
on_cs_unimplemented env s = jdwp_send_not_implemented s

-- StackFrame and ClassObjectReference are not answered.
unfoldable pub on_cs_unanswered : Handler
on_cs_unanswered env s = done s

unfoldable pub on_cs_unknown : Handler
on_cs_unknown env s = jdwp_send_not_implemented s

-- The cases of the switch of `onCommand`.
abbrev pub command_sets : ℕ → List (ℕ × Handler)
command_sets calls =
    (1, on_cs_virtual_machine)
    ∷ (2, on_cs_reference_type)
    ∷ (3, on_cs_class_type)
    ∷ (4, on_cs_unimplemented)
    ∷ (5, on_cs_unimplemented)
    ∷ (6, on_cs_method)
    ∷ (8, on_cs_unimplemented)
    ∷ (9, on_cs_object_reference)
    ∷ (10, on_cs_unimplemented)
    ∷ (11, on_cs_thread_reference)
    ∷ (12, on_cs_thread_group_reference)
    ∷ (13, on_cs_array_reference)
    ∷ (14, on_cs_class_loader_reference)
    ∷ (15, on_cs_event_request calls)
    ∷ (16, on_cs_unanswered)
    ∷ (17, on_cs_unanswered)
    ∷ []

unfoldable pub on_command : ℕ → Handler
on_command calls env s = do
  commandset ← read_commandset s.command
  switch commandset (command_sets calls) on_cs_unknown env s

unfoldable pub on_packet : ℕ → Handler
on_packet calls env s = do
  reply ← is_packet_reply s.command
  if reply then jdwp_send_error schema_change_not_implemented s else on_command calls env s

-- What `recv` gives for one call: the bytes that it stored, none when the connection is closed. It
-- may store fewer bytes than were asked for, and the others stay as they were.
abbrev pub Stream : Type 0
Stream = List (List ℕ)

-- `recv(socket, mbuff, size)`; more bytes than the buffer holds are undefined.
unfoldable pub read_stream : ℕ → List ℕ → Stream → Outcome (List ℕ × Stream)
read_stream size mbuff [] = exits
read_stream size mbuff ([] ∷ stream) = exits
read_stream size mbuff ((b ∷ bs) ∷ stream) =
    let got = take size (b ∷ bs) in
    if leb (length got) (length mbuff)
    then done (got ++ drop (length got) mbuff, stream)
    else undefined

-- The new buffer is given to the parameter of the function alone, so the caller's stays, while the
-- size that the caller keeps is the new one. The size wraps where the packet is shorter than a header.
unfoldable pub ensure_payload_cap : ℕ → ℕ → ℕ
ensure_payload_cap mbuff_size plen =
    if ltb mbuff_size plen then to_u32 (plen + 2 ^ 32 - min_packet_size) else mbuff_size

-- `onReceive` keeps the header, the payload's buffer and the size that it takes that to have.
pub record Receiver : Type 0 where
  pub mheader : List ℕ
  pub mpayload : List ℕ
  pub mbuff_size : ℕ

-- A round of the loop of `onReceive`. The address of the buffer is passed, but where `mpayload` has
-- no bytes any byte that is read is stored past its end.
unfoldable pub receive_round :
    ℕ → Env → Receiver → Stream → Session → Outcome (Receiver × Stream × Session)
receive_round calls env r stream s = do
  (mheader, stream) ← read_stream min_packet_size r.mheader stream
  plen ← read_u4_buff mheader
  let r : Receiver = record r {
    mheader = mheader;
    mbuff_size = ensure_payload_cap r.mbuff_size plen;
  }
  if ltb plen min_packet_size
      then (do s ← jdwp_send_error schema_change_not_implemented s; done (r, stream, s))
      else if ltb min_packet_size plen
      then (do
        (mpayload, stream) ← read_stream (plen - min_packet_size) r.mpayload stream
        p ← new_packet_from_header_payload env.mem mheader mpayload
        s ← on_packet calls env (record s { command = p })
        done (record r { mpayload = mpayload }, stream, s))
      else (do
        p ← new_packet_from_header env.mem mheader
        s ← on_packet calls env (record s { command = p })
        done (r, stream, s))

unfoldable pub receive_loop :
    ℕ → ℕ → Env → Receiver → Stream → Session → Outcome (Receiver × Stream × Session)
receive_loop zero calls env r stream s = out_of_fuel
receive_loop (suc rounds) calls env r stream s = do
  (r, stream, s) ← receive_round calls env r stream s
  receive_loop rounds calls env r stream s

-- `onReceive` begins with a payload buffer of no bytes.
unfoldable pub on_receive : ℕ → ℕ → Env → Stream → Session → Outcome (Receiver × Stream × Session)
on_receive rounds calls env stream s =
    let r : Receiver = record {
      mheader = block (env.mem.malloc min_packet_size);
      mpayload = block (env.mem.malloc 0);
      mbuff_size = 0;
    } in
    receive_loop rounds calls env r stream (record s { init_jdwp = true })
