-- ===== src/Packet/Header.antt =====
-- jdwp/packetHandler.c and jdwp/misc/MTypes.h: the 11-byte header of a packet and the packet makers.
pub mod Laws
use sedona_vm_debug.Base.{
  ℕ, ◌+◌, ◌-◌, ◌^◌, List, Bool, true, false, not, ◌&&◌, ltb, leb, ◌==◌, ◌++◌,
}
use sedona_vm_debug.Base.{
  if◌then◌else◌, length, get_elem?, set, take, drop, bit_and, shr, to_u8, to_u32,
}
use sedona_vm_debug.Memory.{Outcome, done, exits, undefined, ◌>>=◌, defined, Allocator, memcpy}
use sedona_vm_debug.Packet.Buffer.{Packet, new_raw_packet, read_u2_buff, read_u4_buff}

abbrev pub length_pos : ℕ
length_pos = 0

abbrev pub id_pos : ℕ
id_pos = 4

abbrev pub flags_pos : ℕ
flags_pos = 8

abbrev pub command_set_pos : ℕ
command_set_pos = 9

abbrev pub command_pos : ℕ
command_pos = 10

abbrev pub error_code_pos : ℕ
error_code_pos = 9

abbrev pub data_variable_pos : ℕ
data_variable_pos = 11

abbrev pub min_packet_size : ℕ
min_packet_size = 11

abbrev pub reply_flag : ℕ
reply_flag = 128

abbrev pub cmd_flag : ℕ
cmd_flag = 0

-- `p->data[pos] = v`.
unfoldable pub set_byte : ℕ → ℕ → Packet → Outcome Packet
set_byte pos v p = do
  _ ← defined (get_elem? p.contents pos)
  done (record p { contents = set p.contents pos (to_u8 v) })

unfoldable pub write_length : Packet → ℕ → Outcome Packet
write_length p v = do
  p ← set_byte length_pos (shr v 24) p
  p ← set_byte (length_pos + 1) (shr v 16) p
  p ← set_byte (length_pos + 2) (shr v 8) p
  set_byte (length_pos + 3) (bit_and v 0xff) p

unfoldable pub write_id : Packet → ℕ → Outcome Packet
write_id p v = do
  p ← set_byte id_pos (shr v 24) p
  p ← set_byte (id_pos + 1) (shr v 16) p
  p ← set_byte (id_pos + 2) (shr v 8) p
  set_byte (id_pos + 3) (bit_and v 0xff) p

unfoldable pub write_flags : Packet → ℕ → Outcome Packet
write_flags p v = set_byte flags_pos v p

unfoldable pub write_command : Packet → ℕ → Outcome Packet
write_command p v = set_byte command_pos v p

unfoldable pub write_commandset : Packet → ℕ → Outcome Packet
write_commandset p v = set_byte command_set_pos v p

unfoldable pub write_errorcode : Packet → ℕ → Outcome Packet
write_errorcode p v = do
  p ← set_byte error_code_pos (shr v 8) p
  set_byte (error_code_pos + 1) (bit_and v 0xff) p

module _ (p : Packet) where
  unfoldable pub read_length : Outcome ℕ
  read_length = read_u4_buff (drop length_pos p.contents)

  unfoldable pub read_id : Outcome ℕ
  read_id = read_u4_buff (drop id_pos p.contents)

  unfoldable pub read_flags : Outcome ℕ
  read_flags = defined (get_elem? p.contents flags_pos)

  unfoldable pub read_errorcode : Outcome ℕ
  read_errorcode = read_u2_buff (drop error_code_pos p.contents)

  unfoldable pub read_command : Outcome ℕ
  read_command = defined (get_elem? p.contents command_pos)

  unfoldable pub read_commandset : Outcome ℕ
  read_commandset = defined (get_elem? p.contents command_set_pos)

  unfoldable pub is_packet_command : Outcome Bool
  is_packet_command = do flags ← read_flags; done (not (bit_and flags reply_flag == reply_flag))

  unfoldable pub is_packet_reply : Outcome Bool
  is_packet_reply = do command ← is_packet_command; done (not command)

-- The size is a `u4`.
unfoldable pub new_packet : Allocator → ℕ → Packet
new_packet mem bytes = new_raw_packet mem (to_u32 (to_u32 bytes + min_packet_size))

unfoldable pub new_reply_packet : Allocator → ℕ → ℕ → Outcome Packet
new_reply_packet mem id bytes = do
  p ← write_id (new_packet mem bytes) id
  p ← write_flags p reply_flag
  p ← write_errorcode p 0
  done (record p { offset = min_packet_size })

-- The counter of packet identifiers is the state; `locked` and `unlocked` say whether the calls on
-- its mutex succeed. The result is the identifier and the new counter.
unfoldable pub gen_packet_id : Bool → Bool → ℕ → Outcome (ℕ × ℕ)
gen_packet_id locked unlocked packet_id_unique =
    if locked
    then (if unlocked then done (packet_id_unique, to_u32 (packet_id_unique + 1)) else exits)
    else exits

unfoldable pub new_command_packet : Allocator → Bool → Bool → ℕ → ℕ → ℕ → ℕ → Outcome (Packet × ℕ)
new_command_packet mem locked unlocked packet_id_unique bytes command commandset = do
  (id, packet_id_unique) ← gen_packet_id locked unlocked packet_id_unique
  p ← write_id (new_packet mem bytes) id
  p ← write_command p command
  p ← write_commandset p commandset
  p ← write_flags p cmd_flag
  done (record p { offset = min_packet_size }, packet_id_unique)

unfoldable pub new_packet_from_header : Allocator → List ℕ → Outcome Packet
new_packet_from_header mem header = do
  let p = new_raw_packet mem min_packet_size
  contents ← memcpy p.contents 0 header min_packet_size
  done (record p { contents = contents; offset = min_packet_size })

-- `psize - PACKET_HEADER_SIZE` is computed as a `u4`.
unfoldable pub new_packet_from_header_payload : Allocator → List ℕ → List ℕ → Outcome Packet
new_packet_from_header_payload mem header payload = do
  psize ← read_u4_buff (drop length_pos header)
  let p = new_raw_packet mem psize
  contents ← memcpy p.contents 0 header min_packet_size
  contents ← memcpy contents data_variable_pos payload (to_u32 (psize + 2 ^ 32 - min_packet_size))
  done (record p { contents = contents; offset = data_variable_pos })
