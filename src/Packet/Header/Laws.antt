-- ===== src/Packet/Header/Laws.antt =====
-- The packet makers fill the header that the readers and the dispatcher look at.
use sedona_vm_debug.Base.{ℕ, ◌+◌, ◌-◌, ◌%◌, ◌^◌, ◌<◌, ◌≡◌, refl, ap, ◌∙◌}
use sedona_vm_debug.Base.{
  List, [], ◌∷◌, ◌++◌, true, length, arith, take, drop, some, to_u32, bit_and,
}
use sedona_vm_debug.Base.Bits.{bit_and-mask}
use mathlib.Core.List.{append-nil}
use sedona_vm_debug.Base.{big_endian4, length-append, length-drop, take-append, take-all, drop-all}
use sedona_vm_debug.Memory.{memcpy, memcpy_lem, done, Allocator}
use sedona_vm_debug.Packet.Buffer.{Packet, new_raw_packet, read_u4_buff}
use sedona_vm_debug.Packet.Append.{IsValid, written}
use sedona_vm_debug.Packet.RoundTrip.{read_u4_buff-big_endian4, read_u2_buff_lem}
use sedona_vm_debug.Packet.Header.{
  set_byte, write_id, write_flags, write_errorcode, write_command, write_commandset, new_packet,
  new_reply_packet, new_command_packet, gen_packet_id,
}
use sedona_vm_debug.Packet.Header.{
  read_id, read_flags, read_errorcode, read_command, read_commandset, is_packet_command,
  is_packet_reply, new_packet_from_header_payload,
}

-- A reply to the command `id`: no error, and room for the payload behind the header.
pub record IsReply (id bytes : ℕ) (p : Packet) : Type 0 where
  pub valid : IsValid p
  pub at_payload : p.offset ≡ 11
  pub payload_room : p.length ≡ 11 + bytes
  pub same_id : read_id p ≡ done (id % 2 ^ 32)
  pub no_error : read_errorcode p ≡ done 0
  pub reply : is_packet_reply p ≡ done true
  pub header : drop 4 (written p) ≡ big_endian4 id ++ (128 ∷ 0 ∷ 0 ∷ [])

-- `newReplyPacket` makes a valid packet that the readers take for a reply to the command `id`
-- without error, with room for the payload behind the header, where it stands. Header and payload
-- have less than 2^32 bytes, which `malloc` grants.
pub new_reply_packet-IsReply :
    (mem : Allocator) (id bytes : ℕ) (b : List ℕ)
    → bytes + 11 < 2 ^ 32
    → mem.malloc (bytes + 11) ≡ some b
    → (p : Packet) × (new_reply_packet mem id bytes ≡ done p) × IsReply id bytes p
unfolding new_reply_packet write_id write_flags write_errorcode set_byte new_packet new_raw_packet
    read_id read_errorcode is_packet_reply is_packet_command read_flags
new_reply_packet-IsReply mem id bytes (b₀ ∷ b₁ ∷ b₂ ∷ b₃ ∷ b₄ ∷ b₅ ∷ b₆ ∷ b₇ ∷ b₈ ∷ b₉ ∷ b₁₀ ∷ rest)
      small got =
    let size : to_u32 (to_u32 bytes + 11) ≡ bytes + 11 = omega arith in
    let low : bit_and id 0xff % 256 ≡ id % 256 = omega (arith, bit_and-mask 8 id) in
    let whole = mem.malloc_size (bytes + 11) _ got in
    let made : Packet = record {
      contents = b₀ ∷ b₁ ∷ b₂ ∷ b₃ ∷ (big_endian4 id ++ 128 ∷ 0 ∷ 0 ∷ rest);
      offset = 11;
      length = bytes + 11;
    } in
    (
      made,
      rw (size, got, low),
      record {
        valid = omega (arith, whole, mem.malloc_limit (bytes + 11) _ got);
        at_payload = refl;
        payload_room = omega arith;
        same_id = read_u4_buff-big_endian4 id (128 ∷ 0 ∷ 0 ∷ rest);
        no_error = read_u2_buff_lem 0 0 rest (omega arith) (omega arith);
        reply = refl;
        header = refl;
      },
    )
new_reply_packet-IsReply mem id bytes b small got =
    absurd (omega (arith, mem.malloc_size (bytes + 11) b got))

-- A command with the next identifier, and room for the payload behind the header.
pub record IsCommand (id bytes command commandset : ℕ) (p : Packet) : Type 0 where
  pub valid : IsValid p
  pub at_payload : p.offset ≡ 11
  pub payload_room : p.length ≡ 11 + bytes
  pub same_id : read_id p ≡ done (id % 2 ^ 32)
  pub same_command : read_command p ≡ done (command % 2 ^ 8)
  pub same_commandset : read_commandset p ≡ done (commandset % 2 ^ 8)
  pub command_flag : is_packet_command p ≡ done true

-- `newCommandPacket` makes a valid packet that the readers take for a command with the next
-- identifier and the given command and command set, and steps the identifier on. Header and payload
-- have less than 2^32 bytes, which `malloc` grants, and both locks are obtained.
pub new_command_packet-IsCommand :
    (mem : Allocator) (unique bytes command commandset : ℕ) (b : List ℕ)
    → bytes + 11 < 2 ^ 32
    → mem.malloc (bytes + 11) ≡ some b
    → (p : Packet) × (new_command_packet mem true true unique bytes command commandset
        ≡ done (p, (unique + 1) % 2 ^ 32))
      × IsCommand unique bytes command commandset p
unfolding new_command_packet gen_packet_id write_id write_flags write_command write_commandset
    set_byte new_packet new_raw_packet read_id read_command read_commandset is_packet_command
    read_flags
new_command_packet-IsCommand mem id bytes command commandset
      (b₀ ∷ b₁ ∷ b₂ ∷ b₃ ∷ b₄ ∷ b₅ ∷ b₆ ∷ b₇ ∷ b₈ ∷ b₉ ∷ b₁₀ ∷ rest) small got =
    let size : to_u32 (to_u32 bytes + 11) ≡ bytes + 11 = omega arith in
    let low : bit_and id 0xff % 256 ≡ id % 256 = omega (arith, bit_and-mask 8 id) in
    let whole = mem.malloc_size (bytes + 11) _ got in
    let tail = 0 ∷ (commandset % 256) ∷ (command % 256) ∷ rest in
    let made : Packet = record {
      contents = b₀ ∷ b₁ ∷ b₂ ∷ b₃ ∷ (big_endian4 id ++ tail);
      offset = 11;
      length = bytes + 11;
    } in
    (
      made,
      rw (size, got, low),
      record {
        valid = omega (arith, whole, mem.malloc_limit (bytes + 11) _ got);
        at_payload = refl;
        payload_room = omega arith;
        same_id = read_u4_buff-big_endian4 id tail;
        same_command = refl;
        same_commandset = refl;
        command_flag = refl;
      },
    )
new_command_packet-IsCommand mem id bytes command commandset b small got =
    absurd (omega (arith, mem.malloc_size (bytes + 11) b got))

-- A packet from the network, whose header begins with the length of header and payload together,
-- less than 2^32, holds both, and its reader stands at the payload, if `malloc` grants the block.
pub new_packet_from_header_payload_lem :
    (mem : Allocator) (header payload b : List ℕ) (h₄ : List ℕ)
    → header ≡ big_endian4 (11 + length payload) ++ h₄
    → length h₄ ≡ 7
    → 11 + length payload < 2 ^ 32
    → mem.malloc (11 + length payload) ≡ some b
    → new_packet_from_header_payload mem header payload
      ≡ done (record { contents = header ++ payload; offset = 11; length = 11 + length payload })
unfolding new_packet_from_header_payload new_raw_packet
new_packet_from_header_payload_lem mem header payload b h₄ e seven small got =
    let n = length payload in
    let front : length header ≡ 11 = ap length e ∙ omega (arith, seven) in
    let size : length b ≡ 11 + n = mem.malloc_size (11 + n) b got in
    let psize : read_u4_buff header ≡ done (11 + n) =
      rw e (read_u4_buff-big_endian4 (11 + n) h₄ ∙ ap done (omega arith)) in
    let rest : to_u32 (11 + n + 2 ^ 32 - 11) ≡ n = omega arith in
    let whole : take 11 header ≡ header = rw front at (take-all header) in
    let first : memcpy b 0 header 11 ≡ done (header ++ drop 11 b) =
      rw whole at (memcpy_lem b 0 header 11 (omega arith) (omega arith)) in
    let filled : length (header ++ drop 11 b) ≡ 11 + n =
      omega (arith, length-append {0} header (drop 11 b), length-drop {0} 11 b, size, front) in
    let kept : take 11 (header ++ drop 11 b) ≡ header =
      rw front at (take-append header (drop 11 b)) in
    let second : memcpy (header ++ drop 11 b) 11 payload n ≡ done (header ++ (payload ++ [])) =
      memcpy_lem (header ++ drop 11 b) 11 payload n (omega (arith, filled)) (omega arith) ∙ λ i.
      done (
        kept i
        ++ (take-all payload i
            ++ drop-all (11 + n) (header ++ drop 11 b) (omega (arith, filled)) i)) in
    rw (psize, got, first, rest, second, append-nil)
