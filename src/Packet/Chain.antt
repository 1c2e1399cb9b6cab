-- ===== src/Packet/Chain.antt =====
-- jdwp/packetHandler.c: lists of packets, and a packet written into another.
pub mod Laws
use sedona_vm_debug.Base.{
  ℕ, zero, suc, ◌+◌, ◌-◌, ◌*◌, ◌^◌, List, [], ◌∷◌, length, ltb, leb, ◌==◌, if◌then◌else◌,
}
use sedona_vm_debug.Memory.{
  memcpy, Outcome, done, undefined, out_of_fuel, ◌>>=◌, to_size, Allocator, block,
}
use sedona_vm_debug.Packet.Buffer.{Packet, new_raw_packet}

-- The chain of buffers from `head`, and the number of them.
pub record PacketList : Type 0 where
  pub head : List Packet
  pub size : ℕ

-- A new buffer at the head. Its `malloc` is not checked: NULL is undefined at the next line.
unfoldable pub add_packet : Allocator → Packet → PacketList → Outcome PacketList
add_packet mem p plist =
    if leb 16 (length (block (mem.malloc 16)))
    then done (record { head = p ∷ plist.head; size = to_size (plist.size + 1) })
    else undefined

-- The loop with `psize` rounds left; `phead` past the end of the chain is NULL.
unfoldable pub get_byte_size_loop : ℕ → List Packet → ℕ → Outcome ℕ
get_byte_size_loop zero phead bytes = done bytes
get_byte_size_loop (suc psize) [] bytes = undefined
get_byte_size_loop (suc psize) (p ∷ phead) bytes =
    get_byte_size_loop psize phead (to_size (bytes + p.offset))

unfoldable pub get_byte_size : PacketList → Outcome ℕ
get_byte_size plist = if plist.size == 0 then done 0 else get_byte_size_loop plist.size plist.head 0

-- The loop that doubles the block until the bytes of `from` fit. Its `realloc` is not checked: NULL
-- is undefined when it is written to.
unfoldable pub grow_loop : Allocator → ℕ → Packet → ℕ → Outcome Packet
grow_loop mem zero to from_offset = out_of_fuel
grow_loop mem (suc fuel) to from_offset =
    let rest =
      grow_loop mem fuel
        (record to {
          contents = block (mem.realloc to.contents (to_size (to.length * 2)));
          length = to_size (to.length * 2);
        })
        from_offset in
    if leb (to_size (to.length + 2 ^ 64 - to.offset)) from_offset then rest else done to

-- A length that is not zero doubles in each round, so 64 rounds take it past any two offsets.
abbrev pub grow_rounds : ℕ
grow_rounds = 64

unfoldable pub write_packet : Allocator → Packet → Packet → Outcome Packet
unfolding grow_loop
write_packet mem to from = if from.offset == 0 then done to else (do
  let wrapped = record to { length = if to.length == 0 then to.offset else to.length }
  to ← grow_loop mem grow_rounds wrapped from.offset
  contents ← memcpy to.contents to.offset from.contents from.offset
  done (record to { contents = contents; offset = to_size (to.offset + from.offset) }))

-- The loop with `psize` rounds left.
unfoldable pub write_list_loop : Allocator → ℕ → List Packet → Packet → Outcome Packet
write_list_loop mem zero phead p = done p
write_list_loop mem (suc psize) [] p = undefined
write_list_loop mem (suc psize) (from ∷ phead) p = do
  p ← write_packet mem p from
  write_list_loop mem psize phead p

unfoldable pub write_list : Allocator → Packet → PacketList → Outcome Packet
write_list mem p plist = write_list_loop mem plist.size plist.head p

unfoldable pub new_packet_from_list : Allocator → PacketList → Outcome Packet
new_packet_from_list mem plist = do
  bytes ← get_byte_size plist
  write_list mem (new_raw_packet mem bytes) plist
