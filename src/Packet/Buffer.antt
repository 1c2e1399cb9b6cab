-- ===== src/Packet/Buffer.antt =====
-- jdwp/packetHandler.c: the packet buffer and its basic byte readers and writers.
use sedona_vm_debug.Base.{ℕ, ◌+◌, ◌*◌, ◌-◌, ◌^◌, List, bit_or, bit_and, ltb, leb}
use sedona_vm_debug.Base.{if◌then◌else◌, length, get_elem?, set, drop, to_u8, to_u16, to_u32, shr}
use sedona_vm_debug.Base.{none, some}
use sedona_vm_debug.Memory.{
  Outcome, done, exits, undefined, ◌>>=◌, defined, to_size, Allocator, block,
}

pub record Packet : Type 0 where
  pub contents : List ℕ
  pub offset : ℕ
  pub length : ℕ

unfoldable pub new_raw_packet : Allocator → ℕ → Packet
new_raw_packet mem rawbytes = record {
  contents = block (mem.malloc rawbytes);
  offset = 0;
  length = rawbytes;
}

-- NULL from `realloc` is reported by `error_exit`.
unfoldable pub ensure_packet_cap : Allocator → Packet → ℕ → Outcome Packet
ensure_packet_cap mem p mbytes =
    if leb p.length (to_size (p.offset + mbytes))
    then (let newmsize = to_size (mbytes + p.length * 2) in
        elim (mem.realloc p.contents newmsize) [
          | none ↦ exits
          | some b ↦ done (record p { contents = b; length = newmsize })
        ])
    else done p

-- `p->data[p->offset++] = b`.
unfoldable pub put : Packet → ℕ → Outcome Packet
put p b =
    if ltb p.offset (length p.contents)
    then done
        (record p { contents = set p.contents p.offset (to_u8 b); offset = to_size (p.offset + 1) })
    else undefined

unfoldable pub write_u1 : Allocator → Packet → ℕ → Outcome Packet
write_u1 mem p v = do p ← ensure_packet_cap mem p 1; put p v

unfoldable pub write_u2 : Allocator → Packet → ℕ → Outcome Packet
write_u2 mem p v = do p ← ensure_packet_cap mem p 2; p ← put p (shr v 8); put p (bit_and v 0xff)

unfoldable pub write_u4 : Allocator → Packet → ℕ → Outcome Packet
write_u4 mem p v = do
  p ← ensure_packet_cap mem p 4
  p ← put p (shr v 24)
  p ← put p (shr v 16)
  p ← put p (shr v 8)
  put p (bit_and v 0xff)

unfoldable pub write_u8 : Allocator → Packet → ℕ → Outcome Packet
write_u8 mem p v = do
  p ← ensure_packet_cap mem p 8
  p ← put p (shr v 56)
  p ← put p (shr v 48)
  p ← put p (shr v 40)
  p ← put p (shr v 32)
  p ← put p (shr v 24)
  p ← put p (shr v 16)
  p ← put p (shr v 8)
  put p (bit_and v 0xff)

-- `x << k` of a byte promoted to a 32-bit `int`, by its bit pattern.
abbrev pub int_shl : ℕ → ℕ → Outcome ℕ
int_shl x k = if ltb k 32 then done (to_u32 (x * 2 ^ k)) else undefined

-- The conversion of an `int` to `u8`, which repeats the sign.
abbrev pub widen : ℕ → ℕ
widen x = if ltb x (2 ^ 31) then x else x + (2 ^ 64 - 2 ^ 32)

unfoldable pub read_u2_buff : List ℕ → Outcome ℕ
read_u2_buff buff = do
  b₀ ← defined (get_elem? buff 0)
  i ← int_shl b₀ 8
  b₁ ← defined (get_elem? buff 1)
  done (bit_or (to_u16 i) b₁)

unfoldable pub read_u4_buff : List ℕ → Outcome ℕ
read_u4_buff buff = do
  b₀ ← defined (get_elem? buff 0)
  i₀ ← int_shl b₀ 24
  b₁ ← defined (get_elem? buff 1)
  i₁ ← int_shl b₁ 16
  b₂ ← defined (get_elem? buff 2)
  i₂ ← int_shl b₂ 8
  b₃ ← defined (get_elem? buff 3)
  done (bit_or (bit_or (bit_or i₀ i₁) i₂) b₃)

-- The bytes are shifted as an `int`, also by 32 and more.
unfoldable pub read_u8_buff : List ℕ → Outcome ℕ
read_u8_buff buff = do
  b₀ ← defined (get_elem? buff 0)
  i₀ ← int_shl b₀ 56
  b₁ ← defined (get_elem? buff 1)
  i₁ ← int_shl b₁ 48
  b₂ ← defined (get_elem? buff 2)
  i₂ ← int_shl b₂ 40
  b₃ ← defined (get_elem? buff 3)
  i₃ ← int_shl b₃ 32
  b₄ ← defined (get_elem? buff 4)
  i₄ ← int_shl b₄ 24
  b₅ ← defined (get_elem? buff 5)
  i₅ ← int_shl b₅ 16
  b₆ ← defined (get_elem? buff 6)
  i₆ ← int_shl b₆ 8
  b₇ ← defined (get_elem? buff 7)
  let high = bit_or (bit_or (bit_or (widen i₀) (widen i₁)) (widen i₂)) (widen i₃)
  done (bit_or (bit_or (bit_or (bit_or high (widen i₄)) (widen i₅)) (widen i₆)) b₇)

abbrev pub advance : Packet → ℕ → Packet
advance p n = record p { offset = to_size (p.offset + n) }

unfoldable pub read_u1 : Packet → Outcome (ℕ × Packet)
read_u1 p = do b ← defined (get_elem? p.contents p.offset); done (b, advance p 1)

unfoldable pub read_u2 : Packet → Outcome (ℕ × Packet)
read_u2 p = do v ← read_u2_buff (drop p.offset p.contents); done (v, advance p 2)

unfoldable pub read_u4 : Packet → Outcome (ℕ × Packet)
read_u4 p = do v ← read_u4_buff (drop p.offset p.contents); done (v, advance p 4)

unfoldable pub read_u8 : Packet → Outcome (ℕ × Packet)
read_u8 p = do v ← read_u8_buff (drop p.offset p.contents); done (v, advance p 8)
