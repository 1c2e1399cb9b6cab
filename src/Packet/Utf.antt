-- ===== src/Packet/Utf.antt =====
-- jdwp/packetHandler.c: the modified UTF-8 of JDWP strings, over 16-bit and over 8-bit characters.
pub mod Size
pub mod RoundTrip
pub mod Wide
use sedona_vm_debug.Base.{ℕ, zero, suc, ◌+◌, ◌*◌, ◌/◌, ◌-◌, List, [], ◌∷◌, ◌++◌}
use sedona_vm_debug.Base.{Bool, true, false, ◌&&◌, ◌||◌, ltb, leb, ◌==◌, if◌then◌else◌, length}
use sedona_vm_debug.Base.{bit_and, bit_or, shr, to_u8, to_u16, to_u32}
use sedona_vm_debug.Memory.{
  Outcome, done, exits, undefined, out_of_fuel, ◌>>=◌, to_size, Allocator, block,
}
use sedona_vm_debug.Packet.Buffer.{Packet, ensure_packet_cap, write_u1, write_u4, read_u1, read_u4}
use sedona_vm_debug.Packet.Ids.{int_size}

-- A character in the one-byte range; zero is not in it.
abbrev pub is_ascii : ℕ → Bool
is_ascii c = ltb 0 c && leb c 127

-- Strings are given without their terminators. `utf_count` is the count so far.
unfoldable pub internal_utf_loop : ℕ → List ℕ → ℕ
internal_utf_loop utf_count [] = utf_count
internal_utf_loop utf_count (c ∷ utf) =
    internal_utf_loop
      (if is_ascii c
        then to_u32 (utf_count + 1)
        else if leb c 2047
        then to_u32 (utf_count + 2)
        else to_u32 (utf_count + 3))
      utf

unfoldable pub internal_utf_size : List ℕ → ℕ
unfolding internal_utf_loop
internal_utf_size utf = internal_utf_loop 0 utf

unfoldable pub internal_cutf_loop : ℕ → List ℕ → ℕ
internal_cutf_loop utf_count [] = utf_count
internal_cutf_loop utf_count (c ∷ str) =
    internal_cutf_loop (if is_ascii c then to_u32 (utf_count + 1) else to_u32 (utf_count + 2)) str

unfoldable pub internal_cutf_size : List ℕ → ℕ
unfolding internal_cutf_loop
internal_cutf_size str = internal_cutf_loop 0 str

unfoldable pub utf_size : List ℕ → ℕ
utf_size utf = to_u32 (int_size + internal_utf_size utf)

unfoldable pub utf_csize : List ℕ → ℕ
utf_csize str = to_u32 (int_size + internal_cutf_size str)

module _ (mem : Allocator) where
  -- One 16-bit character in one, two or three bytes.
  unfoldable pub write_utf_char : Packet → ℕ → Outcome Packet
  write_utf_char p c =
      if is_ascii c
      then write_u1 mem p c
      else if leb c 2047
      then (do
        p ← write_u1 mem p (bit_and (bit_or 0xc0 (bit_and 0x1f (shr c 6))) 0xff)
        write_u1 mem p (bit_and (bit_or 0x80 (bit_and 0x3f c)) 0xff))
      else (do
        p ← write_u1 mem p (bit_and (bit_or 0xe0 (bit_and 0x0f (shr c 12))) 0xff)
        p ← write_u1 mem p (bit_and (bit_or 0x80 (bit_and 0x3f (shr c 6))) 0xff)
        write_u1 mem p (bit_and (bit_or 0x80 (bit_and 0x3f c)) 0xff))

  unfoldable pub write_utf_chars : Packet → List ℕ → Outcome Packet
  write_utf_chars p [] = done p
  write_utf_chars p (c ∷ utf) = do p ← write_utf_char p c; write_utf_chars p utf

  unfoldable pub write_utf : Packet → List ℕ → Outcome Packet
  write_utf p utf = do
    let utfbytesize = internal_utf_size utf
    p ← ensure_packet_cap mem p (to_size (utfbytesize + int_size))
    p ← write_u4 mem p utfbytesize
    write_utf_chars p utf

  -- One 8-bit character in one or two bytes.
  unfoldable pub write_cutf_char : Packet → ℕ → Outcome Packet
  write_cutf_char p c = if is_ascii c then write_u1 mem p c else (do
    p ← write_u1 mem p (bit_and (bit_or 0xc0 (bit_and 0x1f (shr c 6))) 0xff)
    write_u1 mem p (bit_and (bit_or 0x80 (bit_and 0x3f c)) 0xff))

  unfoldable pub write_cutf_chars : Packet → List ℕ → Outcome Packet
  write_cutf_chars p [] = done p
  write_cutf_chars p (c ∷ str) = do p ← write_cutf_char p c; write_cutf_chars p str

  unfoldable pub write_cutf : Packet → List ℕ → Outcome Packet
  write_cutf p str = do
    let cutfmsize = internal_cutf_size str
    p ← ensure_packet_cap mem p (to_size (cutfmsize + int_size))
    p ← write_u4 mem p cutfmsize
    write_cutf_chars p str

-- The 16-bit cells of the output array; a NULL array has none.
abbrev pub cells : List ℕ → ℕ
cells b = length b / 2

-- `outstr[i++] = c`, where `out` holds the `i` characters stored so far.
abbrev pub emit : ℕ → List ℕ → ℕ → Outcome (List ℕ)
emit slots out c = if ltb (length out) slots then done (out ++ to_u16 c ∷ []) else undefined

-- One round of the loop of `read_utf`: the packet, the output and the bytes that were counted.
unfoldable pub read_utf_char : ℕ → List ℕ → Packet → Outcome (ℕ × List ℕ × Packet)
read_utf_char slots out p = do
  (c₁, p) ← read_u1 p
  if ltb (shr c₁ 4) 12 then (do out ← emit slots out c₁; done (1, out, p)) else (do
    (c₂, p) ← read_u1 p
    if ltb (shr c₂ 4) 14
        then (if bit_and c₂ 0xbf == 0 then exits else (do
          out ← emit slots out (bit_or (bit_and c₁ 0x1f * 64) (bit_and c₂ 0x3f))
          done (2, out, p)))
        else (do
          (c₃, p) ← read_u1 p
          if ltb 0 (bit_and c₃ 0xef)
              then (if (bit_and c₂ 0xbf == 0) || (bit_and c₃ 0xbf == 0) then exits else (do
                out ← emit slots out (
                    bit_or (bit_or (bit_and c₁ 0x0f * 4096) (bit_and c₂ 0x3f * 64))
                      (bit_and c₃ 0x3f))
                done (3, out, p)))
              else exits))

-- Every round counts a byte at least, so `utf_count` rounds and the last test are enough.
unfoldable pub read_utf_loop : ℕ → ℕ → ℕ → ℕ → List ℕ → Packet → Outcome (List ℕ × Packet)
read_utf_loop zero utf_count utf_start slots out p = out_of_fuel
read_utf_loop (suc fuel) utf_count utf_start slots out p =
    let rest = (do
      (taken, out, p) ← read_utf_char slots out p
      read_utf_loop fuel utf_count (to_size (utf_start + taken)) slots out p) in
    if ltb utf_start utf_count then rest else done (out, p)

-- The characters stored in the result; the array is not terminated.
unfoldable pub read_utf : Allocator → Packet → Outcome (List ℕ × Packet)
read_utf mem p = do
  (utf_count, p) ← read_u4 p
  let outstr = block (mem.malloc (to_size (2 * utf_count) / 3 * 2))
  read_utf_loop (suc utf_count) utf_count 0 (cells outstr) [] p
