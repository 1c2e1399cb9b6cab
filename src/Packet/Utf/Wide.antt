-- ===== src/Packet/Utf/Wide.antt =====
-- `read_utf` on a character of three bytes: the test of the second byte takes it for a character of
-- two bytes, and the third byte for one more.
use sedona_vm_debug.Base.{ℕ, ◌+◌, ◌*◌, ◌/◌, ◌%◌, ◌^◌, ◌<◌, ◌≡◌, ap, ◌∙◌}
use sedona_vm_debug.Base.{
  List, [], ◌∷◌, ◌++◌, length, arith, ltb, ◌==◌, true, false, some, drop, drop-front,
}
use sedona_vm_debug.Base.{big_endian4, bit_and, bit_or, leb-false}
use sedona_vm_debug.Base.Bits.{bit_or-disjoint, bit_and-mask, continuation_ne_zero}
use mathlib.Core.List.{append-nil}
use sedona_vm_debug.Memory.{Outcome, done, exits, to_size, Allocator}
use sedona_vm_debug.Packet.Buffer.{Packet, advance}
use sedona_vm_debug.Packet.Append.{
  IsValid, Appends, appended, out_of_memory, Refused, Refused-weaken,
}
use sedona_vm_debug.Packet.RoundTrip.{rewind, Extends-drop, advance-advance}
use sedona_vm_debug.Packet.Utf.{is_ascii, read_utf_char, read_utf_loop, read_utf, write_utf}
use sedona_vm_debug.Packet.Utf.Size.{encode, encoding, write_utf-Appends}
use sedona_vm_debug.Packet.Utf.RoundTrip.{next_byte, behind, read_utf_starts, emit-stored}

-- The two characters that a character of three bytes is taken for.
abbrev pub misread : ℕ → List ℕ
misread c = (c / 4096 * 64 + c / 64 % 64) ∷ (0x80 + c % 64) ∷ []

module _ (p : Packet) (c : ℕ) (rest : List ℕ) (wide : 2047 < c) (u16 : c < 2 ^ 16)
    (h : drop p.offset p.contents ≡ encode c ++ rest) (fits : p.offset + 3 < 2 ^ 64) where
  bytes :
      drop p.offset p.contents
      ≡ (0xe0 + c / 4096 % 16) ∷ (0x80 + c / 64 % 64) ∷ (0x80 + c % 64) ∷ rest
  bytes = let plain : is_ascii c ≡ false = ground arith in rw (plain, leb-false c 2047 wide) at h

  read_first : read_utf_char 2 [] p ≡ done (2, (c / 4096 * 64 + c / 64 % 64) ∷ [], advance p 2)
  unfolding read_utf_char
  read_first =
      let c₁ = 0xe0 + c / 4096 % 16 in
      let c₂ = 0x80 + c / 64 % 64 in
      let h₂ = behind p c₁ (c₂ ∷ (0x80 + c % 64) ∷ rest) bytes (omega arith) in
      let lead : ltb (c₁ / 16) 12 ≡ false = ground arith in
      let low : ltb (c₂ / 16) 14 ≡ true = ground arith in
      let whole : (bit_and c₂ 0xbf == 0) ≡ false =
        ground (arith, continuation_ne_zero (c / 64 % 64) (omega arith)) in
      let twice : advance (advance p 1) 1 ≡ advance p 2 = advance-advance p 1 1 in
      let value : bit_or (bit_and c₁ 0x1f * 64) (bit_and c₂ 0x3f) ≡ c / 4096 * 64 + c / 64 % 64 =
        ground (
          arith,
          bit_and-mask 5 c₁,
          bit_and-mask 6 c₂,
          bit_or-disjoint 6 (c / 4096) (c / 64 % 64),
        ) in
      rw
        (
          next_byte p c₁ (c₂ ∷ (0x80 + c % 64) ∷ rest) bytes,
          lead,
          next_byte (advance p 1) c₂ ((0x80 + c % 64) ∷ rest) h₂,
          low,
          whole,
          value,
          twice,
        )
        (emit-stored 2 [] (c / 4096 * 64 + c / 64 % 64) 2 (advance p 2) (omega arith))

  read_second :
      (x : ℕ)
      → read_utf_char 2 (x ∷ []) (advance p 2) ≡ done (1, x ∷ (0x80 + c % 64) ∷ [], advance p 3)
  unfolding read_utf_char
  read_second x =
      let c₁ = 0xe0 + c / 4096 % 16 in
      let c₂ = 0x80 + c / 64 % 64 in
      let c₃ = 0x80 + c % 64 in
      let next : to_size (p.offset + 2) ≡ p.offset + 2 = omega arith in
      let h₃ : drop (to_size (p.offset + 2)) p.contents ≡ c₃ ∷ rest =
        rw next (drop-front p.contents p.offset (c₁ ∷ c₂ ∷ []) (c₃ ∷ rest) bytes) in
      let low : ltb (c₃ / 16) 12 ≡ true = ground arith in
      let last : advance (advance p 2) 1 ≡ advance p 3 = advance-advance p 2 1 in
      rw (next_byte (advance p 2) c₃ rest h₃, low, last)
        (emit-stored 2 (x ∷ []) c₃ 1 (advance p 3) (omega arith))

  read_loop : read_utf_loop 4 3 0 2 [] p ≡ done (misread c, advance p 3)
  unfolding read_utf_loop
  read_loop = rw (read_first, read_second (c / 4096 * 64 + c / 64 % 64))

-- What `read_utf` makes of one character of three bytes; or nothing was written, since `realloc`
-- gave NULL for a block of at most three times the bytes up to the end of the string.
pub data Misreads (mem : Allocator) (p : Packet) (c : ℕ) : Outcome Packet → Type 0 where
  misreads :
      {q : Packet} → read_utf mem (rewind p q) ≡ done (misread c, q) → Misreads mem p c (done q)
  nothing_written : Refused mem (3 * (p.offset + 7)) → Misreads mem p c exits

-- A character from 2048 to 65535 that `write_utf` wrote at a valid packet is read back as two other
-- characters, if `malloc` grants the output array; or nothing was written since `realloc` gave NULL
-- for a block of at most three times the bytes up to its end.
pub read_utf-write_utf_wide :
    (mem : Allocator) (p : Packet) (c : ℕ) (b : List ℕ)
    → IsValid p
    → 2047 < c
    → c < 2 ^ 16
    → mem.malloc 4 ≡ some b
    → Misreads mem p c (write_utf mem p (c ∷ []))
read_utf-write_utf_wide mem p c b valid wide u16 got =
    reads (write_utf mem p (c ∷ [])) (write_utf-Appends mem p (c ∷ []) valid (ground arith))
  where
    three : length (encoding (c ∷ [])) ≡ 3
    three = ground arith

    reads :
        (r : Outcome Packet)
        → Appends mem 0 p (big_endian4 (length (encoding (c ∷ []))) ++ encoding (c ∷ [])) r
        → Misreads mem p c r
    reads r (out_of_memory refused) =
        nothing_written (Refused-weaken (omega (arith, three)) refused)
    reads r (appended {q} e) =
        let text = encoding (c ∷ []) in
        let rest = drop q.offset q.contents in
        let sent : drop p.offset q.contents ≡ big_endian4 (length text) ++ (text ++ rest) =
          Extends-drop valid e in
        let moved : q.offset ≡ p.offset + 7 = omega (arith, e.moved, three) in
        let next : to_size (p.offset + 4) ≡ p.offset + 4 =
          omega (arith, moved, e.valid.offset_fits, e.valid.size_limit) in
        let at_text : drop (to_size (p.offset + 4)) q.contents ≡ text ++ rest =
          rw next (drop-front q.contents p.offset (big_endian4 (length text)) _ sent) in
        let one : drop (to_size (p.offset + 4)) q.contents ≡ encode c ++ rest =
          rw append-nil at at_text in
        let back : advance (advance (rewind p q) 4) 3 ≡ q =
          ap (λ k. record q { offset = k })
            (omega (arith, moved, e.valid.offset_fits, e.valid.size_limit)) in
        let array : mem.malloc (2 * length text / 3 * 2) ≡ some b = rw three got in
        misreads (
          read_utf_starts mem p (c ∷ []) b valid (omega (arith, three)) array (rewind p q)
            (text ++ rest) sent
          ∙ rw three (
              read_loop (advance (rewind p q) 4) c rest wide u16 one
                (omega (arith, moved, e.valid.offset_fits, e.valid.size_limit)))
          ∙ ap (λ r. done (misread c, r)) back)
