-- ===== src/Packet/Utf/RoundTrip.antt =====
-- `read_utf` on what `write_utf` wrote: it gives the characters below 2048 back if there is room in
-- its output array, and takes a three-byte character for two others.
use sedona_vm_debug.Base.{ℕ, zero, suc, ◌+◌, ◌*◌, ◌/◌, ◌%◌, ◌^◌, ◌≤◌, ◌<◌, ◌≡◌, ap, sym, ◌∙◌}
use sedona_vm_debug.Base.{
  List, [], ◌∷◌, ◌++◌, length, arith, All, Bool-cases, inl, inr, ltb, leb, ◌==◌, if◌then◌else◌,
  some,
}
use sedona_vm_debug.Base.{
  length-append, big_endian4, bit_and, bit_or, to_u16, drop, drop-front, drop-suc,
  get_elem?-of_drop, lt→ltb,
}
use sedona_vm_debug.Base.Bits.{bit_or-disjoint, bit_and-mask, continuation_ne_zero}
use sedona_vm_debug.Memory.{Outcome, done, undefined, exits, ◌>>=◌, to_size, Allocator}
use sedona_vm_debug.Packet.Buffer.{Packet, read_u1, read_u4, advance}
use sedona_vm_debug.Packet.Append.{
  IsValid, Appends, appended, out_of_memory, Refused, Refused-weaken,
}
use sedona_vm_debug.Packet.RoundTrip.{rewind, Extends-drop, read_u4-Reads}
use sedona_vm_debug.Packet.Utf.{is_ascii, read_utf_char, read_utf_loop, read_utf, write_utf, emit}
use sedona_vm_debug.Packet.Utf.Size.{encode, encoding, encode-length, write_utf-Appends}
use sedona_vm_debug.Packet.RoundTrip.{advance-advance}
use sedona_vm_debug.Base.{true, false, ltb-false, leb→le, le→leb, leb-false}
use mathlib.Core.Path.{ap₂}
use mathlib.Core.List.{append_assoc, append-nil}

-- The characters that take one or two bytes.
abbrev pub IsNarrow : ℕ → Type 0
IsNarrow c = (0 < c) × (c ≤ 2047)

-- What the output array takes.
abbrev pub stored : {A : Type 0} → ℕ → ℕ → A → Outcome A
stored slots needed a = if leb needed slots then done a else undefined

pub next_byte :
    (p : Packet) (b : ℕ) (rest : List ℕ)
    → drop p.offset p.contents ≡ b ∷ rest
    → read_u1 p ≡ done (b, advance p 1)
unfolding read_u1
next_byte p b rest h = rw (get_elem?-of_drop p.contents p.offset b rest h)

pub behind :
    (p : Packet) (b : ℕ) (rest : List ℕ)
    → drop p.offset p.contents ≡ b ∷ rest
    → p.offset + 1 < 2 ^ 64
    → drop (advance p 1).offset p.contents ≡ rest
behind p b rest h fits =
    let next : to_size (p.offset + 1) ≡ suc p.offset = omega arith in
    rw next (drop-suc p.contents p.offset b rest h)

-- The bits of a two-byte character, taken apart and joined.
joined :
    (c : ℕ)
    → c ≤ 2047
    → bit_or (bit_and (0xc0 + c / 64 % 32) 0x1f * 64) (bit_and (0x80 + c % 64) 0x3f) ≡ c
joined c h = ground (
  arith,
  bit_and-mask 5 (0xc0 + c / 64 % 32),
  bit_and-mask 6 (0x80 + c % 64),
  bit_or-disjoint 6 (c / 64) (c % 64),
)

pub emit-stored :
    (slots : ℕ) (out : List ℕ) (v n : ℕ) (q : Packet)
    → v < 2 ^ 16
    → ◌>>=◌ {B = ℕ × List ℕ × Packet} (emit slots out v) (λ o. done (n, o, q))
      ≡ stored slots (length out + 1) (n, out ++ v ∷ [], q)
emit-stored slots out v n q small =
    let kept : to_u16 v ≡ v = omega arith in
    elim (Bool-cases (ltb (length out) slots)) [
      | inl room ↦ rw (room, kept, le→leb (length out + 1) slots (ground arith))
      | inr full ↦ rw (full, leb-false (length out + 1) slots (ground arith))
    ]

module _ (slots : ℕ) (out : List ℕ) (p : Packet) (c : ℕ) (rest : List ℕ)
    (fits : p.offset + 2 < 2 ^ 64) where
  read_ascii :
      is_ascii c ≡ true
      → drop p.offset p.contents ≡ c ∷ rest
      → read_utf_char slots out p ≡ stored slots (length out + 1) (1, out ++ c ∷ [], advance p 1)
  unfolding read_utf_char
  read_ascii ascii h =
      let low : ltb (c / 16) 12 ≡ true = ground arith in
      rw (next_byte p c rest h, low) (emit-stored slots out c 1 (advance p 1) (ground arith))

  read_two :
      is_ascii c ≡ false
      → IsNarrow c
      → drop p.offset p.contents ≡ (0xc0 + c / 64 % 32) ∷ (0x80 + c % 64) ∷ rest
      → read_utf_char slots out p ≡ stored slots (length out + 1) (2, out ++ c ∷ [], advance p 2)
  unfolding read_utf_char
  read_two wide narrow h =
      let c₁ = 0xc0 + c / 64 % 32 in
      let c₂ = 0x80 + c % 64 in
      let h₂ = behind p c₁ (c₂ ∷ rest) h (omega arith) in
      let lead : ltb (c₁ / 16) 12 ≡ false = ground arith in
      let low : ltb (c₂ / 16) 14 ≡ true = ground arith in
      let whole : (bit_and c₂ 0xbf == 0) ≡ false =
        ground (arith, continuation_ne_zero (c % 64) (omega arith)) in
      let twice : advance (advance p 1) 1 ≡ advance p 2 = advance-advance p 1 1 in
      rw
        (
          next_byte p c₁ (c₂ ∷ rest) h,
          lead,
          next_byte (advance p 1) c₂ rest h₂,
          low,
          whole,
          joined c narrow.1,
          twice,
        )
        (emit-stored slots out c 2 (advance p 2) (omega arith))

  read_narrow :
      IsNarrow c
      → drop p.offset p.contents ≡ encode c ++ rest
      → read_utf_char slots out p
        ≡ stored slots
            (length out + 1)
            (length (encode c), out ++ c ∷ [], advance p (length (encode c)))
  read_narrow narrow h = elim (Bool-cases (is_ascii c)) [
    | inl ascii ↦ rw ascii (read_ascii ascii (rw ascii at h))
    | inr wide ↦
        let two : leb c 2047 ≡ true = ground arith in
        rw (wide, two) (read_two wide narrow (rw (wide, two) at h))
  ]

-- The loop stops when the count is reached.
read_utf_loop_end :
    (fuel total start slots : ℕ) (out : List ℕ) (p : Packet)
    → total ≤ start
    → 0 < fuel
    → read_utf_loop fuel total start slots out p ≡ done (out, p)
unfolding read_utf_loop
read_utf_loop_end zero total start slots out p h pos = absurd (omega arith)
read_utf_loop_end (suc fuel) total start slots out p h pos = rw (ltb-false start total h)

module _ (total slots : ℕ) where
  read_utf_loop-narrow :
      (utf : List ℕ) (fuel start : ℕ) (out : List ℕ) (p : Packet) (rest : List ℕ)
      → All IsNarrow utf
      → drop p.offset p.contents ≡ encoding utf ++ rest
      → start + length (encoding utf) ≡ total
      → length (encoding utf) < fuel
      → total < 2 ^ 32
      → length out ≤ slots
      → p.offset + length (encoding utf) + 2 < 2 ^ 64
      → read_utf_loop fuel total start slots out p
        ≡ stored slots (length out + length utf) (out ++ utf, advance p (length (encoding utf)))
  unfolding read_utf_loop
  read_utf_loop-narrow [] fuel start out p rest narrow h sum enough small room fits =
      let still : p ≡ advance p 0 = ap (λ k. record p { offset = k }) (omega arith) in
      rw (le→leb (length out + 0) slots (omega arith)) (
        read_utf_loop_end fuel total start slots out p (omega arith) (omega arith)
        ∙ ap₂ (λ o q. done (o, q)) (sym (append-nil out)) still)
  read_utf_loop-narrow (c ∷ utf) zero start out p rest narrow h sum enough small room fits =
      absurd (omega (arith, length-append {0} (encode c) (encoding utf), encode-length c))
  read_utf_loop-narrow (c ∷ utf) (suc fuel) start out p rest (nc, ns) h sum enough small room fits =
      let n = length (encode c) in
      let size : length (encoding (c ∷ utf)) ≡ n + length (encoding utf) =
        length-append (encode c) (encoding utf) in
      let more : ltb start total ≡ true =
        lt→ltb start total (omega (arith, size, encode-length c)) in
      let h' : drop p.offset p.contents ≡ encode c ++ (encoding utf ++ rest) =
        h ∙ append_assoc (encode c) (encoding utf) rest in
      let next : to_size (p.offset + n) ≡ p.offset + n = omega (arith, size) in
      let count : to_size (start + n) ≡ start + n = omega (arith, size) in
      let here = read_narrow slots out p c (encoding utf ++ rest) (omega (arith, size)) nc h' in
      elim (Bool-cases (leb (length out + 1) slots)) [
        | inl room' ↦
            let ih =
              read_utf_loop-narrow utf fuel (start + n) (out ++ c ∷ []) (advance p n) rest ns
                (rw next (drop-front p.contents p.offset (encode c) (encoding utf ++ rest) h'))
                (omega (arith, size)) (omega (arith, size, encode-length c)) small
                (omega (arith, leb→le _ _ room', length-append {0} out (c ∷ [])))
                (omega (arith, size)) in
            let grown : length (out ++ c ∷ []) + length utf ≡ length out + suc (length utf) =
              omega (arith, length-append {0} out (c ∷ [])) in
            let far : advance (advance p n) (length (encoding utf))
                ≡ advance p (length (encoding (c ∷ utf))) =
              advance-advance p n (length (encoding utf)) ∙ ap (advance p) (sym size) in
            rw (more, here, room', count)
              (ih ∙ λ i. stored slots (grown i) (append_assoc out (c ∷ []) utf i, far i))
        | inr full ↦
            rw (more, here, full, leb-false (length out + suc (length utf)) slots (ground arith))
      ]

-- `read_utf` on what was written at `p`: the characters of `utf` and the reader where the writer
-- stood, if they number at most two thirds of the bytes; undefined behaviour otherwise, a write
-- past the output array. Or nothing was written, since `realloc` gave NULL for a block of at most
-- three times the bytes up to the end of the string.
pub data ReadsUtf (mem : Allocator) (p : Packet) (utf : List ℕ) : Outcome Packet → Type 0 where
  reads_utf :
      {q : Packet}
      → read_utf mem (rewind p q) ≡ stored (2 * length (encoding utf) / 3) (length utf) (utf, q)
      → ReadsUtf mem p utf (done q)
  nothing_written :
      Refused mem (3 * (p.offset + 4 + length (encoding utf))) → ReadsUtf mem p utf exits

module _ (mem : Allocator) (p : Packet) (utf : List ℕ) (b : List ℕ) (valid : IsValid p)
    (small : length (encoding utf) < 2 ^ 30)
    (got : mem.malloc (2 * length (encoding utf) / 3 * 2) ≡ some b) where
  -- The first four bytes give the count and the output array.
  pub read_utf_starts :
      (r : Packet) (rest : List ℕ)
      → drop r.offset r.contents ≡ big_endian4 (length (encoding utf)) ++ rest
      → read_utf mem r
        ≡ read_utf_loop
            (suc (length (encoding utf)))
            (length (encoding utf))
            0
            (2 * length (encoding utf) / 3)
            []
            (advance r 4)
  unfolding read_utf
  read_utf_starts r rest h =
      let n = length (encoding utf) in
      let count : read_u4 r ≡ done (n, advance r 4) =
        read_u4-Reads n r rest h ∙ ap (λ k. done (k, advance r 4)) (omega arith) in
      let bytes : to_size (2 * n) / 3 * 2 ≡ 2 * n / 3 * 2 = omega arith in
      let slots : length b / 2 ≡ 2 * n / 3 = omega (arith, mem.malloc_size (2 * n / 3 * 2) b got) in
      rw (count, bytes, got, slots)

  -- A string of characters from 1 to 2047, written at a valid packet, is read back when two thirds
  -- of its bytes, rounded down, are at least as many as its characters; when they are fewer, as for
  -- every ASCII string that is not empty, reading it writes past the output array. The encoding has
  -- less than 2^30 bytes and `malloc` grants the output array; or nothing is written since
  -- `realloc` gave NULL for a block of at most three times the bytes up to the end of the string.
  pub read_utf-write_utf : All IsNarrow utf → ReadsUtf mem p utf (write_utf mem p utf)
  read_utf-write_utf narrow =
      reads (write_utf mem p utf) (write_utf-Appends mem p utf valid (omega arith))
    where
      n : ℕ
      n = length (encoding utf)

      reads :
          (r : Outcome Packet)
          → Appends mem 0 p (big_endian4 n ++ encoding utf) r
          → ReadsUtf mem p utf r
      reads r (out_of_memory refused) = nothing_written (Refused-weaken (omega arith) refused)
      reads r (appended {q} e) =
          let sent : drop p.offset q.contents
              ≡ big_endian4 n ++ (encoding utf ++ drop q.offset q.contents) =
            Extends-drop valid e in
          let next : to_size (p.offset + 4) ≡ p.offset + 4 =
            omega (arith, e.moved, e.valid.offset_fits, e.valid.size_limit) in
          let text : drop (to_size (p.offset + 4)) q.contents
              ≡ encoding utf ++ drop q.offset q.contents =
            rw next (drop-front q.contents p.offset (big_endian4 n) _ sent) in
          let back : advance (advance (rewind p q) 4) n ≡ q =
            ap (λ k. record q { offset = k })
              (omega (arith, e.moved, e.valid.offset_fits, e.valid.size_limit)) in
          let none_before : 0 + length utf ≡ length utf = omega arith in
          reads_utf (
            read_utf_starts (rewind p q) (encoding utf ++ drop q.offset q.contents) sent
            ∙ read_utf_loop-narrow n (2 * n / 3) utf (suc n) 0 [] (advance (rewind p q) 4)
                (drop q.offset q.contents) narrow text (omega arith) (omega arith) (omega arith)
                (omega arith) (omega (arith, e.moved, e.valid.offset_fits, e.valid.size_limit))
            ∙ λ i. stored (2 * n / 3) (none_before i) (utf, back i))
