-- ===== src/Packet/RoundTrip.antt =====
-- The basic readers of jdwp/packetHandler.c against its writers.
use sedona_vm_debug.Base.{ℕ, ◌+◌, ◌*◌, ◌/◌, ◌%◌, ◌^◌, ◌≡◌, ap, ◌∙◌}
use sedona_vm_debug.Base.{List, [], ◌∷◌, ◌++◌, length, get_elem?, drop, arith, IsByte}
use sedona_vm_debug.Base.{big_endian2, big_endian4}
use sedona_vm_debug.Base.{Option-cases, inl, inr, length-take, drop-of_take, get_elem?-of_drop}
use sedona_vm_debug.Base.Bits.{bit_or-disjoint}
use sedona_vm_debug.Memory.{Outcome, done, exits, undefined, defined, to_size, Allocator}
use sedona_vm_debug.Memory.{NeverExits, NeverExits-bind, defined-NeverExits, returned}
use sedona_vm_debug.Packet.Buffer.{Packet, read_u2_buff, read_u4_buff, read_u8_buff, advance}
use sedona_vm_debug.Packet.Buffer.{read_u1, read_u2, read_u4, read_u8, write_u1, write_u2, write_u4}
use sedona_vm_debug.Packet.Append.{
  IsValid, written, Extends, Refused, Refused-weaken, Appends, appended, out_of_memory,
}
use sedona_vm_debug.Packet.Append.{write_u1-Appends, write_u2-Appends, write_u4-Appends}

pub read_u2_buff_lem :
    (b₀ b₁ : ℕ) (rest : List ℕ)
    → IsByte b₀
    → IsByte b₁
    → read_u2_buff (b₀ ∷ b₁ ∷ rest) ≡ done (b₀ * 2 ^ 8 + b₁)
unfolding read_u2_buff
read_u2_buff_lem b₀ b₁ rest h₀ h₁ = ground (arith, bit_or-disjoint 8 b₀ b₁)

pub read_u4_buff_lem :
    (b₀ b₁ b₂ b₃ : ℕ) (rest : List ℕ)
    → IsByte b₀
    → IsByte b₁
    → IsByte b₂
    → IsByte b₃
    → read_u4_buff (b₀ ∷ b₁ ∷ b₂ ∷ b₃ ∷ rest) ≡ done (b₀ * 2 ^ 24 + b₁ * 2 ^ 16 + b₂ * 2 ^ 8 + b₃)
unfolding read_u4_buff
read_u4_buff_lem b₀ b₁ b₂ b₃ rest h₀ h₁ h₂ h₃ = ground (
  arith,
  bit_or-disjoint 24 b₀ (b₁ * 2 ^ 16),
  bit_or-disjoint 16 (b₀ * 2 ^ 8 + b₁) (b₂ * 2 ^ 8),
  bit_or-disjoint 8 (b₀ * 2 ^ 16 + b₁ * 2 ^ 8 + b₂) b₃,
)

pub read_u4_buff-big_endian4 :
    (v : ℕ) (rest : List ℕ) → read_u4_buff (big_endian4 v ++ rest) ≡ done (v % 2 ^ 32)
read_u4_buff-big_endian4 v rest =
    let b₀ = v / 2 ^ 24 % 256 in
    let b₁ = v / 2 ^ 16 % 256 in
    let b₂ = v / 2 ^ 8 % 256 in
    let b₃ = v % 256 in
    let joined : b₀ * 2 ^ 24 + b₁ * 2 ^ 16 + b₂ * 2 ^ 8 + b₃ ≡ v % 2 ^ 32 = omega arith in
    read_u4_buff_lem b₀ b₁ b₂ b₃ rest (omega arith) (omega arith) (omega arith) (omega arith)
    ∙ ap done joined

-- The packet as a reader finds it: the offset back where `p` stood.
abbrev pub rewind : Packet → Packet → Packet
rewind p q = record q { offset = p.offset }

pub advance-advance : (p : Packet) (m n : ℕ) → advance (advance p m) n ≡ advance p (m + n)
advance-advance p m n = ap (λ k. record p { offset = k }) (omega arith)

-- A reader that takes `bs` off the front of what lies at the offset gives `v` and stands behind.
abbrev pub Reads : (Packet → Outcome (ℕ × Packet)) → List ℕ → ℕ → Type 0
Reads read bs v =
    (p : Packet) (rest : List ℕ)
    → drop p.offset p.contents ≡ bs ++ rest
    → read p ≡ done (v, advance p (length bs))

-- What was written in `k` bytes is read back, and the reader stands where the writer stood; or the
-- process has exited since `realloc` gave NULL for a block of at most three times the bytes up to
-- their end.
pub data ReadsBack (mem : Allocator) (k : ℕ) (read : Packet → Outcome (ℕ × Packet)) (p : Packet)
    (v : ℕ) : Outcome Packet → Type 0 where
  reads_back :
      {q : Packet}
      → q.offset ≡ p.offset + k
      → read (rewind p q) ≡ done (v, q)
      → ReadsBack mem k read p v (done q)
  nothing_written : Refused mem (3 * (p.offset + k)) → ReadsBack mem k read p v exits

pub Extends-drop :
    {n : ℕ} {p q : Packet} {bs : List ℕ}
    → IsValid p
    → Extends n p bs q
    → drop p.offset q.contents ≡ bs ++ drop q.offset q.contents
Extends-drop {p} {q} {bs} v e =
    let size : length (written p) ≡ p.offset = length-take p.offset p.contents (omega arith) in
    rw size at (drop-of_take q.offset q.contents (written p) bs e.bytes)

pub Appends-ReadsBack :
    {mem : Allocator} {p : Packet} {bs : List ℕ} {v : ℕ} {r : Outcome Packet}
    (read : Packet → Outcome (ℕ × Packet))
    → Reads read bs v
    → IsValid p
    → Appends mem 0 p bs r
    → ReadsBack mem (length bs) read p v r
Appends-ReadsBack read reads valid (out_of_memory refused) =
    nothing_written (Refused-weaken (omega arith) refused)
Appends-ReadsBack {p} {bs} {v} read reads valid (appended {q} e) = reads_back e.moved (
    reads (rewind p q) (drop q.offset q.contents) (Extends-drop valid e)
    ∙ ap (λ n. done (v, record q { offset = n })) back)
  where
    back : to_size (p.offset + length bs) ≡ q.offset
    back = omega (arith, e.moved, e.valid.offset_fits, e.valid.size_limit)

pub read_u1-Reads : (v : ℕ) → Reads read_u1 (v % 256 ∷ []) (v % 256)
unfolding read_u1
read_u1-Reads v p rest h = rw (get_elem?-of_drop p.contents p.offset (v % 256) rest h)

pub read_u2-Reads : (v : ℕ) → Reads read_u2 (big_endian2 v) (v % 2 ^ 16)
unfolding read_u2
read_u2-Reads v p rest h =
    let joined : v / 256 % 256 * 2 ^ 8 + v % 256 ≡ v % 2 ^ 16 = omega arith in
    rw (h, read_u2_buff_lem (v / 256 % 256) (v % 256) rest (omega arith) (omega arith), joined)

pub read_u4-Reads : (v : ℕ) → Reads read_u4 (big_endian4 v) (v % 2 ^ 32)
unfolding read_u4
read_u4-Reads v p rest h = rw (h, read_u4_buff-big_endian4 v rest)

module _ (mem : Allocator) (p : Packet) (v : ℕ) (valid : IsValid p) where
  pub write_u1-ReadsBack : ReadsBack mem 1 read_u1 p (v % 2 ^ 8) (write_u1 mem p v)
  write_u1-ReadsBack =
      Appends-ReadsBack read_u1 (read_u1-Reads v) valid (write_u1-Appends mem p v valid)

  pub write_u2-ReadsBack : ReadsBack mem 2 read_u2 p (v % 2 ^ 16) (write_u2 mem p v)
  write_u2-ReadsBack =
      Appends-ReadsBack read_u2 (read_u2-Reads v) valid (write_u2-Appends mem p v valid)

  -- What `write_u4` writes at a valid packet `read_u4` reads back from there, modulo 2^32, and it
  -- stands where the writer stood, four bytes on; or the process has exited since `realloc` gave
  -- NULL for a block of at most three times the bytes up to there.
  pub write_u4-ReadsBack : ReadsBack mem 4 read_u4 p (v % 2 ^ 32) (write_u4 mem p v)
  write_u4-ReadsBack =
      Appends-ReadsBack read_u4 (read_u4-Reads v) valid (write_u4-Appends mem p v valid)

-- `read_u8` shifts the first byte as an `int` by 56, which C leaves undefined, on every packet.
pub read_u8-undefined : (p : Packet) → read_u8 p ≡ undefined
unfolding read_u8 read_u8_buff
read_u8-undefined p = elim (Option-cases (get_elem? (drop p.offset p.contents) 0)) [
  | inl past ↦ rw past
  | inr (b, e) ↦ rw e
]

pub read_u1-NeverExits : (p : Packet) → NeverExits (read_u1 p)
unfolding read_u1
read_u1-NeverExits p =
    NeverExits-bind (defined-NeverExits (get_elem? p.contents p.offset)) λ _. returned

pub read_u2-NeverExits : (p : Packet) → NeverExits (read_u2 p)
unfolding read_u2 read_u2_buff
read_u2-NeverExits p =
    NeverExits-bind (NeverExits-bind (at 0) λ _. NeverExits-bind (at 1) λ _. returned) λ _. returned
  where
    at : (i : ℕ) → NeverExits (defined (get_elem? (drop p.offset p.contents) i))
    at i = defined-NeverExits _

pub read_u4-NeverExits : (p : Packet) → NeverExits (read_u4 p)
unfolding read_u4 read_u4_buff
read_u4-NeverExits p =
    NeverExits-bind
      (NeverExits-bind (at 0) λ _.
        NeverExits-bind (at 1)
          λ _. NeverExits-bind (at 2) λ _. NeverExits-bind (at 3) λ _. returned)
      λ _. returned
  where
    at : (i : ℕ) → NeverExits (defined (get_elem? (drop p.offset p.contents) i))
    at i = defined-NeverExits _
