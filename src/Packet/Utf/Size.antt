-- ===== src/Packet/Utf/Size.antt =====
-- The size that is sent before a string is the number of bytes that follow.
use sedona_vm_debug.Base.{ℕ, ◌+◌, ◌-◌, ◌*◌, ◌/◌, ◌%◌, ◌^◌, ◌≤◌, ◌<◌, ◌≡◌}
use sedona_vm_debug.Base.{
  List, [], ◌∷◌, ◌++◌, length, arith, Bool-cases, inl, inr, leb, if◌then◌else◌,
}
use sedona_vm_debug.Base.{length-append, big_endian4, bit_and, bit_or}
use sedona_vm_debug.Base.Bits.{bit_or-disjoint, bit_and-mask_left, bit_and-mask}
use sedona_vm_debug.Memory.{Outcome, done, exits, to_size, Allocator}
use sedona_vm_debug.Packet.Buffer.{Packet, write_u1}
use sedona_vm_debug.Packet.Append.{
  IsValid, Appends, Extends-refl, appended, out_of_memory, Refused, Refused-weaken,
  ensure_packet_cap-Appends, Appends-bind, write_u1-Appends, write_u4-Appends,
}
use sedona_vm_debug.Packet.Utf.{
  is_ascii, internal_utf_loop, internal_utf_size, write_utf_char, write_utf_chars, write_utf,
  utf_size,
}
use mathlib.Core.Path.{subst}

-- The modified UTF-8 of a 16-bit character.
abbrev pub encode : ℕ → List ℕ
encode c =
    if is_ascii c
    then c ∷ []
    else if leb c 2047
    then (0xc0 + c / 64 % 32) ∷ (0x80 + c % 64) ∷ []
    else (0xe0 + c / 4096 % 16) ∷ (0x80 + c / 64 % 64) ∷ (0x80 + c % 64) ∷ []

abbrev pub encoding : List ℕ → List ℕ
encoding [] = []
encoding (c ∷ utf) = encode c ++ encoding utf

-- The lead and continuation bytes are tagged and masked by bit operations.
pub tagged :
    (k high x : ℕ)
    → x % 2 ^ k < 2 ^ k
    → bit_and (bit_or (high * 2 ^ k) (bit_and (2 ^ k - 1) x)) 0xff
      ≡ (high * 2 ^ k + x % 2 ^ k) % 256
tagged k high x fits =
    rw (bit_and-mask_left k x, bit_or-disjoint k high (x % 2 ^ k) fits) (bit_and-mask 8 _)

pub encode-length : (c : ℕ) → (1 ≤ length (encode c)) × (length (encode c) ≤ 3)
encode-length c = ground arith

internal_utf_loop_lem :
    (utf : List ℕ) (n : ℕ)
    → n + length (encoding utf) < 2 ^ 32
    → internal_utf_loop n utf ≡ n + length (encoding utf)
unfolding internal_utf_loop
internal_utf_loop_lem [] n h = omega arith
internal_utf_loop_lem (c ∷ utf) n h = ground (
  arith,
  length-append {0} (encode c) (encoding utf),
  internal_utf_loop_lem utf (n + length (encode c)),
)

module _ (mem : Allocator) where
  -- A tagged byte is appended as it stands.
  tagged-Appends :
      (p : Packet) (k high x : ℕ)
      → IsValid p
      → x % 2 ^ k < 2 ^ k
      → high * 2 ^ k + x % 2 ^ k < 256
      → Appends mem 0 p
          ((high * 2 ^ k + x % 2 ^ k) ∷ [])
          (write_u1 mem p (bit_and (bit_or (high * 2 ^ k) (bit_and (2 ^ k - 1) x)) 0xff))
  tagged-Appends p k high x valid fits small =
      let b = high * 2 ^ k + x % 2 ^ k in
      let kept : b % 256 % 256 ≡ b = omega arith in
      rw (tagged k high x fits) (
        subst (λ b'. Appends mem 0 p (b' ∷ []) (write_u1 mem p (b % 256))) kept
          (write_u1-Appends mem p (b % 256) valid))

  write_utf_char-Appends :
      (p : Packet) (c : ℕ) → IsValid p → Appends mem 0 p (encode c) (write_utf_char mem p c)
  unfolding write_utf_char
  write_utf_char-Appends p c valid = elim (Bool-cases (is_ascii c)) [
    | inl ascii ↦
        let kept : c % 256 ≡ c = ground arith in
        rw ascii (
          subst (λ b. Appends mem 0 p (b ∷ []) (write_u1 mem p c)) kept
            (write_u1-Appends mem p c valid))
    | inr wider ↦ elim (Bool-cases (leb c 2047)) [
      | inl two ↦
          rw (wider, two)
            (Appends-bind (omega arith)
              (tagged-Appends p 5 6 (c / 64) valid (omega arith) (omega arith))
              λ q e. tagged-Appends q 6 2 c e.valid (omega arith) (omega arith))
      | inr three ↦
          rw (wider, three)
            (Appends-bind (omega arith)
              (tagged-Appends p 4 14 (c / 4096) valid (omega arith) (omega arith))
              λ q e.
                Appends-bind (omega arith)
                  (tagged-Appends q 6 2 (c / 64) e.valid (omega arith) (omega arith))
                  λ q e. tagged-Appends q 6 2 c e.valid (omega arith) (omega arith))
    ]
  ]

  write_utf_chars-Appends :
      (utf : List ℕ) (p : Packet)
      → IsValid p
      → Appends mem 0 p (encoding utf) (write_utf_chars mem p utf)
  unfolding write_utf_chars
  write_utf_chars-Appends [] p valid = appended (Extends-refl valid (omega arith))
  write_utf_chars-Appends (c ∷ utf) p valid =
      Appends-bind (omega arith) (write_utf_char-Appends p c valid)
        λ q e. write_utf_chars-Appends utf q e.valid

  -- `write_utf` appends the number of bytes of the modified UTF-8 of a string, and these bytes, to
  -- a valid packet, or the process exits since `realloc` gave NULL for a block of at most three
  -- times the bytes up to their end. The encoding has less than 2^32 bytes.
  pub write_utf-Appends :
      (p : Packet) (utf : List ℕ)
      → IsValid p
      → length (encoding utf) < 2 ^ 32
      → Appends mem 0 p (big_endian4 (length (encoding utf)) ++ encoding utf) (write_utf mem p utf)
  unfolding write_utf internal_utf_size
  write_utf-Appends p utf valid small =
      let size : internal_utf_loop 0 utf ≡ length (encoding utf) =
        omega (arith, internal_utf_loop_lem utf 0) in
      rw size (
        Appends-bind (omega arith)
          (ensure_packet_cap-Appends mem p (to_size (length (encoding utf) + 4)) valid
            (omega arith))
          λ q e.
            Appends-bind (omega arith) (write_u4-Appends mem q (length (encoding utf)) e.valid)
              λ q e. write_utf_chars-Appends utf q e.valid)

utf_size_lem :
    (utf : List ℕ)
    → length (encoding utf) + 4 < 2 ^ 32
    → utf_size utf ≡ length (big_endian4 (length (encoding utf)) ++ encoding utf)
unfolding utf_size internal_utf_size
utf_size_lem utf small = omega (arith, internal_utf_loop_lem utf 0)

-- A writer moves the offset of a packet by `k` and leaves a valid packet, or the process exits since
-- `realloc` gave NULL for a block of at most three times the bytes up to the new offset.
pub data Advances (mem : Allocator) (k : ℕ) (p : Packet) : Outcome Packet → Type 0 where
  advanced : {q : Packet} → IsValid q → q.offset ≡ p.offset + k → Advances mem k p (done q)
  refused : Refused mem (3 * (p.offset + k)) → Advances mem k p exits

Appends-Advances :
    {mem : Allocator} {p : Packet} {bs : List ℕ} {r : Outcome Packet} (k : ℕ)
    → k ≡ length bs
    → Appends mem 0 p bs r
    → Advances mem k p r
Appends-Advances k size (appended e) = advanced e.valid (omega (arith, e.moved))
Appends-Advances k size (out_of_memory refusal) = refused (Refused-weaken (omega arith) refusal)

-- `write_utf` moves the offset of a valid packet by exactly `utf_size` of the string, by which a
-- caller sizes its packet, and leaves a valid packet; or the process exits since `realloc` gave
-- NULL for a block of at most three times the bytes up to the new offset. The encoding and its size
-- have less than 2^32 bytes together.
pub write_utf-utf_size :
    (mem : Allocator) (p : Packet) (utf : List ℕ)
    → IsValid p
    → length (encoding utf) + 4 < 2 ^ 32
    → Advances mem (utf_size utf) p (write_utf mem p utf)
write_utf-utf_size mem p utf valid small =
    Appends-Advances (utf_size utf) (utf_size_lem utf small)
      (write_utf-Appends mem p utf valid (omega arith))
