-- ===== src/Packet/Ids/Strings.antt =====
-- `write_str` and `read_str` of jdwp/packetHandler.c: the writer sends each character in two bytes
-- and the length in bytes, the reader stores every byte as a character.
use sedona_vm_debug.Base.{take-all, get_elem?-of_drop, drop-suc, drop-front}
use sedona_vm_debug.Base.{ℕ, suc, ◌+◌, ◌*◌, ◌^◌, ◌<◌, ◌≡◌, refl, ap, sym, ◌∙◌}
use sedona_vm_debug.Base.{List, [], ◌∷◌, ◌++◌, length, take, drop, set, arith, All, IsByte, some}
use sedona_vm_debug.Base.{big_endian2, big_endian4, to_u32, lt→ltb, length-set, take-suc-set}
use mathlib.Core.Path.{subst, ap₂}
use native.Mathlib.Numerals.{add-one}
use mathlib.Core.List.{append_assoc}
use sedona_vm_debug.Memory.{Outcome, done, exits, Allocator, to_size}
use sedona_vm_debug.Packet.Buffer.{Packet, read_u1, read_u4, advance, write_u2}
use sedona_vm_debug.Packet.Append.{Extends-refl, out_of_memory, Refused, Refused-weaken}
use sedona_vm_debug.Packet.Append.{
  IsValid, Appends, ensure_packet_cap-Appends, Appends-bind, write_u4-Appends, write_u2-Appends,
  appended,
}
use sedona_vm_debug.Packet.RoundTrip.{advance-advance, Extends-drop, read_u4-Reads, rewind}
use sedona_vm_debug.Packet.Ids.{write_str, write_chars, read_str, read_str_loop}

-- Each byte of a string as a 16-bit character, the high byte first.
abbrev pub wide : List ℕ → List ℕ
wide [] = []
wide (c ∷ str) = 0 ∷ c ∷ wide str

length-wide : (str : List ℕ) → length (wide str) ≡ 2 * length str
length-wide [] = refl
length-wide (c ∷ str) = omega (arith, length-wide str)

module _ (mem : Allocator) where
  write_chars-Appends :
      (str : List ℕ) (p : Packet)
      → IsValid p
      → All IsByte str
      → Appends mem 0 p (wide str) (write_chars mem p str)
  unfolding write_chars
  write_chars-Appends [] p valid h = appended (Extends-refl valid (omega arith))
  write_chars-Appends (c ∷ str) p valid (hc, hs) =
      let image : big_endian2 c ≡ 0 ∷ c ∷ [] = ground arith in
      let first =
        subst (λ bs. Appends mem 0 p bs (write_u2 mem p c)) image
          (write_u2-Appends mem p c valid) in
      Appends-bind (omega arith) first λ q e. write_chars-Appends str q e.valid hs

  -- A string of fewer than 2^31 bytes is sent as the number of bytes that follow and each character
  -- in two bytes, appended to a valid packet, or the process exits since `realloc` gave NULL.
  pub write_str-Appends :
      (p : Packet) (str : List ℕ)
      → IsValid p
      → length str < 2 ^ 31
      → All IsByte str
      → Appends mem 0 p (big_endian4 (2 * length str) ++ wide str) (write_str mem p str)
  unfolding write_str
  write_str-Appends p str valid h bytes =
      let whole : to_u32 (length str) ≡ length str = omega arith in
      let doubled : to_u32 (length str * 2) ≡ 2 * length str = omega arith in
      rw (whole, doubled, take-all str)
        (Appends-bind (omega (arith, length-wide str))
          (ensure_packet_cap-Appends mem p (to_size (length str + 4)) valid (omega arith))
          λ q e.
            Appends-bind (omega arith) (write_u4-Appends mem q (2 * length str) e.valid)
              λ q e. write_chars-Appends str q e.valid bytes)

read_str_loop_lem :
    (bs : List ℕ) (start : ℕ) (str : List ℕ) (p : Packet) (rest : List ℕ)
    → drop p.offset p.contents ≡ bs ++ rest
    → length str ≡ start + length bs + 1
    → p.offset + length bs < 2 ^ 64
    → read_str_loop (length bs) start str p
      ≡ done (take start str ++ (bs ++ 0 ∷ []), advance p (length bs))
unfolding read_str_loop
read_str_loop_lem [] start str p rest h size fits =
    rw (lt→ltb start (length str) (omega arith)) (ap₂ (λ t q. done (t, q)) ended still)
  where
    size_after : length (set str start 0) ≡ suc start
    size_after = omega (arith, length-set str start 0)

    ended : set str start 0 ≡ take start str ++ 0 ∷ []
    ended =
        sym (take-all (set str start 0))
        ∙ ap (λ n. take n (set str start 0)) size_after
        ∙ take-suc-set str start 0 (omega arith)

    still : p ≡ advance p 0
    still = ap (λ k. record p { offset = k }) (omega arith)
read_str_loop_lem (b ∷ bs) start str p rest h size fits =
    let byte : read_u1 p ≡ done (b, advance p 1) =
      unfold read_u1 in rw (get_elem?-of_drop p.contents p.offset b (bs ++ rest) h) in
    let next : to_size (p.offset + 1) ≡ suc p.offset = omega arith in
    let behind : drop (to_size (p.offset + 1)) p.contents ≡ bs ++ rest =
      rw next (drop-suc p.contents p.offset b (bs ++ rest) h) in
    let later =
      read_str_loop_lem bs (start + 1) (set str start b) (advance p 1) rest behind
        (omega (arith, length-set str start b)) (omega arith) in
    let stored : take (start + 1) (set str start b) ≡ take start str ++ b ∷ [] =
      rw add-one (take-suc-set str start b (omega arith)) in
    rw (byte, lt→ltb start (length str) (omega arith))
      (later
        ∙ ap₂ (λ t q. done (t, q))
            (ap (λ t. t ++ (bs ++ 0 ∷ [])) stored
              ∙ append_assoc (take start str) (b ∷ []) (bs ++ 0 ∷ []))
            (advance-advance p 1 (length bs) ∙ ap (advance p) (omega arith)))

-- `read_str` stores each byte that follows the length, and a terminator.
read_str-Reads :
    (mem : Allocator) (bs : List ℕ) (b : List ℕ) (p : Packet) (rest : List ℕ)
    → length bs + 1 < 2 ^ 32
    → mem.malloc (length bs + 1) ≡ some b
    → p.offset + 4 + length bs < 2 ^ 64
    → drop p.offset p.contents ≡ (big_endian4 (length bs) ++ bs) ++ rest
    → read_str mem p ≡ done (bs ++ 0 ∷ [], advance p (4 + length bs))
unfolding read_str
read_str-Reads mem bs b p rest small got fits h =
    let v = length bs in
    let len : read_u4 p ≡ done (v, advance p 4) =
      read_u4-Reads v p (bs ++ rest) h ∙ ap (λ n. done (n, advance p 4)) (omega arith) in
    let same : to_u32 (v + 1) ≡ v + 1 = omega arith in
    let next : to_size (p.offset + 4) ≡ p.offset + 4 = omega arith in
    let behind : drop (to_size (p.offset + 4)) p.contents ≡ bs ++ rest =
      rw next (drop-front p.contents p.offset (big_endian4 v) (bs ++ rest) h) in
    rw (len, same, got)
      (read_str_loop_lem bs 0 b (advance p 4) rest behind
          (omega (arith, mem.malloc_size (v + 1) b got)) (omega arith)
        ∙ ap (λ q. done (bs ++ 0 ∷ [], q)) (advance-advance p 4 v))

-- What `read_str` makes of a string that `write_str` sent: twice as many characters, of which
-- every other one, and so the first, is the terminator. Or no string was written since `realloc`
-- gave NULL for a block of at most three times the bytes up to its end.
pub data ReadsWide (mem : Allocator) (p : Packet) (str : List ℕ) : Outcome Packet → Type 0 where
  reads_wide :
      {q : Packet}
      → read_str mem (rewind p q) ≡ done (wide str ++ 0 ∷ [], q)
      → ReadsWide mem p str (done q)
  nothing_written : Refused mem (3 * (p.offset + 4 + 2 * length str)) → ReadsWide mem p str exits

-- `read_str` makes of a string that `write_str` sent one of twice as many characters, of which
-- every other one, and so the first, is the terminator; or nothing was written since `realloc` gave
-- NULL for a block of at most three times the bytes up to the end of the string. The string has
-- fewer than 2^30 bytes, the packet is valid and `malloc` grants the result.
pub read_str-write_str :
    (mem : Allocator) (p : Packet) (str : List ℕ) (b : List ℕ)
    → IsValid p
    → length str < 2 ^ 30
    → All IsByte str
    → mem.malloc (2 * length str + 1) ≡ some b
    → ReadsWide mem p str (write_str mem p str)
read_str-write_str mem p str b valid small bytes got =
    reads (write_str mem p str) (write_str-Appends mem p str valid (omega arith) bytes)
  where
    reads :
        (r : Outcome Packet)
        → Appends mem 0 p (big_endian4 (2 * length str) ++ wide str) r
        → ReadsWide mem p str r
    reads r (out_of_memory refused) =
        nothing_written (Refused-weaken (omega (arith, length-wide str)) refused)
    reads r (appended {q} e) =
        let sent : drop p.offset q.contents
            ≡ (big_endian4 (length (wide str)) ++ wide str) ++ drop q.offset q.contents =
          rw length-wide (Extends-drop valid e) in
        let n : length (wide str) ≡ 2 * length str = length-wide str in
        let back : to_size (p.offset + (4 + length (wide str))) ≡ q.offset =
          omega (arith, e.moved, e.valid.offset_fits, e.valid.size_limit) in
        let got' : mem.malloc (length (wide str) + 1) ≡ some b = rw length-wide got in
        reads_wide (
          read_str-Reads mem (wide str) b (rewind p q) (drop q.offset q.contents) (omega arith) got'
            (omega arith) sent
          ∙ ap (λ k. done (wide str ++ 0 ∷ [], record q { offset = k })) back)
