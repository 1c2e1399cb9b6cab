-- ===== src/Packet/Chain/Laws.antt =====
-- What writing one packet, or a list of packets, into another does.
use sedona_vm_debug.Base.{ℕ, zero, suc, ◌+◌, ◌-◌, ◌*◌, ◌^◌, ◌≤◌, ◌<◌, ◌≡◌, refl, ap, sym, ◌∙◌}
use sedona_vm_debug.Base.{List, [], ◌∷◌, ◌++◌, length, arith, take, drop, true, false, some, ◌==◌}
use sedona_vm_debug.Base.{leb, Bool-cases, inl, inr, leb→le, leb-false}
use sedona_vm_debug.Base.{length-append, length-take, length-drop, take-append, take_ext}
use sedona_vm_debug.Memory.{done, out_of_fuel, to_size, Allocator, memcpy_lem, block}
use sedona_vm_debug.Packet.Buffer.{Packet}
use sedona_vm_debug.Packet.Append.{IsValid, written, Extends, Extends-refl, Extends-trans}
use sedona_vm_debug.Packet.Chain.{
  PacketList, get_byte_size, get_byte_size_loop, grow_loop, grow_rounds, write_packet, write_list,
  write_list_loop,
}
use sedona_vm_debug.Base.{==→eq, All}
use native.Mathlib.Nat.{pow-suc}
use mathlib.Core.List.{append-nil, append_assoc}
use mathlib.Core.Path.{subst}

-- `realloc` is never refused a block of at most `limit` bytes.
abbrev pub Grants : Allocator → ℕ → Type 0
Grants mem limit = (a : List ℕ) (n : ℕ) → n ≤ limit → (b : List ℕ) × (mem.realloc a n ≡ some b)

-- One `realloc` keeps what was written.
pub grown-Extends :
    (mem : Allocator) (p : Packet) (n : ℕ) (b : List ℕ)
    → IsValid p
    → p.length ≤ n
    → mem.realloc p.contents n ≡ some b
    → Extends 0 p [] (record p { contents = b; length = n })
grown-Extends mem p n b v h e = record {
  valid = record {
    block_size = mem.realloc_size p.contents n b e;
    offset_fits = omega arith;
    size_limit = mem.realloc_limit p.contents n b e;
  };
  bytes =
      take_ext p.offset p.contents b (omega arith)
        (omega (arith, mem.realloc_size p.contents n b e))
        (λ i l. mem.realloc_keeps p.contents n b e i (omega arith) (omega arith))
      ∙ sym (append-nil (written p));
  moved = omega arith;
  room = omega arith;
}

grow_loop-suc :
    (mem : Allocator) (fuel : ℕ) (p : Packet) (from_offset : ℕ) (b : List ℕ)
    → leb (to_size (p.length + 2 ^ 64 - p.offset)) from_offset ≡ true
    → to_size (p.length * 2) ≡ p.length * 2
    → mem.realloc p.contents (p.length * 2) ≡ some b
    → grow_loop mem (suc fuel) p from_offset
      ≡ grow_loop mem fuel (record p { contents = b; length = p.length * 2 }) from_offset
unfolding grow_loop
grow_loop-suc mem fuel p from_offset b full twice got = rw (full, twice, got)

-- The loop ends with room for one byte more than `from`, if each of the `k` rounds left doubles the
-- length and that is enough.
grow_loop-Extends :
    (mem : Allocator) (k fuel : ℕ) (p : Packet) (from_offset : ℕ)
    → IsValid p
    → k < fuel
    → from_offset + p.offset < p.length * 2 ^ k
    → Grants mem (2 * (from_offset + p.offset))
    → from_offset < 2 ^ 61
    → p.offset < 2 ^ 61
    → (q : Packet) × (grow_loop mem fuel p from_offset ≡ done q) × Extends (from_offset + 1) p [] q
unfolding grow_loop
grow_loop-Extends mem k zero p from_offset v h enough grants f o = absurd (omega arith)
grow_loop-Extends mem zero (suc fuel) p from_offset v h enough grants f o = (
  p,
  rw (leb-false (to_size (p.length + 2 ^ 64 - p.offset)) from_offset (omega arith)),
  Extends-refl v (omega arith),
)
grow_loop-Extends mem (suc k) (suc fuel) p from_offset v h enough grants f o =
    elim (Bool-cases (leb (to_size (p.length + 2 ^ 64 - p.offset)) from_offset)) [
      | inr fits ↦ (p, rw fits, Extends-refl v (ground arith))
      | inl full ↦
          let short = leb→le _ _ full in
          let twice : to_size (p.length * 2) ≡ p.length * 2 = omega arith in
          let (b, got) = grants p.contents (p.length * 2) (omega arith) in
          let e = grown-Extends mem p (p.length * 2) b v (omega arith) got in
          let (q, ends, e') =
            grow_loop-Extends mem k fuel (record p { contents = b; length = p.length * 2 })
              from_offset e.valid (omega arith)
              (omega (arith, ap (λ (t : ℕ). p.length * t) (pow-suc 2 k))) grants f o in
          (q, grow_loop-suc mem fuel p from_offset b full twice got ∙ ends, Extends-trans e e')
    ]

module _ (mem : Allocator) (to from : Packet) (valid : IsValid to) (sent : IsValid from)
    (pos : 0 < to.length) (small : to.offset + from.offset < 2 ^ 60)
    (grants : Grants mem (2 * (from.offset + to.offset))) where
  -- A valid packet written into a valid packet with a block appends its bytes: the loop that makes
  -- room ends, and what is left is a valid packet with a block. The offsets sum to less than 2^60,
  -- and `realloc` grants twice as many bytes.
  pub write_packet-Extends :
      (q : Packet) × (write_packet mem to from ≡ done q)
      × Extends 0 to (written from) q
      × (0 < q.length)
  write_packet-Extends = elim (Bool-cases (from.offset == 0)) [
    | inl empty ↦ (
      to,
      unfold write_packet in rw empty,
      subst (λ bs. Extends 0 to bs to) (none_written empty) (Extends-refl valid (omega arith)),
      pos,
    )
    | inr some_bytes ↦
        let (q, ends, e) =
          grow_loop-Extends mem 63 64 to from.offset valid (omega arith) (omega arith) grants
            (omega arith) (omega arith) in
        let n = from.offset in
        let contents =
          take q.offset q.contents ++ (written from ++ drop (q.offset + n) q.contents) in
        (
          record q { contents = contents; offset = q.offset + n },
          stores q ends e some_bytes,
          Extends-trans e (copied q e),
          omega (arith, e.room),
        )
  ]
    where
      none_written : (from.offset == 0) ≡ true → [] ≡ written from
      none_written empty = ap (λ n. take n from.contents) (sym (==→eq from.offset 0 empty))

      stores :
          (q : Packet)
          → grow_loop mem grow_rounds to from.offset ≡ done q
          → Extends (from.offset + 1) to [] q
          → (from.offset == 0) ≡ false
          → write_packet mem to from
            ≡ done (record q {
              contents =
                  take q.offset q.contents
                  ++ (written from ++ drop (q.offset + from.offset) q.contents);
              offset = q.offset + from.offset;
            })
      stores q ends e some_bytes =
          let block_there : (to.length == 0) ≡ false = ground arith in
          let next : to_size (q.offset + from.offset) ≡ q.offset + from.offset =
            omega (arith, e.room, e.valid.size_limit) in
          let stored =
            memcpy_lem q.contents q.offset from.contents from.offset
              (omega (arith, e.room, e.valid.block_size))
              (omega (arith, sent.offset_fits, sent.block_size)) in
          unfold write_packet in rw (some_bytes, block_there, ends, stored, next)

      copied :
          (q : Packet)
          → Extends (from.offset + 1) to [] q
          → Extends 0 q (written from) (record q {
            contents =
                take q.offset q.contents
                ++ (written from ++ drop (q.offset + from.offset) q.contents);
            offset = q.offset + from.offset;
          })
      copied q e =
          let n = from.offset in
          let front = take q.offset q.contents in
          let rest = drop (q.offset + n) q.contents in
          let front_size : length front ≡ q.offset =
            length-take q.offset q.contents
              (omega (arith, e.valid.offset_fits, e.valid.block_size)) in
          let sent_size : length (written from) ≡ n =
            length-take n from.contents (omega (arith, sent.offset_fits, sent.block_size)) in
          let both : length (front ++ written from) ≡ q.offset + n =
            length-append front (written from) ∙ omega (arith, front_size, sent_size) in
          record {
            valid = record {
              block_size = omega (
                arith,
                length-append {0} front (written from ++ rest),
                length-append {0} (written from) rest,
                length-drop {0} (q.offset + n) q.contents,
                front_size,
                sent_size,
                e.room,
                e.valid.block_size,
              );
              offset_fits = omega (arith, e.room);
              size_limit = e.valid.size_limit;
            };
            bytes =
                ap (λ k. take k (front ++ (written from ++ rest))) (sym both)
                ∙ ap (take (length (front ++ written from)))
                    (sym (append_assoc front (written from) rest))
                ∙ take-append (front ++ written from) rest;
            moved = omega (arith, sent_size);
            room = omega (arith, e.room);
          }

-- What the packets of a chain stand for together.
abbrev pub chain_bytes : List Packet → List ℕ
chain_bytes [] = []
chain_bytes (p ∷ ps) = written p ++ chain_bytes ps

abbrev pub total : List Packet → ℕ
total [] = 0
total (p ∷ ps) = p.offset + total ps

get_byte_size_loop_lem :
    (ps : List Packet) (bytes : ℕ)
    → bytes + total ps < 2 ^ 64
    → get_byte_size_loop (length ps) ps bytes ≡ done (bytes + total ps)
unfolding get_byte_size_loop
get_byte_size_loop_lem [] bytes h = ap done (omega arith)
get_byte_size_loop_lem (p ∷ ps) bytes h =
    let sum : to_size (bytes + p.offset) ≡ bytes + p.offset = omega arith in
    ap (get_byte_size_loop (length ps) ps) sum
    ∙ get_byte_size_loop_lem ps (bytes + p.offset) (omega arith)
    ∙ ap done (omega arith)

no_bytes : (ps : List Packet) → length ps ≡ 0 → 0 ≡ total ps
no_bytes [] h = refl
no_bytes (p ∷ ps) h = absurd (omega arith)

-- The size of a list whose count is right is the sum of its packets' offsets, if that is less than
-- 2^64.
pub get_byte_size_lem :
    (plist : PacketList)
    → plist.size ≡ length plist.head
    → total plist.head < 2 ^ 64
    → get_byte_size plist ≡ done (total plist.head)
unfolding get_byte_size
get_byte_size_lem plist h small = elim (Bool-cases (plist.size == 0)) [
  | inl empty ↦ rw empty (ap done (no_bytes plist.head (omega (arith, ==→eq plist.size 0 empty))))
  | inr some_packets ↦
      rw (some_packets, h)
        (get_byte_size_loop_lem plist.head 0 (omega arith) ∙ ap done (omega arith))
]

write_list_loop-Extends :
    (mem : Allocator) (ps : List Packet) (p : Packet)
    → IsValid p
    → All IsValid ps
    → 0 < p.length
    → p.offset + total ps < 2 ^ 60
    → Grants mem (2 * (p.offset + total ps))
    → (q : Packet) × (write_list_loop mem (length ps) ps p ≡ done q)
      × Extends 0 p (chain_bytes ps) q
unfolding write_list_loop
write_list_loop-Extends mem [] p v vs pos small grants = (p, refl, Extends-refl v (omega arith))
write_list_loop-Extends mem (from ∷ ps) p v (vf, vs) pos small grants =
    let (q, wrote, e, pos') =
      write_packet-Extends mem p from v vf pos (omega arith) (λ a n h. grants a n (omega arith)) in
    let size : length (written from) ≡ from.offset =
      length-take from.offset from.contents (omega arith) in
    let (r, ends, e') =
      write_list_loop-Extends mem ps q e.valid vs pos' (omega (arith, size, e.moved))
        (λ a n h. grants a n (omega (arith, size, e.moved))) in
    (r, first q wrote ∙ ends, Extends-trans e e')
  where
    first :
        (q : Packet)
        → write_packet mem p from ≡ done q
        → write_list_loop mem (suc (length ps)) (from ∷ ps) p ≡ write_list_loop mem (length ps) ps q
    first q wrote = rw wrote

-- Writing a list of valid packets, whose count is right, into a valid packet with a block appends
-- what the packets stand for, the one added last first, and leaves a valid packet. The bytes number
-- less than 2^60 together, and `realloc` grants twice as many.
pub write_list-Extends :
    (mem : Allocator) (plist : PacketList) (p : Packet)
    → IsValid p
    → All IsValid plist.head
    → plist.size ≡ length plist.head
    → 0 < p.length
    → p.offset + total plist.head < 2 ^ 60
    → Grants mem (2 * (p.offset + total plist.head))
    → (q : Packet) × (write_list mem p plist ≡ done q) × Extends 0 p (chain_bytes plist.head) q
unfolding write_list
write_list-Extends mem plist p v vs counted pos small grants =
    let (q, ends, e) = write_list_loop-Extends mem plist.head p v vs pos small grants in
    (q, ap (λ n. write_list_loop mem n plist.head p) counted ∙ ends, e)

-- The loop of `write_packet` does not end on a packet of no length at offset zero, however many
-- rounds it is given: doubling zero leaves zero.
pub write_packet-hangs :
    (mem : Allocator) (to from : Packet) (fuel : ℕ)
    → to.length ≡ 0
    → to.offset ≡ 0
    → grow_loop mem fuel to from.offset ≡ out_of_fuel
unfolding grow_loop
write_packet-hangs mem to from zero l o = refl
write_packet-hangs mem to from (suc fuel) l o =
    let full : leb (to_size (to.length + 2 ^ 64 - to.offset)) from.offset ≡ true = ground arith in
    rw full (
      write_packet-hangs mem
        (record to {
          contents = block (mem.realloc to.contents (to_size (to.length * 2)));
          length = to_size (to.length * 2);
        })
        from fuel (omega arith) o)
