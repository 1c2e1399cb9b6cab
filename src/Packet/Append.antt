-- ===== src/Packet/Append.antt =====
-- The packet buffer of jdwp/packetHandler.c against its contract: a packet stands for the bytes
-- before its offset, and every writer appends to them, growing the block as needed.
use sedona_vm_debug.Base.{
  ℕ, suc, ◌+◌, ◌*◌, ◌/◌, ◌%◌, ◌^◌, ◌≤◌, ◌<◌, ◌≡◌, refl, ap, sym, ◌∙◌, bit_and,
}
use sedona_vm_debug.Base.{List, [], ◌∷◌, ◌++◌, length, take, arith}
use sedona_vm_debug.Base.{inl, inr, Bool-cases, some, none, Option, leb, leb→le}
use sedona_vm_debug.Base.{length-append, length-set, take-suc-set, take_ext, lt→ltb}
use sedona_vm_debug.Base.{big_endian2, big_endian4, big_endian8}
use sedona_vm_debug.Base.Bits.{bit_and-mask}
use sedona_vm_debug.Memory.{Outcome, done, exits, ◌>>=◌, to_size, Allocator}
use sedona_vm_debug.Packet.Buffer.{Packet, ensure_packet_cap, put}
use sedona_vm_debug.Packet.Buffer.{write_u1, write_u2, write_u4, write_u8}
use mathlib.Core.Path.{subst}
use mathlib.Core.List.{append-nil, append_assoc}

-- The block has the length that the packet says, and the offset lies in it.
pub record IsValid (p : Packet) : Type 0 where
  pub block_size : length p.contents ≡ p.length
  pub offset_fits : p.offset ≤ p.length
  pub size_limit : p.length < 2 ^ 62

-- What a packet stands for: the bytes before its offset.
abbrev pub written : Packet → List ℕ
written p = take p.offset p.contents

-- `q` is the valid packet `p` with `bs` appended, and room for `n` more bytes.
pub record Extends (n : ℕ) (p : Packet) (bs : List ℕ) (q : Packet) : Type 0 where
  pub valid : IsValid q
  pub bytes : written q ≡ written p ++ bs
  pub moved : q.offset ≡ p.offset + length bs
  pub room : q.offset + n ≤ q.length

-- `realloc` gave NULL for a block of at most `limit` bytes.
pub record Refused (mem : Allocator) (limit : ℕ) : Type 0 where
  pub old : List ℕ
  pub size : ℕ
  pub small : size ≤ limit
  pub null : mem.realloc old size ≡ none

-- A writer appends `bs`, or the process exits since `realloc` gave NULL for a block of at most three
-- times the bytes up to the end of `bs` and the room behind it. It never runs into undefined
-- behaviour.
pub data Appends (mem : Allocator) (n : ℕ) (p : Packet) (bs : List ℕ)
    : Outcome Packet → Type 0 where
  appended : {q : Packet} → Extends n p bs q → Appends mem n p bs (done q)
  out_of_memory : Refused mem (3 * (p.offset + length bs + n)) → Appends mem n p bs exits

pub Extends-refl : {n : ℕ} {p : Packet} → IsValid p → p.offset + n ≤ p.length → Extends n p [] p
Extends-refl {p} v room = record {
  valid = v;
  bytes = sym (append-nil (written p));
  moved = omega arith;
  room = room;
}

pub Extends-trans :
    {m n : ℕ} {p q r : Packet} {bs cs : List ℕ}
    → Extends m p bs q
    → Extends n q cs r
    → Extends n p (bs ++ cs) r
Extends-trans {p} {bs} {cs} e f = record {
  valid = f.valid;
  bytes = f.bytes ∙ ap (λ t. t ++ cs) e.bytes ∙ append_assoc (written p) bs cs;
  moved = omega (arith, e.moved, f.moved, length-append {0} bs cs);
  room = f.room;
}

pub Refused-weaken : {mem : Allocator} {a b : ℕ} → a ≤ b → Refused mem a → Refused mem b
Refused-weaken h r = record {
  old = r.old;
  size = r.size;
  small = omega (arith, r.small);
  null = r.null;
}

-- Writers in a row append in a row, if the room that the first leaves is used.
pub Appends-bind :
    {mem : Allocator} {m n : ℕ} {p : Packet} {bs cs : List ℕ} {r : Outcome Packet}
    {f : Packet → Outcome Packet}
    → m ≤ length cs + n
    → Appends mem m p bs r
    → ((q : Packet) → Extends m p bs q → Appends mem n q cs (f q))
    → Appends mem n p (bs ++ cs) (r >>= f)
Appends-bind {bs} {cs} used (out_of_memory refused) k =
    out_of_memory (Refused-weaken (omega (arith, length-append {0} bs cs)) refused)
Appends-bind {mem} {n} {p} {bs} {cs} used (appended {q} e) k = behind e (k q e)
  where
    behind :
        {m : ℕ} {q : Packet} {r : Outcome Packet}
        → Extends m p bs q
        → Appends mem n q cs r
        → Appends mem n p (bs ++ cs) r
    behind e (out_of_memory refused) =
        out_of_memory (Refused-weaken (omega (arith, e.moved, length-append {0} bs cs)) refused)
    behind e (appended f) = appended (Extends-trans e f)

module _ (mem : Allocator) where
  -- Of a valid packet `ensurePacketCap` leaves a valid packet with the same bytes and room for
  -- `mbytes` more, less than 2^61, or the process exits since `realloc` gave NULL for a block of at
  -- most three times the bytes up to the end of that room.
  pub ensure_packet_cap-Appends :
      (p : Packet) (mbytes : ℕ)
      → IsValid p
      → mbytes < 2 ^ 61
      → Appends mem mbytes p [] (ensure_packet_cap mem p mbytes)
  unfolding ensure_packet_cap
  ensure_packet_cap-Appends p mbytes v h =
      elim (Bool-cases (leb p.length (to_size (p.offset + mbytes)))) [
        | inl full ↦ rw full (grow (leb→le _ _ full) (mem.realloc p.contents size) refl)
        | inr free ↦ rw free (
            appended (record {
              valid = v;
              bytes = sym (append-nil (written p));
              moved = omega arith;
              room = ground arith;
            }))
      ]
    where
      size : ℕ
      size = to_size (mbytes + p.length * 2)

      grow :
          p.length ≤ to_size (p.offset + mbytes)
          → (r : Option (List ℕ)) → mem.realloc p.contents size ≡ r
          → Appends mem mbytes p []
              (elim r [ none ↦ exits | some b ↦ done (record p { contents = b; length = size }) ])
      grow full none e =
          out_of_memory (record { old = p.contents; size = size; small = omega arith; null = e })
      grow full (some b) e = appended (record {
        valid = record {
          block_size = mem.realloc_size p.contents size b e;
          offset_fits = omega arith;
          size_limit = mem.realloc_limit p.contents size b e;
        };
        bytes =
            take_ext p.offset p.contents b (omega arith)
              (omega (arith, mem.realloc_size p.contents size b e))
              (λ i l. mem.realloc_keeps p.contents size b e i (omega arith) (omega arith))
            ∙ sym (append-nil (written p));
        moved = omega arith;
        room = omega arith;
      })

pub put-Appends :
    {mem : Allocator} (n : ℕ) (p : Packet) (b : ℕ)
    → IsValid p
    → p.offset + suc n ≤ p.length
    → Appends mem n p (b % 256 ∷ []) (put p b)
unfolding put
put-Appends n p b v room =
    let inside : p.offset < length p.contents = omega arith in
    let next : to_size (p.offset + 1) ≡ suc p.offset = omega arith in
    rw (lt→ltb _ _ inside) (
      appended (record {
        valid = record {
          block_size = length-set p.contents p.offset (b % 256) ∙ v.block_size;
          offset_fits = omega arith;
          size_limit = v.size_limit;
        };
        bytes = rw next (take-suc-set p.contents p.offset (b % 256) inside);
        moved = omega arith;
        room = omega arith;
      }))

-- One more byte after the room for it was made.
put_next :
    {mem : Allocator} (n b : ℕ) {p : Packet} {bs : List ℕ} {q : Packet}
    → Extends (suc n) p bs q
    → Appends mem n q (b % 256 ∷ []) (put q b)
put_next n b {q} e = put-Appends n q b e.valid e.room

-- The last byte of a wider writer is masked.
put_low :
    {mem : Allocator} (v : ℕ) {p : Packet} {bs : List ℕ} {q : Packet}
    → Extends 1 p bs q
    → Appends mem 0 q (v % 256 ∷ []) (put q (bit_and v 0xff))
put_low {mem} v {q} e =
    let kept : v % 256 % 256 ≡ v % 256 = omega arith in
    rw (bit_and-mask 8 v)
      (subst (λ b. Appends mem 0 q (b ∷ []) (put q (v % 256))) kept (put_next 0 (v % 256) e))

module _ (mem : Allocator) (p : Packet) (v : ℕ) (valid : IsValid p) where
  pub write_u1-Appends : Appends mem 0 p (v % 256 ∷ []) (write_u1 mem p v)
  unfolding write_u1
  write_u1-Appends =
      Appends-bind (omega arith) (ensure_packet_cap-Appends mem p 1 valid (omega arith))
        λ _ e. put_next 0 v e

  pub write_u2-Appends : Appends mem 0 p (big_endian2 v) (write_u2 mem p v)
  unfolding write_u2
  write_u2-Appends =
      Appends-bind (omega arith) (ensure_packet_cap-Appends mem p 2 valid (omega arith))
        λ _ e. Appends-bind (omega arith) (put_next 1 (v / 2 ^ 8) e) λ _ e. put_low v e

  pub write_u4-Appends : Appends mem 0 p (big_endian4 v) (write_u4 mem p v)
  unfolding write_u4
  write_u4-Appends =
      Appends-bind (omega arith) (ensure_packet_cap-Appends mem p 4 valid (omega arith)) λ _ e.
        Appends-bind (omega arith) (put_next 3 (v / 2 ^ 24) e) λ _ e.
          Appends-bind (omega arith) (put_next 2 (v / 2 ^ 16) e)
            λ _ e. Appends-bind (omega arith) (put_next 1 (v / 2 ^ 8) e) λ _ e. put_low v e

  pub write_u8-Appends : Appends mem 0 p (big_endian8 v) (write_u8 mem p v)
  unfolding write_u8
  write_u8-Appends =
      Appends-bind (omega arith) (ensure_packet_cap-Appends mem p 8 valid (omega arith)) λ _ e.
        Appends-bind (omega arith) (put_next 7 (v / 2 ^ 56) e) λ _ e.
          Appends-bind (omega arith) (put_next 6 (v / 2 ^ 48) e) λ _ e.
            Appends-bind (omega arith) (put_next 5 (v / 2 ^ 40) e) λ _ e.
              Appends-bind (omega arith) (put_next 4 (v / 2 ^ 32) e) λ _ e.
                Appends-bind (omega arith) (put_next 3 (v / 2 ^ 24) e) λ _ e.
                  Appends-bind (omega arith) (put_next 2 (v / 2 ^ 16) e)
                    λ _ e. Appends-bind (omega arith) (put_next 1 (v / 2 ^ 8) e) λ _ e. put_low v e
