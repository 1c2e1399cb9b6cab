-- ===== src/Packet/Ids.antt =====
-- jdwp/packetHandler.c and jdwp/misc/MTypes.h: the identifiers of JDWP, each with its size, and
-- locations and plain strings.
pub mod Laws
pub mod Strings
use sedona_vm_debug.Base.{ℕ, zero, suc, ◌+◌, ◌*◌, ◌-◌, List, [], ◌∷◌, ltb, ◌==◌, if◌then◌else◌}
use sedona_vm_debug.Base.{length, set, take, to_u32}
use sedona_vm_debug.Memory.{Outcome, done, undefined, ◌>>=◌, to_size, Allocator, block}
use sedona_vm_debug.Packet.Buffer.{
  Packet, ensure_packet_cap, write_u1, write_u2, write_u4, write_u8,
}
use sedona_vm_debug.Packet.Buffer.{read_u1, read_u2, read_u4, read_u8}

abbrev pub byte_size : ℕ
byte_size = 1

abbrev pub short_size : ℕ
short_size = 2

abbrev pub int_size : ℕ
int_size = 4

abbrev pub char_size : ℕ
char_size = short_size

abbrev pub objectid_size : ℕ
objectid_size = int_size

abbrev pub tag_size : ℕ
tag_size = byte_size

abbrev pub class_id_size : ℕ
class_id_size = objectid_size

abbrev pub thread_id_size : ℕ
thread_id_size = objectid_size

abbrev pub thread_group_id_size : ℕ
thread_group_id_size = objectid_size

abbrev pub method_id_size : ℕ
method_id_size = short_size

abbrev pub field_id_size : ℕ
field_id_size = short_size

abbrev pub frame_id_size : ℕ
frame_id_size = int_size

-- The `#if` chain over a size, which every reader and writer of an identifier repeats.
abbrev pub of_size {ℓ} : {A : Type ℓ} → ℕ → A → A → A → A → A
of_size size one two four eight =
    if size == byte_size
    then one
    else if size == short_size
    then two
    else if size == int_size
    then four
    else eight

module _ (p : Packet) where
  abbrev read_sized : ℕ → Outcome (ℕ × Packet)
  read_sized size = of_size size (read_u1 p) (read_u2 p) (read_u4 p) (read_u8 p)

  unfoldable pub read_tag : Outcome (ℕ × Packet)
  read_tag = read_sized tag_size

  unfoldable pub read_methodid : Outcome (ℕ × Packet)
  read_methodid = read_sized method_id_size

  unfoldable pub read_fieldid : Outcome (ℕ × Packet)
  read_fieldid = read_sized field_id_size

  unfoldable pub read_objectid : Outcome (ℕ × Packet)
  read_objectid = read_sized objectid_size

  unfoldable pub read_threadid : Outcome (ℕ × Packet)
  read_threadid = read_sized thread_id_size

  unfoldable pub read_threadgroupid : Outcome (ℕ × Packet)
  read_threadgroupid = read_sized thread_group_id_size

  unfoldable pub read_frameid : Outcome (ℕ × Packet)
  read_frameid = read_sized frame_id_size

module _ (mem : Allocator) (p : Packet) (v : ℕ) where
  abbrev write_sized : ℕ → Outcome Packet
  write_sized size =
      of_size size (write_u1 mem p v) (write_u2 mem p v) (write_u4 mem p v) (write_u8 mem p v)

  unfoldable pub write_tag : Outcome Packet
  write_tag = write_sized tag_size

  unfoldable pub write_methodid : Outcome Packet
  write_methodid = write_sized method_id_size

  unfoldable pub write_fieldid : Outcome Packet
  write_fieldid = write_sized field_id_size

  unfoldable pub write_objectid : Outcome Packet
  write_objectid = write_sized objectid_size

  unfoldable pub write_threadid : Outcome Packet
  write_threadid = write_sized thread_id_size

  unfoldable pub write_threadgroupid : Outcome Packet
  write_threadgroupid = write_sized thread_group_id_size

  unfoldable pub write_frameid : Outcome Packet
  write_frameid = write_sized frame_id_size

pub record Location : Type 0 where
  pub tag : ℕ
  pub class_id : ℕ
  pub method_id : ℕ
  pub index : ℕ

-- The block of the result is not modelled: a NULL from its `malloc` is undefined at the first
-- store, and so is every run (`read_u8`).
unfoldable pub read_location : Packet → Outcome (Location × Packet)
read_location p = do
  (tag, p) ← read_tag p
  (class_id, p) ← read_objectid p
  (method_id, p) ← read_methodid p
  (index, p) ← read_u8 p
  done (record { tag = tag; class_id = class_id; method_id = method_id; index = index }, p)

unfoldable pub write_location : Allocator → Packet → Location → Outcome Packet
write_location mem p loc = do
  p ← ensure_packet_cap mem p (tag_size + class_id_size + method_id_size + 8)
  p ← write_tag mem p loc.tag
  p ← write_objectid mem p loc.class_id
  p ← write_methodid mem p loc.method_id
  write_u8 mem p loc.index

-- `str[start] = b`.
abbrev pub store : List ℕ → ℕ → ℕ → Outcome (List ℕ)
store str start b = if ltb start (length str) then done (set str start b) else undefined

-- The loop of `read_str` at `start`, with `len - start` rounds left.
unfoldable pub read_str_loop : ℕ → ℕ → List ℕ → Packet → Outcome (List ℕ × Packet)
read_str_loop zero start str p = do str ← store str start 0; done (str, p)
read_str_loop (suc left) start str p = do
  (b, p) ← read_u1 p
  str ← store str start b
  read_str_loop left (start + 1) str p

unfoldable pub read_str : Allocator → Packet → Outcome (List ℕ × Packet)
read_str mem p = do
  (len, p) ← read_u4 p
  read_str_loop len 0 (block (mem.malloc (to_u32 (len + 1)))) p

-- The characters of a C string, one at a time.
unfoldable pub write_chars : Allocator → Packet → List ℕ → Outcome Packet
write_chars mem p [] = done p
write_chars mem p (c ∷ str) = do
  p ← of_size char_size (write_u1 mem p c) (write_u2 mem p c) (write_u4 mem p c) (write_u8 mem p c)
  write_chars mem p str

-- `str` is the string without its terminator, so `strlen` is its length.
unfoldable pub write_str : Allocator → Packet → List ℕ → Outcome Packet
write_str mem p str = do
  let len = to_u32 (length str)
  p ← ensure_packet_cap mem p (to_size (len + 4))
  p ← write_u4 mem p (to_u32 (len * char_size))
  write_chars mem p (take len str)
