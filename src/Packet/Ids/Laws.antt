-- ===== src/Packet/Ids/Laws.antt =====
-- Identifiers, locations and strings: what is appended and what is read back.
use sedona_vm_debug.Base.{ℕ, ◌%◌, ◌^◌, ◌≡◌}
use sedona_vm_debug.Base.{List, [], ◌∷◌, ◌++◌, arith}
use sedona_vm_debug.Base.{big_endian2, big_endian4, big_endian8}
use sedona_vm_debug.Memory.{undefined, Allocator, bind-undefined}
use sedona_vm_debug.Packet.Buffer.{Packet}
use sedona_vm_debug.Packet.Append.{IsValid, Appends, ensure_packet_cap-Appends, Appends-bind}
use sedona_vm_debug.Packet.Append.{
  write_u1-Appends, write_u2-Appends, write_u4-Appends, write_u8-Appends,
}
use sedona_vm_debug.Packet.RoundTrip.{
  ReadsBack, read_u8-undefined, read_u1-NeverExits, read_u2-NeverExits, read_u4-NeverExits,
}
use sedona_vm_debug.Packet.RoundTrip.{write_u1-ReadsBack, write_u2-ReadsBack, write_u4-ReadsBack}
use sedona_vm_debug.Packet.Ids.{
  Location, write_location, read_location, write_tag, write_objectid, write_methodid,
}
use sedona_vm_debug.Packet.Ids.{
  read_tag, read_objectid, read_methodid, read_fieldid, read_threadid, read_threadgroupid,
  read_frameid,
}
use sedona_vm_debug.Packet.Ids.{write_fieldid, write_threadid, write_threadgroupid, write_frameid}

module _ (mem : Allocator) (p : Packet) (v : ℕ) (valid : IsValid p) where
  -- Each identifier of JDWP that is written at a valid packet is read back, cut to the size it is
  -- sent with: tags to a byte, methods and fields to two, objects, threads, thread groups and
  -- frames to four; or the process has exited since `realloc` gave NULL for a block of at most
  -- three times the bytes up to the end of the identifier.
  pub ids-ReadsBack :
      ReadsBack mem 1 read_tag p (v % 2 ^ 8) (write_tag mem p v)
      × ReadsBack mem 2 read_methodid p (v % 2 ^ 16) (write_methodid mem p v)
      × ReadsBack mem 2 read_fieldid p (v % 2 ^ 16) (write_fieldid mem p v)
      × ReadsBack mem 4 read_objectid p (v % 2 ^ 32) (write_objectid mem p v)
      × ReadsBack mem 4 read_threadid p (v % 2 ^ 32) (write_threadid mem p v)
      × ReadsBack mem 4 read_threadgroupid p (v % 2 ^ 32) (write_threadgroupid mem p v)
      × ReadsBack mem 4 read_frameid p (v % 2 ^ 32) (write_frameid mem p v)
  unfolding read_tag write_tag read_methodid write_methodid read_fieldid write_fieldid read_objectid
      write_objectid read_threadid write_threadid read_threadgroupid write_threadgroupid
      read_frameid write_frameid
  ids-ReadsBack = (
    write_u1-ReadsBack mem p v valid,
    write_u2-ReadsBack mem p v valid,
    write_u2-ReadsBack mem p v valid,
    write_u4-ReadsBack mem p v valid,
    write_u4-ReadsBack mem p v valid,
    write_u4-ReadsBack mem p v valid,
    write_u4-ReadsBack mem p v valid,
  )

-- The 15 bytes of a location.
abbrev pub location_bytes : Location → List ℕ
location_bytes loc =
    (loc.tag % 256 ∷ [])
    ++ (big_endian4 loc.class_id ++ (big_endian2 loc.method_id ++ big_endian8 loc.index))

-- `write_location` appends to a valid packet the 15 bytes of a location, its tag, class, method and
-- index in this order, or the process exits since `realloc` gave NULL.
pub write_location-Appends :
    (mem : Allocator) (p : Packet) (loc : Location)
    → IsValid p
    → Appends mem 0 p (location_bytes loc) (write_location mem p loc)
unfolding write_location write_tag write_objectid write_methodid
write_location-Appends mem p loc valid =
    Appends-bind (omega arith) (ensure_packet_cap-Appends mem p 15 valid (omega arith)) λ q e.
      Appends-bind (omega arith) (write_u1-Appends mem q loc.tag e.valid) λ q e.
        Appends-bind (omega arith) (write_u4-Appends mem q loc.class_id e.valid) λ q e.
          Appends-bind (omega arith) (write_u2-Appends mem q loc.method_id e.valid)
            λ q e. write_u8-Appends mem q loc.index e.valid

-- `read_location` runs into undefined behaviour on every packet, also on one that `write_location`
-- has filled: it ends in `read_u8`, which shifts an `int` by 56.
pub read_location-undefined : (p : Packet) → read_location p ≡ undefined
unfolding read_location read_tag read_objectid read_methodid
read_location-undefined p = bind-undefined (read_u1-NeverExits p) λ t.
    bind-undefined (read_u4-NeverExits t.1)
      λ c. bind-undefined (read_u2-NeverExits c.1) λ m. rw (read_u8-undefined m.1)
