-- ===== src/Tests/Packets.antt =====
-- The theorems on packets at concrete inputs.
use sedona_vm_debug.Base.{true}
use sedona_vm_debug.Base.{
  ℕ, ◌+◌, ◌%◌, ◌^◌, ◌≡◌, refl, arith, List, [], ◌∷◌, ◌++◌, big_endian4, length,
}
use sedona_vm_debug.Memory.{undefined, done}
use sedona_vm_debug.Tests.{allocator, allocator-Grants, zeros}
use sedona_vm_debug.Packet.Buffer.{Packet, read_u4, write_u4}
use sedona_vm_debug.Packet.Append.{IsValid, Appends, Extends, ensure_packet_cap-Appends}
use sedona_vm_debug.Packet.Buffer.{ensure_packet_cap}
use sedona_vm_debug.Packet.RoundTrip.{ReadsBack, write_u4-ReadsBack}
use sedona_vm_debug.Packet.Ids.{Location, read_location, write_str}
use sedona_vm_debug.Packet.Ids.{
  read_tag, write_tag, read_methodid, write_methodid, read_fieldid, write_fieldid, read_objectid,
  write_objectid, read_threadid, write_threadid, read_threadgroupid, write_threadgroupid,
  read_frameid, write_frameid,
}
use sedona_vm_debug.Packet.Ids.Laws.{ids-ReadsBack, read_location-undefined}
use sedona_vm_debug.Packet.Ids.Strings.{ReadsWide, read_str-write_str}
use sedona_vm_debug.Packet.Utf.{write_utf, utf_size}
use sedona_vm_debug.Packet.Utf.Size.{encoding, write_utf-Appends, Advances, write_utf-utf_size}
use sedona_vm_debug.Packet.Utf.RoundTrip.{ReadsUtf, read_utf-write_utf}
use sedona_vm_debug.Packet.Utf.Wide.{Misreads, read_utf-write_utf_wide}
use sedona_vm_debug.Packet.Header.{new_command_packet}
use sedona_vm_debug.Packet.Header.Laws.{IsCommand, new_command_packet-IsCommand}
use sedona_vm_debug.Packet.Chain.{PacketList, write_list}
use sedona_vm_debug.Packet.Chain.Laws.{write_list-Extends, chain_bytes}

-- Two bytes are written, with room for six more; and a packet that is full.
abbrev buffer : Packet
buffer = record { contents = 7 ∷ 8 ∷ 0 ∷ 0 ∷ 0 ∷ 0 ∷ 0 ∷ 0 ∷ []; offset = 2; length = 8 }

buffer-IsValid : IsValid buffer
buffer-IsValid = record { block_size = refl; offset_fits = omega arith; size_limit = omega arith }

abbrev full : Packet
full = record { contents = 1 ∷ 2 ∷ 3 ∷ []; offset = 3; length = 3 }

full-IsValid : IsValid full
full-IsValid = record { block_size = refl; offset_fits = omega arith; size_limit = omega arith }

ensure_packet_cap-Appends_example : Appends allocator 4 full [] (ensure_packet_cap allocator full 4)
ensure_packet_cap-Appends_example =
    ensure_packet_cap-Appends allocator full 4 full-IsValid (omega arith)

write_u4-ReadsBack_example :
    ReadsBack allocator 4 read_u4 full (0x01020304 % 2 ^ 32) (write_u4 allocator full 0x01020304)
write_u4-ReadsBack_example = write_u4-ReadsBack allocator full 0x01020304 full-IsValid

ids-ReadsBack_example :
    ReadsBack allocator 1 read_tag buffer (300 % 2 ^ 8) (write_tag allocator buffer 300)
    × ReadsBack allocator 2 read_methodid buffer
        (300 % 2 ^ 16)
        (write_methodid allocator buffer 300)
    × ReadsBack allocator 2 read_fieldid buffer (300 % 2 ^ 16) (write_fieldid allocator buffer 300)
    × ReadsBack allocator 4 read_objectid buffer
        (300 % 2 ^ 32)
        (write_objectid allocator buffer 300)
    × ReadsBack allocator 4 read_threadid buffer
        (300 % 2 ^ 32)
        (write_threadid allocator buffer 300)
    × ReadsBack allocator 4 read_threadgroupid buffer
        (300 % 2 ^ 32)
        (write_threadgroupid allocator buffer 300)
    × ReadsBack allocator 4 read_frameid buffer (300 % 2 ^ 32) (write_frameid allocator buffer 300)
ids-ReadsBack_example = ids-ReadsBack allocator buffer 300 buffer-IsValid

abbrev place : Location
place = record { tag = 1; class_id = 70000; method_id = 513; index = 42 }

read_location-undefined_example : read_location buffer ≡ undefined
read_location-undefined_example = read_location-undefined buffer

read_str-write_str_example :
    ReadsWide allocator full (72 ∷ 105 ∷ []) (write_str allocator full (72 ∷ 105 ∷ []))
read_str-write_str_example =
    read_str-write_str allocator full (72 ∷ 105 ∷ []) (zeros 5) full-IsValid (omega arith)
      (omega arith, (omega arith, tt)) refl

-- A Latin letter and two Greek ones: five bytes, of which two thirds are three.
abbrev greek : List ℕ
greek = 65 ∷ 955 ∷ 956 ∷ []

write_utf-Appends_example :
    Appends allocator 0 full
      (big_endian4 (length (encoding greek)) ++ encoding greek)
      (write_utf allocator full greek)
write_utf-Appends_example = write_utf-Appends allocator full greek full-IsValid (omega arith)

write_utf-utf_size_example :
    Advances allocator (utf_size greek) full (write_utf allocator full greek)
write_utf-utf_size_example = write_utf-utf_size allocator full greek full-IsValid (omega arith)

read_utf-write_utf_example : ReadsUtf allocator full greek (write_utf allocator full greek)
read_utf-write_utf_example =
    read_utf-write_utf allocator full greek (zeros 6) full-IsValid (omega arith) refl
      ((omega arith, omega arith), ((omega arith, omega arith), ((omega arith, omega arith), tt)))

read_utf-write_utf_wide_example :
    Misreads allocator full 8364 (write_utf allocator full (8364 ∷ []))
read_utf-write_utf_wide_example =
    read_utf-write_utf_wide allocator full 8364 (zeros 4) full-IsValid (omega arith) (omega arith)
      refl

new_command_packet-IsCommand_example :
    (p : Packet) × (new_command_packet allocator true true 41 4 100 64
      ≡ done (p, (41 + 1) % 2 ^ 32))
    × IsCommand 41 4 100 64 p
new_command_packet-IsCommand_example =
    new_command_packet-IsCommand allocator 41 4 100 64 (zeros 15) (omega arith) refl

-- Two packets, the one added last first.
abbrev chain : PacketList
chain = record { head = full ∷ buffer ∷ []; size = 2 }

write_list-Extends_example :
    (q : Packet) × (write_list allocator buffer chain ≡ done q)
    × Extends 0 buffer (chain_bytes (full ∷ buffer ∷ [])) q
write_list-Extends_example =
    write_list-Extends allocator chain buffer buffer-IsValid (full-IsValid, (buffer-IsValid, tt))
      refl (omega arith) (omega arith) (λ a n h. allocator-Grants a n (omega arith))

-- A packet without a block.
abbrev blank : Packet
blank = record { contents = []; offset = 0; length = 0 }
