-- ===== src/Packet.antt =====
-- jdwp/packetHandler.c: packets, their readers and writers.
pub mod Buffer
pub mod Append
pub mod RoundTrip
pub mod Ids
pub mod Utf
pub mod Header
pub mod Chain
