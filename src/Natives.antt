-- ===== src/Natives.antt =====
-- The native methods of the kit sys, in natives/: components' slots, and bytes and tests.
pub mod Component
pub mod Sys
pub mod Sockets
