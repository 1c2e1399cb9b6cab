-- ===== src/Jdwp.antt =====
-- jdwp: the tables, the event queue and the command handlers of the debugger.
pub mod Types
pub mod Objects
pub mod Events
pub mod Session
pub mod Dispatch
pub mod Command
pub mod Machine
pub mod Files
pub mod Bases
