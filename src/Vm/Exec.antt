-- ===== src/Vm/Exec.antt =====
-- svm/vm.c: the cases of the switch, by group.
pub mod Values
pub mod Arith
pub mod Jumps
pub mod Storage
pub mod Calls
pub mod Misc
