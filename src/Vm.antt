-- ===== src/Vm.antt =====
-- svm/vm.c: the virtual machine.
pub mod Word
pub mod Opcode
pub mod Machine
pub mod Exec
pub mod Fields
pub mod Loop
pub mod Regular
pub mod Init
pub mod Frames
pub mod Effects
