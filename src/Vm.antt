-- ===== src/Vm.antt =====
-- libalca/vm.c: the interpreter, the execution of an event's rules, and the sequences.
pub mod Text
pub mod Operators
pub mod Machine
pub mod Run
pub mod Sequences
pub mod Exec
pub mod Events
pub mod SequenceOrder
pub mod SequenceUpdate
