-- ===== src/Correct.antt =====
-- The compiler against the meaning of expressions: what `ac_bytecode_emit_rule` emits for a plain
-- expression makes `ac_vm_exec_code` compute its value.
pub mod Appends
pub mod Runs
pub mod Pieces
pub mod Instructions
pub mod Operators
pub mod Jumps
pub mod And
pub mod Literals
pub mod Fields
pub mod Compile
pub mod Rules
pub mod Events
pub mod Sessions
