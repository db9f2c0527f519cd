-- ===== src/Bytecode.antt =====
-- libalca/bytecode.c and include/alca/bytecode.h: the instructions, and the code emitted for a rule.
pub mod Opcode
pub mod Emit
