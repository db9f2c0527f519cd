-- ===== src/Lib.antt =====
-- ALCA, a rule engine for events: rules are compiled to bytecode, and a virtual machine runs the code of the rules
-- that an event is for and reports the rules and the sequences of rules that are triggered.
--
-- The parts, and the files that model them:
-- - Base: what the files share. Base/Words: 32-bit words and their four bytes in memory, lowest first.
-- - HashMap: the calls of libalca/hashmap.c, a third-party copy, as an interface with its documented laws. Every
--   definition that uses a map takes an instance; Tests/Maps has one for concrete inputs.
-- - Arena: libalca/arena.c, the buffers of code and of strings (`ac_arena`), with the map of the strings that they hold.
--   Arena/Invariant and Arena/Strings have the proofs.
-- - Syntax: libalca/include/alca/types.h, tokens, expressions and statements, one constructor for each kind.
-- - Lexer: libalca/lexer.c. Lexer/Tokens has a function for each kind of token, Lexer/Scanner `lex_scanToken` and
--   `ac_lex_scan`. Lexer/Ends has what the loops leave of the source and where
--   they are undefined, Lexer/Complete and Lexer/Programs what one token's scan leaves, and Lexer/Total what the whole scan does.
-- - Checker: libalca/checker.c, the operators: the types that each takes and gives, and which types may meet.
-- - Parser: libalca/parser.c over the list of the tokens that are left. Parser/Expressions has the levels of expressions, from
--   `ac_psr_primary` to `ac_psr_and`, and Parser/Statements rules, sequences, imports and programs. Parser/Grammar and
--   Parser/Programs are the grammar that it accepts, as derivations; Parser/Outcomes and Parser/Loops chain the proofs of
--   single functions, which stand in Parser/Primary, Parser/Calls, Parser/Operators, Parser/Rules and Parser/Sequences, and
--   Parser/Total has the results.
-- - Context: libalca/context.c, the objects of modules with their fields, arrays and functions. A pointer to an
--   object is a number, and the context's `heap` has the objects.
-- - Bytecode/Opcode and Bytecode/Emit: libalca/include/alca/bytecode.h and libalca/bytecode.c. `Emit` is a call on
--   the builder (`ac_builder`) with its error code; `none` is a NULL pointer that is followed. Jumps are emitted and patched
--   as the source does.
-- - Compiler/Tables: the tables of libalca/compiler.c with the lookups in them. Compiler/Statements: the compiler's state, and
--   what it makes of the sources, of imports, rules and sequences, and of a whole program. Compiler/Export: the file that it
--   writes. Compiler/Programs and Compiler/RuleSets prove the compiled rules right, Compiler/Invariant, Compiler/Preserves and
--   Compiler/Bounds the tables, and Compiler/Layout and Compiler/Reader the file.
-- - Vm/Text, Vm/Operators and Vm/Machine: `ac_vm_exec_code` of libalca/vm.c. `Machine` is the stack, the
--   instruction pointer and the four accumulators; `step` is one round of the loop, with a function `exec_...` for each
--   group of cases. Vm/Run: runs of it as an indexed relation.
-- - Vm/Sequences and Vm/Exec: `vm_update_sequences`, `vm_report_triggered` and `ac_vm_exec`. Vm/SequenceOrder,
--   Vm/SequenceUpdate and Vm/Events have the proofs.
-- - Packet: libalca/packet.c and `ac_bswap` of libalca/utils.c.
-- - Semantics: the meaning of expressions, written on the tree and apart from the instructions.
-- - Correct: the compiler and the machine against that meaning, from one instruction (Correct/Instructions) over
--   the pieces of code of each expression to a rule (Correct/Rules) and an event (Correct/Events).
-- - Tests: the theorems at concrete inputs.
--
-- How the parts interact: the emitter writes into two arenas; the machine reads the code by offset and the strings
-- through the arena's map, the fields of an event through the context, and other rules through the compiler's table.
-- The scanner's tokens are what the parser asks for, and the parser's statements what the compiler takes; each rule
-- goes from the compiler to the emitter, and its entry with the offset of its code to the machine.
-- `ac_vm_exec` runs each rule whose module has the event's name, and tells the sequences of each that is triggered.
--
-- Bounds and fuel: words are taken modulo 4294967296 where the source's type is uint32_t. The loop of
-- `arena_extend` has as much fuel as the size that it is to reach, which is enough since each round adds 64. The
-- interpreter's loop has fuel for its rounds; the theorems on code that the compiler emitted say that some amount is
-- enough and that every larger one gives the same result. The stack holds 256 values; an expression's `depth` bounds what it
-- takes. A plain expression is one of literals, operators other than `matches`, groupings, fields and array items, with no
-- object but that of the rule's event.
--
-- The scanner's fuel counts tokens, which are not more than characters. The parser's fuel counts how deep expressions
-- stand inside each other, and bounds every loop on the way; more fuel than tokens is enough, since each step takes one.
--
-- Parameters of the model: PCRE2, the functions, the versions and the readers of event data that modules supply, the
-- clock, `strtoul` and LONG_MAX, and the hash map. Undefined behaviour of C (a NULL pointer that is followed, an access
-- behind the end of a block, a copy onto overlapping bytes, a union's member of another type, a division by zero, a shift by 32) is a value of its own (`none`, `fault`, `undefined`, `overrun`).
--
-- Not modelled: what the checker does with identifiers, calls, rules and sequences, and the compiler's driver, which chains reading files, parsing, checking and compiling; the
-- registration and the declarations of modules, the clearing of event data, the freeing of memory, the text of errors and
-- warnings, and the command line, which is C++ around the library. Calls, iterators and references to rules are parsed,
-- emitted and executed here, and stand outside the plain expressions; the operand types that the checker fills in are taken
-- as they stand in the tree.
pub mod Base
pub mod HashMap
pub mod Arena
pub mod Syntax
pub mod Bytecode
pub mod Context
pub mod Vm
pub mod Compiler
pub mod Semantics
pub mod Correct
pub mod Packet
pub mod Parser
pub mod Lexer
pub mod Checker
mod Tests
