-- ===== src/Compiler.antt =====
-- libalca/compiler.c: the tables of rules, modules and sequences.
pub mod Tables
pub mod Lookup
pub mod Statements
pub mod Export
pub mod Layout
pub mod Reader
pub mod Invariant
pub mod Preserves
pub mod Bounds
pub mod Programs
pub mod RuleSets
