-- ===== src/Tests.antt =====
-- Concrete inputs, and the theorems at them.
pub mod Maps
pub mod Rules
mod Sequences
mod Data
mod Programs
mod Compiling
mod Sources
mod Types
