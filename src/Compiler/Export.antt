-- ===== src/Compiler/Export.antt =====
-- `compiler_export` of libalca/compiler.c, as the bytes that it writes to the file.
use alca.Base.{ℕ, Option, List, [], ◌∷◌, Bytes, length}
use alca.HashMap.{HashMap}
use alca.Arena.{
  Arena, ac_arena_create, ac_arena_add_uint32, ac_arena_add_bytes, ac_arena_prepend_bytes,
}
use alca.Packet.{alca_magic, alca_version}
use alca.Compiler.Tables.{ModuleEntry, RuleEntry, SequenceEntry}
use alca.Compiler.Statements.{Compiler}

module _ {M : Type 0} where
  -- calls of `ac_arena_add_uint32` whose offsets are not used
  unfoldable pub add_words : List ℕ → Arena M → Arena M
  add_words [] file = file
  add_words (x ∷ xs) file = add_words xs (ac_arena_add_uint32 file x).0

  unfoldable pub add_modules : List ModuleEntry → Arena M → Arena M
  add_modules [] file = file
  add_modules (e ∷ entries) file =
      add_modules entries (add_words (e.ordinal ∷ e.version ∷ e.lname ∷ e.name_offset ∷ []) file)

  unfoldable pub add_rules : List RuleEntry → Arena M → Arena M
  add_rules [] file = file
  add_rules (e ∷ entries) file =
      add_rules entries
        (add_words (e.flags ∷ e.code_offset ∷ e.module_ordinal ∷ e.lname ∷ e.name_offset ∷ []) file)

  unfoldable pub add_sequences : List SequenceEntry → Arena M → Arena M
  add_sequences [] file = file
  add_sequences (e ∷ entries) file = add_sequences entries (
      add_words e.rule_indices
        (add_words (e.flags ∷ e.max_span ∷ e.rule_count ∷ e.lname ∷ e.name_offset ∷ []) file))

module _ {M : Type 0} ⦃h : HashMap Bytes ℕ M⦄ where
  -- the tables, in front of the data
  unfoldable pub export_tables : Compiler M → Arena M
  export_tables c =
      add_sequences c.sequence_table
        (add_rules c.rule_table (add_modules c.module_table (ac_arena_create 0)))

  unfoldable pub export_header : Compiler M → ℕ → ℕ → Arena M
  export_header c data_offset code_offset =
      add_words
        (alca_magic
          ∷ alca_version
          ∷ data_offset
          ∷ c.builder.strings.size
          ∷ code_offset
          ∷ c.builder.code.size
          ∷ length c.module_table
          ∷ length c.rule_table
          ∷ length c.sequence_table
          ∷ [])
        (ac_arena_create 0)

  -- the tables, the data and the code, with the offsets of the last two
  unfoldable pub export_body : Compiler M → Arena M × (ℕ × ℕ)
  export_body c =
      let (with_data, data_offset) =
        ac_arena_add_bytes (export_tables c) c.builder.strings.content in
      let (with_code, code_offset) = ac_arena_add_bytes with_data c.builder.code.content in
      (with_code, (data_offset, code_offset))

  -- The contents of the file; `none` is undefined behaviour. Opening and writing the file are left out.
  unfoldable pub compiler_export : Compiler M → Option (Arena M)
  compiler_export c =
      let (body, (data_offset, code_offset)) = export_body c in
      ac_arena_prepend_bytes body (export_header c data_offset code_offset).content
