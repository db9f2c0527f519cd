-- ===== src/Compiler/Layout.antt =====
-- The layout of the file that `compiler_export` writes, and a reader of the documented layout.
use alca.Base.{
  ℕ, ◌+◌, ◌<◌, ◌≡◌, refl, sym, ap, ◌∙◌, List, [], ◌∷◌, ◌++◌, append_assoc, append-nil, length,
  length-append, Bytes, arith,
}
use alca.Base.Words.{word_mod, wrap32, le_bytes}
use alca.HashMap.{HashMap}
use alca.Arena.{
  Arena, append_bytes, arena_extend, ac_arena_create, ac_arena_add_uint32, ac_arena_add_bytes,
}
use alca.Packet.{alca_magic, alca_version}
use alca.Compiler.Tables.{ModuleEntry, RuleEntry, SequenceEntry}
use alca.Compiler.Statements.{Compiler}
use alca.Compiler.Export.{
  add_words, add_modules, add_rules, add_sequences, export_tables, export_header, export_body,
}

-- the memory of words, and of the tables' entries
abbrev pub words : List ℕ → Bytes
words [] = []
words (x ∷ xs) = le_bytes x ++ words xs

abbrev pub write_all : {A : Type 0} → (A → Bytes) → List A → Bytes
write_all write [] = []
write_all write (e ∷ entries) = write e ++ write_all write entries

abbrev pub module_words : ModuleEntry → Bytes
module_words e = words (e.ordinal ∷ e.version ∷ e.lname ∷ e.name_offset ∷ [])

abbrev pub rule_words : RuleEntry → Bytes
rule_words e = words (e.flags ∷ e.code_offset ∷ e.module_ordinal ∷ e.lname ∷ e.name_offset ∷ [])

abbrev pub sequence_words : SequenceEntry → Bytes
sequence_words e =
    words (e.flags ∷ e.max_span ∷ e.rule_count ∷ e.lname ∷ e.name_offset ∷ [])
    ++ words e.rule_indices

-- An arena whose bytes are these, and whose size is their number modulo 2^32.
record Holds {M : Type 0} (a : Arena M) (bytes : Bytes) : Type 0 where
  content : a.content ≡ bytes
  size : a.size ≡ wrap32 (length bytes)

append_bytes-Holds :
    {M : Type 0} {a : Arena M} {xs : Bytes} (ys : Bytes)
    → Holds a xs
    → Holds (append_bytes a ys) (xs ++ ys)
unfolding append_bytes arena_extend
append_bytes-Holds {xs = xs} ys p = record {
  content = ap (λ (z : Bytes). z ++ ys) p.content;
  size = omega (arith, p.size, length-append xs ys);
}

Holds-to : {M : Type 0} {a : Arena M} {xs ys : Bytes} → xs ≡ ys → Holds a xs → Holds a ys
Holds-to e p = record {
  content = p.content ∙ e;
  size = p.size ∙ ap (λ (z : Bytes). wrap32 (length z)) e;
}

add_words-Holds :
    {M : Type 0} (ws : List ℕ) {a : Arena M} {xs : Bytes}
    → Holds a xs
    → Holds (add_words ws a) (xs ++ words ws)
unfolding add_words ac_arena_add_uint32
add_words-Holds [] {xs = xs} p = Holds-to (sym (append-nil xs)) p
add_words-Holds (w ∷ ws) {xs = xs} p =
    Holds-to (append_assoc xs (le_bytes w) (words ws))
      (add_words-Holds ws (append_bytes-Holds (le_bytes w) p))

add_modules-Holds :
    {M : Type 0} (entries : List ModuleEntry) {a : Arena M} {xs : Bytes}
    → Holds a xs
    → Holds (add_modules entries a) (xs ++ write_all module_words entries)
unfolding add_modules
add_modules-Holds [] {xs = xs} p = Holds-to (sym (append-nil xs)) p
add_modules-Holds (e ∷ entries) {xs = xs} p =
    Holds-to
      (append_assoc xs (words (e.ordinal ∷ e.version ∷ e.lname ∷ e.name_offset ∷ []))
        (write_all module_words entries))
      (add_modules-Holds entries
        (add_words-Holds (e.ordinal ∷ e.version ∷ e.lname ∷ e.name_offset ∷ []) p))

add_rules-Holds :
    {M : Type 0} (entries : List RuleEntry) {a : Arena M} {xs : Bytes}
    → Holds a xs
    → Holds (add_rules entries a) (xs ++ write_all rule_words entries)
unfolding add_rules
add_rules-Holds [] {xs = xs} p = Holds-to (sym (append-nil xs)) p
add_rules-Holds (e ∷ entries) {xs = xs} p =
    Holds-to
      (append_assoc xs
        (words (e.flags ∷ e.code_offset ∷ e.module_ordinal ∷ e.lname ∷ e.name_offset ∷ []))
        (write_all rule_words entries))
      (add_rules-Holds entries (
        add_words-Holds (e.flags ∷ e.code_offset ∷ e.module_ordinal ∷ e.lname ∷ e.name_offset ∷ [])
          p))

add_sequences-Holds :
    {M : Type 0} (entries : List SequenceEntry) {a : Arena M} {xs : Bytes}
    → Holds a xs
    → Holds (add_sequences entries a) (xs ++ write_all sequence_words entries)
unfolding add_sequences
add_sequences-Holds [] {xs = xs} p = Holds-to (sym (append-nil xs)) p
add_sequences-Holds (e ∷ entries) {xs = xs} p =
    let ws = words (e.flags ∷ e.max_span ∷ e.rule_count ∷ e.lname ∷ e.name_offset ∷ []) in
    Holds-to
      (ap (λ (z : Bytes). z ++ write_all sequence_words entries)
          (append_assoc xs ws (words e.rule_indices))
        ∙ append_assoc xs (ws ++ words e.rule_indices) (write_all sequence_words entries))
      (add_sequences-Holds entries (
        add_words-Holds e.rule_indices
          (add_words-Holds (e.flags ∷ e.max_span ∷ e.rule_count ∷ e.lname ∷ e.name_offset ∷ []) p)))

abbrev pub table_words : {M : Type 0} → Compiler M → Bytes
table_words c =
    (write_all module_words c.module_table ++ write_all rule_words c.rule_table)
    ++ write_all sequence_words c.sequence_table

-- the header with the offset of the data
abbrev pub header_words : {M : Type 0} → Compiler M → ℕ → List ℕ
header_words c data_offset =
    alca_magic
    ∷ alca_version
    ∷ data_offset
    ∷ c.builder.strings.size
    ∷ (data_offset + length c.builder.strings.content)
    ∷ c.builder.code.size
    ∷ length c.module_table
    ∷ length c.rule_table
    ∷ length c.sequence_table
    ∷ []

module _ {M : Type 0} ⦃h : HashMap Bytes ℕ M⦄ where
  create-Holds : Holds {M = M} (ac_arena_create 0) []
  unfolding ac_arena_create
  create-Holds = record { content = refl; size = refl }

  tables-Holds : (c : Compiler M) → Holds (export_tables c) (table_words c)
  unfolding export_tables
  tables-Holds c =
      add_sequences-Holds c.sequence_table
        (add_rules-Holds c.rule_table (add_modules-Holds c.module_table create-Holds))

  header_and :
      (c : Compiler M) (d e : ℕ) (rest : Bytes)
      → d ≡ length (table_words c)
      → e ≡ length (table_words c) + length c.builder.strings.content
      → (export_header c d e).content ++ rest
        ≡ words (header_words c (length (table_words c))) ++ rest
  unfolding export_header
  header_and c d e rest p q =
      rw (p, q)
        (ap (λ (z : Bytes). z ++ rest)
          (add_words-Holds (header_words c (length (table_words c))) create-Holds).content)

  -- the header's bytes, and the body's behind them
  abbrev pub joined : Compiler M → Bytes
  joined c =
      (export_header c (export_body c).1.0 (export_body c).1.1).content ++ (export_body c).0.content

  pub header_length : (c : Compiler M) (d e : ℕ) → length (export_header c d e).content ≡ 36
  unfolding export_header add_words ac_arena_add_uint32 append_bytes arena_extend ac_arena_create
      le_bytes
  header_length c d e = refl

  -- What is to be written is the header, the tables, the data and the code, where tables and data are together fewer
  -- than 2^32 bytes. The data's offset in the header is the number of the tables' bytes, and the code's is behind the
  -- data: neither counts the header's 36 bytes.
  pub joined-layout :
      (c : Compiler M)
      → length (table_words c) + length c.builder.strings.content < word_mod
      → joined c
        ≡ words (header_words c (length (table_words c)))
          ++ ((table_words c ++ c.builder.strings.content) ++ c.builder.code.content)
  unfolding export_body ac_arena_add_bytes
  joined-layout c l =
      let t = tables-Holds c in
      let d = append_bytes-Holds c.builder.strings.content t in
      let e = append_bytes-Holds c.builder.code.content d in
      let s : (export_tables c).size ≡ length (table_words c) = omega (arith, t.size) in
      let s' : (append_bytes (export_tables c) c.builder.strings.content).size
          ≡ length (table_words c) + length c.builder.strings.content =
        omega (arith, d.size, length-append (table_words c) c.builder.strings.content) in
      header_and c _ _ _ s s'
      ∙ ap (λ (z : Bytes). words (header_words c (length (table_words c))) ++ z) e.content
