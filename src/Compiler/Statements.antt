-- ===== src/Compiler/Statements.antt =====
-- libalca/compiler.c: the compiler's state, and the functions that compile import, rule and sequence statements.
use alca.Base.{
  ℕ, ◌+◌, ◌-◌, Bool, true, false, not, Option, none, some, List, [], ◌∷◌, ◌++◌, ◌==◌, if◌then◌else◌,
  length, Bytes,
}
use alca.Base.Words.{word_mod}
use alca.HashMap.{HashMap}
use alca.Arena.{ac_arena_add_string, ac_arena_find_string}
use alca.Syntax
use alca.Syntax.{Token, Rule, Statement}
use alca.Context.{ac_context_get_module}
use alca.Parser.{returned, null, stuck, out_of_fuel}
use alca.Parser.Statements.{ac_psr_parse}
use alca.Bytecode.Emit.{Builder, ac_bytecode_emit_rule}
use alca.Compiler.Tables.{
  ModuleEntry, RuleEntry, SequenceEntry, sequence_rule, private_rule, compiler_find_module_ordinal,
  ac_compiler_find_rule_idx_by_name,
}

-- `ac_compiler`. A source is the tokens of its lexer, `asts` is none where it is NULL, and of an error the code is kept.
-- Both arenas and the context stand in the builder, which shares them with the compiler.
pub record Compiler (M : Type 0) : Type 0 where
  pub builder : Builder M
  pub sources : List (List Token)
  pub asts : Option (List (List Statement))
  pub module_table : List ModuleEntry
  pub rule_table : List RuleEntry
  pub sequence_table : List SequenceEntry
  pub errors : List ℕ
  pub locked : Bool
  pub done : Bool

-- the loop of `ac_compiler_build_ast`: the trees, or the code of the first source that does not parse
unfoldable pub parse_sources : ℕ → List (List Token) → Option (List (List Statement) × ℕ)
parse_sources fuel [] = some ([], 0)
parse_sources fuel (source ∷ sources) =
    let others = parse_sources fuel sources in
    elim (ac_psr_parse fuel source) [
      | returned ast _ ↦ elim others [ none ↦ none | some (asts, code) ↦ some (ast ∷ asts, code) ]
      | null p ↦ some ([], p.error)
      | stuck ↦ none
      | out_of_fuel ↦ none
    ]

abbrev pub concat : List (List Statement) → List Statement
concat [] = []
concat (ast ∷ asts) = ast ++ concat asts

module _ {M : Type 0} where
  unfoldable pub compiler_add_error : ℕ → Compiler M → Compiler M
  compiler_add_error code c = record c { errors = c.errors ++ (code ∷ []) }

  unfoldable pub compiler_add_module_entry : ModuleEntry → Compiler M → Compiler M
  compiler_add_module_entry entry c = record c { module_table = c.module_table ++ (entry ∷ []) }

  -- the entry's index, and the compiler behind it
  unfoldable pub compiler_add_rule_entry : RuleEntry → Compiler M → Compiler M × ℕ
  compiler_add_rule_entry entry c =
      (record c { rule_table = c.rule_table ++ (entry ∷ []) }, length c.rule_table)

  unfoldable pub compiler_add_sequence_entry : SequenceEntry → Compiler M → Compiler M
  compiler_add_sequence_entry entry c = record c {
    sequence_table = c.sequence_table ++ (entry ∷ []);
  }

  unfoldable pub ac_compiler_build_ast : ℕ → Compiler M → Option (Compiler M × ℕ)
  ac_compiler_build_ast fuel c =
      if c.locked then some (c, 17) else elim (parse_sources fuel c.sources) [
        | none ↦ none
        | some (asts, code) ↦
            (if code == 0
              then some (record c { asts = some asts; locked = true }, 0)
              else some (compiler_add_error code c, 1))
      ]

-- the two flags of a rule's entry
unfoldable pub rule_flags : Bool → Bool → ℕ
rule_flags is_private seq_rule =
    (if is_private then private_rule else 0) + (if seq_rule then sequence_rule else 0)

-- the event type of a rule, where it has one; none where its token has no text
unfoldable pub event_name : Option Token → Option (Option Bytes)
event_name none = some none
event_name (some t) = elim t.value [ Syntax.text s ↦ some (some s) | _ ↦ none ]

module _ {M : Type 0} ⦃h : HashMap Bytes ℕ M⦄ where
  -- `ac_arena_add_string` on the data section, with the string's length
  unfoldable pub add_name : Bytes → Compiler M → Compiler M × ℕ
  add_name s c =
      let (strings, offset) = ac_arena_add_string c.builder.strings s (length s) in
      (record c { builder = record c.builder { strings = strings } }, offset)

  -- `version` is that of the module object that the module's load callback makes.
  unfoldable pub compiler_compile_import :
      (Bytes → ℕ) → Token → Compiler M → Option (Compiler M × ℕ)
  compiler_compile_import version t c = elim t.value [
    | Syntax.text name ↦
        if ac_arena_find_string c.builder.strings name == word_mod - 1
        then (let (c₁, offset) = add_name name c in
            if not (ac_context_get_module c₁.builder.ctx name)
            then some (c₁, 14)
            else some (
              compiler_add_module_entry
                  (record {
                    ordinal = length c₁.module_table + 1;
                    version = version name;
                    lname = length name;
                    name_offset = offset;
                  })
                  c₁,
              0,
            ))
        else some (c, 0)
    | _ ↦ none
  ]

  -- The name of a rule in a sequence is not added: its length and its offset are 0.
  unfoldable pub rule_name : Bool → Token → Compiler M → Option (Compiler M × (ℕ × ℕ))
  rule_name seq_rule t c = elim seq_rule [
    | true ↦ some (c, (0, 0))
    | false ↦ elim t.value [
      | Syntax.text name ↦ let (c₁, offset) = add_name name c in some (c₁, (length name, offset))
      | _ ↦ none
    ]
  ]

  -- Behind the lookup of the module: the code, and the rule's entry. The last component is what is written into `*idx`.
  unfoldable pub emit_entry :
      Rule → Bool → ℕ → ℕ → ℕ → Compiler M → Option (Compiler M × (ℕ × Option ℕ))
  emit_entry r seq_rule lname offset ordinal c = elim (ac_bytecode_emit_rule r c.builder) [
    | none ↦ none
    | some (b, status) ↦
        (if not (status == 0)
          then some (record c { builder = b }, (status, none))
          else (let (c₁, idx) =
                compiler_add_rule_entry
                  (record {
                    flags = rule_flags r.is_private seq_rule;
                    code_offset = c.builder.code.size;
                    module_ordinal = ordinal;
                    lname = lname;
                    name_offset = offset;
                  })
                  (record c { builder = b }) in
              some (c₁, (0, some idx))))
  ]

  -- Behind the rule's name: its module, which must have been imported, and its code.
  unfoldable pub rule_entry :
      Rule → Bool → ℕ → ℕ → Compiler M → Option (Compiler M × (ℕ × Option ℕ))
  rule_entry r seq_rule lname offset c = elim (event_name r.event) [
    | none ↦ none
    | some event ↦ elim (compiler_find_module_ordinal c.builder.strings c.module_table event) [
      | none ↦ some (compiler_add_error 14 c, (1, none))
      | some ordinal ↦ emit_entry r seq_rule lname offset ordinal c
    ]
  ]

  unfoldable pub compiler_compile_rule :
      Rule → Bool → Compiler M → Option (Compiler M × (ℕ × Option ℕ))
  compiler_compile_rule r seq_rule c = elim (rule_name seq_rule r.name c) [
    | none ↦ none
    | some (c₁, (lname, offset)) ↦ rule_entry r seq_rule lname offset c₁
  ]

  -- One round of the loop over the rules of a sequence: the index, which stays 0 where none is written, and the
  -- error so far.
  unfoldable pub rule_index : Rule → Compiler M → ℕ → Option (Compiler M × (ℕ × ℕ))
  rule_index r c err =
      if r.external
      then elim r.name.value [
        | Syntax.text name ↦
            elim (ac_compiler_find_rule_idx_by_name c.builder.strings c.rule_table name) [
              | none ↦ some (c, (0, err))
              | some i ↦ some (c, (i, err))
            ]
        | _ ↦ none
      ]
      else elim (compiler_compile_rule r true c) [
        | none ↦ none
        | some (c₁, (rc, idx)) ↦
            some (c₁, (elim idx [ none ↦ 0 | some i ↦ i ], (if rc == 0 then err else rc)))
      ]

  unfoldable pub rule_indices : List Rule → Compiler M → ℕ → Option (Compiler M × (List ℕ × ℕ))
  rule_indices [] c err = some (c, ([], err))
  rule_indices (r ∷ rules) c err = elim (rule_index r c err) [
    | none ↦ none
    | some (c₁, (i, err₁)) ↦ elim (rule_indices rules c₁ err₁) [
      | none ↦ none
      | some (c₂, (indices, err₂)) ↦ some (c₂, (i ∷ indices, err₂))
    ]
  ]

  unfoldable pub compiler_compile_sequence :
      Token → ℕ → List Rule → Compiler M → Option (Compiler M × ℕ)
  compiler_compile_sequence t max_span rules c = elim t.value [
    | Syntax.text name ↦
        let (c₁, offset) = add_name name c in
        elim (rule_indices rules c₁ 0) [
          | none ↦ none
          | some (c₂, (indices, err)) ↦ some (
            compiler_add_sequence_entry
                (record {
                  flags = 0;
                  max_span = max_span;
                  rule_count = length rules;
                  lname = length name;
                  name_offset = offset;
                  rule_indices = indices;
                })
                c₂,
            err,
          )
        ]
    | _ ↦ none
  ]

  unfoldable pub compile_statement : (Bytes → ℕ) → Statement → Compiler M → Option (Compiler M × ℕ)
  compile_statement version (Syntax.import t) c = compiler_compile_import version t c
  compile_statement version (Syntax.rule r) c = elim (compiler_compile_rule r false c) [
    | none ↦ none
    | some (c₁, (code, _)) ↦ some (c₁, code)
  ]
  compile_statement version (Syntax.sequence t span rules) c =
      compiler_compile_sequence t span rules c

  -- the loop of `compiler_compile_statements`; `err` is the last error so far
  unfoldable pub compile_all :
      (Bytes → ℕ) → List Statement → Compiler M → ℕ → Option (Compiler M × ℕ)
  compile_all version [] c err = some (c, err)
  compile_all version (s ∷ statements) c err = elim (compile_statement version s c) [
    | none ↦ none
    | some (c₁, code) ↦ compile_all version statements c₁ (if code == 0 then err else code)
  ]

  unfoldable pub compiler_compile_statements : (Bytes → ℕ) → Compiler M → Option (Compiler M × ℕ)
  compiler_compile_statements version c = elim c.asts [
    | none ↦ some (c, 21)
    | some asts ↦
        (if c.done
          then some (c, 19)
          else compile_all version (concat asts) (record c { done = true }) 0)
  ]
