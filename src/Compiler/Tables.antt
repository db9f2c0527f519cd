-- ===== src/Compiler/Tables.antt =====
-- The entries of the compiler's tables (include/alca/compiler.h) and the lookups in them.
use alca.Base.{
  ℕ, ◌+◌, Bool, false, Option, none, some, List, [], ◌∷◌, if◌then◌else◌, take, Bytes, bytes_eq,
}
use alca.HashMap.{HashMap}
use alca.Arena.{Arena, ac_arena_get_string}

pub record ModuleEntry : Type 0 where
  pub ordinal : ℕ
  pub version : ℕ
  pub lname : ℕ
  pub name_offset : ℕ

pub record RuleEntry : Type 0 where
  pub flags : ℕ
  pub code_offset : ℕ
  pub module_ordinal : ℕ
  pub lname : ℕ
  pub name_offset : ℕ

pub record SequenceEntry : Type 0 where
  pub flags : ℕ
  pub max_span : ℕ
  pub rule_count : ℕ
  pub lname : ℕ
  pub name_offset : ℕ
  pub rule_indices : List ℕ

-- AC_SEQUENCE_RULE and AC_PRIVATE_RULE
abbrev pub sequence_rule : ℕ
sequence_rule = 1

abbrev pub private_rule : ℕ
private_rule = 2

module _ {M : Type 0} ⦃h : HashMap Bytes ℕ M⦄ where
  -- the test in the loop of `__ac_compiler_find_rule_idx_by_name`
  abbrev pub has_name : Arena M → Bytes → RuleEntry → Bool
  has_name strings name entry = elim (ac_arena_get_string strings entry.name_offset) [
    | none ↦ false
    | some s ↦ bytes_eq s name
  ]

  -- the loop from index `i` on; `none` is -1
  unfoldable pub find_rule_from : Arena M → Bytes → ℕ → List RuleEntry → Option ℕ
  find_rule_from strings name i [] = none
  find_rule_from strings name i (entry ∷ entries) =
      if has_name strings name entry then some i else find_rule_from strings name (i + 1) entries

  unfoldable pub ac_compiler_find_rule_idx_by_name : Arena M → List RuleEntry → Bytes → Option ℕ
  ac_compiler_find_rule_idx_by_name strings table name = find_rule_from strings name 0 table

  -- The ordinal of the first module whose name agrees with the given one on as many bytes as it has;
  -- `none` is AC_ERROR_UNSUCCESSFUL.
  unfoldable pub find_ordinal_from : Arena M → List ModuleEntry → Bytes → Option ℕ
  find_ordinal_from strings [] name = none
  find_ordinal_from strings (entry ∷ entries) name =
      let rest = find_ordinal_from strings entries name in
      elim (ac_arena_get_string strings entry.name_offset) [
        | none ↦ rest
        | some s ↦
            (if bytes_eq (take entry.lname s) (take entry.lname name)
              then some entry.ordinal
              else rest)
      ]

  -- A rule without a module, whose name is NULL, has the ordinal 0.
  unfoldable pub compiler_find_module_ordinal : Arena M → List ModuleEntry → Option Bytes → Option ℕ
  compiler_find_module_ordinal strings table none = some 0
  compiler_find_module_ordinal strings table (some name) = find_ordinal_from strings table name
