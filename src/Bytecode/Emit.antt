-- ===== src/Bytecode/Emit.antt =====
-- libalca/bytecode.c: the code emitted for an expression and for a rule.
use alca.Base.{
  ℕ, ◌+◌, Bool, not, ◌||◌, Option, none, some, ◌∷◌, ◌==◌, if◌then◌else◌, length, Bytes, bytes_eq,
}
use alca.Base.Words.{wrap32, le_bytes}
use alca.HashMap.{HashMap}
use alca.Arena.{
  Arena, ac_arena_add_string, ac_arena_replace_bytes, ac_arena_add_code, ac_arena_add_code_with_arg,
}
use alca.Syntax
use alca.Syntax.{TokenType, same_type, Token, TokenValue, Expr, Args, Range, Rule}
use alca.Context.{Context, has_flag, type_array, type_struct, type_function, ac_context_get_module}
use alca.Bytecode.Opcode.{Opcode, op_code}

-- `ac_builder`
pub record Builder (M : Type 0) : Type 0 where
  pub module_name : Option Bytes
  pub iter : Option Bytes
  pub code : Arena M
  pub strings : Arena M
  pub ctx : Context M

-- A call on the builder, with its error code. `none` is undefined behaviour, a NULL pointer that is
-- followed.
abbrev pub Emit : Type 0 → Type 0
Emit M = Builder M → Option (Builder M × ℕ)

-- `if ((err = first) != AC_ERROR_SUCCESS) return err; next`
abbrev pub and_then : {M : Type 0} → Option (Builder M × ℕ) → Emit M → Option (Builder M × ℕ)
and_then none next = none
and_then (some (b, e)) next = if e == 0 then next b else some (b, e)

-- `first; next`, where the error code of the first is dropped
abbrev pub dropping_error : {M : Type 0} → Option (Builder M × ℕ) → Emit M → Option (Builder M × ℕ)
dropping_error none next = none
dropping_error (some (b, e)) next = next b

module _ {M : Type 0} where
  -- `ac_arena_add_code(builder->code, op)` and `ac_arena_add_code_with_arg(builder->code, op, arg)`
  unfoldable pub emit_code : Opcode → Builder M → Builder M
  emit_code op b = record b { code = (ac_arena_add_code b.code (op_code op)).0 }

  unfoldable pub emit_arg : Opcode → ℕ → Builder M → Builder M
  emit_arg op x b = record b { code = (ac_arena_add_code_with_arg b.code (op_code op) x).0 }

  -- the macro `patch`
  unfoldable pub patch : ℕ → Opcode → ℕ → Builder M → Builder M
  patch offset op address b = record b {
    code = ac_arena_replace_bytes b.code offset (op_code op ∷ le_bytes address);
  }

-- the instruction of a unary operator; `none` is the default case
unfoldable pub unary_opcode : TokenType → Option Opcode
unary_opcode Syntax.bang = some Opcode.notl
unary_opcode Syntax.not_kw = some Opcode.notl
unary_opcode Syntax.bitnot = some Opcode.not_op
unary_opcode Syntax.minus = some Opcode.neg
unary_opcode Syntax.hash = some Opcode.strlen
unary_opcode _ = none

unfoldable pub is_bool_type : TokenType → Bool
is_bool_type t = same_type t Syntax.true_kw || same_type t Syntax.false_kw

-- the instruction of a binary operator, given the operand type that the checker noted
unfoldable pub binary_opcode : TokenType → TokenType → Option Opcode
binary_opcode Syntax.and_kw t = some Opcode.andl
binary_opcode Syntax.or_kw t = some Opcode.orl
binary_opcode Syntax.plus t = some Opcode.add
binary_opcode Syntax.minus t = some Opcode.sub
binary_opcode Syntax.mult t = some Opcode.mul
binary_opcode Syntax.div t = some Opcode.div
binary_opcode Syntax.modulo t = some Opcode.mod_op
binary_opcode Syntax.shl t = some Opcode.shl
binary_opcode Syntax.shr t = some Opcode.shr
binary_opcode Syntax.bitand t = some Opcode.and_op
binary_opcode Syntax.bitxor t = some Opcode.xor
binary_opcode Syntax.pipe t = some Opcode.or_op
binary_opcode Syntax.contains t = some Opcode.contains
binary_opcode Syntax.icontains t = some Opcode.icontains
binary_opcode Syntax.startswith t = some Opcode.startswith
binary_opcode Syntax.istartswith t = some Opcode.istartswith
binary_opcode Syntax.endswith t = some Opcode.endswith
binary_opcode Syntax.iendswith t = some Opcode.iendswith
binary_opcode Syntax.iequals t = some Opcode.iequals
binary_opcode Syntax.matches t = some Opcode.matches
binary_opcode Syntax.greater t = some Opcode.gt
binary_opcode Syntax.less t = some Opcode.lt
binary_opcode Syntax.greater_equal t = some Opcode.gte
binary_opcode Syntax.less_equal t = some Opcode.lte
binary_opcode Syntax.equal_equal t =
    if same_type t Syntax.string
    then some Opcode.streq
    else if is_bool_type t
    then some Opcode.booleq
    else some Opcode.inteq
binary_opcode Syntax.bang_equal t =
    if same_type t Syntax.string
    then some Opcode.strne
    else if is_bool_type t
    then some Opcode.boolne
    else some Opcode.intne
binary_opcode _ t = none

module _ {M : Type 0} where
  unfoldable pub emit_operator : Option Opcode → Builder M → Builder M
  emit_operator none b = b
  emit_operator (some op) b = emit_code op b

  unfoldable pub bytecode_emit_unary : Token → Emit M → Emit M
  bytecode_emit_unary op right b =
      and_then (right b) λ b₁. some (emit_operator (unary_opcode op.type) b₁, 0)

  -- what is emitted between the operands of `and`: `if (!left) { push false; skip right }`.
  -- The jump over the right operand gets its address by `patch`.
  unfoldable pub emit_and_jumps : Builder M → Builder M
  emit_and_jumps b =
      emit_arg Opcode.jmp 0
        (emit_arg Opcode.pushbool 0 (emit_arg Opcode.jtrue (wrap32 (b.code.size + 15)) b))

  -- the offset of that jump, which is the third instruction
  unfoldable pub and_jump_offset : Builder M → ℕ
  and_jump_offset b =
      (emit_arg Opcode.pushbool 0 (emit_arg Opcode.jtrue (wrap32 (b.code.size + 15)) b)).code.size

  unfoldable pub bytecode_emit_binary : Emit M → Token → Emit M → TokenType → Emit M
  bytecode_emit_binary left op right operand_type b = and_then (left b) λ b₁.
      let is_and = same_type op.type Syntax.and_kw in
      and_then (right (if is_and then emit_and_jumps b₁ else b₁)) λ b₂.
        let b₃ = if is_and then patch (and_jump_offset b₁) Opcode.jmp b₂.code.size b₂ else b₂ in
        some (emit_operator (binary_opcode op.type operand_type) b₃, 0)

  unfoldable pub bytecode_emit_index : Emit M → Emit M → Emit M
  bytecode_emit_index object index b =
      and_then (object b) λ b₁. and_then (index b₁) λ b₂. some (emit_code Opcode.index b₂, 0)

  unfoldable pub bytecode_emit_call : Emit M → Emit M → ℕ → Emit M
  bytecode_emit_call arguments callee arg_count b = and_then (arguments b) λ b₁.
      and_then (callee (emit_arg Opcode.pushint arg_count b₁))
        λ b₂. some (emit_code Opcode.call b₂, 0)

-- whether a field stands for a value, which OP_OBJECT then loads
abbrev pub is_scalar : ℕ → Bool
is_scalar type =
    not (has_flag type type_array || has_flag type type_struct || has_flag type type_function)

module _ {M : Type 0} ⦃h : HashMap Bytes ℕ M⦄ where
  -- `ac_arena_add_string(builder->data, s, strlen(s))`
  unfoldable pub intern : Bytes → Builder M → Builder M × ℕ
  intern s b =
      let (d, offset) = ac_arena_add_string b.strings s (length s) in
      (record b { strings = d }, offset)

  unfoldable pub emit_string_arg : Opcode → Bytes → Builder M → Builder M
  emit_string_arg op s b = let (b₁, offset) = intern s b in emit_arg op offset b₁

  -- an identifier: the module, the variable of an iterator, or else a rule
  unfoldable pub emit_identifier : Bytes → Option Bytes → Option Bytes → Emit M
  emit_identifier name none iter b = some ((intern name b).0, 0)
  emit_identifier name (some m) iter b =
      if bytes_eq name m then some (emit_string_arg Opcode.pushmodule name b, 0) else elim iter [
        | none ↦ none
        | some i ↦
            if bytes_eq name i
            then some (emit_arg Opcode.load 0 (intern name b).0, 0)
            else some (emit_string_arg Opcode.rule name b, 0)
      ]

  -- A literal whose value pointer is NULL, or of another kind than its type says, is undefined.
  unfoldable pub emit_literal : TokenType → TokenValue → ℕ → Emit M
  emit_literal Syntax.identifier (Syntax.text name) flags b =
      emit_identifier name b.module_name b.iter b
  emit_literal Syntax.number (Syntax.word n) flags b = some (emit_arg Opcode.pushint n b, 0)
  emit_literal Syntax.string (Syntax.text s) flags b =
      some (emit_string_arg Opcode.pushstring s b, 0)
  emit_literal Syntax.regex (Syntax.text s) flags b =
      some (emit_arg Opcode.pushint flags (emit_string_arg Opcode.pushstring s b), 0)
  emit_literal Syntax.true_kw v flags b = some (emit_arg Opcode.pushbool 1 b, 0)
  emit_literal Syntax.false_kw v flags b = some (emit_arg Opcode.pushbool 0 b, 0)
  emit_literal Syntax.identifier _ flags b = none
  emit_literal Syntax.number _ flags b = none
  emit_literal Syntax.string _ flags b = none
  emit_literal Syntax.regex _ flags b = none
  emit_literal _ v flags b = some (b, 0)

  abbrev pub bytecode_emit_literal : Token → Emit M
  bytecode_emit_literal t = emit_literal t.type t.value t.flags

  unfoldable pub emit_field_name : TokenValue → ℕ → Emit M
  emit_field_name (Syntax.text name) type b =
      let b₁ = emit_string_arg Opcode.field name b in
      some ((if is_scalar type then emit_code Opcode.object b₁ else b₁), 0)
  emit_field_name _ type b = none

  unfoldable pub bytecode_emit_field : Emit M → Token → ℕ → Emit M
  bytecode_emit_field object name type b =
      dropping_error (object b) (emit_field_name name.value type)

-- The distance from a loop's exit test to the code behind the loop.
abbrev pub exit_distance : ℕ
exit_distance = 27

unfoldable pub ivar_name : Range → Option Bytes
ivar_name (Syntax.quantified any all fixed ivar) = elim ivar.value [
  | Syntax.text s ↦ some s
  | _ ↦ none
]

module _ {M : Type 0} where
  unfoldable pub jump_out : Opcode → Builder M → Builder M
  jump_out op b = emit_arg op (wrap32 (b.code.size + exit_distance)) b

  -- the third case of the quantifier: count the matches in accumulator 3, and leave at `fixed` of them
  unfoldable pub emit_fixed_test : ℕ → Builder M → Builder M
  emit_fixed_test fixed b =
      let b₁ = emit_arg Opcode.jtrue (wrap32 (b.code.size + 10)) b in
      let b₂ = emit_arg Opcode.jmp 0 b₁ in
      let b₃ = emit_arg Opcode.load 3 (emit_code Opcode.pop b₂) in
      let b₄ = emit_code Opcode.add (emit_arg Opcode.pushint 1 b₃) in
      let b₅ = emit_arg Opcode.load 3 (emit_arg Opcode.store 3 b₄) in
      let b₆ = emit_code Opcode.gte (emit_arg Opcode.pushint fixed b₅) in
      let b₇ = jump_out Opcode.jtrue b₆ in patch b₁.code.size Opcode.jmp b₇.code.size b₇

  unfoldable pub emit_quantifier : Range → Builder M → Builder M
  emit_quantifier (Syntax.quantified any all fixed ivar) b =
      if not (all == 0)
      then jump_out Opcode.jfalse b
      else if not (any == 0)
      then jump_out Opcode.jtrue b
      else emit_fixed_test fixed b

  -- `i++` and the jump back to the test of the loop
  unfoldable pub emit_next_round : ℕ → Builder M → Builder M
  emit_next_round iter_start b =
      let b₁ = emit_arg Opcode.load 0 (emit_code Opcode.pop b) in
      let b₂ = emit_code Opcode.add (emit_arg Opcode.pushint 1 b₁) in
      emit_arg Opcode.jmp iter_start (emit_arg Opcode.store 0 b₂)

  -- Error codes of the three parts are dropped.
  unfoldable pub bytecode_emit_range : Range → Emit M → Emit M → Emit M → Emit M
  bytecode_emit_range r start end condition b =
      dropping_error (end (record b { iter = ivar_name r })) λ b₁. dropping_error (start b₁) λ b₂.
        let b₃ = emit_arg Opcode.store 1 (emit_arg Opcode.store 0 b₂) in
        let iter_start = b₃.code.size in
        let b₄ = emit_code Opcode.lt (emit_arg Opcode.load 1 (emit_arg Opcode.load 0 b₃)) in
        let exit_jump = b₄.code.size in
        dropping_error (condition (emit_code Opcode.pop (emit_arg Opcode.jfalse 0 b₄))) λ b₅.
          let b₆ = emit_quantifier r (emit_arg Opcode.load 2 (emit_arg Opcode.store 2 b₅)) in
          let b₇ = emit_next_round iter_start b₆ in
          let b₈ = patch exit_jump Opcode.jfalse b₇.code.size b₇ in
          some (record (emit_arg Opcode.load 2 (emit_code Opcode.pop b₈)) { iter = none }, 0)

abbrev pub arg_count : Args → ℕ
arg_count Syntax.no_args = 0
arg_count (Syntax.arg e es) = arg_count es + 1

-- `bytecode_emit_expr`; the error codes of a field, an index and a range are dropped.
-- The arguments of a call are emitted from right to left.
unfoldable mutual
  pub bytecode_emit_expr : {M : Type 0} ⦃h : HashMap Bytes ℕ M⦄ → Expr → Emit M
  bytecode_emit_expr ⦃h⦄ Syntax.null_expr b = none
  bytecode_emit_expr ⦃h⦄ (Syntax.binary l op r t) b =
      bytecode_emit_binary (bytecode_emit_expr l) op (bytecode_emit_expr r) t b
  bytecode_emit_expr ⦃h⦄ (Syntax.grouping e) b = bytecode_emit_expr e b
  bytecode_emit_expr ⦃h⦄ (Syntax.unary op r) b = bytecode_emit_unary op (bytecode_emit_expr r) b
  bytecode_emit_expr ⦃h⦄ (Syntax.literal t) b = bytecode_emit_literal t b
  bytecode_emit_expr ⦃h⦄ (Syntax.call t callee p args) b =
      bytecode_emit_call (emit_arguments args) (bytecode_emit_expr callee) (arg_count args) b
  bytecode_emit_expr ⦃h⦄ (Syntax.field t o name) b =
      dropping_error (bytecode_emit_field (bytecode_emit_expr o) name t b) λ b₁. some (b₁, 0)
  bytecode_emit_expr ⦃h⦄ (Syntax.index t o i p) b =
      dropping_error (bytecode_emit_index (bytecode_emit_expr o) (bytecode_emit_expr i) b)
        λ b₁. some (b₁, 0)
  bytecode_emit_expr ⦃h⦄ (Syntax.range r start end condition) b =
      dropping_error
        (bytecode_emit_range r (bytecode_emit_expr start) (bytecode_emit_expr end)
          (bytecode_emit_expr condition) b)
        λ b₁. some (b₁, 0)

  pub emit_arguments : {M : Type 0} ⦃h : HashMap Bytes ℕ M⦄ → Args → Emit M
  emit_arguments ⦃h⦄ Syntax.no_args b = some (b, 0)
  emit_arguments ⦃h⦄ (Syntax.arg e es) b = and_then (emit_arguments es b) (bytecode_emit_expr e)

module _ {M : Type 0} ⦃h : HashMap Bytes ℕ M⦄ where
  unfoldable pub emit_body : Rule → Emit M
  emit_body r b =
      if r.external
      then some (b, 0)
      else and_then (bytecode_emit_expr r.condition b) λ b₁. some (emit_code Opcode.hlt b₁, 0)

  -- `ac_bytecode_emit_rule`; 14 is AC_ERROR_MODULE. Without an event type the module of the rule
  -- that was emitted before stays.
  unfoldable pub ac_bytecode_emit_rule : Rule → Emit M
  ac_bytecode_emit_rule r b = elim r.event [
    | none ↦ emit_body r b
    | some event ↦ elim event.value [
      | Syntax.text name ↦
          (if not (ac_context_get_module b.ctx name)
            then some (b, 14)
            else emit_body r (record b { module_name = some name }))
      | _ ↦ none
    ]
  ]
