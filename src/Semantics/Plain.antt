-- ===== src/Semantics/Plain.antt =====
-- The expressions that the correctness of the compiler covers, with the room that they take.
use alca.Base.{
  ℕ, ◌+◌, ◌<◌, ◌≡◌, Bool, true, false, some, if◌then◌else◌, length, max, Bytes, bytes_eq,
}
use alca.Base.Words.{word_mod}
use alca.Arena.Strings.{NoNul}
use alca.Syntax
use alca.Syntax.{Expr, TokenType, TokenValue, same_type}
use alca.Bytecode.Opcode.{Opcode}
use alca.Bytecode.Emit.{unary_opcode, binary_opcode, is_scalar}

-- the instructions that the interpreter runs as `binary_op` and `unary_op`
unfoldable pub is_unary : Opcode → Bool
is_unary Opcode.not_op = true
is_unary Opcode.notl = true
is_unary Opcode.neg = true
is_unary Opcode.strlen = true
is_unary _ = false

unfoldable pub is_binary : Opcode → Bool
is_binary Opcode.hlt = false
is_binary Opcode.not_op = false
is_binary Opcode.notl = false
is_binary Opcode.neg = false
is_binary Opcode.jfalse = false
is_binary Opcode.jtrue = false
is_binary Opcode.jmp = false
is_binary Opcode.pushint = false
is_binary Opcode.pushbool = false
is_binary Opcode.pushstring = false
is_binary Opcode.pushmodule = false
is_binary Opcode.object = false
is_binary Opcode.matches = false
is_binary Opcode.strlen = false
is_binary Opcode.rule = false
is_binary Opcode.call = false
is_binary Opcode.field = false
is_binary Opcode.index = false
is_binary Opcode.push = false
is_binary Opcode.pop = false
is_binary Opcode.load = false
is_binary Opcode.store = false
is_binary _ = true

-- The operator has an instruction: every one of the language but `matches`.
abbrev pub HasBinary : TokenType → TokenType → Type 0
HasBinary t ty = (op : Opcode) × (binary_opcode t ty ≡ some op) × (is_binary op ≡ true)

abbrev pub HasUnary : TokenType → Type 0
HasUnary t = (op : Opcode) × (unary_opcode t ≡ some op) × (is_unary op ≡ true)

abbrev pub IsName : TokenValue → Type 0
IsName (Syntax.text name) = NoNul name
IsName _ = ⊥

-- A literal as the lexer makes it; the only identifier is the event of the rule.
abbrev pub IsPlainLiteral : Bytes → TokenType → TokenValue → Type 0
IsPlainLiteral event Syntax.number (Syntax.word n) = n < word_mod
IsPlainLiteral event Syntax.string (Syntax.text s) = NoNul s
IsPlainLiteral event Syntax.true_kw v = Unit
IsPlainLiteral event Syntax.false_kw v = Unit
IsPlainLiteral event Syntax.identifier (Syntax.text name) =
    NoNul name × (bytes_eq name event ≡ true)
IsPlainLiteral event _ v = ⊥

-- An expression of literals, operators, fields and array items of the event's object.
abbrev pub IsPlain : Bytes → Expr → Type 0
IsPlain event (Syntax.binary l op r ty) = IsPlain event l × IsPlain event r × HasBinary op.type ty
IsPlain event (Syntax.grouping e) = IsPlain event e
IsPlain event (Syntax.unary op r) = IsPlain event r × HasUnary op.type
IsPlain event (Syntax.literal t) = IsPlainLiteral event t.type t.value
IsPlain event (Syntax.field ty o name) = IsPlain event o × IsName name.value
IsPlain event (Syntax.index ty o i p) = IsPlain event o × IsPlain event i
IsPlain event _ = ⊥

-- the bytes of code
unfoldable pub code_size : Expr → ℕ
code_size (Syntax.binary l op r ty) =
    code_size l + (if same_type op.type Syntax.and_kw then 15 else 0) + code_size r + 1
code_size (Syntax.grouping e) = code_size e
code_size (Syntax.unary op r) = code_size r + 1
code_size (Syntax.literal t) = 5
code_size (Syntax.field ty o name) = code_size o + (if is_scalar ty then 6 else 5)
code_size (Syntax.index ty o i p) = code_size o + code_size i + 1
code_size _ = 0

abbrev pub name_size : TokenValue → ℕ
name_size (Syntax.text s) = length s + 1
name_size _ = 0

-- at most so many bytes of the data section
unfoldable pub string_size : Expr → ℕ
string_size (Syntax.binary l op r ty) = string_size l + string_size r
string_size (Syntax.grouping e) = string_size e
string_size (Syntax.unary op r) = string_size r
string_size (Syntax.literal t) = name_size t.value
string_size (Syntax.field ty o name) = string_size o + name_size name.value
string_size (Syntax.index ty o i p) = string_size o + string_size i
string_size _ = 0

-- at most so many values on the stack
unfoldable pub depth : Expr → ℕ
depth (Syntax.binary l op r ty) = max (depth l) (1 + depth r)
depth (Syntax.grouping e) = depth e
depth (Syntax.unary op r) = depth r
depth (Syntax.literal t) = 1
depth (Syntax.field ty o name) = depth o
depth (Syntax.index ty o i p) = max (depth o) (1 + depth i)
depth _ = 1
