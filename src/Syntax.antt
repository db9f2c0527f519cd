-- ===== src/Syntax.antt =====
-- libalca/include/alca/types.h: token types, tokens, expressions, statements and programs.
use alca.Base.{ℕ, Bool, Option, List, Bytes, ◌==◌}

pub data TokenType : Type 0 where
  lparen rparen lbrace rbrace dot_dot lbracket rbracket comma dot plus : TokenType
  minus div mult modulo pipe bitand bitnot bitxor equal colon hash : TokenType
  bang bang_equal equal_equal greater greater_equal less less_equal shr shl : TokenType
  endswith iendswith startswith istartswith contains icontains iequals matches : TokenType
  number string regex identifier : TokenType
  true_kw false_kw or_kw and_kw not_kw rule_kw sequence_kw import_kw private_kw for_kw : TokenType
  any_kw all_kw in_kw object_kw eof : TokenType

-- the number that the C enumeration gives each type
abbrev pub type_code : TokenType → ℕ
type_code lparen = 0
type_code rparen = 1
type_code lbrace = 2
type_code rbrace = 3
type_code dot_dot = 4
type_code lbracket = 5
type_code rbracket = 6
type_code comma = 7
type_code dot = 8
type_code plus = 9
type_code minus = 10
type_code div = 11
type_code mult = 12
type_code modulo = 13
type_code pipe = 14
type_code bitand = 15
type_code bitnot = 16
type_code bitxor = 17
type_code equal = 18
type_code colon = 19
type_code hash = 20
type_code bang = 21
type_code bang_equal = 22
type_code equal_equal = 23
type_code greater = 24
type_code greater_equal = 25
type_code less = 26
type_code less_equal = 27
type_code shr = 28
type_code shl = 29
type_code endswith = 30
type_code iendswith = 31
type_code startswith = 32
type_code istartswith = 33
type_code contains = 34
type_code icontains = 35
type_code iequals = 36
type_code matches = 37
type_code number = 38
type_code string = 39
type_code regex = 40
type_code identifier = 41
type_code true_kw = 42
type_code false_kw = 43
type_code or_kw = 44
type_code and_kw = 45
type_code not_kw = 46
type_code rule_kw = 47
type_code sequence_kw = 48
type_code import_kw = 49
type_code private_kw = 50
type_code for_kw = 51
type_code any_kw = 52
type_code all_kw = 53
type_code in_kw = 54
type_code object_kw = 55
type_code eof = 56

-- `==` on token types
abbrev pub same_type : TokenType → TokenType → Bool
same_type t u = type_code t == type_code u

-- What `void *value` points at: nothing, a `uint32_t`, or a string.
pub data TokenValue : Type 0 where
  null : TokenValue
  word : ℕ → TokenValue
  text : Bytes → TokenValue

pub record Token : Type 0 where
  pub type : TokenType
  pub value : TokenValue
  pub line : ℕ
  pub flags : ℕ

-- `ac_expr`: a constructor for each `ac_expr_type`. `null_expr` is a NULL child pointer.
-- `operand_type`, `return_type`, `identifier_type` and `item_type` are the fields that the checker
-- fills in; a fresh node has zero there.
mutual
  pub data Expr : Type 0 where
    null_expr : Expr
    binary : Expr → Token → Expr → TokenType → Expr
    grouping : Expr → Expr
    unary : Token → Expr → Expr
    literal : Token → Expr
    call : ℕ → Expr → Token → Args → Expr
    field : ℕ → Expr → Token → Expr
    index : ℕ → Expr → Expr → Token → Expr
    range : Range → Expr → Expr → Expr → Expr

  pub data Args : Type 0 where
    no_args : Args
    arg : Expr → Args → Args

  -- `any`, `all`, `fixed` and `ivar` of a range node
  pub data Range : Type 0 where
    quantified : ℕ → ℕ → ℕ → Token → Range

-- `ac_statement`; the rules of a sequence are rule statements.
pub record Rule : Type 0 where
  pub external : Bool
  pub is_private : Bool
  pub name : Token
  pub event : Option Token
  pub condition : Expr

pub data Statement : Type 0 where
  rule : Rule → Statement
  sequence : Token → ℕ → List Rule → Statement
  import : Token → Statement
