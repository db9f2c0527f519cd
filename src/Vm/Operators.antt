-- ===== src/Vm/Operators.antt =====
-- The operators of the interpreter: the cases of its `switch` that pop operands and push a result.
use alca.Base.{
  ℕ, ◌+◌, ◌-◌, ◌*◌, ◌/◌, ◌%◌, ◌^◌, Bool, not, ◌&&◌, ◌||◌, ltb, leb, ◌==◌, if◌then◌else◌, length,
  Bytes, bytes_eq, bit_and, bit_or, bit_xor,
}
use alca.Base.Words.{word_mod, wrap32}
use alca.Context.{Value, word, str}
use alca.Vm.Text.{lowercase, contains, startswith, endswith}
use alca.Bytecode.Opcode.{Opcode}

-- What a case of the `switch` comes to: a value to push, an error code to stop with, or undefined
-- behaviour of C (a failed assertion, a member of the union that was not set, a division by zero).
pub data Answer : Type 0 where
  value : Value → Answer
  raise : ℕ → Answer
  undefined : Answer

-- `r1.b = …` and a condition on `r.b`
abbrev pub of_bool : Bool → ℕ
of_bool b = if b then 1 else 0

abbrev pub truth : ℕ → Bool
truth n = not (n == 0)

abbrev pub number : ℕ → Answer
number n = value (word n)

abbrev pub boolean : Bool → Answer
boolean b = value (word (of_bool b))

-- AC_ERROR_BAD_OPERAND
abbrev pub bad_operand : ℕ
bad_operand = 25

-- OP_ADD to OP_XOR, on `r2.i` and `r1.i`
unfoldable pub int_op : Opcode → ℕ → ℕ → Answer
int_op Opcode.add a b = number (wrap32 (a + b))
int_op Opcode.sub a b = number (wrap32 (a + word_mod - b))
int_op Opcode.mul a b = number (wrap32 (a * b))
int_op Opcode.div a b = if b == 0 then undefined else number (a / b)
int_op Opcode.mod_op a b = if b == 0 then undefined else number (a % b)
int_op Opcode.shl a b =
    if ltb 32 b
    then raise bad_operand
    else if b == 32
    then undefined
    else number (wrap32 (a * 2 ^ b))
int_op Opcode.shr a b =
    if ltb 32 b then raise bad_operand else if b == 32 then undefined else number (a / 2 ^ b)
int_op Opcode.and_op a b = number (bit_and a b)
int_op Opcode.or_op a b = number (bit_or a b)
int_op Opcode.xor a b = number (bit_xor a b)
int_op _ a b = undefined

-- OP_GT to OP_ORL, on words: `r2.i` and `r1.i`, or `r2.b` and `r1.b`
unfoldable pub compare_op : Opcode → ℕ → ℕ → Answer
compare_op Opcode.gt a b = boolean (ltb b a)
compare_op Opcode.lt a b = boolean (ltb a b)
compare_op Opcode.gte a b = boolean (leb b a)
compare_op Opcode.lte a b = boolean (leb a b)
compare_op Opcode.inteq a b = boolean (a == b)
compare_op Opcode.booleq a b = boolean (a == b)
compare_op Opcode.intne a b = boolean (not (a == b))
compare_op Opcode.boolne a b = boolean (not (a == b))
compare_op Opcode.andl a b = boolean (truth a && truth b)
compare_op Opcode.orl a b = boolean (truth a || truth b)
compare_op op a b = int_op op a b

-- OP_STREQ, OP_STRNE and OP_CONTAINS to OP_IEQUALS, on `r2.s` and `r1.s`
unfoldable pub string_op : Opcode → Bytes → Bytes → Answer
string_op Opcode.streq s t = boolean (bytes_eq s t)
string_op Opcode.strne s t = boolean (not (bytes_eq s t))
string_op Opcode.contains s t = boolean (contains s t)
string_op Opcode.icontains s t = boolean (contains (lowercase s) (lowercase t))
string_op Opcode.startswith s t = boolean (startswith s t)
string_op Opcode.istartswith s t = boolean (startswith (lowercase s) (lowercase t))
string_op Opcode.endswith s t = boolean (endswith s t)
string_op Opcode.iendswith s t = boolean (endswith (lowercase s) (lowercase t))
string_op Opcode.iequals s t = boolean (bytes_eq (lowercase s) (lowercase t))
string_op _ s t = undefined

-- the cases with two operands, `r2` below `r1` on the stack
unfoldable pub binary_op : Opcode → Value → Value → Answer
binary_op op (word a) (word b) = compare_op op a b
binary_op op (str s) (str t) = string_op op s t
binary_op op _ _ = undefined

-- the cases with one operand: OP_NOT, OP_NOTL, OP_NEG and OP_STRLEN
unfoldable pub unary_op : Opcode → Value → Answer
unary_op Opcode.not_op (word a) = number (word_mod - 1 - a)
unary_op Opcode.notl (word a) = boolean (not (truth a))
unary_op Opcode.neg (word a) = number (wrap32 (word_mod - a))
unary_op Opcode.strlen (str s) = number (wrap32 (length s))
unary_op _ _ = undefined
