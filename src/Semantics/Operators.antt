-- ===== src/Semantics/Operators.antt =====
-- The meaning of the operators, by the token that stands for them.
use alca.Base.{
  ℕ, ◌+◌, ◌-◌, ◌*◌, ◌/◌, ◌%◌, ◌^◌, Bool, not, ◌&&◌, ◌||◌, [], ◌∷◌, ltb, leb, ◌==◌, if◌then◌else◌,
  length, Bytes, bytes_eq, bit_and, bit_or, bit_xor,
}
use alca.Base.Words.{word_mod, wrap32}
use alca.Syntax
use alca.Syntax.{TokenType, same_type}
use alca.Context.{Value, word, str}
use alca.Vm.Text.{lowercase, is_prefix}
use alca.Vm.Operators.{Answer, raise, undefined, truth, number, boolean, bad_operand}

-- `t` stands somewhere in `s`
unfoldable pub occurs : Bytes → Bytes → Bool
occurs t [] = is_prefix t []
occurs t (c ∷ cs) = is_prefix t (c ∷ cs) || occurs t cs

-- `s` ends with `t`
unfoldable pub is_suffix : Bytes → Bytes → Bool
is_suffix t [] = bytes_eq [] t
is_suffix t (c ∷ cs) = bytes_eq (c ∷ cs) t || is_suffix t cs

abbrev pub on_words : (ℕ → ℕ → Answer) → Value → Value → Answer
on_words f (word a) (word b) = f a b
on_words f _ _ = undefined

abbrev pub on_texts : (Bytes → Bytes → Bool) → Value → Value → Answer
on_texts f (str s) (str t) = boolean (f s t)
on_texts f _ _ = undefined

-- A shift by more than 32 is an error, and one by 32 is undefined in C.
unfoldable pub shift : (ℕ → ℕ → ℕ) → ℕ → ℕ → Answer
shift f a b = if ltb 32 b then raise bad_operand else if b == 32 then undefined else number (f a b)

unfoldable pub divide : (ℕ → ℕ → ℕ) → ℕ → ℕ → Answer
divide f a b = if b == 0 then undefined else number (f a b)

-- Integers are 32-bit words without sign. `type` is the type of the operands.
unfoldable pub binary_meaning : TokenType → TokenType → Value → Value → Answer
unfolding shift divide
binary_meaning Syntax.plus type = on_words λ a b. number (wrap32 (a + b))
binary_meaning Syntax.minus type = on_words λ a b. number (wrap32 (a + word_mod - b))
binary_meaning Syntax.mult type = on_words λ a b. number (wrap32 (a * b))
binary_meaning Syntax.div type = on_words (divide ◌/◌)
binary_meaning Syntax.modulo type = on_words (divide ◌%◌)
binary_meaning Syntax.shl type = on_words (shift λ a b. wrap32 (a * 2 ^ b))
binary_meaning Syntax.shr type = on_words (shift λ a b. a / 2 ^ b)
binary_meaning Syntax.bitand type = on_words λ a b. number (bit_and a b)
binary_meaning Syntax.pipe type = on_words λ a b. number (bit_or a b)
binary_meaning Syntax.bitxor type = on_words λ a b. number (bit_xor a b)
binary_meaning Syntax.greater type = on_words λ a b. boolean (ltb b a)
binary_meaning Syntax.less type = on_words λ a b. boolean (ltb a b)
binary_meaning Syntax.greater_equal type = on_words λ a b. boolean (leb b a)
binary_meaning Syntax.less_equal type = on_words λ a b. boolean (leb a b)
binary_meaning Syntax.and_kw type = on_words λ a b. boolean (truth a && truth b)
binary_meaning Syntax.or_kw type = on_words λ a b. boolean (truth a || truth b)
binary_meaning Syntax.equal_equal type =
    if same_type type Syntax.string then on_texts bytes_eq else on_words λ a b. boolean (a == b)
binary_meaning Syntax.bang_equal type =
    if same_type type Syntax.string
    then on_texts (λ s t. not (bytes_eq s t))
    else on_words λ a b. boolean (not (a == b))
binary_meaning Syntax.contains type = on_texts λ s t. occurs t s
binary_meaning Syntax.icontains type = on_texts λ s t. occurs (lowercase t) (lowercase s)
binary_meaning Syntax.startswith type = on_texts λ s t. is_prefix t s
binary_meaning Syntax.istartswith type = on_texts λ s t. is_prefix (lowercase t) (lowercase s)
binary_meaning Syntax.endswith type = on_texts λ s t. is_suffix t s
binary_meaning Syntax.iendswith type = on_texts λ s t. is_suffix (lowercase t) (lowercase s)
binary_meaning Syntax.iequals type = on_texts λ s t. bytes_eq (lowercase s) (lowercase t)
binary_meaning _ type = λ a b. undefined

unfoldable pub unary_meaning : TokenType → Value → Answer
unary_meaning Syntax.bang (word a) = boolean (not (truth a))
unary_meaning Syntax.not_kw (word a) = boolean (not (truth a))
unary_meaning Syntax.bitnot (word a) = number (word_mod - 1 - a)
unary_meaning Syntax.minus (word a) = number (wrap32 (word_mod - a))
unary_meaning Syntax.hash (str s) = number (wrap32 (length s))
unary_meaning _ _ = undefined
