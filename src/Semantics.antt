-- ===== src/Semantics.antt =====
-- What an expression of a rule means: a specification of the values that compiled rules compute,
-- written on the expression tree and apart from the instructions (docs/RULES.md, "Supported Operators").
pub mod Operators
pub mod Plain
pub mod Strings
pub mod Agree
use alca.Base.{ℕ, Bool, true, false, Option, none, some, if◌then◌else◌, Bytes, bytes_eq}
use alca.HashMap.{HashMap}
use alca.Syntax
use alca.Syntax.{Expr, Token, TokenType, TokenValue, same_type}
use alca.Context.{
  Context, Value, word, str, obj, ac_context_get, ac_context_object_get, ac_context_object_get_data,
  ac_context_object_get_array_item,
}
use alca.Bytecode.Emit.{is_scalar}
use alca.Vm.Operators.{Answer, value, raise, undefined, truth}
use Operators.{binary_meaning, unary_meaning}

-- Errors and undefined values pass through.
infixl 5 ◌>>=◌
abbrev pub ◌>>=◌ : Answer → (Value → Answer) → Answer
value v >>= f = f v
raise e >>= f = raise e
undefined >>= f = undefined

abbrev pub on_word : Value → (ℕ → Answer) → Answer
on_word (word n) k = k n
on_word _ k = undefined

abbrev pub on_object : Value → (ℕ → Answer) → Answer
on_object (obj o) k = k o
on_object _ k = undefined

abbrev pub defined {ℓ} : {A : Type ℓ} → Option A → (A → Answer) → Answer
defined none k = undefined
defined (some a) k = k a

-- the object of the rule's event; 14 is AC_ERROR_MODULE
abbrev pub module_answer : Option ℕ → Answer
module_answer none = raise 14
module_answer (some o) = value (obj o)

-- an item of an array; 26 is AC_ERROR_INDEX
abbrev pub item_answer : Option Value → Answer
item_answer none = raise 26
item_answer (some v) = value v

module _ {M : Type 0} (ctx : Context M) where
  unfoldable pub index_meaning : Value → Value → Answer
  index_meaning v w = on_word w λ i.
      on_object v λ o. defined (ctx.heap o) λ x. item_answer (ac_context_object_get_array_item x i)

  -- the content of an object
  unfoldable pub load_meaning : Value → Answer
  load_meaning v = on_object v λ o. defined (ac_context_object_get_data ctx o) value

module _ {M : Type 0} ⦃h : HashMap Bytes ℕ M⦄ (ctx : Context M) where
  -- a named part of an object
  unfoldable pub part_meaning : TokenValue → Value → Answer
  part_meaning (Syntax.text name) v =
      on_object v λ o. defined (ac_context_object_get ctx o name) λ f. value (obj f)
  part_meaning _ v = undefined

  -- A field is the content of the part, or the part itself where that has parts of its own.
  unfoldable pub field_meaning : ℕ → TokenValue → Value → Answer
  field_meaning type name v =
      part_meaning name v >>= (if is_scalar type then load_meaning ctx else value)

module _ {M : Type 0} ⦃h : HashMap Bytes ℕ M⦄ (ctx : Context M) (event : Bytes) where
  unfoldable pub literal_meaning : TokenType → TokenValue → Answer
  literal_meaning Syntax.number (Syntax.word n) = value (word n)
  literal_meaning Syntax.string (Syntax.text s) = value (str s)
  literal_meaning Syntax.true_kw v = value (word 1)
  literal_meaning Syntax.false_kw v = value (word 0)
  literal_meaning Syntax.identifier (Syntax.text name) =
      if bytes_eq name event then module_answer (ac_context_get ctx name) else undefined
  literal_meaning _ v = undefined

  -- The operands are evaluated from left to right, and the right one of `and` only where it counts.
  -- Calls, iterators and references to rules have no meaning here.
  unfoldable pub eval : Expr → Answer
  eval (Syntax.binary l op r t) =
      let right = eval r in
      eval l >>= λ a.
      if same_type op.type Syntax.and_kw
      then (on_word a
          λ n. if truth n then (right >>= binary_meaning op.type t a) else value (word 0))
      else (right >>= binary_meaning op.type t a)
  eval (Syntax.grouping e) = eval e
  eval (Syntax.unary op r) = eval r >>= unary_meaning op.type
  eval (Syntax.literal t) = literal_meaning t.type t.value
  eval (Syntax.field t o name) = eval o >>= field_meaning ctx t name.value
  eval (Syntax.index t o i p) = let at = eval i in eval o >>= λ v. at >>= index_meaning ctx v
  eval _ = undefined
