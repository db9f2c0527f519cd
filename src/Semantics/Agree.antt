-- ===== src/Semantics/Agree.antt =====
-- The instruction that the compiler picks for an operator computes the operator's meaning.
use alca.Base.{ℕ, ◌≡◌, refl, inl, inr, Bool, Option, none, some, Bool-cases, Bytes, if◌then◌else◌}
use alca.Syntax
use alca.Syntax.{TokenType, same_type}
use alca.Context.{Value, word, str, obj, array}
use alca.Bytecode.Emit.{unary_opcode, binary_opcode, is_bool_type}
use alca.Vm.Operators.{
  Answer, undefined, boolean, int_op, compare_op, string_op, binary_op, unary_op,
}
use alca.Semantics.Operators.{binary_meaning, unary_meaning, on_words, on_texts}
use alca.Semantics.Strings.{contains-occurs, startswith-is_prefix, endswith-is_suffix}
use alca.Bytecode.Opcode.{Opcode}

-- what an instruction computes; nothing where none is emitted
abbrev pub binary_answer : Option Opcode → Value → Value → Answer
binary_answer none a b = undefined
binary_answer (some op) a b = binary_op op a b

abbrev pub unary_answer : Option Opcode → Value → Answer
unary_answer none a = undefined
unary_answer (some op) a = unary_op op a

-- For every unary operator, the compiled instruction computes the meaning.
pub unary_agree : (t : TokenType) (a : Value) → unary_answer (unary_opcode t) a ≡ unary_meaning t a
unfolding unary_opcode unary_meaning unary_op
unary_agree Syntax.bang (word n) = refl
unary_agree Syntax.bang _ = refl
unary_agree Syntax.hash (str s) = refl
unary_agree Syntax.hash _ = refl
unary_agree _ (word n) = refl
unary_agree _ _ = refl

-- an instruction on words, and one on strings
by_words :
    (op : Opcode) (f : ℕ → ℕ → Answer)
    → ((a b : ℕ) → compare_op op a b ≡ f a b)
    → ((s t : Bytes) → string_op op s t ≡ undefined)
    → (x y : Value) → binary_op op x y ≡ on_words f x y
unfolding binary_op
by_words op f p q (word a) (word b) = p a b
by_words op f p q (str s) (str t) = q s t
by_words op f p q (word a) _ = refl
by_words op f p q (str s) _ = refl
by_words op f p q (obj o) _ = refl
by_words op f p q (array vs) _ = refl

by_texts :
    (op : Opcode) (g : Bytes → Bytes → Bool)
    → ((a b : ℕ) → compare_op op a b ≡ undefined)
    → ((s t : Bytes) → string_op op s t ≡ boolean (g s t))
    → (x y : Value) → binary_op op x y ≡ on_texts g x y
unfolding binary_op
by_texts op g p q (word a) (word b) = p a b
by_texts op g p q (str s) (str t) = q s t
by_texts op g p q (word a) _ = refl
by_texts op g p q (str s) _ = refl
by_texts op g p q (obj o) _ = refl
by_texts op g p q (array vs) _ = refl

-- `==` and `!=`, for which the compiler reads the operand type that the checker noted
equality :
    (op_str op_bool op_int : Opcode) (g : Bytes → Bytes → Bool) (f : ℕ → ℕ → Answer)
    (ty : TokenType) (x y : Value)
    → binary_op op_str x y ≡ on_texts g x y
    → binary_op op_bool x y ≡ on_words f x y
    → binary_op op_int x y ≡ on_words f x y
    → binary_answer
        (if same_type ty Syntax.string
          then some op_str
          else if is_bool_type ty
          then some op_bool
          else some op_int)
        x
        y
      ≡ (if same_type ty Syntax.string then on_texts g else on_words f) x y
equality op_str op_bool op_int g f ty x y p q r = elim (Bool-cases (same_type ty Syntax.string)) [
  | inl e ↦ rw e p
  | inr e ↦ rw e (elim (Bool-cases (is_bool_type ty)) [ inl k ↦ rw k q | inr k ↦ rw k r ])
]

-- For every binary operator and operand type, the compiled instruction computes the meaning.
pub binary_agree :
    (t ty : TokenType) (x y : Value)
    → binary_answer (binary_opcode t ty) x y ≡ binary_meaning t ty x y
unfolding binary_opcode binary_meaning compare_op int_op string_op
binary_agree Syntax.plus ty x y = by_words Opcode.add _ (λ a b. refl) (λ s t. refl) x y
binary_agree Syntax.minus ty x y = by_words Opcode.sub _ (λ a b. refl) (λ s t. refl) x y
binary_agree Syntax.mult ty x y = by_words Opcode.mul _ (λ a b. refl) (λ s t. refl) x y
binary_agree Syntax.div ty x y = by_words Opcode.div _ (λ a b. refl) (λ s t. refl) x y
binary_agree Syntax.modulo ty x y = by_words Opcode.mod_op _ (λ a b. refl) (λ s t. refl) x y
binary_agree Syntax.shl ty x y = by_words Opcode.shl _ (λ a b. refl) (λ s t. refl) x y
binary_agree Syntax.shr ty x y = by_words Opcode.shr _ (λ a b. refl) (λ s t. refl) x y
binary_agree Syntax.bitand ty x y = by_words Opcode.and_op _ (λ a b. refl) (λ s t. refl) x y
binary_agree Syntax.pipe ty x y = by_words Opcode.or_op _ (λ a b. refl) (λ s t. refl) x y
binary_agree Syntax.bitxor ty x y = by_words Opcode.xor _ (λ a b. refl) (λ s t. refl) x y
binary_agree Syntax.greater ty x y = by_words Opcode.gt _ (λ a b. refl) (λ s t. refl) x y
binary_agree Syntax.less ty x y = by_words Opcode.lt _ (λ a b. refl) (λ s t. refl) x y
binary_agree Syntax.greater_equal ty x y = by_words Opcode.gte _ (λ a b. refl) (λ s t. refl) x y
binary_agree Syntax.less_equal ty x y = by_words Opcode.lte _ (λ a b. refl) (λ s t. refl) x y
binary_agree Syntax.and_kw ty x y = by_words Opcode.andl _ (λ a b. refl) (λ s t. refl) x y
binary_agree Syntax.or_kw ty x y = by_words Opcode.orl _ (λ a b. refl) (λ s t. refl) x y
binary_agree Syntax.equal_equal ty x y =
    equality Opcode.streq Opcode.booleq Opcode.inteq _ _ ty x y
      (by_texts Opcode.streq _ (λ a b. refl) (λ s t. refl) x y)
      (by_words Opcode.booleq _ (λ a b. refl) (λ s t. refl) x y)
      (by_words Opcode.inteq _ (λ a b. refl) (λ s t. refl) x y)
binary_agree Syntax.bang_equal ty x y =
    equality Opcode.strne Opcode.boolne Opcode.intne _ _ ty x y
      (by_texts Opcode.strne _ (λ a b. refl) (λ s t. refl) x y)
      (by_words Opcode.boolne _ (λ a b. refl) (λ s t. refl) x y)
      (by_words Opcode.intne _ (λ a b. refl) (λ s t. refl) x y)
binary_agree Syntax.contains ty x y =
    by_texts Opcode.contains _ (λ a b. refl) (λ s t. rw contains-occurs) x y
binary_agree Syntax.icontains ty x y =
    by_texts Opcode.icontains _ (λ a b. refl) (λ s t. rw contains-occurs) x y
binary_agree Syntax.startswith ty x y =
    by_texts Opcode.startswith _ (λ a b. refl) (λ s t. rw startswith-is_prefix) x y
binary_agree Syntax.istartswith ty x y =
    by_texts Opcode.istartswith _ (λ a b. refl) (λ s t. rw startswith-is_prefix) x y
binary_agree Syntax.endswith ty x y =
    by_texts Opcode.endswith _ (λ a b. refl) (λ s t. rw endswith-is_suffix) x y
binary_agree Syntax.iendswith ty x y =
    by_texts Opcode.iendswith _ (λ a b. refl) (λ s t. rw endswith-is_suffix) x y
binary_agree Syntax.iequals ty x y = by_texts Opcode.iequals _ (λ a b. refl) (λ s t. refl) x y
binary_agree Syntax.matches ty x y = matches_agree x y
  where
    matches_agree : (x y : Value) → binary_op Opcode.matches x y ≡ undefined
    matches_agree (word a) (word b) = unfold binary_op in refl
    matches_agree (str s) (str t) = unfold binary_op in refl
    matches_agree (word a) _ = unfold binary_op in refl
    matches_agree (str s) _ = unfold binary_op in refl
    matches_agree (obj o) _ = unfold binary_op in refl
    matches_agree (array vs) _ = unfold binary_op in refl
binary_agree _ ty x y = refl
