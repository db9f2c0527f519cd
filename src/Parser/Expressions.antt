-- ===== src/Parser/Expressions.antt =====
-- The functions of libalca/parser.c that read an expression. Each takes `ac_psr_expression` as an argument where it
-- calls it, and the fuel of its loop or of its own recursion.
use alca.Base.{ℕ, zero, suc, Option, none, some, List, [], ◌∷◌, if◌then◌else◌, ◌==◌}
use alca.Syntax
use alca.Syntax.{TokenType, Token, Expr, Args, Range}
use alca.Parser.{
  Parser, Outcome, returned, null, stuck, out_of_fuel, Parse, bind, ◌>>=◌, ◌>>◌, fail, give,
  ac_psr_check, ac_psr_consume, ac_psr_match,
}

-- what MATCH finds, and what is done where it finds nothing
abbrev pub with_match {ℓ} :
    {A : Type ℓ} → Option (Token × Parser) → (Token → Parse A) → Outcome A → Outcome A
with_match none found other = other
with_match (some (t, q)) found other = found t q

abbrev pub on_match {ℓ} : {A : Type ℓ} → List TokenType → (Token → Parse A) → Parse A → Parse A
on_match types found other p = with_match (ac_psr_match types p) found (other p)

-- `*(uint32_t *)token->value`
unfoldable pub number_value : Token → Parse ℕ
number_value t p = elim t.value [ Syntax.word n ↦ returned n p | _ ↦ stuck ]

-- `ac_expr_new_range`; the numbers of the match types are 1, 2 and 3.
unfoldable pub ac_expr_new_range : ℕ → ℕ → Token → Expr → Expr → Expr → Expr
ac_expr_new_range match_type fixed ivar start end cond =
    Syntax.range
      (if match_type == 1
        then Syntax.quantified 1 0 0 ivar
        else if match_type == 2
        then Syntax.quantified 0 1 0 ivar
        else if match_type == 3
        then Syntax.quantified 0 0 fixed ivar
        else Syntax.quantified 0 1 0 ivar)
      start end cond

-- an expression, where NULL is a NULL child and no reason to return
unfoldable pub or_null : Parse Expr → Parse Expr
or_null m p = elim (m p) [
  | returned e q ↦ returned e q
  | null q ↦ returned Syntax.null_expr q
  | stuck ↦ stuck
  | out_of_fuel ↦ out_of_fuel
]

-- `ac_expr_call_append_argument`
abbrev pub append_arg : Args → Expr → Args
append_arg Syntax.no_args e = Syntax.arg e Syntax.no_args
append_arg (Syntax.arg a others) e = Syntax.arg a (append_arg others e)

module _ (expression : Parse Expr) where
  -- `ac_psr_range` behind the quantifier
  unfoldable pub range_parts : ℕ → ℕ → Parse Expr
  range_parts match_type fixed = do
    ivar ← ac_psr_consume Syntax.identifier 3
    ac_psr_consume Syntax.in_kw 3
    ac_psr_consume Syntax.lparen 3
    start ← expression
    ac_psr_consume Syntax.dot_dot 3
    end ← expression
    ac_psr_consume Syntax.rparen 3
    ac_psr_consume Syntax.colon 3
    ac_psr_consume Syntax.lparen 3
    condition ← or_null expression
    ac_psr_consume Syntax.rparen 3
    give (ac_expr_new_range match_type fixed ivar start end condition)

  -- The match type that TOKEN_ANY sets is replaced in both branches that do not fail.
  unfoldable pub quantifier : Parse Expr
  quantifier =
      on_match (Syntax.all_kw ∷ []) (λ t. range_parts 2 0)
        (on_match (Syntax.number ∷ []) (λ t. number_value t >>= range_parts 3) (fail 2))

  unfoldable pub ac_psr_range : Parse Expr
  ac_psr_range = on_match (Syntax.any_kw ∷ []) (λ t. quantifier) quantifier

  unfoldable pub ac_psr_primary : Parse Expr
  ac_psr_primary =
      on_match
        (Syntax.false_kw ∷ Syntax.true_kw ∷ Syntax.number ∷ Syntax.string ∷ Syntax.identifier
          ∷ Syntax.regex ∷ [])
        (λ t. give (Syntax.literal t))
        (on_match (Syntax.lparen ∷ [])
          (λ t. do e ← or_null expression; ac_psr_consume Syntax.rparen 4; give (Syntax.grouping e))
          (on_match (Syntax.for_kw ∷ []) (λ t. ac_psr_range) (fail 2)))

  -- the loop of `ac_psr_finish_call`
  unfoldable pub call_arguments : ℕ → Args → Parse Args
  call_arguments zero args p = out_of_fuel
  call_arguments (suc fuel) args p =
      if ac_psr_check Syntax.rparen p
      then returned args p
      else bind (expression p) λ e.
        on_match (Syntax.comma ∷ []) (λ t. call_arguments fuel (append_arg args e))
          (call_arguments fuel (append_arg args e))

  unfoldable pub ac_psr_finish_call : ℕ → Expr → Token → Parse Expr
  ac_psr_finish_call fuel callee paren = do
    args ← call_arguments fuel Syntax.no_args
    ac_psr_consume Syntax.rparen 4
    give (Syntax.call 0 callee paren args)

  unfoldable pub ac_psr_finish_index : Expr → Parse Expr
  ac_psr_finish_index object = do
    e ← expression
    bracket ← ac_psr_consume Syntax.rbracket 4
    give (Syntax.index 0 object e bracket)

  -- the loop of `ac_psr_call`
  unfoldable pub postfix : ℕ → Expr → Parse Expr
  postfix zero e p = out_of_fuel
  postfix (suc fuel) e p =
      on_match (Syntax.lparen ∷ []) (λ t. ac_psr_finish_call fuel e t >>= postfix fuel)
        (on_match (Syntax.dot ∷ [])
          (λ t.
            (do name ← ac_psr_consume Syntax.identifier 3; give (Syntax.field 0 e name))
            >>= postfix fuel)
          (on_match (Syntax.lbracket ∷ []) (λ t. ac_psr_finish_index e >>= postfix fuel) (give e)))
        p

  unfoldable pub ac_psr_call : ℕ → Parse Expr
  ac_psr_call fuel = ac_psr_primary >>= postfix fuel

  unfoldable pub ac_psr_unary : ℕ → Parse Expr
  ac_psr_unary zero p = out_of_fuel
  ac_psr_unary (suc fuel) p =
      on_match (Syntax.bang ∷ Syntax.bitnot ∷ Syntax.minus ∷ Syntax.hash ∷ [])
        (λ op. ac_psr_unary fuel >>= λ right. give (Syntax.unary op right)) (ac_psr_call (suc fuel))
        p

-- The loop of a function for binary operators. The operand type of a new node is 0, which is TOKEN_LPAREN.
unfoldable pub operands : ℕ → List TokenType → Parse Expr → Expr → Parse Expr
operands zero ops operand e p = out_of_fuel
operands (suc fuel) ops operand e p =
    on_match ops
      (λ op.
        operand >>= λ right. operands fuel ops operand (Syntax.binary e op right Syntax.lparen))
      (give e) p

abbrev pub left_associative : ℕ → List TokenType → Parse Expr → Parse Expr
left_associative fuel ops operand = operand >>= operands fuel ops operand

module _ (expression : Parse Expr) (fuel : ℕ) where
  unfoldable pub ac_psr_bitor : Parse Expr
  ac_psr_bitor = left_associative fuel (Syntax.pipe ∷ []) (ac_psr_unary expression fuel)

  unfoldable pub ac_psr_bitxor : Parse Expr
  ac_psr_bitxor = left_associative fuel (Syntax.bitxor ∷ []) ac_psr_bitor

  unfoldable pub ac_psr_bitand : Parse Expr
  ac_psr_bitand = left_associative fuel (Syntax.bitand ∷ []) ac_psr_bitxor

  unfoldable pub ac_psr_bitshift : Parse Expr
  ac_psr_bitshift = left_associative fuel (Syntax.shl ∷ Syntax.shr ∷ []) ac_psr_bitand

  unfoldable pub ac_psr_factor : Parse Expr
  ac_psr_factor =
      left_associative fuel (Syntax.mult ∷ Syntax.div ∷ Syntax.modulo ∷ []) ac_psr_bitshift

  unfoldable pub ac_psr_term : Parse Expr
  ac_psr_term = left_associative fuel (Syntax.plus ∷ Syntax.minus ∷ []) ac_psr_factor

  unfoldable pub ac_psr_comparison : Parse Expr
  ac_psr_comparison =
      left_associative fuel
        (Syntax.greater ∷ Syntax.greater_equal ∷ Syntax.less ∷ Syntax.less_equal ∷ []) ac_psr_term

  unfoldable pub ac_psr_equality : Parse Expr
  ac_psr_equality =
      left_associative fuel
        (Syntax.equal_equal ∷ Syntax.bang_equal ∷ Syntax.contains ∷ Syntax.icontains
          ∷ Syntax.startswith ∷ Syntax.istartswith ∷ Syntax.endswith ∷ Syntax.iendswith
          ∷ Syntax.iequals ∷ Syntax.matches ∷ [])
        ac_psr_comparison

  unfoldable pub ac_psr_not : Parse Expr
  ac_psr_not =
      on_match (Syntax.not_kw ∷ [])
        (λ op. ac_psr_equality >>= λ right. give (Syntax.unary op right)) ac_psr_equality

  unfoldable pub ac_psr_or : Parse Expr
  ac_psr_or = left_associative fuel (Syntax.or_kw ∷ []) ac_psr_not

  unfoldable pub ac_psr_and : Parse Expr
  ac_psr_and = left_associative fuel (Syntax.and_kw ∷ []) ac_psr_or

-- The fuel counts how deep expressions stand inside each other, and bounds every loop on the way.
unfoldable pub ac_psr_expression : ℕ → Parse Expr
ac_psr_expression zero p = out_of_fuel
ac_psr_expression (suc fuel) p = ac_psr_and (ac_psr_expression fuel) (suc fuel) p
