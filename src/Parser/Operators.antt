-- ===== src/Parser/Operators.antt =====
-- The functions of libalca/parser.c for binary operators against the grammar, up to `ac_psr_expression`.
use alca.Base.{ℕ, zero, suc, ◌+◌, ◌≤◌, ◌<◌, subst, List, [], ◌∷◌, length, append_assoc, arith}
use alca.Syntax
use alca.Syntax.{TokenType, TokenValue, same_type, Token, Expr, Args}
use alca.Parser.{Parser, Parse}
use alca.Parser.Expressions.{
  operands, left_associative, ac_psr_bitor, ac_psr_bitxor, ac_psr_bitand, ac_psr_bitshift,
  ac_psr_factor, ac_psr_term, ac_psr_comparison, ac_psr_equality, ac_psr_not, ac_psr_or, ac_psr_and,
  ac_psr_expression,
}
use alca.Parser.Outcomes.{holds}
use alca.Parser.Grammar
use alca.Parser.Grammar.{
  Level, tighter, operators, IsType, IsOneOf, IsSeparator, IsAny, IsQuantifier, literal_types,
  Derives, Arguments,
}
use alca.Parser.Loops.{
  Reached, Then, Only, Nothing, Reached-here, Reached-map, Reads, Reads-append, Reads-bind,
  match-Reads, Reads-map,
}
use alca.Parser.Reads.{Parses, only_one}
use alca.Parser.Calls.{unary-Parses}

binary_case :
    {k : Level} {l r : Expr} (op : Token) (ts : List Token)
    → Then (Then (Derives k l) (Only (IsOneOf (operators k)) op)) (Derives (tighter k) r) ts
    → Derives k (Syntax.binary l op r Syntax.lparen) ts
binary_case {k} {l} {r} op ts (_, rs, e₁, (ls, _, e₂, d, (e₃, ty)), d') =
    rw (e₁, e₂, e₃)
      (subst (λ (x : List Token). Derives k (Syntax.binary l op r Syntax.lparen) x)
        (simp append_assoc) (Grammar.binary op ty d d'))

operands-Reads :
    {j n : ℕ} {p q : Parser} (k : Level) (operand : Parse Expr)
    → Parses (tighter k) n operand
    → (fuel : ℕ) (e : Expr) → 1 ≤ j
    → Reached j p q (Derives k e)
    → length p.rest < fuel + j
    → length p.rest < n + j
    → Reads 1 p (Derives k) (operands fuel (operators k) operand e q)
unfolding operands
operands-Reads k operand ih zero e one r l l' = absurd (omega (arith, r.shrinks))
operands-Reads {j = j} k operand ih (suc fuel) e one r l l' =
    match-Reads _ _ r
      (λ op s _ is r₁.
        Reads-bind (Reads-append r₁ (ih s r₁.tokens (omega (arith, r₁.shrinks, l')))) λ right _ r₂.
          operands-Reads {j = suc j} k operand ih fuel (Syntax.binary e op right Syntax.lparen)
            (omega arith) (Reached-map (omega arith) (binary_case op) r₂) (omega (arith, l))
            (omega (arith, l')))
      (holds (Reached-map one (λ ts d. d) r))

left_associative-Parses :
    (k : Level) (n : ℕ) (operand : Parse Expr)
    → Parses (tighter k) n operand
    → Parses k n (left_associative n (operators k) operand)
left_associative-Parses k n operand ih p w l = Reads-bind (ih p w l) λ e _ r.
    operands-Reads {j = 1} k operand ih n e (omega arith)
      (Reached-map (omega arith) (λ ts d. Grammar.below d) r) (omega (arith, l)) (omega (arith, l))

module _ (expression : Parse Expr) (n : ℕ)
    (ih : Parses Grammar.conjunction_level n expression) where
  term-Parses : Parses Grammar.term_level (suc n) (ac_psr_term expression (suc n))
  unfolding ac_psr_term ac_psr_factor ac_psr_bitshift ac_psr_bitand ac_psr_bitxor ac_psr_bitor
  term-Parses = left_associative-Parses Grammar.term_level _ _ (
      left_associative-Parses Grammar.factor_level _ _ (
        left_associative-Parses Grammar.bitshift_level _ _ (
          left_associative-Parses Grammar.bitand_level _ _ (
            left_associative-Parses Grammar.bitxor_level _ _
              (left_associative-Parses Grammar.bitor_level _ _ (unary-Parses expression n ih))))))

  equality-Parses : Parses Grammar.equality_level (suc n) (ac_psr_equality expression (suc n))
  unfolding ac_psr_equality ac_psr_comparison
  equality-Parses =
      left_associative-Parses Grammar.equality_level _ _
        (left_associative-Parses Grammar.comparison_level _ _ term-Parses)

  negation_case :
      {right : Expr} (op : Token) (ts : List Token)
      → Then
          (Then Nothing (Only (IsOneOf (Syntax.not_kw ∷ [])) op))
          (Derives Grammar.equality_level right)
          ts
      → Derives Grammar.negation_level (Syntax.unary op right) ts
  negation_case op ts (_, _, e₁, (_, _, e₂, e₃, (e₄, ty)), d) =
      rw (e₁, e₂, e₃, e₄) (Grammar.negation op (only_one Syntax.not_kw op ty) d)

  not-Parses : Parses Grammar.negation_level (suc n) (ac_psr_not expression (suc n))
  unfolding ac_psr_not
  not-Parses p w l =
      match-Reads _ _ (Reached-here p w)
        (λ op s _ is r.
          Reads-bind (Reads-append r (equality-Parses s r.tokens (omega (arith, r.shrinks, l))))
            λ right _ r₁. holds (Reached-map (omega arith) (negation_case op) r₁))
        (Reads-map (λ e ts d. Grammar.below d) (equality-Parses p w l))

  and-Parses : Parses Grammar.conjunction_level (suc n) (ac_psr_and expression (suc n))
  unfolding ac_psr_and ac_psr_or
  and-Parses =
      left_associative-Parses Grammar.conjunction_level _ _
        (left_associative-Parses Grammar.disjunction_level _ _ not-Parses)

pub expression-Parses : (fuel : ℕ) → Parses Grammar.conjunction_level fuel (ac_psr_expression fuel)
unfolding ac_psr_expression
expression-Parses zero p w l = elim l [ ]
expression-Parses (suc fuel) p w l =
    and-Parses (ac_psr_expression fuel) fuel (expression-Parses fuel) p w l
