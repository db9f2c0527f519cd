-- ===== src/Parser/Total.antt =====
-- What the parser gives for a whole expression and a whole program.
use alca.Base.{
  ℕ, zero, suc, ◌+◌, ◌≤◌, ◌<◌, ◌≡◌, refl, ◌∙◌, true, false, Option, none, some, List, [], ◌∷◌, ◌++◌,
  length, append_assoc, if◌then◌else◌, inl, inr, ◌⊎◌, arith, not, ◌==◌,
}
use alca.Syntax
use alca.Syntax.{TokenType, TokenValue, same_type, Token, Expr, Rule, Statement}
use alca.Parser.{
  Parser, Outcome, returned, null, stuck, out_of_fuel, ac_psr_set_error, ac_psr_match,
}
use alca.Parser.Expressions.{
  ac_psr_expression, ac_psr_bitor, ac_psr_bitxor, ac_psr_bitand, ac_psr_bitshift, ac_psr_factor,
  ac_psr_term, ac_psr_comparison, ac_psr_equality, ac_psr_not, ac_psr_or, ac_psr_and, ac_psr_unary,
  ac_psr_call, ac_psr_primary, ac_psr_range, quantifier,
}
use alca.Parser.Statements.{
  ac_psr_import, statement, statements, ac_psr_ast, ac_psr_new, ac_psr_parse,
}
use alca.Parser.Outcomes.{Ensures, holds, refused, Ensures-bind, Ensures-map, AreTokens, Failed}
use alca.Parser.Grammar
use alca.Parser.Grammar.{IsType, IsOneOf, IsSeparator, Derives}
use alca.Parser.Loops.{
  Reached, Then, Only, Nothing, Reached-here, Reached-map, Reached-append, Reads, Reads-bind,
  consume-Reads, match-Reads,
}
use alca.Parser.Reads.{only_one, fail-Reads}
use alca.Parser.Operators.{expression-Parses}
use alca.Parser.Programs
use alca.Parser.Programs.{
  IsScope, IsBody, IsSpan, IsSequenceRule, SequenceRules, IsRule, IsStatement, Program,
}
use alca.Parser.Rules.{ac_psr_rule-Reads}
use alca.Parser.Sequences.{sequence-Reads}

-- A statement, or the end of the program.
abbrev IsNext : Option Statement → List Token → Type 0
IsNext none ts = (t : Token) × (ts ≡ t ∷ []) × IsType Syntax.eof t
IsNext (some s) ts = IsStatement s ts

public_case :
    {s : Statement} (t : Token) (ts : List Token)
    → Then (Then Nothing (Only (IsOneOf (Syntax.rule_kw ∷ [])) t)) (IsRule false s) ts
    → IsStatement s ts
public_case t ts (_, _, e₁, (_, _, e₂, e₃, (e₄, c)), r) =
    rw (e₁, e₂, e₃, e₄) (Programs.public_rule t (only_one Syntax.rule_kw t c) r)

private_case :
    {s : Statement} (t u : Token) (ts : List Token)
    → Then
        (Then
          (Then Nothing (Only (IsOneOf (Syntax.private_kw ∷ [])) t))
          (Only (IsType Syntax.rule_kw) u))
        (IsRule true s)
        ts
    → IsStatement s ts
private_case t u ts (_, _, e₁, (_, _, e₂, (_, _, e₃, e₄, (e₅, c)), (e₆, d)), r) =
    rw (e₁, e₂, e₃, e₄, e₅, e₆) (Programs.private_rule t u (only_one Syntax.private_kw t c) d r)

import_case :
    (t name : Token) (ts : List Token)
    → Then
        (Then Nothing (Only (IsOneOf (Syntax.import_kw ∷ [])) t))
        (Only (IsType Syntax.identifier) name)
        ts
    → IsStatement (Syntax.import name) ts
import_case t name ts (_, _, e₁, (_, _, e₂, e₃, (e₄, c)), (e₅, d)) =
    rw (e₁, e₂, e₃, e₄, e₅) (Programs.import t name (only_one Syntax.import_kw t c) d)

end_case :
    (t : Token) (ts : List Token)
    → Then Nothing (Only (IsOneOf (Syntax.eof ∷ [])) t) ts
    → IsNext none ts
end_case t ts (_, _, e₁, e₂, (e₃, c)) = (t, rw (e₁, e₂, e₃) refl, only_one Syntax.eof t c)

statement-Reads :
    (fuel : ℕ) (p : Parser)
    → AreTokens p.rest
    → length p.rest < fuel
    → Reads 1 p IsNext (statement fuel p)
unfolding statement ac_psr_import
statement-Reads fuel p w l =
    match-Reads _ _ (Reached-here p w)
      (λ t _ _ _ r.
        Reads-bind (ac_psr_rule-Reads fuel false r (omega (arith, l)))
          λ s _ r₁. holds (Reached-map (omega arith) (public_case t) r₁))
      (match-Reads _ _ (Reached-here p w)
        (λ t _ _ _ r. Reads-bind (consume-Reads Syntax.rule_kw 3 (omega arith) r) λ u _ r₁.
          Reads-bind (ac_psr_rule-Reads fuel true r₁ (omega (arith, l)))
            λ s _ r₂. holds (Reached-map (omega arith) (private_case t u) r₂))
        (match-Reads _ _ (Reached-here p w)
          (λ t _ _ _ r. Reads-bind (sequence-Reads fuel t r l) λ s _ r₁. holds r₁)
          (match-Reads _ _ (Reached-here p w)
            (λ t _ _ _ r.
              Reads-bind
                (Reads-bind (consume-Reads Syntax.identifier 3 (omega arith) r)
                  λ name _ r₁. holds (Reached-map {j = 1} (omega arith) (import_case t name) r₁))
                λ s _ r₂. holds r₂)
            (match-Reads _ _ (Reached-here p w)
              (λ t _ _ _ r. holds (Reached-map (omega arith) (end_case t) r))
              (fail-Reads 3 (omega arith) (Reached-here p w))))))

abbrev Whole : List Statement → List Token → Type 0
Whole program = Then (Program program) (IsNext none)

one_more :
    {program : List Statement} (a : Statement) (ts : List Token)
    → Then (Program program) (IsStatement a) ts
    → Program (program ++ (a ∷ [])) ts
one_more a ts (us, vs, s, x, y) = rw s (Programs.more_statements x y)

statements-Reads :
    {j : ℕ} {p q : Parser} (fuel depth : ℕ) (program : List Statement)
    → Reached j p q (Program program)
    → length p.rest < fuel + j
    → length p.rest < depth + j
    → Reads 0 p Whole (statements fuel depth program q)
unfolding statements
statements-Reads zero depth program r l l' = absurd (omega (arith, r.shrinks))
statements-Reads {j = j} {p} {q} (suc fuel) depth program r l l' =
    go
      (λ a s r'.
        statements-Reads {j = j + 1} fuel depth (program ++ (a ∷ [])) r' (omega (arith, l))
          (omega (arith, l')))
      (statement depth q) refl (statement-Reads depth q r.tokens (omega (arith, r.shrinks, l')))
  where
    go :
        ((a : Statement) (s : Parser)
          → Reached (j + 1) p s (Program (program ++ (a ∷ [])))
          → Reads 0 p Whole (statements fuel depth (program ++ (a ∷ [])) s))
        → (o : Outcome (Option Statement)) → statement depth q ≡ o
        → Reads 1 q IsNext o
        → Reads 0 p Whole (statements (suc fuel) depth program q)
    go again (returned none s) eq (holds x) =
        rw (eq, statements) (holds (Reached-map (omega arith) (λ ts t. t) (Reached-append r x)))
    go again (returned (some a) s) eq (holds x) =
        rw (eq, statements)
          (again a s (Reached-map (omega arith) (one_more a) (Reached-append r x)))
    go again (null s) eq (refused x) =
        rw (eq, statements)
          (holds (record {
            tokens = x.tokens;
            shrinks = omega (arith, x.shrinks, r.shrinks);
            reads = inl x.failed;
          }))
    go again stuck eq x = elim x [ ]
    go again out_of_fuel eq x = elim x [ ]

-- The tokens up to the end token are the program, and no error was set.
pub record IsParsed (tokens : List Token) (program : List Statement) (q : Parser) : Type 0 where
  pub taken : List Token
  pub end : Token
  pub split : tokens ≡ taken ++ (end ∷ q.rest)
  pub ended : IsType Syntax.eof end
  pub tree : Program program taken
  pub error : q.error ≡ 0

unlike : (n : ℕ) → 1 ≤ n → not (n == 0) ≡ true
unlike n l = ground arith

zero_error : {n : ℕ} → n ≡ 0 → not (n == 0) ≡ false
zero_error e = ground arith

ast-Ensures :
    (tokens : List Token) (program : List Statement) (q : Parser)
    → Reached 0 (ac_psr_new tokens) q (Whole program)
    → Ensures (IsParsed tokens) Failed (if not (q.error == 0) then null q else returned program q)
ast-Ensures tokens program q r = go r.reads
  where
    go :
        Failed q
          ⊎ ((q.error ≡ 0) × ((ts : List Token) × (tokens ≡ ts ++ q.rest) × Whole program ts))
        → Ensures
            (IsParsed tokens)
            Failed
            (if not (q.error == 0) then null q else returned program q)
    go (inl e) = rw (unlike q.error e) (refused e)
    go (inr (e, (ts, s, (us, vs, e₁, d, (t, e₂, c))))) = rw (zero_error e) (
        holds (record {
          taken = us;
          end = t;
          split = rw (e₁, e₂) at s ∙ append_assoc us (t ∷ []) q.rest;
          ended = c;
          tree = d;
          error = e;
        }))

-- Where no error was set, the tokens taken derive the expression.
pub record IsTree (tokens : List Token) (e : Expr) (q : Parser) : Type 0 where
  pub tree :
      Failed q
      ⊎ ((q.error ≡ 0)
          × ((ts : List Token) × (tokens ≡ ts ++ q.rest) × Derives Grammar.conjunction_level e ts))

-- `ac_psr_expression` with more fuel than there are tokens ends: with NULL and an error code, or with a tree. The tree
-- is derived by the tokens taken, or an error code is set all the same, as behind a NULL condition or group.
pub ac_psr_expression-Derives :
    (fuel : ℕ) (tokens : List Token)
    → AreTokens tokens
    → length tokens < fuel
    → Ensures (IsTree tokens) Failed (ac_psr_expression fuel (ac_psr_new tokens))
ac_psr_expression-Derives fuel tokens w l =
    Ensures-map (λ e q r. record { tree = r.reads }) (λ q r. r.failed)
      (expression-Parses fuel (ac_psr_new tokens) w l)

-- The parser with more fuel than there are tokens ends: with NULL and an error code, or without an error and with the
-- statements that the tokens in front of the end token derive.
pub ac_psr_parse-Program :
    (fuel : ℕ) (tokens : List Token)
    → AreTokens tokens
    → length tokens < fuel
    → Ensures (IsParsed tokens) Failed (ac_psr_parse fuel tokens)
unfolding ac_psr_parse ac_psr_ast
ac_psr_parse-Program fuel tokens w l =
    Ensures-bind
      (statements-Reads {j = 0} fuel fuel []
        (Reached-map (omega arith) (λ ts e. rw e Programs.no_statements)
          (Reached-here (ac_psr_new tokens) w))
        (omega (arith, l)) (omega (arith, l)))
      (ast-Ensures tokens) (λ q r. r.failed)

-- `for any` is refused where neither `all` nor a number follows, whatever stands behind: the error is AC_ERROR_INVALID_SYNTAX
-- at the next token.
pub ac_psr_expression-for_any :
    (fuel : ℕ) (f a t : Token) (tokens : List Token)
    → f.type ≡ Syntax.for_kw
    → a.type ≡ Syntax.any_kw
    → same_type t.type Syntax.all_kw ≡ false
    → same_type t.type Syntax.number ≡ false
    → ac_psr_expression (suc fuel) (ac_psr_new (f ∷ a ∷ t ∷ tokens))
      ≡ null (record { rest = t ∷ tokens; error = 2; line = some t.line })
unfolding ac_psr_expression ac_psr_and ac_psr_or ac_psr_not ac_psr_equality ac_psr_comparison
    ac_psr_term ac_psr_factor ac_psr_bitshift ac_psr_bitand ac_psr_bitxor ac_psr_bitor ac_psr_unary
    ac_psr_call ac_psr_primary ac_psr_range quantifier ac_psr_match ac_psr_set_error
ac_psr_expression-for_any fuel f a t tokens ef ea e₁ e₂ = rw (ef, ea, e₁, e₂) refl
