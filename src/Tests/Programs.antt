-- ===== src/Tests/Programs.antt =====
-- The tokens of `private rule r : f { for all i in (1 .. 2) : ((i == 1) or g(i, 2)[0].n > 3) }` and of a sequence.
use alca.Base.{ℕ, ◌≡◌, ◌∷◌, [], List, refl, true, false, Bool, some, arith, ◌++◌}
use alca.Syntax
use alca.Syntax.{Token, TokenType, TokenValue, Statement}
use alca.Parser.{Outcome, returned, null}
use alca.Parser.Expressions.{ac_psr_expression}
use alca.Parser.Statements.{ac_psr_new, ac_psr_parse}
use alca.Parser.Outcomes.{Ensures, Failed}
use alca.Parser.Total.{
  IsParsed, IsTree, ac_psr_parse-Program, ac_psr_expression-Derives, ac_psr_expression-for_any,
}

abbrev bare : TokenType → Token
bare t = record { type = t; value = Syntax.null; line = 1; flags = 0 }

abbrev number : ℕ → Token
number n = record { type = Syntax.number; value = Syntax.word n; line = 1; flags = 0 }

abbrev name : ℕ → Token
name c = record { type = Syntax.identifier; value = Syntax.text (c ∷ []); line = 1; flags = 0 }

abbrev condition : List Token
condition =
    bare Syntax.for_kw
    ∷ bare Syntax.all_kw
    ∷ name 105
    ∷ bare Syntax.in_kw
    ∷ bare Syntax.lparen
    ∷ number 1
    ∷ bare Syntax.dot_dot
    ∷ number 2
    ∷ bare Syntax.rparen
    ∷ bare Syntax.colon
    ∷ bare Syntax.lparen
    ∷ bare Syntax.lparen
    ∷ name 105
    ∷ bare Syntax.equal_equal
    ∷ number 1
    ∷ bare Syntax.rparen
    ∷ bare Syntax.or_kw
    ∷ name 103
    ∷ bare Syntax.lparen
    ∷ name 105
    ∷ bare Syntax.comma
    ∷ number 2
    ∷ bare Syntax.rparen
    ∷ bare Syntax.lbracket
    ∷ number 0
    ∷ bare Syntax.rbracket
    ∷ bare Syntax.dot
    ∷ name 110
    ∷ bare Syntax.greater
    ∷ number 3
    ∷ bare Syntax.rparen
    ∷ []

abbrev program : List Token
program =
    (bare Syntax.private_kw
      ∷ bare Syntax.rule_kw
      ∷ name 114
      ∷ bare Syntax.colon
      ∷ name 102
      ∷ bare Syntax.lbrace
      ∷ condition)
    ++ (bare Syntax.rbrace
        ∷ bare Syntax.sequence_kw
        ∷ name 115
        ∷ bare Syntax.colon
        ∷ number 2
        ∷ name 109
        ∷ bare Syntax.lbracket
        ∷ name 114
        ∷ bare Syntax.comma
        ∷ bare Syntax.lbrace
        ∷ bare Syntax.true_kw
        ∷ bare Syntax.rbrace
        ∷ bare Syntax.rbracket
        ∷ bare Syntax.eof
        ∷ [])

abbrev accepts : Outcome (List Statement) → Bool
accepts (returned _ _) = true
accepts _ = false

abbrev accepted : Bool
accepted = accepts (ac_psr_parse 60 program)

ac_psr_parse-Program_example : Ensures (IsParsed program) Failed (ac_psr_parse 60 program)
ac_psr_parse-Program_example = ac_psr_parse-Program 60 program (omega arith) (omega arith)

ac_psr_expression-Derives_example :
    Ensures (IsTree condition) Failed (ac_psr_expression 40 (ac_psr_new condition))
ac_psr_expression-Derives_example =
    ac_psr_expression-Derives 40 condition (omega arith) (omega arith)

ac_psr_expression-for_any_example :
    ac_psr_expression 9
      (ac_psr_new (bare Syntax.for_kw ∷ bare Syntax.any_kw ∷ name 105 ∷ bare Syntax.in_kw ∷ []))
    ≡ null (record { rest = name 105 ∷ bare Syntax.in_kw ∷ []; error = 2; line = some 1 })
ac_psr_expression-for_any_example =
    ac_psr_expression-for_any 8 (bare Syntax.for_kw) (bare Syntax.any_kw) (name 105)
      (bare Syntax.in_kw ∷ []) refl refl refl refl
