-- ===== src/Parser/Statements.antt =====
-- The functions of libalca/parser.c that read statements and programs.
use alca.Base.{
  ℕ, zero, suc, ◌*◌, Bool, true, false, not, ◌||◌, Option, none, some, List, [], ◌∷◌, ◌++◌, ◌==◌,
  if◌then◌else◌, Bytes, bytes_eq,
}
use alca.Base.Words.{wrap32}
use alca.Syntax
use alca.Syntax.{TokenType, Token, Expr, Rule, Statement}
use alca.Parser.{
  Parser, Outcome, returned, null, stuck, out_of_fuel, Parse, bind, ◌>>=◌, ◌>>◌, fail, give,
  ac_psr_check, ac_psr_advance, ac_psr_consume,
}
use alca.Parser.Expressions.{on_match, number_value, ac_psr_expression}

abbrev pub new_rule : Token → Option Token → Expr → Bool → Bool → Rule
new_rule name event condition external is_private = record {
  external = external;
  is_private = is_private;
  name = name;
  event = event;
  condition = condition;
}

unfoldable pub ac_psr_rule_body : ℕ → Parse Expr
ac_psr_rule_body fuel = do
  ac_psr_consume Syntax.lbrace 3
  e ← ac_psr_expression fuel
  ac_psr_consume Syntax.rbrace 2
  give e

-- `: IDENTIFIER`, where it stands there
unfoldable pub event_scope : Parse (Option Token)
event_scope =
    on_match (Syntax.colon ∷ [])
      (λ t. ac_psr_consume Syntax.identifier 3 >>= λ event. give (some event)) (give none)

unfoldable pub ac_psr_rule : ℕ → Bool → Parse Statement
ac_psr_rule fuel is_private = do
  id ← ac_psr_consume Syntax.identifier 3
  event ← event_scope
  condition ← ac_psr_rule_body fuel
  give (Syntax.rule (new_rule id event condition false is_private))

-- the characters `s` and `m`, and SPAN_MINUTE
abbrev pub unit_seconds : Bytes
unit_seconds = 115 ∷ []

abbrev pub unit_minutes : Bytes
unit_minutes = 109 ∷ []

-- The span after its number; the error is set at the unit, which is the token in front of the current one.
unfoldable pub span_in : ℕ → Token → Parse ℕ
span_in n unit p = elim unit.value [
  | Syntax.text s ↦
      if bytes_eq s unit_seconds
      then returned n p
      else if bytes_eq s unit_minutes
      then returned (wrap32 (n * 60)) p
      else null (record p { error = 3; line = some unit.line })
  | _ ↦ stuck
]

unfoldable pub max_span : Parse ℕ
max_span =
    on_match (Syntax.colon ∷ [])
      (λ t. do
        t ← ac_psr_consume Syntax.number 3
        n ← number_value t
        unit ← ac_psr_consume Syntax.identifier 3
        span_in n unit)
      (give 0)

-- a rule in the list of a sequence, where the current token is an identifier, `{` or `:`
unfoldable pub one_sequence_rule : ℕ → Parse Rule
one_sequence_rule fuel p = elim (ac_psr_advance p) [
  | none ↦ null p
  | some (t, q) ↦
      (if ac_psr_check Syntax.identifier p
        then returned (new_rule t none Syntax.null_expr true true) q
        else bind (event_scope p) λ event.
          ac_psr_rule_body fuel >>= λ condition. give (new_rule t event condition false true))
]

unfoldable pub starts_rule : Parser → Bool
starts_rule p =
    ac_psr_check Syntax.identifier p || ac_psr_check Syntax.lbrace p || ac_psr_check Syntax.colon p

-- the loop of `ac_psr_sequence`
unfoldable pub sequence_rules : ℕ → ℕ → List Rule → Parse (List Rule)
sequence_rules zero depth rules p = out_of_fuel
sequence_rules (suc fuel) depth rules p =
    if not (starts_rule p)
    then returned rules p
    else bind (one_sequence_rule depth p) λ r.
      on_match (Syntax.comma ∷ []) (λ t. sequence_rules fuel depth (rules ++ (r ∷ [])))
        (sequence_rules fuel depth (rules ++ (r ∷ [])))

unfoldable pub ac_psr_sequence : ℕ → Parse Statement
ac_psr_sequence fuel = do
  id ← ac_psr_consume Syntax.identifier 3
  span ← max_span
  ac_psr_consume Syntax.lbracket 3
  rules ← sequence_rules fuel fuel []
  ac_psr_consume Syntax.rbracket 2
  give (Syntax.sequence id span rules)

unfoldable pub ac_psr_import : Parse Statement
ac_psr_import = ac_psr_consume Syntax.identifier 3 >>= λ name. give (Syntax.import name)

-- one statement by its first token; the inner `none` is TOKEN_EOF, which ends the program
unfoldable pub statement : ℕ → Parse (Option Statement)
statement fuel =
    on_match (Syntax.rule_kw ∷ []) (λ t. ac_psr_rule fuel false >>= λ s. give (some s))
      (on_match (Syntax.private_kw ∷ [])
        (λ t. ac_psr_consume Syntax.rule_kw 3 >> (ac_psr_rule fuel true >>= λ s. give (some s)))
        (on_match (Syntax.sequence_kw ∷ []) (λ t. ac_psr_sequence fuel >>= λ s. give (some s))
          (on_match (Syntax.import_kw ∷ []) (λ t. ac_psr_import >>= λ s. give (some s))
            (on_match (Syntax.eof ∷ []) (λ t. give none) (fail 3)))))

-- The loop of `ac_psr_ast`, with the program that it has when it breaks.
unfoldable pub statements : ℕ → ℕ → List Statement → Parse (List Statement)
statements zero depth program p = out_of_fuel
statements (suc fuel) depth program p = elim (statement depth p) [
  | returned s q ↦ elim s [
    | none ↦ returned program q
    | some x ↦ statements fuel depth (program ++ (x ∷ [])) q
  ]
  | null q ↦ returned program q
  | stuck ↦ stuck
  | out_of_fuel ↦ out_of_fuel
]

unfoldable pub ac_psr_ast : ℕ → Parse (List Statement)
ac_psr_ast fuel = statements fuel fuel [] >>= λ program q.
    if not (q.error == 0) then null q else returned program q

-- `ac_psr_new` on a lexer's tokens
abbrev pub ac_psr_new : List Token → Parser
ac_psr_new tokens = record { rest = tokens; error = 0; line = none }

unfoldable pub ac_psr_parse : ℕ → List Token → Outcome (List Statement)
ac_psr_parse fuel tokens = ac_psr_ast fuel (ac_psr_new tokens)
