-- ===== src/Parser/Programs.antt =====
-- The statements that the parser accepts, as derivations over the tokens.
use alca.Base.{ℕ, ◌≡◌, ◌*◌, Bool, true, false, Option, none, some, List, [], ◌∷◌, ◌++◌}
use alca.Base.Words.{wrap32}
use alca.Syntax
use alca.Syntax.{Token, Expr, Rule, Statement}
use alca.Parser.Statements.{new_rule, unit_seconds, unit_minutes}
use alca.Parser.Grammar
use alca.Parser.Grammar.{IsType, IsSeparator, Derives}

-- the event type of a rule
pub data IsScope : Option Token → List Token → Type 0 where
  no_scope : IsScope none []
  scope :
      (c e : Token)
      → IsType Syntax.colon c
      → IsType Syntax.identifier e
      → IsScope (some e) (c ∷ e ∷ [])

pub data IsBody : Expr → List Token → Type 0 where
  body :
      {e : Expr} {es : List Token} (o c : Token)
      → IsType Syntax.lbrace o
      → Derives Grammar.conjunction_level e es
      → IsType Syntax.rbrace c
      → IsBody e (o ∷ (es ++ (c ∷ [])))

-- the span of a sequence in seconds; minutes wrap at 32 bits
pub data IsSpan : ℕ → List Token → Type 0 where
  no_span : IsSpan 0 []
  seconds :
      {k : ℕ} (c n u : Token)
      → IsType Syntax.colon c
      → IsType Syntax.number n
      → n.value ≡ Syntax.word k
      → IsType Syntax.identifier u
      → u.value ≡ Syntax.text unit_seconds
      → IsSpan k (c ∷ n ∷ u ∷ [])
  minutes :
      {k : ℕ} (c n u : Token)
      → IsType Syntax.colon c
      → IsType Syntax.number n
      → n.value ≡ Syntax.word k
      → IsType Syntax.identifier u
      → u.value ≡ Syntax.text unit_minutes
      → IsSpan (wrap32 (k * 60)) (c ∷ n ∷ u ∷ [])

-- A rule of a sequence is a name, or a body that may have a scope; its token is then the first one.
pub data IsSequenceRule : Rule → List Token → Type 0 where
  named :
      (t : Token)
      → IsType Syntax.identifier t
      → IsSequenceRule (new_rule t none Syntax.null_expr true true) (t ∷ [])
  inlined :
      {event : Option Token} {condition : Expr} {us vs ws : List Token} (t : Token)
      → IsScope event us
      → IsBody condition vs
      → us ++ vs ≡ t ∷ ws
      → IsSequenceRule (new_rule t event condition false true) (us ++ vs)

pub data SequenceRules : List Rule → List Token → Type 0 where
  no_rules : SequenceRules [] []
  more_rules :
      {rules : List Rule} {r : Rule} {ts us : List Token} (sep : List Token)
      → SequenceRules rules ts
      → IsSequenceRule r us
      → IsSeparator sep
      → SequenceRules (rules ++ (r ∷ [])) ((ts ++ us) ++ sep)

-- a rule behind its keyword
pub data IsRule (is_private : Bool) : Statement → List Token → Type 0 where
  rule :
      {event : Option Token} {condition : Expr} {us vs : List Token} (name : Token)
      → IsType Syntax.identifier name
      → IsScope event us
      → IsBody condition vs
      → IsRule is_private
          (Syntax.rule (new_rule name event condition false is_private))
          (name ∷ (us ++ vs))

pub data IsStatement : Statement → List Token → Type 0 where
  public_rule :
      {s : Statement} {ts : List Token} (t : Token)
      → IsType Syntax.rule_kw t
      → IsRule false s ts
      → IsStatement s (t ∷ ts)
  private_rule :
      {s : Statement} {ts : List Token} (t u : Token)
      → IsType Syntax.private_kw t
      → IsType Syntax.rule_kw u
      → IsRule true s ts
      → IsStatement s (t ∷ u ∷ ts)
  sequence :
      {span : ℕ} {rules : List Rule} {us vs : List Token} (t name o c : Token)
      → IsType Syntax.sequence_kw t
      → IsType Syntax.identifier name
      → IsSpan span us
      → IsType Syntax.lbracket o
      → SequenceRules rules vs
      → IsType Syntax.rbracket c
      → IsStatement (Syntax.sequence name span rules) (t ∷ name ∷ (us ++ (o ∷ (vs ++ (c ∷ [])))))
  import :
      (t name : Token)
      → IsType Syntax.import_kw t
      → IsType Syntax.identifier name
      → IsStatement (Syntax.import name) (t ∷ name ∷ [])

pub data Program : List Statement → List Token → Type 0 where
  no_statements : Program [] []
  more_statements :
      {program : List Statement} {s : Statement} {ts us : List Token}
      → Program program ts
      → IsStatement s us
      → Program (program ++ (s ∷ [])) (ts ++ us)
