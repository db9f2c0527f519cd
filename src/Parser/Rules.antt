-- ===== src/Parser/Rules.antt =====
-- `ac_psr_rule` and its parts against the grammar of statements.
use alca.Base.{
  ℕ, suc, ◌+◌, ◌<◌, sym, Bool, false, Option, some, List, [], ◌∷◌, ◌++◌, length, append_assoc,
  append-nil, arith,
}
use alca.Syntax
use alca.Syntax.{TokenType, TokenValue, same_type, Token, Expr, Rule, Statement}
use alca.Parser.{Parser}
use alca.Parser.Statements.{new_rule, ac_psr_rule_body, event_scope, ac_psr_rule}
use alca.Parser.Outcomes.{holds}
use alca.Parser.Grammar
use alca.Parser.Grammar.{IsType, IsOneOf, IsSeparator, Derives}
use alca.Parser.Loops.{
  Reached, Then, Only, Reached-map, Reads, Reads-append, Reads-bind, consume-Reads, match-Reads,
}
use alca.Parser.Reads.{only_one}
use alca.Parser.Operators.{expression-Parses}
use alca.Parser.Programs
use alca.Parser.Programs.{
  IsScope, IsBody, IsSpan, IsSequenceRule, SequenceRules, IsRule, IsStatement, Program,
}

pub event_scope-Reads :
    {j : ℕ} {p q : Parser} {X : List Token → Type 0}
    → Reached j p q X
    → Reads j p (λ event. Then X (IsScope event)) (event_scope q)
unfolding event_scope
event_scope-Reads {j = j} {X = X} r =
    match-Reads _ _ r
      (λ c _ _ is r₁.
        Reads-bind (consume-Reads Syntax.identifier 3 (omega arith) r₁)
          λ e _ r₂. holds (Reached-map (omega arith) (scoped c e) r₂))
      (holds (
        Reached-map {j = j} (omega arith)
          (λ ts x. (ts, [], sym (append-nil ts), x, Programs.no_scope)) r))
  where
    scoped :
        (c e : Token) (ts : List Token)
        → Then
            (Then X (Only (IsOneOf (Syntax.colon ∷ [])) c))
            (Only (IsType Syntax.identifier) e)
            ts
        → Then X (IsScope (some e)) ts
    scoped c e ts (_, _, e₁, (us, _, e₂, x, (e₃, tc)), (e₄, te)) = (
      us,
      c ∷ e ∷ [],
      rw (e₁, e₂, e₃, e₄) (append_assoc us (c ∷ []) (e ∷ [])),
      x,
      Programs.scope c e (only_one Syntax.colon c tc) te,
    )

pub ac_psr_rule_body-Reads :
    {j : ℕ} {p q : Parser} {X : List Token → Type 0} (fuel : ℕ)
    → Reached j p q X
    → length p.rest < fuel + j
    → Reads (suc j) p (λ e. Then X (IsBody e)) (ac_psr_rule_body fuel q)
unfolding ac_psr_rule_body
ac_psr_rule_body-Reads {j = j} {X = X} fuel r l =
    Reads-bind (consume-Reads Syntax.lbrace 3 (omega arith) r) λ o s r₁.
      Reads-bind
        (Reads-append r₁ (expression-Parses fuel s r₁.tokens (omega (arith, r₁.shrinks, l))))
        λ e _ r₂.
          Reads-bind (consume-Reads Syntax.rbrace 2 (omega arith) r₂)
            λ c _ r₃. holds (Reached-map (omega arith) (as_body o c e) r₃)
  where
    as_body :
        (o c : Token) (e : Expr) (ts : List Token)
        → Then
            (Then (Then X (Only (IsType Syntax.lbrace) o)) (Derives Grammar.conjunction_level e))
            (Only (IsType Syntax.rbrace) c)
            ts
        → Then X (IsBody e) ts
    as_body o c e ts (_, _, e₁, (_, es, e₂, (us, _, e₃, x, (e₄, to)), d), (e₅, tc)) = (
      us,
      o ∷ (es ++ (c ∷ [])),
      rw (e₁, e₂, e₃, e₄, e₅) (simp append_assoc),
      x,
      Programs.body o c to d tc,
    )

pub ac_psr_rule-Reads :
    {j : ℕ} {p q : Parser} {X : List Token → Type 0} (fuel : ℕ) (is_private : Bool)
    → Reached j p q X
    → length p.rest < fuel + j
    → Reads (suc j) p (λ s. Then X (IsRule is_private s)) (ac_psr_rule fuel is_private q)
unfolding ac_psr_rule
ac_psr_rule-Reads {j = j} {X = X} fuel is_private r l =
    Reads-bind (consume-Reads Syntax.identifier 3 (omega arith) r) λ id _ r₁.
      Reads-bind (event_scope-Reads r₁) λ event _ r₂.
        Reads-bind (ac_psr_rule_body-Reads fuel r₂ (omega (arith, l)))
          λ condition _ r₃. holds (Reached-map (omega arith) (as_rule id event condition) r₃)
  where
    as_rule :
        (id : Token) (event : Option Token) (e : Expr) (ts : List Token)
        → Then (Then (Then X (Only (IsType Syntax.identifier) id)) (IsScope event)) (IsBody e) ts
        → Then X (IsRule is_private (Syntax.rule (new_rule id event e false is_private))) ts
    as_rule id event e ts (_, vs, e₁, (_, us, e₂, (xs, _, e₃, x, (e₄, ti)), s), b) =
        (xs, id ∷ (us ++ vs), rw (e₁, e₂, e₃, e₄) (simp append_assoc), x, Programs.rule id ti s b)
