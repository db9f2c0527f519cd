-- ===== src/Parser/Sequences.antt =====
-- `ac_psr_sequence` and its parts against the grammar of statements.
use alca.Base.{
  ℕ, zero, suc, ◌+◌, ◌<◌, ◌≡◌, refl, sym, ap, ◌∙◌, subst, true, false, Option, none, some, List, [],
  ◌∷◌, ◌++◌, length, append_assoc, append-nil, inl, inr, arith, Bool-cases, Bytes, bytes_eq,
  bytes_eq_sound,
}
use alca.Syntax
use alca.Syntax.{TokenType, TokenValue, same_type, Token, Expr, Rule, Statement}
use alca.Parser.{Parser, ac_psr_check, ac_psr_advance}
use alca.Parser.Expressions.{number_value}
use alca.Parser.Statements.{
  new_rule, unit_seconds, unit_minutes, span_in, max_span, one_sequence_rule, starts_rule,
  sequence_rules, ac_psr_sequence,
}
use alca.Parser.Outcomes.{holds, refused, AreTokens, IsToken}
use alca.Parser.Grammar.{IsType, IsOneOf}
use alca.Parser.Loops.{
  Reached, Then, Only, Nothing, Reached-here, Reached-map, Reached-refine, Reads, Reads-append,
  Reads-bind, consume-Reads, consume_on, match-Reads, Reads-weaken,
}
use alca.Parser.Reads.{only_one}
use alca.Parser.Programs
use alca.Parser.Programs.{
  IsScope, IsBody, IsSpan, IsSequenceRule, SequenceRules, IsRule, IsStatement, Program,
}
use alca.Parser.Primary.{number_word}
use alca.Parser.Rules.{event_scope-Reads, ac_psr_rule_body-Reads}

identifier_text :
    (ty : TokenType) (v : TokenValue)
    → IsToken ty v
    → same_type ty Syntax.identifier ≡ true
    → (s : Bytes) × (v ≡ Syntax.text s)
identifier_text Syntax.identifier (Syntax.text s) w e = (s, refl)
identifier_text Syntax.identifier (Syntax.word _) w e = absurd w
identifier_text Syntax.identifier Syntax.null w e = absurd w
identifier_text _ v w e = absurd (cc)

spanned :
    {X : List Token → Type 0} {ws : List Token} {span : ℕ}
    → IsSpan span ws
    → (ts : List Token) → Then X (λ vs. vs ≡ ws) ts
    → Then X (IsSpan span) ts
spanned {ws = ws} d ts (us, _, s, x, e) = (us, ws, s ∙ ap (λ (z : List Token). us ++ z) e, x, d)

-- the span behind its number and its unit
span_in-Reads :
    {j : ℕ} {p r : Parser} {X : List Token → Type 0} (c n u : Token) (k : ℕ)
    → IsType Syntax.colon c
    → IsType Syntax.number n
    → n.value ≡ Syntax.word k
    → IsType Syntax.identifier u
    → IsToken u.type u.value
    → Reached j p r (Then X (λ ts. ts ≡ c ∷ n ∷ u ∷ []))
    → Reads j p (λ span. Then X (IsSpan span)) (span_in k u r)
unfolding span_in
span_in-Reads {j = j} {p} {r} {X} c n u k tc tn vn tu w x =
    let (s, e) = identifier_text u.type u.value w tu in
    elim (Bool-cases (bytes_eq s unit_seconds)) [
      | inl b ↦
          let e' : u.value ≡ Syntax.text unit_seconds =
            e ∙ ap (λ (z : Bytes). Syntax.text z) (bytes_eq_sound s unit_seconds b) in
          rw (e, b, span_in)
            (holds (Reached-map (omega arith) (spanned (Programs.seconds c n u tc tn vn tu e')) x))
      | inr b ↦ elim (Bool-cases (bytes_eq s unit_minutes)) [
        | inl m ↦
            let e' : u.value ≡ Syntax.text unit_minutes =
              e ∙ ap (λ (z : Bytes). Syntax.text z) (bytes_eq_sound s unit_minutes m) in
            rw (e, b, m, span_in)
              (holds
                (Reached-map (omega arith) (spanned (Programs.minutes c n u tc tn vn tu e')) x))
        | inr m ↦
            rw (e, b, m, span_in)
              (refused (record {
                tokens = x.tokens;
                shrinks = omega (arith, x.shrinks);
                failed = omega arith;
              }))
      ]
    ]

span-Reads :
    {j : ℕ} {p q : Parser} {X : List Token → Type 0}
    → Reached j p q X
    → Reads j p (λ span. Then X (IsSpan span)) (max_span q)
unfolding max_span number_value
span-Reads {j = j} {X = X} r =
    match-Reads _ _ r
      (λ c _ _ tc r₁. consume_on Syntax.number 3 (omega arith) r₁ λ n s w tn r₂.
        let (k, e) = number_word n.type n.value w tn in
        rw (e, number_value)
          (consume_on Syntax.identifier 3 (omega arith) r₂ λ u _ w' tu r₃.
            Reads-weaken (omega arith) (
              span_in-Reads c n u k (only_one Syntax.colon c tc) tn e tu w'
                (Reached-map {j = j} (omega arith) (three c n u) r₃))))
      (holds (
        Reached-map {j = j} (omega arith)
          (λ ts x. (ts, [], sym (append-nil ts), x, Programs.no_span)) r))
  where
    three :
        (c n u : Token) (ts : List Token)
        → Then
            (Then (Then X (Only (IsOneOf (Syntax.colon ∷ [])) c)) (Only (IsType Syntax.number) n))
            (Only (IsType Syntax.identifier) u)
            ts
        → Then X (λ vs. vs ≡ c ∷ n ∷ u ∷ []) ts
    three c n u ts (_, _, e₁, (_, _, e₂, (us, _, e₃, x, (e₄, _)), (e₅, _)), (e₆, _)) =
        (us, c ∷ n ∷ u ∷ [], rw (e₁, e₂, e₃, e₄, e₅, e₆) (simp append_assoc), x, refl)

-- Where a rule starts there is a token.
record First (p : Parser) (t : Token) (q : Parser) : Type 0 where
  advance : ac_psr_advance p ≡ some (t, q)
  check : ac_psr_check Syntax.identifier p ≡ same_type t.type Syntax.identifier
  split : p.rest ≡ t ∷ q.rest
  error : q.error ≡ p.error

starts_rule-First :
    (ts : List Token) (error : ℕ) (line : Option ℕ)
    → let p : Parser = record { rest = ts; error = error; line = line } in
      starts_rule p ≡ true → (t : Token) × ((q : Parser) × First p t q)
unfolding starts_rule ac_psr_check ac_psr_advance
starts_rule-First [] error line e = absurd (cc)
starts_rule-First (t ∷ ts) error line e = (
  t,
  (
    record { rest = ts; error = error; line = line },
    record { advance = refl; check = refl; split = refl; error = refl },
  ),
)

same_first : {A : Type 0} {a b : A} {l m : List A} → a ∷ l ≡ b ∷ m → a ≡ b
same_first e = cc

by_first :
    {t : Token} {rest : List Token} {event : Option Token} {condition : Expr} {us vs : List Token}
    (behind : List Token)
    → t ∷ rest ≡ (us ++ vs) ++ behind
    → IsScope event us
    → IsBody condition vs
    → IsSequenceRule (new_rule t event condition false true) (us ++ vs)
by_first {t} behind s Programs.no_scope (Programs.body {es = es} o c to d tc) =
    Programs.inlined t Programs.no_scope (Programs.body o c to d tc)
      (ap (λ (z : Token). z ∷ (es ++ (c ∷ []))) (sym (same_first s)))
by_first {t} {vs = vs} behind s (Programs.scope c e tc te) b =
    Programs.inlined t (Programs.scope c e tc te) b
      (ap (λ (z : Token). z ∷ (e ∷ vs)) (sym (same_first s)))

inline_case :
    {t : Token} {rest : List Token} {event : Option Token} {condition : Expr}
    (ts behind : List Token)
    → t ∷ rest ≡ ts ++ behind
    → Then (Then Nothing (IsScope event)) (IsBody condition) ts
    → IsSequenceRule (new_rule t event condition false true) ts
inline_case ts behind s (_, vs, e₁, (_, us, e₂, e₃, d), b) =
    rw (e₁, e₂, e₃) (by_first behind (rw (e₁, e₂, e₃) at s) d b)

rule_in_sequence-Reads :
    (fuel : ℕ) (p : Parser)
    → AreTokens p.rest
    → length p.rest < fuel
    → starts_rule p ≡ true
    → Reads 1 p IsSequenceRule (one_sequence_rule fuel p)
unfolding one_sequence_rule
rule_in_sequence-Reads fuel p w l e =
    let (t, (q, f)) = starts_rule-First p.rest p.error p.line e in
    elim (Bool-cases (same_type t.type Syntax.identifier)) [
      | inl b ↦ rw (f.advance, f.check, b, one_sequence_rule) (holds (one_name t q f b))
      | inr b ↦
          rw (f.advance, f.check, b, one_sequence_rule)
            (Reads-bind (event_scope-Reads (Reached-here p w)) λ event _ r.
              Reads-bind (ac_psr_rule_body-Reads fuel r (omega (arith, l))) λ condition q r₁.
                holds (
                  Reached-refine (omega arith) (λ ts s. inline_case ts q.rest (sym f.split ∙ s))
                    r₁))
    ]
  where
    one_name :
        (t : Token) (q : Parser)
        → First p t q
        → IsType Syntax.identifier t
        → Reached 1 p q (IsSequenceRule (new_rule t none Syntax.null_expr true true))
    one_name t q f b =
        let n = ap (λ (ts : List Token). length ts) f.split in
        record {
          tokens = (rw f.split at w).1;
          shrinks = omega (arith, n);
          reads = inr (f.error, (t ∷ [], f.split, Programs.named t b));
        }

next_rule :
    {rules : List Rule} {r : Rule} (ts : List Token)
    → Then (SequenceRules rules) (IsSequenceRule r) ts
    → SequenceRules (rules ++ (r ∷ [])) ts
next_rule {rules} {r} ts (us, vs, s, a, d) =
    subst (λ (x : List Token). SequenceRules (rules ++ (r ∷ [])) x) (append-nil (us ++ vs) ∙ sym s)
      (Programs.more_rules [] a d tt)

next_rule_comma :
    {rules : List Rule} {r : Rule} (t : Token) (ts : List Token)
    → Then (Then (SequenceRules rules) (IsSequenceRule r)) (Only (IsOneOf (Syntax.comma ∷ [])) t) ts
    → SequenceRules (rules ++ (r ∷ [])) ts
next_rule_comma t ts (_, _, e₁, (_, _, e₂, a, d), (e₃, c)) =
    rw (e₁, e₂, e₃) (Programs.more_rules (t ∷ []) a d (only_one Syntax.comma t c))

sequence_rules-Reads :
    {j : ℕ} {p q : Parser} (fuel depth : ℕ) (rules : List Rule)
    → Reached j p q (SequenceRules rules)
    → length p.rest < fuel + j
    → length p.rest < depth + j
    → Reads 0 p SequenceRules (sequence_rules fuel depth rules q)
unfolding sequence_rules
sequence_rules-Reads zero depth rules r l l' = absurd (omega (arith, r.shrinks))
sequence_rules-Reads {j = j} {q = q} (suc fuel) depth rules r l l' =
    elim (Bool-cases (starts_rule q)) [
      | inl e ↦
          rw (e, sequence_rules)
            (Reads-bind
              (Reads-append r
                (rule_in_sequence-Reads depth q r.tokens (omega (arith, r.shrinks, l')) e))
              λ a _ r₁.
                match-Reads _ _ r₁
                  (λ t _ _ is r₂.
                    sequence_rules-Reads {j = suc j} fuel depth (rules ++ (a ∷ []))
                      (Reached-map (omega arith) (next_rule_comma t) r₂) (omega (arith, l))
                      (omega (arith, l')))
                  (sequence_rules-Reads {j = suc j} fuel depth (rules ++ (a ∷ []))
                    (Reached-map (omega arith) next_rule r₁) (omega (arith, l))
                    (omega (arith, l'))))
      | inr e ↦ rw (e, sequence_rules) (holds (Reached-map (omega arith) (λ ts x. x) r))
    ]

no_rule_yet : (ts : List Token) → Nothing ts → SequenceRules [] ts
no_rule_yet ts e = rw e Programs.no_rules

-- a sequence behind its keyword, which is the first token taken
pub sequence-Reads :
    {p q : Parser} (fuel : ℕ) (t : Token)
    → Reached 1 p q (Then Nothing (Only (IsOneOf (Syntax.sequence_kw ∷ [])) t))
    → length p.rest < fuel
    → Reads 1 p IsStatement (ac_psr_sequence fuel q)
unfolding ac_psr_sequence
sequence-Reads fuel t r l =
    Reads-bind (consume-Reads Syntax.identifier 3 (omega arith) r) λ id _ r₁.
      Reads-bind (span-Reads r₁) λ span _ r₂.
        Reads-bind (consume-Reads Syntax.lbracket 3 (omega arith) r₂) λ o s r₃.
          Reads-bind
            (Reads-append r₃ (
              sequence_rules-Reads {j = 0} fuel fuel []
                (Reached-map (omega arith) no_rule_yet (Reached-here s r₃.tokens))
                (omega (arith, r₃.shrinks, l)) (omega (arith, r₃.shrinks, l))))
            λ rules _ r₄.
              Reads-bind (consume-Reads Syntax.rbracket 2 (omega arith) r₄)
                λ c _ r₅. holds (Reached-map (omega arith) (as_sequence id o c span rules) r₅)
  where
    as_sequence :
        (id o c : Token) (span : ℕ) (rules : List Rule) (ts : List Token)
        → Then
            (Then
              (Then
                (Then
                  (Then
                    (Then Nothing (Only (IsOneOf (Syntax.sequence_kw ∷ [])) t))
                    (Only (IsType Syntax.identifier) id))
                  (IsSpan span))
                (Only (IsType Syntax.lbracket) o))
              (SequenceRules rules))
            (Only (IsType Syntax.rbracket) c)
            ts
        → IsStatement (Syntax.sequence id span rules) ts
    as_sequence id o c span rules ts
          (
            _,
            _,
            e₁,
            (
              _,
              vs,
              e₂,
              (
                _,
                _,
                e₃,
                (_, us, e₄, (_, _, e₅, (_, _, e₆, e₇, (e₈, tt')), (e₉, ti)), sp),
                (f₁, to),
              ),
              rs,
            ),
            (f₂, tc),
          ) =
        rw (e₁, e₂, e₃, e₄, e₅, e₆, e₇, e₈, e₉, f₁, f₂)
          (subst (λ (x : List Token). IsStatement (Syntax.sequence id span rules) x)
            (simp append_assoc)
            (Programs.sequence t id o c (only_one Syntax.sequence_kw t tt') ti sp to rs tc))
