-- ===== src/Parser/Calls.antt =====
-- `ac_psr_call` with its calls, fields and indices, and `ac_psr_unary`, against the grammar.
use alca.Base.{
  ℕ, zero, suc, ◌+◌, ◌≤◌, ◌<◌, sym, ◌∙◌, subst, List, [], ◌∷◌, ◌++◌, length, append_assoc,
  append-nil, inl, inr, arith, Bool-cases,
}
use alca.Syntax
use alca.Syntax.{TokenType, TokenValue, same_type, Token, Expr, Args}
use alca.Parser.{Parser, Parse, ac_psr_check}
use alca.Parser.Expressions.{
  append_arg, call_arguments, ac_psr_finish_call, ac_psr_finish_index, postfix, ac_psr_call,
  ac_psr_unary,
}
use alca.Parser.Outcomes.{holds, AreTokens}
use alca.Parser.Grammar
use alca.Parser.Grammar.{
  Level, tighter, operators, IsType, IsOneOf, IsSeparator, IsAny, IsQuantifier, literal_types,
  Derives, Arguments,
}
use alca.Parser.Loops.{
  Reached, Then, Only, Nothing, Reached-here, Reached-map, Reads, Reads-append, Reads-bind,
  consume-Reads, match-Reads, Reads-map, Reads-weaken,
}
use alca.Parser.Reads.{Parses, only_one, inner}
use alca.Parser.Primary.{primary-Parses}

module _ (expression : Parse Expr) (n : ℕ)
    (ih : Parses Grammar.conjunction_level n expression) where
  no_separator :
      {args : Args} {e : Expr} (ts : List Token)
      → Then (Arguments args) (Derives Grammar.conjunction_level e) ts
      → Arguments (append_arg args e) ts
  no_separator {args} {e} ts (us, vs, s, a, d) =
      subst (λ (x : List Token). Arguments (append_arg args e) x) (append-nil (us ++ vs) ∙ sym s)
        (Grammar.more [] a d tt)

  separator :
      {args : Args} {e : Expr} (t : Token) (ts : List Token)
      → Then
          (Then (Arguments args) (Derives Grammar.conjunction_level e))
          (Only (IsOneOf (Syntax.comma ∷ [])) t)
          ts
      → Arguments (append_arg args e) ts
  separator t ts (_, _, e₁, (_, _, e₂, a, d), (e₃, c)) =
      rw (e₁, e₂, e₃) (Grammar.more (t ∷ []) a d (only_one Syntax.comma t c))

  call_arguments-Reads :
      {j : ℕ} {p q : Parser} (fuel : ℕ) (args : Args)
      → Reached j p q (Arguments args)
      → length p.rest < fuel + j
      → length p.rest < n + j
      → Reads 0 p Arguments (call_arguments expression fuel args q)
  unfolding call_arguments
  call_arguments-Reads zero args r l l' = absurd (omega (arith, r.shrinks))
  call_arguments-Reads {j = j} {p} {q} (suc fuel) args r l l' =
      elim (Bool-cases (ac_psr_check Syntax.rparen q)) [
        | inl e ↦ rw (e, call_arguments) (holds (Reached-map (omega arith) (λ ts x. x) r))
        | inr e ↦
            rw (e, call_arguments)
              (Reads-bind (Reads-append r (ih q r.tokens (omega (arith, r.shrinks)))) λ a _ r₁.
                match-Reads _ _ r₁
                  (λ t _ _ is r₂.
                    call_arguments-Reads {j = suc j} fuel (append_arg args a)
                      (Reached-map (omega arith) (separator t) r₂) (omega (arith, l))
                      (omega (arith, l')))
                  (call_arguments-Reads {j = suc j} fuel (append_arg args a)
                    (Reached-map (omega arith) no_separator r₁) (omega (arith, l))
                    (omega (arith, l'))))
      ]

  call_case :
      {e : Expr} {args : Args} (t c : Token) (ts : List Token)
      → Then
          (Then
            (Then (Derives Grammar.call_level e) (Only (IsOneOf (Syntax.lparen ∷ [])) t))
            (Arguments args))
          (Only (IsType Syntax.rparen) c)
          ts
      → Derives Grammar.call_level (Syntax.call 0 e t args) ts
  call_case {e} {args} t c ts (_, _, e₁, (_, _, e₂, (es, _, e₃, d, (e₄, ty)), a), (e₅, ty')) =
      rw (e₁, e₂, e₃, e₄, e₅)
        (subst (λ (x : List Token). Derives Grammar.call_level (Syntax.call 0 e t args) x)
          (simp append_assoc) (Grammar.call t c (only_one Syntax.lparen t ty) ty' d a))

  field_case :
      {e : Expr} (t name : Token) (ts : List Token)
      → Then
          (Then (Derives Grammar.call_level e) (Only (IsOneOf (Syntax.dot ∷ [])) t))
          (Only (IsType Syntax.identifier) name)
          ts
      → Derives Grammar.call_level (Syntax.field 0 e name) ts
  field_case {e} t name ts (_, _, e₁, (es, _, e₂, d, (e₃, ty)), (e₄, ty')) =
      rw (e₁, e₂, e₃, e₄)
        (subst (λ (x : List Token). Derives Grammar.call_level (Syntax.field 0 e name) x)
          (simp append_assoc) (Grammar.field t name (only_one Syntax.dot t ty) ty' d))

  index_case :
      {e i : Expr} (t c : Token) (ts : List Token)
      → Then
          (Then
            (Then (Derives Grammar.call_level e) (Only (IsOneOf (Syntax.lbracket ∷ [])) t))
            (Derives Grammar.conjunction_level i))
          (Only (IsType Syntax.rbracket) c)
          ts
      → Derives Grammar.call_level (Syntax.index 0 e i c) ts
  index_case {e} {i} t c ts (_, _, e₁, (_, _, e₂, (es, _, e₃, d, (e₄, ty)), a), (e₅, ty')) =
      rw (e₁, e₂, e₃, e₄, e₅)
        (subst (λ (x : List Token). Derives Grammar.call_level (Syntax.index 0 e i c) x)
          (simp append_assoc) (Grammar.index t c (only_one Syntax.lbracket t ty) ty' d a))

  none_yet : (ts : List Token) → Nothing ts → Arguments Syntax.no_args ts
  none_yet ts e = rw e Grammar.none_left

  finish_call-Reads :
      {j : ℕ} {p s : Parser} {X : List Token → Type 0} (fuel : ℕ)
      → Reached (suc j) p s X
      → length p.rest < suc fuel + j
      → length p.rest ≤ n
      → Reads
          (suc j)
          p
          (λ args. Then X (Arguments args))
          (call_arguments expression fuel Syntax.no_args s)
  finish_call-Reads {j = j} {s = s} fuel r l l' = Reads-weaken (omega arith) (
      Reads-append r (
        call_arguments-Reads {j = 0} fuel Syntax.no_args
          (Reached-map (omega arith) none_yet (Reached-here s r.tokens))
          (omega (arith, r.shrinks, l)) (omega (arith, r.shrinks, l'))))

  -- the loop of `ac_psr_call`, where `e` derives from what was taken
  postfix-Reads :
      {j : ℕ} {p q : Parser} (fuel : ℕ) (e : Expr)
      → 1 ≤ j
      → Reached j p q (Derives Grammar.call_level e)
      → length p.rest < fuel + j
      → length p.rest ≤ n
      → Reads 1 p (Derives Grammar.call_level) (postfix expression fuel e q)
  unfolding postfix ac_psr_finish_call ac_psr_finish_index
  postfix-Reads zero e one r l l' = absurd (omega (arith, r.shrinks))
  postfix-Reads {j = j} (suc fuel) e one r l l' =
      match-Reads _ _ r
        (λ t _ _ is r₁.
          Reads-bind
            (Reads-bind (finish_call-Reads fuel (Reached-map (omega arith) (λ ts x. x) r₁) l l')
              λ args _ r₂.
                Reads-bind (consume-Reads Syntax.rparen 4 (omega arith) r₂)
                  λ c _ r₃. holds (Reached-map {j = suc j} (omega arith) (call_case t c) r₃))
            λ a _ r₄. postfix-Reads fuel a (omega arith) r₄ (omega (arith, l)) l')
        (match-Reads _ _ r
          (λ t _ _ is r₁.
            Reads-bind
              (Reads-bind (consume-Reads Syntax.identifier 3 (omega arith) r₁)
                λ name _ r₂. holds (Reached-map {j = suc j} (omega arith) (field_case t name) r₂))
              λ a _ r₄. postfix-Reads fuel a (omega arith) r₄ (omega (arith, l)) l')
          (match-Reads _ _ r
            (λ t _ _ is r₁.
              Reads-bind
                (Reads-bind (inner expression n ih (omega arith) r₁ l') λ i _ r₂.
                  Reads-bind (consume-Reads Syntax.rbracket 4 (omega arith) r₂)
                    λ c _ r₃. holds (Reached-map {j = suc j} (omega arith) (index_case t c) r₃))
                λ a _ r₄. postfix-Reads fuel a (omega arith) r₄ (omega (arith, l)) l')
            (holds (Reached-map one (λ ts d. d) r))))

  unary_case :
      {right : Expr} (op : Token) (ts : List Token)
      → Then
          (Then Nothing
            (Only (IsOneOf (Syntax.bang ∷ Syntax.bitnot ∷ Syntax.minus ∷ Syntax.hash ∷ [])) op))
          (Derives Grammar.unary_level right)
          ts
      → Derives Grammar.unary_level (Syntax.unary op right) ts
  unary_case op ts (_, _, e₁, (_, _, e₂, e₃, (e₄, ty)), d) =
      rw (e₁, e₂, e₃, e₄) (Grammar.unary op ty d)

  call-Reads :
      (fuel : ℕ) (p : Parser)
      → AreTokens p.rest
      → length p.rest < fuel
      → length p.rest ≤ n
      → Reads 1 p (Derives Grammar.call_level) (ac_psr_call expression fuel p)
  unfolding ac_psr_call
  call-Reads fuel p w l l' =
      Reads-bind (primary-Parses expression n ih p w (omega (arith, l'))) λ e _ r.
        postfix-Reads {j = 1} fuel e (omega arith)
          (Reached-map (omega arith) (λ ts d. Grammar.below d) r) (omega (arith, l)) l'

  unary-Reads :
      (fuel : ℕ) (p : Parser)
      → AreTokens p.rest
      → length p.rest < fuel
      → length p.rest ≤ n
      → Reads 1 p (Derives Grammar.unary_level) (ac_psr_unary expression fuel p)
  unfolding ac_psr_unary
  unary-Reads zero p w l l' = elim l [ ]
  unary-Reads (suc fuel) p w l l' =
      match-Reads _ _ (Reached-here p w)
        (λ op s _ is r.
          Reads-bind
            (Reads-append r (
              unary-Reads fuel s r.tokens (omega (arith, r.shrinks, l))
                (omega (arith, r.shrinks, l'))))
            λ right _ r₁. holds (Reached-map (omega arith) (unary_case op) r₁))
        (Reads-map (λ e ts d. Grammar.below d) (call-Reads (suc fuel) p w l l'))

  pub unary-Parses : Parses Grammar.unary_level (suc n) (ac_psr_unary expression (suc n))
  unary-Parses p w l = unary-Reads (suc n) p w l (omega (arith, l))
