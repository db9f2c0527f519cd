-- ===== src/Parser/Primary.antt =====
-- `ac_psr_range` and `ac_psr_primary` against the grammar.
use alca.Base.{
  ℕ, suc, ◌≤◌, ◌≡◌, refl, subst, true, List, [], ◌∷◌, ◌++◌, length, append_assoc, inl, inr, arith,
}
use alca.Syntax
use alca.Syntax.{TokenType, TokenValue, same_type, Token, Expr, Args}
use alca.Parser.{Parser, Parse, bind}
use alca.Parser.Expressions.{
  number_value, range_parts, quantifier, ac_psr_range, ac_psr_primary, ac_expr_new_range,
}
use alca.Parser.Outcomes.{holds, IsToken}
use alca.Parser.Grammar
use alca.Parser.Grammar.{
  Level, tighter, operators, IsType, IsOneOf, IsSeparator, IsAny, IsQuantifier, literal_types,
  Derives, Arguments,
}
use alca.Parser.Loops.{
  Reached, Then, Only, Nothing, Reached-here, Reached-map, Reads, Reads-bind, consume-Reads,
  match-Reads,
}
use alca.Parser.Reads.{Parses, only_one, fail-Reads, inner, inner_or_null}

pub number_word :
    (ty : TokenType) (v : TokenValue)
    → IsToken ty v
    → same_type ty Syntax.number ≡ true
    → (m : ℕ) × (v ≡ Syntax.word m)
number_word Syntax.number (Syntax.word m) w e = (m, refl)
number_word Syntax.number (Syntax.text _) w e = absurd w
number_word Syntax.number Syntax.null w e = absurd w
number_word _ v w e = absurd (cc)

module _ (expression : Parse Expr) (n : ℕ)
    (ih : Parses Grammar.conjunction_level n expression) where
  abbrev InRange : Token → Token → List Token → Type 0
  InRange for_token q ts =
      (any : List Token) × (IsType Syntax.for_kw for_token)
      × IsAny any
      × (ts ≡ for_token ∷ (any ++ (q ∷ [])))

  range_case :
      (match_type m : ℕ) (f q i a b d c y z w : Token) (start end condition : Expr)
      (ts : List Token)
      → IsQuantifier match_type m q
      → Then
          (Then
            (Then
              (Then
                (Then
                  (Then
                    (Then
                      (Then
                        (Then
                          (Then
                            (Then (InRange f q) (Only (IsType Syntax.identifier) i))
                            (Only (IsType Syntax.in_kw) a))
                          (Only (IsType Syntax.lparen) b))
                        (Derives Grammar.conjunction_level start))
                      (Only (IsType Syntax.dot_dot) d))
                    (Derives Grammar.conjunction_level end))
                  (Only (IsType Syntax.rparen) c))
                (Only (IsType Syntax.colon) y))
              (Only (IsType Syntax.lparen) z))
            (Derives Grammar.conjunction_level condition))
          (Only (IsType Syntax.rparen) w)
          ts
      → Derives Grammar.primary_level (ac_expr_new_range match_type m i start end condition) ts
  range_case match_type m f q i a b d c y z w start end condition ts quant
        (
          _,
          _,
          e₁,
          (
            _,
            cs,
            e₂,
            (
              _,
              _,
              e₃,
              (
                _,
                _,
                e₄,
                (
                  _,
                  _,
                  e₅,
                  (
                    _,
                    es,
                    e₆,
                    (
                      _,
                      _,
                      e₇,
                      (
                        _,
                        ss,
                        e₈,
                        (
                          _,
                          _,
                          e₉,
                          (_, _, f₁, (_, _, f₂, (any, tf, ta, f₃), (g₁, t₁)), (g₂, t₂)),
                          (g₃, t₃),
                        ),
                        ds,
                      ),
                      (g₄, t₄),
                    ),
                    de,
                  ),
                  (g₅, t₅),
                ),
                (g₆, t₆),
              ),
              (g₇, t₇),
            ),
            dc,
          ),
          (g₈, t₈),
        ) =
      rw (e₁, e₂, e₃, e₄, e₅, e₆, e₇, e₈, e₉, f₁, f₂, f₃, g₁, g₂, g₃, g₄, g₅, g₆, g₇, g₈)
        (subst
          (λ (x : List Token).
            Derives Grammar.primary_level (ac_expr_new_range match_type m i start end condition) x)
          (simp append_assoc)
          (Grammar.range any match_type m f q i a b d c y z w tf ta quant t₁ t₂ t₃ ds t₄ de t₅ t₆ t₇
            dc t₈))

  range_parts-Reads :
      {j : ℕ} {p r : Parser} (match_type m : ℕ) (f q : Token)
      → 1 ≤ j
      → IsQuantifier match_type m q
      → Reached j p r (InRange f q)
      → length p.rest ≤ n
      → Reads 1 p (Derives Grammar.primary_level) (range_parts expression match_type m r)
  unfolding range_parts
  range_parts-Reads match_type m f q one quant r₀ l =
      Reads-bind (consume-Reads Syntax.identifier 3 (omega arith) r₀) λ i _ r₁.
        Reads-bind (consume-Reads Syntax.in_kw 3 (omega arith) r₁) λ a _ r₂.
          Reads-bind (consume-Reads Syntax.lparen 3 (omega arith) r₂) λ b _ r₃.
            Reads-bind (inner expression n ih (omega arith) r₃ l) λ start _ r₄.
              Reads-bind (consume-Reads Syntax.dot_dot 3 (omega arith) r₄) λ d _ r₅.
                Reads-bind (inner expression n ih (omega arith) r₅ l) λ end _ r₆.
                  Reads-bind (consume-Reads Syntax.rparen 3 (omega arith) r₆) λ c _ r₇.
                    Reads-bind (consume-Reads Syntax.colon 3 (omega arith) r₇) λ y _ r₈.
                      Reads-bind (consume-Reads Syntax.lparen 3 (omega arith) r₈) λ z _ r₉.
                        Reads-bind (inner_or_null expression n ih (omega arith) r₉ l)
                          λ condition _ s₁.
                            Reads-bind (consume-Reads Syntax.rparen 3 (omega arith) s₁) λ w _ s₂.
                              holds (
                                Reached-map (omega arith)
                                  (λ ts x.
                                    range_case match_type m f q i a b d c y z w start end condition
                                      ts quant x)
                                  s₂)

  abbrev BeforeQuantifier : Token → List Token → Type 0
  BeforeQuantifier f ts = (any : List Token) × (IsType Syntax.for_kw f) × IsAny any × (ts ≡ f ∷ any)

  in_range :
      (f q : Token) (types : List TokenType) (ts : List Token)
      → Then (BeforeQuantifier f) (Only (IsOneOf types) q) ts
      → InRange f q ts
  in_range f q types ts (_, _, e₁, (any, tf, ta, e₂), (e₃, _)) = (any, tf, ta, rw (e₁, e₂, e₃) refl)

  with_number :
      {j : ℕ} {p : Parser} (f q : Token) (r : Parser)
      → IsType Syntax.number q
      → IsToken q.type q.value
      → Reached (suc j) p r (InRange f q)
      → length p.rest ≤ n
      → Reads 1 p
          (Derives Grammar.primary_level)
          (bind (number_value q r) (range_parts expression 3))
  unfolding number_value
  with_number f q r ty w r₁ l =
      let (m, e) = number_word q.type q.value w ty in
      rw (e, number_value) (range_parts-Reads 3 m f q (omega arith) (inr (ty, refl, e)) r₁ l)

  quantifier-Reads :
      {p r : Parser} (f : Token)
      → Reached 1 p r (BeforeQuantifier f)
      → length p.rest ≤ n
      → Reads 1 p (Derives Grammar.primary_level) (quantifier expression r)
  unfolding quantifier number_value
  quantifier-Reads f r l =
      match-Reads (Syntax.all_kw ∷ []) _ r
        (λ q _ w is r₁.
          range_parts-Reads 2 0 f q (omega arith) (inl (only_one Syntax.all_kw q is, refl, refl))
            (Reached-map {j = 1} (omega arith) (in_range f q (Syntax.all_kw ∷ [])) r₁) l)
        (match-Reads (Syntax.number ∷ []) _ r
          (λ q s w is r₁.
            with_number f q s (only_one Syntax.number q is) w
              (Reached-map {j = 1} (omega arith) (in_range f q (Syntax.number ∷ [])) r₁) l)
          (fail-Reads 2 (omega arith) r))

  range-Reads :
      {p r : Parser} (f : Token)
      → IsType Syntax.for_kw f
      → Reached 1 p r (Then Nothing (Only (IsOneOf (Syntax.for_kw ∷ [])) f))
      → length p.rest ≤ n
      → Reads 1 p (Derives Grammar.primary_level) (ac_psr_range expression r)
  unfolding ac_psr_range
  range-Reads f tf r l =
      match-Reads (Syntax.any_kw ∷ []) _ r
        (λ q _ w is r₁.
          quantifier-Reads f
            (Reached-map {j = 1} (omega arith) (with_any q (only_one Syntax.any_kw q is)) r₁) l)
        (quantifier-Reads f (Reached-map {j = 1} (omega arith) no_any r) l)
    where
      no_any :
          (ts : List Token)
          → Then Nothing (Only (IsOneOf (Syntax.for_kw ∷ [])) f) ts
          → BeforeQuantifier f ts
      no_any ts (_, _, e₁, e₂, (e₃, _)) = ([], tf, tt, rw (e₁, e₂, e₃) refl)

      with_any :
          (q : Token)
          → IsType Syntax.any_kw q
          → (ts : List Token)
          → Then
              (Then Nothing (Only (IsOneOf (Syntax.for_kw ∷ [])) f))
              (Only (IsOneOf (Syntax.any_kw ∷ [])) q)
              ts
          → BeforeQuantifier f ts
      with_any q tq ts (_, _, e₁, (_, _, e₂, e₃, (e₄, _)), (e₅, _)) =
          (q ∷ [], tf, tq, rw (e₁, e₂, e₃, e₄, e₅) refl)

  grouping_case :
      (t c : Token) (e : Expr) (ts : List Token)
      → Then
          (Then
            (Then Nothing (Only (IsOneOf (Syntax.lparen ∷ [])) t))
            (Derives Grammar.conjunction_level e))
          (Only (IsType Syntax.rparen) c)
          ts
      → Derives Grammar.primary_level (Syntax.grouping e) ts
  grouping_case t c e ts (_, _, e₁, (_, _, e₂, (_, _, e₃, e₄, (e₅, ty)), d), (e₆, ty')) =
      rw (e₁, e₂, e₃, e₄, e₅, e₆) (Grammar.grouping t c (only_one Syntax.lparen t ty) ty' d)

  pub primary-Parses : Parses Grammar.primary_level (suc n) (ac_psr_primary expression)
  unfolding ac_psr_primary
  primary-Parses p w l =
      match-Reads _ _ (Reached-here p w)
        (λ t _ _ is r. holds (Reached-map (omega arith) (literal_case t) r))
        (match-Reads _ _ (Reached-here p w)
          (λ t _ _ is r.
            Reads-bind (inner_or_null expression n ih (omega arith) r (omega arith)) λ e _ r₁.
              Reads-bind (consume-Reads Syntax.rparen 4 (omega arith) r₁)
                λ c _ r₂. holds (Reached-map (omega arith) (grouping_case t c e) r₂))
          (match-Reads _ _ (Reached-here p w)
            (λ t _ _ is r. range-Reads t (only_one Syntax.for_kw t is) r (omega arith))
            (fail-Reads 2 (omega arith) (Reached-here p w))))
    where
      literal_case :
          (t : Token) (ts : List Token)
          → Then Nothing (Only (IsOneOf literal_types) t) ts
          → Derives Grammar.primary_level (Syntax.literal t) ts
      literal_case t ts (_, _, e₁, e₂, (e₃, ty)) = rw (e₁, e₂, e₃) (Grammar.literal t ty)
