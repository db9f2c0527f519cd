-- ===== src/Parser/Reads.antt =====
-- Each function that reads an expression, against the grammar: with fuel above the number of the tokens it ends, with
-- an error or with a tree of the tokens that it took.
use alca.Base.{ℕ, ◌+◌, ◌≤◌, ◌<◌, ◌≡◌, refl, List, [], ◌∷◌, length, inl, arith}
use alca.Syntax.{TokenType, Token, Expr}
use alca.Parser.{Parser, Outcome, returned, null, stuck, out_of_fuel, Parse, fail, ac_psr_set_error}
use alca.Parser.Expressions.{or_null}
use alca.Parser.Outcomes.{holds, refused, AreTokens}
use alca.Parser.Grammar
use alca.Parser.Grammar.{
  Level, tighter, operators, IsType, IsOneOf, IsSeparator, IsAny, IsQuantifier, literal_types,
  Derives, Arguments,
}
use alca.Parser.Loops.{Reached, Then, Reached-map, Reached-append, Reads, Reads-append}

-- With fewer tokens left than the bound, the function ends, with an error or with an expression of the level.
abbrev pub Parses : Level → ℕ → Parse Expr → Type 0
Parses k n m = (p : Parser) → AreTokens p.rest → length p.rest < n → Reads 1 p (Derives k) (m p)

pub only_one : (ty : TokenType) (t : Token) → IsOneOf (ty ∷ []) t → IsType ty t
only_one ty t e = ground arith

-- an error at the current state, behind progress
pub fail-Reads {ℓ} :
    {A : Type ℓ} {j k : ℕ} {p q : Parser} {X : List Token → Type 0} {Z : A → List Token → Type 0}
    (code : ℕ)
    → 1 ≤ code
    → Reached j p q X
    → Reads k p Z (fail code q)
unfolding ac_psr_set_error
fail-Reads code l r =
    refused (record { tokens = r.tokens; shrinks = omega (arith, r.shrinks); failed = l })

or_null-Reads :
    {j : ℕ} {p q : Parser} {X : List Token → Type 0} {k : Level} (m : Parse Expr)
    → Reached j p q X
    → Reads 1 q (Derives k) (m q)
    → Reads j p (λ e. Then X (Derives k e)) (or_null m q)
unfolding or_null
or_null-Reads {j = j} {p} {q} {X} {k} m r o = go (m q) refl o
  where
    go :
        (out : Outcome Expr)
        → m q ≡ out
        → Reads 1 q (Derives k) out
        → Reads j p (λ e. Then X (Derives k e)) (or_null m q)
    go (returned e s) eq (holds x) =
        rw (eq, or_null) (holds (Reached-map (omega arith) (λ ts t. t) (Reached-append r x)))
    go (null s) eq (refused x) =
        rw (eq, or_null)
          (holds (record {
            tokens = x.tokens;
            shrinks = omega (arith, x.shrinks, r.shrinks);
            reads = inl x.failed;
          }))
    go stuck eq x = elim x [ ]
    go out_of_fuel eq x = elim x [ ]

module _ (expression : Parse Expr) (n : ℕ)
    (ih : Parses Grammar.conjunction_level n expression) where
  -- an expression behind at least one token
  pub inner :
      {j : ℕ} {p q : Parser} {X : List Token → Type 0}
      → 1 ≤ j
      → Reached j p q X
      → length p.rest ≤ n
      → Reads (j + 1) p (λ e. Then X (Derives Grammar.conjunction_level e)) (expression q)
  inner {q = q} one r l = Reads-append r (ih q r.tokens (omega (arith, r.shrinks)))

  pub inner_or_null :
      {j : ℕ} {p q : Parser} {X : List Token → Type 0}
      → 1 ≤ j
      → Reached j p q X
      → length p.rest ≤ n
      → Reads j p (λ e. Then X (Derives Grammar.conjunction_level e)) (or_null expression q)
  inner_or_null {q = q} one r l =
      or_null-Reads expression r (ih q r.tokens (omega (arith, r.shrinks)))
