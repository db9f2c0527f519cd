-- ===== src/Parser/Grammar.antt =====
-- The grammar that the parser accepts, as derivations over the tokens. The levels go from
-- `and`, which binds loosest, to literals. The comment of libalca/parser.c that states the grammar has `or` and `and`
-- the other way round, and leaves out shifts, string operators and iterators.
use alca.Base.{ℕ, ◌≡◌, true, ◌⊎◌, List, [], ◌∷◌, ◌++◌}
use alca.Syntax
use alca.Syntax.{TokenType, same_type, Token, Expr, Args}
use alca.Parser.{is_one_of}
use alca.Parser.Expressions.{ac_expr_new_range, append_arg}

-- the levels, each with the function that reads it
pub data Level : Type 0 where
  conjunction_level disjunction_level negation_level equality_level comparison_level term_level
        factor_level bitshift_level bitand_level bitxor_level bitor_level unary_level call_level
        primary_level :
      Level

-- the level of the operands
abbrev pub tighter : Level → Level
tighter conjunction_level = disjunction_level
tighter disjunction_level = negation_level
tighter negation_level = equality_level
tighter equality_level = comparison_level
tighter comparison_level = term_level
tighter term_level = factor_level
tighter factor_level = bitshift_level
tighter bitshift_level = bitand_level
tighter bitand_level = bitxor_level
tighter bitxor_level = bitor_level
tighter bitor_level = unary_level
tighter unary_level = call_level
tighter call_level = primary_level
tighter primary_level = primary_level

-- the binary operators of each level
abbrev pub operators : Level → List TokenType
operators conjunction_level = Syntax.and_kw ∷ []
operators disjunction_level = Syntax.or_kw ∷ []
operators equality_level =
    Syntax.equal_equal ∷ Syntax.bang_equal ∷ Syntax.contains ∷ Syntax.icontains ∷ Syntax.startswith
    ∷ Syntax.istartswith ∷ Syntax.endswith ∷ Syntax.iendswith ∷ Syntax.iequals ∷ Syntax.matches ∷ []
operators comparison_level =
    Syntax.greater ∷ Syntax.greater_equal ∷ Syntax.less ∷ Syntax.less_equal ∷ []
operators term_level = Syntax.plus ∷ Syntax.minus ∷ []
operators factor_level = Syntax.mult ∷ Syntax.div ∷ Syntax.modulo ∷ []
operators bitshift_level = Syntax.shl ∷ Syntax.shr ∷ []
operators bitand_level = Syntax.bitand ∷ []
operators bitxor_level = Syntax.bitxor ∷ []
operators bitor_level = Syntax.pipe ∷ []
operators _ = []

abbrev pub IsType : TokenType → Token → Type 0
IsType ty t = same_type t.type ty ≡ true

abbrev pub IsOneOf : List TokenType → Token → Type 0
IsOneOf types t = is_one_of types t.type ≡ true

-- the token between an argument and the next, which may be missing
abbrev pub IsSeparator : List Token → Type 0
IsSeparator [] = Unit
IsSeparator (t ∷ []) = IsType Syntax.comma t
IsSeparator _ = ⊥

-- `any` may stand in front of the quantifier, and then says nothing.
abbrev pub IsAny : List Token → Type 0
IsAny [] = Unit
IsAny (t ∷ []) = IsType Syntax.any_kw t
IsAny _ = ⊥

-- the quantifier, with its match type and its number
abbrev pub IsQuantifier : ℕ → ℕ → Token → Type 0
IsQuantifier match_type n t =
    (IsType Syntax.all_kw t × (match_type ≡ 2) × (n ≡ 0))
    ⊎ (IsType Syntax.number t × (match_type ≡ 3) × (t.value ≡ Syntax.word n))

abbrev pub literal_types : List TokenType
literal_types =
    Syntax.false_kw ∷ Syntax.true_kw ∷ Syntax.number ∷ Syntax.string ∷ Syntax.identifier
    ∷ Syntax.regex ∷ []

mutual
  -- The tokens are an expression of the level, and this is its tree.
  pub data Derives : Level → Expr → List Token → Type 0 where
    below : {k : Level} {e : Expr} {ts : List Token} → Derives (tighter k) e ts → Derives k e ts
    binary :
        {k : Level} {l r : Expr} {ls rs : List Token} (op : Token)
        → IsOneOf (operators k) op
        → Derives k l ls
        → Derives (tighter k) r rs
        → Derives k (Syntax.binary l op r Syntax.lparen) (ls ++ (op ∷ rs))
    negation :
        {r : Expr} {rs : List Token} (op : Token)
        → IsType Syntax.not_kw op
        → Derives equality_level r rs
        → Derives negation_level (Syntax.unary op r) (op ∷ rs)
    unary :
        {r : Expr} {rs : List Token} (op : Token)
        → IsOneOf (Syntax.bang ∷ Syntax.bitnot ∷ Syntax.minus ∷ Syntax.hash ∷ []) op
        → Derives unary_level r rs
        → Derives unary_level (Syntax.unary op r) (op ∷ rs)
    call :
        {e : Expr} {es ts : List Token} {args : Args} (opening closing : Token)
        → IsType Syntax.lparen opening
        → IsType Syntax.rparen closing
        → Derives call_level e es
        → Arguments args ts
        → Derives call_level
            (Syntax.call 0 e opening args)
            (es ++ (opening ∷ (ts ++ (closing ∷ []))))
    field :
        {e : Expr} {es : List Token} (point name : Token)
        → IsType Syntax.dot point
        → IsType Syntax.identifier name
        → Derives call_level e es
        → Derives call_level (Syntax.field 0 e name) (es ++ (point ∷ name ∷ []))
    index :
        {e i : Expr} {es ts : List Token} (opening closing : Token)
        → IsType Syntax.lbracket opening
        → IsType Syntax.rbracket closing
        → Derives call_level e es
        → Derives conjunction_level i ts
        → Derives call_level (Syntax.index 0 e i closing) (es ++ (opening ∷ (ts ++ (closing ∷ []))))
    literal :
        (t : Token) → IsOneOf literal_types t → Derives primary_level (Syntax.literal t) (t ∷ [])
    grouping :
        {e : Expr} {es : List Token} (opening closing : Token)
        → IsType Syntax.lparen opening
        → IsType Syntax.rparen closing
        → Derives conjunction_level e es
        → Derives primary_level (Syntax.grouping e) (opening ∷ (es ++ (closing ∷ [])))
    range :
        {start end condition : Expr} {ss es cs : List Token} (any : List Token) (match_type n : ℕ)
        (for_token q i in_token o₁ d c₁ p o₂ c₂ : Token)
        → IsType Syntax.for_kw for_token
        → IsAny any
        → IsQuantifier match_type n q
        → IsType Syntax.identifier i
        → IsType Syntax.in_kw in_token
        → IsType Syntax.lparen o₁
        → Derives conjunction_level start ss
        → IsType Syntax.dot_dot d
        → Derives conjunction_level end es
        → IsType Syntax.rparen c₁
        → IsType Syntax.colon p
        → IsType Syntax.lparen o₂
        → Derives conjunction_level condition cs
        → IsType Syntax.rparen c₂
        → Derives primary_level (ac_expr_new_range match_type n i start end condition) (
            for_token
            ∷ (any
                ++ (q
                    ∷ i
                    ∷ in_token
                    ∷ o₁
                    ∷ (ss ++ (d ∷ (es ++ (c₁ ∷ p ∷ o₂ ∷ (cs ++ (c₂ ∷ [])))))))))

  -- arguments of a call
  pub data Arguments : Args → List Token → Type 0 where
    none_left : Arguments Syntax.no_args []
    more :
        {args : Args} {e : Expr} {ts es : List Token} (sep : List Token)
        → Arguments args ts
        → Derives conjunction_level e es
        → IsSeparator sep
        → Arguments (append_arg args e) ((ts ++ es) ++ sep)
