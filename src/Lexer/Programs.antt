-- ===== src/Lexer/Programs.antt =====
-- The scanner ends, and its tokens are as the parser asks for them.
use alca.Base.{
  ℕ, ◌≡◌, ◌||◌, Option, some, List, [], ◌∷◌, ◌==◌, Bytes, bytes_eq, Bool-cases, Option-cases, inl,
  inr, arith,
}
use alca.Syntax
use alca.Syntax.{TokenType, TokenValue, Token, same_type}
use alca.Parser.Outcomes.{IsToken}
use alca.Lexer.{Lexer, lex_peek, lex_advance, between, last_type, is_valid_identifier, take_while}
use alca.Lexer.Tokens.{keywords, keyword_in, lex_handle_identifier, lex_handle_comment}
use alca.Lexer.Scanner.{lookup, singles, longer, add_longer, slash, scan_case}
use alca.Lexer.Ends.{IsEnd-same, take_while-IsEnd, comment_body-IsEnd}
use alca.Lexer.Complete.{
  Kept, Scans, ends, Kept-trans, add-Kept, rest-Kept, advance-Kept, Scans-more, string-Kept,
  integer-Kept,
}

-- Every keyword stands for a token without a value.
abbrev ArePlain : {K : Type 0} → List (K × TokenType) → Type 0
ArePlain [] = Unit
ArePlain ((k, type) ∷ table) = IsToken type Syntax.null × ArePlain table

keyword_plain :
    (table : List (Bytes × TokenType)) (str : Bytes) (type : TokenType)
    → ArePlain table
    → keyword_in table str ≡ some type
    → IsToken type Syntax.null
unfolding keyword_in
keyword_plain [] str type p e = absurd (cc)
keyword_plain ((k, t) ∷ table) str type (p, ps) e = elim (Bool-cases (bytes_eq k str)) [
  | inl b ↦
      let q : some t ≡ some type = rw (b, keyword_in) at e in let r : t ≡ type = cc in rw (← r) p
  | inr b ↦ keyword_plain table str type ps (rw (b, keyword_in) at e)
]

lookup_plain :
    (table : List (ℕ × TokenType)) (c : ℕ) (type : TokenType)
    → ArePlain table
    → lookup table c ≡ some type
    → IsToken type Syntax.null
unfolding lookup
lookup_plain [] c type p e = absurd (cc)
lookup_plain ((d, t) ∷ table) c type (p, ps) e = elim (Bool-cases (c == d)) [
  | inl b ↦ let q : some t ≡ some type = rw (b, lookup) at e in let r : t ≡ type = cc in rw (← r) p
  | inr b ↦ lookup_plain table c type ps (rw (b, lookup) at e)
]

abbrev ArePairs : List (ℕ × (List (ℕ × TokenType) × TokenType)) → Type 0
ArePairs [] = Unit
ArePairs ((c, (others, type)) ∷ table) =
    (ArePlain others × IsToken type Syntax.null) × ArePairs table

some_first :
    {A B : Type 0} {a c : A} {b d : B}
    → ◌≡◌ {A = Option (A × B)} (some (a, b)) (some (c, d))
    → a ≡ c
some_first e = cc

some_second :
    {A B : Type 0} {a c : A} {b d : B}
    → ◌≡◌ {A = Option (A × B)} (some (a, b)) (some (c, d))
    → b ≡ d
some_second e = cc

longer_plain :
    (table : List (ℕ × (List (ℕ × TokenType) × TokenType))) (c : ℕ) (others : List (ℕ × TokenType))
    (type : TokenType)
    → ArePairs table
    → lookup table c ≡ some (others, type)
    → ArePlain others × IsToken type Syntax.null
unfolding lookup
longer_plain [] c others type p e = absurd (cc)
longer_plain ((d, (os, t)) ∷ table) c others type (p, ps) e = elim (Bool-cases (c == d)) [
  | inl b ↦
      let q : some (os, t) ≡ some (others, type) = rw (b, lookup) at e in
      let r = some_first q in let r' = some_second q in rw (← r, ← r') p
  | inr b ↦ longer_plain table c others type ps (rw (b, lookup) at e)
]

identifier-Kept : (first : ℕ) (lx : Lexer) → Kept lx (lex_handle_identifier first lx)
unfolding lex_handle_identifier
identifier-Kept first lx =
    let r = take_while is_valid_identifier lx.rest in
    let l = take_while-IsEnd is_valid_identifier lx.rest in
    elim (Bool-cases (is_valid_identifier first)) [
      | inr b ↦
          rw (b, lex_handle_identifier) (record { tokens = λ w. w; remaining = IsEnd-same lx.rest })
      | inl b ↦
          elim (Option-cases
            (keyword_in keywords (first ∷ (take_while is_valid_identifier lx.rest).0))) [
              | inl e ↦
                  rw (b, e, lex_handle_identifier)
                    (Kept-trans
                      (rest-Kept (take_while is_valid_identifier lx.rest).1 lx.line lx.status lx l)
                      (add-Kept Syntax.identifier _ 0 _ tt))
              | inr (type, e) ↦
                  rw (b, e, lex_handle_identifier)
                    (Kept-trans
                      (rest-Kept (take_while is_valid_identifier lx.rest).1 lx.line lx.status lx l)
                      (add-Kept type Syntax.null 0 _
                        (keyword_plain keywords _ type (omega arith) e)))
            ]
    ]

comment-Kept : (next : ℕ) (lx : Lexer) → Kept lx (lex_handle_comment next lx)
unfolding lex_handle_comment
comment-Kept next lx = rest-Kept _ _ _ lx (comment_body-IsEnd next lx.rest lx.line)

longer-Kept :
    (others : List (ℕ × TokenType)) (type : TokenType) (lx : Lexer)
    → ArePlain others × IsToken type Syntax.null
    → Kept lx (add_longer others type lx)
unfolding add_longer
longer-Kept [] type lx (ps, p) = add-Kept type Syntax.null 0 lx p
longer-Kept ((c, two) ∷ others) type lx ((q, ps), p) = elim (Bool-cases (lex_peek lx == c)) [
  | inl b ↦
      rw (b, add_longer)
        (Kept-trans (advance-Kept lx) (add-Kept two Syntax.null 0 (lex_advance lx) q))
  | inr b ↦ rw (b, add_longer) (longer-Kept others type lx (ps, p))
]

slash-Kept : (lx : Lexer) → Scans lx.rest (Kept lx) (slash lx)
unfolding slash
slash-Kept lx = elim (Bool-cases (lex_peek lx == b'/' || lex_peek lx == b'*')) [
  | inl b ↦
      rw (b, slash)
        (ends (Kept-trans (advance-Kept lx) (comment-Kept (lex_peek lx) (lex_advance lx))))
  | inr b ↦ elim (Bool-cases (same_type (last_type lx.tokens) Syntax.matches)) [
    | inl m ↦ rw (b, m, slash) (string-Kept b'/' lx)
    | inr m ↦ rw (b, m, slash) (ends (add-Kept Syntax.div Syntax.null 0 lx tt))
  ]
]

module _ (strtoul : Bytes → ℕ → ℕ) (long_max : ℕ) where
  pub case-Kept :
      (c : ℕ) (lx : Lexer) → Scans (c ∷ lx.rest) (Kept lx) (scan_case strtoul long_max c lx)
  unfolding scan_case
  case-Kept c lx = elim (Option-cases (lookup singles c)) [
    | inr (type, e) ↦
        rw (e, scan_case)
          (ends (add-Kept type Syntax.null 0 lx (lookup_plain singles c type (omega arith) e)))
    | inl e ↦ elim (Option-cases (lookup longer c)) [
      | inr ((others, type), f) ↦
          rw (e, f, scan_case)
            (ends (longer-Kept others type lx (longer_plain longer c others type (omega arith) f)))
      | inl f ↦ elim (Bool-cases (c == b'/')) [
        | inl g ↦ rw (e, f, g, scan_case) (Scans-more c (slash-Kept lx))
        | inr g ↦ elim (Bool-cases (c == 96 || c == 34 || c == 39)) [
          | inl i ↦ rw (e, f, g, i, scan_case) (Scans-more c (string-Kept c lx))
          | inr i ↦ elim (Bool-cases (between b'0' b'9' c)) [
            | inl j ↦ rw (e, f, g, i, j, scan_case) (integer-Kept strtoul long_max c lx)
            | inr j ↦ elim (Bool-cases (c == b'_' || between b'a' b'z' c || between b'A' b'Z' c)) [
              | inl k ↦ rw (e, f, g, i, j, k, scan_case) (ends (identifier-Kept c lx))
              | inr k ↦
                  rw (e, f, g, i, j, k, scan_case)
                    (ends (record { tokens = λ w. w; remaining = IsEnd-same lx.rest }))
            ]
          ]
        ]
      ]
    ]
  ]
