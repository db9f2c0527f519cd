-- ===== src/Lexer/Scanner.antt =====
-- `lex_scanToken` and `ac_lex_scan` of libalca/lexer.c.
use alca.Base.{
  ℕ, zero, suc, true, false, not, ◌||◌, Option, none, some, List, [], ◌∷◌, ◌==◌, if◌then◌else◌,
  Bytes,
}
use alca.Syntax
use alca.Syntax.{TokenType, TokenValue, Token, same_type}
use alca.Lexer.{
  Lexer, Scan, scanned, undefined, out_of_fuel, line_after, lex_peek, lex_advance, lex_add_token,
  between, last_type,
}
use alca.Lexer.Tokens.{
  lex_handle_string, lex_handle_integer, lex_handle_identifier, lex_handle_comment,
}

-- the entry of a character
unfoldable pub lookup : {A : Type 0} → List (ℕ × A) → ℕ → Option A
lookup [] c = none
lookup ((d, a) ∷ table) c = let others = lookup table c in if c == d then some a else others

-- the tokens of characters that stand alone
abbrev pub singles : List (ℕ × TokenType)
singles =
    (b'(', Syntax.lparen)
    ∷ (b')', Syntax.rparen)
    ∷ (b'[', Syntax.lbracket)
    ∷ (b']', Syntax.rbracket)
    ∷ (b'{', Syntax.lbrace)
    ∷ (b'}', Syntax.rbrace)
    ∷ (b',', Syntax.comma)
    ∷ (b'+', Syntax.plus)
    ∷ (b'-', Syntax.minus)
    ∷ (b'*', Syntax.mult)
    ∷ (b'%', Syntax.modulo)
    ∷ (b'|', Syntax.pipe)
    ∷ (b'&', Syntax.bitand)
    ∷ (b'~', Syntax.bitnot)
    ∷ (b'^', Syntax.bitxor)
    ∷ (b':', Syntax.colon)
    ∷ (b'#', Syntax.hash)
    ∷ []

-- Tokens of one or two characters: the second characters with their tokens, and the token without one. The case of a
-- backslash has no body, and goes on to that of a point.
abbrev pub longer : List (ℕ × (List (ℕ × TokenType) × TokenType))
longer =
    (92, ((b'.', Syntax.dot_dot) ∷ [], Syntax.dot))
    ∷ (b'.', ((b'.', Syntax.dot_dot) ∷ [], Syntax.dot))
    ∷ (b'!', ((b'=', Syntax.bang_equal) ∷ [], Syntax.bang))
    ∷ (b'=', ((b'=', Syntax.equal_equal) ∷ [], Syntax.equal))
    ∷ (b'>', ((b'=', Syntax.greater_equal) ∷ (b'>', Syntax.shr) ∷ [], Syntax.greater))
    ∷ (b'<', ((b'=', Syntax.less_equal) ∷ (b'<', Syntax.shl) ∷ [], Syntax.less))
    ∷ []

unfoldable pub add_longer : List (ℕ × TokenType) → TokenType → Lexer → Lexer
add_longer [] type lx = lex_add_token type Syntax.null lx
add_longer ((c, two) ∷ others) type lx =
    let rest = add_longer others type lx in
    if lex_peek lx == c then lex_add_token two Syntax.null (lex_advance lx) else rest

-- The case of `/`: a comment, a regular expression behind `matches`, or a division.
unfoldable pub slash : Lexer → Scan
slash lx =
    if lex_peek lx == b'/' || lex_peek lx == b'*'
    then scanned (lex_handle_comment (lex_peek lx) (lex_advance lx))
    else if same_type (last_type lx.tokens) Syntax.matches
    then lex_handle_string b'/' lx
    else scanned (lex_add_token Syntax.div Syntax.null lx)

-- at the end of the source the end token is added
unfoldable pub add_end : Lexer → Lexer
add_end lx =
    if not (lx.status == 0)
    then lx
    else elim lx.rest [ [] ↦ lex_add_token Syntax.eof Syntax.null lx | _ ∷ _ ↦ lx ]

module _ (strtoul : Bytes → ℕ → ℕ) (long_max : ℕ) where
  -- the cases of `lex_scanToken` behind its character; other characters are passed over
  unfoldable pub scan_case : ℕ → Lexer → Scan
  scan_case c lx = elim (lookup singles c) [
    | some type ↦ scanned (lex_add_token type Syntax.null lx)
    | none ↦ elim (lookup longer c) [
      | some (others, type) ↦ scanned (add_longer others type lx)
      | none ↦
          (if c == b'/'
            then slash lx
            else if c == 96 || c == 34 || c == 39
            then lex_handle_string c lx
            else if between b'0' b'9' c
            then lex_handle_integer strtoul long_max c lx
            else if c == b'_' || between b'a' b'z' c || between b'A' b'Z' c
            then scanned (lex_handle_identifier c lx)
            else scanned lx)
    ]
  ]

  -- where a character is left
  unfoldable pub lex_scan_token : Lexer → Scan
  lex_scan_token lx = elim lx.rest [
    | [] ↦ undefined
    | c ∷ rest ↦ elim (scan_case c (record lx { rest = rest; line = line_after c lx.line })) [
      | scanned lx₁ ↦ scanned (add_end lx₁)
      | undefined ↦ undefined
      | out_of_fuel ↦ out_of_fuel
    ]
  ]

  -- The loop of `ac_lex_scan`. It returns NULL where the status is set.
  unfoldable pub ac_lex_scan : ℕ → Lexer → Scan
  ac_lex_scan zero lx = elim lx.rest [ [] ↦ scanned lx | _ ∷ _ ↦ out_of_fuel ]
  ac_lex_scan (suc fuel) lx = elim lx.rest [
    | [] ↦ scanned lx
    | _ ∷ _ ↦ elim (lex_scan_token lx) [
      | scanned lx₁ ↦ elim (lx₁.status == 0) [ true ↦ ac_lex_scan fuel lx₁ | false ↦ scanned lx₁ ]
      | undefined ↦ undefined
      | out_of_fuel ↦ out_of_fuel
    ]
  ]

-- `ac_lex_new`
abbrev pub ac_lex_new : Bytes → Lexer
ac_lex_new source = record { rest = source; tokens = []; line = 1; status = 0 }
