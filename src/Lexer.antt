-- ===== src/Lexer.antt =====
-- libalca/lexer.c: the scanner. `rest` is the source from `current` on, and 1 is the status AC_ERROR_UNSUCCESSFUL. Warnings
-- and the text of errors are left out.
pub mod Tokens
pub mod Scanner
pub mod Ends
pub mod Complete
pub mod Programs
pub mod Total
use alca.Base.{
  ℕ, zero, suc, ◌+◌, Bool, true, false, not, ◌&&◌, ◌||◌, Option, none, some, List, [], ◌∷◌, ◌++◌,
  ◌==◌, leb, if◌then◌else◌, Bytes, bytes_eq, drop,
}
use alca.Base.Words.{wrap32}
use alca.Syntax
use alca.Syntax.{TokenType, TokenValue, Token}

-- `ac_lexer`
pub record Lexer : Type 0 where
  pub rest : Bytes
  pub tokens : List Token
  pub line : ℕ
  pub status : ℕ

-- What a call leaves: a lexer, undefined behaviour, or too little fuel.
pub data Scan : Type 0 where
  scanned : Lexer → Scan
  undefined : Scan
  out_of_fuel : Scan

-- the line behind a character
abbrev pub line_after : ℕ → ℕ → ℕ
line_after c line = if c == 10 then line + 1 else line

unfoldable pub lex_peek : Lexer → ℕ
lex_peek lx = elim lx.rest [ [] ↦ 0 | c ∷ _ ↦ c ]

-- `lex_advance` where the character is known
unfoldable pub lex_advance : Lexer → Lexer
lex_advance lx = elim lx.rest [
  | [] ↦ lx
  | c ∷ rest ↦ record lx { rest = rest; line = line_after c lx.line }
]

unfoldable pub lex_add_flagged : TokenType → TokenValue → ℕ → Lexer → Lexer
lex_add_flagged type value flags lx = record lx {
  tokens = lx.tokens ++ (record { type = type; value = value; line = lx.line; flags = flags } ∷ []);
}

abbrev pub lex_add_token : TokenType → TokenValue → Lexer → Lexer
lex_add_token type value lx = lex_add_flagged type value 0 lx

abbrev pub panic : Lexer → Lexer
panic lx = record lx { status = 1 }

-- the type of the last token, or TOKEN_EOF
abbrev pub last_type : List Token → TokenType
last_type [] = Syntax.eof
last_type (t ∷ []) = t.type
last_type (_ ∷ t ∷ tokens) = last_type (t ∷ tokens)

abbrev pub between : ℕ → ℕ → ℕ → Bool
between low high c = leb low c && leb c high

unfoldable pub is_valid_identifier : ℕ → Bool
is_valid_identifier c =
    c == b'_' || between b'a' b'z' c || between b'A' b'Z' c || between b'0' b'9' c

-- `ac_str_extend`, where NULL is none; a zero byte ends the string that it is added to.
unfoldable pub ac_str_extend : Option Bytes → ℕ → Option Bytes
ac_str_extend str c =
    let more : Bytes = if c == 0 then [] else c ∷ [] in
    elim str [ none ↦ some more | some s ↦ some (s ++ more) ]

abbrev pub string_value : Option Bytes → TokenValue
string_value none = Syntax.null
string_value (some s) = Syntax.text s

-- the characters up to the first that fails the test, and the rest
unfoldable pub take_while : (ℕ → Bool) → Bytes → Bytes × Bytes
take_while test [] = ([], [])
take_while test (c ∷ cs) =
    let (xs, rest) = take_while test cs in if test c then (c ∷ xs, rest) else ([], c ∷ cs)
