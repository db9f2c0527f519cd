-- ===== src/Lexer/Tokens.antt =====
-- The functions of libalca/lexer.c that scan a regular expression, a string, a number, an identifier and a comment.
use alca.Base.{
  ℕ, ◌+◌, Bool, true, false, not, ◌&&◌, ◌||◌, Option, none, some, List, [], ◌∷◌, ◌==◌,
  if◌then◌else◌, Bytes, bytes_eq, drop,
}
use alca.Base.Words.{wrap32}
use alca.Syntax
use alca.Syntax.{TokenType, TokenValue, Token}
use alca.Lexer.{
  Lexer, Scan, scanned, undefined, line_after, lex_peek, lex_add_flagged, lex_add_token, panic,
  between, is_valid_identifier, ac_str_extend, string_value, take_while,
}

-- the modifiers of a regular expression that were found
pub record Modifiers : Type 0 where
  pub caseless : Bool
  pub dotall : Bool
  pub multiline : Bool
  pub no_auto_capture : Bool

abbrev pub flag : Bool → ℕ → ℕ
flag b n = if b then n else 0

-- PCRE2_CASELESS, PCRE2_DOTALL, PCRE2_MULTILINE and PCRE2_NO_AUTO_CAPTURE
unfoldable pub pcre_flags : Modifiers → ℕ
pcre_flags m =
    flag m.caseless 8 + flag m.dotall 32 + flag m.multiline 1024 + flag m.no_auto_capture 8192

unfoldable pub modifier : ℕ → Modifiers → Option Modifiers
modifier c m =
    if c == b'i'
    then some (record m { caseless = true })
    else if c == b's'
    then some (record m { dotall = true })
    else if c == b'm'
    then some (record m { multiline = true })
    else if c == b'n'
    then some (record m { no_auto_capture = true })
    else none

-- the loop of `lex_handleRegex`; none at the end of the source, where no token is added
unfoldable pub regex_modifiers : Bytes → Modifiers → Option (Modifiers × Bytes)
regex_modifiers [] m = none
regex_modifiers (c ∷ cs) m = elim (modifier c m) [
  | none ↦ some (m, c ∷ cs)
  | some m' ↦ regex_modifiers cs m'
]

abbrev pub no_modifiers : Modifiers
no_modifiers = record {
  caseless = false;
  dotall = false;
  multiline = false;
  no_auto_capture = false;
}

unfoldable pub lex_handle_regex : Option Bytes → Lexer → Lexer
lex_handle_regex regex lx = elim (regex_modifiers lx.rest no_modifiers) [
  | none ↦ record lx { rest = [] }
  | some (m, rest) ↦
      lex_add_flagged Syntax.regex (string_value regex) (pcre_flags m) (record lx { rest = rest })
]

-- the character that an escape stands for
unfoldable pub escape : ℕ → Option ℕ
escape c =
    if c == 39 || c == b'/' || c == 34 || c == 92
    then some c
    else if c == b'n'
    then some 10
    else if c == b't'
    then some 9
    else if c == b'r'
    then some 13
    else if c == b'a'
    then some 7
    else if c == b'f'
    then some 12
    else if c == b'v'
    then some 11
    else if c == b'b'
    then some 8
    else none

-- How the loop of `lex_handleString` ends: at the closing character, in an error, at the end of the source, or by reading
-- behind it.
pub data StringEnd : Type 0 where
  closed : Option Bytes → Bytes → ℕ → StringEnd
  refused : Bytes → ℕ → StringEnd
  unclosed : ℕ → StringEnd
  behind_end : StringEnd

unfoldable pub string_body : ℕ → Bytes → Option Bytes → ℕ → StringEnd
string_body first [] str line = unclosed line
string_body first (c ∷ []) str line =
    if c == 10
    then refused [] (line + 1)
    else if c == 92 && not (first == b'/')
    then behind_end
    else if c == first
    then closed str [] line
    else unclosed line
string_body first (c ∷ d ∷ rest) str line =
    let plain = string_body first (d ∷ rest) (ac_str_extend str c) line in
    let escaped : Option ℕ → StringEnd = λ o. elim o [
      | none ↦ refused rest (line_after d line)
      | some e ↦ string_body first rest (ac_str_extend str e) line
    ] in
    if c == 10
    then refused (d ∷ rest) (line + 1)
    else if c == 92 && not (first == b'/')
    then escaped (escape d)
    else if c == first
    then closed str (d ∷ rest) line
    else plain

unfoldable pub lex_handle_string : ℕ → Lexer → Scan
lex_handle_string first lx = elim (string_body first lx.rest none lx.line) [
  | closed str rest line ↦ scanned (
      if first == b'/'
      then lex_handle_regex str (record lx { rest = rest; line = line })
      else lex_add_token Syntax.string (string_value str) (record lx { rest = rest; line = line }))
  | refused rest line ↦ scanned (panic (record lx { rest = rest; line = line }))
  | unclosed line ↦ scanned (record lx { rest = []; line = line })
  | behind_end ↦ undefined
]

-- `base == 16 && lower || upper`: the upper case letters count in both bases
unfoldable pub is_digit : Bool → ℕ → Bool
is_digit hex c = between b'0' b'9' c || ((hex && between b'a' b'f' c) || between b'A' b'F' c)

-- `strtoul` of the C library and LONG_MAX of the host are parameters.
module _ (strtoul : Bytes → ℕ → ℕ) (long_max : ℕ) where
  unfoldable pub add_number : ℕ → Bytes → Lexer → Lexer
  add_number base str lx =
      let num = wrap32 (strtoul str base) in
      if num == long_max then panic lx else lex_add_token Syntax.number (Syntax.word num) lx

  -- Without a digit behind `0x` the argument of `strtoul` is NULL.
  unfoldable pub lex_handle_integer : ℕ → Lexer → Scan
  lex_handle_integer first lx =
      if first == b'0' && lex_peek lx == b'x'
      then (let (digits, rest) = take_while (is_digit true) (drop 1 lx.rest) in
          elim digits [
            | [] ↦ undefined
            | d ∷ ds ↦ scanned (add_number 16 (d ∷ ds) (record lx { rest = rest }))
          ])
      else (let (digits, rest) = take_while (is_digit false) lx.rest in
          scanned (add_number 10 (first ∷ digits) (record lx { rest = rest })))

-- the keywords, in the order of the comparisons
abbrev pub keywords : List (Bytes × TokenType)
keywords =
    ((b'a' ∷ b'n' ∷ b'd' ∷ []), Syntax.and_kw)
    ∷ ((b'o' ∷ b'r' ∷ []), Syntax.or_kw)
    ∷ ((b'n' ∷ b'o' ∷ b't' ∷ []), Syntax.not_kw)
    ∷ ((b't' ∷ b'r' ∷ b'u' ∷ b'e' ∷ []), Syntax.true_kw)
    ∷ ((b'f' ∷ b'a' ∷ b'l' ∷ b's' ∷ b'e' ∷ []), Syntax.false_kw)
    ∷ (
      (b's' ∷ b't' ∷ b'a' ∷ b'r' ∷ b't' ∷ b's' ∷ b'w' ∷ b'i' ∷ b't' ∷ b'h' ∷ []),
      Syntax.startswith,
    )
    ∷ (
      (b'i' ∷ b's' ∷ b't' ∷ b'a' ∷ b'r' ∷ b't' ∷ b's' ∷ b'w' ∷ b'i' ∷ b't' ∷ b'h' ∷ []),
      Syntax.istartswith,
    )
    ∷ ((b'e' ∷ b'n' ∷ b'd' ∷ b's' ∷ b'w' ∷ b'i' ∷ b't' ∷ b'h' ∷ []), Syntax.endswith)
    ∷ ((b'i' ∷ b'e' ∷ b'n' ∷ b'd' ∷ b's' ∷ b'w' ∷ b'i' ∷ b't' ∷ b'h' ∷ []), Syntax.iendswith)
    ∷ ((b'c' ∷ b'o' ∷ b'n' ∷ b't' ∷ b'a' ∷ b'i' ∷ b'n' ∷ b's' ∷ []), Syntax.contains)
    ∷ ((b'i' ∷ b'c' ∷ b'o' ∷ b'n' ∷ b't' ∷ b'a' ∷ b'i' ∷ b'n' ∷ b's' ∷ []), Syntax.icontains)
    ∷ ((b'i' ∷ b'e' ∷ b'q' ∷ b'u' ∷ b'a' ∷ b'l' ∷ b's' ∷ []), Syntax.iequals)
    ∷ ((b'm' ∷ b'a' ∷ b't' ∷ b'c' ∷ b'h' ∷ b'e' ∷ b's' ∷ []), Syntax.matches)
    ∷ ((b'f' ∷ b'o' ∷ b'r' ∷ []), Syntax.for_kw)
    ∷ ((b'a' ∷ b'n' ∷ b'y' ∷ []), Syntax.any_kw)
    ∷ ((b'a' ∷ b'l' ∷ b'l' ∷ []), Syntax.all_kw)
    ∷ ((b'i' ∷ b'n' ∷ []), Syntax.in_kw)
    ∷ ((b'p' ∷ b'r' ∷ b'i' ∷ b'v' ∷ b'a' ∷ b't' ∷ b'e' ∷ []), Syntax.private_kw)
    ∷ ((b'r' ∷ b'u' ∷ b'l' ∷ b'e' ∷ []), Syntax.rule_kw)
    ∷ ((b's' ∷ b'e' ∷ b'q' ∷ b'u' ∷ b'e' ∷ b'n' ∷ b'c' ∷ b'e' ∷ []), Syntax.sequence_kw)
    ∷ ((b'e' ∷ b'v' ∷ b'e' ∷ b'n' ∷ b't' ∷ []), Syntax.import_kw)
    ∷ []

unfoldable pub keyword_in : List (Bytes × TokenType) → Bytes → Option TokenType
keyword_in [] str = none
keyword_in ((k, type) ∷ table) str =
    let others = keyword_in table str in if bytes_eq k str then some type else others

-- The first character is tested here although the caller has tested it.
unfoldable pub lex_handle_identifier : ℕ → Lexer → Lexer
lex_handle_identifier first lx =
    if not (is_valid_identifier first)
    then panic lx
    else (let (chars, rest) = take_while is_valid_identifier lx.rest in
        elim (keyword_in keywords (first ∷ chars)) [
          | some type ↦ lex_add_token type Syntax.null (record lx { rest = rest })
          | none ↦
              lex_add_token Syntax.identifier (Syntax.text (first ∷ chars))
                (record lx { rest = rest })
        ])

-- the loop of `lex_handleComment`: whether the comment ends, the rest, and the line
unfoldable pub comment_body : ℕ → Bytes → ℕ → Bool × (Bytes × ℕ)
comment_body next [] line = (false, ([], line))
comment_body next (c ∷ cs) line =
    let others = comment_body next cs (line_after c line) in
    let starred : Bool × (Bytes × ℕ) = elim cs [
      | [] ↦ others
      | d ∷ ds ↦ (if c == b'*' && d == b'/' then (true, (ds, line)) else others)
    ] in
    if next == b'/'
    then (if c == 10 then (true, (cs, line + 1)) else others)
    else if next == b'*'
    then starred
    else others

unfoldable pub lex_handle_comment : ℕ → Lexer → Lexer
lex_handle_comment next lx =
    let (ended, (rest, line)) = comment_body next lx.rest lx.line in
    record lx { rest = rest; line = line; status = if ended then lx.status else 1 }
