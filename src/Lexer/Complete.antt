-- ===== src/Lexer/Complete.antt =====
-- The functions that scan one token keep the tokens well formed, leave an end of the source, and are defined on all
-- texts that are not broken.
use alca.Base.{
  ℕ, zero, suc, ◌+◌, ◌≤◌, ◌<◌, ◌≡◌, refl, sym, ap, ◌∙◌, Bool, true, false, not, ◌&&◌, ◌||◌, Option,
  none, some, List, [], ◌∷◌, ◌++◌, ◌==◌, if◌then◌else◌, Bytes, bytes_eq, length, drop, length-drop,
  Bool-cases, Option-cases, inl, inr, ◌⊎◌, arith,
}
use alca.Syntax
use alca.Syntax.{TokenType, TokenValue, Token, same_type}
use alca.Parser.Outcomes.{IsToken, AreTokens}
use alca.Lexer.{
  Lexer, Scan, scanned, undefined, lex_peek, lex_advance, lex_add_flagged, string_value, take_while,
}
use alca.Lexer.Ends.{
  IsEnd, IsEnd-same, IsEnd-none, IsEnd-more, IsEnd-trans, drop-IsEnd, take_while-IsEnd,
  regex_modifiers-IsEnd, IsTail, string_body-IsTail, take_while-NoDigit, Broken, no_digits,
  backslash, Broken-before,
}
use alca.Lexer.Tokens.{
  regex_modifiers, no_modifiers, lex_handle_regex, StringEnd, closed, refused, unclosed, behind_end,
  string_body, lex_handle_string, is_digit, add_number, lex_handle_integer,
}

-- The tokens stay well formed, and what is left is an end of what was there.
pub record Kept (lx lx' : Lexer) : Type 0 where
  pub tokens : AreTokens lx.tokens → AreTokens lx'.tokens
  pub remaining : IsEnd lx.rest lx'.rest

-- The call leaves a lexer with the property; or its behaviour is undefined, which takes a broken text.
pub data Scans (text : Bytes) (P : Lexer → Type 0) : Scan → Type 0 where
  ends : {lx : Lexer} → P lx → Scans text P (scanned lx)
  is_undefined : Broken text → Scans text P undefined

pub Scans-more :
    (c : ℕ) {text : Bytes} {P : Lexer → Type 0} {o : Scan} → Scans text P o → Scans (c ∷ text) P o
Scans-more c {text} (ends p) = ends p
Scans-more c {text} (is_undefined u) =
    is_undefined (Broken-before (IsEnd-more c (IsEnd-same text)) u)

pub AreTokens-last :
    (ts : List Token) (t : Token)
    → AreTokens ts
    → IsToken t.type t.value
    → AreTokens (ts ++ (t ∷ []))
AreTokens-last [] t w v = (v, tt)
AreTokens-last (u ∷ ts) t (x, w) v = (x, AreTokens-last ts t w v)

pub Kept-trans : {a b c : Lexer} → Kept a b → Kept b c → Kept a c
Kept-trans p q = record {
  tokens = λ w. q.tokens (p.tokens w);
  remaining = IsEnd-trans p.remaining q.remaining;
}

pub add-Kept :
    (type : TokenType) (value : TokenValue) (flags : ℕ) (lx : Lexer)
    → IsToken type value
    → Kept lx (lex_add_flagged type value flags lx)
unfolding lex_add_flagged
add-Kept type value flags lx v = record {
  tokens = λ w. AreTokens-last lx.tokens _ w v;
  remaining = IsEnd-same lx.rest;
}

pub rest-Kept :
    (rest : Bytes) (line status : ℕ) (lx : Lexer)
    → IsEnd lx.rest rest
    → Kept lx (record lx { rest = rest; line = line; status = status })
rest-Kept rest line status lx l = record { tokens = λ w. w; remaining = l }

advance_at :
    (rest : Bytes) (tokens : List Token) (line status : ℕ)
    → let lx : Lexer = record { rest = rest; tokens = tokens; line = line; status = status } in
      Kept lx (lex_advance lx)
unfolding lex_advance
advance_at [] tokens line status = record { tokens = λ w. w; remaining = IsEnd-same [] }
advance_at (c ∷ cs) tokens line status = record {
  tokens = λ w. w;
  remaining = IsEnd-more c (IsEnd-same cs);
}

pub advance-Kept : (lx : Lexer) → Kept lx (lex_advance lx)
advance-Kept lx = advance_at lx.rest lx.tokens lx.line lx.status

regex-Kept : (str : Option Bytes) (lx : Lexer) → Kept lx (lex_handle_regex str lx)
unfolding lex_handle_regex lex_add_flagged
regex-Kept str lx = elim (Option-cases (regex_modifiers lx.rest no_modifiers)) [
  | inl e ↦ rw (e, lex_handle_regex) (record { tokens = λ w. w; remaining = IsEnd-none lx.rest })
  | inr ((m, rest), e) ↦
      rw (e, lex_handle_regex)
        (record {
          tokens = λ w. AreTokens-last lx.tokens _ w tt;
          remaining = regex_modifiers-IsEnd lx.rest no_modifiers m rest e;
        })
]

pub string-Kept : (first : ℕ) (lx : Lexer) → Scans lx.rest (Kept lx) (lex_handle_string first lx)
unfolding lex_handle_string
string-Kept first lx =
    go (string_body first lx.rest none lx.line) refl (string_body-IsTail first lx.rest none lx.line)
  where
    go :
        (e : StringEnd)
        → string_body first lx.rest none lx.line ≡ e
        → IsTail lx.rest e
        → Scans lx.rest (Kept lx) (lex_handle_string first lx)
    go (closed str rest line) e l = elim (Bool-cases (first == b'/')) [
      | inl b ↦
          rw (e, b, lex_handle_string)
            (ends (
              Kept-trans (rest-Kept rest line lx.status lx l)
                (regex-Kept str (record lx { rest = rest; line = line }))))
      | inr b ↦
          rw (e, b, lex_handle_string)
            (ends (
              Kept-trans (rest-Kept rest line lx.status lx l) (
                add-Kept Syntax.string (string_value str) 0 (record lx { rest = rest; line = line })
                  tt)))
    ]
    go (refused rest line) e l = rw (e, lex_handle_string) (ends (rest-Kept rest line 1 lx l))
    go (unclosed line) e l =
        rw (e, lex_handle_string) (ends (rest-Kept [] line lx.status lx (IsEnd-none lx.rest)))
    go behind_end e l = rw (e, lex_handle_string) (is_undefined (backslash l))

number-Kept :
    (strtoul : Bytes → ℕ → ℕ) (long_max base : ℕ) (str : Bytes) (lx : Lexer)
    → Kept lx (add_number strtoul long_max base str lx)
unfolding add_number
number-Kept strtoul long_max base str lx =
    elim (Bool-cases (alca.Base.Words.wrap32 (strtoul str base) == long_max)) [
      | inl b ↦ rw (b, add_number) (record { tokens = λ w. w; remaining = IsEnd-same lx.rest })
      | inr b ↦ rw (b, add_number) (add-Kept Syntax.number _ 0 lx tt)
    ]

is_zero : (c : ℕ) (b : Bool) → (c == b'0' && b) ≡ true → c ≡ b'0'
is_zero c b e = ground (arith, e, b)

is_x : (c d : ℕ) → (c == b'0' && d == b'x') ≡ true → d ≡ b'x'
is_x c d e = ground (arith, e)

-- the character that `lex_peek` gives
peeked :
    (rest : Bytes) (tokens : List Token) (line status : ℕ)
    → lex_peek (record { rest = rest; tokens = tokens; line = line; status = status }) ≡ b'x'
    → b'x' ∷ drop 1 rest ≡ rest
unfolding lex_peek
peeked [] tokens line status e = absurd (omega (arith, e))
peeked (c ∷ cs) tokens line status e = ap (λ (n : ℕ). n ∷ cs) (sym e)

pub integer-Kept :
    (strtoul : Bytes → ℕ → ℕ) (long_max first : ℕ) (lx : Lexer)
    → Scans (first ∷ lx.rest) (Kept lx) (lex_handle_integer strtoul long_max first lx)
unfolding lex_handle_integer
integer-Kept strtoul long_max first lx = elim (Bool-cases (first == b'0' && lex_peek lx == b'x')) [
  | inl b ↦ hex b (take_while (is_digit true) (drop 1 lx.rest)).0 refl
  | inr b ↦
      rw (b, lex_handle_integer)
        (ends (
          Kept-trans
            (rest-Kept (take_while (is_digit false) lx.rest).1 lx.line lx.status lx
              (take_while-IsEnd (is_digit false) lx.rest))
            (number-Kept strtoul long_max 10 _ _)))
]
  where
    hex :
        (first == b'0' && lex_peek lx == b'x') ≡ true
        → (digits : Bytes) → (take_while (is_digit true) (drop 1 lx.rest)).0 ≡ digits
        → Scans (first ∷ lx.rest) (Kept lx) (lex_handle_integer strtoul long_max first lx)
    hex b [] e =
        let z : first ≡ b'0' = is_zero first (lex_peek lx == b'x') b in
        let x = peeked lx.rest lx.tokens lx.line lx.status (is_x first (lex_peek lx) b) in
        rw (b, e, lex_handle_integer)
          (is_undefined (
            no_digits (drop 1 lx.rest) ([], rw (z, ← x) refl)
              (take_while-NoDigit (drop 1 lx.rest) e)))
    hex b (d ∷ ds) e =
        rw (b, e, lex_handle_integer)
          (ends (
            Kept-trans
              (rest-Kept (take_while (is_digit true) (drop 1 lx.rest)).1 lx.line lx.status lx (
                IsEnd-trans (drop-IsEnd lx.rest)
                  (take_while-IsEnd (is_digit true) (drop 1 lx.rest))))
              (number-Kept strtoul long_max 16 _ _)))
