-- ===== src/Tests/Sources.antt =====
-- A source, scanned and parsed.
use alca.Base.{ℕ, ◌+◌, ◌*◌, ◌-◌, ◌≤◌, List, [], ◌∷◌, length, Bytes, Bool, true, false, arith, ◌⊎◌}
use alca.Syntax.{Statement}
use alca.Parser.{Outcome, returned}
use alca.Parser.Outcomes.{Ensures, Failed}
use alca.Parser.Statements.{ac_psr_parse}
use alca.Parser.Total.{IsParsed}
use alca.Lexer.{Scan, scanned}
use alca.Lexer.Scanner.{ac_lex_scan, ac_lex_new}
use alca.Lexer.Complete.{Scans}
use alca.Lexer.Total.{IsScanned, ac_lex_scan-IsScanned, scan-parse}

-- the value of decimal digits
abbrev digits : ℕ → Bytes → ℕ
digits n [] = n
digits n (c ∷ cs) = digits (n * 10 + (c - 48)) cs

abbrev strtoul : Bytes → ℕ → ℕ
strtoul str base = digits 0 str

abbrev source : Bytes
source =
    b'v' ∷ b'e' ∷ b'n' ∷ b't' ∷ 32 ∷ b'f' ∷ 10 ∷ b'r' ∷ b'u' ∷ b'l' ∷ b'e' ∷ 32 ∷ b'a' ∷ b':' ∷ 32
    ∷ b'f' ∷ 32 ∷ b'{' ∷ 32 ∷ b'f' ∷ b'.' ∷ b'n' ∷ 32 ∷ b'>' ∷ b'=' ∷ 32 ∷ b'3' ∷ b'1' ∷ 32 ∷ b'a'
    ∷ b'n' ∷ b'd' ∷ 32 ∷ 34 ∷ b'x' ∷ 34 ∷ 32 ∷ b'=' ∷ b'=' ∷ 32 ∷ 39 ∷ b'y' ∷ 39 ∷ 32 ∷ b'}' ∷ []

abbrev accepts : Outcome (List Statement) → Bool
accepts (returned _ _) = true
accepts _ = false

abbrev scan_accepts : Scan → Bool
scan_accepts (scanned lx) = accepts (ac_psr_parse (length lx.tokens + 1) lx.tokens)
scan_accepts _ = false

abbrev accepted : Bool
accepted = scan_accepts (ac_lex_scan strtoul 9223372036854775807 100 (ac_lex_new (b'e' ∷ source)))

ac_lex_scan-IsScanned_example :
    Scans
      (b'e' ∷ source)
      IsScanned
      (ac_lex_scan strtoul 9223372036854775807 100 (ac_lex_new (b'e' ∷ source)))
ac_lex_scan-IsScanned_example =
    ac_lex_scan-IsScanned strtoul 9223372036854775807 100 b'e' source (omega arith)

scan-parse_example :
    Scans
      (b'e' ∷ source)
      (λ lx.
        (1 ≤ lx.status)
        ⊎ Ensures (IsParsed lx.tokens) Failed (ac_psr_parse (length lx.tokens + 1) lx.tokens))
      (ac_lex_scan strtoul 9223372036854775807 100 (ac_lex_new (b'e' ∷ source)))
scan-parse_example = scan-parse strtoul 9223372036854775807 100 b'e' source (omega arith)
