-- ===== src/Lexer/Total.antt =====
-- The scanner on a whole source, and the parser on what it scans.
use alca.Base.{
  ℕ, zero, suc, ◌+◌, ◌≤◌, ◌<◌, ◌≡◌, refl, ap, true, false, List, [], ◌∷◌, ◌++◌, ◌==◌, Bytes, length,
  Bool-cases, inl, inr, ◌⊎◌, arith,
}
use alca.Syntax
use alca.Syntax.{TokenType, TokenValue, Token, same_type}
use alca.Parser.Outcomes.{AreTokens}
use alca.Lexer.{Lexer, Scan, scanned, undefined, out_of_fuel, line_after, lex_add_flagged}
use alca.Lexer.Scanner.{add_end, scan_case, lex_scan_token, ac_lex_scan, ac_lex_new}
use alca.Parser.Outcomes.{Ensures, Failed}
use alca.Parser.Statements.{ac_psr_parse}
use alca.Parser.Total.{IsParsed, ac_psr_parse-Program}
use alca.Lexer.Ends.{IsEnd, IsEnd-same, IsEnd-trans, length-IsEnd, Broken-before}
use alca.Lexer.Complete.{Kept, Scans, ends, is_undefined, AreTokens-last}
use alca.Lexer.Programs.{case-Kept}

abbrev pub EndsInEof : List Token → Type 0
EndsInEof ts = (front : List Token) × (t : Token) × (ts ≡ front ++ (t ∷ [])) × (t.type ≡ Syntax.eof)

-- What one token's scan gives.
record Next (lx lx' : Lexer) : Type 0 where
  tokens : AreTokens lx.tokens → AreTokens lx'.tokens
  shorter : length lx'.rest < length lx.rest
  remaining : IsEnd lx.rest lx'.rest
  ended : (1 ≤ lx'.status) ⊎ ((lx'.status ≡ 0) × ((lx'.rest ≡ []) → EndsInEof lx'.tokens))

positive : (n : ℕ) → (n == 0) ≡ false → 1 ≤ n
positive n e = ground arith

is_zero : (n : ℕ) → (n == 0) ≡ true → n ≡ 0
is_zero n e = ground arith

end-Next :
    (lx lx₁ : Lexer)
    → (AreTokens lx.tokens → AreTokens lx₁.tokens)
    → length lx₁.rest < length lx.rest
    → IsEnd lx.rest lx₁.rest
    → Next lx (add_end lx₁)
unfolding add_end lex_add_flagged
end-Next lx lx₁ w l r = go lx₁.rest lx₁.tokens lx₁.line lx₁.status w l r
  where
    go :
        (rest : Bytes) (ts : List Token) (line status : ℕ)
        → (AreTokens lx.tokens → AreTokens ts)
        → length rest < length lx.rest
        → IsEnd lx.rest rest
        → Next lx (add_end (record { rest = rest; tokens = ts; line = line; status = status }))
    go [] ts line status w l r = elim (Bool-cases (status == 0)) [
      | inl z ↦
          rw (z, add_end)
            (record {
              tokens = λ v. AreTokens-last ts _ (w v) tt;
              shorter = l;
              remaining = r;
              ended = inr (is_zero status z, λ e. (ts, _, refl, refl));
            })
      | inr z ↦
          rw (z, add_end)
            (record { tokens = w; shorter = l; remaining = r; ended = inl (positive status z) })
    ]
    go (c ∷ cs) ts line status w l r = elim (Bool-cases (status == 0)) [
      | inl z ↦
          rw (z, add_end)
            (record {
              tokens = w;
              shorter = l;
              remaining = r;
              ended = inr (is_zero status z, λ e. absurd (cc));
            })
      | inr z ↦
          rw (z, add_end)
            (record { tokens = w; shorter = l; remaining = r; ended = inl (positive status z) })
    ]

-- The scan ended: with an error, or at the end of the source, behind the end token.
pub record IsScanned (lx : Lexer) : Type 0 where
  pub tokens : AreTokens lx.tokens
  pub outcome : (1 ≤ lx.status) ⊎ ((lx.status ≡ 0) × ((lx.rest ≡ []) × EndsInEof lx.tokens))

Scans-map :
    {text : Bytes} {P Q : Lexer → Type 0} {o : Scan}
    → ((lx : Lexer) → P lx → Q lx)
    → Scans text P o
    → Scans text Q o
Scans-map f (ends p) = ends (f _ p)
Scans-map f (is_undefined u) = is_undefined u

behind_first : {xs cs : Bytes} {c : ℕ} → xs ≡ c ∷ cs → IsEnd xs cs
behind_first {c = c} e = (c ∷ [], e)

module _ (strtoul : Bytes → ℕ → ℕ) (long_max : ℕ) where
  token-Next :
      (c : ℕ) (cs : Bytes) (lx : Lexer)
      → lx.rest ≡ c ∷ cs
      → Scans lx.rest (Next lx) (lex_scan_token strtoul long_max lx)
  unfolding lex_scan_token
  token-Next c cs lx e =
      go (scan_case strtoul long_max c (record lx { rest = cs; line = line_after c lx.line })) refl
        (case-Kept strtoul long_max c (record lx { rest = cs; line = line_after c lx.line }))
    where
      go :
          (o : Scan)
          → scan_case strtoul long_max c (record lx { rest = cs; line = line_after c lx.line }) ≡ o
          → Scans (c ∷ cs) (Kept (record lx { rest = cs; line = line_after c lx.line })) o
          → Scans lx.rest (Next lx) (lex_scan_token strtoul long_max lx)
      go (scanned lx₁) f (ends k) =
          let l = ap (λ (z : Bytes). length z) e in
          simp (e, f, lex_scan_token)
            (ends (
              end-Next lx lx₁ k.tokens (omega (arith, length-IsEnd k.remaining, l))
                (IsEnd-trans (behind_first e) k.remaining)))
      go undefined f (is_undefined u) = simp (e, f, lex_scan_token) (is_undefined u)
      go out_of_fuel f k = elim k [ ]

  scan-IsScanned :
      (fuel : ℕ) (lx : Lexer)
      → AreTokens lx.tokens
      → lx.status ≡ 0
      → length lx.rest ≤ fuel
      → ((lx.rest ≡ []) → EndsInEof lx.tokens)
      → {text : Bytes} → IsEnd text lx.rest
      → Scans text IsScanned (ac_lex_scan strtoul long_max fuel lx)
  unfolding ac_lex_scan
  scan-IsScanned zero lx w z l e {text} t = at_end lx.rest refl
    where
      at_end :
          (r : Bytes) → lx.rest ≡ r → Scans text IsScanned (ac_lex_scan strtoul long_max zero lx)
      at_end [] p =
          simp (p, ac_lex_scan) (ends (record { tokens = w; outcome = inr (z, (p, e p)) }))
      at_end (c ∷ cs) p = let n = ap (λ (b : Bytes). length b) p in absurd (omega (arith, n, l))
  scan-IsScanned (suc fuel) lx w z l e {text} t =
      go (λ lx₁ w₁ z₁ l₁ e₁ t₁. scan-IsScanned fuel lx₁ w₁ z₁ l₁ e₁ t₁) lx.rest refl
    where
      onwards :
          ((lx₁ : Lexer)
            → AreTokens lx₁.tokens
            → lx₁.status ≡ 0
            → length lx₁.rest ≤ fuel
            → ((lx₁.rest ≡ []) → EndsInEof lx₁.tokens)
            → IsEnd text lx₁.rest
            → Scans text IsScanned (ac_lex_scan strtoul long_max fuel lx₁))
          → (c : ℕ) (cs : Bytes) → lx.rest ≡ c ∷ cs
          → (o : Scan) → lex_scan_token strtoul long_max lx ≡ o
          → Scans lx.rest (Next lx) o
          → Scans text IsScanned (ac_lex_scan strtoul long_max (suc fuel) lx)
      onwards again c cs p undefined f (is_undefined u) =
          simp (p, f, ac_lex_scan) (is_undefined (Broken-before t u))
      onwards again c cs p out_of_fuel f k = elim k [ ]
      onwards again c cs p (scanned lx₁) f (ends k) = elim k.ended [
        | inl bad ↦
            let b : (lx₁.status == 0) ≡ false = ground arith in
            simp (p, f, b, ac_lex_scan) (ends (record { tokens = k.tokens w; outcome = inl bad }))
        | inr (z₁, e₁) ↦
            let b : (lx₁.status == 0) ≡ true = ground arith in
            simp (p, f, b, ac_lex_scan)
              (again lx₁ (k.tokens w) z₁ (omega (arith, k.shorter, l)) e₁
                (IsEnd-trans t k.remaining))
      ]

      go :
          ((lx₁ : Lexer)
            → AreTokens lx₁.tokens
            → lx₁.status ≡ 0
            → length lx₁.rest ≤ fuel
            → ((lx₁.rest ≡ []) → EndsInEof lx₁.tokens)
            → IsEnd text lx₁.rest
            → Scans text IsScanned (ac_lex_scan strtoul long_max fuel lx₁))
          → (r : Bytes) → lx.rest ≡ r
          → Scans text IsScanned (ac_lex_scan strtoul long_max (suc fuel) lx)
      go again [] p =
          simp (p, ac_lex_scan) (ends (record { tokens = w; outcome = inr (z, (p, e p)) }))
      go again (c ∷ cs) p =
          onwards again c cs p (lex_scan_token strtoul long_max lx) refl (token-Next c cs lx p)

  -- Scanning a source that is not empty, with at least as much fuel as it has characters, ends, and its behaviour is
  -- undefined only where the source has `0x` without a hexadecimal digit behind it, or ends with a backslash. The tokens are
  -- well formed: a number has a word, and an identifier has a name. Either an error is set, or the whole source was scanned
  -- and the last token is the end token.
  pub ac_lex_scan-IsScanned :
      (fuel c : ℕ) (source : Bytes)
      → length (c ∷ source) ≤ fuel
      → Scans (c ∷ source) IsScanned (ac_lex_scan strtoul long_max fuel (ac_lex_new (c ∷ source)))
  ac_lex_scan-IsScanned fuel c source l =
      scan-IsScanned fuel (ac_lex_new (c ∷ source)) tt refl l (λ e. absurd (cc))
        (IsEnd-same (c ∷ source))

  -- A scanned source that set no error is parsed to its end: into NULL with an error code, or into the statements that its
  -- tokens derive. Scanning is undefined only where the source has `0x` without a hexadecimal digit behind it, or ends with
  -- a backslash.
  pub scan-parse :
      (fuel c : ℕ) (source : Bytes)
      → length (c ∷ source) ≤ fuel
      → Scans
          (c ∷ source)
          (λ lx.
            (1 ≤ lx.status)
            ⊎ Ensures (IsParsed lx.tokens) Failed (ac_psr_parse (length lx.tokens + 1) lx.tokens))
          (ac_lex_scan strtoul long_max fuel (ac_lex_new (c ∷ source)))
  scan-parse fuel c source l =
      Scans-map
        (λ lx p. elim p.outcome [
          | inl e ↦ inl e
          | inr _ ↦
              inr (ac_psr_parse-Program (length lx.tokens + 1) lx.tokens p.tokens (omega arith))
        ])
        (ac_lex_scan-IsScanned fuel c source l)
