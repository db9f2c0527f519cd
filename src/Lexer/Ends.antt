-- ===== src/Lexer/Ends.antt =====
-- What a scanning loop leaves of the source is an end of it, and where the scanner's behaviour is undefined.
use alca.Base.{
  ℕ, ◌+◌, ◌≤◌, ◌≡◌, refl, sym, ap, ◌∙◌, Bool, true, false, not, ◌&&◌, Option, some, [], ◌∷◌, ◌++◌,
  append_assoc, append-nil, ◌==◌, if◌then◌else◌, Bytes, length, length-append, drop, Bool-cases,
  Option-cases, inl, inr, arith,
}
use alca.Lexer.{line_after, ac_str_extend, take_while}
use alca.Lexer.Tokens.{
  Modifiers, modifier, regex_modifiers, escape, StringEnd, closed, refused, unclosed, behind_end,
  string_body, is_digit, comment_body,
}

-- `ys` is what `xs` ends with.
abbrev pub IsEnd : Bytes → Bytes → Type 0
IsEnd xs ys = (front : Bytes) × (xs ≡ front ++ ys)

pub IsEnd-same : (xs : Bytes) → IsEnd xs xs
IsEnd-same xs = ([], refl)

pub IsEnd-none : (xs : Bytes) → IsEnd xs []
IsEnd-none xs = (xs, sym (append-nil xs))

pub IsEnd-more : (c : ℕ) {xs ys : Bytes} → IsEnd xs ys → IsEnd (c ∷ xs) ys
IsEnd-more c (front, e) = (c ∷ front, ap (◌∷◌ c) e)

pub IsEnd-trans : {xs ys zs : Bytes} → IsEnd xs ys → IsEnd ys zs → IsEnd xs zs
IsEnd-trans {zs = zs} (f, e) (g, k) =
    (f ++ g, e ∙ ap (λ (z : Bytes). f ++ z) k ∙ sym (append_assoc f g zs))

pub length-IsEnd : {xs ys : Bytes} → IsEnd xs ys → length ys ≤ length xs
length-IsEnd {ys = ys} (f, e) =
    let l = ap (λ (z : Bytes). length z) e in omega (arith, l, length-append f ys)

pub drop-IsEnd : (cs : Bytes) → IsEnd cs (drop 1 cs)
drop-IsEnd [] = IsEnd-same []
drop-IsEnd (c ∷ cs) = IsEnd-more c (IsEnd-same cs)

pub take_while-IsEnd : (test : ℕ → Bool) (cs : Bytes) → IsEnd cs (take_while test cs).1
unfolding take_while
take_while-IsEnd test [] = IsEnd-same []
take_while-IsEnd test (c ∷ cs) = elim (Bool-cases (test c)) [
  | inl b ↦ rw (b, take_while) (IsEnd-more c (take_while-IsEnd test cs))
  | inr b ↦ rw (b, take_while) (IsEnd-same (c ∷ cs))
]

-- one round of the loop, given what the others leave
round-IsEnd :
    (next c line : ℕ) (cs : Bytes) (starred others : Bool × (Bytes × ℕ))
    → IsEnd (c ∷ cs) starred.1.0
    → IsEnd (c ∷ cs) others.1.0
    → IsEnd
        (c ∷ cs)
        (if next == b'/'
          then (if c == 10 then (true, (cs, line)) else others)
          else if next == b'*'
          then starred
          else others).1.0
round-IsEnd next c line cs starred others p q = elim (Bool-cases (next == b'/')) [
  | inl a ↦ elim (Bool-cases (c == 10)) [
    | inl b ↦ rw (a, b) (IsEnd-more c (IsEnd-same cs))
    | inr b ↦ rw (a, b) q
  ]
  | inr a ↦ elim (Bool-cases (next == b'*')) [ inl b ↦ rw (a, b) p | inr b ↦ rw (a, b) q ]
]

closed-IsEnd :
    (b : Bool) (line : ℕ) (xs ds : Bytes) (others : Bool × (Bytes × ℕ))
    → IsEnd xs ds
    → IsEnd xs others.1.0
    → IsEnd xs (if b then (true, (ds, line)) else others).1.0
closed-IsEnd true line xs ds others p q = p
closed-IsEnd false line xs ds others p q = q

pub comment_body-IsEnd :
    (next : ℕ) (cs : Bytes) (line : ℕ) → IsEnd cs (comment_body next cs line).1.0
unfolding comment_body
comment_body-IsEnd next [] line = IsEnd-same []
comment_body-IsEnd next (c ∷ []) line =
    round-IsEnd next c (line + 1) [] _ _ (IsEnd-none (c ∷ [])) (IsEnd-none (c ∷ []))
comment_body-IsEnd next (c ∷ d ∷ cs) line =
    let more = IsEnd-more c (comment_body-IsEnd next (d ∷ cs) (line_after c line)) in
    round-IsEnd next c (line + 1) (d ∷ cs) _ _
      (closed-IsEnd (c == b'*' && d == b'/') line (c ∷ d ∷ cs) cs _
        (IsEnd-more c (IsEnd-more d (IsEnd-same cs))) more)
      more

some_rest :
    {A : Type 0} {a b : A} {l m : Bytes}
    → ◌≡◌ {A = Option (A × Bytes)} (some (a, l)) (some (b, m))
    → l ≡ m
some_rest e = cc

pub regex_modifiers-IsEnd :
    (cs : Bytes) (m m' : Modifiers) (rest : Bytes)
    → regex_modifiers cs m ≡ some (m', rest)
    → IsEnd cs rest
unfolding regex_modifiers
regex_modifiers-IsEnd [] m m' rest e = absurd (cc)
regex_modifiers-IsEnd (c ∷ cs) m m' rest e = elim (Option-cases (modifier c m)) [
  | inl n ↦
      let q : some (m, c ∷ cs) ≡ some (m', rest) = rw (n, regex_modifiers) at e in ([], some_rest q)
  | inr (m₁, n) ↦ IsEnd-more c (regex_modifiers-IsEnd cs m₁ m' rest (rw (n, regex_modifiers) at e))
]

-- What is left behind a string is an end of the source, and only a backslash at its very end is read behind.
abbrev pub IsTail : Bytes → StringEnd → Type 0
IsTail cs (closed str rest line) = IsEnd cs rest
IsTail cs (refused rest line) = IsEnd cs rest
IsTail cs (unclosed line) = Unit
IsTail cs behind_end = IsEnd cs (92 ∷ [])

IsTail-more : (c : ℕ) (cs : Bytes) (e : StringEnd) → IsTail cs e → IsTail (c ∷ cs) e
IsTail-more c cs (closed str rest line) p = IsEnd-more c p
IsTail-more c cs (refused rest line) p = IsEnd-more c p
IsTail-more c cs (unclosed line) p = tt
IsTail-more c cs behind_end p = IsEnd-more c p

is_backslash : (c : ℕ) (b : Bool) → (c == 92 && b) ≡ true → c ≡ 92
is_backslash c b e = ground (arith, e, b)

pub string_body-IsTail :
    (first : ℕ) (cs : Bytes) (str : Option Bytes) (line : ℕ)
    → IsTail cs (string_body first cs str line)
unfolding string_body
string_body-IsTail first [] str line = tt
string_body-IsTail first (c ∷ []) str line = elim (Bool-cases (c == 10)) [
  | inl a ↦ rw (a, string_body) (IsEnd-none (c ∷ []))
  | inr a ↦ elim (Bool-cases (c == 92 && not (first == b'/'))) [
    | inl b ↦
        rw (a, b, string_body) ([], ap (λ (n : ℕ). n ∷ []) (is_backslash c (not (first == b'/')) b))
    | inr b ↦ elim (Bool-cases (c == first)) [
      | inl d ↦ rw (a, b, d, string_body) (IsEnd-none (c ∷ []))
      | inr d ↦ rw (a, b, d, string_body) tt
    ]
  ]
]
string_body-IsTail first (c ∷ d ∷ rest) str line = elim (Bool-cases (c == 10)) [
  | inl a ↦ rw (a, string_body) (IsEnd-more c (IsEnd-same (d ∷ rest)))
  | inr a ↦ elim (Bool-cases (c == 92 && not (first == b'/'))) [
    | inl b ↦ elim (Option-cases (escape d)) [
      | inl e ↦ rw (a, b, e, string_body) (IsEnd-more c (IsEnd-more d (IsEnd-same rest)))
      | inr (x, e) ↦
          rw (a, b, e, string_body)
            (IsTail-more c (d ∷ rest) _
              (IsTail-more d rest _ (string_body-IsTail first rest (ac_str_extend str x) line)))
    ]
    | inr b ↦ elim (Bool-cases (c == first)) [
      | inl x ↦ rw (a, b, x, string_body) (IsEnd-more c (IsEnd-same (d ∷ rest)))
      | inr x ↦
          rw (a, b, x, string_body)
            (IsTail-more c (d ∷ rest) _
              (string_body-IsTail first (d ∷ rest) (ac_str_extend str c) line))
    ]
  ]
]

-- No hexadecimal digit comes first.
abbrev pub NoDigit : Bytes → Type 0
NoDigit [] = Unit
NoDigit (c ∷ cs) = is_digit true c ≡ false

pub take_while-NoDigit : (cs : Bytes) → (take_while (is_digit true) cs).0 ≡ [] → NoDigit cs
unfolding take_while
take_while-NoDigit [] e = tt
take_while-NoDigit (c ∷ cs) e = elim (Bool-cases (is_digit true c)) [
  | inl b ↦
      let q : c ∷ (take_while (is_digit true) cs).0 ≡ [] = rw (b, take_while) at e in absurd (cc)
  | inr b ↦ b
]

-- The texts whose scan may be undefined: `0x` stands in them without a digit behind it, and `strtoul` is given NULL, or
-- they end with a backslash, and a string's escape is read behind their end.
pub data Broken (text : Bytes) : Type 0 where
  no_digits : (rest : Bytes) → IsEnd text (b'0' ∷ b'x' ∷ rest) → NoDigit rest → Broken text
  backslash : IsEnd text (92 ∷ []) → Broken text

pub Broken-before : {xs ys : Bytes} → IsEnd xs ys → Broken ys → Broken xs
Broken-before e (no_digits rest p n) = no_digits rest (IsEnd-trans e p) n
Broken-before e (backslash p) = backslash (IsEnd-trans e p)
