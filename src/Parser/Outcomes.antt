-- ===== src/Parser/Outcomes.antt =====
-- What holds of the outcome of a parser's function, and how it is put together.
use alca.Base.{
  ℕ, ◌≤◌, ◌≡◌, refl, true, Option, none, some, List, [], ◌∷◌, length, inl, inr, ◌⊎◌, Bool-cases,
  arith,
}
use alca.Syntax
use alca.Syntax.{TokenType, same_type, type_code, Token, TokenValue}
use alca.Parser.{
  Parser, Outcome, returned, null, Parse, bind, ac_psr_set_error, ac_psr_check, ac_psr_advance,
  ac_psr_consume, is_one_of, ac_psr_match,
}

-- The outcome is a result of which the first holds, or NULL with a state of which the second holds.
pub data Ensures {ℓ} {A : Type ℓ} (R : A → Parser → Type 0) (N : Parser → Type 0)
    : Outcome A → Type ℓ where
  holds : {a : A} {p : Parser} → R a p → Ensures R N (returned a p)
  refused : {p : Parser} → N p → Ensures R N (null p)

pub Ensures-bind {ℓ κ} :
    {A : Type ℓ} {B : Type κ} {R : A → Parser → Type 0} {N N' : Parser → Type 0}
    {R' : B → Parser → Type 0} {o : Outcome A} {f : A → Parse B}
    → Ensures R N o
    → ((a : A) (p : Parser) → R a p → Ensures R' N' (f a p))
    → ((p : Parser) → N p → N' p)
    → Ensures R' N' (bind o f)
Ensures-bind (holds {a} {p} e) k n = k a p e
Ensures-bind (refused {p} e) k n = refused (n p e)

pub Ensures-map {ℓ} :
    {A : Type ℓ} {R R' : A → Parser → Type 0} {N N' : Parser → Type 0} {o : Outcome A}
    → ((a : A) (p : Parser) → R a p → R' a p)
    → ((p : Parser) → N p → N' p)
    → Ensures R N o
    → Ensures R' N' o
Ensures-map f g (holds r) = holds (f _ _ r)
Ensures-map f g (refused r) = refused (g _ r)

-- A token as the lexer makes it: a number has a word, and an identifier has a name.
abbrev pub IsToken : TokenType → TokenValue → Type 0
IsToken Syntax.number (Syntax.word n) = Unit
IsToken Syntax.number v = ⊥
IsToken Syntax.identifier (Syntax.text s) = Unit
IsToken Syntax.identifier v = ⊥
IsToken _ v = Unit

abbrev pub AreTokens : List Token → Type 0
AreTokens [] = Unit
AreTokens (t ∷ ts) = IsToken t.type t.value × AreTokens ts

abbrev pub Failed : Parser → Type 0
Failed p = 1 ≤ p.error

-- NULL with an error, where no token was added.
pub record Refused (p q : Parser) : Type 0 where
  pub tokens : AreTokens q.rest
  pub shrinks : length q.rest ≤ length p.rest
  pub failed : Failed q

-- One token of the type was taken.
pub record Took (type : TokenType) (p : Parser) (t : Token) (q : Parser) : Type 0 where
  pub split : p.rest ≡ t ∷ q.rest
  pub error : q.error ≡ p.error
  pub typed : same_type t.type type ≡ true

abbrev at : List Token → ℕ → Option ℕ → Parser
at ts error line = record { rest = ts; error = error; line = line }

consume-at :
    (type : TokenType) (code : ℕ) (ts : List Token) (error : ℕ) (line : Option ℕ)
    → 1 ≤ code
    → AreTokens ts
    → Ensures
        (Took type (at ts error line))
        (Refused (at ts error line))
        (ac_psr_consume type code (at ts error line))
unfolding ac_psr_consume ac_psr_check ac_psr_advance ac_psr_set_error
consume-at type code [] error line k w =
    refused (record { tokens = tt; shrinks = omega arith; failed = k })
consume-at type code (t ∷ ts) error line k w = elim (Bool-cases (same_type t.type type)) [
  | inl e ↦
      rw (e, ac_psr_consume, ac_psr_check)
        (holds (record { split = refl; error = refl; typed = e }))
  | inr e ↦
      rw (e, ac_psr_consume, ac_psr_check)
        (refused (record { tokens = w; shrinks = omega arith; failed = k }))
]

pub consume-Ensures :
    (type : TokenType) (code : ℕ) (p : Parser)
    → 1 ≤ code
    → AreTokens p.rest
    → Ensures (Took type p) (Refused p) (ac_psr_consume type code p)
consume-Ensures type code p k w = consume-at type code p.rest p.error p.line k w

-- What MATCH finds: nothing, or a token of one of the types, behind which it stands.
pub record Found (types : List TokenType) (p : Parser) (t : Token) (q : Parser) : Type 0 where
  pub result : ac_psr_match types p ≡ some (t, q)
  pub split : p.rest ≡ t ∷ q.rest
  pub error : q.error ≡ p.error
  pub typed : is_one_of types t.type ≡ true

match-at :
    (types : List TokenType) (ts : List Token) (error : ℕ) (line : Option ℕ)
    → (ac_psr_match types (at ts error line) ≡ none)
      ⊎ ((t : Token) × ((q : Parser) × Found types (at ts error line) t q))
unfolding ac_psr_match
match-at types [] error line = inl refl
match-at types (t ∷ ts) error line = elim (Bool-cases (is_one_of types t.type)) [
  | inl e ↦ inr (
    t,
    (
      at ts error line,
      record { result = rw (e, ac_psr_match) refl; split = refl; error = refl; typed = e },
    ),
  )
  | inr e ↦ inl (rw (e, ac_psr_match) refl)
]

pub match-cases :
    (types : List TokenType) (p : Parser)
    → (ac_psr_match types p ≡ none) ⊎ ((t : Token) × ((q : Parser) × Found types p t q))
match-cases types p = match-at types p.rest p.error p.line
