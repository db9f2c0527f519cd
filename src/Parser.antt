-- ===== src/Parser.antt =====
-- libalca/parser.c: the state of the parser, and the functions that look at the next token.
-- `rest` is the tokens from `current` on. A function that matches a token hands the token on, which is what
-- `ac_psr_previous_token` returns behind it; the memory of trees that are given up is not modelled.
pub mod Expressions
pub mod Statements
pub mod Outcomes
pub mod Grammar
pub mod Loops
pub mod Reads
pub mod Primary
pub mod Calls
pub mod Operators
pub mod Programs
pub mod Rules
pub mod Sequences
pub mod Total
use alca.Base.{
  ℕ, zero, suc, Bool, true, false, ◌||◌, Option, none, some, List, [], ◌∷◌, if◌then◌else◌,
}
use alca.Syntax.{TokenType, same_type, Token}

-- `ac_parser`; `error` is the code, and `line` is none where the source has -1.
pub record Parser : Type 0 where
  pub rest : List Token
  pub error : ℕ
  pub line : Option ℕ

-- What a call comes to: a result, NULL, a token's value that is not there, or too little fuel.
pub data Outcome {ℓ} (A : Type ℓ) : Type ℓ where
  returned : A → Parser → Outcome A
  null : Parser → Outcome A
  stuck : Outcome A
  out_of_fuel : Outcome A

abbrev pub Parse {ℓ} : Type ℓ → Type ℓ
Parse A = Parser → Outcome A

module _ {ℓ κ} {A : Type ℓ} {B : Type κ} where
  -- `if (!x) return NULL`
  abbrev pub bind : Outcome A → (A → Parse B) → Outcome B
  bind (returned a p) f = f a p
  bind (null p) f = null p
  bind stuck f = stuck
  bind out_of_fuel f = out_of_fuel

  infixl 1 ◌>>=◌ ◌>>◌
  abbrev pub ◌>>=◌ : Parse A → (A → Parse B) → Parse B
  m >>= f = λ p. bind (m p) f

  abbrev pub ◌>>◌ : Parse A → Parse B → Parse B
  m >> n = m >>= λ _. n

-- `ac_psr_set_error` at the current token; at the end the line is 0.
unfoldable pub ac_psr_set_error : ℕ → Parser → Parser
ac_psr_set_error code p = record p {
  error = code;
  line = some (elim p.rest [ [] ↦ 0 | t ∷ _ ↦ t.line ]);
}

unfoldable pub ac_psr_check : TokenType → Parser → Bool
ac_psr_check type p = elim p.rest [ [] ↦ false | t ∷ _ ↦ same_type t.type type ]

-- A call behind which NULL is returned sets the error and gives NULL.
abbrev pub fail {ℓ} : {A : Type ℓ} → ℕ → Parse A
fail code p = null (ac_psr_set_error code p)

abbrev pub give {ℓ} : {A : Type ℓ} → A → Parse A
give a p = returned a p

-- the token that `ac_psr_advance` returns, and the state behind it
unfoldable pub ac_psr_advance : Parser → Option (Token × Parser)
ac_psr_advance p = elim p.rest [ [] ↦ none | t ∷ ts ↦ some (t, record p { rest = ts }) ]

unfoldable pub ac_psr_consume : TokenType → ℕ → Parse Token
ac_psr_consume type code p =
    if ac_psr_check type p
    then elim (ac_psr_advance p) [ none ↦ null p | some (t, q) ↦ returned t q ]
    else null (ac_psr_set_error code p)

abbrev pub is_one_of : List TokenType → TokenType → Bool
is_one_of [] t = false
is_one_of (ty ∷ types) t = same_type t ty || is_one_of types t

-- The macro MATCH, with the token that it matched.
unfoldable pub ac_psr_match : List TokenType → Parser → Option (Token × Parser)
ac_psr_match types p = elim p.rest [
  | [] ↦ none
  | t ∷ ts ↦ (if is_one_of types t.type then some (t, record p { rest = ts }) else none)
]
