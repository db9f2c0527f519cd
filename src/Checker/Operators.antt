-- ===== src/Checker/Operators.antt =====
-- What the checker accepts of an operator has a meaning of the type that the checker gives it.
use alca.Base.{
  ℕ, ◌≤◌, ◌≡◌, refl, Bool, true, false, List, [], ◌∷◌, inl, inr, ◌⊎◌, arith, Bool-cases, ◌==◌, ltb,
  Bytes,
}
use alca.Syntax
use alca.Syntax.{TokenType, same_type}
use alca.Context.{Value, word, str}
use alca.Vm.Operators.{Answer, value, raise, undefined, of_bool}
use alca.Semantics.Operators.{binary_meaning, unary_meaning, on_words, on_texts}
use alca.Parser.{is_one_of}
use alca.Checker.{valid_operation, is_compatible}

-- A value of a type of the checker; a boolean is 0 or 1.
abbrev pub HasType : TokenType → Value → Type 0
HasType Syntax.number (word n) = Unit
HasType Syntax.string (str s) = Unit
HasType Syntax.true_kw (word n) = n ≤ 1
HasType Syntax.false_kw (word n) = n ≤ 1
HasType _ _ = ⊥

-- An operator that the code divides or shifts with may fail.
abbrev pub may_fail : TokenType → Bool
may_fail op = is_one_of (Syntax.div ∷ Syntax.modulo ∷ Syntax.shl ∷ Syntax.shr ∷ []) op

-- A value of the type; an error or undefined behaviour only where the operator may fail.
abbrev pub HasAnswer : TokenType → TokenType → Answer → Type 0
HasAnswer op t (value v) = HasType t v
HasAnswer op t (raise e) = may_fail op ≡ true
HasAnswer op t undefined = may_fail op ≡ true

-- the shapes of two values that are compared
data Shapes : TokenType → Value → Value → Type 0 where
  numbers : (n m : ℕ) → Shapes Syntax.number (word n) (word m)
  texts : (s t : Bytes) → Shapes Syntax.string (str s) (str t)
  trues : (n m : ℕ) → Shapes Syntax.true_kw (word n) (word m)
  falses : (n m : ℕ) → Shapes Syntax.false_kw (word n) (word m)

shape :
    (t : TokenType) (v : Value)
    → HasType t v
    → ((t ≡ Syntax.number) × ((n : ℕ) × (v ≡ word n)))
      ⊎ (((t ≡ Syntax.string) × ((s : Bytes) × (v ≡ str s)))
          ⊎ (((t ≡ Syntax.true_kw) ⊎ (t ≡ Syntax.false_kw)) × ((n : ℕ) × (v ≡ word n))))
shape Syntax.number (word n) h = inl (refl, (n, refl))
shape Syntax.string (str s) h = inr (inl (refl, (s, refl)))
shape Syntax.true_kw (word n) h = inr (inr (inl refl, (n, refl)))
shape Syntax.false_kw (word n) h = inr (inr (inr refl, (n, refl)))
shape _ _ h = absurd h

same_shape :
    (t₁ t₂ : TokenType) (a b : Value)
    → is_compatible t₁ t₂ ≡ true
    → HasType t₁ a
    → HasType t₂ b
    → Shapes t₁ a b
unfolding is_compatible
same_shape t₁ t₂ a b e h k = elim (shape t₁ a h) [
  | inl (p, (n, v)) ↦ elim (shape t₂ b k) [
    | inl (q, (m, w)) ↦ rw (p, v, w) (numbers n m)
    | inr (inl (q, _)) ↦ absurd (let x = rw (p, q) at e in cc)
    | inr (inr (inl q, _)) ↦ absurd (let x = rw (p, q) at e in cc)
    | inr (inr (inr q, _)) ↦ absurd (let x = rw (p, q) at e in cc)
  ]
  | inr (inl (p, (s, v))) ↦ elim (shape t₂ b k) [
    | inl (q, _) ↦ absurd (let x = rw (p, q) at e in cc)
    | inr (inl (q, (t, w))) ↦ rw (p, v, w) (texts s t)
    | inr (inr (inl q, _)) ↦ absurd (let x = rw (p, q) at e in cc)
    | inr (inr (inr q, _)) ↦ absurd (let x = rw (p, q) at e in cc)
  ]
  | inr (inr (inl p, (n, v))) ↦ elim (shape t₂ b k) [
    | inl (q, _) ↦ absurd (let x = rw (p, q) at e in cc)
    | inr (inl (q, _)) ↦ absurd (let x = rw (p, q) at e in cc)
    | inr (inr (q, (m, w))) ↦ rw (p, v, w) (trues n m)
  ]
  | inr (inr (inr p, (n, v))) ↦ elim (shape t₂ b k) [
    | inl (q, _) ↦ absurd (let x = rw (p, q) at e in cc)
    | inr (inl (q, _)) ↦ absurd (let x = rw (p, q) at e in cc)
    | inr (inr (q, (m, w))) ↦ rw (p, v, w) (falses n m)
  ]
]

of_bool_small : (b : Bool) → of_bool b ≤ 1
of_bool_small true = omega arith
of_bool_small false = omega arith

-- the binary operators of the grammar
abbrev pub binary_operators : List TokenType
binary_operators =
    Syntax.and_kw ∷ Syntax.or_kw ∷ Syntax.equal_equal ∷ Syntax.bang_equal ∷ Syntax.contains
    ∷ Syntax.icontains ∷ Syntax.startswith ∷ Syntax.istartswith ∷ Syntax.endswith ∷ Syntax.iendswith
    ∷ Syntax.iequals ∷ Syntax.matches ∷ Syntax.greater ∷ Syntax.greater_equal ∷ Syntax.less
    ∷ Syntax.less_equal ∷ Syntax.plus ∷ Syntax.minus ∷ Syntax.mult ∷ Syntax.div ∷ Syntax.modulo
    ∷ Syntax.shl ∷ Syntax.shr ∷ Syntax.bitand ∷ Syntax.bitxor ∷ Syntax.pipe ∷ []

abbrev Goal : TokenType → TokenType → TokenType → Value → Value → Type 0
Goal op t₁ t₂ a b = HasAnswer op (valid_operation t₁ t₂ op).1 (binary_meaning op t₁ a b)

on_numbers :
    (op t₂ : TokenType) (n m : ℕ)
    → is_one_of binary_operators op ≡ true
    → (valid_operation Syntax.number t₂ op).0 ≡ true
    → Goal op Syntax.number t₂ (word n) (word m)
unfolding valid_operation binary_meaning alca.Semantics.Operators.shift
    alca.Semantics.Operators.divide
on_numbers Syntax.plus t₂ n m o v = tt
on_numbers Syntax.minus t₂ n m o v = tt
on_numbers Syntax.mult t₂ n m o v = tt
on_numbers Syntax.div t₂ n m o v = elim (Bool-cases (m == 0)) [
  | inl z ↦ rw z refl
  | inr z ↦ rw z tt
]
on_numbers Syntax.modulo t₂ n m o v = elim (Bool-cases (m == 0)) [
  | inl z ↦ rw z refl
  | inr z ↦ rw z tt
]
on_numbers Syntax.greater t₂ n m o v = of_bool_small _
on_numbers Syntax.bitand t₂ n m o v = tt
on_numbers Syntax.bitxor t₂ n m o v = tt
on_numbers Syntax.pipe t₂ n m o v = tt
on_numbers Syntax.equal_equal t₂ n m o v = of_bool_small _
on_numbers Syntax.bang_equal t₂ n m o v = of_bool_small _
on_numbers Syntax.greater_equal t₂ n m o v = of_bool_small _
on_numbers Syntax.less t₂ n m o v = of_bool_small _
on_numbers Syntax.less_equal t₂ n m o v = of_bool_small _
on_numbers Syntax.shl t₂ n m o v = elim (Bool-cases (ltb 32 m)) [
  | inl z ↦ rw z refl
  | inr z ↦ elim (Bool-cases (m == 32)) [ inl y ↦ rw (z, y) refl | inr y ↦ rw (z, y) tt ]
]
on_numbers Syntax.shr t₂ n m o v = elim (Bool-cases (ltb 32 m)) [
  | inl z ↦ rw z refl
  | inr z ↦ elim (Bool-cases (m == 32)) [ inl y ↦ rw (z, y) refl | inr y ↦ rw (z, y) tt ]
]
on_numbers _ t₂ n m o v = absurd (cc)

on_strings :
    (op t₂ : TokenType) (s t : Bytes)
    → is_one_of binary_operators op ≡ true
    → (valid_operation Syntax.string t₂ op).0 ≡ true
    → same_type t₂ Syntax.regex ≡ false
    → Goal op Syntax.string t₂ (str s) (str t)
unfolding valid_operation binary_meaning
on_strings Syntax.equal_equal t₂ s t o v r = of_bool_small _
on_strings Syntax.bang_equal t₂ s t o v r = of_bool_small _
on_strings Syntax.contains t₂ s t o v r = of_bool_small _
on_strings Syntax.icontains t₂ s t o v r = of_bool_small _
on_strings Syntax.startswith t₂ s t o v r = of_bool_small _
on_strings Syntax.istartswith t₂ s t o v r = of_bool_small _
on_strings Syntax.endswith t₂ s t o v r = of_bool_small _
on_strings Syntax.iendswith t₂ s t o v r = of_bool_small _
on_strings Syntax.iequals t₂ s t o v r = of_bool_small _
on_strings _ t₂ s t o v r = absurd (cc)

on_trues :
    (op t₂ : TokenType) (n m : ℕ)
    → is_one_of binary_operators op ≡ true
    → (valid_operation Syntax.true_kw t₂ op).0 ≡ true
    → Goal op Syntax.true_kw t₂ (word n) (word m)
unfolding valid_operation binary_meaning
on_trues Syntax.and_kw t₂ n m o v = of_bool_small _
on_trues Syntax.or_kw t₂ n m o v = of_bool_small _
on_trues Syntax.equal_equal t₂ n m o v = of_bool_small _
on_trues Syntax.bang_equal t₂ n m o v = of_bool_small _
on_trues _ t₂ n m o v = absurd (cc)

on_falses :
    (op t₂ : TokenType) (n m : ℕ)
    → is_one_of binary_operators op ≡ true
    → (valid_operation Syntax.false_kw t₂ op).0 ≡ true
    → Goal op Syntax.false_kw t₂ (word n) (word m)
unfolding valid_operation binary_meaning
on_falses Syntax.and_kw t₂ n m o v = of_bool_small _
on_falses Syntax.or_kw t₂ n m o v = of_bool_small _
on_falses Syntax.equal_equal t₂ n m o v = of_bool_small _
on_falses Syntax.bang_equal t₂ n m o v = of_bool_small _
on_falses _ t₂ n m o v = absurd (cc)

not_regex : (t : TokenType) (v : Value) → HasType t v → same_type t Syntax.regex ≡ false
not_regex t v h = elim (shape t v h) [
  | inl (p, _) ↦ rw p refl
  | inr (inl (p, _)) ↦ rw p refl
  | inr (inr (inl p, _)) ↦ rw p refl
  | inr (inr (inr p, _)) ↦ rw p refl
]

-- For every binary operator of the grammar and every two values of types that `resolve_type` accepts for it, the operator
-- means a value of the type that the checker gives it; only division, modulo and the shifts may mean an error or undefined
-- behaviour instead. `matches` takes no two such values, since there is none of the type of regular expressions.
pub valid_operation-HasAnswer :
    (op t₁ t₂ : TokenType) (a b : Value)
    → is_one_of binary_operators op ≡ true
    → is_compatible t₁ t₂ ≡ true
    → (valid_operation t₁ t₂ op).0 ≡ true
    → HasType t₁ a
    → HasType t₂ b
    → HasAnswer op (valid_operation t₁ t₂ op).1 (binary_meaning op t₁ a b)
valid_operation-HasAnswer op t₁ t₂ a b o c v h k = go (same_shape t₁ t₂ a b c h k) v
  where
    go :
        {t : TokenType} {x y : Value}
        → Shapes t x y
        → (valid_operation t t₂ op).0 ≡ true
        → HasAnswer op (valid_operation t t₂ op).1 (binary_meaning op t x y)
    go (numbers n m) v = on_numbers op t₂ n m o v
    go (texts s t) v = on_strings op t₂ s t o v (not_regex t₂ b k)
    go (trues n m) v = on_trues op t₂ n m o v
    go (falses n m) v = on_falses op t₂ n m o v

-- the unary operators of the grammar
abbrev pub unary_operators : List TokenType
unary_operators = Syntax.bang ∷ Syntax.bitnot ∷ Syntax.minus ∷ Syntax.hash ∷ Syntax.not_kw ∷ []

abbrev UnaryGoal : TokenType → TokenType → Value → Type 0
UnaryGoal op t a = HasAnswer op (valid_operation t Syntax.eof op).1 (unary_meaning op a)

unary_number :
    (op : TokenType) (n : ℕ)
    → is_one_of unary_operators op ≡ true
    → (valid_operation Syntax.number Syntax.eof op).0 ≡ true
    → UnaryGoal op Syntax.number (word n)
unfolding valid_operation unary_meaning
unary_number Syntax.bitnot n o v = tt
unary_number Syntax.minus n o v = tt
unary_number _ n o v = absurd (cc)

unary_string :
    (op : TokenType) (s : Bytes)
    → is_one_of unary_operators op ≡ true
    → (valid_operation Syntax.string Syntax.eof op).0 ≡ true
    → UnaryGoal op Syntax.string (str s)
unfolding valid_operation unary_meaning
unary_string Syntax.hash s o v = tt
unary_string _ s o v = absurd (cc)

unary_true :
    (op : TokenType) (n : ℕ)
    → is_one_of unary_operators op ≡ true
    → (valid_operation Syntax.true_kw Syntax.eof op).0 ≡ true
    → UnaryGoal op Syntax.true_kw (word n)
unfolding valid_operation unary_meaning
unary_true Syntax.bang n o v = of_bool_small _
unary_true Syntax.not_kw n o v = of_bool_small _
unary_true _ n o v = absurd (cc)

unary_false :
    (op : TokenType) (n : ℕ)
    → is_one_of unary_operators op ≡ true
    → (valid_operation Syntax.false_kw Syntax.eof op).0 ≡ true
    → UnaryGoal op Syntax.false_kw (word n)
unfolding valid_operation unary_meaning
unary_false Syntax.bang n o v = of_bool_small _
unary_false Syntax.not_kw n o v = of_bool_small _
unary_false _ n o v = absurd (cc)

-- For every unary operator of the grammar and every value of a type that the checker accepts for it, the operator means a
-- value of the type that the checker gives it.
pub unary-HasAnswer :
    (op t : TokenType) (a : Value)
    → is_one_of unary_operators op ≡ true
    → (valid_operation t Syntax.eof op).0 ≡ true
    → HasType t a
    → HasAnswer op (valid_operation t Syntax.eof op).1 (unary_meaning op a)
unary-HasAnswer op t a o v h = elim (shape t a h) [
  | inl (p, (n, e)) ↦ rw (p, e) (unary_number op n o (rw p at v))
  | inr (inl (p, (s, e))) ↦ rw (p, e) (unary_string op s o (rw p at v))
  | inr (inr (inl p, (n, e))) ↦ rw (p, e) (unary_true op n o (rw p at v))
  | inr (inr (inr p, (n, e))) ↦ rw (p, e) (unary_false op n o (rw p at v))
]
