-- ===== src/Parser/Loops.antt =====
-- Progress of the parser from one state to another, and the functions that chain it.
use alca.Base.{
  ℕ, ◌+◌, ◌≤◌, ◌≡◌, refl, sym, ap, ◌∙◌, List, [], ◌∷◌, ◌++◌, length, append_assoc, inl, inr, ◌⊎◌,
  arith,
}
use alca.Syntax.{TokenType, Token}
use alca.Parser.{Parser, Outcome, Parse, bind, ac_psr_consume, ac_psr_match}
use alca.Parser.Expressions.{with_match}
use alca.Parser.Outcomes.{
  Ensures, holds, refused, Ensures-bind, IsToken, AreTokens, Failed, Refused, Took, consume-Ensures,
  match-cases,
}
use alca.Parser.Grammar.{IsType, IsOneOf}

-- From `p` to `q` at least `k` tokens were taken, and either an error is set, or none was and the tokens are of
-- the kind.
pub record Reached (k : ℕ) (p q : Parser) (X : List Token → Type 0) : Type 0 where
  pub tokens : AreTokens q.rest
  pub shrinks : length q.rest + k ≤ length p.rest
  pub reads :
      Failed q ⊎ ((q.error ≡ p.error) × ((ts : List Token) × (p.rest ≡ ts ++ q.rest) × X ts))

abbrev pub Then : (List Token → Type 0) → (List Token → Type 0) → List Token → Type 0
Then X Y ts = (us : List Token) × (vs : List Token) × (ts ≡ us ++ vs) × X us × Y vs

-- tokens of which this is the only one
abbrev pub Only : (Token → Type 0) → Token → List Token → Type 0
Only P t ts = (ts ≡ t ∷ []) × P t

abbrev pub Nothing : List Token → Type 0
Nothing ts = ts ≡ []

pub Reached-here : (p : Parser) → AreTokens p.rest → Reached 0 p p Nothing
Reached-here p w = record {
  tokens = w;
  shrinks = omega arith;
  reads = inr (refl, ([], refl, refl));
}

-- what was taken, by what the tokens of the two states say
pub Reached-refine :
    {j k : ℕ} {p q : Parser} {X Y : List Token → Type 0}
    → j ≤ k
    → ((ts : List Token) → p.rest ≡ ts ++ q.rest → X ts → Y ts)
    → Reached k p q X
    → Reached j p q Y
Reached-refine {p = p} {q} {X} {Y} l f r = record {
  tokens = r.tokens;
  shrinks = omega (arith, r.shrinks);
  reads = go r.reads;
}
  where
    go :
        Failed q ⊎ ((q.error ≡ p.error) × ((ts : List Token) × (p.rest ≡ ts ++ q.rest) × X ts))
        → Failed q ⊎ ((q.error ≡ p.error) × ((ts : List Token) × (p.rest ≡ ts ++ q.rest) × Y ts))
    go (inl e) = inl e
    go (inr (e, (ts, s, x))) = inr (e, (ts, s, f ts s x))

pub Reached-map :
    {j k : ℕ} {p q : Parser} {X Y : List Token → Type 0}
    → j ≤ k
    → ((ts : List Token) → X ts → Y ts)
    → Reached k p q X
    → Reached j p q Y
Reached-map l f r = Reached-refine l (λ ts _ x. f ts x) r

pub Reached-append :
    {j k : ℕ} {p q r : Parser} {X Y : List Token → Type 0}
    → Reached j p q X
    → Reached k q r Y
    → Reached (j + k) p r (Then X Y)
Reached-append {p = p} {q} {r} {X} {Y} a b = record {
  tokens = b.tokens;
  shrinks = omega (arith, a.shrinks, b.shrinks);
  reads = go a.reads b.reads;
}
  where
    go :
        Failed q ⊎ ((q.error ≡ p.error) × ((ts : List Token) × (p.rest ≡ ts ++ q.rest) × X ts))
        → Failed r ⊎ ((r.error ≡ q.error) × ((ts : List Token) × (q.rest ≡ ts ++ r.rest) × Y ts))
        → Failed r
          ⊎ ((r.error ≡ p.error) × ((ts : List Token) × (p.rest ≡ ts ++ r.rest) × Then X Y ts))
    go x (inl e) = inl e
    go (inl e) (inr (f, y)) = inl (omega (arith, e, f))
    go (inr (e, (us, s, x))) (inr (f, (vs, t, y))) = inr (
      f ∙ e,
      (us ++ vs, s ∙ ap (λ z. us ++ z) t ∙ sym (append_assoc us vs r.rest), (us, vs, refl, x, y)),
    )

-- The outcome is a result behind such progress, or NULL with an error.
abbrev pub Reads {ℓ} : {A : Type ℓ} → ℕ → Parser → (A → List Token → Type 0) → Outcome A → Type ℓ
Reads k p X o = Ensures (λ a q. Reached k p q (X a)) (Refused p) o

pub Reads-map {ℓ} :
    {A : Type ℓ} {k : ℕ} {p : Parser} {X Y : A → List Token → Type 0} {o : Outcome A}
    → ((a : A) (ts : List Token) → X a ts → Y a ts)
    → Reads k p X o
    → Reads k p Y o
Reads-map f (holds {a = a} r) = holds (Reached-map (omega arith) (f a) r)
Reads-map f (refused r) = refused r

pub Reads-weaken {ℓ} :
    {A : Type ℓ} {j k : ℕ} {p : Parser} {X : A → List Token → Type 0} {o : Outcome A}
    → j ≤ k
    → Reads k p X o
    → Reads j p X o
Reads-weaken l (holds r) = holds (Reached-map l (λ ts x. x) r)
Reads-weaken l (refused r) = refused r

-- the next function, behind progress that was made before
pub Reads-append {ℓ} :
    {A : Type ℓ} {j k : ℕ} {p q : Parser} {X : List Token → Type 0} {Y : A → List Token → Type 0}
    {o : Outcome A}
    → Reached j p q X
    → Reads k q Y o
    → Reads (j + k) p (λ a. Then X (Y a)) o
Reads-append r (holds x) = holds (Reached-append r x)
Reads-append r (refused x) =
    refused (record {
      tokens = x.tokens;
      shrinks = omega (arith, x.shrinks, r.shrinks);
      failed = x.failed;
    })

pub Reads-bind {ℓ κ} :
    {A : Type ℓ} {B : Type κ} {j k : ℕ} {p : Parser} {X : A → List Token → Type 0}
    {Z : B → List Token → Type 0} {o : Outcome A} {f : A → Parse B}
    → Reads j p X o
    → ((a : A) (q : Parser) → Reached j p q (X a) → Reads k p Z (f a q))
    → Reads k p Z (bind o f)
Reads-bind o k = Ensures-bind o (λ a q r. k a q r) (λ q r. r)

-- a token of the type, behind progress
pub consume-Reads :
    {j : ℕ} {p q : Parser} {X : List Token → Type 0} (type : TokenType) (code : ℕ)
    → 1 ≤ code
    → Reached j p q X
    → Reads (j + 1) p (λ t. Then X (Only (IsType type) t)) (ac_psr_consume type code q)
consume-Reads {q = q} type code k r =
    Reads-append r (go (consume-Ensures type code q k r.tokens) r.tokens)
  where
    go :
        {o : Outcome Token}
        → Ensures (Took type q) (Refused q) o
        → AreTokens q.rest
        → Reads 1 q (Only (IsType type)) o
    go (holds {a = t} {p = q'} x) w =
        let l = ap (λ (ts : List Token). length ts) x.split in
        holds (record {
          tokens = (rw x.split at w).1;
          shrinks = omega (arith, l);
          reads = inr (x.error, (t ∷ [], x.split, (refl, x.typed)));
        })
    go (refused x) w = refused x

-- a token of the type, behind progress, and what is done with it
pub consume_on {ℓ} :
    {A : Type ℓ} {j k : ℕ} {p q : Parser} {X : List Token → Type 0} {Z : A → List Token → Type 0}
    {f : Token → Parse A} (type : TokenType) (code : ℕ)
    → 1 ≤ code
    → Reached j p q X
    → ((t : Token) (r : Parser)
        → IsToken t.type t.value
        → IsType type t
        → Reached (j + 1) p r (Then X (Only (IsType type) t))
        → Reads k p Z (f t r))
    → Reads k p Z (bind (ac_psr_consume type code q) f)
consume_on {q = q} type code one r f =
    Ensures-bind (consume-Ensures type code q one r.tokens)
      (λ t r' x.
        let l = ap (λ (ts : List Token). length ts) x.split in
        f t r' (rw x.split at r.tokens).0 x.typed (
          Reached-append r (record {
            tokens = (rw x.split at r.tokens).1;
            shrinks = omega (arith, l);
            reads = inr (x.error, (t ∷ [], x.split, (refl, x.typed)));
          })))
      (λ r' x. record {
        tokens = x.tokens;
        shrinks = omega (arith, x.shrinks, r.shrinks);
        failed = x.failed;
      })

-- what MATCH finds, behind progress, or what is done where it finds nothing
pub match-Reads {ℓ} :
    {A : Type ℓ} {j k : ℕ} {p q : Parser} {X : List Token → Type 0} {Z : A → List Token → Type 0}
    {other : Outcome A} (types : List TokenType) (found : Token → Parse A)
    → Reached j p q X
    → ((t : Token) (r : Parser)
        → IsToken t.type t.value
        → IsOneOf types t
        → Reached (j + 1) p r (Then X (Only (IsOneOf types) t))
        → Reads k p Z (found t r))
    → Reads k p Z other
    → Reads k p Z (with_match (ac_psr_match types q) found other)
match-Reads {q = q} types found r f g = elim (match-cases types q) [
  | inl e ↦ rw (e, with_match) g
  | inr (t, (q', x)) ↦
      let l = ap (λ (ts : List Token). length ts) x.split in
      rw (x.result, with_match)
        (f t q' (rw x.split at r.tokens).0 x.typed (
          Reached-append r (record {
            tokens = (rw x.split at r.tokens).1;
            shrinks = omega (arith, l);
            reads = inr (x.error, (t ∷ [], x.split, (refl, x.typed)));
          })))
]
