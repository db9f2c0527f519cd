-- ===== src/Compiler/Preserves.antt =====
-- Every statement that is compiled keeps the compiler's tables within their bounds.
use alca.Base.{
  ℕ, zero, suc, ◌≤◌, ◌<◌, ◌≡◌, refl, ap, Bool, true, false, Option, none, some, List, [], ◌∷◌,
  length, length-append, Bytes, arith, inl, inr, Bool-cases, Option-cases, ◌==◌,
}
use alca.HashMap.{HashMap}
use alca.Arena.{Arena}
use alca.Syntax
use alca.Syntax.{Token, TokenValue, Rule, Statement}
use alca.Bytecode.Emit.{ac_bytecode_emit_rule}
use alca.Compiler.Tables.{RuleEntry, compiler_find_module_ordinal}
use alca.Compiler.Lookup.{FirstAt, find_rule_idx-FirstAt}
use alca.Compiler.Statements.{
  Compiler, rule_flags, event_name, add_name, rule_name, emit_entry, rule_entry, compiler_add_error,
  compiler_add_rule_entry, compiler_compile_rule, rule_index, rule_indices,
}
use alca.Compiler.Reader.{All}
use alca.Compiler.Invariant.{
  IsIndexBelow-more, IsCompiler, IsIndexBelow, add_rule-IsCompiler, find_ordinal_bound,
}

-- The outcome, where there is one, has the property.
pub data Gives {A : Type 0} (P : A → Type 0) : Option A → Type 0 where
  undefined : Gives P none
  gives : {a : A} → P a → Gives P (some a)

module _ {M : Type 0} ⦃h : HashMap Bytes ℕ M⦄ where
  -- The tables are valid, and no rule was taken away.
  pub record Progress (c c' : Compiler M) : Type 0 where
    pub valid : IsCompiler c'
    pub more : length c.rule_table ≤ length c'.rule_table

  -- the same tables
  pub record Same (c c' : Compiler M) : Type 0 where
    pub modules : c'.module_table ≡ c.module_table
    pub rules : c'.rule_table ≡ c.rule_table
    pub sequences : c'.sequence_table ≡ c.sequence_table

  pub Same-IsCompiler : {c c' : Compiler M} → Same c c' → IsCompiler c → IsCompiler c'
  Same-IsCompiler s v = record {
    ordinals = rw s.modules v.ordinals;
    rules = rw (s.rules, s.modules) v.rules;
    sequences = rw (s.sequences, s.rules) v.sequences;
  }

  Same-Progress : {c c' : Compiler M} → Same c c' → IsCompiler c → Progress c c'
  Same-Progress s v =
      let e = ap (λ (t : List RuleEntry). length t) s.rules in
      record { valid = Same-IsCompiler s v; more = omega (arith, e) }

  Progress-trans : {c d e : Compiler M} → Progress c d → Progress d e → Progress c e
  Progress-trans p q = record { valid = q.valid; more = omega (arith, p.more, q.more) }

  pub add_name-Same : (s : Bytes) (c : Compiler M) → Same c (add_name s c).0
  unfolding add_name
  add_name-Same s c = record { modules = refl; rules = refl; sequences = refl }

  rule_name-Same :
      (seq : Bool) (t : Token) (c : Compiler M) → Gives (λ (c', x). Same c c') (rule_name seq t c)
  unfolding rule_name
  rule_name-Same true t c = gives (record { modules = refl; rules = refl; sequences = refl })
  rule_name-Same false t c = go t.value refl
    where
      go : (v : TokenValue) → t.value ≡ v → Gives (λ (c', x). Same c c') (rule_name false t c)
      go (Syntax.text s) e = rw (e, rule_name) (gives (add_name-Same s c))
      go (Syntax.word n) e = rw (e, rule_name) undefined
      go Syntax.null e = rw (e, rule_name) undefined

  abbrev pub IsWritten : Compiler M → Option ℕ → Type 0
  IsWritten c none = Unit
  IsWritten c (some i) = i < length c.rule_table

  emit_entry-Progress :
      (r : Rule) (seq : Bool) (lname offset ordinal : ℕ) (c : Compiler M)
      → ordinal ≤ length c.module_table
      → IsCompiler c
      → Gives
          (λ (c', (code, i)). Progress c c' × IsWritten c' i)
          (emit_entry r seq lname offset ordinal c)
  unfolding emit_entry compiler_add_rule_entry
  emit_entry-Progress r seq lname offset ordinal c l v =
      elim (Option-cases (ac_bytecode_emit_rule r c.builder)) [
        | inl e ↦ rw (e, emit_entry) undefined
        | inr ((b, status), e) ↦
            let c₁ : Compiler M = record c { builder = b } in
            let v₁ : IsCompiler c₁ = record {
              ordinals = v.ordinals;
              rules = v.rules;
              sequences = v.sequences;
            } in
            let entry : RuleEntry = record {
              flags = rule_flags r.is_private seq;
              code_offset = c.builder.code.size;
              module_ordinal = ordinal;
              lname = lname;
              name_offset = offset;
            } in
            elim (Bool-cases (status == 0)) [
              | inl z ↦
                  rw (e, z, emit_entry)
                    (gives (
                      record {
                        valid = add_rule-IsCompiler entry c₁ l v₁;
                        more = omega (arith, length-append c.rule_table (entry ∷ []));
                      },
                      omega (arith, length-append c.rule_table (entry ∷ [])),
                    ))
              | inr z ↦
                  rw (e, z, emit_entry) (gives (record { valid = v₁; more = omega arith }, tt))
            ]
      ]

  find_module_bound :
      (c : Compiler M) (event : Option Bytes) (k : ℕ)
      → IsCompiler c
      → compiler_find_module_ordinal c.builder.strings c.module_table event ≡ some k
      → k ≤ length c.module_table
  unfolding compiler_find_module_ordinal
  find_module_bound c none k v e = let q : 0 ≡ k = cc in omega (arith, q)
  find_module_bound c (some s) k v e =
      let b = find_ordinal_bound c.builder.strings 0 c.module_table s v.ordinals k e in
      omega (arith, b)

  after_name :
      (r : Rule) (seq : Bool) (c : Compiler M) (lname offset : ℕ)
      → IsCompiler c
      → Gives (λ (c', (code, i)). Progress c c' × IsWritten c' i) (rule_entry r seq lname offset c)
  unfolding compiler_add_error rule_entry
  after_name r seq c lname offset v = elim (Option-cases (event_name r.event)) [
    | inl e ↦ rw (e, rule_entry) undefined
    | inr (event, e) ↦
        elim (Option-cases (compiler_find_module_ordinal c.builder.strings c.module_table event)) [
          | inl f ↦
              rw (e, f, rule_entry)
                (gives
                  (Same-Progress (record { modules = refl; rules = refl; sequences = refl }) v, tt))
          | inr (k, f) ↦
              rw (e, f, rule_entry)
                (emit_entry-Progress r seq lname offset k c (find_module_bound c event k v f) v)
        ]
  ]

  pub compile_rule-Progress :
      (r : Rule) (seq : Bool) (c : Compiler M)
      → IsCompiler c
      → Gives (λ (c', (code, i)). Progress c c' × IsWritten c' i) (compiler_compile_rule r seq c)
  unfolding compiler_compile_rule
  compile_rule-Progress r seq c v = go (rule_name seq r.name c) refl (rule_name-Same seq r.name c)
    where
      onwards :
          {o : Option (Compiler M × (ℕ × Option ℕ))} (c₁ : Compiler M)
          → Progress c c₁
          → Gives (λ (c', (code, i)). Progress c₁ c' × IsWritten c' i) o
          → Gives (λ (c', (code, i)). Progress c c' × IsWritten c' i) o
      onwards c₁ p undefined = undefined
      onwards c₁ p (gives (q, w)) = gives (Progress-trans p q, w)

      go :
          (o : Option (Compiler M × (ℕ × ℕ)))
          → rule_name seq r.name c ≡ o
          → Gives (λ (c', x). Same c c') o
          → Gives
              (λ (c', (code, i)). Progress c c' × IsWritten c' i)
              (compiler_compile_rule r seq c)
      go none e g = rw (e, compiler_compile_rule) undefined
      go (some (c₁, (lname, offset))) e (gives s) =
          rw (e, compiler_compile_rule)
            (onwards c₁ (Same-Progress s v)
              (after_name r seq c₁ lname offset (Same-IsCompiler s v)))

  FirstAt-below :
      (strings : Arena M) (name : Bytes) (table : List RuleEntry) (i : ℕ)
      → FirstAt strings name table i
      → i < length table
  FirstAt-below strings name [] i f = absurd f
  FirstAt-below strings name (e ∷ table) zero f = omega arith
  FirstAt-below strings name (e ∷ table) (suc i) (p, f) =
      let b = FirstAt-below strings name table i f in omega (arith, b)

  -- The index that is found for a rule of a sequence is one of the table, or 0.
  rule_index-Progress :
      (r : Rule) (c : Compiler M) (err : ℕ)
      → IsCompiler c
      → Gives
          (λ (c', (i, e)). Progress c c' × IsIndexBelow (length c'.rule_table) i)
          (rule_index r c err)
  unfolding rule_index
  rule_index-Progress r c err v = elim (Bool-cases r.external) [
    | inl x ↦ named x r.name.value refl
    | inr x ↦ compiled x (compiler_compile_rule r true c) refl (compile_rule-Progress r true c v)
  ]
    where
      Goal : Type 0
      Goal =
          Gives (λ (c', (i, e)). Progress c c' × IsIndexBelow (length c'.rule_table) i)
            (rule_index r c err)

      named : r.external ≡ true → (t : TokenValue) → r.name.value ≡ t → Goal
      named x (Syntax.text name) e =
          elim (find_rule_idx-FirstAt c.builder.strings c.rule_table name) [
            | inl (i, f, at) ↦
                rw (x, e, f, rule_index)
                  (gives (
                    record { valid = v; more = omega arith },
                    inr (FirstAt-below c.builder.strings name c.rule_table i at),
                  ))
            | inr (f, _) ↦
                rw (x, e, f, rule_index)
                  (gives (record { valid = v; more = omega arith }, inl refl))
          ]
      named x (Syntax.word n) e = rw (x, e, rule_index) undefined
      named x Syntax.null e = rw (x, e, rule_index) undefined

      compiled :
          r.external ≡ false
          → (o : Option (Compiler M × (ℕ × Option ℕ))) → compiler_compile_rule r true c ≡ o
          → Gives (λ (c', (code, i)). Progress c c' × IsWritten c' i) o
          → Goal
      compiled x none e g = rw (e, x, rule_index) undefined
      compiled x (some (c₁, (code, none))) e (gives (p, w)) =
          rw (e, x, rule_index) (gives (p, inl refl))
      compiled x (some (c₁, (code, some i))) e (gives (p, w)) =
          rw (e, x, rule_index) (gives (p, inr w))

  pub rule_indices-Progress :
      (rules : List Rule) (c : Compiler M) (err : ℕ)
      → IsCompiler c
      → Gives
          (λ (c', (is, e)).
            Progress c c'
            × (length is ≡ length rules)
            × All (IsIndexBelow (length c'.rule_table)) is)
          (rule_indices rules c err)
  unfolding rule_indices
  rule_indices-Progress [] c err v = gives (record { valid = v; more = omega arith }, refl, tt)
  rule_indices-Progress (r ∷ rules) c err v =
      go (λ c₁ err₁ w. rule_indices-Progress rules c₁ err₁ w) (rule_index r c err) refl
        (rule_index-Progress r c err v)
    where
      Goal : Type 0
      Goal =
          Gives
            (λ (c', (is, e)).
              Progress c c'
              × (length is ≡ suc (length rules))
              × All (IsIndexBelow (length c'.rule_table)) is)
            (rule_indices (r ∷ rules) c err)

      next :
          (c₁ : Compiler M) (i err₁ : ℕ)
          → rule_index r c err ≡ some (c₁, (i, err₁))
          → Progress c c₁ × IsIndexBelow (length c₁.rule_table) i
          → (o : Option (Compiler M × (List ℕ × ℕ))) → rule_indices rules c₁ err₁ ≡ o
          → Gives
              (λ (c', (is, e)).
                Progress c₁ c'
                × (length is ≡ length rules)
                × All (IsIndexBelow (length c'.rule_table)) is)
              o
          → Goal
      next c₁ i err₁ e (p, b) none e' g = rw (e, e', rule_indices) undefined
      next c₁ i err₁ e (p, b) (some (c₂, (is, err₂))) e' (gives (q, l, bs)) =
          rw (e, e', rule_indices)
            (gives (Progress-trans p q, omega (arith, l), (IsIndexBelow-more _ _ q.more i b, bs)))

      go :
          ((c₁ : Compiler M) (err₁ : ℕ)
            → IsCompiler c₁
            → Gives
                (λ (c', (is, e)).
                  Progress c₁ c'
                  × (length is ≡ length rules)
                  × All (IsIndexBelow (length c'.rule_table)) is)
                (rule_indices rules c₁ err₁))
          → (o : Option (Compiler M × (ℕ × ℕ))) → rule_index r c err ≡ o
          → Gives (λ (c', (i, e)). Progress c c' × IsIndexBelow (length c'.rule_table) i) o
          → Goal
      go ih none e g = rw (e, rule_indices) undefined
      go ih (some (c₁, (i, err₁))) e (gives (p, b)) =
          next c₁ i err₁ e (p, b) (rule_indices rules c₁ err₁) refl (ih c₁ err₁ p.valid)
