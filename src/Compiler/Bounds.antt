-- ===== src/Compiler/Bounds.antt =====
-- Compiling the statements of a program keeps the compiler's tables within their bounds.
use alca.Base.{
  ℕ, ◌≡◌, refl, true, false, ◌-◌, Option, none, some, List, [], ◌∷◌, length, Bytes, if◌then◌else◌,
  inl, inr, Bool-cases, Option-cases, ◌==◌,
}
use alca.Base.Words.{word_mod}
use alca.HashMap.{HashMap}
use alca.Arena.{ac_arena_find_string}
use alca.Syntax
use alca.Syntax.{Token, TokenValue, Rule, Statement}
use alca.Context.{ac_context_get_module}
use alca.Compiler.Statements.{
  Compiler, add_name, compiler_compile_rule, compiler_compile_import, compiler_compile_sequence,
  rule_indices, compile_statement, compile_all, compiler_compile_statements, concat,
}
use alca.Compiler.Reader.{All}
use alca.Compiler.Invariant.{
  IsCompiler, IsIndexBelow, add_module-IsCompiler, add_sequence-IsCompiler,
}
use alca.Compiler.Preserves.{
  Gives, undefined, gives, Progress, Same-IsCompiler, add_name-Same, IsWritten,
  compile_rule-Progress, rule_indices-Progress,
}

module _ {M : Type 0} ⦃h : HashMap Bytes ℕ M⦄ where
  sequence-Progress :
      (t : Token) (span : ℕ) (rules : List Rule) (c : Compiler M)
      → IsCompiler c
      → Gives (λ (c', e). IsCompiler c') (compiler_compile_sequence t span rules c)
  unfolding compiler_compile_sequence
  sequence-Progress t span rules c v = go t.value refl
    where
      Goal : Type 0
      Goal = Gives (λ (c', e). IsCompiler c') (compiler_compile_sequence t span rules c)

      indexed :
          (name : Bytes)
          → t.value ≡ Syntax.text name
          → (o : Option (Compiler M × (List ℕ × ℕ))) → rule_indices rules (add_name name c).0 0 ≡ o
          → Gives
              (λ (c', (is, e)).
                Progress (add_name name c).0 c'
                × (length is ≡ length rules)
                × All (IsIndexBelow (length c'.rule_table)) is)
              o
          → Goal
      indexed name e none f g = rw (e, f, compiler_compile_sequence) undefined
      indexed name e (some (c₁, (is, err))) f (gives (p, l, bs)) =
          rw (e, f, compiler_compile_sequence)
            (gives (add_sequence-IsCompiler _ c₁ (l, bs) p.valid))

      go : (v : TokenValue) → t.value ≡ v → Goal
      go (Syntax.text name) e = indexed name e (rule_indices rules (add_name name c).0 0) refl (
          rule_indices-Progress rules (add_name name c).0 0
            (Same-IsCompiler (add_name-Same name c) v))
      go (Syntax.word n) e = rw (e, compiler_compile_sequence) undefined
      go Syntax.null e = rw (e, compiler_compile_sequence) undefined

  import-Progress :
      (version : Bytes → ℕ) (t : Token) (c : Compiler M)
      → IsCompiler c
      → Gives (λ (c', e). IsCompiler c') (compiler_compile_import version t c)
  unfolding compiler_compile_import
  import-Progress version t c v = go t.value refl
    where
      Goal : Type 0
      Goal = Gives (λ (c', e). IsCompiler c') (compiler_compile_import version t c)

      go : (v : TokenValue) → t.value ≡ v → Goal
      go (Syntax.text name) e =
          elim (Bool-cases (ac_arena_find_string c.builder.strings name == word_mod - 1)) [
            | inl z ↦
                elim (Bool-cases (ac_context_get_module (add_name name c).0.builder.ctx name)) [
                  | inl m ↦
                      rw (e, z, m, compiler_compile_import)
                        (gives (
                          add_module-IsCompiler _ (add_name name c).0 refl
                            (Same-IsCompiler (add_name-Same name c) v)))
                  | inr m ↦
                      rw (e, z, m, compiler_compile_import)
                        (gives (Same-IsCompiler (add_name-Same name c) v))
                ]
            | inr z ↦ rw (e, z, compiler_compile_import) (gives v)
          ]
      go (Syntax.word n) e = rw (e, compiler_compile_import) undefined
      go Syntax.null e = rw (e, compiler_compile_import) undefined

  statement-IsCompiler :
      (version : Bytes → ℕ) (s : Statement) (c : Compiler M)
      → IsCompiler c
      → Gives (λ (c', e). IsCompiler c') (compile_statement version s c)
  unfolding compile_statement
  statement-IsCompiler version (Syntax.import t) c v = import-Progress version t c v
  statement-IsCompiler version (Syntax.sequence t span rules) c v =
      sequence-Progress t span rules c v
  statement-IsCompiler version (Syntax.rule r) c v =
      go (compiler_compile_rule r false c) refl (compile_rule-Progress r false c v)
    where
      go :
          (o : Option (Compiler M × (ℕ × Option ℕ)))
          → compiler_compile_rule r false c ≡ o
          → Gives (λ (c', (code, i)). Progress c c' × IsWritten c' i) o
          → Gives (λ (c', e). IsCompiler c') (compile_statement version (Syntax.rule r) c)
      go none e g = rw (e, compile_statement) undefined
      go (some (c₁, (code, i))) e (gives (p, w)) = rw (e, compile_statement) (gives p.valid)

  all-IsCompiler :
      (version : Bytes → ℕ) (statements : List Statement) (c : Compiler M) (err : ℕ)
      → IsCompiler c
      → Gives (λ (c', e). IsCompiler c') (compile_all version statements c err)
  unfolding compile_all
  all-IsCompiler version [] c err v = gives v
  all-IsCompiler version (s ∷ statements) c err v =
      go (λ c₁ err₁ w. all-IsCompiler version statements c₁ err₁ w) (compile_statement version s c)
        refl (statement-IsCompiler version s c v)
    where
      go :
          ((c₁ : Compiler M) (err₁ : ℕ)
            → IsCompiler c₁
            → Gives (λ (c', e). IsCompiler c') (compile_all version statements c₁ err₁))
          → (o : Option (Compiler M × ℕ)) → compile_statement version s c ≡ o
          → Gives (λ (c', e). IsCompiler c') o
          → Gives (λ (c', e). IsCompiler c') (compile_all version (s ∷ statements) c err)
      go ih none e g = rw (e, compile_all) undefined
      go ih (some (c₁, code)) e (gives w) =
          rw (e, compile_all) (ih c₁ (if code == 0 then err else code) w)

  -- Whatever statements a compiler with valid tables compiles, and whatever errors they have, where no behaviour is
  -- undefined its tables are valid again: the modules are numbered from 1 on, each rule's module is 0 or one of them, and each
  -- sequence has as many indices as rules, each of a rule in the table, or 0.
  pub compile_statements-IsCompiler :
      (version : Bytes → ℕ) (c : Compiler M)
      → IsCompiler c
      → Gives (λ (c', e). IsCompiler c') (compiler_compile_statements version c)
  unfolding compiler_compile_statements
  compile_statements-IsCompiler version c v = elim (Option-cases c.asts) [
    | inl e ↦ rw (e, compiler_compile_statements) (gives v)
    | inr (asts, e) ↦ elim (Bool-cases c.done) [
      | inl d ↦
          rw (e, d, compiler_compile_statements)
            (gives (record { ordinals = v.ordinals; rules = v.rules; sequences = v.sequences }))
      | inr d ↦
          rw (e, d, compiler_compile_statements)
            (all-IsCompiler version (concat asts) (record c { done = true }) 0
              (record { ordinals = v.ordinals; rules = v.rules; sequences = v.sequences }))
    ]
  ]
