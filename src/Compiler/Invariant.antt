-- ===== src/Compiler/Invariant.antt =====
-- The compiler's tables refer to each other within their bounds.
use alca.Base.{
  ℕ, suc, ◌+◌, ◌≤◌, ◌<◌, ◌≡◌, some, List, [], ◌∷◌, ◌++◌, length, length-append, take, Bytes,
  bytes_eq, arith, ◌⊎◌, inl, inr, Bool-cases, Option-cases,
}
use alca.HashMap.{HashMap}
use alca.Arena.{Arena, ac_arena_get_string}
use alca.Compiler.Tables.{ModuleEntry, RuleEntry, SequenceEntry, find_ordinal_from}
use alca.Compiler.Statements.{
  Compiler, compiler_add_rule_entry, compiler_add_module_entry, compiler_add_sequence_entry,
}
use alca.Compiler.Reader.{All}

-- The modules have the ordinals from `n` on.
abbrev pub OrdinalsFrom : ℕ → List ModuleEntry → Type 0
OrdinalsFrom n [] = Unit
OrdinalsFrom n (e ∷ entries) = (e.ordinal ≡ n) × OrdinalsFrom (suc n) entries

-- An index that was never written is 0.
abbrev pub IsIndexBelow : ℕ → ℕ → Type 0
IsIndexBelow n i = (i ≡ 0) ⊎ (i < n)

abbrev pub HasIndices : ℕ → SequenceEntry → Type 0
HasIndices n e = (length e.rule_indices ≡ e.rule_count) × All (IsIndexBelow n) e.rule_indices

-- Modules are numbered from 1, a rule's module is 0 or one of them, and a sequence has as many indices as rules, each of a
-- rule in the table, or 0.
pub record IsCompiler {M : Type 0} (c : Compiler M) : Type 0 where
  pub ordinals : OrdinalsFrom 1 c.module_table
  pub rules : All (λ e. e.module_ordinal ≤ length c.module_table) c.rule_table
  pub sequences : All (HasIndices (length c.rule_table)) c.sequence_table

All-map :
    {A : Type 0} {P Q : A → Type 0} (xs : List A) → ((x : A) → P x → Q x) → All P xs → All Q xs
All-map [] f p = tt
All-map (x ∷ xs) f (p, ps) = (f x p, All-map xs f ps)

All-last :
    {A : Type 0} (P : A → Type 0) (xs : List A) (y : A) → All P xs → P y → All P (xs ++ (y ∷ []))
All-last P [] y p q = (q, tt)
All-last P (x ∷ xs) y (p, ps) q = (p, All-last P xs y ps q)

OrdinalsFrom-last :
    (n : ℕ) (table : List ModuleEntry) (e : ModuleEntry)
    → OrdinalsFrom n table
    → e.ordinal ≡ n + length table
    → OrdinalsFrom n (table ++ (e ∷ []))
OrdinalsFrom-last n [] e p q = (omega (arith, q), tt)
OrdinalsFrom-last n (x ∷ table) e (p, ps) q =
    (p, OrdinalsFrom-last (suc n) table e ps (omega (arith, q)))

pub IsIndexBelow-more : (n m : ℕ) → n ≤ m → (i : ℕ) → IsIndexBelow n i → IsIndexBelow m i
IsIndexBelow-more n m l i (inl e) = inl e
IsIndexBelow-more n m l i (inr e) = inr (omega arith)

HasIndices-more : (n m : ℕ) → n ≤ m → (e : SequenceEntry) → HasIndices n e → HasIndices m e
HasIndices-more n m l e (p, q) = (p, All-map e.rule_indices (IsIndexBelow-more n m l) q)

module _ {M : Type 0} where
  pub add_rule-IsCompiler :
      (e : RuleEntry) (c : Compiler M)
      → e.module_ordinal ≤ length c.module_table
      → IsCompiler c
      → IsCompiler (compiler_add_rule_entry e c).0
  unfolding compiler_add_rule_entry
  add_rule-IsCompiler e c l v = record {
    ordinals = v.ordinals;
    rules = All-last _ c.rule_table e v.rules l;
    sequences =
        All-map c.sequence_table
          (HasIndices-more _ _ (omega (arith, length-append c.rule_table (e ∷ [])))) v.sequences;
  }

  pub add_module-IsCompiler :
      (e : ModuleEntry) (c : Compiler M)
      → e.ordinal ≡ length c.module_table + 1
      → IsCompiler c
      → IsCompiler (compiler_add_module_entry e c)
  unfolding compiler_add_module_entry
  add_module-IsCompiler e c l v = record {
    ordinals = OrdinalsFrom-last 1 c.module_table e v.ordinals (omega (arith, l));
    rules =
        All-map c.rule_table (λ x k. omega (arith, k, length-append c.module_table (e ∷ [])))
          v.rules;
    sequences = v.sequences;
  }

  pub add_sequence-IsCompiler :
      (e : SequenceEntry) (c : Compiler M)
      → HasIndices (length c.rule_table) e
      → IsCompiler c
      → IsCompiler (compiler_add_sequence_entry e c)
  unfolding compiler_add_sequence_entry
  add_sequence-IsCompiler e c k v = record {
    ordinals = v.ordinals;
    rules = v.rules;
    sequences = All-last _ c.sequence_table e v.sequences k;
  }

module _ {M : Type 0} ⦃h : HashMap Bytes ℕ M⦄ where
  pub find_ordinal_bound :
      (strings : Arena M) (n : ℕ) (table : List ModuleEntry) (name : Bytes)
      → OrdinalsFrom (suc n) table
      → (k : ℕ) → find_ordinal_from strings table name ≡ some k
      → k ≤ n + length table
  unfolding find_ordinal_from
  find_ordinal_bound strings n [] name p k e = absurd (cc)
  find_ordinal_bound strings n (x ∷ table) name (p, ps) k e =
      elim (Option-cases (ac_arena_get_string strings x.name_offset)) [
        | inl g ↦
            let b =
              find_ordinal_bound strings (suc n) table name ps k (rw (g, find_ordinal_from) at e) in
            omega (arith, b)
        | inr (s, g) ↦ elim (Bool-cases (bytes_eq (take x.lname s) (take x.lname name))) [
          | inl t ↦
              let q : some x.ordinal ≡ some k = rw (g, t, find_ordinal_from) at e in
              let q' : x.ordinal ≡ k = cc in omega (arith, p, q')
          | inr t ↦
              let b =
                find_ordinal_bound strings (suc n) table name ps k
                  (rw (g, t, find_ordinal_from) at e) in
              omega (arith, b)
        ]
      ]
