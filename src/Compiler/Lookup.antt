-- ===== src/Compiler/Lookup.antt =====
-- What the lookup of a rule by its name finds.
use alca.Base.{
  ℕ, zero, suc, ◌+◌, ◌≡◌, refl, true, false, none, some, List, [], ◌∷◌, inl, inr, ◌⊎◌, Bool-cases,
  Bytes, arith,
}
use alca.HashMap.{HashMap}
use alca.Arena.{Arena}
use alca.Compiler.Tables.{RuleEntry, has_name, find_rule_from, ac_compiler_find_rule_idx_by_name}

module _ {M : Type 0} ⦃h : HashMap Bytes ℕ M⦄ where
  -- No entry has the name.
  abbrev pub Absent : Arena M → Bytes → List RuleEntry → Type 0
  Absent strings name [] = Unit
  Absent strings name (entry ∷ entries) =
      (has_name strings name entry ≡ false) × Absent strings name entries

  -- The entry at the index has the name, and none before it has.
  abbrev pub FirstAt : Arena M → Bytes → List RuleEntry → ℕ → Type 0
  FirstAt strings name [] i = ⊥
  FirstAt strings name (entry ∷ entries) zero = has_name strings name entry ≡ true
  FirstAt strings name (entry ∷ entries) (suc i) =
      (has_name strings name entry ≡ false) × FirstAt strings name entries i

  find_from :
      (strings : Arena M) (name : Bytes) (i : ℕ) (table : List RuleEntry)
      → ((k : ℕ) × (find_rule_from strings name i table ≡ some (i + k))
          × FirstAt strings name table k)
        ⊎ ((find_rule_from strings name i table ≡ none) × Absent strings name table)
  find_from strings name i [] = inr (unfold find_rule_from in refl, tt)
  find_from strings name i (entry ∷ entries) = elim (find_from strings name (i + 1) entries) [
    | inl (k, e, f) ↦ elim (Bool-cases (has_name strings name entry)) [
      | inl p ↦ inl (0, unfold find_rule_from in rw p (ground arith), p)
      | inr p ↦ inl (suc k, unfold find_rule_from in rw (p, e) (ground arith), (p, f))
    ]
    | inr (e, a) ↦ elim (Bool-cases (has_name strings name entry)) [
      | inl p ↦ inl (0, unfold find_rule_from in rw p (ground arith), p)
      | inr p ↦ inr (unfold find_rule_from in rw (p, e), (p, a))
    ]
  ]

  -- The lookup of a rule gives the index of the first entry with the name, or -1 where no entry has it.
  pub find_rule_idx-FirstAt :
      (strings : Arena M) (table : List RuleEntry) (name : Bytes)
      → ((i : ℕ) × (ac_compiler_find_rule_idx_by_name strings table name ≡ some i)
          × FirstAt strings name table i)
        ⊎ ((ac_compiler_find_rule_idx_by_name strings table name ≡ none)
            × Absent strings name table)
  unfolding ac_compiler_find_rule_idx_by_name
  find_rule_idx-FirstAt strings table name = elim (find_from strings name 0 table) [
    | inl (k, e, f) ↦ let z : 0 + k ≡ k = omega arith in inl (k, rw z at e, f)
    | inr p ↦ inr p
  ]
