-- ===== src/Tests/Maps.antt =====
-- Association lists as hash maps.
use alca.Base.{
  ℕ, ◌≡◌, refl, sym, ◌∙◌, Bool, true, false, Option, none, some, List, [], ◌∷◌, ◌==◌, if◌then◌else◌,
  ◌≢◌, Bytes, bytes_eq, bytes_eq_refl, bytes_eq_sound, Bool-cases, inl, inr, arith,
}
use alca.HashMap.{HashMap}
use alca.Vm.Sequences.{MonRule}

module _ {K V : Type 0} (same : K → K → Bool) where
  abbrev find : List (K × V) → K → Option V
  find [] k = none
  find ((j, v) ∷ m) k = let rest = find m k in if same j k then some v else rest

  abbrev remove : List (K × V) → K → List (K × V)
  remove [] k = []
  remove ((j, v) ∷ m) k = let rest = remove m k in if same j k then rest else (j, v) ∷ rest

  pub find-remove_same : (m : List (K × V)) (k : K) → find (remove m k) k ≡ none
  find-remove_same [] k = refl
  find-remove_same ((j, v) ∷ m) k = elim (Bool-cases (same j k)) [
    | inl e ↦ rw e (find-remove_same m k)
    | inr e ↦ rw (e, e) (find-remove_same m k)
  ]

  pub find-remove_other :
      (m : List (K × V)) (k j : K)
      → ((a b : K) → same a b ≡ true → a ≡ b)
      → k ≢ j
      → find (remove m k) j ≡ find m j
  find-remove_other [] k j sound n = refl
  find-remove_other ((i, v) ∷ m) k j sound n = elim (Bool-cases (same i k)) [
    | inl e ↦ elim (Bool-cases (same i j)) [
      | inl f ↦ absurd (n (sym (sound i k e) ∙ sound i j f))
      | inr f ↦ rw (e, f) (find-remove_other m k j sound n)
    ]
    | inr e ↦ rw (e, find-remove_other m k j sound n)
  ]

pub not_same :
    {K : Type 0} (same : K → K → Bool)
    → ((a b : K) → same a b ≡ true → a ≡ b)
    → (k j : K) → k ≢ j
    → same k j ≡ false
not_same same sound k j n = elim (Bool-cases (same k j)) [
  | inl e ↦ absurd (n (sound k j e))
  | inr e ↦ e
]

abbrev pub assoc_map :
    (K V : Type 0) (same : K → K → Bool)
    → ((a : K) → same a a ≡ true)
    → ((a b : K) → same a b ≡ true → a ≡ b)
    → HashMap K V (List (K × V))
assoc_map K V same same_refl sound = record {
  new = [];
  get = λ m k. find same m k;
  put = λ m k v. (k, v) ∷ m;
  delete = λ m k. remove same m k;
  get-new = λ k. refl;
  get-put_same = λ m k v. rw (same_refl k);
  get-put_other = λ m k j v n. rw (not_same same sound k j n);
  get-delete_same = λ m k. find-remove_same same m k;
  get-delete_other = λ m k j n. find-remove_other same m k j sound n;
}

pub ==-sound : (a b : ℕ) → (a == b) ≡ true → a ≡ b
==-sound a b e = ground arith

pub ==_refl : (a : ℕ) → (a == a) ≡ true
==_refl a = ground arith

instance abbrev pub string_map : HashMap Bytes ℕ (List (Bytes × ℕ))
string_map = assoc_map Bytes ℕ bytes_eq bytes_eq_refl bytes_eq_sound

instance abbrev pub rule_map : HashMap ℕ MonRule (List (ℕ × MonRule))
rule_map = assoc_map ℕ MonRule (λ a b. a == b) ==_refl ==-sound

instance abbrev pub name_map : HashMap ℕ Bytes (List (ℕ × Bytes))
name_map = assoc_map ℕ Bytes (λ a b. a == b) ==_refl ==-sound
