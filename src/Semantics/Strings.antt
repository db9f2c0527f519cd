-- ===== src/Semantics/Strings.antt =====
-- The interpreter's string tests, by `strstr`, `strlen` and `strncmp`, are the tests that they stand for.
use alca.Base.{
  ℕ, zero, suc, ◌-◌, ◌≤◌, ◌<◌, ◌≡◌, refl, ap, ◌≢◌, ◌∙◌, Bool, true, false, ◌&&◌, ◌||◌, inl, inr, [],
  ◌∷◌, leb, ◌==◌, length, take, drop, length-drop, Bytes, bytes_eq, bytes_eq_sound, arith,
  Bool-cases,
}
use alca.Vm.Text.{is_prefix, strstr, strncmp_eq, contains, startswith, endswith}
use alca.Semantics.Operators.{occurs, is_suffix}

-- `contains` finds `t` exactly where it stands somewhere in `s`.
pub contains-occurs : (s t : Bytes) → contains s t ≡ occurs t s
unfolding contains strstr occurs
contains-occurs [] t = ground arith
contains-occurs (c ∷ cs) t = ground (arith, contains-occurs cs t)

-- `startswith` is the prefix test.
pub startswith-is_prefix : (s t : Bytes) → startswith s t ≡ is_prefix t s
unfolding startswith strstr
startswith-is_prefix [] t = ground arith
startswith-is_prefix (c ∷ cs) t = ground (arith)

take_all : (n : ℕ) (xs : Bytes) → length xs ≤ n → take n xs ≡ xs
take_all zero [] h = refl
take_all zero (x ∷ xs) h = absurd (omega arith)
take_all (suc n) [] h = refl
take_all (suc n) (x ∷ xs) h = ap (◌∷◌ x) (take_all n xs (omega arith))

length-bytes_eq : (s t : Bytes) → bytes_eq s t ≡ true → length s ≡ length t
length-bytes_eq s t e = ap length (bytes_eq_sound s t e)

-- the test without the bounds of `strncmp`
ends : Bytes → Bytes → Bool
ends s t = leb (length t) (length s) && bytes_eq (drop (length s - length t) s) t

endswith-ends : (s t : Bytes) → endswith s t ≡ ends s t
unfolding endswith ends strncmp_eq
endswith-ends s t = elim (Bool-cases (leb (length t) (length s))) [
  | inr e ↦ rw e
  | inl e ↦ ground (
    arith,
    length-drop (length s - length t) s,
    take_all (length s) (drop (length s - length t) s),
    take_all (length s) t,
  )
]

ends-false : (s t : Bytes) → length s < length t → ends s t ≡ false
unfolding ends
ends-false s t h = ground arith

unequal : (s t : Bytes) → length s ≢ length t → bytes_eq s t ≡ false
unequal s t h = elim (Bool-cases (bytes_eq s t)) [
  | inl e ↦ absurd (h (length-bytes_eq s t e))
  | inr e ↦ e
]

-- a suffix test on a string one longer
ends-same :
    (c : ℕ) (cs t : Bytes) → length t ≡ suc (length cs) → ends (c ∷ cs) t ≡ bytes_eq (c ∷ cs) t
unfolding ends
ends-same c cs t h =
    let d : suc (length cs) - length t ≡ 0 = omega arith in
    let e : leb (length t) (suc (length cs)) ≡ true = ground arith in rw (d, e)

ends-shorter : (c : ℕ) (cs t : Bytes) → length t ≤ length cs → ends (c ∷ cs) t ≡ ends cs t
unfolding ends
ends-shorter c cs t h =
    let d : suc (length cs) - length t ≡ suc (length cs - length t) = omega arith in
    let e : leb (length t) (suc (length cs)) ≡ true = ground arith in
    let f : leb (length t) (length cs) ≡ true = ground arith in rw (d, e, f)

or-false : (b : Bool) → (b || false) ≡ b
or-false true = refl
or-false false = refl

ends-is_suffix : (s t : Bytes) → ends s t ≡ is_suffix t s
unfolding is_suffix
ends-is_suffix [] [] = unfold ends bytes_eq in refl
ends-is_suffix [] (x ∷ t) = rw (ends-false [] (x ∷ t) (omega arith)) (unfold bytes_eq in refl)
ends-is_suffix (c ∷ cs) t = elim (Bool-cases (leb (length t) (length cs))) [
  | inl e ↦
      rw (ends-shorter c cs t (ground arith), unequal (c ∷ cs) t (ground arith))
        (ends-is_suffix cs t)
  | inr e ↦
      rw (← ends-is_suffix cs t, ends-false cs t (ground arith), or-false)
        (elim (Bool-cases (length t == suc (length cs))) [
          | inl q ↦ ends-same c cs t (ground arith)
          | inr q ↦ rw (ends-false (c ∷ cs) t (ground arith), unequal (c ∷ cs) t (ground arith))
        ])
]

-- `endswith` is the suffix test.
pub endswith-is_suffix : (s t : Bytes) → endswith s t ≡ is_suffix t s
endswith-is_suffix s t = endswith-ends s t ∙ ends-is_suffix s t
