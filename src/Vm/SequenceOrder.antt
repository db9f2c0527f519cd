-- ===== src/Vm/SequenceOrder.antt =====
-- When a sequence is reported: the loop over its rules against the times at which they were triggered.
use alca.Base.{
  ℕ, ◌+◌, ◌*◌, ◌-◌, ◌≤◌, ◌≡◌, refl, ◌∙◌, true, false, not, ◌&&◌, ◌||◌, some, List, [], ◌∷◌, ◌==◌,
  leb, if◌then◌else◌, ◌⊎◌, inl, inr, arith,
}
use alca.HashMap.{HashMap}
use alca.Vm.Sequences.{
  Timeval, no_time, MonRule, sequential, broken, out_of_order, scan_rules, check_sequence,
}

-- The times ascend from `last` on, each later than the epoch: both their seconds and, apart from these, their
-- microseconds.
abbrev pub Ascends : Timeval → List Timeval → Type 0
Ascends last [] = Unit
Ascends last (t ∷ ts) =
    (1 ≤ t.tv_sec) × (last.tv_sec ≤ t.tv_sec) × (last.tv_usec ≤ t.tv_usec) × Ascends t ts

-- a time in microseconds
abbrev pub micros : Timeval → ℕ
micros t = t.tv_sec * 1000000 + t.tv_usec

-- The times are those of triggers, each no earlier than the one before it.
abbrev pub Chronological : Timeval → List Timeval → Type 0
Chronological last [] = Unit
Chronological last (t ∷ ts) = (1 ≤ t.tv_sec) × (micros last ≤ micros t) × Chronological t ts

Ascends-Chronological :
    (last : Timeval) (ts : List Timeval) → Ascends last ts → Chronological last ts
Ascends-Chronological last [] a = tt
Ascends-Chronological last (t ∷ ts) (p, s, u, a) = (p, omega arith, Ascends-Chronological t ts a)

abbrev pub last_time : Timeval → List Timeval → Timeval
last_time t [] = t
last_time t (u ∷ us) = last_time u us

-- the seconds between the first time and the last
abbrev pub elapsed : List Timeval → ℕ
elapsed [] = 0
elapsed (t ∷ ts) = (last_time t ts).tv_sec - t.tv_sec

-- The rules were triggered in their order, and within the span where there is one.
abbrev pub Fires : ℕ → List Timeval → Type 0
Fires max_span ts = Ascends no_time ts × ((max_span ≡ 0) ⊎ (elapsed ts ≤ max_span))

in_order_iff :
    (t last : Timeval)
    → ((out_of_order t last ≡ false)
        × (1 ≤ t.tv_sec)
        × (last.tv_sec ≤ t.tv_sec)
        × (last.tv_usec ≤ t.tv_usec))
      ⊎ ((out_of_order t last ≡ true)
          × ¬ ((1 ≤ t.tv_sec) × (last.tv_sec ≤ t.tv_sec) × (last.tv_usec ≤ t.tv_usec)))
unfolding out_of_order
in_order_iff t last = ground arith

span_iff :
    (max_span n : ℕ)
    → (((max_span == 0 || (not (max_span == 0) && leb n max_span)) ≡ true)
        × ((max_span ≡ 0) ⊎ (n ≤ max_span)))
      ⊎ (((max_span == 0 || (not (max_span == 0) && leb n max_span)) ≡ false)
          × ¬ ((max_span ≡ 0) ⊎ (n ≤ max_span)))
span_iff max_span n = ground arith

module _ {Q : Type 0} ⦃q : HashMap ℕ MonRule Q⦄ where
  -- The map has the rules, last triggered at the times.
  abbrev pub Times : Q → List ℕ → List Timeval → Type 0
  Times m [] [] = Unit
  Times m (j ∷ js) (t ∷ ts) =
      ((r : MonRule) × (q.get m j ≡ some r) × (r.trigger ≡ t)) × Times m js ts
  Times m _ _ = ⊥

  scan_first :
      (m : Q) (j : ℕ) (js : List ℕ) (idx : ℕ) (first last : Timeval) (r : MonRule)
      → q.get m j ≡ some r
      → scan_rules m (j ∷ js) idx first last ≡ (
          if out_of_order r.trigger last
          then broken
          else scan_rules m js (idx + 1) (if idx == 0 then r.trigger else first) r.trigger)
  unfolding scan_rules
  scan_first m j js idx first last r e = rw (e, scan_rules) refl

  scan_from :
      (m : Q) (js : List ℕ) (ts : List Timeval) (idx : ℕ) (first last : Timeval)
      → Times m js ts
      → (idx == 0) ≡ false
      → (Ascends last ts × (scan_rules m js idx first last ≡ sequential first (last_time last ts)))
        ⊎ ((¬ Ascends last ts) × (scan_rules m js idx first last ≡ broken))
  scan_from m [] [] idx first last w k = inl (tt, unfold scan_rules in refl)
  scan_from m [] (t ∷ ts) idx first last w k = absurd w
  scan_from m (j ∷ js) [] idx first last w k = absurd w
  scan_from m (j ∷ js) (t ∷ ts) idx first last ((r, e, p), w) k =
      let k' : ((idx + 1) == 0) ≡ false = ground arith in
      let step = scan_first m j js idx first last r e in
      elim (in_order_iff t last) [
        | inl (o, a, b, c) ↦ elim (scan_from m js ts (idx + 1) first t w k') [
          | inl (d, f) ↦ inl ((a, b, c, d), step ∙ rw (p, o, k) f)
          | inr (d, f) ↦ inr ((λ (a', b', c', d'). d d'), step ∙ rw (p, o, k) f)
        ]
        | inr (o, n) ↦ inr ((λ (a, b, c, d). n (a, b, c)), step ∙ rw (p, o))
      ]

  scan_all :
      (m : Q) (js : List ℕ) (ts : List Timeval)
      → Times m js ts
      → ((first : Timeval) × (last : Timeval) × Ascends no_time ts
          × (scan_rules m js 0 no_time no_time ≡ sequential first last)
          × (last.tv_sec - first.tv_sec ≡ elapsed ts))
        ⊎ ((¬ Ascends no_time ts) × (scan_rules m js 0 no_time no_time ≡ broken))
  scan_all m [] [] w = inl (no_time, no_time, tt, unfold scan_rules in refl, refl)
  scan_all m [] (t ∷ ts) w = absurd w
  scan_all m (j ∷ js) [] w = absurd w
  scan_all m (j ∷ js) (t ∷ ts) ((r, e, p), w) =
      let step = scan_first m j js 0 no_time no_time r e in
      elim (in_order_iff t no_time) [
        | inl (o, a, b, c) ↦ elim (scan_from m js ts (0 + 1) t t w refl) [
          | inl (d, f) ↦ inl (t, last_time t ts, (a, b, c, d), step ∙ rw (p, o) f, refl)
          | inr (d, f) ↦ inr ((λ (a', b', c', d'). d d'), step ∙ rw (p, o) f)
        ]
        | inr (o, n) ↦ inr ((λ (a, b, c, d). n (a, b, c)), step ∙ rw (p, o))
      ]

  -- A sequence all of whose rules the map has is reported exactly where the rules were triggered one after the
  -- other, each at all, with both seconds and microseconds ascending, each apart from the other, and the seconds of the
  -- last less those of the first at most the span where one is set. A sequence that is reported was triggered in the order
  -- of time; one whose microseconds fall while its seconds rise is not reported. The check is never undefined behaviour.
  pub check_sequence-Fires :
      (m : Q) (max_span : ℕ) (js : List ℕ) (ts : List Timeval)
      → Times m js ts
      → ((check_sequence m max_span js ≡ some true) × Fires max_span ts × Chronological no_time ts)
        ⊎ ((check_sequence m max_span js ≡ some false) × ¬ Fires max_span ts)
  unfolding check_sequence
  check_sequence-Fires m max_span js ts w = elim (scan_all m js ts w) [
    | inl (first, last, a, e, d) ↦ elim (span_iff max_span (elapsed ts)) [
      | inl (p, s) ↦
          inl (rw (e, d, p, check_sequence) refl, (a, s), Ascends-Chronological no_time ts a)
      | inr (p, s) ↦ inr (rw (e, d, p, check_sequence) refl, λ (a', s'). s s')
    ]
    | inr (n, e) ↦ inr (rw (e, check_sequence) refl, λ (a, s). n a)
  ]
