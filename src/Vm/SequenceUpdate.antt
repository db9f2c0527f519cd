-- ===== src/Vm/SequenceUpdate.antt =====
-- What the trigger of a rule does to the sequences that monitor it.
use alca.Base.{
  ℕ, ◌≡◌, refl, sym, ◌∙◌, Option, none, some, List, [], ◌∷◌, ◌==◌, ◌⊎◌, inl, inr, Bool-cases,
  Option-cases, arith, ◌≢◌, Bytes, length,
}
use alca.HashMap.{HashMap}
use alca.Arena.{Arena, ac_arena_get_string}
use alca.Compiler.Tables.{SequenceEntry}
use alca.Vm.Sequences.{
  Timeval, no_time, MonRule, Sequence, Triggers, sequence_trigger, vm_report_triggered,
  update_sequence, vm_update_sequences, monitor_all, new_sequence,
}
use alca.Vm.SequenceOrder.{Times, Fires, check_sequence-Fires}

module _ {Q : Type 0} ⦃q : HashMap ℕ MonRule Q⦄ where
  -- The map has the rules.
  abbrev pub Watches : Q → List ℕ → Type 0
  Watches m [] = Unit
  Watches m (j ∷ js) = ((r : MonRule) × (q.get m j ≡ some r)) × Watches m js

  abbrev pub IsWatched : Sequence Q → Type 0
  IsWatched s = Watches s.monitored_rules s.rule_indices

  has-put :
      (m : Q) (k j : ℕ) (v r : MonRule)
      → q.get m j ≡ some r
      → (r' : MonRule) × (q.get (q.put m k v) j ≡ some r')
  has-put m k j v r e = elim (Bool-cases (k == j)) [
    | inl p ↦ let same : k ≡ j = ground arith in (v, rw (← same) (q.get-put_same m k v))
    | inr p ↦ (r, q.get-put_other m k j v (λ same. ground (arith, same, p)) ∙ e)
  ]

  pub put-Watches :
      (m : Q) (k : ℕ) (v : MonRule) (js : List ℕ) → Watches m js → Watches (q.put m k v) js
  put-Watches m k v [] w = tt
  put-Watches m k v (j ∷ js) ((r, e), w) = (has-put m k j v r e, put-Watches m k v js w)

  times-of : (m : Q) (js : List ℕ) → Watches m js → (ts : List Timeval) × Times m js ts
  times-of m [] w = ([], tt)
  times-of m (j ∷ js) ((r, e), w) =
      let (ts, p) = times-of m js w in (r.trigger ∷ ts, ((r, e, refl), p))

  -- `s` and `t` after a trigger of the rule that is stored under the index.
  pub record Updated (cbs : List (Option ℕ)) (name : Option Bytes) (index : ℕ) (rule : MonRule)
      (s : Sequence Q) (t : Triggers) : Type 0 where
    pub s' : Sequence Q
    pub t' : Triggers
    pub result : update_sequence cbs name index rule s t ≡ some (s', t')
    pub watched : IsWatched s'
    pub rules : s'.rule_indices ≡ s.rule_indices
    pub span : s'.max_span ≡ s.max_span
    pub others : (j : ℕ) → index ≢ j → q.get s'.monitored_rules j ≡ q.get s.monitored_rules j
    pub unmonitored : q.get s.monitored_rules index ≡ none → (s' ≡ s) × (t' ≡ t)
    pub monitored :
        (r : MonRule)
        → q.get s.monitored_rules index ≡ some r
        → (ts : List Timeval) × Times s'.monitored_rules s.rule_indices ts
          × (q.get s'.monitored_rules index ≡ some rule)
          × ((Fires s.max_span ts
                × (t' ≡ vm_report_triggered cbs sequence_trigger name rule.trigger.tv_sec t))
              ⊎ ((¬ Fires s.max_span ts) × (t' ≡ t)))

  -- The trigger of a rule on a sequence whose map has all its rules succeeds: a sequence that does not monitor
  -- the rule stays as it is and is not reported; in one that does the rule has its new time, the other rules have
  -- theirs, and it is reported exactly where the new times make it fire.
  pub update_sequence-Updated :
      (cbs : List (Option ℕ)) (name : Option Bytes) (index : ℕ) (rule : MonRule) (s : Sequence Q)
      (t : Triggers)
      → IsWatched s
      → Updated cbs name index rule s t
  unfolding update_sequence
  update_sequence-Updated cbs name index rule s t w =
      elim (Option-cases (q.get s.monitored_rules index)) [
        | inl e ↦ record {
          s' = s;
          t' = t;
          result = rw (e, update_sequence) refl;
          watched = w;
          rules = refl;
          span = refl;
          others = λ j k. refl;
          unmonitored = λ p. (refl, refl);
          monitored = λ r p. absurd (none-some (sym e ∙ p));
        }
        | inr (r₀, e) ↦
            let m = q.put s.monitored_rules index rule in
            let w' = put-Watches s.monitored_rules index rule s.rule_indices w in
            let (ts, times) = times-of m s.rule_indices w' in
            elim (check_sequence-Fires m s.max_span s.rule_indices ts times) [
              | inl (c, f, o) ↦ record {
                s' = record s { monitored_rules = m };
                t' = vm_report_triggered cbs sequence_trigger name rule.trigger.tv_sec t;
                result = rw (e, c, update_sequence) refl;
                watched = w';
                rules = refl;
                span = refl;
                others = λ j k. q.get-put_other s.monitored_rules index j rule k;
                unmonitored = λ p. absurd (none-some (sym p ∙ e));
                monitored =
                    λ r p. (ts, times, q.get-put_same s.monitored_rules index rule, inl (f, refl));
              }
              | inr (c, f) ↦ record {
                s' = record s { monitored_rules = m };
                t' = t;
                result = rw (e, c, update_sequence) refl;
                watched = w';
                rules = refl;
                span = refl;
                others = λ j k. q.get-put_other s.monitored_rules index j rule k;
                unmonitored = λ p. absurd (none-some (sym p ∙ e));
                monitored =
                    λ r p. (ts, times, q.get-put_same s.monitored_rules index rule, inr (f, refl));
              }
            ]
      ]
    where
      none-some : {r : MonRule} → ¬ (none ≡ some r)
      none-some p = cc

  -- All the sequences are watched.
  abbrev pub AreWatched : List (Sequence Q) → Type 0
  AreWatched [] = Unit
  AreWatched (s ∷ ss) = IsWatched s × AreWatched ss

  -- Where every sequence has an entry and a map with all its rules, `vm_update_sequences` never follows a NULL
  -- pointer, and leaves as many sequences, each with all its rules again.
  pub update_sequences-AreWatched :
      {M : Type 0} ⦃h : HashMap Bytes ℕ M⦄ (strings : Arena M) (cbs : List (Option ℕ))
      (entries : List SequenceEntry) (index : ℕ) (rule : MonRule) (ss : List (Sequence Q))
      (t : Triggers)
      → length entries ≡ length ss
      → AreWatched ss
      → (ss' : List (Sequence Q)) × (t' : Triggers) × (vm_update_sequences strings cbs entries index
            rule ss t
          ≡ some (ss', t'))
        × AreWatched ss'
        × (length ss' ≡ length ss)
  unfolding vm_update_sequences
  update_sequences-AreWatched ⦃h⦄ strings cbs [] index rule [] t l w = ([], t, refl, tt, refl)
  update_sequences-AreWatched ⦃h⦄ strings cbs (e ∷ es) index rule [] t l w = ([], t, refl, tt, refl)
  update_sequences-AreWatched ⦃h⦄ strings cbs [] index rule (s ∷ ss) t l w =
      absurd (omega (arith, l))
  update_sequences-AreWatched ⦃h⦄ strings cbs (e ∷ es) index rule (s ∷ ss) t l (w, ws) =
      let u =
        update_sequence-Updated cbs (ac_arena_get_string strings e.name_offset) index rule s t w in
      let (ss', t', p, ws', n) =
        update_sequences-AreWatched strings cbs es index rule ss u.t' (omega (arith, l)) ws in
      (u.s' ∷ ss', t', rw (u.result, p) refl, (u.watched, ws'), omega (arith, n))

  monitor_all-Watches : (js ks : List ℕ) (m : Q) → Watches m ks → Watches (monitor_all js m) ks
  unfolding monitor_all
  monitor_all-Watches [] ks m w = w
  monitor_all-Watches (j ∷ js) ks m w = monitor_all-Watches js ks _ (put-Watches m j _ ks w)

  monitored_all-Watches : (js : List ℕ) (m : Q) → Watches (monitor_all js m) js
  unfolding monitor_all
  monitored_all-Watches [] m = tt
  monitored_all-Watches (j ∷ js) m =
      let (r, w) =
        monitor_all-Watches js (j ∷ []) _
          ((_, q.get-put_same m j (record { name = none; trigger = no_time })), tt) in
      (r, monitored_all-Watches js _)

-- The sequences that `ac_vm_new` sets up have maps with all their rules.
pub new_sequence-IsWatched :
    (Q : Type 0) ⦃q : HashMap ℕ MonRule Q⦄ (e : SequenceEntry) → IsWatched (new_sequence {Q = Q} e)
unfolding new_sequence
new_sequence-IsWatched Q ⦃q⦄ e = monitored_all-Watches e.rule_indices q.new
