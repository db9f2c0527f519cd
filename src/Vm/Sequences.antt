-- ===== src/Vm/Sequences.antt =====
-- libalca/vm.c: the rules that sequences monitor, and the reports of triggers.
use alca.Base.{
  ℕ, ◌+◌, ◌-◌, Bool, false, not, ◌&&◌, ◌||◌, Option, none, some, ◌>>=◌, List, [], ◌∷◌, ◌++◌, ◌==◌,
  leb, if◌then◌else◌, Bytes,
}
use mathlib.Core.Option
use alca.HashMap.{HashMap}
use alca.Arena.{Arena, ac_arena_get_string}
use alca.Compiler.Tables.{SequenceEntry}

-- `struct ac_timeval`, a time since the epoch
pub record Timeval : Type 0 where
  pub tv_sec : ℕ
  pub tv_usec : ℕ

abbrev pub no_time : Timeval
no_time = record { tv_sec = 0; tv_usec = 0 }

-- `vm_monrule`; `idx` is the key under which the hash map keeps it. The name is NULL at the start.
pub record MonRule : Type 0 where
  pub name : Option Bytes
  pub trigger : Timeval

-- `vm_sequence`; `rule_count` is the length of `rule_indices`.
pub record Sequence (Q : Type 0) : Type 0 where
  pub max_span : ℕ
  pub rule_indices : List ℕ
  pub monitored_rules : Q

-- AC_VM_RULE and AC_VM_SEQUENCE
pub data TriggerType : Type 0 where
  rule_trigger : TriggerType
  sequence_trigger : TriggerType

-- one call of a trigger callback
pub record Report : Type 0 where
  pub callback : ℕ
  pub type : TriggerType
  pub name : Option Bytes
  pub at : ℕ

-- the callbacks that were called, in order, and `ntriggers`
pub record Triggers : Type 0 where
  pub reports : List Report
  pub ntriggers : ℕ

unfoldable pub call_callbacks : List (Option ℕ) → TriggerType → Option Bytes → ℕ → List Report
call_callbacks [] type name at = []
call_callbacks (none ∷ cbs) type name at = call_callbacks cbs type name at
call_callbacks (some cb ∷ cbs) type name at =
    record { callback = cb; type = type; name = name; at = at } ∷ call_callbacks cbs type name at

unfoldable pub vm_report_triggered :
    List (Option ℕ) → TriggerType → Option Bytes → ℕ → Triggers → Triggers
vm_report_triggered cbs type name at t = record {
  reports = t.reports ++ call_callbacks cbs type name at;
  ntriggers = t.ntriggers + 1;
}

-- What the loop over the rules of a sequence comes to; a rule that the map does not have is a NULL pointer.
pub data Scan : Type 0 where
  sequential : Timeval → Timeval → Scan
  broken : Scan
  null_rule : Scan

-- the condition under which the loop gives up
unfoldable pub out_of_order : Timeval → Timeval → Bool
out_of_order r last =
    r.tv_sec == 0
    || (not (r.tv_sec == 0) && not (leb last.tv_sec r.tv_sec && leb last.tv_usec r.tv_usec))

module _ {Q : Type 0} ⦃q : HashMap ℕ MonRule Q⦄ where
  unfoldable pub scan_rules : Q → List ℕ → ℕ → Timeval → Timeval → Scan
  scan_rules m [] idx first last = sequential first last
  scan_rules m (j ∷ js) idx first last = elim (q.get m j) [
    | none ↦ null_rule
    | some r ↦
        if out_of_order r.trigger last
        then broken
        else scan_rules m js (idx + 1) (if idx == 0 then r.trigger else first) r.trigger
  ]

  -- Whether the sequence is reported; `none` is undefined behaviour.
  unfoldable pub check_sequence : Q → ℕ → List ℕ → Option Bool
  check_sequence m max_span js = elim (scan_rules m js 0 no_time no_time) [
    | sequential first last ↦
        some (max_span == 0 || (not (max_span == 0) && leb (last.tv_sec - first.tv_sec) max_span))
    | broken ↦ some false
    | null_rule ↦ none
  ]

  -- one round of the loop of `vm_update_sequences`
  unfoldable pub update_sequence :
      List (Option ℕ)
      → Option Bytes
      → ℕ
      → MonRule
      → Sequence Q
      → Triggers
      → Option (Sequence Q × Triggers)
  update_sequence cbs seq_name rule_index rule s t = elim (q.get s.monitored_rules rule_index) [
    | none ↦ some (s, t)
    | some _ ↦
        let m = q.put s.monitored_rules rule_index rule in
        Option.map
          (λ b. (
            record s { monitored_rules = m },
            if b
                then vm_report_triggered cbs sequence_trigger seq_name rule.trigger.tv_sec t
                else t,
          ))
          (check_sequence m s.max_span s.rule_indices)
  ]

  -- The sequences of the machine and their entries in the compiler's table are walked together.
  unfoldable pub vm_update_sequences :
      {M : Type 0} ⦃h : HashMap Bytes ℕ M⦄
      → Arena M
      → List (Option ℕ)
      → List SequenceEntry
      → ℕ
      → MonRule
      → List (Sequence Q)
      → Triggers
      → Option (List (Sequence Q) × Triggers)
  vm_update_sequences ⦃h⦄ strings cbs entries rule_index rule [] t = some ([], t)
  vm_update_sequences ⦃h⦄ strings cbs [] rule_index rule (s ∷ ss) t = none
  vm_update_sequences ⦃h⦄ strings cbs (e ∷ es) rule_index rule (s ∷ ss) t = do
    (s', t₁) ← update_sequence cbs (ac_arena_get_string strings e.name_offset) rule_index rule s t
    (ss', t₂) ← vm_update_sequences strings cbs es rule_index rule ss t₁
    some (s' ∷ ss', t₂)

  -- the map that `ac_vm_new` makes of the rules of a sequence
  unfoldable pub monitor_all : List ℕ → Q → Q
  monitor_all [] m = m
  monitor_all (j ∷ js) m = monitor_all js (q.put m j (record { name = none; trigger = no_time }))

  unfoldable pub new_sequence : SequenceEntry → Sequence Q
  new_sequence e = record {
    max_span = e.max_span;
    rule_indices = e.rule_indices;
    monitored_rules = monitor_all e.rule_indices q.new;
  }
