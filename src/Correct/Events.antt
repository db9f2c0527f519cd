-- ===== src/Correct/Events.antt =====
-- From an event to the report of a rule: `ac_vm_exec` on the code that the compiler emitted.
use alca.Base.{
  ℕ, ◌≤◌, ◌≡◌, refl, sym, ap, ◌∙◌, true, false, not, ◌||◌, some, List, [], ◌∷◌, ◌++◌, ◌==◌,
  if◌then◌else◌, ◌⊎◌, inl, inr, Bool-cases, Option-cases, arith, Bytes, length,
}
use alca.HashMap.{HashMap}
use alca.Arena.{ac_arena_get_string}
use alca.Context.{Value, word, str, obj, array, has_flag}
use alca.Syntax.{Rule}
use alca.Compiler.Tables.{RuleEntry, sequence_rule, private_rule}
use alca.Bytecode.Emit.{Builder}
use alca.Vm.Text.{strncmp_eq}
use alca.Vm.Operators.{Answer, value, raise, undefined}
use alca.Vm.Machine.{Vm, stop, ac_vm_exec_code}
use alca.Vm.Sequences.{MonRule, Triggers, vm_update_sequences, rule_trigger, vm_report_triggered}
use alca.Vm.SequenceUpdate.{AreWatched, update_sequences-AreWatched}
use alca.Vm.Exec.{Environment, Session, after_rule, after_exec, exec_rule}
use alca.Semantics.{eval}
use alca.Correct.Pieces.{Knows}
use alca.Correct.Rules.{Verdict, RuleCode}

module _ {M Q N : Type 0} ⦃h : HashMap Bytes ℕ M⦄ ⦃q : HashMap ℕ MonRule Q⦄
    ⦃n : HashMap ℕ Bytes N⦄ where
  -- The rule is for events of the type.
  pub record Matches (env : Environment M Q N) (event_type : Bytes) (etypelen : ℕ)
      (entry : RuleEntry) : Type 0 where
    pub module_name : Bytes
    pub has_module : (entry.module_ordinal == 0) ≡ false
    pub named : n.get env.modules entry.module_ordinal ≡ some module_name
    pub same : strncmp_eq module_name event_type etypelen ≡ true

  abbrev pub IsSession : Environment M Q N → Session Q → Type 0
  IsSession env s = AreWatched s.sequences × (length env.sequences ≡ length s.sequences)

  -- A rule without a module is never executed, nor is one whose module has another name than the event.
  abbrev pub Ignored : Environment M Q N → Bytes → ℕ → List RuleEntry → Type 0
  Ignored env event_type etypelen [] = Unit
  Ignored env event_type etypelen (entry ∷ entries) =
      ((entry.module_ordinal ≡ 0)
        ⊎ ((name : Bytes)
            → n.get env.modules entry.module_ordinal ≡ some name
            → strncmp_eq name event_type etypelen ≡ false))
      × Ignored env event_type etypelen entries

  pub exec_rule-Ignored :
      (fuel : ℕ) (env : Environment M Q N) (vm : Vm M) (event_type : Bytes) (etypelen i : ℕ)
      (entry : RuleEntry) (s : Session Q) (err : ℕ)
      → Ignored env event_type etypelen (entry ∷ [])
      → exec_rule fuel env vm event_type etypelen i entry s err ≡ some (s, err)
  unfolding exec_rule
  exec_rule-Ignored fuel env vm event_type etypelen i entry s err (inl e, _) =
      let z : (entry.module_ordinal == 0) ≡ true = ground (arith, e) in rw (z, exec_rule) refl
  exec_rule-Ignored fuel env vm event_type etypelen i entry s err (inr k, _) =
      elim (Option-cases (n.get env.modules entry.module_ordinal)) [
        | inl e ↦ elim (Bool-cases (entry.module_ordinal == 0)) [
          | inl z ↦ rw (z, exec_rule) refl
          | inr z ↦ rw (z, e, exec_rule) refl
        ]
        | inr (name, e) ↦ elim (Bool-cases (entry.module_ordinal == 0)) [
          | inl z ↦ rw (z, exec_rule) refl
          | inr z ↦ rw (z, e, k name e, exec_rule) refl
        ]
      ]

  exec_rule-stop :
      (fuel : ℕ) (env : Environment M Q N) (vm : Vm M) (event_type : Bytes) (etypelen i : ℕ)
      (entry : RuleEntry) (s : Session Q) (err r e : ℕ) (left : List Value)
      → Matches env event_type etypelen entry
      → ac_vm_exec_code fuel vm entry.code_offset s.stack ≡ stop r e left
      → exec_rule fuel env vm event_type etypelen i entry s err
        ≡ after_exec env vm i entry (stop r e left) s err
  unfolding exec_rule
  exec_rule-stop fuel env vm event_type etypelen i entry s err r e left m p =
      rw (m.has_module, m.named, m.same, p, exec_rule) refl

  -- the triggers when the sequences are told of the rule
  abbrev pub own_report : Environment M Q N → Vm M → ℕ → RuleEntry → Session Q → Triggers
  own_report env vm i entry s =
      if has_flag entry.flags sequence_rule || has_flag entry.flags private_rule
      then s.triggers
      else vm_report_triggered env.callbacks rule_trigger
          (ac_arena_get_string vm.strings entry.name_offset) (env.clock i).tv_sec s.triggers

  -- `s'` is `s` after a rule with the result `x`: the same where that is 0; else with the rule's own report, unless
  -- it is private or a sequence's, and what its sequences make of the trigger.
  abbrev pub Triggered :
      Environment M Q N → Vm M → ℕ → RuleEntry → ℕ → Session Q → Session Q → Type 0
  Triggered env vm i entry x s s' =
      ((x ≡ 0) × (s' ≡ s))
      ⊎ ((1 ≤ x)
          × (s'.stack ≡ s.stack)
          × (vm_update_sequences vm.strings env.callbacks env.sequences i
                (record {
                  name = ac_arena_get_string vm.strings entry.name_offset;
                  trigger = env.clock i;
                })
                s.sequences (own_report env vm i entry s)
              ≡ some (s'.sequences, s'.triggers)))

  after_rule-Triggered :
      (env : Environment M Q N) (vm : Vm M) (i : ℕ) (entry : RuleEntry) (x : ℕ) (s : Session Q)
      → IsSession env s
      → (s' : Session Q) × (after_rule env vm i entry x s ≡ some s')
        × IsSession env s'
        × Triggered env vm i entry x s s'
  unfolding after_rule
  after_rule-Triggered env vm i entry x s (w, l) = elim (Bool-cases (x == 0)) [
    | inl z ↦ (s, rw (z, after_rule) refl, (w, l), inl (ground (arith, z), refl))
    | inr z ↦
        let (ss, t', p, ws, k) =
          update_sequences-AreWatched vm.strings env.callbacks env.sequences i
            (record {
              name = ac_arena_get_string vm.strings entry.name_offset;
              trigger = env.clock i;
            })
            s.sequences (own_report env vm i entry s) l w in
        (
          record s { sequences = ss; triggers = t' },
          rw (z, p, after_rule) refl,
          (ws, l ∙ sym k),
          inr (ground (arith, z), refl, p),
        )
  ]

  pub exec_rule-value :
      (env : Environment M Q N) (vm : Vm M) (event_type : Bytes) (etypelen i : ℕ)
      (entry : RuleEntry) (s : Session Q) (err x : ℕ)
      → Matches env event_type etypelen entry
      → IsSession env s
      → s.stack ≡ []
      → Verdict vm entry.code_offset (value (word x))
      → (s' : Session Q) × (enough : ℕ) × ((fuel : ℕ)
          → enough ≤ fuel
          → exec_rule fuel env vm event_type etypelen i entry s err ≡ some (s', err))
        × IsSession env s'
        × Triggered env vm i entry x s s'
  exec_rule-value env vm event_type etypelen i entry s err x m w empty (enough, v) =
      let same : record s { stack = [] } ≡ s =
        ap (λ (y : List Value). record s { stack = y }) (sym empty) in
      let (s', p, w', t) = after_rule-Triggered env vm i entry x s w in
      (
        s',
        enough,
        (λ fuel k.
            exec_rule-stop fuel env vm event_type etypelen i entry s err x 0 [] m
              (rw empty (v fuel k))
            ∙ unfold after_exec in rw (same, p) refl),
        w',
        t,
      )

  -- What executing a rule whose condition has this meaning comes to, with enough fuel.
  abbrev pub Executed :
      Environment M Q N → Vm M → Bytes → ℕ → ℕ → RuleEntry → Session Q → ℕ → Answer → Type 0
  Executed env vm event_type etypelen i entry s err (value (word x)) =
      (s' : Session Q) × (enough : ℕ) × ((fuel : ℕ)
        → enough ≤ fuel
        → exec_rule fuel env vm event_type etypelen i entry s err ≡ some (s', err))
      × IsSession env s'
      × Triggered env vm i entry x s s'
  Executed env vm event_type etypelen i entry s err (raise e) =
      (left : List Value) × (enough : ℕ) × ((fuel : ℕ)
        → enough ≤ fuel
        → exec_rule fuel env vm event_type etypelen i entry s err
          ≡ some (record s { stack = left }, if not (e == 0) then e else err))
  Executed env vm event_type etypelen i entry s err _ = Unit

  Verdict-Executed :
      (env : Environment M Q N) (vm : Vm M) (event_type : Bytes) (etypelen i : ℕ)
      (entry : RuleEntry) (s : Session Q) (err : ℕ) (a : Answer)
      → Matches env event_type etypelen entry
      → IsSession env s
      → s.stack ≡ []
      → Verdict vm entry.code_offset a
      → Executed env vm event_type etypelen i entry s err a
  Verdict-Executed env vm event_type etypelen i entry s err (value (word x)) m w empty v =
      exec_rule-value env vm event_type etypelen i entry s err x m w empty v
  Verdict-Executed env vm event_type etypelen i entry s err (raise e) m w empty (left, enough, v) =
      (
        left,
        enough,
        λ fuel k.
            exec_rule-stop fuel env vm event_type etypelen i entry s err 0 e left m
              (rw empty (v fuel k))
            ∙ unfold after_exec after_rule in refl,
      )
  Verdict-Executed env vm event_type etypelen i entry s err (value (str t)) m w empty v = tt
  Verdict-Executed env vm event_type etypelen i entry s err (value (obj t)) m w empty v = tt
  Verdict-Executed env vm event_type etypelen i entry s err (value (array t)) m w empty v = tt
  Verdict-Executed env vm event_type etypelen i entry s err undefined m w empty v = tt

  -- A rule that was compiled as `emit_rule-RuleCode` says, executed for an event of its module on a machine that
  -- holds its code and its strings, with an empty stack and an empty call stack: with enough fuel, where the condition
  -- means a word, the round of the loop succeeds and keeps the error so far, and where the word is 0 nothing changes, else
  -- the rule is reported unless it is private or a sequence's, and its sequences are told; where the condition means an
  -- error, that is the error of the event, and neither triggers nor sequences change.
  pub exec_rule-eval :
      (env : Environment M Q N) (vm : Vm M) (event event_type : Bytes) (etypelen i : ℕ)
      (entry : RuleEntry) (s : Session Q) (err : ℕ) (r : Rule) (b : Builder M) (rest : Bytes)
      → (c : RuleCode event r b) → vm.code ≡ c.after.code.content ++ rest
      → Knows vm c.after
      → vm.callstack ≡ []
      → entry.code_offset ≡ b.code.size
      → Matches env event_type etypelen entry
      → IsSession env s
      → s.stack ≡ []
      → Executed env vm event_type etypelen i entry s err (eval vm.ctx event r.condition)
  exec_rule-eval env vm event event_type etypelen i entry s err r b rest c code kn calls offset m w
        empty =
      Verdict-Executed env vm event_type etypelen i entry s err (eval vm.ctx event r.condition) m w
        empty (rw offset (c.runs vm rest code kn calls))
