-- ===== src/Vm/Exec.antt =====
-- `ac_vm_exec`: the rules of an event, on a little-endian host.
use alca.Base.{
  ℕ, ◌+◌, ◌-◌, not, ◌||◌, Option, none, some, ◌>>=◌, List, [], ◌∷◌, ◌==◌, ltb, if◌then◌else◌,
  length, drop, take, Bytes,
}
use alca.Base.Words.{read_le}
use alca.HashMap.{HashMap}
use alca.Arena.{c_string, ac_arena_get_string}
use alca.Context.{Context, Value, has_flag, ac_context_get}
use alca.Packet.{netint}
use alca.Compiler.Tables.{RuleEntry, SequenceEntry, sequence_rule, private_rule}
use alca.Vm.Text.{strncmp_eq}
use alca.Vm.Machine.{Vm, Step, stop, ac_vm_exec_code}
use alca.Vm.Sequences.{
  Timeval, MonRule, Sequence, Triggers, rule_trigger, vm_report_triggered, vm_update_sequences,
}

-- What the execution of an event reads and does not change. `modules` is the map that `ac_vm_new` makes from
-- the ordinals of modules to their names; `clock` is what `ac_gettimeofday` says while the rule of an index is executed;
-- `unmarshal` is the modules' code that reads an event's data into an object, or refuses it.
pub record Environment (M Q N : Type 0) : Type 0 where
  pub callbacks : List (Option ℕ)
  pub rules : List RuleEntry
  pub sequences : List SequenceEntry
  pub modules : N
  pub clock : ℕ → Timeval
  pub unmarshal : Context M → ℕ → Bytes → Option (Context M)

-- What it changes. No event empties the stack.
pub record Session (Q : Type 0) : Type 0 where
  pub stack : List Value
  pub sequences : List (Sequence Q)
  pub triggers : Triggers

module _ {M Q N : Type 0} ⦃h : HashMap Bytes ℕ M⦄ ⦃q : HashMap ℕ MonRule Q⦄
    ⦃n : HashMap ℕ Bytes N⦄ where
  -- A rule was executed with this result. The rule's own report is left out where it is private or was
  -- written in a sequence.
  unfoldable pub after_rule :
      Environment M Q N → Vm M → ℕ → RuleEntry → ℕ → Session Q → Option (Session Q)
  after_rule env vm i entry triggered s =
      if triggered == 0
      then some s
      else let tv = env.clock i in
        let name = ac_arena_get_string vm.strings entry.name_offset in
        let t =
          if has_flag entry.flags sequence_rule || has_flag entry.flags private_rule
          then s.triggers
          else vm_report_triggered env.callbacks rule_trigger name tv.tv_sec s.triggers in
        vm_update_sequences vm.strings env.callbacks env.sequences i
          (record { name = name; trigger = tv }) s.sequences t
        >>= λ (ss, t'). some (record s { sequences = ss; triggers = t' })

  unfoldable pub after_exec :
      Environment M Q N → Vm M → ℕ → RuleEntry → Step → Session Q → ℕ → Option (Session Q × ℕ)
  after_exec env vm i entry (stop triggered e stack) s err =
      after_rule env vm i entry triggered (record s { stack = stack }) >>= λ s'.
      some (s', if not (e == 0) then e else err)
  after_exec env vm i entry _ s err = none

  -- One round of the loop over the rules; `err` is the last error so far. `none` is undefined behaviour, or
  -- too little fuel.
  unfoldable pub exec_rule :
      ℕ
      → Environment M Q N
      → Vm M
      → Bytes
      → ℕ
      → ℕ
      → RuleEntry
      → Session Q
      → ℕ
      → Option (Session Q × ℕ)
  exec_rule fuel env vm event_type etypelen i entry s err =
      if entry.module_ordinal == 0
      then some (s, err)
      else elim (n.get env.modules entry.module_ordinal) [
        | none ↦ some (s, err)
        | some name ↦
            if strncmp_eq name event_type etypelen
            then after_exec env vm i entry (ac_vm_exec_code fuel vm entry.code_offset s.stack) s err
            else some (s, err)
      ]

  unfoldable pub exec_rules :
      ℕ
      → Environment M Q N
      → Vm M
      → Bytes
      → ℕ
      → ℕ
      → List RuleEntry
      → Session Q
      → ℕ
      → Option (Session Q × ℕ)
  exec_rules fuel env vm event_type etypelen i [] s err = some (s, err)
  exec_rules fuel env vm event_type etypelen i (entry ∷ entries) s err =
      exec_rule fuel env vm event_type etypelen i entry s err >>= λ (s₁, err₁).
      exec_rules fuel env vm event_type etypelen (i + 1) entries s₁ err₁

  -- The rules run against the context that `unmarshal` leaves; what `ac_context_object_clear_module_data` clears
  -- behind them is the modules' state and no part of the session.
  unfoldable pub exec_module :
      ℕ → Environment M Q N → Vm M → ℕ → Bytes → ℕ → Bytes → Session Q → Option (Session Q × ℕ)
  exec_module fuel env vm etypever event_type etypelen evtdata s =
      elim (ac_context_get vm.ctx event_type) [
        | none ↦ some (s, 14)
        | some mod_object ↦ elim (vm.ctx.heap mod_object) [
          | none ↦ none
          | some object ↦
              if not (object.version == etypever)
              then some (s, 23)
              else elim (env.unmarshal vm.ctx mod_object evtdata) [
                | none ↦ some (s, 22)
                | some ctx ↦
                    exec_rules fuel env (record vm { ctx = ctx }) event_type etypelen 0 env.rules s
                      0
              ]
        ]
      ]

  -- `rest` is the event behind its first eight bytes.
  unfoldable pub exec_event :
      ℕ → Environment M Q N → Vm M → ℕ → Bytes → Session Q → ℕ → ℕ → Option (Session Q × ℕ)
  exec_event fuel env vm size rest s etypever etypelen =
      if ltb (size - 8) etypelen
      then some (s, 22)
      else (c_string rest >>= λ event_type.
          exec_module fuel env vm etypever event_type etypelen
            (take (size - 8 - etypelen) (drop etypelen rest)) s)

  unfoldable pub ac_vm_exec :
      ℕ → Environment M Q N → Vm M → Bytes → Session Q → Option (Session Q × ℕ)
  ac_vm_exec fuel env vm event s =
      let s₀ = record s { triggers = record s.triggers { ntriggers = 0 } } in
      if ltb (length event) 8
      then some (s₀, 22)
      else (read_le event >>= λ etypever. read_le (drop 4 event) >>= λ etypelen.
          exec_event fuel env vm (length event) (drop 8 event) s₀ (netint etypever)
            (netint etypelen))
