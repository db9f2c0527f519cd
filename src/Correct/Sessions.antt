-- ===== src/Correct/Sessions.antt =====
-- All the rules of an event: the loop of `ac_vm_exec` over rules that have a meaning.
use alca.Base.{
  ℕ, ◌+◌, ◌≤◌, ◌≡◌, refl, ap, ◌∙◌, some, List, [], ◌∷◌, ◌⊎◌, inl, inr, arith, max, Bytes,
}
use alca.HashMap.{HashMap}
use alca.Context.{word}
use alca.Compiler.Tables.{RuleEntry}
use alca.Vm.Operators.{value}
use alca.Vm.Machine.{Vm}
use alca.Vm.Sequences.{MonRule}
use alca.Vm.Exec.{Environment, Session, exec_rule, exec_rules}
use alca.Correct.Rules.{Verdict}
use alca.Correct.Events.{Matches, IsSession, Ignored, Triggered, exec_rule-Ignored, exec_rule-value}

module _ {M Q N : Type 0} ⦃h : HashMap Bytes ℕ M⦄ ⦃q : HashMap ℕ MonRule Q⦄
    ⦃n : HashMap ℕ Bytes N⦄ where
  -- Each rule is for other events, or its code returns a word.
  abbrev pub Runnable : Environment M Q N → Vm M → Bytes → ℕ → List RuleEntry → Type 0
  Runnable env vm event_type etypelen [] = Unit
  Runnable env vm event_type etypelen (entry ∷ entries) =
      (Ignored env event_type etypelen (entry ∷ [])
        ⊎ (Matches env event_type etypelen entry
            × ((x : ℕ) × Verdict vm entry.code_offset (value (word x)))))
      × Runnable env vm event_type etypelen entries

  -- The loop took the rules from index `i` on one after the other: each that is for other events left the session as it
  -- was, and each of the others returned its word, and the session was changed as `Triggered` says of this word.
  pub data Rounds (env : Environment M Q N) (vm : Vm M) (event_type : Bytes) (etypelen : ℕ)
      : ℕ → List RuleEntry → Session Q → Session Q → Type 0 where
    done : {i : ℕ} {s : Session Q} → Rounds env vm event_type etypelen i [] s s
    passed :
        {i : ℕ} {entry : RuleEntry} {entries : List RuleEntry} {s s' : Session Q}
        → Ignored env event_type etypelen (entry ∷ [])
        → Rounds env vm event_type etypelen (i + 1) entries s s'
        → Rounds env vm event_type etypelen i (entry ∷ entries) s s'
    executed :
        {i : ℕ} {entry : RuleEntry} {entries : List RuleEntry} {s s₁ s' : Session Q} (x : ℕ)
        → Matches env event_type etypelen entry
        → Verdict vm entry.code_offset (value (word x))
        → Triggered env vm i entry x s s₁
        → Rounds env vm event_type etypelen (i + 1) entries s₁ s'
        → Rounds env vm event_type etypelen i (entry ∷ entries) s s'

  -- What the loop over the rules comes to, with enough fuel.
  abbrev pub Succeeds :
      Environment M Q N → Vm M → Bytes → ℕ → ℕ → List RuleEntry → Session Q → ℕ → Type 0
  Succeeds env vm event_type etypelen i entries s err =
      (s' : Session Q) × (enough : ℕ) × ((fuel : ℕ)
        → enough ≤ fuel
        → exec_rules fuel env vm event_type etypelen i entries s err ≡ some (s', err))
      × Rounds env vm event_type etypelen i entries s s'
      × IsSession env s'
      × (s'.stack ≡ [])

  one_more :
      (env : Environment M Q N) (vm : Vm M) (event_type : Bytes) (etypelen i : ℕ)
      (entry : RuleEntry) (entries : List RuleEntry) (s s₁ : Session Q) (err few : ℕ)
      → ((fuel : ℕ)
          → few ≤ fuel
          → exec_rule fuel env vm event_type etypelen i entry s err ≡ some (s₁, err))
      → ((s' : Session Q)
          → Rounds env vm event_type etypelen (i + 1) entries s₁ s'
          → Rounds env vm event_type etypelen i (entry ∷ entries) s s')
      → Succeeds env vm event_type etypelen (i + 1) entries s₁ err
      → Succeeds env vm event_type etypelen i (entry ∷ entries) s err
  unfolding exec_rules
  one_more env vm event_type etypelen i entry entries s s₁ err few p g
        (s', enough, k, rs, w, empty) =
      (
        s',
        max few enough,
        (λ fuel l. rw (p fuel (omega (arith, l))) (k fuel (omega (arith, l)))),
        g s' rs,
        w,
        empty,
      )

  Triggered-stack :
      (env : Environment M Q N) (vm : Vm M) (i : ℕ) (entry : RuleEntry) (x : ℕ) (s s' : Session Q)
      → Triggered env vm i entry x s s'
      → s.stack ≡ []
      → s'.stack ≡ []
  Triggered-stack env vm i entry x s s' (inl (z, e)) empty =
      ap (λ (y : Session Q). y.stack) e ∙ empty
  Triggered-stack env vm i entry x s s' (inr (z, e, u)) empty = e ∙ empty

  -- On a session whose stack is empty and whose sequences are watched, over rules that are for other events or whose code
  -- returns a word, the loop ends with enough fuel and without an error of its own, after one round for each rule in its
  -- order: a rule for other events changes nothing, and a rule for this event changes the session as its word says, with its
  -- own report and what its sequences make of it. The session is left with an empty stack and watched sequences, ready for
  -- the next event.
  pub exec_rules-Succeeds :
      (env : Environment M Q N) (vm : Vm M) (event_type : Bytes) (etypelen i : ℕ)
      (entries : List RuleEntry) (s : Session Q) (err : ℕ)
      → IsSession env s
      → s.stack ≡ []
      → Runnable env vm event_type etypelen entries
      → Succeeds env vm event_type etypelen i entries s err
  exec_rules-Succeeds env vm event_type etypelen i [] s err w empty r =
      (s, 0, (λ fuel k. unfold exec_rules in refl), done, w, empty)
  exec_rules-Succeeds env vm event_type etypelen i (entry ∷ entries) s err w empty (inl g, rs) =
      one_more env vm event_type etypelen i entry entries s s err 0
        (λ fuel k. exec_rule-Ignored fuel env vm event_type etypelen i entry s err g)
        (λ s' r. passed g r)
        (exec_rules-Succeeds env vm event_type etypelen (i + 1) entries s err w empty rs)
  exec_rules-Succeeds env vm event_type etypelen i (entry ∷ entries) s err w empty
        (inr (m, (x, v)), rs) =
      let (s₁, few, p, w₁, t) =
        exec_rule-value env vm event_type etypelen i entry s err x m w empty v in
      one_more env vm event_type etypelen i entry entries s s₁ err few p
        (λ s' r. executed x m v t r)
        (exec_rules-Succeeds env vm event_type etypelen (i + 1) entries s₁ err w₁
          (Triggered-stack env vm i entry x s s₁ t empty) rs)
