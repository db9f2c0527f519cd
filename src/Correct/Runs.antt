-- ===== src/Correct/Runs.antt =====
-- What running a piece of code comes to, and how pieces are put together.
use alca.Base.{ℕ, ◌+◌, ◌<◌, ◌≡◌, refl, ◌∙◌, subst, true, List, ◌∷◌, length, arith, Bytes}
use alca.HashMap.{HashMap}
use alca.Context.{Value}
use alca.Bytecode.Opcode.{Opcode, op_code, HasCase}
use alca.Vm.Machine.{
  Vm, Machine, continue, stop, Callee, push, answer, exec_op, exec_unary, exec_binary, step,
}
use alca.Vm.Operators.{Answer, value, raise, undefined, binary_op, unary_op}
use alca.Vm.Run.{machine, Located, Steps, here, next, Steps-trans, step-Located}
use alca.Semantics.{◌>>=◌}
use alca.Semantics.Plain.{is_unary, is_binary}

pub push_room :
    (v : Value) (s regs : List Value) (ip : ℕ)
    → length s < 256
    → push v (machine s ip regs) ≡ continue (machine (v ∷ s) ip regs)
unfolding push
push_room v s regs ip k = ground arith

module _ {M : Type 0} ⦃h : HashMap Bytes ℕ M⦄ where
  -- From `m` the machine pushes the value on `s` and goes on at `ip`, or it stops with the error. Of an
  -- undefined answer nothing is said.
  abbrev pub Outcome : Vm M → Machine → ℕ → List Value → List Value → Answer → Type 0
  Outcome vm m ip s regs (value v) = Steps vm m (machine (v ∷ s) ip regs)
  Outcome vm m ip s regs (raise e) =
      (m₁ : Machine) × (s₁ : List Value) × Steps vm m m₁
      × ((callee : Callee) → step vm callee m₁ ≡ stop 0 e s₁)
  Outcome vm m ip s regs undefined = Unit

  pub Outcome-after :
      {vm : Vm M} {m m₁ : Machine} (ip : ℕ) (s regs : List Value) (a : Answer)
      → Steps vm m m₁
      → Outcome vm m₁ ip s regs a
      → Outcome vm m ip s regs a
  Outcome-after ip s regs (value v) p q = Steps-trans p q
  Outcome-after ip s regs (raise e) p (m₂, s₂, q, k) = (m₂, s₂, Steps-trans p q, k)
  Outcome-after ip s regs undefined p q = tt

  pub Outcome-bind :
      (vm : Vm M) (m : Machine) (ip₁ ip₂ : ℕ) (s s₂ regs : List Value) (a : Answer)
      (f : Value → Answer)
      → Outcome vm m ip₁ s regs a
      → ((v : Value) → Outcome vm (machine (v ∷ s) ip₁ regs) ip₂ s₂ regs (f v))
      → Outcome vm m ip₂ s₂ regs (a >>= f)
  Outcome-bind vm m ip₁ ip₂ s s₂ regs (value v) f p k = Outcome-after ip₂ s₂ regs (f v) p (k v)
  Outcome-bind vm m ip₁ ip₂ s s₂ regs (raise e) f p k = p
  Outcome-bind vm m ip₁ ip₂ s s₂ regs undefined f p k = tt

  pub Outcome-to :
      (vm : Vm M) (m : Machine) (s regs : List Value) {ip ip' : ℕ} {a a' : Answer}
      → ip ≡ ip'
      → a ≡ a'
      → Outcome vm m ip s regs a
      → Outcome vm m ip' s regs a'
  Outcome-to vm m s regs {ip} {ip'} {a} {a'} p q o =
      subst (λ (x : ℕ). Outcome vm m x s regs a') p
        (subst (λ (x : Answer). Outcome vm m ip s regs x) q o)

  pub one_step :
      {vm : Vm M} {m m₁ : Machine}
      → ((callee : Callee) → step vm callee m ≡ continue m₁)
      → Steps vm m m₁
  one_step e = next here e

  pub answer-Outcome :
      (vm : Vm M) (m : Machine) (ip : ℕ) (s regs : List Value) (a : Answer)
      → length s < 256
      → ((callee : Callee) → step vm callee m ≡ answer a (machine s ip regs))
      → Outcome vm m ip s regs a
  unfolding answer
  answer-Outcome vm m ip s regs (value v) k e = one_step (λ c. e c ∙ push_room v s regs ip k)
  answer-Outcome vm m ip s regs (raise x) k e = (m, s, here, e)
  answer-Outcome vm m ip s regs undefined k e = tt

  exec_op-binary :
      (op : Opcode) (vm : Vm M) (callee : Callee) (m : Machine)
      → is_binary op ≡ true
      → HasCase op × (exec_op op vm callee m ≡ exec_binary op m)
  unfolding exec_op is_binary
  exec_op-binary Opcode.hlt vm callee m e = cc
  exec_op-binary Opcode.push vm callee m e = cc
  exec_op-binary Opcode.add vm callee m e = (tt, refl)
  exec_op-binary op vm callee m e = ground arith

  exec_op-unary :
      (op : Opcode) (vm : Vm M) (callee : Callee) (m : Machine)
      → is_unary op ≡ true
      → HasCase op × (exec_op op vm callee m ≡ exec_unary op m)
  unfolding exec_op is_unary
  exec_op-unary Opcode.hlt vm callee m e = cc
  exec_op-unary Opcode.push vm callee m e = cc
  exec_op-unary op vm callee m e = ground arith

  pub binary-Outcome :
      {vm : Vm M} {rest : Bytes} (op : Opcode) (ip : ℕ) (s regs : List Value) (x y : Value)
      → is_binary op ≡ true
      → Located vm ip (op_code op ∷ rest)
      → length s < 256
      → Outcome vm (machine (y ∷ x ∷ s) ip regs) (ip + 1) s regs (binary_op op x y)
  unfolding exec_binary
  binary-Outcome {vm} op ip s regs x y e at k =
      answer-Outcome vm m (ip + 1) s regs (binary_op op x y) k go
    where
      m : Machine
      m = machine (y ∷ x ∷ s) ip regs

      go :
          (callee : Callee) → step vm callee m ≡ answer (binary_op op x y) (machine s (ip + 1) regs)
      go callee =
          let (c, q) = exec_op-binary op vm callee (record m { ip = ip + 1 }) e in
          step-Located op m callee c at ∙ q

  pub unary-Outcome :
      {vm : Vm M} {rest : Bytes} (op : Opcode) (ip : ℕ) (s regs : List Value) (x : Value)
      → is_unary op ≡ true
      → Located vm ip (op_code op ∷ rest)
      → length s < 256
      → Outcome vm (machine (x ∷ s) ip regs) (ip + 1) s regs (unary_op op x)
  unfolding exec_unary
  unary-Outcome {vm} op ip s regs x e at k =
      answer-Outcome vm m (ip + 1) s regs (unary_op op x) k go
    where
      m : Machine
      m = machine (x ∷ s) ip regs

      go : (callee : Callee) → step vm callee m ≡ answer (unary_op op x) (machine s (ip + 1) regs)
      go callee =
          let (c, q) = exec_op-unary op vm callee (record m { ip = ip + 1 }) e in
          step-Located op m callee c at ∙ q
