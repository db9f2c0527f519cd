-- ===== src/Correct/Instructions.antt =====
-- One round of the interpreter at each instruction that a plain expression uses.
use alca.Base.{
  ℕ, ◌+◌, ◌<◌, ◌≡◌, refl, ◌∙◌, Bool, true, false, Option, none, some, List, ◌∷◌, length, Bytes,
  arith, if◌then◌else◌, inl, inr, Option-cases,
}
use alca.Base.Words.{word_mod, le_bytes}
use alca.HashMap.{HashMap}
use alca.Arena.{ac_arena_get_string}
use alca.Context.{
  Value, word, str, obj, array, ac_context_get, ac_context_object_get, ac_context_object_get_data,
  ac_context_object_get_array_item,
}
use alca.Bytecode.Opcode.{Opcode, op_code}
use alca.Vm.Machine.{
  Vm, Machine, continue, Callee, step, exec_op, exec_branch, exec_jmp, exec_push_word,
  exec_push_string, exec_push_module, exec_field, exec_object, exec_index, push_module, push_item,
  answer,
}
use alca.Vm.Operators.{truth}
use alca.Vm.Run.{machine, Located, arg-Located, step-Located}
use alca.Correct.Runs.{Outcome, push_room, one_step, answer-Outcome}
use alca.Syntax
use alca.Semantics.{index_meaning, load_meaning, part_meaning, module_answer, item_answer}

push_module-answer : (o : Option ℕ) (m : Machine) → push_module o m ≡ answer (module_answer o) m
unfolding answer
push_module-answer none m = refl
push_module-answer (some o) m = refl

push_item-answer : (o : Option Value) (m : Machine) → push_item o m ≡ answer (item_answer o) m
unfolding answer
push_item-answer none m = refl
push_item-answer (some v) m = refl

module _ {M : Type 0} ⦃h : HashMap Bytes ℕ M⦄ where
  pub jtrue_step :
      (vm : Vm M) (x n ip : ℕ) (s regs : List Value) (callee : Callee)
      → Located vm ip (op_code Opcode.jtrue ∷ le_bytes x)
      → x < word_mod
      → step vm callee (machine (word n ∷ s) ip regs)
        ≡ continue (machine (word n ∷ s) (if truth n then x else ip + 5) regs)
  unfolding exec_op exec_branch
  jtrue_step vm x n ip s regs callee at k =
      let e : ip + 1 + 4 ≡ ip + 5 = omega arith in
      step-Located Opcode.jtrue (machine (word n ∷ s) ip regs) callee tt at
      ∙ rw (arg-Located x at k, e) (split (truth n))
    where
      split :
          (b : Bool)
          → continue (if b then machine (word n ∷ s) x regs else machine (word n ∷ s) (ip + 5) regs)
            ≡ continue (machine (word n ∷ s) (if b then x else ip + 5) regs)
      split true = refl
      split false = refl

  pub jmp_step :
      (vm : Vm M) (x ip : ℕ) (s regs : List Value) (callee : Callee)
      → Located vm ip (op_code Opcode.jmp ∷ le_bytes x)
      → x < word_mod
      → step vm callee (machine s ip regs) ≡ continue (machine s x regs)
  unfolding exec_op exec_jmp
  jmp_step vm x ip s regs callee at k =
      step-Located Opcode.jmp (machine s ip regs) callee tt at ∙ rw (arg-Located x at k)

  pub pushbool_step :
      (vm : Vm M) (x ip : ℕ) (s regs : List Value) (callee : Callee)
      → Located vm ip (op_code Opcode.pushbool ∷ le_bytes x)
      → x < word_mod
      → length s < 256
      → step vm callee (machine s ip regs) ≡ continue (machine (word x ∷ s) (ip + 5) regs)
  unfolding exec_op exec_push_word
  pushbool_step vm x ip s regs callee at k l =
      let e : ip + 1 + 4 ≡ ip + 5 = omega arith in
      step-Located Opcode.pushbool (machine s ip regs) callee tt at
      ∙ rw (arg-Located x at k, e) (push_room (word x) s regs (ip + 5) l)

  pub pushint_step :
      (vm : Vm M) (x ip : ℕ) (s regs : List Value) (callee : Callee)
      → Located vm ip (op_code Opcode.pushint ∷ le_bytes x)
      → x < word_mod
      → length s < 256
      → step vm callee (machine s ip regs) ≡ continue (machine (word x ∷ s) (ip + 5) regs)
  unfolding exec_op exec_push_word
  pushint_step vm x ip s regs callee at k l =
      let e : ip + 1 + 4 ≡ ip + 5 = omega arith in
      step-Located Opcode.pushint (machine s ip regs) callee tt at
      ∙ rw (arg-Located x at k, e) (push_room (word x) s regs (ip + 5) l)

  pub pushstring_step :
      (vm : Vm M) (x ip : ℕ) (t : Bytes) (s regs : List Value) (callee : Callee)
      → Located vm ip (op_code Opcode.pushstring ∷ le_bytes x)
      → x < word_mod
      → ac_arena_get_string vm.strings x ≡ some t
      → length s < 256
      → step vm callee (machine s ip regs) ≡ continue (machine (str t ∷ s) (ip + 5) regs)
  unfolding exec_op exec_push_string
  pushstring_step vm x ip t s regs callee at k g l =
      let e : ip + 1 + 4 ≡ ip + 5 = omega arith in
      step-Located Opcode.pushstring (machine s ip regs) callee tt at
      ∙ rw (arg-Located x at k, e, g) (push_room (str t) s regs (ip + 5) l)

  -- OP_PUSHMODULE pushes the object of the event, or stops where the context has none.
  pub pushmodule-Outcome :
      (vm : Vm M) (x ip : ℕ) (t : Bytes) (s regs : List Value)
      → Located vm ip (op_code Opcode.pushmodule ∷ le_bytes x)
      → x < word_mod
      → ac_arena_get_string vm.strings x ≡ some t
      → length s < 256
      → Outcome vm (machine s ip regs) (ip + 5) s regs (module_answer (ac_context_get vm.ctx t))
  pushmodule-Outcome vm x ip t s regs at k g l =
      answer-Outcome vm _ (ip + 5) s regs (module_answer (ac_context_get vm.ctx t)) l go
    where
      go :
          (callee : Callee)
          → step vm callee (machine s ip regs)
            ≡ answer (module_answer (ac_context_get vm.ctx t)) (machine s (ip + 5) regs)
      go callee =
          unfold exec_op exec_push_module in
          let e : ip + 1 + 4 ≡ ip + 5 = omega arith in
          step-Located Opcode.pushmodule (machine s ip regs) callee tt at
          ∙ rw (arg-Located x at k, e, g) (push_module-answer (ac_context_get vm.ctx t) _)

  pub index-Outcome :
      (vm : Vm M) (ip : ℕ) (rest : Bytes) (v w : Value) (s regs : List Value)
      → Located vm ip (op_code Opcode.index ∷ rest)
      → length s < 256
      → Outcome vm (machine (w ∷ v ∷ s) ip regs) (ip + 1) s regs (index_meaning vm.ctx v w)
  unfolding index_meaning
  index-Outcome vm ip rest (obj o) (word i) s regs at l = elim (Option-cases (vm.ctx.heap o)) [
    | inl q ↦ rw q tt
    | inr (x, q) ↦ rw q (
        answer-Outcome vm _ (ip + 1) s regs (item_answer (ac_context_object_get_array_item x i)) l
          λ callee.
            unfold exec_op exec_index in
            step-Located Opcode.index (machine (word i ∷ obj o ∷ s) ip regs) callee tt at
            ∙ rw q (push_item-answer (ac_context_object_get_array_item x i) _))
  ]
  index-Outcome vm ip rest (word n) (word i) s regs at l = tt
  index-Outcome vm ip rest (str t) (word i) s regs at l = tt
  index-Outcome vm ip rest (array t) (word i) s regs at l = tt
  index-Outcome vm ip rest v _ s regs at l = tt

  pub object-Outcome :
      (vm : Vm M) (ip : ℕ) (rest : Bytes) (v : Value) (s regs : List Value)
      → Located vm ip (op_code Opcode.object ∷ rest)
      → length s < 256
      → Outcome vm (machine (v ∷ s) ip regs) (ip + 1) s regs (load_meaning vm.ctx v)
  unfolding load_meaning
  object-Outcome vm ip rest (obj o) s regs at l =
      elim (Option-cases (ac_context_object_get_data vm.ctx o)) [
        | inl q ↦ rw q tt
        | inr (x, q) ↦ rw q (
            one_step λ callee.
              unfold exec_op exec_object in
              step-Located Opcode.object (machine (obj o ∷ s) ip regs) callee tt at
              ∙ rw q (push_room x s regs (ip + 1) l))
      ]
  object-Outcome vm ip rest (word n) s regs at l = tt
  object-Outcome vm ip rest (str t) s regs at l = tt
  object-Outcome vm ip rest (array t) s regs at l = tt

  pub field-Outcome :
      (vm : Vm M) (x ip : ℕ) (t : Bytes) (v : Value) (s regs : List Value)
      → Located vm ip (op_code Opcode.field ∷ le_bytes x)
      → x < word_mod
      → ac_arena_get_string vm.strings x ≡ some t
      → length s < 256
      → Outcome vm (machine (v ∷ s) ip regs) (ip + 5) s regs (part_meaning vm.ctx (Syntax.text t) v)
  unfolding part_meaning
  field-Outcome vm x ip t (obj o) s regs at k g l =
      elim (Option-cases (ac_context_object_get vm.ctx o t)) [
        | inl q ↦ rw q tt
        | inr (f, q) ↦ rw q (
            one_step λ callee.
              unfold exec_op exec_field in
              let e : ip + 1 + 4 ≡ ip + 5 = omega arith in
              step-Located Opcode.field (machine (obj o ∷ s) ip regs) callee tt at
              ∙ rw (arg-Located x at k, e, g, q) (push_room (obj f) s regs (ip + 5) l))
      ]
  field-Outcome vm x ip t (word n) s regs at k g l = tt
  field-Outcome vm x ip t (str n) s regs at k g l = tt
  field-Outcome vm x ip t (array n) s regs at k g l = tt
