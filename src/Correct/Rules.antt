-- ===== src/Correct/Rules.antt =====
-- The code of a rule, from `ac_bytecode_emit_rule` to the result of `ac_vm_exec_code`.
use alca.Base.{
  ℕ, ◌+◌, ◌≤◌, ◌≡◌, refl, sym, ap, ◌∙◌, true, false, some, List, [], ◌∷◌, ◌++◌, append_assoc, Bytes,
  length, length-append, arith,
}
use alca.HashMap.{HashMap}
use alca.Syntax
use alca.Syntax.{Expr, Token, Rule}
use alca.Context.{Value, word, str, obj, array, ac_context_get_module}
use alca.Arena.Invariant.{IsArena, HasRoom}
use alca.Arena.Strings.{IsSound, get_string_known}
use alca.Bytecode.Opcode.{Opcode, op_code}
use alca.Bytecode.Emit.{Builder, emit_code, emit_body, ac_bytecode_emit_rule}
use alca.Vm.Machine.{
  Vm, stop, Callee, start, step, exec_op, exec_hlt, contains_offset, ac_vm_exec_code,
}
use alca.Vm.Operators.{Answer, value, raise, undefined}
use alca.Vm.Run.{
  machine, Located, Located-left, Located-right, Comes, Comes-Steps, Comes-stop, step-Located,
}
use alca.Semantics.{eval}
use alca.Semantics.Plain.{IsPlain, code_size, string_size, depth}
use alca.Correct.Runs.{Outcome}
use alca.Correct.Pieces.{Ready, Knows, Piece}
use alca.Correct.Operators.{code-Piece}
use alca.Correct.Compile.{expr-Compiles}

module _ {M : Type 0} ⦃h : HashMap Bytes ℕ M⦄ where
  -- With enough fuel `ac_vm_exec_code` returns the word as its result, or the error.
  abbrev pub Verdict : Vm M → ℕ → Answer → Type 0
  Verdict vm offset (value (word n)) =
      (enough : ℕ) × ((fuel : ℕ) → enough ≤ fuel → ac_vm_exec_code fuel vm offset [] ≡ stop n 0 [])
  Verdict vm offset (raise e) =
      (s : List Value) × (enough : ℕ) × ((fuel : ℕ)
        → enough ≤ fuel
        → ac_vm_exec_code fuel vm offset [] ≡ stop 0 e s)
  Verdict vm offset _ = Unit

  hlt_step :
      (vm : Vm M) (callee : Callee) (n ip : ℕ) (regs : List Value)
      → Located vm ip (op_code Opcode.hlt ∷ [])
      → step vm callee (machine (word n ∷ []) ip regs) ≡ stop n 0 []
  unfolding exec_op exec_hlt
  hlt_step vm callee n ip regs at =
      step-Located Opcode.hlt (machine (word n ∷ []) ip regs) callee tt at

  exec_code-Comes :
      (vm : Vm M) (offset r err : ℕ) (s : List Value)
      → vm.callstack ≡ []
      → Comes vm (start offset []) (stop r err s)
      → (enough : ℕ) × ((fuel : ℕ)
          → enough ≤ fuel
          → ac_vm_exec_code fuel vm offset [] ≡ stop r err s)
  unfolding ac_vm_exec_code contains_offset
  exec_code-Comes vm offset r err s e (n, p) =
      let quiet : contains_offset vm.callstack offset ≡ false =
        ap (λ (c : List ℕ). contains_offset c offset) e in
      (n, λ fuel k. rw quiet (p fuel k))

  -- a value on an empty stack in front of OP_HLT
  Outcome-Verdict :
      (vm : Vm M) (offset ip : ℕ) (regs : List Value) (a : Answer)
      → vm.callstack ≡ []
      → start offset [] ≡ machine [] offset regs
      → Located vm ip (op_code Opcode.hlt ∷ [])
      → Outcome vm (machine [] offset regs) ip [] regs a
      → Verdict vm offset a
  Outcome-Verdict vm offset ip regs (value (word n)) c e at o = exec_code-Comes vm offset n 0 [] c (
      rw e (
        Comes-Steps o (
          Comes-stop vm (machine (word n ∷ []) ip regs) n 0 []
            λ callee. hlt_step vm callee n ip regs at)))
  Outcome-Verdict vm offset ip regs (value (str t)) c e at o = tt
  Outcome-Verdict vm offset ip regs (value (obj t)) c e at o = tt
  Outcome-Verdict vm offset ip regs (value (array t)) c e at o = tt
  Outcome-Verdict vm offset ip regs (raise x) c e at (m, s, p, k) =
      let (n, q) =
        exec_code-Comes vm offset 0 x s c (rw e (Comes-Steps p (Comes-stop vm m 0 x s k))) in
      (s, n, q)
  Outcome-Verdict vm offset ip regs undefined c e at o = tt

  -- A builder whose arenas are as the code keeps them.
  pub record IsBuilder (b : Builder M) : Type 0 where
    pub code : IsArena b.code
    pub strings : IsArena b.strings
    pub sound : IsSound b.strings

  -- What the compiler makes of a rule with the condition, behind the code of `b`.
  pub record RuleCode (event : Bytes) (r : Rule) (b : Builder M) : Type 0 where
    pub after : Builder M
    pub emits : ac_bytecode_emit_rule r b ≡ some (after, 0)
    pub valid : IsBuilder after
    pub code : Bytes
    pub piece : Piece event b after code (string_size r.condition)
    pub sized : length code ≡ code_size r.condition + 1
    pub runs :
        (vm : Vm M) (rest : Bytes)
        → vm.code ≡ after.code.content ++ rest
        → Knows vm after
        → vm.callstack ≡ []
        → Verdict vm b.code.size (eval vm.ctx event r.condition)

  -- The rule for an event of a known module, whose condition is a plain expression that takes at most 256
  -- values of the stack: where code and strings have room, it compiles without an error to a builder that is
  -- well formed again, and on a machine whose code holds what the builder has, whose string section has the
  -- builder's strings and whose call stack is empty, `ac_vm_exec_code` at the rule's offset returns, with enough
  -- fuel, the word that the condition means, or its error with the result 0.
  pub emit_rule-RuleCode :
      (event : Bytes) (r : Rule) (t : Token) (b : Builder M)
      → r.event ≡ some t
      → t.value ≡ Syntax.text event
      → r.external ≡ false
      → ac_context_get_module b.ctx event ≡ true
      → IsPlain event r.condition
      → depth r.condition ≤ 256
      → IsBuilder b
      → HasRoom b.code (code_size r.condition + 1)
      → HasRoom b.strings (string_size r.condition)
      → RuleCode event r b
  emit_rule-RuleCode event r t b e v x m p d w k k' =
      let b₀ : Builder M = record b { module_name = some event } in
      let w₀ : Ready event b₀ = record {
        code = w.code;
        strings = w.strings;
        sound = w.sound;
        module_name = refl;
      } in
      let c = expr-Compiles r.condition b₀ p w₀ (omega (arith, k)) k' in
      let q = code-Piece Opcode.hlt c.piece (rw c.sized k) in
      record {
        after = emit_code Opcode.hlt c.after;
        emits = unfold ac_bytecode_emit_rule emit_body in rw (e, v, m, x, c.emits);
        valid = record { code = q.ready.code; strings = q.ready.strings; sound = q.ready.sound };
        code = c.bytes ++ (op_code Opcode.hlt ∷ []);
        piece = record {
          ready = q.ready;
          content = q.content;
          size = q.size;
          bound = q.bound;
          ctx = q.ctx;
          keeps = q.keeps;
        };
        sized = omega (arith, length-append c.bytes (op_code Opcode.hlt ∷ []), c.sized);
        runs = λ vm rest code kn stack.
            let at : Located vm b.code.size (c.bytes ++ (op_code Opcode.hlt ∷ [])) = record {
              before = b.code.content;
              after = rest;
              code =
                  code
                  ∙ ap (λ y. y ++ rest) q.content
                  ∙ append_assoc b.code.content (c.bytes ++ (op_code Opcode.hlt ∷ [])) rest;
              offset = sym w.code.sized;
            } in
            Outcome-Verdict vm b.code.size c.after.code.size _ (eval vm.ctx event r.condition) stack
              refl (rw (← c.piece.size) at (Located-right c.bytes (op_code Opcode.hlt ∷ []) at))
              (c.runs vm [] _ (unfold emit_code in kn)
                (Located-left c.bytes (op_code Opcode.hlt ∷ []) at) (omega (arith, d)));
      }

  -- A machine whose string section is the builder's has its strings.
  pub same_strings-Knows :
      (vm : Vm M) (b : Builder M) → IsSound b.strings → vm.strings ≡ b.strings → Knows vm b
  same_strings-Knows vm b v e t o g = rw e (get_string_known b.strings t o v g)
