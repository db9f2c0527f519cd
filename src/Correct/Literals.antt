-- ===== src/Correct/Literals.antt =====
-- The code of literals and of fields.
use alca.Base.{ℕ, ◌+◌, ◌<◌, ◌≡◌, refl, some, List, ◌∷◌, length, Bytes, arith}
use alca.Base.Words.{word_mod, le_bytes}
use alca.HashMap.{HashMap}
use alca.Syntax
use alca.Syntax.{Token, TokenType, TokenValue}
use alca.Context.{Context, Value, word, str}
use alca.Arena
use alca.Arena.Strings.{NoNul}
use alca.Arena.Invariant.{HasRoom}
use alca.Bytecode.Opcode.{Opcode, op_code}
use alca.Bytecode.Emit.{Emit, Builder, emit_arg, emit_string_arg, emit_identifier, emit_literal}
use alca.Vm.Machine.{Vm}
use alca.Vm.Operators.{Answer, value}
use alca.Vm.Run.{machine, Located}
use alca.Semantics.{literal_meaning}
use alca.Semantics.Plain.{IsPlainLiteral, name_size}
use alca.Correct.Appends.{emit_arg-Appends, length-le_bytes}
use alca.Correct.Runs.{Outcome, Outcome-to, one_step}
use alca.Correct.Instructions.{pushint_step, pushbool_step, pushstring_step, pushmodule-Outcome}
use alca.Correct.Pieces.{Ready, Piece, Piece-Appends, string_arg-Piece}
use alca.Correct.Operators.{Compiles}

module _ {M : Type 0} ⦃h : HashMap Bytes ℕ M⦄ where
  -- a literal that becomes one instruction with a number
  word-Compiles :
      {event : Bytes} {emit : Emit M} {b : Builder M} (op : Opcode) (x u : ℕ)
      → Ready event b
      → HasRoom b.code 5
      → emit b ≡ some (emit_arg op x b, 0)
      → ((vm : Vm M) (s regs : List Value)
          → Located vm b.code.size (op_code op ∷ le_bytes x)
          → length s < 256
          → Outcome vm (machine s b.code.size regs) (b.code.size + 5) s regs (value (word x)))
      → Compiles event emit 5 u 1 (λ ctx. value (word x)) b
  word-Compiles {event} {emit} {b} op x u r k e run = record {
    after = emit_arg op x b;
    bytes = op_code op ∷ le_bytes x;
    emits = e;
    piece = record {
      ready = p.ready;
      content = p.content;
      size = p.size;
      bound = omega (arith, p.bound);
      ctx = p.ctx;
      keeps = p.keeps;
    };
    sized = l;
    runs = λ vm s regs kn at room.
        Outcome-to vm (machine s b.code.size regs) s regs {ip = b.code.size + 5}
          {ip' = (emit_arg op x b).code.size} {a = value (word x)} (omega (arith, p.size, l)) refl
          (run vm s regs at (omega arith));
  }
    where
      p : Piece event b (emit_arg op x b) (op_code op ∷ le_bytes x) 0
      p = Piece-Appends r (emit_arg-Appends op x b r.code k)

      l : length (op_code op ∷ le_bytes x) ≡ 5
      l = omega (arith, length-le_bytes x)

  -- a literal that becomes one instruction with a string
  string-Compiles :
      {event : Bytes} {emit : Emit M} {b : Builder M} (op : Opcode) (t : Bytes)
      (meaning : Context M → Answer)
      → Ready event b
      → NoNul t
      → HasRoom b.code 5
      → HasRoom b.strings (length t + 1)
      → emit b ≡ some (emit_string_arg op t b, 0)
      → ((vm : Vm M) (x : ℕ) (s regs : List Value)
          → Located vm b.code.size (op_code op ∷ le_bytes x)
          → x < word_mod
          → Arena.ac_arena_get_string vm.strings x ≡ some t
          → length s < 256
          → Outcome vm (machine s b.code.size regs) (b.code.size + 5) s regs (meaning vm.ctx))
      → Compiles event emit 5 (length t + 1) 1 meaning b
  string-Compiles {event} {emit} {b} op t meaning r nn k k' e run =
      let (x, p, known, small) = string_arg-Piece op t b r nn k k' in
      let l : length (op_code op ∷ le_bytes x) ≡ 5 = omega (arith, length-le_bytes x) in
      record {
        after = emit_string_arg op t b;
        bytes = op_code op ∷ le_bytes x;
        emits = e;
        piece = p;
        sized = l;
        runs = λ vm s regs kn at room.
            Outcome-to vm _ s regs (omega (arith, p.size, l)) refl
              (run vm x s regs at small (kn t x known) (omega arith));
      }

  pub literal-Compiles :
      {event : Bytes} {b : Builder M} (t : TokenType) (v : TokenValue) (flags : ℕ)
      → IsPlainLiteral event t v
      → Ready event b
      → HasRoom b.code 5
      → HasRoom b.strings (name_size v)
      → Compiles event
          (emit_literal t v flags)
          5
          (name_size v)
          1
          (λ ctx. literal_meaning ctx event t v)
          b
  unfolding emit_literal literal_meaning
  literal-Compiles Syntax.number (Syntax.word n) flags pl r k k' =
      word-Compiles Opcode.pushint n 0 r k refl
        (λ vm s regs at l. one_step λ c. pushint_step vm n _ s regs c at pl l)
  literal-Compiles Syntax.true_kw v flags pl r k k' =
      word-Compiles Opcode.pushbool 1 (name_size v) r k refl
        (λ vm s regs at l. one_step λ c. pushbool_step vm 1 _ s regs c at (omega arith) l)
  literal-Compiles Syntax.false_kw v flags pl r k k' =
      word-Compiles Opcode.pushbool 0 (name_size v) r k refl
        (λ vm s regs at l. one_step λ c. pushbool_step vm 0 _ s regs c at (omega arith) l)
  literal-Compiles Syntax.string (Syntax.text t) flags pl r k k' =
      string-Compiles Opcode.pushstring t (λ ctx. value (str t)) r pl k k' refl
        (λ vm x s regs at lt g l. one_step λ c. pushstring_step vm x _ t s regs c at lt g l)
  literal-Compiles {event} {b} Syntax.identifier (Syntax.text t) flags (nn, e) r k k' =
      string-Compiles Opcode.pushmodule t _ r nn k k'
        (unfold emit_identifier in rw (r.module_name, e))
        (λ vm x s regs at lt g l. rw e (pushmodule-Outcome vm x b.code.size t s regs at lt g l))
  literal-Compiles Syntax.number Syntax.null flags pl r k k' = absurd pl
  literal-Compiles Syntax.number (Syntax.text s) flags pl r k k' = absurd pl
  literal-Compiles Syntax.string Syntax.null flags pl r k k' = absurd pl
  literal-Compiles Syntax.string (Syntax.word s) flags pl r k k' = absurd pl
  literal-Compiles Syntax.identifier Syntax.null flags pl r k k' = absurd pl
  literal-Compiles Syntax.identifier (Syntax.word s) flags pl r k k' = absurd pl
  literal-Compiles _ v flags pl r k k' = absurd pl
