-- ===== src/Correct/Operators.antt =====
-- The code of unary and binary operators, and of array items.
use alca.Base.{
  ℕ, ◌+◌, ◌≤◌, ◌<◌, ◌≡◌, refl, false, some, List, [], ◌∷◌, ◌++◌, max, length, length-append, Bytes,
  arith,
}
use alca.HashMap.{HashMap}
use alca.Syntax
use alca.Syntax.{Token, TokenType, same_type}
use alca.Context.{Context, Value}
use alca.Arena.Invariant.{HasRoom}
use alca.Bytecode.Opcode.{Opcode, op_code}
use alca.Bytecode.Emit.{
  Emit, Builder, emit_code, emit_operator, bytecode_emit_unary, bytecode_emit_binary,
  bytecode_emit_index,
}
use alca.Vm.Machine.{Vm}
use alca.Vm.Operators.{Answer}
use alca.Vm.Run.{machine, Located, Located-left, Located-right}
use alca.Semantics.{◌>>=◌, index_meaning}
use alca.Semantics.Operators.{binary_meaning, unary_meaning}
use alca.Semantics.Plain.{HasBinary, HasUnary}
use alca.Semantics.Agree.{binary_agree, unary_agree}
use alca.Correct.Appends.{emit_code-Appends}
use alca.Correct.Runs.{Outcome, Outcome-to, Outcome-bind, binary-Outcome, unary-Outcome}
use alca.Correct.Instructions.{index-Outcome}
use alca.Correct.Pieces.{Piece, Piece-trans, Piece-Appends, Knows, Knows-Piece}

module _ {M : Type 0} ⦃h : HashMap Bytes ℕ M⦄ where
  -- From builder `b`, `emit` succeeds, adds `size` bytes of code and at most `used` of strings, and the
  -- code that it adds computes the meaning, with `room` values on the stack at most.
  pub record Compiles (event : Bytes) (emit : Emit M) (size used room : ℕ)
      (meaning : Context M → Answer) (b : Builder M) : Type 0 where
    pub after : Builder M
    pub bytes : Bytes
    pub emits : emit b ≡ some (after, 0)
    pub piece : Piece event b after bytes used
    pub sized : length bytes ≡ size
    pub runs :
        (vm : Vm M) (s regs : List Value)
        → Knows vm after
        → Located vm b.code.size bytes
        → length s + room ≤ 256
        → Outcome vm (machine s b.code.size regs) after.code.size s regs (meaning vm.ctx)

  -- an instruction without operand behind a piece
  pub code-Piece :
      {event : Bytes} {b b₁ : Builder M} {bytes : Bytes} {used : ℕ} (op : Opcode)
      → Piece event b b₁ bytes used
      → HasRoom b.code (length bytes + 1)
      → Piece event b (emit_code op b₁) (bytes ++ (op_code op ∷ [])) used
  code-Piece op p k =
      let q = Piece-Appends p.ready (emit_code-Appends op _ p.ready.code (omega (arith, p.size))) in
      let r = Piece-trans p q in
      record {
        ready = r.ready;
        content = r.content;
        size = r.size;
        bound = omega (arith, r.bound);
        ctx = r.ctx;
        keeps = r.keeps;
      }

  pub unary-Compiles :
      {event : Bytes} {right : Emit M} {size used room : ℕ} {meaning : Context M → Answer}
      {b : Builder M} (op : Token)
      → HasUnary op.type
      → 1 ≤ room
      → HasRoom b.code (size + 1)
      → Compiles event right size used room meaning b
      → Compiles event
          (bytecode_emit_unary op right)
          (size + 1)
          used
          room
          (λ ctx. meaning ctx >>= unary_meaning op.type)
          b
  unfolding bytecode_emit_unary emit_operator emit_code
  unary-Compiles {event} {right} {size} {used} {room} {meaning} {b} op (o, e, i) one k c = record {
    after = emit_code o c.after;
    bytes = c.bytes ++ (op_code o ∷ []);
    emits = rw (c.emits, e);
    piece = p;
    sized = omega (arith, length-append c.bytes (op_code o ∷ []), c.sized);
    runs = λ vm s regs kn at room.
        Outcome-bind vm _ c.after.code.size _ s s regs (meaning vm.ctx) (unary_meaning op.type)
          (c.runs vm s regs kn (Located-left c.bytes (op_code o ∷ []) at) room)
          λ v.
            Outcome-to vm _ s regs (omega (arith, p.size, c.piece.size, l))
              (rw e at (unary_agree op.type v))
              (unary-Outcome o c.after.code.size s regs v i
                (rw (← c.piece.size) at (Located-right c.bytes (op_code o ∷ []) at)) (omega arith));
  }
    where
      p : Piece event b (emit_code o c.after) (c.bytes ++ (op_code o ∷ [])) used
      p = code-Piece o c.piece (rw c.sized k)

      l : length (c.bytes ++ (op_code o ∷ [])) ≡ length c.bytes + 1
      l = length-append c.bytes (op_code o ∷ [])

  -- Two operands and an instruction without operand behind them: all binary operators but `and`, and
  -- the item of an array.
  pub pair-Compiles :
      {event : Bytes} {left right emit : Emit M} {n m u v d e : ℕ} {f g : Context M → Answer}
      {b : Builder M} (op : Opcode) (k : Context M → Value → Value → Answer)
      → (l : Compiles event left n u d f b) → (r : Compiles event right m v e g l.after)
      → emit b ≡ some (emit_code op r.after, 0)
      → ((vm : Vm M) (ip : ℕ) (x y : Value) (s regs : List Value)
          → Located vm ip (op_code op ∷ [])
          → length s < 256
          → Outcome vm (machine (y ∷ x ∷ s) ip regs) (ip + 1) s regs (k vm.ctx x y))
      → 1 ≤ e
      → HasRoom b.code (n + m + 1)
      → Compiles event emit
          (n + m + 1)
          (u + v)
          (max d (1 + e))
          (λ ctx. f ctx >>= λ x. g ctx >>= k ctx x)
          b
  unfolding emit_code
  pair-Compiles {event} {left} {right} {emit} {n} {m} {u} {v} {d} {e} {f} {g} {b} op k l r q last
        one rm =
      record {
        after = emit_code op r.after;
        bytes = (l.bytes ++ r.bytes) ++ (op_code op ∷ []);
        emits = q;
        piece = p;
        sized = omega (arith, length-append (l.bytes ++ r.bytes) (op_code op ∷ []), both);
        runs = λ vm s regs kn at room.
            let front = Located-left (l.bytes ++ r.bytes) (op_code op ∷ []) at in
            Outcome-bind vm _ l.after.code.size _ s s regs (f vm.ctx) (λ x. g vm.ctx >>= k vm.ctx x)
              (l.runs vm s regs (Knows-Piece vm r.piece kn) (Located-left l.bytes r.bytes front)
                (omega arith))
              λ x.
                Outcome-bind vm _ r.after.code.size _ (x ∷ s) s regs (g vm.ctx) (k vm.ctx x)
                  (r.runs vm (x ∷ s) regs kn
                    (rw (← l.piece.size) at (Located-right l.bytes r.bytes front)) (omega arith))
                  λ y.
                    Outcome-to vm _ s regs
                      (omega (arith, p.size, r.piece.size, l.piece.size, both, w)) refl
                      (last vm r.after.code.size x y s regs
                        (rw (ends) at (Located-right (l.bytes ++ r.bytes) (op_code op ∷ []) at))
                        (omega arith));
      }
    where
      both : length (l.bytes ++ r.bytes) ≡ n + m
      both = omega (arith, length-append l.bytes r.bytes, l.sized, r.sized)

      p : Piece event b (emit_code op r.after) ((l.bytes ++ r.bytes) ++ (op_code op ∷ [])) (u + v)
      p = code-Piece op (Piece-trans l.piece r.piece) (rw both rm)

      w : length ((l.bytes ++ r.bytes) ++ (op_code op ∷ [])) ≡ length (l.bytes ++ r.bytes) + 1
      w = length-append (l.bytes ++ r.bytes) (op_code op ∷ [])

      ends : b.code.size + length (l.bytes ++ r.bytes) ≡ r.after.code.size
      ends = omega (arith, r.piece.size, l.piece.size, length-append l.bytes r.bytes)

  -- a binary operator other than `and`
  pub binary-Compiles :
      {event : Bytes} {left right : Emit M} {n m u v d e : ℕ} {f g : Context M → Answer}
      {b : Builder M} (op : Token) (ty : TokenType)
      → HasBinary op.type ty
      → same_type op.type Syntax.and_kw ≡ false
      → (l : Compiles event left n u d f b) → Compiles event right m v e g l.after
      → 1 ≤ e
      → HasRoom b.code (n + m + 1)
      → Compiles event
          (bytecode_emit_binary left op right ty)
          (n + m + 1)
          (u + v)
          (max d (1 + e))
          (λ ctx. f ctx >>= λ x. g ctx >>= binary_meaning op.type ty x)
          b
  unfolding bytecode_emit_binary emit_operator
  binary-Compiles {event} {left} {right} {n} {m} {u} {v} {d} {e} {f} {g} {b} op ty (o, q, i) a l r
        one rm =
      pair-Compiles o (λ ctx. binary_meaning op.type ty) l r (rw (l.emits, a, r.emits, q))
        (λ vm ip x y s regs at k.
          Outcome-to vm _ s regs refl (rw q at (binary_agree op.type ty x y))
            (binary-Outcome o ip s regs x y i at k))
        one rm

  pub index-Compiles :
      {event : Bytes} {left right : Emit M} {n m u v d e : ℕ} {f g : Context M → Answer}
      {b : Builder M}
      → (l : Compiles event left n u d f b) → Compiles event right m v e g l.after
      → 1 ≤ e
      → HasRoom b.code (n + m + 1)
      → Compiles event
          (bytecode_emit_index left right)
          (n + m + 1)
          (u + v)
          (max d (1 + e))
          (λ ctx. f ctx >>= λ x. g ctx >>= index_meaning ctx x)
          b
  unfolding bytecode_emit_index
  index-Compiles {event} {left} {right} {n} {m} {u} {v} {d} {e} {f} {g} {b} l r one rm =
      pair-Compiles Opcode.index index_meaning l r (rw (l.emits, r.emits))
        (λ vm ip x y s regs at k. index-Outcome vm ip [] x y s regs at k) one rm
