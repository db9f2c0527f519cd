-- ===== src/Correct/Fields.antt =====
-- The code of a field: OP_FIELD, and OP_OBJECT where the field is a number, a string or a truth value.
use alca.Base.{
  ℕ, ◌+◌, ◌≤◌, ◌≡◌, refl, sym, ◌∙◌, some, [], ◌∷◌, ◌++◌, length, length-append, Bytes, arith,
  if◌then◌else◌, inl, inr, Bool-cases,
}
use alca.Base.Words.{le_bytes}
use alca.HashMap.{HashMap}
use alca.Syntax
use alca.Syntax.{Token, TokenType, TokenValue}
use alca.Context.{Context, Value}
use alca.Arena.Strings.{NoNul}
use alca.Arena.Invariant.{HasRoom}
use alca.Bytecode.Opcode.{Opcode, op_code}
use alca.Bytecode.Emit.{
  Emit, Builder, emit_code, emit_string_arg, emit_field_name, bytecode_emit_field, dropping_error,
  is_scalar,
}
use alca.Vm.Operators.{Answer, value, raise, undefined}
use alca.Vm.Run.{machine, Located-left, Located-right}
use alca.Semantics.{◌>>=◌, field_meaning, part_meaning, load_meaning}
use alca.Semantics.Plain.{IsName, name_size}
use alca.Correct.Appends.{length-le_bytes}
use alca.Correct.Runs.{Outcome-to, Outcome-bind}
use alca.Correct.Instructions.{field-Outcome, object-Outcome}
use alca.Correct.Pieces.{Piece-trans, Knows-Piece, string_arg-Piece}
use alca.Correct.Operators.{Compiles, code-Piece}

bind_assoc : (a : Answer) (f g : Value → Answer) → ((a >>= f) >>= g) ≡ (a >>= λ v. f v >>= g)
bind_assoc (value v) f g = refl
bind_assoc (raise e) f g = refl
bind_assoc undefined f g = refl

pub bind_cong :
    (a : Answer) {f g : Value → Answer} → ((v : Value) → f v ≡ g v) → (a >>= f) ≡ (a >>= g)
bind_cong (value v) p = p v
bind_cong (raise e) p = refl
bind_cong undefined p = refl

bind_value : (a : Answer) → a >>= value ≡ a
bind_value (value v) = refl
bind_value (raise e) = refl
bind_value undefined = refl

module _ {M : Type 0} ⦃h : HashMap Bytes ℕ M⦄ where
  -- another emission with the same result, and another way to write its size and its meaning
  pub Compiles-to :
      {event : Bytes} {emit emit' : Emit M} {n n' u d : ℕ} {f g : Context M → Answer}
      {b : Builder M}
      → (l : Compiles event emit n u d f b) → emit' b ≡ some (l.after, 0)
      → n ≡ n'
      → ((ctx : Context M) → f ctx ≡ g ctx)
      → Compiles event emit' n' u d g b
  Compiles-to {b = b} l e q p = record {
    after = l.after;
    bytes = l.bytes;
    emits = e;
    piece = l.piece;
    sized = l.sized ∙ q;
    runs = λ vm s regs kn at room.
        Outcome-to vm (machine s b.code.size regs) s regs refl (p vm.ctx)
          (l.runs vm s regs kn at room);
  }

  part-Compiles :
      {event : Bytes} {object emit : Emit M} {n u d : ℕ} {f : Context M → Answer} {b : Builder M}
      (t : Bytes)
      → NoNul t
      → 1 ≤ d
      → HasRoom b.code (n + 5)
      → HasRoom b.strings (u + (length t + 1))
      → (l : Compiles event object n u d f b)
      → emit b ≡ some (emit_string_arg Opcode.field t l.after, 0)
      → Compiles event emit
          (n + 5)
          (u + (length t + 1))
          d
          (λ ctx. f ctx >>= part_meaning ctx (Syntax.text t))
          b
  part-Compiles {event} {object} {emit} {n} {u} {d} {f} {b} t nn one k k' l e =
      let (x, q, known, small) =
        string_arg-Piece Opcode.field t l.after l.piece.ready nn
          (omega (arith, l.piece.size, l.sized)) (omega (arith, l.piece.bound)) in
      let p = Piece-trans l.piece q in
      let len : length (l.bytes ++ (op_code Opcode.field ∷ le_bytes x)) ≡ n + 5 = omega (
        arith,
        length-append l.bytes (op_code Opcode.field ∷ le_bytes x),
        l.sized,
        length-le_bytes x,
      ) in
      record {
        after = emit_string_arg Opcode.field t l.after;
        bytes = l.bytes ++ (op_code Opcode.field ∷ le_bytes x);
        emits = e;
        piece = p;
        sized = len;
        runs = λ vm s regs kn at room.
            Outcome-bind vm _ l.after.code.size _ s s regs (f vm.ctx)
              (part_meaning vm.ctx (Syntax.text t))
              (l.runs vm s regs (Knows-Piece vm q kn)
                (Located-left l.bytes (op_code Opcode.field ∷ le_bytes x) at) room)
              λ v.
                Outcome-to vm (machine (v ∷ s) l.after.code.size regs) s regs
                  {ip = l.after.code.size + 5}
                  {ip' = (emit_string_arg Opcode.field t l.after).code.size}
                  {a = part_meaning vm.ctx (Syntax.text t) v}
                  (omega (arith, p.size, len, l.piece.size, l.sized)) refl
                  (field-Outcome vm x l.after.code.size t v s regs
                    (rw (← l.piece.size) at
                      (Located-right l.bytes (op_code Opcode.field ∷ le_bytes x) at))
                    small (kn t x known) (omega arith));
      }

  load-Compiles :
      {event : Bytes} {object emit : Emit M} {n u d : ℕ} {f : Context M → Answer} {b : Builder M}
      → 1 ≤ d
      → HasRoom b.code (n + 1)
      → (l : Compiles event object n u d f b) → emit b ≡ some (emit_code Opcode.object l.after, 0)
      → Compiles event emit (n + 1) u d (λ ctx. f ctx >>= load_meaning ctx) b
  load-Compiles {event} {object} {emit} {n} {u} {d} {f} {b} one k l e =
      let p = code-Piece Opcode.object l.piece (rw l.sized k) in
      let len : length (l.bytes ++ (op_code Opcode.object ∷ [])) ≡ n + 1 =
        omega (arith, length-append l.bytes (op_code Opcode.object ∷ []), l.sized) in
      record {
        after = emit_code Opcode.object l.after;
        bytes = l.bytes ++ (op_code Opcode.object ∷ []);
        emits = e;
        piece = p;
        sized = len;
        runs = λ vm s regs kn at room.
            Outcome-bind vm _ l.after.code.size _ s s regs (f vm.ctx) (load_meaning vm.ctx)
              (l.runs vm s regs (unfold emit_code in kn)
                (Located-left l.bytes (op_code Opcode.object ∷ []) at) room)
              λ v.
                Outcome-to vm (machine (v ∷ s) l.after.code.size regs) s regs
                  {ip = l.after.code.size + 1} {ip' = (emit_code Opcode.object l.after).code.size}
                  {a = load_meaning vm.ctx v} (omega (arith, p.size, len, l.piece.size, l.sized))
                  refl
                  (object-Outcome vm l.after.code.size [] v s regs
                    (rw (← l.piece.size) at (Located-right l.bytes (op_code Opcode.object ∷ []) at))
                    (omega arith));
      }

  -- `EXPR_FIELD`
  pub field-Compiles :
      {event : Bytes} {object : Emit M} {n u d : ℕ} {f : Context M → Answer} {b : Builder M}
      (name : Token) (ty : ℕ)
      → IsName name.value
      → 1 ≤ d
      → HasRoom b.code (n + (if is_scalar ty then 6 else 5))
      → HasRoom b.strings (u + name_size name.value)
      → Compiles event object n u d f b
      → Compiles event
          (λ b₀. dropping_error (bytecode_emit_field object name ty b₀) λ b₁. some (b₁, 0))
          (n + (if is_scalar ty then 6 else 5))
          (u + name_size name.value)
          d
          (λ ctx. f ctx >>= field_meaning ctx ty name.value)
          b
  unfolding bytecode_emit_field emit_field_name field_meaning
  field-Compiles {event} {object} {n} {u} {d} {f} {b} name ty = text_only name.value
    where
      field_of : TokenValue → Emit M
      field_of v b₀ =
          dropping_error (dropping_error (object b₀) (emit_field_name v ty)) λ b₁. some (b₁, 0)

      named :
          (t : Bytes)
          → NoNul t
          → 1 ≤ d
          → HasRoom b.code (n + (if is_scalar ty then 6 else 5))
          → HasRoom b.strings (u + (length t + 1))
          → Compiles event object n u d f b
          → Compiles event
              (field_of (Syntax.text t))
              (n + (if is_scalar ty then 6 else 5))
              (u + (length t + 1))
              d
              (λ ctx. f ctx >>= field_meaning ctx ty (Syntax.text t))
              b
      named t nn one k k' l = elim (Bool-cases (is_scalar ty)) [
        | inl e ↦
            let part_of : Emit M =
              λ b₀. dropping_error (object b₀) λ b₁. some (emit_string_arg Opcode.field t b₁, 0) in
            let load_of : Emit M =
              λ b₀. dropping_error (part_of b₀) λ b₁. some (emit_code Opcode.object b₁, 0) in
            let p =
              part-Compiles {emit = part_of} t nn one (omega (arith, rw e at k)) k' l
                (rw l.emits) in
            let q = load-Compiles {emit = load_of} one (omega (arith, rw e at k)) p (rw p.emits) in
            let same : field_of (Syntax.text t) b ≡ load_of b = rw (l.emits, e) in
            Compiles-to q (same ∙ q.emits) (rw e (omega arith)) λ ctx.
              bind_assoc (f ctx) (part_meaning ctx (Syntax.text t)) (load_meaning ctx)
              ∙ bind_cong (f ctx) (λ v. rw e)
        | inr e ↦
            let part_of : Emit M =
              λ b₀. dropping_error (object b₀) λ b₁. some (emit_string_arg Opcode.field t b₁, 0) in
            let p = part-Compiles {emit = part_of} t nn one (rw e at k) k' l (rw l.emits) in
            let same : field_of (Syntax.text t) b ≡ part_of b = rw (l.emits, e) in
            Compiles-to p (same ∙ p.emits) (rw e refl) (λ ctx.
              bind_cong (f ctx) λ v. rw e (sym (bind_value (part_meaning ctx (Syntax.text t) v))))
      ]

      text_only :
          (v : TokenValue)
          → IsName v
          → 1 ≤ d
          → HasRoom b.code (n + (if is_scalar ty then 6 else 5))
          → HasRoom b.strings (u + name_size v)
          → Compiles event object n u d f b
          → Compiles event
              (field_of v)
              (n + (if is_scalar ty then 6 else 5))
              (u + name_size v)
              d
              (λ ctx. f ctx >>= field_meaning ctx ty v)
              b
      text_only (Syntax.text t) nn one k k' l = named t nn one k k' l
      text_only (Syntax.word x) nn one k k' l = absurd nn
      text_only Syntax.null nn one k k' l = absurd nn
