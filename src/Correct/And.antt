-- ===== src/Correct/And.antt =====
-- The code of `and`, which jumps over its right operand where the left one is false.
use alca.Base.{
  ℕ, ◌+◌, ◌≤◌, ◌<◌, ◌≡◌, refl, ap, ◌∙◌, true, false, List, [], ◌∷◌, ◌++◌, append_assoc, max, length,
  length-append, Bytes, arith, if◌then◌else◌, inl, inr, Bool-cases,
}
use alca.Base.Words.{word_mod}
use alca.HashMap.{HashMap}
use alca.Syntax
use alca.Syntax.{Token, TokenType, same_type}
use alca.Context.{Context, Value, word, str, obj, array}
use alca.Arena.{ac_arena_replace_bytes}
use alca.Arena.Invariant.{HasRoom}
use alca.Bytecode.Opcode.{Opcode, op_code}
use alca.Bytecode.Emit.{
  Emit, Builder, emit_code, patch, emit_operator, bytecode_emit_binary, emit_and_jumps,
  and_jump_offset,
}
use alca.Vm.Machine.{Vm}
use alca.Vm.Operators.{Answer, value, truth}
use alca.Vm.Run.{machine, Located, Located-left, Located-right, Steps, here, next}
use alca.Semantics.{◌>>=◌, on_word}
use alca.Semantics.Operators.{binary_meaning}
use alca.Semantics.Plain.{HasBinary}
use alca.Semantics.Agree.{binary_agree}
use alca.Correct.Appends.{Appends, patch-IsArena}
use alca.Correct.Jumps.{ins, length-ins, between, length-between, jumps-Appends, patched-content}
use alca.Correct.Runs.{Outcome, Outcome-to, Outcome-bind, Outcome-after, binary-Outcome}
use alca.Correct.Instructions.{jtrue_step, jmp_step, pushbool_step}
use alca.Correct.Pieces.{Piece, Piece-Appends, Knows, Knows-Piece}
use alca.Correct.Operators.{Compiles, code-Piece}

-- The code behind the left operand, at offset `n`, where the left operand is a false word: it pushes
-- false and leaves both for OP_ANDL.
module _ {M : Type 0} ⦃h : HashMap Bytes ℕ M⦄ where
  skip_right :
      (vm : Vm M) (n target : ℕ) (x : ℕ) (s regs : List Value)
      → Located vm n (between n target)
      → target < word_mod
      → n + 15 < word_mod
      → length s < 255
      → truth x ≡ false
      → Steps vm (machine (word x ∷ s) n regs) (machine (word 0 ∷ word x ∷ s) target regs)
  unfolding between
  skip_right vm n target x s regs at lt lt' room e =
      let rest = ins Opcode.pushbool 0 ++ ins Opcode.jmp target in
      let at₁ = Located-left (ins Opcode.jtrue (n + 15)) rest at in
      let at₂ =
        rw (length-ins Opcode.jtrue (n + 15)) at
          (Located-right (ins Opcode.jtrue (n + 15)) rest at) in
      let at₃ = Located-left (ins Opcode.pushbool 0) (ins Opcode.jmp target) at₂ in
      let at₄ =
        rw (length-ins Opcode.pushbool 0) at
          (Located-right (ins Opcode.pushbool 0) (ins Opcode.jmp target) at₂) in
      next
        (next (next here λ c. rw e at (jtrue_step vm (n + 15) x n s regs c at₁ lt'))
          λ c. pushbool_step vm 0 (n + 5) (word x ∷ s) regs c at₃ (omega arith) (omega arith))
        λ c. jmp_step vm target (n + 5 + 5) (word 0 ∷ word x ∷ s) regs c at₄ lt

  enter_right :
      (vm : Vm M) (n target : ℕ) (x : ℕ) (s regs : List Value)
      → Located vm n (between n target)
      → n + 15 < word_mod
      → truth x ≡ true
      → Steps vm (machine (word x ∷ s) n regs) (machine (word x ∷ s) (n + 15) regs)
  unfolding between
  enter_right vm n target x s regs at lt e =
      let rest = ins Opcode.pushbool 0 ++ ins Opcode.jmp target in
      next here λ c.
        rw e at (
          jtrue_step vm (n + 15) x n s regs c (Located-left (ins Opcode.jtrue (n + 15)) rest at) lt)

  -- The code from behind the left operand, whose value is on the stack.
  after_left :
      (vm : Vm M) (n target : ℕ) (op : Opcode) (meaning : Value → Value → Answer) (g : Answer)
      (v : Value) (s regs : List Value)
      → Located vm n (between n target)
      → Located vm target (op_code op ∷ [])
      → target + 64 ≤ word_mod
      → n + 15 + 64 ≤ word_mod
      → length s < 255
      → ((w : Value)
          → Outcome vm (machine (w ∷ v ∷ s) target regs) (target + 1) s regs (meaning v w))
      → ((x : ℕ) → truth x ≡ false → meaning (word x) (word 0) ≡ value (word 0))
      → Outcome vm (machine (v ∷ s) (n + 15) regs) target (v ∷ s) regs g
      → Outcome vm
          (machine (v ∷ s) n regs)
          (target + 1)
          s
          regs
          (on_word v λ x. if truth x then (g >>= meaning v) else value (word 0))
  after_left vm n target op meaning g (word x) s regs at last lt lt' room ends zero r =
      elim (Bool-cases (truth x)) [
        | inl e ↦ rw e (
            Outcome-after (target + 1) s regs (g >>= meaning (word x))
              (enter_right vm n target x s regs at (omega arith) e)
              (Outcome-bind vm _ target (target + 1) (word x ∷ s) s regs g (meaning (word x)) r
                ends))
        | inr e ↦ rw e (
            Outcome-after (target + 1) s regs (value (word 0))
              (skip_right vm n target x s regs at (omega arith) (omega arith) room e)
              (Outcome-to vm _ s regs refl (zero x e) (ends (word 0))))
      ]
  after_left vm n target op meaning g (str t) s regs at last lt lt' room ends zero r = tt
  after_left vm n target op meaning g (obj t) s regs at last lt lt' room ends zero r = tt
  after_left vm n target op meaning g (array t) s regs at last lt lt' room ends zero r = tt

is_and : (t : TokenType) → same_type t Syntax.and_kw ≡ true → t ≡ Syntax.and_kw
is_and Syntax.and_kw e = refl
is_and _ e = cc

and-zero :
    (t ty : TokenType) (x : ℕ)
    → t ≡ Syntax.and_kw
    → truth x ≡ false
    → binary_meaning t ty (word x) (word 0) ≡ value (word 0)
unfolding binary_meaning
and-zero t ty x p e = rw (p, e)

module _ {M : Type 0} ⦃h : HashMap Bytes ℕ M⦄ where
  -- the builder behind the right operand, with the jump patched
  patched : Builder M → Builder M → Builder M
  patched b₁ b₂ = patch (and_jump_offset b₁) Opcode.jmp b₂.code.size b₂

  patched-Piece :
      {event : Bytes} {b b₁ b₂ : Builder M} {xs ys : Bytes} {u v : ℕ}
      → Piece event b b₁ xs u
      → HasRoom b₁.code 15
      → Piece event (emit_and_jumps b₁) b₂ ys v
      → Piece event b (patched b₁ b₂) (xs ++ (between b₁.code.size b₂.code.size ++ ys)) (u + v)
  unfolding patched patch ac_arena_replace_bytes
  patched-Piece {event} {b} {b₁} {b₂} {xs} {ys} {u} {v} p rm q =
      let (j, o) = jumps-Appends b₁ p.ready.code rm in
      let t =
        patched-content b₁ b₂ ys p.ready.code (q.content ∙ ap (λ c. c ++ ys) j.content)
          b₂.code.size in
      let l = length-between b₁.code.size b₂.code.size in
      let z = length-between b₁.code.size 0 in
      let k = Piece-Appends p.ready j in
      let same : length (patched b₁ b₂).code.content ≡ length b₂.code.content =
        rw (o, t)
          (omega (
            arith,
            ap (λ (x : Bytes). length x) q.content,
            ap (λ (x : Bytes). length x) j.content,
            length-append (emit_and_jumps b₁).code.content ys,
            length-append b₁.code.content (between b₁.code.size 0),
            length-append b₁.code.content (between b₁.code.size b₂.code.size ++ ys),
            length-append (between b₁.code.size b₂.code.size) ys,
            l,
            z,
          )) in
      record {
        ready = record {
          code = patch-IsArena (and_jump_offset b₁) Opcode.jmp b₂.code.size b₂ q.ready.code same;
          strings = q.ready.strings;
          sound = q.ready.sound;
          module_name = q.ready.module_name;
        };
        content =
            rw (← o) at t
            ∙ ap (λ c. c ++ (between b₁.code.size b₂.code.size ++ ys)) p.content
            ∙ append_assoc b.code.content xs (between b₁.code.size b₂.code.size ++ ys);
        size = omega (
          arith,
          q.size,
          j.size,
          p.size,
          l,
          z,
          length-append xs (between b₁.code.size b₂.code.size ++ ys),
          length-append (between b₁.code.size b₂.code.size) ys,
        );
        bound = omega (arith, q.bound, k.bound, p.bound);
        ctx = q.ctx ∙ k.ctx ∙ p.ctx;
        keeps = λ t o e. q.keeps t o (k.keeps t o (p.keeps t o e));
      }

  pub and-Compiles :
      {event : Bytes} {left right : Emit M} {n m u v d e : ℕ} {f g : Context M → Answer}
      {b : Builder M} (op : Token) (ty : TokenType)
      → HasBinary op.type ty
      → same_type op.type Syntax.and_kw ≡ true
      → (l : Compiles event left n u d f b) → Compiles event right m v e g (emit_and_jumps l.after)
      → 1 ≤ e
      → HasRoom b.code (n + 15 + m + 1)
      → Compiles event
          (bytecode_emit_binary left op right ty)
          (n + 15 + m + 1)
          (u + v)
          (max d (1 + e))
          (λ ctx. f ctx >>= λ x.
            on_word x
              λ k. if truth k then (g ctx >>= binary_meaning op.type ty x) else value (word 0))
          b
  unfolding bytecode_emit_binary emit_operator emit_code
  and-Compiles {event} {left} {right} {n} {m} {u} {v} {d} {e} {f} {g} {b} op ty (o, q, i) a l r one
        rm =
      record {
        after = emit_code o pb;
        bytes = front ++ (op_code o ∷ []);
        emits = unfold patched in rw (l.emits, a, r.emits, q);
        piece = p;
        sized = omega (arith, w, lf);
        runs = λ vm s regs kn at room.
            let kr : Knows vm r.after = unfold patched patch in kn in
            let kj = Knows-Piece vm r.piece kr in
            let at_front = Located-left front (op_code o ∷ []) at in
            let at_mid = rw (← l.piece.size) at (Located-right l.bytes (mid ++ r.bytes) at_front) in
            let at_right = rw (jn) at (Located-right mid r.bytes at_mid) in
            Outcome-bind vm _ l.after.code.size _ s s regs (f vm.ctx) _
              (l.runs vm s regs (Knows-Piece vm (Piece-Appends l.piece.ready j) kj)
                (Located-left l.bytes (mid ++ r.bytes) at_front) (omega arith))
              λ x. Outcome-to vm _ s regs (omega (arith, p.size, w, tn)) refl (
                after_left vm l.after.code.size r.after.code.size o (binary_meaning op.type ty)
                  (g vm.ctx) x s regs (Located-left mid r.bytes at_mid)
                  (rw tn at (Located-right front (op_code o ∷ []) at)) (omega (arith, tn, lf))
                  (omega (arith, l.piece.size, l.sized)) (omega arith)
                  (λ y. Outcome-to vm _ s regs refl (rw q at (binary_agree op.type ty x y)) (
                    binary-Outcome o r.after.code.size s regs x y i
                      (rw tn at (Located-right front (op_code o ∷ []) at)) (omega arith)))
                  (λ z t. and-zero op.type ty z (is_and op.type a) t)
                  (rw (js) at (r.runs vm (x ∷ s) regs kr (rw (← js) at at_right) (omega arith))));
      }
    where
      pb : Builder M
      pb = patched l.after r.after

      mid : Bytes
      mid = between l.after.code.size r.after.code.size

      front : Bytes
      front = l.bytes ++ (mid ++ r.bytes)

      lf : length front ≡ n + 15 + m
      lf = omega (
        arith,
        length-append l.bytes (mid ++ r.bytes),
        length-append mid r.bytes,
        l.sized,
        r.sized,
        length-between l.after.code.size r.after.code.size,
      )

      j : Appends l.after (emit_and_jumps l.after) (between l.after.code.size 0)
      j = (jumps-Appends l.after l.piece.ready.code (omega (arith, l.piece.size, l.sized))).0

      k : Piece event b pb front (u + v)
      k = patched-Piece l.piece (omega (arith, l.piece.size, l.sized)) r.piece

      p : Piece event b (emit_code o pb) (front ++ (op_code o ∷ [])) (u + v)
      p = code-Piece o k (rw lf rm)

      w : length (front ++ (op_code o ∷ [])) ≡ length front + 1
      w = length-append front (op_code o ∷ [])

      js : (emit_and_jumps l.after).code.size ≡ l.after.code.size + 15
      js = omega (arith, j.size, length-between l.after.code.size 0)

      jn : l.after.code.size + length mid ≡ l.after.code.size + 15
      jn = omega (arith, length-between l.after.code.size r.after.code.size)

      tn : b.code.size + length front ≡ r.after.code.size
      tn = omega (arith, lf, r.piece.size, js, r.sized, l.piece.size, l.sized)
