-- ===== src/Correct/Jumps.antt =====
-- The jumps between the operands of `and`, as `emit_and_jumps` and `patch` leave them.
use alca.Base.{ℕ, ◌+◌, ◌≡◌, ap, ◌∙◌, ◌∷◌, ◌++◌, append_assoc, length, length-append, Bytes, arith}
use alca.Base.Words.{wrap32, le_bytes}
use alca.Arena.Invariant.{IsArena, HasRoom}
use alca.Bytecode.Opcode.{Opcode, op_code}
use alca.Bytecode.Emit.{Builder, emit_arg, patch, emit_and_jumps, and_jump_offset}
use alca.Correct.Appends.{Appends, Appends-trans, emit_arg-Appends, length-le_bytes, patch-content}

-- an instruction with an operand
abbrev pub ins : Opcode → ℕ → Bytes
ins op x = op_code op ∷ le_bytes x

pub length-ins : (op : Opcode) (x : ℕ) → length (ins op x) ≡ 5
length-ins op x = omega (arith, length-le_bytes x)

-- the instructions between the operands, at an offset, with the address behind the right operand
unfoldable pub between : ℕ → ℕ → Bytes
between n target = ins Opcode.jtrue (n + 15) ++ (ins Opcode.pushbool 0 ++ ins Opcode.jmp target)

pub length-between : (n x : ℕ) → length (between n x) ≡ 15
unfolding between
length-between n x = omega (
  arith,
  length-append (ins Opcode.jtrue (n + 15)) (ins Opcode.pushbool 0 ++ ins Opcode.jmp x),
  length-append (ins Opcode.pushbool 0) (ins Opcode.jmp x),
  length-ins Opcode.jtrue (n + 15),
  length-ins Opcode.pushbool 0,
  length-ins Opcode.jmp x,
)

regroup : (a b c d e : Bytes) → (a ++ (b ++ (c ++ d))) ++ e ≡ (a ++ (b ++ c)) ++ (d ++ e)
regroup a b c d e = simp append_assoc

regroup_inside : (a b c d e : Bytes) → (a ++ (b ++ c)) ++ (d ++ e) ≡ a ++ ((b ++ (c ++ d)) ++ e)
regroup_inside a b c d e = simp append_assoc

length-two : (n : ℕ) → length (ins Opcode.jtrue (n + 15) ++ ins Opcode.pushbool 0) ≡ 10
length-two n = omega (
  arith,
  length-append (ins Opcode.jtrue (n + 15)) (ins Opcode.pushbool 0),
  length-ins Opcode.jtrue (n + 15),
  length-ins Opcode.pushbool 0,
)

module _ {M : Type 0} where
  two_jumps : Builder M → Builder M
  two_jumps b = emit_arg Opcode.pushbool 0 (emit_arg Opcode.jtrue (b.code.size + 15) b)

  two_jumps-Appends :
      (b : Builder M)
      → IsArena b.code
      → HasRoom b.code 15
      → Appends b (two_jumps b) (ins Opcode.jtrue (b.code.size + 15) ++ ins Opcode.pushbool 0)
  unfolding two_jumps
  two_jumps-Appends b w r =
      let p = emit_arg-Appends Opcode.jtrue (b.code.size + 15) b w (omega arith) in
      Appends-trans p (
        emit_arg-Appends Opcode.pushbool 0 (emit_arg Opcode.jtrue (b.code.size + 15) b) p.arena
          (omega (arith, p.size, length-ins Opcode.jtrue (b.code.size + 15))))

  jumps-two :
      (b : Builder M)
      → HasRoom b.code 15
      → (emit_and_jumps b ≡ emit_arg Opcode.jmp 0 (two_jumps b))
        × (and_jump_offset b ≡ (two_jumps b).code.size)
  unfolding emit_and_jumps and_jump_offset two_jumps
  jumps-two b r =
      let e : wrap32 (b.code.size + 15) ≡ b.code.size + 15 = omega arith in
      (
        ap
            (λ (x : ℕ).
              emit_arg Opcode.jmp 0 (emit_arg Opcode.pushbool 0 (emit_arg Opcode.jtrue x b)))
            e,
        ap (λ (x : ℕ). (emit_arg Opcode.pushbool 0 (emit_arg Opcode.jtrue x b)).code.size) e,
      )

  pub jumps-Appends :
      (b : Builder M)
      → IsArena b.code
      → HasRoom b.code 15
      → Appends b (emit_and_jumps b) (between b.code.size 0)
        × (and_jump_offset b ≡ b.code.size + 10)
  unfolding between
  jumps-Appends b w r =
      let p = two_jumps-Appends b w r in
      let l = length-two b.code.size in
      let q = emit_arg-Appends Opcode.jmp 0 (two_jumps b) p.arena (omega (arith, p.size, l)) in
      let (e, f) = jumps-two b r in
      (
        rw
            (
              e,
              ← append_assoc (ins Opcode.jtrue (b.code.size + 15)) (ins Opcode.pushbool 0)
                  (ins Opcode.jmp 0),
            )
            (Appends-trans p q),
        omega (arith, f, p.size, l),
      )

  -- The patch turns the placeholder into the jump over the right operand.
  pub patched-content :
      (b₁ b₂ : Builder M) (right : Bytes)
      → IsArena b₁.code
      → b₂.code.content ≡ (b₁.code.content ++ between b₁.code.size 0) ++ right
      → (x : ℕ)
      → (patch (b₁.code.size + 10) Opcode.jmp x b₂).code.content
        ≡ b₁.code.content ++ (between b₁.code.size x ++ right)
  unfolding between
  patched-content b₁ b₂ right w e x =
      let n = b₁.code.size in
      let front = ins Opcode.jtrue (n + 15) ++ ins Opcode.pushbool 0 in
      let len : length (b₁.code.content ++ front) ≡ n + 10 =
        omega (arith, length-append b₁.code.content front, length-two n, w.sized) in
      rw (← len) (
        patch-content (b₁.code.content ++ front) (ins Opcode.jmp 0) right Opcode.jmp x b₂
          (e
            ∙ regroup b₁.code.content (ins Opcode.jtrue (n + 15)) (ins Opcode.pushbool 0)
                (ins Opcode.jmp 0) right)
          (length-ins Opcode.jmp 0)
        ∙ regroup_inside b₁.code.content (ins Opcode.jtrue (n + 15)) (ins Opcode.pushbool 0)
            (ins Opcode.jmp x) right)
