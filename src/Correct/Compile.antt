-- ===== src/Correct/Compile.antt =====
-- The code of a plain expression computes the meaning of the expression.
use alca.Base.{ℕ, ◌+◌, ◌≤◌, refl, Bytes, arith, inl, inr, Bool-cases}
use alca.HashMap.{HashMap}
use alca.Syntax
use alca.Syntax.{Expr, Token, TokenType, TokenValue, same_type}
use alca.Arena.Invariant.{HasRoom}
use alca.Bytecode.Emit.{Builder, bytecode_emit_expr, emit_and_jumps}
use alca.Semantics.{eval}
use alca.Semantics.Plain.{IsPlain, code_size, string_size, depth}
use alca.Correct.Pieces.{Ready, Piece-Appends}
use alca.Correct.Operators.{Compiles, unary-Compiles, binary-Compiles, index-Compiles}
use alca.Correct.Jumps.{jumps-Appends, length-between}
use alca.Correct.And.{and-Compiles}
use alca.Correct.Literals.{literal-Compiles}
use alca.Correct.Fields.{bind_cong, Compiles-to, field-Compiles}

one_deep : (e : Expr) → 1 ≤ depth e
unfolding depth
one_deep (Syntax.binary l op r ty) = omega (arith, one_deep l)
one_deep (Syntax.grouping e) = one_deep e
one_deep (Syntax.unary op r) = one_deep r
one_deep (Syntax.literal t) = omega arith
one_deep (Syntax.field ty o name) = one_deep o
one_deep (Syntax.index ty o i p) = omega (arith, one_deep o)
one_deep _ = omega arith

module _ {M : Type 0} ⦃h : HashMap Bytes ℕ M⦄ where
  -- Where a plain expression starts, with room for its code and its strings, `bytecode_emit_expr` succeeds,
  -- adds as many bytes as `code_size` says, and the machine that runs them pushes the value that `eval`
  -- gives, or stops with its error.
  pub expr-Compiles :
      {event : Bytes} (e : Expr) (b : Builder M)
      → IsPlain event e
      → Ready event b
      → HasRoom b.code (code_size e)
      → HasRoom b.strings (string_size e)
      → Compiles event
          (bytecode_emit_expr e)
          (code_size e)
          (string_size e)
          (depth e)
          (λ ctx. eval ctx event e)
          b
  unfolding bytecode_emit_expr code_size string_size depth eval
  expr-Compiles {event} (Syntax.binary l op r ty) b (pl, pr, i) w k k' =
      let a = expr-Compiles l b pl w (omega (arith, k)) (omega (arith, k')) in
      elim (Bool-cases (same_type op.type Syntax.and_kw)) [
        | inl q ↦
            let k₁ : HasRoom b.code (code_size l + 15 + code_size r + 1) = rw q at k in
            let (j, o) =
              jumps-Appends a.after a.piece.ready.code (omega (arith, k₁, a.piece.size, a.sized)) in
            let c = Piece-Appends a.piece.ready j in
            let z =
              expr-Compiles r (emit_and_jumps a.after) pr c.ready
                (omega
                  (arith, k₁, a.piece.size, a.sized, c.size, length-between a.after.code.size 0))
                (omega (arith, k', a.piece.bound, c.bound)) in
            let t = and-Compiles op ty i q a z (one_deep r) k₁ in
            Compiles-to t t.emits (rw q) (λ ctx. bind_cong (eval ctx event l) λ v. rw q)
        | inr q ↦
            let k₁ : HasRoom b.code (code_size l + code_size r + 1) = omega (arith, rw q at k) in
            let z =
              expr-Compiles r a.after pr a.piece.ready (omega (arith, k₁, a.piece.size, a.sized))
                (omega (arith, k', a.piece.bound)) in
            let t = binary-Compiles op ty i q a z (one_deep r) k₁ in
            Compiles-to t t.emits (rw q (omega arith))
              (λ ctx. bind_cong (eval ctx event l) λ v. rw q)
      ]
  expr-Compiles (Syntax.grouping e) b p r k k' = expr-Compiles e b p r k k'
  expr-Compiles (Syntax.unary op e) b (p, u) r k k' =
      unary-Compiles op u (one_deep e) k (expr-Compiles e b p r (omega (arith, k)) k')
  expr-Compiles (Syntax.literal t) b p r k k' = literal-Compiles t.type t.value t.flags p r k k'
  expr-Compiles (Syntax.field ty o name) b (p, n) r k k' =
      field-Compiles name ty n (one_deep o) k k'
        (expr-Compiles o b p r (omega (arith, k)) (omega (arith, k')))
  expr-Compiles (Syntax.index ty o i q) b (p, p') r k k' =
      let l = expr-Compiles o b p r (omega (arith, k)) (omega (arith, k')) in
      let m =
        expr-Compiles i l.after p' l.piece.ready (omega (arith, k, l.piece.size, l.sized))
          (omega (arith, k', l.piece.bound)) in
      let t = index-Compiles l m (one_deep i) k in
      Compiles-to t (rw t.emits refl) refl (λ ctx. refl)
  expr-Compiles _ b p r k k' = absurd p
