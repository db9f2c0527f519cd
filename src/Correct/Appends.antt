-- ===== src/Correct/Appends.antt =====
-- What the emission of an instruction does to the builder.
use alca.Base.{
  ℕ, suc, ◌+◌, ◌≡◌, refl, ap, ◌∙◌, [], ◌∷◌, ◌++◌, append_assoc, length, length-append, drop,
  take-append, drop-append, Bytes, arith,
}
use alca.Base.Words.{le_bytes}
use alca.Arena.{
  Arena, append_bytes, arena_extend, ac_arena_add_code, ac_arena_add_uint32,
  ac_arena_add_code_with_arg, ac_arena_replace_bytes,
}
use alca.Arena.Invariant.{IsArena, HasRoom, append_bytes-IsArena}
use alca.Bytecode.Opcode.{Opcode, op_code}
use alca.Bytecode.Emit.{Builder, emit_code, emit_arg, patch}

-- `b'` is `b` with `bytes` behind its code.
pub record Appends {M : Type 0} (b b' : Builder M) (bytes : Bytes) : Type 0 where
  pub content : b'.code.content ≡ b.code.content ++ bytes
  pub size : b'.code.size ≡ b.code.size + length bytes
  pub arena : IsArena b'.code
  pub strings : b'.strings ≡ b.strings
  pub module_name : b'.module_name ≡ b.module_name
  pub ctx : b'.ctx ≡ b.ctx

size-append_bytes :
    {M : Type 0} (a : Arena M) (bytes : Bytes)
    → HasRoom a (length bytes)
    → (append_bytes a bytes).size ≡ a.size + length bytes
unfolding append_bytes arena_extend
size-append_bytes a bytes r = omega arith

content-append_bytes :
    {M : Type 0} (a : Arena M) (bytes : Bytes) → (append_bytes a bytes).content ≡ a.content ++ bytes
unfolding append_bytes arena_extend
content-append_bytes a bytes = refl

drop_past : (xs ys zs : Bytes) → drop (length xs + length ys) (xs ++ (ys ++ zs)) ≡ zs
drop_past xs ys zs = rw (← append_assoc xs ys zs, ← length-append xs ys) (drop-append (xs ++ ys) zs)

pub length-le_bytes : (x : ℕ) → length (le_bytes x) ≡ 4
unfolding le_bytes
length-le_bytes x = refl

module _ {M : Type 0} where
  pub Appends-trans :
      {b b₁ b₂ : Builder M} {xs ys : Bytes}
      → Appends b b₁ xs
      → Appends b₁ b₂ ys
      → Appends b b₂ (xs ++ ys)
  Appends-trans {b} {xs = xs} {ys = ys} p q = record {
    content = q.content ∙ ap (λ t. t ++ ys) p.content ∙ append_assoc b.code.content xs ys;
    size = omega (arith, q.size, p.size, length-append xs ys);
    arena = q.arena;
    strings = q.strings ∙ p.strings;
    module_name = q.module_name ∙ p.module_name;
    ctx = q.ctx ∙ p.ctx;
  }

  pub emit_code-Appends :
      (op : Opcode) (b : Builder M)
      → IsArena b.code
      → HasRoom b.code 1
      → Appends b (emit_code op b) (op_code op ∷ [])
  unfolding emit_code ac_arena_add_code
  emit_code-Appends op b w r = record {
    content = content-append_bytes b.code (op_code op ∷ []);
    size = size-append_bytes b.code (op_code op ∷ []) r;
    arena = append_bytes-IsArena (op_code op ∷ []) w r;
    strings = refl;
    module_name = refl;
    ctx = refl;
  }

  -- the second half of an instruction with an operand
  emit_operand : ℕ → Builder M → Builder M
  emit_operand x b = record b { code = append_bytes b.code (le_bytes x) }

  emit_operand-Appends :
      (x : ℕ) (b : Builder M)
      → IsArena b.code
      → HasRoom b.code 4
      → Appends b (emit_operand x b) (le_bytes x)
  unfolding emit_operand
  emit_operand-Appends x b w r =
      let r' : HasRoom b.code (length (le_bytes x)) = omega (arith, length-le_bytes x) in
      record {
        content = content-append_bytes b.code (le_bytes x);
        size = size-append_bytes b.code (le_bytes x) r';
        arena = append_bytes-IsArena (le_bytes x) w r';
        strings = refl;
        module_name = refl;
        ctx = refl;
      }

  pub emit_arg-Appends :
      (op : Opcode) (x : ℕ) (b : Builder M)
      → IsArena b.code
      → HasRoom b.code 5
      → Appends b (emit_arg op x b) (op_code op ∷ le_bytes x)
  emit_arg-Appends op x b w r =
      let p = emit_code-Appends op b w (omega arith) in
      unfold emit_arg ac_arena_add_code_with_arg ac_arena_add_uint32 emit_code emit_operand in
      Appends-trans p (emit_operand-Appends x (emit_code op b) p.arena (omega (arith, p.size)))

  -- The macro `patch` overwrites one instruction, wherever it stands.
  pub patch-content :
      (pre old post : Bytes) (op : Opcode) (x : ℕ) (b : Builder M)
      → b.code.content ≡ pre ++ (old ++ post)
      → length old ≡ 5
      → (patch (length pre) op x b).code.content ≡ pre ++ ((op_code op ∷ le_bytes x) ++ post)
  unfolding patch ac_arena_replace_bytes
  patch-content pre old post op x b e k =
      let l : suc (length (le_bytes x)) ≡ length old = omega (arith, length-le_bytes x) in
      rw (e, l, take-append pre (old ++ post), drop_past pre old post)

  pub patch-IsArena :
      (n : ℕ) (op : Opcode) (x : ℕ) (b : Builder M)
      → IsArena b.code
      → length (patch n op x b).code.content ≡ length b.code.content
      → IsArena (patch n op x b).code
  unfolding patch ac_arena_replace_bytes
  patch-IsArena n op x b w e = record {
    sized = omega (arith, w.sized);
    fits = w.fits;
    small = w.small;
  }
