-- ===== src/Correct/Pieces.antt =====
-- What the emission of a piece of a plain expression leaves of the builder.
use alca.Base.{
  ℕ, ◌+◌, ◌≤◌, ◌<◌, ◌≡◌, ap, ◌∙◌, some, ◌∷◌, ◌++◌, append_assoc, length, length-append, Bytes,
  arith,
}
use alca.Base.Words.{word_mod, le_bytes}
use alca.HashMap.{HashMap}
use alca.Arena.{Arena, ac_arena_get_string}
use alca.Arena.Invariant.{IsArena, HasRoom}
use alca.Arena.Strings.{NoNul, IsSound, add_string-Adds}
use alca.Bytecode.Opcode.{Opcode, op_code}
use alca.Bytecode.Emit.{Builder, intern, emit_string_arg}
use alca.Vm.Machine.{Vm}
use alca.Correct.Appends.{Appends, emit_arg-Appends}

module _ {M : Type 0} ⦃h : HashMap Bytes ℕ M⦄ where
  -- A builder at work on a rule of the event.
  pub record Ready (event : Bytes) (b : Builder M) : Type 0 where
    pub code : IsArena b.code
    pub strings : IsArena b.strings
    pub sound : IsSound b.strings
    pub module_name : b.module_name ≡ some event

  -- `after` is `b` with `bytes` behind its code, and at most `used` more bytes of strings.
  pub record Piece (event : Bytes) (b after : Builder M) (bytes : Bytes) (used : ℕ) : Type 0 where
    pub ready : Ready event after
    pub content : after.code.content ≡ b.code.content ++ bytes
    pub size : after.code.size ≡ b.code.size + length bytes
    pub bound : after.strings.size ≤ b.strings.size + used
    pub ctx : after.ctx ≡ b.ctx
    pub keeps :
        (t : Bytes) (o : ℕ)
        → h.get b.strings.strmap t ≡ some o
        → h.get after.strings.strmap t ≡ some o

  pub Piece-trans :
      {event : Bytes} {b b₁ b₂ : Builder M} {xs ys : Bytes} {u v : ℕ}
      → Piece event b b₁ xs u
      → Piece event b₁ b₂ ys v
      → Piece event b b₂ (xs ++ ys) (u + v)
  Piece-trans {b = b} {xs = xs} {ys = ys} p q = record {
    ready = q.ready;
    content = q.content ∙ ap (λ t. t ++ ys) p.content ∙ append_assoc b.code.content xs ys;
    size = omega (arith, p.size, q.size, length-append xs ys);
    bound = omega (arith, p.bound, q.bound);
    ctx = q.ctx ∙ p.ctx;
    keeps = λ t o e. q.keeps t o (p.keeps t o e);
  }

  pub Piece-Appends :
      {event : Bytes} {b after : Builder M} {bytes : Bytes}
      → Ready event b
      → Appends b after bytes
      → Piece event b after bytes 0
  Piece-Appends {b = b} r p = record {
    ready = record {
      code = p.arena;
      strings = rw p.strings r.strings;
      sound = rw p.strings r.sound;
      module_name = p.module_name ∙ r.module_name;
    };
    content = p.content;
    size = p.size;
    bound = let e = ap (λ (a : Arena M). a.size) p.strings in omega (arith, e);
    ctx = p.ctx;
    keeps = λ t o e. rw p.strings e;
  }

  -- `emit_string_arg`: an instruction whose operand is a string of the data section
  pub string_arg-Piece :
      {event : Bytes} (op : Opcode) (s : Bytes) (b : Builder M)
      → Ready event b
      → NoNul s
      → HasRoom b.code 5
      → HasRoom b.strings (length s + 1)
      → (o : ℕ) × Piece event b (emit_string_arg op s b) (op_code op ∷ le_bytes o) (length s + 1)
        × (h.get (emit_string_arg op s b).strings.strmap s ≡ some o)
        × (o < word_mod)
  unfolding emit_string_arg intern
  string_arg-Piece {event} op s b r nn k l =
      let a = add_string-Adds b.strings s nn l r.strings r.sound in
      let r₁ : Ready event (intern s b).0 = record {
        code = r.code;
        strings = a.arena;
        sound = a.sound;
        module_name = r.module_name;
      } in
      let p = Piece-Appends r₁ (emit_arg-Appends op (intern s b).1 (intern s b).0 r.code k) in
      (
        (intern s b).1,
        record {
          ready = p.ready;
          content = p.content;
          size = p.size;
          bound = omega (arith, p.bound, a.bounded);
          ctx = p.ctx;
          keeps = λ t o e. p.keeps t o (a.keeps t o e);
        },
        p.keeps s (intern s b).1 a.knows,
        omega (arith, a.inside, a.arena.fits, a.arena.small),
      )

  -- The strings that the builder knows are those of the machine's data section.
  abbrev pub Knows : Vm M → Builder M → Type 0
  Knows vm b =
      (t : Bytes) (o : ℕ)
      → h.get b.strings.strmap t ≡ some o
      → ac_arena_get_string vm.strings o ≡ some t

  pub Knows-Piece :
      (vm : Vm M) {event : Bytes} {b after : Builder M} {bytes : Bytes} {u : ℕ}
      → Piece event b after bytes u
      → Knows vm after
      → Knows vm b
  Knows-Piece vm p k t o e = k t o (p.keeps t o e)
