-- ===== src/Compiler/RuleSets.antt =====
-- What the compiler makes of a list of rule statements.
use alca.Base.{
  ℕ, ◌+◌, ◌≡◌, refl, sym, ap, ◌∙◌, false, some, List, [], ◌∷◌, ◌++◌, append_assoc, append-nil,
  length, Bytes, arith,
}
use alca.HashMap.{HashMap}
use alca.Arena.{Arena}
use alca.Arena.Invariant.{HasRoom}
use alca.Arena.Strings.{IsSound}
use alca.Syntax
use alca.Syntax.{Token, Rule, Statement}
use alca.Context.{Context}
use alca.Bytecode.Emit.{Builder}
use alca.Vm.Machine.{Vm}
use alca.Semantics.{eval}
use alca.Semantics.Plain.{code_size, string_size}
use alca.Correct.Pieces.{Knows}
use alca.Correct.Rules.{Verdict, IsBuilder}
use alca.Compiler.Tables.{ModuleEntry, RuleEntry, find_ordinal_from}
use alca.Compiler.Statements.{Compiler, rule_flags, compile_all}
use alca.Compiler.Programs.{
  IsPlainRule, NamesKnown, NamesKnown-Keeps, Keeps, find_ordinal-Keeps, CompiledRule,
  compile_rule-CompiledRule,
}

-- A rule with its event type, its name and the ordinal of its module.
pub record Named : Type 0 where
  pub event : Bytes
  pub name : Bytes
  pub ordinal : ℕ
  pub rule : Rule

abbrev pub statements_of : List Named → List Statement
statements_of [] = []
statements_of (w ∷ ws) = Syntax.rule w.rule ∷ statements_of ws

-- the code and the strings that rules take at most
abbrev pub code_need : List Named → ℕ
code_need [] = 0
code_need (w ∷ ws) = (code_size w.rule.condition + 1) + code_need ws

abbrev pub string_need : List Named → ℕ
string_need [] = 0
string_need (w ∷ ws) = (length w.name + 1 + string_size w.rule.condition) + string_need ws

module _ {M : Type 0} ⦃h : HashMap Bytes ℕ M⦄ where
  -- Plain rules, whose modules are imported.
  abbrev pub ArePlain : Context M → Arena M → List ModuleEntry → List Named → Type 0
  ArePlain ctx strings table [] = Unit
  ArePlain ctx strings table (w ∷ ws) =
      (IsPlainRule ctx w.event w.name w.rule
        × (find_ordinal_from strings table w.event ≡ some w.ordinal))
      × ArePlain ctx strings table ws

  ArePlain-Keeps :
      (ctx : Context M) (a b : Arena M) (table : List ModuleEntry) (ws : List Named)
      → IsSound a
      → IsSound b
      → Keeps a b
      → NamesKnown a table
      → ArePlain ctx a table ws
      → ArePlain ctx b table ws
  ArePlain-Keeps ctx a b table [] va vb k n p = tt
  ArePlain-Keeps ctx a b table (w ∷ ws) va vb k n ((p, f), ps) = (
    (p, find_ordinal-Keeps a b table w.event va vb k n ∙ f),
    ArePlain-Keeps ctx a b table ws va vb k n ps,
  )

  -- The entry has the rule's flags, module and name, and its code gives what the condition means on every machine that
  -- has the builder's code and strings.
  pub record IsEntryOf (b : Builder M) (w : Named) (entry : RuleEntry) : Type 0 where
    pub flags : entry.flags ≡ rule_flags w.rule.is_private false
    pub module_ordinal : entry.module_ordinal ≡ w.ordinal
    pub named : h.get b.strings.strmap w.name ≡ some entry.name_offset
    pub runs :
        (vm : Vm M) (rest : Bytes)
        → vm.code ≡ b.code.content ++ rest
        → Knows vm b
        → vm.callstack ≡ []
        → Verdict vm entry.code_offset (eval vm.ctx w.event w.rule.condition)

  abbrev pub AreEntriesOf : Builder M → List Named → List RuleEntry → Type 0
  AreEntriesOf b [] [] = Unit
  AreEntriesOf b (w ∷ ws) (e ∷ es) = IsEntryOf b w e × AreEntriesOf b ws es
  AreEntriesOf b _ _ = ⊥

  -- `b'` is `b` with more code and more strings.
  record Grows (b b' : Builder M) : Type 0 where
    more : Bytes
    content : b'.code.content ≡ b.code.content ++ more
    keeps : Keeps b.strings b'.strings

  IsEntryOf-Grows :
      {b b' : Builder M} {w : Named} {e : RuleEntry}
      → Grows b b'
      → IsEntryOf b w e
      → IsEntryOf b' w e
  IsEntryOf-Grows {b} {w = w} {e} g p = record {
    flags = p.flags;
    module_ordinal = p.module_ordinal;
    named = g.keeps w.name e.name_offset p.named;
    runs = λ vm rest code kn stack.
        p.runs vm (g.more ++ rest)
          (code ∙ ap (λ (z : Bytes). z ++ rest) g.content ∙ append_assoc b.code.content g.more rest)
          (λ t o k. kn t o (g.keeps t o k)) stack;
  }

  -- What the compiler makes of rule statements: one entry for each, behind those that were there.
  pub record CompiledRules (ws : List Named) (c : Compiler M) : Type 0 where
    pub after : Compiler M
    pub entries : List RuleEntry
    pub compiles :
        (version : Bytes → ℕ) → compile_all version (statements_of ws) c 0 ≡ some (after, 0)
    pub rules : after.rule_table ≡ c.rule_table ++ entries
    pub valid : IsBuilder after.builder
    pub entry_of : AreEntriesOf after.builder ws entries
    grows : Grows c.builder after.builder

  first_and_rest :
      {w : Named} {ws : List Named} {c : Compiler M}
      → (x : CompiledRule w.event w.name w.ordinal w.rule c) → CompiledRules ws x.after
      → CompiledRules (w ∷ ws) c
  unfolding compile_all
  first_and_rest {w} {ws} {c} x y = record {
    after = y.after;
    entries = x.entry ∷ y.entries;
    compiles = λ version. rw (x.compiles version, compile_all) (y.compiles version);
    rules =
        y.rules
        ∙ ap (λ (z : List RuleEntry). z ++ y.entries) x.rules
        ∙ append_assoc c.rule_table (x.entry ∷ []) y.entries;
    valid = y.valid;
    entry_of = (
      IsEntryOf-Grows y.grows (record {
        flags = x.flags;
        module_ordinal = x.module_ordinal;
        named = x.named;
        runs = x.runs;
      }),
      y.entry_of,
    );
    grows = record {
      more = x.code ++ y.grows.more;
      content =
          y.grows.content
          ∙ ap (λ (z : Bytes). z ++ y.grows.more) x.content
          ∙ append_assoc c.builder.code.content x.code y.grows.more;
      keeps = λ t o k. y.grows.keeps t o (x.keeps t o k);
    };
  }

  -- Where the modules' names are known, plain rules of imported modules compile without an error, if the code and the
  -- strings have room for them: the table gets one entry for each, in their order, with the rule's flags, module and name, and
  -- on every machine whose code starts with the compiler's, that has its strings, and whose call stack is empty, the code
  -- at each entry's offset gives, with enough fuel, what the rule's condition means.
  pub compile_all-CompiledRules :
      (ws : List Named) (c : Compiler M)
      → ArePlain c.builder.ctx c.builder.strings c.module_table ws
      → IsBuilder c.builder
      → NamesKnown c.builder.strings c.module_table
      → HasRoom c.builder.code (code_need ws)
      → HasRoom c.builder.strings (string_need ws)
      → CompiledRules ws c
  unfolding compile_all
  compile_all-CompiledRules [] c p w n k l = record {
    after = c;
    entries = [];
    compiles = λ version. refl;
    rules = sym (append-nil c.rule_table);
    valid = w;
    entry_of = tt;
    grows = record {
      more = [];
      content = sym (append-nil c.builder.code.content);
      keeps = λ t o e. e;
    };
  }
  compile_all-CompiledRules (r ∷ ws) c ((p, f), ps) w n k l =
      let x =
        compile_rule-CompiledRule r.event r.name r.ordinal r.rule c p w n f (omega (arith, k))
          (omega (arith, l)) in
      let n' : NamesKnown x.after.builder.strings x.after.module_table =
        rw x.modules
          (NamesKnown-Keeps c.builder.strings x.after.builder.strings c.module_table x.keeps n) in
      let ps' : ArePlain x.after.builder.ctx x.after.builder.strings x.after.module_table ws =
        rw (x.modules, x.ctx)
          (ArePlain-Keeps c.builder.ctx c.builder.strings x.after.builder.strings c.module_table ws
            w.sound x.valid.sound x.keeps n ps) in
      first_and_rest x (
        compile_all-CompiledRules ws x.after ps' x.valid n' (omega (arith, k, x.code_room))
          (omega (arith, l, x.string_room)))
