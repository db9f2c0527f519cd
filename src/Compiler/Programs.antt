-- ===== src/Compiler/Programs.antt =====
-- What the compiler makes of one rule statement.
use alca.Base.{
  ℕ, ◌+◌, ◌≤◌, ◌≡◌, refl, ◌∙◌, true, false, Option, some, List, [], ◌∷◌, ◌++◌, length, Bytes, arith,
}
use alca.HashMap.{HashMap}
use alca.Arena.{Arena, ac_arena_add_string}
use alca.Arena.Invariant.{HasRoom}
use alca.Arena.Strings.{NoNul, IsSound, add_string-Adds, get_string_known}
use alca.Syntax
use alca.Syntax.{Token, Rule, Statement}
use alca.Context.{Context, ac_context_get_module}
use alca.Bytecode.Emit.{Builder, ac_bytecode_emit_rule}
use alca.Vm.Machine.{Vm}
use alca.Semantics.{eval}
use alca.Semantics.Plain.{IsPlain, code_size, string_size, depth}
use alca.Correct.Pieces.{Knows}
use alca.Correct.Rules.{Verdict, IsBuilder, emit_rule-RuleCode}
use alca.Compiler.Tables.{ModuleEntry, RuleEntry, find_ordinal_from, compiler_find_module_ordinal}
use alca.Compiler.Statements.{
  Compiler, rule_flags, event_name, add_name, rule_name, emit_entry, rule_entry,
  compiler_add_rule_entry, compiler_compile_rule, compile_statement,
}

-- A rule with the event type and the name, for a context that has the module, with a plain condition.
pub record IsPlainRule {M : Type 0} ⦃h : HashMap Bytes ℕ M⦄ (ctx : Context M) (event name : Bytes)
    (r : Rule) : Type 0 where
  pub token : Token
  pub has_event : r.event ≡ some token
  pub event_text : token.value ≡ Syntax.text event
  pub name_text : r.name.value ≡ Syntax.text name
  pub clean : NoNul name
  pub inside : r.external ≡ false
  pub known : ac_context_get_module ctx event ≡ true
  pub plain : IsPlain event r.condition
  pub shallow : depth r.condition ≤ 256

event_name_text :
    (o : Option Token) (t : Token) (event : Bytes)
    → o ≡ some t
    → t.value ≡ Syntax.text event
    → event_name o ≡ some (some event)
unfolding event_name
event_name_text o t event e e' = rw (e, e', event_name) refl

module _ {M : Type 0} ⦃h : HashMap Bytes ℕ M⦄ where
  -- The data section knows the names of the modules.
  abbrev pub NamesKnown : Arena M → List ModuleEntry → Type 0
  NamesKnown a [] = Unit
  NamesKnown a (e ∷ entries) =
      ((s : Bytes) × (h.get a.strmap s ≡ some e.name_offset)) × NamesKnown a entries

  abbrev pub Keeps : Arena M → Arena M → Type 0
  Keeps a b = (t : Bytes) (o : ℕ) → h.get a.strmap t ≡ some o → h.get b.strmap t ≡ some o

  pub NamesKnown-Keeps :
      (a b : Arena M) (table : List ModuleEntry)
      → Keeps a b
      → NamesKnown a table
      → NamesKnown b table
  NamesKnown-Keeps a b [] k n = tt
  NamesKnown-Keeps a b (e ∷ entries) k ((s, p), n) =
      ((s, k s e.name_offset p), NamesKnown-Keeps a b entries k n)

  -- More strings change no lookup of a module.
  pub find_ordinal-Keeps :
      (a b : Arena M) (table : List ModuleEntry) (name : Bytes)
      → IsSound a
      → IsSound b
      → Keeps a b
      → NamesKnown a table
      → find_ordinal_from b table name ≡ find_ordinal_from a table name
  unfolding find_ordinal_from
  find_ordinal-Keeps a b [] name va vb k n = refl
  find_ordinal-Keeps a b (e ∷ entries) name va vb k ((s, p), n) =
      rw
        (
          get_string_known a s e.name_offset va p,
          get_string_known b s e.name_offset vb (k s e.name_offset p),
          find_ordinal-Keeps a b entries name va vb k n,
          find_ordinal_from,
        )
        refl

  -- A rule statement compiled to an entry: behind the entries that were there, with the rule's flags, its module and its
  -- name, and with code that gives what the condition means wherever a machine has the code and the strings.
  pub record CompiledRule (event name : Bytes) (ordinal : ℕ) (r : Rule) (c : Compiler M)
      : Type 0 where
    pub after : Compiler M
    pub entry : RuleEntry
    pub compiles :
        (version : Bytes → ℕ) → compile_statement version (Syntax.rule r) c ≡ some (after, 0)
    pub rules : after.rule_table ≡ c.rule_table ++ (entry ∷ [])
    pub modules : after.module_table ≡ c.module_table
    pub ctx : after.builder.ctx ≡ c.builder.ctx
    pub valid : IsBuilder after.builder
    pub code : Bytes
    pub content : after.builder.code.content ≡ c.builder.code.content ++ code
    pub code_room : after.builder.code.size ≡ c.builder.code.size + (code_size r.condition + 1)
    pub string_room :
        after.builder.strings.size
        ≤ c.builder.strings.size + (length name + 1 + string_size r.condition)
    pub keeps : Keeps c.builder.strings after.builder.strings
    pub flags : entry.flags ≡ rule_flags r.is_private false
    pub module_ordinal : entry.module_ordinal ≡ ordinal
    pub named : h.get after.builder.strings.strmap name ≡ some entry.name_offset
    pub runs :
        (vm : Vm M) (rest : Bytes)
        → vm.code ≡ after.builder.code.content ++ rest
        → Knows vm after.builder
        → vm.callstack ≡ []
        → Verdict vm entry.code_offset (eval vm.ctx event r.condition)

  rule_name_text :
      (t : Token) (name : Bytes) (c : Compiler M)
      → t.value ≡ Syntax.text name
      → rule_name false t c ≡ some ((add_name name c).0, (length name, (add_name name c).1))
  unfolding rule_name
  rule_name_text t name c e = rw (e, rule_name) refl

  emit_entry_ok :
      (r : Rule) (lname offset ordinal : ℕ) (c : Compiler M) (b : Builder M)
      → ac_bytecode_emit_rule r c.builder ≡ some (b, 0)
      → emit_entry r false lname offset ordinal c
        ≡ some (
          record c {
            builder = b;
            rule_table =
                c.rule_table
                ++ (record {
                  flags = rule_flags r.is_private false;
                  code_offset = c.builder.code.size;
                  module_ordinal = ordinal;
                  lname = lname;
                  name_offset = offset;
                }
                    ∷ []);
          },
          (0, some (length c.rule_table)),
        )
  unfolding emit_entry compiler_add_rule_entry
  emit_entry_ok r lname offset ordinal c b e = rw (e, emit_entry) refl

  compile_rule_steps :
      (version : Bytes → ℕ) (r : Rule) (c c₁ c₂ : Compiler M) (lname offset ordinal : ℕ)
      (event : Option Bytes) (i : Option ℕ)
      → rule_name false r.name c ≡ some (c₁, (lname, offset))
      → event_name r.event ≡ some event
      → compiler_find_module_ordinal c₁.builder.strings c₁.module_table event ≡ some ordinal
      → emit_entry r false lname offset ordinal c₁ ≡ some (c₂, (0, i))
      → compile_statement version (Syntax.rule r) c ≡ some (c₂, 0)
  unfolding compile_statement compiler_compile_rule rule_entry
  compile_rule_steps version r c c₁ c₂ lname offset ordinal event i p q f e =
      rw (p, q, f, e, compile_statement, compiler_compile_rule, rule_entry) refl

  pub compile_rule-CompiledRule :
      (event name : Bytes) (ordinal : ℕ) (r : Rule) (c : Compiler M)
      → IsPlainRule c.builder.ctx event name r
      → IsBuilder c.builder
      → NamesKnown c.builder.strings c.module_table
      → find_ordinal_from c.builder.strings c.module_table event ≡ some ordinal
      → HasRoom c.builder.code (code_size r.condition + 1)
      → HasRoom c.builder.strings (length name + 1 + string_size r.condition)
      → CompiledRule event name ordinal r c
  compile_rule-CompiledRule event name ordinal r c p w n f k l =
      let a = add_string-Adds c.builder.strings name p.clean (omega (arith, l)) w.strings w.sound in
      let added = ac_arena_add_string c.builder.strings name (length name) in
      let b : Builder M = record c.builder { strings = added.0 } in
      let rc =
        emit_rule-RuleCode event r p.token b p.has_event p.event_text p.inside p.known p.plain
          p.shallow (record { code = w.code; strings = a.arena; sound = a.sound }) k
          (omega (arith, a.bounded, l)) in
      let f' : find_ordinal_from added.0 c.module_table event ≡ some ordinal =
        find_ordinal-Keeps c.builder.strings added.0 c.module_table event w.sound a.sound a.keeps n
        ∙ f in
      let entry : RuleEntry = record {
        flags = rule_flags r.is_private false;
        code_offset = c.builder.code.size;
        module_ordinal = ordinal;
        lname = length name;
        name_offset = added.1;
      } in
      let after : Compiler M = record c {
        builder = rc.after;
        rule_table = c.rule_table ++ (entry ∷ []);
      } in
      record {
        after = after;
        entry = entry;
        compiles = λ version.
            compile_rule_steps version r c _ after _ _ ordinal (some event)
              (some (length c.rule_table)) (rule_name_text r.name name c p.name_text)
              (event_name_text r.event p.token event p.has_event p.event_text)
              (unfold compiler_find_module_ordinal add_name in f')
              (unfold add_name in
                emit_entry_ok r (length name) added.1 ordinal _ rc.after rc.emits);
        rules = refl;
        modules = refl;
        ctx = rc.piece.ctx;
        valid = rc.valid;
        code = rc.code;
        content = rc.piece.content;
        code_room = omega (arith, rc.piece.size, rc.sized);
        string_room = omega (arith, rc.piece.bound, a.bounded);
        keeps = λ t o e. rc.piece.keeps t o (a.keeps t o e);
        flags = refl;
        module_ordinal = refl;
        named = rc.piece.keeps name added.1 a.knows;
        runs = rc.runs;
      }
