-- ===== src/Tests/Compiling.antt =====
-- Two rules for the event `f`, compiled behind `import f`, and an exported file.
use alca.Base.{
  ℕ, ◌≡◌, ◌≤◌, ◌∷◌, [], List, refl, true, false, Bool, none, some, arith, Bytes, bytes_eq, inl, inr,
}
use alca.Arena.{Arena, ac_arena_add_string, ac_arena_get_string, append_bytes, c_string}
use alca.Arena.Strings.{Adds, add_string-Adds}
use alca.Syntax
use alca.Syntax.{Statement, Rule}
use alca.Compiler.Tables.{ModuleEntry, find_ordinal_from}
use alca.Compiler.Statements.{Compiler, compiler_compile_statements}
use alca.Compiler.Export.{compiler_export}
use alca.Compiler.Layout.{joined}
use alca.Compiler.Reader.{image_of, Exports, read_image, read_image-compiler_export}
use alca.Compiler.Programs.{IsPlainRule}
use alca.Compiler.RuleSets.{Named, CompiledRules, compile_all-CompiledRules}
use alca.Compiler.Invariant.{IsCompiler}
use alca.Compiler.Preserves.{Gives}
use alca.Compiler.Bounds.{compile_statements-IsCompiler}
use alca.Tests.Maps.{string_map}
use alca.Tests.Rules.{
  StringsMap, token, f_name, empty_arena, context, builder, event_token, test_rule,
  empty_arena-IsArena, empty_arena-IsSound, condition-IsPlain, small, known_module,
}

with_f : Adds empty_arena f_name (ac_arena_add_string empty_arena f_name 1)
with_f =
    add_string-Adds empty_arena f_name (omega arith, tt) (omega arith) empty_arena-IsArena
      empty_arena-IsSound

abbrev strings : Arena StringsMap
strings = (ac_arena_add_string empty_arena f_name 1).0

abbrev f_module : ModuleEntry
f_module = record { ordinal = 1; version = 1; lname = 1; name_offset = 0 }

abbrev compiler : Compiler StringsMap
compiler = record {
  builder = record builder { strings = strings };
  sources = [];
  asts = some ((Syntax.rule test_rule ∷ Syntax.import event_token ∷ []) ∷ []);
  module_table = f_module ∷ [];
  rule_table = [];
  sequence_table = [];
  errors = [];
  locked = true;
  done = false;
}

abbrev s_rule : Rule
s_rule = record test_rule {
  name = token Syntax.identifier (Syntax.text (115 ∷ []));
  is_private = true;
}

abbrev rules : List Named
rules =
    record { event = f_name; name = 114 ∷ []; ordinal = 1; rule = test_rule }
    ∷ record { event = f_name; name = 115 ∷ []; ordinal = 1; rule = s_rule }
    ∷ []

is_plain :
    (c : ℕ)
    → (is_private : Bool) → 1 ≤ c
    → IsPlainRule context f_name (c ∷ []) (record test_rule {
      name = token Syntax.identifier (Syntax.text (c ∷ []));
      is_private = is_private;
    })
is_plain c is_private l = record {
  token = event_token;
  has_event = refl;
  event_text = refl;
  name_text = refl;
  clean = (l, tt);
  inside = refl;
  known = known_module;
  plain = condition-IsPlain;
  shallow = omega (arith, small.2);
}

f_found : find_ordinal_from strings (f_module ∷ []) f_name ≡ some 1
unfolding find_ordinal_from ac_arena_add_string ac_arena_get_string append_bytes c_string bytes_eq
    alca.Arena.arena_extend
f_found = refl

compile_all-CompiledRules_example : CompiledRules rules compiler
unfolding ac_arena_add_string
compile_all-CompiledRules_example =
    compile_all-CompiledRules rules compiler
      (
        (is_plain 114 false (omega arith), f_found),
        ((is_plain 115 true (omega arith), f_found), tt),
      )
      (record { code = empty_arena-IsArena; strings = with_f.arena; sound = with_f.sound })
      ((f_name, with_f.knows), tt) (omega (arith, small.0)) (omega (arith, small.1, with_f.bounded))

compile_statements-IsCompiler_example :
    Gives (λ (c', e). IsCompiler c') (compiler_compile_statements (λ name. 1) compiler)
compile_statements-IsCompiler_example =
    compile_statements-IsCompiler (λ name. 1) compiler
      (record { ordinals = (refl, tt); rules = tt; sequences = tt })

abbrev exported : Compiler StringsMap
exported = record compiler {
  builder = record builder { code = record empty_arena { content = 1 ∷ []; size = 1 } };
  rule_table =
      record { flags = 2; code_offset = 0; module_ordinal = 1; lname = 1; name_offset = 3 } ∷ [];
  sequence_table =
      record {
        flags = 0;
        max_span = 60;
        rule_count = 2;
        lname = 1;
        name_offset = 3;
        rule_indices = 0 ∷ 0 ∷ [];
      }
      ∷ [];
}

read_image-compiler_export_example :
    (read_image (joined exported) ≡ some (image_of exported))
    × Exports exported (compiler_export exported)
unfolding alca.Base.Words.le_bytes
read_image-compiler_export_example = read_image-compiler_export exported (record {
  modules = omega arith;
  rules = omega arith;
  sequences = omega arith;
  strings = refl;
  code = refl;
  small = omega arith;
  counts = omega arith;
})
