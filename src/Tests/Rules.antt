-- ===== src/Tests/Rules.antt =====
-- The rule `rule r : f { f.n > 1 and true }`, compiled and executed where `f.n` is 3.
use alca.Base.{
  subst, ℕ, ◌≡◌, zero, suc, refl, true, false, Option, none, some, List, [], ◌∷◌, append-nil, sym,
  arith, inl, inr, Bytes, bytes_eq,
}
use alca.Arena.{Arena}
use alca.Arena.Invariant.{IsArena}
use alca.Arena.Strings.{IsSound}
use alca.Syntax
use alca.Syntax.{Token, TokenType, TokenValue, Expr, Rule}
use alca.Context.{
  ac_context_object_get, ac_context_object_get_data, Context, Object, word, ac_context_get_module,
  ac_context_get,
}
use alca.Compiler.Tables.{RuleEntry}
use alca.Bytecode.Opcode
use alca.Bytecode.Emit.{Builder, bytecode_emit_expr, binary_opcode}
use alca.Vm.Operators.{Answer, value, undefined}
use alca.Vm.Machine.{Vm}
use alca.Vm.Text.{strncmp_eq}
use alca.Vm.Sequences.{MonRule}
use alca.Vm.Exec.{Environment, Session, exec_rules, ac_vm_exec}
use alca.Vm.Events.{event_bytes, fresh, vm_exec-event_bytes}
use alca.Semantics.{eval, literal_meaning, field_meaning, part_meaning, load_meaning}
use alca.Semantics.Operators.{binary_meaning}
use alca.Semantics.Plain.{IsPlain, code_size, string_size, depth, is_binary}
use alca.Correct.Operators.{Compiles}
use alca.Correct.Compile.{expr-Compiles}
use alca.Correct.Rules.{Verdict, IsBuilder, RuleCode, emit_rule-RuleCode, same_strings-Knows}
use alca.Correct.Events.{Executed, Matches, exec_rule-eval}
use alca.Correct.Sessions.{Succeeds, exec_rules-Succeeds}
use alca.Tests.Maps.{string_map, rule_map, name_map}

abbrev pub StringsMap : Type 0
StringsMap = List (Bytes × ℕ)

abbrev pub token : TokenType → TokenValue → Token
token t v = record { type = t; value = v; line = 1; flags = 0 }

abbrev pub f_name : Bytes
f_name = 102 ∷ []

abbrev pub condition : Expr
condition =
    Syntax.binary
      (Syntax.binary
        (Syntax.field 4 (Syntax.literal (token Syntax.identifier (Syntax.text f_name)))
          (token Syntax.identifier (Syntax.text (110 ∷ []))))
        (token Syntax.greater Syntax.null) (Syntax.literal (token Syntax.number (Syntax.word 1)))
        Syntax.number)
      (token Syntax.and_kw Syntax.null) (Syntax.literal (token Syntax.true_kw Syntax.null))
      Syntax.true_kw

abbrev pub empty_arena : Arena StringsMap
empty_arena = record { content = []; size = 0; capacity = 64; strmap = [] }

abbrev pub n_object : Object StringsMap
n_object = record {
  is_const = false;
  name = 110 ∷ [];
  version = 0;
  fields = [];
  field_type = 4;
  content = word 3;
  function = none;
  arg_count = 0;
  arg_types = [];
}

abbrev pub heap : ℕ → Option (Object StringsMap)
heap zero = some (record n_object {
  name = f_name;
  version = 1;
  fields = (110 ∷ [], 1) ∷ [];
  field_type = 144;
  content = word 0;
})
heap (suc zero) = some n_object
heap _ = none

abbrev pub context : Context StringsMap
context = record { objects = (f_name, 0) ∷ []; modules = (f_name, 0) ∷ []; heap = heap }

abbrev pub builder : Builder StringsMap
builder = record {
  module_name = none;
  iter = none;
  code = empty_arena;
  strings = empty_arena;
  ctx = context;
}

abbrev named_builder : Builder StringsMap
named_builder = record builder { module_name = some f_name }

pub empty_arena-IsArena : IsArena empty_arena
empty_arena-IsArena = record { sized = refl; fits = omega arith; small = omega arith }

pub empty_arena-IsSound : IsSound empty_arena
empty_arena-IsSound = record { sound = λ s o e. cc }

pub builder-IsBuilder : IsBuilder builder
builder-IsBuilder = record {
  code = empty_arena-IsArena;
  strings = empty_arena-IsArena;
  sound = empty_arena-IsSound;
}

pub condition-IsPlain : IsPlain f_name condition
unfolding binary_opcode is_binary bytes_eq
condition-IsPlain = (
  ((((omega arith, tt), refl), (omega arith, tt)), omega arith, (Opcode.gt, refl, refl)),
  tt,
  (Opcode.andl, refl, refl),
)

pub small : (code_size condition ≡ 38) × (string_size condition ≡ 4) × (depth condition ≡ 2)
unfolding code_size string_size depth
small = (refl, refl, refl)

expr-Compiles_example :
    Compiles f_name
      (bytecode_emit_expr condition)
      (code_size condition)
      (string_size condition)
      (depth condition)
      (λ ctx. eval ctx f_name condition)
      named_builder
expr-Compiles_example =
    expr-Compiles condition named_builder condition-IsPlain
      (record {
        code = empty_arena-IsArena;
        strings = empty_arena-IsArena;
        sound = empty_arena-IsSound;
        module_name = refl;
      })
      (omega (arith, small.0)) (omega (arith, small.1))

abbrev pub event_token : Token
event_token = token Syntax.identifier (Syntax.text f_name)

abbrev pub test_rule : Rule
test_rule = record {
  external = false;
  is_private = false;
  name = token Syntax.identifier (Syntax.text (114 ∷ []));
  event = some event_token;
  condition = condition;
}

pub known_module : ac_context_get_module context f_name ≡ true
unfolding ac_context_get_module bytes_eq
known_module = refl

emit_rule-RuleCode_example : RuleCode f_name test_rule builder
emit_rule-RuleCode_example =
    emit_rule-RuleCode f_name test_rule event_token builder refl refl refl known_module
      condition-IsPlain (omega (arith, small.2)) builder-IsBuilder (omega (arith, small.0))
      (omega (arith, small.1))

abbrev compiled : RuleCode f_name test_rule builder
compiled =
    emit_rule-RuleCode f_name test_rule event_token builder refl refl refl known_module
      condition-IsPlain (omega (arith, small.2)) builder-IsBuilder (omega (arith, small.0))
      (omega (arith, small.1))

abbrev vm : Vm StringsMap
vm = record {
  code = compiled.after.code.content;
  strings = compiled.after.strings;
  ctx = context;
  rule_table = [];
  callstack = [];
  pcre2_matches = λ pattern flags subject. false;
  c_functions = λ o v vs. undefined;
}

abbrev RulesMap : Type 0
RulesMap = List (ℕ × MonRule)

abbrev NamesMap : Type 0
NamesMap = List (ℕ × Bytes)

abbrev entry : RuleEntry
entry = record { flags = 0; code_offset = 0; module_ordinal = 1; lname = 1; name_offset = 0 }

abbrev env : Environment StringsMap RulesMap NamesMap
env = record {
  callbacks = some 1 ∷ [];
  rules = [];
  sequences = [];
  modules = (1, f_name) ∷ [];
  clock = λ i. record { tv_sec = 100; tv_usec = i };
  unmarshal = λ ctx o bytes. some ctx;
}

abbrev session : Session RulesMap
session = record { stack = []; sequences = []; triggers = record { reports = []; ntriggers = 0 } }

entry-Matches : Matches env f_name 1 entry
unfolding strncmp_eq bytes_eq
entry-Matches = record { module_name = f_name; has_module = refl; named = refl; same = refl }

exec_rule-eval_example : Executed env vm f_name 1 0 entry session 0 (eval context f_name condition)
exec_rule-eval_example =
    exec_rule-eval env vm f_name f_name 1 0 entry session 0 test_rule builder [] compiled
      (sym (append-nil _)) (same_strings-Knows vm compiled.after compiled.valid.sound refl) refl
      refl entry-Matches (tt, refl) refl

abbrev file_object : Object StringsMap
file_object = record n_object {
  name = f_name;
  version = 1;
  fields = (110 ∷ [], 1) ∷ [];
  field_type = 144;
  content = word 0;
}

known_object : ac_context_get context f_name ≡ some 0
unfolding ac_context_get bytes_eq
known_object = refl

vm_exec-event_bytes_example :
    ac_vm_exec 50 env vm (event_bytes 1 f_name (9 ∷ [])) session
    ≡ exec_rules 50 env (record vm { ctx = context }) f_name 2 0 env.rules (fresh session) 0
vm_exec-event_bytes_example =
    vm_exec-event_bytes 50 env vm session 1 0 f_name (9 ∷ []) file_object context (omega arith)
      (omega arith) (omega arith, tt) known_object refl refl refl

condition_meaning : eval context f_name condition ≡ value (word 1)
unfolding eval literal_meaning bytes_eq ac_context_get field_meaning part_meaning
    ac_context_object_get load_meaning ac_context_object_get_data binary_meaning
condition_meaning = refl

entry-Verdict : Verdict vm 0 (value (word 1))
entry-Verdict =
    subst (λ (a : Answer). Verdict vm 0 a) condition_meaning
      (compiled.runs vm [] (sym (append-nil _))
        (same_strings-Knows vm compiled.after compiled.valid.sound refl) refl)

exec_rules-Succeeds_example :
    Succeeds env vm f_name 1 0 (entry ∷ record entry { module_ordinal = 0 } ∷ []) session 0
exec_rules-Succeeds_example =
    exec_rules-Succeeds env vm f_name 1 0 (entry ∷ record entry { module_ordinal = 0 } ∷ []) session
      0 (tt, refl) refl (inr (entry-Matches, (1, entry-Verdict)), (inl (inl refl, tt), tt))
