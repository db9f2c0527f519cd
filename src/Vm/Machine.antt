-- ===== src/Vm/Machine.antt =====
-- `ac_vm_exec_code`: the interpreter.
-- The virtual machine's stack is a list, last pushed first, and `ip` is an offset into the code. The
-- registers `r1` and `r2` are set by each case before it reads them, and so are no part of the state.
use alca.Base.{
  ℕ, zero, suc, ◌+◌, Bool, true, false, not, ◌||◌, Option, none, some, List, [], ◌∷◌, ltb, leb,
  ◌==◌, if◌then◌else◌, length, get_elem?, set, drop, Bytes,
}
use alca.Base.Words.{read_le}
use alca.HashMap.{HashMap}
use alca.Arena.{Arena, ac_arena_get_string}
use alca.Context.{
  Value, word, str, obj, Context, ac_context_get, ac_context_object_get, ac_context_object_get_data,
  ac_context_object_get_array_item, ac_context_object_get_function,
}
use alca.Bytecode.Opcode.{Opcode, decode}
use alca.Compiler.Tables.{RuleEntry, ac_compiler_find_rule_idx_by_name}
use alca.Vm.Operators.{Answer, value, raise, undefined, of_bool, truth, binary_op, unary_op}

-- VM_STACK_MAX, VM_ACCUM_MAX
abbrev pub stack_max : ℕ
stack_max = 256

abbrev pub accum_max : ℕ
accum_max = 4

-- The parts of `ac_vm` and of its compiler that running code does not change. Nothing ever pushes on
-- `callstack`. `pcre2_matches` and `c_functions` are the libraries' PCRE2 and the modules' functions:
-- whether a pattern compiles under the flags and matches a subject, and the result of a call on the
-- function object, which is what `r2` holds, and the arguments (an error code, or a value).
pub record Vm (M : Type 0) : Type 0 where
  pub code : Bytes
  pub strings : Arena M
  pub ctx : Context M
  pub rule_table : List RuleEntry
  pub callstack : List ℕ
  pub pcre2_matches : Bytes → ℕ → Bytes → Bool
  pub c_functions : ℕ → Value → List Value → Answer

pub record Machine : Type 0 where
  pub stack : List Value
  pub ip : ℕ
  pub regs : List Value

-- What one round of the loop comes to: the next state; the end of the loop with `*result`, the error
-- code and the stack that is left; or undefined behaviour.
pub data Step : Type 0 where
  continue : Machine → Step
  stop : ℕ → ℕ → List Value → Step
  fault : Step
  out_of_fuel : Step

-- The macro `push`. A full stack ends the loop with AC_ERROR_STACK_OVERFLOW in `*result`, and leaves
-- the error code as it is.
unfoldable pub push : Value → Machine → Step
push v m =
    if leb stack_max (length m.stack)
    then stop 24 0 m.stack
    else continue (record m { stack = v ∷ m.stack })

-- the macro `pop`
abbrev pub pop : Machine → (Value → Machine → Step) → Step
pop m k = elim m.stack [ [] ↦ fault | v ∷ s ↦ k v (record m { stack = s }) ]

-- a value whose members `i` and `b`, `s`, or `o` are read
abbrev pub as_word : Value → (ℕ → Step) → Step
as_word (word n) k = k n
as_word _ k = fault

abbrev pub as_str : Value → (Bytes → Step) → Step
as_str (str s) k = k s
as_str _ k = fault

abbrev pub as_obj : Value → (ℕ → Step) → Step
as_obj (obj o) k = k o
as_obj _ k = fault

abbrev pub or_fault {ℓ} : {A : Type ℓ} → Option A → (A → Step) → Step
or_fault none k = fault
or_fault (some a) k = k a

unfoldable pub answer : Answer → Machine → Step
answer (value v) m = push v m
answer (raise e) m = stop 0 e m.stack
answer undefined m = fault

-- `while (!stop)`
abbrev pub after_step : Step → (Machine → Step) → Step
after_step (continue m) k = k m
after_step (stop result err s) k = stop result err s
after_step fault k = fault
after_step out_of_fuel k = out_of_fuel

-- Code that another rule is: its offset and the stack, to the result, the error code and the stack.
abbrev pub Callee : Type 0
Callee = ℕ → List Value → Step

-- OP_HLT
unfoldable pub exec_hlt : Machine → Step
exec_hlt m = pop m λ r₁ m₁. as_word r₁ λ b. stop b 0 m₁.stack

-- the arguments of OP_CALL
unfoldable pub pop_args : ℕ → Machine → Option (List Value × Machine)
pop_args zero m = some ([], m)
pop_args (suc n) m = elim m.stack [
  | [] ↦ none
  | v ∷ s ↦ elim (pop_args n (record m { stack = s })) [
    | none ↦ none
    | some (vs, m₁) ↦ some (v ∷ vs, m₁)
  ]
]

-- the operators of `Vm.Operators`
unfoldable pub exec_unary : Opcode → Machine → Step
exec_unary op m = pop m λ r₁ m₁. answer (unary_op op r₁) m₁

unfoldable pub exec_binary : Opcode → Machine → Step
exec_binary op m = pop m λ r₁ m₁. pop m₁ λ r₂ m₂. answer (binary_op op r₂ r₁) m₂

-- the state at the start of `ac_vm_exec_code`
abbrev pub start : ℕ → List Value → Machine
start offset s = record { stack = s; ip = offset; regs = word 0 ∷ word 0 ∷ word 0 ∷ word 0 ∷ [] }

unfoldable pub contains_offset : List ℕ → ℕ → Bool
contains_offset [] x = false
contains_offset (y ∷ ys) x = y == x || contains_offset ys x

-- 14 is AC_ERROR_MODULE, 26 is AC_ERROR_INDEX
abbrev pub push_module : Option ℕ → Machine → Step
push_module none m = stop 0 14 m.stack
push_module (some o) m = push (obj o) m

abbrev pub push_item : Option Value → Machine → Step
push_item none m = stop 0 26 m.stack
push_item (some v) m = push v m

module _ {M : Type 0} where
  -- the macro `arg`
  abbrev pub fetch_arg : Vm M → Machine → (ℕ → Machine → Step) → Step
  fetch_arg vm m k = or_fault (read_le (drop m.ip vm.code)) λ x. k x (record m { ip = m.ip + 4 })

  -- OP_JFALSE, OP_JTRUE and OP_JMP. The first two look at the top of the stack.
  unfoldable pub exec_branch : Bool → Vm M → Machine → Step
  exec_branch when vm m = pop m λ r₁ m₁. fetch_arg vm m λ offset m₂. as_word r₁ λ b. elim when [
    | true ↦ continue (if truth b then record m₂ { ip = offset } else m₂)
    | false ↦ continue (if truth b then m₂ else record m₂ { ip = offset })
  ]

  unfoldable pub exec_jmp : Vm M → Machine → Step
  exec_jmp vm m = fetch_arg vm m λ offset m₁. continue (record m₁ { ip = offset })

  -- OP_PUSHINT and OP_PUSHBOOL
  unfoldable pub exec_push_word : Vm M → Machine → Step
  exec_push_word vm m = fetch_arg vm m λ x m₁. push (word x) m₁

  -- OP_LOAD and OP_STORE
  unfoldable pub exec_load : Vm M → Machine → Step
  exec_load vm m = fetch_arg vm m λ accum m₁. or_fault (get_elem? m₁.regs accum) λ v. push v m₁

  unfoldable pub exec_store : Vm M → Machine → Step
  exec_store vm m = pop m λ r₁ m₁. fetch_arg vm m₁ λ accum m₂.
      if not (ltb accum accum_max)
      then fault
      else continue (record m₂ { regs = set m₂.regs accum r₁ })

  -- OP_OBJECT
  unfoldable pub exec_object : Vm M → Machine → Step
  exec_object vm m =
      pop m λ r₁ m₁. as_obj r₁ λ o. or_fault (ac_context_object_get_data vm.ctx o) λ v. push v m₁

  -- OP_INDEX
  unfoldable pub exec_index : Vm M → Machine → Step
  exec_index vm m = pop m λ r₁ m₁. pop m₁ λ r₂ m₂. as_word r₁ λ i.
      as_obj r₂
        λ o. or_fault (vm.ctx.heap o) λ x. push_item (ac_context_object_get_array_item x i) m₂

  -- OP_MATCHES: flags, pattern and subject
  unfoldable pub exec_matches : Vm M → Machine → Step
  exec_matches vm m = pop m λ r₁ m₁. pop m₁ λ r₂ m₂. as_word r₁ λ flags. pop m₂ λ r₃ m₃.
      as_str r₂ λ pattern.
        as_str r₃ λ subject. push (word (of_bool (vm.pcre2_matches pattern flags subject))) m₃

  -- OP_CALL. The function gets `r2`, the argument count, where it expects its object.
  unfoldable pub exec_call : Vm M → Machine → Step
  exec_call vm m = pop m λ r₁ m₁. pop m₁ λ r₂ m₂. as_word r₂ λ n.
      or_fault (pop_args n m₂) λ (args, m₃). as_obj r₁ λ o.
        or_fault (vm.ctx.heap o) λ x.
          or_fault (ac_context_object_get_function x) λ fn. answer (vm.c_functions fn r₂ args) m₃

module _ {M : Type 0} ⦃h : HashMap Bytes ℕ M⦄ where
  -- OP_PUSHSTRING, OP_PUSHMODULE and OP_FIELD
  unfoldable pub exec_push_string : Vm M → Machine → Step
  exec_push_string vm m =
      fetch_arg vm m
        λ offset m₁. or_fault (ac_arena_get_string vm.strings offset) λ s. push (str s) m₁

  unfoldable pub exec_push_module : Vm M → Machine → Step
  exec_push_module vm m = fetch_arg vm m λ offset m₁.
      or_fault (ac_arena_get_string vm.strings offset) λ s. push_module (ac_context_get vm.ctx s) m₁

  unfoldable pub exec_field : Vm M → Machine → Step
  exec_field vm m = pop m λ r₁ m₁. fetch_arg vm m₁ λ offset m₂.
      or_fault (ac_arena_get_string vm.strings offset)
        λ s. as_obj r₁ λ o. or_fault (ac_context_object_get vm.ctx o s) λ f. push (obj f) m₂

  -- OP_RULE
  unfoldable pub exec_rule : Vm M → Callee → Machine → Step
  exec_rule vm callee m = fetch_arg vm m λ offset m₁.
      or_fault (ac_arena_get_string vm.strings offset) λ name.
        or_fault (ac_compiler_find_rule_idx_by_name vm.strings vm.rule_table name) λ i.
          or_fault (get_elem? vm.rule_table i) λ entry. elim (callee entry.code_offset m₁.stack) [
            | stop result err s ↦
                (if not (err == 0)
                  then stop 0 err s
                  else push (word result) (record m₁ { stack = s }))
            | continue _ ↦ fault
            | fault ↦ fault
            | out_of_fuel ↦ out_of_fuel
          ]

  -- the `switch`, at a machine whose `ip` stands behind the operation code
  unfoldable pub exec_op : Opcode → Vm M → Callee → Machine → Step
  exec_op Opcode.hlt vm callee m = exec_hlt m
  exec_op Opcode.not_op vm callee m = exec_unary Opcode.not_op m
  exec_op Opcode.notl vm callee m = exec_unary Opcode.notl m
  exec_op Opcode.neg vm callee m = exec_unary Opcode.neg m
  exec_op Opcode.strlen vm callee m = exec_unary Opcode.strlen m
  exec_op Opcode.jfalse vm callee m = exec_branch false vm m
  exec_op Opcode.jtrue vm callee m = exec_branch true vm m
  exec_op Opcode.jmp vm callee m = exec_jmp vm m
  exec_op Opcode.pushint vm callee m = exec_push_word vm m
  exec_op Opcode.pushbool vm callee m = exec_push_word vm m
  exec_op Opcode.pushstring vm callee m = exec_push_string vm m
  exec_op Opcode.pushmodule vm callee m = exec_push_module vm m
  exec_op Opcode.object vm callee m = exec_object vm m
  exec_op Opcode.matches vm callee m = exec_matches vm m
  exec_op Opcode.rule vm callee m = exec_rule vm callee m
  exec_op Opcode.call vm callee m = exec_call vm m
  exec_op Opcode.field vm callee m = exec_field vm m
  exec_op Opcode.index vm callee m = exec_index vm m
  exec_op Opcode.load vm callee m = exec_load vm m
  exec_op Opcode.store vm callee m = exec_store vm m
  exec_op Opcode.pop vm callee m = pop m λ _ m₁. continue m₁
  exec_op op vm callee m = exec_binary op m

  -- the choice of the case; 27 is AC_ERROR_OPERATION
  abbrev pub dispatch : Option Opcode → Vm M → Callee → Machine → Step
  dispatch none vm callee m = stop 0 27 m.stack
  dispatch (some op) vm callee m = exec_op op vm callee (record m { ip = m.ip + 1 })

  -- one round of the loop
  unfoldable pub step : Vm M → Callee → Machine → Step
  step vm callee m = or_fault (get_elem? vm.code m.ip) λ byte. dispatch (decode byte) vm callee m

  -- what `ac_vm_exec_code` does: its first loop refuses code that the call stack holds (11 is AC_ERROR_RECURSION)
  abbrev pub enter : Vm M → (Machine → Step) → Callee
  enter vm loop offset s =
      if contains_offset vm.callstack offset then stop 0 11 s else loop (start offset s)

  -- The loop, with fuel for its rounds and for those of the rules that it calls.
  unfoldable pub run : ℕ → Vm M → Machine → Step
  run zero vm m = out_of_fuel
  run (suc fuel) vm m = after_step (step vm (enter vm (run fuel vm)) m) λ m₁. run fuel vm m₁

  unfoldable pub ac_vm_exec_code : ℕ → Vm M → Callee
  ac_vm_exec_code fuel vm = enter vm (run fuel vm)
