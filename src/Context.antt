-- ===== src/Context.antt =====
-- libalca/context.c and include/alca/context.h: the objects that rules read event data from.
-- A pointer to an object is a number, and `heap` says which object stands there. The maps by name are
-- those of hashmap.c, from a name to the pointer of the object.
pub mod Arrays
use alca.Base.{
  ℕ, ◌+◌, Bool, true, false, not, Option, none, some, ltb, ◌==◌, if◌then◌else◌, length, take, Bytes,
  bytes_eq, bit_and,
}
use alca.HashMap.{HashMap}
use mathlib.Core.Option

-- `ac_object`: the members `i` and `b` of the union share their storage, so both are a `word`.
-- A zeroed object is `word 0`.
mutual
  pub data Value : Type 0 where
    word : ℕ → Value
    str : Bytes → Value
    obj : ℕ → Value
    array : Values → Value

  pub data Values : Type 0 where
    no_values : Values
    value : Value → Values → Values

unfoldable pub item_count : Values → ℕ
item_count no_values = 0
item_count (value v vs) = item_count vs + 1

unfoldable pub item_at : Values → ℕ → Option Value
item_at no_values i = none
item_at (value v vs) ℕ.zero = some v
item_at (value v vs) (ℕ.suc i) = item_at vs i

unfoldable pub append_value : Values → Value → Values
append_value no_values v = value v no_values
append_value (value w vs) v = value w (append_value vs v)

abbrev pub type_toplevel : ℕ
type_toplevel = 128

abbrev pub type_string : ℕ
type_string = 2

abbrev pub type_integer : ℕ
type_integer = 4

abbrev pub type_boolean : ℕ
type_boolean = 8

abbrev pub type_struct : ℕ
type_struct = 16

abbrev pub type_function : ℕ
type_function = 32

abbrev pub type_array : ℕ
type_array = 0x10000000

abbrev pub type_constant : ℕ
type_constant = 0x80000000

-- `type & flag`, as a condition
abbrev pub has_flag : ℕ → ℕ → Bool
has_flag type flag = not (bit_and type flag == 0)

-- `ac_context_object`. `function` is the number of a C function; `freer`, `unmarshal` and
-- `extended_data` belong to the modules and are left out.
pub record Object (M : Type 0) : Type 0 where
  pub is_const : Bool
  pub name : Bytes
  pub version : ℕ
  pub fields : M
  pub field_type : ℕ
  pub content : Value
  pub function : Option ℕ
  pub arg_count : ℕ
  pub arg_types : Bytes

pub record Context (M : Type 0) : Type 0 where
  pub objects : M
  pub modules : M
  pub heap : ℕ → Option (Object M)

module _ {M : Type 0} where
  -- `ac_context_object_get_data`; `none` is a pointer to no object
  unfoldable pub ac_context_object_get_data : Context M → ℕ → Option Value
  ac_context_object_get_data ctx o = Option.map (λ x. x.content) (ctx.heap o)

  -- `ac_context_object_get_array_item`; the inner `none` is the result FALSE
  unfoldable pub ac_context_object_get_array_item : Object M → ℕ → Option Value
  ac_context_object_get_array_item x i =
      if not (has_flag x.field_type type_array) then none else elim x.content [
        | array vs ↦ (if not (ltb i (item_count vs)) then none else item_at vs i)
        | _ ↦ none
      ]

  -- `ac_context_object_append_array_item`; the content of a cleared object is no array, and stands for a NULL pointer
  -- with no items. The number of items is not bounded by 32 bits here.
  unfoldable pub ac_context_object_append_array_item : Object M → Value → Object M × Bool
  ac_context_object_append_array_item x v =
      if not (has_flag x.field_type type_array) then (x, false) else elim x.content [
        | array vs ↦ (record x { content = array (append_value vs v) }, true)
        | _ ↦ (record x { content = array (value v no_values) }, true)
      ]

  unfoldable pub ac_context_object_get_function : Object M → Option ℕ
  ac_context_object_get_function x =
      if not (has_flag x.field_type type_function) then none else x.function

  unfoldable pub ac_context_object_set_function : Object M → ℕ → Bytes → Object M
  ac_context_object_set_function x f args =
      if not (has_flag x.field_type type_function)
      then x
      else record x { function = some f; arg_types = args; arg_count = length args }

  -- The error code of `ac_context_validate_function_call`; `none` is a NULL argument string.
  unfoldable pub ac_context_validate_function_call : Object M → Option Bytes → ℕ
  ac_context_validate_function_call fn args =
      if not (has_flag fn.field_type type_function) then 6 else elim args [
        | none ↦ (if fn.arg_count == 0 then 1 else 8)
        | some types ↦
            if not (length types == fn.arg_count)
            then 8
            else if not
                (bytes_eq (take (fn.arg_count + 1) fn.arg_types) (take (fn.arg_count + 1) types))
            then 13
            else 0
      ]

module _ {M : Type 0} ⦃h : HashMap Bytes ℕ M⦄ where
  unfoldable pub ac_context_get : Context M → Bytes → Option ℕ
  ac_context_get ctx name = h.get ctx.objects name

  -- the lookup in an object's fields; `none` is NULL, or a pointer to no object
  unfoldable pub ac_context_object_get : Context M → ℕ → Bytes → Option ℕ
  ac_context_object_get ctx o name = elim (ctx.heap o) [
    | none ↦ none
    | some x ↦ h.get x.fields name
  ]

  -- whether a module of that name was added to the context
  unfoldable pub ac_context_get_module : Context M → Bytes → Bool
  ac_context_get_module ctx name = elim (h.get ctx.modules name) [ none ↦ false | some _ ↦ true ]
