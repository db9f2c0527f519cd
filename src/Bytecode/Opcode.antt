-- ===== src/Bytecode/Opcode.antt =====
-- The operation codes of include/alca/bytecode.h.
use alca.Base.{ℕ, ◌≡◌, refl, Option, none, some, List, [], ◌∷◌, ◌==◌, if◌then◌else◌}

pub data Opcode : Type 0 where
  hlt add sub mul div mod_op shl shr and_op or_op xor not_op : Opcode
  gt lt gte lte inteq streq booleq intne strne boolne : Opcode
  andl orl notl neg jfalse jtrue jmp : Opcode
  pushint pushbool pushstring pushmodule object : Opcode
  contains icontains startswith istartswith endswith iendswith iequals matches strlen : Opcode
  rule call field index push pop load store : Opcode

abbrev pub op_code : Opcode → ℕ
op_code hlt = 254
op_code add = 1
op_code sub = 2
op_code mul = 3
op_code div = 4
op_code mod_op = 5
op_code shl = 6
op_code shr = 7
op_code and_op = 8
op_code or_op = 9
op_code not_op = 11
op_code xor = 10
op_code gt = 12
op_code lt = 13
op_code gte = 14
op_code lte = 15
op_code inteq = 16
op_code streq = 17
op_code booleq = 18
op_code intne = 19
op_code strne = 20
op_code boolne = 21
op_code andl = 22
op_code orl = 23
op_code notl = 24
op_code neg = 25
op_code jfalse = 26
op_code jtrue = 27
op_code jmp = 28
op_code pushint = 100
op_code pushbool = 101
op_code pushstring = 102
op_code pushmodule = 103
op_code object = 104
op_code contains = 105
op_code icontains = 106
op_code startswith = 107
op_code istartswith = 108
op_code endswith = 109
op_code iendswith = 110
op_code iequals = 111
op_code matches = 112
op_code strlen = 113
op_code rule = 200
op_code call = 201
op_code field = 202
op_code index = 203
op_code push = 204
op_code pop = 205
op_code load = 206
op_code store = 207

-- The codes for which the interpreter's `switch` has a case: all but OP_PUSH.
abbrev cases : List Opcode
cases =
    hlt ∷ add ∷ sub ∷ mul ∷ div ∷ mod_op ∷ shl ∷ shr ∷ and_op ∷ or_op ∷ not_op ∷ xor ∷ gt ∷ lt ∷ gte
    ∷ lte ∷ inteq ∷ streq ∷ booleq ∷ intne ∷ strne ∷ boolne ∷ andl ∷ orl ∷ notl ∷ neg ∷ jfalse
    ∷ jtrue ∷ jmp ∷ pushint ∷ pushbool ∷ pushstring ∷ pushmodule ∷ object ∷ contains ∷ icontains
    ∷ startswith ∷ istartswith ∷ endswith ∷ iendswith ∷ iequals ∷ matches ∷ strlen ∷ rule ∷ call
    ∷ field ∷ index ∷ pop ∷ load ∷ store ∷ []

find_case : List Opcode → ℕ → Option Opcode
find_case [] byte = none
find_case (op ∷ ops) byte = if op_code op == byte then some op else find_case ops byte

-- `switch (op)`; `none` is its default case
unfoldable pub decode : ℕ → Option Opcode
unfolding find_case
decode byte = find_case cases byte

abbrev pub HasCase : Opcode → Type 0
HasCase push = ⊥
HasCase _ = Unit

-- The interpreter's `switch` reaches the case of every instruction that is not OP_PUSH.
pub decode-op_code : (op : Opcode) → HasCase op → decode (op_code op) ≡ some op
unfolding decode
decode-op_code push h = absurd h
decode-op_code hlt h = refl
decode-op_code _ h = refl
