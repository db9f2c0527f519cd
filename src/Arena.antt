-- ===== src/Arena.antt =====
-- libalca/arena.c: the byte buffers that hold the code and the data section.
-- `data` holds the bytes written so far; a block of `capacity` bytes is allocated for them.
pub mod Invariant
pub mod Strings
use alca.Base.{
  ℕ, zero, suc, ◌+◌, ◌-◌, Bool, true, false, Option, none, some, List, [], ◌∷◌, ◌++◌, ltb, ◌==◌,
  if◌then◌else◌, length, take, drop, Bytes,
}
use alca.Base.Words.{word_mod, wrap32, le_bytes}
use alca.HashMap.{HashMap}

pub record Arena (M : Type 0) : Type 0 where
  pub content : Bytes
  pub size : ℕ
  pub capacity : ℕ
  pub strmap : M

abbrev pub start_size : ℕ
start_size = 256

abbrev pub chunk_size : ℕ
chunk_size = 64

-- The `while` loop of `arena_extend`. In C it does not end where the size that is needed is within a chunk of 2^32 and the
-- capacity wraps around; every theorem that depends on the capacity asks for this much room.
unfoldable pub grow : ℕ → ℕ → ℕ → ℕ
grow zero need cap = cap
grow (suc fuel) need cap = elim (ltb cap need) [
  | true ↦ grow fuel need (wrap32 (cap + chunk_size))
  | false ↦ cap
]

-- `need` rounds are enough, since each adds a chunk
unfoldable pub arena_extend : {M : Type 0} → Arena M → ℕ → Arena M
arena_extend a n =
    let need = wrap32 (a.size + n) in record a { capacity = grow need need a.capacity }

-- `extend; memcpy(data + size, bytes, n); size += n`
unfoldable pub append_bytes : {M : Type 0} → Arena M → Bytes → Arena M
append_bytes a bytes =
    let b = arena_extend a (length bytes) in
    record b { content = b.content ++ bytes; size = wrap32 (b.size + length bytes) }

-- The C string at a position: what stands before the first zero byte.
unfoldable pub c_string : Bytes → Option Bytes
c_string [] = none
c_string (c ∷ cs) =
    let rest = c_string cs in
    if c == 0 then some [] else elim rest [ none ↦ none | some s ↦ some (c ∷ s) ]

module _ {M : Type 0} where
  unfoldable pub ac_arena_add_bytes : Arena M → Bytes → Arena M × ℕ
  ac_arena_add_bytes a bytes = (append_bytes a bytes, a.size)

  -- a `memcpy` over bytes that are already there
  unfoldable pub ac_arena_replace_bytes : Arena M → ℕ → Bytes → Arena M
  ac_arena_replace_bytes a offset bytes = record a {
    content = take offset a.content ++ (bytes ++ drop (offset + length bytes) a.content);
  }

  unfoldable pub ac_arena_add_uint32 : Arena M → ℕ → Arena M × ℕ
  ac_arena_add_uint32 a value = (append_bytes a (le_bytes value), a.size)

  -- The bytes that are there are moved by `memcpy`; `none` is its undefined behaviour where more of them are there than
  -- are put in front, and the two places overlap.
  unfoldable pub ac_arena_prepend_bytes : Arena M → Bytes → Option (Arena M)
  ac_arena_prepend_bytes a bytes =
      let b = arena_extend a (length bytes) in
      if ltb (length bytes) b.size
      then none
      else some (record b { content = bytes ++ b.content; size = wrap32 (b.size + length bytes) })

  unfoldable pub ac_arena_add_code : Arena M → ℕ → Arena M × ℕ
  ac_arena_add_code a op = (append_bytes a (op ∷ []), a.size)

  unfoldable pub ac_arena_add_code_with_arg : Arena M → ℕ → ℕ → Arena M × ℕ
  ac_arena_add_code_with_arg a op arg =
      let (b, offset) = ac_arena_add_code a op in ((ac_arena_add_uint32 b arg).0, offset)

module _ {M : Type 0} ⦃h : HashMap Bytes ℕ M⦄ where
  unfoldable pub ac_arena_create : ℕ → Arena M
  ac_arena_create initial_size = record {
    content = [];
    size = 0;
    capacity = if initial_size == 0 then start_size else initial_size;
    strmap = h.new;
  }

  unfoldable pub ac_arena_add_string : Arena M → Bytes → ℕ → Arena M × ℕ
  ac_arena_add_string a str len = elim (h.get a.strmap str) [
    | some offset ↦ (a, offset)
    | none ↦
        let b = append_bytes a (take (len + 1) (str ++ (0 ∷ []))) in
        (record b { strmap = h.put b.strmap str a.size }, a.size)
  ]

  -- `none` is NULL
  unfoldable pub ac_arena_get_string : Arena M → ℕ → Option Bytes
  ac_arena_get_string a offset = elim (c_string (drop offset a.content)) [
    | none ↦ none
    | some str ↦ elim (h.get a.strmap str) [ none ↦ none | some _ ↦ some str ]
  ]

  -- `(uint32_t)-1` where the string was never added
  unfoldable pub ac_arena_find_string : Arena M → Bytes → ℕ
  ac_arena_find_string a str = elim (h.get a.strmap str) [
    | some offset ↦ offset
    | none ↦ word_mod - 1
  ]
