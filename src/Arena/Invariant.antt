-- ===== src/Arena/Invariant.antt =====
-- The size of an arena is the number of its bytes, and stays within the allocated block.
use alca.Base.{ℕ, zero, suc, ◌+◌, ◌≤◌, ◌<◌, ◌≡◌, arith, length, length-append, Bytes}
use alca.Base.Words.{word_mod, wrap32}
use alca.Arena.{Arena, grow, arena_extend, append_bytes}

-- Where the size that is needed leaves 64 below 2^32 and the capacity is a 32-bit word, fuel that reaches the size from
-- the capacity is enough: the loop of `arena_extend` ends with a capacity that is at least the size and at least
-- what it was, and is a 32-bit word.
pub grow_enough :
    (fuel need cap : ℕ)
    → need ≤ fuel + cap
    → need + 64 ≤ word_mod
    → cap < word_mod
    → (need ≤ grow fuel need cap) × (cap ≤ grow fuel need cap) × (grow fuel need cap < word_mod)
unfolding grow
grow_enough zero need cap h k c = omega arith
grow_enough (suc fuel) need cap h k c = ground (arith, grow_enough fuel need (wrap32 (cap + 64)))

-- An arena as the code keeps it.
pub record IsArena {M : Type 0} (a : Arena M) : Type 0 where
  pub sized : a.size ≡ length a.content
  pub fits : a.size ≤ a.capacity
  pub small : a.capacity < word_mod

-- `n` more bytes keep every address of the arena a 32-bit number.
abbrev pub HasRoom : {M : Type 0} → Arena M → ℕ → Type 0
HasRoom a n = a.size + n + 64 ≤ word_mod

-- Appending bytes to an arena that has room for them keeps its size the number of its bytes, at most its capacity, and
-- this a 32-bit word.
pub append_bytes-IsArena :
    {M : Type 0} {a : Arena M} (bytes : Bytes)
    → IsArena a
    → HasRoom a (length bytes)
    → IsArena (append_bytes a bytes)
unfolding append_bytes arena_extend
append_bytes-IsArena {a = a} bytes v r =
    let g =
      grow_enough (a.size + length bytes) (a.size + length bytes) a.capacity (omega arith) r
        v.small in
    let e : wrap32 (a.size + length bytes) ≡ a.size + length bytes = omega arith in
    rw e (record { sized = omega (arith, length-append a.content bytes); fits = g.0; small = g.2 })
