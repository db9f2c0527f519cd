-- ===== src/Base/Words.antt =====
-- 32-bit words: wrap-around, and the four bytes of a word as a little-endian host stores them.
use Prim.Native.Nat.{ℕ, ◌+◌, ◌*◌, ◌/◌, ◌%◌, ◌<◌}
use mathlib.Core.Path.{◌≡◌}
use mathlib.Core.List.{[], ◌∷◌, ◌++◌}
use mathlib.Core.Option.{Option, none, some}
use native.Mathlib.Omega.{arith}
use alca.Base.Lists.{Bytes}

abbrev pub word_mod : ℕ
word_mod = 4294967296

-- the value of an expression of type uint32_t
abbrev pub wrap32 : ℕ → ℕ
wrap32 n = n % word_mod

-- the memory of a uint32_t, lowest byte first
unfoldable pub le_bytes : ℕ → Bytes
le_bytes n = (n % 256) ∷ (n / 256 % 256) ∷ (n / 65536 % 256) ∷ (n / 16777216 % 256) ∷ []

-- `*(uint32_t *)p`; `none` where fewer than four bytes are left
unfoldable pub read_le : Bytes → Option ℕ
read_le (a ∷ b ∷ c ∷ d ∷ _) = some (a + 256 * b + 65536 * c + 16777216 * d)
read_le _ = none

pub read_le-le_bytes : (n : ℕ) (rest : Bytes) → n < word_mod → read_le (le_bytes n ++ rest) ≡ some n
unfolding read_le le_bytes
read_le-le_bytes n rest h = ground arith
