-- ===== src/Vm/Text.antt =====
-- The C string functions that the interpreter uses: `tolower`, `strstr` and `strncmp`.
use alca.Base.{
  ℕ, ◌+◌, ◌-◌, Bool, true, false, ◌&&◌, Option, none, some, [], ◌∷◌, map, leb, ◌==◌, if◌then◌else◌,
  length, take, drop, Bytes, bytes_eq,
}

-- `tolower` in the C locale
abbrev pub tolower : ℕ → ℕ
tolower c = if leb b'A' c && leb c b'Z' then c + 32 else c

unfoldable pub lowercase : Bytes → Bytes
lowercase = map tolower

unfoldable pub is_prefix : Bytes → Bytes → Bool
is_prefix [] s = true
is_prefix (c ∷ cs) [] = false
is_prefix (c ∷ cs) (d ∷ ds) = c == d && is_prefix cs ds

-- `strstr(s, t)`: the offset of the first occurrence of `t` in `s`
unfoldable pub strstr : Bytes → Bytes → Option ℕ
strstr [] t = if is_prefix t [] then some 0 else none
strstr (c ∷ cs) t =
    let rest = strstr cs t in
    if is_prefix t (c ∷ cs) then some 0 else elim rest [ none ↦ none | some i ↦ some (i + 1) ]

-- `strncmp(a, b, n) == 0`
unfoldable pub strncmp_eq : Bytes → Bytes → ℕ → Bool
strncmp_eq a b n = bytes_eq (take n a) (take n b)

-- `strstr(s, t) != NULL`
unfoldable pub contains : Bytes → Bytes → Bool
contains s t = elim (strstr s t) [ none ↦ false | some i ↦ true ]

-- `o != NULL && o == s` for `o = strstr(s, t)`
unfoldable pub startswith : Bytes → Bytes → Bool
startswith s t = elim (strstr s t) [ none ↦ false | some i ↦ i == 0 ]

-- `sl >= tl && strncmp(s + (sl - tl), t, sl) == 0`
unfoldable pub endswith : Bytes → Bytes → Bool
endswith s t = leb (length t) (length s) && strncmp_eq (drop (length s - length t) s) t (length s)
