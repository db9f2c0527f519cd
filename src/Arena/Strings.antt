-- ===== src/Arena/Strings.antt =====
-- The strings of the data section: `ac_arena_add_string`, `get_string` and `find_string`.
use alca.Base.{
  ℕ, zero, suc, ◌+◌, ◌≤◌, ◌<◌, ◌≡◌, ◌≢◌, refl, ap, sym, ◌∙◌, ◌⊎◌, inl, inr, none, some, [], ◌∷◌,
  ◌++◌, append-nil, arith, length, drop, take, drop-append, length-append, Bytes, bytes_eq,
  bytes_eq_refl, bytes_eq_sound, Bool-cases, Option-cases,
}
use alca.HashMap.{HashMap}
use alca.Arena.{
  Arena, arena_extend, append_bytes, c_string, ac_arena_add_string, ac_arena_get_string,
  ac_arena_find_string,
}
use alca.Arena.Invariant.{IsArena, HasRoom, append_bytes-IsArena}

-- a C string has no zero byte inside
abbrev pub NoNul : Bytes → Type 0
NoNul [] = Unit
NoNul (c ∷ cs) = (0 < c) × NoNul cs

pub c_string-nul : (s rest : Bytes) → NoNul s → c_string (s ++ (0 ∷ rest)) ≡ some s
unfolding c_string
c_string-nul [] rest h = refl
c_string-nul (c ∷ s) rest h = ground (arith, c_string-nul s rest h.1)

c_string-append : (xs ys s : Bytes) → c_string xs ≡ some s → c_string (xs ++ ys) ≡ some s
unfolding c_string
c_string-append [] ys s h = cc
c_string-append (x ∷ xs) ys [] h = ground (arith)
c_string-append (x ∷ xs) ys (c ∷ s) h = ground (arith, c_string-append xs ys s)

c_string-drop :
    (o : ℕ) (xs ys s : Bytes)
    → c_string (drop o xs) ≡ some s
    → c_string (drop o (xs ++ ys)) ≡ some s
unfolding c_string
c_string-drop zero xs ys s h = c_string-append xs ys s h
c_string-drop (suc o) [] ys s h = cc
c_string-drop (suc o) (x ∷ xs) ys s h = c_string-drop o xs ys s h

take-length : (xs : Bytes) → take (length xs) xs ≡ xs
take-length [] = refl
take-length (x ∷ xs) = ap (◌∷◌ x) (take-length xs)

take_terminated : (s : Bytes) → take (length s + 1) (s ++ (0 ∷ [])) ≡ s ++ (0 ∷ [])
take_terminated s =
    let e : length s + 1 ≡ length (s ++ (0 ∷ [])) = omega (arith, length-append s (0 ∷ [])) in
    rw e (take-length (s ++ (0 ∷ [])))

some-inj : {a b : ℕ} → some a ≡ some b → a ≡ b
some-inj p = cc

c_string_inside : (o : ℕ) (xs s : Bytes) → c_string (drop o xs) ≡ some s → o < length xs
unfolding c_string
c_string_inside zero [] s h = cc
c_string_inside zero (x ∷ xs) s h = omega arith
c_string_inside (suc o) [] s h = cc
c_string_inside (suc o) (x ∷ xs) s h = omega (arith, c_string_inside o xs s h)

bytes_cases : (a b : Bytes) → (a ≡ b) ⊎ (a ≢ b)
bytes_cases a b = elim (Bool-cases (bytes_eq a b)) [
  | inl e ↦ inl (bytes_eq_sound a b e)
  | inr e ↦ inr (λ p. cc (bytes_eq_refl a, ap (bytes_eq a) p))
]

module _ {M : Type 0} ⦃h : HashMap Bytes ℕ M⦄ where
  -- Every string that the map knows stands at its offset.
  pub record IsSound (a : Arena M) : Type 0 where
    pub sound :
        (s : Bytes) (o : ℕ) → h.get a.strmap s ≡ some o → c_string (drop o a.content) ≡ some s

  -- A string that is known is read back at its offset.
  pub get_string_known :
      (a : Arena M) (s : Bytes) (o : ℕ)
      → IsSound a
      → h.get a.strmap s ≡ some o
      → ac_arena_get_string a o ≡ some s
  unfolding ac_arena_get_string
  get_string_known a s o v e = rw (v.sound s o e, ac_arena_get_string) (rw e)

  added : Arena M → Bytes → Arena M
  added a s =
      let b = append_bytes a (take (length s + 1) (s ++ (0 ∷ []))) in
      record b { strmap = h.put b.strmap s a.size }

  -- `ac_arena_add_string` on a string that is not yet known
  add_string_new :
      (a : Arena M) (s : Bytes)
      → h.get a.strmap s ≡ none
      → ac_arena_add_string a s (length s) ≡ (added a s, a.size)
  unfolding ac_arena_add_string added
  add_string_new a s e = rw (e, ac_arena_add_string)

  add_string_old :
      (a : Arena M) (s : Bytes) (o : ℕ)
      → h.get a.strmap s ≡ some o
      → ac_arena_add_string a s (length s) ≡ (a, o)
  unfolding ac_arena_add_string
  add_string_old a s o e = rw (e, ac_arena_add_string)

  content-added : (a : Arena M) (s : Bytes) → (added a s).content ≡ a.content ++ (s ++ (0 ∷ []))
  unfolding added append_bytes arena_extend
  content-added a s = ap (λ t. a.content ++ t) (take_terminated s)

  strmap-added : (a : Arena M) (s : Bytes) → (added a s).strmap ≡ h.put a.strmap s a.size
  unfolding added append_bytes arena_extend
  strmap-added a s = refl

  string_at_end :
      (a : Arena M) (s : Bytes)
      → NoNul s
      → IsArena a
      → c_string (drop a.size (added a s).content) ≡ some s
  string_at_end a s nn w = rw (content-added, w.sized, drop-append) (c_string-nul s [] nn)

  added-IsSound : (a : Arena M) (s : Bytes) → NoNul s → IsArena a → IsSound a → IsSound (added a s)
  added-IsSound a s nn w v = record { sound = λ t o e. go t o (rw strmap-added at e) }
    where
      go :
          (t : Bytes) (o : ℕ)
          → h.get (h.put a.strmap s a.size) t ≡ some o
          → c_string (drop o (added a s).content) ≡ some t
      go t o e = elim (bytes_cases s t) [
        | inl p ↦
            let q : a.size ≡ o =
              some-inj (sym (h.get-put_same a.strmap s a.size) ∙ (rw (← p) at e)) in
            rw (← q, ← p) (string_at_end a s nn w)
        | inr p ↦ rw content-added (
            c_string-drop o a.content (s ++ (0 ∷ [])) t
              (v.sound t o (sym (h.get-put_other a.strmap s t a.size p) ∙ e)))
      ]

  -- What adding a string gives: its offset, at which it is read back; every string that could be
  -- read before is read as before; the bytes in front are untouched.
  pub record Adds (a : Arena M) (s : Bytes) (r : Arena M × ℕ) : Type 0 where
    pub sound : IsSound r.0
    pub arena : IsArena r.0
    pub reads : ac_arena_get_string r.0 r.1 ≡ some s
    pub knows : h.get r.0.strmap s ≡ some r.1
    pub keeps : (t : Bytes) (o : ℕ) → h.get a.strmap t ≡ some o → h.get r.0.strmap t ≡ some o
    pub finds : ac_arena_find_string r.0 s ≡ r.1
    pub inside : r.1 < r.0.size
    pub grows : (more : Bytes) × (r.0.content ≡ a.content ++ more)
    pub bounded : r.0.size ≤ a.size + (length s + 1)

  Adds-old :
      (a : Arena M) (s : Bytes) (o : ℕ)
      → IsArena a
      → IsSound a
      → h.get a.strmap s ≡ some o
      → Adds a s (a, o)
  unfolding ac_arena_find_string
  Adds-old a s o w v e = record {
    sound = v;
    arena = w;
    reads = get_string_known a s o v e;
    knows = e;
    keeps = λ t p k. k;
    finds = rw (e, ac_arena_find_string);
    inside = rw w.sized (c_string_inside o a.content s (v.sound s o e));
    grows = ([], sym (append-nil a.content));
    bounded = omega arith;
  }

  size-added :
      (a : Arena M) (s : Bytes)
      → HasRoom a (length s + 1)
      → (added a s).size ≡ a.size + (length s + 1)
  unfolding added append_bytes arena_extend
  size-added a s r = rw take_terminated (omega (arith, length-append s (0 ∷ [])))

  added-IsArena :
      (a : Arena M) (s : Bytes) → IsArena a → HasRoom a (length s + 1) → IsArena (added a s)
  unfolding added
  added-IsArena a s w r =
      let v =
        append_bytes-IsArena (take (length s + 1) (s ++ (0 ∷ []))) w
          (rw take_terminated (omega (arith, length-append s (0 ∷ [])))) in
      record { sized = v.sized; fits = v.fits; small = v.small }

  Adds-new :
      (a : Arena M) (s : Bytes)
      → NoNul s
      → HasRoom a (length s + 1)
      → IsArena a
      → IsSound a
      → h.get a.strmap s ≡ none
      → Adds a s (added a s, a.size)
  unfolding ac_arena_find_string
  Adds-new a s nn r w v e =
      let k : h.get (added a s).strmap s ≡ some a.size =
        rw strmap-added (h.get-put_same a.strmap s a.size) in
      record {
        sound = added-IsSound a s nn w v;
        arena = added-IsArena a s w r;
        reads = get_string_known (added a s) s a.size (added-IsSound a s nn w v) k;
        knows = k;
        keeps = λ t o p.
            rw strmap-added
              (h.get-put_other a.strmap s t a.size (λ q. cc (ap (h.get a.strmap) q)) ∙ p);
        finds = rw (k, ac_arena_find_string);
        inside = omega (arith, size-added a s r);
        grows = (s ++ (0 ∷ []), content-added a s);
        bounded = omega (arith, size-added a s r);
      }

  -- Adding a string without zero bytes to an arena with room for it gives the offset at which
  -- `ac_arena_get_string` reads it and `ac_arena_find_string` finds it; the strings that were known
  -- keep their offsets, no byte already written changes, and at most the string and its zero are added.
  pub add_string-Adds :
      (a : Arena M) (s : Bytes)
      → NoNul s
      → HasRoom a (length s + 1)
      → IsArena a
      → IsSound a
      → Adds a s (ac_arena_add_string a s (length s))
  add_string-Adds a s nn r w v = elim (Option-cases (h.get a.strmap s)) [
    | inl e ↦ rw (add_string_new a s e) (Adds-new a s nn r w v e)
    | inr (o, e) ↦ rw (add_string_old a s o e) (Adds-old a s o w v e)
  ]
