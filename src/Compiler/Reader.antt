-- ===== src/Compiler/Reader.antt =====
-- A reader of the file structure that the comment of libalca/compiler.c states, with the offsets of data and code counted
-- from the end of the header, and what it reads of an exported file.
use alca.Base.{
  ℕ, zero, suc, ◌+◌, ◌<◌, ◌≤◌, ◌≡◌, Bool-cases, ltb, inl, inr, refl, sym, ap, subst, ◌∙◌, true,
  ◌&&◌, Option, none, some, List, [], ◌∷◌, ◌++◌, append_assoc, length, length-append, take, drop,
  Bytes, arith, ◌==◌, if◌then◌else◌, drop-append, take-append,
}
use alca.Base.Words.{word_mod, le_bytes, read_le, read_le-le_bytes}
use alca.HashMap.{HashMap}
use alca.Packet.{alca_magic, alca_version}
use alca.Compiler.Tables.{ModuleEntry, RuleEntry, SequenceEntry}
use alca.Compiler.Statements.{Compiler}
use alca.Arena.{Arena, ac_arena_prepend_bytes, arena_extend}
use alca.Compiler.Export.{compiler_export, export_body}
use alca.Compiler.Layout.{
  words, write_all, module_words, rule_words, sequence_words, table_words, header_words, joined,
  header_length, joined-layout,
}

-- the next `n` words, and what is behind them
unfoldable pub read_words : ℕ → Bytes → Option (List ℕ × Bytes)
read_words zero bytes = some ([], bytes)
read_words (suc n) bytes = elim (read_le bytes) [
  | none ↦ none
  | some x ↦ elim (read_words n (drop 4 bytes)) [
    | none ↦ none
    | some (xs, rest) ↦ some (x ∷ xs, rest)
  ]
]

abbrev pub AreWords : List ℕ → Type 0
AreWords [] = Unit
AreWords (x ∷ xs) = (x < word_mod) × AreWords xs

drop_word : (x : ℕ) (rest : Bytes) → drop 4 (le_bytes x ++ rest) ≡ rest
unfolding le_bytes
drop_word x rest = refl

next_word :
    (w n : ℕ) (ws : List ℕ) (bytes rest : Bytes)
    → w < word_mod
    → read_words n bytes ≡ some (ws, rest)
    → read_words (suc n) (le_bytes w ++ bytes) ≡ some (w ∷ ws, rest)
unfolding read_words
next_word w n ws bytes rest h e =
    rw (read_le-le_bytes w bytes h, drop_word w bytes, e, read_words) refl

pub read_words-words :
    (ws : List ℕ) (rest : Bytes)
    → AreWords ws
    → read_words (length ws) (words ws ++ rest) ≡ some (ws, rest)
unfolding read_words
read_words-words [] rest h = refl
read_words-words (w ∷ ws) rest (h, hs) =
    subst (λ (z : Bytes). read_words (suc (length ws)) z ≡ some (w ∷ ws, rest))
      (sym (append_assoc (le_bytes w) (words ws) rest))
      (next_word w (length ws) ws (words ws ++ rest) rest h (read_words-words ws rest hs))

counted :
    (n : ℕ) (ws : List ℕ) (rest : Bytes)
    → n ≡ length ws
    → AreWords ws
    → read_words n (words ws ++ rest) ≡ some (ws, rest)
counted n ws rest e h = rw e (read_words-words ws rest h)

unfoldable pub module_of : List ℕ → Option ModuleEntry
module_of (a ∷ b ∷ c ∷ d ∷ []) =
    some (record { ordinal = a; version = b; lname = c; name_offset = d })
module_of _ = none

unfoldable pub rule_of : List ℕ → Option RuleEntry
rule_of (a ∷ b ∷ c ∷ d ∷ e ∷ []) =
    some (record { flags = a; code_offset = b; module_ordinal = c; lname = d; name_offset = e })
rule_of _ = none

unfoldable pub sequence_of : List ℕ → List ℕ → Option SequenceEntry
sequence_of (a ∷ b ∷ c ∷ d ∷ e ∷ []) indices = some (record {
  flags = a;
  max_span = b;
  rule_count = c;
  lname = d;
  name_offset = e;
  rule_indices = indices;
})
sequence_of _ _ = none

-- `n` entries, each read by a reader of one
unfoldable pub read_table :
    {A : Type 0} → (Bytes → Option (A × Bytes)) → ℕ → Bytes → Option (List A × Bytes)
read_table read zero bytes = some ([], bytes)
read_table read (suc n) bytes = elim (read bytes) [
  | none ↦ none
  | some (e, rest) ↦ elim (read_table read n rest) [
    | none ↦ none
    | some (es, last) ↦ some (e ∷ es, last)
  ]
]

abbrev pub keep : {A : Type 0} → Option A → Bytes → Option (A × Bytes)
keep none rest = none
keep (some a) rest = some (a, rest)

unfoldable pub read_module : Bytes → Option (ModuleEntry × Bytes)
read_module bytes = elim (read_words 4 bytes) [
  | none ↦ none
  | some (ws, rest) ↦ keep (module_of ws) rest
]

unfoldable pub read_rule : Bytes → Option (RuleEntry × Bytes)
read_rule bytes = elim (read_words 5 bytes) [
  | none ↦ none
  | some (ws, rest) ↦ keep (rule_of ws) rest
]

abbrev pub third : List ℕ → ℕ
third (_ ∷ _ ∷ n ∷ _) = n
third _ = 0

unfoldable pub read_sequence : Bytes → Option (SequenceEntry × Bytes)
read_sequence bytes = elim (read_words 5 bytes) [
  | none ↦ none
  | some (ws, rest) ↦ elim (read_words (third ws) rest) [
    | none ↦ none
    | some (indices, rest') ↦ keep (sequence_of ws indices) rest'
  ]
]

abbrev pub All : {A : Type 0} → (A → Type 0) → List A → Type 0
All P [] = Unit
All P (e ∷ es) = P e × All P es

read_table-write_all :
    {A : Type 0} (read : Bytes → Option (A × Bytes)) (write : A → Bytes) (Fits : A → Type 0)
    → ((e : A) (rest : Bytes) → Fits e → read (write e ++ rest) ≡ some (e, rest))
    → (es : List A) (rest : Bytes) → All Fits es
    → read_table read (length es) (write_all write es ++ rest) ≡ some (es, rest)
unfolding read_table
read_table-write_all read write Fits one [] rest h = refl
read_table-write_all read write Fits one (e ∷ es) rest (h, hs) =
    rw
      (
        append_assoc (write e) (write_all write es) rest,
        one e (write_all write es ++ rest) h,
        read_table-write_all read write Fits one es rest hs,
        read_table,
      )
      refl

-- the words of an entry are 32-bit words, and a sequence has as many indices as it says
abbrev pub FitsModule : ModuleEntry → Type 0
FitsModule e = AreWords (e.ordinal ∷ e.version ∷ e.lname ∷ e.name_offset ∷ [])

abbrev pub FitsRule : RuleEntry → Type 0
FitsRule e = AreWords (e.flags ∷ e.code_offset ∷ e.module_ordinal ∷ e.lname ∷ e.name_offset ∷ [])

abbrev pub FitsSequence : SequenceEntry → Type 0
FitsSequence e =
    AreWords (e.flags ∷ e.max_span ∷ e.rule_count ∷ e.lname ∷ e.name_offset ∷ [])
    × AreWords e.rule_indices
    × (e.rule_count ≡ length e.rule_indices)

read_module-words :
    (e : ModuleEntry) (rest : Bytes)
    → FitsModule e
    → read_module (module_words e ++ rest) ≡ some (e, rest)
unfolding read_module module_of
read_module-words e rest h =
    rw (read_words-words (e.ordinal ∷ e.version ∷ e.lname ∷ e.name_offset ∷ []) rest h, read_module)
      refl

read_rule-words :
    (e : RuleEntry) (rest : Bytes) → FitsRule e → read_rule (rule_words e ++ rest) ≡ some (e, rest)
unfolding read_rule rule_of
read_rule-words e rest h =
    rw
      (
        read_words-words (e.flags ∷ e.code_offset ∷ e.module_ordinal ∷ e.lname ∷ e.name_offset ∷ [])
            rest h,
        read_rule,
      )
      refl

read_sequence-words :
    (e : SequenceEntry) (rest : Bytes)
    → FitsSequence e
    → read_sequence (sequence_words e ++ rest) ≡ some (e, rest)
unfolding read_sequence sequence_of
read_sequence-words e rest (h, hs, n) =
    let ws = e.flags ∷ e.max_span ∷ e.rule_count ∷ e.lname ∷ e.name_offset ∷ [] in
    rw
      (
        append_assoc (words ws) (words e.rule_indices) rest,
        read_words-words ws (words e.rule_indices ++ rest) h,
        counted e.rule_count e.rule_indices rest n hs,
        read_sequence,
      )
      refl

-- what a loader finds in a file
pub record Image : Type 0 where
  pub modules : List ModuleEntry
  pub rules : List RuleEntry
  pub sequences : List SequenceEntry
  pub strings : Bytes
  pub code : Bytes

-- `rest` is the file behind its header.
unfoldable pub read_tables : List ℕ → Bytes → Option Image
read_tables
      (magic ∷ version ∷ data_start ∷ data_size ∷ code_start ∷ code_size ∷ modules ∷ rules
        ∷ sequences ∷ [])
      rest =
    if magic == alca_magic && version == alca_version
    then elim (read_table read_module modules rest) [
      | none ↦ none
      | some (ms, rest₁) ↦ elim (read_table read_rule rules rest₁) [
        | none ↦ none
        | some (rs, rest₂) ↦ elim (read_table read_sequence sequences rest₂) [
          | none ↦ none
          | some (ss, _) ↦ some (record {
            modules = ms;
            rules = rs;
            sequences = ss;
            strings = take data_size (drop data_start rest);
            code = take code_size (drop code_start rest);
          })
        ]
      ]
    ]
    else none
read_tables _ rest = none

unfoldable pub read_image : Bytes → Option Image
read_image file = elim (read_words 9 file) [
  | none ↦ none
  | some (header, rest) ↦ read_tables header rest
]

drop_two : (xs ys zs : Bytes) → drop (length xs + length ys) ((xs ++ ys) ++ zs) ≡ zs
drop_two xs ys zs = rw (← length-append xs ys) (drop-append (xs ++ ys) zs)

take_all : (xs : Bytes) → take (length xs) xs ≡ xs
take_all [] = refl
take_all (x ∷ xs) = ap (◌∷◌ x) (take_all xs)

eq_refl : (n : ℕ) → (n == n) ≡ true
eq_refl n = ground arith

magic_small : alca_magic < word_mod
unfolding alca_magic alca.Packet.netint alca.Packet.ac_bswap
magic_small = omega arith

-- what a compiler has to export
abbrev pub image_of : {M : Type 0} → Compiler M → Image
image_of c = record {
  modules = c.module_table;
  rules = c.rule_table;
  sequences = c.sequence_table;
  strings = c.builder.strings.content;
  code = c.builder.code.content;
}

-- The tables and the two sections of a compiler fit into an exported file: with its header and 64 more bytes they are
-- at most 2^32.
pub record IsExportable {M : Type 0} (c : Compiler M) : Type 0 where
  pub modules : All FitsModule c.module_table
  pub rules : All FitsRule c.rule_table
  pub sequences : All FitsSequence c.sequence_table
  pub strings : c.builder.strings.size ≡ length c.builder.strings.content
  pub code : c.builder.code.size ≡ length c.builder.code.content
  pub small :
      length (table_words c)
        + length c.builder.strings.content
        + length c.builder.code.content
        + 100
      ≤ word_mod
  pub counts : AreWords (length c.module_table ∷ length c.rule_table ∷ length c.sequence_table ∷ [])

module _ {M : Type 0} ⦃h : HashMap Bytes ℕ M⦄ where
  header_fits :
      (c : Compiler M) → IsExportable c → AreWords (header_words c (length (table_words c)))
  header_fits c x =
      let m = magic_small in
      let s = x.small in
      (
        m,
        (
          omega arith,
          (
            omega arith,
            (omega (arith, x.strings), (omega arith, (omega (arith, x.code), x.counts))),
          ),
        ),
      )

  tables_read :
      (c : Compiler M)
      → IsExportable c
      → read_tables
          (header_words c (length (table_words c)))
          ((table_words c ++ c.builder.strings.content) ++ c.builder.code.content)
        ≡ some (image_of c)
  unfolding read_tables
  tables_read c x =
      let ms = write_all module_words c.module_table in
      let rs = write_all rule_words c.rule_table in
      let ss = write_all sequence_words c.sequence_table in
      let str = c.builder.strings.content in
      let code = c.builder.code.content in
      let body = (((ms ++ rs) ++ ss) ++ str) ++ code in
      let e : body ≡ ms ++ (rs ++ (ss ++ (str ++ code))) = simp append_assoc in
      let r₁ =
        ap (λ (z : Bytes). read_table read_module (length c.module_table) z) e
        ∙ read_table-write_all read_module module_words FitsModule read_module-words c.module_table
            (rs ++ (ss ++ (str ++ code))) x.modules in
      let r₂ =
        read_table-write_all read_rule rule_words FitsRule read_rule-words c.rule_table
          (ss ++ (str ++ code)) x.rules in
      let r₃ =
        read_table-write_all read_sequence sequence_words FitsSequence read_sequence-words
          c.sequence_table (str ++ code) x.sequences in
      let d : take c.builder.strings.size (drop (length (table_words c)) body) ≡ str =
        rw
          (
            x.strings,
            append_assoc (table_words c) str code,
            drop-append (table_words c) (str ++ code),
          )
          (take-append str code) in
      let k : take c.builder.code.size (drop (length (table_words c) + length str) body) ≡ code =
        rw (x.code, drop_two (table_words c) str code) (take_all code) in
      rw (eq_refl alca_magic, r₁, r₂, r₃, read_tables) (rw (d, k) refl)

  joined_read : (c : Compiler M) → IsExportable c → read_image (joined c) ≡ some (image_of c)
  unfolding read_image
  joined_read c x =
      let body = (table_words c ++ c.builder.strings.content) ++ c.builder.code.content in
      let s = x.small in
      rw
        (
          joined-layout c (omega arith),
          read_words-words (header_words c (length (table_words c))) body (header_fits c x),
          read_image,
        )
        (tables_read c x)

  -- What exporting comes to: a file of these bytes, or undefined behaviour where there are more bytes than the
  -- header's 36 to be moved.
  pub data Exports (c : Compiler M) : Option (Arena M) → Type 0 where
    written :
        (file : Arena M)
        → (export_body c).0.size ≤ 36
        → file.content ≡ joined c
        → Exports c (some file)
    overlapping : 37 ≤ (export_body c).0.size → Exports c none

  -- For a compiler whose tables and sections fit, the bytes of the header with those of the tables, strings and code
  -- behind them read back as the tables, the strings and the code. Where the latter are at most 36 bytes, the exported
  -- file is these bytes; where they are more, putting the header in front of them is undefined behaviour.
  pub read_image-compiler_export :
      (c : Compiler M)
      → IsExportable c
      → (read_image (joined c) ≡ some (image_of c)) × Exports c (compiler_export c)
  unfolding compiler_export ac_arena_prepend_bytes arena_extend
  read_image-compiler_export c x =
      let r = joined_read c x in
      let l = header_length c (export_body c).1.0 (export_body c).1.1 in
      (
        r,
        elim (Bool-cases (ltb 36 (export_body c).0.size)) [
          | inl b ↦ rw (l, b) (overlapping (ground (arith, b)))
          | inr b ↦ rw (l, b) (written _ (ground (arith, b)) refl)
        ],
      )
