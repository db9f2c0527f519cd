-- ===== src/Vm/Events.antt =====
-- The layout of an event: what `ac_vm_exec` reads of the bytes that a sensor sends.
use alca.Base.{
  ℕ, ◌+◌, ◌-◌, ◌<◌, ◌≡◌, refl, ap, true, false, some, [], ◌∷◌, ◌++◌, ◌==◌, ltb, append_assoc, take,
  drop, drop-append, length, length-append, Bytes, arith,
}
use alca.Base.Words.{word_mod, le_bytes, read_le, read_le-le_bytes}
use alca.HashMap.{HashMap}
use alca.Arena.Strings.{NoNul, c_string-nul}
use alca.Context.{Context, Object, ac_context_get}
use alca.Packet.{netint, ac_bswap}
use alca.Vm.Machine.{Vm}
use alca.Vm.Sequences.{MonRule}
use alca.Vm.Exec.{Environment, Session, exec_rules, exec_module, exec_event, ac_vm_exec}

-- an event: the version of the module, the length of its name with the zero behind it, the name, and the data
unfoldable pub event_bytes : ℕ → Bytes → Bytes → Bytes
event_bytes version name content =
    le_bytes version ++ (le_bytes (length name + 1) ++ (name ++ (0 ∷ content)))

length-event_bytes :
    (version : ℕ) (name content : Bytes)
    → length (event_bytes version name content) ≡ 8 + (length name + 1 + length content)
unfolding event_bytes le_bytes
length-event_bytes version name content = omega (arith, length-append name (0 ∷ content))

drop-event_bytes :
    (version : ℕ) (name content : Bytes)
    → (drop 4 (event_bytes version name content)
        ≡ le_bytes (length name + 1) ++ (name ++ (0 ∷ content)))
      × (drop 8 (event_bytes version name content) ≡ name ++ (0 ∷ content))
unfolding event_bytes le_bytes
drop-event_bytes version name content = (refl, refl)

drop-name : (name content : Bytes) → drop (length name + 1) (name ++ (0 ∷ content)) ≡ content
drop-name name content =
    let e : length name + 1 ≡ length (name ++ (0 ∷ [])) =
      omega (arith, length-append name (0 ∷ [])) in
    rw (e, ← append_assoc name (0 ∷ []) content) (drop-append (name ++ (0 ∷ [])) content)

take-all : (xs : Bytes) → take (length xs) xs ≡ xs
take-all [] = refl
take-all (x ∷ xs) = ap (◌∷◌ x) (take-all xs)

not_short : (a b : ℕ) → ltb (8 + (a + 1 + b) - 8) (a + 1) ≡ false
not_short a b = ground arith

-- the session at the start of an event
abbrev pub fresh : {Q : Type 0} → Session Q → Session Q
fresh s = record s { triggers = record s.triggers { ntriggers = 0 } }

module _ {M Q N : Type 0} ⦃h : HashMap Bytes ℕ M⦄ ⦃q : HashMap ℕ MonRule Q⦄
    ⦃n : HashMap ℕ Bytes N⦄ where
  exec_module-accepts :
      (fuel : ℕ) (env : Environment M Q N) (vm : Vm M) (s : Session Q) (version o : ℕ)
      (name content : Bytes) (object : Object M) (ctx : Context M)
      → ac_context_get vm.ctx name ≡ some o
      → vm.ctx.heap o ≡ some object
      → object.version ≡ version
      → env.unmarshal vm.ctx o content ≡ some ctx
      → exec_module fuel env vm version name (length name + 1) content s
        ≡ exec_rules fuel env (record vm { ctx = ctx }) name (length name + 1) 0 env.rules s 0
  unfolding exec_module
  exec_module-accepts fuel env vm s version o name content object ctx e f v u =
      let same : (object.version == version) ≡ true = ground (arith, v) in
      rw (e, f, same, u, exec_module) refl

  exec_event-accepts :
      (fuel : ℕ) (env : Environment M Q N) (vm : Vm M) (s : Session Q) (version o : ℕ)
      (name content : Bytes) (object : Object M) (ctx : Context M)
      → NoNul name
      → ac_context_get vm.ctx name ≡ some o
      → vm.ctx.heap o ≡ some object
      → object.version ≡ version
      → env.unmarshal vm.ctx o content ≡ some ctx
      → exec_event fuel env vm
          (8 + (length name + 1 + length content))
          (name ++ (0 ∷ content))
          s
          version
          (length name + 1)
        ≡ exec_rules fuel env (record vm { ctx = ctx }) name (length name + 1) 0 env.rules s 0
  unfolding exec_event
  exec_event-accepts fuel env vm s version o name content object ctx nn e f v u =
      let short = not_short (length name) (length content) in
      let left : 8 + (length name + 1 + length content) - 8 - (length name + 1) ≡ length content =
        omega arith in
      rw
        (
          short,
          c_string-nul name content nn,
          drop-name name content,
          left,
          take-all content,
          exec_event,
        )
        (exec_module-accepts fuel env vm s version o name content object ctx e f v u)

  -- An event in this layout, for a module of the context with the version that the event has, whose name has no zero and
  -- whose data the module accepts: `ac_vm_exec` resets the trigger count and executes all rules against the event's data, with
  -- the event's name.
  pub vm_exec-event_bytes :
      (fuel : ℕ) (env : Environment M Q N) (vm : Vm M) (s : Session Q) (version o : ℕ)
      (name content : Bytes) (object : Object M) (ctx : Context M)
      → version < word_mod
      → length name + 1 < word_mod
      → NoNul name
      → ac_context_get vm.ctx name ≡ some o
      → vm.ctx.heap o ≡ some object
      → object.version ≡ version
      → env.unmarshal vm.ctx o content ≡ some ctx
      → ac_vm_exec fuel env vm (event_bytes version name content) s
        ≡ exec_rules fuel env
            (record vm { ctx = ctx })
            name
            (length name + 1)
            0
            env.rules
            (fresh s)
            0
  unfolding ac_vm_exec netint ac_bswap
  vm_exec-event_bytes fuel env vm s version o name content object ctx k l nn e f v u =
      let w : ltb (length (event_bytes version name content)) 8 ≡ false =
        rw (length-event_bytes version name content) (ground arith) in
      let first : read_le (event_bytes version name content) ≡ some version =
        unfold event_bytes in
        read_le-le_bytes version (le_bytes (length name + 1) ++ (name ++ (0 ∷ content))) k in
      let (d₄, d₈) = drop-event_bytes version name content in
      rw
        (
          w,
          first,
          d₄,
          read_le-le_bytes (length name + 1) (name ++ (0 ∷ content)) l,
          d₈,
          length-event_bytes version name content,
          ac_vm_exec,
        )
        (exec_event-accepts fuel env vm (fresh s) version o name content object ctx nn e f v u)
