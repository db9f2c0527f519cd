-- ===== src/Vm/Run.antt =====
-- Runs of the interpreter, round by round, and the reading of instructions from the code.

use alca.Base.{
  ℕ, zero, suc, ◌+◌, ◌≤◌, ◌<◌, ◌≡◌, refl, sym, ap, ◌∙◌, some, List, [], ◌∷◌, ◌++◌, append_assoc,
  length, length-append, get_elem?, drop, Bytes, arith,
}
use alca.Base.Words.{word_mod, le_bytes, read_le, read_le-le_bytes}
use alca.HashMap.{HashMap}
use alca.Context.{Value}
use alca.Bytecode.Opcode.{Opcode, op_code, decode-op_code, HasCase}
use alca.Vm.Machine.{enter, Vm, Machine, Step, continue, stop, Callee, exec_op, step, run}

abbrev pub machine : List Value → ℕ → List Value → Machine
machine s ip regs = record { stack = s; ip = ip; regs = regs }

-- `bytes` stand in the code at offset `n`.
pub record Located {M : Type 0} (vm : Vm M) (n : ℕ) (bytes : Bytes) : Type 0 where
  pub before : Bytes
  pub after : Bytes
  pub code : vm.code ≡ before ++ (bytes ++ after)
  pub offset : length before ≡ n

module _ {M : Type 0} {vm : Vm M} where
  pub Located-left : {n : ℕ} (xs ys : Bytes) → Located vm n (xs ++ ys) → Located vm n xs
  Located-left xs ys at = record {
    before = at.before;
    after = ys ++ at.after;
    code = at.code ∙ ap (λ t. at.before ++ t) (append_assoc xs ys at.after);
    offset = at.offset;
  }

  pub Located-right :
      {n : ℕ} (xs ys : Bytes) → Located vm n (xs ++ ys) → Located vm (n + length xs) ys
  Located-right xs ys at = record {
    before = at.before ++ xs;
    after = at.after;
    code =
        at.code
        ∙ ap (λ t. at.before ++ t) (append_assoc xs ys at.after)
        ∙ sym (append_assoc at.before xs (ys ++ at.after));
    offset = omega (arith, length-append at.before xs, at.offset);
  }

get_elem?-append : (xs ys : Bytes) (c : ℕ) → get_elem? (xs ++ (c ∷ ys)) (length xs) ≡ some c
get_elem?-append [] ys c = refl
get_elem?-append (x ∷ xs) ys c = get_elem?-append xs ys c

drop-append_suc : (xs ys : Bytes) (c : ℕ) → drop (suc (length xs)) (xs ++ (c ∷ ys)) ≡ ys
drop-append_suc [] ys c = refl
drop-append_suc (x ∷ xs) ys c = drop-append_suc xs ys c

module _ {M : Type 0} {vm : Vm M} where
  pub fetch-Located :
      {n c : ℕ} {rest : Bytes} → Located vm n (c ∷ rest) → get_elem? vm.code n ≡ some c
  fetch-Located {c = c} {rest = rest} at =
      rw (at.code, ← at.offset) (get_elem?-append at.before (rest ++ at.after) c)

  -- the operand of an instruction
  pub arg-Located :
      {n c : ℕ} (x : ℕ)
      → Located vm n (c ∷ le_bytes x)
      → x < word_mod
      → read_le (drop (n + 1) vm.code) ≡ some x
  arg-Located {n} {c} x at h =
      let e : n + 1 ≡ suc (length at.before) = omega (arith, at.offset) in
      rw (at.code, e, drop-append_suc at.before (le_bytes x ++ at.after) c)
        (read_le-le_bytes x at.after h)

module _ {M : Type 0} ⦃h : HashMap Bytes ℕ M⦄ where
  -- Rounds that do not depend on what a called rule does.
  pub data Steps (vm : Vm M) (m : Machine) : Machine → Type 0 where
    here : Steps vm m m
    next :
        {m₁ m₂ : Machine}
        → Steps vm m m₁
        → ((callee : Callee) → step vm callee m₁ ≡ continue m₂)
        → Steps vm m m₂

  pub Steps-trans : {vm : Vm M} {m m₁ m₂ : Machine} → Steps vm m m₁ → Steps vm m₁ m₂ → Steps vm m m₂
  Steps-trans p here = p
  Steps-trans p (next q e) = next (Steps-trans p q) e

  -- one round at an instruction that stands in the code
  pub step-Located :
      {vm : Vm M} {rest : Bytes} (op : Opcode) (m : Machine) (callee : Callee)
      → HasCase op
      → Located vm m.ip (op_code op ∷ rest)
      → step vm callee m ≡ exec_op op vm callee (record m { ip = m.ip + 1 })
  unfolding step
  step-Located op m callee c at = rw (fetch-Located at, decode-op_code op c)

  -- With enough fuel the loop comes to `out`.
  abbrev pub Comes : Vm M → Machine → Step → Type 0
  Comes vm m out = (n : ℕ) × ((fuel : ℕ) → n ≤ fuel → run fuel vm m ≡ out)

  Comes-step :
      (vm : Vm M) (m m₁ : Machine) (out : Step)
      → ((callee : Callee) → step vm callee m ≡ continue m₁)
      → Comes vm m₁ out
      → Comes vm m out
  Comes-step vm m m₁ out e (n, p) = (suc n, go)
    where
      go : (fuel : ℕ) → suc n ≤ fuel → run fuel vm m ≡ out
      go zero k = absurd (omega arith)
      go (suc fuel) k = unfold run in rw (e (enter vm (run fuel vm))) (p fuel (omega arith))

  pub Comes-Steps :
      {vm : Vm M} {m m₁ : Machine} {out : Step} → Steps vm m m₁ → Comes vm m₁ out → Comes vm m out
  Comes-Steps here c = c
  Comes-Steps (next p e) c = Comes-Steps p (Comes-step _ _ _ _ e c)

  pub Comes-stop :
      (vm : Vm M) (m : Machine) (r err : ℕ) (s : List Value)
      → ((callee : Callee) → step vm callee m ≡ stop r err s)
      → Comes vm m (stop r err s)
  Comes-stop vm m r err s e = (1, go)
    where
      go : (fuel : ℕ) → 1 ≤ fuel → run fuel vm m ≡ stop r err s
      go zero k = absurd (omega arith)
      go (suc fuel) k = unfold run in rw (e (enter vm (run fuel vm)))
