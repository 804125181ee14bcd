-- ===== src/Jit/Count.antt =====
-- bpf/jit/bpf_jit_comp32.c: how many words a BPF instruction becomes does not hang on the offset table, so
-- that the second pass meets the size that the first pass has counted.
use serval_sosp.Base.{
  ℕ, suc, ◌+◌, ◌^◌, ◌≤◌, ◌≡◌, refl, ◌⊎◌, inl, inr, Bool, true, false, List, [], ◌∷◌, ◌++◌,
  if◌then◌else◌, arith,
}
use serval_sosp.Jit.Regs.{Pair}
use serval_sosp.Jit.Jump.{
  Emitted, emitted, failed, jump_r64, jump_r32, emit_rv32_jump_r64, emit_rv32_jump_r32,
}
use serval_sosp.Jit.Insn.{
  Insn, FuncAddr, Place, after, or_minus_one, emit_ja, emit_call, emit_exit, emit_insn,
}

unfoldable pub length : List ℕ → ℕ
length [] = 0
length (x ∷ xs) = suc (length xs)

pub length-append : (xs ys : List ℕ) → length (xs ++ ys) ≡ length xs + length ys
unfolding length
length-append [] ys = omega arith
length-append (x ∷ xs) ys = omega (arith, length-append xs ys)

-- `e` emits as many words as `d` and returns the same, or one of them fails: when only `e` fails, it
-- has emitted no more.
unfoldable pub Fits : Emitted → Emitted → Type 0
Fits d e =
    (2 ^ 31 ≤ d.ret)
    ⊎ ((d.ret ≡ e.ret) × (length d.words ≡ length e.words))
    ⊎ ((2 ^ 31 ≤ e.ret) × (length e.words ≤ length d.words))

Fits-refl : (e : Emitted) → Fits e e
unfolding Fits
Fits-refl e = inr (inl (refl, refl))

if-Fits :
    (b : Bool) (d e d2 e2 : Emitted)
    → Fits d e
    → Fits d2 e2
    → Fits (if b then d else d2) (if b then e else e2)
if-Fits true d e d2 e2 f g = f
if-Fits false d e d2 e2 f g = g

-- Words whose number does not hang on the offset, or a failure after a part of them
checked-Fits :
    (a b : Bool) (xs ys zs : List ℕ)
    → length ys ≡ length zs
    → Fits
        (if a then emitted (xs ++ ys) else failed xs)
        (if b then emitted (xs ++ zs) else failed xs)
unfolding Fits
checked-Fits false b xs ys zs h = inl (omega arith)
checked-Fits true true xs ys zs h =
    inr (inl (refl, omega (arith, length-append xs ys, length-append xs zs)))
checked-Fits true false xs ys zs h = inr (inr (omega arith, omega (arith, length-append xs ys)))

or_minus_one-Fits : (d e : Emitted) → Fits d e → Fits (or_minus_one d) (or_minus_one e)
unfolding Fits or_minus_one
or_minus_one-Fits d e f = ground arith

after-Fits : (xs : List ℕ) (d e : Emitted) → Fits d e → Fits (after xs d) (after xs e)
unfolding Fits
after-Fits xs d e f = ground (arith, length-append xs d.words, length-append xs e.words)

length-one : (x y : ℕ) → length (x ∷ []) ≡ length (y ∷ [])
unfolding length
length-one x y = refl

one-Fits :
    (a b : Bool) (x y : ℕ)
    → Fits (if a then emitted (x ∷ []) else failed []) (if b then emitted (y ∷ []) else failed [])
one-Fits a b x y = checked-Fits a b [] (x ∷ []) (y ∷ []) (length-one x y)

length-jump_r64 :
    (rs1 rs2 : Pair) (v w op : ℕ) → length (jump_r64 rs1 rs2 v op) ≡ length (jump_r64 rs1 rs2 w op)
unfolding jump_r64 length
length-jump_r64 rs1 rs2 v w op = ground arith

length-jump_r32 :
    (rs1 rs2 : Pair) (v w op : ℕ) → length (jump_r32 rs1 rs2 v op) ≡ length (jump_r32 rs1 rs2 w op)
unfolding jump_r32 length
length-jump_r32 rs1 rs2 v w op = ground arith

jump_r64-Fits :
    (o o2 : ℕ → ℕ) (src1 src2 : Pair) (off i op : ℕ)
    → Fits (emit_rv32_jump_r64 o src1 src2 off i op) (emit_rv32_jump_r64 o2 src1 src2 off i op)
unfolding emit_rv32_jump_r64
jump_r64-Fits o o2 src1 src2 off i op = search (checked-Fits, length-jump_r64)

jump_r32-Fits :
    (o o2 : ℕ → ℕ) (src1 src2 : Pair) (off i op : ℕ)
    → Fits (emit_rv32_jump_r32 o src1 src2 off i op) (emit_rv32_jump_r32 o2 src1 src2 off i op)
unfolding emit_rv32_jump_r32
jump_r32-Fits o o2 src1 src2 off i op = search (checked-Fits, length-jump_r32)

-- Two places that differ in the offset table, the words emitted before and the epilogue's place
abbrev pub at : ℕ → Bool → (Insn → Bool → FuncAddr) → (ℕ → ℕ) → ℕ → ℕ → Place
at n z f o m ep = record { len = n; zext = z; func_addr = f; offset = o; ninsns = m; epilogue = ep }

module _ (n : ℕ) (z : Bool) (f : Insn → Bool → FuncAddr) (o o2 : ℕ → ℕ) (m m2 ep ep2 : ℕ) where
  emit_ja-Fits :
      (off i : ℕ) → Fits (emit_ja (at n z f o m ep) off i) (emit_ja (at n z f o2 m2 ep2) off i)
  unfolding emit_ja
  emit_ja-Fits off i = search (one-Fits)

  emit_exit-Fits : (i : ℕ) → Fits (emit_exit (at n z f o m ep) i) (emit_exit (at n z f o2 m2 ep2) i)
  unfolding emit_exit
  emit_exit-Fits i = search (if-Fits, Fits-refl, one-Fits)

  emit_call-Fits :
      (insn : Insn) (extra : Bool)
      → Fits (emit_call (at n z f o m ep) insn extra) (emit_call (at n z f o2 m2 ep2) insn extra)
  unfolding emit_call
  emit_call-Fits insn extra = Fits-refl _

  pub emit_insn-Fits :
      (insn : Insn) (next_imm i : ℕ) (extra : Bool)
      → Fits
          (emit_insn (at n z f o m ep) insn next_imm i extra)
          (emit_insn (at n z f o2 m2 ep2) insn next_imm i extra)
  unfolding emit_insn
  emit_insn-Fits insn next_imm i extra =
      search
        (
          if-Fits, Fits-refl, emit_call-Fits, emit_ja-Fits, emit_exit-Fits, after-Fits,
          or_minus_one-Fits, jump_r64-Fits, jump_r32-Fits,
        )
        depth 30
