-- ===== src/Jit/Alu64.antt =====
-- bpf/jit/bpf_jit_comp32.c against bpf/kbpf.c: the words of emit_rv32_alu_r64's switch compute what
-- the interpreter does.
use serval_sosp.Base.{
  Bool, if◌then◌else◌, false, none, ltb, ◌/◌, ◌%◌, inl, inr, ℕ, ◌+◌, ◌*◌, ◌^◌, ◌<◌, ◌≡◌, ◌≢◌, refl,
  ap, sym, ◌∙◌, ◌⊎◌, subst, true, List, [], ◌∷◌, some, arith, bit_and, bit_or, bit_xor,
}
use mathlib.Core.Path.{ap₂}
use mathlib.Core.Option.{some-injective, none-ne-some}
use serval_sosp.Base.Digits.{
  bit_and-shr, bit_or-shr, bit_xor-shr, bit_and-low, bit_or-low, bit_xor-low,
}
use serval_sosp.Jit.Regs.{Pair}
use serval_sosp.Jit.Alu.{
  alu_r64, bpf_add, bpf_sub, bpf_mul, bpf_or, bpf_and, bpf_neg, bpf_xor, bpf_mov, bpf_lsh, bpf_rsh,
  bpf_arsh,
}
use serval_sosp.Jit.Code.{shifts, one_of}
use serval_sosp.Jit.Kbpf.{sar64, alu64_x}
use serval_sosp.Jit.Shift64.{lsh64, rsh64, arsh64}
use serval_sosp.Jit.Correct.{
  IsPair, Leaves, value, mov64, add64, sub64, and64, or64, xor64, mul64, neg64,
}

-- An operation on each digit acts on the words of a pair.
pub split :
    (op : ℕ → ℕ → ℕ) (a b c d : ℕ)
    → b < 2 ^ 32
    → d < 2 ^ 32
    → (op (a * 2 ^ 32 + b) (c * 2 ^ 32 + d) / 2 ^ 32
        ≡ op ((a * 2 ^ 32 + b) / 2 ^ 32) ((c * 2 ^ 32 + d) / 2 ^ 32))
    → (op (a * 2 ^ 32 + b) (c * 2 ^ 32 + d) % 2 ^ 32
        ≡ op ((a * 2 ^ 32 + b) % 2 ^ 32) ((c * 2 ^ 32 + d) % 2 ^ 32))
    → op a c * 2 ^ 32 + op b d ≡ op (a * 2 ^ 32 + b) (c * 2 ^ 32 + d)
split op a b c d h k high low =
    let ah : (a * 2 ^ 32 + b) / 2 ^ 32 ≡ a = omega arith in
    let al : (a * 2 ^ 32 + b) % 2 ^ 32 ≡ b = omega arith in
    let ch : (c * 2 ^ 32 + d) / 2 ^ 32 ≡ c = omega arith in
    let cl : (c * 2 ^ 32 + d) % 2 ^ 32 ≡ d = omega arith in
    omega (arith, high ∙ ap₂ op ah ch, low ∙ ap₂ op al cl)

-- The operations that ALU64_*_X and the compiler have in common, shifts apart
abbrev pub covered : List ℕ
covered = bpf_mov ∷ bpf_add ∷ bpf_sub ∷ bpf_and ∷ bpf_or ∷ bpf_xor ∷ bpf_mul ∷ bpf_neg ∷ []

one_of-covered :
    (op : ℕ)
    → one_of op covered ≡ true
    → (op ≡ bpf_mov)
      ⊎ (op ≡ bpf_add)
      ⊎ (op ≡ bpf_sub)
      ⊎ (op ≡ bpf_and)
      ⊎ (op ≡ bpf_or)
      ⊎ (op ≡ bpf_xor)
      ⊎ (op ≡ bpf_mul)
      ⊎ (op ≡ bpf_neg)
unfolding one_of
one_of-covered op h = ground arith

module _ (f : ℕ → ℕ) (rd rs : Pair) (wf : (n : ℕ) → f n < 2 ^ 32) (d : IsPair rd) (s : IsPair rs)
    (x : rs.hi ≢ rd.lo) (y : rs.lo ≢ rd.hi) where
  -- The words of `op` leave what the interpreter computes.
  abbrev Right : ℕ → ℕ → Type 0
  Right v op = alu64_x op (value f rd) (value f rs) ≡ some v → Leaves f (alu_r64 rd rs op) rd v

  -- It is enough to know what the words leave.
  right :
      (op w v : ℕ)
      → alu64_x op (value f rd) (value f rs) ≡ some w
      → Leaves f (alu_r64 rd rs op) rd w
      → Right v op
  right op w v e l k = subst (Leaves f (alu_r64 rd rs op) rd) (some-injective w v (sym e ∙ k)) l

  split_words :
      (op : ℕ → ℕ → ℕ)
      → ((k a b : ℕ) → op a b / 2 ^ k ≡ op (a / 2 ^ k) (b / 2 ^ k))
      → ((k a b : ℕ) → op a b % 2 ^ k ≡ op (a % 2 ^ k) (b % 2 ^ k))
      → op (f rd.hi) (f rs.hi) * 2 ^ 32 + op (f rd.lo) (f rs.lo) ≡ op (value f rd) (value f rs)
  split_words op shr low =
      split op (f rd.hi) (f rd.lo) (f rs.hi) (f rs.lo) (wf rd.lo) (wf rs.lo)
        (shr 32 (value f rd) (value f rs)) (low 32 (value f rd) (value f rs))

  op-Right : (op v : ℕ) → one_of op covered ≡ true → Right v op
  unfolding alu64_x
  op-Right op v h = elim (one_of-covered op h) [
    | inl e ↦ rw e (right bpf_mov _ v refl (mov64 f rd rs wf d s x y))
    | inr (inl e) ↦ rw e (right bpf_add _ v refl (add64 f rd rs wf d s x y))
    | inr (inr (inl e)) ↦ rw e (right bpf_sub _ v refl (sub64 f rd rs wf d s x y))
    | inr (inr (inr (inl e))) ↦ rw e (
        right bpf_and _ v (ap some (sym (split_words bit_and bit_and-shr bit_and-low)))
          (and64 f rd rs wf d s x y))
    | inr (inr (inr (inr (inl e)))) ↦ rw e (
        right bpf_or _ v (ap some (sym (split_words bit_or bit_or-shr bit_or-low)))
          (or64 f rd rs wf d s x y))
    | inr (inr (inr (inr (inr (inl e))))) ↦ rw e (
        right bpf_xor _ v (ap some (sym (split_words bit_xor bit_xor-shr bit_xor-low)))
          (xor64 f rd rs wf d s x y))
    | inr (inr (inr (inr (inr (inr (inl e)))))) ↦
        rw e (right bpf_mul _ v refl (mul64 f rd rs wf d s x y))
    | inr (inr (inr (inr (inr (inr (inr e)))))) ↦
        rw e (right bpf_neg _ v refl (neg64 f rd rs wf d s x y))
  ]

-- A result under a test
some_if : (b : Bool) (w v : ℕ) → (if b then some w else none) ≡ some v → (b ≡ true) × (w ≡ v)
some_if true w v e = (refl, some-injective w v e)
some_if false w v e = absurd (none-ne-some v e)

one_of-shifts :
    (op : ℕ) → one_of op shifts ≡ true → (op ≡ bpf_lsh) ⊎ (op ≡ bpf_rsh) ⊎ (op ≡ bpf_arsh)
unfolding one_of
one_of-shifts op h = ground arith

-- A test of the amount as the interpreter makes it
amount : (a b : ℕ) → ltb (a * 2 ^ 32 + b) 64 ≡ true → (b < 64) × (a * 2 ^ 32 + b ≡ b)
amount a b h = ground arith

module _ (f : ℕ → ℕ) (rd rs : Pair) (wf : (n : ℕ) → f n < 2 ^ 32) (d : IsPair rd) (s : IsPair rs)
    (x : rs.hi ≢ rd.lo) (y : rs.lo ≢ rd.hi) (apart : rs.lo ≢ rd.lo) where
  -- A shift, by what its words leave and what the interpreter computes
  shift-Right :
      (op v : ℕ) (result : ℕ → ℕ)
      → (f rs.lo < 64 → Leaves f (alu_r64 rd rs op) rd (result (f rs.lo)))
      → (if ltb (value f rs) 64 then some (result (value f rs)) else none) ≡ some v
      → Leaves f (alu_r64 rd rs op) rd v
  shift-Right op v result l e =
      let known = some_if (ltb (value f rs) 64) (result (value f rs)) v e in
      let small = amount (f rs.hi) (f rs.lo) known.0 in
      subst (Leaves f (alu_r64 rd rs op) rd) (ap result (sym small.1) ∙ known.1) (l small.0)

  shifts-Right :
      (op v : ℕ)
      → one_of op shifts ≡ true
      → alu64_x op (value f rd) (value f rs) ≡ some v
      → Leaves f (alu_r64 rd rs op) rd v
  unfolding alu64_x
  shifts-Right op v h = elim (one_of-shifts op h) [
    | inl e ↦
        rw e (
          shift-Right bpf_lsh v (λ k. value f rd * 2 ^ k % 2 ^ 64) (lsh64 f rd rs wf d s x y apart))
    | inr (inl e) ↦
        rw e (shift-Right bpf_rsh v (λ k. value f rd / 2 ^ k) (rsh64 f rd rs wf d s x y apart))
    | inr (inr e) ↦
        rw e (shift-Right bpf_arsh v (sar64 (value f rd)) (arsh64 f rd rs wf d s x y apart))
  ]

-- Where registers hold words, and the destination and the source are two pairs that the compiler can
-- use: if the interpreter computes `v` from the values of the pairs, for MOV, ADD, SUB, AND, OR, XOR,
-- MUL or NEG, or, if the source is not the destination, for LSH, RSH or ARSH, so by less than 64, the
-- words of the switch leave `v` in the destination, keep every other register but the temporaries
-- T0 and T1, and end behind the last word.
pub alu_r64-alu64 :
    (f : ℕ → ℕ) (rd rs : Pair) (op v : ℕ)
    → ((n : ℕ) → f n < 2 ^ 32)
    → IsPair rd
    → IsPair rs
    → rs.hi ≢ rd.lo
    → rs.lo ≢ rd.hi
    → (one_of op covered ≡ true) ⊎ ((one_of op shifts ≡ true) × (rs.lo ≢ rd.lo))
    → alu64_x op (value f rd) (value f rs) ≡ some v
    → Leaves f (alu_r64 rd rs op) rd v
alu_r64-alu64 f rd rs op v wf d s x y (inl h) e = op-Right f rd rs wf d s x y op v h e
alu_r64-alu64 f rd rs op v wf d s x y (inr (h, apart)) e =
    shifts-Right f rd rs wf d s x y apart op v h e
