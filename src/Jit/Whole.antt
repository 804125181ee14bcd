-- ===== src/Jit/Whole.antt =====
-- bpf/jit/bpf_jit_comp32.c: emit_insn on a 64-bit operation between BPF registers that live in RV32
-- registers.
use serval_sosp.Base.{
  ℕ, ◌+◌, ◌^◌, ◌<◌, ◌≡◌, ◌≢◌, refl, sym, ◌∙◌, subst, ◌⊎◌, inl, inr, Bool, true, not, ◌&&◌, ◌||◌,
  List, [], ◌∷◌, some, if◌then◌else◌, ◌==◌, arith,
}
use serval_sosp.Base.Bits.{all_below, all_below_sound}
use serval_sosp.Jit.Regs.{pair, bpf2rv32}
use serval_sosp.Jit.Alu.{
  emit_rv32_alu_r64, bpf_add, bpf_sub, bpf_mul, bpf_or, bpf_and, bpf_neg, bpf_xor, bpf_mov, bpf_lsh,
  bpf_rsh, bpf_arsh,
}
use serval_sosp.Jit.Code.{one_of, shifts, bpf_alu64, bpf_x}
use serval_sosp.Jit.Insn.{Insn, Place, emit_insn}
use serval_sosp.Jit.Kbpf.{alu64_x}
use serval_sosp.Jit.Correct.{IsPair, Leaves, value}
use serval_sosp.Jit.Alu64.{covered, alu_r64-alu64}
use serval_sosp.Jit.Pairs.{in_register, in_register-small, pairs, emit_rv32_alu_r64-pairs}

-- The operations between two registers, shifts apart
abbrev pub between : List ℕ
between = bpf_mov ∷ bpf_add ∷ bpf_sub ∷ bpf_and ∷ bpf_or ∷ bpf_xor ∷ bpf_mul ∷ []

-- NEG has no source.
abbrev pub code_of : ℕ → ℕ
code_of op = if op == bpf_neg then bpf_alu64 + bpf_neg else bpf_alu64 + op + bpf_x

abbrev pub insn_x : ℕ → ℕ → ℕ → ℕ → Insn
insn_x op r s off = record { code = code_of op; dst_reg = r; src_reg = s; off = off; imm = 0 }

ten :
    (op : ℕ)
    → (one_of op between ≡ true) ⊎ (one_of op shifts ≡ true)
    → (op ≡ bpf_mov)
      ⊎ (op ≡ bpf_add)
      ⊎ (op ≡ bpf_sub)
      ⊎ (op ≡ bpf_and)
      ⊎ (op ≡ bpf_or)
      ⊎ (op ≡ bpf_xor)
      ⊎ (op ≡ bpf_mul)
      ⊎ (op ≡ bpf_lsh)
      ⊎ (op ≡ bpf_rsh)
      ⊎ (op ≡ bpf_arsh)
unfolding one_of
ten op h = ground arith

module _ (p : Place) (r s off next_imm i : ℕ) (extra : Bool) where
  abbrev Emits : ℕ → Type 0
  Emits op =
      ((emit_insn p (insn_x op r s off) next_imm i extra).words
        ≡ emit_rv32_alu_r64 (bpf2rv32 r) (bpf2rv32 s) op)
      × ((emit_insn p (insn_x op r s off) next_imm i extra).ret ≡ 0)

  emit_insn-Emits : (op : ℕ) → (one_of op between ≡ true) ⊎ (one_of op shifts ≡ true) → Emits op
  unfolding emit_insn one_of
  emit_insn-Emits op h = elim (ten op h) [
    | inl e ↦ rw e (refl, refl)
    | inr (inl e) ↦ rw e (refl, refl)
    | inr (inr (inl e)) ↦ rw e (refl, refl)
    | inr (inr (inr (inl e))) ↦ rw e (refl, refl)
    | inr (inr (inr (inr (inl e)))) ↦ rw e (refl, refl)
    | inr (inr (inr (inr (inr (inl e))))) ↦ rw e (refl, refl)
    | inr (inr (inr (inr (inr (inr (inl e)))))) ↦ rw e (refl, refl)
    | inr (inr (inr (inr (inr (inr (inr (inl e))))))) ↦ rw e (refl, refl)
    | inr (inr (inr (inr (inr (inr (inr (inr (inl e)))))))) ↦ rw e (refl, refl)
    | inr (inr (inr (inr (inr (inr (inr (inr (inr e)))))))) ↦ rw e (refl, refl)
  ]

between-covered : (op : ℕ) → one_of op between ≡ true → one_of op covered ≡ true
unfolding one_of
between-covered op h = ground arith

-- The pairs of two BPF registers that are not the same are apart.
not_same : (r s : ℕ) (a : Type 0) → (r ≡ s) ⊎ a → r ≢ s → a
not_same r s a (inl e) h = absurd (h e)
not_same r s a (inr x) h = x

neg_or :
    (op : ℕ) → one_of op (bpf_neg ∷ between) ≡ true → (op ≡ bpf_neg) ⊎ (one_of op between ≡ true)
unfolding one_of
neg_or op h = ground arith

-- The second temporary pair, which stands for the source of NEG
neg_usable : ℕ → Bool
neg_usable r = not (in_register r) || not (30 == (bpf2rv32 r).lo) && not (29 == (bpf2rv32 r).hi)

neg_table : all_below 11 neg_usable ≡ true
unfolding all_below neg_usable in_register bpf2rv32
neg_table = refl

neg_apart : (r : ℕ) → in_register r ≡ true → (30 ≢ (bpf2rv32 r).lo) × (29 ≢ (bpf2rv32 r).hi)
unfolding neg_usable
neg_apart r h = ground (arith, all_below_sound 11 neg_usable r neg_table (in_register-small r h))

tmp2_pair : IsPair (pair 30 29)
tmp2_pair = record {
  hi_above = omega arith;
  hi_below = omega arith;
  lo_above = omega arith;
  lo_below = omega arith;
  distinct = λ e. absurd (omega arith);
}

-- What the instruction emits, and what its words leave
abbrev Right : Place → ℕ → ℕ → ℕ → ℕ → ℕ → Bool → ℕ → ℕ → (ℕ → ℕ) → Type 0
Right p r s off next_imm i extra op v f =
    ((emit_insn p (insn_x op r s off) next_imm i extra).ret ≡ 0)
    × Leaves f (emit_insn p (insn_x op r s off) next_imm i extra).words (bpf2rv32 r) v

between-Right :
    (p : Place) (r s off next_imm i : ℕ) (extra : Bool) (op v : ℕ) (f : ℕ → ℕ)
    → ((n : ℕ) → f n < 2 ^ 32)
    → in_register r ≡ true
    → in_register s ≡ true
    → (one_of op between ≡ true) ⊎ ((one_of op shifts ≡ true) × (r ≢ s))
    → alu64_x op (value f (bpf2rv32 r)) (value f (bpf2rv32 s)) ≡ some v
    → Right p r s off next_imm i extra op v f
between-Right p r s off next_imm i extra op v f wf h k o e =
    let w = pairs r s h k in
    let listed : (one_of op between ≡ true) ⊎ (one_of op shifts ≡ true) = ground (arith, o) in
    let known : (one_of op covered ≡ true)
        ⊎ ((one_of op shifts ≡ true) × ((bpf2rv32 s).lo ≢ (bpf2rv32 r).lo)) =
      elim o [ inl a ↦ inl (between-covered op a) | inr (a, b) ↦ inr (a, not_same r s _ w.4 b) ] in
    let emits = emit_insn-Emits p r s off next_imm i extra op listed in
    (
      emits.1,
      subst (λ ws. Leaves f ws (bpf2rv32 r) v)
          (sym (emits.0 ∙ emit_rv32_alu_r64-pairs (bpf2rv32 r) (bpf2rv32 s) op w.0 w.1))
          (alu_r64-alu64 f (bpf2rv32 r) (bpf2rv32 s) op v wf w.0 w.1 w.2 w.3 known e),
    )

neg-emit :
    (p : Place) (r s off next_imm i : ℕ) (extra : Bool)
    → ((emit_insn p (insn_x bpf_neg r s off) next_imm i extra).ret ≡ 0)
      × ((emit_insn p (insn_x bpf_neg r s off) next_imm i extra).words
          ≡ emit_rv32_alu_r64 (bpf2rv32 r) (pair 30 29) bpf_neg)
unfolding emit_insn one_of bpf2rv32
neg-emit p r s off next_imm i extra = (refl, refl)

neg_source :
    (dst src src2 v : ℕ) → alu64_x bpf_neg dst src ≡ some v → alu64_x bpf_neg dst src2 ≡ some v
unfolding alu64_x
neg_source dst src src2 v e = e

known_neg : one_of bpf_neg covered ≡ true
unfolding one_of
known_neg = refl

neg-Right :
    (p : Place) (r s off next_imm i : ℕ) (extra : Bool) (v : ℕ) (f : ℕ → ℕ)
    → ((n : ℕ) → f n < 2 ^ 32)
    → in_register r ≡ true
    → alu64_x bpf_neg (value f (bpf2rv32 r)) (value f (bpf2rv32 s)) ≡ some v
    → Right p r s off next_imm i extra bpf_neg v f
neg-Right p r s off next_imm i extra v f wf h e =
    let w = pairs r r h h in
    let n = neg_apart r h in
    let emits = neg-emit p r s off next_imm i extra in
    (
      emits.0,
      subst (λ ws. Leaves f ws (bpf2rv32 r) v)
          (sym (emits.1 ∙ emit_rv32_alu_r64-pairs (bpf2rv32 r) (pair 30 29) bpf_neg w.0 tmp2_pair))
          (alu_r64-alu64 f (bpf2rv32 r) (pair 30 29) bpf_neg v wf w.0 tmp2_pair n.0 n.1
            (inl known_neg)
            (neg_source (value f (bpf2rv32 r)) (value f (bpf2rv32 s)) (value f (pair 30 29)) v e)),
    )

-- For two BPF registers of R0 to R5 and the frame pointer, registers that hold words, and an
-- instruction of ALU64 with no immediate, NEG or one with the source BPF_X: if the interpreter
-- computes `v` from the values of the two, for NEG, MOV, ADD, SUB, AND, OR, XOR or MUL, or, for two
-- registers that are not the same, LSH, RSH or ARSH, so by less than 64, emit_insn returns 0, and the
-- words that it emits leave `v` in the pair of the destination, keep every other register but the
-- temporaries T0 and T1 (and 0, which always reads as 0), and end behind the last word.
pub emit_insn-alu64 :
    (p : Place) (r s off next_imm i : ℕ) (extra : Bool) (op v : ℕ) (f : ℕ → ℕ)
    → ((n : ℕ) → f n < 2 ^ 32)
    → in_register r ≡ true
    → in_register s ≡ true
    → (one_of op (bpf_neg ∷ between) ≡ true) ⊎ ((one_of op shifts ≡ true) × (r ≢ s))
    → alu64_x op (value f (bpf2rv32 r)) (value f (bpf2rv32 s)) ≡ some v
    → ((emit_insn p (insn_x op r s off) next_imm i extra).ret ≡ 0)
      × Leaves f (emit_insn p (insn_x op r s off) next_imm i extra).words (bpf2rv32 r) v
emit_insn-alu64 p r s off next_imm i extra op v f wf h k (inr o) =
    between-Right p r s off next_imm i extra op v f wf h k (inr o)
emit_insn-alu64 p r s off next_imm i extra op v f wf h k (inl o) = elim (neg_or op o) [
  | inl n ↦ rw n (neg-Right p r s off next_imm i extra v f wf h)
  | inr b ↦ between-Right p r s off next_imm i extra op v f wf h k (inl b)
]
