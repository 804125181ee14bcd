-- ===== src/Jit/Alu32.antt =====
-- bpf/jit/bpf_jit_comp32.c against bpf/kbpf.c: the words of emit_rv32_alu_r32's switch compute what
-- the interpreter does.
use serval_sosp.Base.{
  ℕ, ◌*◌, ◌^◌, ◌<◌, ◌≡◌, ◌≢◌, refl, ◌⊎◌, inl, inr, true, List, [], ◌∷◌, some, arith,
}
use serval_sosp.Jit.Regs.{Pair}
use serval_sosp.Jit.Alu.{
  alu_r32, bpf_add, bpf_sub, bpf_mul, bpf_div, bpf_or, bpf_and, bpf_lsh, bpf_rsh, bpf_neg, bpf_mod,
  bpf_xor, bpf_mov, bpf_arsh,
}
use serval_sosp.Jit.Code.{one_of}
use serval_sosp.Jit.Count.{length}
use serval_sosp.Jit.Kbpf.{alu32_x}
use serval_sosp.Jit.Rv32.{rv, exec, run, register_result, immediate_result}
use serval_sosp.Jit.Straight.{
  decode-rv_addi, decode-rv_add, decode-rv_sub, decode-rv_and, decode-rv_or, decode-rv_xor,
  decode-rv_mul, decode-rv_divu, decode-rv_remu, decode-rv_sll, decode-rv_srl, decode-rv_sra,
}
use serval_sosp.Jit.Correct.{IsPair}

-- All operations of ALU_*_X
abbrev pub all_operations : List ℕ
all_operations =
    bpf_mov ∷ bpf_add ∷ bpf_sub ∷ bpf_and ∷ bpf_or ∷ bpf_xor ∷ bpf_mul ∷ bpf_div ∷ bpf_mod ∷ bpf_lsh
    ∷ bpf_rsh ∷ bpf_arsh ∷ bpf_neg ∷ []

one_of-all_operations :
    (op : ℕ)
    → one_of op all_operations ≡ true
    → (op ≡ bpf_mov)
      ⊎ (op ≡ bpf_add)
      ⊎ (op ≡ bpf_sub)
      ⊎ (op ≡ bpf_and)
      ⊎ (op ≡ bpf_or)
      ⊎ (op ≡ bpf_xor)
      ⊎ (op ≡ bpf_mul)
      ⊎ (op ≡ bpf_div)
      ⊎ (op ≡ bpf_mod)
      ⊎ (op ≡ bpf_lsh)
      ⊎ (op ≡ bpf_rsh)
      ⊎ (op ≡ bpf_arsh)
      ⊎ (op ≡ bpf_neg)
unfolding one_of
one_of-all_operations op h = ground arith

-- Words that leave `v` in the register `r`, every other register as it was, and the program counter
-- behind the last word
abbrev pub Leaves32 : (ℕ → ℕ) → List ℕ → ℕ → ℕ → Type 0
Leaves32 f ws r v =
    ((run 0 ws (rv f 0)).regs r ≡ v)
    × ((n : ℕ) → n ≢ r → (run 0 ws (rv f 0)).regs n ≡ f n)
    × ((run 0 ws (rv f 0)).pc ≡ 4 * length ws)

z0 : 0 < 32
z0 = omega arith

module _ (f : ℕ → ℕ) (rd rs : Pair) (v : ℕ) (wf : (n : ℕ) → f n < 2 ^ 32) (d : IsPair rd)
    (s : IsPair rs) where
  dl : rd.lo < 32
  dl = d.lo_below

  sl : rs.lo < 32
  sl = s.lo_below

  mov32 : alu32_x bpf_mov (f rd.lo) (f rs.lo) ≡ some v → Leaves32 f (alu_r32 rd rs bpf_mov) rd.lo v
  unfolding alu_r32 alu32_x run exec register_result immediate_result length
  mov32 e =
      rw (decode-rv_addi rd.lo rs.lo 0 dl sl)
        (ground (arith, e, wf rd.lo, wf rs.lo), λ (n : ℕ) (a : n ≢ rd.lo). ground (arith, a), refl)

  add32 : alu32_x bpf_add (f rd.lo) (f rs.lo) ≡ some v → Leaves32 f (alu_r32 rd rs bpf_add) rd.lo v
  unfolding alu_r32 alu32_x run exec register_result immediate_result length
  add32 e =
      rw (decode-rv_add rd.lo rd.lo rs.lo dl dl sl)
        (ground (arith, e, wf rd.lo, wf rs.lo), λ (n : ℕ) (a : n ≢ rd.lo). ground (arith, a), refl)

  sub32 : alu32_x bpf_sub (f rd.lo) (f rs.lo) ≡ some v → Leaves32 f (alu_r32 rd rs bpf_sub) rd.lo v
  unfolding alu_r32 alu32_x run exec register_result immediate_result length
  sub32 e =
      rw (decode-rv_sub rd.lo rd.lo rs.lo dl dl sl)
        (ground (arith, e, wf rd.lo, wf rs.lo), λ (n : ℕ) (a : n ≢ rd.lo). ground (arith, a), refl)

  and32 : alu32_x bpf_and (f rd.lo) (f rs.lo) ≡ some v → Leaves32 f (alu_r32 rd rs bpf_and) rd.lo v
  unfolding alu_r32 alu32_x run exec register_result immediate_result length
  and32 e =
      rw (decode-rv_and rd.lo rd.lo rs.lo dl dl sl)
        (ground (arith, e, wf rd.lo, wf rs.lo), λ (n : ℕ) (a : n ≢ rd.lo). ground (arith, a), refl)

  or32 : alu32_x bpf_or (f rd.lo) (f rs.lo) ≡ some v → Leaves32 f (alu_r32 rd rs bpf_or) rd.lo v
  unfolding alu_r32 alu32_x run exec register_result immediate_result length
  or32 e =
      rw (decode-rv_or rd.lo rd.lo rs.lo dl dl sl)
        (ground (arith, e, wf rd.lo, wf rs.lo), λ (n : ℕ) (a : n ≢ rd.lo). ground (arith, a), refl)

  xor32 : alu32_x bpf_xor (f rd.lo) (f rs.lo) ≡ some v → Leaves32 f (alu_r32 rd rs bpf_xor) rd.lo v
  unfolding alu_r32 alu32_x run exec register_result immediate_result length
  xor32 e =
      rw (decode-rv_xor rd.lo rd.lo rs.lo dl dl sl)
        (ground (arith, e, wf rd.lo, wf rs.lo), λ (n : ℕ) (a : n ≢ rd.lo). ground (arith, a), refl)

  mul32 : alu32_x bpf_mul (f rd.lo) (f rs.lo) ≡ some v → Leaves32 f (alu_r32 rd rs bpf_mul) rd.lo v
  unfolding alu_r32 alu32_x run exec register_result immediate_result length
  mul32 e =
      rw (decode-rv_mul rd.lo rd.lo rs.lo dl dl sl)
        (ground (arith, e, wf rd.lo, wf rs.lo), λ (n : ℕ) (a : n ≢ rd.lo). ground (arith, a), refl)

  div32 : alu32_x bpf_div (f rd.lo) (f rs.lo) ≡ some v → Leaves32 f (alu_r32 rd rs bpf_div) rd.lo v
  unfolding alu_r32 alu32_x run exec register_result immediate_result length
  div32 e =
      rw (decode-rv_divu rd.lo rd.lo rs.lo dl dl sl)
        (ground (arith, e, wf rd.lo, wf rs.lo), λ (n : ℕ) (a : n ≢ rd.lo). ground (arith, a), refl)

  mod32 : alu32_x bpf_mod (f rd.lo) (f rs.lo) ≡ some v → Leaves32 f (alu_r32 rd rs bpf_mod) rd.lo v
  unfolding alu_r32 alu32_x run exec register_result immediate_result length
  mod32 e =
      rw (decode-rv_remu rd.lo rd.lo rs.lo dl dl sl)
        (ground (arith, e, wf rd.lo, wf rs.lo), λ (n : ℕ) (a : n ≢ rd.lo). ground (arith, a), refl)

  lsh32 : alu32_x bpf_lsh (f rd.lo) (f rs.lo) ≡ some v → Leaves32 f (alu_r32 rd rs bpf_lsh) rd.lo v
  unfolding alu_r32 alu32_x run exec register_result immediate_result length
  lsh32 e =
      rw (decode-rv_sll rd.lo rd.lo rs.lo dl dl sl)
        (ground (arith, e, wf rd.lo, wf rs.lo), λ (n : ℕ) (a : n ≢ rd.lo). ground (arith, a), refl)

  rsh32 : alu32_x bpf_rsh (f rd.lo) (f rs.lo) ≡ some v → Leaves32 f (alu_r32 rd rs bpf_rsh) rd.lo v
  unfolding alu_r32 alu32_x run exec register_result immediate_result length
  rsh32 e =
      rw (decode-rv_srl rd.lo rd.lo rs.lo dl dl sl)
        (ground (arith, e, wf rd.lo, wf rs.lo), λ (n : ℕ) (a : n ≢ rd.lo). ground (arith, a), refl)

  arsh32 :
      alu32_x bpf_arsh (f rd.lo) (f rs.lo) ≡ some v → Leaves32 f (alu_r32 rd rs bpf_arsh) rd.lo v
  unfolding alu_r32 alu32_x run exec register_result immediate_result length
  arsh32 e =
      rw (decode-rv_sra rd.lo rd.lo rs.lo dl dl sl)
        (ground (arith, e, wf rd.lo, wf rs.lo), λ (n : ℕ) (a : n ≢ rd.lo). ground (arith, a), refl)

  neg32 : alu32_x bpf_neg (f rd.lo) (f rs.lo) ≡ some v → Leaves32 f (alu_r32 rd rs bpf_neg) rd.lo v
  unfolding alu_r32 alu32_x run exec register_result immediate_result length
  neg32 e =
      rw (decode-rv_sub rd.lo 0 rd.lo dl z0 dl)
        (ground (arith, e, wf rd.lo, wf rs.lo), λ (n : ℕ) (a : n ≢ rd.lo). ground (arith, a), refl)

-- Where registers hold words, and the destination and the source are two pairs that the compiler can
-- use: if the interpreter computes `v` from the low words for any of the 13 operations of ALU_*_X, so
-- shifts by less than 32 and divisions by a number that is not 0 among them, the words of the switch
-- leave `v` in the low register of the destination, keep every other register, and end behind the last
-- word.
pub alu_r32-alu32 :
    (f : ℕ → ℕ) (rd rs : Pair) (op v : ℕ)
    → ((n : ℕ) → f n < 2 ^ 32)
    → IsPair rd
    → IsPair rs
    → one_of op all_operations ≡ true
    → alu32_x op (f rd.lo) (f rs.lo) ≡ some v
    → Leaves32 f (alu_r32 rd rs op) rd.lo v
alu_r32-alu32 f rd rs op v wf d s h = elim (one_of-all_operations op h) [
  | inl e ↦ rw e (mov32 f rd rs v wf d s)
  | inr (inl e) ↦ rw e (add32 f rd rs v wf d s)
  | inr (inr (inl e)) ↦ rw e (sub32 f rd rs v wf d s)
  | inr (inr (inr (inl e))) ↦ rw e (and32 f rd rs v wf d s)
  | inr (inr (inr (inr (inl e)))) ↦ rw e (or32 f rd rs v wf d s)
  | inr (inr (inr (inr (inr (inl e))))) ↦ rw e (xor32 f rd rs v wf d s)
  | inr (inr (inr (inr (inr (inr (inl e)))))) ↦ rw e (mul32 f rd rs v wf d s)
  | inr (inr (inr (inr (inr (inr (inr (inl e))))))) ↦ rw e (div32 f rd rs v wf d s)
  | inr (inr (inr (inr (inr (inr (inr (inr (inl e)))))))) ↦ rw e (mod32 f rd rs v wf d s)
  | inr (inr (inr (inr (inr (inr (inr (inr (inr (inl e))))))))) ↦ rw e (lsh32 f rd rs v wf d s)
  | inr (inr (inr (inr (inr (inr (inr (inr (inr (inr (inl e)))))))))) ↦
      rw e (rsh32 f rd rs v wf d s)
  | inr (inr (inr (inr (inr (inr (inr (inr (inr (inr (inr (inl e))))))))))) ↦
      rw e (arsh32 f rd rs v wf d s)
  | inr (inr (inr (inr (inr (inr (inr (inr (inr (inr (inr (inr e))))))))))) ↦
      rw e (neg32 f rd rs v wf d s)
]
