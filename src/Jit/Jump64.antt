-- ===== src/Jit/Jump64.antt =====
-- bpf/jit/bpf_jit_comp32.c against bpf/kbpf.c: the words of emit_rv32_jump_r64's switch jump when the
-- interpreter does.
use serval_sosp.Base.{
  ℕ, ◌%◌, ◌^◌, ◌<◌, ◌≡◌, ◌≢◌, refl, ◌∙◌, ◌⊎◌, inl, inr, true, [], ◌∷◌, if◌then◌else◌, arith,
  bit_and,
}
use serval_sosp.Base.Digits.{bit_and-shr, bit_and-low}
use serval_sosp.Base.Word32.{add32}
use serval_sosp.Jit.Regs.{Pair}
use serval_sosp.Jit.Encode.{rv_and, rv_bne}
use serval_sosp.Jit.Jump.{
  half, jump_r64, bpf_jeq, bpf_jne, bpf_jle, bpf_jlt, bpf_jge, bpf_jgt, bpf_jsle, bpf_jslt,
  bpf_jsge, bpf_jsgt, bpf_jset,
}
use serval_sosp.Jit.Code.{one_of, conditions}
use serval_sosp.Jit.Count.{length}
use serval_sosp.Jit.Kbpf.{jmp64_x}
use serval_sosp.Jit.Rv32.{rv, get, set, run, taken, register_result}
use serval_sosp.Jit.Straight.{decode-rv_and, decode-rv_bne}
use serval_sosp.Jit.Branches.{run-operation, run-branch}
use serval_sosp.Jit.Correct.{IsPair, value}
use serval_sosp.Jit.Alu64.{split}
use serval_sosp.Jit.Jumps.{
  IsOffset, Jumps, read0, read8, jeq64, jne64, jle64, jlt64, jge64, jgt64, jsle64, jslt64, jsge64,
  jsgt64,
}

pub one_of-conditions :
    (op : ℕ)
    → one_of op conditions ≡ true
    → (op ≡ bpf_jeq)
      ⊎ (op ≡ bpf_jne)
      ⊎ (op ≡ bpf_jle)
      ⊎ (op ≡ bpf_jlt)
      ⊎ (op ≡ bpf_jge)
      ⊎ (op ≡ bpf_jgt)
      ⊎ (op ≡ bpf_jsle)
      ⊎ (op ≡ bpf_jslt)
      ⊎ (op ≡ bpf_jsge)
      ⊎ (op ≡ bpf_jsgt)
      ⊎ (op ≡ bpf_jset)
unfolding one_of
one_of-conditions op h = ground arith

module _ (f : ℕ → ℕ) (rs1 rs2 : Pair) (v : ℕ) (wf : (n : ℕ) → f n < 2 ^ 32) (d : IsPair rs1)
    (s : IsPair rs2) (o : IsOffset v) where
  -- The registers after each of the two operations
  abbrev high : ℕ → ℕ
  high = set f 5 (bit_and (get f rs1.hi) (get f rs2.hi))

  abbrev low : ℕ → ℕ
  low = set high 5 (bit_and (get high rs1.lo) (get high rs2.lo))

  run-jset : run 0 (jump_r64 rs1 rs2 v bpf_jset) (rv f 0) ≡ (
      if taken 1 (high 5) 0
      then rv high (add32 4 (add32 v 8))
      else if taken 1 (low 5) 0
      then rv low (add32 12 v)
      else rv low 16)
  unfolding jump_r64 register_result length run
  run-jset =
      run-operation 0 (rv_and 5 rs1.hi rs2.hi)
        (rv_bne 5 0 (half (add32 v 8)) ∷ rv_and 5 rs1.lo rs2.lo ∷ rv_bne 5 0 (half v) ∷ []) f 0 7
        rs1.hi rs2.hi (decode-rv_and 5 rs1.hi rs2.hi (omega arith) d.hi_below s.hi_below)
      ∙ run-branch 4 (rv_bne 5 0 (half (add32 v 8)))
          (rv_and 5 rs1.lo rs2.lo ∷ rv_bne 5 0 (half v) ∷ []) high 1 5 0 (half (add32 v 8) % 2 ^ 12)
          (add32 v 8) _ (decode-rv_bne 5 0 (half (add32 v 8)) (omega arith) (omega arith))
          (read8 f rs1 rs2 v wf d s o) (omega arith) (ground arith)
          (run-operation 8 (rv_and 5 rs1.lo rs2.lo) (rv_bne 5 0 (half v) ∷ []) high 0 7 rs1.lo
              rs2.lo (decode-rv_and 5 rs1.lo rs2.lo (omega arith) d.lo_below s.lo_below)
            ∙ run-branch 12 (rv_bne 5 0 (half v)) [] low 1 5 0 (half v % 2 ^ 12) v (rv low 16)
                (decode-rv_bne 5 0 (half v) (omega arith) (omega arith))
                (read0 f rs1 rs2 v wf d s o) (omega arith) (ground arith) refl)

  jset64 : Jumps f (jump_r64 rs1 rs2 v bpf_jset) v (jmp64_x bpf_jset (value f rs1) (value f rs2))
  unfolding jump_r64 jmp64_x taken length
  jset64 = rw run-jset (
    ground (
      arith,
      o.reach,
      d.hi_above,
      d.lo_above,
      s.hi_above,
      s.lo_above,
      split bit_and (f rs1.hi) (f rs1.lo) (f rs2.hi) (f rs2.lo) (wf rs1.lo) (wf rs2.lo)
          (bit_and-shr 32 (value f rs1) (value f rs2)) (bit_and-low 32 (value f rs1) (value f rs2)),
    ),
    λ (r : ℕ) (a : r ≢ 5). ground (arith, a),
  )

-- For every condition that the compiler and the interpreter have, and an offset that leaves the words
-- of the jump and stays two words off the ends of 13 bits: the words of the switch, on two pairs of
-- registers that hold words, go on `v` bytes from the last of them if the interpreter's comparison of
-- the 64-bit values holds, else behind the last of them, and change no register but T0.
pub jump_r64-jmp64 :
    (f : ℕ → ℕ) (rs1 rs2 : Pair) (v op : ℕ)
    → ((n : ℕ) → f n < 2 ^ 32)
    → IsPair rs1
    → IsPair rs2
    → IsOffset v
    → one_of op conditions ≡ true
    → Jumps f (jump_r64 rs1 rs2 v op) v (jmp64_x op (value f rs1) (value f rs2))
jump_r64-jmp64 f rs1 rs2 v op wf d s o h = elim (one_of-conditions op h) [
  | inl e ↦ rw e (jeq64 f rs1 rs2 v wf d s o)
  | inr (inl e) ↦ rw e (jne64 f rs1 rs2 v wf d s o)
  | inr (inr (inl e)) ↦ rw e (jle64 f rs1 rs2 v wf d s o)
  | inr (inr (inr (inl e))) ↦ rw e (jlt64 f rs1 rs2 v wf d s o)
  | inr (inr (inr (inr (inl e)))) ↦ rw e (jge64 f rs1 rs2 v wf d s o)
  | inr (inr (inr (inr (inr (inl e))))) ↦ rw e (jgt64 f rs1 rs2 v wf d s o)
  | inr (inr (inr (inr (inr (inr (inl e)))))) ↦ rw e (jsle64 f rs1 rs2 v wf d s o)
  | inr (inr (inr (inr (inr (inr (inr (inl e))))))) ↦ rw e (jslt64 f rs1 rs2 v wf d s o)
  | inr (inr (inr (inr (inr (inr (inr (inr (inl e)))))))) ↦ rw e (jsge64 f rs1 rs2 v wf d s o)
  | inr (inr (inr (inr (inr (inr (inr (inr (inr (inl e))))))))) ↦ rw e (jsgt64 f rs1 rs2 v wf d s o)
  | inr (inr (inr (inr (inr (inr (inr (inr (inr (inr e))))))))) ↦ rw e (jset64 f rs1 rs2 v wf d s o)
]
