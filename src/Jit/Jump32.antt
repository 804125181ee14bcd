-- ===== src/Jit/Jump32.antt =====
-- bpf/jit/bpf_jit_comp32.c against bpf/kbpf.c: the words of emit_rv32_jump_r32's switch jump when the
-- interpreter does.
use serval_sosp.Base.{ℕ, ◌^◌, ◌<◌, ◌≡◌, ◌≢◌, inl, inr, true, arith}
use serval_sosp.Jit.Regs.{Pair}
use serval_sosp.Jit.Jump.{
  half, jump_r32, bpf_jeq, bpf_jne, bpf_jle, bpf_jlt, bpf_jge, bpf_jgt, bpf_jsle, bpf_jslt,
  bpf_jsge, bpf_jsgt, bpf_jset,
}
use serval_sosp.Jit.Code.{one_of, conditions}
use serval_sosp.Jit.Count.{length}
use serval_sosp.Jit.Kbpf.{jmp32_x}
use serval_sosp.Jit.Rv32.{exec, run, taken, register_result}
use serval_sosp.Jit.Straight.{
  decode-rv_and, decode-rv_beq, decode-rv_bne, decode-rv_blt, decode-rv_bge, decode-rv_bltu,
  decode-rv_bgeu,
}
use serval_sosp.Jit.Correct.{IsPair}
use serval_sosp.Jit.Jumps.{IsOffset, Jumps, read0}
use serval_sosp.Jit.Jump64.{one_of-conditions}

module _ (f : ℕ → ℕ) (rs1 rs2 : Pair) (v : ℕ) (wf : (n : ℕ) → f n < 2 ^ 32) (d : IsPair rs1)
    (s : IsPair rs2) (o : IsOffset v) where
  l1 : rs1.lo < 32
  l1 = d.lo_below

  l2 : rs2.lo < 32
  l2 = s.lo_below

  jeq32 : Jumps f (jump_r32 rs1 rs2 v bpf_jeq) v (jmp32_x bpf_jeq (f rs1.lo) (f rs2.lo))
  unfolding jump_r32 jmp32_x run exec taken length
  jeq32 =
      rw (decode-rv_beq rs1.lo rs2.lo (half v) l1 l2, read0 f rs1 rs2 v wf d s o)
        (ground arith, λ (r : ℕ) (a : r ≢ 5). ground (arith, a))

  jne32 : Jumps f (jump_r32 rs1 rs2 v bpf_jne) v (jmp32_x bpf_jne (f rs1.lo) (f rs2.lo))
  unfolding jump_r32 jmp32_x run exec taken length
  jne32 =
      rw (decode-rv_bne rs1.lo rs2.lo (half v) l1 l2, read0 f rs1 rs2 v wf d s o)
        (ground arith, λ (r : ℕ) (a : r ≢ 5). ground (arith, a))

  jle32 : Jumps f (jump_r32 rs1 rs2 v bpf_jle) v (jmp32_x bpf_jle (f rs1.lo) (f rs2.lo))
  unfolding jump_r32 jmp32_x run exec taken length
  jle32 =
      rw (decode-rv_bgeu rs2.lo rs1.lo (half v) l2 l1, read0 f rs1 rs2 v wf d s o)
        (ground arith, λ (r : ℕ) (a : r ≢ 5). ground (arith, a))

  jlt32 : Jumps f (jump_r32 rs1 rs2 v bpf_jlt) v (jmp32_x bpf_jlt (f rs1.lo) (f rs2.lo))
  unfolding jump_r32 jmp32_x run exec taken length
  jlt32 =
      rw (decode-rv_bltu rs1.lo rs2.lo (half v) l1 l2, read0 f rs1 rs2 v wf d s o)
        (ground arith, λ (r : ℕ) (a : r ≢ 5). ground (arith, a))

  jge32 : Jumps f (jump_r32 rs1 rs2 v bpf_jge) v (jmp32_x bpf_jge (f rs1.lo) (f rs2.lo))
  unfolding jump_r32 jmp32_x run exec taken length
  jge32 =
      rw (decode-rv_bgeu rs1.lo rs2.lo (half v) l1 l2, read0 f rs1 rs2 v wf d s o)
        (ground arith, λ (r : ℕ) (a : r ≢ 5). ground (arith, a))

  jgt32 : Jumps f (jump_r32 rs1 rs2 v bpf_jgt) v (jmp32_x bpf_jgt (f rs1.lo) (f rs2.lo))
  unfolding jump_r32 jmp32_x run exec taken length
  jgt32 =
      rw (decode-rv_bltu rs2.lo rs1.lo (half v) l2 l1, read0 f rs1 rs2 v wf d s o)
        (ground arith, λ (r : ℕ) (a : r ≢ 5). ground (arith, a))

  jsle32 : Jumps f (jump_r32 rs1 rs2 v bpf_jsle) v (jmp32_x bpf_jsle (f rs1.lo) (f rs2.lo))
  unfolding jump_r32 jmp32_x run exec taken length
  jsle32 =
      rw (decode-rv_bge rs2.lo rs1.lo (half v) l2 l1, read0 f rs1 rs2 v wf d s o)
        (ground arith, λ (r : ℕ) (a : r ≢ 5). ground (arith, a))

  jslt32 : Jumps f (jump_r32 rs1 rs2 v bpf_jslt) v (jmp32_x bpf_jslt (f rs1.lo) (f rs2.lo))
  unfolding jump_r32 jmp32_x run exec taken length
  jslt32 =
      rw (decode-rv_blt rs1.lo rs2.lo (half v) l1 l2, read0 f rs1 rs2 v wf d s o)
        (ground arith, λ (r : ℕ) (a : r ≢ 5). ground (arith, a))

  jsge32 : Jumps f (jump_r32 rs1 rs2 v bpf_jsge) v (jmp32_x bpf_jsge (f rs1.lo) (f rs2.lo))
  unfolding jump_r32 jmp32_x run exec taken length
  jsge32 =
      rw (decode-rv_bge rs1.lo rs2.lo (half v) l1 l2, read0 f rs1 rs2 v wf d s o)
        (ground arith, λ (r : ℕ) (a : r ≢ 5). ground (arith, a))

  jsgt32 : Jumps f (jump_r32 rs1 rs2 v bpf_jsgt) v (jmp32_x bpf_jsgt (f rs1.lo) (f rs2.lo))
  unfolding jump_r32 jmp32_x run exec taken length
  jsgt32 =
      rw (decode-rv_blt rs2.lo rs1.lo (half v) l2 l1, read0 f rs1 rs2 v wf d s o)
        (ground arith, λ (r : ℕ) (a : r ≢ 5). ground (arith, a))

  jset32 : Jumps f (jump_r32 rs1 rs2 v bpf_jset) v (jmp32_x bpf_jset (f rs1.lo) (f rs2.lo))
  unfolding jump_r32 jmp32_x run exec taken register_result length
  jset32 =
      rw
        (
          decode-rv_and 5 rs1.lo rs2.lo (omega arith) l1 l2,
          decode-rv_bne 5 0 (half v) (omega arith) (omega arith),
          read0 f rs1 rs2 v wf d s o,
        )
        (ground arith, λ (r : ℕ) (a : r ≢ 5). ground (arith, a))

-- For every condition that the compiler and the interpreter have, and an offset that leaves the words
-- of the jump: the words of the switch, on two pairs of registers that hold words, go on `v` bytes from
-- the last of them if the interpreter's comparison of the low words holds, else behind the last of
-- them, and change no register but T0.
pub jump_r32-jmp32 :
    (f : ℕ → ℕ) (rs1 rs2 : Pair) (v op : ℕ)
    → ((n : ℕ) → f n < 2 ^ 32)
    → IsPair rs1
    → IsPair rs2
    → IsOffset v
    → one_of op conditions ≡ true
    → Jumps f (jump_r32 rs1 rs2 v op) v (jmp32_x op (f rs1.lo) (f rs2.lo))
jump_r32-jmp32 f rs1 rs2 v op wf d s o h = elim (one_of-conditions op h) [
  | inl e ↦ rw e (jeq32 f rs1 rs2 v wf d s o)
  | inr (inl e) ↦ rw e (jne32 f rs1 rs2 v wf d s o)
  | inr (inr (inl e)) ↦ rw e (jle32 f rs1 rs2 v wf d s o)
  | inr (inr (inr (inl e))) ↦ rw e (jlt32 f rs1 rs2 v wf d s o)
  | inr (inr (inr (inr (inl e)))) ↦ rw e (jge32 f rs1 rs2 v wf d s o)
  | inr (inr (inr (inr (inr (inl e))))) ↦ rw e (jgt32 f rs1 rs2 v wf d s o)
  | inr (inr (inr (inr (inr (inr (inl e)))))) ↦ rw e (jsle32 f rs1 rs2 v wf d s o)
  | inr (inr (inr (inr (inr (inr (inr (inl e))))))) ↦ rw e (jslt32 f rs1 rs2 v wf d s o)
  | inr (inr (inr (inr (inr (inr (inr (inr (inl e)))))))) ↦ rw e (jsge32 f rs1 rs2 v wf d s o)
  | inr (inr (inr (inr (inr (inr (inr (inr (inr (inl e))))))))) ↦ rw e (jsgt32 f rs1 rs2 v wf d s o)
  | inr (inr (inr (inr (inr (inr (inr (inr (inr (inr e))))))))) ↦ rw e (jset32 f rs1 rs2 v wf d s o)
]
