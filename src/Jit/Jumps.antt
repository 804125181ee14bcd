-- ===== src/Jit/Jumps.antt =====
-- bpf/jit/bpf_jit_comp32.c against bpf/kbpf.c: 64-bit conditional jumps on register pairs.
use serval_sosp.Base.{
  ℕ, ◌-◌, ◌*◌, ◌%◌, ◌^◌, ◌≤◌, ◌<◌, ◌≡◌, ◌≢◌, refl, ◌⊎◌, Bool, List, if◌then◌else◌, arith,
}
use serval_sosp.Base.Word32.{add32}
use serval_sosp.Jit.Regs.{Pair}
use serval_sosp.Jit.Jump.{
  half, jump_r64, bpf_jeq, bpf_jgt, bpf_jge, bpf_jne, bpf_jsgt, bpf_jsge, bpf_jlt, bpf_jle,
  bpf_jslt, bpf_jsle,
}
use serval_sosp.Jit.Count.{length}
use serval_sosp.Jit.Kbpf.{jmp64_x}
use serval_sosp.Jit.Rv32.{rv, signed, run, taken}
use serval_sosp.Jit.Straight.{
  decode-rv_beq, decode-rv_bne, decode-rv_blt, decode-rv_bltu, decode-rv_bgeu,
}
use serval_sosp.Jit.Encode.{rv_beq, rv_bne, rv_blt, rv_bltu, rv_bgeu}
use serval_sosp.Jit.Branches.{run-two, run-three}
use serval_sosp.Jit.Correct.{IsPair, value}

-- The offset of a branch that reaches out of the words of the jump: forward, or at least three words
-- back, and so far from the ends of 13 bits that two words more stay inside.
pub record IsOffset (v : ℕ) : Type 0 where
  pub words : v % 4 ≡ 0
  pub reach : ((4 ≤ v) × (v < 4088)) ⊎ ((2 ^ 32 - 4096 ≤ v) × (v ≤ 2 ^ 32 - 12))

-- A branch of the manual reads back the offset that is given to it.
half-signed :
    (v : ℕ)
    → v % 4 ≡ 0
    → (v < 4096) ⊎ ((2 ^ 32 - 4096 ≤ v) × (v < 2 ^ 32))
    → signed 13 (2 * (half v % 2 ^ 12)) ≡ v
half-signed v e h = ground arith

-- Words that go on behind the last of them, or from there by `v` when the condition `c` holds, and
-- change no register but T0.
abbrev pub Jumps : (ℕ → ℕ) → List ℕ → ℕ → Bool → Type 0
Jumps f ws v c =
    ((run 0 ws (rv f 0)).pc ≡ (if c then add32 (4 * length ws - 4) v else 4 * length ws))
    × ((r : ℕ) → r ≢ 5 → (run 0 ws (rv f 0)).regs r ≡ f r)

t0 : 5 < 32
t0 = omega arith

z0 : 0 < 32
z0 = omega arith

module _ (f : ℕ → ℕ) (rs1 rs2 : Pair) (v : ℕ) (wf : (n : ℕ) → f n < 2 ^ 32) (d : IsPair rs1)
    (s : IsPair rs2) (o : IsOffset v) where
  h1 : rs1.hi < 32
  h1 = d.hi_below

  l1 : rs1.lo < 32
  l1 = d.lo_below

  h2 : rs2.hi < 32
  h2 = s.hi_below

  l2 : rs2.lo < 32
  l2 = s.lo_below

  pub read0 : signed 13 (2 * (half v % 2 ^ 12)) ≡ v
  read0 = half-signed v o.words (ground (arith, o.reach))

  read4 : signed 13 (2 * (half (add32 v 4) % 2 ^ 12)) ≡ add32 v 4
  read4 = half-signed (add32 v 4) (ground (arith, o.reach, o.words)) (ground (arith, o.reach))

  pub read8 : signed 13 (2 * (half (add32 v 8) % 2 ^ 12)) ≡ add32 v 8
  read8 = half-signed (add32 v 8) (ground (arith, o.reach, o.words)) (ground (arith, o.reach))

  pub jeq64 : Jumps f (jump_r64 rs1 rs2 v bpf_jeq) v (jmp64_x bpf_jeq (value f rs1) (value f rs2))
  unfolding jump_r64 jmp64_x taken length
  jeq64 =
      rw
        (run-two (rv_bne rs1.hi rs2.hi 4) (rv_beq rs1.lo rs2.lo (half v)) f 1 rs1.hi rs2.hi
          (4 % 2 ^ 12) 8 0 rs1.lo rs2.lo (half v % 2 ^ 12) v (decode-rv_bne rs1.hi rs2.hi 4 h1 h2)
          (decode-rv_beq rs1.lo rs2.lo (half v) l1 l2) refl read0 (ground arith))
        (
          ground (arith, wf rs1.hi, wf rs1.lo, wf rs2.hi, wf rs2.lo),
          λ (r : ℕ) (a : r ≢ 5). ground arith,
        )

  pub jne64 : Jumps f (jump_r64 rs1 rs2 v bpf_jne) v (jmp64_x bpf_jne (value f rs1) (value f rs2))
  unfolding jump_r64 jmp64_x taken length
  jne64 =
      rw
        (run-two (rv_bne rs1.hi rs2.hi (half (add32 v 4))) (rv_bne rs1.lo rs2.lo (half v)) f 1
          rs1.hi rs2.hi ((half (add32 v 4)) % 2 ^ 12) (add32 v 4) 1 rs1.lo rs2.lo (half v % 2 ^ 12)
          v (decode-rv_bne rs1.hi rs2.hi (half (add32 v 4)) h1 h2)
          (decode-rv_bne rs1.lo rs2.lo (half v) l1 l2) read4 read0 (ground arith))
        (
          ground (arith, wf rs1.hi, wf rs1.lo, wf rs2.hi, wf rs2.lo),
          λ (r : ℕ) (a : r ≢ 5). ground arith,
        )

  pub jle64 : Jumps f (jump_r64 rs1 rs2 v bpf_jle) v (jmp64_x bpf_jle (value f rs1) (value f rs2))
  unfolding jump_r64 jmp64_x taken length
  jle64 =
      rw
        (run-three (rv_bltu rs1.hi rs2.hi (half (add32 v 8))) (rv_bltu rs2.hi rs1.hi 4)
          (rv_bgeu rs2.lo rs1.lo (half v)) f 6 rs1.hi rs2.hi (half (add32 v 8) % 2 ^ 12) (add32 v 8)
          6 rs2.hi rs1.hi 7 rs2.lo rs1.lo (half v % 2 ^ 12) v
          (decode-rv_bltu rs1.hi rs2.hi (half (add32 v 8)) h1 h2)
          (decode-rv_bltu rs2.hi rs1.hi 4 h2 h1) (decode-rv_bgeu rs2.lo rs1.lo (half v) l2 l1) read8
          read0 (ground arith))
        (
          ground (arith, wf rs1.hi, wf rs1.lo, wf rs2.hi, wf rs2.lo),
          λ (r : ℕ) (a : r ≢ 5). ground arith,
        )

  pub jlt64 : Jumps f (jump_r64 rs1 rs2 v bpf_jlt) v (jmp64_x bpf_jlt (value f rs1) (value f rs2))
  unfolding jump_r64 jmp64_x taken length
  jlt64 =
      rw
        (run-three (rv_bltu rs1.hi rs2.hi (half (add32 v 8))) (rv_bltu rs2.hi rs1.hi 4)
          (rv_bltu rs1.lo rs2.lo (half v)) f 6 rs1.hi rs2.hi (half (add32 v 8) % 2 ^ 12) (add32 v 8)
          6 rs2.hi rs1.hi 6 rs1.lo rs2.lo (half v % 2 ^ 12) v
          (decode-rv_bltu rs1.hi rs2.hi (half (add32 v 8)) h1 h2)
          (decode-rv_bltu rs2.hi rs1.hi 4 h2 h1) (decode-rv_bltu rs1.lo rs2.lo (half v) l1 l2) read8
          read0 (ground arith))
        (
          ground (arith, wf rs1.hi, wf rs1.lo, wf rs2.hi, wf rs2.lo),
          λ (r : ℕ) (a : r ≢ 5). ground arith,
        )

  pub jge64 : Jumps f (jump_r64 rs1 rs2 v bpf_jge) v (jmp64_x bpf_jge (value f rs1) (value f rs2))
  unfolding jump_r64 jmp64_x taken length
  jge64 =
      rw
        (run-three (rv_bltu rs2.hi rs1.hi (half (add32 v 8))) (rv_bltu rs1.hi rs2.hi 4)
          (rv_bgeu rs1.lo rs2.lo (half v)) f 6 rs2.hi rs1.hi (half (add32 v 8) % 2 ^ 12) (add32 v 8)
          6 rs1.hi rs2.hi 7 rs1.lo rs2.lo (half v % 2 ^ 12) v
          (decode-rv_bltu rs2.hi rs1.hi (half (add32 v 8)) h2 h1)
          (decode-rv_bltu rs1.hi rs2.hi 4 h1 h2) (decode-rv_bgeu rs1.lo rs2.lo (half v) l1 l2) read8
          read0 (ground arith))
        (
          ground (arith, wf rs1.hi, wf rs1.lo, wf rs2.hi, wf rs2.lo),
          λ (r : ℕ) (a : r ≢ 5). ground arith,
        )

  pub jgt64 : Jumps f (jump_r64 rs1 rs2 v bpf_jgt) v (jmp64_x bpf_jgt (value f rs1) (value f rs2))
  unfolding jump_r64 jmp64_x taken length
  jgt64 =
      rw
        (run-three (rv_bltu rs2.hi rs1.hi (half (add32 v 8))) (rv_bltu rs1.hi rs2.hi 4)
          (rv_bltu rs2.lo rs1.lo (half v)) f 6 rs2.hi rs1.hi (half (add32 v 8) % 2 ^ 12) (add32 v 8)
          6 rs1.hi rs2.hi 6 rs2.lo rs1.lo (half v % 2 ^ 12) v
          (decode-rv_bltu rs2.hi rs1.hi (half (add32 v 8)) h2 h1)
          (decode-rv_bltu rs1.hi rs2.hi 4 h1 h2) (decode-rv_bltu rs2.lo rs1.lo (half v) l2 l1) read8
          read0 (ground arith))
        (
          ground (arith, wf rs1.hi, wf rs1.lo, wf rs2.hi, wf rs2.lo),
          λ (r : ℕ) (a : r ≢ 5). ground arith,
        )

  pub jsle64 :
      Jumps f (jump_r64 rs1 rs2 v bpf_jsle) v (jmp64_x bpf_jsle (value f rs1) (value f rs2))
  unfolding jump_r64 jmp64_x taken length
  jsle64 =
      rw
        (run-three (rv_blt rs1.hi rs2.hi (half (add32 v 8))) (rv_bne rs2.hi rs1.hi 4)
          (rv_bgeu rs2.lo rs1.lo (half v)) f 4 rs1.hi rs2.hi (half (add32 v 8) % 2 ^ 12) (add32 v 8)
          1 rs2.hi rs1.hi 7 rs2.lo rs1.lo (half v % 2 ^ 12) v
          (decode-rv_blt rs1.hi rs2.hi (half (add32 v 8)) h1 h2)
          (decode-rv_bne rs2.hi rs1.hi 4 h2 h1) (decode-rv_bgeu rs2.lo rs1.lo (half v) l2 l1) read8
          read0 (ground arith))
        (
          ground (arith, wf rs1.hi, wf rs1.lo, wf rs2.hi, wf rs2.lo),
          λ (r : ℕ) (a : r ≢ 5). ground arith,
        )

  pub jslt64 :
      Jumps f (jump_r64 rs1 rs2 v bpf_jslt) v (jmp64_x bpf_jslt (value f rs1) (value f rs2))
  unfolding jump_r64 jmp64_x taken length
  jslt64 =
      rw
        (run-three (rv_blt rs1.hi rs2.hi (half (add32 v 8))) (rv_bne rs2.hi rs1.hi 4)
          (rv_bltu rs1.lo rs2.lo (half v)) f 4 rs1.hi rs2.hi (half (add32 v 8) % 2 ^ 12) (add32 v 8)
          1 rs2.hi rs1.hi 6 rs1.lo rs2.lo (half v % 2 ^ 12) v
          (decode-rv_blt rs1.hi rs2.hi (half (add32 v 8)) h1 h2)
          (decode-rv_bne rs2.hi rs1.hi 4 h2 h1) (decode-rv_bltu rs1.lo rs2.lo (half v) l1 l2) read8
          read0 (ground arith))
        (
          ground (arith, wf rs1.hi, wf rs1.lo, wf rs2.hi, wf rs2.lo),
          λ (r : ℕ) (a : r ≢ 5). ground arith,
        )

  pub jsge64 :
      Jumps f (jump_r64 rs1 rs2 v bpf_jsge) v (jmp64_x bpf_jsge (value f rs1) (value f rs2))
  unfolding jump_r64 jmp64_x taken length
  jsge64 =
      rw
        (run-three (rv_blt rs2.hi rs1.hi (half (add32 v 8))) (rv_bne rs1.hi rs2.hi 4)
          (rv_bgeu rs1.lo rs2.lo (half v)) f 4 rs2.hi rs1.hi (half (add32 v 8) % 2 ^ 12) (add32 v 8)
          1 rs1.hi rs2.hi 7 rs1.lo rs2.lo (half v % 2 ^ 12) v
          (decode-rv_blt rs2.hi rs1.hi (half (add32 v 8)) h2 h1)
          (decode-rv_bne rs1.hi rs2.hi 4 h1 h2) (decode-rv_bgeu rs1.lo rs2.lo (half v) l1 l2) read8
          read0 (ground arith))
        (
          ground (arith, wf rs1.hi, wf rs1.lo, wf rs2.hi, wf rs2.lo),
          λ (r : ℕ) (a : r ≢ 5). ground arith,
        )

  pub jsgt64 :
      Jumps f (jump_r64 rs1 rs2 v bpf_jsgt) v (jmp64_x bpf_jsgt (value f rs1) (value f rs2))
  unfolding jump_r64 jmp64_x taken length
  jsgt64 =
      rw
        (run-three (rv_blt rs2.hi rs1.hi (half (add32 v 8))) (rv_bne rs1.hi rs2.hi 4)
          (rv_bltu rs2.lo rs1.lo (half v)) f 4 rs2.hi rs1.hi (half (add32 v 8) % 2 ^ 12) (add32 v 8)
          1 rs1.hi rs2.hi 6 rs2.lo rs1.lo (half v % 2 ^ 12) v
          (decode-rv_blt rs2.hi rs1.hi (half (add32 v 8)) h2 h1)
          (decode-rv_bne rs1.hi rs2.hi 4 h1 h2) (decode-rv_bltu rs2.lo rs1.lo (half v) l2 l1) read8
          read0 (ground arith))
        (
          ground (arith, wf rs1.hi, wf rs1.lo, wf rs2.hi, wf rs2.lo),
          λ (r : ℕ) (a : r ≢ 5). ground arith,
        )
