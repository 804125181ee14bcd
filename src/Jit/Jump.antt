-- ===== src/Jit/Jump.antt =====
-- bpf/jit/bpf_jit_comp32.c: conditional jumps. The switch of each function is a function of its own, on the
-- registers that hold the operands.
use serval_sosp.Base.{ℕ, ◌+◌, ◌-◌, ◌^◌, List, [], ◌∷◌, ◌++◌, if◌then◌else◌, leb, ◌==◌}
use serval_sosp.Base.Word32.{add32, neg32, u16, sar32}
use serval_sosp.Jit.Encode.{rv_and, rv_bne, rv_beq, rv_blt, rv_bge, rv_bltu, rv_bgeu}
use serval_sosp.Jit.Regs.{Pair, bpf2rv32, tmp_reg_1, tmp_reg_2, rv_reg_zero, rv_reg_t0}
use serval_sosp.Jit.Emit.{
  rv32_bpf_get_reg64, load_reg64, rv32_bpf_get_reg32, load_reg32, rv_offset, is_13b_int,
}

-- bpf/bpf.h: the conditions
abbrev pub bpf_jeq : ℕ
bpf_jeq = 0x10

abbrev pub bpf_jgt : ℕ
bpf_jgt = 0x20

abbrev pub bpf_jge : ℕ
bpf_jge = 0x30

abbrev pub bpf_jset : ℕ
bpf_jset = 0x40

abbrev pub bpf_jne : ℕ
bpf_jne = 0x50

abbrev pub bpf_jsgt : ℕ
bpf_jsgt = 0x60

abbrev pub bpf_jsge : ℕ
bpf_jsge = 0x70

abbrev pub bpf_jlt : ℕ
bpf_jlt = 0xa0

abbrev pub bpf_jle : ℕ
bpf_jle = 0xb0

abbrev pub bpf_jslt : ℕ
bpf_jslt = 0xc0

abbrev pub bpf_jsle : ℕ
bpf_jsle = 0xd0

-- `rvoff >> 1` as a u16
abbrev pub half : ℕ → ℕ
half rvoff = u16 (sar32 rvoff 1)

-- The words that a function has emitted when it returns, and its return value.
pub record Emitted : Type 0 where
  pub words : List ℕ
  pub ret : ℕ

abbrev pub emitted : List ℕ → Emitted
emitted ws = record { words = ws; ret = 0 }

-- A return of -1
abbrev pub failed : List ℕ → Emitted
failed ws = record { words = ws; ret = neg32 1 }

-- The conversion of an s16 to an int
abbrev pub int_of_s16 : ℕ → ℕ
int_of_s16 off = if leb (2 ^ 15) off then off + (2 ^ 32 - 2 ^ 16) else off

-- The offset that rv_offset_check stores; it fails if is_13b_int does.
unfoldable pub branch_offset : (ℕ → ℕ) → ℕ → ℕ → ℕ
branch_offset offset off insn = rv_offset offset (add32 insn (int_of_s16 off)) insn

-- The switch of emit_rv32_jump_r64
unfoldable pub jump_r64 : Pair → Pair → ℕ → ℕ → List ℕ
jump_r64 rs1 rs2 rvoff op =
    if op == bpf_jeq
    then rv_bne rs1.hi rs2.hi 4 ∷ rv_beq rs1.lo rs2.lo (half rvoff) ∷ []
    else if op == bpf_jne
    then rv_bne rs1.hi rs2.hi (half (add32 rvoff 4)) ∷ rv_bne rs1.lo rs2.lo (half rvoff) ∷ []
    else if op == bpf_jle
    then rv_bltu rs1.hi rs2.hi (half (add32 rvoff 8))
      ∷ rv_bltu rs2.hi rs1.hi 4
      ∷ rv_bgeu rs2.lo rs1.lo (half rvoff)
      ∷ []
    else if op == bpf_jlt
    then rv_bltu rs1.hi rs2.hi (half (add32 rvoff 8))
      ∷ rv_bltu rs2.hi rs1.hi 4
      ∷ rv_bltu rs1.lo rs2.lo (half rvoff)
      ∷ []
    else if op == bpf_jge
    then rv_bltu rs2.hi rs1.hi (half (add32 rvoff 8))
      ∷ rv_bltu rs1.hi rs2.hi 4
      ∷ rv_bgeu rs1.lo rs2.lo (half rvoff)
      ∷ []
    else if op == bpf_jgt
    then rv_bltu rs2.hi rs1.hi (half (add32 rvoff 8))
      ∷ rv_bltu rs1.hi rs2.hi 4
      ∷ rv_bltu rs2.lo rs1.lo (half rvoff)
      ∷ []
    else if op == bpf_jsle
    then rv_blt rs1.hi rs2.hi (half (add32 rvoff 8))
      ∷ rv_bne rs2.hi rs1.hi 4
      ∷ rv_bgeu rs2.lo rs1.lo (half rvoff)
      ∷ []
    else if op == bpf_jslt
    then rv_blt rs1.hi rs2.hi (half (add32 rvoff 8))
      ∷ rv_bne rs2.hi rs1.hi 4
      ∷ rv_bltu rs1.lo rs2.lo (half rvoff)
      ∷ []
    else if op == bpf_jsge
    then rv_blt rs2.hi rs1.hi (half (add32 rvoff 8))
      ∷ rv_bne rs1.hi rs2.hi 4
      ∷ rv_bgeu rs1.lo rs2.lo (half rvoff)
      ∷ []
    else if op == bpf_jsgt
    then rv_blt rs2.hi rs1.hi (half (add32 rvoff 8))
      ∷ rv_bne rs1.hi rs2.hi 4
      ∷ rv_bltu rs2.lo rs1.lo (half rvoff)
      ∷ []
    else if op == bpf_jset
    then rv_and rv_reg_t0 rs1.hi rs2.hi
      ∷ rv_bne rv_reg_t0 rv_reg_zero (half (add32 rvoff 8))
      ∷ rv_and rv_reg_t0 rs1.lo rs2.lo
      ∷ rv_bne rv_reg_t0 rv_reg_zero (half rvoff)
      ∷ []
    else []

-- The switch of emit_rv32_jump_r32
unfoldable pub jump_r32 : Pair → Pair → ℕ → ℕ → List ℕ
jump_r32 rs1 rs2 rvoff op =
    if op == bpf_jeq
    then rv_beq rs1.lo rs2.lo (half rvoff) ∷ []
    else if op == bpf_jne
    then rv_bne rs1.lo rs2.lo (half rvoff) ∷ []
    else if op == bpf_jle
    then rv_bgeu rs2.lo rs1.lo (half rvoff) ∷ []
    else if op == bpf_jlt
    then rv_bltu rs1.lo rs2.lo (half rvoff) ∷ []
    else if op == bpf_jge
    then rv_bgeu rs1.lo rs2.lo (half rvoff) ∷ []
    else if op == bpf_jgt
    then rv_bltu rs2.lo rs1.lo (half rvoff) ∷ []
    else if op == bpf_jsle
    then rv_bge rs2.lo rs1.lo (half rvoff) ∷ []
    else if op == bpf_jslt
    then rv_blt rs1.lo rs2.lo (half rvoff) ∷ []
    else if op == bpf_jsge
    then rv_bge rs1.lo rs2.lo (half rvoff) ∷ []
    else if op == bpf_jsgt
    then rv_blt rs2.lo rs1.lo (half rvoff) ∷ []
    else if op == bpf_jset
    then rv_and rv_reg_t0 rs1.lo rs2.lo ∷ rv_bne rv_reg_t0 rv_reg_zero (half rvoff) ∷ []
    else []

unfoldable pub emit_rv32_jump_r64 : (ℕ → ℕ) → Pair → Pair → ℕ → ℕ → ℕ → Emitted
emit_rv32_jump_r64 offset src1 src2 off insn op =
    let tmp1 = bpf2rv32 tmp_reg_1 in
    let tmp2 = bpf2rv32 tmp_reg_2 in
    let rs1 = rv32_bpf_get_reg64 src1 tmp1 in
    let rs2 = rv32_bpf_get_reg64 src2 tmp2 in
    let loads = load_reg64 src1 tmp1 ++ load_reg64 src2 tmp2 in
    let rvoff = branch_offset offset off insn in
    if is_13b_int rvoff then emitted (loads ++ jump_r64 rs1 rs2 rvoff op) else failed loads

unfoldable pub emit_rv32_jump_r32 : (ℕ → ℕ) → Pair → Pair → ℕ → ℕ → ℕ → Emitted
emit_rv32_jump_r32 offset src1 src2 off insn op =
    let tmp1 = bpf2rv32 tmp_reg_1 in
    let tmp2 = bpf2rv32 tmp_reg_2 in
    let rs1 = rv32_bpf_get_reg32 src1 tmp1 in
    let rs2 = rv32_bpf_get_reg32 src2 tmp2 in
    let loads = load_reg32 src1 tmp1 ++ load_reg32 src2 tmp2 in
    let rvoff = branch_offset offset off insn in
    if is_13b_int rvoff then emitted (loads ++ jump_r32 rs1 rs2 rvoff op) else failed loads
