-- ===== src/Jit/Straight.antt =====
-- bpf/jit/bpf_jit_comp32.c: the functions rv_* that build instructions between registers, read back.
use serval_sosp.Base.{bit_or, ℕ, ◌%◌, ◌^◌, ◌<◌, ◌≡◌, arith}
use serval_sosp.Jit.Encode.{
  rv_addi, rv_add, rv_sub, rv_and, rv_or, rv_xor, rv_mul, rv_mulhu, rv_divu, rv_remu, rv_sll,
  rv_srl, rv_sra, rv_sltu, rv_slli, rv_srli, rv_srai, rv_lui, rv_beq, rv_bne, rv_blt, rv_bge,
  rv_bltu, rv_bgeu, rv_jal, rv_r_insn, rv_i_insn, rv_sb_insn,
}
use serval_sosp.Jit.Rv32.{register_op, immediate_op, branch, jump, upper, decode}
use serval_sosp.Jit.Roundtrip.{decode-encode}

-- Between registers
module _ (rd rs1 rs2 : ℕ) (h : rd < 32) (h1 : rs1 < 32) (h2 : rs2 < 32) where
  decode-register :
      (f7 f3 : ℕ)
      → f7 < 128
      → f3 < 8
      → decode (rv_r_insn f7 rs2 rs1 f3 rd 0x33) ≡ register_op f7 f3 rd rs1 rs2
  decode-register f7 f3 a b = (decode-encode f7 rs2 rs1 f3 rd 0 a h2 h1 b h).0

  pub decode-rv_add : decode (rv_add rd rs1 rs2) ≡ register_op 0 0 rd rs1 rs2
  unfolding rv_add
  decode-rv_add = decode-register 0 0 (omega arith) (omega arith)

  pub decode-rv_sub : decode (rv_sub rd rs1 rs2) ≡ register_op 32 0 rd rs1 rs2
  unfolding rv_sub
  decode-rv_sub = decode-register 32 0 (omega arith) (omega arith)

  pub decode-rv_and : decode (rv_and rd rs1 rs2) ≡ register_op 0 7 rd rs1 rs2
  unfolding rv_and
  decode-rv_and = decode-register 0 7 (omega arith) (omega arith)

  pub decode-rv_or : decode (rv_or rd rs1 rs2) ≡ register_op 0 6 rd rs1 rs2
  unfolding rv_or
  decode-rv_or = decode-register 0 6 (omega arith) (omega arith)

  pub decode-rv_xor : decode (rv_xor rd rs1 rs2) ≡ register_op 0 4 rd rs1 rs2
  unfolding rv_xor
  decode-rv_xor = decode-register 0 4 (omega arith) (omega arith)

  pub decode-rv_mul : decode (rv_mul rd rs1 rs2) ≡ register_op 1 0 rd rs1 rs2
  unfolding rv_mul
  decode-rv_mul = decode-register 1 0 (omega arith) (omega arith)

  pub decode-rv_mulhu : decode (rv_mulhu rd rs1 rs2) ≡ register_op 1 3 rd rs1 rs2
  unfolding rv_mulhu
  decode-rv_mulhu = decode-register 1 3 (omega arith) (omega arith)

  pub decode-rv_divu : decode (rv_divu rd rs1 rs2) ≡ register_op 1 5 rd rs1 rs2
  unfolding rv_divu
  decode-rv_divu = decode-register 1 5 (omega arith) (omega arith)

  pub decode-rv_remu : decode (rv_remu rd rs1 rs2) ≡ register_op 1 7 rd rs1 rs2
  unfolding rv_remu
  decode-rv_remu = decode-register 1 7 (omega arith) (omega arith)

  pub decode-rv_sll : decode (rv_sll rd rs1 rs2) ≡ register_op 0 1 rd rs1 rs2
  unfolding rv_sll
  decode-rv_sll = decode-register 0 1 (omega arith) (omega arith)

  pub decode-rv_srl : decode (rv_srl rd rs1 rs2) ≡ register_op 0 5 rd rs1 rs2
  unfolding rv_srl
  decode-rv_srl = decode-register 0 5 (omega arith) (omega arith)

  pub decode-rv_sra : decode (rv_sra rd rs1 rs2) ≡ register_op 32 5 rd rs1 rs2
  unfolding rv_sra
  decode-rv_sra = decode-register 32 5 (omega arith) (omega arith)

  pub decode-rv_sltu : decode (rv_sltu rd rs1 rs2) ≡ register_op 0 3 rd rs1 rs2
  unfolding rv_sltu
  decode-rv_sltu = decode-register 0 3 (omega arith) (omega arith)

-- With an immediate
module _ (rd rs1 imm : ℕ) (h : rd < 32) (h1 : rs1 < 32) where
  decode-immediate :
      (f3 : ℕ)
      → f3 < 8
      → decode (rv_i_insn imm rs1 f3 rd 0x13) ≡ immediate_op (imm % 2 ^ 12) f3 rd rs1
  decode-immediate f3 b = (decode-encode 0 0 rs1 f3 rd imm (omega arith) (omega arith) h1 b h).1

  pub decode-rv_addi : decode (rv_addi rd rs1 imm) ≡ immediate_op (imm % 2 ^ 12) 0 rd rs1
  unfolding rv_addi
  decode-rv_addi = decode-immediate 0 (omega arith)

  pub decode-rv_slli : decode (rv_slli rd rs1 imm) ≡ immediate_op (imm % 2 ^ 12) 1 rd rs1
  unfolding rv_slli
  decode-rv_slli = decode-immediate 1 (omega arith)

  pub decode-rv_srli : decode (rv_srli rd rs1 imm) ≡ immediate_op (imm % 2 ^ 12) 5 rd rs1
  unfolding rv_srli
  decode-rv_srli = decode-immediate 5 (omega arith)

  pub decode-rv_srai :
      decode (rv_srai rd rs1 imm) ≡ immediate_op (bit_or 0x400 imm % 2 ^ 12) 5 rd rs1
  unfolding rv_srai
  decode-rv_srai =
      (decode-encode 0 0 rs1 5 rd (bit_or 0x400 imm) (omega arith) (omega arith) h1 (omega arith)
        h).1

-- Branches
module _ (rs1 rs2 imm : ℕ) (h1 : rs1 < 32) (h2 : rs2 < 32) where
  decode-branch :
      (f3 : ℕ) → f3 < 8 → decode (rv_sb_insn imm rs2 rs1 f3 0x63) ≡ branch f3 rs1 rs2 (imm % 2 ^ 12)
  decode-branch f3 b = (decode-encode 0 rs2 rs1 f3 0 imm (omega arith) h2 h1 b (omega arith)).3

  pub decode-rv_beq : decode (rv_beq rs1 rs2 imm) ≡ branch 0 rs1 rs2 (imm % 2 ^ 12)
  unfolding rv_beq
  decode-rv_beq = decode-branch 0 (omega arith)

  pub decode-rv_bne : decode (rv_bne rs1 rs2 imm) ≡ branch 1 rs1 rs2 (imm % 2 ^ 12)
  unfolding rv_bne
  decode-rv_bne = decode-branch 1 (omega arith)

  pub decode-rv_blt : decode (rv_blt rs1 rs2 imm) ≡ branch 4 rs1 rs2 (imm % 2 ^ 12)
  unfolding rv_blt
  decode-rv_blt = decode-branch 4 (omega arith)

  pub decode-rv_bge : decode (rv_bge rs1 rs2 imm) ≡ branch 5 rs1 rs2 (imm % 2 ^ 12)
  unfolding rv_bge
  decode-rv_bge = decode-branch 5 (omega arith)

  pub decode-rv_bltu : decode (rv_bltu rs1 rs2 imm) ≡ branch 6 rs1 rs2 (imm % 2 ^ 12)
  unfolding rv_bltu
  decode-rv_bltu = decode-branch 6 (omega arith)

  pub decode-rv_bgeu : decode (rv_bgeu rs1 rs2 imm) ≡ branch 7 rs1 rs2 (imm % 2 ^ 12)
  unfolding rv_bgeu
  decode-rv_bgeu = decode-branch 7 (omega arith)

pub decode-rv_lui : (rd imm : ℕ) → rd < 32 → decode (rv_lui rd imm) ≡ upper rd (imm % 2 ^ 20)
unfolding rv_lui
decode-rv_lui rd imm h =
    (decode-encode 0 0 0 0 rd imm (omega arith) (omega arith) (omega arith) (omega arith) h).4

pub decode-rv_jal : (rd imm : ℕ) → rd < 32 → decode (rv_jal rd imm) ≡ jump rd (imm % 2 ^ 20)
unfolding rv_jal
decode-rv_jal rd imm h =
    (decode-encode 0 0 0 0 rd imm (omega arith) (omega arith) (omega arith) (omega arith) h).5
