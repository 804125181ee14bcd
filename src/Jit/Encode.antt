-- ===== src/Jit/Encode.antt =====
-- bpf/jit/bpf_jit_comp32.c: the functions rv_* that build the words of RV32 instructions.
use serval_sosp.Base.{ℕ, ◌*◌, ◌/◌, ◌^◌, bit_and, bit_or}
use serval_sosp.Base.Word32.{shl32, u8}

unfoldable pub rv_r_insn : ℕ → ℕ → ℕ → ℕ → ℕ → ℕ → ℕ
rv_r_insn funct7 rs2 rs1 funct3 rd opcode =
    bit_or
      (bit_or
        (bit_or (bit_or (bit_or (shl32 funct7 25) (shl32 rs2 20)) (shl32 rs1 15)) (shl32 funct3 12))
        (shl32 rd 7))
      opcode

unfoldable pub rv_i_insn : ℕ → ℕ → ℕ → ℕ → ℕ → ℕ
rv_i_insn imm11_0 rs1 funct3 rd opcode =
    bit_or
      (bit_or (bit_or (bit_or (shl32 imm11_0 20) (shl32 rs1 15)) (shl32 funct3 12)) (shl32 rd 7))
      opcode

unfoldable pub rv_s_insn : ℕ → ℕ → ℕ → ℕ → ℕ → ℕ
rv_s_insn imm11_0 rs2 rs1 funct3 opcode =
    let imm11_5 = u8 (imm11_0 / 2 ^ 5) in
    let imm4_0 = bit_and imm11_0 0x1f in
    bit_or
      (bit_or
        (bit_or (bit_or (bit_or (shl32 imm11_5 25) (shl32 rs2 20)) (shl32 rs1 15))
          (shl32 funct3 12))
        (shl32 imm4_0 7))
      opcode

unfoldable pub rv_sb_insn : ℕ → ℕ → ℕ → ℕ → ℕ → ℕ
rv_sb_insn imm12_1 rs2 rs1 funct3 opcode =
    let imm12 = bit_or (bit_and imm12_1 0x800 / 2 ^ 5) (bit_and imm12_1 0x3f0 / 2 ^ 4) in
    let imm4_1 = bit_or (bit_and imm12_1 0xf * 2) (bit_and imm12_1 0x400 / 2 ^ 10) in
    bit_or
      (bit_or
        (bit_or (bit_or (bit_or (shl32 imm12 25) (shl32 rs2 20)) (shl32 rs1 15)) (shl32 funct3 12))
        (shl32 imm4_1 7))
      opcode

unfoldable pub rv_u_insn : ℕ → ℕ → ℕ → ℕ
rv_u_insn imm31_12 rd opcode = bit_or (bit_or (shl32 imm31_12 12) (shl32 rd 7)) opcode

unfoldable pub rv_uj_insn : ℕ → ℕ → ℕ → ℕ
rv_uj_insn imm20_1 rd opcode =
    let imm =
      bit_or
        (bit_or (bit_or (bit_and imm20_1 0x8_0000) (bit_and imm20_1 0x3ff * 2 ^ 9))
          (bit_and imm20_1 0x400 / 2 ^ 2))
        (bit_and imm20_1 0x7_f800 / 2 ^ 11) in
    bit_or (bit_or (shl32 imm 12) (shl32 rd 7)) opcode

unfoldable pub rv_amo_insn : ℕ → ℕ → ℕ → ℕ → ℕ → ℕ → ℕ → ℕ → ℕ
rv_amo_insn funct5 aq rl rs2 rs1 funct3 rd opcode =
    rv_r_insn (u8 (bit_or (bit_or (funct5 * 4) (aq * 2)) rl)) rs2 rs1 funct3 rd opcode

unfoldable pub rv_addi : ℕ → ℕ → ℕ → ℕ
rv_addi rd rs1 imm11_0 = rv_i_insn imm11_0 rs1 0 rd 0x13

unfoldable pub rv_add : ℕ → ℕ → ℕ → ℕ
rv_add rd rs1 rs2 = rv_r_insn 0 rs2 rs1 0 rd 0x33

unfoldable pub rv_sub : ℕ → ℕ → ℕ → ℕ
rv_sub rd rs1 rs2 = rv_r_insn 0x20 rs2 rs1 0 rd 0x33

unfoldable pub rv_and : ℕ → ℕ → ℕ → ℕ
rv_and rd rs1 rs2 = rv_r_insn 0 rs2 rs1 7 rd 0x33

unfoldable pub rv_or : ℕ → ℕ → ℕ → ℕ
rv_or rd rs1 rs2 = rv_r_insn 0 rs2 rs1 6 rd 0x33

unfoldable pub rv_xor : ℕ → ℕ → ℕ → ℕ
rv_xor rd rs1 rs2 = rv_r_insn 0 rs2 rs1 4 rd 0x33

unfoldable pub rv_mul : ℕ → ℕ → ℕ → ℕ
rv_mul rd rs1 rs2 = rv_r_insn 1 rs2 rs1 0 rd 0x33

unfoldable pub rv_mulhu : ℕ → ℕ → ℕ → ℕ
rv_mulhu rd rs1 rs2 = rv_r_insn 1 rs2 rs1 3 rd 0x33

unfoldable pub rv_divu : ℕ → ℕ → ℕ → ℕ
rv_divu rd rs1 rs2 = rv_r_insn 1 rs2 rs1 5 rd 0x33

unfoldable pub rv_remu : ℕ → ℕ → ℕ → ℕ
rv_remu rd rs1 rs2 = rv_r_insn 1 rs2 rs1 7 rd 0x33

unfoldable pub rv_sll : ℕ → ℕ → ℕ → ℕ
rv_sll rd rs1 rs2 = rv_r_insn 0 rs2 rs1 1 rd 0x33

unfoldable pub rv_srl : ℕ → ℕ → ℕ → ℕ
rv_srl rd rs1 rs2 = rv_r_insn 0 rs2 rs1 5 rd 0x33

unfoldable pub rv_sra : ℕ → ℕ → ℕ → ℕ
rv_sra rd rs1 rs2 = rv_r_insn 0x20 rs2 rs1 5 rd 0x33

unfoldable pub rv_sltu : ℕ → ℕ → ℕ → ℕ
rv_sltu rd rs1 rs2 = rv_r_insn 0 rs2 rs1 3 rd 0x33

unfoldable pub rv_lui : ℕ → ℕ → ℕ
rv_lui rd imm31_12 = rv_u_insn imm31_12 rd 0x37

unfoldable pub rv_slli : ℕ → ℕ → ℕ → ℕ
rv_slli rd rs1 imm11_0 = rv_i_insn imm11_0 rs1 1 rd 0x13

unfoldable pub rv_srli : ℕ → ℕ → ℕ → ℕ
rv_srli rd rs1 imm11_0 = rv_i_insn imm11_0 rs1 5 rd 0x13

unfoldable pub rv_srai : ℕ → ℕ → ℕ → ℕ
rv_srai rd rs1 imm11_0 = rv_i_insn (bit_or 0x400 imm11_0) rs1 5 rd 0x13

unfoldable pub rv_andi : ℕ → ℕ → ℕ → ℕ
rv_andi rd rs1 imm11_0 = rv_i_insn imm11_0 rs1 7 rd 0x13

unfoldable pub rv_jal : ℕ → ℕ → ℕ
rv_jal rd imm20_1 = rv_uj_insn imm20_1 rd 0x6f

unfoldable pub rv_jalr : ℕ → ℕ → ℕ → ℕ
rv_jalr rd rs1 imm11_0 = rv_i_insn imm11_0 rs1 0 rd 0x67

unfoldable pub rv_beq : ℕ → ℕ → ℕ → ℕ
rv_beq rs1 rs2 imm12_1 = rv_sb_insn imm12_1 rs2 rs1 0 0x63

unfoldable pub rv_bltu : ℕ → ℕ → ℕ → ℕ
rv_bltu rs1 rs2 imm12_1 = rv_sb_insn imm12_1 rs2 rs1 6 0x63

unfoldable pub rv_bgeu : ℕ → ℕ → ℕ → ℕ
rv_bgeu rs1 rs2 imm12_1 = rv_sb_insn imm12_1 rs2 rs1 7 0x63

unfoldable pub rv_bne : ℕ → ℕ → ℕ → ℕ
rv_bne rs1 rs2 imm12_1 = rv_sb_insn imm12_1 rs2 rs1 1 0x63

unfoldable pub rv_blt : ℕ → ℕ → ℕ → ℕ
rv_blt rs1 rs2 imm12_1 = rv_sb_insn imm12_1 rs2 rs1 4 0x63

unfoldable pub rv_bge : ℕ → ℕ → ℕ → ℕ
rv_bge rs1 rs2 imm12_1 = rv_sb_insn imm12_1 rs2 rs1 5 0x63

unfoldable pub rv_sb : ℕ → ℕ → ℕ → ℕ
rv_sb rs1 imm11_0 rs2 = rv_s_insn imm11_0 rs2 rs1 0 0x23

unfoldable pub rv_sh : ℕ → ℕ → ℕ → ℕ
rv_sh rs1 imm11_0 rs2 = rv_s_insn imm11_0 rs2 rs1 1 0x23

unfoldable pub rv_sw : ℕ → ℕ → ℕ → ℕ
rv_sw rs1 imm11_0 rs2 = rv_s_insn imm11_0 rs2 rs1 2 0x23

unfoldable pub rv_lbu : ℕ → ℕ → ℕ → ℕ
rv_lbu rd imm11_0 rs1 = rv_i_insn imm11_0 rs1 4 rd 0x03

unfoldable pub rv_lhu : ℕ → ℕ → ℕ → ℕ
rv_lhu rd imm11_0 rs1 = rv_i_insn imm11_0 rs1 5 rd 0x03

unfoldable pub rv_lw : ℕ → ℕ → ℕ → ℕ
rv_lw rd imm11_0 rs1 = rv_i_insn imm11_0 rs1 2 rd 0x03

unfoldable pub rv_amoadd_w : ℕ → ℕ → ℕ → ℕ → ℕ → ℕ
rv_amoadd_w rd rs2 rs1 aq rl = rv_amo_insn 0 aq rl rs2 rs1 2 rd 0x2f
