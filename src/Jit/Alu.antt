-- ===== src/Jit/Alu.antt =====
-- bpf/jit/bpf_jit_comp32.c: arithmetic instructions. The switch of each function is a function of its
-- own, on the registers that hold the operands.
use serval_sosp.Base.{ℕ, ◌^◌, Bool, ◌&&◌, List, [], ◌∷◌, ◌++◌, if◌then◌else◌, ltb, leb, ◌==◌}
use serval_sosp.Base.Word32.{sub32, neg32, u16}
use serval_sosp.Jit.Encode.{
  rv_addi, rv_add, rv_sub, rv_and, rv_or, rv_xor, rv_mul, rv_mulhu, rv_divu, rv_remu, rv_sll,
  rv_srl, rv_sra, rv_sltu, rv_slli, rv_srli, rv_srai, rv_blt, rv_jal,
}
use serval_sosp.Jit.Regs.{Pair, bpf2rv32, tmp_reg_1, tmp_reg_2, rv_reg_zero, rv_reg_t0, rv_reg_t1}
use serval_sosp.Jit.Emit.{
  emit_imm32, rv32_bpf_get_reg64, load_reg64, rv32_bpf_put_reg64, rv32_bpf_get_reg32, load_reg32,
  rv32_bpf_put_reg32,
}

-- bpf/bpf.h: the operations
abbrev pub bpf_add : ℕ
bpf_add = 0

abbrev pub bpf_sub : ℕ
bpf_sub = 0x10

abbrev pub bpf_mul : ℕ
bpf_mul = 0x20

abbrev pub bpf_div : ℕ
bpf_div = 0x30

abbrev pub bpf_or : ℕ
bpf_or = 0x40

abbrev pub bpf_and : ℕ
bpf_and = 0x50

abbrev pub bpf_lsh : ℕ
bpf_lsh = 0x60

abbrev pub bpf_rsh : ℕ
bpf_rsh = 0x70

abbrev pub bpf_neg : ℕ
bpf_neg = 0x80

abbrev pub bpf_mod : ℕ
bpf_mod = 0x90

abbrev pub bpf_xor : ℕ
bpf_xor = 0xa0

abbrev pub bpf_mov : ℕ
bpf_mov = 0xb0

abbrev pub bpf_arsh : ℕ
bpf_arsh = 0xc0

-- `imm >= 32` on an s32
abbrev pub from_32 : ℕ → Bool
from_32 imm = leb 32 imm && ltb imm (2 ^ 31)

-- The switch of emit_rv32_alu_i64
unfoldable pub alu_i64 : Pair → ℕ → ℕ → List ℕ
alu_i64 rd imm op =
    if op == bpf_mov
    then emit_imm32 rd imm
    else if op == bpf_lsh
    then (if from_32 imm
        then rv_slli rd.hi rd.lo (u16 (sub32 imm 32)) ∷ rv_addi rd.lo rv_reg_zero 0 ∷ []
        else if imm == 0
        then []
        else rv_srli rv_reg_t0 rd.lo (u16 (sub32 32 imm))
          ∷ rv_slli rd.hi rd.hi (u16 imm)
          ∷ rv_or rd.hi rv_reg_t0 rd.hi
          ∷ rv_slli rd.lo rd.lo (u16 imm)
          ∷ [])
    else if op == bpf_rsh
    then (if from_32 imm
        then rv_srli rd.lo rd.hi (u16 (sub32 imm 32)) ∷ rv_addi rd.hi rv_reg_zero 0 ∷ []
        else if imm == 0
        then []
        else rv_slli rv_reg_t0 rd.hi (u16 (sub32 32 imm))
          ∷ rv_srli rd.lo rd.lo (u16 imm)
          ∷ rv_or rd.lo rv_reg_t0 rd.lo
          ∷ rv_srli rd.hi rd.hi (u16 imm)
          ∷ [])
    else if op == bpf_arsh
    then (if from_32 imm
        then rv_srai rd.lo rd.hi (u16 (sub32 imm 32)) ∷ rv_srai rd.hi rd.hi 31 ∷ []
        else if imm == 0
        then []
        else rv_slli rv_reg_t0 rd.hi (u16 (sub32 32 imm))
          ∷ rv_srli rd.lo rd.lo (u16 imm)
          ∷ rv_or rd.lo rv_reg_t0 rd.lo
          ∷ rv_srai rd.hi rd.hi (u16 imm)
          ∷ [])
    else []

unfoldable pub emit_rv32_alu_i64 : Pair → ℕ → ℕ → List ℕ
emit_rv32_alu_i64 dst imm op =
    let tmp1 = bpf2rv32 tmp_reg_1 in
    let rd = rv32_bpf_get_reg64 dst tmp1 in
    load_reg64 dst tmp1 ++ (alu_i64 rd imm op ++ rv32_bpf_put_reg64 dst rd)

unfoldable pub emit_rv32_alu_i32 : Bool → Pair → ℕ → ℕ → List ℕ
emit_rv32_alu_i32 zext dst imm op =
    let tmp1 = bpf2rv32 tmp_reg_1 in
    let rd = rv32_bpf_get_reg32 dst tmp1 in
    load_reg32 dst tmp1
    ++ ((if op == bpf_mov then emit_imm32 rd imm else []) ++ rv32_bpf_put_reg32 zext dst rd)

-- The switch of emit_rv32_alu_r64
unfoldable pub alu_r64 : Pair → Pair → ℕ → List ℕ
alu_r64 rd rs op =
    if op == bpf_mov
    then rv_addi rd.hi rs.hi 0 ∷ rv_addi rd.lo rs.lo 0 ∷ []
    else if op == bpf_add
    then rv_addi rv_reg_t0 rd.lo 0
      ∷ rv_add rd.lo rd.lo rs.lo
      ∷ rv_sltu rv_reg_t0 rd.lo rv_reg_t0
      ∷ rv_add rd.hi rd.hi rs.hi
      ∷ rv_add rd.hi rd.hi rv_reg_t0
      ∷ []
    else if op == bpf_sub
    then rv_addi rv_reg_t0 rd.lo 0
      ∷ rv_sub rd.lo rd.lo rs.lo
      ∷ rv_sltu rv_reg_t0 rv_reg_t0 rd.lo
      ∷ rv_sub rd.hi rd.hi rs.hi
      ∷ rv_sub rd.hi rd.hi rv_reg_t0
      ∷ []
    else if op == bpf_and
    then rv_and rd.hi rd.hi rs.hi ∷ rv_and rd.lo rd.lo rs.lo ∷ []
    else if op == bpf_or
    then rv_or rd.hi rd.hi rs.hi ∷ rv_or rd.lo rd.lo rs.lo ∷ []
    else if op == bpf_xor
    then rv_xor rd.hi rd.hi rs.hi ∷ rv_xor rd.lo rd.lo rs.lo ∷ []
    else if op == bpf_mul
    then rv_mul rv_reg_t0 rs.hi rd.lo
      ∷ rv_mul rd.hi rd.hi rs.lo
      ∷ rv_mulhu rv_reg_t1 rd.lo rs.lo
      ∷ rv_add rd.hi rd.hi rv_reg_t0
      ∷ rv_mul rd.lo rd.lo rs.lo
      ∷ rv_add rd.hi rd.hi rv_reg_t1
      ∷ []
    else if op == bpf_lsh
    then rv_addi rv_reg_t0 rs.lo (u16 (neg32 32))
      ∷ rv_blt rv_reg_t0 rv_reg_zero 8
      ∷ rv_sll rd.hi rd.lo rv_reg_t0
      ∷ rv_addi rd.lo rv_reg_zero 0
      ∷ rv_jal rv_reg_zero 16
      ∷ rv_addi rv_reg_t1 rv_reg_zero 31
      ∷ rv_srli rv_reg_t0 rd.lo 1
      ∷ rv_sub rv_reg_t1 rv_reg_t1 rs.lo
      ∷ rv_srl rv_reg_t0 rv_reg_t0 rv_reg_t1
      ∷ rv_sll rd.hi rd.hi rs.lo
      ∷ rv_or rd.hi rv_reg_t0 rd.hi
      ∷ rv_sll rd.lo rd.lo rs.lo
      ∷ []
    else if op == bpf_rsh
    then rv_addi rv_reg_t0 rs.lo (u16 (neg32 32))
      ∷ rv_blt rv_reg_t0 rv_reg_zero 8
      ∷ rv_srl rd.lo rd.hi rv_reg_t0
      ∷ rv_addi rd.hi rv_reg_zero 0
      ∷ rv_jal rv_reg_zero 16
      ∷ rv_addi rv_reg_t1 rv_reg_zero 31
      ∷ rv_slli rv_reg_t0 rd.hi 1
      ∷ rv_sub rv_reg_t1 rv_reg_t1 rs.lo
      ∷ rv_sll rv_reg_t0 rv_reg_t0 rv_reg_t1
      ∷ rv_srl rd.lo rd.lo rs.lo
      ∷ rv_or rd.lo rv_reg_t0 rd.lo
      ∷ rv_srl rd.hi rd.hi rs.lo
      ∷ []
    else if op == bpf_arsh
    then rv_addi rv_reg_t0 rs.lo (u16 (neg32 32))
      ∷ rv_blt rv_reg_t0 rv_reg_zero 8
      ∷ rv_sra rd.lo rd.hi rv_reg_t0
      ∷ rv_srai rd.hi rd.hi 0x1f
      ∷ rv_jal rv_reg_zero 16
      ∷ rv_addi rv_reg_t1 rv_reg_zero 31
      ∷ rv_slli rv_reg_t0 rd.hi 1
      ∷ rv_sub rv_reg_t1 rv_reg_t1 rs.lo
      ∷ rv_sll rv_reg_t0 rv_reg_t0 rv_reg_t1
      ∷ rv_srl rd.lo rd.lo rs.lo
      ∷ rv_or rd.lo rv_reg_t0 rd.lo
      ∷ rv_sra rd.hi rd.hi rs.lo
      ∷ []
    else if op == bpf_neg
    then rv_sub rd.lo rv_reg_zero rd.lo
      ∷ rv_sltu rv_reg_t0 rv_reg_zero rd.lo
      ∷ rv_sub rd.hi rv_reg_zero rd.hi
      ∷ rv_sub rd.hi rd.hi rv_reg_t0
      ∷ []
    else []

unfoldable pub emit_rv32_alu_r64 : Pair → Pair → ℕ → List ℕ
emit_rv32_alu_r64 dst src op =
    let tmp1 = bpf2rv32 tmp_reg_1 in
    let tmp2 = bpf2rv32 tmp_reg_2 in
    let rd = rv32_bpf_get_reg64 dst tmp1 in
    let rs = rv32_bpf_get_reg64 src tmp2 in
    load_reg64 dst tmp1 ++ (load_reg64 src tmp2 ++ (alu_r64 rd rs op ++ rv32_bpf_put_reg64 dst rd))

-- The switch of emit_rv32_alu_r32
unfoldable pub alu_r32 : Pair → Pair → ℕ → List ℕ
alu_r32 rd rs op =
    if op == bpf_mov
    then rv_addi rd.lo rs.lo 0 ∷ []
    else if op == bpf_add
    then rv_add rd.lo rd.lo rs.lo ∷ []
    else if op == bpf_sub
    then rv_sub rd.lo rd.lo rs.lo ∷ []
    else if op == bpf_and
    then rv_and rd.lo rd.lo rs.lo ∷ []
    else if op == bpf_or
    then rv_or rd.lo rd.lo rs.lo ∷ []
    else if op == bpf_xor
    then rv_xor rd.lo rd.lo rs.lo ∷ []
    else if op == bpf_mul
    then rv_mul rd.lo rd.lo rs.lo ∷ []
    else if op == bpf_div
    then rv_divu rd.lo rd.lo rs.lo ∷ []
    else if op == bpf_mod
    then rv_remu rd.lo rd.lo rs.lo ∷ []
    else if op == bpf_lsh
    then rv_sll rd.lo rd.lo rs.lo ∷ []
    else if op == bpf_rsh
    then rv_srl rd.lo rd.lo rs.lo ∷ []
    else if op == bpf_arsh
    then rv_sra rd.lo rd.lo rs.lo ∷ []
    else if op == bpf_neg
    then rv_sub rd.lo rv_reg_zero rd.lo ∷ []
    else []

unfoldable pub emit_rv32_alu_r32 : Bool → Pair → Pair → ℕ → List ℕ
emit_rv32_alu_r32 zext dst src op =
    let tmp1 = bpf2rv32 tmp_reg_1 in
    let tmp2 = bpf2rv32 tmp_reg_2 in
    let rd = rv32_bpf_get_reg32 dst tmp1 in
    let rs = rv32_bpf_get_reg32 src tmp2 in
    load_reg32 dst tmp1
    ++ (load_reg32 src tmp2 ++ (alu_r32 rd rs op ++ rv32_bpf_put_reg32 zext dst rd))
