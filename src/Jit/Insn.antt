-- ===== src/Jit/Insn.antt =====
-- bpf/jit/bpf_jit_comp32.c: emit_insn, the switch on the code of one BPF instruction. Its arguments
-- are the fields of ctx and of ctx->prog that it reads; `func_addr` stands for bpf_jit_get_func_addr.
use serval_sosp.Base.{ℕ, ◌+◌, ◌%◌, ◌^◌, Bool, ◌&&◌, List, [], ◌∷◌, ◌++◌, if◌then◌else◌, leb, ◌==◌}
use serval_sosp.Base.Word32.{add32, neg32, sar32, u16}
use serval_sosp.Jit.Encode.{rv_addi, rv_slli, rv_srli, rv_sw, rv_jal, rv_jalr}
use serval_sosp.Jit.Regs.{
  Pair, bpf2rv32, tmp_reg_1, tmp_reg_2, rv_reg_zero, rv_reg_ra, rv_reg_sp, rv_reg_t0, rv_reg_a0,
  rv_reg_a1,
}
use serval_sosp.Jit.Emit.{
  emit_imm, emit_imm32, emit_imm64, rv32_bpf_get_reg64, load_reg64, rv32_bpf_put_reg64, rv_offset,
  epilogue_offset, is_21b_int,
}
use serval_sosp.Jit.Alu.{
  bpf_neg, bpf_mov, emit_rv32_alu_i64, emit_rv32_alu_i32, emit_rv32_alu_r64, emit_rv32_alu_r32,
}
use serval_sosp.Jit.Jump.{
  Emitted, emitted, failed, int_of_s16, emit_rv32_jump_r64, emit_rv32_jump_r32,
}
use serval_sosp.Jit.Memory.{
  bpf_dw, bpf_xadd, emit_rv32_load_r64, emit_rv32_store_r64, emit_rv32_rev16, emit_rv32_rev32,
  emit_rv32_zext64,
}
use serval_sosp.Jit.Code.{
  bpf_ld, bpf_ldx, bpf_st, bpf_stx, bpf_alu, bpf_jmp, bpf_jmp32, bpf_alu64, bpf_k, bpf_x, bpf_end,
  bpf_ja, bpf_call, bpf_exit, bpf_class_of, bpf_op_of, bpf_src_of, bpf_size_of, bpf_mode_of, one_of,
  both_sources, divisions, conditions, alu64_r64, alu64_i64, alu_r32_codes, sizes, stores,
}

-- struct bpf_insn; `off` and `imm` are the words of an s16 and an s32.
pub record Insn : Type 0 where
  pub code : ℕ
  pub dst_reg : ℕ
  pub src_reg : ℕ
  pub off : ℕ
  pub imm : ℕ

-- What bpf_jit_get_func_addr gives: its return value, `*func_addr`, and `*func_addr_fixed`.
pub record FuncAddr : Type 0 where
  pub ret : ℕ
  pub addr : ℕ
  pub fixed : Bool

-- The part of ctx and of ctx->prog that emit_insn reads.
pub record Place : Type 0 where
  pub len : ℕ
  pub zext : Bool
  pub func_addr : Insn → Bool → FuncAddr
  pub offset : ℕ → ℕ
  pub ninsns : ℕ
  pub epilogue : ℕ

-- `if (test) { emit_imm32(tmp2, imm, ctx); src = tmp2; }`: the words, and the source afterwards
abbrev pub imm_words : Bool → ℕ → List ℕ
imm_words test imm = if test then emit_imm32 (bpf2rv32 tmp_reg_2) imm else []

abbrev pub imm_src : Bool → Pair → Pair
imm_src test src = if test then bpf2rv32 tmp_reg_2 else src

abbrev pub after : List ℕ → Emitted → Emitted
after ws e = record { words = ws ++ e.words; ret = e.ret }

-- `return -1` in place of any failure
unfoldable pub or_minus_one : Emitted → Emitted
or_minus_one e = if e.ret == 0 then e else failed e.words

-- BPF_ALU | BPF_END | BPF_FROM_LE
unfoldable pub emit_from_le : Pair → ℕ → Emitted
emit_from_le dst imm =
    let tmp1 = bpf2rv32 tmp_reg_1 in
    let rd = rv32_bpf_get_reg64 dst tmp1 in
    let done : List ℕ → Emitted =
      λ ws. emitted (load_reg64 dst tmp1 ++ (ws ++ rv32_bpf_put_reg64 dst rd)) in
    if imm == 16
    then done (rv_slli rd.lo rd.lo 16 ∷ rv_srli rd.lo rd.lo 16 ∷ rv_addi rd.hi rv_reg_zero 0 ∷ [])
    else if imm == 32
    then done (rv_addi rd.hi rv_reg_zero 0 ∷ [])
    else if imm == 64
    then done []
    else failed (load_reg64 dst tmp1)

-- BPF_ALU | BPF_END | BPF_FROM_BE
unfoldable pub emit_from_be : Pair → ℕ → Emitted
emit_from_be dst imm =
    let tmp1 = bpf2rv32 tmp_reg_1 in
    let rd = rv32_bpf_get_reg64 dst tmp1 in
    let done : List ℕ → Emitted =
      λ ws. emitted (load_reg64 dst tmp1 ++ (ws ++ rv32_bpf_put_reg64 dst rd)) in
    if imm == 16
    then done (emit_rv32_rev16 rd.lo ++ rv_addi rd.hi rv_reg_zero 0 ∷ [])
    else if imm == 32
    then done (emit_rv32_rev32 rd.lo ++ rv_addi rd.hi rv_reg_zero 0 ∷ [])
    else if imm == 64
    then done (
        rv_addi rv_reg_t0 rd.lo 0
        ∷ rv_addi rd.lo rd.hi 0
        ∷ rv_addi rd.hi rv_reg_t0 0
        ∷ (emit_rv32_rev32 rd.lo ++ emit_rv32_rev32 rd.hi))
    else failed (load_reg64 dst tmp1)

abbrev pub jal_half : ℕ → ℕ
jal_half rvoff = sar32 rvoff 1

-- BPF_JMP | BPF_JA
unfoldable pub emit_ja : Place → ℕ → ℕ → Emitted
emit_ja p off i =
    let rvoff = rv_offset p.offset (add32 i (int_of_s16 off)) i in
    if is_21b_int rvoff then emitted (rv_jal rv_reg_zero (jal_half rvoff) ∷ []) else failed []

-- BPF_JMP | BPF_CALL
unfoldable pub emit_call : Place → Insn → Bool → Emitted
emit_call p insn extra_pass =
    let r0 = bpf2rv32 0 in
    let r5 = bpf2rv32 5 in
    let f = p.func_addr insn extra_pass in
    if leb (2 ^ 31) f.ret
    then record { words = []; ret = f.ret }
    else if f.fixed
    then emitted (
        emit_imm rv_reg_t0 (f.addr % 2 ^ 32)
        ++ rv_addi rv_reg_sp rv_reg_sp (u16 (neg32 8))
          ∷ rv_sw rv_reg_sp 0 r5.lo
          ∷ rv_sw rv_reg_sp 4 r5.hi
          ∷ rv_jalr rv_reg_ra rv_reg_t0 0
          ∷ rv_addi r0.lo rv_reg_a0 0
          ∷ rv_addi r0.hi rv_reg_a1 0
          ∷ rv_addi rv_reg_sp rv_reg_sp 8
          ∷ [])
    else failed []

-- BPF_JMP | BPF_EXIT
unfoldable pub emit_exit : Place → ℕ → Emitted
emit_exit p i =
    let rvoff = epilogue_offset p.epilogue p.ninsns in
    if i + 1 == p.len
    then emitted []
    else if is_21b_int rvoff
    then emitted (rv_jal rv_reg_zero (jal_half rvoff) ∷ [])
    else failed []

-- BPF_LD | BPF_IMM | BPF_DW: `imm_hi` is insn[1].imm.
unfoldable pub emit_ld_imm_dw : Pair → ℕ → ℕ → Emitted
emit_ld_imm_dw dst imm_hi imm_lo =
    let tmp1 = bpf2rv32 tmp_reg_1 in
    let rd = rv32_bpf_get_reg64 dst tmp1 in
    record {
      words = load_reg64 dst tmp1 ++ (emit_imm64 rd imm_hi imm_lo ++ rv32_bpf_put_reg64 dst rd);
      ret = 1;
    }

-- `-EFAULT` and `-EINVAL`
abbrev pub not_supported : Emitted
not_supported = record { words = []; ret = neg32 14 }

abbrev pub unknown_opcode : Emitted
unknown_opcode = record { words = []; ret = neg32 22 }

unfoldable pub emit_insn : Place → Insn → ℕ → ℕ → Bool → Emitted
emit_insn p insn next_imm i extra_pass =
    let code = insn.code in
    let imm = insn.imm in
    let dst = bpf2rv32 insn.dst_reg in
    let src = bpf2rv32 insn.src_reg in
    let tmp2 = bpf2rv32 tmp_reg_2 in
    let k = bpf_src_of code == bpf_k in
    let st = bpf_class_of code == bpf_st in
    if code == bpf_alu64 + bpf_mov + bpf_x && imm == 1
    then emitted (emit_rv32_zext64 dst)
    else if one_of code alu64_r64
    then emitted (imm_words k imm ++ emit_rv32_alu_r64 dst (imm_src k src) (bpf_op_of code))
    else if code == bpf_alu64 + bpf_neg
    then emitted (emit_rv32_alu_r64 dst tmp2 (bpf_op_of code))
    else if one_of code (both_sources bpf_alu64 divisions)
    then not_supported
    else if one_of code alu64_i64
    then emitted (emit_rv32_alu_i64 dst imm (bpf_op_of code))
    else if code == bpf_alu + bpf_mov + bpf_x && imm == 1
    then emitted (emit_rv32_zext64 dst)
    else if one_of code alu_r32_codes
    then emitted (imm_words k imm ++ emit_rv32_alu_r32 p.zext dst (imm_src k src) (bpf_op_of code))
    else if code == bpf_alu + bpf_mov + bpf_k
    then emitted (emit_rv32_alu_i32 p.zext dst imm (bpf_op_of code))
    else if code == bpf_alu + bpf_neg
    then emitted (emit_rv32_alu_r32 p.zext dst tmp2 (bpf_op_of code))
    else if code == bpf_alu + bpf_end
    then emit_from_le dst imm
    else if code == bpf_alu + bpf_end + 8
    then emit_from_be dst imm
    else if code == bpf_jmp + bpf_ja
    then emit_ja p insn.off i
    else if code == bpf_jmp + bpf_call
    then emit_call p insn extra_pass
    else if one_of code (both_sources bpf_jmp conditions)
    then after (imm_words k imm)
        (or_minus_one (emit_rv32_jump_r64 p.offset dst (imm_src k src) insn.off i (bpf_op_of code)))
    else if one_of code (both_sources bpf_jmp32 conditions)
    then after (imm_words k imm)
        (or_minus_one (emit_rv32_jump_r32 p.offset dst (imm_src k src) insn.off i (bpf_op_of code)))
    else if code == bpf_jmp + bpf_exit
    then emit_exit p i
    else if code == bpf_ld + bpf_dw
    then emit_ld_imm_dw dst next_imm imm
    else if one_of code (sizes bpf_ldx)
    then or_minus_one (emit_rv32_load_r64 dst src insn.off (bpf_size_of code))
    else if one_of code stores
    then after (imm_words st imm) (
        or_minus_one
          (emit_rv32_store_r64 dst (imm_src st src) insn.off (bpf_size_of code) (bpf_mode_of code)))
    else if code == bpf_stx + bpf_xadd + bpf_dw
    then not_supported
    else unknown_opcode
