-- ===== src/Jit/Emit.antt =====
-- bpf/jit/bpf_jit_comp32.c: immediates, and the moves between scratch slots and registers. A
-- function that calls emit is the list of the words that it emits, in order.
use serval_sosp.Base.{ℕ, ◌^◌, Bool, not, List, [], ◌∷◌, ◌++◌, if◌then◌else◌, ltb, ◌==◌, bit_and}
use serval_sosp.Base.Word32.{add32, sub32, sar32, shl32}
use serval_sosp.Jit.Encode.{rv_addi, rv_lui, rv_srai, rv_lw, rv_sw}
use serval_sosp.Jit.Regs.{Pair, rv_reg_zero, rv_reg_fp, is_stacked, u16_of}

unfoldable pub emit_imm : ℕ → ℕ → List ℕ
emit_imm rd imm =
    let upper = sar32 (add32 imm (2 ^ 11)) 12 in
    let lower = bit_and imm 0xfff in
    if not (upper == 0)
    then rv_lui rd upper ∷ rv_addi rd rd lower ∷ []
    else rv_addi rd rv_reg_zero lower ∷ []

unfoldable pub emit_imm32 : Pair → ℕ → List ℕ
emit_imm32 rd imm = emit_imm rd.lo imm ++ rv_addi rd.hi rd.lo 0 ∷ rv_srai rd.hi rd.hi 31 ∷ []

unfoldable pub emit_imm64 : Pair → ℕ → ℕ → List ℕ
emit_imm64 rd imm_hi imm_lo = emit_imm rd.lo imm_lo ++ emit_imm rd.hi imm_hi

-- The pair that rv32_bpf_get_reg64 returns.
unfoldable pub rv32_bpf_get_reg64 : Pair → Pair → Pair
rv32_bpf_get_reg64 reg tmp = if is_stacked reg.hi then tmp else reg

-- The words that it emits.
unfoldable pub load_reg64 : Pair → Pair → List ℕ
load_reg64 reg tmp =
    if is_stacked reg.hi
    then rv_lw tmp.hi (u16_of reg.hi) rv_reg_fp ∷ rv_lw tmp.lo (u16_of reg.lo) rv_reg_fp ∷ []
    else []

unfoldable pub rv32_bpf_put_reg64 : Pair → Pair → List ℕ
rv32_bpf_put_reg64 reg src =
    if is_stacked reg.hi
    then rv_sw rv_reg_fp (u16_of reg.hi) src.hi ∷ rv_sw rv_reg_fp (u16_of reg.lo) src.lo ∷ []
    else []

-- The pair that rv32_bpf_get_reg32 returns, and the words that it emits.
unfoldable pub rv32_bpf_get_reg32 : Pair → Pair → Pair
rv32_bpf_get_reg32 reg tmp = if is_stacked reg.lo then tmp else reg

unfoldable pub load_reg32 : Pair → Pair → List ℕ
load_reg32 reg tmp = if is_stacked reg.lo then rv_lw tmp.lo (u16_of reg.lo) rv_reg_fp ∷ [] else []

-- `zext` is prog->aux->verifier_zext.
unfoldable pub rv32_bpf_put_reg32 : Bool → Pair → Pair → List ℕ
rv32_bpf_put_reg32 zext reg src =
    if is_stacked reg.lo
    then rv_sw rv_reg_fp (u16_of reg.lo) src.lo
      ∷ (if not zext then rv_sw rv_reg_fp (u16_of reg.hi) rv_reg_zero ∷ [] else [])
    else if not zext
    then rv_addi reg.hi rv_reg_zero 0 ∷ []
    else []

-- `-(1 << 12) <= val && val < (1 << 12)` and its like for 20 bits, on the words of an s32
unfoldable pub is_13b_int : ℕ → Bool
is_13b_int val = ltb (add32 val (2 ^ 12)) (2 ^ 13)

unfoldable pub is_21b_int : ℕ → Bool
is_21b_int val = ltb (add32 val (2 ^ 20)) (2 ^ 21)

-- rv_offset: `offset` is ctx->offset, whose index may be -1 as a word.
unfoldable pub rv_offset : (ℕ → ℕ) → ℕ → ℕ → ℕ
rv_offset offset bpf_to bpf_from =
    let from = sub32 (offset bpf_from) 1 in shl32 (sub32 (offset bpf_to) from) 2

-- epilogue_offset of ctx->epilogue_offset and ctx->ninsns
unfoldable pub epilogue_offset : ℕ → ℕ → ℕ
epilogue_offset to from = shl32 (sub32 to from) 2
