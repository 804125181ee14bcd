-- ===== src/Jit/Memory.antt =====
-- bpf/jit/bpf_jit_comp32.c: loads, stores, byte swaps and zero extension.
use serval_sosp.Base.{ℕ, not, ◌&&◌, List, [], ◌∷◌, ◌++◌, if◌then◌else◌, ◌==◌}
use serval_sosp.Jit.Encode.{
  rv_addi, rv_add, rv_andi, rv_slli, rv_srli, rv_lbu, rv_lhu, rv_lw, rv_sb, rv_sh, rv_sw,
  rv_amoadd_w,
}
use serval_sosp.Jit.Regs.{Pair, bpf2rv32, tmp_reg_1, tmp_reg_2, rv_reg_zero, rv_reg_t0, rv_reg_t1}
use serval_sosp.Jit.Emit.{emit_imm, rv32_bpf_get_reg64, load_reg64, rv32_bpf_put_reg64}
use serval_sosp.Jit.Jump.{Emitted, emitted, failed, int_of_s16}

-- bpf/bpf.h: sizes and modes
abbrev pub bpf_w : ℕ
bpf_w = 0

abbrev pub bpf_h : ℕ
bpf_h = 8

abbrev pub bpf_b : ℕ
bpf_b = 0x10

abbrev pub bpf_dw : ℕ
bpf_dw = 0x18

abbrev pub bpf_mem : ℕ
bpf_mem = 0x60

abbrev pub bpf_xadd : ℕ
bpf_xadd = 0xc0

-- The switch of emit_rv32_load_r64
unfoldable pub load_r64 : Pair → ℕ → List ℕ
load_r64 rd size =
    if size == bpf_b
    then rv_lbu rd.lo 0 rv_reg_t0 ∷ rv_addi rd.hi rv_reg_zero 0 ∷ []
    else if size == bpf_h
    then rv_lhu rd.lo 0 rv_reg_t0 ∷ rv_addi rd.hi rv_reg_zero 0 ∷ []
    else if size == bpf_w
    then rv_lw rd.lo 0 rv_reg_t0 ∷ rv_addi rd.hi rv_reg_zero 0 ∷ []
    else if size == bpf_dw
    then rv_lw rd.lo 0 rv_reg_t0 ∷ rv_lw rd.hi 4 rv_reg_t0 ∷ []
    else []

unfoldable pub emit_rv32_load_r64 : Pair → Pair → ℕ → ℕ → Emitted
emit_rv32_load_r64 dst src off size =
    let tmp1 = bpf2rv32 tmp_reg_1 in
    let tmp2 = bpf2rv32 tmp_reg_2 in
    let rd = rv32_bpf_get_reg64 dst tmp1 in
    let rs = rv32_bpf_get_reg64 src tmp2 in
    emitted (
      load_reg64 dst tmp1
      ++ (load_reg64 src tmp2
          ++ (emit_imm rv_reg_t0 (int_of_s16 off)
              ++ (rv_add rv_reg_t0 rv_reg_t0 rs.lo ∷ []
                  ++ (load_r64 rd size ++ rv32_bpf_put_reg64 dst rd)))))

-- The switch of emit_rv32_store_r64
unfoldable pub store_r64 : Pair → ℕ → ℕ → List ℕ
store_r64 rs size mode =
    if size == bpf_b
    then rv_sb rv_reg_t0 0 rs.lo ∷ []
    else if size == bpf_h
    then rv_sh rv_reg_t0 0 rs.lo ∷ []
    else if size == bpf_w
    then (if mode == bpf_mem
        then rv_sw rv_reg_t0 0 rs.lo ∷ []
        else if mode == bpf_xadd
        then rv_amoadd_w rv_reg_zero rs.lo rv_reg_t0 0 0 ∷ []
        else [])
    else if size == bpf_dw
    then rv_sw rv_reg_t0 0 rs.lo ∷ rv_sw rv_reg_t0 4 rs.hi ∷ []
    else []

unfoldable pub emit_rv32_store_r64 : Pair → Pair → ℕ → ℕ → ℕ → Emitted
emit_rv32_store_r64 dst src off size mode =
    let tmp1 = bpf2rv32 tmp_reg_1 in
    let tmp2 = bpf2rv32 tmp_reg_2 in
    let rd = rv32_bpf_get_reg64 dst tmp1 in
    let rs = rv32_bpf_get_reg64 src tmp2 in
    let loads = load_reg64 dst tmp1 ++ load_reg64 src tmp2 in
    if mode == bpf_xadd && not (size == bpf_w)
    then failed loads
    else emitted (
        loads
        ++ (emit_imm rv_reg_t0 (int_of_s16 off)
            ++ (rv_add rv_reg_t0 rv_reg_t0 rd.lo ∷ [] ++ store_r64 rs size mode)))

-- The low byte of `rd` is added to T1.
abbrev pub take_byte : ℕ → List ℕ
take_byte rd = rv_andi rv_reg_t0 rd 0xff ∷ rv_add rv_reg_t1 rv_reg_t1 rv_reg_t0 ∷ []

abbrev pub next_byte : ℕ → List ℕ
next_byte rd = rv_slli rv_reg_t1 rv_reg_t1 8 ∷ rv_srli rd rd 8 ∷ []

unfoldable pub emit_rv32_rev16 : ℕ → List ℕ
emit_rv32_rev16 rd =
    rv_addi rv_reg_t1 rv_reg_zero 0
    ∷ (take_byte rd ++ (next_byte rd ++ (take_byte rd ++ rv_addi rd rv_reg_t1 0 ∷ [])))

unfoldable pub emit_rv32_rev32 : ℕ → List ℕ
emit_rv32_rev32 rd =
    rv_addi rv_reg_t1 rv_reg_zero 0
    ∷ (take_byte rd
        ++ (next_byte rd
            ++ (take_byte rd
                ++ (next_byte rd
                    ++ (take_byte rd
                        ++ (next_byte rd ++ (take_byte rd ++ rv_addi rd rv_reg_t1 0 ∷ [])))))))

unfoldable pub emit_rv32_zext64 : Pair → List ℕ
emit_rv32_zext64 dst =
    let tmp1 = bpf2rv32 tmp_reg_1 in
    let rd = rv32_bpf_get_reg64 dst tmp1 in
    load_reg64 dst tmp1 ++ (rv_addi rd.hi rv_reg_zero 0 ∷ [] ++ rv32_bpf_put_reg64 dst rd)
