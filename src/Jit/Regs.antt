-- ===== src/Jit/Regs.antt =====
-- bpf/jit/bpf_jit_comp32.c: the registers, the scratch slots and the table bpf2rv32. An s8 is its byte: a
-- scratch slot is a negative offset from the frame pointer.
use serval_sosp.Base.{ℕ, ◌+◌, ◌-◌, ◌*◌, Bool, if◌then◌else◌, leb, ◌==◌}

abbrev pub rv_reg_zero : ℕ
rv_reg_zero = 0

abbrev pub rv_reg_ra : ℕ
rv_reg_ra = 1

abbrev pub rv_reg_sp : ℕ
rv_reg_sp = 2

abbrev pub rv_reg_t0 : ℕ
rv_reg_t0 = 5

abbrev pub rv_reg_t1 : ℕ
rv_reg_t1 = 6

abbrev pub rv_reg_t2 : ℕ
rv_reg_t2 = 7

abbrev pub rv_reg_fp : ℕ
rv_reg_fp = 8

abbrev pub rv_reg_s1 : ℕ
rv_reg_s1 = 9

abbrev pub rv_reg_a0 : ℕ
rv_reg_a0 = 10

abbrev pub rv_reg_a1 : ℕ
rv_reg_a1 = 11

abbrev pub rv_reg_a2 : ℕ
rv_reg_a2 = 12

abbrev pub rv_reg_a3 : ℕ
rv_reg_a3 = 13

abbrev pub rv_reg_a4 : ℕ
rv_reg_a4 = 14

abbrev pub rv_reg_a5 : ℕ
rv_reg_a5 = 15

abbrev pub rv_reg_a6 : ℕ
rv_reg_a6 = 16

abbrev pub rv_reg_a7 : ℕ
rv_reg_a7 = 17

abbrev pub rv_reg_s2 : ℕ
rv_reg_s2 = 18

abbrev pub rv_reg_s3 : ℕ
rv_reg_s3 = 19

abbrev pub rv_reg_s4 : ℕ
rv_reg_s4 = 20

abbrev pub rv_reg_s5 : ℕ
rv_reg_s5 = 21

abbrev pub rv_reg_s6 : ℕ
rv_reg_s6 = 22

abbrev pub rv_reg_t3 : ℕ
rv_reg_t3 = 28

abbrev pub rv_reg_t4 : ℕ
rv_reg_t4 = 29

abbrev pub rv_reg_t5 : ℕ
rv_reg_t5 = 30

-- The enum of scratch slots; BPF_JIT_SCRATCH_REGS is their number.
abbrev pub bpf_jit_scratch_regs : ℕ
bpf_jit_scratch_regs = 12

-- `STACK_OFFSET(k)`, as the byte of an s8
abbrev pub stack_offset : ℕ → ℕ
stack_offset k = 256 - (4 + k * 4)

abbrev pub bpf_reg_fp : ℕ
bpf_reg_fp = 10

abbrev pub bpf_reg_ax : ℕ
bpf_reg_ax = 11

abbrev pub tmp_reg_1 : ℕ
tmp_reg_1 = 12

abbrev pub tmp_reg_2 : ℕ
tmp_reg_2 = 13

abbrev pub tcall_cnt : ℕ
tcall_cnt = 14

-- The two places of a BPF register: that of its high word, reg[0], and of its low word, reg[1].
pub record Pair : Type 0 where
  pub hi : ℕ
  pub lo : ℕ

abbrev pub pair : ℕ → ℕ → Pair
pair h l = record { hi = h; lo = l }

unfoldable pub bpf2rv32 : ℕ → Pair
bpf2rv32 r =
    if r == 0
    then pair rv_reg_s2 rv_reg_s1
    else if r == 1
    then pair rv_reg_a1 rv_reg_a0
    else if r == 2
    then pair rv_reg_a3 rv_reg_a2
    else if r == 3
    then pair rv_reg_a5 rv_reg_a4
    else if r == 4
    then pair rv_reg_a7 rv_reg_a6
    else if r == 5
    then pair rv_reg_s4 rv_reg_s3
    else if r == 6
    then pair (stack_offset 0) (stack_offset 1)
    else if r == 7
    then pair (stack_offset 2) (stack_offset 3)
    else if r == 8
    then pair (stack_offset 4) (stack_offset 5)
    else if r == 9
    then pair (stack_offset 6) (stack_offset 7)
    else if r == bpf_reg_fp
    then pair rv_reg_s6 rv_reg_s5
    else if r == tmp_reg_1
    then pair rv_reg_t3 rv_reg_t2
    else if r == tmp_reg_2
    then pair rv_reg_t5 rv_reg_t4
    else if r == tcall_cnt
    then pair (stack_offset 8) (stack_offset 9)
    else if r == bpf_reg_ax
    then pair (stack_offset 10) (stack_offset 11)
    else pair 0 0

-- `reg < 0`
unfoldable pub is_stacked : ℕ → Bool
is_stacked reg = leb 128 reg

-- The conversion of an s8 to a u16, as rv_lw and rv_sw take it
abbrev pub u16_of : ℕ → ℕ
u16_of reg = if leb 128 reg then reg + 0xff00 else reg
