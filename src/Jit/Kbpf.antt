-- ===== src/Jit/Kbpf.antt =====
-- bpf/kbpf.c: what ___bpf_prog_run computes for arithmetic instructions and conditional jumps, on the
-- values of the two operands.
use serval_sosp.Base.{
  ℕ, ◌+◌, ◌-◌, ◌*◌, ◌/◌, ◌%◌, ◌^◌, Bool, false, not, Option, none, some, if◌then◌else◌, ltb, leb,
  ◌==◌, bit_and, bit_or, bit_xor,
}
use serval_sosp.Base.Word32.{slt32, sar32}
use serval_sosp.Jit.Alu.{
  bpf_add, bpf_sub, bpf_mul, bpf_div, bpf_or, bpf_and, bpf_lsh, bpf_rsh, bpf_neg, bpf_mod, bpf_xor,
  bpf_mov, bpf_arsh,
}
use serval_sosp.Jit.Jump.{
  bpf_jeq, bpf_jgt, bpf_jge, bpf_jset, bpf_jne, bpf_jsgt, bpf_jsge, bpf_jlt, bpf_jle, bpf_jslt,
  bpf_jsle,
}

-- `x >> k` on int64_t
abbrev pub sar64 : ℕ → ℕ → ℕ
sar64 x k = if leb (2 ^ 63) x then 2 ^ 64 - 1 - (2 ^ 64 - 1 - x) / 2 ^ k else x / 2 ^ k

-- `a < b` on int64_t
abbrev pub slt64 : ℕ → ℕ → Bool
slt64 a b = ltb ((a + 2 ^ 63) % 2 ^ 64) ((b + 2 ^ 63) % 2 ^ 64)

-- The labels ALU64_*_X; C leaves a shift by 64 or more undefined, a division by 0 traps.
unfoldable pub alu64_x : ℕ → ℕ → ℕ → Option ℕ
alu64_x op dst src =
    if op == bpf_add
    then some ((dst + src) % 2 ^ 64)
    else if op == bpf_sub
    then some ((dst + (2 ^ 64 - src)) % 2 ^ 64)
    else if op == bpf_and
    then some (bit_and dst src)
    else if op == bpf_or
    then some (bit_or dst src)
    else if op == bpf_lsh
    then (if ltb src 64 then some (dst * 2 ^ src % 2 ^ 64) else none)
    else if op == bpf_rsh
    then (if ltb src 64 then some (dst / 2 ^ src) else none)
    else if op == bpf_xor
    then some (bit_xor dst src)
    else if op == bpf_mul
    then some (dst * src % 2 ^ 64)
    else if op == bpf_neg
    then some ((2 ^ 64 - dst) % 2 ^ 64)
    else if op == bpf_mov
    then some src
    else if op == bpf_arsh
    then (if ltb src 64 then some (sar64 dst src) else none)
    else if op == bpf_mod
    then (if src == 0 then none else some (dst % src))
    else if op == bpf_div
    then (if src == 0 then none else some (dst / src))
    else none

-- The labels ALU_*_X, on the operands cut to 32 bits. ALU_ARSH_X shifts by all of SRC, which C leaves
-- undefined from 32 on, so that it is the low word where it is defined.
unfoldable pub alu32_x : ℕ → ℕ → ℕ → Option ℕ
alu32_x op dst src =
    if op == bpf_add
    then some ((dst + src) % 2 ^ 32)
    else if op == bpf_sub
    then some ((dst + (2 ^ 32 - src)) % 2 ^ 32)
    else if op == bpf_and
    then some (bit_and dst src)
    else if op == bpf_or
    then some (bit_or dst src)
    else if op == bpf_lsh
    then (if ltb src 32 then some (dst * 2 ^ src % 2 ^ 32) else none)
    else if op == bpf_rsh
    then (if ltb src 32 then some (dst / 2 ^ src) else none)
    else if op == bpf_xor
    then some (bit_xor dst src)
    else if op == bpf_mul
    then some (dst * src % 2 ^ 32)
    else if op == bpf_neg
    then some ((2 ^ 32 - dst) % 2 ^ 32)
    else if op == bpf_mov
    then some src
    else if op == bpf_arsh
    then (if ltb src 32 then some (sar32 dst src) else none)
    else if op == bpf_mod
    then (if src == 0 then none else some (dst % src))
    else if op == bpf_div
    then (if src == 0 then none else some (dst / src))
    else none

-- The labels JMP_*_X
unfoldable pub jmp64_x : ℕ → ℕ → ℕ → Bool
jmp64_x op dst src =
    if op == bpf_jeq
    then dst == src
    else if op == bpf_jne
    then not (dst == src)
    else if op == bpf_jgt
    then ltb src dst
    else if op == bpf_jlt
    then ltb dst src
    else if op == bpf_jge
    then not (ltb dst src)
    else if op == bpf_jle
    then not (ltb src dst)
    else if op == bpf_jset
    then not (bit_and dst src == 0)
    else if op == bpf_jsgt
    then slt64 src dst
    else if op == bpf_jslt
    then slt64 dst src
    else if op == bpf_jsge
    then not (slt64 dst src)
    else if op == bpf_jsle
    then not (slt64 src dst)
    else false

-- The labels JMP32_*_X, on the operands cut to 32 bits
unfoldable pub jmp32_x : ℕ → ℕ → ℕ → Bool
jmp32_x op dst src =
    if op == bpf_jeq
    then dst == src
    else if op == bpf_jne
    then not (dst == src)
    else if op == bpf_jgt
    then ltb src dst
    else if op == bpf_jlt
    then ltb dst src
    else if op == bpf_jge
    then not (ltb dst src)
    else if op == bpf_jle
    then not (ltb src dst)
    else if op == bpf_jset
    then not (bit_and dst src == 0)
    else if op == bpf_jsgt
    then slt32 src dst
    else if op == bpf_jslt
    then slt32 dst src
    else if op == bpf_jsge
    then not (slt32 dst src)
    else if op == bpf_jsle
    then not (slt32 src dst)
    else false
