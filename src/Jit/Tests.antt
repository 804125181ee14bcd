-- ===== src/Jit/Tests.antt =====
-- Runs of the model of bpf/jit/bpf_jit_comp32.c, and its theorems at concrete inputs.
use serval_sosp.Base.{
  ◌∷◌, inl, ◌-◌, ℕ, ◌+◌, ◌*◌, ◌%◌, ◌^◌, ◌≤◌, ◌<◌, ◌≡◌, refl, inr, Bool, true, false, some,
  if◌then◌else◌, ◌==◌, arith,
}
use serval_sosp.Jit.Regs.{pair, bpf2rv32, is_stacked}
use serval_sosp.Jit.Insn.{Insn, Place, FuncAddr, emit_insn, or_minus_one, emit_exit}
use serval_sosp.Jit.Compile.{Prog, build_from, build_body, emit_at, set_offset, emit_all, emit}
use serval_sosp.Jit.Passes.{Kernel, zero_ctx, first_pass}
use serval_sosp.Jit.Emit.{
  is_13b_int, rv_offset, load_reg64, emit_imm32, emit_imm, rv32_bpf_put_reg64,
}
use serval_sosp.Jit.Correct.{IsPair}
use serval_sosp.Jit.Jumps.{IsOffset, Jumps}
use serval_sosp.Jit.Image.{sized, filled, second_pass-bounds}
use serval_sosp.Jit.Fuel.{build_from-fuel}
use serval_sosp.Jit.Roundtrip.{decode-encode}
use serval_sosp.Jit.Pairs.{in_register}
use serval_sosp.Jit.Whole.{between, insn_x, emit_insn-alu64}
use serval_sosp.Jit.Alu32.{alu_r32-alu32}
use serval_sosp.Jit.Jump64.{jump_r64-jmp64}
use serval_sosp.Jit.Jump32.{jump_r32-jmp32}
use serval_sosp.Jit.Correct.{Leaves, value}
use serval_sosp.Jit.Alu32.{Leaves32, all_operations}
use serval_sosp.Jit.Alu.{bpf_neg, bpf_add, bpf_lsh, alu_r32, emit_rv32_alu_i64, alu_i64}
use serval_sosp.Jit.Jump.{bpf_jslt, bpf_jle, jump_r64, jump_r32, emit_rv32_jump_r64, branch_offset}
use serval_sosp.Jit.Kbpf.{alu64_x, alu32_x, jmp64_x, jmp32_x}
use serval_sosp.Jit.Code.{one_of, conditions}
use serval_sosp.Jit.Encode.{rv_r_insn, rv_i_insn, rv_s_insn, rv_sb_insn, rv_u_insn, rv_uj_insn}
use serval_sosp.Jit.Rv32.{register_op, immediate_op, branch, jump, upper, store_op, decode}

-- Registers that hold their own numbers, and 5 for each number from 32 on
abbrev registers : ℕ → ℕ
registers n = n % 32

registers_small : (n : ℕ) → registers n < 2 ^ 32
registers_small n = omega arith

pair_r1 : IsPair (pair 11 10)
pair_r1 = record {
  hi_above = omega arith;
  hi_below = omega arith;
  lo_above = omega arith;
  lo_below = omega arith;
  distinct = λ e. absurd (omega arith);
}

pair_r2 : IsPair (pair 13 12)
pair_r2 = record {
  hi_above = omega arith;
  hi_below = omega arith;
  lo_above = omega arith;
  lo_below = omega arith;
  distinct = λ e. absurd (omega arith);
}

-- An offset 16 bytes back
back : IsOffset (2 ^ 32 - 16)
back = record { words = refl; reach = inr (omega arith, omega arith) }

abbrev first_place : Place
first_place = record {
  len = 3;
  zext = true;
  func_addr = λ insn extra. record { ret = 0; addr = 0; fixed = true };
  offset = λ n. 0;
  ninsns = 0;
  epilogue = 0;
}

known_add :
    (one_of bpf_add (bpf_neg ∷ between) ≡ true)
    × (alu64_x bpf_add (value registers (bpf2rv32 1)) (value registers (bpf2rv32 2))
        ≡ some (24 * 2 ^ 32 + 22))
unfolding one_of alu64_x bpf2rv32
known_add = (refl, refl)

known_registers : (in_register 1 ≡ true) × (in_register 2 ≡ true)
unfolding in_register
known_registers = (refl, refl)

-- `r1 += r2` on 11 * 2 ^ 32 + 10 and 13 * 2 ^ 32 + 12
emit_insn-alu64_example :
    ((emit_insn first_place (insn_x bpf_add 1 2 0) 0 0 false).ret ≡ 0)
    × Leaves registers
        (emit_insn first_place (insn_x bpf_add 1 2 0) 0 0 false).words
        (bpf2rv32 1)
        (24 * 2 ^ 32 + 22)
emit_insn-alu64_example =
    emit_insn-alu64 first_place 1 2 0 0 0 false bpf_add (24 * 2 ^ 32 + 22) registers registers_small
      known_registers.0 known_registers.1 (inl known_add.0) known_add.1

known_lsh : (one_of bpf_lsh all_operations ≡ true) × (alu32_x bpf_lsh 10 12 ≡ some 40960)
unfolding one_of alu32_x
known_lsh = (refl, refl)

-- `w1 <<= w2` on 10 and 12
alu_r32-alu32_example : Leaves32 registers (alu_r32 (pair 11 10) (pair 13 12) bpf_lsh) 10 40960
alu_r32-alu32_example =
    alu_r32-alu32 registers (pair 11 10) (pair 13 12) bpf_lsh 40960 registers_small pair_r1 pair_r2
      known_lsh.0 known_lsh.1

known_conditions : (one_of bpf_jslt conditions ≡ true) × (one_of bpf_jle conditions ≡ true)
unfolding one_of
known_conditions = (refl, refl)

jump_r64-jmp64_example :
    Jumps registers
      (jump_r64 (pair 11 10) (pair 13 12) (2 ^ 32 - 16) bpf_jslt)
      (2 ^ 32 - 16)
      (jmp64_x bpf_jslt (11 * 2 ^ 32 + 10) (13 * 2 ^ 32 + 12))
jump_r64-jmp64_example =
    jump_r64-jmp64 registers (pair 11 10) (pair 13 12) (2 ^ 32 - 16) bpf_jslt registers_small
      pair_r1 pair_r2 back known_conditions.0

jump_r32-jmp32_example :
    Jumps registers
      (jump_r32 (pair 11 10) (pair 13 12) (2 ^ 32 - 16) bpf_jle)
      (2 ^ 32 - 16)
      (jmp32_x bpf_jle 10 12)
jump_r32-jmp32_example =
    jump_r32-jmp32 registers (pair 11 10) (pair 13 12) (2 ^ 32 - 16) bpf_jle registers_small pair_r1
      pair_r2 back known_conditions.1

-- The fields of `lw`-like words at negative immediates
decode-encode_example :
    (decode (rv_r_insn 0x20 7 6 5 28 0x33) ≡ register_op 0x20 5 28 6 7)
    × (decode (rv_i_insn 0xffe0 6 5 28 0x13) ≡ immediate_op 0xfe0 5 28 6)
    × (decode (rv_s_insn 0xffe0 7 6 5 0x23) ≡ store_op 5 6 7 0xfe0)
    × (decode (rv_sb_insn 0xffe0 7 6 5 0x63) ≡ branch 5 6 7 0xfe0)
    × (decode (rv_u_insn 0xffe0 28 0x37) ≡ upper 28 0xffe0)
    × (decode (rv_uj_insn 0xffe0 28 0x6f) ≡ jump 28 0xffe0)
decode-encode_example =
    decode-encode 0x20 7 6 5 28 0xffe0 (omega arith) (omega arith) (omega arith) (omega arith)
      (omega arith)

-- `r6 = 7; if r6 < r1 goto -1; exit`
abbrev insns : ℕ → Insn
insns i =
    if i == 0
    then record { code = 0xb7; dst_reg = 6; src_reg = 0; off = 0; imm = 7 }
    else if i == 1
    then record { code = 0xad; dst_reg = 6; src_reg = 1; off = 0xffff; imm = 0 }
    else record { code = 0x95; dst_reg = 0; src_reg = 0; off = 0; imm = 0 }

abbrev three_insns : Prog
three_insns = record {
  insnsi = insns;
  len = 3;
  stack_depth = 8;
  verifier_zext = true;
  jit_requested = true;
  is_func = false;
}

abbrev no_calls : Insn → Bool → FuncAddr
no_calls insn extra = record { ret = 0; addr = 0; fixed = true }

abbrev plenty : Kernel
plenty = record {
  blind_constants = λ p. some p;
  kzalloc = true;
  kcalloc = λ n. true;
  binary_alloc = λ n. some (λ m. 0);
  func_addr = no_calls;
}

build_from-fuel_example :
    build_from no_calls 3 three_insns false 0 zero_ctx
    ≡ build_from no_calls 5 three_insns false 0 zero_ctx
build_from-fuel_example =
    build_from-fuel no_calls three_insns false 3 5 0 zero_ctx (omega arith) (omega arith)

sized_ok : (sized plenty three_insns).ret ≡ 0
unfolding first_pass build_body build_from emit_at emit_insn one_of or_minus_one emit_rv32_jump_r64
    is_13b_int branch_offset rv_offset set_offset emit_all emit_rv32_alu_i64 load_reg64 is_stacked
    bpf2rv32 alu_i64 emit_imm32 emit_imm rv32_bpf_put_reg64 emit emit_exit
sized_ok = refl

second_pass-bounds_example :
    ((filled plenty three_insns (λ n. 0)).ctx.ninsns ≤ (sized plenty three_insns).ctx.ninsns)
    × ((filled plenty three_insns (λ n. 0)).ret ≡ 0
        → (filled plenty three_insns (λ n. 0)).ctx.ninsns ≡ (sized plenty three_insns).ctx.ninsns)
    × ((m : ℕ)
        → (sized plenty three_insns).ctx.ninsns ≤ m
        → (filled plenty three_insns (λ n. 0)).ctx.insns m ≡ 0)
second_pass-bounds_example = second_pass-bounds plenty three_insns (λ n. 0) sized_ok
