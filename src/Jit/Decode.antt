-- ===== src/Jit/Decode.antt =====
-- bpf/jit/bpf_jit_comp32.c: the functions rv_* put each field where the RISC-V manual reads it.
use serval_sosp.Base.{
  ℕ, ◌+◌, ◌*◌, ◌/◌, ◌%◌, ◌^◌, ◌<◌, ◌≡◌, refl, Bool, true, bit_and, bit_or, arith, ltb, ◌==◌, ◌&&◌,
}
use serval_sosp.Base.Bits.{all_below, all_below_sound}
use serval_sosp.Base.Digits.{bit_and-shr, bit_and-low, bit_and-zero}
use serval_sosp.Base.Fields.{bit_or-add}
use serval_sosp.Base.Word32.{shl32, u8}
use serval_sosp.Jit.Encode.{rv_r_insn, rv_i_insn, rv_s_insn, rv_sb_insn, rv_u_insn, rv_uj_insn}
use serval_sosp.Jit.Rv32.{register_op, immediate_op, branch, jump, upper, store_op, decode}

-- Six fields side by side
six :
    (f g h i j : ℕ) (o : ℕ)
    → f < 128
    → g < 32
    → h < 32
    → i < 8
    → j < 32
    → o < 128
    → bit_or
        (bit_or
          (bit_or (bit_or (bit_or (shl32 f 25) (shl32 g 20)) (shl32 h 15)) (shl32 i 12))
          (shl32 j 7))
        o
      ≡ f * 2 ^ 25 + g * 2 ^ 20 + h * 2 ^ 15 + i * 2 ^ 12 + j * 2 ^ 7 + o
six f g h i j o hf hg hh hi hj ho =
    let a = bit_or-add 25 (shl32 f 25) (shl32 g 20) (omega arith) (omega arith) in
    let b = bit_or-add 20 (shl32 f 25 + shl32 g 20) (shl32 h 15) (omega arith) (omega arith) in
    let c =
      bit_or-add 15 (shl32 f 25 + shl32 g 20 + shl32 h 15) (shl32 i 12) (omega arith)
        (omega arith) in
    let d =
      bit_or-add 12 (shl32 f 25 + shl32 g 20 + shl32 h 15 + shl32 i 12) (shl32 j 7) (omega arith)
        (omega arith) in
    let e =
      bit_or-add 7 (shl32 f 25 + shl32 g 20 + shl32 h 15 + shl32 i 12 + shl32 j 7) o (omega arith)
        (omega arith) in
    rw (a, b, c, d, e) (omega arith)

-- Five fields, the first of 12 bits
five :
    (f h i j o : ℕ)
    → f < 2 ^ 12
    → h < 32
    → i < 8
    → j < 32
    → o < 128
    → bit_or (bit_or (bit_or (bit_or (shl32 f 20) (shl32 h 15)) (shl32 i 12)) (shl32 j 7)) o
      ≡ f * 2 ^ 20 + h * 2 ^ 15 + i * 2 ^ 12 + j * 2 ^ 7 + o
five f h i j o hf hh hi hj ho =
    let b = bit_or-add 20 (shl32 f 20) (shl32 h 15) (omega arith) (omega arith) in
    let c = bit_or-add 15 (shl32 f 20 + shl32 h 15) (shl32 i 12) (omega arith) (omega arith) in
    let d =
      bit_or-add 12 (shl32 f 20 + shl32 h 15 + shl32 i 12) (shl32 j 7) (omega arith)
        (omega arith) in
    let e =
      bit_or-add 7 (shl32 f 20 + shl32 h 15 + shl32 i 12 + shl32 j 7) o (omega arith)
        (omega arith) in
    rw (b, c, d, e) (omega arith)

-- Three fields, the first of 20 bits
three :
    (f j o : ℕ)
    → f < 2 ^ 20
    → j < 32
    → o < 128
    → bit_or (bit_or (shl32 f 12) (shl32 j 7)) o ≡ f * 2 ^ 12 + j * 2 ^ 7 + o
three f j o hf hj ho =
    let d = bit_or-add 12 (shl32 f 12) (shl32 j 7) (omega arith) (omega arith) in
    let e = bit_or-add 7 (shl32 f 12 + shl32 j 7) o (omega arith) (omega arith) in
    rw (d, e) (omega arith)

pub decode-rv_r_insn :
    (f7 rs2 rs1 f3 rd : ℕ)
    → f7 < 128
    → rs2 < 32
    → rs1 < 32
    → f3 < 8
    → rd < 32
    → decode (rv_r_insn f7 rs2 rs1 f3 rd 0x33) ≡ register_op f7 f3 rd rs1 rs2
unfolding rv_r_insn decode
decode-rv_r_insn f7 rs2 rs1 f3 rd h1 h2 h3 h4 h5 =
    ground (arith, six f7 rs2 rs1 f3 rd 0x33 h1 h2 h3 h4 h5 (omega arith))

pub decode-rv_i_insn :
    (imm rs1 f3 rd : ℕ)
    → imm < 2 ^ 12
    → rs1 < 32
    → f3 < 8
    → rd < 32
    → decode (rv_i_insn imm rs1 f3 rd 0x13) ≡ immediate_op imm f3 rd rs1
unfolding rv_i_insn decode
decode-rv_i_insn imm rs1 f3 rd h1 h2 h3 h4 =
    ground (arith, five imm rs1 f3 rd 0x13 h1 h2 h3 h4 (omega arith))

pub decode-rv_u_insn :
    (imm rd : ℕ) → imm < 2 ^ 20 → rd < 32 → decode (rv_u_insn imm rd 0x37) ≡ upper rd imm
unfolding rv_u_insn decode
decode-rv_u_insn imm rd h1 h2 = ground (arith, three imm rd 0x37 h1 h2 (omega arith))

-- The two pieces of a branch's immediate, and of a store's
abbrev sb_high : ℕ → ℕ
sb_high imm = bit_or (bit_and imm 0x800 / 2 ^ 5) (bit_and imm 0x3f0 / 2 ^ 4)

abbrev sb_low : ℕ → ℕ
sb_low imm = bit_or (bit_and imm 0xf * 2) (bit_and imm 0x400 / 2 ^ 10)

pieces : ℕ → Bool
pieces imm =
    ltb (sb_high imm) 128
    && ltb (sb_low imm) 32
    && (sb_high imm / 64 * 2 ^ 11
          + sb_low imm % 2 * 2 ^ 10
          + sb_high imm % 64 * 2 ^ 4
          + sb_low imm / 2
        == imm)
    && (bit_and imm 0x1f == imm % 32)

pieces_table : all_below 4096 pieces ≡ true
unfolding all_below pieces
pieces_table = refl

pieces_below :
    (imm : ℕ)
    → imm < 2 ^ 12
    → (sb_high imm < 128)
      × (sb_low imm < 32)
      × (sb_high imm / 64 * 2 ^ 11
            + sb_low imm % 2 * 2 ^ 10
            + sb_high imm % 64 * 2 ^ 4
            + sb_low imm / 2
          ≡ imm)
      × (bit_and imm 0x1f ≡ imm % 32)
unfolding pieces
pieces_below imm h = ground (arith, all_below_sound 4096 pieces imm pieces_table h)

pub decode-rv_sb_insn :
    (imm rs2 rs1 f3 : ℕ)
    → imm < 2 ^ 12
    → rs2 < 32
    → rs1 < 32
    → f3 < 8
    → decode (rv_sb_insn imm rs2 rs1 f3 0x63) ≡ branch f3 rs1 rs2 imm
unfolding rv_sb_insn decode
decode-rv_sb_insn imm rs2 rs1 f3 h1 h2 h3 h4 =
    let p = pieces_below imm h1 in
    ground (arith, p, six (sb_high imm) rs2 rs1 f3 (sb_low imm) 0x63 p.0 h2 h3 h4 p.1 (omega arith))

pub decode-rv_s_insn :
    (imm rs2 rs1 f3 : ℕ)
    → imm < 2 ^ 12
    → rs2 < 32
    → rs1 < 32
    → f3 < 8
    → decode (rv_s_insn imm rs2 rs1 f3 0x23) ≡ store_op f3 rs1 rs2 imm
unfolding rv_s_insn decode
decode-rv_s_insn imm rs2 rs1 f3 h1 h2 h3 h4 =
    let p = pieces_below imm h1 in
    ground (
      arith,
      p,
      six (u8 (imm / 2 ^ 5)) rs2 rs1 f3 (bit_and imm 0x1f) 0x23 (omega arith) h2 h3 h4
          (omega (arith, p.3)) (omega arith),
    )

-- The parts of a jump's immediate, by its high and its low ten bits
high_parts : ℕ → Bool
high_parts h =
    (bit_and h 512 == h / 512 % 2 * 512)
    && (bit_and h 1 == h % 2)
    && (bit_and h 510 == h / 2 % 256 * 2)
    && (bit_and h 1023 == h)

high_table : all_below 1024 high_parts ≡ true
unfolding all_below high_parts
high_table = refl

high_below :
    (h : ℕ)
    → h < 1024
    → (bit_and h 512 ≡ h / 512 % 2 * 512)
      × (bit_and h 1 ≡ h % 2)
      × (bit_and h 510 ≡ h / 2 % 256 * 2)
      × (bit_and h 1023 ≡ h)
unfolding high_parts
high_below h b = ground (arith, all_below_sound 1024 high_parts h high_table b)

-- A mask by its high and its low ten bits
mask :
    (a m : ℕ)
    → bit_and a m ≡ bit_and (a / 2 ^ 10) (m / 2 ^ 10) * 1024 + bit_and (a % 2 ^ 10) (m % 2 ^ 10)
mask a m = omega (arith, bit_and-shr 10 a m, bit_and-low 10 a m)

jump_field : ℕ → ℕ
jump_field a =
    bit_or
      (bit_or (bit_or (bit_and a 0x8_0000) (bit_and a 0x3ff * 2 ^ 9)) (bit_and a 0x400 / 2 ^ 2))
      (bit_and a 0x7_f800 / 2 ^ 11)

jump_field_sum :
    (a : ℕ)
    → a < 2 ^ 20
    → jump_field a
      ≡ a / 2 ^ 19 % 2 * 2 ^ 19 + a % 2 ^ 10 * 2 ^ 9 + a / 2 ^ 10 % 2 * 2 ^ 8 + a / 2 ^ 11 % 2 ^ 8
unfolding jump_field
jump_field_sum a b =
    let h = high_below (a / 2 ^ 10) (omega arith) in
    let l = high_below (a % 2 ^ 10) (omega arith) in
    let zh = bit_and-zero (a / 2 ^ 10) in
    let zl = bit_and-zero (a % 2 ^ 10) in
    let p : bit_and a 0x8_0000 ≡ a / 2 ^ 19 % 2 * 2 ^ 19 =
      omega (arith, mask a 0x8_0000, h.0, zl) in
    let q : bit_and a 0x3ff ≡ a % 2 ^ 10 = omega (arith, mask a 0x3ff, zh, l.3) in
    let r : bit_and a 0x400 ≡ a / 2 ^ 10 % 2 * 2 ^ 10 = omega (arith, mask a 0x400, h.1, zl) in
    let s : bit_and a 0x7_f800 ≡ a / 2 ^ 11 % 2 ^ 8 * 2 ^ 11 =
      omega (arith, mask a 0x7_f800, h.2, zl) in
    rw
      (
        p,
        q,
        r,
        s,
        bit_or-add 19 (a / 2 ^ 19 % 2 * 2 ^ 19) (a % 2 ^ 10 * 2 ^ 9) (omega arith) (omega arith),
        bit_or-add 9 (a / 2 ^ 19 % 2 * 2 ^ 19 + a % 2 ^ 10 * 2 ^ 9)
            (a / 2 ^ 10 % 2 * 2 ^ 10 / 2 ^ 2) (omega arith) (omega arith),
        bit_or-add 8
            (a / 2 ^ 19 % 2 * 2 ^ 19 + a % 2 ^ 10 * 2 ^ 9 + a / 2 ^ 10 % 2 * 2 ^ 10 / 2 ^ 2)
            (a / 2 ^ 11 % 2 ^ 8 * 2 ^ 11 / 2 ^ 11) (omega arith) (omega arith),
      )
      (omega arith)

pub decode-rv_uj_insn :
    (imm rd : ℕ) → imm < 2 ^ 20 → rd < 32 → decode (rv_uj_insn imm rd 0x6f) ≡ jump rd imm
unfolding rv_uj_insn decode jump_field
decode-rv_uj_insn imm rd h1 h2 =
    let j = jump_field_sum imm h1 in
    ground (arith, j, three (jump_field imm) rd 0x6f (omega (arith, j)) h2 (omega arith))
