-- ===== src/Jit/Roundtrip.antt =====
-- bpf/jit/bpf_jit_comp32.c: the functions rv_* on every immediate, also on one that is wider than its
-- field, as the negative ones are.
use serval_sosp.Base.{ℕ, ◌*◌, ◌/◌, ◌%◌, ◌^◌, ◌<◌, ◌≡◌, refl, ap, ◌∙◌, bit_and, bit_or, arith}
use native.Mathlib.Nat.{div-add-mod}
use serval_sosp.Base.Digits.{bit_and-shr, bit_and-low, bit_and-zero}
use serval_sosp.Base.Word32.{shl32, u8}
use serval_sosp.Jit.Encode.{rv_r_insn, rv_i_insn, rv_s_insn, rv_sb_insn, rv_u_insn, rv_uj_insn}
use serval_sosp.Jit.Rv32.{register_op, immediate_op, branch, jump, upper, store_op, decode}
use serval_sosp.Jit.Decode.{
  decode-rv_r_insn, decode-rv_i_insn, decode-rv_s_insn, decode-rv_sb_insn, decode-rv_u_insn,
  decode-rv_uj_insn,
}

-- Only the low bits of an immediate reach the word.
rv_i_insn-cut :
    (imm rs1 f3 rd o : ℕ) → rv_i_insn imm rs1 f3 rd o ≡ rv_i_insn (imm % 2 ^ 12) rs1 f3 rd o
unfolding rv_i_insn
rv_i_insn-cut imm rs1 f3 rd o =
    let e : shl32 imm 20 ≡ shl32 (imm % 2 ^ 12) 20 = omega arith in
    ap (λ t. bit_or (bit_or (bit_or (bit_or t (shl32 rs1 15)) (shl32 f3 12)) (shl32 rd 7)) o) e

rv_u_insn-cut : (imm rd o : ℕ) → rv_u_insn imm rd o ≡ rv_u_insn (imm % 2 ^ 20) rd o
unfolding rv_u_insn
rv_u_insn-cut imm rd o =
    let e : shl32 imm 12 ≡ shl32 (imm % 2 ^ 20) 12 = omega arith in
    ap (λ t. bit_or (bit_or t (shl32 rd 7)) o) e

low_mask : (k m a : ℕ) → m / 2 ^ k ≡ 0 → m % 2 ^ k ≡ m → bit_and a m ≡ bit_and (a % 2 ^ k) m
low_mask k m a h l =
    let none_above : bit_and a m / 2 ^ k ≡ 0 =
      bit_and-shr k a m ∙ ap (bit_and (a / 2 ^ k)) h ∙ bit_and-zero (a / 2 ^ k) in
    omega (
      arith,
      div-add-mod (bit_and a m) (2 ^ k),
      ap (λ (t : ℕ). 2 ^ k * t) none_above,
      bit_and-low k a m ∙ ap (bit_and (a % 2 ^ k)) l,
    )

rv_sb_insn-cut :
    (imm rs2 rs1 f3 o : ℕ) → rv_sb_insn imm rs2 rs1 f3 o ≡ rv_sb_insn (imm % 2 ^ 12) rs2 rs1 f3 o
unfolding rv_sb_insn
rv_sb_insn-cut imm rs2 rs1 f3 o =
    rw
      (
        low_mask 12 0x800 imm refl refl,
        low_mask 12 0x3f0 imm refl refl,
        low_mask 12 0xf imm refl refl,
        low_mask 12 0x400 imm refl refl,
      )
      refl

rv_uj_insn-cut : (imm rd o : ℕ) → rv_uj_insn imm rd o ≡ rv_uj_insn (imm % 2 ^ 20) rd o
unfolding rv_uj_insn
rv_uj_insn-cut imm rd o =
    rw
      (
        low_mask 20 0x8_0000 imm refl refl,
        low_mask 20 0x3ff imm refl refl,
        low_mask 20 0x400 imm refl refl,
        low_mask 20 0x7_f800 imm refl refl,
      )
      refl

rv_s_insn-cut :
    (imm rs2 rs1 f3 o : ℕ) → rv_s_insn imm rs2 rs1 f3 o ≡ rv_s_insn (imm % 2 ^ 12) rs2 rs1 f3 o
unfolding rv_s_insn
rv_s_insn-cut imm rs2 rs1 f3 o =
    let e : shl32 (u8 (imm / 2 ^ 5)) 25 ≡ shl32 (u8 (imm % 2 ^ 12 / 2 ^ 5)) 25 = omega arith in
    rw (e, low_mask 12 0x1f imm refl refl) refl

-- The manual reads from the words of the six formats the registers and the function codes that they
-- were built with, when these fit their fields, and of any immediate the bits that the format has
-- room for.
pub decode-encode :
    (f7 rs2 rs1 f3 rd imm : ℕ)
    → f7 < 128
    → rs2 < 32
    → rs1 < 32
    → f3 < 8
    → rd < 32
    → (decode (rv_r_insn f7 rs2 rs1 f3 rd 0x33) ≡ register_op f7 f3 rd rs1 rs2)
      × (decode (rv_i_insn imm rs1 f3 rd 0x13) ≡ immediate_op (imm % 2 ^ 12) f3 rd rs1)
      × (decode (rv_s_insn imm rs2 rs1 f3 0x23) ≡ store_op f3 rs1 rs2 (imm % 2 ^ 12))
      × (decode (rv_sb_insn imm rs2 rs1 f3 0x63) ≡ branch f3 rs1 rs2 (imm % 2 ^ 12))
      × (decode (rv_u_insn imm rd 0x37) ≡ upper rd (imm % 2 ^ 20))
      × (decode (rv_uj_insn imm rd 0x6f) ≡ jump rd (imm % 2 ^ 20))
decode-encode f7 rs2 rs1 f3 rd imm h1 h2 h3 h4 h5 = (
  decode-rv_r_insn f7 rs2 rs1 f3 rd h1 h2 h3 h4 h5,
  ap decode (rv_i_insn-cut imm rs1 f3 rd 0x13)
      ∙ decode-rv_i_insn (imm % 2 ^ 12) rs1 f3 rd (omega arith) h3 h4 h5,
  ap decode (rv_s_insn-cut imm rs2 rs1 f3 0x23)
      ∙ decode-rv_s_insn (imm % 2 ^ 12) rs2 rs1 f3 (omega arith) h2 h3 h4,
  ap decode (rv_sb_insn-cut imm rs2 rs1 f3 0x63)
      ∙ decode-rv_sb_insn (imm % 2 ^ 12) rs2 rs1 f3 (omega arith) h2 h3 h4,
  ap decode (rv_u_insn-cut imm rd 0x37) ∙ decode-rv_u_insn (imm % 2 ^ 20) rd (omega arith) h5,
  ap decode (rv_uj_insn-cut imm rd 0x6f) ∙ decode-rv_uj_insn (imm % 2 ^ 20) rd (omega arith) h5,
)
