-- ===== src/Jit/Correct.antt =====
-- bpf/jit/bpf_jit_comp32.c against bpf/kbpf.c: 64-bit arithmetic on register pairs.
use serval_sosp.Base.{
  ℕ, ◌+◌, ◌-◌, ◌*◌, ◌/◌, ◌%◌, ◌^◌, ◌<◌, ◌≡◌, ◌≢◌, refl, ◌∙◌, List, arith, bit_and, bit_or, bit_xor,
}
use mathlib.Core.Path.{ap₂}
use serval_sosp.Jit.Regs.{Pair}
use serval_sosp.Jit.Alu.{
  alu_r64, bpf_add, bpf_sub, bpf_mul, bpf_or, bpf_and, bpf_neg, bpf_xor, bpf_mov,
}
use serval_sosp.Jit.Count.{length}
use serval_sosp.Jit.Rv32.{rv, exec, run, register_result, immediate_result}
use serval_sosp.Jit.Straight.{
  decode-rv_addi, decode-rv_add, decode-rv_sub, decode-rv_and, decode-rv_or, decode-rv_xor,
  decode-rv_mul, decode-rv_mulhu, decode-rv_sltu,
}

-- A pair of two registers that the compiler can use for a BPF register: not 0, T0 or T1
pub record IsPair (p : Pair) : Type 0 where
  pub hi_above : 6 < p.hi
  pub hi_below : p.hi < 32
  pub lo_above : 6 < p.lo
  pub lo_below : p.lo < 32
  pub distinct : p.hi ≢ p.lo

-- The value of a pair
abbrev pub value : (ℕ → ℕ) → Pair → ℕ
value f p = f p.hi * 2 ^ 32 + f p.lo

-- A register that is neither 0, which always reads as 0, nor one of the temporaries T0 and T1
abbrev pub Kept : ℕ → Type 0
Kept r = (r ≢ 0) × (r ≢ 5) × (r ≢ 6)

pub Kept-above : (r : ℕ) → 6 < r → Kept r
Kept-above r h = omega arith

-- Words that leave `v` in the pair `rd`, every other register but 0, T0 and T1 as it was, and the
-- program counter behind the last word
abbrev pub Leaves : (ℕ → ℕ) → List ℕ → Pair → ℕ → Type 0
Leaves f ws rd v =
    (value (run 0 ws (rv f 0)).regs rd ≡ v)
    × ((r : ℕ) → Kept r → r ≢ rd.hi → r ≢ rd.lo → (run 0 ws (rv f 0)).regs r ≡ f r)
    × ((run 0 ws (rv f 0)).pc ≡ 4 * length ws)

-- The product of two pairs, by the products of their words
expand :
    (a b c e : ℕ)
    → (a * 2 ^ 32 + b) * (c * 2 ^ 32 + e) ≡ a * c * 2 ^ 64 + a * e * 2 ^ 32 + c * b * 2 ^ 32 + b * e
expand a b c e = grind arith

mul_pair :
    (a b c e : ℕ)
    → ((a * e % 2 ^ 32 + c * b % 2 ^ 32) % 2 ^ 32 + b * e / 2 ^ 32) % 2 ^ 32 * 2 ^ 32
        + b * e % 2 ^ 32
      ≡ (a * 2 ^ 32 + b) * (c * 2 ^ 32 + e) % 2 ^ 64
mul_pair a b c e = omega (arith, expand a b c e)

t0 : 5 < 32
t0 = omega arith

t1 : 6 < 32
t1 = omega arith

z0 : 0 < 32
z0 = omega arith

-- Pairs that are the same or apart
module _ (f : ℕ → ℕ) (rd rs : Pair) (wf : (n : ℕ) → f n < 2 ^ 32) (d : IsPair rd) (s : IsPair rs)
    (x : rs.hi ≢ rd.lo) (y : rs.lo ≢ rd.hi) where
  dh : rd.hi < 32
  dh = d.hi_below

  dl : rd.lo < 32
  dl = d.lo_below

  sh : rs.hi < 32
  sh = s.hi_below

  sl : rs.lo < 32
  sl = s.lo_below

  pub mov64 : Leaves f (alu_r64 rd rs bpf_mov) rd (value f rs)
  unfolding alu_r64 run exec register_result immediate_result length
  mov64 =
      rw (decode-rv_addi rd.hi rs.hi 0 dh sh, decode-rv_addi rd.lo rs.lo 0 dl sl)
        (
          ground (arith, wf rd.hi, wf rd.lo, wf rs.hi, wf rs.lo),
          λ (r : ℕ) (a : Kept r) (b : r ≢ rd.hi) (c : r ≢ rd.lo). ground (arith, a, b, c),
          refl,
        )

  pub add64 : Leaves f (alu_r64 rd rs bpf_add) rd ((value f rd + value f rs) % 2 ^ 64)
  unfolding alu_r64 run exec register_result immediate_result length
  add64 =
      rw
        (
          decode-rv_addi 5 rd.lo 0 t0 dl,
          decode-rv_add rd.lo rd.lo rs.lo dl dl sl,
          decode-rv_sltu 5 rd.lo 5 t0 dl t0,
          decode-rv_add rd.hi rd.hi rs.hi dh dh sh,
          decode-rv_add rd.hi rd.hi 5 dh dh t0,
        )
        (
          ground (arith, wf rd.hi, wf rd.lo, wf rs.hi, wf rs.lo),
          λ (r : ℕ) (a : Kept r) (b : r ≢ rd.hi) (c : r ≢ rd.lo). ground (arith, a, b, c),
          refl,
        )

  pub sub64 : Leaves f (alu_r64 rd rs bpf_sub) rd ((value f rd + (2 ^ 64 - value f rs)) % 2 ^ 64)
  unfolding alu_r64 run exec register_result immediate_result length
  sub64 =
      rw
        (
          decode-rv_addi 5 rd.lo 0 t0 dl,
          decode-rv_sub rd.lo rd.lo rs.lo dl dl sl,
          decode-rv_sltu 5 5 rd.lo t0 t0 dl,
          decode-rv_sub rd.hi rd.hi rs.hi dh dh sh,
          decode-rv_sub rd.hi rd.hi 5 dh dh t0,
        )
        (
          ground (arith, wf rd.hi, wf rd.lo, wf rs.hi, wf rs.lo),
          λ (r : ℕ) (a : Kept r) (b : r ≢ rd.hi) (c : r ≢ rd.lo). ground (arith, a, b, c),
          refl,
        )

  pub and64 :
      Leaves f
        (alu_r64 rd rs bpf_and)
        rd
        (bit_and (f rd.hi) (f rs.hi) * 2 ^ 32 + bit_and (f rd.lo) (f rs.lo))
  unfolding alu_r64 run exec register_result immediate_result length
  and64 =
      rw (decode-rv_and rd.hi rd.hi rs.hi dh dh sh, decode-rv_and rd.lo rd.lo rs.lo dl dl sl)
        (
          ground (arith, wf rd.hi, wf rd.lo, wf rs.hi, wf rs.lo),
          λ (r : ℕ) (a : Kept r) (b : r ≢ rd.hi) (c : r ≢ rd.lo). ground (arith, a, b, c),
          refl,
        )

  pub or64 :
      Leaves f
        (alu_r64 rd rs bpf_or)
        rd
        (bit_or (f rd.hi) (f rs.hi) * 2 ^ 32 + bit_or (f rd.lo) (f rs.lo))
  unfolding alu_r64 run exec register_result immediate_result length
  or64 =
      rw (decode-rv_or rd.hi rd.hi rs.hi dh dh sh, decode-rv_or rd.lo rd.lo rs.lo dl dl sl)
        (
          ground (arith, wf rd.hi, wf rd.lo, wf rs.hi, wf rs.lo),
          λ (r : ℕ) (a : Kept r) (b : r ≢ rd.hi) (c : r ≢ rd.lo). ground (arith, a, b, c),
          refl,
        )

  pub xor64 :
      Leaves f
        (alu_r64 rd rs bpf_xor)
        rd
        (bit_xor (f rd.hi) (f rs.hi) * 2 ^ 32 + bit_xor (f rd.lo) (f rs.lo))
  unfolding alu_r64 run exec register_result immediate_result length
  xor64 =
      rw (decode-rv_xor rd.hi rd.hi rs.hi dh dh sh, decode-rv_xor rd.lo rd.lo rs.lo dl dl sl)
        (
          ground (arith, wf rd.hi, wf rd.lo, wf rs.hi, wf rs.lo),
          λ (r : ℕ) (a : Kept r) (b : r ≢ rd.hi) (c : r ≢ rd.lo). ground (arith, a, b, c),
          refl,
        )

  mul64_high :
      (run 0 (alu_r64 rd rs bpf_mul) (rv f 0)).regs rd.hi
      ≡ ((f rd.hi * f rs.lo % 2 ^ 32 + f rs.hi * f rd.lo % 2 ^ 32) % 2 ^ 32
          + f rd.lo * f rs.lo / 2 ^ 32)
        % 2 ^ 32
  unfolding alu_r64 run exec register_result immediate_result
  mul64_high =
      rw
        (
          decode-rv_mul 5 rs.hi rd.lo t0 sh dl,
          decode-rv_mul rd.hi rd.hi rs.lo dh dh sl,
          decode-rv_mulhu 6 rd.lo rs.lo t1 dl sl,
          decode-rv_add rd.hi rd.hi 5 dh dh t0,
          decode-rv_mul rd.lo rd.lo rs.lo dl dl sl,
          decode-rv_add rd.hi rd.hi 6 dh dh t1,
        )
        (ground arith)

  mul64_low : (run 0 (alu_r64 rd rs bpf_mul) (rv f 0)).regs rd.lo ≡ f rd.lo * f rs.lo % 2 ^ 32
  unfolding alu_r64 run exec register_result immediate_result
  mul64_low =
      rw
        (
          decode-rv_mul 5 rs.hi rd.lo t0 sh dl,
          decode-rv_mul rd.hi rd.hi rs.lo dh dh sl,
          decode-rv_mulhu 6 rd.lo rs.lo t1 dl sl,
          decode-rv_add rd.hi rd.hi 5 dh dh t0,
          decode-rv_mul rd.lo rd.lo rs.lo dl dl sl,
          decode-rv_add rd.hi rd.hi 6 dh dh t1,
        )
        (ground arith)

  mul64_rest :
      ((r : ℕ)
        → Kept r
        → r ≢ rd.hi
        → r ≢ rd.lo
        → (run 0 (alu_r64 rd rs bpf_mul) (rv f 0)).regs r ≡ f r)
      × ((run 0 (alu_r64 rd rs bpf_mul) (rv f 0)).pc ≡ 4 * length (alu_r64 rd rs bpf_mul))
  unfolding alu_r64 run exec register_result immediate_result length
  mul64_rest =
      rw
        (
          decode-rv_mul 5 rs.hi rd.lo t0 sh dl,
          decode-rv_mul rd.hi rd.hi rs.lo dh dh sl,
          decode-rv_mulhu 6 rd.lo rs.lo t1 dl sl,
          decode-rv_add rd.hi rd.hi 5 dh dh t0,
          decode-rv_mul rd.lo rd.lo rs.lo dl dl sl,
          decode-rv_add rd.hi rd.hi 6 dh dh t1,
        )
        (λ (r : ℕ) (a : Kept r) (b : r ≢ rd.hi) (c : r ≢ rd.lo). ground (arith, a, b, c), refl)

  pub mul64 : Leaves f (alu_r64 rd rs bpf_mul) rd (value f rd * value f rs % 2 ^ 64)
  mul64 = (
    ap₂ (λ a b. a * 2 ^ 32 + b) mul64_high mul64_low
        ∙ mul_pair (f rd.hi) (f rd.lo) (f rs.hi) (f rs.lo),
    mul64_rest.0,
    mul64_rest.1,
  )

  pub neg64 : Leaves f (alu_r64 rd rs bpf_neg) rd ((2 ^ 64 - value f rd) % 2 ^ 64)
  unfolding alu_r64 run exec register_result immediate_result length
  neg64 =
      rw
        (
          decode-rv_sub rd.lo 0 rd.lo dl z0 dl,
          decode-rv_sltu 5 0 rd.lo t0 z0 dl,
          decode-rv_sub rd.hi 0 rd.hi dh z0 dh,
          decode-rv_sub rd.hi rd.hi 5 dh dh t0,
        )
        (
          ground (arith, wf rd.hi, wf rd.lo, wf rs.hi, wf rs.lo),
          λ (r : ℕ) (a : Kept r) (b : r ≢ rd.hi) (c : r ≢ rd.lo). ground (arith, a, b, c),
          refl,
        )
