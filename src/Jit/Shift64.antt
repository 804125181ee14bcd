-- ===== src/Jit/Shift64.antt =====
-- bpf/jit/bpf_jit_comp32.c against bpf/kbpf.c: what the words of a 64-bit shift leave.
use serval_sosp.Base.{
  ℕ, ◌+◌, ◌-◌, ◌*◌, ◌/◌, ◌%◌, ◌^◌, ◌≤◌, ◌<◌, ◌≡◌, ◌≢◌, refl, ap, ◌∙◌, List, [], arith, bit_or,
  dec_lt,
}
use mathlib.Core.Path.{ap₂}
use serval_sosp.Base.Word32.{shl32, sar32}
use serval_sosp.Jit.Regs.{Pair}
use serval_sosp.Jit.Encode.{rv_addi, rv_sll, rv_srl, rv_sra, rv_srai}
use serval_sosp.Jit.Alu.{alu_r64, bpf_lsh, bpf_rsh, bpf_arsh}
use serval_sosp.Jit.Count.{length}
use serval_sosp.Jit.Kbpf.{sar64}
use serval_sosp.Jit.Rv32.{Rv, rv, get, set, exec, decode, run, register_result, immediate_result}
use serval_sosp.Jit.Straight.{
  decode-rv_addi, decode-rv_sll, decode-rv_srl, decode-rv_sra, decode-rv_srai,
}
use serval_sosp.Jit.Amount.{tested, run-small, run-large, run-both}
use serval_sosp.Jit.Correct.{IsPair, Kept, Leaves, value}
use serval_sosp.Jit.Halves.{
  left_small, right_small, right_signed_small, left_large, right_large, right_signed_large,
}
use serval_sosp.Jit.Shifts.{
  lsh_rest, lsh_small, lsh_small-regs, rsh_rest, rsh_small, rsh_small-regs, arsh_rest, before_last,
  before_last-regs, arsh_small,
}

module _ (f : ℕ → ℕ) (rd rs : Pair) (wf : (n : ℕ) → f n < 2 ^ 32) (d : IsPair rd) (s : IsPair rs)
    (x : rs.hi ≢ rd.lo) (y : rs.lo ≢ rd.hi) (apart : rs.lo ≢ rd.lo) where
  dh : rd.hi < 32
  dh = d.hi_below

  dl : rd.lo < 32
  dl = d.lo_below

  t0 : 5 < 32
  t0 = omega arith

  z0 : 0 < 32
  z0 = omega arith

  -- The words leave what the state behind them holds.
  leaves :
      (ws : List ℕ) (m : Rv) (v : ℕ)
      → run 0 ws (rv f 0) ≡ m
      → value m.regs rd ≡ v
      → ((r : ℕ) → Kept r → r ≢ rd.hi → r ≢ rd.lo → m.regs r ≡ f r)
      → m.pc ≡ 4 * length ws
      → Leaves f ws rd v
  leaves ws m v e h k l = (
    ap (λ (t : Rv). value t.regs rd) e ∙ h,
    λ r a b c. ap (λ (t : Rv). t.regs r) e ∙ k r a b c,
    ap (λ (t : Rv). t.pc) e ∙ l,
  )

  abbrev start : ℕ → ℕ
  start = tested f rs.lo 0 0 [] s.lo_above s.lo_below

  -- LSH by 32 or more
  abbrev lsh_first : ℕ → ℕ
  lsh_first = set start rd.hi (shl32 (get start rd.lo) (get start 5 % 32))

  abbrev lsh_second : ℕ → ℕ
  lsh_second = set lsh_first rd.lo 0

  lsh_first-exec : exec (decode (rv_sll rd.hi rd.lo 5)) (rv start 8) ≡ rv lsh_first 12
  unfolding exec register_result immediate_result
  lsh_first-exec = rw (decode-rv_sll rd.hi rd.lo 5 dh dl t0) refl

  lsh_second-exec : exec (decode (rv_addi rd.lo 0 0)) (rv lsh_first 12) ≡ rv lsh_second 16
  unfolding exec register_result immediate_result
  lsh_second-exec = rw (decode-rv_addi rd.lo 0 0 dl z0) refl

  lsh_skip :
      run 20 (lsh_rest f rd rs wf d s x y apart) (rv (set lsh_second 0 20) 48)
      ≡ rv (set lsh_second 0 20) 48
  unfolding run
  lsh_skip = refl

  lsh_large-regs :
      32 ≤ f rs.lo
      → f rs.lo < 64
      → (set lsh_second 0 20 rd.hi ≡ f rd.lo * 2 ^ (f rs.lo - 32) % 2 ^ 32)
        × (set lsh_second 0 20 rd.lo ≡ 0)
        × ((r : ℕ) → Kept r → r ≢ rd.hi → r ≢ rd.lo → set lsh_second 0 20 r ≡ f r)
  lsh_large-regs h k = (
    ground (arith, wf rd.hi),
    ground (arith, wf rd.hi),
    λ (r : ℕ) (a : Kept r) (b : r ≢ rd.hi) (c : r ≢ rd.lo). ground (arith, a, b, c),
  )

  lsh_large :
      32 ≤ f rs.lo
      → f rs.lo < 64
      → Leaves f (alu_r64 rd rs bpf_lsh) rd (value f rd * 2 ^ f rs.lo % 2 ^ 64)
  unfolding alu_r64 length
  lsh_large h k =
      leaves (alu_r64 rd rs bpf_lsh) (rv (set lsh_second 0 20) 48)
        (value f rd * 2 ^ f rs.lo % 2 ^ 64)
        (run-large f rs.lo (rv_sll rd.hi rd.lo 5) (rv_addi rd.lo 0 0)
            (lsh_rest f rd rs wf d s x y apart) s.lo_above s.lo_below h k
          ∙ run-both f rs.lo (rv_sll rd.hi rd.lo 5) (rv_addi rd.lo 0 0)
              (lsh_rest f rd rs wf d s x y apart) s.lo_above s.lo_below lsh_first lsh_second
              lsh_first-exec lsh_second-exec
          ∙ lsh_skip)
        (ap₂ (λ a b. a * 2 ^ 32 + b) (lsh_large-regs h k).0 (lsh_large-regs h k).1
          ∙ left_large (f rd.hi) (f rd.lo) (f rs.lo) k h)
        (lsh_large-regs h k).2 refl

  lsh_less : f rs.lo < 32 → Leaves f (alu_r64 rd rs bpf_lsh) rd (value f rd * 2 ^ f rs.lo % 2 ^ 64)
  unfolding alu_r64 length
  lsh_less k =
      leaves (alu_r64 rd rs bpf_lsh) (lsh_small f rd rs wf d s x y apart)
        (value f rd * 2 ^ f rs.lo % 2 ^ 64)
        (run-small f rs.lo (rv_sll rd.hi rd.lo 5) (rv_addi rd.lo 0 0)
          (lsh_rest f rd rs wf d s x y apart) s.lo_above s.lo_below k)
        (ap₂ (λ a b. a * 2 ^ 32 + b) (lsh_small-regs f rd rs wf d s x y apart k).0
            (lsh_small-regs f rd rs wf d s x y apart k).1
          ∙ left_small (f rd.hi) (f rd.lo) (f rs.lo) k (wf rd.lo))
        (lsh_small-regs f rd rs wf d s x y apart k).2 (lsh_small-regs f rd rs wf d s x y apart k).3

  pub lsh64 : f rs.lo < 64 → Leaves f (alu_r64 rd rs bpf_lsh) rd (value f rd * 2 ^ f rs.lo % 2 ^ 64)
  lsh64 k = elim (dec_lt (f rs.lo) 32) [ yes h ↦ lsh_less h | no h ↦ lsh_large (omega arith) k ]

  -- RSH by 32 or more
  abbrev rsh_first : ℕ → ℕ
  rsh_first = set start rd.lo (get start rd.hi / 2 ^ (get start 5 % 32))

  abbrev rsh_second : ℕ → ℕ
  rsh_second = set rsh_first rd.hi 0

  rsh_first-exec : exec (decode (rv_srl rd.lo rd.hi 5)) (rv start 8) ≡ rv rsh_first 12
  unfolding exec register_result immediate_result
  rsh_first-exec = rw (decode-rv_srl rd.lo rd.hi 5 dl dh t0) refl

  rsh_second-exec : exec (decode (rv_addi rd.hi 0 0)) (rv rsh_first 12) ≡ rv rsh_second 16
  unfolding exec register_result immediate_result
  rsh_second-exec = rw (decode-rv_addi rd.hi 0 0 dh z0) refl

  rsh_skip :
      run 20 (rsh_rest f rd rs wf d s x y apart) (rv (set rsh_second 0 20) 48)
      ≡ rv (set rsh_second 0 20) 48
  unfolding run
  rsh_skip = refl

  rsh_large-regs :
      32 ≤ f rs.lo
      → f rs.lo < 64
      → (set rsh_second 0 20 rd.hi ≡ 0)
        × (set rsh_second 0 20 rd.lo ≡ f rd.hi / 2 ^ (f rs.lo - 32))
        × ((r : ℕ) → Kept r → r ≢ rd.hi → r ≢ rd.lo → set rsh_second 0 20 r ≡ f r)
  rsh_large-regs h k = (
    ground (arith, wf rd.hi),
    ground (arith, wf rd.hi),
    λ (r : ℕ) (a : Kept r) (b : r ≢ rd.hi) (c : r ≢ rd.lo). ground (arith, a, b, c),
  )

  rsh_large :
      32 ≤ f rs.lo → f rs.lo < 64 → Leaves f (alu_r64 rd rs bpf_rsh) rd (value f rd / 2 ^ f rs.lo)
  unfolding alu_r64 length
  rsh_large h k =
      leaves (alu_r64 rd rs bpf_rsh) (rv (set rsh_second 0 20) 48) (value f rd / 2 ^ f rs.lo)
        (run-large f rs.lo (rv_srl rd.lo rd.hi 5) (rv_addi rd.hi 0 0)
            (rsh_rest f rd rs wf d s x y apart) s.lo_above s.lo_below h k
          ∙ run-both f rs.lo (rv_srl rd.lo rd.hi 5) (rv_addi rd.hi 0 0)
              (rsh_rest f rd rs wf d s x y apart) s.lo_above s.lo_below rsh_first rsh_second
              rsh_first-exec rsh_second-exec
          ∙ rsh_skip)
        (ap₂ (λ a b. a * 2 ^ 32 + b) (rsh_large-regs h k).0 (rsh_large-regs h k).1
          ∙ right_large (f rd.hi) (f rd.lo) (f rs.lo) k h (wf rd.lo))
        (rsh_large-regs h k).2 refl

  rsh_less : f rs.lo < 32 → Leaves f (alu_r64 rd rs bpf_rsh) rd (value f rd / 2 ^ f rs.lo)
  unfolding alu_r64 length
  rsh_less k =
      leaves (alu_r64 rd rs bpf_rsh) (rsh_small f rd rs wf d s x y apart) (value f rd / 2 ^ f rs.lo)
        (run-small f rs.lo (rv_srl rd.lo rd.hi 5) (rv_addi rd.hi 0 0)
          (rsh_rest f rd rs wf d s x y apart) s.lo_above s.lo_below k)
        (ap₂ (λ a b. a * 2 ^ 32 + b) (rsh_small-regs f rd rs wf d s x y apart k).0
            (rsh_small-regs f rd rs wf d s x y apart k).1
          ∙ right_small (f rd.hi) (f rd.lo) (f rs.lo) k (wf rd.lo))
        (rsh_small-regs f rd rs wf d s x y apart k).2 (rsh_small-regs f rd rs wf d s x y apart k).3

  pub rsh64 : f rs.lo < 64 → Leaves f (alu_r64 rd rs bpf_rsh) rd (value f rd / 2 ^ f rs.lo)
  rsh64 k = elim (dec_lt (f rs.lo) 32) [ yes h ↦ rsh_less h | no h ↦ rsh_large (omega arith) k ]

  -- ARSH by 32 or more
  abbrev arsh_first : ℕ → ℕ
  arsh_first = set start rd.lo (sar32 (get start rd.hi) (get start 5 % 32))

  abbrev arsh_second : ℕ → ℕ
  arsh_second = set arsh_first rd.hi (sar32 (get arsh_first rd.hi) 31)

  arsh_first-exec : exec (decode (rv_sra rd.lo rd.hi 5)) (rv start 8) ≡ rv arsh_first 12
  unfolding exec register_result immediate_result
  arsh_first-exec = rw (decode-rv_sra rd.lo rd.hi 5 dl dh t0) refl

  arsh_second-exec : exec (decode (rv_srai rd.hi rd.hi 31)) (rv arsh_first 12) ≡ rv arsh_second 16
  unfolding exec register_result immediate_result
  arsh_second-exec = rw (decode-rv_srai rd.hi rd.hi 31 dh dh) refl

  arsh_skip :
      run 20 (arsh_rest f rd rs wf d s x y apart) (rv (set arsh_second 0 20) 48)
      ≡ rv (set arsh_second 0 20) 48
  unfolding run
  arsh_skip = refl

  arsh_large-regs :
      32 ≤ f rs.lo
      → f rs.lo < 64
      → (set arsh_second 0 20 rd.hi ≡ sar32 (f rd.hi) 31)
        × (set arsh_second 0 20 rd.lo ≡ sar32 (f rd.hi) (f rs.lo - 32))
        × ((r : ℕ) → Kept r → r ≢ rd.hi → r ≢ rd.lo → set arsh_second 0 20 r ≡ f r)
  arsh_large-regs h k = (
    ground (arith, wf rd.hi),
    ground (arith, wf rd.hi),
    λ (r : ℕ) (a : Kept r) (b : r ≢ rd.hi) (c : r ≢ rd.lo). ground (arith, a, b, c),
  )

  arsh_large :
      32 ≤ f rs.lo
      → f rs.lo < 64
      → Leaves f (alu_r64 rd rs bpf_arsh) rd (sar64 (value f rd) (f rs.lo))
  unfolding alu_r64 length
  arsh_large h k =
      leaves (alu_r64 rd rs bpf_arsh) (rv (set arsh_second 0 20) 48) (sar64 (value f rd) (f rs.lo))
        (run-large f rs.lo (rv_sra rd.lo rd.hi 5) (rv_srai rd.hi rd.hi 31)
            (arsh_rest f rd rs wf d s x y apart) s.lo_above s.lo_below h k
          ∙ run-both f rs.lo (rv_sra rd.lo rd.hi 5) (rv_srai rd.hi rd.hi 31)
              (arsh_rest f rd rs wf d s x y apart) s.lo_above s.lo_below arsh_first arsh_second
              arsh_first-exec arsh_second-exec
          ∙ arsh_skip)
        (ap₂ (λ a b. a * 2 ^ 32 + b) (arsh_large-regs h k).0 (arsh_large-regs h k).1
          ∙ right_signed_large (f rd.hi) (f rd.lo) (f rs.lo) k h (wf rd.hi) (wf rd.lo))
        (arsh_large-regs h k).2 refl

  abbrev arsh_end : ℕ → ℕ
  arsh_end = set (before_last f rd rs wf d s x y apart).regs rd.hi (sar32 (f rd.hi) (f rs.lo))

  arsh_less-hi : arsh_end rd.hi ≡ sar32 (f rd.hi) (f rs.lo)
  arsh_less-hi = ground arith

  arsh_less-lo :
      f rs.lo < 32
      → arsh_end rd.lo
        ≡ bit_or (f rd.hi * 2 % 2 ^ 32 * 2 ^ (31 - f rs.lo) % 2 ^ 32) (f rd.lo / 2 ^ f rs.lo)
  arsh_less-lo k = ground (arith, (before_last-regs f rd rs wf d s x y apart k).0)

  arsh_less-rest : f rs.lo < 32 → (r : ℕ) → Kept r → r ≢ rd.hi → r ≢ rd.lo → arsh_end r ≡ f r
  arsh_less-rest k r a b c = ground (arith, (before_last-regs f rd rs wf d s x y apart k).1 r a c)

  arsh_less : f rs.lo < 32 → Leaves f (alu_r64 rd rs bpf_arsh) rd (sar64 (value f rd) (f rs.lo))
  unfolding alu_r64 length
  arsh_less k =
      leaves (alu_r64 rd rs bpf_arsh) (rv arsh_end 48) (sar64 (value f rd) (f rs.lo))
        (run-small f rs.lo (rv_sra rd.lo rd.hi 5) (rv_srai rd.hi rd.hi 31)
            (arsh_rest f rd rs wf d s x y apart) s.lo_above s.lo_below k
          ∙ arsh_small f rd rs wf d s x y apart k)
        (ap₂ (λ a b. a * 2 ^ 32 + b) arsh_less-hi (arsh_less-lo k)
          ∙ right_signed_small (f rd.hi) (f rd.lo) (f rs.lo) k (wf rd.hi) (wf rd.lo))
        (arsh_less-rest k) refl

  pub arsh64 : f rs.lo < 64 → Leaves f (alu_r64 rd rs bpf_arsh) rd (sar64 (value f rd) (f rs.lo))
  arsh64 k = elim (dec_lt (f rs.lo) 32) [ yes h ↦ arsh_less h | no h ↦ arsh_large (omega arith) k ]
