-- ===== src/Jit/Shifts.antt =====
-- bpf/jit/bpf_jit_comp32.c against bpf/kbpf.c: the shifts of a 64-bit value.
use serval_sosp.Base.{
  ℕ, ◌-◌, ◌*◌, ◌/◌, ◌%◌, ◌^◌, ◌<◌, ◌≡◌, ◌≢◌, refl, ◌∙◌, List, [], ◌∷◌, arith, bit_or,
}
use mathlib.Core.Path.{ap₂}
use serval_sosp.Base.Word32.{sar32}
use serval_sosp.Jit.Regs.{Pair}
use serval_sosp.Jit.Encode.{rv_addi, rv_sub, rv_or, rv_sll, rv_srl, rv_sra, rv_slli, rv_srli}
use serval_sosp.Jit.Rv32.{Rv, rv, get, set, exec, run, register_result, immediate_result}
use serval_sosp.Jit.Straight.{
  decode-rv_addi, decode-rv_sub, decode-rv_or, decode-rv_sll, decode-rv_srl, decode-rv_sra,
  decode-rv_slli, decode-rv_srli,
}
use serval_sosp.Jit.Amount.{tested}
use serval_sosp.Jit.Correct.{IsPair, Kept, Kept-above}

t0 : 5 < 32
t0 = omega arith

t1 : 6 < 32
t1 = omega arith

z0 : 0 < 32
z0 = omega arith

module _ (f : ℕ → ℕ) (rd rs : Pair) (wf : (n : ℕ) → f n < 2 ^ 32) (d : IsPair rd) (s : IsPair rs)
    (x : rs.hi ≢ rd.lo) (y : rs.lo ≢ rd.hi) (apart : rs.lo ≢ rd.lo) where
  dh : rd.hi < 32
  dh = d.hi_below

  dl : rd.lo < 32
  dl = d.lo_below

  sl : rs.lo < 32
  sl = s.lo_below

  sa : 6 < rs.lo
  sa = s.lo_above

  -- The words of LSH for an amount below 32
  abbrev pub lsh_rest : List ℕ
  lsh_rest =
      rv_addi 6 0 31
      ∷ rv_srli 5 rd.lo 1
      ∷ rv_sub 6 6 rs.lo
      ∷ rv_srl 5 5 6
      ∷ rv_sll rd.hi rd.hi rs.lo
      ∷ rv_or rd.hi 5 rd.hi
      ∷ rv_sll rd.lo rd.lo rs.lo
      ∷ []

  abbrev pub lsh_small : Rv
  lsh_small = run 20 lsh_rest (rv (tested f rs.lo 0 0 [] s.lo_above s.lo_below) 20)

  pub lsh_small-regs :
      f rs.lo < 32
      → (lsh_small.regs rd.hi
          ≡ bit_or (f rd.lo / 2 / 2 ^ (31 - f rs.lo)) (f rd.hi * 2 ^ f rs.lo % 2 ^ 32))
        × (lsh_small.regs rd.lo ≡ f rd.lo * 2 ^ f rs.lo % 2 ^ 32)
        × ((r : ℕ) → Kept r → r ≢ rd.hi → r ≢ rd.lo → lsh_small.regs r ≡ f r)
        × (lsh_small.pc ≡ 48)
  unfolding run exec register_result immediate_result
  lsh_small-regs k =
      rw
        (
          decode-rv_addi 6 0 31 t1 z0,
          decode-rv_srli 5 rd.lo 1 t0 dl,
          decode-rv_sub 6 6 rs.lo t1 t1 sl,
          decode-rv_srl 5 5 6 t0 t0 t1,
          decode-rv_sll rd.hi rd.hi rs.lo dh dh sl,
          decode-rv_or rd.hi 5 rd.hi dh t0 dh,
          decode-rv_sll rd.lo rd.lo rs.lo dl dl sl,
        )
        (
          ground arith,
          ground arith,
          λ (r : ℕ) (a : Kept r) (b : r ≢ rd.hi) (c : r ≢ rd.lo). ground (arith, a, b, c),
          refl,
        )

  -- The words of RSH for an amount below 32
  abbrev pub rsh_rest : List ℕ
  rsh_rest =
      rv_addi 6 0 31
      ∷ rv_slli 5 rd.hi 1
      ∷ rv_sub 6 6 rs.lo
      ∷ rv_sll 5 5 6
      ∷ rv_srl rd.lo rd.lo rs.lo
      ∷ rv_or rd.lo 5 rd.lo
      ∷ rv_srl rd.hi rd.hi rs.lo
      ∷ []

  abbrev pub rsh_small : Rv
  rsh_small = run 20 rsh_rest (rv (tested f rs.lo 0 0 [] s.lo_above s.lo_below) 20)

  pub rsh_small-regs :
      f rs.lo < 32
      → (rsh_small.regs rd.hi ≡ f rd.hi / 2 ^ f rs.lo)
        × (rsh_small.regs rd.lo
            ≡ bit_or (f rd.hi * 2 % 2 ^ 32 * 2 ^ (31 - f rs.lo) % 2 ^ 32) (f rd.lo / 2 ^ f rs.lo))
        × ((r : ℕ) → Kept r → r ≢ rd.hi → r ≢ rd.lo → rsh_small.regs r ≡ f r)
        × (rsh_small.pc ≡ 48)
  unfolding run exec register_result immediate_result
  rsh_small-regs k =
      rw
        (
          decode-rv_addi 6 0 31 t1 z0,
          decode-rv_slli 5 rd.hi 1 t0 dh,
          decode-rv_sub 6 6 rs.lo t1 t1 sl,
          decode-rv_sll 5 5 6 t0 t0 t1,
          decode-rv_srl rd.lo rd.lo rs.lo dl dl sl,
          decode-rv_or rd.lo 5 rd.lo dl t0 dl,
          decode-rv_srl rd.hi rd.hi rs.lo dh dh sl,
        )
        (
          ground arith,
          ground arith,
          λ (r : ℕ) (a : Kept r) (b : r ≢ rd.hi) (c : r ≢ rd.lo). ground (arith, a, b, c),
          refl,
        )

  -- ARSH: the six words before the last
  abbrev pub arsh_start : List ℕ
  arsh_start =
      rv_addi 6 0 31
      ∷ rv_slli 5 rd.hi 1
      ∷ rv_sub 6 6 rs.lo
      ∷ rv_sll 5 5 6
      ∷ rv_srl rd.lo rd.lo rs.lo
      ∷ rv_or rd.lo 5 rd.lo
      ∷ []

  abbrev pub before_last : Rv
  before_last = run 20 arsh_start (rv (tested f rs.lo 0 0 [] s.lo_above s.lo_below) 20)

  pub before_last-regs :
      f rs.lo < 32
      → (before_last.regs rd.lo
          ≡ bit_or (f rd.hi * 2 % 2 ^ 32 * 2 ^ (31 - f rs.lo) % 2 ^ 32) (f rd.lo / 2 ^ f rs.lo))
        × ((r : ℕ) → Kept r → r ≢ rd.lo → before_last.regs r ≡ f r)
        × (before_last.pc ≡ 44)
  unfolding run exec register_result immediate_result
  before_last-regs k =
      rw
        (
          decode-rv_addi 6 0 31 t1 z0,
          decode-rv_slli 5 rd.hi 1 t0 dh,
          decode-rv_sub 6 6 rs.lo t1 t1 sl,
          decode-rv_sll 5 5 6 t0 t0 t1,
          decode-rv_srl rd.lo rd.lo rs.lo dl dl sl,
          decode-rv_or rd.lo 5 rd.lo dl t0 dl,
        )
        (ground arith, λ (r : ℕ) (a : Kept r) (c : r ≢ rd.lo). ground (arith, a, c), refl)

  last_word :
      (m : Rv)
      → m.pc ≡ 44
      → run 44 (rv_sra rd.hi rd.hi rs.lo ∷ []) m
        ≡ rv (set m.regs rd.hi (sar32 (get m.regs rd.hi) (get m.regs rs.lo % 32))) 48
  unfolding run exec register_result
  last_word m h = rw (h, decode-rv_sra rd.hi rd.hi rs.lo dh dh sl) refl

  abbrev pub arsh_rest : List ℕ
  arsh_rest =
      rv_addi 6 0 31
      ∷ rv_slli 5 rd.hi 1
      ∷ rv_sub 6 6 rs.lo
      ∷ rv_sll 5 5 6
      ∷ rv_srl rd.lo rd.lo rs.lo
      ∷ rv_or rd.lo 5 rd.lo
      ∷ rv_sra rd.hi rd.hi rs.lo
      ∷ []

  arsh_split :
      run 20 arsh_rest (rv (tested f rs.lo 0 0 [] s.lo_above s.lo_below) 20)
      ≡ run 44 (rv_sra rd.hi rd.hi rs.lo ∷ []) before_last
  unfolding run
  arsh_split = refl

  pub arsh_small :
      f rs.lo < 32
      → run 20 arsh_rest (rv (tested f rs.lo 0 0 [] s.lo_above s.lo_below) 20)
        ≡ rv (set before_last.regs rd.hi (sar32 (f rd.hi) (f rs.lo))) 48
  arsh_small k =
      let h : get before_last.regs rd.hi ≡ f rd.hi =
        ground (arith, (before_last-regs k).1 rd.hi (Kept-above rd.hi d.hi_above)) in
      let n : get before_last.regs rs.lo % 32 ≡ f rs.lo =
        ground (arith, (before_last-regs k).1 rs.lo (Kept-above rs.lo s.lo_above)) in
      arsh_split
      ∙ last_word before_last (before_last-regs k).2
      ∙ ap₂ (λ a b. rv (set before_last.regs rd.hi (sar32 a b)) 48) h n
