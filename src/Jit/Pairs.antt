-- ===== src/Jit/Pairs.antt =====
-- bpf/jit/bpf_jit_comp32.c: the BPF registers that live in RV32 registers; their pairs are apart, and used
-- as they are.
use serval_sosp.Base.{
  ℕ, ◌<◌, ◌≡◌, ◌≢◌, refl, ap, ◌⊎◌, Bool, true, false, not, ◌&&◌, ◌||◌, List, [], ◌∷◌, ◌++◌, ltb,
  leb, ◌==◌, arith,
}
use serval_sosp.Base.Bits.{all_below, all_below_sound}
use serval_sosp.Jit.Regs.{Pair, bpf2rv32, is_stacked}
use serval_sosp.Jit.Emit.{rv32_bpf_get_reg64, load_reg64, rv32_bpf_put_reg64}
use serval_sosp.Jit.Alu.{alu_r64, emit_rv32_alu_r64}
use serval_sosp.Jit.Correct.{IsPair}

-- R0 to R5 and the frame pointer
unfoldable pub in_register : ℕ → Bool
in_register r = leb r 5 || r == 10

usable : ℕ → ℕ → Bool
usable r s =
    let d = bpf2rv32 r in
    let e = bpf2rv32 s in
    not (in_register r)
    || not (in_register s)
    || (ltb 6 d.hi
        && ltb d.hi 32
        && ltb 6 d.lo
        && ltb d.lo 32
        && not (d.hi == d.lo)
        && ltb 6 e.hi
        && ltb e.hi 32
        && ltb 6 e.lo
        && ltb e.lo 32
        && not (e.hi == e.lo)
        && not (e.hi == d.lo)
        && not (e.lo == d.hi)
        && (r == s || not (e.lo == d.lo)))

usable_table : all_below 11 (λ r. all_below 11 (usable r)) ≡ true
unfolding all_below usable in_register bpf2rv32
usable_table = refl

pub in_register-small : (r : ℕ) → in_register r ≡ true → r < 11
unfolding in_register
in_register-small r h = ground arith

usable_pairs : (r s : ℕ) → in_register r ≡ true → in_register s ≡ true → usable r s ≡ true
usable_pairs r s h k =
    all_below_sound 11 (usable r) s
      (all_below_sound 11 (λ r. all_below 11 (usable r)) r usable_table (in_register-small r h))
      (in_register-small s k)

pub pairs :
    (r s : ℕ)
    → in_register r ≡ true
    → in_register s ≡ true
    → IsPair (bpf2rv32 r)
      × IsPair (bpf2rv32 s)
      × ((bpf2rv32 s).hi ≢ (bpf2rv32 r).lo)
      × ((bpf2rv32 s).lo ≢ (bpf2rv32 r).hi)
      × ((r ≡ s) ⊎ ((bpf2rv32 s).lo ≢ (bpf2rv32 r).lo))
unfolding usable
pairs r s h k =
    let u = usable_pairs r s h k in
    let d : IsPair (bpf2rv32 r) = record {
      hi_above = ground (arith, u);
      hi_below = ground (arith, u);
      lo_above = ground (arith, u);
      lo_below = ground (arith, u);
      distinct = ground (arith, u);
    } in
    let e : IsPair (bpf2rv32 s) = record {
      hi_above = ground (arith, u);
      hi_below = ground (arith, u);
      lo_above = ground (arith, u);
      lo_below = ground (arith, u);
      distinct = ground (arith, u);
    } in
    (d, e, ground (arith, u), ground (arith, u), ground (arith, u))

append-nil : (xs : List ℕ) → xs ++ [] ≡ xs
append-nil [] = refl
append-nil (x ∷ xs) = ap (λ t. x ∷ t) (append-nil xs)

-- Pairs of registers are used as they are.
pub emit_rv32_alu_r64-pairs :
    (d s : Pair) (op : ℕ) → IsPair d → IsPair s → emit_rv32_alu_r64 d s op ≡ alu_r64 d s op
unfolding emit_rv32_alu_r64 rv32_bpf_get_reg64 load_reg64 rv32_bpf_put_reg64 is_stacked
emit_rv32_alu_r64-pairs d s op x y =
    let a : leb 128 d.hi ≡ false = ground arith in
    let b : leb 128 s.hi ≡ false = ground arith in rw (a, b) (append-nil (alu_r64 d s op))
