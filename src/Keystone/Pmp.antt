-- ===== src/Keystone/Pmp.antt =====
-- monitors/keystone/pmp.c. The address of _payload_start is a parameter that the linker chooses.
pub mod View
use serval_sosp.Base.{
  ℕ, zero, suc, ◌+◌, ◌-◌, ◌*◌, ◌%◌, ◌<◌, ◌≡◌, refl, if◌then◌else◌, ltb, ◌==◌, Outcome, returns, bug,
  and_then, bit_or, arith,
}
use serval_sosp.Base.Word.{add64}
use serval_sosp.Machine.Csr.{Machine, pmpaddr}
use serval_sosp.Machine.Pmp.{
  nr_pmp_entries, pmpaddr_write, pmpaddr_read, pmpcfg_write, pmpcfg_r, pmpcfg_w, pmpcfg_x,
  pmpcfg_a_tor, pmpcfg_a_off,
}
use serval_sosp.Keystone.State.{max_payload_size}

-- `__pmpaddr_write`: the eight cases, then BUG.
unfoldable pub write_pmpaddr : Machine → ℕ → ℕ → Outcome Machine
write_pmpaddr m nr addr =
    if ltb nr nr_pmp_entries then returns 0 (pmpaddr_write m (pmpaddr nr) addr) else bug

-- `__pmpaddr_read`
unfoldable pub read_pmpaddr : Machine → ℕ → Outcome Machine
read_pmpaddr m nr = if ltb nr nr_pmp_entries then returns (pmpaddr_read m (pmpaddr nr)) m else bug

-- The switch runs `k` on its result, or stops in BUG.
unfoldable pub eid_to_pmp_lower : ℕ → (ℕ → Outcome Machine) → Outcome Machine
eid_to_pmp_lower eid k =
    if eid == 0 then k 0 else if eid == 1 then k 2 else if eid == 2 then k 4 else bug

unfoldable pub eid_to_pmp_upper : ℕ → (ℕ → Outcome Machine) → Outcome Machine
unfolding eid_to_pmp_lower
eid_to_pmp_upper eid k = eid_to_pmp_lower eid (λ n. k (n + 1))

-- A pair of address writes for the entries of an enclave.
abbrev write_bounds : Machine → ℕ → ℕ → ℕ → Outcome Machine
write_bounds m i lower upper =
    and_then (eid_to_pmp_lower i (λ n. write_pmpaddr m n lower))
      (λ _ m'. eid_to_pmp_upper i (λ n. write_pmpaddr m' n upper))

unfoldable pub free_pmp_region : Machine → ℕ → Outcome Machine
unfolding eid_to_pmp_lower eid_to_pmp_upper write_pmpaddr
free_pmp_region m i = write_bounds m i 0 0

unfoldable pub chmod_pmp_region : Machine → ℕ → ℕ → Outcome Machine
unfolding eid_to_pmp_upper
chmod_pmp_region m i perm =
    eid_to_pmp_upper i (λ n. returns 0 (pmpcfg_write m n (bit_or pmpcfg_a_tor perm)))

-- One round of the loop of reset_pmp_state.
reset_entry : ℕ → Machine → Outcome Machine
unfolding write_pmpaddr
reset_entry i m =
    write_pmpaddr (pmpcfg_write m i (if i % 2 == 0 then pmpcfg_a_off else pmpcfg_a_tor)) i 0

-- The first `n` rounds.
reset_loop : ℕ → Machine → Outcome Machine
reset_loop zero m = returns 0 m
reset_loop (suc n) m = and_then (reset_loop n m) (λ _ m'. reset_entry n m')

unfoldable pub reset_pmp_state : Machine → Outcome Machine
unfolding reset_loop reset_entry
reset_pmp_state m = reset_loop nr_pmp_entries m

module _ (payload_start : ℕ) where
  -- `offset_to_phys`, by `offset_to_virt`
  abbrev pub offset_to_phys : ℕ → ℕ
  offset_to_phys offset = add64 payload_start offset

  unfoldable pub remap_pmp_region : Machine → ℕ → ℕ → ℕ → Outcome Machine
  unfolding eid_to_pmp_lower eid_to_pmp_upper write_pmpaddr
  remap_pmp_region m i lower upper = write_bounds m i (offset_to_phys lower) (offset_to_phys upper)

  -- The last two entries.
  abbrev write_last : Machine → ℕ → ℕ → ℕ → Outcome Machine
  write_last m lower upper perm =
      and_then (write_pmpaddr m (nr_pmp_entries - 2) (offset_to_phys lower)) λ _ m'.
        and_then (write_pmpaddr m' (nr_pmp_entries - 1) (offset_to_phys upper))
          λ _ m''. returns 0 (pmpcfg_write m'' (nr_pmp_entries - 1) (bit_or pmpcfg_a_tor perm))

  unfoldable pub remap_os_region : Machine → Outcome Machine
  unfolding write_pmpaddr
  remap_os_region m = write_last m 0 max_payload_size (bit_or (bit_or pmpcfg_r pmpcfg_w) pmpcfg_x)

  unfoldable pub remap_shared_region : Machine → ℕ → ℕ → Outcome Machine
  unfolding write_pmpaddr
  remap_shared_region m lower upper = write_last m lower upper (bit_or pmpcfg_r pmpcfg_w)
