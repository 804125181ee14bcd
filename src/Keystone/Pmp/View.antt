-- ===== src/Keystone/Pmp/View.antt =====
-- What the PMP code of an enclave does to the registers of that enclave, and of the others.
use serval_sosp.Base.{
  ℕ, ◌+◌, ◌*◌, ◌<◌, ◌≡◌, refl, if◌then◌else◌, ◌==◌, ltb, ltb→lt, true, returns, bit_or, arith, inl,
  inr, ◌⊎◌,
}
use serval_sosp.Base.Bits.{all_below, all_below_sound}
use serval_sosp.Base.Word.{shr64}
use serval_sosp.Machine.Csr.{Machine, pmpaddr, csr_write}
use serval_sosp.Machine.Pmp.{pmpaddr_write, pmpcfg_read, pmpcfg_write, pmpcfg_a_tor}
use serval_sosp.Machine.Pmp.Fields.{pmpcfg_read-pmpcfg_write, pmpcfg_write-csr}
use serval_sosp.Keystone.State.{nr_enclaves, max_payload_size}
use serval_sosp.Keystone.Pmp.{
  free_pmp_region, chmod_pmp_region, remap_pmp_region, remap_os_region, remap_shared_region,
  offset_to_phys,
}

-- The machine with the address registers of entries `2 * i` and `2 * i + 1` written.
unfoldable pub set_bounds : Machine → ℕ → ℕ → ℕ → Machine
set_bounds m i lower upper =
    pmpaddr_write (pmpaddr_write m (pmpaddr (2 * i)) lower) (pmpaddr (2 * i + 1)) upper

-- The machine with the configuration of entry `2 * i + 1` written.
unfoldable pub set_perm : Machine → ℕ → ℕ → Machine
set_perm m i perm = pmpcfg_write m (2 * i + 1) (bit_or pmpcfg_a_tor perm)

pub eid_cases : (i : ℕ) → i < nr_enclaves → (i ≡ 0) ⊎ ((i ≡ 1) ⊎ (i ≡ 2))
eid_cases i h = ground arith

pub free_pmp_region_lem :
    (m : Machine) (i : ℕ) → i < nr_enclaves → free_pmp_region m i ≡ returns 0 (set_bounds m i 0 0)
unfolding free_pmp_region set_bounds
free_pmp_region_lem m i h = elim (eid_cases i h) [
  | inl e ↦ rw e refl
  | inr (inl e) ↦ rw e refl
  | inr (inr e) ↦ rw e refl
]

pub chmod_pmp_region_lem :
    (m : Machine) (i perm : ℕ)
    → i < nr_enclaves
    → chmod_pmp_region m i perm ≡ returns 0 (set_perm m i perm)
unfolding chmod_pmp_region set_perm
chmod_pmp_region_lem m i perm h = elim (eid_cases i h) [
  | inl e ↦ rw e refl
  | inr (inl e) ↦ rw e refl
  | inr (inr e) ↦ rw e refl
]

module _ (base : ℕ) where
  pub remap_pmp_region_lem :
      (m : Machine) (i lower upper : ℕ)
      → i < nr_enclaves
      → remap_pmp_region base m i lower upper
        ≡ returns 0 (set_bounds m i (offset_to_phys base lower) (offset_to_phys base upper))
  unfolding remap_pmp_region set_bounds
  remap_pmp_region_lem m i lower upper h = elim (eid_cases i h) [
    | inl e ↦ rw e refl
    | inr (inl e) ↦ rw e refl
    | inr (inr e) ↦ rw e refl
  ]

  pub remap_os_region_lem :
      (m : Machine)
      → remap_os_region base m
        ≡ returns 0 (
            set_perm
              (set_bounds m 3 (offset_to_phys base 0) (offset_to_phys base max_payload_size))
              3
              7)
  unfolding remap_os_region set_perm set_bounds
  remap_os_region_lem m = refl

  pub remap_shared_region_lem :
      (m : Machine) (lower upper : ℕ)
      → remap_shared_region base m lower upper
        ≡ returns 0
            (set_perm (set_bounds m 3 (offset_to_phys base lower) (offset_to_phys base upper)) 3 3)
  unfolding remap_shared_region set_perm set_bounds
  remap_shared_region_lem m lower upper = refl

-- What the PMP registers say of the pair of entries `2 * i` and `2 * i + 1`.
pub record View : Type 0 where
  pub lower : ℕ
  pub upper : ℕ
  pub cfg : ℕ

unfoldable pub view : Machine → ℕ → View
view m i = record {
  lower = m.csr (pmpaddr (2 * i));
  upper = m.csr (pmpaddr (2 * i + 1));
  cfg = pmpcfg_read m (2 * i + 1);
}

pub view-set_bounds :
    (m : Machine) (i j lower upper : ℕ)
    → i < 4
    → j < 4
    → view (set_bounds m i lower upper) j ≡ (
        if i == j
        then record (view m j) { lower = shr64 lower 2; upper = shr64 upper 2 }
        else view m j)
unfolding view set_bounds pmpaddr_write csr_write pmpcfg_read
view-set_bounds m i j lower upper hi hj = ground arith

perm_table : all_below 8 (λ p. ltb (bit_or pmpcfg_a_tor p) 256) ≡ true
unfolding all_below
perm_table = refl

perm_byte : (perm : ℕ) → perm < 8 → bit_or pmpcfg_a_tor perm < 256
perm_byte perm h = ltb→lt _ _ (all_below_sound 8 _ perm perm_table h)

pub view-set_perm :
    (m : Machine) (i j perm : ℕ)
    → i < 4
    → j < 4
    → perm < 8
    → view (set_perm m i perm) j
      ≡ (if i == j then record (view m j) { cfg = bit_or pmpcfg_a_tor perm } else view m j)
unfolding view set_perm
view-set_perm m i j perm hi hj hp = ground (
  arith,
  pmpcfg_read-pmpcfg_write m (2 * i + 1) (2 * j + 1) (bit_or pmpcfg_a_tor perm),
  pmpcfg_write-csr m (2 * i + 1) (bit_or pmpcfg_a_tor perm) (pmpaddr (2 * j)),
  pmpcfg_write-csr m (2 * i + 1) (bit_or pmpcfg_a_tor perm) (pmpaddr (2 * j + 1)),
  perm_byte perm hp,
)
