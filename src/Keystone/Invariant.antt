-- ===== src/Keystone/Invariant.antt =====
-- What holds of the enclave table and the PMP registers between two traps.
use serval_sosp.Base.{ℕ, ◌+◌, ◌*◌, ◌≤◌, ◌<◌, ◌≡◌, ◌≢◌, ◌⊎◌, true, if◌then◌else◌, ◌==◌, arith}
use serval_sosp.Base.Word.{shr64}
use serval_sosp.Machine.Csr.{Machine, pmpaddr, pmpcfg0, copy_csrs_lem}
use serval_sosp.Machine.Pmp.{pmpcfg_read}
use serval_sosp.Keystone.State.{
  State, Enclave, CpuState, nr_enclaves, max_payload_size, enclave_free, enclave_running, cpu_csrs,
  restore_cpu_state,
}
use serval_sosp.Keystone.Pmp.{offset_to_phys}
use serval_sosp.Keystone.Pmp.View.{View, view}

abbrev pub Live : State → ℕ → Type 0
Live s i = (s.enclaves i).status ≢ enclave_free

abbrev pub Runs : State → ℕ → Type 0
Runs s i = (s.enclaves i).status ≡ enclave_running

-- The secure regions have no byte in common.
abbrev pub Apart : Enclave → Enclave → Type 0
Apart e f = (e.secure_upper ≤ f.secure_lower) ⊎ (f.secure_upper ≤ e.secure_lower)

-- TOR with read, write and execute, with read and write, and with no permission.
abbrev pub open_cfg : ℕ
open_cfg = 15

abbrev pub shared_cfg : ℕ
shared_cfg = 11

abbrev pub closed_cfg : ℕ
closed_cfg = 8

module _ (base : ℕ) where
  -- The PMP entries of a range, as a pair of word addresses.
  abbrev pub range_view : ℕ → ℕ → ℕ → View
  range_view lower upper cfg = record {
    lower = shr64 (offset_to_phys base lower) 2;
    upper = shr64 (offset_to_phys base upper) 2;
    cfg = cfg;
  }

  -- The entries of an enclave: its secure region, open only while it runs.
  abbrev pub guard_of : Enclave → View
  guard_of e =
      range_view e.secure_lower e.secure_upper
        (if e.status == enclave_running then open_cfg else closed_cfg)

  -- The last entries: the shared region of the running enclave, or for the host the whole payload.
  abbrev pub rest_of : State → View
  rest_of s =
      if s.enclave_mode
      then range_view (s.enclaves s.current_enclave).shared_lower
          (s.enclaves s.current_enclave).shared_upper shared_cfg
      else range_view 0 max_payload_size open_cfg

  pub record IsValid (s : State) : Type 0 where
    pub region :
        (i : ℕ)
        → i < nr_enclaves
        → Live s i
        → ((s.enclaves i).secure_lower < (s.enclaves i).secure_upper)
          × ((s.enclaves i).secure_upper ≤ max_payload_size)
    pub empty :
        (i : ℕ)
        → i < nr_enclaves
        → (s.enclaves i).status ≡ enclave_free
        → ((s.enclaves i).secure_lower ≡ 0) × ((s.enclaves i).secure_upper ≡ 0)
    pub apart :
        (i j : ℕ)
        → i < nr_enclaves
        → j < nr_enclaves
        → i ≢ j
        → Live s i
        → Live s j
        → Apart (s.enclaves i) (s.enclaves j)
    pub mode_runs :
        s.enclave_mode ≡ true → (s.current_enclave < nr_enclaves) × Runs s s.current_enclave
    pub runs_mode :
        (i : ℕ) → i < nr_enclaves → Runs s i → (s.enclave_mode ≡ true) × (i ≡ s.current_enclave)
    pub guarded : (i : ℕ) → i < nr_enclaves → Live s i → view s.machine i ≡ guard_of (s.enclaves i)
    pub rest : view s.machine 3 ≡ rest_of s

-- Restoring a context changes none of the PMP registers.
pub view-restore_cpu_state :
    (m : Machine) (c : CpuState) (i : ℕ) → i < 4 → view (restore_cpu_state m c) i ≡ view m i
unfolding view restore_cpu_state pmpcfg_read
view-restore_cpu_state m c i h = ground (
  arith,
  copy_csrs_lem cpu_csrs c.saved m.csr (pmpaddr (2 * i)),
  copy_csrs_lem cpu_csrs c.saved m.csr (pmpaddr (2 * i + 1)),
  copy_csrs_lem cpu_csrs c.saved m.csr pmpcfg0,
)
