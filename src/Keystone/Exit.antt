-- ===== src/Keystone/Exit.antt =====
-- sys_exit_enclave: back to the host, and the invariant.
use serval_sosp.Base.{
  ℕ, ◌<◌, ◌≡◌, refl, true, false, if◌then◌else◌, ◌==◌, lt→ltb, update, arith, returns,
}
use serval_sosp.Base.Word.{neg64, shr64}
use serval_sosp.Machine.Csr.{Machine}
use serval_sosp.Machine.Mcall.{einval}
use serval_sosp.Keystone.State.{
  State, nr_enclaves, max_payload_size, enclave_idle, save_cpu_state, restore_cpu_state,
}
use serval_sosp.Keystone.Pmp.{offset_to_phys}
use serval_sosp.Keystone.Pmp.View.{
  view, set_bounds, set_perm, view-set_bounds, view-set_perm, chmod_pmp_region_lem,
  remap_os_region_lem,
}
use serval_sosp.Keystone.Enclave.{sys_exit_enclave}
use serval_sosp.Keystone.Invariant.{IsValid, view-restore_cpu_state}

module _ (base : ℕ) where
  module _ (s : State) where
    -- The state that sys_exit_enclave leaves: the host's context is back, and the region closed.
    unfoldable pub exit_machine : Machine
    exit_machine =
        set_perm
          (set_bounds (set_perm (restore_cpu_state s.machine s.host_state) s.current_enclave 0) 3
            (offset_to_phys base 0) (offset_to_phys base max_payload_size))
          3 7

    unfoldable pub exit_state : State
    unfolding exit_machine
    exit_state =
        let e = s.enclaves s.current_enclave in
        record s {
          enclave_mode = false;
          current_enclave = neg64 1;
          enclaves = update s.enclaves s.current_enclave (record e {
            status = enclave_idle;
            encl_state = save_cpu_state s.machine e.encl_state;
          });
          machine = exit_machine;
        }

    pub sys_exit_enclave-accepts :
        s.enclave_mode ≡ true
        → s.current_enclave < nr_enclaves
        → sys_exit_enclave base s ≡ returns 0 exit_state
    unfolding sys_exit_enclave exit_state
    sys_exit_enclave-accepts e inside = simp (
      e,
      lt→ltb s.current_enclave nr_enclaves inside,
      chmod_pmp_region_lem (restore_cpu_state s.machine s.host_state) s.current_enclave 0 inside,
      remap_os_region_lem base
          (set_perm (restore_cpu_state s.machine s.host_state) s.current_enclave 0),
    )

    pub sys_exit_enclave-refuses :
        s.enclave_mode ≡ false → sys_exit_enclave base s ≡ returns (neg64 einval) s
    unfolding sys_exit_enclave
    sys_exit_enclave-refuses e = rw e refl

    view-exit :
        (i : ℕ)
        → s.current_enclave < nr_enclaves
        → i < 4
        → view exit_machine i ≡ (
            if i == 3
            then record {
              lower = shr64 (offset_to_phys base 0) 2;
              upper = shr64 (offset_to_phys base max_payload_size) 2;
              cfg = 15;
            }
            else if s.current_enclave == i
            then record (view s.machine i) { cfg = 8 }
            else view s.machine i)
    unfolding exit_machine
    view-exit i h hi = ground (
      arith,
      view-set_perm
          (set_bounds (set_perm restored s.current_enclave 0) 3 (offset_to_phys base 0)
            (offset_to_phys base max_payload_size))
          3 i 7,
      view-set_bounds (set_perm restored s.current_enclave 0) 3 i (offset_to_phys base 0)
          (offset_to_phys base max_payload_size),
      view-set_perm restored s.current_enclave i 0,
      view-restore_cpu_state s.machine s.host_state i,
    )
      where
        restored : Machine
        restored = restore_cpu_state s.machine s.host_state

    pub exit_state-IsValid : IsValid base s → s.enclave_mode ≡ true → IsValid base exit_state
    unfolding exit_state
    exit_state-IsValid v e =
        let (inside, running) = v.mode_runs e in
        record {
          region = λ i h l. ground (arith, v.region i h, running);
          empty = λ i h f. ground (arith, v.empty i h);
          apart = λ i j hi hj ne li lj. ground (arith, v.apart i j hi hj ne, running);
          mode_runs = λ f. cc;
          runs_mode = λ i h r. ground (arith, v.runs_mode i h);
          guarded =
              λ i h l. ground (arith, view-exit i inside, v.guarded i h, running, v.runs_mode i h);
          rest = ground (arith, view-exit 3 inside);
        }
