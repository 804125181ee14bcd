-- ===== src/Keystone/Trap.antt =====
-- do_trap_ecall_s and main as a whole.
use serval_sosp.Base.{
  ℕ, ◌<◌, ◌≡◌, inl, inr, refl, ◌∙◌, false, ◌==◌, arith, lift, leaves, Ends, Ends-lift, Ends-mono,
  Ends-and_then, Bool-cases,
}
use serval_sosp.Machine.Regs.{PtRegs, a0, a1, a2, a3, a4, a5, a7}
use serval_sosp.Machine.Csr.{Machine, csr_write, csr_set, csr_clear, mepc}
use serval_sosp.Machine.Pmp.{pmpcfg_read}
use serval_sosp.Machine.Mcall.{do_mcall, do_mcall-csr}
use serval_sosp.Keystone.State.{State, max_payload_size}
use serval_sosp.Keystone.Pmp.{offset_to_phys}
use serval_sosp.Keystone.Pmp.View.{
  view, set_bounds, set_perm, view-set_bounds, view-set_perm, remap_os_region_lem,
}
use serval_sosp.Keystone.Enclave.{
  init_enclave, sys_create_enclave, sys_destroy_enclave, sys_resume_enclave, sys_run_enclave,
  sys_exit_enclave,
}
use serval_sosp.Keystone.Traps.{
  do_trap_ecall_s, syscall, finish_trap, main, init_machine, boot_regs,
}
use serval_sosp.Keystone.Invariant.{IsValid, rest_of}
use serval_sosp.Keystone.Create.{sys_create_enclave-cases}
use serval_sosp.Keystone.Create.Valid.{create_state-IsValid}
use serval_sosp.Keystone.Destroy.{sys_destroy_enclave-cases, destroy_state-IsValid}
use serval_sosp.Keystone.Resume.{sys_resume_enclave-cases, resume_state-IsValid}
use serval_sosp.Keystone.Run.{sys_run_enclave-cases, run_state-IsValid}
use serval_sosp.Keystone.Exit.{
  sys_exit_enclave-accepts, sys_exit_enclave-refuses, exit_state-IsValid,
}

-- The view of the PMP registers depends on the control registers alone.
view-csr : (m n : Machine) (i : ℕ) → m.csr ≡ n.csr → view m i ≡ view n i
unfolding view pmpcfg_read
view-csr m n i e = rw e refl

view-csr_write : (m : Machine) (v i : ℕ) → i < 4 → view (csr_write m mepc v) i ≡ view m i
unfolding view csr_write pmpcfg_read
view-csr_write m v i h = ground arith

module _ (base : ℕ) where
  IsValid-view :
      (s : State) (m : Machine)
      → IsValid base s
      → ((i : ℕ) → i < 4 → view m i ≡ view s.machine i)
      → IsValid base (record s { machine = m })
  IsValid-view s m v same = record {
    region = v.region;
    empty = v.empty;
    apart = v.apart;
    mode_runs = v.mode_runs;
    runs_mode = v.runs_mode;
    guarded = λ i h l. same i (omega arith) ∙ v.guarded i h l;
    rest = same 3 (omega arith) ∙ v.rest;
  }

  finish_trap-Ends :
      (nr r : ℕ) (s : State) → IsValid base s → Ends (IsValid base) (finish_trap nr r s)
  unfolding finish_trap
  finish_trap-Ends nr r s v = IsValid-view s _ v λ i h. elim (Bool-cases (nr == 11)) [
    | inl e ↦ rw e (view-csr _ s.machine i refl)
    | inr e ↦ rw e (view-csr_write _ _ i h ∙ view-csr _ s.machine i refl)
  ]

  module _ (s : State) (v : IsValid base s) where
    mcall-Ends :
        (regs : PtRegs)
        → Ends (IsValid base) (lift (λ m. record s { machine = m }) (do_mcall s.machine regs))
    mcall-Ends regs =
        Ends-lift (λ m. record s { machine = m }) (IsValid base) (do_mcall s.machine regs)
          (Ends-mono (λ m. m.csr ≡ s.machine.csr) (λ m. IsValid base (record s { machine = m }))
            (do_mcall s.machine regs) (λ m e. IsValid-view s m v (λ i h. view-csr m s.machine i e))
            (do_mcall-csr s.machine regs))

    create-Ends :
        (eid entry lower upper shared_lower shared_upper : ℕ)
        → Ends
            (IsValid base)
            (sys_create_enclave base s eid entry lower upper shared_lower shared_upper)
    create-Ends i e a b c d = elim (sys_create_enclave-cases base s i e a b c d) [
      | inl (m, q) ↦ rw q (create_state-IsValid base s i e a b c d v m)
      | inr q ↦ rw q v
    ]

    destroy-Ends : (eid : ℕ) → Ends (IsValid base) (sys_destroy_enclave s eid)
    destroy-Ends i = elim (sys_destroy_enclave-cases base s i v) [
      | inl (m, q) ↦ rw q (destroy_state-IsValid base s i v m)
      | inr q ↦ rw q v
    ]

    resume-Ends : (eid : ℕ) → Ends (IsValid base) (sys_resume_enclave base s eid)
    resume-Ends i = elim (sys_resume_enclave-cases base s i) [
      | inl (m, q) ↦ rw q (resume_state-IsValid base s i v m)
      | inr q ↦ rw q v
    ]

    run-Ends : (eid : ℕ) → Ends (IsValid base) (sys_run_enclave base s eid)
    run-Ends i = elim (sys_run_enclave-cases base s i) [
      | inl (m, q) ↦ rw q (run_state-IsValid base s i v m)
      | inr q ↦ rw q v
    ]

    exit-Ends : Ends (IsValid base) (sys_exit_enclave base s)
    exit-Ends = elim (Bool-cases s.enclave_mode) [
      | inl e ↦
          rw (sys_exit_enclave-accepts base s e (v.mode_runs e).0) (exit_state-IsValid base s v e)
      | inr e ↦ rw (sys_exit_enclave-refuses base s e) v
    ]

    syscall-Ends : (regs : PtRegs) → Ends (IsValid base) (syscall base s regs)
    unfolding syscall
    syscall-Ends regs = ground (
      arith,
      mcall-Ends regs,
      create-Ends (regs a0) (regs a1) (regs a2) (regs a3) (regs a4) (regs a5),
      destroy-Ends (regs a0),
      run-Ends (regs a0),
      exit-Ends,
      resume-Ends (regs a0),
    )

    -- A trap from a valid state ends in a valid state, without BUG and without an access out of
    -- bounds.
    pub keystone_trap-IsValid : Ends (IsValid base) (do_trap_ecall_s base s)
    unfolding do_trap_ecall_s
    keystone_trap-IsValid =
        Ends-and_then (IsValid base) (syscall base s s.machine.frame)
          (finish_trap (s.machine.frame a7)) (syscall-Ends s.machine.frame)
          (finish_trap-Ends (s.machine.frame a7))

  -- The writes of supervisor_init leave the PMP registers alone.
  view-init_machine : (m : Machine) (i : ℕ) → i < 4 → view (init_machine base m) i ≡ view m i
  unfolding view init_machine csr_write csr_set csr_clear pmpcfg_read
  view-init_machine m i h = ground arith

  -- main ends by leaving for the host, in a valid state, whatever memory and machine held.
  pub keystone_main-IsValid :
      (s : State) (hartid dtb : ℕ)
      → (t : State) × (main base s hartid dtb ≡ leaves t)
        × IsValid base t
        × (t.enclave_mode ≡ false)
  unfolding main init_enclave
  keystone_main-IsValid s hartid dtb =
      rw (remap_os_region_lem base s.machine) (_, refl, valid, refl)
    where
      last :
          (m : Machine)
          → view
              (set_perm
                (set_bounds m 3 (offset_to_phys base 0) (offset_to_phys base max_payload_size))
                3
                7)
              3
            ≡ rest_of base (init_enclave s)
      last m = ground (
        arith,
        view-set_perm
            (set_bounds m 3 (offset_to_phys base 0) (offset_to_phys base max_payload_size)) 3 3 7,
        view-set_bounds m 3 3 (offset_to_phys base 0) (offset_to_phys base max_payload_size),
      )

      booted : Machine
      booted =
          set_perm
            (set_bounds s.machine 3 (offset_to_phys base 0) (offset_to_phys base max_payload_size))
            3 7

      valid : IsValid base (record (init_enclave s) {
        machine = record (init_machine base booted) { frame = boot_regs base hartid dtb };
      })
      valid = record {
        region = λ i h l. ground arith;
        empty = λ i h e. ground arith;
        apart = λ i j hi hj ne li lj. ground arith;
        mode_runs = λ e. cc;
        runs_mode = λ i h r. ground arith;
        guarded = λ i h l. ground arith;
        rest =
            view-csr _ (init_machine base booted) 3 refl
            ∙ view-init_machine booted 3 (omega arith)
            ∙ last s.machine;
      }
