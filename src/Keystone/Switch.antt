-- ===== src/Keystone/Switch.antt =====
-- The traps that switch between the host and an enclave, in monitors/keystone/traps.c and enclave.c,
-- and what the enclave can do in between.
use serval_sosp.Base.{ℕ, ◌<◌, ◌≡◌, true, update, returns}
use serval_sosp.Base.Word.{add64}
use serval_sosp.Machine.Regs.{a0, a7}
use serval_sosp.Machine.Csr.{Machine, csr_write, mepc}
use serval_sosp.Keystone.State.{State, Enclave, nr_enclaves}
use serval_sosp.Keystone.Traps.{
  do_trap_ecall_s, syscall, finish_trap, nr_exit_enclave, nr_resume_enclave,
}
use serval_sosp.Keystone.Resume.{MayResume, resume_state, sys_resume_enclave-accepts}
use serval_sosp.Keystone.Exit.{exit_state, sys_exit_enclave-accepts}

-- Behind a call that answers 0: 0 is in a0, and the program counter is behind the ecall.
abbrev pub answered : State → State
answered s = record s {
  machine =
      csr_write (record (s.machine) { frame = update s.machine.frame a0 0 }) mepc
        (add64 (s.machine.csr mepc) 4);
}

module _ (base : ℕ) where
  pub resume-trap :
      (s : State)
      → s.machine.frame a7 ≡ nr_resume_enclave
      → MayResume s (s.machine.frame a0)
      → do_trap_ecall_s base s ≡ returns 0 (answered (resume_state base s (s.machine.frame a0)))
  unfolding do_trap_ecall_s syscall finish_trap
  resume-trap s e m = simp (e, sys_resume_enclave-accepts base s (s.machine.frame a0) m)

  pub exit-trap :
      (s : State)
      → s.machine.frame a7 ≡ nr_exit_enclave
      → s.enclave_mode ≡ true
      → s.current_enclave < nr_enclaves
      → do_trap_ecall_s base s ≡ returns 0 (answered (exit_state base s))
  unfolding do_trap_ecall_s syscall finish_trap
  exit-trap s e m h = simp (e, sys_exit_enclave-accepts base s m h)

  -- What is left alone as long as the monitor is in enclave mode.
  abbrev Still : State → State → Type 0
  Still s t =
      t.enclave_mode ≡ true
      → (t.host_state ≡ s.host_state) × (t.current_enclave ≡ s.current_enclave)

  -- What an enclave does between its start and its exit: it changes the registers and the memory of
  -- the payload at will, and traps into the monitor, which stays in enclave mode.
  pub data Inside (s : State) : State → Type 0 where
    entered : Inside s s
    computes :
        {t : State} (m : Machine) (payload : ℕ → ℕ)
        → Inside s t
        → Inside s (record t { machine = m; payload = payload })
    traps :
        {t : State} (r : ℕ) (u : State)
        → Inside s t
        → do_trap_ecall_s base t ≡ returns r u
        → u.enclave_mode ≡ true
        → Inside s u
