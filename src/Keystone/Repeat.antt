-- ===== src/Keystone/Repeat.antt =====
-- monitors/keystone/traps.c: what follows a refused sys_run_enclave, which the trap handler does not
-- step over.
use serval_sosp.Base.{ℕ, ◌≡◌, refl, ◌∙◌, ap, update, update-update, arith, returns}
use serval_sosp.Base.Word.{neg64}
use serval_sosp.Machine.Regs.{PtRegs, a0, a7}
use serval_sosp.Machine.Csr.{mepc}
use serval_sosp.Machine.Mcall.{einval}
use serval_sosp.Keystone.State.{State}
use serval_sosp.Keystone.Traps.{do_trap_ecall_s, syscall, finish_trap}
use serval_sosp.Keystone.Run.{MayRun, sys_run_enclave-refuses}

module _ (base : ℕ) where
  -- The state behind a refused sys_run_enclave.
  abbrev stuck : State → State
  stuck s = record s {
    machine = record (s.machine) { frame = update s.machine.frame a0 (neg64 einval) };
  }

  stuck_twice : (s : State) → stuck (stuck s) ≡ stuck s
  stuck_twice s =
      ap (λ (f : PtRegs). record s { machine = record (s.machine) { frame = f } })
        (update-update s.machine.frame a0 (neg64 einval) (neg64 einval))

  refused_run :
      (s : State)
      → s.machine.frame a7 ≡ 11
      → ¬ MayRun s (s.machine.frame a0)
      → do_trap_ecall_s base s ≡ returns 0 (stuck s)
  unfolding do_trap_ecall_s syscall finish_trap
  refused_run s e no_way = simp (e, sys_run_enclave-refuses base s (s.machine.frame a0) no_way)

  -- A refused sys_run_enclave is not stepped over: the trap returns to the same ecall, whose
  -- argument is now -EINVAL, and every further trap is refused and changes nothing.
  pub refused_run_repeats :
      (s : State)
      → s.machine.frame a7 ≡ 11
      → ¬ MayRun s (s.machine.frame a0)
      → (t : State) × (do_trap_ecall_s base s ≡ returns 0 t)
        × (t.machine.csr mepc ≡ s.machine.csr mepc)
        × (do_trap_ecall_s base t ≡ returns 0 t)
  refused_run_repeats s e no_way = (stuck s, first, refl, again)
    where
      first : do_trap_ecall_s base s ≡ returns 0 (stuck s)
      first = refused_run s e no_way

      again : do_trap_ecall_s base (stuck s) ≡ returns 0 (stuck s)
      again =
          refused_run (stuck s) e (λ m. omega (arith, m.eid_in)) ∙ ap (returns 0) (stuck_twice s)
