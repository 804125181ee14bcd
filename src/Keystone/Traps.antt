-- ===== src/Keystone/Traps.antt =====
-- monitors/keystone/traps.c, with the call numbers of include/uapi/keystone/syscalls.h, and the boot
-- code of monitors/keystone/main.c behind mcall_init.
use serval_sosp.Base.{
  ℕ, ◌-◌, ◌^◌, if◌then◌else◌, leb, ◌==◌, update, Outcome, returns, leaves, and_then,
}
use serval_sosp.Base.Word.{add64, neg64}
use serval_sosp.Machine.Regs.{PtRegs, a0, a1, a2, a3, a4, a5, a7}
use serval_sosp.Machine.Csr.{
  Machine, csr_write, csr_set, csr_clear, mepc, mstatus, mcounteren, medeleg, mideleg, sr_mpp,
  sr_mpp_s, sr_sxl, sr_sxl_64, sr_uxl, sr_uxl_64, edel_common, idel_s,
}
use serval_sosp.Machine.Mcall.{do_mcall, enosys, sbi_last}
use serval_sosp.Keystone.State.{State}
use serval_sosp.Keystone.Pmp.{remap_os_region}
use serval_sosp.Keystone.Enclave.{
  init_enclave, sys_create_enclave, sys_destroy_enclave, sys_run_enclave, sys_exit_enclave,
  sys_resume_enclave, on_machine,
}

abbrev pub nr_create_enclave : ℕ
nr_create_enclave = 9

abbrev pub nr_destroy_enclave : ℕ
nr_destroy_enclave = 10

abbrev pub nr_run_enclave : ℕ
nr_run_enclave = 11

abbrev pub nr_exit_enclave : ℕ
nr_exit_enclave = 12

abbrev pub nr_resume_enclave : ℕ
nr_resume_enclave = 13

-- `regs->a0 = r`, and the step over the ecall instruction unless the call was run_enclave.
unfoldable pub finish_trap : ℕ → ℕ → State → Outcome State
finish_trap nr r s =
    let m = record (s.machine) { frame = update s.machine.frame a0 r } in
    returns 0 (record s {
      machine = if nr == nr_run_enclave then m else csr_write m mepc (add64 (m.csr mepc) 4);
    })

module _ (payload_start : ℕ) where
  -- the switch of do_trap_ecall_s
  unfoldable pub syscall : State → PtRegs → Outcome State
  syscall s regs =
      let nr = regs a7 in
      if leb nr sbi_last
      then on_machine s (do_mcall s.machine regs)
      else if nr == nr_create_enclave
      then sys_create_enclave payload_start s (regs a0) (regs a1) (regs a2) (regs a3) (regs a4)
          (regs a5)
      else if nr == nr_destroy_enclave
      then sys_destroy_enclave s (regs a0)
      else if nr == nr_run_enclave
      then sys_run_enclave payload_start s (regs a0)
      else if nr == nr_exit_enclave
      then sys_exit_enclave payload_start s
      else if nr == nr_resume_enclave
      then sys_resume_enclave payload_start s (regs a0)
      else returns (neg64 enosys) s

  unfoldable pub do_trap_ecall_s : State → Outcome State
  do_trap_ecall_s s =
      let regs = s.machine.frame in and_then (syscall s regs) (finish_trap (regs a7))

  -- The writes of supervisor_init.
  unfoldable pub init_machine : Machine → Machine
  init_machine m0 =
      let m1 = csr_set (csr_clear m0 mstatus sr_mpp) mstatus sr_mpp_s in
      let m2 = csr_set (csr_clear m1 mstatus sr_sxl) mstatus sr_sxl_64 in
      let m3 = csr_set (csr_clear m2 mstatus sr_uxl) mstatus sr_uxl_64 in
      let m4 = csr_write m3 mcounteren (2 ^ 32 - 1) in
      let m5 = csr_write m4 medeleg edel_common in
      let m6 = csr_write m5 mideleg idel_s in csr_write m6 mepc payload_start

  -- The frame that supervisor_init passes to mret_with_regs.
  abbrev pub boot_regs : ℕ → ℕ → PtRegs
  boot_regs hartid dtb i = if i == a0 then hartid else if i == a1 then dtb else 0

  -- main, from init_enclave on, with the device tree that mcall_init has copied to `dtb`.
  unfoldable pub main : State → ℕ → ℕ → Outcome State
  unfolding init_machine
  main s hartid dtb =
      let s' = init_enclave s in
      and_then (on_machine s' (remap_os_region payload_start s'.machine)) λ _ t.
        let m = init_machine t.machine in
        leaves (record t { machine = record m { frame = boot_regs hartid dtb } })
