-- ===== src/Komodo/Traps.antt =====
-- monitors/komodo/traps.c, the call numbers of include/uapi/komodo, init_monitor of monitor.c and
-- the boot code of monitors/komodo/main.c.
use serval_sosp.Base.{
  ℕ, ◌+◌, ◌-◌, ◌^◌, false, ◌&&◌, if◌then◌else◌, ltb, leb, ◌==◌, update, bit_and, bit_or, Outcome,
  returns, leaves, bug, and_then, lift,
}
use serval_sosp.Base.Word.{add64, neg64}
use serval_sosp.Machine.Regs.{PtRegs, a0, a1, a2, a3, a4, a7}
use serval_sosp.Machine.Csr.{
  Machine, csr_write, mepc, mstatus, mcounteren, medeleg, mideleg, pmpaddr, sr_mpp, sr_mpp_s,
  sr_mpp_m, sr_mpp_u, edel_common, idel_s,
}
use serval_sosp.Machine.Mcall.{do_mcall, enosys, sbi_last}
use serval_sosp.Machine.Pmp.{
  pmpaddr_write, pmpcfg_write, pmpcfg_a_off, pmpcfg_a_tor, pmpcfg_r, pmpcfg_w, pmpcfg_x,
}
use serval_sosp.Komodo.State.{
  State, Layout, kom_secure_npages, kom_secure_reserve, kom_insecure_reserve, page_words,
}
use serval_sosp.Komodo.Monitor.{
  kom_smc_init_addrspace, kom_smc_init_dispatcher, kom_smc_init_l2ptable, kom_smc_init_l3ptable,
  kom_smc_map_secure, kom_smc_map_insecure, kom_smc_remove, kom_smc_finalise, kom_smc_stop,
}
use serval_sosp.Komodo.World.{kom_smc_enter, kom_smc_resume, kom_svc_exit, kom_handle_trap}

abbrev pub kom_magic : ℕ
kom_magic = 0x4b6d_646f

abbrev pub exc_ecall_s : ℕ
exc_ecall_s = 9

abbrev pub kom_svc_exit_nr : ℕ
kom_svc_exit_nr = 30

-- `csr_write(mepc, csr_read(mepc) + 4)`
unfoldable pub step_over : State → State
step_over s = record s { machine = csr_write s.machine mepc (add64 (s.machine.csr mepc) 4) }

-- `regs->a0 = r`
unfoldable pub answer : ℕ → State → Outcome State
answer r s =
    returns 0 (record s { machine = record (s.machine) { frame = update s.machine.frame a0 r } })

module _ (l : Layout) where
  -- the switch of do_smc_calls
  unfoldable pub smc_call : State → PtRegs → Outcome State
  smc_call s regs =
      let nr = regs a7 in
      if leb nr sbi_last
      then lift (λ m. record s { machine = m }) (do_mcall s.machine regs)
      else if nr == 10
      then returns kom_magic s
      else if nr == 11
      then returns kom_secure_npages s
      else if nr == 12
      then kom_smc_init_addrspace s (regs a0) (regs a1)
      else if nr == 13
      then kom_smc_init_dispatcher l s (regs a0) (regs a1) (regs a2)
      else if nr == 14
      then kom_smc_init_l2ptable l s (regs a0) (regs a1) (regs a2)
      else if nr == 15
      then kom_smc_init_l3ptable l s (regs a0) (regs a1) (regs a2)
      else if nr == 16
      then kom_smc_map_secure l s (regs a0) (regs a1) (regs a2) (regs a3) (regs a4)
      else if nr == 17
      then kom_smc_map_insecure l s (regs a0) (regs a1) (regs a2) (regs a3)
      else if nr == 20
      then kom_smc_remove s (regs a0)
      else if nr == 21
      then kom_smc_finalise s (regs a0)
      else if nr == 22
      then kom_smc_enter s (regs a0) (regs a1) (regs a2) (regs a3)
      else if nr == 23
      then kom_smc_resume s (regs a0)
      else if nr == 29
      then kom_smc_stop s (regs a0)
      else returns (neg64 enosys) s

  unfoldable pub do_smc_calls : State → Outcome State
  do_smc_calls s = and_then (smc_call (step_over s) s.machine.frame) answer

  unfoldable pub do_svc_calls : State → Outcome State
  do_svc_calls s =
      let s' = step_over s in
      let regs = s.machine.frame in
      and_then
        (if regs a7 == kom_svc_exit_nr
          then kom_svc_exit s' (regs a0)
          else returns (neg64 enosys) s')
        answer

  unfoldable pub do_trap_ecall_s : State → Outcome State
  do_trap_ecall_s s =
      let mpp = bit_and (s.machine.csr mstatus) sr_mpp in
      if mpp == sr_mpp_m
      then bug
      else if mpp == sr_mpp_u
      then bug
      else if s.enclave_mode
      then do_svc_calls s
      else do_smc_calls s

  unfoldable pub do_trap : State → ℕ → Outcome State
  do_trap s cause =
      if cause == exc_ecall_s
      then do_trap_ecall_s s
      else if s.enclave_mode
      then and_then (kom_handle_trap s cause) (λ _ t. returns 0 t)
      else returns 0 s

  unfoldable pub pmp_init : Machine → Machine
  pmp_init m0 =
      let rwx = bit_or (bit_or pmpcfg_r pmpcfg_w) pmpcfg_x in
      let m1 = pmpaddr_write m0 (pmpaddr 2) l.payload_start in
      let m2 = pmpaddr_write m1 (pmpaddr 3) (l.payload_start + kom_insecure_reserve) in
      let m3 = pmpcfg_write m2 2 pmpcfg_a_off in
      let m4 = pmpcfg_write m3 3 (bit_or pmpcfg_a_tor rwx) in
      let m5 = pmpaddr_write m4 (pmpaddr 4) l.secure_start in
      let m6 = pmpaddr_write m5 (pmpaddr 5) (l.secure_start + kom_secure_reserve) in
      let m7 = pmpcfg_write m6 4 pmpcfg_a_off in pmpcfg_write m7 5 pmpcfg_a_tor

  -- supervisor_init
  unfoldable pub supervisor_init : Machine → ℕ → ℕ → Machine
  supervisor_init m0 hartid dtb =
      let m1 = csr_write (pmp_init m0) mstatus sr_mpp_s in
      let m2 = csr_write m1 mcounteren (2 ^ 32 - 1) in
      let m3 = csr_write m2 medeleg edel_common in
      let m4 = csr_write m3 mideleg idel_s in
      let m5 = csr_write m4 mepc l.payload_start in
      record m5 { frame = λ i. if i == a0 then hartid else if i == a1 then dtb else 0 }

  unfoldable pub init_monitor : State → State
  init_monitor s = record s {
    enclave_mode = false;
    cur_dispatcher_pageno = 0;
    pagedb = λ p.
        if ltb p kom_secure_npages then record { type = 0; addrspace_page = 0 } else s.pagedb p;
    secure_pages =
        λ p w. if ltb p kom_secure_npages && ltb w page_words then 0 else s.secure_pages p w;
    host_state = record { regs = λ _. 0; saved = λ _. 0 };
  }

  -- main, from init_monitor on, with the device tree that mcall_init has copied to `dtb`.
  unfoldable pub main : State → ℕ → ℕ → Outcome State
  main s hartid dtb =
      let t = init_monitor s in leaves (record t { machine = supervisor_init t.machine hartid dtb })
