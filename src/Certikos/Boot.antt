-- ===== src/Certikos/Boot.antt =====
-- monitors/certikos/main.c, from proc_init on; mcall_init comes before and touches none of this.
use serval_sosp.Base.{
  ap, ℕ, zero, suc, ◌<◌, ◌≡◌, ◌%◌, ◌^◌, refl, Outcome, leaves, and_then, arith, if◌then◌else◌, ◌==◌,
  bit_or,
}
use serval_sosp.Machine.Csr.{
  Machine, csr_write, csr_set, csr_clear, mstatus, sr_mpp, sr_mpp_s, sr_sxl, sr_sxl_64, sr_uxl,
  sr_uxl_64, mcounteren, medeleg, mideleg, satp, copy_csrs_lem, edel_common, pmpaddr, mepc,
}
use serval_sosp.Machine.Pmp.{
  pmpaddr_write, pmpcfg_write, pmpcfg_r, pmpcfg_w, pmpcfg_x, pmpcfg_a_off, pmpcfg_a_tor,
}
use serval_sosp.Certikos.State.{
  State, Proc, Layout, proc_csrs, nr_procs, nr_pages, pid_idle, proc_state_free, proc_state_run,
}
use serval_sosp.Certikos.Proc.{proc_init, proc_init_loop, new_proc, proc_new, proc_switch}
use serval_sosp.Machine.Regs.{a0, a1}
use serval_sosp.Machine.Pmp.Fields.{pmpcfg_read-pmpcfg_write}
use serval_sosp.Certikos.Guard.{
  Guarded, Configured, Configured-same, switched-pmpcfg0, switched-Bounded,
}
use serval_sosp.Certikos.Invariant.{IsValid, Runs}

-- include/uapi/certikos/elf.h
abbrev elf_file_idle : ℕ
elf_file_idle = 0

module _ (l : Layout) where
  -- The writes of user_init behind proc_new.
  unfoldable pub init_machine : Machine → Machine
  init_machine m0 =
      let m1 = csr_set (csr_clear m0 mstatus sr_mpp) mstatus sr_mpp_s in
      let m2 = csr_set (csr_clear m1 mstatus sr_sxl) mstatus sr_sxl_64 in
      let m3 = csr_set (csr_clear m2 mstatus sr_uxl) mstatus sr_uxl_64 in
      let m4 = csr_write m3 mcounteren 0 in
      let m5 = csr_write m4 medeleg edel_common in
      let m6 = csr_write m5 mideleg 0 in
      let m7 = csr_write m6 satp 0 in
      let m8 = pmpcfg_write m7 0 pmpcfg_a_off in
      let m9 =
        pmpcfg_write m8 1 (bit_or (bit_or (bit_or pmpcfg_a_tor pmpcfg_r) pmpcfg_w) pmpcfg_x) in
      let m10 = pmpcfg_write m9 2 pmpcfg_a_off in
      let m11 = pmpcfg_write m10 3 (bit_or (bit_or pmpcfg_a_tor pmpcfg_r) pmpcfg_x) in
      let m12 = pmpaddr_write m11 (pmpaddr 2) l.payload_start in
      pmpaddr_write m12 (pmpaddr 3) l.payload_end

  unfoldable pub user_init : State → Outcome State
  unfolding init_machine
  user_init s =
      and_then (proc_new l s pid_idle pid_idle elf_file_idle 0 nr_pages)
        (λ _ s'. proc_switch l (record s' { machine = init_machine s'.machine }) pid_idle)

  unfoldable pub main : State → Outcome State
  unfolding user_init
  main s = user_init (proc_init s)

proc_init_loop_free :
    (n : ℕ) (procs : ℕ → Proc) (i : ℕ)
    → i < n
    → let p = proc_init_loop n procs i in
      (p.state ≡ proc_state_free) × (p.lower ≡ 0) × (p.upper ≡ 0)
unfolding proc_init_loop
proc_init_loop_free zero procs i h = absurd (omega arith)
proc_init_loop_free (suc n) procs i h = ground (arith, proc_init_loop_free n procs i)

-- A state in which only the idle process runs, with all the pages, is valid.
IsValid-idle :
    (s : State)
    → s.current_pid ≡ pid_idle
    → ((i : ℕ)
        → i < nr_procs
        → let p = s.procs i in
          if i == pid_idle
          then (p.state ≡ proc_state_run)
            × (p.next ≡ pid_idle)
            × (p.lower ≡ 0)
            × (p.upper ≡ nr_pages)
          else (p.state ≡ proc_state_free) × (p.lower ≡ 0) × (p.upper ≡ 0))
    → IsValid s
IsValid-idle s c entry = record {
  current_in = omega arith;
  current_runs = rw c (entry 1 (omega arith)).0;
  bounds = λ i h. ground (arith, entry i h);
  next_in = λ i h r. ground (arith, entry i h);
  next_runs = λ i h r. rw (next_idle i h r) (entry 1 (omega arith)).0;
  apart = λ i j hi hj ne ri rj. ground (arith, entry i hi, entry j hj);
}
  where
    next_idle : (i : ℕ) → i < nr_procs → Runs s i → (s.procs i).next ≡ pid_idle
    next_idle i h r = ground (arith, entry i h)

fields_written :
    (m : Machine)
    → Configured (pmpcfg_write (pmpcfg_write (pmpcfg_write (pmpcfg_write m 0 0) 1 15) 2 0) 3 13)
fields_written m k h =
    let m1 = pmpcfg_write m 0 0 in
    let m2 = pmpcfg_write m1 1 15 in
    let m3 = pmpcfg_write m2 2 0 in
    ground (
      arith,
      pmpcfg_read-pmpcfg_write m3 3 k 13,
      pmpcfg_read-pmpcfg_write m2 2 k 0,
      pmpcfg_read-pmpcfg_write m1 1 k 15,
      pmpcfg_read-pmpcfg_write m 0 k 0,
    )

init_machine-Configured : (l : Layout) (m : Machine) → Configured (init_machine l m)
unfolding init_machine pmpaddr_write csr_write
init_machine-Configured l m = Configured-same (init_machine l m) _ refl (fields_written _)

-- The entry of the idle process
abbrev idle_entry : Layout → State → Proc
idle_entry l s = new_proc l ((proc_init s).procs pid_idle) pid_idle elf_file_idle 0 nr_pages

-- Whatever memory and machine hold at the start, main ends in a valid state by leaving for the idle
-- process, the PMP entries set up: at the start of the payload, with the file of the idle process and the address of the
-- page array in a0 and a1 and the other registers of its entry, and with PMP entry 1 bounded by its
-- pages.
pub main-IsValid :
    (l : Layout) (s : State)
    → (t : State) × (main l s ≡ leaves t)
      × IsValid t
      × (t.current_pid ≡ pid_idle)
      × Guarded l t
      × (t.machine.frame ≡ (t.procs pid_idle).cpu)
      × (t.machine.frame a0 ≡ elf_file_idle)
      × (t.machine.frame a1 ≡ l.pages_addr % 2 ^ 64)
      × (t.machine.csr mepc ≡ l.payload_start)
unfolding main proc_init proc_new proc_switch
main-IsValid l s = rw ((proc_init_loop_free nr_procs s.procs 1 (omega arith)).0) (
  _,
  refl,
  IsValid-idle _ refl (λ i h. ground (arith, proc_init_loop_free nr_procs s.procs i h)),
  refl,
  (
    Configured-same _ (init_machine l s.machine)
        (switched-pmpcfg0 l (init_machine l s.machine) (idle_entry l s))
        (init_machine-Configured l s.machine),
    switched-Bounded l (init_machine l s.machine) (idle_entry l s),
  ),
  refl,
  refl,
  ap (λ a. a % 2 ^ 64) (omega arith),
  copy_csrs_lem proc_csrs _ _ mepc,
)
