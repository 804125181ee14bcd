-- ===== src/Certikos/Traps.antt =====
-- monitors/certikos/traps.c, and array_index_nospec of include/io/nospec.h.
use serval_sosp.Base.{
  ℕ, ◌-◌, ◌^◌, not, if◌then◌else◌, ltb, leb, ◌==◌, update, bit_and, bit_or, Outcome, returns, lift,
  and_then,
}
use serval_sosp.Base.Bits.{not64}
use serval_sosp.Base.Word.{sub64, add64, neg64}
use serval_sosp.Machine.Regs.{PtRegs, a0, a1, a2, a7, copy_pt_regs}
use serval_sosp.Machine.Csr.{csr_write, mepc}
use serval_sosp.Machine.Mcall.{do_mcall, enosys, einval, sbi_last}
use serval_sosp.Certikos.State.{State, Layout, nr_procs, at_proc, set_proc}
use serval_sosp.Certikos.Proc.{
  is_pid_valid, is_proc_free, is_pid_owned_by_current, proc_save_csrs, proc_new, switch_pmp,
  proc_switch,
}

-- The shift is arithmetic, of a long: the mask is all ones or all zeroes, as the sign bit says.
unfoldable pub array_index_mask_nospec : ℕ → ℕ → ℕ
array_index_mask_nospec index size =
    if ltb (not64 (bit_or index (sub64 (sub64 size 1) index))) (2 ^ 63) then 0 else 2 ^ 64 - 1

unfoldable pub array_index_nospec : ℕ → ℕ → ℕ
unfolding array_index_mask_nospec
array_index_nospec index size = bit_and index (array_index_mask_nospec index size)

unfoldable pub sys_get_quota : State → Outcome State
sys_get_quota s = at_proc s s.current_pid (λ p. returns (sub64 p.upper p.lower) s)

unfoldable pub do_yield : State → Outcome State
do_yield s = at_proc s s.current_pid (λ p. returns 0 (record s { current_pid = p.next }))

unfoldable pub sys_getpid : State → Outcome State
sys_getpid s = returns s.current_pid s

module _ (l : Layout) where
  -- The last steps of sys_spawn, behind proc_new: the link, and the new PMP bounds.
  spawn_link : ℕ → State → Outcome State
  spawn_link pid s =
      let parent = record (s.procs s.current_pid) { next = pid } in
      let s' = set_proc s s.current_pid parent in
      returns 0 (record s' { machine = switch_pmp l s'.machine parent })

  -- The part of sys_spawn behind its checks.
  spawn_checked : State → ℕ → ℕ → ℕ → Outcome State
  unfolding spawn_link
  spawn_checked s fileid quota pid =
      let p = s.procs s.current_pid in
      let parent = record p { upper = sub64 p.upper quota } in
      and_then
        (proc_new l (set_proc s s.current_pid parent) pid parent.next fileid parent.upper p.upper)
        (λ _ s'. spawn_link pid s')

  unfoldable pub sys_spawn : State → ℕ → ℕ → ℕ → Outcome State
  unfolding spawn_checked
  sys_spawn s fileid quota pid = at_proc s s.current_pid λ p.
      if ltb (sub64 p.upper p.lower) quota
      then returns (neg64 einval) s
      else if not (is_pid_valid pid)
      then returns (neg64 einval) s
      else let pid' = array_index_nospec pid nr_procs in
        at_proc s pid' λ _.
          if not (is_pid_owned_by_current s pid')
          then returns (neg64 einval) s
          else if not (is_proc_free s pid')
          then returns (neg64 einval) s
          else spawn_checked s fileid quota pid'

  unfoldable pub sys_yield : State → PtRegs → Outcome State
  sys_yield s regs = at_proc s s.current_pid λ p.
      let saved = proc_save_csrs s.machine (record p { cpu = copy_pt_regs p.cpu regs }) in
      and_then (do_yield (set_proc s s.current_pid saved)) (λ _ s'. proc_switch l s' s'.current_pid)

-- include/uapi/certikos/syscalls.h
abbrev pub nr_get_quota : ℕ
nr_get_quota = 10

abbrev pub nr_spawn : ℕ
nr_spawn = 11

abbrev pub nr_yield : ℕ
nr_yield = 12

abbrev pub nr_getpid : ℕ
nr_getpid = 13

-- do_mcall works on the machine alone.
unfoldable pub mcall : State → PtRegs → Outcome State
mcall s regs = lift (λ m. record s { machine = m }) (do_mcall s.machine regs)

-- `regs->a0 = r` in the trap frame
unfoldable pub set_result : ℕ → State → Outcome State
set_result r s =
    let m = s.machine in returns 0 (record s { machine = record m { frame = update m.frame a0 r } })

module _ (l : Layout) where
  -- the switch of do_trap_ecall_s
  unfoldable pub syscall : State → PtRegs → Outcome State
  syscall s regs =
      let nr = regs a7 in
      if leb nr sbi_last
      then mcall s regs
      else if nr == nr_get_quota
      then sys_get_quota s
      else if nr == nr_spawn
      then sys_spawn l s (regs a0) (regs a1) (regs a2)
      else if nr == nr_yield
      then sys_yield l s regs
      else if nr == nr_getpid
      then sys_getpid s
      else returns (neg64 enosys) s

  -- `regs` is the trap frame.
  unfoldable pub do_trap_ecall_s : State → Outcome State
  do_trap_ecall_s s =
      let m = s.machine in
      let s' = record s { machine = csr_write m mepc (add64 (m.csr mepc) 4) } in
      and_then (syscall s' m.frame) set_result
