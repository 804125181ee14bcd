-- ===== src/Toymon/Monitor.antt =====
-- monitors/toymon/main.c, with the call numbers of include/uapi/toymon/syscalls.h. What pr_info
-- prints is not seen.
use serval_sosp.Base.{
  ℕ, if◌then◌else◌, leb, ◌==◌, update, bit_or, Outcome, returns, leaves, and_then, lift,
}
use serval_sosp.Base.Word.{add64, neg64}
use serval_sosp.Machine.Regs.{PtRegs, a0, a1, a7}
use serval_sosp.Machine.Csr.{Machine, csr_write, mepc, mstatus, sr_mpp_s, pmpaddr, pmpcfg0, pmpcfg2}
use serval_sosp.Machine.Mcall.{do_mcall, enosys, sbi_last}
use serval_sosp.Machine.Pmp.{
  pmpaddr_write, pmpcfg_write, pmpcfg_a_tor, pmpcfg_r, pmpcfg_w, pmpcfg_x,
}

pub record State : Type 0 where
  pub machine : Machine
  pub x : ℕ

abbrev pub nr_hello_world : ℕ
nr_hello_world = 10

abbrev pub nr_get_and_set : ℕ
nr_get_and_set = 11

unfoldable pub sys_hello_world : State → Outcome State
sys_hello_world s = returns 0 s

unfoldable pub sys_get_and_set : State → ℕ → Outcome State
sys_get_and_set s y = returns s.x (record s { x = y })

-- the switch of do_trap_ecall_s
unfoldable pub syscall : State → PtRegs → Outcome State
syscall s regs =
    if leb (regs a7) sbi_last
    then lift (λ m. record s { machine = m }) (do_mcall s.machine regs)
    else if regs a7 == nr_hello_world
    then sys_hello_world s
    else if regs a7 == nr_get_and_set
    then sys_get_and_set s (regs a0)
    else returns (neg64 enosys) s

-- `regs->a0 = r`
unfoldable pub set_a0 : ℕ → State → Outcome State
set_a0 r s =
    returns 0 (record s { machine = record (s.machine) { frame = update s.machine.frame a0 r } })

unfoldable pub do_trap_ecall_s : State → Outcome State
do_trap_ecall_s s =
    let s' = record s { machine = csr_write s.machine mepc (add64 (s.machine.csr mepc) 4) } in
    and_then (syscall s' s.machine.frame) set_a0

-- supervisor_init, with _payload_start and _payload_end; it leaves with the registers `regs`.
unfoldable pub supervisor_init : ℕ → ℕ → Machine → ℕ → ℕ → Machine
supervisor_init payload_start payload_end m0 hartid dtb =
    let m1 = csr_write (csr_write m0 mstatus sr_mpp_s) mepc payload_start in
    let m2 = csr_write (csr_write m1 pmpcfg0 0) pmpcfg2 0 in
    let m3 = pmpaddr_write (pmpaddr_write m2 (pmpaddr 0) payload_start) (pmpaddr 1) payload_end in
    let rwx = bit_or (bit_or (bit_or pmpcfg_a_tor pmpcfg_r) pmpcfg_w) pmpcfg_x in
    let m4 = pmpcfg_write m3 1 rwx in
    record m4 { frame = λ i. if i == a0 then hartid else if i == a1 then dtb else 0 }

-- main, behind mcall_init
unfoldable pub main : ℕ → ℕ → State → ℕ → ℕ → Outcome State
main payload_start payload_end s hartid dtb =
    leaves (record s { machine = supervisor_init payload_start payload_end s.machine hartid dtb })
