-- ===== src/Certikos/State.antt =====
-- monitors/certikos/proc.h and the globals of monitors/certikos/proc.c.
use serval_sosp.Base.{ℕ, List, [], ◌∷◌, if◌then◌else◌, ltb, update, Outcome, out_of_bounds}
use serval_sosp.Machine.Regs.{PtRegs}
use serval_sosp.Machine.Csr.{
  Machine, satp, scause, scounteren, sepc, sscratch, sstatus, stvec, stval, mepc, sie, sip,
}

-- include/uapi/certikos/param.h
abbrev pub nr_procs : ℕ
nr_procs = 64

abbrev pub nr_children : ℕ
nr_children = 4

abbrev pub nr_pages : ℕ
nr_pages = 256

abbrev pub size_4k : ℕ
size_4k = 4096

abbrev pub proc_state_free : ℕ
proc_state_free = 0

abbrev pub proc_state_run : ℕ
proc_state_run = 1

abbrev pub pid_idle : ℕ
pid_idle = 1

-- `struct proc`; `saved c` is the field named after the register `c`.
pub record Proc : Type 0 where
  pub state : ℕ
  pub owner : ℕ
  pub next : ℕ
  pub lower : ℕ
  pub upper : ℕ
  pub saved : ℕ → ℕ
  pub cpu : PtRegs

-- The registers that proc_save_csrs and proc_restore_csrs name, in their order.
abbrev pub proc_csrs : List ℕ
proc_csrs =
    satp ∷ scause ∷ scounteren ∷ sepc ∷ sscratch ∷ sstatus ∷ stvec ∷ stval ∷ mepc ∷ sie ∷ sip ∷ []

-- `procs` has NR_PROCS entries, and `pages` is an array of NR_PAGES * SZ_4K bytes.
pub record State : Type 0 where
  pub machine : Machine
  pub procs : ℕ → Proc
  pub pages : ℕ → ℕ
  pub current_pid : ℕ

-- Addresses that the linker chooses.
pub record Layout : Type 0 where
  pub pages_addr : ℕ
  pub payload_start : ℕ
  pub payload_end : ℕ

-- `procs[pid]` in the code `k`: out of bounds if `pid` is no index.
abbrev pub at_proc : State → ℕ → (Proc → Outcome State) → Outcome State
at_proc s pid k = if ltb pid nr_procs then k (s.procs pid) else out_of_bounds

abbrev pub set_proc : State → ℕ → Proc → State
set_proc s pid p = record s { procs = update s.procs pid p }
