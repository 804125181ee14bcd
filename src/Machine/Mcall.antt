-- ===== src/Machine/Mcall.antt =====
-- bios/mcall.c: the SBI calls. The console is the boundary of the model: a byte that
-- mcall_console_putchar hands on is appended to `console`, and what mcall_console_getchar answers is
-- taken from `input`, or is -EAGAIN if no byte is there.
use serval_sosp.Base.{
  ℕ, ◌≡◌, ◌%◌, List, [], ◌∷◌, ◌++◌, Outcome, returns, halts, Ends, Answers, arith, if◌then◌else◌,
  ◌==◌,
}
use serval_sosp.Base.Word.{neg64}
use serval_sosp.Machine.Regs.{PtRegs, a0, a7}
use serval_sosp.Machine.Csr.{Machine}

-- include/sys/errno.h
abbrev pub eagain : ℕ
eagain = 11

abbrev pub enosys : ℕ
enosys = 38

abbrev pub einval : ℕ
einval = 22

-- include/asm/sbi.h
abbrev pub sbi_console_putchar : ℕ
sbi_console_putchar = 1

abbrev pub sbi_console_getchar : ℕ
sbi_console_getchar = 2

abbrev pub sbi_shutdown : ℕ
sbi_shutdown = 8

abbrev pub sbi_last : ℕ
sbi_last = 8

mcall_console_putchar : Machine → ℕ → Machine
mcall_console_putchar m c = record m { console = m.console ++ c % 256 ∷ [] }

getchar_of : Machine → List ℕ → Outcome Machine
getchar_of m [] = returns (neg64 eagain) m
getchar_of m (c ∷ cs) = returns c (record m { input = cs })

mcall_console_getchar : Machine → Outcome Machine
unfolding getchar_of
mcall_console_getchar m = getchar_of m m.input

unfoldable pub do_mcall : Machine → PtRegs → Outcome Machine
unfolding mcall_console_putchar mcall_console_getchar
do_mcall m regs =
    if regs a7 == sbi_console_putchar
    then returns 0 (mcall_console_putchar m (regs a0))
    else if regs a7 == sbi_console_getchar
    then mcall_console_getchar m
    else if regs a7 == sbi_shutdown
    then halts m
    else returns (neg64 enosys) m

-- An SBI call returns or shuts the machine down.
pub do_mcall-Ends : (m : Machine) (regs : PtRegs) → Ends (λ _. Unit {0}) (do_mcall m regs)
unfolding do_mcall
do_mcall-Ends m regs = ground arith

-- It touches no control register.
pub do_mcall-csr : (m : Machine) (regs : PtRegs) → Ends (λ t. t.csr ≡ m.csr) (do_mcall m regs)
unfolding do_mcall
do_mcall-csr m regs = ground arith

-- And it does not leave by itself.
pub do_mcall-Answers :
    (m : Machine) (regs : PtRegs) → Answers (λ t. t.csr ≡ m.csr) (do_mcall m regs)
unfolding do_mcall
do_mcall-Answers m regs = ground arith
