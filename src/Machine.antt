-- ===== src/Machine.antt =====
-- The part of a RISC-V hart that the monitors touch: control and status registers, the trap frame
-- and the console. include/asm/csr.h, include/asm/ptrace.h, kernel/ptrace.c, bios/mcall.c.
pub mod Regs
pub mod Csr
pub mod Pmp
pub mod Mcall
