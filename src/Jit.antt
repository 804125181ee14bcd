-- ===== src/Jit.antt =====
-- bpf/jit/bpf_jit_comp32.c: the compiler from eBPF to RV32, and bpf/kbpf.c, the interpreter that it is
-- compared with.
pub mod Encode
pub mod Regs
pub mod Emit
pub mod Alu
pub mod Jump
pub mod Memory
pub mod Code
pub mod Insn
pub mod Compile
pub mod Passes
pub mod Count
pub mod Sizes
pub mod Image
pub mod Rv32
pub mod Decode
pub mod Roundtrip
pub mod Straight
pub mod Kbpf
pub mod Correct
pub mod Shift
pub mod Halves
pub mod Amount
pub mod Shifts
pub mod Shift64
pub mod Alu64
pub mod Pairs
pub mod Whole
pub mod Fuel
pub mod Branches
pub mod Jumps
pub mod Jump64
pub mod Alu32
pub mod Jump32
mod Tests
