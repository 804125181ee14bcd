-- ===== src/Lib.antt =====
-- Verification of the code of Serval in C: the security monitors CertiKOS, Keystone, Komodo and
-- ToyMon on RISC-V, and the compiler from eBPF to RV32.
--
-- Each monitor runs in M-mode below an untrusted S-mode host, whose ecalls trap into
-- do_trap_ecall_s (do_trap for Komodo) with the saved registers in a frame. It isolates memory by
-- the PMP registers, and switches contexts by saving and loading registers and CSRs.
--
-- The files, and the code each is about:
--   Base        shared helpers: tests on numbers, tables, outcomes of code, 64-bit words, and the
--               laws of bit_and, bit_or and bit_xor by binary digits.
--   Machine     include/asm/csr.h, pmp.h, ptrace.h, kernel/ptrace.c and bios/mcall.c: the CSRs as a
--               table, the trap frame, the PMP registers and the SBI calls.
--   Certikos    monitors/certikos: proc.c and traps.c and the boot of main.c; processes with ranges
--               of pages, spawn and yield.
--   Keystone    monitors/keystone: enclave.c, pmp.c, traps.c, main.c; enclaves in regions of one
--               payload, guarded by PMP entries.
--   Komodo      monitors/komodo: monitor.c, traps.c, main.c; enclaves made of pages that the monitor
--               types and counts.
--   Toymon      monitors/toymon/main.c: a monitor with one word of state.
--   Jit         bpf/jit/bpf_jit_comp32.c: Encode has the functions rv_*, Regs and Emit the registers, the
--               scratch slots and the immediates, Alu, Jump and Memory the functions emit_rv32_*, Code
--               and Insn emit_insn, Compile the context, the prologue, the epilogue and the loop over
--               the program, Passes bpf_int_jit_compile. Rv32 is the part of the RISC-V manual that
--               the emitted words between registers need, Kbpf the arithmetic and the comparisons of
--               the interpreter bpf/kbpf.c. The others hold lemmas and theorems.
--
-- A function of a monitor takes its state, a record of the globals and of the machine, to an
-- Outcome: it returns a word, leaves through mret_with_regs, shuts the machine down, stops in BUG
-- or die, or accesses an array out of bounds. Ends P says that neither of the last two happens and
-- that P holds of the state behind. Arrays are functions from an index, and each access whose
-- index is not tested just before has its bounds written out. Words are natural numbers with the
-- wrap-around of 64 bits written out.
--
-- The code modelled is the production build: CONFIG_VERIFICATION switches are off, PMP code is in.
-- The linker's addresses are parameters (the Layouts, and the base of Keystone's payload). What
-- the CPU does between traps is a step relation in Certikos/Reach: the current process changes its
-- registers, but not those of the PMP, and the bytes that the PMP registers let it write; and one in
-- Keystone/Switch: an enclave changes its registers and the payload at will. Loops of the monitors run a fixed number
-- of rounds over an array, so they are recursion on that number.
--
-- A function of the compiler that calls emit is the list of the words that it emits, and its
-- return value where it has one; build_from emits them into the context. An s8 is its byte, an int
-- its word of 32 bits. The loop over a BPF program is on fuel, the number of its instructions,
-- which is enough since each turn goes on by one or two. The kernel's functions, as the
-- allocators, bpf_jit_blind_constants and bpf_jit_get_func_addr, are parameters. Code on the
-- reference machine runs from its first word to its last without loops, and has no memory: a load
-- or a store stops there.
--
-- Not modelled: the TLB flushes, printing, the device tree (mcall_init), assembly entry code, the
-- RV64 compiler of Linux (bpf/jit/bpf_jit_riscv64.c), the dump, the messages and the flush of the
-- instruction cache of the RV32 compiler, the library code taken from Linux (kernel/string.c,
-- memblock.c, bitops.c), libfdt and the crypto library, the payload kernels and user programs, and
-- the Racket specifications. The calls of memset and memcpy are written out where they stand.
pub mod Base
pub mod Machine
pub mod Certikos
pub mod Keystone
pub mod Komodo
pub mod Toymon
pub mod Jit
