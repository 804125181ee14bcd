-- ===== src/Machine/Regs.antt =====
-- include/asm/ptrace.h and kernel/ptrace.c: the saved integer registers. `struct pt_regs` is 31
-- unsigned longs in a row, so a value of it is a table from the place of a field to its word.
use serval_sosp.Base.{ℕ, ◌≡◌, ◌<◌, if◌then◌else◌, ltb, arith}

abbrev pub PtRegs : Type 0
PtRegs = ℕ → ℕ

-- sizeof(struct pt_regs) / 8
abbrev pub pt_regs_words : ℕ
pt_regs_words = 31

abbrev pub a0 : ℕ
a0 = 9

abbrev pub a1 : ℕ
a1 = 10

abbrev pub a2 : ℕ
a2 = 11

abbrev pub a3 : ℕ
a3 = 12

abbrev pub a4 : ℕ
a4 = 13

abbrev pub a5 : ℕ
a5 = 14

abbrev pub a7 : ℕ
a7 = 16

-- `copy_pt_regs(dst, src)`: the words of `dst` afterwards, each of the 31 fields copied.
unfoldable pub copy_pt_regs : PtRegs → PtRegs → PtRegs
copy_pt_regs dst src i = if ltb i pt_regs_words then src i else dst i

-- `memset(regs, 0, sizeof(*regs))`
unfoldable pub clear_pt_regs : PtRegs → PtRegs
clear_pt_regs regs i = if ltb i pt_regs_words then 0 else regs i

pub copy_pt_regs-copied :
    (dst src : PtRegs) (i : ℕ) → i < pt_regs_words → copy_pt_regs dst src i ≡ src i
unfolding copy_pt_regs
copy_pt_regs-copied dst src i h = ground arith
