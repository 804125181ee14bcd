-- ===== src/Machine/Pmp.antt =====
-- include/asm/pmp.h: physical memory protection registers.
pub mod Fields
use serval_sosp.Base.{ℕ, ◌*◌, ◌%◌, if◌then◌else◌, ltb, bit_and}
use serval_sosp.Base.Word.{shl64, shr64}
use serval_sosp.Machine.Csr.{Machine, csr_write, csr_set, csr_clear, pmpcfg0, pmpcfg2}

abbrev pub nr_pmp_entries : ℕ
nr_pmp_entries = 8

-- include/asm/csr_bits/pmpcfg.h
abbrev pub pmpcfg_r : ℕ
pmpcfg_r = 1

abbrev pub pmpcfg_w : ℕ
pmpcfg_w = 2

abbrev pub pmpcfg_x : ℕ
pmpcfg_x = 4

abbrev pub pmpcfg_a_off : ℕ
pmpcfg_a_off = 0

abbrev pub pmpcfg_a_tor : ℕ
pmpcfg_a_tor = 8

-- `pmpaddr_write(reg, val)` writes `val >> 2`.
unfoldable pub pmpaddr_write : Machine → ℕ → ℕ → Machine
pmpaddr_write m reg val = csr_write m reg (shr64 val 2)

unfoldable pub pmpaddr_read : Machine → ℕ → ℕ
pmpaddr_read m reg = shl64 (m.csr reg) 2

abbrev cfg_reg : ℕ → ℕ
cfg_reg nr = if ltb nr 8 then pmpcfg0 else pmpcfg2

unfoldable pub pmpcfg_read : Machine → ℕ → ℕ
pmpcfg_read m nr = bit_and (shr64 (m.csr (cfg_reg nr)) (nr % 8 * 8)) 0xff

-- The readback at its end only prints.
unfoldable pub pmpcfg_write : Machine → ℕ → ℕ → Machine
pmpcfg_write m nr value =
    let shift = nr % 8 * 8 in
    let mask = shl64 0xff shift in
    csr_set (csr_clear m (cfg_reg nr) mask) (cfg_reg nr) (shl64 value shift)
