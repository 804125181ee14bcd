-- ===== src/Machine/Csr.antt =====
-- include/asm/csr.h: control and status registers, each a cell of its own named by its number, and
-- the machine state of a trap: the registers, the trap frame that current_pt_regs() points to, the
-- bytes given to the console and the bytes that it will give.
use serval_sosp.Base.{
  ℕ, ◌+◌, ◌≡◌, refl, Bool, false, ◌||◌, List, [], ◌∷◌, if◌then◌else◌, ◌==◌, update, bit_and, bit_or,
  arith,
}
use serval_sosp.Base.Bits.{not64}
use serval_sosp.Machine.Regs.{PtRegs}

pub record Machine : Type 0 where
  pub csr : ℕ → ℕ
  pub frame : PtRegs
  pub console : List ℕ
  pub input : List ℕ

-- the numbers behind the assembler's names
abbrev pub sstatus : ℕ
sstatus = 0x100

abbrev pub sie : ℕ
sie = 0x104

abbrev pub stvec : ℕ
stvec = 0x105

abbrev pub scounteren : ℕ
scounteren = 0x106

abbrev pub sscratch : ℕ
sscratch = 0x140

abbrev pub sepc : ℕ
sepc = 0x141

abbrev pub scause : ℕ
scause = 0x142

abbrev pub stval : ℕ
stval = 0x143

abbrev pub sip : ℕ
sip = 0x144

abbrev pub satp : ℕ
satp = 0x180

abbrev pub mstatus : ℕ
mstatus = 0x300

abbrev pub medeleg : ℕ
medeleg = 0x302

abbrev pub mideleg : ℕ
mideleg = 0x303

abbrev pub mcounteren : ℕ
mcounteren = 0x306

abbrev pub mepc : ℕ
mepc = 0x341

abbrev pub pmpcfg0 : ℕ
pmpcfg0 = 0x3a0

abbrev pub pmpcfg2 : ℕ
pmpcfg2 = 0x3a2

-- pmpaddr0; the others follow it.
abbrev pub pmpaddr : ℕ → ℕ
pmpaddr n = 0x3b0 + n

abbrev pub mcycle : ℕ
mcycle = 0xb00

abbrev pub minstret : ℕ
minstret = 0xb02

unfoldable pub csr_write : Machine → ℕ → ℕ → Machine
csr_write m n v = record m { csr = update m.csr n v }

unfoldable pub csr_set : Machine → ℕ → ℕ → Machine
csr_set m n v = record m { csr = update m.csr n (bit_or (m.csr n) v) }

unfoldable pub csr_clear : Machine → ℕ → ℕ → Machine
csr_clear m n v = record m { csr = update m.csr n (bit_and (m.csr n) (not64 v)) }

-- Assignments `dst->n = src.n` for each register of a list, in its order.
unfoldable pub copy_csrs : List ℕ → (ℕ → ℕ) → (ℕ → ℕ) → ℕ → ℕ
copy_csrs [] src dst = dst
copy_csrs (n ∷ ns) src dst = copy_csrs ns src (update dst n (src n))

abbrev pub listed : List ℕ → ℕ → Bool
listed [] c = false
listed (n ∷ ns) c = n == c || listed ns c

-- The copy holds the source at the listed registers, and is unchanged at the others.
pub copy_csrs_lem :
    (ns : List ℕ) (src dst : ℕ → ℕ) (c : ℕ)
    → copy_csrs ns src dst c ≡ (if listed ns c then src c else dst c)
unfolding copy_csrs
copy_csrs_lem [] src dst c = refl
copy_csrs_lem (n ∷ ns) src dst c = ground (arith, copy_csrs_lem ns src (update dst n (src n)) c)

-- include/asm/csr_bits/status.h
abbrev pub sr_mpp : ℕ
sr_mpp = 0x1800

abbrev pub sr_mpp_s : ℕ
sr_mpp_s = 0x800

abbrev pub sr_mpp_m : ℕ
sr_mpp_m = 0x1800

abbrev pub sr_mpp_u : ℕ
sr_mpp_u = 0

abbrev pub sr_tvm : ℕ
sr_tvm = 0x10_0000

abbrev pub sr_uxl : ℕ
sr_uxl = 0x3_0000_0000

abbrev pub sr_uxl_64 : ℕ
sr_uxl_64 = 0x2_0000_0000

abbrev pub sr_sxl : ℕ
sr_sxl = 0xc_0000_0000

abbrev pub sr_sxl_64 : ℕ
sr_sxl_64 = 0x8_0000_0000

-- include/asm/csr_bits/edeleg.h: the eight exceptions that every monitor delegates, bits
-- 3, 8, 0, 12, 4, 13, 6 and 15.
abbrev pub edel_common : ℕ
edel_common = 0xb159

-- include/asm/csr_bits/ideleg.h: the software, timer and external interrupts of S-mode.
abbrev pub idel_s : ℕ
idel_s = 0x222
