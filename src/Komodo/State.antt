-- ===== src/Komodo/State.antt =====
-- monitors/komodo/monitor.h and csrs.h, include/uapi/komodo/memregions.h and smcapi.h, and the
-- globals of monitors/komodo/monitor.c.
use serval_sosp.Base.{
  ℕ, ◌+◌, ◌-◌, ◌*◌, ◌^◌, Bool, List, [], ◌∷◌, ◌&&◌, if◌then◌else◌, ltb, leb, update, bit_and,
  bit_or, Outcome, bug,
}
use serval_sosp.Base.Word.{add64, shl64, shr64}
use serval_sosp.Machine.Regs.{PtRegs, pt_regs_words}
use serval_sosp.Machine.Csr.{
  Machine, mepc, satp, stvec, scounteren, stval, sip, scause, sepc, sstatus, sscratch, sie,
}

abbrev pub kom_page_size : ℕ
kom_page_size = 0x1000

-- The words of a page, and the entries of a page table.
abbrev pub page_words : ℕ
page_words = 512

abbrev pub kom_secure_npages : ℕ
kom_secure_npages = 1024

abbrev pub kom_insecure_npages : ℕ
kom_insecure_npages = 256

abbrev pub kom_secure_reserve : ℕ
kom_secure_reserve = kom_secure_npages * kom_page_size

abbrev pub kom_insecure_reserve : ℕ
kom_insecure_reserve = kom_insecure_npages * kom_page_size

-- kom_pagetype_t
abbrev pub kom_page_free : ℕ
kom_page_free = 0

abbrev pub kom_page_addrspace : ℕ
kom_page_addrspace = 1

abbrev pub kom_page_dispatcher : ℕ
kom_page_dispatcher = 2

abbrev pub kom_page_l1ptable : ℕ
kom_page_l1ptable = 3

abbrev pub kom_page_l2ptable : ℕ
kom_page_l2ptable = 4

abbrev pub kom_page_l3ptable : ℕ
kom_page_l3ptable = 5

abbrev pub kom_page_data : ℕ
kom_page_data = 6

-- kom_addrspace_state_t
abbrev pub kom_addrspace_init : ℕ
kom_addrspace_init = 0

abbrev pub kom_addrspace_final : ℕ
kom_addrspace_final = 1

abbrev pub kom_addrspace_stopped : ℕ
kom_addrspace_stopped = 2

-- The fields of struct kom_addrspace, struct kom_dispatcher by their word in the page; the saved
-- integer registers of a dispatcher begin at word 1, its control registers behind them.
abbrev pub l1pt_page : ℕ
l1pt_page = 0

abbrev pub refcount : ℕ
refcount = 1

abbrev pub state : ℕ
state = 2

abbrev pub entered : ℕ
entered = 0

abbrev pub regs_word : ℕ
regs_word = 1

abbrev pub csrs_word : ℕ
csrs_word = regs_word + pt_regs_words

abbrev pub dispatcher_mepc : ℕ
dispatcher_mepc = csrs_word

abbrev pub dispatcher_satp : ℕ
dispatcher_satp = csrs_word + 1

abbrev pub dispatcher_sie : ℕ
dispatcher_sie = csrs_word + 10

-- The registers of csrs.h, in its order.
abbrev pub monitor_csrs : List ℕ
monitor_csrs =
    mepc ∷ satp ∷ stvec ∷ scounteren ∷ stval ∷ sip ∷ scause ∷ sepc ∷ sstatus ∷ sscratch ∷ sie ∷ []

pub record KomPagedbEntry : Type 0 where
  pub type : ℕ
  pub addrspace_page : ℕ

-- `saved c` is the field named after the register `c`.
pub record HostState : Type 0 where
  pub regs : PtRegs
  pub saved : ℕ → ℕ

-- Where the linker puts the two arrays of pages.
pub record Layout : Type 0 where
  pub secure_start : ℕ
  pub payload_start : ℕ

-- `secure_pages p w` and `payload p w` are word `w` of page `p`.
pub record State : Type 0 where
  pub machine : Machine
  pub pagedb : ℕ → KomPagedbEntry
  pub secure_pages : ℕ → ℕ → ℕ
  pub payload : ℕ → ℕ → ℕ
  pub host_state : HostState
  pub enclave_mode : Bool
  pub cur_dispatcher_pageno : ℕ

-- `((uint64_t *) page_monvaddr(page))[w] = v`
abbrev pub set_word : State → ℕ → ℕ → ℕ → State
set_word s page w v = record s {
  secure_pages = update s.secure_pages page (update (s.secure_pages page) w v);
}

-- `memset(page_monvaddr(page), 0, KOM_PAGE_SIZE)`
abbrev pub clear_page : State → ℕ → State
clear_page s page = record s {
  secure_pages =
      update s.secure_pages page λ w. if ltb w page_words then 0 else s.secure_pages page w;
}

-- `memcpy(page_monvaddr(page), insecure_page_monvaddr(content), SZ_4K)`
abbrev pub copy_in : State → ℕ → ℕ → State
copy_in s page content = record s {
  secure_pages =
      update s.secure_pages page
        λ w. if ltb w page_words then s.payload content w else s.secure_pages page w;
}

-- `g_pagedb[page] = (struct kom_pagedb_entry) { type, addrspace_page }`
abbrev pub set_entry : State → ℕ → ℕ → ℕ → State
set_entry s page type addrspace_page = record s {
  pagedb = update s.pagedb page (record { type = type; addrspace_page = addrspace_page });
}

-- `page_monvaddr(page)` in the code `k`, which gets the words of the page.
abbrev pub at_page : State → ℕ → ((ℕ → ℕ) → Outcome State) → Outcome State
at_page s page k = if ltb page kom_secure_npages then k (s.secure_pages page) else bug

-- copy_pt_regs between the registers of a dispatcher and a pt_regs elsewhere.
unfoldable pub load_regs : (ℕ → ℕ) → PtRegs → PtRegs
load_regs page dst i = if ltb i pt_regs_words then page (regs_word + i) else dst i

unfoldable pub store_regs : PtRegs → (ℕ → ℕ) → ℕ → ℕ
store_regs src page w = if leb regs_word w && ltb w csrs_word then src (w - regs_word) else page w

-- The assignments of csrs.h between the words from `at` on and control registers.
unfoldable pub load_csrs : List ℕ → ℕ → (ℕ → ℕ) → (ℕ → ℕ) → ℕ → ℕ
load_csrs [] at page csr = csr
load_csrs (n ∷ ns) at page csr = load_csrs ns (at + 1) page (update csr n (page at))

unfoldable pub store_csrs : List ℕ → ℕ → (ℕ → ℕ) → (ℕ → ℕ) → ℕ → ℕ
store_csrs [] at csr page = page
store_csrs (n ∷ ns) at csr page = store_csrs ns (at + 1) csr (update page at (csr n))

-- include/asm/pgtable.h and pgtable-bits.h
abbrev pub page_table_prot : ℕ
page_table_prot = 1

abbrev pub satp_mode_sv39 : ℕ
satp_mode_sv39 = 8 * 2 ^ 60

-- `pfn_pgd(pfn, prot)`, and pfn_pmd and pfn_pte, which are the same on words.
unfoldable pub pfn_entry : ℕ → ℕ → ℕ
pfn_entry pfn prot = bit_or (shl64 pfn 10) prot

unfoldable pub enclave_prot : ℕ → ℕ
enclave_prot mapping = bit_or (bit_and mapping 0xe) 0xc1

module _ (l : Layout) where
  -- PFN_DOWN of page_paddr and of insecure_page_paddr
  unfoldable pub page_pfn : ℕ → ℕ
  page_pfn page = shr64 (add64 l.secure_start (page * kom_page_size)) 12

  unfoldable pub insecure_page_pfn : ℕ → ℕ
  insecure_page_pfn page = shr64 (add64 l.payload_start (page * kom_page_size)) 12
