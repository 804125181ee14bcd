-- ===== src/Certikos/Guard.antt =====
-- The PMP entries in monitors/certikos/main.c, proc.c and traps.c, and the pages of the current
-- process.
use serval_sosp.Base.{
  bit_and, ◌-◌, ◌⊎◌, if◌then◌else◌, ◌==◌, ◌≢◌, sym, List, [], ◌∷◌, inl, inr, ℕ, ◌+◌, ◌*◌, ◌/◌, ◌%◌,
  ◌^◌, ◌≤◌, ◌<◌, ◌≡◌, refl, ◌∙◌, ap, Ends, arith, update,
}
use serval_sosp.Base.Word.{add64}
use serval_sosp.Machine.Csr.{Machine, csr_write, mepc, pmpaddr, pmpcfg0, copy_csrs_lem}
use serval_sosp.Machine.Pmp.{pmpaddr_write, pmpcfg_read, pmpcfg_a_tor, pmpcfg_w}
use serval_sosp.Machine.Pmp.Fields.{pmpcfg_read-same}
use serval_sosp.Certikos.State.{State, Proc, Layout, nr_pages, size_4k, proc_csrs}
use serval_sosp.Certikos.Proc.{switch_pmp, proc_restore_csrs}
use serval_sosp.Certikos.Traps.{do_trap_ecall_s}
use serval_sosp.Certikos.Invariant.{IsValid}
use serval_sosp.Certikos.Spawn.{MaySpawn, spawned}
use serval_sosp.Certikos.Spawn.Valid.{parent_after}
use serval_sosp.Certikos.Yield.{yielded, saved_proc}
use serval_sosp.Certikos.Trap.{do_trap_ecall_s-Ends, IsValid-machine}

-- Where the linker puts the page array: `pages` in monitors/certikos/proc.c is aligned to a page.
pub record Placed (l : Layout) : Type 0 where
  pub aligned : l.pages_addr % size_4k ≡ 0
  pub below : l.pages_addr + nr_pages * size_4k < 2 ^ 64

-- The fields of PMP entries 0 to 3 that main sets up: entry 1 is TOR with R, W and X, entry 3 is TOR
-- with R and X, and the others are off.
abbrev pub configured : ℕ → ℕ
configured k = if k == 1 then 15 else if k == 3 then 13 else 0

abbrev pub Configured : Machine → Type 0
Configured m = (k : ℕ) → k < 4 → pmpcfg_read m k ≡ configured k

pub Configured-same : (m n : Machine) → m.csr pmpcfg0 ≡ n.csr pmpcfg0 → Configured n → Configured m
Configured-same m n e c k h = pmpcfg_read-same m n k (omega arith) e ∙ c k h

-- The registers of those entries
abbrev pub pmp_csrs : List ℕ
pmp_csrs = pmpcfg0 ∷ pmpaddr 0 ∷ pmpaddr 1 ∷ pmpaddr 2 ∷ pmpaddr 3 ∷ []

-- User mode can write the byte at `addr`: it lies in the range of a TOR entry with W, which goes
-- from the address register of the entry before to its own.
abbrev pub Writable : Machine → ℕ → Type 0
Writable m addr =
    (i : ℕ) × (i < 4)
    × (bit_and (pmpcfg_read m i) (pmpcfg_a_tor + pmpcfg_w) ≡ pmpcfg_a_tor + pmpcfg_w)
    × ((if i == 0 then 0 else m.csr (pmpaddr (i - 1))) ≤ addr / 4)
    × (addr / 4 < m.csr (pmpaddr i))

-- With those fields, that is entry 1.
Writable-first :
    (m : Machine) (addr : ℕ)
    → Configured m
    → Writable m addr
    → (m.csr (pmpaddr 0) ≤ addr / 4) × (addr / 4 < m.csr (pmpaddr 1))
Writable-first m addr c (i, h, f, lo, hi) = elim (which i h) [
  | inl e ↦ absurd (off (sym (ap (λ n. bit_and n 10) (c i h ∙ ap configured e)) ∙ f))
  | inr (inl e) ↦ (rw e at lo, rw e at hi)
  | inr (inr (inl e)) ↦ absurd (off (sym (ap (λ n. bit_and n 10) (c i h ∙ ap configured e)) ∙ f))
  | inr (inr (inr e)) ↦ absurd (closed (sym (ap (λ n. bit_and n 10) (c i h ∙ ap configured e)) ∙ f))
]
  where
    which : (n : ℕ) → n < 4 → (n ≡ 0) ⊎ (n ≡ 1) ⊎ (n ≡ 2) ⊎ (n ≡ 3)
    which n k = omega arith

    off : ◌≢◌ {A = ℕ} 0 10
    off = omega arith

    closed : ◌≢◌ {A = ℕ} 8 10
    closed = omega arith

module _ (l : Layout) where
  -- The registers hold the bounds of the process `p`, in words of four bytes.
  abbrev pub Bounded : (ℕ → ℕ) → Proc → Type 0
  Bounded csr p =
      (csr (pmpaddr 0) ≡ (l.pages_addr + p.lower * size_4k) % 2 ^ 64 / 4)
      × (csr (pmpaddr 1) ≡ (l.pages_addr + p.upper * size_4k) % 2 ^ 64 / 4)

  -- The PMP entries are those that main sets up, and entry 1 is bounded by the pages of the current
  -- process.
  abbrev pub Guarded : State → Type 0
  Guarded s = Configured s.machine × Bounded s.machine.csr (s.procs s.current_pid)

  spawned-Guarded :
      (s : State) (fileid quota pid : ℕ)
      → IsValid s
      → MaySpawn s quota pid
      → Guarded s
      → Guarded (spawned l s fileid quota pid)
  unfolding spawned
  spawned-Guarded s fileid quota pid v m g = (
    Configured-same (spawned l s fileid quota pid).machine s.machine refl g.0,
    rw (parent_after l s fileid quota pid v m) (ground arith, ground arith),
  )

  switch_pmp-Bounded : (m : Machine) (p : Proc) → Bounded (switch_pmp l m p).csr p
  unfolding switch_pmp pmpaddr_write csr_write
  switch_pmp-Bounded m p = (refl, refl)

  -- The registers that a switch restores are not those of the PMP.
  restored-Bounded :
      (m : Machine) (p q : Proc) → Bounded m.csr p → Bounded (proc_restore_csrs m q).csr p
  unfolding proc_restore_csrs
  restored-Bounded m p q b = (
    copy_csrs_lem proc_csrs q.saved m.csr (pmpaddr 0) ∙ b.0,
    copy_csrs_lem proc_csrs q.saved m.csr (pmpaddr 1) ∙ b.1,
  )

  pub switched-Bounded :
      (m : Machine) (p : Proc) → Bounded (proc_restore_csrs (switch_pmp l m p) p).csr p
  switched-Bounded m p = restored-Bounded (switch_pmp l m p) p p (switch_pmp-Bounded m p)

  pub switched-pmpcfg0 :
      (m : Machine) (p : Proc)
      → (proc_restore_csrs (switch_pmp l m p) p).csr pmpcfg0 ≡ m.csr pmpcfg0
  unfolding proc_restore_csrs switch_pmp pmpaddr_write csr_write
  switched-pmpcfg0 m p = copy_csrs_lem proc_csrs p.saved (switch_pmp l m p).csr pmpcfg0

  yielded-Guarded : (s : State) (regs : ℕ → ℕ) → Guarded s → Guarded (yielded l s regs)
  unfolding yielded
  yielded-Guarded s regs g =
      let p = update s.procs s.current_pid (saved_proc s regs) (s.procs s.current_pid).next in
      (
        Configured-same (yielded l s regs).machine s.machine (switched-pmpcfg0 s.machine p) g.0,
        switched-Bounded s.machine p,
      )

  entered-Guarded :
      (s : State)
      → Guarded s
      → Guarded (record s { machine = csr_write s.machine mepc (add64 (s.machine.csr mepc) 4) })
  unfolding csr_write
  entered-Guarded s g = (Configured-same _ s.machine refl g.0, g.1)

  -- A trap from a valid state in which the PMP entries are those that main sets up and entry 1 is
  -- bounded by the pages of the current process ends in one where they still are and entry 1 is
  -- bounded by the pages of the process that is then the current one.
  pub do_trap_ecall_s-Guarded :
      (s : State) → IsValid s → Guarded s → Ends Guarded (do_trap_ecall_s l s)
  do_trap_ecall_s-Guarded s v g =
      let m = csr_write s.machine mepc (add64 (s.machine.csr mepc) 4) in
      let w = IsValid-machine s m v in
      let g' = entered-Guarded s g in
      do_trap_ecall_s-Ends Guarded
        (λ t n e b. (
          Configured-same n t.machine (ap (λ f. f pmpcfg0) e) b.0,
          (ap (λ f. f (pmpaddr 0)) e ∙ b.1.0, ap (λ f. f (pmpaddr 1)) e ∙ b.1.1),
        ))
        l s w g' (λ f q i k. spawned-Guarded (record s { machine = m }) f q i w k g')
        (λ regs. yielded-Guarded (record s { machine = m }) regs g')

  -- With those entries and the bounds of `p`, a byte of the page array that is writable is one of the pages of `p`.
  pub Writable-inside :
      (m : Machine) (p : Proc) (a : ℕ)
      → Placed l
      → p.lower ≤ nr_pages
      → p.upper ≤ nr_pages
      → Configured m
      → Bounded m.csr p
      → Writable m (l.pages_addr + a)
      → (p.lower * size_4k ≤ a) × (a < p.upper * size_4k)
  Writable-inside m p a placed h k c b w =
      let (lo, hi) = Writable-first m (l.pages_addr + a) c w in
      omega (arith, placed.aligned, placed.below, b.0, b.1, lo, hi)
