-- ===== src/Certikos/Trap.antt =====
-- do_trap_ecall_s as a whole: the invariant, and what a trap of one process leaves alone of another.
use serval_sosp.Base.{
  ℕ, ◌*◌, ◌≤◌, ◌<◌, ◌≡◌, ◌≢◌, inl, inr, refl, Ends, Ends-and_then, Ends-lift, Ends-mono, lt→ltb,
  arith, ◌-◌, sym, ap, ◌∙◌, leb, ltb, ◌&&◌, if◌then◌else◌,
}
use serval_sosp.Base.Word.{add64}
use serval_sosp.Machine.Regs.{PtRegs, a0, a1, a2}
use serval_sosp.Machine.Csr.{Machine, csr_write, mepc}
use serval_sosp.Machine.Mcall.{do_mcall, do_mcall-csr}
use serval_sosp.Certikos.State.{State, Layout, nr_procs, size_4k}
use serval_sosp.Certikos.Traps.{
  sys_spawn, sys_yield, sys_getpid, sys_get_quota, do_trap_ecall_s, mcall, set_result, syscall,
}
use serval_sosp.Certikos.Invariant.{IsValid, Runs}
use serval_sosp.Certikos.Spawn.{MaySpawn, spawned, sys_spawn-cases}
use serval_sosp.Certikos.Spawn.Valid.{spawned-IsValid, spawned-pages, other_after, child_after}
use serval_sosp.Certikos.Yield.{
  yielded, sys_yield-leaves, yielded-IsValid, yielded-other, yielded-pages,
}

-- What holds in every state that do_mcall leads to, because it looks at the
-- machine for its control registers alone.
module _ (P : State → Type 0)
    (blind : (s : State) (m : Machine)
      → m.csr ≡ s.machine.csr
      → P s
      → P (record s { machine = m })) where
  mcall-Ends : (s : State) (regs : PtRegs) → P s → Ends P (mcall s regs)
  unfolding mcall
  mcall-Ends s regs p =
      Ends-lift (λ m. record s { machine = m }) P (do_mcall s.machine regs)
        (Ends-mono (λ m. m.csr ≡ s.machine.csr) (λ m. P (record s { machine = m }))
          (do_mcall s.machine regs) (λ m e. blind s m e p) (do_mcall-csr s.machine regs))

  module _ (l : Layout) (s : State) (v : IsValid s) (p : P s)
      (spawn : (fileid quota pid : ℕ) → MaySpawn s quota pid → P (spawned l s fileid quota pid))
      (yield : (regs : PtRegs) → P (yielded l s regs)) where
    sys_spawn-Ends : (fileid quota pid : ℕ) → Ends P (sys_spawn l s fileid quota pid)
    sys_spawn-Ends fileid quota pid = elim (sys_spawn-cases l s fileid quota pid v) [
      | inl (m, e) ↦ rw e (spawn fileid quota pid m)
      | inr e ↦ rw e p
    ]

    sys_get_quota-Ends : Ends P (sys_get_quota s)
    unfolding sys_get_quota
    sys_get_quota-Ends = rw (lt→ltb s.current_pid nr_procs v.current_in) p

    sys_yield-Ends : (regs : PtRegs) → Ends P (sys_yield l s regs)
    sys_yield-Ends regs = rw (sys_yield-leaves l s regs v) (yield regs)

    syscall-Ends : (regs : PtRegs) → Ends P (syscall l s regs)
    unfolding syscall sys_getpid
    syscall-Ends regs = ground (
      arith,
      mcall-Ends s regs p,
      sys_get_quota-Ends,
      sys_spawn-Ends (regs a0) (regs a1) (regs a2),
      sys_yield-Ends regs,
    )

  -- What holds behind the write of mepc, and behind a spawn and a yield there, holds behind a trap.
  pub do_trap_ecall_s-Ends :
      (l : Layout) (s : State)
      → let e = record s { machine = csr_write s.machine mepc (add64 (s.machine.csr mepc) 4) } in
        IsValid e
        → P e
        → ((fileid quota pid : ℕ) → MaySpawn e quota pid → P (spawned l e fileid quota pid))
        → ((regs : PtRegs) → P (yielded l e regs))
        → Ends P (do_trap_ecall_s l s)
  unfolding do_trap_ecall_s set_result
  do_trap_ecall_s-Ends l s v p spawn yield =
      let e = record s { machine = csr_write s.machine mepc (add64 (s.machine.csr mepc) 4) } in
      Ends-and_then P (syscall l e s.machine.frame) set_result
        (syscall-Ends l e v p spawn yield s.machine.frame) (λ r t q. blind t _ refl q)

pub IsValid-machine : (s : State) (m : Machine) → IsValid s → IsValid (record s { machine = m })
IsValid-machine s m v = record {
  current_in = v.current_in;
  current_runs = v.current_runs;
  bounds = v.bounds;
  next_in = v.next_in;
  next_runs = v.next_runs;
  apart = v.apart;
}

module _ (l : Layout) (s : State) (v : IsValid s) where
  -- the state behind the write of mepc
  abbrev entered : State
  entered = record s { machine = csr_write s.machine mepc (add64 (s.machine.csr mepc) 4) }

  -- A trap from a valid state ends in a valid state: it does not reach BUG, and accesses no entry
  -- of procs and no byte of pages out of bounds.
  pub do_trap_ecall_s-IsValid : Ends IsValid (do_trap_ecall_s l s)
  do_trap_ecall_s-IsValid =
      let w = IsValid-machine s entered.machine v in
      do_trap_ecall_s-Ends IsValid (λ t m _. IsValid-machine t m) l s w w
        (λ f q i m. spawned-IsValid l entered f q i w m) (λ regs. yielded-IsValid l entered regs w)

  module _ (j a : ℕ) (j_in : j < nr_procs) (runs : Runs s j) (other : j ≢ s.current_pid)
      (above : (s.procs j).lower * size_4k ≤ a) (below : a < (s.procs j).upper * size_4k) where
    -- The entry of `j` and the byte at `a` are as in `s`.
    abbrev Untouched : State → Type 0
    Untouched t = (t.procs j ≡ s.procs j) × (t.pages a ≡ s.pages a)

    spawn-Untouched :
        (fileid quota pid : ℕ)
        → MaySpawn entered quota pid
        → Untouched (spawned l entered fileid quota pid)
    spawn-Untouched fileid quota pid m =
        let w = IsValid-machine s entered.machine v in
        (
          other_after l entered fileid quota pid w m j (λ e. other (sym e)) fresh,
          spawned-pages l entered fileid quota pid w m a
              ∙ rw (child_after l entered fileid quota pid w m) outside,
        )
      where
        fresh : pid ≢ j
        fresh e = ground (arith, runs, m.free, ap (λ k. (s.procs k).state) e)

        outside :
            (if leb (((s.procs s.current_pid).upper - quota) * size_4k) a
                && ltb a ((s.procs s.current_pid).upper * size_4k)
              then 0
              else s.pages a)
            ≡ s.pages a
        outside = ground (
          arith,
          v.apart j s.current_pid j_in v.current_in other runs v.current_runs,
          v.bounds s.current_pid v.current_in,
          m.quota_fits,
        )

    yield-Untouched : (regs : PtRegs) → Untouched (yielded l entered regs)
    yield-Untouched regs = (
      yielded-other l entered regs j (λ e. other (sym e)),
      ap (λ f. f a) (yielded-pages l entered regs),
    )

    -- A trap leaves every running process but the current one as it was: its entry, with its
    -- registers, and each byte of its pages.
    pub do_trap_ecall_s-Untouched : Ends Untouched (do_trap_ecall_s l s)
    do_trap_ecall_s-Untouched =
        do_trap_ecall_s-Ends Untouched (λ t m _ p. p) l s (IsValid-machine s entered.machine v)
          (refl, refl) spawn-Untouched yield-Untouched
