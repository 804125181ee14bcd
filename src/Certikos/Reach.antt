-- ===== src/Certikos/Reach.antt =====
-- Runs of the system: the current process computes in user mode, and traps into the monitor.
use serval_sosp.Base.{
  true, ℕ, ◌+◌, ◌*◌, ◌≤◌, ◌<◌, ◌≡◌, ◌≢◌, refl, ap, ◌∙◌, subst, returns, leaves, Ends, arith,
}
use serval_sosp.Machine.Csr.{Machine, pmpaddr, pmpcfg0, listed}
use serval_sosp.Certikos.State.{State, Proc, Layout, nr_procs, size_4k}
use serval_sosp.Certikos.Traps.{do_trap_ecall_s}
use serval_sosp.Certikos.Invariant.{IsValid, Runs}
use serval_sosp.Certikos.Trap.{do_trap_ecall_s-IsValid, do_trap_ecall_s-Untouched}
use serval_sosp.Certikos.Guard.{
  pmp_csrs, Configured-same, Placed, Guarded, Writable, Writable-inside, do_trap_ecall_s-Guarded,
}

-- In user mode the registers change at will, but not those of the PMP, which only the monitor can
-- write; and of the page array, only the bytes change that the PMP lets user mode write.
pub data Step (l : Layout) : State → State → Type 0 where
  user :
      (s : State) (m : Machine) (pages : ℕ → ℕ)
      → ((c : ℕ) → listed pmp_csrs c ≡ true → m.csr c ≡ s.machine.csr c)
      → ((a : ℕ) → (¬ Writable s.machine (l.pages_addr + a)) → pages a ≡ s.pages a)
      → Step l s (record s { machine = m; pages = pages })
  trap_returns : (s t : State) (r : ℕ) → do_trap_ecall_s l s ≡ returns r t → Step l s t
  trap_leaves : (s t : State) → do_trap_ecall_s l s ≡ leaves t → Step l s t

module _ (l : Layout) where
  Step-IsValid : (s t : State) → Step l s t → IsValid s → IsValid t
  Step-IsValid s t (user _ m pages pmp keep) v = record {
    current_in = v.current_in;
    current_runs = v.current_runs;
    bounds = v.bounds;
    next_in = v.next_in;
    next_runs = v.next_runs;
    apart = v.apart;
  }
  Step-IsValid s t (trap_returns _ _ r e) v = subst (Ends IsValid) e (do_trap_ecall_s-IsValid l s v)
  Step-IsValid s t (trap_leaves _ _ e) v = subst (Ends IsValid) e (do_trap_ecall_s-IsValid l s v)

  Step-Guarded : (s t : State) → Step l s t → IsValid s → Guarded l s → Guarded l t
  Step-Guarded s t (user _ m pages pmp keep) v g = (
    Configured-same m s.machine (pmp pmpcfg0 refl) g.0,
    (pmp (pmpaddr 0) refl ∙ g.1.0, pmp (pmpaddr 1) refl ∙ g.1.1),
  )
  Step-Guarded s t (trap_returns _ _ r e) v g =
      subst (Ends (Guarded l)) e (do_trap_ecall_s-Guarded l s v g)
  Step-Guarded s t (trap_leaves _ _ e) v g =
      subst (Ends (Guarded l)) e (do_trap_ecall_s-Guarded l s v g)

  -- Runs during which the process `j` is never the current one.
  pub data Without (j : ℕ) (s : State) : State → Type 0 where
    stay : Without j s s
    go : {t u : State} → Without j s t → j ≢ t.current_pid → Step l t u → Without j s u

  module _ (placed : Placed l) (j : ℕ) (j_in : j < nr_procs) where
    -- PMP entry 1 lets the current process write no page of another one.
    denied :
        (s : State)
        → IsValid s
        → Guarded l s
        → Runs s j
        → j ≢ s.current_pid
        → (a : ℕ) → (s.procs j).lower * size_4k ≤ a
        → a < (s.procs j).upper * size_4k
        → ¬ Writable s.machine (l.pages_addr + a)
    denied s v g r ne a lo hi w =
        let b = v.bounds s.current_pid v.current_in in
        let inside =
          Writable-inside l s.machine (s.procs s.current_pid) a placed (omega (arith, b))
            (omega (arith, b)) g.0 g.1 w in
        ground (arith, inside, v.apart j s.current_pid j_in v.current_in ne r v.current_runs)

    Step-entry :
        (s t : State)
        → Step l s t
        → IsValid s
        → Guarded l s
        → Runs s j
        → j ≢ s.current_pid
        → (a : ℕ) → (s.procs j).lower * size_4k ≤ a
        → a < (s.procs j).upper * size_4k
        → (t.procs j ≡ s.procs j) × (t.pages a ≡ s.pages a)
    Step-entry s t (user _ m pages _ keep) v g r ne a lo hi =
        (refl, keep a (denied s v g r ne a lo hi))
    Step-entry s t (trap_returns _ _ r' e) v g r ne a lo hi =
        subst (Ends (λ u. (u.procs j ≡ s.procs j) × (u.pages a ≡ s.pages a))) e
          (do_trap_ecall_s-Untouched l s v j a j_in r ne lo hi)
    Step-entry s t (trap_leaves _ _ e) v g r ne a lo hi =
        subst (Ends (λ u. (u.procs j ≡ s.procs j) × (u.pages a ≡ s.pages a))) e
          (do_trap_ecall_s-Untouched l s v j a j_in r ne lo hi)

    Without-kept : (s t : State) → IsValid s → Guarded l s → Without j s t → IsValid t × Guarded l t
    Without-kept s t v g stay = (v, g)
    Without-kept s t v g (go {t = u} w ne st) =
        let (v', g') = Without-kept s u v g w in (Step-IsValid u t st v', Step-Guarded u t st v' g')

    -- From a valid state in which the PMP entries are those that main sets up, entry 1 bounded by
    -- the pages of the current process: as long as a running process is not scheduled, no step of
    -- the others, which write what the PMP lets them, or of the monitor changes its entry, with the
    -- saved registers, or a byte of its pages. The page array is aligned and ends below 2 ^ 64.
    pub Without-Untouched :
        (s t : State)
        → IsValid s
        → Guarded l s
        → Runs s j
        → (a : ℕ) → (s.procs j).lower * size_4k ≤ a
        → a < (s.procs j).upper * size_4k
        → Without j s t
        → (t.procs j ≡ s.procs j) × (t.pages a ≡ s.pages a)
    Without-Untouched s t v g r a lo hi stay = (refl, refl)
    Without-Untouched s t v g r a lo hi (go {t = u} w ne st) =
        let before = Without-Untouched s u v g r a lo hi w in
        let e = ap (λ (p : Proc). p.lower) before.0 in
        let e' = ap (λ (p : Proc). p.upper) before.0 in
        let (v', g') = Without-kept s u v g w in
        let step =
          Step-entry u t st v' g' (ap (λ (p : Proc). p.state) before.0 ∙ r) ne a (rw e lo)
            (rw e' hi) in
        (step.0 ∙ before.0, step.1 ∙ before.1)
