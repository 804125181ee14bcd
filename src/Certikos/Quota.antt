-- ===== src/Certikos/Quota.antt =====
-- monitors/certikos/traps.c: the quotas of all processes across a trap.
use serval_sosp.Base.{ℕ, ◌≡◌, refl, ◌∙◌, Ends, arith, sum_below-cong}
use serval_sosp.Base.Word.{add64}
use serval_sosp.Machine.Csr.{Machine, csr_write, mepc}
use serval_sosp.Certikos.State.{State, Layout, nr_procs}
use serval_sosp.Certikos.Traps.{do_trap_ecall_s}
use serval_sosp.Certikos.Invariant.{IsValid}
use serval_sosp.Certikos.Spawn.Quota.{quota_of, total_quota, total_quota-spawned}
use serval_sosp.Certikos.Yield.{yielded, yielded-SameRange}
use serval_sosp.Certikos.Trap.{do_trap_ecall_s-Ends, IsValid-machine}

module _ (l : Layout) (s : State) (v : IsValid s) where
  abbrev entered : State
  entered = record s { machine = csr_write s.machine mepc (add64 (s.machine.csr mepc) 4) }

  abbrev Same : State → Type 0
  Same t = total_quota t ≡ total_quota s

  entered-Same : Same entered
  unfolding total_quota
  entered-Same = refl

  yielded-Same : (regs : ℕ → ℕ) → Same (yielded l entered regs)
  unfolding total_quota
  yielded-Same regs =
      sum_below-cong (λ i. quota_of ((yielded l entered regs).procs i)) (λ i. quota_of (s.procs i))
        nr_procs
        (λ i h.
          ground (arith, yielded-SameRange l entered regs (IsValid-machine s entered.machine v) i))

  machine_kept : (t : State) (m : Machine) → Same t → Same (record t { machine = m })
  unfolding total_quota
  machine_kept t m e = e

  -- In a valid state, a trap of any kind leaves the sum of the quotas of all running processes as it
  -- was: a child gets the pages that its parent loses.
  pub do_trap_ecall_s-total_quota : Ends (λ t. total_quota t ≡ total_quota s) (do_trap_ecall_s l s)
  do_trap_ecall_s-total_quota =
      let w = IsValid-machine s entered.machine v in
      do_trap_ecall_s-Ends Same (λ t m _. machine_kept t m) l s w entered-Same
        (λ f q i m. total_quota-spawned l entered f q i w m ∙ entered-Same) yielded-Same
