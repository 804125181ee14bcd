-- ===== src/Certikos/Spawn/Quota.antt =====
-- sys_spawn moves pages from the parent to the child: the sum of the quotas stays.
use serval_sosp.Base.{
  ℕ, ◌-◌, ◌<◌, ◌≡◌, ◌≢◌, inl, inr, arith, if◌then◌else◌, ◌==◌, update, sum_below, sum_below-update,
  sum_below-cong,
}
use serval_sosp.Certikos.State.{State, Layout, Proc, nr_procs, proc_state_run}
use serval_sosp.Certikos.Invariant.{IsValid}
use serval_sosp.Certikos.Spawn.{MaySpawn, spawned, not_current}
use serval_sosp.Certikos.Spawn.Valid.{parent_after, child_after, other_after, which}

-- The pages of a process, none if it does not run.
abbrev pub quota_of : Proc → ℕ
quota_of p = if p.state == proc_state_run then p.upper - p.lower else 0

-- The pages of all processes.
unfoldable pub total_quota : State → ℕ
total_quota s = sum_below (λ i. quota_of (s.procs i)) nr_procs

module _ (l : Layout) (s : State) (fileid quota pid : ℕ) (v : IsValid s)
    (m : MaySpawn s quota pid) where
  abbrev before : ℕ → ℕ
  before i = quota_of (s.procs i)

  facts :
      (before s.current_pid ≡ (s.procs s.current_pid).upper - (s.procs s.current_pid).lower)
      × (before pid ≡ 0)
      × (s.current_pid ≢ pid)
  facts = (
    ground (arith, v.current_runs),
    ground (arith, m.free),
    ground (arith, not_current l s fileid quota pid v m),
  )

  -- The quotas afterwards, as two writes to those before.
  abbrev moved : ℕ → ℕ
  moved = update (update before s.current_pid (before s.current_pid - quota)) pid quota

  moved_lem : (i : ℕ) → i < nr_procs → quota_of ((spawned l s fileid quota pid).procs i) ≡ moved i
  moved_lem i h = elim (which l s fileid quota pid v m i) [
    | inl e ↦
        rw (← e, parent_after l s fileid quota pid v m)
          (ground (arith, facts, v.current_runs, m.quota_fits))
    | inr (inl e) ↦ rw (← e, child_after l s fileid quota pid v m) (ground arith)
    | inr (inr (k, n)) ↦ rw (other_after l s fileid quota pid v m i k n) (ground arith)
  ]

  -- The pages that the child gets are those that the parent loses.
  pub total_quota-spawned : total_quota (spawned l s fileid quota pid) ≡ total_quota s
  unfolding total_quota
  total_quota-spawned = omega (
    arith,
    sum_below-cong (λ i. quota_of ((spawned l s fileid quota pid).procs i)) moved nr_procs
        moved_lem,
    sum_below-update (update before s.current_pid (before s.current_pid - quota)) nr_procs pid quota
        m.pid_in,
    sum_below-update before nr_procs s.current_pid (before s.current_pid - quota) v.current_in,
    facts,
    m.quota_fits,
    other,
  )
    where
      other : update before s.current_pid (before s.current_pid - quota) pid ≡ 0
      other = ground (arith, facts)
