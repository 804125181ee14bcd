-- ===== src/Certikos/Spawn/Valid.antt =====
-- sys_spawn keeps the invariant and touches only the two processes and the child's pages.
use serval_sosp.Base.{
  ℕ, ◌*◌, ◌≤◌, ◌<◌, ◌≡◌, ◌≢◌, ◌⊎◌, inl, inr, arith, returns, ℕ-cases, refl, if◌then◌else◌, leb, ltb,
  ◌&&◌, sym, ◌∙◌,
}
use serval_sosp.Certikos.State.{State, Proc, Layout, nr_procs, nr_pages, size_4k}
use serval_sosp.Certikos.Invariant.{IsValid, Runs, Apart}
use serval_sosp.Certikos.Traps.{sys_spawn}
use serval_sosp.Certikos.Spawn.{MaySpawn, spawned, sys_spawn-accepts, spawn_parent, spawn_child}

module _ (l : Layout) (s : State) (fileid quota pid : ℕ) (v : IsValid s)
    (m : MaySpawn s quota pid) where
  abbrev after : State
  after = spawned l s fileid quota pid

  pub parent_after : after.procs s.current_pid ≡ spawn_parent l (s.procs s.current_pid) quota pid
  unfolding spawned
  parent_after = ground arith

  pub child_after :
      after.procs pid ≡ spawn_child l (s.procs s.current_pid) (s.procs pid) fileid quota
  unfolding spawned
  child_after = elim (ℕ-cases s.current_pid pid) [
    | inl e ↦ ground (arith, m.free, v.current_runs)
    | inr ne ↦ ground arith
  ]

  pub other_after : (j : ℕ) → s.current_pid ≢ j → pid ≢ j → after.procs j ≡ s.procs j
  unfolding spawned
  other_after j h k = ground arith

  -- A pid is the parent's, the child's or another one.
  pub which : (j : ℕ) → (s.current_pid ≡ j) ⊎ ((pid ≡ j) ⊎ ((s.current_pid ≢ j) × (pid ≢ j)))
  which j = ground arith

  Runs-after : (j : ℕ) → Runs after j → (pid ≡ j) ⊎ Runs s j
  Runs-after j r = elim (which j) [
    | inl e ↦ inr (rw (← e) v.current_runs)
    | inr (inl e) ↦ inl e
    | inr (inr (h, k)) ↦ inr (rw (other_after j h k) at r)
  ]

  child-Runs : Runs after pid
  child-Runs = rw child_after refl

  Runs-kept : (j : ℕ) → Runs s j → Runs after j
  Runs-kept j r = elim (which j) [
    | inl e ↦ rw (← e, parent_after) v.current_runs
    | inr (inl e) ↦ rw (← e) child-Runs
    | inr (inr (h, k)) ↦ rw (other_after j h k) r
  ]

  bounds_after :
      (j : ℕ)
      → j < nr_procs
      → ((after.procs j).lower ≤ (after.procs j).upper) × ((after.procs j).upper ≤ nr_pages)
  bounds_after j h = elim (which j) [
    | inl e ↦
        rw (← e, parent_after) (omega (arith, v.bounds s.current_pid v.current_in, m.quota_fits))
    | inr (inl e) ↦ rw (← e, child_after) (omega (arith, v.bounds s.current_pid v.current_in))
    | inr (inr (h', k)) ↦ rw (other_after j h' k) (v.bounds j h)
  ]

  next_after :
      (j : ℕ)
      → j < nr_procs
      → Runs after j
      → ((after.procs j).next < nr_procs) × Runs after (after.procs j).next
  next_after j h r = elim (which j) [
    | inl e ↦ rw (← e, parent_after) (m.pid_in, child-Runs)
    | inr (inl e) ↦
        rw (← e, child_after)
          (
            v.next_in s.current_pid v.current_in v.current_runs,
            Runs-kept _ (v.next_runs s.current_pid v.current_in v.current_runs),
          )
    | inr (inr (h', k)) ↦
        let old : Runs s j = rw (other_after j h' k) at r in
        rw (other_after j h' k) (v.next_in j h old, Runs-kept _ (v.next_runs j h old))
  ]

  Apart-child :
      (j : ℕ) → j < nr_procs → pid ≢ j → Runs s j → Apart (after.procs pid) (after.procs j)
  Apart-child j h ne r = rw child_after (elim (which j) [
    | inl e ↦ rw (← e, parent_after) (ground arith)
    | inr (inl e) ↦ absurd (ne e)
    | inr (inr (h', k)) ↦ rw (other_after j h' k) (
        ground (
          arith,
          v.bounds s.current_pid v.current_in,
          m.quota_fits,
          v.apart s.current_pid j v.current_in h h' v.current_runs r,
        ))
  ])

  -- A process other than the child keeps its range, or loses the top of it.
  shrinks :
      (j : ℕ)
      → pid ≢ j
      → ((after.procs j).lower ≡ (s.procs j).lower) × ((after.procs j).upper ≤ (s.procs j).upper)
  shrinks j ne = elim (which j) [
    | inl e ↦ rw (← e, parent_after) (refl, omega arith)
    | inr (inl e) ↦ absurd (ne e)
    | inr (inr (h', k)) ↦ rw (other_after j h' k) (refl, omega arith)
  ]

  Apart-after :
      (i j : ℕ)
      → i < nr_procs
      → j < nr_procs
      → i ≢ j
      → Runs after i
      → Runs after j
      → Apart (after.procs i) (after.procs j)
  Apart-after i j hi hj ne ri rj = elim (ℕ-cases pid i) [
    | inl e ↦ rw (← e) (Apart-child j hj (λ c. ne (sym e ∙ c)) (old j (λ c. ne (sym e ∙ c)) rj))
    | inr ni ↦ elim (ℕ-cases pid j) [
      | inl e ↦
          rw (← e) (turn (after.procs pid) (after.procs i) (Apart-child i hi ni (old i ni ri)))
      | inr nj ↦
          ground
            (arith, shrinks i ni, shrinks j nj, v.apart i j hi hj ne (old i ni ri) (old j nj rj))
    ]
  ]
    where
      old : (k : ℕ) → pid ≢ k → Runs after k → Runs s k
      old k nk r = ground (arith, Runs-after k r)

      turn : (p q : Proc) → Apart p q → Apart q p
      turn p q (inl h) = inr h
      turn p q (inr h) = inl h

  -- A successful sys_spawn keeps the invariant: every running process has a range of its own inside
  -- the page array, apart from those of all others, and a running successor.
  pub spawned-IsValid : IsValid after
  unfolding spawned
  spawned-IsValid = record {
    current_in = v.current_in;
    current_runs = Runs-kept s.current_pid v.current_runs;
    bounds = bounds_after;
    next_in = λ i h r. (next_after i h r).0;
    next_runs = λ i h r. (next_after i h r).1;
    apart = Apart-after;
  }

  pub spawned-pages :
      (a : ℕ)
      → after.pages a ≡ (
          if leb ((after.procs pid).lower * size_4k) a && ltb a ((after.procs pid).upper * size_4k)
          then 0
          else s.pages a)
  unfolding spawned
  spawned-pages a = rw child_after refl

  -- From a valid state, a sys_spawn that MaySpawn allows returns 0, and in the page array the pages
  -- that are then the child's are cleared and no other byte is changed.
  pub sys_spawn-pages :
      (t : State) × (sys_spawn l s fileid quota pid ≡ returns 0 t)
      × ((a : ℕ)
          → t.pages a ≡ (
              if leb ((t.procs pid).lower * size_4k) a && ltb a ((t.procs pid).upper * size_4k)
              then 0
              else s.pages a))
  sys_spawn-pages = (after, sys_spawn-accepts l s fileid quota pid v m, spawned-pages)
