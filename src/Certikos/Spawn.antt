-- ===== src/Certikos/Spawn.antt =====
-- sys_spawn: what it refuses, and the state that it leaves.
pub mod Valid
pub mod Quota
use serval_sosp.Base.{
  ℕ, ◌+◌, ◌-◌, ◌*◌, ◌/◌, ◌%◌, ◌^◌, ◌≤◌, ◌<◌, ◌≡◌, ◌≢◌, refl, ◌⊎◌, inl, inr, Bool, true, false, ◌==◌,
  update, update-overwritten, fill, ap, arith, returns, if◌then◌else◌, ltb, leb, Bool-cases,
  ℕ-cases,
}
use serval_sosp.Base.Word.{sub64, neg64}
use serval_sosp.Machine.Mcall.{einval}
use serval_sosp.Machine.Regs.{a0, a1, pt_regs_words, clear_pt_regs}
use serval_sosp.Machine.Csr.{mepc, pmpaddr, csr_write}
use serval_sosp.Machine.Pmp.{pmpaddr_write}
use serval_sosp.Certikos.State.{
  State, Proc, Layout, nr_procs, nr_pages, size_4k, proc_state_free, proc_state_run, set_proc,
}
use serval_sosp.Certikos.Proc.{
  proc_new, new_proc, is_pid_valid, is_proc_free, is_pid_owned_by_current, switch_pmp,
}
use serval_sosp.Certikos.Traps.{sys_spawn, array_index_nospec}
use serval_sosp.Certikos.Nospec.{array_index_nospec-in_bounds}
use serval_sosp.Certikos.Invariant.{IsValid, Runs, Apart}

-- What sys_spawn asks of its arguments: the quota is at hand, and the pid is a free one that the
-- current process owns.
pub record MaySpawn (s : State) (quota pid : ℕ) : Type 0 where
  pub quota_fits : quota ≤ (s.procs s.current_pid).upper - (s.procs s.current_pid).lower
  pub pid_pos : 0 < pid
  pub pid_in : pid < nr_procs
  pub owned : (s.procs pid).owner ≡ s.current_pid
  pub free : (s.procs pid).state ≡ proc_state_free

module _ (l : Layout) where
  -- The parent after the call: its top pages are gone and the child is next in its ring.
  abbrev pub spawn_parent : Proc → ℕ → ℕ → Proc
  spawn_parent p quota pid = record p { upper = p.upper - quota; next = pid }

  -- The child: it runs from the start of the payload, on the pages that the parent gives away, with
  -- its file and the address of its first page in a0 and a1 and all other registers cleared.
  abbrev pub spawn_child : Proc → Proc → ℕ → ℕ → Proc
  spawn_child p child fileid quota = record {
    state = proc_state_run;
    owner = child.owner;
    next = p.next;
    lower = p.upper - quota;
    upper = p.upper;
    saved = update child.saved mepc l.payload_start;
    cpu = λ i.
        if a1 == i
        then (l.pages_addr + (p.upper - quota) * size_4k) % 2 ^ 64
        else if a0 == i
        then fileid
        else if ltb i pt_regs_words
        then 0
        else child.cpu i;
  }

  -- The control registers after the call: the bounds of PMP entry 1 are those of the parent.
  abbrev pub bounded : (ℕ → ℕ) → ℕ → ℕ → ℕ → ℕ
  bounded csr lower upper c =
      if pmpaddr 1 == c
      then (l.pages_addr + upper * size_4k) % 2 ^ 64 / 4
      else if pmpaddr 0 == c
      then (l.pages_addr + lower * size_4k) % 2 ^ 64 / 4
      else csr c

  -- The state that a successful sys_spawn leaves, written out.
  unfoldable pub spawned : State → ℕ → ℕ → ℕ → State
  spawned s fileid quota pid =
      let p = s.procs s.current_pid in
      let parent = spawn_parent p quota pid in
      record s {
        machine = record (s.machine) { csr = bounded s.machine.csr p.lower (p.upper - quota) };
        procs =
            update (update s.procs pid (spawn_child p (s.procs pid) fileid quota)) s.current_pid
              parent;
        pages = fill s.pages ((p.upper - quota) * size_4k) (p.upper * size_4k) 0;
      }

  module _ (s : State) (fileid quota pid : ℕ) (v : IsValid s) (m : MaySpawn s quota pid) where
    abbrev lower : ℕ
    lower = (s.procs s.current_pid).lower

    abbrev upper : ℕ
    upper = (s.procs s.current_pid).upper

    pub not_current : (s.current_pid == pid) ≡ false
    not_current = elim (ℕ-cases s.current_pid pid) [
      | inl e ↦ absurd (differ e)
      | inr ne ↦ ground arith
    ]
      where
        differ : s.current_pid ≢ pid
        differ e = ground (arith, m.free, v.current_runs, ap (λ i. (s.procs i).state) e)

    in_range : (lower ≤ upper) × (upper ≤ nr_pages)
    in_range = v.bounds s.current_pid v.current_in

    -- The results of the tests and the differences on the way to success.
    checks :
        (ltb s.current_pid nr_procs ≡ true)
        × (ltb (sub64 upper lower) quota ≡ false)
        × (is_pid_valid pid ≡ true)
        × (ltb pid nr_procs ≡ true)
        × (leb nr_procs pid ≡ false)
        × (sub64 upper quota ≡ upper - quota)
        × (sub64 upper (upper - quota) * size_4k % 2 ^ 64 ≡ quota * size_4k)
        × ((upper - quota) * size_4k + quota * size_4k ≡ upper * size_4k)
        × (leb (upper * size_4k) (nr_pages * size_4k) ≡ true)
        × ((s.current_pid == s.current_pid) ≡ true)
        × ((pid == s.current_pid) ≡ false)
    unfolding is_pid_valid
    checks =
        let b = in_range in
        let c = v.current_in in
        (
          ground arith,
          ground (arith, m.quota_fits),
          ground (arith, m.pid_pos, m.pid_in),
          ground (arith, m.pid_in),
          ground (arith, m.pid_in),
          omega (arith, m.quota_fits),
          omega (arith, m.quota_fits),
          omega (arith, m.quota_fits),
          ground arith,
          ground arith,
          ground (arith, not_current),
        )

    -- In a valid state, sys_spawn accepts arguments that satisfy MaySpawn: it returns 0 in the
    -- state `spawned`.
    pub sys_spawn-accepts : sys_spawn l s fileid quota pid ≡ returns 0 (spawned s fileid quota pid)
    unfolding sys_spawn proc_new new_proc switch_pmp pmpaddr_write csr_write clear_pt_regs spawned
        is_proc_free is_pid_owned_by_current
    sys_spawn-accepts = simp (
      update-overwritten s.procs s.current_pid pid,
      array_index_nospec-in_bounds pid m.pid_in,
      m.free,
      m.owned,
      not_current,
      checks.0,
      checks.1,
      checks.2,
      checks.3,
      checks.4,
      checks.5,
      checks.6,
      checks.7,
      checks.8,
      checks.9,
      checks.10,
    )

  -- Otherwise the call changes nothing.
  module _ (s : State) (fileid quota pid : ℕ) (v : IsValid s) where
    MaySpawn-cases :
        MaySpawn s quota pid
        ⊎ ((ltb (sub64 (s.procs s.current_pid).upper (s.procs s.current_pid).lower) quota ≡ true)
            ⊎ ((is_pid_valid pid ≡ false)
                ⊎ ((pid < nr_procs)
                    × (((s.procs pid).owner ≢ s.current_pid)
                        ⊎ ((s.procs pid).state ≢ proc_state_free)))))
    unfolding is_pid_valid
    MaySpawn-cases = ground (arith, v.bounds s.current_pid, v.current_in)

    sys_spawn-rejected :
        (ltb (sub64 (s.procs s.current_pid).upper (s.procs s.current_pid).lower) quota ≡ true)
          ⊎ ((is_pid_valid pid ≡ false)
              ⊎ ((pid < nr_procs)
                  × (((s.procs pid).owner ≢ s.current_pid)
                      ⊎ ((s.procs pid).state ≢ proc_state_free))))
        → sys_spawn l s fileid quota pid ≡ returns (neg64 einval) s
    unfolding sys_spawn is_proc_free is_pid_owned_by_current
    sys_spawn-rejected (inl e) = ground (arith, v.current_in)
    sys_spawn-rejected (inr (inl e)) = ground (arith, v.current_in)
    sys_spawn-rejected (inr (inr (h, e))) =
        ground (arith, v.current_in, array_index_nospec-in_bounds pid h)

    -- In a valid state, sys_spawn refuses all other arguments: it returns -EINVAL and changes
    -- nothing.
    pub sys_spawn-refuses :
        ¬ MaySpawn s quota pid → sys_spawn l s fileid quota pid ≡ returns (neg64 einval) s
    sys_spawn-refuses no_way = elim MaySpawn-cases [
      | inl m ↦ absurd (no_way m)
      | inr e ↦ sys_spawn-rejected e
    ]

    pub sys_spawn-cases :
        (MaySpawn s quota pid
          × (sys_spawn l s fileid quota pid ≡ returns 0 (spawned s fileid quota pid)))
        ⊎ (sys_spawn l s fileid quota pid ≡ returns (neg64 einval) s)
    sys_spawn-cases = elim MaySpawn-cases [
      | inl m ↦ inl (m, sys_spawn-accepts s fileid quota pid v m)
      | inr e ↦ inr (sys_spawn-rejected e)
    ]
