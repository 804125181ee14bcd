-- ===== src/Certikos/Yield.antt =====
-- sys_yield: the context switch.
use serval_sosp.Base.{
  state_of, ℕ, ◌<◌, ◌≡◌, ◌≢◌, refl, ◌∙◌, ap, true, false, ◌==◌, leb, ltb, update, arith, leaves,
  sym,
}
use serval_sosp.Machine.Regs.{PtRegs, pt_regs_words, copy_pt_regs, copy_pt_regs-copied}
use serval_sosp.Machine.Csr.{copy_csrs_lem, listed}
use serval_sosp.Certikos.State.{State, Proc, Layout, nr_procs, proc_csrs}
use serval_sosp.Certikos.Proc.{proc_save_csrs, proc_restore_csrs, proc_switch, switch_pmp}
use serval_sosp.Certikos.Traps.{sys_yield, do_yield}
use serval_sosp.Certikos.Invariant.{IsValid, SameRange, IsValid-SameRange}

-- The entry of the process that yields, its context saved.
unfoldable pub saved_proc : State → PtRegs → Proc
saved_proc s regs =
    let p = s.procs s.current_pid in
    proc_save_csrs s.machine (record p { cpu = copy_pt_regs p.cpu regs })

module _ (l : Layout) where
  -- The state in which sys_yield leaves for the next process.
  unfoldable pub yielded : State → PtRegs → State
  yielded s regs =
      let procs = update s.procs s.current_pid (saved_proc s regs) in
      let next = (s.procs s.current_pid).next in
      let m = proc_restore_csrs (switch_pmp l s.machine (procs next)) (procs next) in
      record s {
        procs = procs;
        current_pid = next;
        machine = record m { frame = (procs next).cpu };
      }

  module _ (s : State) (regs : PtRegs) (v : IsValid s) where
    pub sys_yield-leaves : sys_yield l s regs ≡ leaves (yielded s regs)
    unfolding sys_yield do_yield proc_switch yielded saved_proc proc_save_csrs
    sys_yield-leaves = simp (lt_test, same, next_test)
      where
        lt_test : ltb s.current_pid nr_procs ≡ true
        lt_test = ground (arith, v.current_in)

        same : (s.current_pid == s.current_pid) ≡ true
        same = ground arith

        next_test : leb nr_procs (s.procs s.current_pid).next ≡ false
        next_test = ground (arith, v.next_in s.current_pid v.current_in v.current_runs)

    pub yielded-SameRange : (j : ℕ) → SameRange ((yielded s regs).procs j) (s.procs j)
    unfolding yielded saved_proc proc_save_csrs
    yielded-SameRange j = ground arith

    -- A switch keeps the invariant: the next process is a running one.
    pub yielded-IsValid : IsValid (yielded s regs)
    unfolding yielded
    yielded-IsValid =
        IsValid-SameRange s (yielded s regs) v yielded-SameRange
          (v.next_in s.current_pid v.current_in v.current_runs)
          (v.next_runs s.current_pid v.current_in v.current_runs)

    -- The saved context of the process that yields: its registers, and its control registers.
    pub saved_context :
        (i c : ℕ)
        → i < pt_regs_words
        → listed proc_csrs c ≡ true
        → let p = (yielded s regs).procs s.current_pid in
          (p.cpu i ≡ regs i) × (p.saved c ≡ s.machine.csr c)
    unfolding yielded saved_proc proc_save_csrs
    saved_context i c h e = ground (
      arith,
      copy_pt_regs-copied (s.procs s.current_pid).cpu regs i h,
      copy_csrs_lem proc_csrs s.machine.csr (s.procs s.current_pid).saved c,
    )

    -- The context with which the switch leaves is the one that the next process has saved.
    pub restored_context :
        (c : ℕ)
        → listed proc_csrs c ≡ true
        → let t = yielded s regs in
          let p = t.procs t.current_pid in (t.machine.frame ≡ p.cpu) × (t.machine.csr c ≡ p.saved c)
    unfolding yielded proc_restore_csrs
    restored_context c e = (
      refl,
      ground (
        arith,
        copy_csrs_lem proc_csrs (next_entry.saved) (switch_pmp l s.machine next_entry).csr c,
      ),
    )
      where
        next_entry : Proc
        next_entry = update s.procs s.current_pid (saved_proc s regs) (s.procs s.current_pid).next

  pub yielded-current :
      (s : State) (regs : PtRegs) → (yielded s regs).current_pid ≡ (s.procs s.current_pid).next
  unfolding yielded
  yielded-current s regs = refl

  pub yielded-other :
      (s : State) (regs : PtRegs) (j : ℕ) → s.current_pid ≢ j → (yielded s regs).procs j ≡ s.procs j
  unfolding yielded
  yielded-other s regs j ne = ground arith

  pub yielded-pages : (s : State) (regs : PtRegs) → (yielded s regs).pages ≡ s.pages
  unfolding yielded
  yielded-pages s regs = refl

  yielded_round_trip :
      (s t : State) (regs regs' : PtRegs) (i c : ℕ)
      → IsValid s
      → IsValid t
      → t.procs s.current_pid ≡ (yielded s regs).procs s.current_pid
      → t.current_pid ≢ s.current_pid
      → (t.procs t.current_pid).next ≡ s.current_pid
      → i < pt_regs_words
      → listed proc_csrs c ≡ true
      → let m = (yielded t regs').machine in (m.frame i ≡ regs i) × (m.csr c ≡ s.machine.csr c)
  yielded_round_trip s t regs regs' i c v w kept ne back h e =
      let r = restored_context t regs' w c e in
      let k = saved_context s regs v i c h e in
      (
        ap (λ (f : PtRegs). f i) r.0 ∙ ap (λ (p : Proc). p.cpu i) entry ∙ k.0,
        r.1 ∙ ap (λ (p : Proc). p.saved c) entry ∙ k.1,
      )
    where
      entry :
          (yielded t regs').procs (yielded t regs').current_pid
          ≡ (yielded s regs).procs s.current_pid
      entry =
          ap (yielded t regs').procs (yielded-current t regs' ∙ back)
          ∙ yielded-other t regs' s.current_pid ne
          ∙ kept

  -- A process that yields in `s`, so that the monitor leaves in `u`, and to which another one yields
  -- in `t`, the entry that it has in `u` untouched meanwhile: the second sys_yield leaves for it with
  -- its registers and control registers as they were at the first.
  pub yield_round_trip :
      (s u t : State) (regs regs' : PtRegs) (i c : ℕ)
      → IsValid s
      → IsValid t
      → sys_yield l s regs ≡ leaves u
      → t.procs s.current_pid ≡ u.procs s.current_pid
      → t.current_pid ≢ s.current_pid
      → (t.procs t.current_pid).next ≡ s.current_pid
      → i < pt_regs_words
      → listed proc_csrs c ≡ true
      → (w : State) × (sys_yield l t regs' ≡ leaves w)
        × (w.current_pid ≡ s.current_pid)
        × (w.machine.frame i ≡ regs i)
        × (w.machine.csr c ≡ s.machine.csr c)
  yield_round_trip s u t regs regs' i c v w left kept ne back h e =
      let same : u ≡ yielded s regs = ap (state_of u) (sym left ∙ sys_yield-leaves s regs v) in
      let entry = kept ∙ ap (λ (x : State). x.procs s.current_pid) same in
      let r = yielded_round_trip s t regs regs' i c v w entry ne back h e in
      (yielded t regs', sys_yield-leaves t regs' w, yielded-current t regs' ∙ back, r.0, r.1)
