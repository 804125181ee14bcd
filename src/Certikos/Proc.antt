-- ===== src/Certikos/Proc.antt =====
-- monitors/certikos/proc.c.
use serval_sosp.Base.{
  ℕ, zero, suc, ◌+◌, ◌*◌, ◌/◌, ◌%◌, ◌^◌, Bool, ◌&&◌, List, [], ◌∷◌, if◌then◌else◌, ltb, leb, ◌==◌,
  not, update, fill, Outcome, returns, leaves, bug, out_of_bounds,
}
use serval_sosp.Base.Word.{sub64, add64}
use serval_sosp.Machine.Regs.{a0, a1, clear_pt_regs}
use serval_sosp.Machine.Csr.{
  Machine, copy_csrs, mepc, pmpaddr, satp, scause, scounteren, sepc, sscratch, sstatus, stvec,
  stval, sip, sie, listed,
}
use serval_sosp.Machine.Pmp.{pmpaddr_write}
use serval_sosp.Certikos.State.{
  State, Proc, Layout, nr_procs, nr_children, nr_pages, size_4k, proc_state_free, proc_state_run,
  pid_idle, proc_csrs, set_proc,
}

-- The fields that proc_init clears; it leaves `mepc` and `cpu` as they are.
abbrev pub cleared_csrs : List ℕ
cleared_csrs =
    satp ∷ scause ∷ scounteren ∷ sepc ∷ sscratch ∷ sstatus ∷ stvec ∷ stval ∷ sip ∷ sie ∷ []

-- One round of the loop of proc_init.
proc_init_entry : ℕ → Proc → Proc
proc_init_entry i p = record p {
  state = proc_state_free;
  owner = if leb nr_children i then i / nr_children else pid_idle;
  next = 0;
  lower = 0;
  upper = 0;
  saved = λ c. if listed cleared_csrs c then 0 else p.saved c;
}

-- The first `n` rounds.
unfoldable pub proc_init_loop : ℕ → (ℕ → Proc) → ℕ → Proc
unfolding proc_init_entry
proc_init_loop zero procs = procs
proc_init_loop (suc n) procs =
    let before = proc_init_loop n procs in update before n (proc_init_entry n (before n))

unfoldable pub proc_init : State → State
proc_init s = record s { procs = proc_init_loop nr_procs s.procs; current_pid = pid_idle }

-- `memset(&pages[lower], 0, count)`
unfoldable pub memset_pages : State → ℕ → ℕ → Outcome State
memset_pages s lower count =
    if leb (lower * size_4k + count) (nr_pages * size_4k)
    then returns 0 (record s { pages = fill s.pages (lower * size_4k) (lower * size_4k + count) 0 })
    else out_of_bounds

unfoldable pub is_pid_valid : ℕ → Bool
is_pid_valid pid = ltb 0 pid && ltb pid nr_procs

unfoldable pub is_proc_free : State → ℕ → Bool
is_proc_free s pid = (s.procs pid).state == proc_state_free

unfoldable pub is_pid_owned_by_current : State → ℕ → Bool
is_pid_owned_by_current s pid = (s.procs pid).owner == s.current_pid

unfoldable pub proc_save_csrs : Machine → Proc → Proc
proc_save_csrs m p = record p { saved = copy_csrs proc_csrs m.csr p.saved }

unfoldable pub proc_restore_csrs : Machine → Proc → Machine
proc_restore_csrs m p = record m { csr = copy_csrs proc_csrs p.saved m.csr }

module _ (l : Layout) where
  -- `&pages[n]`
  abbrev pub page_addr : ℕ → ℕ
  page_addr n = add64 l.pages_addr (n * size_4k)

  -- The new entry that proc_new writes.
  unfoldable pub new_proc : Proc → ℕ → ℕ → ℕ → ℕ → Proc
  new_proc p next fileid lower upper = record p {
    state = proc_state_run;
    next = next;
    lower = lower;
    upper = upper;
    saved = update p.saved mepc l.payload_start;
    cpu = update (update (clear_pt_regs p.cpu) a0 fileid) a1 (page_addr lower);
  }

  unfoldable pub proc_new : State → ℕ → ℕ → ℕ → ℕ → ℕ → Outcome State
  unfolding new_proc memset_pages
  proc_new s pid next fileid lower upper =
      if leb nr_procs pid
      then bug
      else if not ((s.procs pid).state == proc_state_free)
      then bug
      else memset_pages (set_proc s pid (new_proc (s.procs pid) next fileid lower upper)) lower
          (sub64 upper lower * size_4k % 2 ^ 64)

  -- The two pmpaddr_write calls that proc_switch and sys_spawn make. The TLB has no state here.
  unfoldable pub switch_pmp : Machine → Proc → Machine
  switch_pmp m p =
      pmpaddr_write (pmpaddr_write m (pmpaddr 0) (page_addr p.lower)) (pmpaddr 1)
        (page_addr p.upper)

  unfoldable pub proc_switch : State → ℕ → Outcome State
  unfolding switch_pmp proc_restore_csrs
  proc_switch s pid =
      if leb nr_procs pid
      then bug
      else let p = s.procs pid in
        let m = proc_restore_csrs (switch_pmp s.machine p) p in
        leaves (record s { machine = record m { frame = p.cpu } })
