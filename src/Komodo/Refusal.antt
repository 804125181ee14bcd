-- ===== src/Komodo/Refusal.antt =====
-- Calls of the host that fail, and calls that must fail.
use serval_sosp.Base.{
  ℕ, ◌<◌, ◌≡◌, ◌≢◌, inl, inr, sym, ◌∙◌, arith, Bool-cases, Outcome, returns, leaves, halts, bug,
  out_of_bounds,
}
use serval_sosp.Machine.Regs.{PtRegs, a0, a1, a2, a3, a4, a7}
use serval_sosp.Machine.Mcall.{sbi_last}
use serval_sosp.Komodo.State.{State, Layout, kom_secure_npages, state}
use serval_sosp.Komodo.Monitor.{
  page_is_valid, page_is_typed, allocate_page, kom_smc_init_addrspace, kom_smc_init_dispatcher,
  init_ptable, kom_smc_init_l2ptable, kom_smc_init_l3ptable, kom_smc_map_secure,
  kom_smc_map_insecure, kom_smc_remove, kom_smc_finalise, kom_smc_stop, kom_err_pageinuse,
}
use serval_sosp.Komodo.World.{kom_smc_enter, kom_smc_resume, enter_secure_world}
use serval_sosp.Komodo.Traps.{smc_call}
use serval_sosp.Komodo.Invariant.{IsValid, pages_of-one}

-- A result other than KOM_ERR_SUCCESS comes with the state `s`.
abbrev pub KeptOnError : State → Outcome State → Type 0
KeptOnError s (returns r t) = r ≢ 0 → t ≡ s
KeptOnError s (leaves t) = Unit {0}
KeptOnError s (halts t) = Unit {0}
KeptOnError s bug = Unit {0}
KeptOnError s out_of_bounds = Unit {0}

module _ (l : Layout) (s : State) where
  ptable-Kept :
      (parent_type type page parent index : ℕ)
      → KeptOnError s (init_ptable l parent_type type s page parent index)
  unfolding init_ptable allocate_page
  ptable-Kept pt type page parent index = ground arith

  map_secure-Kept :
      (page parent index mapping content : ℕ)
      → KeptOnError s (kom_smc_map_secure l s page parent index mapping content)
  unfolding kom_smc_map_secure allocate_page
  map_secure-Kept page parent index mapping content = ground arith

  map_insecure-Kept :
      (parent index mapping content : ℕ)
      → KeptOnError s (kom_smc_map_insecure l s parent index mapping content)
  unfolding kom_smc_map_insecure
  map_insecure-Kept parent index mapping content = ground arith

  dispatcher-Kept :
      (page a entrypoint : ℕ) → KeptOnError s (kom_smc_init_dispatcher l s page a entrypoint)
  unfolding kom_smc_init_dispatcher allocate_page
  dispatcher-Kept page a entrypoint = ground arith

  addrspace-Kept : (page l1 : ℕ) → KeptOnError s (kom_smc_init_addrspace s page l1)
  unfolding kom_smc_init_addrspace
  addrspace-Kept page l1 = ground arith

  remove-Kept : (page : ℕ) → KeptOnError s (kom_smc_remove s page)
  unfolding kom_smc_remove
  remove-Kept page = ground arith

  finalise-Kept : (page : ℕ) → KeptOnError s (kom_smc_finalise s page)
  unfolding kom_smc_finalise
  finalise-Kept page = ground arith

  stop-Kept : (page : ℕ) → KeptOnError s (kom_smc_stop s page)
  unfolding kom_smc_stop
  stop-Kept page = ground arith

  enter-Kept : (page x y z : ℕ) → KeptOnError s (kom_smc_enter s page x y z)
  unfolding kom_smc_enter enter_secure_world
  enter-Kept page x y z = ground arith

  resume-Kept : (page : ℕ) → KeptOnError s (kom_smc_resume s page)
  unfolding kom_smc_resume enter_secure_world
  resume-Kept page = ground arith

  -- A call of the host beyond the SBI calls that returns anything but KOM_ERR_SUCCESS has changed
  -- nothing.
  pub smc_call-KeptOnError :
      (regs : PtRegs) → sbi_last < regs a7 → KeptOnError s (smc_call l s regs)
  unfolding smc_call kom_smc_init_l2ptable kom_smc_init_l3ptable
  smc_call-KeptOnError regs h = ground (
    arith,
    ptable-Kept 3 4 (regs a0) (regs a1) (regs a2),
    ptable-Kept 4 5 (regs a0) (regs a1) (regs a2),
    map_secure-Kept (regs a0) (regs a1) (regs a2) (regs a3) (regs a4),
    map_insecure-Kept (regs a0) (regs a1) (regs a2) (regs a3),
    dispatcher-Kept (regs a0) (regs a1) (regs a2),
    addrspace-Kept (regs a0) (regs a1),
    remove-Kept (regs a0),
    finalise-Kept (regs a0),
    stop-Kept (regs a0),
    enter-Kept (regs a0) (regs a1) (regs a2) (regs a3),
    resume-Kept (regs a0),
  )

-- In a valid state, an address space to which another page in use belongs is not removed: the
-- call returns KOM_ERR_PAGEINUSE and changes nothing.
pub kom_smc_remove-refuses :
    (s : State) (page q : ℕ)
    → IsValid s
    → page < kom_secure_npages
    → (s.pagedb page).type ≡ 1
    → q < kom_secure_npages
    → q ≢ page
    → (s.pagedb q).type ≢ 0
    → (s.pagedb q).addrspace_page ≡ page
    → kom_smc_remove s page ≡ returns kom_err_pageinuse s
unfolding kom_smc_remove page_is_valid
kom_smc_remove-refuses s page q v h t hq ne u e =
    let more : s.secure_pages page 1 ≢ 1 = λ one. ground (
      arith,
      pages_of-one s.pagedb page q page h (ground (arith, v.accounted.own page h t))
          (sym (v.accounted.counts page h t) ∙ one) hq ne,
    ) in
    ground arith

-- No enclave of an address space that is not final is entered: kom_smc_enter and kom_smc_resume
-- return an error and change nothing.
pub kom_smc_enter-refuses :
    (s : State) (page x y z : ℕ)
    → IsValid s
    → s.secure_pages ((s.pagedb page).addrspace_page) state ≢ 1
    → (r : ℕ) × (q : ℕ) × (r ≢ 0)
      × (q ≢ 0)
      × (kom_smc_enter s page x y z ≡ returns r s)
      × (kom_smc_resume s page ≡ returns q s)
unfolding kom_smc_enter kom_smc_resume page_is_typed
kom_smc_enter-refuses s page x y z v n = elim (Bool-cases (page_is_typed s page 2)) [
  | inl e ↦ (
    5,
    5,
    (λ q. omega (arith, q)),
    (λ q. omega (arith, q)),
    ground (arith, e, v.accounted.owner_in page),
    ground (arith, e, v.accounted.owner_in page),
  )
  | inr e ↦
      (1, 1, (λ q. omega (arith, q)), (λ q. omega (arith, q)), ground (arith, e), ground (arith, e))
]
