-- ===== src/Komodo/Paging.antt =====
-- Every trap keeps the page tables confined.
use serval_sosp.Base.{
  ℕ, ◌≡◌, ◌≢◌, inl, inr, refl, ◌∙◌, true, if◌then◌else◌, ltb, ◌==◌, arith, Bool-cases, Outcome,
  returns, leaves, halts, bug, out_of_bounds, lift,
}
use serval_sosp.Base.Word.{neg64}
use serval_sosp.Machine.Regs.{PtRegs, a0, a1, a2, a3, a4, a7}
use serval_sosp.Machine.Csr.{Machine}
use serval_sosp.Machine.Mcall.{do_mcall, enosys}
use serval_sosp.Komodo.State.{State, Layout, set_word}
use serval_sosp.Komodo.Monitor.{page_is_typed, kom_smc_init_l2ptable, kom_smc_init_l3ptable}
use serval_sosp.Komodo.World.{
  kom_smc_enter, kom_smc_resume, kom_svc_exit, kom_handle_trap, enter_secure_world,
  leave_secure_world, entered_state, left_state, left_page, answer_host,
}
use serval_sosp.Komodo.Traps.{
  smc_call, do_smc_calls, do_svc_calls, do_trap_ecall_s, do_trap, step_over, answer,
}
use serval_sosp.Komodo.Invariant.{IsValid, Accounted}
use serval_sosp.Komodo.Calls.{typed_iff, set_word-Accounted}
use serval_sosp.Komodo.Guard.{Always, Always-and_then}
use serval_sosp.Komodo.Confine.{set_word-Confined, page-Confined}
use serval_sosp.Komodo.Walk.{
  AllConfined, init_addrspace-Confined, finalise-Confined, stop-Confined, remove-Confined,
  map_insecure-Confined, init_ptable-Confined, map_secure-Confined, dispatcher-Confined,
}

module _ (l : Layout) where
  enter_world-Confined :
      (t : State) (page : ℕ) → AllConfined l t → Always (AllConfined l) (enter_secure_world t page)
  unfolding enter_secure_world entered_state AllConfined
  enter_world-Confined t page c = ground (arith, c)

  module _ (s : State) (v : Accounted s.pagedb s.secure_pages) (c : AllConfined l s) where
    resume-Confined : (page : ℕ) → Always (AllConfined l) (kom_smc_resume s page)
    unfolding kom_smc_resume
    resume-Confined page = ground (arith, c, enter_world-Confined s page c)

    arguments :
        (page x y z : ℕ)
        → (s.pagedb page).type ≡ 2
        → AllConfined l (set_word (set_word (set_word s page 10 x) page 11 y) page 12 z)
    unfolding AllConfined
    arguments page x y z two =
        let ne : (s.pagedb page).type ≢ 1 = λ e. omega (arith, e, two) in
        let s1 = set_word s page 10 x in
        let acc1 = set_word-Accounted s page 10 x ne v in
        let c1 = set_word-Confined l s v c page 10 x ne (λ lo _. absurd (omega (arith, two, lo))) in
        let s2 = set_word s1 page 11 y in
        let acc2 = set_word-Accounted s1 page 11 y ne acc1 in
        let c2 =
          set_word-Confined l s1 acc1 c1 page 11 y ne (λ lo _. absurd (omega (arith, two, lo))) in
        set_word-Confined l s2 acc2 c2 page 12 z ne (λ lo _. absurd (omega (arith, two, lo)))

    enter-Confined : (page x y z : ℕ) → Always (AllConfined l) (kom_smc_enter s page x y z)
    unfolding kom_smc_enter
    enter-Confined page x y z = elim (Bool-cases (page_is_typed s page 2)) [
      | inl e ↦ ground (
        arith,
        c,
        e,
        enter_world-Confined (set_word (set_word (set_word s page 10 x) page 11 y) page 12 z) page
            (arguments page x y z (typed_iff s page 2 e).1),
      )
      | inr e ↦ ground (arith, c, e)
    ]

    mcall-Confined :
        (o : Outcome Machine) → Always (AllConfined l) (lift (λ m. record s { machine = m }) o)
    unfolding AllConfined
    mcall-Confined (returns r m) = c
    mcall-Confined (leaves m) = c
    mcall-Confined (halts m) = c
    mcall-Confined bug = ground arith
    mcall-Confined out_of_bounds = ground arith

    smc_call-Confined : (regs : PtRegs) → Always (AllConfined l) (smc_call l s regs)
    unfolding smc_call kom_smc_init_l2ptable kom_smc_init_l3ptable
    smc_call-Confined regs = ground (
      arith,
      c,
      mcall-Confined (do_mcall s.machine regs),
      init_addrspace-Confined l s v c (regs a0) (regs a1),
      dispatcher-Confined l s v c (regs a0) (regs a1) (regs a2),
      init_ptable-Confined l s v c 3 (regs a0) (regs a1) (regs a2),
      init_ptable-Confined l s v c 4 (regs a0) (regs a1) (regs a2),
      map_secure-Confined l s v c (regs a0) (regs a1) (regs a2) (regs a3) (regs a4),
      map_insecure-Confined l s v c (regs a0) (regs a1) (regs a2) (regs a3),
      remove-Confined l s v c (regs a0),
      finalise-Confined l s v c (regs a0),
      stop-Confined l s v c (regs a0),
      enter-Confined (regs a0) (regs a1) (regs a2) (regs a3),
      resume-Confined (regs a0),
    )

  leave-Confined :
      (s : State) (x : ℕ)
      → Accounted s.pagedb s.secure_pages
      → AllConfined l s
      → (s.pagedb s.cur_dispatcher_pageno).type ≡ 2
      → Always (AllConfined l) (leave_secure_world s x)
  unfolding leave_secure_world left_state AllConfined
  leave-Confined s x v c two =
      let p = s.cur_dispatcher_pageno in
      elim (Bool-cases (ltb p 1024)) [
        | inl e ↦ rw e (
            page-Confined l s v c p (left_page s.machine x (s.secure_pages p))
              (λ z. omega (arith, z, two)) (inl (omega (arith, two))))
        | inr e ↦ ground (arith, e)
      ]

  exit-Confined :
      (s : State) (r y x : ℕ)
      → IsValid s
      → AllConfined l s
      → s.enclave_mode ≡ true
      → Always (AllConfined l) (leave_secure_world (answer_host s r y) x)
  unfolding answer_host AllConfined
  exit-Confined s r y x v c on =
      leave-Confined (answer_host s r y) x v.accounted c (v.dispatcher_typed on)

  answer-Confined : (r : ℕ) (s : State) → AllConfined l s → Always (AllConfined l) (answer r s)
  unfolding answer AllConfined
  answer-Confined r s c = c

  module _ (s : State) (v : IsValid s) (c : AllConfined l s) where
    stepped :
        IsValid (step_over s)
        × AllConfined l (step_over s)
        × ((step_over s).enclave_mode ≡ s.enclave_mode)
    unfolding step_over AllConfined
    stepped = (
      record {
        accounted = v.accounted;
        dispatcher_in = v.dispatcher_in;
        dispatcher_typed = v.dispatcher_typed;
      },
      c,
      refl,
    )

    -- In a valid state in which every page table of an address space that is not stopped points
    -- to pages of that address space of the next level, or, in the last level, to insecure pages,
    -- this is so after every trap behind which there is a state.
    pub do_trap-Confined : (cause : ℕ) → Always (AllConfined l) (do_trap l s cause)
    unfolding do_trap do_trap_ecall_s do_smc_calls do_svc_calls kom_svc_exit kom_handle_trap
    do_trap-Confined cause =
        let (v', c', same) = stepped in
        elim (Bool-cases s.enclave_mode) [
          | inl on ↦ ground (
            arith,
            c,
            on,
            Always-and_then (AllConfined l) _ answer (svc v' c' (same ∙ on)) answer-Confined,
            Always-and_then (AllConfined l) (kom_handle_trap s cause) (λ _ t. returns 0 t)
                (exit-Confined s _ cause 1 v c on) (λ _ _ e. e),
          )
          | inr off ↦ ground (
            arith,
            c,
            off,
            Always-and_then (AllConfined l) (smc_call l (step_over s) s.machine.frame) answer
                (smc_call-Confined (step_over s) v'.accounted c' s.machine.frame) answer-Confined,
          )
        ]
      where
        svc :
            IsValid (step_over s)
            → AllConfined l (step_over s)
            → (step_over s).enclave_mode ≡ true
            → Always (AllConfined l) (
                if s.machine.frame a7 == 30
                then kom_svc_exit (step_over s) (s.machine.frame a0)
                else returns (neg64 enosys) (step_over s))
        svc w d on = ground (arith, d, exit-Confined (step_over s) 0 (s.machine.frame a0) 0 w d on)
