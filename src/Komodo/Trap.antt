-- ===== src/Komodo/Trap.antt =====
-- do_trap and main as a whole: the page database is in order after each trap.
use serval_sosp.Base.{
  ℕ, ◌^◌, ◌<◌, ◌≡◌, ◌≢◌, inl, inr, refl, true, false, if◌then◌else◌, leb, arith, lt→ltb, Bool-cases,
  returns, leaves, Ends, Ends-and_then, Ends-lift, Ends-mono, lift, bit_and,
}
use serval_sosp.Machine.Regs.{PtRegs, a0, a1, a2, a3, a4}
use serval_sosp.Machine.Csr.{Machine, mstatus, sr_mpp, sr_mpp_m, sr_mpp_u}
use serval_sosp.Machine.Mcall.{do_mcall, do_mcall-Ends}
use serval_sosp.Komodo.State.{State, Layout, kom_secure_npages, set_word}
use serval_sosp.Komodo.Monitor.{page_is_typed}
use serval_sosp.Komodo.World.{
  kom_smc_enter, kom_smc_resume, enter_secure_world, entered_state, leave_secure_world, left_state,
  answer_host, kom_svc_exit, kom_handle_trap, kom_err_interrupted, kom_err_fault,
}
use serval_sosp.Komodo.Traps.{
  smc_call, do_smc_calls, do_svc_calls, do_trap_ecall_s, do_trap, step_over, answer, init_monitor,
  main, supervisor_init,
}
use serval_sosp.Komodo.Invariant.{IsValid, Accounted-words}
use serval_sosp.Komodo.Calls.{
  typed_iff, word-IsValid, init_addrspace-Ends, finalise-Ends, stop-Ends, remove-Ends,
  map_insecure-Ends,
}
use serval_sosp.Komodo.Allocs.{
  owner_in, init_dispatcher-Ends, init_l2ptable-Ends, init_l3ptable-Ends, map_secure-Ends,
}

-- The machine and the registers kept for the host do not matter.
IsValid-machine : (s : State) (m : Machine) → IsValid s → IsValid (record s { machine = m })
IsValid-machine s m v = record {
  accounted = v.accounted;
  dispatcher_in = v.dispatcher_in;
  dispatcher_typed = v.dispatcher_typed;
}

answer-Ends : (r : ℕ) (s : State) → IsValid s → Ends IsValid (answer r s)
unfolding answer
answer-Ends r s v = IsValid-machine s _ v

enter_secure_world-Ends :
    (s : State) (page : ℕ)
    → IsValid s
    → page < kom_secure_npages
    → (s.pagedb page).type ≡ 2
    → Ends IsValid (enter_secure_world s page)
unfolding enter_secure_world entered_state
enter_secure_world-Ends s page v h t =
    rw (lt→ltb page 1024 h)
      record { accounted = v.accounted; dispatcher_in = λ _. h; dispatcher_typed = λ _. t }

leave_secure_world-Ends :
    (s : State) (x : ℕ) → IsValid s → s.enclave_mode ≡ true → Ends IsValid (leave_secure_world s x)
unfolding leave_secure_world left_state
leave_secure_world-Ends s x v on =
    rw (lt→ltb s.cur_dispatcher_pageno 1024 (v.dispatcher_in on)) record {
      accounted =
          Accounted-words s.pagedb s.secure_pages v.accounted _
            (λ p h t. ground (arith, v.dispatcher_typed on))
            (λ p h t. ground (arith, v.dispatcher_typed on))
            (λ p h t. ground (arith, v.dispatcher_typed on));
      dispatcher_in = λ e. ground (arith, e);
      dispatcher_typed = λ e. ground (arith, e);
    }

answer_host-IsValid : (s : State) (r x : ℕ) → IsValid s → IsValid (answer_host s r x)
unfolding answer_host
answer_host-IsValid s r x v = record {
  accounted = v.accounted;
  dispatcher_in = v.dispatcher_in;
  dispatcher_typed = v.dispatcher_typed;
}

exit-Ends :
    (s : State) (x : ℕ) → IsValid s → s.enclave_mode ≡ true → Ends IsValid (kom_svc_exit s x)
unfolding kom_svc_exit answer_host
exit-Ends s x v on = leave_secure_world-Ends (answer_host s 0 x) 0 (answer_host-IsValid s 0 x v) on

handle_trap-Ends :
    (s : State) (cause : ℕ)
    → IsValid s
    → s.enclave_mode ≡ true
    → Ends IsValid (kom_handle_trap s cause)
unfolding kom_handle_trap answer_host
handle_trap-Ends s cause v on =
    let r = if leb (2 ^ 63) cause then kom_err_interrupted else kom_err_fault in
    leave_secure_world-Ends (answer_host s r cause) 1 (answer_host-IsValid s r cause v) on

module _ (l : Layout) (s : State) (v : IsValid s) (host : s.enclave_mode ≡ false) where
  resume-Ends : (page : ℕ) → Ends IsValid (kom_smc_resume s page)
  unfolding kom_smc_resume
  resume-Ends page = elim (Bool-cases (page_is_typed s page 2)) [
    | inl e ↦
        let (h, t) = typed_iff s page 2 e in
        let (a_in, _) = owner_in l s v host page 2 e (λ z. omega (arith, z)) in
        ground (arith, v, e, a_in, enter_secure_world-Ends s page v h t)
    | inr e ↦ ground (arith, v, e)
  ]

  enter-Ends : (page x y z : ℕ) → Ends IsValid (kom_smc_enter s page x y z)
  unfolding kom_smc_enter
  enter-Ends page x y z = elim (Bool-cases (page_is_typed s page 2)) [
    | inl e ↦
        let (h, t) = typed_iff s page 2 e in
        let (a_in, _) = owner_in l s v host page 2 e (λ z. omega (arith, z)) in
        let ne : (s.pagedb page).type ≢ 1 = λ z. omega (arith, z, t) in
        let s1 = set_word s page 10 x in
        let s2 = set_word s1 page 11 y in
        let v2 = word-IsValid s1 (word-IsValid s v host page 10 x ne) host page 11 y ne in
        let v3 = word-IsValid s2 v2 host page 12 z ne in
        ground (arith, v, e, a_in, enter_secure_world-Ends (set_word s2 page 12 z) page v3 h t)
    | inr e ↦ ground (arith, v, e)
  ]

  mcall-Ends :
      (regs : PtRegs)
      → Ends IsValid (lift (λ m. record s { machine = m }) (do_mcall s.machine regs))
  mcall-Ends regs =
      Ends-lift (λ m. record s { machine = m }) IsValid (do_mcall s.machine regs)
        (Ends-mono (λ _. Unit {0}) (λ m. IsValid (record s { machine = m }))
          (do_mcall s.machine regs) (λ m _. IsValid-machine s m v) (do_mcall-Ends s.machine regs))

  smc_call-Ends : (regs : PtRegs) → Ends IsValid (smc_call l s regs)
  unfolding smc_call
  smc_call-Ends regs = ground (
    arith,
    v,
    mcall-Ends regs,
    init_addrspace-Ends s v host (regs a0) (regs a1),
    init_dispatcher-Ends l s v host (regs a0) (regs a1) (regs a2),
    init_l2ptable-Ends l s v host (regs a0) (regs a1) (regs a2),
    init_l3ptable-Ends l s v host (regs a0) (regs a1) (regs a2),
    map_secure-Ends l s v host (regs a0) (regs a1) (regs a2) (regs a3) (regs a4),
    map_insecure-Ends l s v host (regs a0) (regs a1) (regs a2) (regs a3),
    remove-Ends s v host (regs a0),
    finalise-Ends s v host (regs a0),
    enter-Ends (regs a0) (regs a1) (regs a2) (regs a3),
    resume-Ends (regs a0),
    stop-Ends s v host (regs a0),
  )

module _ (l : Layout) (s : State) (v : IsValid s) where
  smc_calls-Ends : s.enclave_mode ≡ false → Ends IsValid (do_smc_calls l s)
  unfolding do_smc_calls step_over
  smc_calls-Ends host =
      Ends-and_then IsValid (smc_call l (step_over s) s.machine.frame) answer
        (smc_call-Ends l (step_over s) (IsValid-machine s _ v) host s.machine.frame) answer-Ends

  svc_calls-Ends : s.enclave_mode ≡ true → Ends IsValid (do_svc_calls l s)
  unfolding do_svc_calls step_over
  svc_calls-Ends on =
      Ends-and_then IsValid _ answer
        (ground (
          arith,
          IsValid-machine s (step_over s).machine v,
          exit-Ends (step_over s) (s.machine.frame a0) (IsValid-machine s _ v) on,
        ))
        answer-Ends

  -- From a valid state, with MPP neither M nor U, every trap ends without BUG in a valid state.
  pub do_trap-IsValid :
      (cause : ℕ)
      → bit_and (s.machine.csr mstatus) sr_mpp ≢ sr_mpp_m
      → bit_and (s.machine.csr mstatus) sr_mpp ≢ sr_mpp_u
      → Ends IsValid (do_trap l s cause)
  unfolding do_trap do_trap_ecall_s
  do_trap-IsValid cause not_m not_u = elim (Bool-cases s.enclave_mode) [
    | inl on ↦ ground (
      arith,
      on,
      svc_calls-Ends on,
      Ends-and_then IsValid (kom_handle_trap s cause) (λ _ t. returns 0 t)
          (handle_trap-Ends s cause v on) (λ _ _ e. e),
    )
    | inr off ↦ ground (arith, off, v, smc_calls-Ends off)
  ]

-- main leaves for the host with every page free.
pub komodo_main-IsValid :
    (l : Layout) (s : State) (hartid dtb : ℕ)
    → (t : State) × (main l s hartid dtb ≡ leaves t) × IsValid t × (t.enclave_mode ≡ false)
unfolding main init_monitor
komodo_main-IsValid l s hartid dtb = (_, refl, valid, refl)
  where
    valid : IsValid (record (init_monitor l s) { machine = supervisor_init l s.machine hartid dtb })
    valid = record {
      accounted = record {
        owner_in = λ p h u. ground arith;
        owner_typed = λ p h u. ground arith;
        own = λ p h t. ground arith;
        counts = λ p h t. ground arith;
        root_in = λ p h t. ground arith;
        root_typed = λ p h t n. ground arith;
        root_owned = λ p h t n. ground arith;
      };
      dispatcher_in = λ e. ground arith;
      dispatcher_typed = λ e. ground arith;
    }
