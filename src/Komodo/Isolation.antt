-- ===== src/Komodo/Isolation.antt =====
-- The PMP entry of the secure pages through every trap and at boot.
use serval_sosp.Base.{
  ℕ, ◌≡◌, inl, inr, refl, ◌∙◌, ltb, arith, Bool-cases, Outcome, returns, leaves, halts, bug,
  out_of_bounds, lift, Ends,
}
use serval_sosp.Machine.Regs.{PtRegs, a0, a1, a2, a3, a4}
use serval_sosp.Machine.Csr.{Machine, csr_write}
use serval_sosp.Machine.Pmp.{pmpcfg_read}
use serval_sosp.Machine.Pmp.Fields.{pmpcfg_read-pmpcfg_write}
use serval_sosp.Machine.Mcall.{do_mcall, do_mcall-csr}
use serval_sosp.Komodo.State.{State, Layout, set_word}
use serval_sosp.Komodo.Monitor.{
  allocate_page, allocated, init_addrspace_state, removed, init_ptable, kom_smc_init_addrspace,
  kom_smc_init_dispatcher, kom_smc_init_l2ptable, kom_smc_init_l3ptable, kom_smc_map_secure,
  kom_smc_map_insecure, kom_smc_remove, kom_smc_finalise, kom_smc_stop,
}
use serval_sosp.Komodo.World.{
  kom_smc_enter, kom_smc_resume, kom_svc_exit, kom_handle_trap, enter_secure_world,
  leave_secure_world, entered_state, left_state, answer_host,
}
use serval_sosp.Komodo.Traps.{
  smc_call, do_smc_calls, do_svc_calls, do_trap_ecall_s, do_trap, step_over, answer, main,
  supervisor_init, pmp_init, init_monitor,
}
use serval_sosp.Komodo.Guard.{
  Guarded, secure_machine-guard, normal_machine-guard, guard-csr, guard-mepc, Always,
  Always-and_then, Always-mono, Same, Same-Guarded,
}

enter-Guarded : (s : State) (page : ℕ) → Always Guarded (enter_secure_world s page)
unfolding enter_secure_world entered_state Guarded
enter-Guarded s page = elim (Bool-cases (ltb page 1024)) [
  | inl e ↦ rw e (
      guard-csr _ (entered_state s page (s.secure_pages page)).machine refl
      ∙ secure_machine-guard _)
  | inr e ↦ ground (arith, e)
]

leave-Guarded : (s : State) (x : ℕ) → Always Guarded (leave_secure_world s x)
unfolding leave_secure_world left_state Guarded
leave-Guarded s x = elim (Bool-cases (ltb s.cur_dispatcher_pageno 1024)) [
  | inl e ↦ rw e (
      guard-csr _ (left_state s x (s.secure_pages s.cur_dispatcher_pageno)).machine refl
      ∙ normal_machine-guard _)
  | inr e ↦ ground (arith, e)
]

module _ (l : Layout) (s : State) where
  ptable-Same :
      (parent_type type page parent index : ℕ)
      → Always (Same s) (init_ptable l parent_type type s page parent index)
  unfolding init_ptable allocate_page allocated
  ptable-Same pt type page parent index = ground arith

  map_secure-Same :
      (page parent index mapping content : ℕ)
      → Always (Same s) (kom_smc_map_secure l s page parent index mapping content)
  unfolding kom_smc_map_secure allocate_page allocated
  map_secure-Same page parent index mapping content = ground arith

  map_insecure-Same :
      (parent index mapping content : ℕ)
      → Always (Same s) (kom_smc_map_insecure l s parent index mapping content)
  unfolding kom_smc_map_insecure
  map_insecure-Same parent index mapping content = ground arith

  dispatcher-Same :
      (page a entrypoint : ℕ) → Always (Same s) (kom_smc_init_dispatcher l s page a entrypoint)
  unfolding kom_smc_init_dispatcher allocate_page allocated
  dispatcher-Same page a entrypoint = ground arith

  addrspace-Same : (page l1 : ℕ) → Always (Same s) (kom_smc_init_addrspace s page l1)
  unfolding kom_smc_init_addrspace init_addrspace_state
  addrspace-Same page l1 = ground arith

  remove-Same : (page : ℕ) → Always (Same s) (kom_smc_remove s page)
  unfolding kom_smc_remove removed
  remove-Same page = ground arith

  finalise-Same : (page : ℕ) → Always (Same s) (kom_smc_finalise s page)
  unfolding kom_smc_finalise
  finalise-Same page = ground arith

  stop-Same : (page : ℕ) → Always (Same s) (kom_smc_stop s page)
  unfolding kom_smc_stop
  stop-Same page = ground arith

  -- Calls that stay on the host's side.
  Always-Same : (o : Outcome State) → Guarded s → Always (Same s) o → Always Guarded o
  Always-Same o g = Always-mono (Same s) Guarded o (λ t e. Same-Guarded s t e g)

  enter_call-Guarded : (page x y z : ℕ) → Guarded s → Always Guarded (kom_smc_enter s page x y z)
  unfolding kom_smc_enter
  enter_call-Guarded page x y z g = ground (
    arith,
    g,
    enter-Guarded (set_word (set_word (set_word s page 10 x) page 11 y) page 12 z) page,
  )

  resume_call-Guarded : (page : ℕ) → Guarded s → Always Guarded (kom_smc_resume s page)
  unfolding kom_smc_resume
  resume_call-Guarded page g = ground (arith, g, enter-Guarded s page)

  mcall-Same :
      (regs : PtRegs)
      → Guarded s
      → Always Guarded (lift (λ m. record s { machine = m }) (do_mcall s.machine regs))
  unfolding Guarded
  mcall-Same regs g = from (do_mcall s.machine regs) (do_mcall-csr s.machine regs)
    where
      from :
          (o : Outcome Machine)
          → Ends (λ m. m.csr ≡ s.machine.csr) o
          → Always Guarded (lift (λ m. record s { machine = m }) o)
      from (returns r m) e = guard-csr m s.machine e ∙ g
      from (leaves m) e = guard-csr m s.machine e ∙ g
      from (halts m) e = guard-csr m s.machine e ∙ g
      from bug e = absurd e
      from out_of_bounds e = absurd e

  smc_call-Guarded : (regs : PtRegs) → Guarded s → Always Guarded (smc_call l s regs)
  unfolding smc_call kom_smc_init_l2ptable kom_smc_init_l3ptable
  smc_call-Guarded regs g = ground (
    arith,
    g,
    mcall-Same regs g,
    Always-Same _ g (addrspace-Same (regs a0) (regs a1)),
    Always-Same _ g (dispatcher-Same (regs a0) (regs a1) (regs a2)),
    Always-Same _ g (ptable-Same 3 4 (regs a0) (regs a1) (regs a2)),
    Always-Same _ g (ptable-Same 4 5 (regs a0) (regs a1) (regs a2)),
    Always-Same _ g (map_secure-Same (regs a0) (regs a1) (regs a2) (regs a3) (regs a4)),
    Always-Same _ g (map_insecure-Same (regs a0) (regs a1) (regs a2) (regs a3)),
    Always-Same _ g (remove-Same (regs a0)),
    Always-Same _ g (finalise-Same (regs a0)),
    Always-Same _ g (stop-Same (regs a0)),
    enter_call-Guarded (regs a0) (regs a1) (regs a2) (regs a3) g,
    resume_call-Guarded (regs a0) g,
  )

answer-Guarded : (r : ℕ) (s : State) → Guarded s → Always Guarded (answer r s)
unfolding answer Guarded
answer-Guarded r s g = guard-csr _ s.machine refl ∙ g

step_over-Guarded : (s : State) → Guarded s → Guarded (step_over s)
unfolding step_over Guarded
step_over-Guarded s g = guard-mepc s.machine _ ∙ g

-- If the PMP entry of the secure pages grants access exactly in enclave mode, it does so after
-- every trap behind which there is a state.
pub do_trap-Guarded :
    (l : Layout) (s : State) (cause : ℕ) → Guarded s → Always Guarded (do_trap l s cause)
unfolding do_trap do_trap_ecall_s do_smc_calls do_svc_calls kom_svc_exit kom_handle_trap
do_trap-Guarded l s cause g = ground (
  arith,
  g,
  Always-and_then Guarded (smc_call l (step_over s) s.machine.frame) answer
      (smc_call-Guarded l (step_over s) s.machine.frame (step_over-Guarded s g)) answer-Guarded,
  svc,
  Always-and_then Guarded (kom_handle_trap s cause) (λ _ t. returns 0 t) trap (λ _ _ e. e),
)
  where
    trap : Always Guarded (kom_handle_trap s cause)
    trap = leave-Guarded _ 1

    svc : Always Guarded (do_svc_calls l s)
    svc =
        Always-and_then Guarded _ answer
          (ground (
            arith,
            step_over-Guarded s g,
            leave-Guarded (answer_host (step_over s) 0 (s.machine.frame a0)) 0,
          ))
          answer-Guarded

pmp_init-guard : (l : Layout) (m : Machine) → pmpcfg_read (pmp_init l m) 5 ≡ 8
unfolding pmp_init
pmp_init-guard l m = pmpcfg_read-pmpcfg_write _ 5 5 8 (omega arith) (omega arith) (omega arith)

supervisor_init-guard :
    (l : Layout) (m : Machine) (hartid dtb : ℕ)
    → pmpcfg_read (supervisor_init l m hartid dtb) 5 ≡ pmpcfg_read (pmp_init l m) 5
unfolding supervisor_init csr_write pmpcfg_read
supervisor_init-guard l m hartid dtb = refl

-- main leaves for the host with no access to the secure pages.
pub komodo_main-Guarded :
    (l : Layout) (s : State) (hartid dtb : ℕ) → Always Guarded (main l s hartid dtb)
unfolding main init_monitor Guarded
komodo_main-Guarded l s hartid dtb =
    supervisor_init-guard l s.machine hartid dtb ∙ pmp_init-guard l s.machine
