-- ===== src/Keystone/Run.antt =====
-- sys_run_enclave: into an enclave at its entry, and the invariant.
use serval_sosp.Base.{
  ℕ, ◌<◌, ◌≡◌, ◌⊎◌, inl, inr, ◌∙◌, false, not, ◌&&◌, ◌==◌, lt→ltb, update, arith, returns, ℕ-cases,
  Bool-cases,
}
use serval_sosp.Base.Word.{neg64}
use serval_sosp.Machine.Regs.{clear_pt_regs}
use serval_sosp.Machine.Csr.{mepc}
use serval_sosp.Machine.Mcall.{einval}
use serval_sosp.Keystone.State.{State, nr_enclaves, enclave_fresh, enclave_idle}
use serval_sosp.Keystone.Enclave.{sys_resume_enclave, sys_run_enclave, eid_is_valid}
use serval_sosp.Keystone.Invariant.{IsValid}
use serval_sosp.Keystone.Resume.{
  MayResume, resume_state, sys_resume_enclave-accepts, resume_state-IsValid,
}

-- The host may run an enclave from its entry that is fresh or idle.
pub record MayRun (s : State) (eid : ℕ) : Type 0 where
  pub host : s.enclave_mode ≡ false
  pub eid_in : eid < nr_enclaves
  pub stopped : ((s.enclaves eid).status ≡ enclave_idle) ⊎ ((s.enclaves eid).status ≡ enclave_fresh)

module _ (base : ℕ) where
  module _ (s : State) (eid : ℕ) where
    -- The state behind the writes of sys_run_enclave: cleared registers, and the entry as `mepc`.
    unfoldable pub start_state : State
    start_state =
        let e = s.enclaves eid in
        record s {
          enclaves = update s.enclaves eid (record e {
            encl_state = record {
              saved = update e.encl_state.saved mepc e.entry;
              regs = clear_pt_regs e.encl_state.regs;
            };
            status = enclave_idle;
          });
        }

    start_state-MayResume : MayRun s eid → MayResume start_state eid
    unfolding start_state
    start_state-MayResume m = record { host = m.host; eid_in = m.eid_in; idle = ground arith }

    start_state-IsValid : IsValid base s → MayRun s eid → IsValid base start_state
    unfolding start_state
    start_state-IsValid v m = record {
      region = λ i h l. ground (arith, v.region i h, m.stopped);
      empty = λ i h e. ground (arith, v.empty i h);
      apart = λ i j hi hj ne li lj. ground (arith, v.apart i j hi hj ne, m.stopped);
      mode_runs = λ e. ground (arith, m.host);
      runs_mode = λ i h r. ground (arith, v.runs_mode i h, m.host);
      guarded = λ i h l. ground (arith, v.guarded i h, m.stopped);
      rest = ground (arith, v.rest, m.host);
    }

    run-enters : MayRun s eid → sys_run_enclave base s eid ≡ sys_resume_enclave base start_state eid
    unfolding sys_run_enclave eid_is_valid start_state
    run-enters m = simp (m.host, lt→ltb eid nr_enclaves m.eid_in, status_test)
      where
        status_test :
            (not ((s.enclaves eid).status == enclave_idle)
              && not ((s.enclaves eid).status == enclave_fresh))
            ≡ false
        status_test = ground (arith, m.stopped)

    pub sys_run_enclave-accepts :
        MayRun s eid → sys_run_enclave base s eid ≡ returns 0 (resume_state base start_state eid)
    sys_run_enclave-accepts m =
        run-enters m ∙ sys_resume_enclave-accepts base start_state eid (start_state-MayResume m)

    pub sys_run_enclave-refuses :
        ¬ MayRun s eid → sys_run_enclave base s eid ≡ returns (neg64 einval) s
    unfolding sys_run_enclave eid_is_valid
    sys_run_enclave-refuses no_way = ground (arith, denied)
      where
        denied :
            s.enclave_mode ≡ false
            → eid < nr_enclaves
            → ((s.enclaves eid).status ≡ enclave_idle) ⊎ ((s.enclaves eid).status ≡ enclave_fresh)
            → ⊥
        denied a b c = no_way (record { host = a; eid_in = b; stopped = c })

    pub sys_run_enclave-cases :
        (MayRun s eid
          × (sys_run_enclave base s eid ≡ returns 0 (resume_state base start_state eid)))
        ⊎ (sys_run_enclave base s eid ≡ returns (neg64 einval) s)
    sys_run_enclave-cases = elim decided [
      | inl m ↦ inl (m, sys_run_enclave-accepts m)
      | inr n ↦ inr (sys_run_enclave-refuses n)
    ]
      where
        decided : MayRun s eid ⊎ (¬ MayRun s eid)
        decided = ground (
          arith,
          Bool-cases s.enclave_mode,
          ℕ-cases (s.enclaves eid).status enclave_idle,
          ℕ-cases (s.enclaves eid).status enclave_fresh,
        )

    pub run_state-IsValid :
        IsValid base s → MayRun s eid → IsValid base (resume_state base start_state eid)
    run_state-IsValid v m =
        resume_state-IsValid base start_state eid (start_state-IsValid v m)
          (start_state-MayResume m)
