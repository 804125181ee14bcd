-- ===== src/Keystone/Resume.antt =====
-- sys_resume_enclave: into an enclave, and the invariant.
use serval_sosp.Base.{
  ℕ, ◌<◌, ◌≡◌, ◌⊎◌, inl, inr, true, false, if◌then◌else◌, ◌==◌, lt→ltb, update, arith, returns,
  ℕ-cases, Bool-cases,
}
use serval_sosp.Base.Word.{neg64, shr64}
use serval_sosp.Machine.Csr.{Machine}
use serval_sosp.Machine.Mcall.{einval}
use serval_sosp.Keystone.State.{
  State, Enclave, nr_enclaves, enclave_idle, enclave_running, save_cpu_state, restore_cpu_state,
}
use serval_sosp.Keystone.Pmp.{offset_to_phys}
use serval_sosp.Keystone.Pmp.View.{
  view, set_bounds, set_perm, view-set_bounds, view-set_perm, chmod_pmp_region_lem,
  remap_shared_region_lem,
}
use serval_sosp.Keystone.Enclave.{sys_resume_enclave, eid_is_valid}
use serval_sosp.Keystone.Invariant.{IsValid, view-restore_cpu_state}

pub record MayResume (s : State) (eid : ℕ) : Type 0 where
  pub host : s.enclave_mode ≡ false
  pub eid_in : eid < nr_enclaves
  pub idle : (s.enclaves eid).status ≡ enclave_idle

module _ (base : ℕ) where
  module _ (s : State) (eid : ℕ) where
    -- The machine as the enclave gets it: its context, its region open, its shared region.
    unfoldable pub resume_machine : Machine
    resume_machine =
        let e = s.enclaves eid in
        set_perm
          (set_bounds (set_perm (restore_cpu_state s.machine e.encl_state) eid 7) 3
            (offset_to_phys base e.shared_lower) (offset_to_phys base e.shared_upper))
          3 3

    unfoldable pub resume_state : State
    unfolding resume_machine
    resume_state = record s {
      enclave_mode = true;
      current_enclave = eid;
      enclaves = update s.enclaves eid (record (s.enclaves eid) { status = enclave_running });
      host_state = save_cpu_state s.machine s.host_state;
      machine = resume_machine;
    }

    pub sys_resume_enclave-accepts :
        MayResume s eid → sys_resume_enclave base s eid ≡ returns 0 resume_state
    unfolding sys_resume_enclave eid_is_valid resume_state
    sys_resume_enclave-accepts m = simp (
      m.host,
      lt→ltb eid nr_enclaves m.eid_in,
      m.idle,
      chmod_pmp_region_lem (restore_cpu_state s.machine (s.enclaves eid).encl_state) eid 7 m.eid_in,
      remap_shared_region_lem base
          (set_perm (restore_cpu_state s.machine (s.enclaves eid).encl_state) eid 7)
          (s.enclaves eid).shared_lower (s.enclaves eid).shared_upper,
    )

    pub sys_resume_enclave-refuses :
        ¬ MayResume s eid → sys_resume_enclave base s eid ≡ returns (neg64 einval) s
    unfolding sys_resume_enclave eid_is_valid
    sys_resume_enclave-refuses no_way = ground (arith, denied)
      where
        denied :
            s.enclave_mode ≡ false → eid < nr_enclaves → (s.enclaves eid).status ≡ enclave_idle → ⊥
        denied a b c = no_way (record { host = a; eid_in = b; idle = c })

    pub sys_resume_enclave-cases :
        (MayResume s eid × (sys_resume_enclave base s eid ≡ returns 0 resume_state))
        ⊎ (sys_resume_enclave base s eid ≡ returns (neg64 einval) s)
    sys_resume_enclave-cases = elim decided [
      | inl m ↦ inl (m, sys_resume_enclave-accepts m)
      | inr n ↦ inr (sys_resume_enclave-refuses n)
    ]
      where
        decided : MayResume s eid ⊎ (¬ MayResume s eid)
        decided =
            ground (arith, Bool-cases s.enclave_mode, ℕ-cases (s.enclaves eid).status enclave_idle)

    view-resume :
        (i : ℕ)
        → eid < nr_enclaves
        → i < 4
        → view resume_machine i ≡ (
            if i == 3
            then record {
              lower = shr64 (offset_to_phys base (s.enclaves eid).shared_lower) 2;
              upper = shr64 (offset_to_phys base (s.enclaves eid).shared_upper) 2;
              cfg = 11;
            }
            else if eid == i
            then record (view s.machine i) { cfg = 15 }
            else view s.machine i)
    unfolding resume_machine
    view-resume i h hi = ground (
      arith,
      view-set_perm
          (set_bounds (set_perm restored eid 7) 3 (offset_to_phys base e.shared_lower)
            (offset_to_phys base e.shared_upper))
          3 i 3,
      view-set_bounds (set_perm restored eid 7) 3 i (offset_to_phys base e.shared_lower)
          (offset_to_phys base e.shared_upper),
      view-set_perm restored eid i 7,
      view-restore_cpu_state s.machine e.encl_state i,
    )
      where
        e : Enclave
        e = s.enclaves eid

        restored : Machine
        restored = restore_cpu_state s.machine e.encl_state

    pub resume_state-IsValid : IsValid base s → MayResume s eid → IsValid base resume_state
    unfolding resume_state
    resume_state-IsValid v m = record {
      region = λ i h l. ground (arith, v.region i h, m.idle);
      empty = λ i h e. ground (arith, v.empty i h);
      apart = λ i j hi hj ne li lj. ground (arith, v.apart i j hi hj ne, m.idle);
      mode_runs = λ e. ground (arith, m.eid_in);
      runs_mode = λ i h r. ground (arith, v.runs_mode i h, m.host);
      guarded = λ i h l.
          ground (arith, view-resume i m.eid_in, v.guarded i h, m.idle, m.host, v.runs_mode i h);
      rest = ground (arith, view-resume 3 m.eid_in);
    }
