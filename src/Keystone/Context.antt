-- ===== src/Keystone/Context.antt =====
-- The contexts of the host and of an enclave across sys_resume_enclave and sys_exit_enclave.
use serval_sosp.Base.{ℕ, ◌<◌, ◌≡◌, ◌≢◌, refl, ◌∙◌, ap, true, arith}
use serval_sosp.Machine.Regs.{PtRegs, pt_regs_words, copy_pt_regs}
use serval_sosp.Machine.Csr.{
  Machine, csr_write, csr_set, csr_clear, copy_csrs, copy_csrs_lem, listed, pmpcfg0, pmpcfg2,
  pmpaddr,
}
use serval_sosp.Machine.Pmp.{pmpaddr_write, pmpcfg_write}
use serval_sosp.Keystone.State.{State, CpuState, cpu_csrs, save_cpu_state, restore_cpu_state}
use serval_sosp.Keystone.Pmp.View.{set_bounds, set_perm}
use serval_sosp.Keystone.Resume.{resume_state}
use serval_sosp.Keystone.Exit.{exit_state}

set_perm-csr :
    (m : Machine) (i p c : ℕ) → c ≢ pmpcfg0 → c ≢ pmpcfg2 → (set_perm m i p).csr c ≡ m.csr c
unfolding set_perm pmpcfg_write csr_set csr_clear
set_perm-csr m i p c a b = ground arith

set_bounds-csr :
    (m : Machine) (x y c : ℕ) → c ≢ pmpaddr 6 → c ≢ pmpaddr 7 → (set_bounds m 3 x y).csr c ≡ m.csr c
unfolding set_bounds pmpaddr_write csr_write
set_bounds-csr m x y c a b = ground arith

-- No register of a context is a PMP register.
listed-not_pmp :
    (c : ℕ)
    → listed cpu_csrs c ≡ true
    → (c ≢ pmpcfg0) × (c ≢ pmpcfg2) × (c ≢ pmpaddr 6) × (c ≢ pmpaddr 7)
listed-not_pmp c e = (
  λ q. ground (arith, ap (listed cpu_csrs) q),
  λ q. ground (arith, ap (listed cpu_csrs) q),
  λ q. ground (arith, ap (listed cpu_csrs) q),
  λ q. ground (arith, ap (listed cpu_csrs) q),
)

-- The PMP writes of a switch leave the registers of a context alone.
pmp_writes-csr :
    (m : Machine) (i p x y q c : ℕ)
    → listed cpu_csrs c ≡ true
    → (set_perm (set_bounds (set_perm m i p) 3 x y) 3 q).csr c ≡ m.csr c
pmp_writes-csr m i p x y q c e =
    let (a, b, d, f) = listed-not_pmp c e in
    set_perm-csr (set_bounds (set_perm m i p) 3 x y) 3 q c a b
    ∙ set_bounds-csr (set_perm m i p) x y c d f
    ∙ set_perm-csr m i p c a b

-- And the registers of the trap frame.
pmp_writes-frame :
    (m : Machine) (i p x y q : ℕ)
    → (set_perm (set_bounds (set_perm m i p) 3 x y) 3 q).frame ≡ m.frame
unfolding set_perm set_bounds pmpcfg_write pmpaddr_write csr_write csr_set csr_clear
pmp_writes-frame m i p x y q = refl

-- A context that is saved and restored is as it was.
saved_restored :
    (m n : Machine) (k : CpuState) (i c : ℕ)
    → i < pt_regs_words
    → listed cpu_csrs c ≡ true
    → let r = restore_cpu_state n (save_cpu_state m k) in
      (r.frame i ≡ m.frame i) × (r.csr c ≡ m.csr c)
unfolding save_cpu_state restore_cpu_state copy_pt_regs
saved_restored m n k i c h e = (
  ground arith,
  ground (
    arith,
    copy_csrs_lem cpu_csrs (copy_csrs cpu_csrs m.csr k.saved) n.csr c,
    copy_csrs_lem cpu_csrs m.csr k.saved c,
  ),
)

module _ (base : ℕ) (i c : ℕ) (i_in : i < pt_regs_words) (c_in : listed cpu_csrs c ≡ true) where
  -- What sys_resume_enclave keeps for the host comes back with sys_exit_enclave.
  pub host_restored :
      (s t : State) (eid : ℕ)
      → t.host_state ≡ (resume_state base s eid).host_state
      → let m = (exit_state base t).machine in
        (m.frame i ≡ s.machine.frame i) × (m.csr c ≡ s.machine.csr c)
  unfolding exit_state resume_state
  host_restored s t eid kept =
      let r = saved_restored s.machine t.machine s.host_state i c i_in c_in in
      (
        ap (λ (f : PtRegs). f i)
              (pmp_writes-frame (restore_cpu_state t.machine t.host_state) t.current_enclave 0 _ _
                7)
            ∙ ap (λ (k : CpuState). (restore_cpu_state t.machine k).frame i) kept
            ∙ r.0,
        pmp_writes-csr (restore_cpu_state t.machine t.host_state) t.current_enclave 0 _ _ 7 c c_in
            ∙ ap (λ (k : CpuState). (restore_cpu_state t.machine k).csr c) kept
            ∙ r.1,
      )

  exit_saves :
      (s : State)
      → ((exit_state base s).enclaves s.current_enclave).encl_state
        ≡ save_cpu_state s.machine (s.enclaves s.current_enclave).encl_state
  unfolding exit_state
  exit_saves s = ground arith

  -- What sys_exit_enclave keeps of an enclave comes back with sys_resume_enclave.
  pub enclave_restored :
      (s t : State)
      → (t.enclaves s.current_enclave).encl_state
        ≡ ((exit_state base s).enclaves s.current_enclave).encl_state
      → let m = (resume_state base t s.current_enclave).machine in
        (m.frame i ≡ s.machine.frame i) × (m.csr c ≡ s.machine.csr c)
  unfolding resume_state
  enclave_restored s t kept =
      let e = s.enclaves s.current_enclave in
      let f = t.enclaves s.current_enclave in
      let r = saved_restored s.machine t.machine e.encl_state i c i_in c_in in
      let same = kept ∙ exit_saves s in
      (
        ap (λ (g : PtRegs). g i)
              (pmp_writes-frame (restore_cpu_state t.machine f.encl_state) s.current_enclave 7 _ _
                3)
            ∙ ap (λ (k : CpuState). (restore_cpu_state t.machine k).frame i) same
            ∙ r.0,
        pmp_writes-csr (restore_cpu_state t.machine f.encl_state) s.current_enclave 7 _ _ 3 c c_in
            ∙ ap (λ (k : CpuState). (restore_cpu_state t.machine k).csr c) same
            ∙ r.1,
      )
