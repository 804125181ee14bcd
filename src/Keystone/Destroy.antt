-- ===== src/Keystone/Destroy.antt =====
-- sys_destroy_enclave: what it asks for, the state that it leaves, and the invariant.
use serval_sosp.Base.{
  ℕ, ◌+◌, ◌-◌, ◌≤◌, ◌<◌, ◌≡◌, ◌⊎◌, inl, inr, refl, true, false, not, ◌&&◌, if◌then◌else◌, ◌==◌, leb,
  ltb, lt→ltb, update, fill, arith, returns, ℕ-cases, Bool-cases,
}
use serval_sosp.Base.Word.{neg64, sub64}
use serval_sosp.Machine.Mcall.{einval}
use serval_sosp.Keystone.State.{
  State, nr_enclaves, max_payload_size, enclave_free, enclave_fresh, enclave_idle,
}
use serval_sosp.Keystone.Pmp.View.{set_bounds, view-set_bounds, free_pmp_region_lem}
use serval_sosp.Keystone.Enclave.{sys_destroy_enclave, eid_is_valid, memset_payload}
use serval_sosp.Keystone.Invariant.{IsValid}

-- The host may destroy an enclave that is fresh or idle.
pub record MayDestroy (s : State) (eid : ℕ) : Type 0 where
  pub host : s.enclave_mode ≡ false
  pub eid_in : eid < nr_enclaves
  pub stopped : ((s.enclaves eid).status ≡ enclave_idle) ⊎ ((s.enclaves eid).status ≡ enclave_fresh)

module _ (base : ℕ) (s : State) (eid : ℕ) (v : IsValid base s) where
  -- The state that a successful sys_destroy_enclave leaves.
  unfoldable pub destroy_state : State
  destroy_state =
      let e = s.enclaves eid in
      record s {
        enclaves =
            update s.enclaves eid
              (record e { status = enclave_free; secure_lower = 0; secure_upper = 0 });
        machine = set_bounds s.machine eid 0 0;
        payload = fill s.payload e.secure_lower e.secure_upper 0;
      }

  -- In a valid state, sys_destroy_enclave accepts an enclave that satisfies MayDestroy: it returns
  -- 0 in the state `destroy_state`.
  pub sys_destroy_enclave-accepts :
      MayDestroy s eid → sys_destroy_enclave s eid ≡ returns 0 destroy_state
  unfolding sys_destroy_enclave eid_is_valid destroy_state memset_payload
  sys_destroy_enclave-accepts m = simp (
    m.host,
    lt→ltb eid nr_enclaves m.eid_in,
    status_test,
    size.0,
    size.1,
    size.2,
    free_pmp_region_lem s.machine eid m.eid_in,
  )
    where
      status_test :
          (not ((s.enclaves eid).status == enclave_idle)
            && not ((s.enclaves eid).status == enclave_fresh))
          ≡ false
      status_test = ground (arith, m.stopped)

      bounds :
          ((s.enclaves eid).secure_lower ≤ (s.enclaves eid).secure_upper)
          × ((s.enclaves eid).secure_upper ≤ max_payload_size)
      bounds = ground (arith, m.stopped, v.region eid m.eid_in)

      size :
          (sub64 (s.enclaves eid).secure_upper (s.enclaves eid).secure_lower
            ≡ (s.enclaves eid).secure_upper - (s.enclaves eid).secure_lower)
          × ((s.enclaves eid).secure_lower
                + ((s.enclaves eid).secure_upper - (s.enclaves eid).secure_lower)
              ≡ (s.enclaves eid).secure_upper)
          × (leb (s.enclaves eid).secure_upper max_payload_size ≡ true)
      size = let b = bounds in (omega arith, omega arith, ground arith)

  pub sys_destroy_enclave-refuses :
      ¬ MayDestroy s eid → sys_destroy_enclave s eid ≡ returns (neg64 einval) s
  unfolding sys_destroy_enclave eid_is_valid
  sys_destroy_enclave-refuses no_way = ground (arith, denied)
    where
      denied :
          s.enclave_mode ≡ false
          → eid < nr_enclaves
          → ((s.enclaves eid).status ≡ enclave_idle) ⊎ ((s.enclaves eid).status ≡ enclave_fresh)
          → ⊥
      denied a b c = no_way (record { host = a; eid_in = b; stopped = c })

  pub sys_destroy_enclave-cases :
      (MayDestroy s eid × (sys_destroy_enclave s eid ≡ returns 0 destroy_state))
      ⊎ (sys_destroy_enclave s eid ≡ returns (neg64 einval) s)
  sys_destroy_enclave-cases = elim decided [
    | inl m ↦ inl (m, sys_destroy_enclave-accepts m)
    | inr n ↦ inr (sys_destroy_enclave-refuses n)
  ]
    where
      decided : MayDestroy s eid ⊎ (¬ MayDestroy s eid)
      decided = ground (
        arith,
        Bool-cases s.enclave_mode,
        ℕ-cases (s.enclaves eid).status enclave_idle,
        ℕ-cases (s.enclaves eid).status enclave_fresh,
      )

  -- A destroyed enclave leaves no byte of its region behind, and no other byte changes.
  pub destroy_state-payload :
      (a : ℕ)
      → destroy_state.payload a ≡ (
          if leb (s.enclaves eid).secure_lower a && ltb a (s.enclaves eid).secure_upper
          then 0
          else s.payload a)
  unfolding destroy_state
  destroy_state-payload a = refl

  pub destroy_state-IsValid : MayDestroy s eid → IsValid base destroy_state
  unfolding destroy_state
  destroy_state-IsValid m = record {
    region = λ i h l. ground (arith, v.region i h);
    empty = λ i h e. ground (arith, v.empty i h);
    apart = λ i j hi hj ne li lj. ground (arith, v.apart i j hi hj ne);
    mode_runs = λ e. ground (arith, m.host);
    runs_mode = λ i h r. ground (arith, v.runs_mode i h);
    guarded = λ i h l. ground (arith, m.eid_in, view-set_bounds s.machine eid i 0 0, v.guarded i h);
    rest = ground (arith, m.eid_in, m.host, view-set_bounds s.machine eid 3 0 0, v.rest);
  }

  -- In a valid state, sys_destroy_enclave succeeds on an enclave that satisfies MayDestroy, and
  -- then each byte of its secure region is zero and each other byte of the payload as before.
  pub sys_destroy_enclave-erases :
      MayDestroy s eid
      → (t : State) × (sys_destroy_enclave s eid ≡ returns 0 t)
        × ((a : ℕ)
            → (s.enclaves eid).secure_lower ≤ a
            → a < (s.enclaves eid).secure_upper
            → t.payload a ≡ 0)
        × ((a : ℕ)
            → (a < (s.enclaves eid).secure_lower) ⊎ ((s.enclaves eid).secure_upper ≤ a)
            → t.payload a ≡ s.payload a)
  unfolding destroy_state
  sys_destroy_enclave-erases m =
      (destroy_state, sys_destroy_enclave-accepts m, λ a h k. ground arith, λ a h. ground arith)
