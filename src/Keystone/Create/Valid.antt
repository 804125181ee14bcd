-- ===== src/Keystone/Create/Valid.antt =====
-- sys_create_enclave keeps the invariant.
use serval_sosp.Base.{ℕ, ◌<◌, ◌≡◌, ◌≢◌, arith}
use serval_sosp.Keystone.State.{State, nr_enclaves}
use serval_sosp.Keystone.Pmp.{offset_to_phys}
use serval_sosp.Keystone.Pmp.View.{view, set_perm, view-set_perm, view-set_bounds}
use serval_sosp.Keystone.Invariant.{IsValid, Live, Apart, guard_of, rest_of}
use serval_sosp.Keystone.Create.{MayCreate, create_state}

module _ (base : ℕ) (s : State) (eid entry lower upper shared_lower shared_upper : ℕ)
    (v : IsValid base s) (m : MayCreate s eid lower upper shared_lower shared_upper) where
  abbrev after : State
  after = create_state base s eid entry lower upper shared_lower shared_upper

  Apart-after :
      (i j : ℕ)
      → i < nr_enclaves
      → j < nr_enclaves
      → i ≢ j
      → Live after i
      → Live after j
      → Apart (after.enclaves i) (after.enclaves j)
  unfolding create_state
  Apart-after i j hi hj ne li lj =
      ground (arith, m.fresh_region i hi, m.fresh_region j hj, v.apart i j hi hj ne)

  view-after :
      (i : ℕ)
      → i < nr_enclaves
      → Live after i
      → view after.machine i ≡ guard_of base (after.enclaves i)
  unfolding create_state
  view-after i hi l = ground (
    arith,
    m.eid_in,
    view-set_bounds (set_perm s.machine eid 0) eid i (offset_to_phys base lower)
        (offset_to_phys base upper),
    view-set_perm s.machine eid i 0,
    v.guarded i hi,
  )

  rest_after : view after.machine 3 ≡ rest_of base after
  unfolding create_state
  rest_after = ground (
    arith,
    m.eid_in,
    m.host,
    view-set_bounds (set_perm s.machine eid 0) eid 3 (offset_to_phys base lower)
        (offset_to_phys base upper),
    view-set_perm s.machine eid 3 0,
    v.rest,
  )

  -- A successful sys_create_enclave keeps the invariant.
  pub create_state-IsValid : IsValid base after
  unfolding create_state
  create_state-IsValid = record {
    region = λ i h l. ground (arith, m.secure, v.region i h);
    empty = λ i h e. ground (arith, v.empty i h);
    apart = Apart-after;
    mode_runs = λ e. ground (arith, m.host);
    runs_mode = λ i h r. ground (arith, v.runs_mode i h);
    guarded = view-after;
    rest = rest_after;
  }
