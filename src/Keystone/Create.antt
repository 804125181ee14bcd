-- ===== src/Keystone/Create.antt =====
-- sys_create_enclave: what it asks for, and the state that it leaves.
pub mod Valid
use serval_sosp.Base.{
  ℕ, zero, suc, ◌+◌, ◌*◌, ◌%◌, ◌≤◌, ◌<◌, ◌≡◌, ◌≢◌, ◌⊎◌, inl, inr, refl, Bool, true, false,
  if◌then◌else◌, ◌==◌, ◌&&◌, ltb, ◌↔◌, lt→ltb, update, arith, returns, Bool-cases, ℕ-cases,
}
use serval_sosp.Base.Word.{neg64}
use serval_sosp.Machine.Mcall.{einval}
use serval_sosp.Keystone.State.{
  State, Enclave, nr_enclaves, max_payload_size, enclave_free, enclave_fresh, set_enclave,
}
use serval_sosp.Keystone.Pmp.{offset_to_phys}
use serval_sosp.Keystone.Pmp.View.{
  set_perm, set_bounds, chmod_pmp_region_lem, remap_pmp_region_lem, view-set_perm, view-set_bounds,
}
use serval_sosp.Keystone.Enclave.{
  sys_create_enclave, eid_is_valid, is_region_valid, is_region_overlap, overlap_loop,
}
use serval_sosp.Keystone.Invariant.{IsValid, Live, Apart}

-- A region [lower, upper) that sys_create_enclave takes.
pub record GoodRegion (lower upper : ℕ) : Type 0 where
  pub lower_aligned : lower % 4 ≡ 0
  pub upper_aligned : upper % 4 ≡ 0
  pub nonempty : lower < upper
  pub inside : upper ≤ max_payload_size

is_region_valid-cases :
    (lower upper : ℕ)
    → ((is_region_valid lower upper ≡ true) × GoodRegion lower upper)
      ⊎ ((is_region_valid lower upper ≡ false) × (¬ GoodRegion lower upper))
unfolding is_region_valid
is_region_valid-cases lower upper = elim (Bool-cases (is_region_valid lower upper)) [
  | inl e ↦ inl (e, ground arith)
  | inr e ↦ inr (e, λ g. ground arith)
]

overlap_loop-false :
    (f : ℕ → Enclave) (lower upper n i k : ℕ)
    → overlap_loop f lower upper n i ≡ false
    → i ≤ k
    → k < i + n
    → ((f k).secure_upper ≤ lower) ⊎ (upper ≤ (f k).secure_lower)
unfolding overlap_loop
overlap_loop-false f lower upper zero i k e h l = absurd (omega arith)
overlap_loop-false f lower upper (suc n) i k e h l = elim (ℕ-cases i k) [
  | inl same ↦ ground (arith, same)
  | inr ne ↦ ground (arith, overlap_loop-false f lower upper n (suc i) k)
]

overlap_loop-true :
    (f : ℕ → Enclave) (lower upper n i : ℕ)
    → overlap_loop f lower upper n i ≡ true
    → (k : ℕ) × (i ≤ k) × (k < i + n) × (lower < (f k).secure_upper) × ((f k).secure_lower < upper)
unfolding overlap_loop
overlap_loop-true f lower upper zero i e = cc
overlap_loop-true f lower upper (suc n) i e =
    elim (Bool-cases (ltb lower (f i).secure_upper && ltb (f i).secure_lower upper)) [
      | inl yes_here ↦ (i, ground arith, ground arith, ground arith, ground arith)
      | inr not_here ↦
          let (k, a, b, c, d) = overlap_loop-true f lower upper n (suc i) (rw not_here at e) in
          (k, omega arith, omega arith, c, d)
    ]

-- is_region_overlap answers whether a byte of the range lies in some enclave's secure region.
pub is_region_overlap_iff :
    (s : State) (lower upper : ℕ)
    → (is_region_overlap s lower upper ≡ true) ↔ (
        (k : ℕ) × (k < nr_enclaves)
        × (lower < (s.enclaves k).secure_upper)
        × ((s.enclaves k).secure_lower < upper))
unfolding is_region_overlap
is_region_overlap_iff s lower upper = (found, missed)
  where
    found :
        is_region_overlap s lower upper ≡ true
        → (k : ℕ) × (k < nr_enclaves)
          × (lower < (s.enclaves k).secure_upper)
          × ((s.enclaves k).secure_lower < upper)
    found e =
        let (k, a, b, c, d) = overlap_loop-true s.enclaves lower upper nr_enclaves 0 e in
        (k, b, c, d)

    missed :
        ((k : ℕ) × (k < nr_enclaves)
          × (lower < (s.enclaves k).secure_upper)
          × ((s.enclaves k).secure_lower < upper))
        → is_region_overlap s lower upper ≡ true
    missed (k, b, c, d) = elim (Bool-cases (is_region_overlap s lower upper)) [
      | inl e ↦ e
      | inr e ↦ absurd (
          ground
            (arith, overlap_loop-false s.enclaves lower upper nr_enclaves 0 k e (omega arith) b))
    ]

-- The range meets no region of an entry; that of a free entry is empty, but it counts here.
abbrev pub Clear : State → ℕ → ℕ → Type 0
Clear s lower upper =
    (k : ℕ)
    → k < nr_enclaves
    → ((s.enclaves k).secure_upper ≤ lower) ⊎ (upper ≤ (s.enclaves k).secure_lower)

is_region_overlap-cases :
    (s : State) (lower upper : ℕ)
    → ((is_region_overlap s lower upper ≡ false) × Clear s lower upper)
      ⊎ ((is_region_overlap s lower upper ≡ true) × (¬ Clear s lower upper))
unfolding is_region_overlap
is_region_overlap-cases s lower upper = elim (Bool-cases (is_region_overlap s lower upper)) [
  | inl e ↦
      let (k, h, a, b) = (is_region_overlap_iff s lower upper).0 e in
      inr (e, λ c. ground (arith, c k h))
  | inr e ↦
      inl (e, λ k h. overlap_loop-false s.enclaves lower upper nr_enclaves 0 k e (omega arith) h)
]

-- What sys_create_enclave asks for, the call coming from the host.
pub record MayCreate (s : State) (eid lower upper shared_lower shared_upper : ℕ) : Type 0 where
  pub host : s.enclave_mode ≡ false
  pub eid_in : eid < nr_enclaves
  pub free : (s.enclaves eid).status ≡ enclave_free
  pub secure : GoodRegion lower upper
  pub shared : GoodRegion shared_lower shared_upper
  pub fresh_region : Clear s lower upper

module _ (base : ℕ) (s : State) (eid entry lower upper shared_lower shared_upper : ℕ) where
  -- The state that a successful sys_create_enclave leaves, written out.
  unfoldable pub create_state : State
  create_state = record s {
    enclaves = update s.enclaves eid (record {
      status = enclave_fresh;
      entry = entry;
      secure_lower = lower;
      secure_upper = upper;
      shared_lower = shared_lower;
      shared_upper = shared_upper;
      encl_state = (s.enclaves eid).encl_state;
    });
    machine =
        set_bounds (set_perm s.machine eid 0) eid (offset_to_phys base lower)
          (offset_to_phys base upper);
  }

  -- sys_create_enclave accepts arguments that satisfy MayCreate: it returns 0 in the state
  -- `create_state`.
  pub sys_create_enclave-accepts :
      MayCreate s eid lower upper shared_lower shared_upper
      → sys_create_enclave base s eid entry lower upper shared_lower shared_upper
        ≡ returns 0 create_state
  unfolding sys_create_enclave eid_is_valid create_state
  sys_create_enclave-accepts m = simp (
    m.host,
    lt→ltb eid nr_enclaves m.eid_in,
    m.free,
    valid lower upper m.secure,
    valid shared_lower shared_upper m.shared,
    fresh m.fresh_region,
    chmod_pmp_region_lem s.machine eid 0 m.eid_in,
    remap_pmp_region_lem base (set_perm s.machine eid 0) eid lower upper m.eid_in,
  )
    where
      fresh : Clear s lower upper → is_region_overlap s lower upper ≡ false
      fresh c = elim (is_region_overlap-cases s lower upper) [
        | inl (e, _) ↦ e
        | inr (_, bad) ↦ absurd (bad c)
      ]

      valid : (a b : ℕ) → GoodRegion a b → is_region_valid a b ≡ true
      valid a b g = elim (is_region_valid-cases a b) [
        | inl (e, _) ↦ e
        | inr (_, bad) ↦ absurd (bad g)
      ]

  -- It refuses all other arguments: it returns -EINVAL and changes nothing.
  pub sys_create_enclave-refuses :
      ¬ MayCreate s eid lower upper shared_lower shared_upper
      → sys_create_enclave base s eid entry lower upper shared_lower shared_upper
        ≡ returns (neg64 einval) s
  unfolding sys_create_enclave eid_is_valid
  sys_create_enclave-refuses no_way = ground (
    arith,
    is_region_valid-cases lower upper,
    is_region_valid-cases shared_lower shared_upper,
    is_region_overlap-cases s lower upper,
    denied,
  )
    where
      denied :
          s.enclave_mode ≡ false
          → eid < nr_enclaves
          → (s.enclaves eid).status ≡ enclave_free
          → GoodRegion lower upper
          → GoodRegion shared_lower shared_upper
          → Clear s lower upper
          → ⊥
      denied a b c d e f =
          no_way
            (record { host = a; eid_in = b; free = c; secure = d; shared = e; fresh_region = f })

  -- What sys_create_enclave asks for, but for the clear region
  abbrev Others : Type 0
  Others =
      (s.enclave_mode ≡ false)
      × (eid < nr_enclaves)
      × ((s.enclaves eid).status ≡ enclave_free)
      × GoodRegion lower upper
      × GoodRegion shared_lower shared_upper

  Others-cases : Others ⊎ (¬ Others)
  Others-cases = ground (
    arith,
    is_region_valid-cases lower upper,
    is_region_valid-cases shared_lower shared_upper,
    Bool-cases s.enclave_mode,
    ℕ-cases (s.enclaves eid).status enclave_free,
  )

  pub sys_create_enclave-cases :
      (MayCreate s eid lower upper shared_lower shared_upper
        × (sys_create_enclave base s eid entry lower upper shared_lower shared_upper
            ≡ returns 0 create_state))
      ⊎ (sys_create_enclave base s eid entry lower upper shared_lower shared_upper
          ≡ returns (neg64 einval) s)
  sys_create_enclave-cases = elim decided [
    | inl m ↦ inl (m, sys_create_enclave-accepts m)
    | inr n ↦ inr (sys_create_enclave-refuses n)
  ]
    where
      decided :
          MayCreate s eid lower upper shared_lower shared_upper
          ⊎ (¬ MayCreate s eid lower upper shared_lower shared_upper)
      decided = elim (is_region_overlap-cases s lower upper) [
        | inl (_, c) ↦ elim Others-cases [
          | inl (a, b, d, e, f) ↦
              inl (record {
                host = a;
                eid_in = b;
                free = d;
                secure = e;
                shared = f;
                fresh_region = c;
              })
          | inr bad ↦ inr (λ m. bad (m.host, m.eid_in, m.free, m.secure, m.shared))
        ]
        | inr (_, bad) ↦ inr (λ m. bad m.fresh_region)
      ]
