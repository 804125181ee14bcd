-- ===== src/Komodo/Accounts.antt =====
-- The account of pages through the changes that the calls make to the page database.
use serval_sosp.Base.{
  ℕ, ◌+◌, ◌<◌, ◌≡◌, ◌≢◌, inl, inr, sym, ◌∙◌, ap, if◌then◌else◌, ◌==◌, update, arith, ℕ-cases,
}
use serval_sosp.Base.Word.{neg64}
use serval_sosp.Komodo.State.{State, KomPagedbEntry, kom_secure_npages}
use serval_sosp.Komodo.Monitor.{allocated, init_addrspace_state, removed}
use serval_sosp.Komodo.Invariant.{
  Accounted, pages_of, pages_of-le, pages_of-pos, pages_of-update, pages_of-one, pages_of-none,
}

module _ (s : State) (v : Accounted s.pagedb s.secure_pages) where
  -- A free page becomes a page of `a`, not an address space.
  module _ (page a type : ℕ) (page_in : page < kom_secure_npages) (free : (s.pagedb page).type ≡ 0)
      (a_in : a < kom_secure_npages) (a_typed : (s.pagedb a).type ≡ 1) (used : type ≢ 0)
      (not_addrspace : type ≢ 1) where
    allocated-count :
        (p : ℕ)
        → pages_of (allocated s page a type).pagedb p
          ≡ pages_of s.pagedb p + (if a == p then 1 else 0)
    unfolding allocated
    allocated-count p = ground (
      arith,
      pages_of-update s.pagedb page (record { type = type; addrspace_page = a }) p page_in,
    )

    allocated-root :
        (p : ℕ)
        → ((allocated s page a type).pagedb p).type ≡ 1
        → ((allocated s page a type).secure_pages p 0 ≡ s.secure_pages p 0)
          × ((allocated s page a type).secure_pages p 2 ≡ s.secure_pages p 2)
          × ((s.pagedb p).type ≡ 1)
    unfolding allocated
    allocated-root p t = (ground arith, ground arith, ground arith)

    allocated-entry :
        (p : ℕ) → (s.pagedb p).type ≢ 0 → (allocated s page a type).pagedb p ≡ s.pagedb p
    unfolding allocated
    allocated-entry p u = ground arith

    pub allocated-Accounted :
        Accounted (allocated s page a type).pagedb (allocated s page a type).secure_pages
    unfolding allocated
    allocated-Accounted = record {
      owner_in = λ p h u. ground (arith, v.owner_in p h);
      owner_typed = λ p h u. ground (arith, v.owner_typed p h);
      own = λ p h t. ground (arith, v.own p h);
      counts = λ p h t. ground (arith, v.counts p h, allocated-count p, pages_of-le s.pagedb p);
      root_in = λ p h t. ground (arith, v.root_in p h);
      root_typed = λ p h t n.
          let (r, q, o) = allocated-root p t in
          let y = v.root_typed p h o (λ e. n (q ∙ e)) in
          rw r (
            ap (λ (e : KomPagedbEntry). e.type)
              (allocated-entry (s.secure_pages p 0) (λ z. ground (arith, y, z)))
            ∙ y);
      root_owned = λ p h t n.
          let (r, q, o) = allocated-root p t in
          let y = v.root_typed p h o (λ e. n (q ∙ e)) in
          rw r (
            ap (λ (e : KomPagedbEntry). e.addrspace_page)
              (allocated-entry (s.secure_pages p 0) (λ z. ground (arith, y, z)))
            ∙ v.root_owned p h o (λ e. n (q ∙ e)));
    }

  -- Two free pages become an address space and its root page table.
  module _ (page l1 : ℕ) (page_in : page < kom_secure_npages) (l1_in : l1 < kom_secure_npages)
      (differ : page ≢ l1) (free : (s.pagedb page).type ≡ 0)
      (l1_free : (s.pagedb l1).type ≡ 0) where
    -- No page belongs to a page that is free.
    free_count : pages_of s.pagedb page ≡ 0
    free_count =
        pages_of-none s.pagedb page λ q h u. λ e. ground (arith, e, v.owner_typed q h u, free)

    init_count :
        (p : ℕ)
        → pages_of (init_addrspace_state s page l1).pagedb p
          ≡ pages_of s.pagedb p + (if page == p then 2 else 0)
    unfolding init_addrspace_state
    init_count p = ground (
      arith,
      pages_of-update s.pagedb page (record { type = 1; addrspace_page = page }) p page_in,
      pages_of-update (update s.pagedb page (record { type = 1; addrspace_page = page })) l1
          (record { type = 3; addrspace_page = page }) p l1_in,
    )

    init-fresh :
        ((init_addrspace_state s page l1).secure_pages page 0 ≡ l1)
        × ((init_addrspace_state s page l1).pagedb l1 ≡ record { type = 3; addrspace_page = page })
    unfolding init_addrspace_state
    init-fresh = (ground arith, ground arith)

    init-root :
        (p : ℕ)
        → page ≢ p
        → ((init_addrspace_state s page l1).pagedb p).type ≡ 1
        → ((init_addrspace_state s page l1).secure_pages p 0 ≡ s.secure_pages p 0)
          × ((init_addrspace_state s page l1).secure_pages p 2 ≡ s.secure_pages p 2)
          × ((s.pagedb p).type ≡ 1)
    unfolding init_addrspace_state
    init-root p ne t = (ground arith, ground arith, ground arith)

    init-entry :
        (p : ℕ) → (s.pagedb p).type ≢ 0 → (init_addrspace_state s page l1).pagedb p ≡ s.pagedb p
    unfolding init_addrspace_state
    init-entry p u = ground arith

    -- The root page table of an address space afterwards.
    init-root_entry :
        (p : ℕ)
        → p < kom_secure_npages
        → ((init_addrspace_state s page l1).pagedb p).type ≡ 1
        → (init_addrspace_state s page l1).secure_pages p 2 ≢ 2
        → (init_addrspace_state s page l1).pagedb
            ((init_addrspace_state s page l1).secure_pages p 0)
          ≡ record { type = 3; addrspace_page = p }
    init-root_entry p h t n = elim (ℕ-cases page p) [
      | inl e ↦ rw (sym e) (rw init-fresh.0 init-fresh.1)
      | inr ne ↦
          let (r, q, o) = init-root p ne t in
          let y = v.root_typed p h o (λ e. n (q ∙ e)) in
          let z = v.root_owned p h o (λ e. n (q ∙ e)) in
          rw r (
            init-entry (s.secure_pages p 0) (λ u. ground (arith, y, u))
            ∙ ap
                (λ (i : ℕ). record {
                  type = i;
                  addrspace_page = (s.pagedb (s.secure_pages p 0)).addrspace_page;
                })
                y
            ∙ ap (λ (i : ℕ). record { type = 3; addrspace_page = i }) z)
    ]

    pub init_addrspace_state-Accounted :
        Accounted
          (init_addrspace_state s page l1).pagedb
          (init_addrspace_state s page l1).secure_pages
    unfolding init_addrspace_state
    init_addrspace_state-Accounted = record {
      owner_in = λ p h u. ground (arith, v.owner_in p h);
      owner_typed = λ p h u. ground (arith, v.owner_typed p h);
      own = λ p h t. ground (arith, v.own p h);
      counts = λ p h t. ground (arith, v.counts p h, init_count p, free_count);
      root_in = λ p h t. ground (arith, v.root_in p h);
      root_typed = λ p h t n. ap (λ (e : KomPagedbEntry). e.type) (init-root_entry p h t n);
      root_owned =
          λ p h t n. ap (λ (e : KomPagedbEntry). e.addrspace_page) (init-root_entry p h t n);
    }

  -- A page in use of the stopped address space `a` becomes free; `a` itself only as the last.
  module _ (page a : ℕ) (page_in : page < kom_secure_npages) (used : (s.pagedb page).type ≢ 0)
      (belongs : (s.pagedb page).addrspace_page ≡ a) (stopped : s.secure_pages a 2 ≡ 2)
      (last : page ≡ a → s.secure_pages a 1 ≡ 1) where
    removed-count :
        (p : ℕ)
        → pages_of (removed s page a).pagedb p + (if a == p then 1 else 0) ≡ pages_of s.pagedb p
    unfolding removed
    removed-count p = ground (
      arith,
      pages_of-update s.pagedb page (record { type = 0; addrspace_page = neg64 1 }) p page_in,
    )

    -- If `a` goes, no other page is its.
    alone :
        page ≡ a
        → (q : ℕ) → q < kom_secure_npages
        → q ≢ page
        → (s.pagedb q).type ≢ 0
        → (s.pagedb q).addrspace_page ≢ a
    alone e q h ne u = ground (
      arith,
      v.counts a,
      v.owner_typed page page_in,
      last e,
      pages_of-one s.pagedb page q a page_in,
    )

    pub removed-Accounted : Accounted (removed s page a).pagedb (removed s page a).secure_pages
    unfolding removed
    removed-Accounted = record {
      owner_in = λ p h u. ground (arith, v.owner_in p h);
      owner_typed = λ p h u. elim (ℕ-cases page a) [
        | inl e ↦ ground (arith, v.owner_typed p h, alone e p h)
        | inr n ↦ ground (arith, v.owner_typed p h, v.own page page_in)
      ];
      own = λ p h t. ground (arith, v.own p h);
      counts = λ p h t. ground (
        arith,
        v.counts p h,
        removed-count p,
        pages_of-le s.pagedb p,
        pages_of-pos s.pagedb page a page_in used belongs,
      );
      root_in = λ p h t. ground (arith, v.root_in p h);
      root_typed = λ p h t n. ground (arith, v.root_typed p h, v.root_owned p h);
      root_owned = λ p h t n. ground (arith, v.root_owned p h, v.root_typed p h);
    }
