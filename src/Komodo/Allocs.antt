-- ===== src/Komodo/Allocs.antt =====
-- Each call of the host that allocates a page for an address space keeps the page database in
-- order.
use serval_sosp.Base.{
  ℕ, ◌<◌, ◌≡◌, ◌≢◌, inl, inr, sym, ◌∙◌, true, false, arith, Bool-cases, returns, Ends, bit_or,
}
use serval_sosp.Komodo.State.{
  State, Layout, kom_secure_npages, set_word, copy_in, at_page, page_pfn, pfn_entry, enclave_prot,
  satp_mode_sv39, dispatcher_mepc, dispatcher_satp, dispatcher_sie, page_table_prot,
}
use serval_sosp.Komodo.Monitor.{
  page_is_typed, allocated, kom_smc_init_dispatcher, init_ptable, kom_smc_map_secure,
  kom_smc_init_l2ptable, kom_smc_init_l3ptable, kom_err_success,
}
use serval_sosp.Komodo.Invariant.{IsValid, Accounted, Accounted-words}
use serval_sosp.Komodo.Calls.{set_word-Accounted, typed_iff, calm, allocate_page-Ends}

module _ (l : Layout) (s : State) (v : IsValid s) (host : s.enclave_mode ≡ false) where
  -- The owner of a page of a type that is in use.
  pub owner_in :
      (p type : ℕ)
      → page_is_typed s p type ≡ true
      → type ≢ 0
      → ((s.pagedb p).addrspace_page < kom_secure_npages)
        × ((s.pagedb ((s.pagedb p).addrspace_page)).type ≡ 1)
  owner_in p type e u =
      let (h, t) = typed_iff s p type e in
      (
        v.accounted.owner_in p h (λ z. u (sym t ∙ z)),
        v.accounted.owner_typed p h (λ z. u (sym t ∙ z)),
      )

  -- What init_ptable writes behind the allocation.
  ptable_entry-IsValid :
      (page a type parent index x : ℕ)
      → (s.pagedb page).type ≡ 0
      → (s.pagedb parent).type ≢ 0
      → (s.pagedb parent).type ≢ 1
      → Accounted (allocated s page a type).pagedb (allocated s page a type).secure_pages
      → IsValid (set_word (allocated s page a type) parent index x)
  unfolding allocated
  ptable_entry-IsValid page a type parent index x free u ne acc =
      calm s v host (set_word (allocated s page a type) parent index x) host
        (set_word-Accounted (allocated s page a type) parent index x (λ e. ground arith) acc)

  init_ptable-Ends :
      (parent_type type page parent index : ℕ)
      → parent_type ≢ 0
      → parent_type ≢ 1
      → type ≢ 0
      → type ≢ 1
      → Ends IsValid (init_ptable l parent_type type s page parent index)
  unfolding init_ptable
  init_ptable-Ends pt type page parent index h0 h1 k0 k1 =
      elim (Bool-cases (page_is_typed s parent pt)) [
        | inl e ↦
            let (a_in, a_typed) = owner_in parent pt e h0 in
            let (p_in, p_typed) = typed_iff s parent pt e in
            ground (
              arith,
              v,
              e,
              allocate_page-Ends s v host page ((s.pagedb parent).addrspace_page) type
                  (λ s1.
                    returns kom_err_success
                      (set_word s1 parent index (pfn_entry (page_pfn l page) page_table_prot)))
                  a_in a_typed k0 k1
                  (λ free _ acc.
                    ptable_entry-IsValid page ((s.pagedb parent).addrspace_page) type parent index
                      (pfn_entry (page_pfn l page) page_table_prot) free (λ z. h0 (sym p_typed ∙ z))
                      (λ z. h1 (sym p_typed ∙ z)) acc),
            )
        | inr e ↦ ground (arith, v, e)
      ]

  pub init_l2ptable-Ends :
      (page parent index : ℕ) → Ends IsValid (kom_smc_init_l2ptable l s page parent index)
  unfolding kom_smc_init_l2ptable
  init_l2ptable-Ends page parent index =
      init_ptable-Ends 3 4 page parent index (λ e. omega (arith, e)) (λ e. omega (arith, e))
        (λ e. omega (arith, e)) (λ e. omega (arith, e))

  pub init_l3ptable-Ends :
      (page parent index : ℕ) → Ends IsValid (kom_smc_init_l3ptable l s page parent index)
  unfolding kom_smc_init_l3ptable
  init_l3ptable-Ends page parent index =
      init_ptable-Ends 4 5 page parent index (λ e. omega (arith, e)) (λ e. omega (arith, e))
        (λ e. omega (arith, e)) (λ e. omega (arith, e))

  copy_in-IsValid :
      (page a parent index x content : ℕ)
      → (s.pagedb page).type ≡ 0
      → (s.pagedb parent).type ≡ 5
      → Accounted (allocated s page a 6).pagedb (allocated s page a 6).secure_pages
      → IsValid (copy_in (set_word (allocated s page a 6) parent index x) page content)
  unfolding allocated
  copy_in-IsValid page a parent index x content free t acc =
      let s1 = set_word (allocated s page a 6) parent index x in
      let acc1 = set_word-Accounted (allocated s page a 6) parent index x (λ e. ground arith) acc in
      calm s v host (copy_in s1 page content) host (
        Accounted-words s1.pagedb s1.secure_pages acc1 (copy_in s1 page content).secure_pages
          (λ p h e. ground arith) (λ p h e. ground arith) (λ p h e. ground arith))

  pub map_secure-Ends :
      (page parent index mapping content : ℕ)
      → Ends IsValid (kom_smc_map_secure l s page parent index mapping content)
  unfolding kom_smc_map_secure
  map_secure-Ends page parent index mapping content = elim (Bool-cases (page_is_typed s parent 5)) [
    | inl e ↦
        let (a_in, a_typed) = owner_in parent 5 e (λ z. omega (arith, z)) in
        let (p_in, p_typed) = typed_iff s parent 5 e in
        let pte = pfn_entry (page_pfn l page) (enclave_prot mapping) in
        ground (
          arith,
          v,
          e,
          allocate_page-Ends s v host page ((s.pagedb parent).addrspace_page) 6
              (λ s1. returns kom_err_success (copy_in (set_word s1 parent index pte) page content))
              a_in a_typed (λ z. omega (arith, z)) (λ z. omega (arith, z))
              (λ free _ acc.
                copy_in-IsValid page ((s.pagedb parent).addrspace_page) parent index pte content
                  free p_typed acc),
        )
    | inr e ↦ ground (arith, v, e)
  ]

  -- The dispatcher's own words, and its root: the root of its address space is a page.
  dispatcher-Ends :
      (page a entrypoint : ℕ)
      → a < kom_secure_npages
      → (s.pagedb a).type ≡ 1
      → (s.pagedb page).type ≡ 0
      → Accounted (allocated s page a 2).pagedb (allocated s page a 2).secure_pages
      → Ends IsValid (
          let s2 = set_word (allocated s page a 2) page dispatcher_mepc entrypoint in
          let l1 = s2.secure_pages a 0 in
          at_page s2 l1 λ _.
            let s3 = set_word s2 page dispatcher_satp (bit_or satp_mode_sv39 (page_pfn l l1)) in
            returns kom_err_success (set_word s3 page dispatcher_sie 0x222))
  unfolding allocated
  dispatcher-Ends page a entrypoint a_in a_typed free acc =
      let s2 = set_word (allocated s page a 2) page dispatcher_mepc entrypoint in
      let acc2 =
        set_word-Accounted (allocated s page a 2) page dispatcher_mepc entrypoint
          (λ e. ground arith) acc in
      let x = bit_or satp_mode_sv39 (page_pfn l (s2.secure_pages a 0)) in
      let s3 = set_word s2 page dispatcher_satp x in
      let acc3 = set_word-Accounted s2 page dispatcher_satp x (λ e. ground arith) acc2 in
      let acc4 = set_word-Accounted s3 page dispatcher_sie 0x222 (λ e. ground arith) acc3 in
      let root = acc2.root_in a a_in (ground arith) in
      ground (arith, root, calm s v host (set_word s3 page dispatcher_sie 0x222) host acc4)

  pub init_dispatcher-Ends :
      (page a entrypoint : ℕ) → Ends IsValid (kom_smc_init_dispatcher l s page a entrypoint)
  unfolding kom_smc_init_dispatcher
  init_dispatcher-Ends page a entrypoint = elim (Bool-cases (page_is_typed s a 1)) [
    | inl e ↦
        let (a_in, a_typed) = typed_iff s a 1 e in
        rw e (
          allocate_page-Ends s v host page a 2 _ a_in a_typed (λ z. omega (arith, z))
            (λ z. omega (arith, z))
            (λ free _ acc. dispatcher-Ends page a entrypoint a_in a_typed free acc))
    | inr e ↦ rw e v
  ]
