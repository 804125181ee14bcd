-- ===== src/Komodo/Walk.antt =====
-- Every call of the host keeps the page tables confined.
use serval_sosp.Base.{
  ℕ, suc, ◌*◌, ◌^◌, ◌≤◌, ◌<◌, ◌≡◌, ◌≢◌, inl, inr, refl, sym, ◌∙◌, ap, arith, ℕ-cases, bit_or,
}
use serval_sosp.Komodo.State.{
  State, Layout, kom_secure_npages, kom_insecure_npages, set_word, copy_in, page_pfn,
  insecure_page_pfn, pfn_entry, enclave_prot,
}
use serval_sosp.Komodo.Monitor.{
  page_is_valid, page_is_free, page_is_typed, insecure_page_is_valid, allocated, allocate_page,
  kom_smc_init_addrspace, kom_smc_init_dispatcher, init_ptable, kom_smc_map_secure,
  kom_smc_map_insecure, kom_smc_remove, kom_smc_finalise, kom_smc_stop,
}
use serval_sosp.Komodo.Invariant.{Accounted}
use serval_sosp.Komodo.Accounts.{allocated-Accounted}
use serval_sosp.Komodo.Calls.{set_word-Accounted}
use serval_sosp.Komodo.Guard.{Always}
use serval_sosp.Komodo.Tables.{secure, insecure, prot_of, Confined}
use serval_sosp.Komodo.Confine.{
  allocated-Confined, removed-Confined, init-Confined, set_word-Confined, state-Confined,
  copy_in-Confined,
}

-- The page tables of a state are confined.
unfoldable pub AllConfined : Layout → State → Type 0
AllConfined l s = Confined l s.pagedb s.secure_pages

module _ (l : Layout) (s : State) (v : Accounted s.pagedb s.secure_pages)
    (c : AllConfined l s) where
  pub init_addrspace-Confined :
      (page l1 : ℕ) → Always (AllConfined l) (kom_smc_init_addrspace s page l1)
  unfolding kom_smc_init_addrspace page_is_valid page_is_free AllConfined
  init_addrspace-Confined page l1 = ground (arith, c, init-Confined l s v c page l1)

  pub finalise-Confined : (page : ℕ) → Always (AllConfined l) (kom_smc_finalise s page)
  unfolding kom_smc_finalise page_is_typed AllConfined
  finalise-Confined page = elim (ℕ-cases (s.secure_pages page 2) 0) [
    | inl e ↦ ground (
      arith,
      c,
      λ (t : (s.pagedb page).type ≡ 1). state-Confined l s v c page 1 t (λ _. omega arith),
    )
    | inr e ↦ ground (arith, c)
  ]

  pub stop-Confined : (page : ℕ) → Always (AllConfined l) (kom_smc_stop s page)
  unfolding kom_smc_stop page_is_typed AllConfined
  stop-Confined page = ground (
    arith,
    c,
    λ (t : (s.pagedb page).type ≡ 1). state-Confined l s v c page 2 t (λ n. absurd (n refl)),
  )

  pub remove-Confined : (page : ℕ) → Always (AllConfined l) (kom_smc_remove s page)
  unfolding kom_smc_remove page_is_valid AllConfined
  remove-Confined page = ground (
    arith,
    c,
    v.own page,
    v.owner_typed page,
    removed-Confined l s v c page page,
    removed-Confined l s v c page ((s.pagedb page).addrspace_page),
  )

  pub map_insecure-Confined :
      (parent index mapping content : ℕ)
      → Always (AllConfined l) (kom_smc_map_insecure l s parent index mapping content)
  unfolding kom_smc_map_insecure insecure_page_is_valid page_is_typed AllConfined
  map_insecure-Confined parent index mapping content =
      let pte = pfn_entry (insecure_page_pfn l content) (enclave_prot mapping) in
      ground (
        arith,
        c,
        λ (h : content < kom_insecure_npages) (t : (s.pagedb parent).type ≡ 5).
            set_word-Confined l s v c parent index pte (λ e. omega (arith, e, t))
              λ _ _. insecure content mapping h t refl,
      )

  -- The entry of a new page in its parent.
  entry-Confined :
      (page type parent index mapping : ℕ)
      → page < kom_secure_npages
      → (s.pagedb page).type ≡ 0
      → parent < kom_secure_npages
      → (s.pagedb parent).type ≡ type
      → 3 ≤ type
      → type ≤ 5
      → let t = allocated s page ((s.pagedb parent).addrspace_page) (suc type) in
        Accounted t.pagedb t.secure_pages
        × AllConfined l t
        × AllConfined l
            (set_word t parent index (pfn_entry (page_pfn l page) (prot_of type mapping)))
  unfolding AllConfined allocated
  entry-Confined page type parent index mapping page_in free h e lo hi =
      let a = (s.pagedb parent).addrspace_page in
      let t = allocated s page a (suc type) in
      let used : (s.pagedb parent).type ≢ 0 = λ z. omega (arith, z, e, lo) in
      let acc =
        allocated-Accounted s v page a (suc type) page_in free (v.owner_in parent h used)
          (v.owner_typed parent h used) (λ z. omega (arith, z)) (λ z. omega (arith, z, lo)) in
      let conf = allocated-Confined l s v c page a (suc type) free (v.owner_typed parent h used) in
      let r = entries in
      let kind : (t.pagedb parent).type ≡ type = r.0 in
      (
        acc,
        conf,
        set_word-Confined l t acc conf parent index _ (λ z. omega (arith, z, kind, lo))
            λ _ _.
              secure page mapping page_in (r.1 ∙ ap suc (sym r.0)) (r.2 ∙ sym r.3)
                (ap (λ (y : ℕ). pfn_entry (page_pfn l page) (prot_of y mapping)) (sym r.0)),
      )
    where
      t0 : State
      t0 = allocated s page ((s.pagedb parent).addrspace_page) (suc type)

      entries :
          ((t0.pagedb parent).type ≡ type)
          × ((t0.pagedb page).type ≡ suc type)
          × ((t0.pagedb page).addrspace_page ≡ (s.pagedb parent).addrspace_page)
          × ((t0.pagedb parent).addrspace_page ≡ (s.pagedb parent).addrspace_page)
      entries = (ground arith, ground arith, ground arith, ground arith)

  pub init_ptable-Confined :
      (type page parent index : ℕ)
      → 3 ≤ type
      → type < 5
      → Always (AllConfined l) (init_ptable l type (suc type) s page parent index)
  unfolding init_ptable allocate_page page_is_valid page_is_free page_is_typed
  init_ptable-Confined type page parent index lo hi =
      ground (arith, c, plain, entry-Confined page type parent index 0)
    where
      plain : prot_of type 0 ≡ 1
      plain = ground arith

  copied :
      (page parent index mapping content : ℕ)
      → page < kom_secure_npages
      → (s.pagedb page).type ≡ 0
      → parent < kom_secure_npages
      → (s.pagedb parent).type ≡ 5
      → let t = allocated s page ((s.pagedb parent).addrspace_page) 6 in
        let pte = pfn_entry (page_pfn l page) (enclave_prot mapping) in
        AllConfined l (copy_in (set_word t parent index pte) page content)
  unfolding AllConfined allocated
  copied page parent index mapping content page_in free h e =
      let t = allocated s page ((s.pagedb parent).addrspace_page) 6 in
      let pte = pfn_entry (page_pfn l page) (enclave_prot mapping) in
      let (acc, conf, done) =
        entry-Confined page 5 parent index mapping page_in free h e (omega arith) (omega arith) in
      let s1 = set_word t parent index pte in
      let acc1 = set_word-Accounted t parent index pte (λ z. ground arith) acc in
      copy_in-Confined l s1 acc1 done page content (ground arith)

  pub map_secure-Confined :
      (page parent index mapping content : ℕ)
      → Always (AllConfined l) (kom_smc_map_secure l s page parent index mapping content)
  unfolding kom_smc_map_secure allocate_page page_is_valid page_is_free page_is_typed
  map_secure-Confined page parent index mapping content =
      ground (arith, c, copied page parent index mapping content)

  -- Three words of a new dispatcher.
  dispatcher_words :
      (page a x y : ℕ)
      → page < kom_secure_npages
      → (s.pagedb page).type ≡ 0
      → a < kom_secure_npages
      → (s.pagedb a).type ≡ 1
      → AllConfined l
          (set_word (set_word (set_word (allocated s page a 2) page 32 x) page 33 y) page 42 0x222)
  unfolding AllConfined allocated
  dispatcher_words page a x y page_in free a_in e =
      let t = allocated s page a 2 in
      let two : (t.pagedb page).type ≡ 2 = ground arith in
      let ne : (t.pagedb page).type ≢ 1 = λ z. omega (arith, z, two) in
      let acc =
        allocated-Accounted s v page a 2 page_in free a_in e (λ z. omega (arith, z))
          (λ z. omega (arith, z)) in
      let conf = allocated-Confined l s v c page a 2 free e in
      let s1 = set_word t page 32 x in
      let acc1 = set_word-Accounted t page 32 x ne acc in
      let c1 =
        set_word-Confined l t acc conf page 32 x ne (λ lo _. absurd (omega (arith, two, lo))) in
      let s2 = set_word s1 page 33 y in
      let acc2 = set_word-Accounted s1 page 33 y ne acc1 in
      let c2 =
        set_word-Confined l s1 acc1 c1 page 33 y ne (λ lo _. absurd (omega (arith, two, lo))) in
      set_word-Confined l s2 acc2 c2 page 42 0x222 ne (λ lo _. absurd (omega (arith, two, lo)))

  pub dispatcher-Confined :
      (page a entrypoint : ℕ)
      → Always (AllConfined l) (kom_smc_init_dispatcher l s page a entrypoint)
  unfolding kom_smc_init_dispatcher allocate_page page_is_valid page_is_free page_is_typed
  dispatcher-Confined page a entrypoint =
      let l1 = (set_word (allocated s page a 2) page 32 entrypoint).secure_pages a 0 in
      ground (arith, c, dispatcher_words page a entrypoint (bit_or (8 * 2 ^ 60) (page_pfn l l1)))
