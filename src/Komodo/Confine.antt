-- ===== src/Komodo/Confine.antt =====
-- The entries of page tables through the changes that the calls make.
use serval_sosp.Base.{
  ℕ, ◌≤◌, ◌<◌, ◌≡◌, ◌≢◌, ◌⊎◌, inl, inr, refl, sym, true, false, if◌then◌else◌, ltb, ◌==◌, update,
  arith, ℕ-cases, subst, lt→ltb,
}
use serval_sosp.Komodo.State.{State, Layout, kom_secure_npages, page_words, set_word, copy_in}
use serval_sosp.Komodo.Monitor.{allocated, init_addrspace_state, removed}
use serval_sosp.Komodo.Invariant.{Accounted}
use serval_sosp.Komodo.Tables.{Points, absent, Confined, Confined-frame}

module _ (l : Layout) (s : State) (v : Accounted s.pagedb s.secure_pages)
    (c : Confined l s.pagedb s.secure_pages) where
  -- Of a page table, the owner is an address space, and no page table is one.
  owner_differs :
      (p : ℕ)
      → p < kom_secure_npages
      → 3 ≤ (s.pagedb p).type
      → ((s.pagedb ((s.pagedb p).addrspace_page)).type ≡ 1)
  owner_differs p h k = v.owner_typed p h (λ e. omega (arith, e, k))

  pub allocated-Confined :
      (page a type : ℕ)
      → (s.pagedb page).type ≡ 0
      → (s.pagedb a).type ≡ 1
      → Confined l (allocated s page a type).pagedb (allocated s page a type).secure_pages
  unfolding allocated
  allocated-Confined page a type free t =
      Confined-frame l s.pagedb _ s.secure_pages _ c λ p w h k lo hi live. elim (ℕ-cases page p) [
        | inl e ↦ inl (absent (ground arith))
        | inr n ↦
            let o = owner_differs p h (ground arith) in
            inr (ground arith, ground arith, ground (arith, o), λ q hq tq oq. ground arith)
      ]

  pub removed-Confined :
      (page a : ℕ)
      → (s.pagedb page).addrspace_page ≡ a
      → (s.pagedb a).type ≡ 1
      → s.secure_pages a 2 ≡ 2
      → Confined l (removed s page a).pagedb (removed s page a).secure_pages
  unfolding removed
  removed-Confined page a b t st =
      Confined-frame l s.pagedb _ s.secure_pages _ c λ p w h k lo hi live.
        inr (ground arith, ground arith, ground arith, λ q hq tq oq. ground arith)

  init-cleared :
      (page l1 w : ℕ)
      → page ≢ l1
      → w < page_words
      → (init_addrspace_state s page l1).secure_pages l1 w ≡ 0
  unfolding init_addrspace_state
  init-cleared page l1 w ne h = simp (other, self, lt→ltb w page_words h)
    where
      other : (page == l1) ≡ false
      other = ground arith

      self : (l1 == l1) ≡ true
      self = ground arith

  pub init-Confined :
      (page l1 : ℕ)
      → (s.pagedb page).type ≡ 0
      → (s.pagedb l1).type ≡ 0
      → page ≢ l1
      → Confined l
          (init_addrspace_state s page l1).pagedb
          (init_addrspace_state s page l1).secure_pages
  unfolding init_addrspace_state
  init-Confined page l1 f f' ne =
      Confined-frame l s.pagedb _ s.secure_pages _ c λ p w h k lo hi live. elim (ℕ-cases l1 p) [
        | inl e ↦ inl (absent (rw (sym e) (init-cleared page l1 w ne k)))
        | inr n ↦
            let o = owner_differs p h (ground arith) in
            inr (ground arith, ground arith, ground (arith, o), λ q hq tq oq. ground arith)
      ]

  -- A new word in a page that is no address space: right, if the page is a page table.
  pub set_word-Confined :
      (page w x : ℕ)
      → (s.pagedb page).type ≢ 1
      → (3 ≤ (s.pagedb page).type
          → (s.pagedb page).type ≤ 5
          → Points l s.pagedb ((s.pagedb page).type) ((s.pagedb page).addrspace_page) x)
      → Confined l s.pagedb (set_word s page w x).secure_pages
  set_word-Confined page w x ne right =
      Confined-frame l s.pagedb s.pagedb s.secure_pages _ c λ p i h k lo hi live.
        let o = owner_differs p h lo in
        elim (ℕ-cases page p) [
          | inl e ↦ elim (ℕ-cases w i) [
            | inl f ↦ inl (fresh p i e f lo hi)
            | inr m ↦ inr (refl, ground arith, ground (arith, o), λ q hq tq oq. refl)
          ]
          | inr n ↦ inr (refl, ground arith, ground (arith, o), λ q hq tq oq. refl)
        ]
    where
      fresh :
          (p i : ℕ)
          → page ≡ p
          → w ≡ i
          → 3 ≤ (s.pagedb p).type
          → (s.pagedb p).type ≤ 5
          → Points l s.pagedb
              ((s.pagedb p).type)
              ((s.pagedb p).addrspace_page)
              ((set_word s page w x).secure_pages p i)
      fresh p i e f lo hi =
          let new : (set_word s page w x).secure_pages p i ≡ x = ground arith in
          rw new (
            subst (λ (y : ℕ). Points l s.pagedb ((s.pagedb y).type) ((s.pagedb y).addrspace_page) x)
              e
              (right (subst (λ (y : ℕ). 3 ≤ (s.pagedb y).type) (sym e) lo)
                (subst (λ (y : ℕ). (s.pagedb y).type ≤ 5) (sym e) hi)))

  -- A new state of an address space that does not revive it.
  pub state-Confined :
      (page x : ℕ)
      → (s.pagedb page).type ≡ 1
      → (x ≢ 2 → s.secure_pages page 2 ≢ 2)
      → Confined l s.pagedb (set_word s page 2 x).secure_pages
  state-Confined page x t kept =
      Confined-frame l s.pagedb s.pagedb s.secure_pages _ c
        λ p i h k lo hi live. inr (refl, ground arith, ground (arith, kept), λ q hq tq oq. refl)

  -- The words of a page that is neither an address space nor a page table.
  pub page-Confined :
      (page : ℕ) (words : ℕ → ℕ)
      → (s.pagedb page).type ≢ 1
      → ((s.pagedb page).type < 3) ⊎ (5 < (s.pagedb page).type)
      → Confined l s.pagedb (update s.secure_pages page words)
  page-Confined page words ne other =
      Confined-frame l s.pagedb s.pagedb s.secure_pages _ c λ p i h k lo hi live.
        let o = owner_differs p h lo in
        inr (refl, ground arith, ground (arith, o), λ q hq tq oq. refl)

  pub copy_in-Confined :
      (page content : ℕ)
      → (s.pagedb page).type ≡ 6
      → Confined l s.pagedb (copy_in s page content).secure_pages
  copy_in-Confined page content e =
      page-Confined page
        (λ w. if ltb w page_words then s.payload content w else s.secure_pages page w)
        (λ z. omega (arith, z, e)) (inr (omega (arith, e)))
