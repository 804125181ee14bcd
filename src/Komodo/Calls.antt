-- ===== src/Komodo/Calls.antt =====
-- Each call of the host keeps the page database in order.
use serval_sosp.Base.{
  ℕ, ◌<◌, ◌≡◌, ◌≢◌, inl, inr, refl, ◌∙◌, ap, true, false, arith, ℕ-cases, Outcome, Ends,
}
use serval_sosp.Komodo.State.{State, Layout, kom_secure_npages, set_word}
use serval_sosp.Komodo.Monitor.{
  page_is_valid, page_is_free, page_is_typed, insecure_page_is_valid, allocated, allocate_page,
  on_success, init_addrspace_state, removed, kom_smc_init_addrspace, kom_smc_map_insecure,
  kom_smc_remove, kom_smc_finalise, kom_smc_stop,
}
use serval_sosp.Komodo.Invariant.{IsValid, Accounted, Accounted-words}
use serval_sosp.Komodo.Accounts.{
  allocated-Accounted, init_addrspace_state-Accounted, removed-Accounted,
}

-- A write to a page that is no address space.
pub set_word-Accounted :
    (s : State) (page w x : ℕ)
    → (s.pagedb page).type ≢ 1
    → Accounted s.pagedb s.secure_pages
    → Accounted s.pagedb (set_word s page w x).secure_pages
set_word-Accounted s page w x ne v =
    Accounted-words s.pagedb s.secure_pages v (set_word s page w x).secure_pages
      (λ p h t. ground arith) (λ p h t. ground arith) (λ p h t. ground arith)

pub typed_iff :
    (s : State) (p type : ℕ)
    → page_is_typed s p type ≡ true
    → (p < kom_secure_npages) × ((s.pagedb p).type ≡ type)
unfolding page_is_typed
typed_iff s p type e = (ground arith, ground arith)

pub allocated-page :
    (s : State) (page a type : ℕ) → ((allocated s page a type).pagedb page).type ≡ type
unfolding allocated
allocated-page s page a type = ground arith

pub allocated-mode :
    (s : State) (page a type : ℕ) → ((allocated s page a type).enclave_mode ≡ s.enclave_mode)
unfolding allocated
allocated-mode s page a type = refl

module _ (s : State) (v : IsValid s) (host : s.enclave_mode ≡ false) where
  -- On the host's side only the account of pages is at stake.
  pub calm : (t : State) → t.enclave_mode ≡ false → Accounted t.pagedb t.secure_pages → IsValid t
  calm t e a = record {
    accounted = a;
    dispatcher_in = λ f. ground arith;
    dispatcher_typed = λ f. ground arith;
  }

  -- An allocation for a page `a` that is an address space, and the code behind it.
  pub allocate_page-Ends :
      (page a type : ℕ) (k : State → Outcome State)
      → a < kom_secure_npages
      → (s.pagedb a).type ≡ 1
      → type ≢ 0
      → type ≢ 1
      → ((s.pagedb page).type ≡ 0
          → page < kom_secure_npages
          → Accounted (allocated s page a type).pagedb (allocated s page a type).secure_pages
          → Ends IsValid (k (allocated s page a type)))
      → Ends IsValid (on_success (allocate_page s page a type) k)
  unfolding allocate_page page_is_valid page_is_free
  allocate_page-Ends page a type k a_in typed used ne h =
      ground (arith, h, v, allocated-Accounted s v.accounted page a type)

  init_addrspace-IsValid :
      (page l1 : ℕ)
      → page < kom_secure_npages
      → l1 < kom_secure_npages
      → page ≢ l1
      → (s.pagedb page).type ≡ 0
      → (s.pagedb l1).type ≡ 0
      → IsValid (init_addrspace_state s page l1)
  unfolding init_addrspace_state
  init_addrspace-IsValid page l1 h h' ne f f' =
      calm (init_addrspace_state s page l1) host
        (init_addrspace_state-Accounted s v.accounted page l1 h h' ne f f')

  pub init_addrspace-Ends : (page l1 : ℕ) → Ends IsValid (kom_smc_init_addrspace s page l1)
  unfolding kom_smc_init_addrspace page_is_valid page_is_free
  init_addrspace-Ends page l1 = ground (arith, v, init_addrspace-IsValid page l1)

  -- A new state of an address space that does not revive it.
  state-IsValid : (page x : ℕ) → (x ≢ 2 → s.secure_pages page 2 ≢ 2) → IsValid (set_word s page 2 x)
  state-IsValid page x n = calm (set_word s page 2 x) host (
      Accounted-words s.pagedb s.secure_pages v.accounted (set_word s page 2 x).secure_pages
        (λ p h t. ground arith) (λ p h t. ground arith) (λ p h t. ground (arith, n)))

  pub finalise-Ends : (page : ℕ) → Ends IsValid (kom_smc_finalise s page)
  unfolding kom_smc_finalise page_is_typed
  finalise-Ends page = elim (ℕ-cases (s.secure_pages page 2) 0) [
    | inl e ↦ ground (arith, v, state-IsValid page 1 (λ _. omega arith))
    | inr e ↦ ground (arith, v)
  ]

  pub stop-Ends : (page : ℕ) → Ends IsValid (kom_smc_stop s page)
  unfolding kom_smc_stop page_is_typed
  stop-Ends page = ground (arith, v, state-IsValid page 2 (λ n. absurd (n refl)))

  removed-IsValid :
      (page a : ℕ)
      → page < kom_secure_npages
      → (s.pagedb page).type ≢ 0
      → (s.pagedb page).addrspace_page ≡ a
      → s.secure_pages a 2 ≡ 2
      → (page ≡ a → s.secure_pages a 1 ≡ 1)
      → IsValid (removed s page a)
  unfolding removed
  removed-IsValid page a h u b st last =
      calm (removed s page a) host (removed-Accounted s v.accounted page a h u b st last)

  remove-page :
      (page : ℕ)
      → page < kom_secure_npages
      → (s.pagedb page).type ≢ 0
      → (s.pagedb page).type ≢ 1
      → s.secure_pages (s.pagedb page).addrspace_page 2 ≡ 2
      → IsValid (removed s page ((s.pagedb page).addrspace_page))
  remove-page page h u n st =
      removed-IsValid page _ h u refl st
        (λ e. absurd (n (ap (λ (p : ℕ). (s.pagedb p).type) e ∙ v.accounted.owner_typed page h u)))

  remove-addrspace :
      (page : ℕ)
      → page < kom_secure_npages
      → (s.pagedb page).type ≡ 1
      → s.secure_pages page 1 ≡ 1
      → s.secure_pages page 2 ≡ 2
      → IsValid (removed s page page)
  remove-addrspace page h t c st =
      removed-IsValid page page h (λ e. omega (arith, e, t)) (v.accounted.own page h t) st (λ _. c)

  pub remove-Ends : (page : ℕ) → Ends IsValid (kom_smc_remove s page)
  unfolding kom_smc_remove page_is_valid
  remove-Ends page =
      ground (arith, v, v.accounted.owner_in page, remove-page page, remove-addrspace page)

  -- A write to a page that is no address space.
  pub word-IsValid : (page w x : ℕ) → (s.pagedb page).type ≢ 1 → IsValid (set_word s page w x)
  word-IsValid page w x n =
      calm (set_word s page w x) host (set_word-Accounted s page w x n v.accounted)

module _ (l : Layout) (s : State) (v : IsValid s) (host : s.enclave_mode ≡ false) where
  pub map_insecure-Ends :
      (parent index mapping content : ℕ)
      → Ends IsValid (kom_smc_map_insecure l s parent index mapping content)
  unfolding kom_smc_map_insecure insecure_page_is_valid page_is_typed
  map_insecure-Ends parent index mapping content =
      ground
        (arith, v, v.accounted.owner_in parent, λ (x : ℕ). word-IsValid s v host parent index x)
