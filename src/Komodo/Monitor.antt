-- ===== src/Komodo/Monitor.antt =====
-- monitors/komodo/monitor.c, the calls on pages: allocation, address spaces, page tables, removal.
use serval_sosp.Base.{
  ℕ, Bool, ◌&&◌, ◌||◌, not, if◌then◌else◌, ltb, leb, ◌==◌, bit_or, Outcome, returns, and_then,
}
use serval_sosp.Base.Word.{add64, sub64, neg64}
use serval_sosp.Komodo.State.{
  State, Layout, kom_secure_npages, kom_insecure_npages, page_words, kom_page_free,
  kom_page_addrspace, kom_page_dispatcher, kom_page_l1ptable, kom_page_l2ptable, kom_page_l3ptable,
  kom_page_data, kom_addrspace_init, kom_addrspace_final, kom_addrspace_stopped, l1pt_page,
  refcount, state, dispatcher_mepc, dispatcher_satp, dispatcher_sie, set_word, clear_page, copy_in,
  set_entry, at_page, page_table_prot, satp_mode_sv39, pfn_entry, enclave_prot, page_pfn,
  insecure_page_pfn,
}

abbrev pub kom_err_success : ℕ
kom_err_success = 0

abbrev pub kom_err_invalid_pageno : ℕ
kom_err_invalid_pageno = 1

abbrev pub kom_err_pageinuse : ℕ
kom_err_pageinuse = 2

abbrev pub kom_err_invalid_addrspace : ℕ
kom_err_invalid_addrspace = 3

abbrev pub kom_err_already_final : ℕ
kom_err_already_final = 4

abbrev pub kom_err_invalid_mapping : ℕ
kom_err_invalid_mapping = 6

abbrev pub kom_err_addrinuse : ℕ
kom_err_addrinuse = 7

abbrev pub kom_err_not_stopped : ℕ
kom_err_not_stopped = 8

unfoldable pub page_is_valid : ℕ → Bool
page_is_valid pageno = ltb pageno kom_secure_npages

unfoldable pub page_is_typed : State → ℕ → ℕ → Bool
page_is_typed s pageno type = ltb pageno kom_secure_npages && (s.pagedb pageno).type == type

unfoldable pub page_is_free : State → ℕ → Bool
page_is_free s pageno = ltb pageno kom_secure_npages && (s.pagedb pageno).type == kom_page_free

unfoldable pub insecure_page_is_valid : ℕ → Bool
insecure_page_is_valid pageno = ltb pageno kom_insecure_npages

-- `addrspace->refcount` plus one; `addrspace` is a pointer, read behind the writes before.
abbrev increment_refcount : State → ℕ → State
increment_refcount s addrspace_page =
    set_word s addrspace_page refcount (add64 (s.secure_pages addrspace_page refcount) 1)

-- What allocate_page does once its checks have passed.
unfoldable pub allocated : State → ℕ → ℕ → ℕ → State
allocated s page addrspace_page type =
    increment_refcount (set_entry (clear_page s page) page type addrspace_page) addrspace_page

unfoldable pub allocate_page : State → ℕ → ℕ → ℕ → Outcome State
allocate_page s page addrspace_page type =
    if not (page_is_valid page)
    then returns kom_err_invalid_pageno s
    else if not (page_is_free s page)
    then returns kom_err_pageinuse s
    else at_page s addrspace_page λ addrspace.
      if not (addrspace state == kom_addrspace_init)
      then returns kom_err_already_final s
      else returns kom_err_success (allocated s page addrspace_page type)

-- `if (err != KOM_ERR_SUCCESS) return err;` and the code behind it
abbrev pub on_success : Outcome State → (State → Outcome State) → Outcome State
on_success o k = and_then o λ err s. if not (err == kom_err_success) then returns err s else k s

unfoldable pub init_addrspace_state : State → ℕ → ℕ → State
init_addrspace_state s page l1 =
    let s1 = clear_page (clear_page s page) l1 in
    let s2 = set_entry (set_entry s1 page kom_page_addrspace page) l1 kom_page_l1ptable page in
    set_word (set_word (set_word s2 page l1pt_page l1) page refcount 2) page state
      kom_addrspace_init

unfoldable pub kom_smc_init_addrspace : State → ℕ → ℕ → Outcome State
kom_smc_init_addrspace s addrspace_page l1 =
    if addrspace_page == l1 || not (page_is_valid addrspace_page && page_is_valid l1)
    then returns kom_err_invalid_pageno s
    else if not (page_is_free s addrspace_page && page_is_free s l1)
    then returns kom_err_pageinuse s
    else returns kom_err_success (init_addrspace_state s addrspace_page l1)

module _ (l : Layout) where
  unfoldable pub kom_smc_init_dispatcher : State → ℕ → ℕ → ℕ → Outcome State
  kom_smc_init_dispatcher s page addrspace_page entrypoint =
      if not (page_is_typed s addrspace_page kom_page_addrspace)
      then returns kom_err_invalid_addrspace s
      else on_success (allocate_page s page addrspace_page kom_page_dispatcher) λ s1.
        let s2 = set_word s1 page dispatcher_mepc entrypoint in
        let l1 = s2.secure_pages addrspace_page l1pt_page in
        at_page s2 l1 λ _.
          let s3 = set_word s2 page dispatcher_satp (bit_or satp_mode_sv39 (page_pfn l l1)) in
          returns kom_err_success (set_word s3 page dispatcher_sie 0x222)

  -- kom_smc_init_l2ptable and kom_smc_init_l3ptable are one text, up to the types of the page and
  -- of its parent.
  unfoldable pub init_ptable : ℕ → ℕ → State → ℕ → ℕ → ℕ → Outcome State
  init_ptable parent_type type s page parent index =
      if leb page_words index
      then returns kom_err_invalid_mapping s
      else if not (page_is_typed s parent parent_type)
      then returns kom_err_invalid_pageno s
      else if not (s.secure_pages parent index == 0)
      then returns kom_err_addrinuse s
      else on_success (allocate_page s page ((s.pagedb parent).addrspace_page) type) λ s1.
        returns kom_err_success
          (set_word s1 parent index (pfn_entry (page_pfn l page) page_table_prot))

  unfoldable pub kom_smc_init_l2ptable : State → ℕ → ℕ → ℕ → Outcome State
  kom_smc_init_l2ptable = init_ptable kom_page_l1ptable kom_page_l2ptable

  unfoldable pub kom_smc_init_l3ptable : State → ℕ → ℕ → ℕ → Outcome State
  kom_smc_init_l3ptable = init_ptable kom_page_l2ptable kom_page_l3ptable

  unfoldable pub kom_smc_map_secure : State → ℕ → ℕ → ℕ → ℕ → ℕ → Outcome State
  kom_smc_map_secure s page l3pt_page l3_index mapping content =
      if leb page_words l3_index
      then returns kom_err_invalid_mapping s
      else if not (insecure_page_is_valid content)
      then returns kom_err_invalid_pageno s
      else if not (page_is_typed s l3pt_page kom_page_l3ptable)
      then returns kom_err_invalid_pageno s
      else if not (s.secure_pages l3pt_page l3_index == 0)
      then returns kom_err_addrinuse s
      else on_success (allocate_page s page ((s.pagedb l3pt_page).addrspace_page) kom_page_data)
          λ s1.
            let pte = pfn_entry (page_pfn l page) (enclave_prot mapping) in
            returns kom_err_success (copy_in (set_word s1 l3pt_page l3_index pte) page content)

  unfoldable pub kom_smc_map_insecure : State → ℕ → ℕ → ℕ → ℕ → Outcome State
  kom_smc_map_insecure s l3pt_page l3_index mapping insecure_pageno =
      if not (insecure_page_is_valid insecure_pageno)
      then returns kom_err_invalid_pageno s
      else if leb page_words l3_index
      then returns kom_err_invalid_mapping s
      else if not (page_is_typed s l3pt_page kom_page_l3ptable)
      then returns kom_err_invalid_pageno s
      else if not (s.secure_pages l3pt_page l3_index == 0)
      then returns kom_err_addrinuse s
      else at_page s ((s.pagedb l3pt_page).addrspace_page) λ addrspace.
        if not (addrspace state == kom_addrspace_init)
        then returns kom_err_already_final s
        else let pte = pfn_entry (insecure_page_pfn l insecure_pageno) (enclave_prot mapping) in
          returns kom_err_success (set_word s l3pt_page l3_index pte)

-- The end of kom_smc_remove, with the page of the address space.
unfoldable pub removed : State → ℕ → ℕ → State
removed s pageno addrspace_page =
    let count = sub64 (s.secure_pages addrspace_page refcount) 1 in
    set_entry (set_word s addrspace_page refcount count) pageno kom_page_free (neg64 1)

unfoldable pub kom_smc_remove : State → ℕ → Outcome State
kom_smc_remove s pageno =
    if not (page_is_valid pageno)
    then returns kom_err_invalid_pageno s
    else if (s.pagedb pageno).type == kom_page_free
    then returns kom_err_success s
    else if (s.pagedb pageno).type == kom_page_addrspace
    then (at_page s pageno λ addrspace.
        if not (addrspace refcount == 1)
        then returns kom_err_pageinuse s
        else if not (addrspace state == kom_addrspace_stopped)
        then returns kom_err_not_stopped s
        else returns kom_err_success (removed s pageno pageno))
    else at_page s ((s.pagedb pageno).addrspace_page) λ addrspace.
      if not (addrspace state == kom_addrspace_stopped)
      then returns kom_err_not_stopped s
      else returns kom_err_success (removed s pageno ((s.pagedb pageno).addrspace_page))

unfoldable pub kom_smc_finalise : State → ℕ → Outcome State
kom_smc_finalise s addrspace_page =
    if not (page_is_typed s addrspace_page kom_page_addrspace)
    then returns kom_err_invalid_addrspace s
    else at_page s addrspace_page λ addrspace.
      if not (addrspace state == kom_addrspace_init)
      then returns kom_err_already_final s
      else returns kom_err_success (set_word s addrspace_page state kom_addrspace_final)

unfoldable pub kom_smc_stop : State → ℕ → Outcome State
kom_smc_stop s addrspace_page =
    if not (page_is_typed s addrspace_page kom_page_addrspace)
    then returns kom_err_invalid_addrspace s
    else at_page s addrspace_page
        λ _. returns kom_err_success (set_word s addrspace_page state kom_addrspace_stopped)
