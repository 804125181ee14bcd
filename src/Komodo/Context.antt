-- ===== src/Komodo/Context.antt =====
-- What the host and an enclave find in their registers again.
use serval_sosp.Base.{
  ℕ, ◌+◌, ◌<◌, ◌≡◌, refl, ◌∙◌, ap, true, if◌then◌else◌, ◌==◌, update, arith, leaves,
}
use serval_sosp.Machine.Regs.{PtRegs, pt_regs_words, a0, a1, copy_pt_regs-copied}
use serval_sosp.Machine.Csr.{Machine, csr_write, csr_set, csr_clear, copy_csrs_lem, listed}
use serval_sosp.Machine.Pmp.{pmpcfg_write}
use serval_sosp.Komodo.State.{
  State, HostState, kom_secure_npages, monitor_csrs, csrs_word, load_regs, store_regs, load_csrs,
  store_csrs,
}
use serval_sosp.Komodo.World.{
  enter_secure_world, leave_secure_world, entered_state, left_state, left_page, answer_host,
  secure_machine, normal_machine, with_page_regs, with_host_regs,
}

-- The control registers of an enclave are read back from its page as they were stored.
load_csrs-store_csrs :
    (csr dst page : ℕ → ℕ) (c : ℕ)
    → listed monitor_csrs c ≡ true
    → load_csrs monitor_csrs csrs_word (store_csrs monitor_csrs csrs_word csr page) dst c ≡ csr c
unfolding load_csrs store_csrs
load_csrs-store_csrs csr dst page c e = ground arith

store_csrs-below :
    (csr page : ℕ → ℕ) (w : ℕ)
    → w < csrs_word
    → store_csrs monitor_csrs csrs_word csr page w ≡ page w
unfolding store_csrs
store_csrs-below csr page w h = ground arith

load_regs-left_page :
    (m : Machine) (x : ℕ) (page : ℕ → ℕ) (dst : PtRegs) (i : ℕ)
    → i < pt_regs_words
    → load_regs (left_page m x page) dst i ≡ m.frame i
unfolding load_regs left_page store_regs
load_regs-left_page m x page dst i h =
    ground (arith, store_csrs-below m.csr (store_regs m.frame (update page 0 x)) (1 + i))

secure_machine-csr :
    (m : Machine) (c : ℕ) → listed monitor_csrs c ≡ true → (secure_machine m).csr c ≡ m.csr c
unfolding secure_machine pmpcfg_write csr_write csr_set csr_clear
secure_machine-csr m c e = ground arith

normal_machine-csr :
    (m : Machine) (c : ℕ) → listed monitor_csrs c ≡ true → (normal_machine m).csr c ≡ m.csr c
unfolding normal_machine pmpcfg_write csr_write csr_set csr_clear
normal_machine-csr m c e = ground arith

left_lem :
    (s : State) (x : ℕ)
    → let p = s.cur_dispatcher_pageno in
      (left_state s x (s.secure_pages p)).secure_pages p ≡ left_page s.machine x (s.secure_pages p)
unfolding left_state
left_lem s x = ground arith

enter_lem :
    (t : State) (p : ℕ)
    → p < kom_secure_npages
    → enter_secure_world t p
      ≡ leaves (with_page_regs (entered_state t p (t.secure_pages p)) (t.secure_pages p))
unfolding enter_secure_world
enter_lem t p h = ground arith

leave_lem :
    (t : State) (x : ℕ)
    → t.cur_dispatcher_pageno < kom_secure_npages
    → leave_secure_world t x
      ≡ leaves (with_host_regs (left_state t x (t.secure_pages t.cur_dispatcher_pageno)))
unfolding leave_secure_world
leave_lem t x h = ground arith

-- The host's registers are those kept for it, its control registers too.
host_back :
    (t : State) (x i c : ℕ) (page : ℕ → ℕ)
    → i < pt_regs_words
    → listed monitor_csrs c ≡ true
    → let m = (with_host_regs (left_state t x page)).machine in
      (m.frame i ≡ t.host_state.regs i) × (m.csr c ≡ t.host_state.saved c)
unfolding left_state
host_back t x i c page h e = (
  copy_pt_regs-copied _ t.host_state.regs i h,
  normal_machine-csr _ c e
      ∙ ground (arith, copy_csrs_lem monitor_csrs t.host_state.saved t.machine.csr c),
)

host_kept :
    (s : State) (page i c : ℕ) (dispatcher : ℕ → ℕ)
    → i < pt_regs_words
    → listed monitor_csrs c ≡ true
    → let k = (entered_state s page dispatcher).host_state in
      (k.regs i ≡ s.machine.frame i) × (k.saved c ≡ s.machine.csr c)
unfolding entered_state
host_kept s page i c dispatcher h e = (
  copy_pt_regs-copied s.host_state.regs s.machine.frame i h,
  ground (arith, copy_csrs_lem monitor_csrs s.machine.csr s.host_state.saved c),
)

answered :
    (t : State) (r y i : ℕ)
    → ((answer_host t r y).host_state.regs i
        ≡ (if i == a0 then r else if i == a1 then y else t.host_state.regs i))
unfolding answer_host
answered t r y i = ground arith

answered-csr :
    (t : State) (r y c : ℕ) → (answer_host t r y).host_state.saved c ≡ t.host_state.saved c
unfolding answer_host
answered-csr t r y c = refl

answered-page :
    (t : State) (r y : ℕ) → (answer_host t r y).cur_dispatcher_pageno ≡ t.cur_dispatcher_pageno
unfolding answer_host
answered-page t r y = refl

module _ (i c : ℕ) (i_in : i < pt_regs_words) (c_in : listed monitor_csrs c ≡ true) where
  loaded :
      (s t : State) (x : ℕ) (old : ℕ → ℕ) (p : ℕ)
      → let page = left_page s.machine x old in
        let m = (with_page_regs (entered_state t p page) page).machine in
        (m.frame i ≡ s.machine.frame i) × (m.csr c ≡ s.machine.csr c)
  unfolding entered_state left_page
  loaded s t x old p = (
    load_regs-left_page s.machine x old _ i i_in,
    secure_machine-csr _ c c_in ∙ load_csrs-store_csrs s.machine.csr t.machine.csr _ c c_in,
  )

  -- An enclave that leaves in `s`, by a trap or by its exit call, and is entered again in `t`,
  -- the page of its dispatcher untouched meanwhile, has the registers and control registers that
  -- it had.
  pub komodo_enclave_round_trip :
      (s t : State) (x : ℕ)
      → s.cur_dispatcher_pageno < kom_secure_npages
      → let p = s.cur_dispatcher_pageno in
        t.secure_pages p ≡ (left_state s x (s.secure_pages p)).secure_pages p
        → (u : State) × (enter_secure_world t p ≡ leaves u)
          × (u.machine.frame i ≡ s.machine.frame i)
          × (u.machine.csr c ≡ s.machine.csr c)
  komodo_enclave_round_trip s t x d_in kept =
      let p = s.cur_dispatcher_pageno in
      let same = kept ∙ left_lem s x in
      let r = loaded s t x (s.secure_pages p) p in
      (
        with_page_regs (entered_state t p (t.secure_pages p)) (t.secure_pages p),
        enter_lem t p d_in,
        rw same r.0,
        rw same r.1,
      )

  -- The host that enters an enclave in `s` has its registers and control registers back when the
  -- enclave leaves in `t`, the context that the entry has saved for it untouched meanwhile, but for
  -- the two registers that hold the answer.
  pub komodo_host_round_trip :
      (s t : State) (page r y x : ℕ) (dispatcher : ℕ → ℕ)
      → t.host_state ≡ (entered_state s page dispatcher).host_state
      → t.cur_dispatcher_pageno < kom_secure_npages
      → (u : State) × (leave_secure_world (answer_host t r y) x ≡ leaves u)
        × (u.machine.frame i ≡ (if i == a0 then r else if i == a1 then y else s.machine.frame i))
        × (u.machine.csr c ≡ s.machine.csr c)
  komodo_host_round_trip s t page r y x dispatcher kept d_in =
      let w = answer_host t r y in
      let d = w.secure_pages w.cur_dispatcher_pageno in
      let back = host_back w x i c d i_in c_in in
      let k = host_kept s page i c dispatcher i_in c_in in
      (
        with_host_regs (left_state w x d),
        leave_lem w x (rw (answered-page t r y) d_in),
        back.0 ∙ answered t r y i ∙ rw kept (rw k.0 refl),
        back.1 ∙ answered-csr t r y c ∙ ap (λ (h : HostState). h.saved c) kept ∙ k.1,
      )
