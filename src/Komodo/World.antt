-- ===== src/Komodo/World.antt =====
-- monitors/komodo/monitor.c, the calls that change between host and enclave.
use serval_sosp.Base.{
  ℕ, ◌+◌, ◌^◌, true, false, not, if◌then◌else◌, leb, ◌==◌, update, bit_or, Outcome, returns, leaves,
}
use serval_sosp.Machine.Regs.{copy_pt_regs, a0, a1, a2}
use serval_sosp.Machine.Csr.{
  Machine, csr_write, csr_set, csr_clear, copy_csrs, mstatus, medeleg, mideleg, sr_tvm, edel_common,
  idel_s,
}
use serval_sosp.Machine.Pmp.{pmpcfg_write, pmpcfg_a_tor, pmpcfg_r, pmpcfg_w, pmpcfg_x}
use serval_sosp.Komodo.State.{
  State, HostState, kom_page_dispatcher, kom_addrspace_final, state, entered, regs_word, csrs_word,
  monitor_csrs, set_word, at_page, load_regs, store_regs, load_csrs, store_csrs,
}
use serval_sosp.Komodo.Monitor.{page_is_typed, kom_err_success, kom_err_invalid_pageno}

abbrev pub kom_err_not_final : ℕ
kom_err_not_final = 5

abbrev pub kom_err_interrupted : ℕ
kom_err_interrupted = 9

abbrev pub kom_err_fault : ℕ
kom_err_fault = 10

abbrev pub kom_err_already_entered : ℕ
kom_err_already_entered = 11

abbrev pub kom_err_not_entered : ℕ
kom_err_not_entered = 12

-- The control registers when an enclave runs, from those of a machine whose csrs.h registers are
-- in place; the TLB flush is not seen.
unfoldable pub secure_machine : Machine → Machine
secure_machine m0 =
    let rwx = bit_or (bit_or (bit_or pmpcfg_a_tor pmpcfg_r) pmpcfg_w) pmpcfg_x in
    let m1 = csr_set (pmpcfg_write m0 5 rwx) mstatus sr_tvm in
    csr_write (csr_write m1 mideleg 0) medeleg 0

-- And when the host does.
unfoldable pub normal_machine : Machine → Machine
normal_machine m0 =
    let m1 = csr_clear (pmpcfg_write m0 5 pmpcfg_a_tor) mstatus sr_tvm in
    csr_write (csr_write m1 mideleg idel_s) medeleg edel_common

-- What enter_secure_world does, with the words of the dispatcher.
unfoldable pub entered_state : State → ℕ → (ℕ → ℕ) → State
entered_state s dispatcher_pageno dispatcher =
    let m = s.machine in
    let host : HostState = record {
      regs = copy_pt_regs s.host_state.regs m.frame;
      saved = copy_csrs monitor_csrs m.csr s.host_state.saved;
    } in
    let loaded = record m { csr = load_csrs monitor_csrs csrs_word dispatcher m.csr } in
    record s {
      host_state = host;
      machine = secure_machine loaded;
      enclave_mode = true;
      cur_dispatcher_pageno = dispatcher_pageno;
    }

-- The state in which mret_with_regs(&dispatcher->regs) leaves.
abbrev pub with_page_regs : State → (ℕ → ℕ) → State
with_page_regs s page = record s {
  machine = record (s.machine) { frame = load_regs page s.machine.frame };
}

-- `enter_secure_world(disp_page)` and the return into the enclave
unfoldable pub enter_secure_world : State → ℕ → Outcome State
enter_secure_world s dispatcher_pageno =
    at_page s dispatcher_pageno λ dispatcher.
      leaves (with_page_regs (entered_state s dispatcher_pageno dispatcher) dispatcher)

-- The words of the dispatcher when the enclave has left.
unfoldable pub left_page : Machine → ℕ → (ℕ → ℕ) → ℕ → ℕ
left_page m entered_value page =
    store_csrs monitor_csrs csrs_word m.csr (store_regs m.frame (update page entered entered_value))

-- What leave_secure_world does.
unfoldable pub left_state : State → ℕ → (ℕ → ℕ) → State
left_state s entered_value dispatcher =
    let m = s.machine in
    let restored = record m { csr = copy_csrs monitor_csrs s.host_state.saved m.csr } in
    record s {
      secure_pages =
          update s.secure_pages s.cur_dispatcher_pageno (left_page m entered_value dispatcher);
      machine = normal_machine restored;
      enclave_mode = false;
      cur_dispatcher_pageno = 0;
    }

-- The state in which mret_with_regs(&host_state.regs) leaves.
abbrev pub with_host_regs : State → State
with_host_regs s = record s {
  machine = record (s.machine) { frame = copy_pt_regs s.machine.frame s.host_state.regs };
}

-- `leave_secure_world(entered)` and the return to the host
unfoldable pub leave_secure_world : State → ℕ → Outcome State
leave_secure_world s entered_value =
    at_page s s.cur_dispatcher_pageno
      λ dispatcher. leaves (with_host_regs (left_state s entered_value dispatcher))

-- `regs->a0 = err; regs->a1 = value` on the registers of the host
unfoldable pub answer_host : State → ℕ → ℕ → State
answer_host s err value = record s {
  host_state = record (s.host_state) { regs = update (update s.host_state.regs a0 err) a1 value };
}

unfoldable pub kom_smc_enter : State → ℕ → ℕ → ℕ → ℕ → Outcome State
kom_smc_enter s disp_page arg1 arg2 arg3 =
    if not (page_is_typed s disp_page kom_page_dispatcher)
    then returns kom_err_invalid_pageno s
    else at_page s ((s.pagedb disp_page).addrspace_page) λ addrspace.
      if not (addrspace state == kom_addrspace_final)
      then returns kom_err_not_final s
      else if not (s.secure_pages disp_page entered == 0)
      then returns kom_err_already_entered s
      else let s1 = set_word s disp_page (regs_word + a0) arg1 in
        let s2 = set_word s1 disp_page (regs_word + a1) arg2 in
        enter_secure_world (set_word s2 disp_page (regs_word + a2) arg3) disp_page

unfoldable pub kom_smc_resume : State → ℕ → Outcome State
kom_smc_resume s disp_page =
    if not (page_is_typed s disp_page kom_page_dispatcher)
    then returns kom_err_invalid_pageno s
    else at_page s ((s.pagedb disp_page).addrspace_page) λ addrspace.
      if not (addrspace state == kom_addrspace_final)
      then returns kom_err_not_final s
      else if s.secure_pages disp_page entered == 0
      then returns kom_err_not_entered s
      else enter_secure_world s disp_page

unfoldable pub kom_svc_exit : State → ℕ → Outcome State
kom_svc_exit s exitvalue = leave_secure_world (answer_host s kom_err_success exitvalue) 0

-- `cause` is a long: negative from 2 ^ 63 on.
unfoldable pub kom_handle_trap : State → ℕ → Outcome State
kom_handle_trap s cause =
    leave_secure_world
      (answer_host s (if leb (2 ^ 63) cause then kom_err_interrupted else kom_err_fault) cause) 1
