-- ===== src/Keystone/Enclave.antt =====
-- monitors/keystone/enclave.c and is_region_valid of pmp.h, in the build without verification
-- switches: the PMP parts are in.
use serval_sosp.Base.{
  ℕ, zero, suc, ◌+◌, ◌%◌, Bool, true, false, ◌&&◌, not, if◌then◌else◌, ltb, leb, ◌==◌, update, fill,
  Outcome, returns, out_of_bounds, and_then, lift, bit_or,
}
use serval_sosp.Base.Word.{sub64, neg64}
use serval_sosp.Machine.Regs.{clear_pt_regs}
use serval_sosp.Machine.Csr.{Machine, mepc}
use serval_sosp.Machine.Mcall.{einval}
use serval_sosp.Machine.Pmp.{pmpcfg_r, pmpcfg_w, pmpcfg_x}
use serval_sosp.Keystone.State.{
  State, Enclave, CpuState, nr_enclaves, max_payload_size, enclave_free, enclave_fresh,
  enclave_running, enclave_idle, at_enclave, set_enclave, save_cpu_state, restore_cpu_state,
}
use serval_sosp.Keystone.Pmp.{
  free_pmp_region, chmod_pmp_region, remap_pmp_region, remap_os_region, remap_shared_region,
}

unfoldable pub eid_is_valid : ℕ → Bool
eid_is_valid eid = ltb eid nr_enclaves

unfoldable pub is_region_valid : ℕ → ℕ → Bool
is_region_valid lower upper =
    lower % 4 == 0 && (upper % 4 == 0 && (ltb lower upper && leb upper max_payload_size))

-- The loop of is_region_overlap from round `i`, with `n` rounds left.
unfoldable pub overlap_loop : (ℕ → Enclave) → ℕ → ℕ → ℕ → ℕ → Bool
overlap_loop enclaves lower upper zero i = false
overlap_loop enclaves lower upper (suc n) i =
    if ltb lower (enclaves i).secure_upper && ltb (enclaves i).secure_lower upper
    then true
    else overlap_loop enclaves lower upper n (suc i)

unfoldable pub is_region_overlap : State → ℕ → ℕ → Bool
is_region_overlap s lower upper = overlap_loop s.enclaves lower upper nr_enclaves 0

unfoldable pub init_enclave : State → State
init_enclave s = record s {
  enclave_mode = false;
  enclaves = λ i.
      if ltb i nr_enclaves
      then record {
        status = 0;
        entry = 0;
        secure_lower = 0;
        secure_upper = 0;
        shared_lower = 0;
        shared_upper = 0;
        encl_state = record { saved = λ _. 0; regs = λ _. 0 };
      }
      else s.enclaves i;
}

-- `return -EINVAL`
abbrev pub refuse : State → Outcome State
refuse s = returns (neg64 einval) s

-- A call of the PMP code.
abbrev pub on_machine : State → Outcome Machine → Outcome State
on_machine s o = lift (λ m. record s { machine = m }) o

-- `memset(offset_to_virt(lower), 0, size)`
unfoldable pub memset_payload : State → ℕ → ℕ → Outcome State
memset_payload s lower size =
    if leb (lower + size) max_payload_size
    then returns 0 (record s { payload = fill s.payload lower (lower + size) 0 })
    else out_of_bounds

-- The entry that sys_create_enclave writes.
abbrev pub created : Enclave → ℕ → ℕ → ℕ → ℕ → ℕ → Enclave
created e entry secure_lower secure_upper shared_lower shared_upper = record e {
  status = enclave_fresh;
  entry = entry;
  secure_lower = secure_lower;
  secure_upper = secure_upper;
  shared_lower = shared_lower;
  shared_upper = shared_upper;
}

unfoldable pub sys_destroy_enclave : State → ℕ → Outcome State
sys_destroy_enclave s eid =
    if s.enclave_mode
    then refuse s
    else if not (eid_is_valid eid)
    then refuse s
    else at_enclave s eid λ e.
      if not (e.status == enclave_idle) && not (e.status == enclave_fresh)
      then refuse s
      else and_then (memset_payload s e.secure_lower (sub64 e.secure_upper e.secure_lower)) λ _ s'.
        let e' = record e { status = enclave_free; secure_lower = 0; secure_upper = 0 } in
        let s'' = set_enclave s' eid e' in
        and_then (on_machine s'' (free_pmp_region s''.machine eid)) λ _ t. returns 0 t

module _ (payload_start : ℕ) where
  unfoldable pub sys_create_enclave : State → ℕ → ℕ → ℕ → ℕ → ℕ → ℕ → Outcome State
  sys_create_enclave s eid entry secure_lower secure_upper shared_lower shared_upper =
      if s.enclave_mode
      then refuse s
      else if not (eid_is_valid eid)
      then refuse s
      else at_enclave s eid λ e.
        if not (e.status == enclave_free)
        then refuse s
        else if not (is_region_valid secure_lower secure_upper)
        then refuse s
        else if not (is_region_valid shared_lower shared_upper)
        then refuse s
        else if is_region_overlap s secure_lower secure_upper
        then refuse s
        else let e' = created e entry secure_lower secure_upper shared_lower shared_upper in
          let s' = set_enclave s eid e' in
          and_then (on_machine s' (chmod_pmp_region s'.machine eid 0)) λ _ s''.
            and_then
              (on_machine s''
                (remap_pmp_region payload_start s''.machine eid secure_lower secure_upper))
              λ _ t. returns 0 t

  unfoldable pub sys_resume_enclave : State → ℕ → Outcome State
  sys_resume_enclave s eid =
      if s.enclave_mode
      then refuse s
      else if not (eid_is_valid eid)
      then refuse s
      else at_enclave s eid λ e.
        if not (e.status == enclave_idle)
        then refuse s
        else let s' = record s {
          enclave_mode = true;
          current_enclave = eid;
          enclaves = update s.enclaves eid (record e { status = enclave_running });
          host_state = save_cpu_state s.machine s.host_state;
          machine = restore_cpu_state s.machine e.encl_state;
        } in
          and_then
            (on_machine s'
              (chmod_pmp_region s'.machine eid (bit_or (bit_or pmpcfg_r pmpcfg_w) pmpcfg_x)))
            λ _ s''.
              and_then
                (on_machine s''
                  (remap_shared_region payload_start s''.machine e.shared_lower e.shared_upper))
                λ _ t. returns 0 t

  unfoldable pub sys_run_enclave : State → ℕ → Outcome State
  sys_run_enclave s eid =
      if s.enclave_mode
      then refuse s
      else if not (eid_is_valid eid)
      then refuse s
      else at_enclave s eid λ e.
        if not (e.status == enclave_idle) && not (e.status == enclave_fresh)
        then refuse s
        else let c : CpuState = record {
          saved = update e.encl_state.saved mepc e.entry;
          regs = clear_pt_regs e.encl_state.regs;
        } in
          sys_resume_enclave
            (set_enclave s eid (record e { encl_state = c; status = enclave_idle })) eid

  unfoldable pub sys_exit_enclave : State → Outcome State
  sys_exit_enclave s =
      let eid = s.current_enclave in
      if not s.enclave_mode
      then refuse s
      else at_enclave s eid λ e.
        let e' = record e {
          status = enclave_idle;
          encl_state = save_cpu_state s.machine e.encl_state;
        } in
        let s' = record s {
          enclave_mode = false;
          current_enclave = neg64 1;
          enclaves = update s.enclaves eid e';
          machine = restore_cpu_state s.machine s.host_state;
        } in
        and_then (on_machine s' (chmod_pmp_region s'.machine eid 0)) λ _ s''.
          and_then (on_machine s'' (remap_os_region payload_start s''.machine)) λ _ t. returns 0 t
