-- ===== src/Keystone/State.antt =====
-- monitors/keystone/enclave.h, cpu.h, csrs.h, and the globals of monitors/keystone/enclave.c.
use serval_sosp.Base.{
  ℕ, ◌^◌, Bool, List, [], ◌∷◌, if◌then◌else◌, ltb, update, Outcome, out_of_bounds,
}
use serval_sosp.Machine.Regs.{PtRegs, copy_pt_regs}
use serval_sosp.Machine.Csr.{
  Machine, copy_csrs, mepc, mcounteren, mcycle, minstret, satp, stvec, scounteren, stval, sip,
  scause, sepc, sstatus,
}

-- (NR_PMP_ENTRIES - 2) / 2
abbrev pub nr_enclaves : ℕ
nr_enclaves = 3

-- SZ_1G
abbrev pub max_payload_size : ℕ
max_payload_size = 2 ^ 30

abbrev pub enclave_free : ℕ
enclave_free = 0

abbrev pub enclave_fresh : ℕ
enclave_fresh = 1

abbrev pub enclave_running : ℕ
enclave_running = 2

abbrev pub enclave_idle : ℕ
enclave_idle = 3

-- `struct cpu_state`; `saved c` is the field named after the register `c`.
pub record CpuState : Type 0 where
  pub saved : ℕ → ℕ
  pub regs : PtRegs

-- The registers of csrs.h, in its order.
abbrev pub cpu_csrs : List ℕ
cpu_csrs =
    mepc ∷ mcounteren ∷ mcycle ∷ minstret ∷ satp ∷ stvec ∷ scounteren ∷ stval ∷ sip ∷ scause ∷ sepc
    ∷ sstatus ∷ []

pub record Enclave : Type 0 where
  pub status : ℕ
  pub entry : ℕ
  pub secure_lower : ℕ
  pub secure_upper : ℕ
  pub shared_lower : ℕ
  pub shared_upper : ℕ
  pub encl_state : CpuState

-- `payload` is the array _payload_start of MAX_PAYLOAD_SIZE bytes.
pub record State : Type 0 where
  pub machine : Machine
  pub enclaves : ℕ → Enclave
  pub enclave_mode : Bool
  pub current_enclave : ℕ
  pub host_state : CpuState
  pub payload : ℕ → ℕ

-- `enclaves[eid]` in the code `k`: out of bounds if `eid` is no index.
abbrev pub at_enclave : State → ℕ → (Enclave → Outcome State) → Outcome State
at_enclave s eid k = if ltb eid nr_enclaves then k (s.enclaves eid) else out_of_bounds

abbrev pub set_enclave : State → ℕ → Enclave → State
set_enclave s eid e = record s { enclaves = update s.enclaves eid e }

-- `save_cpu_state(current_pt_regs(), state)`
unfoldable pub save_cpu_state : Machine → CpuState → CpuState
save_cpu_state m c = record {
  saved = copy_csrs cpu_csrs m.csr c.saved;
  regs = copy_pt_regs c.regs m.frame;
}

-- `restore_cpu_state(current_pt_regs(), state)`
unfoldable pub restore_cpu_state : Machine → CpuState → Machine
restore_cpu_state m c = record m {
  csr = copy_csrs cpu_csrs c.saved m.csr;
  frame = copy_pt_regs m.frame c.regs;
}
