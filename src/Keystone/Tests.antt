-- ===== src/Keystone/Tests.antt =====
-- A host with one idle enclave, and the theorems at states of it.
use serval_sosp.Base.{
  ◌≤◌, ◌⊎◌, ℕ, ◌≡◌, ◌≢◌, ◌↔◌, refl, [], true, false, if◌then◌else◌, ◌==◌, ◌<◌, inl, inr, ℕ-cases,
  Ends, returns, leaves, arith,
}
use serval_sosp.Base.Word.{neg64}
use serval_sosp.Machine.Csr.{Machine, mepc}
use serval_sosp.Machine.Pmp.{pmpcfg_read}
use serval_sosp.Machine.Mcall.{einval}
use serval_sosp.Keystone.State.{State, Enclave, CpuState, nr_enclaves}
use serval_sosp.Keystone.Pmp.View.{view}
use serval_sosp.Keystone.Enclave.{sys_create_enclave, sys_destroy_enclave, is_region_overlap}
use serval_sosp.Keystone.Traps.{do_trap_ecall_s, main}
use serval_sosp.Keystone.Invariant.{IsValid, guard_of}
use serval_sosp.Keystone.Create.{
  MayCreate, create_state, sys_create_enclave-accepts, sys_create_enclave-refuses,
  is_region_overlap_iff,
}
use serval_sosp.Keystone.Destroy.{
  MayDestroy, destroy_state, sys_destroy_enclave-accepts, sys_destroy_enclave-erases,
  destroy_state-payload,
}
use serval_sosp.Keystone.Resume.{resume_state}
use serval_sosp.Keystone.Run.{MayRun}
use serval_sosp.Keystone.Exit.{exit_state}
use serval_sosp.Keystone.Switch.{answered}
use serval_sosp.Keystone.Trap.{keystone_trap-IsValid, keystone_main-IsValid}
use serval_sosp.Keystone.Repeat.{refused_run_repeats}

abbrev base : ℕ
base = 0x8040_0000

-- Entries 0 and 1 hold the enclave's region, closed; entries 6 and 7 open the payload. The call is
-- sys_run_enclave of enclave 5.
abbrev hart : Machine
hart = record {
  csr = λ c.
      if c == 0x3a0
      then 0x0f00_0000_0000_0800
      else if c == 0x3b0
      then 0x2010_0400
      else if c == 0x3b1
      then 0x2010_0800
      else if c == 0x3b6
      then 0x2010_0000
      else if c == 0x3b7
      then 0x3010_0000
      else c;
  frame = λ i. if i == 16 then 11 else if i == 9 then 5 else i;
  console = [];
  input = [];
}

abbrev no_context : CpuState
no_context = record { saved = λ _. 0; regs = λ _. 0 }

abbrev unused : Enclave
unused = record {
  status = 0;
  entry = 0;
  secure_lower = 0;
  secure_upper = 0;
  shared_lower = 0;
  shared_upper = 0;
  encl_state = no_context;
}

abbrev one : State
one = record {
  machine = hart;
  enclaves = λ i.
      if i == 0
      then record unused {
        status = 3;
        secure_lower = 0x1000;
        secure_upper = 0x2000;
        shared_upper = 0x100;
      }
      else unused;
  enclave_mode = false;
  current_enclave = 0;
  host_state = no_context;
  payload = λ a. a;
}

one-IsValid : IsValid base one
unfolding view pmpcfg_read
one-IsValid = record {
  region = λ i h l. ground arith;
  empty = λ i h e. ground arith;
  apart = λ i j hi hj ne li lj. ground arith;
  mode_runs = λ e. cc;
  runs_mode = λ i h r. ground arith;
  guarded = guard;
  rest = refl;
}
  where
    guard :
        (i : ℕ)
        → i < nr_enclaves
        → (one.enclaves i).status ≢ 0
        → view hart i ≡ guard_of base (one.enclaves i)
    guard i h l = elim (ℕ-cases i 0) [ inl e ↦ rw e refl | inr ne ↦ ground arith ]

keystone_trap-IsValid_example : Ends (IsValid base) (do_trap_ecall_s base one)
keystone_trap-IsValid_example = keystone_trap-IsValid base one one-IsValid

keystone_main-IsValid_example :
    (t : State) × (main base one 0 64 ≡ leaves t) × IsValid base t × (t.enclave_mode ≡ false)
keystone_main-IsValid_example = keystone_main-IsValid base one 0 64

-- a region beside the one in use
one-MayCreate : MayCreate one 1 0x2000 0x3000 0 0x200
one-MayCreate = record {
  host = refl;
  eid_in = omega arith;
  free = refl;
  secure = omega arith;
  shared = omega arith;
  fresh_region = λ k h. ground arith;
}

sys_create_enclave-accepts_example :
    sys_create_enclave base one 1 0x2000 0x2000 0x3000 0 0x200
    ≡ returns 0 (create_state base one 1 0x2000 0x2000 0x3000 0 0x200)
sys_create_enclave-accepts_example =
    sys_create_enclave-accepts base one 1 0x2000 0x2000 0x3000 0 0x200 one-MayCreate

in_use : ¬ MayCreate one 0 0x2000 0x3000 0 0x200
in_use m = omega (arith, m.free)

sys_create_enclave-refuses_example :
    sys_create_enclave base one 0 0x2000 0x2000 0x3000 0 0x200 ≡ returns (neg64 einval) one
sys_create_enclave-refuses_example =
    sys_create_enclave-refuses base one 0 0x2000 0x2000 0x3000 0 0x200 in_use

is_region_overlap_iff_example : (is_region_overlap one 0x1800 0x3000 ≡ true) ↔ (
    (k : ℕ) × (k < nr_enclaves)
    × (0x1800 < (one.enclaves k).secure_upper)
    × ((one.enclaves k).secure_lower < 0x3000))
is_region_overlap_iff_example = is_region_overlap_iff one 0x1800 0x3000

one-MayDestroy : MayDestroy one 0
one-MayDestroy = record { host = refl; eid_in = omega arith; stopped = inl refl }

sys_destroy_enclave-accepts_example :
    sys_destroy_enclave one 0 ≡ returns 0 (destroy_state base one 0 one-IsValid)
sys_destroy_enclave-accepts_example =
    sys_destroy_enclave-accepts base one 0 one-IsValid one-MayDestroy

destroy_state-payload_example : (destroy_state base one 0 one-IsValid).payload 0x1fff ≡ 0
destroy_state-payload_example = destroy_state-payload base one 0 one-IsValid 0x1fff

-- a trap with the call `nr` on enclave 0, other registers holding their own numbers
abbrev calling : ℕ → Machine
calling nr = record hart { frame = λ i. if i == 16 then nr else if i == 9 then 0 else i }

abbrev resuming : State
resuming = record one { machine = calling 13 }

abbrev inside : State
inside = answered (resume_state base resuming 0)

-- the enclave writes a byte and then exits
abbrev exiting : State
exiting = record inside { machine = calling 12; payload = λ a. if a == 0x1000 then 1 else a }

-- and is resumed at once
abbrev again : State
again = record (answered (exit_state base exiting)) { machine = calling 13 }

no_such : ¬ MayRun one 5
no_such m = omega (arith, m.eid_in)

refused_run_repeats_example :
    (t : State) × (do_trap_ecall_s base one ≡ returns 0 t)
    × (t.machine.csr mepc ≡ one.machine.csr mepc)
    × (do_trap_ecall_s base t ≡ returns 0 t)
refused_run_repeats_example = refused_run_repeats base one refl no_such

sys_destroy_enclave-erases_example :
    (t : State) × (sys_destroy_enclave one 0 ≡ returns 0 t)
    × ((a : ℕ) → 0x1000 ≤ a → a < 0x2000 → t.payload a ≡ 0)
    × ((a : ℕ) → (a < 0x1000) ⊎ (0x2000 ≤ a) → t.payload a ≡ a)
sys_destroy_enclave-erases_example =
    sys_destroy_enclave-erases base one 0 one-IsValid one-MayDestroy
