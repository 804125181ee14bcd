-- ===== src/Komodo/Tests.antt =====
-- A monitor with all pages free, and the theorems at states of it.
use serval_sosp.Base.{
  ◌+◌, ◌≡◌, refl, [], false, if◌then◌else◌, ◌==◌, Ends, leaves, returns, arith, ℕ, ◌*◌, ◌^◌, ◌≢◌,
  true, subst, bit_or,
}
use serval_sosp.Machine.Csr.{Machine}
use serval_sosp.Komodo.State.{State, Layout}
use serval_sosp.Komodo.Monitor.{
  kom_smc_init_addrspace, init_addrspace_state, page_is_valid, page_is_free,
}
use serval_sosp.Komodo.Traps.{do_trap, main}
use serval_sosp.Komodo.Invariant.{IsValid}
use serval_sosp.Komodo.Trap.{do_trap-IsValid, komodo_main-IsValid}
use serval_sosp.Machine.Pmp.{pmpcfg_read}
use serval_sosp.Komodo.State.{set_word, page_pfn}
use serval_sosp.Komodo.Monitor.{
  kom_smc_init_dispatcher, kom_smc_remove, allocated, allocate_page, page_is_typed,
  kom_err_pageinuse,
}
use serval_sosp.Komodo.World.{
  kom_smc_enter, kom_smc_resume, enter_secure_world, leave_secure_world, entered_state, left_state,
  answer_host,
}
use serval_sosp.Komodo.Traps.{smc_call}
use serval_sosp.Komodo.Calls.{init_addrspace-Ends}
use serval_sosp.Komodo.Allocs.{init_dispatcher-Ends}
use serval_sosp.Komodo.Guard.{Guarded, Always}
use serval_sosp.Komodo.Refusal.{
  KeptOnError, smc_call-KeptOnError, kom_smc_remove-refuses, kom_smc_enter-refuses,
}
use serval_sosp.Komodo.Isolation.{do_trap-Guarded, komodo_main-Guarded}
use serval_sosp.Komodo.Context.{komodo_enclave_round_trip, komodo_host_round_trip}
use serval_sosp.Komodo.Tables.{Confined}
use serval_sosp.Komodo.Walk.{AllConfined}
use serval_sosp.Komodo.Paging.{do_trap-Confined}

abbrev layout : Layout
layout = record { secure_start = 0x8010_0000; payload_start = 0x8080_0000 }

-- The host calls KOM_SMC_INIT_ADDRSPACE on the pages 3 and 4.
abbrev hart : Machine
hart = record {
  csr = λ c. if c == 0x300 then 0x800 else 0;
  frame = λ i. if i == 16 then 12 else if i == 9 then 3 else if i == 10 then 4 else i;
  console = [];
  input = [];
}

abbrev empty : State
empty = record {
  machine = hart;
  pagedb = λ _. record { type = 0; addrspace_page = 0 };
  secure_pages = λ p w. p + w;
  payload = λ p w. p;
  host_state = record { regs = λ _. 0; saved = λ _. 0 };
  enclave_mode = false;
  cur_dispatcher_pageno = 0;
}

empty-IsValid : IsValid empty
empty-IsValid = record {
  accounted = record {
    owner_in = λ p h u. ground arith;
    owner_typed = λ p h u. ground arith;
    own = λ p h t. ground arith;
    counts = λ p h t. ground arith;
    root_in = λ p h t. ground arith;
    root_typed = λ p h t n. ground arith;
    root_owned = λ p h t n. ground arith;
  };
  dispatcher_in = λ e. ground arith;
  dispatcher_typed = λ e. ground arith;
}

-- The call succeeds.
accepted : kom_smc_init_addrspace empty 3 4 ≡ returns 0 (init_addrspace_state empty 3 4)
unfolding kom_smc_init_addrspace page_is_valid page_is_free
accepted = refl

do_trap-IsValid_example : Ends IsValid (do_trap layout empty 9)
do_trap-IsValid_example =
    do_trap-IsValid layout empty empty-IsValid 9 (λ e. omega (arith, e)) (λ e. omega (arith, e))

komodo_main-IsValid_example :
    (t : State) × (main layout empty 0 64 ≡ leaves t) × IsValid t × (t.enclave_mode ≡ false)
komodo_main-IsValid_example = komodo_main-IsValid layout empty 0 64

smc_call-KeptOnError_example : KeptOnError empty (smc_call layout empty empty.machine.frame)
smc_call-KeptOnError_example = smc_call-KeptOnError layout empty empty.machine.frame (omega arith)

-- The address space 3 with its root page table 4.
abbrev space : State
space = init_addrspace_state empty 3 4

space-IsValid : IsValid space
space-IsValid = subst (Ends IsValid) accepted (init_addrspace-Ends empty empty-IsValid refl 3 4)

kom_smc_remove-refuses_example : kom_smc_remove space 3 ≡ returns kom_err_pageinuse space
unfolding init_addrspace_state
kom_smc_remove-refuses_example =
    kom_smc_remove-refuses space 3 4 space-IsValid (omega arith) refl (omega arith) (omega arith)
      (λ e. omega (arith, e)) refl

-- And with the dispatcher 5.
abbrev staged : State
staged =
    let s = set_word (allocated space 5 3 2) 5 32 0x1000 in
    let t = set_word s 5 33 (bit_or (8 * 2 ^ 60) (page_pfn layout (s.secure_pages 3 0))) in
    set_word t 5 42 0x222

dispatched : kom_smc_init_dispatcher layout space 5 3 0x1000 ≡ returns 0 staged
unfolding kom_smc_init_dispatcher allocate_page allocated init_addrspace_state page_is_valid
    page_is_free page_is_typed
dispatched = refl

staged-IsValid : IsValid staged
unfolding init_addrspace_state
staged-IsValid =
    subst (Ends IsValid) dispatched
      (init_dispatcher-Ends layout space space-IsValid refl 5 3 0x1000)

-- Its address space is not final.
kom_smc_enter-refuses_example :
    (r : ℕ) × (q : ℕ) × (r ≢ 0)
    × (q ≢ 0)
    × (kom_smc_enter staged 5 1 2 3 ≡ returns r staged)
    × (kom_smc_resume staged 5 ≡ returns q staged)
unfolding allocated init_addrspace_state
kom_smc_enter-refuses_example =
    kom_smc_enter-refuses staged 5 1 2 3 staged-IsValid (λ e. omega (arith, e))

-- PMP entry 5 is closed.
abbrev closed : State
closed = record empty {
  machine = record hart {
    csr = λ c. if c == 0x300 then 0x800 else if c == 0x3a0 then 0x0800_0000_0000 else 0;
  };
}

do_trap-Guarded_example : Always Guarded (do_trap layout closed 9)
unfolding Guarded pmpcfg_read
do_trap-Guarded_example = do_trap-Guarded layout closed 9 refl

komodo_main-Guarded_example : Always Guarded (main layout empty 0 64)
komodo_main-Guarded_example = komodo_main-Guarded layout empty 0 64

-- An enclave on dispatcher 5, interrupted.
abbrev inside : State
inside = record empty { enclave_mode = true; cur_dispatcher_pageno = 5 }

komodo_enclave_round_trip_example :
    (u : State) × (enter_secure_world (left_state inside 1 (inside.secure_pages 5)) 5 ≡ leaves u)
    × (u.machine.frame 10 ≡ 4)
    × (u.machine.csr 0x180 ≡ 0)
komodo_enclave_round_trip_example =
    komodo_enclave_round_trip 10 0x180 (omega arith) refl inside
      (left_state inside 1 (inside.secure_pages 5)) 1 (omega arith) refl

komodo_host_round_trip_example :
    (u : State) × (leave_secure_world
        (answer_host (entered_state empty 5 (empty.secure_pages 5)) 9 77)
        1
      ≡ leaves u)
    × (u.machine.frame 10 ≡ 77)
    × (u.machine.csr 0x180 ≡ 0)
unfolding entered_state
komodo_host_round_trip_example =
    komodo_host_round_trip 10 0x180 (omega arith) refl empty
      (entered_state empty 5 (empty.secure_pages 5)) 5 9 77 1 (empty.secure_pages 5) refl
      (omega arith)

empty-Confined : AllConfined layout empty
unfolding AllConfined Confined
empty-Confined p w h k lo hi live = absurd (omega (arith, lo))

do_trap-Confined_example : Always (AllConfined layout) (do_trap layout empty 9)
do_trap-Confined_example = do_trap-Confined layout empty empty-IsValid empty-Confined 9
