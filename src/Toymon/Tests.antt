-- ===== src/Toymon/Tests.antt =====
-- A host that calls get_and_set, and the theorems there.
use serval_sosp.Base.{
  ℕ, ◌≡◌, refl, [], if◌then◌else◌, ◌==◌, update, arith, returns, leaves, Answers,
}
use serval_sosp.Machine.Csr.{Machine, pmpaddr}
use serval_sosp.Machine.Pmp.{pmpcfg_read}
use serval_sosp.Toymon.Monitor.{State, do_trap_ecall_s, main}
use serval_sosp.Toymon.Calls.{toymon_trap-csr, get_and_set_twice, toymon_main-pmp}

abbrev caller : ℕ → Machine
caller y = record {
  csr = λ c. c;
  frame = λ i. if i == 16 then 11 else if i == 9 then y else i;
  console = [];
  input = [];
}

abbrev seven : State
seven = record { machine = caller 8; x = 7 }

toymon_trap-csr_example :
    Answers (λ t. t.machine.csr ≡ update (λ c. c) 0x341 0x345) (do_trap_ecall_s seven)
toymon_trap-csr_example = toymon_trap-csr seven

get_and_set_twice_example :
    (t : State) × (u : State) × (do_trap_ecall_s seven ≡ returns 0 t)
    × (t.machine.frame 9 ≡ 7)
    × (do_trap_ecall_s (record t { machine = caller 5 }) ≡ returns 0 u)
    × (u.machine.frame 9 ≡ 8)
    × (u.x ≡ 5)
get_and_set_twice_example = get_and_set_twice seven (caller 5) refl refl

toymon_main-pmp_example :
    (t : State) × (main 0x8020_0000 0x8030_0000 seven 0 64 ≡ leaves t)
    × (pmpcfg_read t.machine 1 ≡ 15)
    × (t.machine.csr (pmpaddr 0) ≡ 0x2008_0000)
    × (t.machine.csr (pmpaddr 1) ≡ 0x200c_0000)
toymon_main-pmp_example = toymon_main-pmp 0x8020_0000 0x8030_0000 seven 0 64 1 (omega arith)
