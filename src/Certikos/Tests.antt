-- ===== src/Certikos/Tests.antt =====
-- Two processes, and the theorems at this state.
use serval_sosp.Base.{
  ℕ, ◌+◌, ◌*◌, ◌^◌, ◌<◌, ◌&&◌, ltb, ◌≡◌, refl, [], if◌then◌else◌, ◌==◌, ==_iff, leb, ◌/◌, Ends,
  returns, leaves, arith, ℕ-cases, inl, inr,
}
use serval_sosp.Base.Bits.{all_below, all_below_sound}
use serval_sosp.Base.Word.{neg64}
use serval_sosp.Machine.Csr.{Machine, satp, mepc}
use serval_sosp.Machine.Pmp.{pmpcfg_read}
use serval_sosp.Machine.Mcall.{einval}
use serval_sosp.Certikos.State.{State, Proc, Layout, size_4k}
use serval_sosp.Certikos.Traps.{do_trap_ecall_s, sys_spawn, sys_yield}
use serval_sosp.Certikos.Invariant.{IsValid}
use serval_sosp.Certikos.Spawn.{MaySpawn, spawned, sys_spawn-accepts, sys_spawn-refuses}
use serval_sosp.Certikos.Spawn.Valid.{sys_spawn-pages}
use serval_sosp.Certikos.Spawn.Quota.{total_quota}
use serval_sosp.Certikos.Quota.{do_trap_ecall_s-total_quota}
use serval_sosp.Certikos.Yield.{yielded, yielded-IsValid, sys_yield-leaves, yield_round_trip}
use serval_sosp.Certikos.Trap.{do_trap_ecall_s-IsValid, do_trap_ecall_s-Untouched, IsValid-machine}
use serval_sosp.Certikos.Guard.{Guarded, Placed, Writable, configured, do_trap_ecall_s-Guarded}
use serval_sosp.Certikos.Boot.{main, main-IsValid}
use serval_sosp.Certikos.Reach.{stay, go, Step, user, Without-Untouched}

abbrev layout : Layout
layout = record { pages_addr = 0x8010_0000; payload_start = 0x8040_0000; payload_end = 0x8050_0000 }

-- a7 holds the number of sys_yield
abbrev hart : Machine
hart = record { csr = λ c. c; frame = λ i. if i == 16 then 12 else i; console = []; input = [] }

abbrev blank : Proc
blank = record {
  state = 0;
  owner = 1;
  next = 0;
  lower = 0;
  upper = 0;
  saved = λ _. 0;
  cpu = λ _. 0;
}

-- The idle process has pages 0 to 199 and its child 4 has the others.
abbrev two : State
two = record {
  machine = hart;
  procs = λ i.
      if i == 1
      then record blank { state = 1; next = 4; upper = 200 }
      else if i == 4
      then record blank { state = 1; next = 1; lower = 200; upper = 256 }
      else record blank { owner = if leb 4 i then i / 4 else 1 };
  pages = λ a. a;
  current_pid = 1;
}

two-IsValid : IsValid two
two-IsValid = record {
  current_in = omega arith;
  current_runs = refl;
  bounds = λ i h. ground arith;
  next_in = λ i h r. ground arith;
  next_runs = λ i h r. ground arith;
  apart = λ i j hi hj ne ri rj. ground arith;
}

two-MaySpawn : MaySpawn two 10 5
two-MaySpawn = omega arith

do_trap_ecall_s-IsValid_example : Ends IsValid (do_trap_ecall_s layout two)
do_trap_ecall_s-IsValid_example = do_trap_ecall_s-IsValid layout two two-IsValid

do_trap_ecall_s-Untouched_example :
    Ends
      (λ t. (t.procs 4 ≡ two.procs 4) × (t.pages 1_000_000 ≡ 1_000_000))
      (do_trap_ecall_s layout two)
do_trap_ecall_s-Untouched_example =
    do_trap_ecall_s-Untouched layout two two-IsValid 4 1_000_000 (omega arith) refl (omega arith)
      (omega arith) (omega arith)

sys_spawn-accepts_example : sys_spawn layout two 2 10 5 ≡ returns 0 (spawned layout two 2 10 5)
sys_spawn-accepts_example = sys_spawn-accepts layout two 2 10 5 two-IsValid two-MaySpawn

too_much : ¬ MaySpawn two 201 5
too_much m = omega (arith, m.quota_fits)

sys_spawn-refuses_example : sys_spawn layout two 2 201 5 ≡ returns (neg64 einval) two
sys_spawn-refuses_example = sys_spawn-refuses layout two 2 201 5 two-IsValid too_much

sys_spawn-pages_example :
    (t : State) × (sys_spawn layout two 2 10 5 ≡ returns 0 t)
    × ((a : ℕ)
        → t.pages a ≡ (
            if leb ((t.procs 5).lower * size_4k) a && ltb a ((t.procs 5).upper * size_4k)
            then 0
            else a))
sys_spawn-pages_example = sys_spawn-pages layout two 2 10 5 two-IsValid two-MaySpawn

-- a trap that spawns process 5, on 10 pages
abbrev spawning : State
spawning = record two {
  machine = record hart {
    frame = λ i. if i == 16 then 11 else if i == 10 then 10 else if i == 11 then 5 else i;
  };
}

spawning-IsValid : IsValid spawning
spawning-IsValid = IsValid-machine two spawning.machine two-IsValid

do_trap_ecall_s-total_quota_example :
    Ends (λ t. total_quota t ≡ total_quota spawning) (do_trap_ecall_s layout spawning)
do_trap_ecall_s-total_quota_example = do_trap_ecall_s-total_quota layout spawning spawning-IsValid

main-IsValid_example :
    (t : State) × (main layout two ≡ leaves t)
    × IsValid t
    × (t.current_pid ≡ 1)
    × Guarded layout t
    × (t.machine.frame ≡ (t.procs 1).cpu)
    × (t.machine.frame 9 ≡ 0)
    × (t.machine.frame 10 ≡ 0x8010_0000)
    × (t.machine.csr mepc ≡ 0x8040_0000)
main-IsValid_example = main-IsValid layout two

-- the idle process has yielded to process 4
abbrev switched : State
switched = yielded layout two hart.frame

switched-IsValid : IsValid switched
switched-IsValid = yielded-IsValid layout two hart.frame two-IsValid

-- process 4 yields in turn
yield_round_trip_example :
    (w : State) × (sys_yield layout switched (λ _. 7) ≡ leaves w)
    × (w.current_pid ≡ 1)
    × (w.machine.frame 9 ≡ 9)
    × (w.machine.csr satp ≡ satp)
unfolding yielded
yield_round_trip_example =
    yield_round_trip layout two switched switched hart.frame (λ _. 7) 9 satp two-IsValid
      switched-IsValid (sys_yield-leaves layout two hart.frame two-IsValid) refl (omega arith) refl
      (omega arith) refl

-- the machine of `two` with the PMP entries of main
abbrev guarded : State
guarded = record two {
  machine = record hart {
    csr = λ c.
        if c == 0x3a0
        then 13 * 2 ^ 24 + 15 * 2 ^ 8
        else if c == 0x3b0
        then 0x8010_0000 / 4
        else if c == 0x3b1
        then (0x8010_0000 + 200 * 4096) / 4
        else c;
  };
}

guarded-IsValid : IsValid guarded
guarded-IsValid = IsValid-machine two guarded.machine two-IsValid

guarded-Guarded : Guarded layout guarded
unfolding pmpcfg_read all_below
guarded-Guarded = (fields, (refl, refl))
  where
    fields : (k : ℕ) → k < 4 → pmpcfg_read guarded.machine k ≡ configured k
    fields k h =
        (==_iff _ _).0
          (all_below_sound 4 (λ i. pmpcfg_read guarded.machine i == configured i) k refl h)

placed : Placed layout
placed = omega arith

do_trap_ecall_s-Guarded_example : Ends (Guarded layout) (do_trap_ecall_s layout guarded)
do_trap_ecall_s-Guarded_example =
    do_trap_ecall_s-Guarded layout guarded guarded-IsValid guarded-Guarded

-- the idle process writes a byte of its own
abbrev written : State
written = record guarded { machine = guarded.machine; pages = λ a. if a == 5 then 0 else a }

own_byte : Writable guarded.machine (0x8010_0000 + 5)
unfolding pmpcfg_read
own_byte = (1, omega arith, refl, omega arith, omega arith)

writes : Step layout guarded written
writes =
    user guarded guarded.machine written.pages (λ c e. refl)
      (λ a h. elim (ℕ-cases a 5) [ inl e ↦ absurd (h (rw e own_byte)) | inr ne ↦ ground arith ])

Without-Untouched_example : (written.procs 4 ≡ two.procs 4) × (written.pages 1_000_000 ≡ 1_000_000)
Without-Untouched_example =
    Without-Untouched layout placed 4 (omega arith) guarded written guarded-IsValid guarded-Guarded
      refl 1_000_000 (omega arith) (omega arith) (go stay (omega arith) writes)
