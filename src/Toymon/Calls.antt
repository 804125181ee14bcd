-- ===== src/Toymon/Calls.antt =====
-- The calls of monitors/toymon/main.c, and its boot.
use serval_sosp.Base.{
  ℕ, ◌<◌, ◌≡◌, refl, ◌∙◌, if◌then◌else◌, ◌==◌, update, arith, returns, leaves, Answers,
  Answers-and_then, Answers-lift, lift, ◌*◌, ◌%◌, bit_and, ==_iff, lt→ltb,
}
use serval_sosp.Base.Bits.{all_below, all_below_sound}
use serval_sosp.Base.Word.{add64, shr64}
use serval_sosp.Machine.Regs.{PtRegs, a0, a7}
use serval_sosp.Machine.Csr.{Machine, csr_write, mepc, pmpaddr, pmpcfg0}
use serval_sosp.Machine.Pmp.{pmpcfg_read, pmpcfg_write, pmpaddr_write}
use serval_sosp.Machine.Pmp.Fields.{pmpcfg_read-pmpcfg_write, pmpcfg_write-csr}
use serval_sosp.Machine.Mcall.{do_mcall, do_mcall-Answers}
use serval_sosp.Toymon.Monitor.{
  State, nr_get_and_set, syscall, sys_hello_world, sys_get_and_set, set_a0, do_trap_ecall_s,
  supervisor_init, main,
}

-- Every trap returns to the caller or shuts down, without a context switch, BUG or a wild access, and
-- of the control registers it changes mepc alone, which steps over the ecall.
pub toymon_trap-csr :
    (s : State)
    → Answers
        (λ t. t.machine.csr ≡ update s.machine.csr mepc (add64 (s.machine.csr mepc) 4))
        (do_trap_ecall_s s)
unfolding do_trap_ecall_s syscall sys_hello_world sys_get_and_set set_a0 csr_write
toymon_trap-csr s = Answers-and_then P _ set_a0 (ground (arith, mcall)) (λ r t e. e)
  where
    P : State → Type 0
    P t = t.machine.csr ≡ update s.machine.csr mepc (add64 (s.machine.csr mepc) 4)

    m : Machine
    m = csr_write s.machine mepc (add64 (s.machine.csr mepc) 4)

    mcall : Answers P (lift (λ n. record s { machine = n }) (do_mcall m s.machine.frame))
    mcall =
        Answers-lift (λ n. record s { machine = n }) P (do_mcall m s.machine.frame)
          (do_mcall-Answers m s.machine.frame)

-- Of two calls of get_and_set in a row, whatever the machine does between them, the second
-- returns what the first was given, and its own argument stays.
pub get_and_set_twice :
    (s : State) (m : Machine)
    → s.machine.frame a7 ≡ nr_get_and_set
    → m.frame a7 ≡ nr_get_and_set
    → (t : State) × (u : State) × (do_trap_ecall_s s ≡ returns 0 t)
      × (t.machine.frame a0 ≡ s.x)
      × (do_trap_ecall_s (record t { machine = m }) ≡ returns 0 u)
      × (u.machine.frame a0 ≡ s.machine.frame a0)
      × (u.x ≡ m.frame a0)
unfolding do_trap_ecall_s syscall sys_get_and_set set_a0 csr_write
get_and_set_twice s m e f =
    (after s, after (record (after s) { machine = m }), simp e, refl, simp f, refl, refl)
  where
    after : State → State
    after t = record t {
      x = t.machine.frame a0;
      machine = record (csr_write t.machine mepc (add64 (t.machine.csr mepc) 4)) {
        frame = update t.machine.frame a0 t.x;
      };
    }

zero_field : (k : ℕ) → k < 8 → bit_and (shr64 0 (k % 8 * 8)) 0xff ≡ 0
unfolding all_below
zero_field k h =
    (==_iff (bit_and (shr64 0 (k % 8 * 8)) 0xff) 0).0
      (all_below_sound 8 (λ i. bit_and (shr64 0 (i % 8 * 8)) 0xff == 0) k refl h)

-- The fields of a cleared configuration register.
cleared_field : (m : Machine) (k : ℕ) → k < 8 → m.csr pmpcfg0 ≡ 0 → pmpcfg_read m k ≡ 0
unfolding pmpcfg_read
cleared_field m k h e = rw (lt→ltb k 8 h) (rw e (zero_field k h))

opened :
    (m : Machine) (k : ℕ)
    → k < 8
    → m.csr pmpcfg0 ≡ 0
    → pmpcfg_read (pmpcfg_write m 1 15) k ≡ (if k == 1 then 15 else 0)
opened m k h e = ground (arith, pmpcfg_read-pmpcfg_write m 1 k 15, cleared_field m k h e)

read_frame :
    (m : Machine) (f : PtRegs) (k : ℕ) → pmpcfg_read (record m { frame = f }) k ≡ pmpcfg_read m k
unfolding pmpcfg_read
read_frame m f k = refl

-- main leaves with PMP entry 1 open from _payload_start to _payload_end, and no other of the
-- first eight entries on.
pub toymon_main-pmp :
    (payload_start payload_end : ℕ) (s : State) (hartid dtb k : ℕ)
    → k < 8
    → (t : State) × (main payload_start payload_end s hartid dtb ≡ leaves t)
      × (pmpcfg_read t.machine k ≡ (if k == 1 then 15 else 0))
      × (t.machine.csr (pmpaddr 0) ≡ shr64 payload_start 2)
      × (t.machine.csr (pmpaddr 1) ≡ shr64 payload_end 2)
unfolding main supervisor_init pmpaddr_write csr_write
toymon_main-pmp lo hi s hartid dtb k h = (
  _,
  refl,
  read_frame _ _ k ∙ opened _ k h refl,
  pmpcfg_write-csr _ 1 15 (pmpaddr 0) (omega arith) (λ e. omega (arith, e)),
  pmpcfg_write-csr _ 1 15 (pmpaddr 1) (omega arith) (λ e. omega (arith, e)),
)
