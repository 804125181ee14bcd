-- ===== src/Komodo/Guard.antt =====
-- The PMP entry of the secure pages, and predicates on the states behind a call.
use serval_sosp.Base.{
  ℕ, ◌≡◌, refl, if◌then◌else◌, arith, Outcome, returns, leaves, halts, bug, out_of_bounds, and_then,
}
use serval_sosp.Machine.Csr.{Machine, csr_write, csr_set, csr_clear}
use serval_sosp.Machine.Pmp.{pmpcfg_read}
use serval_sosp.Machine.Pmp.Fields.{pmpcfg_read-pmpcfg_write}
use serval_sosp.Komodo.State.{State}
use serval_sosp.Komodo.World.{secure_machine, normal_machine}

-- Whoever runs may access the secure pages just if it is an enclave.
unfoldable pub Guarded : State → Type 0
Guarded s = pmpcfg_read s.machine 5 ≡ (if s.enclave_mode then 0xf else 8)

pub secure_machine-guard : (m : Machine) → pmpcfg_read (secure_machine m) 5 ≡ 0xf
unfolding secure_machine pmpcfg_read csr_write csr_set
secure_machine-guard m = ground (arith, pmpcfg_read-pmpcfg_write m 5 5 15)

pub normal_machine-guard : (m : Machine) → pmpcfg_read (normal_machine m) 5 ≡ 8
unfolding normal_machine pmpcfg_read csr_write csr_clear
normal_machine-guard m = ground (arith, pmpcfg_read-pmpcfg_write m 5 5 8)

-- The guard depends on the control registers alone.
pub guard-csr : (m n : Machine) → m.csr ≡ n.csr → pmpcfg_read m 5 ≡ pmpcfg_read n 5
unfolding pmpcfg_read
guard-csr m n e = rw e refl

pub guard-mepc : (m : Machine) (v : ℕ) → pmpcfg_read (csr_write m 0x341 v) 5 ≡ pmpcfg_read m 5
unfolding pmpcfg_read csr_write
guard-mepc m v = refl

-- `P` holds of the state behind, if there is one.
abbrev pub Always : (State → Type 0) → Outcome State → Type 0
Always P (returns r t) = P t
Always P (leaves t) = P t
Always P (halts t) = P t
Always P bug = Unit {0}
Always P out_of_bounds = Unit {0}

pub Always-and_then :
    (P : State → Type 0) (o : Outcome State) (k : ℕ → State → Outcome State)
    → Always P o
    → ((r : ℕ) (t : State) → P t → Always P (k r t))
    → Always P (and_then o k)
Always-and_then P (returns r t) k e h = h r t e
Always-and_then P (leaves t) k e h = e
Always-and_then P (halts t) k e h = e
Always-and_then P bug k e h = e
Always-and_then P out_of_bounds k e h = e

-- Machine and mode are those of `s`.
abbrev pub Same : State → State → Type 0
Same s t = (t.machine ≡ s.machine) × (t.enclave_mode ≡ s.enclave_mode)

pub Same-Guarded : (s t : State) → Same s t → Guarded s → Guarded t
unfolding Guarded
Same-Guarded s t (e, f) g = rw e (rw f g)

pub Always-mono :
    (P Q : State → Type 0) (o : Outcome State) → ((t : State) → P t → Q t) → Always P o → Always Q o
Always-mono P Q (returns r t) h e = h t e
Always-mono P Q (leaves t) h e = h t e
Always-mono P Q (halts t) h e = h t e
Always-mono P Q bug h e = e
Always-mono P Q out_of_bounds h e = e
