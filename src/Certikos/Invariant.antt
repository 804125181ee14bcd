-- ===== src/Certikos/Invariant.antt =====
-- What holds of the monitor's state between two traps.
use serval_sosp.Base.{ℕ, ◌≤◌, ◌<◌, ◌≡◌, ◌≢◌, ◌⊎◌, ◌∙◌, sym, subst, arith}
use serval_sosp.Certikos.State.{State, Proc, nr_procs, nr_pages, proc_state_run}

abbrev pub Runs : State → ℕ → Type 0
Runs s i = (s.procs i).state ≡ proc_state_run

-- Two page ranges have no page in common.
abbrev pub Apart : Proc → Proc → Type 0
Apart p q = (p.upper ≤ q.lower) ⊎ (q.upper ≤ p.lower)

pub record IsValid (s : State) : Type 0 where
  pub current_in : s.current_pid < nr_procs
  pub current_runs : Runs s s.current_pid
  pub bounds :
      (i : ℕ)
      → i < nr_procs
      → ((s.procs i).lower ≤ (s.procs i).upper) × ((s.procs i).upper ≤ nr_pages)
  pub next_in : (i : ℕ) → i < nr_procs → Runs s i → (s.procs i).next < nr_procs
  pub next_runs : (i : ℕ) → i < nr_procs → Runs s i → Runs s (s.procs i).next
  pub apart :
      (i j : ℕ)
      → i < nr_procs
      → j < nr_procs
      → i ≢ j
      → Runs s i
      → Runs s j
      → Apart (s.procs i) (s.procs j)

-- What the invariant reads of an entry is the same in both.
abbrev pub SameRange : Proc → Proc → Type 0
SameRange p q = (p.state ≡ q.state) × (p.next ≡ q.next) × (p.lower ≡ q.lower) × (p.upper ≡ q.upper)

-- The invariant depends on those fields alone.
pub IsValid-SameRange :
    (s t : State)
    → IsValid s
    → ((j : ℕ) → SameRange (t.procs j) (s.procs j))
    → t.current_pid < nr_procs
    → Runs s t.current_pid
    → IsValid t
IsValid-SameRange s t v same c r = record {
  current_in = c;
  current_runs = (same t.current_pid).0 ∙ r;
  bounds = λ i h. omega (arith, v.bounds i h, same i);
  next_in = λ i h e. omega (arith, v.next_in i h (old i e), same i);
  next_runs = λ i h e.
      (same (t.procs i).next).0
      ∙ subst (λ k. (s.procs k).state ≡ proc_state_run) (sym (same i).1)
          (v.next_runs i h (old i e));
  apart = λ i j hi hj ne ri rj.
      ground (arith, same i, same j, v.apart i j hi hj ne (old i ri) (old j rj));
}
  where
    old : (k : ℕ) → Runs t k → Runs s k
    old k e = sym (same k).0 ∙ e
