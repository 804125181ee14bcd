-- ===== src/Base/Exec.antt =====
-- What a function of a monitor comes to, over the monitor's state: it returns a word, it leaves for
-- the interrupted context through mret_with_regs, it shuts the machine down, it stops in BUG, BUG_ON
-- or die, or it accesses an array out of its bounds.
use Prim.Native.Nat.{ℕ}

pub data Outcome (S : Type 0) : Type 0 where
  returns : ℕ → S → Outcome S
  leaves : S → Outcome S
  halts : S → Outcome S
  bug : Outcome S
  out_of_bounds : Outcome S

module _ {S : Type 0} where
  -- The code behind a call runs only if the call returns.
  abbrev pub and_then : Outcome S → (ℕ → S → Outcome S) → Outcome S
  and_then (returns r s) k = k r s
  and_then (leaves s) k = leaves s
  and_then (halts s) k = halts s
  and_then bug k = bug
  and_then out_of_bounds k = out_of_bounds

  -- The code ends in a state that satisfies `P`, without BUG and without a wild access.
  abbrev pub Ends : (S → Type 0) → Outcome S → Type 0
  Ends P (returns r s) = P s
  Ends P (leaves s) = P s
  Ends P (halts s) = P s
  Ends P bug = ⊥
  Ends P out_of_bounds = ⊥

  pub Ends-and_then :
      (P : S → Type 0) (o : Outcome S) (k : ℕ → S → Outcome S)
      → Ends P o
      → ((r : ℕ) (s : S) → P s → Ends P (k r s))
      → Ends P (and_then o k)
  Ends-and_then P (returns r s) k e h = h r s e
  Ends-and_then P (leaves s) k e h = e
  Ends-and_then P (halts s) k e h = e
  Ends-and_then P bug k e h = e
  Ends-and_then P out_of_bounds k e h = e

  pub Ends-mono : (P Q : S → Type 0) (o : Outcome S) → ((s : S) → P s → Q s) → Ends P o → Ends Q o
  Ends-mono P Q (returns r s) h e = h s e
  Ends-mono P Q (leaves s) h e = h s e
  Ends-mono P Q (halts s) h e = h s e
  Ends-mono P Q bug h e = e
  Ends-mono P Q out_of_bounds h e = e

  -- The code returns or shuts down, in a state that satisfies `P`; it does not leave by itself.
  abbrev pub Answers : (S → Type 0) → Outcome S → Type 0
  Answers P (returns r s) = P s
  Answers P (leaves s) = ⊥
  Answers P (halts s) = P s
  Answers P bug = ⊥
  Answers P out_of_bounds = ⊥

  pub Answers-and_then :
      (P : S → Type 0) (o : Outcome S) (k : ℕ → S → Outcome S)
      → Answers P o
      → ((r : ℕ) (s : S) → P s → Answers P (k r s))
      → Answers P (and_then o k)
  Answers-and_then P (returns r s) k e h = h r s e
  Answers-and_then P (leaves s) k e h = e
  Answers-and_then P (halts s) k e h = e
  Answers-and_then P bug k e h = e
  Answers-and_then P out_of_bounds k e h = e

-- The state that an outcome is in, or `d` if there is none.
abbrev pub state_of : {S : Type 0} → S → Outcome S → S
state_of d (returns r s) = s
state_of d (leaves s) = s
state_of d (halts s) = s
state_of d bug = d
state_of d out_of_bounds = d

-- Code on a part of the state; `f` puts the part back.
abbrev pub lift : {S T : Type 0} → (S → T) → Outcome S → Outcome T
lift f (returns r s) = returns r (f s)
lift f (leaves s) = leaves (f s)
lift f (halts s) = halts (f s)
lift f bug = bug
lift f out_of_bounds = out_of_bounds

pub Ends-lift :
    {S T : Type 0} (f : S → T) (P : T → Type 0) (o : Outcome S)
    → Ends (λ s. P (f s)) o
    → Ends P (lift f o)
Ends-lift f P (returns r s) e = e
Ends-lift f P (leaves s) e = e
Ends-lift f P (halts s) e = e
Ends-lift f P bug e = e
Ends-lift f P out_of_bounds e = e

pub Answers-lift :
    {S T : Type 0} (f : S → T) (P : T → Type 0) (o : Outcome S)
    → Answers (λ s. P (f s)) o
    → Answers P (lift f o)
Answers-lift f P (returns r s) e = e
Answers-lift f P (leaves s) e = e
Answers-lift f P (halts s) e = e
Answers-lift f P bug e = e
Answers-lift f P out_of_bounds e = e
