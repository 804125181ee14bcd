-- ===== src/Jit/Branches.antt =====
-- bpf/jit/bpf_jit_comp32.c: runs of the branches of a conditional jump, word by word.
use serval_sosp.Base.{
  ℕ, ◌+◌, ◌*◌, ◌^◌, ◌≤◌, ◌<◌, ◌≡◌, refl, ap, ◌∙◌, ◌⊎◌, inr, Bool, true, false, List, [], ◌∷◌,
  if◌then◌else◌, ◌==◌, arith,
}
use serval_sosp.Base.Word32.{add32}
use serval_sosp.Jit.Count.{length}
use serval_sosp.Jit.Rv32.{
  Rv, rv, get, set, signed, branch, register_op, exec, decode, run, taken, register_result,
}

-- Words that the program counter is not at, and does not come to, are not run.
run-past :
    (at : ℕ) (ws : List ℕ) (m : Rv) → (m.pc < at) ⊎ (at + 4 * length ws ≤ m.pc) → run at ws m ≡ m
unfolding run length
run-past at [] m h = refl
run-past at (w ∷ ws) m h = ground (arith, run-past (at + 4) ws m (ground arith))

-- The word at the program counter is run.
pub run-step :
    (at : ℕ) (w : ℕ) (ws : List ℕ) (f : ℕ → ℕ)
    → run at (w ∷ ws) (rv f at) ≡ run (at + 4) ws (exec (decode w) (rv f at))
unfolding run
run-step at w ws f =
    let same : (at == at) ≡ true = ground arith in
    ap (λ (b : Bool). run (at + 4) ws (if b then exec (decode w) (rv f at) else rv f at)) same

exec-branch :
    (f : ℕ → ℕ) (at k a b i v : ℕ)
    → signed 13 (2 * i) ≡ v
    → exec (branch k a b i) (rv f at)
      ≡ rv f (if taken k (get f a) (get f b) then add32 at v else add32 at 4)
unfolding exec
exec-branch f at k a b i v e =
    ap (λ (t : ℕ). rv f (if taken k (get f a) (get f b) then add32 at t else add32 at 4)) e

-- An operation that writes T0
pub run-operation :
    (at w : ℕ) (ws : List ℕ) (f : ℕ → ℕ) (k7 k a b : ℕ)
    → decode w ≡ register_op k7 k 5 a b
    → run at (w ∷ ws) (rv f at)
      ≡ run (at + 4) ws (rv (set f 5 (register_result k7 k (get f a) (get f b))) (add32 at 4))
unfolding exec
run-operation at w ws f k7 k a b h =
    run-step at w ws f ∙ ap (λ t. run (at + 4) ws (exec t (rv f at))) h

after_branch :
    (c : Bool) (at : ℕ) (ws : List ℕ) (f : ℕ → ℕ) (v : ℕ) (m : Rv)
    → at + 4 < 2 ^ 32
    → (add32 at v < at + 4) ⊎ (at + 4 + 4 * length ws ≤ add32 at v)
    → run (at + 4) ws (rv f (at + 4)) ≡ m
    → run (at + 4) ws (rv f (if c then add32 at v else add32 at 4))
      ≡ (if c then rv f (add32 at v) else m)
after_branch true at ws f v m z o l = run-past (at + 4) ws (rv f (add32 at v)) o
after_branch false at ws f v m z o l =
    let next : add32 at 4 ≡ at + 4 = omega arith in ap (λ t. run (at + 4) ws (rv f t)) next ∙ l

-- A branch in front of words that it leaves when it is taken
pub run-branch :
    (at w : ℕ) (ws : List ℕ) (f : ℕ → ℕ) (k a b i v : ℕ) (m : Rv)
    → decode w ≡ branch k a b i
    → signed 13 (2 * i) ≡ v
    → at + 4 < 2 ^ 32
    → (add32 at v < at + 4) ⊎ (at + 4 + 4 * length ws ≤ add32 at v)
    → run (at + 4) ws (rv f (at + 4)) ≡ m
    → run at (w ∷ ws) (rv f at) ≡ (if taken k (get f a) (get f b) then rv f (add32 at v) else m)
run-branch at w ws f k a b i v m h e z o l =
    run-step at w ws f
    ∙ ap (λ t. run (at + 4) ws (exec t (rv f at))) h
    ∙ ap (run (at + 4) ws) (exec-branch f at k a b i v e)
    ∙ after_branch (taken k (get f a) (get f b)) at ws f v m z o l

-- Two branches, and three where the second skips the third
pub run-two :
    (w1 w2 : ℕ) (f : ℕ → ℕ) (k1 a1 b1 i1 v1 k2 a2 b2 i2 v2 : ℕ)
    → decode w1 ≡ branch k1 a1 b1 i1
    → decode w2 ≡ branch k2 a2 b2 i2
    → signed 13 (2 * i1) ≡ v1
    → signed 13 (2 * i2) ≡ v2
    → (add32 0 v1 < 4) ⊎ (8 ≤ add32 0 v1)
    → run 0 (w1 ∷ w2 ∷ []) (rv f 0) ≡ (
        if taken k1 (get f a1) (get f b1)
        then rv f (add32 0 v1)
        else if taken k2 (get f a2) (get f b2)
        then rv f (add32 4 v2)
        else rv f 8)
unfolding run length
run-two w1 w2 f k1 a1 b1 i1 v1 k2 a2 b2 i2 v2 d1 d2 e1 e2 o =
    run-branch 0 w1 (w2 ∷ []) f k1 a1 b1 i1 v1 _ d1 e1 (omega arith) o
      (run-branch 4 w2 [] f k2 a2 b2 i2 v2 (rv f 8) d2 e2 (omega arith) (ground arith) refl)

pub run-three :
    (w1 w2 w3 : ℕ) (f : ℕ → ℕ) (k1 a1 b1 i1 v1 k2 a2 b2 k3 a3 b3 i3 v3 : ℕ)
    → decode w1 ≡ branch k1 a1 b1 i1
    → decode w2 ≡ branch k2 a2 b2 4
    → decode w3 ≡ branch k3 a3 b3 i3
    → signed 13 (2 * i1) ≡ v1
    → signed 13 (2 * i3) ≡ v3
    → (add32 0 v1 < 4) ⊎ (12 ≤ add32 0 v1)
    → run 0 (w1 ∷ w2 ∷ w3 ∷ []) (rv f 0) ≡ (
        if taken k1 (get f a1) (get f b1)
        then rv f (add32 0 v1)
        else if taken k2 (get f a2) (get f b2)
        then rv f 12
        else if taken k3 (get f a3) (get f b3)
        then rv f (add32 8 v3)
        else rv f 12)
unfolding run length
run-three w1 w2 w3 f k1 a1 b1 i1 v1 k2 a2 b2 k3 a3 b3 i3 v3 d1 d2 d3 e1 e3 o =
    run-branch 0 w1 (w2 ∷ w3 ∷ []) f k1 a1 b1 i1 v1 _ d1 e1 (omega arith) o (
      run-branch 4 w2 (w3 ∷ []) f k2 a2 b2 4 8 _ d2 refl (omega arith) (inr (omega arith))
        (run-branch 8 w3 [] f k3 a3 b3 i3 v3 (rv f 12) d3 e3 (omega arith) (ground arith) refl))
