-- ===== src/Jit/Amount.antt =====
-- bpf/jit/bpf_jit_comp32.c: runs of the shifts of a 64-bit value by a value below 64.
use serval_sosp.Base.{ℕ, ◌-◌, ◌^◌, ◌≤◌, ◌<◌, ◌≡◌, refl, ap, ◌∙◌, true, false, List, ◌∷◌, arith}
use serval_sosp.Base.Word32.{add32, u16, neg32, slt32}
use serval_sosp.Jit.Encode.{rv_addi, rv_blt, rv_jal}
use serval_sosp.Jit.Rv32.{rv, get, set, exec, decode, run, taken, immediate_result}
use serval_sosp.Jit.Straight.{decode-rv_addi, decode-rv_blt, decode-rv_jal}

-- The words that all three shifts have in common: the test of the amount in the register `n`, two
-- words for an amount from 32 on, the jump over the rest, and the rest.
abbrev pub shift_words : ℕ → ℕ → ℕ → List ℕ → List ℕ
shift_words n a b rest = rv_addi 5 n (u16 (neg32 32)) ∷ rv_blt 5 0 8 ∷ a ∷ b ∷ rv_jal 0 16 ∷ rest

module _ (f : ℕ → ℕ) (n a b : ℕ) (rest : List ℕ) (above : 6 < n) (below : n < 32) where
  -- The registers behind the test
  abbrev pub tested : ℕ → ℕ
  tested = set f 5 (add32 (f n) (2 ^ 32 - 32))

  test : exec (decode (rv_addi 5 n (u16 (neg32 32)))) (rv f 0) ≡ rv tested 4
  unfolding exec immediate_result
  test =
      let read : get f n ≡ f n = ground arith in
      rw (decode-rv_addi 5 n (u16 (neg32 32)) (omega arith) below, read) refl

  small : f n < 32 → exec (decode (rv_blt 5 0 8)) (rv tested 4) ≡ rv tested 20
  unfolding exec taken
  small h =
      let negative : slt32 (add32 (f n) (2 ^ 32 - 32)) 0 ≡ true = ground arith in
      rw (decode-rv_blt 5 0 8 (omega arith) (omega arith), negative) refl

  large : 32 ≤ f n → f n < 64 → exec (decode (rv_blt 5 0 8)) (rv tested 4) ≡ rv tested 8
  unfolding exec taken
  large h k =
      let negative : slt32 (add32 (f n) (2 ^ 32 - 32)) 0 ≡ false = ground arith in
      rw (decode-rv_blt 5 0 8 (omega arith) (omega arith), negative) refl

  pub run-small : f n < 32 → run 0 (shift_words n a b rest) (rv f 0) ≡ run 20 rest (rv tested 20)
  unfolding run
  run-small h =
      ap (run 4 (rv_blt 5 0 8 ∷ a ∷ b ∷ rv_jal 0 16 ∷ rest)) test
      ∙ ap (run 8 (a ∷ b ∷ rv_jal 0 16 ∷ rest)) (small h)

  pub run-large :
      32 ≤ f n
      → f n < 64
      → run 0 (shift_words n a b rest) (rv f 0) ≡ run 8 (a ∷ b ∷ rv_jal 0 16 ∷ rest) (rv tested 8)
  unfolding run
  run-large h k =
      ap (run 4 (rv_blt 5 0 8 ∷ a ∷ b ∷ rv_jal 0 16 ∷ rest)) test
      ∙ ap (run 8 (a ∷ b ∷ rv_jal 0 16 ∷ rest)) (large h k)

  -- The two words for a large amount, and the jump over a rest of seven words
  pub run-both :
      (g h : ℕ → ℕ)
      → exec (decode a) (rv tested 8) ≡ rv g 12
      → exec (decode b) (rv g 12) ≡ rv h 16
      → run 8 (a ∷ b ∷ rv_jal 0 16 ∷ rest) (rv tested 8) ≡ run 20 rest (rv (set h 0 20) 48)
  unfolding run exec
  run-both g h da db =
      ap (run 12 (b ∷ rv_jal 0 16 ∷ rest)) da
      ∙ ap (run 16 (rv_jal 0 16 ∷ rest)) db
      ∙ ap (λ t. run 20 rest (exec t (rv h 16))) (decode-rv_jal 0 16 (omega arith))
