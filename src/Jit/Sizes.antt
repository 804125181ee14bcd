-- ===== src/Jit/Sizes.antt =====
-- bpf/jit/bpf_jit_comp32.c: build_body and bpf_int_jit_compile. The second pass emits no more words than
-- the first has counted, so that it stays inside the image.
use serval_sosp.Base.{
  ℕ, zero, suc, ◌+◌, ◌≤◌, ◌≡◌, refl, sym, ◌∙◌, ap, inl, inr, Bool, true, false, List, [], ◌∷◌,
  if◌then◌else◌, ltb, ◌==◌, arith,
}
use serval_sosp.Jit.Jump.{Emitted}
use serval_sosp.Jit.Insn.{Insn, FuncAddr}
use serval_sosp.Jit.Compile.{
  Prog, Ctx, Built, built, positive32, emit, emit_all, set_offset, emit_at, build_from,
}
use serval_sosp.Jit.Count.{length, Fits, emit_insn-Fits}

-- emit counts each word.
pub emit_all-ninsns : (ws : List ℕ) (c : Ctx) → (emit_all ws c).ninsns ≡ c.ninsns + length ws
unfolding emit_all emit length
emit_all-ninsns [] c = omega arith
emit_all-ninsns (w ∷ ws) c = omega (arith, emit_all-ninsns ws (emit w c))

module _ (f : Insn → Bool → FuncAddr) (prog : Prog) (extra : Bool) where
  emit_at-Fits : (i : ℕ) (c c2 : Ctx) → Fits (emit_at f prog i extra c) (emit_at f prog i extra c2)
  unfolding emit_at
  emit_at-Fits i c c2 =
      emit_insn-Fits prog.len prog.verifier_zext f c.offset c2.offset c.ninsns c2.ninsns
        c.epilogue_offset c2.epilogue_offset (prog.insnsi i) (prog.insnsi (suc i)).imm i extra

  -- The turns that are left after instruction `i`, when emit_insn has emitted `ws` and returned `r`
  abbrev pub left : ℕ → ℕ → ℕ → List ℕ → Ctx → Built
  left fuel i r ws c =
      let next = if positive32 r then suc i else i in
      build_from f fuel prog extra (suc next) (set_offset next (emit_all ws c))

  -- The end that emit_insn's failure makes
  abbrev pub stopped : ℕ → ℕ → List ℕ → Ctx → Built
  stopped i r ws c = built (set_offset (if positive32 r then suc i else i) (emit_all ws c)) r

  abbrev pub turn : ℕ → ℕ → ℕ → List ℕ → Ctx → Built
  turn fuel i r ws c =
      if positive32 r
      then left fuel i r ws c
      else if r == 0
      then left fuel i r ws c
      else stopped i r ws c

  pub build_from-turn :
      (fuel i : ℕ) (c : Ctx)
      → build_from f (suc fuel) prog extra i c ≡ (
          if ltb i prog.len
          then turn fuel i (emit_at f prog i extra c).ret (emit_at f prog i extra c).words c
          else built c 0)
  unfolding build_from
  build_from-turn fuel i c = refl

  build_from-end : (i : ℕ) (c : Ctx) → (build_from f zero prog extra i c).ctx.ninsns ≡ c.ninsns
  unfolding build_from
  build_from-end i c = refl

  pub set_offset-ninsns :
      (i : ℕ) (ws : List ℕ) (c : Ctx) → (set_offset i (emit_all ws c)).ninsns ≡ c.ninsns + length ws
  unfolding set_offset
  set_offset-ninsns i ws c = emit_all-ninsns ws c

  -- Turns that do not lower the count
  abbrev pub Grows : ℕ → Type 0
  Grows fuel = (i : ℕ) (c : Ctx) → c.ninsns ≤ (build_from f fuel prog extra i c).ctx.ninsns

  pub turn-Grows :
      (fuel : ℕ)
      → Grows fuel
      → (i r : ℕ) (ws : List ℕ) (c : Ctx) → c.ninsns + length ws ≤ (turn fuel i r ws c).ctx.ninsns
  turn-Grows fuel ih i r ws c =
      let next = if positive32 r then suc i else i in
      ground (arith, set_offset-ninsns next ws c, ih (suc next) (set_offset next (emit_all ws c)))

  pub build_from-Grows : (fuel : ℕ) → Grows fuel
  build_from-Grows zero i c = omega (arith, build_from-end i c)
  build_from-Grows (suc fuel) i c =
      let e = emit_at f prog i extra c in
      ground
        (arith, build_from-turn fuel i c, turn-Grows fuel (build_from-Grows fuel) i e.ret e.words c)

  abbrev pub Counted : Built → Built → ℕ → ℕ → Type 0
  Counted b b2 n n2 =
      (b.ret ≡ 0)
      → (b2.ctx.ninsns + n ≤ b.ctx.ninsns + n2)
        × (b2.ret ≡ 0 → b2.ctx.ninsns + n ≡ b.ctx.ninsns + n2)

  -- Runs of `fuel` turns where the one that returns 0 has counted what the other emits.
  abbrev pub Counts : ℕ → Type 0
  Counts fuel =
      (i : ℕ) (c c2 : Ctx)
      → Counted (build_from f fuel prog extra i c) (build_from f fuel prog extra i c2) c.ninsns
          c2.ninsns

  left-Counted :
      (fuel : ℕ)
      → Counts fuel
      → (i r : ℕ) (ws ws2 : List ℕ) (c c2 : Ctx) → length ws ≡ length ws2
      → Counted (left fuel i r ws c) (left fuel i r ws2 c2) c.ninsns c2.ninsns
  left-Counted fuel ih i r ws ws2 c c2 h k =
      let next = if positive32 r then suc i else i in
      let p =
        ih (suc next) (set_offset next (emit_all ws c)) (set_offset next (emit_all ws2 c2)) k in
      (
        omega (arith, p.0, set_offset-ninsns next ws c, set_offset-ninsns next ws2 c2),
        λ z. omega (arith, p.1 z, set_offset-ninsns next ws c, set_offset-ninsns next ws2 c2),
      )

  -- The turn does not stop when it returns 0, whatever the words and the context.
  turn-left :
      (fuel i r : ℕ) (ws ws2 : List ℕ) (c c2 : Ctx)
      → (turn fuel i r ws c).ret ≡ 0
      → turn fuel i r ws2 c2 ≡ left fuel i r ws2 c2
  turn-left fuel i r ws ws2 c c2 k = ground arith

  turn-Counted :
      (fuel : ℕ)
      → Counts fuel
      → (i : ℕ) (d e : Emitted) (c c2 : Ctx) → Fits d e
      → Counted (turn fuel i d.ret d.words c) (turn fuel i e.ret e.words c2) c.ninsns c2.ninsns
  unfolding Fits
  turn-Counted fuel ih i d e c c2 (inl x) k = absurd (ground arith)
  turn-Counted fuel ih i d e c c2 (inr (inl (x, y))) k =
      let t = turn-left fuel i d.ret d.words d.words c c k in
      let t2 = turn-left fuel i d.ret d.words e.words c c2 k in
      rw (← x, t, t2)
        (left-Counted fuel ih i d.ret d.words e.words c c2 y
          (ap (λ (b : Built). b.ret) (sym t) ∙ k))
  turn-Counted fuel ih i d e c c2 (inr (inr (x, y))) k =
      let g = turn-Grows fuel (build_from-Grows fuel) i d.ret d.words c in
      let n = set_offset-ninsns i e.words c2 in
      (ground (arith, g, n), λ (z : _). absurd (ground arith))

  if-Counted :
      (b : Bool) (t t2 : Built) (c c2 : Ctx)
      → Counted t t2 c.ninsns c2.ninsns
      → Counted (if b then t else built c 0) (if b then t2 else built c2 0) c.ninsns c2.ninsns
  if-Counted true t t2 c c2 h = h
  if-Counted false t t2 c c2 h = λ (k : _). (omega arith, λ (z : _). omega arith)

  -- A run that returns 0 has counted what another run, with any offset table, emits.
  pub build_from-Counts : (fuel : ℕ) → Counts fuel
  build_from-Counts zero i c c2 = λ (k : _). (
    omega (arith, build_from-end i c, build_from-end i c2),
    λ (z : _). omega (arith, build_from-end i c, build_from-end i c2),
  )
  build_from-Counts (suc fuel) i c c2 =
      rw (build_from-turn fuel i c, build_from-turn fuel i c2)
        (if-Counted (ltb i prog.len) _ _ c c2 (
          turn-Counted fuel (build_from-Counts fuel) i (emit_at f prog i extra c)
            (emit_at f prog i extra c2) c c2 (emit_at-Fits i c c2)))
