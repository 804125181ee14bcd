-- ===== src/Jit/Image.antt =====
-- bpf/jit/bpf_jit_comp32.c: what the two passes of bpf_int_jit_compile write to the image.
use serval_sosp.Base.{
  ℕ, zero, suc, ◌+◌, ◌≤◌, ◌≡◌, refl, sym, ◌∙◌, ap, Bool, true, false, List, [], ◌∷◌, if◌then◌else◌,
  ltb, arith,
}
use serval_sosp.Jit.Insn.{Insn, FuncAddr}
use serval_sosp.Jit.Compile.{
  Prog, Ctx, Built, built, positive32, emit, emit_all, set_offset, emit_at, build_from, build_body,
  prologue, epilogue, build_prologue, build_epilogue,
}
use serval_sosp.Jit.Passes.{
  Kernel, first_pass, second_pass, with_image, with_offset, zero_ctx, rewound, at_epilogue,
}
use serval_sosp.Jit.Count.{length}
use serval_sosp.Jit.Sizes.{
  emit_all-ninsns, turn, build_from-turn, build_from-Grows, turn-Grows, build_from-Counts,
}

-- emit writes nowhere else than at the places that it counts.
emit_all-insns :
    (ws : List ℕ) (c : Ctx) (m : ℕ) → c.ninsns + length ws ≤ m → (emit_all ws c).insns m ≡ c.insns m
unfolding emit_all emit length
emit_all-insns [] c m h = refl
emit_all-insns (w ∷ ws) c m h = ground (arith, emit_all-insns ws (emit w c) m (omega arith))

module _ (f : Insn → Bool → FuncAddr) (prog : Prog) (extra : Bool) where
  abbrev Inside : ℕ → Type 0
  Inside fuel =
      (i : ℕ) (c : Ctx) (m : ℕ)
      → (build_from f fuel prog extra i c).ctx.ninsns ≤ m
      → (build_from f fuel prog extra i c).ctx.insns m ≡ c.insns m

  set_offset-insns : (i : ℕ) (c : Ctx) → (set_offset i c).insns ≡ c.insns
  unfolding set_offset
  set_offset-insns i c = refl

  turn-Inside :
      (fuel : ℕ)
      → Inside fuel
      → (i r : ℕ) (ws : List ℕ) (c : Ctx) (m : ℕ) → (turn f prog extra fuel i r ws c).ctx.ninsns ≤ m
      → (turn f prog extra fuel i r ws c).ctx.insns m ≡ c.insns m
  turn-Inside fuel ih i r ws c m h =
      let next = if positive32 r then suc i else i in
      let c2 = set_offset next (emit_all ws c) in
      ground (
        arith,
        h,
        turn-Grows f prog extra fuel (build_from-Grows f prog extra fuel) i r ws c,
        ih (suc next) c2 m,
        ap (λ (g : ℕ → ℕ). g m) (set_offset-insns next (emit_all ws c)),
        emit_all-insns ws c m,
      )

  build_from-end-insns :
      (i : ℕ) (c : Ctx) (m : ℕ) → (build_from f zero prog extra i c).ctx.insns m ≡ c.insns m
  unfolding build_from
  build_from-end-insns i c m = refl

  if-Inside :
      (b : Bool) (t : Built) (c : Ctx) (m : ℕ)
      → (t.ctx.ninsns ≤ m → t.ctx.insns m ≡ c.insns m)
      → (if b then t else built c 0).ctx.ninsns ≤ m
      → (if b then t else built c 0).ctx.insns m ≡ c.insns m
  if-Inside true t c m h = h
  if-Inside false t c m h = λ _. refl

  build_from-insns : (fuel : ℕ) → Inside fuel
  build_from-insns zero i c m = λ (h : _). build_from-end-insns i c m
  build_from-insns (suc fuel) i c m = rw (build_from-turn f prog extra fuel i c) (
      if-Inside (ltb i prog.len) _ c m (
        turn-Inside fuel (build_from-insns fuel) i (emit_at f prog i extra c).ret
          (emit_at f prog i extra c).words c m))

-- The length of the prologue does not hang on the program, nor that of the epilogue on the frame.
length-prologue : (prog : Prog) → length (prologue prog) ≡ 14
unfolding length prologue
length-prologue prog = refl

length-epilogue : (n : ℕ) → length (epilogue n) ≡ 12
unfolding length epilogue
length-epilogue n = refl

build_prologue-ninsns : (prog : Prog) (c : Ctx) → (build_prologue prog c).ninsns ≡ c.ninsns + 14
unfolding build_prologue
build_prologue-ninsns prog c =
    omega (arith, emit_all-ninsns (prologue prog) c, length-prologue prog)

build_prologue-insns :
    (prog : Prog) (c : Ctx) (m : ℕ)
    → c.ninsns + 14 ≤ m
    → (build_prologue prog c).insns m ≡ c.insns m
unfolding build_prologue
build_prologue-insns prog c m h =
    emit_all-insns (prologue prog) c m (omega (arith, length-prologue prog))

build_epilogue-ninsns : (c : Ctx) → (build_epilogue c).ninsns ≡ c.ninsns + 12
unfolding build_epilogue
build_epilogue-ninsns c =
    omega (arith, emit_all-ninsns (epilogue c.stack_size) c, length-epilogue c.stack_size)

build_epilogue-insns :
    (c : Ctx) (m : ℕ) → c.ninsns + 12 ≤ m → (build_epilogue c).insns m ≡ c.insns m
unfolding build_epilogue
build_epilogue-insns c m h =
    emit_all-insns (epilogue c.stack_size) c m (omega (arith, length-epilogue c.stack_size))

-- The first pass of bpf_int_jit_compile on a fresh context
abbrev pub sized : Kernel → Prog → Built
sized k prog = first_pass k prog (with_offset zero_ctx)

-- The second pass, on the image that is allocated after it
abbrev pub filled : Kernel → Prog → (ℕ → ℕ) → Built
filled k prog image = second_pass k prog false (with_image image (sized k prog).ctx)

module _ (k : Kernel) (prog : Prog) where
  first_pass-cases :
      (c : Ctx)
      → (first_pass k prog c).ret ≡ 0
      → ((build_body k.func_addr prog false c).ret ≡ 0)
        × ((first_pass k prog c).ctx.ninsns ≡ (build_body k.func_addr prog false c).ctx.ninsns + 26)
  unfolding first_pass
  first_pass-cases c h =
      let b = build_body k.func_addr prog false c in
      ground (
        arith,
        build_epilogue-ninsns (at_epilogue (build_prologue prog b.ctx)),
        build_prologue-ninsns prog b.ctx,
      )

  second_pass-cases :
      (c : Ctx) (m : ℕ)
      → ((second_pass k prog false c).ctx.ninsns
          ≤ (build_body k.func_addr prog false (build_prologue prog (rewound c))).ctx.ninsns + 12)
        × ((second_pass k prog false c).ret
            ≡ (build_body k.func_addr prog false (build_prologue prog (rewound c))).ret)
        × ((second_pass k prog false c).ret ≡ 0
            → (second_pass k prog false c).ctx.ninsns
              ≡ (build_body k.func_addr prog false (build_prologue prog (rewound c))).ctx.ninsns
                + 12)
        × ((build_body k.func_addr prog false (build_prologue prog (rewound c))).ctx.ninsns + 12 ≤ m
            → (second_pass k prog false c).ctx.insns m
              ≡ (build_body k.func_addr prog false (build_prologue prog (rewound c))).ctx.insns m)
  unfolding second_pass
  second_pass-cases c m =
      let b = build_body k.func_addr prog false (build_prologue prog (rewound c)) in
      ground (arith, build_epilogue-ninsns b.ctx, build_epilogue-insns b.ctx m)

  build_body-Counted :
      (c c2 : Ctx)
      → (build_body k.func_addr prog false c).ret ≡ 0
      → ((build_body k.func_addr prog false c2).ctx.ninsns + c.ninsns
          ≤ (build_body k.func_addr prog false c).ctx.ninsns + c2.ninsns)
        × ((build_body k.func_addr prog false c2).ret ≡ 0
            → (build_body k.func_addr prog false c2).ctx.ninsns + c.ninsns
              ≡ (build_body k.func_addr prog false c).ctx.ninsns + c2.ninsns)
  unfolding build_body
  build_body-Counted c c2 = build_from-Counts k.func_addr prog false prog.len 0 c c2

  build_body-insns :
      (c : Ctx) (m : ℕ)
      → (build_body k.func_addr prog false c).ctx.ninsns ≤ m
      → (build_body k.func_addr prog false c).ctx.insns m ≡ c.insns m
  unfolding build_body
  build_body-insns c m = build_from-insns k.func_addr prog false prog.len 0 c m

-- When the first pass returns 0, the second pass ends with no more words than the first pass has
-- counted, with as many if it returns 0 too, and whether it returns 0 or not, it leaves what lies in
-- the image behind that count as it was.
pub second_pass-bounds :
    (k : Kernel) (prog : Prog) (image : ℕ → ℕ)
    → (sized k prog).ret ≡ 0
    → ((filled k prog image).ctx.ninsns ≤ (sized k prog).ctx.ninsns)
      × ((filled k prog image).ret ≡ 0
          → (filled k prog image).ctx.ninsns ≡ (sized k prog).ctx.ninsns)
      × ((m : ℕ) → (sized k prog).ctx.ninsns ≤ m → (filled k prog image).ctx.insns m ≡ image m)
second_pass-bounds k prog image h =
    let c1 = with_image image (sized k prog).ctx in
    let c2 = build_prologue prog (rewound c1) in
    let first = first_pass-cases k prog (with_offset zero_ctx) h in
    let body = build_body-Counted k prog (with_offset zero_ctx) c2 first.0 in
    let pro = build_prologue-ninsns prog (rewound c1) in
    let second = second_pass-cases k prog c1 0 in
    (
      omega (arith, first.1, body.0, pro, second.0),
      λ z. omega (arith, first.1, body.1 (sym second.1 ∙ z), pro, second.2 z),
      λ m hm.
          (second_pass-cases k prog c1 m).3 (omega (arith, first.1, body.0, pro))
          ∙ build_body-insns k prog c2 m (omega (arith, first.1, body.0, pro))
          ∙ build_prologue-insns prog (rewound c1) m (omega (arith, first.1, body.0, pro)),
    )
