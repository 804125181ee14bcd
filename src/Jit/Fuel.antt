-- ===== src/Jit/Fuel.antt =====
-- bpf/jit/bpf_jit_comp32.c: the loop of build_body ends.
use serval_sosp.Base.{ℕ, zero, suc, ◌+◌, ◌≤◌, ◌≡◌, refl, sym, ◌∙◌, Bool, if◌then◌else◌, arith}
use serval_sosp.Jit.Insn.{Insn, FuncAddr}
use serval_sosp.Jit.Sizes.{build_from-turn}
use serval_sosp.Jit.Compile.{
  Prog, Ctx, built, positive32, emit_all, set_offset, emit_at, build_from,
}

-- Behind the last instruction there is no turn left.
build_from-stop :
    (f : Insn → Bool → FuncAddr) (prog : Prog) (extra : Bool) (fuel i : ℕ) (c : Ctx)
    → prog.len ≤ i
    → build_from f fuel prog extra i c ≡ built c 0
unfolding build_from
build_from-stop f prog extra zero i c h = refl
build_from-stop f prog extra (suc fuel) i c h = ground arith

-- From any instruction on, the loop of build_body does the same with any fuel that is at least the
-- number of the instructions left: it ends by its own test and not for want of fuel.
pub build_from-fuel :
    (f : Insn → Bool → FuncAddr) (prog : Prog) (extra : Bool) (n m i : ℕ) (c : Ctx)
    → prog.len ≤ n + i
    → prog.len ≤ m + i
    → build_from f n prog extra i c ≡ build_from f m prog extra i c
build_from-fuel f prog extra zero m i c h k =
    build_from-stop f prog extra zero i c (omega arith)
    ∙ sym (build_from-stop f prog extra m i c (omega arith))
build_from-fuel f prog extra (suc n) zero i c h k =
    build_from-stop f prog extra (suc n) i c (omega arith)
    ∙ sym (build_from-stop f prog extra zero i c (omega arith))
build_from-fuel f prog extra (suc n) (suc m) i c h k =
    let e = emit_at f prog i extra c in
    let next = if positive32 e.ret then suc i else i in
    let rest =
      build_from-fuel f prog extra n m (suc next) (set_offset next (emit_all e.words c))
        (ground arith) (ground arith) in
    rw (build_from-turn f prog extra n i c, build_from-turn f prog extra m i c, rest) refl
