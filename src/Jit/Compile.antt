-- ===== src/Jit/Compile.antt =====
-- bpf/jit/bpf_jit_comp32.c: the context, emit, the prologue, the epilogue, and the loop over the
-- program.
use serval_sosp.Base.{
  ℕ, zero, suc, ◌+◌, ◌-◌, ◌*◌, ◌/◌, ◌^◌, Bool, ◌&&◌, List, [], ◌∷◌, if◌then◌else◌, ltb, ◌==◌,
}
use serval_sosp.Base.Word32.{sub32, neg32, u16}
use serval_sosp.Jit.Encode.{rv_addi, rv_lw, rv_sw, rv_jalr}
use serval_sosp.Jit.Regs.{
  bpf2rv32, bpf_reg_fp, bpf_jit_scratch_regs, rv_reg_zero, rv_reg_ra, rv_reg_sp, rv_reg_fp,
  rv_reg_s1, rv_reg_s2, rv_reg_s3, rv_reg_s4, rv_reg_s5, rv_reg_s6, rv_reg_a0, rv_reg_a1,
}
use serval_sosp.Jit.Jump.{Emitted}
use serval_sosp.Jit.Insn.{Insn, FuncAddr, Place, emit_insn}

-- struct bpf_prog, and the fields of prog->aux that the compiler reads
pub record Prog : Type 0 where
  pub insnsi : ℕ → Insn
  pub len : ℕ
  pub stack_depth : ℕ
  pub verifier_zext : Bool
  pub jit_requested : Bool
  pub is_func : Bool

-- struct rv_jit_context: `has_insns` and `has_offset` say that insns and offset are not NULL, `insns`
-- and `offset` are what they point to.
pub record Ctx : Type 0 where
  pub has_insns : Bool
  pub insns : ℕ → ℕ
  pub ninsns : ℕ
  pub epilogue_offset : ℕ
  pub has_offset : Bool
  pub offset : ℕ → ℕ
  pub stack_size : ℕ

abbrev pub store : (ℕ → ℕ) → ℕ → ℕ → ℕ → ℕ
store f n x m = if m == n then x else f m

unfoldable pub emit : ℕ → Ctx → Ctx
emit insn ctx = record {
  has_insns = ctx.has_insns;
  insns = if ctx.has_insns then store ctx.insns ctx.ninsns insn else ctx.insns;
  ninsns = suc ctx.ninsns;
  epilogue_offset = ctx.epilogue_offset;
  has_offset = ctx.has_offset;
  offset = ctx.offset;
  stack_size = ctx.stack_size;
}

unfoldable pub emit_all : List ℕ → Ctx → Ctx
emit_all [] ctx = ctx
emit_all (w ∷ ws) ctx = emit_all ws (emit w ctx)

-- round_up(x, 16)
abbrev pub round_up_16 : ℕ → ℕ
round_up_16 x = (x + 15) / 16 * 16

abbrev pub bpf_stack_adjust : Prog → ℕ
bpf_stack_adjust prog = round_up_16 prog.stack_depth

abbrev pub full_adjust : Prog → ℕ
full_adjust prog = round_up_16 32 + bpf_stack_adjust prog + 4 * bpf_jit_scratch_regs

-- `store_offset - k` of the prologue, as a u16
abbrev pub save_slot : Prog → ℕ → ℕ
save_slot prog k = u16 (round_up_16 32 + bpf_stack_adjust prog - 8 - k)

unfoldable pub prologue : Prog → List ℕ
prologue prog =
    let fp = bpf2rv32 bpf_reg_fp in
    let r1 = bpf2rv32 1 in
    rv_addi rv_reg_sp rv_reg_sp (u16 (neg32 (full_adjust prog)))
    ∷ rv_sw rv_reg_sp (save_slot prog 0) rv_reg_ra
    ∷ rv_sw rv_reg_sp (save_slot prog 4) rv_reg_fp
    ∷ rv_sw rv_reg_sp (save_slot prog 8) rv_reg_s1
    ∷ rv_sw rv_reg_sp (save_slot prog 12) rv_reg_s2
    ∷ rv_sw rv_reg_sp (save_slot prog 16) rv_reg_s3
    ∷ rv_sw rv_reg_sp (save_slot prog 20) rv_reg_s4
    ∷ rv_sw rv_reg_sp (save_slot prog 24) rv_reg_s5
    ∷ rv_sw rv_reg_sp (save_slot prog 28) rv_reg_s6
    ∷ rv_addi rv_reg_fp rv_reg_sp (u16 (full_adjust prog))
    ∷ rv_addi fp.lo rv_reg_sp (u16 (bpf_stack_adjust prog))
    ∷ rv_addi fp.hi rv_reg_zero 0
    ∷ rv_addi r1.lo rv_reg_a0 0
    ∷ rv_addi r1.hi rv_reg_zero 0
    ∷ []

unfoldable pub build_prologue : Prog → Ctx → Ctx
build_prologue prog ctx =
    let c = emit_all (prologue prog) ctx in
    record {
      has_insns = c.has_insns;
      insns = c.insns;
      ninsns = c.ninsns;
      epilogue_offset = c.epilogue_offset;
      has_offset = c.has_offset;
      offset = c.offset;
      stack_size = full_adjust prog;
    }

-- `store_offset - k` of the epilogue, as a u16
abbrev pub load_slot : ℕ → ℕ → ℕ
load_slot stack_size k = u16 (sub32 stack_size (8 + 4 * bpf_jit_scratch_regs + k))

unfoldable pub epilogue : ℕ → List ℕ
epilogue stack_size =
    let r0 = bpf2rv32 0 in
    rv_addi rv_reg_a0 r0.lo 0
    ∷ rv_addi rv_reg_a1 r0.hi 0
    ∷ rv_lw rv_reg_ra (load_slot stack_size 0) rv_reg_sp
    ∷ rv_lw rv_reg_fp (load_slot stack_size 4) rv_reg_sp
    ∷ rv_lw rv_reg_s1 (load_slot stack_size 8) rv_reg_sp
    ∷ rv_lw rv_reg_s2 (load_slot stack_size 12) rv_reg_sp
    ∷ rv_lw rv_reg_s3 (load_slot stack_size 16) rv_reg_sp
    ∷ rv_lw rv_reg_s4 (load_slot stack_size 20) rv_reg_sp
    ∷ rv_lw rv_reg_s5 (load_slot stack_size 24) rv_reg_sp
    ∷ rv_lw rv_reg_s6 (load_slot stack_size 28) rv_reg_sp
    ∷ rv_addi rv_reg_sp rv_reg_sp (u16 stack_size)
    ∷ rv_jalr rv_reg_zero rv_reg_ra 0
    ∷ []

unfoldable pub build_epilogue : Ctx → Ctx
build_epilogue ctx = emit_all (epilogue ctx.stack_size) ctx

-- `if (ctx->insns == NULL) ctx->offset[i] = ctx->ninsns;`
unfoldable pub set_offset : ℕ → Ctx → Ctx
set_offset i ctx = record {
  has_insns = ctx.has_insns;
  insns = ctx.insns;
  ninsns = ctx.ninsns;
  epilogue_offset = ctx.epilogue_offset;
  has_offset = ctx.has_offset;
  offset = if ctx.has_insns then ctx.offset else store ctx.offset i ctx.ninsns;
  stack_size = ctx.stack_size;
}

-- What a loop leaves: the context and the return value.
pub record Built : Type 0 where
  pub ctx : Ctx
  pub ret : ℕ

abbrev pub built : Ctx → ℕ → Built
built c r = record { ctx = c; ret = r }

-- `ret > 0` on an int
abbrev pub positive32 : ℕ → Bool
positive32 r = ltb 0 r && ltb r (2 ^ 31)

-- `func_addr` stands for bpf_jit_get_func_addr.
module _ (func_addr : Insn → Bool → FuncAddr) where
  abbrev pub place : Prog → Ctx → Place
  place prog ctx = record {
    len = prog.len;
    zext = prog.verifier_zext;
    func_addr = func_addr;
    offset = ctx.offset;
    ninsns = ctx.ninsns;
    epilogue = ctx.epilogue_offset;
  }

  -- emit_insn on the instruction `i` of the program
  unfoldable pub emit_at : Prog → ℕ → Bool → Ctx → Emitted
  emit_at prog i extra_pass ctx =
      emit_insn (place prog ctx) (prog.insnsi i) (prog.insnsi (suc i)).imm i extra_pass

  -- The loop of build_body from `i`; the fuel is at least the number of instructions left.
  unfoldable pub build_from : ℕ → Prog → Bool → ℕ → Ctx → Built
  build_from zero prog extra_pass i ctx = built ctx 0
  build_from (suc fuel) prog extra_pass i ctx =
      let e = emit_at prog i extra_pass ctx in
      let c = emit_all e.words ctx in
      let next = if positive32 e.ret then suc i else i in
      let c2 = set_offset next c in
      let rest = build_from fuel prog extra_pass (suc next) c2 in
      if ltb i prog.len
      then (if positive32 e.ret then rest else if e.ret == 0 then rest else built c2 e.ret)
      else built ctx 0

  unfoldable pub build_body : Prog → Bool → Ctx → Built
  build_body prog extra_pass ctx = build_from prog.len prog extra_pass 0 ctx
