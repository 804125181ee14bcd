-- ===== src/Jit/Passes.antt =====
-- bpf/jit/bpf_jit_comp32.c: bpf_int_jit_compile. The kernel's functions are parameters: whether
-- kzalloc and kcalloc give memory, what bpf_jit_blind_constants makes of a program (none for an
-- error), and the image that bpf_jit_binary_alloc gives.
use serval_sosp.Base.{
  ℕ, ◌*◌, ◌%◌, ◌^◌, Bool, true, false, not, ◌||◌, Option, none, some, if◌then◌else◌, ◌==◌,
}
use serval_sosp.Jit.Insn.{Insn, FuncAddr}
use serval_sosp.Jit.Compile.{Prog, Ctx, Built, built, build_prologue, build_body, build_epilogue}

-- struct rv_jit_data, with the program of its context
pub record JitData : Type 0 where
  pub prog : Prog
  pub ctx : Ctx

pub record Kernel : Type 0 where
  pub blind_constants : Prog → Option Prog
  pub kzalloc : Bool
  pub kcalloc : ℕ → Bool
  pub binary_alloc : ℕ → Option (ℕ → ℕ)
  pub func_addr : Insn → Bool → FuncAddr

-- How bpf_int_jit_compile ends: it returns the program as it was, or marks it as compiled with the
-- image of a context and jited_len; prog->aux->jit_data stays as it is given last.
pub data Outcome : Type 0 where
  unchanged : Option JitData → Outcome
  jited : Ctx → ℕ → Option JitData → Outcome

-- After kzalloc
abbrev pub zero_ctx : Ctx
zero_ctx = record {
  has_insns = false;
  insns = λ _. 0;
  ninsns = 0;
  epilogue_offset = 0;
  has_offset = false;
  offset = λ _. 0;
  stack_size = 0;
}

-- After kcalloc
abbrev pub with_offset : Ctx → Ctx
with_offset c = record {
  has_insns = c.has_insns;
  insns = c.insns;
  ninsns = c.ninsns;
  epilogue_offset = c.epilogue_offset;
  has_offset = true;
  offset = λ _. 0;
  stack_size = c.stack_size;
}

-- `ctx->epilogue_offset = ctx->ninsns;`
abbrev pub at_epilogue : Ctx → Ctx
at_epilogue c = record {
  has_insns = c.has_insns;
  insns = c.insns;
  ninsns = c.ninsns;
  epilogue_offset = c.ninsns;
  has_offset = c.has_offset;
  offset = c.offset;
  stack_size = c.stack_size;
}

-- `ctx->insns = (u32 *)jit_data->image;`
abbrev pub with_image : (ℕ → ℕ) → Ctx → Ctx
with_image image c = record {
  has_insns = true;
  insns = image;
  ninsns = c.ninsns;
  epilogue_offset = c.epilogue_offset;
  has_offset = c.has_offset;
  offset = c.offset;
  stack_size = c.stack_size;
}

-- `ctx->ninsns = 0;`
abbrev pub rewound : Ctx → Ctx
rewound c = record {
  has_insns = c.has_insns;
  insns = c.insns;
  ninsns = 0;
  epilogue_offset = c.epilogue_offset;
  has_offset = c.has_offset;
  offset = c.offset;
  stack_size = c.stack_size;
}

abbrev pub image_size_of : Ctx → ℕ
image_size_of c = 4 * c.ninsns % 2 ^ 32

module _ (k : Kernel) where
  -- The first pass, from the loop over the program to the epilogue
  unfoldable pub first_pass : Prog → Ctx → Built
  first_pass prog ctx =
      let b = build_body k.func_addr prog false ctx in
      if b.ret == 0 then built (build_epilogue (at_epilogue (build_prologue prog b.ctx))) 0 else b

  -- The second pass, up to the epilogue
  unfoldable pub second_pass : Prog → Bool → Ctx → Built
  second_pass prog extra_pass ctx =
      let b = build_body k.func_addr prog extra_pass (build_prologue prog (rewound ctx)) in
      if b.ret == 0 then built (build_epilogue b.ctx) 0 else b

  -- From skip_init_ctx on; `prog` is ctx->prog, `is_func` of the program that is compiled.
  unfoldable pub finish_compile : Prog → Bool → Bool → ℕ → Ctx → Outcome
  finish_compile prog is_func extra_pass image_size ctx =
      let b = second_pass prog extra_pass ctx in
      let left : JitData = record { prog = prog; ctx = b.ctx } in
      if b.ret == 0
      then jited b.ctx image_size (if not is_func || extra_pass then none else some left)
      else unchanged none

  -- `bpf_jit_binary_alloc` and what follows it
  unfoldable pub allocated : Prog → Ctx → Option (ℕ → ℕ) → Outcome
  allocated prog ctx none = unchanged none
  allocated prog ctx (some image) =
      finish_compile prog prog.is_func false (image_size_of ctx) (with_image image ctx)

  -- A context whose offset table is NULL
  unfoldable pub compile_fresh : Prog → Ctx → Outcome
  compile_fresh prog ctx =
      let b = first_pass prog (with_offset ctx) in
      if not (k.kcalloc prog.len)
      then unchanged none
      else if b.ret == 0
      then allocated prog b.ctx (k.binary_alloc (image_size_of b.ctx))
      else unchanged none

  -- From the test of prog->aux->jit_data on
  unfoldable pub compile_with : Prog → Option JitData → Outcome
  compile_with prog none = if k.kzalloc then compile_fresh prog zero_ctx else unchanged none
  compile_with prog (some old) =
      if old.ctx.has_offset
      then finish_compile old.prog prog.is_func true (image_size_of old.ctx) old.ctx
      else compile_fresh prog old.ctx

  unfoldable pub blinded : Option JitData → Option Prog → Outcome
  blinded jit_data none = unchanged jit_data
  blinded jit_data (some prog) = compile_with prog jit_data

  unfoldable pub bpf_int_jit_compile : Prog → Option JitData → Outcome
  bpf_int_jit_compile prog jit_data =
      if not prog.jit_requested
      then unchanged jit_data
      else blinded jit_data (k.blind_constants prog)
