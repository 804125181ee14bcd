-- ===== src/Jit/Code.antt =====
-- bpf/jit/bpf_jit_comp32.c and bpf/bpf.h: the parts of an instruction's code, and the case labels of
-- emit_insn, as lists of codes.
use serval_sosp.Base.{ℕ, ◌+◌, Bool, false, ◌||◌, List, [], ◌∷◌, ◌++◌, ◌==◌, map, bit_and}
use serval_sosp.Jit.Alu.{
  bpf_add, bpf_sub, bpf_mul, bpf_div, bpf_or, bpf_and, bpf_lsh, bpf_rsh, bpf_mod, bpf_xor, bpf_mov,
  bpf_arsh,
}
use serval_sosp.Jit.Jump.{
  bpf_jeq, bpf_jgt, bpf_jge, bpf_jset, bpf_jne, bpf_jsgt, bpf_jsge, bpf_jlt, bpf_jle, bpf_jslt,
  bpf_jsle,
}
use serval_sosp.Jit.Memory.{bpf_w, bpf_h, bpf_b, bpf_dw, bpf_mem, bpf_xadd}

-- bpf/bpf.h: classes, sources and the other operations
abbrev pub bpf_ld : ℕ
bpf_ld = 0

abbrev pub bpf_ldx : ℕ
bpf_ldx = 1

abbrev pub bpf_st : ℕ
bpf_st = 2

abbrev pub bpf_stx : ℕ
bpf_stx = 3

abbrev pub bpf_alu : ℕ
bpf_alu = 4

abbrev pub bpf_jmp : ℕ
bpf_jmp = 5

abbrev pub bpf_jmp32 : ℕ
bpf_jmp32 = 6

abbrev pub bpf_alu64 : ℕ
bpf_alu64 = 7

abbrev pub bpf_k : ℕ
bpf_k = 0

abbrev pub bpf_x : ℕ
bpf_x = 8

abbrev pub bpf_end : ℕ
bpf_end = 0xd0

abbrev pub bpf_ja : ℕ
bpf_ja = 0

abbrev pub bpf_call : ℕ
bpf_call = 0x80

abbrev pub bpf_exit : ℕ
bpf_exit = 0x90

-- BPF_CLASS, BPF_OP, BPF_SRC, BPF_SIZE and BPF_MODE
abbrev pub bpf_class_of : ℕ → ℕ
bpf_class_of code = bit_and code 0x07

abbrev pub bpf_op_of : ℕ → ℕ
bpf_op_of code = bit_and code 0xf0

abbrev pub bpf_src_of : ℕ → ℕ
bpf_src_of code = bit_and code 0x08

abbrev pub bpf_size_of : ℕ → ℕ
bpf_size_of code = bit_and code 0x18

abbrev pub bpf_mode_of : ℕ → ℕ
bpf_mode_of code = bit_and code 0xe0

unfoldable pub one_of : ℕ → List ℕ → Bool
one_of code [] = false
one_of code (c ∷ cs) = code == c || one_of code cs

-- Case labels: a class with each operation of a list, for both sources
abbrev pub both_sources : ℕ → List ℕ → List ℕ
both_sources class ops = map (λ op. class + op + bpf_x) ops ++ map (λ op. class + op + bpf_k) ops

abbrev pub arithmetic : List ℕ
arithmetic = bpf_add ∷ bpf_sub ∷ bpf_and ∷ bpf_or ∷ bpf_xor ∷ bpf_mul ∷ []

abbrev pub divisions : List ℕ
divisions = bpf_div ∷ bpf_mod ∷ []

abbrev pub shifts : List ℕ
shifts = bpf_lsh ∷ bpf_rsh ∷ bpf_arsh ∷ []

abbrev pub conditions : List ℕ
conditions =
    bpf_jeq ∷ bpf_jne ∷ bpf_jle ∷ bpf_jlt ∷ bpf_jge ∷ bpf_jgt ∷ bpf_jsle ∷ bpf_jslt ∷ bpf_jsge
    ∷ bpf_jsgt ∷ bpf_jset ∷ []

abbrev pub alu64_r64 : List ℕ
alu64_r64 =
    (bpf_alu64 + bpf_mov + bpf_x)
    ∷ (both_sources bpf_alu64 arithmetic ++ map (λ op. bpf_alu64 + op + bpf_x) shifts)

abbrev pub alu64_i64 : List ℕ
alu64_i64 = map (λ op. bpf_alu64 + op + bpf_k) (bpf_mov ∷ shifts)

abbrev pub alu_r32_codes : List ℕ
alu_r32_codes =
    (bpf_alu + bpf_mov + bpf_x) ∷ both_sources bpf_alu (arithmetic ++ (divisions ++ shifts))

abbrev pub sizes : ℕ → List ℕ
sizes class = map (λ size. class + bpf_mem + size) (bpf_b ∷ bpf_h ∷ bpf_w ∷ bpf_dw ∷ [])

abbrev pub stores : List ℕ
stores = sizes bpf_st ++ (sizes bpf_stx ++ (bpf_stx + bpf_xadd + bpf_w) ∷ [])
