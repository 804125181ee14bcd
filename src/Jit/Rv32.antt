-- ===== src/Jit/Rv32.antt =====
-- The RV32 instructions that bpf/jit/bpf_jit_comp32.c emits between registers, after the RISC-V
-- manual: how a word is read, and what it does to the registers and the program counter.
use serval_sosp.Base.{
  ℕ, ◌+◌, ◌-◌, ◌*◌, ◌/◌, ◌%◌, ◌^◌, Bool, not, List, [], ◌∷◌, if◌then◌else◌, ltb, leb, ◌==◌, bit_and,
  bit_or, bit_xor,
}
use serval_sosp.Base.Word32.{add32, sub32, shl32, sar32, slt32}

-- An instruction, its fields read from a word
pub data Asm : Type 0 where
  register_op : (funct7 funct3 rd rs1 rs2 : ℕ) → Asm
  immediate_op : (imm funct3 rd rs1 : ℕ) → Asm
  branch : (funct3 rs1 rs2 imm : ℕ) → Asm
  jump : (rd imm : ℕ) → Asm
  upper : (rd imm : ℕ) → Asm
  store_op : (funct3 rs1 rs2 imm : ℕ) → Asm
  other : ℕ → Asm

abbrev pub rd_of : ℕ → ℕ
rd_of w = w / 2 ^ 7 % 32

abbrev pub funct3_of : ℕ → ℕ
funct3_of w = w / 2 ^ 12 % 8

abbrev pub rs1_of : ℕ → ℕ
rs1_of w = w / 2 ^ 15 % 32

abbrev pub rs2_of : ℕ → ℕ
rs2_of w = w / 2 ^ 20 % 32

abbrev pub imm_i : ℕ → ℕ
imm_i w = w / 2 ^ 20 % 2 ^ 12

-- The immediate of a store
abbrev pub imm_s : ℕ → ℕ
imm_s w = w / 2 ^ 25 % 2 ^ 7 * 32 + w / 2 ^ 7 % 32

-- The immediate of a branch, in units of two bytes
abbrev pub imm_b : ℕ → ℕ
imm_b w =
    w / 2 ^ 31 % 2 * 2 ^ 11
    + w / 2 ^ 7 % 2 * 2 ^ 10
    + w / 2 ^ 25 % 2 ^ 6 * 2 ^ 4
    + w / 2 ^ 8 % 2 ^ 4

-- The immediate of jal, in units of two bytes
abbrev pub imm_j : ℕ → ℕ
imm_j w =
    w / 2 ^ 31 % 2 * 2 ^ 19
    + w / 2 ^ 12 % 2 ^ 8 * 2 ^ 11
    + w / 2 ^ 20 % 2 * 2 ^ 10
    + w / 2 ^ 21 % 2 ^ 10

unfoldable pub decode : ℕ → Asm
decode w =
    let opcode = w % 128 in
    if opcode == 0x33
    then register_op (w / 2 ^ 25) (funct3_of w) (rd_of w) (rs1_of w) (rs2_of w)
    else if opcode == 0x13
    then immediate_op (imm_i w) (funct3_of w) (rd_of w) (rs1_of w)
    else if opcode == 0x63
    then branch (funct3_of w) (rs1_of w) (rs2_of w) (imm_b w)
    else if opcode == 0x6f
    then jump (rd_of w) (imm_j w)
    else if opcode == 0x37
    then upper (rd_of w) (w / 2 ^ 12)
    else if opcode == 0x23
    then store_op (funct3_of w) (rs1_of w) (rs2_of w) (imm_s w)
    else other w

-- A field of `k` bits as a signed number, as a word
abbrev pub signed : ℕ → ℕ → ℕ
signed k x = if leb (2 ^ (k - 1)) x then x + (2 ^ 32 - 2 ^ k) else x

abbrev pub word_of : Bool → ℕ
word_of b = if b then 1 else 0

-- x * y, high word, and the unsigned division of the manual
abbrev pub mulhu32 : ℕ → ℕ → ℕ
mulhu32 x y = x * y / 2 ^ 32

abbrev pub divu32 : ℕ → ℕ → ℕ
divu32 x y = if y == 0 then 2 ^ 32 - 1 else x / y

abbrev pub remu32 : ℕ → ℕ → ℕ
remu32 x y = if y == 0 then x else x % y

-- `srl` and `sra` by the low five bits of the amount
unfoldable pub register_result : ℕ → ℕ → ℕ → ℕ → ℕ
register_result funct7 funct3 x y =
    if funct7 == 1
    then (if funct3 == 0
        then x * y % 2 ^ 32
        else if funct3 == 3
        then mulhu32 x y
        else if funct3 == 5
        then divu32 x y
        else remu32 x y)
    else if funct7 == 0x20
    then (if funct3 == 0 then sub32 x y else sar32 x (y % 32))
    else if funct3 == 0
    then add32 x y
    else if funct3 == 1
    then shl32 x (y % 32)
    else if funct3 == 3
    then word_of (ltb x y)
    else if funct3 == 4
    then bit_xor x y
    else if funct3 == 5
    then x / 2 ^ (y % 32)
    else if funct3 == 6
    then bit_or x y
    else bit_and x y

unfoldable pub immediate_result : ℕ → ℕ → ℕ → ℕ
immediate_result imm funct3 x =
    if funct3 == 0
    then add32 x (signed 12 imm)
    else if funct3 == 1
    then shl32 x (imm % 32)
    else if funct3 == 5
    then (if leb 0x400 imm then sar32 x (imm % 32) else x / 2 ^ (imm % 32))
    else bit_and x (signed 12 imm)

unfoldable pub taken : ℕ → ℕ → ℕ → Bool
taken funct3 x y =
    if funct3 == 0
    then x == y
    else if funct3 == 1
    then not (x == y)
    else if funct3 == 4
    then slt32 x y
    else if funct3 == 5
    then not (slt32 x y)
    else if funct3 == 6
    then ltb x y
    else not (ltb x y)

-- The registers, and the program counter as the distance in bytes from the first word
pub record Rv : Type 0 where
  pub regs : ℕ → ℕ
  pub pc : ℕ

abbrev pub rv : (ℕ → ℕ) → ℕ → Rv
rv regs pc = record { regs = regs; pc = pc }

-- Register 0 is always 0.
abbrev pub get : (ℕ → ℕ) → ℕ → ℕ
get regs r = if r == 0 then 0 else regs r

abbrev pub set : (ℕ → ℕ) → ℕ → ℕ → ℕ → ℕ
set regs r x n = if n == r then x else regs n

unfoldable pub exec : Asm → Rv → Rv
exec (register_op funct7 funct3 rd rs1 rs2) m =
    rv (set m.regs rd (register_result funct7 funct3 (get m.regs rs1) (get m.regs rs2)))
      (add32 m.pc 4)
exec (immediate_op imm funct3 rd rs1) m =
    rv (set m.regs rd (immediate_result imm funct3 (get m.regs rs1))) (add32 m.pc 4)
exec (branch funct3 rs1 rs2 imm) m = rv m.regs (
    if taken funct3 (get m.regs rs1) (get m.regs rs2)
    then add32 m.pc (signed 13 (2 * imm))
    else add32 m.pc 4)
exec (jump rd imm) m = rv (set m.regs rd (add32 m.pc 4)) (add32 m.pc (signed 21 (2 * imm)))
exec (upper rd imm) m = rv (set m.regs rd (shl32 imm 12)) (add32 m.pc 4)
exec (store_op funct3 rs1 rs2 imm) m = m
exec (other w) m = m

-- The words from the place `at` on, each run when the program counter is at it: code without loops.
unfoldable pub run : ℕ → List ℕ → Rv → Rv
run at [] m = m
run at (w ∷ ws) m = run (at + 4) ws (if m.pc == at then exec (decode w) m else m)
