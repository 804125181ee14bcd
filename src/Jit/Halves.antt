-- ===== src/Jit/Halves.antt =====
-- The words that bpf/jit/bpf_jit_comp32.c computes for a shift of a 64-bit value, put together.
use serval_sosp.Base.{
  ℕ, zero, suc, ◌+◌, ◌-◌, ◌*◌, ◌/◌, ◌%◌, ◌^◌, ◌≤◌, ◌<◌, ◌≡◌, refl, ap, sym, ◌∙◌, Bool, true, ◌&&◌,
  ◌||◌, ltb, ◌==◌, bit_or, arith,
}
use mathlib.Core.Path.{ap₂}
use native.Mathlib.Nat.{div-add-mod, div-div-eq-div-mul}
use serval_sosp.Base.Bits.{all_below, all_below_sound}
use serval_sosp.Base.Digits.{bit_or-digit}
use serval_sosp.Base.Fields.{zero_bit_or, bit_or-zero, bit_or-disjoint}
use serval_sosp.Base.Word32.{sar32}
use serval_sosp.Jit.Kbpf.{sar64}
use serval_sosp.Jit.Shift.{
  scaled, quotient_below, swap, shift_left, shift_right, shift_right_signed,
}

bit_or_comm_below : (n a b : ℕ) → a < n → bit_or a b ≡ bit_or b a
bit_or_comm_below zero a b h = absurd (omega arith)
bit_or_comm_below (suc n) zero b h = zero_bit_or b ∙ sym (bit_or-zero b)
bit_or_comm_below (suc n) (suc a) b h = omega (
  arith,
  bit_or-digit (suc a) b,
  bit_or-digit b (suc a),
  bit_or_comm_below n (suc a / 2) (b / 2) (omega arith),
)

bit_or_comm : (a b : ℕ) → bit_or a b ≡ bit_or b a
bit_or_comm a b = bit_or_comm_below (suc a) a b (omega arith)

-- The powers of an amount, and of what it lacks to 32
powers : ℕ → Bool
powers k =
    (2 ^ k * 2 ^ (32 - k) == 2 ^ 32)
    && (2 * 2 ^ (31 - k) == 2 ^ (32 - k))
    && ltb 0 (2 ^ k)
    && ltb 0 (2 ^ (32 - k))

powers_table : all_below 32 powers ≡ true
unfolding all_below powers
powers_table = refl

powers_below :
    (k : ℕ)
    → k < 32
    → (2 ^ k * 2 ^ (32 - k) ≡ 2 ^ 32)
      × (2 * 2 ^ (31 - k) ≡ 2 ^ (32 - k))
      × (0 < 2 ^ k)
      × (0 < 2 ^ (32 - k))
unfolding powers
powers_below k h = ground (arith, all_below_sound 32 powers k powers_table h)

large_power : ℕ → Bool
large_power k = ltb k 32 || (2 ^ 32 * 2 ^ (k - 32) == 2 ^ k) && ltb 0 (2 ^ (k - 32))

large_table : all_below 64 large_power ≡ true
unfolding all_below large_power
large_table = refl

large_below : (k : ℕ) → k < 64 → 32 ≤ k → (2 ^ 32 * 2 ^ (k - 32) ≡ 2 ^ k) × (0 < 2 ^ (k - 32))
unfolding large_power
large_below k h l = ground (arith, all_below_sound 64 large_power k large_table h)

pub left_small :
    (a b k : ℕ)
    → k < 32
    → b < 2 ^ 32
    → bit_or (b / 2 / 2 ^ (31 - k)) (a * 2 ^ k % 2 ^ 32) * 2 ^ 32 + b * 2 ^ k % 2 ^ 32
      ≡ (a * 2 ^ 32 + b) * 2 ^ k % 2 ^ 64
left_small a b k h w =
    let p = 2 ^ k in
    let q = 2 ^ (32 - k) in
    let w2 = powers_below k h in
    let low : b / 2 / 2 ^ (31 - k) ≡ b / q =
      div-div-eq-div-mul b 2 (2 ^ (31 - k)) ∙ ap (λ t. b / t) w2.1 in
    let high : a * p % 2 ^ 32 ≡ p * (a % q) = omega (arith, scaled a p q w2.0 w2.3, w2.2) in
    let joined : bit_or (b / 2 / 2 ^ (31 - k)) (a * p % 2 ^ 32) ≡ p * (a % q) + b / q =
      ap₂ bit_or low high
      ∙ bit_or_comm (b / q) (p * (a % q))
      ∙ bit_or-disjoint k (a % q) (b / q) (quotient_below b p q w2.0 w2.3 w) in
    ap (λ t. t * 2 ^ 32 + b * p % 2 ^ 32) joined ∙ shift_left a b p q w2.0 w2.3 w

cut_factor : (d r q : ℕ) → (2 ^ 32 * d + r) * q ≡ 2 ^ 32 * (d * q) + r * q
cut_factor d r q = grind arith

double : (a q : ℕ) → a * 2 * q ≡ a * (2 * q)
double a q = grind arith

-- The low word of a shift to the right
pub right_low :
    (a b k : ℕ)
    → k < 32
    → b < 2 ^ 32
    → bit_or (a * 2 % 2 ^ 32 * 2 ^ (31 - k) % 2 ^ 32) (b / 2 ^ k)
      ≡ 2 ^ (32 - k) * (a % 2 ^ k) + b / 2 ^ k
right_low a b k h w =
    let p = 2 ^ k in
    let q = 2 ^ (32 - k) in
    let w2 = powers_below k h in
    let half = 2 ^ (31 - k) in
    let parts : (2 ^ 32 * (a * 2 / 2 ^ 32) + a * 2 % 2 ^ 32) * half ≡ a * q =
      ap (λ t. t * half) (div-add-mod (a * 2) (2 ^ 32)) ∙ double a half ∙ ap (λ t. a * t) w2.1 in
    let high : a * 2 % 2 ^ 32 * half % 2 ^ 32 ≡ q * (a % p) = omega (
      arith,
      parts,
      cut_factor (a * 2 / 2 ^ 32) (a * 2 % 2 ^ 32) half,
      scaled a q p (swap q p ∙ w2.0) w2.2,
      w2.3,
    ) in
    ap (λ t. bit_or t (b / p)) high
    ∙ bit_or-disjoint (32 - k) (a % p) (b / p) (quotient_below b q p (swap q p ∙ w2.0) w2.2 w)

pub right_small :
    (a b k : ℕ)
    → k < 32
    → b < 2 ^ 32
    → a / 2 ^ k * 2 ^ 32 + bit_or (a * 2 % 2 ^ 32 * 2 ^ (31 - k) % 2 ^ 32) (b / 2 ^ k)
      ≡ (a * 2 ^ 32 + b) / 2 ^ k
right_small a b k h w =
    let w2 = powers_below k h in
    ap (λ t. a / 2 ^ k * 2 ^ 32 + t) (right_low a b k h w)
    ∙ shift_right a b (2 ^ k) (2 ^ (32 - k)) w2.0 w2.2

pub right_signed_small :
    (a b k : ℕ)
    → k < 32
    → a < 2 ^ 32
    → b < 2 ^ 32
    → sar32 a k * 2 ^ 32 + bit_or (a * 2 % 2 ^ 32 * 2 ^ (31 - k) % 2 ^ 32) (b / 2 ^ k)
      ≡ sar64 (a * 2 ^ 32 + b) k
right_signed_small a b k h v w =
    let w2 = powers_below k h in
    ap (λ t. sar32 a k * 2 ^ 32 + t) (right_low a b k h w)
    ∙ shift_right_signed a b (2 ^ (32 - k)) k w2.0 w2.2 w2.3 v w

spread_large : (a b p : ℕ) → (a * 2 ^ 32 + b) * (2 ^ 32 * p) ≡ 2 ^ 64 * (a * p) + 2 ^ 32 * (b * p)
spread_large a b p = grind arith

pub left_large :
    (a b k : ℕ)
    → k < 64
    → 32 ≤ k
    → b * 2 ^ (k - 32) % 2 ^ 32 * 2 ^ 32 + 0 ≡ (a * 2 ^ 32 + b) * 2 ^ k % 2 ^ 64
left_large a b k h l = omega (
  arith,
  spread_large a b (2 ^ (k - 32)),
  ap (λ (t : ℕ). (a * 2 ^ 32 + b) * t) (large_below k h l).0,
)

pub right_large :
    (a b k : ℕ)
    → k < 64
    → 32 ≤ k
    → b < 2 ^ 32
    → 0 * 2 ^ 32 + a / 2 ^ (k - 32) ≡ (a * 2 ^ 32 + b) / 2 ^ k
right_large a b k h l w =
    let high : (a * 2 ^ 32 + b) / 2 ^ 32 ≡ a = omega arith in
    let twice : (a * 2 ^ 32 + b) / 2 ^ 32 / 2 ^ (k - 32) ≡ (a * 2 ^ 32 + b) / 2 ^ k =
      div-div-eq-div-mul (a * 2 ^ 32 + b) (2 ^ 32) (2 ^ (k - 32))
      ∙ ap (λ t. (a * 2 ^ 32 + b) / t) (large_below k h l).0 in
    omega (arith, ap (λ (t : ℕ). t / 2 ^ (k - 32)) high, twice)

pub right_signed_large :
    (a b k : ℕ)
    → k < 64
    → 32 ≤ k
    → a < 2 ^ 32
    → b < 2 ^ 32
    → sar32 a 31 * 2 ^ 32 + sar32 a (k - 32) ≡ sar64 (a * 2 ^ 32 + b) k
right_signed_large a b k h l v w =
    let a2 = 2 ^ 32 - 1 - a in
    let b2 = 2 ^ 32 - 1 - b in
    let opposite : 2 ^ 64 - 1 - (a * 2 ^ 32 + b) ≡ a2 * 2 ^ 32 + b2 = omega arith in
    ground (
      arith,
      right_large a b k h l w,
      right_large a2 b2 k h l (omega arith),
      ap (λ (t : ℕ). t / 2 ^ k) opposite,
    )
