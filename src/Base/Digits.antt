-- ===== src/Base/Digits.antt =====
-- Laws of bit_and, bit_or and bit_xor at variables: they act on each binary digit, hence on each byte.
use Prim.Native.Nat.{
  ℕ, zero, suc, ◌+◌, ◌*◌, ◌/◌, ◌%◌, ◌^◌, ◌≤◌, ◌<◌, min, max, bit_and, bit_or, bit_xor, digits,
  bit_xor-bitwise, differ, bit_and-bitwise, bit_or-bitwise,
}
use mathlib.Core.Path.{◌≡◌, refl, ◌∙◌, ap, ap₂}
use mathlib.Core.Bool.{true, ◌&&◌}
use serval_sosp.Base.Tests.{◌==◌}
use serval_sosp.Base.Bits.{all_below, all_below_sound}
use native.Mathlib.Omega.{arith}
use native.Mathlib.Nat.{pow-succ', div-div-eq-div-mul, div-add-mod, one-le-pow}

-- More fuel than digits changes nothing.
module _ (z : ℕ → ℕ) (op : ℕ → ℕ → ℕ) where
  enough_fuel : (m n a b : ℕ) → a ≤ m → a ≤ n → digits z op m a b ≡ digits z op n a b
  enough_fuel zero zero zero b h k = refl
  enough_fuel zero (suc n) zero b h k = refl
  enough_fuel (suc m) zero zero b h k = refl
  enough_fuel (suc m) (suc n) zero b h k = refl
  enough_fuel zero n (suc a) b h k = absurd (omega arith)
  enough_fuel (suc m) zero (suc a) b h k = absurd (omega arith)
  enough_fuel (suc m) (suc n) (suc a) b h k =
      ap (λ t. t * 2 + op (suc a % 2) (b % 2))
        (enough_fuel m n (suc a / 2) (b / 2) (omega arith) (omega arith))

-- The lowest digit apart.
pub bit_and-digit : (a b : ℕ) → bit_and a b ≡ bit_and (a / 2) (b / 2) * 2 + min (a % 2) (b % 2)
bit_and-digit zero b = omega (arith, bit_and-bitwise 0 b, bit_and-bitwise 0 (b / 2))
bit_and-digit (suc a) b = omega (
  arith,
  bit_and-bitwise (suc a) b,
  bit_and-bitwise (suc a / 2) (b / 2),
  enough_fuel (λ _. 0) min a (suc a / 2) (suc a / 2) (b / 2) (omega arith) (omega arith),
)

pub bit_or-digit : (a b : ℕ) → bit_or a b ≡ bit_or (a / 2) (b / 2) * 2 + max (a % 2) (b % 2)
bit_or-digit zero b = omega (arith, bit_or-bitwise 0 b, bit_or-bitwise 0 (b / 2))
bit_or-digit (suc a) b = omega (
  arith,
  bit_or-bitwise (suc a) b,
  bit_or-bitwise (suc a / 2) (b / 2),
  enough_fuel (λ y. y) max a (suc a / 2) (suc a / 2) (b / 2) (omega arith) (omega arith),
)

pub bit_xor-digit : (a b : ℕ) → bit_xor a b ≡ bit_xor (a / 2) (b / 2) * 2 + differ (a % 2) (b % 2)
bit_xor-digit zero b = omega (arith, bit_xor-bitwise 0 b, bit_xor-bitwise 0 (b / 2))
bit_xor-digit (suc a) b = omega (
  arith,
  bit_xor-bitwise (suc a) b,
  bit_xor-bitwise (suc a / 2) (b / 2),
  enough_fuel (λ y. y) differ a (suc a / 2) (suc a / 2) (b / 2) (omega arith) (omega arith),
)

one_div : (a : ℕ) → a / 1 ≡ a
one_div a = omega arith

one_mod : (a : ℕ) → a % 1 ≡ 0
one_mod a = omega arith

mod-double : (t p : ℕ) → 0 < p → t % (2 * p) ≡ (t / 2 % p) * 2 + t % 2
mod-double t p h = omega (
  arith,
  div-add-mod t (2 * p),
  div-add-mod (t / 2) p,
  ap (λ (q : ℕ). p * q) (div-div-eq-div-mul t 2 p),
)

-- A number below 2 ^ (k + 1) has its half below 2 ^ k, and the last digit of the number cut off.
cut : (k t : ℕ) → (t % 2 ^ suc k / 2 ≡ t / 2 % 2 ^ k) × (t % 2 ^ suc k % 2 ≡ t % 2)
cut k t = rw (pow-succ' 2 k) (omega (arith, mod-double t (2 ^ k) (one-le-pow k 2 (omega arith))))

-- An operation that acts on each digit
module _ (op digit_op : ℕ → ℕ → ℕ)
    (step : (a b : ℕ) → op a b ≡ op (a / 2) (b / 2) * 2 + digit_op (a % 2) (b % 2))
    (small : (a b : ℕ) → a < 2 → b < 2 → digit_op a b < 2) (at_zero : op 0 0 ≡ 0) where
  op-last : (a b : ℕ) → digit_op (a % 2) (b % 2) < 2
  op-last a b = small (a % 2) (b % 2) (omega arith) (omega arith)

  op-half : (a b : ℕ) → op a b / 2 ≡ op (a / 2) (b / 2)
  op-half a b = omega (arith, step a b, op-last a b)

  -- A shift to the right acts on both operands.
  op-shr : (k a b : ℕ) → op a b / 2 ^ k ≡ op (a / 2 ^ k) (b / 2 ^ k)
  op-shr zero a b = omega (arith, ap₂ op (one_div a) (one_div b))
  op-shr (suc k) a b =
      rw
        (
          pow-succ' 2 k,
          ← div-div-eq-div-mul (op a b) 2 (2 ^ k),
          ← div-div-eq-div-mul a 2 (2 ^ k),
          ← div-div-eq-div-mul b 2 (2 ^ k),
        )
        (ap (λ t. t / 2 ^ k) (op-half a b) ∙ op-shr k (a / 2) (b / 2))

  -- So does a cut to the low digits.
  op-low : (k a b : ℕ) → op a b % 2 ^ k ≡ op (a % 2 ^ k) (b % 2 ^ k)
  op-low zero a b = omega (arith, ap₂ op (one_mod a) (one_mod b), at_zero)
  op-low (suc k) a b =
      let x = a % 2 ^ suc k in
      let y = b % 2 ^ suc k in
      omega (
        arith,
        cut k (op a b),
        step a b,
        op-last a b,
        op-low k (a / 2) (b / 2),
        step x y,
        ap₂ op (cut k a).0 (cut k b).0,
        ap₂ digit_op (cut k a).1 (cut k b).1,
        ap (λ (t : ℕ). t % 2 ^ k) (op-half a b),
      )

min_small : (a b : ℕ) → a < 2 → b < 2 → min a b < 2
min_small a b h k = omega arith

max_small : (a b : ℕ) → a < 2 → b < 2 → max a b < 2
max_small a b h k = omega arith

xor_small : (a b : ℕ) → a < 2 → b < 2 → differ a b < 2
xor_small zero b h k = k
xor_small (suc a) zero h k = h
xor_small (suc a) (suc b) h k = xor_small a b (omega arith) (omega arith)

pub bit_and-shr : (k a b : ℕ) → bit_and a b / 2 ^ k ≡ bit_and (a / 2 ^ k) (b / 2 ^ k)
bit_and-shr = op-shr bit_and min bit_and-digit min_small refl

pub bit_or-shr : (k a b : ℕ) → bit_or a b / 2 ^ k ≡ bit_or (a / 2 ^ k) (b / 2 ^ k)
bit_or-shr = op-shr bit_or max bit_or-digit max_small refl

pub bit_xor-shr : (k a b : ℕ) → bit_xor a b / 2 ^ k ≡ bit_xor (a / 2 ^ k) (b / 2 ^ k)
bit_xor-shr = op-shr bit_xor differ bit_xor-digit xor_small refl

pub bit_and-low : (k a b : ℕ) → bit_and a b % 2 ^ k ≡ bit_and (a % 2 ^ k) (b % 2 ^ k)
bit_and-low = op-low bit_and min bit_and-digit min_small refl

pub bit_or-low : (k a b : ℕ) → bit_or a b % 2 ^ k ≡ bit_or (a % 2 ^ k) (b % 2 ^ k)
bit_or-low = op-low bit_or max bit_or-digit max_small refl

pub bit_xor-low : (k a b : ℕ) → bit_xor a b % 2 ^ k ≡ bit_xor (a % 2 ^ k) (b % 2 ^ k)
bit_xor-low = op-low bit_xor differ bit_xor-digit xor_small refl

-- The byte `k` of a word.
abbrev pub byte : ℕ → ℕ → ℕ
byte k x = x / 2 ^ (k * 8) % 256

pub bit_and-byte : (k a b : ℕ) → byte k (bit_and a b) ≡ bit_and (byte k a) (byte k b)
bit_and-byte k a b =
    ap (λ t. t % 256) (bit_and-shr (k * 8) a b) ∙ bit_and-low 8 (a / 2 ^ (k * 8)) (b / 2 ^ (k * 8))

pub bit_or-byte : (k a b : ℕ) → byte k (bit_or a b) ≡ bit_or (byte k a) (byte k b)
bit_or-byte k a b =
    ap (λ t. t % 256) (bit_or-shr (k * 8) a b) ∙ bit_or-low 8 (a / 2 ^ (k * 8)) (b / 2 ^ (k * 8))

bit_and-zero_below : (n a : ℕ) → a < n → bit_and a 0 ≡ 0
bit_and-zero_below zero a h = absurd (omega arith)
bit_and-zero_below (suc n) zero h = refl
bit_and-zero_below (suc n) (suc a) h =
    omega (arith, bit_and-digit (suc a) 0, bit_and-zero_below n (suc a / 2) (omega arith))

pub bit_and-zero : (a : ℕ) → bit_and a 0 ≡ 0
bit_and-zero a = bit_and-zero_below (suc a) a (omega arith)

-- Bytes under the masks 255 and 0, and joined to 0.
byte_table : all_below 256 (λ x. bit_and x 255 == x && bit_or x 0 == x && bit_or 0 x == x) ≡ true
unfolding all_below
byte_table = refl

pub byte_ops : (x : ℕ) → x < 256 → (bit_and x 255 ≡ x) × (bit_or x 0 ≡ x) × (bit_or 0 x ≡ x)
byte_ops x h = ground (arith, all_below_sound 256 _ x byte_table h)

pub bit_and-255 : (a : ℕ) → bit_and a 255 ≡ a % 256
bit_and-255 a = omega (
  arith,
  bit_and-shr 8 a 255,
  bit_and-low 8 a 255,
  byte_ops (a % 256) (omega arith),
  bit_and-zero (a / 256),
)
