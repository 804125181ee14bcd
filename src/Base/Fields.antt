-- ===== src/Base/Fields.antt =====
-- Words that are put together from fields with bit_or: bit_or of numbers without a common digit is
-- their sum.
use Prim.Native.Nat.{ℕ, zero, suc, ◌+◌, ◌*◌, ◌/◌, ◌%◌, ◌^◌, ◌<◌, bit_or}
use mathlib.Core.Path.{◌≡◌, refl, ◌∙◌, ap, ap₂, sym}
use serval_sosp.Base.Digits.{bit_or-digit, bit_or-shr, bit_or-low}
use native.Mathlib.Omega.{arith}
use native.Mathlib.Nat.{div-add-mod, mul-add-div, div-eq_of_lt}

zero_bit_or_below : (n b : ℕ) → b < n → bit_or 0 b ≡ b
zero_bit_or_below zero b h = absurd (omega arith)
zero_bit_or_below (suc n) zero h = refl
zero_bit_or_below (suc n) (suc b) h =
    omega (arith, bit_or-digit 0 (suc b), zero_bit_or_below n (suc b / 2) (omega arith))

pub zero_bit_or : (b : ℕ) → bit_or 0 b ≡ b
zero_bit_or b = zero_bit_or_below (suc b) b (omega arith)

bit_or-zero_below : (n a : ℕ) → a < n → bit_or a 0 ≡ a
bit_or-zero_below zero a h = absurd (omega arith)
bit_or-zero_below (suc n) zero h = refl
bit_or-zero_below (suc n) (suc a) h =
    omega (arith, bit_or-digit (suc a) 0, bit_or-zero_below n (suc a / 2) (omega arith))

pub bit_or-zero : (a : ℕ) → bit_or a 0 ≡ a
bit_or-zero a = bit_or-zero_below (suc a) a (omega arith)

-- The quotient and the rest of a sum whose second part is below the divisor
pub cut_sum : (p q b : ℕ) → b < p → ((p * q + b) / p ≡ q) × ((p * q + b) % p ≡ b)
cut_sum p q b h =
    let quotient : (p * q + b) / p ≡ q =
      omega (arith, mul-add-div {m = p} (omega arith) q b, div-eq_of_lt h) in
    (quotient, omega (arith, div-add-mod (p * q + b) p, ap (λ (t : ℕ). p * t) quotient))

pub bit_or-disjoint : (k q b : ℕ) → b < 2 ^ k → bit_or (2 ^ k * q) b ≡ 2 ^ k * q + b
bit_or-disjoint k q b h =
    let p : ℕ = 2 ^ k in
    let high = cut_sum p q 0 (omega arith) in
    let sum : p * q + 0 ≡ p * q = omega arith in
    let low = cut_sum p 0 b h in
    let low_sum : p * 0 + b ≡ b = omega arith in
    let quotient : bit_or (p * q) b / p ≡ q =
      bit_or-shr k (p * q) b
      ∙ ap₂ bit_or (ap (λ t. t / p) (sym sum) ∙ high.0) (ap (λ t. t / p) (sym low_sum) ∙ low.0)
      ∙ bit_or-zero q in
    let rest : bit_or (p * q) b % p ≡ b =
      bit_or-low k (p * q) b
      ∙ ap₂ bit_or (ap (λ t. t % p) (sym sum) ∙ high.1) (ap (λ t. t % p) (sym low_sum) ∙ low.1)
      ∙ zero_bit_or b in
    omega (arith, div-add-mod (bit_or (p * q) b) p, ap (λ (t : ℕ). p * t) quotient, rest)

-- The same, for a number known to be a multiple
pub bit_or-add : (k x b : ℕ) → x % 2 ^ k ≡ 0 → b < 2 ^ k → bit_or x b ≡ x + b
bit_or-add k x b e h =
    let p : ℕ = 2 ^ k in
    let whole : x ≡ p * (x / p) = omega (arith, div-add-mod x p) in
    ap (λ t. bit_or t b) whole ∙ bit_or-disjoint k (x / p) b h ∙ ap (λ t. t + b) (sym whole)
