-- ===== src/Jit/Shift.antt =====
-- Shifts of a 64-bit number by its two words, for bpf/jit/bpf_jit_comp32.c: below, `p` and `q` are the
-- powers of 2 of the amount and of what it lacks to 32.
use serval_sosp.Base.{ℕ, suc, ◌+◌, ◌-◌, ◌*◌, ◌/◌, ◌%◌, ◌^◌, ◌≤◌, ◌<◌, ◌≡◌, ap, sym, ◌∙◌, arith}
use serval_sosp.Base.Fields.{cut_sum}
use serval_sosp.Base.Word32.{sar32}
use serval_sosp.Jit.Kbpf.{sar64}
use native.Mathlib.Nat.{div-add-mod, mul-add-div, lt_of_mul-lt-mul_left, mod-lt, mul-le-mul_left}

regroup : (p q d r : ℕ) → (q * d + r) * p ≡ p * q * d + p * r
regroup p q d r = grind arith

next_product : (p r : ℕ) → p * suc r ≡ p * r + p
next_product p r = grind arith

-- A word times `p`
pub scaled :
    (x p q : ℕ)
    → p * q ≡ 2 ^ 32
    → 0 < q
    → (x * p ≡ 2 ^ 32 * (x / q) + p * (x % q)) × (p * (x % q) + p ≤ 2 ^ 32)
scaled x p q h k =
    let parts : x ≡ q * (x / q) + x % q = sym (div-add-mod x q) in
    let below : x % q < q = mod-lt x k in
    (
      ap (λ t. t * p) parts ∙ regroup p q (x / q) (x % q) ∙ ap (λ t. t * (x / q) + p * (x % q)) h,
      omega (arith, mul-le-mul_left p below, next_product p (x % q), h),
    )

pub swap : (p q : ℕ) → p * q ≡ q * p
swap p q = grind arith

-- The quotient of a word by `q` is below `p`.
pub quotient_below : (x p q : ℕ) → p * q ≡ 2 ^ 32 → 0 < q → x < 2 ^ 32 → x / q < p
quotient_below x p q h k w = lt_of_mul-lt-mul_left q (omega (arith, div-add-mod x q, swap p q, h))

spread : (a b p : ℕ) → (a * 2 ^ 32 + b) * p ≡ 2 ^ 32 * (a * p) + b * p
spread a b p = grind arith

pub shift_left :
    (a b p q : ℕ)
    → p * q ≡ 2 ^ 32
    → 0 < q
    → b < 2 ^ 32
    → (p * (a % q) + b / q) * 2 ^ 32 + b * p % 2 ^ 32 ≡ (a * 2 ^ 32 + b) * p % 2 ^ 64
shift_left a b p q h k w =
    omega (arith, spread a b p, scaled a p q h k, scaled b p q h k, quotient_below b p q h k w)

factor : (p q d r : ℕ) → (p * d + r) * (p * q) ≡ p * (d * (p * q) + q * r)
factor p q d r = grind arith

pub shift_right :
    (a b p q : ℕ)
    → p * q ≡ 2 ^ 32
    → 0 < p
    → (a / p) * 2 ^ 32 + (q * (a % p) + b / p) ≡ (a * 2 ^ 32 + b) / p
shift_right a b p q h l =
    let parts : a ≡ p * (a / p) + a % p = sym (div-add-mod a p) in
    let whole : a * 2 ^ 32 ≡ p * (a / p * 2 ^ 32 + q * (a % p)) =
      ap (λ t. t * 2 ^ 32) parts
      ∙ ap (λ t. (p * (a / p) + a % p) * t) (sym h)
      ∙ factor p q (a / p) (a % p)
      ∙ ap (λ t. p * (a / p * t + q * (a % p))) h in
    let divided : (p * (a / p * 2 ^ 32 + q * (a % p)) + b) / p
        ≡ a / p * 2 ^ 32 + q * (a % p) + b / p =
      mul-add-div {m = p} l (a / p * 2 ^ 32 + q * (a % p)) b in
    omega (arith, ap (λ t. (t + b) / p) whole, divided)

distribute : (p d e : ℕ) → p * (d + 1 + e) ≡ p * d + p + p * e
distribute p d e = grind arith

-- The quotient and the rest of the complement of a word
complement :
    (x p q : ℕ)
    → p * q ≡ 2 ^ 32
    → 0 < p
    → 0 < q
    → x < 2 ^ 32
    → ((2 ^ 32 - 1 - x) / p + x / p + 1 ≡ q) × ((2 ^ 32 - 1 - x) % p + x % p + 1 ≡ p)
complement x p q h l k w =
    let y = 2 ^ 32 - 1 - x in
    let d = x / p in
    let r = x % p in
    let below : r < p = mod-lt x l in
    let small : d < q = quotient_below x q p (swap q p ∙ h) l w in
    let e = q - 1 - d in
    let b = p - 1 - r in
    let parts : q ≡ d + 1 + e = omega arith in
    let whole : y ≡ p * e + b =
      omega (arith, div-add-mod x p, h, ap (λ (t : ℕ). p * t) parts, distribute p d e) in
    let cut : ((p * e + b) / p ≡ e) × ((p * e + b) % p ≡ b) = cut_sum p e b (omega arith) in
    (
      omega (arith, ap (λ (t : ℕ). t / p) whole ∙ cut.0),
      omega (arith, ap (λ (t : ℕ). t % p) whole ∙ cut.1),
    )

share : (q x y : ℕ) → q * (x + y + 1) ≡ q * x + q * y + q
share q x y = grind arith

-- The arithmetic shift of a pair
pub shift_right_signed :
    (a b q k : ℕ)
    → 2 ^ k * q ≡ 2 ^ 32
    → 0 < 2 ^ k
    → 0 < q
    → a < 2 ^ 32
    → b < 2 ^ 32
    → sar32 a k * 2 ^ 32 + (q * (a % 2 ^ k) + b / 2 ^ k) ≡ sar64 (a * 2 ^ 32 + b) k
shift_right_signed a b q k h l m w z =
    let p = 2 ^ k in
    let a2 = 2 ^ 32 - 1 - a in
    let b2 = 2 ^ 32 - 1 - b in
    let ca = complement a p q h l m w in
    let cb = complement b p q h l m z in
    let opposite : 2 ^ 64 - 1 - (a * 2 ^ 32 + b) ≡ a2 * 2 ^ 32 + b2 = omega arith in
    ground (
      arith,
      shift_right a b p q h l,
      shift_right a2 b2 p q h l,
      ap (λ (t : ℕ). t / p) opposite,
      ca,
      cb,
      swap p q,
      h,
      ap (λ (t : ℕ). q * t) ca.1,
      share q (a2 % p) (a % p),
    )
