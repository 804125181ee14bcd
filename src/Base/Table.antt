-- ===== src/Base/Table.antt =====
-- Arrays and memories as functions from an index: a write, a write of a whole range, and the sum
-- and the number of entries of a prefix.
use Prim.Native.Nat.{ℕ, zero, suc, ◌+◌, ◌≤◌, ◌<◌}
use mathlib.Core.Path.{◌≡◌, refl, fun_ext}
use mathlib.Core.Bool.{◌&&◌}
use native.Mathlib.Omega.{arith}
use serval_sosp.Base.Tests.{ltb, leb, ◌==◌, if◌then◌else◌}

-- `t[i] = v`
abbrev pub update {ℓ} : {A : Type ℓ} → (ℕ → A) → ℕ → A → ℕ → A
update t i v j = if i == j then v else t j

-- The later of two writes to one place stays.
pub update-update {ℓ} :
    {A : Type ℓ} (t : ℕ → A) (i : ℕ) (v w : A) → update (update t i v) i w ≡ update t i w
update-update t i v w = fun_ext λ j. ground arith

-- A write that a later one to the same place hides does not count.
pub update-overwritten {ℓ} :
    {A : Type ℓ} (t : ℕ → A) (i k : ℕ) (u v w : A)
    → update (update (update t i u) k v) i w ≡ update (update t k v) i w
update-overwritten t i k u v w = fun_ext λ j. ground arith

-- The table with `v` at every index of `[lo, hi)`.
abbrev pub fill {ℓ} : {A : Type ℓ} → (ℕ → A) → ℕ → ℕ → A → ℕ → A
fill t lo hi v j = if leb lo j && ltb j hi then v else t j

-- The sum of `f 0` to `f (n - 1)`.
pub sum_below : (ℕ → ℕ) → ℕ → ℕ
sum_below f zero = 0
sum_below f (suc n) = sum_below f n + f n

pub sum_below-update_above :
    (f : ℕ → ℕ) (n i v : ℕ) → n ≤ i → sum_below (update f i v) n ≡ sum_below f n
unfolding sum_below
sum_below-update_above f zero i v h = refl
sum_below-update_above f (suc n) i v h = ground (arith, sum_below-update_above f n i v)

-- A write changes the sum by the difference at its index.
pub sum_below-update :
    (f : ℕ → ℕ) (n i v : ℕ) → i < n → sum_below (update f i v) n + f i ≡ sum_below f n + v
unfolding sum_below
sum_below-update f zero i v h = absurd (omega arith)
sum_below-update f (suc n) i v h =
    ground (arith, sum_below-update f n i v, sum_below-update_above f n i v)

pub sum_below-cong :
    (f g : ℕ → ℕ) (n : ℕ) → ((i : ℕ) → i < n → f i ≡ g i) → sum_below f n ≡ sum_below g n
unfolding sum_below
sum_below-cong f g zero h = refl
sum_below-cong f g (suc n) h =
    omega (arith, h n (omega arith), sum_below-cong f g n (λ i l. h i (omega arith)))

pub sum_below-zero : (f : ℕ → ℕ) (n i : ℕ) → sum_below f n ≡ 0 → i < n → f i ≡ 0
unfolding sum_below
sum_below-zero f zero i e h = absurd (omega arith)
sum_below-zero f (suc n) i e h = ground (arith, sum_below-zero f n i)

pub le-sum_below : (f : ℕ → ℕ) (n i : ℕ) → i < n → f i ≤ sum_below f n
unfolding sum_below
le-sum_below f zero i h = absurd (omega arith)
le-sum_below f (suc n) i h = ground (arith, le-sum_below f n i)

-- Terms of at most 1.
pub sum_below-le : (f : ℕ → ℕ) (n : ℕ) → ((i : ℕ) → f i ≤ 1) → sum_below f n ≤ n
unfolding sum_below
sum_below-le f zero h = omega arith
sum_below-le f (suc n) h = omega (arith, sum_below-le f n h, h n)

pub sum_below-zeros : (f : ℕ → ℕ) (n : ℕ) → ((i : ℕ) → i < n → f i ≡ 0) → sum_below f n ≡ 0
unfolding sum_below
sum_below-zeros f zero h = refl
sum_below-zeros f (suc n) h =
    omega (arith, h n (omega arith), sum_below-zeros f n (λ i l. h i (omega arith)))
