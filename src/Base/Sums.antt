-- ===== src/Base/Sums.antt =====
-- Sums of a function below a bound, and tests of numbers for equality.
use Prim.Native.Nat.{ℕ, zero, suc, ◌+◌, ◌<◌, ◌≤◌}
use mathlib.Core.Bool.{false}
use mathlib.Core.Path.{◌≡◌, refl}
use mathlib.Core.Logic.{◌≢◌, inl, inr}
use native.Mathlib.Omega.{arith}
use rawdishfs.Base.Tests.{◌==◌, ==_iff, Bool-cases}

pub ==-false→ne : (a b : ℕ) → (a == b) ≡ false → a ≢ b
==-false→ne a b h e = ground (arith, e)

pub ne→==-false : (a b : ℕ) → a ≢ b → (a == b) ≡ false
ne→==-false a b h = ground arith

-- The sum of a function below a bound.
unfoldable pub sum_below : ℕ → (ℕ → ℕ) → ℕ
sum_below zero f = 0
sum_below (suc n) f = f n + sum_below n f

pub sum_below_same :
    (n : ℕ) (f g : ℕ → ℕ) → ((i : ℕ) → i < n → f i ≡ g i) → sum_below n f ≡ sum_below n g
unfolding sum_below
sum_below_same zero f g same = refl
sum_below_same (suc n) f g same =
    omega (arith, same n (omega arith), sum_below_same n f g (λ i h. same i (omega arith)))

pub sum_below_change :
    (n i : ℕ) (f g : ℕ → ℕ)
    → i < n
    → ((j : ℕ) → i ≢ j → f j ≡ g j)
    → sum_below n f + g i ≡ sum_below n g + f i
unfolding sum_below
sum_below_change zero i f g h same = absurd (omega arith)
sum_below_change (suc n) i f g h same = elim (Bool-cases (i == n)) [
  | inl last ↦
      let e = (==_iff i n).0 last in
      let rest = sum_below_same n f g (λ j below. same j (λ here. omega (arith, e, here, below))) in
      rw e (omega (arith, rest))
  | inr other ↦
      let ne : i ≢ n = λ e. ground (arith, e) in
      omega (arith, same n ne, sum_below_change n i f g (ground arith) same)
]

pub sum_below_zero : (n : ℕ) (f : ℕ → ℕ) → ((i : ℕ) → i < n → f i ≡ 0) → sum_below n f ≡ 0
unfolding sum_below
sum_below_zero zero f z = refl
sum_below_zero (suc n) f z =
    omega (arith, z n (omega arith), sum_below_zero n f (λ i below. z i (omega arith)))

pub sum_below_le :
    (n : ℕ) (f g : ℕ → ℕ) → ((i : ℕ) → i < n → f i ≤ g i) → sum_below n f ≤ sum_below n g
unfolding sum_below
sum_below_le zero f g le = omega arith
sum_below_le (suc n) f g le =
    omega (arith, le n (omega arith), sum_below_le n f g (λ i below. le i (omega arith)))

pub sum_below_lt :
    (n i : ℕ) (f g : ℕ → ℕ)
    → ((j : ℕ) → j < n → f j ≤ g j)
    → i < n
    → f i < g i
    → sum_below n f < sum_below n g
unfolding sum_below
sum_below_lt zero i f g le below lt = absurd (omega arith)
sum_below_lt (suc n) i f g le below lt = elim (Bool-cases (i == n)) [
  | inl last ↦
      let rest = sum_below_le n f g (λ j h. le j (omega arith)) in
      omega (arith, rest, rw ((==_iff i n).0 last) at lt)
  | inr other ↦
      let ne : i ≢ n = λ e. ground (arith, e) in
      let rest = sum_below_lt n i f g (λ j h. le j (omega arith)) (ground arith) lt in
      omega (arith, rest, le n (omega arith))
]

-- A positive sum has a positive part.
pub sum_below_positive : (n : ℕ) (f : ℕ → ℕ) → 0 < sum_below n f → (i : ℕ) × (i < n) × (0 < f i)
unfolding sum_below
sum_below_positive zero f h = absurd (omega arith)
sum_below_positive (suc n) f h = elim (Bool-cases (f n == 0)) [
  | inr more ↦ (n, omega arith, ground arith)
  | inl none ↦
      let (i, below, positive) = sum_below_positive n f (ground (arith, (==_iff (f n) 0).0 none)) in
      (i, omega arith, positive)
]

module _ (n : ℕ) where
  -- The sum of a function of two numbers below a bound.
  unfoldable pub square_sum : (ℕ → ℕ → ℕ) → ℕ
  square_sum f = sum_below n (λ i. sum_below n (f i))

  pub square_sum_le :
      (f g : ℕ → ℕ → ℕ) → ((i j : ℕ) → i < n → j < n → f i j ≤ g i j) → square_sum f ≤ square_sum g
  unfolding square_sum
  square_sum_le f g le =
      sum_below_le n (λ i. sum_below n (f i)) (λ i. sum_below n (g i))
        (λ i below. sum_below_le n (f i) (g i) (λ j below'. le i j below below'))

  pub square_sum_lt :
      (f g : ℕ → ℕ → ℕ) (i j : ℕ)
      → ((a b : ℕ) → a < n → b < n → f a b ≤ g a b)
      → i < n
      → j < n
      → f i j < g i j
      → square_sum f < square_sum g
  unfolding square_sum
  square_sum_lt f g i j le below below' lt =
      sum_below_lt n i (λ a. sum_below n (f a)) (λ a. sum_below n (g a))
        (λ a h. sum_below_le n (f a) (g a) (λ b h'. le a b h h')) below
        (sum_below_lt n j (f i) (g i) (λ b h. le i b below h) below' lt)

  pub square_sum_positive :
      (f : ℕ → ℕ → ℕ) → 0 < square_sum f → (i : ℕ) × (j : ℕ) × (i < n) × (j < n) × (0 < f i j)
  unfolding square_sum
  square_sum_positive f h =
      let (i, below, positive) = sum_below_positive n (λ a. sum_below n (f a)) h in
      let (j, below', positive') = sum_below_positive n (f i) positive in
      (i, j, below, below', positive')
