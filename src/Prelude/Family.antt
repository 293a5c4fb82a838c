-- ===== src/Prelude/Family.antt =====
-- Values indexed by thread: a write to one thread's value, and weights added up over the threads.
use Prim.Native.Nat.{ℕ, zero, suc, ◌+◌, ◌≤◌, ◌<◌}
use mathlib.Core.Path.{◌≡◌, refl}
use mathlib.Core.Logic.{◌≢◌}
use native.Mathlib.Decide.{dec_lt, ℕ_discrete}
use native.Mathlib.Omega.{arith}
use bingmann_sample_sort.Prelude.Tests.{◌==◌, if◌then◌else◌}

abbrev pub update {ℓ} : {A : Type ℓ} → (ℕ → A) → ℕ → A → ℕ → A
update values thread new j = if thread == j then new else values j

pub update_at {ℓ} : {A : Type ℓ} (f : ℕ → A) (i : ℕ) (v : A) (j : ℕ) → i ≡ j → update f i v j ≡ v
update_at f i v j e = ground arith

pub update_other {ℓ} :
    {A : Type ℓ} (f : ℕ → A) (i : ℕ) (v : A) (j : ℕ) → i ≢ j → update f i v j ≡ f j
update_other f i v j ne = ground arith

module _ {ℓ} {A : Type ℓ} (w : A → ℕ) where
  -- The weights of the first `threads` values.
  unfoldable pub total : ℕ → (ℕ → A) → ℕ
  total zero values = 0
  total (suc threads) values = w (values threads) + total threads values

  pub total-agree :
      (n : ℕ) (f g : ℕ → A) → ((j : ℕ) → j < n → w (f j) ≡ w (g j)) → total n f ≡ total n g
  unfolding total
  total-agree zero f g same = refl
  total-agree (suc n) f g same =
      let top = same n (omega arith) in
      omega (arith, top, total-agree n f g (λ j lt. same j (omega arith)))

  -- A write exchanges the weight of one value.
  pub total-update :
      (threads : ℕ) (values : ℕ → A) (j : ℕ) (new : A)
      → j < threads
      → total threads (update values j new) + w (values j) ≡ total threads values + w new
  unfolding total
  total-update zero values j new inside = absurd (omega arith)
  total-update (suc k) values j new inside = elim (ℕ_discrete j k) [
    | no other ↦ let rest = total-update k values j new (omega arith) in ground arith
    | yes top ↦
        let rest = total-agree k (update values j new) values (λ m below. ground arith) in
        ground arith
  ]

  -- One value weighs at most as much as all.
  pub total-member : (n : ℕ) (f : ℕ → A) (i : ℕ) → i < n → w (f i) ≤ total n f
  unfolding total
  total-member zero f i h = absurd (omega arith)
  total-member (suc n) f i h = elim (dec_lt i n) [
    | yes below ↦ omega (arith, total-member n f i below)
    | no here ↦ ground arith
  ]

  -- A sum that is not zero has a value with a weight.
  pub total-pos : (n : ℕ) (f : ℕ → A) → 0 < total n f → (i : ℕ) × (i < n) × (0 < w (f i))
  unfolding total
  total-pos zero f h = absurd (omega arith)
  total-pos (suc n) f h = elim (dec_lt 0 (w (f n))) [
    | yes here ↦ (n, omega arith, here)
    | no none ↦ let (i, lt, pos) = total-pos n f (omega arith) in (i, omega arith, pos)
  ]

  -- Weights of at most 1 that add up to the number of values are all 1.
  pub total-full :
      ((a : A) → w a ≤ 1)
      → (n : ℕ) (f : ℕ → A) → (total n f ≤ n) × (total n f ≡ n → (i : ℕ) → i < n → w (f i) ≡ 1)
  unfolding total
  total-full small zero f = (omega arith, λ e i h. absurd (omega arith))
  total-full small (suc n) f =
      let (le, full) = total-full small n f in
      let top = small (f n) in
      (
        omega arith,
        λ e i h. elim (dec_lt i n) [
          | yes below ↦ full (omega arith) i below
          | no here ↦ ground arith
        ],
      )

  pub total-zero : (n : ℕ) (f : ℕ → A) → ((i : ℕ) → i < n → w (f i) ≡ 0) → total n f ≡ 0
  unfolding total
  total-zero zero f h = refl
  total-zero (suc n) f h =
      let here = h n (omega arith) in omega (arith, total-zero n f (λ i lt. h i (omega arith)))

  pub total-ones : (n : ℕ) (f : ℕ → A) → ((i : ℕ) → i < n → w (f i) ≡ 1) → total n f ≡ n
  unfolding total
  total-ones zero f h = refl
  total-ones (suc n) f h =
      let here = h n (omega arith) in omega (arith, total-ones n f (λ i lt. h i (omega arith)))
