-- ===== src/Parallel/SampleSortStep/Sums/Rows.antt =====
-- src/parallel/bingmann-parallel_sample_sort.hpp, `count_finished`: what the sums over one bucket leave
-- of the index arrays.
use bingmann_sample_sort.Prelude.{
  ℕ, zero, suc, ◌+◌, ◌≡◌, ◌≢◌, ◌<◌, refl, ap, ◌∙◌, List, length, set, length-set, ◌!◌, set-get_ne,
  arith, ℕ_discrete,
}
use bingmann_sample_sort.Prelude.Family.{update, update_at, update_other}
use bingmann_sample_sort.Parallel.SampleSortStep.{sum_parts}

pub length-update :
    (bkt : ℕ → List ℕ) (p i v q : ℕ) → length (update bkt p (set (bkt p) i v) q) ≡ length (bkt q)
length-update bkt p i v q = elim (ℕ_discrete p q) [
  | yes e ↦
      rw (update_at bkt p (set (bkt p) i v) q e)
        (length-set (bkt p) i v ∙ ap (λ z. length (bkt z)) e)
  | no other ↦ ap length (update_other bkt p (set (bkt p) i v) q other)
]

pub length-sum_parts :
    (k p i sum : ℕ) (bkt : ℕ → List ℕ) (q : ℕ)
    → length ((sum_parts k p i sum bkt).1 q) ≡ length (bkt q)
unfolding sum_parts
length-sum_parts zero p i sum bkt q = refl
length-sum_parts (suc k) p i sum bkt q =
    length-sum_parts k (suc p) i (sum + bkt p ! i) _ q ∙ length-update bkt p i (sum + bkt p ! i) q

-- The rows of the parts that the loop has passed stay.
pub sum_parts-passed :
    (k p i sum : ℕ) (bkt : ℕ → List ℕ) (q : ℕ) → q < p → (sum_parts k p i sum bkt).1 q ≡ bkt q
unfolding sum_parts
sum_parts-passed zero p i sum bkt q lt = refl
sum_parts-passed (suc k) p i sum bkt q lt =
    sum_parts-passed k (suc p) i (sum + bkt p ! i) _ q (omega arith)
    ∙ update_other bkt p _ q (λ e. omega (arith, e))

-- The entries of the other buckets stay.
pub sum_parts-other :
    (k p i sum : ℕ) (bkt : ℕ → List ℕ) (q j : ℕ)
    → i ≢ j
    → (sum_parts k p i sum bkt).1 q ! j ≡ bkt q ! j
unfolding sum_parts
sum_parts-other zero p i sum bkt q j ne = refl
sum_parts-other (suc k) p i sum bkt q j ne =
    sum_parts-other k (suc p) i (sum + bkt p ! i) _ q j ne ∙ entry
  where
    entry : update bkt p (set (bkt p) i (sum + bkt p ! i)) q ! j ≡ bkt q ! j
    entry = elim (ℕ_discrete p q) [
      | yes e ↦
          rw (update_at bkt p (set (bkt p) i (sum + bkt p ! i)) q e)
            (set-get_ne (bkt p) i j _ ne ∙ ap (λ z. bkt z ! j) e)
      | no other ↦ ap (λ z. z ! j) (update_other bkt p (set (bkt p) i (sum + bkt p ! i)) q other)
    ]
