-- ===== src/Parallel/SampleSortStep/Sums.antt =====
-- src/parallel/bingmann-parallel_sample_sort.hpp, `count_finished`: every entry becomes the end of the
-- strings that its part brings to its bucket.
pub mod Rows
use bingmann_sample_sort.Prelude.{
  ℕ, zero, suc, ◌+◌, ◌≡◌, ◌≢◌, ◌<◌, ◌≤◌, refl, sym, ap, ◌∙◌, List, length, set, length-set, ◌!◌,
  set-get_self, set-get_ne, arith, ℕ_discrete,
}
use native.Mathlib.Nat.{add-zero, zero-add}
use bingmann_sample_sort.Prelude.Family.{update, update_at, update_other}
use bingmann_sample_sort.Prelude.Flat.{tally, tally-agree}
use bingmann_sample_sort.Parallel.SampleSortStep.{sum_parts, sum_buckets, count_finished}
use bingmann_sample_sort.Parallel.SampleSortStep.Sums.Rows.{
  length-update, length-sum_parts, sum_parts-passed, sum_parts-other,
}

-- What the buckets below `i`, and in bucket `i` the parts below `p`, have together.
abbrev pub before : (ℕ → ℕ → ℕ) → ℕ → ℕ → ℕ → ℕ
before size parts i p = tally i (λ b. tally parts (size b)) + tally p (size i)

before_next :
    (size : ℕ → ℕ → ℕ) (parts i : ℕ)
    → tally i (λ b. tally parts (size b)) + tally (0 + parts) (size i) ≡ before size parts (suc i) 0
unfolding tally
before_next size parts i = rw (zero-add parts) (omega arith)

module _ (bktnum : ℕ) (size : ℕ → ℕ → ℕ) where
  -- The rows from `p` to `p + k` hold the sizes in bucket `i`.
  AreSizes : ℕ → ℕ → ℕ → (ℕ → List ℕ) → Type 0
  AreSizes k p i bkt =
      (q : ℕ) → p ≤ q → q < p + k → (bkt q ! i ≡ size i q) × (length (bkt q) ≡ bktnum)

  later :
      (k p i v : ℕ) (bkt : ℕ → List ℕ)
      → AreSizes (suc k) p i bkt
      → AreSizes k (suc p) i (update bkt p (set (bkt p) i v))
  unfolding AreSizes
  later k p i v bkt sizes q lo hi =
      let row = sizes q (omega arith) (omega arith) in
      rw (update_other bkt p (set (bkt p) i v) q (λ e. omega (arith, e))) row

  here :
      (p i base sum : ℕ) (bkt : ℕ → List ℕ) (k : ℕ)
      → sum ≡ base + tally p (size i)
      → AreSizes (suc k) p i bkt
      → sum + bkt p ! i ≡ base + tally (suc p) (size i)
  unfolding AreSizes tally
  here p i base sum bkt k e sizes =
      let row = (sizes p (omega arith) (omega arith)).0 in omega (arith, e, row)

  sum_parts-total :
      (k p i base sum : ℕ) (bkt : ℕ → List ℕ)
      → sum ≡ base + tally p (size i)
      → AreSizes k p i bkt
      → (sum_parts k p i sum bkt).0 ≡ base + tally (p + k) (size i)
  unfolding sum_parts
  sum_parts-total zero p i base sum bkt e sizes = rw (add-zero p) e
  sum_parts-total (suc k) p i base sum bkt e sizes =
      let new = sum + bkt p ! i in
      let shift : p + suc k ≡ suc p + k = omega arith in
      rw shift (
        sum_parts-total k (suc p) i base new _ (here p i base sum bkt k e sizes)
          (later k p i new bkt sizes))

  sum_parts-get :
      (k p i base sum : ℕ) (bkt : ℕ → List ℕ)
      → i < bktnum
      → sum ≡ base + tally p (size i)
      → AreSizes k p i bkt
      → (q : ℕ) → p ≤ q
      → q < p + k
      → (sum_parts k p i sum bkt).1 q ! i ≡ base + tally (suc q) (size i)
  unfolding sum_parts AreSizes
  sum_parts-get zero p i base sum bkt lt e sizes q lo hi = absurd (omega arith)
  sum_parts-get (suc k) p i base sum bkt lt e sizes q lo hi =
      let new = sum + bkt p ! i in
      let next = here p i base sum bkt k e sizes in
      elim (ℕ_discrete p q) [
        | yes same ↦
            let inside = (sizes p (omega arith) (omega arith)).1 in
            ap (λ z. z ! i)
              (sum_parts-passed k (suc p) i new _ q (omega arith)
                ∙ update_at bkt p (set (bkt p) i new) q same)
            ∙ set-get_self (bkt p) i new (omega arith)
            ∙ next
            ∙ ap (λ z. base + tally (suc z) (size i)) same
        | no other ↦
            sum_parts-get k (suc p) i base new _ lt next (later k p i new bkt sizes) q (omega arith)
              (omega arith)
      ]

  module _ (parts : ℕ) where
    -- The buckets from `i` on hold their sizes.
    AreCounts : ℕ → ℕ → (ℕ → List ℕ) → Type 0
    AreCounts k i bkt =
        (b q : ℕ)
        → i ≤ b
        → b < i + k
        → q < parts
        → (bkt q ! b ≡ size b q) × (length (bkt q) ≡ bktnum)

    AreCounts-next :
        (k i sum : ℕ) (bkt : ℕ → List ℕ)
        → AreCounts (suc k) i bkt
        → AreCounts k (suc i) (sum_parts parts 0 i sum bkt).1
    unfolding AreCounts
    AreCounts-next k i sum bkt counts b q lo hi lt =
        let row = counts b q (omega arith) (omega arith) lt in
        (
          sum_parts-other parts 0 i sum bkt q b (λ e. omega (arith, e)) ∙ row.0,
          length-sum_parts parts 0 i sum bkt q ∙ row.1,
        )

    AreCounts-sizes :
        (k i : ℕ) (bkt : ℕ → List ℕ) → AreCounts (suc k) i bkt → AreSizes parts 0 i bkt
    unfolding AreCounts AreSizes
    AreCounts-sizes k i bkt counts q lo hi = counts i q (omega arith) (omega arith) (omega arith)

    sum_buckets-other :
        (k i sum : ℕ) (bkt : ℕ → List ℕ) (b q : ℕ)
        → b < i
        → sum_buckets k parts i sum bkt q ! b ≡ bkt q ! b
    unfolding sum_buckets
    sum_buckets-other zero i sum bkt b q lt = refl
    sum_buckets-other (suc k) i sum bkt b q lt =
        sum_buckets-other k (suc i) _ _ b q (omega arith)
        ∙ sum_parts-other parts 0 i sum bkt q b (λ e. omega (arith, e))

    sum_buckets-get :
        (k i sum : ℕ) (bkt : ℕ → List ℕ)
        → i + k ≤ bktnum
        → sum ≡ before size parts i 0
        → AreCounts k i bkt
        → (b q : ℕ) → i ≤ b
        → b < i + k
        → q < parts
        → sum_buckets k parts i sum bkt q ! b ≡ before size parts b (suc q)
    unfolding sum_buckets
    sum_buckets-get zero i sum bkt le e counts b q lo hi lt = absurd (omega arith)
    sum_buckets-get (suc k) i sum bkt le e counts b q lo hi lt =
        let sizes = AreCounts-sizes k i bkt counts in
        elim (ℕ_discrete i b) [
          | yes same ↦
              sum_buckets-other k (suc i) _ _ b q (omega arith)
              ∙ ap (λ z. (sum_parts parts 0 i sum bkt).1 q ! z) (sym same)
              ∙ sum_parts-get parts 0 i (tally i (λ c. tally parts (size c))) sum bkt (omega arith)
                  e sizes q (omega arith) (omega arith)
              ∙ ap (λ z. before size parts z (suc q)) same
          | no other ↦
              let total : (sum_parts parts 0 i sum bkt).0 ≡ before size parts (suc i) 0 =
                sum_parts-total parts 0 i (tally i (λ c. tally parts (size c))) sum bkt e sizes
                ∙ before_next size parts i in
              sum_buckets-get k (suc i) _ _ (omega arith) total (AreCounts-next k i sum bkt counts)
                b q (omega arith) (omega arith) lt
        ]

length-sum_buckets :
    (parts k i sum : ℕ) (bkt : ℕ → List ℕ) (q : ℕ)
    → length (sum_buckets k parts i sum bkt q) ≡ length (bkt q)
unfolding sum_buckets
length-sum_buckets parts zero i sum bkt q = refl
length-sum_buckets parts (suc k) i sum bkt q =
    length-sum_buckets parts k (suc i) _ _ q ∙ length-sum_parts parts 0 i sum bkt q

pub length-count_finished :
    (bktnum parts : ℕ) (bkt : ℕ → List ℕ) (q : ℕ)
    → length (count_finished bktnum parts bkt q) ≡ length (bkt q)
unfolding count_finished
length-count_finished bktnum parts bkt q = length-sum_buckets parts bktnum 0 0 bkt q

pub before-agree :
    (f g : ℕ → ℕ → ℕ) (parts i p : ℕ)
    → ((b q : ℕ) → b ≤ i → q < parts → f b q ≡ g b q)
    → p ≤ parts
    → before f parts i p ≡ before g parts i p
before-agree f g parts i p same le =
    let above =
      tally-agree i (λ b. tally parts (f b)) (λ b. tally parts (g b))
        (λ b lt. tally-agree parts (f b) (g b) (λ q l. same b q (omega arith) l)) in
    let left = tally-agree p (f i) (g i) (λ q l. same i q (omega arith) (omega arith)) in
    omega (arith, above, left)

pub before-suc :
    (size : ℕ → ℕ → ℕ) (parts b p : ℕ)
    → before size parts b (suc p) ≡ before size parts b p + size b p
unfolding tally
before-suc size parts b p = omega arith

-- Every entry is the number of the strings of the smaller buckets, and of those in its own bucket that the
-- parts up to its own bring.
pub count_finished-get :
    (bktnum parts : ℕ) (bkt : ℕ → List ℕ)
    → ((p : ℕ) → p < parts → length (bkt p) ≡ bktnum)
    → (b p : ℕ) → b < bktnum
    → p < parts
    → count_finished bktnum parts bkt p ! b ≡ before (λ c q. bkt q ! c) parts b (suc p)
unfolding count_finished AreCounts tally
count_finished-get bktnum parts bkt lens b p lt in_parts =
    sum_buckets-get bktnum (λ c q. bkt q ! c) parts bktnum 0 0 bkt (omega arith) refl
      (λ c q lo hi l. (refl, lens q l)) b p (omega arith) (omega arith) in_parts
