-- ===== src/Parallel/SampleSortStep/SubSteps/Laws.antt =====
-- src/parallel/bingmann-parallel_sample_sort.hpp, `distribute_finished`: each bucket is sorted if its
-- substep sorts.
use bingmann_sample_sort.Prelude.{
  ℕ, ◌+◌, ◌-◌, ◌*◌, ◌%◌, ◌≤◌, ◌<◌, ◌≡◌, refl, sym, ◌∙◌, Bool, true, false, Option, List, [], ◌∷◌,
  leb, ltb, length, All, arith, subst, dec_lt,
}
use bingmann_sample_sort.Tools.Strings.{CString, IsBytes, leq_from}
use bingmann_sample_sort.Tools.Keys.{get_uint64}
use bingmann_sample_sort.Tools.Keys.Load.{get_char_uint64-get_uint64}
use bingmann_sample_sort.Sequential.Sorted.{Sorts}
use bingmann_sample_sort.Sequential.Radix.Chars.{IsWithin}
use bingmann_sample_sort.Sequential.SampleSort.{bkt_of, sort_bucket}
use bingmann_sample_sort.Sequential.SampleSort.Plan.{IsPlan, Falls-le, few}
use bingmann_sample_sort.Sequential.SampleSort.Level.{bkt_of-cross, sort_bucket-Sorts}
use bingmann_sample_sort.Parallel.SampleSortStep.SubSteps.{key_bkt, finish_bucket}

-- A bucket of two strings or more goes the way of the sequential sorters.
finish_bucket-sort_bucket :
    (sort : List CString → ℕ → Option (List CString)) (lcp : ℕ → ℕ) (is_done : ℕ → Bool)
    (n depth i : ℕ) (size : ℕ) (xs : List CString)
    → 1 < size
    → finish_bucket sort lcp is_done n depth i size xs
      ≡ sort_bucket sort lcp is_done n depth i size xs
unfolding finish_bucket sort_bucket
finish_bucket-sort_bucket sort lcp is_done n depth i size xs many =
    let one : leb size 1 ≡ false = ground arith in
    let two : ltb 1 size ≡ true = ground arith in
    let some_left : ltb 0 size ≡ true = ground arith in rw (one, two, some_left) refl

pub key_bkt-bkt_of :
    (find_bkt : ℕ → ℕ) (depth : ℕ) (x : CString)
    → IsBytes x
    → key_bkt find_bkt depth x ≡ bkt_of find_bkt depth x
unfolding key_bkt
key_bkt-bkt_of find_bkt depth x h = rw (get_char_uint64-get_uint64 x depth h) refl

as_bkt_of :
    (find_bkt : ℕ → ℕ) (limit depth i : ℕ) (xs : List CString)
    → All (IsWithin limit) xs
    → All (λ x. key_bkt find_bkt depth x ≡ i) xs
    → All (λ x. bkt_of find_bkt depth x ≡ i) xs
as_bkt_of find_bkt limit depth i [] w c = tt
as_bkt_of find_bkt limit depth i (x ∷ xs) w c =
    (sym (key_bkt-bkt_of find_bkt depth x w.0.0) ∙ c.0, as_bkt_of find_bkt limit depth i xs w.1 c.1)

module _ {sp : List ℕ} {find_bkt lcp : ℕ → ℕ} {is_done : ℕ → Bool}
    (plan : IsPlan sp find_bkt lcp is_done) (limit depth : ℕ) where
  pub in_range : (x : CString) → key_bkt find_bkt depth x < 2 * length sp + 1
  unfolding key_bkt
  in_range x =
      let key = get_uint64 x depth in
      let le = Falls-le sp key (find_bkt key) (plan.falls key) in omega (arith, le)

  pub key_bkt-cross :
      (x y : CString)
      → IsWithin limit x
      → IsWithin limit y
      → key_bkt find_bkt depth x < key_bkt find_bkt depth y
      → leq_from depth x y ≡ true
  key_bkt-cross x y hx hy lt =
      bkt_of-cross plan limit depth x y hx hy
        (rw (key_bkt-bkt_of find_bkt depth x hx.0, key_bkt-bkt_of find_bkt depth y hy.0) at lt)

  module _ (n : ℕ) (sort : List CString → ℕ → Option (List CString))
      (sorts : (xs : List CString) (d : ℕ)
        → All (IsWithin limit) xs
        → length xs ≤ n
        → length xs + (limit - d) < n + (limit - depth)
        → Sorts (leq_from d) xs (sort xs d)) where
    pub finish_bucket-Sorts :
        (i : ℕ) (xs : List CString)
        → length xs ≤ n
        → (i % 2 ≡ 0 → length xs < n)
        → All (IsWithin limit) xs
        → All (λ x. key_bkt find_bkt depth x ≡ i) xs
        → Sorts
            (leq_from depth)
            xs
            (finish_bucket sort lcp is_done (length sp) depth i (length xs) xs)
    unfolding finish_bucket
    finish_bucket-Sorts i xs le even w c = elim (dec_lt 1 (length xs)) [
      | yes many ↦
          subst (Sorts (leq_from depth) xs)
            (sym
              (finish_bucket-sort_bucket sort lcp is_done (length sp) depth i (length xs) xs many))
            (sort_bucket-Sorts plan limit depth n sort (λ ys d w le less deep. sorts ys d w le less)
              i xs le even w (as_bkt_of find_bkt limit depth i xs w c))
      | no small ↦
          let one : leb (length xs) 1 ≡ true = ground arith in
          rw one (few (leq_from depth) xs (omega arith))
    ]
