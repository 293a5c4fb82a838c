-- ===== src/Sequential/Buckets/Permute.antt =====
-- The permutation in place puts every string into its bucket and loses none.
use bingmann_sample_sort.Prelude.{
  ℕ, suc, ◌-◌, ◌^◌, ◌≤◌, ◌<◌, ◌≡◌, inr, refl, ◌∙◌, List, arith, length, ◌!◌, sum, count,
  count_outside, Perm, map, length-map, dec_lt, All,
}
use bingmann_sample_sort.Sequential.Buckets.{permute, prefix_sum, count_buckets}
use bingmann_sample_sort.Sequential.Buckets.Sizes.{
  start, start-suc, start_mono, start-le-sum, same_bucket, prefix_sum-IsLast, count_buckets_counts,
  sum-count_buckets, length-prefix_sum, prefix_sum-get,
}
use bingmann_sample_sort.Sequential.Buckets.Partial.{IsPartial}
use bingmann_sample_sort.Sequential.Buckets.Walking.{permute_loop-Permuted}

count_pos : (xs : List ℕ) (p : ℕ) → p < length xs → 0 < count (xs ! p) xs
count_pos xs p h =
    count_outside (xs ! p) xs 0 0 p (omega arith) h (inr (omega arith)) refl
      (λ q lo hi. absurd (omega arith))

-- Once all buckets but the last are done, so is the last.
last_full :
    (sizes : List ℕ) (n i : ℕ) (ks cache index : List ℕ)
    → sum sizes ≡ n
    → n - (prefix_sum sizes).1 ≤ i
    → IsPartial sizes n i ks cache index
    → (c p : ℕ) → start sizes c ≤ p
    → p < start sizes (suc c)
    → ks ! p ≡ c
last_full sizes n i ks cache index total stop v c p lo hi = elim (dec_lt p i) [
  | yes before ↦ v.finished c p before lo hi
  | no after ↦
      let p-in : p < n = omega (arith, start-le-sum sizes (suc c)) in
      let (b, is_last) = prefix_sum-IsLast sizes (omega arith) in
      let k = ks ! p in
      let some_k = count_pos ks p (rw v.length_ks p-in) in
      let low : start sizes b ≤ i = omega (arith, start-suc sizes b, is_last) in
      let c-is : b ≡ c = same_bucket sizes b c p (omega arith) (omega (arith, is_last)) lo hi in
      let k-is : k ≡ b = elim (dec_lt k b) [
        | yes lt ↦ absurd (
            let e = start_mono sizes (suc k) b lt in
            let more =
              count_outside k ks (start sizes k) (start sizes (suc k)) p
                (rw v.length_ks (omega (arith, start-le-sum sizes (suc k)))) (rw v.length_ks p-in)
                (inr (omega arith)) refl (λ q ql qh. v.finished k q (omega arith) ql qh) in
            omega (arith, start-suc sizes k, v.counts k))
        | no ge ↦ elim (dec_lt b k) [
          | yes gt ↦ absurd (omega (arith, v.counts k, is_last.1 k gt))
          | no le ↦ omega arith
        ]
      ] in
      k-is ∙ c-is
]

module _ {ℓ} {A : Type ℓ} (cls : A → ℕ) (bktnum : ℕ) (strings : List A) where
  abbrev sizes_of : List ℕ
  sizes_of = count_buckets bktnum (map cls strings)

  pub initial :
      All (λ b. b < bktnum) (map cls strings)
      → IsPartial sizes_of
          (length strings)
          0
          (map cls strings)
          (map cls strings)
          (prefix_sum sizes_of).0
  initial small = record {
    length_ks = length-map strings cls;
    length_cache = length-map strings cls;
    counts = λ c. count_buckets_counts bktnum (map cls strings) c small;
    cached = λ p lo hi. refl;
    placed = λ c p c-in lo lp hi. absurd (omega (arith, prefix_sum-get sizes_of c c-in));
    finished = λ c p before lo hi. absurd (omega arith);
    index_bounds = λ c c-in h. omega (arith, prefix_sum-get sizes_of c c-in, start-suc sizes_of c);
    length_index = length-prefix_sum sizes_of;
    border = λ c. inr (omega arith);
  }

  -- With bucket numbers in range and fewer than 2 ^ 64 strings, counting, summing and permuting
  -- rearranges the strings so that each bucket's strings fill the
  -- bucket's places.
  pub permute_lem :
      All (λ b. b < bktnum) (map cls strings)
      → length strings < 2 ^ 64
      → Perm (permute sizes_of strings (map cls strings)) strings
        × ((c p : ℕ)
            → start sizes_of c ≤ p
            → p < start sizes_of (suc c)
            → map cls (permute sizes_of strings (map cls strings)) ! p ≡ c)
  unfolding permute
  permute_lem small n-small =
      let total = sum-count_buckets bktnum (map cls strings) small ∙ length-map strings cls in
      permute_loop-Permuted cls sizes_of (length strings) total n-small
        (length strings - (prefix_sum sizes_of).1) (omega arith)
        (λ i ks cache index stop v.
          last_full sizes_of (length strings) i ks cache index total stop v)
        (suc (length strings)) 0 strings (map cls strings) (prefix_sum sizes_of).0 (initial small)
        (omega arith)
