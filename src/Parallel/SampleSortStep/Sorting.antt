-- ===== src/Parallel/SampleSortStep/Sorting.antt =====
-- src/parallel/bingmann-parallel_sample_sort.hpp: a step sorts, however its jobs are interleaved, if its
-- substeps do.
use mathlib.Core.List.Perm
use bingmann_sample_sort.Prelude.{
  ℕ, suc, ◌+◌, ◌-◌, ◌*◌, ◌%◌, ◌^◌, ◌≤◌, ◌<◌, ◌≡◌, sym, ap, ◌∙◌, Bool, Option, List, [], ◌∷◌, ◌++◌,
  Perm, map, length, length-append, length-map, get_or, ◌!◌, sum, All, arith, subst, dec_lt,
}
use native.Mathlib.Nat.{zero-add}
use bingmann_sample_sort.Prelude.Flat.{flat}
use bingmann_sample_sort.Tools.Strings.{CString, leq_from}
use bingmann_sample_sort.Sequential.Sorted.{Sorts, Sorts-perm, All-perm, length-perm}
use bingmann_sample_sort.Sequential.Radix.Chars.{IsWithin, IsWithin-prop}
use bingmann_sample_sort.Sequential.Buckets.{count_buckets}
use bingmann_sample_sort.Sequential.Buckets.Sizes.{
  start, start-length, sum-count_buckets, length-count_buckets,
}
use bingmann_sample_sort.Sequential.Buckets.Recurse.{recurse_loop}
use bingmann_sample_sort.Sequential.Buckets.Recurse.Laws.{Sliced, recurse_loop-Sorts, get-le-sum}
use bingmann_sample_sort.Sequential.Buckets.Partition.{bktsize_of, bktsize_of-lt}
use bingmann_sample_sort.Sequential.SampleSort.Plan.{IsPlan}
use bingmann_sample_sort.Parallel.SampleSortStep.{Jobs, Reach, start_step}
use bingmann_sample_sort.Parallel.SampleSortStep.Parts.{parts-flat}
use bingmann_sample_sort.Parallel.SampleSortStep.Laws.{
  distributed, parts_in, cut, step_Inv, distribute_lem,
}
use bingmann_sample_sort.Parallel.SampleSortStep.Permuted.{distributed-perm}
use bingmann_sample_sort.Parallel.SampleSortStep.SubSteps.{
  key_bkt, finish_bucket, distribute_finished,
}
use bingmann_sample_sort.Parallel.SampleSortStep.Places.{
  finish_loop-recurse_loop, start-tally, distributed-Sliced, get_or-append_left,
  get_or-append_right,
}
use bingmann_sample_sort.Parallel.SampleSortStep.SubSteps.Laws.{
  in_range, key_bkt-cross, finish_bucket-Sorts,
}

module _ {sp : List ℕ} {find_bkt lcp : ℕ → ℕ} {is_done : ℕ → Bool}
    (plan : IsPlan sp find_bkt lcp is_done) (limit depth threshold : ℕ)
    (strings shadow : List CString) {s : Jobs CString} (within : All (IsWithin limit) strings)
    (same : length shadow ≡ length strings) (fits : length strings < 2 ^ 64)
    (r : Reach
      (parts_in threshold strings)
      (start_step (key_bkt find_bkt depth) (2 * length sp + 1) threshold strings shadow)
      s)
    (z : s.mem.pwork ≡ 0) where
  abbrev cls : CString → ℕ
  cls = key_bkt find_bkt depth

  abbrev bktnum : ℕ
  bktnum = 2 * length sp + 1

  abbrev sizes : List ℕ
  sizes = bktsize_of cls bktnum strings

  small : (xs : List CString) → All (λ b. b < bktnum) (map cls xs)
  small [] = tt
  small (x ∷ xs) = (in_range plan limit depth x, small xs)

  length-sizes : length sizes ≡ bktnum
  length-sizes = length-count_buckets bktnum (map cls strings)

  sum-sizes : sum sizes ≡ length strings
  sum-sizes = sum-count_buckets bktnum (map cls strings) (small strings) ∙ length-map strings cls

  sorted-perm : Perm s.mem.sorted strings
  sorted-perm =
      let (end, starts) =
        distribute_lem cls bktnum threshold strings shadow s (in_range plan limit depth) same fits r
          z in
      let (pos, le, whole) = parts-flat threshold strings in
      let parts = parts_in threshold strings in
      let moved =
        distributed-perm cls bktnum parts (cut threshold strings) (in_range plan limit depth) in
      rw end (subst (Perm (distributed cls bktnum parts (cut threshold strings))) whole moved)

  sorted-Sliced : Sliced cls 0 sizes s.mem.sorted
  sorted-Sliced =
      let (end, starts) =
        distribute_lem cls bktnum threshold strings shadow s (in_range plan limit depth) same fits r
          z in
      let (pos, le, whole) = parts-flat threshold strings in
      let parts = parts_in threshold strings in
      let len : length (distributed cls bktnum parts (cut threshold strings))
          ≡ sum (count_buckets bktnum (map cls (flat parts (cut threshold strings)))) =
        rw whole (sym (ap length end) ∙ length-perm sorted-perm ∙ sym sum-sizes) in
      rw end (rw whole at (distributed-Sliced cls bktnum parts (cut threshold strings) len))

  abbrev bounds : List ℕ
  bounds = s.mem.bkt 0 ++ (length s.mem.sorted ∷ [])

  length-row : length (s.mem.bkt 0) ≡ bktnum
  length-row =
      let (pos, le, whole) = parts-flat threshold strings in
      let inv =
        step_Inv cls bktnum threshold strings shadow (in_range plan limit depth) same fits r in
      inv.indices 0 pos

  bounds-get : (k : ℕ) → k ≤ length sizes → bounds ! k ≡ 0 + start sizes k
  bounds-get k le = elim (dec_lt k bktnum) [
    | yes inside ↦
        let (end, starts) =
          distribute_lem cls bktnum threshold strings shadow s (in_range plan limit depth) same fits
            r z in
        let from = start-tally cls bktnum strings k (omega arith) in
        get_or-append_left (s.mem.bkt 0) (length s.mem.sorted ∷ []) k 0 (rw length-row inside)
        ∙ starts k inside
        ∙ omega (arith, from)
    | no past ↦
        let e : k ≡ length (s.mem.bkt 0) + 0 = omega (arith, length-sizes, length-row, le) in
        let last = length-perm sorted-perm in
        let all : start sizes (length (s.mem.bkt 0) + 0) ≡ sum sizes =
          rw (sym e) (ap (start sizes) (omega (arith, length-sizes, le)) ∙ start-length sizes) in
        rw e (
          get_or-append_right (s.mem.bkt 0) (length s.mem.sorted ∷ []) 0 0
          ∙ omega (arith, last, sum-sizes, all))
  ]

  length-bounds : length bounds ≡ suc (length sizes)
  length-bounds =
      omega
        (arith, length-append (s.mem.bkt 0) (length s.mem.sorted ∷ []), length-row, length-sizes)

  finished-loop :
      (sort : List CString → ℕ → Option (List CString))
      → distribute_finished sort lcp is_done (length sp) depth s
        ≡ recurse_loop (finish_bucket sort lcp is_done (length sp) depth) 0 sizes s.mem.sorted
  unfolding distribute_finished
  finished-loop sort =
      finish_loop-recurse_loop (finish_bucket sort lcp is_done (length sp) depth) s.mem.sorted sizes
        0 0 bounds length-bounds bounds-get (omega (arith, length-perm sorted-perm, sum-sizes))

  step-Sorts :
      (sort : List CString → ℕ → Option (List CString))
      → ((xs : List CString) (d : ℕ)
          → All (IsWithin limit) xs
          → length xs ≤ length strings
          → length xs + (limit - d) < length strings + (limit - depth)
          → Sorts (leq_from d) xs (sort xs d))
      → (q : ℕ) (d : CString) → q < length strings
      → cls (get_or strings q d) % 2 ≡ 1
      → Sorts (leq_from depth) strings (distribute_finished sort lcp is_done (length sp) depth s)
  step-Sorts sort sorts q d inside odd =
      let p = sorted-perm in
      let len_p = length-perm p in
      rw (finished-loop sort) (
        Sorts-perm p (
          recurse_loop-Sorts (leq_from depth) cls (IsWithin limit) (key_bkt-cross plan limit depth)
            (IsWithin-prop limit) 0 sizes (finish_bucket sort lcp is_done (length sp) depth)
            (λ i xs from is wx cx.
              finish_bucket-Sorts plan limit depth (length strings) sort sorts i xs
                (omega (arith, get-le-sum sizes i, sum-sizes))
                (λ even.
                  let lt = bktsize_of-lt cls bktnum strings i q d inside (λ e. omega arith) in
                  omega (arith, lt))
                wx cx)
            0 sizes s.mem.sorted (omega arith) (λ k. ap (◌!◌ sizes) (zero-add k))
            (omega (arith, len_p, sum-sizes))
            (All-perm (IsWithin limit) (IsWithin-prop limit) (Perm.symm p) within) sorted-Sliced))

-- A step of the parallel sample sort sorts its strings from its depth on, none lost, however the jobs that
-- distribute them are interleaved, and for every sequential threshold and shadow array of their number: if the
-- splitters and the classifier are as the builders promise, the bucket of some splitter holds a string, the
-- strings are fewer than 2 ^ 64 and within a limit, and every substep with fewer strings and characters
-- left sorts what it is given from the depth that it is given.
pub parallel_step-Sorts :
    {sp : List ℕ} {find_bkt lcp : ℕ → ℕ} {is_done : ℕ → Bool}
    (plan : IsPlan sp find_bkt lcp is_done) (limit depth threshold : ℕ)
    (strings shadow : List CString) (s : Jobs CString)
    (sort : List CString → ℕ → Option (List CString)) (q : ℕ) (d : CString)
    → All (IsWithin limit) strings
    → length shadow ≡ length strings
    → length strings < 2 ^ 64
    → q < length strings
    → key_bkt find_bkt depth (get_or strings q d) % 2 ≡ 1
    → ((xs : List CString) (e : ℕ)
        → All (IsWithin limit) xs
        → length xs ≤ length strings
        → length xs + (limit - e) < length strings + (limit - depth)
        → Sorts (leq_from e) xs (sort xs e))
    → Reach
        (parts_in threshold strings)
        (start_step (key_bkt find_bkt depth) (2 * length sp + 1) threshold strings shadow)
        s
    → s.mem.pwork ≡ 0
    → Sorts (leq_from depth) strings (distribute_finished sort lcp is_done (length sp) depth s)
parallel_step-Sorts plan limit depth threshold strings shadow s sort q d within same fits inside odd
      sorts r z =
    step-Sorts plan limit depth threshold strings shadow within same fits r z sort sorts q d inside
      odd
