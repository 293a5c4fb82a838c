-- ===== src/Parallel/SampleSortStep/Laws.antt =====
-- src/parallel/bingmann-parallel_sample_sort.hpp, SampleSortStep: what the shadow array holds when the
-- last DistributeJob is done.
use bingmann_sample_sort.Prelude.{
  ℕ, zero, suc, ◌+◌, ◌^◌, ◌≡◌, ◌<◌, refl, sym, ap, subst, ◌∙◌, List, [], ◌∷◌, ◌++◌, ◌==◌,
  if◌then◌else◌, length, ◌!◌, arith,
}
use bingmann_sample_sort.Prelude.Family.{total, total-member}
use bingmann_sample_sort.Prelude.Flat.{tally, tally-agree, flat, flat-agree, length-flat}
use bingmann_sample_sort.Prelude.Reversed.{rev_onto}
use bingmann_sample_sort.Parallel.SampleSortStep.{
  Distributing, moving, finished, Jobs, Reach, parts_of, psize_of, part, classify_part, start_step,
}
use bingmann_sample_sort.Parallel.SampleSortStep.Parts.{parts-flat}
use bingmann_sample_sort.Parallel.SampleSortStep.Sums.{before}
use bingmann_sample_sort.Parallel.SampleSortStep.Regions.{of_bucket, IsFilled, IsFilled-end}
use bingmann_sample_sort.Parallel.SampleSortStep.Moves.{rest, busy, size, Inv, Reach-Inv}
use bingmann_sample_sort.Parallel.SampleSortStep.Start.{Inv-start, before-le}

module _ {ℓ} {A : Type ℓ} where
  -- The strings that the classifier puts into bucket `b`, in order.
  unfoldable pub bucket_strings : (A → ℕ) → ℕ → List A → List A
  bucket_strings find_bkt b [] = []
  bucket_strings find_bkt b (s ∷ ss) =
      let more = bucket_strings find_bkt b ss in if find_bkt s == b then s ∷ more else more

  of_bucket-classify_part :
      (find_bkt : A → ℕ) (b : ℕ) (ss : List A)
      → of_bucket b (classify_part find_bkt ss) ≡ bucket_strings find_bkt b ss
  unfolding of_bucket classify_part bucket_strings
  of_bucket-classify_part find_bkt b [] = refl
  of_bucket-classify_part find_bkt b (s ∷ ss) =
      rw (sym (of_bucket-classify_part find_bkt b ss)) refl

  length-bucket_strings :
      (find_bkt : A → ℕ) (b : ℕ) (xs ys : List A)
      → length (bucket_strings find_bkt b (xs ++ ys))
        ≡ length (bucket_strings find_bkt b xs) + length (bucket_strings find_bkt b ys)
  unfolding bucket_strings
  length-bucket_strings find_bkt b [] ys = omega arith
  length-bucket_strings find_bkt b (x ∷ xs) ys =
      ground (arith, length-bucket_strings find_bkt b xs ys)

  tally-bucket_strings :
      (find_bkt : A → ℕ) (b n : ℕ) (strs : ℕ → List A)
      → tally n (λ p. length (bucket_strings find_bkt b (strs p)))
        ≡ length (bucket_strings find_bkt b (flat n strs))
  unfolding tally flat bucket_strings
  tally-bucket_strings find_bkt b zero strs = refl
  tally-bucket_strings find_bkt b (suc n) strs = omega (
    arith,
    tally-bucket_strings find_bkt b n strs,
    length-bucket_strings find_bkt b (flat n strs) (strs n),
  )

  not_busy : (ph : Distributing A) → busy ph ≡ 0 → rest ph ≡ []
  not_busy (moving todo) e = absurd (omega arith)
  not_busy finished e = refl

  -- Once the count of the jobs is zero no job has a string left.
  all_done :
      (parts pwork : ℕ) (phase : ℕ → Distributing A)
      → pwork ≡ total busy parts phase
      → pwork ≡ 0
      → (p : ℕ) → p < parts
      → rest (phase p) ≡ []
  all_done parts pwork phase e z p lt =
      let member = total-member busy parts phase p lt in
      not_busy (phase p) (omega (arith, e, z, member))

  -- What the DistributeJobs give, bucket by bucket and in each bucket part by part.
  abbrev pub distributed : (A → ℕ) → ℕ → ℕ → (ℕ → List A) → List A
  distributed find_bkt bktnum parts strs =
      flat bktnum (λ b. flat parts (λ p. rev_onto (bucket_strings find_bkt b (strs p)) []))

  module _ (find_bkt : A → ℕ) (bktnum parts : ℕ) (strs : ℕ → List A)
      (in_range : (x : A) → find_bkt x < bktnum) (some : 0 < parts) {s : Jobs A}
      (inv : Inv bktnum parts (λ p. classify_part find_bkt (strs p)) s.mem s.phase)
      (z : s.mem.pwork ≡ 0) where
    region_end :
        (b p : ℕ)
        → b < bktnum
        → p < parts
        → (inv.rows b p ≡ rev_onto (bucket_strings find_bkt b (strs p)) [])
          × (s.mem.bkt p ! b
              ≡ before (size bktnum parts (λ q. classify_part find_bkt (strs q))) parts b p)
    region_end b p lt_b lt_p =
        let all = all_done parts s.mem.pwork s.phase inv.counted z p lt_p in
        let region =
          subst
            (λ todo.
              IsFilled b
                (before (size bktnum parts (λ q. classify_part find_bkt (strs q))) parts b p)
                (inv.rows b p) (s.mem.bkt p ! b) todo (classify_part find_bkt (strs p)))
            all (inv.filled b p lt_b lt_p) in
        let both =
          IsFilled-end b _ (inv.rows b p) (s.mem.bkt p ! b) (classify_part find_bkt (strs p))
            region in
        (both.0 ∙ ap (λ xs. rev_onto xs []) (of_bucket-classify_part find_bkt b (strs p)), both.1)

    sorted_end : s.mem.sorted ≡ distributed find_bkt bktnum parts strs
    sorted_end =
        inv.whole
        ∙ flat-agree bktnum _ _ (λ b lt. flat-agree parts _ _ (λ p l. (region_end b p lt l).0))

    bucket_start :
        (b : ℕ)
        → b < bktnum
        → s.mem.bkt 0 ! b ≡ tally b (λ c. length (bucket_strings find_bkt c (flat parts strs)))
    unfolding tally
    bucket_start b lt =
        let above = tally-agree b _ _ (λ c l.
          tally-agree parts _ _ (λ p k. ap length (of_bucket-classify_part find_bkt c (strs p)))
          ∙ tally-bucket_strings find_bkt c parts strs) in
        (region_end b 0 lt some).1 ∙ omega (arith, above)

-- The number of the parts, and the parts, of an array of strings.
abbrev pub parts_in {ℓ} : {A : Type ℓ} → ℕ → List A → ℕ
parts_in threshold strings = parts_of (length strings) threshold

abbrev pub cut {ℓ} : {A : Type ℓ} → ℕ → List A → ℕ → List A
cut threshold strings p = part (psize_of (length strings) (parts_in threshold strings)) strings p

module _ {ℓ} {A : Type ℓ} where
  pub part_lengths :
      (threshold : ℕ) (strings : List A)
      → length strings ≡ tally (parts_in threshold strings) (λ p. length (cut threshold strings p))
  part_lengths threshold strings =
      let (some, le, whole) = parts-flat threshold strings in
      ap length (sym whole) ∙ length-flat (parts_in threshold strings) (cut threshold strings)

module _ {ℓ} {A : Type ℓ} (find_bkt : A → ℕ) (bktnum threshold : ℕ) (strings shadow : List A)
    (in_range : (x : A) → find_bkt x < bktnum) (same : length shadow ≡ length strings)
    (few : length strings < 2 ^ 64) where
  parts : ℕ
  parts = parts_in threshold strings

  strs : ℕ → List A
  strs p = cut threshold strings p

  -- The invariant holds in every state that the step reaches.
  pub step_Inv :
      {s : Jobs A}
      → Reach (parts_in threshold strings) (start_step find_bkt bktnum threshold strings shadow) s
      → Inv bktnum
          (parts_in threshold strings)
          (λ p. classify_part find_bkt (cut threshold strings p))
          s.mem
          s.phase
  unfolding start_step parts strs
  step_Inv r =
      let (some, le, whole) = parts-flat threshold strings in
      Reach-Inv bktnum parts (λ p. classify_part find_bkt (strs p)) (omega (arith, le))
        (λ b p lt_b lt_p.
          let le_all = before-le find_bkt bktnum parts strs in_range b p lt_b lt_p in
          omega (arith, le_all, part_lengths threshold strings, few))
        (Inv-start find_bkt bktnum parts strs in_range shadow
          (same ∙ part_lengths threshold strings))
        r

-- However the DistributeJobs of one step are interleaved: when `pwork` is zero, the shadow array, which had
-- room for all strings and may have held anything, holds the strings bucket by bucket, in each bucket part
-- by part, and those that one part brings to a bucket the other way round than they stood; and `bkt[0][b]` is where bucket `b` starts.
-- This holds for every classifier into `bktnum` buckets, every sequential threshold and fewer than 2 ^ 64 strings.
pub distribute_lem {ℓ} :
    {A : Type ℓ} (find_bkt : A → ℕ) (bktnum threshold : ℕ) (strings shadow : List A) (s : Jobs A)
    → ((x : A) → find_bkt x < bktnum)
    → length shadow ≡ length strings
    → length strings < 2 ^ 64
    → Reach (parts_in threshold strings) (start_step find_bkt bktnum threshold strings shadow) s
    → s.mem.pwork ≡ 0
    → (s.mem.sorted
        ≡ distributed find_bkt bktnum (parts_in threshold strings) (cut threshold strings))
      × ((b : ℕ)
          → b < bktnum
          → s.mem.bkt 0 ! b ≡ tally b (λ c. length (bucket_strings find_bkt c strings)))
unfolding tally
distribute_lem find_bkt bktnum threshold strings shadow s in_range same few r z =
    let (some, le, whole) = parts-flat threshold strings in
    let inv = step_Inv find_bkt bktnum threshold strings shadow in_range same few r in
    (
      sorted_end find_bkt bktnum (parts_in threshold strings) (cut threshold strings) in_range some
          inv z,
      λ b lt. rw whole at (
          bucket_start find_bkt bktnum (parts_in threshold strings) (cut threshold strings) in_range
            some inv z b lt),
    )
