-- ===== src/Parallel/SampleSortStep/Start.antt =====
-- src/parallel/bingmann-parallel_sample_sort.hpp, `count_finished`: the state in which the jobs that
-- distribute the strings begin.
use bingmann_sample_sort.Prelude.{
  ℕ, suc, ◌+◌, ◌≡◌, ◌<◌, ◌≤◌, refl, sym, ◌∙◌, List, [], ◌∷◌, map, length, take, drop, length-take,
  length-drop, length-map, ◌!◌, All, arith,
}
use bingmann_sample_sort.Prelude.Family.{total-ones}
use bingmann_sample_sort.Prelude.Flat.{
  tally, tally-agree, tally_exchange, flat, flat-agree, flat-slices, take-length,
}
use bingmann_sample_sort.Sequential.Buckets.Sizes.{length-count_buckets, count_buckets-get}
use bingmann_sample_sort.Parallel.SampleSortStep.{
  classify_part, count_part, count_finished, start_distribute,
}
use bingmann_sample_sort.Parallel.SampleSortStep.Sums.{
  before, before-agree, before-suc, count_finished-get, length-count_finished,
}
use bingmann_sample_sort.Parallel.SampleSortStep.Regions.{
  length-of_bucket, tally-of_bucket, tally-suc-le, IsFilled-start,
}
use bingmann_sample_sort.Parallel.SampleSortStep.Moves.{busy, size, Inv}

module _ {ℓ} {A : Type ℓ} where
  -- Two cuts of a list, for buckets and for parts in a bucket.
  piece : ℕ → ℕ → List A → List A
  piece from len xs = take len (drop from xs)

  length-piece :
      (from len : ℕ) (xs : List A) → from + len ≤ length xs → length (piece from len xs) ≡ len
  unfolding piece
  length-piece from len xs le = omega (arith, length-take len (drop from xs), length-drop from xs)

  module _ (find_bkt : A → ℕ) (bktnum parts : ℕ) (strs : ℕ → List A) where
    work : ℕ → List (ℕ × A)
    work p = classify_part find_bkt (strs p)

    known :
        ((s : A) → find_bkt s < bktnum)
        → (ss : List A) → All (λ c. c.0 < bktnum) (classify_part find_bkt ss)
    unfolding classify_part
    known in_range [] = _
    known in_range (s ∷ ss) = (in_range s, known in_range ss)

    -- The sizes of the regions add up to the number of strings.
    all_sizes :
        ((s : A) → find_bkt s < bktnum)
        → tally bktnum (λ b. tally parts (size bktnum parts work b))
          ≡ tally parts (λ p. length (strs p))
    unfolding work classify_part
    all_sizes in_range =
        tally_exchange bktnum parts (size bktnum parts work)
        ∙ tally-agree parts _ _ (λ p lt.
          tally-of_bucket bktnum (work p) (known in_range (strs p))
          ∙ length-map (strs p) (λ s. (find_bkt s, s)))

    count-size :
        (b p : ℕ) → b < bktnum → count_part bktnum (work p) ! b ≡ size bktnum parts work b p
    unfolding count_part
    count-size b p lt =
        count_buckets-get bktnum (map (λ c. c.0) (work p)) b lt ∙ sym (length-of_bucket b (work p))

    length-count : (q : ℕ) → length (count_part bktnum (work q)) ≡ bktnum
    unfolding count_part
    length-count q = length-count_buckets bktnum (map (λ c. c.0) (work q))

    -- The index of a region stands at its end.
    index_start :
        (b p : ℕ)
        → b < bktnum
        → p < parts
        → count_finished bktnum parts (λ q. count_part bktnum (work q)) p ! b
          ≡ before (size bktnum parts work) parts b p + size bktnum parts work b p
    index_start b p lt_b lt_p =
        count_finished-get bktnum parts (λ q. count_part bktnum (work q)) (λ q lt. length-count q) b
          p lt_b lt_p
        ∙ before-agree _ _ parts b (suc p) (λ c q le lt. count-size c q (omega arith)) (omega arith)
        ∙ before-suc (size bktnum parts work) parts b p

    length-index :
        (p : ℕ) → length (count_finished bktnum parts (λ q. count_part bktnum (work q)) p) ≡ bktnum
    length-index p =
        length-count_finished bktnum parts (λ q. count_part bktnum (work q)) p ∙ length-count p

    wide : ℕ → ℕ
    wide b = tally parts (size bktnum parts work b)

    module _ (shadow : List A) where
      bucket : ℕ → List A
      bucket b = piece (tally b wide) (wide b) shadow

      region : ℕ → ℕ → List A
      region b p =
          piece (tally p (size bktnum parts work b)) (size bktnum parts work b p) (bucket b)

      module _ (fits : length shadow ≡ tally bktnum wide) where
        length-bucket : (b : ℕ) → b < bktnum → length (bucket b) ≡ wide b
        unfolding bucket
        length-bucket b lt =
            let le = tally-suc-le b bktnum wide lt in
            length-piece (tally b wide) (wide b) shadow (omega (arith, le, fits))

        length-region :
            (b p : ℕ) → b < bktnum → p < parts → length (region b p) ≡ size bktnum parts work b p
        unfolding region wide
        length-region b p lt_b lt_p =
            let le = tally-suc-le p parts (size bktnum parts work b) lt_p in
            let row = length-bucket b lt_b in
            length-piece (tally p (size bktnum parts work b)) (size bktnum parts work b p)
              (bucket b) (omega (arith, le, row))

        flat-region : shadow ≡ flat bktnum (λ b. flat parts (region b))
        unfolding region bucket piece wide
        flat-region = sym (
            flat-agree bktnum _ bucket (λ b lt.
              flat-slices parts (size bktnum parts work b) (bucket b)
              ∙ take-length _ (bucket b) (length-bucket b lt))
            ∙ flat-slices bktnum wide shadow
            ∙ take-length _ shadow fits)

    pub Inv-start :
        ((s : A) → find_bkt s < bktnum)
        → (shadow : List A) → length shadow ≡ tally parts (λ p. length (strs p))
        → let s = start_distribute find_bkt bktnum parts strs shadow in
          Inv bktnum parts (λ p. classify_part find_bkt (strs p)) s.mem s.phase
    unfolding start_distribute work wide
    Inv-start in_range shadow e =
        let fits : length shadow ≡ tally bktnum wide = e ∙ sym (all_sizes in_range) in
        record {
          counted = sym (total-ones busy parts _ (λ i lt. refl));
          rows = region shadow;
          whole = flat-region shadow fits;
          filled = λ b p lt_b lt_p.
              IsFilled-start b (before (size bktnum parts work) parts b p) (region shadow b p) _
                (work p) (length-region shadow fits b p lt_b lt_p) (index_start b p lt_b lt_p);
          indices = λ p lt. length-index p;
          known = λ p lt. known in_range (strs p);
        }

    pub before-le :
        ((s : A) → find_bkt s < bktnum)
        → (b p : ℕ) → b < bktnum
        → p < parts
        → before (size bktnum parts (λ q. classify_part find_bkt (strs q))) parts b p
            + size bktnum parts (λ q. classify_part find_bkt (strs q)) b p
          ≤ tally parts (λ q. length (strs q))
    unfolding work wide
    before-le in_range b p lt_b lt_p =
        let inner = tally-suc-le p parts (size bktnum parts work b) lt_p in
        let outer = tally-suc-le b bktnum wide lt_b in
        let all = all_sizes in_range in omega (arith, inner, outer, all)
