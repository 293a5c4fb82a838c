-- ===== src/Sequential/Uncached/Laws.antt =====
-- The uncached sample sort by binary search sorts.
use native.Mathlib.Nat.{mod-eq_of_lt}
use bingmann_sample_sort.Prelude.{
  ℕ, zero, suc, ◌+◌, ◌-◌, ◌*◌, ◌/◌, ◌%◌, ◌^◌, ◌<◌, ◌≡◌, refl, sym, ap, ◌∙◌, Bool, true, false,
  Option, List, [], ◌∷◌, arith, ltb, ltb→ge, ◌==◌, none, Bool-cases, inl, inr, length, ◌!◌, map,
  All, subst,
}
use bingmann_sample_sort.Tools.Strings.{CString, leq_from}
use bingmann_sample_sort.Tools.Keys.{get_char_uint64}
use bingmann_sample_sort.Sequential.Sorted.{Sorts}
use bingmann_sample_sort.Sequential.Radix.Chars.{IsWithin}
use bingmann_sample_sort.Sequential.Radix.Laws.{msd_ci2-Sorts}
use bingmann_sample_sort.Sequential.Classify.{find_bkt_binsearch}
use bingmann_sample_sort.Sequential.SampleSort.{
  sort_by_splitters, sample_sort_small_sort, bkt_of, numsplitters_bsc, preorder_loop,
  tree_builder_preorder,
}
use bingmann_sample_sort.Sequential.SampleSort.Plan.{IsPlan, Falls-le}
use bingmann_sample_sort.Sequential.SampleSort.Samples.{tree_builder_preorder-loop}
use bingmann_sample_sort.Sequential.SampleSort.Laws.{
  samples_of, splitter_of, lcp_of, length-samples_of, bsc-IsPlan, bsc-level, built_lem,
}
use bingmann_sample_sort.Sequential.SampleSort.Original.{binsearch-IsClassifier}
use bingmann_sample_sort.Sequential.Uncached.{sort_by_keys, sample_sort_bs}
use bingmann_sample_sort.Sequential.Uncached.Permute.{permute_keys-permute}

module _ {sp : List ℕ} {find_bkt lcp : ℕ → ℕ} {is_done : ℕ → Bool}
    (plan : IsPlan sp find_bkt lcp is_done) (depth : ℕ) where
  abbrev key_bkt : CString → ℕ
  key_bkt s = find_bkt (get_char_uint64 s depth)

  key_bkt-lt : (s : CString) → key_bkt s < 2 * length sp + 1
  key_bkt-lt s = Falls-le sp _ _ (plan.falls (get_char_uint64 s depth))

  map-key_bkt : (strings : List CString) → map key_bkt strings ≡ map (bkt_of find_bkt depth) strings
  map-key_bkt [] = refl
  map-key_bkt (s ∷ strings) =
      let same : bkt_of find_bkt depth s ≡ key_bkt s =
        mod-eq_of_lt (omega (arith, key_bkt-lt s, plan.few_splitters)) in
      rw (same, map-key_bkt strings) refl

  All-key_bkt : (strings : List CString) → All (λ b. b < 2 * length sp + 1) (map key_bkt strings)
  All-key_bkt [] = tt
  All-key_bkt (s ∷ strings) = (key_bkt-lt s, All-key_bkt strings)

-- With or without the cache, a level does the same.
sort_by_keys-sort_by_splitters :
    (sp splitter_lcp : List ℕ) (find_bkt : ℕ → ℕ)
    → IsPlan sp find_bkt (λ i. splitter_lcp ! i) (λ i. sp ! i % 256 == 0)
    → (sort : List CString → ℕ → Option (List CString)) (strings : List CString) (depth : ℕ)
    → length strings < 2 ^ 64
    → sort_by_keys sort find_bkt sp splitter_lcp strings depth
      ≡ sort_by_splitters sort find_bkt
          (λ i. splitter_lcp ! i)
          (λ i. sp ! i % 256 == 0)
          (length sp)
          strings
          depth
unfolding sort_by_keys sort_by_splitters
sort_by_keys-sort_by_splitters sp splitter_lcp find_bkt plan sort strings depth fits =
    rw
      (
        permute_keys-permute (key_bkt plan depth) (2 * length sp + 1) strings
            (All-key_bkt plan depth strings) fits,
        map-key_bkt plan depth strings,
      )
      refl

module _ (address : List CString → ℕ → ℕ) (limit : ℕ) where
  abbrev bs_splitter : List CString → ℕ → List ℕ
  bs_splitter = splitter_of find_bkt_binsearch binsearch-IsClassifier address limit

  abbrev bs_lcp : List CString → ℕ → List ℕ
  bs_lcp = lcp_of find_bkt_binsearch binsearch-IsClassifier address limit

  -- What a call on many strings does with splitters and their prefixes.
  abbrev bs_level : ℕ → List CString → ℕ → List ℕ × List ℕ → Option (List CString)
  bs_level fuel strings depth built =
      sort_by_keys (sample_sort_bs address fuel) (λ key. find_bkt_binsearch key built.0) built.0
        built.1 strings depth

  abbrev bs_samples : List CString → ℕ → List ℕ
  bs_samples = samples_of find_bkt_binsearch binsearch-IsClassifier address limit

  sample_sort_bs_few :
      (fuel : ℕ) (strings : List CString) (depth : ℕ)
      → ltb (length strings) (32 * 1024) ≡ true
      → sample_sort_bs address (suc fuel) strings depth
        ≡ sample_sort_small_sort (suc fuel) strings depth
  unfolding sample_sort_bs
  sample_sort_bs_few fuel strings depth e =
      let few = sample_sort_small_sort (suc fuel) strings depth in
      subst
        (λ b.
          elim b [
            | true ↦ few
            | false ↦
                bs_level fuel strings depth
                  (preorder_loop numsplitters_bsc none (2 / 2) 2 (bs_samples strings depth))
          ]
          ≡ few)
        (sym e) refl

  sample_sort_bs_many :
      (fuel : ℕ) (strings : List CString) (depth : ℕ)
      → ltb (length strings) (32 * 1024) ≡ false
      → sample_sort_bs address (suc fuel) strings depth
        ≡ bs_level fuel strings depth
            (tree_builder_preorder numsplitters_bsc (bs_samples strings depth))
  unfolding sample_sort_bs
  sample_sort_bs_many fuel strings depth e =
      let many =
        bs_level fuel strings depth
          (preorder_loop numsplitters_bsc none (2 / 2) 2 (bs_samples strings depth)) in
      subst
        (λ b.
          elim b [ true ↦ sample_sort_small_sort (suc fuel) strings depth | false ↦ many ] ≡ many)
        (sym e) refl
      ∙ ap (bs_level fuel strings depth) (
          sym (
            tree_builder_preorder-loop numsplitters_bsc (bs_samples strings depth) (omega arith) (
              length-samples_of find_bkt_binsearch binsearch-IsClassifier address limit strings
                depth)))

  -- `sample_sortBS`, which keeps no bucket numbers, given fewer than 2 ^ 64 strings of
  -- bytes within a limit below 2 ^ 31, returns its strings, none lost, in the order of
  -- the characters from `depth`, below 2 ^ 31, on, whatever its random numbers start from, if the nesting of the
  -- calls may exceed the number of strings and the characters left of the limit together.
  pub sample_sort_bs-Sorts :
      (fuel : ℕ) (strings : List CString) (depth : ℕ)
      → All (IsWithin limit) strings
      → length strings < 2 ^ 64
      → limit < 2 ^ 31
      → depth < 2 ^ 31
      → length strings + (limit - depth) < fuel
      → Sorts (leq_from depth) strings (sample_sort_bs address fuel strings depth)
  sample_sort_bs-Sorts zero strings depth within fits bound low enough = absurd (omega arith)
  sample_sort_bs-Sorts (suc fuel) strings depth within fits bound low enough =
      elim (Bool-cases (ltb (length strings) (32 * 1024))) [
        | inl small ↦ rw (sample_sort_bs_few fuel strings depth small) (
            unfold sample_sort_small_sort in
            msd_ci2-Sorts limit (suc fuel) strings depth within fits bound low (omega arith)
              (omega arith))
        | inr large ↦
            let some_strings : 0 < length strings =
              omega (arith, ltb→ge (length strings) (32 * 1024) large) in
            let plan =
              bsc-IsPlan find_bkt_binsearch binsearch-IsClassifier address limit strings depth
                some_strings within in
            let level =
              bsc-level find_bkt_binsearch binsearch-IsClassifier address limit strings depth
                some_strings within (sample_sort_bs address fuel) fits
                (λ xs d w le less deep.
                  sample_sort_bs-Sorts fuel xs d w (omega arith) bound (omega arith)
                    (omega arith)) in
            let same =
              sort_by_keys-sort_by_splitters (bs_splitter strings depth) (bs_lcp strings depth)
                (λ key. find_bkt_binsearch key (bs_splitter strings depth)) plan
                (sample_sort_bs address fuel) strings depth fits in
            let count =
              (built_lem find_bkt_binsearch binsearch-IsClassifier address limit strings depth
                some_strings within).0 in
            rw (sample_sort_bs_many fuel strings depth large, same, count) level
      ]
