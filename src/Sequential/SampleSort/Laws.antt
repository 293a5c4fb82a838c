-- ===== src/Sequential/SampleSort/Laws.antt =====
-- Sample sort sorts; the nesting of its calls is bounded by the strings and their characters.
use bingmann_sample_sort.Prelude.{
  ℕ, zero, suc, ◌+◌, ◌-◌, ◌*◌, ◌%◌, ◌^◌, ◌≤◌, ◌<◌, ◌≡◌, refl, sym, ◌∙◌, true, false, Option, List,
  [], ◌∷◌, ltb, ltb→ge, ◌==◌, length, get_or, ◌!◌, All, arith, Bool-cases, inl, inr, subst,
}
use bingmann_sample_sort.Tools.Strings.{CString, leq_from}
use bingmann_sample_sort.Tools.Keys.{get_uint64}
use bingmann_sample_sort.Tools.Keys.Load.{get_char_uint64-get_uint64}
use bingmann_sample_sort.Tools.KeyLcp.{lcp_key_type}
use bingmann_sample_sort.Sequential.Sorted.{Sorts}
use bingmann_sample_sort.Sequential.Radix.Chars.{IsWithin}
use bingmann_sample_sort.Sequential.Radix.Laws.{msd_ci2-Sorts}
use bingmann_sample_sort.Sequential.Classify.Rank.{IsAscending, Falls}
use bingmann_sample_sort.Sequential.SampleSort.{
  draw_samples, sort_keys, tree_builder_preorder, sort_by_splitters, sample_sort_small_sort,
  numsplitters_bsc, sample_sort_bsc,
}
use bingmann_sample_sort.Sequential.SampleSort.Samples.{
  All-get, sort_keys-All, sort_keys-IsAscending, length-sort_keys, IsSample, draw_samples-IsSample,
  length-draw_samples, tree_builder_preorder_lem,
}
use bingmann_sample_sort.Sequential.SampleSort.Plan.{IsPlan, splitter_odd, get_uint64-lt}
use bingmann_sample_sort.Sequential.SampleSort.Level.{sort_by_splitters-Sorts, bkt_of-Falls}

pub All-get_or :
    (P : CString → Type 0) (xs : List CString) (q : ℕ) (d : CString)
    → All P xs
    → q < length xs
    → P (get_or xs q d)
All-get_or P [] q d h k = absurd (omega arith)
All-get_or P (x ∷ xs) zero d h k = h.0
All-get_or P (x ∷ xs) (suc q) d h k = All-get_or P xs q d h.1 (omega arith)

-- What `sample_sortBSC` asks of the classifier that it is a template over.
pub record IsClassifier (find_bkt : ℕ → List ℕ → ℕ) : Type 0 where
  pub finds :
      (key : ℕ) (sp : List ℕ)
      → IsAscending sp
      → 0 < length sp
      → length sp < 2 ^ 31
      → Falls sp key (find_bkt key sp)

module _ (find_bkt : ℕ → List ℕ → ℕ) (classifier : IsClassifier find_bkt)
    (address : List CString → ℕ → ℕ) (limit : ℕ) where
  abbrev pub samples_of : List CString → ℕ → List ℕ
  samples_of strings depth =
      sort_keys (draw_samples (2 * numsplitters_bsc) (address strings depth) strings depth)

  abbrev pub splitter_of : List CString → ℕ → List ℕ
  splitter_of strings depth = (tree_builder_preorder numsplitters_bsc (samples_of strings depth)).0

  abbrev pub lcp_of : List CString → ℕ → List ℕ
  lcp_of strings depth = (tree_builder_preorder numsplitters_bsc (samples_of strings depth)).1

  pub length-samples_of :
      (strings : List CString) (depth : ℕ)
      → length (samples_of strings depth) ≡ 2 * numsplitters_bsc
  length-samples_of strings depth =
      length-sort_keys (draw_samples (2 * numsplitters_bsc) (address strings depth) strings depth)
      ∙ length-draw_samples (2 * numsplitters_bsc) (address strings depth) strings depth

  samples_of-IsSample :
      (strings : List CString) (depth i : ℕ)
      → 0 < length strings
      → i < 2 * numsplitters_bsc
      → IsSample strings depth (samples_of strings depth ! i)
  samples_of-IsSample strings depth i pos h =
      All-get (IsSample strings depth) (samples_of strings depth) i
        (sort_keys-All (IsSample strings depth)
          (draw_samples (2 * numsplitters_bsc) (address strings depth) strings depth)
          (draw_samples-IsSample (2 * numsplitters_bsc) (address strings depth) strings depth pos))
        (omega (arith, length-samples_of strings depth))

  module _ (strings : List CString) (depth : ℕ) (pos : 0 < length strings)
      (within : All (IsWithin limit) strings) where
    pub built_lem :
        let (splitter, splitter_lcp) =
          tree_builder_preorder numsplitters_bsc (samples_of strings depth) in
        (length splitter ≡ numsplitters_bsc)
        × IsAscending splitter
        × ((i : ℕ) → i < numsplitters_bsc → splitter ! i ≡ samples_of strings depth ! (1 + i * 2))
        × (splitter_lcp ! 0 ≡ 0)
        × ((i : ℕ)
            → suc i < numsplitters_bsc
            → splitter_lcp ! suc i ≡ lcp_key_type (splitter ! i) (splitter ! suc i))
        × (splitter_lcp ! numsplitters_bsc ≡ 0)
    built_lem =
        tree_builder_preorder_lem numsplitters_bsc (samples_of strings depth)
          (sort_keys-IsAscending
            (draw_samples (2 * numsplitters_bsc) (address strings depth) strings depth))
          (omega arith) (length-samples_of strings depth)

    -- Every splitter is the key of one of the strings.
    splitter-key :
        (i : ℕ) → i < numsplitters_bsc → IsSample strings depth (splitter_of strings depth ! i)
    splitter-key i h =
        subst (IsSample strings depth) (sym (built_lem.2 i h))
          (samples_of-IsSample strings depth (1 + i * 2) pos (omega arith))

    splitter-lt : (i : ℕ) → i < numsplitters_bsc → splitter_of strings depth ! i < 256 ^ 8
    splitter-lt i h =
        let (q, inside, e) = splitter-key i h in
        let s = get_or strings q [] in
        let w = All-get_or (IsWithin limit) strings q [] within inside in
        omega (arith, e, get_char_uint64-get_uint64 s depth w.0, get_uint64-lt depth s w.0)

    pub bsc-IsPlan :
        IsPlan
          (splitter_of strings depth)
          (λ key. find_bkt key (splitter_of strings depth))
          (λ i. lcp_of strings depth ! i)
          (λ i. splitter_of strings depth ! i % 256 == 0)
    bsc-IsPlan = record {
      asc = built_lem.1;
      some_splitter = omega (arith, built_lem.0);
      few_splitters = omega (arith, built_lem.0);
      keys = λ i h. splitter-lt i (omega (arith, built_lem.0));
      falls = λ key.
          classifier.finds key (splitter_of strings depth) built_lem.1 (omega (arith, built_lem.0))
            (omega (arith, built_lem.0));
      lcp_first = built_lem.3;
      lcp_next = λ i h. built_lem.4 i (omega (arith, built_lem.0));
      done_iff = λ i h. refl;
    }

    pub bsc-level :
        (sort : List CString → ℕ → Option (List CString))
        → length strings < 2 ^ 64
        → ((xs : List CString) (d : ℕ)
            → All (IsWithin limit) xs
            → length xs ≤ length strings
            → length xs + (limit - d) < length strings + (limit - depth)
            → d ≤ depth + (limit - depth)
            → Sorts (leq_from d) xs (sort xs d))
        → Sorts (leq_from depth) strings (
            sort_by_splitters sort
              (λ key. find_bkt key (splitter_of strings depth))
              (λ i. lcp_of strings depth ! i)
              (λ i. splitter_of strings depth ! i % 256 == 0)
              numsplitters_bsc
              strings
              depth)
    bsc-level sort fits sorts =
        let (q, inside, e) = splitter-key 0 (omega arith) in
        let s = get_or strings q [] in
        let w = All-get_or (IsWithin limit) strings q [] within inside in
        let odd =
          splitter_odd (splitter_of strings depth) (get_uint64 s depth) _ 0 built_lem.1
            (bkt_of-Falls bsc-IsPlan limit depth s w.0) (omega (arith, built_lem.0))
            (e ∙ get_char_uint64-get_uint64 s depth w.0) in
        subst
          (λ n. Sorts (leq_from depth) strings (
            sort_by_splitters sort (λ key. find_bkt key (splitter_of strings depth))
              (λ i. lcp_of strings depth ! i) (λ i. splitter_of strings depth ! i % 256 == 0) n
              strings depth))
          built_lem.0
          (sort_by_splitters-Sorts bsc-IsPlan limit depth (length strings) sort sorts strings q refl
            fits within inside [] odd)

  sample_sort_bsc_few :
      (fuel : ℕ) (strings : List CString) (depth : ℕ)
      → ltb (length strings) (32 * 1024) ≡ true
      → sample_sort_bsc find_bkt address (suc fuel) strings depth
        ≡ sample_sort_small_sort (suc fuel) strings depth
  unfolding sample_sort_bsc
  sample_sort_bsc_few fuel strings depth e = ground (arith, e)

  sample_sort_bsc_many :
      (fuel : ℕ) (strings : List CString) (depth : ℕ)
      → ltb (length strings) (32 * 1024) ≡ false
      → sample_sort_bsc find_bkt address (suc fuel) strings depth
        ≡ sort_by_splitters
            (sample_sort_bsc find_bkt address fuel)
            (λ key. find_bkt key (splitter_of strings depth))
            (λ i. lcp_of strings depth ! i)
            (λ i. splitter_of strings depth ! i % 256 == 0)
            numsplitters_bsc
            strings
            depth
  unfolding sample_sort_bsc
  sample_sort_bsc_many fuel strings depth e =
      let large =
        sort_by_splitters (sample_sort_bsc find_bkt address fuel)
          (λ key. find_bkt key (splitter_of strings depth)) (λ i. lcp_of strings depth ! i)
          (λ i. splitter_of strings depth ! i % 256 == 0) numsplitters_bsc strings depth in
      subst
        (λ b.
          elim b [ true ↦ sample_sort_small_sort (suc fuel) strings depth | false ↦ large ] ≡ large)
        (sym e) refl

  -- `sample_sortBSC`, given fewer than 2 ^ 64 strings of bytes within a limit below 2 ^ 31,
  -- returns its strings, none lost, in the order of the characters from `depth`, below 2 ^ 31, on,
  -- for every classifier that finds where a key belongs and every start of the random numbers, if
  -- the nesting of the calls may exceed the number of strings and the characters left of the limit together.
  pub sample_sort_bsc-Sorts :
      (fuel : ℕ) (strings : List CString) (depth : ℕ)
      → All (IsWithin limit) strings
      → length strings < 2 ^ 64
      → limit < 2 ^ 31
      → depth < 2 ^ 31
      → length strings + (limit - depth) < fuel
      → Sorts (leq_from depth) strings (sample_sort_bsc find_bkt address fuel strings depth)
  sample_sort_bsc-Sorts zero strings depth within fits bound low enough = absurd (omega arith)
  sample_sort_bsc-Sorts (suc fuel) strings depth within fits bound low enough =
      elim (Bool-cases (ltb (length strings) (32 * 1024))) [
        | inl small ↦ rw (sample_sort_bsc_few fuel strings depth small) (
            unfold sample_sort_small_sort in
            msd_ci2-Sorts limit (suc fuel) strings depth within fits bound low (omega arith)
              (omega arith))
        | inr large ↦ rw (sample_sort_bsc_many fuel strings depth large) (
            bsc-level strings depth (omega (arith, ltb→ge (length strings) (32 * 1024) large))
              within (sample_sort_bsc find_bkt address fuel) fits
              (λ xs d w le less deep.
                sample_sort_bsc-Sorts fuel xs d w (omega arith) bound (omega arith) (omega arith)))
      ]
