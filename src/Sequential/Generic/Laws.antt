-- ===== src/Sequential/Generic/Laws.antt =====
-- src/sequential/bingmann-sample_sort.cpp: the template sorts, whatever the classifier that keeps its
-- promises.
use bingmann_sample_sort.Prelude.{
  ℕ, zero, suc, ◌+◌, ◌-◌, ◌*◌, ◌/◌, ◌%◌, ◌^◌, ◌≤◌, ◌<◌, ◌≡◌, refl, sym, ap, ◌∙◌, true, false, not,
  Option, List, [], ◌∷◌, map, ltb, ltb→ge, ◌==◌, length, get_or, ◌!◌, All, arith, Bool-cases, inl,
  inr, subst,
}
use bingmann_sample_sort.Tools.Strings.{CString, IsBytes, leq_from}
use bingmann_sample_sort.Tools.Keys.{get_uint64}
use bingmann_sample_sort.Tools.Keys.Load.{get_char_uint64-get_uint64}
use bingmann_sample_sort.Tools.KeyLcp.{lcp_key_type}
use bingmann_sample_sort.Sequential.Sorted.{Sorts, All-map}
use bingmann_sample_sort.Sequential.Radix.Chars.{IsWithin}
use bingmann_sample_sort.Sequential.Radix.Laws.{msd_ci2-Sorts}
use bingmann_sample_sort.Sequential.Classify.Rank.{IsAscending, Falls}
use bingmann_sample_sort.Sequential.Buckets.{count_buckets, permute}
use bingmann_sample_sort.Sequential.Buckets.Recurse.{recurse_loop}
use bingmann_sample_sort.Sequential.SampleSort.{
  draw_samples, sort_keys, sort_bucket, sort_by_splitters, sample_sort_small_sort, bkt_of,
}
use bingmann_sample_sort.Sequential.SampleSort.Samples.{
  All-get, sort_keys-All, sort_keys-IsAscending, length-sort_keys, IsSample, draw_samples-IsSample,
  length-draw_samples,
}
use bingmann_sample_sort.Sequential.SampleSort.Plan.{IsPlan, splitter_odd, get_uint64-lt}
use bingmann_sample_sort.Sequential.SampleSort.Level.{sort_by_splitters-Sorts, bkt_of-Falls}
use bingmann_sample_sort.Sequential.SampleSort.Laws.{All-get_or}
use bingmann_sample_sort.Sequential.Trees.Grown.{Among}
use bingmann_sample_sort.Sequential.Generic.{Classify, classify, sample_sort_generic}

module _ {T : Type 0} (c : Classify T) where
  -- What `build` is to make of the sorted samples, and `find_bkt` of a key.
  pub record IsBuilt (samples : List ℕ) : Type 0 where
    pub splitter : List ℕ
    pub count : length splitter ≡ c.numsplitters
    pub asc : IsAscending splitter
    pub among : All (Among samples) splitter
    pub lcp_first : (c.build samples).1 ! 0 % 128 ≡ 0
    pub lcp_next :
        (i : ℕ)
        → suc i < length splitter
        → (c.build samples).1 ! suc i % 128 ≡ lcp_key_type (splitter ! i) (splitter ! suc i)
    pub done_iff :
        (i : ℕ)
        → i < length splitter
        → not ((c.build samples).1 ! i / 128 % 2 == 0) ≡ (splitter ! i % 256 == 0)
    pub finds : (key : ℕ) → Falls splitter key (c.find_bkt (c.build samples).0 key)

  pub record IsClassify : Type 0 where
    pub some_splitter : 0 < c.numsplitters
    pub few_splitters : 2 * c.numsplitters + 1 ≤ 2 ^ 16
    pub key_is : (s : CString) (d : ℕ) → IsBytes s → c.get_key s d ≡ get_uint64 s d
    pub builds :
        (samples : List ℕ)
        → IsAscending samples
        → length samples ≡ 2 * c.numsplitters
        → All (λ k. k < 256 ^ 8) samples
        → IsBuilt samples

  classify_lem :
      (good : IsClassify) (t : T) (strings : List CString) (limit depth : ℕ)
      → All (IsWithin limit) strings
      → classify c t strings depth ≡ map (bkt_of (c.find_bkt t) depth) strings
  unfolding classify
  classify_lem good t [] limit depth w = refl
  classify_lem good t (s ∷ strings) limit depth w =
      rw
        (
          classify_lem good t strings limit depth w.1,
          good.key_is s depth w.0.0,
          get_char_uint64-get_uint64 s depth w.0.0,
        )
        refl

  module _ (good : IsClassify) (address : List CString → ℕ → ℕ) (limit : ℕ) where
    abbrev pub samples_for : List CString → ℕ → List ℕ
    samples_for strings depth =
        sort_keys (draw_samples (2 * c.numsplitters) (address strings depth) strings depth)

    samples_for-IsSample :
        (strings : List CString) (depth : ℕ)
        → 0 < length strings
        → All (IsSample strings depth) (samples_for strings depth)
    samples_for-IsSample strings depth pos =
        sort_keys-All (IsSample strings depth)
          (draw_samples (2 * c.numsplitters) (address strings depth) strings depth)
          (draw_samples-IsSample (2 * c.numsplitters) (address strings depth) strings depth pos)

    IsSample-lt :
        (strings : List CString) (depth k : ℕ)
        → All (IsWithin limit) strings
        → IsSample strings depth k
        → k < 256 ^ 8
    IsSample-lt strings depth k within (q, inside, e) =
        let s = get_or strings q [] in
        let w = All-get_or (IsWithin limit) strings q [] within inside in
        omega (arith, e, get_char_uint64-get_uint64 s depth w.0, get_uint64-lt depth s w.0)

    module _ (strings : List CString) (depth : ℕ) (pos : 0 < length strings)
        (within : All (IsWithin limit) strings) where
      pub built : IsBuilt (samples_for strings depth)
      built =
          good.builds (samples_for strings depth)
            (sort_keys-IsAscending
              (draw_samples (2 * c.numsplitters) (address strings depth) strings depth))
            (length-sort_keys
                (draw_samples (2 * c.numsplitters) (address strings depth) strings depth)
              ∙ length-draw_samples (2 * c.numsplitters) (address strings depth) strings depth)
            (All-map (IsSample strings depth) (λ k. k < 256 ^ 8)
              (λ k h. IsSample-lt strings depth k within h) (samples_for strings depth)
              (samples_for-IsSample strings depth pos))

      splitter-IsSample :
          (i : ℕ) → i < length built.splitter → IsSample strings depth (built.splitter ! i)
      splitter-IsSample i h =
          let (j, lt, e) =
            All-get (Among (samples_for strings depth)) built.splitter i built.among h in
          subst (IsSample strings depth) (sym e) (
            All-get (IsSample strings depth) (samples_for strings depth) j
              (samples_for-IsSample strings depth pos) lt)

      abbrev pub lcp_for : ℕ → ℕ
      lcp_for i = (c.build (samples_for strings depth)).1 ! i

      abbrev pub find_for : ℕ → ℕ
      find_for = c.find_bkt (c.build (samples_for strings depth)).0

      pub generic-IsPlan :
          IsPlan built.splitter find_for
            (λ i. lcp_for i % 128)
            (λ i. not (lcp_for i / 128 % 2 == 0))
      generic-IsPlan = record {
        asc = built.asc;
        some_splitter = omega (arith, built.count, good.some_splitter);
        few_splitters = omega (arith, built.count, good.few_splitters);
        keys = λ i h. IsSample-lt strings depth (built.splitter ! i) within (splitter-IsSample i h);
        falls = built.finds;
        lcp_first = built.lcp_first;
        lcp_next = built.lcp_next;
        done_iff = built.done_iff;
      }

      -- A splitter is the key of a string, whose bucket is the splitter's.
      pub some_odd :
          (q : ℕ) × (q < length strings) × (bkt_of find_for depth (get_or strings q []) % 2 ≡ 1)
      some_odd =
          let first : 0 < length built.splitter = omega (arith, built.count, good.some_splitter) in
          let (q, inside, e) = splitter-IsSample 0 first in
          let s = get_or strings q [] in
          let w = All-get_or (IsWithin limit) strings q [] within inside in
          let odd =
            splitter_odd built.splitter (get_uint64 s depth) _ 0 built.asc
              (bkt_of-Falls generic-IsPlan limit depth s w.0) first
              (e ∙ get_char_uint64-get_uint64 s depth w.0) in
          (q, inside, odd)

      abbrev level : (List CString → ℕ → Option (List CString)) → ℕ → Option (List CString)
      level sort n =
          sort_by_splitters sort find_for (λ i. lcp_for i % 128)
            (λ i. not (lcp_for i / 128 % 2 == 0)) n strings depth

      level-Sorts :
          (sort : List CString → ℕ → Option (List CString))
          → length strings < 2 ^ 64
          → ((xs : List CString) (d : ℕ)
              → All (IsWithin limit) xs
              → length xs ≤ length strings
              → length xs + (limit - d) < length strings + (limit - depth)
              → d ≤ depth + (limit - depth)
              → Sorts (leq_from d) xs (sort xs d))
          → Sorts (leq_from depth) strings (level sort c.numsplitters)
      level-Sorts sort fits sorts =
          let (q, inside, odd) = some_odd in
          subst (λ n. Sorts (leq_from depth) strings (level sort n)) built.count
            (sort_by_splitters-Sorts generic-IsPlan limit depth (length strings) sort sorts strings
              q refl fits within inside [] odd)

      abbrev by_cache : (List CString → ℕ → Option (List CString)) → List ℕ → Option (List CString)
      by_cache sort bktcache =
          let bktsize = count_buckets (2 * c.numsplitters + 1) bktcache in
          recurse_loop
            (sort_bucket sort (λ i. lcp_for i % 128) (λ i. not (lcp_for i / 128 % 2 == 0))
              c.numsplitters depth)
            0 bktsize (permute bktsize strings bktcache)

      many_strings :
          (fuel : ℕ)
          → ltb (length strings) (32 * 1024) ≡ false
          → sample_sort_generic c address (suc fuel) strings depth
            ≡ level (sample_sort_generic c address fuel) c.numsplitters
      unfolding sample_sort_generic sort_by_splitters
      many_strings fuel e =
          let t = (c.build (samples_for strings depth)).0 in
          let large = by_cache (sample_sort_generic c address fuel) (classify c t strings depth) in
          subst
            (λ b.
              elim b [ true ↦ sample_sort_small_sort (suc fuel) strings depth | false ↦ large ]
              ≡ large)
            (sym e) refl
          ∙ ap (by_cache (sample_sort_generic c address fuel))
              (classify_lem good t strings limit depth within)

    few_strings :
        (fuel : ℕ) (strings : List CString) (depth : ℕ)
        → ltb (length strings) (32 * 1024) ≡ true
        → sample_sort_generic c address (suc fuel) strings depth
          ≡ sample_sort_small_sort (suc fuel) strings depth
    unfolding sample_sort_generic
    few_strings fuel strings depth e = ground (arith, e)

    -- `sample_sort_generic` over any classifier that keeps its promises, given fewer than 2 ^ 64
    -- strings of bytes within a limit below 2 ^ 31, returns its strings, none lost, in the order of the
    -- characters from `depth`, below 2 ^ 31, on, whatever its random numbers start from, if its calls may nest
    -- deeper than the number of strings and the characters left of the limit together.
    pub sample_sort_generic-Sorts :
        (fuel : ℕ) (strings : List CString) (depth : ℕ)
        → All (IsWithin limit) strings
        → length strings < 2 ^ 64
        → limit < 2 ^ 31
        → depth < 2 ^ 31
        → length strings + (limit - depth) < fuel
        → Sorts (leq_from depth) strings (sample_sort_generic c address fuel strings depth)
    sample_sort_generic-Sorts zero strings depth within fits bound low enough = absurd (omega arith)
    sample_sort_generic-Sorts (suc fuel) strings depth within fits bound low enough =
        elim (Bool-cases (ltb (length strings) (32 * 1024))) [
          | inl small ↦ rw (few_strings fuel strings depth small) (
              unfold sample_sort_small_sort in
              msd_ci2-Sorts limit (suc fuel) strings depth within fits bound low (omega arith)
                (omega arith))
          | inr large ↦
              let pos : 0 < length strings =
                omega (arith, ltb→ge (length strings) (32 * 1024) large) in
              rw (many_strings strings depth pos within fuel large) (
                level-Sorts strings depth pos within (sample_sort_generic c address fuel) fits
                  (λ xs d w le less deep.
                    sample_sort_generic-Sorts fuel xs d w (omega arith) bound (omega arith)
                      (omega arith)))
        ]
