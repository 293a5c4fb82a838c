-- ===== src/Sequential/Radix/Laws.antt =====
-- Radix sort sorts, and one level of calls per character is enough.
use mathlib.Core.List.Perm
use native.Mathlib.Nat.{ℕ_set}
use bingmann_sample_sort.Prelude.{
  ℕ, zero, suc, ◌+◌, ◌^◌, ◌≤◌, ◌<◌, ◌≡◌, refl, ap, ◌∙◌, true, false, Option, some, List, [], ◌∷◌,
  map, ltb, length, ◌!◌, take, drop, tail, arith, All, subst, Bool-cases, inl, inr, if_intro,
  ltb→ge, sum, length-drop, take-append-drop,
}
use bingmann_sample_sort.Tools.Strings.{
  CString, IsBytes, leq_from, leq_scan, head_char, get_chars, IsBytes-drop,
}
use bingmann_sample_sort.Tools.Keys.{get_char_uint8}
use bingmann_sample_sort.Tools.Keys.Load.{head_char-lt}
use bingmann_sample_sort.Sequential.Sorted.{IsSortedBy, Sorts, Sorts-perm, length-perm, All-perm}
use bingmann_sample_sort.Sequential.Inssort.{inssort}
use bingmann_sample_sort.Sequential.Inssort.Laws.{inssort-Sorts}
use bingmann_sample_sort.Sequential.Buckets.Partition.{bktsize_of, permuted, permuted-Sliced}
use bingmann_sample_sort.Sequential.Buckets.Recurse.{join, recurse_loop}
use bingmann_sample_sort.Sequential.Buckets.Recurse.Laws.{
  Sliced, Sliced-later, recurse_loop-Sorts, join-Sorts, Sorts-agree, All-take, All-drop, get-le-sum,
}
use bingmann_sample_sort.Sequential.Radix.{char_at, msd_ci2_run, msd_bucket, msd_ci2}
use bingmann_sample_sort.Sequential.Radix.Chars.{
  IsWithin, IsWithin-prop, char_at-less, char_at-same, char_at-length, one_plus,
}

module _ (limit : ℕ) where
  char_small : (depth : ℕ) (s : CString) → IsBytes s → char_at depth s < 256
  unfolding get_char_uint8
  char_small depth s b = head_char-lt (get_chars s depth) (IsBytes-drop depth s b)

  chars_small :
      (depth : ℕ) (strings : List CString)
      → All (IsWithin limit) strings
      → All (λ b. b < 256) (map (char_at depth) strings)
  chars_small depth [] h = tt
  chars_small depth (s ∷ strings) (h, hs) = (char_small depth s h.0, chars_small depth strings hs)

  -- A bucket that is sorted from the next character on is sorted.
  deeper :
      (depth i : ℕ) (xs : List CString) (r : Option (List CString))
      → All (λ x. char_at depth x ≡ suc i) xs
      → Sorts (leq_from (depth + 1)) xs r
      → Sorts (leq_from depth) xs r
  deeper depth i xs r same =
      Sorts-agree (leq_from (depth + 1)) (leq_from depth) (λ x. char_at depth x ≡ suc i)
        (λ x. ℕ_set _ _) (λ x y hx hy e. char_at-same depth i x y hx hy ∙ e) xs r same

  -- One string, or none, is sorted; so are strings that all end.
  few : (depth : ℕ) (xs : List CString) → length xs ≤ 1 → Sorts (leq_from depth) xs (some xs)
  few depth [] h = ([], refl, tt, Perm.rfl)
  few depth (x ∷ []) h = (x ∷ [], refl, (tt, tt), Perm.rfl)
  few depth (x ∷ y ∷ xs) h = absurd (omega arith)

  scan_end : (s t : CString) → head_char s ≡ 0 → head_char t ≡ 0 → leq_scan s t ≡ true
  unfolding leq_scan
  scan_end [] [] h k = ground arith
  scan_end [] (e ∷ t) h k = ground arith
  scan_end (c ∷ s) [] h k = ground arith
  scan_end (c ∷ s) (e ∷ t) h k = ground arith

  below_ended :
      (depth : ℕ) (x : CString) (ys : List CString)
      → char_at depth x ≡ 0
      → All (λ y. char_at depth y ≡ 0) ys
      → All (λ y. leq_from depth x y ≡ true) ys
  unfolding leq_from get_char_uint8
  below_ended depth x [] z k = tt
  below_ended depth x (y ∷ ys) z k =
      (scan_end (get_chars x depth) (get_chars y depth) z k.0, below_ended depth x ys z k.1)

  ended-IsSortedBy :
      (depth : ℕ) (xs : List CString)
      → All (λ x. char_at depth x ≡ 0) xs
      → IsSortedBy (leq_from depth) xs
  ended-IsSortedBy depth [] k = tt
  ended-IsSortedBy depth (x ∷ xs) k =
      (below_ended depth x xs k.0 k.1, ended-IsSortedBy depth xs k.1)

  module _ (depth : ℕ) (strings : List CString) (sort : List CString → ℕ → Option (List CString))
      (within : All (IsWithin limit) strings) (fits : length strings < 2 ^ 64)
      (sorts : (xs : List CString)
        → All (IsWithin limit) xs
        → length xs ≤ length strings
        → depth < limit
        → Sorts (leq_from (depth + 1)) xs (sort xs (depth + 1))) where
    body-Sorts :
        (i : ℕ) (xs : List CString)
        → length xs ≤ length strings
        → All (IsWithin limit) xs
        → All (λ x. char_at depth x ≡ suc i) xs
        → Sorts (leq_from depth) xs (msd_bucket sort depth (suc i) (length xs) xs)
    unfolding msd_bucket
    body-Sorts i [] le w c = few depth [] (omega arith)
    body-Sorts i (x ∷ xs) le w c =
        if_intro (Sorts (leq_from depth) (x ∷ xs)) (ltb 1 (length (x ∷ xs)))
          (sort (x ∷ xs) (depth + 1)) _
          (λ many.
            deeper depth i (x ∷ xs) (sort (x ∷ xs) (depth + 1)) c
              (sorts (x ∷ xs) w le (omega (arith, char_at-length depth i x c.0, w.0.1))))
          (λ single. few depth (x ∷ xs) (ltb→ge 1 (length (x ∷ xs)) single))

    -- One level: the strings that end, then the buckets of the other characters.
    level-Sorts :
        (sizes : List ℕ) (done : List CString)
        → All (IsWithin limit) done
        → sum sizes ≤ length strings
        → length done ≡ sum sizes
        → Sliced (char_at depth) 0 sizes done
        → Sorts (leq_from depth) done (
            join
              (some (take (sizes ! 0) done))
              (recurse_loop (msd_bucket sort depth) 1 (tail sizes) (drop (sizes ! 0) done)))
    unfolding recurse_loop join
    level-Sorts [] [] w le len sl = ([], refl, tt, Perm.rfl)
    level-Sorts [] (x ∷ xs) w le len sl = absurd (omega arith)
    level-Sorts (size ∷ sizes) done w le len (here, there) =
        let front = take size done in
        let behind = drop size done in
        let rest =
          recurse_loop-Sorts (leq_from depth) (char_at depth) (IsWithin limit)
            (λ x y hx hy. char_at-less depth x y) (IsWithin-prop limit) 1 (size ∷ sizes)
            (msd_bucket sort depth) bucket 1 sizes behind (omega arith)
            (λ k. ap (◌!◌ (size ∷ sizes)) (one_plus k)) (omega (arith, length-drop size done))
            (All-drop (IsWithin limit) size done w) there in
        subst
          (λ l.
            Sorts (leq_from depth) l
              (join (some front) (recurse_loop (msd_bucket sort depth) 1 sizes behind)))
          (take-append-drop size done)
          (join-Sorts (leq_from depth) (char_at depth) (IsWithin limit)
            (λ x y hx hy. char_at-less depth x y) (IsWithin-prop limit) 0 front behind (some front)
            (recurse_loop (msd_bucket sort depth) 1 sizes behind)
            (All-take (IsWithin limit) size done w) (All-drop (IsWithin limit) size done w) here
            (Sliced-later (char_at depth) 1 sizes behind there)
            (front, refl, ended-IsSortedBy depth front here, Perm.rfl) rest)
      where
        bucket :
            (i : ℕ) (xs : List CString)
            → 1 ≤ i
            → (size ∷ sizes) ! i ≡ length xs
            → All (IsWithin limit) xs
            → All (λ x. char_at depth x ≡ i) xs
            → Sorts (leq_from depth) xs (msd_bucket sort depth i (length xs) xs)
        bucket zero xs from is wx cx = absurd (omega arith)
        bucket (suc i) xs from is wx cx =
            body-Sorts i xs (omega (arith, get-le-sum (size ∷ sizes) (suc i))) wx cx

  msd_ci2_few :
      (fuel : ℕ) (strings : List CString) (depth : ℕ)
      → ltb (length strings) 32 ≡ true
      → msd_ci2 (suc fuel) strings depth ≡ inssort strings (length strings) depth
  unfolding msd_ci2
  msd_ci2_few fuel strings depth e = ground (arith, e)

  msd_ci2_many :
      (fuel : ℕ) (strings : List CString) (depth : ℕ)
      → ltb (length strings) 32 ≡ false
      → msd_ci2 (suc fuel) strings depth
        ≡ join
            (some (
              take
                (bktsize_of (char_at depth) 256 strings ! 0)
                (permuted (char_at depth) 256 strings)))
            (recurse_loop
              (msd_bucket (msd_ci2 fuel) depth)
              1
              (tail (bktsize_of (char_at depth) 256 strings))
              (drop
                (bktsize_of (char_at depth) 256 strings ! 0)
                (permuted (char_at depth) 256 strings)))
  unfolding msd_ci2 msd_ci2_run
  msd_ci2_many fuel strings depth e = ground (arith, e)

  -- `msd_CI2` sorts fewer than 2 ^ 64 strings of bytes within a limit below 2 ^ 31 by the characters
  -- from a `depth` below 2 ^ 31 on and loses none, if at least one call is allowed and the calls nest deep enough to pass the
  -- limit: one call per character is enough.
  pub msd_ci2-Sorts :
      (fuel : ℕ) (strings : List CString) (depth : ℕ)
      → All (IsWithin limit) strings
      → length strings < 2 ^ 64
      → limit < 2 ^ 31
      → depth < 2 ^ 31
      → 0 < fuel
      → limit < depth + fuel
      → Sorts (leq_from depth) strings (msd_ci2 fuel strings depth)
  msd_ci2-Sorts zero strings depth within fits bound low pos enough = absurd (omega arith)
  msd_ci2-Sorts (suc fuel) strings depth within fits bound low pos enough =
      elim (Bool-cases (ltb (length strings) 32)) [
        | inl small ↦ rw (msd_ci2_few fuel strings depth small) (
            let few : length strings < 2 ^ 31 = ground (arith, small) in
            inssort-Sorts strings depth few low)
        | inr large ↦
            let (p, len, slices) =
              permuted-Sliced (char_at depth) 256 strings (chars_small depth strings within) fits in
            rw (msd_ci2_many fuel strings depth large) (
              Sorts-perm p (
                level-Sorts depth strings (msd_ci2 fuel) within fits
                  (λ xs w le deep.
                    msd_ci2-Sorts fuel xs (depth + 1) w (omega arith) bound (omega arith)
                      (omega arith) (omega arith))
                  (bktsize_of (char_at depth) 256 strings) (permuted (char_at depth) 256 strings)
                  (All-perm (IsWithin limit) (IsWithin-prop limit) (Perm.symm p) within)
                  (omega (arith, len, length-perm p)) len slices))
      ]
