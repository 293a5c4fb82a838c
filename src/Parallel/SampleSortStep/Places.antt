-- ===== src/Parallel/SampleSortStep/Places.antt =====
-- src/parallel/bingmann-parallel_sample_sort.hpp: the buckets of the distributed strings are slices of
-- the array, at the places that `bkt[0]` gives.
use native.Mathlib.Nat.{zero-add}
use bingmann_sample_sort.Prelude.{
  ℕ, zero, suc, ◌+◌, ◌-◌, ◌≡◌, ◌<◌, ◌≤◌, refl, sym, ap, ◌∙◌, Option, List, [], ◌∷◌, ◌++◌, map, ◌==◌,
  length, drop, drop-drop, get_or, ◌!◌, sum, count, All, arith, dec_lt, ℕ_discrete, if_intro,
}
use bingmann_sample_sort.Prelude.Flat.{tally, tally-agree, flat, length-flat}
use bingmann_sample_sort.Tools.Strings.{CString}
use bingmann_sample_sort.Sequential.Buckets.{count_buckets}
use bingmann_sample_sort.Sequential.Buckets.Sizes.{
  start, start-suc, count_buckets-get, get_above, length-count_buckets,
}
use bingmann_sample_sort.Sequential.Buckets.Recurse.{recurse_loop}
use bingmann_sample_sort.Sequential.Buckets.Recurse.Laws.{Sliced, places-Sliced}
use bingmann_sample_sort.Sequential.Sorted.{All-append, length-perm}
use bingmann_sample_sort.Prelude.Reversed.{rev_onto}
use bingmann_sample_sort.Parallel.SampleSortStep.Permuted.{brought-perm}
use bingmann_sample_sort.Parallel.SampleSortStep.Regions.{tally-suc-le}
use bingmann_sample_sort.Parallel.SampleSortStep.Laws.{bucket_strings, distributed}
use bingmann_sample_sort.Parallel.SampleSortStep.SubSteps.{finish_loop}

drop_past {ℓ} : {A : Type ℓ} (n : ℕ) (xs : List A) → length xs ≤ n → drop n xs ≡ []
drop_past zero [] le = refl
drop_past zero (x ∷ xs) le = absurd (omega arith)
drop_past (suc n) [] le = refl
drop_past (suc n) (x ∷ xs) le = drop_past n xs (omega arith)

-- Boundaries at the sums of the sizes make the loop the one of the sequential sorters.
pub finish_loop-recurse_loop :
    (finish : ℕ → ℕ → List CString → Option (List CString)) (sorted : List CString) (sizes : List ℕ)
    (i base : ℕ) (bkt : List ℕ)
    → length bkt ≡ suc (length sizes)
    → ((k : ℕ) → k ≤ length sizes → bkt ! k ≡ base + start sizes k)
    → length sorted ≡ base + sum sizes
    → finish_loop finish i bkt sorted ≡ recurse_loop finish i sizes (drop base sorted)
unfolding finish_loop recurse_loop
finish_loop-recurse_loop finish sorted sizes i base [] len at whole = absurd (omega arith)
finish_loop-recurse_loop finish sorted [] i base (b ∷ []) len at whole =
    let none = drop_past base sorted (omega (arith, whole)) in rw none refl
finish_loop-recurse_loop finish sorted [] i base (b ∷ b' ∷ bkt) len at whole = absurd (omega arith)
finish_loop-recurse_loop finish sorted (s ∷ sizes) i base (b ∷ []) len at whole =
    absurd (omega arith)
finish_loop-recurse_loop finish sorted (s ∷ sizes) i base (b ∷ b' ∷ bkt) len at whole =
    let first : b ≡ base = at 0 (omega arith) ∙ omega arith in
    let second : b' ≡ base + s = at 1 (omega arith) ∙ omega arith in
    let size : b' - b ≡ s = omega (arith, first, second) in
    let rest =
      finish_loop-recurse_loop finish sorted sizes (suc i) (base + s) (b' ∷ bkt) (omega arith)
        (λ k le. at (suc k) (omega arith) ∙ omega arith) (omega arith) in
    rw (size, first, rest, sym (drop-drop base s sorted)) refl

module _ {ℓ} {A : Type ℓ} where
  pub get_or-append_left :
      (xs ys : List A) (k : ℕ) (d : A) → k < length xs → get_or (xs ++ ys) k d ≡ get_or xs k d
  get_or-append_left [] ys k d h = absurd (omega arith)
  get_or-append_left (x ∷ xs) ys zero d h = refl
  get_or-append_left (x ∷ xs) ys (suc k) d h = get_or-append_left xs ys k d (omega arith)

  pub get_or-append_right :
      (xs ys : List A) (k : ℕ) (d : A) → get_or (xs ++ ys) (length xs + k) d ≡ get_or ys k d
  get_or-append_right [] ys k d = rw zero-add refl
  get_or-append_right (x ∷ xs) ys k d =
      let e : suc (length xs) + k ≡ suc (length xs + k) = omega arith in
      rw e (get_or-append_right xs ys k d)

  get_or-flat :
      (n : ℕ) (f : ℕ → List A) (c k : ℕ) (d : A)
      → c < n
      → k < length (f c)
      → get_or (flat n f) (tally c (λ i. length (f i)) + k) d ≡ get_or (f c) k d
  unfolding flat
  get_or-flat zero f c k d lt h = absurd (omega arith)
  get_or-flat (suc n) f c k d lt h = elim (ℕ_discrete c n) [
    | yes same ↦ rw (same, sym (length-flat n f)) (get_or-append_right (flat n f) (f n) k d)
    | no other ↦
        let le = tally-suc-le c n (λ i. length (f i)) (omega arith) in
        let whole = length-flat n f in
        get_or-append_left (flat n f) (f n) _ d (omega (arith, le, whole, h))
        ∙ get_or-flat n f c k d (omega arith) h
  ]

  All-get_or :
      (P : A → Type 0) (xs : List A) (k : ℕ) (d : A) → k < length xs → All P xs → P (get_or xs k d)
  All-get_or P [] k d lt h = absurd (omega arith)
  All-get_or P (x ∷ xs) zero d lt h = h.0
  All-get_or P (x ∷ xs) (suc k) d lt h = All-get_or P xs k d (omega arith) h.1

  length-bucket_strings_count :
      (cls : A → ℕ) (b : ℕ) (xs : List A) → length (bucket_strings cls b xs) ≡ count b (map cls xs)
  unfolding bucket_strings
  length-bucket_strings_count cls b [] = refl
  length-bucket_strings_count cls b (x ∷ xs) = ground (arith, length-bucket_strings_count cls b xs)

  -- The starts of the buckets, counted and added up.
  pub start-tally :
      (cls : A → ℕ) (bktnum : ℕ) (xs : List A) (b : ℕ)
      → b ≤ bktnum
      → start (count_buckets bktnum (map cls xs)) b
        ≡ tally b (λ c. length (bucket_strings cls c xs))
  unfolding tally
  start-tally cls bktnum xs zero le = refl
  start-tally cls bktnum xs (suc b) le = omega (
    arith,
    start-suc (count_buckets bktnum (map cls xs)) b,
    start-tally cls bktnum xs b (omega arith),
    count_buckets-get bktnum (map cls xs) b (omega arith),
    length-bucket_strings_count cls b xs,
  )

  bucket_strings-All :
      (cls : A → ℕ) (b : ℕ) (xs : List A) → All (λ x. cls x ≡ b) (bucket_strings cls b xs)
  unfolding bucket_strings
  bucket_strings-All cls b [] = tt
  bucket_strings-All cls b (x ∷ xs) =
      if_intro (All (λ y. cls y ≡ b)) (cls x == b) _ _
        (λ yes. (ground (arith, yes), bucket_strings-All cls b xs))
        (λ no. bucket_strings-All cls b xs)

  -- The strings of bucket `c` that come to the shadow array.
  abbrev brought : (A → ℕ) → ℕ → (ℕ → List A) → ℕ → List A
  brought cls parts strs b = flat parts (λ p. rev_onto (bucket_strings cls b (strs p)) [])

  flat-All : (P : A → Type 0) (n : ℕ) (f : ℕ → List A) → ((i : ℕ) → All P (f i)) → All P (flat n f)
  unfolding flat
  flat-All P zero f h = tt
  flat-All P (suc n) f h = All-append P (flat n f) (f n) (flat-All P n f h) (h n)

  rev_onto-All :
      (P : A → Type 0) (xs rest : List A) → All P xs → All P rest → All P (rev_onto xs rest)
  unfolding rev_onto
  rev_onto-All P [] rest h k = k
  rev_onto-All P (x ∷ xs) rest h k = rev_onto-All P xs (x ∷ rest) h.1 (h.0, k)

  brought-All :
      (cls : A → ℕ) (parts : ℕ) (strs : ℕ → List A) (b : ℕ)
      → All (λ x. cls x ≡ b) (brought cls parts strs b)
  brought-All cls parts strs b =
      flat-All (λ x. cls x ≡ b) parts _
        (λ p. rev_onto-All (λ x. cls x ≡ b) _ [] (bucket_strings-All cls b (strs p)) tt)

  -- A place between the starts of two buckets holds a string of the bucket.
  distributed-place :
      (cls : A → ℕ) (bktnum parts : ℕ) (strs : ℕ → List A) (b k : ℕ) (d : A)
      → b < bktnum
      → k < length (brought cls parts strs b)
      → cls (
          get_or
            (distributed cls bktnum parts strs)
            (tally b (λ c. length (brought cls parts strs c)) + k)
            d)
        ≡ b
  distributed-place cls bktnum parts strs b k d lt inside =
      ap cls (get_or-flat bktnum (brought cls parts strs) b k d lt inside)
      ∙ All-get_or (λ x. cls x ≡ b) (brought cls parts strs b) k d inside
          (brought-All cls parts strs b)

  length-brought :
      (cls : A → ℕ) (parts : ℕ) (strs : ℕ → List A) (b : ℕ)
      → length (brought cls parts strs b) ≡ length (bucket_strings cls b (flat parts strs))
  length-brought cls parts strs b = length-perm (brought-perm cls b parts strs)

  start-brought :
      (cls : A → ℕ) (bktnum parts : ℕ) (strs : ℕ → List A) (b : ℕ)
      → b ≤ bktnum
      → start (count_buckets bktnum (map cls (flat parts strs))) b
        ≡ tally b (λ c. length (brought cls parts strs c))
  start-brought cls bktnum parts strs b le =
      start-tally cls bktnum (flat parts strs) b le
      ∙ tally-agree b _ _ (λ c lt. sym (length-brought cls parts strs c))

  pub distributed-Sliced :
      (cls : A → ℕ) (bktnum parts : ℕ) (strs : ℕ → List A)
      → length (distributed cls bktnum parts strs)
        ≡ sum (count_buckets bktnum (map cls (flat parts strs)))
      → Sliced cls 0
          (count_buckets bktnum (map cls (flat parts strs)))
          (distributed cls bktnum parts strs)
  distributed-Sliced cls bktnum parts strs len =
      places-Sliced cls 0 (count_buckets bktnum (map cls (flat parts strs)))
        (distributed cls bktnum parts strs) len
        (λ c p d lo hi. elim (dec_lt c bktnum) [
          | yes lt ↦
              let from = start-brought cls bktnum parts strs c (omega arith) in
              let next = start-suc (count_buckets bktnum (map cls (flat parts strs))) c in
              let size = count_buckets-get bktnum (map cls (flat parts strs)) c lt in
              let strings = length-bucket_strings_count cls c (flat parts strs) in
              let len = length-brought cls parts strs c in
              let k = p - tally c (λ b. length (brought cls parts strs b)) in
              let e : tally c (λ b. length (brought cls parts strs b)) + k ≡ p =
                omega (arith, from, lo) in
              rw e at (
                distributed-place cls bktnum parts strs c k d lt
                  (omega (arith, from, next, size, strings, len, lo, hi)))
              ∙ omega arith
          | no past ↦
              let next = start-suc (count_buckets bktnum (map cls (flat parts strs))) c in
              let none =
                get_above (count_buckets bktnum (map cls (flat parts strs))) c
                  (rw (length-count_buckets bktnum (map cls (flat parts strs))) (omega arith)) in
              absurd (omega (arith, next, none, lo, hi))
        ])
