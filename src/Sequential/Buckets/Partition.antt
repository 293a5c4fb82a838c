-- ===== src/Sequential/Buckets/Partition.antt =====
-- Counting and permuting cuts the strings into slices, one per bucket.
use bingmann_sample_sort.Prelude.{
  ℕ, zero, suc, ◌≤◌, ◌<◌, ◌^◌, ◌≡◌, refl, sym, ◌∙◌, List, [], ◌∷◌, map, length, length-map, get_or,
  get-map, ◌!◌, sum, All, Perm, arith, count, ◌≢◌, dec_lt,
}
use bingmann_sample_sort.Sequential.Sorted.{length-perm}
use bingmann_sample_sort.Sequential.Buckets.{count_buckets, permute}
use bingmann_sample_sort.Sequential.Buckets.Sizes.{
  start-le-sum, sum-count_buckets, count_buckets-get, length-count_buckets,
}
use bingmann_sample_sort.Sequential.Buckets.Permute.{permute_lem}
use bingmann_sample_sort.Sequential.Buckets.Recurse.Laws.{Sliced, places-Sliced}

get_outside : (xs : List ℕ) (i : ℕ) → length xs ≤ i → xs ! i ≡ 0
get_outside [] i h = refl
get_outside (x ∷ xs) zero h = absurd (omega arith)
get_outside (x ∷ xs) (suc i) h = get_outside xs i (omega arith)

count-le : (c : ℕ) (xs : List ℕ) → count c xs ≤ length xs
count-le c [] = omega arith
count-le c (x ∷ xs) = ground (arith, count-le c xs)

count_miss : (c : ℕ) (xs : List ℕ) (q : ℕ) → q < length xs → xs ! q ≢ c → count c xs < length xs
count_miss c [] q h n = absurd (omega arith)
count_miss c (x ∷ xs) zero h n = ground (arith, count-le c xs)
count_miss c (x ∷ xs) (suc q) h n = let ih = count_miss c xs q (omega arith) n in ground arith

module _ {ℓ} {A : Type ℓ} (cls : A → ℕ) (bktnum : ℕ) (strings : List A) where
  abbrev pub bktsize_of : List ℕ
  bktsize_of = count_buckets bktnum (map cls strings)

  abbrev pub permuted : List A
  permuted = permute bktsize_of strings (map cls strings)

  pub permuted-Sliced :
      All (λ b. b < bktnum) (map cls strings)
      → length strings < 2 ^ 64
      → Perm permuted strings
        × (length permuted ≡ sum bktsize_of)
        × Sliced cls 0 bktsize_of permuted
  permuted-Sliced small fits =
      let (p, placed) = permute_lem cls bktnum strings small fits in
      let len : length permuted ≡ sum bktsize_of =
        length-perm p
        ∙ sym (sum-count_buckets bktnum (map cls strings) small ∙ length-map strings cls) in
      (
        p,
        len,
        places-Sliced cls 0 bktsize_of permuted len (λ c q d lo hi.
            sym (get-map cls permuted q d (omega (arith, start-le-sum bktsize_of (suc c))))
            ∙ placed c q lo hi
            ∙ omega arith),
      )

  -- A bucket that some string is not in is smaller than the whole.
  pub bktsize_of-lt :
      (i q : ℕ) (d : A)
      → q < length strings
      → cls (get_or strings q d) ≢ i
      → bktsize_of ! i < length strings
  bktsize_of-lt i q d h n = elim (dec_lt i bktnum) [
    | yes inside ↦
        let ks = map cls strings in
        let e = get-map cls strings q d h in
        let lt = count_miss i ks q (omega (arith, length-map strings cls)) (λ z. n (sym e ∙ z)) in
        omega (arith, count_buckets-get bktnum ks i inside, length-map strings cls)
    | no outside ↦
        let z =
          get_outside bktsize_of i (omega (arith, length-count_buckets bktnum (map cls strings))) in
        omega arith
  ]
