-- ===== src/Sequential/Buckets.antt =====
-- The steps that all sequential bucket sorts share (src/sequential/bingmann-sample_sort.cpp,
-- bingmann-radix_sort.hpp, bingmann-sample_sortBSC.cpp): count the bucket ids, sum them up and
-- permute the strings in place by walking cycles.
pub mod Sizes
pub mod Cycle
pub mod Partial
pub mod Walking
pub mod Permute
pub mod Recurse
pub mod Partition
use bingmann_sample_sort.Prelude.{
  ℕ, zero, suc, ◌+◌, ◌-◌, ◌%◌, ◌^◌, ◌≡◌, refl, List, [], ◌∷◌, arith, ltb, ◌==◌, if◌then◌else◌,
  length, get_or, set, replicate, ◌!◌, sum, dec64,
}

-- `++bktsize[bktcache[si]]` for each string
count_loop : List ℕ → List ℕ → List ℕ
count_loop bktsize [] = bktsize
count_loop bktsize (b ∷ bktcache) = count_loop (set bktsize b (bktsize ! b + 1)) bktcache

unfoldable pub count_buckets : ℕ → List ℕ → List ℕ
unfolding count_loop
count_buckets bktnum bktcache = count_loop (replicate bktnum 0) bktcache

-- The loop from bucket 1 on: the inclusive sums, and the size of the last bucket that is not empty.
prefix_loop : ℕ → ℕ → List ℕ → List ℕ × ℕ
prefix_loop before last_bkt_size [] = ([], last_bkt_size)
prefix_loop before last_bkt_size (s ∷ bktsize) =
    let (bktindex, last) = prefix_loop (before + s) (if s == 0 then last_bkt_size else s) bktsize in
    ((before + s) ∷ bktindex, last)

unfoldable pub prefix_sum : List ℕ → List ℕ × ℕ
unfolding prefix_loop
prefix_sum [] = ([], 0)
prefix_sum (s ∷ bktsize) = let (bktindex, last) = prefix_loop s s bktsize in (s ∷ bktindex, last)

pub record Walk {ℓ} (A : Type ℓ) : Type ℓ where
  pub strings : List A
  pub bktcache : List ℕ
  pub bktindex : List ℕ
  -- the bucket of the string that was put at the start of the cycle
  pub permbkt : ℕ

module _ {ℓ} {A : Type ℓ} where
  -- the inner `while ((j = --bktindex[permbkt]) > i)`, then `strings[i] = perm`
  unfoldable pub walk : ℕ → ℕ → A → ℕ → List A → List ℕ → List ℕ → Walk A
  walk zero i perm permbkt strings bktcache bktindex = record {
    strings = strings;
    bktcache = bktcache;
    bktindex = bktindex;
    permbkt = permbkt;
  }
  walk (suc fuel) i perm permbkt strings bktcache bktindex =
      let j = dec64 (bktindex ! permbkt) in
      let next =
        walk fuel i (get_or strings j perm) (bktcache ! j) (set strings j perm)
          (set bktcache j permbkt) (set bktindex permbkt j) in
      if ltb i j then next else record {
        strings = set strings i perm;
        bktcache = bktcache;
        bktindex = set bktindex permbkt j;
        permbkt = permbkt;
      }

  -- the outer loop over the starts of the cycles
  unfoldable pub permute_loop : ℕ → ℕ → List ℕ → ℕ → List A → List ℕ → List ℕ → List A
  permute_loop zero stop bktsize i strings bktcache bktindex = strings
  permute_loop (suc fuel) stop bktsize i [] bktcache bktindex = []
  permute_loop (suc fuel) stop bktsize i (s ∷ ss) bktcache bktindex =
      let w =
        walk (suc (sum bktindex)) i (get_or (s ∷ ss) i s) (bktcache ! i) (s ∷ ss) bktcache
          bktindex in
      let rest =
        permute_loop fuel stop bktsize (i + bktsize ! w.permbkt) w.strings w.bktcache w.bktindex in
      if ltb i stop then rest else s ∷ ss

  -- step 2 to 4: count, sum, permute
  unfoldable pub permute : List ℕ → List A → List ℕ → List A
  unfolding prefix_sum permute_loop walk
  permute bktsize strings bktcache =
      let (bktindex, last_bkt_size) = prefix_sum bktsize in
      permute_loop (suc (length strings)) (length strings - last_bkt_size) bktsize 0 strings
        bktcache bktindex
