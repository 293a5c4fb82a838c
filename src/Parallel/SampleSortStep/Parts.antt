-- ===== src/Parallel/SampleSortStep/Parts.antt =====
-- src/parallel/bingmann-parallel_sample_sort.hpp: the parts of the strings are all of them.
use bingmann_sample_sort.Prelude.{
  ℕ, zero, suc, ◌+◌, ◌-◌, ◌*◌, ◌≡◌, ◌<◌, ◌≤◌, refl, sym, ◌∙◌, List, ltb, if◌then◌else◌, length,
  take, drop, min, arith, dec_lt,
}
use bingmann_sample_sort.Prelude.Flat.{tally, flat, flat-agree, flat-slices, take-length}
use bingmann_sample_sort.Parallel.SampleSortStep.{maxprocs, parts_of, psize_of, part}

-- The sizes of the parts.
abbrev part_size : ℕ → ℕ → ℕ → ℕ
part_size psize n p =
    let strB = p * psize in
    let strE = min ((p + 1) * psize) n in (if ltb strE strB then strB else strE) - strB

tally-part_size : (psize n k : ℕ) → tally k (part_size psize n) ≡ min (k * psize) n
unfolding tally
tally-part_size psize n zero = omega arith
tally-part_size psize n (suc k) =
    let next : suc k * psize ≡ k * psize + psize = omega arith in
    let more : (k + 1) * psize ≡ k * psize + psize = omega arith in
    let ih = tally-part_size psize n k in rw next (rw more (ground arith))

part_size_zero : (psize n p : ℕ) → n ≤ p * psize → part_size psize n p ≡ 0
part_size_zero psize n p out = ground arith

psize_enough : (n parts : ℕ) → 0 < parts → n ≤ parts * psize_of n parts
unfolding psize_of
psize_enough n parts some = grind arith

parts_of-pos : (n threshold : ℕ) → 0 < parts_of n threshold
unfolding parts_of
parts_of-pos n threshold = ground arith

parts_of-le : (n threshold : ℕ) → parts_of n threshold ≤ maxprocs
unfolding parts_of
parts_of-le n threshold = ground arith

module _ {ℓ} {A : Type ℓ} where
  part-slice :
      (psize : ℕ) (ss : List A) (p : ℕ)
      → part psize ss p
        ≡ take (part_size psize (length ss) p) (drop (tally p (part_size psize (length ss))) ss)
  unfolding part
  part-slice psize ss p = rw tally-part_size (elim (dec_lt (length ss) (p * psize)) [
    | yes out ↦
        let none : part_size psize (length ss) p ≡ 0 =
          part_size_zero psize (length ss) p (omega arith) in
        rw none refl
    | no inside ↦ let same : min (p * psize) (length ss) ≡ p * psize = omega arith in rw same refl
  ])

  -- For any array and any sequential threshold, `SampleSortStep` makes 1 to 129 parts, so that the arrays of
  -- `MAXPROCS` index arrays have room for them, and the parts, one behind the other, are the array.
  pub parts-flat :
      (threshold : ℕ) (strings : List A)
      → let n = length strings in
        let parts = parts_of n threshold in
        (0 < parts) × (parts ≤ maxprocs) × (flat parts (part (psize_of n parts) strings) ≡ strings)
  parts-flat threshold strings = (parts_of-pos n threshold, parts_of-le n threshold, whole)
    where
      n : ℕ
      n = length strings

      parts : ℕ
      parts = parts_of n threshold

      psize : ℕ
      psize = psize_of n parts

      whole : flat parts (part psize strings) ≡ strings
      whole =
          let enough = psize_enough n parts (parts_of-pos n threshold) in
          let all : tally parts (part_size psize n) ≡ n =
            tally-part_size psize n parts ∙ omega arith in
          flat-agree parts _ _ (λ p lt. part-slice psize strings p)
          ∙ flat-slices parts (part_size psize n) strings
          ∙ take-length _ strings (sym all)
