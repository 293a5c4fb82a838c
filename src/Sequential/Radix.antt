-- ===== src/Sequential/Radix.antt =====
-- src/sequential/bingmann-radix_sort.hpp: in-place MSD radix sort over one character, which sorts
-- what is small for sample sort.
pub mod Chars
pub mod Laws
use bingmann_sample_sort.Prelude.{
  ℕ, zero, suc, ◌+◌, Bool, true, false, Option, none, some, List, [], ◌∷◌, map, ltb, if◌then◌else◌,
  length, ◌!◌, take, drop, tail,
}
use bingmann_sample_sort.Tools.Strings.{CString}
use bingmann_sample_sort.Tools.Keys.{get_char_uint8}
use bingmann_sample_sort.Sequential.Inssort.{inssort}
use bingmann_sample_sort.Sequential.Buckets.{count_buckets, permute}
use bingmann_sample_sort.Sequential.Buckets.Recurse.{join, recurse_loop}

-- `cc` gets `(*s)[depth]` for each string.
abbrev pub char_at : ℕ → CString → ℕ
char_at depth s = get_char_uint8 s depth

-- `msd_CI2_run`: the bucket sizes that it returns, and the strings
unfoldable pub msd_ci2_run : List CString → ℕ → List ℕ × List CString
unfolding count_buckets permute
msd_ci2_run strings depth =
    let charcache = map (char_at depth) strings in
    let bkt_size = count_buckets 256 charcache in (bkt_size, permute bkt_size strings charcache)

-- the body of the loop over the buckets
unfoldable pub msd_bucket :
    (List CString → ℕ → Option (List CString)) → ℕ → ℕ → ℕ → List CString → Option (List CString)
msd_bucket sort depth i size bsum = if ltb 1 size then sort bsum (depth + 1) else some bsum

-- `msd_CI2`, with the nesting of its calls bounded by fuel; bucket 0 holds the strings that end here.
unfoldable pub msd_ci2 : ℕ → List CString → ℕ → Option (List CString)
unfolding inssort msd_ci2_run recurse_loop msd_bucket
msd_ci2 zero strings depth = none
msd_ci2 (suc fuel) strings depth = elim (ltb (length strings) 32) [
  | true ↦ inssort strings (length strings) depth
  | false ↦
      let (bkt_size, permuted) = msd_ci2_run strings depth in
      join (some (take (bkt_size ! 0) permuted)) (
        recurse_loop (msd_bucket (msd_ci2 fuel) depth) 1 (tail bkt_size)
          (drop (bkt_size ! 0) permuted))
]
