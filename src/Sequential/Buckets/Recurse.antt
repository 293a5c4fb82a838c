-- ===== src/Sequential/Buckets/Recurse.antt =====
-- The recursion over the buckets that ends a bucket sort (step 5 of
-- src/sequential/bingmann-sample_sort.cpp, the loop of msd_CI2): the running pointer `bsum` is the
-- list of the strings from it on.
pub mod Laws
use bingmann_sample_sort.Prelude.{ℕ, zero, suc, Option, none, some, List, [], ◌∷◌, ◌++◌, take, drop}

module _ {ℓ} {A : Type ℓ} where
  -- what two results in a row give
  unfoldable pub join : Option (List A) → Option (List A) → Option (List A)
  join none after = none
  join (some done) none = none
  join (some done) (some rest) = some (done ++ rest)

  -- `sort_bucket i size strings` is the body of the loop.
  unfoldable pub recurse_loop :
      (ℕ → ℕ → List A → Option (List A)) → ℕ → List ℕ → List A → Option (List A)
  unfolding join
  recurse_loop sort_bucket i [] bsum = some bsum
  recurse_loop sort_bucket i (size ∷ bktsize) bsum =
      join (sort_bucket i size (take size bsum))
        (recurse_loop sort_bucket (suc i) bktsize (drop size bsum))
