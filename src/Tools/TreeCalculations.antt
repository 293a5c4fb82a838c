-- ===== src/Tools/TreeCalculations.antt =====
-- src/tools/stringtools.hpp, TreeCalculations: the number of a node of a perfect binary tree in level
-- order, from 1 at the root, and in order. An `unsigned int` has 32 bits.
pub mod Laws
use bingmann_sample_sort.Prelude.{ℕ, ◌+◌, ◌-◌, ◌*◌, ◌/◌, ◌%◌, ◌^◌, ◌==◌, if◌then◌else◌}
use bingmann_sample_sort.Tools.Bits.{count_high_zero_bits, count_low_zero_bits}

-- `x | (1 << k)`
unfoldable pub set_bit : ℕ → ℕ → ℕ
set_bit k x = if x / 2 ^ k % 2 == 1 then x else x + 2 ^ k

-- `level_to_preorder`; the mask of `numnodes` keeps `treebits` bits
unfoldable pub level_to_preorder : ℕ → ℕ → ℕ
unfolding set_bit count_high_zero_bits
level_to_preorder treebits id =
    let hi = treebits + count_high_zero_bits 32 id - 32 in
    set_bit hi (id * 2 ^ (hi + 1) % 2 ^ 32 % 2 ^ treebits)

-- `pre_to_levelorder`
unfoldable pub pre_to_levelorder : ℕ → ℕ → ℕ
unfolding set_bit count_low_zero_bits
pre_to_levelorder treebits id =
    let lo = count_low_zero_bits 32 id + 1 in set_bit (treebits - lo) (id / 2 ^ lo % 2 ^ treebits)
