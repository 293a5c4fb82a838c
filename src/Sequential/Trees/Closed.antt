-- ===== src/Sequential/Trees/Closed.antt =====
-- TreeBuilderPreAndLevelOrder as a whole.
use bingmann_sample_sort.Prelude.{
  ℕ, zero, suc, ◌+◌, ◌-◌, ◌%◌, ◌^◌, ◌<◌, ◌≡◌, refl, ap, ◌∙◌, List, [], ◌∷◌, ◌++◌, ◌==◌,
  if◌then◌else◌, length, length-replicate, All, replicate, ◌!◌, arith,
}
use bingmann_sample_sort.Tools.KeyLcp.{lcp_key_type}
use bingmann_sample_sort.Sequential.Classify.Rank.{IsAscending}
use bingmann_sample_sort.Sequential.Trees.{
  SplitterTree, Built, close_lcp, tree_builder_pre_and_level_order,
}
use bingmann_sample_sort.Sequential.Trees.InOrder.{pow_pos2}
use bingmann_sample_sort.Sequential.Trees.Descent.{IsTree}
use bingmann_sample_sort.Sequential.Trees.Emitted.{entry, entries}
use bingmann_sample_sort.Sequential.Trees.Builder.{recurse-IsGrown}
use bingmann_sample_sort.Sequential.Trees.Grown.{Among}

get-front : (xs : List ℕ) (i x : ℕ) → i < length xs → (xs ++ (x ∷ [])) ! i ≡ xs ! i
get-front [] i x h = absurd (omega arith)
get-front (y ∷ xs) zero x h = refl
get-front (y ∷ xs) (suc i) x h = get-front xs i x (omega arith)

length-entries : (prev : ℕ) (ks : List ℕ) → length (entries prev ks) ≡ length ks
length-entries prev [] = refl
length-entries prev (k ∷ ks) = ap suc (length-entries k ks)

get-entries :
    (prev : ℕ) (ks : List ℕ) (i : ℕ)
    → suc i < length ks
    → entries prev ks ! suc i ≡ entry (ks ! i) (ks ! suc i)
get-entries prev [] i h = absurd (omega arith)
get-entries prev (k ∷ []) i h = absurd (omega arith)
get-entries prev (k ∷ m ∷ ks) zero h = refl
get-entries prev (k ∷ m ∷ ks) (suc i) h = get-entries k (m ∷ ks) i (omega arith)

pub close_next :
    (prev : ℕ) (ks : List ℕ) (i : ℕ)
    → suc i < length ks
    → close_lcp (entries prev ks) ! suc i ≡ entry (ks ! i) (ks ! suc i)
unfolding close_lcp
close_next prev [] i h = absurd (omega arith)
close_next prev (k ∷ ks) i h =
    get-front (entries k ks) i 0 (omega (arith, length-entries k ks))
    ∙ get-entries prev (k ∷ ks) i h

pub close_first : (prev : ℕ) (ks : List ℕ) → close_lcp (entries prev ks) ! 0 % 128 ≡ 0
unfolding close_lcp
close_first prev [] = refl
close_first prev (k ∷ ks) = omega arith

pub close_mark :
    (prev : ℕ) (ks : List ℕ)
    → 0 < length ks
    → lcp_key_type prev (ks ! 0) < 128
    → close_lcp (entries prev ks) ! 0 ≡ (if ks ! 0 % 256 == 0 then 128 else 0)
unfolding close_lcp
close_mark prev [] h small = absurd (omega arith)
close_mark prev (k ∷ ks) h small = ground arith

-- What a level of sample sort needs of the tree that is built.
pub record IsClosed (samples : List ℕ) (treebits : ℕ) (t : SplitterTree) (splitter_lcp : List ℕ)
    : Type 0 where
  pub perfect : IsTree treebits t
  pub among : All (Among samples) t.splitter
  pub entries_are : splitter_lcp ≡ close_lcp (entries 0 t.splitter)

pub tree_builder_pre_and_level_order-IsClosed :
    (treebits : ℕ) (samples : List ℕ)
    → IsAscending samples
    → 0 < length samples
    → 0 < treebits
    → treebits < 32
    → let (t, splitter_lcp) = tree_builder_pre_and_level_order treebits samples in
      IsClosed samples treebits t splitter_lcp
unfolding tree_builder_pre_and_level_order
tree_builder_pre_and_level_order-IsClosed zero samples asc some_sample pos few =
    absurd (omega arith)
tree_builder_pre_and_level_order-IsClosed (suc levels) samples asc some_sample pos few =
    let n = 2 ^ suc levels - 1 in
    let empty : Built = record { m_tree = replicate (n + 1) 0; m_splitter = []; m_lcp = [] } in
    let power = pow_pos2 (suc levels) in
    let g =
      recurse-IsGrown samples asc n levels 1 0 (length samples) 0 empty
        (omega arith, some_sample, omega arith) (omega arith, omega arith, omega arith)
        (length-replicate {A = ℕ} (n + 1) 0) in
    rw (g.splitter_is, g.lcp_is)
      (record {
        perfect = record {
          in_order = g.in_order;
          asc = g.ascending;
          some_bits = omega arith;
          few_bits = few;
        };
        among = g.among;
        entries_are = refl;
      })
