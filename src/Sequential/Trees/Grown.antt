-- ===== src/Sequential/Trees/Grown.antt =====
-- What one call of the recursive builder adds.
use bingmann_sample_sort.Prelude.{
  ℕ, ◌-◌, ◌≤◌, ◌<◌, ◌≡◌, refl, true, List, [], ◌∷◌, ◌++◌, leb, ltb, if◌then◌else◌, length, ◌!◌, All,
  arith,
}
use bingmann_sample_sort.Sequential.Sorted.{Below, IsSortedBy-append, All-map}
use bingmann_sample_sort.Sequential.Classify.Rank.{IsAscending}
use bingmann_sample_sort.Sequential.Trees.{Built, emit}
use bingmann_sample_sort.Sequential.Trees.InOrder.{InOrder}
use bingmann_sample_sort.Sequential.Trees.Emitted.{entries, last_key, IsUnder}

-- The last sample that a range may emit.
abbrev pub top_of : ℕ → ℕ → ℕ
top_of lo hi = if ltb lo hi then hi - 1 else lo

-- One of the samples.
abbrev pub Among : List ℕ → ℕ → Type 0
Among samples k = (i : ℕ) × (i < length samples) × (k ≡ samples ! i)

-- What a call of `recurse` adds to what is built.
pub record IsGrown (samples : List ℕ) (levels treeidx lo hi prev : ℕ) (b b' : Built) (last : ℕ)
    : Type 0 where
  pub keys : List ℕ
  pub splitter_is : b'.m_splitter ≡ b.m_splitter ++ keys
  pub lcp_is : b'.m_lcp ≡ b.m_lcp ++ entries prev keys
  pub last_is : last ≡ last_key prev keys
  pub in_order : InOrder b'.m_tree levels treeidx keys
  pub outside : (j : ℕ) → ¬ (IsUnder levels treeidx j) → b'.m_tree ! j ≡ b.m_tree ! j
  pub size : length b'.m_tree ≡ length b.m_tree
  pub ascending : IsAscending keys
  pub low : All (λ k. samples ! lo ≤ k) keys
  pub high : All (λ k. k ≤ samples ! top_of lo hi) keys
  pub among : All (Among samples) keys

pub emit_size : (prev k : ℕ) (b : Built) → length (emit prev k b).m_tree ≡ length b.m_tree
unfolding emit
emit_size prev k b = refl

pub middle_asc :
    (k : ℕ) (l r : List ℕ)
    → IsAscending l
    → IsAscending r
    → All (λ x. x ≤ k) l
    → All (λ x. k ≤ x) r
    → IsAscending (l ++ (k ∷ r))
middle_asc k l r al ar low high =
    IsSortedBy-append leb l (k ∷ r) al
      (All-map (λ x. k ≤ x) (λ x. leb k x ≡ true) (λ x h. ground arith) r high, ar) (each l low)
  where
    each : (l : List ℕ) → All (λ x. x ≤ k) l → All (λ x. Below leb x (k ∷ r)) l
    each [] h = tt
    each (x ∷ l) (h, hs) =
        let here : leb x k ≡ true = ground arith in
        ((here, All-map (λ y. k ≤ y) (λ y. leb x y ≡ true) (λ y q. ground arith) r high), each l hs)
