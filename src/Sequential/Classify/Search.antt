-- ===== src/Sequential/Classify/Search.antt =====
-- The binary searches find the first splitter that is not below the key.
use bingmann_sample_sort.Prelude.{
  ℕ, zero, suc, ◌+◌, ◌-◌, ◌*◌, ◌/◌, ◌^◌, ◌≤◌, ◌<◌, ◌≡◌, inl, inr, true, false, ◌&&◌, List, ltb, leb,
  ◌==◌, length, ◌!◌, arith, Bool-cases, pow-suc, if_intro, subst,
}
use bingmann_sample_sort.Sequential.Classify.{
  middle, search, with_equal, find_bkt_binsearch, find_bkt_tree, search_assembler,
  find_bkt_assembler,
}
use bingmann_sample_sort.Sequential.Classify.Rank.{
  IsAscending, Falls, rank, bucket_of, bucket_of-rank, rank-le_length, rank-le, below_rank, at_rank,
  rank-gt, middle_bounds,
}

pub halve : (fuel d h : ℕ) → d < 2 ^ suc fuel → h ≤ d / 2 → h < 2 ^ fuel
halve fuel d h k e = omega (arith, pow-suc 2 fuel)

module _ (key : ℕ) (sp : List ℕ) (asc : IsAscending sp) (fits : length sp < 2 ^ 31) where
  -- One round keeps the place of the key between `lo` and `hi`, and halves what is between.
  round :
      (fuel lo hi : ℕ)
      → lo < hi
      → hi ≤ length sp
      → lo ≤ rank key sp
      → rank key sp ≤ hi
      → hi - lo < 2 ^ suc fuel
      → (leb key (sp ! middle lo hi) ≡ true
          → (rank key sp ≤ middle lo hi) × (middle lo hi - lo < 2 ^ fuel))
        × (leb key (sp ! middle lo hi) ≡ false
            → (suc (middle lo hi) ≤ rank key sp) × (hi - suc (middle lo hi) < 2 ^ fuel))
        × (lo ≤ middle lo hi)
        × (middle lo hi < hi)
  round fuel lo hi h k l r small =
      let m = middle_bounds lo hi (length sp) h k fits in
      let i = middle lo hi in
      (
        (λ le. (rank-le key sp i (omega arith) (ground arith), halve fuel (hi - lo) _ small m.2)),
        (λ gt.
            (rank-gt key sp i asc (omega arith) (ground arith), halve fuel (hi - lo) _ small m.3)),
        m.0,
        m.1,
      )

  search-rank :
      (fuel lo hi : ℕ)
      → hi ≤ length sp
      → lo ≤ rank key sp
      → rank key sp ≤ hi
      → hi - lo < 2 ^ fuel
      → search fuel key sp lo hi ≡ rank key sp
  unfolding search
  search-rank zero lo hi k l r small = omega arith
  search-rank (suc fuel) lo hi k l r small = elim (Bool-cases (ltb lo hi)) [
    | inr stop ↦ rw stop (ground arith)
    | inl go ↦
        let m = round fuel lo hi (ground arith) k l r small in
        rw go (elim (Bool-cases (leb key (sp ! middle lo hi))) [
          | inl le ↦
              rw le (search-rank fuel lo (middle lo hi) (omega arith) l (m.0 le).0 (m.0 le).1)
          | inr gt ↦
              let next : middle lo hi + 1 ≡ suc (middle lo hi) = omega arith in
              rw (gt, next) (search-rank fuel (suc (middle lo hi)) hi k (m.1 gt).0 r (m.1 gt).1)
        ])
  ]

  search_assembler-rank :
      (fuel lo hi : ℕ)
      → lo < hi
      → hi ≤ length sp
      → lo ≤ rank key sp
      → rank key sp ≤ hi
      → hi - lo < 2 ^ fuel
      → search_assembler fuel key sp lo hi ≡ rank key sp
  unfolding search_assembler
  search_assembler-rank zero lo hi h k l r small = absurd (omega arith)
  search_assembler-rank (suc fuel) lo hi h k l r small =
      let m = round fuel lo hi h k l r small in
      let next : middle lo hi + 1 ≡ suc (middle lo hi) = omega arith in
      elim (Bool-cases (leb key (sp ! middle lo hi))) [
        | inl le ↦ rw le (
            if_intro (λ z. z ≡ rank key sp) (ltb lo (middle lo hi))
              (search_assembler fuel key sp lo (middle lo hi)) lo
              (λ go.
                search_assembler-rank fuel lo (middle lo hi) (ground arith) (omega arith) l
                  (m.0 le).0 (m.0 le).1)
              (λ stop. ground (arith, m.0 le)))
        | inr gt ↦
            rw (gt, next)
              (if_intro (λ z. z ≡ rank key sp) (ltb (suc (middle lo hi)) hi)
                (search_assembler fuel key sp (suc (middle lo hi)) hi) (suc (middle lo hi))
                (λ go.
                  search_assembler-rank fuel (suc (middle lo hi)) hi (ground arith) k (m.1 gt).0 r
                    (m.1 gt).1)
                (λ stop. ground (arith, m.1 gt)))
      ]

  -- `find_bkt_binsearch` finds the first splitter that is not below the key.
  pub find_bkt_binsearch-bucket_of : find_bkt_binsearch key sp ≡ bucket_of key sp
  unfolding find_bkt_binsearch
  find_bkt_binsearch-bucket_of =
      rw
        (search-rank 32 0 (length sp) (omega arith) (omega arith) (rank-le_length key sp)
          (omega arith))
        (bucket_of-rank key sp)

  pub find_bkt_tree-bucket_of : find_bkt_tree sp key ≡ bucket_of key sp
  unfolding find_bkt_tree
  find_bkt_tree-bucket_of =
      rw
        (search-rank 32 0 (length sp) (omega arith) (omega arith) (rank-le_length key sp)
          (omega arith))
        (bucket_of-rank key sp)

  pub find_bkt_assembler-bucket_of : 0 < length sp → find_bkt_assembler key sp ≡ bucket_of key sp
  unfolding find_bkt_assembler
  find_bkt_assembler-bucket_of some_splitter =
      rw
        (search_assembler-rank 32 0 (length sp) some_splitter (omega arith) (omega arith)
          (rank-le_length key sp) (omega arith))
        (bucket_of-rank key sp)

  with_equal-Falls : Falls sp key (with_equal key sp (rank key sp))
  unfolding with_equal
  with_equal-Falls =
      let r = rank key sp in
      if_intro (Falls sp key) (ltb r (length sp) && (sp ! r == key)) (r * 2 + 1) (r * 2)
        (λ yes.
          let e : 2 * r + 1 ≡ r * 2 + 1 = omega arith in
          subst (Falls sp key) e (Falls.equal r (ground arith) (ground arith)))
        (λ no.
          let e : 2 * r ≡ r * 2 = omega arith in
          subst (Falls sp key) e (
            Falls.less r (rank-le_length key sp) (below_rank key sp)
              (λ inside. ground (arith, at_rank key sp inside))))

  pub bucket_of-Falls : Falls sp key (bucket_of key sp)
  bucket_of-Falls = subst (Falls sp key) (bucket_of-rank key sp) with_equal-Falls
