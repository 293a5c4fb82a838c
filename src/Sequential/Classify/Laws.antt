-- ===== src/Sequential/Classify/Laws.antt =====
-- The classifiers put a key where it belongs among ascending splitters.
use bingmann_sample_sort.Prelude.{
  ℕ, zero, suc, ◌+◌, ◌-◌, ◌*◌, ◌^◌, ◌≤◌, ◌<◌, ◌≡◌, inl, inr, sym, true, List, ltb, ◌==◌, length,
  ◌!◌, arith, Bool-cases, if_intro, subst,
}
use bingmann_sample_sort.Sequential.Classify.{
  middle, find_bkt_binsearch, find_bkt_tree, find_bkt_assembler, search_equal, find_bkt_equal,
  search_asmequal, find_bkt_asmequal,
}
use bingmann_sample_sort.Sequential.Classify.Rank.{
  IsAscending, Falls, bucket_of, IsAscending-get, middle_bounds,
}
use bingmann_sample_sort.Sequential.Classify.Search.{
  halve, find_bkt_binsearch-bucket_of, find_bkt_tree-bucket_of, find_bkt_assembler-bucket_of,
  bucket_of-Falls,
}

module _ (key : ℕ) (sp : List ℕ) (asc : IsAscending sp) (fits : length sp < 2 ^ 31) where
  -- What the searches for an equal splitter keep.
  abbrev Between : ℕ → ℕ → Type 0
  Between lo hi =
      (lo ≤ hi)
      × (hi ≤ length sp)
      × ((j : ℕ) → j < lo → sp ! j < key)
      × (hi < length sp → key < sp ! hi)

  stop-Falls : (lo hi : ℕ) → Between lo hi → hi ≤ lo → Falls sp key (2 * lo)
  stop-Falls lo hi b h =
      let e : lo ≡ hi = omega (arith, b.0) in
      Falls.less lo (omega (arith, b.1)) b.2
        (λ inside. subst (λ z. key < sp ! z) (sym e) (b.3 (omega arith)))

  left-Between :
      (lo hi : ℕ) → lo < hi → Between lo hi → key < sp ! middle lo hi → Between lo (middle lo hi)
  left-Between lo hi h b lt =
      let m = middle_bounds lo hi (length sp) h b.1 fits in
      (m.0, omega (arith, m.1, b.1), b.2, λ inside. lt)

  right-Between :
      (lo hi : ℕ)
      → lo < hi
      → Between lo hi
      → sp ! middle lo hi < key
      → Between (middle lo hi + 1) hi
  right-Between lo hi h b gt =
      let m = middle_bounds lo hi (length sp) h b.1 fits in
      (
        omega (arith, m.1),
        b.1,
        (λ j lt.
            let le =
              IsAscending-get sp j (middle lo hi) asc (omega arith) (omega (arith, m.1, b.1)) in
            omega arith),
        b.3,
      )

  equal-Falls :
      (lo hi : ℕ)
      → lo < hi
      → Between lo hi
      → (key == sp ! middle lo hi) ≡ true
      → Falls sp key (2 * middle lo hi + 1)
  equal-Falls lo hi h b e =
      let m = middle_bounds lo hi (length sp) h b.1 fits in
      Falls.equal (middle lo hi) (omega (arith, m.1, b.1)) (ground arith)

  search_equal-Falls :
      (fuel lo hi : ℕ)
      → Between lo hi
      → hi - lo < 2 ^ fuel
      → Falls sp key (search_equal fuel key sp lo hi)
  unfolding search_equal
  search_equal-Falls zero lo hi b small = stop-Falls lo hi b (omega arith)
  search_equal-Falls (suc fuel) lo hi b small = elim (Bool-cases (ltb lo hi)) [
    | inr stop ↦ rw stop (stop-Falls lo hi b (ground arith))
    | inl go ↦
        let h : lo < hi = ground arith in
        let m = middle_bounds lo hi (length sp) h b.1 fits in
        rw go (elim (Bool-cases (key == sp ! middle lo hi)) [
          | inl e ↦ rw e (equal-Falls lo hi h b e)
          | inr n ↦ rw n (elim (Bool-cases (ltb key (sp ! middle lo hi))) [
            | inl lt ↦ rw lt (
                search_equal-Falls fuel lo (middle lo hi) (left-Between lo hi h b (ground arith))
                  (halve fuel (hi - lo) _ small m.2))
            | inr ge ↦ rw ge (
                search_equal-Falls fuel (middle lo hi + 1) hi
                  (right-Between lo hi h b (ground arith))
                  (halve fuel (hi - lo) _ small (omega (arith, m.3))))
          ])
        ])
  ]

  search_asmequal-Falls :
      (fuel lo hi : ℕ)
      → lo < hi
      → Between lo hi
      → hi - lo < 2 ^ fuel
      → Falls sp key (search_asmequal fuel key sp lo hi)
  unfolding search_asmequal
  search_asmequal-Falls zero lo hi h b small = absurd (omega arith)
  search_asmequal-Falls (suc fuel) lo hi h b small =
      let m = middle_bounds lo hi (length sp) h b.1 fits in
      elim (Bool-cases (key == sp ! middle lo hi)) [
        | inl e ↦ rw e (equal-Falls lo hi h b e)
        | inr n ↦ rw n (elim (Bool-cases (ltb key (sp ! middle lo hi))) [
          | inl lt ↦
              let next = left-Between lo hi h b (ground arith) in
              rw lt (
                if_intro (Falls sp key) (ltb lo (middle lo hi))
                  (search_asmequal fuel key sp lo (middle lo hi)) (2 * lo)
                  (λ go.
                    search_asmequal-Falls fuel lo (middle lo hi) (ground arith) next
                      (halve fuel (hi - lo) _ small m.2))
                  (λ stop. stop-Falls lo (middle lo hi) next (ground arith)))
          | inr ge ↦
              let next = right-Between lo hi h b (ground arith) in
              rw ge (
                if_intro (Falls sp key) (ltb (middle lo hi + 1) hi)
                  (search_asmequal fuel key sp (middle lo hi + 1) hi) (2 * (middle lo hi + 1))
                  (λ go.
                    search_asmequal-Falls fuel (middle lo hi + 1) hi (ground arith) next
                      (halve fuel (hi - lo) _ small (omega (arith, m.3))))
                  (λ stop. stop-Falls (middle lo hi + 1) hi next (ground arith)))
        ])
      ]

  everywhere : Between 0 (length sp)
  everywhere = (omega arith, omega arith, (λ j h. absurd (omega arith)), λ h. absurd (omega arith))

-- Among ascending splitters, not more than fit `unsigned int`, every classifier by binary search
-- puts a key into a bucket where it belongs, the versions in assembler if there is a splitter.
pub find_bkt-Falls :
    (key : ℕ) (sp : List ℕ)
    → IsAscending sp
    → 0 < length sp
    → length sp < 2 ^ 31
    → Falls sp key (find_bkt_binsearch key sp)
      × Falls sp key (find_bkt_tree sp key)
      × Falls sp key (find_bkt_assembler key sp)
      × Falls sp key (find_bkt_equal key sp)
      × Falls sp key (find_bkt_asmequal key sp)
unfolding find_bkt_equal find_bkt_asmequal
find_bkt-Falls key sp asc pos fits =
    let falls = bucket_of-Falls key sp asc fits in
    (
      subst (Falls sp key) (sym (find_bkt_binsearch-bucket_of key sp asc fits)) falls,
      subst (Falls sp key) (sym (find_bkt_tree-bucket_of key sp asc fits)) falls,
      subst (Falls sp key) (sym (find_bkt_assembler-bucket_of key sp asc fits pos)) falls,
      search_equal-Falls key sp asc fits 32 0 (length sp) (everywhere key sp asc fits)
          (omega arith),
      search_asmequal-Falls key sp asc fits 32 0 (length sp) pos (everywhere key sp asc fits)
          (omega arith),
    )

-- Among ascending splitters, at least one and not more than fit `unsigned int`, the classifiers that
-- look for the first splitter that is not below the key find the bucket that a scan from the front
-- finds.
pub find_bkt-bucket_of :
    (key : ℕ) (sp : List ℕ)
    → IsAscending sp
    → 0 < length sp
    → length sp < 2 ^ 31
    → (find_bkt_binsearch key sp ≡ bucket_of key sp)
      × (find_bkt_tree sp key ≡ bucket_of key sp)
      × (find_bkt_assembler key sp ≡ bucket_of key sp)
find_bkt-bucket_of key sp asc pos fits = (
  find_bkt_binsearch-bucket_of key sp asc fits,
  find_bkt_tree-bucket_of key sp asc fits,
  find_bkt_assembler-bucket_of key sp asc fits pos,
)
