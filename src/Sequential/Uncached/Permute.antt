-- ===== src/Sequential/Uncached/Permute.antt =====
-- Classifying again in every step gives the permutation that the cached bucket numbers give.
use bingmann_sample_sort.Prelude.{
  ℕ, zero, suc, ◌+◌, ◌-◌, ◌^◌, ◌≤◌, ◌<◌, ◌≡◌, refl, ◌∙◌, List, [], ◌∷◌, arith, ltb, ltb→lt,
  Bool-cases, inl, inr, length, get_or, set, ◌!◌, sum, dec64, map, map-set, get-map, length-map,
  All, subst,
}
use bingmann_sample_sort.Sequential.Buckets.{
  walk, Walk, permute_loop, permute, count_buckets, prefix_sum,
}
use bingmann_sample_sort.Sequential.Buckets.Sizes.{sum-count_buckets}
use bingmann_sample_sort.Sequential.Buckets.Cycle
use bingmann_sample_sort.Sequential.Buckets.Cycle.{IsCycle, IsBorder}
use bingmann_sample_sort.Sequential.Buckets.Partial.{IsPartial, begin-IsCycle}
use bingmann_sample_sort.Sequential.Buckets.Walking.{walk-Walked}
use bingmann_sample_sort.Sequential.Buckets.Permute.{initial}
use bingmann_sample_sort.Sequential.Uncached.{KeyWalk, walk_keys, permute_keys_loop, permute_keys}

module _ {ℓ} {A : Type ℓ} (cls : A → ℕ) (sizes : List ℕ) (n : ℕ) (total : sum sizes ≡ n)
    (small : n < 2 ^ 64) where
  abbrev SameWalk : KeyWalk A → Walk A → Type ℓ
  SameWalk k w = (k.strings ≡ w.strings) × (k.bktindex ≡ w.bktindex) × (k.b ≡ w.permbkt)

  module _ (i : ℕ) (inside : i < n) (border : IsBorder sizes i) where
    walk_keys-walk :
        (fuel : ℕ) (perm : A) (strings : List A) (cache index : List ℕ)
        → IsCycle sizes n i (cls perm) (map cls strings) cache index
        → SameWalk
            (walk_keys cls fuel i perm strings index)
            (walk fuel i perm (cls perm) strings cache index)
    unfolding walk walk_keys
    walk_keys-walk zero perm strings cache index v = (refl, refl, refl)
    walk_keys-walk (suc fuel) perm strings cache index v =
        let b = cls perm in
        let ks = map cls strings in
        let j = dec64 (index ! b) in
        let found = get_or strings j perm in
        let rest = set strings j perm in
        elim (Bool-cases (ltb i j)) [
          | inl go ↦
              let lt = ltb→lt i j go in
              let j-lt = Cycle.j-lt sizes n i total small inside border b ks cache index v in
              let j-in : j < length strings = rw (← length-map strings cls, v.length_ks) j-lt.1 in
              let next =
                Cycle.next-IsCycle sizes n i total small inside border b ks cache index v lt in
              let e1 : map cls rest ≡ set ks j b = map-set cls strings j perm in
              let e2 : ks ! j ≡ cls found = get-map cls strings j perm j-in in
              let e3 : cache ! j ≡ cls found = v.cached j lt j-lt.1 ∙ e2 in
              rw (go, e3)
                (walk_keys-walk fuel found rest (set cache j b) (set index b j)
                  (rw (e1, ← e2) next))
          | inr stop ↦ rw stop (refl, refl, refl)
        ]

  permute_keys_loop-permute_loop :
      (stop : ℕ)
      → stop ≤ n
      → (fuel i : ℕ) (strings : List A) (cache index : List ℕ)
      → IsPartial sizes n i (map cls strings) cache index
      → permute_keys_loop cls fuel stop sizes i strings index
        ≡ permute_loop fuel stop sizes i strings cache index
  unfolding permute_loop permute_keys_loop
  permute_keys_loop-permute_loop stop bound zero i strings cache index v = refl
  permute_keys_loop-permute_loop stop bound (suc fuel) i [] cache index v = refl
  permute_keys_loop-permute_loop stop bound (suc fuel) i (s ∷ ss) cache index v =
      elim (Bool-cases (ltb i stop)) [
        | inr done ↦ rw done refl
        | inl go ↦
            let inside : i < n = omega (arith, ltb→lt i stop go) in
            let first = get_or (s ∷ ss) i s in
            let ks = map cls (s ∷ ss) in
            let in-list : i < length (s ∷ ss) =
              rw (← length-map (s ∷ ss) cls, v.length_ks) inside in
            let same : ks ! i ≡ cls first = get-map cls (s ∷ ss) i s in-list in
            let cached : cache ! i ≡ cls first = v.cached i (omega arith) inside ∙ same in
            let w = walk (suc (sum index)) i first (cls first) (s ∷ ss) cache index in
            let cycle : IsCycle sizes n i (cls first) ks cache index =
              subst (λ b. IsCycle sizes n i b ks cache index) same
                (begin-IsCycle sizes n i total small inside ks cache index v) in
            let walks =
              walk_keys-walk i inside v.border (suc (sum index)) first (s ∷ ss) cache index cycle in
            let walked =
              walk-Walked cls sizes n total small i inside v.border (suc (sum index)) first s
                (cls first) (s ∷ ss) cache index cycle refl (omega arith) in
            rw (go, cached, walks.0, walks.1, walks.2)
              (permute_keys_loop-permute_loop stop bound fuel (i + sizes ! w.permbkt) w.strings
                w.bktcache w.bktindex walked.0)
      ]

-- With bucket numbers in range and fewer than 2 ^ 64 strings, sample sort without a cache, which classifies the string it holds again in every step, permutes
-- the strings just as sample sort with cached bucket numbers does.
pub permute_keys-permute {ℓ} :
    {A : Type ℓ} (cls : A → ℕ) (bktnum : ℕ) (strings : List A)
    → All (λ b. b < bktnum) (map cls strings)
    → length strings < 2 ^ 64
    → permute_keys cls (count_buckets bktnum (map cls strings)) strings
      ≡ permute (count_buckets bktnum (map cls strings)) strings (map cls strings)
unfolding permute permute_keys
permute_keys-permute cls bktnum strings small fits =
    let sizes = count_buckets bktnum (map cls strings) in
    permute_keys_loop-permute_loop cls sizes (length strings)
      (sum-count_buckets bktnum (map cls strings) small ∙ length-map strings cls) fits
      (length strings - (prefix_sum sizes).1) (omega arith) (suc (length strings)) 0 strings
      (map cls strings) (prefix_sum sizes).0 (initial cls bktnum strings small)
