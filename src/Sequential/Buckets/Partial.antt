-- ===== src/Sequential/Buckets/Partial.antt =====
-- What the walk over a cycle keeps, on the bucket ids alone: the places that are done, the free places of
-- each bucket, and the counts.
use bingmann_sample_sort.Prelude.{
  ℕ, zero, suc, ◌+◌, ◌^◌, ◌≤◌, ◌<◌, ◌≡◌, ◌≢◌, inl, inr, refl, sym, ap, ◌∙◌, List, [], ◌∷◌, arith,
  length, set, length-set, ◌!◌, sum, dec64, count, set-get_self, set-get_ne, dec_lt, ℕ_discrete,
}
use bingmann_sample_sort.Sequential.Buckets.Sizes.{
  start, start-suc, start_mono, same_bucket, get_pos-lt,
}
use bingmann_sample_sort.Sequential.Buckets.Cycle
use bingmann_sample_sort.Sequential.Buckets.Cycle.{IsCycle, IsBorder}

-- What holds between two cycles, when all buckets before position `i` are done.
pub record IsPartial (sizes : List ℕ) (n i : ℕ) (ks cache index : List ℕ) : Type 0 where
  pub length_ks : length ks ≡ n
  pub length_cache : length cache ≡ n
  pub counts : (c : ℕ) → count c ks ≡ sizes ! c
  pub cached : (p : ℕ) → i ≤ p → p < n → cache ! p ≡ ks ! p
  pub placed :
      (c p : ℕ) → c < length sizes → i ≤ p → index ! c ≤ p → p < start sizes (suc c) → ks ! p ≡ c
  pub finished : (c p : ℕ) → p < i → start sizes c ≤ p → p < start sizes (suc c) → ks ! p ≡ c
  pub index_bounds :
      (c : ℕ)
      → c < length sizes
      → i < start sizes (suc c)
      → (start sizes c ≤ index ! c) × (0 < index ! c) × (index ! c ≤ start sizes (suc c))
  pub length_index : length index ≡ length sizes
  pub border : IsBorder sizes i

set-same : (xs : List ℕ) (i : ℕ) → set xs i (xs ! i) ≡ xs
set-same [] i = refl
set-same (x ∷ xs) zero = refl
set-same (x ∷ xs) (suc i) = ap (◌∷◌ x) (set-same xs i)

module _ (sizes : List ℕ) (n i : ℕ) (total : sum sizes ≡ n) (small : n < 2 ^ 64)
    (inside : i < n) where
  pub begin-IsCycle :
      (ks cache index : List ℕ)
      → IsPartial sizes n i ks cache index
      → IsCycle sizes n i (ks ! i) ks cache index
  begin-IsCycle ks cache index v = record {
    length_ks = v.length_ks;
    length_cache = v.length_cache;
    counts = λ c. rw (set-same ks i) (v.counts c);
    cached = λ p lo hi. v.cached p (omega arith) hi;
    placed = λ c p c-in lo. v.placed c p c-in (omega arith);
    finished = v.finished;
    index_bounds = v.index_bounds;
    length_index = v.length_index;
  }

  module _ (border : IsBorder sizes i) (b : ℕ) (ks cache index : List ℕ)
      (v : IsCycle sizes n i b ks cache index) where
    abbrev at_j : ℕ
    at_j = dec64 (index ! b)

    abbrev i' : ℕ
    i' = i + sizes ! b

    module _ (stop : ¬ (i < at_j)) where
      here : start sizes b ≡ i
      here = Cycle.stops_at_start sizes n i total small inside border b ks cache index v stop

      last : start sizes (suc b) ≡ i'
      last = omega (arith, here, start-suc sizes b)

      index_low : index ! b ≡ suc at_j
      index_low = Cycle.index-suc sizes n i total small inside border b ks cache index v

      pub size_pos : 0 < sizes ! b
      size_pos = Cycle.size_pos sizes n i total small inside border b ks cache index v

      ks-in : i < length ks
      ks-in = rw v.length_ks inside

      own : (p : ℕ) → i ≤ p → p < i' → set ks i b ! p ≡ b
      own p lo hi = elim (ℕ_discrete i p) [
        | yes e ↦ rw (← e) (set-get_self ks i b ks-in)
        | no ne ↦
            set-get_ne ks i p b ne
            ∙ v.placed b p (get_pos-lt sizes b size_pos) (omega (arith, ne))
                (omega (arith, index_low, stop)) (omega (arith, last))
      ]

      finished' :
          (c p : ℕ) → p < i' → start sizes c ≤ p → p < start sizes (suc c) → set ks i b ! p ≡ c
      finished' c p before lo hi = elim (dec_lt p i) [
        | yes h ↦ set-get_ne ks i p b (λ e. omega arith) ∙ v.finished c p h lo hi
        | no h ↦
            own p (omega arith) before
            ∙ same_bucket sizes b c p (omega (arith, here)) (omega (arith, last)) lo hi
      ]

      border' : IsBorder sizes i'
      border' c = elim (dec_lt b c) [
        | yes h ↦ inr (omega (arith, last, start_mono sizes (suc b) c h))
        | no h ↦ inl (omega (arith, last, start_mono sizes (suc c) (suc b) (omega arith)))
      ]

      index_bounds' :
          (c : ℕ)
          → c < length sizes
          → i' < start sizes (suc c)
          → (start sizes c ≤ set index b at_j ! c)
            × (0 < set index b at_j ! c)
            × (set index b at_j ! c ≤ start sizes (suc c))
      index_bounds' c c-in h =
          let ne : b ≢ c = λ e. omega (arith, last, ap (λ (t : ℕ). start sizes (suc t)) e) in
          rw (set-get_ne index b c at_j ne) (v.index_bounds c c-in (omega arith))

      placed' :
          (c p : ℕ)
          → c < length sizes
          → i' ≤ p
          → set index b at_j ! c ≤ p
          → p < start sizes (suc c)
          → set ks i b ! p ≡ c
      placed' c p c-in lo lp hi =
          let ne : b ≢ c = λ e. omega (arith, last, ap (λ (t : ℕ). start sizes (suc t)) e) in
          set-get_ne ks i p b (λ e. omega (arith, size_pos))
          ∙ v.placed c p c-in (omega (arith, size_pos)) (rw (set-get_ne index b c at_j ne) at lp) hi

      pub end_cycle : IsPartial sizes n i' (set ks i b) cache (set index b at_j)
      end_cycle = record {
        length_ks = length-set ks i b ∙ v.length_ks;
        length_cache = v.length_cache;
        counts = v.counts;
        cached = λ p lo hi.
            v.cached p (omega (arith, size_pos)) hi
            ∙ sym (set-get_ne ks i p b (λ e. omega (arith, size_pos)));
        placed = placed';
        finished = finished';
        index_bounds = index_bounds';
        length_index = length-set index b at_j ∙ v.length_index;
        border = border';
      }
