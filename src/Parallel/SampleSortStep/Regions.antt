-- ===== src/Parallel/SampleSortStep/Regions.antt =====
-- src/parallel/bingmann-parallel_sample_sort.hpp, `distribute`: the shadow array as a grid of regions, one
-- for each bucket and part, that a job fills from its end to its start.
use bingmann_sample_sort.Prelude.{
  ℕ, zero, suc, ◌+◌, ◌≡◌, ◌≢◌, ◌<◌, ◌≤◌, refl, sym, ap, ◌∙◌, List, [], ◌∷◌, map, ◌==◌,
  if◌then◌else◌, length, set, length-set, drop, count, All, arith, dec_lt, ℕ_discrete,
}
use bingmann_sample_sort.Prelude.Family.{update, update_at, update_other}
use bingmann_sample_sort.Prelude.Flat.{
  tally, tally-agree, tally-add, tally-zeros, tally_mono, flat, flat-agree, length-flat, set-flat,
}
use bingmann_sample_sort.Prelude.Reversed.{rev_onto}
use bingmann_sample_sort.Parallel.SampleSortStep.Sums.{before}

tally_one : (n b : ℕ) → b < n → tally n (λ c. if b == c then 1 else 0) ≡ 1
unfolding tally
tally_one zero b lt = absurd (omega arith)
tally_one (suc n) b lt = elim (dec_lt b n) [
  | yes below ↦ let rest = tally_one n b below in ground arith
  | no here ↦
      let none =
        tally-agree n (λ c. if b == c then 1 else 0) (λ c. 0) (λ c l. ground arith)
        ∙ tally-zeros n in
      ground arith
]

pub tally-suc-le : (p n : ℕ) (f : ℕ → ℕ) → p < n → tally p f + f p ≤ tally n f
unfolding tally
tally-suc-le p n f lt = tally_mono (suc p) n f (omega arith)

module _ {ℓ} {A : Type ℓ} where
  -- The strings of bucket `b`, in order.
  unfoldable pub of_bucket : ℕ → List (ℕ × A) → List A
  of_bucket b [] = []
  of_bucket b ((c, s) ∷ todo) = let rest = of_bucket b todo in if c == b then s ∷ rest else rest

  pub length-of_bucket :
      (b : ℕ) (xs : List (ℕ × A)) → length (of_bucket b xs) ≡ count b (map (λ c. c.0) xs)
  unfolding of_bucket
  length-of_bucket b [] = refl
  length-of_bucket b ((c, s) ∷ xs) = ground (arith, length-of_bucket b xs)

  -- Each string is in one bucket.
  pub tally-of_bucket :
      (n : ℕ) (xs : List (ℕ × A))
      → All (λ c. c.0 < n) xs
      → tally n (λ b. length (of_bucket b xs)) ≡ length xs
  unfolding of_bucket
  tally-of_bucket n [] known = tally-zeros n
  tally-of_bucket n ((c, s) ∷ xs) known =
      tally-agree n _ _ (λ b lt. ground arith)
      ∙ tally-add n (λ b. if c == b then 1 else 0) (λ b. length (of_bucket b xs))
      ∙ omega (arith, tally_one n c known.0, tally-of_bucket n xs known.1)

  pub of_bucket-same :
      (b : ℕ) (s : A) (xs : List (ℕ × A)) → of_bucket b ((b, s) ∷ xs) ≡ s ∷ of_bucket b xs
  unfolding of_bucket
  of_bucket-same b s xs = ground arith

  pub of_bucket-other :
      (b c : ℕ) (s : A) (xs : List (ℕ × A)) → c ≢ b → of_bucket b ((c, s) ∷ xs) ≡ of_bucket b xs
  unfolding of_bucket
  of_bucket-other b c s xs ne = ground arith

  drop_all : (xs : List A) → drop (length xs) xs ≡ []
  drop_all [] = refl
  drop_all (x ∷ xs) = drop_all xs

  drop-set :
      (k : ℕ) (xs : List A) (v : A) → k < length xs → drop k (set xs k v) ≡ v ∷ drop (suc k) xs
  drop-set k [] v lt = absurd (omega arith)
  drop-set zero (x ∷ xs) v lt = refl
  drop-set (suc k) (x ∷ xs) v lt = drop-set k xs v (omega arith)

  -- A region that starts at `start`: what it holds behind its index is what has been moved there.
  pub record IsFilled (b start : ℕ) (row : List A) (index : ℕ) (todo all : List (ℕ × A))
      : Type ℓ where
    pub at : index ≡ start + length (of_bucket b todo)
    pub room : length row ≡ length (of_bucket b all)
    pub fits : length (of_bucket b todo) ≤ length row
    pub moved :
        rev_onto (of_bucket b todo) (drop (length (of_bucket b todo)) row)
        ≡ rev_onto (of_bucket b all) []

  pub IsFilled-start :
      (b start : ℕ) (row : List A) (index : ℕ) (all : List (ℕ × A))
      → length row ≡ length (of_bucket b all)
      → index ≡ start + length (of_bucket b all)
      → IsFilled b start row index all all
  IsFilled-start b start row index all e at = record {
    at = at;
    room = e;
    fits = omega (arith, e);
    moved = rw (sym e, drop_all row) refl;
  }

  pub IsFilled-put :
      (b start : ℕ) (row : List A) (index index' : ℕ) (s : A) (todo all : List (ℕ × A))
      → IsFilled b start row index ((b, s) ∷ todo) all
      → index' ≡ start + length (of_bucket b todo)
      → IsFilled b start (set row (length (of_bucket b todo)) s) index' todo all
  unfolding rev_onto
  IsFilled-put b start row index index' s todo all old at =
      let one = of_bucket-same b s todo in
      let room = length-set row (length (of_bucket b todo)) s in
      let in_row : length (of_bucket b todo) < length row = rw one at old.fits in
      let done = rw one at old.moved in
      record {
        at = at;
        room = room ∙ old.room;
        fits = omega (arith, room, in_row);
        moved = rw (drop-set (length (of_bucket b todo)) row s in_row) done;
      }

  pub IsFilled-other :
      (b start : ℕ) (row : List A) (index c : ℕ) (s : A) (todo all : List (ℕ × A))
      → c ≢ b
      → IsFilled b start row index ((c, s) ∷ todo) all
      → IsFilled b start row index todo all
  IsFilled-other b start row index c s todo all ne old =
      let same = of_bucket-other b c s todo ne in
      record {
        at = rw same at old.at;
        room = old.room;
        fits = rw same at old.fits;
        moved = rw same at old.moved;
      }

  pub IsFilled-end :
      (b start : ℕ) (row : List A) (index : ℕ) (all : List (ℕ × A))
      → IsFilled b start row index [] all
      → (row ≡ rev_onto (of_bucket b all) []) × (index ≡ start)
  unfolding of_bucket rev_onto
  IsFilled-end b start row index all old = (old.moved, old.at ∙ omega arith)

  pub grid_at :
      (rows : ℕ → ℕ → List A) (b p : ℕ) (row : List A)
      → update rows b (update (rows b) p row) b p ≡ row
  grid_at rows b p row =
      rw (update_at rows b (update (rows b) p row) b refl) (update_at (rows b) p row p refl)

  pub grid_other_part :
      (rows : ℕ → ℕ → List A) (b p c q : ℕ) (row : List A)
      → p ≢ q
      → update rows b (update (rows b) p row) c q ≡ rows c q
  grid_other_part rows b p c q row other = elim (ℕ_discrete b c) [
    | yes same ↦
        rw (update_at rows b (update (rows b) p row) c same)
          (update_other (rows b) p row q other ∙ ap (λ z. rows z q) same)
    | no ne ↦ rw (update_other rows b (update (rows b) p row) c ne) refl
  ]

  pub grid_other_bucket :
      (rows : ℕ → ℕ → List A) (b p c q : ℕ) (row : List A)
      → b ≢ c
      → update rows b (update (rows b) p row) c q ≡ rows c q
  grid_other_bucket rows b p c q row ne = rw (update_other rows b (update (rows b) p row) c ne) refl

  -- A write to the place that the sizes of the regions give is a write into one region.
  pub grid-set :
      (bktnum parts : ℕ) (rows : ℕ → ℕ → List A) (size : ℕ → ℕ → ℕ) (b p k : ℕ) (s : A)
      → ((c q : ℕ) → c < bktnum → q < parts → length (rows c q) ≡ size c q)
      → b < bktnum
      → p < parts
      → k < size b p
      → set (flat bktnum (λ c. flat parts (rows c))) (before size parts b p + k) s
        ≡ flat bktnum (λ c. flat parts (update rows b (update (rows b) p (set (rows b p) k s)) c))
  grid-set bktnum parts rows size b p k s sizes lt_b lt_p lt_k =
      ap (λ z. set (flat bktnum wide) z s) place
      ∙ set-flat bktnum wide b inner s lt_b in_row
      ∙ flat-agree bktnum _ _ (λ c lt. same_row c)
    where
      wide : ℕ → List A
      wide c = flat parts (rows c)

      inner : ℕ
      inner = tally p (λ q. length (rows b q)) + k

      new : ℕ → List A
      new = update (rows b) p (set (rows b p) k s)

      row_size : (c : ℕ) → c < bktnum → length (wide c) ≡ tally parts (size c)
      row_size c lt = length-flat parts (rows c) ∙ tally-agree parts _ _ (λ q l. sizes c q lt l)

      place : before size parts b p + k ≡ tally b (λ c. length (wide c)) + inner
      place =
          let above =
            tally-agree b (λ c. length (wide c)) (λ c. tally parts (size c))
              (λ c lt. row_size c (omega arith)) in
          let left =
            tally-agree p (λ q. length (rows b q)) (size b)
              (λ q lt. sizes b q lt_b (omega arith)) in
          omega (arith, above, left)

      in_row : inner < length (wide b)
      in_row =
          let left : tally p (λ q. length (rows b q)) + length (rows b p)
              ≤ tally parts (λ q. length (rows b q)) =
            tally-suc-le p parts (λ q. length (rows b q)) lt_p in
          omega (arith, length-flat parts (rows b), sizes b p lt_b lt_p, left)

      same_row : (c : ℕ) → update wide b (set (wide b) inner s) c ≡ flat parts (update rows b new c)
      same_row c = elim (ℕ_discrete b c) [
        | yes e ↦
            rw (update_at wide b (set (wide b) inner s) c e, update_at rows b new c e)
              (set-flat parts (rows b) p k s lt_p (rw (sizes b p lt_b lt_p) lt_k))
        | no other ↦
            rw (update_other wide b (set (wide b) inner s) c other, update_other rows b new c other)
              refl
      ]
