-- ===== src/Sequential/Classify/Rank.antt =====
-- Where a key belongs among ascending splitters.
use bingmann_sample_sort.Prelude.{
  ℕ, zero, suc, ◌+◌, ◌-◌, ◌*◌, ◌/◌, ◌^◌, ◌≤◌, ◌<◌, ◌≡◌, refl, ap, ◌∙◌, inl, inr, false, List, [],
  ◌∷◌, leb, ltb, ◌==◌, if◌then◌else◌, length, ◌!◌, arith, Bool-cases,
}
use bingmann_sample_sort.Sequential.Sorted.{IsSortedBy, Below}
use bingmann_sample_sort.Sequential.Classify.{middle, with_equal}

-- `splitter[i] <= splitter[i + 1]` everywhere
abbrev pub IsAscending : List ℕ → Type 0
IsAscending = IsSortedBy leb

-- A key falls into bucket `2 * i` strictly between splitter `i - 1` and splitter `i`, and into bucket
-- `2 * i + 1` if it is splitter `i`.
pub data Falls (splitter : List ℕ) (key : ℕ) : ℕ → Type 0 where
  less :
      (i : ℕ)
      → i ≤ length splitter
      → ((j : ℕ) → j < i → splitter ! j < key)
      → (i < length splitter → key < splitter ! i)
      → Falls splitter key (2 * i)
  equal : (i : ℕ) → i < length splitter → splitter ! i ≡ key → Falls splitter key (2 * i + 1)

-- The number of splitters below the key, in front of the first that is not.
abbrev pub rank : ℕ → List ℕ → ℕ
rank key [] = 0
rank key (s ∷ splitter) = let rest = suc (rank key splitter) in if leb key s then 0 else rest

-- The bucket of a key: each splitter below it has its own bucket and one in front.
abbrev pub bucket_of : ℕ → List ℕ → ℕ
bucket_of key [] = 0
bucket_of key (s ∷ splitter) =
    let rest = 2 + bucket_of key splitter in if ltb key s then 0 else if key == s then 1 else rest

with_equal-suc :
    (key s r : ℕ) (sp : List ℕ) → with_equal key (s ∷ sp) (suc r) ≡ 2 + with_equal key sp r
unfolding with_equal
with_equal-suc key s r sp = ground arith

-- The bucket that the test for an equal splitter makes of the rank.
pub bucket_of-rank : (key : ℕ) (sp : List ℕ) → with_equal key sp (rank key sp) ≡ bucket_of key sp
unfolding with_equal
bucket_of-rank key [] = refl
bucket_of-rank key (s ∷ sp) = elim (Bool-cases (leb key s)) [
  | inl le ↦ rw le (ground arith)
  | inr gt ↦
      let e1 : ltb key s ≡ false = ground arith in
      let e2 : (key == s) ≡ false = ground arith in
      rw (gt, e1, e2)
        (with_equal-suc key s (rank key sp) sp ∙ ap (λ (n : ℕ). 2 + n) (bucket_of-rank key sp))
]

pub rank-le_length : (key : ℕ) (sp : List ℕ) → rank key sp ≤ length sp
rank-le_length key [] = omega arith
rank-le_length key (s ∷ sp) = ground (arith, rank-le_length key sp)

pub rank-le : (key : ℕ) (sp : List ℕ) (i : ℕ) → i < length sp → key ≤ sp ! i → rank key sp ≤ i
rank-le key [] i h le = absurd (omega arith)
rank-le key (s ∷ sp) zero h le = ground arith
rank-le key (s ∷ sp) (suc i) h le = ground (arith, rank-le key sp i)

pub below_rank : (key : ℕ) (sp : List ℕ) (j : ℕ) → j < rank key sp → sp ! j < key
below_rank key [] j h = absurd (omega arith)
below_rank key (s ∷ sp) zero h = ground arith
below_rank key (s ∷ sp) (suc j) h = ground (arith, below_rank key sp j)

pub at_rank : (key : ℕ) (sp : List ℕ) → rank key sp < length sp → key ≤ sp ! rank key sp
at_rank key [] h = absurd (omega arith)
at_rank key (s ∷ sp) h = elim (Bool-cases (leb key s)) [
  | inl le ↦ rw le (ground arith)
  | inr gt ↦ rw gt (at_rank key sp (ground arith))
]

Below-get : (x : ℕ) (sp : List ℕ) (i : ℕ) → Below leb x sp → i < length sp → x ≤ sp ! i
Below-get x [] i b h = absurd (omega arith)
Below-get x (s ∷ sp) zero b h = ground (arith, b.0)
Below-get x (s ∷ sp) (suc i) b h = Below-get x sp i b.1 (omega arith)

pub IsAscending-get :
    (sp : List ℕ) (i j : ℕ) → IsAscending sp → i ≤ j → j < length sp → sp ! i ≤ sp ! j
IsAscending-get [] i j a h k = absurd (omega arith)
IsAscending-get (s ∷ sp) zero zero a h k = omega arith
IsAscending-get (s ∷ sp) zero (suc j) a h k = Below-get s sp j a.0 (omega arith)
IsAscending-get (s ∷ sp) (suc i) zero a h k = absurd (omega arith)
IsAscending-get (s ∷ sp) (suc i) (suc j) a h k =
    IsAscending-get sp i j a.1 (omega arith) (omega arith)

pub rank-gt :
    (key : ℕ) (sp : List ℕ) (i : ℕ)
    → IsAscending sp
    → i < length sp
    → sp ! i < key
    → i < rank key sp
rank-gt key [] i a h lt = absurd (omega arith)
rank-gt key (s ∷ sp) zero a h lt = ground arith
rank-gt key (s ∷ sp) (suc i) a h lt =
    let le = Below-get s sp i a.0 (omega arith) in
    let ih = rank-gt key sp i a.1 (omega arith) lt in ground arith

pub middle_bounds :
    (lo hi n : ℕ)
    → lo < hi
    → hi ≤ n
    → n < 2 ^ 31
    → (lo ≤ middle lo hi)
      × (middle lo hi < hi)
      × (middle lo hi - lo ≤ (hi - lo) / 2)
      × (hi - suc (middle lo hi) ≤ (hi - lo) / 2)
unfolding middle
middle_bounds lo hi n h k b = (omega arith, omega arith, omega arith, omega arith)
