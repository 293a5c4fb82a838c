-- ===== src/Sequential/SampleSort/Samples.antt =====
-- The splitters that are taken from the sorted sample, and their common prefixes.
use native.Mathlib.Nat.{mod-lt}
use bingmann_sample_sort.Prelude.{
  ℕ, zero, suc, ◌+◌, ◌*◌, ◌/◌, ◌%◌, ◌≤◌, ◌<◌, ◌≡◌, refl, ap, ◌∙◌, true, Option, none, some, List,
  [], ◌∷◌, leb, length, get_or, ◌!◌, All, arith, if_intro, subst,
}
use bingmann_sample_sort.Tools.Strings.{CString}
use bingmann_sample_sort.Tools.Keys.{get_char_uint64}
use bingmann_sample_sort.Tools.Keys.Load.{div_of}
use bingmann_sample_sort.Tools.KeyLcp.{lcp_key_type}
use bingmann_sample_sort.Sequential.Sorted.{Below, All-map}
use bingmann_sample_sort.Sequential.Classify.Rank.{IsAscending, IsAscending-get}
use bingmann_sample_sort.Sequential.SampleSort.{
  next_random, draw_samples, insert_key, sort_keys, preorder_loop, tree_builder_preorder,
}

pub All-get : (P : ℕ → Type 0) (xs : List ℕ) (i : ℕ) → All P xs → i < length xs → P (xs ! i)
All-get P [] i h k = absurd (omega arith)
All-get P (x ∷ xs) zero h k = h.0
All-get P (x ∷ xs) (suc i) h k = All-get P xs i h.1 (omega arith)

insert_key-All : (P : ℕ → Type 0) (k : ℕ) (xs : List ℕ) → P k → All P xs → All P (insert_key k xs)
unfolding insert_key
insert_key-All P k [] p h = (p, tt)
insert_key-All P k (x ∷ xs) p h =
    if_intro (All P) (leb k x) (k ∷ x ∷ xs) _ (λ le. (p, h))
      (λ gt. (h.0, insert_key-All P k xs p h.1))

pub sort_keys-All : (P : ℕ → Type 0) (xs : List ℕ) → All P xs → All P (sort_keys xs)
unfolding sort_keys
sort_keys-All P [] h = tt
sort_keys-All P (x ∷ xs) h = insert_key-All P x (sort_keys xs) h.0 (sort_keys-All P xs h.1)

insert_key-IsAscending : (k : ℕ) (xs : List ℕ) → IsAscending xs → IsAscending (insert_key k xs)
unfolding insert_key
insert_key-IsAscending k [] h = (tt, tt)
insert_key-IsAscending k (x ∷ xs) h =
    if_intro IsAscending (leb k x) (k ∷ x ∷ xs) _
      (λ le. (
        (
          le,
          All-map (λ y. leb x y ≡ true) (λ y. leb k y ≡ true) (λ y e. ground (arith, le, e)) xs h.0,
        ),
        h,
      ))
      (λ gt. (
        insert_key-All (λ y. leb x y ≡ true) k xs (ground (arith, gt)) h.0,
        insert_key-IsAscending k xs h.1,
      ))

pub sort_keys-IsAscending : (xs : List ℕ) → IsAscending (sort_keys xs)
unfolding sort_keys
sort_keys-IsAscending [] = tt
sort_keys-IsAscending (x ∷ xs) = insert_key-IsAscending x (sort_keys xs) (sort_keys-IsAscending xs)

length-insert_key : (k : ℕ) (xs : List ℕ) → length (insert_key k xs) ≡ suc (length xs)
unfolding insert_key
length-insert_key k [] = refl
length-insert_key k (x ∷ xs) =
    if_intro (λ l. length l ≡ suc (suc (length xs))) (leb k x) (k ∷ x ∷ xs) _ (λ le. refl)
      (λ gt. ap suc (length-insert_key k xs))

pub length-sort_keys : (xs : List ℕ) → length (sort_keys xs) ≡ length xs
unfolding sort_keys
length-sort_keys [] = refl
length-sort_keys (x ∷ xs) = length-insert_key x (sort_keys xs) ∙ ap suc (length-sort_keys xs)

-- A key of one of the strings.
abbrev pub IsSample : List CString → ℕ → ℕ → Type 0
IsSample strings depth k =
    (q : ℕ) × (q < length strings) × (k ≡ get_char_uint64 (get_or strings q []) depth)

pub draw_samples-IsSample :
    (k xn : ℕ) (strings : List CString) (depth : ℕ)
    → 0 < length strings
    → All (IsSample strings depth) (draw_samples k xn strings depth)
unfolding draw_samples
draw_samples-IsSample zero xn strings depth pos = tt
draw_samples-IsSample (suc k) xn strings depth pos = (
  (next_random xn % length strings, mod-lt (next_random xn) pos, refl),
  draw_samples-IsSample k (next_random xn) strings depth pos,
)

pub length-draw_samples :
    (k xn : ℕ) (strings : List CString) (depth : ℕ) → length (draw_samples k xn strings depth) ≡ k
unfolding draw_samples
length-draw_samples zero xn strings depth = refl
length-draw_samples (suc k) xn strings depth = ap suc (length-draw_samples k _ strings depth)

-- The loop takes every `f`th sample from `j` on.
module _ (f : ℕ) (samples : List ℕ) where
  abbrev splitters : ℕ → Option ℕ → ℕ → List ℕ
  splitters k prev j = (preorder_loop k prev j f samples).0

  abbrev lcps : ℕ → Option ℕ → ℕ → List ℕ
  lcps k prev j = (preorder_loop k prev j f samples).1

  length-splitters : (k : ℕ) (prev : Option ℕ) (j : ℕ) → length (splitters k prev j) ≡ k
  unfolding preorder_loop
  length-splitters zero prev j = refl
  length-splitters (suc k) prev j = ap suc (length-splitters k (some (samples ! j)) (j + f))

  get-splitters :
      (k : ℕ) (prev : Option ℕ) (j i : ℕ) → i < k → splitters k prev j ! i ≡ samples ! (j + i * f)
  unfolding preorder_loop
  get-splitters zero prev j i h = absurd (omega arith)
  get-splitters (suc k) prev j zero h = ap (◌!◌ samples) (omega arith)
  get-splitters (suc k) prev j (suc i) h =
      get-splitters k (some (samples ! j)) (j + f) i (omega arith) ∙ ap (◌!◌ samples) (grind arith)

  get-lcps :
      (k : ℕ) (prev : Option ℕ) (j i : ℕ)
      → suc i < k
      → lcps k prev j ! suc i ≡ lcp_key_type (splitters k prev j ! i) (splitters k prev j ! suc i)
  unfolding preorder_loop
  get-lcps zero prev j i h = absurd (omega arith)
  get-lcps (suc zero) prev j i h = absurd (omega arith)
  get-lcps (suc (suc k)) prev j zero h = refl
  get-lcps (suc (suc k)) prev j (suc i) h =
      get-lcps (suc k) (some (samples ! j)) (j + f) i (omega arith)

  first-lcps : (k j : ℕ) → lcps k none j ! 0 ≡ 0
  unfolding preorder_loop
  first-lcps zero j = refl
  first-lcps (suc k) j = refl

  last-lcps :
      (k : ℕ) (prev : Option ℕ) (j : ℕ) → (lcps k prev j ! k ≡ 0) × (length (lcps k prev j) ≡ suc k)
  unfolding preorder_loop
  last-lcps zero prev j = (refl, refl)
  last-lcps (suc k) prev j = let r = last-lcps k (some (samples ! j)) (j + f) in (r.0, ap suc r.1)

IsAscending-of :
    (xs : List ℕ) → ((i j : ℕ) → i ≤ j → j < length xs → xs ! i ≤ xs ! j) → IsAscending xs
IsAscending-of [] h = tt
IsAscending-of (x ∷ xs) h = (
  below xs (λ j lt. h 0 (suc j) (omega arith) (omega arith)),
  IsAscending-of xs (λ i j le lt. h (suc i) (suc j) (omega arith) (omega arith)),
)
  where
    below : (ys : List ℕ) → ((j : ℕ) → j < length ys → x ≤ ys ! j) → Below leb x ys
    below [] k = tt
    below (y ∷ ys) k = (le_leb (k 0 (omega arith)), below ys (λ j lt. k (suc j) (omega arith)))
      where
        le_leb : {y : ℕ} → x ≤ y → leb x y ≡ true
        le_leb h = ground arith

factor : (n m : ℕ) → 0 < n → m ≡ 2 * n → m / n ≡ 2
factor n m h e = div_of n m 2 0 h (omega arith)

-- With twice as many samples as splitters, the builder takes every second one.
pub tree_builder_preorder-loop :
    (numsplitters : ℕ) (samples : List ℕ)
    → 0 < numsplitters
    → length samples ≡ 2 * numsplitters
    → tree_builder_preorder numsplitters samples ≡ preorder_loop numsplitters none (2 / 2) 2 samples
unfolding tree_builder_preorder
tree_builder_preorder-loop n samples pos len = rw (factor n (length samples) pos len) refl

pub tree_builder_preorder_lem :
    (numsplitters : ℕ) (samples : List ℕ)
    → IsAscending samples
    → 0 < numsplitters
    → length samples ≡ 2 * numsplitters
    → let (splitter, splitter_lcp) = tree_builder_preorder numsplitters samples in
      (length splitter ≡ numsplitters)
      × IsAscending splitter
      × ((i : ℕ) → i < numsplitters → splitter ! i ≡ samples ! (1 + i * 2))
      × (splitter_lcp ! 0 ≡ 0)
      × ((i : ℕ)
          → suc i < numsplitters
          → splitter_lcp ! suc i ≡ lcp_key_type (splitter ! i) (splitter ! suc i))
      × (splitter_lcp ! numsplitters ≡ 0)
unfolding tree_builder_preorder
tree_builder_preorder_lem n samples asc pos len = rw (factor n (length samples) pos len) (
  count,
  IsAscending-of _ (λ i j le short.
      let lt : j < n = subst (λ m. j < m) count short in
      let e1 = get-splitters 2 samples n none 1 i (omega arith) in
      let e2 = get-splitters 2 samples n none 1 j (omega arith) in
      let a = IsAscending-get samples (1 + i * 2) (1 + j * 2) asc (omega arith) (omega arith) in
      omega arith),
  get-splitters 2 samples n none 1,
  first-lcps 2 samples n 1,
  get-lcps 2 samples n none 1,
  (last-lcps 2 samples n none 1).0,
)
  where
    count : length (splitters 2 samples n none 1) ≡ n
    count = length-splitters 2 samples n none 1
