-- ===== src/Sequential/SampleSort/Plan.antt =====
-- What the splitters, their prefixes and the classifier promise, and what follows for keys in buckets.
use mathlib.Core.List.Perm
use bingmann_sample_sort.Prelude.{
  ℕ, suc, ◌+◌, ◌*◌, ◌%◌, ◌^◌, ◌≤◌, ◌<◌, ◌≡◌, refl, Bool, true, some, List, [], ◌∷◌, ◌==◌, length,
  ◌!◌, All, arith, subst, dec_lt,
}
use bingmann_sample_sort.Tools.Strings.{CString, IsBytes, IsBytes-drop, get_chars}
use bingmann_sample_sort.Tools.Keys.{get_uint64}
use bingmann_sample_sort.Tools.Keys.Order.{get_char_simple-lt}
use bingmann_sample_sort.Tools.KeyLcp.{lcp_key_type}
use bingmann_sample_sort.Sequential.Sorted.{IsSortedBy, Sorts}
use bingmann_sample_sort.Sequential.Classify.Rank.{IsAscending, IsAscending-get, Falls}

-- What the builder of the splitters and the classifier promise to the level that uses them.
pub record IsPlan (sp : List ℕ) (find_bkt lcp : ℕ → ℕ) (is_done : ℕ → Bool) : Type 0 where
  pub asc : IsAscending sp
  pub some_splitter : 0 < length sp
  pub few_splitters : 2 * length sp + 1 ≤ 2 ^ 16
  pub keys : (i : ℕ) → i < length sp → sp ! i < 256 ^ 8
  pub falls : (key : ℕ) → Falls sp key (find_bkt key)
  pub lcp_first : lcp 0 ≡ 0
  pub lcp_next : (i : ℕ) → suc i < length sp → lcp (suc i) ≡ lcp_key_type (sp ! i) (sp ! suc i)
  pub done_iff : (i : ℕ) → i < length sp → is_done i ≡ (sp ! i % 256 == 0)

pub Falls-le : (sp : List ℕ) (key b : ℕ) → Falls sp key b → b < 2 * length sp + 1
Falls-le sp key b (Falls.less i le lo hi) = omega arith
Falls-le sp key b (Falls.equal i lt e) = omega arith

pub Falls-even :
    (sp : List ℕ) (key b k : ℕ)
    → Falls sp key b
    → b ≡ 2 * k
    → ((j : ℕ) → j < k → sp ! j < key) × (k < length sp → key < sp ! k)
Falls-even sp key b k (Falls.less i le lo hi) e =
    let same : i ≡ k = omega arith in
    subst (λ z. ((j : ℕ) → j < z → sp ! j < key) × (z < length sp → key < sp ! z)) same (lo, hi)
Falls-even sp key b k (Falls.equal i lt eq) e = absurd (omega arith)

pub Falls-odd :
    (sp : List ℕ) (key b k : ℕ) → Falls sp key b → b ≡ 2 * k + 1 → (k < length sp) × (sp ! k ≡ key)
Falls-odd sp key b k (Falls.less i le lo hi) e = absurd (omega arith)
Falls-odd sp key b k (Falls.equal i lt eq) e =
    let same : i ≡ k = omega arith in subst (λ z. (z < length sp) × (sp ! z ≡ key)) same (lt, eq)

-- A key that is a splitter falls into the bucket of an equal splitter.
pub splitter_odd :
    (sp : List ℕ) (key b j : ℕ)
    → IsAscending sp
    → Falls sp key b
    → j < length sp
    → sp ! j ≡ key
    → b % 2 ≡ 1
splitter_odd sp key b j asc (Falls.less i le lo hi) h e = absurd (elim (dec_lt j i) [
  | yes before ↦ omega (arith, lo j before)
  | no after ↦ omega (arith, hi (omega arith), IsAscending-get sp i j asc (omega arith) h)
])
splitter_odd sp key b j asc (Falls.equal i lt eq) h e = omega arith

-- Keys in different buckets are in the order of the buckets.
pub Falls-cross :
    (sp : List ℕ) (k1 k2 b1 b2 : ℕ)
    → IsAscending sp
    → Falls sp k1 b1
    → Falls sp k2 b2
    → b1 < b2
    → k1 ≤ k2
Falls-cross sp k1 k2 b1 b2 asc (Falls.less i le lo hi) (Falls.less j le2 lo2 hi2) h =
    omega (arith, hi (omega arith), lo2 i (omega arith))
Falls-cross sp k1 k2 b1 b2 asc (Falls.less i le lo hi) (Falls.equal j lt e) h =
    omega (arith, hi (omega arith), IsAscending-get sp i j asc (omega arith) lt)
Falls-cross sp k1 k2 b1 b2 asc (Falls.equal i lt e) (Falls.less j le2 lo2 hi2) h =
    omega (arith, lo2 i (omega arith))
Falls-cross sp k1 k2 b1 b2 asc (Falls.equal i lt e) (Falls.equal j lt2 e2) h =
    omega (arith, IsAscending-get sp i j asc (omega arith) lt2)

pub few :
    (leq : CString → CString → Bool) (xs : List CString) → length xs ≤ 1 → Sorts leq xs (some xs)
few leq [] h = ([], refl, tt, Perm.rfl)
few leq (x ∷ []) h = (x ∷ [], refl, (tt, tt), Perm.rfl)
few leq (x ∷ y ∷ xs) h = absurd (omega arith)

-- Strings of which each is at most each other are sorted as they lie.
pub All-leq :
    (leq : CString → CString → Bool) (P : CString → Type 0)
    → ((x y : CString) → P x → P y → leq x y ≡ true)
    → (xs : List CString) → All P xs
    → Sorts leq xs (some xs)
All-leq leq P f xs h = (xs, refl, sorted xs h, Perm.rfl)
  where
    below : (x : CString) (ys : List CString) → P x → All P ys → All (λ y. leq x y ≡ true) ys
    below x [] p k = tt
    below x (y ∷ ys) p k = (f x y p k.0, below x ys p k.1)

    sorted : (xs : List CString) → All P xs → IsSortedBy leq xs
    sorted [] k = tt
    sorted (x ∷ xs) k = (below x xs k.0 k.1, sorted xs k.1)

pub get_uint64-lt : (depth : ℕ) (s : CString) → IsBytes s → get_uint64 s depth < 256 ^ 8
unfolding get_uint64
get_uint64-lt depth s h = get_char_simple-lt 8 (get_chars s depth) (IsBytes-drop depth s h)
