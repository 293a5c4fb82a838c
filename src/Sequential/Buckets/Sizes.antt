-- ===== src/Sequential/Buckets/Sizes.antt =====
-- What counting and summing give: each bucket's size, and where it starts and ends.
use bingmann_sample_sort.Prelude.{
  ℕ, zero, suc, ◌+◌, ◌≤◌, ◌<◌, ◌≡◌, ◌⊎◌, inl, inr, refl, sym, ap, ◌∙◌, List, [], ◌∷◌, arith, ◌==◌,
  if◌then◌else◌, length, set, length-set, replicate, length-replicate, ◌!◌, sum, count, hit, All,
  Bool-cases, dec_lt, sum-set,
}
use bingmann_sample_sort.Sequential.Buckets.{count_loop, count_buckets, prefix_loop, prefix_sum}

-- The first place of bucket `c`; its end is the start of the next bucket.
abbrev pub start : List ℕ → ℕ → ℕ
start sizes zero = 0
start [] (suc c) = 0
start (s ∷ sizes) (suc c) = s + start sizes c

pub start-suc : (sizes : List ℕ) (c : ℕ) → start sizes (suc c) ≡ start sizes c + sizes ! c
start-suc [] zero = omega arith
start-suc [] (suc c) = omega arith
start-suc (s ∷ sizes) zero = omega arith
start-suc (s ∷ sizes) (suc c) = omega (arith, start-suc sizes c)

pub start_mono : (sizes : List ℕ) (b c : ℕ) → b ≤ c → start sizes b ≤ start sizes c
start_mono sizes zero c h = omega arith
start_mono sizes (suc b) zero h = absurd (omega arith)
start_mono [] (suc b) (suc c) h = omega arith
start_mono (s ∷ sizes) (suc b) (suc c) h = omega (arith, start_mono sizes b c (omega arith))

pub start-le-sum : (sizes : List ℕ) (c : ℕ) → start sizes c ≤ sum sizes
start-le-sum sizes zero = omega arith
start-le-sum [] (suc c) = omega arith
start-le-sum (s ∷ sizes) (suc c) = omega (arith, start-le-sum sizes c)

pub start-length : (sizes : List ℕ) → start sizes (length sizes) ≡ sum sizes
start-length [] = refl
start-length (s ∷ sizes) = omega (arith, start-length sizes)

length-count_loop : (sizes cache : List ℕ) → length (count_loop sizes cache) ≡ length sizes
unfolding count_loop
length-count_loop sizes [] = refl
length-count_loop sizes (b ∷ cache) =
    length-count_loop (set sizes b (sizes ! b + 1)) cache ∙ length-set sizes b _

bump-get :
    (sizes : List ℕ) (b c : ℕ)
    → c < length sizes
    → set sizes b (sizes ! b + 1) ! c ≡ sizes ! c + hit b c
bump-get [] b c h = absurd (omega arith)
bump-get (s ∷ sizes) zero zero h = refl
bump-get (s ∷ sizes) zero (suc c) h = ground arith
bump-get (s ∷ sizes) (suc b) zero h = ground arith
bump-get (s ∷ sizes) (suc b) (suc c) h = ground (arith, bump-get sizes b c (omega arith))

count_loop-get :
    (sizes cache : List ℕ) (c : ℕ)
    → c < length sizes
    → count_loop sizes cache ! c ≡ sizes ! c + count c cache
unfolding count_loop
count_loop-get sizes [] c h = omega arith
count_loop-get sizes (b ∷ cache) c h = omega (
  arith,
  count_loop-get (set sizes b (sizes ! b + 1)) cache c (rw (length-set sizes b (sizes ! b + 1)) h),
  bump-get sizes b c h,
)

replicate-get : (n c : ℕ) → replicate n 0 ! c ≡ 0
replicate-get zero c = refl
replicate-get (suc n) zero = refl
replicate-get (suc n) (suc c) = replicate-get n c

pub length-count_buckets : (n : ℕ) (cache : List ℕ) → length (count_buckets n cache) ≡ n
unfolding count_buckets
length-count_buckets n cache = length-count_loop (replicate n 0) cache ∙ length-replicate n 0

-- After the counting loop each bucket's size is the number of the strings classified into it.
pub count_buckets-get :
    (n : ℕ) (cache : List ℕ) (c : ℕ) → c < n → count_buckets n cache ! c ≡ count c cache
unfolding count_buckets
count_buckets-get n cache c h = omega (
  arith,
  count_loop-get (replicate n 0) cache c (rw (length-replicate {A = ℕ} n 0) h),
  replicate-get n c,
)

-- the sum
prefix_loop-get :
    (before last : ℕ) (sizes : List ℕ) (c : ℕ)
    → c < length sizes
    → (prefix_loop before last sizes).0 ! c ≡ before + start sizes (suc c)
unfolding prefix_loop
prefix_loop-get before last [] c h = absurd (omega arith)
prefix_loop-get before last (s ∷ sizes) zero h = omega arith
prefix_loop-get before last (s ∷ sizes) (suc c) h =
    omega (arith, prefix_loop-get (before + s) (if s == 0 then last else s) sizes c (omega arith))

pub prefix_sum-get :
    (sizes : List ℕ) (c : ℕ) → c < length sizes → (prefix_sum sizes).0 ! c ≡ start sizes (suc c)
unfolding prefix_sum
prefix_sum-get [] c h = absurd (omega arith)
prefix_sum-get (s ∷ sizes) zero h = omega arith
prefix_sum-get (s ∷ sizes) (suc c) h = prefix_loop-get s s sizes c (omega arith)

length-prefix_loop :
    (before last : ℕ) (sizes : List ℕ) → length (prefix_loop before last sizes).0 ≡ length sizes
unfolding prefix_loop
length-prefix_loop before last [] = refl
length-prefix_loop before last (s ∷ sizes) =
    ap suc (length-prefix_loop (before + s) (if s == 0 then last else s) sizes)

pub length-prefix_sum : (sizes : List ℕ) → length (prefix_sum sizes).0 ≡ length sizes
unfolding prefix_sum
length-prefix_sum [] = refl
length-prefix_sum (s ∷ sizes) = ap suc (length-prefix_loop s s sizes)

-- `last` is the size of a bucket behind which all are empty.
abbrev pub IsLast : List ℕ → ℕ → ℕ → Type 0
IsLast sizes last b =
    (sizes ! b ≡ last) × ((c : ℕ) → b < c → sizes ! c ≡ 0) × (start sizes (suc b) ≡ sum sizes)

later_cons :
    (s : ℕ) (sizes : List ℕ) (b : ℕ)
    → ((c : ℕ) → b < c → sizes ! c ≡ 0)
    → (c : ℕ) → suc b < c
    → (s ∷ sizes) ! c ≡ 0
later_cons s sizes b later zero h = absurd (omega arith)
later_cons s sizes b later (suc c) h = later c (omega arith)

later_zero :
    (s : ℕ) (sizes : List ℕ) (c : ℕ) → 0 < c → ((c : ℕ) → sizes ! c ≡ 0) → (s ∷ sizes) ! c ≡ 0
later_zero s sizes zero h zeros = absurd (omega arith)
later_zero s sizes (suc c) h zeros = zeros c

zeros_cons :
    (s : ℕ) (sizes : List ℕ) → s ≡ 0 → ((c : ℕ) → sizes ! c ≡ 0) → (c : ℕ) → (s ∷ sizes) ! c ≡ 0
zeros_cons s sizes e zeros zero = e
zeros_cons s sizes e zeros (suc c) = zeros c

prefix_loop-IsLast :
    (before last : ℕ) (sizes : List ℕ)
    → ((b : ℕ) × IsLast sizes (prefix_loop before last sizes).1 b)
      ⊎ ((sum sizes ≡ 0) × ((prefix_loop before last sizes).1 ≡ last) × ((c : ℕ) → sizes ! c ≡ 0))
unfolding prefix_loop
prefix_loop-IsLast before last [] = inr (refl, refl, λ c. refl)
prefix_loop-IsLast before last (s ∷ sizes) =
    elim (prefix_loop-IsLast (before + s) (if s == 0 then last else s) sizes) [
      | inl (b, (size, later, end)) ↦ inl (suc b, (size, later_cons s sizes b later, omega arith))
      | inr (empty, same, zeros) ↦ elim (Bool-cases (s == 0)) [
        | inl z ↦ inr (ground arith, ground arith, zeros_cons s sizes (ground arith) zeros)
        | inr n ↦ inl (0, (ground arith, λ c h. later_zero s sizes c h zeros, omega arith))
      ]
    ]

-- The last size that `prefix_sum` returns belongs to the bucket where the strings end.
pub prefix_sum-IsLast :
    (sizes : List ℕ) → 0 < sum sizes → (b : ℕ) × IsLast sizes (prefix_sum sizes).1 b
unfolding prefix_sum
prefix_sum-IsLast [] h = absurd (omega arith)
prefix_sum-IsLast (s ∷ sizes) h = elim (prefix_loop-IsLast s s sizes) [
  | inl (b, (size, later, end)) ↦ (suc b, (size, later_cons s sizes b later, omega arith))
  | inr (empty, same, zeros) ↦ (0, (sym same, λ c h. later_zero s sizes c h zeros, omega arith))
]

pub get_pos-lt : (xs : List ℕ) (i : ℕ) → 0 < xs ! i → i < length xs
get_pos-lt [] i h = absurd (omega arith)
get_pos-lt (x ∷ xs) zero h = omega arith
get_pos-lt (x ∷ xs) (suc i) h = omega (arith, get_pos-lt xs i h)

-- No place belongs to two buckets.
pub same_bucket :
    (sizes : List ℕ) (b c p : ℕ)
    → start sizes b ≤ p
    → p < start sizes (suc b)
    → start sizes c ≤ p
    → p < start sizes (suc c)
    → b ≡ c
same_bucket sizes b c p lb rb lc rc =
    let less = λ (x y : ℕ) (h : suc x ≤ y). start_mono sizes (suc x) y h in
    elim (dec_lt b c) [
      | yes h ↦ absurd (omega (arith, less b c h))
      | no n ↦ elim (dec_lt c b) [ yes h ↦ absurd (omega (arith, less c b h)) | no m ↦ omega arith ]
    ]

sum-count_loop :
    (sizes cache : List ℕ)
    → All (λ b. b < length sizes) cache
    → sum (count_loop sizes cache) ≡ sum sizes + length cache
unfolding count_loop
sum-count_loop sizes [] h = omega arith
sum-count_loop sizes (b ∷ cache) h =
    let next = set sizes b (sizes ! b + 1) in
    let h' : All (λ b. b < length next) cache = rw (length-set sizes b (sizes ! b + 1)) h.1 in
    omega (arith, sum-count_loop next cache h', sum-set sizes b (sizes ! b + 1) h.0)

sum-replicate : (n : ℕ) → sum (replicate n 0) ≡ 0
sum-replicate zero = refl
sum-replicate (suc n) = omega (arith, sum-replicate n)

-- The sizes of the buckets add up to the number of strings.
pub sum-count_buckets :
    (n : ℕ) (cache : List ℕ) → All (λ b. b < n) cache → sum (count_buckets n cache) ≡ length cache
unfolding count_buckets
sum-count_buckets n cache h =
    let h' : All (λ b. b < length (replicate {A = ℕ} n 0)) cache =
      rw (length-replicate {A = ℕ} n 0) h in
    omega (arith, sum-count_loop (replicate n 0) cache h', sum-replicate n)

-- Of buckets past the last one there is no string either.
pub count_above :
    (n : ℕ) (cache : List ℕ) (c : ℕ) → All (λ b. b < n) cache → n ≤ c → count c cache ≡ 0
count_above n [] c h le = refl
count_above n (b ∷ cache) c h le = ground (arith, count_above n cache c h.1 le)

pub get_above : (xs : List ℕ) (c : ℕ) → length xs ≤ c → xs ! c ≡ 0
get_above [] c h = refl
get_above (x ∷ xs) zero h = absurd (omega arith)
get_above (x ∷ xs) (suc c) h = get_above xs c (omega arith)

pub count_buckets_counts :
    (n : ℕ) (cache : List ℕ) (c : ℕ)
    → All (λ b. b < n) cache
    → count c cache ≡ count_buckets n cache ! c
count_buckets_counts n cache c h = elim (dec_lt c n) [
  | yes lt ↦ sym (count_buckets-get n cache c lt)
  | no ge ↦
      let z =
        get_above (count_buckets n cache) c (rw (length-count_buckets n cache) (omega arith)) in
      omega (arith, count_above n cache c h (omega arith))
]
