-- ===== src/Parallel/SampleSortStep/Permuted.antt =====
-- src/parallel/bingmann-parallel_sample_sort.hpp: the distributed strings are the strings in another
-- order, and each stands in its bucket.
use mathlib.Core.List.{perm_middle}
use mathlib.Core.List.Perm
use bingmann_sample_sort.Prelude.{
  ℕ, zero, suc, ◌≡◌, ◌≢◌, ◌<◌, refl, sym, ap, List, [], ◌∷◌, ◌++◌, Perm, Bool, true, false, ◌==◌,
  if◌then◌else◌, arith, dec_lt,
}
use bingmann_sample_sort.Prelude.Flat.{flat, flat-agree}
use bingmann_sample_sort.Prelude.Reversed.{rev_onto, rev_onto-perm}
use bingmann_sample_sort.Parallel.SampleSortStep.Laws.{bucket_strings, distributed}

module _ {ℓ} {A : Type ℓ} where
  append_empty : (xs : List A) → xs ++ [] ≡ xs
  append_empty [] = refl
  append_empty (x ∷ xs) = ap (◌∷◌ x) (append_empty xs)

  reversed-perm : (xs : List A) → Perm (rev_onto xs []) xs
  reversed-perm xs = rw (append_empty xs) at (rev_onto-perm xs [])

  flat-perm :
      (n : ℕ) (f g : ℕ → List A) → ((i : ℕ) → i < n → Perm (f i) (g i)) → Perm (flat n f) (flat n g)
  unfolding flat
  flat-perm zero f g h = Perm.rfl
  flat-perm (suc n) f g h =
      Perm.append (flat-perm n f g (λ i lt. h i (omega arith))) (h n (omega arith))

  if_append :
      (t : Bool) (xs xs' ys : List A)
      → (if t then xs ++ ys else (xs' ++ ys)) ≡ (if t then xs else xs') ++ ys
  if_append true xs xs' ys = refl
  if_append false xs xs' ys = refl

  bucket_strings-append :
      (cls : A → ℕ) (b : ℕ) (xs ys : List A)
      → bucket_strings cls b (xs ++ ys) ≡ bucket_strings cls b xs ++ bucket_strings cls b ys
  unfolding bucket_strings
  bucket_strings-append cls b [] ys = refl
  bucket_strings-append cls b (x ∷ xs) ys = rw (bucket_strings-append cls b xs ys) (
      if_append (cls x == b) (x ∷ bucket_strings cls b xs) (bucket_strings cls b xs)
        (bucket_strings cls b ys))

  bucket_strings-flat :
      (cls : A → ℕ) (b n : ℕ) (strs : ℕ → List A)
      → flat n (λ p. bucket_strings cls b (strs p)) ≡ bucket_strings cls b (flat n strs)
  unfolding flat bucket_strings
  bucket_strings-flat cls b zero strs = refl
  bucket_strings-flat cls b (suc n) strs =
      rw (bucket_strings-flat cls b n strs)
        (sym (bucket_strings-append cls b (flat n strs) (strs n)))

  abbrev grown : ℕ → A → (ℕ → List A) → ℕ → List A
  grown c s f b = if c == b then s ∷ f b else f b

  grown_other : (c : ℕ) (s : A) (f : ℕ → List A) (b : ℕ) → c ≢ b → grown c s f b ≡ f b
  grown_other c s f b ne = ground arith

  grown_at : (c : ℕ) (s : A) (f : ℕ → List A) (b : ℕ) → c ≡ b → grown c s f b ≡ s ∷ f b
  grown_at c s f b e = ground arith

  -- One more string goes to one bucket.
  flat-cons :
      (c n : ℕ) (s : A) (f : ℕ → List A) → c < n → Perm (flat n (grown c s f)) (s ∷ flat n f)
  unfolding flat
  flat-cons c zero s f lt = absurd (omega arith)
  flat-cons c (suc n) s f lt = elim (dec_lt c n) [
    | yes below ↦
        rw (grown_other c s f n (λ e. omega (arith, e)))
          (Perm.append (flat-cons c n s f below) Perm.rfl)
    | no here ↦
        let old =
          flat-agree n (grown c s f) f (λ b l. grown_other c s f b (λ e. omega (arith, e))) in
        rw (grown_at c s f n (omega arith), old) (perm_middle (flat n f) (f n))
  ]

  empty : (n : ℕ) → Perm (flat {A = A} n (λ b. [])) []
  unfolding flat
  empty zero = Perm.rfl
  empty (suc n) = Perm.append (empty n) Perm.rfl

  flat-bucket_strings :
      (cls : A → ℕ) (n : ℕ)
      → ((x : A) → cls x < n)
      → (xs : List A) → Perm (flat n (λ b. bucket_strings cls b xs)) xs
  unfolding bucket_strings
  flat-bucket_strings cls n small [] = empty n
  flat-bucket_strings cls n small (x ∷ xs) =
      Perm.trans (flat-cons (cls x) n x (λ b. bucket_strings cls b xs) (small x))
        (Perm.cons x (flat-bucket_strings cls n small xs))

  pub brought-perm :
      (cls : A → ℕ) (b parts : ℕ) (strs : ℕ → List A)
      → Perm
          (flat parts (λ p. rev_onto (bucket_strings cls b (strs p)) []))
          (bucket_strings cls b (flat parts strs))
  brought-perm cls b parts strs =
      rw (sym (bucket_strings-flat cls b parts strs))
        (flat-perm parts _ _ (λ p l. reversed-perm (bucket_strings cls b (strs p))))

  pub distributed-perm :
      (cls : A → ℕ) (bktnum parts : ℕ) (strs : ℕ → List A)
      → ((x : A) → cls x < bktnum)
      → Perm (distributed cls bktnum parts strs) (flat parts strs)
  distributed-perm cls bktnum parts strs small =
      Perm.trans
        (flat-perm bktnum _ (λ b. bucket_strings cls b (flat parts strs))
          (λ b lt. brought-perm cls b parts strs))
        (flat-bucket_strings cls bktnum small (flat parts strs))
