-- ===== src/Prelude/Reversed.antt =====
-- Arrays whose front part is kept as a list, the last element first.
use mathlib.Core.List.{List, [], ◌∷◌, ◌++◌, Perm, perm_middle}
use mathlib.Core.List.Perm
use mathlib.Core.Option.{some}
use mathlib.Core.Path.{◌≡◌, refl}
use Prim.Native.Nat.{ℕ, suc, ◌+◌}
use native.Mathlib.Nat.{zero-add, add-zero}
use native.Mathlib.Omega.{arith}
use bingmann_sample_sort.Prelude.Lists.{length, get_or, get_elem?, set}

shift : (a k : ℕ) → suc a + k ≡ a + suc k
shift a k = omega arith

module _ {ℓ} {A : Type ℓ} where
  -- The array whose sorted part is `rp`, last element first, with `rest` behind it.
  unfoldable pub rev_onto : List A → List A → List A
  rev_onto [] rest = rest
  rev_onto (p ∷ rp) rest = rev_onto rp (p ∷ rest)

  get-rev_onto :
      (rp rest : List A) (d : A) (k : ℕ)
      → get_or (rev_onto rp rest) (length rp + k) d ≡ get_or rest k d
  unfolding rev_onto
  get-rev_onto [] rest d k = rw zero-add refl
  get-rev_onto (p ∷ rp) rest d k = rw shift (get-rev_onto rp (p ∷ rest) d (suc k))

  get_elem?-rev_onto :
      (rp rest : List A) (k : ℕ) → get_elem? (rev_onto rp rest) (length rp + k) ≡ get_elem? rest k
  unfolding rev_onto
  get_elem?-rev_onto [] rest k = rw zero-add refl
  get_elem?-rev_onto (p ∷ rp) rest k = rw shift (get_elem?-rev_onto rp (p ∷ rest) (suc k))

  set-rev_onto :
      (rp rest : List A) (k : ℕ) (v : A)
      → set (rev_onto rp rest) (length rp + k) v ≡ rev_onto rp (set rest k v)
  unfolding rev_onto
  set-rev_onto [] rest k v = rw zero-add refl
  set-rev_onto (p ∷ rp) rest k v = rw shift (set-rev_onto rp (p ∷ rest) (suc k) v)

  pub top : (p : A) (rp rest : List A) (d : A) → get_or (rev_onto (p ∷ rp) rest) (length rp) d ≡ p
  unfolding rev_onto
  top p rp rest d = rw add-zero at (get-rev_onto rp (p ∷ rest) d 0)

  pub set_top :
      (rp : List A) (h : A) (rest : List A) (v : A)
      → set (rev_onto rp (h ∷ rest)) (length rp) v ≡ rev_onto rp (v ∷ rest)
  set_top rp h rest v = rw add-zero at (set-rev_onto rp (h ∷ rest) 0 v)

  pub next_elem :
      (rp : List A) (h : A) (rest : List A)
      → get_elem? (rev_onto rp (h ∷ rest)) (length rp) ≡ some h
  next_elem rp h rest = rw add-zero at (get_elem?-rev_onto rp (h ∷ rest) 0)

  pub rev_onto-perm : (rp rest : List A) → Perm (rev_onto rp rest) (rp ++ rest)
  unfolding rev_onto
  rev_onto-perm [] rest = Perm.rfl
  rev_onto-perm (p ∷ rp) rest = Perm.trans (rev_onto-perm rp (p ∷ rest)) (perm_middle rp rest)
