-- ===== src/Sequential/LcpInssort/Steps.antt =====
-- One round of the inner loop, and one step of the insertion, each way that it can go.
use Prim.Native.Nat.{compare, Ordering}
use bingmann_sample_sort.Prelude.{
  ℕ, zero, suc, ◌+◌, ◌≤◌, ◌<◌, ◌≡◌, refl, sym, ap, Bool, true, false, not, ◌&&◌, List, [], ◌∷◌,
  take, get_or, set, ◌!◌, ltb, if◌then◌else◌, arith, Bool-cases, inl, inr,
}
use bingmann_sample_sort.Tools.Strings.{CString, head_char, get_chars}
use bingmann_sample_sort.Sequential.LcpInssort.{LcpArrays, compare_more, store, place, insert_lcp}
use bingmann_sample_sort.Sequential.LcpInssort.Insertion.{Entry, lcp_from, order, insert_entry}

pub take-set : (m : ℕ) (xs : List ℕ) (k v : ℕ) → take m (set xs k v) ≡ set (take m xs) k v
take-set zero xs k v = refl
take-set (suc m) [] k v = refl
take-set (suc m) (x ∷ xs) zero v = refl
take-set (suc m) (x ∷ xs) (suc k) v = ap (◌∷◌ x) (take-set m xs k v)

take-set_beyond : (m : ℕ) (xs : List ℕ) (k v : ℕ) → m ≤ k → take m (set xs k v) ≡ take m xs
take-set_beyond zero xs k v h = refl
take-set_beyond (suc m) [] k v h = refl
take-set_beyond (suc m) (x ∷ xs) zero v h = absurd (omega arith)
take-set_beyond (suc m) (x ∷ xs) (suc k) v h = ap (◌∷◌ x) (take-set_beyond m xs k v (omega arith))

pub get-take : (m : ℕ) (xs : List ℕ) (k : ℕ) → k < m → take m xs ! k ≡ xs ! k
get-take zero xs k h = absurd (omega arith)
get-take (suc m) [] k h = refl
get-take (suc m) (x ∷ xs) zero h = refl
get-take (suc m) (x ∷ xs) (suc k) h = get-take m xs k (omega arith)

-- The array of prefixes, of `n = suc m` entries, the first of them unused; `x` goes on behind it.
abbrev pub lcp_array : ℕ → ℕ → List ℕ → List ℕ
lcp_array l0 m x = l0 ∷ take m x

pub store_lem :
    (last : Bool) (l0 m : ℕ) (x : List ℕ) (k v : ℕ)
    → store last (suc m) (lcp_array l0 m x) (suc k) v ≡ lcp_array l0 m (set x k v)
unfolding store
store_lem last l0 m x k v = elim (Bool-cases (last && not (ltb (suc k) (suc m)))) [
  | inl skip ↦ rw skip (ap (◌∷◌ l0) (sym (take-set_beyond m x k v (ground arith))))
  | inr write ↦ rw write (ap (◌∷◌ l0) (sym (take-set m x k v)))
]

-- The four ways that a round of the loop can go.
module _ (save_cache last : Bool) (m : ℕ) (t : CString) (nl i : ℕ) (a : LcpArrays) where
  abbrev pub loop : ℕ → ℕ → LcpArrays → LcpArrays
  loop nl i a = insert_lcp save_cache last (suc m) t nl i a

  abbrev behind : ℕ → LcpArrays → LcpArrays
  behind i a = place save_cache last (suc m) t nl i a

  abbrev pub compared : Bool × ℕ
  compared = compare_more (get_chars t nl) (get_chars (get_or a.str i []) nl) nl

  abbrev pub moved : LcpArrays
  moved = record {
    str = set a.str (suc i) (get_or a.str i []);
    lcp = store last (suc m) a.lcp (suc i + 1) (a.lcp ! suc i);
    cache = if save_cache then set a.cache (suc i) (a.cache ! i) else a.cache;
  }

  abbrev pub found : ℕ → LcpArrays
  found more = record {
    str = a.str;
    lcp = set a.lcp (suc i) more;
    cache = if save_cache then set a.cache (suc i) (head_char (get_chars t more)) else a.cache;
  }

  pub round_lower : a.lcp ! suc i < nl → loop nl (suc i) a ≡ behind (suc i) a
  unfolding insert_lcp
  round_lower h =
      let e : compare (a.lcp ! suc i) nl ≡ Ordering.lt = ground arith in rw (insert_lcp, e) refl

  pub round_higher : nl < a.lcp ! suc i → loop nl (suc i) a ≡ loop nl i moved
  unfolding insert_lcp
  round_higher h =
      let e : compare (a.lcp ! suc i) nl ≡ Ordering.gt = ground arith in rw (insert_lcp, e) refl

  pub round_found :
      a.lcp ! suc i ≡ nl
      → compared.0 ≡ false
      → loop nl (suc i) a ≡ behind (suc i) (found compared.1)
  unfolding insert_lcp
  round_found h k =
      let e : compare (a.lcp ! suc i) nl ≡ Ordering.eq = ground arith in rw (insert_lcp, e, k) refl

  pub round_above :
      a.lcp ! suc i ≡ nl → compared.0 ≡ true → loop nl (suc i) a ≡ loop compared.1 i moved
  unfolding insert_lcp
  round_above h k =
      let e : compare (a.lcp ! suc i) nl ≡ Ordering.eq = ground arith in rw (insert_lcp, e, k) refl

-- The same four ways on the list of entries.
module _ (d : ℕ) (t : CString) (nl : ℕ) (s : CString) (l : ℕ) (rp : List Entry) where
  pub entry_lower : l < nl → insert_entry d t nl ((s, l) ∷ rp) ≡ (t, nl) ∷ (s, l) ∷ rp
  unfolding insert_entry
  entry_lower h = let e : compare l nl ≡ Ordering.lt = ground arith in rw (insert_entry, e) refl

  pub entry_higher : nl < l → insert_entry d t nl ((s, l) ∷ rp) ≡ (s, l) ∷ insert_entry d t nl rp
  unfolding insert_entry
  entry_higher h = let e : compare l nl ≡ Ordering.gt = ground arith in rw (insert_entry, e) refl

  pub entry_found :
      l ≡ nl
      → order d s t ≡ true
      → insert_entry d t nl ((s, l) ∷ rp) ≡ (t, nl) ∷ (s, lcp_from d t s) ∷ rp
  unfolding insert_entry
  entry_found h k =
      let e : compare l nl ≡ Ordering.eq = ground arith in rw (insert_entry, e, k) refl

  pub entry_above :
      l ≡ nl
      → order d s t ≡ false
      → insert_entry d t nl ((s, l) ∷ rp) ≡ (s, l) ∷ insert_entry d t (lcp_from d t s) rp
  unfolding insert_entry
  entry_above h k =
      let e : compare l nl ≡ Ordering.eq = ground arith in rw (insert_entry, e, k) refl
