-- ===== src/Parallel/SampleSortStep/Moves.antt =====
-- src/parallel/bingmann-parallel_sample_sort.hpp, `distribute`: what holds of the shadow array between any
-- two steps of the jobs.
use bingmann_sample_sort.Prelude.{
  ℕ, suc, ◌+◌, ◌^◌, ◌≡◌, ◌≢◌, ◌<◌, ◌≤◌, refl, sym, ap, subst, ◌∙◌, List, [], ◌∷◌, length, set, ◌!◌,
  set-get_self, set-get_ne, dec64, All, arith, ℕ_discrete,
}
use bingmann_sample_sort.Prelude.Family.{
  update, update_at, update_other, total, total-update, total-full,
}
use bingmann_sample_sort.Prelude.Flat.{flat}
use bingmann_sample_sort.Parallel.SampleSortStep.{
  StepState, Distributing, moving, finished, put, DistributeMove, move_string, finish, Jobs,
  JobsStep, pick, Reach, here, next,
}
use bingmann_sample_sort.Parallel.SampleSortStep.Sums.{before}
use bingmann_sample_sort.Parallel.SampleSortStep.Sums.Rows.{length-update}
use bingmann_sample_sort.Parallel.SampleSortStep.Regions.{
  of_bucket, of_bucket-same, IsFilled, IsFilled-put, IsFilled-other, grid_at, grid_other_part,
  grid_other_bucket, grid-set,
}

-- The strings that a job has still to move, and whether it counts in `pwork`.
abbrev pub rest {ℓ} : {A : Type ℓ} → Distributing A → List (ℕ × A)
rest (moving todo) = todo
rest finished = []

abbrev pub busy {ℓ} : {A : Type ℓ} → Distributing A → ℕ
busy (moving todo) = 1
busy finished = 0

module _ {ℓ} {A : Type ℓ} (bktnum parts : ℕ) (work : ℕ → List (ℕ × A)) where
  abbrev pub size : ℕ → ℕ → ℕ
  size b p = length (of_bucket b (work p))

  pub record Inv (m : StepState A) (phase : ℕ → Distributing A) : Type ℓ where
    pub counted : m.pwork ≡ total busy parts phase
    pub rows : ℕ → ℕ → List A
    pub whole : m.sorted ≡ flat bktnum (λ b. flat parts (rows b))
    pub filled :
        (b p : ℕ)
        → b < bktnum
        → p < parts
        → IsFilled b (before size parts b p) (rows b p) (m.bkt p ! b) (rest (phase p)) (work p)
    pub indices : (p : ℕ) → p < parts → length (m.bkt p) ≡ bktnum
    pub known : (p : ℕ) → p < parts → All (λ c. c.0 < bktnum) (rest (phase p))

  module _ (few : parts < 2 ^ 64)
      (small : (b p : ℕ) → b < bktnum → p < parts → before size parts b p + size b p < 2 ^ 64)
      {m : StepState A} {phase : ℕ → Distributing A} (inv : Inv m phase) (p : ℕ)
      (lt : p < parts) where
    rest-at : (ph : Distributing A) (q : ℕ) → p ≡ q → rest (update phase p ph q) ≡ rest ph
    rest-at ph q same = ap rest (update_at phase p ph q same)

    rest-other : (ph : Distributing A) (q : ℕ) → p ≢ q → rest (update phase p ph q) ≡ rest (phase q)
    rest-other ph q other = ap rest (update_other phase p ph q other)

    busy-le : (ph : Distributing A) → busy ph ≤ 1
    busy-le (moving todo) = omega arith
    busy-le finished = omega arith

    finish-counted : busy (phase p) ≡ 1 → dec64 m.pwork ≡ total busy parts (update phase p finished)
    finish-counted e =
        let change = total-update busy parts phase p finished lt in
        let all = (total-full busy busy-le parts phase).0 in
        omega (arith, inv.counted, change, all, e)

    finish-Inv :
        phase p ≡ moving [] → Inv (record m { pwork = dec64 m.pwork }) (update phase p finished)
    finish-Inv e = record {
      counted = finish-counted (ap busy e);
      rows = inv.rows;
      whole = inv.whole;
      filled = λ b q lt_b lt_q. rw (same_rest q) (inv.filled b q lt_b lt_q);
      indices = inv.indices;
      known = λ q lt_q. rw (same_rest q) (inv.known q lt_q);
    }
      where
        same_rest : (q : ℕ) → rest (update phase p finished q) ≡ rest (phase q)
        same_rest q = elim (ℕ_discrete p q) [
          | yes same ↦ rest-at finished q same ∙ sym (ap rest e) ∙ ap (λ z. rest (phase z)) same
          | no other ↦ rest-other finished q other
        ]

    module _ (b : ℕ) (s : A) (todo : List (ℕ × A)) (e : phase p ≡ moving ((b, s) ∷ todo)) where
      in_known : All (λ c. c.0 < bktnum) ((b, s) ∷ todo)
      in_known =
          subst (λ (ph : Distributing A). All (λ c. c.0 < bktnum) (rest ph)) e (inv.known p lt)

      own :
          (c : ℕ)
          → c < bktnum
          → IsFilled c (before size parts c p) (inv.rows c p) (m.bkt p ! c) ((b, s) ∷ todo) (work p)
      own c lt_c =
          subst
            (λ (ph : Distributing A).
              IsFilled c (before size parts c p) (inv.rows c p) (m.bkt p ! c) (rest ph) (work p))
            e (inv.filled c p lt_c lt)

      -- The index is one behind the place that is written.
      place :
          (m.bkt p ! b ≡ before size parts b p + suc (length (of_bucket b todo)))
          × (length (of_bucket b todo) < size b p)
      place =
          let old = own b in_known.0 in
          let one = ap length (of_bucket-same b s todo) in
          let at = old.at in
          let fits = old.fits in
          let room = old.room in (omega (arith, one, at), omega (arith, one, fits, room))

      target : dec64 (m.bkt p ! b) ≡ before size parts b p + length (of_bucket b todo)
      target = let bound = small b p in_known.0 lt in omega (arith, place, bound)

      new_row : List A
      new_row = set (inv.rows b p) (length (of_bucket b todo)) s

      -- The region of bucket `c` and part `q` after the move.
      Filled : ℕ → ℕ → Type ℓ
      Filled c q =
          IsFilled c (before size parts c q) (update inv.rows b (update (inv.rows b) p new_row) c q)
            (update m.bkt p (set (m.bkt p) b (dec64 (m.bkt p ! b))) q ! c)
            (rest (update phase p (moving todo) q)) (work q)

      Filled-own : Filled b p
      unfolding Filled new_row
      Filled-own =
          let inside = inv.indices p lt in
          let index =
            ap (λ z. z ! b) (update_at m.bkt p (set (m.bkt p) b (dec64 (m.bkt p ! b))) p refl)
            ∙ set-get_self (m.bkt p) b (dec64 (m.bkt p ! b)) (omega (arith, inside, in_known.0))
            ∙ target in
          rw (grid_at inv.rows b p new_row, rest-at (moving todo) p refl)
            (IsFilled-put b (before size parts b p) (inv.rows b p) (m.bkt p ! b) _ s todo (work p)
              (own b in_known.0) index)

      Filled-bucket : (c : ℕ) → c < bktnum → b ≢ c → Filled c p
      unfolding Filled
      Filled-bucket c lt_c ne =
          let index =
            ap (λ z. z ! c) (update_at m.bkt p (set (m.bkt p) b (dec64 (m.bkt p ! b))) p refl)
            ∙ set-get_ne (m.bkt p) b c (dec64 (m.bkt p ! b)) ne in
          rw (grid_other_bucket inv.rows b p c p new_row ne, rest-at (moving todo) p refl, index)
            (IsFilled-other c (before size parts c p) (inv.rows c p) (m.bkt p ! c) b s todo (work p)
              ne (own c lt_c))

      Filled-part : (c q : ℕ) → c < bktnum → q < parts → p ≢ q → Filled c q
      unfolding Filled
      Filled-part c q lt_c lt_q other =
          rw
            (
              grid_other_part inv.rows b p c q new_row other,
              rest-other (moving todo) q other,
              update_other m.bkt p (set (m.bkt p) b (dec64 (m.bkt p ! b))) q other,
            )
            (inv.filled c q lt_c lt_q)

      put-Filled : (c q : ℕ) → c < bktnum → q < parts → Filled c q
      put-Filled c q lt_c lt_q = elim (ℕ_discrete p q) [
        | yes same ↦
            subst (λ z. Filled c z) same
              (elim (ℕ_discrete b c) [
                | yes own_bucket ↦ subst (λ z. Filled z p) own_bucket Filled-own
                | no ne ↦ Filled-bucket c lt_c ne
              ])
        | no other ↦ Filled-part c q lt_c lt_q other
      ]

      put-Inv : Inv (put p b s m) (update phase p (moving todo))
      unfolding put Filled new_row
      put-Inv = record {
        counted =
            let one = ap busy e in
            omega (arith, inv.counted, total-update busy parts phase p (moving todo) lt, one);
        rows = update inv.rows b (update (inv.rows b) p new_row);
        whole =
            rw (inv.whole, target)
              (grid-set bktnum parts inv.rows size b p (length (of_bucket b todo)) s
                (λ c q lt_c lt_q. (inv.filled c q lt_c lt_q).room) in_known.0 lt place.1);
        filled = put-Filled;
        indices = λ q lt_q. length-update m.bkt p b (dec64 (m.bkt p ! b)) q ∙ inv.indices q lt_q;
        known = λ q lt_q. elim (ℕ_discrete p q) [
          | yes same ↦ rw (rest-at (moving todo) q same) in_known.1
          | no other ↦ rw (rest-other (moving todo) q other) (inv.known q lt_q)
        ];
      }

    Move-Inv :
        {ph : Distributing A} {m' : StepState A}
        → ph ≡ phase p
        → (ph' : Distributing A) → DistributeMove p m ph m' ph'
        → Inv m' (update phase p ph')
    Move-Inv e ph' (move_string {b} {str} {todo}) = put-Inv b str todo (sym e)
    Move-Inv e ph' finish = finish-Inv (sym e)

  Step-Inv :
      parts < 2 ^ 64
      → ((b p : ℕ) → b < bktnum → p < parts → before size parts b p + size b p < 2 ^ 64)
      → {s t : Jobs A} → JobsStep parts s t
      → Inv s.mem s.phase
      → Inv t.mem t.phase
  Step-Inv few small {s} (pick p {m} {ph} lt mv) inv = Move-Inv few small inv p lt refl ph mv

  pub Reach-Inv :
      parts < 2 ^ 64
      → ((b p : ℕ) → b < bktnum → p < parts → before size parts b p + size b p < 2 ^ 64)
      → {s t : Jobs A} → Inv s.mem s.phase
      → Reach parts s t
      → Inv t.mem t.phase
  Reach-Inv few small start here = start
  Reach-Inv few small start (next r st) = Step-Inv few small st (Reach-Inv few small start r)
