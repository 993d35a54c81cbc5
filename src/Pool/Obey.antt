-- ===== src/Pool/Obey.antt =====
-- Every action does to the handles of a pool what its effect says of lists: src/bytes/bytes.rs.
use tcio.Base.{
  ℕ, suc, ◌-◌, ◌≤◌, ◌<◌, ◌≡◌, ◌⊎◌, inl, inr, Option, none, some, List, [], ◌∷◌, arith, refl, length,
  take, drop, leb, true, false,
}
use tcio.Base.Words.{isize_max, word_mod}
use tcio.Memory.{Heap, Run, Ensures, panic, IsFreshBox}
use tcio.Memory.Runs.{Ensures-bind}
use tcio.Bytes.{Bytes, Bound, advance, slice_bound}
use tcio.Bytes.Slice.{begin_of, end_of, slice_bound_lem}
use tcio.Pool.{Owner, IsPool}
use tcio.Pool.Clone.{clone_inner-IsPool, TwoOf, IsPool-Unsaturated}
use tcio.Pool.Drop.{drop_inner-IsPool}
use tcio.Pool.Heir.{advance_unchecked-IsPool}
use tcio.Pool.Split.{OffPool, ToPool, try_split_off-IsPool, try_split_to-IsPool}
use tcio.Pool.Cut.{SlicePool, slice_bound-IsPool, truncate-IsPool, clear-IsPool}
use native.Mathlib.Decide.{dec_le}
use tcio.Pool.Act.{
  Action, clone, drop_handle, clear_all, advance_by, split_off_at, split_to_at, truncate_to,
  slice_of, to_list, run, effect,
}

-- Handles with the lists that they show, before other owners.
abbrev pub own : List Bytes → List (List ℕ) → List Owner → List Owner
own [] xss os = os
own (b ∷ bs) [] os = os
own (b ∷ bs) (xs ∷ xss) os = (b, xs) ∷ own bs xss os

-- The handles that the action leaves show just the lists, and the pool is whole.
abbrev pub Leaves : List Owner → List (List ℕ) → List Bytes → Heap → Type 0
Leaves os xss bs h' = (length bs ≡ length xss) × IsPool h' (own bs xss os)

-- The run panics where the effect does, and else leaves what the effect says.
abbrev pub Obeys : List Owner → Option (List (List ℕ)) → Run (List Bytes) → Type 0
Obeys os none r = r ≡ panic
Obeys os (some xss) r = Ensures (Leaves os xss) r

module _ (h : Heap) (k : ℕ) (b : Bytes) (xs : List ℕ) (os : List Owner)
    (pool : IsPool h ((b, xs) ∷ os)) (f : IsFreshBox k h) (few : suc (length os) < isize_max) where
  run-clone : Obeys os (effect clone xs) (run k clone b h)
  unfolding run
  run-clone =
      Ensures-bind (TwoOf xs os) (Leaves os (xs ∷ xs ∷ [])) _ _
        (clone_inner-IsPool h k b xs os pool f (omega arith)) λ (x, y) h' p. (refl, p)

  run-drop : Obeys os (effect drop_handle xs) (run k drop_handle b h)
  unfolding run
  run-drop =
      Ensures-bind (λ _ h'. IsPool h' os) (Leaves os []) _ _
        (drop_inner-IsPool h b xs os pool (omega arith)) λ _ h' p. (refl, p)

  run-clear : Obeys os (effect clear_all xs) (run k clear_all b h)
  unfolding run
  run-clear =
      Ensures-bind (λ b' h'. IsPool h' ((b', []) ∷ os)) (Leaves os ([] ∷ [])) _ _
        (clear-IsPool h b xs os pool (omega arith)) λ _ h' p. (refl, p)

  run-truncate : (n : ℕ) → Obeys os (effect (truncate_to n) xs) (run k (truncate_to n) b h)
  unfolding run
  run-truncate n =
      Ensures-bind (λ b' h'. IsPool h' ((b', take n xs) ∷ os)) (Leaves os (take n xs ∷ [])) _ _
        (truncate-IsPool h k b xs os pool f n few) λ _ h' p. (refl, p)

  run-advance : (n : ℕ) → Obeys os (effect (advance_by n) xs) (run k (advance_by n) b h)
  unfolding run advance
  run-advance n = elim (dec_le n b.len) [
    | yes le ↦
        let t : leb n b.len ≡ true = ground arith in
        let t' : leb n (length xs) ≡ true = ground (arith, pool.views.0.size) in
        rw (t, t')
          (Ensures-bind (λ b' h'. IsPool h' ((b', drop n xs) ∷ os)) (Leaves os (drop n xs ∷ [])) _ _
            (advance_unchecked-IsPool h b xs n os pool le) λ _ h' p. (refl, p))
    | no gt ↦
        let t : leb n b.len ≡ false = ground arith in
        let t' : leb n (length xs) ≡ false = ground (arith, pool.views.0.size) in rw (t, t') refl
  ]

  run-split_off : (n : ℕ) → Obeys os (effect (split_off_at n) xs) (run k (split_off_at n) b h)
  unfolding run
  run-split_off n =
      let r = try_split_off-IsPool h k b xs os pool f (omega arith) n in
      elim (dec_le n (length xs)) [
        | yes le ↦
            let t : leb n (length xs) ≡ true = ground arith in
            rw t (
              Ensures-bind (OffPool xs os n) (Leaves os (take n xs ∷ drop n xs ∷ [])) _ _ r
                λ r h' p. parted n le r h' p)
        | no gt ↦
            let t : leb n (length xs) ≡ false = ground arith in
            rw t (
              Ensures-bind (OffPool xs os n) (Leaves os (xs ∷ [])) _ _ r
                λ r h' p. refused n (omega arith) r h' p)
      ]
    where
      parted :
          (n : ℕ)
          → n ≤ length xs
          → (r : Bytes × Option Bytes) (h' : Heap) → OffPool xs os n r h'
          → Leaves os (take n xs ∷ drop n xs ∷ []) (r.0 ∷ to_list r.1) h'
      parted n le (me, none) h' (lt, p) = absurd (omega arith)
      parted n le (me, some other) h' (_, p) = (refl, p)

      refused :
          (n : ℕ)
          → length xs < n
          → (r : Bytes × Option Bytes) (h' : Heap) → OffPool xs os n r h'
          → Leaves os (xs ∷ []) (r.0 ∷ to_list r.1) h'
      refused n gt (me, none) h' (_, p) = (refl, p)
      refused n gt (me, some other) h' (le, p) = absurd (omega arith)

  run-split_to : (n : ℕ) → Obeys os (effect (split_to_at n) xs) (run k (split_to_at n) b h)
  unfolding run
  run-split_to n =
      let r = try_split_to-IsPool h k b xs os pool f (omega arith) n in
      elim (dec_le n (length xs)) [
        | yes le ↦
            let t : leb n (length xs) ≡ true = ground arith in
            rw t (
              Ensures-bind (ToPool xs os n) (Leaves os (drop n xs ∷ take n xs ∷ [])) _ _ r
                λ r h' p. parted n le r h' p)
        | no gt ↦
            let t : leb n (length xs) ≡ false = ground arith in
            rw t (
              Ensures-bind (ToPool xs os n) (Leaves os (xs ∷ [])) _ _ r
                λ r h' p. refused n (omega arith) r h' p)
      ]
    where
      parted :
          (n : ℕ)
          → n ≤ length xs
          → (r : Bytes × Option Bytes) (h' : Heap) → ToPool xs os n r h'
          → Leaves os (drop n xs ∷ take n xs ∷ []) (r.0 ∷ to_list r.1) h'
      parted n le (me, none) h' (lt, p) = absurd (omega arith)
      parted n le (me, some other) h' (_, p) = (refl, p)

      refused :
          (n : ℕ)
          → length xs < n
          → (r : Bytes × Option Bytes) (h' : Heap) → ToPool xs os n r h'
          → Leaves os (xs ∷ []) (r.0 ∷ to_list r.1) h'
      refused n gt (me, none) h' (_, p) = (refl, p)
      refused n gt (me, some other) h' (le, p) = absurd (omega arith)

  run-slice :
      (s e : Bound)
      → length xs < word_mod
      → Obeys os (effect (slice_of s e) xs) (run k (slice_of s e) b h)
  unfolding run
  run-slice s e fits =
      let size : length xs ≡ b.len = pool.views.0.size in
      elim (dec_le (end_of b.len e) b.len) [
        | yes hi ↦ elim (dec_le (begin_of s) (end_of b.len e)) [
          | yes lo ↦
              let t : leb (end_of b.len e) b.len ≡ true = ground arith in
              let t' : leb (begin_of s) (end_of b.len e) ≡ true = ground arith in
              let m = end_of b.len e - begin_of s in
              rw (size, t, t')
                (Ensures-bind (SlicePool xs os (begin_of s) m)
                  (Leaves os (xs ∷ take m (drop (begin_of s) xs) ∷ [])) _ _
                  (slice_bound-IsPool h k b xs os pool f (omega arith) s e (omega arith) lo hi)
                  λ (x, y) h' p. (refl, p))
          | no gt ↦
              let t : leb (end_of b.len e) b.len ≡ true = ground arith in
              let t' : leb (begin_of s) (end_of b.len e) ≡ false = ground arith in
              rw (size, t, t', slice_panic s e (omega arith) (inr (omega arith))) refl
        ]
        | no gt ↦
            let t : leb (end_of b.len e) b.len ≡ false = ground arith in
            rw (size, t, slice_panic s e (omega arith) (inl (omega arith))) refl
      ]
    where
      slice_panic :
          (s e : Bound)
          → b.len < word_mod
          → ((b.len < end_of b.len e) ⊎ (end_of b.len e < begin_of s))
          → slice_bound k b.data_word s e b h ≡ panic
      slice_panic s e fits out =
          (slice_bound_lem h k b xs s e pool.views.0 f
              (IsPool-Unsaturated h b xs os pool (omega arith)) fits).1
            out

-- Every action on a handle of a pool, where the views are shorter than 2 ^ 64, fewer handles than
-- 2 ^ 63 - 2 are live and a control block can be had, does what its effect on lists says: it panics
-- where that panics, and else leaves handles on those lists in a whole pool. It never faults nor
-- aborts, and every other handle shows what it showed.
pub run-effect :
    (h : Heap) (k : ℕ) (a : Action) (b : Bytes) (xs : List ℕ) (os : List Owner)
    → IsPool h ((b, xs) ∷ os)
    → IsFreshBox k h
    → suc (length os) < isize_max
    → length xs < word_mod
    → Obeys os (effect a xs) (run k a b h)
run-effect h k clone b xs os pool f few fits = run-clone h k b xs os pool f few
run-effect h k drop_handle b xs os pool f few fits = run-drop h k b xs os pool f few
run-effect h k clear_all b xs os pool f few fits = run-clear h k b xs os pool f few
run-effect h k (advance_by n) b xs os pool f few fits = run-advance h k b xs os pool f few n
run-effect h k (split_off_at n) b xs os pool f few fits = run-split_off h k b xs os pool f few n
run-effect h k (split_to_at n) b xs os pool f few fits = run-split_to h k b xs os pool f few n
run-effect h k (truncate_to n) b xs os pool f few fits = run-truncate h k b xs os pool f few n
run-effect h k (slice_of s e) b xs os pool f few fits = run-slice h k b xs os pool f few s e fits
