-- ===== src/Pool/Split.antt =====
-- Splits and slices in a pool: `try_split_off`, `try_split_to` and `slice_range` of
-- src/bytes/bytes.rs among all live handles.
use tcio.Base.{
  ℕ, ◌+◌, ◌%◌, ◌≤◌, ◌<◌, ◌≡◌, ◌≢◌, Option, none, some, List, ◌∷◌, ◌==◌, arith, ap, ◌∙◌, length,
  drop, take, take_all, drop_all, ltb, true, false,
}
use tcio.Base.Words.{isize_max}
use tcio.Memory.{Heap, Ensures, IsFreshBox}
use tcio.Memory.Runs.{Ensures-bind, Ensures-both}
use tcio.Bytes.{Bytes, clone_inner, try_split_off, try_split_to}
use tcio.Bytes.Clone.{Cloned, clone_inner_lem, clone_inner_mut-clone_inner}
use tcio.Bytes.Split.{past, at_end, at_start, inside, split_cases, inner_test}
use tcio.Bytes.Advance.{IsBytes-front}
use tcio.Pool.{Owner, IsPool}
use tcio.Pool.Clone.{clone_inner-IsPool, TwoOf, IsPool-Unsaturated}
use tcio.Pool.Heir.{IsPool-empty, IsPool-swap, IsPool-heir, Inherits-part, advance_unchecked-IsPool}

-- The handle keeps the front, and the other has the rest.
abbrev pub OffPool : List ℕ → List Owner → ℕ → Bytes × Option Bytes → Heap → Type 0
OffPool xs os at (me, none) h' = (length xs < at) × IsPool h' ((me, xs) ∷ os)
OffPool xs os at (me, some other) h' =
    (at ≤ length xs) × IsPool h' ((me, take at xs) ∷ (other, drop at xs) ∷ os)

abbrev pub ToPool : List ℕ → List Owner → ℕ → Bytes × Option Bytes → Heap → Type 0
ToPool xs os at (me, none) h' = (length xs < at) × IsPool h' ((me, xs) ∷ os)
ToPool xs os at (me, some other) h' =
    (at ≤ length xs) × IsPool h' ((me, drop at xs) ∷ (other, take at xs) ∷ os)

-- The handle of a clone that is cut to the bytes before `at`.
pub IsPool-front :
    (h : Heap) (b : Bytes) (xs : List ℕ) (at : ℕ) (os : List Owner)
    → IsPool h ((b, xs) ∷ os)
    → b.data_word % 2 ≡ 0
    → at ≤ b.len
    → IsPool h ((record b { len = at }, take at xs) ∷ os)
IsPool-front h b xs at os pool even le =
    let e : b.ptr + 0 ≡ b.ptr = omega arith in
    IsPool-heir h b (record b { len = at })
      (rw e at (Inherits-part h b 0 at pool.views.0.standing even (omega arith))) xs (take at xs) os
      pool (IsBytes-front h b xs at even le pool.views.0)

module _ (h : Heap) (k : ℕ) (b : Bytes) (xs : List ℕ) (os : List Owner)
    (pool : IsPool h ((b, xs) ∷ os)) (f : IsFreshBox k h) (few : length os < isize_max) where
  abbrev pub CloneOf : Bytes × Bytes → Heap → Type 0
  CloneOf r h' = TwoOf xs os r h' × Cloned h b xs r h'

  pub clone_both : Ensures CloneOf (clone_inner k b.data_word b h)
  clone_both =
      Ensures-both (TwoOf xs os) (Cloned h b xs) _ (clone_inner-IsPool h k b xs os pool f few)
        (clone_inner_lem h k b xs pool.views.0 f (IsPool-Unsaturated h b xs os pool few))

  off_inner :
      (at : ℕ)
      → at ≤ b.len
      → at ≢ b.len
      → at ≢ 0
      → Ensures (OffPool xs os at) (try_split_off k at b h)
  unfolding try_split_off
  off_inner at le ne nz =
      let (t1, t2, t3) = inner_test h b xs at pool.views.0 le ne nz in
      rw (t1, t2, t3, clone_inner_mut-clone_inner)
        (Ensures-bind CloneOf (OffPool xs os at) _ _ clone_both λ (x, y) h' (two, cl).
          Ensures-bind (λ y' h''. IsPool h'' ((y', drop at xs) ∷ (x, xs) ∷ os)) (OffPool xs os at) _
            _
            (advance_unchecked-IsPool h' y xs at ((x, xs) ∷ os)
              (IsPool-swap h' (x, xs) (y, xs) os two)
              (omega (arith, cl.clone_view.size, pool.views.0.size)))
            λ y' h'' p. (
              omega (arith, pool.views.0.size),
              IsPool-front h'' x xs at ((y', drop at xs) ∷ os)
                  (IsPool-swap h'' (y', drop at xs) (x, xs) os p) cl.shared_word
                  (omega (arith, cl.me_view.size, pool.views.0.size)),
            ))

  to_inner :
      (at : ℕ)
      → at ≤ b.len
      → at ≢ b.len
      → at ≢ 0
      → Ensures (ToPool xs os at) (try_split_to k at b h)
  unfolding try_split_to
  to_inner at le ne nz =
      let (t1, t2, t3) = inner_test h b xs at pool.views.0 le ne nz in
      rw (t1, t2, t3, clone_inner_mut-clone_inner)
        (Ensures-bind CloneOf (ToPool xs os at) _ _ clone_both λ (x, y) h' (two, cl).
          Ensures-bind (λ x' h''. IsPool h'' ((x', drop at xs) ∷ (y, xs) ∷ os)) (ToPool xs os at) _
            _
            (advance_unchecked-IsPool h' x xs at ((y, xs) ∷ os) two
              (omega (arith, cl.me_view.size, pool.views.0.size)))
            λ x' h'' p. (
              omega (arith, pool.views.0.size),
              IsPool-swap h'' (record y { len = at }, take at xs) (x', drop at xs) os
                  (IsPool-front h'' y xs at ((x', drop at xs) ∷ os)
                    (IsPool-swap h'' (x', drop at xs) (y, xs) os p)
                    (ap (λ w. w % 2) cl.same_word ∙ cl.shared_word)
                    (omega (arith, cl.clone_view.size, pool.views.0.size))),
            ))

  pub try_split_off-IsPool : (at : ℕ) → Ensures (OffPool xs os at) (try_split_off k at b h)
  unfolding try_split_off
  try_split_off-IsPool at = elim (split_cases b.len at) [
    | past gt ↦
        let t : ltb b.len at ≡ true = ground arith in rw t (omega (arith, pool.views.0.size), pool)
    | at_end e ↦
        let t : ltb b.len at ≡ false = ground arith in
        let t' : (at == b.len) ≡ true = ground arith in
        rw (t, t')
          (
            omega (arith, pool.views.0.size),
            rw
                (
                  take_all at xs (omega (arith, pool.views.0.size)),
                  drop_all at xs (omega (arith, pool.views.0.size)),
                )
                (IsPool-swap h _ (b, xs) os (IsPool-empty h (b.ptr + b.len) ((b, xs) ∷ os) pool)),
          )
    | at_start lt e ↦
        let t : ltb b.len at ≡ false = ground arith in
        let t' : (at == b.len) ≡ false = ground arith in
        let t'' : (at == 0) ≡ true = ground arith in
        rw (t, t', t'')
          (omega (arith, pool.views.0.size), rw e (IsPool-empty h b.ptr ((b, xs) ∷ os) pool))
    | inside le ne nz ↦ off_inner at le ne nz
  ]

  pub try_split_to-IsPool : (at : ℕ) → Ensures (ToPool xs os at) (try_split_to k at b h)
  unfolding try_split_to
  try_split_to-IsPool at = elim (split_cases b.len at) [
    | past gt ↦
        let t : ltb b.len at ≡ true = ground arith in rw t (omega (arith, pool.views.0.size), pool)
    | at_end e ↦
        let t : ltb b.len at ≡ false = ground arith in
        let t' : (at == b.len) ≡ true = ground arith in
        rw (t, t')
          (
            omega (arith, pool.views.0.size),
            rw
                (
                  take_all at xs (omega (arith, pool.views.0.size)),
                  drop_all at xs (omega (arith, pool.views.0.size)),
                )
                (IsPool-empty h (b.ptr + b.len) ((b, xs) ∷ os) pool),
          )
    | at_start lt e ↦
        let t : ltb b.len at ≡ false = ground arith in
        let t' : (at == b.len) ≡ false = ground arith in
        let t'' : (at == 0) ≡ true = ground arith in
        rw (t, t', t'')
          (
            omega (arith, pool.views.0.size),
            rw e (IsPool-swap h _ (b, xs) os (IsPool-empty h b.ptr ((b, xs) ∷ os) pool)),
          )
    | inside le ne nz ↦ to_inner at le ne nz
  ]
