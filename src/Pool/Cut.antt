-- ===== src/Pool/Cut.antt =====
-- Slices and cuts in a pool: `slice`, `truncate` and `clear` of src/bytes/bytes.rs among all live
-- handles.
use tcio.Base.{
  ℕ, suc, ◌+◌, ◌-◌, ◌%◌, ◌≤◌, ◌<◌, ◌≡◌, Option, none, some, List, [], ◌∷◌, ◌==◌, arith, ap, ◌∙◌,
  length, drop, take, take_all, leb, true, false,
}
use tcio.Base.Words.{isize_max, word_mod}
use tcio.Memory.{Heap, Ensures, IsFreshBox}
use tcio.Memory.Runs.{Ensures-bind}
use tcio.Bytes.{
  Bytes, bytes, Bound, new_empty_with_ptr, slice_range, slice_bound, split_off, truncate, clear,
  drop_inner, expect, try_split_off,
}
use tcio.Bytes.Clone.{Cloned}
use tcio.Bytes.Slice.{begin_of, end_of, begin_position-ok, end_position-ok}
use tcio.Bytes.Advance.{IsBytes-part}
use tcio.Pool.{Owner, IsPool}
use tcio.Pool.Split.{CloneOf, clone_both, OffPool, try_split_off-IsPool, IsPool-front}
use tcio.Pool.Drop.{drop_inner-IsPool}
use tcio.Pool.Heir.{IsPool-empty, IsPool-swap, IsPool-heir, Inherits-part}
use native.Mathlib.Decide.{ℕ_discrete, dec_lt}
use mathlib.Core.Path.{subst}

-- The handle keeps its view, and the other shows `m` bytes of it from `i` on.
abbrev pub SlicePool : List ℕ → List Owner → ℕ → ℕ → Bytes × Bytes → Heap → Type 0
SlicePool xs os i m (me, part) h' = IsPool h' ((me, xs) ∷ (part, take m (drop i xs)) ∷ os)

module _ (h : Heap) (k : ℕ) (b : Bytes) (xs : List ℕ) (os : List Owner)
    (pool : IsPool h ((b, xs) ∷ os)) (f : IsFreshBox k h) where
  SlicePool-clone :
      (i m : ℕ) (x y : Bytes) (h' : Heap)
      → i + m ≤ b.len
      → IsPool h' ((x, xs) ∷ (y, xs) ∷ os)
      → Cloned h b xs (x, y) h'
      → SlicePool xs os i m (x, record y { ptr = b.ptr + i; len = m }) h'
  SlicePool-clone i m x y h' le two cl =
      let even : y.data_word % 2 ≡ 0 = ap (λ w. w % 2) cl.same_word ∙ cl.shared_word in
      let fits : i + m ≤ y.len = omega (arith, cl.clone_view.size, pool.views.0.size) in
      let swapped = IsPool-swap h' (x, xs) (y, xs) os two in
      let cut =
        IsPool-heir h' y (bytes (y.ptr + i) m y.data_word)
          (Inherits-part h' y i m cl.clone_view.standing even fits) xs (take m (drop i xs))
          ((x, xs) ∷ os) swapped (IsBytes-part h' y xs i m even fits cl.clone_view) in
      subst (λ p. SlicePool xs os i m (x, bytes (p + i) m y.data_word) h') cl.place.1
        (IsPool-swap h' (bytes (y.ptr + i) m y.data_word, take m (drop i xs)) (x, xs) os cut)

  module _ (few : length os < isize_max) where
    slice_range-IsPool :
        (begin end : ℕ)
        → begin ≤ end
        → end ≤ b.len
        → Ensures (SlicePool xs os begin (end - begin)) (slice_range k b.data_word begin end b h)
    unfolding slice_range
    slice_range-IsPool begin end lo hi =
        let t1 : leb end b.len ≡ true = ground arith in
        let t2 : leb begin end ≡ true = ground arith in
        elim (ℕ_discrete (end - begin) 0) [
          | yes e ↦
              let t3 : (end - begin == 0) ≡ true = ground arith in
              rw (t1, t2, t3, e)
                (IsPool-swap h (new_empty_with_ptr (b.ptr + begin), []) (b, xs) os
                  (IsPool-empty h (b.ptr + begin) ((b, xs) ∷ os) pool))
          | no ne ↦
              let t3 : (end - begin == 0) ≡ false = ground arith in
              rw (t1, t2, t3)
                (Ensures-bind (CloneOf h k b xs os pool f few) (SlicePool xs os begin (end - begin))
                  _ _ (clone_both h k b xs os pool f few)
                  λ (x, y) h' (two, cl).
                    SlicePool-clone begin (end - begin) x y h' (omega arith) two cl)
        ]

    pub slice_bound-IsPool :
        (s e : Bound)
        → b.len < word_mod
        → begin_of s ≤ end_of b.len e
        → end_of b.len e ≤ b.len
        → Ensures
            (SlicePool xs os (begin_of s) (end_of b.len e - begin_of s))
            (slice_bound k b.data_word s e b h)
    unfolding slice_bound
    slice_bound-IsPool s e fits lo hi =
        rw (begin_position-ok h s (omega arith), end_position-ok h b.len e (omega arith))
          (slice_range-IsPool (begin_of s) (end_of b.len e) lo hi)

  split_off-IsPool :
      (at : ℕ)
      → at ≤ b.len
      → length os < isize_max
      → Ensures
          (λ r h'. IsPool h' ((r.0, take at xs) ∷ (r.1, drop at xs) ∷ os))
          (split_off k at b h)
  unfolding split_off
  split_off-IsPool at le few =
      Ensures-bind (OffPool xs os at)
        (λ r h'. IsPool h' ((r.0, take at xs) ∷ (r.1, drop at xs) ∷ os)) (try_split_off k at b h) _
        (try_split_off-IsPool h k b xs os pool f few at) got
    where
      got :
          (r : Bytes × Option Bytes) (h' : Heap)
          → OffPool xs os at r h'
          → Ensures (λ r h'. IsPool h' ((r.0, take at xs) ∷ (r.1, drop at xs) ∷ os)) (expect r h')
      got (me, none) h' s = absurd (omega (arith, s.0, le, pool.views.0.size))
      got (me, some other) h' s = s.1

  pub truncate-IsPool :
      (len : ℕ)
      → suc (length os) < isize_max
      → Ensures (λ b' h'. IsPool h' ((b', take len xs) ∷ os)) (truncate k len b h)
  unfolding truncate
  truncate-IsPool len few = elim (dec_lt len b.len) [
    | no ge ↦
        let t : leb b.len len ≡ true = ground arith in
        rw (t, take_all len xs (omega (arith, pool.views.0.size))) pool
    | yes lt ↦
        let t : leb b.len len ≡ false = ground arith in
        elim (ℕ_discrete b.data_word 0) [
          | yes e ↦
              let t' : (b.data_word == 0) ≡ true = ground arith in
              rw (t, t') (IsPool-front h b xs len os pool (omega arith) (omega arith))
          | no ne ↦
              let t' : (b.data_word == 0) ≡ false = ground arith in
              rw (t, t')
                (Ensures-bind (λ r h'. IsPool h' ((r.0, take len xs) ∷ (r.1, drop len xs) ∷ os))
                  (λ b' h'. IsPool h' ((b', take len xs) ∷ os)) _ _
                  (split_off-IsPool len (omega arith) (omega arith))
                  λ (l, r) h' p.
                    Ensures-bind (λ _ h''. IsPool h'' ((l, take len xs) ∷ os))
                      (λ b' h'. IsPool h' ((b', take len xs) ∷ os)) (drop_inner r h') _
                      (drop_inner-IsPool h' r (drop len xs) ((l, take len xs) ∷ os)
                        (IsPool-swap h' (l, take len xs) (r, drop len xs) os p) few)
                      λ _ h'' q. q)
        ]
  ]

pub clear-IsPool :
    (h : Heap) (b : Bytes) (xs : List ℕ) (os : List Owner)
    → IsPool h ((b, xs) ∷ os)
    → length os < isize_max
    → Ensures (λ b' h'. IsPool h' ((b', []) ∷ os)) (clear b h)
unfolding clear
clear-IsPool h b xs os pool few =
    Ensures-bind (λ _ h'. IsPool h' os) (λ b' h'. IsPool h' ((b', []) ∷ os)) (drop_inner b h) _
      (drop_inner-IsPool h b xs os pool few) λ _ h' p. IsPool-empty h' b.ptr os p
