-- ===== src/BytesMut/Rejoin.antt =====
-- `split_off` and then `try_unsplit` in src/bytes/bytes_mut.rs.
use tcio.Base.{
  ℕ, ◌+◌, ◌≤◌, ◌<◌, ◌≡◌, sym, List, take, drop, ◌++◌, Option, some, none, arith, length-take,
  take-append-drop,
}
use tcio.Memory.{Heap, Ensures, IsFreshBox, ◌>>=◌}
use tcio.Memory.Runs.{Ensures-bind, Ensures-mono}
use tcio.Shared.Backed.{refs, Unsaturated}
use tcio.Bytes.Drop.{one-le-refs}
use tcio.BytesMut.{BytesMut, split_off, try_split_off, try_unsplit, expect}
use tcio.BytesMut.Valid.{IsMut}
use tcio.BytesMut.Split.{SplitOff, Parted, try_split_off_mut_lem}
use tcio.BytesMut.Unsplit.{Merged, try_unsplit_lem}

-- One handle is left, with these bytes, and it counts as many references as before.
pub record Whole (h : Heap) (m : BytesMut) (xs : List ℕ) (r : BytesMut × Option BytesMut)
    (h' : Heap) : Type 0 where
  pub gone : r.1 ≡ none
  pub view : IsMut h' r.0 xs
  pub count : refs h' r.0.data_word ≡ refs h m.data_word

module _ (h : Heap) (m : BytesMut) (xs : List ℕ) (at : ℕ) (v : IsMut h m xs)
    (u : Unsaturated h m.data_word) (le : at ≤ m.len) (lt : at < m.cap) where
  Parted-Whole :
      (left right : BytesMut) (h' : Heap)
      → Parted h m xs at left right h'
      → Ensures (Whole h m xs) (try_unsplit right left h')
  Parted-Whole left right h' d =
      let size : left.len ≡ at = omega (arith, d.left_view.size, length-take at xs, v.size) in
      let counted : refs h' left.data_word ≡ refs h m.data_word + 1 = d.count in
      let one : 1 ≤ refs h m.data_word = one-le-refs v.standing in
      Ensures-mono (Merged h' left (take at xs ++ drop at xs)) (Whole h m xs) _
        (try_unsplit_lem h' right left (take at xs) (drop at xs) d.left_view d.right_view
          (sym d.same_word) (omega (arith, d.place.0, d.place.1)) (omega (arith, d.room.0))
          (omega (arith, d.room.1)) (omega arith) (omega arith))
        λ r h'' g. record {
          gone = g.gone;
          view = rw (take-append-drop at xs) at g.view;
          count = let w = g.same_word in rw w (omega (arith, g.count));
        }

-- `split_off` of a valid growable handle within what is written and below the capacity, with a
-- count that can still grow and a fresh address for a control block, and then `try_unsplit` of the
-- two parts leaves one valid handle with all the bytes, which counts as many references as before.
pub split_off-try_unsplit :
    (h : Heap) (k : ℕ) (m : BytesMut) (xs : List ℕ) (at : ℕ)
    → IsMut h m xs
    → IsFreshBox k h
    → Unsaturated h m.data_word
    → at ≤ m.len
    → at < m.cap
    → Ensures (Whole h m xs) ((split_off k at m >>= λ (me, other). try_unsplit other me) h)
unfolding split_off
split_off-try_unsplit h k m xs at v f u le lt =
    Ensures-bind (λ r. Parted h m xs at r.0 r.1) (Whole h m xs) (split_off k at m h)
      (λ (me, other). try_unsplit other me)
      (Ensures-bind (SplitOff h m xs at) (λ r. Parted h m xs at r.0 r.1) (try_split_off k at m h)
        expect (try_split_off_mut_lem h k m xs at v f u) parted)
      (λ (left, right) h' d. Parted-Whole h m xs at v u le lt left right h' d)
  where
    parted :
        (r : BytesMut × Option BytesMut) (h' : Heap)
        → SplitOff h m xs at r h'
        → Ensures (λ r. Parted h m xs at r.0 r.1) (expect r h')
    parted (me, none) h' s = absurd (omega (arith, s.0, lt))
    parted (me, some other) h' s = s.1
