-- ===== src/BytesMut/Split.antt =====
-- `try_split_to` and `try_split_off` in src/bytes/bytes_mut.rs.
use tcio.Base.{
  ℕ, ◌+◌, ◌%◌, ◌≤◌, ◌<◌, ◌≡◌, ◌∙◌, ap, refl, List, arith, some, none, take, drop, length-take, min,
  ltb, true, false, Option,
}
use tcio.Memory.{Heap, Ensures, IsFreshBox}
use tcio.Memory.Cells.{Holds-take}
use tcio.Memory.Runs.{Ensures-bind}
use tcio.Shared.Backed.{Backed-part, refs, Unsaturated}
use tcio.Shared.Keep.{Keeps}
use tcio.BytesMut.{BytesMut, advance_unchecked, shallow_clone, try_split_to, try_split_off}
use native.Mathlib.Decide.{dec_lt}
use mathlib.Core.Path.{subst}
use tcio.BytesMut.Valid.{IsMut}
use tcio.BytesMut.Advance.{Advanced, advance_unchecked_lem}
use tcio.BytesMut.Clone.{Doubled, shallow_clone_lem}

-- Two handles that share out the buffer part of `m` at `at`, under one word.
pub record Parted (h : Heap) (m : BytesMut) (xs : List ℕ) (at : ℕ) (left right : BytesMut)
    (h' : Heap) : Type 0 where
  pub left_view : IsMut h' left (take at xs)
  pub right_view : IsMut h' right (drop at xs)
  pub place : (left.ptr ≡ m.ptr) × (right.ptr ≡ m.ptr + at)
  pub room : (left.cap ≡ at) × (right.cap + at ≡ m.cap)
  pub promoted : left.data_word % 2 ≡ 0
  pub same_word : right.data_word ≡ left.data_word
  pub count : refs h' left.data_word ≡ refs h m.data_word + 1
  pub keeps : Keeps h h'

abbrev pub SplitOff : Heap → BytesMut → List ℕ → ℕ → BytesMut × Option BytesMut → Heap → Type 0
SplitOff h m xs at (me, none) h' = (m.cap < at) × (me ≡ m) × (h' ≡ h)
SplitOff h m xs at (me, some other) h' = (at ≤ m.cap) × Parted h m xs at me other h'

abbrev pub SplitTo : Heap → BytesMut → List ℕ → ℕ → BytesMut × Option BytesMut → Heap → Type 0
SplitTo h m xs at (me, none) h' = (m.len < at) × (me ≡ m) × (h' ≡ h)
SplitTo h m xs at (me, some other) h' = (at ≤ m.len) × Parted h m xs at other me h'

-- The front of a promoted handle.
IsMut-front :
    (h : Heap) (m : BytesMut) (xs : List ℕ) (at : ℕ)
    → m.data_word % 2 ≡ 0
    → at ≤ m.cap
    → IsMut h m xs
    → IsMut h (record m { len = min m.len at; cap = at }) (take at xs)
IsMut-front h m xs at even le v = record {
  size = omega (arith, length-take at xs, v.size);
  fit = omega arith;
  holds = Holds-take h.cell m.ptr at xs v.holds;
  standing =
      let e : m.ptr + 0 ≡ m.ptr = omega arith in
      rw e at (Backed-part h m.data_word m.ptr m.cap 0 at even (omega arith) v.standing);
}

module _ (h : Heap) (m : BytesMut) (xs : List ℕ) (at : ℕ) (le : at ≤ m.cap) where
  -- `c` stands for both copies, of which one keeps the front and the other was advanced.
  Parted-Doubled :
      (c d : BytesMut) (h' h'' : Heap) (n : ℕ)
      → n ≡ min c.len at
      → Doubled h m xs (c, c) h'
      → Advanced h' c xs at d h''
      → Parted h m xs at (record c { len = n; cap = at }) d h''
  Parted-Doubled c d h' h'' n e db ad =
      let ew = ad.same_word db.shared_word in
      rw (ad.same_heap, e)
        (record {
          left_view = IsMut-front h' c xs at db.shared_word (omega (arith, db.place.2)) db.view;
          right_view = ad.view;
          place = (db.place.0, ad.place ∙ ap (λ p. p + at) db.place.0);
          room = (refl, ad.room ∙ db.place.2);
          promoted = db.shared_word;
          same_word = ew;
          count = db.count;
          keeps = db.keeps;
        })

  both : {x y : BytesMut} {h' : Heap} → Doubled h m xs (x, y) h' → Doubled h m xs (x, x) h'
  both {x} {h'} db = subst (λ z. Doubled h m xs (x, z) h') db.same db

  Advanced-copy :
      (x : BytesMut) (h' : Heap)
      → Doubled h m xs (x, x) h'
      → Ensures (Advanced h' x xs at) (advance_unchecked at x h')
  Advanced-copy x h' db = advance_unchecked_lem h' x xs at (omega (arith, db.place.2, le)) db.view

-- `try_split_off` of a valid growable handle, with a count that can still grow and a fresh address
-- for a control block: a position past the capacity is refused and nothing changes; at any other
-- the handle keeps the front of the buffer with what is written there, and the rest goes to a
-- second handle under the same word.
pub try_split_off_mut_lem :
    (h : Heap) (k : ℕ) (m : BytesMut) (xs : List ℕ) (at : ℕ)
    → IsMut h m xs
    → IsFreshBox k h
    → Unsaturated h m.data_word
    → Ensures (SplitOff h m xs at) (try_split_off k at m h)
unfolding try_split_off
try_split_off_mut_lem h k m xs at v f u = elim (dec_lt m.cap at) [
  | yes gt ↦ let t : ltb m.cap at ≡ true = ground arith in rw t (gt, refl, refl)
  | no le ↦
      let t : ltb m.cap at ≡ false = ground arith in
      rw t (
        Ensures-bind (Doubled h m xs) (SplitOff h m xs at) (shallow_clone k m h) _
          (shallow_clone_lem h k m xs v f u)
          λ (x, y) h' db.
            let db' = both h m xs at (omega arith) db in
            rw db.same (
              Ensures-bind (Advanced h' x xs at) (SplitOff h m xs at) (advance_unchecked at x h') _
                (Advanced-copy h m xs at (omega arith) x h' db')
                λ d h'' ad.
                  (omega arith, Parted-Doubled h m xs at (omega arith) x d h' h'' _ refl db' ad)))
]

-- `try_split_to` of a valid growable handle, with a count that can still grow and a fresh address
-- for a control block: a position past the written part is refused and nothing changes; at any
-- other the written front goes to a second handle with no spare capacity, and the handle keeps the
-- rest.
try_split_to_mut_lem :
    (h : Heap) (k : ℕ) (m : BytesMut) (xs : List ℕ) (at : ℕ)
    → IsMut h m xs
    → IsFreshBox k h
    → Unsaturated h m.data_word
    → Ensures (SplitTo h m xs at) (try_split_to k at m h)
unfolding try_split_to
try_split_to_mut_lem h k m xs at v f u = elim (dec_lt m.len at) [
  | yes gt ↦ let t : ltb m.len at ≡ true = ground arith in rw t (gt, refl, refl)
  | no ge ↦
      let t : ltb m.len at ≡ false = ground arith in
      let le : at ≤ m.cap = omega (arith, v.fit) in
      rw t (
        Ensures-bind (Doubled h m xs) (SplitTo h m xs at) (shallow_clone k m h) _
          (shallow_clone_lem h k m xs v f u)
          λ (x, y) h' db.
            let db' = both h m xs at le db in
            rw db.same (
              Ensures-bind (Advanced h' x xs at) (SplitTo h m xs at) (advance_unchecked at x h') _
                (Advanced-copy h m xs at le x h' db')
                λ d h'' ad. (
                  omega arith,
                  Parted-Doubled h m xs at le x d h' h'' at (omega (arith, db.place.1)) db' ad,
                )))
]
