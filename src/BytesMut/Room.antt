-- ===== src/BytesMut/Room.antt =====
-- `reserve` and `try_reclaim` in src/bytes/bytes_mut.rs, over the arms of `reserve_inner`.
use tcio.Base.{
  ℕ, ◌+◌, ◌-◌, ◌*◌, ◌/◌, ◌%◌, ◌≤◌, ◌<◌, ◌≡◌, inl, inr, refl, List, arith, some, leb, ◌==◌, ◌&&◌,
  true, false, Bool,
}
use tcio.Base.Words.{isize_max, word_mod}
use tcio.Memory.{Heap, Shared, Ensures, Allocator, Serves}
use tcio.Memory.Runs.{Ensures-bind}
use tcio.Shared
use tcio.Shared.Backed.{IsBuffer, Backed, owned, counted, refs, buffer_of}
use tcio.Shared.Steps.{as_unpromoted-odd, as_unpromoted-even}
use tcio.Shared.Keep.{Keeps-refl}
use tcio.BytesMut.{
  BytesMut, bytes_mut, reserve, reserve_inner, reserve_owned, reclaim_shared, reallocate_shared,
  grown,
}
use tcio.BytesMut.Valid.{IsMut}
use tcio.BytesMut.Reserve.{Reserved, Reserved-moved, reserve_owned-reclaim}
use tcio.BytesMut.Realloc.{reserve_owned-realloc, reallocate_shared-realloc}
use tcio.BytesMut.Reclaim.{reclaim-tail, Reserved-tail, reclaim-move, Reserved-move, reclaim-else}
use native.Mathlib.Decide.{ℕ_discrete, dec_le}

abbrev Done : Heap → BytesMut → List ℕ → ℕ → BytesMut × Bool → Heap → Type 0
Done h m xs additional r h' = (r.1 ≡ true) × Reserved h m xs additional r.0 h'

module _ (h : Heap) (g : Allocator) (additional p n c w : ℕ) (xs : List ℕ)
    (v : IsMut h (bytes_mut p n c w) xs) (serves : Serves g h) (pos : 0 < additional)
    (fits : n + additional ≤ isize_max) where
  module _ (odd : w % 2 ≡ 1) (off : w / 2 ≤ p) (b : IsBuffer h (p - w / 2) (c + w / 2))
      (big : c * 2 ≤ isize_max) where
    realloc_owned :
        (leb additional (w / 2 + (c - n)) && leb n (w / 2)) ≡ false
        → Ensures
            (Done h (bytes_mut p n c w) xs additional)
            (reserve_owned g additional true (w / 2) (bytes_mut p n c w) h)
    realloc_owned kept =
        reserve_owned-realloc h g additional p n c w xs v (grown additional (bytes_mut p n c w))
          (omega arith) (omega arith) (omega arith)
          (serves (grown additional (bytes_mut p n c w)) (omega arith) (omega arith)) refl odd off b
          kept

    reserve_owned-Done :
        Ensures
          (Done h (bytes_mut p n c w) xs additional)
          (reserve_owned g additional true (w / 2) (bytes_mut p n c w) h)
    reserve_owned-Done = elim (dec_le additional (w / 2 + (c - n))) [
      | yes enough ↦ elim (dec_le n (w / 2)) [
        | yes le ↦
            rw (reserve_owned-reclaim h p n c w xs v odd off b g additional true le enough)
              (refl, Reserved-moved h p n c w xs v odd off b additional le enough)
        | no gt ↦ realloc_owned (ground arith)
      ]
      | no short ↦ realloc_owned (ground arith)
    ]

  module _ (s : Shared) (even : w % 2 ≡ 0) (wpos : 0 < w) (box : h.boxes w ≡ some s)
      (lo : s.ptr ≤ p) (hi : p + c ≤ s.ptr + s.cap) (b : IsBuffer h s.ptr s.cap)
      (big : s.cap * 2 ≤ isize_max) where
    reallocate-Done :
        (c' : ℕ)
        → c' * 2 ≤ isize_max
        → 0 < s.ref_count
        → s.ref_count < word_mod
        → Ensures
            (Done h (bytes_mut p n c w) xs additional)
            (reallocate_shared g additional true (bytes_mut p n c' w) h)
    reallocate-Done c' small rc count =
        reallocate_shared-realloc h g additional p n c w xs v
          (grown additional (bytes_mut p n c' w)) (omega arith) (omega arith) (omega arith)
          (serves (grown additional (bytes_mut p n c' w)) (omega arith) (omega arith)) c' s even box
          b refl rc count

    reclaim_shared-Done :
        s.ref_count ≡ 1
        → Ensures
            (Done h (bytes_mut p n c w) xs additional)
            (reclaim_shared g additional true s (bytes_mut p n c w) h)
    reclaim_shared-Done one =
        let offset = p - s.ptr in
        let wide = c + (s.cap - (c + offset)) in
        elim (dec_le additional (s.cap - (c + offset))) [
          | yes le ↦
              rw (reclaim-tail h additional p n c w xs v s even wpos box one lo hi b g true le)
                (refl, Reserved-tail h additional p n c w xs v s even wpos box one lo hi b le)
          | no gt ↦ elim (dec_le additional (offset + (wide - n))) [
            | yes enough ↦ elim (dec_le n offset) [
              | yes le ↦
                  rw
                    (reclaim-move h additional p n c w xs v s even wpos box one lo hi b g true
                      (omega arith) enough le)
                    (
                      refl,
                      Reserved-move h additional p n c w xs v s even wpos box one lo hi b enough le,
                    )
              | no far ↦
                  rw
                    (reclaim-else h additional p n c w xs v s even wpos box one lo hi b g true
                      (omega arith) (inr (omega arith)))
                    (reallocate-Done wide (omega arith) (omega arith) (omega arith))
            ]
            | no short ↦
                rw
                  (reclaim-else h additional p n c w xs v s even wpos box one lo hi b g true
                    (omega arith) (inl (omega arith)))
                  (reallocate-Done wide (omega arith) (omega arith) (omega arith))
          ]
        ]

  reserve_inner-Done :
      (buffer_of h w p c).1 * 2 ≤ isize_max
      → (buffer_of h w p c).1 + additional ≤ isize_max
      → refs h w < word_mod
      → Ensures
          (Done h (bytes_mut p n c w) xs additional)
          (reserve_inner g additional true (bytes_mut p n c w) h)
  unfolding reserve_inner Shared.is_unique
  reserve_inner-Done big room count = by_standing v.standing
    where
      by_standing :
          Backed h w p c
          → Ensures
              (Done h (bytes_mut p n c w) xs additional)
              (reserve_inner g additional true (bytes_mut p n c w) h)
      by_standing (owned odd off b) =
          let t : (w % 2 == 1) ≡ true = ground arith in
          let big' : c * 2 ≤ isize_max = omega (arith, rw (t) at big) in
          let z : (additional == 0) ≡ false = ground arith in
          let fine : leb ((additional + c) % word_mod) isize_max ≡ true =
            ground (arith, rw (t) at room) in
          rw (z, fine, as_unpromoted-odd h w odd) (reserve_owned-Done odd off b big')
      by_standing (counted s even wpos box rc lo hi b) =
          let t : (w % 2 == 1) ≡ false = ground arith in
          let big' : s.cap * 2 ≤ isize_max = rw (t, box) at big in
          let count' : s.ref_count < word_mod = rw (t, box) at count in
          let z : (additional == 0) ≡ false = ground arith in
          let room' : s.cap + additional ≤ isize_max = rw (t, box) at room in
          let fine : leb ((additional + c) % word_mod) isize_max ≡ true = ground arith in
          elim (ℕ_discrete s.ref_count 1) [
            | yes one ↦
                let u : (s.ref_count == 1) ≡ true = ground arith in
                rw (z, fine, as_unpromoted-even h w even box, u)
                  (reclaim_shared-Done s even wpos box lo hi b big' one)
            | no ne ↦
                let u : (s.ref_count == 1) ≡ false = ground arith in
                rw (z, fine, as_unpromoted-even h w even box, u)
                  (reallocate-Done s even wpos box lo hi b big' c (omega arith) rc count')
          ]

-- A handle lies within its buffer.
Backed-fits : (h : Heap) (w p n : ℕ) → Backed h w p n → n ≤ (buffer_of h w p n).1
Backed-fits h w p n (owned odd off b) = ground arith
Backed-fits h w p n (counted s even wpos box rc lo hi b) = ground arith

-- `reserve` on a valid handle, with an allocator that answers, a count below 2 ^ 64 and sizes that
-- fit a word, ends well and returns a valid handle with the same bytes written and room for
-- `additional` more. Mapped cells outside the old buffer are as they were, and if the buffer is
-- shared, everything else that was backed stays so.
pub reserve_lem :
    (g : Allocator) (additional : ℕ) (m : BytesMut) (h : Heap) (xs : List ℕ)
    → IsMut h m xs
    → Serves g h
    → refs h m.data_word < word_mod
    → (buffer_of h m.data_word m.ptr m.cap).1 * 2 ≤ isize_max
    → (buffer_of h m.data_word m.ptr m.cap).1 + additional ≤ isize_max
    → Ensures (Reserved h m xs additional) (reserve g additional m h)
unfolding reserve
reserve_lem g additional m h xs v serves count big room = elim (dec_le additional (m.cap - m.len)) [
  | yes le ↦
      let t : leb additional (m.cap - m.len) ≡ true = ground arith in
      rw t (record {
        view = v;
        room = le;
        outside = λ a k out. refl;
        others = λ more. Keeps-refl h;
        spare = λ more a lo hi. inr (lo, hi);
      })
  | no gt ↦
      let t : leb additional (m.cap - m.len) ≡ false = ground arith in
      rw t (
        Ensures-bind (Done h m xs additional) (Reserved h m xs additional)
          (reserve_inner g additional true m h) _
          (reserve_inner-Done h g additional m.ptr m.len m.cap m.data_word xs v serves (omega arith)
            (omega (arith, v.fit, Backed-fits h m.data_word m.ptr m.cap v.standing)) big room count)
          (λ r h' d. d.1))
]
