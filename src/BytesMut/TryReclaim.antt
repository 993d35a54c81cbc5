-- ===== src/BytesMut/TryReclaim.antt =====
-- `try_reclaim` in src/bytes/bytes_mut.rs.
use tcio.Base.{
  ℕ, ◌+◌, ◌-◌, ◌/◌, ◌%◌, ◌≤◌, ◌<◌, ◌≡◌, inl, inr, refl, List, Bool, some, arith, true, false, ◌==◌,
  ◌&&◌, leb,
}
use tcio.Base.Words.{isize_max, word_mod}
use tcio.Memory.{Heap, Shared, Ensures, Allocator, ok}
use tcio.Shared
use tcio.Shared.Backed.{IsBuffer, Backed, owned, counted}
use tcio.Shared.Steps.{as_unpromoted-odd, as_unpromoted-even}
use tcio.Shared.Keep.{Keeps-refl}
use tcio.BytesMut.{
  BytesMut, bytes_mut, try_reclaim, reserve_inner, reserve_owned, reclaim_shared, reallocate_shared,
}
use tcio.BytesMut.Valid.{IsMut}
use tcio.BytesMut.Reserve.{Reserved, Reserved-moved, reserve_owned-reclaim}
use tcio.BytesMut.Reclaim.{
  reclaim-tail, Reserved-tail, reclaim-move, Reserved-move, reclaim-else, IsMut-with_tail,
}
use native.Mathlib.Decide.{ℕ_discrete, dec_le}

-- What `try_reclaim` leaves.
pub record Tried (h : Heap) (m : BytesMut) (xs : List ℕ) (additional : ℕ) (r : BytesMut × Bool)
    (h' : Heap) : Type 0 where
  pub reclaimed : r.1 ≡ true → Reserved h m xs additional r.0 h'
  pub no_allocation : h'.vecs ≡ h.vecs
  pub refused : r.1 ≡ false → (h' ≡ h) × (r.0.ptr ≡ m.ptr) × IsMut h r.0 xs

module _ (h : Heap) (m : BytesMut) (xs : List ℕ) (additional : ℕ) where
  Tried-true :
      (m' : BytesMut) (h' : Heap)
      → h'.vecs ≡ h.vecs
      → Reserved h m xs additional m' h'
      → Tried h m xs additional (m', true) h'
  Tried-true m' h' same r = record {
    no_allocation = same;
    reclaimed = λ e. r;
    refused = λ e. absurd (ground (arith, e));
  }

  Tried-false :
      (m' : BytesMut) → m'.ptr ≡ m.ptr → IsMut h m' xs → Tried h m xs additional (m', false) h
  Tried-false m' e v = record {
    no_allocation = refl;
    reclaimed = λ f. absurd (ground (arith, f));
    refused = λ f. (refl, e, v);
  }

module _ (h : Heap) (g : Allocator) (additional p n c w : ℕ) (xs : List ℕ)
    (v : IsMut h (bytes_mut p n c w) xs) where
  module _ (odd : w % 2 ≡ 1) (off : w / 2 ≤ p) (b : IsBuffer h (p - w / 2) (c + w / 2)) where
    owned-refused :
        (leb additional (w / 2 + (c - n)) && leb n (w / 2)) ≡ false
        → reserve_owned g additional false (w / 2) (bytes_mut p n c w) h
          ≡ ok (bytes_mut p n c w, false) h
    unfolding reserve_owned
    owned-refused kept = rw kept refl

    owned-Tried :
        Ensures
          (Tried h (bytes_mut p n c w) xs additional)
          (reserve_owned g additional false (w / 2) (bytes_mut p n c w) h)
    owned-Tried = elim (dec_le additional (w / 2 + (c - n))) [
      | yes enough ↦ elim (dec_le n (w / 2)) [
        | yes le ↦
            rw (reserve_owned-reclaim h p n c w xs v odd off b g additional false le enough) (
              Tried-true h _ xs additional _ _ refl
                (Reserved-moved h p n c w xs v odd off b additional le enough))
        | no gt ↦ rw (owned-refused (ground arith)) (Tried-false h _ xs additional _ refl v)
      ]
      | no short ↦ rw (owned-refused (ground arith)) (Tried-false h _ xs additional _ refl v)
    ]

  reallocate-refused : (m : BytesMut) → reallocate_shared g additional false m h ≡ ok (m, false) h
  unfolding reallocate_shared
  reallocate-refused m = refl

  module _ (s : Shared) (even : w % 2 ≡ 0) (wpos : 0 < w) (box : h.boxes w ≡ some s)
      (lo : s.ptr ≤ p) (hi : p + c ≤ s.ptr + s.cap) (b : IsBuffer h s.ptr s.cap) where
    reclaim-Tried :
        s.ref_count ≡ 1
        → Ensures
            (Tried h (bytes_mut p n c w) xs additional)
            (reclaim_shared g additional false s (bytes_mut p n c w) h)
    reclaim-Tried one =
        let offset = p - s.ptr in
        let wide = c + (s.cap - (c + offset)) in
        let given_up =
          Tried-false h (bytes_mut p n c w) xs additional (bytes_mut p n wide w) refl
            (IsMut-with_tail h additional p n c w xs v s even wpos box one lo hi b) in
        elim (dec_le additional (s.cap - (c + offset))) [
          | yes le ↦
              rw (reclaim-tail h additional p n c w xs v s even wpos box one lo hi b g false le) (
                Tried-true h _ xs additional _ _ refl
                  (Reserved-tail h additional p n c w xs v s even wpos box one lo hi b le))
          | no gt ↦ elim (dec_le additional (offset + (wide - n))) [
            | yes enough ↦ elim (dec_le n offset) [
              | yes le ↦
                  rw
                    (reclaim-move h additional p n c w xs v s even wpos box one lo hi b g false
                      (omega arith) enough le)
                    (Tried-true h _ xs additional _ _ refl (
                      Reserved-move h additional p n c w xs v s even wpos box one lo hi b enough
                        le))
              | no far ↦
                  rw
                    (
                      reclaim-else h additional p n c w xs v s even wpos box one lo hi b g false
                          (omega arith) (inr (omega arith)),
                      reallocate-refused (bytes_mut p n wide w),
                    )
                    given_up
            ]
            | no short ↦
                rw
                  (
                    reclaim-else h additional p n c w xs v s even wpos box one lo hi b g false
                        (omega arith) (inl (omega arith)),
                    reallocate-refused (bytes_mut p n wide w),
                  )
                  given_up
          ]
        ]

  inner-Tried :
      0 < additional
      → c + additional ≤ isize_max
      → Ensures
          (Tried h (bytes_mut p n c w) xs additional)
          (reserve_inner g additional false (bytes_mut p n c w) h)
  unfolding reserve_inner Shared.is_unique
  inner-Tried pos room = by_standing v.standing
    where
      z : (additional == 0) ≡ false
      z = ground arith

      fine : leb ((additional + c) % word_mod) isize_max ≡ true
      fine = ground arith

      by_standing :
          Backed h w p c
          → Ensures
              (Tried h (bytes_mut p n c w) xs additional)
              (reserve_inner g additional false (bytes_mut p n c w) h)
      by_standing (owned odd off b) =
          rw (z, fine, as_unpromoted-odd h w odd) (owned-Tried odd off b)
      by_standing (counted s even wpos box rc lo hi b) = elim (ℕ_discrete s.ref_count 1) [
        | yes one ↦
            let u : (s.ref_count == 1) ≡ true = ground arith in
            rw (z, fine, as_unpromoted-even h w even box, u)
              (reclaim-Tried s even wpos box lo hi b one)
        | no ne ↦
            let u : (s.ref_count == 1) ≡ false = ground arith in
            rw (z, fine, as_unpromoted-even h w even box, u, reallocate-refused (bytes_mut p n c w))
              (Tried-false h _ xs additional _ refl v)
      ]

-- `try_reclaim` on a valid handle, where capacity and request fit `isize::MAX` together, allocates
-- and frees no buffer: on `true` the handle has the same bytes and room for `additional` more, as
-- after `reserve`; on `false` the memory is as it was and the handle has its bytes where they were.
pub try_reclaim_lem :
    (g : Allocator) (additional : ℕ) (m : BytesMut) (h : Heap) (xs : List ℕ)
    → IsMut h m xs
    → m.cap + additional ≤ isize_max
    → Ensures (Tried h m xs additional) (try_reclaim g additional m h)
unfolding try_reclaim
try_reclaim_lem g additional m h xs v room = elim (dec_le additional (m.cap - m.len)) [
  | yes le ↦
      let t : leb additional (m.cap - m.len) ≡ true = ground arith in
      rw t (
        Tried-true h m xs additional m h refl (record {
          view = v;
          room = le;
          outside = λ a k out. refl;
          others = λ more. Keeps-refl h;
          spare = λ more a lo hi. inr (lo, hi);
        }))
  | no gt ↦
      let t : leb additional (m.cap - m.len) ≡ false = ground arith in
      rw t (inner-Tried h g additional m.ptr m.len m.cap m.data_word xs v (omega arith) room)
]
