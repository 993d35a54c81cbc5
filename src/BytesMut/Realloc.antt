-- ===== src/BytesMut/Realloc.antt =====
-- The reallocating branches of `reserve_inner` in src/bytes/bytes_mut.rs.
use tcio.Base.{
  ℕ, ◌+◌, ◌-◌, ◌/◌, ◌%◌, ◌≤◌, ◌<◌, ◌≡◌, inl, inr, refl, List, arith, some, none, leb, ◌==◌, ◌&&◌,
  true, false,
}
use tcio.Base.Words.{isize_max, word_mod}
use tcio.Memory.{Heap, Shared, ok, Ensures, Allocator, IsFresh, deallocate, drop_vec, set_box}
use tcio.Memory.Fresh.{filled, copy-filled, filled-kept, with_capacity-ok}
use tcio.Shared.Backed.{IsBuffer}
use tcio.Shared.Steps.{mask_payload-ok, release_shared, release_last, release_last_empty}
use tcio.BytesMut.{BytesMut, bytes_mut, reserve_owned, grown, reallocate_shared}
use tcio.BytesMut.Valid.{IsMut}
use tcio.BytesMut.Reserve.{Reserved}
use tcio.Shared.{release}
use tcio.Shared.Keep.{Keeps-trans, Keeps-filled, Keeps-bump}
use native.Mathlib.Decide.{ℕ_discrete}
use tcio.BytesMut.Settle.{
  settled, deallocate-apart, deallocate-Outside, drop_old, drop_old_empty, still_listed,
}

module _ (h : Heap) (g : Allocator) (additional p n c w : ℕ) (xs : List ℕ)
    (v : IsMut h (bytes_mut p n c w) xs) (need : ℕ) (pos : 0 < need) (le : need ≤ isize_max)
    (fits : n + additional ≤ need) (f : IsFresh (g need) need h) where
  abbrev new_heap : Heap
  new_heap = filled h (g need) need f xs

  abbrev new_handle : BytesMut
  new_handle = bytes_mut (g need).at n (g need).cap 1

  module _ (e : grown additional (bytes_mut p n c w) ≡ need) (odd : w % 2 ≡ 1) (off : w / 2 ≤ p)
      (b : IsBuffer h (p - w / 2) (c + w / 2))
      (kept : (leb additional (w / 2 + (c - n)) && leb n (w / 2)) ≡ false) where
    reserve_owned-drop :
        (h' : Heap)
        → drop_vec (record { ptr = p - w / 2; len = n + w / 2; cap = c + w / 2 }) new_heap
          ≡ ok tt h'
        → reserve_owned g additional true (w / 2) (bytes_mut p n c w) h ≡ ok (new_handle, true) h'
    unfolding reserve_owned
    reserve_owned-drop h' dropped = rw (
      kept,
      e,
      with_capacity-ok g need h pos le,
      copy-filled h (g need) need f p n xs v.size (omega arith) v.holds,
      dropped,
      mask_payload-ok h' w 0 odd (omega arith),
    )

    Reserved-freed :
        0 < c + w / 2
        → h.vecs (p - w / 2) ≡ some (c + w / 2)
        → Reserved h
            (bytes_mut p n c w)
            xs
            additional
            new_handle
            (deallocate (p - w / 2) (c + w / 2) new_heap)
    Reserved-freed some_cap live = record {
      view =
          settled h (g need) need f xs n v.size (omega arith) _
            (λ a lo hi.
              deallocate-apart h (g need) need f xs n v.size (omega arith) _ _ a b.mapped lo hi)
            (still_listed h (g need) need f xs n v.size (omega arith) _ _ some_cap live);
      room = omega (arith, f.enough);
      outside = λ a m out.
          deallocate-Outside h (g need) need f xs n v.size (omega arith) _ _ a (rw t at out) m;
      others = λ more. absurd (ground arith);
      spare = λ more. absurd (ground arith);
    }
      where
        t : (w % 2 == 1) ≡ true
        t = ground arith

    Reserved-unfreed : Reserved h (bytes_mut p n c w) xs additional new_handle new_heap
    Reserved-unfreed = record {
      view = settled h (g need) need f xs n v.size (omega arith) _ (λ a lo hi. refl) (ground arith);
      room = omega (arith, f.enough);
      outside = λ a m out. filled-kept h (g need) need f xs a (omega (arith, v.size)) m;
      others = λ more. absurd (ground arith);
      spare = λ more. absurd (ground arith);
    }

    pub reserve_owned-realloc :
        Ensures
          (λ r h'. (r.1 ≡ true) × Reserved h (bytes_mut p n c w) xs additional r.0 h')
          (reserve_owned g additional true (w / 2) (bytes_mut p n c w) h)
    reserve_owned-realloc = elim (ℕ_discrete (c + w / 2) 0) [
      | yes z ↦
          rw
            (reserve_owned-drop new_heap
              (drop_old_empty h (g need) need f xs n v.size (omega arith) _ _ _ z))
            (refl, Reserved-unfreed)
      | no nz ↦ elim b.live [
        | inl z ↦ absurd (nz z)
        | inr live ↦
            rw
              (reserve_owned-drop _
                (drop_old h (g need) need f xs n v.size (omega arith) _ _ _ (omega arith) live))
              (refl, Reserved-freed (omega arith) live)
      ]
    ]

  module _ (c' : ℕ) (s : Shared) (even : w % 2 ≡ 0) (box : h.boxes w ≡ some s)
      (b : IsBuffer h s.ptr s.cap) (same : grown additional (bytes_mut p n c' w) ≡ need) where
    reallocate_shared-release :
        (h' : Heap)
        → release w new_heap ≡ ok tt h'
        → reallocate_shared g additional true (bytes_mut p n c' w) h ≡ ok (new_handle, true) h'
    unfolding reallocate_shared
    reallocate_shared-release h' released = rw (
      same,
      with_capacity-ok g need h pos le,
      copy-filled h (g need) need f p n xs v.size (omega arith) v.holds,
      released,
    )

    even_test : (w % 2 == 1) ≡ false
    even_test = ground arith

    Reserved-shared :
        0 < s.ref_count - 1
        → Reserved h
            (bytes_mut p n c w)
            xs
            additional
            new_handle
            (set_box w (some (record s { ref_count = s.ref_count - 1 })) new_heap)
    Reserved-shared more = record {
      view = settled h (g need) need f xs n v.size (omega arith) _ (λ a lo hi. refl) (ground arith);
      room = omega (arith, f.enough);
      outside = λ a m out. filled-kept h (g need) need f xs a (omega (arith, v.size)) m;
      others = λ _.
          Keeps-trans h new_heap _ (Keeps-filled h (g need) need f xs (omega (arith, v.size)))
            (Keeps-bump new_heap w (s.ref_count - 1) s box more);
      spare = λ _ a lo hi. inl (f.unused a (omega arith) hi);
    }

    Reserved-last :
        s.ref_count ≡ 1
        → 0 < s.cap
        → h.vecs s.ptr ≡ some s.cap
        → Reserved h
            (bytes_mut p n c w)
            xs
            additional
            new_handle
            (set_box w none (deallocate s.ptr s.cap new_heap))
    Reserved-last one some_cap live = record {
      view =
          settled h (g need) need f xs n v.size (omega arith) _
            (λ a lo hi.
              deallocate-apart h (g need) need f xs n v.size (omega arith) _ _ a b.mapped lo hi)
            (still_listed h (g need) need f xs n v.size (omega arith) _ _ some_cap live);
      room = omega (arith, f.enough);
      outside = λ a m out.
          deallocate-Outside h (g need) need f xs n v.size (omega arith) _ _ a
            (rw (even_test, box) at out) m;
      others = λ more. absurd (ground arith);
      spare = λ more. absurd (ground arith);
    }

    Reserved-last_empty :
        s.ref_count ≡ 1
        → Reserved h (bytes_mut p n c w) xs additional new_handle (set_box w none new_heap)
    Reserved-last_empty one = record {
      view = settled h (g need) need f xs n v.size (omega arith) _ (λ a lo hi. refl) (ground arith);
      room = omega (arith, f.enough);
      outside = λ a m out. filled-kept h (g need) need f xs a (omega (arith, v.size)) m;
      others = λ more. absurd (ground arith);
      spare = λ more. absurd (ground arith);
    }

    pub reallocate_shared-realloc :
        0 < s.ref_count
        → s.ref_count < word_mod
        → Ensures
            (λ r h'. (r.1 ≡ true) × Reserved h (bytes_mut p n c w) xs additional r.0 h')
            (reallocate_shared g additional true (bytes_mut p n c' w) h)
    reallocate_shared-realloc rc small = elim (ℕ_discrete s.ref_count 1) [
      | no ne ↦
          rw (reallocate_shared-release _ (release_shared new_heap w (box) (omega arith) small))
            (refl, Reserved-shared (omega arith))
      | yes one ↦ elim (ℕ_discrete s.cap 0) [
        | yes z ↦
            rw (reallocate_shared-release _ (release_last_empty new_heap w (box) one z))
              (refl, Reserved-last_empty one)
        | no nz ↦ elim b.live [
          | inl z ↦ absurd (nz z)
          | inr live ↦
              rw
                (reallocate_shared-release _
                  (release_last new_heap w (box) one (ground (arith, f.new)) (omega arith)))
                (refl, Reserved-last one (omega arith) live)
        ]
      ]
    ]
