-- ===== src/BytesMut/Reclaim.antt =====
-- `reserve_inner` in src/bytes/bytes_mut.rs: the arm of the last handle on a promoted buffer.
use tcio.Base.{
  ℕ, ◌+◌, ◌-◌, ◌%◌, ◌≤◌, ◌<◌, ◌≡◌, ◌⊎◌, inl, inr, refl, List, arith, some, ◌==◌, true, false, Bool,
}
use tcio.Memory.{Heap, Shared, ok, Allocator, over}
use tcio.Memory.Cells.{Holds-over, over-below, over-above, over-mapped}
use tcio.Memory.Runs.{copy_nonoverlapping-ok}
use tcio.Shared.Backed.{IsBuffer, counted}
use tcio.BytesMut.{bytes_mut, reclaim_shared, reallocate_shared}
use tcio.BytesMut.Valid.{IsMut}
use tcio.BytesMut.Reserve.{Outside, Reserved}

module _ (h : Heap) (additional p n c w : ℕ) (xs : List ℕ) (v : IsMut h (bytes_mut p n c w) xs)
    (s : Shared) (even : w % 2 ≡ 0) (pos : 0 < w) (box : h.boxes w ≡ some s) (one : s.ref_count ≡ 1)
    (lo : s.ptr ≤ p) (hi : p + c ≤ s.ptr + s.cap) (b : IsBuffer h s.ptr s.cap) where
  abbrev off : ℕ
  off = p - s.ptr

  -- The capacity with the tail of the buffer.
  abbrev full : ℕ
  full = c + (s.cap - (c + off))

  even_test : (w % 2 == 1) ≡ false
  even_test = ground arith

  pub IsMut-with_tail : IsMut h (bytes_mut p n full w) xs
  IsMut-with_tail = record {
    size = v.size;
    fit = omega (arith, v.fit);
    holds = v.holds;
    standing = counted s even pos box (omega arith) lo (omega arith) b;
  }

  pub reclaim-tail :
      (g : Allocator) (alloc : Bool)
      → additional ≤ s.cap - (c + off)
      → reclaim_shared g additional alloc s (bytes_mut p n c w) h
        ≡ ok (bytes_mut p n full w, true) h
  unfolding reclaim_shared
  reclaim-tail g alloc le = ground arith

  pub Reserved-tail :
      additional ≤ s.cap - (c + off)
      → Reserved h (bytes_mut p n c w) xs additional (bytes_mut p n full w) h
  Reserved-tail le = record {
    view = IsMut-with_tail;
    room = omega (arith, v.fit);
    outside = λ a m out. refl;
    others = λ more. absurd (ground arith);
    spare = λ more. absurd (ground arith);
  }

  abbrev moved : Heap
  moved = record h { cell = over h.cell s.ptr xs }

  pub reclaim-move :
      (g : Allocator) (alloc : Bool)
      → s.cap - (c + off) < additional
      → additional ≤ off + (full - n)
      → n ≤ off
      → reclaim_shared g additional alloc s (bytes_mut p n c w) h
        ≡ ok (bytes_mut s.ptr n (full + off) w, true) moved
  unfolding reclaim_shared
  reclaim-move g alloc short enough le = ground (
    arith,
    copy_nonoverlapping-ok h p s.ptr n xs v.size v.holds
        (λ a l u. b.mapped a l (omega (arith, v.fit))) (inr (omega arith)),
  )

  pub Reserved-move :
      additional ≤ off + (full - n)
      → n ≤ off
      → Reserved h (bytes_mut p n c w) xs additional (bytes_mut s.ptr n (full + off) w) moved
  Reserved-move enough le = record {
    view = record {
      size = v.size;
      fit = omega (arith, v.fit);
      holds = Holds-over h.cell s.ptr xs;
      standing = counted s even pos box (omega arith) (omega arith) (omega arith) (record {
        mapped = λ a l u. over-mapped h.cell s.ptr a xs (b.mapped a l u);
        live = b.live;
        small = b.small;
      });
    };
    room = omega (arith, v.fit);
    outside = λ a m out. outside a (rw (even_test, box) at out);
    others = λ more. absurd (ground arith);
    spare = λ more. absurd (ground arith);
  }
    where
      outside : (a : ℕ) → Outside s.ptr s.cap a → over h.cell s.ptr xs a ≡ h.cell a
      outside a (inl lt) = over-below h.cell s.ptr a xs lt
      outside a (inr ge) = over-above h.cell s.ptr a xs (omega (arith, v.size, v.fit))

  pub reclaim-else :
      (g : Allocator) (alloc : Bool)
      → s.cap - (c + off) < additional
      → ((off + (full - n) < additional) ⊎ (off < n))
      → reclaim_shared g additional alloc s (bytes_mut p n c w) h
        ≡ reallocate_shared g additional alloc (bytes_mut p n full w) h
  unfolding reclaim_shared
  reclaim-else g alloc short out = ground arith
