-- ===== src/BytesMut/Reserve.antt =====
-- `reserve_inner` in src/bytes/bytes_mut.rs: the arm of an unpromoted handle.
use tcio.Base.{
  ℕ, ◌+◌, ◌-◌, ◌/◌, ◌%◌, ◌≤◌, ◌<◌, ◌≡◌, ◌≢◌, ◌⊎◌, inl, inr, refl, List, arith, ◌==◌, true, Bool,
}
use tcio.Memory.{Heap, ok, unmapped, Allocator, over}
use tcio.Memory.Cells.{Holds-over, over-below, over-above, over-mapped}
use tcio.Memory.Runs.{copy_nonoverlapping-ok}
use tcio.Shared.Backed.{IsBuffer, owned, refs, buffer_of}
use tcio.Shared.Keep.{Keeps}
use tcio.Shared.Steps.{mask_payload-ok}
use tcio.BytesMut.{BytesMut, bytes_mut, reserve_owned}
use tcio.BytesMut.Valid.{IsMut}

-- Outside `c` addresses from `p` on.
abbrev pub Outside : (p c a : ℕ) → Type 0
Outside p c a = (a < p) ⊎ (p + c ≤ a)

-- What a successful reservation leaves: what was written, room for `additional` bytes behind it,
-- and every mapped cell outside the old buffer as it was.
pub record Reserved (h : Heap) (m : BytesMut) (xs : List ℕ) (additional : ℕ) (m' : BytesMut)
    (h' : Heap) : Type 0 where
  pub view : IsMut h' m' xs
  pub room : additional ≤ m'.cap - m'.len
  pub outside :
      (a : ℕ)
      → h.cell a ≢ unmapped
      → Outside (buffer_of h m.data_word m.ptr m.cap).0 (buffer_of h m.data_word m.ptr m.cap).1 a
      → h'.cell a ≡ h.cell a
  pub others : 1 < refs h m.data_word → Keeps h h'
  -- The room is the old handle's own or was nobody's, where other handles share the buffer.
  pub spare :
      1 < refs h m.data_word
      → (a : ℕ) → m'.ptr + m'.len ≤ a
      → a < m'.ptr + m'.cap
      → (h.cell a ≡ unmapped) ⊎ ((m.ptr + m.len ≤ a) × (a < m.ptr + m.cap))

module _ (h : Heap) (p n c w : ℕ) (xs : List ℕ) (v : IsMut h (bytes_mut p n c w) xs)
    (odd : w % 2 ≡ 1) (off : w / 2 ≤ p) (b : IsBuffer h (p - w / 2) (c + w / 2)) where
  abbrev pub moved : Heap
  moved = record h { cell = over h.cell (p - w / 2) xs }

  IsBuffer-moved : (q e : ℕ) → IsBuffer h q e → IsBuffer moved q e
  IsBuffer-moved q e k = record {
    mapped = λ a lo hi. over-mapped h.cell (p - w / 2) a xs (k.mapped a lo hi);
    live = k.live;
    small = k.small;
  }

  pub Reserved-moved :
      (additional : ℕ)
      → n ≤ w / 2
      → additional ≤ w / 2 + (c - n)
      → Reserved h (bytes_mut p n c w) xs additional (bytes_mut (p - w / 2) n (c + w / 2) 1) moved
  Reserved-moved additional le enough = record {
    view = record {
      size = v.size;
      fit = omega (arith, v.fit);
      holds = Holds-over h.cell (p - w / 2) xs;
      standing = owned refl (omega arith) (
          IsBuffer-moved _ _ (
            let e : p - w / 2 - 1 / 2 ≡ p - w / 2 = omega arith in
            let q : c + w / 2 + 1 / 2 ≡ c + w / 2 = omega arith in rw (e, q) b));
    };
    room = omega (arith, v.fit);
    outside = λ a m out. outside a (rw t at out);
    others = λ more. absurd (ground arith);
    spare = λ more. absurd (ground arith);
  }
    where
      t : (w % 2 == 1) ≡ true
      t = ground arith

      outside :
          (a : ℕ) → Outside (p - w / 2) (c + w / 2) a → over h.cell (p - w / 2) xs a ≡ h.cell a
      outside a (inl lt) = over-below h.cell (p - w / 2) a xs lt
      outside a (inr ge) = over-above h.cell (p - w / 2) a xs (omega (arith, v.size, v.fit))

  pub reserve_owned-reclaim :
      (g : Allocator) (additional : ℕ) (alloc : Bool)
      → n ≤ w / 2
      → additional ≤ w / 2 + (c - n)
      → reserve_owned g additional alloc (w / 2) (bytes_mut p n c w) h
        ≡ ok (bytes_mut (p - w / 2) n (c + w / 2) 1, true) moved
  unfolding reserve_owned
  reserve_owned-reclaim g additional alloc le enough = ground (
    arith,
    copy_nonoverlapping-ok h p (p - w / 2) n xs v.size v.holds
        (λ a lo hi. b.mapped a (omega arith) (omega (arith, v.fit))) (inr (omega arith)),
    mask_payload-ok moved w 0,
  )
