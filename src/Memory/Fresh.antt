-- ===== src/Memory/Fresh.antt =====
-- New buffers: apart from all that is mapped, and filled by a copy.
use tcio.Base.{ℕ, ◌+◌, ◌≤◌, ◌<◌, ◌≡◌, ◌≢◌, ◌⊎◌, inl, inr, ◌∙◌, List, length, arith, max}
use tcio.Base.Words.{isize_max}
use tcio.Memory.{
  Heap, ok, unmapped, IsFresh, Allocator, Grant, allocate, over, with_capacity, copy_nonoverlapping,
}
use tcio.Memory.Cells.{
  Holds, Holds-Mapped, Holds-Agree, Mapped, over-below, over-above, over-mapped,
}
use tcio.Memory.Runs.{copy_nonoverlapping-ok}
use native.Mathlib.Decide.{dec_le, dec_lt}

module _ (h : Heap) (g : Grant) (n : ℕ) (f : IsFresh g n h) where
  -- A mapped region and the new one share no address.
  pub apart_point :
      (p c a : ℕ) → Mapped h.cell p c → g.at ≤ a → a < g.at + g.cap → (a < p) ⊎ (p + c ≤ a)
  apart_point p c a m lo hi = elim (dec_lt a p) [
    | yes lt ↦ inl lt
    | no ge ↦ elim (dec_le (p + c) a) [
      | yes le ↦ inr le
      | no gt ↦ absurd (m a (omega arith) (omega arith) (f.unused a lo hi))
    ]
  ]

  apart_range : (p m : ℕ) → Mapped h.cell p m → m ≤ n → (p + m ≤ g.at) ⊎ (g.at + m ≤ p)
  apart_range p m mp le = elim (dec_le (p + m) g.at) [
    | yes a ↦ inl a
    | no a ↦ elim (dec_le (g.at + m) p) [
      | yes b ↦ inr b
      | no b ↦ absurd (
          mp (max p g.at) (omega arith) (omega arith)
            (f.unused (max p g.at) (omega arith) (omega (arith, f.enough))))
    ]
  ]

  Mapped-allocate : Mapped (allocate g h).cell g.at g.cap
  Mapped-allocate a lo hi = ground arith

  Holds-allocate : (p : ℕ) (xs : List ℕ) → Holds h.cell p xs → Holds (allocate g h).cell p xs
  Holds-allocate p xs v =
      Holds-Agree h.cell (allocate g h).cell p xs
        (λ a lo hi. ground (
          arith,
          λ (l : g.at ≤ a) (u : a < g.at + g.cap).
              apart_point p (length xs) a (Holds-Mapped h.cell p xs v) l u,
        ))
        v

  -- The heap after the new buffer got a copy of the list.
  abbrev pub filled : List ℕ → Heap
  filled xs = record (allocate g h) { cell = over (allocate g h).cell g.at xs }

  pub copy-filled :
      (p m : ℕ) (xs : List ℕ)
      → length xs ≡ m
      → m ≤ n
      → Holds h.cell p xs
      → copy_nonoverlapping p g.at m (allocate g h) ≡ ok tt (filled xs)
  copy-filled p m xs e le v =
      copy_nonoverlapping-ok (allocate g h) p g.at m xs e (Holds-allocate p xs v)
        (λ a lo hi. Mapped-allocate a lo (omega (arith, f.enough)))
        (apart_range p m (rw e at (Holds-Mapped h.cell p xs v)) le)

  -- Every cell that was mapped is as it was.
  pub filled-kept :
      (xs : List ℕ) (a : ℕ) → length xs ≤ n → h.cell a ≢ unmapped → (filled xs).cell a ≡ h.cell a
  filled-kept xs a le m = elim (dec_lt a g.at) [
    | yes lt ↦ over-below (allocate g h).cell g.at a xs lt ∙ ground arith
    | no ge ↦ elim (dec_le (g.at + g.cap) a) [
      | yes up ↦ over-above (allocate g h).cell g.at a xs (omega (arith, f.enough)) ∙ ground arith
      | no in_range ↦ absurd (m (f.unused a (omega arith) (omega arith)))
    ]
  ]

  pub filled-Mapped : (xs : List ℕ) → Mapped (filled xs).cell g.at g.cap
  filled-Mapped xs a lo hi = over-mapped (allocate g h).cell g.at a xs (Mapped-allocate a lo hi)

pub with_capacity-ok :
    (g : Allocator) (n : ℕ) (h : Heap)
    → 0 < n
    → n ≤ isize_max
    → with_capacity g n h
      ≡ ok (record { ptr = (g n).at; len = 0; cap = (g n).cap }) (allocate (g n) h)
unfolding with_capacity
with_capacity-ok g n h pos le = ground arith
