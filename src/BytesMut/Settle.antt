-- ===== src/BytesMut/Settle.antt =====
-- The heap after a reallocation in src/bytes/bytes_mut.rs: the new buffer is filled, the old one given back.
use tcio.Base.{ℕ, ◌+◌, ◌-◌, ◌/◌, ◌≤◌, ◌<◌, ◌≡◌, ◌≢◌, inr, ◌∙◌, refl, sym, List, length, arith, some}
use tcio.Memory.{Heap, ok, unmapped, IsFresh, allocate, deallocate, drop_vec, Grant}
use tcio.Memory.Cells.{Holds-over, Holds-Agree, Mapped}
use tcio.Memory.Fresh.{filled, filled-kept, filled-Mapped, apart_point}
use tcio.Shared.Backed.{owned}
use tcio.BytesMut.{bytes_mut}
use tcio.BytesMut.Valid.{IsMut}
use tcio.BytesMut.Reserve.{Outside}

module _ (h : Heap) (g : Grant) (need : ℕ) (f : IsFresh g need h) (xs : List ℕ) (n : ℕ)
    (size : length xs ≡ n) (fits : n ≤ need) where
  -- The new handle is valid in a heap that agrees with the filled one on its buffer.
  pub settled :
      (h' : Heap)
      → ((a : ℕ) → g.at ≤ a → a < g.at + g.cap → h'.cell a ≡ (filled h g need f xs).cell a)
      → h'.vecs g.at ≡ some g.cap
      → IsMut h' (bytes_mut g.at n g.cap 1) xs
  settled h' same live = record {
    size = size;
    fit = omega (arith, f.enough);
    holds =
        Holds-Agree (filled h g need f xs).cell h'.cell g.at xs
          (λ a lo hi. same a lo (omega (arith, f.enough))) (Holds-over (allocate g h).cell g.at xs);
    standing = owned refl (omega arith) (
        let e : g.at - 1 / 2 ≡ g.at = omega arith in
        let q : g.cap + 1 / 2 ≡ g.cap = omega arith in
        rw (e, q)
          (record {
            mapped = λ a lo hi z. filled-Mapped h g need f xs a lo hi (sym (same a lo hi) ∙ z);
            live = inr live;
            small = f.bounded;
          }));
  }

  -- Giving back a buffer that was mapped before spares the new one.
  pub deallocate-apart :
      (p c a : ℕ)
      → Mapped h.cell p c
      → g.at ≤ a
      → a < g.at + g.cap
      → (deallocate p c (filled h g need f xs)).cell a ≡ (filled h g need f xs).cell a
  deallocate-apart p c a m lo hi = ground (arith, apart_point h g need f p c a m lo hi)

  pub deallocate-Outside :
      (p c a : ℕ)
      → Outside p c a
      → h.cell a ≢ unmapped
      → (deallocate p c (filled h g need f xs)).cell a ≡ h.cell a
  deallocate-Outside p c a out m = ground (arith, out, filled-kept h g need f xs a (omega arith) m)

  pub drop_old :
      (p k c : ℕ)
      → 0 < c
      → h.vecs p ≡ some c
      → drop_vec (record { ptr = p; len = k; cap = c }) (filled h g need f xs)
        ≡ ok tt (deallocate p c (filled h g need f xs))
  unfolding drop_vec
  drop_old p k c pos live = ground (arith, f.new)

  pub drop_old_empty :
      (p k c : ℕ)
      → c ≡ 0
      → drop_vec (record { ptr = p; len = k; cap = c }) (filled h g need f xs)
        ≡ ok tt (filled h g need f xs)
  unfolding drop_vec
  drop_old_empty p k c e = ground arith

  pub still_listed :
      (p c : ℕ)
      → 0 < c
      → h.vecs p ≡ some c
      → (deallocate p c (filled h g need f xs)).vecs g.at ≡ some g.cap
  still_listed p c pos live = ground (arith, f.new)
