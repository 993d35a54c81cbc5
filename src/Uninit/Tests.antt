-- ===== src/Uninit/Tests.antt =====
-- Writes through src/bytes/uninit_slice.rs into a small buffer.
use tcio.Base.{◌<◌, ◌≡◌, ◌≢◌, ◌⊎◌, ◌+◌, [], ◌∷◌, arith}
use tcio.Memory.{Ensures, panic, and_then}
use tcio.Samples.{owned_heap, owned_heap-IsBuffer}
use tcio.Uninit.{UninitSlice, from_raw_parts_mut, range_to, index, copy_from_slice}
use tcio.Uninit.Writes.{IsSlice, Wrote, Within, index-copy_from_slice}

abbrev spare : UninitSlice
spare = from_raw_parts_mut 101 3

spare-IsSlice : IsSlice owned_heap spare
spare-IsSlice a lo hi = owned_heap-IsBuffer.mapped a (omega arith) (omega arith)

index-copy_from_slice_example :
    (Within 3 (range_to 2)
      → 0 + 2 ≡ 2
      → Ensures
          (λ _ h'. Wrote owned_heap (101 + 0) (7 ∷ 8 ∷ []) h')
          (and_then
            (index (range_to 2) spare owned_heap)
            (λ part. copy_from_slice (7 ∷ 8 ∷ []) part)))
    × (Within 3 (range_to 2)
        → 0 + 2 ≢ 2
        → and_then (index (range_to 2) spare owned_heap) (λ part. copy_from_slice (7 ∷ 8 ∷ []) part)
          ≡ panic)
    × (((2 < 0) ⊎ (3 < 2)) → index (range_to 2) spare owned_heap ≡ panic)
index-copy_from_slice_example =
    index-copy_from_slice owned_heap spare (range_to 2) (7 ∷ 8 ∷ []) spare-IsSlice (omega arith)
