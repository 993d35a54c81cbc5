-- ===== src/Bytes/Tests.antt =====
-- The operations of src/bytes/bytes.rs on small heaps.
use tcio.Base.{refl, ◌≡◌, arith, some, none}
use tcio.Memory.{Ensures, update}
use tcio.Samples.{owned_heap, owned_bytes}
use tcio.Bytes.{promote_ref, bytes, Heap}
use tcio.Bytes.Race.{promote_ref-lost}

-- The owned buffer of `owned_bytes`, and the control block of another thread at 2.
abbrev raced_heap : Heap
raced_heap = record owned_heap {
  boxes = update (λ k. none) 2 (some (record { ref_count = 1; ptr = 100; cap = 4 }));
}

promote_ref-lost_example :
    Ensures
      (λ r h'.
        (r ≡ (bytes 101 3 2, bytes 101 3 2))
        × (h'.boxes 2 ≡ some (record { ref_count = 2; ptr = 100; cap = 4 }))
        × (h'.boxes 6 ≡ some (record { ref_count = 1; ptr = 100; cap = 4 })))
      (promote_ref 6 2 owned_bytes 1 3 raced_heap)
promote_ref-lost_example =
    promote_ref-lost raced_heap 6 2 owned_bytes (record { ref_count = 1; ptr = 100; cap = 4 })
      (record { even = refl; positive = omega arith; new = refl }) refl refl refl (omega arith)
