-- ===== src/Transfer/Tests.antt =====
-- `put` of src/bytes/bytes_mut.rs and `copy_to_bytes` of src/bytes/buf.rs on short slices.
use tcio.Base.{◌≤◌, ◌<◌, ◌≡◌, [], ◌∷◌, arith, List, ℕ}
use tcio.Memory.{Ensures, panic}
use tcio.Samples.{
  allocator, owned_heap, owned_heap-IsFreshBox, owned_heap-Serves, owned_mut, owned_mut-IsMut,
}
use tcio.Buf.{slice_buf, Chain}
use tcio.Buf.Copy.{slice-Lawful}
use tcio.Transfer.Chained.{chain_copy_to_bytes_lem}
use tcio.Transfer.Contract.{slice_copy_to_bytes-CopiesOut, copy_to_bytes-CopiesOut}
use tcio.Buf.Adapters.{chain-Lawful}
use tcio.Transfer.{put, copy_to_bytes, chain_copy_to_bytes, slice_copy_to_bytes}
use tcio.Transfer.Fill.{Put, put_mut_lem}
use tcio.Transfer.Copy.{CopiedOut, copy_to_bytes_lem}

put_mut_lem_example : Ensures (Put slice-Lawful (20 ∷ 30 ∷ 5 ∷ 6 ∷ [])) (
    put slice_buf allocator
      (copy_to_bytes slice_buf allocator 6 1)
      (5 ∷ 6 ∷ [])
      owned_mut
      owned_heap)
put_mut_lem_example =
    put_mut_lem slice-Lawful allocator (copy_to_bytes slice_buf allocator 6 1) (5 ∷ 6 ∷ [])
      owned_mut (20 ∷ 30 ∷ []) owned_heap tt owned_mut-IsMut (omega arith) owned_heap-Serves
      (omega arith) (omega arith) (omega arith)

copy_to_bytes_lem_example :
    (2 ≤ 3
      → Ensures
          (CopiedOut slice-Lawful (1 ∷ 2 ∷ 3 ∷ []) 2)
          (copy_to_bytes slice_buf allocator 6 1 2 (1 ∷ 2 ∷ 3 ∷ []) owned_heap))
    × (3 < 2 → copy_to_bytes slice_buf allocator 6 1 2 (1 ∷ 2 ∷ 3 ∷ []) owned_heap ≡ panic)
copy_to_bytes_lem_example =
    copy_to_bytes_lem slice-Lawful allocator 6 0 2 (1 ∷ 2 ∷ 3 ∷ []) owned_heap tt owned_heap-Serves
      owned_heap-IsFreshBox (omega arith)

-- The first three bytes of a chain of two slices, of which the first has two.
abbrev chained : Chain (List ℕ) (List ℕ)
chained = record { a = 1 ∷ 2 ∷ []; b = 3 ∷ 4 ∷ [] }

chain_copy_to_bytes_lem_example :
    (3 ≤ 4
      → Ensures (CopiedOut (chain-Lawful slice-Lawful slice-Lawful) (1 ∷ 2 ∷ 3 ∷ 4 ∷ []) 3) (
          chain_copy_to_bytes slice_buf slice_buf
            (slice_copy_to_bytes allocator 6)
            (copy_to_bytes slice_buf allocator 6 1)
            allocator
            6
            3
            chained
            owned_heap))
    × (4 < 3
        → chain_copy_to_bytes slice_buf slice_buf
            (slice_copy_to_bytes allocator 6)
            (copy_to_bytes slice_buf allocator 6 1)
            allocator
            6
            3
            chained
            owned_heap
          ≡ panic)
chain_copy_to_bytes_lem_example =
    chain_copy_to_bytes_lem slice-Lawful slice-Lawful (slice_copy_to_bytes allocator 6)
      (copy_to_bytes slice_buf allocator 6 1) allocator 6 3 chained owned_heap
      ((tt, tt), omega arith)
      (slice_copy_to_bytes-CopiesOut allocator 6 (1 ∷ 2 ∷ []) owned_heap owned_heap-Serves
        owned_heap-IsFreshBox (omega arith))
      (copy_to_bytes-CopiesOut slice-Lawful allocator 6 0 (3 ∷ 4 ∷ []) owned_heap tt
        owned_heap-Serves owned_heap-IsFreshBox (omega arith))
      owned_heap-Serves owned_heap-IsFreshBox (omega arith)
