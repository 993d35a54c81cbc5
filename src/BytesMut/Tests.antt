-- ===== src/BytesMut/Tests.antt =====
-- The operations of src/bytes/bytes_mut.rs on small heaps.
use tcio.Base.{◌≡◌, refl, [], ◌∷◌, arith, false}
use tcio.Memory.{Ensures, ok, ◌>>=◌}
use tcio.Samples.{
  owned_heap, shared_heap, owned_mut, left_mut, right_mut, allocator, owned_mut-IsMut,
  left_mut-IsMut, right_mut-IsMut, owned_heap-IsFreshBox, shared_heap-Serves, shared_heap-IsBuffer,
}
use tcio.BytesMut.{
  try_split_off, reserve, extend_from_slice, try_unsplit, try_reclaim, bytes_mut, try_reclaim_full,
  BytesMut, split_off,
}
use tcio.BytesMut.TryReclaim.{Tried, try_reclaim_lem}
use tcio.BytesMut.Rejoin.{Whole, split_off-try_unsplit}
use tcio.BytesMut.Valid.{IsMut}
use tcio.BytesMut.Full.{try_reclaim_full-false}
use tcio.BytesMut.Split.{SplitOff, try_split_off_mut_lem}
use tcio.BytesMut.Reserve.{Reserved}
use tcio.BytesMut.Room.{reserve_lem}
use tcio.BytesMut.Extend.{Extended, extend_from_slice_lem}
use tcio.BytesMut.Unsplit.{Merged, try_unsplit_lem}

try_split_off_mut_lem_example :
    Ensures
      (SplitOff owned_heap owned_mut (20 ∷ 30 ∷ []) 1)
      (try_split_off 6 1 owned_mut owned_heap)
try_split_off_mut_lem_example =
    try_split_off_mut_lem owned_heap 6 owned_mut (20 ∷ 30 ∷ []) 1 owned_mut-IsMut
      owned_heap-IsFreshBox (omega arith)

reserve_lem_example :
    Ensures
      (Reserved (shared_heap 1) left_mut (10 ∷ 20 ∷ []) 9)
      (reserve allocator 9 left_mut (shared_heap 1))
reserve_lem_example =
    reserve_lem allocator 9 left_mut (shared_heap 1) (10 ∷ 20 ∷ []) (left_mut-IsMut 1 (omega arith))
      (shared_heap-Serves 1) (omega arith) (omega arith) (omega arith)

extend_from_slice_lem_example :
    Ensures
      (Extended (shared_heap 2) left_mut (10 ∷ 20 ∷ []) (7 ∷ 8 ∷ 9 ∷ []))
      (extend_from_slice allocator (7 ∷ 8 ∷ 9 ∷ []) left_mut (shared_heap 2))
extend_from_slice_lem_example =
    extend_from_slice_lem allocator (7 ∷ 8 ∷ 9 ∷ []) left_mut (shared_heap 2) (10 ∷ 20 ∷ [])
      (left_mut-IsMut 2 (omega arith)) (shared_heap-Serves 2) (omega arith) (omega arith)
      (omega arith)

try_unsplit_lem_example :
    Ensures
      (Merged (shared_heap 2) left_mut (10 ∷ 20 ∷ 30 ∷ []))
      (try_unsplit right_mut left_mut (shared_heap 2))
try_unsplit_lem_example =
    try_unsplit_lem (shared_heap 2) right_mut left_mut (10 ∷ 20 ∷ []) (30 ∷ [])
      (left_mut-IsMut 2 (omega arith)) (right_mut-IsMut 2 (omega arith)) refl refl refl
      (omega arith) (omega arith) (omega arith)

abbrev cut_mut : BytesMut
cut_mut = bytes_mut 100 1 2 2

cut_mut-IsMut : IsMut (shared_heap 1) cut_mut (10 ∷ [])
cut_mut-IsMut = record {
  size = refl;
  fit = omega arith;
  holds = (refl, tt);
  standing = (left_mut-IsMut 1 (omega arith)).standing;
}

try_reclaim_full-false_example :
    try_reclaim_full allocator cut_mut (shared_heap 1)
    ≡ ok (bytes_mut 100 1 4 2, false) (shared_heap 1)
try_reclaim_full-false_example =
    try_reclaim_full-false allocator (shared_heap 1) cut_mut (10 ∷ [])
      (record { ref_count = 1; ptr = 100; cap = 4 }) cut_mut-IsMut refl (omega arith) refl refl
      (shared_heap-IsBuffer 1) refl (omega arith) (omega arith) (omega arith) (omega arith)

try_reclaim_lem_example :
    Ensures
      (Tried (shared_heap 1) cut_mut (10 ∷ []) 2)
      (try_reclaim allocator 2 cut_mut (shared_heap 1))
try_reclaim_lem_example =
    try_reclaim_lem allocator 2 cut_mut (shared_heap 1) (10 ∷ []) cut_mut-IsMut (omega arith)

split_off-try_unsplit_example :
    Ensures
      (Whole owned_heap owned_mut (20 ∷ 30 ∷ []))
      ((split_off 6 1 owned_mut >>= λ (me, other). try_unsplit other me) owned_heap)
split_off-try_unsplit_example =
    split_off-try_unsplit owned_heap 6 owned_mut (20 ∷ 30 ∷ []) 1 owned_mut-IsMut
      owned_heap-IsFreshBox (omega arith) (omega arith) (omega arith)
