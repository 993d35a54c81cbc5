-- ===== src/Bytes/Threads/Tests.antt =====
-- Two threads race to promote one handle, each with a control block of its own.
use tcio.Base.{◌≡◌, refl, some, arith, ◌%◌}
use tcio.Memory.{Heap, IsFreshBox, Ensures, set_box, load_box}
use tcio.Samples.{owned_heap, owned_bytes, owned_heap-IsFreshBox}
use tcio.Shared.{as_unpromoted, promote_with_vec, increment, release}
use tcio.Bytes.{bytes, build_unpromoted_vec}
use tcio.Bytes.Threads.{
  start, created, cloned, turn, world, left_turn, right_turn, Reach, begin, next,
}
use tcio.Bytes.Threads.Points.{block}
use tcio.Bytes.Threads.Safe.{IsSound, Reach-turn, Reach-cloned}

-- The first thread has its block at 6.
abbrev first_heap : Heap
first_heap = set_box 6 (some (block owned_bytes 2)) owned_heap

-- The second thread has its own at 8.
abbrev both_heap : Heap
both_heap = set_box 8 (some (block owned_bytes 2)) first_heap

first_heap-IsFreshBox : IsFreshBox 8 first_heap
first_heap-IsFreshBox = record { even = refl; positive = omega arith; new = refl }

both_heap-IsFreshBox : IsFreshBox 10 both_heap
both_heap-IsFreshBox = record { even = refl; positive = omega arith; new = refl }

-- Both have created a block.
both_created :
    Reach
      (world owned_bytes start start owned_heap)
      (world owned_bytes (created 3 6) (created 3 8) both_heap)
unfolding turn as_unpromoted promote_with_vec build_unpromoted_vec
both_created =
    next
      (next
        (next (next begin (left_turn 6 owned_heap-IsFreshBox refl))
          (right_turn 6 owned_heap-IsFreshBox refl))
        (left_turn 6 owned_heap-IsFreshBox refl))
      (right_turn 8 first_heap-IsFreshBox refl)

Reach-turn_example :
    Ensures
      (λ r h'. IsSound owned_bytes owned_heap (world r.0 r.1 (created 3 8) h'))
      (turn 10 owned_bytes (created 3 6) both_heap)
    × Ensures
        (λ r h'. IsSound owned_bytes owned_heap (world r.0 (created 3 6) r.1 h'))
        (turn 10 owned_bytes (created 3 8) both_heap)
Reach-turn_example =
    Reach-turn owned_bytes owned_heap (world owned_bytes (created 3 6) (created 3 8) both_heap) 10
      refl both_created both_heap-IsFreshBox

-- The first thread wins, and the second one releases its block, which stays with a count of one.
abbrev late_heap : Heap
late_heap = set_box 8 (some (block owned_bytes 1)) both_heap

abbrev end_heap : Heap
end_heap = set_box 6 (some (block owned_bytes 3)) late_heap

late_heap-IsFreshBox : IsFreshBox 10 late_heap
late_heap-IsFreshBox = record { even = refl; positive = omega arith; new = refl }

both_cloned :
    Reach
      (world owned_bytes start start owned_heap)
      (world (bytes 101 3 6) (cloned (bytes 101 3 6)) (cloned (bytes 101 3 6)) end_heap)
unfolding turn release increment load_box
both_cloned =
    next
      (next
        (next (next both_created (left_turn 10 both_heap-IsFreshBox refl))
          (right_turn 10 both_heap-IsFreshBox refl))
        (right_turn 10 both_heap-IsFreshBox refl))
      (right_turn 10 late_heap-IsFreshBox refl)

Reach-cloned_example :
    (bytes 101 3 6 ≡ bytes 101 3 6)
    × (bytes 101 3 6 ≡ bytes 101 3 6)
    × (bytes 101 3 6 ≡ bytes 101 3 6)
    × (6 % 2 ≡ 0)
    × (end_heap.boxes 6 ≡ some (block owned_bytes 3))
    × (end_heap.cell ≡ owned_heap.cell)
    × (end_heap.vecs ≡ owned_heap.vecs)
Reach-cloned_example =
    Reach-cloned owned_bytes owned_heap (bytes 101 3 6) (bytes 101 3 6) (bytes 101 3 6) end_heap
      refl both_cloned
