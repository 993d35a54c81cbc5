-- ===== src/BytesMut/Full.antt =====
-- `try_reclaim_full` in src/bytes/bytes_mut.rs.
use tcio.Base.{
  ℕ, ◌+◌, ◌-◌, ◌*◌, ◌%◌, ◌≤◌, ◌<◌, ◌≡◌, inr, refl, some, arith, List, true, false, ◌==◌, leb,
}
use tcio.Base.Words.{isize_max, word_mod}
use tcio.Memory.{Heap, Shared, Allocator, ok}
use tcio.Shared
use tcio.Shared.Backed.{IsBuffer}
use tcio.Shared.Steps.{as_unpromoted-even}
use tcio.BytesMut.{BytesMut, try_reclaim_full, reserve_inner, reallocate_shared}
use tcio.BytesMut.Valid.{IsMut}
use tcio.BytesMut.Reclaim.{reclaim-else}

-- The last handle on a promoted buffer of at most 2 ^ 62 - 1 bytes that begins where the buffer
-- begins, has some bytes written and some spare room, and has lost the tail of the buffer:
-- `try_reclaim_full` gives it the tail, so that it has the whole buffer, and answers `false`.
pub try_reclaim_full-false :
    (g : Allocator) (h : Heap) (m : BytesMut) (xs : List ℕ) (s : Shared)
    → IsMut h m xs
    → m.data_word % 2 ≡ 0
    → 0 < m.data_word
    → h.boxes m.data_word ≡ some s
    → s.ref_count ≡ 1
    → IsBuffer h s.ptr s.cap
    → s.ptr ≡ m.ptr
    → 0 < m.len
    → m.len < m.cap
    → m.cap < s.cap
    → s.cap * 2 ≤ isize_max
    → try_reclaim_full g m h ≡ ok (record m { cap = s.cap }, false) h
unfolding try_reclaim_full reserve_inner reallocate_shared Shared.is_unique
try_reclaim_full-false g h m xs s v even pos box one b start written spare cut small =
    let z : (s.cap - m.len == 0) ≡ false = ground arith in
    let u : (s.ref_count == 1) ≡ true = ground arith in
    let fine : leb ((s.cap - m.len + m.cap) % word_mod) isize_max ≡ true = ground arith in
    let full : m.cap + (s.cap - (m.cap + (m.ptr - s.ptr))) ≡ s.cap = omega arith in
    rw
      (
        as_unpromoted-even h m.data_word even box,
        z,
        fine,
        as_unpromoted-even h m.data_word even box,
        u,
        reclaim-else h (s.cap - m.len) m.ptr m.len m.cap m.data_word xs v s even pos box one
            (omega arith) (omega arith) b g false (omega arith) (inr (omega arith)),
        full,
      )
      refl
