-- ===== src/Bytes/Threads/Alone.antt =====
-- A thread that nobody interrupts: `clone_inner` in src/bytes/bytes.rs is its three steps.
use tcio.Base.{ℕ, ◌≡◌, arith}
use tcio.Memory.{Heap}
use tcio.Shared.{promote_with_vec, as_unpromoted, increment}
use tcio.Bytes.{Bytes, clone_inner, promote_ref, build_unpromoted_vec}
use tcio.Bytes.Threads.{turn, alone, answer}

-- A thread that is not interrupted does in three steps what `clone_inner` does, on any handle and
-- in any state of the memory, aborts and faults included.
alone-clone_inner : (h : Heap) (k : ℕ) (b : Bytes) → alone k b h ≡ clone_inner k b.data_word b h
unfolding alone turn answer clone_inner promote_ref promote_with_vec build_unpromoted_vec
    as_unpromoted increment
alone-clone_inner h k b = ground arith
