-- ===== src/Samples.antt =====
-- Small heaps and handles of src/bytes for the tests, and that they are valid.
use tcio.Base.{ℕ, ◌<◌, refl, inr, [], ◌∷◌, none, some, arith}
use tcio.Memory.{Heap, Allocator, Serves, IsFreshBox, unmapped, uninit, fill, over, update}
use tcio.Memory.Cells.{over-mapped}
use tcio.Shared.Backed.{IsBuffer, owned, counted}
use tcio.Bytes.{Bytes, bytes}
use tcio.Bytes.Valid.{IsBytes, backed}
use tcio.BytesMut.{BytesMut, bytes_mut}
use tcio.BytesMut.Valid.{IsMut}

-- A buffer of 4 bytes at 100, which no control block knows.
abbrev pub owned_heap : Heap
owned_heap = record {
  cell = over (fill (λ a. unmapped) 100 4 uninit) 100 (10 ∷ 20 ∷ 30 ∷ 40 ∷ []);
  vecs = update (λ p. none) 100 (some 4);
  boxes = λ k. none;
}

-- A buffer of 4 bytes at 100, the last not written, that a control block at 2 counts `n` times.
abbrev pub shared_heap : ℕ → Heap
shared_heap n = record {
  cell = over (fill (λ a. unmapped) 100 4 uninit) 100 (10 ∷ 20 ∷ 30 ∷ []);
  vecs = update (λ p. none) 100 (some 4);
  boxes = update (λ k. none) 2 (some (record { ref_count = n; ptr = 100; cap = 4 }));
}

-- Moved one byte into the buffer: the word 3 has the offset 1.
abbrev pub owned_bytes : Bytes
owned_bytes = bytes 101 3 3

abbrev pub shared_bytes : Bytes
shared_bytes = bytes 100 3 2

abbrev pub owned_mut : BytesMut
owned_mut = bytes_mut 101 2 3 3

-- Two adjoining handles on the shared buffer.
abbrev pub left_mut : BytesMut
left_mut = bytes_mut 100 2 2 2

abbrev pub right_mut : BytesMut
right_mut = bytes_mut 102 1 2 2

-- Every request is served at 1000, with the capacity that was asked for.
abbrev pub allocator : Allocator
allocator n = record { at = 1000; cap = n }

pub owned_heap-IsBuffer : IsBuffer owned_heap 100 4
owned_heap-IsBuffer = record {
  mapped = λ a lo hi.
      over-mapped (fill (λ a. unmapped) 100 4 uninit) 100 a (10 ∷ 20 ∷ 30 ∷ 40 ∷ []) (ground arith);
  live = inr refl;
  small = omega arith;
}

pub shared_heap-IsBuffer : (n : ℕ) → IsBuffer (shared_heap n) 100 4
shared_heap-IsBuffer n = record {
  mapped = λ a lo hi.
      over-mapped (fill (λ a. unmapped) 100 4 uninit) 100 a (10 ∷ 20 ∷ 30 ∷ []) (ground arith);
  live = inr refl;
  small = omega arith;
}

pub owned_heap-Serves : Serves allocator owned_heap
owned_heap-Serves n pos le = record {
  enough = omega arith;
  bounded = le;
  unused = λ a lo hi. ground arith;
  new = refl;
}

pub shared_heap-Serves : (n : ℕ) → Serves allocator (shared_heap n)
shared_heap-Serves c n pos le = record {
  enough = omega arith;
  bounded = le;
  unused = λ a lo hi. ground arith;
  new = refl;
}

pub owned_heap-IsFreshBox : IsFreshBox 6 owned_heap
owned_heap-IsFreshBox = record { even = refl; positive = omega arith; new = refl }

pub owned_bytes-IsBytes : IsBytes owned_heap owned_bytes (20 ∷ 30 ∷ 40 ∷ [])
owned_bytes-IsBytes = record {
  size = refl;
  holds = (refl, (refl, (refl, tt)));
  standing = backed (owned refl (omega arith) owned_heap-IsBuffer);
}

pub shared_bytes-IsBytes :
    (n : ℕ) → 0 < n → IsBytes (shared_heap n) shared_bytes (10 ∷ 20 ∷ 30 ∷ [])
shared_bytes-IsBytes n pos = record {
  size = refl;
  holds = (refl, (refl, (refl, tt)));
  standing =
      backed (
        counted _ refl (omega arith) refl pos (omega arith) (omega arith) (shared_heap-IsBuffer n));
}

pub owned_mut-IsMut : IsMut owned_heap owned_mut (20 ∷ 30 ∷ [])
owned_mut-IsMut = record {
  size = refl;
  fit = omega arith;
  holds = (refl, (refl, tt));
  standing = owned refl (omega arith) owned_heap-IsBuffer;
}

pub left_mut-IsMut : (n : ℕ) → 0 < n → IsMut (shared_heap n) left_mut (10 ∷ 20 ∷ [])
left_mut-IsMut n pos = record {
  size = refl;
  fit = omega arith;
  holds = (refl, (refl, tt));
  standing =
      counted _ refl (omega arith) refl pos (omega arith) (omega arith) (shared_heap-IsBuffer n);
}

pub right_mut-IsMut : (n : ℕ) → 0 < n → IsMut (shared_heap n) right_mut (30 ∷ [])
right_mut-IsMut n pos = record {
  size = refl;
  fit = omega arith;
  holds = (refl, tt);
  standing =
      counted _ refl (omega arith) refl pos (omega arith) (omega arith) (shared_heap-IsBuffer n);
}
